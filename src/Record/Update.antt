-- ===== src/Record/Update.antt =====
-- `set_record_field` and its readers: what was written is read back, and all else stays.
use presage.Prelude.{
  ℕ, ◌^◌, ◌<◌, ◌≤◌, List, [], ◌∷◌, Option, some, ◌==◌, length, ok, >>=-eq-ok, ◌≡◌, refl, sym, ap,
  ◌∙◌, arith, Bool-cases, inl, inr, append-nil, length-append,
}
use presage.Wire.{at_range, scan, set_field, encode_len_delimited}
use presage.Wire.Payload.{Fits}
use presage.Wire.Span.{Field, bytes, IsField}
use presage.Wire.Scan.{All, wire_of, scan-Fields}
use presage.Wire.Edit.{
  only, others, edit, new_bytes, only-edit, others-edit, All-edit, set_field-edit, set_field-Fields,
}
use presage.Wire.Encode.{len_field, encode_len_delimited-bytes, len_field-IsField}
use presage.Record.{record_payload, record_varint_field, set_record_field}
use presage.Record.Payload.{
  Holds, record_payload-Holds, Holds-record_payload, record_varint_field-last_value, last_value,
}

wire-only-le : (n : ℕ) (fs : List Field) → length (wire_of (only n fs)) ≤ length (wire_of fs)
wire-only-le n [] = omega arith
wire-only-le n (f ∷ fs) = elim (Bool-cases (f.number == n)) [
  | inl here ↦ rw here (
      omega (
        arith,
        wire-only-le n fs,
        length-append (bytes f) (wire_of (only n fs)),
        length-append (bytes f) (wire_of fs),
      ))
  | inr other ↦ rw other (omega (arith, wire-only-le n fs, length-append (bytes f) (wire_of fs)))
]

-- The payload of the one field of a number fits where the message does.
pub payload-Fits :
    (fs : List Field) (rf : ℕ) (g : Field)
    → only rf fs ≡ g ∷ []
    → Fits (wire_of fs)
    → Fits g.payload
payload-Fits fs rf g one fits =
    let le : length (wire_of (g ∷ [])) ≤ length (wire_of fs) = rw one at (wire-only-le rf fs) in
    omega (arith, le, length-append (bytes g) [], length-append g.head g.payload)

-- The record with its submessage's fields rewritten.
abbrev pub updated : List Field → ℕ → List Field → List Field
updated fs rf gs = edit rf (some (len_field rf (wire_of gs) ∷ [])) fs

-- What a successful edit of a record has done to its fields.
pub record Updated (record' : List ℕ) (rf n : ℕ) (r : Option (List Field)) (out : List ℕ)
    : Type 0 where
  pub fs : List Field
  pub g : Field
  pub gs : List Field
  pub whole : record' ≡ wire_of fs
  pub holds : Holds fs rf g
  pub body : g.payload ≡ wire_of gs
  pub inner : All IsField gs
  pub result : out ≡ wire_of (updated fs rf (edit n r gs))

-- A record that holds one submessage of a number, itself fields end to end.
pub record Readable (record' : List ℕ) (rf : ℕ) : Type 0 where
  pub fs : List Field
  pub g : Field
  pub gs : List Field
  pub whole : record' ≡ wire_of fs
  pub holds : Holds fs rf g
  pub body : g.payload ≡ wire_of gs
  pub inner : All IsField gs

pub readable :
    (record' : List ℕ) (rf m : ℕ) {w : ℕ}
    → record_varint_field record' rf m ≡ ok w
    → Readable record' rf
unfolding record_varint_field
readable record' rf m h =
    let (p, payload, e) = >>=-eq-ok (record_payload record' rf) _ h in
    let (spans, scanned, e') = >>=-eq-ok (scan (at_range record' p)) _ e in
    let (fs, g, whole, holds, at_p) = record_payload-Holds record' rf payload in
    let (gs, inner_eq, spans_eq, is) = scan-Fields (at_range record' p) scanned in
    record {
      fs = fs;
      g = g;
      gs = gs;
      whole = whole;
      holds = holds;
      body = sym at_p ∙ inner_eq;
      inner = is;
    }

module _ (rf : ℕ) (positive : 0 < rf) (small : rf < 2 ^ 32) where
  new_submessage :
      (fs : List Field) (gs : List Field)
      → All IsField fs
      → Fits (wire_of fs)
      → set_field (wire_of fs) rf (some (encode_len_delimited rf (wire_of gs)))
        ≡ ok (wire_of (updated fs rf gs))
  new_submessage fs gs is fits =
      let e : encode_len_delimited rf (wire_of gs) ≡ wire_of (len_field rf (wire_of gs) ∷ []) =
        encode_len_delimited-bytes rf positive small (wire_of gs)
        ∙ sym (append-nil (bytes (len_field rf (wire_of gs)))) in
      rw e (set_field-edit rf (some (len_field rf (wire_of gs) ∷ [])) fs is fits)

  Updated-by :
      {record' inner new_inner out : List ℕ} {n : ℕ} {r : Option (List Field)} (fs : List Field)
      (g : Field)
      → Fits record'
      → record' ≡ wire_of fs
      → Holds fs rf g
      → inner ≡ g.payload
      → set_field inner n (new_bytes r) ≡ ok new_inner
      → set_field record' rf (some (encode_len_delimited rf new_inner)) ≡ ok out
      → Updated record' rf n r out
  Updated-by {record'} {inner} {new_inner} {out} {n} {r} fs g fits whole holds at_p edited e =
      let fits_g = payload-Fits fs rf g holds.single (rw (← whole) fits) in
      let (gs, body, is, new_eq) = set_field-Fields inner n r (rw at_p fits_g) edited in
      let direct = new_submessage fs (edit n r gs) holds.fields (rw (← whole) fits) in
      let done : set_field (wire_of fs) rf (some (encode_len_delimited rf (wire_of (edit n r gs))))
          ≡ ok out =
        rw (whole, new_eq) at e in
      record {
        fs = fs;
        g = g;
        gs = gs;
        whole = whole;
        holds = holds;
        body = sym at_p ∙ body;
        inner = is;
        result = cc (direct, done);
      }

  pub set_record_field-Updated :
      (record' : List ℕ) (n : ℕ) (r : Option (List Field)) {out : List ℕ}
      → Fits record'
      → set_record_field record' rf n (new_bytes r) ≡ ok out
      → Updated record' rf n r out
  unfolding set_record_field
  set_record_field-Updated record' n r fits h =
      let (p, payload, e) = >>=-eq-ok (record_payload record' rf) _ h in
      let (new_inner, edited, e') =
        >>=-eq-ok (set_field (at_range record' p) n (new_bytes r)) _ e in
      let (fs, g, whole, holds, at_p) = record_payload-Holds record' rf payload in
      Updated-by fs g fits whole holds at_p edited e'

  -- On a record that holds a readable submessage the edit runs, and its result is known.
  pub set_record_field-updated :
      (fs : List Field) (g : Field) (gs : List Field) (n : ℕ) (r : Option (List Field))
      → Holds fs rf g
      → Fits (wire_of fs)
      → g.payload ≡ wire_of gs
      → All IsField gs
      → set_record_field (wire_of fs) rf n (new_bytes r)
        ≡ ok (wire_of (updated fs rf (edit n r gs)))
  unfolding set_record_field
  set_record_field-updated fs g gs n r h fits body is =
      let (p, payload, at_p) = Holds-record_payload fs rf g h fits in
      let fits_g : Fits (wire_of gs) = rw (← body) (payload-Fits fs rf g h.single fits) in
      rw (payload, at_p, body, set_field-edit n r gs is fits_g)
        (new_submessage fs (edit n r gs) h.fields fits)

  -- A record that reads can be edited, whatever the field.
  pub set_record_field_total :
      (record' : List ℕ) (n : ℕ) (r : Option (List Field)) (m : ℕ) {w : ℕ}
      → Fits record'
      → record_varint_field record' rf m ≡ ok w
      → (out : List ℕ) × (set_record_field record' rf n (new_bytes r) ≡ ok out)
  set_record_field_total record' n r m fits h =
      let read = readable record' rf m h in runs record' n r fits read
    where
      runs :
          (record' : List ℕ) (n : ℕ) (r : Option (List Field))
          → Fits record'
          → Readable record' rf
          → (out : List ℕ) × (set_record_field record' rf n (new_bytes r) ≡ ok out)
      runs record' n r fits read = (
        wire_of (updated read.fs rf (edit n r read.gs)),
        ap (λ t. set_record_field t rf n (new_bytes r)) read.whole
            ∙ set_record_field-updated read.fs read.g read.gs n r read.holds
                (rw (← read.whole) fits) read.body read.inner,
      )

-- The fields of an edited record: one new submessage, and the others as they were.
module _ (fs : List Field) (rf : ℕ) (gs : List Field) where
  pub only-updated : only rf (updated fs rf gs) ≡ len_field rf (wire_of gs) ∷ []
  only-updated = only-edit rf (some (len_field rf (wire_of gs) ∷ [])) (refl, tt) fs

  pub others-updated : others rf (updated fs rf gs) ≡ others rf fs
  others-updated = others-edit rf (some (len_field rf (wire_of gs) ∷ [])) (refl, tt) fs

  -- The submessage fits where the record that holds it does.
  pub submessage-Fits : Fits (wire_of (updated fs rf gs)) → Fits (wire_of gs)
  submessage-Fits fits =
      payload-Fits (updated fs rf gs) rf (len_field rf (wire_of gs)) only-updated fits

module _ (rf : ℕ) (positive : 0 < rf) (small : rf < 2 ^ 32) where
  pub Holds-updated :
      (fs : List Field) (gs : List Field)
      → All IsField fs
      → Fits (wire_of (updated fs rf gs))
      → Holds (updated fs rf gs) rf (len_field rf (wire_of gs))
  Holds-updated fs gs is fits = record {
    fields =
        All-edit IsField rf (some (len_field rf (wire_of gs) ∷ [])) fs
          (len_field-IsField rf positive small (wire_of gs) (submessage-Fits fs rf gs fits), tt) is;
    single = only-updated fs rf gs;
  }

  -- Reading any varint field of an edited record.
  pub read-updated :
      (fs : List Field) (gs : List Field) (n : ℕ)
      → All IsField fs
      → All IsField gs
      → Fits (wire_of (updated fs rf gs))
      → record_varint_field (wire_of (updated fs rf gs)) rf n ≡ last_value (only n gs)
  read-updated fs gs n is is' fits =
      record_varint_field-last_value (updated fs rf gs) rf (len_field rf (wire_of gs)) gs n
        (Holds-updated fs gs is fits) fits refl is' (submessage-Fits fs rf gs fits)
