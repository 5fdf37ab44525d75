-- ===== src/Record/Varint.antt =====
-- Setting a varint field of a submessage: read-back, frame, overwriting, and that it succeeds.
use presage.Prelude.{
  ℕ, ◌+◌, ◌^◌, ◌<◌, List, [], ◌∷◌, ◌++◌, Option, none, some, not, ◌==◌, if◌then◌else◌, length,
  retain, Result, ok, ◌>>=◌, ◌≡◌, ◌≢◌, refl, sym, ap, ◌∙◌, arith, Bool-cases, inl, inr,
  append_assoc, append-nil, length-append, ==_ne,
}
use presage.Wire.{EditError, at_range, read_varint, scan, encode_varint_field}
use presage.Wire.Payload.{Fits}
use presage.Wire.Span.{Field, bytes, IsField, span_at}
use presage.Wire.Scan.{All, wire_of, spans_at, scan_ok, wholes, whole-span_at}
use presage.Wire.Edit.{
  only, others, edit, new_fields, new_bytes, Numbered, only-edit, others-edit, only-edit_other,
  All-edit, edit-edit,
}
use presage.Wire.Encode.{
  varint, varint-IsVarint, varint_field, len_field, encode_varint_field-Field,
}
use presage.Record.{
  record_payload, record_varint_field, set_record_field, set_varint_field_or_remove,
}
use presage.Record.Payload.{last_value, record_varint_field-last_value, Holds, Holds-record_payload}
use presage.Record.Update.{
  Updated, updated, set_record_field-Updated, set_record_field-updated, set_record_field_total,
  read-updated, others-updated, Holds-updated, payload-Fits,
}

-- The fields that `set_varint_field_or_remove` writes for a value.
abbrev pub varint_fields : ℕ → ℕ → Option (List Field)
varint_fields n v = if not (v == 0) then some (varint_field n v ∷ []) else none

-- The bytes of a message outside the fields of one number, in order.
pub other_bytes : ℕ → List ℕ → Result EditError (List ℕ)
other_bytes n msg = do spans ← scan msg; ok (wholes msg (retain (λ s. not (s.number == n)) spans))

-- The same inside the one submessage of a record.
pub other_inner_bytes : ℕ → ℕ → List ℕ → Result EditError (List ℕ)
other_inner_bytes rf n record' = do
  p ← record_payload record' rf
  other_bytes n (at_range record' p)

wholes-others :
    (n : ℕ) (msg pre : List ℕ) (fs : List Field)
    → msg ≡ pre ++ wire_of fs
    → wholes msg (retain (λ s. not (s.number == n)) (spans_at (length pre) fs))
      ≡ wire_of (others n fs)
wholes-others n msg pre [] h = refl
wholes-others n msg pre (f ∷ fs) h =
    let here : at_range msg (span_at (length pre) f).whole ≡ bytes f =
      rw h (whole-span_at pre f (wire_of fs)) in
    let behind : length pre + length f.head + length f.payload ≡ length (pre ++ bytes f) =
      omega (arith, length-append pre (bytes f), length-append f.head f.payload) in
    let ih =
      wholes-others n msg (pre ++ bytes f) fs (h ∙ sym (append_assoc pre (bytes f) (wire_of fs))) in
    let ih' = rw (← behind) at ih in
    elim (Bool-cases (f.number == n)) [
      | inl yes' ↦ rw yes' ih'
      | inr no' ↦ rw (no', here) (ap (λ t. bytes f ++ t) ih')
    ]

other_bytes-others :
    (n : ℕ) (fs : List Field)
    → All IsField fs
    → Fits (wire_of fs)
    → other_bytes n (wire_of fs) ≡ ok (wire_of (others n fs))
unfolding other_bytes
other_bytes-others n fs is fits =
    rw (scan_ok fs is fits) (ap ok (wholes-others n (wire_of fs) [] fs refl))

other_inner_bytes-others :
    (fs : List Field) (rf : ℕ) (g : Field) (gs : List Field) (n : ℕ)
    → Holds fs rf g
    → Fits (wire_of fs)
    → g.payload ≡ wire_of gs
    → All IsField gs
    → other_inner_bytes rf n (wire_of fs) ≡ ok (wire_of (others n gs))
unfolding other_inner_bytes
other_inner_bytes-others fs rf g gs n h fits body is =
    let (p, payload, at_p) = Holds-record_payload fs rf g h fits in
    rw (payload, at_p, body)
      (other_bytes-others n gs is (rw (← body) (payload-Fits fs rf g h.single fits)))

module _ (rf n : ℕ) (rf_positive : 0 < rf) (rf_small : rf < 2 ^ 32) (n_positive : 0 < n)
    (n_small : n < 2 ^ 32) where
  module _ (v : ℕ) (v_small : v < 2 ^ 64) where
    varint_fields-bytes :
        (if not (v == 0) then some (encode_varint_field n v) else none)
        ≡ new_bytes (varint_fields n v)
    varint_fields-bytes =
        let e =
          (encode_varint_field-Field n n_positive n_small v v_small).0
          ∙ sym (append-nil (bytes (varint_field n v))) in
        ground (arith, e)

    pub varint_fields-IsField : All IsField (new_fields (varint_fields n v))
    varint_fields-IsField = elim (Bool-cases (v == 0)) [
      | inl none' ↦ rw none' tt
      | inr some' ↦ rw some' ((encode_varint_field-Field n n_positive n_small v v_small).1, tt)
    ]

    pub varint_fields-Numbered : Numbered n (new_fields (varint_fields n v))
    varint_fields-Numbered = elim (Bool-cases (v == 0)) [
      | inl none' ↦ rw none' tt
      | inr some' ↦ rw some' (refl, tt)
    ]

    varint_fields-last_value : last_value (new_fields (varint_fields n v)) ≡ ok v
    unfolding last_value read_varint
    varint_fields-last_value =
        let alone = rw (append-nil (varint v)) at ((varint-IsVarint v v_small).reads [] []) in
        elim (Bool-cases (v == 0)) [
          | inl none' ↦ rw none' (ground arith)
          | inr some' ↦ rw (some', alone) refl
        ]

    pub set_varint-bytes :
        (record' : List ℕ)
        → set_varint_field_or_remove record' rf n v
          ≡ set_record_field record' rf n (new_bytes (varint_fields n v))
    unfolding set_varint_field_or_remove
    set_varint-bytes record' = ap (set_record_field record' rf n) varint_fields-bytes

    module _ (record' : List ℕ) {out : List ℕ} (fits : Fits record') where
      pub Updated-set :
          set_varint_field_or_remove record' rf n v ≡ ok out
          → Updated record' rf n (varint_fields n v) out
      Updated-set h =
          set_record_field-Updated rf rf_positive rf_small record' n (varint_fields n v) fits
            (sym (set_varint-bytes record') ∙ h)

      read-Updated :
          (m : ℕ)
          → Fits out
          → (u : Updated record' rf n (varint_fields n v) out)
          → record_varint_field out rf m ≡ last_value (only m (edit n (varint_fields n v) u.gs))
      read-Updated m fits_out u =
          ap (λ t. record_varint_field t rf m) u.result
          ∙ read-updated rf rf_positive rf_small u.fs (edit n (varint_fields n v) u.gs) m
              u.holds.fields
              (All-edit IsField n (varint_fields n v) u.gs varint_fields-IsField u.inner)
              (rw (← u.result) fits_out)

      read-record :
          (m : ℕ)
          → (u : Updated record' rf n (varint_fields n v) out)
          → record_varint_field record' rf m ≡ last_value (only m u.gs)
      read-record m u =
          let fits' : Fits (wire_of u.fs) = rw (← u.whole) fits in
          ap (λ t. record_varint_field t rf m) u.whole
          ∙ record_varint_field-last_value u.fs rf u.g u.gs m u.holds fits' u.body u.inner
              (rw (← u.body) (payload-Fits u.fs rf u.g u.holds.single fits'))

-- For nonzero field numbers below 2^32, a value below 2^64, and an edit that succeeds, with a record
-- shorter than 2^64 bytes before and after: the value that
-- `set_varint_field_or_remove` wrote is the one that `record_varint_field` reads, also when the value is 0
-- and the field was removed.
pub record_varint_field-set :
    (rf n v : ℕ) (record' : List ℕ) {out : List ℕ}
    → 0 < rf
    → rf < 2 ^ 32
    → 0 < n
    → n < 2 ^ 32
    → v < 2 ^ 64
    → Fits record'
    → Fits out
    → set_varint_field_or_remove record' rf n v ≡ ok out
    → record_varint_field out rf n ≡ ok v
record_varint_field-set rf n v record' a b c d v_small fits fits_out h =
    let u = Updated-set rf n a b c d v v_small record' fits h in
    read-Updated rf n a b c d v v_small record' fits n fits_out u
    ∙ ap last_value
        (only-edit n (varint_fields n v) (varint_fields-Numbered rf n a b c d v v_small) u.gs)
    ∙ varint_fields-last_value rf n a b c d v v_small

-- For nonzero field numbers below 2^32, a value below 2^64, and an edit that succeeds, with a record
-- shorter than 2^64 bytes before and after: every other
-- varint field of the same submessage reads as it did before, an error to read it included.
pub record_varint_field-set_other :
    (rf n v m : ℕ) (record' : List ℕ) {out : List ℕ}
    → 0 < rf
    → rf < 2 ^ 32
    → 0 < n
    → n < 2 ^ 32
    → v < 2 ^ 64
    → Fits record'
    → Fits out
    → n ≢ m
    → set_varint_field_or_remove record' rf n v ≡ ok out
    → record_varint_field out rf m ≡ record_varint_field record' rf m
record_varint_field-set_other rf n v m record' a b c d v_small fits fits_out ne h =
    let u = Updated-set rf n a b c d v v_small record' fits h in
    read-Updated rf n a b c d v v_small record' fits m fits_out u
    ∙ ap last_value (
        only-edit_other n (varint_fields n v) (varint_fields-Numbered rf n a b c d v v_small) m u.gs
          ne)
    ∙ sym (read-record rf n a b c d v v_small record' fits m u)

-- For nonzero field numbers below 2^32, a value below 2^64, and an edit that succeeds, with a record
-- shorter than 2^64 bytes before and after: the bytes of the
-- record outside the submessage, and those of the submessage outside the edited field, are the same bytes in
-- the same order.
pub other_bytes-set :
    (rf n v : ℕ) (record' : List ℕ) {out : List ℕ}
    → 0 < rf
    → rf < 2 ^ 32
    → 0 < n
    → n < 2 ^ 32
    → v < 2 ^ 64
    → Fits record'
    → Fits out
    → set_varint_field_or_remove record' rf n v ≡ ok out
    → (other_bytes rf out ≡ other_bytes rf record')
      × (other_inner_bytes rf n out ≡ other_inner_bytes rf n record')
other_bytes-set rf n v record' a b c d v_small fits fits_out h =
    let u = Updated-set rf n a b c d v v_small record' fits h in
    let gs' = edit n (varint_fields n v) u.gs in
    let fits' : Fits (wire_of u.fs) = rw (← u.whole) fits in
    let fits_new : Fits (wire_of (updated u.fs rf gs')) = rw (← u.result) fits_out in
    let holds' = Holds-updated rf a b u.fs gs' u.holds.fields fits_new in
    let is' =
      All-edit IsField n (varint_fields n v) u.gs (varint_fields-IsField rf n a b c d v v_small)
        u.inner in
    (
      ap (other_bytes rf) u.result
          ∙ other_bytes-others rf (updated u.fs rf gs') holds'.fields fits_new
          ∙ ap (λ t. ok (wire_of t)) (others-updated u.fs rf gs')
          ∙ sym (other_bytes-others rf u.fs u.holds.fields fits')
          ∙ ap (other_bytes rf) (sym u.whole),
      ap (other_inner_bytes rf n) u.result
          ∙ other_inner_bytes-others (updated u.fs rf gs') rf (len_field rf (wire_of gs')) gs' n
              holds' fits_new refl is'
          ∙ ap (λ t. ok (wire_of t))
              (others-edit n (varint_fields n v) (varint_fields-Numbered rf n a b c d v v_small)
                u.gs)
          ∙ sym (other_inner_bytes-others u.fs rf u.g u.gs n u.holds fits' u.body u.inner)
          ∙ ap (other_inner_bytes rf n) (sym u.whole),
    )

-- For nonzero field numbers below 2^32 and a value below 2^64: if the record is shorter than 2^64 bytes and
-- some varint field of the submessage reads, then `set_varint_field_or_remove` gives a record.
pub set_varint_total :
    (rf n v m : ℕ) (record' : List ℕ) {w : ℕ}
    → 0 < rf
    → rf < 2 ^ 32
    → 0 < n
    → n < 2 ^ 32
    → v < 2 ^ 64
    → Fits record'
    → record_varint_field record' rf m ≡ ok w
    → (out : List ℕ) × (set_varint_field_or_remove record' rf n v ≡ ok out)
set_varint_total rf n v m record' a b c d v_small fits h =
    let (out, e) = set_record_field_total rf a b record' n (varint_fields n v) m fits h in
    (out, set_varint-bytes rf n a b c d v v_small record' ∙ e)

varint_fields-edit :
    (n v : ℕ) (r : Option (List Field)) (gs : List Field)
    → v ≢ 0
    → edit n r (edit n (varint_fields n v) gs) ≡ edit n r gs
varint_fields-edit n v r gs nonzero =
    rw (==_ne v 0 nonzero) (edit-edit n (varint_field n v) r gs refl)

-- For nonzero field numbers below 2^32, values below 2^64 of which the first is not 0, and records shorter
-- than 2^64 bytes: after a first edit that succeeds, a second edit of the same field gives, byte for byte,
-- what it gives on the record before the first, or the same error.
pub set_varint-set_varint :
    (rf n v w : ℕ) (record' : List ℕ) {mid : List ℕ}
    → 0 < rf
    → rf < 2 ^ 32
    → 0 < n
    → n < 2 ^ 32
    → v < 2 ^ 64
    → w < 2 ^ 64
    → v ≢ 0
    → Fits record'
    → Fits mid
    → set_varint_field_or_remove record' rf n v ≡ ok mid
    → set_varint_field_or_remove mid rf n w ≡ set_varint_field_or_remove record' rf n w
set_varint-set_varint rf n v w record' {mid} a b c d v_small w_small nonzero fits fits_mid h =
    let u = Updated-set rf n a b c d v v_small record' fits h in
    let gs' = edit n (varint_fields n v) u.gs in
    let r = varint_fields n w in
    let fits' : Fits (wire_of u.fs) = rw (← u.whole) fits in
    let fits_new : Fits (wire_of (updated u.fs rf gs')) = rw (← u.result) fits_mid in
    let is' =
      All-edit IsField n (varint_fields n v) u.gs (varint_fields-IsField rf n a b c d v v_small)
        u.inner in
    let inner : edit n r gs' ≡ edit n r u.gs = varint_fields-edit n v r u.gs nonzero in
    let outer : updated (updated u.fs rf gs') rf (edit n r gs') ≡ updated u.fs rf (edit n r u.gs) =
      edit-edit rf (len_field rf (wire_of gs')) _ u.fs refl ∙ ap (updated u.fs rf) inner in
    set_varint-bytes rf n a b c d w w_small mid
    ∙ ap (λ t. set_record_field t rf n (new_bytes r)) u.result
    ∙ set_record_field-updated rf a b (updated u.fs rf gs') (len_field rf (wire_of gs')) gs' n r
        (Holds-updated rf a b u.fs gs' u.holds.fields fits_new) fits_new refl is'
    ∙ ap (λ t. ok (wire_of t)) outer
    ∙ sym (set_record_field-updated rf a b u.fs u.g u.gs n r u.holds fits' u.body u.inner)
    ∙ ap (λ t. set_record_field t rf n (new_bytes r)) (sym u.whole)
    ∙ sym (set_varint-bytes rf n a b c d w w_small record')
