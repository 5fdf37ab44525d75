-- ===== src/Record/Payload.antt =====
-- The single submessage of a record, and a varint field of it, over the record's fields.
use presage.Prelude.{
  ℕ, ◌+◌, List, [], ◌∷◌, ◌++◌, none, some, true, false, not, ◌==◌, if◌then◌else◌, length, retain,
  Result, ok, err, ◌>>=◌, >>=-eq-ok, ◌≡◌, refl, sym, ◌∙◌, arith, Bool-cases, ◌⊎◌, inl, inr,
  append_assoc, append-nil, length-append, subst,
}
use presage.Wire.{EditError, malformed, Range, FieldSpan, at_range, wire_varint, read_varint, scan}
use presage.Wire.Varint.{IsVarint}
use presage.Wire.Payload.{Fits}
use presage.Wire.Span.{Field, bytes, span_at, IsField}
use presage.Wire.Scan.{All, wire_of, spans_at, scan_ok, scan-Fields, payload-span_at}
use presage.Wire.Edit.{only}
use presage.Record.{single_payload, record_payload, find_last, varint_of_span, record_varint_field}

-- A span of `msg` that shows the field `f`.
pub record Sits (msg : List ℕ) (span : FieldSpan) (f : Field) : Type 0 where
  pub number : span.number ≡ f.number
  pub wire_type : span.wire_type ≡ f.wire_type
  pub payload : at_range msg span.payload ≡ f.payload
  pub reads :
      (w : ℕ)
      → IsVarint 10 0 0 f.payload w
      → read_varint msg span.payload.start ≡ ok (w, span.payload.end)

abbrev pub AllSits : List ℕ → List FieldSpan → List Field → Type 0
AllSits msg [] [] = Unit
AllSits msg [] (f ∷ fs) = ⊥
AllSits msg (span ∷ spans) [] = ⊥
AllSits msg (span ∷ spans) (f ∷ fs) = Sits msg span f × AllSits msg spans fs

module _ (pre : List ℕ) (f : Field) (rest : List ℕ) where
  Sits-span_at : Sits (pre ++ (bytes f ++ rest)) (span_at (length pre) f) f
  unfolding read_varint
  Sits-span_at = record {
    number = refl;
    wire_type = refl;
    payload = payload-span_at pre f rest;
    reads = λ w is.
        let moved : pre ++ (bytes f ++ rest) ≡ (pre ++ f.head) ++ (f.payload ++ rest) =
          simp append_assoc in
        rw (moved, ← length-append pre f.head) (is.reads (pre ++ f.head) rest);
  }

pub AllSits-spans_at :
    (msg pre : List ℕ) (fs : List Field)
    → msg ≡ pre ++ wire_of fs
    → AllSits msg (spans_at (length pre) fs) fs
AllSits-spans_at msg pre [] h = tt
AllSits-spans_at msg pre (f ∷ fs) h =
    let behind : length pre + length f.head + length f.payload ≡ length (pre ++ bytes f) =
      omega (arith, length-append pre (bytes f), length-append f.head f.payload) in
    (
      rw h (Sits-span_at pre f (wire_of fs)),
      rw behind (
          AllSits-spans_at msg (pre ++ bytes f) fs
            (h ∙ sym (append_assoc pre (bytes f) (wire_of fs)))),
    )

pub AllSits-only :
    (msg : List ℕ) (n : ℕ) (spans : List FieldSpan) (fs : List Field)
    → AllSits msg spans fs
    → AllSits msg (retain (λ s. s.number == n) spans) (only n fs)
AllSits-only msg n [] [] h = tt
AllSits-only msg n [] (f ∷ fs) h = absurd h
AllSits-only msg n (span ∷ spans) [] h = absurd h
AllSits-only msg n (span ∷ spans) (f ∷ fs) h = elim (Bool-cases (f.number == n)) [
  | inl here ↦
      let same : (span.number == n) ≡ true = rw h.0.number here in
      rw (same, here) (h.0, AllSits-only msg n spans fs h.1)
  | inr other ↦
      let same : (span.number == n) ≡ false = rw h.0.number other in
      rw (same, other) (AllSits-only msg n spans fs h.1)
]

-- The value that a lone field spells.
abbrev pub field_value : Field → Result EditError ℕ
field_value f =
    if not (f.wire_type == wire_varint)
    then err malformed
    else (read_varint f.payload 0 >>= λ r. ok r.0)

-- The value of the last of some fields; none of them reads as 0.
unfoldable pub last_value : List Field → Result EditError ℕ
last_value [] = ok 0
last_value (f ∷ []) = field_value f
last_value (f ∷ g ∷ fs) = last_value (g ∷ fs)

varint_of_span-field_value :
    (msg : List ℕ) (span : FieldSpan) (f : Field)
    → IsField f
    → Sits msg span f
    → varint_of_span msg (some span) ≡ field_value f
unfolding varint_of_span read_varint
varint_of_span-field_value msg span f is sits = elim (Bool-cases (f.wire_type == wire_varint)) [
  | inr other ↦ rw (sits.wire_type, other) refl
  | inl plain ↦
      let (w, v) = is.varint (ground arith) in
      let alone = rw (append-nil f.payload) at (v.reads [] []) in
      rw (sits.wire_type, plain, sits.reads w v, alone) refl
]

last_value-snoc : (before : List Field) (f : Field) → last_value (before ++ f ∷ []) ≡ field_value f
unfolding last_value
last_value-snoc [] f = refl
last_value-snoc (g ∷ []) f = refl
last_value-snoc (g ∷ k ∷ before) f = last_value-snoc (k ∷ before) f

-- What `find_last` finds.
abbrev Found : List ℕ → ℕ → List FieldSpan → List Field → Type 0
Found msg n spans fs =
    ((only n fs ≡ []) × (find_last n spans ≡ none))
    ⊎ ((span : FieldSpan) × (f : Field) × (before : List Field) × (find_last n spans ≡ some span)
        × (only n fs ≡ before ++ f ∷ [])
        × Sits msg span f
        × IsField f)

find_last-Found :
    (msg : List ℕ) (n : ℕ) (spans : List FieldSpan) (fs : List Field)
    → AllSits msg spans fs
    → All IsField fs
    → Found msg n spans fs
unfolding find_last
find_last-Found msg n [] [] h is = inl (refl, refl)
find_last-Found msg n [] (f ∷ fs) h is = absurd h
find_last-Found msg n (span ∷ spans) [] h is = absurd h
find_last-Found msg n (span ∷ spans) (f ∷ fs) h is =
    elim (find_last-Found msg n spans fs h.1 is.1) [
      | inr (later, g, before, found, last, sits, is_g) ↦ elim (Bool-cases (f.number == n)) [
        | inl here ↦ inr (later, g, f ∷ before, ground arith, ground arith, sits, is_g)
        | inr other ↦ inr (later, g, before, ground arith, ground arith, sits, is_g)
      ]
      | inl (absent, missing) ↦ elim (Bool-cases (f.number == n)) [
        | inl here ↦
            let same : (span.number == n) ≡ true = rw h.0.number here in
            inr (span, f, [], ground arith, ground arith, h.0, is.0)
        | inr other ↦
            let same : (span.number == n) ≡ false = rw h.0.number other in
            inl (ground arith, ground arith)
      ]
    ]

-- Over a message of fields, the value found is that of the last field of the number.
pub varint_of_span-find_last :
    (n : ℕ) (fs : List Field)
    → All IsField fs
    → varint_of_span (wire_of fs) (find_last n (spans_at 0 fs)) ≡ last_value (only n fs)
unfolding varint_of_span last_value
varint_of_span-find_last n fs is =
    elim (find_last-Found (wire_of fs) n (spans_at 0 fs) fs
      (AllSits-spans_at (wire_of fs) [] fs refl) is) [
        | inl (absent, missing) ↦ rw (absent, missing) refl
        | inr (span, f, before, found, last, sits, is_f) ↦
            rw (found, last, last_value-snoc before f)
              (varint_of_span-field_value (wire_of fs) span f is_f sits)
      ]

-- A record whose only field `rf` is `g`.
pub record Holds (fs : List Field) (rf : ℕ) (g : Field) : Type 0 where
  pub fields : All IsField fs
  pub single : only rf fs ≡ g ∷ []

single-Sits :
    (msg : List ℕ) (spans : List FieldSpan) (fs : List Field) {r : Range}
    → AllSits msg spans fs
    → single_payload spans ≡ ok r
    → (g : Field) × (fs ≡ g ∷ []) × (at_range msg r ≡ g.payload)
unfolding single_payload
single-Sits msg [] fs h e = absurd (cc)
single-Sits msg (span ∷ []) [] h e = absurd h
single-Sits msg (span ∷ []) (g ∷ []) {r} h e =
    let same : span.payload ≡ r = ground arith in
    (g, refl, subst (λ t. at_range msg t ≡ g.payload) same h.0.payload)
single-Sits msg (span ∷ []) (g ∷ k ∷ fs) h e = absurd h.1
single-Sits msg (span ∷ other ∷ spans) fs h e = absurd (cc)

-- A record with a payload is fields end to end, one of them of the number asked for.
pub record_payload-Holds :
    (record' : List ℕ) (rf : ℕ) {r : Range}
    → record_payload record' rf ≡ ok r
    → (fs : List Field) × (g : Field) × (record' ≡ wire_of fs)
      × Holds fs rf g
      × (at_range record' r ≡ g.payload)
unfolding record_payload
record_payload-Holds record' rf h =
    let (spans, scanned, e) = >>=-eq-ok (scan record') _ h in
    let (fs, whole, spans_eq, is) = scan-Fields record' scanned in
    let sits = AllSits-spans_at record' [] fs whole in
    let sits' : AllSits record' (retain (λ s. s.number == rf) spans) (only rf fs) =
      rw spans_eq (AllSits-only record' rf (spans_at 0 fs) fs sits) in
    let (g, one, body) =
      single-Sits record' (retain (λ s. s.number == rf) spans) (only rf fs) sits' e in
    (fs, g, whole, record { fields = is; single = one }, body)

payload_of-single :
    (msg : List ℕ) (spans : List FieldSpan) (g : Field)
    → AllSits msg spans (g ∷ [])
    → (r : Range) × (single_payload spans ≡ ok r) × (at_range msg r ≡ g.payload)
unfolding single_payload
payload_of-single msg [] g h = absurd h
payload_of-single msg (span ∷ []) g h = (span.payload, refl, h.0.payload)
payload_of-single msg (span ∷ other ∷ spans) g h = absurd h.1

pub Holds-record_payload :
    (fs : List Field) (rf : ℕ) (g : Field)
    → Holds fs rf g
    → Fits (wire_of fs)
    → (r : Range) × (record_payload (wire_of fs) rf ≡ ok r) × (at_range (wire_of fs) r ≡ g.payload)
unfolding record_payload
Holds-record_payload fs rf g h fits =
    let sits =
      AllSits-only (wire_of fs) rf (spans_at 0 fs) fs (AllSits-spans_at (wire_of fs) [] fs refl) in
    let (r, one, body) =
      payload_of-single (wire_of fs) (retain (λ s. s.number == rf) (spans_at 0 fs)) g
        (rw h.single at sits) in
    (r, rw (scan_ok fs h.fields fits) one, body)

-- Reading a varint of a record's payload reads the last of its fields of that number.
pub record_varint_field-last_value :
    (fs : List Field) (rf : ℕ) (g : Field) (gs : List Field) (n : ℕ)
    → Holds fs rf g
    → Fits (wire_of fs)
    → g.payload ≡ wire_of gs
    → All IsField gs
    → Fits (wire_of gs)
    → record_varint_field (wire_of fs) rf n ≡ last_value (only n gs)
unfolding record_varint_field
record_varint_field-last_value fs rf g gs n h fits body is fits' =
    let (r, payload, at_r) = Holds-record_payload fs rf g h fits in
    rw (payload, at_r, body, scan_ok gs is fits') (varint_of_span-find_last n gs is)
