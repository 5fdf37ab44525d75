-- ===== src/Wire/Span.antt =====
-- One field: what `read_span` consumes, and that it reads the same bytes the same way anywhere.
use presage.Prelude.{
  ℕ, ◌+◌, ◌/◌, ◌%◌, ◌^◌, ◌<◌, bit_and, List, ◌++◌, false, ◌==◌, length, ok, ◌≡◌, ap, ◌∙◌, arith,
  Bool-cases, inl, inr, length-append, append_assoc, Result, ◌>>=◌, >>=-eq-ok,
}
use presage.Wire.{EditError, FieldSpan, read_varint, read_payload, read_span, wire_varint}
use presage.Wire.Varint.{IsVarint, read_varint_from-Consumed}
use presage.Wire.Payload.{Consumed-payload, Fits, range, IsPayload}

-- A field as its bytes: the tag with any length prefix, then the payload.
pub record Field : Type 0 where
  pub number : ℕ
  pub wire_type : ℕ
  pub head : List ℕ
  pub payload : List ℕ

abbrev pub bytes : Field → List ℕ
bytes f = f.head ++ f.payload

-- The span of a field that starts at `pos`.
abbrev pub span_at : ℕ → Field → FieldSpan
span_at pos f = record {
  number = f.number;
  wire_type = f.wire_type;
  whole = range pos (pos + length f.head + length f.payload);
  payload = range (pos + length f.head) (pos + length f.head + length f.payload);
}

-- Whatever surrounds them, the bytes read as the field.
pub record IsField (f : Field) : Type 0 where
  pub varint : f.wire_type ≡ wire_varint → (w : ℕ) × IsVarint 10 0 0 f.payload w
  pub nonempty : 0 < length f.head
  pub reads :
      (pre rest : List ℕ)
      → Fits (pre ++ (bytes f ++ rest))
      → read_span (pre ++ (bytes f ++ rest)) (length pre) ≡ ok (span_at (length pre) f)

-- A field from a tag and a payload.
abbrev pub field_of : ℕ → List ℕ → List ℕ → List ℕ → Field
field_of tag lead skip body = record {
  number = tag / 8 % 2 ^ 32;
  wire_type = bit_and tag 7;
  head = lead ++ skip;
  payload = body;
}

pub IsField-field_of :
    (tag : ℕ) (lead skip body : List ℕ)
    → (tag / 8 % 2 ^ 32 == 0) ≡ false
    → IsVarint 10 0 0 lead tag
    → IsPayload (bit_and tag 7) skip body
    → IsField (field_of tag lead skip body)
unfolding read_span read_varint
IsField-field_of tag lead skip body nonzero is payload = record {
  varint = payload.varint;
  nonempty = omega (arith, is.nonempty, length-append lead skip);
  reads = λ pre rest fits.
      let whole : pre ++ (((lead ++ skip) ++ body) ++ rest)
          ≡ pre ++ (lead ++ (skip ++ (body ++ rest))) =
        simp append_assoc in
      let moved : (pre ++ lead) ++ (skip ++ (body ++ rest))
          ≡ pre ++ (lead ++ (skip ++ (body ++ rest))) =
        simp append_assoc in
      let inner : read_payload (pre ++ (lead ++ (skip ++ (body ++ rest)))) (bit_and tag 7)
            (length pre + length lead)
          ≡ ok (
              range (length pre + length lead + length skip)
                (length pre + length lead + length skip + length body)) =
        rw (moved, length-append) at
          (payload.reads (pre ++ lead) rest (rw moved (rw whole at fits))) in
      rw (whole, is.reads pre (skip ++ (body ++ rest)), nonzero, inner)
        (ground (arith, length-append lead skip));
}

-- The part of `read_span` behind the tag.
abbrev behind_tag : ℕ → List ℕ → ℕ → ℕ → Result EditError FieldSpan
behind_tag tag msg start pos = read_payload msg (bit_and tag 7) pos >>= λ payload. ok (record {
  number = tag / 8 % 2 ^ 32;
  wire_type = bit_and tag 7;
  whole = record { start = start; end = payload.end };
  payload = payload;
})

behind_tag-Field :
    (tag : ℕ) (pre lead tail : List ℕ) {span : FieldSpan}
    → (tag / 8 % 2 ^ 32 == 0) ≡ false
    → IsVarint 10 0 0 lead tag
    → behind_tag tag (pre ++ (lead ++ tail)) (length pre) (length pre + length lead) ≡ ok span
    → (f : Field) × (rest : List ℕ) × (lead ++ tail ≡ bytes f ++ rest)
      × (span ≡ span_at (length pre) f)
      × IsField f
behind_tag-Field tag pre lead tail {span} nonzero is h =
    let (r, read, e) =
      >>=-eq-ok (read_payload (pre ++ (lead ++ tail)) (bit_and tag 7) (length pre + length lead)) _
        h in
    let read' : read_payload ((pre ++ lead) ++ tail) (bit_and tag 7) (length (pre ++ lead)) ≡ ok r =
      rw (append_assoc, length-append) read in
    let (skip, body, rest, split, r_eq, payload) =
      Consumed-payload (pre ++ lead) tail (bit_and tag 7) read' in
    (
      field_of tag lead skip body,
      rest,
      ap (λ t. lead ++ t) split ∙ simp append_assoc,
      ground (arith, length-append pre lead, length-append lead skip),
      IsField-field_of tag lead skip body nonzero is payload,
    )

pub read_span-Field :
    (pre xs : List ℕ) {span : FieldSpan}
    → read_span (pre ++ xs) (length pre) ≡ ok span
    → (f : Field) × (rest : List ℕ) × (xs ≡ bytes f ++ rest)
      × (span ≡ span_at (length pre) f)
      × IsField f
unfolding read_span read_varint
read_span-Field pre xs h =
    let ((tag, pos), read, e) = >>=-eq-ok (read_varint (pre ++ xs) (length pre)) _ h in
    let (lead, tail, split, pos_eq, is) = read_varint_from-Consumed 10 0 0 pre xs read in
    elim (Bool-cases (tag / 8 % 2 ^ 32 == 0)) [
      | inl void ↦ let e' = rw void at e in absurd (cc)
      | inr nonzero ↦
          let e' = rw (nonzero, pos_eq, split) at e in
          let (f, rest, bytes_eq, span_eq, field) =
            behind_tag-Field tag pre lead tail nonzero is e' in
          (f, rest, split ∙ bytes_eq, span_eq, field)
    ]
