-- ===== src/Examples/Wire.antt =====
-- presage/src/storage_record.rs, first half, on short messages.
use presage.Prelude.{
  ℕ, ◌+◌, ◌*◌, ◌≤◌, length-append, List, [], ◌∷◌, ◌++◌, none, length, ok, ◌≡◌, refl, arith,
}
use presage.Wire.{FieldSpan, scan, set_field, read_varint, encode_varint, wire}
use presage.Wire.Payload.{Fits}
use presage.Wire.Span.{Field, bytes, IsField}
use presage.Wire.Scan.{All, wire_of, wholes, scan-tiles}
use presage.Wire.Edit.{edit, set_field-edit}
use presage.Wire.Encode.{
  varint, varint_field, length-varint-le, encode_varint_field-Field, read_varint-encode_varint,
}

read_varint-encode_varint_example :
    read_varint (encode_varint 300 (7 ∷ []) ++ 9 ∷ []) 1
    ≡ ok (300, length (encode_varint 300 (7 ∷ [])))
read_varint-encode_varint_example = read_varint-encode_varint (7 ∷ []) (9 ∷ []) 300 (omega arith)

abbrev two_fields : List ℕ
two_fields = 0x48 ∷ 1 ∷ 0x12 ∷ 2 ∷ 7 ∷ 8 ∷ []

abbrev two_spans : List FieldSpan
two_spans =
    record {
      number = 9;
      wire_type = 0;
      whole = record { start = 0; end = 2 };
      payload = record { start = 1; end = 2 };
    }
    ∷ record {
      number = 2;
      wire_type = 2;
      whole = record { start = 2; end = 6 };
      payload = record { start = 4; end = 6 };
    }
    ∷ []

scan-two_fields : scan two_fields ≡ ok two_spans
unfolding wire
scan-two_fields = refl

scan-tiles_example : wholes two_fields two_spans ≡ two_fields
scan-tiles_example = scan-tiles two_fields scan-two_fields

abbrev numbers : List Field
numbers = varint_field 9 1 ∷ varint_field 11 5 ∷ []

numbers-IsField : All IsField numbers
numbers-IsField = (
  (encode_varint_field-Field 9 (omega arith) (omega arith) 1 (omega arith)).1,
  ((encode_varint_field-Field 11 (omega arith) (omega arith) 5 (omega arith)).1, tt),
)

length-field : (number value : ℕ) → length (bytes (varint_field number value)) ≤ 20
length-field number value = omega (
  arith,
  length-append (varint_field number value).head (varint value),
  length-append (varint (number * 8 + 0)) [],
  length-varint-le (number * 8 + 0),
  length-varint-le value,
)

numbers-Fits : Fits (wire_of numbers)
numbers-Fits = omega (
  arith,
  length-append (bytes (varint_field 9 1)) (wire_of (varint_field 11 5 ∷ [])),
  length-append (bytes (varint_field 11 5)) [],
  length-field 9 1,
  length-field 11 5,
)

set_field-edit_example : set_field (wire_of numbers) 9 none ≡ ok (wire_of (edit 9 none numbers))
set_field-edit_example = set_field-edit 9 none numbers numbers-IsField numbers-Fits
