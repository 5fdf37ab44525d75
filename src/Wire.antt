-- ===== src/Wire.antt =====
-- presage/src/storage_record.rs, first half: the protobuf wire format, walked without decoding.
-- A byte is a number below 256, a message a list of bytes, and a position an index into it, as in
-- the source; a `&mut pos` comes back beside the result.
pub mod Varint
pub mod Payload
pub mod Span
pub mod Scan
pub mod Edit
pub mod Encode
use presage.Prelude.{
  ℕ, zero, suc, ◌+◌, ◌*◌, ◌/◌, ◌%◌, ◌^◌, bit_and, bit_or, List, [], ◌∷◌, ◌++◌, Option, none, some,
  Bool, true, false, ltb, leb, ◌==◌, if◌then◌else◌, length, get_elem?, slice, Result, ok, err,
  ok_or, ◌>>=◌, ◌≡◌, refl,
}

abbrev pub wire_varint : ℕ
wire_varint = 0

abbrev pub wire_i64 : ℕ
wire_i64 = 1

abbrev pub wire_len : ℕ
wire_len = 2

abbrev pub wire_i32 : ℕ
wire_i32 = 5

-- `StorageRecordEditError`
pub data EditError : Type 0 where
  malformed wrong_record_type ambiguous_record : EditError

-- `Range<usize>`
pub record Range : Type 0 where
  pub start : ℕ
  pub end : ℕ

pub record FieldSpan : Type 0 where
  pub number : ℕ
  pub wire_type : ℕ
  pub whole : Range
  pub payload : Range

-- `&msg[range]`
abbrev pub at_range : List ℕ → Range → List ℕ
at_range msg r = slice msg r.start r.end

-- One round of the `for`; `rounds` counts the shifts that are left of 0, 7, .., 63.
unfoldable pub read_varint_from : ℕ → ℕ → ℕ → List ℕ → ℕ → Result EditError (ℕ × ℕ)
read_varint_from zero shift value msg pos = err malformed
read_varint_from (suc rounds) shift value msg pos = do
  byte ← ok_or (get_elem? msg pos) malformed
  let value' = bit_or value (bit_and byte 0x7f * 2 ^ shift % 2 ^ 64)
  let rest = read_varint_from rounds (shift + 7) value' msg (pos + 1)
  if bit_and byte 0x80 == 0 then ok (value', pos + 1) else rest

-- The value and the position behind it.
unfoldable pub read_varint : List ℕ → ℕ → Result EditError (ℕ × ℕ)
read_varint msg pos = read_varint_from 10 0 0 msg pos

-- The position before and the position behind `by` bytes. `usize` has 64 bits.
unfoldable pub advance : ℕ → ℕ → ℕ → Result EditError (ℕ × ℕ)
advance pos by len =
    if leb (2 ^ 64) (pos + by)
    then err malformed
    else if ltb len (pos + by)
    then err malformed
    else ok (pos, pos + by)

-- The `match wire_type`: the payload, whose end is the new position.
unfoldable pub read_payload : List ℕ → ℕ → ℕ → Result EditError Range
read_payload msg wire_type pos =
    if wire_type == wire_varint
    then (do (value, end) ← read_varint msg pos; ok (record { start = pos; end = end }))
    else if wire_type == wire_i64
    then (do (from, end) ← advance pos 8 (length msg); ok (record { start = from; end = end }))
    else if wire_type == wire_len
    then (do
      (len, pos') ← read_varint msg pos
      (from, end) ← advance pos' len (length msg)
      ok (record { start = from; end = end }))
    else if wire_type == wire_i32
    then (do (from, end) ← advance pos 4 (length msg); ok (record { start = from; end = end }))
    else err malformed

-- The body of the `while`: the span at `pos`. `(tag >> 3) as u32` wraps.
unfoldable pub read_span : List ℕ → ℕ → Result EditError FieldSpan
read_span msg start = do
  (tag, pos) ← read_varint msg start
  let number = tag / 8 % 2 ^ 32
  let wire_type = bit_and tag 7
  let rest = do
    payload ← read_payload msg wire_type pos
    ok (record {
      number = number;
      wire_type = wire_type;
      whole = record { start = start; end = payload.end };
      payload = payload;
    })
  if number == 0 then err malformed else rest

-- The `while`, on fuel: every span has a byte, so `length msg` rounds are enough.
unfoldable pub scan_from : ℕ → List ℕ → ℕ → List FieldSpan → Result EditError (List FieldSpan)
scan_from zero msg pos spans = if ltb pos (length msg) then err malformed else ok spans
scan_from (suc fuel) msg pos spans =
    let more =
      read_span msg pos >>= (λ span. scan_from fuel msg span.whole.end (spans ++ span ∷ [])) in
    if ltb pos (length msg) then more else ok spans

unfoldable pub scan : List ℕ → Result EditError (List FieldSpan)
scan msg = scan_from (length msg) msg 0 []

-- The loop of `set_field` over the spans, with `out` and `placed`.
unfoldable pub set_field_from :
    List ℕ → ℕ → Option (List ℕ) → List FieldSpan → List ℕ → Bool → List ℕ × Bool
set_field_from msg number replacement [] out placed = (out, placed)
set_field_from msg number replacement (span ∷ spans) out placed = elim (span.number == number) [
  | true ↦ elim replacement [
    | some bytes ↦ elim placed [
      | false ↦ set_field_from msg number replacement spans (out ++ bytes) true
      | true ↦ set_field_from msg number replacement spans out true
    ]
    | none ↦ set_field_from msg number replacement spans out placed
  ]
  | false ↦ set_field_from msg number replacement spans (out ++ at_range msg span.whole) placed
]

-- The append behind the loop.
unfoldable pub place : Option (List ℕ) → List ℕ × Bool → List ℕ
place replacement (out, true) = out
place none (out, false) = out
place (some bytes) (out, false) = out ++ bytes

unfoldable pub set_field : List ℕ → ℕ → Option (List ℕ) → Result EditError (List ℕ)
set_field msg number replacement = do
  spans ← scan msg
  ok (place replacement (set_field_from msg number replacement spans [] false))

-- The `while value >= 0x80`, on fuel: a `u64` has ten groups of seven bits at most.
unfoldable pub encode_varint_from : ℕ → ℕ → List ℕ → List ℕ
encode_varint_from zero value out = out
encode_varint_from (suc fuel) value out =
    let more = encode_varint_from fuel (value / 2 ^ 7) (out ++ bit_or (value % 256) 0x80 ∷ []) in
    if leb 0x80 value then more else out ++ value % 256 ∷ []

unfoldable pub encode_varint : ℕ → List ℕ → List ℕ
encode_varint value out = encode_varint_from 10 value out

unfoldable pub encode_tag : ℕ → ℕ → List ℕ → List ℕ
encode_tag number wire_type out = encode_varint (bit_or (number * 2 ^ 3) wire_type) out

unfoldable pub encode_varint_field : ℕ → ℕ → List ℕ
encode_varint_field number value = encode_varint value (encode_tag number wire_varint [])

unfoldable pub encode_len_delimited : ℕ → List ℕ → List ℕ
encode_len_delimited number payload =
    encode_varint (length payload) (encode_tag number wire_len []) ++ payload

-- What a test of this file computes with.
unfoldable pub wire : Unit {0}
unfolding read_varint_from read_varint advance read_payload read_span scan_from scan set_field_from
    place set_field encode_varint_from encode_varint encode_tag encode_varint_field
    encode_len_delimited
wire = tt

scan_two :
    scan (0x48 ∷ 1 ∷ 0x12 ∷ 2 ∷ 7 ∷ 8 ∷ [])
    ≡ ok (
        record {
          number = 9;
          wire_type = 0;
          whole = record { start = 0; end = 2 };
          payload = record { start = 1; end = 2 };
        }
        ∷ record {
          number = 2;
          wire_type = 2;
          whole = record { start = 2; end = 6 };
          payload = record { start = 4; end = 6 };
        }
        ∷ [])
unfolding wire
scan_two = refl
