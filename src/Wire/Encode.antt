-- ===== src/Wire/Encode.antt =====
-- The encoders write what `read_varint` and `scan` read back.
use presage.Prelude.{
  ℕ, zero, suc, ◌+◌, ◌*◌, ◌/◌, ◌%◌, ◌^◌, ◌<◌, ◌≤◌, bit_and, bit_or, List, [], ◌∷◌, ◌++◌, true,
  false, leb, ◌==◌, if◌then◌else◌, length, ok, ◌≡◌, refl, sym, ap, ◌∙◌, subst, arith, Bool-cases,
  inl, inr, append_assoc, append-nil, length-append,
}
use native.Mathlib.Nat.{pow-suc, mod-eq_of_lt}
use native.Mathlib.Numerals.{towards_suc}
use presage.Prelude.Bits.{
  bit_or_shifted, bit_or_wire_type, bit_and_wire_type, byte_low, byte_high, byte_set_high,
}
use presage.Wire.{
  read_varint, encode_varint_from, encode_varint, encode_tag, encode_varint_field,
  encode_len_delimited, wire_varint, wire_len,
}
use presage.Wire.Varint.{IsVarint, IsVarint-last, IsVarint-more, add_group}
use presage.Wire.Payload.{IsPayload, IsPayload-varint, IsPayload-len, Fits}
use presage.Wire.Span.{Field, bytes, IsField, IsField-field_of}

-- The bytes that the loop pushes.
groups : ℕ → ℕ → List ℕ
groups zero value = []
groups (suc fuel) value =
    let more = (value % 128 + 128) ∷ groups fuel (value / 128) in
    if leb 128 value then more else value ∷ []

encode_varint_from-groups :
    (fuel value : ℕ) (out : List ℕ) → encode_varint_from fuel value out ≡ out ++ groups fuel value
unfolding encode_varint_from groups
encode_varint_from-groups zero value out = sym (append-nil out)
encode_varint_from-groups (suc fuel) value out =
    let high : bit_or (value % 256) 128 ≡ value % 128 + 128 =
      omega (arith, byte_set_high (value % 256) (omega arith)) in
    ground (
      arith,
      high,
      encode_varint_from-groups fuel (value / 128) (out ++ (value % 128 + 128) ∷ []),
      append_assoc out ((value % 128 + 128) ∷ []) (groups fuel (value / 128)),
    )

-- One group adds its seven bits at its shift.
add_group-eq :
    (acc shift byte : ℕ)
    → byte < 256
    → acc < 2 ^ shift
    → byte % 128 * 2 ^ shift < 2 ^ 64
    → add_group acc shift byte ≡ acc + byte % 128 * 2 ^ shift
add_group-eq acc shift byte small low fits =
    rw (byte_low byte small, mod-eq_of_lt fits) (bit_or_shifted shift acc (byte % 128) low)

shift_seven : (s : ℕ) → 2 ^ (s + 7) ≡ 128 * 2 ^ s
shift_seven s = simp towards_suc (omega arith)

times_le : (a b p : ℕ) → a ≤ b → a * p ≤ b * p
times_le a b p h = grind arith

parts : (value p : ℕ) → value * p ≡ value / 128 * (128 * p) + value % 128 * p
parts value p =
    let e : value ≡ value / 128 * 128 + value % 128 = omega arith in ap (λ t. t * p) e ∙ omega arith

module _ (shift acc value : ℕ) (low : acc < 2 ^ shift)
    (fits : acc + value * 2 ^ shift < 2 ^ 64) where
  last_group :
      (fuel : ℕ)
      → value < 128
      → IsVarint (suc fuel) shift acc (value ∷ []) (acc + value * 2 ^ shift)
  last_group fuel small =
      let same : value % 128 ≡ value = omega arith in
      let stop : (bit_and value 0x80 == 0) ≡ true =
        rw (byte_high value (omega arith)) (ground arith) in
      let sum : add_group acc shift value ≡ acc + value * 2 ^ shift =
        add_group-eq acc shift value (omega arith) low (rw same (omega arith)) ∙ rw same refl in
      subst (IsVarint (suc fuel) shift acc (value ∷ [])) sum
        (IsVarint-last fuel shift acc value stop)

  group_low : value % 128 * 2 ^ shift ≤ 127 * 2 ^ shift
  group_low = times_le (value % 128) 127 (2 ^ shift) (omega arith)

  -- The state behind one more group.
  pub acc_low : acc + value % 128 * 2 ^ shift < 2 ^ (shift + 7)
  acc_low = omega (arith, shift_seven shift, group_low)

  pub acc_sum :
      acc + value % 128 * 2 ^ shift + value / 128 * 2 ^ (shift + 7) ≡ acc + value * 2 ^ shift
  acc_sum = rw (shift_seven shift) (omega (arith, parts value (2 ^ shift)))

  more_group :
      (fuel : ℕ) (body : List ℕ)
      → IsVarint fuel
          (shift + 7)
          (acc + value % 128 * 2 ^ shift)
          body
          (acc + value % 128 * 2 ^ shift + value / 128 * 2 ^ (shift + 7))
      → IsVarint (suc fuel) shift acc ((value % 128 + 128) ∷ body) (acc + value * 2 ^ shift)
  more_group fuel body is =
      let byte : ℕ = value % 128 + 128 in
      let same : byte % 128 ≡ value % 128 = omega arith in
      let go : (bit_and byte 0x80 == 0) ≡ false =
        rw (byte_high byte (omega arith)) (ground arith) in
      let sum : add_group acc shift byte ≡ acc + value % 128 * 2 ^ shift =
        add_group-eq acc shift byte (omega arith) low
          (rw same (omega (arith, parts value (2 ^ shift))))
        ∙ rw same refl in
      IsVarint-more fuel shift acc byte body (acc + value * 2 ^ shift) go
        (rw sum (rw acc_sum at is))

-- What the loop writes for `value` reads, from any state of the reader below its shift, as the
-- state plus the shifted value.
groups-IsVarint :
    (fuel shift acc value : ℕ)
    → value < 128 ^ suc fuel
    → acc < 2 ^ shift
    → acc + value * 2 ^ shift < 2 ^ 64
    → IsVarint (suc fuel) shift acc (groups (suc fuel) value) (acc + value * 2 ^ shift)
unfolding groups
groups-IsVarint zero shift acc value small low fits =
    let v : value < 128 = omega (arith, pow-suc 128 0) in
    let last : leb 128 value ≡ false = ground arith in
    rw last (last_group shift acc value low fits zero v)
groups-IsVarint (suc fuel) shift acc value small low fits = elim (Bool-cases (leb 128 value)) [
  | inr last ↦ rw last (last_group shift acc value low fits (suc fuel) (ground arith))
  | inl more ↦
      let ih =
        groups-IsVarint fuel (shift + 7) (acc + value % 128 * 2 ^ shift) (value / 128)
          (omega (arith, pow-suc 128 (suc fuel))) (acc_low shift acc value low fits)
          (rw (acc_sum shift acc value low fits) fits) in
      rw more (more_group shift acc value low fits (suc fuel) (groups (suc fuel) (value / 128)) ih)
]

-- The bytes of a varint.
pub varint : ℕ → List ℕ
unfolding groups
varint value = groups 10 value

pub encode_varint-varint :
    (value : ℕ) (out : List ℕ) → encode_varint value out ≡ out ++ varint value
unfolding encode_varint varint
encode_varint-varint value out = encode_varint_from-groups 10 value out

pub varint-IsVarint : (value : ℕ) → value < 2 ^ 64 → IsVarint 10 0 0 (varint value) value
unfolding varint
varint-IsVarint value h =
    subst (IsVarint 10 0 0 (groups 10 value)) (omega arith)
      (groups-IsVarint 9 0 0 value (omega arith) (omega arith) (omega arith))

-- A number below 2^64 that `encode_varint` appends reads back with `read_varint` from where it starts,
-- whatever bytes stand in front of it and behind it, and the position moves just past it.
pub read_varint-encode_varint :
    (pre rest : List ℕ) (value : ℕ)
    → value < 2 ^ 64
    → read_varint (encode_varint value pre ++ rest) (length pre)
      ≡ ok (value, length (encode_varint value pre))
unfolding read_varint
read_varint-encode_varint pre rest value h =
    rw (encode_varint-varint value pre, append_assoc, length-append)
      ((varint-IsVarint value h).reads pre rest)

module _ (number : ℕ) (fits : number < 2 ^ 32) where
  encode_tag-varint :
      (wire_type : ℕ) (out : List ℕ)
      → wire_type < 8
      → encode_tag number wire_type out ≡ out ++ varint (number * 8 + wire_type)
  unfolding encode_tag
  encode_tag-varint wire_type out h =
      rw (bit_or_wire_type number wire_type h) (encode_varint-varint _ out)

  tag_number : (wire_type : ℕ) → wire_type < 8 → (number * 8 + wire_type) / 8 % 2 ^ 32 ≡ number
  tag_number wire_type h = omega arith

  tag_wire_type : (wire_type : ℕ) → wire_type < 8 → bit_and (number * 8 + wire_type) 7 ≡ wire_type
  tag_wire_type wire_type h = bit_and_wire_type _ ∙ omega arith

-- The field that `encode_varint_field` writes.
abbrev pub varint_field : ℕ → ℕ → Field
varint_field number value = record {
  number = number;
  wire_type = wire_varint;
  head = varint (number * 8 + wire_varint) ++ [];
  payload = varint value;
}

abbrev pub len_field : ℕ → List ℕ → Field
len_field number payload = record {
  number = number;
  wire_type = wire_len;
  head = varint (number * 8 + wire_len) ++ varint (length payload);
  payload = payload;
}

module _ (number : ℕ) (positive : 0 < number) (fits : number < 2 ^ 32) where
  IsField-named :
      (wire_type : ℕ) (skip body : List ℕ)
      → wire_type < 8
      → IsPayload wire_type skip body
      → IsField (record {
        number = number;
        wire_type = wire_type;
        head = varint (number * 8 + wire_type) ++ skip;
        payload = body;
      })
  IsField-named wire_type skip body h payload =
      let tag = number * 8 + wire_type in
      let nonzero : (tag / 8 % 2 ^ 32 == 0) ≡ false = ground arith in
      let is =
        IsField-field_of tag (varint tag) skip body nonzero (varint-IsVarint tag (omega arith))
          (rw (tag_wire_type number fits wire_type h) payload) in
      rw (tag_number number fits wire_type h, tag_wire_type number fits wire_type h) at is

  pub encode_varint_field-Field :
      (value : ℕ)
      → value < 2 ^ 64
      → (encode_varint_field number value ≡ bytes (varint_field number value))
        × IsField (varint_field number value)
  unfolding encode_varint_field
  encode_varint_field-Field value h = (
    rw
        (
          encode_tag-varint number fits wire_varint [] (omega arith),
          encode_varint-varint,
          append-nil,
        )
        refl,
    IsField-named wire_varint [] (varint value) (omega arith)
        (IsPayload-varint (varint value) value (varint-IsVarint value h)),
  )

  pub encode_len_delimited-bytes :
      (payload : List ℕ) → encode_len_delimited number payload ≡ bytes (len_field number payload)
  unfolding encode_len_delimited
  encode_len_delimited-bytes payload =
      rw (encode_tag-varint number fits wire_len [] (omega arith), encode_varint-varint) refl

  pub len_field-IsField : (payload : List ℕ) → Fits payload → IsField (len_field number payload)
  len_field-IsField payload h =
      IsField-named wire_len (varint (length payload)) payload (omega arith) (
        IsPayload-len (varint (length payload)) payload (length payload)
          (varint-IsVarint (length payload) h) refl)

length-groups : (fuel value : ℕ) → length (groups fuel value) ≤ fuel
unfolding groups
length-groups zero value = omega arith
length-groups (suc fuel) value = ground (arith, length-groups fuel (value / 128))

pub length-varint-le : (value : ℕ) → length (varint value) ≤ 10
unfolding varint
length-varint-le value = length-groups 10 value
