-- ===== src/Record/Size.antt =====
-- How much an edit of one varint field can make a record grow, and with that the edit as one step:
-- it succeeds, reads back, and changes no other field.
use presage.Prelude.{
  ℕ, ◌+◌, ◌*◌, ◌^◌, ◌<◌, ◌≤◌, List, [], ◌∷◌, Option, some, ◌==◌, length, ok, ◌≡◌, ◌≢◌, refl, sym,
  ap, ◌∙◌, arith, Bool-cases, inl, inr, length-append,
}
use presage.Wire.Span.{Field, bytes}
use presage.Wire.Scan.{wire_of, wire_of-append}
use presage.Wire.Edit.{only, others, edit, new_fields}
use presage.Wire.Encode.{varint, varint_field, len_field, length-varint-le}
use presage.Record.{record_varint_field, set_varint_field_or_remove}
use presage.Record.Update.{Updated, set_record_field-Updated}
use presage.Record.Varint.{
  varint_fields, set_varint-bytes, record_varint_field-set, record_varint_field-set_other,
  set_varint_total,
}

wire-only-others :
    (n : ℕ) (fs : List Field)
    → length (wire_of fs) ≡ length (wire_of (only n fs)) + length (wire_of (others n fs))
wire-only-others n [] = refl
wire-only-others n (f ∷ fs) = elim (Bool-cases (f.number == n)) [
  | inl here ↦ rw here (
      omega (
        arith,
        wire-only-others n fs,
        length-append (bytes f) (wire_of fs),
        length-append (bytes f) (wire_of (only n fs)),
      ))
  | inr other ↦ rw other (
      omega (
        arith,
        wire-only-others n fs,
        length-append (bytes f) (wire_of fs),
        length-append (bytes f) (wire_of (others n fs)),
      ))
]

-- An edit exchanges the bytes of the field for those of the replacement.
length-wire-edit :
    (n : ℕ) (r : Option (List Field)) (fs : List Field)
    → length (wire_of (edit n r fs)) + length (wire_of (only n fs))
      ≡ length (wire_of fs) + length (wire_of (new_fields r))
unfolding edit
length-wire-edit n r [] = omega arith
length-wire-edit n r (f ∷ fs) = elim (Bool-cases (f.number == n)) [
  | inl here ↦
      rw (here, wire_of-append (new_fields r) (others n fs))
        (omega (
          arith,
          wire-only-others n fs,
          length-append (wire_of (new_fields r)) (wire_of (others n fs)),
          length-append (bytes f) (wire_of fs),
          length-append (bytes f) (wire_of (only n fs)),
        ))
  | inr other ↦ rw other (
      omega (
        arith,
        length-wire-edit n r fs,
        length-append (bytes f) (wire_of (edit n r fs)),
        length-append (bytes f) (wire_of fs),
      ))
]

length-varint_fields : (n v : ℕ) → length (wire_of (new_fields (varint_fields n v))) ≤ 20
length-varint_fields n v = elim (Bool-cases (v == 0)) [
  | inl none' ↦ rw none' (omega arith)
  | inr some' ↦ rw some' (
      omega (
        arith,
        length-append (bytes (varint_field n v)) [],
        length-append (varint_field n v).head (varint v),
        length-append (varint (n * 8 + 0)) [],
        length-varint-le (n * 8 + 0),
        length-varint-le v,
      ))
]

pub length-len_field :
    (rf : ℕ) (payload : List ℕ) → length (wire_of (len_field rf payload ∷ [])) ≤ length payload + 20
length-len_field rf payload = omega (
  arith,
  length-append (bytes (len_field rf payload)) [],
  length-append (len_field rf payload).head payload,
  length-append (varint (rf * 8 + 2)) (varint (length payload)),
  length-varint-le (rf * 8 + 2),
  length-varint-le (length payload),
)

-- An edited record is longer by the new fields and a new head at most.
pub length-Updated :
    (record' : List ℕ) (rf n : ℕ) (r : Option (List Field)) {out : List ℕ}
    → Updated record' rf n r out
    → length out ≤ length record' + length (wire_of (new_fields r)) + 20
length-Updated record' rf n r u =
    let inner = edit n r u.gs in
    let one : length (wire_of (only rf u.fs)) ≡ length (wire_of (u.g ∷ [])) =
      ap (λ t. length (wire_of t)) u.holds.single in
    rw (u.whole, u.result)
      (omega (
        arith,
        length-wire-edit n r u.gs,
        length-wire-edit rf (some (len_field rf (wire_of inner) ∷ [])) u.fs,
        length-len_field rf (wire_of inner),
        one,
        ap length u.body,
        length-append (bytes u.g) [],
        length-append u.g.head u.g.payload,
      ))

-- A record with room for `edits` more edits.
abbrev pub Roomy : ℕ → List ℕ → Type 0
Roomy edits record' = length record' + 40 * edits < 2 ^ 64

-- One edit of a record that reads: the record after it, and what it reads.
pub record Edited (rf n v : ℕ) (record' out : List ℕ) : Type 0 where
  pub edited : set_varint_field_or_remove record' rf n v ≡ ok out
  pub grown : length out ≤ length record' + 40
  pub written : record_varint_field out rf n ≡ ok v
  pub kept : (m : ℕ) → n ≢ m → record_varint_field out rf m ≡ record_varint_field record' rf m

pub set_varint-Edited :
    (rf n v m : ℕ) (record' : List ℕ) {w : ℕ}
    → 0 < rf
    → rf < 2 ^ 32
    → 0 < n
    → n < 2 ^ 32
    → v < 2 ^ 64
    → Roomy 1 record'
    → record_varint_field record' rf m ≡ ok w
    → (out : List ℕ) × Edited rf n v record' out
set_varint-Edited rf n v m record' a b c d v_small roomy reads =
    let (out, done) = set_varint_total rf n v m record' a b c d v_small (omega arith) reads in
    let u =
      set_record_field-Updated rf a b record' n (varint_fields n v) (omega arith)
        (sym (set_varint-bytes rf n a b c d v v_small record') ∙ done) in
    let grown : length out ≤ length record' + 40 =
      omega (arith, length-Updated record' rf n (varint_fields n v) u, length-varint_fields n v) in
    (
      out,
      record {
        edited = done;
        grown = grown;
        written =
            record_varint_field-set rf n v record' a b c d v_small (omega arith)
              (omega (arith, grown)) done;
        kept = λ k ne.
            record_varint_field-set_other rf n v k record' a b c d v_small (omega arith)
              (omega (arith, grown)) ne done;
      },
    )
