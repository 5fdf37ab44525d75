-- ===== src/Examples/Record.antt =====
-- presage/src/storage_record.rs, second half, on a contact with an identifier of two bytes.
use presage.Prelude.{ℕ, List, [], ◌∷◌, ok, ◌≡◌, refl, arith}
use presage.Record.{plain_contact, record_runs, record_varint_field, set_varint_field_or_remove}
use presage.Record.Varint.{
  other_bytes, other_inner_bytes, record_varint_field-set, record_varint_field-set_other,
  other_bytes-set, set_varint_total,
}

abbrev muted_contact : List ℕ
muted_contact = 0x0a ∷ 7 ∷ 0x0a ∷ 2 ∷ 7 ∷ 8 ∷ 0x68 ∷ 0xac ∷ 2 ∷ []

muted : set_varint_field_or_remove plain_contact 1 13 300 ≡ ok muted_contact
unfolding record_runs
muted = refl

not_blocked : record_varint_field plain_contact 1 9 ≡ ok 0
unfolding record_runs
not_blocked = refl

record_varint_field-set_example : record_varint_field muted_contact 1 13 ≡ ok 300
record_varint_field-set_example =
    record_varint_field-set 1 13 300 plain_contact (omega arith) (omega arith) (omega arith)
      (omega arith) (omega arith) (omega arith) (omega arith) muted

record_varint_field-set_other_example :
    record_varint_field muted_contact 1 9 ≡ record_varint_field plain_contact 1 9
record_varint_field-set_other_example =
    record_varint_field-set_other 1 13 300 9 plain_contact (omega arith) (omega arith) (omega arith)
      (omega arith) (omega arith) (omega arith) (omega arith) (λ e. omega arith) muted

other_bytes-set_example :
    (other_bytes 1 muted_contact ≡ other_bytes 1 plain_contact)
    × (other_inner_bytes 1 13 muted_contact ≡ other_inner_bytes 1 13 plain_contact)
other_bytes-set_example =
    other_bytes-set 1 13 300 plain_contact (omega arith) (omega arith) (omega arith) (omega arith)
      (omega arith) (omega arith) (omega arith) muted

set_varint_total_example :
    (out : List ℕ) × (set_varint_field_or_remove plain_contact 1 11 1 ≡ ok out)
set_varint_total_example =
    set_varint_total 1 11 1 9 plain_contact (omega arith) (omega arith) (omega arith) (omega arith)
      (omega arith) (omega arith) not_blocked
