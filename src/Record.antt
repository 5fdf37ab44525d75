-- ===== src/Record.antt =====
-- presage/src/storage_record.rs, second half: reading and editing one field of the record that an
-- encoded `StorageRecord` holds.
pub mod Payload
pub mod Update
pub mod Varint
pub mod Size
use presage.Prelude.{
  ℕ, zero, suc, List, [], ◌∷◌, ◌++◌, Option, none, some, Bool, true, false, not, ◌&&◌, leb, ◌==◌,
  if◌then◌else◌, length, retain, Result, ok, err, ◌>>=◌, ◌≡◌, refl,
}
use presage.Wire
use presage.Wire.{
  EditError, malformed, wrong_record_type, ambiguous_record, Range, FieldSpan, at_range,
  wire_varint, wire_len, read_varint, scan, set_field, encode_varint_field, encode_len_delimited,
}

abbrev pub storage_record_contact : ℕ
storage_record_contact = 1

abbrev pub storage_record_group_v2 : ℕ
storage_record_group_v2 = 3

abbrev pub storage_record_account : ℕ
storage_record_account = 4

abbrev pub storage_record_sticker_pack : ℕ
storage_record_sticker_pack = 6

abbrev pub storage_record_chat_folder : ℕ
storage_record_chat_folder = 8

abbrev pub account_record_note_to_self_archived : ℕ
account_record_note_to_self_archived = 5

abbrev pub account_record_pinned_conversations : ℕ
account_record_pinned_conversations = 14

abbrev pub account_record_keep_muted_chats_archived : ℕ
account_record_keep_muted_chats_archived = 25

abbrev pub contact_record_blocked : ℕ
contact_record_blocked = 9

abbrev pub contact_record_archived : ℕ
contact_record_archived = 11

abbrev pub contact_record_muted_until : ℕ
contact_record_muted_until = 13

abbrev pub group_v2_record_archived : ℕ
group_v2_record_archived = 4

abbrev pub group_v2_record_muted_until : ℕ
group_v2_record_muted_until = 6

abbrev pub sticker_pack_record_key : ℕ
sticker_pack_record_key = 2

abbrev pub sticker_pack_record_position : ℕ
sticker_pack_record_position = 3

abbrev pub sticker_pack_record_deleted_at : ℕ
sticker_pack_record_deleted_at = 4

-- The first match, and none behind it.
unfoldable pub single_payload : List FieldSpan → Result EditError Range
single_payload [] = err wrong_record_type
single_payload (first ∷ []) = ok first.payload
single_payload (first ∷ second ∷ rest) = err ambiguous_record

unfoldable pub record_payload : List ℕ → ℕ → Result EditError Range
unfolding single_payload
record_payload record' record_field = do
  spans ← scan record'
  single_payload (retain (λ s. s.number == record_field) spans)

-- `spans.iter().rev().find(..)`
unfoldable pub find_last : ℕ → List FieldSpan → Option FieldSpan
find_last number [] = none
find_last number (span ∷ spans) =
    let later = find_last number spans in
    elim later [
      | some found ↦ some found
      | none ↦ if span.number == number then some span else none
    ]

-- The value of the span that was found.
unfoldable pub varint_of_span : List ℕ → Option FieldSpan → Result EditError ℕ
varint_of_span inner none = ok 0
varint_of_span inner (some span) =
    let value = (do (value, pos) ← read_varint inner span.payload.start; ok value) in
    if not (span.wire_type == wire_varint) then err malformed else value

unfoldable pub record_varint_field : List ℕ → ℕ → ℕ → Result EditError ℕ
record_varint_field record' record_field number = do
  payload ← record_payload record' record_field
  let inner = at_range record' payload
  spans ← scan inner
  varint_of_span inner (find_last number spans)

unfoldable pub set_record_field : List ℕ → ℕ → ℕ → Option (List ℕ) → Result EditError (List ℕ)
set_record_field record' record_field number replacement = do
  payload ← record_payload record' record_field
  let inner = at_range record' payload
  new_inner ← set_field inner number replacement
  set_field record' record_field (some (encode_len_delimited record_field new_inner))

unfoldable pub record_bool_field : List ℕ → ℕ → ℕ → Result EditError Bool
record_bool_field record' record_field number = do
  value ← record_varint_field record' record_field number
  ok (not (value == 0))

unfoldable pub set_bool_field : List ℕ → ℕ → ℕ → Bool → Result EditError (List ℕ)
set_bool_field record' record_field number value =
    set_record_field record' record_field number
      (if value then some (encode_varint_field number 1) else none)

unfoldable pub set_varint_field_or_remove : List ℕ → ℕ → ℕ → ℕ → Result EditError (List ℕ)
set_varint_field_or_remove record' record_field number value =
    set_record_field record' record_field number
      (if not (value == 0) then some (encode_varint_field number value) else none)

unfoldable pub contact_blocked : List ℕ → Result EditError Bool
contact_blocked record' = record_bool_field record' storage_record_contact contact_record_blocked

unfoldable pub set_contact_blocked : List ℕ → Bool → Result EditError (List ℕ)
set_contact_blocked record' blocked =
    set_bool_field record' storage_record_contact contact_record_blocked blocked

unfoldable pub contact_muted_until : List ℕ → Result EditError ℕ
contact_muted_until record' =
    record_varint_field record' storage_record_contact contact_record_muted_until

unfoldable pub set_contact_muted_until : List ℕ → ℕ → Result EditError (List ℕ)
set_contact_muted_until record' muted_until =
    set_varint_field_or_remove record' storage_record_contact contact_record_muted_until muted_until

unfoldable pub group_muted_until : List ℕ → Result EditError ℕ
group_muted_until record' =
    record_varint_field record' storage_record_group_v2 group_v2_record_muted_until

unfoldable pub set_group_muted_until : List ℕ → ℕ → Result EditError (List ℕ)
set_group_muted_until record' muted_until =
    set_varint_field_or_remove record' storage_record_group_v2 group_v2_record_muted_until
      muted_until

unfoldable pub contact_archived : List ℕ → Result EditError Bool
contact_archived record' = record_bool_field record' storage_record_contact contact_record_archived

unfoldable pub set_contact_archived : List ℕ → Bool → Result EditError (List ℕ)
set_contact_archived record' archived =
    set_bool_field record' storage_record_contact contact_record_archived archived

unfoldable pub group_archived : List ℕ → Result EditError Bool
group_archived record' = record_bool_field record' storage_record_group_v2 group_v2_record_archived

unfoldable pub set_group_archived : List ℕ → Bool → Result EditError (List ℕ)
set_group_archived record' archived =
    set_bool_field record' storage_record_group_v2 group_v2_record_archived archived

unfoldable pub account_note_to_self_archived : List ℕ → Result EditError Bool
account_note_to_self_archived record' =
    record_bool_field record' storage_record_account account_record_note_to_self_archived

unfoldable pub set_account_note_to_self_archived : List ℕ → Bool → Result EditError (List ℕ)
set_account_note_to_self_archived record' archived =
    set_bool_field record' storage_record_account account_record_note_to_self_archived archived

unfoldable pub account_keep_muted_chats_archived : List ℕ → Result EditError Bool
account_keep_muted_chats_archived record' =
    record_bool_field record' storage_record_account account_record_keep_muted_chats_archived

-- What a test of a record computes with.
unfoldable pub record_runs : Unit {0}
unfolding Wire.wire record_payload find_last varint_of_span record_varint_field set_record_field
    record_bool_field set_bool_field set_varint_field_or_remove contact_blocked set_contact_blocked
    contact_muted_until set_contact_muted_until
record_runs = tt

-- `StorageRecord { contact { field 1: 2 bytes } }`, blocked and read back.
abbrev pub plain_contact : List ℕ
plain_contact = 0x0a ∷ 4 ∷ 0x0a ∷ 2 ∷ 7 ∷ 8 ∷ []

blocked_contact :
    set_contact_blocked plain_contact true ≡ ok (0x0a ∷ 6 ∷ 0x0a ∷ 2 ∷ 7 ∷ 8 ∷ 0x48 ∷ 1 ∷ [])
unfolding record_runs
blocked_contact = refl
