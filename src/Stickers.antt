-- ===== src/Stickers.antt =====
-- Sticker packs: `StickerPackRecordState` of presage/src/store.rs, `sticker_pack_change` of
-- presage/src/manager/storage.rs, and the pack's record in presage/src/storage_record.rs.
pub mod State
use presage.Prelude.{
  ℕ, ◌==◌, List, [], ◌∷◌, Option, none, some, Bool, true, false, not, ◌&&◌, ◌||◌, if◌then◌else◌,
  length, Result, ok, err, ok_or, ◌>>=◌,
}
use presage.Wire.{EditError, at_range, encode_len_delimited}
use presage.Record.{
  storage_record_sticker_pack, sticker_pack_record_key, sticker_pack_record_position,
  sticker_pack_record_deleted_at, record_payload, set_record_field, set_varint_field_or_remove,
}
use presage.Account.{same_bytes}

pub data StickerPackRecordState : Type 0 where
  installed : List ℕ → ℕ → StickerPackRecordState
  removed : ℕ → StickerPackRecordState

-- prost's message
pub record StickerPackRecord : Type 0 where
  pub pack_id : List ℕ
  pub pack_key : List ℕ
  pub position : ℕ
  pub deleted_at_timestamp : ℕ

-- `self == held || matches!(..)`; the derived `==` of two removals compares their times, which the second test
-- makes no matter.
unfoldable pub published_as : StickerPackRecordState → StickerPackRecordState → Bool
published_as (StickerPackRecordState.installed key position)
      (StickerPackRecordState.installed key' position') =
    same_bytes key key' && (position == position')
published_as (StickerPackRecordState.removed t) (StickerPackRecordState.removed t') =
    (t == t') || true
published_as _ _ = false

unfoldable pub sticker_to_record : StickerPackRecordState → List ℕ → StickerPackRecord
sticker_to_record (StickerPackRecordState.installed key position) id = record {
  pack_id = id;
  pack_key = key;
  position = position;
  deleted_at_timestamp = 0;
}
sticker_to_record (StickerPackRecordState.removed deleted_at_ms) id = record {
  pack_id = id;
  pack_key = [];
  position = 0;
  deleted_at_timestamp = deleted_at_ms;
}

-- `From<StickerPackRecord>`
unfoldable pub sticker_from_record : StickerPackRecord → StickerPackRecordState
sticker_from_record r =
    if not (r.deleted_at_timestamp == 0)
    then StickerPackRecordState.removed r.deleted_at_timestamp
    else StickerPackRecordState.installed r.pack_key r.position

unfoldable pub is_sticker_pack_pointer : List ℕ → List ℕ → Bool
is_sticker_pack_pointer id key = (length id == 16) && (length key == 32)

-- The `match` on the state.
unfoldable pub change_of :
    List ℕ → StickerPackRecordState → Option (List ℕ × StickerPackRecordState)
unfolding is_sticker_pack_pointer
change_of id (StickerPackRecordState.installed key position) =
    if not (is_sticker_pack_pointer id key)
    then none
    else some (id, StickerPackRecordState.installed key position)
change_of id (StickerPackRecordState.removed t) = some (id, StickerPackRecordState.removed t)

unfoldable pub sticker_pack_change : StickerPackRecord → Option (List ℕ × StickerPackRecordState)
unfolding change_of sticker_from_record
sticker_pack_change r =
    if not (length r.pack_id == 16) then none else change_of r.pack_id (sticker_from_record r)

-- prost's decoding is an argument.
unfoldable pub sticker_pack_state :
    (List ℕ → Option StickerPackRecord) → List ℕ → Result EditError StickerPackRecordState
sticker_pack_state decode record' = do
  payload ← record_payload record' storage_record_sticker_pack
  pack ← ok_or (decode (at_range record' payload)) EditError.malformed
  ok (sticker_from_record pack)

abbrev pub key_of : StickerPackRecordState → Option (List ℕ)
key_of (StickerPackRecordState.installed key position) =
    some (encode_len_delimited sticker_pack_record_key key)
key_of (StickerPackRecordState.removed t) = none

abbrev pub position_of : StickerPackRecordState → ℕ
position_of (StickerPackRecordState.installed key position) = position
position_of (StickerPackRecordState.removed t) = 0

abbrev pub deleted_at_of : StickerPackRecordState → ℕ
deleted_at_of (StickerPackRecordState.installed key position) = 0
deleted_at_of (StickerPackRecordState.removed t) = t

unfoldable pub set_sticker_pack_state : List ℕ → StickerPackRecordState → Result EditError (List ℕ)
set_sticker_pack_state record' state = do
  record' ←
      set_record_field record' storage_record_sticker_pack sticker_pack_record_key (key_of state)
  record' ←
      set_varint_field_or_remove record' storage_record_sticker_pack sticker_pack_record_position
        (position_of state)
  set_varint_field_or_remove record' storage_record_sticker_pack sticker_pack_record_deleted_at
      (deleted_at_of state)
