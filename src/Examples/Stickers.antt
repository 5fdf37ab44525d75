-- ===== src/Examples/Stickers.antt =====
-- Sticker packs on one pack.
use presage.Prelude.{ℕ, List, [], ◌∷◌, ok, ◌≡◌, refl, arith}
use presage.Record.{record_runs, record_varint_field}
use presage.Stickers.{StickerPackRecordState, set_sticker_pack_state}
use presage.Stickers.State.{set_sticker_pack_state-reads}

abbrev pack_id : List ℕ
pack_id = 1 ∷ 2 ∷ 3 ∷ 4 ∷ 5 ∷ 6 ∷ 7 ∷ 8 ∷ 9 ∷ 10 ∷ 11 ∷ 12 ∷ 13 ∷ 14 ∷ 15 ∷ 16 ∷ []

-- `StorageRecord { stickerPack { field 1: 1 byte, position: 2 } }`
abbrev pack : List ℕ
pack = 0x32 ∷ 5 ∷ 0x0a ∷ 1 ∷ 7 ∷ 0x18 ∷ 2 ∷ []

pack_position : record_varint_field pack 6 3 ≡ ok 2
unfolding record_runs
pack_position = refl

set_sticker_pack_state-reads_example :
    (out : List ℕ) × (set_sticker_pack_state pack (StickerPackRecordState.removed 9) ≡ ok out)
    × (record_varint_field out 6 3 ≡ ok 0)
    × (record_varint_field out 6 4 ≡ ok 9)
set_sticker_pack_state-reads_example =
    set_sticker_pack_state-reads pack (StickerPackRecordState.removed 9) (omega arith) (omega arith)
      (omega arith) pack_position
