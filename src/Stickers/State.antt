-- ===== src/Stickers/State.antt =====
-- The state that a sticker pack's record says, as a message and in the record's bytes.
use presage.Prelude.{
  ℕ, ◌+◌, ◌^◌, ◌<◌, ◌≤◌, ◌==◌, ◌≢◌, List, [], ◌∷◌, Option, none, some, false, length, ok, ◌≡◌, refl,
  sym, ap, ◌∙◌, arith, append-nil,
}
use presage.Wire.Payload.{Fits}
use presage.Wire.Span.{Field, bytes, IsField}
use presage.Wire.Scan.{All, wire_of}
use presage.Wire.Edit.{edit, new_fields, new_bytes, Numbered, only-edit_other, All-edit}
use presage.Wire.Encode.{len_field, len_field-IsField, encode_len_delimited-bytes}
use presage.Record.{record_varint_field, set_record_field, set_varint_field_or_remove}
use presage.Record.Payload.{last_value, record_varint_field-last_value}
use presage.Record.Update.{
  Updated, set_record_field-Updated, set_record_field_total, payload-Fits, read-updated,
}
use presage.Record.Size.{length-Updated, length-len_field, set_varint-Edited}
use presage.Stickers.{
  StickerPackRecordState, sticker_to_record, sticker_from_record, change_of,
  is_sticker_pack_pointer, sticker_pack_change, key_of, position_of, deleted_at_of,
  set_sticker_pack_state,
}

-- A state that a client can act on: an installed pack has a key of 32 bytes, a removed one a time.
abbrev pub IsState : StickerPackRecordState → Type 0
IsState (StickerPackRecordState.installed key position) = length key ≡ 32
IsState (StickerPackRecordState.removed t) = t ≢ 0

-- For a pack identifier of 16 bytes, and a state that is an installed pack with a key of 32 bytes or a removal
-- at a time that is not 0: the record that says the state is read back as the pack and the state.
pub sticker_pack_change-to_record :
    (state : StickerPackRecordState) (id : List ℕ)
    → length id ≡ 16
    → IsState state
    → sticker_pack_change (sticker_to_record state id) ≡ some (id, state)
unfolding sticker_pack_change change_of sticker_to_record sticker_from_record
    is_sticker_pack_pointer
sticker_pack_change-to_record (StickerPackRecordState.installed key position) id long has_key =
    rw (long, has_key) refl
sticker_pack_change-to_record (StickerPackRecordState.removed t) id long time =
    rw (long, zero_test t time) refl
  where
    zero_test : (t : ℕ) → t ≢ 0 → (t == 0) ≡ false
    zero_test t ne = ground arith

abbrev key_fields : StickerPackRecordState → Option (List Field)
key_fields (StickerPackRecordState.installed key position) = some (len_field 2 key ∷ [])
key_fields (StickerPackRecordState.removed t) = none

abbrev pub key_length : StickerPackRecordState → ℕ
key_length (StickerPackRecordState.installed key position) = length key
key_length (StickerPackRecordState.removed t) = 0

key_bytes : (state : StickerPackRecordState) → key_of state ≡ new_bytes (key_fields state)
key_bytes (StickerPackRecordState.installed key position) =
    ap (λ b. some b)
      (encode_len_delimited-bytes 2 (omega arith) (omega arith) key
        ∙ sym (append-nil (bytes (len_field 2 key))))
key_bytes (StickerPackRecordState.removed t) = refl

key_fields-IsField :
    (state : StickerPackRecordState)
    → key_length state < 2 ^ 64
    → All IsField (new_fields (key_fields state))
key_fields-IsField (StickerPackRecordState.installed key position) small =
    (len_field-IsField 2 (omega arith) (omega arith) key small, tt)
key_fields-IsField (StickerPackRecordState.removed t) small = tt

key_fields-Numbered : (state : StickerPackRecordState) → Numbered 2 (new_fields (key_fields state))
key_fields-Numbered (StickerPackRecordState.installed key position) = (refl, tt)
key_fields-Numbered (StickerPackRecordState.removed t) = tt

length-key_fields :
    (state : StickerPackRecordState)
    → length (wire_of (new_fields (key_fields state))) ≤ key_length state + 20
length-key_fields (StickerPackRecordState.installed key position) = length-len_field 2 key
length-key_fields (StickerPackRecordState.removed t) = omega arith

-- Setting the key leaves every varint field of the pack alone.
key-other :
    (record' : List ℕ) (r : Option (List Field)) (m : ℕ) {out : List ℕ}
    → Fits record'
    → Fits out
    → All IsField (new_fields r)
    → Numbered 2 (new_fields r)
    → 2 ≢ m
    → Updated record' 6 2 r out
    → record_varint_field out 6 m ≡ record_varint_field record' 6 m
key-other record' r m fits fits_out fields numbered ne u =
    let fits' : Fits (wire_of u.fs) = rw (← u.whole) fits in
    ap (λ t. record_varint_field t 6 m) u.result
    ∙ read-updated 6 (omega arith) (omega arith) u.fs (edit 2 r u.gs) m u.holds.fields
        (All-edit IsField 2 r u.gs fields u.inner) (rw (← u.result) fits_out)
    ∙ ap last_value (only-edit_other 2 r numbered m u.gs ne)
    ∙ sym (
        ap (λ t. record_varint_field t 6 m) u.whole
        ∙ record_varint_field-last_value u.fs 6 u.g u.gs m u.holds fits' u.body u.inner
            (rw (← u.body) (payload-Fits u.fs 6 u.g u.holds.single fits')))

set_sticker-chain :
    (record' r1 r2 r3 : List ℕ) (state : StickerPackRecordState)
    → set_record_field record' 6 2 (key_of state) ≡ ok r1
    → set_varint_field_or_remove r1 6 3 (position_of state) ≡ ok r2
    → set_varint_field_or_remove r2 6 4 (deleted_at_of state) ≡ ok r3
    → set_sticker_pack_state record' state ≡ ok r3
unfolding set_sticker_pack_state
set_sticker-chain record' r1 r2 r3 state e1 e2 e3 = rw (e1, e2) e3

-- For a pack's record of which the position reads, with room below 2^64 bytes for the key and 120 more, and
-- a position and a time below 2^64: setting a state succeeds, the position that is then read is that of an
-- installed pack and 0 of a removed one, and the deletion time is 0 of an installed one and the time of a
-- removed one.
pub set_sticker_pack_state-reads :
    (record' : List ℕ) (state : StickerPackRecordState) {w : ℕ}
    → length record' + key_length state + 120 < 2 ^ 64
    → position_of state < 2 ^ 64
    → deleted_at_of state < 2 ^ 64
    → record_varint_field record' 6 3 ≡ ok w
    → (out : List ℕ) × (set_sticker_pack_state record' state ≡ ok out)
      × (record_varint_field out 6 3 ≡ ok (position_of state))
      × (record_varint_field out 6 4 ≡ ok (deleted_at_of state))
set_sticker_pack_state-reads record' state room small small' reads =
    let r = key_fields state in
    let (r1, done) =
      set_record_field_total 6 (omega arith) (omega arith) record' 2 r 3 (omega arith) reads in
    let u = set_record_field-Updated 6 (omega arith) (omega arith) record' 2 r (omega arith) done in
    let grown = length-Updated record' 6 2 r u in
    let kept =
      key-other record' r 3 (omega arith) (omega (arith, grown, length-key_fields state))
        (key_fields-IsField state (omega arith)) (key_fields-Numbered state) (λ e. omega arith) u in
    let (r2, e2) =
      set_varint-Edited 6 3 (position_of state) 3 r1 (omega arith) (omega arith) (omega arith)
        (omega arith) small (omega (arith, grown, length-key_fields state)) (kept ∙ reads) in
    let (r3, e3) =
      set_varint-Edited 6 4 (deleted_at_of state) 3 r2 (omega arith) (omega arith) (omega arith)
        (omega arith) small' (omega (arith, grown, length-key_fields state, e2.grown)) e2.written in
    (
      r3,
      set_sticker-chain record' r1 r2 r3 state
          (ap (set_record_field record' 6 2) (key_bytes state) ∙ done) e2.edited e3.edited,
      e3.kept 3 (λ e. omega arith) ∙ e2.written,
      e3.written,
    )
