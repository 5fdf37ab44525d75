-- ===== src/Drain.antt =====
-- presage/src/manager/storage.rs, the `push_` functions: the records of contacts, groups, the account and sticker
-- packs that have an unpublished local change, brought in line with their rows. The encodings of whole new
-- records are prost's and an argument.
pub mod Agreed
pub mod Folders
use presage.Prelude.{
  ℕ, ◌==◌, List, [], ◌∷◌, Option, none, some, Bool, true, false, not, if◌then◌else◌, Result, ok,
  err,
}
use presage.Prelude.Steps.{Step, continue, done, fail, lift, attempt, ◌>>=◌, ◌>>◌}
use presage.Wire.{EditError}
use presage.Account.{
  AccountChatState, AccountPendingPublish, account_diff, account_any, account_apply,
  account_between,
}
use presage.Publish.{Contact, PendingPublish, diff, apply, between, pending_any}
use presage.Groups.{Group, ServiceId}
use presage.Groups.Pending.{GroupPendingPublish, group_diff, group_any, group_apply, group_between}
use presage.Stickers.{
  StickerPackRecord, StickerPackRecordState, published_as, sticker_pack_state,
  set_sticker_pack_state, sticker_to_record,
}
use presage.Manifest.{Error, StorageWorld, append_storage_record}
use presage.Manifest.Update.{
  StorageRecordKey, ItemTypes, item_type, StorageRecordIdentity, IdentityStore,
  set_needs_storage_sync, save_storage_identity, update_storage_record,
}

-- The other methods of the store that a drain calls, and prost's encodings of a new record and its decoding of a
-- sticker pack.
pub record DrainStore (W E Phone Verified Avatar Role Access ProfileKey : Type 0) : Type 0 where
  pub contacts_needing_storage_sync : Step W E (List ServiceId)
  pub groups_needing_storage_sync : Step W E (List (List ℕ))
  pub account_needs_storage_sync : Step W E Bool
  pub sticker_packs_needing_storage_sync : Step W E (List (List ℕ))
  pub contact_by_id : ServiceId → Step W E (Option (Contact Phone Verified Avatar))
  pub group : List ℕ → Step W E (Option (Group Role Access ProfileKey ℕ))
  pub account_chat_state : Step W E AccountChatState
  pub sticker_pack_record_state : List ℕ → Step W E (Option StickerPackRecordState)
  pub new_contact_record : Contact Phone Verified Avatar → List ℕ
  pub new_group_record : List ℕ → Group Role Access ProfileKey ℕ → List ℕ
  pub new_sticker_pack_record : StickerPackRecord → List ℕ
  pub decode_sticker_pack : List ℕ → Option StickerPackRecord

-- `any().then(|| apply(..)).transpose()`
abbrev pub edit_if : Bool → Result EditError (List ℕ) → Result EditError (Option (List ℕ))
edit_if false edited = ok none
edit_if true (ok edited) = ok (some edited)
edit_if true (err e) = err e

-- A step after `?` on a difference.
abbrev pub after_diff :
    {D : Type 0}
    → Result EditError D
    → (D → Result EditError (Option (List ℕ)))
    → Result EditError (Option (List ℕ))
after_diff (ok d) edit = edit d
after_diff (err e) edit = err e

module _ {Phone Verified Avatar : Type 0} where
  unfoldable pub contact_edit :
      Contact Phone Verified Avatar → List ℕ → Result EditError (Option (List ℕ))
  contact_edit contact record' =
      after_diff (diff record' contact) (λ p. edit_if (pending_any p) (apply p record' contact))

module _ {Role Access ProfileKey Timer : Type 0} where
  unfoldable pub group_edit :
      Group Role Access ProfileKey Timer → List ℕ → Result EditError (Option (List ℕ))
  group_edit group record' =
      after_diff (group_diff record' group)
        (λ p. edit_if (group_any p) (group_apply p record' group))

unfoldable pub account_edit : AccountChatState → List ℕ → Result EditError (Option (List ℕ))
account_edit state record' =
    after_diff (account_diff record' state)
      (λ p. edit_if (account_any p) (account_apply p record' state))

unfoldable pub sticker_pack_edit :
    (List ℕ → Option StickerPackRecord)
    → StickerPackRecordState
    → List ℕ
    → Result EditError (Option (List ℕ))
sticker_pack_edit decode wanted record' =
    after_diff (sticker_pack_state decode record')
      (λ read. edit_if (not (published_as wanted read)) (set_sticker_pack_state record' wanted))

module _ {W S V Key Handle Phone Verified Avatar Role Access ProfileKey : Type 0}
    (world : StorageWorld W S V EditError Key Handle)
    (store : IdentityStore W (Error S V EditError) ServiceId) (types : ItemTypes)
    (sync : Step W (Error S V EditError) (Unit {0}))
    (drain : DrainStore W (Error S V EditError) Phone Verified Avatar Role Access ProfileKey) where
  -- `append_record`, of a record that is encoded.
  unfoldable pub append_record :
      StorageRecordKey ServiceId → List ℕ → Step W (Error S V EditError) (Unit {0})
  append_record key encoded = do
    storage_id ← append_storage_record world (item_type types key) encoded
    version ← world.fetch_storage_manifest_version
    save_storage_identity store key
        (record { storage_id = storage_id; storage_version = version; record' = encoded })
    set_needs_storage_sync store key false

  -- `match .. { Err(StorageRecordUnknown) => append, other => other? }`
  abbrev pub or_append :
      Step W (Error S V EditError) (Unit {0})
      → Result (Error S V EditError) (Unit {0})
      → Step W (Error S V EditError) (Unit {0})
  or_append append (ok u) = done tt
  or_append append (err Error.storage_record_unknown) = append
  or_append append (err Error.storage_manifest_conflict) = fail Error.storage_manifest_conflict
  or_append append (err Error.storage_record_moved) = fail Error.storage_record_moved
  or_append append (err Error.missing_key_error) = fail Error.missing_key_error
  or_append append (err (Error.store_error s)) = fail (Error.store_error s)
  or_append append (err (Error.storage_service_error v)) = fail (Error.storage_service_error v)
  or_append append (err (Error.storage_record_edit x)) = fail (Error.storage_record_edit x)

  -- An update of a record, which is appended where the account holds none.
  abbrev pub update_or_append :
      StorageRecordKey ServiceId
      → (List ℕ → Result EditError (Option (List ℕ)))
      → List ℕ
      → Step W (Error S V EditError) (Unit {0})
  update_or_append key edit new_record = do
    updated ← attempt (update_storage_record world store types sync key edit)
    or_append (append_record key new_record) updated

  abbrev pub flag_again :
      StorageRecordKey ServiceId → Bool → Step W (Error S V EditError) (Unit {0})
  flag_again key changed = if changed then set_needs_storage_sync store key true else done tt

  abbrev pub contact_changed :
      Contact Phone Verified Avatar → Option (Contact Phone Verified Avatar) → Bool
  contact_changed contact none = false
  contact_changed contact (some current) = pending_any (between current contact)

  abbrev pub push_contact_row :
      ServiceId → Option (Contact Phone Verified Avatar) → Step W (Error S V EditError) (Unit {0})
  push_contact_row id none = set_needs_storage_sync store (StorageRecordKey.contact id) false
  push_contact_row id (some contact) = do
    update_or_append (StorageRecordKey.contact id) (contact_edit contact)
        (drain.new_contact_record contact)
    current ← drain.contact_by_id id
    flag_again (StorageRecordKey.contact id) (contact_changed contact current)

  unfoldable pub push_contact_record : ServiceId → Step W (Error S V EditError) (Unit {0})
  push_contact_record id = do contact ← drain.contact_by_id id; push_contact_row id contact

  abbrev pub group_changed :
      Group Role Access ProfileKey ℕ → Option (Group Role Access ProfileKey ℕ) → Bool
  group_changed group none = false
  group_changed group (some current) = group_any (group_between current group)

  abbrev pub push_group_row :
      List ℕ → Option (Group Role Access ProfileKey ℕ) → Step W (Error S V EditError) (Unit {0})
  push_group_row master_key none =
      set_needs_storage_sync store (StorageRecordKey.group_v2 master_key) false
  push_group_row master_key (some group) = do
    update_or_append (StorageRecordKey.group_v2 master_key) (group_edit group)
        (drain.new_group_record master_key group)
    current ← drain.group master_key
    flag_again (StorageRecordKey.group_v2 master_key) (group_changed group current)

  unfoldable pub push_group_record : List ℕ → Step W (Error S V EditError) (Unit {0})
  push_group_record master_key = do group ← drain.group master_key; push_group_row master_key group

  abbrev pub push_account_row : AccountChatState → Step W (Error S V EditError) (Unit {0})
  push_account_row state = do
    update_storage_record world store types sync StorageRecordKey.account (account_edit state)
    current ← drain.account_chat_state
    flag_again StorageRecordKey.account (account_any (account_between current state))

  unfoldable pub push_pending_account_record : Step W (Error S V EditError) (Unit {0})
  push_pending_account_record = do
    needed ← drain.account_needs_storage_sync
    if not needed then done tt else drain.account_chat_state >>= push_account_row

  abbrev pub sticker_pack_changed : StickerPackRecordState → Option StickerPackRecordState → Bool
  sticker_pack_changed wanted none = false
  sticker_pack_changed wanted (some current) = not (published_as current wanted)

  abbrev pub push_sticker_pack_row :
      List ℕ → Option StickerPackRecordState → Step W (Error S V EditError) (Unit {0})
  push_sticker_pack_row id none =
      set_needs_storage_sync store (StorageRecordKey.sticker_pack id) false
  push_sticker_pack_row id (some wanted) = do
    update_or_append (StorageRecordKey.sticker_pack id)
        (sticker_pack_edit drain.decode_sticker_pack wanted)
        (drain.new_sticker_pack_record (sticker_to_record wanted id))
    current ← drain.sticker_pack_record_state id
    flag_again (StorageRecordKey.sticker_pack id) (sticker_pack_changed wanted current)

  unfoldable pub push_sticker_pack_record : List ℕ → Step W (Error S V EditError) (Unit {0})
  push_sticker_pack_record id = do
    wanted ← drain.sticker_pack_record_state id
    push_sticker_pack_row id wanted

  -- One failure does not stop the rest: each push of a list, its error logged.
  unfoldable pub push_each :
      {A : Type 0}
      → (A → Step W (Error S V EditError) (Unit {0}))
      → List A
      → Step W (Error S V EditError) (Unit {0})
  push_each push [] = done tt
  push_each push (x ∷ xs) = do attempt (push x); push_each push xs

  unfoldable pub push_pending_contact_records : Step W (Error S V EditError) (Unit {0})
  push_pending_contact_records = do
    pending ← drain.contacts_needing_storage_sync
    push_each push_contact_record pending

  unfoldable pub push_pending_group_records : Step W (Error S V EditError) (Unit {0})
  push_pending_group_records = do
    pending ← drain.groups_needing_storage_sync
    push_each push_group_record pending

  unfoldable pub push_pending_sticker_pack_records : Step W (Error S V EditError) (Unit {0})
  push_pending_sticker_pack_records = do
    pending ← drain.sticker_packs_needing_storage_sync
    push_each push_sticker_pack_record pending
