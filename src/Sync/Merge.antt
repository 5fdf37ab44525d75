-- ===== src/Sync/Merge.antt =====
-- presage/src/manager/storage.rs, the arms of `sync_storage_service`: what a sync does with each record that it
-- reads, over the methods of the store. A failure of the store is logged and the sync goes on.
use presage.Prelude.{
  ℕ, ◌==◌, List, [], ◌∷◌, any, length, Option, none, some, Bool, true, false, if◌then◌else◌, Result,
  ok, err,
}
use presage.Prelude.Steps.{Step, done, attempt, ◌>>=◌, ◌>>◌}
use presage.Wire.{EditError}
use presage.Account.{
  AccountChatState, PinCodec, Published, Thread, merge_account_record, pinned_threads, same_bytes,
}
use presage.Publish.{Contact, pending_publish_intent, merge_contact_from_snapshot}
use presage.Groups.{Group, ServiceId, same_service_id}
use presage.Groups.Pending.{
  GroupV2Record, group_pending_none, group_pending_publish_intent, merge_group_from_snapshot,
}
use presage.Folders.{ChatFolder, merge_chat_folder_from_snapshot}
use presage.Stickers.{StickerPackRecordState}
use presage.Manifest.Update.{StorageRecordIdentity}
use presage.Sync.{SyncStore, StorageItem, or_warn, or_default, found}

-- What has an unpublished local change, read once for the whole sync.
pub record Pending : Type 0 where
  pub contact_pending : List ServiceId
  pub group_pending : List (List ℕ)
  pub folder_pending : List (List ℕ)
  pub sticker_pack_pending : List (List ℕ)
  pub account_pending : Bool

abbrev pub contains_id : List ServiceId → ServiceId → Bool
contains_id ids id = any (λ i. same_service_id i id) ids

abbrev pub contains : List (List ℕ) → List ℕ → Bool
contains keys key = any (λ k. same_bytes k key) keys

-- `AccountChatState::default()`
abbrev pub default_chat_state : AccountChatState
default_chat_state = record {
  note_to_self_archived = false;
  keep_muted_chats_archived = false;
  pinned = [];
}

-- `contact_profile_key`: the bytes, where there are 32 of them.
unfoldable pub contact_profile_key :
    {Phone Verified Avatar : Type 0} → Contact Phone Verified Avatar → Option (List ℕ)
contact_profile_key contact =
    if length contact.profile_key == 32 then some contact.profile_key else none

abbrev pub identity_of_item : {C : Type 0} → StorageItem C → ℕ → StorageRecordIdentity
identity_of_item item manifest_version = record {
  storage_id = item.key;
  storage_version = manifest_version;
  record' = item.plaintext;
}

-- The record of a stored identity.
abbrev pub stored_record : Option StorageRecordIdentity → Option (List ℕ)
stored_record none = none
stored_record (some identity) = some identity.record'

-- The answer of `account_storage_identity`, for `merge_account_record`.
abbrev pub published_of : {E : Type 0} → Result E (Option StorageRecordIdentity) → Published
published_of (ok none) = Published.never
published_of (ok (some identity)) = Published.known identity.record'
published_of (err e) = Published.unreadable

module _ {W E Handle Phone Verified Avatar Role Access ProfileKey C : Type 0}
    (store : SyncStore W E Handle Phone Verified Avatar Role Access ProfileKey C) where
  -- The stored identity is read only for what is flagged.
  abbrev pub published_record :
      Bool → Step W E (Option StorageRecordIdentity) → Step W E (Option (List ℕ))
  published_record false read = done none
  published_record true read = do identity ← found read; done (stored_record identity)

  -- `if let Some(existing) = ..`
  abbrev pub merged_contact :
      Contact Phone Verified Avatar
      → Bool
      → Option (Contact Phone Verified Avatar)
      → Step W E (Contact Phone Verified Avatar)
  merged_contact remote flagged none = done remote
  merged_contact remote flagged (some existing) = do
    stored ←
        published_record flagged (store.contact_storage_identity (ServiceId.aci_id remote.uuid))
    done
        (merge_contact_from_snapshot remote existing
          (pending_publish_intent stored existing flagged)).0

  abbrev pub save_profile_key : ℕ → Option (List ℕ) → Step W E (Unit {0})
  save_profile_key uuid none = done tt
  save_profile_key uuid (some key) = or_warn (store.upsert_profile_key uuid key)

  unfoldable pub sync_contact :
      Pending → StorageRecordIdentity → Contact Phone Verified Avatar → Step W E (Unit {0})
  sync_contact pending identity remote = do
    existing ← found (store.contact_by_id (ServiceId.aci_id remote.uuid))
    contact ←
        merged_contact remote (contains_id pending.contact_pending (ServiceId.aci_id remote.uuid))
          existing
    or_warn (store.save_contact contact)
    or_warn (store.save_contact_storage_identity (ServiceId.aci_id remote.uuid) identity)
    save_profile_key contact.uuid (contact_profile_key contact)

  -- `stub` is the default group that needs hydration.
  abbrev pub merged_group :
      Group Role Access ProfileKey ℕ
      → List ℕ
      → GroupV2Record
      → Bool
      → Option (Group Role Access ProfileKey ℕ)
      → Step W E (Group Role Access ProfileKey ℕ)
  merged_group stub master_key remote flagged none =
      done (merge_group_from_snapshot stub remote group_pending_none)
  merged_group stub master_key remote flagged (some existing) = do
    stored ← published_record flagged (store.group_storage_identity master_key)
    done (
        merge_group_from_snapshot existing remote
          (group_pending_publish_intent stored existing flagged))

  unfoldable pub sync_group :
      Group Role Access ProfileKey ℕ
      → Pending
      → StorageRecordIdentity
      → List ℕ
      → GroupV2Record
      → Step W E (Unit {0})
  sync_group stub pending identity master_key remote =
      if length master_key == 32
      then (do
        existing ← found (store.group master_key)
        group ←
            merged_group stub master_key remote (contains pending.group_pending master_key) existing
        or_warn (store.save_group master_key group)
        or_warn (store.save_group_storage_identity master_key identity))
      else done tt

  abbrev pub save_merged : Option ChatFolder → Step W E (Unit {0})
  save_merged none = done tt
  save_merged (some merged) = or_warn (store.save_chat_folder merged)

  unfoldable pub sync_chat_folder :
      Pending → StorageRecordIdentity → ChatFolder → Step W E (Unit {0})
  sync_chat_folder pending identity remote = do
    existing ← found (store.chat_folder remote.id)
    save_merged (
        merge_chat_folder_from_snapshot existing remote (contains pending.folder_pending remote.id))
    or_warn (store.save_chat_folder_storage_identity remote.id identity)

  abbrev pub note_sticker_pack : Bool → List ℕ → StickerPackRecordState → Step W E (Unit {0})
  note_sticker_pack true id state = done tt
  note_sticker_pack false id (StickerPackRecordState.removed t) =
      or_warn (store.remove_sticker_pack id)
  note_sticker_pack false id (StickerPackRecordState.installed key position) =
      or_warn (store.note_installed_sticker_pack id key (some position))

  unfoldable pub sync_sticker_pack :
      Pending
      → StorageRecordIdentity
      → Option (List ℕ × StickerPackRecordState)
      → Step W E (Unit {0})
  sync_sticker_pack pending identity none = done tt
  sync_sticker_pack pending identity (some (id, state)) = do
    note_sticker_pack (contains pending.sticker_pack_pending id) id state
    or_warn (store.save_sticker_pack_storage_identity id identity)

  abbrev pub unarchive_contact : Option (Contact Phone Verified Avatar) → Step W E (Unit {0})
  unarchive_contact none = done tt
  unarchive_contact (some contact) =
      if contact.archived
      then or_warn (store.save_contact (record contact { archived = false }))
      else done tt

  abbrev pub unarchive_group :
      List ℕ → Option (Group Role Access ProfileKey ℕ) → Step W E (Unit {0})
  unarchive_group master_key none = done tt
  unarchive_group master_key (some group) =
      if group.archived
      then or_warn (store.save_group master_key (record group { archived = false }))
      else done tt

  abbrev pub unarchive_thread : Pending → Thread ServiceId → Step W E (Unit {0})
  unarchive_thread pending (Thread.contact id) =
      if contains_id pending.contact_pending id
      then done tt
      else (do contact ← found (store.contact_by_id id); unarchive_contact contact)
  unarchive_thread pending (Thread.group master_key) =
      if contains pending.group_pending master_key
      then done tt
      else (do group ← found (store.group master_key); unarchive_group master_key group)

  unfoldable pub unarchive_threads : Pending → List (Thread ServiceId) → Step W E (Unit {0})
  unarchive_threads pending [] = done tt
  unarchive_threads pending (t ∷ ts) = do unarchive_thread pending t; unarchive_threads pending ts

  unfoldable pub unarchive_pinned :
      PinCodec ServiceId → AccountChatState → Pending → Step W E (Unit {0})
  unarchive_pinned codec state pending = unarchive_threads pending (pinned_threads codec state)

  unfoldable pub sync_account :
      PinCodec ServiceId
      → Pending
      → StorageRecordIdentity
      → Result EditError AccountChatState
      → Step W E (Unit {0})
  sync_account codec pending identity (err e) = done tt
  sync_account codec pending identity (ok remote) = do
    local ← or_default default_chat_state store.account_chat_state
    published ← attempt store.account_storage_identity
    let merged =
        merge_account_record codec local (published_of published) remote pending.account_pending
    or_warn (store.save_account_chat_state merged)
    or_warn (store.save_account_storage_identity identity)
    unarchive_pinned codec merged pending
