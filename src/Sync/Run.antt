-- ===== src/Sync/Run.antt =====
-- presage/src/manager/storage.rs, `sync_storage_service` itself.
use presage.Prelude.{
  ℕ, ◌+◌, ◌%◌, ◌^◌, ◌==◌, List, [], ◌∷◌, map, drop, Option, none, some, true, false, if◌then◌else◌,
  Result, ok, err,
}
use presage.Prelude.Steps.{Step, done, ◌>>=◌, ◌>>◌}
use presage.Account.{PinCodec, from_record}
use presage.Publish.{Contact, is_empty}
use presage.Groups.{Group, ServiceId}
use presage.Folders.{ChatFolder, ServiceIdForms, ChatFolderRecordError, try_from}
use presage.Stickers.{sticker_pack_change}
use presage.Manifest.{ManifestRecord}
use presage.Manifest.Update.{ItemTypes}
use presage.Sync.{
  SyncStore, SyncRecord, StorageItem, StorageSyncCursor, SyncKeys, sync_keys, nothing_to_sync,
  batches, or_warn, or_default,
}
use presage.Sync.Merge.{
  Pending, identity_of_item, sync_contact, sync_group, sync_chat_folder, sync_sticker_pack,
  sync_account,
}
use presage.Sync.Folders.{
  reappend_chat_folders_missing_from_manifest, ensure_single_all_chats_folder,
}

-- What the sync is given besides the store: how prost's contact becomes a row, the codecs, the default group and
-- the numbers of the kinds.
pub record SyncConfig (Phone Verified Avatar Role Access ProfileKey C : Type 0) : Type 0 where
  pub contact_try_from : C → Option (Contact Phone Verified Avatar)
  pub forms : ServiceIdForms ServiceId
  pub codec : PinCodec ServiceId
  pub stub : Group Role Access ProfileKey ℕ
  pub types : ItemTypes

-- `record_ikm`, where it is not empty
abbrev pub ikm_of : List ℕ → Option (List ℕ)
ikm_of ikm = if is_empty ikm then none else some ikm

module _ {W E Handle Phone Verified Avatar Role Access ProfileKey C : Type 0}
    (store : SyncStore W E Handle Phone Verified Avatar Role Access ProfileKey C)
    (config : SyncConfig Phone Verified Avatar Role Access ProfileKey C) where
  abbrev pub sync_read_contact :
      Pending → StorageItem C → ℕ → Option (Contact Phone Verified Avatar) → Step W E (Unit {0})
  sync_read_contact pending item version none = done tt
  sync_read_contact pending item version (some contact) =
      sync_contact store pending (identity_of_item item version) contact

  abbrev pub sync_read_folder :
      Pending → StorageItem C → ℕ → Result ChatFolderRecordError ChatFolder → Step W E (Unit {0})
  sync_read_folder pending item version (err e) = done tt
  sync_read_folder pending item version (ok folder) =
      sync_chat_folder store pending (identity_of_item item version) folder

  -- The `match` on the kind of a record.
  abbrev pub sync_record : Pending → StorageItem C → ℕ → SyncRecord C → Step W E (Unit {0})
  sync_record pending item version (SyncRecord.contact cr) =
      sync_read_contact pending item version (config.contact_try_from cr)
  sync_record pending item version (SyncRecord.group_v2 master_key gr) =
      sync_group store config.stub pending (identity_of_item item version) master_key gr
  sync_record pending item version (SyncRecord.chat_folder fr) =
      sync_read_folder pending item version (try_from config.forms fr)
  sync_record pending item version (SyncRecord.sticker_pack r) =
      sync_sticker_pack store pending (identity_of_item item version) (sticker_pack_change r)
  sync_record pending item version SyncRecord.account =
      sync_account store config.codec pending (identity_of_item item version)
        (from_record item.plaintext)
  sync_record pending item version SyncRecord.unmodelled = done tt
  sync_record pending item version SyncRecord.empty = done tt

  unfoldable pub sync_items : Pending → ℕ → List (StorageItem C) → Step W E (Unit {0})
  sync_items pending version [] = done tt
  sync_items pending version (item ∷ items) = do
    sync_record pending item version item.record'
    sync_items pending version items

  -- One batch, and its checkpoint.
  unfoldable pub sync_batch :
      Handle → Option (List ℕ) → Pending → ℕ → ℕ → List (List ℕ) → Step W E (Unit {0})
  sync_batch handle ikm pending version i batch = do
    items ← store.read_items handle batch ikm
    sync_items pending version items
    or_warn (
        store.store_storage_sync_cursor
          (record { target_version = version; next_batch_index = (i + 1) % 2 ^ 32 }))

  -- The `for` over the batches that are left, the first of which has index `i`.
  unfoldable pub sync_batches :
      Handle → Option (List ℕ) → Pending → ℕ → ℕ → List (List (List ℕ)) → Step W E (Unit {0})
  sync_batches handle ikm pending version i [] = done tt
  sync_batches handle ikm pending version i (batch ∷ rest) = do
    sync_batch handle ikm pending version i batch
    sync_batches handle ikm pending version (i + 1) rest

  unfoldable pub read_pending : Step W E Pending
  read_pending = do
    contacts ← or_default [] store.contacts_needing_storage_sync
    groups ← or_default [] store.groups_needing_storage_sync
    folders ← or_default [] store.chat_folders_needing_storage_sync
    packs ← or_default [] store.sticker_packs_needing_storage_sync
    account ← or_default false store.account_needs_storage_sync
    done (record {
      contact_pending = contacts;
      group_pending = groups;
      folder_pending = folders;
      sticker_pack_pending = packs;
      account_pending = account;
    })

  -- `resume_from`
  abbrev pub resume_from : ℕ → Option StorageSyncCursor → Step W E ℕ
  resume_from version none = done 0
  resume_from version (some cursor) =
      if cursor.target_version == version
      then done cursor.next_batch_index
      else (do or_warn store.clear_storage_sync_cursor; done 0)

  -- After the last batch.
  unfoldable pub finish_sync : ManifestRecord → Step W E (Unit {0})
  finish_sync m = do
    store.store_storage_manifest_version m.version
    reappend_chat_folders_missing_from_manifest store (map (λ id. id.raw) m.identifiers)
    ensure_single_all_chats_folder store true

  unfoldable pub sync_manifest : Handle → ManifestRecord → SyncKeys → Step W E (Unit {0})
  sync_manifest handle m keys = do
    pending ← read_pending
    cursor ← store.fetch_storage_sync_cursor
    from ← resume_from m.version cursor
    sync_batches handle (ikm_of m.record_ikm) pending m.version from (drop from (batches keys))
    finish_sync m
    or_warn store.clear_storage_sync_cursor

  abbrev pub sync_changed : Handle → Option ManifestRecord → Step W E (Unit {0})
  sync_changed handle none = do
    or_warn store.clear_storage_sync_cursor
    ensure_single_all_chats_folder store false
  sync_changed handle (some m) =
      if nothing_to_sync (sync_keys config.types m.identifiers)
      then finish_sync m
      else sync_manifest handle m (sync_keys config.types m.identifiers)

  unfoldable pub sync_storage_service : Step W E (Unit {0})
  sync_storage_service = do
    handle ← store.new_service
    local_version ← store.fetch_storage_manifest_version
    changed ← store.manifest_if_changed handle local_version
    sync_changed handle changed
