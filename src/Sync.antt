-- ===== src/Sync.antt =====
-- presage/src/manager/storage.rs, `sync_storage_service`: which records of a manifest a sync reads, in which
-- batches, and where it resumes. The store and the service are given by the methods that the sync calls.
pub mod Batches
pub mod Merge
pub mod Folders
pub mod Run
pub mod Resume
pub mod Contacts
pub mod Marks
pub mod ArmMarks
pub mod FolderMarks
pub mod Flagged
use presage.Prelude.{
  ℕ, zero, suc, ◌+◌, ◌-◌, ◌%◌, ◌^◌, ◌==◌, ltb, List, [], ◌∷◌, ◌++◌, length, take, drop, map, Option,
  none, some, Bool, true, false, ◌&&◌, if◌then◌else◌, Result, ok, err, ok_unwrap_or,
}
use presage.Prelude.Steps.{Step, continue, done, attempt, ◌>>=◌, ◌>>◌}
use presage.Publish.{Contact, is_empty}
use presage.Groups.{Group, ServiceId}
use presage.Groups.Pending.{GroupV2Record}
use presage.Folders.{ChatFolder, ChatFolderRecord}
use presage.Stickers.{StickerPackRecord}
use presage.Account.{AccountChatState}
use presage.Manifest.{Identifier, ManifestRecord}
use presage.Manifest.Update.{ItemTypes, StorageRecordIdentity}

abbrev pub storage_service_batch_size : ℕ
storage_service_batch_size = 2500

pub record StorageSyncCursor : Type 0 where
  pub target_version : ℕ
  pub next_batch_index : ℕ

-- What `item.record.record` holds. A group's record comes with its master key, and the account's record is read
-- from the plaintext. `ContactRecord` is prost's message.
pub data SyncRecord (ContactRecord : Type 0) : Type 0 where
  contact : ContactRecord → SyncRecord ContactRecord
  group_v2 : List ℕ → GroupV2Record → SyncRecord ContactRecord
  chat_folder : ChatFolderRecord → SyncRecord ContactRecord
  sticker_pack : StickerPackRecord → SyncRecord ContactRecord
  account unmodelled empty : SyncRecord ContactRecord

pub record StorageItem (ContactRecord : Type 0) : Type 0 where
  pub key : List ℕ
  pub record' : SyncRecord ContactRecord
  pub plaintext : List ℕ

-- The raw identifiers of the five kinds, in the order of the manifest.
pub record SyncKeys : Type 0 where
  pub contact_keys : List (List ℕ)
  pub group_keys : List (List ℕ)
  pub folder_keys : List (List ℕ)
  pub sticker_pack_keys : List (List ℕ)
  pub account_keys : List (List ℕ)

abbrev pub no_keys : SyncKeys
no_keys = record {
  contact_keys = [];
  group_keys = [];
  folder_keys = [];
  sticker_pack_keys = [];
  account_keys = [];
}

-- The `match` of one identifier.
abbrev pub sort_identifier : ItemTypes → SyncKeys → Identifier → SyncKeys
sort_identifier types keys id =
    if id.item_type == types.contact_type
    then record keys { contact_keys = keys.contact_keys ++ id.raw ∷ [] }
    else if id.item_type == types.groupv2_type
    then record keys { group_keys = keys.group_keys ++ id.raw ∷ [] }
    else if id.item_type == types.chat_folder_type
    then record keys { folder_keys = keys.folder_keys ++ id.raw ∷ [] }
    else if id.item_type == types.sticker_pack_type
    then record keys { sticker_pack_keys = keys.sticker_pack_keys ++ id.raw ∷ [] }
    else if id.item_type == types.account_type
    then record keys { account_keys = keys.account_keys ++ id.raw ∷ [] }
    else keys

unfoldable pub sort_identifiers : ItemTypes → SyncKeys → List Identifier → SyncKeys
sort_identifiers types keys [] = keys
sort_identifiers types keys (id ∷ ids) = sort_identifiers types (sort_identifier types keys id) ids

-- `account_keys.drain(..account_keys.len() - 1)`, when there is more than one
abbrev pub last_only : List (List ℕ) → List (List ℕ)
last_only keys = if ltb 1 (length keys) then drop (length keys - 1) keys else keys

unfoldable pub sync_keys : ItemTypes → List Identifier → SyncKeys
sync_keys types ids =
    let keys = sort_identifiers types no_keys ids in
    record keys { account_keys = last_only keys.account_keys }

unfoldable pub nothing_to_sync : SyncKeys → Bool
nothing_to_sync keys =
    is_empty keys.contact_keys
    && is_empty keys.group_keys
    && is_empty keys.folder_keys
    && is_empty keys.sticker_pack_keys
    && is_empty keys.account_keys

-- Rust's `chunks(size)`, for a size that is not 0. A round of fuel takes an element at least.
unfoldable pub chunks_from : {A : Type 0} → ℕ → ℕ → List A → List (List A)
chunks_from zero size xs = []
chunks_from (suc fuel) size [] = []
chunks_from (suc fuel) size (x ∷ xs) =
    take size (x ∷ xs) ∷ chunks_from fuel size (drop size (x ∷ xs))

abbrev pub chunks : {A : Type 0} → ℕ → List A → List (List A)
chunks size xs = chunks_from (length xs) size xs

abbrev pub subject_keys : SyncKeys → List (List ℕ)
subject_keys keys = keys.contact_keys ++ keys.group_keys ++ keys.sticker_pack_keys

abbrev pub trailing_keys : SyncKeys → List (List ℕ)
trailing_keys keys = keys.folder_keys ++ keys.account_keys

unfoldable pub batches : SyncKeys → List (List (List ℕ))
batches keys =
    chunks storage_service_batch_size (subject_keys keys)
    ++ chunks storage_service_batch_size (trailing_keys keys)

-- The methods of the store and of the service that the sync calls.
pub record SyncStore
    (W E Handle Phone Verified Avatar Role Access ProfileKey ContactRecord : Type 0) : Type 0 where
  pub new_service : Step W E Handle
  pub manifest_if_changed : Handle → ℕ → Step W E (Option ManifestRecord)
  pub read_items :
      Handle → List (List ℕ) → Option (List ℕ) → Step W E (List (StorageItem ContactRecord))
  pub fetch_storage_manifest_version : Step W E ℕ
  pub store_storage_manifest_version : ℕ → Step W E (Unit {0})
  pub fetch_storage_sync_cursor : Step W E (Option StorageSyncCursor)
  pub store_storage_sync_cursor : StorageSyncCursor → Step W E (Unit {0})
  pub clear_storage_sync_cursor : Step W E (Unit {0})
  pub contacts_needing_storage_sync : Step W E (List ServiceId)
  pub groups_needing_storage_sync : Step W E (List (List ℕ))
  pub chat_folders_needing_storage_sync : Step W E (List (List ℕ))
  pub sticker_packs_needing_storage_sync : Step W E (List (List ℕ))
  pub account_needs_storage_sync : Step W E Bool
  pub contact_by_id : ServiceId → Step W E (Option (Contact Phone Verified Avatar))
  pub save_contact : Contact Phone Verified Avatar → Step W E (Unit {0})
  pub contact_storage_identity : ServiceId → Step W E (Option StorageRecordIdentity)
  pub save_contact_storage_identity : ServiceId → StorageRecordIdentity → Step W E (Unit {0})
  pub upsert_profile_key : ℕ → List ℕ → Step W E (Unit {0})
  pub group : List ℕ → Step W E (Option (Group Role Access ProfileKey ℕ))
  pub save_group : List ℕ → Group Role Access ProfileKey ℕ → Step W E (Unit {0})
  pub group_storage_identity : List ℕ → Step W E (Option StorageRecordIdentity)
  pub save_group_storage_identity : List ℕ → StorageRecordIdentity → Step W E (Unit {0})
  pub chat_folders : Step W E (List ChatFolder)
  pub chat_folder : List ℕ → Step W E (Option ChatFolder)
  pub save_chat_folder : ChatFolder → Step W E (Unit {0})
  pub delete_chat_folder : List ℕ → Step W E (Unit {0})
  pub chat_folder_storage_identity : List ℕ → Step W E (Option StorageRecordIdentity)
  pub save_chat_folder_storage_identity : List ℕ → StorageRecordIdentity → Step W E (Unit {0})
  pub clear_chat_folder_storage_identity : List ℕ → Step W E (Unit {0})
  pub set_chat_folder_needs_storage_sync : List ℕ → Bool → Step W E (Unit {0})
  pub remove_sticker_pack : List ℕ → Step W E (Unit {0})
  pub note_installed_sticker_pack : List ℕ → List ℕ → Option ℕ → Step W E (Unit {0})
  pub save_sticker_pack_storage_identity : List ℕ → StorageRecordIdentity → Step W E (Unit {0})
  pub account_chat_state : Step W E AccountChatState
  pub save_account_chat_state : AccountChatState → Step W E (Unit {0})
  pub account_storage_identity : Step W E (Option StorageRecordIdentity)
  pub save_account_storage_identity : StorageRecordIdentity → Step W E (Unit {0})
  pub fresh_uuid : W → List ℕ × W

-- `.ok().flatten()`
abbrev pub ok_flatten : {E A : Type 0} → Result E (Option A) → Option A
ok_flatten (ok o) = o
ok_flatten (err e) = none

module _ {W E : Type 0} where
  -- A failure that is logged, and the sync goes on: `if let Err(e) = .. { warn!(..) }`, `.ok()`
  abbrev pub or_warn : Step W E (Unit {0}) → Step W E (Unit {0})
  or_warn step w = (ok tt, (step w).1)

  -- `.unwrap_or_default()`
  abbrev pub or_default : {A : Type 0} → A → Step W E A → Step W E A
  or_default d step w = (ok (ok_unwrap_or (step w).0 d), (step w).1)

  abbrev pub found : {A : Type 0} → Step W E (Option A) → Step W E (Option A)
  found step w = (ok (ok_flatten (step w).0), (step w).1)
