-- ===== src/Sync/Marks.antt =====
-- What a sync of presage/src/manager/storage.rs keeps because each call of the store and of the service keeps it.
use presage.Prelude.{ℕ, List, Option, Bool, true, false, if◌then◌else◌}
use presage.Prelude.Steps.{Step, done, ◌>>=◌, >>=-keeps}
use presage.Account.{AccountChatState}
use presage.Publish.{Contact}
use presage.Groups.{Group, ServiceId}
use presage.Folders.{ChatFolder}
use presage.Manifest.Keeps.{Keeps}
use presage.Manifest.Update.{StorageRecordIdentity}
use presage.Sync.{SyncStore, StorageSyncCursor, or_warn, found}

module _ {W E Handle Phone Verified Avatar Role Access ProfileKey C : Type 0}
    (store : SyncStore W E Handle Phone Verified Avatar Role Access ProfileKey C)
    (R : W → W → Type 0) where
  -- Each call that a sync makes keeps the relation.
  pub record EachCallKeeps : Type 0 where
    pub new_service : Keeps R store.new_service
    pub manifest_if_changed : (h : Handle) (n : ℕ) → Keeps R (store.manifest_if_changed h n)
    pub read_items :
        (h : Handle) (ids : List (List ℕ)) (ikm : Option (List ℕ))
        → Keeps R (store.read_items h ids ikm)
    pub fetch_storage_manifest_version : Keeps R store.fetch_storage_manifest_version
    pub store_storage_manifest_version : (n : ℕ) → Keeps R (store.store_storage_manifest_version n)
    pub fetch_storage_sync_cursor : Keeps R store.fetch_storage_sync_cursor
    pub store_storage_sync_cursor :
        (cursor : StorageSyncCursor) → Keeps R (store.store_storage_sync_cursor cursor)
    pub clear_storage_sync_cursor : Keeps R store.clear_storage_sync_cursor
    pub contacts_needing_storage_sync : Keeps R store.contacts_needing_storage_sync
    pub groups_needing_storage_sync : Keeps R store.groups_needing_storage_sync
    pub chat_folders_needing_storage_sync : Keeps R store.chat_folders_needing_storage_sync
    pub sticker_packs_needing_storage_sync : Keeps R store.sticker_packs_needing_storage_sync
    pub account_needs_storage_sync : Keeps R store.account_needs_storage_sync
    pub contact_by_id : (id : ServiceId) → Keeps R (store.contact_by_id id)
    pub save_contact : (c : Contact Phone Verified Avatar) → Keeps R (store.save_contact c)
    pub contact_storage_identity : (id : ServiceId) → Keeps R (store.contact_storage_identity id)
    pub save_contact_storage_identity :
        (id : ServiceId) (i : StorageRecordIdentity)
        → Keeps R (store.save_contact_storage_identity id i)
    pub upsert_profile_key : (uuid : ℕ) (key : List ℕ) → Keeps R (store.upsert_profile_key uuid key)
    pub group : (key : List ℕ) → Keeps R (store.group key)
    pub save_group :
        (key : List ℕ) (g : Group Role Access ProfileKey ℕ) → Keeps R (store.save_group key g)
    pub group_storage_identity : (key : List ℕ) → Keeps R (store.group_storage_identity key)
    pub save_group_storage_identity :
        (key : List ℕ) (i : StorageRecordIdentity)
        → Keeps R (store.save_group_storage_identity key i)
    pub chat_folders : Keeps R store.chat_folders
    pub chat_folder : (id : List ℕ) → Keeps R (store.chat_folder id)
    pub save_chat_folder : (f : ChatFolder) → Keeps R (store.save_chat_folder f)
    pub delete_chat_folder : (id : List ℕ) → Keeps R (store.delete_chat_folder id)
    pub chat_folder_storage_identity :
        (id : List ℕ) → Keeps R (store.chat_folder_storage_identity id)
    pub save_chat_folder_storage_identity :
        (id : List ℕ) (i : StorageRecordIdentity)
        → Keeps R (store.save_chat_folder_storage_identity id i)
    pub clear_chat_folder_storage_identity :
        (id : List ℕ) → Keeps R (store.clear_chat_folder_storage_identity id)
    pub mark_chat_folder :
        (id : List ℕ) → Keeps R (store.set_chat_folder_needs_storage_sync id true)
    pub remove_sticker_pack : (id : List ℕ) → Keeps R (store.remove_sticker_pack id)
    pub note_installed_sticker_pack :
        (id key : List ℕ) (position : Option ℕ)
        → Keeps R (store.note_installed_sticker_pack id key position)
    pub save_sticker_pack_storage_identity :
        (id : List ℕ) (i : StorageRecordIdentity)
        → Keeps R (store.save_sticker_pack_storage_identity id i)
    pub account_chat_state : Keeps R store.account_chat_state
    pub save_account_chat_state : (s : AccountChatState) → Keeps R (store.save_account_chat_state s)
    pub account_storage_identity : Keeps R store.account_storage_identity
    pub save_account_storage_identity :
        (i : StorageRecordIdentity) → Keeps R (store.save_account_storage_identity i)
    pub fresh_uuid : (w : W) → R w (store.fresh_uuid w).1

module _ {W E Handle Phone Verified Avatar Role Access ProfileKey C : Type 0}
    (store : SyncStore W E Handle Phone Verified Avatar Role Access ProfileKey C)
    (R : W → W → Type 0) (same : (w : W) → R w w) (trans : (a b c : W) → R a b → R b c → R a c)
    (each : EachCallKeeps store R) where
  -- A step that keeps the relation from any start on.
  pub record Kept {A : Type 0} (step : Step W E A) : Type 0 where
    pub keeps : Keeps R step

  pub bind :
      {A B : Type 0} (step : Step W E A) (next : A → Step W E B)
      → Kept step
      → ((a : A) → Kept (next a))
      → Kept (step >>= next)
  bind step next h rest = record {
    keeps = >>=-keeps R trans step next h.keeps (λ a. (rest a).keeps);
  }

  pub call : {A : Type 0} (step : Step W E A) → Keeps R step → Kept step
  call step h = record { keeps = h }

  pub ended : {A : Type 0} (a : A) → Kept (done a)
  ended a = record { keeps = same }

  pub warned : (step : Step W E (Unit {0})) → Keeps R step → Kept (or_warn step)
  warned step h = record { keeps = h }

  pub looked : {A : Type 0} (step : Step W E (Option A)) → Keeps R step → Kept (found step)
  looked step h = record { keeps = h }

  pub if-Kept :
      {A : Type 0} (c : Bool) (x y : Step W E A) → Kept x → Kept y → Kept (if c then x else y)
  if-Kept true x y hx hy = record { keeps = hx.keeps }
  if-Kept false x y hx hy = record { keeps = hy.keeps }
