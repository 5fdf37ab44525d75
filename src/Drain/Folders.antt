-- ===== src/Drain/Folders.antt =====
-- presage/src/manager/storage.rs, `push_pending_chat_folder_records`: all chat folders with an unpublished change
-- in one write of the manifest, which also drops the tombstones that have expired.
use presage.Prelude.{
  ℕ, zero, suc, ◌+◌, ◌%◌, ◌^◌, ◌==◌, List, [], ◌∷◌, ◌++◌, map, retain, get_elem?, Option, none,
  some, false, not, ◌&&◌, if◌then◌else◌, Result, ok, err,
}
use presage.Prelude.Steps.{Step, done, fail, lift, attempt, run_total, run_unit, ◌>>=◌, ◌>>◌}
use presage.Wire.{EditError}
use presage.Publish.{is_empty}
use presage.Groups.{ServiceId}
use presage.Folders.{ChatFolder, chat_folder_tombstone_expired}
use presage.Folders.Unknown.{chat_folder_unknown_fields}
use presage.Manifest.{
  ManifestRecord, Error, StorageWorld, storage_service, read_manifest, write_manifest_edit,
  manifest_write_backoff,
}
use presage.Manifest.Update.{
  StorageRecordIdentity, IdentityStore, ItemTypes, max_passes, edit_result,
}
use presage.Sync.Merge.{contains}

-- The other methods that the drain calls. `encode` is `encode_chat_folder_record` with prost's encoding.
pub record FolderDrain (W E : Type 0) : Type 0 where
  pub now_ms : W → ℕ × W
  pub chat_folders : Step W E (List ChatFolder)
  pub chat_folder : List ℕ → Step W E (Option ChatFolder)
  pub chat_folders_needing_storage_sync : Step W E (List (List ℕ))
  pub delete_chat_folder : List ℕ → Step W E (Unit {0})
  pub encode : ChatFolder → List ℕ → List ℕ

-- What one write inserts and deletes, and the folders whose records it carries.
pub record FolderEdit : Type 0 where
  pub inserts : List (ℕ × List ℕ)
  pub delete_ids : List (List ℕ)
  pub published : List (List ℕ × List ℕ)

abbrev pub no_edit : FolderEdit
no_edit = record { inserts = []; delete_ids = []; published = [] }

-- `.map(|i| chat_folder_unknown_fields(&i.record)).transpose()?.unwrap_or_default()`
abbrev pub unknown_of : Option StorageRecordIdentity → Result EditError (List ℕ)
unknown_of none = ok []
unknown_of (some identity) = chat_folder_unknown_fields identity.record'

abbrev pub delete_of : Option StorageRecordIdentity → List (List ℕ)
delete_of none = []
delete_of (some identity) = identity.storage_id ∷ []

module _ {W S V Key Handle : Type 0} (world : StorageWorld W S V EditError Key Handle)
    (store : IdentityStore W (Error S V EditError) ServiceId) (types : ItemTypes)
    (sync : Step W (Error S V EditError) (Unit {0}))
    (drain : FolderDrain W (Error S V EditError)) where
  unfoldable pub expired_chat_folder_tombstones : Step W (Error S V EditError) (List (List ℕ))
  expired_chat_folder_tombstones = do
    now ← run_total drain.now_ms
    folders ← drain.chat_folders
    done (map (λ f. f.id) (retain (λ f. chat_folder_tombstone_expired f now) folders))

  unfoldable pub purge_chat_folders : List (List ℕ) → Step W (Error S V EditError) (Unit {0})
  purge_chat_folders [] = done tt
  purge_chat_folders (id ∷ ids) = do drain.delete_chat_folder id; purge_chat_folders ids

  -- One pending folder, added to the edit.
  abbrev pub gather_folder :
      List ℕ → FolderEdit → Option ChatFolder → Step W (Error S V EditError) FolderEdit
  gather_folder id edit none = do store.set_chat_folder_needs_storage_sync id false; done edit
  gather_folder id edit (some folder) = do
    identity ← store.chat_folder_storage_identity id
    unknown ← lift (edit_result (unknown_of identity))
    done (record {
      inserts = edit.inserts ++ (types.chat_folder_type, drain.encode folder unknown) ∷ [];
      delete_ids = edit.delete_ids ++ delete_of identity;
      published = edit.published ++ (id, drain.encode folder unknown) ∷ [];
    })

  unfoldable pub gather_pending :
      List (List ℕ) → FolderEdit → Step W (Error S V EditError) FolderEdit
  gather_pending [] edit = done edit
  gather_pending (id ∷ ids) edit = do
    folder ← drain.chat_folder id
    edit ← gather_folder id edit folder
    gather_pending ids edit

  unfoldable pub gather_expired :
      List (List ℕ) → FolderEdit → Step W (Error S V EditError) FolderEdit
  gather_expired [] edit = done edit
  gather_expired (id ∷ ids) edit = do
    identity ← store.chat_folder_storage_identity id
    gather_expired ids (record edit { delete_ids = edit.delete_ids ++ delete_of identity })

  -- `published.into_iter().zip(new_ids)`
  unfoldable pub save_published :
      ℕ → List (List ℕ × List ℕ) → List (List ℕ) → Step W (Error S V EditError) (Unit {0})
  save_published version [] new_ids = done tt
  save_published version (p ∷ published) [] = done tt
  save_published version ((id, record') ∷ published) (storage_id ∷ new_ids) = do
    store.save_chat_folder_storage_identity id
        (record { storage_id = storage_id; storage_version = version; record' = record' })
    store.set_chat_folder_needs_storage_sync id false
    save_published version published new_ids

  unfoldable pub folders_written :
      ManifestRecord
      → FolderEdit
      → List (List ℕ)
      → List (List ℕ)
      → Step W (Error S V EditError) (Unit {0})
  folders_written current edit expired new_ids = do
    world.store_storage_manifest_version ((current.version + 1) % 2 ^ 64)
    save_published ((current.version + 1) % 2 ^ 64) edit.published new_ids
    purge_chat_folders expired
    run_unit world.notify_storage_manifest_written
    done tt

  abbrev pub back_off_folders :
      Option ℕ → Step W (Error S V EditError) (Unit {0}) → Step W (Error S V EditError) (Unit {0})
  back_off_folders none again = fail Error.storage_manifest_conflict
  back_off_folders (some backoff) again = do run_unit (world.sleep backoff); again

  abbrev pub after_folders :
      ManifestRecord
      → FolderEdit
      → List (List ℕ)
      → ℕ
      → Step W (Error S V EditError) (Unit {0})
      → Result (Error S V EditError) (List (List ℕ))
      → Step W (Error S V EditError) (Unit {0})
  after_folders current edit expired attempts again (ok new_ids) =
      folders_written current edit expired new_ids
  after_folders current edit expired attempts again (err Error.storage_manifest_conflict) =
      back_off_folders (get_elem? manifest_write_backoff attempts) again
  after_folders current edit expired attempts again (err Error.storage_record_moved) =
      back_off_folders (get_elem? manifest_write_backoff attempts) again
  after_folders current edit expired attempts again (err Error.storage_record_unknown) =
      fail Error.storage_record_unknown
  after_folders current edit expired attempts again (err Error.missing_key_error) =
      fail Error.missing_key_error
  after_folders current edit expired attempts again (err (Error.store_error s)) =
      fail (Error.store_error s)
  after_folders current edit expired attempts again (err (Error.storage_service_error v)) =
      fail (Error.storage_service_error v)
  after_folders current edit expired attempts again (err (Error.storage_record_edit x)) =
      fail (Error.storage_record_edit x)

  abbrev pub write_folders :
      Handle
      → ManifestRecord
      → List (List ℕ)
      → ℕ
      → Step W (Error S V EditError) (Unit {0})
      → FolderEdit
      → Step W (Error S V EditError) (Unit {0})
  write_folders handle current expired attempts again edit =
      if is_empty edit.inserts && is_empty edit.delete_ids
      then purge_chat_folders expired
      else attempt (write_manifest_edit world handle current edit.inserts edit.delete_ids)
        >>= after_folders current edit expired attempts again

  unfoldable pub push_folders :
      Handle
      → ManifestRecord
      → List (List ℕ)
      → List (List ℕ)
      → ℕ
      → Step W (Error S V EditError) (Unit {0})
      → Step W (Error S V EditError) (Unit {0})
  push_folders handle current pending expired attempts again = do
    edit ← gather_pending pending no_edit
    edit ← gather_expired expired edit
    write_folders handle current expired attempts again edit

  unfoldable pub folder_passes :
      Handle → List (List ℕ) → List (List ℕ) → ℕ → ℕ → Step W (Error S V EditError) (Unit {0})
  folder_passes handle pending expired zero attempts = fail Error.storage_manifest_conflict
  folder_passes handle pending expired (suc passes) attempts = do
    local_version ← world.fetch_storage_manifest_version
    current ← read_manifest world handle
    if current.version == local_version
        then push_folders handle current pending expired attempts
            (folder_passes handle pending expired passes (attempts + 1))
        else sync >> folder_passes handle pending expired passes attempts

  abbrev pub push_some : List (List ℕ) → List (List ℕ) → Step W (Error S V EditError) (Unit {0})
  push_some pending expired =
      if is_empty pending && is_empty expired
      then done tt
      else storage_service world >>= λ handle. folder_passes handle pending expired max_passes 0

  unfoldable pub push_pending_chat_folder_records : Step W (Error S V EditError) (Unit {0})
  push_pending_chat_folder_records = do
    expired ← expired_chat_folder_tombstones
    pending ← drain.chat_folders_needing_storage_sync
    push_some (retain (λ id. not (contains expired id)) pending) expired
