-- ===== src/Sync/Flagged.antt =====
-- The mark of a record under `update_storage_record` with the sync that it runs in between, `sync_storage_service` of
-- presage/src/manager/storage.rs.
use presage.Prelude.{
  ℕ, ◌+◌, ◌%◌, ◌^◌, ◌==◌, drop, map, List, [], ◌∷◌, Option, none, some, true, false, Result, ok,
  err, ◌≡◌,
}
use presage.Prelude.Steps.{Step, done, attempt}
use presage.Account.{from_record}
use presage.Publish.{Contact}
use presage.Folders.{ChatFolder, ChatFolderRecordError, try_from}
use presage.Stickers.{sticker_pack_change}
use presage.Manifest.{ManifestRecord, Error, StorageWorld}
use presage.Manifest.Update.{
  StorageRecordKey, ItemTypes, IdentityStore, set_needs_storage_sync, update_storage_record,
}
use presage.Manifest.Pending.{Preserves, KeepsFlag, update_storage_record-flagged}
use presage.Sync.{
  SyncStore, SyncRecord, StorageItem, StorageSyncCursor, SyncKeys, sync_keys, nothing_to_sync,
  batches, or_warn, or_default,
}
use presage.Sync.Merge.{Pending, identity_of_item}
use presage.Sync.Folders.{reappend_folders, reappend_chat_folders_missing_from_manifest}
use presage.Sync.Run.{
  SyncConfig, ikm_of, sync_read_contact, sync_read_folder, sync_record, sync_items, sync_batch,
  sync_batches, read_pending, resume_from, finish_sync, sync_manifest, sync_changed,
  sync_storage_service,
}
use presage.Sync.Marks.{EachCallKeeps, Kept, bind, call, ended, warned, if-Kept}
use presage.Sync.ArmMarks.{
  sync_contact-Kept, sync_group-Kept, sync_chat_folder-Kept, sync_sticker_pack-Kept,
  sync_account-Kept,
}
use presage.Sync.FolderMarks.{reappend_folders-Kept, with_folders-Kept, ensure_single-Kept}

module _ {W E Handle Phone Verified Avatar Role Access ProfileKey C : Type 0}
    (store : SyncStore W E Handle Phone Verified Avatar Role Access ProfileKey C)
    (config : SyncConfig Phone Verified Avatar Role Access ProfileKey C) (R : W → W → Type 0)
    (same : (w : W) → R w w) (trans : (a b c : W) → R a b → R b c → R a c)
    (each : EachCallKeeps store R) where
  abbrev Fine : {A : Type 0} → Step W E A → Type 0
  Fine step = Kept store R same trans each step

  sync_read_contact-Kept :
      (pending : Pending) (item : StorageItem C) (version : ℕ)
      (o : Option (Contact Phone Verified Avatar))
      → Fine (sync_read_contact store config pending item version o)
  sync_read_contact-Kept pending item version none = ended store R same trans each tt
  sync_read_contact-Kept pending item version (some contact) =
      sync_contact-Kept store R same trans each pending (identity_of_item item version) contact

  sync_read_folder-Kept :
      (pending : Pending) (item : StorageItem C) (version : ℕ)
      (r : Result ChatFolderRecordError ChatFolder)
      → Fine (sync_read_folder store config pending item version r)
  sync_read_folder-Kept pending item version (err e) = ended store R same trans each tt
  sync_read_folder-Kept pending item version (ok folder) =
      sync_chat_folder-Kept store R same trans each pending (identity_of_item item version) folder

  sync_record-Kept :
      (pending : Pending) (item : StorageItem C) (version : ℕ) (r : SyncRecord C)
      → Fine (sync_record store config pending item version r)
  sync_record-Kept pending item version (SyncRecord.contact cr) =
      sync_read_contact-Kept pending item version (config.contact_try_from cr)
  sync_record-Kept pending item version (SyncRecord.group_v2 key gr) =
      sync_group-Kept store R same trans each config.stub pending (identity_of_item item version)
        key gr
  sync_record-Kept pending item version (SyncRecord.chat_folder fr) =
      sync_read_folder-Kept pending item version (try_from config.forms fr)
  sync_record-Kept pending item version (SyncRecord.sticker_pack r) =
      sync_sticker_pack-Kept store R same trans each pending (identity_of_item item version)
        (sticker_pack_change r)
  sync_record-Kept pending item version SyncRecord.account =
      sync_account-Kept store R same trans each config.codec pending (identity_of_item item version)
        (from_record item.plaintext)
  sync_record-Kept pending item version SyncRecord.unmodelled = ended store R same trans each tt
  sync_record-Kept pending item version SyncRecord.empty = ended store R same trans each tt

  sync_items-Kept :
      (pending : Pending) (version : ℕ) (items : List (StorageItem C))
      → Fine (sync_items store config pending version items)
  unfolding sync_items
  sync_items-Kept pending version [] = ended store R same trans each tt
  sync_items-Kept pending version (item ∷ items) =
      bind store R same trans each (sync_record store config pending item version item.record') _
        (sync_record-Kept pending item version item.record')
        (λ u. sync_items-Kept pending version items)

  sync_batch-Kept :
      (handle : Handle) (ikm : Option (List ℕ)) (pending : Pending) (version i : ℕ)
      (batch : List (List ℕ))
      → Fine (sync_batch store config handle ikm pending version i batch)
  unfolding sync_batch
  sync_batch-Kept handle ikm pending version i batch =
      let cursor : StorageSyncCursor = record {
        target_version = version;
        next_batch_index = (i + 1) % 2 ^ 32;
      } in
      bind store R same trans each (store.read_items handle batch ikm) _
        (call store R same trans each (store.read_items handle batch ikm)
          (each.read_items handle batch ikm))
        (λ items.
          bind store R same trans each (sync_items store config pending version items) _
            (sync_items-Kept pending version items)
            (λ u.
              warned store R same trans each (store.store_storage_sync_cursor cursor)
                (each.store_storage_sync_cursor cursor)))

  sync_batches-Kept :
      (handle : Handle) (ikm : Option (List ℕ)) (pending : Pending) (version i : ℕ)
      (bs : List (List (List ℕ)))
      → Fine (sync_batches store config handle ikm pending version i bs)
  unfolding sync_batches
  sync_batches-Kept handle ikm pending version i [] = ended store R same trans each tt
  sync_batches-Kept handle ikm pending version i (batch ∷ rest) =
      bind store R same trans each (sync_batch store config handle ikm pending version i batch) _
        (sync_batch-Kept handle ikm pending version i batch)
        (λ u. sync_batches-Kept handle ikm pending version (i + 1) rest)

  read_pending-Kept : Fine (read_pending store config)
  unfolding read_pending
  read_pending-Kept =
      bind store R same trans each (or_default [] store.contacts_needing_storage_sync) _
        (record { keeps = each.contacts_needing_storage_sync })
        (λ contacts.
          bind store R same trans each (or_default [] store.groups_needing_storage_sync) _
            (record { keeps = each.groups_needing_storage_sync })
            (λ groups.
              bind store R same trans each (or_default [] store.chat_folders_needing_storage_sync) _
                (record { keeps = each.chat_folders_needing_storage_sync })
                (λ folders.
                  bind store R same trans each
                    (or_default [] store.sticker_packs_needing_storage_sync) _
                    (record { keeps = each.sticker_packs_needing_storage_sync })
                    (λ packs.
                      bind store R same trans each
                        (or_default false store.account_needs_storage_sync) _
                        (record { keeps = each.account_needs_storage_sync })
                        (λ account. ended store R same trans each (record {
                          contact_pending = contacts;
                          group_pending = groups;
                          folder_pending = folders;
                          sticker_pack_pending = packs;
                          account_pending = account;
                        }))))))

  cleared-Kept : Fine (or_warn store.clear_storage_sync_cursor)
  cleared-Kept =
      warned store R same trans each store.clear_storage_sync_cursor each.clear_storage_sync_cursor

  resume_from-Kept :
      (version : ℕ) (o : Option StorageSyncCursor) → Fine (resume_from store config version o)
  resume_from-Kept version none = ended store R same trans each 0
  resume_from-Kept version (some cursor) =
      if-Kept store R same trans each (cursor.target_version == version)
        (done cursor.next_batch_index) _ (ended store R same trans each cursor.next_batch_index)
        (bind store R same trans each (or_warn store.clear_storage_sync_cursor) _ cleared-Kept
          (λ u. ended store R same trans each 0))

  finish_sync-Kept : (m : ManifestRecord) → Fine (finish_sync store config m)
  unfolding finish_sync reappend_chat_folders_missing_from_manifest
  finish_sync-Kept m =
      let ids = map (λ id. id.raw) m.identifiers in
      bind store R same trans each (store.store_storage_manifest_version m.version) _
        (call store R same trans each (store.store_storage_manifest_version m.version)
          (each.store_storage_manifest_version m.version))
        (λ u.
          bind store R same trans each (reappend_chat_folders_missing_from_manifest store ids) _
            (bind store R same trans each (attempt store.chat_folders) _
              (record { keeps = each.chat_folders })
              (with_folders-Kept store R same trans each (reappend_folders store ids)
                (reappend_folders-Kept store R same trans each ids)))
            (λ u. ensure_single-Kept store R same trans each true))

  sync_manifest-Kept :
      (handle : Handle) (m : ManifestRecord) (keys : SyncKeys)
      → Fine (sync_manifest store config handle m keys)
  unfolding sync_manifest
  sync_manifest-Kept handle m keys =
      bind store R same trans each (read_pending store config) _ read_pending-Kept (λ pending.
        bind store R same trans each store.fetch_storage_sync_cursor _
          (call store R same trans each store.fetch_storage_sync_cursor
            each.fetch_storage_sync_cursor)
          (λ cursor.
            bind store R same trans each (resume_from store config m.version cursor) _
              (resume_from-Kept m.version cursor)
              (λ from.
                bind store R same trans each
                  (sync_batches store config handle (ikm_of m.record_ikm) pending m.version from
                    (drop from (batches keys)))
                  _
                  (sync_batches-Kept handle (ikm_of m.record_ikm) pending m.version from
                    (drop from (batches keys)))
                  (λ u.
                    bind store R same trans each (finish_sync store config m) _ (finish_sync-Kept m)
                      (λ u. cleared-Kept)))))

  sync_changed-Kept :
      (handle : Handle) (o : Option ManifestRecord) → Fine (sync_changed store config handle o)
  sync_changed-Kept handle none =
      bind store R same trans each (or_warn store.clear_storage_sync_cursor) _ cleared-Kept
        (λ u. ensure_single-Kept store R same trans each false)
  sync_changed-Kept handle (some m) =
      if-Kept store R same trans each (nothing_to_sync (sync_keys config.types m.identifiers))
        (finish_sync store config m)
        (sync_manifest store config handle m (sync_keys config.types m.identifiers))
        (finish_sync-Kept m) (sync_manifest-Kept handle m (sync_keys config.types m.identifiers))

  sync_storage_service-Kept : Fine (sync_storage_service store config)
  unfolding sync_storage_service
  sync_storage_service-Kept =
      bind store R same trans each store.new_service _
        (call store R same trans each store.new_service each.new_service)
        (λ handle.
          bind store R same trans each store.fetch_storage_manifest_version _
            (call store R same trans each store.fetch_storage_manifest_version
              each.fetch_storage_manifest_version)
            (λ version.
              bind store R same trans each (store.manifest_if_changed handle version) _
                (call store R same trans each (store.manifest_if_changed handle version)
                  (each.manifest_if_changed handle version))
                (sync_changed-Kept handle)))

module _ {W S V X Key Handle ContactId H Phone Verified Avatar Role Access ProfileKey C : Type 0}
    (world : StorageWorld W S V X Key Handle) (rows : IdentityStore W (Error S V X) ContactId)
    (types : ItemTypes)
    (store : SyncStore W (Error S V X) H Phone Verified Avatar Role Access ProfileKey C)
    (config : SyncConfig Phone Verified Avatar Role Access ProfileKey C)
    (key : StorageRecordKey ContactId) (edit : List ℕ → Result X (Option (List ℕ)))
    (Flagged : W → Type 0) where
  -- For a store that keeps the mark once raised: no call of the store or the service, in the update and in the syncs
  -- that it runs, takes the mark of the record down but the one that lowers it, and that one fails only with the mark
  -- still up. When raising the mark ends well and the update then fails, with whatever error and after however many
  -- syncs, the record is still marked as needing a sync.
  pub synced_update-flagged :
      KeepsFlag world rows key Flagged
      → EachCallKeeps store (Preserves Flagged)
      → (w : W) (e : Error S V X) → (set_needs_storage_sync rows key true w).0 ≡ ok tt
      → (update_storage_record world rows types (sync_storage_service store config) key edit w).0
        ≡ err e
      → Flagged
          (update_storage_record world rows types (sync_storage_service store config) key edit w).1
  synced_update-flagged keeps each =
      update_storage_record-flagged world rows types (sync_storage_service store config) key edit
        Flagged keeps
        (sync_storage_service-Kept store config (Preserves Flagged) (λ w p. p)
          (λ a b c f g p. g (f p)) each).keeps
