-- ===== src/Examples/Flagged.antt =====
-- An update that fails while the syncs between its writes are those of the program.
use presage.Prelude.{suc, [], ◌∷◌, none, some, Bool, true, false, ok, ℕ, if◌then◌else◌, ◌≡◌, refl}
use presage.Prelude.Steps.{Step, done}
use presage.Groups.{ServiceId}
use presage.Manifest.{Error}
use presage.Manifest.Pending.{Preserves}
use presage.Manifest.Update.{manifest_runs, update_storage_record}
use presage.Sync.{nothing_to_sync, SyncStore, batches, sync_keys, chunks_from, sort_identifiers}
use presage.Sync.Merge.{default_chat_state}
use presage.Sync.Folders.{
  reappend_chat_folders_missing_from_manifest, reappend_folders, ensure_single_all_chats_folder,
  ensure_single_of, all_chats_versions,
}
use presage.Sync.Run.{
  SyncConfig, sync_batches, sync_batch, sync_items, read_pending, sync_storage_service, finish_sync,
  sync_manifest,
}
use presage.Sync.Marks.{EachCallKeeps}
use presage.Sync.Flagged.{synced_update-flagged}
use presage.Examples.Groups.{pair}
use presage.Examples.Manifest.{Mem, Failure, world, store, types, key, edit, start, world-KeepsFlag}

abbrev nothing : Step Mem Failure (Unit {0})
nothing = done tt

-- A sync takes over the version of the server.
abbrev sync_store : SyncStore Mem Failure (Unit {0}) ℕ ℕ ℕ Bool Bool ℕ (Unit {0})
sync_store = record {
  new_service = done tt;
  manifest_if_changed = λ h n w. (ok (some w.server), w);
  read_items = λ h batch ikm. done [];
  fetch_storage_manifest_version = λ w. (ok w.local_version, w);
  store_storage_manifest_version =
      λ n w. (ok tt, record w { local_version = n; syncs = suc w.syncs });
  fetch_storage_sync_cursor = done none;
  store_storage_sync_cursor = λ c. nothing;
  clear_storage_sync_cursor = nothing;
  contacts_needing_storage_sync = λ w. (ok (if w.flag then ServiceId.aci_id 5 ∷ [] else []), w);
  groups_needing_storage_sync = done [];
  chat_folders_needing_storage_sync = done [];
  sticker_packs_needing_storage_sync = done [];
  account_needs_storage_sync = done false;
  contact_by_id = λ id. done none;
  save_contact = λ c. nothing;
  contact_storage_identity = λ id w. (ok w.identity, w);
  save_contact_storage_identity = λ id i w. (ok tt, record w { identity = some i });
  upsert_profile_key = λ uuid key. nothing;
  group = λ key. done none;
  save_group = λ key g. nothing;
  group_storage_identity = λ key. done none;
  save_group_storage_identity = λ key i. nothing;
  chat_folders = done [];
  chat_folder = λ id. done none;
  save_chat_folder = λ f. nothing;
  delete_chat_folder = λ id. nothing;
  chat_folder_storage_identity = λ id. done none;
  save_chat_folder_storage_identity = λ id i. nothing;
  clear_chat_folder_storage_identity = λ id. nothing;
  set_chat_folder_needs_storage_sync = λ id b. nothing;
  remove_sticker_pack = λ id. nothing;
  note_installed_sticker_pack = λ id key position. nothing;
  save_sticker_pack_storage_identity = λ id i. nothing;
  account_chat_state = done default_chat_state;
  save_account_chat_state = λ s. nothing;
  account_storage_identity = done none;
  save_account_storage_identity = λ i. nothing;
  fresh_uuid = λ w. ([], w);
}

abbrev config : SyncConfig ℕ ℕ ℕ Bool Bool ℕ (Unit {0})
config = record {
  contact_try_from = λ c. none;
  forms = record {
    service_id_string = λ id. [];
    service_id_binary = λ id. [];
    parse_from_service_id_string = λ s. none;
    parse_from_service_id_binary = λ s. none;
  };
  codec = record {
    encode = λ i. [];
    decode = λ b. none;
    service_id_string = λ id. [];
    service_id_binary = λ id. [];
    parse_from_service_id_binary = λ b. none;
    parse_from_service_id_string = λ s. none;
    same_service_id = λ a b. true;
  };
  stub = pair;
  types = types;
}

sync_store-EachCallKeeps : EachCallKeeps sync_store (Preserves (λ w. w.flag ≡ true))
sync_store-EachCallKeeps = record {
  new_service = λ w p. p;
  manifest_if_changed = λ h n w p. p;
  read_items = λ h ids ikm w p. p;
  fetch_storage_manifest_version = λ w p. p;
  store_storage_manifest_version = λ n w p. p;
  fetch_storage_sync_cursor = λ w p. p;
  store_storage_sync_cursor = λ cursor w p. p;
  clear_storage_sync_cursor = λ w p. p;
  contacts_needing_storage_sync = λ w p. p;
  groups_needing_storage_sync = λ w p. p;
  chat_folders_needing_storage_sync = λ w p. p;
  sticker_packs_needing_storage_sync = λ w p. p;
  account_needs_storage_sync = λ w p. p;
  contact_by_id = λ id w p. p;
  save_contact = λ c w p. p;
  contact_storage_identity = λ id w p. p;
  save_contact_storage_identity = λ id i w p. p;
  upsert_profile_key = λ uuid key w p. p;
  group = λ key w p. p;
  save_group = λ key g w p. p;
  group_storage_identity = λ key w p. p;
  save_group_storage_identity = λ key i w p. p;
  chat_folders = λ w p. p;
  chat_folder = λ id w p. p;
  save_chat_folder = λ f w p. p;
  delete_chat_folder = λ id w p. p;
  chat_folder_storage_identity = λ id w p. p;
  save_chat_folder_storage_identity = λ id i w p. p;
  clear_chat_folder_storage_identity = λ id w p. p;
  mark_chat_folder = λ id w p. p;
  remove_sticker_pack = λ id w p. p;
  note_installed_sticker_pack = λ id key position w p. p;
  save_sticker_pack_storage_identity = λ id i w p. p;
  account_chat_state = λ w p. p;
  save_account_chat_state = λ s w p. p;
  account_storage_identity = λ w p. p;
  save_account_storage_identity = λ i w p. p;
  fresh_uuid = λ w p. p;
}

-- The rival is faster three times.
synced_update-flagged_example :
    (update_storage_record world store types
      (sync_storage_service sync_store config)
      key
      edit
      (start 9)).1.flag
    ≡ true
unfolding manifest_runs batches sync_keys sort_identifiers chunks_from sync_batches sync_batch
    sync_items nothing_to_sync read_pending sync_storage_service finish_sync sync_manifest
    reappend_chat_folders_missing_from_manifest reappend_folders ensure_single_all_chats_folder
    ensure_single_of all_chats_versions
synced_update-flagged_example =
    synced_update-flagged world store types sync_store config key edit (λ w. w.flag ≡ true)
      world-KeepsFlag sync_store-EachCallKeeps (start 9) Error.storage_manifest_conflict refl refl
