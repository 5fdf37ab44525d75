-- ===== src/Examples/Sync.antt =====
-- A sync of a store that keeps one contact, the cursor and the batches that were read.
use presage.Prelude.{
  ℕ, List, [], ◌∷◌, ◌++◌, take, Option, none, some, Bool, true, false, ok, ◌≡◌, refl, arith,
}
use presage.Prelude.Steps.{Step, done}
use presage.Record.{plain_contact}
use presage.Groups.{ServiceId}
use presage.Manifest.{Identifier, ManifestRecord}
use presage.Manifest.Update.{ItemTypes, StorageRecordIdentity}
use presage.Publish.Merge.{merged}
use presage.Wire.Scan.{All}
use presage.Sync.{
  nothing_to_sync, SyncStore, StorageSyncCursor, batches, sync_keys, chunks_from, sort_identifiers,
}
use presage.Sync.Batches.{Apart, BatchSized, concat, batches-sync_keys}
use presage.Sync.Merge.{Pending, default_chat_state, sync_contact}
use presage.Sync.Run.{
  SyncConfig, sync_batches, sync_batch, sync_items, read_pending, sync_storage_service,
}
use presage.Sync.Resume.{KeepsCursor, Offered, sync_storage_service-resumed}
use presage.Sync.Contacts.{KeepsContacts, sync_contact-merged}
use presage.Examples.Publish.{Row, row, snapshot, changed, diff-row}
use presage.Examples.Groups.{pair}

record Device : Type 0 where
  contact : Option Row
  identity : Option StorageRecordIdentity
  cursor : Option StorageSyncCursor
  read : List (List (List ℕ))

abbrev Call : Type 0 → Type 0
Call A = Step Device (Unit {0}) A

abbrev nothing : Call (Unit {0})
nothing = done tt

abbrev identifier : ℕ → ℕ → Identifier
identifier raw item_type = record { raw = raw ∷ []; item_type = item_type }

-- A folder, two account records, a contact, a record of a kind that is not modelled and a group.
abbrev manifest_ids : List Identifier
manifest_ids =
    identifier 10 8
    ∷ identifier 11 4
    ∷ identifier 12 1
    ∷ identifier 13 99
    ∷ identifier 14 4
    ∷ identifier 15 3
    ∷ []

abbrev offered : ManifestRecord
offered = record { version = 7; source_device = 1; identifiers = manifest_ids; record_ikm = [] }

abbrev store : SyncStore Device (Unit {0}) (Unit {0}) ℕ ℕ ℕ Bool Bool ℕ (Unit {0})
store = record {
  new_service = done tt;
  manifest_if_changed = λ h n. done (some offered);
  read_items = λ h batch ikm w. (ok [], record w { read = w.read ++ batch ∷ [] });
  fetch_storage_manifest_version = done 0;
  store_storage_manifest_version = λ n. nothing;
  fetch_storage_sync_cursor = λ w. (ok w.cursor, w);
  store_storage_sync_cursor = λ c w. (ok tt, record w { cursor = some c });
  clear_storage_sync_cursor = λ w. (ok tt, record w { cursor = none });
  contacts_needing_storage_sync = done [];
  groups_needing_storage_sync = done [];
  chat_folders_needing_storage_sync = done [];
  sticker_packs_needing_storage_sync = done [];
  account_needs_storage_sync = done false;
  contact_by_id = λ id w. (ok w.contact, w);
  save_contact = λ c w. (ok tt, record w { contact = some c });
  contact_storage_identity = λ id w. (ok w.identity, w);
  save_contact_storage_identity = λ id i w. (ok tt, record w { identity = some i });
  upsert_profile_key = λ uuid key. nothing;
  group = λ key. done none;
  save_group = λ key g. nothing;
  group_storage_identity = λ key. done none;
  save_group_storage_identity = λ key i. nothing;
  chat_folders = done [];
  chat_folder = λ id. done none;
  save_chat_folder = λ f. nothing;
  delete_chat_folder = λ id. nothing;
  chat_folder_storage_identity = λ id. done none;
  save_chat_folder_storage_identity = λ id i. nothing;
  clear_chat_folder_storage_identity = λ id. nothing;
  set_chat_folder_needs_storage_sync = λ id b. nothing;
  remove_sticker_pack = λ id. nothing;
  note_installed_sticker_pack = λ id key position. nothing;
  save_sticker_pack_storage_identity = λ id i. nothing;
  account_chat_state = done default_chat_state;
  save_account_chat_state = λ s. nothing;
  account_storage_identity = done none;
  save_account_storage_identity = λ i. nothing;
  fresh_uuid = λ w. ([], w);
}

abbrev types : ItemTypes
types = record {
  contact_type = 1;
  groupv2_type = 3;
  chat_folder_type = 8;
  sticker_pack_type = 6;
  account_type = 4;
}

types-Apart : Apart types
types-Apart = record {
  group_apart = λ e. omega arith;
  folder_apart = (λ e. omega arith, λ e. omega arith);
  sticker_apart = (λ e. omega arith, λ e. omega arith, λ e. omega arith);
  account_apart = (λ e. omega arith, λ e. omega arith, λ e. omega arith, λ e. omega arith);
}

abbrev config : SyncConfig ℕ ℕ ℕ Bool Bool ℕ (Unit {0})
config = record {
  contact_try_from = λ c. none;
  forms = record {
    service_id_string = λ id. [];
    service_id_binary = λ id. [];
    parse_from_service_id_string = λ s. none;
    parse_from_service_id_binary = λ s. none;
  };
  codec = record {
    encode = λ i. [];
    decode = λ b. none;
    service_id_string = λ id. [];
    service_id_binary = λ id. [];
    parse_from_service_id_binary = λ b. none;
    parse_from_service_id_string = λ s. none;
    same_service_id = λ a b. true;
  };
  stub = pair;
  types = types;
}

two_batches :
    batches (sync_keys types manifest_ids)
    ≡ ((12 ∷ []) ∷ (15 ∷ []) ∷ []) ∷ ((10 ∷ []) ∷ (14 ∷ []) ∷ []) ∷ []
unfolding batches sync_keys sort_identifiers chunks_from
two_batches = refl

batches-sync_keys_example :
    (concat (batches (sync_keys types manifest_ids))
      ≡ (12 ∷ []) ∷ (15 ∷ []) ∷ (10 ∷ []) ∷ (14 ∷ []) ∷ [])
    × All (BatchSized 2500) (batches (sync_keys types manifest_ids))
    × (concat (take 1 (batches (sync_keys types manifest_ids))) ≡ (12 ∷ []) ∷ (15 ∷ []) ∷ [])
unfolding chunks_from
batches-sync_keys_example = batches-sync_keys types manifest_ids types-Apart

abbrev nothing_pending : Pending
nothing_pending = record {
  contact_pending = [];
  group_pending = [];
  folder_pending = [];
  sticker_pack_pending = [];
  account_pending = false;
}

abbrev old_identity : StorageRecordIdentity
old_identity = record { storage_id = 1 ∷ []; storage_version = 3; record' = plain_contact }

abbrev new_identity : StorageRecordIdentity
new_identity = record { storage_id = 2 ∷ []; storage_version = 4; record' = plain_contact }

abbrev device : Device
device = record { contact = some row; identity = some old_identity; cursor = none; read = [] }

store-KeepsCursor : KeepsCursor store
store-KeepsCursor = record {
  cursor_stored = λ cursor w. refl;
  cursor_read = λ w. refl;
  contacts_read = λ w. refl;
  groups_read = λ w. refl;
  folders_read = λ w. refl;
  packs_read = λ w. refl;
  account_read = λ w. refl;
}

store-KeepsContacts : KeepsContacts store (λ w id. w.contact) (λ w id. w.identity)
store-KeepsContacts = record {
  row_read = λ id w. refl;
  identity_read = λ id w. refl;
  row_saved = λ contact w h. refl;
  identity_saved = λ id identity w h. (refl, refl);
  key_saved = λ uuid key w id. (refl, refl);
}

abbrev offered_batches : List (List (List ℕ))
offered_batches = batches (sync_keys types offered.identifiers)

-- The device after the first of the two batches.
abbrev interrupted : Device
interrupted =
    (sync_batches store config tt none nothing_pending 7 0 (take 1 offered_batches) device).1

every_Offered : (w : Device) → Offered store config tt offered nothing_pending w
unfolding read_pending
every_Offered w = record {
  local_version = 0;
  opened = refl;
  version_read = refl;
  changed = refl;
  flagged = refl;
}

sync_storage_service-resumed_example :
    sync_storage_service store config interrupted ≡ sync_storage_service store config device
unfolding batches sync_keys sort_identifiers chunks_from sync_batches sync_batch sync_items
    nothing_to_sync
sync_storage_service-resumed_example =
    sync_storage_service-resumed store config store-KeepsCursor tt tt offered nothing_pending 0
      device (λ batch ikm v. refl) refl (omega arith) (omega arith) refl (every_Offered device) refl
      (every_Offered interrupted)

sync_contact-merged_example :
    ((sync_contact store
        (record nothing_pending { contact_pending = ServiceId.aci_id 5 ∷ [] })
        new_identity
        snapshot
        device).1.contact
      ≡ some (merged snapshot row changed))
    × ((sync_contact store
          (record nothing_pending { contact_pending = ServiceId.aci_id 5 ∷ [] })
          new_identity
          snapshot
          device).1.identity
        ≡ some new_identity)
sync_contact-merged_example =
    sync_contact-merged store (λ w id. w.contact) (λ w id. w.identity) store-KeepsContacts
      (record nothing_pending { contact_pending = ServiceId.aci_id 5 ∷ [] }) new_identity
      old_identity snapshot row changed device refl refl refl diff-row refl refl
