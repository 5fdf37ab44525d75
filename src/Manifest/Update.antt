-- ===== src/Manifest/Update.antt =====
-- presage/src/manager/storage.rs, `update_storage_record` and the store calls that it dispatches on the kind of
-- the record, which `StorageRecordKey` of presage/src/store.rs names.
use presage.Prelude.{
  ℕ, zero, suc, ◌+◌, ◌*◌, ◌%◌, ◌^◌, ◌==◌, List, get_elem?, Option, none, some, Bool, true, false,
  if◌then◌else◌, Result, ok, err,
}
use presage.Prelude.Steps.{Step, run_unit, done, fail, lift, attempt, ◌>>=◌, ◌>>◌}
use presage.Manifest.{
  append_taken, append_attempts, append_storage_record, drop_identifiers, insert_identifiers,
  write_manifest_edit, ManifestRecord, Error, StorageWorld, storage_service, read_manifest,
  write_replacing_storage_record, manifest_write_attempts, manifest_write_backoff,
}

pub data StorageRecordKey (ContactId : Type 0) : Type 0 where
  contact : ContactId → StorageRecordKey ContactId
  group_v2 chat_folder sticker_pack : List ℕ → StorageRecordKey ContactId
  account : StorageRecordKey ContactId

-- The numbers of `manifest_record::identifier::Type`, which is generated code.
pub record ItemTypes : Type 0 where
  pub contact_type : ℕ
  pub groupv2_type : ℕ
  pub chat_folder_type : ℕ
  pub sticker_pack_type : ℕ
  pub account_type : ℕ

unfoldable pub item_type : {ContactId : Type 0} → ItemTypes → StorageRecordKey ContactId → ℕ
item_type types (StorageRecordKey.contact id) = types.contact_type
item_type types (StorageRecordKey.group_v2 master_key) = types.groupv2_type
item_type types (StorageRecordKey.chat_folder id) = types.chat_folder_type
item_type types (StorageRecordKey.sticker_pack id) = types.sticker_pack_type
item_type types StorageRecordKey.account = types.account_type

pub record StorageRecordIdentity : Type 0 where
  pub storage_id : List ℕ
  pub storage_version : ℕ
  pub record' : List ℕ

-- The methods of the store that `update_storage_record` calls on the record that it publishes.
pub record IdentityStore (W E ContactId : Type 0) : Type 0 where
  pub set_contact_needs_storage_sync : ContactId → Bool → Step W E (Unit {0})
  pub set_group_needs_storage_sync : List ℕ → Bool → Step W E (Unit {0})
  pub set_chat_folder_needs_storage_sync : List ℕ → Bool → Step W E (Unit {0})
  pub set_sticker_pack_needs_storage_sync : List ℕ → Bool → Step W E (Unit {0})
  pub set_account_needs_storage_sync : Bool → Step W E (Unit {0})
  pub contact_storage_identity : ContactId → Step W E (Option StorageRecordIdentity)
  pub group_storage_identity : List ℕ → Step W E (Option StorageRecordIdentity)
  pub chat_folder_storage_identity : List ℕ → Step W E (Option StorageRecordIdentity)
  pub sticker_pack_storage_identity : List ℕ → Step W E (Option StorageRecordIdentity)
  pub account_storage_identity : Step W E (Option StorageRecordIdentity)
  pub save_contact_storage_identity : ContactId → StorageRecordIdentity → Step W E (Unit {0})
  pub save_group_storage_identity : List ℕ → StorageRecordIdentity → Step W E (Unit {0})
  pub save_chat_folder_storage_identity : List ℕ → StorageRecordIdentity → Step W E (Unit {0})
  pub save_sticker_pack_storage_identity : List ℕ → StorageRecordIdentity → Step W E (Unit {0})
  pub save_account_storage_identity : StorageRecordIdentity → Step W E (Unit {0})

module _ {W E ContactId : Type 0} (store : IdentityStore W E ContactId) where
  unfoldable pub set_needs_storage_sync : StorageRecordKey ContactId → Bool → Step W E (Unit {0})
  set_needs_storage_sync (StorageRecordKey.contact id) needs_sync =
      store.set_contact_needs_storage_sync id needs_sync
  set_needs_storage_sync (StorageRecordKey.group_v2 master_key) needs_sync =
      store.set_group_needs_storage_sync master_key needs_sync
  set_needs_storage_sync (StorageRecordKey.chat_folder id) needs_sync =
      store.set_chat_folder_needs_storage_sync id needs_sync
  set_needs_storage_sync (StorageRecordKey.sticker_pack id) needs_sync =
      store.set_sticker_pack_needs_storage_sync id needs_sync
  set_needs_storage_sync StorageRecordKey.account needs_sync =
      store.set_account_needs_storage_sync needs_sync

  unfoldable pub storage_identity :
      StorageRecordKey ContactId → Step W E (Option StorageRecordIdentity)
  storage_identity (StorageRecordKey.contact id) = store.contact_storage_identity id
  storage_identity (StorageRecordKey.group_v2 master_key) = store.group_storage_identity master_key
  storage_identity (StorageRecordKey.chat_folder id) = store.chat_folder_storage_identity id
  storage_identity (StorageRecordKey.sticker_pack id) = store.sticker_pack_storage_identity id
  storage_identity StorageRecordKey.account = store.account_storage_identity

  unfoldable pub save_storage_identity :
      StorageRecordKey ContactId → StorageRecordIdentity → Step W E (Unit {0})
  save_storage_identity (StorageRecordKey.contact id) identity =
      store.save_contact_storage_identity id identity
  save_storage_identity (StorageRecordKey.group_v2 master_key) identity =
      store.save_group_storage_identity master_key identity
  save_storage_identity (StorageRecordKey.chat_folder id) identity =
      store.save_chat_folder_storage_identity id identity
  save_storage_identity (StorageRecordKey.sticker_pack id) identity =
      store.save_sticker_pack_storage_identity id identity
  save_storage_identity StorageRecordKey.account identity =
      store.save_account_storage_identity identity

abbrev pub max_passes : ℕ
max_passes = manifest_write_attempts * 2

abbrev pub identity_or_unknown :
    {S V X : Type 0} → Option StorageRecordIdentity → Result (Error S V X) StorageRecordIdentity
identity_or_unknown none = err Error.storage_record_unknown
identity_or_unknown (some identity) = ok identity

abbrev pub edit_result : {S V X A : Type 0} → Result X A → Result (Error S V X) A
edit_result (ok a) = ok a
edit_result (err e) = err (Error.storage_record_edit e)

-- `sync` is `sync_storage_service`, and `edit` the closure of the caller.
module _ {W S V X Key Handle ContactId : Type 0} (world : StorageWorld W S V X Key Handle)
    (store : IdentityStore W (Error S V X) ContactId) (types : ItemTypes)
    (sync : Step W (Error S V X) (Unit {0})) (key : StorageRecordKey ContactId)
    (edit : List ℕ → Result X (Option (List ℕ))) where
  -- `Ok(new_raw_id)`
  unfoldable pub publish_identity :
      ManifestRecord → List ℕ → List ℕ → Step W (Error S V X) (Unit {0})
  publish_identity current new_record new_raw_id = do
    world.store_storage_manifest_version ((current.version + 1) % 2 ^ 64)
    save_storage_identity store key (record {
      storage_id = new_raw_id;
      storage_version = (current.version + 1) % 2 ^ 64;
      record' = new_record;
    })
    set_needs_storage_sync store key false
    run_unit world.notify_storage_manifest_written
    done tt

  -- The passes after a conflict, with one write attempt more, unless no delay is left.
  abbrev pub back_off : Option ℕ → Step W (Error S V X) (Unit {0}) → Step W (Error S V X) (Unit {0})
  back_off none again = fail Error.storage_manifest_conflict
  back_off (some backoff) again = do run_unit (world.sleep backoff); again

  abbrev pub after_write :
      ManifestRecord
      → List ℕ
      → ℕ
      → Step W (Error S V X) (Unit {0})
      → Result (Error S V X) (List ℕ)
      → Step W (Error S V X) (Unit {0})
  after_write current new_record attempts again (ok new_raw_id) =
      publish_identity current new_record new_raw_id
  after_write current new_record attempts again (err Error.storage_manifest_conflict) =
      back_off (get_elem? manifest_write_backoff attempts) again
  after_write current new_record attempts again (err Error.storage_record_moved) =
      back_off (get_elem? manifest_write_backoff attempts) again
  after_write current new_record attempts again (err Error.storage_record_unknown) =
      fail Error.storage_record_unknown
  after_write current new_record attempts again (err Error.missing_key_error) =
      fail Error.missing_key_error
  after_write current new_record attempts again (err (Error.store_error s)) =
      fail (Error.store_error s)
  after_write current new_record attempts again (err (Error.storage_service_error v)) =
      fail (Error.storage_service_error v)
  after_write current new_record attempts again (err (Error.storage_record_edit x)) =
      fail (Error.storage_record_edit x)

  -- What one pass does with the edited record.
  abbrev pub write_record :
      Handle
      → ManifestRecord
      → StorageRecordIdentity
      → ℕ
      → Step W (Error S V X) (Unit {0})
      → Option (List ℕ)
      → Step W (Error S V X) (Unit {0})
  write_record handle current identity attempts again none = set_needs_storage_sync store key false
  write_record handle current identity attempts again (some new_record) = do
    written ← attempt (
        write_replacing_storage_record world handle current (item_type types key)
          identity.storage_id new_record)
    after_write current new_record attempts again written

  -- A pass that is caught up.
  unfoldable pub publish_record :
      Handle
      → ManifestRecord
      → ℕ
      → Step W (Error S V X) (Unit {0})
      → Step W (Error S V X) (Unit {0})
  publish_record handle current attempts again = do
    identity ← storage_identity store key
    identity ← lift (identity_or_unknown identity)
    new_record ← lift (edit_result (edit identity.record'))
    write_record handle current identity attempts again new_record

  -- `for _ in 0..MAX_PASSES`, with the passes left and the write attempts made
  unfoldable pub update_passes : Handle → ℕ → ℕ → Step W (Error S V X) (Unit {0})
  update_passes handle zero attempts = fail Error.storage_manifest_conflict
  update_passes handle (suc passes) attempts = do
    local_version ← world.fetch_storage_manifest_version
    current ← read_manifest world handle
    if current.version == local_version
        then publish_record handle current attempts (update_passes handle passes (attempts + 1))
        else sync >> update_passes handle passes attempts

  unfoldable pub update_storage_record : Step W (Error S V X) (Unit {0})
  update_storage_record = do
    set_needs_storage_sync store key true
    handle ← storage_service world
    update_passes handle max_passes 0

-- Everything that a run of an update unfolds.
unfoldable pub manifest_runs : Unit {0}
unfolding item_type set_needs_storage_sync storage_identity save_storage_identity publish_identity
    publish_record update_passes update_storage_record storage_service read_manifest
    drop_identifiers insert_identifiers write_manifest_edit write_replacing_storage_record
    append_taken append_attempts append_storage_record
manifest_runs = tt
