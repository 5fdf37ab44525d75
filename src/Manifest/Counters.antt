-- ===== src/Manifest/Counters.antt =====
-- Counters of the writes and of the syncs of `update_storage_record` of presage/src/manager/storage.rs.
use presage.Prelude.{ℕ, ◌+◌, ◌≤◌, List, Bool}
use presage.Prelude.Steps.{Step}
use presage.Manifest.{ManifestRecord, Error, StorageWorld}
use presage.Manifest.Update.{
  StorageRecordKey, StorageRecordIdentity, IdentityStore, set_needs_storage_sync, storage_identity,
  save_storage_identity,
}

module _ {W : Type 0} (writes syncs : W → ℕ) where
  -- At most so many writes and so many syncs more.
  abbrev pub Within : ℕ → ℕ → W → W → Type 0
  Within a b w w' = (writes w' ≤ writes w + a) × (syncs w' ≤ syncs w + b)

module _ {W S V X Key Handle ContactId : Type 0} (world : StorageWorld W S V X Key Handle)
    (store : IdentityStore W (Error S V X) ContactId) (sync : Step W (Error S V X) (Unit {0}))
    (writes syncs : W → ℕ) where
  -- Two counters of the calls: of `write_items` and of `sync_storage_service`. No other call moves them.
  pub record Counters : Type 0 where
    pub master_key_free : (w : W) → Within writes syncs 0 0 w (world.master_key w).1
    pub new_service_free : (k : Key) (w : W) → Within writes syncs 0 0 w (world.new_service k w).1
    pub manifest_free : (h : Handle) (w : W) → Within writes syncs 0 0 w (world.manifest h w).1
    pub write_once :
        (h : Handle) (m : ManifestRecord) (inserts : List (List ℕ × List ℕ))
        (deletes : List (List ℕ)) (w : W)
        → Within writes syncs 1 0 w (world.write_items h m inserts deletes w).1
    pub fill_bytes_free : (w : W) → Within writes syncs 0 0 w (world.fill_bytes w).1
    pub sleep_free : (n : ℕ) (w : W) → Within writes syncs 0 0 w (world.sleep n w)
    pub fetch_version_free :
        (w : W) → Within writes syncs 0 0 w (world.fetch_storage_manifest_version w).1
    pub store_version_free :
        (n : ℕ) (w : W) → Within writes syncs 0 0 w (world.store_storage_manifest_version n w).1
    pub notify_free : (w : W) → Within writes syncs 0 0 w (world.notify_storage_manifest_written w)
    pub flag_free :
        (key : StorageRecordKey ContactId) (flag : Bool) (w : W)
        → Within writes syncs 0 0 w (set_needs_storage_sync store key flag w).1
    pub identity_free :
        (key : StorageRecordKey ContactId) (w : W)
        → Within writes syncs 0 0 w (storage_identity store key w).1
    pub save_free :
        (key : StorageRecordKey ContactId) (identity : StorageRecordIdentity) (w : W)
        → Within writes syncs 0 0 w (save_storage_identity store key identity w).1
    pub sync_once : (w : W) → Within writes syncs 0 1 w (sync w).1
