-- ===== src/Manifest.antt =====
-- presage/src/manager/storage.rs: the manifest of the storage service, and the writes to it. The service, the
-- local store, the clock and the random bytes are the steps of a `StorageWorld`.
pub mod Update
pub mod Edit
pub mod Server
pub mod Keeps
pub mod Write
pub mod Append
pub mod Counters
pub mod Attempts
pub mod Pending
pub mod Rows
pub mod Published
use presage.Prelude.{
  ℕ, zero, suc, ◌+◌, ◌-◌, ◌%◌, ◌^◌, ◌==◌, leb, List, [], ◌∷◌, ◌++◌, length, retain, any, get_elem?,
  Option, none, some, Bool, true, false, not, if◌then◌else◌, Result, ok, err, ok_or,
}
use presage.Prelude.Steps.{
  Step, run_total, run_unit, done, fail, lift, attempt, continue, ◌>>=◌, ◌>>◌,
}
use presage.Account.{same_bytes}

-- `manifest_record::Identifier`
pub record Identifier : Type 0 where
  pub raw : List ℕ
  pub item_type : ℕ

pub record ManifestRecord : Type 0 where
  pub version : ℕ
  pub source_device : ℕ
  pub identifiers : List Identifier
  pub record_ikm : List ℕ

-- `libsignal_service::StorageServiceError`
pub data ServiceError (V : Type 0) : Type 0 where
  conflict : ServiceError V
  other_failure : V → ServiceError V

-- The variants of `Error` that a write ends in. `X` is the error of an edit.
pub data Error (S V X : Type 0) : Type 0 where
  storage_manifest_conflict storage_record_moved storage_record_unknown : Error S V X
  missing_key_error : Error S V X
  store_error : S → Error S V X
  storage_service_error : ServiceError V → Error S V X
  storage_record_edit : X → Error S V X

abbrev pub manifest_write_attempts : ℕ
manifest_write_attempts = 3

-- In seconds.
abbrev pub manifest_write_backoff : List ℕ
manifest_write_backoff = 1 ∷ 4 ∷ []

-- What the writes call. `Key` is the master key and `Handle` an authenticated handle of the service.
pub record StorageWorld (W S V X Key Handle : Type 0) : Type 0 where
  pub device_id : ℕ
  pub master_key : Step W (Error S V X) (Option Key)
  pub new_service : Key → Step W (Error S V X) Handle
  pub manifest : Handle → Step W (ServiceError V) ManifestRecord
  pub write_items :
      Handle
      → ManifestRecord
      → List (List ℕ × List ℕ)
      → List (List ℕ)
      → Step W (ServiceError V) (Unit {0})
  pub fill_bytes : W → List ℕ × W
  pub sleep : ℕ → W → W
  pub fetch_storage_manifest_version : Step W (Error S V X) ℕ
  pub store_storage_manifest_version : ℕ → Step W (Error S V X) (Unit {0})
  pub notify_storage_manifest_written : W → W

-- `ids.remove(0)`, which panics on an empty list
abbrev pub first_id : List (List ℕ) → List ℕ
first_id [] = []
first_id (id ∷ ids) = id

module _ {S V X : Type 0} where
  -- `match write { Ok(()) => .., Err(Conflict) => Err(StorageManifestConflict), Err(e) => Err(e.into()) }`
  abbrev pub write_outcome :
      {A : Type 0} → Result (ServiceError V) (Unit {0}) → A → Result (Error S V X) A
  write_outcome (ok done') a = ok a
  write_outcome (err ServiceError.conflict) a = err Error.storage_manifest_conflict
  write_outcome (err (ServiceError.other_failure v)) a =
      err (Error.storage_service_error (ServiceError.other_failure v))

  -- `?` on a call of the service
  abbrev pub service_result : {A : Type 0} → Result (ServiceError V) A → Result (Error S V X) A
  service_result (ok a) = ok a
  service_result (err e) = err (Error.storage_service_error e)

  -- The loop over `delete_ids`.
  unfoldable pub drop_identifiers :
      List Identifier → List (List ℕ) → Result (Error S V X) (List Identifier)
  drop_identifiers identifiers [] = ok identifiers
  drop_identifiers identifiers (old ∷ delete_ids) =
      let kept = retain (λ id. not (same_bytes id.raw old)) identifiers in
      let rest = drop_identifiers kept delete_ids in
      if length identifiers - length kept == 1 then rest else err Error.storage_record_moved

module _ {W S V X Key Handle : Type 0} (world : StorageWorld W S V X Key Handle) where
  unfoldable pub storage_service : Step W (Error S V X) Handle
  storage_service = do
    key ← world.master_key
    key ← lift (ok_or key Error.missing_key_error)
    world.new_service key

  unfoldable pub read_manifest : Handle → Step W (Error S V X) ManifestRecord
  read_manifest handle w = (service_result (world.manifest handle w).0, (world.manifest handle w).1)

  -- One pass over `inserts`: the identifiers with the fresh ones pushed, the records to write, and the fresh ids.
  unfoldable pub insert_identifiers :
      List Identifier
      → List (ℕ × List ℕ)
      → List (List ℕ × List ℕ)
      → List (List ℕ)
      → Step W (Error S V X) (List Identifier × List (List ℕ × List ℕ) × List (List ℕ))
  insert_identifiers identifiers [] insert_records new_ids =
      done (identifiers, insert_records, new_ids)
  insert_identifiers identifiers ((item_type, record') ∷ inserts) insert_records new_ids = do
    raw_id ← run_total world.fill_bytes
    if any (λ id. same_bytes id.raw raw_id) identifiers
        then fail Error.storage_manifest_conflict
        else insert_identifiers (identifiers ++ record { raw = raw_id; item_type = item_type } ∷ [])
            inserts (insert_records ++ (raw_id, record') ∷ []) (new_ids ++ raw_id ∷ [])

  abbrev pub next_manifest : ManifestRecord → List Identifier → ManifestRecord
  next_manifest current identifiers = record {
    version = (current.version + 1) % 2 ^ 64;
    source_device = world.device_id;
    identifiers = identifiers;
    record_ikm = current.record_ikm;
  }

  abbrev pub write_edit :
      Handle
      → ManifestRecord
      → List (List ℕ × List ℕ)
      → List (List ℕ)
      → List (List ℕ)
      → Step W (Error S V X) (List (List ℕ))
  write_edit handle new_manifest insert_records delete_ids new_ids w = (
    write_outcome (world.write_items handle new_manifest insert_records delete_ids w).0 new_ids,
    (world.write_items handle new_manifest insert_records delete_ids w).1,
  )

  unfoldable pub write_manifest_edit :
      Handle
      → ManifestRecord
      → List (ℕ × List ℕ)
      → List (List ℕ)
      → Step W (Error S V X) (List (List ℕ))
  write_manifest_edit handle current inserts delete_ids = do
    identifiers ← lift (drop_identifiers current.identifiers delete_ids)
    (identifiers, insert_records, new_ids) ← insert_identifiers identifiers inserts [] []
    if length identifiers == length current.identifiers + length new_ids - length delete_ids
        then write_edit handle (next_manifest current identifiers) insert_records delete_ids new_ids
        else fail Error.storage_manifest_conflict

  unfoldable pub write_replacing_storage_record :
      Handle → ManifestRecord → ℕ → List ℕ → List ℕ → Step W (Error S V X) (List ℕ)
  write_replacing_storage_record handle current item_type old_raw_id new_record = do
    ids ← write_manifest_edit handle current ((item_type, new_record) ∷ []) (old_raw_id ∷ [])
    done (first_id ids)

  abbrev pub appended : ManifestRecord → ℕ → List ℕ → ManifestRecord
  appended current item_type raw_id =
      next_manifest current
        (current.identifiers ++ record { raw = raw_id; item_type = item_type } ∷ [])

  unfoldable pub append_taken : ManifestRecord → List ℕ → Step W (Error S V X) (List ℕ)
  append_taken new_manifest raw_id = do
    world.store_storage_manifest_version new_manifest.version
    run_unit world.notify_storage_manifest_written
    done raw_id

  -- What follows the write of one attempt. `retry` is the attempts that are left.
  abbrev pub after_append :
      ManifestRecord
      → List ℕ
      → Option ℕ
      → Step W (Error S V X) (List ℕ)
      → Result (ServiceError V) (Unit {0})
      → Step W (Error S V X) (List ℕ)
  after_append new_manifest raw_id backoff retry (ok done') = append_taken new_manifest raw_id
  after_append new_manifest raw_id none retry (err ServiceError.conflict) = retry
  after_append new_manifest raw_id (some backoff) retry (err ServiceError.conflict) = do
    run_unit (world.sleep backoff)
    retry
  after_append new_manifest raw_id backoff retry (err (ServiceError.other_failure v)) =
      fail (Error.storage_service_error (ServiceError.other_failure v))

  abbrev pub append_write :
      Handle
      → ℕ
      → List ℕ
      → ManifestRecord
      → List ℕ
      → Option ℕ
      → Step W (Error S V X) (List ℕ)
      → Step W (Error S V X) (List ℕ)
  append_write handle item_type record' current raw_id backoff retry w =
      let (written, w') =
        world.write_items handle (appended current item_type raw_id) ((raw_id, record') ∷ []) []
          w in
      after_append (appended current item_type raw_id) raw_id backoff retry written w'

  -- `for attempt in 1..=MANIFEST_WRITE_ATTEMPTS`, from an attempt on for a number of attempts
  unfoldable pub append_attempts : Handle → ℕ → List ℕ → ℕ → ℕ → Step W (Error S V X) (List ℕ)
  append_attempts handle item_type record' zero attempt' = fail Error.storage_manifest_conflict
  append_attempts handle item_type record' (suc attempts) attempt' = do
    current ← read_manifest handle
    raw_id ← run_total world.fill_bytes
    append_write handle item_type record' current raw_id
        (get_elem? manifest_write_backoff (attempt' - 1))
        (append_attempts handle item_type record' attempts (attempt' + 1))

  unfoldable pub append_storage_record : ℕ → List ℕ → Step W (Error S V X) (List ℕ)
  append_storage_record item_type record' = do
    handle ← storage_service
    append_attempts handle item_type record' manifest_write_attempts 1
