-- ===== src/Manifest/Pending.antt =====
-- What `update_storage_record` of presage/src/manager/storage.rs leaves when it fails: the record is still marked
-- as needing a sync.
use presage.Prelude.{
  ℕ, zero, suc, ◌+◌, ◌%◌, ◌^◌, List, Option, none, some, get_elem?, Bool, true, false,
  if◌then◌else◌, Result, ok, err, Result-cases, ◌≡◌, arith, inl, inr,
}
use presage.Prelude.Steps.{Step, lift, attempt, run_unit, done, ◌>>=◌, ◌>>◌}
use presage.Manifest.{
  ManifestRecord, Error, StorageWorld, storage_service, read_manifest, manifest_write_backoff,
  write_replacing_storage_record,
}
use presage.Manifest.Keeps.{Keeps, storage_service-Keeps, write_replacing-Keeps}
use presage.Manifest.Update.{
  StorageRecordKey, ItemTypes, item_type, StorageRecordIdentity, IdentityStore,
  set_needs_storage_sync, storage_identity, save_storage_identity, max_passes, identity_or_unknown,
  edit_result, publish_identity, back_off, after_write, write_record, publish_record, update_passes,
  update_storage_record,
}

-- A step that fails leaves what held before it.
abbrev pub FailsSafe : {W E A : Type 0} → (W → Type 0) → Step W E A → Type 0
FailsSafe {W = W} {E = E} P step = (w : W) → P w → (e : E) → (step w).0 ≡ err e → P (step w).1

abbrev pub Preserves : {W : Type 0} → (W → Type 0) → W → W → Type 0
Preserves P w w' = P w → P w'

module _ {W E : Type 0} (P : W → Type 0) where
  FailsSafe-after :
      {A B : Type 0} (step : Step W E A) (next : A → Step W E B)
      → Keeps (Preserves P) step
      → ((a : A) → FailsSafe P (next a))
      → FailsSafe P (step >>= next)
  FailsSafe-after step next kept rest w p e h = elim (Result-cases (step w).0) [
    | inl (a, done') ↦
        let failed = rw done' at h in rw done' (rest a (step w).1 (kept w p) e failed)
    | inr (x, failed) ↦ rw failed (kept w p)
  ]

  FailsSafe-of : {A : Type 0} (step : Step W E A) → Keeps (Preserves P) step → FailsSafe P step
  FailsSafe-of step kept w p e h = kept w p

  FailsSafe-if :
      {A : Type 0} (c : Bool) (x y : Step W E A)
      → FailsSafe P x
      → FailsSafe P y
      → FailsSafe P (if c then x else y)
  FailsSafe-if true x y hx hy w p e h = hx w p e h
  FailsSafe-if false x y hx hy w p e h = hy w p e h

module _ {W S V X Key Handle ContactId : Type 0} (world : StorageWorld W S V X Key Handle)
    (store : IdentityStore W (Error S V X) ContactId) (key : StorageRecordKey ContactId)
    (Flagged : W → Type 0) where
  -- Raising the mark of the record raises it, lowering it can fail only with the mark still up, and no other call
  -- takes it down.
  pub record KeepsFlag : Type 0 where
    pub raised :
        (w : W)
        → (set_needs_storage_sync store key true w).0 ≡ ok tt
        → Flagged (set_needs_storage_sync store key true w).1
    pub not_lowered : FailsSafe Flagged (set_needs_storage_sync store key false)
    pub master_key_keeps : Keeps (Preserves Flagged) world.master_key
    pub new_service_keeps : (k : Key) → Keeps (Preserves Flagged) (world.new_service k)
    pub manifest_keeps : (h : Handle) → Keeps (Preserves Flagged) (world.manifest h)
    pub write_keeps :
        (h : Handle) (m : ManifestRecord) (inserts : List (List ℕ × List ℕ))
        (deletes : List (List ℕ))
        → Keeps (Preserves Flagged) (world.write_items h m inserts deletes)
    pub fill_bytes_keeps : (w : W) → Flagged w → Flagged (world.fill_bytes w).1
    pub sleep_keeps : (n : ℕ) (w : W) → Flagged w → Flagged (world.sleep n w)
    pub fetch_version_keeps : Keeps (Preserves Flagged) world.fetch_storage_manifest_version
    pub store_version_keeps :
        (n : ℕ) → Keeps (Preserves Flagged) (world.store_storage_manifest_version n)
    pub identity_keeps : Keeps (Preserves Flagged) (storage_identity store key)
    pub save_keeps :
        (identity : StorageRecordIdentity)
        → Keeps (Preserves Flagged) (save_storage_identity store key identity)

module _ {W S V X Key Handle ContactId : Type 0} (world : StorageWorld W S V X Key Handle)
    (store : IdentityStore W (Error S V X) ContactId) (types : ItemTypes)
    (sync : Step W (Error S V X) (Unit {0})) (key : StorageRecordKey ContactId)
    (edit : List ℕ → Result X (Option (List ℕ))) (Flagged : W → Type 0)
    (keeps : KeepsFlag world store key Flagged) (sync_keeps : Keeps (Preserves Flagged) sync) where
  -- After the mark is taken down nothing fails.
  lowered_last : FailsSafe Flagged (do
    set_needs_storage_sync store key false
    run_unit world.notify_storage_manifest_written
    done tt)
  lowered_last w p e h = elim (Result-cases (set_needs_storage_sync store key false w).0) [
    | inl (u, lowered) ↦ absurd (let bad = rw lowered at h in ground arith)
    | inr (x, failed) ↦ rw failed (keeps.not_lowered w p x failed)
  ]

  publish_identity-FailsSafe :
      (current : ManifestRecord) (new_record new_raw_id : List ℕ)
      → FailsSafe Flagged
          (publish_identity world store types sync key edit current new_record new_raw_id)
  unfolding publish_identity
  publish_identity-FailsSafe current new_record new_raw_id =
      FailsSafe-after Flagged
        (world.store_storage_manifest_version ((current.version + 1) % 2 ^ 64)) _
        (keeps.store_version_keeps ((current.version + 1) % 2 ^ 64))
        (λ u.
          FailsSafe-after Flagged (save_storage_identity store key _) _ (keeps.save_keeps _)
            (λ u. lowered_last))

  back_off-FailsSafe :
      (backoff : Option ℕ) (again : Step W (Error S V X) (Unit {0}))
      → FailsSafe Flagged again
      → FailsSafe Flagged (back_off world store types sync key edit backoff again)
  back_off-FailsSafe none again h = λ w p e failed. p
  back_off-FailsSafe (some b) again h =
      FailsSafe-after Flagged (run_unit (world.sleep b)) (λ u. again) (keeps.sleep_keeps b) (λ u. h)

  after_write-FailsSafe :
      (current : ManifestRecord) (new_record : List ℕ) (attempts : ℕ)
      (again : Step W (Error S V X) (Unit {0}))
      → FailsSafe Flagged again
      → (r : Result (Error S V X) (List ℕ))
      → FailsSafe Flagged
          (after_write world store types sync key edit current new_record attempts again r)
  after_write-FailsSafe current new_record attempts again h (ok raw) =
      publish_identity-FailsSafe current new_record raw
  after_write-FailsSafe current new_record attempts again h (err Error.storage_manifest_conflict) =
      back_off-FailsSafe (get_elem? manifest_write_backoff attempts) again h
  after_write-FailsSafe current new_record attempts again h (err Error.storage_record_moved) =
      back_off-FailsSafe (get_elem? manifest_write_backoff attempts) again h
  after_write-FailsSafe current new_record attempts again h (err Error.storage_record_unknown) =
      λ w p e failed. p
  after_write-FailsSafe current new_record attempts again h (err Error.missing_key_error) =
      λ w p e failed. p
  after_write-FailsSafe current new_record attempts again h (err (Error.store_error s)) =
      λ w p e failed. p
  after_write-FailsSafe current new_record attempts again h (err (Error.storage_service_error v)) =
      λ w p e failed. p
  after_write-FailsSafe current new_record attempts again h (err (Error.storage_record_edit x)) =
      λ w p e failed. p

  write_record-FailsSafe :
      (handle : Handle) (current : ManifestRecord) (identity : StorageRecordIdentity) (attempts : ℕ)
      (again : Step W (Error S V X) (Unit {0}))
      → FailsSafe Flagged again
      → (new_record : Option (List ℕ))
      → FailsSafe Flagged (
          write_record world store types sync key edit handle current identity attempts again
            new_record)
  write_record-FailsSafe handle current identity attempts again h none = keeps.not_lowered
  write_record-FailsSafe handle current identity attempts again h (some new_record) =
      FailsSafe-after Flagged
        (attempt (
          write_replacing_storage_record world handle current (item_type types key)
            identity.storage_id new_record))
        (after_write world store types sync key edit current new_record attempts again)
        (write_replacing-Keeps world (Preserves Flagged) (λ w p. p) (λ a b c f g p. g (f p))
          keeps.fill_bytes_keeps handle current (item_type types key) identity.storage_id new_record
          (keeps.write_keeps handle))
        (after_write-FailsSafe current new_record attempts again h)

  update_passes-FailsSafe :
      (handle : Handle) (passes attempts : ℕ)
      → FailsSafe Flagged (update_passes world store types sync key edit handle passes attempts)
  unfolding update_passes publish_record read_manifest
  update_passes-FailsSafe handle zero attempts = λ w p e failed. p
  update_passes-FailsSafe handle (suc passes) attempts =
      FailsSafe-after Flagged world.fetch_storage_manifest_version _ keeps.fetch_version_keeps
        (λ local_version.
          FailsSafe-after Flagged (read_manifest world handle) _ (keeps.manifest_keeps handle)
            (λ current.
              FailsSafe-if Flagged _ _ _
                (FailsSafe-after Flagged (storage_identity store key) _ keeps.identity_keeps
                  (λ found.
                    FailsSafe-after Flagged (lift (identity_or_unknown found)) _ (λ w p. p)
                      (λ identity.
                        FailsSafe-after Flagged (lift (edit_result (edit identity.record'))) _
                          (λ w p. p)
                          (write_record-FailsSafe handle current identity attempts _
                            (update_passes-FailsSafe handle passes (attempts + 1))))))
                (FailsSafe-after Flagged sync _ sync_keeps
                  (λ u. update_passes-FailsSafe handle passes attempts))))

  -- The mark of a record after an update that fails, for a sync that leaves marks up.
  pub update_storage_record-flagged :
      (w : W) (e : Error S V X)
      → (set_needs_storage_sync store key true w).0 ≡ ok tt
      → (update_storage_record world store types sync key edit w).0 ≡ err e
      → Flagged (update_storage_record world store types sync key edit w).1
  unfolding update_storage_record
  update_storage_record-flagged w e marked failed =
      let rest =
        FailsSafe-after Flagged (storage_service world) _
          (storage_service-Keeps world (Preserves Flagged) (λ w p. p) (λ a b c f g p. g (f p))
            keeps.master_key_keeps keeps.new_service_keeps)
          (λ handle. update_passes-FailsSafe handle max_passes 0)
          (set_needs_storage_sync store key true w).1 (keeps.raised w marked) e in
      let failed' = rw marked at failed in rw marked (rest failed')
