-- ===== src/Manifest/Append.antt =====
-- `append_storage_record` of presage/src/manager/storage.rs.
use presage.Prelude.{
  ℕ, zero, suc, ◌+◌, ◌-◌, List, [], ◌∷◌, ◌++◌, Option, none, some, get_elem?, Result, ok, err,
  ok_same, ◌≡◌, refl, sym, subst, arith,
}
use presage.Prelude.Steps.{Step, >>=-ends_ok}
use presage.Manifest.{
  ManifestRecord, ServiceError, Error, StorageWorld, storage_service, read_manifest, service_result,
  after_append, append_taken, append_attempts, append_storage_record, appended,
  manifest_write_backoff, manifest_write_attempts,
}
use presage.Manifest.Edit.{with_record}
use presage.Manifest.Server.{
  Later, Later-refl, Later-trans, Accepted, Applied, Applied-earlier, Applied-Later, WasHeld,
  WasHeld-Later, ServiceLaws,
}
use presage.Manifest.Keeps.{storage_service-Keeps}
use presage.Manifest.Write.{next_manifest-Applied}

module _ {W S V X Key Handle : Type 0} (world : StorageWorld W S V X Key Handle)
    (held : W → ManifestRecord) (laws : ServiceLaws world held) where
  -- A call of the service that ends well, as the code calls it.
  pub service_result-ok :
      {A : Type 0} (r : Result (ServiceError V) A) {a : A}
      → service_result {S = S} {V = V} {X = X} r ≡ ok a
      → r ≡ ok a
  service_result-ok (ok a) h = ground arith
  service_result-ok (err e) h = cc

  pub read_manifest-WasHeld :
      (handle : Handle) (w : W) {m : ManifestRecord}
      → (read_manifest world handle w).0 ≡ ok m
      → WasHeld held m (read_manifest world handle w).1
  unfolding read_manifest
  read_manifest-WasHeld handle w h =
      laws.manifest_read handle w (service_result-ok (world.manifest handle w).0 h)

  pub read_manifest-Later :
      (handle : Handle) (w : W) → Later held w (read_manifest world handle w).1
  unfolding read_manifest
  read_manifest-Later handle w = laws.manifest_later handle w

  -- A step that ends well has appended the record under the identifier that it returns.
  abbrev Appends : ℕ → Step W (Error S V X) (List ℕ) → Type 0
  Appends item_type step =
      (w : W) (raw : List ℕ)
      → (step w).0 ≡ ok raw
      → Applied held (with_record world.device_id item_type raw) w (step w).1

  append_taken-Later :
      (m : ManifestRecord) (raw_id : List ℕ) (w : W) {raw : List ℕ}
      → (append_taken world m raw_id w).0 ≡ ok raw
      → (raw ≡ raw_id) × Later held w (append_taken world m raw_id w).1
  unfolding append_taken
  append_taken-Later m raw_id w h =
      let stored = laws.store_version_later m.version w in
      let (u, e, h1, w1) = >>=-ends_ok (world.store_storage_manifest_version m.version) _ w h in
      let notified = laws.notify_later (world.store_storage_manifest_version m.version w).1 in
      (sym (ok_same refl h1), rw w1 (Later-trans held stored notified))

  -- One attempt, from the result of its write on.
  after_append-Applied :
      (item_type : ℕ) (current : ManifestRecord) (raw_id : List ℕ) (backoff : Option ℕ)
      (retry : Step W (Error S V X) (List ℕ)) (w w1 : W) (r : Result (ServiceError V) (Unit {0}))
      {raw : List ℕ}
      → Later held w w1
      → WasHeld held current w
      → (r ≡ ok tt → Accepted held (appended world current item_type raw_id) w w1)
      → Appends item_type retry
      → (after_append world (appended world current item_type raw_id) raw_id backoff retry r w1).0
        ≡ ok raw
      → Applied held
          (with_record world.device_id item_type raw)
          w
          (after_append world (appended world current item_type raw_id) raw_id backoff retry r w1).1
  after_append-Applied item_type current raw_id backoff retry w w1 (ok u) {raw} l was taken again
        h =
      let (same, later) =
        append_taken-Later (appended world current item_type raw_id) raw_id w1 h in
      Applied-Later held
        (next_manifest-Applied world held laws current
          (current.identifiers ++ record { raw = raw_id; item_type = item_type } ∷ [])
          (with_record world.device_id item_type raw) was (taken refl) (rw same refl))
        later
  after_append-Applied item_type current raw_id none retry w w1 (err ServiceError.conflict) l was
        taken again h =
      Applied-earlier held l (again w1 _ h)
  after_append-Applied item_type current raw_id (some b) retry w w1 (err ServiceError.conflict) l
        was taken again h =
      Applied-earlier held (Later-trans held l (laws.sleep_later b w1))
        (again (world.sleep b w1) _ h)
  after_append-Applied item_type current raw_id backoff retry w w1
        (err (ServiceError.other_failure v)) l was taken again h =
      cc

  append_attempts-Applied :
      (handle : Handle) (item_type : ℕ) (record' : List ℕ) (attempts attempt' : ℕ)
      → Appends item_type (append_attempts world handle item_type record' attempts attempt')
  unfolding append_attempts
  append_attempts-Applied handle item_type record' zero attempt' w raw h = cc
  append_attempts-Applied handle item_type record' (suc attempts) attempt' w raw h =
      let (current, read, h1, w1) = >>=-ends_ok (read_manifest world handle) _ w h in
      let wr = (read_manifest world handle w).1 in
      let raw_id = (world.fill_bytes wr).0 in
      let wf = (world.fill_bytes wr).1 in
      let to_fill = Later-trans held (read_manifest-Later handle w) (laws.fill_bytes_later wr) in
      let m = appended world current item_type raw_id in
      let inserts = (raw_id, record') ∷ [] in
      let applied =
        after_append-Applied item_type current raw_id
          (get_elem? manifest_write_backoff (attempt' - 1))
          (append_attempts world handle item_type record' attempts (attempt' + 1)) wf
          (world.write_items handle m inserts [] wf).1 (world.write_items handle m inserts [] wf).0
          (laws.write_later handle m inserts [] wf)
          (WasHeld-Later held (read_manifest-WasHeld handle w read) (laws.fill_bytes_later wr))
          (λ e. laws.write_taken handle m inserts [] wf e)
          (append_attempts-Applied handle item_type record' attempts (attempt' + 1)) h1 in
      subst (λ w'. Applied held (with_record world.device_id item_type raw) w w') (sym w1)
        (Applied-earlier held to_fill applied)

  -- When an append ends well there was a moment at which the server's manifest changed from what it then was to
  -- that with the one identifier after the others, the next version and the same key material, whatever
  -- other devices wrote before and after, and however many attempts it took.
  pub append_storage_record-Applied :
      (item_type : ℕ) (record' raw : List ℕ) (w : W)
      → (append_storage_record world item_type record' w).0 ≡ ok raw
      → Applied held
          (with_record world.device_id item_type raw)
          w
          (append_storage_record world item_type record' w).1
  unfolding append_storage_record
  append_storage_record-Applied item_type record' raw w h =
      let (handle, e, h1, w1) = >>=-ends_ok (storage_service world) _ w h in
      subst (λ w'. Applied held (with_record world.device_id item_type raw) w w') (sym w1)
        (Applied-earlier held
          (storage_service-Keeps world (Later held) (Later-refl held) (λ a b c. Later-trans held)
            laws.master_key_later laws.new_service_later w)
          (append_attempts-Applied handle item_type record' manifest_write_attempts 1 _ raw h1))
