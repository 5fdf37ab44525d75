-- ===== src/Manifest/Attempts.antt =====
-- How often `update_storage_record` of presage/src/manager/storage.rs writes and syncs.
use presage.Prelude.{
  ℕ, zero, suc, ◌+◌, ◌-◌, ◌≤◌, ◌%◌, ◌^◌, List, [], ◌∷◌, Option, none, some, get_elem?, true, false,
  Result, ok, err, arith,
}
use presage.Prelude.Steps.{Step, lift, attempt, run_unit, done, fail, ◌>>=◌, >>=-within}
use presage.Manifest.{
  ManifestRecord, Error, StorageWorld, storage_service, read_manifest, manifest_write_backoff,
  insert_identifiers, write_edit, next_manifest, write_manifest_edit,
  write_replacing_storage_record, first_id,
}
use presage.Manifest.Keeps.{if-Keeps, storage_service-Keeps, insert_identifiers-Keeps}
use presage.Manifest.Update.{
  StorageRecordKey, ItemTypes, item_type, StorageRecordIdentity, IdentityStore,
  set_needs_storage_sync, storage_identity, save_storage_identity, max_passes, identity_or_unknown,
  edit_result, publish_identity, back_off, after_write, write_record, publish_record, update_passes,
  update_storage_record,
}
use presage.Manifest.Counters.{Within, Counters}

module _ {W S V X Key Handle ContactId : Type 0} (world : StorageWorld W S V X Key Handle)
    (store : IdentityStore W (Error S V X) ContactId) (sync : Step W (Error S V X) (Unit {0}))
    (writes syncs : W → ℕ) (counted : Counters world store sync writes syncs) where
  -- A call that is not counted, and what follows it.
  free :
      {A B : Type 0} (a b : ℕ) (step : Step W (Error S V X) A) (next : A → Step W (Error S V X) B)
      → ((w : W) → Within writes syncs 0 0 w (step w).1)
      → ((x : A) (w : W) → Within writes syncs a b w (next x w).1)
      → (w : W) → Within writes syncs a b w ((step >>= next) w).1
  free a b step next first rest w =
      >>=-within (Within writes syncs 0 0) (Within writes syncs a b) (Within writes syncs a b)
        (λ x y h. omega arith) (λ x y z h h'. omega arith) step next first rest w

  none_more : (w : W) → Within writes syncs 0 0 w w
  none_more w = omega arith

  Within-more :
      (a b a' b' : ℕ) (w w' : W)
      → a ≤ a'
      → b ≤ b'
      → Within writes syncs a b w w'
      → Within writes syncs a' b' w w'
  Within-more a b a' b' w w' la lb h = omega arith

  trans_free :
      (a b c : W)
      → Within writes syncs 0 0 a b
      → Within writes syncs 0 0 b c
      → Within writes syncs 0 0 a c
  trans_free a b c h h' = omega arith

  read_manifest-free :
      (handle : Handle) (w : W) → Within writes syncs 0 0 w (read_manifest world handle w).1
  unfolding read_manifest
  read_manifest-free handle w = counted.manifest_free handle w

  write_manifest_edit-once :
      (handle : Handle) (current : ManifestRecord) (inserts : List (ℕ × List ℕ))
      (delete_ids : List (List ℕ)) (w : W)
      → Within writes syncs 1 0 w (write_manifest_edit world handle current inserts delete_ids w).1
  unfolding write_manifest_edit
  write_manifest_edit-once handle current inserts delete_ids w =
      free 1 0 (lift _) _ none_more
        (λ kept.
          free 1 0 (insert_identifiers world kept inserts [] []) _
            (insert_identifiers-Keeps world (Within writes syncs 0 0) none_more trans_free
              counted.fill_bytes_free kept inserts [] [])
            (λ parts.
              if-Keeps (Within writes syncs 1 0) _
                (write_edit world handle (next_manifest world current parts.0) parts.1 delete_ids
                  parts.2)
                (fail _) (counted.write_once handle _ parts.1 delete_ids)
                (λ w. Within-more 0 0 1 0 w w (omega arith) (omega arith) (none_more w))))
        w

  write_replacing-once :
      (handle : Handle) (current : ManifestRecord) (kind : ℕ) (old_raw_id new_record : List ℕ)
      (w : W)
      → Within writes syncs 1 0 w
          (write_replacing_storage_record world handle current kind old_raw_id new_record w).1
  unfolding write_replacing_storage_record
  write_replacing-once handle current kind old_raw_id new_record w =
      >>=-within (Within writes syncs 1 0) (Within writes syncs 0 0) (Within writes syncs 1 0)
        (λ x y h. h) (λ x y z h h'. omega arith)
        (write_manifest_edit world handle current ((kind, new_record) ∷ []) (old_raw_id ∷ []))
        (λ ids. done (first_id ids))
        (write_manifest_edit-once handle current ((kind, new_record) ∷ []) (old_raw_id ∷ []))
        (λ ids. none_more) w

  module _ (types : ItemTypes) (key : StorageRecordKey ContactId)
      (edit : List ℕ → Result X (Option (List ℕ))) where
    publish_identity-free :
        (current : ManifestRecord) (new_record new_raw_id : List ℕ) (w : W)
        → Within writes syncs 0 0 w
            (publish_identity world store types sync key edit current new_record new_raw_id w).1
    unfolding publish_identity
    publish_identity-free current new_record new_raw_id w =
        free 0 0 (world.store_storage_manifest_version ((current.version + 1) % 2 ^ 64)) _
          (counted.store_version_free ((current.version + 1) % 2 ^ 64))
          (λ u. free 0 0 (save_storage_identity store key _) _ (counted.save_free key _) (λ u.
            free 0 0 (set_needs_storage_sync store key false) _ (counted.flag_free key false) (λ u.
              free 0 0 (run_unit world.notify_storage_manifest_written) (λ u. done tt)
                counted.notify_free (λ u. none_more))))
          w

    back_off-Within :
        (attempts b : ℕ) (again : Step W (Error S V X) (Unit {0}))
        → (suc attempts ≤ 2 → (w : W) → Within writes syncs (2 - attempts) b w (again w).1)
        → (w : W)
        → Within writes syncs
            (2 - attempts)
            b
            w
            (back_off world store types sync key edit
              (get_elem? manifest_write_backoff attempts)
              again
              w).1
    back_off-Within zero b again h w =
        free 2 b (run_unit (world.sleep 1)) (λ u. again) (counted.sleep_free 1)
          (λ u. h (omega arith)) w
    back_off-Within (suc zero) b again h w =
        free 1 b (run_unit (world.sleep 4)) (λ u. again) (counted.sleep_free 4)
          (λ u. h (omega arith)) w
    back_off-Within (suc (suc attempts)) b again h w =
        Within-more 0 0 _ b w w (omega arith) (omega arith) (none_more w)

    after_write-Within :
        (current : ManifestRecord) (new_record : List ℕ) (attempts b : ℕ)
        (again : Step W (Error S V X) (Unit {0}))
        → (suc attempts ≤ 2 → (w : W) → Within writes syncs (2 - attempts) b w (again w).1)
        → (r : Result (Error S V X) (List ℕ)) (w : W)
        → Within writes syncs
            (2 - attempts)
            b
            w
            (after_write world store types sync key edit current new_record attempts again r w).1
    after_write-Within current new_record attempts b again h (ok raw) w =
        Within-more 0 0 (2 - attempts) b w _ (omega arith) (omega arith)
          (publish_identity-free current new_record raw w)
    after_write-Within current new_record attempts b again h (err Error.storage_manifest_conflict)
          w =
        back_off-Within attempts b again h w
    after_write-Within current new_record attempts b again h (err Error.storage_record_moved) w =
        back_off-Within attempts b again h w
    after_write-Within current new_record attempts b again h (err Error.storage_record_unknown) w =
        Within-more 0 0 (2 - attempts) b w w (omega arith) (omega arith) (none_more w)
    after_write-Within current new_record attempts b again h (err Error.missing_key_error) w =
        Within-more 0 0 (2 - attempts) b w w (omega arith) (omega arith) (none_more w)
    after_write-Within current new_record attempts b again h (err (Error.store_error s)) w =
        Within-more 0 0 (2 - attempts) b w w (omega arith) (omega arith) (none_more w)
    after_write-Within current new_record attempts b again h (err (Error.storage_service_error v))
          w =
        Within-more 0 0 (2 - attempts) b w w (omega arith) (omega arith) (none_more w)
    after_write-Within current new_record attempts b again h (err (Error.storage_record_edit x)) w =
        Within-more 0 0 (2 - attempts) b w w (omega arith) (omega arith) (none_more w)

    write_record-Within :
        (handle : Handle) (current : ManifestRecord) (identity : StorageRecordIdentity)
        (attempts b : ℕ) (again : Step W (Error S V X) (Unit {0}))
        → attempts ≤ 2
        → (suc attempts ≤ 2 → (w : W) → Within writes syncs (2 - attempts) b w (again w).1)
        → (new_record : Option (List ℕ)) (w : W)
        → Within writes syncs
            (3 - attempts)
            b
            w
            (write_record world store types sync key edit handle current identity attempts again
              new_record w).1
    write_record-Within handle current identity attempts b again few h none w =
        Within-more 0 0 (3 - attempts) b w _ (omega arith) (omega arith)
          (counted.flag_free key false w)
    write_record-Within handle current identity attempts b again few h (some new_record) w =
        >>=-within (Within writes syncs 1 0) (Within writes syncs (2 - attempts) b)
          (Within writes syncs (3 - attempts) b) (λ x y h. omega arith) (λ x y z h h'. omega arith)
          (attempt (
            write_replacing_storage_record world handle current (item_type types key)
              identity.storage_id new_record))
          (after_write world store types sync key edit current new_record attempts again)
          (write_replacing-once handle current (item_type types key) identity.storage_id new_record)
          (after_write-Within current new_record attempts b again h) w

    publish_record-Within :
        (handle : Handle) (current : ManifestRecord) (attempts b : ℕ)
        (again : Step W (Error S V X) (Unit {0}))
        → attempts ≤ 2
        → (suc attempts ≤ 2 → (w : W) → Within writes syncs (2 - attempts) b w (again w).1)
        → (w : W)
        → Within writes syncs
            (3 - attempts)
            b
            w
            (publish_record world store types sync key edit handle current attempts again w).1
    unfolding publish_record
    publish_record-Within handle current attempts b again few h w =
        free (3 - attempts) b (storage_identity store key) _ (counted.identity_free key)
          (λ found.
            free (3 - attempts) b (lift (identity_or_unknown found)) _ none_more (λ identity.
              free (3 - attempts) b (lift (edit_result (edit identity.record'))) _ none_more
                (write_record-Within handle current identity attempts b again few h)))
          w

    update_passes-Within :
        (handle : Handle) (passes attempts : ℕ)
        → attempts ≤ 2
        → (w : W)
        → Within writes syncs
            (3 - attempts)
            passes
            w
            (update_passes world store types sync key edit handle passes attempts w).1
    unfolding update_passes
    update_passes-Within handle zero attempts few w =
        Within-more 0 0 (3 - attempts) 0 w w (omega arith) (omega arith) (none_more w)
    update_passes-Within handle (suc passes) attempts few w =
        let again = update_passes-Within handle passes in
        free (3 - attempts) (suc passes) world.fetch_storage_manifest_version _
          counted.fetch_version_free
          (λ local_version.
            free (3 - attempts) (suc passes) (read_manifest world handle) _
              (read_manifest-free handle)
              (λ current.
                if-Keeps (Within writes syncs (3 - attempts) (suc passes)) _
                  (publish_record world store types sync key edit handle current attempts
                    (update_passes world store types sync key edit handle passes (attempts + 1)))
                  (sync >>= λ u.
                    update_passes world store types sync key edit handle passes attempts)
                  (publish_record-Within handle current attempts (suc passes) _ few (λ more w.
                    Within-more (3 - (attempts + 1)) passes (2 - attempts) (suc passes) w _
                      (omega arith) (omega arith) (again (attempts + 1) (omega arith) w)))
                  (>>=-within (Within writes syncs 0 1) (Within writes syncs (3 - attempts) passes)
                    (Within writes syncs (3 - attempts) (suc passes)) (λ x y h. omega arith)
                    (λ x y z h h'. omega arith) sync _ counted.sync_once
                    (λ u. again attempts few))))
          w

    -- An update calls `write_items` at most three times and `sync_storage_service` at most six times, however the
    -- server answers and whatever other devices write in between.
    pub update_storage_record-Within :
        (w : W)
        → Within writes syncs 3 6 w (update_storage_record world store types sync key edit w).1
    unfolding update_storage_record
    update_storage_record-Within w =
        free 3 6 (set_needs_storage_sync store key true) _ (counted.flag_free key true)
          (λ u.
            free 3 6 (storage_service world) _
              (storage_service-Keeps world (Within writes syncs 0 0) none_more trans_free
                counted.master_key_free counted.new_service_free)
              (λ handle. update_passes-Within handle max_passes 0 (omega arith)))
          w
