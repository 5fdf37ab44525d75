-- ===== src/Manifest/Published.antt =====
-- What `update_storage_record` of presage/src/manager/storage.rs leaves when it ends well: the server and the local
-- rows agree on the record.
use presage.Prelude.{
  ℕ, zero, suc, ◌+◌, ◌==◌, List, [], ◌∷◌, Option, none, some, get_elem?, length, Bool, true, false,
  if◌then◌else◌, Result, ok, err, ok_same, ◌≡◌, ◌⊎◌, refl, sym, ap, ◌∙◌, subst, arith, inl, inr,
}
use presage.Prelude.Steps.{Step, lift, run_unit, ◌>>◌, >>=-ends_ok}
use presage.Manifest.{
  ManifestRecord, Error, StorageWorld, storage_service, read_manifest, first_id,
  manifest_write_backoff, write_manifest_edit, write_replacing_storage_record,
}
use presage.Manifest.Server.{
  Later, Later-refl, Later-trans, Applied-Later, WasHeld, WasHeld-Later, ServiceLaws,
}
use presage.Manifest.Keeps.{storage_service-Keeps, write_replacing-Keeps}
use presage.Manifest.Edit.{edited, fresh_records}
use presage.Manifest.Write.{Taken, write_manifest_edit-Taken}
use presage.Manifest.Append.{read_manifest-WasHeld, read_manifest-Later}
use presage.Manifest.Rows.{
  Rows, HoldsOne, RowLaws, Unchanged, Published, publish_identity-Settled, Publishes,
  outcome_earlier, Publishes-after,
}
use presage.Manifest.Update.{
  StorageRecordKey, ItemTypes, item_type, StorageRecordIdentity, IdentityStore,
  set_needs_storage_sync, storage_identity, max_passes, identity_or_unknown, edit_result, back_off,
  after_write, write_record, publish_record, update_passes, update_storage_record,
}

module _ {W S V X Key Handle ContactId : Type 0} (world : StorageWorld W S V X Key Handle)
    (store : IdentityStore W (Error S V X) ContactId) (types : ItemTypes)
    (sync : Step W (Error S V X) (Unit {0})) (key : StorageRecordKey ContactId)
    (edit : List ℕ → Result X (Option (List ℕ))) (held : W → ManifestRecord)
    (rows : Rows world store held sync key) (service : ServiceLaws world held)
    (laws : RowLaws world store held sync key rows) where
  back_off-Publishes :
      (backoff : Option ℕ) (again : Step W (Error S V X) (Unit {0}))
      → Publishes world store types sync key edit held rows service laws again
      → Publishes world store types sync key edit held rows service laws
          (back_off world store types sync key edit backoff again)
  back_off-Publishes none again h = λ w done'. cc
  back_off-Publishes (some b) again h =
      Publishes-after world store types sync key edit held rows service laws
        (run_unit (world.sleep b)) (λ u. again) (service.sleep_later b) (λ u. h)

  -- The change that the write of a record is.
  abbrev replacement : List ℕ → List ℕ → List ℕ → ManifestRecord → ManifestRecord
  replacement old_id new_record new_id =
      edited world.device_id ((item_type types key, new_record) ∷ []) (old_id ∷ []) (new_id ∷ [])

  one_id :
      (ids : List (List ℕ)) (new_id : List ℕ)
      → length ids ≡ 1
      → new_id ≡ first_id ids
      → ids ≡ new_id ∷ []
  one_id [] new_id one e = absurd (omega arith)
  one_id (id ∷ []) new_id one e = ap (λ x. x ∷ []) (sym e)
  one_id (id ∷ other ∷ ids) new_id one e = absurd (omega arith)

  abbrev Holds : List (List ℕ × List ℕ) → W → Type 0
  Holds = HoldsOne world store held sync key rows

  abbrev Replaced : ManifestRecord → List ℕ → List ℕ → List ℕ → W → W → Type 0
  Replaced current old_id new_record new_id w w' =
      Taken world held service Holds laws.record_written current
        (replacement old_id new_record new_id) ((new_id, new_record) ∷ []) w w'

  write_replacing-Replaced :
      (handle : Handle) (current : ManifestRecord) (old_id new_record new_id : List ℕ) (w : W)
      → WasHeld held current w
      → (write_replacing_storage_record world handle current
          (item_type types key)
          old_id
          new_record
          w).0
        ≡ ok new_id
      → Replaced current old_id new_record new_id w
          (write_replacing_storage_record world handle current
            (item_type types key)
            old_id
            new_record
            w).1
  unfolding write_replacing_storage_record
  write_replacing-Replaced handle current old_id new_record new_id w was h =
      let inserts = (item_type types key, new_record) ∷ [] in
      let (ids, e, h1, w1) =
        >>=-ends_ok (write_manifest_edit world handle current inserts (old_id ∷ [])) _ w h in
      let (once, taken, as_many) =
        write_manifest_edit-Taken world held service Holds laws.record_written handle current
          inserts (old_id ∷ []) ids w was e in
      let ids_are = one_id ids new_id as_many (ok_same h1 refl) in
      subst (λ w'. Replaced current old_id new_record new_id w w') (sym w1)
        (subst
          (λ xs.
            Taken world held service Holds laws.record_written current
              (edited world.device_id inserts (old_id ∷ []) xs) (fresh_records inserts xs) w
              (write_manifest_edit world handle current inserts (old_id ∷ []) w).1)
          ids_are taken)

  after_write-outcome :
      (current : ManifestRecord) (found : StorageRecordIdentity) (new_record : List ℕ)
      (attempts : ℕ) (again : Step W (Error S V X) (Unit {0})) (w w1 : W)
      (r : Result (Error S V X) (List ℕ))
      → Later held w w1
      → rows.identity_of w ≡ some found
      → edit found.record' ≡ ok (some new_record)
      → ((new_id : List ℕ)
          → r ≡ ok new_id
          → Replaced current found.storage_id new_record new_id w w1)
      → Publishes world store types sync key edit held rows service laws again
      → (after_write world store types sync key edit current new_record attempts again r w1).0
        ≡ ok tt
      → Unchanged world store types sync key edit held rows w
          (after_write world store types sync key edit current new_record attempts again r w1).1
        ⊎ Published world store types sync key edit held rows w
            (after_write world store types sync key edit current new_record attempts again r w1).1
  after_write-outcome current found new_record attempts again w w1 (ok new_id) l stored to taken h
        done' =
      let settled =
        publish_identity-Settled world store types sync key edit held rows service laws current
          new_record new_id w1 done' in
      let write = taken new_id refl in
      inr (record {
        found = found;
        moment = w;
        at_moment = Later-refl held w;
        stored = stored;
        new_record = new_record;
        new_id = new_id;
        edited_to = to;
        replaced = Applied-Later held write.applied settled.settled_later;
        holds = write.holds;
        at_version = settled.settled_version ∙ sym write.at_version;
        rows_say = settled.settled_rows;
        lowered = settled.settled_flag;
      })
  after_write-outcome current found new_record attempts again w w1
        (err Error.storage_manifest_conflict) l stored to taken h done' =
      outcome_earlier world store types sync key edit held rows service laws w w1 _ l
        (back_off-Publishes (get_elem? manifest_write_backoff attempts) again h w1 done')
  after_write-outcome current found new_record attempts again w w1 (err Error.storage_record_moved)
        l stored to taken h done' =
      outcome_earlier world store types sync key edit held rows service laws w w1 _ l
        (back_off-Publishes (get_elem? manifest_write_backoff attempts) again h w1 done')
  after_write-outcome current found new_record attempts again w w1
        (err Error.storage_record_unknown) l stored to taken h done' =
      cc
  after_write-outcome current found new_record attempts again w w1 (err Error.missing_key_error) l
        stored to taken h done' =
      cc
  after_write-outcome current found new_record attempts again w w1 (err (Error.store_error s)) l
        stored to taken h done' =
      cc
  after_write-outcome current found new_record attempts again w w1
        (err (Error.storage_service_error v)) l stored to taken h done' =
      cc
  after_write-outcome current found new_record attempts again w w1
        (err (Error.storage_record_edit x)) l stored to taken h done' =
      cc

  write_record-outcome :
      (handle : Handle) (current : ManifestRecord) (found : StorageRecordIdentity) (attempts : ℕ)
      (again : Step W (Error S V X) (Unit {0})) (new_record : Option (List ℕ)) (w : W)
      → WasHeld held current w
      → rows.identity_of w ≡ some found
      → edit found.record' ≡ ok new_record
      → Publishes world store types sync key edit held rows service laws again
      → (write_record world store types sync key edit handle current found attempts again new_record
          w).0
        ≡ ok tt
      → Unchanged world store types sync key edit held rows w
          (write_record world store types sync key edit handle current found attempts again
            new_record w).1
        ⊎ Published world store types sync key edit held rows w
            (write_record world store types sync key edit handle current found attempts again
              new_record w).1
  write_record-outcome handle current found attempts again none w was stored to h done' =
      let (flag_is, identity_is, version_is) = laws.flag_set false w done' in
      inl (record {
        found = found;
        moment = w;
        at_moment = Later-refl held w;
        stored = stored;
        nothing_to_do = to;
        rows_say = identity_is ∙ stored;
        lowered = flag_is;
      })
  write_record-outcome handle current found attempts again (some new_record) w was stored to h
        done' =
      let write =
        write_replacing_storage_record world handle current (item_type types key) found.storage_id
          new_record in
      after_write-outcome current found new_record attempts again w (write w).1 (write w).0
        (write_replacing-Keeps world (Later held) (Later-refl held) (λ a b c. Later-trans held)
          service.fill_bytes_later handle current (item_type types key) found.storage_id new_record
          (service.write_later handle) w)
        stored to
        (λ new_id e.
          write_replacing-Replaced handle current found.storage_id new_record new_id w was e)
        h done'

  identity_or_unknown-ok :
      (o : Option StorageRecordIdentity) {found : StorageRecordIdentity}
      → identity_or_unknown {S = S} {V = V} {X = X} o ≡ ok found
      → o ≡ some found
  identity_or_unknown-ok none h = cc
  identity_or_unknown-ok (some i) h = ground arith

  edit_result-ok :
      {A : Type 0} (r : Result X A) {a : A}
      → edit_result {S = S} {V = V} {X = X} r ≡ ok a
      → r ≡ ok a
  edit_result-ok (ok a) h = ground arith
  edit_result-ok (err e) h = cc

  publish_record-outcome :
      (handle : Handle) (current : ManifestRecord) (attempts : ℕ)
      (again : Step W (Error S V X) (Unit {0})) (w : W)
      → WasHeld held current w
      → Publishes world store types sync key edit held rows service laws again
      → (publish_record world store types sync key edit handle current attempts again w).0 ≡ ok tt
      → Unchanged world store types sync key edit held rows w
          (publish_record world store types sync key edit handle current attempts again w).1
        ⊎ Published world store types sync key edit held rows w
            (publish_record world store types sync key edit handle current attempts again w).1
  unfolding publish_record
  publish_record-outcome handle current attempts again w was h done' =
      let (o, e1, h1, w1) = >>=-ends_ok (storage_identity store key) _ w done' in
      let later = laws.identity_later w in
      let wi = (storage_identity store key w).1 in
      let (found, e2, h2, w2) = >>=-ends_ok (lift (identity_or_unknown o)) _ wi h1 in
      let (new_record, e3, h3, w3) =
        >>=-ends_ok (lift (edit_result (edit found.record'))) _ wi h2 in
      subst
        (λ w'.
          Unchanged world store types sync key edit held rows w w'
          ⊎ Published world store types sync key edit held rows w w')
        (sym (w1 ∙ w2 ∙ w3))
        (outcome_earlier world store types sync key edit held rows service laws w wi _ later (
          write_record-outcome handle current found attempts again new_record wi
            (WasHeld-Later held was later) (laws.identity_read w e1 ∙ identity_or_unknown-ok o e2)
            (edit_result-ok _ e3) h h3))

  -- One pass, from the manifest that it read on.
  pass-outcome :
      (handle : Handle) (current : ManifestRecord) (caught_up : Bool) (attempts : ℕ)
      (after_conflict after_sync : Step W (Error S V X) (Unit {0})) (w : W)
      → WasHeld held current w
      → Publishes world store types sync key edit held rows service laws after_conflict
      → Publishes world store types sync key edit held rows service laws after_sync
      → ((if caught_up
            then publish_record world store types sync key edit handle current attempts
                after_conflict
            else sync >> after_sync)
          w).0
        ≡ ok tt
      → Unchanged world store types sync key edit held rows w
          ((if caught_up
              then publish_record world store types sync key edit handle current attempts
                  after_conflict
              else sync >> after_sync)
            w).1
        ⊎ Published world store types sync key edit held rows w
            ((if caught_up
                then publish_record world store types sync key edit handle current attempts
                    after_conflict
                else sync >> after_sync)
              w).1
  pass-outcome handle current true attempts after_conflict after_sync w was h h' done' =
      publish_record-outcome handle current attempts after_conflict w was h done'
  pass-outcome handle current false attempts after_conflict after_sync w was h h' done' =
      Publishes-after world store types sync key edit held rows service laws sync (λ u. after_sync)
        laws.sync_later (λ u. h') w done'

  update_passes-Publishes :
      (handle : Handle) (passes attempts : ℕ)
      → Publishes world store types sync key edit held rows service laws
          (update_passes world store types sync key edit handle passes attempts)
  unfolding update_passes
  update_passes-Publishes handle zero attempts w h = cc
  update_passes-Publishes handle (suc passes) attempts w h =
      let (local_version, e1, h1, w1) = >>=-ends_ok world.fetch_storage_manifest_version _ w h in
      let wl = (world.fetch_storage_manifest_version w).1 in
      let (current, e2, h2, w2) = >>=-ends_ok (read_manifest world handle) _ wl h1 in
      let wm = (read_manifest world handle wl).1 in
      subst
        (λ w'.
          Unchanged world store types sync key edit held rows w w'
          ⊎ Published world store types sync key edit held rows w w')
        (sym (w1 ∙ w2))
        (outcome_earlier world store types sync key edit held rows service laws w wm _
          (Later-trans held (service.fetch_version_later w)
            (read_manifest-Later world held service handle wl))
          (pass-outcome handle current (current.version == local_version) attempts _ _ wm
            (read_manifest-WasHeld world held service handle wl e2)
            (update_passes-Publishes handle passes (attempts + 1))
            (update_passes-Publishes handle passes attempts) h2))

  pub update_storage_record-outcome :
      (w : W)
      → (update_storage_record world store types sync key edit w).0 ≡ ok tt
      → Unchanged world store types sync key edit held rows w
          (update_storage_record world store types sync key edit w).1
        ⊎ Published world store types sync key edit held rows w
            (update_storage_record world store types sync key edit w).1
  unfolding update_storage_record
  update_storage_record-outcome =
      Publishes-after world store types sync key edit held rows service laws
        (set_needs_storage_sync store key true) _ (laws.flag_later true)
        (λ u.
          Publishes-after world store types sync key edit held rows service laws
            (storage_service world) _
            (storage_service-Keeps world (Later held) (Later-refl held) (λ a b c. Later-trans held)
              service.master_key_later service.new_service_later)
            (λ handle. update_passes-Publishes handle max_passes 0))
