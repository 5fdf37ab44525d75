-- ===== src/Manifest/Write.antt =====
-- One write of the manifest, `write_manifest_edit` of presage/src/manager/storage.rs, against a server that
-- other devices write to as well.
use presage.Prelude.{
  ℕ, suc, ◌+◌, ◌%◌, ◌^◌, List, [], ◌∷◌, ◌++◌, length, any, append_assoc, append-nil, Bool, true,
  false, if◌then◌else◌, Result, ok, err, ◌≡◌, inl, inr, refl, sym, ap, subst, ◌∙◌, arith,
  Bool-cases, ok_same, Result-cases,
}
use presage.Prelude.Steps.{fail, lift, >>=-ends_ok}
use presage.Account.{same_bytes}
use presage.Manifest.{
  Identifier, ManifestRecord, ServiceError, Error, StorageWorld, drop_identifiers,
  insert_identifiers, next_manifest, write_edit, write_outcome, write_manifest_edit,
}
use presage.Manifest.Server.{
  Later, Later-refl, Later-trans, Accepted, Applied, WasHeld, WasHeld-Later, ServiceLaws,
}
use presage.Manifest.Keeps.{insert_identifiers-Keeps}
use presage.Manifest.Edit.{
  edited, fresh_identifiers, fresh_records, OnceEach, kept_identifiers, drop_identifiers-ok,
  drop_identifiers-once, drop_identifiers-moved,
}

module _ {W S V X Key Handle : Type 0} (world : StorageWorld W S V X Key Handle)
    (held : W → ManifestRecord) (laws : ServiceLaws world held) where
  next_of_current :
      (current : ManifestRecord) {a b : W}
      → held a ≡ current
      → Later held a b
      → (current.version + 1) % 2 ^ 64 ≡ suc (held b).version
      → held b ≡ current
  next_of_current current was (inl e) step = e ∙ was
  next_of_current current was (inr later) step = let older = rw was at later in absurd (omega arith)

  next_version_of :
      (current b : ManifestRecord)
      → b ≡ current
      → (current.version + 1) % 2 ^ 64 ≡ suc b.version
      → (current.version + 1) % 2 ^ 64 ≡ suc current.version
  next_version_of current b e step = step ∙ ap (λ (m : ManifestRecord). suc m.version) e

  -- The next manifest is taken only on top of the one that it was made from.
  next_manifest-changed :
      (current : ManifestRecord) (ids : List Identifier) (change : ManifestRecord → ManifestRecord)
      {w w' : W}
      → WasHeld held current w
      → (a : Accepted held (next_manifest world current ids) w w')
      → change current ≡ record {
        version = suc current.version;
        source_device = world.device_id;
        identifiers = ids;
        record_ikm = current.record_ikm;
      }
      → held a.after ≡ change (held a.before)
  next_manifest-changed current ids change was a makes =
      let same = next_of_current current was.was (Later-trans held was.then' a.until) a.step in
      let version_is = next_version_of current (held a.before) same a.step in
      a.taken
      ∙ ap {A = ℕ}
          (λ v. record {
            version = v;
            source_device = world.device_id;
            identifiers = ids;
            record_ikm = current.record_ikm;
          })
          version_is
      ∙ sym makes
      ∙ ap change (sym same)

  pub next_manifest-Applied :
      (current : ManifestRecord) (ids : List Identifier) (change : ManifestRecord → ManifestRecord)
      {w w' : W}
      → WasHeld held current w
      → Accepted held (next_manifest world current ids) w w'
      → change current ≡ record {
        version = suc current.version;
        source_device = world.device_id;
        identifiers = ids;
        record_ikm = current.record_ikm;
      }
      → Applied held change w w'
  next_manifest-Applied current ids change was a makes = record {
    before = a.before;
    after = a.after;
    until = a.until;
    changed = next_manifest-changed current ids change was a makes;
    since = a.since;
  }

  record Inserted (ids : List Identifier) (inserts : List (ℕ × List ℕ))
      (records : List (List ℕ × List ℕ)) (new_ids : List (List ℕ)) (ids' : List Identifier)
      (records' : List (List ℕ × List ℕ)) (new_ids' : List (List ℕ)) : Type 0 where
    fresh : List (List ℕ)
    ids_are : ids' ≡ ids ++ fresh_identifiers inserts fresh
    records_are : records' ≡ records ++ fresh_records inserts fresh
    new_ids_are : new_ids' ≡ new_ids ++ fresh
    as_many : length fresh ≡ length inserts

  insert_identifiers-Inserted :
      (ids : List Identifier) (inserts : List (ℕ × List ℕ)) (records : List (List ℕ × List ℕ))
      (new_ids : List (List ℕ)) (w : W) {ids' : List Identifier} {records' : List (List ℕ × List ℕ)}
      {new_ids' : List (List ℕ)}
      → (insert_identifiers world ids inserts records new_ids w).0 ≡ ok (ids', records', new_ids')
      → Inserted ids inserts records new_ids ids' records' new_ids'
  unfolding insert_identifiers
  insert_identifiers-Inserted ids [] records new_ids w h = record {
    fresh = [];
    ids_are = ground (arith, append-nil ids);
    records_are = ground (arith, append-nil records);
    new_ids_are = ground (arith, append-nil new_ids);
    as_many = refl;
  }
  insert_identifiers-Inserted ids ((item_type, record') ∷ inserts) records new_ids w h =
      let raw = (world.fill_bytes w).0 in
      elim (Bool-cases (any (λ (id : Identifier). same_bytes id.raw raw) ids)) [
        | inl clash ↦ absurd (let bad = rw clash at h in ground arith)
        | inr free ↦
            let rest =
              insert_identifiers-Inserted (ids ++ record { raw = raw; item_type = item_type } ∷ [])
                inserts (records ++ (raw, record') ∷ []) (new_ids ++ raw ∷ [])
                (world.fill_bytes w).1 (rw free at h) in
            record {
              fresh = raw ∷ rest.fresh;
              ids_are =
                  rest.ids_are
                  ∙ append_assoc ids (record { raw = raw; item_type = item_type } ∷ [])
                      (fresh_identifiers inserts rest.fresh);
              records_are =
                  rest.records_are
                  ∙ append_assoc records ((raw, record') ∷ []) (fresh_records inserts rest.fresh);
              new_ids_are = rest.new_ids_are ∙ append_assoc new_ids (raw ∷ []) rest.fresh;
              as_many = ap suc rest.as_many;
            }
      ]

  -- Of `write_outcome`, `Ok` comes of `Ok` alone.
  write_outcome-ok :
      {A : Type 0} (r : Result (ServiceError V) (Unit {0})) (a : A) {out : A}
      → write_outcome {S = S} {V = V} {X = X} r a ≡ ok out
      → (out ≡ a) × (r ≡ ok tt)
  write_outcome-ok (ok u) a h = (ground arith, refl)
  write_outcome-ok (err ServiceError.conflict) a h = cc
  write_outcome-ok (err (ServiceError.other_failure v)) a h = cc

  edit_of_parts :
      (current : ManifestRecord) (inserts : List (ℕ × List ℕ))
      (delete_ids new_ids fresh : List (List ℕ)) (kept ids : List Identifier)
      → kept ≡ kept_identifiers current.identifiers delete_ids
      → ids ≡ kept ++ fresh_identifiers inserts fresh
      → new_ids ≡ fresh
      → edited world.device_id inserts delete_ids new_ids current ≡ record {
        version = suc current.version;
        source_device = world.device_id;
        identifiers = ids;
        record_ikm = current.record_ikm;
      }
  edit_of_parts current inserts delete_ids new_ids fresh kept ids e1 e2 e3 = cc

  -- What a write that is taken says of the records that it carries.
  module _ (Holds : List (List ℕ × List ℕ) → W → Type 0)
      (writes : (handle : Handle) (m : ManifestRecord) (inserts : List (List ℕ × List ℕ))
          (deletes : List (List ℕ)) (w : W)
        → (world.write_items handle m inserts deletes w).0 ≡ ok tt
        → (a : Accepted held m w (world.write_items handle m inserts deletes w).1) × Holds inserts
            a.after) where
    -- The change, the version that it made, and the records that came with it.
    pub record Taken (current : ManifestRecord) (change : ManifestRecord → ManifestRecord)
        (records : List (List ℕ × List ℕ)) (w w' : W) : Type 0 where
      pub applied : Applied held change w w'
      pub at_version : (held applied.after).version ≡ (current.version + 1) % 2 ^ 64
      pub holds : Holds records applied.after

    checked_write-Accepted :
        (enough : Bool) (handle : Handle) (m : ManifestRecord) (records : List (List ℕ × List ℕ))
        (delete_ids ids : List (List ℕ)) (w : W) {out : List (List ℕ)}
        → ((if enough
              then write_edit world handle m records delete_ids ids
              else fail Error.storage_manifest_conflict)
            w).0
          ≡ ok out
        → (out ≡ ids)
          × ((a : Accepted held m w
                ((if enough
                    then write_edit world handle m records delete_ids ids
                    else fail Error.storage_manifest_conflict)
                  w).1)
              × Holds records a.after)
    checked_write-Accepted true handle m records delete_ids ids w h =
        let (same, taken) = write_outcome-ok _ ids h in
        (same, writes handle m records delete_ids w taken)
    checked_write-Accepted false handle m records delete_ids ids w h = cc

    pub write_manifest_edit-Taken :
        (handle : Handle) (current : ManifestRecord) (inserts : List (ℕ × List ℕ))
        (delete_ids new_ids : List (List ℕ)) (w : W)
        → WasHeld held current w
        → (write_manifest_edit world handle current inserts delete_ids w).0 ≡ ok new_ids
        → OnceEach current.identifiers delete_ids
          × Taken current
              (edited world.device_id inserts delete_ids new_ids)
              (fresh_records inserts new_ids)
              w
              (write_manifest_edit world handle current inserts delete_ids w).1
          × (length new_ids ≡ length inserts)
    unfolding write_manifest_edit
    write_manifest_edit-Taken handle current inserts delete_ids new_ids w was h =
        let (kept, dropped, h1, w1) = >>=-ends_ok (lift _) _ w h in
        let once = drop_identifiers-once current.identifiers delete_ids dropped in
        let kept_are : kept ≡ kept_identifiers current.identifiers delete_ids =
          ok_same dropped (drop_identifiers-ok current.identifiers delete_ids once) in
        let ((ids, records, fresh_ids), inserted, h2, w2) =
          >>=-ends_ok (insert_identifiers world kept inserts [] []) _ w h1 in
        let parts = insert_identifiers-Inserted kept inserts [] [] w inserted in
        let (same, (taken, carried)) =
          checked_write-Accepted _ handle (next_manifest world current ids) records delete_ids
            fresh_ids _ h2 in
        let later =
          insert_identifiers-Keeps world (Later held) (Later-refl held) (λ a b c. Later-trans held)
            laws.fill_bytes_later kept inserts [] [] w in
        let new_ids_are = same ∙ parts.new_ids_are in
        let records_are : records ≡ fresh_records inserts new_ids =
          parts.records_are ∙ ap (fresh_records inserts) (sym new_ids_are) in
        let change = edited world.device_id inserts delete_ids new_ids in
        let taken_here : Taken current change (fresh_records inserts new_ids) w _ = record {
          applied = record {
            before = taken.before;
            after = taken.after;
            until = Later-trans held later taken.until;
            changed =
                next_manifest-changed current ids change (WasHeld-Later held was later) taken (
                  edit_of_parts current inserts delete_ids new_ids parts.fresh kept ids kept_are
                    parts.ids_are new_ids_are);
            since = taken.since;
          };
          at_version = ap (λ (m : ManifestRecord). m.version) taken.taken;
          holds = subst (λ rs. Holds rs taken.after) records_are carried;
        } in
        (
          once,
          subst (λ w'. Taken current change (fresh_records inserts new_ids) w w') (sym (w1 ∙ w2))
              taken_here,
          ap length new_ids_are ∙ parts.as_many,
        )

  -- When the manifest that is edited was the server's at some moment up to now, and the write ends well: each
  -- identifier to delete was named once and stood in it once; and there was a moment at which the server's
  -- manifest changed from what it then was to that without the deleted identifiers, the others in their order,
  -- with the fresh ones after them, the next version and the same key material. No write of another device
  -- was lost.
  pub write_manifest_edit-Applied :
      (handle : Handle) (current : ManifestRecord) (inserts : List (ℕ × List ℕ))
      (delete_ids new_ids : List (List ℕ)) (w : W)
      → WasHeld held current w
      → (write_manifest_edit world handle current inserts delete_ids w).0 ≡ ok new_ids
      → OnceEach current.identifiers delete_ids
        × Applied held
            (edited world.device_id inserts delete_ids new_ids)
            w
            (write_manifest_edit world handle current inserts delete_ids w).1
        × (length new_ids ≡ length inserts)
  write_manifest_edit-Applied handle current inserts delete_ids new_ids w was h =
      let (once, taken, as_many) =
        write_manifest_edit-Taken (λ records v. Unit {0})
          (λ handle m inserts deletes v e. (laws.write_taken handle m inserts deletes v e, tt))
          handle current inserts delete_ids new_ids w was h in
      (once, taken.applied, as_many)

module _ {W S V X Key Handle : Type 0} (world : StorageWorld W S V X Key Handle) where
  -- When an identifier to delete is named twice, or does not stand exactly once in the manifest that is edited,
  -- the edit ends in `StorageRecordMoved` before it calls anything.
  pub write_manifest_edit-moved :
      (handle : Handle) (current : ManifestRecord) (inserts : List (ℕ × List ℕ))
      (delete_ids : List (List ℕ)) (w : W)
      → ¬ OnceEach current.identifiers delete_ids
      → write_manifest_edit world handle current inserts delete_ids w
        ≡ (err Error.storage_record_moved, w)
  unfolding write_manifest_edit
  write_manifest_edit-moved handle current inserts delete_ids w not_once =
      elim (Result-cases
        (drop_identifiers {S = S} {V = V} {X = X} current.identifiers delete_ids)) [
          | inl (kept, dropped) ↦
              absurd (not_once (drop_identifiers-once current.identifiers delete_ids dropped))
          | inr (e, failed) ↦
              let moved = drop_identifiers-moved current.identifiers delete_ids failed in
              rw failed (ap (λ x. (err x, w)) moved)
        ]
