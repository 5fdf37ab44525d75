-- ===== src/Manifest/Keeps.antt =====
-- What a write of the manifest, in presage/src/manager/storage.rs, leaves as it is: a relation between the world
-- before and after that each of its calls keeps.
use presage.Prelude.{
  ℕ, List, [], ◌∷◌, ◌++◌, any, Bool, true, false, if◌then◌else◌, ok_or, Bool-cases, inl, inr,
}
use presage.Prelude.Steps.{Step, lift, done, fail, >>=-keeps}
use presage.Account.{same_bytes}
use presage.Manifest.{
  Identifier, ManifestRecord, Error, StorageWorld, storage_service, insert_identifiers,
  next_manifest, write_edit, write_manifest_edit, write_replacing_storage_record, first_id,
}

-- A relation that a step keeps from any start on, and the rule for a test.
abbrev pub Keeps : {W E A : Type 0} → (W → W → Type 0) → Step W E A → Type 0
Keeps {W = W} R step = (w : W) → R w (step w).1

pub if-Keeps :
    {W E A : Type 0} (R : W → W → Type 0) (c : Bool) (x y : Step W E A)
    → Keeps R x
    → Keeps R y
    → Keeps R (if c then x else y)
if-Keeps R true x y hx hy w = hx w
if-Keeps R false x y hx hy w = hy w

module _ {W S V X Key Handle : Type 0} (world : StorageWorld W S V X Key Handle)
    (R : W → W → Type 0) (same : (w : W) → R w w)
    (trans : (a b c : W) → R a b → R b c → R a c) where
  pub storage_service-Keeps :
      Keeps R world.master_key
      → ((key : Key) → Keeps R (world.new_service key))
      → Keeps R (storage_service world)
  unfolding storage_service
  storage_service-Keeps master service w =
      >>=-keeps R trans world.master_key _ master
        (λ key.
          >>=-keeps R trans (lift (ok_or key Error.missing_key_error)) world.new_service same
            service)
        w

  module _ (fill : (w : W) → R w (world.fill_bytes w).1) where
    pub insert_identifiers-Keeps :
        (ids : List Identifier) (inserts : List (ℕ × List ℕ)) (records : List (List ℕ × List ℕ))
        (new_ids : List (List ℕ))
        → Keeps R (insert_identifiers world ids inserts records new_ids)
    unfolding insert_identifiers
    insert_identifiers-Keeps ids [] records new_ids w = same w
    insert_identifiers-Keeps ids ((item_type, record') ∷ inserts) records new_ids w =
        let raw = (world.fill_bytes w).0 in
        let w1 = (world.fill_bytes w).1 in
        let filled = fill w in
        elim (Bool-cases (any (λ (id : Identifier). same_bytes id.raw raw) ids)) [
          | inl clash ↦ rw clash filled
          | inr unused ↦
              let rest =
                insert_identifiers-Keeps (ids ++ record { raw = raw; item_type = item_type } ∷ [])
                  inserts (records ++ (raw, record') ∷ []) (new_ids ++ raw ∷ []) w1 in
              rw unused (trans w w1 _ filled rest)
        ]

    pub write_replacing-Keeps :
        (handle : Handle) (current : ManifestRecord) (item_type : ℕ)
        (old_raw_id new_record : List ℕ)
        → ((m : ManifestRecord) (inserts : List (List ℕ × List ℕ)) (deletes : List (List ℕ))
            → Keeps R (world.write_items handle m inserts deletes))
        → Keeps R
            (write_replacing_storage_record world handle current item_type old_raw_id new_record)
    unfolding write_manifest_edit write_replacing_storage_record
    write_replacing-Keeps handle current item_type old_raw_id new_record write w =
        >>=-keeps R trans
          (write_manifest_edit world handle current ((item_type, new_record) ∷ [])
            (old_raw_id ∷ []))
          (λ ids. done (first_id ids))
          (>>=-keeps R trans (lift _) _ same (λ kept.
            >>=-keeps R trans (insert_identifiers world kept ((item_type, new_record) ∷ []) [] []) _
              (insert_identifiers-Keeps kept ((item_type, new_record) ∷ []) [] [])
              (λ parts.
                if-Keeps R _
                  (write_edit world handle (next_manifest world current parts.0) parts.1
                    (old_raw_id ∷ []) parts.2)
                  (fail Error.storage_manifest_conflict) (write _ parts.1 (old_raw_id ∷ [])) same)))
          (λ ids. same) w
