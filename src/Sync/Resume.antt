-- ===== src/Sync/Resume.antt =====
-- A sync that was interrupted, in `sync_storage_service` of presage/src/manager/storage.rs, and the one after it.
use presage.Prelude.{
  ℕ, zero, suc, ◌+◌, ◌%◌, ◌^◌, ◌<◌, ◌≤◌, ==_refl, List, [], ◌∷◌, length, take, drop, Option, none,
  some, false, ok, ◌≡◌, refl, sym, ap, ◌∙◌, arith,
}
use presage.Prelude.Steps.{Step, continue, ◌>>=◌, ◌>>◌, >>=-ends_ok, continue_same}
use presage.Manifest.{ManifestRecord}
use presage.Sync.{SyncStore, StorageSyncCursor, sync_keys, nothing_to_sync, batches, or_warn}
use presage.Sync.Merge.{Pending}
use presage.Sync.Run.{
  SyncConfig, sync_batch, sync_batches, sync_items, resume_from, read_pending, ikm_of, finish_sync,
  sync_manifest, sync_storage_service,
}

module _ {W E Handle Phone Verified Avatar Role Access ProfileKey C : Type 0}
    (store : SyncStore W E Handle Phone Verified Avatar Role Access ProfileKey C) where
  -- A checkpoint never fails and is read as it was stored, and reading it or the pending records changes nothing.
  pub record KeepsCursor : Type 0 where
    pub cursor_stored :
        (cursor : StorageSyncCursor) (w : W)
        → (store.fetch_storage_sync_cursor (store.store_storage_sync_cursor cursor w).1).0
          ≡ ok (some cursor)
    pub cursor_read : (w : W) → (store.fetch_storage_sync_cursor w).1 ≡ w
    pub contacts_read : (w : W) → (store.contacts_needing_storage_sync w).1 ≡ w
    pub groups_read : (w : W) → (store.groups_needing_storage_sync w).1 ≡ w
    pub folders_read : (w : W) → (store.chat_folders_needing_storage_sync w).1 ≡ w
    pub packs_read : (w : W) → (store.sticker_packs_needing_storage_sync w).1 ≡ w
    pub account_read : (w : W) → (store.account_needs_storage_sync w).1 ≡ w

module _ {W E Handle Phone Verified Avatar Role Access ProfileKey C : Type 0}
    (store : SyncStore W E Handle Phone Verified Avatar Role Access ProfileKey C)
    (config : SyncConfig Phone Verified Avatar Role Access ProfileKey C) (handle : Handle)
    (ikm : Option (List ℕ)) (pending : Pending) (version : ℕ) where
  abbrev run : ℕ → List (List (List ℕ)) → Step W E (Unit {0})
  run i batches = sync_batches store config handle ikm pending version i batches

  run_cons :
      (i : ℕ) (batch : List (List ℕ)) (rest : List (List (List ℕ))) (w : W)
      → (sync_batch store config handle ikm pending version i batch w).0 ≡ ok tt
      → run i (batch ∷ rest) w
        ≡ run (i + 1) rest (sync_batch store config handle ikm pending version i batch w).1
  unfolding sync_batches
  run_cons i batch rest w h = rw h refl

  -- The batches in two parts.
  run_split :
      (k i j : ℕ) (batches : List (List (List ℕ))) (w : W)
      → i + k ≡ j
      → (run i (take k batches) w).0 ≡ ok tt
      → run i batches w ≡ run j (drop k batches) (run i (take k batches) w).1
  unfolding sync_batches
  run_split zero i j batches w e h =
      let same : i ≡ j = omega arith in ap (λ n. run n batches w) same
  run_split (suc k) i j [] w e h = refl
  run_split (suc k) i j (batch ∷ rest) w e h =
      let (u, done', h1, w1) =
        >>=-ends_ok (sync_batch store config handle ikm pending version i batch)
          (λ u. run (i + 1) (take k rest)) w h in
      let there = run_split k (i + 1) j rest _ (omega arith) h1 in
      run_cons i batch rest w done' ∙ there ∙ ap (λ w'. run j (drop k rest) w') (sym w1)

  -- The cursor after one batch.
  batch_cursor :
      KeepsCursor store
      → (i j : ℕ) (batch : List (List ℕ)) (w : W) → i + 1 ≡ j
      → (sync_batch store config handle ikm pending version i batch w).0 ≡ ok tt
      → (store.fetch_storage_sync_cursor
          (sync_batch store config handle ikm pending version i batch w).1).0
        ≡ ok (some (record { target_version = version; next_batch_index = j % 2 ^ 32 }))
  unfolding sync_batch
  batch_cursor laws i j batch w e h =
      let (items, read, h1, w1) = >>=-ends_ok (store.read_items handle batch ikm) _ w h in
      let (u, synced, h2, w2) =
        >>=-ends_ok (sync_items store config pending version items) _ _ h1 in
      let cursor : ℕ → StorageSyncCursor =
        λ n. record { target_version = version; next_batch_index = n % 2 ^ 32 } in
      rw (w1 ∙ w2) (laws.cursor_stored (cursor (i + 1)) _) ∙ ap (λ n. ok (some (cursor n))) e

  -- The cursor after some batches.
  run_cursor :
      KeepsCursor store
      → (k i j : ℕ) (batches : List (List (List ℕ))) (w : W) → i + suc k ≡ j
      → suc k ≤ length batches
      → (run i (take (suc k) batches) w).0 ≡ ok tt
      → (store.fetch_storage_sync_cursor (run i (take (suc k) batches) w).1).0
        ≡ ok (some (record { target_version = version; next_batch_index = j % 2 ^ 32 }))
  unfolding sync_batches sync_batch
  run_cursor laws k i j [] w e few h = absurd (omega arith)
  run_cursor laws zero i j (batch ∷ rest) w e few h =
      let (u, done', h1, w1) =
        >>=-ends_ok (sync_batch store config handle ikm pending version i batch)
          (λ u. run (i + 1) []) w h in
      rw w1 (batch_cursor laws i j batch w e done')
  run_cursor laws (suc k) i j (batch ∷ rest) w e few h =
      let (u, done', h1, w1) =
        >>=-ends_ok (sync_batch store config handle ikm pending version i batch)
          (λ u. run (i + 1) (take (suc k) rest)) w h in
      rw w1 (run_cursor laws k (i + 1) j rest _ (omega arith) (omega arith) h1)

  -- What the next sync reads of the batches that are left.
  sync_batches-resumed :
      KeepsCursor store
      → (k : ℕ) (batches : List (List (List ℕ))) (w : W) → suc k ≤ length batches
      → suc k < 2 ^ 32
      → (run 0 (take (suc k) batches) w).0 ≡ ok tt
      → (do
        cursor ← store.fetch_storage_sync_cursor
        from ← resume_from store config version cursor
        run from (drop from batches))
          (run 0 (take (suc k) batches) w).1
        ≡ run 0 batches w
  sync_batches-resumed laws k batches w few small h =
      let w1 = (run 0 (take (suc k) batches) w).1 in
      let at : (suc k) % 2 ^ 32 ≡ suc k = omega arith in
      let found = run_cursor laws k 0 (suc k) batches w (omega arith) few h in
      rw found (
        rw (==_refl version, at, laws.cursor_read w1)
          (sym (run_split (suc k) 0 (suc k) batches w (omega arith) h)))

module _ {W E Handle Phone Verified Avatar Role Access ProfileKey C : Type 0}
    (store : SyncStore W E Handle Phone Verified Avatar Role Access ProfileKey C)
    (config : SyncConfig Phone Verified Avatar Role Access ProfileKey C) where
  -- A handle is opened, the manifest is found changed, and these records are pending.
  pub record Offered (handle : Handle) (m : ManifestRecord) (pending : Pending) (w : W)
      : Type 0 where
    pub local_version : ℕ
    pub opened : store.new_service w ≡ (ok handle, w)
    pub version_read : store.fetch_storage_manifest_version w ≡ (ok local_version, w)
    pub changed : store.manifest_if_changed handle local_version w ≡ (ok (some m), w)
    pub flagged : (read_pending store config w).0 ≡ ok pending

  read_pending-same : KeepsCursor store → (w : W) → (read_pending store config w).1 ≡ w
  unfolding read_pending
  read_pending-same laws w =
      rw
        (
          laws.contacts_read w,
          laws.groups_read w,
          laws.folders_read w,
          laws.packs_read w,
          laws.account_read w,
        )
        refl

  sync_storage_service-Offered :
      KeepsCursor store
      → (handle : Handle) (m : ManifestRecord) (pending : Pending) (w : W)
      → nothing_to_sync (sync_keys config.types m.identifiers) ≡ false
      → Offered handle m pending w
      → sync_storage_service store config w
        ≡ (do
          cursor ← store.fetch_storage_sync_cursor
          from ← resume_from store config m.version cursor
          sync_batches store config handle
              (ikm_of m.record_ikm)
              pending
              m.version
              from
              (drop from (batches (sync_keys config.types m.identifiers)))
          finish_sync store config m
          or_warn store.clear_storage_sync_cursor)
            w
  unfolding sync_storage_service sync_manifest
  sync_storage_service-Offered laws handle m pending w some_keys o =
      rw (o.opened, o.version_read, o.changed, some_keys, o.flagged, read_pending-same laws w) refl

  same_batch :
      (handle handle' : Handle)
      → ((batch : List (List ℕ)) (ikm : Option (List ℕ)) (v : W)
          → store.read_items handle' batch ikm v ≡ store.read_items handle batch ikm v)
      → (ikm : Option (List ℕ)) (pending : Pending) (version i : ℕ) (batch : List (List ℕ)) (w : W)
      → sync_batch store config handle' ikm pending version i batch w
        ≡ sync_batch store config handle ikm pending version i batch w
  unfolding sync_batch
  same_batch handle handle' same ikm pending version i batch w = rw (same batch ikm w) refl

  same_handle :
      (handle handle' : Handle)
      → ((batch : List (List ℕ)) (ikm : Option (List ℕ)) (v : W)
          → store.read_items handle' batch ikm v ≡ store.read_items handle batch ikm v)
      → (ikm : Option (List ℕ)) (pending : Pending) (version i : ℕ) (batches : List (List (List ℕ)))
        (w : W)
      → sync_batches store config handle' ikm pending version i batches w
        ≡ sync_batches store config handle ikm pending version i batches w
  unfolding sync_batches
  same_handle handle handle' same ikm pending version i [] w = refl
  same_handle handle handle' same ikm pending version i (batch ∷ rest) w =
      rw (same_batch handle handle' same ikm pending version i batch w) (
        continue_same (λ u. sync_batches store config handle' ikm pending version (i + 1) rest)
          (λ u. sync_batches store config handle ikm pending version (i + 1) rest)
          (λ u. same_handle handle handle' same ikm pending version (i + 1) rest)
          (sync_batch store config handle ikm pending version i batch w).0
          (sync_batch store config handle ikm pending version i batch w).1)

  -- For a store that keeps its checkpoints (the default one keeps none and starts over), whose checkpoint calls never
  -- fail, and handles that read the same items: let a sync start with no checkpoint on a
  -- changed manifest that has something to sync, and end well some batches of it, at least one and fewer than 2^32, and
  -- no more. If a later `sync_storage_service` then finds the same manifest and the same records pending, it does what
  -- the first would have done without the interruption: it has the same result and leaves the same world.
  pub sync_storage_service-resumed :
      KeepsCursor store
      → (handle handle' : Handle) (m : ManifestRecord) (pending : Pending) (k : ℕ) (w : W)
      → ((batch : List (List ℕ)) (ikm : Option (List ℕ)) (v : W)
          → store.read_items handle' batch ikm v ≡ store.read_items handle batch ikm v)
      → nothing_to_sync (sync_keys config.types m.identifiers) ≡ false
      → suc k ≤ length (batches (sync_keys config.types m.identifiers))
      → suc k < 2 ^ 32
      → (store.fetch_storage_sync_cursor w).0 ≡ ok none
      → Offered handle m pending w
      → (sync_batches store config handle
          (ikm_of m.record_ikm)
          pending
          m.version
          0
          (take (suc k) (batches (sync_keys config.types m.identifiers)))
          w).0
        ≡ ok tt
      → Offered handle' m pending
          (sync_batches store config handle
            (ikm_of m.record_ikm)
            pending
            m.version
            0
            (take (suc k) (batches (sync_keys config.types m.identifiers)))
            w).1
      → sync_storage_service store config
          (sync_batches store config handle
            (ikm_of m.record_ikm)
            pending
            m.version
            0
            (take (suc k) (batches (sync_keys config.types m.identifiers)))
            w).1
        ≡ sync_storage_service store config w
  sync_storage_service-resumed laws handle handle' m pending k w same some_keys few small fresh o h
        o' =
      let bs = batches (sync_keys config.types m.identifiers) in
      let ikm = ikm_of m.record_ikm in
      let part = sync_batches store config handle ikm pending m.version 0 (take (suc k) bs) in
      let w1 = (part w).1 in
      let at : (suc k) % 2 ^ 32 ≡ suc k = omega arith in
      let found =
        run_cursor store config handle ikm pending m.version laws k 0 (suc k) bs w (omega arith) few
          h in
      let split =
        run_split store config handle ikm pending m.version (suc k) 0 (suc k) bs w (omega arith)
          h in
      let left =
        same_handle handle handle' same ikm pending m.version (suc k) (drop (suc k) bs) w1 in
      let rest = finish_sync store config m >> or_warn store.clear_storage_sync_cursor in
      let batch_run = sync_batches store config handle ikm pending m.version in
      let again : sync_storage_service store config w1
          ≡ (batch_run (suc k) (drop (suc k) bs) >> rest) w1 =
        sync_storage_service-Offered laws handle' m pending w1 some_keys o'
        ∙ rw found (rw (==_refl m.version, at, laws.cursor_read w1, left) refl) in
      let first : sync_storage_service store config w ≡ (batch_run 0 bs >> rest) w =
        sync_storage_service-Offered laws handle m pending w some_keys o
        ∙ rw (fresh, laws.cursor_read w) refl in
      again ∙ ap (λ p. continue (λ (u : Unit {0}). rest) p.0 p.1) (sym split) ∙ sym first
