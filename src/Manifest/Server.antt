-- ===== src/Manifest/Server.antt =====
-- The server of the storage service as the writes of presage/src/manager/storage.rs see it: a manifest that other
-- devices replace as well, each time by one of the next version.
use presage.Prelude.{ℕ, suc, ◌<◌, List, ok, ◌≡◌, ◌⊎◌, inl, inr, refl, ◌∙◌, arith}
use presage.Manifest.{ManifestRecord, StorageWorld}

module _ {W : Type 0} (held : W → ManifestRecord) where
  -- The server moves on: it still holds the manifest, or one of a higher version.
  abbrev pub Later : W → W → Type 0
  Later w w' = (held w' ≡ held w) ⊎ ((held w).version < (held w').version)

  pub Later-refl : (w : W) → Later w w
  Later-refl w = inl refl

  pub Later-trans : {a b c : W} → Later a b → Later b c → Later a c
  Later-trans (inl e) (inl f) = inl (f ∙ e)
  Later-trans {a} (inl e) (inr f) = inr (rw e at f)
  Later-trans (inr e) (inl f) = inr (rw f e)
  Later-trans (inr e) (inr f) = inr (omega arith)

  -- A version has one manifest.
  pub Later-same : {a b : W} → Later a b → (held a).version ≡ (held b).version → held b ≡ held a
  Later-same (inl e) same = e
  Later-same (inr f) same = absurd (omega arith)

  -- The server took a manifest: at some moment it held the version before and then the manifest.
  pub record Accepted (m : ManifestRecord) (w w' : W) : Type 0 where
    pub before : W
    pub after : W
    pub until : Later w before
    pub step : m.version ≡ suc (held before).version
    pub taken : held after ≡ m
    pub since : Later after w'

  -- The server's manifest was changed in one step, and by this change.
  pub record Applied (change : ManifestRecord → ManifestRecord) (w w' : W) : Type 0 where
    pub before : W
    pub after : W
    pub until : Later w before
    pub changed : held after ≡ change (held before)
    pub since : Later after w'

  abbrev pub Applied-earlier :
      {change : ManifestRecord → ManifestRecord} {w w1 w' : W}
      → Later w w1
      → Applied change w1 w'
      → Applied change w w'
  Applied-earlier l a = record {
    before = a.before;
    after = a.after;
    until = Later-trans l a.until;
    changed = a.changed;
    since = a.since;
  }

  abbrev pub Applied-Later :
      {change : ManifestRecord → ManifestRecord} {w w1 w' : W}
      → Applied change w w1
      → Later w1 w'
      → Applied change w w'
  Applied-Later a l = record {
    before = a.before;
    after = a.after;
    until = a.until;
    changed = a.changed;
    since = Later-trans a.since l;
  }

  -- A manifest that the server held, at this moment or an earlier one.
  pub record WasHeld (m : ManifestRecord) (w : W) : Type 0 where
    pub moment : W
    pub was : held moment ≡ m
    pub then' : Later moment w

  pub WasHeld-Later : {m : ManifestRecord} {w w' : W} → WasHeld m w → Later w w' → WasHeld m w'
  WasHeld-Later h l = record { moment = h.moment; was = h.was; then' = Later-trans h.then' l }

-- What the code relies on. Each call leaves time for the writes of other devices; a manifest that is read was the
-- server's; and the server takes a manifest only as the next version of the one that it holds.
pub record ServiceLaws {W S V X Key Handle : Type 0} (world : StorageWorld W S V X Key Handle)
    (held : W → ManifestRecord) : Type 0 where
  pub master_key_later : (w : W) → Later held w (world.master_key w).1
  pub new_service_later : (k : Key) (w : W) → Later held w (world.new_service k w).1
  pub manifest_later : (h : Handle) (w : W) → Later held w (world.manifest h w).1
  pub manifest_read :
      (h : Handle) (w : W) {m : ManifestRecord}
      → (world.manifest h w).0 ≡ ok m
      → WasHeld held m (world.manifest h w).1
  pub write_later :
      (h : Handle) (m : ManifestRecord) (inserts : List (List ℕ × List ℕ)) (deletes : List (List ℕ))
      (w : W)
      → Later held w (world.write_items h m inserts deletes w).1
  pub write_taken :
      (h : Handle) (m : ManifestRecord) (inserts : List (List ℕ × List ℕ)) (deletes : List (List ℕ))
      (w : W)
      → (world.write_items h m inserts deletes w).0 ≡ ok tt
      → Accepted held m w (world.write_items h m inserts deletes w).1
  pub fill_bytes_later : (w : W) → Later held w (world.fill_bytes w).1
  pub sleep_later : (n : ℕ) (w : W) → Later held w (world.sleep n w)
  pub fetch_version_later : (w : W) → Later held w (world.fetch_storage_manifest_version w).1
  pub store_version_later :
      (n : ℕ) (w : W) → Later held w (world.store_storage_manifest_version n w).1
  pub notify_later : (w : W) → Later held w (world.notify_storage_manifest_written w)
