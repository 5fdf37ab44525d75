-- ===== src/Manifest/Rows.antt =====
-- The local rows of one record and the ways an update of it ends well, for `update_storage_record` of
-- presage/src/manager/storage.rs.
use presage.Prelude.{
  ℕ, ◌+◌, ◌%◌, ◌^◌, List, [], ◌∷◌, Option, none, some, Bool, false, Result, ok, ◌≡◌, ◌⊎◌, sym, ap,
  ◌∙◌, subst, inl, inr,
}
use presage.Prelude.Steps.{Step, ◌>>=◌, >>=-ends_ok}
use presage.Manifest.{ManifestRecord, Error, StorageWorld}
use presage.Manifest.Server.{Later, Later-trans, Accepted, Applied, Applied-earlier, ServiceLaws}
use presage.Manifest.Keeps.{Keeps}
use presage.Manifest.Edit.{edited}
use presage.Manifest.Update.{
  StorageRecordKey, ItemTypes, item_type, StorageRecordIdentity, IdentityStore,
  set_needs_storage_sync, storage_identity, save_storage_identity, publish_identity,
}

module _ {W S V X Key Handle ContactId : Type 0} (world : StorageWorld W S V X Key Handle)
    (store : IdentityStore W (Error S V X) ContactId) (held : W → ManifestRecord)
    (sync : Step W (Error S V X) (Unit {0})) (key : StorageRecordKey ContactId) where
  -- The local rows of one record: the version of the manifest, where the record lives, and its mark; and the bytes
  -- that the server holds under an identifier.
  pub record Rows : Type 0 where
    pub record_at : W → List ℕ → Option (List ℕ)
    pub version_of : W → ℕ
    pub identity_of : W → Option StorageRecordIdentity
    pub flag_of : W → Bool

  -- The server holds the record of a write of one.
  abbrev pub HoldsOne : Rows → List (List ℕ × List ℕ) → W → Type 0
  HoldsOne rows (insert ∷ []) w = rows.record_at w insert.0 ≡ some insert.1
  HoldsOne rows _ w = Unit {0}

  -- At the moment that the server takes a manifest, it holds the record that was written with it. The rows are
  -- read and written as the calls say, other calls on the record's rows leave them, and the calls on the rows
  -- leave the server to move on by itself.
  pub record RowLaws (rows : Rows) : Type 0 where
    pub record_written :
        (handle : Handle) (m : ManifestRecord) (inserts : List (List ℕ × List ℕ))
        (deletes : List (List ℕ)) (w : W)
        → (world.write_items handle m inserts deletes w).0 ≡ ok tt
        → (a : Accepted held m w (world.write_items handle m inserts deletes w).1) × HoldsOne rows
            inserts a.after
    pub identity_read :
        (w : W) {found : Option StorageRecordIdentity}
        → (storage_identity store key w).0 ≡ ok found
        → rows.identity_of (storage_identity store key w).1 ≡ found
    pub version_stored :
        (n : ℕ) (w : W)
        → (world.store_storage_manifest_version n w).0 ≡ ok tt
        → rows.version_of (world.store_storage_manifest_version n w).1 ≡ n
    pub identity_saved :
        (identity : StorageRecordIdentity) (w : W)
        → (save_storage_identity store key identity w).0 ≡ ok tt
        → (rows.identity_of (save_storage_identity store key identity w).1 ≡ some identity)
          × (rows.version_of (save_storage_identity store key identity w).1 ≡ rows.version_of w)
    pub flag_set :
        (flag : Bool) (w : W)
        → (set_needs_storage_sync store key flag w).0 ≡ ok tt
        → (rows.flag_of (set_needs_storage_sync store key flag w).1 ≡ flag)
          × (rows.identity_of (set_needs_storage_sync store key flag w).1 ≡ rows.identity_of w)
          × (rows.version_of (set_needs_storage_sync store key flag w).1 ≡ rows.version_of w)
    pub notify_leaves :
        (w : W)
        → (rows.flag_of (world.notify_storage_manifest_written w) ≡ rows.flag_of w)
          × (rows.identity_of (world.notify_storage_manifest_written w) ≡ rows.identity_of w)
          × (rows.version_of (world.notify_storage_manifest_written w) ≡ rows.version_of w)
    pub identity_later : Keeps (Later held) (storage_identity store key)
    pub save_later :
        (identity : StorageRecordIdentity)
        → Keeps (Later held) (save_storage_identity store key identity)
    pub flag_later : (flag : Bool) → Keeps (Later held) (set_needs_storage_sync store key flag)
    pub sync_later : Keeps (Later held) sync

module _ {W S V X Key Handle ContactId : Type 0} (world : StorageWorld W S V X Key Handle)
    (store : IdentityStore W (Error S V X) ContactId) (types : ItemTypes)
    (sync : Step W (Error S V X) (Unit {0})) (key : StorageRecordKey ContactId)
    (edit : List ℕ → Result X (Option (List ℕ))) (held : W → ManifestRecord)
    (rows : Rows world store held sync key) where
  -- The record already said what the edit wants.
  pub record Unchanged (w w' : W) : Type 0 where
    pub found : StorageRecordIdentity
    pub moment : W
    pub at_moment : Later held w moment
    pub stored : rows.identity_of moment ≡ some found
    pub nothing_to_do : edit found.record' ≡ ok none
    pub rows_say : rows.identity_of w' ≡ some found
    pub lowered : rows.flag_of w' ≡ false

  -- The server replaced the record that the device held by the edited one, of which it took the bytes, and the rows
  -- say so.
  pub record Published (w w' : W) : Type 0 where
    pub found : StorageRecordIdentity
    pub moment : W
    pub at_moment : Later held w moment
    pub stored : rows.identity_of moment ≡ some found
    pub new_record : List ℕ
    pub new_id : List ℕ
    pub edited_to : edit found.record' ≡ ok (some new_record)
    pub replaced :
        Applied held
          (edited world.device_id
            ((item_type types key, new_record) ∷ [])
            (found.storage_id ∷ [])
            (new_id ∷ []))
          w
          w'
    pub holds : rows.record_at replaced.after new_id ≡ some new_record
    pub at_version : rows.version_of w' ≡ (held replaced.after).version
    pub rows_say :
        rows.identity_of w'
        ≡ some (record {
          storage_id = new_id;
          storage_version = rows.version_of w';
          record' = new_record;
        })
    pub lowered : rows.flag_of w' ≡ false

  module _ (service : ServiceLaws world held) (laws : RowLaws world store held sync key rows) where
    -- After the write, up to the return.
    pub record Settled (version : ℕ) (new_record new_id : List ℕ) (w w' : W) : Type 0 where
      pub settled_later : Later held w w'
      pub settled_version : rows.version_of w' ≡ version
      pub settled_rows :
          rows.identity_of w'
          ≡ some (record {
            storage_id = new_id;
            storage_version = rows.version_of w';
            record' = new_record;
          })
      pub settled_flag : rows.flag_of w' ≡ false

    identity_at :
        (new_record new_id : List ℕ) (v v' : ℕ) (found : Option StorageRecordIdentity)
        → found ≡ some (record { storage_id = new_id; storage_version = v; record' = new_record })
        → v' ≡ v
        → found ≡ some (record { storage_id = new_id; storage_version = v'; record' = new_record })
    identity_at new_record new_id v v' found e same =
        e
        ∙ ap {A = ℕ}
            (λ n. some (record { storage_id = new_id; storage_version = n; record' = new_record }))
            (sym same)

    pub publish_identity-Settled :
        (current : ManifestRecord) (new_record new_id : List ℕ) (w : W)
        → (publish_identity world store types sync key edit current new_record new_id w).0 ≡ ok tt
        → Settled
            ((current.version + 1) % 2 ^ 64)
            new_record
            new_id
            w
            (publish_identity world store types sync key edit current new_record new_id w).1
    unfolding publish_identity
    publish_identity-Settled current new_record new_id w h =
        let v = (current.version + 1) % 2 ^ 64 in
        let (u1, e1, h1, w1) = >>=-ends_ok (world.store_storage_manifest_version v) _ w h in
        let wv = (world.store_storage_manifest_version v w).1 in
        let identity : StorageRecordIdentity = record {
          storage_id = new_id;
          storage_version = v;
          record' = new_record;
        } in
        let (u2, e2, h2, w2) = >>=-ends_ok (save_storage_identity store key identity) _ wv h1 in
        let ws = (save_storage_identity store key identity wv).1 in
        let (u3, e3, h3, w3) = >>=-ends_ok (set_needs_storage_sync store key false) _ ws h2 in
        let wf = (set_needs_storage_sync store key false ws).1 in
        let (flag_kept, identity_kept, version_kept) = laws.notify_leaves wf in
        let (flag_is, identity_is, version_is) = laws.flag_set false ws e3 in
        let (saved, version_same) = laws.identity_saved identity wv e2 in
        let stored = laws.version_stored v w e1 in
        subst (λ w'. Settled v new_record new_id w w') (sym (w1 ∙ w2 ∙ w3))
          (record {
            settled_later = Later-trans held (service.store_version_later v w) (
                Later-trans held (laws.save_later identity wv)
                  (Later-trans held (laws.flag_later false ws) (service.notify_later wf)));
            settled_version = version_kept ∙ version_is ∙ version_same ∙ stored;
            settled_rows =
                identity_at new_record new_id v _ _ (identity_kept ∙ identity_is ∙ saved)
                  (version_kept ∙ version_is ∙ version_same ∙ stored);
            settled_flag = flag_kept ∙ flag_is;
          })

    -- A step that ends well has published the record, or found nothing to do.
    abbrev pub Publishes : Step W (Error S V X) (Unit {0}) → Type 0
    Publishes step = (w : W) → (step w).0 ≡ ok tt → Unchanged w (step w).1 ⊎ Published w (step w).1

    pub outcome_earlier :
        (a b c : W) → Later held a b → Unchanged b c ⊎ Published b c → Unchanged a c ⊎ Published a c
    outcome_earlier a b c l (inl u) = inl (record {
      found = u.found;
      moment = u.moment;
      at_moment = Later-trans held l u.at_moment;
      stored = u.stored;
      nothing_to_do = u.nothing_to_do;
      rows_say = u.rows_say;
      lowered = u.lowered;
    })
    outcome_earlier a b c l (inr p) = inr (record {
      found = p.found;
      moment = p.moment;
      at_moment = Later-trans held l p.at_moment;
      stored = p.stored;
      new_record = p.new_record;
      new_id = p.new_id;
      edited_to = p.edited_to;
      replaced = Applied-earlier held l p.replaced;
      holds = p.holds;
      at_version = p.at_version;
      rows_say = p.rows_say;
      lowered = p.lowered;
    })

    pub Publishes-after :
        {A : Type 0} (step : Step W (Error S V X) A) (next : A → Step W (Error S V X) (Unit {0}))
        → Keeps (Later held) step
        → ((a : A) → Publishes (next a))
        → Publishes (step >>= next)
    Publishes-after step next later rest w h =
        let (a, e, h1, w1) = >>=-ends_ok step next w h in
        subst (λ w'. Unchanged w w' ⊎ Published w w') (sym w1)
          (outcome_earlier w (step w).1 (next a (step w).1).1 (later w) (rest a (step w).1 h1))
