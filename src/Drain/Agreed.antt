-- ===== src/Drain/Agreed.antt =====
-- After a publish the record that the server took and the row agree: `push_contact_record`, `push_group_record` and
-- `push_pending_account_record` of presage/src/manager/storage.rs.
use presage.Prelude.{
  ℕ, ◌+◌, ◌^◌, ◌<◌, List, length, Option, none, some, Bool, true, false, ◌||◌, Result, ok, err,
  ok_same, [], ◌∷◌, ◌⊎◌, ◌≡◌, refl, ap, ◌∙◌, subst, arith, inl, inr,
}
use presage.Prelude.Steps.{Step}
use presage.Wire.{EditError}
use presage.Record.Size.{Roomy}
use presage.Groups.{Group, ServiceId}
use presage.Groups.Pending.{
  GroupPendingPublish, group_diff, group_any, group_apply, group_pending_none,
}
use presage.Groups.Publish.{group_apply-group_diff}
use presage.Account.{
  AccountChatState, AccountPendingPublish, account_diff, account_any, account_apply,
  account_pending_none, encode_pinned_conversations,
}
use presage.Account.Publish.{account_apply-account_diff}
use presage.Manifest.{Error, StorageWorld, ManifestRecord}
use presage.Manifest.Update.{
  StorageRecordKey, ItemTypes, item_type, StorageRecordIdentity, IdentityStore,
  update_storage_record,
}
use presage.Manifest.Server.{Later, Applied, ServiceLaws}
use presage.Manifest.Edit.{edited}
use presage.Manifest.Rows.{Rows, RowLaws}
use presage.Manifest.Published.{update_storage_record-outcome}
use presage.Drain.{edit_if, after_diff, group_edit, account_edit}

-- An edit that brings a record in line: what it gives, and what it leaves, agrees.
record Settles (X : Type 0) (edit : List ℕ → Result X (Option (List ℕ)))
    (Usable Agreed : List ℕ → Type 0) : Type 0 where
  edits : (old new : List ℕ) → Usable old → edit old ≡ ok (some new) → Agreed new
  leaves : (old : List ℕ) → Usable old → edit old ≡ ok none → Agreed old

-- Where a stored identity comes from: it was stored at a moment of the update and found in line, or the server's
-- manifest got its identifier in the place of an old one, at the version that it says, and the server then held
-- its bytes.
abbrev pub OnServer :
    {W S V X Key Handle ContactId : Type 0} (world : StorageWorld W S V X Key Handle)
    {store : IdentityStore W (Error S V X) ContactId} (types : ItemTypes)
    {sync : Step W (Error S V X) (Unit {0})} {key : StorageRecordKey ContactId}
    (held : W → ManifestRecord)
    → Rows world store held sync key
    → W
    → W
    → StorageRecordIdentity
    → Type 0
OnServer {W = W} world types {key = key} held rows w w' i =
    ((moment : W) × Later held w moment × (rows.identity_of moment ≡ some i))
    ⊎ ((old_id : List ℕ) × ((a : Applied held
            (edited world.device_id ((item_type types key, i.record') ∷ []) (old_id ∷ [])
              (i.storage_id ∷ []))
            w w')
          × (rows.record_at a.after i.storage_id ≡ some i.record')
          × (i.storage_version ≡ (held a.after).version)))

module _ {W S V X Key Handle ContactId : Type 0} (world : StorageWorld W S V X Key Handle)
    (store : IdentityStore W (Error S V X) ContactId) (types : ItemTypes)
    (sync : Step W (Error S V X) (Unit {0})) (key : StorageRecordKey ContactId)
    (edit : List ℕ → Result X (Option (List ℕ))) (held : W → ManifestRecord)
    (rows : Rows world store held sync key) (service : ServiceLaws world held)
    (laws : RowLaws world store held sync key rows) where
  -- The row of the record says that the server holds one that agrees.
  pub record Agrees (Agreed : List ℕ → Type 0) (w w' : W) : Type 0 where
    pub identity : StorageRecordIdentity
    pub is_stored : rows.identity_of w' ≡ some identity
    pub agreed : Agreed identity.record'
    pub on_server : OnServer world types held rows w w' identity
    pub lowered : rows.flag_of w' ≡ false

  update-Agrees :
      (Usable Agreed : List ℕ → Type 0)
      → Settles X edit Usable Agreed
      → ((w : W) (i : StorageRecordIdentity) → rows.identity_of w ≡ some i → Usable i.record')
      → (w : W) → (update_storage_record world store types sync key edit w).0 ≡ ok tt
      → Agrees Agreed w (update_storage_record world store types sync key edit w).1
  update-Agrees Usable Agreed settles usable w h =
      elim (update_storage_record-outcome world store types sync key edit held rows service laws w
        h) [
          | inl u ↦ record {
            identity = u.found;
            is_stored = u.rows_say;
            agreed =
                settles.leaves u.found.record' (usable u.moment u.found u.stored) u.nothing_to_do;
            on_server = inl (u.moment, u.at_moment, u.stored);
            lowered = u.lowered;
          }
          | inr p ↦ record {
            identity = record {
              storage_id = p.new_id;
              storage_version = _;
              record' = p.new_record;
            };
            is_stored = p.rows_say;
            agreed =
                settles.edits p.found.record' p.new_record (usable p.moment p.found p.stored)
                  p.edited_to;
            on_server = inr (p.found.storage_id, (p.replaced, p.holds, p.at_version));
            lowered = p.lowered;
          }
        ]

-- The parts of an edit that ends well.
edit_if-some :
    (wanted : Bool) (edited : Result EditError (List ℕ)) {new : List ℕ}
    → edit_if wanted edited ≡ ok (some new)
    → edited ≡ ok new
edit_if-some false edited h = ground arith
edit_if-some true (ok x) h = ground arith
edit_if-some true (err e) h = cc

edit_if-none :
    (wanted : Bool) (edited : Result EditError (List ℕ))
    → edit_if wanted edited ≡ ok none
    → wanted ≡ false
edit_if-none false edited h = refl
edit_if-none true (ok x) h = ground arith
edit_if-none true (err e) h = cc

after_diff-some :
    {D : Type 0} (d : Result EditError D) (wanted : D → Bool) (edit : D → Result EditError (List ℕ))
    {new : List ℕ}
    → after_diff d (λ p. edit_if (wanted p) (edit p)) ≡ ok (some new)
    → (p : D) × (d ≡ ok p) × (edit p ≡ ok new)
after_diff-some (err e) wanted edit h = cc
after_diff-some (ok p) wanted edit h = (p, refl, edit_if-some (wanted p) (edit p) h)

after_diff-none :
    {D : Type 0} (d : Result EditError D) (wanted : D → Bool) (edit : D → Result EditError (List ℕ))
    → after_diff d (λ p. edit_if (wanted p) (edit p)) ≡ ok none
    → (p : D) × (d ≡ ok p) × (wanted p ≡ false)
after_diff-none (err e) wanted edit h = cc
after_diff-none (ok p) wanted edit h = (p, refl, edit_if-none (wanted p) (edit p) h)

-- A difference in no field.
or_false : (a b : Bool) → (a || b) ≡ false → (a ≡ false) × (b ≡ false)
or_false false b h = (refl, h)
or_false true b h = cc

no_group_pending : (p : GroupPendingPublish) → group_any p ≡ false → p ≡ group_pending_none
unfolding group_any
no_group_pending p h = let (muted, archived) = or_false p.muted p.archived h in cc

no_account_pending : (p : AccountPendingPublish) → account_any p ≡ false → p ≡ account_pending_none
unfolding account_any
no_account_pending p h = let (note, pinned) = or_false p.note_to_self_archived p.pinned h in cc

module _ {Role Access ProfileKey : Type 0} (group : Group Role Access ProfileKey ℕ) where
  group_edit-Settles :
      group.muted_until_timestamp < 2 ^ 64
      → Settles EditError
          (group_edit group)
          (Roomy 2)
          (λ r. group_diff r group ≡ ok group_pending_none)
  unfolding group_edit
  group_edit-Settles small = record {
    edits = λ old new roomy h.
        let (p, differ, applied) =
          after_diff-some (group_diff old group) group_any (λ p. group_apply p old group) h in
        let (out, done, agrees) = group_apply-group_diff old group p roomy small differ in
        let same = ok_same done applied in
        subst (λ r. group_diff r group ≡ ok group_pending_none) same agrees;
    leaves = λ old roomy h.
        let (p, differ, none_wanted) =
          after_diff-none (group_diff old group) group_any (λ p. group_apply p old group) h in
        differ ∙ ap ok (no_group_pending p none_wanted);
  }

-- A record that the account's pins fit into.
abbrev pub RoomForPins : AccountChatState → List ℕ → Type 0
RoomForPins state record' =
    length record' + length (encode_pinned_conversations state.pinned) + 60 < 2 ^ 64

account_edit-Settles :
    (state : AccountChatState)
    → Settles EditError
        (account_edit state)
        (RoomForPins state)
        (λ r. account_diff r state ≡ ok account_pending_none)
unfolding account_edit
account_edit-Settles state = record {
  edits = λ old new room h.
      let (p, differ, applied) =
        after_diff-some (account_diff old state) account_any (λ p. account_apply p old state) h in
      let (out, done, agrees) = account_apply-account_diff old state p room differ in
      let same = ok_same done applied in
      subst (λ r. account_diff r state ≡ ok account_pending_none) same agrees;
  leaves = λ old room h.
      let (p, differ, none_wanted) =
        after_diff-none (account_diff old state) account_any (λ p. account_apply p old state) h in
      differ ∙ ap ok (no_account_pending p none_wanted);
}

module _ {W S V Key Handle : Type 0} (world : StorageWorld W S V EditError Key Handle)
    (store : IdentityStore W (Error S V EditError) ServiceId) (types : ItemTypes)
    (sync : Step W (Error S V EditError) (Unit {0})) (held : W → ManifestRecord)
    (service : ServiceLaws world held) where
  -- The same of the account's record, its Note to Self and its pins, where the records stored for it leave room
  -- for the encoded pins and 60 bytes.
  pub update_account-Agrees :
      (state : AccountChatState) (rows : Rows world store held sync StorageRecordKey.account)
      → RowLaws world store held sync StorageRecordKey.account rows
      → ((w : W) (i : StorageRecordIdentity)
          → rows.identity_of w ≡ some i
          → RoomForPins state i.record')
      → (w : W)
      → (update_storage_record world store types sync StorageRecordKey.account
          (account_edit state)
          w).0
        ≡ ok tt
      → (i : StorageRecordIdentity) × (rows.identity_of
            (update_storage_record world store types sync StorageRecordKey.account
              (account_edit state)
              w).1
          ≡ some i)
        × (account_diff i.record' state ≡ ok account_pending_none)
        × OnServer world types held rows w
            (update_storage_record world store types sync StorageRecordKey.account
              (account_edit state)
              w).1
            i
        × (rows.flag_of
              (update_storage_record world store types sync StorageRecordKey.account
                (account_edit state)
                w).1
            ≡ false)
  update_account-Agrees state rows laws room w h =
      let a =
        update-Agrees world store types sync StorageRecordKey.account (account_edit state) held rows
          service laws (RoomForPins state) (λ r. account_diff r state ≡ ok account_pending_none)
          (account_edit-Settles state) room w h in
      (a.identity, a.is_stored, a.agreed, a.on_server, a.lowered)
