-- ===== src/Groups/Publish.antt =====
-- `GroupPendingPublish` and `merge_group_from_snapshot`: what a publish leaves pending, and what a sync and a
-- fetch from the group server keep.
use presage.Prelude.{
  ℕ, ◌^◌, ◌<◌, ◌==◌, List, some, Bool, true, false, not, differs, if◌then◌else◌, ok, >>=-eq-ok, ◌≡◌,
  refl, ap, ◌∙◌, arith,
}
use presage.Record.{
  record_varint_field, set_varint_field_or_remove, group_muted_until, set_group_muted_until,
  group_archived, set_group_archived,
}
use presage.Record.Size.{Roomy}
use presage.Publish.Apply.{
  bit, bit_small, set_bool-set_varint, set_varint-Maybe, record_bool-reads, record_bool-ok,
  settled_bit, settled_number,
}
use presage.Groups.{Group, ServerGroup, group_from, from_server}
use presage.Groups.Pending.{
  GroupV2Record, GroupPendingPublish, group_pending_none, group_diff, group_apply,
  merge_group_from_snapshot,
}

module _ {Role Access ProfileKey Timer : Type 0} where
  group_diff-reads :
      (record' : List ℕ) (local : Group Role Access ProfileKey Timer) {p : GroupPendingPublish}
      → group_diff record' local ≡ ok p
      → (m : ℕ) × (a : ℕ) × (record_varint_field record' 3 6 ≡ ok m)
        × (record_varint_field record' 3 4 ≡ ok a)
        × (p ≡ record {
          muted = not (m == local.muted_until_timestamp);
          archived = differs (not (a == 0)) local.archived;
        })
  unfolding group_diff group_muted_until group_archived
  group_diff-reads record' local h =
      let (m, hm, h1) = >>=-eq-ok (group_muted_until record') _ h in
      let (x, hx, h2) = >>=-eq-ok (group_archived record') _ h1 in
      let (a, ra, ea) = record_bool-reads record' 3 4 hx in (m, a, hm, ra, cc)

  group_diff-ok :
      (record' : List ℕ) (local : Group Role Access ProfileKey Timer) (m a : ℕ)
      → record_varint_field record' 3 6 ≡ ok m
      → record_varint_field record' 3 4 ≡ ok a
      → group_diff record' local
        ≡ ok (record {
          muted = not (m == local.muted_until_timestamp);
          archived = differs (not (a == 0)) local.archived;
        })
  unfolding group_diff group_muted_until group_archived
  group_diff-ok record' local m a rm ra = rw (rm, record_bool-ok record' 3 4 a ra) refl

  group_apply-chain :
      (p : GroupPendingPublish) (record' r1 r2 : List ℕ)
      (local : Group Role Access ProfileKey Timer)
      → (if p.muted
          then set_varint_field_or_remove record' 3 6 local.muted_until_timestamp
          else ok record')
        ≡ ok r1
      → (if p.archived then set_varint_field_or_remove r1 3 4 (bit local.archived) else ok r1)
        ≡ ok r2
      → group_apply p record' local ≡ ok r2
  unfolding group_apply set_group_muted_until set_group_archived
  group_apply-chain p record' r1 r2 local e1 e2 =
      rw (e1, set_bool-set_varint r1 3 4 local.archived) e2

  group_settled :
      (m a : ℕ) (local : Group Role Access ProfileKey Timer) (p : GroupPendingPublish)
      → p ≡ record {
        muted = not (m == local.muted_until_timestamp);
        archived = differs (not (a == 0)) local.archived;
      }
      → ◌≡◌ {A = GroupPendingPublish}
          (record {
            muted = not (
                (if p.muted then local.muted_until_timestamp else m)
                == local.muted_until_timestamp);
            archived =
                differs (not ((if p.archived then bit local.archived else a) == 0)) local.archived;
          })
          group_pending_none
  group_settled m a local p h =
      rw h (rw (settled_number m local.muted_until_timestamp, settled_bit a local.archived) refl)

  -- When a group's record reads, is at least 80 bytes shorter than 2^64, and the muting time is below 2^64:
  -- applying what it and the stored group disagree on succeeds, and the record it gives agrees with the stored
  -- group on muting and archiving.
  pub group_apply-group_diff :
      (record' : List ℕ) (local : Group Role Access ProfileKey Timer) (p : GroupPendingPublish)
      → Roomy 2 record'
      → local.muted_until_timestamp < 2 ^ 64
      → group_diff record' local ≡ ok p
      → (out : List ℕ) × (group_apply p record' local ≡ ok out)
        × (group_diff out local ≡ ok group_pending_none)
  group_apply-group_diff record' local p roomy small h =
      let (m, a, rm, ra, p_is) = group_diff-reads record' local h in
      let (r1, e1) =
        set_varint-Maybe 3 6 local.muted_until_timestamp p.muted record' (omega arith) (omega arith)
          (omega arith) (omega arith) small (omega arith) rm in
      let (r2, e2) =
        set_varint-Maybe 3 4 (bit local.archived) p.archived r1 (omega arith) (omega arith)
          (omega arith) (omega arith) (bit_small local.archived) (omega (arith, e1.grown))
          (e1.kept 4 (λ e. omega arith) ∙ ra) in
      (
        r2,
        group_apply-chain p record' r1 r2 local e1.done e2.done,
        group_diff-ok r2 local _ _ (e2.kept 6 (λ e. omega arith) ∙ e1.written) e2.written
            ∙ ap (λ x. ok x) (group_settled m a local p p_is),
      )

  -- Merging a storage record and then a fetch from the group server, or the fetch and then the record, gives
  -- the same group, whatever is pending.
  pub merge_group-from_server :
      (server : ServerGroup Role Access ProfileKey Timer)
      (local : Group Role Access ProfileKey Timer) (remote : GroupV2Record)
      (pending : GroupPendingPublish)
      → merge_group_from_snapshot (from_server server (some local)) remote pending
        ≡ from_server server (some (merge_group_from_snapshot local remote pending))
  unfolding merge_group_from_snapshot from_server group_from
  merge_group-from_server server local remote pending = refl

  -- After a merge, the group differs from the snapshot in pending fields only: where muting is not pending it
  -- is the snapshot's, and where archiving is not it is the snapshot's; the pending ones are the stored group's.
  -- A second merge of the same snapshot changes nothing.
  pub merge_group-merge_group :
      (local : Group Role Access ProfileKey Timer) (remote : GroupV2Record)
      (pending : GroupPendingPublish)
      → ((merge_group_from_snapshot local remote pending).muted_until_timestamp
          ≡ (if pending.muted then local.muted_until_timestamp else remote.muted_until_timestamp))
        × ((merge_group_from_snapshot local remote pending).archived
            ≡ (if pending.archived then local.archived else remote.archived))
        × (merge_group_from_snapshot (merge_group_from_snapshot local remote pending) remote pending
            ≡ merge_group_from_snapshot local remote pending)
  unfolding merge_group_from_snapshot
  merge_group-merge_group local remote pending = (
    not_if pending.muted local.muted_until_timestamp remote.muted_until_timestamp,
    not_if pending.archived local.archived remote.archived,
    rw
        (
          twice pending.muted local.muted_until_timestamp remote.muted_until_timestamp,
          twice pending.archived local.archived remote.archived,
        )
        refl,
  )
    where
      not_if : {A : Type 0} (b : Bool) (x y : A) → (if not b then y else x) ≡ (if b then x else y)
      not_if true x y = refl
      not_if false x y = refl

      twice :
          {A : Type 0} (b : Bool) (x y : A)
          → (if not b then y else (if not b then y else x)) ≡ (if not b then y else x)
      twice true x y = refl
      twice false x y = refl
