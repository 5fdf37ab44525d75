-- ===== src/Groups/Pending.antt =====
-- presage/src/manager/storage.rs, `GroupPendingPublish`: which changes of a group are not yet published, and the
-- merge of a record that a sync reads.
use presage.Prelude.{
  ℕ, ◌==◌, List, Option, none, some, Bool, true, false, not, ◌||◌, differs, if◌then◌else◌, Result,
  ok, ok_unwrap_or, ◌>>=◌,
}
use presage.Wire.{EditError}
use presage.Record.{group_muted_until, set_group_muted_until, group_archived, set_group_archived}
use presage.Groups.{Group}

pub record GroupPendingPublish : Type 0 where
  pub muted : Bool
  pub archived : Bool

abbrev pub group_pending_none : GroupPendingPublish
group_pending_none = record { muted = false; archived = false }

abbrev pub group_pending_all : GroupPendingPublish
group_pending_all = record { muted = true; archived = true }

-- The fields of a `GroupV2Record` that the merge reads.
pub record GroupV2Record : Type 0 where
  pub blocked : Bool
  pub whitelisted : Bool
  pub archived : Bool
  pub marked_unread : Bool
  pub muted_until_timestamp : ℕ
  pub dont_notify_for_mentions_if_muted : Bool
  pub hide_story : Bool
  pub story_send_mode : ℕ

unfoldable pub group_any : GroupPendingPublish → Bool
group_any p = p.muted || p.archived

module _ {Role Access ProfileKey Timer : Type 0} where
  unfoldable pub group_diff :
      List ℕ → Group Role Access ProfileKey Timer → Result EditError GroupPendingPublish
  group_diff record' local = do
    muted_until ← group_muted_until record'
    is_archived ← group_archived record'
    ok (record {
      muted = not (muted_until == local.muted_until_timestamp);
      archived = differs is_archived local.archived;
    })

  unfoldable pub group_between :
      Group Role Access ProfileKey Timer → Group Role Access ProfileKey Timer → GroupPendingPublish
  group_between a b = record {
    muted = not (a.muted_until_timestamp == b.muted_until_timestamp);
    archived = differs a.archived b.archived;
  }

  unfoldable pub group_apply :
      GroupPendingPublish → List ℕ → Group Role Access ProfileKey Timer → Result EditError (List ℕ)
  group_apply pending record' local = do
    edited ←
        if pending.muted
        then set_group_muted_until record' local.muted_until_timestamp
        else ok record'
    if pending.archived then set_group_archived edited local.archived else ok edited

  -- `stored` is the record of the stored identity; none is no such record, or one that cannot be read.
  unfoldable pub group_pending_publish_intent :
      Option (List ℕ) → Group Role Access ProfileKey Timer → Bool → GroupPendingPublish
  group_pending_publish_intent stored local flagged =
      if not flagged then group_pending_none else elim stored [
        | some record' ↦ ok_unwrap_or (group_diff record' local) group_pending_all
        | none ↦ group_pending_all
      ]

  unfoldable pub merge_group_from_snapshot :
      Group Role Access ProfileKey Timer
      → GroupV2Record
      → GroupPendingPublish
      → Group Role Access ProfileKey Timer
  merge_group_from_snapshot existing remote pending = record existing {
    blocked = remote.blocked;
    whitelisted = remote.whitelisted;
    archived = if not pending.archived then remote.archived else existing.archived;
    marked_unread = remote.marked_unread;
    muted_until_timestamp =
        if not pending.muted then remote.muted_until_timestamp else existing.muted_until_timestamp;
    dont_notify_for_mentions_if_muted = remote.dont_notify_for_mentions_if_muted;
    hide_story = remote.hide_story;
    story_send_mode = remote.story_send_mode;
  }
