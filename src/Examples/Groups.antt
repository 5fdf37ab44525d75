-- ===== src/Examples/Groups.antt =====
-- presage/src/model/groups.rs and the groups' part of presage/src/manager/storage.rs on a group of two.
use presage.Prelude.{
  ℕ, ◌≢◌, List, [], ◌∷◌, Option, none, some, Bool, true, false, ok, ◌≡◌, refl, arith,
}
use presage.Record.{record_runs, group_archived, group_muted_until}
use presage.Groups.{
  Group, Member, ServiceId, Administrators, ServerGroup, is_member, is_pending, is_active,
  mark_left,
}
use presage.Groups.Pending.{
  GroupV2Record, GroupPendingPublish, group_pending_none, group_diff, group_apply,
}
use presage.Groups.Members.{mark_left-is_active}
use presage.Groups.Publish.{group_apply-group_diff}

-- Roles and access rules are truth values, true for the administrators'.
abbrev pub admin : Administrators Bool Bool
admin = record { role = true; is_role = λ r. r; is_access = λ a. a }

abbrev member : ℕ → Option (List ℕ) → Member Bool ℕ
member id label = record {
  aci = id;
  role = false;
  profile_key = 0;
  joined_at_revision = 1;
  label = label;
  label_emoji = none;
}

abbrev pub pair : Group Bool Bool ℕ ℕ
pair = record {
  title = some (65 ∷ []);
  avatar = none;
  disappearing_messages_timer = none;
  access_control = none;
  revision = 4;
  members = member 1 none ∷ member 2 (some (66 ∷ [])) ∷ [];
  pending_members = [];
  requesting_members = [];
  invite_link_password = [];
  description = none;
  announcements_only = false;
  needs_hydration = false;
  blocked = false;
  whitelisted = true;
  archived = true;
  marked_unread = false;
  muted_until_timestamp = 300;
  dont_notify_for_mentions_if_muted = false;
  hide_story = false;
  story_send_mode = 0;
}

abbrev left : Group Bool Bool ℕ ℕ
left = mark_left admin pair 1 (2 ∷ []) (some 5)

mark_left-is_active_example :
    (is_active left 1 ≡ false)
    × ((a : ℕ) → ◌≢◌ {A = ℕ} 1 a → is_member left a ≡ is_member pair a)
    × ((id : ServiceId) → ServiceId.aci_id 1 ≢ id → is_pending left id ≡ is_pending pair id)
mark_left-is_active_example = mark_left-is_active admin pair 1 (2 ∷ []) (some 5)

-- `StorageRecord { groupV2 { field 1: one byte } }`
abbrev plain_group : List ℕ
plain_group = 0x1a ∷ 3 ∷ 0x0a ∷ 1 ∷ 7 ∷ []

abbrev both : GroupPendingPublish
both = record { muted = true; archived = true }

diff-pair : group_diff plain_group pair ≡ ok both
unfolding record_runs group_diff group_muted_until group_archived
diff-pair = refl

group_apply-group_diff_example :
    (out : List ℕ) × (group_apply both plain_group pair ≡ ok out)
    × (group_diff out pair ≡ ok group_pending_none)
group_apply-group_diff_example =
    group_apply-group_diff plain_group pair both (omega arith) (omega arith) diff-pair

abbrev snapshot : GroupV2Record
snapshot = record {
  blocked = true;
  whitelisted = false;
  archived = false;
  marked_unread = true;
  muted_until_timestamp = 0;
  dont_notify_for_mentions_if_muted = false;
  hide_story = false;
  story_send_mode = 1;
}

abbrev server : ServerGroup Bool Bool ℕ ℕ
server = record {
  title = 67 ∷ [];
  avatar = [];
  disappearing_messages_timer = none;
  access_control = none;
  version = 6;
  members = [];
  members_pending_profile_key = [];
  members_pending_admin_approval = [];
  invite_link_password = [];
  description_text = none;
  announcements_only = true;
}

abbrev muted_only : GroupPendingPublish
muted_only = record { muted = true; archived = false }
