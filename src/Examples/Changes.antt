-- ===== src/Examples/Changes.antt =====
-- A group server that is one revision ahead of what the device has stored, so that the first change is refused.
use presage.Prelude.{
  ℕ, ◌+◌, ◌≤◌, ◌==◌, [], ◌∷◌, none, some, Bool, false, if◌then◌else◌, Result, ok, err, ◌≡◌, refl,
  arith, ok_same,
}
use presage.Prelude.Steps.{done}
use presage.Groups.{from_server, Group, ServerGroup, is_pending, is_member}
use presage.Changes.Built.{
  ServiceError, ChangeError, GroupOperations, default_actions, leave_actions,
}
use presage.Changes.{
  GroupServices, GroupContext, leave_orphans_the_group, apply_group_change, leave_group,
  group_update_conflict_retries,
}
use presage.Changes.Rounds.{CountsPatches, AppliesChanges, apply_group_change-within}
use presage.Changes.Fetched.{
  upsert_group, load_group, refresh_group, fetch_and_store_group, ReadsGroups, upsert_group-stored,
}
use presage.Changes.Leave.{KeepsGroups, Left, leave_group-Left}
use presage.Examples.Groups.{admin, pair}

-- The stored group, the server's revision, and the changes that were sent.
record Devices : Type 0 where
  pub stored : Group Bool Bool ℕ ℕ
  pub revision : ℕ
  pub sent : ℕ

abbrev server_group : ℕ → ServerGroup Bool Bool ℕ ℕ
server_group revision = record {
  title = [];
  avatar = [];
  disappearing_messages_timer = none;
  access_control = none;
  version = revision;
  members = [];
  members_pending_profile_key = [];
  members_pending_admin_approval = [];
  invite_link_password = [];
  description_text = none;
  announcements_only = false;
}

abbrev is_next : Devices → ℕ → Bool
is_next w version = version == w.revision + 1

abbrev answer_patch : Devices → ℕ → Result (ServiceError ℕ) ℕ
answer_patch w version =
    if is_next w version then ok version else err ServiceError.group_change_conflict

abbrev services : GroupServices Devices ℕ Bool Bool ℕ ℕ ℕ ℕ
services = record {
  groups_manager = done tt;
  patch_group = λ key actions w. (
    answer_patch w actions.version,
    record w {
      sent = w.sent + 1;
      revision = if is_next w actions.version then actions.version else w.revision;
    },
  );
  fetch_group = λ key w. (ok (server_group w.revision), w);
  get_authorization_for_today = λ key. done tt;
  group = λ key w. (ok (some w.stored), w);
  save_group = λ key g w. (ok tt, record w { stored = g });
  member_profile_key_credential = λ id w. (none, w);
}

-- An action is the number of the account that it is about.
abbrev operations : GroupOperations Devices ℕ Bool ℕ ℕ
operations = record {
  build_modify_title_action = λ t. done 0;
  build_modify_description_action = λ d. done 0;
  build_modify_disappearing_messages_timer_action = λ t. done t;
  build_modify_attributes_access_action = λ a. 0;
  build_modify_members_access_action = λ a. 0;
  build_modify_member_label_access_action = λ a. 0;
  build_modify_member_label_action = λ aci l e. done aci;
  build_modify_announcements_only_action = λ b. 0;
  build_add_member_action_with_credential = λ c r. c;
  build_add_pending_member_action = λ id aci r. ok aci;
  build_remove_member_action = λ aci. ok aci;
  build_remove_pending_member_action = λ id. ok 0;
  build_modify_member_role_action = λ aci r. ok aci;
}

services-CountsPatches : CountsPatches services (λ w. w.sent)
services-CountsPatches = record {
  patched = λ key actions w. refl;
  managed = λ w. refl;
  fetched = λ key w. refl;
}

applied :
    (w : Devices) (version change : ℕ)
    → answer_patch w version ≡ ok change
    → (if is_next w version then version else w.revision) ≡ version
applied w version change h = ground arith

services-AppliesChanges : AppliesChanges services (λ w. w.revision)
services-AppliesChanges = record { applied = λ key actions w h. applied w actions.version _ h }

services-KeepsGroups : KeepsGroups services (λ w key. some w.stored) (λ w. w.revision)
services-KeepsGroups = record {
  group_read = λ key w h. ok_same refl h;
  group_saved = λ key g w h. (refl, refl);
}

-- The pair is stored at revision 4, and the server has revision 5.
abbrev behind : Devices
behind = record { stored = pair; revision = 5; sent = 0 }

abbrev context : GroupContext ℕ
context = record { master_key = 9 ∷ []; revision = 6; group_change = 6 }

-- The first change is refused, the second is taken.
leave_group-twice :
    ((leave_group services admin operations false 1 (9 ∷ []) (2 ∷ []) behind).0 ≡ ok context)
    × ((leave_group services admin operations false 1 (9 ∷ []) (2 ∷ []) behind).1.sent ≡ 2)
unfolding leave_group apply_group_change leave_actions leave_orphans_the_group is_pending is_member
leave_group-twice = (refl, refl)

-- The last administrator of the pair may not leave it without naming another.
leave_group-refused :
    (leave_group services admin operations false 1 (9 ∷ []) [] behind).0
    ≡ err ChangeError.last_admin_must_promote
unfolding leave_group leave_orphans_the_group is_pending is_member
leave_group-refused = refl

leave_group-Left_example :
    (local : Group Bool Bool ℕ ℕ) × (some pair ≡ some local)
    × Left admin 1
        (λ (w : Devices) key. some w.stored)
        (λ w. w.revision)
        local
        (leave_group services admin operations false 1 (9 ∷ []) (2 ∷ []) behind).1
        (9 ∷ [])
leave_group-Left_example =
    leave_group-Left services admin refl operations false 1 (λ w key. some w.stored)
      (λ w. w.revision) services-KeepsGroups services-AppliesChanges (9 ∷ []) (2 ∷ []) behind
      leave_group-twice.0

apply_group_change-within_example :
    (apply_group_change services admin
      (9 ∷ [])
      4
      (λ version. done (default_actions version))
      behind).1.sent
    ≤ 0 + (group_update_conflict_retries + 1)
apply_group_change-within_example =
    apply_group_change-within services admin (λ w. w.sent) services-CountsPatches
      (λ version. done (default_actions version)) (λ version w. refl) (9 ∷ []) 4 behind

services-ReadsGroups : ReadsGroups services admin (λ w key. some w.stored)
services-ReadsGroups = record {
  read = λ key w. refl;
  read_only = λ key w. refl;
  authorized = λ key w. refl;
  fetched = λ key w. refl;
}

abbrev refreshed : Group Bool Bool ℕ ℕ
refreshed = from_server (server_group 5) (some pair)

-- Revision 5 is asked for, and 4 is stored.
upsert_group-refreshed : (upsert_group services admin (9 ∷ []) 5 1 behind).0 ≡ ok (some refreshed)
unfolding upsert_group load_group refresh_group fetch_and_store_group
upsert_group-refreshed = refl

upsert_group-stored_example :
    some refreshed ≡ some (upsert_group services admin (9 ∷ []) 5 1 behind).1.stored
upsert_group-stored_example =
    upsert_group-stored services admin (λ w key. some w.stored) services-ReadsGroups (9 ∷ []) 1 5
      behind upsert_group-refreshed
