-- ===== src/Changes.antt =====
-- presage/src/manager/registered.rs, the changes of a group: its attributes, its members and leaving it, built against
-- the stored revision, sent to the group server and built again when another client came first.
pub mod Built
pub mod Fetched
pub mod Rounds
pub mod Leave
use presage.Prelude.{
  ℕ, zero, suc, ◌+◌, ◌%◌, ◌^◌, ◌==◌, List, [], ◌∷◌, ◌++◌, Option, none, some, is_some, Bool, true,
  false, not, ◌&&◌, ◌||◌, if◌then◌else◌, any, retain, leb, Result, ok, err, ok_or,
}
use presage.Prelude.Steps.{Step, continue, done, fail, lift, run_total, ◌>>=◌, ◌>>◌}
use presage.Publish.{is_empty}
use presage.Groups.{
  Group, ServerGroup, GroupAccess, ServiceId, Administrators, same_service_id, is_member,
  is_pending, members_losing_labels, mark_left, mark_denied, from_server,
}
use presage.Changes.Built.{
  Actions, ChangeError, GroupMemberCandidate, GroupMembersUpdate, GroupOperations, GroupUpdate,
  ServiceError, group_members_actions, group_members_update_is_empty, group_update_actions,
  group_update_is_empty, leave_actions,
}

unfoldable pub leave_orphans_the_group :
    {Role Access ProfileKey Timer : Type 0}
    → Administrators Role Access
    → Group Role Access ProfileKey Timer
    → ℕ
    → List ℕ
    → Bool
leave_orphans_the_group admin group self_aci promote_to_admin =
    let others = retain (λ m. not (m.aci == self_aci)) group.members in
    not (is_empty others)
    && not (any (λ m. admin.is_role m.role || any (λ a. a == m.aci) promote_to_admin) others)

-- What a change calls: the group server through libsignal's manager, and the store.
pub record GroupServices (W E Role Access ProfileKey Credential Action Change : Type 0)
    : Type 0 where
  pub groups_manager : Step W (ChangeError E) (Unit {0})
  pub patch_group : List ℕ → Actions Action → W → Result (ServiceError E) Change × W
  pub fetch_group : List ℕ → Step W (ChangeError E) (ServerGroup Role Access ProfileKey ℕ)
  pub get_authorization_for_today : List ℕ → Step W (ChangeError E) (Unit {0})
  pub group : List ℕ → Step W (ChangeError E) (Option (Group Role Access ProfileKey ℕ))
  pub save_group : List ℕ → Group Role Access ProfileKey ℕ → Step W (ChangeError E) (Unit {0})
  pub member_profile_key_credential : ServiceId → W → Option Credential × W

-- `GroupContextV2`, with the change as the server signed it
pub record GroupContext (Change : Type 0) : Type 0 where
  pub master_key : List ℕ
  pub revision : ℕ
  pub group_change : Change

abbrev pub group_update_conflict_retries : ℕ
group_update_conflict_retries = 3

module _ {W E Role Access ProfileKey Credential Action Change : Type 0}
    (services : GroupServices W E Role Access ProfileKey Credential Action Change)
    (admin : Administrators Role Access) where
  abbrev pub change_stored_group : List ℕ → Step W (ChangeError E) (Group Role Access ProfileKey ℕ)
  change_stored_group master_key = do
    group ← services.group master_key
    lift (ok_or group ChangeError.unknown_group)

  -- The answer to one attempt: what is left to do after a conflict is passed in.
  abbrev pub after_patch :
      Step W (ChangeError E) (Change × ℕ)
      → ℕ
      → Result (ServiceError E) Change
      → Step W (ChangeError E) (Change × ℕ)
  after_patch again version (ok change) = done (change, version)
  after_patch again version (err ServiceError.group_change_conflict) = again
  after_patch again version (err ServiceError.unauthorized) =
      fail (ChangeError.service_error ServiceError.unauthorized)
  after_patch again version (err ServiceError.not_found_error) =
      fail (ChangeError.service_error ServiceError.not_found_error)
  after_patch again version (err (ServiceError.other_error e)) =
      fail (ChangeError.service_error (ServiceError.other_error e))

  abbrev pub attempt_change :
      List ℕ
      → (ℕ → Step W (ChangeError E) (Actions Action))
      → Step W (ChangeError E) (Change × ℕ)
      → ℕ
      → Step W (ChangeError E) (Change × ℕ)
  attempt_change master_key build again revision = do
    let version = (revision + 1) % 2 ^ 32
    actions ← build version
    answer ← run_total (services.patch_group master_key actions)
    after_patch again version answer

  -- The `loop`, on the conflicts that are still borne.
  abbrev pub change_rounds :
      ℕ
      → List ℕ
      → (ℕ → Step W (ChangeError E) (Actions Action))
      → ℕ
      → Step W (ChangeError E) (Change × ℕ)
  change_rounds zero master_key build revision =
      attempt_change master_key build
        (fail (ChangeError.service_error ServiceError.group_change_conflict)) revision
  change_rounds (suc conflicts) master_key build revision =
      attempt_change master_key build
        (services.fetch_group master_key >>= λ server.
          change_rounds conflicts master_key build server.version)
        revision

  unfoldable pub apply_group_change :
      List ℕ
      → ℕ
      → (ℕ → Step W (ChangeError E) (Actions Action))
      → Step W (ChangeError E) (GroupContext Change)
  apply_group_change master_key stored_revision build = do
    services.groups_manager
    applied ← change_rounds group_update_conflict_retries master_key build stored_revision
    done (record { master_key = master_key; revision = applied.1; group_change = applied.0 })

  unfoldable pub save_group_from_server :
      List ℕ → Group Role Access ProfileKey ℕ → Step W (ChangeError E) (Unit {0})
  save_group_from_server master_key local = do
    services.groups_manager
    server ← services.fetch_group master_key
    services.save_group master_key (from_server server (some local))

  -- `.map(|access| local.members_losing_labels(access)).unwrap_or_default()`
  abbrev pub clearing : Group Role Access ProfileKey ℕ → Option GroupAccess → List ℕ
  clearing local none = []
  clearing local (some access) = members_losing_labels admin local access

  module _ (operations : GroupOperations W E Role Credential Action) where
    abbrev pub update_stored_group :
        List ℕ
        → GroupUpdate
        → Group Role Access ProfileKey ℕ
        → Step W (ChangeError E) (GroupContext Change)
    update_stored_group master_key update local = do
      context ←
          apply_group_change master_key local.revision
            (group_update_actions operations (clearing local update.member_label_access) update)
      save_group_from_server master_key local
      done context

    unfoldable pub update_group :
        List ℕ → GroupUpdate → Step W (ChangeError E) (GroupContext Change)
    update_group master_key update =
        if group_update_is_empty update
        then fail ChangeError.empty_group_update
        else (change_stored_group master_key >>= update_stored_group master_key update)

    module _ (default_role : Role) (self_aci : ℕ) where
      -- `id.aci().is_none_or(|aci| !local.is_member(aci))`
      abbrev pub no_member : Group Role Access ProfileKey ℕ → ServiceId → Bool
      no_member local (ServiceId.aci_id aci) = not (is_member local aci)
      no_member local (ServiceId.pni_id pni) = true

      abbrev pub addable : Group Role Access ProfileKey ℕ → ServiceId → Bool
      addable local id =
          not (same_service_id id (ServiceId.aci_id self_aci))
          && not (is_pending local id)
          && no_member local id

      abbrev pub with_addable :
          Group Role Access ProfileKey ℕ → GroupMembersUpdate → GroupMembersUpdate
      with_addable local update = record update { add = retain (addable local) update.add }

      abbrev pub group_member_candidates :
          List ServiceId → Step W (ChangeError E) (List (GroupMemberCandidate Credential))
      group_member_candidates [] = done []
      group_member_candidates (id ∷ ids) = do
        credential ← run_total (services.member_profile_key_credential id)
        candidates ← group_member_candidates ids
        done (record { service_id = id; credential = credential } ∷ candidates)

      abbrev pub send_members_update :
          List ℕ
          → Group Role Access ProfileKey ℕ
          → GroupMembersUpdate
          → Step W (ChangeError E) (GroupContext Change)
      send_members_update master_key local update = do
        candidates ← group_member_candidates update.add
        context ←
            apply_group_change master_key local.revision
              (group_members_actions operations default_role admin.role self_aci candidates update)
        save_group_from_server master_key local
        done context

      abbrev pub update_stored_members :
          List ℕ
          → GroupMembersUpdate
          → Group Role Access ProfileKey ℕ
          → Step W (ChangeError E) (GroupContext Change)
      update_stored_members master_key update local =
          if not (is_member local self_aci)
          then fail ChangeError.not_a_group_member
          else if group_members_update_is_empty (with_addable local update)
          then fail ChangeError.empty_group_members_update
          else send_members_update master_key local (with_addable local update)

      unfoldable pub update_group_members :
          List ℕ → GroupMembersUpdate → Step W (ChangeError E) (GroupContext Change)
      update_group_members master_key update =
          change_stored_group master_key >>= update_stored_members master_key update

      abbrev pub leave_and_save :
          List ℕ
          → List ℕ
          → Group Role Access ProfileKey ℕ
          → Step W (ChangeError E) (GroupContext Change)
      leave_and_save master_key promote_to_admin local = do
        context ← apply_group_change master_key local.revision (
            leave_actions operations default_role admin.role self_aci
              (is_pending local (ServiceId.aci_id self_aci)) promote_to_admin)
        services.save_group master_key
            (mark_left admin local self_aci promote_to_admin (some context.revision))
        done context

      abbrev pub leave_stored_group :
          List ℕ
          → List ℕ
          → Group Role Access ProfileKey ℕ
          → Step W (ChangeError E) (GroupContext Change)
      leave_stored_group master_key promote_to_admin local =
          let pending_self = is_pending local (ServiceId.aci_id self_aci) in
          if not pending_self && not (is_member local self_aci)
          then fail ChangeError.not_a_group_member
          else if not pending_self && leave_orphans_the_group admin local self_aci promote_to_admin
          then fail ChangeError.last_admin_must_promote
          else leave_and_save master_key promote_to_admin local

      unfoldable pub leave_group : List ℕ → List ℕ → Step W (ChangeError E) (GroupContext Change)
      leave_group master_key promote_to_admin =
          change_stored_group master_key >>= leave_stored_group master_key promote_to_admin
