-- ===== src/Changes/Built.antt =====
-- presage/src/manager/registered.rs and presage/src/model/groups.rs, what a change of a group carries and the
-- actions that are built for it.
use presage.Prelude.{
  ℕ, List, [], ◌∷◌, ◌++◌, Option, none, some, is_some, Bool, true, false, not, ◌&&◌, Result,
}
use presage.Prelude.Steps.{Step, done, lift, ◌>>=◌}
use presage.Publish.{is_empty}
use presage.Groups.{GroupAccess, ServiceId}

-- `ServiceError`, whose other variants are one
pub data ServiceError (E : Type 0) : Type 0 where
  unauthorized not_found_error group_change_conflict : ServiceError E
  other_error : E → ServiceError E

-- The variants of `Error` that a change ends in.
pub data ChangeError (E : Type 0) : Type 0 where
  empty_group_update empty_group_members_update unknown_group not_a_group_member
        last_admin_must_promote :
      ChangeError E
  service_error : ServiceError E → ChangeError E
  store_error : E → ChangeError E

pub record GroupUpdate : Type 0 where
  pub title : Option (List ℕ)
  pub description : Option (List ℕ)
  pub expire_timer_seconds : Option ℕ
  pub attributes_access : Option GroupAccess
  pub members_access : Option GroupAccess
  pub member_label_access : Option GroupAccess
  pub announcements_only : Option Bool

abbrev pub group_update_is_empty : GroupUpdate → Bool
group_update_is_empty u =
    not (is_some u.title)
    && not (is_some u.description)
    && not (is_some u.expire_timer_seconds)
    && not (is_some u.attributes_access)
    && not (is_some u.members_access)
    && not (is_some u.member_label_access)
    && not (is_some u.announcements_only)

pub record GroupMembersUpdate : Type 0 where
  pub add : List ServiceId
  pub remove : List ℕ
  pub remove_pending : List ServiceId
  pub promote : List ℕ
  pub demote : List ℕ

abbrev pub group_members_update_is_empty : GroupMembersUpdate → Bool
group_members_update_is_empty u =
    is_empty u.add
    && is_empty u.remove
    && is_empty u.remove_pending
    && is_empty u.promote
    && is_empty u.demote

pub record GroupMemberCandidate (Credential : Type 0) : Type 0 where
  pub service_id : ServiceId
  pub credential : Option Credential

-- `group_change::Actions`, of which an action is what libsignal builds.
pub record Actions (Action : Type 0) : Type 0 where
  pub version : ℕ
  pub modify_title : Option Action
  pub modify_description : Option Action
  pub modify_disappearing_message_timer : Option Action
  pub modify_attributes_access : Option Action
  pub modify_member_access : Option Action
  pub modify_member_label_access : Option Action
  pub modify_member_labels : List Action
  pub modify_announcements_only : Option Action
  pub add_members : List Action
  pub add_members_pending_profile_key : List Action
  pub delete_members : List Action
  pub delete_members_pending_profile_key : List Action
  pub modify_member_roles : List Action

-- `Actions { version, ..Default::default() }`
abbrev pub default_actions : {Action : Type 0} → ℕ → Actions Action
default_actions version = record {
  version = version;
  modify_title = none;
  modify_description = none;
  modify_disappearing_message_timer = none;
  modify_attributes_access = none;
  modify_member_access = none;
  modify_member_label_access = none;
  modify_member_labels = [];
  modify_announcements_only = none;
  add_members = [];
  add_members_pending_profile_key = [];
  delete_members = [];
  delete_members_pending_profile_key = [];
  modify_member_roles = [];
}

-- libsignal's `GroupOperations`; what draws random bytes draws them from the world.
pub record GroupOperations (W E Role Credential Action : Type 0) : Type 0 where
  pub build_modify_title_action : List ℕ → Step W (ChangeError E) Action
  pub build_modify_description_action : List ℕ → Step W (ChangeError E) Action
  pub build_modify_disappearing_messages_timer_action : ℕ → Step W (ChangeError E) Action
  pub build_modify_attributes_access_action : GroupAccess → Action
  pub build_modify_members_access_action : GroupAccess → Action
  pub build_modify_member_label_access_action : GroupAccess → Action
  pub build_modify_member_label_action :
      ℕ → Option (List ℕ) → Option (List ℕ) → Step W (ChangeError E) Action
  pub build_modify_announcements_only_action : Bool → Action
  pub build_add_member_action_with_credential : Credential → Role → Action
  pub build_add_pending_member_action : ServiceId → ℕ → Role → Result (ChangeError E) Action
  pub build_remove_member_action : ℕ → Result (ChangeError E) Action
  pub build_remove_pending_member_action : ServiceId → Result (ChangeError E) Action
  pub build_modify_member_role_action : ℕ → Role → Result (ChangeError E) Action

-- `update.x.map(..)` for an action that draws random bytes, and for one that does not.
abbrev pub built :
    {W E A Action : Type 0}
    → (A → Step W (ChangeError E) Action)
    → Option A
    → Step W (ChangeError E) (Option Action)
built build none = done none
built build (some a) = do action ← build a; done (some action)

abbrev pub built_plainly : {A Action : Type 0} → (A → Action) → Option A → Option Action
built_plainly build none = none
built_plainly build (some a) = some (build a)

abbrev pub built_each :
    {W E A Action : Type 0}
    → (A → Step W (ChangeError E) Action)
    → List A
    → Step W (ChangeError E) (List Action)
built_each build [] = done []
built_each build (a ∷ rest) = do
  action ← build a
  actions ← built_each build rest
  done (action ∷ actions)

-- `for a in list { actions.x.push(build(a)?) }`
abbrev pub push_each :
    {W E A Action : Type 0}
    → (A → Result (ChangeError E) Action)
    → (Action → Actions Action → Actions Action)
    → List A
    → Actions Action
    → Step W (ChangeError E) (Actions Action)
push_each build push [] actions = done actions
push_each build push (a ∷ rest) actions = do
  action ← lift (build a)
  push_each build push rest (push action actions)

abbrev pub push_add_member : {Action : Type 0} → Action → Actions Action → Actions Action
push_add_member a actions = record actions { add_members = actions.add_members ++ a ∷ [] }

abbrev pub push_add_pending : {Action : Type 0} → Action → Actions Action → Actions Action
push_add_pending a actions = record actions {
  add_members_pending_profile_key = actions.add_members_pending_profile_key ++ a ∷ [];
}

abbrev pub push_delete_member : {Action : Type 0} → Action → Actions Action → Actions Action
push_delete_member a actions = record actions { delete_members = actions.delete_members ++ a ∷ [] }

abbrev pub push_delete_pending : {Action : Type 0} → Action → Actions Action → Actions Action
push_delete_pending a actions = record actions {
  delete_members_pending_profile_key = actions.delete_members_pending_profile_key ++ a ∷ [];
}

abbrev pub push_role : {Action : Type 0} → Action → Actions Action → Actions Action
push_role a actions = record actions { modify_member_roles = actions.modify_member_roles ++ a ∷ [] }

module _ {W E Role Credential Action : Type 0}
    (operations : GroupOperations W E Role Credential Action) where
  unfoldable pub group_update_actions :
      List ℕ → GroupUpdate → ℕ → Step W (ChangeError E) (Actions Action)
  group_update_actions clearing_labels update version = do
    title ← built operations.build_modify_title_action update.title
    description ← built operations.build_modify_description_action update.description
    timer ←
        built operations.build_modify_disappearing_messages_timer_action update.expire_timer_seconds
    labels ←
        built_each (λ aci. operations.build_modify_member_label_action aci none none)
          clearing_labels
    done (record (default_actions version) {
      modify_title = title;
      modify_description = description;
      modify_disappearing_message_timer = timer;
      modify_attributes_access =
          built_plainly operations.build_modify_attributes_access_action update.attributes_access;
      modify_member_access =
          built_plainly operations.build_modify_members_access_action update.members_access;
      modify_member_label_access =
          built_plainly operations.build_modify_member_label_access_action
            update.member_label_access;
      modify_member_labels = labels;
      modify_announcements_only =
          built_plainly operations.build_modify_announcements_only_action update.announcements_only;
    })

  module _ (default_role administrator : Role) where
    abbrev pub push_candidate :
        ℕ → ServiceId → Option Credential → Actions Action → Step W (ChangeError E) (Actions Action)
    push_candidate self_aci id (some credential) actions = done (
        push_add_member (operations.build_add_member_action_with_credential credential default_role)
          actions)
    push_candidate self_aci id none actions = do
      action ← lift (operations.build_add_pending_member_action id self_aci default_role)
      done (push_add_pending action actions)

    abbrev pub push_candidates :
        ℕ
        → List (GroupMemberCandidate Credential)
        → Actions Action
        → Step W (ChangeError E) (Actions Action)
    push_candidates self_aci [] actions = done actions
    push_candidates self_aci (c ∷ cs) actions = do
      actions' ← push_candidate self_aci c.service_id c.credential actions
      push_candidates self_aci cs actions'

    unfoldable pub group_members_actions :
        ℕ
        → List (GroupMemberCandidate Credential)
        → GroupMembersUpdate
        → ℕ
        → Step W (ChangeError E) (Actions Action)
    group_members_actions self_aci candidates update version = do
      added ← push_candidates self_aci candidates (default_actions version)
      removed ←
          push_each operations.build_remove_member_action push_delete_member update.remove added
      withdrawn ←
          push_each operations.build_remove_pending_member_action push_delete_pending
            update.remove_pending removed
      promoted ←
          push_each (λ aci. operations.build_modify_member_role_action aci administrator) push_role
            update.promote withdrawn
      push_each (λ aci. operations.build_modify_member_role_action aci default_role) push_role
          update.demote promoted

    unfoldable pub leave_actions : ℕ → Bool → List ℕ → ℕ → Step W (ChangeError E) (Actions Action)
    leave_actions self_aci true promote_to_admin version = do
      action ← lift (operations.build_remove_pending_member_action (ServiceId.aci_id self_aci))
      done (push_delete_pending action (default_actions version))
    leave_actions self_aci false promote_to_admin version = do
      promoted ←
          push_each (λ aci. operations.build_modify_member_role_action aci administrator) push_role
            promote_to_admin (default_actions version)
      action ← lift (operations.build_remove_member_action self_aci)
      done (push_delete_member action promoted)
