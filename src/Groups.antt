-- ===== src/Groups.antt =====
-- presage/src/model/groups.rs, and the groups' part of presage/src/manager/storage.rs. A UUID is a number, a
-- string or a byte vector a list of bytes; the access and role enumerations, the profile key and the timer are
-- types of libsignal.
pub mod Members
pub mod Pending
pub mod Publish
use presage.Prelude.{
  ℕ, ◌==◌, List, [], ◌∷◌, Option, none, some, is_some, Bool, true, false, not, ◌&&◌, ◌||◌, differs,
  if◌then◌else◌, any, map, retain, Result, ok, err, ok_unwrap_or, ◌>>=◌,
}
use mathlib.Core.Option
use presage.Wire.{EditError}
use presage.Record.{group_muted_until, set_group_muted_until, group_archived, set_group_archived}
use presage.Publish.{is_empty}

pub record AccessControl (Access : Type 0) : Type 0 where
  pub attributes : Access
  pub members : Access
  pub add_from_invite_link : Access
  pub member_label : Access

pub data GroupAccess : Type 0 where
  members administrators : GroupAccess

-- presage/src/model/mod.rs
pub data ServiceIdType : Type 0 where
  account_identity phone_number_identity : ServiceIdType

-- libsignal's service id: an account's or a phone number's UUID.
pub data ServiceId : Type 0 where
  aci_id pni_id : ℕ → ServiceId

abbrev pub same_service_id : ServiceId → ServiceId → Bool
same_service_id (ServiceId.aci_id a) (ServiceId.aci_id b) = a == b
same_service_id (ServiceId.pni_id a) (ServiceId.pni_id b) = a == b
same_service_id _ _ = false

pub record Member (Role ProfileKey : Type 0) : Type 0 where
  pub aci : ℕ
  pub role : Role
  pub profile_key : ProfileKey
  pub joined_at_revision : ℕ
  pub label : Option (List ℕ)
  pub label_emoji : Option (List ℕ)

pub record PendingMember (Role : Type 0) : Type 0 where
  pub uuid : ℕ
  pub service_id_type : ServiceIdType
  pub role : Role
  pub added_by_aci : ℕ
  pub timestamp : ℕ

pub record RequestingMember (ProfileKey : Type 0) : Type 0 where
  pub aci : ℕ
  pub profile_key : ProfileKey
  pub timestamp : ℕ

pub record Group (Role Access ProfileKey Timer : Type 0) : Type 0 where
  pub title : Option (List ℕ)
  pub avatar : Option (List ℕ)
  pub disappearing_messages_timer : Option Timer
  pub access_control : Option (AccessControl Access)
  pub revision : ℕ
  pub members : List (Member Role ProfileKey)
  pub pending_members : List (PendingMember Role)
  pub requesting_members : List (RequestingMember ProfileKey)
  pub invite_link_password : List ℕ
  pub description : Option (List ℕ)
  pub announcements_only : Bool
  pub needs_hydration : Bool
  pub blocked : Bool
  pub whitelisted : Bool
  pub archived : Bool
  pub marked_unread : Bool
  pub muted_until_timestamp : ℕ
  pub dont_notify_for_mentions_if_muted : Bool
  pub hide_story : Bool
  -- A code, copied only.
  pub story_send_mode : ℕ

-- libsignal's group as the server sends it.
pub record ServerMember (Role ProfileKey : Type 0) : Type 0 where
  pub aci : ℕ
  pub role : Role
  pub profile_key : ProfileKey
  pub joined_at_version : ℕ
  pub label : Option (List ℕ)
  pub label_emoji : Option (List ℕ)

pub record ServerPendingMember (Role : Type 0) : Type 0 where
  pub address : ServiceId
  pub role : Role
  pub added_by_aci : ℕ
  pub timestamp : ℕ

pub record ServerGroup (Role Access ProfileKey Timer : Type 0) : Type 0 where
  pub title : List ℕ
  pub avatar : List ℕ
  pub disappearing_messages_timer : Option Timer
  pub access_control : Option (AccessControl Access)
  pub version : ℕ
  pub members : List (ServerMember Role ProfileKey)
  pub members_pending_profile_key : List (ServerPendingMember Role)
  pub members_pending_admin_approval : List (RequestingMember ProfileKey)
  pub invite_link_password : List ℕ
  pub description_text : Option (List ℕ)
  pub announcements_only : Bool

-- `PendingMember::service_id`
abbrev pub id_of : ServiceIdType → ℕ → ServiceId
id_of ServiceIdType.account_identity uuid = ServiceId.aci_id uuid
id_of ServiceIdType.phone_number_identity uuid = ServiceId.pni_id uuid

abbrev pub service_id_of : {Role : Type 0} → PendingMember Role → ServiceId
service_id_of p = id_of p.service_id_type p.uuid

-- What the code asks of the role and access enumerations: their administrator, and whether one is it.
pub record Administrators (Role Access : Type 0) : Type 0 where
  pub role : Role
  pub is_role : Role → Bool
  pub is_access : Access → Bool

abbrev pub is_administrators : GroupAccess → Bool
is_administrators GroupAccess.members = false
is_administrators GroupAccess.administrators = true

-- `is_some_and(..)`
abbrev pub restricted :
    {Role Access : Type 0} → Administrators Role Access → Option (AccessControl Access) → Bool
restricted admin none = false
restricted admin (some ac) = admin.is_access ac.member_label

-- The body of the `for`.
abbrev pub promote :
    {Role Access ProfileKey : Type 0}
    → Administrators Role Access
    → List ℕ
    → Member Role ProfileKey
    → Member Role ProfileKey
promote admin promoted m = record m {
  role = if any (λ a. a == m.aci) promoted then admin.role else m.role;
}

abbrev pub revision_or : Option ℕ → ℕ → ℕ
revision_or none revision = revision
revision_or (some new_revision) revision = new_revision

-- The `From` of a member, a pending member and a group.
abbrev pub member_from :
    {Role ProfileKey : Type 0} → ServerMember Role ProfileKey → Member Role ProfileKey
member_from val = record {
  aci = val.aci;
  role = val.role;
  profile_key = val.profile_key;
  joined_at_revision = val.joined_at_version;
  label = val.label;
  label_emoji = val.label_emoji;
}

abbrev pub kind_of : ServiceId → ServiceIdType
kind_of (ServiceId.aci_id uuid) = ServiceIdType.account_identity
kind_of (ServiceId.pni_id uuid) = ServiceIdType.phone_number_identity

abbrev pub raw_uuid : ServiceId → ℕ
raw_uuid (ServiceId.aci_id uuid) = uuid
raw_uuid (ServiceId.pni_id uuid) = uuid

abbrev pub pending_member_from : {Role : Type 0} → ServerPendingMember Role → PendingMember Role
pending_member_from val = record {
  uuid = raw_uuid val.address;
  service_id_type = kind_of val.address;
  role = val.role;
  added_by_aci = val.added_by_aci;
  timestamp = val.timestamp;
}

module _ {Role Access ProfileKey Timer : Type 0} where
  unfoldable pub is_member : Group Role Access ProfileKey Timer → ℕ → Bool
  is_member group aci = any (λ m. m.aci == aci) group.members

  unfoldable pub is_pending : Group Role Access ProfileKey Timer → ServiceId → Bool
  is_pending group id = any (λ p. same_service_id (service_id_of p) id) group.pending_members

  unfoldable pub is_active : Group Role Access ProfileKey Timer → ℕ → Bool
  is_active group self_aci =
      is_member group self_aci || is_pending group (ServiceId.aci_id self_aci)

  unfoldable pub members_losing_labels :
      Administrators Role Access → Group Role Access ProfileKey Timer → GroupAccess → List ℕ
  members_losing_labels admin group new_access =
      let already_restricted = restricted admin group.access_control in
      if not (is_administrators new_access) || already_restricted
      then []
      else map (λ m. m.aci)
          (retain (λ m. is_some m.label || is_some m.label_emoji)
            (retain (λ m. not (admin.is_role m.role)) group.members))

  unfoldable pub mark_left :
      Administrators Role Access
      → Group Role Access ProfileKey Timer
      → ℕ
      → List ℕ
      → Option ℕ
      → Group Role Access ProfileKey Timer
  mark_left admin group self_aci promoted revision = record group {
    members = map (promote admin promoted) (retain (λ m. not (m.aci == self_aci)) group.members);
    pending_members =
        retain (λ p. not (same_service_id (service_id_of p) (ServiceId.aci_id self_aci)))
          group.pending_members;
    revision = revision_or revision group.revision;
  }

  unfoldable pub mark_denied :
      Administrators Role Access
      → Group Role Access ProfileKey Timer
      → ℕ
      → Group Role Access ProfileKey Timer
  unfolding mark_left
  mark_denied admin group self_aci = record (mark_left admin group self_aci [] none) {
    needs_hydration = false;
  }

  unfoldable pub group_from :
      ServerGroup Role Access ProfileKey Timer → Group Role Access ProfileKey Timer
  group_from val = record {
    title = some val.title;
    avatar = if is_empty val.avatar then none else some val.avatar;
    disappearing_messages_timer = val.disappearing_messages_timer;
    access_control = val.access_control;
    revision = val.version;
    members = map member_from val.members;
    pending_members = map pending_member_from val.members_pending_profile_key;
    requesting_members = val.members_pending_admin_approval;
    invite_link_password = val.invite_link_password;
    description = val.description_text;
    announcements_only = val.announcements_only;
    needs_hydration = false;
    blocked = false;
    whitelisted = false;
    archived = false;
    marked_unread = false;
    muted_until_timestamp = 0;
    dont_notify_for_mentions_if_muted = false;
    hide_story = false;
    story_send_mode = 0;
  }

  unfoldable pub from_server :
      ServerGroup Role Access ProfileKey Timer
      → Option (Group Role Access ProfileKey Timer)
      → Group Role Access ProfileKey Timer
  unfolding group_from
  from_server server none = group_from server
  from_server server (some local) = record (group_from server) {
    blocked = local.blocked;
    whitelisted = local.whitelisted;
    archived = local.archived;
    marked_unread = local.marked_unread;
    muted_until_timestamp = local.muted_until_timestamp;
    dont_notify_for_mentions_if_muted = local.dont_notify_for_mentions_if_muted;
    hide_story = local.hide_story;
    story_send_mode = local.story_send_mode;
  }
