-- ===== src/Publish.antt =====
-- presage/src/manager/storage.rs: which local changes of a contact, a group and the account are not yet
-- published, the merge of a record that a sync reads, and the edit that publishes.
pub mod Apply
pub mod Merge
pub mod Records
use presage.Prelude.{
  ℕ, zero, suc, List, [], ◌∷◌, ◌++◌, Option, none, some, is_some, Bool, true, false, not, differs,
  ◌&&◌, ◌||◌, ◌==◌, if◌then◌else◌, length, Result, ok, err, ◌>>=◌, ok_unwrap_or,
}
use Prim.Native.String.{String}
use presage.Wire.{EditError}
use presage.Record.{
  contact_blocked, set_contact_blocked, contact_muted_until, set_contact_muted_until,
  contact_archived, set_contact_archived, group_muted_until, set_group_muted_until, group_archived,
  set_group_archived,
}

-- presage/src/model/contacts.rs. A UUID is a number; a string or a byte vector is a list of bytes. The
-- phone number, the verification state and the avatar are types of libsignal.
pub record Contact (Phone Verified Avatar : Type 0) : Type 0 where
  pub uuid : ℕ
  pub phone_number : Option Phone
  pub name : List ℕ
  pub verified : Verified
  pub profile_key : List ℕ
  pub expire_timer : ℕ
  pub expire_timer_version : ℕ
  pub inbox_position : ℕ
  pub avatar : Option Avatar
  pub pni : Option ℕ
  pub username : Option (List ℕ)
  pub blocked : Bool
  pub whitelisted : Bool
  pub archived : Bool
  pub marked_unread : Bool
  pub muted_until_timestamp : ℕ
  pub hide_story : Bool
  pub hidden : Bool
  pub unregistered_at_timestamp : ℕ
  pub pni_signature_verified : Bool
  pub system_given_name : List ℕ
  pub system_family_name : List ℕ
  pub system_nickname : List ℕ
  pub nickname_given_name : List ℕ
  pub nickname_family_name : List ℕ
  pub note : List ℕ

pub record PendingPublish : Type 0 where
  pub blocked : Bool
  pub muted : Bool
  pub archived : Bool

-- `Self::default()` and `Self::ALL`
abbrev pub pending_none : PendingPublish
pending_none = record { blocked = false; muted = false; archived = false }

abbrev pub pending_all : PendingPublish
pending_all = record { blocked = true; muted = true; archived = true }

-- The names that the merge reports.
pub data Preserved : Type 0 where
  name profile_key phone_number pni username blocked muted_until_timestamp archived : Preserved

abbrev pub is_empty {ℓ} : {A : Type ℓ} → List A → Bool
is_empty [] = true
is_empty (x ∷ xs) = false

module _ {Phone Verified Avatar : Type 0} where
  -- `PendingPublish::diff`
  unfoldable pub diff : List ℕ → Contact Phone Verified Avatar → Result EditError PendingPublish
  diff record' local = do
    is_blocked ← contact_blocked record'
    muted_until ← contact_muted_until record'
    is_archived ← contact_archived record'
    ok (record {
      blocked = differs is_blocked local.blocked;
      muted = not (muted_until == local.muted_until_timestamp);
      archived = differs is_archived local.archived;
    })

  -- `PendingPublish::between`
  unfoldable pub between :
      Contact Phone Verified Avatar → Contact Phone Verified Avatar → PendingPublish
  between a b = record {
    blocked = differs a.blocked b.blocked;
    muted = not (a.muted_until_timestamp == b.muted_until_timestamp);
    archived = differs a.archived b.archived;
  }

  -- `PendingPublish::apply`
  unfoldable pub apply :
      PendingPublish → List ℕ → Contact Phone Verified Avatar → Result EditError (List ℕ)
  apply pending record' local = do
    edited ← if pending.blocked then set_contact_blocked record' local.blocked else ok record'
    edited ←
        if pending.muted
        then set_contact_muted_until edited local.muted_until_timestamp
        else ok edited
    if pending.archived then set_contact_archived edited local.archived else ok edited

-- `PendingPublish::any`
unfoldable pub pending_any : PendingPublish → Bool
pending_any p = p.blocked || p.muted || p.archived

-- `pending_publish_intent`: `stored` is the record of the stored identity, and no such record, or one
-- that cannot be read, is `none`.
module _ {Phone Verified Avatar : Type 0} where
  unfoldable pub pending_publish_intent :
      Option (List ℕ) → Contact Phone Verified Avatar → Bool → PendingPublish
  pending_publish_intent stored local flagged = if not flagged then pending_none else elim stored [
    | some record' ↦ ok_unwrap_or (diff record' local) pending_all
    | none ↦ pending_all
  ]

-- The state of a merge: the contact and the names pushed so far.
abbrev pub Merging : Type 0 → Type 0 → Type 0 → Type 0
Merging P V A = Contact P V A × List Preserved

module _ {Phone Verified Avatar : Type 0} where
  -- The body of one `if`: the field is set, and its name pushed.
  abbrev pub keep :
      Bool
      → Preserved
      → Contact Phone Verified Avatar
      → Merging Phone Verified Avatar
      → Merging Phone Verified Avatar
  keep test what contact m = if test then (contact, m.1 ++ what ∷ []) else m

  abbrev pub keep_name :
      Contact Phone Verified Avatar → Merging Phone Verified Avatar → Merging Phone Verified Avatar
  keep_name existing m =
      keep (is_empty m.0.name && not (is_empty existing.name)) Preserved.name
        (record (m.0) { name = existing.name }) m

  abbrev pub keep_profile_key :
      Contact Phone Verified Avatar → Merging Phone Verified Avatar → Merging Phone Verified Avatar
  keep_profile_key existing m =
      keep (is_empty m.0.profile_key && not (is_empty existing.profile_key)) Preserved.profile_key
        (record (m.0) { profile_key = existing.profile_key }) m

  abbrev pub keep_phone_number :
      Contact Phone Verified Avatar → Merging Phone Verified Avatar → Merging Phone Verified Avatar
  keep_phone_number existing m =
      keep (not (is_some m.0.phone_number) && is_some existing.phone_number) Preserved.phone_number
        (record (m.0) { phone_number = existing.phone_number }) m

  abbrev pub keep_pni :
      Contact Phone Verified Avatar → Merging Phone Verified Avatar → Merging Phone Verified Avatar
  keep_pni existing m =
      keep (not (is_some m.0.pni) && is_some existing.pni) Preserved.pni
        (record (m.0) { pni = existing.pni }) m

  abbrev pub keep_username :
      Contact Phone Verified Avatar → Merging Phone Verified Avatar → Merging Phone Verified Avatar
  keep_username existing m =
      keep (not (is_some m.0.username) && is_some existing.username) Preserved.username
        (record (m.0) { username = existing.username }) m

  abbrev pub keep_blocked :
      Contact Phone Verified Avatar
      → PendingPublish
      → Merging Phone Verified Avatar
      → Merging Phone Verified Avatar
  keep_blocked existing pending m =
      keep (pending.blocked && differs m.0.blocked existing.blocked) Preserved.blocked
        (record (m.0) { blocked = existing.blocked }) m

  abbrev pub keep_muted_until_timestamp :
      Contact Phone Verified Avatar
      → PendingPublish
      → Merging Phone Verified Avatar
      → Merging Phone Verified Avatar
  keep_muted_until_timestamp existing pending m =
      keep (pending.muted && not (m.0.muted_until_timestamp == existing.muted_until_timestamp))
        Preserved.muted_until_timestamp
        (record (m.0) { muted_until_timestamp = existing.muted_until_timestamp }) m

  abbrev pub keep_archived :
      Contact Phone Verified Avatar
      → PendingPublish
      → Merging Phone Verified Avatar
      → Merging Phone Verified Avatar
  keep_archived existing pending m =
      keep (pending.archived && differs m.0.archived existing.archived) Preserved.archived
        (record (m.0) { archived = existing.archived }) m

  -- The assignments that no test guards.
  abbrev pub always_local :
      Contact Phone Verified Avatar → Contact Phone Verified Avatar → Contact Phone Verified Avatar
  always_local contact existing = record contact {
    expire_timer = existing.expire_timer;
    expire_timer_version = existing.expire_timer_version;
    inbox_position = existing.inbox_position;
    avatar = existing.avatar;
    verified = existing.verified;
  }

  -- `merge_contact_from_snapshot`, one `if` of the source after the other.
  unfoldable pub merge_contact_from_snapshot :
      Contact Phone Verified Avatar
      → Contact Phone Verified Avatar
      → PendingPublish
      → Merging Phone Verified Avatar
  merge_contact_from_snapshot contact existing pending =
      let m1 = keep_name existing (always_local contact existing, []) in
      let m2 = keep_profile_key existing m1 in
      let m3 = keep_phone_number existing m2 in
      let m4 = keep_pni existing m3 in
      let m5 = keep_username existing m4 in
      let m6 = keep_blocked existing pending m5 in
      let m7 = keep_muted_until_timestamp existing pending m6 in keep_archived existing pending m7
