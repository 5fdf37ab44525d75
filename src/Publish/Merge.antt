-- ===== src/Publish/Merge.antt =====
-- `merge_contact_from_snapshot`: the merge as one record, field by field, and a second sync of the same
-- record.
use presage.Prelude.{
  ℕ, List, [], ◌∷◌, Option, none, some, is_some, Bool, true, false, not, differs, ◌&&◌, ◌==◌,
  if◌then◌else◌, ◌≡◌, refl, ap, ◌∙◌, arith,
}
use presage.Publish.{
  Contact, PendingPublish, Preserved, is_empty, Merging, keep, always_local, keep_name,
  keep_profile_key, keep_phone_number, keep_pni, keep_username, keep_blocked,
  keep_muted_until_timestamp, keep_archived, merge_contact_from_snapshot,
}

-- What a snapshot that knows nothing leaves to the row.
abbrev pub or_local {ℓ} : {A : Type ℓ} → List A → List A → List A
or_local [] local = local
or_local (x ∷ xs) local = x ∷ xs

abbrev pub or_local_some {ℓ} : {A : Type ℓ} → Option A → Option A → Option A
or_local_some none local = local
or_local_some (some x) local = some x

abbrev pub pending_or {ℓ} : {A : Type ℓ} → Bool → A → A → A
pending_or pending local remote = if pending then local else remote

or_local_if {ℓ} :
    {A : Type ℓ} (x y : List A) → (if is_empty x && not (is_empty y) then y else x) ≡ or_local x y
or_local_if [] [] = refl
or_local_if [] (y ∷ ys) = refl
or_local_if (x ∷ xs) y = refl

or_local_some_if {ℓ} :
    {A : Type ℓ} (x y : Option A)
    → (if not (is_some x) && is_some y then y else x) ≡ or_local_some x y
or_local_some_if none none = refl
or_local_some_if none (some y) = refl
or_local_some_if (some x) y = refl

pending_bool_if : (p x y : Bool) → (if p && differs x y then y else x) ≡ pending_or p y x
pending_bool_if p x y = ground arith

pending_number_if : (p : Bool) (x y : ℕ) → (if p && not (x == y) then y else x) ≡ pending_or p y x
pending_number_if p x y = ground arith

or_local-or_local {ℓ} : {A : Type ℓ} (x y : List A) → or_local x (or_local x y) ≡ or_local x y
or_local-or_local [] y = refl
or_local-or_local (x ∷ xs) y = refl

or_local_some-or_local_some {ℓ} :
    {A : Type ℓ} (x y : Option A) → or_local_some x (or_local_some x y) ≡ or_local_some x y
or_local_some-or_local_some none y = refl
or_local_some-or_local_some (some x) y = refl

pending_or-pending_or {ℓ} :
    {A : Type ℓ} (p : Bool) (x y : A) → pending_or p (pending_or p y x) x ≡ pending_or p y x
pending_or-pending_or true x y = refl
pending_or-pending_or false x y = refl

module _ {Phone Verified Avatar : Type 0} where
  -- The contact after a merge.
  abbrev pub merged :
      Contact Phone Verified Avatar
      → Contact Phone Verified Avatar
      → PendingPublish
      → Contact Phone Verified Avatar
  merged remote local pending = record remote {
    expire_timer = local.expire_timer;
    expire_timer_version = local.expire_timer_version;
    inbox_position = local.inbox_position;
    avatar = local.avatar;
    verified = local.verified;
    name = or_local remote.name local.name;
    profile_key = or_local remote.profile_key local.profile_key;
    phone_number = or_local_some remote.phone_number local.phone_number;
    pni = or_local_some remote.pni local.pni;
    username = or_local_some remote.username local.username;
    blocked = pending_or pending.blocked local.blocked remote.blocked;
    muted_until_timestamp =
        pending_or pending.muted local.muted_until_timestamp remote.muted_until_timestamp;
    archived = pending_or pending.archived local.archived remote.archived;
  }

  set_if :
      {A : Type 0} (test : Bool) (put : A → Contact Phone Verified Avatar) (x y : A)
      (what : Preserved) (rest : List Preserved)
      → (keep test what (put y) (put x, rest)).0 ≡ put (if test then y else x)
  set_if true put x y what rest = refl
  set_if false put x y what rest = refl

  keep_name_lem :
      (local : Contact Phone Verified Avatar) (m : Merging Phone Verified Avatar)
      → (keep_name local m).0 ≡ record (m.0) { name = or_local m.0.name local.name }
  keep_name_lem local m =
      set_if _ (λ v. record (m.0) { name = v }) (m.0.name) local.name Preserved.name m.1
      ∙ ap (λ v. record (m.0) { name = v }) (or_local_if m.0.name local.name)

  keep_profile_key_lem :
      (local : Contact Phone Verified Avatar) (m : Merging Phone Verified Avatar)
      → (keep_profile_key local m).0
        ≡ record (m.0) { profile_key = or_local m.0.profile_key local.profile_key }
  keep_profile_key_lem local m =
      set_if _ (λ v. record (m.0) { profile_key = v }) (m.0.profile_key) local.profile_key
        Preserved.profile_key m.1
      ∙ ap (λ v. record (m.0) { profile_key = v }) (or_local_if m.0.profile_key local.profile_key)

  keep_phone_number_lem :
      (local : Contact Phone Verified Avatar) (m : Merging Phone Verified Avatar)
      → (keep_phone_number local m).0
        ≡ record (m.0) { phone_number = or_local_some m.0.phone_number local.phone_number }
  keep_phone_number_lem local m =
      set_if _ (λ v. record (m.0) { phone_number = v }) (m.0.phone_number) local.phone_number
        Preserved.phone_number m.1
      ∙ ap (λ v. record (m.0) { phone_number = v })
          (or_local_some_if m.0.phone_number local.phone_number)

  keep_pni_lem :
      (local : Contact Phone Verified Avatar) (m : Merging Phone Verified Avatar)
      → (keep_pni local m).0 ≡ record (m.0) { pni = or_local_some m.0.pni local.pni }
  keep_pni_lem local m =
      set_if _ (λ v. record (m.0) { pni = v }) (m.0.pni) local.pni Preserved.pni m.1
      ∙ ap (λ v. record (m.0) { pni = v }) (or_local_some_if m.0.pni local.pni)

  keep_username_lem :
      (local : Contact Phone Verified Avatar) (m : Merging Phone Verified Avatar)
      → (keep_username local m).0
        ≡ record (m.0) { username = or_local_some m.0.username local.username }
  keep_username_lem local m =
      set_if _ (λ v. record (m.0) { username = v }) (m.0.username) local.username Preserved.username
        m.1
      ∙ ap (λ v. record (m.0) { username = v }) (or_local_some_if m.0.username local.username)

  keep_blocked_lem :
      (local : Contact Phone Verified Avatar) (pending : PendingPublish)
      (m : Merging Phone Verified Avatar)
      → (keep_blocked local pending m).0
        ≡ record (m.0) { blocked = pending_or pending.blocked local.blocked m.0.blocked }
  keep_blocked_lem local pending m =
      set_if _ (λ v. record (m.0) { blocked = v }) (m.0.blocked) local.blocked Preserved.blocked m.1
      ∙ ap (λ v. record (m.0) { blocked = v })
          (pending_bool_if pending.blocked m.0.blocked local.blocked)

  keep_archived_lem :
      (local : Contact Phone Verified Avatar) (pending : PendingPublish)
      (m : Merging Phone Verified Avatar)
      → (keep_archived local pending m).0
        ≡ record (m.0) { archived = pending_or pending.archived local.archived m.0.archived }
  keep_archived_lem local pending m =
      set_if _ (λ v. record (m.0) { archived = v }) (m.0.archived) local.archived Preserved.archived
        m.1
      ∙ ap (λ v. record (m.0) { archived = v })
          (pending_bool_if pending.archived m.0.archived local.archived)

  keep_muted_until_timestamp_lem :
      (local : Contact Phone Verified Avatar) (pending : PendingPublish)
      (m : Merging Phone Verified Avatar)
      → (keep_muted_until_timestamp local pending m).0 ≡ record (m.0) {
        muted_until_timestamp =
            pending_or pending.muted local.muted_until_timestamp m.0.muted_until_timestamp;
      }
  keep_muted_until_timestamp_lem local pending m =
      set_if _ (λ v. record (m.0) { muted_until_timestamp = v }) (m.0.muted_until_timestamp)
        local.muted_until_timestamp Preserved.muted_until_timestamp m.1
      ∙ ap (λ v. record (m.0) { muted_until_timestamp = v })
          (pending_number_if pending.muted m.0.muted_until_timestamp local.muted_until_timestamp)

  -- A merge gives, field by field: the stored expiry timer and its version, inbox position, avatar and
  -- verification; the stored name, profile key, phone number, PNI and username where the snapshot has none;
  -- the stored blocking, muting and archiving where that change is pending; and the snapshot's value
  -- everywhere else.
  pub merge_contact-merged :
      (remote local : Contact Phone Verified Avatar) (pending : PendingPublish)
      → (merge_contact_from_snapshot remote local pending).0 ≡ merged remote local pending
  unfolding merge_contact_from_snapshot
  merge_contact-merged remote local pending =
      let m0 : Merging Phone Verified Avatar = (always_local remote local, []) in
      let m1 = keep_name local m0 in
      let m2 = keep_profile_key local m1 in
      let m3 = keep_phone_number local m2 in
      let m4 = keep_pni local m3 in
      let m5 = keep_username local m4 in
      let m6 = keep_blocked local pending m5 in
      let m7 = keep_muted_until_timestamp local pending m6 in
      let e1 = keep_name_lem local m0 in
      let e2 =
        keep_profile_key_lem local m1
        ∙ ap {A = Contact Phone Verified Avatar}
            (λ c. record c { profile_key = or_local c.profile_key local.profile_key }) e1 in
      let e3 =
        keep_phone_number_lem local m2
        ∙ ap {A = Contact Phone Verified Avatar}
            (λ c. record c { phone_number = or_local_some c.phone_number local.phone_number }) e2 in
      let e4 =
        keep_pni_lem local m3
        ∙ ap {A = Contact Phone Verified Avatar}
            (λ c. record c { pni = or_local_some c.pni local.pni }) e3 in
      let e5 =
        keep_username_lem local m4
        ∙ ap {A = Contact Phone Verified Avatar}
            (λ c. record c { username = or_local_some c.username local.username }) e4 in
      let e6 =
        keep_blocked_lem local pending m5
        ∙ ap {A = Contact Phone Verified Avatar}
            (λ c. record c { blocked = pending_or pending.blocked local.blocked c.blocked }) e5 in
      let e7 =
        keep_muted_until_timestamp_lem local pending m6
        ∙ ap {A = Contact Phone Verified Avatar}
            (λ c. record c {
              muted_until_timestamp =
                  pending_or pending.muted local.muted_until_timestamp c.muted_until_timestamp;
            })
            e6 in
      keep_archived_lem local pending m7
      ∙ ap {A = Contact Phone Verified Avatar}
          (λ c. record c { archived = pending_or pending.archived local.archived c.archived }) e7

  merged-merged :
      (remote local : Contact Phone Verified Avatar) (p : PendingPublish)
      → merged remote (merged remote local p) p ≡ merged remote local p
  merged-merged remote local p =
      rw
        (
          or_local-or_local remote.name local.name,
          or_local-or_local remote.profile_key local.profile_key,
          or_local_some-or_local_some remote.phone_number local.phone_number,
          or_local_some-or_local_some remote.pni local.pni,
          or_local_some-or_local_some remote.username local.username,
          pending_or-pending_or p.blocked remote.blocked local.blocked,
          pending_or-pending_or p.muted remote.muted_until_timestamp local.muted_until_timestamp,
          pending_or-pending_or p.archived remote.archived local.archived,
        )
        refl

  -- Merging the same snapshot into the result of a merge, with the same changes unpublished, gives the
  -- same contact.
  pub merge_contact-merge_contact :
      (remote local : Contact Phone Verified Avatar) (pending : PendingPublish)
      → (merge_contact_from_snapshot remote
          (merge_contact_from_snapshot remote local pending).0
          pending).0
        ≡ (merge_contact_from_snapshot remote local pending).0
  merge_contact-merge_contact remote local pending =
      rw (merge_contact-merged remote local pending) (
        merge_contact-merged remote (merged remote local pending) pending
        ∙ merged-merged remote local pending)
