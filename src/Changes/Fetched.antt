-- ===== src/Changes/Fetched.antt =====
-- How a group reaches the store from the server: `upsert_group`, `load_group`, `refresh_group` and
-- `fetch_and_store_group` of presage/src/manager/registered.rs, for a key of 32 bytes.
use presage.Prelude.{
  ℕ, List, Option, none, some, Bool, false, leb, if◌then◌else◌, Result, ok, err, ◌≡◌, refl, sym, ap,
  ◌∙◌, arith, ok_same, Bool-cases, Result-cases, inl, inr,
}
use presage.Prelude.Steps.{Step, done, fail, attempt, ◌>>=◌, ◌>>◌, >>=-ends_ok}
use presage.Groups.{Group, ServerGroup, Administrators, mark_denied, from_server}
use presage.Changes.Built.{ServiceError, ChangeError}
use presage.Changes.{GroupServices}

module _ {W E Role Access ProfileKey Credential Action Change : Type 0}
    (services : GroupServices W E Role Access ProfileKey Credential Action Change)
    (admin : Administrators Role Access) where
  -- A store that fails is one without the group.
  abbrev pub loaded :
      Result (ChangeError E) (Option (Group Role Access ProfileKey ℕ))
      → Option (Group Role Access ProfileKey ℕ)
  loaded (ok group) = group
  loaded (err e) = none

  unfoldable pub load_group :
      List ℕ → Step W (ChangeError E) (Option (Group Role Access ProfileKey ℕ))
  load_group master_key = do answer ← attempt (services.group master_key); done (loaded answer)

  -- The group is saved and read back.
  abbrev pub store_fetched :
      List ℕ
      → Group Role Access ProfileKey ℕ
      → Step W (ChangeError E) (Option (Group Role Access ProfileKey ℕ))
  store_fetched master_key group = services.save_group master_key group >> services.group master_key

  abbrev pub record_denied :
      List ℕ
      → ℕ
      → Option (Group Role Access ProfileKey ℕ)
      → Step W (ChangeError E) (Option (Group Role Access ProfileKey ℕ))
  record_denied master_key self_aci none = done none
  record_denied master_key self_aci (some denied) =
      store_fetched master_key (mark_denied admin denied self_aci)

  -- The `match` on the fetch.
  abbrev pub after_fetch :
      List ℕ
      → Option (Group Role Access ProfileKey ℕ)
      → ℕ
      → Result (ChangeError E) (ServerGroup Role Access ProfileKey ℕ)
      → Step W (ChangeError E) (Option (Group Role Access ProfileKey ℕ))
  after_fetch master_key local self_aci (ok server) =
      store_fetched master_key (from_server server local)
  after_fetch master_key local self_aci
        (err (ChangeError.service_error ServiceError.unauthorized)) =
      record_denied master_key self_aci local
  after_fetch master_key local self_aci
        (err (ChangeError.service_error ServiceError.not_found_error)) =
      record_denied master_key self_aci local
  after_fetch master_key local self_aci (err e) = fail e

  unfoldable pub fetch_and_store_group :
      List ℕ
      → Option (Group Role Access ProfileKey ℕ)
      → ℕ
      → Step W (ChangeError E) (Option (Group Role Access ProfileKey ℕ))
  fetch_and_store_group master_key local self_aci = do
    services.get_authorization_for_today master_key
    answer ← attempt (services.fetch_group master_key)
    after_fetch master_key local self_aci answer

  abbrev pub fetched_or_stored :
      List ℕ
      → Result (ChangeError E) (Option (Group Role Access ProfileKey ℕ))
      → Step W (ChangeError E) (Option (Group Role Access ProfileKey ℕ))
  fetched_or_stored master_key (ok group) = done group
  fetched_or_stored master_key (err e) = services.group master_key

  unfoldable pub refresh_group :
      List ℕ
      → Option (Group Role Access ProfileKey ℕ)
      → ℕ
      → Step W (ChangeError E) (Option (Group Role Access ProfileKey ℕ))
  refresh_group master_key local self_aci = do
    answer ← attempt (fetch_and_store_group master_key local self_aci)
    fetched_or_stored master_key answer

  abbrev pub is_current : Option (Group Role Access ProfileKey ℕ) → ℕ → Bool
  is_current none revision = false
  is_current (some group) revision = leb revision group.revision

  abbrev pub refresh_unless_current :
      List ℕ
      → ℕ
      → ℕ
      → Option (Group Role Access ProfileKey ℕ)
      → Step W (ChangeError E) (Option (Group Role Access ProfileKey ℕ))
  refresh_unless_current master_key revision self_aci local =
      if is_current local revision then done local else refresh_group master_key local self_aci

  unfoldable pub upsert_group :
      List ℕ → ℕ → ℕ → Step W (ChangeError E) (Option (Group Role Access ProfileKey ℕ))
  upsert_group master_key revision self_aci =
      load_group master_key >>= refresh_unless_current master_key revision self_aci

  -- The store answers with the group that it keeps, and asking it or the server changes none.
  pub record ReadsGroups (group_of : W → List ℕ → Option (Group Role Access ProfileKey ℕ))
      : Type 0 where
    pub read : (key : List ℕ) (w : W) → (services.group key w).0 ≡ ok (group_of w key)
    pub read_only : (key : List ℕ) (w : W) → group_of (services.group key w).1 key ≡ group_of w key
    pub authorized :
        (key : List ℕ) (w : W)
        → group_of (services.get_authorization_for_today key w).1 key ≡ group_of w key
    pub fetched :
        (key : List ℕ) (w : W) → group_of (services.fetch_group key w).1 key ≡ group_of w key

  module _ (group_of : W → List ℕ → Option (Group Role Access ProfileKey ℕ))
      (reads : ReadsGroups group_of) (key : List ℕ) (self_aci : ℕ) where
    group-stored :
        (w : W) {answer : Option (Group Role Access ProfileKey ℕ)}
        → (services.group key w).0 ≡ ok answer
        → answer ≡ group_of (services.group key w).1 key
    group-stored w h = ok_same h (reads.read key w) ∙ sym (reads.read_only key w)

    store_fetched-stored :
        (g : Group Role Access ProfileKey ℕ) (w : W)
        {answer : Option (Group Role Access ProfileKey ℕ)}
        → (store_fetched key g w).0 ≡ ok answer
        → answer ≡ group_of (store_fetched key g w).1 key
    store_fetched-stored g w h =
        let (u, saved, h1, w1) = >>=-ends_ok (services.save_group key g) _ w h in
        group-stored _ h1 ∙ sym (ap (λ v. group_of v key) w1)

    record_denied-stored :
        (local : Option (Group Role Access ProfileKey ℕ)) (w : W)
        {answer : Option (Group Role Access ProfileKey ℕ)}
        → local ≡ group_of w key
        → (record_denied key self_aci local w).0 ≡ ok answer
        → answer ≡ group_of (record_denied key self_aci local w).1 key
    record_denied-stored none w is h = sym (ok_same refl h) ∙ is
    record_denied-stored (some g) w is h = store_fetched-stored (mark_denied admin g self_aci) w h

    after_fetch-stored :
        (local : Option (Group Role Access ProfileKey ℕ))
        (r : Result (ChangeError E) (ServerGroup Role Access ProfileKey ℕ)) (w : W)
        {answer : Option (Group Role Access ProfileKey ℕ)}
        → local ≡ group_of w key
        → (after_fetch key local self_aci r w).0 ≡ ok answer
        → answer ≡ group_of (after_fetch key local self_aci r w).1 key
    after_fetch-stored local (ok server) w is h =
        store_fetched-stored (from_server server local) w h
    after_fetch-stored local (err (ChangeError.service_error ServiceError.unauthorized)) w is h =
        record_denied-stored local w is h
    after_fetch-stored local (err (ChangeError.service_error ServiceError.not_found_error)) w is h =
        record_denied-stored local w is h
    after_fetch-stored local (err (ChangeError.service_error ServiceError.group_change_conflict)) w
          is h =
        ground arith
    after_fetch-stored local (err (ChangeError.service_error (ServiceError.other_error e))) w is h =
        ground arith
    after_fetch-stored local (err ChangeError.empty_group_update) w is h = ground arith
    after_fetch-stored local (err ChangeError.empty_group_members_update) w is h = ground arith
    after_fetch-stored local (err ChangeError.unknown_group) w is h = ground arith
    after_fetch-stored local (err ChangeError.not_a_group_member) w is h = ground arith
    after_fetch-stored local (err ChangeError.last_admin_must_promote) w is h = ground arith
    after_fetch-stored local (err (ChangeError.store_error e)) w is h = ground arith

    fetch_and_store_group-stored :
        (local : Option (Group Role Access ProfileKey ℕ)) (w : W)
        {answer : Option (Group Role Access ProfileKey ℕ)}
        → local ≡ group_of w key
        → (fetch_and_store_group key local self_aci w).0 ≡ ok answer
        → answer ≡ group_of (fetch_and_store_group key local self_aci w).1 key
    unfolding fetch_and_store_group
    fetch_and_store_group-stored local w is h =
        let (u, authorized, h1, w1) =
          >>=-ends_ok (services.get_authorization_for_today key) _ w h in
        let v = (services.get_authorization_for_today key w).1 in
        after_fetch-stored local (services.fetch_group key v).0 (services.fetch_group key v).1
          (is ∙ sym (reads.fetched key v ∙ reads.authorized key w)) h1
        ∙ sym (ap (λ x. group_of x key) w1)

    refresh_group-stored :
        (local : Option (Group Role Access ProfileKey ℕ)) (w : W)
        {answer : Option (Group Role Access ProfileKey ℕ)}
        → local ≡ group_of w key
        → (refresh_group key local self_aci w).0 ≡ ok answer
        → answer ≡ group_of (refresh_group key local self_aci w).1 key
    unfolding refresh_group
    refresh_group-stored local w is h =
        elim (Result-cases (fetch_and_store_group key local self_aci w).0) [
          | inl (g, found) ↦
              let h' = rw found at h in
              rw found (ok_same h' refl ∙ fetch_and_store_group-stored local w is found)
          | inr (e, failed) ↦ rw failed (group-stored _ (rw failed at h))
        ]

    -- For a store that reads without failing and that only saving changes: when `upsert_group` ends well, what it answers
    -- is what is stored at its end, whether the stored group was recent enough, was fetched, was refused by the server or
    -- could not be fetched.
    pub upsert_group-stored :
        (revision : ℕ) (w : W) {answer : Option (Group Role Access ProfileKey ℕ)}
        → (upsert_group key revision self_aci w).0 ≡ ok answer
        → answer ≡ group_of (upsert_group key revision self_aci w).1 key
    unfolding upsert_group load_group
    upsert_group-stored revision w h =
        let local = loaded (services.group key w).0 in
        let is : local ≡ group_of (services.group key w).1 key =
          ap loaded (reads.read key w) ∙ sym (reads.read_only key w) in
        elim (Bool-cases (is_current local revision)) [
          | inl current ↦ let h' = rw current at h in rw current (sym (ok_same refl h') ∙ is)
          | inr old ↦ rw old (refresh_group-stored local _ is (rw old at h))
        ]
