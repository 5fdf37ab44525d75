-- ===== src/Timers/Seen.antt =====
-- What the receipt of a profile key leaves of a contact that was known: `upsert_contact_from_profile` of
-- presage/src/manager/registered.rs.
use presage.Prelude.{
  ℕ, ◌≤◌, List, Option, none, some, if◌then◌else◌, ok, ◌≡◌, refl, sym, ap, ◌∙◌, arith, subst,
  Bool-cases, inl, inr,
}
use presage.Prelude.Steps.{done, ◌>>=◌, >>=-ends_ok, >>=-from}
use presage.Publish.{Contact}
use presage.Publish.Records.{ContactForms}
use presage.Groups.{ServiceId}
use presage.Timers.Messages.{
  DataMessage, ProfileServices, merged_expire_timer_version, seen_contact, save_seen, is_unseen,
  save_if_unseen, upsert_contact_from_profile,
}

merged_expire_timer_version_le :
    (incoming : Option ℕ) (stored : ℕ) → stored ≤ merged_expire_timer_version incoming stored
merged_expire_timer_version_le none stored = ground arith
merged_expire_timer_version_le (some incoming) stored = ground arith

module _ {W E Phone Verified Avatar : Type 0} (services : ProfileServices W E Phone Verified Avatar)
    (row_of : W → ServiceId → Option (Contact Phone Verified Avatar)) where
  -- The store answers with the row that it keeps, a row saved with its identity is kept as saved, and the other calls
  -- change no row.
  pub record KeepsSeen : Type 0 where
    pub row_read :
        (id : ServiceId) (w : W) {x : Option (Contact Phone Verified Avatar)}
        → (services.contact_by_id id w).0 ≡ ok x
        → (row_of w id ≡ x) × ((services.contact_by_id id w).1 ≡ w)
    pub row_saved :
        (id : ServiceId) (old new : Contact Phone Verified Avatar) (w : W)
        → row_of w id ≡ some old
        → new.uuid ≡ old.uuid
        → (services.save_contact new w).0 ≡ ok tt
        → row_of (services.save_contact new w).1 id ≡ some new
    pub key_read : (id : ServiceId) (w : W) → row_of (services.profile_key id w).1 id ≡ row_of w id
    pub name_fetched :
        (id : ServiceId) (aci : ℕ) (key : List ℕ) (w : W)
        → row_of (services.fetched_name aci key w).1 id ≡ row_of w id
    pub key_saved :
        (id : ServiceId) (aci : ℕ) (key : List ℕ) (w : W)
        → row_of (services.upsert_profile_key aci key w).1 id ≡ row_of w id

  -- The new row is the old one but for its name, key and timer, and has no lower version.
  abbrev pub Refreshed : Contact Phone Verified Avatar → W → ServiceId → Type 0
  Refreshed old w id =
      (new : Contact Phone Verified Avatar) × (row_of w id ≡ some new)
      × (record new {
        name = old.name;
        profile_key = old.profile_key;
        expire_timer = old.expire_timer;
        expire_timer_version = old.expire_timer_version;
      }
          ≡ old)
      × (old.expire_timer_version ≤ new.expire_timer_version)

module _ {W E Phone Verified Avatar : Type 0} (services : ProfileServices W E Phone Verified Avatar)
    (forms : ContactForms Phone Verified Avatar)
    (row_of : W → ServiceId → Option (Contact Phone Verified Avatar))
    (keeps : KeepsSeen services row_of) (message : DataMessage) (key : List ℕ) where
  save_seen-Refreshed :
      (id : ServiceId) (old : Contact Phone Verified Avatar) (w : W)
      → row_of w id ≡ some old
      → (save_seen services forms message key id (some old) w).0 ≡ ok tt
      → Refreshed services row_of old (save_seen services forms message key id (some old) w).1 id
  save_seen-Refreshed (ServiceId.pni_id pni) old w there h = (old, there, refl, ground arith)
  save_seen-Refreshed (ServiceId.aci_id aci) old w there h =
      let id = ServiceId.aci_id aci in
      let (name, fetched, h1, w1) = >>=-ends_ok (services.fetched_name aci key) _ w h in
      let v = (services.fetched_name aci key w).1 in
      let new = seen_contact services forms message key name old in
      let (u, saved, h2, w2) = >>=-ends_ok (services.save_contact new) _ v h1 in
      let kept =
        keeps.row_saved id old new v (keeps.name_fetched id aci key w ∙ there) refl saved in
      (
        new,
        ap (λ x. row_of x id) (w1 ∙ w2) ∙ keeps.key_saved id aci key _ ∙ kept,
        refl,
        merged_expire_timer_version_le message.expire_timer_version old.expire_timer_version,
      )

  save_if_unseen-Refreshed :
      (id : ServiceId) (old : Contact Phone Verified Avatar) (w : W)
      → row_of w id ≡ some old
      → (save_if_unseen services forms message id key (some old) w).0 ≡ ok tt
      → Refreshed services row_of old
          (save_if_unseen services forms message id key (some old) w).1
          id
  save_if_unseen-Refreshed id old w there h =
      let (unseen, asked, h1, w1) =
        >>=-ends_ok (is_unseen services forms key id (some old))
          (λ b. if b then save_seen services forms message key id (some old) else done tt) w h in
      let (stored, read, h2, w2) = >>=-ends_ok (services.profile_key id) _ w asked in
      let v = (is_unseen services forms key id (some old) w).1 in
      let there' : row_of v id ≡ some old =
        ap (λ x. row_of x id) w2 ∙ keeps.key_read id w ∙ there in
      elim (Bool-cases unseen) [
        | inl yes' ↦
            let h3 = rw yes' at h1 in
            let end : (save_if_unseen services forms message id key (some old) w).1
                ≡ (save_seen services forms message key id (some old) v).1 =
              w1 ∙ rw yes' refl in
            subst (λ x. Refreshed services row_of old x id) (sym end)
              (save_seen-Refreshed id old v there' h3)
        | inr no' ↦
            let end : (save_if_unseen services forms message id key (some old) w).1 ≡ v =
              w1 ∙ rw no' refl in
            subst (λ x. Refreshed services row_of old x id) (sym end)
              (old, there', refl, ground arith)
      ]

  -- For a store that keeps its rows: when the receipt of a profile key from a contact that has a row ends well, the
  -- contact still has a row, it differs from the one before at most in the name, the profile key, the timer and its
  -- version, and the version is not lower.
  pub upsert_contact_from_profile-Refreshed :
      (id : ServiceId) (old : Contact Phone Verified Avatar) (w : W)
      → row_of w id ≡ some old
      → (upsert_contact_from_profile services forms message id key w).0 ≡ ok tt
      → Refreshed services row_of old
          (upsert_contact_from_profile services forms message id key w).1
          id
  unfolding upsert_contact_from_profile
  upsert_contact_from_profile-Refreshed id old w there h =
      let (x, read, h1, w1) = >>=-ends_ok (services.contact_by_id id) _ w h in
      let (is, same) = keeps.row_read id w read in
      let start : (services.contact_by_id id >>= save_if_unseen services forms message id key) w
          ≡ save_if_unseen services forms message id key (some old) w =
        >>=-from (services.contact_by_id id) (save_if_unseen services forms message id key) w w
          (read ∙ ap ok (sym is ∙ there)) same in
      subst (λ x. Refreshed services row_of old x id) (sym (ap (λ p. p.1) start))
        (save_if_unseen-Refreshed id old w there (sym (ap (λ p. p.0) start) ∙ h))
