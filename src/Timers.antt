-- ===== src/Timers.antt =====
-- presage/src/store.rs, `expire_timer` and `update_expire_timer`, over the four methods of a store that they call.
-- A timer of a group is its duration.
pub mod Messages
pub mod Seen
pub mod Update
use presage.Prelude.{
  ℕ, ◌≤◌, ◌<◌, ◌==◌, ◌≢◌, leb, List, Option, none, some, and_then, Bool, true, false, if◌then◌else◌,
  Result, ok, err, ◌>>=◌, >>=-eq-ok, ◌≡◌, refl, sym, ap, ◌∙◌, arith, Bool-cases, inl, inr,
}
use mathlib.Core.Option
use presage.Publish.{Contact}
use presage.Groups.{Group}
use presage.Account.{Thread}

pub record TimerStore (S E ContactId Phone Verified Avatar Role Access ProfileKey : Type 0)
    : Type 0 where
  pub contact_by_id : S → ContactId → Result E (Option (Contact Phone Verified Avatar))
  pub save_contact : S → Contact Phone Verified Avatar → Result E S
  pub group : S → List ℕ → Result E (Option (Group Role Access ProfileKey ℕ))
  pub save_group : S → List ℕ → Group Role Access ProfileKey ℕ → Result E S

abbrev pub with_version : Option ℕ → Option (ℕ × ℕ)
with_version none = none
with_version (some duration) = some (duration, 1)

module _ {S E ContactId Phone Verified Avatar Role Access ProfileKey : Type 0}
    (store : TimerStore S E ContactId Phone Verified Avatar Role Access ProfileKey) where
  -- `.map(|c| (c.expire_timer, c.expire_timer_version))`, and the group's with version 1
  abbrev pub contact_timer : Option (Contact Phone Verified Avatar) → Option (ℕ × ℕ)
  contact_timer none = none
  contact_timer (some c) = some (c.expire_timer, c.expire_timer_version)

  abbrev pub group_timer : Option (Group Role Access ProfileKey ℕ) → Option (ℕ × ℕ)
  group_timer none = none
  group_timer (some g) = with_version g.disappearing_messages_timer

  unfoldable pub expire_timer : S → Thread ContactId → Result E (Option (ℕ × ℕ))
  expire_timer s (Thread.contact id) = do
    contact ← store.contact_by_id s id
    ok (contact_timer contact)
  expire_timer s (Thread.group key) = do group ← store.group s key; ok (group_timer group)

  abbrev pub update_contact : S → ℕ → ℕ → Option (Contact Phone Verified Avatar) → Result E S
  update_contact s timer version none = ok s
  update_contact s timer version (some contact) =
      if leb version contact.expire_timer_version
      then ok s
      else store.save_contact s
          (record contact { expire_timer_version = version; expire_timer = timer })

  abbrev pub update_group : S → List ℕ → ℕ → Option (Group Role Access ProfileKey ℕ) → Result E S
  update_group s key timer none = ok s
  update_group s key timer (some g) =
      store.save_group s key
        (record g { disappearing_messages_timer = if timer == 0 then none else some timer })

  unfoldable pub update_expire_timer : S → Thread ContactId → ℕ → ℕ → Result E S
  update_expire_timer s (Thread.contact id) timer version = do
    contact ← store.contact_by_id s id
    update_contact s timer version contact
  update_expire_timer s (Thread.group key) timer version = do
    group ← store.group s key
    update_group s key timer group

  -- A row that is found and saved with the same identity is found as it was saved.
  pub record KeepsRows : Type 0 where
    pub contact_saved :
        (s : S) (id : ContactId) (contact contact' : Contact Phone Verified Avatar) {s' : S}
        → store.contact_by_id s id ≡ ok (some contact)
        → contact'.uuid ≡ contact.uuid
        → store.save_contact s contact' ≡ ok s'
        → store.contact_by_id s' id ≡ ok (some contact')
    pub group_saved :
        (s : S) (key : List ℕ) (g : Group Role Access ProfileKey ℕ) {s' : S}
        → store.save_group s key g ≡ ok s'
        → store.group s' key ≡ ok (some g)
