-- ===== src/Timers/Update.antt =====
-- `update_expire_timer`: the timer that is read after an update, and after two.
use presage.Prelude.{
  ℕ, ◌==◌, ◌≢◌, leb, List, Option, none, some, Bool, true, false, if◌then◌else◌, ok, ◌≡◌, refl, sym,
  ap, ◌∙◌, arith, Bool-cases, inl, inr,
}
use presage.Publish.{Contact}
use presage.Groups.{Group}
use presage.Account.{Thread}
use presage.Timers.{
  TimerStore, KeepsRows, with_version, expire_timer, update_contact, update_group,
  update_expire_timer,
}

-- The newer of two timers with their versions; the stored one stays on a tie.
abbrev pub newer : ℕ × ℕ → ℕ → ℕ → ℕ × ℕ
newer stored timer version = if leb version stored.1 then stored else (timer, version)

newer_comm :
    (t v t1 v1 t2 v2 : ℕ)
    → v1 ≢ v2
    → newer (newer (t, v) t1 v1) t2 v2 ≡ newer (newer (t, v) t2 v2) t1 v1
newer_comm t v t1 v1 t2 v2 ne = ground arith

abbrev group_with : Bool → ℕ → Option (ℕ × ℕ)
group_with b timer = with_version (if b then none else some timer)

module _ {S E ContactId Phone Verified Avatar Role Access ProfileKey : Type 0}
    (store : TimerStore S E ContactId Phone Verified Avatar Role Access ProfileKey)
    (keeps : KeepsRows store) where
  abbrev pair_of : Contact Phone Verified Avatar → ℕ × ℕ
  pair_of c = (c.expire_timer, c.expire_timer_version)

  contact-updated :
      (s : S) (id : ContactId) (c : Contact Phone Verified Avatar) (timer version : ℕ) {s' : S}
      → store.contact_by_id s id ≡ ok (some c)
      → update_expire_timer store s (Thread.contact id) timer version ≡ ok s'
      → (c' : Contact Phone Verified Avatar) × (store.contact_by_id s' id ≡ ok (some c'))
        × (pair_of c' ≡ newer (pair_of c) timer version)
  unfolding update_expire_timer
  contact-updated s id c timer version {s'} found h =
      let h' : update_contact store s timer version (some c) ≡ ok s' = rw found at h in
      elim (Bool-cases (leb version c.expire_timer_version)) [
        | inl old ↦
            let e = rw old at h' in
            let same : s ≡ s' = ground arith in
            (c, ap (λ t. store.contact_by_id t id) (sym same) ∙ found, rw old refl)
        | inr new ↦
            let c' : Contact Phone Verified Avatar = record c {
              expire_timer_version = version;
              expire_timer = timer;
            } in
            (c', keeps.contact_saved s id c c' found refl (rw new at h'), rw new refl)
      ]

  contact-timer :
      (s : S) (id : ContactId) (c : Contact Phone Verified Avatar)
      → store.contact_by_id s id ≡ ok (some c)
      → expire_timer store s (Thread.contact id) ≡ ok (some (pair_of c))
  unfolding expire_timer
  contact-timer s id c found = rw found refl

  timer_tested : (b : Bool) (timer : ℕ) → group_with b timer ≡ (if b then none else some (timer, 1))
  timer_tested true timer = refl
  timer_tested false timer = refl

  group-updated :
      (s : S) (key : List ℕ) (g : Group Role Access ProfileKey ℕ) (timer version : ℕ) {s' : S}
      → store.group s key ≡ ok (some g)
      → update_expire_timer store s (Thread.group key) timer version ≡ ok s'
      → expire_timer store s' (Thread.group key) ≡ ok (if timer == 0 then none else some (timer, 1))
  unfolding update_expire_timer expire_timer
  group-updated s key g timer version {s'} found h =
      let h' : update_group store s key timer (some g) ≡ ok s' = rw found at h in
      rw
        (keeps.group_saved s key
          (record g { disappearing_messages_timer = if timer == 0 then none else some timer }) h')
        (ap (λ x. ok x) (timer_tested (timer == 0) timer))

  -- For a store that keeps its rows: after an update of a stored contact's timer that succeeds, the timer and
  -- version that are read are the update's if its version is above the stored one, and else the stored ones;
  -- after one of a stored group's that succeeds, they are the update's timer with version 1, and none for a
  -- timer of 0.
  pub expire_timer-update :
      (s : S) (id : ContactId) (c : Contact Phone Verified Avatar) (key : List ℕ)
      (g : Group Role Access ProfileKey ℕ) (timer version : ℕ) {after_contact after_group : S}
      → store.contact_by_id s id ≡ ok (some c)
      → store.group s key ≡ ok (some g)
      → update_expire_timer store s (Thread.contact id) timer version ≡ ok after_contact
      → update_expire_timer store s (Thread.group key) timer version ≡ ok after_group
      → (expire_timer store after_contact (Thread.contact id)
          ≡ ok (some (newer (c.expire_timer, c.expire_timer_version) timer version)))
        × (expire_timer store after_group (Thread.group key)
            ≡ ok (if timer == 0 then none else some (timer, 1)))
  expire_timer-update s id c key g timer version {after_contact} found found' h h' =
      let (c', found_c, pair) = contact-updated s id c timer version found h in
      (
        contact-timer after_contact id c' found_c ∙ ap (λ p. ok (some p)) pair,
        group-updated s key g timer version found' h',
      )

  -- For a store that keeps its rows: two updates of a stored contact's timer with different versions, that
  -- succeed, leave the same timer and version in either order.
  pub update_expire_timer-order :
      (s : S) (id : ContactId) (c : Contact Phone Verified Avatar) (t1 v1 t2 v2 : ℕ)
      {after_1 after_12 after_2 after_21 : S}
      → store.contact_by_id s id ≡ ok (some c)
      → v1 ≢ v2
      → update_expire_timer store s (Thread.contact id) t1 v1 ≡ ok after_1
      → update_expire_timer store after_1 (Thread.contact id) t2 v2 ≡ ok after_12
      → update_expire_timer store s (Thread.contact id) t2 v2 ≡ ok after_2
      → update_expire_timer store after_2 (Thread.contact id) t1 v1 ≡ ok after_21
      → expire_timer store after_12 (Thread.contact id)
        ≡ expire_timer store after_21 (Thread.contact id)
  update_expire_timer-order s id c t1 v1 t2 v2 {after_1} {after_12} {after_2} {after_21} found ne h1
        h12 h2 h21 =
      let (c1, found_1, p1) = contact-updated s id c t1 v1 found h1 in
      let (c12, found_12, p12) = contact-updated after_1 id c1 t2 v2 found_1 h12 in
      let (c2, found_2, p2) = contact-updated s id c t2 v2 found h2 in
      let (c21, found_21, p21) = contact-updated after_2 id c2 t1 v1 found_2 h21 in
      contact-timer after_12 id c12 found_12
      ∙ ap (λ p. ok (some p))
          (p12
            ∙ ap (λ p. newer p t2 v2) p1
            ∙ newer_comm c.expire_timer c.expire_timer_version t1 v1 t2 v2 ne
            ∙ sym (p21 ∙ ap (λ p. newer p t1 v1) p2))
      ∙ sym (contact-timer after_21 id c21 found_21)
