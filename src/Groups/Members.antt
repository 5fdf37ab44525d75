-- ===== src/Groups/Members.antt =====
-- `mark_left`, `mark_denied` and `members_losing_labels`: who is in a group afterwards, and whose label goes.
use presage.Prelude.{
  ℕ, ◌==◌, ◌≢◌, List, [], ◌∷◌, Option, Bool, false, not, ◌&&◌, any, map, retain, ◌≡◌, refl, ap, ◌∙◌,
  arith,
}
use presage.Groups.{
  Group, ServiceId, Administrators, same_service_id, service_id_of, is_member, is_pending,
  is_active, promote, mark_left,
}

any-retain_same :
    {A : Type 0} (p : A → Bool) (xs : List A) → any p (retain (λ x. not (p x)) xs) ≡ false
any-retain_same p [] = refl
any-retain_same p (x ∷ xs) = ground (arith, any-retain_same p xs)

pub any-map :
    {A B : Type 0} (p : B → Bool) (f : A → B) (xs : List A)
    → any p (map f xs) ≡ any (λ x. p (f x)) xs
any-map p f [] = refl
any-map p f (x ∷ xs) = ground (arith, any-map p f xs)

any-retain :
    {A : Type 0} (p q : A → Bool) (xs : List A) → any p (retain q xs) ≡ any (λ x. q x && p x) xs
any-retain p q [] = refl
any-retain p q (x ∷ xs) = ground (arith, any-retain p q xs)

any-same :
    {A : Type 0} (p q : A → Bool) → ((x : A) → p x ≡ q x) → (xs : List A) → any p xs ≡ any q xs
any-same p q h [] = refl
any-same p q h (x ∷ xs) = rw (h x, any-same p q h xs) refl

other_member : (a self b : ℕ) → self ≢ b → (not (a == self) && (a == b)) ≡ (a == b)
other_member a self b ne = ground arith

other_pending :
    (p id : ServiceId) (self : ℕ)
    → ServiceId.aci_id self ≢ id
    → (not (same_service_id p (ServiceId.aci_id self)) && same_service_id p id)
      ≡ same_service_id p id
other_pending (ServiceId.aci_id a) (ServiceId.aci_id b) self ne =
    other_member a self b (λ e. ne (ap (λ x. ServiceId.aci_id x) e))
other_pending (ServiceId.aci_id a) (ServiceId.pni_id b) self ne = ground arith
other_pending (ServiceId.pni_id a) id self ne = refl

module _ {Role Access ProfileKey Timer : Type 0} (admin : Administrators Role Access) where
  -- After leaving, the account is no longer active in the group, and every other account is a member, and every
  -- other service id invited, exactly if it was before.
  pub mark_left-is_active :
      (group : Group Role Access ProfileKey Timer) (self_aci : ℕ) (promoted : List ℕ)
      (revision : Option ℕ)
      → (is_active (mark_left admin group self_aci promoted revision) self_aci ≡ false)
        × ((a : ℕ)
            → self_aci ≢ a
            → is_member (mark_left admin group self_aci promoted revision) a ≡ is_member group a)
        × ((id : ServiceId)
            → ServiceId.aci_id self_aci ≢ id
            → is_pending (mark_left admin group self_aci promoted revision) id
              ≡ is_pending group id)
  unfolding mark_left is_active is_member is_pending
  mark_left-is_active group self promoted revision =
      let staying = retain (λ m. not (m.aci == self)) group.members in
      let gone : any (λ m. m.aci == self) (map (promote admin promoted) staying) ≡ false =
        any-map (λ m. m.aci == self) (promote admin promoted) staying
        ∙ any-retain_same (λ m. m.aci == self) group.members in
      (
        rw
            (
              gone,
              any-retain_same (λ p. same_service_id (service_id_of p) (ServiceId.aci_id self))
                  group.pending_members,
            )
            refl,
        λ a ne.
            any-map (λ m. m.aci == a) (promote admin promoted) staying
            ∙ any-retain (λ m. m.aci == a) (λ m. not (m.aci == self)) group.members
            ∙ any-same (λ m. not (m.aci == self) && (m.aci == a)) (λ m. m.aci == a)
                (λ m. other_member m.aci self a ne) group.members,
        λ id ne.
            any-retain (λ p. same_service_id (service_id_of p) id)
              (λ p. not (same_service_id (service_id_of p) (ServiceId.aci_id self)))
              group.pending_members
            ∙ any-same
                (λ p.
                  not (same_service_id (service_id_of p) (ServiceId.aci_id self))
                  && same_service_id (service_id_of p) id)
                (λ p. same_service_id (service_id_of p) id)
                (λ p. other_pending (service_id_of p) id self ne) group.pending_members,
      )
