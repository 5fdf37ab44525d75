-- ===== src/Changes/Leave.antt =====
-- Leaving a group: `leave_group` of presage/src/manager/registered.rs, and what it stores.
use presage.Prelude.{
  ℕ, ◌==◌, List, [], ◌∷◌, Option, some, Bool, true, false, not, ◌&&◌, ◌||◌, any, map, retain,
  Result, ok, ok_or, ◌≡◌, refl, sym, ap, ◌∙◌, arith, ok_same, Bool-cases, inl, inr,
}
use presage.Prelude.Steps.{lift, >>=-ends_ok}
use presage.Publish.{is_empty}
use presage.Groups.{
  Group, Member, ServiceId, Administrators, is_active, is_pending, is_member, mark_left, promote,
}
use presage.Groups.Members.{any-map, mark_left-is_active}
use presage.Changes.Built.{
  ChangeError, Actions, GroupOperations, leave_actions, push_each, push_role,
}
use presage.Changes.{
  GroupServices, GroupContext, leave_orphans_the_group, change_stored_group, leave_and_save,
  leave_stored_group, leave_group, apply_group_change,
}
use presage.Changes.Rounds.{AppliesChanges, apply_group_change-applied}

any-same :
    {A : Type 0} (p q : A → Bool) → ((x : A) → p x ≡ q x) → (xs : List A) → any p xs ≡ any q xs
any-same p q same [] = refl
any-same p q same (x ∷ xs) = ground (arith, same x, any-same p q same xs)

is_empty-map : {A B : Type 0} (f : A → B) (xs : List A) → is_empty (map f xs) ≡ is_empty xs
is_empty-map f [] = refl
is_empty-map f (x ∷ xs) = refl

mark_left-revision :
    {Role Access ProfileKey Timer : Type 0} (admin : Administrators Role Access)
    (g : Group Role Access ProfileKey Timer) (self_aci : ℕ) (promoted : List ℕ) (revision : ℕ)
    → (mark_left admin g self_aci promoted (some revision)).revision ≡ revision
unfolding mark_left
mark_left-revision admin g self_aci promoted revision = refl

led_or_empty : (e a : Bool) → (not e && not a) ≡ false → (e || a) ≡ true
led_or_empty true a h = refl
led_or_empty false true h = refl
led_or_empty false false h = cc

module _ {Role Access ProfileKey : Type 0} (admin : Administrators Role Access)
    (has_administrator : admin.is_role admin.role ≡ true) where
  is_role-promote :
      (promoted : List ℕ) (m : Member Role ProfileKey)
      → admin.is_role (promote admin promoted m).role
        ≡ (admin.is_role m.role || any (λ a. a == m.aci) promoted)
  is_role-promote promoted m = elim (Bool-cases (any (λ a. a == m.aci) promoted)) [
    | inl named ↦
        rw (named, has_administrator)
          (elim (Bool-cases (admin.is_role m.role)) [
            | inl is ↦ rw is refl
            | inr not_one ↦ rw not_one refl
          ])
    | inr other ↦ rw other (elim (Bool-cases (admin.is_role m.role)) [
      | inl is ↦ rw is refl
      | inr not_one ↦ rw not_one refl
    ])
  ]

module _ {Role Access ProfileKey Timer : Type 0} (admin : Administrators Role Access)
    (has_administrator : admin.is_role admin.role ≡ true) where
  -- A group that leaving does not orphan: who stays is nobody, or has an administrator.
  mark_left-led :
      (group : Group Role Access ProfileKey Timer) (self_aci : ℕ) (promoted : List ℕ)
      (revision : Option ℕ)
      → leave_orphans_the_group admin group self_aci promoted ≡ false
      → (is_empty (mark_left admin group self_aci promoted revision).members
          || any
              (λ m. admin.is_role m.role)
              (mark_left admin group self_aci promoted revision).members)
        ≡ true
  unfolding leave_orphans_the_group mark_left
  mark_left-led group self promoted revision h =
      let others = retain (λ m. not (m.aci == self)) group.members in
      rw
        (
          is_empty-map (promote admin promoted) others,
          any-map (λ m. admin.is_role m.role) (promote admin promoted) others,
          any-same (λ m. admin.is_role (promote admin promoted m).role)
              (λ m. admin.is_role m.role || any (λ a. a == m.aci) promoted)
              (is_role-promote admin has_administrator promoted) others,
        )
        (led_or_empty (is_empty others) _ h)

module _ {W E Role Access ProfileKey Credential Action Change : Type 0}
    (services : GroupServices W E Role Access ProfileKey Credential Action Change) where
  -- The store answers with the group that it keeps, and a saved group is kept; saving changes nothing on the server.
  pub record KeepsGroups (group_of : W → List ℕ → Option (Group Role Access ProfileKey ℕ))
      (server_revision : W → ℕ) : Type 0 where
    pub group_read :
        (key : List ℕ) (w : W) {x : Option (Group Role Access ProfileKey ℕ)}
        → (services.group key w).0 ≡ ok x
        → group_of w key ≡ x
    pub group_saved :
        (key : List ℕ) (g : Group Role Access ProfileKey ℕ) (w : W)
        → (services.save_group key g w).0 ≡ ok tt
        → (group_of (services.save_group key g w).1 key ≡ some g)
          × (server_revision (services.save_group key g w).1 ≡ server_revision w)

module _ {W E Role Credential Action : Type 0}
    (operations : GroupOperations W E Role Credential Action) where
  push_each-version :
      (build : ℕ → Result (ChangeError E) Action) (acis : List ℕ) (actions : Actions Action) (w : W)
      {out : Actions Action}
      → (push_each build push_role acis actions w).0 ≡ ok out
      → out.version ≡ actions.version
  push_each-version build [] actions w h =
      ap (λ (a : Actions Action). a.version) (sym (ok_same refl h))
  push_each-version build (aci ∷ acis) actions w h =
      let (action, made, h1, w1) = >>=-ends_ok (lift (build aci)) _ w h in
      push_each-version build acis (push_role action actions) w h1

  leave_actions-version :
      (default_role administrator : Role) (self_aci : ℕ) (pending_self : Bool) (promoted : List ℕ)
      (version : ℕ) (w : W) (out : Actions Action)
      → (leave_actions operations default_role administrator self_aci pending_self promoted version
          w).0
        ≡ ok out
      → out.version ≡ version
  unfolding leave_actions
  leave_actions-version default_role administrator self true promoted version w out h =
      let (action, made, h1, w1) =
        >>=-ends_ok (lift (operations.build_remove_pending_member_action (ServiceId.aci_id self))) _
          w h in
      ap (λ (a : Actions Action). a.version) (sym (ok_same refl h1))
  leave_actions-version default_role administrator self false promoted version w out h =
      let (actions, pushed, h1, w1) =
        >>=-ends_ok
          (push_each (λ aci. operations.build_modify_member_role_action aci administrator) push_role
            promoted _)
          _ w h in
      let (action, made, h2, w2) =
        >>=-ends_ok (lift (operations.build_remove_member_action self)) _ _ h1 in
      ap (λ (a : Actions Action). a.version) (sym (ok_same refl h2))
      ∙ push_each-version _ promoted _ w pushed

module _ {W Role Access ProfileKey : Type 0} (admin : Administrators Role Access) (self_aci : ℕ)
    (group_of : W → List ℕ → Option (Group Role Access ProfileKey ℕ))
    (server_revision : W → ℕ) where
  -- What is stored once an account has left: it is not active in the group any more, the revision is the server's, and
  -- unless it had only been invited, nobody is left or there is an administrator.
  abbrev pub Left : Group Role Access ProfileKey ℕ → W → List ℕ → Type 0
  Left local w key =
      (left : Group Role Access ProfileKey ℕ) × (group_of w key ≡ some left)
      × (is_active left self_aci ≡ false)
      × (left.revision ≡ server_revision w)
      × ((is_pending local (ServiceId.aci_id self_aci)
            || (is_empty left.members || any (λ m. admin.is_role m.role) left.members))
          ≡ true)

module _ {W E Role Access ProfileKey Credential Action Change : Type 0}
    (services : GroupServices W E Role Access ProfileKey Credential Action Change)
    (admin : Administrators Role Access) (has_administrator : admin.is_role admin.role ≡ true)
    (operations : GroupOperations W E Role Credential Action) (default_role : Role) (self_aci : ℕ)
    (group_of : W → List ℕ → Option (Group Role Access ProfileKey ℕ)) (server_revision : W → ℕ)
    (keeps : KeepsGroups services group_of server_revision)
    (applies : AppliesChanges services server_revision) where
  leave_and_save-Left :
      (key : List ℕ) (promoted : List ℕ) (local : Group Role Access ProfileKey ℕ) (w : W)
      {context : GroupContext Change}
      → (not (is_pending local (ServiceId.aci_id self_aci))
          && leave_orphans_the_group admin local self_aci promoted)
        ≡ false
      → (leave_and_save services admin operations default_role self_aci key promoted local w).0
        ≡ ok context
      → Left admin self_aci group_of server_revision local
          (leave_and_save services admin operations default_role self_aci key promoted local w).1
          key
  leave_and_save-Left key promoted local w no_orphan h =
      let pending = is_pending local (ServiceId.aci_id self_aci) in
      let build = leave_actions operations default_role admin.role self_aci pending promoted in
      let (context, changed, h1, w1) =
        >>=-ends_ok (apply_group_change services admin key local.revision build) _ w h in
      let v = (apply_group_change services admin key local.revision build w).1 in
      let left = mark_left admin local self_aci promoted (some context.revision) in
      let (u, saved, h2, w2) = >>=-ends_ok (services.save_group key left) _ v h1 in
      let (kept, same) = keeps.group_saved key left v saved in
      let end = w1 ∙ w2 in
      let applied =
        apply_group_change-applied services admin server_revision applies build
          (leave_actions-version operations default_role admin.role self_aci pending promoted) key
          local.revision w changed in
      (
        left,
        ap (λ x. group_of x key) end ∙ kept,
        (mark_left-is_active admin local self_aci promoted (some context.revision)).0,
        mark_left-revision admin local self_aci promoted context.revision
            ∙ sym (ap server_revision end ∙ same ∙ applied),
        elim (Bool-cases pending) [
          | inl yes' ↦ rw yes' refl
          | inr no' ↦ rw no' (
              mark_left-led admin has_administrator local self_aci promoted (some context.revision)
                (rw no' at no_orphan))
        ],
      )

  leave_stored_group-Left :
      (key : List ℕ) (promoted : List ℕ) (local : Group Role Access ProfileKey ℕ) (w : W)
      {context : GroupContext Change}
      → (leave_stored_group services admin operations default_role self_aci key promoted local w).0
        ≡ ok context
      → Left admin self_aci group_of server_revision local
          (leave_stored_group services admin operations default_role self_aci key promoted local
            w).1
          key
  leave_stored_group-Left key promoted local w h =
      let pending = is_pending local (ServiceId.aci_id self_aci) in
      elim (Bool-cases (not pending && not (is_member local self_aci))) [
        | inl stranger ↦ absurd (let bad = rw stranger at h in ground arith)
        | inr known ↦
            let h' = rw known at h in
            elim (Bool-cases
              (not pending && leave_orphans_the_group admin local self_aci promoted)) [
                | inl orphans ↦ absurd (let bad = rw orphans at h' in ground arith)
                | inr led ↦
                    rw (known, led) (leave_and_save-Left key promoted local w led (rw led at h'))
              ]
      ]

  -- With an administrator's role that is recognised, a store that keeps what is saved and a server that takes a change
  -- at its version: when leaving ends well, the group was stored, and the row that is stored now is one of a group that
  -- the account has left, at the server's revision; unless the account had only been invited, nobody is left in it or
  -- one of those who are is an administrator.
  pub leave_group-Left :
      (key : List ℕ) (promoted : List ℕ) (w : W) {context : GroupContext Change}
      → (leave_group services admin operations default_role self_aci key promoted w).0 ≡ ok context
      → (local : Group Role Access ProfileKey ℕ) × (group_of w key ≡ some local)
        × Left admin self_aci group_of server_revision local
            (leave_group services admin operations default_role self_aci key promoted w).1
            key
  unfolding leave_group
  leave_group-Left key promoted w h =
      let (local, found, h1, w1) =
        >>=-ends_ok (change_stored_group services admin key)
          (leave_stored_group services admin operations default_role self_aci key promoted) w h in
      let (x, read, h2, w2) = >>=-ends_ok (services.group key) _ w found in
      let there : ok_or x ChangeError.unknown_group ≡ ok local = h2 in
      let is : x ≡ some local = ground arith in
      let (left, kept, gone, revision, led) = leave_stored_group-Left key promoted local _ h1 in
      (
        local,
        keeps.group_read key w read ∙ is,
        (
          left,
          ap (λ v. group_of v key) w1 ∙ kept,
          gone,
          revision ∙ sym (ap server_revision w1),
          led,
        ),
      )
