-- ===== src/Changes/Rounds.antt =====
-- How often a change of a group is sent, and what revision it is applied at: `apply_group_change` of
-- presage/src/manager/registered.rs.
use presage.Prelude.{
  ℕ, zero, suc, ◌+◌, ◌%◌, ◌^◌, ◌≤◌, List, Result, ok, err, ◌≡◌, refl, ap, ◌∙◌, arith, ok_same,
}
use presage.Prelude.Steps.{Step, fail, run_total, ◌>>=◌, >>=-ends_ok, >>=-within}
use presage.Groups.{Administrators}
use presage.Changes.Built.{ServiceError, ChangeError, Actions}
use presage.Changes.{
  GroupServices, GroupContext, after_patch, attempt_change, change_rounds, apply_group_change,
  group_update_conflict_retries,
}

module _ {W E Role Access ProfileKey Credential Action Change : Type 0}
    (services : GroupServices W E Role Access ProfileKey Credential Action Change) where
  -- Each call of the server's patch is one attempt, and the other calls of a change are none.
  pub record CountsPatches (patches : W → ℕ) : Type 0 where
    pub patched :
        (key : List ℕ) (actions : Actions Action) (w : W)
        → patches (services.patch_group key actions w).1 ≡ patches w + 1
    pub managed : (w : W) → patches (services.groups_manager w).1 ≡ patches w
    pub fetched : (key : List ℕ) (w : W) → patches (services.fetch_group key w).1 ≡ patches w

  -- A change that the server takes makes its version the revision of the group.
  pub record AppliesChanges (server_revision : W → ℕ) : Type 0 where
    pub applied :
        (key : List ℕ) (actions : Actions Action) (w : W) {change : Change}
        → (services.patch_group key actions w).0 ≡ ok change
        → server_revision (services.patch_group key actions w).1 ≡ actions.version

module _ {W E Role Access ProfileKey Credential Action Change : Type 0}
    (services : GroupServices W E Role Access ProfileKey Credential Action Change)
    (admin : Administrators Role Access) where
  module _ (patches : W → ℕ) (counts : CountsPatches services patches)
      (build : ℕ → Step W (ChangeError E) (Actions Action))
      (none_built : (version : ℕ) (w : W) → patches (build version w).1 ≡ patches w) where
    after_patch-within :
        (k : ℕ) (again : Step W (ChangeError E) (Change × ℕ))
        → ((w : W) → patches (again w).1 ≤ patches w + k)
        → (version : ℕ) (answer : Result (ServiceError E) Change) (w : W)
        → patches (after_patch services admin again version answer w).1 ≤ patches w + k
    after_patch-within k again few version (ok change) w = ground arith
    after_patch-within k again few version (err ServiceError.group_change_conflict) w = few w
    after_patch-within k again few version (err ServiceError.unauthorized) w = ground arith
    after_patch-within k again few version (err ServiceError.not_found_error) w = ground arith
    after_patch-within k again few version (err (ServiceError.other_error e)) w = ground arith

    attempt_change-within :
        (k : ℕ) (key : List ℕ) (again : Step W (ChangeError E) (Change × ℕ))
        → ((w : W) → patches (again w).1 ≤ patches w + k)
        → (revision : ℕ) (w : W)
        → patches (attempt_change services admin key build again revision w).1 ≤ patches w + (k + 1)
    attempt_change-within k key again few revision =
        let version = (revision + 1) % 2 ^ 32 in
        >>=-within (λ a b. patches b ≡ patches a) (λ a b. patches b ≤ patches a + (k + 1))
          (λ a b. patches b ≤ patches a + (k + 1)) (λ a b h. omega arith)
          (λ a b c h h'. omega arith) (build version)
          (λ actions. run_total (services.patch_group key actions) >>= λ answer.
            after_patch services admin again version answer)
          (none_built version)
          (λ actions.
            >>=-within (λ a b. patches b ≡ patches a + 1) (λ a b. patches b ≤ patches a + k)
              (λ a b. patches b ≤ patches a + (k + 1)) (λ a b h. omega arith)
              (λ a b c h h'. omega arith) (run_total (services.patch_group key actions))
              (λ answer. after_patch services admin again version answer)
              (counts.patched key actions) (after_patch-within k again few version))

    change_rounds-within :
        (conflicts : ℕ) (key : List ℕ) (revision : ℕ) (w : W)
        → patches (change_rounds services admin conflicts key build revision w).1
          ≤ patches w + (conflicts + 1)
    change_rounds-within zero key revision w =
        attempt_change-within 0 key
          (fail (ChangeError.service_error ServiceError.group_change_conflict)) (λ v. ground arith)
          revision w
    change_rounds-within (suc conflicts) key revision w =
        let bound =
          attempt_change-within (conflicts + 1) key
            (services.fetch_group key >>= λ server.
              change_rounds services admin conflicts key build server.version)
            (>>=-within (λ a b. patches b ≡ patches a)
              (λ a b. patches b ≤ patches a + (conflicts + 1))
              (λ a b. patches b ≤ patches a + (conflicts + 1)) (λ a b h. omega arith)
              (λ a b c h h'. omega arith) (services.fetch_group key)
              (λ server. change_rounds services admin conflicts key build server.version)
              (counts.fetched key) (λ server. change_rounds-within conflicts key server.version))
            revision w in
        omega arith

    -- Where a call of the server's patch is one attempt, and the other calls and the building of the actions are none: a
    -- change is attempted at most once more than the conflicts that are borne, whatever the server answers.
    pub apply_group_change-within :
        (key : List ℕ) (revision : ℕ) (w : W)
        → patches (apply_group_change services admin key revision build w).1
          ≤ patches w + (group_update_conflict_retries + 1)
    unfolding apply_group_change
    apply_group_change-within key revision =
        >>=-within (λ a b. patches b ≡ patches a) (λ a b. patches b ≤ patches a + 4)
          (λ a b. patches b ≤ patches a + 4) (λ a b h. omega arith) (λ a b c h h'. omega arith)
          services.groups_manager _ counts.managed
          (λ u.
            >>=-within (λ a b. patches b ≤ patches a + 4) (λ a b. patches b ≡ patches a)
              (λ a b. patches b ≤ patches a + 4) (λ a b h. h) (λ a b c h h'. omega arith)
              (change_rounds services admin group_update_conflict_retries key build revision) _
              (change_rounds-within group_update_conflict_retries key revision) (λ applied v. refl))

  module _ (server_revision : W → ℕ) (applies : AppliesChanges services server_revision)
      (build : ℕ → Step W (ChangeError E) (Actions Action))
      (build-version : (version : ℕ) (w : W) (actions : Actions Action)
        → (build version w).0 ≡ ok actions
        → actions.version ≡ version) where
    attempt_change-applied :
        (key : List ℕ) (again : Step W (ChangeError E) (Change × ℕ))
        → ((w : W) (out : Change × ℕ) → (again w).0 ≡ ok out → server_revision (again w).1 ≡ out.1)
        → (revision : ℕ) (w : W) {out : Change × ℕ}
        → (attempt_change services admin key build again revision w).0 ≡ ok out
        → server_revision (attempt_change services admin key build again revision w).1 ≡ out.1
    attempt_change-applied key again later revision w {out} h =
        let version = (revision + 1) % 2 ^ 32 in
        let (actions, made, h1, w1) = >>=-ends_ok (build version) _ w h in
        let v = (build version w).1 in
        ap server_revision w1
        ∙ after (services.patch_group key actions v).0 v actions refl
            (build-version version w actions made) h1
      where
        after :
            (answer : Result (ServiceError E) Change) (v : W) (actions : Actions Action)
            → (services.patch_group key actions v).0 ≡ answer
            → actions.version ≡ (revision + 1) % 2 ^ 32
            → (after_patch services admin again
                ((revision + 1) % 2 ^ 32)
                answer
                (services.patch_group key actions v).1).0
              ≡ ok out
            → server_revision
                (after_patch services admin again
                  ((revision + 1) % 2 ^ 32)
                  answer
                  (services.patch_group key actions v).1).1
              ≡ out.1
        after (ok change) v actions took is h =
            applies.applied key actions v took ∙ is ∙ ap (λ o. o.1) (ok_same refl h)
        after (err ServiceError.group_change_conflict) v actions took is h = later _ out h
        after (err ServiceError.unauthorized) v actions took is h = ground arith
        after (err ServiceError.not_found_error) v actions took is h = ground arith
        after (err (ServiceError.other_error e)) v actions took is h = ground arith

    change_rounds-applied :
        (conflicts : ℕ) (key : List ℕ) (revision : ℕ) (w : W) {out : Change × ℕ}
        → (change_rounds services admin conflicts key build revision w).0 ≡ ok out
        → server_revision (change_rounds services admin conflicts key build revision w).1 ≡ out.1
    change_rounds-applied zero key revision =
        attempt_change-applied key
          (fail (ChangeError.service_error ServiceError.group_change_conflict))
          (λ v out h. ground arith) revision
    change_rounds-applied (suc conflicts) key revision =
        attempt_change-applied key
          (services.fetch_group key >>= λ server.
            change_rounds services admin conflicts key build server.version)
          (λ v out h.
            let (server, got, h1, w1) = >>=-ends_ok (services.fetch_group key) _ v h in
            ap server_revision w1 ∙ change_rounds-applied conflicts key server.version _ h1)
          revision

    pub apply_group_change-applied :
        (key : List ℕ) (revision : ℕ) (w : W) {context : GroupContext Change}
        → (apply_group_change services admin key revision build w).0 ≡ ok context
        → server_revision (apply_group_change services admin key revision build w).1
          ≡ context.revision
    unfolding apply_group_change
    apply_group_change-applied key revision w h =
        let (u, managed, h1, w1) = >>=-ends_ok services.groups_manager _ w h in
        let (out, applied, h2, w2) =
          >>=-ends_ok
            (change_rounds services admin group_update_conflict_retries key build revision) _ _
            h1 in
        ap server_revision (w1 ∙ w2)
        ∙ change_rounds-applied group_update_conflict_retries key revision _ applied
        ∙ ap (λ (c : GroupContext Change). c.revision) (ok_same refl h2)
