-- ===== src/Folders/Merge.antt =====
-- `merge_chat_folder_from_snapshot`: deletions only move earlier, and syncs repeat and commute.
use presage.Prelude.{
  ℕ, ◌≤◌, ◌==◌, List, Option, none, some, true, false, not, if◌then◌else◌, ◌≡◌, ◌≢◌, refl, sym, ap,
  ◌∙◌, subst, arith, Bool-cases, ◌⊎◌, inl, inr,
}
use presage.Folders.{
  ChatFolder, is_all, all_chats, tombstone, earliest, dropped_here, merge_custom,
  merge_chat_folder_from_snapshot,
}

earliest-again : (a b : ℕ) → earliest (earliest a b) b ≡ earliest a b
earliest-again a b = ground arith

earliest-zero : (a b : ℕ) → (earliest a b == 0) ≡ true → b ≡ 0
earliest-zero a b h = ground arith

earliest_comm : (l a b : ℕ) → earliest (earliest l a) b ≡ earliest (earliest l b) a
earliest_comm l a b = ground arith

-- A record with a deletion time, or as it is for none.
abbrev stamp : ChatFolder → ℕ → ChatFolder
stamp remote d = if not (d == 0) then tombstone remote d else remote

merge_custom-stamp :
    (local remote : ChatFolder)
    → merge_custom (some local) remote
      ≡ some (stamp remote (earliest local.deleted_at_timestamp_ms remote.deleted_at_timestamp_ms))
unfolding merge_custom
merge_custom-stamp local remote =
    elim (Bool-cases (earliest local.deleted_at_timestamp_ms remote.deleted_at_timestamp_ms == 0)) [
      | inl zero' ↦ rw zero' refl
      | inr time ↦ rw time refl
    ]

stamp-deleted :
    (a : ℕ) (remote : ChatFolder)
    → (stamp remote (earliest a remote.deleted_at_timestamp_ms)).deleted_at_timestamp_ms
      ≡ earliest a remote.deleted_at_timestamp_ms
unfolding tombstone
stamp-deleted a remote = elim (Bool-cases (earliest a remote.deleted_at_timestamp_ms == 0)) [
  | inl zero' ↦
      let e : remote.deleted_at_timestamp_ms ≡ earliest a remote.deleted_at_timestamp_ms =
        ground (arith, earliest-zero a remote.deleted_at_timestamp_ms zero') in
      rw zero' e
  | inr time ↦ rw time refl
]

some-eq : {A : Type 0} {x y : A} → some x ≡ some y → x ≡ y
some-eq h = ground arith

merge_custom-again :
    (local : Option ChatFolder) (remote merged : ChatFolder)
    → merge_custom local remote ≡ some merged
    → merge_custom (some merged) remote ≡ some merged
unfolding merge_custom
merge_custom-again none remote merged h = elim (Bool-cases (remote.deleted_at_timestamp_ms == 0)) [
  | inl live ↦
      let same : remote ≡ merged = some-eq (rw live at h) in
      subst (λ m. merge_custom (some m) remote ≡ some m) same
        (merge_custom-stamp remote remote
          ∙ ap (λ d. some (stamp remote d)) (zero_twice remote.deleted_at_timestamp_ms live))
  | inr dead ↦ let h' = rw dead at h in cc
]
  where
    zero_twice : (d : ℕ) → (d == 0) ≡ true → earliest d d ≡ 0
    zero_twice d h = ground arith
merge_custom-again (some local) remote merged h =
    let l = local.deleted_at_timestamp_ms in
    let r = remote.deleted_at_timestamp_ms in
    let same : stamp remote (earliest l r) ≡ merged =
      some-eq (sym (merge_custom-stamp local remote) ∙ h) in
    subst (λ m. merge_custom (some m) remote ≡ some m) same
      (merge_custom-stamp (stamp remote (earliest l r)) remote
        ∙ ap (λ d. some (stamp remote (earliest d r))) (stamp-deleted l remote)
        ∙ ap (λ d. some (stamp remote d)) (earliest-again l r))

all_again : (id : List ℕ) → dropped_here (some (all_chats id)) ≡ false
unfolding all_chats
all_again id = refl

-- Merging a record, with no local change pending, into the folder that the merge of this record gave, gives
-- the same folder.
pub merge_chat_folder-again :
    (local : Option ChatFolder) (remote : ChatFolder) (merged : ChatFolder)
    → merge_chat_folder_from_snapshot local remote false ≡ some merged
    → merge_chat_folder_from_snapshot (some merged) remote false ≡ some merged
unfolding merge_chat_folder_from_snapshot
merge_chat_folder-again local remote merged h = elim (Bool-cases (is_all remote.folder_type)) [
  | inl all' ↦
      let h' = rw all' at h in
      elim (Bool-cases (dropped_here local)) [
        | inl dropped ↦ let h'' = rw dropped at h' in cc
        | inr kept ↦
            let same : all_chats remote.id ≡ merged = some-eq (rw kept at h') in
            rw all' (
              subst
                (λ m. (if dropped_here (some m) then none else some (all_chats remote.id)) ≡ some m)
                same (rw (all_again remote.id) refl))
      ]
  | inr custom' ↦ rw custom' (merge_custom-again local remote merged (rw custom' at h))
]

merge_chat_folder-deleted :
    (local remote merged : ChatFolder)
    → is_all remote.folder_type ≡ false
    → merge_chat_folder_from_snapshot (some local) remote false ≡ some merged
    → merged.deleted_at_timestamp_ms
      ≡ earliest local.deleted_at_timestamp_ms remote.deleted_at_timestamp_ms
unfolding merge_chat_folder_from_snapshot
merge_chat_folder-deleted local remote merged custom' h =
    let h' : merge_custom (some local) remote ≡ some merged = rw custom' at h in
    ap (λ m. m.deleted_at_timestamp_ms) (some-eq (sym h' ∙ merge_custom-stamp local remote))
    ∙ stamp-deleted local.deleted_at_timestamp_ms remote

-- What `earliest` promises of a time that is 0 for none.
abbrev pub Earlier : ℕ → ℕ → Type 0
Earlier merged before = before ≢ 0 → (merged ≢ 0) × (merged ≤ before)

earliest-Earlier : (a b d : ℕ) → d ≡ earliest a b → Earlier d a × Earlier d b × ((d ≡ a) ⊎ (d ≡ b))
earliest-Earlier a b d h = (
  λ ne. (λ z. absurd (ground arith), ground arith),
  λ ne. (λ z. absurd (ground arith), ground arith),
  ground arith,
)

-- For a stored folder, a record of another folder than the all-chats one and no local change pending: a
-- deletion on either side is still one after the merge, at the same time or earlier, and the time is one of
-- the two.
pub merge_chat_folder-Earlier :
    (local remote merged : ChatFolder)
    → is_all remote.folder_type ≡ false
    → merge_chat_folder_from_snapshot (some local) remote false ≡ some merged
    → Earlier merged.deleted_at_timestamp_ms local.deleted_at_timestamp_ms
      × Earlier merged.deleted_at_timestamp_ms remote.deleted_at_timestamp_ms
      × ((merged.deleted_at_timestamp_ms ≡ local.deleted_at_timestamp_ms)
          ⊎ (merged.deleted_at_timestamp_ms ≡ remote.deleted_at_timestamp_ms))
merge_chat_folder-Earlier local remote merged custom' h =
    earliest-Earlier local.deleted_at_timestamp_ms remote.deleted_at_timestamp_ms
      merged.deleted_at_timestamp_ms (merge_chat_folder-deleted local remote merged custom' h)

-- For a stored folder, two records of other folders than the all-chats one and no local change pending:
-- merging the one and then the other leaves the same deletion time in either order.
pub merge_chat_folder-order :
    (local a b after_a after_ab after_b after_ba : ChatFolder)
    → is_all a.folder_type ≡ false
    → is_all b.folder_type ≡ false
    → merge_chat_folder_from_snapshot (some local) a false ≡ some after_a
    → merge_chat_folder_from_snapshot (some after_a) b false ≡ some after_ab
    → merge_chat_folder_from_snapshot (some local) b false ≡ some after_b
    → merge_chat_folder_from_snapshot (some after_b) a false ≡ some after_ba
    → after_ab.deleted_at_timestamp_ms ≡ after_ba.deleted_at_timestamp_ms
merge_chat_folder-order local a b after_a after_ab after_b after_ba ca cb h1 h2 h3 h4 =
    merge_chat_folder-deleted after_a b after_ab cb h2
    ∙ ap (λ d. earliest d b.deleted_at_timestamp_ms)
        (merge_chat_folder-deleted local a after_a ca h1)
    ∙ earliest_comm local.deleted_at_timestamp_ms a.deleted_at_timestamp_ms
        b.deleted_at_timestamp_ms
    ∙ sym (
        ap (λ d. earliest d a.deleted_at_timestamp_ms)
          (merge_chat_folder-deleted local b after_b cb h3))
    ∙ sym (merge_chat_folder-deleted after_b a after_ba ca h4)
