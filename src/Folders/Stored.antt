-- ===== src/Folders/Stored.antt =====
-- presage/src/manager/chat_folders.rs: what saving and renumbering leave in a store that keeps its rows.
use presage.Prelude.{
  ℕ, suc, ◌^◌, ◌%◌, ◌==◌, ◌≢◌, List, [], ◌∷◌, some, Bool, true, false, not, ◌&&◌, if◌then◌else◌,
  Result, ok, err, ◌>>=◌, >>=-eq-ok, ◌≡◌, refl, sym, ap, ◌∙◌, arith, Bool-cases, inl, inr, ==_iff,
}
use presage.Wire.Scan.{All}
use presage.Account.{same_bytes}
use presage.Account.Pins.{same_bytes_refl, same_bytes-eq}
use presage.Folders.{ChatFolder}
use presage.Folders.Manager.{
  FolderError, FolderStore, is_custom, stage_chat_folder, position_for, named, save_folder,
  renumber_from,
}

-- A saved folder is found under its identifier, no other row changes, and a mark changes no row.
pub record KeepsFolders {S E : Type 0} (folders : FolderStore S E) : Type 0 where
  pub saved :
      (s : S) (folder : ChatFolder) (id : List ℕ) {s' : S}
      → folders.save_chat_folder s folder ≡ ok s'
      → folders.chat_folder s' id
        ≡ (if same_bytes id folder.id then ok (some folder) else folders.chat_folder s id)
  pub marked :
      (s : S) (id id' : List ℕ) (mark : Bool) {s' : S}
      → folders.set_chat_folder_needs_storage_sync s id mark ≡ ok s'
      → folders.chat_folder s' id' ≡ folders.chat_folder s id'

same_bytes_ne : (a b : List ℕ) → a ≢ b → same_bytes a b ≡ false
same_bytes_ne a b ne = elim (Bool-cases (same_bytes a b)) [
  | inl same ↦ absurd (ne (same_bytes-eq a b same))
  | inr other ↦ other
]

checked :
    {E A : Type 0} (b : Bool) (e : FolderError E) (r : Result (FolderError E) A) {a : A}
    → (if b then err e else r) ≡ ok a
    → (b ≡ false) × (r ≡ ok a)
checked true e r h = cc
checked false e r h = (refl, h)

module _ {S E : Type 0} (folders : FolderStore S E) (keeps : KeepsFolders folders) where
  stage-saved :
      (s : S) (folder : ChatFolder) (id : List ℕ) {s' : S}
      → stage_chat_folder folders s folder ≡ ok s'
      → folders.chat_folder s' id
        ≡ (if same_bytes id folder.id then ok (some folder) else folders.chat_folder s id)
  unfolding stage_chat_folder
  stage-saved s folder id h =
      let (s1, save, mark) = >>=-eq-ok (folders.save_chat_folder s folder) _ h in
      keeps.marked s1 folder.id id true mark ∙ keeps.saved s folder id save

  -- The rows of distinct folders, each with its index from `i` on as position.
  abbrev pub Positioned : S → ℕ → List ChatFolder → Type 0
  Positioned s i [] = Unit
  Positioned s i (f ∷ fs) =
      (folders.chat_folder s f.id ≡ ok (some (record f { position = i % 2 ^ 32 })))
      × Positioned s (suc i) fs

  abbrev pub Stored : S → List ChatFolder → Type 0
  Stored s = All (λ f. folders.chat_folder s f.id ≡ ok (some f))

  abbrev pub Distinct : List ChatFolder → Type 0
  Distinct [] = Unit
  Distinct (f ∷ fs) = All (λ g. f.id ≢ g.id) fs × Distinct fs

  Moved : S → S → ℕ → ChatFolder → Type 0
  Moved s s' k f =
      (folders.chat_folder s' f.id ≡ ok (some (record f { position = k })))
      × ((id : List ℕ) → f.id ≢ id → folders.chat_folder s' id ≡ folders.chat_folder s id)

  in_place :
      (s : S) (k : ℕ) (f : ChatFolder) {s' : S}
      → folders.chat_folder s f.id ≡ ok (some f)
      → f.position ≡ k
      → ◌≡◌ {A = Result (FolderError E) S} (ok s) (ok s')
      → Moved s s' k f
  unfolding Moved
  in_place s k f {s'} found there h =
      let same : s ≡ s' = ground arith in
      (
        ap (λ t. folders.chat_folder t f.id) (sym same)
            ∙ found
            ∙ ap (λ v. ok (some (record f { position = v }))) there,
        λ id ne. ap (λ t. folders.chat_folder t id) (sym same),
      )

  moved :
      (s : S) (k : ℕ) (f : ChatFolder) {s' : S}
      → stage_chat_folder folders s (record f { position = k }) ≡ ok s'
      → Moved s s' k f
  unfolding Moved
  moved s k f {s'} h = (
    stage-saved s (record f { position = k }) f.id h ∙ rw (same_bytes_refl f.id) refl,
    λ id ne.
        stage-saved s (record f { position = k }) id h
        ∙ rw (same_bytes_ne id f.id (λ e. ne (sym e))) refl,
  )

  one-round :
      (s : S) (k : ℕ) (f : ChatFolder) {s' : S}
      → folders.chat_folder s f.id ≡ ok (some f)
      → (if f.position == k then ok s else stage_chat_folder folders s (record f { position = k }))
        ≡ ok s'
      → Moved s s' k f
  one-round s k f found h = elim (Bool-cases (f.position == k)) [
    | inl there ↦ in_place s k f found ((==_iff f.position k).0 there) (rw there at h)
    | inr other ↦ moved s k f (rw other at h)
  ]

  Stored-Moved :
      (s s' : S) (k : ℕ) (f : ChatFolder) (fs : List ChatFolder)
      → Moved s s' k f
      → All (λ g. f.id ≢ g.id) fs
      → Stored s fs
      → Stored s' fs
  unfolding Moved
  Stored-Moved s s' k f [] m ne h = tt
  Stored-Moved s s' k f (g ∷ fs) m ne h = (m.1 g.id ne.0 ∙ h.0, Stored-Moved s s' k f fs m ne.1 h.1)

  renumber-frame :
      (fs : List ChatFolder) (s : S) (i : ℕ) (id : List ℕ) {s' : S}
      → Distinct fs
      → Stored s fs
      → All (λ g. g.id ≢ id) fs
      → renumber_from folders s i fs ≡ ok s'
      → folders.chat_folder s' id ≡ folders.chat_folder s id
  unfolding renumber_from Moved
  renumber-frame [] s i id {s'} d h ne e =
      let same : s ≡ s' = ground arith in ap (λ t. folders.chat_folder t id) (sym same)
  renumber-frame (f ∷ fs) s i id d h ne e =
      let (s1, step, rest) =
        >>=-eq-ok
          (if f.position == i % 2 ^ 32
            then ok s
            else stage_chat_folder folders s (record f { position = i % 2 ^ 32 }))
          _ e in
      let m = one-round s (i % 2 ^ 32) f h.0 step in
      renumber-frame fs s1 (suc i) id d.1 (Stored-Moved s s1 (i % 2 ^ 32) f fs m d.0 h.1) ne.1 rest
      ∙ m.1 id ne.0

  others_of :
      (f : ChatFolder) (fs : List ChatFolder)
      → All (λ g. f.id ≢ g.id) fs
      → All (λ g. g.id ≢ f.id) fs
  others_of f [] h = tt
  others_of f (g ∷ fs) h = (λ e. h.0 (sym e), others_of f fs h.1)

  -- For a store that keeps what is saved, and rows of distinct identifiers that are stored as listed: when
  -- renumbering from an index on succeeds, each listed row is stored with its index as position and unchanged
  -- otherwise, and every row that is not listed is as before.
  pub renumber_from-Positioned :
      (fs : List ChatFolder) (s : S) (i : ℕ) {s' : S}
      → Distinct fs
      → Stored s fs
      → renumber_from folders s i fs ≡ ok s'
      → Positioned s' i fs
        × ((id : List ℕ)
            → All (λ g. g.id ≢ id) fs
            → folders.chat_folder s' id ≡ folders.chat_folder s id)
  unfolding renumber_from Moved
  renumber_from-Positioned [] s i d h e = (tt, λ id ne. renumber-frame [] s i id d h ne e)
  renumber_from-Positioned (f ∷ fs) s i d h e =
      let (s1, step, rest) =
        >>=-eq-ok
          (if f.position == i % 2 ^ 32
            then ok s
            else stage_chat_folder folders s (record f { position = i % 2 ^ 32 }))
          _ e in
      let m = one-round s (i % 2 ^ 32) f h.0 step in
      let stored = Stored-Moved s s1 (i % 2 ^ 32) f fs m d.0 h.1 in
      (
        (
          renumber-frame fs s1 (suc i) f.id d.1 stored (others_of f fs d.0) rest ∙ m.0,
          (renumber_from-Positioned fs s1 (suc i) d.1 stored rest).0,
        ),
        λ id ne. renumber-frame (f ∷ fs) s i id d h ne e,
      )

  module _ (normalized_name : List ℕ → List ℕ) (is_valid_name : List ℕ → Bool) where
    named-id :
        (folder : ChatFolder) → (named folders normalized_name is_valid_name folder).id ≡ folder.id
    named-id folder = elim (Bool-cases (is_custom folder.folder_type)) [
      | inl custom' ↦ rw custom' refl
      | inr other ↦ rw other refl
    ]

    valid-name :
        (folder : ChatFolder)
        → (is_custom (named folders normalized_name is_valid_name folder).folder_type
            && not (is_valid_name (named folders normalized_name is_valid_name folder).name))
          ≡ false
        → (is_custom folder.folder_type && not (is_valid_name (normalized_name folder.name)))
          ≡ false
    valid-name folder h = elim (Bool-cases (is_custom folder.folder_type)) [
      | inl custom' ↦ let h' = rw custom' at h in rw custom' (rw custom' at h')
      | inr other ↦ rw other refl
    ]

    save-existing :
        (s : S) (folder existing : ChatFolder) {s' : S}
        → folders.chat_folder s folder.id ≡ ok (some existing)
        → (do
          found ← folders.chat_folder s folder.id
          position ← position_for folders s found
          stage_chat_folder folders s (record folder { position = position }))
          ≡ ok s'
        → stage_chat_folder folders s (record folder { position = existing.position }) ≡ ok s'
    unfolding position_for
    save-existing s folder existing found h = rw found at h

    -- For a store that keeps what is saved: saving a folder whose identifier is stored, when it succeeds, stores
    -- the folder, with the normalized name if it is a custom one, at the position that was stored, and leaves
    -- every other row as it was; a custom folder is only saved under a valid name.
    pub save_folder-stored :
        (s : S) (folder existing : ChatFolder) {s' : S}
        → folders.chat_folder s folder.id ≡ ok (some existing)
        → save_folder folders normalized_name is_valid_name s folder ≡ ok s'
        → (folders.chat_folder s' folder.id
            ≡ ok (
                some (record (named folders normalized_name is_valid_name folder) {
                  position = existing.position;
                })))
          × ((id : List ℕ) → folder.id ≢ id → folders.chat_folder s' id ≡ folders.chat_folder s id)
          × ((is_custom folder.folder_type && not (is_valid_name (normalized_name folder.name)))
              ≡ false)
    unfolding save_folder Moved
    save_folder-stored s folder existing {s'} found h =
        let n = named folders normalized_name is_valid_name folder in
        let (valid, done) = checked _ FolderError.invalid_name _ h in
        let staged =
          save-existing s n existing (ap (folders.chat_folder s) (named-id folder) ∙ found) done in
        let (here, there) = moved s existing.position n staged in
        (
          ap (folders.chat_folder s') (sym (named-id folder)) ∙ here,
          λ id ne. there id (λ e. ne (sym (named-id folder) ∙ e)),
          valid-name folder valid,
        )
