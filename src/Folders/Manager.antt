-- ===== src/Folders/Manager.antt =====
-- presage/src/manager/chat_folders.rs: listing, saving, deleting and renumbering the folders of a store that is
-- given by the four methods that the manager calls. The name's normalization and its check are the Unicode
-- crates', and the clock is an argument.
use presage.Prelude.{
  ℕ, suc, ◌^◌, ◌%◌, ◌==◌, leb, List, [], ◌∷◌, Option, none, some, Bool, true, false, not, ◌&&◌,
  if◌then◌else◌, length, retain, Result, ok, err, ok_or, ◌>>=◌,
}
use presage.Folders.{ChatFolder, ChatFolderType, is_live, is_all, tombstone}

-- The errors of these operations, and those of the store.
pub data FolderError (E : Type 0) : Type 0 where
  invalid_name unknown_folder undeletable : FolderError E
  store : E → FolderError E

pub record FolderStore (S E : Type 0) : Type 0 where
  pub chat_folders : S → Result (FolderError E) (List ChatFolder)
  pub chat_folder : S → List ℕ → Result (FolderError E) (Option ChatFolder)
  pub save_chat_folder : S → ChatFolder → Result (FolderError E) S
  pub set_chat_folder_needs_storage_sync : S → List ℕ → Bool → Result (FolderError E) S

abbrev pub is_known : ChatFolderType → Bool
is_known ChatFolderType.unknown = false
is_known _ = true

abbrev pub is_custom : ChatFolderType → Bool
is_custom ChatFolderType.custom = true
is_custom _ = false

-- `sort_by_key(|f| f.position)`, which is stable.
abbrev pub insert_by_position : ChatFolder → List ChatFolder → List ChatFolder
insert_by_position f [] = f ∷ []
insert_by_position f (g ∷ gs) =
    let later = g ∷ insert_by_position f gs in
    if leb f.position g.position then f ∷ g ∷ gs else later

abbrev pub sort_by_position : List ChatFolder → List ChatFolder
sort_by_position [] = []
sort_by_position (f ∷ fs) = insert_by_position f (sort_by_position fs)

module _ {S E : Type 0} (folders : FolderStore S E) where
  unfoldable pub listed_folders : S → Result (FolderError E) (List ChatFolder)
  listed_folders s = do
    all ← folders.chat_folders s
    ok (sort_by_position (retain (λ f. is_live f && is_known f.folder_type) all))

  unfoldable pub stage_chat_folder : S → ChatFolder → Result (FolderError E) S
  stage_chat_folder s folder = do
    s ← folders.save_chat_folder s folder
    folders.set_chat_folder_needs_storage_sync s folder.id true

  -- `match self.store.chat_folder(folder.id).await?`
  unfoldable pub position_for : S → Option ChatFolder → Result (FolderError E) ℕ
  unfolding listed_folders
  position_for s (some existing) = ok existing.position
  position_for s none = do live ← listed_folders s; ok (length live % 2 ^ 32)

  module _ (normalized_name : List ℕ → List ℕ) (is_valid_name : List ℕ → Bool) where
    abbrev pub named : ChatFolder → ChatFolder
    named folder =
        if is_custom folder.folder_type
        then record folder { name = normalized_name folder.name }
        else folder

    unfoldable pub save_folder : S → ChatFolder → Result (FolderError E) S
    unfolding position_for stage_chat_folder
    save_folder s folder =
        let folder = named folder in
        let saved = do
          existing ← folders.chat_folder s folder.id
          position ← position_for s existing
          stage_chat_folder s (record folder { position = position })
        in if is_custom folder.folder_type && not (is_valid_name folder.name)
          then err invalid_name
          else saved

  -- The `for` of `renumber_chat_folders`, from index `i` on.
  unfoldable pub renumber_from : S → ℕ → List ChatFolder → Result (FolderError E) S
  unfolding stage_chat_folder
  renumber_from s i [] = ok s
  renumber_from s i (folder ∷ rest) = do
    s ←
        if folder.position == i % 2 ^ 32
        then ok s
        else stage_chat_folder s (record folder { position = i % 2 ^ 32 })
    renumber_from s (suc i) rest

  unfoldable pub renumber_chat_folders : S → Result (FolderError E) S
  unfolding listed_folders renumber_from
  renumber_chat_folders s = do live ← listed_folders s; renumber_from s 0 live

  unfoldable pub delete_folder : S → List ℕ → ℕ → Result (FolderError E) S
  unfolding stage_chat_folder renumber_chat_folders
  delete_folder s id now_ms = do
    found ← folders.chat_folder s id
    folder ← ok_or found unknown_folder
    s ←
        if is_all folder.folder_type
        then err undeletable
        else stage_chat_folder s (tombstone folder now_ms)
    renumber_chat_folders s
