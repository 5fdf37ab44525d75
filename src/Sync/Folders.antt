-- ===== src/Sync/Folders.antt =====
-- presage/src/manager/storage.rs, `reappend_chat_folders_missing_from_manifest` and
-- `ensure_single_all_chats_folder`, which a sync ends with.
use presage.Prelude.{
  ℕ, ◌==◌, ltb, List, [], ◌∷◌, retain, Option, none, some, Bool, true, false, ◌&&◌, ◌||◌,
  if◌then◌else◌, Result, ok, err,
}
use presage.Prelude.Steps.{Step, done, attempt, run_total, ◌>>=◌, ◌>>◌}
use presage.Folders.{ChatFolder, is_live, is_all, all_chats, tombstone}
use presage.Manifest.Update.{StorageRecordIdentity}
use presage.Sync.{SyncStore, or_warn, found}
use presage.Sync.Merge.{contains}

abbrev pub chat_folder_expired_at_ms : ℕ
chat_folder_expired_at_ms = 1

-- `None < Some(_)`, as Rust orders options
abbrev pub later_version : Option ℕ → Option ℕ → Bool
later_version none b = false
later_version (some a) none = true
later_version (some a) (some b) = ltb b a

abbrev pub same_version : Option ℕ → Option ℕ → Bool
same_version none none = true
same_version (some a) (some b) = a == b
same_version _ _ = false

-- The order of byte lists.
abbrev pub bytes_leb : List ℕ → List ℕ → Bool
bytes_leb [] ys = true
bytes_leb (x ∷ xs) [] = false
bytes_leb (x ∷ xs) (y ∷ ys) = let rest = bytes_leb xs ys in ltb x y || ((x == y) && rest)

-- `(Reverse(version), id)`, compared
abbrev pub held_longer : List ℕ × Option ℕ → List ℕ × Option ℕ → Bool
held_longer (id, version) (id', version') =
    later_version version version' || (same_version version version' && bytes_leb id id')

abbrev pub insert_held : List ℕ × Option ℕ → List (List ℕ × Option ℕ) → List (List ℕ × Option ℕ)
insert_held f [] = f ∷ []
insert_held f (g ∷ gs) =
    let after = g ∷ insert_held f gs in if held_longer f g then f ∷ g ∷ gs else after

abbrev pub sort_held : List (List ℕ × Option ℕ) → List (List ℕ × Option ℕ)
sort_held [] = []
sort_held (f ∷ fs) = insert_held f (sort_held fs)

abbrev pub version_of_identity : Option StorageRecordIdentity → Option ℕ
version_of_identity none = none
version_of_identity (some identity) = some identity.storage_version

module _ {W E Handle Phone Verified Avatar Role Access ProfileKey C : Type 0}
    (store : SyncStore W E Handle Phone Verified Avatar Role Access ProfileKey C) where
  abbrev pub reappend_folder :
      List (List ℕ) → ChatFolder → Option StorageRecordIdentity → Step W E (Unit {0})
  reappend_folder manifest_ids folder none = done tt
  reappend_folder manifest_ids folder (some identity) =
      if contains manifest_ids identity.storage_id then done tt else (do
        or_warn (store.clear_chat_folder_storage_identity folder.id)
        or_warn (store.set_chat_folder_needs_storage_sync folder.id true))

  unfoldable pub reappend_folders : List (List ℕ) → List ChatFolder → Step W E (Unit {0})
  reappend_folders manifest_ids [] = done tt
  reappend_folders manifest_ids (folder ∷ folders) = do
    identity ← found (store.chat_folder_storage_identity folder.id)
    reappend_folder manifest_ids folder identity
    reappend_folders manifest_ids folders

  -- `let Ok(folders) = store.chat_folders().await else { return }`
  abbrev pub with_folders :
      (List ChatFolder → Step W E (Unit {0})) → Result E (List ChatFolder) → Step W E (Unit {0})
  with_folders next (ok folders) = next folders
  with_folders next (err e) = done tt

  unfoldable pub reappend_chat_folders_missing_from_manifest : List (List ℕ) → Step W E (Unit {0})
  reappend_chat_folders_missing_from_manifest manifest_ids = do
    folders ← attempt store.chat_folders
    with_folders (reappend_folders manifest_ids) folders

  -- The versions at which the all-chats folders were read.
  unfoldable pub all_chats_versions : List ChatFolder → Step W E (List (List ℕ × Option ℕ))
  all_chats_versions [] = done []
  all_chats_versions (folder ∷ folders) = do
    identity ← found (store.chat_folder_storage_identity folder.id)
    rest ← all_chats_versions folders
    done ((folder.id, version_of_identity identity) ∷ rest)

  abbrev pub expire_folder : Option ChatFolder → Step W E (Unit {0})
  expire_folder none = done tt
  expire_folder (some folder) =
      or_warn (store.save_chat_folder (tombstone folder chat_folder_expired_at_ms))

  abbrev pub drop_duplicate : List ℕ × Option ℕ → Step W E (Unit {0})
  drop_duplicate (id, none) = or_warn (store.delete_chat_folder id)
  drop_duplicate (id, some version) = do folder ← found (store.chat_folder id); expire_folder folder

  unfoldable pub drop_duplicates : List (List ℕ × Option ℕ) → Step W E (Unit {0})
  drop_duplicates [] = done tt
  drop_duplicates (f ∷ fs) = do drop_duplicate f; drop_duplicates fs

  -- `stage_chat_folder`, whose failure is ignored
  abbrev pub stage_all_chats : List ℕ → Step W E (Unit {0})
  stage_all_chats id =
      or_warn
        (do store.save_chat_folder (all_chats id); store.set_chat_folder_needs_storage_sync id true)

  -- All but the first are dropped; where there is none, one is created.
  abbrev pub keep_first : Bool → List (List ℕ × Option ℕ) → Step W E (Unit {0})
  keep_first true [] = do id ← run_total store.fresh_uuid; stage_all_chats id
  keep_first false [] = done tt
  keep_first create_missing (f ∷ fs) = drop_duplicates fs

  unfoldable pub ensure_single_of : Bool → List ChatFolder → Step W E (Unit {0})
  ensure_single_of create_missing folders = do
    versions ← all_chats_versions (retain (λ f. is_live f && is_all f.folder_type) folders)
    keep_first create_missing (sort_held versions)

  unfoldable pub ensure_single_all_chats_folder : Bool → Step W E (Unit {0})
  ensure_single_all_chats_folder create_missing = do
    folders ← attempt store.chat_folders
    with_folders (ensure_single_of create_missing) folders
