-- ===== src/Sync/FolderMarks.antt =====
-- What the care of a sync of presage/src/manager/storage.rs for the chat folders keeps.
use presage.Prelude.{ℕ, List, [], ◌∷◌, Option, none, some, Bool, true, false, Result, ok, err}
use presage.Prelude.Steps.{Step, done, attempt, run_total}
use presage.Folders.{ChatFolder, all_chats}
use presage.Manifest.Update.{StorageRecordIdentity}
use presage.Sync.{SyncStore, or_warn, found}
use presage.Sync.Merge.{contains}
use presage.Sync.Folders.{
  reappend_folder, reappend_folders, with_folders, all_chats_versions, version_of_identity,
  expire_folder, drop_duplicate, drop_duplicates, stage_all_chats, keep_first, ensure_single_of,
  ensure_single_all_chats_folder,
}
use presage.Sync.Marks.{EachCallKeeps, Kept, bind, call, ended, warned, looked, if-Kept}

module _ {W E Handle Phone Verified Avatar Role Access ProfileKey C : Type 0}
    (store : SyncStore W E Handle Phone Verified Avatar Role Access ProfileKey C)
    (R : W → W → Type 0) (same : (w : W) → R w w) (trans : (a b c : W) → R a b → R b c → R a c)
    (each : EachCallKeeps store R) where
  abbrev Fine : {A : Type 0} → Step W E A → Type 0
  Fine step = Kept store R same trans each step

  reappend_folder-Kept :
      (ids : List (List ℕ)) (folder : ChatFolder) (o : Option StorageRecordIdentity)
      → Fine (reappend_folder store ids folder o)
  reappend_folder-Kept ids folder none = ended store R same trans each tt
  reappend_folder-Kept ids folder (some identity) =
      if-Kept store R same trans each (contains ids identity.storage_id) (done tt) _
        (ended store R same trans each tt)
        (bind store R same trans each (or_warn (store.clear_chat_folder_storage_identity folder.id))
          _
          (warned store R same trans each (store.clear_chat_folder_storage_identity folder.id)
            (each.clear_chat_folder_storage_identity folder.id))
          (λ u.
            warned store R same trans each (store.set_chat_folder_needs_storage_sync folder.id true)
              (each.mark_chat_folder folder.id)))

  pub reappend_folders-Kept :
      (ids : List (List ℕ)) (folders : List ChatFolder) → Fine (reappend_folders store ids folders)
  unfolding reappend_folders
  reappend_folders-Kept ids [] = ended store R same trans each tt
  reappend_folders-Kept ids (folder ∷ folders) =
      bind store R same trans each (found (store.chat_folder_storage_identity folder.id)) _
        (looked store R same trans each (store.chat_folder_storage_identity folder.id)
          (each.chat_folder_storage_identity folder.id))
        (λ identity.
          bind store R same trans each (reappend_folder store ids folder identity) _
            (reappend_folder-Kept ids folder identity) (λ u. reappend_folders-Kept ids folders))

  pub with_folders-Kept :
      (next : List ChatFolder → Step W E (Unit {0}))
      → ((folders : List ChatFolder) → Fine (next folders))
      → (r : Result E (List ChatFolder)) → Fine (with_folders store next r)
  with_folders-Kept next h (ok folders) = record { keeps = (h folders).keeps }
  with_folders-Kept next h (err e) = ended store R same trans each tt

  all_chats_versions-Kept : (folders : List ChatFolder) → Fine (all_chats_versions store folders)
  unfolding all_chats_versions
  all_chats_versions-Kept [] = ended store R same trans each []
  all_chats_versions-Kept (folder ∷ folders) =
      bind store R same trans each (found (store.chat_folder_storage_identity folder.id)) _
        (looked store R same trans each (store.chat_folder_storage_identity folder.id)
          (each.chat_folder_storage_identity folder.id))
        (λ identity.
          bind store R same trans each (all_chats_versions store folders) _
            (all_chats_versions-Kept folders)
            (λ rest.
              ended store R same trans each ((folder.id, version_of_identity identity) ∷ rest)))

  expire_folder-Kept : (o : Option ChatFolder) → Fine (expire_folder store o)
  expire_folder-Kept none = ended store R same trans each tt
  expire_folder-Kept (some folder) =
      warned store R same trans each (store.save_chat_folder _) (each.save_chat_folder _)

  drop_duplicate-Kept : (f : List ℕ × Option ℕ) → Fine (drop_duplicate store f)
  drop_duplicate-Kept (id, none) =
      warned store R same trans each (store.delete_chat_folder id) (each.delete_chat_folder id)
  drop_duplicate-Kept (id, some version) =
      bind store R same trans each (found (store.chat_folder id)) _
        (looked store R same trans each (store.chat_folder id) (each.chat_folder id))
        expire_folder-Kept

  drop_duplicates-Kept : (fs : List (List ℕ × Option ℕ)) → Fine (drop_duplicates store fs)
  unfolding drop_duplicates
  drop_duplicates-Kept [] = ended store R same trans each tt
  drop_duplicates-Kept (f ∷ fs) =
      bind store R same trans each (drop_duplicate store f) _ (drop_duplicate-Kept f)
        (λ u. drop_duplicates-Kept fs)

  stage_all_chats-Kept : (id : List ℕ) → Fine (stage_all_chats store id)
  stage_all_chats-Kept id = record {
    keeps =
        (bind store R same trans each (store.save_chat_folder (all_chats id))
          (λ u. store.set_chat_folder_needs_storage_sync id true)
          (call store R same trans each (store.save_chat_folder (all_chats id))
            (each.save_chat_folder (all_chats id)))
          (λ u.
            call store R same trans each (store.set_chat_folder_needs_storage_sync id true)
              (each.mark_chat_folder id))).keeps;
  }

  keep_first-Kept :
      (create : Bool) (fs : List (List ℕ × Option ℕ)) → Fine (keep_first store create fs)
  keep_first-Kept true [] =
      bind store R same trans each (run_total store.fresh_uuid) _
        (record { keeps = each.fresh_uuid }) stage_all_chats-Kept
  keep_first-Kept false [] = ended store R same trans each tt
  keep_first-Kept true (f ∷ fs) = drop_duplicates-Kept fs
  keep_first-Kept false (f ∷ fs) = drop_duplicates-Kept fs

  ensure_single_of-Kept :
      (create : Bool) (folders : List ChatFolder) → Fine (ensure_single_of store create folders)
  unfolding ensure_single_of
  ensure_single_of-Kept create folders =
      bind store R same trans each (all_chats_versions store _) _ (all_chats_versions-Kept _)
        (λ versions. keep_first-Kept create _)

  pub ensure_single-Kept : (create : Bool) → Fine (ensure_single_all_chats_folder store create)
  unfolding ensure_single_all_chats_folder
  ensure_single-Kept create =
      bind store R same trans each (attempt store.chat_folders) _
        (record { keeps = each.chat_folders })
        (with_folders-Kept (ensure_single_of store create) (ensure_single_of-Kept create))
