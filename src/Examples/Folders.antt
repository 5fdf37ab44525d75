-- ===== src/Examples/Folders.antt =====
-- presage/src/model/chat_folders.rs and the merge of a folder on one folder.
use presage.Prelude.{length}
use presage.Wire.{scan, wire}
use presage.Record.{record_runs}
use presage.Folders.{ChatFolderRecord}
use presage.Folders.Unknown.{
  chat_folder_unknown_fields, encode_chat_folder_record, unknown_fields-encode,
}
use presage.Wire.Scan.{All}
use presage.Prelude.{Bool, true, false, ◌≢◌, Result, if◌then◌else◌, sym, ap, ◌∙◌}
use presage.Account.{same_bytes}
use presage.Folders.Manager.{
  FolderError, FolderStore, stage_chat_folder, position_for, save_folder, renumber_from,
}
use presage.Folders.Stored.{KeepsFolders, Positioned, renumber_from-Positioned}
use presage.Prelude.{ℕ, List, [], ◌∷◌, Option, none, some, true, false, ok, ◌⊎◌, ◌≡◌, refl, arith}
use presage.Folders.{
  ChatFolder, ChatFolderType, FolderRecipient, ServiceIdForms, tombstone, to_record, try_from,
  merge_custom, merge_chat_folder_from_snapshot,
}
use presage.Folders.Record.{ServiceIdLaws, try_from-to_record}
use presage.Folders.Merge.{Earlier, merge_chat_folder-Earlier, merge_chat_folder-order}

abbrev head_of : List ℕ → Option ℕ
head_of [] = none
head_of (x ∷ xs) = some x

abbrev forms : ServiceIdForms ℕ
forms = record {
  service_id_string = λ id. id ∷ [];
  service_id_binary = λ id. id ∷ [];
  parse_from_service_id_string = head_of;
  parse_from_service_id_binary = head_of;
}

forms-ServiceIdLaws : ServiceIdLaws forms
forms-ServiceIdLaws = record {
  parse-string = λ id. refl;
  parse-binary = λ id. refl;
  empty_string = refl;
  empty_binary = refl;
}

abbrev folder_id : List ℕ
folder_id = 1 ∷ 2 ∷ 3 ∷ 4 ∷ 5 ∷ 6 ∷ 7 ∷ 8 ∷ 9 ∷ 10 ∷ 11 ∷ 12 ∷ 13 ∷ 14 ∷ 15 ∷ 16 ∷ []

abbrev work : ChatFolder
work = record {
  id = folder_id;
  folder_type = ChatFolderType.custom;
  name = 87 ∷ [];
  position = 3;
  show_only_unread = true;
  show_muted_chats = true;
  include_all_individual_chats = false;
  include_all_group_chats = true;
  included_recipients = FolderRecipient.contact (some (7 ∷ [])) none ∷ [];
  excluded_recipients = FolderRecipient.contact none (some (43 ∷ 49 ∷ [])) ∷ [];
  deleted_at_timestamp_ms = 0;
}

try_from-to_record_example : try_from forms (to_record forms work) ≡ ok work
try_from-to_record_example =
    try_from-to_record forms forms-ServiceIdLaws work refl (((7, refl), tt), tt)
      ((tt, λ e. absurd (ground arith)), tt)

abbrev dead : ℕ → ChatFolder
dead at = record work { deleted_at_timestamp_ms = at }

abbrev stamped : ℕ → ChatFolder
stamped at = record work {
  deleted_at_timestamp_ms = at;
  position = 4294967295;
  included_recipients = [];
  excluded_recipients = [];
}

deleted_there : merge_chat_folder_from_snapshot (some work) (dead 9) false ≡ some (stamped 9)
unfolding merge_chat_folder_from_snapshot merge_custom tombstone
deleted_there = refl

deleted_twice : merge_chat_folder_from_snapshot (some (stamped 9)) (dead 5) false ≡ some (stamped 5)
unfolding merge_chat_folder_from_snapshot merge_custom tombstone
deleted_twice = refl

deleted_first : merge_chat_folder_from_snapshot (some work) (dead 5) false ≡ some (stamped 5)
unfolding merge_chat_folder_from_snapshot merge_custom tombstone
deleted_first = refl

deleted_later : merge_chat_folder_from_snapshot (some (stamped 5)) (dead 9) false ≡ some (stamped 5)
unfolding merge_chat_folder_from_snapshot merge_custom tombstone
deleted_later = refl

merge_chat_folder-Earlier_example :
    Earlier 5 9 × Earlier 5 5 × ((◌≡◌ {A = ℕ} 5 9) ⊎ (◌≡◌ {A = ℕ} 5 5))
merge_chat_folder-Earlier_example =
    merge_chat_folder-Earlier (stamped 9) (dead 5) (stamped 5) refl deleted_twice

merge_chat_folder-order_example :
    (stamped 5).deleted_at_timestamp_ms ≡ (stamped 5).deleted_at_timestamp_ms
merge_chat_folder-order_example =
    merge_chat_folder-order work (dead 9) (dead 5) (stamped 9) (stamped 5) (stamped 5) (stamped 5)
      refl refl deleted_there deleted_twice deleted_first deleted_later

-- A store in memory: the rows, the latest first.
abbrev find : List ℕ → List ChatFolder → Option ChatFolder
find id [] = none
find id (f ∷ fs) = if same_bytes id f.id then some f else find id fs

abbrev memory : FolderStore (List ChatFolder) (Unit {0})
memory = record {
  chat_folders = λ s. ok s;
  chat_folder = λ s id. ok (find id s);
  save_chat_folder = λ s folder. ok (folder ∷ s);
  set_chat_folder_needs_storage_sync = λ s id mark. ok s;
}

pushed :
    (b : Bool) (f : ChatFolder) (o : Option ChatFolder)
    → ◌≡◌ {A = Result (FolderError (Unit {0})) (Option ChatFolder)}
        (ok (if b then some f else o))
        (if b then ok (some f) else ok o)
pushed true f o = refl
pushed false f o = refl

memory-KeepsFolders : KeepsFolders memory
memory-KeepsFolders = record {
  saved = λ s folder id {s'} e.
      let new : folder ∷ s ≡ s' = ground arith in
      ap (λ t. ok (find id t)) (sym new) ∙ pushed (same_bytes id folder.id) folder (find id s);
  marked = λ s id id' mark {s'} e.
      let same : s ≡ s' = ground arith in ap (λ t. ok (find id' t)) (sym same);
}

abbrev moved_work : ChatFolder
moved_work = record work { position = 0 }

renumbered : renumber_from memory (work ∷ []) 0 (work ∷ []) ≡ ok (moved_work ∷ work ∷ [])
unfolding renumber_from stage_chat_folder
renumbered = refl

renumber_from-Positioned_example :
    Positioned memory memory-KeepsFolders (moved_work ∷ work ∷ []) 0 (work ∷ [])
    × ((id : List ℕ)
        → All (λ g. g.id ≢ id) (work ∷ [])
        → memory.chat_folder (moved_work ∷ work ∷ []) id ≡ memory.chat_folder (work ∷ []) id)
renumber_from-Positioned_example =
    renumber_from-Positioned memory memory-KeepsFolders (work ∷ []) (work ∷ []) 0 (tt, tt)
      (refl, tt) renumbered

abbrev renamed : ChatFolder
renamed = record work { name = 88 ∷ []; position = 9 }

abbrev renamed_row : ChatFolder
renamed_row = record work { name = 88 ∷ [] }

abbrev any_name : List ℕ → Bool
any_name name = true

saved_again :
    save_folder memory (λ name. name) any_name (work ∷ []) renamed ≡ ok (renamed_row ∷ work ∷ [])
unfolding save_folder position_for stage_chat_folder
saved_again = refl

-- An encoding that writes the position alone, and a field of a later client.
abbrev encoded : ChatFolderRecord → List ℕ
encoded r = 0x18 ∷ 3 ∷ []

abbrev later_field : List ℕ
later_field = 0x60 ∷ 1 ∷ []

length-encode_chat_folder : length (encode_chat_folder_record forms encoded work later_field) ≡ 6
unfolding record_runs encode_chat_folder_record
length-encode_chat_folder = refl

scan-encoded :
    scan (encoded (to_record forms work))
    ≡ ok (
        record {
          number = 3;
          wire_type = 0;
          whole = record { start = 0; end = 2 };
          payload = record { start = 1; end = 2 };
        }
        ∷ [])
unfolding record_runs wire
scan-encoded = refl

scan-later_field :
    scan later_field
    ≡ ok (
        record {
          number = 12;
          wire_type = 0;
          whole = record { start = 0; end = 2 };
          payload = record { start = 1; end = 2 };
        }
        ∷ [])
unfolding record_runs wire
scan-later_field = refl

unknown_fields-encode_example :
    chat_folder_unknown_fields (encode_chat_folder_record forms encoded work later_field)
    ≡ ok later_field
unknown_fields-encode_example =
    unknown_fields-encode forms encoded work later_field scan-encoded (refl, tt) scan-later_field
      (refl, tt) (omega (arith, length-encode_chat_folder))
