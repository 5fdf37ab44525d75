-- ===== src/Folders.antt =====
-- presage/src/model/chat_folders.rs: a chat folder and its record, and from presage/src/manager/storage.rs the
-- merge of a record that a sync reads.
pub mod Record
pub mod Merge
pub mod Manager
pub mod Stored
pub mod Unknown
use presage.Prelude.{
  ℕ, ◌+◌, ◌*◌, ◌^◌, ◌%◌, ◌==◌, ltb, List, [], ◌∷◌, Option, none, some, Bool, true, false, not, ◌&&◌,
  is_some, and_then, unwrap_or, if◌then◌else◌, length, map, Result, ok, err,
}
use mathlib.Core.Option
use presage.Publish.{is_empty}
use presage.Account.{or_else, or_skip}

-- `u32::MAX`
abbrev pub chat_folder_deleted_position : ℕ
chat_folder_deleted_position = 4294967295

pub data ChatFolderType : Type 0 where
  unknown all custom : ChatFolderType

-- prost's `FolderType`
pub data FolderType : Type 0 where
  unknown all custom : FolderType

abbrev pub from_folder_type : FolderType → ChatFolderType
from_folder_type FolderType.unknown = ChatFolderType.unknown
from_folder_type FolderType.all = ChatFolderType.all
from_folder_type FolderType.custom = ChatFolderType.custom

abbrev pub to_folder_type : ChatFolderType → FolderType
to_folder_type ChatFolderType.unknown = FolderType.unknown
to_folder_type ChatFolderType.all = FolderType.all
to_folder_type ChatFolderType.custom = FolderType.custom

abbrev pub is_all : ChatFolderType → Bool
is_all ChatFolderType.all = true
is_all _ = false

-- A string is a list of bytes, a UUID the list of its 16 bytes, a group's master key one of 32.
pub data FolderRecipient : Type 0 where
  contact : Option (List ℕ) → Option (List ℕ) → FolderRecipient
  group_master_key : List ℕ → FolderRecipient
  legacy_group_id : List ℕ → FolderRecipient

-- prost's `recipient::Identifier`; a contact has its service id as a string, its number and its binary service id.
pub data RecipientIdentifier : Type 0 where
  contact : List ℕ → List ℕ → List ℕ → RecipientIdentifier
  legacy_group_id : List ℕ → RecipientIdentifier
  group_master_key : List ℕ → RecipientIdentifier

-- libsignal's two forms of a service id.
pub record ServiceIdForms (ServiceId : Type 0) : Type 0 where
  pub service_id_string : ServiceId → List ℕ
  pub service_id_binary : ServiceId → List ℕ
  pub parse_from_service_id_string : List ℕ → Option ServiceId
  pub parse_from_service_id_binary : List ℕ → Option ServiceId

pub record ChatFolder : Type 0 where
  pub id : List ℕ
  pub folder_type : ChatFolderType
  pub name : List ℕ
  pub position : ℕ
  pub show_only_unread : Bool
  pub show_muted_chats : Bool
  pub include_all_individual_chats : Bool
  pub include_all_group_chats : Bool
  pub included_recipients : List FolderRecipient
  pub excluded_recipients : List FolderRecipient
  pub deleted_at_timestamp_ms : ℕ

-- prost's message; `folder_type` as its getter gives it.
pub record ChatFolderRecord : Type 0 where
  pub identifier : List ℕ
  pub name : List ℕ
  pub position : ℕ
  pub show_only_unread : Bool
  pub show_muted_chats : Bool
  pub include_all_individual_chats : Bool
  pub include_all_group_chats : Bool
  pub folder_type : FolderType
  pub included_recipients : List (Option RecipientIdentifier)
  pub excluded_recipients : List (Option RecipientIdentifier)
  pub deleted_at_timestamp_ms : ℕ

pub data ChatFolderRecordError : Type 0 where
  missing_identifier : ChatFolderRecordError

unfoldable pub is_live : ChatFolder → Bool
is_live folder = folder.deleted_at_timestamp_ms == 0

unfoldable pub all_chats : List ℕ → ChatFolder
all_chats id = record {
  id = id;
  folder_type = ChatFolderType.all;
  name = [];
  position = 0;
  show_only_unread = false;
  show_muted_chats = true;
  include_all_individual_chats = true;
  include_all_group_chats = true;
  included_recipients = [];
  excluded_recipients = [];
  deleted_at_timestamp_ms = 0;
}

-- `ChatFolder::custom`
unfoldable pub custom_folder : List ℕ → List ℕ → ChatFolder
custom_folder id name = record {
  id = id;
  folder_type = ChatFolderType.custom;
  name = name;
  position = 0;
  show_only_unread = false;
  show_muted_chats = true;
  include_all_individual_chats = false;
  include_all_group_chats = false;
  included_recipients = [];
  excluded_recipients = [];
  deleted_at_timestamp_ms = 0;
}

unfoldable pub tombstone : ChatFolder → ℕ → ChatFolder
tombstone folder deleted_at_ms = record folder {
  deleted_at_timestamp_ms = deleted_at_ms;
  position = chat_folder_deleted_position;
  included_recipients = [];
  excluded_recipients = [];
}

-- `String::unwrap_or_default`
abbrev pub or_default : Option (List ℕ) → List ℕ
or_default none = []
or_default (some s) = s

-- `filter_map`
abbrev pub filter_map : {A B : Type 0} → (A → Option B) → List A → List B
filter_map f [] = []
filter_map f (x ∷ xs) = or_skip (f x) (filter_map f xs)

module _ {ServiceId : Type 0} (forms : ServiceIdForms ServiceId) where
  -- `FolderRecipient::contact`
  unfoldable pub contact_recipient : ServiceId → FolderRecipient
  contact_recipient id = FolderRecipient.contact (some (forms.service_id_string id)) none

  unfoldable pub service_id : FolderRecipient → Option ServiceId
  service_id (FolderRecipient.contact id e164) = and_then id forms.parse_from_service_id_string
  service_id _ = none

  unfoldable pub from_proto : Option RecipientIdentifier → Option FolderRecipient
  from_proto none = none
  from_proto (some (RecipientIdentifier.contact string e164 binary)) = some (
      FolderRecipient.contact
        (Option.map forms.service_id_string (
          or_else (forms.parse_from_service_id_binary binary)
            (forms.parse_from_service_id_string string)))
        (if not (is_empty e164) then some e164 else none))
  from_proto (some (RecipientIdentifier.legacy_group_id id)) =
      some (FolderRecipient.legacy_group_id id)
  from_proto (some (RecipientIdentifier.group_master_key key)) =
      if length key == 32 then some (FolderRecipient.group_master_key key) else none

  unfoldable pub to_proto : FolderRecipient → Option RecipientIdentifier
  unfolding service_id
  to_proto (FolderRecipient.contact id e164) =
      let parsed = service_id (FolderRecipient.contact id e164) in
      some (
        RecipientIdentifier.contact (or_default (Option.map forms.service_id_string parsed))
          (or_default e164) (or_default (Option.map forms.service_id_binary parsed)))
  to_proto (FolderRecipient.legacy_group_id id) = some (RecipientIdentifier.legacy_group_id id)
  to_proto (FolderRecipient.group_master_key key) = some (RecipientIdentifier.group_master_key key)

  unfoldable pub to_record : ChatFolder → ChatFolderRecord
  to_record folder = record {
    identifier = folder.id;
    name = folder.name;
    position = folder.position;
    show_only_unread = folder.show_only_unread;
    show_muted_chats = folder.show_muted_chats;
    include_all_individual_chats = folder.include_all_individual_chats;
    include_all_group_chats = folder.include_all_group_chats;
    folder_type = to_folder_type folder.folder_type;
    included_recipients = map to_proto folder.included_recipients;
    excluded_recipients = map to_proto folder.excluded_recipients;
    deleted_at_timestamp_ms = folder.deleted_at_timestamp_ms;
  }

  -- `TryFrom<proto::ChatFolderRecord>`
  unfoldable pub try_from : ChatFolderRecord → Result ChatFolderRecordError ChatFolder
  try_from r =
      if not (length r.identifier == 16)
      then err missing_identifier
      else ok (record {
        id = r.identifier;
        folder_type = from_folder_type r.folder_type;
        name = r.name;
        position = r.position;
        show_only_unread = r.show_only_unread;
        show_muted_chats = r.show_muted_chats;
        include_all_individual_chats = r.include_all_individual_chats;
        include_all_group_chats = r.include_all_group_chats;
        included_recipients = filter_map from_proto r.included_recipients;
        excluded_recipients = filter_map from_proto r.excluded_recipients;
        deleted_at_timestamp_ms = r.deleted_at_timestamp_ms;
      })

-- 30 days in milliseconds
abbrev pub chat_folder_tombstone_ttl : ℕ
chat_folder_tombstone_ttl = 2592000000

-- The sum of two `u64` wraps, as it does without overflow checks.
unfoldable pub chat_folder_tombstone_expired : ChatFolder → ℕ → Bool
chat_folder_tombstone_expired folder now_ms =
    not (folder.deleted_at_timestamp_ms == 0)
    && ltb ((folder.deleted_at_timestamp_ms + chat_folder_tombstone_ttl) % 2 ^ 64) now_ms

-- `.filter(|&t| t != 0).min().unwrap_or(0)` of two times
abbrev pub earliest : ℕ → ℕ → ℕ
earliest a b = if a == 0 then b else if b == 0 then a else if ltb b a then b else a

-- Whether a local row is a tombstone.
abbrev pub dropped_here : Option ChatFolder → Bool
dropped_here none = false
dropped_here (some local) = not (local.deleted_at_timestamp_ms == 0)

-- The merge of a record of another folder than the all-chats one.
unfoldable pub merge_custom : Option ChatFolder → ChatFolder → Option ChatFolder
merge_custom none remote = if not (remote.deleted_at_timestamp_ms == 0) then none else some remote
merge_custom (some local) remote =
    let deleted_at = earliest local.deleted_at_timestamp_ms remote.deleted_at_timestamp_ms in
    if not (deleted_at == 0) then some (tombstone remote deleted_at) else some remote

unfoldable pub merge_chat_folder_from_snapshot :
    Option ChatFolder → ChatFolder → Bool → Option ChatFolder
merge_chat_folder_from_snapshot local remote local_pending =
    if local_pending
    then none
    else if is_all remote.folder_type
    then (if dropped_here local then none else some (all_chats remote.id))
    else merge_custom local remote
