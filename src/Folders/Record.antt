-- ===== src/Folders/Record.antt =====
-- A chat folder's record: what `try_from` makes of what `to_record` wrote.
use presage.Prelude.{ℕ, ◌≢◌, List, [], ◌∷◌, Option, none, some, length, map, ok, ◌≡◌, refl}
use presage.Wire.Scan.{All}
use presage.Folders.{
  ChatFolder, ChatFolderType, FolderRecipient, ServiceIdForms, from_folder_type, to_folder_type,
  filter_map, service_id, from_proto, to_proto, to_record, try_from,
}

-- What the code relies on in libsignal: both forms of a service id are read back, and nothing is read from none.
pub record ServiceIdLaws {ServiceId : Type 0} (forms : ServiceIdForms ServiceId) : Type 0 where
  pub parse-string :
      (id : ServiceId) → forms.parse_from_service_id_string (forms.service_id_string id) ≡ some id
  pub parse-binary :
      (id : ServiceId) → forms.parse_from_service_id_binary (forms.service_id_binary id) ≡ some id
  pub empty_string : forms.parse_from_service_id_string [] ≡ none
  pub empty_binary : forms.parse_from_service_id_binary [] ≡ none

module _ {ServiceId : Type 0} (forms : ServiceIdForms ServiceId) where
  -- A recipient as `from_proto` makes them: a service id in its own string form, a number that is not empty, a
  -- key of 32 bytes.
  abbrev pub IsServiceId : Option (List ℕ) → Type 0
  IsServiceId none = Unit
  IsServiceId (some s) = (id : ServiceId) × (s ≡ forms.service_id_string id)

  abbrev pub IsNumber : Option (List ℕ) → Type 0
  IsNumber none = Unit
  IsNumber (some s) = s ≢ []

  abbrev pub IsRecipient : FolderRecipient → Type 0
  IsRecipient (FolderRecipient.contact id e164) = IsServiceId id × IsNumber e164
  IsRecipient (FolderRecipient.group_master_key key) = length key ≡ 32
  IsRecipient (FolderRecipient.legacy_group_id id) = Unit

  module _ (laws : ServiceIdLaws forms) where
    from_proto-to_proto :
        (r : FolderRecipient) → IsRecipient r → from_proto forms (to_proto forms r) ≡ some r
    unfolding from_proto to_proto service_id
    from_proto-to_proto (FolderRecipient.contact none none) h =
        rw (laws.empty_binary, laws.empty_string) refl
    from_proto-to_proto (FolderRecipient.contact none (some [])) h = absurd (h.1 refl)
    from_proto-to_proto (FolderRecipient.contact none (some (x ∷ xs))) h =
        rw (laws.empty_binary, laws.empty_string) refl
    from_proto-to_proto (FolderRecipient.contact (some s) none) h =
        rw (h.0.1, laws.parse-string h.0.0, laws.parse-binary h.0.0) refl
    from_proto-to_proto (FolderRecipient.contact (some s) (some [])) h = absurd (h.1 refl)
    from_proto-to_proto (FolderRecipient.contact (some s) (some (x ∷ xs))) h =
        rw (h.0.1, laws.parse-string h.0.0, laws.parse-binary h.0.0) refl
    from_proto-to_proto (FolderRecipient.group_master_key key) h = rw h refl
    from_proto-to_proto (FolderRecipient.legacy_group_id id) h = refl

    recipients_read_back :
        (rs : List FolderRecipient)
        → All IsRecipient rs
        → filter_map (from_proto forms) (map (to_proto forms) rs) ≡ rs
    recipients_read_back [] h = refl
    recipients_read_back (r ∷ rs) h =
        rw (from_proto-to_proto r h.0, recipients_read_back rs h.1) refl

    from_folder_type-to_folder_type : (t : ChatFolderType) → from_folder_type (to_folder_type t) ≡ t
    from_folder_type-to_folder_type ChatFolderType.unknown = refl
    from_folder_type-to_folder_type ChatFolderType.all = refl
    from_folder_type-to_folder_type ChatFolderType.custom = refl

    -- With service ids that are read back from both their forms and from no empty one: a folder with a 16-byte
    -- identifier, and recipients of which each contact has no service id or one in its string form, no number or
    -- one that is not empty, and each group a key of 32 bytes, is read back from its record.
    pub try_from-to_record :
        (folder : ChatFolder)
        → length folder.id ≡ 16
        → All IsRecipient folder.included_recipients
        → All IsRecipient folder.excluded_recipients
        → try_from forms (to_record forms folder) ≡ ok folder
    unfolding try_from to_record
    try_from-to_record folder h included excluded =
        rw
          (
            h,
            from_folder_type-to_folder_type folder.folder_type,
            recipients_read_back folder.included_recipients included,
            recipients_read_back folder.excluded_recipients excluded,
          )
          refl
