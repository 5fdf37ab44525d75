-- ===== src/Publish/Records.antt =====
-- presage/src/model/contacts.rs, a contact and the `ContactRecord` of the storage service. The forms of UUIDs,
-- phone numbers and profile names are libraries' and an argument.
use presage.Prelude.{
  ℕ, ◌==◌, List, [], ◌∷◌, length, Option, none, some, unwrap_or, Bool, false, not, if◌then◌else◌,
  Result, ok, ok_or, ◌<◌, ◌^◌, ◌>>=◌, ◌≡◌, ◌≢◌, refl, arith,
}
use presage.Publish.{Contact, is_empty}

-- prost's message
pub record ContactRecord : Type 0 where
  pub aci : List ℕ
  pub aci_binary : List ℕ
  pub pni : List ℕ
  pub pni_binary : List ℕ
  pub e164 : List ℕ
  pub profile_key : List ℕ
  pub given_name : List ℕ
  pub family_name : List ℕ
  pub username : List ℕ
  pub blocked : Bool
  pub whitelisted : Bool
  pub archived : Bool
  pub marked_unread : Bool
  pub muted_until_timestamp : ℕ
  pub hide_story : Bool
  pub hidden : Bool
  pub unregistered_at_timestamp : ℕ
  pub pni_signature_verified : Bool
  pub system_given_name : List ℕ
  pub system_family_name : List ℕ
  pub system_nickname : List ℕ
  pub nickname : Option (List ℕ × List ℕ)
  pub note : List ℕ

pub record ContactForms (Phone Verified Avatar : Type 0) : Type 0 where
  pub uuid_from_bytes : List ℕ → ℕ
  pub uuid_as_bytes : ℕ → List ℕ
  pub parse_uuid : List ℕ → Option ℕ
  pub try_into_e164 : List ℕ → Option Phone
  pub format_e164 : Phone → List ℕ
  pub profile_name : List ℕ → Option (List ℕ) → List ℕ
  pub unverified : Verified

abbrev pub default_expire_timer_version : ℕ
default_expire_timer_version = 2

-- An empty string of the record is no value.
abbrev pub non_empty : List ℕ → Option (List ℕ)
non_empty xs = if is_empty xs then none else some xs

abbrev pub given_of : Option (List ℕ × List ℕ) → List ℕ
given_of none = []
given_of (some (given, family)) = given

abbrev pub family_of : Option (List ℕ × List ℕ) → List ℕ
family_of none = []
family_of (some (given, family)) = family

module _ {Phone Verified Avatar : Type 0} (forms : ContactForms Phone Verified Avatar) where
  -- `as_slice().try_into().ok().map(Uuid::from_bytes)`
  abbrev pub uuid_of_bytes : List ℕ → Option ℕ
  uuid_of_bytes bytes = if length bytes == 16 then some (forms.uuid_from_bytes bytes) else none

  abbrev pub record_uuid : ContactRecord → Option ℕ
  record_uuid r =
      if not (is_empty r.aci_binary) then uuid_of_bytes r.aci_binary else forms.parse_uuid r.aci

  abbrev pub record_pni : ContactRecord → Option ℕ
  record_pni r =
      if not (is_empty r.pni_binary)
      then uuid_of_bytes r.pni_binary
      else if not (is_empty r.pni)
      then forms.parse_uuid r.pni
      else none

  -- `TryFrom<ContactRecord>`. The error is a message, and there is one.
  unfoldable pub contact_try_from :
      ContactRecord → Result (Unit {0}) (Contact Phone Verified Avatar)
  contact_try_from r = do
    uuid ← ok_or (record_uuid r) tt
    ok (record {
      uuid = uuid;
      phone_number = forms.try_into_e164 r.e164;
      name = forms.profile_name r.given_name (non_empty r.family_name);
      verified = forms.unverified;
      profile_key = r.profile_key;
      expire_timer = 0;
      expire_timer_version = default_expire_timer_version;
      inbox_position = 0;
      avatar = none;
      pni = record_pni r;
      username = non_empty r.username;
      blocked = r.blocked;
      whitelisted = r.whitelisted;
      archived = r.archived;
      marked_unread = r.marked_unread;
      muted_until_timestamp = r.muted_until_timestamp;
      hide_story = r.hide_story;
      hidden = r.hidden;
      unregistered_at_timestamp = r.unregistered_at_timestamp;
      pni_signature_verified = r.pni_signature_verified;
      system_given_name = r.system_given_name;
      system_family_name = r.system_family_name;
      system_nickname = r.system_nickname;
      nickname_given_name = given_of r.nickname;
      nickname_family_name = family_of r.nickname;
      note = r.note;
    })

  abbrev pub pni_bytes : Option ℕ → List ℕ
  pni_bytes none = []
  pni_bytes (some pni) = forms.uuid_as_bytes pni

  abbrev pub e164_of : Option Phone → List ℕ
  e164_of none = []
  e164_of (some phone) = forms.format_e164 phone

  unfoldable pub to_new_storage_record : Contact Phone Verified Avatar → ContactRecord
  to_new_storage_record contact = record {
    aci = [];
    aci_binary = forms.uuid_as_bytes contact.uuid;
    pni = [];
    pni_binary = pni_bytes contact.pni;
    e164 = e164_of contact.phone_number;
    profile_key = contact.profile_key;
    given_name = contact.name;
    family_name = [];
    username = unwrap_or contact.username [];
    blocked = contact.blocked;
    whitelisted = contact.whitelisted;
    archived = contact.archived;
    marked_unread = contact.marked_unread;
    muted_until_timestamp = contact.muted_until_timestamp;
    hide_story = contact.hide_story;
    hidden = contact.hidden;
    unregistered_at_timestamp = contact.unregistered_at_timestamp;
    pni_signature_verified = contact.pni_signature_verified;
    system_given_name = contact.system_given_name;
    system_family_name = contact.system_family_name;
    system_nickname = contact.system_nickname;
    nickname = none;
    note = contact.note;
  }

  -- `Contact::minimal`, by way of `From<models::Contact>`
  unfoldable pub minimal : ℕ → Contact Phone Verified Avatar
  minimal uuid = record {
    uuid = uuid;
    phone_number = none;
    name = [];
    verified = forms.unverified;
    profile_key = [];
    expire_timer = 0;
    expire_timer_version = default_expire_timer_version;
    inbox_position = 0;
    avatar = none;
    pni = none;
    username = none;
    blocked = false;
    whitelisted = false;
    archived = false;
    marked_unread = false;
    muted_until_timestamp = 0;
    hide_story = false;
    hidden = false;
    unregistered_at_timestamp = 0;
    pni_signature_verified = false;
    system_given_name = [];
    system_family_name = [];
    system_nickname = [];
    nickname_given_name = [];
    nickname_family_name = [];
    note = [];
  }

  -- A UUID, a number below 2^128, has 16 bytes and is read back from them, and a profile name without a family name
  -- is written as the given name.
  pub record ContactFormsLaws : Type 0 where
    pub uuid_length : (uuid : ℕ) → uuid < 2 ^ 128 → length (forms.uuid_as_bytes uuid) ≡ 16
    pub uuid_bytes :
        (uuid : ℕ) → uuid < 2 ^ 128 → forms.uuid_from_bytes (forms.uuid_as_bytes uuid) ≡ uuid
    pub given_alone : (given : List ℕ) → forms.profile_name given none ≡ given

  -- What a `ContactRecord` cannot carry.
  abbrev pub carried : Contact Phone Verified Avatar → Contact Phone Verified Avatar
  carried contact = record contact {
    verified = forms.unverified;
    expire_timer = 0;
    expire_timer_version = default_expire_timer_version;
    inbox_position = 0;
    avatar = none;
    nickname_given_name = [];
    nickname_family_name = [];
  }

  module _ (laws : ContactFormsLaws) where
    not_empty : (bytes : List ℕ) → length bytes ≡ 16 → is_empty bytes ≡ false
    not_empty [] h = absurd (omega arith)
    not_empty (x ∷ xs) h = refl

    uuid_read : (uuid : ℕ) → uuid < 2 ^ 128 → uuid_of_bytes (forms.uuid_as_bytes uuid) ≡ some uuid
    uuid_read uuid small = rw (laws.uuid_length uuid small, laws.uuid_bytes uuid small) refl

    pni_read :
        (pni : Option ℕ)
        → ((p : ℕ) → pni ≡ some p → p < 2 ^ 128)
        → (if not (is_empty (pni_bytes pni)) then uuid_of_bytes (pni_bytes pni) else none) ≡ pni
    pni_read none small = refl
    pni_read (some pni) small =
        rw (not_empty (forms.uuid_as_bytes pni) (laws.uuid_length pni (small pni refl)))
          (uuid_read pni (small pni refl))

    username_read :
        (username : Option (List ℕ))
        → username ≢ some []
        → non_empty (unwrap_or username []) ≡ username
    username_read none h = refl
    username_read (some []) h = absurd (h refl)
    username_read (some (x ∷ xs)) h = refl

    -- With UUID forms that read a UUID back from its 16 bytes, and names without a family name that are written as
    -- they are: a contact is read from its own new record as it was, but for what a record cannot carry (the
    -- verification, the expiry timer, the position, the avatar and the nickname), if its identifiers are UUIDs, its
    -- phone number is one that its E.164 form gives back, or there is none and the empty text gives none, and its user
    -- name is not the empty string.
    pub contact_try_from-to_new_storage_record :
        (contact : Contact Phone Verified Avatar)
        → contact.uuid < 2 ^ 128
        → ((p : ℕ) → contact.pni ≡ some p → p < 2 ^ 128)
        → forms.try_into_e164 (e164_of contact.phone_number) ≡ contact.phone_number
        → contact.username ≢ some []
        → contact_try_from (to_new_storage_record contact) ≡ ok (carried contact)
    unfolding contact_try_from to_new_storage_record
    contact_try_from-to_new_storage_record contact small pni_small phone named =
        rw
          (
            not_empty (forms.uuid_as_bytes contact.uuid) (laws.uuid_length contact.uuid small),
            uuid_read contact.uuid small,
            phone,
            laws.given_alone contact.name,
            pni_read contact.pni pni_small,
            username_read contact.username named,
          )
          refl
