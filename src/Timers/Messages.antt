-- ===== src/Timers/Messages.antt =====
-- presage/src/manager/registered.rs, the timer and the timestamp of a message that is sent, and the contact that a
-- received profile key makes or refreshes.
use presage.Prelude.{
  ℕ, ◌+◌, ◌%◌, ◌^◌, ◌==◌, leb, List, Option, none, some, Bool, true, not, if◌then◌else◌,
  ok_unwrap_or,
}
use presage.Prelude.Steps.{Step, done, ◌>>=◌, ◌>>◌}
use presage.Account.{Thread, same_bytes}
use presage.Publish.{Contact, is_empty}
use presage.Publish.Records.{ContactForms, minimal}
use presage.Groups.{ServiceId}
use presage.Timers.{TimerStore, expire_timer}

-- The fields of a `DataMessage` that are set on the way out.
pub record DataMessage : Type 0 where
  pub timestamp : Option ℕ
  pub expire_timer : Option ℕ
  pub expire_timer_version : Option ℕ

-- `ContentBody`, of which the bodies without a data message are one
pub data ContentBody (Other : Type 0) : Type 0 where
  data_message : DataMessage → ContentBody Other
  edit_message sync_sent : Option DataMessage → ContentBody Other
  other_body : Other → ContentBody Other

abbrev pub stamped : ℕ → Option DataMessage → Option DataMessage
stamped timestamp none = none
stamped timestamp (some message) = some (record message { timestamp = some timestamp })

unfoldable pub ensure_data_message_timestamp :
    {Other : Type 0} → ContentBody Other → ℕ → ContentBody Other
ensure_data_message_timestamp (ContentBody.data_message message) timestamp =
    ContentBody.data_message (record message { timestamp = some timestamp })
ensure_data_message_timestamp (ContentBody.edit_message message) timestamp =
    ContentBody.edit_message (stamped timestamp message)
ensure_data_message_timestamp (ContentBody.sync_sent message) timestamp =
    ContentBody.sync_sent (stamped timestamp message)
ensure_data_message_timestamp (ContentBody.other_body other) timestamp =
    ContentBody.other_body other

abbrev pub stored_version : Option (ℕ × ℕ) → ℕ
stored_version none = 0
stored_version (some (timer, version)) = version

-- `and_then(|(t, _)| if t == 0 { None } else { Some(t) })`
abbrev pub stored_timer : Option (ℕ × ℕ) → Option ℕ
stored_timer none = none
stored_timer (some (timer, version)) = if timer == 0 then none else some timer

abbrev pub with_timer : Option (ℕ × ℕ) → DataMessage → Option ℕ → DataMessage
with_timer stored message none = record message {
  expire_timer = stored_timer stored;
  expire_timer_version = some (stored_version stored);
}
with_timer stored message (some timer) = record message {
  expire_timer_version = some ((stored_version stored + 1) % 2 ^ 32);
}

abbrev pub restore_in : {Other : Type 0} → Option (ℕ × ℕ) → ContentBody Other → ContentBody Other
restore_in stored (ContentBody.data_message message) =
    ContentBody.data_message (with_timer stored message message.expire_timer)
restore_in stored body = body

module _ {S E ContactId Phone Verified Avatar Role Access ProfileKey : Type 0}
    (store : TimerStore S E ContactId Phone Verified Avatar Role Access ProfileKey) where
  -- A store that fails is one without a timer.
  unfoldable pub restore_thread_timer :
      {Other : Type 0} → S → Thread ContactId → ContentBody Other → ContentBody Other
  restore_thread_timer s thread body =
      restore_in (ok_unwrap_or (expire_timer store s thread) none) body

abbrev pub merged_expire_timer_version : Option ℕ → ℕ → ℕ
merged_expire_timer_version none stored = stored
merged_expire_timer_version (some incoming) stored =
    if leb incoming stored then stored else incoming

-- What the receipt of a profile key calls: the store, and the service that sends the profile, decrypted.
pub record ProfileServices (W E Phone Verified Avatar : Type 0) : Type 0 where
  pub contact_by_id : ServiceId → Step W E (Option (Contact Phone Verified Avatar))
  pub profile_key : ServiceId → Step W E (Option (List ℕ))
  pub fetched_name : ℕ → List ℕ → Step W E (Option (List ℕ))
  pub save_contact : Contact Phone Verified Avatar → Step W E (Unit {0})
  pub upsert_profile_key : ℕ → List ℕ → Step W E (Unit {0})

abbrev pub or_zero : Option ℕ → ℕ
or_zero none = 0
or_zero (some n) = n

abbrev pub name_or : Option (List ℕ) → List ℕ → List ℕ
name_or none name = name
name_or (some fetched) name = if is_empty fetched then name else fetched

-- `is_none_or(|p| p.bytes != profile_key.bytes)`
abbrev pub other_key : List ℕ → Option (List ℕ) → Bool
other_key key none = true
other_key key (some stored) = not (same_bytes stored key)

module _ {W E Phone Verified Avatar : Type 0} (services : ProfileServices W E Phone Verified Avatar)
    (forms : ContactForms Phone Verified Avatar) where
  -- The literal of the source has the fields of `Contact::minimal`.
  abbrev pub first_seen : ℕ → Option (Contact Phone Verified Avatar) → Contact Phone Verified Avatar
  first_seen uuid none = minimal forms uuid
  first_seen uuid (some contact) = contact

  abbrev pub seen_contact :
      DataMessage
      → List ℕ
      → Option (List ℕ)
      → Contact Phone Verified Avatar
      → Contact Phone Verified Avatar
  seen_contact message key name contact = record contact {
    name = name_or name contact.name;
    profile_key = key;
    expire_timer = or_zero message.expire_timer;
    expire_timer_version =
        merged_expire_timer_version message.expire_timer_version contact.expire_timer_version;
  }

  -- Only an account's profile is fetched.
  abbrev pub save_seen :
      DataMessage
      → List ℕ
      → ServiceId
      → Option (Contact Phone Verified Avatar)
      → Step W E (Unit {0})
  save_seen message key (ServiceId.pni_id pni) existing = done tt
  save_seen message key (ServiceId.aci_id aci) existing = do
    name ← services.fetched_name aci key
    services.save_contact (seen_contact message key name (first_seen aci existing))
    services.upsert_profile_key aci key

  abbrev pub is_unseen : List ℕ → ServiceId → Option (Contact Phone Verified Avatar) → Step W E Bool
  is_unseen key sender none = done true
  is_unseen key sender (some contact) = do
    stored ← services.profile_key sender
    done (other_key key stored)

  abbrev pub save_if_unseen :
      DataMessage
      → ServiceId
      → List ℕ
      → Option (Contact Phone Verified Avatar)
      → Step W E (Unit {0})
  save_if_unseen message sender key existing = do
    unseen ← is_unseen key sender existing
    if unseen then save_seen message key sender existing else done tt

  unfoldable pub upsert_contact_from_profile :
      DataMessage → ServiceId → List ℕ → Step W E (Unit {0})
  upsert_contact_from_profile message sender key =
      services.contact_by_id sender >>= save_if_unseen message sender key
