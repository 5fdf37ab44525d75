-- ===== src/Chats.antt =====
-- presage/src/manager/registered.rs, the settings of a chat: block, mute, archive and pin, each written to the local
-- row and marked as owed to the storage service, over the methods of the store.

pub mod Pinned
use presage.Prelude.{
  ℕ, ◌==◌, List, Option, none, some, Bool, true, false, not, ◌&&◌, differs, if◌then◌else◌, Result,
  ok, err, ok_or,
}
use presage.Prelude.Steps.{Step, continue, done, fail, lift, ◌>>=◌, ◌>>◌}
use presage.Account.{AccountChatState, PinCodec, Thread, pin, unpin, same_list, same_bytes}
use presage.Publish.{Contact}
use presage.Publish.Records.{ContactForms, minimal}
use presage.Groups.{Group, ServiceId, same_service_id, raw_uuid}

-- The variants of `Error` that a setting ends in.
pub data ChatError (E : Type 0) : Type 0 where
  note_to_self_has_no_contact_record unknown_group : ChatError E
  store_error : E → ChatError E

-- The store's methods that the settings call, and the manager's broadcast of the blocked list to the account's other
-- devices.
pub record ChatStore (W E Phone Verified Avatar Role Access ProfileKey : Type 0) : Type 0 where
  pub contact_by_id : ServiceId → Step W (ChatError E) (Option (Contact Phone Verified Avatar))
  pub save_contact : Contact Phone Verified Avatar → Step W (ChatError E) (Unit {0})
  pub set_contact_needs_storage_sync : ServiceId → Bool → Step W (ChatError E) (Unit {0})
  pub group : List ℕ → Step W (ChatError E) (Option (Group Role Access ProfileKey ℕ))
  pub save_group : List ℕ → Group Role Access ProfileKey ℕ → Step W (ChatError E) (Unit {0})
  pub set_group_needs_storage_sync : List ℕ → Bool → Step W (ChatError E) (Unit {0})
  pub account_chat_state : Step W (ChatError E) AccountChatState
  pub save_account_chat_state : AccountChatState → Step W (ChatError E) (Unit {0})
  pub set_account_needs_storage_sync : Bool → Step W (ChatError E) (Unit {0})
  pub send_blocked_sync : Step W (ChatError E) (Unit {0})

-- `state == before`
abbrev pub same_state : AccountChatState → AccountChatState → Bool
same_state a b =
    not (differs a.note_to_self_archived b.note_to_self_archived)
    && not (differs a.keep_muted_chats_archived b.keep_muted_chats_archived)
    && same_list same_bytes a.pinned b.pinned

module _ {W E Phone Verified Avatar Role Access ProfileKey : Type 0}
    (store : ChatStore W E Phone Verified Avatar Role Access ProfileKey)
    (forms : ContactForms Phone Verified Avatar) (codec : PinCodec ServiceId) (self_aci : ℕ) where
  unfoldable pub is_note_to_self : ServiceId → Bool
  is_note_to_self id = same_service_id id (ServiceId.aci_id self_aci)

  unfoldable pub stored_group : List ℕ → Step W (ChatError E) (Group Role Access ProfileKey ℕ)
  stored_group master_key = do
    group ← store.group master_key
    lift (ok_or group ChatError.unknown_group)

  abbrev pub save_if_changed : AccountChatState → AccountChatState → Step W (ChatError E) (Unit {0})
  save_if_changed before state =
      if same_state state before
      then done tt
      else store.save_account_chat_state state >> store.set_account_needs_storage_sync true

  unfoldable pub edit_account_for_publish :
      (AccountChatState → AccountChatState) → Step W (ChatError E) (Unit {0})
  edit_account_for_publish edit = do
    state ← store.account_chat_state
    save_if_changed state (edit state)

  unfoldable pub edit_group_for_publish :
      List ℕ
      → (Group Role Access ProfileKey ℕ → Group Role Access ProfileKey ℕ)
      → Step W (ChatError E) (Unit {0})
  edit_group_for_publish master_key edit = do
    group ← stored_group master_key
    store.save_group master_key (edit group)
    store.set_group_needs_storage_sync master_key true

  abbrev pub contact_or_minimal :
      ServiceId → Option (Contact Phone Verified Avatar) → Contact Phone Verified Avatar
  contact_or_minimal id none = minimal forms (raw_uuid id)
  contact_or_minimal id (some contact) = contact

  abbrev pub edit_contact :
      ServiceId
      → (Contact Phone Verified Avatar → Contact Phone Verified Avatar)
      → Step W (ChatError E) (Unit {0})
  edit_contact id edit = do
    contact ← store.contact_by_id id
    store.save_contact (edit (contact_or_minimal id contact))
    store.set_contact_needs_storage_sync id true

  unfoldable pub edit_contact_for_publish :
      ServiceId
      → (Contact Phone Verified Avatar → Contact Phone Verified Avatar)
      → Step W (ChatError E) (Unit {0})
  edit_contact_for_publish id edit =
      if is_note_to_self id
      then fail ChatError.note_to_self_has_no_contact_record
      else edit_contact id edit

  unfoldable pub set_blocked : ServiceId → Bool → Step W (ChatError E) (Unit {0})
  set_blocked id blocked = do
    edit_contact_for_publish id (λ contact. record contact { blocked = blocked })
    store.send_blocked_sync

  unfoldable pub set_muted_until : Thread ServiceId → ℕ → Step W (ChatError E) (Unit {0})
  set_muted_until (Thread.contact id) muted_until_timestamp =
      edit_contact_for_publish id
        (λ contact. record contact { muted_until_timestamp = muted_until_timestamp })
  set_muted_until (Thread.group master_key) muted_until_timestamp =
      edit_group_for_publish master_key
        (λ group. record group { muted_until_timestamp = muted_until_timestamp })

  abbrev pub archive_thread : Thread ServiceId → Bool → Step W (ChatError E) (Unit {0})
  archive_thread (Thread.contact id) archived =
      if is_note_to_self id
      then edit_account_for_publish (λ state. record state { note_to_self_archived = archived })
      else edit_contact_for_publish id (λ contact. record contact { archived = archived })
  archive_thread (Thread.group master_key) archived =
      edit_group_for_publish master_key (λ group. record group { archived = archived })

  unfoldable pub set_archived : Thread ServiceId → Bool → Step W (ChatError E) (Unit {0})
  set_archived thread true =
      edit_account_for_publish (λ state. unpin codec state thread) >> archive_thread thread true
  set_archived thread false = archive_thread thread false

  abbrev pub contact_archived : Option (Contact Phone Verified Avatar) → Bool
  contact_archived none = false
  contact_archived (some contact) = contact.archived

  abbrev pub group_archived : Option (Group Role Access ProfileKey ℕ) → Bool
  group_archived none = false
  group_archived (some group) = group.archived

  unfoldable pub is_archived : Thread ServiceId → Step W (ChatError E) Bool
  is_archived (Thread.contact id) =
      if is_note_to_self id
      then (do state ← store.account_chat_state; done state.note_to_self_archived)
      else (do contact ← store.contact_by_id id; done (contact_archived contact))
  is_archived (Thread.group master_key) = do
    group ← store.group master_key
    done (group_archived group)

  abbrev pub pinned_or_not : Thread ServiceId → Bool → AccountChatState → AccountChatState
  pinned_or_not thread true state = pin codec state thread
  pinned_or_not thread false state = unpin codec state thread

  abbrev pub unarchive_if : Thread ServiceId → Bool → Step W (ChatError E) (Unit {0})
  unarchive_if thread archived = if archived then set_archived thread false else done tt

  unfoldable pub set_pinned : Thread ServiceId → Bool → Step W (ChatError E) (Unit {0})
  set_pinned thread true =
      edit_account_for_publish (pinned_or_not thread true)
      >> (is_archived thread >>= unarchive_if thread)
  set_pinned thread false = edit_account_for_publish (pinned_or_not thread false)
