-- ===== src/Examples/Chats.antt =====
-- A store that keeps one contact, one group and the account's state, and a chat of it that is archived and then pinned.
use presage.Prelude.{
  ℕ, List, [], ◌∷◌, Option, none, some, Bool, true, false, ◌==◌, if◌then◌else◌, ok, ◌≡◌, refl, ap,
  arith, ok_same, ==_iff, ==_refl,
}
use presage.Account.{
  AccountChatState, PinCodec, Thread, is_pinned, pin, pinned_threads, threads_of, thread, thread_of,
  for_thread, identifier_of,
}
use presage.Account.Pins.{PinCodecLaws}
use presage.Publish.{Contact}
use presage.Groups.{Group, ServiceId, same_service_id}
use presage.Chats.{
  ChatStore, set_pinned, set_archived, edit_account_for_publish, edit_contact_for_publish,
  is_archived, is_note_to_self,
}
use presage.Chats.Pinned.{KeepsChats, archived_in, set_pinned-unarchived}
use presage.Examples.Account.{read, written, read-written, chat_state}
use presage.Examples.Publish.{row}
use presage.Examples.Records.{forms}

abbrev id_bytes : ServiceId → List ℕ
id_bytes (ServiceId.aci_id uuid) = 0 ∷ uuid ∷ []
id_bytes (ServiceId.pni_id uuid) = 1 ∷ uuid ∷ []

abbrev bytes_id : List ℕ → Option ServiceId
bytes_id (kind ∷ x ∷ xs) = some (if kind == 0 then ServiceId.aci_id x else ServiceId.pni_id x)
bytes_id _ = none

abbrev codec : PinCodec ServiceId
codec = record {
  encode = written;
  decode = read;
  service_id_string = id_bytes;
  service_id_binary = id_bytes;
  parse_from_service_id_binary = bytes_id;
  parse_from_service_id_string = bytes_id;
  same_service_id = same_service_id;
}

bytes_id-id_bytes : (id : ServiceId) → bytes_id (id_bytes id) ≡ some id
bytes_id-id_bytes (ServiceId.aci_id uuid) = refl
bytes_id-id_bytes (ServiceId.pni_id uuid) = refl

same_service_id_refl : (id : ServiceId) → same_service_id id id ≡ true
same_service_id_refl (ServiceId.aci_id uuid) = ==_refl uuid
same_service_id_refl (ServiceId.pni_id uuid) = ==_refl uuid

same_service_id-eq : (a b : ServiceId) → same_service_id a b ≡ true → a ≡ b
same_service_id-eq (ServiceId.aci_id a) (ServiceId.aci_id b) h =
    ap ServiceId.aci_id ((==_iff a b).0 h)
same_service_id-eq (ServiceId.pni_id a) (ServiceId.pni_id b) h =
    ap ServiceId.pni_id ((==_iff a b).0 h)
same_service_id-eq (ServiceId.aci_id a) (ServiceId.pni_id b) h = cc
same_service_id-eq (ServiceId.pni_id a) (ServiceId.aci_id b) h = cc

codec-PinCodecLaws : PinCodecLaws codec
codec-PinCodecLaws = record {
  decode-encode = read-written;
  parse-service_id_binary = bytes_id-id_bytes;
  same-refl = same_service_id_refl;
  same-eq = same_service_id-eq;
}

-- What is kept, and whether each of the three is owed to the storage service.
record Kept : Type 0 where
  pub contact : Contact ℕ ℕ ℕ
  pub group : Option (Group ℕ ℕ ℕ ℕ)
  pub state : AccountChatState
  pub contact_owed : Bool
  pub group_owed : Bool
  pub account_owed : Bool

abbrev kept_row : Kept → ServiceId → Option (Contact ℕ ℕ ℕ)
kept_row w id = if same_service_id id (ServiceId.aci_id 7) then some w.contact else none

abbrev store : ChatStore Kept ℕ ℕ ℕ ℕ ℕ ℕ ℕ
store = record {
  contact_by_id = λ id w. (ok (kept_row w id), w);
  save_contact = λ c w. (ok tt, record w { contact = c });
  set_contact_needs_storage_sync = λ id b w. (ok tt, record w { contact_owed = b });
  group = λ key w. (ok w.group, w);
  save_group = λ key g w. (ok tt, record w { group = some g });
  set_group_needs_storage_sync = λ key b w. (ok tt, record w { group_owed = b });
  account_chat_state = λ w. (ok w.state, w);
  save_account_chat_state = λ s w. (ok tt, record w { state = s });
  set_account_needs_storage_sync = λ b w. (ok tt, record w { account_owed = b });
  send_blocked_sync = λ w. (ok tt, w);
}

kept_row-saved :
    (id : ServiceId) (old new : Contact ℕ ℕ ℕ) (w : Kept)
    → kept_row w id ≡ some old
    → kept_row (record w { contact = new }) id ≡ some new
kept_row-saved id old new w h = ground arith

store-KeepsChats : KeepsChats store kept_row (λ w key. w.group) (λ w. w.state)
store-KeepsChats = record {
  row_read = λ id w h. (ok_same refl h, refl);
  group_read = λ key w h. (ok_same refl h, refl);
  state_read = λ w h. (ok_same refl h, refl);
  row_saved = λ id old new w there same h. (kept_row-saved id old new w there, refl);
  group_saved = λ key g w h. (refl, refl);
  state_saved = λ s w h. refl;
  row_marked = λ id w. (refl, refl);
  group_marked = λ key w. (refl, refl);
  state_marked = λ w. refl;
}

-- The chat with 7 is archived and is not pinned.
abbrev archived_chat : Kept
archived_chat = record {
  contact = record row { uuid = 7; archived = true };
  group = none;
  state = chat_state;
  contact_owed = false;
  group_owed = false;
  account_owed = false;
}

abbrev seventh : Thread ServiceId
seventh = Thread.contact (ServiceId.aci_id 7)

set_pinned-owed :
    let end = (set_pinned store forms codec 1 seventh true archived_chat).1 in
    (end.contact_owed ≡ true) × (end.account_owed ≡ true) × (end.contact.archived ≡ false)
unfolding set_pinned set_archived edit_account_for_publish edit_contact_for_publish is_archived
    is_note_to_self pin is_pinned pinned_threads threads_of thread thread_of for_thread
    identifier_of
set_pinned-owed = (refl, refl, refl)

set_pinned-ends : (set_pinned store forms codec 1 seventh true archived_chat).0 ≡ ok tt
unfolding set_pinned set_archived edit_account_for_publish edit_contact_for_publish is_archived
    is_note_to_self pin is_pinned pinned_threads threads_of thread thread_of for_thread
    identifier_of
set_pinned-ends = refl

set_pinned-unarchived_example :
    (is_pinned codec (set_pinned store forms codec 1 seventh true archived_chat).1.state seventh
      ≡ true)
    × (archived_in store forms codec 1 kept_row
          (λ w key. w.group)
          (λ w. w.state)
          store-KeepsChats
          (set_pinned store forms codec 1 seventh true archived_chat).1
          seventh
        ≡ false)
set_pinned-unarchived_example =
    set_pinned-unarchived store forms codec 1 kept_row (λ w key. w.group) (λ w. w.state)
      store-KeepsChats codec-PinCodecLaws seventh archived_chat tt set_pinned-ends
