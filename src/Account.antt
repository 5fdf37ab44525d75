-- ===== src/Account.antt =====
-- presage/src/model/account.rs with the pinned conversations of presage/src/storage_record.rs, and the
-- account's part of presage/src/manager/storage.rs: what the account record says of the chat list.
pub mod Entries
pub mod Pins
pub mod Publish
use presage.Prelude.{
  ℕ, ◌==◌, List, [], ◌∷◌, ◌++◌, Option, none, some, Bool, true, false, not, ◌&&◌, ◌||◌, differs,
  if◌then◌else◌, length, any, retain, Result, ok, err, ok_unwrap_or, ◌>>=◌,
}
use mathlib.Core.Option
use presage.Wire.{EditError, FieldSpan, at_range, wire_len, scan, encode_len_delimited}
use presage.Record.{
  storage_record_account, account_record_pinned_conversations, record_payload, set_record_field,
  account_note_to_self_archived, set_account_note_to_self_archived,
  account_keep_muted_chats_archived,
}

-- An entry is the bytes that the record carries.
abbrev pub PinnedConversation : Type 0
PinnedConversation = List ℕ

-- `.map(..).collect::<Result<_, _>>()`
unfoldable pub collect {ℓ κ} :
    {A : Type ℓ} {B : Type κ} → (A → Result EditError B) → List A → Result EditError (List B)
collect f [] = ok []
collect f (x ∷ xs) = do y ← f x; ys ← collect f xs; ok (y ∷ ys)

unfoldable pub pin_of_span : List ℕ → FieldSpan → Result EditError PinnedConversation
pin_of_span bytes span =
    if span.wire_type == wire_len then ok (at_range bytes span.payload) else err EditError.malformed

unfoldable pub decode_pinned_conversations : List ℕ → Result EditError (List PinnedConversation)
decode_pinned_conversations bytes = do
  spans ← scan bytes
  collect (pin_of_span bytes) (retain (λ s. s.number == account_record_pinned_conversations) spans)

unfoldable pub encode_pinned_conversations : List PinnedConversation → List ℕ
encode_pinned_conversations [] = []
encode_pinned_conversations (pin ∷ pins) =
    encode_len_delimited account_record_pinned_conversations pin ++ encode_pinned_conversations pins

unfoldable pub account_pinned_conversations : List ℕ → Result EditError (List PinnedConversation)
account_pinned_conversations record' = do
  payload ← record_payload record' storage_record_account
  decode_pinned_conversations (at_range record' payload)

-- `(!pinned.is_empty()).then_some(..)`
abbrev pub pinned_replacement : List PinnedConversation → Option (List ℕ)
pinned_replacement [] = none
pinned_replacement (pin ∷ pins) = some (encode_pinned_conversations (pin ∷ pins))

unfoldable pub set_account_pinned_conversations :
    List ℕ → List PinnedConversation → Result EditError (List ℕ)
set_account_pinned_conversations record' pinned =
    set_record_field record' storage_record_account account_record_pinned_conversations
      (pinned_replacement pinned)

-- presage/src/store.rs, `Thread`; a group's master key is 32 bytes.
pub data Thread (ServiceId : Type 0) : Type 0 where
  contact : ServiceId → Thread ServiceId
  group : List ℕ → Thread ServiceId

-- The message type that prost derives: the identifier of a pinned conversation.
pub data Identifier : Type 0 where
  contact : List ℕ → List ℕ → List ℕ → Identifier
  group_master_key : List ℕ → Identifier
  legacy_group_id : List ℕ → Identifier
  release_notes : Identifier

-- What prost and libsignal do for a pinned conversation: the message's codec, of which the identifier may be
-- missing, and the two forms of a service id.
pub record PinCodec (ServiceId : Type 0) : Type 0 where
  pub encode : Option Identifier → List ℕ
  pub decode : List ℕ → Option (Option Identifier)
  pub service_id_string : ServiceId → List ℕ
  pub service_id_binary : ServiceId → List ℕ
  pub parse_from_service_id_binary : List ℕ → Option ServiceId
  pub parse_from_service_id_string : List ℕ → Option ServiceId
  pub same_service_id : ServiceId → ServiceId → Bool

abbrev pub same_list {ℓ} : {A : Type ℓ} → (A → A → Bool) → List A → List A → Bool
same_list same [] [] = true
same_list same [] (y ∷ ys) = false
same_list same (x ∷ xs) [] = false
same_list same (x ∷ xs) (y ∷ ys) = same x y && same_list same xs ys

abbrev pub same_bytes : List ℕ → List ℕ → Bool
same_bytes = same_list (λ a b. a == b)

pub record AccountChatState : Type 0 where
  pub note_to_self_archived : Bool
  pub keep_muted_chats_archived : Bool
  pub pinned : List PinnedConversation

-- `Option::or_else`
abbrev pub or_else {ℓ} : {A : Type ℓ} → Option A → Option A → Option A
or_else none other = other
or_else (some a) other = some a

abbrev pub or_skip {ℓ} : {A : Type ℓ} → Option A → List A → List A
or_skip none xs = xs
or_skip (some x) xs = x ∷ xs

module _ {ServiceId : Type 0} (codec : PinCodec ServiceId) where
  abbrev pub same_thread : Thread ServiceId → Thread ServiceId → Bool
  same_thread (Thread.contact a) (Thread.contact b) = codec.same_service_id a b
  same_thread (Thread.group a) (Thread.group b) = same_bytes a b
  same_thread (Thread.contact a) (Thread.group b) = false
  same_thread (Thread.group a) (Thread.contact b) = false

  unfoldable pub identifier_of : Thread ServiceId → Identifier
  identifier_of (Thread.contact id) =
      Identifier.contact (codec.service_id_string id) [] (codec.service_id_binary id)
  identifier_of (Thread.group key) = Identifier.group_master_key key

  unfoldable pub for_thread : Thread ServiceId → PinnedConversation
  for_thread t = codec.encode (some (identifier_of t))

  -- The `match` on a decoded identifier.
  unfoldable pub thread_of : Identifier → Option (Thread ServiceId)
  thread_of (Identifier.contact string e164 binary) =
      Option.map (λ id. Thread.contact id)
        (or_else (codec.parse_from_service_id_binary binary)
          (codec.parse_from_service_id_string string))
  thread_of (Identifier.group_master_key key) =
      if length key == 32 then some (Thread.group key) else none
  thread_of (Identifier.legacy_group_id id) = none
  thread_of Identifier.release_notes = none

  -- `.ok()?.identifier?` and the `match`.
  abbrev pub read_as : Option (Option Identifier) → Option (Thread ServiceId)
  unfolding thread_of
  read_as none = none
  read_as (some none) = none
  read_as (some (some identifier)) = thread_of identifier

  unfoldable pub thread : PinnedConversation → Option (Thread ServiceId)
  thread pin = read_as (codec.decode pin)

  -- `filter_map(PinnedConversation::thread)`
  unfoldable pub threads_of : List PinnedConversation → List (Thread ServiceId)
  threads_of [] = []
  threads_of (pin ∷ pins) = or_skip (thread pin) (threads_of pins)

  unfoldable pub pinned_threads : AccountChatState → List (Thread ServiceId)
  pinned_threads state = threads_of state.pinned

  unfoldable pub is_pinned : AccountChatState → Thread ServiceId → Bool
  is_pinned state t = any (λ pinned. same_thread pinned t) (pinned_threads state)

  unfoldable pub pin : AccountChatState → Thread ServiceId → AccountChatState
  pin state t =
      if is_pinned state t
      then state
      else record state { pinned = state.pinned ++ for_thread t ∷ [] }

  -- `entry.thread().as_ref() != Some(thread)`
  abbrev pub is_other : Thread ServiceId → Option (Thread ServiceId) → Bool
  is_other t none = true
  is_other t (some u) = not (same_thread u t)

  abbrev pub shows_other : Thread ServiceId → PinnedConversation → Bool
  shows_other t entry = is_other t (thread entry)

  unfoldable pub unpin : AccountChatState → Thread ServiceId → AccountChatState
  unpin state t = record state { pinned = retain (shows_other t) state.pinned }

  -- `for thread in local.pinned_threads() { adopted.pin(&thread) }`
  unfoldable pub pin_all : AccountChatState → List (Thread ServiceId) → AccountChatState
  pin_all state [] = state
  pin_all state (t ∷ ts) = pin_all (pin state t) ts

  unfoldable pub adopt_first_account_record : AccountChatState → AccountChatState → AccountChatState
  adopt_first_account_record local remote = pin_all remote (pinned_threads local)

unfoldable pub from_record : List ℕ → Result EditError AccountChatState
from_record record' = do
  archived ← account_note_to_self_archived record'
  keep ← account_keep_muted_chats_archived record'
  pins ← account_pinned_conversations record'
  ok (record { note_to_self_archived = archived; keep_muted_chats_archived = keep; pinned = pins })

pub record AccountPendingPublish : Type 0 where
  pub note_to_self_archived : Bool
  pub pinned : Bool

abbrev pub account_pending_none : AccountPendingPublish
account_pending_none = record { note_to_self_archived = false; pinned = false }

abbrev pub account_pending_all : AccountPendingPublish
account_pending_all = record { note_to_self_archived = true; pinned = true }

unfoldable pub account_between : AccountChatState → AccountChatState → AccountPendingPublish
account_between a b = record {
  note_to_self_archived = differs a.note_to_self_archived b.note_to_self_archived;
  pinned = not (same_list same_bytes a.pinned b.pinned);
}

unfoldable pub account_diff : List ℕ → AccountChatState → Result EditError AccountPendingPublish
account_diff record' local = do
  published ← from_record record'
  ok (account_between published local)

unfoldable pub account_any : AccountPendingPublish → Bool
account_any p = p.note_to_self_archived || p.pinned

unfoldable pub account_apply :
    AccountPendingPublish → List ℕ → AccountChatState → Result EditError (List ℕ)
account_apply pending record' local = do
  edited ←
      if pending.note_to_self_archived
      then set_account_note_to_self_archived record' local.note_to_self_archived
      else ok record'
  if pending.pinned then set_account_pinned_conversations edited local.pinned else ok edited

unfoldable pub merge_account_from_snapshot :
    AccountChatState → AccountChatState → AccountPendingPublish → AccountChatState
merge_account_from_snapshot local remote pending = record {
  note_to_self_archived =
      if pending.note_to_self_archived
      then local.note_to_self_archived
      else remote.note_to_self_archived;
  keep_muted_chats_archived = remote.keep_muted_chats_archived;
  pinned = if pending.pinned then local.pinned else remote.pinned;
}

-- What `store.account_storage_identity()` answers.
pub data Published : Type 0 where
  never : Published
  known : List ℕ → Published
  unreadable : Published

-- `merge_account_record`; `local` is the stored state, or the default where it cannot be read.
unfoldable pub merge_account_record :
    {ServiceId : Type 0}
    → PinCodec ServiceId
    → AccountChatState
    → Published
    → AccountChatState
    → Bool
    → AccountChatState
merge_account_record codec local Published.never remote flagged =
    adopt_first_account_record codec local remote
merge_account_record codec local (Published.known record') remote flagged =
    merge_account_from_snapshot local remote (
      if not flagged
      then account_pending_none
      else ok_unwrap_or (account_diff record' local) account_pending_all)
merge_account_record codec local Published.unreadable remote flagged =
    merge_account_from_snapshot local remote
      (if not flagged then account_pending_none else account_pending_all)
