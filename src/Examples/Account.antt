-- ===== src/Examples/Account.antt =====
-- presage/src/model/account.rs and the account's part of presage/src/manager/storage.rs on one chat state.
use presage.Prelude.{
  ℕ, zero, suc, take, drop, take-append, drop-append, ◌==◌, List, [], ◌∷◌, ◌++◌, Option, none, some,
  true, false, ◌||◌, length, ok, ◌≡◌, refl, arith, ==_refl, ==_iff,
}
use presage.Record.{record_runs, account_note_to_self_archived, account_keep_muted_chats_archived}
use presage.Account.{
  AccountChatState, AccountPendingPublish, account_pending_none, Thread, Identifier, PinCodec,
  collect, pin_of_span, decode_pinned_conversations, encode_pinned_conversations,
  account_pinned_conversations, set_account_pinned_conversations, from_record, account_between,
  account_diff, account_apply, threads_of, pinned_threads, is_pinned, pin,
  adopt_first_account_record,
}
use presage.Account.Pins.{PinCodecLaws, adopt_first-is_pinned}
use presage.Account.Publish.{account_apply-account_diff}

abbrev two_pins : List (List ℕ)
two_pins = (1 ∷ 2 ∷ []) ∷ (3 ∷ []) ∷ []

-- A record whose account has Note to Self archived and no pin, and the record with the two.
abbrev plain_account : List ℕ
plain_account = 0x22 ∷ 2 ∷ 0x28 ∷ 1 ∷ []

abbrev pinned_account : List ℕ
pinned_account = 0x22 ∷ 9 ∷ 0x28 ∷ 1 ∷ 0x72 ∷ 2 ∷ 1 ∷ 2 ∷ 0x72 ∷ 1 ∷ 3 ∷ []

abbrev pins_wire : List ℕ
pins_wire = 0x72 ∷ 2 ∷ 1 ∷ 2 ∷ 0x72 ∷ 1 ∷ 3 ∷ []

encoded : encode_pinned_conversations two_pins ≡ pins_wire
unfolding record_runs encode_pinned_conversations
encoded = refl

encoded_length : length (encode_pinned_conversations two_pins) ≡ 7
encoded_length = rw encoded refl

pins_set : set_account_pinned_conversations plain_account two_pins ≡ ok pinned_account
unfolding record_runs set_account_pinned_conversations encode_pinned_conversations
pins_set = refl

abbrev pub chat_state : AccountChatState
chat_state = record {
  note_to_self_archived = false;
  keep_muted_chats_archived = false;
  pinned = two_pins;
}

abbrev both : AccountPendingPublish
both = record { note_to_self_archived = true; pinned = true }

diff-chat_state : account_diff plain_account chat_state ≡ ok both
unfolding record_runs account_diff from_record account_between account_note_to_self_archived
    account_keep_muted_chats_archived account_pinned_conversations decode_pinned_conversations
    collect pin_of_span
diff-chat_state = refl

account_apply-account_diff_example :
    (out : List ℕ) × (account_apply both plain_account chat_state ≡ ok out)
    × (account_diff out chat_state ≡ ok account_pending_none)
account_apply-account_diff_example =
    account_apply-account_diff plain_account chat_state both (omega (arith, encoded_length))
      diff-chat_state

-- A codec in place of prost's: a kind, for a contact the lengths of its first two strings, and the bytes.
abbrev pub written : Option Identifier → List ℕ
written none = []
written (some (Identifier.contact string e164 binary)) =
    zero ∷ length string ∷ length e164 ∷ string ++ (e164 ++ binary)
written (some (Identifier.group_master_key key)) = suc zero ∷ key
written (some (Identifier.legacy_group_id id)) = suc (suc zero) ∷ id
written (some Identifier.release_notes) = suc (suc (suc zero)) ∷ []

abbrev pub read : List ℕ → Option (Option Identifier)
read [] = some none
read (zero ∷ a ∷ b ∷ rest) =
    some (some (Identifier.contact (take a rest) (take b (drop a rest)) (drop b (drop a rest))))
read (suc zero ∷ key) = some (some (Identifier.group_master_key key))
read (suc (suc zero) ∷ id) = some (some (Identifier.legacy_group_id id))
read (suc (suc (suc n)) ∷ rest) = some (some Identifier.release_notes)
read (zero ∷ []) = none
read (zero ∷ a ∷ []) = none

pub read-written : (i : Option Identifier) → read (written i) ≡ some i
read-written none = refl
read-written (some (Identifier.contact string e164 binary)) =
    rw
      (
        take-append string (e164 ++ binary),
        drop-append string (e164 ++ binary),
        take-append e164 binary,
        drop-append e164 binary,
      )
      refl
read-written (some (Identifier.group_master_key key)) = refl
read-written (some (Identifier.legacy_group_id id)) = refl
read-written (some Identifier.release_notes) = refl

abbrev head_of : List ℕ → Option ℕ
head_of [] = none
head_of (x ∷ xs) = some x

-- A service id is a number, and both its forms are the list of it.
abbrev codec : PinCodec ℕ
codec = record {
  encode = written;
  decode = read;
  service_id_string = λ id. id ∷ [];
  service_id_binary = λ id. id ∷ [];
  parse_from_service_id_binary = head_of;
  parse_from_service_id_string = head_of;
  same_service_id = λ a b. a == b;
}

codec-PinCodecLaws : PinCodecLaws codec
codec-PinCodecLaws = record {
  decode-encode = read-written;
  parse-service_id_binary = λ id. refl;
  same-refl = ==_refl;
  same-eq = λ a b h. (==_iff a b).0 h;
}

abbrev empty_state : AccountChatState
empty_state = record {
  note_to_self_archived = false;
  keep_muted_chats_archived = true;
  pinned = [];
}

abbrev seven : Thread ℕ
seven = Thread.contact 7

nothing_pinned : is_pinned codec empty_state seven ≡ false
unfolding is_pinned pinned_threads threads_of
nothing_pinned = refl

adopt_first-is_pinned_example :
    (is_pinned codec
        (adopt_first_account_record codec (pin codec empty_state seven) chat_state)
        seven
      ≡ (is_pinned codec chat_state seven || is_pinned codec (pin codec empty_state seven) seven))
    × ((adopt_first_account_record codec
          (pin codec empty_state seven)
          chat_state).note_to_self_archived
        ≡ chat_state.note_to_self_archived)
    × ((adopt_first_account_record codec
          (pin codec empty_state seven)
          chat_state).keep_muted_chats_archived
        ≡ chat_state.keep_muted_chats_archived)
adopt_first-is_pinned_example =
    adopt_first-is_pinned codec codec-PinCodecLaws (pin codec empty_state seven) chat_state seven
