-- ===== src/Account/Publish.antt =====
-- `AccountPendingPublish`: what an account record says after the edits that publish the chat list, and what a
-- merge keeps.
use presage.Prelude.{
  ℕ, ◌+◌, ◌^◌, ◌<◌, List, [], ◌∷◌, Bool, true, false, not, ◌==◌, if◌then◌else◌, length, ok,
  >>=-eq-ok, ◌≡◌, refl, sym, ap, ◌∙◌, arith, Bool-cases, inl, inr,
}
use presage.Wire.Payload.{Fits}
use presage.Wire.Edit.{only-edit_other}
use presage.Record.{
  record_varint_field, set_varint_field_or_remove, account_note_to_self_archived,
  set_account_note_to_self_archived, account_keep_muted_chats_archived,
}
use presage.Record.Varint.{
  varint_fields, varint_fields-IsField, varint_fields-Numbered, Updated-set,
}
use presage.Record.Size.{length-Updated}
use presage.Publish.Apply.{
  bit, bit_small, set_bool-set_varint, set_varint-Maybe, record_bool-reads, record_bool-ok,
  settled_bit,
}
use presage.Account.{
  PinnedConversation, AccountChatState, AccountPendingPublish, account_pending_none,
  account_between, account_diff, account_apply, from_record, same_list, same_bytes, collect,
  account_pinned_conversations, set_account_pinned_conversations, encode_pinned_conversations,
}
use presage.Account.Entries.{
  pin_of_field, pin_replacement, account_pinned-Updated, account_pinned-before, set_pinned-Updated,
  set_pinned_total, account_pinned-set, length-replacement,
}
use presage.Account.Pins.{same_bytes_refl}

same_pins_refl : (pins : List PinnedConversation) → same_list same_bytes pins pins ≡ true
same_pins_refl [] = refl
same_pins_refl (p ∷ ps) = rw (same_bytes_refl p, same_pins_refl ps) refl

settled_pins :
    (published local : List PinnedConversation)
    → not (
        same_list same_bytes
          (if not (same_list same_bytes published local) then local else published)
          local)
      ≡ false
settled_pins published local = elim (Bool-cases (same_list same_bytes published local)) [
  | inl same ↦ rw same (rw same refl)
  | inr other ↦ rw other (rw (same_pins_refl local) refl)
]

-- The settings as an account record has them.
record Settings (record' : List ℕ) (note keep : ℕ) (pins : List PinnedConversation) : Type 0 where
  note_reads : record_varint_field record' 4 5 ≡ ok note
  keep_reads : record_varint_field record' 4 25 ≡ ok keep
  pins_read : account_pinned_conversations record' ≡ ok pins

abbrev state_of : ℕ → ℕ → List PinnedConversation → AccountChatState
state_of note keep pins = record {
  note_to_self_archived = not (note == 0);
  keep_muted_chats_archived = not (keep == 0);
  pinned = pins;
}

from_record-Settings :
    (record' : List ℕ) {state : AccountChatState}
    → from_record record' ≡ ok state
    → (note : ℕ) × (keep : ℕ) × (pins : List PinnedConversation) × Settings record' note keep pins
      × (state ≡ state_of note keep pins)
unfolding from_record account_note_to_self_archived account_keep_muted_chats_archived
from_record-Settings record' h =
    let (x, hx, h1) = >>=-eq-ok (account_note_to_self_archived record') _ h in
    let (y, hy, h2) = >>=-eq-ok (account_keep_muted_chats_archived record') _ h1 in
    let (pins, hp, h3) = >>=-eq-ok (account_pinned_conversations record') _ h2 in
    let (note, rn, en) = record_bool-reads record' 4 5 hx in
    let (keep, rk, ek) = record_bool-reads record' 4 25 hy in
    (note, keep, pins, record { note_reads = rn; keep_reads = rk; pins_read = hp }, cc)

account_diff-Settings :
    (record' : List ℕ) (local : AccountChatState) (note keep : ℕ) (pins : List PinnedConversation)
    → Settings record' note keep pins
    → account_diff record' local ≡ ok (account_between (state_of note keep pins) local)
unfolding account_diff from_record account_note_to_self_archived account_keep_muted_chats_archived
account_diff-Settings record' local note keep pins s =
    rw
      (
        record_bool-ok record' 4 5 note s.note_reads,
        record_bool-ok record' 4 25 keep s.keep_reads,
        s.pins_read,
      )
      refl

-- Setting a varint field leaves the pins alone.
pins-set_varint :
    (record' : List ℕ) (v : ℕ) {out : List ℕ}
    → v < 2 ^ 64
    → Fits record'
    → Fits out
    → set_varint_field_or_remove record' 4 5 v ≡ ok out
    → account_pinned_conversations out ≡ account_pinned_conversations record'
pins-set_varint record' v small fits fits_out h =
    let u =
      Updated-set 4 5 (omega arith) (omega arith) (omega arith) (omega arith) v small record' fits
        h in
    let r = varint_fields 5 v in
    account_pinned-Updated record' 5 r u
      (varint_fields-IsField 4 5 (omega arith) (omega arith) (omega arith) (omega arith) v small)
      fits_out
    ∙ ap (collect pin_of_field) (
        only-edit_other 5 r
          (varint_fields-Numbered 4 5 (omega arith) (omega arith) (omega arith) (omega arith) v
            small)
          14 u.gs (λ e. omega arith))
    ∙ sym (account_pinned-before record' 5 r u fits)

pins-maybe :
    (record' out : List ℕ) (v : ℕ) (wanted : Bool)
    → v < 2 ^ 64
    → Fits record'
    → Fits out
    → (if wanted then set_varint_field_or_remove record' 4 5 v else ok record') ≡ ok out
    → account_pinned_conversations out ≡ account_pinned_conversations record'
pins-maybe record' out v true small fits fits_out h =
    pins-set_varint record' v small fits fits_out h
pins-maybe record' out v false small fits fits_out h =
    let same : record' ≡ out = ground arith in ap account_pinned_conversations (sym same)

-- The second edit, which may be left out.
maybe_pins :
    (record' : List ℕ) (note keep : ℕ) (pins wanted_pins : List PinnedConversation) (wanted : Bool)
    → length record' + length (encode_pinned_conversations wanted_pins) + 20 < 2 ^ 64
    → Settings record' note keep pins
    → (out : List ℕ) × ((if wanted
          then set_account_pinned_conversations record' wanted_pins
          else ok record')
        ≡ ok out)
      × Settings out note keep (if wanted then wanted_pins else pins)
maybe_pins record' note keep pins wanted_pins false room s = (record', refl, s)
maybe_pins record' note keep pins wanted_pins true room s =
    let (out, done) = set_pinned_total record' wanted_pins 5 (omega arith) s.note_reads in
    let u = set_pinned-Updated record' wanted_pins (omega arith) done in
    let fits_out : Fits out = omega (
      arith,
      length-Updated record' 4 14 (pin_replacement wanted_pins) u,
      length-replacement wanted_pins,
    ) in
    let read = λ (m : ℕ).
      account_pinned-set record' wanted_pins m (omega arith) (omega arith) fits_out done in
    (
      out,
      done,
      record {
        note_reads = (read 5).1 (λ e. omega arith) ∙ s.note_reads;
        keep_reads = (read 25).1 (λ e. omega arith) ∙ s.keep_reads;
        pins_read = (read 0).0;
      },
    )

account_apply-chain :
    (p : AccountPendingPublish) (record' r1 r2 : List ℕ) (local : AccountChatState)
    → (if p.note_to_self_archived
        then set_varint_field_or_remove record' 4 5 (bit local.note_to_self_archived)
        else ok record')
      ≡ ok r1
    → (if p.pinned then set_account_pinned_conversations r1 local.pinned else ok r1) ≡ ok r2
    → account_apply p record' local ≡ ok r2
unfolding account_apply set_account_note_to_self_archived
account_apply-chain p record' r1 r2 local e1 e2 =
    rw (set_bool-set_varint record' 4 5 local.note_to_self_archived, e1) e2

account_apply-step :
    (p : AccountPendingPublish) (record' : List ℕ) (local : AccountChatState) (note keep : ℕ)
    (pins : List PinnedConversation)
    → length record' + length (encode_pinned_conversations local.pinned) + 60 < 2 ^ 64
    → Settings record' note keep pins
    → (out : List ℕ) × (account_apply p record' local ≡ ok out)
      × Settings out
          (if p.note_to_self_archived then bit local.note_to_self_archived else note)
          keep
          (if p.pinned then local.pinned else pins)
account_apply-step p record' local note keep pins room s =
    let (r1, e1) =
      set_varint-Maybe 4 5 (bit local.note_to_self_archived) p.note_to_self_archived record'
        (omega arith) (omega arith) (omega arith) (omega arith)
        (bit_small local.note_to_self_archived) (omega arith) s.note_reads in
    let kept_pins =
      pins-maybe record' r1 (bit local.note_to_self_archived) p.note_to_self_archived
        (bit_small local.note_to_self_archived) (omega arith) (omega (arith, e1.grown)) e1.done in
    let (r2, done, s2) =
      maybe_pins r1 (if p.note_to_self_archived then bit local.note_to_self_archived else note) keep
        pins local.pinned p.pinned (omega (arith, e1.grown))
        (record {
          note_reads = e1.written;
          keep_reads = e1.kept 25 (λ e. omega arith) ∙ s.keep_reads;
          pins_read = kept_pins ∙ s.pins_read;
        }) in
    (r2, account_apply-chain p record' r1 r2 local e1.done done, s2)

account_settled :
    (note keep : ℕ) (pins : List PinnedConversation) (local : AccountChatState)
    (p : AccountPendingPublish)
    → p ≡ account_between (state_of note keep pins) local
    → account_between
        (state_of
          (if p.note_to_self_archived then bit local.note_to_self_archived else note)
          keep
          (if p.pinned then local.pinned else pins))
        local
      ≡ account_pending_none
unfolding account_between
account_settled note keep pins local p h =
    rw h (rw (settled_bit note local.note_to_self_archived, settled_pins pins local.pinned) refl)

-- When an account's record reads, and with the encoded pins it is at least 60 bytes shorter than 2^64: applying
-- what it and the stored chat state disagree on succeeds, and the record it gives agrees with the stored
-- state on the archive of Note to Self and on the pins.
pub account_apply-account_diff :
    (record' : List ℕ) (local : AccountChatState) (p : AccountPendingPublish)
    → length record' + length (encode_pinned_conversations local.pinned) + 60 < 2 ^ 64
    → account_diff record' local ≡ ok p
    → (out : List ℕ) × (account_apply p record' local ≡ ok out)
      × (account_diff out local ≡ ok account_pending_none)
unfolding account_diff
account_apply-account_diff record' local p room h =
    let (published, read, is) = >>=-eq-ok (from_record record') _ h in
    let (note, keep, pins, s, state_is) = from_record-Settings record' read in
    let p_is : p ≡ account_between (state_of note keep pins) local = cc in
    let (out, done, s') = account_apply-step p record' local note keep pins room s in
    (
      out,
      done,
      account_diff-Settings out local _ keep _ s'
          ∙ ap (λ x. ok x) (account_settled note keep pins local p p_is),
    )
