-- ===== src/Account/Entries.antt =====
-- The pinned conversations of an account record: the entries' encoding, and reading and setting them.
use presage.Prelude.{
  ℕ, List, [], ◌∷◌, Option, none, some, ◌==◌, if◌then◌else◌, length, map, retain, Result, ok, err,
  ◌≡◌, ◌≢◌, refl, sym, ap, ◌∙◌, arith, length-append,
}
use presage.Wire.{EditError, FieldSpan, wire_len}
use presage.Wire.Payload.{Fits}
use presage.Wire.Span.{Field, bytes, IsField}
use presage.Wire.Scan.{All, wire_of, spans_at, scan_ok}
use presage.Wire.Edit.{
  only, edit, new_fields, new_bytes, Numbered, only-edit, only-edit_other, All-edit,
}
use presage.Wire.Encode.{len_field, len_field-IsField, encode_len_delimited-bytes}
use presage.Record.{record_varint_field}
use presage.Record.Payload.{
  AllSits, AllSits-only, AllSits-spans_at, Holds, Holds-record_payload,
  record_varint_field-last_value, last_value,
}
use presage.Record.Update.{
  Updated, updated, set_record_field-Updated, set_record_field_total, Holds-updated,
  submessage-Fits, payload-Fits, read-updated,
}
use presage.Account.{
  PinnedConversation, collect, pin_of_span, decode_pinned_conversations,
  encode_pinned_conversations, account_pinned_conversations, pinned_replacement,
  set_account_pinned_conversations,
}

abbrev pub pin_fields : List PinnedConversation → List Field
pin_fields = map (len_field 14)

-- An entry as a field has it.
abbrev pub pin_of_field : Field → Result EditError PinnedConversation
pin_of_field f = if f.wire_type == wire_len then ok f.payload else err EditError.malformed

encode_pinned-pin_fields :
    (pins : List PinnedConversation) → encode_pinned_conversations pins ≡ wire_of (pin_fields pins)
unfolding encode_pinned_conversations
encode_pinned-pin_fields [] = refl
encode_pinned-pin_fields (p ∷ ps) =
    rw (encode_len_delimited-bytes 14 (omega arith) (omega arith) p, encode_pinned-pin_fields ps)
      refl

pin_fields-IsField :
    (pins : List PinnedConversation)
    → Fits (wire_of (pin_fields pins))
    → All IsField (pin_fields pins)
pin_fields-IsField [] fits = tt
pin_fields-IsField (p ∷ ps) fits =
    let whole = length-append (bytes (len_field 14 p)) (wire_of (pin_fields ps)) in
    (
      len_field-IsField 14 (omega arith) (omega arith) p
          (omega (arith, whole, length-append (len_field 14 p).head p)),
      pin_fields-IsField ps (omega (arith, whole)),
    )

pin_fields-Numbered : (pins : List PinnedConversation) → Numbered 14 (pin_fields pins)
pin_fields-Numbered [] = tt
pin_fields-Numbered (p ∷ ps) = (refl, pin_fields-Numbered ps)

collect-pin_fields :
    (pins : List PinnedConversation) → collect pin_of_field (pin_fields pins) ≡ ok pins
unfolding collect
collect-pin_fields [] = refl
collect-pin_fields (p ∷ ps) = rw (collect-pin_fields ps) refl

collect-AllSits :
    (msg : List ℕ) (spans : List FieldSpan) (fs : List Field)
    → AllSits msg spans fs
    → collect (pin_of_span msg) spans ≡ collect pin_of_field fs
unfolding collect pin_of_span
collect-AllSits msg [] [] h = refl
collect-AllSits msg [] (f ∷ fs) h = absurd h
collect-AllSits msg (s ∷ ss) [] h = absurd h
collect-AllSits msg (s ∷ ss) (f ∷ fs) h =
    rw (h.0.wire_type, h.0.payload, collect-AllSits msg ss fs h.1) refl

decode_pinned-only :
    (fs : List Field)
    → All IsField fs
    → Fits (wire_of fs)
    → decode_pinned_conversations (wire_of fs) ≡ collect pin_of_field (only 14 fs)
unfolding decode_pinned_conversations
decode_pinned-only fs is fits = rw (scan_ok fs is fits) (
    collect-AllSits (wire_of fs) (retain (λ s. s.number == 14) (spans_at 0 fs)) (only 14 fs)
      (AllSits-only (wire_of fs) 14 (spans_at 0 fs) fs (AllSits-spans_at (wire_of fs) [] fs refl)))

only-pin_fields : (pins : List PinnedConversation) → only 14 (pin_fields pins) ≡ pin_fields pins
only-pin_fields [] = refl
only-pin_fields (p ∷ ps) = ap (◌∷◌ (len_field 14 p)) (only-pin_fields ps)

-- Pinned conversations whose encoding is shorter than 2^64 bytes are decoded as they were, in order.
pub decode_pinned-encode_pinned :
    (pins : List PinnedConversation)
    → Fits (encode_pinned_conversations pins)
    → decode_pinned_conversations (encode_pinned_conversations pins) ≡ ok pins
decode_pinned-encode_pinned pins fits =
    let fits' : Fits (wire_of (pin_fields pins)) = rw (encode_pinned-pin_fields pins) at fits in
    rw (encode_pinned-pin_fields pins) (
      decode_pinned-only (pin_fields pins) (pin_fields-IsField pins fits') fits'
      ∙ ap (collect pin_of_field) (only-pin_fields pins)
      ∙ collect-pin_fields pins)

pub account_pinned-only :
    (fs : List Field) (g : Field) (gs : List Field)
    → Holds fs 4 g
    → Fits (wire_of fs)
    → g.payload ≡ wire_of gs
    → All IsField gs
    → Fits (wire_of gs)
    → account_pinned_conversations (wire_of fs) ≡ collect pin_of_field (only 14 gs)
unfolding account_pinned_conversations
account_pinned-only fs g gs h fits body is fits' =
    let (r, payload, at_r) = Holds-record_payload fs 4 g h fits in
    rw (payload, at_r, body) (decode_pinned-only gs is fits')

abbrev pub pin_replacement : List PinnedConversation → Option (List Field)
pin_replacement [] = none
pin_replacement (p ∷ ps) = some (pin_fields (p ∷ ps))

new_fields-pin_replacement :
    (pins : List PinnedConversation) → new_fields (pin_replacement pins) ≡ pin_fields pins
new_fields-pin_replacement [] = refl
new_fields-pin_replacement (p ∷ ps) = refl

replacement_bytes :
    (pins : List PinnedConversation) → pinned_replacement pins ≡ new_bytes (pin_replacement pins)
replacement_bytes [] = refl
replacement_bytes (p ∷ ps) = ap (λ x. some x) (encode_pinned-pin_fields (p ∷ ps))

-- Reading the pins and a varint of an edited account record, and of the record before the edit.
module _ (record' : List ℕ) (n : ℕ) (r : Option (List Field)) {out : List ℕ}
    (u : Updated record' 4 n r out) where
  module _ (fields : All IsField (new_fields r)) (fits : Fits out) where
    inner : All IsField (edit n r u.gs)
    inner = All-edit IsField n r u.gs fields u.inner

    whole : Fits (wire_of (updated u.fs 4 (edit n r u.gs)))
    whole = rw (← u.result) fits

    pub account_pinned-Updated :
        account_pinned_conversations out ≡ collect pin_of_field (only 14 (edit n r u.gs))
    account_pinned-Updated =
        ap account_pinned_conversations u.result
        ∙ account_pinned-only (updated u.fs 4 (edit n r u.gs))
            (len_field 4 (wire_of (edit n r u.gs))) (edit n r u.gs)
            (Holds-updated 4 (omega arith) (omega arith) u.fs (edit n r u.gs) u.holds.fields whole)
            whole refl inner (submessage-Fits u.fs 4 (edit n r u.gs) whole)

    pub record_varint-Updated :
        (m : ℕ) → record_varint_field out 4 m ≡ last_value (only m (edit n r u.gs))
    record_varint-Updated m =
        ap (λ t. record_varint_field t 4 m) u.result
        ∙ read-updated 4 (omega arith) (omega arith) u.fs (edit n r u.gs) m u.holds.fields inner
            whole

  module _ (fits : Fits record') where
    before : Fits (wire_of u.fs)
    before = rw (← u.whole) fits

    before_inner : Fits (wire_of u.gs)
    before_inner = rw (← u.body) (payload-Fits u.fs 4 u.g u.holds.single before)

    pub account_pinned-before :
        account_pinned_conversations record' ≡ collect pin_of_field (only 14 u.gs)
    account_pinned-before =
        ap account_pinned_conversations u.whole
        ∙ account_pinned-only u.fs u.g u.gs u.holds before u.body u.inner before_inner

    pub record_varint-before : (m : ℕ) → record_varint_field record' 4 m ≡ last_value (only m u.gs)
    record_varint-before m =
        ap (λ t. record_varint_field t 4 m) u.whole
        ∙ record_varint_field-last_value u.fs 4 u.g u.gs m u.holds before u.body u.inner
            before_inner

pub set_pinned-Updated :
    (record' : List ℕ) (pins : List PinnedConversation) {out : List ℕ}
    → Fits record'
    → set_account_pinned_conversations record' pins ≡ ok out
    → Updated record' 4 14 (pin_replacement pins) out
unfolding set_account_pinned_conversations
set_pinned-Updated record' pins fits h =
    set_record_field-Updated 4 (omega arith) (omega arith) record' 14 (pin_replacement pins) fits
      (rw (replacement_bytes pins) at h)

pub set_pinned_total :
    (record' : List ℕ) (pins : List PinnedConversation) (m : ℕ) {w : ℕ}
    → Fits record'
    → record_varint_field record' 4 m ≡ ok w
    → (out : List ℕ) × (set_account_pinned_conversations record' pins ≡ ok out)
unfolding set_account_pinned_conversations
set_pinned_total record' pins m fits reads =
    let (out, done) =
      set_record_field_total 4 (omega arith) (omega arith) record' 14 (pin_replacement pins) m fits
        reads in
    (out, rw (replacement_bytes pins) done)

-- For a list of entries whose encoding is shorter than 2^64 bytes, and an edit that succeeds, with a record
-- shorter than 2^64 bytes before and after: the pinned conversations that are read are those that were set, in
-- their order, and every other varint field of the account reads as before.
pub account_pinned-set :
    (record' : List ℕ) (pins : List PinnedConversation) (m : ℕ) {out : List ℕ}
    → Fits (encode_pinned_conversations pins)
    → Fits record'
    → Fits out
    → set_account_pinned_conversations record' pins ≡ ok out
    → (account_pinned_conversations out ≡ ok pins)
      × (14 ≢ m → record_varint_field out 4 m ≡ record_varint_field record' 4 m)
account_pinned-set record' pins m fits_pins fits fits_out h =
    let u = set_pinned-Updated record' pins fits h in
    let r = pin_replacement pins in
    let fits' : Fits (wire_of (pin_fields pins)) =
      rw (encode_pinned-pin_fields pins) at fits_pins in
    let fields : All IsField (new_fields r) =
      rw (new_fields-pin_replacement pins) (pin_fields-IsField pins fits') in
    let numbered : Numbered 14 (new_fields r) =
      rw (new_fields-pin_replacement pins) (pin_fields-Numbered pins) in
    (
      account_pinned-Updated record' 14 r u fields fits_out
          ∙ ap (collect pin_of_field)
              (only-edit 14 r numbered u.gs ∙ new_fields-pin_replacement pins)
          ∙ collect-pin_fields pins,
      λ ne.
          record_varint-Updated record' 14 r u fields fits_out m
          ∙ ap last_value (only-edit_other 14 r numbered m u.gs ne)
          ∙ sym (record_varint-before record' 14 r u fits m),
    )

pub length-replacement :
    (pins : List PinnedConversation)
    → length (wire_of (new_fields (pin_replacement pins)))
      ≡ length (encode_pinned_conversations pins)
length-replacement pins =
    ap (λ fs. length (wire_of fs)) (new_fields-pin_replacement pins)
    ∙ ap length (sym (encode_pinned-pin_fields pins))
