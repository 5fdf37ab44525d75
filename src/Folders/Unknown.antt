-- ===== src/Folders/Unknown.antt =====
-- presage/src/storage_record.rs, `chat_folder_unknown_fields` and `encode_chat_folder_record`: the fields of a
-- folder's record that the model does not carry. prost's encoding of the model is an argument.
use presage.Prelude.{
  ℕ, ◌+◌, leb, List, [], ◌∷◌, ◌++◌, Bool, true, false, not, ◌&&◌, if◌then◌else◌, length, retain,
  retain-append, Result, ok, ◌>>=◌, ◌≡◌, refl, sym, ap, ◌∙◌, subst, arith, Bool-cases, inl, inr,
  append_assoc, append-nil, length-append,
}
use presage.Wire.{EditError, FieldSpan, at_range, scan, encode_len_delimited}
use presage.Wire.Payload.{Fits}
use presage.Wire.Span.{Field, bytes, IsField, span_at}
use presage.Wire.Scan.{
  All, All-append, wire_of, wire_of-append, spans_at, scan_ok, scan-Fields, whole-span_at,
}
use presage.Wire.Encode.{len_field, len_field-IsField, encode_len_delimited-bytes}
use presage.Record.{storage_record_chat_folder, record_payload}
use presage.Record.Payload.{Holds, Holds-record_payload}
use presage.Folders.{ChatFolder, ChatFolderRecord, ServiceIdForms, to_record}

-- `CHAT_FOLDER_RECORD_KNOWN_FIELDS.contains(..)`, the range 1..=11
abbrev pub chat_folder_known_field : ℕ → Bool
chat_folder_known_field number = leb 1 number && leb number 11

-- The `for` over the spans.
unfoldable pub unknown_bytes : List ℕ → List FieldSpan → List ℕ
unknown_bytes inner [] = []
unknown_bytes inner (span ∷ spans) =
    let rest = unknown_bytes inner spans in
    if not (chat_folder_known_field span.number) then at_range inner span.whole ++ rest else rest

unfoldable pub chat_folder_unknown_fields : List ℕ → Result EditError (List ℕ)
unfolding unknown_bytes
chat_folder_unknown_fields record' = do
  payload ← record_payload record' storage_record_chat_folder
  let inner = at_range record' payload
  spans ← scan inner
  ok (unknown_bytes inner spans)

module _ {ServiceId : Type 0} (forms : ServiceIdForms ServiceId)
    (encode_to_vec : ChatFolderRecord → List ℕ) where
  unfoldable pub encode_chat_folder_record : ChatFolder → List ℕ → List ℕ
  encode_chat_folder_record folder unknown_fields =
      encode_len_delimited storage_record_chat_folder
        (encode_to_vec (to_record forms folder) ++ unknown_fields)

abbrev not_known : Field → Bool
not_known f = not (chat_folder_known_field f.number)

unknown_bytes-retain :
    (msg pre : List ℕ) (fs : List Field)
    → msg ≡ pre ++ wire_of fs
    → unknown_bytes msg (spans_at (length pre) fs) ≡ wire_of (retain not_known fs)
unfolding unknown_bytes
unknown_bytes-retain msg pre [] h = refl
unknown_bytes-retain msg pre (f ∷ fs) h =
    let here : at_range msg (span_at (length pre) f).whole ≡ bytes f =
      rw h (whole-span_at pre f (wire_of fs)) in
    let behind : length pre + length f.head + length f.payload ≡ length (pre ++ bytes f) =
      omega (arith, length-append pre (bytes f), length-append f.head f.payload) in
    let ih =
      unknown_bytes-retain msg (pre ++ bytes f) fs
        (h ∙ sym (append_assoc pre (bytes f) (wire_of fs))) in
    let ih' = rw (← behind) at ih in
    elim (Bool-cases (not (chat_folder_known_field f.number))) [
      | inl unknown ↦ rw (unknown, here) (ap (λ t. bytes f ++ t) ih')
      | inr known ↦ rw known ih'
    ]

-- The numbers of a message's spans.
abbrev pub AllNumbers : (ℕ → Bool) → Bool → List FieldSpan → Type 0
AllNumbers test answer = All (λ s. test s.number ≡ answer)

retain_none :
    (fs : List Field) (pos : ℕ)
    → AllNumbers chat_folder_known_field true (spans_at pos fs)
    → retain not_known fs ≡ []
retain_none [] pos h = refl
retain_none (f ∷ fs) pos h = rw h.0 (retain_none fs (pos + length f.head + length f.payload) h.1)

retain_all :
    (fs : List Field) (pos : ℕ)
    → AllNumbers chat_folder_known_field false (spans_at pos fs)
    → retain not_known fs ≡ fs
retain_all [] pos h = refl
retain_all (f ∷ fs) pos h =
    rw h.0 (ap (◌∷◌ f) (retain_all fs (pos + length f.head + length f.payload) h.1))

-- Reading the unknown fields of a record that is one chat folder with these fields.
unknown-of_folder :
    (gs : List Field)
    → All IsField gs
    → Fits (bytes (len_field 8 (wire_of gs)))
    → chat_folder_unknown_fields (bytes (len_field 8 (wire_of gs)))
      ≡ ok (wire_of (retain not_known gs))
unfolding chat_folder_unknown_fields
unknown-of_folder gs is fits =
    let g = len_field 8 (wire_of gs) in
    let inner_fits : Fits (wire_of gs) = omega (arith, length-append g.head g.payload) in
    let one : bytes g ≡ wire_of (g ∷ []) = sym (append-nil (bytes g)) in
    let holds : Holds (g ∷ []) 8 g = record {
      fields = (len_field-IsField 8 (omega arith) (omega arith) (wire_of gs) inner_fits, tt);
      single = refl;
    } in
    let (r, payload, at_r) =
      Holds-record_payload (g ∷ []) 8 g holds (omega (arith, ap length one)) in
    rw one (
      rw (payload, at_r, scan_ok gs is inner_fits)
        (ap (λ x. ok x) (unknown_bytes-retain (wire_of gs) [] gs refl)))

module _ {ServiceId : Type 0} (forms : ServiceIdForms ServiceId)
    (encode_to_vec : ChatFolderRecord → List ℕ) where
  -- When prost's encoding of a folder is a message of known fields, and the bytes kept of an earlier record are a
  -- message of unknown fields, then these bytes are read back from the record that is encoded with them,
  -- if it is shorter than 2^64 bytes.
  pub unknown_fields-encode :
      (folder : ChatFolder) (unknown : List ℕ) {known_spans unknown_spans : List FieldSpan}
      → scan (encode_to_vec (to_record forms folder)) ≡ ok known_spans
      → AllNumbers chat_folder_known_field true known_spans
      → scan unknown ≡ ok unknown_spans
      → AllNumbers chat_folder_known_field false unknown_spans
      → Fits (encode_chat_folder_record forms encode_to_vec folder unknown)
      → chat_folder_unknown_fields (encode_chat_folder_record forms encode_to_vec folder unknown)
        ≡ ok unknown
  unfolding encode_chat_folder_record
  unknown_fields-encode folder unknown scanned known scanned' unknown' fits =
      let known_bytes = encode_to_vec (to_record forms folder) in
      let (fs, whole, spans_eq, is) = scan-Fields known_bytes scanned in
      let (gs, whole', spans_eq', is') = scan-Fields unknown scanned' in
      let joined : known_bytes ++ unknown ≡ wire_of (fs ++ gs) =
        ap (λ t. t ++ unknown) whole
        ∙ ap (λ t. wire_of fs ++ t) whole'
        ∙ sym (wire_of-append fs gs) in
      let encoded : encode_len_delimited 8 (known_bytes ++ unknown)
          ≡ bytes (len_field 8 (wire_of (fs ++ gs))) =
        ap (encode_len_delimited 8) joined
        ∙ encode_len_delimited-bytes 8 (omega arith) (omega arith) (wire_of (fs ++ gs)) in
      ap chat_folder_unknown_fields encoded
      ∙ unknown-of_folder (fs ++ gs) (All-append IsField fs gs is is')
          (omega (arith, ap length encoded))
      ∙ ap (λ t. ok (wire_of t)) (retain-append not_known fs gs)
      ∙ ap (λ t. ok (wire_of (t ++ retain not_known gs)))
          (retain_none fs 0 (subst (AllNumbers chat_folder_known_field true) spans_eq known))
      ∙ ap (λ t. ok (wire_of t))
          (retain_all gs 0 (subst (AllNumbers chat_folder_known_field false) spans_eq' unknown'))
      ∙ ap (λ x. ok x) (sym whole')
