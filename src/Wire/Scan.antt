-- ===== src/Wire/Scan.antt =====
-- `scan` reads exactly the messages that are fields end to end, and its spans tile the message.
use presage.Prelude.{
  ℕ, zero, suc, ◌+◌, ◌-◌, ◌≤◌, List, [], ◌∷◌, ◌++◌, Bool, true, false, if◌then◌else◌, length, ok,
  ◌≡◌, refl, sym, ap, ◌∙◌, arith, Bool-cases, inl, inr, ltb, slice, drop-append, take-append,
  length-append, append_assoc, append-nil, Result, >>=-eq-ok, lt→ltb,
}
use presage.Wire.{EditError, FieldSpan, read_span, scan_from, scan, at_range}
use presage.Wire.Payload.{Fits}
use presage.Wire.Span.{Field, bytes, span_at, IsField, read_span-Field}

abbrev pub All {ℓ κ} : {A : Type ℓ} → (A → Type κ) → List A → Type κ
All P [] = Unit
All P (x ∷ xs) = P x × All P xs

-- A message as its fields, end to end.
abbrev pub wire_of : List Field → List ℕ
wire_of [] = []
wire_of (f ∷ fs) = bytes f ++ wire_of fs

abbrev pub spans_at : ℕ → List Field → List FieldSpan
spans_at pos [] = []
spans_at pos (f ∷ fs) = span_at pos f ∷ spans_at (pos + length f.head + length f.payload) fs

pub wire_of-append : (fs gs : List Field) → wire_of (fs ++ gs) ≡ wire_of fs ++ wire_of gs
wire_of-append [] gs = refl
wire_of-append (f ∷ fs) gs =
    rw (wire_of-append fs gs) (sym (append_assoc (bytes f) (wire_of fs) (wire_of gs)))

pub All-append {ℓ κ} :
    {A : Type ℓ} (P : A → Type κ) (xs ys : List A) → All P xs → All P ys → All P (xs ++ ys)
All-append P [] ys a b = b
All-append P (x ∷ xs) ys a b = (a.0, All-append P xs ys a.1 b)

no-bytes : (xs : List ℕ) → length xs ≤ 0 → xs ≡ []
no-bytes [] h = refl
no-bytes (x ∷ xs) h = absurd (omega arith)

after :
    (pre : List ℕ) (f : Field)
    → length (pre ++ bytes f) ≡ length pre + length f.head + length f.payload
after pre f = omega (arith, length-append pre (bytes f), length-append f.head f.payload)

-- The loop goes on behind a field.
module _ (fuel : ℕ) (pre : List ℕ) (f : Field) (rest : List ℕ) (spans : List FieldSpan) where
  scan_behind :
      scan_from fuel
        (pre ++ (bytes f ++ rest))
        (length pre + length f.head + length f.payload)
        (spans ++ span_at (length pre) f ∷ [])
      ≡ scan_from fuel
          ((pre ++ bytes f) ++ rest)
          (length (pre ++ bytes f))
          (spans ++ span_at (length pre) f ∷ [])
  scan_behind = rw (after, append_assoc pre (bytes f) rest)

  scan_behind_span :
      {xs : List ℕ} {span : FieldSpan} {out : List FieldSpan}
      → xs ≡ bytes f ++ rest
      → span ≡ span_at (length pre) f
      → scan_from fuel (pre ++ xs) span.whole.end (spans ++ span ∷ []) ≡ ok out
      → scan_from fuel
          ((pre ++ bytes f) ++ rest)
          (length (pre ++ bytes f))
          (spans ++ span_at (length pre) f ∷ [])
        ≡ ok out
  scan_behind_span split span_eq h = sym scan_behind ∙ rw (split, span_eq) at h

  spans_behind :
      (fs : List Field)
      → (spans ++ span_at (length pre) f ∷ []) ++ spans_at (length (pre ++ bytes f)) fs
        ≡ spans ++ spans_at (length pre) (f ∷ fs)
  spans_behind fs = rw after (append_assoc spans (span_at (length pre) f ∷ []) _)

scan_from_ok :
    (fuel : ℕ) (pre : List ℕ) (fs : List Field) (spans : List FieldSpan)
    → All IsField fs
    → Fits (pre ++ wire_of fs)
    → length (wire_of fs) ≤ fuel
    → scan_from fuel (pre ++ wire_of fs) (length pre) spans ≡ ok (spans ++ spans_at (length pre) fs)
unfolding scan_from
scan_from_ok zero pre [] spans is fits h = rw (append-nil pre, append-nil spans) (ground arith)
scan_from_ok (suc fuel) pre [] spans is fits h =
    rw (append-nil pre, append-nil spans) (ground arith)
scan_from_ok zero pre (f ∷ fs) spans is fits h = absurd (
    omega
      (arith, is.0.nonempty, length-append (bytes f) (wire_of fs), length-append f.head f.payload))
scan_from_ok (suc fuel) pre (f ∷ fs) spans is fits h =
    let more : ltb (length pre) (length (pre ++ wire_of (f ∷ fs))) ≡ true = lt→ltb _ _ (
      omega (
        arith,
        is.0.nonempty,
        length-append pre (wire_of (f ∷ fs)),
        length-append (bytes f) (wire_of fs),
        length-append f.head f.payload,
      )) in
    let moved = append_assoc pre (bytes f) (wire_of fs) in
    let ih =
      scan_from_ok fuel (pre ++ bytes f) fs (spans ++ span_at (length pre) f ∷ []) is.1
        (rw moved fits)
        (omega (
          arith,
          is.0.nonempty,
          length-append (bytes f) (wire_of fs),
          length-append f.head f.payload,
        )) in
    rw (more, is.0.reads pre (wire_of fs) fits)
      (scan_behind fuel pre f (wire_of fs) spans
        ∙ ih
        ∙ ap ok (spans_behind fuel pre f (wire_of fs) spans fs))

-- What a successful scan has read.
abbrev Scanned : List ℕ → List ℕ → List FieldSpan → List FieldSpan → Type 0
Scanned pre xs spans out =
    (fs : List Field) × (xs ≡ wire_of fs)
    × (out ≡ spans ++ spans_at (length pre) fs)
    × All IsField fs

stop :
    {b : Bool} (spans : List FieldSpan) (r : Result EditError (List FieldSpan))
    {out : List FieldSpan}
    → b ≡ false
    → (if b then r else ok spans) ≡ ok out
    → out ≡ spans ++ []
stop spans r over h = rw append-nil (ground arith)

scan_from-Scanned :
    (fuel : ℕ) (pre xs : List ℕ) (spans : List FieldSpan) {out : List FieldSpan}
    → scan_from fuel (pre ++ xs) (length pre) spans ≡ ok out
    → Scanned pre xs spans out
unfolding scan_from
scan_from-Scanned zero pre xs spans h = elim (Bool-cases (ltb (length pre) (length (pre ++ xs)))) [
  | inl more ↦ let h' = rw more at h in absurd (cc)
  | inr over ↦ ([], no-bytes xs (ground (arith, length-append pre xs)), stop spans _ over h, tt)
]
scan_from-Scanned (suc fuel) pre xs spans {out} h =
    elim (Bool-cases (ltb (length pre) (length (pre ++ xs)))) [
      | inl more ↦
          let h' = rw more at h in
          let (span, read, e) = >>=-eq-ok (read_span (pre ++ xs) (length pre)) _ h' in
          let (f, rest, split, span_eq, is) = read_span-Field pre xs read in
          let (fs, eq, out_eq, all) =
            scan_from-Scanned fuel (pre ++ bytes f) rest (spans ++ span_at (length pre) f ∷ [])
              (scan_behind_span fuel pre f rest spans split span_eq e) in
          (
            f ∷ fs,
            split ∙ ap (λ t. bytes f ++ t) eq,
            out_eq ∙ spans_behind fuel pre f rest spans fs,
            (is, all),
          )
      | inr over ↦ ([], no-bytes xs (ground (arith, length-append pre xs)), stop spans _ over h, tt)
    ]

-- A message of fields end to end scans, into their spans in order.
pub scan_ok :
    (fs : List Field) → All IsField fs → Fits (wire_of fs) → scan (wire_of fs) ≡ ok (spans_at 0 fs)
unfolding scan
scan_ok fs is fits = scan_from_ok (length (wire_of fs)) [] fs [] is fits (omega arith)

-- A message that scans is fields end to end, and the spans are theirs.
pub scan-Fields :
    (msg : List ℕ) {spans : List FieldSpan}
    → scan msg ≡ ok spans
    → (fs : List Field) × (msg ≡ wire_of fs) × (spans ≡ spans_at 0 fs) × All IsField fs
unfolding scan
scan-Fields msg h = scan_from-Scanned (length msg) [] msg [] h

pub slice-append :
    (msg pre xs rest : List ℕ) (from to : ℕ)
    → msg ≡ pre ++ (xs ++ rest)
    → from ≡ length pre
    → to ≡ length pre + length xs
    → slice msg from to ≡ xs
slice-append msg pre xs rest from to h p q =
    let n : to - from ≡ length xs = omega arith in
    rw (n, p, h, drop-append pre (xs ++ rest)) (take-append xs rest)

module _ (pre : List ℕ) (f : Field) (rest : List ℕ) where
  pub whole-span_at : at_range (pre ++ (bytes f ++ rest)) (span_at (length pre) f).whole ≡ bytes f
  whole-span_at =
      slice-append _ pre (bytes f) rest _ _ refl refl
        (omega (arith, length-append f.head f.payload))

  pub payload-span_at :
      at_range (pre ++ (bytes f ++ rest)) (span_at (length pre) f).payload ≡ f.payload
  payload-span_at =
      slice-append (pre ++ (bytes f ++ rest)) (pre ++ f.head) f.payload rest _ _ (simp append_assoc)
        (omega (arith, length-append pre f.head)) (omega (arith, length-append pre f.head))

-- The bytes of the spans, end to end.
abbrev pub wholes : List ℕ → List FieldSpan → List ℕ
wholes msg [] = []
wholes msg (span ∷ spans) = at_range msg span.whole ++ wholes msg spans

wholes-spans_at :
    (msg pre : List ℕ) (fs : List Field)
    → msg ≡ pre ++ wire_of fs
    → wholes msg (spans_at (length pre) fs) ≡ wire_of fs
wholes-spans_at msg pre [] h = refl
wholes-spans_at msg pre (f ∷ fs) h =
    let here : at_range msg (span_at (length pre) f).whole ≡ bytes f =
      rw h (whole-span_at pre f (wire_of fs)) in
    let ih =
      wholes-spans_at msg (pre ++ bytes f) fs (h ∙ sym (append_assoc pre (bytes f) (wire_of fs))) in
    rw here (ap (λ t. bytes f ++ t) (rw after at ih))

-- When `scan` accepts a message, the bytes of the spans that it returns, in order, are the whole
-- message: no byte is skipped, and none belongs to two fields.
pub scan-tiles :
    (msg : List ℕ) {spans : List FieldSpan} → scan msg ≡ ok spans → wholes msg spans ≡ msg
scan-tiles msg h =
    let (fs, msg_eq, spans_eq, is) = scan-Fields msg h in
    rw spans_eq (wholes-spans_at msg [] fs msg_eq) ∙ sym msg_eq
