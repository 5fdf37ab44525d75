-- ===== src/Wire/Edit.antt =====
-- `set_field` on a message of fields: the occurrences of one number become the replacement, in the
-- place of the first, and nothing else moves.
use presage.Prelude.{
  ℕ, ◌+◌, List, [], ◌∷◌, ◌++◌, Option, none, some, true, false, ◌==◌, not, if◌then◌else◌, length,
  retain, ok, ◌≡◌, ◌≢◌, refl, sym, ap, ◌∙◌, arith, Bool-cases, inl, inr, >>=-eq-ok, append-nil,
  append_assoc, length-append,
}
use presage.Wire.{at_range, scan, set_field_from, place, set_field}
use presage.Wire.Payload.{Fits}
use presage.Wire.Span.{Field, bytes, span_at, IsField}
use presage.Wire.Scan.{
  All, All-append, wire_of, wire_of-append, spans_at, scan_ok, scan-Fields, whole-span_at,
}

-- The fields behind an optional replacement.
abbrev pub new_fields : Option (List Field) → List Field
new_fields none = []
new_fields (some rs) = rs

abbrev pub new_bytes : Option (List Field) → Option (List ℕ)
new_bytes none = none
new_bytes (some rs) = some (wire_of rs)

-- The fields that `set_field` writes, once the replacement is placed and before that.
abbrev pub others : ℕ → List Field → List Field
others n = retain (λ f. not (f.number == n))

abbrev pub only : ℕ → List Field → List Field
only n = retain (λ f. f.number == n)

unfoldable pub edit : ℕ → Option (List Field) → List Field → List Field
edit n r [] = new_fields r
edit n r (f ∷ fs) =
    let rest = edit n r fs in if f.number == n then new_fields r ++ others n fs else f ∷ rest

edit-none : (n : ℕ) (fs : List Field) → edit n none fs ≡ others n fs
unfolding edit
edit-none n [] = refl
edit-none n (f ∷ fs) = ground (arith, edit-none n fs)

module _ (msg : List ℕ) (pre : List ℕ) (f : Field) (fs : List Field)
    (h : msg ≡ pre ++ wire_of (f ∷ fs)) where
  copied : at_range msg (span_at (length pre) f).whole ≡ bytes f
  copied = rw h (whole-span_at pre f (wire_of fs))

  behind : msg ≡ (pre ++ bytes f) ++ wire_of fs
  behind = h ∙ sym (append_assoc pre (bytes f) (wire_of fs))

  position : length (pre ++ bytes f) ≡ length pre + length f.head + length f.payload
  position = omega (arith, length-append pre (bytes f), length-append f.head f.payload)

module _ (msg : List ℕ) (n : ℕ) where
  -- With the replacement placed, or with none to place, the loop copies the other fields.
  placed_loop :
      (r : Option (List ℕ)) (pre : List ℕ) (fs : List Field) (out : List ℕ)
      → msg ≡ pre ++ wire_of fs
      → set_field_from msg n r (spans_at (length pre) fs) out true
        ≡ (out ++ wire_of (others n fs), true)
  unfolding set_field_from
  placed_loop r pre [] out h = rw append-nil
  placed_loop r pre (f ∷ fs) out h =
      let kept = placed_loop r (pre ++ bytes f) fs (out ++ bytes f) (behind msg pre f fs h) in
      let dropped = placed_loop r (pre ++ bytes f) fs out (behind msg pre f fs h) in
      ground (
        arith,
        copied msg pre f fs h,
        position msg pre f fs h,
        kept,
        dropped,
        append_assoc out (bytes f) (wire_of (others n fs)),
      )

  removed_loop :
      (pre : List ℕ) (fs : List Field) (out : List ℕ)
      → msg ≡ pre ++ wire_of fs
      → set_field_from msg n none (spans_at (length pre) fs) out false
        ≡ (out ++ wire_of (others n fs), false)
  unfolding set_field_from
  removed_loop pre [] out h = rw append-nil
  removed_loop pre (f ∷ fs) out h =
      let kept = removed_loop (pre ++ bytes f) fs (out ++ bytes f) (behind msg pre f fs h) in
      let dropped = removed_loop (pre ++ bytes f) fs out (behind msg pre f fs h) in
      ground (
        arith,
        copied msg pre f fs h,
        position msg pre f fs h,
        kept,
        dropped,
        append_assoc out (bytes f) (wire_of (others n fs)),
      )

  unplaced_loop :
      (rs : List Field) (pre : List ℕ) (fs : List Field) (out : List ℕ)
      → msg ≡ pre ++ wire_of fs
      → place
          (some (wire_of rs))
          (set_field_from msg n (some (wire_of rs)) (spans_at (length pre) fs) out false)
        ≡ out ++ wire_of (edit n (some rs) fs)
  unfolding set_field_from place edit
  unplaced_loop rs pre [] out h = refl
  unplaced_loop rs pre (f ∷ fs) out h =
      let rest = behind msg pre f fs h in
      ground (
        arith,
        copied msg pre f fs h,
        position msg pre f fs h,
        placed_loop (some (wire_of rs)) (pre ++ bytes f) fs (out ++ wire_of rs) rest,
        unplaced_loop rs (pre ++ bytes f) fs (out ++ bytes f) rest,
        wire_of-append rs (others n fs),
        append_assoc out (wire_of rs) (wire_of (others n fs)),
        append_assoc out (bytes f) (wire_of (edit n (some rs) fs)),
      )

-- On a message of well-formed fields that is shorter than 2^64 bytes, `set_field` succeeds: the
-- replacement stands where the first field of that number stood, or at the end when there is none, the
-- later fields of that number are gone, and every other field keeps its bytes and its place.
pub set_field-edit :
    (n : ℕ) (r : Option (List Field)) (fs : List Field)
    → All IsField fs
    → Fits (wire_of fs)
    → set_field (wire_of fs) n (new_bytes r) ≡ ok (wire_of (edit n r fs))
unfolding set_field place
set_field-edit n none fs is fits =
    rw (scan_ok fs is fits, removed_loop (wire_of fs) n [] fs [] refl) (rw (edit-none n fs))
set_field-edit n (some rs) fs is fits =
    rw (scan_ok fs is fits) (ap ok (unplaced_loop (wire_of fs) n rs [] fs [] refl))

only-append : (n : ℕ) (fs gs : List Field) → only n (fs ++ gs) ≡ only n fs ++ only n gs
only-append n [] gs = refl
only-append n (f ∷ fs) gs = ground (arith, only-append n fs gs)

others-append : (n : ℕ) (fs gs : List Field) → others n (fs ++ gs) ≡ others n fs ++ others n gs
others-append n [] gs = refl
others-append n (f ∷ fs) gs = ground (arith, others-append n fs gs)

others-others : (n : ℕ) (fs : List Field) → others n (others n fs) ≡ others n fs
others-others n [] = refl
others-others n (f ∷ fs) = ground (arith, others-others n fs)

only-others_self : (n : ℕ) (fs : List Field) → only n (others n fs) ≡ []
only-others_self n [] = refl
only-others_self n (f ∷ fs) = ground (arith, only-others_self n fs)

only-others : (n m : ℕ) (fs : List Field) → n ≢ m → only m (others n fs) ≡ only m fs
only-others n m [] ne = refl
only-others n m (f ∷ fs) ne = ground (arith, only-others n m fs ne)

-- A replacement for field `n` holds fields of that number only.
abbrev pub Numbered : ℕ → List Field → Type 0
Numbered n rs = All (λ f. f.number ≡ n) rs

others-Numbered : (n : ℕ) (rs : List Field) → Numbered n rs → others n rs ≡ []
others-Numbered n [] h = refl
others-Numbered n (f ∷ rs) h = ground (arith, others-Numbered n rs h.1)

only-Numbered : (n : ℕ) (rs : List Field) → Numbered n rs → only n rs ≡ rs
only-Numbered n [] h = refl
only-Numbered n (f ∷ rs) h = ground (arith, only-Numbered n rs h.1)

module _ (n : ℕ) (r : Option (List Field)) (num : Numbered n (new_fields r)) where
  -- The replaced field occurs exactly as the replacement says.
  pub only-edit : (fs : List Field) → only n (edit n r fs) ≡ new_fields r
  unfolding edit
  only-edit [] = only-Numbered n (new_fields r) num
  only-edit (f ∷ fs) = ground (
    arith,
    only-edit fs,
    only-append n (new_fields r) (others n fs),
    only-others_self n fs,
    only-Numbered n (new_fields r) num,
    append-nil (new_fields r),
  )

  -- Every other field is there as it was, in the same order.
  pub others-edit : (fs : List Field) → others n (edit n r fs) ≡ others n fs
  unfolding edit
  others-edit [] = others-Numbered n (new_fields r) num
  others-edit (f ∷ fs) = ground (
    arith,
    others-edit fs,
    others-append n (new_fields r) (others n fs),
    others-others n fs,
    others-Numbered n (new_fields r) num,
  )

  pub only-edit_other : (m : ℕ) (fs : List Field) → n ≢ m → only m (edit n r fs) ≡ only m fs
  only-edit_other m fs ne =
      sym (only-others n m (edit n r fs) ne) ∙ ap (only m) (others-edit fs) ∙ only-others n m fs ne

All-others : (P : Field → Type 0) (n : ℕ) (fs : List Field) → All P fs → All P (others n fs)
All-others P n [] h = tt
All-others P n (f ∷ fs) h = elim (Bool-cases (f.number == n)) [
  | inl here ↦ rw here (All-others P n fs h.1)
  | inr other ↦ rw other (h.0, All-others P n fs h.1)
]

pub All-edit :
    (P : Field → Type 0) (n : ℕ) (r : Option (List Field)) (fs : List Field)
    → All P (new_fields r)
    → All P fs
    → All P (edit n r fs)
unfolding edit
All-edit P n r [] hr h = hr
All-edit P n r (f ∷ fs) hr h = elim (Bool-cases (f.number == n)) [
  | inl here ↦ rw here (All-append P (new_fields r) (others n fs) hr (All-others P n fs h.1))
  | inr other ↦ rw other (h.0, All-edit P n r fs hr h.1)
]

-- What a successful `set_field` has done to the fields of its message.
pub set_field-Fields :
    (msg : List ℕ) (n : ℕ) (r : Option (List Field)) {out : List ℕ}
    → Fits msg
    → set_field msg n (new_bytes r) ≡ ok out
    → (fs : List Field) × (msg ≡ wire_of fs) × All IsField fs × (out ≡ wire_of (edit n r fs))
unfolding set_field
set_field-Fields msg n r {out} fits h =
    let (spans, scanned, e) = >>=-eq-ok (scan msg) _ h in
    let (fs, whole, spans_eq, is) = scan-Fields msg scanned in
    let direct = set_field-edit n r fs is (rw (← whole) fits) in
    let done : set_field (wire_of fs) n (new_bytes r) ≡ ok out = rw whole at h in
    (fs, whole, is, cc (direct, done))

-- Replacing a field that has just been replaced is replacing it at once.
pub edit-edit :
    (n : ℕ) (f : Field) (r : Option (List Field)) (fs : List Field)
    → f.number ≡ n
    → edit n r (edit n (some (f ∷ [])) fs) ≡ edit n r fs
unfolding edit
edit-edit n f r [] num = ground (arith, append-nil (new_fields r))
edit-edit n f r (g ∷ fs) num = ground (arith, edit-edit n f r fs num, others-others n fs)
