-- ===== src/Wire/Payload.antt =====
-- The payload of a field: what `read_payload` consumes, and that it reads the same bytes the same way
-- anywhere.
use presage.Prelude.{
  ℕ, ◌+◌, ◌^◌, ◌<◌, ◌≤◌, List, [], ◌++◌, false, ◌==◌, length, ok, ◌≡◌, sym, ap, ◌∙◌, arith,
  Bool-cases, inl, inr, take, drop, take-append-drop, length-take_le, length-append, append_assoc,
  subst, >>=-eq-ok, ==_iff,
}
use presage.Wire.{
  Range, read_varint, advance, read_payload, wire_varint, wire_i64, wire_len, wire_i32,
}
use presage.Wire.Varint.{IsVarint, read_varint_from-Consumed}

-- The length of a Rust vector fits a `usize`.
abbrev pub Fits : List ℕ → Type 0
Fits msg = length msg < 2 ^ 64

abbrev pub range : ℕ → ℕ → Range
range start end = record { start = start; end = end }

advance_ok :
    (pos by len : ℕ) → len < 2 ^ 64 → pos + by ≤ len → advance pos by len ≡ ok (pos, pos + by)
unfolding advance
advance_ok pos by len fits h = ground arith

advance_inv :
    (pos by len : ℕ) {from end : ℕ}
    → advance pos by len ≡ ok (from, end)
    → (from ≡ pos) × (end ≡ pos + by) × (pos + by ≤ len)
unfolding advance
advance_inv pos by len h = ground arith

-- What follows a position, cut into `by` bytes and the rest.
cut :
    (pre xs : List ℕ) (by : ℕ)
    → length pre + by ≤ length (pre ++ xs)
    → (body : List ℕ) × (rest : List ℕ) × (xs ≡ body ++ rest) × (length body ≡ by)
cut pre xs by h = (
  take by xs,
  drop by xs,
  sym (take-append-drop by xs),
  length-take_le by xs (omega (arith, length-append pre xs)),
)

-- Whatever surrounds them, `skip` and `body` read as a payload behind a length prefix.
pub record IsPayload (wire_type : ℕ) (skip body : List ℕ) : Type 0 where
  pub varint : wire_type ≡ wire_varint → (w : ℕ) × IsVarint 10 0 0 body w
  pub reads :
      (pre rest : List ℕ)
      → Fits (pre ++ (skip ++ (body ++ rest)))
      → read_payload (pre ++ (skip ++ (body ++ rest))) wire_type (length pre)
        ≡ ok (range (length pre + length skip) (length pre + length skip + length body))

pub IsPayload-varint :
    (body : List ℕ) (w : ℕ) → IsVarint 10 0 0 body w → IsPayload wire_varint [] body
unfolding read_payload read_varint
IsPayload-varint body w is = record {
  varint = λ e. (w, is);
  reads = λ pre rest fits. rw (is.reads pre rest) (ground arith);
}

module _ (pre skip body rest : List ℕ) where
  room : length pre + length skip + length body ≤ length (pre ++ (skip ++ (body ++ rest)))
  room = omega (
    arith,
    length-append pre (skip ++ (body ++ rest)),
    length-append skip (body ++ rest),
    length-append body rest,
  )

IsPayload-i64 : (body : List ℕ) → length body ≡ 8 → IsPayload wire_i64 [] body
unfolding read_payload
IsPayload-i64 body h = record {
  varint = λ e. absurd (omega arith);
  reads = λ pre rest fits.
      rw (advance_ok (length pre) 8 _ fits (omega (arith, room pre [] body rest))) (ground arith);
}

IsPayload-i32 : (body : List ℕ) → length body ≡ 4 → IsPayload wire_i32 [] body
unfolding read_payload
IsPayload-i32 body h = record {
  varint = λ e. absurd (omega arith);
  reads = λ pre rest fits.
      rw (advance_ok (length pre) 4 _ fits (omega (arith, room pre [] body rest))) (ground arith);
}

pub IsPayload-len :
    (skip body : List ℕ) (w : ℕ)
    → IsVarint 10 0 0 skip w
    → length body ≡ w
    → IsPayload wire_len skip body
unfolding read_payload read_varint
IsPayload-len skip body w is h = record {
  varint = λ e. absurd (omega arith);
  reads = λ pre rest fits. rw (is.reads pre (body ++ rest)) (
      rw (advance_ok (length pre + length skip) w _ fits (omega (arith, room pre skip body rest)))
        (ground arith));
}

-- What a successful read of a payload has consumed.
abbrev pub Consumed : ℕ → List ℕ → List ℕ → Range → Type 0
Consumed wire_type pre xs r =
    (skip : List ℕ) × (body : List ℕ) × (rest : List ℕ) × (xs ≡ skip ++ (body ++ rest))
    × (r ≡ range (length pre + length skip) (length pre + length skip + length body))
    × IsPayload wire_type skip body

module _ (pre xs : List ℕ) {r : Range} where
  Consumed-varint :
      read_payload (pre ++ xs) wire_varint (length pre) ≡ ok r → Consumed wire_varint pre xs r
  unfolding read_payload read_varint
  Consumed-varint h =
      let ((w, end), read, e) = >>=-eq-ok (read_varint (pre ++ xs) (length pre)) _ h in
      let (body, rest, split, ends, is) = read_varint_from-Consumed 10 0 0 pre xs read in
      ([], body, rest, split, ground arith, IsPayload-varint body w is)

  Consumed-i64 : read_payload (pre ++ xs) wire_i64 (length pre) ≡ ok r → Consumed wire_i64 pre xs r
  unfolding read_payload
  Consumed-i64 h =
      let ((from, end), read, e) = >>=-eq-ok (advance (length pre) 8 (length (pre ++ xs))) _ h in
      let (from_eq, end_eq, le) = advance_inv (length pre) 8 (length (pre ++ xs)) read in
      let (body, rest, split, len) = cut pre xs 8 le in
      ([], body, rest, split, ground arith, IsPayload-i64 body len)

  Consumed-i32 : read_payload (pre ++ xs) wire_i32 (length pre) ≡ ok r → Consumed wire_i32 pre xs r
  unfolding read_payload
  Consumed-i32 h =
      let ((from, end), read, e) = >>=-eq-ok (advance (length pre) 4 (length (pre ++ xs))) _ h in
      let (from_eq, end_eq, le) = advance_inv (length pre) 4 (length (pre ++ xs)) read in
      let (body, rest, split, len) = cut pre xs 4 le in
      ([], body, rest, split, ground arith, IsPayload-i32 body len)

  Consumed-len : read_payload (pre ++ xs) wire_len (length pre) ≡ ok r → Consumed wire_len pre xs r
  unfolding read_payload read_varint
  Consumed-len h =
      let ((w, pos), read, e) = >>=-eq-ok (read_varint (pre ++ xs) (length pre)) _ h in
      let (skip, tail, split, pos_eq, is) = read_varint_from-Consumed 10 0 0 pre xs read in
      let ((from, end), step, e') = >>=-eq-ok (advance pos w (length (pre ++ xs))) _ e in
      let (from_eq, end_eq, le) = advance_inv pos w (length (pre ++ xs)) step in
      let split' : pre ++ xs ≡ (pre ++ skip) ++ tail =
        rw split (sym (append_assoc pre skip tail)) in
      let (body, rest, split_tail, len) =
        cut (pre ++ skip) tail w (rw (← split') (omega (arith, length-append pre skip))) in
      (
        skip,
        body,
        rest,
        split ∙ ap (λ t. skip ++ t) split_tail,
        ground arith,
        IsPayload-len skip body w is len,
      )

  not-read :
      (wire_type : ℕ)
      → (wire_type == wire_varint) ≡ false
      → (wire_type == wire_i64) ≡ false
      → (wire_type == wire_len) ≡ false
      → (wire_type == wire_i32) ≡ false
      → ¬ (read_payload (pre ++ xs) wire_type (length pre) ≡ ok r)
  unfolding read_payload
  not-read wire_type p q s t h = let h' = rw (p, q, s, t) at h in cc

  pub Consumed-payload :
      (wire_type : ℕ)
      → read_payload (pre ++ xs) wire_type (length pre) ≡ ok r
      → Consumed wire_type pre xs r
  Consumed-payload wire_type h = elim (Bool-cases (wire_type == wire_varint)) [
    | inl p ↦
        let e = (==_iff wire_type 0).0 p in
        subst (λ t. Consumed t pre xs r) (sym e) (Consumed-varint (rw e at h))
    | inr p ↦ elim (Bool-cases (wire_type == wire_i64)) [
      | inl q ↦
          let e = (==_iff wire_type 1).0 q in
          subst (λ t. Consumed t pre xs r) (sym e) (Consumed-i64 (rw e at h))
      | inr q ↦ elim (Bool-cases (wire_type == wire_len)) [
        | inl s ↦
            let e = (==_iff wire_type 2).0 s in
            subst (λ t. Consumed t pre xs r) (sym e) (Consumed-len (rw e at h))
        | inr s ↦ elim (Bool-cases (wire_type == wire_i32)) [
          | inl t ↦
              let e = (==_iff wire_type 5).0 t in
              subst (λ t. Consumed t pre xs r) (sym e) (Consumed-i32 (rw e at h))
          | inr t ↦ absurd (not-read wire_type p q s t h)
        ]
      ]
    ]
  ]
