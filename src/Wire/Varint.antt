-- ===== src/Wire/Varint.antt =====
-- `read_varint`: what it consumes, and that it reads the same bytes the same way anywhere.
use presage.Prelude.{
  ℕ, zero, suc, ◌+◌, ◌*◌, ◌%◌, ◌^◌, ◌<◌, bit_and, bit_or, List, [], ◌∷◌, ◌++◌, true, false, ◌==◌,
  if◌then◌else◌, length, ok, err, ◌≡◌, refl, sym, ap, ◌∙◌, arith, Bool-cases, inl, inr,
  get_elem?-append, get_elem?-append_nil, snoc-append, length-snoc, subst, Result,
}
use presage.Wire.{malformed, EditError, read_varint_from}

abbrev pub add_group : ℕ → ℕ → ℕ → ℕ
add_group value shift byte = bit_or value (bit_and byte 0x7f * 2 ^ shift % 2 ^ 64)

-- Whatever surrounds it, `body` reads as `w` from the state of the loop.
pub record IsVarint (rounds shift value : ℕ) (body : List ℕ) (w : ℕ) : Type 0 where
  pub nonempty : 0 < length body
  pub reads :
      (pre rest : List ℕ)
      → read_varint_from rounds shift value (pre ++ (body ++ rest)) (length pre)
        ≡ ok (w, length pre + length body)

module _ (rounds shift value : ℕ) (pre : List ℕ) where
  read_varint-nil :
      read_varint_from (suc rounds) shift value (pre ++ []) (length pre) ≡ err malformed
  unfolding read_varint_from
  read_varint-nil = rw (get_elem?-append_nil pre)

  pub read_varint-cons :
      (byte : ℕ) (rest : List ℕ)
      → read_varint_from (suc rounds) shift value (pre ++ byte ∷ rest) (length pre) ≡ (
          if bit_and byte 0x80 == 0
          then ok (add_group value shift byte, length pre + 1)
          else read_varint_from rounds
              (shift + 7)
              (add_group value shift byte)
              ((pre ++ byte ∷ []) ++ rest)
              (length (pre ++ byte ∷ [])))
  unfolding read_varint_from
  read_varint-cons byte rest = rw (get_elem?-append pre byte rest, snoc-append, length-snoc)

pub IsVarint-last :
    (rounds shift value byte : ℕ)
    → (bit_and byte 0x80 == 0) ≡ true
    → IsVarint (suc rounds) shift value (byte ∷ []) (add_group value shift byte)
IsVarint-last rounds shift value byte last = record {
  nonempty = omega arith;
  reads = λ pre rest. rw (read_varint-cons rounds shift value pre byte rest, last);
}

pub IsVarint-more :
    (rounds shift value byte : ℕ) (body : List ℕ) (w : ℕ)
    → (bit_and byte 0x80 == 0) ≡ false
    → IsVarint rounds (shift + 7) (add_group value shift byte) body w
    → IsVarint (suc rounds) shift value (byte ∷ body) w
IsVarint-more rounds shift value byte body w more h = record {
  nonempty = omega arith;
  reads = λ pre rest.
      rw (read_varint-cons rounds shift value pre byte (body ++ rest), more)
        (h.reads (pre ++ byte ∷ []) rest
          ∙ ap (λ (n : ℕ). ok (w, n)) (omega (arith, length-snoc pre byte)));
}

-- What a successful read has consumed.
abbrev pub Consumed : ℕ → ℕ → ℕ → List ℕ → List ℕ → ℕ → ℕ → Type 0
Consumed rounds shift value pre xs w end =
    (body : List ℕ) × (rest : List ℕ) × (xs ≡ body ++ rest)
    × (end ≡ length pre + length body)
    × IsVarint rounds shift value body w

pub read_varint_from-Consumed :
    (rounds shift value : ℕ) (pre xs : List ℕ) {w end : ℕ}
    → read_varint_from rounds shift value (pre ++ xs) (length pre) ≡ ok (w, end)
    → Consumed rounds shift value pre xs w end
read_varint_from-Consumed zero shift value pre xs h = unfold read_varint_from in absurd (cc)
read_varint_from-Consumed (suc rounds) shift value pre [] h =
    let e = read_varint-nil rounds shift value pre in absurd (cc)
read_varint_from-Consumed (suc rounds) shift value pre (byte ∷ xs) {w} {end} h =
    elim (Bool-cases (bit_and byte 0x80 == 0)) [
      | inl last ↦
          let e : ◌≡◌ {A = Result EditError (ℕ × ℕ)}
              (ok (add_group value shift byte, length pre + 1)) (ok (w, end)) =
            rw (read_varint-cons rounds shift value pre byte xs, last) at h in
          (
            byte ∷ [],
            xs,
            refl,
            sym (ground arith),
            subst (IsVarint (suc rounds) shift value (byte ∷ [])) (ground arith)
                (IsVarint-last rounds shift value byte last),
          )
      | inr more ↦
          let h' = rw (read_varint-cons rounds shift value pre byte xs, more) at h in
          let (body, rest, split, ends, is) =
            read_varint_from-Consumed rounds (shift + 7) (add_group value shift byte)
              (pre ++ byte ∷ []) xs h' in
          (
            byte ∷ body,
            rest,
            ap (◌∷◌ byte) split,
            omega (arith, length-snoc pre byte),
            IsVarint-more rounds shift value byte body w more is,
          )
    ]
