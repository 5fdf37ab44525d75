-- ===== src/Prelude/Bits.antt =====
-- `|` and `&` as arithmetic: disjoint bits add up, and a mask of low ones is a remainder.
use Prim.Native.Nat.{
  ℕ, zero, suc, ◌+◌, ◌-◌, ◌*◌, ◌/◌, ◌%◌, ◌^◌, ◌≤◌, ◌<◌, max, min, bit_and, bit_or, digits,
  bit_or-bitwise, bit_and-bitwise,
}
use mathlib.Core.Path.{◌≡◌, refl, ◌∙◌, sym}
use mathlib.Core.Bool.{Bool, true, ◌&&◌}
use Prim.Native.Nat.add
use native.Mathlib.Omega.{arith}
use native.Mathlib.Nat.{pow-suc, suc-add}
use presage.Prelude.Tests.{◌==◌, ==_iff}

-- The digits of a bitwise operation on `a` and `b`, of which `fuel` are computed.
module _ (empty : ℕ → ℕ) (op : ℕ → ℕ → ℕ) where
  abbrev joined : ℕ → ℕ → ℕ → ℕ
  joined fuel a b = digits empty op fuel a b

  -- Once the fuel covers `a`, more of it changes nothing.
  joined_enough : (fuel extra a b : ℕ) → a ≤ fuel → joined (fuel + extra) a b ≡ joined fuel a b
  joined_enough zero zero zero b h = refl
  joined_enough zero (suc extra) zero b h = rw add.zero
  joined_enough zero extra (suc a) b h = absurd (omega arith)
  joined_enough (suc fuel) extra zero b h = rw suc-add
  joined_enough (suc fuel) extra (suc a) b h =
      rw suc-add (omega (arith, joined_enough fuel extra (suc a / 2) (b / 2) (omega arith)))

  joined_covers : (fuel a b : ℕ) → a ≤ fuel → joined a a b ≡ joined fuel a b
  joined_covers fuel a b h =
      let e : a + (fuel - a) ≡ fuel = omega arith in
      rw e at (sym (joined_enough a (fuel - a) a b (omega arith)))

zero-bit_or : (b : ℕ) → bit_or 0 b ≡ b
zero-bit_or b = bit_or-bitwise 0 b

bit_or_halves : (a b : ℕ) → bit_or a b ≡ bit_or (a / 2) (b / 2) * 2 + max (a % 2) (b % 2)
bit_or_halves zero b = omega (arith, zero-bit_or b, zero-bit_or (b / 2))
bit_or_halves (suc a) b =
    let low : bit_or (suc a / 2) (b / 2) ≡ joined (λ x. x) max a (suc a / 2) (b / 2) =
      bit_or-bitwise (suc a / 2) (b / 2)
      ∙ joined_covers (λ x. x) max a (suc a / 2) (b / 2) (omega arith) in
    omega (arith, bit_or-bitwise (suc a) b, low)

zero-bit_and : (b : ℕ) → bit_and 0 b ≡ 0
zero-bit_and b = bit_and-bitwise 0 b

bit_and_halves : (a b : ℕ) → bit_and a b ≡ bit_and (a / 2) (b / 2) * 2 + min (a % 2) (b % 2)
bit_and_halves zero b = omega (arith, zero-bit_and b, zero-bit_and (b / 2))
bit_and_halves (suc a) b =
    let low : bit_and (suc a / 2) (b / 2) ≡ joined (λ x. 0) min a (suc a / 2) (b / 2) =
      bit_and-bitwise (suc a / 2) (b / 2)
      ∙ joined_covers (λ x. 0) min a (suc a / 2) (b / 2) (omega arith) in
    omega (arith, bit_and-bitwise (suc a) b, low)

bit_and-zero_below : (bound a : ℕ) → a ≤ bound → bit_and a 0 ≡ 0
bit_and-zero_below bound zero h = zero-bit_and 0
bit_and-zero_below zero (suc a) h = absurd (omega arith)
bit_and-zero_below (suc bound) (suc a) h =
    omega (arith, bit_and_halves (suc a) 0, bit_and-zero_below bound (suc a / 2) (omega arith))

-- The three bits of a wire type.
pub bit_and_wire_type : (a : ℕ) → bit_and a 7 ≡ a % 8
bit_and_wire_type a = omega (
  arith,
  bit_and_halves a 7,
  bit_and_halves (a / 2) 3,
  bit_and_halves (a / 2 / 2) 1,
  bit_and-zero_below (a / 2 / 2 / 2) (a / 2 / 2 / 2) (omega arith),
)

bit_or-zero_below : (bound a : ℕ) → a ≤ bound → bit_or a 0 ≡ a
bit_or-zero_below bound zero h = zero-bit_or 0
bit_or-zero_below zero (suc a) h = absurd (omega arith)
bit_or-zero_below (suc bound) (suc a) h =
    omega (arith, bit_or_halves (suc a) 0, bit_or-zero_below bound (suc a / 2) (omega arith))

bit_or-double : (a b : ℕ) → bit_or (a * 2) b ≡ bit_or a (b / 2) * 2 + b % 2
bit_or-double a b =
    let half : a * 2 / 2 ≡ a = omega arith in
    let halves = rw half at (bit_or_halves (a * 2) b) in omega (arith, halves)

-- A wire type under a field number.
pub bit_or_wire_type : (a b : ℕ) → b < 8 → bit_or (a * 2 ^ 3) b ≡ a * 8 + b
bit_or_wire_type a b h =
    let eight : a * 2 ^ 3 ≡ a * 2 * 2 * 2 = omega arith in
    let gone : b / 2 / 2 / 2 ≡ 0 = omega arith in
    let top = rw gone at (bit_or-double a (b / 2 / 2)) in
    rw eight (
      omega (
        arith,
        bit_or-double (a * 2 * 2) b,
        bit_or-double (a * 2) (b / 2),
        top,
        bit_or-zero_below a a (omega arith),
      ))

-- Bits below `2 ^ s` and bits from `2 ^ s` on do not meet.
pub bit_or_shifted : (s a b : ℕ) → a < 2 ^ s → bit_or a (b * 2 ^ s) ≡ a + b * 2 ^ s
bit_or_shifted zero a b h =
    let a_eq : a ≡ 0 = omega arith in
    let b_eq : b * 2 ^ 0 ≡ b = omega arith in rw (a_eq, b_eq) (omega (arith, zero-bit_or b))
bit_or_shifted (suc s) a b h =
    let double : b * 2 ^ suc s ≡ b * 2 ^ s * 2 = rw pow-suc (omega arith) in
    let half : b * 2 ^ suc s / 2 ≡ b * 2 ^ s = omega arith in
    let halves = bit_or_halves a (b * 2 ^ suc s) in
    let ih = bit_or_shifted s (a / 2) b (omega (arith, pow-suc 2 s)) in
    let ih' : bit_or (a / 2) (b * 2 ^ suc s / 2) ≡ a / 2 + b * 2 ^ s = rw half ih in
    omega (arith, halves, ih', pow-suc 2 s)

-- A test of every value below a bound, by evaluation.
below : ℕ → (ℕ → Bool) → Bool
below zero test = true
below (suc n) test = test n && below n test

below-lt : (n : ℕ) (test : ℕ → Bool) (x : ℕ) → below n test ≡ true → x < n → test x ≡ true
unfolding below
below-lt zero test x h lt = absurd (omega arith)
below-lt (suc n) test x h lt = ground (arith, below-lt n test x)

module _ (x : ℕ) (h : x < 256) where
  pub byte_low : bit_and x 0x7f ≡ x % 128
  unfolding below
  byte_low =
      (==_iff (bit_and x 0x7f) (x % 128)).0 (below-lt 256 (λ y. bit_and y 0x7f == y % 128) x refl h)

  pub byte_high : bit_and x 0x80 ≡ x / 128 * 128
  unfolding below
  byte_high =
      (==_iff (bit_and x 0x80) (x / 128 * 128)).0
        (below-lt 256 (λ y. bit_and y 0x80 == y / 128 * 128) x refl h)

  pub byte_set_high : bit_or x 0x80 ≡ x % 128 + 128
  unfolding below
  byte_set_high =
      (==_iff (bit_or x 0x80) (x % 128 + 128)).0
        (below-lt 256 (λ y. bit_or y 0x80 == y % 128 + 128) x refl h)
