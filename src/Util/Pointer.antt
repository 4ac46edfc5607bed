-- ===== src/Util/Pointer.antt =====
-- The two high bits that mark an offset as a pointer: `offset |= 3 << 14` adds them.
use rsdhcp.Prelude.{ap, arith, refl, suc, sym, zero, ℕ, ◌%◌, ◌*◌, ◌+◌, ◌/◌, ◌<◌, ◌^◌, ◌∙◌, ◌≡◌, ◌≤◌}
use Prim.Native.Nat.{bit_or, bit_or-bitwise, digits, max}
use native.Mathlib.Nat.{mul_assoc, pow-suc}

module _ (z : ℕ → ℕ) (f : ℕ → ℕ → ℕ) where
  -- More digits than the number has change nothing.
  enough_digits : (k l a b : ℕ) → a ≤ k → a ≤ l → digits z f k a b ≡ digits z f l a b
  enough_digits zero zero a b h h' = refl
  enough_digits zero (suc l) zero b h h' = refl
  enough_digits zero (suc l) (suc a) b h h' = absurd (omega arith)
  enough_digits (suc k) zero zero b h h' = refl
  enough_digits (suc k) zero (suc a) b h h' = absurd (omega arith)
  enough_digits (suc k) (suc l) zero b h h' = refl
  enough_digits (suc k) (suc l) (suc a) b h h' =
      rw (enough_digits k l (suc a / 2) (b / 2) (omega arith) (omega arith))

bit_or-zero : (b : ℕ) → bit_or 0 b ≡ b
bit_or-zero b = simp bit_or-bitwise (omega arith)

-- The lowest digit of a number apart.
bit_or-halves : (a b : ℕ) → bit_or a b ≡ bit_or (a / 2) (b / 2) * 2 + max (a % 2) (b % 2)
bit_or-halves zero b = simp bit_or-bitwise (omega arith)
bit_or-halves (suc a) b = simp bit_or-bitwise (
    omega (
      arith,
      enough_digits (λ y. y) max a (suc a / 2) (suc a / 2) (b / 2) (omega arith) (omega arith),
    ))

bit_or-double : (a c : ℕ) → bit_or a (c * 2) ≡ bit_or (a / 2) c * 2 + a % 2
bit_or-double a c =
    let half : c * 2 / 2 ≡ c = omega arith in
    let even : c * 2 % 2 ≡ 0 = omega arith in
    bit_or-halves a (c * 2) ∙ (rw (half, even) (omega arith))

-- With no digit in common, the operation is the sum.
bit_or-add : (k a b : ℕ) → a < 2 ^ k → bit_or a (b * 2 ^ k) ≡ a + b * 2 ^ k
bit_or-add zero a b h =
    let none_set : a ≡ 0 = omega arith in rw none_set (bit_or-zero (b * 2 ^ 0) ∙ (omega arith))
bit_or-add (suc k) a b h =
    let twice : b * 2 ^ suc k ≡ b * 2 ^ k * 2 =
      ap (λ x. b * x) (pow-suc 2 k) ∙ sym (mul_assoc b (2 ^ k) 2) in
    let small : a / 2 < 2 ^ k = omega (arith, pow-suc 2 k) in
    rw (twice, bit_or-double a (b * 2 ^ k), bit_or-add k (a / 2) b small) (omega arith)

pub bit_or-pointer : (offset : ℕ) → offset < 2 ^ 14 → bit_or offset 0xc000 ≡ offset + 0xc000
bit_or-pointer offset h = bit_or-add 14 offset 3 h
