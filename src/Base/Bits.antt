-- ===== src/Base/Bits.antt =====
-- The bits of a number, and what Go's `|`, `&` and `&^` on unsigned integers do to each of them.
use Prim.Native.Nat.{
  ℕ, zero, suc, ◌*◌, ◌/◌, ◌%◌, ◌^◌, ◌≤◌, ◌<◌, min, max, bit_and, bit_or, bit_xor, digits, differ,
  bit_and-bitwise, bit_or-bitwise, bit_xor-bitwise,
}
use mathlib.Core.Path.{◌≡◌, refl, sym, ◌∙◌, ap}
use mathlib.Core.Bool.{Bool, true, ◌&&◌}
use native.Mathlib.Omega.{arith}
use native.Mathlib.Nat.{pow-suc}
use app_listener.Base.Tests.{if◌then◌else◌, eqb}

-- Bit `i` of `m`, as 0 or 1.
pub bit_at : ℕ → ℕ → ℕ
bit_at m zero = m % 2
bit_at m (suc i) = bit_at (m / 2) i

pub bit_at-le : (m i : ℕ) → bit_at m i ≤ 1
unfolding bit_at
bit_at-le m zero = omega arith
bit_at-le m (suc i) = bit_at-le (m / 2) i

pub bit_at-zero : (i : ℕ) → bit_at 0 i ≡ 0
unfolding bit_at
bit_at-zero zero = refl
bit_at-zero (suc i) = bit_at-zero i

-- An operation by digits acts on every bit.
module _ (z : ℕ → ℕ) (f : ℕ → ℕ → ℕ) (bounded : (a b : ℕ) → a ≤ 1 → b ≤ 1 → f a b ≤ 1)
    (rest : (b i : ℕ) → bit_at (z b) i ≡ f 0 (bit_at b i)) where
  bit_at-digits : (n a b i : ℕ) → a ≤ n → bit_at (digits z f n a b) i ≡ f (bit_at a i) (bit_at b i)
  unfolding bit_at
  bit_at-digits zero zero b i h = rest b i ∙ ap (λ d. f d (bit_at b i)) (sym (bit_at-zero i))
  bit_at-digits zero (suc a) b i h = absurd (omega arith)
  bit_at-digits (suc n) zero b i h = rest b i ∙ ap (λ d. f d (bit_at b i)) (sym (bit_at-zero i))
  bit_at-digits (suc n) (suc a) b zero h =
      omega (arith, bounded (suc a % 2) (b % 2) (omega arith) (omega arith))
  bit_at-digits (suc n) (suc a) b (suc i) h =
      ap (λ m. bit_at m i) (omega (arith, bounded (suc a % 2) (b % 2) (omega arith) (omega arith)))
      ∙ bit_at-digits n (suc a / 2) (b / 2) i (omega arith)

pub bit_at-bit_or : (a b i : ℕ) → bit_at (bit_or a b) i ≡ max (bit_at a i) (bit_at b i)
bit_at-bit_or a b i =
    ap (λ m. bit_at m i) (bit_or-bitwise a b)
    ∙ bit_at-digits (λ b. b) max (λ a b p q. omega arith) (λ b i. omega arith) a a b i (omega arith)

pub bit_at-bit_and : (a b i : ℕ) → bit_at (bit_and a b) i ≡ min (bit_at a i) (bit_at b i)
bit_at-bit_and a b i =
    ap (λ m. bit_at m i) (bit_and-bitwise a b)
    ∙ bit_at-digits (λ b. zero) min (λ a b p q. omega arith) (λ b i. omega (arith, bit_at-zero i)) a
        a b i (omega arith)

differ-le : (a b : ℕ) → a ≤ 1 → b ≤ 1 → differ a b ≤ 1
differ-le zero b p q = q
differ-le (suc zero) zero p q = omega arith
differ-le (suc zero) (suc zero) p q = omega arith
differ-le (suc zero) (suc (suc b)) p q = absurd (omega arith)
differ-le (suc (suc a)) b p q = absurd (omega arith)

bit_at-bit_xor : (a b i : ℕ) → bit_at (bit_xor a b) i ≡ differ (bit_at a i) (bit_at b i)
bit_at-bit_xor a b i =
    ap (λ m. bit_at m i) (bit_xor-bitwise a b)
    ∙ bit_at-digits (λ b. b) differ differ-le (λ b i. refl) a a b i (omega arith)

half_pow : (t : ℕ) → 2 ^ suc t ≡ 2 ^ t * 2
half_pow t = omega (arith, pow-suc 2 t)

-- A single bit, `1 << t`.
pub bit_at-pow : (t i : ℕ) → bit_at (2 ^ t) i ≡ (if eqb t i then 1 else 0)
unfolding bit_at
bit_at-pow zero zero = refl
bit_at-pow zero (suc i) = ground (arith, bit_at-zero i)
bit_at-pow (suc t) zero = ground (arith, half_pow t)
bit_at-pow (suc t) (suc i) =
    ap (λ m. bit_at m i) (omega (arith, half_pow t)) ∙ bit_at-pow t i ∙ ground arith

-- All 32 bits.
abbrev pub all_ones : ℕ
all_ones = 4294967295

abbrev ones_below : ℕ → Bool
ones_below zero = true
ones_below (suc i) = eqb (bit_at all_ones i) 1 && ones_below i

ones_sound : (n i : ℕ) → ones_below n ≡ true → i < n → bit_at all_ones i ≡ 1
ones_sound zero i h lt = absurd (omega arith)
ones_sound (suc n) i h lt = ground (arith, ones_sound n i)

ones_table : ones_below 32 ≡ true
unfolding bit_at
ones_table = refl

pub all_ones-bit : (i : ℕ) → i < 32 → bit_at all_ones i ≡ 1
all_ones-bit i h = ones_sound 32 i ones_table h

-- Go's `a &^ b` on 32 bits.
unfoldable pub and_not : ℕ → ℕ → ℕ
and_not a b = bit_and a (bit_xor b all_ones)

-- It keeps the bits of the first number that the second one lacks.
pub bit_at-and_not :
    (a b i : ℕ) → i < 32 → bit_at (and_not a b) i ≡ (if eqb (bit_at b i) 1 then 0 else bit_at a i)
unfolding and_not
bit_at-and_not a b i h =
    bit_at-bit_and a (bit_xor b all_ones) i
    ∙ ap (min (bit_at a i))
        (bit_at-bit_xor b all_ones i ∙ ap (differ (bit_at b i)) (ones_sound 32 i ones_table h))
    ∙ keep (bit_at a i) (bit_at b i) (bit_at-le a i) (bit_at-le b i)
  where
    keep : (x y : ℕ) → x ≤ 1 → y ≤ 1 → min x (differ y 1) ≡ (if eqb y 1 then 0 else x)
    keep x zero p q = ground arith
    keep x (suc zero) p q = ground arith
    keep x (suc (suc y)) p q = absurd (omega arith)
