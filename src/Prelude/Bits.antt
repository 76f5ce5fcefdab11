-- ===== src/Prelude/Bits.antt =====
-- Single bits of a number, and `bit_or` read bit by bit.
use Prim.Native.Nat.{
  ℕ, zero, suc, ◌+◌, ◌*◌, ◌/◌, ◌%◌, ◌^◌, ◌≤◌, ◌<◌, ◌-◌, min, max, bit_and, bit_or, digits,
  bit_and-bitwise, bit_or-bitwise,
}
use mathlib.Core.Path.{◌≡◌, refl, sym, ap, ap₂, ◌∙◌}
use native.Mathlib.Nat.{
  mod-lt, mod-eq_of_lt, div-add-mod, add-mul-mod_self_left, pow-suc, mul_comm, div-div-eq-div-mul,
}
use native.Mathlib.Omega.{arith}
use speculative_cache_hierar.Prelude.Tests.{◌==◌, if◌then◌else◌}

-- `(w >> k) & 1`.
pub bit : ℕ → ℕ → ℕ
bit w k = w / 2 ^ k % 2

-- The recursion behind the digitwise operations gives the same on any count that is enough.
module _ (z : ℕ → ℕ) (f : ℕ → ℕ → ℕ) where
  digits-zero : (n b : ℕ) → digits z f n 0 b ≡ z b
  digits-zero zero b = refl
  digits-zero (suc n) b = refl

  digits_count :
      (x y few many : ℕ) → x ≤ few → few ≤ many → digits z f many x y ≡ digits z f few x y
  digits_count zero y few many p q = digits-zero many y ∙ sym (digits-zero few y)
  digits_count (suc x) y (suc few) (suc many) p q =
      omega (arith, digits_count (suc x / 2) (y / 2) few many (omega arith) (omega arith))
  digits_count (suc x) y zero many p q = absurd (omega arith)
  digits_count (suc x) y (suc few) zero p q = absurd (omega arith)

  -- An operation that is this recursion, halved once.
  halved :
      (op : ℕ → ℕ → ℕ)
      → ((x y : ℕ) → op x y ≡ digits z f x x y)
      → (x y : ℕ) → op (suc x) y ≡ f (suc x % 2) (y % 2) + 2 * op (suc x / 2) (y / 2)
  halved op meaning x y =
      let again = digits_count (suc x / 2) (y / 2) (suc x / 2) x (omega arith) (omega arith) in
      omega (arith, again, meaning (suc x) y, meaning (suc x / 2) (y / 2))

or_zero : (y : ℕ) → bit_or 0 y ≡ y
or_zero = bit_or-bitwise 0

and_zero : (y : ℕ) → bit_and 0 y ≡ 0
and_zero = bit_and-bitwise 0

-- The lowest digit of a disjunction, and the rest.
pub or_halves : (x y : ℕ) → bit_or x y ≡ max (x % 2) (y % 2) + 2 * bit_or (x / 2) (y / 2)
or_halves (suc x) y = halved (λ y. y) max bit_or bit_or-bitwise x y
or_halves zero y = omega (arith, or_zero (y / 2), or_zero y)

-- The same for a conjunction.
and_halves : (x y : ℕ) → bit_and x y ≡ min (x % 2) (y % 2) + 2 * bit_and (x / 2) (y / 2)
and_halves (suc x) y = halved (λ y. 0) min bit_and bit_and-bitwise x y
and_halves zero y = omega (arith, and_zero (y / 2), and_zero y)

nothing_masked : (count x : ℕ) → x ≤ count → bit_and x 0 ≡ 0
nothing_masked count zero small = and_zero 0
nothing_masked (suc count) (suc x) small =
    let rest = nothing_masked count (suc x / 2) (omega arith) in
    omega (arith, rest, and_halves (suc x) 0)
nothing_masked zero (suc x) small = absurd (omega arith)

-- The remainder by an even number, from that of the half.
mod-double : (a p : ℕ) → 0 < p → a % (2 * p) ≡ a / 2 % p * 2 + a % 2
mod-double a p h =
    let rest = a / 2 % p * 2 + a % 2 in
    let small : rest < 2 * p = omega (arith, mod-lt (a / 2) h) in
    let whole : a ≡ rest + 2 * p * (a / 2 / p) = omega (arith, div-add-mod (a / 2) p) in
    ap (λ n. n % (2 * p)) whole
    ∙ add-mul-mod_self_left rest (2 * p) (a / 2 / p)
    ∙ mod-eq_of_lt small

pub pow-pos : (k : ℕ) → 0 < 2 ^ k
pow-pos zero = omega arith
pow-pos (suc k) = omega (arith, pow-suc 2 k, pow-pos k)

-- `a & ((1 << k) - 1)` is the remainder.
pub bit_and-mask : (k a : ℕ) → bit_and a (2 ^ k - 1) ≡ a % 2 ^ k
bit_and-mask zero a = omega (arith, nothing_masked a a (omega arith))
bit_and-mask (suc k) a =
    and_halves a (2 ^ suc k - 1)
    ∙ ap₂ (λ m l. l + 2 * bit_and (a / 2) m) rest lowest
    ∙ ap (λ n. a % 2 + 2 * n) (bit_and-mask k (a / 2))
    ∙ omega arith
    ∙ sym (mod-double a (2 ^ k) (pow-pos k))
    ∙ ap (λ n. a % n) (omega (arith, pow-suc 2 k))
  where
    rest : (2 ^ suc k - 1) / 2 ≡ 2 ^ k - 1
    rest = omega (arith, pow-suc 2 k, pow-pos k)

    lowest : min (a % 2) ((2 ^ suc k - 1) % 2) ≡ a % 2
    lowest = omega (arith, pow-suc 2 k, pow-pos k)

-- The digits above the lowest are those of the half.
pub bit-suc : (w k : ℕ) → bit w (suc k) ≡ bit (w / 2) k
unfolding bit
bit-suc w k =
    ap (λ (x : ℕ). x % 2)
      (ap (λ (x : ℕ). w / x) (pow-suc 2 k ∙ mul_comm (2 ^ k) 2)
        ∙ sym (div-div-eq-div-mul w 2 (2 ^ k)))

-- A digit of a disjunction is the larger of the two digits.
pub bit-bit_or : (a b k : ℕ) → bit (bit_or a b) k ≡ max (bit a k) (bit b k)
unfolding bit
bit-bit_or a b zero = omega (arith, or_halves a b)
bit-bit_or a b (suc k) =
    bit-suc (bit_or a b) k
    ∙ ap (λ w. bit w k) half_lem
    ∙ bit-bit_or (a / 2) (b / 2) k
    ∙ sym (ap₂ max (bit-suc a k) (bit-suc b k))
  where
    half_lem : bit_or a b / 2 ≡ bit_or (a / 2) (b / 2)
    half_lem = omega (arith, or_halves a b)

pub bit-zero : (k : ℕ) → bit 0 k ≡ 0
bit-zero zero = unfold bit in refl
bit-zero (suc k) = bit-suc 0 k ∙ bit-zero k

half-pow : (j : ℕ) → 2 ^ suc j / 2 ≡ 2 ^ j
half-pow j = omega (arith, pow-suc 2 j)

-- `1ull << j` has the digit `j` and no other.
pub bit-pow : (j k : ℕ) → bit (2 ^ j) k ≡ (if k == j then 1 else 0)
bit-pow zero zero = unfold bit in refl
bit-pow (suc j) zero = unfold bit in simp pow-suc (ground arith)
bit-pow zero (suc k) = ground (arith, bit-suc 1 k, bit-zero k)
bit-pow (suc j) (suc k) =
    ground (arith, bit-suc (2 ^ suc j) k, ap (λ w. bit w k) (half-pow j), bit-pow j k)

pub bit-lt : (w k : ℕ) → bit w k < 2
unfolding bit
bit-lt w k = omega arith

-- Nothing is added.
pub nothing_added : (count x : ℕ) → x ≤ count → bit_or x 0 ≡ x
nothing_added count zero small = or_zero 0
nothing_added (suc count) (suc x) small =
    omega (arith, nothing_added count (suc x / 2) (omega arith), or_halves (suc x) 0)
nothing_added zero (suc x) small = absurd (omega arith)
