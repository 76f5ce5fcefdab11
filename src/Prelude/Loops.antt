-- ===== src/Prelude/Loops.antt =====
-- Searching loops: `for (i = 0; i < n; i++) if (p(i)) return i;` and what they find.
use Prim.Native.Nat.{ℕ, zero, suc, ◌<◌}
use mathlib.Core.Path.{◌≡◌, refl, sym, ap, subst, ◌∙◌}
use mathlib.Core.Logic.{◌⊎◌, inl, inr}
use mathlib.Core.Bool.{Bool, true, false}
use mathlib.Core.Option.{Option, none, some}
use mathlib.Core.Option
use native.Mathlib.Omega.{arith}
use speculative_cache_hierar.Prelude.Tests.{if◌then◌else◌, Bool-cases}

true≢false' : true ≡ false → ⊥
true≢false' e = cc

lt_trichotomy : (a b : ℕ) → ((a < b) ⊎ (b < a)) ⊎ (a ≡ b)
lt_trichotomy a b = omega arith

-- The least `k` below `n` with `p k`.
unfoldable pub first : ℕ → (ℕ → Bool) → Option ℕ
first zero p = none
first (suc n) p = if p 0 then some 0 else Option.map suc (first n (λ k. p (suc k)))

-- What a search for the least number returns, for both results.
abbrev pub FirstOf : ℕ → (ℕ → Bool) → Option ℕ → Type 0
FirstOf n p none = (k : ℕ) → k < n → p k ≡ false
FirstOf n p (some k) = (k < n) × (p k ≡ true) × ((j : ℕ) → j < k → p j ≡ false)

-- The loop finds the least number that passes, and nothing only if none does.
pub first-FirstOf : (n : ℕ) (p : ℕ → Bool) → FirstOf n p (first n p)
unfolding first
first-FirstOf zero p = λ k h. absurd (omega arith)
first-FirstOf (suc n) p = elim (Bool-cases (p 0)) [
  | inl e ↦ rw e (omega arith, e, λ j h. absurd (omega arith))
  | inr e ↦ rw e (step (first n (λ k. p (suc k))) (first-FirstOf n (λ k. p (suc k))) e)
]
  where
    step :
        (o : Option ℕ)
        → FirstOf n (λ k. p (suc k)) o
        → p 0 ≡ false
        → FirstOf (suc n) p (Option.map suc o)
    step none h e = elim [ zero ↦ λ _. e | suc k ↦ λ l. h k (omega arith) ]
    step (some k) h e =
        (omega arith, h.1, elim [ zero ↦ λ _. e | suc j ↦ λ l. h.2 j (omega arith) ])

-- What a search returns is decided by the tests.
pub FirstOf-unique :
    (n : ℕ) (p : ℕ → Bool) (o o' : Option ℕ) → FirstOf n p o → FirstOf n p o' → o ≡ o'
FirstOf-unique n p none none a b = refl
FirstOf-unique n p none (some k) a b = absurd (true≢false' (sym b.1 ∙ a k b.0))
FirstOf-unique n p (some k) none a b = absurd (true≢false' (sym a.1 ∙ b k a.0))
FirstOf-unique n p (some k) (some j) a b = elim (lt_trichotomy k j) [
  | inl (inl l) ↦ absurd (true≢false' (sym a.1 ∙ b.2 k l))
  | inl (inr l) ↦ absurd (true≢false' (sym b.1 ∙ a.2 j l))
  | inr e ↦ ap some e
]

-- Both results of a search, with its equation.
pub first-cases :
    (n : ℕ) (p : ℕ → Bool)
    → ((first n p ≡ none) × ((k : ℕ) → k < n → p k ≡ false))
      ⊎ ((k : ℕ) × (first n p ≡ some k) × (k < n) × (p k ≡ true) × ((j : ℕ) → j < k → p j ≡ false))
first-cases n p = split (first n p) refl
  where
    split :
        (o : Option ℕ)
        → first n p ≡ o
        → ((first n p ≡ none) × ((k : ℕ) → k < n → p k ≡ false))
          ⊎ ((k : ℕ) × (first n p ≡ some k)
              × (k < n)
              × (p k ≡ true)
              × ((j : ℕ) → j < k → p j ≡ false))
    split none e = inl (e, subst (FirstOf n p) e (first-FirstOf n p))
    split (some k) e =
        let f : FirstOf n p (some k) = subst (FirstOf n p) e (first-FirstOf n p) in
        inr (k, e, f.0, f.1, f.2)

-- A search whose test passes at one place alone finds it.
pub first-at :
    (n : ℕ) (p : ℕ → Bool) (k : ℕ)
    → k < n
    → p k ≡ true
    → ((j : ℕ) → j < k → p j ≡ false)
    → first n p ≡ some k
first-at n p k l t h = FirstOf-unique n p (first n p) (some k) (first-FirstOf n p) (l, t, h)

pub first-none : (n : ℕ) (p : ℕ → Bool) → ((k : ℕ) → k < n → p k ≡ false) → first n p ≡ none
first-none n p h = FirstOf-unique n p (first n p) none (first-FirstOf n p) h
