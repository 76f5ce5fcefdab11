-- ===== src/Pipeline/Older.antt =====
-- The loops of the core down from an instruction to the oldest one, as places in the ring.
use speculative_cache_hierar.Prelude.{
  ℕ, zero, suc, ◌+◌, ◌-◌, ◌≤◌, ◌<◌, ◌≡◌, ◌∙◌, refl, sym, ap, ap₂, ◌⊎◌, inl, inr, Bool, true, false,
  Option, none, some, List, [], ◌∷◌, ◌++◌, arith, Bool-cases, dec_lt, ◌==◌, leb, if◌then◌else◌,
}
use speculative_cache_hierar.PacketQueue.Ring.{slot}
use speculative_cache_hierar.Pipeline.{downwards, older}

module _ (head size : ℕ) where
  -- The places `n - 1`, `n - 2`, … of the ring, `count` of them.
  abbrev pub places_down : ℕ → ℕ → List ℕ
  places_down n zero = []
  places_down n (suc count) = slot head size (n - 1) ∷ places_down (n - 1) count

  places_down-append :
      (n a b : ℕ) → places_down n (a + b) ≡ places_down n a ++ places_down (n - a) b
  places_down-append n zero b = ap₂ places_down (omega arith) (omega arith)
  places_down-append n (suc a) b =
      ap (places_down n) {y = suc (a + b)} (omega arith)
      ∙ ap (◌∷◌ (slot head size (n - 1))) (
          places_down-append (n - 1) a b
          ∙ ap (λ m. places_down (n - 1) a ++ places_down m b) (omega arith))

  -- A loop that stays on one side of the end.
  downwards-places :
      (from n count : ℕ)
      → count ≤ n
      → ((k : ℕ) → k < count → from - k ≡ slot head size (n - 1 - k))
      → downwards from count ≡ places_down n count
  unfolding downwards
  downwards-places from n zero l h = refl
  downwards-places from n (suc count) l h =
      ap₂ ◌∷◌ (sym (omega arith) ∙ h 0 (omega arith) ∙ ap (slot head size) (omega arith)) (
        downwards-places (from - 1) (n - 1) count (omega arith)
          λ k m. omega arith ∙ h (suc k) (omega arith) ∙ ap (slot head size) (omega arith))

  -- The loops from the place before.
  from_prior : ℕ → List ℕ
  from_prior prior =
      if leb head prior
      then downwards prior (prior + 1 - head)
      else downwards prior (prior + 1) ++ downwards (size - 1) (size - head)

  older-from_prior :
      (n : ℕ)
      → head < size
      → suc n < size
      → older head (slot head size (suc n)) size ≡ from_prior (slot head size n)
  unfolding older from_prior
  older-from_prior n h l = rw (other, prior) refl
    where
      other : (slot head size (suc n) == head) ≡ false
      other = ground arith

      prior :
          (if slot head size (suc n) == 0 then size - 1 else slot head size (suc n) - 1)
          ≡ slot head size n
      prior = ground arith

  pub older-places :
      (n : ℕ) → head < size → n < size → older head (slot head size n) size ≡ places_down n n
  unfolding older from_prior
  older-places zero h l = ground arith
  older-places (suc n) h l = elim (dec_lt (head + n) size) [
    | yes straight ↦
        one straight
        ∙ downwards-places (head + n) (suc n) (suc n) (omega arith) (λ k m. ground arith)
    | no wraps ↦
        two wraps
        ∙ ap₂ ◌++◌
            (downwards-places (head + n - size) (suc n) (head + n + 1 - size) (omega arith)
              (λ k m. ground arith))
            (downwards-places (size - 1) (suc n - (head + n + 1 - size)) (size - head) (omega arith)
              (λ k m. ground arith))
        ∙ sym (places_down-append (suc n) (head + n + 1 - size) (size - head))
        ∙ ap (places_down (suc n)) {y = suc n} (omega arith)
  ]
    where
      one :
          head + n < size → older head (slot head size (suc n)) size ≡ downwards (head + n) (suc n)
      one s = older-from_prior n h l ∙ ground arith

      two :
          ¬ (head + n < size)
          → older head (slot head size (suc n)) size
            ≡ downwards (head + n - size) (head + n + 1 - size)
              ++ downwards (size - 1) (size - head)
      two s = older-from_prior n h l ∙ ground arith

  -- All places before the `n`-th, the youngest first.
  abbrev pub youngest_first : ℕ → List ℕ
  youngest_first zero = []
  youngest_first (suc n) = slot head size n ∷ youngest_first n

  places_down-youngest_first : (n : ℕ) → places_down n n ≡ youngest_first n
  places_down-youngest_first zero = refl
  places_down-youngest_first (suc n) =
      let less : suc n - 1 ≡ n = omega arith in
      ap₂ ◌∷◌ (ap (slot head size) less)
        (ap (λ m. places_down m n) less ∙ places_down-youngest_first n)

  pub older-youngest_first :
      (n : ℕ) → head < size → n < size → older head (slot head size n) size ≡ youngest_first n
  older-youngest_first n h l = older-places n h l ∙ places_down-youngest_first n

-- The greatest number below `n` with `p`.
abbrev pub last : ℕ → (ℕ → Bool) → Option ℕ
last zero p = none
last (suc n) p = if p n then some n else last n p

-- What `last` returns, for both results.
abbrev pub LastOf : ℕ → (ℕ → Bool) → Option ℕ → Type 0
LastOf n p none = (k : ℕ) → k < n → p k ≡ false
LastOf n p (some k) = (k < n) × (p k ≡ true) × ((m : ℕ) → k < m → m < n → p m ≡ false)

pub last-LastOf : (n : ℕ) (p : ℕ → Bool) → LastOf n p (last n p)
last-LastOf zero p = λ k l. absurd (omega arith)
last-LastOf (suc n) p = elim (Bool-cases (p n)) [
  | inl e ↦ rw e (omega arith, e, λ m a b. absurd (omega arith))
  | inr e ↦ rw e (last-extends (last n p) (last-LastOf n p) e)
]
  where
    at_most : (m : ℕ) → m < suc n → (m < n) ⊎ (m ≡ n)
    at_most m l = omega arith

    last-extends : (o : Option ℕ) → LastOf n p o → p n ≡ false → LastOf (suc n) p o
    last-extends none h e = λ k l. elim (at_most k l) [ inl b ↦ h k b | inr q ↦ ap p q ∙ e ]
    last-extends (some k) h e =
        (omega arith, h.1, λ m a l. elim (at_most m l) [ inl b ↦ h.2 m a b | inr q ↦ ap p q ∙ e ])

pub last-none : (n : ℕ) (p : ℕ → Bool) → ((k : ℕ) → p k ≡ false) → last n p ≡ none
last-none zero p h = refl
last-none (suc n) p h = rw (h n) (last-none n p h)

pub last_ext : (n : ℕ) (p q : ℕ → Bool) → ((k : ℕ) → p k ≡ q k) → last n p ≡ last n q
last_ext zero p q h = refl
last_ext (suc n) p q h = rw (h n, last_ext n p q h) refl
