-- ===== src/FastSet/Small/Sorted.antt =====
-- inc/set.h: the sorted array of a small set, and its two searches.
use speculative_cache_hierar.Prelude.{
  ℕ, zero, suc, ◌+◌, ◌-◌, ◌/◌, ◌≤◌, ◌<◌, ◌≡◌, ◌≢◌, refl, sym, inl, inr, Bool, true, false, ◌||◌,
  List, [], ◌∷◌, arith, ltb, leb, ◌==◌, length, get_or, Bool-cases, dec_lt,
}
use speculative_cache_hierar.FastSet.Small.{
  insert_small, search_small_linear, search_between, search_small, smaller_size,
}

-- The values ascend, from `lo` on, and stay below 512.
abbrev pub Ascending : ℕ → List ℕ → Type 0
Ascending lo [] = Unit {0}
Ascending lo (v ∷ vs) = (lo ≤ v) × (v < 512) × Ascending (suc v) vs

-- Membership, without any order.
abbrev pub has : ℕ → List ℕ → Bool
has x [] = false
has x (v ∷ vs) = v == x || has x vs

pub has-insert_small : (x y : ℕ) (vs : List ℕ) → has y (insert_small x vs) ≡ (x == y || has y vs)
unfolding insert_small
has-insert_small x y [] = refl
has-insert_small x y (v ∷ vs) = ground (arith, has-insert_small x y vs)

pub insert_small-Ascending :
    (x lo : ℕ) (vs : List ℕ) → lo ≤ x → x < 512 → Ascending lo vs → Ascending lo (insert_small x vs)
unfolding insert_small
insert_small-Ascending x lo [] l h a = (l, h, tt)
insert_small-Ascending x lo (v ∷ vs) l h a = elim (Bool-cases (v == x)) [
  | inl e ↦ rw e a
  | inr ne ↦ elim (Bool-cases (ltb x v)) [
    | inl less ↦ rw (ne, less) (l, h, (ground arith, a.1, a.2))
    | inr more ↦ rw (ne, more) (a.0, a.1, insert_small-Ascending x (suc v) vs (ground arith) h a.2)
  ]
]

below-has : (x lo : ℕ) (vs : List ℕ) → Ascending lo vs → x < lo → has x vs ≡ false
below-has x lo [] a l = refl
below-has x lo (v ∷ vs) a l = ground (arith, below-has x (suc v) vs a.2 (omega (arith, a.0)), a.0)

-- The linear search stops at the first value that is too large.
pub search_small_linear-has :
    (x lo : ℕ) (vs : List ℕ) → Ascending lo vs → search_small_linear x vs ≡ has x vs
unfolding search_small_linear
search_small_linear-has x lo [] a = refl
search_small_linear-has x lo (v ∷ vs) a = elim (Bool-cases (ltb x v)) [
  | inl less ↦ rw less (sym (below-has x lo' (v ∷ vs) (omega arith, a.1, a.2) (ground arith)))
  | inr more ↦ ground (arith, search_small_linear-has x (suc v) vs a.2)
]
  where
    lo' : ℕ
    lo' = v

pub get_or-ge :
    (lo : ℕ) (vs : List ℕ) → Ascending lo vs → (i : ℕ) → i < length vs → lo ≤ get_or vs i 0
get_or-ge lo [] a i l = absurd (omega arith)
get_or-ge lo (v ∷ vs) a zero l = a.0
get_or-ge lo (v ∷ vs) a (suc i) l = omega (arith, a.0, get_or-ge (suc v) vs a.2 i (omega arith))

pub get_or-le :
    (lo : ℕ) (vs : List ℕ)
    → Ascending lo vs
    → (i j : ℕ) → i ≤ j
    → j < length vs
    → get_or vs i 0 ≤ get_or vs j 0
get_or-le lo [] a i j le l = absurd (omega arith)
get_or-le lo (v ∷ vs) a zero zero le l = omega arith
get_or-le lo (v ∷ vs) a zero (suc j) le l = omega (arith, get_or-ge (suc v) vs a.2 j (omega arith))
get_or-le lo (v ∷ vs) a (suc i) zero le l = absurd (omega arith)
get_or-le lo (v ∷ vs) a (suc i) (suc j) le l =
    get_or-le (suc v) vs a.2 i j (omega arith) (omega arith)

-- What a search of the places from `begin` up to `stop` answers.
abbrev pub Between : ℕ → List ℕ → ℕ → ℕ → Bool → Type 0
Between x vs begin stop true = (i : ℕ) × (begin ≤ i) × (i < stop) × (get_or vs i 0 ≡ x)
Between x vs begin stop false = (i : ℕ) → begin ≤ i → i < stop → get_or vs i 0 ≢ x

module _ (x : ℕ) (vs : List ℕ) (lo : ℕ) (a : Ascending lo vs) where
  widen_up :
      (b s s' : ℕ) (r : Bool)
      → s ≤ s'
      → s' ≤ length vs
      → ((i : ℕ) → s ≤ i → i < s' → get_or vs i 0 ≢ x)
      → Between x vs b s r
      → Between x vs b s' r
  widen_up b s s' true l h none (i, p, q, e) = (i, p, omega arith, e)
  widen_up b s s' false l h none f =
      λ i p q. elim (dec_lt i s) [ yes low ↦ f i p low | no high ↦ none i (omega arith) q ]

  widen_down :
      (b b' s : ℕ) (r : Bool)
      → b' ≤ b
      → ((i : ℕ) → b' ≤ i → i < b → get_or vs i 0 ≢ x)
      → Between x vs b s r
      → Between x vs b' s r
  widen_down b b' s true l none (i, p, q, e) = (i, omega arith, q, e)
  widen_down b b' s false l none f =
      λ i p q. elim (dec_lt i b) [ yes low ↦ none i p low | no high ↦ f i (omega arith) q ]

  search_between-Between :
      (fuel b s : ℕ)
      → b < s
      → s ≤ length vs
      → s ≤ b + fuel
      → Between x vs b s (search_between fuel x vs b s)
  unfolding search_between
  search_between-Between zero b s l h f = absurd (omega arith)
  search_between-Between (suc fuel) b s l h f = elim (Bool-cases (ltb x (get_or vs m 0))) [
    | inl less ↦ elim (Bool-cases (leb m b)) [
      | inl done ↦ rw (less, done, search_between) (λ i p q. too_high less i (ground arith) q)
      | inr left ↦
          rw (less, left, search_between)
            (widen_up b m s (search_between fuel x vs b m) (omega arith) h (too_high less)
              (search_between-Between fuel b m (ground arith) (omega arith) (omega arith)))
    ]
    | inr not_less ↦ elim (Bool-cases (ltb (get_or vs m 0) x)) [
      | inl more ↦ elim (Bool-cases (leb s (m + 1))) [
        | inl done ↦
            rw (not_less, more, done, search_between) (λ i p q. too_low more i p (ground arith))
        | inr right ↦
            rw (not_less, more, right, search_between)
              (widen_down (m + 1) b s (search_between fuel x vs (m + 1) s) (omega arith)
                (too_low more)
                (search_between-Between fuel (m + 1) s (ground arith) h (omega arith)))
      ]
      | inr not_more ↦
          rw (not_less, not_more, search_between) (m, omega arith, omega arith, ground arith)
    ]
  ]
    where
      m : ℕ
      m = (b + s - 1) / 2

      too_high : ltb x (get_or vs m 0) ≡ true → (i : ℕ) → m ≤ i → i < s → get_or vs i 0 ≢ x
      too_high less i p q = λ e. ground (arith, get_or-le lo vs a m i p (omega arith))

      too_low : ltb (get_or vs m 0) x ≡ true → (i : ℕ) → b ≤ i → i < m + 1 → get_or vs i 0 ≢ x
      too_low more i p q = λ e. ground (arith, get_or-le lo vs a i m (omega arith) (omega arith))

has-at : (x : ℕ) (vs : List ℕ) (i : ℕ) → i < length vs → get_or vs i 0 ≡ x → has x vs ≡ true
has-at x [] i l e = absurd (omega arith)
has-at x (v ∷ vs) zero l e = ground arith
has-at x (v ∷ vs) (suc i) l e = ground (arith, has-at x vs i (omega arith) e)

has-nowhere :
    (x : ℕ) (vs : List ℕ) → ((i : ℕ) → 0 ≤ i → i < length vs → get_or vs i 0 ≢ x) → has x vs ≡ false
has-nowhere x [] f = refl
has-nowhere x (v ∷ vs) f = ground (
  arith,
  f 0 (omega arith) (omega arith),
  has-nowhere x vs (λ i p l. f (suc i) (omega arith) (omega arith)),
)

Between-has : (x : ℕ) (vs : List ℕ) (r : Bool) → Between x vs 0 (length vs) r → r ≡ has x vs
Between-has x vs true (i, _, l, e) = sym (has-at x vs i l e)
Between-has x vs false f = sym (has-nowhere x vs f)

-- Both searches answer whether the value is among the values of a sorted array.
pub search_small-has : (x lo : ℕ) (vs : List ℕ) → Ascending lo vs → search_small x vs ≡ has x vs
unfolding search_small
search_small-has x lo [] a = refl
search_small-has x lo (v ∷ vs) a = elim (Bool-cases (ltb (length (v ∷ vs)) smaller_size)) [
  | inl few ↦ rw few (search_small_linear-has x lo (v ∷ vs) a)
  | inr many ↦ rw many (
      Between-has x (v ∷ vs) (search_between (length (v ∷ vs)) x (v ∷ vs) 0 (length (v ∷ vs))) (
        search_between-Between x (v ∷ vs) lo a (length (v ∷ vs)) 0 (length (v ∷ vs)) (omega arith)
          (omega arith) (omega arith)))
]

pub length-insert_small : (x : ℕ) (vs : List ℕ) → length (insert_small x vs) ≤ suc (length vs)
unfolding insert_small
length-insert_small x [] = omega arith
length-insert_small x (v ∷ vs) = ground (arith, length-insert_small x vs)
