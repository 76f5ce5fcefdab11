-- ===== src/FastSet/Expansion.antt =====
-- inc/set.h: `expand` lists the members of a set.
use speculative_cache_hierar.Prelude.{
  ℕ, zero, suc, ◌+◌, ◌*◌, ◌/◌, ◌%◌, ◌^◌, ◌≤◌, ◌<◌, ◌≡◌, ◌∙◌, refl, sym, ap, inl, inr, ◌||◌, ◌&&◌,
  List, [], ◌∷◌, ◌++◌, arith, ltb, leb, ◌==◌, if◌then◌else◌, get_or, Bool-cases, ℕ_discrete, subst,
}
use speculative_cache_hierar.FastSet.{FastSet, small, large, search, expand}
use speculative_cache_hierar.FastSet.Small.Sorted.{has}
use speculative_cache_hierar.FastSet.Words.{getbit, expand_word, expand_bits}
use speculative_cache_hierar.FastSet.Words.Setbit.{getbit-zero_word}
use speculative_cache_hierar.FastSet.Members.{IsValid, search-member}

has_append : (y : ℕ) (xs ys : List ℕ) → has y (xs ++ ys) ≡ (has y xs || has y ys)
has_append y [] ys = refl
has_append y (x ∷ xs) ys = ground (arith, has_append y xs ys)

-- The counters do not wrap.
wrap : (d l n : ℕ) → l < n → n ≤ 512 → d ≤ 64 → (l + d) % 2 ^ 16 ≡ l + d
wrap d l n h m k = omega arith

-- The inner loop lists the members among the next numbers below the limit.
has-expand_word :
    (y n : ℕ) (ws : List ℕ) (rounds l : ℕ)
    → n ≤ 512
    → has y (expand_word ws n l rounds) ≡ (leb l y && ltb y (l + rounds) && ltb y n && getbit y ws)
unfolding expand_word
has-expand_word y n ws zero l m = ground arith
has-expand_word y n ws (suc rounds) l m = elim (Bool-cases (ltb l n)) [
  | inr out ↦ rw (out, expand_word) (ground arith)
  | inl inside ↦ elim (ℕ_discrete l y) [
    | yes e ↦
        subst
          (λ y.
            has y (expand_word ws n l (suc rounds))
            ≡ (leb l y && ltb y (l + suc rounds) && ltb y n && getbit y ws))
          e
          (ground (
            arith,
            ap (λ k. has l (expand_word ws n k rounds)) (wrap 1 l n (ground arith) m (omega arith))
                ∙ has-expand_word l n ws rounds (l + 1) m,
          ))
    | no ne ↦ ground (
      arith,
      ap (λ k. has y (expand_word ws n k rounds)) (wrap 1 l n (ground arith) m (omega arith))
          ∙ has-expand_word y n ws rounds (l + 1) m,
    )
  ]
]

-- A round of the outer loop, whether or not it passes its word over.
has-here :
    (y n k : ℕ) (ws : List ℕ)
    → n ≤ 512
    → has y (if get_or ws (64 * k / 64) 0 == 0 then [] else expand_word ws n (64 * k) 64)
      ≡ (leb (64 * k) y && ltb y (64 * k + 64) && ltb y n && getbit y ws)
has-here y n k ws m = elim (Bool-cases (get_or ws (64 * k / 64) 0 == 0)) [
  | inr some_bits ↦ rw some_bits (has-expand_word y n ws 64 (64 * k) m)
  | inl no_bits ↦ elim (ℕ_discrete (y / 64) (64 * k / 64)) [
    | yes e ↦
        rw no_bits
          (ground (arith, getbit-zero_word y ws (ap (λ i. get_or ws i 0) e ∙ ground arith)))
    | no ne ↦ rw no_bits (ground arith)
  ]
]

next_lem :
    (y n k fuel : ℕ) (ws : List ℕ)
    → 64 * k < n
    → n ≤ 512
    → has y (expand_bits ws n (64 * suc k) fuel) ≡ (leb (64 * suc k) y && ltb y n && getbit y ws)
    → has y (expand_bits ws n ((64 * k + 64) % 2 ^ 16) fuel)
      ≡ (leb (64 * k + 64) y && ltb y n && getbit y ws)
next_lem y n k fuel ws l m h =
    ap (λ i. has y (expand_bits ws n i fuel)) (wrap 64 (64 * k) n l m (omega arith) ∙ omega arith)
    ∙ h
    ∙ ap (λ i. leb i y && ltb y n && getbit y ws) (omega arith)

has-expand_bits :
    (y n k fuel : ℕ) (ws : List ℕ)
    → n ≤ 512
    → n ≤ 64 * k + fuel
    → has y (expand_bits ws n (64 * k) fuel) ≡ (leb (64 * k) y && ltb y n && getbit y ws)
unfolding expand_bits
has-expand_bits y n k zero ws m enough = ground arith
has-expand_bits y n k (suc fuel) ws m enough = elim (Bool-cases (ltb (64 * k) n)) [
  | inl more ↦ rw more (
      has_append y (if get_or ws (64 * k / 64) 0 == 0 then [] else expand_word ws n (64 * k) 64)
        (expand_bits ws n ((64 * k + 64) % 2 ^ 16) fuel)
      ∙ ground (
        arith,
        has-here y n k ws m,
        next_lem y n k fuel ws (ground arith) m
            (has-expand_bits y n (suc k) fuel ws m (omega arith)),
      ))
  | inr done ↦ rw done (ground arith)
]

-- For a valid set and a limit of at most 512, what `expand` lists below the limit is what a search
-- finds below it.
pub expand-search :
    (y n : ℕ) (s : FastSet) → y < n → n ≤ 512 → IsValid s → has y (expand s n) ≡ search y s
unfolding expand
expand-search y n (small vs) l m v = sym (search-member y (small vs) v)
expand-search y n (large ws) l m v =
    has-expand_bits y n 0 n ws m (omega arith) ∙ ground arith ∙ sym (search-member y (large ws) v)
