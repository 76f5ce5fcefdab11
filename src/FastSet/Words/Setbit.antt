-- ===== src/FastSet/Words/Setbit.antt =====
-- inc/set.h: the bits of a large set.
use speculative_cache_hierar.Prelude.{
  zero, suc, ℕ, suc, ◌/◌, ◌%◌, ◌^◌, ◌<◌, ◌≡◌, ◌∙◌, refl, ap, subst, false, ◌||◌, List, [], ◌∷◌,
  arith, ◌==◌, length, length-set, get_or, get_or-set_self, get_or-set_ne, get_or-replicate, bit_or,
  ℕ_discrete,
}
use speculative_cache_hierar.Prelude.Bits.{bit, bit-bit_or, bit-pow, bit-zero, bit-lt}
use speculative_cache_hierar.FastSet.Words.{setbit, getbit, set_bits, smalltobit, no_bits, or_words}
use speculative_cache_hierar.FastSet.Small.Sorted.{has, Ascending}

bit_lem : (w x y : ℕ) → bit (bit_or w (2 ^ x)) y == 1 ≡ (x == y || bit w y == 1)
bit_lem w x y = ground (arith, bit-bit_or w (2 ^ x) y, bit-pow x y, bit-lt w y)

pub length-setbit : (x : ℕ) (ws : List ℕ) → length (setbit x ws) ≡ length ws
unfolding setbit
length-setbit x ws = length-set ws (x / 64) (bit_or (get_or ws (x / 64) 0) (2 ^ (x % 64)))

-- A bit that has been set is set, and the others stay.
pub getbit-setbit :
    (x y : ℕ) (ws : List ℕ)
    → x < 512
    → length ws ≡ 8
    → getbit y (setbit x ws) ≡ (x == y || getbit y ws)
unfolding getbit setbit
getbit-setbit x y ws h l = elim (ℕ_discrete (x / 64) (y / 64)) [
  | yes same ↦
      ap (λ w. bit w (y % 64) == 1)
        (subst (λ i. get_or (setbit x ws) i 0 ≡ word) same
          (get_or-set_self ws (x / 64) word 0 (omega arith)))
      ∙ ground
          (arith, bit_lem (get_or ws (x / 64) 0) (x % 64) (y % 64), ap (λ i. get_or ws i 0) same)
  | no apart ↦
      ap (λ w. bit w (y % 64) == 1) (get_or-set_ne ws (x / 64) (y / 64) word 0 apart) ∙ ground arith
]
  where
    word : ℕ
    word = bit_or (get_or ws (x / 64) 0) (2 ^ (x % 64))

getbit-set_bits :
    (lo y : ℕ) (xs ws : List ℕ)
    → Ascending lo xs
    → length ws ≡ 8
    → getbit y (set_bits xs ws) ≡ (has y xs || getbit y ws)
unfolding set_bits
getbit-set_bits lo y [] ws a l = refl
getbit-set_bits lo y (x ∷ xs) ws a l =
    getbit-set_bits (suc x) y xs (setbit x ws) a.2 (length-setbit x ws ∙ l)
    ∙ ground (arith, getbit-setbit x y ws a.1 l)

length-set_bits : (xs ws : List ℕ) → length (set_bits xs ws) ≡ length ws
unfolding set_bits
length-set_bits [] ws = refl
length-set_bits (x ∷ xs) ws = length-set_bits xs (setbit x ws) ∙ length-setbit x ws

pub length-smalltobit : (xs : List ℕ) → length (smalltobit xs) ≡ 8
unfolding smalltobit
length-smalltobit xs = length-set_bits xs no_bits

getbit-no_bits : (y : ℕ) → getbit y no_bits ≡ false
unfolding getbit
getbit-no_bits y = ground (arith, get_or-replicate {A = ℕ} 8 (y / 64) 0, bit-zero (y % 64))

-- The bits of a converted set are its values.
pub getbit-smalltobit :
    (lo y : ℕ) (xs : List ℕ) → Ascending lo xs → getbit y (smalltobit xs) ≡ has y xs
unfolding smalltobit
getbit-smalltobit lo y xs a =
    getbit-set_bits lo y xs no_bits a refl ∙ ground (arith, getbit-no_bits y)

pub length-or_words : (lim : ℕ) (ws vs : List ℕ) → length (or_words lim ws vs) ≡ length ws
unfolding or_words
length-or_words zero ws vs = refl
length-or_words (suc lim) [] vs = refl
length-or_words (suc lim) (w ∷ ws) [] = refl
length-or_words (suc lim) (w ∷ ws) (v ∷ vs) = ap suc (length-or_words lim ws vs)

-- A word within the limit is the disjunction of the two.
get_or-or_words :
    (lim i : ℕ) (ws vs : List ℕ)
    → i < lim
    → i < length ws
    → i < length vs
    → get_or (or_words lim ws vs) i 0 ≡ bit_or (get_or ws i 0) (get_or vs i 0)
unfolding or_words
get_or-or_words zero i ws vs l a b = absurd (omega arith)
get_or-or_words (suc lim) i [] vs l a b = absurd (omega arith)
get_or-or_words (suc lim) i (w ∷ ws) [] l a b = absurd (omega arith)
get_or-or_words (suc lim) zero (w ∷ ws) (v ∷ vs) l a b = refl
get_or-or_words (suc lim) (suc i) (w ∷ ws) (v ∷ vs) l a b =
    get_or-or_words lim i ws vs (omega arith) (omega arith) (omega arith)

either_lem : (w v k : ℕ) → bit (bit_or w v) k == 1 ≡ (bit w k == 1 || bit v k == 1)
either_lem w v k = ground (arith, bit-bit_or w v k, bit-lt w k, bit-lt v k)

pub getbit-or_words :
    (y lim : ℕ) (ws vs : List ℕ)
    → y / 64 < lim
    → y / 64 < length ws
    → y / 64 < length vs
    → getbit y (or_words lim ws vs) ≡ (getbit y ws || getbit y vs)
unfolding getbit
getbit-or_words y lim ws vs l a b =
    ap (λ w. bit w (y % 64) == 1) (get_or-or_words lim (y / 64) ws vs l a b)
    ∙ either_lem (get_or ws (y / 64) 0) (get_or vs (y / 64) 0) (y % 64)

-- A word that is 0 has no members.
pub getbit-zero_word : (y : ℕ) (ws : List ℕ) → get_or ws (y / 64) 0 ≡ 0 → getbit y ws ≡ false
unfolding getbit
getbit-zero_word y ws e = ap (λ w. bit w (y % 64) == 1) e ∙ ground (arith, bit-zero (y % 64))
