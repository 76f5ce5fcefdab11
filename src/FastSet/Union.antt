-- ===== src/FastSet/Union.antt =====
-- inc/set.h: `join` is the union of two sets.
use speculative_cache_hierar.Prelude.{
  ℕ, suc, ◌+◌, ◌/◌, ◌≤◌, ◌<◌, ◌≡◌, ◌∙◌, ap, Bool, ◌||◌, List, [], ◌∷◌, arith, length, bit_or,
}
use speculative_cache_hierar.Prelude.Bits.{or_halves, nothing_added}
use speculative_cache_hierar.FastSet.{
  FastSet, small, large, insert, search, insert_all, join_words, join,
}
use speculative_cache_hierar.FastSet.Small.Sorted.{Ascending, has}
use speculative_cache_hierar.FastSet.Words.{getbit, smalltobit}
use speculative_cache_hierar.FastSet.Words.Setbit.{
  getbit-or_words, getbit-smalltobit, length-smalltobit, length-or_words,
}
use speculative_cache_hierar.FastSet.Members.{
  IsValid, member, search-member, insert-IsValid, member-insert,
}

-- Two unions, one after the other.
or_assoc : (a b c : Bool) → (a || (b || c)) ≡ ((b || a) || c)
or_assoc a b c = ground arith

insert_all-IsValid :
    (lo : ℕ) (xs : List ℕ) (s : FastSet) → Ascending lo xs → IsValid s → IsValid (insert_all xs s)
unfolding insert_all
insert_all-IsValid lo [] s a v = v
insert_all-IsValid lo (x ∷ xs) s a v =
    insert_all-IsValid (suc x) xs (insert x s) a.2 (insert-IsValid x s a.1 v)

member-insert_all :
    (lo y : ℕ) (xs : List ℕ) (s : FastSet)
    → Ascending lo xs
    → IsValid s
    → member y (insert_all xs s) ≡ (member y s || has y xs)
unfolding insert_all
member-insert_all lo y [] s a v = ground arith
member-insert_all lo y (x ∷ xs) s a v =
    member-insert_all (suc x) y xs (insert x s) a.2 (insert-IsValid x s a.1 v)
    ∙ ground (arith, member-insert x y s a.1 v)

-- `n | 63` is at least every number below it, by whole words.
word-lt : (n y : ℕ) → y < n → y / 64 < (bit_or n 63 + 1) / 64
word-lt n y l = omega (
  arith,
  or_halves n 63,
  or_halves (n / 2) 31,
  or_halves (n / 2 / 2) 15,
  or_halves (n / 2 / 2 / 2) 7,
  or_halves (n / 2 / 2 / 2 / 2) 3,
  or_halves (n / 2 / 2 / 2 / 2 / 2) 1,
  nothing_added n (n / 2 / 2 / 2 / 2 / 2 / 2) (omega arith),
)

member-join_words :
    (y n : ℕ) (ws vs : List ℕ)
    → y < n
    → n ≤ 512
    → length ws ≡ 8
    → length vs ≡ 8
    → member y (join_words ws vs n) ≡ (getbit y ws || getbit y vs)
unfolding join_words
member-join_words y n ws vs l m lw lv =
    getbit-or_words y ((bit_or n 63 + 1) / 64) ws vs (word-lt n y l) (omega arith) (omega arith)

member-join :
    (y n : ℕ) (s t : FastSet)
    → y < n
    → n ≤ 512
    → IsValid s
    → IsValid t
    → member y (join s t n) ≡ (member y s || member y t)
unfolding join
member-join y n s (small vs) l m v u = member-insert_all 0 y vs s u.0 v
member-join y n (small vs) (large ws) l m v u =
    member-join_words y n (smalltobit vs) ws l m (length-smalltobit vs) u
    ∙ ap (λ b. b || getbit y ws) (getbit-smalltobit 0 y vs v.0)
member-join y n (large vs) (large ws) l m v u = member-join_words y n vs ws l m v u

pub join-IsValid : (n : ℕ) (s t : FastSet) → IsValid s → IsValid t → IsValid (join s t n)
unfolding join join_words
join-IsValid n s (small vs) v u = insert_all-IsValid 0 vs s u.0 v
join-IsValid n (small vs) (large ws) v u =
    length-or_words ((bit_or n 63 + 1) / 64) (smalltobit vs) ws ∙ length-smalltobit vs
join-IsValid n (large vs) (large ws) v u = length-or_words ((bit_or n 63 + 1) / 64) vs ws ∙ v

-- For valid sets and `n` below 512, after `s.join(t, n)` a search for a number below `n` finds
-- what a search of `s` or of `t` found, whichever of the two are small.
pub search-join :
    (y n : ℕ) (s t : FastSet)
    → y < n
    → n < 512
    → IsValid s
    → IsValid t
    → search y (join s t n) ≡ (search y s || search y t)
search-join y n s t l m v u =
    search-member y (join s t n) (join-IsValid n s t v u)
    ∙ member-join y n s t l (omega arith) v u
    ∙ ground (arith, search-member y s v, search-member y t u)
