-- ===== src/FastSet.antt =====
-- inc/set.h: `fastset`, a set of numbers below 512. Up to twelve members are kept sorted in an
-- array; from the thirteenth on the same memory holds a bit for each number.
pub mod Small
pub mod Words
pub mod Members
pub mod Union
pub mod Expansion
use speculative_cache_hierar.Prelude.{
  ℕ, zero, suc, ◌+◌, ◌-◌, ◌/◌, Bool, true, false, Option, none, some, List, [], ◌∷◌, ◌++◌, map, ltb,
  leb, ◌==◌, if◌then◌else◌, length, get_or, bit_or, take,
}
use Small.{insert_small, search_small}
use Words.{setbit, getbit, smalltobit, or_words, expand_bits}

-- The union and `card` at once. `small vs` stands for `card = length vs` and the values `vs`;
-- `large ws` for the words `ws`. From 13 on the source only asks `card < SMALL_SIZE`, and no longer
-- counts.
pub data FastSet : Type 0 where
  small : List ℕ → FastSet
  large : List ℕ → FastSet

abbrev pub small_size : ℕ
small_size = 13

-- The constructor sets `card` to 0.
abbrev pub empty : FastSet
empty = small []

grow : List ℕ → FastSet
grow vs = if length vs == small_size then large (smalltobit vs) else small vs

unfoldable pub insert : ℕ → FastSet → FastSet
unfolding grow
insert x (small []) = small (x ∷ [])
insert x (small (v ∷ vs)) = grow (insert_small x (v ∷ vs))
insert x (large ws) = large (setbit x ws)

unfoldable pub search : ℕ → FastSet → Bool
search x (small []) = false
search x (small (v ∷ [])) = v == x
search x (small (v ∷ w ∷ vs)) = search_small x (v ∷ w ∷ vs)
search x (large ws) = getbit x ws

insert_all : List ℕ → FastSet → FastSet
insert_all [] s = s
insert_all (x ∷ xs) s = insert_all xs (insert x s)

-- `lim` is `((n | 63) + 1) / 64`.
join_words : List ℕ → List ℕ → ℕ → FastSet
join_words ws other n = large (or_words ((bit_or n 63 + 1) / 64) ws other)

-- `s.join(other, n)`, for an `n` below `MAX_SIZE`: from 512 on the source goes on behind the words.
pub join : FastSet → FastSet → ℕ → FastSet
unfolding insert_all join_words
join s (small vs) n = insert_all vs s
join (small vs) (large ws) n = join_words (smalltobit vs) ws n
join (large vs) (large ws) n = join_words vs ws n

-- The members that `expand` writes to `v`; what it returns is their number.
pub expand : FastSet → ℕ → List ℕ
expand (small vs) n = vs
expand (large ws) n = expand_bits ws n 0 n
