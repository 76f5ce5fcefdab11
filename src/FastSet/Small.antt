-- ===== src/FastSet/Small.antt =====
-- inc/set.h: the sorted array of a small set.
pub mod Sorted
use speculative_cache_hierar.Prelude.{
  ℕ, zero, suc, ◌+◌, ◌-◌, ◌/◌, Bool, true, false, List, [], ◌∷◌, ltb, leb, ◌==◌, if◌then◌else◌,
  length, get_or,
}

-- The first loop finds where `x` belongs, and returns if it is there; the second moves the larger
-- values up by one place. Over the list of the values both are one walk.
pub insert_small : ℕ → List ℕ → List ℕ
insert_small x [] = x ∷ []
insert_small x (y ∷ ys) =
    if y == x then y ∷ ys else if ltb x y then x ∷ y ∷ ys else y ∷ insert_small x ys

pub search_small_linear : ℕ → List ℕ → Bool
search_small_linear x [] = false
search_small_linear x (y ∷ ys) =
    if ltb x y then false else if y == x then true else search_small_linear x ys

-- The binary search. `stop` is the source's `end + 1`, since `end` can become -1; `middle` is
-- computed at the head of each round, from the values that the source computes it from at the end
-- of the one before. Each round narrows `stop - begin`, so the number of values is enough fuel.
pub search_between : ℕ → ℕ → List ℕ → ℕ → ℕ → Bool
search_between zero x vs begin stop = false
search_between (suc fuel) x vs begin stop =
    let middle = (begin + stop - 1) / 2 in
    let y = get_or vs middle 0 in
    let lower = if leb middle begin then false else search_between fuel x vs begin middle in
    let upper =
      if leb stop (middle + 1) then false else search_between fuel x vs (middle + 1) stop in
    if ltb x y then lower else if ltb y x then upper else true

abbrev pub smaller_size : ℕ
smaller_size = 6

pub search_small : ℕ → List ℕ → Bool
search_small x [] = false
search_small x (v ∷ vs) =
    if ltb (length (v ∷ vs)) smaller_size
    then search_small_linear x (v ∷ vs)
    else search_between (length (v ∷ vs)) x (v ∷ vs) 0 (length (v ∷ vs))
