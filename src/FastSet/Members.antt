-- ===== src/FastSet/Members.antt =====
-- inc/set.h: what `insert` and `search` mean together.
use speculative_cache_hierar.Prelude.{
  ℕ, ◌≤◌, ◌<◌, ◌≡◌, ◌∙◌, refl, sym, ap, Bool, ◌||◌, inl, inr, List, [], ◌∷◌, arith, ◌==◌, length,
  Bool-cases,
}
use speculative_cache_hierar.FastSet.{FastSet, small, large, small_size, grow, insert, search}
use speculative_cache_hierar.FastSet.Small.{insert_small}
use speculative_cache_hierar.FastSet.Small.Sorted.{
  Ascending, has, has-insert_small, insert_small-Ascending, search_small-has, length-insert_small,
}
use speculative_cache_hierar.FastSet.Words.{getbit}
use speculative_cache_hierar.FastSet.Words.Setbit.{
  getbit-setbit, length-setbit, getbit-smalltobit, length-smalltobit,
}

-- A small set is sorted and has room; a large one has a word for each 64 numbers.
abbrev pub IsValid : FastSet → Type 0
IsValid (small vs) = Ascending 0 vs × (length vs < small_size)
IsValid (large ws) = length ws ≡ 8

-- The numbers that a set stands for.
abbrev pub member : ℕ → FastSet → Bool
member x (small vs) = has x vs
member x (large ws) = getbit x ws

-- The searches of `search` answer what the representation says.
pub search-member : (x : ℕ) (s : FastSet) → IsValid s → search x s ≡ member x s
unfolding search
search-member x (small []) v = refl
search-member x (small (a ∷ [])) v = ground arith
search-member x (small (a ∷ b ∷ vs)) v = search_small-has x 0 (a ∷ b ∷ vs) v.0
search-member x (large ws) v = refl

member-grow : (y : ℕ) (vs : List ℕ) → Ascending 0 vs → member y (grow vs) ≡ has y vs
unfolding grow
member-grow y vs a = elim (Bool-cases (length vs == small_size)) [
  | inl full ↦ rw full (getbit-smalltobit 0 y vs a)
  | inr room ↦ rw room refl
]

grow-IsValid : (vs : List ℕ) → Ascending 0 vs → length vs ≤ small_size → IsValid (grow vs)
unfolding grow
grow-IsValid vs a l = elim (Bool-cases (length vs == small_size)) [
  | inl full ↦ rw full (length-smalltobit vs)
  | inr room ↦ rw room (a, ground arith)
]

-- `insert` of a number below 512 keeps the representation valid, also when the thirteenth member
-- makes it change.
pub insert-IsValid : (x : ℕ) (s : FastSet) → x < 512 → IsValid s → IsValid (insert x s)
unfolding insert
insert-IsValid x (small []) h v = ((omega arith, h, tt), omega arith)
insert-IsValid x (small (a ∷ vs)) h v =
    grow-IsValid (insert_small x (a ∷ vs)) (insert_small-Ascending x 0 (a ∷ vs) (omega arith) h v.0)
      (omega (arith, length-insert_small x (a ∷ vs), v.1))
insert-IsValid x (large ws) h v = length-setbit x ws ∙ v

pub member-insert :
    (x y : ℕ) (s : FastSet) → x < 512 → IsValid s → member y (insert x s) ≡ (x == y || member y s)
unfolding insert
member-insert x y (small []) h v = refl
member-insert x y (small (a ∷ vs)) h v =
    member-grow y (insert_small x (a ∷ vs))
      (insert_small-Ascending x 0 (a ∷ vs) (omega arith) h v.0)
    ∙ has-insert_small x y (a ∷ vs)
member-insert x y (large ws) h v = getbit-setbit x y ws h v

-- After `insert(x)` into a valid set, for an `x` below 512, a search for a number below 512 finds `x`
-- and what it found before, and nothing else, whether the set is searched linearly, by halves or by its bits, and
-- also when the insertion changes which.
pub search-insert :
    (x y : ℕ) (s : FastSet)
    → x < 512
    → y < 512
    → IsValid s
    → search y (insert x s) ≡ (x == y || search y s)
search-insert x y s h _ v =
    search-member y (insert x s) (insert-IsValid x s h v)
    ∙ member-insert x y s h v
    ∙ ap (λ b. x == y || b) (sym (search-member y s v))
