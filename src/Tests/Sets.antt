-- ===== src/Tests/Sets.antt =====
-- Sets of numbers, sets of ways and set indices, at small inputs.
use speculative_cache_hierar.Prelude.{
  ℕ, ◌<◌, ◌≤◌, ◌≡◌, ◌≢◌, ◌⊎◌, ◌↔◌, ◌||◌, some, [], ◌∷◌, arith, ◌==◌,
}
use speculative_cache_hierar.FastSet.{FastSet, small, insert, search, join, expand}
use speculative_cache_hierar.FastSet.Members.{IsValid, insert-IsValid, search-insert}
use speculative_cache_hierar.FastSet.Small.Sorted.{has}
use speculative_cache_hierar.FastSet.Expansion.{expand-search}
use speculative_cache_hierar.FastSet.Union.{search-join}
use speculative_cache_hierar.Cache
use speculative_cache_hierar.Cache.{new_set}
use speculative_cache_hierar.Cache.Replacement.{lru_victim, lru_update, timestamp_victim}
use speculative_cache_hierar.Cache.Replacement.Ranks.{
  IsRanked, rank, new_set-IsRanked, lru_update-order, lru_update-IsRanked,
}
use speculative_cache_hierar.Cache.Replacement.Victims.{
  AllValid, FirstInvalid, LeastRecent, FirstYounger, lru_victim_lem, timestamp_victim_lem,
}

-- Twelve members, so that the next insertion changes the representation.
abbrev twelve : FastSet
twelve = small (1 ∷ 2 ∷ 3 ∷ 4 ∷ 5 ∷ 6 ∷ 7 ∷ 8 ∷ 9 ∷ 10 ∷ 11 ∷ 12 ∷ [])

twelve-IsValid : IsValid twelve
twelve-IsValid = ground arith

insert-IsValid_example : IsValid (insert 300 twelve)
insert-IsValid_example = insert-IsValid 300 twelve (omega arith) twelve-IsValid

search-insert_example : search 300 (insert 300 twelve) ≡ (300 == 300 || search 300 twelve)
search-insert_example = search-insert 300 300 twelve (omega arith) (omega arith) twelve-IsValid

-- The union with a large set makes the small one large.
search-join_example :
    search 300 (join twelve (insert 300 twelve) 400)
    ≡ (search 300 twelve || search 300 (insert 300 twelve))
search-join_example =
    search-join 300 400 twelve (insert 300 twelve) (omega arith) (omega arith) twelve-IsValid
      (insert-IsValid 300 twelve (omega arith) twelve-IsValid)

expand-search_example : has 300 (expand (insert 300 twelve) 400) ≡ search 300 (insert 300 twelve)
expand-search_example =
    expand-search 300 400 (insert 300 twelve) (omega arith) (omega arith)
      (insert-IsValid 300 twelve (omega arith) twelve-IsValid)

four-IsRanked : IsRanked 4 (new_set 4)
four-IsRanked = new_set-IsRanked 4 (omega arith)

lru_update-IsRanked_example : IsRanked 4 (lru_update 2 (new_set 4))
lru_update-IsRanked_example = lru_update-IsRanked 4 (new_set 4) 2 four-IsRanked (omega arith)

lru_update-order_example :
    (rank (lru_update 2 (new_set 4)) 2 ≡ 0)
    × ((a b : ℕ)
        → a < 4
        → b < 4
        → a ≢ 2
        → b ≢ 2
        → (rank (lru_update 2 (new_set 4)) a < rank (lru_update 2 (new_set 4)) b)
          ↔ (rank (new_set 4) a < rank (new_set 4) b))
    × ((a : ℕ) → a < 4 → a ≢ 2 → 0 < rank (lru_update 2 (new_set 4)) a)
lru_update-order_example = lru_update-order 4 (new_set 4) 2 four-IsRanked (omega arith)

lru_victim_lem_example :
    (w : ℕ) × (lru_victim 4 (new_set 4) ≡ some w)
    × (FirstInvalid 4 (new_set 4) w ⊎ (AllValid 4 (new_set 4) × LeastRecent 4 (new_set 4) w))
lru_victim_lem_example = lru_victim_lem 4 (new_set 4) (omega arith) four-IsRanked

timestamp_victim_lem_example :
    FirstInvalid 4 (new_set 4) (timestamp_victim 4 9 (new_set 4))
    ⊎ (AllValid 4 (new_set 4) × FirstYounger 4 9 (new_set 4) (timestamp_victim 4 9 (new_set 4)))
    ⊎ (AllValid 4 (new_set 4)
        × (timestamp_victim 4 9 (new_set 4) ≡ 4)
        × ((v : ℕ) → v < 4 → (Cache.way_at (new_set 4) v).instr_id ≤ 9))
timestamp_victim_lem_example = timestamp_victim_lem 4 9 (new_set 4)
