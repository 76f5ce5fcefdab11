-- ===== src/Cache/Replacement.antt =====
-- replacement/base_replacement.cc and replacement/timestamp_replacement.cc: which way is replaced, and
-- how the LRU ranks move.
pub mod Ranks
pub mod Victims
use speculative_cache_hierar.Prelude.{
  ℕ, zero, suc, ◌+◌, ◌-◌, Bool, true, false, not, ◌&&◌, Option, none, some, List, [], ◌∷◌, ltb,
  ◌==◌, if◌then◌else◌, get_or, set, map, first, inc_u32,
}
use speculative_cache_hierar.AccessType
use speculative_cache_hierar.Block.{Block, empty_block}
use speculative_cache_hierar.Cache.{Cache, row, way_at}

-- The two loops of `lru_victim` over the ways of the set: an invalid way first, else the one at the
-- last rank. `none` is the assertion "no victim".
unfoldable pub lru_victim : ℕ → List Block → Option ℕ
lru_victim num_way ways = elim (first num_way (λ w. not (way_at ways w).valid)) [
  | some w ↦ some w
  | none ↦ first num_way (λ w. (way_at ways w).lru == num_way - 1)
]

-- `find_victim` is `lru_victim`; the rest of its arguments go unused.
unfoldable pub find_victim : ℕ → Cache → Option ℕ
find_victim s c = lru_victim c.num_way (row c.block s)

-- The loop body of `lru_update`. The rank of `way` stands still during the loop, since no number is
-- less than itself.
abbrev pub age : ℕ → Block → Block
age rank b = record b { lru = if ltb b.lru rank then inc_u32 b.lru else b.lru }

-- The loop goes over the ways of the set, and the last line promotes `way`.
pub lru_update : ℕ → List Block → List Block
lru_update way ways =
    let rank = (way_at ways way).lru in
    let aged = map (age rank) ways in set aged way (record (way_at aged way) { lru = 0 })

-- A hit by a writeback leaves the ranks alone.
unfoldable pub update_replacement_state : ℕ → ℕ → ℕ → Bool → Cache → Cache
update_replacement_state s way type hit c =
    if type == AccessType.writeback && hit
    then c
    else record c { block = set c.block s (lru_update way (row c.block s)) }

-- `timestamp_victim` over the ways of a speculative set: an invalid way first, else the first way
-- that a younger instruction filled; `num_way` if there is neither.
unfoldable pub timestamp_victim : ℕ → ℕ → List Block → ℕ
timestamp_victim num_way instr_id ways = elim (first num_way (λ w. not (way_at ways w).valid)) [
  | some w ↦ w
  | none ↦ elim (first num_way (λ w. ltb instr_id (way_at ways w).instr_id)) [
    | some w ↦ w
    | none ↦ num_way
  ]
]
