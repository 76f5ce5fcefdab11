-- ===== src/Cache/Replacement/Victims.antt =====
-- What `lru_victim` and `timestamp_victim` choose.
use speculative_cache_hierar.Prelude.{
  ℕ, ◌-◌, ◌≤◌, ◌<◌, ◌≡◌, ◌≢◌, ◌⊎◌, refl, inl, inr, Bool, true, false, not, some, List, arith, ltb,
  ◌==◌, first-cases,
}
use speculative_cache_hierar.Block.{Block}
use speculative_cache_hierar.Cache.{way_at}
use speculative_cache_hierar.Cache.Replacement.{lru_victim, timestamp_victim}
use speculative_cache_hierar.Cache.Replacement.Ranks.{IsRanked, rank}

abbrev pub AllValid : ℕ → List Block → Type 0
AllValid n ways = (w : ℕ) → w < n → (way_at ways w).valid ≡ true

-- The first way that is not valid.
abbrev pub FirstInvalid : ℕ → List Block → ℕ → Type 0
FirstInvalid n ways w = (w < n) × ((way_at ways w).valid ≡ false) × AllValid w ways

-- The way that was used longest ago.
abbrev pub LeastRecent : ℕ → List Block → ℕ → Type 0
LeastRecent n ways w = (w < n) × ((v : ℕ) → v < n → v ≢ w → rank ways v < rank ways w)

not-false : (b : Bool) → not b ≡ false → b ≡ true
not-false b e = ground arith

not-true : (b : Bool) → not b ≡ true → b ≡ false
not-true b e = ground arith

-- On a set with at least one way whose ranks are a numbering from 0, the assertion of `lru_victim`
-- never fails: it returns the first invalid way, or, if all are valid, the way used longest ago.
pub lru_victim_lem :
    (n : ℕ) (ways : List Block)
    → 0 < n
    → IsRanked n ways
    → (w : ℕ) × (lru_victim n ways ≡ some w)
      × (FirstInvalid n ways w ⊎ (AllValid n ways × LeastRecent n ways w))
unfolding lru_victim
lru_victim_lem n ways pos_n v = elim (first-cases n (λ w. not (way_at ways w).valid)) [
  | inr (w, e, l, t, h) ↦
      (w, rw (e, lru_victim), inl (l, not-true _ t, λ j lj. not-false _ (h j lj)))
  | inl (e, full) ↦ elim (first-cases n (λ w. (way_at ways w).lru == n - 1)) [
    | inl (e', missing) ↦
        let (w, l, r) = v.onto (n - 1) (omega arith) in absurd (ground (arith, missing w l))
    | inr (w, e', l, t, h) ↦
        (w, rw (e, e', lru_victim), inr (λ j lj. not-false _ (full j lj), (l, oldest w l t)))
  ]
]
  where
    oldest :
        (w : ℕ)
        → w < n
        → (rank ways w == n - 1) ≡ true
        → (a : ℕ) → a < n
        → a ≢ w
        → rank ways a < rank ways w
    oldest w l t a la ne = ground (arith, t, v.bounded a la, v.distinct a w la l)

-- The first way that was filled by a younger instruction than `instr_id`.
abbrev pub FirstYounger : ℕ → ℕ → List Block → ℕ → Type 0
FirstYounger n instr_id ways w =
    (w < n)
    × (instr_id < (way_at ways w).instr_id)
    × ((v : ℕ) → v < w → (way_at ways v).instr_id ≤ instr_id)

-- `timestamp_victim` returns the first invalid way; if all are valid, the first that a younger
-- instruction filled; and the number of ways if no instruction in the set is younger. So a valid block
-- of the requesting instruction or an older one is never chosen.
pub timestamp_victim_lem :
    (n instr_id : ℕ) (ways : List Block)
    → let w = timestamp_victim n instr_id ways in
      FirstInvalid n ways w
      ⊎ (AllValid n ways × FirstYounger n instr_id ways w)
      ⊎ (AllValid n ways × (w ≡ n) × ((v : ℕ) → v < n → (way_at ways v).instr_id ≤ instr_id))
unfolding timestamp_victim
timestamp_victim_lem n instr_id ways = elim (first-cases n (λ w. not (way_at ways w).valid)) [
  | inr (w, e, l, t, h) ↦
      rw (e, timestamp_victim) (inl (l, not-true _ t, λ j lj. not-false _ (h j lj)))
  | inl (e, full) ↦ elim (first-cases n (λ w. ltb instr_id (way_at ways w).instr_id)) [
    | inl (e', none_younger) ↦
        rw (e, e', timestamp_victim)
          (inr (
            inr (λ j lj. not-false _ (full j lj), refl, λ j lj. ground (arith, none_younger j lj))))
    | inr (w, e', l, t, h) ↦
        rw (e, e', timestamp_victim)
          (inr (
            inl (
              λ j lj. not-false _ (full j lj),
              (l, ground (arith, t), λ j lj. ground (arith, h j lj)),
            )))
  ]
]
