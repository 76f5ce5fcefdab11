-- ===== src/Dram/Queues/Oldest.antt =====
-- The search of the loops of src/dram_controller.cc.
use speculative_cache_hierar.Prelude.{
  ℕ, zero, suc, ◌+◌, ◌≤◌, ◌<◌, ◌≡◌, refl, subst, inl, inr, Bool, true, false, ◌&&◌, Option, none,
  some, arith, ltb, Bool-cases, uint64_max, dec_lt,
}
use speculative_cache_hierar.Packet.{Packet}
use speculative_cache_hierar.PacketQueue.{PacketQueue, entry_at}
use speculative_cache_hierar.Dram.Queues.{oldest, oldest_of}

module _ (q : PacketQueue) (test : Packet → Bool) where
  -- Entry `k` is the first below `n` with the least cycle among those that pass the test.
  abbrev pub IsFirstOldest : ℕ → ℕ → Type 0
  IsFirstOldest n k =
      (k < n)
      × (test (entry_at q k) ≡ true)
      × ((entry_at q k).event_cycle < uint64_max)
      × ((j : ℕ)
          → j < n
          → test (entry_at q j) ≡ true
          → (entry_at q k).event_cycle ≤ (entry_at q j).event_cycle)
      × ((j : ℕ)
          → j < k
          → test (entry_at q j) ≡ true
          → (entry_at q k).event_cycle < (entry_at q j).event_cycle)

  -- No entry below `n` passes the test before the greatest cycle.
  abbrev pub IsIdle : ℕ → Type 0
  IsIdle n = (j : ℕ) → j < n → test (entry_at q j) ≡ true → uint64_max ≤ (entry_at q j).event_cycle

  -- What the search knows after `n` entries.
  abbrev pub IsOldest : ℕ → ℕ → Option ℕ → Type 0
  IsOldest n cycle none = (cycle ≡ uint64_max) × IsIdle n
  IsOldest n cycle (some k) = ((entry_at q k).event_cycle ≡ cycle) × IsFirstOldest n k

  passes : ℕ → ℕ → Bool
  passes i cycle = test (entry_at q i) && ltb (entry_at q i).event_cycle cycle

  -- A bound on the entries below `i` and on entry `i` is one below `i + 1`.
  extend : (P : ℕ → Type 0) (i : ℕ) → ((j : ℕ) → j < i → P j) → P i → (j : ℕ) → j < i + 1 → P j
  extend P i below at j l = elim (dec_lt j i) [
    | yes b ↦ below j b
    | no b ↦ subst P (same j i l b) at
  ]
    where
      same : (j i : ℕ) → j < i + 1 → ¬ (j < i) → i ≡ j
      same j i l b = omega arith

  module _ (i cycle : ℕ) where
    kept :
        (found : Option ℕ)
        → IsOldest i cycle found
        → passes i cycle ≡ false
        → IsOldest (i + 1) cycle found
    unfolding passes
    kept none (e, idle) worse = (e, extend _ i idle (λ t. ground arith))
    kept (some k) (e, (l, t, small, least, before)) worse =
        (e, (omega arith, t, small, extend _ i least (λ t'. ground arith), before))

    replaced :
        (found : Option ℕ)
        → IsOldest i cycle found
        → passes i cycle ≡ true
        → IsOldest (i + 1) (entry_at q i).event_cycle (some i)
    unfolding passes
    replaced none (e, idle) better = (
      refl,
      (
        omega arith,
        ground arith,
        ground arith,
        extend _ i (λ j l t. ground (arith, idle j l t)) (λ t. omega arith),
        λ j l t. ground (arith, idle j l t),
      ),
    )
    replaced (some k) (e, (l, t, small, least, before)) better = (
      refl,
      (
        omega arith,
        ground arith,
        ground arith,
        extend _ i (λ j l t. ground (arith, least j l t)) (λ t. omega arith),
        λ j l t. ground (arith, least j l t),
      ),
    )

  moved :
      (rounds i : ℕ) (r : Option ℕ × ℕ)
      → IsOldest (rounds + (i + 1)) r.1 r.0
      → IsOldest (suc rounds + i) r.1 r.0
  moved rounds i r = subst (λ n. IsOldest n r.1 r.0) (omega arith)

  oldest-IsOldest :
      (rounds i cycle : ℕ) (found : Option ℕ)
      → IsOldest i cycle found
      → IsOldest
          (rounds + i)
          (oldest q test rounds i cycle found).1
          (oldest q test rounds i cycle found).0
  unfolding oldest passes
  oldest-IsOldest zero i cycle found o = subst (λ n. IsOldest n cycle found) (omega arith) o
  oldest-IsOldest (suc rounds) i cycle found o = elim (Bool-cases (passes i cycle)) [
    | inl better ↦
        rw (better, oldest)
          (moved rounds i _ (
            oldest-IsOldest rounds (i + 1) (entry_at q i).event_cycle (some i)
              (replaced i cycle found o better)))
    | inr worse ↦
        rw (worse, oldest)
          (moved rounds i _
            (oldest-IsOldest rounds (i + 1) cycle found (kept i cycle found o worse)))
  ]

  -- The whole search, from its start.
  pub oldest_of-IsOldest : IsOldest q.size (oldest_of q test).1 (oldest_of q test).0
  oldest_of-IsOldest =
      subst (λ n. IsOldest n (oldest_of q test).1 (oldest_of q test).0) (omega arith)
        (oldest-IsOldest q.size 0 uint64_max none (refl, λ j l. absurd (omega arith)))
