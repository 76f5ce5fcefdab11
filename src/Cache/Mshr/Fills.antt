-- ===== src/Cache/Mshr/Fills.antt =====
-- `update_fill_cycle` of src/cache.cc: the entry that is filled next.
use speculative_cache_hierar.Prelude.{
  ℕ, zero, suc, ◌+◌, ◌≤◌, ◌<◌, ◌≡◌, ◌⊎◌, refl, subst, inl, inr, Bool, true, false, ◌&&◌, arith, ltb,
  ◌==◌, Bool-cases, uint64_max, dec_lt,
}
use speculative_cache_hierar.Packet.{completed}
use speculative_cache_hierar.PacketQueue.{PacketQueue, entry_at}
use speculative_cache_hierar.Cache.{Cache}
use speculative_cache_hierar.Cache.Mshr.{earliest, update_fill_cycle}

-- Entry `index` is the first of the entries below `n` with the least event cycle among those whose data
-- has come back, and `cycle` is that cycle. If there is none, they are the greatest number and `start`.
pub record Earliest (q : PacketQueue) (n start cycle index : ℕ) : Type 0 where
  pub least :
      (j : ℕ) → j < n → (entry_at q j).returned ≡ completed → cycle ≤ (entry_at q j).event_cycle
  pub found :
      ((cycle ≡ uint64_max) × (index ≡ start))
      ⊎ ((index < n)
          × ((entry_at q index).returned ≡ completed)
          × ((entry_at q index).event_cycle ≡ cycle)
          × (cycle < uint64_max)
          × ((j : ℕ)
              → j < index
              → (entry_at q j).returned ≡ completed
              → cycle < (entry_at q j).event_cycle))

module _ (q : PacketQueue) (start : ℕ) where
  -- The test of one round.
  better : ℕ → ℕ → Bool
  better i cycle = (entry_at q i).returned == completed && ltb (entry_at q i).event_cycle cycle

  kept :
      (i cycle index : ℕ)
      → Earliest q i start cycle index
      → better i cycle ≡ false
      → Earliest q (i + 1) start cycle index
  unfolding better
  kept i cycle index e worse = record {
    least = λ j l back. elim (dec_lt j i) [
      | yes below ↦ e.least j below back
      | no above ↦
          subst (λ j. (entry_at q j).returned ≡ completed → cycle ≤ (entry_at q j).event_cycle)
            (same j l above) not_less back
    ];
    found = elim e.found [
      | inl f ↦ inl f
      | inr (l, back, at, small, first) ↦ inr (omega arith, back, at, small, first)
    ];
  }
    where
      same : (j : ℕ) → j < i + 1 → ¬ (j < i) → i ≡ j
      same j l above = omega arith

      not_less : (entry_at q i).returned ≡ completed → cycle ≤ (entry_at q i).event_cycle
      not_less back = ground arith

  bound : (i cycle index : ℕ) → Earliest q i start cycle index → cycle ≤ uint64_max
  bound i cycle index e = elim e.found [
    | inl f ↦ omega arith
    | inr (_, _, _, small, _) ↦ omega arith
  ]

  taken :
      (i cycle index : ℕ)
      → Earliest q i start cycle index
      → better i cycle ≡ true
      → Earliest q (i + 1) start (entry_at q i).event_cycle i
  unfolding better
  taken i cycle index e good = record {
    least = λ j l back. elim (dec_lt j i) [
      | yes below ↦ omega (arith, less, e.least j below back)
      | no above ↦
          subst (λ j. (entry_at q i).event_cycle ≤ (entry_at q j).event_cycle) (same j l above)
            (omega arith)
    ];
    found = inr (
      omega arith,
      returned,
      refl,
      omega (arith, less, bound i cycle index e),
      λ j l back. omega (arith, less, e.least j l back),
    );
  }
    where
      same : (j : ℕ) → j < i + 1 → ¬ (j < i) → i ≡ j
      same j l above = omega arith

      less : (entry_at q i).event_cycle < cycle
      less = ground arith

      returned : (entry_at q i).returned ≡ completed
      returned = ground arith

  moved : {n n' m k : ℕ} → n ≡ n' → Earliest q n start m k → Earliest q n' start m k
  moved {n} {n'} {m} {k} e = subst (λ n. Earliest q n start m k) e

  earliest-Earliest :
      (rounds i cycle index : ℕ)
      → Earliest q i start cycle index
      → Earliest q
          (rounds + i)
          start
          (earliest q rounds i cycle index).0
          (earliest q rounds i cycle index).1
  unfolding earliest better
  earliest-Earliest zero i cycle index e = moved (omega arith) e
  earliest-Earliest (suc rounds) i cycle index e = elim (Bool-cases (better i cycle)) [
    | inl good ↦
        rw (good, earliest)
          (moved (omega arith) (
            earliest-Earliest rounds (i + 1) (entry_at q i).event_cycle i
              (taken i cycle index e good)))
    | inr worse ↦
        rw (worse, earliest)
          (moved (omega arith)
            (earliest-Earliest rounds (i + 1) cycle index (kept i cycle index e worse)))
  ]

-- `update_fill_cycle` records the first entry of the MSHR whose data came back earliest, and its cycle;
-- if no data has come back (before the greatest cycle), the recorded index is past the last entry. The
-- entries stay as they are.
pub update_fill_cycle-Earliest :
    (c : Cache)
    → Earliest
        (update_fill_cycle c).mshr
        c.mshr.size
        c.mshr.size
        (update_fill_cycle c).mshr.next_fill_cycle
        (update_fill_cycle c).mshr.next_fill_index
      × ((update_fill_cycle c).mshr.entry ≡ c.mshr.entry)
unfolding update_fill_cycle
update_fill_cycle-Earliest c =
    let e = moved c.mshr c.mshr.size (omega arith) (
      earliest-Earliest c.mshr c.mshr.size c.mshr.size 0 uint64_max c.mshr.size
        (record { least = λ j l back. absurd (omega arith); found = inl (refl, refl) })) in
    (record { least = e.least; found = e.found }, refl)
