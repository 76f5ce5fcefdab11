-- ===== src/Dram/Process/Modes.antt =====
-- `MEMORY_CONTROLLER::operate` of src/dram_controller.cc: when the bus turns from reads to writes and
-- back.
use speculative_cache_hierar.Prelude.{
  ℕ, zero, suc, ◌+◌, ◌<◌, ◌≡◌, ◌⊎◌, ◌∙◌, refl, Bool, true, false, some, arith,
}
use speculative_cache_hierar.Dram.{Dram, Timing}
use speculative_cache_hierar.Dram.Queues.{update_schedule_cycle, update_process_cycle}
use speculative_cache_hierar.Dram.Schedule.{
  Side, reads, writes, reset_entry, reset_rounds, reset_remain_requests,
}
use speculative_cache_hierar.Dram.Process.{turn, switch_mode, write_high_wm}

-- What a reset leaves alone.
abbrev pub demand : Dram → Bool × ℕ × ℕ
demand d = (d.write_mode, d.rq.occupancy, d.wq.occupancy)

module _ (clock : ℕ → ℕ) (timing : Timing) where
  reset_entry-demand :
      (side : Side) (i : ℕ) (d : Dram) → demand (reset_entry clock timing side i d) ≡ demand d
  unfolding reset_entry
  reset_entry-demand reads i d = ground arith
  reset_entry-demand writes i d = ground arith

  reset_rounds-demand :
      (rounds i : ℕ) (side : Side) (d : Dram)
      → demand (reset_rounds clock timing rounds i side d) ≡ demand d
  unfolding reset_rounds
  reset_rounds-demand zero i side d = refl
  reset_rounds-demand (suc rounds) i side d =
      reset_rounds-demand rounds (i + 1) side (reset_entry clock timing side i d)
      ∙ reset_entry-demand side i d

  turn-demand :
      (mode : Bool) (side : Side) (d d' : Dram)
      → turn clock timing mode side d ≡ some d'
      → demand d' ≡ (mode, d.rq.occupancy, d.wq.occupancy)
  unfolding turn reset_remain_requests update_schedule_cycle update_process_cycle
  turn-demand mode reads d d' e =
      ground (arith, reset_rounds-demand d.rq.size 0 reads (record d { write_mode = mode }))
  turn-demand mode writes d d' e =
      ground (arith, reset_rounds-demand d.wq.size 0 writes (record d { write_mode = mode }))

-- Which queue is served, and why: there is a write to serve, or there are not many and a read, or
-- nothing at all.
abbrev pub Serves : Dram → Type 0
Serves d =
    ((d.write_mode ≡ true) × (0 < d.wq.occupancy))
    ⊎ ((d.write_mode ≡ false)
        × (d.wq.occupancy < write_high_wm)
        × ((0 < d.rq.occupancy) ⊎ (d.wq.occupancy ≡ 0)))

module _ (clock : ℕ → ℕ) (timing : Timing) (d d' : Dram) where
  -- When `operate` has chosen the mode, the queue that is served has a request if either has: writes
  -- are served only if there are some, and reads only if fewer than 56 writes wait, and if there are
  -- reads or no writes. The choice neither adds nor removes requests.
  pub switch_mode-Serves :
      switch_mode clock timing d ≡ some d'
      → Serves d' × (d'.rq.occupancy ≡ d.rq.occupancy) × (d'.wq.occupancy ≡ d.wq.occupancy)
  unfolding switch_mode
  switch_mode-Serves e =
      ground (
        arith,
        turn-demand clock timing true reads d d',
        turn-demand clock timing false writes d d',
      )
