-- ===== src/Dram/Queues.antt =====
-- The queues of src/dram_controller.cc: searches for the entry that is due first, `check_dram_queue`,
-- `add_rq`, `add_wq` and the statistics.
pub mod Oldest
pub mod Reads
use speculative_cache_hierar.Prelude.{
  ℕ, zero, suc, ◌+◌, ℤ, pos, negsuc, Bool, true, false, not, ◌&&◌, Option, none, some, ltb, ◌==◌,
  if◌then◌else◌, first, when, ◌>>=◌, inc_u32, inc_u64, uint64_max, set,
}
use speculative_cache_hierar.Packet.{Packet}
use speculative_cache_hierar.PacketQueue.{PacketQueue, entry_at}
use speculative_cache_hierar.Cache.{bump}
use speculative_cache_hierar.Cache.Requests.{
  taken, update_at, count_full, count_access, count_forward,
}
use speculative_cache_hierar.Cache.Lookup.{or_number}
use speculative_cache_hierar.Dram.{Dram, Uppers, dram_queue_size}

-- The loops that look for the entry with the least `event_cycle` among those that pass a test: from
-- entry `i` on, with the least cycle and its index so far.
unfoldable pub oldest : PacketQueue → (Packet → Bool) → ℕ → ℕ → ℕ → Option ℕ → Option ℕ × ℕ
oldest q test zero i cycle found = (found, cycle)
oldest q test (suc rounds) i cycle found =
    let e = entry_at q i in
    let better = test e && ltb e.event_cycle cycle in
    oldest q test rounds (i + 1) (if better then e.event_cycle else cycle)
      (if better then some i else found)

abbrev pub oldest_of : PacketQueue → (Packet → Bool) → Option ℕ × ℕ
oldest_of q test = oldest q test q.size 0 uint64_max none

abbrev pub is_unscheduled : Packet → Bool
is_unscheduled e = not (e.address == 0) && not e.scheduled

unfoldable pub update_schedule_cycle : PacketQueue → PacketQueue
unfolding oldest
update_schedule_cycle q =
    let found = oldest_of q is_unscheduled in
    record q { next_schedule_cycle = found.1; next_schedule_index = or_number found.0 q.size }

unfoldable pub update_process_cycle : PacketQueue → PacketQueue
unfolding oldest
update_process_cycle q =
    let found = oldest_of q (λ e. e.scheduled) in
    record q { next_process_cycle = found.1; next_process_index = or_number found.0 q.size }

-- `none` is -1.
unfoldable pub check_dram_queue : PacketQueue → Packet → Option ℕ
check_dram_queue q packet = first q.size (λ i. (entry_at q i).address == packet.address)

-- "search for the empty index": with none the packet is dropped.
unfoldable pub store_request : Packet → PacketQueue → PacketQueue
store_request packet q = elim (first dram_queue_size (λ i. (entry_at q i).address == 0)) [
  | none ↦ q
  | some i ↦ record (update_at i (λ _. packet) q) { occupancy = inc_u32 q.occupancy }
]

-- What `add_rq` returns and leaves: its code, the packet as the caller sees it, and the new state.
pub record Outcome (W : Type 0) : Type 0 where
  pub code : ℤ
  pub packet : Packet
  pub dram : Dram
  pub world : W

module _ {W : Type 0} (env : Uppers W) where
  abbrev pub answer : Packet → W → Option W
  answer p w =
      when p.instruction (env.return_icache p.cpu p) w
      >>= when p.is_data (env.return_dcache p.cpu p)

  -- A read that the write queue answers, from entry `i`.
  unfoldable pub forward_write : ℕ → Packet → Dram → W → Option (Outcome W)
  forward_write i packet d w =
      let p = record packet { payload = (entry_at d.wq i).payload } in
      answer p w >>= λ w'. some (record {
        code = taken;
        packet = p;
        dram = record d {
          accesses = bump 1 d.accesses;
          hits = bump 1 d.hits;
          wq = count_forward d.wq;
          rq = count_access d.rq;
        };
        world = w';
      })

  abbrev reply : ℤ → Packet → Dram → W → Outcome W
  reply code packet d w = record { code = code; packet = packet; dram = d; world = w }

  -- During the warm-up every read is answered at once.
  unfoldable pub add_rq : Packet → Dram → W → Option (Outcome W)
  unfolding forward_write check_dram_queue store_request update_schedule_cycle
  add_rq packet d w =
      let queued = update_schedule_cycle (store_request packet d.rq) in
      if env.is_warming_up w
      then (answer packet w >>= λ w'. some (reply taken packet d w'))
      else elim (check_dram_queue d.wq packet) [
        | some i ↦ forward_write i packet d w
        | none ↦ elim (check_dram_queue d.rq packet) [
          | some i ↦ some (reply (pos i) packet d w)
          | none ↦ some (reply taken packet (record d { rq = queued }) w)
        ]
      ]

  unfoldable pub add_wq : Packet → Dram → W → ℤ × Dram
  unfolding check_dram_queue store_request update_schedule_cycle
  add_wq packet d w =
      let queued = update_schedule_cycle (store_request packet d.wq) in
      if env.is_warming_up w then (taken, d) else elim (check_dram_queue d.wq packet) [
        | some i ↦ (pos i, d)
        | none ↦ (taken, record d { wq = queued })
      ]

-- Nothing is done with prefetches, commits and returns.
unfoldable pub add_pq : Packet → Dram → ℤ × Dram
add_pq packet d = (taken, d)

unfoldable pub add_cq : Packet → Dram → ℤ × Dram
add_cq packet d = (taken, d)

unfoldable pub return_data : Packet → Dram → Dram
return_data packet d = d

unfoldable pub get_occupancy : ℕ → Dram → ℕ
get_occupancy kind d = if kind == 1 then d.rq.occupancy else if kind == 2 then d.wq.occupancy else 0

unfoldable pub get_size : ℕ → Dram → ℕ
get_size kind d = if kind == 1 then d.rq.size else if kind == 2 then d.wq.size else 0

unfoldable pub increment_wq_full : Dram → Dram
increment_wq_full d = record d { wq = count_full d.wq }
