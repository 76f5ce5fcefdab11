-- ===== src/Cache/Mshr.antt =====
-- `CACHE::check_mshr`, `add_mshr`, `update_fill_cycle` and `return_data` of src/cache.cc.
pub mod Fills
pub mod Entries
pub mod Frame
pub mod Distinct
use speculative_cache_hierar.Prelude.{
  ℕ, zero, suc, ◌+◌, Bool, ◌&&◌, Option, none, some, List, ltb, ◌==◌, if◌then◌else◌, set, first,
  inc_u32, add_u64, uint64_max,
}
use speculative_cache_hierar.Packet.{Packet, inflight, completed}
use speculative_cache_hierar.PacketQueue.{PacketQueue, entry_at}
use speculative_cache_hierar.Cache.{Cache}

-- ADD LATENCY: an event that is due already counts from now.
abbrev pub later_by : ℕ → ℕ → ℕ → ℕ
later_by latency now cycle = if ltb cycle now then add_u64 now latency else add_u64 cycle latency

-- The index of the entry that waits for the same block; `none` is -1.
unfoldable pub check_mshr : Packet → Cache → Option ℕ
check_mshr packet c = first c.mshr_size (λ i. (entry_at c.mshr i).address == packet.address)

-- `packet->cycle_enqueued = current_core_cycle[cpu]`, which the caller sees too.
abbrev pub stamped : (ℕ → ℕ) → Packet → Packet
stamped clock packet = record packet { cycle_enqueued = clock packet.cpu }

-- The stamped packet goes to the first free entry; with none free nothing is stored.
unfoldable pub add_mshr : (ℕ → ℕ) → Packet → ℕ → Cache → Packet × Cache
add_mshr clock packet status c =
    let p = stamped clock packet in
    (
      p,
      elim (first c.mshr_size (λ i. (entry_at c.mshr i).address == 0)) [
        | none ↦ c
        | some i ↦ record c {
          mshr = record c.mshr {
            entry = set c.mshr.entry i (record p { returned = status });
            occupancy = inc_u32 c.mshr.occupancy;
          };
        }
      ],
    )

-- The scan for the earliest entry whose data has come back, from entry `i` on, with the least cycle
-- and its index so far.
unfoldable pub earliest : PacketQueue → ℕ → ℕ → ℕ → ℕ → ℕ × ℕ
earliest q zero i min_cycle min_index = (min_cycle, min_index)
earliest q (suc rounds) i min_cycle min_index =
    let e = entry_at q i in
    let better = e.returned == completed && ltb e.event_cycle min_cycle in
    earliest q rounds (i + 1) (if better then e.event_cycle else min_cycle)
      (if better then i else min_index)

unfoldable pub update_fill_cycle : Cache → Cache
update_fill_cycle c =
    let found = earliest c.mshr c.mshr.size 0 uint64_max c.mshr.size in
    record c { mshr = record c.mshr { next_fill_cycle = found.0; next_fill_index = found.1 } }

-- The entry at which the data of `packet` has come back.
abbrev pub answered : (ℕ → ℕ) → ℕ → Packet → Packet → Packet
answered clock latency packet e = record e {
  returned = completed;
  payload = packet.payload;
  pf_metadata = packet.pf_metadata;
  event_cycle = later_by latency (clock packet.cpu) e.event_cycle;
}

-- The sanity check fails when no entry waits for the packet.
pub return_data : (ℕ → ℕ) → Packet → Cache → Option Cache
unfolding check_mshr update_fill_cycle
return_data clock packet c = elim (check_mshr packet c) [
  | none ↦ none
  | some i ↦ some (
      update_fill_cycle (record c {
        mshr = record c.mshr {
          num_returned = inc_u32 c.mshr.num_returned;
          entry = set c.mshr.entry i (answered clock c.latency packet (entry_at c.mshr i));
        };
      }))
]
