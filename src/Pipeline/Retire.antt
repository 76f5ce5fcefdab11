-- ===== src/Pipeline/Retire.antt =====
-- `retire_rob` of src/ooo_cpu.cc.
pub mod Head
pub mod InOrder
use speculative_cache_hierar.Prelude.{
  ℕ, zero, suc, ◌+◌, ◌/◌, ◌^◌, pos, Bool, true, false, not, ◌&&◌, ◌||◌, Option, none, some, List,
  [], ◌∷◌, leb, ◌==◌, if◌then◌else◌, get_or, set, when, ◌>>=◌, ◌>>◌, inc_u64, dec_u64, dec_u32,
  uint32_max,
}
use speculative_cache_hierar.AccessType
use speculative_cache_hierar.Packet.{Packet, completed}
use speculative_cache_hierar.Cache.{Cache, bump}
use speculative_cache_hierar.Cache.Commit.{commit_width}
use speculative_cache_hierar.Cache.Requests.{count_full}
use speculative_cache_hierar.Cache.Writes.{add_wq}
use speculative_cache_hierar.SpecUpdate.{log2_block_size, update_spec_blocks}
use speculative_cache_hierar.Pipeline.{O3Cpu, Setting, now}
use speculative_cache_hierar.Instr.{Instr, empty_instr, arch_instr, instr_at}
use speculative_cache_hierar.ReadyList.{LsqEntry, LoadStoreQueue, empty_lsq_entry, lsq_at, next_eq}
use speculative_cache_hierar.Pipeline.Store.{data_packet}

-- The destinations in memory, from `i` on.
unfoldable pub count_stores : ℕ → ℕ → Instr → ℕ
count_stores i zero e = 0
count_stores i (suc left) e =
    let rest = count_stores (i + 1) left e in
    if get_or e.destination_memory i 0 == 0 then rest else suc rest

-- The packet of a store.
unfoldable pub write_packet : ℕ → ℕ → ℕ → LsqEntry → Packet
write_packet cycle cpu i s =
    record (data_packet cpu s (s.physical_address / 2 ^ log2_block_size) s.physical_address) {
      sq_index = i;
      type = AccessType.rfo;
      event_cycle = cycle;
    }

module _ (g : Setting) where
  unfoldable pub write_store : Packet → O3Cpu → Option O3Cpu
  write_store p c = add_wq g.clock p c.caches.l1d >>= λ answer.
      some (record c { caches = record c.caches { l1d = answer.1 } })

  -- The stores of the instruction, from destination `i` on, go to the write queue of the L1D.
  unfoldable pub write_stores : Instr → ℕ → ℕ → O3Cpu → Option O3Cpu
  unfolding write_packet write_store
  write_stores e i zero c = some c
  write_stores e i (suc left) c =
      let sq_index = get_or e.sq_index i 0 in
      let p = write_packet (now g c) c.caches.cpu sq_index (lsq_at c.sq sq_index) in
      (if get_or e.destination_memory i 0 == 0 then some c else write_store p c) >>= λ c'.
      write_stores e (i + 1) left c'

  -- The entries of the store queue are given back.
  unfoldable pub release_stores : Instr → ℕ → ℕ → LoadStoreQueue → LoadStoreQueue
  release_stores e i zero q = q
  release_stores e i (suc left) q =
      let sq_index = get_or e.sq_index i uint32_max in
      release_stores e (i + 1) left (
        if sq_index == uint32_max then q else record q {
          entry = set q.entry sq_index empty_lsq_entry;
          occupancy = dec_u32 q.occupancy;
          head = next_eq q.size q.head;
        })

  -- The instruction at the head retires.
  unfoldable pub retire_head : O3Cpu → Option O3Cpu
  unfolding release_stores
  retire_head c =
      let e = instr_at c.rob c.rob.head in
      let sq = release_stores e 0 g.max_instr_destinations c.sq in
      update_spec_blocks g.clock (arch_instr e) true c.caches >>= λ caches. some (record c {
        caches = caches;
        sq = sq;
        rob = record c.rob {
          entry = set c.rob.entry c.rob.head empty_instr;
          head = next_eq c.rob.size c.rob.head;
          occupancy = dec_u32 c.rob.occupancy;
        };
        completed_executions = dec_u64 c.completed_executions;
        num_retired = inc_u64 c.num_retired;
      })

  abbrev pub stores_of : O3Cpu → ℕ
  stores_of c = count_stores 0 g.max_instr_destinations (instr_at c.rob c.rob.head)

  -- The write queue has no room: this is counted.
  unfoldable pub stall_store : O3Cpu → O3Cpu
  stall_store c =
      let l = c.caches.l1d in
      record c {
        caches = record c.caches {
          l1d = record l { wq = count_full l.wq; stall = bump AccessType.rfo l.stall };
        };
      }

  abbrev pub may_retire : O3Cpu → Bool
  may_retire c = let e = instr_at c.rob c.rob.head in not (e.ip == 0) && e.executed == completed

  abbrev pub has_room : O3Cpu → Bool
  has_room c =
      let wq = c.caches.l1d.wq in stores_of c == 0 || leb (wq.occupancy + stores_of c) wq.size

  unfoldable pub retire_one : O3Cpu → Option O3Cpu
  unfolding write_stores retire_head
  retire_one c =
      write_stores (instr_at c.rob c.rob.head) 0 g.max_instr_destinations c >>= λ c'. retire_head c'

  -- The loop, with `rounds` left.
  unfoldable pub retire_rounds : ℕ → O3Cpu → Option O3Cpu
  unfolding count_stores retire_one stall_store
  retire_rounds zero c = some c
  retire_rounds (suc rounds) c = elim (may_retire c) [
    | false ↦ some c
    | true ↦ elim (has_room c) [
      | true ↦ retire_one c >>= λ c'. retire_rounds rounds c'
      | false ↦ some (stall_store c)
    ]
  ]

  unfoldable pub retire_rob : O3Cpu → Option O3Cpu
  unfolding retire_rounds
  retire_rob c = retire_rounds commit_width c
