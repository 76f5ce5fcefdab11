-- ===== src/Tests.antt =====
-- Small queues, sets and caches at which the theorems are applied.
mod Queues
mod Sets
mod Caches
mod Commits
mod Handlers
mod Memory
mod Writes
mod Stages
mod Scheduling
use speculative_cache_hierar.Prelude.{
  ℕ, ◌*◌, ◌<◌, ◌≡◌, refl, Bool, true, false, Option, none, some, List, [], ◌∷◌, arith, set,
}
use speculative_cache_hierar.Packet.{Packet, empty_packet}
use speculative_cache_hierar.Block.{Block, empty_block}
use speculative_cache_hierar.PacketQueue
use speculative_cache_hierar.PacketQueue.{PacketQueue}
use speculative_cache_hierar.PacketQueue.Ring.{IsValid, new-IsValid}
use speculative_cache_hierar.PacketQueue.Add.{added, added-IsValid}
use speculative_cache_hierar.Cache
use speculative_cache_hierar.Cache.{Cache, CacheType, Neighbours, l2c, row}
use speculative_cache_hierar.Cache.Shape.{IsShaped, new-IsShaped, write_way, write-IsShaped}

-- Every core is in cycle 100.
abbrev clock : ℕ → ℕ
clock cpu = 100

-- A request of instruction 5 to block `a`.
abbrev request : ℕ → Packet
request a = record empty_packet {
  address = a;
  full_addr = a * 64;
  cpu = 0;
  instr_id = 5;
  payload = 7;
  event_cycle = 90;
}

abbrev no_requests : PacketQueue
no_requests = PacketQueue.new "L2C_RQ" 4

abbrev one_request : PacketQueue
one_request = added no_requests (request 3)

no_requests-IsValid : IsValid no_requests
no_requests-IsValid = (new-IsValid "L2C_RQ" 4 (omega arith) (omega arith)).0

one_request-IsValid : IsValid one_request
unfolding PacketQueue.new
one_request-IsValid = added-IsValid no_requests (request 3) no_requests-IsValid (omega arith)

-- Two sets of two ways in both hierarchies, and queues of four.
abbrev small_cache : Cache
small_cache = Cache.new "L2C" l2c 2 2 2 2 4 4 4 4 4

-- With a queued writeback to block 3.
abbrev writing_cache : Cache
writing_cache = record small_cache { wq = one_request }

-- A speculative block that instruction 4 filled, of address 3.
abbrev speculative_block : Block
speculative_block = record empty_block {
  valid = true;
  tag = 3;
  address = 3;
  payload = 7;
  instr_id = 4;
}

abbrev speculative_cache : Cache
speculative_cache = record small_cache {
  spec_block = write_way 1 0 speculative_block small_cache.spec_block;
}

speculative_cache-IsShaped : IsShaped 2 2 speculative_cache.spec_block
unfolding Cache.new
speculative_cache-IsShaped =
    write-IsShaped small_cache.spec_block (new-IsShaped 2 2) 1 0 speculative_block (omega arith)

-- The neighbours keep a list of what reaches them.
abbrev outside : Neighbours (List Packet)
outside = record {
  return_icache = λ cpu p w. some (p ∷ w);
  return_dcache = λ cpu p w. some (p ∷ w);
  lower_cq_room = λ w. true;
  lower_add_cq = λ p w. some (p ∷ w);
  llc_find_victim = λ cpu instr_id s ways ip full_addr type w. some (0, w);
  lower_occupancy = λ kind a w. 0;
  lower_size = λ kind a w. 4;
  lower_increment_wq_full = λ a w. w;
  lower_add_wq = λ p w. some (p ∷ w);
  lower_add_rq = λ p w. some (record { packet = p; returned = []; world = p ∷ w });
  lower_add_pq = λ p w. some (record { packet = p; returned = []; world = p ∷ w });
}
