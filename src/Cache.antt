-- ===== src/Cache.antt =====
-- inc/cache.h: the state of a cache, its neighbours, and what the constructor builds.
-- `upper_level_icache` and the others are other memories; a `Neighbours` record stands for them, and
-- for the replacement policy of the last level, which the build copies in.
pub mod Index
pub mod Replacement
pub mod Lookup
pub mod Shape
pub mod Mshr
pub mod Requests
pub mod Writes
pub mod Commit
pub mod Machine
pub mod Fill
pub mod Writeback
pub mod Read
pub mod Prefetch
pub mod Operate
use Prim.Native.String.{String, ◌++◌ as str_append}
use speculative_cache_hierar.Prelude.{
  ℕ, zero, suc, ◌+◌, Bool, true, false, Option, none, some, List, [], ◌∷◌, ℤ, pos, negsuc, get_or,
  set, replicate, tabulate, inc_u64,
}
use speculative_cache_hierar.AccessType
use speculative_cache_hierar.Packet.{Packet, num_cpus}
use speculative_cache_hierar.Block.{Block, empty_block}
use speculative_cache_hierar.PacketQueue
use speculative_cache_hierar.PacketQueue.{PacketQueue}

-- `IS_ITLB` to `IS_LLC`.
pub data CacheType : Type 0 where
  itlb dtlb stlb l1i l1d l2c llc : CacheType

-- `FILL_L1`, `FILL_L2`.
abbrev pub fill_l1 : ℤ
fill_l1 = pos 1

abbrev pub fill_l2 : ℤ
fill_l2 = pos 2

-- `block[s]` is the list of the ways of set `s`. A statistics array is the list of its counters, by
-- core first if it has two dimensions. `reads_available` is `reads_available_this_cycle`, and
-- `has_lower_level` the test of the pointer `lower_level`.
pub record Cache : Type 0 where
  pub cpu : ℕ
  pub name : String
  pub num_set : ℕ
  pub num_way : ℕ
  pub wq_size : ℕ
  pub rq_size : ℕ
  pub pq_size : ℕ
  pub mshr_size : ℕ
  pub cq_size : ℕ
  pub num_set_spec : ℕ
  pub num_way_spec : ℕ
  pub latency : ℕ
  pub block : List (List Block)
  pub spec_block : List (List Block)
  pub fill_level : ℤ
  pub max_read : ℕ
  pub reads_available : ℕ
  pub has_lower_level : Bool
  pub cache_type : CacheType
  pub pf_requested : ℕ
  pub pf_issued : ℕ
  pub pf_useful : ℕ
  pub pf_useless : ℕ
  pub pf_fill : ℕ
  pub wq : PacketQueue
  pub rq : PacketQueue
  pub pq : PacketQueue
  pub mshr : PacketQueue
  pub processed : PacketQueue
  pub cq : PacketQueue
  pub accesses : List ℕ
  pub hits : List ℕ
  pub misses : List ℕ
  pub mshr_merged : List ℕ
  pub stall : List ℕ
  pub sim_access : List (List ℕ)
  pub sim_hit : List (List ℕ)
  pub sim_miss : List (List ℕ)
  pub spec_access : List (List ℕ)
  pub spec_miss : List (List ℕ)
  pub total_miss_latency : ℕ
  pub spec_commit_transfers : List ℕ
  pub spec_squash : List ℕ

-- `block[i][j].lru = j`.
abbrev pub new_set : ℕ → List Block
new_set ways = tabulate ways (λ j. record empty_block { lru = j })

-- `ROB_SIZE`, the size of the queue PROCESSED.
abbrev pub rob_size : ℕ
rob_size = 352

-- The constructor. `cpu` and `cache_type`, which it leaves unset, are given; the members that the
-- simulator sets next, `LATENCY` and `fill_level`, start as here. The commit queue is named `_WQ`.
unfoldable pub new : String → CacheType → ℕ → ℕ → ℕ → ℕ → ℕ → ℕ → ℕ → ℕ → ℕ → Cache
unfolding PacketQueue.new
new name kind sets ways sets_spec ways_spec wq_size rq_size pq_size mshr_size cq_size = record {
  cpu = 0;
  name = name;
  num_set = sets;
  num_way = ways;
  wq_size = wq_size;
  rq_size = rq_size;
  pq_size = pq_size;
  mshr_size = mshr_size;
  cq_size = cq_size;
  num_set_spec = sets_spec;
  num_way_spec = ways_spec;
  latency = 0;
  block = replicate sets (new_set ways);
  spec_block = replicate sets_spec (new_set ways_spec);
  fill_level = negsuc 0;
  max_read = 1;
  reads_available = 0;
  has_lower_level = false;
  cache_type = kind;
  pf_requested = 0;
  pf_issued = 0;
  pf_useful = 0;
  pf_useless = 0;
  pf_fill = 0;
  wq = PacketQueue.new (str_append name "_WQ") wq_size;
  rq = PacketQueue.new (str_append name "_RQ") rq_size;
  pq = PacketQueue.new (str_append name "_PQ") pq_size;
  mshr = PacketQueue.new (str_append name "_MSHR") mshr_size;
  processed = PacketQueue.new (str_append name "_PROCESSED") rob_size;
  cq = PacketQueue.new (str_append name "_WQ") cq_size;
  accesses = replicate AccessType.num_types 0;
  hits = replicate AccessType.num_types 0;
  misses = replicate AccessType.num_types 0;
  mshr_merged = replicate AccessType.num_types 0;
  stall = replicate AccessType.num_types 0;
  sim_access = replicate num_cpus (replicate AccessType.num_types 0);
  sim_hit = replicate num_cpus (replicate AccessType.num_types 0);
  sim_miss = replicate num_cpus (replicate AccessType.num_types 0);
  spec_access = replicate num_cpus (replicate AccessType.num_types 0);
  spec_miss = replicate num_cpus (replicate AccessType.num_types 0);
  total_miss_latency = 0;
  spec_commit_transfers = 0 ∷ [];
  spec_squash = 0 ∷ [];
}

-- `stat[i]++`.
abbrev pub bump : ℕ → List ℕ → List ℕ
bump i stat = set stat i (inc_u64 (get_or stat i 0))

-- `stat[cpu][type]++`.
abbrev pub bump_row : ℕ → ℕ → List (List ℕ) → List (List ℕ)
bump_row cpu type stat = set stat cpu (bump type (get_or stat cpu []))

-- `block[set]`, and a way of it.
abbrev pub row : List (List Block) → ℕ → List Block
row blocks s = get_or blocks s []

abbrev pub way_at : List Block → ℕ → Block
way_at ways w = get_or ways w empty_block

-- What a request to the lower level leaves: the packet that the call was given, as it changes it; the
-- packets with which it calls `return_data` of this cache meanwhile; and the other memories.
pub record Answer (W : Type 0) : Type 0 where
  pub packet : Packet
  pub returned : List Packet
  pub world : W

-- The memories around a cache, with state `W`, and what it calls of them. `none` is an assertion of
-- theirs that fails.
pub record Neighbours (W : Type 0) : Type 0 where
  -- `upper_level_icache[cpu]->return_data(packet)`, and the same for the data cache
  pub return_icache : ℕ → Packet → W → Option W
  pub return_dcache : ℕ → Packet → W → Option W
  -- `lower_level->CQ.occupancy < lower_level->CQ.SIZE`
  pub lower_cq_room : W → Bool
  -- `lower_level->add_cq(packet)`
  pub lower_add_cq : Packet → W → Option W
  -- `llc_find_victim(cpu, instr_id, set, block[set], ip, full_addr, type)`
  pub llc_find_victim : ℕ → ℕ → ℕ → List Block → ℕ → ℕ → ℕ → W → Option (ℕ × W)
  -- `lower_level->get_occupancy(queue_type, address)`, `get_size` and `increment_WQ_FULL`
  pub lower_occupancy : ℕ → ℕ → W → ℕ
  pub lower_size : ℕ → ℕ → W → ℕ
  pub lower_increment_wq_full : ℕ → W → W
  -- `lower_level->add_wq(packet)`, `add_rq` and `add_pq`
  pub lower_add_wq : Packet → W → Option W
  pub lower_add_rq : Packet → W → Option (Answer W)
  pub lower_add_pq : Packet → W → Option (Answer W)
