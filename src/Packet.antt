-- ===== src/Packet.antt =====
-- inc/block.h: the message packet and the kinds of hierarchy.
use speculative_cache_hierar.Prelude.{ℕ, ℤ, pos, negsuc, Bool, true, false, uint64_max}
use speculative_cache_hierar.FastSet
use speculative_cache_hierar.FastSet.{FastSet}

-- `NORMAL_HIERARCHY` and `SPECULATIVE_HIERARCHY`.
pub data Hierarchy : Type 0 where
  normal speculative : Hierarchy

abbrev pub num_cpus : ℕ
num_cpus = 1

-- `INFLIGHT` and `COMPLETED`, the values of `returned` beside the initial 0.
abbrev pub inflight : ℕ
inflight = 1

abbrev pub completed : ℕ
completed = 2

-- A flag that only ever holds 0 or 1 is a Bool; `int` fields are integers, unsigned ones numbers.
pub record Packet : Type 0 where
  pub instruction : Bool
  pub is_data : Bool
  pub fill_l1i : Bool
  pub fill_l1d : Bool
  pub tlb_access : Bool
  pub scheduled : Bool
  pub translated : Bool
  pub fetched : Bool
  pub prefetched : Bool
  pub drc_tag_read : Bool
  pub is_speculative : Hierarchy
  pub fill_level : ℤ
  pub pf_origin_level : ℤ
  pub rob_signal : ℤ
  pub rob_index : ℤ
  pub producer : ℤ
  pub delta : ℤ
  pub depth : ℤ
  pub signature : ℤ
  pub confidence : ℤ
  pub pf_metadata : ℕ
  pub is_producer : Bool
  pub instr_merged : Bool
  pub load_merged : Bool
  pub store_merged : Bool
  pub returned : ℕ
  pub asid0 : ℕ
  pub asid1 : ℕ
  pub type : ℕ
  pub rob_index_depend_on_me : FastSet
  pub lq_index_depend_on_me : FastSet
  pub sq_index_depend_on_me : FastSet
  pub cpu : ℕ
  pub data_index : ℕ
  pub lq_index : ℕ
  pub sq_index : ℕ
  pub address : ℕ
  pub full_addr : ℕ
  pub instruction_pa : ℕ
  pub data_pa : ℕ
  pub payload : ℕ
  pub instr_id : ℕ
  pub ip : ℕ
  pub event_cycle : ℕ
  pub cycle_enqueued : ℕ
  pub timestamp : ℕ

-- What the constructor of `PACKET` leaves (`pf_origin_level`, `pf_metadata` and `data_pa`, which it
-- does not set, are 0). `payload` is the source's `data`.
abbrev pub empty_packet : Packet
empty_packet = record {
  instruction = false;
  is_data = true;
  fill_l1i = false;
  fill_l1d = false;
  tlb_access = false;
  scheduled = false;
  translated = false;
  fetched = false;
  prefetched = false;
  drc_tag_read = false;
  is_speculative = normal;
  fill_level = negsuc 0;
  pf_origin_level = pos 0;
  rob_signal = negsuc 0;
  rob_index = negsuc 0;
  producer = negsuc 0;
  delta = pos 0;
  depth = pos 0;
  signature = pos 0;
  confidence = pos 0;
  pf_metadata = 0;
  is_producer = false;
  instr_merged = false;
  load_merged = false;
  store_merged = false;
  returned = 0;
  asid0 = 255;
  asid1 = 255;
  type = 0;
  rob_index_depend_on_me = FastSet.empty;
  lq_index_depend_on_me = FastSet.empty;
  sq_index_depend_on_me = FastSet.empty;
  cpu = num_cpus;
  data_index = 0;
  lq_index = 0;
  sq_index = 0;
  address = 0;
  full_addr = 0;
  instruction_pa = 0;
  data_pa = 0;
  payload = 0;
  instr_id = 0;
  ip = 0;
  event_cycle = uint64_max;
  cycle_enqueued = 0;
  timestamp = 0;
}
