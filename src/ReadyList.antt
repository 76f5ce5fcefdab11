-- ===== src/ReadyList.antt =====
-- inc/block.h and inc/ooo_cpu.h: the load and store queues, `LOAD_STORE_QUEUE`, and the Ready-To arrays of
-- a core.
use speculative_cache_hierar.Prelude.{
  ℕ, List, leb, ◌==◌, if◌then◌else◌, get_or, set, replicate, inc_u32, uint64_max,
}

-- `LSQ_ENTRY` and its constructor.
pub record LsqEntry : Type 0 where
  pub instr_id : ℕ
  pub producer_id : ℕ
  pub virtual_address : ℕ
  pub physical_address : ℕ
  pub ip : ℕ
  pub event_cycle : ℕ
  pub rob_index : ℕ
  pub data_index : ℕ
  pub translated : ℕ
  pub fetched : ℕ
  pub asid0 : ℕ
  pub asid1 : ℕ

abbrev pub empty_lsq_entry : LsqEntry
empty_lsq_entry = record {
  instr_id = 0;
  producer_id = uint64_max;
  virtual_address = 0;
  physical_address = 0;
  ip = 0;
  event_cycle = 0;
  rob_index = 0;
  data_index = 0;
  translated = 0;
  fetched = 0;
  asid0 = 255;
  asid1 = 255;
}

-- `LOAD_STORE_QUEUE`.
pub record LoadStoreQueue : Type 0 where
  pub size : ℕ
  pub occupancy : ℕ
  pub head : ℕ
  pub tail : ℕ
  pub entry : List LsqEntry

abbrev pub new_lsq : ℕ → LoadStoreQueue
new_lsq size = record {
  size = size;
  occupancy = 0;
  head = 0;
  tail = 0;
  entry = replicate size empty_lsq_entry;
}

-- A Ready-To-Execute, Ready-To-Load or Ready-To-Store array with its head and tail, or `STA`. A slot that
-- holds `unused` is free: ROB_SIZE, LQ_SIZE, SQ_SIZE or UINT64_MAX.
pub record ReadyList : Type 0 where
  pub size : ℕ
  pub unused : ℕ
  pub slots : List ℕ
  pub head : ℕ
  pub tail : ℕ

abbrev pub new_ready : ℕ → ℕ → ReadyList
new_ready size unused = record {
  size = size;
  unused = unused;
  slots = replicate size unused;
  head = 0;
  tail = 0;
}

abbrev pub lsq_at : LoadStoreQueue → ℕ → LsqEntry
lsq_at q i = get_or q.entry i empty_lsq_entry

abbrev pub edit_lsq : ℕ → (LsqEntry → LsqEntry) → LoadStoreQueue → LoadStoreQueue
edit_lsq i f q = record q { entry = set q.entry i (f (lsq_at q i)) }

-- An index moves on by one, going round at the end.
abbrev pub next : ℕ → ℕ → ℕ
next size i = if leb size (inc_u32 i) then 0 else inc_u32 i

-- The same where the source tests `==`.
abbrev pub next_eq : ℕ → ℕ → ℕ
next_eq size i = if inc_u32 i == size then 0 else inc_u32 i

-- A number is put in a ready list at its tail, and taken off at its head.
abbrev pub push_ready : ℕ → ReadyList → ReadyList
push_ready x r = record r { slots = set r.slots r.tail x; tail = next_eq r.size r.tail }

abbrev pub pop_ready : ReadyList → ReadyList
pop_ready r = record r { slots = set r.slots r.head r.unused; head = next_eq r.size r.head }

abbrev pub first_ready : ReadyList → ℕ
first_ready r = get_or r.slots r.head r.unused
