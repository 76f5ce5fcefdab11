-- ===== src/Dram.antt =====
-- inc/dram_controller.h and the address mapping of src/dram_controller.cc: the memory controller. The
-- build has one channel of one rank, so the arrays by channel and rank are their one element.
pub mod Address
pub mod Queues
pub mod Schedule
pub mod Process
use speculative_cache_hierar.Prelude.{
  ℕ, suc, ◌-◌, ◌/◌, ◌%◌, ◌^◌, ◌*◌, Bool, true, false, Option, none, some, List, get_or, set,
  replicate, bit_and, uint32_max,
}
use speculative_cache_hierar.AccessType
use speculative_cache_hierar.Packet.{Packet}
use speculative_cache_hierar.PacketQueue
use speculative_cache_hierar.PacketQueue.{PacketQueue}

-- inc/memory_class.h: `BANK_REQUEST`. `none` is the index -1; `drc_hit` is not used.
pub record BankRequest : Type 0 where
  pub cycle_available : ℕ
  pub address : ℕ
  pub full_addr : ℕ
  pub open_row : ℕ
  pub working : Bool
  pub working_type : ℕ
  pub row_buffer_hit : Bool
  pub is_write : Bool
  pub is_read : Bool
  pub request_index : Option ℕ

abbrev pub idle_bank : BankRequest
idle_bank = record {
  cycle_available = 0;
  address = 0;
  full_addr = 0;
  open_row = uint32_max;
  working = false;
  working_type = 0;
  row_buffer_hit = false;
  is_write = false;
  is_read = false;
  request_index = none;
}

abbrev pub dram_banks : ℕ
dram_banks = 8

-- `DRAM_WQ_SIZE` and `DRAM_RQ_SIZE`.
abbrev pub dram_queue_size : ℕ
dram_queue_size = 64

-- `do_write`, `processed_writes`, `dram_array` and `bank_cycle_available`, which no function reads, are
-- left out.
pub record Dram : Type 0 where
  pub dbus_cycle_available : ℕ
  pub dbus_cycle_congested : ℕ
  pub dbus_congested : List (List ℕ)
  pub write_mode : Bool
  pub scheduled_reads : ℕ
  pub scheduled_writes : ℕ
  pub bank_request : List BankRequest
  pub wq : PacketQueue
  pub rq : PacketQueue
  pub accesses : List ℕ
  pub hits : List ℕ

-- The constructor, and `is_RQ` and `is_WQ`, which the simulator sets next.
unfoldable pub new : Dram
unfolding PacketQueue.new
new = record {
  dbus_cycle_available = 0;
  dbus_cycle_congested = 0;
  dbus_congested = replicate (suc AccessType.num_types) (replicate (suc AccessType.num_types) 0);
  write_mode = false;
  scheduled_reads = 0;
  scheduled_writes = 0;
  bank_request = replicate dram_banks idle_bank;
  wq = record (PacketQueue.new "DRAM_WQ0" dram_queue_size) { is_wq = true };
  rq = record (PacketQueue.new "DRAM_RQ0" dram_queue_size) { is_rq = true };
  accesses = replicate AccessType.num_types 0;
  hits = replicate AccessType.num_types 0;
}

-- What the controller is told when it starts: `tRP`, `tRCD`, `tCAS` and `DRAM_DBUS_RETURN_TIME`.
pub record Timing : Type 0 where
  pub precharge : ℕ
  pub row_to_column : ℕ
  pub column_strobe : ℕ
  pub return_time : ℕ

-- `DRAM_DBUS_TURN_AROUND_TIME`, at 4000 MHz.
abbrev pub turn_around_time : ℕ
turn_around_time = 15 * 4000 / 2000

-- The memories above, with state `W`, and `all_warmup_complete < NUM_CPUS`.
pub record Uppers (W : Type 0) : Type 0 where
  pub return_icache : ℕ → Packet → W → Option W
  pub return_dcache : ℕ → Packet → W → Option W
  pub is_warming_up : W → Bool

-- The fields of a block address. `LOG2_DRAM_CHANNELS` and `LOG2_DRAM_RANKS` are 0.
unfoldable pub dram_get_channel : ℕ → ℕ
dram_get_channel address = 0

unfoldable pub dram_get_rank : ℕ → ℕ
dram_get_rank address = 0

unfoldable pub dram_get_bank : ℕ → ℕ
dram_get_bank address = bit_and (address % 2 ^ 32) (2 ^ 3 - 1)

unfoldable pub dram_get_column : ℕ → ℕ
dram_get_column address = bit_and (address / 2 ^ 3 % 2 ^ 32) (2 ^ 7 - 1)

unfoldable pub dram_get_row : ℕ → ℕ
dram_get_row address = bit_and (address / 2 ^ 10 % 2 ^ 32) (2 ^ 16 - 1)

-- `bank_request[channel][rank][bank]` of an address, and an assignment to it.
abbrev pub bank_of : ℕ → Dram → BankRequest
bank_of address d = get_or d.bank_request (dram_get_bank address) idle_bank

abbrev pub edit_bank : ℕ → (BankRequest → BankRequest) → Dram → Dram
edit_bank address f d = record d {
  bank_request = set d.bank_request (dram_get_bank address) (f (bank_of address d));
}
