-- ===== src/Dram/Schedule.antt =====
-- `MEMORY_CONTROLLER::schedule` and `reset_remain_requests` of src/dram_controller.cc: which request
-- goes to its bank next, and what becomes of those that wait when the bus turns around.
pub mod Choice
use speculative_cache_hierar.Prelude.{
  ℕ, zero, suc, ◌+◌, ◌-◌, ◌%◌, ◌^◌, Bool, true, false, not, ◌&&◌, ◌||◌, Option, none, some, leb,
  ◌==◌, if◌then◌else◌, check, ◌>>◌, inc_u32, dec_u32, add_u64, uint32_max,
}
use speculative_cache_hierar.Packet.{Packet}
use speculative_cache_hierar.PacketQueue.{PacketQueue, entry_at}
use speculative_cache_hierar.Cache.Requests.{update_at}
use speculative_cache_hierar.Dram.{
  Dram, Timing, BankRequest, bank_of, edit_bank, dram_get_row, dram_get_bank,
}
use speculative_cache_hierar.Dram.Queues.{
  oldest_of, is_unscheduled, update_schedule_cycle, update_process_cycle,
}

-- The queue that a call is given by its address.
pub data Side : Type 0 where
  reads writes : Side

abbrev pub side_of : Side → Dram → PacketQueue
side_of reads d = d.rq
side_of writes d = d.wq

abbrev pub with_side : Side → PacketQueue → Dram → Dram
with_side reads q d = record d { rq = q }
with_side writes q d = record d { wq = q }

-- The tests of the two searches.
abbrev pub is_ready : Dram → Packet → Bool
is_ready d e = not e.scheduled && not (e.address == 0) && not (bank_of e.address d).working

abbrev pub is_row_hit : Dram → Packet → Bool
is_row_hit d e = is_ready d e && (bank_of e.address d).open_row == dram_get_row e.address

-- The request that is scheduled: the oldest with an open row, else the oldest. The Bool is
-- `row_buffer_hit`.
unfoldable pub choose : PacketQueue → Dram → Option (ℕ × Bool)
choose q d = elim (oldest_of q (is_row_hit d)).0 [
  | some i ↦ some (i, true)
  | none ↦ elim (oldest_of q (is_ready d)).0 [ some i ↦ some (i, false) | none ↦ none ]
]

module _ (clock : ℕ → ℕ) (timing : Timing) where
  abbrev access_time : Bool → ℕ
  access_time true = timing.column_strobe
  access_time false = (timing.precharge + timing.row_to_column + timing.column_strobe) % 2 ^ 32

  -- The bank is busy with entry `i`.
  unfoldable pub occupy : Side → ℕ → Bool → Packet → BankRequest → BankRequest
  occupy side i hit e b = record b {
    working = true;
    working_type = e.type;
    cycle_available = add_u64 (clock e.cpu) (access_time hit);
    request_index = some i;
    row_buffer_hit = hit;
    is_write = elim side [ writes ↦ true | reads ↦ false ];
    is_read = elim side [ writes ↦ false | reads ↦ true ];
    open_row = dram_get_row e.address;
  }

  abbrev pub count_scheduled : (ℕ → ℕ) → Side → Dram → Dram
  count_scheduled step reads d = record d { scheduled_reads = step d.scheduled_reads }
  count_scheduled step writes d = record d { scheduled_writes = step d.scheduled_writes }

  abbrev pub refresh : PacketQueue → PacketQueue
  refresh q = update_process_cycle (update_schedule_cycle q)

  unfoldable pub schedule_entry : Side → ℕ → Bool → Dram → Dram
  unfolding occupy
  schedule_entry side i hit d =
      let e = entry_at (side_of side d) i in
      let queue = refresh (
        update_at i
          (λ e. record e {
            scheduled = true;
            event_cycle = add_u64 (clock e.cpu) (access_time hit);
          })
          (side_of side d)) in
      with_side side queue
        (count_scheduled inc_u32 side (edit_bank e.address (occupy side i hit e) d))

  -- The scheduler might not find anything.
  unfoldable pub schedule_choice : Side → Option (ℕ × Bool) → Dram → Dram
  unfolding schedule_entry
  schedule_choice side none d = d
  schedule_choice side (some (i, hit)) d = schedule_entry side i hit d

  unfoldable pub schedule : Side → Dram → Dram
  unfolding choose schedule_choice
  schedule side d = schedule_choice side (choose (side_of side d) d) d

  -- The bank gives the request back. The row stays open if the access would have been through by now.
  unfoldable pub give_back : Packet → BankRequest → BankRequest
  give_back e b = record b {
    open_row =
        if leb ((b.cycle_available + 2 ^ 64 - timing.column_strobe) % 2 ^ 64) (clock e.cpu)
        then dram_get_row e.address
        else uint32_max;
    request_index = none;
    row_buffer_hit = false;
    working = false;
    cycle_available = clock e.cpu;
    is_write = false;
    is_read = b.is_read && b.is_write;
  }

  -- One round of the loop, on entry `i` of the queue. The counters follow the flags of the bank.
  unfoldable pub reset_entry : Side → ℕ → Dram → Dram
  unfolding give_back
  reset_entry side i d =
      let e = entry_at (side_of side d) i in
      let b = bank_of e.address d in
      let counted =
        if b.is_write
        then count_scheduled dec_u32 writes d
        else if b.is_read
        then count_scheduled dec_u32 reads d
        else d in
      let queue =
        update_at i (λ e. record e { scheduled = false; event_cycle = clock e.cpu })
          (side_of side d) in
      if e.scheduled then with_side side queue (edit_bank e.address (give_back e) counted) else d

  unfoldable pub reset_rounds : ℕ → ℕ → Side → Dram → Dram
  unfolding reset_entry
  reset_rounds zero i side d = d
  reset_rounds (suc rounds) i side d = reset_rounds rounds (i + 1) side (reset_entry side i d)

  -- The sanity check: none of the queue's requests is scheduled any more.
  unfoldable pub reset_remain_requests : Side → Dram → Option Dram
  unfolding reset_rounds
  reset_remain_requests side d =
      let reset = reset_rounds (side_of side d).size 0 side d in
      let refreshed = record reset { rq = refresh reset.rq; wq = refresh reset.wq } in
      check (elim side [
        | writes ↦ refreshed.scheduled_writes == 0
        | reads ↦ refreshed.scheduled_reads == 0
      ])
      >> some refreshed
