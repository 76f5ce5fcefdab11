-- ===== src/Dram/Process.antt =====
-- `MEMORY_CONTROLLER::process` and `operate` of src/dram_controller.cc.
pub mod Modes
use speculative_cache_hierar.Prelude.{
  ℕ, ◌+◌, ◌-◌, ◌%◌, ◌^◌, Bool, true, false, not, ◌&&◌, ◌||◌, Option, none, some, ltb, leb, ◌==◌,
  if◌then◌else◌, check, when, ◌>>=◌, ◌>>◌, inc_u64, dec_u32, add_u64,
}
use speculative_cache_hierar.AccessType
use speculative_cache_hierar.Packet.{Packet}
use speculative_cache_hierar.PacketQueue.{PacketQueue, entry_at, remove_queue}
use speculative_cache_hierar.Cache.{bump_row}
use speculative_cache_hierar.Cache.Requests.{update_at}
use speculative_cache_hierar.Dram.{
  Dram, Timing, Uppers, BankRequest, bank_of, edit_bank, turn_around_time,
}
use speculative_cache_hierar.Dram.Queues.{update_process_cycle}
use speculative_cache_hierar.Dram.Schedule.{
  Side, reads, writes, side_of, with_side, count_scheduled, schedule, reset_remain_requests,
}

-- The controller, and the memories above it.
pub record Memory (W : Type 0) : Type 0 where
  pub dram : Dram
  pub world : W

-- The bank is ready for another request.
unfoldable pub free_bank : BankRequest → BankRequest
free_bank b = record b {
  request_index = none;
  row_buffer_hit = false;
  working = false;
  is_write = false;
  is_read = false;
}

abbrev pub count_row : Bool → PacketQueue → PacketQueue
count_row true q = record q { row_buffer_hits = inc_u64 q.row_buffer_hits }
count_row false q = record q { row_buffer_misses = inc_u64 q.row_buffer_misses }

abbrev pub is_entry : Option ℕ → ℕ → Bool
is_entry none i = false
is_entry (some j) i = j == i

-- `DRAM_WRITE_HIGH_WM` and `DRAM_WRITE_LOW_WM`.
abbrev pub write_high_wm : ℕ
write_high_wm = 56

abbrev pub write_low_wm : ℕ
write_low_wm = 48

abbrev pub edit_side : Side → (PacketQueue → PacketQueue) → Dram → Dram
edit_side side f d = with_side side (f (side_of side d)) d

abbrev pub is_read : Side → Bool
is_read reads = true
is_read writes = false

-- The data bus is taken until `bus_free`, which a read notes in its entry.
abbrev pub take_bus : Side → ℕ → ℕ → Dram → Dram
take_bus reads i bus_free d =
    edit_side reads (update_at i (λ e. record e { event_cycle = bus_free }))
      (record d { dbus_cycle_available = bus_free })
take_bus writes i bus_free d = record d { dbus_cycle_available = bus_free }

abbrev pub starts_writes : Dram → Bool
starts_writes d = leb write_high_wm d.wq.occupancy || d.rq.occupancy == 0 && ltb 0 d.wq.occupancy

abbrev pub stops_writes : Dram → Bool
stops_writes d = d.wq.occupancy == 0 || not (d.rq.occupancy == 0) && ltb d.wq.occupancy write_low_wm

module _ (clock : ℕ → ℕ) (timing : Timing) where
  -- The bus turns around: what is scheduled in the queue that was served goes back.
  unfoldable pub turn : Bool → Side → Dram → Option Dram
  unfolding reset_remain_requests
  turn mode side d =
      reset_remain_requests clock timing side (record d { write_mode = mode }) >>= λ d'.
      some (record d' { dbus_cycle_available = add_u64 d'.dbus_cycle_available turn_around_time })

  unfoldable pub switch_mode : Dram → Option Dram
  unfolding turn
  switch_mode d =
      if not d.write_mode
      then when (starts_writes d) (turn true reads) d
      else when (stops_writes d) (turn false writes) d

module _ {W : Type 0} (env : Uppers W) (clock : ℕ → ℕ) (timing : Timing) where
  -- The bus is free: a read goes to the cache above, and the entry leaves the queue.
  unfoldable pub transfer : Side → ℕ → Memory W → Option (Memory W)
  unfolding free_bank
  transfer side i m = do
    let e = entry_at (side_of side m.dram) i
    let bus_free = add_u64 (clock e.cpu) timing.return_time
    let started = take_bus side i bus_free m.dram
    let hit = (bank_of e.address m.dram).row_buffer_hit
    world ← when (is_read side) (env.return_dcache e.cpu (entry_at started.rq i)) m.world
    let freed =
        count_scheduled clock timing dec_u32 side
          (edit_bank e.address free_bank (edit_side side (count_row hit) started))
    q ← remove_queue i (side_of side freed)
    some (record { dram = with_side side (update_process_cycle q) freed; world = world })

  -- The bus is busy: the bank waits for it.
  unfoldable pub wait_for_bus : Packet → Dram → Dram
  wait_for_bus e d =
      let kind = (bank_of e.address d).working_type in
      let count = bump_row kind e.type in
      let count_kind = bump_row kind AccessType.num_types in
      let count_type = bump_row AccessType.num_types e.type in
      let count_all = bump_row AccessType.num_types AccessType.num_types in
      edit_bank e.address (λ b. record b { cycle_available = d.dbus_cycle_available })
        (record d {
          dbus_cycle_congested =
              add_u64 d.dbus_cycle_congested
                ((d.dbus_cycle_available + 2 ^ 64 - clock e.cpu) % 2 ^ 64);
          dbus_congested = count (count_kind (count_type (count_all d.dbus_congested)));
        })

  -- The two assertions hold if there is a request in process, and its bank works on it.
  unfoldable pub process : Side → Memory W → Option (Memory W)
  unfolding transfer wait_for_bus
  process side m =
      let q = side_of side m.dram in
      let i = q.next_process_index in
      let e = entry_at q i in
      let b = bank_of e.address m.dram in
      check (not (i == q.size))
      >> check (is_entry b.request_index i)
      >> (if not (leb b.cycle_available (clock e.cpu))
          then some m
          else if leb m.dram.dbus_cycle_available (clock e.cpu)
          then transfer side i m
          else some (record m { dram = wait_for_bus e m.dram }))

  -- One of the two pairs of calls: "schedule new entry" and "process DRAM requests".
  unfoldable pub serve : Side → Memory W → Option (Memory W)
  unfolding schedule process
  serve side m =
      let q = side_of side m.dram in
      let due =
        ltb q.next_schedule_index q.size
        && leb q.next_schedule_cycle (clock (entry_at q q.next_schedule_index).cpu) in
      let d = if due then schedule clock timing side m.dram else m.dram in
      let q' = side_of side d in
      let ready =
        ltb q'.next_process_index q'.size
        && leb q'.next_process_cycle (clock (entry_at q' q'.next_process_index).cpu) in
      when ready (process side) (record m { dram = d })

  -- The loop over the channels has one round.
  unfoldable pub operate : Memory W → Option (Memory W)
  unfolding switch_mode serve
  operate m = do
    d ← switch_mode clock timing m.dram
    serve (if d.write_mode then writes else reads) (record m { dram = d })
