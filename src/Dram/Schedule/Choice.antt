-- ===== src/Dram/Schedule/Choice.antt =====
-- `MEMORY_CONTROLLER::schedule` of src/dram_controller.cc: first ready, first come, first served.
use speculative_cache_hierar.Prelude.{
  ℕ, ◌+◌, ◌%◌, ◌^◌, ◌<◌, ◌≡◌, ◌≢◌, ◌⊎◌, ◌∙◌, refl, ap, subst, get_or, get_or-set_ne, inl, inr, Bool,
  true, false, not, ◌&&◌, ◌==◌, Option, none, some, arith, length, Option-cases, get_or-set_self,
  add_u64,
}
use speculative_cache_hierar.Prelude.Bits.{bit_and-mask}
use speculative_cache_hierar.Packet.{Packet, empty_packet}
use speculative_cache_hierar.PacketQueue.{PacketQueue, entry_at}
use speculative_cache_hierar.Dram.{
  Dram, Timing, BankRequest, idle_bank, dram_banks, bank_of, dram_get_bank, dram_get_row,
}
use speculative_cache_hierar.Dram.Queues.{oldest_of, update_schedule_cycle, update_process_cycle}
use speculative_cache_hierar.Dram.Queues.Oldest.{
  IsOldest, IsFirstOldest, IsIdle, oldest_of-IsOldest,
}
use speculative_cache_hierar.Dram.Schedule.{
  Side, reads, writes, side_of, is_ready, is_row_hit, choose, access_time, occupy, schedule_entry,
  schedule_choice, schedule,
}

module _ (q : PacketQueue) (d : Dram) where
  -- A request that waits, of a bank that is not at work, and one that finds its row open besides.
  abbrev pub can_start : Packet → Bool
  can_start e =
      not e.scheduled
      && not (e.address == 0)
      && not (get_or d.bank_request (dram_get_bank e.address) idle_bank).working

  abbrev pub finds_row : Packet → Bool
  finds_row e =
      can_start e
      && (get_or d.bank_request (dram_get_bank e.address) idle_bank).open_row
        == dram_get_row e.address

  -- What each choice means.
  abbrev pub Chooses : Option (ℕ × Bool) → Type 0
  Chooses none = IsIdle q can_start q.size
  Chooses (some (i, true)) = IsFirstOldest q finds_row q.size i
  Chooses (some (i, false)) = IsIdle q finds_row q.size × IsFirstOldest q can_start q.size i

  found :
      (test : Packet → Bool) {o : Option ℕ}
      → (oldest_of q test).0 ≡ o
      → IsOldest q test q.size (oldest_of q test).1 o
  found test e = subst (IsOldest q test q.size (oldest_of q test).1) e (oldest_of-IsOldest q test)

  choose-Chooses : Chooses (choose q d)
  unfolding choose
  choose-Chooses = elim (Option-cases (oldest_of q (is_row_hit d)).0) [
    | inr (i, e) ↦ rw (e, choose) (found (is_row_hit d) e).1
    | inl e ↦ elim (Option-cases (oldest_of q (is_ready d)).0) [
      | inr (i, e') ↦ rw (e, e', choose) ((found (is_row_hit d) e).1, (found (is_ready d) e').1)
      | inl e' ↦ rw (e, e', choose) (found (is_ready d) e').1
    ]
  ]

bank-lt : (address : ℕ) → dram_get_bank address < dram_banks
unfolding dram_get_bank
bank-lt address = rw (bit_and-mask 3 _) (omega arith)

module _ (clock : ℕ → ℕ) (timing : Timing) (side : Side) (d : Dram) where
  -- The time of an access, of 64 bits: with an open row only the column is addressed.
  abbrev pub due : Bool → ℕ → ℕ
  due true cycle = (cycle + timing.column_strobe) % 2 ^ 64
  due false cycle =
      (cycle + (timing.precharge + timing.row_to_column + timing.column_strobe) % 2 ^ 32) % 2 ^ 64

  -- The bank that works on entry `e` of index `i`, with its row open.
  abbrev pub busy : ℕ → Bool → Packet → BankRequest
  busy i hit e = record (bank_of e.address d) {
    working = true;
    working_type = e.type;
    cycle_available = due hit (clock e.cpu);
    request_index = some i;
    row_buffer_hit = hit;
    is_write = elim side [ writes ↦ true | reads ↦ false ];
    is_read = elim side [ writes ↦ false | reads ↦ true ];
    open_row = dram_get_row e.address;
  }

  -- The bank of the request at `i` works on it, the other banks stay as they are, and the entry is
  -- scheduled, as one request of its side more.
  abbrev pub Occupies : ℕ → Bool → Dram → Type 0
  Occupies i hit d' =
      let e = entry_at (side_of side d) i in
      (bank_of e.address d' ≡ busy i hit e)
      × ((k : ℕ)
          → dram_get_bank e.address ≢ k
          → get_or d'.bank_request k idle_bank ≡ get_or d.bank_request k idle_bank)
      × (entry_at (side_of side d') i
          ≡ record e { scheduled = true; event_cycle = due hit (clock e.cpu) })
      × (elim side [ reads ↦ d'.scheduled_reads | writes ↦ d'.scheduled_writes ]
          ≡ (elim side [ reads ↦ d.scheduled_reads | writes ↦ d.scheduled_writes ] + 1) % 2 ^ 32)

  -- The two outcomes: there is nothing to schedule, or one request is.
  abbrev pub Schedules : Dram → Type 0
  Schedules d' =
      (IsIdle (side_of side d) (can_start (side_of side d) d) (side_of side d).size × (d' ≡ d))
      ⊎ ((i : ℕ) × (hit : Bool) × Chooses (side_of side d) d (some (i, hit)) × Occupies i hit d')

module _ (clock : ℕ → ℕ) (timing : Timing) (side : Side) (d : Dram) where
  due_lem :
      (hit : Bool) (cycle : ℕ)
      → add_u64 cycle (access_time clock timing hit) ≡ due clock timing side d hit cycle
  due_lem true cycle = refl
  due_lem false cycle = refl

  occupy_lem :
      (i : ℕ) (hit : Bool) (e : Packet)
      → occupy clock timing side i hit e (bank_of e.address d) ≡ busy clock timing side d i hit e
  unfolding occupy
  occupy_lem i hit e =
      ap (λ t. record (busy clock timing side d i hit e) { cycle_available = t })
        (due_lem hit (clock e.cpu))

  scheduled_lem :
      (hit : Bool) (e : Packet)
      → record e {
        scheduled = true;
        event_cycle = add_u64 (clock e.cpu) (access_time clock timing hit);
      }
        ≡ record e { scheduled = true; event_cycle = due clock timing side d hit (clock e.cpu) }
  scheduled_lem hit e =
      ap (λ t. record e { scheduled = true; event_cycle = t }) (due_lem hit (clock e.cpu))

schedule_entry-Occupies :
    (clock : ℕ → ℕ) (timing : Timing) (side : Side) (d : Dram) (i : ℕ) (hit : Bool)
    → length d.bank_request ≡ dram_banks
    → i < length (side_of side d).entry
    → Occupies clock timing side d i hit (schedule_entry clock timing side i hit d)
unfolding schedule_entry update_schedule_cycle update_process_cycle
schedule_entry-Occupies clock timing reads d i hit banks l =
    let e = entry_at d.rq i in
    (
      get_or-set_self d.bank_request _ _ idle_bank (omega (arith, bank-lt e.address, banks))
          ∙ occupy_lem clock timing reads d i hit e,
      λ k ne. get_or-set_ne d.bank_request (dram_get_bank e.address) k _ idle_bank ne,
      get_or-set_self d.rq.entry i _ empty_packet l ∙ scheduled_lem clock timing reads d hit e,
      refl,
    )
schedule_entry-Occupies clock timing writes d i hit banks l =
    let e = entry_at d.wq i in
    (
      get_or-set_self d.bank_request _ _ idle_bank (omega (arith, bank-lt e.address, banks))
          ∙ occupy_lem clock timing writes d i hit e,
      λ k ne. get_or-set_ne d.bank_request (dram_get_bank e.address) k _ idle_bank ne,
      get_or-set_self d.wq.entry i _ empty_packet l ∙ scheduled_lem clock timing writes d hit e,
      refl,
    )

-- With arrays of their sizes, `schedule` gives one request of the queue to its bank, which was not at
-- work: the oldest of those that find their row open; if there is none, the oldest of all whose bank is
-- free; the first of the queue among those as old. The bank is then at work on this entry, with its row
-- open, for the time of a column access if the row was open, and else of precharging, of opening the row
-- and of the column access; the entry is scheduled, due at the end of this time, and counted; the other
-- banks stay as they are. If there is no such request, nothing changes. (An entry whose cycle is the
-- greatest number counts as none.)
pub schedule-Schedules :
    (clock : ℕ → ℕ) (timing : Timing) (side : Side) (d : Dram)
    → length d.bank_request ≡ dram_banks
    → length (side_of side d).entry ≡ (side_of side d).size
    → Schedules clock timing side d (schedule clock timing side d)
unfolding schedule schedule_choice
schedule-Schedules clock timing side d banks sized =
    go (choose (side_of side d) d) (choose-Chooses (side_of side d) d)
  where
    below :
        (i : ℕ) (hit : Bool)
        → Chooses (side_of side d) d (some (i, hit))
        → i < (side_of side d).size
    below i true c = c.0
    below i false c = c.1.0

    go :
        (o : Option (ℕ × Bool))
        → Chooses (side_of side d) d o
        → Schedules clock timing side d (schedule_choice clock timing side o d)
    go none c = inl (c, refl)
    go (some (i, hit)) c = inr (
      i,
      hit,
      c,
      schedule_entry-Occupies clock timing side d i hit banks (omega (arith, sized, below i hit c)),
    )
