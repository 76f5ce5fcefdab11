-- ===== src/Tests/Memory.antt =====
-- The memory controller with a request or two.
use speculative_cache_hierar.Prelude.{
  ◌+◌, ◌*◌, ◌%◌, ◌^◌, ◌<◌, ◌≡◌, refl, false, none, some, List, [], ◌∷◌, arith,
}
use speculative_cache_hierar.Packet.{Packet}
use speculative_cache_hierar.PacketQueue
use speculative_cache_hierar.PacketQueue.Add.{added}
use speculative_cache_hierar.Dram
use speculative_cache_hierar.Dram.{
  Dram, Timing, Uppers, dram_banks, dram_get_bank, dram_get_column, dram_get_row,
}
use speculative_cache_hierar.Dram.Address.{dram_place}
use speculative_cache_hierar.Dram.Queues.Reads.{HasRoom, ReadsLatest, add_rq-add_wq}
use speculative_cache_hierar.Dram.Schedule.{reads, schedule, reset_remain_requests}
use speculative_cache_hierar.Dram.Schedule.Choice.{Schedules, schedule-Schedules}
use speculative_cache_hierar.Dram.Process.{switch_mode}
use speculative_cache_hierar.Dram.Process.Modes.{Serves, switch_mode-Serves}
use speculative_cache_hierar.Tests.{clock, request}

abbrev timing : Timing
timing = record { precharge = 50; row_to_column = 50; column_strobe = 50; return_time = 8 }

abbrev above : Uppers (List Packet)
above = record {
  return_icache = λ cpu p w. some (p ∷ w);
  return_dcache = λ cpu p w. some (p ∷ w);
  is_warming_up = λ w. false;
}

dram_place_example :
    (dram_get_bank 12345 < dram_banks)
    × (dram_get_column 12345 < 128)
    × (dram_get_row 12345 < 65536)
    × (dram_get_row 12345 * 2 ^ 10 + dram_get_column 12345 * 2 ^ 3 + dram_get_bank 12345
        ≡ 12345 % 2 ^ 26)
dram_place_example = dram_place 12345

-- A read of block 3 waits, and a write.
abbrev reading : Dram
reading = record Dram.new { rq = added Dram.new.rq (request 3) }

abbrev writing : Dram
writing = record Dram.new { wq = added Dram.new.wq (request 3) }

schedule-Schedules_example :
    Schedules clock timing reads reading (schedule clock timing reads reading)
unfolding Dram.new PacketQueue.new
schedule-Schedules_example = schedule-Schedules clock timing reads reading refl refl

writing-HasRoom : HasRoom writing.wq
unfolding Dram.new PacketQueue.new
writing-HasRoom = record { sized = refl; allocated = refl; free = (1, omega arith, refl) }

add_rq-add_wq_example : ReadsLatest above writing [] (request 5) (request 5)
unfolding Dram.new PacketQueue.new
add_rq-add_wq_example =
    add_rq-add_wq above writing [] (request 5) (request 5) writing-HasRoom (omega arith) refl refl

abbrev turned : Dram
turned = elim (switch_mode clock timing writing) [ none ↦ writing | some d ↦ d ]

switch_mode-Serves_example :
    Serves turned
    × (turned.rq.occupancy ≡ writing.rq.occupancy)
    × (turned.wq.occupancy ≡ writing.wq.occupancy)
unfolding Dram.new PacketQueue.new switch_mode reset_remain_requests
switch_mode-Serves_example = switch_mode-Serves clock timing writing turned refl
