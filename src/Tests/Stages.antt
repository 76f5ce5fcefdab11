-- ===== src/Tests/Stages.antt =====
-- The stages of a core on small buffers.
use mathlib.Core.Option
use speculative_cache_hierar.Prelude.{ℕ, ◌≡◌, refl, true, false, some, [], ◌∷◌, arith, drop}
use speculative_cache_hierar.Packet.{completed}
use speculative_cache_hierar.Cache.Commit.{commit_width}
use speculative_cache_hierar.Cache
use speculative_cache_hierar.SpecUpdate.{Core, update_spec_blocks}
use speculative_cache_hierar.PacketQueue.{check_queue}
use speculative_cache_hierar.Cache.Requests.{enqueue}
use speculative_cache_hierar.Cache.Writes.{add_cq}
use speculative_cache_hierar.Pipeline.{O3Cpu, new_core, Setting, width}
use speculative_cache_hierar.Instr.{Instr, empty_instr, CoreBuffer, new_buffer}
use speculative_cache_hierar.Pipeline.Buffers.{decode_and_dispatch}
use speculative_cache_hierar.Pipeline.Buffers.Decode.{Keeps}
use speculative_cache_hierar.Pipeline.Buffers.Order.{Holds, added, added-Holds, new_buffer-Holds}
use speculative_cache_hierar.Pipeline.Buffers.Dispatch.{Dispatches, decode_and_dispatch-Dispatches}
use speculative_cache_hierar.Pipeline.Retire.{retire_rob}
use speculative_cache_hierar.Pipeline.Retire.InOrder.{Outcome, retire_rob-InOrder}
use speculative_cache_hierar.Tests.{clock, small_cache}

abbrev pub setting : Setting
setting = record {
  clock = clock;
  warmup_complete = λ cpu. true;
  max_instr_destinations = 2;
  cloudsuite = false;
  scheduling_latency = 0;
  exec_latency = 0;
  decode_latency = 2;
}

abbrev caches : Core
caches = record {
  cpu = 0;
  itlb = small_cache;
  dtlb = small_cache;
  l1i = small_cache;
  l1d = small_cache;
}

-- Queues of four.
abbrev pub idle_core : O3Cpu
idle_core = new_core 4 4 4 caches

-- Instruction `id`, at address 4160.
abbrev pub instr : ℕ → Instr
instr id = record empty_instr { instr_id = id; ip = 4160; instruction_pa = 4096 }

-- Two decoded instructions.
abbrev decoded : CoreBuffer
decoded = added 60 (instr 2) (added 50 (instr 1) (new_buffer 18))

decoded-Holds : Holds decoded (instr 1 ∷ instr 2 ∷ [])
decoded-Holds =
    added-Holds (added 50 (instr 1) (new_buffer 18)) (instr 1 ∷ [])
      (added-Holds (new_buffer 18) [] (new_buffer-Holds 18 (omega arith) (omega arith)) 50 (instr 1)
        (omega arith, omega arith) (omega arith))
      60 (instr 2) (omega arith, omega arith) (omega arith)

abbrev decoding_core : O3Cpu
decoding_core = record idle_core { decode_buffer = decoded }

decode_and_dispatch-Dispatches_example :
    (c₁ : O3Cpu) × (c' : O3Cpu) × (decode_and_dispatch setting decoding_core ≡ some c')
    × (r : Dispatches setting (instr 1 ∷ instr 2 ∷ []) [] width decoding_core c₁) × Keeps
        (drop r.moved (instr 1 ∷ instr 2 ∷ []))
        c₁
        c'
decode_and_dispatch-Dispatches_example =
    decode_and_dispatch-Dispatches setting decoding_core (instr 1 ∷ instr 2 ∷ []) [] (omega arith)
      decoded-Holds (new_buffer-Holds 4 (omega arith) (omega arith))

-- Two instructions in the reorder buffer, of which the older is executed.
abbrev retiring_core : O3Cpu
retiring_core = record idle_core {
  rob = added 60 (instr 2) (added 50 (record (instr 1) { executed = completed }) (new_buffer 4));
}

retiring-Holds : Holds retiring_core.rob (record (instr 1) { executed = completed } ∷ instr 2 ∷ [])
retiring-Holds =
    added-Holds (added 50 (record (instr 1) { executed = completed }) (new_buffer 4))
      (record (instr 1) { executed = completed } ∷ [])
      (added-Holds (new_buffer 4) [] (new_buffer-Holds 4 (omega arith) (omega arith)) 50
        (record (instr 1) { executed = completed }) (omega arith, omega arith) (omega arith))
      60 (instr 2) (omega arith, omega arith) (omega arith)

retire_rob-InOrder_example :
    Outcome setting
      (record (instr 1) { executed = completed } ∷ instr 2 ∷ [])
      commit_width
      retiring_core
      (retire_rob setting retiring_core)
retire_rob-InOrder_example =
    retire_rob-InOrder setting retiring_core
      (record (instr 1) { executed = completed } ∷ instr 2 ∷ []) retiring-Holds

-- The older one retires, and the other is left.
retire_rob-retires :
    Option.map (λ (c : O3Cpu). c.rob.occupancy) (retire_rob setting retiring_core) ≡ some 1
unfolding retire_rob update_spec_blocks add_cq check_queue enqueue Cache.new
retire_rob-retires = refl
