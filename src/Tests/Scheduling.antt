-- ===== src/Tests/Scheduling.antt =====
-- The scheduling of a core and its load and store queues, on small buffers.
use speculative_cache_hierar.Prelude.{
  ℕ, zero, suc, ◌≡◌, ◌≢◌, refl, true, false, Option, some, [], ◌∷◌, arith, length, uint64_max,
}
use speculative_cache_hierar.FastSet
use speculative_cache_hierar.Pipeline.{O3Cpu, older}
use speculative_cache_hierar.Instr.{Instr, CoreBuffer, new_buffer, instr_at, num_instr_sources}
use speculative_cache_hierar.ReadyList.{new_ready, push_ready}
use speculative_cache_hierar.PacketQueue.Ring.{slot}
use speculative_cache_hierar.Pipeline.Older.{LastOf}
use speculative_cache_hierar.Pipeline.Ring.{replicate-RingOf, push-RingOf}
use speculative_cache_hierar.Pipeline.Buffers.Order.{added}
use speculative_cache_hierar.Pipeline.Schedule.{writes, reg_dependency}
use speculative_cache_hierar.Pipeline.Schedule.Effects.{Shaped}
use speculative_cache_hierar.Pipeline.Schedule.Producers.{depends}
use speculative_cache_hierar.Pipeline.Schedule.Youngest.{Waits, reg_dependency-Waits}
use speculative_cache_hierar.Pipeline.Schedule.Counts.{Counts, reg_dependency-Counts}
use speculative_cache_hierar.Pipeline.Execute.{release_sources}
use speculative_cache_hierar.Pipeline.Execute.Release.{
  wake, waiting_for, noted, released, release_sources-released,
}
use speculative_cache_hierar.Pipeline.Lsq.{find_producer, add_stores}
use speculative_cache_hierar.Pipeline.Lsq.Producers.{FindsYoungest, find_producer-FindsYoungest}
use speculative_cache_hierar.Pipeline.Lsq.Stores.{Enters, add_stores-InOrder}
use speculative_cache_hierar.Tests.Stages.{setting, idle_core, instr}

-- Instruction 1 writes register 7 and stores to 640; instruction 2 reads both.
abbrev writer : Instr
writer = record (instr 1) {
  destination_registers = 7 ∷ 0 ∷ 0 ∷ 0 ∷ [];
  destination_memory = 640 ∷ 0 ∷ 0 ∷ 0 ∷ [];
}

abbrev reader : Instr
reader = record (instr 2) {
  source_registers = 7 ∷ 0 ∷ 0 ∷ 0 ∷ [];
  source_memory = 640 ∷ 0 ∷ 0 ∷ 0 ∷ [];
  is_memory = true;
  reg_ready = true;
}

abbrev dependent : CoreBuffer
dependent = added 60 reader (added 50 writer (new_buffer 4))

dependent-Shaped : Shaped 2 1 dependent
dependent-Shaped = record { inside = omega arith; sources = refl; sets = sets }
  where
    sets : (p : ℕ) → length (instr_at dependent p).registers_index_depend_on_me ≡ num_instr_sources
    sets zero = refl
    sets (suc zero) = refl
    sets (suc (suc zero)) = refl
    sets (suc (suc (suc zero))) = refl
    sets (suc (suc (suc (suc p)))) = refl

reg_dependency-Waits_example :
    (o : Option ℕ) × LastOf 1 (λ k. depends 2 1 dependent (slot 0 4 k) 0) o
    × Waits 2 1 0 4 0 o dependent (reg_dependency 2 1 dependent)
reg_dependency-Waits_example =
    reg_dependency-Waits 2 1 0 dependent (omega arith) (omega arith) refl dependent-Shaped
      (omega arith)

reg_dependency-Counts_example : Counts (instr_at (reg_dependency 2 1 dependent) 1)
reg_dependency-Counts_example =
    reg_dependency-Counts 2 1 dependent (omega arith) (omega arith) refl dependent-Shaped
      (record { number = refl; ready = refl })

-- The reader waits for the writer.
reader_waits : (instr_at (reg_dependency 2 1 dependent) 1).reg_ready ≡ false
unfolding reg_dependency writes
reader_waits = refl

abbrev loading_core : O3Cpu
loading_core = record idle_core { rob = dependent }

dependent_ids : (i : ℕ) → (instr_at dependent i).instr_id ≢ uint64_max
dependent_ids zero e = absurd (omega arith)
dependent_ids (suc zero) e = absurd (omega arith)
dependent_ids (suc (suc zero)) e = absurd (omega arith)
dependent_ids (suc (suc (suc zero))) e = absurd (omega arith)
dependent_ids (suc (suc (suc (suc i)))) e = absurd (omega arith)

find_producer-FindsYoungest_example :
    FindsYoungest 2 1 0 3 1 loading_core (find_producer 2 1 0 3 (older 0 1 4) loading_core)
find_producer-FindsYoungest_example =
    find_producer-FindsYoungest 2 1 0 3 loading_core (omega arith) (omega arith) refl (omega arith)
      dependent_ids

-- The store array with the store of instruction 1.
abbrev storing_core : O3Cpu
storing_core = record loading_core { sta = push_ready 1 (new_ready 8 uint64_max) }

add_stores-InOrder_example :
    (k : ℕ) × (c' : O3Cpu) × (add_stores setting 0 0 2 storing_core ≡ some (k, c'))
    × Enters [] (1 ∷ []) storing_core c'
add_stores-InOrder_example =
    add_stores-InOrder setting 0 storing_core [] (1 ∷ [])
      (record {
        ring = replicate-RingOf _ 4 (omega arith) (omega arith);
        count = refl;
        tail_at = refl;
      })
      (
        refl,
        push-RingOf uint64_max 8 0 _ [] 1
            (replicate-RingOf uint64_max 8 (omega arith) (omega arith)) (omega arith),
      )
      (omega arith)

-- The reader has found its producer; the writer is done.
abbrev executed_core : O3Cpu
executed_core = record loading_core { rob = reg_dependency 2 1 dependent }

release_sources-released_example :
    release_sources 0 1 0 num_instr_sources executed_core
    ≡ some (wake 1 (waiting_for 1 0 executed_core))
unfolding reg_dependency writes noted released FastSet.insert FastSet.search
release_sources-released_example =
    release_sources-released 0 1 1 executed_core (omega arith) refl refl (omega arith)
