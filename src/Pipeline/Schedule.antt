-- ===== src/Pipeline/Schedule.antt =====
-- The scheduling of src/ooo_cpu.cc: `schedule_instruction`, `do_scheduling`, `reg_dependency` and
-- `reg_RAW_dependency`.
pub mod Effects
pub mod Producers
pub mod Youngest
pub mod Counts
use speculative_cache_hierar.Prelude.{
  ℕ, zero, suc, ◌+◌, ◌-◌, inc_ℤ, Bool, true, false, not, ◌&&◌, ◌||◌, Option, none, some, List, [],
  ◌∷◌, ltb, leb, ◌==◌, if◌then◌else◌, get_or, set, check, ◌>>=◌, ◌>>◌, inc_u32, add_u64,
}
use speculative_cache_hierar.FastSet
use speculative_cache_hierar.Packet.{inflight, completed}
use speculative_cache_hierar.Pipeline.{O3Cpu, Setting, now, window, older, scheduler_size}
use speculative_cache_hierar.Instr.{Instr, CoreBuffer, instr_at, edit_instr, num_instr_sources}
use speculative_cache_hierar.ReadyList.{ReadyList, push_ready}

-- The loop over the destinations `i`, `i + 1`, … of an instruction: is the register among them?
unfoldable pub writes_from : ℕ → ℕ → List ℕ → ℕ → Bool
writes_from i zero registers r = false
writes_from i (suc left) registers r =
    let d = get_or registers i 0 in not (d == 0) && d == r || writes_from (i + 1) left registers r

unfoldable pub writes : ℕ → Instr → ℕ → Bool
unfolding writes_from
writes max_destinations e r = writes_from 0 max_destinations e.destination_registers r

-- What a dependency of source `j` of instruction `current` leaves in the producer and in the consumer.
unfoldable pub as_producer : ℕ → ℕ → Instr → Instr
as_producer current j e = record e {
  registers_instrs_depend_on_me = FastSet.insert current e.registers_instrs_depend_on_me;
  registers_index_depend_on_me =
      set e.registers_index_depend_on_me j
        (FastSet.insert current (get_or e.registers_index_depend_on_me j FastSet.empty));
  reg_raw_producer = true;
}

unfoldable pub as_consumer : ℕ → ℕ → Instr → Instr
as_consumer producer_id j e = record e {
  reg_ready = false;
  producer_id = producer_id;
  num_reg_dependent = inc_ℤ e.num_reg_dependent;
  reg_raw_checked = set e.reg_raw_checked j true;
}

unfoldable pub reg_raw_dependency : ℕ → ℕ → ℕ → ℕ → CoreBuffer → CoreBuffer
unfolding as_producer as_consumer
reg_raw_dependency max_destinations prior current j b =
    if writes max_destinations (instr_at b prior) (get_or (instr_at b current).source_registers j 0)
    then edit_instr current (as_consumer (instr_at b prior).instr_id j)
        (edit_instr prior (as_producer current j) b)
    else b

-- The inner loop of `reg_dependency`, over the sources from `j` on.
unfoldable pub depend_sources : ℕ → ℕ → ℕ → ℕ → ℕ → CoreBuffer → CoreBuffer
unfolding reg_raw_dependency
depend_sources max_destinations prior current j zero b = b
depend_sources max_destinations prior current j (suc left) b =
    let e = instr_at b current in
    let waits =
      not (get_or e.source_registers j 0 == 0) && not (get_or e.reg_raw_checked j false) in
    depend_sources max_destinations prior current (j + 1) left
      (if waits then reg_raw_dependency max_destinations prior current j b else b)

-- The outer loops, over the older instructions.
unfoldable pub depend_on : ℕ → ℕ → List ℕ → CoreBuffer → CoreBuffer
unfolding depend_sources
depend_on max_destinations current [] b = b
depend_on max_destinations current (i ∷ is) b = depend_on max_destinations current is (
    if (instr_at b i).executed == completed
    then b
    else depend_sources max_destinations i current 0 num_instr_sources b)

unfoldable pub reg_dependency : ℕ → ℕ → CoreBuffer → CoreBuffer
unfolding depend_on older
reg_dependency max_destinations rob_index b =
    depend_on max_destinations rob_index (older b.head rob_index b.size) b

-- "ADD LATENCY".
abbrev pub later : ℕ → ℕ → ℕ → ℕ
later cycle latency event = add_u64 (if ltb event cycle then cycle else event) latency

-- The number goes to a Ready-To-Execute array, whose tail must be free.
abbrev pub push_checked : ℕ → ReadyList → Option ReadyList
push_checked x r =
    check (not (ltb (get_or r.slots r.tail r.unused) r.unused)) >> some (push_ready x r)

module _ (g : Setting) where
  unfoldable pub do_scheduling : ℕ → O3Cpu → Option O3Cpu
  unfolding reg_dependency
  do_scheduling i c =
      let b =
        reg_dependency g.max_instr_destinations i
          (edit_instr i (λ e. record e { reg_ready = true }) c.rob) in
      let b' = record b { next_schedule = if i == b.size - 1 then 0 else i + 1 } in
      let rob =
        edit_instr i
          (λ e. record e {
            scheduled = completed;
            event_cycle = later (now g c) g.scheduling_latency e.event_cycle;
          })
          b' in
      if (instr_at b' i).is_memory
      then some (record c { rob = edit_instr i (λ e. record e { scheduled = inflight }) b' })
      else if (instr_at rob i).reg_ready
      then (push_checked i c.rte1 >>= λ rte1. some (record c { rob = rob; rte1 = rte1 }))
      else some (record c { rob = rob })

  -- The loops of `schedule_instruction` over the indices that are left.
  unfoldable pub schedule_all : List ℕ → O3Cpu → Option O3Cpu
  unfolding do_scheduling
  schedule_all [] c = some c
  schedule_all (i ∷ is) c =
      let e = instr_at c.rob i in
      let stops =
        not (e.fetched == completed)
        || not (leb e.event_cycle (now g c))
        || leb scheduler_size c.num_searched in
      elim stops [
        | true ↦ some c
        | false ↦ (if e.scheduled == 0 then do_scheduling i c else some c) >>= λ c'.
            schedule_all is (record c' { num_searched = inc_u32 c'.num_searched })
      ]

  unfoldable pub schedule_instruction : O3Cpu → Option O3Cpu
  unfolding schedule_all
  schedule_instruction c =
      if c.rob.head == c.rob.tail && c.rob.occupancy == 0
      then some c
      else schedule_all (window c.rob.head c.rob.next_fetch c.rob.size)
          (record c { num_searched = 0 })
