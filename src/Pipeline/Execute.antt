-- ===== src/Pipeline/Execute.antt =====
-- The execution of src/ooo_cpu.cc: `execute_instruction`, `do_execution`, `complete_execution` and
-- `reg_RAW_release`.
pub mod Release
use speculative_cache_hierar.Prelude.{
  ℕ, zero, suc, ◌+◌, ◌-◌, dec_ℤ, is_zero_ℤ, true, false, not, ◌&&◌, Option, some, List, [], ◌∷◌,
  ltb, leb, ◌==◌, if◌then◌else◌, get_or, when, ◌>>=◌, inc_u32, dec_u32, inc_u64, add_u64,
}
use speculative_cache_hierar.FastSet
use speculative_cache_hierar.Packet.{inflight, completed}
use speculative_cache_hierar.Pipeline.{O3Cpu, Setting, now, edit_rob, width}
use speculative_cache_hierar.Instr.{instr_at, num_instr_sources}
use speculative_cache_hierar.ReadyList.{ReadyList, pop_ready, first_ready}
use speculative_cache_hierar.Pipeline.Schedule.{later, push_checked}

-- RTE0 and RTE1.
pub data Ready : Type 0 where
  rte0 rte1 : Ready

abbrev pub ready_of : Ready → O3Cpu → ReadyList
ready_of rte0 c = c.rte0
ready_of rte1 c = c.rte1

abbrev pub with_ready : Ready → ReadyList → O3Cpu → O3Cpu
with_ready rte0 r c = record c { rte0 = r }
with_ready rte1 r c = record c { rte1 = r }

-- An instruction that waited for its last register.
unfoldable pub release_consumer : ℕ → O3Cpu → Option O3Cpu
release_consumer i c =
    let counted = edit_rob i (λ e. record e { num_reg_dependent = dec_ℤ e.num_reg_dependent }) c in
    let e = instr_at counted.rob i in
    if not (is_zero_ℤ e.num_reg_dependent)
    then some counted
    else if e.is_memory
    then some (edit_rob i (λ e. record e { reg_ready = true; scheduled = inflight }) counted)
    else push_checked i c.rte0 >>= λ r.
        some
          (record (edit_rob i (λ e. record e { reg_ready = true; scheduled = completed }) counted) {
            rte0 = r;
          })

-- The loop over the sources from `j` on of a consumer `i` of `producer`.
unfoldable pub release_sources : ℕ → ℕ → ℕ → ℕ → O3Cpu → Option O3Cpu
unfolding release_consumer
release_sources producer i j zero c = some c
release_sources producer i j (suc left) c =
    let consumers = get_or (instr_at c.rob producer).registers_index_depend_on_me j FastSet.empty in
    when (FastSet.search i consumers) (release_consumer i) c >>= λ c'.
    release_sources producer i (j + 1) left c'

unfoldable pub release_all : ℕ → List ℕ → O3Cpu → Option O3Cpu
unfolding release_sources
release_all producer [] c = some c
release_all producer (i ∷ is) c =
    release_sources producer i 0 num_instr_sources c >>= λ c'. release_all producer is c'

-- `ITERATE_SET` goes over the members that the set has at the start.
unfoldable pub reg_raw_release : ℕ → O3Cpu → Option O3Cpu
unfolding release_all
reg_raw_release i c =
    release_all i (FastSet.expand (instr_at c.rob i).registers_instrs_depend_on_me c.rob.size) c

module _ (g : Setting) where
  unfoldable pub do_execution : ℕ → O3Cpu → O3Cpu
  do_execution i c =
      record (edit_rob i
        (λ e. record e {
          executed = inflight;
          event_cycle = later (now g c) g.exec_latency e.event_cycle;
        })
        c) { inflight_reg_executions = inc_u32 c.inflight_reg_executions }

  -- One of the two loops: `rounds` are left, and `count` instructions may still be issued. What is
  -- not due stays at the head.
  unfoldable pub issue_ready : Ready → ℕ → ℕ → O3Cpu → ℕ × O3Cpu
  unfolding do_execution
  issue_ready which zero count c = (count, c)
  issue_ready which (suc rounds) zero c = (zero, c)
  issue_ready which (suc rounds) (suc count) c =
      let i = first_ready (ready_of which c) in
      elim (ltb i (ready_of which c).unused) [
        | true ↦ elim (leb (instr_at c.rob i).event_cycle (now g c)) [
          | true ↦
              issue_ready which rounds count
                (with_ready which (pop_ready (ready_of which c)) (do_execution i c))
          | false ↦ issue_ready which rounds (suc count) c
        ]
        | false ↦ (suc count, c)
      ]

  unfoldable pub execute_instruction : O3Cpu → O3Cpu
  unfolding issue_ready
  execute_instruction c =
      if c.rob.head == c.rob.tail && c.rob.occupancy == 0
      then c
      else let (left, c') = issue_ready rte0 (c.rte0.size - 1) width c in
        (issue_ready rte1 (c.rte1.size - 1) left c').1

  -- The completion of an instruction in flight that is due.
  unfoldable pub complete_instr : ℕ → O3Cpu → Option O3Cpu
  unfolding reg_raw_release
  complete_instr i c = do
    let c = record (edit_rob i (λ e. record e { executed = completed }) c) {
      completed_executions = inc_u64 c.completed_executions;
    }
    c ← when (instr_at c.rob i).reg_raw_producer (reg_raw_release i) c
    some (
        if (instr_at c.rob i).branch_mispredicted
        then record c { fetch_resume_cycle = add_u64 (now g c) 1 }
        else c)

  unfoldable pub complete_execution : ℕ → O3Cpu → Option O3Cpu
  unfolding complete_instr
  complete_execution i c =
      let e = instr_at c.rob i in
      if not (e.executed == inflight && leb e.event_cycle (now g c))
      then some c
      else if not e.is_memory
      then complete_instr i
          (record c { inflight_reg_executions = dec_u32 c.inflight_reg_executions })
      else if is_zero_ℤ e.num_mem_ops
      then complete_instr i
          (record c { inflight_mem_executions = dec_u32 c.inflight_mem_executions })
      else some c

  unfoldable pub complete_all : List ℕ → O3Cpu → Option O3Cpu
  unfolding complete_execution
  complete_all [] c = some c
  complete_all (i ∷ is) c = complete_execution i c >>= λ c'. complete_all is c'
