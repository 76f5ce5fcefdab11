-- ===== src/Pipeline/Forward.antt =====
-- `execute_store` of src/ooo_cpu.cc, which gives its data to the loads that wait for it.
use speculative_cache_hierar.Prelude.{
  ℕ, zero, suc, ◌+◌, ◌-◌, false, not, ◌&&◌, Option, some, List, [], ◌∷◌, ltb, ◌==◌, if◌then◌else◌,
  get_or, check, when, ◌>>=◌, ◌>>◌,
}
use speculative_cache_hierar.FastSet
use speculative_cache_hierar.Packet.{completed}
use speculative_cache_hierar.Pipeline.{O3Cpu, Setting, now, edit_rob, edit_lq, edit_sq}
use speculative_cache_hierar.Instr.{instr_at, num_instr_sources}
use speculative_cache_hierar.ReadyList.{lsq_at}
use speculative_cache_hierar.Pipeline.Lsq.{finish_mem_op, release_load_queue, forward_data}

-- A load at `lq_index` that waits for the store gets its data.
unfoldable pub release_load : Setting → ℕ → ℕ → O3Cpu → Option O3Cpu
unfolding finish_mem_op release_load_queue
release_load g sq_index lq_index c =
    let s = lsq_at c.sq sq_index in
    let c' = edit_lq lq_index (λ l. record (forward_data s l) { event_cycle = now g c }) c in
    check (ltb lq_index c.lq.size)
    >> check ((lsq_at c.lq lq_index).producer_id == s.instr_id)
    >> finish_mem_op (now g c) (lsq_at c'.lq lq_index).rob_index c'
    >>= λ c''. some (release_load_queue lq_index c'')

-- The loop over the sources from `j` on of the instruction at `dependent`. After the last source it
-- is put in the set again that it is in already.
unfoldable pub release_loads : Setting → ℕ → ℕ → ℕ → ℕ → ℕ → O3Cpu → Option O3Cpu
unfolding release_load
release_loads g rob_index sq_index dependent j zero c = some c
release_loads g rob_index sq_index dependent j (suc left) c =
    let e = instr_at c.rob dependent in
    let address = get_or e.source_memory j 0 in
    let depends =
      not (address == 0)
      && get_or e.source_added j false
      && address == (lsq_at c.sq sq_index).virtual_address in
    when depends
      (λ c. release_load g sq_index (get_or e.lq_index j 0) c >>= λ c'. some (
        if j == num_instr_sources - 1
        then edit_rob rob_index
            (λ e. record e {
              memory_instrs_depend_on_me = FastSet.insert dependent e.memory_instrs_depend_on_me;
            })
            c'
        else c'))
      c
    >>= λ c'. release_loads g rob_index sq_index dependent (j + 1) left c'

unfoldable pub release_dependents : Setting → ℕ → ℕ → List ℕ → O3Cpu → Option O3Cpu
unfolding release_loads
release_dependents g rob_index sq_index [] c = some c
release_dependents g rob_index sq_index (i ∷ is) c =
    release_loads g rob_index sq_index i 0 num_instr_sources c >>= λ c'.
    release_dependents g rob_index sq_index is c'

unfoldable pub execute_store : Setting → ℕ → ℕ → O3Cpu → Option O3Cpu
unfolding finish_mem_op release_dependents
execute_store g rob_index sq_index c =
    finish_mem_op (now g c) rob_index
      (edit_sq sq_index (λ s. record s { fetched = completed; event_cycle = now g c }) c)
    >>= λ c'.
        (let e = instr_at c'.rob rob_index in
          when e.is_producer
            (release_dependents g rob_index sq_index
              (FastSet.expand e.memory_instrs_depend_on_me c'.rob.size))
            c')
