-- ===== src/Pipeline/Memory.antt =====
-- `schedule_memory_instruction` and `do_memory_scheduling` of src/ooo_cpu.cc.
use speculative_cache_hierar.Prelude.{
  ℕ, ◌-◌, true, false, not, ◌&&◌, ◌||◌, Option, some, List, [], ◌∷◌, ltb, leb, ◌==◌, if◌then◌else◌,
  when, ◌>>=◌, inc_u32,
}
use speculative_cache_hierar.Packet.{inflight, completed}
use speculative_cache_hierar.Pipeline.{O3Cpu, Setting, now, edit_rob, upwards, scheduler_size}
use speculative_cache_hierar.Instr.{instr_at}
use speculative_cache_hierar.Pipeline.Lsq.{check_and_add_lsq}

module _ (g : Setting) where
  unfoldable pub do_memory_scheduling : ℕ → O3Cpu → Option O3Cpu
  unfolding check_and_add_lsq
  do_memory_scheduling i c = check_and_add_lsq g i c >>= λ added.
      (let c = added.1 in
        let c' =
          if added.0 == 0
          then edit_rob i
              (λ e. record e {
                scheduled = completed;
                executed = if e.executed == 0 then inflight else e.executed;
              })
              c
          else c in
        some (record c' { num_searched = inc_u32 c'.num_searched }))

  -- One loop of `schedule_memory_instruction`.
  unfoldable pub schedule_memory : List ℕ → O3Cpu → Option O3Cpu
  unfolding do_memory_scheduling
  schedule_memory [] c = some c
  schedule_memory (i ∷ is) c =
      let e = instr_at c.rob i in
      let stops =
        not (e.fetched == completed)
        || not (leb e.event_cycle (now g c))
        || leb scheduler_size c.num_searched in
      elim (e.is_memory && stops) [
        | true ↦ some c
        | false ↦
            when (e.is_memory && e.reg_ready && e.scheduled == inflight) (do_memory_scheduling i) c
            >>= λ c'. schedule_memory is c'
      ]

  -- Where the ring goes round its end there are two loops, and the first does not stop the second.
  unfoldable pub schedule_memory_instruction : O3Cpu → Option O3Cpu
  unfolding schedule_memory
  schedule_memory_instruction c =
      let limit = c.rob.next_schedule in
      let c' = record c { num_searched = 0 } in
      if c.rob.head == c.rob.tail && c.rob.occupancy == 0
      then some c
      else if ltb c.rob.head limit
      then schedule_memory (upwards c.rob.head (limit - c.rob.head)) c'
      else schedule_memory (upwards c.rob.head (c.rob.size - c.rob.head)) c' >>= λ c''.
          schedule_memory (upwards 0 limit) c''
