-- ===== src/Pipeline.antt =====
-- inc/ooo_cpu.h: the state of a core, `O3_CPU`, what lies around it, and the loops over its buffers.
pub mod Memory
pub mod Forward
pub mod Translation
pub mod CodePrefetch
pub mod Ring
pub mod Older
pub mod Buffers
pub mod Fetch
pub mod Schedule
pub mod Execute
pub mod Lsq
pub mod Store
pub mod Complete
pub mod Retire
use Prim.Native.String.{String}
use speculative_cache_hierar.Prelude.{
  ℕ, zero, suc, ◌+◌, ◌-◌, ◌*◌, ℤ, pos, negsuc, Bool, true, false, Option, List, [], ◌∷◌, ◌++◌, leb,
  ltb, ◌==◌, if◌then◌else◌, get_or, set, replicate, inc_u32, uint64_max, uint32_max,
}
use speculative_cache_hierar.Instr.{
  CoreBuffer, Instr, arch_instr, edit_instr, empty_instr, instr_at, new_buffer,
  num_instr_destinations_sparc, num_instr_sources,
}
use speculative_cache_hierar.ReadyList.{
  LoadStoreQueue, LsqEntry, ReadyList, edit_lsq, empty_lsq_entry, first_ready, lsq_at, new_lsq,
  new_ready, next, next_eq, pop_ready, push_ready,
}
use speculative_cache_hierar.Cache.{Neighbours}
use speculative_cache_hierar.SpecUpdate.{ArchInstr, Core}

-- `O3_CPU`. The caches that it calls, and its number, are in `caches`.
pub record O3Cpu : Type 0 where
  pub caches : Core
  pub completed_executions : ℕ
  pub num_retired : ℕ
  pub inflight_reg_executions : ℕ
  pub inflight_mem_executions : ℕ
  pub num_searched : ℕ
  pub fetch_stall : Bool
  pub fetch_resume_cycle : ℕ
  pub ifetch_buffer : CoreBuffer
  pub decode_buffer : CoreBuffer
  pub rob : CoreBuffer
  pub lq : LoadStoreQueue
  pub sq : LoadStoreQueue
  pub sta : ReadyList
  pub rte0 : ReadyList
  pub rte1 : ReadyList
  pub rtl0 : ReadyList
  pub rtl1 : ReadyList
  pub rts0 : ReadyList
  pub rts1 : ReadyList

-- `FETCH_WIDTH`, `DECODE_WIDTH` and `EXEC_WIDTH` are 6, `LQ_WIDTH` and `SQ_WIDTH` 2.
abbrev pub width : ℕ
width = 6

abbrev pub lsq_width : ℕ
lsq_width = 2

-- `SCHEDULER_SIZE`.
abbrev pub scheduler_size : ℕ
scheduler_size = 128

-- The constructor, for queues of `ROB_SIZE`, `LQ_SIZE` and `SQ_SIZE`.
abbrev pub new_core : ℕ → ℕ → ℕ → Core → O3Cpu
new_core rob_size lq_size sq_size caches = record {
  caches = caches;
  completed_executions = 0;
  num_retired = 0;
  inflight_reg_executions = 0;
  inflight_mem_executions = 0;
  num_searched = 0;
  fetch_stall = false;
  fetch_resume_cycle = 0;
  ifetch_buffer = new_buffer (width * 2);
  decode_buffer = new_buffer (width * 3);
  rob = new_buffer rob_size;
  lq = new_lsq lq_size;
  sq = new_lsq sq_size;
  sta = new_ready (rob_size * num_instr_destinations_sparc) uint64_max;
  rte0 = new_ready rob_size rob_size;
  rte1 = new_ready rob_size rob_size;
  rtl0 = new_ready lq_size lq_size;
  rtl1 = new_ready lq_size lq_size;
  rts0 = new_ready sq_size sq_size;
  rts1 = new_ready sq_size sq_size;
}

-- The global variables that the core reads: `current_core_cycle`, `warmup_complete`,
-- `MAX_INSTR_DESTINATIONS`, `knob_cloudsuite` and the three latencies.
pub record Setting : Type 0 where
  pub clock : ℕ → ℕ
  pub warmup_complete : ℕ → Bool
  pub max_instr_destinations : ℕ
  pub cloudsuite : Bool
  pub scheduling_latency : ℕ
  pub exec_latency : ℕ
  pub decode_latency : ℕ

abbrev pub now : Setting → O3Cpu → ℕ
now g c = g.clock c.caches.cpu

-- A core that runs, and everything else.
pub record Running (W : Type 0) : Type 0 where
  pub core : O3Cpu
  pub world : W

-- What lies around the first-level caches, and `va_to_pa(cpu, instr_id, va, unique_vpage, 1)`, which may
-- invalidate entries of the caches.
pub record Surroundings (W : Type 0) : Type 0 where
  pub itlb : Neighbours W
  pub dtlb : Neighbours W
  pub l1i : Neighbours W
  pub l1d : Neighbours W
  pub va_to_pa : ℕ → ℕ → ℕ → ℕ → Running W → Option (ℕ × Running W)

-- The answer -2 of `add_rq`.
abbrev pub is_refused : ℤ → Bool
is_refused (pos n) = false
is_refused (negsuc n) = n == 1

abbrev pub edit_rob : ℕ → (Instr → Instr) → O3Cpu → O3Cpu
edit_rob i f c = record c { rob = edit_instr i f c.rob }

abbrev pub edit_lq : ℕ → (LsqEntry → LsqEntry) → O3Cpu → O3Cpu
edit_lq i f c = record c { lq = edit_lsq i f c.lq }

abbrev pub edit_sq : ℕ → (LsqEntry → LsqEntry) → O3Cpu → O3Cpu
edit_sq i f c = record c { sq = edit_lsq i f c.sq }

-- `from`, `from + 1`, …, and `from`, `from - 1`, …: the indices of `count` rounds.
pub upwards : ℕ → ℕ → List ℕ
upwards from zero = []
upwards from (suc count) = from ∷ upwards (from + 1) count

pub downwards : ℕ → ℕ → List ℕ
downwards from zero = []
downwards from (suc count) = from ∷ downwards (from - 1) count

-- The loops over a part of a ring from `head` up to `limit`: one, or two where it goes round the end.
unfoldable pub window : ℕ → ℕ → ℕ → List ℕ
unfolding upwards
window head limit size =
    if ltb head limit
    then upwards head (limit - head)
    else upwards head (size - head) ++ upwards 0 limit

-- The loops down from `index - 1` to `head`.
unfoldable pub older : ℕ → ℕ → ℕ → List ℕ
unfolding downwards
older head index size =
    let prior = if index == 0 then size - 1 else index - 1 in
    if index == head
    then []
    else if leb head prior
    then downwards prior (prior + 1 - head)
    else downwards prior (prior + 1) ++ downwards (size - 1) (size - head)
