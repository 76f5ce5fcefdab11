-- ===== src/Instr.antt =====
-- inc/instruction.h and inc/block.h: an instruction in the core, `ooo_model_instr`, and the buffers that
-- hold instructions, `CORE_BUFFER`.
pub mod Edits
use speculative_cache_hierar.Prelude.{
  ℕ, ℤ, pos, Bool, false, List, get_or, set, replicate, uint32_max,
}
use speculative_cache_hierar.FastSet
use speculative_cache_hierar.FastSet.{FastSet}
use speculative_cache_hierar.SpecUpdate.{ArchInstr}

-- `NUM_INSTR_SOURCES`, `NUM_INSTR_DESTINATIONS_SPARC`.
abbrev pub num_instr_sources : ℕ
num_instr_sources = 4

abbrev pub num_instr_destinations_sparc : ℕ
num_instr_destinations_sparc = 4

-- `ooo_model_instr`, as far as the stages of the core read it. `translated`, `fetched`, `scheduled` and
-- `executed` are 0, `inflight` or `completed`. An array is the list of its members.
pub record Instr : Type 0 where
  pub instr_id : ℕ
  pub ip : ℕ
  pub producer_id : ℕ
  pub event_cycle : ℕ
  pub is_memory : Bool
  pub branch_mispredicted : Bool
  pub translated : ℕ
  pub fetched : ℕ
  pub scheduled : ℕ
  pub executed : ℕ
  pub source_added : List Bool
  pub destination_added : List Bool
  pub is_producer : Bool
  pub reg_raw_producer : Bool
  pub reg_ready : Bool
  pub reg_raw_checked : List Bool
  pub asid0 : ℕ
  pub asid1 : ℕ
  pub num_mem_ops : ℤ
  pub num_reg_dependent : ℤ
  pub destination_registers : List ℕ
  pub source_registers : List ℕ
  pub registers_instrs_depend_on_me : FastSet
  pub registers_index_depend_on_me : List FastSet
  pub memory_instrs_depend_on_me : FastSet
  pub instruction_pa : ℕ
  pub destination_memory : List ℕ
  pub source_memory : List ℕ
  pub destination_virtual_address : List ℕ
  pub source_virtual_address : List ℕ
  pub destination_physical_address : List ℕ
  pub source_physical_address : List ℕ
  pub lq_index : List ℕ
  pub sq_index : List ℕ

-- The constructor.
abbrev pub empty_instr : Instr
empty_instr = record {
  instr_id = 0;
  ip = 0;
  producer_id = 0;
  event_cycle = 0;
  is_memory = false;
  branch_mispredicted = false;
  translated = 0;
  fetched = 0;
  scheduled = 0;
  executed = 0;
  source_added = replicate num_instr_sources false;
  destination_added = replicate num_instr_destinations_sparc false;
  is_producer = false;
  reg_raw_producer = false;
  reg_ready = false;
  reg_raw_checked = replicate num_instr_sources false;
  asid0 = 255;
  asid1 = 255;
  num_mem_ops = pos 0;
  num_reg_dependent = pos 0;
  destination_registers = replicate num_instr_destinations_sparc 0;
  source_registers = replicate num_instr_sources 0;
  registers_instrs_depend_on_me = FastSet.empty;
  registers_index_depend_on_me = replicate num_instr_sources FastSet.empty;
  memory_instrs_depend_on_me = FastSet.empty;
  instruction_pa = 0;
  destination_memory = replicate num_instr_destinations_sparc 0;
  source_memory = replicate num_instr_sources 0;
  destination_virtual_address = replicate num_instr_destinations_sparc 0;
  source_virtual_address = replicate num_instr_sources 0;
  destination_physical_address = replicate num_instr_destinations_sparc 0;
  source_physical_address = replicate num_instr_sources 0;
  lq_index = replicate num_instr_sources uint32_max;
  sq_index = replicate num_instr_destinations_sparc uint32_max;
}

-- What `update_spec_blocks` is given of an instruction.
abbrev pub arch_instr : Instr → ArchInstr
arch_instr e = record {
  instr_id = e.instr_id;
  ip = e.ip;
  instruction_pa = e.instruction_pa;
  source_virtual_address = e.source_virtual_address;
  destination_virtual_address = e.destination_virtual_address;
  source_physical_address = e.source_physical_address;
  destination_physical_address = e.destination_physical_address;
}

-- `CORE_BUFFER`, with the members that the core uses; `next_fetch` is `next_fetch[1]`.
pub record CoreBuffer : Type 0 where
  pub size : ℕ
  pub head : ℕ
  pub tail : ℕ
  pub occupancy : ℕ
  pub next_fetch : ℕ
  pub next_schedule : ℕ
  pub entry : List Instr

abbrev pub new_buffer : ℕ → CoreBuffer
new_buffer size = record {
  size = size;
  head = 0;
  tail = 0;
  occupancy = 0;
  next_fetch = 0;
  next_schedule = 0;
  entry = replicate size empty_instr;
}

-- `buffer.entry[i]` and an assignment to it.
abbrev pub instr_at : CoreBuffer → ℕ → Instr
instr_at b i = get_or b.entry i empty_instr

abbrev pub edit_instr : ℕ → (Instr → Instr) → CoreBuffer → CoreBuffer
edit_instr i f b = record b { entry = set b.entry i (f (instr_at b i)) }
