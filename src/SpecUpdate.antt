-- ===== src/SpecUpdate.antt =====
-- The end of src/ooo_cpu.cc: `update_spec_blocks` and its parts, which tell the first-level caches and
-- TLBs that an instruction has committed or was squashed.
pub mod Sends
use speculative_cache_hierar.Prelude.{
  ℕ, ◌/◌, ◌^◌, pos, Bool, true, false, Option, none, some, List, [], ◌∷◌, ltb, ◌==◌, if◌then◌else◌,
  check, ◌>>=◌, ◌>>◌,
}
use speculative_cache_hierar.AccessType
use speculative_cache_hierar.Packet.{Packet, speculative, empty_packet}
use speculative_cache_hierar.Cache.{Cache, fill_l1}
use speculative_cache_hierar.Cache.Writes.{add_cq}

-- What these functions read of an `ooo_model_instr`. The address arrays are lists of four each; an
-- address that is 0 is not used.
pub record ArchInstr : Type 0 where
  pub instr_id : ℕ
  pub ip : ℕ
  pub instruction_pa : ℕ
  pub source_virtual_address : List ℕ
  pub destination_virtual_address : List ℕ
  pub source_physical_address : List ℕ
  pub destination_physical_address : List ℕ

-- The caches of a core that they write to.
pub record Core : Type 0 where
  pub cpu : ℕ
  pub itlb : Cache
  pub dtlb : Cache
  pub l1i : Cache
  pub l1d : Cache

-- `LOG2_BLOCK_SIZE` and `LOG2_PAGE_SIZE`.
abbrev pub log2_block_size : ℕ
log2_block_size = 6

abbrev pub log2_page_size : ℕ
log2_page_size = 12

module _ (clock : ℕ → ℕ) (cpu : ℕ) (instr : ArchInstr) (commit_flag : Bool) where
  -- The packet that each of the functions builds, for an address and the width of its offset.
  pub commit_packet : ℕ → ℕ → Packet
  commit_packet shift addr = record empty_packet {
    is_speculative = speculative;
    instruction = true;
    is_data = false;
    fill_level = fill_l1;
    cpu = cpu;
    address = addr / 2 ^ shift;
    instruction_pa = instr.instruction_pa;
    full_addr = addr;
    instr_id = instr.instr_id;
    rob_index = pos 0;
    producer = pos 0;
    ip = instr.ip;
    type = if commit_flag then AccessType.commit_load else AccessType.squash_load;
    asid0 = 0;
    asid1 = 0;
    event_cycle = clock cpu;
  }

  -- To the commit queue of a cache, which must have room; what `add_cq` returns is not looked at.
  pub send : ℕ → ℕ → Cache → Option Cache
  unfolding commit_packet
  send shift addr c =
      check (ltb c.cq.occupancy c.cq.size)
      >> (add_cq clock (commit_packet shift addr) c >>= λ r. some r.1)

  -- The loop over an array of addresses.
  pub send_all : ℕ → List ℕ → Cache → Option Cache
  unfolding send
  send_all shift [] c = some c
  send_all shift (addr ∷ addrs) c =
      (if addr == 0 then some c else send shift addr c) >>= λ c'. send_all shift addrs c'

  pub update_spec_itlb_memory : Cache → Option Cache
  unfolding send
  update_spec_itlb_memory c = send log2_page_size instr.ip c

  pub update_spec_instr_memory : Cache → Option Cache
  unfolding send
  update_spec_instr_memory c = send log2_block_size instr.instruction_pa c

  pub update_spec_dtlb_memory : Cache → Option Cache
  unfolding send_all
  update_spec_dtlb_memory c = send_all log2_page_size instr.source_virtual_address c >>= λ c'.
      send_all log2_page_size instr.destination_virtual_address c'

  pub update_spec_data_memory : Cache → Option Cache
  unfolding send_all
  update_spec_data_memory c = send_all log2_block_size instr.source_physical_address c >>= λ c'.
      send_all log2_block_size instr.destination_physical_address c'

unfoldable pub update_spec_blocks : (ℕ → ℕ) → ArchInstr → Bool → Core → Option Core
unfolding update_spec_itlb_memory update_spec_instr_memory update_spec_dtlb_memory
    update_spec_data_memory
update_spec_blocks clock instr commit_flag core = do
  itlb ← update_spec_itlb_memory clock core.cpu instr commit_flag core.itlb
  l1i ← update_spec_instr_memory clock core.cpu instr commit_flag core.l1i
  dtlb ← update_spec_dtlb_memory clock core.cpu instr commit_flag core.dtlb
  l1d ← update_spec_data_memory clock core.cpu instr commit_flag core.l1d
  some (record core { itlb = itlb; dtlb = dtlb; l1i = l1i; l1d = l1d })
