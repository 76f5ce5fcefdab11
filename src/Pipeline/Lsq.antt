-- ===== src/Pipeline/Lsq.antt =====
-- The load and store queues of src/ooo_cpu.cc: `check_and_add_lsq`, `add_load_queue`,
-- `mem_RAW_dependency`, `add_store_queue`, `release_load_queue`.
pub mod Producers
pub mod Stores
use speculative_cache_hierar.Prelude.{
  ℕ, zero, suc, ◌+◌, ◌-◌, ◌*◌, ◌/◌, ◌%◌, ◌^◌, ℤ, dec_ℤ, is_zero_ℤ, is_negative, Bool, true, false,
  not, ◌&&◌, ◌||◌, Option, none, some, List, [], ◌∷◌, ltb, leb, ◌==◌, if◌then◌else◌, get_or, set,
  check, when, ◌>>=◌, ◌>>◌, inc_u32, dec_u32, add_u64, uint64_max, first,
}
use speculative_cache_hierar.FastSet
use speculative_cache_hierar.Packet.{inflight, completed}
use speculative_cache_hierar.SpecUpdate.{log2_block_size}
use speculative_cache_hierar.Pipeline.{
  O3Cpu, Setting, now, edit_rob, edit_lq, edit_sq, upwards, window, older, scheduler_size,
}
use speculative_cache_hierar.Instr.{Instr, instr_at, num_instr_sources}
use speculative_cache_hierar.ReadyList.{
  LsqEntry, LoadStoreQueue, empty_lsq_entry, lsq_at, push_ready, pop_ready, first_ready, next_eq,
}
use speculative_cache_hierar.Pipeline.Schedule.{writes_from}

unfoldable pub release_load_queue : ℕ → O3Cpu → O3Cpu
release_load_queue i c = record c {
  lq = record c.lq { entry = set c.lq.entry i empty_lsq_entry; occupancy = dec_u32 c.lq.occupancy };
}

-- One memory operation of instruction `i` is done, with what is checked and counted.
unfoldable pub finish_mem_op : ℕ → ℕ → O3Cpu → Option O3Cpu
finish_mem_op cycle i c =
    let c' =
      edit_rob i (λ e. record e { num_mem_ops = dec_ℤ e.num_mem_ops; event_cycle = cycle }) c in
    let left = (instr_at c'.rob i).num_mem_ops in
    check (not (is_negative left))
    >> some (
        if is_zero_ℤ left
        then record c' { inflight_mem_executions = inc_u32 c'.inflight_mem_executions }
        else c')

-- The block of the store, with the offset of the load.
abbrev pub forwarded_address : ℕ → ℕ → ℕ
forwarded_address store_pa load_va =
    store_pa / 2 ^ log2_block_size * 2 ^ log2_block_size + load_va % 2 ^ log2_block_size

-- A load has the data of the store at `store`.
abbrev pub forward_data : LsqEntry → LsqEntry → LsqEntry
forward_data store l = record l {
  physical_address = forwarded_address store.physical_address l.virtual_address;
  translated = completed;
  fetched = completed;
}

abbrev pub is_waiting : LsqEntry → Bool
is_waiting l = not (l.producer_id == uint64_max)

-- `mem_RAW_dependency` of the load at `lq_index`, source `j` of `current`, on `prior`.
unfoldable pub mem_raw_dependency : ℕ → ℕ → ℕ → ℕ → ℕ → O3Cpu → O3Cpu
mem_raw_dependency max_destinations prior current j lq_index c =
    let e = instr_at c.rob prior in
    let address = get_or (instr_at c.rob current).source_memory j 0 in
    if writes_from 0 max_destinations e.destination_memory address
    then edit_lq lq_index (λ l. record l { producer_id = e.instr_id; translated = inflight })
        (edit_rob prior
          (λ e. record e {
            memory_instrs_depend_on_me = FastSet.insert current e.memory_instrs_depend_on_me;
            is_producer = true;
          })
          c)
    else c

-- The loops over the older instructions, which end at the first producer.
unfoldable pub find_producer : ℕ → ℕ → ℕ → ℕ → List ℕ → O3Cpu → O3Cpu
unfolding mem_raw_dependency
find_producer max_destinations current j lq_index [] c = c
find_producer max_destinations current j lq_index (i ∷ is) c =
    elim (is_waiting (lsq_at c.lq lq_index)) [
      | true ↦ c
      | false ↦
          find_producer max_destinations current j lq_index is
            (mem_raw_dependency max_destinations i current j lq_index c)
    ]

-- The search of the store queue: for the store that the load waits for, and for stores of later
-- instructions (WAR), for which the load is reset.
unfoldable pub find_store : Bool → ℕ → List ℕ → O3Cpu → Option ℕ × O3Cpu
find_store at_head lq_index [] c = (none, c)
find_store at_head lq_index (i ∷ is) c =
    let l = lsq_at c.lq lq_index in
    let s = lsq_at c.sq i in
    let same = not (s.virtual_address == 0) && s.virtual_address == l.virtual_address in
    let war = same && not (is_waiting l) && leb l.instr_id s.instr_id in
    elim (same && not at_head && l.producer_id == s.instr_id) [
      | true ↦ (some i, c)
      | false ↦ find_store at_head lq_index is (
          if war
          then edit_lq lq_index
              (λ l. record l { physical_address = 0; translated = 0; fetched = 0 }) c
          else c)
    ]

module _ (g : Setting) where
  -- Store `store` has the data of the load already, or not yet.
  unfoldable pub forward : ℕ → ℕ → O3Cpu → Option O3Cpu
  unfolding finish_mem_op release_load_queue
  forward lq_index store c =
      let s = lsq_at c.sq store in
      when (s.fetched == completed && leb s.event_cycle (now g c))
        (λ c.
          let c' = edit_lq lq_index (forward_data s) c in
          finish_mem_op (now g c) (lsq_at c'.lq lq_index).rob_index c' >>= λ c''.
          some (release_load_queue lq_index c''))
        c

  -- The new entry of the load queue: source `j` of the instruction at `rob_index`.
  unfoldable pub new_load : ℕ → ℕ → ℕ → O3Cpu → O3Cpu
  new_load rob_index j lq_index c =
      let e = instr_at c.rob rob_index in
      let c' = edit_rob rob_index (λ e. record e { lq_index = set e.lq_index j lq_index }) c in
      let c'' =
        edit_lq lq_index
          (λ l. record l {
            instr_id = e.instr_id;
            virtual_address = get_or e.source_memory j 0;
            ip = e.ip;
            data_index = j;
            rob_index = rob_index;
            asid0 = e.asid0;
            asid1 = e.asid1;
            event_cycle = add_u64 (now g c) g.scheduling_latency;
          })
          c' in
      record c'' { lq = record c''.lq { occupancy = inc_u32 c''.lq.occupancy } }

  -- The load is in the queue, and can go to the DTLB unless it waits or is done.
  unfoldable pub load_added : ℕ → ℕ → ℕ → O3Cpu → O3Cpu
  load_added rob_index j lq_index c =
      let c' = edit_rob rob_index (λ e. record e { source_added = set e.source_added j true }) c in
      let l = lsq_at c'.lq lq_index in
      if not (l.virtual_address == 0) && not (is_waiting l)
      then record c' { rtl0 = push_ready lq_index c'.rtl0 }
      else c'

  unfoldable pub add_load_queue : ℕ → ℕ → O3Cpu → Option O3Cpu
  unfolding new_load find_producer find_store forward load_added
  add_load_queue rob_index j c =
      first c.lq.size (λ i. (lsq_at c.lq i).virtual_address == 0) >>= λ lq_index.
      (let c = new_load rob_index j lq_index c in
        let c =
          find_producer g.max_instr_destinations rob_index j lq_index
            (older c.rob.head rob_index c.rob.size) c in
        let (store, c) = find_store (rob_index == c.rob.head) lq_index (upwards 0 c.sq.size) c in
        elim store [ none ↦ some c | some i ↦ forward lq_index i c ] >>= λ c.
        some (load_added rob_index j lq_index c))

  -- The new entry of the store queue: destination `j` of the instruction at `rob_index`.
  unfoldable pub new_store : ℕ → ℕ → O3Cpu → O3Cpu
  new_store rob_index j c =
      let i = c.sq.tail in
      let e = instr_at c.rob rob_index in
      let c' =
        edit_rob rob_index
          (λ e. record e {
            sq_index = set e.sq_index j i;
            destination_added = set e.destination_added j true;
          })
          c in
      let c'' =
        edit_sq i
          (λ s. record s {
            instr_id = e.instr_id;
            virtual_address = get_or e.destination_memory j 0;
            ip = e.ip;
            data_index = j;
            rob_index = rob_index;
            asid0 = e.asid0;
            asid1 = e.asid1;
            event_cycle = add_u64 (now g c) g.scheduling_latency;
          })
          c' in
      record c'' {
        sq = record c''.sq { occupancy = inc_u32 c.sq.occupancy; tail = next_eq c.sq.size i };
        sta = pop_ready c.sta;
        rts0 = push_ready i c.rts0;
      }

  unfoldable pub add_store_queue : ℕ → ℕ → O3Cpu → Option O3Cpu
  unfolding new_store
  add_store_queue rob_index j c =
      check ((lsq_at c.sq c.sq.tail).virtual_address == 0) >> some (new_store rob_index j c)

  -- The loops of `check_and_add_lsq` over the operands from `j` on; the number counts those that
  -- could not be added.
  unfoldable pub add_loads : ℕ → ℕ → ℕ → O3Cpu → Option (ℕ × O3Cpu)
  unfolding add_load_queue
  add_loads rob_index j zero c = some (0, c)
  add_loads rob_index j (suc left) c =
      let e = instr_at c.rob rob_index in
      let wanted = not (get_or e.source_memory j 0 == 0) && not (get_or e.source_added j false) in
      let room = ltb c.lq.occupancy c.lq.size in
      when (wanted && room) (add_load_queue rob_index j) c >>= λ c'.
      add_loads rob_index (j + 1) left c' >>= λ rest.
      some (if wanted && not room then suc rest.0 else rest.0, rest.1)

  unfoldable pub add_stores : ℕ → ℕ → ℕ → O3Cpu → Option (ℕ × O3Cpu)
  unfolding add_store_queue
  add_stores rob_index j zero c = some (0, c)
  add_stores rob_index j (suc left) c =
      let e = instr_at c.rob rob_index in
      let wanted =
        not (get_or e.destination_memory j 0 == 0) && not (get_or e.destination_added j false) in
      let turn = ltb c.sq.occupancy c.sq.size && first_ready c.sta == e.instr_id in
      when (wanted && turn) (add_store_queue rob_index j) c >>= λ c'.
      add_stores rob_index (j + 1) left c' >>= λ rest.
      some (if wanted && not turn then suc rest.0 else rest.0, rest.1)

  -- The number is what it returns, the operands that are not available.
  unfoldable pub check_and_add_lsq : ℕ → O3Cpu → Option (ℕ × O3Cpu)
  unfolding add_loads add_stores
  check_and_add_lsq rob_index c = add_loads rob_index 0 num_instr_sources c >>= λ loads.
      add_stores rob_index 0 g.max_instr_destinations loads.1 >>= λ stores.
      some (loads.0 + stores.0, stores.1)
