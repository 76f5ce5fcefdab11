-- ===== src/Pipeline/Complete.antt =====
-- What the core does with the answers of its caches, in src/ooo_cpu.cc: `complete_data_fetch`,
-- `handle_merged_translation`, `handle_merged_load` and `update_rob`.
use speculative_cache_hierar.Prelude.{
  ℕ, ◌-◌, ◌%◌, ◌^◌, ℤ, pos, negsuc, Bool, true, false, not, ◌&&◌, ◌||◌, Option, none, some, List,
  [], ◌∷◌, ltb, leb, ◌==◌, if◌then◌else◌, set, check, when, ◌>>=◌, ◌>>◌,
}
use speculative_cache_hierar.AccessType
use speculative_cache_hierar.FastSet
use speculative_cache_hierar.Packet.{Packet, completed}
use speculative_cache_hierar.PacketQueue.{PacketQueue, entry_at, remove_queue}
use speculative_cache_hierar.Cache.{Cache}
use speculative_cache_hierar.Pipeline.{O3Cpu, Setting, now, edit_rob, edit_lq, edit_sq, window}
use speculative_cache_hierar.ReadyList.{LsqEntry, lsq_at, push_ready}
use speculative_cache_hierar.Pipeline.Buffers.{check_rob}
use speculative_cache_hierar.Pipeline.Fetch.{on_page}
use speculative_cache_hierar.Pipeline.Translation.{complete_instr_fetch}
use speculative_cache_hierar.Pipeline.Lsq.{finish_mem_op, release_load_queue}
use speculative_cache_hierar.Pipeline.Execute.{complete_all}

-- An `int` as a `uint32_t`.
abbrev pub to_u32 : ℤ → ℕ
to_u32 (pos n) = n % 2 ^ 32
to_u32 (negsuc n) = 2 ^ 32 - 1 - n % 2 ^ 32

-- The translation of an entry has come.
unfoldable pub translated_to : ℕ → ℕ → LsqEntry → LsqEntry
translated_to cycle data_pa l = record l {
  physical_address = on_page data_pa l.virtual_address;
  translated = completed;
  event_cycle = cycle;
}

abbrev pub is_rfo : Packet → Bool
is_rfo p = p.type == AccessType.rfo

module _ (g : Setting) where
  unfoldable pub translate_store : ℕ → ℕ → O3Cpu → O3Cpu
  unfolding translated_to
  translate_store data_pa i c = record (edit_sq i (translated_to (now g c) data_pa) c) {
    rts1 = push_ready i c.rts1;
  }

  unfoldable pub translate_load : ℕ → ℕ → O3Cpu → O3Cpu
  unfolding translated_to
  translate_load data_pa i c = record (edit_lq i (translated_to (now g c) data_pa) c) {
    rtl1 = push_ready i c.rtl1;
  }

  unfoldable pub each : (ℕ → O3Cpu → O3Cpu) → List ℕ → O3Cpu → O3Cpu
  each f [] c = c
  each f (i ∷ is) c = each f is (f i c)

  unfoldable pub handle_merged_translation : Packet → O3Cpu → O3Cpu
  unfolding translate_store translate_load each
  handle_merged_translation p c =
      let c' =
        if p.store_merged
        then each (translate_store p.data_pa) (FastSet.expand p.sq_index_depend_on_me c.sq.size) c
        else c in
      if p.load_merged
      then each (translate_load p.data_pa) (FastSet.expand p.lq_index_depend_on_me c.lq.size) c'
      else c'

  -- The data of a load has come.
  unfoldable pub finish_load : ℕ → ℕ → ℕ → O3Cpu → Option O3Cpu
  unfolding finish_mem_op release_load_queue
  finish_load cycle rob_index i c =
      finish_mem_op cycle rob_index
        (edit_lq i (λ l. record l { fetched = completed; event_cycle = now g c }) c)
      >>= λ c'. some (release_load_queue i c')

  unfoldable pub finish_loads : List ℕ → O3Cpu → Option O3Cpu
  unfolding finish_load
  finish_loads [] c = some c
  finish_loads (i ∷ is) c =
      finish_load (now g c) (lsq_at c.lq i).rob_index i c >>= λ c'. finish_loads is c'

  unfoldable pub handle_merged_load : Packet → O3Cpu → Option O3Cpu
  unfolding finish_loads
  handle_merged_load p c = finish_loads (FastSet.expand p.lq_index_depend_on_me c.lq.size) c

  -- The two halves of `complete_data_fetch`: an answer of the DTLB, for a store or a load,
  unfoldable pub complete_translation : Packet → O3Cpu → O3Cpu
  unfolding translate_store translate_load handle_merged_translation
  complete_translation p c =
      let i = to_u32 p.rob_index in
      let c' =
        if is_rfo p
        then translate_store p.data_pa p.sq_index c
        else translate_load p.data_pa p.lq_index c in
      let s = lsq_at c'.sq p.sq_index in
      let l = lsq_at c'.lq p.lq_index in
      let noted =
        edit_rob i
          (λ e.
            if is_rfo p
            then record e {
              destination_physical_address =
                  set e.destination_physical_address s.data_index s.physical_address;
            }
            else record e {
              source_physical_address =
                  set e.source_physical_address l.data_index l.physical_address;
            })
          c' in
      edit_rob i (λ e. record e { event_cycle = p.event_cycle }) (handle_merged_translation p noted)

  -- and one of the L1D.
  unfoldable pub complete_load : Packet → O3Cpu → Option O3Cpu
  unfolding finish_load handle_merged_load
  complete_load p c =
      if is_rfo p
      then handle_merged_load p c
      else check (not p.store_merged)
        >> finish_load p.event_cycle (to_u32 p.rob_index) p.lq_index c
        >>= λ c'. handle_merged_load p c'

  abbrev is_at : ℕ → Option ℕ → Bool
  is_at i none = false
  is_at i (some j) = i == j

  -- On the queue PROCESSED of the DTLB or the L1D, and the core without it.
  unfoldable pub complete_data_fetch : PacketQueue → Bool → O3Cpu → Option (PacketQueue × O3Cpu)
  unfolding complete_translation complete_load
  complete_data_fetch queue is_it_tlb c =
      let p = entry_at queue queue.head in
      check (is_rfo p || is_at (to_u32 p.rob_index) (check_rob p.instr_id c.rob))
      >> (if is_it_tlb then some (complete_translation p c) else complete_load p c)
      >>= λ c'. remove_queue queue.head queue >>= λ q. some (q, c')

  -- An answer is waiting, and due.
  abbrev pub is_answered : Cache → O3Cpu → Bool
  is_answered cache c =
      not (cache.processed.occupancy == 0)
      && leb (entry_at cache.processed cache.processed.head).event_cycle (now g c)

  unfoldable pub collect : O3Cpu → Option O3Cpu
  unfolding complete_instr_fetch complete_data_fetch
  collect c = do
    c ←
        when (is_answered c.caches.itlb c)
          (λ c. complete_instr_fetch c.caches.itlb.processed true c.ifetch_buffer >>= λ x.
            some (record c {
              caches = record c.caches { itlb = record c.caches.itlb { processed = x.0 } };
              ifetch_buffer = x.1;
            }))
          c
    c ←
        when (is_answered c.caches.l1i c)
          (λ c. complete_instr_fetch c.caches.l1i.processed false c.ifetch_buffer >>= λ x.
            some (record c {
              caches = record c.caches { l1i = record c.caches.l1i { processed = x.0 } };
              ifetch_buffer = x.1;
            }))
          c
    c ←
        when (is_answered c.caches.dtlb c)
          (λ c. complete_data_fetch c.caches.dtlb.processed true c >>= λ x. some (record x.1 {
            caches = record x.1.caches { dtlb = record x.1.caches.dtlb { processed = x.0 } };
          }))
          c
    when (is_answered c.caches.l1d c)
        (λ c. complete_data_fetch c.caches.l1d.processed false c >>= λ x. some (record x.1 {
          caches = record x.1.caches { l1d = record x.1.caches.l1d { processed = x.0 } };
        }))
        c

  unfoldable pub update_rob : O3Cpu → Option O3Cpu
  unfolding collect complete_all
  update_rob c = collect c >>= λ c'.
      when (ltb 0 c'.inflight_reg_executions || ltb 0 c'.inflight_mem_executions)
        (complete_all g (window c'.rob.head c'.rob.tail c'.rob.size)) c'
