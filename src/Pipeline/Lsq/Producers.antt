-- ===== src/Pipeline/Lsq/Producers.antt =====
-- `add_load_queue` of src/ooo_cpu.cc: the store that a load waits for.
use speculative_cache_hierar.Prelude.{
  ℕ, zero, suc, ◌<◌, ◌≡◌, ◌≢◌, ◌∙◌, refl, ap, inl, inr, Bool, true, false, Option, none, some, List,
  [], ◌∷◌, arith, length, get_or, get_or-set_self, Bool-cases, uint64_max,
}
use speculative_cache_hierar.FastSet
use speculative_cache_hierar.Packet.{inflight}
use speculative_cache_hierar.PacketQueue.Ring.{slot}
use speculative_cache_hierar.Pipeline.{O3Cpu, edit_rob, edit_lq, older}
use speculative_cache_hierar.Instr.{instr_at}
use speculative_cache_hierar.ReadyList.{empty_lsq_entry, lsq_at}
use speculative_cache_hierar.Pipeline.Older.{
  youngest_first, older-youngest_first, last, LastOf, last-LastOf,
}
use speculative_cache_hierar.Pipeline.Schedule.{writes_from}
use speculative_cache_hierar.Pipeline.Lsq.{mem_raw_dependency, find_producer, is_waiting}

-- The load at `lq_index`, of instruction `current`, waits for the store of `prior`.
abbrev pub waits_for : ℕ → ℕ → ℕ → O3Cpu → O3Cpu
waits_for prior current lq_index c =
    edit_lq lq_index
      (λ l. record l { producer_id = (instr_at c.rob prior).instr_id; translated = inflight })
      (edit_rob prior
        (λ e. record e {
          memory_instrs_depend_on_me = FastSet.insert current e.memory_instrs_depend_on_me;
          is_producer = true;
        })
        c)

module _ (max_destinations current j lq_index : ℕ) where
  abbrev address_of : O3Cpu → ℕ
  address_of c = get_or (instr_at c.rob current).source_memory j 0

  -- The instruction at place `k` of the reorder buffer stores to the address of the load.
  abbrev pub stores_there : O3Cpu → ℕ → Bool
  stores_there c k =
      writes_from 0 max_destinations
        (instr_at c.rob (slot c.rob.head c.rob.size k)).destination_memory (address_of c)

  waiting-stays :
      (is : List ℕ) (c : O3Cpu)
      → is_waiting (lsq_at c.lq lq_index) ≡ true
      → find_producer max_destinations current j lq_index is c ≡ c
  unfolding find_producer
  waiting-stays [] c h = refl
  waiting-stays (i ∷ is) c h = rw (h, find_producer) refl

  -- What the search leaves, by what it finds.
  abbrev pub found_at : O3Cpu → Option ℕ → O3Cpu
  found_at c none = c
  found_at c (some k) = waits_for (slot c.rob.head c.rob.size k) current lq_index c

  module _ (c : O3Cpu) (idle : is_waiting (lsq_at c.lq lq_index) ≡ false)
      (in_queue : lq_index < length c.lq.entry)
      (ids : (i : ℕ) → (instr_at c.rob i).instr_id ≢ uint64_max) where
    now_waiting :
        (prior : ℕ) → is_waiting (lsq_at (waits_for prior current lq_index c).lq lq_index) ≡ true
    now_waiting prior =
        ap is_waiting (
          get_or-set_self c.lq.entry lq_index
            (record (lsq_at c.lq lq_index) {
              producer_id = (instr_at c.rob prior).instr_id;
              translated = inflight;
            })
            empty_lsq_entry in_queue)
        ∙ ground (arith, ids prior)

    find_producer-found_at :
        (n : ℕ)
        → find_producer max_destinations current j lq_index
            (youngest_first c.rob.head c.rob.size n)
            c
          ≡ found_at c (last n (stores_there c))
    unfolding find_producer mem_raw_dependency
    find_producer-found_at zero = refl
    find_producer-found_at (suc n) = elim (Bool-cases (stores_there c n)) [
      | inl e ↦
          rw (idle, find_producer)
            (rw (e, mem_raw_dependency)
              (waiting-stays (youngest_first c.rob.head c.rob.size n)
                (waits_for (slot c.rob.head c.rob.size n) current lq_index c)
                (now_waiting (slot c.rob.head c.rob.size n))))
      | inr e ↦ rw (idle, find_producer) (rw (e, mem_raw_dependency) (find_producer-found_at n))
    ]

  -- Both results of the search: no older instruction stores to the address, and nothing changes; or
  -- the youngest that does, at place `k`, is the producer.
  abbrev pub FindsYoungest : ℕ → O3Cpu → O3Cpu → Type 0
  FindsYoungest n c c' = (o : Option ℕ) × LastOf n (stores_there c) o × (c' ≡ found_at c o)

-- The search for the store whose data a load takes, where the load is of the `n`-th instruction of the
-- reorder buffer and waits for none yet: it finds the youngest of the older instructions that store
-- to the address of the load, whether their stores are in the store queue or not, and has the load
-- wait for that one alone; if there is none, nothing changes. (No instruction has the number
-- UINT64_MAX, which says that a load does not wait.)
pub find_producer-FindsYoungest :
    (max_destinations n j lq_index : ℕ) (c : O3Cpu)
    → c.rob.head < c.rob.size
    → n < c.rob.size
    → (lsq_at c.lq lq_index).producer_id ≡ uint64_max
    → lq_index < length c.lq.entry
    → ((i : ℕ) → (instr_at c.rob i).instr_id ≢ uint64_max)
    → FindsYoungest max_destinations (slot c.rob.head c.rob.size n) j lq_index n c (
        find_producer max_destinations
          (slot c.rob.head c.rob.size n)
          j
          lq_index
          (older c.rob.head (slot c.rob.head c.rob.size n) c.rob.size)
          c)
find_producer-FindsYoungest m n j lq_index c h l idle in_queue ids =
    let current = slot c.rob.head c.rob.size n in
    (
      last n (stores_there m current j lq_index c),
      last-LastOf n (stores_there m current j lq_index c),
      ap (λ is. find_producer m current j lq_index is c)
            (older-youngest_first c.rob.head c.rob.size n h l)
          ∙ find_producer-found_at m current j lq_index c (ground (arith, idle)) in_queue ids n,
    )
