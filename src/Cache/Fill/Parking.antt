-- ===== src/Cache/Fill/Parking.antt =====
-- `CACHE::handle_fill` of src/cache.cc, when every block of the speculative set is too old to be
-- replaced: the miss waits.
use speculative_cache_hierar.Prelude.{
  ℕ, ◌<◌, ◌≤◌, ◌≡◌, ◌≢◌, ◌∙◌, refl, sym, ap, inl, inr, arith, true, false, none, some, length,
  length-set, get_or-set_self, get_or-set_ne, first-none, ◌==◌, ltb, leb, ◌||◌, set, ℕ_discrete,
  dec_u32,
}
use speculative_cache_hierar.Packet.{Packet, speculative, completed, num_cpus, empty_packet}
use speculative_cache_hierar.PacketQueue.{entry_at, remove_queue, advance}
use speculative_cache_hierar.Cache.{Cache, Neighbours, row, way_at}
use speculative_cache_hierar.Cache.Index.{get_set}
use speculative_cache_hierar.Cache.Replacement.Victims.{timestamp_victim_lem}
use speculative_cache_hierar.Cache.Mshr.{add_mshr, check_mshr, update_fill_cycle}
use speculative_cache_hierar.Cache.Mshr.Frame.{add_mshr-SameButMshr}
use speculative_cache_hierar.Cache.Mshr.Entries.{add_mshr-check_mshr, Records}
use speculative_cache_hierar.Cache.Machine.{Hooks}
use speculative_cache_hierar.Cache.Machine.Steps.{remove_entry}
use speculative_cache_hierar.Cache.Fill.{
  retry, speculative_way, fill_speculative, fill_entry, handle_fill,
}

-- The entry that `update_fill_cycle` chose is a speculative miss whose data is due: it is one of the
-- entries, and the only one for its block.
pub record IsDueSpeculative (clock : ℕ → ℕ) (c : Cache) : Type 0 where
  pub allocated : length c.mshr.entry ≡ c.mshr_size
  pub sized : c.mshr.size ≡ c.mshr_size
  pub chosen : c.mshr.next_fill_index < c.mshr_size
  pub busy : 0 < c.mshr.occupancy
  pub of_core : (entry_at c.mshr c.mshr.next_fill_index).cpu ≢ num_cpus
  pub nature : (entry_at c.mshr c.mshr.next_fill_index).is_speculative ≡ speculative
  pub due : c.mshr.next_fill_cycle ≤ clock (entry_at c.mshr c.mshr.next_fill_index).cpu
  pub somewhere : (entry_at c.mshr c.mshr.next_fill_index).address ≢ 0
  pub alone :
      (j : ℕ)
      → j < c.mshr_size
      → j ≢ c.mshr.next_fill_index
      → (entry_at c.mshr j).address ≢ (entry_at c.mshr c.mshr.next_fill_index).address

-- Every way of the speculative set holds a block of an instruction that is no younger.
abbrev pub IsOlder : ℕ → Packet → Cache → Type 0
IsOlder s p c =
    (v : ℕ)
    → v < c.num_way_spec
    → ((way_at (row c.spec_block s) v).valid ≡ true)
      × ((way_at (row c.spec_block s) v).instr_id ≤ p.instr_id)

older-way :
    (s : ℕ) (p : Packet) (c : Cache)
    → c.num_set_spec ≢ 0
    → IsOlder s p c
    → speculative_way p s c ≡ c.num_way_spec
unfolding speculative_way
older-way s p c some_sets old =
    rw test (elim (timestamp_victim_lem c.num_way_spec p.instr_id (row c.spec_block s)) [
      | inl (l, invalid, _) ↦ absurd (is_false (sym (old _ l).0 ∙ invalid))
      | inr (inl (_, younger)) ↦ absurd (omega (arith, younger.1, (old _ younger.0).1))
      | inr (inr (_, at_end, _)) ↦ at_end
    ])
  where
    test : (c.num_set_spec == 0) ≡ false
    test = ground arith

    is_false : true ≡ false → ⊥
    is_false e = cc

module _ (clock : ℕ → ℕ) (c : Cache) (d : IsDueSpeculative clock c) where
  abbrev i : ℕ
  i = c.mshr.next_fill_index

  abbrev e : Packet
  e = entry_at c.mshr i

  -- The cache after the entry has left.
  abbrev without : Cache
  without = record c {
    mshr = record c.mshr {
      entry = set c.mshr.entry i empty_packet;
      occupancy = dec_u32 c.mshr.occupancy;
      head = advance c.mshr c.mshr.head;
    };
  }

  abbrev due_now : Packet
  due_now = record e { event_cycle = clock e.cpu }

  retry-without : retry clock i c ≡ some (add_mshr clock due_now completed without).1
  unfolding retry remove_entry remove_queue
  retry-without = rw not_empty refl
    where
      not_empty : (c.mshr.occupancy == 0) ≡ false
      not_empty = ground (arith, d.busy)

  freed : entry_at without.mshr i ≡ empty_packet
  freed =
      get_or-set_self c.mshr.entry i empty_packet empty_packet
        (omega (arith, d.allocated, d.chosen))

  others : (j : ℕ) → j ≢ i → entry_at without.mshr j ≡ entry_at c.mshr j
  others j ne = get_or-set_ne c.mshr.entry i j empty_packet empty_packet (λ q. ne (sym q))

  not_waiting : (j : ℕ) → j < c.mshr_size → ((entry_at without.mshr j).address == e.address) ≡ false
  not_waiting j l = elim (ℕ_discrete j i) [
    | yes q ↦ ground (arith, d.somewhere, ap (λ (p : Packet). p.address) (left j q))
    | no ne ↦ ground (arith, d.alone j l ne, ap (λ (p : Packet). p.address) (others j ne))
  ]
    where
      left : (j : ℕ) → j ≡ i → entry_at without.mshr j ≡ empty_packet
      left j q = ap (entry_at without.mshr) q ∙ freed

  nobody_waits : check_mshr due_now without ≡ none
  unfolding check_mshr
  nobody_waits = first-none c.mshr_size _ not_waiting

  recorded : Records clock due_now without completed
  recorded =
      add_mshr-check_mshr clock due_now without
        (length-set c.mshr.entry i empty_packet ∙ d.allocated) completed d.somewhere nobody_waits

  abbrev parked : Cache
  parked = update_fill_cycle (add_mshr clock due_now completed without).1

  -- The miss waits in entry `j` of the cache `c'`, as one that is due at once.
  abbrev pub WaitsIn : ℕ → Cache → Type 0
  WaitsIn j c' =
      (j < c.mshr_size)
      × (entry_at c'.mshr j ≡ record (entry_at c.mshr c.mshr.next_fill_index) {
        event_cycle = clock (entry_at c.mshr c.mshr.next_fill_index).cpu;
        cycle_enqueued = clock (entry_at c.mshr c.mshr.next_fill_index).cpu;
        returned = completed;
      })
      × (check_mshr (entry_at c.mshr c.mshr.next_fill_index) c' ≡ some j)
      × (c'.block ≡ c.block)
      × (c'.spec_block ≡ c.spec_block)

  waits : (j : ℕ) × WaitsIn j parked
  unfolding update_fill_cycle check_mshr
  waits = elim recorded [
    | inl (k, first_free, changes, found) ↦
        (k, (first_free.0, changes.0, found, same_block, same_spec_block))
    | inr (full, _) ↦ absurd (full i d.chosen (ap (λ (p : Packet). p.address) freed))
  ]
    where
      same_block : parked.block ≡ c.block
      same_block =
          ap (λ (c : Cache). c.block) (add_mshr-SameButMshr clock due_now completed without)

      same_spec_block : parked.spec_block ≡ c.spec_block
      same_spec_block =
          ap (λ (c : Cache). c.spec_block) (add_mshr-SameButMshr clock due_now completed without)

  module _ {W : Type 0} (env : Neighbours W) (hooks : Hooks W) (w : W)
      (some_sets : c.num_set_spec ≢ 0)
      (old : IsOlder
        (get_set (entry_at c.mshr c.mshr.next_fill_index).address speculative c)
        (entry_at c.mshr c.mshr.next_fill_index)
        c) where
    tests :
        ((i == c.mshr_size || e.cpu == num_cpus) ≡ false)
        × (leb c.mshr.next_fill_cycle (clock e.cpu) ≡ true)
        × (ltb i c.mshr.size ≡ true)
    tests = (
      ground (arith, d.chosen, d.of_core),
      ground (arith, d.due),
      ground (arith, d.chosen, d.sized),
    )

    speculative_step :
        fill_speculative env hooks clock i (record { cache = c; world = w })
        ≡ some (record { cache = parked; world = w })
    unfolding fill_speculative
    speculative_step =
        rw (older-way (get_set e.address speculative c) e c some_sets old, retry-without, same) refl
      where
        same : (c.num_way_spec == c.num_way_spec) ≡ true
        same = ground arith

    -- When the data of a speculative miss is due (of an address that is not 0, with no other entry for
    -- the block), there are speculative sets, and each way of its set holds a block of an instruction
    -- that is no younger, `handle_fill` does not stop: no block changes, no neighbour
    -- is called, and the miss stays in the MSHR, found by `check_mshr`, completed and due at once.
    pub handle_fill-parks :
        (j : ℕ) × (c' : Cache) × (handle_fill env hooks clock (record { cache = c; world = w })
          ≡ some (record { cache = c'; world = w }))
        × WaitsIn j c'
    unfolding handle_fill fill_entry
    handle_fill-parks = (
      waits.0,
      parked,
      rw (tests.0, tests.1, tests.2)
          (ap (λ h. fill_entry env hooks clock h i (record { cache = c; world = w })) d.nature
            ∙ speculative_step),
      waits.1,
    )
