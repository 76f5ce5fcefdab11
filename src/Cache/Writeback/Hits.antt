-- ===== src/Cache/Writeback/Hits.antt =====
-- `CACHE::handle_writeback` of src/cache.cc, on a block that the cache holds.
use speculative_cache_hierar.Prelude.{
  ℕ, ◌≡◌, ◌≢◌, ◌∙◌, refl, ap, subst, true, false, some, ◌∷◌, arith, ◌==◌, ltb_ℤ, set, set-set,
  get_or-set_self, dec_u32,
}
use speculative_cache_hierar.AccessType
use speculative_cache_hierar.Packet.{Packet, normal, num_cpus, empty_packet}
use speculative_cache_hierar.Block.{Block}
use speculative_cache_hierar.PacketQueue.{PacketQueue, entry_at, advance, remove_queue}
use speculative_cache_hierar.PacketQueue.Ring.{IsValid, contents}
use speculative_cache_hierar.PacketQueue.Remove.{Removes, remove_queue-Removes}
use speculative_cache_hierar.Cache.{
  Cache, CacheType, itlb, dtlb, stlb, l1i, l1d, l2c, llc, Neighbours,
}
use speculative_cache_hierar.Cache.Index.{get_set}
use speculative_cache_hierar.Cache.Shape.{block_at, write_way}
use speculative_cache_hierar.Cache.Replacement.{update_replacement_state}
use speculative_cache_hierar.Cache.Lookup.{check_hit}
use speculative_cache_hierar.Cache.Requests.{return_up}
use speculative_cache_hierar.Cache.Commit.{is_llc}
use speculative_cache_hierar.Cache.Machine.{Run, Hooks, in_wq, edit_block, looked_up}
use speculative_cache_hierar.Cache.Machine.Steps.{
  edit_entry, count_hit, count_sim_hit, remove_entry, report_up, touch_way,
}
use speculative_cache_hierar.Cache.Writeback.{is_due, writeback_hit, serve_write, handle_writeback}

-- The oldest write of a cache that is not the last level is a writeback that is due, from a cache that
-- is not above, to a block in way `way` of the normal hierarchy.
pub record IsHit (clock : ℕ → ℕ) (c : Cache) (way : ℕ) : Type 0 where
  pub queued : IsValid c.wq
  pub not_last : is_llc c.cache_type ≡ false
  pub due : is_due clock c.wq ≡ true
  pub of_core : (entry_at c.wq c.wq.head).cpu ≢ num_cpus
  pub kind : (entry_at c.wq c.wq.head).type ≡ AccessType.writeback
  pub nature : (entry_at c.wq c.wq.head).is_speculative ≡ normal
  pub level : ltb_ℤ (entry_at c.wq c.wq.head).fill_level c.fill_level ≡ false
  pub hit : check_hit (entry_at c.wq c.wq.head) normal c ≡ some (some way)

module _ (clock : ℕ → ℕ) (c : Cache) (way : ℕ) (h : IsHit clock c way) where
  abbrev i : ℕ
  i = c.wq.head

  abbrev p : Packet
  p = entry_at c.wq i

  abbrev s : ℕ
  s = get_set p.address normal c

  -- The block is dirty; its data is what it was.
  abbrev pub marked : Block
  marked = record (block_at c.block s way) { dirty = true }

  -- The cache with the block marked, and then with its data in the entry, before this leaves.
  abbrev dirtied : Cache
  dirtied = edit_block normal s way (λ b. record b { dirty = true }) (count_sim_hit in_wq i c)

  abbrev edited : Cache
  edited =
      edit_entry in_wq i (looked_up c.cache_type (block_at dirtied.block s way).payload) dirtied

  -- The outcome: the block alone is marked, and the oldest write leaves the queue.
  abbrev pub Marks : Cache → Type 0
  Marks c' =
      (c'.block ≡ write_way s way marked c.block)
      × (c'.spec_block ≡ c.spec_block)
      × (c'.mshr ≡ c.mshr)
      × (contents c.wq ≡ p ∷ contents c'.wq)

  abbrev left : PacketQueue
  left = record edited.wq {
    entry = set edited.wq.entry i empty_packet;
    occupancy = dec_u32 c.wq.occupancy;
    head = advance c.wq c.wq.head;
  }

  abbrev after : Cache
  after = record (count_hit in_wq i edited) { wq = left }

  looked_up-fill_level :
      (k : CacheType) (payload : ℕ) (p : Packet) → (looked_up k payload p).fill_level ≡ p.fill_level
  looked_up-fill_level itlb payload p = refl
  looked_up-fill_level dtlb payload p = refl
  looked_up-fill_level stlb payload p = refl
  looked_up-fill_level l1i payload p = refl
  looked_up-fill_level l1d payload p = refl
  looked_up-fill_level l2c payload p = refl
  looked_up-fill_level llc payload p = refl

  busy : (c.wq.occupancy == 0) ≡ false
  busy = ground (arith, h.due)

  not_above : ltb_ℤ (entry_at edited.wq i).fill_level c.fill_level ≡ false
  not_above =
      ap (λ l. ltb_ℤ l c.fill_level)
        (ap (λ (p : Packet). p.fill_level) now
          ∙ looked_up-fill_level c.cache_type (block_at dirtied.block s way).payload p)
      ∙ h.level
    where
      now : entry_at edited.wq i ≡ looked_up c.cache_type (block_at dirtied.block s way).payload p
      now =
          get_or-set_self c.wq.entry i _ empty_packet
            (omega (arith, h.queued.stored, h.queued.head_in))

  removes : remove_queue i c.wq ≡ some left
  unfolding remove_queue
  removes = rw (busy, set-set) refl

  module _ {W : Type 0} (env : Neighbours W) (hooks : Hooks W) (w : W) where
    abbrev start : Run W
    start = record { cache = c; world = w }

    touch_step :
        touch_way env hooks clock in_wq i s way (block_at c.block s way).full_addr 0 true start
        ≡ some start
    unfolding touch_way update_replacement_state
    touch_step = rw (h.not_last, h.kind) refl

    report_step :
        report_up env hooks clock in_wq i (record { cache = edited; world = w })
        ≡ some (record { cache = edited; world = w })
    unfolding report_up return_up
    report_step = rw not_above refl

    remove_step : remove_entry in_wq i (count_hit in_wq i edited) ≡ some after
    unfolding remove_entry remove_queue
    remove_step = rw busy refl

    hit_step :
        writeback_hit env hooks clock i s way start ≡ some (record { cache = after; world = w })
    unfolding writeback_hit
    hit_step = rw (touch_step, report_step, remove_step) refl

    serve_step : serve_write env hooks clock i start ≡ some (record { cache = after; world = w })
    unfolding serve_write
    serve_step = rw (h.hit, h.nature) hit_step

    -- A writeback of the normal hierarchy that is due and hits, outside the last level, and is not for a
    -- level above (its fill level is not below that of the cache), is served at once: its block alone
    -- becomes dirty, with the data that it had, no neighbour is called, and the write leaves the queue.
    pub handle_writeback-Marks :
        (c' : Cache) × (handle_writeback env hooks clock (record { cache = c; world = w })
          ≡ some (record { cache = c'; world = w }))
        × Marks c'
    unfolding handle_writeback
    handle_writeback-Marks =
        (after, rw (of_core, h.due) serve_step, (refl, refl, refl, oldest_left))
      where
        of_core : (p.cpu == num_cpus) ≡ false
        of_core = ground (arith, h.of_core)

        oldest_left : contents c.wq ≡ p ∷ contents left
        oldest_left = (subst (Removes c.wq) removes (remove_queue-Removes c.wq h.queued)).2
