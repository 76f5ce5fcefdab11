-- ===== src/Cache/Fill/Eviction.antt =====
-- `CACHE::handle_fill` of src/cache.cc, over a dirty block of the normal hierarchy.
use speculative_cache_hierar.Prelude.{
  ℕ, ◌≡◌, ◌≢◌, ◌⊎◌, ◌∙◌, refl, sym, ap, inl, inr, true, false, Option, none, some, ◌>>=◌, arith,
  ◌==◌, Bool-cases, Option-cases,
}
use speculative_cache_hierar.AccessType
use speculative_cache_hierar.Packet.{Packet, normal}
use speculative_cache_hierar.Block.{Block}
use speculative_cache_hierar.Cache.{Neighbours}
use speculative_cache_hierar.Cache.Index.{get_set}
use speculative_cache_hierar.Cache.Shape.{block_at}
use speculative_cache_hierar.Cache.Commit.{choose_victim}
use speculative_cache_hierar.Cache.Machine.{Run, Hooks, in_mshr}
use speculative_cache_hierar.Cache.Machine.Steps.{
  entry_in, count_stall, evict, writeback_packet, install, on_cache,
}
use speculative_cache_hierar.Cache.Mshr.{update_fill_cycle}
use speculative_cache_hierar.Cache.Fill.{fill_normal, complete}

module _ {W : Type 0} (env : Neighbours W) (hooks : Hooks W) (clock : ℕ → ℕ) (i way : ℕ) (r : Run W)
    (w : W) where
  abbrev victim : Block
  victim = block_at r.cache.block (get_set (entry_in in_mshr i r.cache).address normal r.cache) way

  abbrev p : Packet
  p = entry_in in_mshr i r.cache

  abbrev s : ℕ
  s = get_set p.address normal r.cache

  -- The rest of a fill, over the victim, after the lower level has come to `w'`.
  abbrev pub filled_from : W → Option (Run W)
  filled_from w' =
      install env hooks clock in_mshr i (p.type == AccessType.prefetch) s way
        (record r { world = w' })
      >>= complete env hooks clock i normal s way
      >>= λ r. some (on_cache update_fill_cycle r)

  -- Nothing but a counter changes, or the packet of the victim goes to the lower level, and the fill
  -- goes on from what the lower level has become.
  abbrev pub KeepsDirty : Type 0
  KeepsDirty =
      ((env.lower_occupancy 2 victim.address w ≡ env.lower_size 2 victim.address w)
        × (r' : Run W) × (fill_normal env hooks clock i r ≡ some r')
        × (r'.cache ≡ record r.cache { stall = r'.cache.stall })
        × (r'.world ≡ env.lower_increment_wq_full victim.address w))
      ⊎ ((env.lower_occupancy 2 victim.address w ≢ env.lower_size 2 victim.address w)
          × (p : Packet) × (p.address ≡ victim.address)
          × (p.payload ≡ victim.payload)
          × (p.type ≡ AccessType.writeback)
          × (fill_normal env hooks clock i r ≡ (env.lower_add_wq p w >>= filled_from)))

  abbrev chosen_run : Run W
  chosen_run = record r { world = w }

  abbrev outgoing : Packet
  outgoing = writeback_packet env hooks clock in_mshr i victim p r.cache

  abbrev stalled : Run W
  stalled = record {
    cache = count_stall in_mshr i r.cache;
    world = env.lower_increment_wq_full victim.address w;
  }

  module _ (chosen : choose_victim env s p r.cache r.world ≡ some (way, w))
      (dirty : victim.dirty ≡ true) (below : r.cache.has_lower_level ≡ true) where
    waits :
        (env.lower_occupancy 2 victim.address w == env.lower_size 2 victim.address w) ≡ true
        → fill_normal env hooks clock i r ≡ some stalled
    unfolding fill_normal get_set
    waits full = rw (chosen, evicts, fill_normal) refl
      where
        evicts : evict env hooks clock in_mshr i s way chosen_run ≡ some (false, stalled)
        evicts = rw (dirty, below, full, evict) refl

    sends :
        (env.lower_occupancy 2 victim.address w == env.lower_size 2 victim.address w) ≡ false
        → env.lower_add_wq outgoing w ≡ none
        → fill_normal env hooks clock i r ≡ none
    unfolding fill_normal get_set
    sends room refuses = rw (chosen, evicts, fill_normal) refl
      where
        evicts : evict env hooks clock in_mshr i s way chosen_run ≡ none
        evicts = rw (dirty, below, room, refuses, evict) refl

    goes :
        (w' : W)
        → (env.lower_occupancy 2 victim.address w == env.lower_size 2 victim.address w) ≡ false
        → env.lower_add_wq outgoing w ≡ some w'
        → fill_normal env hooks clock i r ≡ filled_from w'
    unfolding fill_normal get_set
    goes w' room taken = rw (chosen, evicts, fill_normal) refl
      where
        evicts :
            evict env hooks clock in_mshr i s way chosen_run ≡ some (true, record r { world = w' })
        evicts = rw (dirty, below, room, taken, evict) refl

  -- When the way that is to be filled is dirty and there is a lower level, a fill does not lose its
  -- data: if the write queue below is full, the fill returns with the cache as before but for its count
  -- of stalls, so that it is tried again; else a writeback with the address and the data of the block is
  -- given to the lower level, and the fill is what is left of it (the block is installed, the upper
  -- caches are answered, the entry is released) from the lower level as it is with this writeback. It
  -- stops there only where the lower level does, or what is left.
  pub fill_normal-KeepsDirty :
      choose_victim env
          (get_set (entry_in in_mshr i r.cache).address normal r.cache)
          (entry_in in_mshr i r.cache)
          r.cache
          r.world
        ≡ some (way, w)
      → victim.dirty ≡ true
      → r.cache.has_lower_level ≡ true
      → KeepsDirty
  unfolding writeback_packet
  fill_normal-KeepsDirty chosen dirty below =
      elim (Bool-cases
        (env.lower_occupancy 2 victim.address w == env.lower_size 2 victim.address w)) [
          | inl full ↦ inl (ground arith, stalled, waits chosen dirty below full, refl, refl)
          | inr room ↦ inr (
            ground arith,
            outgoing,
            refl,
            refl,
            refl,
            elim (Option-cases (env.lower_add_wq outgoing w)) [
              | inl refuses ↦
                  sends chosen dirty below room refuses ∙ sym (ap (λ o. o >>= filled_from) refuses)
              | inr (w', taken) ↦
                  goes chosen dirty below w' room taken ∙ sym (ap (λ o. o >>= filled_from) taken)
            ],
          )
        ]
