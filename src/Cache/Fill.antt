-- ===== src/Cache/Fill.antt =====
-- `CACHE::handle_fill` of src/cache.cc: the data of the miss that `update_fill_cycle` chose goes into
-- the cache. The build does not define `LLC_BYPASS`.
pub mod Isolation
pub mod Parking
pub mod Eviction
use speculative_cache_hierar.Prelude.{
  ℕ, ◌+◌, ◌-◌, ◌%◌, ◌^◌, Bool, true, false, not, ◌&&◌, ◌||◌, Option, none, some, ltb, leb, ◌==◌,
  if◌then◌else◌, check, ◌>>=◌, ◌>>◌, dec_u32, add_u64,
}
use speculative_cache_hierar.AccessType
use speculative_cache_hierar.Packet.{
  Packet, Hierarchy, normal, speculative, empty_packet, inflight, completed, num_cpus,
}
use speculative_cache_hierar.Block.{Block}
use speculative_cache_hierar.PacketQueue.{PacketQueue, entry_at}
use speculative_cache_hierar.Cache.{
  Cache, CacheType, itlb, dtlb, stlb, l1i, l1d, l2c, llc, Neighbours, row,
}
use speculative_cache_hierar.Cache.Index.{get_set}
use speculative_cache_hierar.Cache.Replacement.{timestamp_victim}
use speculative_cache_hierar.Cache.Lookup.{fill_cache}
use speculative_cache_hierar.Cache.Mshr.{add_mshr, update_fill_cycle}
use speculative_cache_hierar.Cache.Requests.{is_l1d}
use speculative_cache_hierar.Cache.Commit.{choose_victim}
use speculative_cache_hierar.Cache.Machine.{
  Run, Hooks, Place, in_mshr, edit_block, has_blocks, translated,
}
use speculative_cache_hierar.Cache.Shape.{blocks, block_at}
use speculative_cache_hierar.Cache.Machine.Steps.{
  on_cache, try_cache, block_in, entry_in, edit_entry, count_spec_miss, remove_entry, report,
  report_up, evict, install,
}

abbrev pub is_tlb : CacheType → Bool
is_tlb itlb = true
is_tlb dtlb = true
is_tlb _ = false

-- RFO marks cache line dirty.
unfoldable pub mark_store : Hierarchy → ℕ → ℕ → ℕ → Cache → Option Cache
mark_store h s w type c =
    if is_l1d c.cache_type && type == AccessType.rfo
    then check (has_blocks h c) >> some (edit_block h s w (λ b. record b { dirty = true }) c)
    else some c

-- The data of the block, read by a TLB into the entry.
unfoldable pub read_block : Hierarchy → ℕ → ℕ → ℕ → Cache → Option Cache
read_block h s w i c =
    check (not (is_tlb c.cache_type) || has_blocks h c)
    >> some (edit_entry in_mshr i (translated c.cache_type (block_at (blocks h c) s w).payload) c)

-- The latency of a miss, once the warm-up is over.
unfoldable pub count_latency : (ℕ → Bool) → (ℕ → ℕ) → Packet → Cache → Cache
count_latency warmup_complete clock p c =
    if warmup_complete p.cpu && not (p.cycle_enqueued == 0)
    then record c {
      total_miss_latency =
          add_u64 c.total_miss_latency ((clock p.cpu + 2 ^ 64 - p.cycle_enqueued) % 2 ^ 64);
    }
    else c

-- `MSHR.remove_queue(&MSHR.entry[mshr_index])` and `MSHR.num_returned--`.
unfoldable pub release : ℕ → Cache → Option Cache
unfolding remove_entry
release i c = remove_entry in_mshr i c >>= λ c'.
    some (record c' { mshr = record c'.mshr { num_returned = dec_u32 c'.mshr.num_returned } })

-- `temp_packet`: the entry leaves and comes again, as one that is due now.
unfoldable pub retry : (ℕ → ℕ) → ℕ → Cache → Option Cache
unfolding remove_entry
retry clock i c =
    let p = entry_in in_mshr i c in
    remove_entry in_mshr i c >>= λ c'.
    some (add_mshr clock (record p { event_cycle = clock p.cpu }) completed c').1

-- The way of the speculative hierarchy, `NUM_WAY_SPEC` if every block in the set is older.
unfoldable pub speculative_way : Packet → ℕ → Cache → ℕ
speculative_way p s c =
    if c.num_set_spec == 0
    then 0
    else timestamp_victim c.num_way_spec p.instr_id (row c.spec_block s)

-- A speculative cache without sets stores nothing.
unfoldable pub store_speculative : ℕ → ℕ → Packet → Cache → Option Cache
store_speculative s w p c = if c.num_set_spec == 0 then some c else fill_cache s w p speculative c

module _ {W : Type 0} (env : Neighbours W) (hooks : Hooks W) (clock : ℕ → ℕ) where
  -- What follows `fill_cache`: the block is at `w` of set `s`, and the entry is answered and released.
  unfoldable pub complete : ℕ → Hierarchy → ℕ → ℕ → Run W → Option (Run W)
  unfolding mark_store read_block count_latency release report report_up
  complete i h s w r = do
    r ← try_cache (λ c. mark_store h s w (entry_in in_mshr i c).type c) r
    r ← report_up env hooks clock in_mshr i r
    r ← try_cache (read_block h s w i) r
    r ← report env hooks clock in_mshr i r
    try_cache (λ c. release i (count_latency hooks.warmup_complete clock (entry_in in_mshr i c) c))
        r

  -- A fill of the normal hierarchy, which waits while the victim cannot be written back.
  unfoldable pub fill_normal : ℕ → Run W → Option (Run W)
  unfolding complete evict install
  fill_normal i r = do
    let p = entry_in in_mshr i r.cache
    let s = get_set p.address normal r.cache
    (w, world) ← choose_victim env s p r.cache r.world
    (do_fill, r') ← evict env hooks clock in_mshr i s w (record r { world = world })
    let filled =
        install env hooks clock in_mshr i (p.type == AccessType.prefetch) s w r'
        >>= complete i normal s w
        >>= λ r. some (on_cache update_fill_cycle r)
    if do_fill then filled else some r'

  unfoldable pub fill_speculative : ℕ → Run W → Option (Run W)
  unfolding complete retry speculative_way store_speculative
  fill_speculative i r = do
    let p = entry_in in_mshr i r.cache
    let s = get_set p.address speculative r.cache
    let w = speculative_way p s r.cache
    r' ←
        if w == r.cache.num_way_spec
        then try_cache (retry clock i) r
        else try_cache (λ c. store_speculative s w p (count_spec_miss in_mshr i c)) r
          >>= complete i speculative s w
    some (on_cache update_fill_cycle r')

  unfoldable pub fill_entry : Hierarchy → ℕ → Run W → Option (Run W)
  unfolding fill_normal fill_speculative
  fill_entry normal i r = fill_normal i r
  fill_entry speculative i r = fill_speculative i r

  unfoldable pub handle_fill : Run W → Option (Run W)
  unfolding fill_entry
  handle_fill r =
      let q = r.cache.mshr in
      let p = entry_at q q.next_fill_index in
      if q.next_fill_index == r.cache.mshr_size || p.cpu == num_cpus
      then some r
      else if leb q.next_fill_cycle (clock p.cpu)
      then check (ltb q.next_fill_index q.size) >> fill_entry p.is_speculative q.next_fill_index r
      else some r
