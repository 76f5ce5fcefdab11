-- ===== src/Cache/Writeback.antt =====
-- `CACHE::handle_writeback` of src/cache.cc: the oldest entry of the write queue.
pub mod Hits
use speculative_cache_hierar.Prelude.{
  ℕ, Bool, true, false, not, ◌&&◌, ◌||◌, Option, none, some, ltb, leb, ltb_ℤ, ◌==◌, if◌then◌else◌,
  check, ◌>>=◌, ◌>>◌,
}
use speculative_cache_hierar.AccessType
use speculative_cache_hierar.Packet.{Packet, Hierarchy, normal, speculative, num_cpus}
use speculative_cache_hierar.PacketQueue.{PacketQueue, entry_at}
use speculative_cache_hierar.Cache.{Cache, Neighbours}
use speculative_cache_hierar.Cache.Index.{get_set}
use speculative_cache_hierar.Cache.Lookup.{check_hit}
use speculative_cache_hierar.Cache.Mshr.{check_mshr}
use speculative_cache_hierar.Cache.Requests.{is_l1d}
use speculative_cache_hierar.Cache.Commit.{choose_victim}
use speculative_cache_hierar.Cache.Machine.{Run, Hooks, in_wq, in_mshr, edit_block, looked_up}
use speculative_cache_hierar.Cache.Machine.Steps.{
  on_cache, try_cache, block_in, entry_in, edit_entry, count_sim_hit, count_hit, count_miss,
  count_stall, count_merged, remove_entry, allocate, report_up, touch_way, evict, install, pass_on,
}

abbrev pub is_normal : Hierarchy → Bool
is_normal normal = true
is_normal speculative = false

-- A request `p` that meets an entry of the MSHR lowers its fill level and adds the caches to fill.
unfoldable pub widen : Packet → Packet → Packet
widen p e = record e {
  fill_level = if ltb_ℤ p.fill_level e.fill_level then p.fill_level else e.fill_level;
  fill_l1i = e.fill_l1i || p.fill_l1i;
  fill_l1d = e.fill_l1d || p.fill_l1d;
}

-- "update request": a demand request takes the place of a prefetch, but for its progress.
unfoldable pub replace_prefetch : Packet → Packet → Packet
replace_prefetch p e =
    if e.type == AccessType.prefetch
    then record p { returned = e.returned; event_cycle = e.event_cycle }
    else e

-- An entry that may be served: "handle the oldest entry".
abbrev pub is_due : (ℕ → ℕ) → PacketQueue → Bool
is_due clock q = let p = entry_at q q.head in leb p.event_cycle (clock p.cpu) && ltb 0 q.occupancy

-- The answer of a step on a miss: `miss_handled`.
abbrev pub handled {ℓ} : {R : Type ℓ} → Option R → Option (Bool × R)
handled m = m >>= λ r. some (true, r)

module _ {W : Type 0} (env : Neighbours W) (hooks : Hooks W) (clock : ℕ → ℕ) (i : ℕ) where
  -- The block at `w` of set `s` is written, and becomes dirty.
  unfoldable pub writeback_hit : ℕ → ℕ → Run W → Option (Run W)
  unfolding touch_way report_up remove_entry
  writeback_hit s w r = do
    r ← touch_way env hooks clock in_wq i s w (block_in normal s w r).full_addr 0 true r
    let marked =
        on_cache
          (λ c. edit_block normal s w (λ b. record b { dirty = true }) (count_sim_hit in_wq i c)) r
    let payload = (block_in normal s w marked).payload
    r ←
        report_up env hooks clock in_wq i
          (on_cache (λ c. edit_entry in_wq i (looked_up c.cache_type payload) c) marked)
    try_cache (λ c. remove_entry in_wq i (count_hit in_wq i c)) r

  -- A store that misses in the L1D goes to the MSHR; the branch there for the last level is dead.
  unfoldable pub new_store_miss : Run W → Option (Run W)
  unfolding allocate pass_on
  new_store_miss r =
      check r.cache.has_lower_level
      >> pass_on env hooks clock in_wq i env.lower_add_rq (on_cache (allocate in_wq i clock) r)

  merge_store : ℕ → Cache → Cache
  unfolding widen replace_prefetch
  merge_store m c =
      let p = entry_in in_wq i c in
      count_merged in_wq i (edit_entry in_mshr m (λ e. replace_prefetch p (widen p e)) c)

  -- With `miss_handled`. An MSHR of more than its size is an error.
  store_miss_step : Run W → Option (Bool × Run W)
  unfolding new_store_miss merge_store
  store_miss_step r = elim (check_mshr (entry_in in_wq i r.cache) r.cache) [
    | some m ↦ some (true, on_cache (merge_store m) r)
    | none ↦
        if ltb r.cache.mshr.occupancy r.cache.mshr_size
        then handled (new_store_miss r)
        else check (r.cache.mshr.occupancy == r.cache.mshr_size)
          >> some (false, on_cache (count_stall in_wq i) r)
  ]

  unfoldable pub store_miss : Run W → Option (Run W)
  unfolding store_miss_step remove_entry
  store_miss r = do
    (done, r') ← store_miss_step r
    if done then try_cache (λ c. remove_entry in_wq i (count_miss in_wq i c)) r' else some r'

  -- Elsewhere a writeback that misses is filled at once, over a victim.
  unfoldable pub writeback_fill : Run W → Option (Run W)
  unfolding evict install report_up remove_entry
  writeback_fill r = do
    let p = entry_in in_wq i r.cache
    let s = get_set p.address normal r.cache
    (w, world) ← choose_victim env s p r.cache r.world
    (do_fill, r') ← evict env hooks clock in_wq i s w (record r { world = world })
    let filled = install env hooks clock in_wq i false s w r' >>= λ r.
        report_up env hooks clock in_wq i
          (on_cache (edit_block normal s w (λ b. record b { dirty = true })) r)
        >>= try_cache (λ c. remove_entry in_wq i (count_miss in_wq i c))
    if do_fill then filled else some r'

module _ {W : Type 0} (env : Neighbours W) (hooks : Hooks W) (clock : ℕ → ℕ) where
  unfoldable pub serve_write : ℕ → Run W → Option (Run W)
  unfolding check_hit writeback_hit store_miss writeback_fill
  serve_write i r = do
    let p = entry_in in_wq i r.cache
    hit ← check_hit p normal r.cache
    check (is_normal p.is_speculative)
    elim hit [
      | some w ↦ writeback_hit env hooks clock i (get_set p.address normal r.cache) w r
      | none ↦
          if is_l1d r.cache.cache_type
          then store_miss env hooks clock i r
          else writeback_fill env hooks clock i r
    ]

  unfoldable pub handle_writeback : Run W → Option (Run W)
  unfolding serve_write
  handle_writeback r =
      let q = r.cache.wq in
      if not ((entry_at q q.head).cpu == num_cpus) && is_due clock q
      then serve_write q.head r
      else some r
