-- ===== src/Cache/Prefetch.antt =====
-- `CACHE::handle_prefetch` of src/cache.cc: up to `MAX_READ` entries of the prefetch queue.
use speculative_cache_hierar.Prelude.{
  ℕ, zero, suc, Bool, true, false, not, ◌&&◌, Option, none, some, ltb, ltb_ℤ, ◌==◌, if◌then◌else◌,
  check, when, ◌>>=◌, ◌>>◌,
}
use speculative_cache_hierar.AccessType
use speculative_cache_hierar.Packet.{Packet, normal, num_cpus}
use speculative_cache_hierar.PacketQueue.{entry_at}
use speculative_cache_hierar.Cache.{Cache, CacheType, l1d, l2c, llc, Neighbours, Answer}
use speculative_cache_hierar.Cache.Index.{get_set}
use speculative_cache_hierar.Cache.Lookup.{check_hit}
use speculative_cache_hierar.Cache.Mshr.{check_mshr}
use speculative_cache_hierar.Cache.Commit.{is_llc}
use speculative_cache_hierar.Cache.Machine.{Run, Hooks, in_pq, in_mshr, byte_address}
use speculative_cache_hierar.Cache.Machine.Steps.{
  on_cache, try_cache, block_in, for_core, entry_in, edit_entry, count_sim_hit, count_hit,
  count_miss, count_stall, count_merged, remove_request, allocate, report_up, touch_way,
  note_metadata, pass_on,
}
use speculative_cache_hierar.Cache.Writeback.{widen, is_due, handled}

module _ {W : Type 0} (env : Neighbours W) (hooks : Hooks W) (clock : ℕ → ℕ) (i : ℕ) where
  abbrev entry : Run W → Packet
  entry r = entry_in in_pq i r.cache

  -- "run prefetcher on prefetches from higher caches", at a hit and at a miss.
  train_prefetch : CacheType → Bool → ℕ → Run W → Option (Run W)
  train_prefetch l1d hit addr r =
      hooks.l1d_operate (entry r).full_addr (entry r).ip hit AccessType.prefetch r
  train_prefetch l2c hit addr r =
      hooks.l2c_operate (byte_address addr) (entry r).ip hit AccessType.prefetch
        (entry r).pf_metadata r
      >>= note_metadata env hooks clock in_pq i
  train_prefetch llc hit addr r =
      for_core (entry r).cpu
        (λ r'.
          hooks.llc_operate (byte_address addr) (entry r).ip hit AccessType.prefetch
            (entry r).pf_metadata r'
          >>= note_metadata env hooks clock in_pq i)
        r
  train_prefetch _ hit addr r = some r

  abbrev is_from_above : Run W → Bool
  is_from_above r = ltb_ℤ (entry r).pf_origin_level r.cache.fill_level

  unfoldable pub prefetch_hit : ℕ → ℕ → Run W → Option (Run W)
  unfolding touch_way train_prefetch report_up remove_request
  prefetch_hit s w r = do
    r ← touch_way env hooks clock in_pq i s w (block_in normal s w r).full_addr 0 true r
    let counted = on_cache (count_sim_hit in_pq i) r
    r ←
        when (is_from_above counted)
          (train_prefetch counted.cache.cache_type true (block_in normal s w counted).address)
          counted
    r ← report_up env hooks clock in_pq i r
    try_cache (λ c. remove_request in_pq i (count_hit in_pq i c)) r

  -- The lower level has room: the MSHR takes the prefetch if this cache is to be filled.
  send_prefetch : (Packet → W → Option (Answer W)) → Run W → Option (Run W)
  unfolding train_prefetch allocate pass_on
  send_prefetch add r = do
    r ← when (is_from_above r) (train_prefetch r.cache.cache_type false (entry r).address) r
    let is_filled = not (ltb_ℤ r.cache.fill_level (entry r).fill_level)
    pass_on env hooks clock in_pq i add
        (if is_filled then on_cache (allocate in_pq i clock) r else r)

  -- The last level sends it to the read queue of the memory. With no lower level it is dropped.
  unfoldable pub new_prefetch_miss : Run W → Option (Bool × Run W)
  unfolding send_prefetch
  new_prefetch_miss r =
      let kind = if is_llc r.cache.cache_type then 1 else 3 in
      let sent =
        if is_llc r.cache.cache_type
        then send_prefetch env.lower_add_rq r
        else send_prefetch env.lower_add_pq r in
      if not r.cache.has_lower_level
      then some (true, r)
      else if env.lower_occupancy kind (entry r).address r.world
          == env.lower_size kind (entry r).address r.world
      then some (false, r)
      else handled sent

  merge_prefetch_miss : ℕ → Cache → Cache
  unfolding widen
  merge_prefetch_miss m c =
      count_merged in_pq i (edit_entry in_mshr m (widen (entry_in in_pq i c)) c)

  -- With `miss_handled`. An MSHR of more than its size is an error.
  prefetch_miss_step : Run W → Option (Bool × Run W)
  unfolding new_prefetch_miss merge_prefetch_miss
  prefetch_miss_step r = elim (check_mshr (entry r) r.cache) [
    | some m ↦ some (true, on_cache (merge_prefetch_miss m) r)
    | none ↦
        if ltb r.cache.mshr.occupancy r.cache.mshr_size
        then new_prefetch_miss r
        else check (r.cache.mshr.occupancy == r.cache.mshr_size)
          >> some (false, on_cache (count_stall in_pq i) r)
  ]

  unfoldable pub prefetch_miss : Run W → Option (Run W)
  unfolding prefetch_miss_step remove_request
  prefetch_miss r = do
    (done, r') ← prefetch_miss_step r
    if done then try_cache (λ c. remove_request in_pq i (count_miss in_pq i c)) r' else some r'

module _ {W : Type 0} (env : Neighbours W) (hooks : Hooks W) (clock : ℕ → ℕ) where
  unfoldable pub serve_prefetch : ℕ → Run W → Option (Run W)
  unfolding check_hit prefetch_hit prefetch_miss
  serve_prefetch i r = do
    let p = entry_in in_pq i r.cache
    hit ← check_hit p normal r.cache
    elim hit [
      | some w ↦ prefetch_hit env hooks clock i (get_set p.address normal r.cache) w r
      | none ↦ prefetch_miss env hooks clock i r
    ]

  unfoldable pub prefetch_rounds : ℕ → Run W → Option (Run W)
  unfolding serve_prefetch
  prefetch_rounds zero r = some r
  prefetch_rounds (suc rounds) r =
      let q = r.cache.pq in
      let next = serve_prefetch q.head r >>= λ r'.
      (let rest = prefetch_rounds rounds r' in
        if r'.cache.reads_available == 0 then some r' else rest) in
      if not ((entry_at q q.head).cpu == num_cpus) && is_due clock q then next else some r

  unfoldable pub handle_prefetch : Run W → Option (Run W)
  unfolding prefetch_rounds
  handle_prefetch r = prefetch_rounds r.cache.max_read r
