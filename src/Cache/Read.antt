-- ===== src/Cache/Read.antt =====
-- `CACHE::handle_read` of src/cache.cc: up to `MAX_READ` entries of the read queue.
pub mod Isolation
pub mod Merging
pub mod Passing
pub mod Misses
use speculative_cache_hierar.Prelude.{
  ℕ, zero, suc, ◌/◌, ◌^◌, pos, Bool, true, false, not, ◌&&◌, ◌||◌, Option, none, some, ltb, to_u16,
  ◌==◌, if◌then◌else◌, check, when, ◌>>=◌, ◌>>◌, inc_u64,
}
use speculative_cache_hierar.AccessType
use speculative_cache_hierar.FastSet
use speculative_cache_hierar.Packet.{Packet, Hierarchy, normal, speculative, num_cpus}
use speculative_cache_hierar.Block.{Block}
use speculative_cache_hierar.PacketQueue.{entry_at}
use speculative_cache_hierar.Cache.{
  Cache, CacheType, itlb, dtlb, stlb, l1i, l1d, l2c, llc, Neighbours, rob_size,
}
use speculative_cache_hierar.Cache.Index.{get_set}
use speculative_cache_hierar.Cache.Lookup.{check_hit}
use speculative_cache_hierar.Cache.Mshr.{check_mshr, return_data}
use speculative_cache_hierar.Cache.Commit.{is_llc}
use speculative_cache_hierar.Cache.Shape.{blocks, block_at}
use speculative_cache_hierar.Cache.Machine.{
  Run, Hooks, Place, in_rq, in_mshr, edit_block, is_stlb, byte_address, looked_up,
}
use speculative_cache_hierar.Cache.Machine.Steps.{
  on_cache, try_cache, block_in, for_core, entry_in, edit_entry, count_sim_hit, count_hit,
  count_miss, count_stall, count_merged, remove_request, allocate, report, report_up, touch_way,
  pass_on,
}
use speculative_cache_hierar.Cache.Writeback.{is_normal, widen, replace_prefetch, is_due, handled}

-- `SQ_SIZE` and `LQ_SIZE`.
abbrev pub sq_size : ℕ
sq_size = 72

abbrev pub lq_size : ℕ
lq_size = 128

-- "mark merged consumer": the request `p` joins the entry `e` of the MSHR.
unfoldable pub join_miss : Packet → Packet → Packet
join_miss p e =
    let store = record e {
      store_merged = e.store_merged || p.tlb_access;
      sq_index_depend_on_me =
          if p.tlb_access
          then FastSet.join (FastSet.insert (to_u16 (pos p.sq_index)) e.sq_index_depend_on_me)
              p.sq_index_depend_on_me sq_size
          else e.sq_index_depend_on_me;
      load_merged = e.load_merged || p.load_merged;
      lq_index_depend_on_me =
          if p.load_merged
          then FastSet.join e.lq_index_depend_on_me p.lq_index_depend_on_me lq_size
          else e.lq_index_depend_on_me;
    } in
    let fetched = FastSet.insert (to_u16 p.rob_index) e.rob_index_depend_on_me in
    let fetch = record e {
      instruction = true;
      instr_merged = true;
      rob_index_depend_on_me =
          if p.instr_merged
          then FastSet.join fetched p.rob_index_depend_on_me rob_size
          else fetched;
    } in
    let load = record e {
      is_data = true;
      load_merged = true;
      lq_index_depend_on_me =
          FastSet.join (FastSet.insert (to_u16 (pos p.lq_index)) e.lq_index_depend_on_me)
            p.lq_index_depend_on_me lq_size;
      store_merged = e.store_merged || p.store_merged;
      sq_index_depend_on_me =
          if p.store_merged
          then FastSet.join e.sq_index_depend_on_me p.sq_index_depend_on_me sq_size
          else e.sq_index_depend_on_me;
    } in
    if p.type == AccessType.rfo then store else if p.instruction then fetch else load

-- What a read leaves of the entry of the MSHR that it meets.
unfoldable pub merge_miss : Packet → Packet → Packet
unfolding join_miss widen replace_prefetch
merge_miss p e = replace_prefetch p (widen p (join_miss p e))

-- The request at `i` joins entry `m` of the MSHR.
unfoldable pub merge_read_miss : ℕ → ℕ → Cache → Cache
unfolding merge_miss
merge_read_miss i m c =
    count_merged in_rq i (edit_entry in_mshr m (merge_miss (entry_in in_rq i c)) c)

-- "update prefetch stats and reset prefetch bit".
pub use_block : Hierarchy → ℕ → ℕ → Cache → Cache
use_block h s w c =
    let b = block_at (blocks h c) s w in
    edit_block h s w (λ b. record b { prefetch = false; used = true })
      (if b.prefetch then record c { pf_useful = inc_u64 c.pf_useful } else c)

module _ {W : Type 0} (env : Neighbours W) (hooks : Hooks W) (clock : ℕ → ℕ) (i : ℕ) where
  -- "update prefetcher on load instruction", at a hit (with the block's address and prefetch bit) and at a miss.
  unfoldable pub train_read : CacheType → Bool → ℕ → Bool → Run W → Option (Run W)
  train_read l1i hit addr prefetch r =
      hooks.l1i_operate (entry_in in_rq i r.cache).cpu (entry_in in_rq i r.cache).ip hit prefetch r
  train_read l1d hit addr prefetch r =
      let p = entry_in in_rq i r.cache in hooks.l1d_operate p.full_addr p.ip hit p.type r
  train_read l2c hit addr prefetch r =
      let p = entry_in in_rq i r.cache in
      hooks.l2c_operate (byte_address addr) p.ip hit p.type 0 r >>= λ m. some m.1
  train_read llc hit addr prefetch r =
      let p = entry_in in_rq i r.cache in
      for_core p.cpu
        (λ r'. hooks.llc_operate (byte_address addr) p.ip hit p.type 0 r' >>= λ m. some m.1) r
  train_read _ hit addr prefetch r = some r

  abbrev is_load : Run W → Bool
  is_load r = (entry_in in_rq i r.cache).type == AccessType.load

  -- The data of the block at `w` of set `s`, for the core if it is next to it.
  unfoldable pub read_data : Hierarchy → ℕ → ℕ → Run W → Option (Run W)
  unfolding report
  read_data h s w r =
      let payload = (block_in h s w r).payload in
      report env hooks clock in_rq i
        (on_cache (λ c. edit_entry in_rq i (looked_up c.cache_type payload) c) r)

  -- The end of a hit: the caches above, the block's flags, the counters, and the queue.
  unfoldable pub answer_hit : Hierarchy → ℕ → ℕ → Run W → Option (Run W)
  unfolding report_up use_block remove_request
  answer_hit h s w r = do
    r ← report_up env hooks clock in_rq i (on_cache (count_sim_hit in_rq i) r)
    try_cache (λ c. remove_request in_rq i (count_hit in_rq i (use_block h s w c))) r

  unfoldable pub read_hit : ℕ → ℕ → Run W → Option (Run W)
  unfolding read_data train_read touch_way answer_hit
  read_hit s w r = do
    r ← read_data normal s w r
    let b = block_in normal s w r
    r ← when (is_load r) (train_read r.cache.cache_type true b.address b.prefetch) r
    r ← touch_way env hooks clock in_rq i s w (block_in normal s w r).full_addr 0 true r
    answer_hit normal s w r

  -- A hit in the speculative hierarchy trains nothing and promotes nothing.
  unfoldable pub read_speculative_hit : ℕ → ℕ → Run W → Option (Run W)
  unfolding read_data answer_hit
  read_speculative_hit s w r = read_data speculative s w r >>= answer_hit speculative s w

  -- The page walk of the last translation cache, which answers at once.
  unfoldable pub walk : Run W → Option (Run W)
  walk r = do
    let p = entry_in in_rq i r.cache
    (pa, r) ← hooks.va_to_pa p.cpu p.instr_id p.full_addr p.address r
    let edited =
        on_cache
          (edit_entry in_rq i (λ e. record e { payload = pa / 2 ^ 12; event_cycle = clock p.cpu }))
          r
    try_cache (λ c. return_data clock (entry_in in_rq i c) c) edited

  -- A miss that no entry waits for, with room in the MSHR. The last level asks whether the memory has
  -- room.
  unfoldable pub new_read_miss : Run W → Option (Bool × Run W)
  unfolding allocate pass_on walk
  new_read_miss r =
      let address = (entry_in in_rq i r.cache).address in
      let allocated = on_cache (allocate in_rq i clock) r in
      let passed = handled (pass_on env hooks clock in_rq i env.lower_add_rq allocated) in
      if is_llc r.cache.cache_type
      then check r.cache.has_lower_level
        >> (if env.lower_occupancy 1 address r.world == env.lower_size 1 address r.world
            then some (false, r)
            else passed)
      else if r.cache.has_lower_level
      then passed
      else if is_stlb r.cache.cache_type
      then handled (walk allocated)
      else some (true, allocated)

  -- With `miss_handled`. An MSHR of more than its size is an error.
  unfoldable pub read_miss_step : Run W → Option (Bool × Run W)
  unfolding new_read_miss merge_read_miss
  read_miss_step r = elim (check_mshr (entry_in in_rq i r.cache) r.cache) [
    | some m ↦ some (true, on_cache (merge_read_miss i m) r)
    | none ↦
        if ltb r.cache.mshr.occupancy r.cache.mshr_size
        then new_read_miss r
        else check (r.cache.mshr.occupancy == r.cache.mshr_size)
          >> some (false, on_cache (count_stall in_rq i) r)
  ]

  -- The end of a miss that was handled. A speculative request trains nothing.
  unfoldable pub finish_miss : Hierarchy → Run W → Option (Run W)
  unfolding train_read remove_request
  finish_miss nature r = do
    r ←
        when (is_normal nature && is_load r)
          (train_read r.cache.cache_type false (entry_in in_rq i r.cache).address false) r
    try_cache (λ c. remove_request in_rq i (count_miss in_rq i c)) r

  unfoldable pub read_miss : Run W → Option (Run W)
  unfolding read_miss_step finish_miss
  read_miss r = do
    (done, r') ← read_miss_step r
    let finished = finish_miss (entry_in in_rq i r.cache).is_speculative r'
    if done then finished else some r'

module _ {W : Type 0} (env : Neighbours W) (hooks : Hooks W) (clock : ℕ → ℕ) where
  -- What `check_hit` finds in the speculative hierarchy; with no speculative set it is not a hit.
  serve_speculative : ℕ → Option ℕ → Run W → Option (Run W)
  unfolding read_speculative_hit read_miss
  serve_speculative i none r = read_miss env hooks clock i r
  serve_speculative i (some w) r =
      if r.cache.num_set_spec == 0
      then read_miss env hooks clock i r
      else read_speculative_hit env hooks clock i
          (get_set (entry_in in_rq i r.cache).address speculative r.cache) w r

  -- The normal hierarchy comes first.
  unfoldable pub serve_read : ℕ → Run W → Option (Run W)
  unfolding check_hit read_hit serve_speculative
  serve_read i r = do
    let p = entry_in in_rq i r.cache
    hit ← check_hit p normal r.cache
    elim hit [
      | some w ↦ read_hit env hooks clock i (get_set p.address normal r.cache) w r
      | none ↦ check_hit p speculative r.cache >>= λ found. serve_speculative i found r
    ]

  unfoldable pub read_rounds : ℕ → Run W → Option (Run W)
  unfolding serve_read
  read_rounds zero r = some r
  read_rounds (suc rounds) r =
      let q = r.cache.rq in
      let next = serve_read q.head r >>= λ r'.
      (let rest = read_rounds rounds r' in
        if r'.cache.reads_available == 0 then some r' else rest) in
      if not ((entry_at q q.head).cpu == num_cpus) && is_due clock q then next else some r

  unfoldable pub handle_read : Run W → Option (Run W)
  unfolding read_rounds
  handle_read r = read_rounds r.cache.max_read r
