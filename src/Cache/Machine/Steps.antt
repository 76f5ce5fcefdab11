-- ===== src/Cache/Machine/Steps.antt =====
-- The pieces of code that the handlers of src/cache.cc repeat, as steps on a running cache. Each is
-- about the entry `i` of the queue at `k`, the source's `RQ.entry[index]`, and reads it afresh.
use speculative_cache_hierar.Prelude.{
  ℕ, Bool, true, false, not, Option, some, List, [], ◌∷◌, ◌==◌, if◌then◌else◌, check, when, ◌>>=◌,
  ◌>>◌, dec_u32,
}
use speculative_cache_hierar.AccessType
use speculative_cache_hierar.Packet.{Packet, Hierarchy, normal, empty_packet, inflight}
use speculative_cache_hierar.Block.{Block}
use speculative_cache_hierar.PacketQueue.{entry_at, remove_queue}
use speculative_cache_hierar.Cache.{
  Cache, CacheType, l1i, l1d, l2c, llc, Neighbours, Answer, bump, bump_row,
}
use speculative_cache_hierar.Cache.Shape.{blocks, block_at}
use speculative_cache_hierar.Cache.Replacement.{update_replacement_state}
use speculative_cache_hierar.Cache.Lookup.{fill_cache}
use speculative_cache_hierar.Cache.Mshr.{add_mshr, return_data}
use speculative_cache_hierar.Cache.Requests.{return_up, update_at, add_processed}
use speculative_cache_hierar.Cache.Commit.{is_llc}
use speculative_cache_hierar.Cache.Machine.{
  Run, Hooks, Place, queue_of, with_queue, is_stlb, byte_address, line, double, is_reported,
}

-- The packets that come back, in turn.
unfoldable pub deliver : (ℕ → ℕ) → List Packet → Cache → Option Cache
deliver clock [] c = some c
deliver clock (p ∷ ps) c = return_data clock p c >>= λ c'. deliver clock ps c'

module _ {W : Type 0} where
  abbrev pub on_cache : (Cache → Cache) → Run W → Run W
  on_cache f r = record r { cache = f r.cache }

  abbrev pub try_cache : (Cache → Option Cache) → Run W → Option (Run W)
  try_cache f r = f r.cache >>= λ c. some (record r { cache = c })

  abbrev pub block_in : Hierarchy → ℕ → ℕ → Run W → Block
  block_in h s w r = block_at (blocks h r.cache) s w

  -- A call for the core `cpu`, which the last level notes in its member `cpu`.
  abbrev pub for_core : ℕ → (Run W → Option (Run W)) → Run W → Option (Run W)
  for_core cpu f r = f (on_cache (λ c. record c { cpu = cpu }) r) >>= λ r'.
      some (on_cache (λ c. record c { cpu = 0 }) r')

module _ (k : Place) (i : ℕ) where
  abbrev pub entry_in : Cache → Packet
  entry_in c = entry_at (queue_of k c) i

  abbrev pub edit_entry : (Packet → Packet) → Cache → Cache
  edit_entry f c = with_queue k (update_at i f (queue_of k c)) c

  -- `STALL[type]++`, `MSHR_MERGED[type]++`, and the two counters of a hit and of a miss.
  abbrev pub count_stall : Cache → Cache
  count_stall c = record c { stall = bump (entry_in c).type c.stall }

  abbrev pub count_merged : Cache → Cache
  count_merged c = record c { mshr_merged = bump (entry_in c).type c.mshr_merged }

  abbrev pub count_hit : Cache → Cache
  count_hit c = record c {
    hits = bump (entry_in c).type c.hits;
    accesses = bump (entry_in c).type c.accesses;
  }

  abbrev pub count_miss : Cache → Cache
  count_miss c = record c {
    misses = bump (entry_in c).type c.misses;
    accesses = bump (entry_in c).type c.accesses;
  }

  -- COLLECT STATS
  abbrev pub count_sim_hit : Cache → Cache
  count_sim_hit c = record c {
    sim_hit = bump_row (entry_in c).cpu (entry_in c).type c.sim_hit;
    sim_access = bump_row (entry_in c).cpu (entry_in c).type c.sim_access;
  }

  abbrev pub count_sim_miss : Cache → Cache
  count_sim_miss c = record c {
    sim_miss = bump_row (entry_in c).cpu (entry_in c).type c.sim_miss;
    sim_access = bump_row (entry_in c).cpu (entry_in c).type c.sim_access;
  }

  abbrev pub count_spec_miss : Cache → Cache
  count_spec_miss c = record c {
    spec_miss = bump_row (entry_in c).cpu (entry_in c).type c.spec_miss;
    spec_access = bump_row (entry_in c).cpu (entry_in c).type c.spec_access;
  }

  -- `queue.remove_queue(&queue.entry[index])`, and for a request that was read
  -- `reads_available_this_cycle--`.
  unfoldable pub remove_entry : Cache → Option Cache
  remove_entry c = remove_queue i (queue_of k c) >>= λ q. some (with_queue k q c)

  unfoldable pub remove_request : Cache → Option Cache
  unfolding remove_entry
  remove_request c =
      remove_entry c >>= λ c'. some (record c' { reads_available = dec_u32 c'.reads_available })

  -- `add_mshr(&queue.entry[index])`, which stamps the entry.
  unfoldable pub allocate : (ℕ → ℕ) → Cache → Cache
  allocate clock c =
      let added = add_mshr clock (entry_in c) inflight c in edit_entry (λ _. added.0) added.1

module _ {W : Type 0} (env : Neighbours W) (hooks : Hooks W) (clock : ℕ → ℕ) (k : Place)
    (i : ℕ) where
  -- "update processed packets": an answer for the core, if it finds room.
  unfoldable pub report : Run W → Option (Run W)
  report r =
      let p = entry_in k i r.cache in
      when (is_reported r.cache.cache_type p.type) (try_cache (add_processed env clock p)) r

  -- "check fill level".
  unfoldable pub report_up : Run W → Option (Run W)
  report_up r = return_up env clock r.cache (entry_in k i r.cache) r.world >>= λ w.
      some (record r { world = w })

  -- "update replacement policy", with the address that the call passes.
  unfoldable pub touch_way : ℕ → ℕ → ℕ → ℕ → Bool → Run W → Option (Run W)
  touch_way s w full_addr victim_addr hit r =
      let p = entry_in k i r.cache in
      if is_llc r.cache.cache_type
      then hooks.llc_update p.cpu s w full_addr p.ip victim_addr p.type hit r
      else some (on_cache (update_replacement_state s w p.type hit) r)

  -- The packet that takes a dirty block to the lower level.
  unfoldable pub writeback_packet : Block → Packet → Cache → Packet
  writeback_packet b p c = record empty_packet {
    fill_level = double c.fill_level;
    cpu = p.cpu;
    address = b.address;
    full_addr = b.full_addr;
    payload = b.payload;
    instr_id = p.instr_id;
    ip = 0;
    type = AccessType.writeback;
    event_cycle = clock p.cpu;
  }

  -- "is this dirty?": the victim at `w` of set `s` goes to the lower level. The answer is `do_fill`.
  unfoldable pub evict : ℕ → ℕ → Run W → Option (Bool × Run W)
  unfolding writeback_packet
  evict s w r =
      let b = block_in normal s w r in
      if not b.dirty
      then some (true, r)
      else if not r.cache.has_lower_level
      then check (is_stlb r.cache.cache_type) >> some (true, r)
      else if env.lower_occupancy 2 b.address r.world == env.lower_size 2 b.address r.world
      then some (
        false,
        record {
          cache = count_stall k i r.cache;
          world = env.lower_increment_wq_full b.address r.world;
        },
      )
      else env.lower_add_wq (writeback_packet b (entry_in k i r.cache) r.cache) r.world >>= λ w'.
          some (true, record r { world = w' })

  -- The metadata that a prefetcher returns goes into the entry.
  abbrev pub note_metadata : ℕ × Run W → Option (Run W)
  note_metadata m = some (on_cache (edit_entry k i (λ p. record p { pf_metadata = m.0 })) m.1)

  -- "update prefetcher", at a fill.
  unfoldable pub train_fill : CacheType → Bool → ℕ → ℕ → Run W → Option (Run W)
  train_fill l1i prefetch s w r =
      let p = entry_in k i r.cache in
      hooks.l1i_cache_fill p.cpu (line p.ip) s w prefetch (line (block_in normal s w r).ip) r
  train_fill l1d prefetch s w r =
      let p = entry_in k i r.cache in
      hooks.l1d_cache_fill p.full_addr s w prefetch (byte_address (block_in normal s w r).address)
        p.pf_metadata r
  train_fill l2c prefetch s w r =
      let p = entry_in k i r.cache in
      hooks.l2c_cache_fill (byte_address p.address) s w prefetch
        (byte_address (block_in normal s w r).address) p.pf_metadata r
      >>= note_metadata
  train_fill llc prefetch s w r =
      let p = entry_in k i r.cache in
      for_core p.cpu
        (λ r'.
          hooks.llc_cache_fill (byte_address p.address) s w prefetch
            (byte_address (block_in normal s w r').address) p.pf_metadata r'
          >>= note_metadata)
        r
  train_fill _ prefetch s w r = some r

  -- The steps from the prefetcher to `fill_cache`, over a victim that is gone.
  unfoldable pub install : Bool → ℕ → ℕ → Run W → Option (Run W)
  unfolding train_fill touch_way
  install prefetch s w r = do
    r ← train_fill r.cache.cache_type prefetch s w r
    r ← touch_way s w (entry_in k i r.cache).full_addr (block_in normal s w r).full_addr false r
    try_cache (λ c. fill_cache s w (entry_in k i c) normal (count_sim_miss k i c)) r

  -- A request for the lower level's read queue, once the MSHR has it, and for its prefetch queue.
  unfoldable pub pass_on : (Packet → W → Option (Answer W)) → Run W → Option (Run W)
  pass_on add r = do
    answer ← add (entry_in k i r.cache) r.world
    c ← deliver clock answer.returned r.cache
    some (record { cache = edit_entry k i (λ _. answer.packet) c; world = answer.world })
