-- ===== src/Cache/Requests.antt =====
-- `CACHE::add_rq`, `add_wq`, `add_pq`, `add_cq` and the functions on them in src/cache.cc. `clock` is
-- `current_core_cycle`, by core.
pub mod Queueing
pub mod Reads
pub mod Forwards
pub mod Prefetches
use speculative_cache_hierar.Prelude.{
  ℕ, zero, suc, ◌+◌, ◌/◌, ◌^◌, ℤ, pos, negsuc, ltb_ℤ, to_u16, Bool, true, false, not, ◌&&◌, ◌||◌,
  Option, none, some, List, ltb, leb, ◌==◌, if◌then◌else◌, set, check, when, ◌>>=◌, ◌>>◌, inc_u32,
  inc_u64,
}
use speculative_cache_hierar.AccessType
use speculative_cache_hierar.FastSet
use speculative_cache_hierar.Packet.{Packet, empty_packet}
use speculative_cache_hierar.PacketQueue.{PacketQueue, entry_at, advance, check_queue, add_queue}
use speculative_cache_hierar.Cache.{
  Cache, CacheType, itlb, dtlb, stlb, l1i, l1d, l2c, llc, Neighbours, bump, fill_l1, fill_l2,
}
use speculative_cache_hierar.Cache.Mshr.{later_by}

abbrev pub is_l1d : CacheType → Bool
is_l1d l1d = true
is_l1d _ = false

-- The caches that must not find a request in their write queue.
abbrev pub forwards_reads : CacheType → Bool
forwards_reads itlb = false
forwards_reads dtlb = false
forwards_reads l1i = false
forwards_reads _ = true

abbrev pub is_level_2 : ℤ → Bool
is_level_2 (pos n) = n == 2
is_level_2 (negsuc n) = false

-- What an add returns: its code, and the new state.
pub record Reply (W : Type 0) : Type 0 where
  pub code : ℤ
  pub packet : Packet
  pub cache : Cache
  pub world : W

-- -1 for a request that was taken, -2 for one that was not; `pos i` is a merge at index `i`.
abbrev pub taken : ℤ
taken = negsuc 0

abbrev pub refused : ℤ
refused = negsuc 1

-- An entry at the tail, with the latency added; this is written out in each `add_…q`.
unfoldable pub enqueue : (ℕ → ℕ) → ℕ → Packet → PacketQueue → PacketQueue
enqueue clock latency packet q = record q {
  entry =
      set q.entry q.tail
        (record packet { event_cycle = later_by latency (clock packet.cpu) packet.event_cycle });
  occupancy = inc_u32 q.occupancy;
  tail = advance q q.tail;
}

-- The check before it, that the entry is not in use.
abbrev pub is_unused : PacketQueue → Bool
is_unused q = (entry_at q q.tail).address == 0

-- A request that meets a queued one is merged into it.
pub merge_read : Packet → Packet → Packet
merge_read p e =
    let flags = record e {
      fill_l1i = e.fill_l1i || p.fill_l1i;
      fill_l1d = e.fill_l1d || p.fill_l1d;
    } in
    if p.instruction
    then record flags {
      rob_index_depend_on_me = FastSet.insert (to_u16 p.rob_index) e.rob_index_depend_on_me;
      instruction = true;
      instr_merged = true;
    }
    else if p.type == AccessType.rfo
    then record flags {
      sq_index_depend_on_me = FastSet.insert (to_u16 (pos p.sq_index)) e.sq_index_depend_on_me;
      store_merged = true;
      is_data = true;
    }
    else record flags {
      lq_index_depend_on_me = FastSet.insert (to_u16 (pos p.lq_index)) e.lq_index_depend_on_me;
      load_merged = true;
      is_data = true;
    }

pub merge_prefetch : Packet → Packet → Packet
merge_prefetch p e = record e {
  fill_level = if ltb_ℤ p.fill_level e.fill_level then p.fill_level else e.fill_level;
  instruction = e.instruction || p.instruction;
  is_data = e.is_data || p.is_data;
  fill_l1i = e.fill_l1i || p.fill_l1i;
  fill_l1d = e.fill_l1d || p.fill_l1d;
}

abbrev pub update_at : ℕ → (Packet → Packet) → PacketQueue → PacketQueue
update_at i f q = record q { entry = set q.entry i (f (entry_at q i)) }

abbrev pub count_merge : PacketQueue → PacketQueue
count_merge q = record q { merges = inc_u64 q.merges; accesses = inc_u64 q.accesses }

abbrev pub count_full : PacketQueue → PacketQueue
count_full q = record q { fulls = inc_u64 q.fulls }

abbrev pub count_entry : PacketQueue → PacketQueue
count_entry q = record q { to_cache = inc_u64 q.to_cache; accesses = inc_u64 q.accesses }

abbrev pub count_access : PacketQueue → PacketQueue
count_access q = record q { accesses = inc_u64 q.accesses }

abbrev pub count_forward : PacketQueue → PacketQueue
count_forward q = record q { forwards = inc_u64 q.forwards }

module _ {W : Type 0} (env : Neighbours W) (clock : ℕ → ℕ) where
  -- "check fill level": the packet goes to the upper caches that want it, if it is meant for one.
  unfoldable pub return_up : Cache → Packet → W → Option W
  return_up c p w =
      let to_icache = if is_level_2 c.fill_level then p.fill_l1i else p.instruction in
      let to_dcache = if is_level_2 c.fill_level then p.fill_l1d else p.is_data in
      if ltb_ℤ p.fill_level c.fill_level
      then when to_icache (env.return_icache p.cpu p) w
        >>= when to_dcache (env.return_dcache p.cpu p)
      else some w

  -- The packet of a read that finds its block in the write queue, at index `i`.
  abbrev pub with_data : Cache → ℕ → Packet → Packet
  with_data c i p =
      if ltb_ℤ p.fill_level c.fill_level
      then record p { payload = (entry_at c.wq i).payload }
      else p

  -- `if (PROCESSED.occupancy < PROCESSED.SIZE) PROCESSED.add_queue(packet)`.
  unfoldable pub add_processed : Packet → Cache → Option Cache
  add_processed p c =
      when (ltb c.processed.occupancy c.processed.size)
        (λ c. add_queue p c.processed >>= λ q. some (record c { processed = q })) c

  -- A read that the write queue answers.
  pub forward_read : ℕ → Packet → Cache → W → Option (Reply W)
  forward_read i packet c w = do
    let p = with_data c i packet
    w' ← return_up c p w
    check (forwards_reads c.cache_type)
    c' ← when (is_l1d c.cache_type && not (p.type == AccessType.prefetch)) (add_processed p) c
    some (record {
      code = taken;
      packet = p;
      cache = record c' {
        hits = bump p.type c'.hits;
        accesses = bump p.type c'.accesses;
        wq = count_forward c'.wq;
        rq = count_access c'.rq;
      };
      world = w';
    })

  -- A read that is not answered: it is merged, refused or queued.
  pub queue_read : Packet → Cache → W → Option (Reply W)
  queue_read packet c w = elim (check_queue c.rq packet) [
    | some i ↦ some (record {
      code = pos i;
      packet = packet;
      cache = record c { rq = count_merge (update_at i (merge_read packet) c.rq) };
      world = w;
    })
    | none ↦
        if c.rq.occupancy == c.rq_size
        then some (record {
          code = refused;
          packet = packet;
          cache = record c { rq = count_full c.rq };
          world = w;
        })
        else check (is_unused c.rq)
          >> check (not (packet.address == 0))
          >> some (record {
            code = taken;
            packet = packet;
            cache = record c { rq = count_entry (enqueue clock c.latency packet c.rq) };
            world = w;
          })
  ]

  pub add_rq : Packet → Cache → W → Option (Reply W)
  unfolding forward_read queue_read
  add_rq packet c w = elim (check_queue c.wq packet) [
    | some i ↦ forward_read i packet c w
    | none ↦ queue_read packet c w
  ]

  -- A prefetch that the write queue answers.
  pub forward_prefetch : ℕ → Packet → Cache → W → Option (Reply W)
  forward_prefetch i packet c w = do
    let p = with_data c i packet
    w' ← return_up c p w
    some (record {
      code = taken;
      packet = p;
      cache = record c {
        hits = bump p.type c.hits;
        accesses = bump p.type c.accesses;
        wq = count_forward c.wq;
        pq = count_access c.pq;
      };
      world = w';
    })

  pub queue_prefetch : Packet → Cache → W → Option (Reply W)
  queue_prefetch packet c w = elim (check_queue c.pq packet) [
    | some i ↦ some (record {
      code = pos i;
      packet = packet;
      cache = record c { pq = count_merge (update_at i (merge_prefetch packet) c.pq) };
      world = w;
    })
    | none ↦
        if c.pq.occupancy == c.pq_size
        then some (record {
          code = refused;
          packet = packet;
          cache = record c { pq = count_full c.pq };
          world = w;
        })
        else check (is_unused c.pq)
          >> check (not (packet.address == 0))
          >> some (record {
            code = taken;
            packet = packet;
            cache = record c { pq = count_entry (enqueue clock c.latency packet c.pq) };
            world = w;
          })
  ]

  pub add_pq : Packet → Cache → W → Option (Reply W)
  unfolding forward_prefetch queue_prefetch
  add_pq packet c w = elim (check_queue c.wq packet) [
    | some i ↦ forward_prefetch i packet c w
    | none ↦ queue_prefetch packet c w
  ]
