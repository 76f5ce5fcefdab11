-- ===== src/Cache/Writes.antt =====
-- `CACHE::add_wq`, `add_cq`, `prefetch_line`, `kpc_prefetch_line`, `get_occupancy`, `get_size` and
-- `increment_WQ_FULL` of src/cache.cc.
pub mod Adds
pub mod PrefetchLine
use speculative_cache_hierar.Prelude.{
  ℕ, ◌+◌, ◌/◌, ◌^◌, ℤ, pos, Bool, true, false, not, ◌&&◌, Option, none, some, ltb, leb, ◌==◌,
  if◌then◌else◌, check, ◌>>=◌, ◌>>◌, inc_u64,
}
use speculative_cache_hierar.AccessType
use speculative_cache_hierar.Packet.{Packet, empty_packet}
use speculative_cache_hierar.PacketQueue.{PacketQueue, check_queue}
use speculative_cache_hierar.Cache.{Cache, Neighbours, fill_l1}
use speculative_cache_hierar.Cache.Requests.{
  Reply, taken, refused, enqueue, is_unused, count_merge, count_full, count_entry, add_pq,
}

pub add_wq : (ℕ → ℕ) → Packet → Cache → Option (ℤ × Cache)
add_wq clock packet c = elim (check_queue c.wq packet) [
  | some i ↦ some (pos i, record c { wq = count_merge c.wq })
  | none ↦
      check (not (leb c.wq.size c.wq.occupancy))
      >> check (is_unused c.wq)
      >> some (taken, record c { wq = count_entry (enqueue clock c.latency packet c.wq) })
]

-- The commit queue: a duplicate is dropped, whatever the two messages say.
unfoldable pub add_cq : (ℕ → ℕ) → Packet → Cache → Option (ℤ × Cache)
add_cq clock packet c = elim (check_queue c.cq packet) [
  | some i ↦ some (pos i, record c { cq = count_merge c.cq })
  | none ↦
      if c.cq.occupancy == c.cq_size
      then some (refused, record c { cq = count_full c.cq })
      else check (is_unused c.cq)
        >> check (not (packet.address == 0))
        >> some (taken, record c { cq = count_entry (enqueue clock c.latency packet c.cq) })
]

abbrev is_level_1 : ℤ → Bool
is_level_1 (pos n) = n == 1
is_level_1 _ = false

-- The packet of a prefetch: `LOG2_BLOCK_SIZE` is 6.
pub prefetch_packet : (ℕ → ℕ) → ℕ → ℕ → ℤ → ℕ → Cache → Packet
prefetch_packet clock ip pf_addr level metadata c = record empty_packet {
  fill_level = level;
  pf_origin_level = c.fill_level;
  fill_l1d = is_level_1 level;
  pf_metadata = metadata;
  cpu = c.cpu;
  address = pf_addr / 2 ^ 6;
  full_addr = pf_addr;
  ip = ip;
  type = AccessType.prefetch;
  event_cycle = clock c.cpu;
}

-- `(base_addr >> LOG2_PAGE_SIZE) == (pf_addr >> LOG2_PAGE_SIZE)`.
abbrev pub same_page : ℕ → ℕ → Bool
same_page a b = a / 2 ^ 12 == b / 2 ^ 12

module _ {W : Type 0} (env : Neighbours W) (clock : ℕ → ℕ) where
  -- What both prefetch functions do with the packet; the Bool is what they return.
  issue : Packet → ℕ → ℕ → Cache → W → Option (Bool × Cache × W)
  issue packet base_addr pf_addr c w =
      if ltb c.pq.occupancy c.pq.size && same_page base_addr pf_addr
      then (add_pq env clock packet c w >>= λ r.
          some (true, record r.cache { pf_issued = inc_u64 r.cache.pf_issued }, r.world))
      else some (false, c, w)

  pub prefetch_line : ℕ → ℕ → ℕ → ℤ → ℕ → Cache → W → Option (Bool × Cache × W)
  unfolding issue prefetch_packet
  prefetch_line ip base_addr pf_addr level metadata c w =
      issue (prefetch_packet clock ip pf_addr level metadata c) base_addr pf_addr
        (record c { pf_requested = inc_u64 c.pf_requested }) w

  -- It counts no request, and gives the prefetch 0 for its ip.
  pub kpc_prefetch_line : ℕ → ℕ → ℤ → ℤ → ℤ → ℤ → ℤ → ℕ → Cache → W → Option (Bool × Cache × W)
  unfolding issue prefetch_packet
  kpc_prefetch_line base_addr pf_addr level delta depth signature confidence metadata c w =
      let plain = prefetch_packet clock 0 pf_addr level metadata c in
      issue
        (record plain {
          delta = delta;
          depth = depth;
          signature = signature;
          confidence = confidence;
        })
        base_addr pf_addr c w

-- The queue that a number names, with 0 for the MSHR.
pub get_occupancy : ℕ → Cache → ℕ
get_occupancy kind c =
    if kind == 0
    then c.mshr.occupancy
    else if kind == 1
    then c.rq.occupancy
    else if kind == 2
    then c.wq.occupancy
    else if kind == 3
    then c.pq.occupancy
    else if kind == 4
    then c.cq.occupancy
    else 0

pub get_size : ℕ → Cache → ℕ
get_size kind c =
    if kind == 0
    then c.mshr.size
    else if kind == 1
    then c.rq.size
    else if kind == 2
    then c.wq.size
    else if kind == 3
    then c.pq.size
    else if kind == 4
    then c.cq.size
    else 0

pub increment_wq_full : Cache → Cache
increment_wq_full c = record c { wq = count_full c.wq }
