-- ===== src/Cache/Commit.antt =====
-- `CACHE::commit_blocks` of src/cache.cc: what becomes of speculative blocks when their instruction
-- commits or is squashed.
pub mod Settle
pub mod Promotion
pub mod Rounds
use speculative_cache_hierar.Prelude.{
  ℕ, zero, suc, Bool, true, false, not, ◌&&◌, Option, none, some, List, ◌==◌, if◌then◌else◌, check,
  when, ◌>>=◌, ◌>>◌, set,
}
use speculative_cache_hierar.AccessType
use speculative_cache_hierar.Packet.{Packet, Hierarchy, normal, speculative, empty_packet}
use speculative_cache_hierar.Block.{Block}
use speculative_cache_hierar.PacketQueue.{PacketQueue, entry_at, remove_queue}
use speculative_cache_hierar.Cache.{
  Cache, CacheType, itlb, dtlb, stlb, l1i, l1d, l2c, llc, Neighbours, bump, row, way_at,
}
use speculative_cache_hierar.Cache.Index.{get_set}
use speculative_cache_hierar.Cache.Replacement.{find_victim}
use speculative_cache_hierar.Cache.Lookup.{check_hit, fill_cache, drop_way}

abbrev pub is_speculative : Hierarchy → Bool
is_speculative normal = false
is_speculative speculative = true

-- The packet that carries a speculative block into the normal hierarchy.
pub block_packet : Block → Packet
block_packet b = record empty_packet {
  delta = b.delta;
  depth = b.depth;
  signature = b.signature;
  confidence = b.confidence;
  address = b.tag;
  full_addr = b.full_addr;
  payload = b.payload;
  ip = b.ip;
  cpu = b.cpu;
  instr_id = b.instr_id;
}

-- `COMMIT_WIDTH`.
abbrev pub commit_width : ℕ
commit_width = 4

abbrev pub is_last_level : CacheType → Bool
is_last_level llc = true
is_last_level stlb = true
is_last_level _ = false

abbrev pub is_llc : CacheType → Bool
is_llc llc = true
is_llc _ = false

-- A squash invalidates the block at `way` of the speculative set `s`.
pub discard : ℕ → ℕ → Cache → Cache
discard s way c = record c {
  spec_block = drop_way s way c.spec_block;
  spec_squash = bump c.cpu c.spec_squash;
}

module _ {W : Type 0} (env : Neighbours W) where
  -- `llc_find_victim` in the last level, `find_victim` in the others.
  unfoldable pub choose_victim : ℕ → Packet → Cache → W → Option (ℕ × W)
  choose_victim s p c w =
      if is_llc c.cache_type
      then env.llc_find_victim p.cpu p.instr_id s (row c.block s) p.ip p.full_addr p.type w
      else (find_victim s c >>= λ way. some (way, w))

  -- A commit moves the block at `way` of the speculative set `s` to the normal hierarchy.
  pub promote : ℕ → ℕ → Packet → Cache → W → Option (Cache × W)
  promote s way p c w = do
    let target = get_set p.address normal c
    (victim, w') ← choose_victim target p c w
    c' ← fill_cache target victim (block_packet (way_at (row c.spec_block s) way)) normal c
    some (
      record c' {
        spec_commit_transfers = bump c'.cpu c'.spec_commit_transfers;
        spec_block = drop_way s way c'.spec_block;
      },
      w',
    )

  -- The block that a message of the commit queue is about, if it is still there.
  pub settle : Packet → Cache → W → Option (Cache × W)
  unfolding promote discard
  settle p c w = do
    let s = get_set p.address speculative c
    hit ← check_hit p speculative c
    elim hit [
      | none ↦ some (c, w)
      | some way ↦
          if c.num_set_spec == 0
          then some (c, w)
          else if p.type == AccessType.commit_load
          then promote s way p c w
          else some (discard s way c, w)
    ]

  -- The message goes on to the next level, unless this is the last; a full commit queue there fails an
  -- assertion.
  pub forward_commit : Packet → Cache → W → Option W
  forward_commit p c w =
      if is_last_level c.cache_type
      then some w
      else check (env.lower_cq_room w) >> env.lower_add_cq p w

  -- One round of the loop, on the head of a queue that is not empty.
  pub commit_head : Cache → W → Option (Cache × W)
  unfolding settle forward_commit
  commit_head c w = do
    let p = entry_at c.cq c.cq.head
    check (is_speculative p.is_speculative)
    (c', w') ← settle p c w
    w'' ← forward_commit p c' w'
    q ← remove_queue c'.cq.head c'.cq
    some (record c' { cq = q }, w'')

  -- At most the given number of rounds, until the queue is empty.
  pub commit_rounds : ℕ → Cache → W → Option (Cache × W)
  commit_rounds zero c w = some (c, w)
  commit_rounds (suc rounds) c w =
      let round = commit_head c w >>= λ r. commit_rounds rounds r.0 r.1 in
      if c.cq.occupancy == 0 then some (c, w) else round

  pub commit_blocks : Cache → W → Option (Cache × W)
  unfolding commit_rounds
  commit_blocks c w = commit_rounds commit_width c w
