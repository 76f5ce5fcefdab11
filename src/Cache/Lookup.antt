-- ===== src/Cache/Lookup.antt =====
-- `CACHE::get_way`, `check_hit`, `invalidate_entry` and `fill_cache` of src/cache.cc.
pub mod Hits
pub mod Fills
pub mod Invalidation
use speculative_cache_hierar.Prelude.{
  ℕ, ◌+◌, Bool, true, false, not, ◌&&◌, Option, none, some, List, ltb, leb, ◌==◌, if◌then◌else◌,
  set, first, check, ◌>>=◌, ◌>>◌, inc_u64,
}
use speculative_cache_hierar.AccessType
use speculative_cache_hierar.Packet.{Packet, Hierarchy, normal, speculative}
use speculative_cache_hierar.Block.{Block}
use speculative_cache_hierar.Cache.{
  Cache, CacheType, itlb, dtlb, stlb, l1i, l1d, l2c, llc, row, way_at,
}
use speculative_cache_hierar.Cache.Index.{get_set}

-- `valid && (tag == address)`.
abbrev pub holds : ℕ → Block → Bool
holds address b = b.valid && b.tag == address

-- The hit of the speculative hierarchy asks besides that the block be no younger than the request.
abbrev pub holds_before : ℕ → ℕ → Block → Bool
holds_before address instr_id b = b.valid && b.tag == address && leb b.instr_id instr_id

-- The way that a search found, or the given number.
abbrev pub or_number : Option ℕ → ℕ → ℕ
or_number none n = n
or_number (some w) n = w

pub get_way : ℕ → ℕ → Hierarchy → Cache → ℕ
get_way address s normal c =
    or_number (first c.num_way (λ w. holds address (way_at (row c.block s) w)))
      (c.num_way + c.num_way_spec)
get_way address s speculative c =
    if c.num_set_spec == 0
    then c.num_way_spec
    else or_number (first c.num_way_spec (λ w. holds address (way_at (row c.spec_block s) w)))
        (c.num_way + c.num_way_spec)

-- The way that hits; the inner `none` is -1. With no speculative sets the answer is `NUM_WAY_SPEC`.
unfoldable pub check_hit : Packet → Hierarchy → Cache → Option (Option ℕ)
check_hit packet normal c = do
  let s = get_set packet.address normal c
  check (not (ltb c.num_set s))
  some (first c.num_way (λ w. holds packet.address (way_at (row c.block s) w)))
check_hit packet speculative c =
    let s = get_set packet.address speculative c in
    let found =
      first c.num_way_spec
        (λ w. holds_before packet.address packet.instr_id (way_at (row c.spec_block s) w)) in
    if c.num_set_spec == 0
    then some (some c.num_way_spec)
    else check (not (ltb c.num_set_spec s)) >> some found

-- `block[set][way].valid = 0`, over the blocks of a hierarchy.
abbrev pub drop_way : ℕ → ℕ → List (List Block) → List (List Block)
drop_way s w blocks =
    set blocks s (set (row blocks s) w (record (way_at (row blocks s) w) { valid = false }))

pub invalidate_entry : ℕ → Hierarchy → Cache → Option (Option ℕ × Cache)
invalidate_entry addr normal c = do
  let s = get_set addr normal c
  check (not (ltb c.num_set s))
  elim (first c.num_way (λ w. holds addr (way_at (row c.block s) w))) [
    | none ↦ some (none, c)
    | some w ↦ some (some w, record c { block = drop_way s w c.block })
  ]
invalidate_entry addr speculative c = do
  let s = get_set addr speculative c
  check (not (ltb c.num_set_spec s))
  elim (first c.num_way_spec (λ w. holds addr (way_at (row c.spec_block s) w))) [
    | none ↦ some (none, c)
    | some w ↦ some (some w, record c { spec_block = drop_way s w c.spec_block })
  ]

-- The block that a fill leaves in a way; only the normal hierarchy sets the prefetch bit.
abbrev pub filled : Packet → Block → Block
filled p b = record b {
  valid = true;
  dirty = false;
  used = false;
  delta = p.delta;
  depth = p.depth;
  signature = p.signature;
  confidence = p.confidence;
  tag = p.address;
  address = p.address;
  full_addr = p.full_addr;
  payload = p.payload;
  ip = p.ip;
  cpu = p.cpu;
  instr_id = p.instr_id;
}

-- The sanity check: a TLB is not filled with the page 0.
unfoldable pub needs_payload : CacheType → Bool
needs_payload itlb = true
needs_payload dtlb = true
needs_payload stlb = true
needs_payload _ = false

abbrev bump_if : Bool → ℕ → ℕ
bump_if b n = if b then inc_u64 n else n

-- The assignments of `fill_cache`.
unfoldable pub stored : ℕ → ℕ → Packet → Hierarchy → Cache → Cache
stored s w p normal c =
    let old = way_at (row c.block s) w in
    let is_prefetch = p.type == AccessType.prefetch in
    record c {
      block =
          set c.block s (set (row c.block s) w (record (filled p old) { prefetch = is_prefetch }));
      pf_useless = bump_if (old.prefetch && not old.used) c.pf_useless;
      pf_fill = bump_if is_prefetch c.pf_fill;
    }
stored s w p speculative c =
    let old = way_at (row c.spec_block s) w in
    record c { spec_block = set c.spec_block s (set (row c.spec_block s) w (filled p old)) }

unfoldable pub fill_cache : ℕ → ℕ → Packet → Hierarchy → Cache → Option Cache
unfolding needs_payload stored
fill_cache s w p h c =
    check (not (needs_payload c.cache_type && p.payload == 0)) >> some (stored s w p h c)
