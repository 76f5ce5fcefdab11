-- ===== src/Cache/Machine.antt =====
-- What the handlers of src/cache.cc share: the prefetchers and the replacement policy of the last
-- level, which the build copies in, as `Hooks`, and the pieces of code that the handlers repeat.
pub mod Steps
use speculative_cache_hierar.Prelude.{
  ℕ, zero, suc, ◌+◌, ◌-◌, ◌*◌, ◌/◌, ◌%◌, ◌^◌, ℤ, pos, negsuc, Bool, true, false, not, ◌&&◌, Option,
  none, some, List, [], ◌∷◌, ltb, ◌==◌, if◌then◌else◌, set, check, when, ◌>>=◌, ◌>>◌, dec_u32,
  add_u64,
}
use speculative_cache_hierar.AccessType
use speculative_cache_hierar.Packet.{Packet, Hierarchy, normal, speculative, empty_packet, inflight}
use speculative_cache_hierar.Block.{Block}
use speculative_cache_hierar.PacketQueue.{PacketQueue, entry_at, remove_queue}
use speculative_cache_hierar.Cache.{
  Cache, CacheType, itlb, dtlb, stlb, l1i, l1d, l2c, llc, Neighbours, Answer, bump, bump_row,
}
use speculative_cache_hierar.Cache.Shape.{blocks, block_at, write_way}
use speculative_cache_hierar.Cache.Replacement.{update_replacement_state}
use speculative_cache_hierar.Cache.Mshr.{add_mshr, return_data}
use speculative_cache_hierar.Cache.Requests.{return_up, update_at}
use speculative_cache_hierar.Cache.Commit.{is_llc}

-- A cache that runs, and everything else.
pub record Run (W : Type 0) : Type 0 where
  pub cache : Cache
  pub world : W

-- The functions that a cache calls and the build chooses, and `va_to_pa`, which may invalidate entries
-- of this cache. `none` is an assertion of theirs that fails. The number that some return is the
-- metadata of the prefetcher, or the physical address.
pub record Hooks (W : Type 0) : Type 0 where
  -- `l1i_prefetcher_cache_fill(cpu, v_addr, set, way, prefetch, evicted_v_addr)`
  pub l1i_cache_fill : ℕ → ℕ → ℕ → ℕ → Bool → ℕ → Run W → Option (Run W)
  -- `l1d_prefetcher_cache_fill(addr, set, way, prefetch, evicted_addr, metadata_in)`
  pub l1d_cache_fill : ℕ → ℕ → ℕ → Bool → ℕ → ℕ → Run W → Option (Run W)
  -- and of the levels below
  pub l2c_cache_fill : ℕ → ℕ → ℕ → Bool → ℕ → ℕ → Run W → Option (ℕ × Run W)
  pub llc_cache_fill : ℕ → ℕ → ℕ → Bool → ℕ → ℕ → Run W → Option (ℕ × Run W)
  -- `l1i_prefetcher_cache_operate(cpu, v_addr, cache_hit, prefetch_hit)`
  pub l1i_operate : ℕ → ℕ → Bool → Bool → Run W → Option (Run W)
  -- `l1d_prefetcher_operate(addr, ip, cache_hit, type)`
  pub l1d_operate : ℕ → ℕ → Bool → ℕ → Run W → Option (Run W)
  -- `l2c_prefetcher_operate(addr, ip, cache_hit, type, metadata_in)`
  pub l2c_operate : ℕ → ℕ → Bool → ℕ → ℕ → Run W → Option (ℕ × Run W)
  pub llc_operate : ℕ → ℕ → Bool → ℕ → ℕ → Run W → Option (ℕ × Run W)
  -- `llc_update_replacement_state(cpu, set, way, full_addr, ip, victim_addr, type, hit)`
  pub llc_update : ℕ → ℕ → ℕ → ℕ → ℕ → ℕ → ℕ → Bool → Run W → Option (Run W)
  -- `va_to_pa(cpu, instr_id, va, unique_vpage, 0)`
  pub va_to_pa : ℕ → ℕ → ℕ → ℕ → Run W → Option (ℕ × Run W)
  -- `warmup_complete[cpu]`
  pub warmup_complete : ℕ → Bool

-- The queue whose entry a handler is about.
pub data Place : Type 0 where
  in_rq in_wq in_pq in_mshr : Place

abbrev pub queue_of : Place → Cache → PacketQueue
queue_of in_rq c = c.rq
queue_of in_wq c = c.wq
queue_of in_pq c = c.pq
queue_of in_mshr c = c.mshr

abbrev pub with_queue : Place → PacketQueue → Cache → Cache
with_queue in_rq q c = record c { rq = q }
with_queue in_wq q c = record c { wq = q }
with_queue in_pq q c = record c { pq = q }
with_queue in_mshr q c = record c { mshr = q }

abbrev pub with_blocks : Hierarchy → List (List Block) → Cache → Cache
with_blocks normal bs c = record c { block = bs }
with_blocks speculative bs c = record c { spec_block = bs }

-- An assignment to a field of a block.
abbrev pub edit_block : Hierarchy → ℕ → ℕ → (Block → Block) → Cache → Cache
edit_block h s w f c = with_blocks h (write_way s w (f (block_at (blocks h c) s w)) (blocks h c)) c

-- With no speculative set there is no `spec_block[0]`, and an access to it is undefined.
abbrev pub has_blocks : Hierarchy → Cache → Bool
has_blocks normal c = true
has_blocks speculative c = not (c.num_set_spec == 0)

abbrev pub is_stlb : CacheType → Bool
is_stlb stlb = true
is_stlb _ = false

-- Block addresses and byte addresses, with `LOG2_BLOCK_SIZE` 6.
abbrev pub byte_address : ℕ → ℕ
byte_address a = a * 2 ^ 6 % 2 ^ 64

abbrev pub line : ℕ → ℕ
line a = a / 2 ^ 6 * 2 ^ 6

-- `fill_level << 1`.
abbrev pub double : ℤ → ℤ
double (pos n) = pos (2 * n)
double (negsuc n) = negsuc (2 * n + 1)

-- The data of a block that a fill, or a lookup, passes on in a translation cache.
abbrev pub translated : CacheType → ℕ → Packet → Packet
translated itlb payload p = record p { instruction_pa = payload }
translated dtlb payload p = record p { data_pa = payload }
translated _ payload p = p

abbrev pub looked_up : CacheType → ℕ → Packet → Packet
looked_up stlb payload p = record p { payload = payload }
looked_up kind payload p = translated kind payload p

-- The caches next to the core, whose answers it finds in `PROCESSED`.
abbrev pub is_reported : CacheType → ℕ → Bool
is_reported itlb type = true
is_reported dtlb type = true
is_reported l1i type = true
is_reported l1d type = not (type == AccessType.prefetch)
is_reported _ type = false
