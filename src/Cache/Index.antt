-- ===== src/Cache/Index.antt =====
-- `CACHE::get_set` of src/cache.cc and `lg2` of src/main.cc.
pub mod Bounds
use speculative_cache_hierar.Prelude.{
  ℕ, zero, suc, ◌+◌, ◌-◌, ◌/◌, ◌^◌, Bool, if◌then◌else◌, ◌==◌, bit_and,
}
use speculative_cache_hierar.Packet.{Hierarchy, normal, speculative}
use speculative_cache_hierar.Cache.{Cache}

-- The rounds of `for (i = 0; m; i++) m /= 2`; `m` is enough fuel.
unfoldable pub halvings : ℕ → ℕ → ℕ
halvings zero m = 0
halvings (suc fuel) m = let rest = halvings fuel (m / 2) in if m == 0 then 0 else suc rest

-- `c` starts at -1 and counts the rounds. At 0, where the source gives -1, this is 0; the caches ask
-- only for numbers of sets that are not 0.
unfoldable pub lg2 : ℕ → ℕ
unfolding halvings
lg2 n = halvings n n - 1

-- `address & ((1 << lg2(sets)) - 1)`.
unfoldable pub masked : ℕ → ℕ → ℕ
masked address sets = bit_and address (2 ^ lg2 sets - 1)

unfoldable pub get_set : ℕ → Hierarchy → Cache → ℕ
unfolding masked
get_set address normal c = masked address c.num_set
get_set address speculative c = if c.num_set_spec == 0 then 0 else masked address c.num_set_spec
