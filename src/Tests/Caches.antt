-- ===== src/Tests/Caches.antt =====
-- Hits, fills, invalidations and misses of a small cache.
use speculative_cache_hierar.Prelude.{
  ℕ, zero, suc, ◌<◌, ◌≡◌, ◌≢◌, ◌⊎◌, refl, true, false, none, some, arith, first,
}
use speculative_cache_hierar.Packet.{inflight, normal, speculative}
use speculative_cache_hierar.PacketQueue
use speculative_cache_hierar.Cache
use speculative_cache_hierar.Cache.{Cache}
use speculative_cache_hierar.Cache.Index.{get_set, masked, lg2, halvings}
use speculative_cache_hierar.Cache.Shape.{block_at, new-IsShaped}
use speculative_cache_hierar.Cache.Lookup.{holds, check_hit, stored, needs_payload}
use speculative_cache_hierar.Cache.Lookup.Hits.{Answers, way_of, check_hit_lem}
use speculative_cache_hierar.Cache.Lookup.Fills.{check_hit-fill_cache, fill_cache-stored}
use speculative_cache_hierar.Cache.Lookup.Invalidation.{IsUnambiguous}
use speculative_cache_hierar.Cache.Mshr.{check_mshr}
use speculative_cache_hierar.Cache.Mshr.Entries.{
  Records, Returns, add_mshr-check_mshr, return_data_lem,
}
use speculative_cache_hierar.Tests.{clock, request, one_request, small_cache, speculative_cache}

check_hit_lem_example :
    ((w : ℕ) × (check_hit (request 3) speculative speculative_cache ≡ some (some w))
      × (w < 2)
      × Answers speculative (request 3) (way_of speculative (request 3) speculative_cache w)
      × ((v : ℕ)
          → v < w
          → ¬ Answers speculative (request 3) (way_of speculative (request 3) speculative_cache v)))
    ⊎ ((check_hit (request 3) speculative speculative_cache ≡ some none)
        × ((v : ℕ)
            → v < 2
            → ¬ Answers speculative
                (request 3)
                (way_of speculative (request 3) speculative_cache v)))
unfolding Cache.new
check_hit_lem_example = check_hit_lem (request 3) speculative speculative_cache (omega arith)

abbrev filled_cache : Cache
filled_cache = stored (get_set 3 normal small_cache) 1 (request 3) normal small_cache

nothing_held : (v : ℕ) → v < 2 → v ≢ 1 → holds 3 (way_of normal (request 3) small_cache v) ≡ false
unfolding Cache.new get_set masked lg2 halvings
nothing_held zero l ne = refl
nothing_held (suc zero) l ne = refl
nothing_held (suc (suc v)) l ne = absurd (omega arith)

check_hit-fill_cache_example :
    (check_hit (request 3) normal filled_cache ≡ some (some 1))
    × ((way_of normal (request 3) filled_cache 1).payload ≡ 7)
unfolding Cache.new needs_payload
check_hit-fill_cache_example =
    check_hit-fill_cache 1 (request 3) normal small_cache filled_cache (omega arith)
      (new-IsShaped 2 2) (omega arith) nothing_held
      (fill_cache-stored (get_set 3 normal small_cache) 1 (request 3) normal small_cache refl)

-- Only way 0 holds block 3.
one_way :
    (v : ℕ)
    → v < 2
    → holds 3 (block_at speculative_cache.spec_block (get_set 3 speculative speculative_cache) v)
      ≡ true
    → v ≡ 0
unfolding Cache.new get_set masked lg2 halvings
one_way zero l h = refl
one_way (suc zero) l h = cc
one_way (suc (suc v)) l h = absurd (omega arith)

pub speculative_cache-IsUnambiguous : IsUnambiguous speculative 3 speculative_cache
unfolding Cache.new
speculative_cache-IsUnambiguous v w lv lw hv hw = omega (arith, one_way v lv hv, one_way w lw hw)

-- A miss on block 3 is outstanding.
abbrev waiting_cache : Cache
waiting_cache = record small_cache { mshr = one_request }

add_mshr-check_mshr_example : Records clock (request 5) waiting_cache inflight
unfolding Cache.new PacketQueue.new check_mshr first
add_mshr-check_mshr_example =
    add_mshr-check_mshr clock (request 5) waiting_cache refl inflight (omega arith) refl

return_data_lem_example : Returns clock (request 3) waiting_cache
unfolding Cache.new PacketQueue.new
return_data_lem_example = return_data_lem clock (request 3) waiting_cache refl
