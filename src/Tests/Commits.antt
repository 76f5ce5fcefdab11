-- ===== src/Tests/Commits.antt =====
-- A commit and a squash of a speculative block.
use speculative_cache_hierar.Prelude.{
  ℕ, zero, suc, ◌<◌, ◌≡◌, ◌≢◌, refl, false, none, some, [], ◌∷◌, List, List, ◌∷◌, arith, first,
  drop,
}
use speculative_cache_hierar.AccessType
use speculative_cache_hierar.Packet.{Packet, normal, speculative}
use speculative_cache_hierar.Cache
use speculative_cache_hierar.Cache.{Cache}
use speculative_cache_hierar.Cache.Index.{get_set, masked, lg2, halvings}
use speculative_cache_hierar.Cache.Replacement.{lru_victim, find_victim}
use speculative_cache_hierar.Cache.Shape.{new-IsShaped}
use speculative_cache_hierar.Cache.Lookup.{holds, check_hit, needs_payload}
use speculative_cache_hierar.Cache.Lookup.Hits.{way_of}
use speculative_cache_hierar.Cache.Commit.{choose_victim, settle, commit_blocks}
use speculative_cache_hierar.PacketQueue
use speculative_cache_hierar.PacketQueue.Ring.{IsValid, contents}
use speculative_cache_hierar.PacketQueue.Add.{added, added-IsValid}
use speculative_cache_hierar.Cache.Commit.Rounds.{Leaves, commit_blocks-Leaves}
use speculative_cache_hierar.Cache.Commit.Settle.{settle-squash}
use speculative_cache_hierar.Cache.Commit.Promotion.{settle-commit}
use speculative_cache_hierar.Tests.{
  no_requests, no_requests-IsValid, request, speculative_cache, speculative_cache-IsShaped, outside,
}
use speculative_cache_hierar.Tests.Caches.{speculative_cache-IsUnambiguous}

abbrev squash : Packet
squash = record (request 3) { type = AccessType.squash_load }

abbrev commit : Packet
commit = record (request 3) { type = AccessType.commit_load }

settle-squash_example :
    (c' : Cache) × (settle outside squash speculative_cache [] ≡ some (c', []))
    × (check_hit squash speculative c' ≡ some none)
    × (c'.block ≡ speculative_cache.block)
unfolding Cache.new
settle-squash_example =
    settle-squash squash speculative_cache (omega arith) speculative_cache-IsShaped
      speculative_cache-IsUnambiguous outside [] (omega arith)

nothing_normal :
    (v : ℕ) → v < 2 → v ≢ 0 → holds 3 (way_of normal commit speculative_cache v) ≡ false
unfolding Cache.new get_set masked lg2 halvings
nothing_normal zero l ne = refl
nothing_normal (suc zero) l ne = refl
nothing_normal (suc (suc v)) l ne = absurd (omega arith)

settle-commit_example :
    (c' : Cache) × (settle outside commit speculative_cache [] ≡ some (c', []))
    × (check_hit commit normal c' ≡ some (some 0))
    × ((way_of normal commit c' 0).payload
        ≡ (way_of speculative commit speculative_cache 0).payload)
    × (check_hit commit speculative c' ≡ some none)
unfolding Cache.new get_set masked lg2 halvings check_hit choose_victim find_victim lru_victim first
    needs_payload
settle-commit_example =
    settle-commit outside commit speculative_cache [] [] 0 0 refl (omega arith) (omega arith)
      (new-IsShaped 2 2) speculative_cache-IsShaped speculative_cache-IsUnambiguous refl refl
      (omega arith) nothing_normal refl

abbrev squash_message : Packet
squash_message = record (request 3) { type = AccessType.squash_load; is_speculative = speculative }

-- The squash waits in the commit queue.
abbrev squashing_cache : Cache
squashing_cache = record speculative_cache { cq = added no_requests squash_message }

squashing_queue-IsValid : IsValid squashing_cache.cq
unfolding PacketQueue.new
squashing_queue-IsValid = added-IsValid no_requests squash_message no_requests-IsValid (omega arith)

commit_blocks-Leaves_example :
    (c' : Cache) × (w' : List Packet) × (commit_blocks outside squashing_cache [] ≡ some (c', w'))
    × Leaves (drop 4 (contents squashing_cache.cq)) squashing_cache c'
unfolding Cache.new PacketQueue.new
commit_blocks-Leaves_example =
    commit_blocks-Leaves outside (λ w. refl) (λ p w. (p ∷ w, refl)) squashing_cache []
      squashing_queue-IsValid (omega arith) (refl, omega arith, tt)
