-- ===== src/Cache/Commit/Promotion.antt =====
-- One message of the commit queue (`commit_blocks` of src/cache.cc): what a commit leaves.
use speculative_cache_hierar.Prelude.{
  ℕ, ◌<◌, ◌≡◌, ◌≢◌, ◌∙◌, refl, sym, ap, subst, true, false, not, ◌&&◌, Option, none, some, arith,
  ◌==◌, first-none, FirstOf, first-FirstOf,
}
use speculative_cache_hierar.AccessType
use speculative_cache_hierar.Packet.{Packet, normal, speculative}
use speculative_cache_hierar.Block.{Block}
use speculative_cache_hierar.Cache.{Cache, Neighbours, bump}
use speculative_cache_hierar.Cache.Index.{get_set}
use speculative_cache_hierar.Cache.Shape.{IsShaped, block_at}
use speculative_cache_hierar.Cache.Lookup.{
  holds, check_hit, fill_cache, drop_way, stored, needs_payload,
}
use speculative_cache_hierar.Cache.Lookup.Hits.{
  answers, answers-true, way_of, check_hit-first, check_hit-normal,
}
use speculative_cache_hierar.Cache.Lookup.Fills.{check_hit-fill_cache, fill_cache-stored}
use speculative_cache_hierar.Cache.Lookup.Invalidation.{IsUnambiguous}
use speculative_cache_hierar.Cache.Commit.{block_packet, choose_victim, promote, settle}
use speculative_cache_hierar.Cache.Commit.Settle.{dropped, test_sets}

-- The block that hits.
abbrev pub spec_way : Packet → Cache → ℕ → Block
spec_way p c way = way_of speculative p c way

module _ (p : Packet) (c : Cache) (way victim : ℕ) where
  abbrev pub target : ℕ
  target = get_set p.address normal c

  abbrev pub carrier : Packet
  carrier = block_packet (spec_way p c way)

  -- The cache with the block in both hierarchies.
  abbrev pub both : Cache
  both = stored target victim carrier normal c

  module _ (same : (spec_way p c way).tag ≡ p.address) where
    carried : carrier.address ≡ p.address
    unfolding block_packet
    carried = same

    arrives :
        0 < c.num_set
        → IsShaped c.num_set c.num_way c.block
        → victim < c.num_way
        → ((v : ℕ) → v < c.num_way → v ≢ victim → holds p.address (way_of normal p c v) ≡ false)
        → not (needs_payload c.cache_type && (spec_way p c way).payload == 0) ≡ true
        → (fill_cache target victim carrier normal c ≡ some both)
          × (check_hit p normal both ≡ some (some victim))
          × ((way_of normal p both victim).payload ≡ (spec_way p c way).payload)
    unfolding block_packet
    arrives some_sets shape l alone backed =
        let fill : fill_cache target victim carrier normal c ≡ some both =
          fill_cache-stored target victim carrier normal c backed in
        let hit =
          check_hit-fill_cache victim carrier normal c both some_sets shape l
            (λ v lv ne.
              subst (λ a. holds a (block_at c.block (get_set a normal c) v) ≡ false) (sym carried)
                (alone v lv ne))
            (subst (λ a. fill_cache (get_set a normal c) victim carrier normal c ≡ some both)
              (sym carried) fill) in
        (
          fill,
          check_hit-normal p carrier both (sym carried) ∙ hit.0,
          ap (λ a. (block_at both.block (get_set a normal both) victim).payload) (sym carried)
              ∙ hit.1,
        )

-- The cache once the block has left the speculative hierarchy.
abbrev pub moved : Packet → Cache → ℕ → ℕ → Cache
moved p c way victim =
    let c' = both p c way victim in
    record c' {
      spec_commit_transfers = bump c'.cpu c'.spec_commit_transfers;
      spec_block = drop_way (get_set p.address speculative c) way c'.spec_block;
    }

promotes :
    {W : Type 0} (env : Neighbours W) (p : Packet) (c : Cache) (w w' : W) (way victim : ℕ)
    → choose_victim env (get_set p.address normal c) p c w ≡ some (victim, w')
    → fill_cache (target p c way victim) victim (carrier p c way victim) normal c
      ≡ some (both p c way victim)
    → promote env (get_set p.address speculative c) way p c w ≡ some (moved p c way victim, w')
unfolding promote
promotes env p c w w' way victim choice fill = rw (choice, fill, promote) refl

settles :
    {W : Type 0} (env : Neighbours W) (p : Packet) (c : Cache) (w : W) (way : ℕ)
    → check_hit p speculative c ≡ some (some way)
    → (c.num_set_spec == 0) ≡ false
    → (p.type == AccessType.commit_load) ≡ true
    → settle env p c w ≡ promote env (get_set p.address speculative c) way p c w
unfolding settle
settles env p c w way hit some_sets commit = rw (hit, some_sets, commit, settle) refl

some-injective : {a b : Option ℕ} → some a ≡ some b → a ≡ b
some-injective e = cc

-- A commit of a block that `check_hit` finds in the speculative hierarchy moves it: the normal
-- hierarchy then answers at the victim's way, with the data of the speculative block, and the
-- speculative hierarchy answers no more. Besides the choice of the victim no other memory is
-- called, whatever the victim held: in particular nothing is written back. Conditions: both
-- hierarchies have sets and arrays of their sizes, the choice of the victim gives a way of the
-- set, no other way of the normal set holds the address, at most one of the speculative set does,
-- and a TLB is not given the page 0.
pub settle-commit :
    {W : Type 0} (env : Neighbours W) (p : Packet) (c : Cache) (w w' : W) (way victim : ℕ)
    → p.type ≡ AccessType.commit_load
    → 0 < c.num_set
    → 0 < c.num_set_spec
    → IsShaped c.num_set c.num_way c.block
    → IsShaped c.num_set_spec c.num_way_spec c.spec_block
    → IsUnambiguous speculative p.address c
    → check_hit p speculative c ≡ some (some way)
    → choose_victim env (get_set p.address normal c) p c w ≡ some (victim, w')
    → victim < c.num_way
    → ((v : ℕ) → v < c.num_way → v ≢ victim → holds p.address (way_of normal p c v) ≡ false)
    → not (needs_payload c.cache_type && (spec_way p c way).payload == 0) ≡ true
    → (c' : Cache) × (settle env p c w ≡ some (c', w'))
      × (check_hit p normal c' ≡ some (some victim))
      × ((way_of normal p c' victim).payload ≡ (spec_way p c way).payload)
      × (check_hit p speculative c' ≡ some none)
unfolding settle get_set stored
settle-commit env p c w w' way victim commit some_sets some_spec shape spec_shape once hit choice l
      alone backed =
    (
      moved p c way victim,
      settles env p c w way hit (test_sets p c some_spec spec_shape once) test_type
          ∙ promotes env p c w w' way victim choice arrived.0,
      check_hit-first p normal (moved p c way victim) some_sets
          ∙ sym (check_hit-first p normal (both p c way victim) some_sets)
          ∙ arrived.1,
      arrived.2,
      check_hit-first p speculative (moved p c way victim) some_spec
          ∙ ap some (
              first-none c.num_way_spec
                (λ v. answers speculative p (way_of speculative p (moved p c way victim) v))
                (dropped p c some_spec spec_shape once way found.0 found.1)),
    )
  where
    test_type : (p.type == AccessType.commit_load) ≡ true
    test_type = ground arith

    found :
        FirstOf c.num_way_spec (λ v. answers speculative p (way_of speculative p c v)) (some way)
    found =
        subst (FirstOf c.num_way_spec (λ v. answers speculative p (way_of speculative p c v)))
          (some-injective (sym (check_hit-first p speculative c some_spec) ∙ hit))
          (first-FirstOf c.num_way_spec (λ v. answers speculative p (way_of speculative p c v)))

    tagged : (spec_way p c way).tag ≡ p.address
    tagged = (answers-true speculative p (spec_way p c way) found.1).1

    arrived :
        (fill_cache (target p c way victim) victim (carrier p c way victim) normal c
          ≡ some (both p c way victim))
        × (check_hit p normal (both p c way victim) ≡ some (some victim))
        × ((way_of normal p (both p c way victim) victim).payload ≡ (spec_way p c way).payload)
    arrived = arrives p c way victim tagged some_sets shape l alone backed
