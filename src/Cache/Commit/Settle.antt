-- ===== src/Cache/Commit/Settle.antt =====
-- One message of the commit queue (`commit_blocks` of src/cache.cc): what a squash leaves.
use speculative_cache_hierar.Prelude.{
  ℕ, ◌<◌, ◌≡◌, ◌≢◌, ◌∙◌, refl, ap, inl, inr, true, false, none, some, arith, ◌==◌, first-cases,
  first-none,
}
use speculative_cache_hierar.AccessType
use speculative_cache_hierar.Packet.{Packet, speculative}
use speculative_cache_hierar.Block.{Block}
use speculative_cache_hierar.Cache.{Cache, Neighbours}
use speculative_cache_hierar.Cache.Index.{get_set}
use speculative_cache_hierar.Cache.Index.Bounds.{get_set-lt}
use speculative_cache_hierar.Cache.Shape.{IsShaped, block_at}
use speculative_cache_hierar.Cache.Lookup.{holds, check_hit, drop_way}
use speculative_cache_hierar.Cache.Lookup.Hits.{answers, way_of, check_hit-first}
use speculative_cache_hierar.Cache.Lookup.Invalidation.{IsUnambiguous, holds-drop_way}
use speculative_cache_hierar.Cache.Commit.{discard, settle}

-- Only a block of the address hits.
pub hits-holds :
    (p : Packet) (b : Block) → answers speculative p b ≡ true → holds p.address b ≡ true
hits-holds p b e = ground arith

misses-holds :
    (p : Packet) (b : Block) → holds p.address b ≡ false → answers speculative p b ≡ false
misses-holds p b e = ground arith

module _ (p : Packet) (c : Cache) (some_sets : 0 < c.num_set_spec)
    (shape : IsShaped c.num_set_spec c.num_way_spec c.spec_block)
    (once : IsUnambiguous speculative p.address c) where
  -- Dropping the way that hits leaves nothing of the address in its set.
  pub dropped :
      (way : ℕ)
      → way < c.num_way_spec
      → answers speculative p (way_of speculative p c way) ≡ true
      → (v : ℕ) → v < c.num_way_spec
      → answers speculative p (
          block_at
            (drop_way (get_set p.address speculative c) way c.spec_block)
            (get_set p.address speculative c)
            v)
        ≡ false
  dropped way l t v lv =
      misses-holds p
        (block_at (drop_way (get_set p.address speculative c) way c.spec_block)
          (get_set p.address speculative c) v)
        (holds-drop_way c.spec_block p.address (get_set p.address speculative c) way shape
          (get_set-lt p.address speculative c some_sets) l
          (λ u lu h. once u way lu l h (hits-holds p (way_of speculative p c way) t)) v lv)

  gone :
      (way : ℕ)
      → way < c.num_way_spec
      → answers speculative p (way_of speculative p c way) ≡ true
      → check_hit p speculative (discard (get_set p.address speculative c) way c) ≡ some none
  unfolding discard get_set
  gone way l t =
      check_hit-first p speculative (discard (get_set p.address speculative c) way c) some_sets
      ∙ ap some (first-none c.num_way_spec _ (dropped way l t))

  pub test_sets : (c.num_set_spec == 0) ≡ false
  test_sets = ground arith

  -- With at least one speculative set and an array of its size, a message that is no commit (a
  -- squash) never stops, and calls on no other memory. Afterwards the speculative hierarchy has no
  -- block that answers the message, and the normal hierarchy is as before, provided that at most
  -- one way of the speculative set held the address.
  pub settle-squash :
      {W : Type 0} (env : Neighbours W) (w : W)
      → p.type ≢ AccessType.commit_load
      → (c' : Cache) × (settle env p c w ≡ some (c', w))
        × (check_hit p speculative c' ≡ some none)
        × (c'.block ≡ c.block)
  unfolding settle discard
  settle-squash env w squash =
      elim (first-cases c.num_way_spec (λ v. answers speculative p (way_of speculative p c v))) [
        | inl (e, _) ↦ (
          c,
          rw (check_hit-first p speculative c some_sets ∙ ap some e, settle),
          check_hit-first p speculative c some_sets ∙ ap some e,
          refl,
        )
        | inr (way, e, l, t, _) ↦ (
          discard (get_set p.address speculative c) way c,
          rw (check_hit-first p speculative c some_sets ∙ ap some e, test_sets, test_type, settle),
          gone way l t,
          refl,
        )
      ]
    where
      test_type : (p.type == AccessType.commit_load) ≡ false
      test_type = ground arith
