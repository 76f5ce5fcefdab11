-- ===== src/Cache/Lookup/Invalidation.antt =====
-- `invalidate_entry` of src/cache.cc.
use speculative_cache_hierar.Prelude.{
  ℕ, ◌<◌, ◌≡◌, ◌∙◌, sym, ap, subst, inl, inr, true, false, Option, none, some, List, arith,
  first-cases, ℕ_discrete,
}
use speculative_cache_hierar.Packet.{Hierarchy, normal, speculative}
use speculative_cache_hierar.Block.{Block}
use speculative_cache_hierar.Cache.{Cache}
use speculative_cache_hierar.Cache.Index.{get_set}
use speculative_cache_hierar.Cache.Index.Bounds.{sets, get_set-lt}
use speculative_cache_hierar.Cache.Shape.{
  IsShaped, ways, blocks, block_at, write_self, write_other_way,
}
use speculative_cache_hierar.Cache.Lookup.{holds, invalidate_entry, drop_way}
use speculative_cache_hierar.Cache.Lookup.Hits.{set_in_range}

-- No two ways of a set hold the same address.
abbrev pub IsUnambiguous : Hierarchy → ℕ → Cache → Type 0
IsUnambiguous h a c =
    (v w : ℕ)
    → v < ways h c
    → w < ways h c
    → holds a (block_at (blocks h c) (get_set a h c) v) ≡ true
    → holds a (block_at (blocks h c) (get_set a h c) w) ≡ true
    → v ≡ w

-- The block of `drop_way` and the others of its set.
pub holds-drop_way :
    {n m : ℕ} (bs : List (List Block)) (a s w : ℕ)
    → IsShaped n m bs
    → s < n
    → w < m
    → ((v : ℕ) → v < m → holds a (block_at bs s v) ≡ true → v ≡ w)
    → (v : ℕ) → v < m
    → holds a (block_at (drop_way s w bs) s v) ≡ false
holds-drop_way bs a s w shape hs hw once v lv = elim (ℕ_discrete w v) [
  | yes e ↦
      subst (λ v. holds a (block_at (drop_way s w bs) s v) ≡ false) e
        (ap (holds a) (write_self bs shape s w _ hs hw))
  | no ne ↦
      ap (holds a) (write_other_way bs shape s w _ hs v ne)
      ∙ not_twice (λ t. ne (sym (once v lv t)))
]
  where
    not_twice : ¬ (holds a (block_at bs s v) ≡ true) → holds a (block_at bs s v) ≡ false
    not_twice f = ground arith

-- In a hierarchy with sets and an array of its size, `invalidate_entry` passes its assertion, and
-- afterwards no way of the set holds the address, provided that at most one did: it stops at the
-- first.
pub invalidate_entry_lem :
    (a : ℕ) (h : Hierarchy) (c : Cache)
    → 0 < sets h c
    → IsShaped (sets h c) (ways h c) (blocks h c)
    → IsUnambiguous h a c
    → (r : Option ℕ) × (c' : Cache) × (invalidate_entry a h c ≡ some (r, c'))
      × ((v : ℕ) → v < ways h c → holds a (block_at (blocks h c') (get_set a h c) v) ≡ false)
unfolding invalidate_entry
invalidate_entry_lem a normal c some_sets shape once =
    elim (first-cases c.num_way (λ w. holds a (block_at c.block (get_set a normal c) w))) [
      | inl (e, missing) ↦
          (none, c, rw (set_in_range a normal c some_sets, e, invalidate_entry), missing)
      | inr (w, e, lw, t, before) ↦ (
        some w,
        record c { block = drop_way (get_set a normal c) w c.block },
        rw (set_in_range a normal c some_sets, e, invalidate_entry),
        holds-drop_way c.block a (get_set a normal c) w shape (get_set-lt a normal c some_sets) lw
            (λ v lv h. once v w lv lw h t),
      )
    ]
invalidate_entry_lem a speculative c some_sets shape once =
    elim (first-cases c.num_way_spec
      (λ w. holds a (block_at c.spec_block (get_set a speculative c) w))) [
        | inl (e, missing) ↦
            (none, c, rw (set_in_range a speculative c some_sets, e, invalidate_entry), missing)
        | inr (w, e, lw, t, before) ↦ (
          some w,
          record c { spec_block = drop_way (get_set a speculative c) w c.spec_block },
          rw (set_in_range a speculative c some_sets, e, invalidate_entry),
          holds-drop_way c.spec_block a (get_set a speculative c) w shape
              (get_set-lt a speculative c some_sets) lw (λ v lv h. once v w lv lw h t),
        )
      ]
