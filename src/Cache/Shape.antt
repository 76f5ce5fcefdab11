-- ===== src/Cache/Shape.antt =====
-- The block arrays of a cache (inc/cache.h), and what a write to one way changes.
use speculative_cache_hierar.Prelude.{
  ℕ, ◌<◌, ◌≡◌, ◌≢◌, ◌∙◌, sym, ap, subst, List, [], length, length-set, set, get_or-set_self,
  get_or-set_ne, get_or-replicate_lt, length-replicate, replicate, length-tabulate, ℕ_discrete,
}
use speculative_cache_hierar.Block.{Block, empty_block}
use speculative_cache_hierar.Packet.{Hierarchy, normal, speculative}
use speculative_cache_hierar.Cache.{Cache, row, way_at, new_set}
use speculative_cache_hierar.Cache.Index.Bounds.{sets}

-- `sets` rows of `ways` blocks each.
pub record IsShaped (sets ways : ℕ) (blocks : List (List Block)) : Type 0 where
  pub rows : length blocks ≡ sets
  pub columns : (s : ℕ) → s < sets → length (row blocks s) ≡ ways

-- The arrays that the constructor allocates.
pub new-IsShaped : (sets ways : ℕ) → IsShaped sets ways (replicate sets (new_set ways))
new-IsShaped sets ways = record {
  rows = length-replicate sets (new_set ways);
  columns =
      λ s l. ap length (get_or-replicate_lt sets s (new_set ways) [] l) ∙ length-tabulate ways _;
}

abbrev pub ways : Hierarchy → Cache → ℕ
ways normal c = c.num_way
ways speculative c = c.num_way_spec

abbrev pub blocks : Hierarchy → Cache → List (List Block)
blocks normal c = c.block
blocks speculative c = c.spec_block

-- Way `w` of set `s`.
abbrev pub block_at : List (List Block) → ℕ → ℕ → Block
block_at blocks s w = way_at (row blocks s) w

abbrev pub write_way : ℕ → ℕ → Block → List (List Block) → List (List Block)
write_way s w b blocks = set blocks s (set (row blocks s) w b)

module _ {n m : ℕ} (bs : List (List Block)) (v : IsShaped n m bs) (s w : ℕ) (b : Block)
    (hs : s < n) where
  row-write : row (write_way s w b bs) s ≡ set (row bs s) w b
  row-write = get_or-set_self bs s _ _ (subst (λ k. s < k) (sym v.rows) hs)

  pub write_self : w < m → block_at (write_way s w b bs) s w ≡ b
  write_self hw =
      ap (λ r. way_at r w) row-write
      ∙ get_or-set_self (row bs s) w b empty_block (subst (λ k. w < k) (sym (v.columns s hs)) hw)

  pub write_other_way : (u : ℕ) → w ≢ u → block_at (write_way s w b bs) s u ≡ block_at bs s u
  write_other_way u ne =
      ap (λ r. way_at r u) row-write ∙ get_or-set_ne (row bs s) w u b empty_block ne

  pub write_other_set : (t : ℕ) → s ≢ t → row (write_way s w b bs) t ≡ row bs t
  write_other_set t ne = get_or-set_ne bs s t _ _ ne

  pub write-IsShaped : IsShaped n m (write_way s w b bs)
  write-IsShaped = record {
    rows = length-set bs s _ ∙ v.rows;
    columns = λ t ht. elim (ℕ_discrete s t) [
      | yes e ↦
          subst (λ t. length (row (write_way s w b bs) t) ≡ m) e
            (ap length row-write ∙ length-set (row bs s) w b ∙ v.columns s hs)
      | no ne ↦ ap length (write_other_set t ne) ∙ v.columns t ht
    ];
  }
