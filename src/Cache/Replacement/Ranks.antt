-- ===== src/Cache/Replacement/Ranks.antt =====
-- The ranks of replacement/base_replacement.cc: `lru_update` keeps the ways of a set in an order of
-- use.
use speculative_cache_hierar.Prelude.{
  ℕ, zero, suc, ◌^◌, ◌<◌, ◌≡◌, ◌≢◌, ◌↔◌, ◌∙◌, sym, ap, List, arith, ltb, if◌then◌else◌, length,
  length-set, length-map, map, get_or-set_self, get_or-set_ne, get_or-map, length-tabulate,
  get_or-tabulate, ℕ_discrete, dec_lt,
}
use speculative_cache_hierar.Block.{Block, empty_block}
use speculative_cache_hierar.Cache.{new_set, way_at}
use speculative_cache_hierar.Cache.Replacement.{age, lru_update}

abbrev pub rank : List Block → ℕ → ℕ
rank ways w = (way_at ways w).lru

-- The ranks of the `n` ways are the numbers below `n`, each once.
pub record IsRanked (n : ℕ) (ways : List Block) : Type 0 where
  pub sized : length ways ≡ n
  pub small : n < 2 ^ 32
  pub bounded : (w : ℕ) → w < n → rank ways w < n
  pub distinct : (v w : ℕ) → v < n → w < n → rank ways v ≡ rank ways w → v ≡ w
  pub onto : (r : ℕ) → r < n → (w : ℕ) × (w < n) × (rank ways w ≡ r)

-- The ranks that the constructor of `CACHE` sets.
pub new_set-IsRanked : (n : ℕ) → n < 2 ^ 32 → IsRanked n (new_set n)
new_set-IsRanked n small = record {
  sized = length-tabulate n _;
  small = small;
  bounded = λ w l. omega (arith, new_rank w l);
  distinct = λ v w lv lw e. omega (arith, new_rank v lv, new_rank w lw);
  onto = λ r l. (r, l, new_rank r l);
}
  where
    new_rank : (w : ℕ) → w < n → rank (new_set n) w ≡ w
    new_rank w l = ap (λ (b : Block). b.lru) (get_or-tabulate n _ w empty_block l)

module _ (n : ℕ) (ways : List Block) (way : ℕ) (v : IsRanked n ways) (h : way < n) where
  rank-update_self : rank (lru_update way ways) way ≡ 0
  unfolding lru_update
  rank-update_self =
      ap (λ (b : Block). b.lru)
        (get_or-set_self (map (age (rank ways way)) ways) way _ empty_block
          (omega (arith, length-map ways (age (rank ways way)), v.sized)))

  rank-update_other :
      (w : ℕ)
      → w < n
      → w ≢ way
      → rank (lru_update way ways) w
        ≡ (if ltb (rank ways w) (rank ways way) then suc (rank ways w) else rank ways w)
  unfolding lru_update
  rank-update_other w l ne =
      ap (λ (b : Block). b.lru) aged_lem ∙ ground (arith, v.bounded way h, v.small)
    where
      aged_lem : way_at (lru_update way ways) w ≡ age (rank ways way) (way_at ways w)
      aged_lem =
          get_or-set_ne (map (age (rank ways way)) ways) way w _ empty_block (λ e. ne (sym e))
          ∙ get_or-map (age (rank ways way)) ways w empty_block empty_block (omega (arith, v.sized))

  apart : (a : ℕ) → a < n → a ≢ way → rank ways a ≢ rank ways way
  apart a l ne = λ e. ne (v.distinct a way l h e)

  -- On a set whose ranks are a numbering from 0, the way that was used comes first, alone, and the
  -- others keep their order: one of them was used more recently than another afterwards exactly if
  -- it was before.
  pub lru_update-order :
      (rank (lru_update way ways) way ≡ 0)
      × ((a b : ℕ)
          → a < n
          → b < n
          → a ≢ way
          → b ≢ way
          → (rank (lru_update way ways) a < rank (lru_update way ways) b)
            ↔ (rank ways a < rank ways b))
      × ((a : ℕ) → a < n → a ≢ way → 0 < rank (lru_update way ways) a)
  lru_update-order = (
    rank-update_self,
    λ a b la lb na nb.
        ground (
          arith,
          rank-update_other a la na,
          rank-update_other b lb nb,
          apart a la na,
          apart b lb nb,
        ),
    λ a la na. ground (arith, rank-update_other a la na, apart a la na),
  )

  same_rank :
      (a b : ℕ)
      → a < n
      → b < n
      → a ≢ way
      → b ≢ way
      → rank (lru_update way ways) a ≡ rank (lru_update way ways) b
      → rank ways a ≡ rank ways b
  same_rank a b la lb na nb e =
      ground
        (arith, rank-update_other a la na, rank-update_other b lb nb, apart a la na, apart b lb nb)

  onto_lem : (r : ℕ) → r < n → (w : ℕ) × (w < n) × (rank (lru_update way ways) w ≡ r)
  onto_lem zero l = (way, h, rank-update_self)
  onto_lem (suc r) l = elim (dec_lt r (rank ways way)) [
    | yes below ↦
        let (w, lw, e) = v.onto r (omega arith) in
        let ne : w ≢ way = λ f. absurd (omega (arith, ap (rank ways) f)) in
        (w, lw, ground (arith, rank-update_other w lw ne))
    | no above ↦
        let (w, lw, e) = v.onto (suc r) l in
        elim (ℕ_discrete w way) [
          | yes f ↦ absurd (omega (arith, ap (rank ways) f))
          | no ne ↦ (w, lw, ground (arith, rank-update_other w lw ne))
        ]
  ]

  -- Where the ranks of a set number its ways from 0, `lru_update` of one of the ways keeps them
  -- so.
  pub lru_update-IsRanked : IsRanked n (lru_update way ways)
  lru_update-IsRanked = record {
    sized =
        unfold lru_update in
        (length-set (map (age (rank ways way)) ways) way _
          ∙ length-map ways (age (rank ways way))
          ∙ v.sized);
    small = v.small;
    bounded = λ w l. elim (ℕ_discrete w way) [
      | yes e ↦ omega (arith, ap (rank (lru_update way ways)) e, rank-update_self)
      | no ne ↦ ground (arith, rank-update_other w l ne, v.bounded w l, v.bounded way h)
    ];
    distinct = λ a b la lb e. elim (ℕ_discrete a way) [
      | yes ea ↦ elim (ℕ_discrete b way) [
        | yes eb ↦ ea ∙ sym eb
        | no nb ↦ absurd (
            omega (
              arith,
              ap (rank (lru_update way ways)) ea,
              lru_update-order.2 b lb nb,
              rank-update_self,
            ))
      ]
      | no na ↦ elim (ℕ_discrete b way) [
        | yes eb ↦ absurd (
            omega (
              arith,
              ap (rank (lru_update way ways)) eb,
              lru_update-order.2 a la na,
              rank-update_self,
            ))
        | no nb ↦ v.distinct a b la lb (same_rank a b la lb na nb e)
      ]
    ];
    onto = onto_lem;
  }
