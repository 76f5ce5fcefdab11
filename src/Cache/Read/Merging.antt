-- ===== src/Cache/Read/Merging.antt =====
-- What `CACHE::handle_read` of src/cache.cc makes of an entry of the MSHR that a read meets.
use speculative_cache_hierar.Prelude.{
  ℕ, ◌<◌, ◌≡◌, ◌≢◌, ◌⊎◌, ◌∙◌, refl, ap, inl, inr, arith, Bool, true, false, ◌||◌, ◌==◌, ltb_ℤ,
  if◌then◌else◌, Bool-cases, pos, to_u16,
}
use speculative_cache_hierar.AccessType
use speculative_cache_hierar.FastSet
use speculative_cache_hierar.FastSet.{FastSet, search}
use speculative_cache_hierar.FastSet.Members.{IsValid, insert-IsValid, search-insert}
use speculative_cache_hierar.FastSet.Union.{search-join}
use speculative_cache_hierar.Packet.{Packet}
use speculative_cache_hierar.Cache.Writeback.{widen, replace_prefetch}
use speculative_cache_hierar.Cache.Read.{join_miss, merge_miss, lq_size}

module _ (p e : Packet) where
  -- The loads that wait for entry `e` after the load `p` has met it.
  abbrev wakes : ℕ → Bool
  wakes x =
      (p.lq_index == x || search x e.lq_index_depend_on_me) || search x p.lq_index_depend_on_me

  -- The two outcomes: the requests are joined, or `p` replaces a prefetch.
  abbrev pub MergesLoad : Type 0
  MergesLoad =
      ((e.type ≢ AccessType.prefetch)
        × ((x : ℕ) → x < lq_size → search x (merge_miss p e).lq_index_depend_on_me ≡ wakes x)
        × ((merge_miss p e).load_merged ≡ true)
        × ((merge_miss p e).is_data ≡ true)
        × ((merge_miss p e).store_merged ≡ (e.store_merged || p.store_merged))
        × ((merge_miss p e).address ≡ e.address)
        × ((merge_miss p e).type ≡ e.type)
        × ((merge_miss p e).fill_l1i ≡ (e.fill_l1i || p.fill_l1i))
        × ((merge_miss p e).fill_l1d ≡ (e.fill_l1d || p.fill_l1d))
        × ((merge_miss p e).fill_level
            ≡ (if ltb_ℤ p.fill_level e.fill_level then p.fill_level else e.fill_level)))
      ⊎ ((e.type ≡ AccessType.prefetch)
          × (merge_miss p e ≡ record p { returned = e.returned; event_cycle = e.event_cycle }))

  module _ (is_load : p.type ≢ AccessType.rfo) (is_data : p.instruction ≡ false)
      (in_queue : p.lq_index < lq_size) (valid : IsValid p.lq_index_depend_on_me)
      (valid' : IsValid e.lq_index_depend_on_me) where
    short : to_u16 (pos p.lq_index) ≡ p.lq_index
    short = omega arith

    joined :
        (x : ℕ)
        → x < lq_size
        → search x (
            FastSet.join
              (FastSet.insert (to_u16 (pos p.lq_index)) e.lq_index_depend_on_me)
              p.lq_index_depend_on_me
              lq_size)
          ≡ wakes x
    joined x l = rw short (
        search-join x lq_size (FastSet.insert p.lq_index e.lq_index_depend_on_me)
          p.lq_index_depend_on_me l (omega arith)
          (insert-IsValid p.lq_index e.lq_index_depend_on_me (omega arith) valid') valid
        ∙ ap (λ b. b || search x p.lq_index_depend_on_me)
            (search-insert p.lq_index x e.lq_index_depend_on_me (omega arith) (omega arith) valid'))

    not_store : (p.type == AccessType.rfo) ≡ false
    not_store = ground arith

    -- A load of the load queue that meets an outstanding miss (both sets of loads are valid): unless
    -- that is a prefetch, the entry is marked as one for data with loads merged into it, holds as these
    -- loads, among those of the queue, this one, those that had been merged with it and those that
    -- waited before, and no other, keeps its address and type, has stores merged if either had, is for each upper cache that either
    -- asked for, and has the lower of the two fill levels. A prefetch is
    -- replaced by the load, which keeps only its progress: what the prefetch was for is dropped.
    pub merge_miss-MergesLoad : MergesLoad
    unfolding merge_miss join_miss widen replace_prefetch
    merge_miss-MergesLoad = elim (Bool-cases (e.type == AccessType.prefetch)) [
      | inl is_prefetch ↦ inr (ground arith, rw (not_store, is_data, is_prefetch) refl)
      | inr demand ↦ inl (
        ground arith,
        λ x l. rw (not_store, is_data, demand) (joined x l),
        rw (not_store, is_data, demand) refl,
        rw (not_store, is_data, demand) refl,
        rw (not_store, is_data, demand) refl,
        rw (not_store, is_data, demand) refl,
        rw (not_store, is_data, demand) refl,
        rw (not_store, is_data, demand) refl,
        rw (not_store, is_data, demand) refl,
        rw (not_store, is_data, demand) refl,
      )
    ]
