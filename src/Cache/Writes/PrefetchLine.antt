-- ===== src/Cache/Writes/PrefetchLine.antt =====
-- `prefetch_line` of src/cache.cc: when a prefetch is issued, and what it leaves in the queue.
use speculative_cache_hierar.Prelude.{
  ℕ, ◌/◌, ◌^◌, ◌<◌, ◌≤◌, ◌≡◌, ◌≢◌, ◌⊎◌, ◌∙◌, sym, ap, inl, inr, ℤ, pos, true, false, ◌&&◌, some,
  arith, ltb, dec_lt, ℕ_discrete, inc_u64,
}
use mathlib.Core.Bool.{false≢true}
use speculative_cache_hierar.Packet.{Packet}
use speculative_cache_hierar.PacketQueue.{PacketQueue, entry_at, same_request}
use speculative_cache_hierar.PacketQueue.Ring.{IsValid}
use speculative_cache_hierar.Cache.{Cache, Neighbours}
use speculative_cache_hierar.Cache.Requests.{taken, refused, count_full, merge_prefetch}
use speculative_cache_hierar.Cache.Requests.Queueing.{Queues, Absent, Oldest, Updates}
use speculative_cache_hierar.Cache.Requests.Prefetches.{add_pq_lem, Replies}
use speculative_cache_hierar.Cache.Writes.{prefetch_packet, same_page, issue, prefetch_line}

module _ {W : Type 0} (env : Neighbours W) (clock : ℕ → ℕ) (ip base_addr pf_addr : ℕ) (level : ℤ)
    (metadata : ℕ) (c : Cache) (w : W) where
  -- The request that `prefetch_line` builds.
  abbrev pub request : Packet
  request = prefetch_packet clock ip pf_addr level metadata c

  -- The cache once the request has been counted.
  abbrev pub counted : Cache
  counted = record c { pf_requested = inc_u64 c.pf_requested }

  passes :
      c.pq.occupancy < c.pq.size
      → base_addr / 2 ^ 12 ≡ pf_addr / 2 ^ 12
      → (ltb c.pq.occupancy c.pq.size && same_page base_addr pf_addr) ≡ true
  passes l e = ground arith

  fails :
      (c.pq.size ≤ c.pq.occupancy) ⊎ (base_addr / 2 ^ 12 ≢ pf_addr / 2 ^ 12)
      → (ltb c.pq.occupancy c.pq.size && same_page base_addr pf_addr) ≡ false
  fails f = ground arith

  -- The outcomes of a call: issued, or only counted.
  abbrev pub Issues : Type 0
  Issues =
      ((c.pq.occupancy < c.pq.size)
        × (base_addr / 2 ^ 12 ≡ pf_addr / 2 ^ 12)
        × ((q : PacketQueue) × Queues clock c.latency request c.pq q
            × (prefetch_line env clock ip base_addr pf_addr level metadata c w
                ≡ some (true, record counted { pq = q; pf_issued = inc_u64 c.pf_issued }, w))))
      ⊎ (((c.pq.size ≤ c.pq.occupancy) ⊎ (base_addr / 2 ^ 12 ≢ pf_addr / 2 ^ 12))
          × (prefetch_line env clock ip base_addr pf_addr level metadata c w
              ≡ some (false, counted, w)))

  -- With valid write and prefetch queues and a block address that is not 0, a prefetch that finds
  -- neither a writeback nor a prefetch of its block in the queues is issued exactly if the
  -- prefetch queue has room and the address lies in the page of `base_addr`: then it is the
  -- youngest packet of the prefetch queue. Otherwise the request is counted and nothing else
  -- changes.
  pub prefetch_line_lem :
      IsValid c.wq
      → IsValid c.pq
      → c.pq_size ≡ c.pq.size
      → pf_addr / 2 ^ 6 ≢ 0
      → Absent c.wq request
      → Absent c.pq request
      → Issues
  unfolding prefetch_line issue
  prefetch_line_lem vw vp size some_address no_writeback no_prefetch =
      elim (dec_lt c.pq.occupancy c.pq.size) [
        | no full ↦ inr (inl (omega arith), rw (fails (inl (omega arith)), prefetch_line))
        | yes room ↦ elim (ℕ_discrete (base_addr / 2 ^ 12) (pf_addr / 2 ^ 12)) [
          | no apart ↦ inr (inr apart, rw (fails (inr apart), prefetch_line))
          | yes near ↦ inl (
            room,
            near,
            issued room near
                (add_pq_lem env clock request counted w vw vp size some_address no_writeback),
          )
        ]
      ]
    where
      issued :
          c.pq.occupancy < c.pq.size
          → base_addr / 2 ^ 12 ≡ pf_addr / 2 ^ 12
          → ((i : ℕ) × (o : Oldest c.pq request i) × (q : PacketQueue) × Updates
                (merge_prefetch request)
                o.0
                c.pq
                q
              × Replies env clock request counted w (pos i) (record counted { pq = q }))
            ⊎ (Absent c.pq request
                × (c.pq.occupancy < c.pq.size)
                × ((q : PacketQueue) × Queues clock c.latency request c.pq q
                    × Replies env clock request counted w taken (record counted { pq = q })))
            ⊎ (Absent c.pq request
                × (c.pq.occupancy ≡ c.pq.size)
                × Replies env clock request counted w refused
                    (record counted { pq = count_full c.pq }))
          → (q : PacketQueue) × Queues clock c.latency request c.pq q
            × (prefetch_line env clock ip base_addr pf_addr level metadata c w
                ≡ some (true, record counted { pq = q; pf_issued = inc_u64 c.pf_issued }, w))
      issued room near (inl (i, o, _, _, _)) = absurd (
          false≢true (
            sym (no_prefetch o.0 o.1)
            ∙ ap (λ i. same_request c.pq request (entry_at c.pq i)) (sym o.2)
            ∙ o.3))
      issued room near (inr (inl (_, _, (q, queued, replied)))) =
          (q, queued, rw (passes room near, prefetch_line, replied))
      issued room near (inr (inr (_, full, _))) = absurd (omega arith)
