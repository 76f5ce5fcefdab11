-- ===== src/Cache/Requests/Prefetches.antt =====
-- `add_pq` of src/cache.cc: every outcome, on valid queues.
use speculative_cache_hierar.Prelude.{
  ℕ, ◌<◌, ◌≡◌, ◌≢◌, ◌⊎◌, inl, inr, ℤ, pos, none, some, refl, arith, dec_lt,
}
use speculative_cache_hierar.Packet.{Packet}
use speculative_cache_hierar.PacketQueue.{PacketQueue, check_queue}
use speculative_cache_hierar.PacketQueue.Ring.{IsValid, contents}
use speculative_cache_hierar.Cache.{Cache, Neighbours, bump}
use speculative_cache_hierar.Cache.Requests.{
  taken, refused, enqueue, update_at, count_merge, count_full, count_entry, queue_prefetch,
  forward_prefetch, with_data, return_up, count_forward, count_access, add_pq, merge_prefetch,
}
use speculative_cache_hierar.Cache.Requests.Queueing.{
  Queues, enqueue-Queues, is_unused-IsValid, Oldest, Absent, check_queue-cases, Updates,
  update_at-Updates, test_room, test_full, test_address, Absent-none, Oldest-some,
}

module _ {W : Type 0} (env : Neighbours W) (clock : ℕ → ℕ) (p : Packet) (c : Cache) (w : W) where
  -- What `add_pq` replies with code `code`, cache `c'`, and the packet and the neighbours as they were.
  abbrev pub Replies : ℤ → Cache → Type 0
  Replies code c' =
      add_pq env clock p c w ≡ some (record { code = code; packet = p; cache = c'; world = w })

  -- The outcomes of a prefetch: merged, appended, refused.
  abbrev pub Prefetches : Type 0
  Prefetches =
      ((i : ℕ) × (o : Oldest c.pq p i) × (q : PacketQueue) × Updates (merge_prefetch p) o.0 c.pq q
        × Replies (pos i) (record c { pq = q }))
      ⊎ (Absent c.pq p
          × (c.pq.occupancy < c.pq.size)
          × ((q : PacketQueue) × Queues clock c.latency p c.pq q
              × Replies taken (record c { pq = q })))
      ⊎ (Absent c.pq p
          × (c.pq.occupancy ≡ c.pq.size)
          × Replies refused (record c { pq = count_full c.pq }))

  -- With valid write and prefetch queues, a prefetch of an address that is not 0, and that no
  -- writeback in the queue answers, is merged into the oldest prefetch of the same block,
  -- appended, or refused with -2 when the queue is full; the assertions of `add_pq` hold.
  pub add_pq_lem :
      IsValid c.wq
      → IsValid c.pq
      → c.pq_size ≡ c.pq.size
      → p.address ≢ 0
      → Absent c.wq p
      → Prefetches
  unfolding add_pq
  add_pq_lem vw vp size some_address no_writeback = elim (check_queue-cases c.pq p vp) [
    | inl (i, e, o) ↦ inl (
      i,
      o,
      count_merge (update_at i (merge_prefetch p) c.pq),
      update_at-Updates (merge_prefetch p) o.0 i c.pq vp o.1 o.2,
      rw (missed, e, add_pq, queue_prefetch),
    )
    | inr (e, absent) ↦ elim (dec_lt c.pq.occupancy c.pq.size) [
      | yes room ↦ inr (
          inl (
            absent,
            room,
            (
              count_entry (enqueue clock c.latency p c.pq),
              enqueue-Queues clock c.latency p c.pq vp room,
              rw (
                missed,
                e,
                test_room c.pq c.pq_size size room,
                is_unused-IsValid c.pq vp room,
                test_address p some_address,
                add_pq,
                queue_prefetch,
              ),
            ),
          ))
      | no full ↦ inr (
          inr (
            absent,
            omega (arith, vp.bounded),
            rw (missed, e, test_full c.pq c.pq_size vp size full, add_pq, queue_prefetch),
          ))
    ]
  ]
    where
      missed : check_queue c.wq p ≡ none
      missed = Absent-none c.wq p vw no_writeback

  -- With a valid write queue, a prefetch that finds a writeback to its block there is answered
  -- from the oldest one, in any cache: it carries that writeback's data if an upper cache waits
  -- for it, and the upper caches get it, provided that they take it. The prefetch is not queued,
  -- and no block changes.
  pub add_pq_forward :
      IsValid c.wq
      → (i : ℕ) → Oldest c.wq p i
      → (w' : W) → return_up env clock c (with_data env clock c i p) w ≡ some w'
      → (c' : Cache) × (add_pq env clock p c w
          ≡ some
              (record { code = taken; packet = with_data env clock c i p; cache = c'; world = w' }))
        × (contents c'.pq ≡ contents c.pq)
        × (contents c'.wq ≡ contents c.wq)
        × (c'.block ≡ c.block)
        × (c'.spec_block ≡ c.spec_block)
  unfolding add_pq
  add_pq_forward vw i o w' up =
      let sent = with_data env clock c i p in
      (
        record c {
          hits = bump sent.type c.hits;
          accesses = bump sent.type c.accesses;
          wq = count_forward c.wq;
          pq = count_access c.pq;
        },
        rw (Oldest-some c.wq p i vw o, add_pq, forward_prefetch, up),
        refl,
        refl,
        refl,
        refl,
      )
