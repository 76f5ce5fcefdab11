-- ===== src/Cache/Writes/Adds.antt =====
-- `add_wq` and `add_cq` of src/cache.cc: every outcome, on a valid queue.
use speculative_cache_hierar.Prelude.{
  ℕ, ◌<◌, ◌≡◌, ◌≢◌, ◌⊎◌, inl, inr, pos, true, false, none, some, arith, leb, dec_lt,
}
use speculative_cache_hierar.Packet.{Packet}
use speculative_cache_hierar.PacketQueue.{PacketQueue}
use speculative_cache_hierar.PacketQueue.Ring.{IsValid}
use speculative_cache_hierar.Cache.{Cache}
use speculative_cache_hierar.Cache.Requests.{
  taken, refused, enqueue, count_merge, count_full, count_entry,
}
use speculative_cache_hierar.Cache.Requests.Queueing.{
  Queues, enqueue-Queues, is_unused-IsValid, Oldest, Absent, check_queue-cases, test_room,
  test_full, test_address,
}
use speculative_cache_hierar.Cache.Writes.{add_wq, add_cq}

module _ (clock : ℕ → ℕ) (p : Packet) (c : Cache) where
  -- The outcomes of a writeback: merged, appended, an assertion that fails.
  abbrev pub Writebacks : Type 0
  Writebacks =
      ((i : ℕ) × Oldest c.wq p i
        × (add_wq clock p c ≡ some (pos i, record c { wq = count_merge c.wq })))
      ⊎ (Absent c.wq p
          × (c.wq.occupancy < c.wq.size)
          × ((q : PacketQueue) × Queues clock c.latency p c.wq q
              × (add_wq clock p c ≡ some (taken, record c { wq = q }))))
      ⊎ (Absent c.wq p × (c.wq.occupancy ≡ c.wq.size) × (add_wq clock p c ≡ none))

  -- On a valid write queue, `add_wq` merges the packet into the oldest writeback to the same
  -- place, and keeps that one's data; else it appends it, and with a full queue its assertion
  -- fails.
  pub add_wq_lem : IsValid c.wq → Writebacks
  unfolding add_wq
  add_wq_lem v = elim (check_queue-cases c.wq p v) [
    | inl (i, e, o) ↦ inl (i, o, rw (e, add_wq))
    | inr (e, absent) ↦ elim (dec_lt c.wq.occupancy c.wq.size) [
      | yes room ↦ inr (
          inl (
            absent,
            room,
            (
              count_entry (enqueue clock c.latency p c.wq),
              enqueue-Queues clock c.latency p c.wq v room,
              rw (e, is_open room, is_unused-IsValid c.wq v room, add_wq),
            ),
          ))
      | no full ↦ inr (inr (absent, omega (arith, v.bounded), rw (e, is_full full, add_wq)))
    ]
  ]
    where
      is_open : c.wq.occupancy < c.wq.size → leb c.wq.size c.wq.occupancy ≡ false
      is_open l = ground arith

      is_full : ¬ (c.wq.occupancy < c.wq.size) → leb c.wq.size c.wq.occupancy ≡ true
      is_full l = ground arith

  -- The outcomes of a commit message: dropped, appended, refused.
  abbrev pub Messages : Type 0
  Messages =
      ((i : ℕ) × Oldest c.cq p i
        × (add_cq clock p c ≡ some (pos i, record c { cq = count_merge c.cq })))
      ⊎ (Absent c.cq p
          × (c.cq.occupancy < c.cq.size)
          × ((q : PacketQueue) × Queues clock c.latency p c.cq q
              × (add_cq clock p c ≡ some (taken, record c { cq = q }))))
      ⊎ (Absent c.cq p
          × (c.cq.occupancy ≡ c.cq.size)
          × (add_cq clock p c ≡ some (refused, record c { cq = count_full c.cq })))

  -- On a valid commit queue, with a packet whose address is not 0, `add_cq` drops a message to a
  -- place that is already in the queue, whatever the two messages ask for; else it appends it, or
  -- refuses it with -2 if the queue is full. It never stops.
  pub add_cq_lem : IsValid c.cq → c.cq_size ≡ c.cq.size → p.address ≢ 0 → Messages
  unfolding add_cq
  add_cq_lem v size some_address = elim (check_queue-cases c.cq p v) [
    | inl (i, e, o) ↦ inl (i, o, rw (e, add_cq))
    | inr (e, absent) ↦ elim (dec_lt c.cq.occupancy c.cq.size) [
      | yes room ↦ inr (
          inl (
            absent,
            room,
            (
              count_entry (enqueue clock c.latency p c.cq),
              enqueue-Queues clock c.latency p c.cq v room,
              rw (
                e,
                test_room c.cq c.cq_size size room,
                is_unused-IsValid c.cq v room,
                test_address p some_address,
                add_cq,
              ),
            ),
          ))
      | no full ↦ inr (
          inr (
            absent,
            omega (arith, v.bounded),
            rw (e, test_full c.cq c.cq_size v size full, add_cq),
          ))
    ]
  ]
