-- ===== src/Cache/Requests/Reads.antt =====
-- `add_rq` of src/cache.cc: every outcome of a read that no writeback answers, on valid queues.
use speculative_cache_hierar.Prelude.{
  ℕ, ◌<◌, ◌≡◌, ◌≢◌, ◌⊎◌, refl, inl, inr, ℤ, pos, true, false, none, some, ◌||◌, ◌%◌, ◌^◌,
  Bool-cases, to_u16, arith, ◌==◌, dec_lt,
}
use speculative_cache_hierar.AccessType
use speculative_cache_hierar.FastSet
use speculative_cache_hierar.Packet.{Packet}
use speculative_cache_hierar.PacketQueue.{PacketQueue, check_queue}
use speculative_cache_hierar.PacketQueue.Ring.{IsValid, nth}
use speculative_cache_hierar.Cache.{Cache, Neighbours}
use speculative_cache_hierar.Cache.Requests.{
  taken, refused, enqueue, update_at, count_merge, count_full, count_entry, queue_read, add_rq,
  merge_read,
}
use speculative_cache_hierar.Cache.Requests.Queueing.{
  Queues, enqueue-Queues, is_unused-IsValid, Oldest, Absent, check_queue-cases, Updates, Updates-at,
  update_at-Updates, test_room, test_full, test_address, Absent-none,
}

module _ {W : Type 0} (env : Neighbours W) (clock : ℕ → ℕ) (p : Packet) (c : Cache) (w : W) where
  -- What `add_rq` replies with code `code`, cache `c'`, and the packet and the neighbours as they were.
  abbrev pub Replies : ℤ → Cache → Type 0
  Replies code c' =
      add_rq env clock p c w ≡ some (record { code = code; packet = p; cache = c'; world = w })

  -- The read `e` after the merge: it is for each upper cache that either asked for, and also stands for
  -- the fetch, the store or the load `p`, which is inserted into its set for these.
  abbrev pub Merges : Packet → Packet → Type 0
  Merges e e' =
      ((p.instruction ≡ true)
        × (e' ≡ record e {
          fill_l1i = e.fill_l1i || p.fill_l1i;
          fill_l1d = e.fill_l1d || p.fill_l1d;
          rob_index_depend_on_me = FastSet.insert (to_u16 p.rob_index) e.rob_index_depend_on_me;
          instruction = true;
          instr_merged = true;
        }))
      ⊎ ((p.instruction ≡ false)
          × (p.type ≡ AccessType.rfo)
          × (e' ≡ record e {
            fill_l1i = e.fill_l1i || p.fill_l1i;
            fill_l1d = e.fill_l1d || p.fill_l1d;
            sq_index_depend_on_me = FastSet.insert (p.sq_index % 2 ^ 16) e.sq_index_depend_on_me;
            is_data = true;
            store_merged = true;
          }))
      ⊎ ((p.instruction ≡ false)
          × (p.type ≢ AccessType.rfo)
          × (e' ≡ record e {
            fill_l1i = e.fill_l1i || p.fill_l1i;
            fill_l1d = e.fill_l1d || p.fill_l1d;
            lq_index_depend_on_me = FastSet.insert (p.lq_index % 2 ^ 16) e.lq_index_depend_on_me;
            is_data = true;
            load_merged = true;
          }))

  merge_read-Merges : (e : Packet) → Merges e (merge_read p e)
  unfolding merge_read
  merge_read-Merges e = elim (Bool-cases p.instruction) [
    | inl fetch ↦ inl (fetch, rw fetch refl)
    | inr other ↦ elim (Bool-cases (p.type == AccessType.rfo)) [
      | inl store ↦ inr (inl (other, ground arith, rw (other, store) refl))
      | inr load ↦ inr (inr (other, ground arith, rw (other, load) refl))
    ]
  ]

  -- The outcomes of a read: merged, appended, refused.
  abbrev pub Reads : Type 0
  Reads =
      ((i : ℕ) × (o : Oldest c.rq p i) × (e' : Packet) × Merges (nth c.rq o.0) e'
        × (q : PacketQueue) × Updates (λ _. e') o.0 c.rq q
        × Replies (pos i) (record c { rq = q }))
      ⊎ (Absent c.rq p
          × (c.rq.occupancy < c.rq.size)
          × ((q : PacketQueue) × Queues clock c.latency p c.rq q
              × Replies taken (record c { rq = q })))
      ⊎ (Absent c.rq p
          × (c.rq.occupancy ≡ c.rq.size)
          × Replies refused (record c { rq = count_full c.rq }))

  -- With valid write and read queues, a read of an address that is not 0, and that no writeback in
  -- the queue answers, is merged into the oldest read of the same block, appended, or refused with
  -- -2 when the queue is full; the assertions of `add_rq` hold. Merged means that the queued read is
  -- then for each upper cache that either is for, that the fetch, store or load is in its set of those,
  -- and that it is marked as having such merged; nothing else of it changes, nor do other reads.
  pub add_rq_lem :
      IsValid c.wq → IsValid c.rq → c.rq_size ≡ c.rq.size → p.address ≢ 0 → Absent c.wq p → Reads
  unfolding add_rq
  add_rq_lem vw vr size some_address no_writeback = elim (check_queue-cases c.rq p vr) [
    | inl (i, e, o) ↦ inl (
      i,
      o,
      merge_read p (nth c.rq o.0),
      merge_read-Merges (nth c.rq o.0),
      count_merge (update_at i (merge_read p) c.rq),
      Updates-at (merge_read p) o.0 c.rq _ (update_at-Updates (merge_read p) o.0 i c.rq vr o.1 o.2),
      rw (missed, e, add_rq, queue_read),
    )
    | inr (e, absent) ↦ elim (dec_lt c.rq.occupancy c.rq.size) [
      | yes room ↦ inr (
          inl (
            absent,
            room,
            (
              count_entry (enqueue clock c.latency p c.rq),
              enqueue-Queues clock c.latency p c.rq vr room,
              rw (
                missed,
                e,
                test_room c.rq c.rq_size size room,
                is_unused-IsValid c.rq vr room,
                test_address p some_address,
                add_rq,
                queue_read,
              ),
            ),
          ))
      | no full ↦ inr (
          inr (
            absent,
            omega (arith, vr.bounded),
            rw (missed, e, test_full c.rq c.rq_size vr size full, add_rq, queue_read),
          ))
    ]
  ]
    where
      missed : check_queue c.wq p ≡ none
      missed = Absent-none c.wq p vw no_writeback
