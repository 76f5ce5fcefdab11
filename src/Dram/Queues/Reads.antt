-- ===== src/Dram/Queues/Reads.antt =====
-- `MEMORY_CONTROLLER::add_wq` and `add_rq` of src/dram_controller.cc: a read of a block whose writeback
-- is queued.
use speculative_cache_hierar.Prelude.{
  ℕ, ◌<◌, ◌≡◌, ◌≢◌, ◌⊎◌, ◌∙◌, refl, sym, ap, subst, inl, inr, true, false, Option, none, some, when,
  ◌>>=◌, inc_u64, arith, length, set, ◌==◌, first, first-cases, first-at, get_or-set_self,
  get_or-set_ne, Option-cases,
}
use speculative_cache_hierar.Packet.{Packet, empty_packet}
use speculative_cache_hierar.PacketQueue.{PacketQueue, entry_at}
use speculative_cache_hierar.Cache.Requests.{taken}
use speculative_cache_hierar.Cache.{bump}
use speculative_cache_hierar.Dram.{Dram, Uppers, dram_queue_size}
use speculative_cache_hierar.Dram.Queues.{
  check_dram_queue, store_request, update_schedule_cycle, forward_write, add_rq, add_wq,
}

-- A queue of 64 entries, one of them free.
pub record HasRoom (q : PacketQueue) : Type 0 where
  pub sized : q.size ≡ dram_queue_size
  pub allocated : length q.entry ≡ dram_queue_size
  pub free : (i : ℕ) × (i < dram_queue_size) × ((entry_at q i).address ≡ 0)

module _ (q : PacketQueue) (p : Packet) where
  abbrev with_entry : ℕ → PacketQueue
  with_entry k = record q { entry = set q.entry k p }

  -- A packet that is stored is found, where it is stored.
  pub check_dram_queue-store_request :
      HasRoom q
      → p.address ≢ 0
      → check_dram_queue q p ≡ none
      → (k : ℕ) × (check_dram_queue (store_request p q) p ≡ some k)
        × (entry_at (store_request p q) k ≡ p)
  unfolding check_dram_queue store_request
  check_dram_queue-store_request room somewhere absent =
      elim (first-cases dram_queue_size (λ i. (entry_at q i).address == 0)) [
        | inl (_, full) ↦ absurd (nonzero (full room.free.0 room.free.1))
        | inr (k, e, l, _, _) ↦ (k, rw (e, store_request) (at k l), rw (e, store_request) (now k l))
      ]
    where
      nonzero : ((entry_at q room.free.0).address == 0) ≡ false → ⊥
      nonzero e = ground (arith, room.free.2)

      now : (k : ℕ) → k < dram_queue_size → entry_at (with_entry k) k ≡ p
      now k l = get_or-set_self q.entry k p empty_packet (omega (arith, room.allocated))

      others : (k j : ℕ) → j ≢ k → entry_at (with_entry k) j ≡ entry_at q j
      others k j ne = get_or-set_ne q.entry k j p empty_packet (λ e. ne (sym e))

      hit :
          (k : ℕ) → k < dram_queue_size → ((entry_at (with_entry k) k).address == p.address) ≡ true
      hit k l = ground (arith, ap (λ (e : Packet). e.address) (now k l))

      clash : (i : ℕ) → ¬ (none ≡ some i)
      clash i e = cc

      not_here : (j : ℕ) → j < q.size → ((entry_at q j).address == p.address) ≡ false
      not_here j l = elim (first-cases q.size (λ i. (entry_at q i).address == p.address)) [
        | inl (_, h) ↦ h j l
        | inr (i, e, _, _, _) ↦ absurd (clash i (sym absent ∙ e))
      ]

      at :
          (k : ℕ)
          → k < dram_queue_size
          → first q.size (λ j. (entry_at (with_entry k) j).address == p.address) ≡ some k
      at k l = first-at q.size _ k (omega (arith, room.sized)) (hit k l) λ j lj.
          ap (λ (e : Packet). e.address == p.address) (others k j (omega arith))
          ∙ not_here j (omega (arith, room.sized))

module _ {W : Type 0} (env : Uppers W) (r : Packet) (w : W) where
  -- The read `r` with the given data.
  abbrev pub with_payload : ℕ → Packet
  with_payload payload = record r { payload = payload }

  -- It goes up to the instruction cache and to the data cache, if it is for them.
  abbrev pub upward : ℕ → Option W
  upward payload =
      when r.instruction (env.return_icache r.cpu (with_payload payload)) w
      >>= when r.is_data (env.return_dcache r.cpu (with_payload payload))

  -- The read comes back with the given data, at once, and only counters of the controller change.
  abbrev pub Answers : Dram → ℕ → Type 0
  Answers d payload = add_rq env r d w ≡ (
      upward payload >>= λ w'. some (record {
        code = taken;
        packet = with_payload payload;
        dram = record d {
          accesses = bump 1 d.accesses;
          hits = bump 1 d.hits;
          wq = record d.wq { forwards = inc_u64 d.wq.forwards };
          rq = record d.rq { accesses = inc_u64 d.rq.accesses };
        };
        world = w';
      }))

  forward_write-Answers :
      (d : Dram) (i : ℕ)
      → env.is_warming_up w ≡ false
      → check_dram_queue d.wq r ≡ some i
      → Answers d (entry_at d.wq i).payload
  unfolding add_rq forward_write
  forward_write-Answers d i warm e = rw (warm, e, forward_write) refl

module _ {W : Type 0} (env : Uppers W) (d : Dram) (w : W) (p r : Packet) where
  -- The data that a read has after the writeback `p`: of it, or of an older one that is still queued.
  abbrev pub ReadsLatest : Type 0
  ReadsLatest =
      ((check_dram_queue d.wq p ≡ none) × Answers env r w (add_wq env p d w).1 p.payload)
      ⊎ ((i : ℕ) × (check_dram_queue d.wq p ≡ some i)
          × Answers env r w (add_wq env p d w).1 (entry_at d.wq i).payload)

  module _ (room : HasRoom d.wq) (somewhere : p.address ≢ 0) (same : r.address ≡ p.address)
      (warm : env.is_warming_up w ≡ false) where
    same_search : (q : PacketQueue) → check_dram_queue q r ≡ check_dram_queue q p
    unfolding check_dram_queue
    same_search q = ap (λ a. first q.size (λ i. (entry_at q i).address == a)) same

    abbrev queued : PacketQueue
    queued = update_schedule_cycle (store_request p d.wq)

    add_wq-queued : check_dram_queue d.wq p ≡ none → record d { wq = queued } ≡ (add_wq env p d w).1
    unfolding add_wq
    add_wq-queued e = rw (warm, e, add_wq) refl

    add_wq-same : (i : ℕ) → check_dram_queue d.wq p ≡ some i → d ≡ (add_wq env p d w).1
    unfolding add_wq
    add_wq-same i e = rw (warm, e, add_wq) refl

    fresh : check_dram_queue d.wq p ≡ none → Answers env r w (record d { wq = queued }) p.payload
    unfolding update_schedule_cycle check_dram_queue
    fresh e =
        let stored = check_dram_queue-store_request d.wq p room somewhere e in
        subst (Answers env r w (record d { wq = queued })) (ap (λ (q : Packet). q.payload) stored.2)
          (forward_write-Answers env r w (record d { wq = queued }) stored.0 warm
            (same_search queued ∙ stored.1))

    -- When the warm-up is over and the write queue has room, a read of a block (of an address that is
    -- not 0) that follows its writeback comes back at once, with the data of the writeback, unless a
    -- writeback of the block was queued before: then the new data is dropped, and the read has the data
    -- of the older one. It is returned to the upper caches that it is for, which are afterwards as they
    -- leave it; if one of them stops, so does `add_rq`. Only counters of the controller change.
    pub add_rq-add_wq : ReadsLatest
    add_rq-add_wq = elim (Option-cases (check_dram_queue d.wq p)) [
      | inl e ↦ inl (e, subst (λ d. Answers env r w d p.payload) (add_wq-queued e) (fresh e))
      | inr (i, e) ↦ inr (
        i,
        e,
        subst (λ d'. Answers env r w d' (entry_at d.wq i).payload) (add_wq-same i e)
            (forward_write-Answers env r w d i warm (same_search d.wq ∙ e)),
      )
    ]
