-- ===== src/Cache/Requests/Forwards.antt =====
-- `add_rq` of src/cache.cc: a read that a writeback in the write queue answers.
use speculative_cache_hierar.Prelude.{
  ℕ, ◌<◌, ◌≡◌, refl, inl, inr, Bool, true, false, not, ◌&&◌, Option, none, some, [], ◌∷◌, ◌++◌,
  if◌then◌else◌, Bool-cases, ltb_ℤ, ◌>>=◌, inc_u64, arith, ltb, ◌==◌, when, dec_lt, lt→ltb,
}
use speculative_cache_hierar.AccessType
use speculative_cache_hierar.Packet.{Packet}
use speculative_cache_hierar.PacketQueue.{PacketQueue, entry_at, add_queue}
use speculative_cache_hierar.PacketQueue.Ring.{IsValid, contents}
use speculative_cache_hierar.PacketQueue.Add.{Adds, add_queue-Adds}
use speculative_cache_hierar.Cache.{Cache, Neighbours, bump}
use speculative_cache_hierar.Cache.Requests.{
  taken, forwards_reads, is_l1d, is_level_2, return_up, add_processed, forward_read, add_rq,
}
use speculative_cache_hierar.Cache.Requests.Queueing.{Oldest, Oldest-some}

module _ {W : Type 0} (env : Neighbours W) (clock : ℕ → ℕ) (p : Packet) (c : Cache) (w : W) where
  -- `add_processed` never stops on a valid queue, and appends the packet if there is room.
  abbrev Notes : Bool → Packet → PacketQueue → Type 0
  Notes b p q =
      IsValid q
      × (contents q ≡ (
          if b && ltb c.processed.occupancy c.processed.size
          then contents c.processed ++ p ∷ []
          else contents c.processed))

  processed_lem :
      (p : Packet)
      → IsValid c.processed
      → (q : PacketQueue) × (add_processed env clock p c ≡ some (record c { processed = q }))
        × Notes true p q
  unfolding add_processed
  processed_lem p v = elim (dec_lt c.processed.occupancy c.processed.size) [
    | yes room ↦ go (add_queue p c.processed) refl room (add_queue-Adds c.processed p v)
    | no full ↦ (c.processed, rw (no_room full), (v, rw (no_room full) refl))
  ]
    where
      no_room :
          ¬ (c.processed.occupancy < c.processed.size)
          → ltb c.processed.occupancy c.processed.size ≡ false
      no_room l = ground arith

      go :
          (o : Option PacketQueue)
          → add_queue p c.processed ≡ o
          → c.processed.occupancy < c.processed.size
          → Adds c.processed p o
          → (q : PacketQueue) × (add_processed env clock p c ≡ some (record c { processed = q }))
            × Notes true p q
      go none e l full = absurd (omega arith)
      go (some q) e l (_, v', listed, _) = (
        q,
        rw (lt→ltb _ _ l, e),
        (v', rw (lt→ltb c.processed.occupancy c.processed.size l) listed),
      )

  -- The step on PROCESSED of a read that is answered.
  noted_lem :
      (b : Bool) (p : Packet)
      → IsValid c.processed
      → (q : PacketQueue) × (when b (add_processed env clock p) c
          ≡ some (record c { processed = q }))
        × Notes b p q
  noted_lem true p v = processed_lem p v
  noted_lem false p v = (c.processed, refl, (v, refl))

  -- The packet of a read that the writeback at index `i` answers: with its data, if it is for an upper
  -- cache.
  abbrev answer_of : ℕ → Packet
  answer_of i =
      if ltb_ℤ p.fill_level c.fill_level
      then record p { payload = (entry_at c.wq i).payload }
      else p

  -- The upper caches that the packet is for get it: at the L2C those that it is to fill.
  abbrev upward : Packet → Option W
  upward sent =
      let to_icache = if is_level_2 c.fill_level then p.fill_l1i else p.instruction in
      let to_dcache = if is_level_2 c.fill_level then p.fill_l1d else p.is_data in
      if ltb_ℤ p.fill_level c.fill_level
      then when to_icache (env.return_icache p.cpu sent) w
        >>= when to_dcache (env.return_dcache p.cpu sent)
      else some w

  -- The cache after a read of a kind has been answered, with the queue PROCESSED.
  abbrev answered_cache : PacketQueue → Cache
  answered_cache q = record c {
    processed = q;
    hits = bump p.type c.hits;
    accesses = bump p.type c.accesses;
    wq = record c.wq { forwards = inc_u64 c.wq.forwards };
    rq = record c.rq { accesses = inc_u64 c.rq.accesses };
  }

  -- What a read that the writeback at index `i` answers returns and leaves.
  abbrev pub Forwards : ℕ → Type 0
  Forwards i =
      (q : PacketQueue) × (add_rq env clock p c w ≡ (
        upward (answer_of i) >>= λ w'.
        some (record { code = taken; packet = answer_of i; cache = answered_cache q; world = w' })))
      × Notes (is_l1d c.cache_type && not (p.type == AccessType.prefetch)) (answer_of i) q

  -- With valid queues, a read that finds a writeback to its block in the write queue is answered
  -- from the oldest one: if it is for an upper cache, it carries that writeback's data, and goes to the
  -- upper caches that wait for it; if these stop, so does `add_rq`, and else they are as they are then.
  -- The read is not queued, and the cache changes in its counters and, for the L1D, in PROCESSED, which
  -- takes the packet unless it is full or this is a prefetch. This is for the L1D, the L2C, the LLC and
  -- the STLB; the others would fail an assertion.
  pub add_rq_forward :
      IsValid c.wq
      → IsValid c.processed
      → forwards_reads c.cache_type ≡ true
      → (i : ℕ) → Oldest c.wq p i
      → Forwards i
  unfolding add_rq forward_read return_up
  add_rq_forward vw vp kind i o = elim (Bool-cases (ltb_ℤ p.fill_level c.fill_level)) [
    | inl up ↦
        let (q, noted, n) =
          noted_lem (is_l1d c.cache_type && not (p.type == AccessType.prefetch))
            (record p { payload = (entry_at c.wq i).payload }) vp in
        (
          q,
          rw (Oldest-some c.wq p i vw o, up, kind, noted, add_rq, forward_read) (rw up refl),
          rw up n,
        )
    | inr here ↦
        let (q, noted, n) =
          noted_lem (is_l1d c.cache_type && not (p.type == AccessType.prefetch)) p vp in
        (
          q,
          rw (Oldest-some c.wq p i vw o, here, kind, noted, add_rq, forward_read) (rw here refl),
          rw here n,
        )
  ]
