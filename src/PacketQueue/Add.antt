-- ===== src/PacketQueue/Add.antt =====
-- `PACKET_QUEUE::add_queue` of src/block.cc, against the list of the packets.
use speculative_cache_hierar.Prelude.{
  ℕ, suc, ◌<◌, ◌≡◌, ◌≢◌, ◌∙◌, refl, sym, ap, ap₂, true, false, not, ◌&&◌, Option, none, some, [],
  ◌∷◌, ◌++◌, arith, length, length-set, get_or, set, get_or-set_self, get_or-set_ne, tabulate,
  tabulate_ext, tabulate-suc, dec_lt, ◌==◌, inc_u32,
}
use speculative_cache_hierar.Packet.{Packet, empty_packet}
use speculative_cache_hierar.PacketQueue.{PacketQueue, advance, add_queue}
use speculative_cache_hierar.PacketQueue.Ring.{
  slot, nth, contents, IsValid, slot-injective, slot-lt, advance-slot,
}

-- What `add_queue` does to the list: it appends, and fails exactly on a full queue.
abbrev pub Adds : PacketQueue → Packet → Option PacketQueue → Type 0
Adds q p none = q.occupancy ≡ q.size
Adds q p (some q') =
    (q.occupancy < q.size) × IsValid q' × (contents q' ≡ contents q ++ p ∷ []) × (q'.size ≡ q.size)

-- The queue after a call that the assertion lets pass.
abbrev pub added : PacketQueue → Packet → PacketQueue
added q p = record q {
  entry = set q.entry q.tail p;
  occupancy = inc_u32 q.occupancy;
  tail = advance q q.tail;
}

module _ (q : PacketQueue) (p : Packet) (v : IsValid q) (room : q.occupancy < q.size) where
  tail-lt : q.tail < length q.entry
  tail-lt = ground (arith, slot-lt q.head q.size q.occupancy v.head_in room)

  nth-added_other : (k : ℕ) → k < q.size → k ≢ q.occupancy → nth (added q p) k ≡ nth q k
  nth-added_other k l ne = get_or-set_ne q.entry q.tail (slot q.head q.size k) p empty_packet λ e.
      slot-injective q.head q.size q.occupancy k v.head_in room l (λ h. ne (sym h))
        (sym v.tail_at ∙ e)

  nth-added_self : nth (added q p) q.occupancy ≡ p
  nth-added_self =
      ap (λ i. get_or (set q.entry q.tail p) i empty_packet) (sym v.tail_at)
      ∙ get_or-set_self q.entry q.tail p empty_packet tail-lt

  grows : inc_u32 q.occupancy ≡ suc q.occupancy
  grows = omega (arith, v.small)

  pub added-IsValid : IsValid (added q p)
  added-IsValid = record {
    positive = v.positive;
    small = v.small;
    stored = length-set q.entry q.tail p ∙ v.stored;
    head_in = v.head_in;
    bounded = omega arith;
    tail_at =
        ap (advance q) v.tail_at
        ∙ advance-slot q q.occupancy v room
        ∙ ap (slot q.head q.size) (sym grows);
    unused = λ k a b.
        ap (λ (e : Packet). e.address) (nth-added_other k b (omega arith))
        ∙ v.unused k (omega arith) b;
  }

  pub contents-added : contents (added q p) ≡ contents q ++ p ∷ []
  contents-added =
      ap (λ n. tabulate n (nth (added q p))) grows
      ∙ tabulate-suc q.occupancy (nth (added q p))
      ∙ ap₂ (λ xs x. xs ++ x ∷ [])
          (tabulate_ext q.occupancy (nth (added q p)) (nth q)
            (λ k l. nth-added_other k (omega arith) (omega arith)))
          nth-added_self

-- The tests of the two assertions, on a valid queue.
lets_in :
    (q : PacketQueue)
    → IsValid q
    → q.occupancy < q.size
    → (not (q.occupancy == 0) && q.head == q.tail) ≡ false
lets_in q v room = ground (arith, v.tail_at, v.head_in)

keeps_out :
    (q : PacketQueue)
    → IsValid q
    → q.occupancy ≡ q.size
    → (not (q.occupancy == 0) && q.head == q.tail) ≡ true
keeps_out q v full = ground (arith, v.tail_at, v.head_in, v.positive)

-- On a valid ring `add_queue` appends the packet and keeps the ring valid and its size, unless the
-- queue is full; then its assertion fails.
pub add_queue-Adds : (q : PacketQueue) (p : Packet) → IsValid q → Adds q p (add_queue p q)
unfolding add_queue
add_queue-Adds q p v = elim (dec_lt q.occupancy q.size) [
  | yes room ↦
      rw (lets_in q v room) (room, added-IsValid q p v room, contents-added q p v room, refl)
  | no full ↦ rw (keeps_out q v (omega arith)) (omega arith)
]
