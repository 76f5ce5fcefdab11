-- ===== src/PacketQueue/Remove.antt =====
-- `PACKET_QUEUE::remove_queue` of src/block.cc, called on the head as the caches do.
use speculative_cache_hierar.Prelude.{
  ℕ, suc, ◌<◌, ◌≡◌, ◌∙◌, refl, sym, ap, ap₂, subst, true, false, ◌&&◌, Option, none, some, ◌∷◌,
  arith, length-set, get_or, set, get_or-set_self, get_or-set_ne, tabulate, tabulate_ext, dec_lt,
  ◌==◌, dec_u32,
}
use speculative_cache_hierar.Packet.{Packet, empty_packet}
use speculative_cache_hierar.PacketQueue.{PacketQueue, entry_at, advance, remove_queue}
use speculative_cache_hierar.PacketQueue.Ring.{
  slot, nth, contents, IsValid, slot-injective, slot-suc, advance-slot,
}

-- What `remove_queue(&entry[head])` does: it drops the oldest packet, and fails exactly on an empty queue.
abbrev pub Removes : PacketQueue → Option PacketQueue → Type 0
Removes q none = q.occupancy ≡ 0
Removes q (some q') =
    (0 < q.occupancy)
    × IsValid q'
    × (contents q ≡ entry_at q q.head ∷ contents q')
    × (q'.size ≡ q.size)

abbrev removed : PacketQueue → PacketQueue
removed q = record q {
  entry = set q.entry q.head empty_packet;
  occupancy = dec_u32 q.occupancy;
  head = advance q q.head;
}

lets_out :
    (q : PacketQueue) → IsValid q → 0 < q.occupancy → (q.occupancy == 0 && q.head == q.tail) ≡ false
lets_out q v some_left = ground arith

holds_back :
    (q : PacketQueue) → IsValid q → q.occupancy ≡ 0 → (q.occupancy == 0 && q.head == q.tail) ≡ true
holds_back q v none_left = ground (arith, v.tail_at, v.head_in)

module _ (q : PacketQueue) (v : IsValid q) (busy : 0 < q.occupancy) where
  shrinks : suc (dec_u32 q.occupancy) ≡ q.occupancy
  shrinks = omega (arith, v.small, v.bounded)

  slot-zero : slot q.head q.size 0 ≡ q.head
  slot-zero = ground (arith, v.head_in)

  head-removed : (removed q).head ≡ slot q.head q.size 1
  head-removed = ap (advance q) (sym slot-zero) ∙ advance-slot q 0 v v.positive

  slot-removed : (k : ℕ) → k < q.size → slot (removed q).head q.size k ≡ slot q.head q.size (suc k)
  slot-removed k l = ap (λ h. slot h q.size k) head-removed ∙ slot-suc q.head q.size k v.head_in l

  nth-removed : (k : ℕ) → suc k < q.size → nth (removed q) k ≡ nth q (suc k)
  nth-removed k l =
      ap (λ i. get_or (removed q).entry i empty_packet) (slot-removed k (omega arith))
      ∙ get_or-set_ne q.entry q.head (slot q.head q.size (suc k)) empty_packet empty_packet λ e.
        slot-injective q.head q.size 0 (suc k) v.head_in v.positive l (omega arith) (slot-zero ∙ e)

  -- The slot that falls free is the one that was reset.
  nth-removed_last : (k : ℕ) → suc k ≡ q.size → nth (removed q) k ≡ empty_packet
  nth-removed_last k e =
      ap (λ i. get_or (removed q).entry i empty_packet) (slot-removed k (omega arith) ∙ round_trip)
      ∙ get_or-set_self q.entry q.head empty_packet empty_packet
          (omega (arith, v.stored, v.head_in))
    where
      round_trip : slot q.head q.size (suc k) ≡ q.head
      round_trip = ground (arith, v.head_in)

  removed-IsValid : IsValid (removed q)
  removed-IsValid = record {
    positive = v.positive;
    small = v.small;
    stored = length-set q.entry q.head empty_packet ∙ v.stored;
    head_in = subst (λ h. h < q.size) (sym head-removed) (ground (arith, v.head_in));
    bounded = omega (arith, shrinks, v.bounded);
    tail_at =
        v.tail_at
        ∙ ap (slot q.head q.size) (sym shrinks)
        ∙ sym (slot-removed (dec_u32 q.occupancy) (omega (arith, shrinks, v.bounded)));
    unused = λ k a b. elim (dec_lt (suc k) q.size) [
      | yes l ↦
          ap (λ (e : Packet). e.address) (nth-removed k l)
          ∙ v.unused (suc k) (omega (arith, shrinks)) l
      | no l ↦ ap (λ (e : Packet). e.address) (nth-removed_last k (omega arith))
    ];
  }

  contents-removed : contents q ≡ entry_at q q.head ∷ contents (removed q)
  contents-removed =
      ap (λ n. tabulate n (nth q)) (sym shrinks)
      ∙ ap₂ ◌∷◌ (ap (entry_at q) slot-zero) (
          tabulate_ext (dec_u32 q.occupancy) (λ k. nth q (suc k)) (nth (removed q))
            (λ k l. sym (nth-removed k (omega (arith, shrinks, v.bounded)))))

-- On a valid ring `remove_queue(&entry[head])` drops the oldest packet and keeps the ring valid
-- and its size, unless the queue is empty; then its assertion fails.
pub remove_queue-Removes : (q : PacketQueue) → IsValid q → Removes q (remove_queue q.head q)
unfolding remove_queue
remove_queue-Removes q v = elim (dec_lt 0 q.occupancy) [
  | yes busy ↦
      rw (lets_out q v busy) (busy, removed-IsValid q v busy, contents-removed q v busy, refl)
  | no idle ↦ rw (holds_back q v (omega arith)) (omega arith)
]
