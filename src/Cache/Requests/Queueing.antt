-- ===== src/Cache/Requests/Queueing.antt =====
-- What the `add_…q` functions of src/cache.cc share: the entry at the tail, and the lookup before it.
use speculative_cache_hierar.Prelude.{
  ℕ, ◌+◌, ◌%◌, ◌^◌, ltb, if◌then◌else◌, ◌<◌, ◌≡◌, ◌≢◌, ◌⊎◌, ◌∙◌, refl, sym, ap, subst, inl, inr,
  Bool, true, false, not, none, some, [], ◌∷◌, ◌++◌, arith, ◌==◌, length, length-set, get_or-set_ne,
  get_or-set_self, Option-cases,
}
use mathlib.Core.Bool.{false≢true}
use speculative_cache_hierar.Packet.{Packet, empty_packet}
use speculative_cache_hierar.PacketQueue.{PacketQueue, entry_at, same_request, check_queue}
use speculative_cache_hierar.PacketQueue.Ring.{
  slot, nth, contents, IsValid, slot-injective, slot-lt,
}
use speculative_cache_hierar.PacketQueue.Add.{added-IsValid, contents-added}
use speculative_cache_hierar.PacketQueue.Check.{Searches, check_queue-Searches}
use speculative_cache_hierar.Cache.Requests.{
  enqueue, is_unused, update_at, count_entry, count_merge,
}

-- The packet as it is stored: its event comes when the latency of the cache has passed, from now or from
-- its own cycle, whichever is later.
abbrev pub delayed : (ℕ → ℕ) → ℕ → Packet → Packet
delayed clock latency p = record p {
  event_cycle =
      if ltb p.event_cycle (clock p.cpu)
      then (clock p.cpu + latency) % 2 ^ 64
      else (p.event_cycle + latency) % 2 ^ 64;
}

-- The queue took the packet as its youngest.
pub record Queues (clock : ℕ → ℕ) (latency : ℕ) (p : Packet) (q q' : PacketQueue) : Type 0 where
  pub valid : IsValid q'
  pub last : contents q' ≡ contents q ++ delayed clock latency p ∷ []
  pub size : q'.size ≡ q.size

pub enqueue-Queues :
    (clock : ℕ → ℕ) (latency : ℕ) (p : Packet) (q : PacketQueue)
    → IsValid q
    → q.occupancy < q.size
    → Queues clock latency p q (count_entry (enqueue clock latency p q))
unfolding enqueue
enqueue-Queues clock latency p q v room =
    let a = added-IsValid q (delayed clock latency p) v room in
    record {
      valid = record {
        positive = a.positive;
        small = a.small;
        stored = a.stored;
        head_in = a.head_in;
        bounded = a.bounded;
        tail_at = a.tail_at;
        unused = a.unused;
      };
      last = contents-added q (delayed clock latency p) v room;
      size = refl;
    }

-- The sanity check of the callers holds on a valid queue that is not full.
pub is_unused-IsValid : (q : PacketQueue) → IsValid q → q.occupancy < q.size → is_unused q ≡ true
is_unused-IsValid q v room = ground (arith, empty_slot)
  where
    empty_slot : (entry_at q q.tail).address ≡ 0
    empty_slot =
        ap (λ i. (entry_at q i).address) v.tail_at ∙ v.unused q.occupancy (omega arith) room

-- Packets of the queue that are to the place of `p`: the oldest is at index `i`, or there is none.
abbrev pub Oldest : PacketQueue → Packet → ℕ → Type 0
Oldest q p i = Searches q p q.occupancy (slot q.head q.size) (some i)

abbrev pub Absent : PacketQueue → Packet → Type 0
Absent q p = (k : ℕ) → k < q.occupancy → same_request q p (nth q k) ≡ false

pub check_queue-cases :
    (q : PacketQueue) (p : Packet)
    → IsValid q
    → ((i : ℕ) × (check_queue q p ≡ some i) × Oldest q p i)
      ⊎ ((check_queue q p ≡ none) × Absent q p)
check_queue-cases q p v = elim (Option-cases (check_queue q p)) [
  | inl e ↦
      inr (e, subst (Searches q p q.occupancy (slot q.head q.size)) e (check_queue-Searches q p v))
  | inr (i, e) ↦
      inl
        (i, e, subst (Searches q p q.occupancy (slot q.head q.size)) e (check_queue-Searches q p v))
]

-- An entry in use is updated in place: the queue stays valid and the other packets stay as they are.
pub record Updates (f : Packet → Packet) (k : ℕ) (q q' : PacketQueue) : Type 0 where
  pub valid : IsValid q'
  pub changed : nth q' k ≡ f (nth q k)
  pub kept : (j : ℕ) → j < q.size → j ≢ k → nth q' j ≡ nth q j
  pub occupancy : q'.occupancy ≡ q.occupancy
  pub size : q'.size ≡ q.size

pub update_at-Updates :
    (f : Packet → Packet) (k i : ℕ) (q : PacketQueue)
    → IsValid q
    → k < q.occupancy
    → i ≡ slot q.head q.size k
    → Updates f k q (count_merge (update_at i f q))
update_at-Updates f k i q v l e = record {
  valid = record {
    positive = v.positive;
    small = v.small;
    stored = length-set q.entry i _ ∙ v.stored;
    head_in = v.head_in;
    bounded = v.bounded;
    tail_at = v.tail_at;
    unused = λ j a b. ap (λ (p : Packet). p.address) (stays j b (omega arith)) ∙ v.unused j a b;
  };
  changed =
      ap (entry_at (update_at i f q)) (sym e)
      ∙ get_or-set_self q.entry i (f (entry_at q i)) empty_packet in_range
      ∙ ap (λ i. f (entry_at q i)) e;
  kept = stays;
  occupancy = refl;
  size = refl;
}
  where
    in_range : i < length q.entry
    in_range =
        ground (arith, slot-lt q.head q.size k v.head_in (omega (arith, v.bounded)), v.stored)

    stays : (j : ℕ) → j < q.size → j ≢ k → nth (update_at i f q) j ≡ nth q j
    stays j lj ne = get_or-set_ne q.entry i (slot q.head q.size j) _ empty_packet λ h.
        slot-injective q.head q.size k j v.head_in (omega (arith, v.bounded)) lj (λ g. ne (sym g))
          (sym e ∙ h)

-- The same, with the new entry itself.
pub Updates-at :
    (f : Packet → Packet) (k : ℕ) (q q' : PacketQueue)
    → Updates f k q q'
    → Updates (λ _. f (nth q k)) k q q'
Updates-at f k q q' u = record {
  valid = u.valid;
  changed = u.changed;
  kept = u.kept;
  occupancy = u.occupancy;
  size = u.size;
}

-- The two tests on the number of packets, where the constant beside the queue is its size.
pub test_room :
    (q : PacketQueue) (n : ℕ) → n ≡ q.size → q.occupancy < q.size → (q.occupancy == n) ≡ false
test_room q n e l = ground arith

pub test_full :
    (q : PacketQueue) (n : ℕ)
    → IsValid q
    → n ≡ q.size
    → ¬ (q.occupancy < q.size)
    → (q.occupancy == n) ≡ true
test_full q n v e l = ground (arith, v.bounded)

pub test_address : (p : Packet) → p.address ≢ 0 → not (p.address == 0) ≡ true
test_address p ne = ground arith

pub Absent-none : (q : PacketQueue) (p : Packet) → IsValid q → Absent q p → check_queue q p ≡ none
Absent-none q p v a = elim (check_queue-cases q p v) [
  | inr (e, _) ↦ e
  | inl (i, e, (k, l, f, s, _)) ↦
      absurd (false≢true (sym (a k l) ∙ ap (λ i. same_request q p (entry_at q i)) (sym f) ∙ s))
]

pub Oldest-some :
    (q : PacketQueue) (p : Packet) (i : ℕ) → IsValid q → Oldest q p i → check_queue q p ≡ some i
Oldest-some q p i v (k, l, f, s, h) = elim (check_queue-cases q p v) [
  | inr (_, a) ↦ absurd (false≢true (sym (a k l) ∙ ap same (sym f) ∙ s))
  | inl (i', e, (k', l', f', s', h')) ↦ elim (order k k') [
    | inl below ↦ absurd (false≢true (sym (h' k below) ∙ ap same (sym f) ∙ s))
    | inr (inl above) ↦ absurd (false≢true (sym (h k' above) ∙ ap same (sym f') ∙ s'))
    | inr (inr equal) ↦ e ∙ ap some (f' ∙ ap (slot q.head q.size) (sym equal) ∙ sym f)
  ]
]
  where
    same : ℕ → Bool
    same i = same_request q p (entry_at q i)

    order : (a b : ℕ) → (a < b) ⊎ (b < a) ⊎ (a ≡ b)
    order a b = omega arith
