-- ===== src/PacketQueue/Ring.antt =====
-- The ring of src/block.cc as the list of the packets that it holds, oldest first.
use speculative_cache_hierar.Prelude.{
  ℕ, suc, ◌+◌, ◌-◌, ◌^◌, ◌≤◌, ◌<◌, ◌≡◌, ◌≢◌, refl, ap, List, [], arith, ltb, if◌then◌else◌, length,
  length-replicate, get_or-replicate, tabulate,
}
use Prim.Native.String.{String}
use speculative_cache_hierar.Packet.{Packet, empty_packet}
use speculative_cache_hierar.PacketQueue.{PacketQueue, entry_at, new, advance}

-- The index that lies `k` places after `head`, going round at `size`.
abbrev pub slot : ℕ → ℕ → ℕ → ℕ
slot head size k = if ltb (head + k) size then head + k else head + k - size

-- The packet that is `k`-th in the queue.
abbrev pub nth : PacketQueue → ℕ → Packet
nth q k = entry_at q (slot q.head q.size k)

abbrev pub contents : PacketQueue → List Packet
contents q = tabulate q.occupancy (nth q)

-- The ring invariant. Entries that are not in use have address 0, which `add_rq` and the others of
-- the caches assert.
pub record IsValid (q : PacketQueue) : Type 0 where
  pub positive : 0 < q.size
  pub small : q.size < 2 ^ 32
  pub stored : length q.entry ≡ q.size
  pub head_in : q.head < q.size
  pub bounded : q.occupancy ≤ q.size
  pub tail_at : q.tail ≡ slot q.head q.size q.occupancy
  pub unused : (k : ℕ) → q.occupancy ≤ k → k < q.size → (nth q k).address ≡ 0

-- A new queue is valid and empty.
pub new-IsValid :
    (name : String) (size : ℕ)
    → 0 < size
    → size < 2 ^ 32
    → IsValid (new name size) × (contents (new name size) ≡ [])
unfolding new
new-IsValid name size h l = (
  record {
    positive = h;
    small = l;
    stored = length-replicate size empty_packet;
    head_in = h;
    bounded = omega arith;
    tail_at = ground arith;
    unused = λ k _ _.
        ap (λ (p : Packet). p.address) (get_or-replicate size (slot 0 size k) empty_packet);
  },
  refl,
)

-- Two places in the ring are different slots.
pub slot-injective :
    (head size j k : ℕ)
    → head < size
    → j < size
    → k < size
    → j ≢ k
    → slot head size j ≢ slot head size k
slot-injective head size j k h a b ne = λ e. ground arith

pub slot-lt : (head size k : ℕ) → head < size → k < size → slot head size k < size
slot-lt head size k h l = ground arith

-- One step on, from the next head.
pub slot-suc :
    (head size k : ℕ)
    → head < size
    → k < size
    → slot (slot head size 1) size k ≡ slot head size (suc k)
slot-suc head size k h l = ground arith

pub advance-slot :
    (q : PacketQueue) (k : ℕ)
    → IsValid q
    → k < q.size
    → advance q (slot q.head q.size k) ≡ slot q.head q.size (suc k)
advance-slot q k v l = ground (arith, v.small, v.head_in, v.positive)
