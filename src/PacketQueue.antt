-- ===== src/PacketQueue.antt =====
-- inc/block.h and src/block.cc: `PACKET_QUEUE`, a ring of packets. A method that a failed assertion
-- stops returns `none`.
pub mod Ring
pub mod Add
pub mod Remove
pub mod Check
use speculative_cache_hierar.Prelude.{
  ℕ, zero, suc, ◌+◌, ◌-◌, Bool, true, false, not, ◌&&◌, Option, none, some, List, [], ◌∷◌, ltb, leb,
  ◌==◌, if◌then◌else◌, get_or, set, replicate, inc_u32, dec_u32, uint64_max,
}
use Prim.Native.String.{String}
use text.Mathlib.Text.{◌==◌ as str_eq}
use speculative_cache_hierar.Packet.{Packet, empty_packet}

pub record PacketQueue : Type 0 where
  pub name : String
  pub size : ℕ
  pub is_rq : Bool
  pub is_wq : Bool
  pub write_mode : Bool
  pub cpu : ℕ
  pub head : ℕ
  pub tail : ℕ
  pub occupancy : ℕ
  pub num_returned : ℕ
  pub next_fill_index : ℕ
  pub next_schedule_index : ℕ
  pub next_process_index : ℕ
  pub next_fill_cycle : ℕ
  pub next_schedule_cycle : ℕ
  pub next_process_cycle : ℕ
  pub accesses : ℕ
  pub forwards : ℕ
  pub merges : ℕ
  pub to_cache : ℕ
  pub row_buffer_hits : ℕ
  pub row_buffer_misses : ℕ
  pub fulls : ℕ
  pub entry : List Packet

-- `PACKET_QUEUE(name, size)`.
unfoldable pub new : String → ℕ → PacketQueue
new name size = record {
  name = name;
  size = size;
  is_rq = false;
  is_wq = false;
  write_mode = false;
  cpu = 0;
  head = 0;
  tail = 0;
  occupancy = 0;
  num_returned = 0;
  next_fill_index = 0;
  next_schedule_index = 0;
  next_process_index = 0;
  next_fill_cycle = uint64_max;
  next_schedule_cycle = uint64_max;
  next_process_cycle = uint64_max;
  accesses = 0;
  forwards = 0;
  merges = 0;
  to_cache = 0;
  row_buffer_hits = 0;
  row_buffer_misses = 0;
  fulls = 0;
  entry = replicate size empty_packet;
}

-- `entry[i]`; the invariant of `Fifo` keeps the indices in range.
abbrev pub entry_at : PacketQueue → ℕ → Packet
entry_at q i = get_or q.entry i empty_packet

-- The comparison of `check_queue`: by the full address in a queue called L1D_WQ, else by the block
-- address.
unfoldable pub same_request : PacketQueue → Packet → Packet → Bool
same_request q packet e =
    if str_eq q.name "L1D_WQ" then e.full_addr == packet.full_addr else e.address == packet.address

-- `for (i = from; rounds left; i++) if (same) return i;`
scan : PacketQueue → Packet → ℕ → ℕ → Option ℕ
scan q packet from zero = none
scan q packet from (suc rounds) =
    let rest = scan q packet (from + 1) rounds in
    if same_request q packet (entry_at q from) then some from else rest

abbrev or_else : Option ℕ → Option ℕ → Option ℕ
or_else none b = b
or_else (some a) b = some a

-- The index of a queued request to the same place; `none` is the source's -1.
unfoldable pub check_queue : PacketQueue → Packet → Option ℕ
unfolding scan
check_queue q packet =
    if q.head == q.tail && q.occupancy == 0
    then none
    else if ltb q.head q.tail
    then scan q packet q.head (q.tail - q.head)
    else or_else (scan q packet q.head (q.size - q.head)) (scan q packet 0 q.tail)

-- `tail++`, or `head++`, going round at the end.
abbrev pub advance : PacketQueue → ℕ → ℕ
advance q i = if leb q.size (inc_u32 i) then 0 else inc_u32 i

unfoldable pub add_queue : Packet → PacketQueue → Option PacketQueue
add_queue packet q =
    if not (q.occupancy == 0) && q.head == q.tail
    then none
    else some (record q {
      entry = set q.entry q.tail packet;
      occupancy = inc_u32 q.occupancy;
      tail = advance q q.tail;
    })

-- `remove_queue(&entry[index])`: the entry is reset, and the head moves on whichever entry it is.
unfoldable pub remove_queue : ℕ → PacketQueue → Option PacketQueue
remove_queue index q =
    if q.occupancy == 0 && q.head == q.tail
    then none
    else some (record q {
      entry = set q.entry index empty_packet;
      occupancy = dec_u32 q.occupancy;
      head = advance q q.head;
    })
