-- ===== src/Tests/Writes.antt =====
-- Writebacks into a small cache, and out of it.
use speculative_cache_hierar.Prelude.{◌≡◌, refl, true, some, List, [], ◌∷◌, arith, set, first}
use speculative_cache_hierar.AccessType
use speculative_cache_hierar.Packet.{Packet, completed}
use speculative_cache_hierar.Block.{Block}
use speculative_cache_hierar.PacketQueue
use speculative_cache_hierar.PacketQueue.{PacketQueue, remove_queue}
use speculative_cache_hierar.PacketQueue.Ring.{IsValid}
use speculative_cache_hierar.PacketQueue.Add.{added, added-IsValid}
use speculative_cache_hierar.Cache
use speculative_cache_hierar.Cache.{Cache, fill_l2}
use speculative_cache_hierar.Cache.Index.{get_set, masked, lg2, halvings}
use speculative_cache_hierar.Cache.Lookup.{check_hit, fill_cache, needs_payload, stored}
use speculative_cache_hierar.Cache.Replacement.{lru_victim, find_victim}
use speculative_cache_hierar.Cache.Commit.{choose_victim}
use speculative_cache_hierar.Cache.Machine.{Run}
use speculative_cache_hierar.Cache.Fill.Eviction.{KeepsDirty, fill_normal-KeepsDirty}
use speculative_cache_hierar.Cache.Writeback.{handle_writeback}
use speculative_cache_hierar.Cache.Writeback.Hits.{IsHit, Marks, handle_writeback-Marks}
use speculative_cache_hierar.Tests.{
  clock, request, no_requests, no_requests-IsValid, speculative_block, small_cache, outside,
}
use speculative_cache_hierar.Tests.Handlers.{quiet}

-- Block 3, clean and used last, and block 5, dirty, are in set 1.
abbrev dirty_block : Block
dirty_block = record speculative_block { tag = 5; address = 5; dirty = true; payload = 8; lru = 1 }

abbrev incoming : Packet
incoming = record (request 3) { type = AccessType.writeback; fill_level = fill_l2 }

abbrev held_cache : Cache
held_cache = record small_cache {
  block = set small_cache.block 1 (speculative_block ∷ dirty_block ∷ []);
  wq = added no_requests incoming;
  mshr =
      added (PacketQueue.new "L2C_MSHR" 4)
        (record (request 7) { returned = completed; fill_level = fill_l2 });
  fill_level = fill_l2;
  has_lower_level = true;
}

held_cache-IsValid : IsValid held_cache.wq
unfolding PacketQueue.new
held_cache-IsValid = added-IsValid no_requests incoming no_requests-IsValid (omega arith)

held_cache-IsHit : IsHit clock held_cache 0
unfolding Cache.new PacketQueue.new check_hit first get_set masked lg2 halvings
held_cache-IsHit = record {
  queued = held_cache-IsValid;
  not_last = refl;
  due = refl;
  of_core = omega arith;
  kind = refl;
  nature = refl;
  level = refl;
  hit = refl;
}

handle_writeback-Marks_example :
    (c' : Cache) × (handle_writeback outside quiet clock (record { cache = held_cache; world = [] })
      ≡ some (record { cache = c'; world = [] }))
    × Marks clock held_cache 0 held_cache-IsHit c'
handle_writeback-Marks_example =
    handle_writeback-Marks clock held_cache 0 held_cache-IsHit outside quiet []

-- The data of block 7 is back, and block 5 has to leave.
abbrev full_run : Run (List Packet)
full_run = record { cache = held_cache; world = [] }

fill_normal-KeepsDirty_example : KeepsDirty outside quiet clock 0 1 full_run []
unfolding Cache.new PacketQueue.new fill_cache needs_payload stored get_set masked lg2 halvings
    first choose_victim find_victim lru_victim
fill_normal-KeepsDirty_example =
    fill_normal-KeepsDirty outside quiet clock 0 1 full_run [] refl refl refl
