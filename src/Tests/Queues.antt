-- ===== src/Tests/Queues.antt =====
-- The queues of src/block.cc and the ones of a cache, at small inputs.
use speculative_cache_hierar.Prelude.{refl, true, [], ◌∷◌, arith}
use speculative_cache_hierar.PacketQueue
use speculative_cache_hierar.Cache
use speculative_cache_hierar.PacketQueue.{add_queue, remove_queue, check_queue, same_request}
use speculative_cache_hierar.PacketQueue.Ring.{slot, new-IsValid}
use speculative_cache_hierar.PacketQueue.Add.{Adds, add_queue-Adds}
use speculative_cache_hierar.PacketQueue.Remove.{Removes, remove_queue-Removes}
use speculative_cache_hierar.PacketQueue.Check.{Searches, check_queue-Searches}
use speculative_cache_hierar.Cache.{Cache}
use speculative_cache_hierar.Cache.Requests.Reads.{Reads, add_rq_lem}
use speculative_cache_hierar.Cache.Requests.Forwards.{Forwards, add_rq_forward}
use speculative_cache_hierar.Cache.Writes.Adds.{Messages, add_cq_lem}
use speculative_cache_hierar.SpecUpdate.{ArchInstr}
use speculative_cache_hierar.SpecUpdate.Sends.{Sends, send_lem}
use speculative_cache_hierar.Tests.{
  clock, request, one_request, one_request-IsValid, small_cache, writing_cache, outside,
}

add_queue-Adds_example : Adds one_request (request 5) (add_queue (request 5) one_request)
add_queue-Adds_example = add_queue-Adds one_request (request 5) one_request-IsValid

remove_queue-Removes_example : Removes one_request (remove_queue one_request.head one_request)
remove_queue-Removes_example = remove_queue-Removes one_request one_request-IsValid

check_queue-Searches_example :
    Searches one_request (request 3) 1 (slot 0 4) (check_queue one_request (request 3))
unfolding PacketQueue.new
check_queue-Searches_example = check_queue-Searches one_request (request 3) one_request-IsValid

add_rq_lem_example : Reads outside clock (request 3) small_cache []
unfolding Cache.new PacketQueue.new
add_rq_lem_example =
    add_rq_lem outside clock (request 3) small_cache []
      (new-IsValid "L2C_WQ" 4 (omega arith) (omega arith)).0
      (new-IsValid "L2C_RQ" 4 (omega arith) (omega arith)).0 refl (omega arith)
      (λ k l. absurd (omega arith))

add_cq_lem_example : Messages clock (request 3) small_cache
unfolding Cache.new PacketQueue.new
add_cq_lem_example =
    add_cq_lem clock (request 3) small_cache (new-IsValid "L2C_WQ" 4 (omega arith) (omega arith)).0
      refl (omega arith)

-- A load of the instruction 5.
abbrev a_load : ArchInstr
a_load = record {
  instr_id = 5;
  ip = 4096;
  instruction_pa = 8192;
  source_virtual_address = 192 ∷ [];
  destination_virtual_address = [];
  source_physical_address = 192 ∷ [];
  destination_physical_address = [];
}

send_lem_example : Sends clock 0 a_load true 6 192 small_cache
unfolding Cache.new PacketQueue.new
send_lem_example =
    send_lem clock 0 a_load true 6 192 small_cache
      (new-IsValid "L2C_WQ" 4 (omega arith) (omega arith)).0 refl (omega arith)

-- A read of block 3 meets the queued writeback; nothing waits above.
add_rq_forward_example : Forwards outside clock (request 3) writing_cache [] 0
unfolding Cache.new PacketQueue.new same_request
add_rq_forward_example =
    add_rq_forward outside clock (request 3) writing_cache [] one_request-IsValid
      (new-IsValid "L2C_PROCESSED" 352 (omega arith) (omega arith)).0 refl 0
      (0, omega arith, refl, refl, λ j l. absurd (omega arith))
