-- ===== src/Pipeline/Translation.antt =====
-- `complete_instr_fetch` of src/ooo_cpu.cc.
use speculative_cache_hierar.Prelude.{ℕ, Bool, Option, some, ◌==◌, if◌then◌else◌, ◌>>=◌}
use speculative_cache_hierar.Packet.{completed}
use speculative_cache_hierar.PacketQueue.{PacketQueue, entry_at, remove_queue}
use speculative_cache_hierar.Instr.{Instr, CoreBuffer}
use speculative_cache_hierar.Pipeline.Fetch.{page_of, edit_all, on_page, mark_line}

-- The translation of an address arrived: for the instructions of its page.
unfoldable pub translate_page : ℕ → ℕ → Instr → Instr
translate_page pa ip e =
    if page_of e.ip == page_of ip
    then record e { translated = completed; fetched = 0; instruction_pa = on_page pa e.ip }
    else e

-- `complete_instr_fetch` up to its `return`, on the queue PROCESSED of the ITLB or the L1I.
unfoldable pub complete_instr_fetch :
    PacketQueue → Bool → CoreBuffer → Option (PacketQueue × CoreBuffer)
complete_instr_fetch queue is_it_tlb b =
    let p = entry_at queue queue.head in
    let b' =
      if is_it_tlb
      then edit_all (translate_page p.instruction_pa p.ip) b
      else edit_all (mark_line completed p.ip) b in
    remove_queue queue.head queue >>= λ q. some (q, b')
