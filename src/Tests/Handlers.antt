-- ===== src/Tests/Handlers.antt =====
-- The handlers of a cache on small caches.
use speculative_cache_hierar.Prelude.{
  ℕ, zero, suc, ◌≡◌, refl, ap, get_or-replicate, true, none, some, List, [], ◌∷◌, arith, set, first,
}
use speculative_cache_hierar.Packet.{Packet, empty_packet, completed, speculative}
use speculative_cache_hierar.PacketQueue
use speculative_cache_hierar.PacketQueue.{PacketQueue, remove_queue}
use speculative_cache_hierar.PacketQueue.Add.{added}
use speculative_cache_hierar.Cache
use speculative_cache_hierar.Cache.{Cache, l1d}
use speculative_cache_hierar.Cache.Index.{get_set, masked, lg2, halvings}
use speculative_cache_hierar.Cache.Lookup.{check_hit, fill_cache, needs_payload, stored}
use speculative_cache_hierar.Cache.Replacement.{timestamp_victim}
use speculative_cache_hierar.Cache.Requests.{return_up}
use speculative_cache_hierar.Cache.Machine.Steps.{
  allocate, pass_on, deliver, remove_entry, report, report_up,
}
use speculative_cache_hierar.Cache.Mshr.{add_mshr, check_mshr, update_fill_cycle, earliest}
use speculative_cache_hierar.Cache.Machine.{Run, Hooks}
use speculative_cache_hierar.Cache.Fill.{handle_fill}
use speculative_cache_hierar.Cache.Fill.Isolation.{Isolates, handle_fill_speculative}
use speculative_cache_hierar.Cache.Fill.Parking.{IsDueSpeculative, WaitsIn, handle_fill-parks}
use speculative_cache_hierar.Cache.Read.{serve_read, read_miss_step}
use speculative_cache_hierar.Cache.Read.Misses.{Tracks, read_miss_step-Tracks}
use speculative_cache_hierar.Cache.Mshr.Distinct.{IsDistinct}
use speculative_cache_hierar.Cache.Read.Isolation.{serve_read-hooks}
use speculative_cache_hierar.Cache.Read.Merging.{MergesLoad, merge_miss-MergesLoad}
use speculative_cache_hierar.Tests.{
  clock, request, one_request, speculative_block, speculative_cache, small_cache, outside,
}

-- Prefetchers that do nothing, and some that always fail an assertion.
abbrev pub quiet : Hooks (List Packet)
quiet = record {
  l1i_cache_fill = λ cpu a s w pf old r. some r;
  l1d_cache_fill = λ a s w pf old m r. some r;
  l2c_cache_fill = λ a s w pf old m r. some (m, r);
  llc_cache_fill = λ a s w pf old m r. some (m, r);
  l1i_operate = λ cpu a hit pf r. some r;
  l1d_operate = λ a ip hit type r. some r;
  l2c_operate = λ a ip hit type m r. some (m, r);
  llc_operate = λ a ip hit type m r. some (m, r);
  llc_update = λ cpu s w a ip old type hit r. some r;
  va_to_pa = λ cpu id va page r. some (page, r);
  warmup_complete = λ cpu. true;
}

abbrev failing : Hooks (List Packet)
failing = record quiet {
  l2c_operate = λ a ip hit type m r. none;
  l2c_cache_fill = λ a s w pf old m r. none;
}

-- A speculative read of block 3, which the speculative hierarchy holds.
abbrev speculative_request : Packet
speculative_request = record (request 3) { is_speculative = speculative; returned = completed }

abbrev reading_cache : Cache
reading_cache = record speculative_cache { rq = added one_request speculative_request }

serve_read-hooks_example :
    serve_read outside quiet clock 1 (record { cache = reading_cache; world = [] })
    ≡ serve_read outside failing clock 1 (record { cache = reading_cache; world = [] })
unfolding Cache.new PacketQueue.new check_hit first get_set masked lg2 halvings
serve_read-hooks_example =
    serve_read-hooks outside quiet failing clock 1 (record { cache = reading_cache; world = [] })
      refl refl refl

-- The data of block 5 has come back for a speculative request, and each way of its set is taken.
abbrev due_request : Packet
due_request = record (request 5) { is_speculative = speculative; returned = completed }

abbrev due_mshr : PacketQueue
due_mshr = record (added (PacketQueue.new "L2C_MSHR" 4) due_request) {
  next_fill_index = 0;
  next_fill_cycle = 90;
}

abbrev filling_cache : Cache
filling_cache = record speculative_cache { mshr = due_mshr }

abbrev full_cache : Cache
full_cache = record filling_cache {
  spec_block = set speculative_cache.spec_block 1 (speculative_block ∷ speculative_block ∷ []);
}

full_cache-IsDueSpeculative : IsDueSpeculative clock full_cache
unfolding Cache.new PacketQueue.new
full_cache-IsDueSpeculative = record {
  allocated = refl;
  sized = refl;
  chosen = omega arith;
  busy = omega arith;
  of_core = omega arith;
  nature = refl;
  due = omega arith;
  somewhere = omega arith;
  alone = elim [
    | zero ↦ λ l ne. absurd (ne refl)
    | suc zero ↦ λ l ne. omega arith
    | suc (suc zero) ↦ λ l ne. omega arith
    | suc (suc (suc zero)) ↦ λ l ne. omega arith
    | suc (suc (suc (suc j))) ↦ λ l. absurd (omega arith)
  ];
}

handle_fill-parks_example :
    (j : ℕ) × (c' : Cache) × (handle_fill outside quiet clock
        (record { cache = full_cache; world = [] })
      ≡ some (record { cache = c'; world = [] }))
    × WaitsIn clock full_cache full_cache-IsDueSpeculative j c'
unfolding Cache.new PacketQueue.new get_set masked lg2 halvings
handle_fill-parks_example =
    handle_fill-parks clock full_cache full_cache-IsDueSpeculative outside quiet [] (omega arith)
      (elim [
        | zero ↦ λ l. (refl, omega arith)
        | suc zero ↦ λ l. (refl, omega arith)
        | suc (suc v) ↦ λ l. absurd (omega arith)
      ])

-- A load of block 5 meets the miss.
abbrev merging : Packet
merging = record (request 5) { lq_index = 9 }

merge_miss-MergesLoad_example : MergesLoad merging due_request
merge_miss-MergesLoad_example =
    merge_miss-MergesLoad merging due_request (omega arith) refl (omega arith) (tt, omega arith)
      (tt, omega arith)

-- With a way to spare the block is stored; this is the run of `handle_fill`.
abbrev stored_cache : Cache
stored_cache =
    elim (handle_fill outside quiet clock (record { cache = filling_cache; world = [] })) [
      | none ↦ filling_cache
      | some r ↦ r.cache
    ]

handle_fill_speculative_example : Isolates filling_cache stored_cache
unfolding Cache.new PacketQueue.new handle_fill fill_cache needs_payload stored timestamp_victim
    earliest update_fill_cycle get_set masked lg2 halvings first remove_entry remove_queue report
    report_up return_up
handle_fill_speculative_example =
    handle_fill_speculative outside quiet clock (record { cache = filling_cache; world = [] })
      (record { cache = stored_cache; world = [] }) refl refl

-- A read of block 3 misses; nothing is outstanding yet.
abbrev missing_run : Run (List Packet)
missing_run = record {
  cache = record small_cache { rq = one_request; has_lower_level = true };
  world = [];
}

missing-IsDistinct : IsDistinct missing_run.cache
unfolding Cache.new PacketQueue.new
missing-IsDistinct = record {
  allocated = refl;
  distinct = λ j k lj lk ne some_block same.
      some_block (ap (λ (p : Packet). p.address) (get_or-replicate 4 j empty_packet));
}

abbrev passed_run : Run (List Packet)
passed_run = elim (read_miss_step outside quiet clock 0 missing_run) [
  | none ↦ missing_run
  | some o ↦ o.1
]

read_miss_step-Tracks_example : Tracks outside quiet clock 0 missing_run true passed_run
unfolding Cache.new PacketQueue.new read_miss_step allocate pass_on deliver add_mshr check_mshr
    first
read_miss_step-Tracks_example =
    read_miss_step-Tracks outside quiet clock 0 missing_run missing-IsDistinct (omega arith) refl
      (λ l. (0, omega arith, refl)) true passed_run refl
