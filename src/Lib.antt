-- ===== src/Lib.antt =====
-- The caches, the memory controller and the out-of-order core of ChampSim, with a speculative hierarchy
-- beside the normal one: a block that a load brings in before its instruction commits is kept in a
-- speculative array, moves to the normal array when the instruction commits, and is dropped when it is
-- squashed.
--
-- The program's parts and the files that model them:
--
--   AccessType      inc/memory_class.h: the kinds of access and of commit message
--   FastSet         inc/set.h: sets of instruction indices (`small` and `large` stand for the two uses
--                   of the union), with the sorted array in FastSet/Small and the bits in FastSet/Words
--   Packet, Block   inc/block.h: PACKET, BLOCK and their constructors
--   PacketQueue     inc/block.h, src/block.cc: PACKET_QUEUE, the ring behind every queue; Ring relates
--                   it to the list of its packets, and Add, Remove and Check one method each to that list
--   Cache           inc/cache.h: CACHE and its constructor
--   Cache/Index         `get_set` of src/cache.cc and `lg2` of src/main.cc
--   Cache/Replacement   replacement/base_replacement.cc, replacement/timestamp_replacement.cc
--   Cache/Lookup        `get_way`, `check_hit`, `invalidate_entry`, `fill_cache` of src/cache.cc
--   Cache/Shape         the two block arrays, and what one write to them changes
--   Cache/Mshr          `check_mshr`, `add_mshr`, `update_fill_cycle`, `return_data`
--   Cache/Requests      `add_rq`, `add_pq`; Reads and Forwards are about reads that a queued writeback does not, or
--                       does, answer
--   Cache/Writes        `add_wq`, `add_cq`, `prefetch_line`, `kpc_prefetch_line` and the queue statistics
--   Cache/Commit        `commit_blocks`
--   Cache/Machine       what the handlers call and repeat; `in_rq` and the like name a queue's entry
--   Cache/Fill          `handle_fill`; Isolation and Parking are about speculative requests, Eviction
--                       about dirty victims
--   Cache/Writeback     `handle_writeback`; Hits is about blocks that are held
--   Cache/Read          `handle_read`; Isolation is about speculative requests, Merging, Passing and Misses
--                       about the miss status holding registers
--   Cache/Prefetch      `handle_prefetch`
--   Cache/Operate       `operate`, the handlers in a cycle
--   Dram            inc/dram_controller.h, src/dram_controller.cc: the memory controller and its addresses
--   Dram/Queues         `add_rq`, `add_wq`, the searches of the queues; Oldest is about those searches
--   Dram/Schedule       `schedule`, `reset_remain_requests`
--   Dram/Process        `process`, `operate`; Modes is about the turns of the bus
--   SpecUpdate      the end of src/ooo_cpu.cc: `update_spec_blocks`, which sends the commit messages
--   Instr           inc/instruction.h, inc/block.h: the instructions in a core, ooo_model_instr, and CORE_BUFFER;
--                       Edits is about assignments to it
--   ReadyList       inc/block.h, inc/ooo_cpu.h: LOAD_STORE_QUEUE, and the Ready-To arrays of a core
--   Pipeline        inc/ooo_cpu.h: the state of a core, O3_CPU
--   Pipeline/Ring       the rings of the core as lists; Older is about its loops towards the head
--   Pipeline/Buffers    `add_to_rob`, `check_rob`, `decode_and_dispatch`; Order relates a buffer to the list of
--                       its instructions; Decoded, Decode and Dispatch are about `decode_and_dispatch`
--   Pipeline/Fetch      `add_to_ifetch_buffer`, `fetch_instruction`
--   Pipeline/CodePrefetch  `prefetch_code_line`
--   Pipeline/Translation   `complete_instr_fetch`
--   Pipeline/Schedule   `schedule_instruction`, `reg_dependency`; Effects and Producers are about one older
--                       instruction, Youngest and Counts about all of them
--   Pipeline/Execute    `execute_instruction`, `complete_execution`, `reg_RAW_release`; Release is about one
--                       consumer
--   Pipeline/Memory     `schedule_memory_instruction`, `do_memory_scheduling`
--   Pipeline/Lsq        `check_and_add_lsq`, `add_load_queue`, `add_store_queue`; Producers is about the
--                       store that a load waits for, Stores about the order of the store queue
--   Pipeline/Forward    `execute_store`
--   Pipeline/Store      `operate_lsq`, `execute_load`
--   Pipeline/Complete   `complete_data_fetch`, `update_rob`
--   Pipeline/Retire     `retire_rob`; Head is about one round, InOrder about all
--   Prelude         what the files share: lists, searching loops, words, bits, failed assertions
--   Tests           small queues, sets and caches at which the theorems are applied
--
-- State is passed explicitly: a method takes the object and returns the new one. A failed assertion is
-- `none`, and so is one of a memory that is called. The other memories are a record `Neighbours` of
-- functions on a state of their own. The prefetchers and the replacement policy of the last level, which
-- the build copies in, and `va_to_pa` of src/main.cc are a record `Hooks`; they may change the cache that
-- calls them. A call of the lower level says with which packets it calls `return_data` back meanwhile.
-- `current_core_cycle` is a function `clock`. An index that the source returns as -1 for "none"
-- is an Option, except for the replies of the `add_…q` functions, which are integers.
--
-- Numbers are natural numbers; increments and decrements of 32-bit and 64-bit members wrap. The fields
-- called `data` in the source are `payload`, and flags are Booleans. An access out of an array's range
-- reads a default and writes nothing; the conditions of the theorems keep the indices in range (the numbers
-- of a set, and the limits of its union and its listing, are within MAX_SIZE, 512).
--
-- Loops are structural over the list or the count that the source goes through. `search_between`,
-- `expand_bits` and `halvings` run on fuel: the number of values, the limit and the number itself are
-- enough, since each round narrows the range, moves on by 64, or halves.
--
-- The memory controller has one channel of one rank, as the build sets it; the queue that a call is given by
-- its address is a `Side`. Its timing, which src/main.cc computes, is a record `Timing`.
--
-- A core calls its first-level caches, which are in its state, with what lies around them as `Surroundings`;
-- the global variables that it reads are a record `Setting`. Loops over a part of a ring go through the list of
-- its indices. The `while` loops of a core run at most as many rounds as the counter `num_iteration` lets them.
--
-- Loops of the handlers run up to `MAX_READ` rounds, as in the source. A speculative fill in a cache with no
-- speculative set reads past an empty array where it reads a block at all; this is `none`.
--
-- Debug output (`DP`), the statistics of the region of interest and the destructors are left out, and so is
-- the code under `LLC_BYPASS`, which no build defines. Not modelled: `read_from_trace`;
-- `operate_cache`, which runs six caches that are connected by pointers; `handle_o3_fetch`, which nothing calls; src/main.cc apart from `lg2`; and the
-- prefetchers, branch predictors and last-level policies that are chosen at build time.
pub mod Prelude
pub mod AccessType
pub mod FastSet
pub mod Packet
pub mod Block
pub mod PacketQueue
pub mod Instr
pub mod ReadyList
pub mod Pipeline
pub mod Cache
pub mod SpecUpdate
pub mod Dram
pub mod Tests
