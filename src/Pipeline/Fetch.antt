-- ===== src/Pipeline/Fetch.antt =====
-- The front of the core in src/ooo_cpu.cc: `add_to_ifetch_buffer` and `fetch_instruction`.
use speculative_cache_hierar.Prelude.{
  ℕ, zero, suc, ◌+◌, ◌*◌, ◌/◌, ◌%◌, ◌^◌, pos, true, false, not, ◌&&◌, Option, some, map, ltb, leb,
  ◌==◌, if◌then◌else◌, when, ◌>>=◌,
}
use speculative_cache_hierar.AccessType
use speculative_cache_hierar.Packet.{Packet, empty_packet, inflight, completed, speculative}
use speculative_cache_hierar.Cache.{fill_l1}
use speculative_cache_hierar.Cache.Requests.{add_rq}
use speculative_cache_hierar.SpecUpdate.{log2_page_size, log2_block_size}
use speculative_cache_hierar.Pipeline.{
  O3Cpu, Setting, Running, Surroundings, now, width, is_refused,
}
use speculative_cache_hierar.Instr.{Instr, CoreBuffer, instr_at, edit_instr}
use speculative_cache_hierar.ReadyList.{next}
use speculative_cache_hierar.Pipeline.Buffers.{add_to_buffer, drop_head, add_to_decode_buffer}

abbrev pub page_of : ℕ → ℕ
page_of a = a / 2 ^ log2_page_size

abbrev pub line_of : ℕ → ℕ
line_of a = a / 2 ^ log2_block_size

-- `(page << LOG2_PAGE_SIZE) | (address & ((1 << LOG2_PAGE_SIZE) - 1))`, of 64 bits.
abbrev pub on_page : ℕ → ℕ → ℕ
on_page page address = page * 2 ^ log2_page_size % 2 ^ 64 + address % 2 ^ log2_page_size

abbrev pub edit_all : (Instr → Instr) → CoreBuffer → CoreBuffer
edit_all f b = record b { entry = map f b.entry }

-- All instructions of the page of `ip` that are not being translated.
unfoldable pub mark_page : ℕ → Instr → Instr
mark_page ip e =
    if page_of e.ip == page_of ip && e.translated == 0
    then record e { translated = inflight; fetched = 0 }
    else e

-- All instructions of the cache line of `ip`.
unfoldable pub mark_line : ℕ → ℕ → Instr → Instr
mark_line state ip e =
    if line_of e.ip == line_of ip then record e { translated = completed; fetched = state } else e

-- The two kinds of request of `fetch_instruction`, at round `i`.
unfoldable pub trace_packet : ℕ → ℕ → ℕ → Instr → Packet
trace_packet cycle cpu i e = record empty_packet {
  instruction = true;
  is_data = false;
  tlb_access = true;
  fill_level = fill_l1;
  fill_l1i = true;
  cpu = cpu;
  address = page_of e.ip;
  full_addr = e.ip;
  instr_id = e.instr_id;
  rob_index = pos i;
  producer = pos 0;
  ip = e.ip;
  type = AccessType.load;
  asid0 = 0;
  asid1 = 0;
  event_cycle = cycle;
}

unfoldable pub fetch_packet : ℕ → ℕ → Instr → Packet
fetch_packet cycle cpu e = record empty_packet {
  is_speculative = speculative;
  instruction = true;
  is_data = false;
  fill_level = fill_l1;
  fill_l1i = true;
  cpu = cpu;
  address = line_of e.instruction_pa;
  instruction_pa = e.instruction_pa;
  full_addr = e.instruction_pa;
  instr_id = e.instr_id;
  rob_index = pos 0;
  producer = pos 0;
  ip = e.ip;
  type = AccessType.load;
  asid0 = 0;
  asid1 = 0;
  event_cycle = cycle;
}

module _ {W : Type 0} (around : Surroundings W) (g : Setting) where
  unfoldable pub add_to_ifetch_buffer : Instr → Running W → Option (Running W)
  unfolding add_to_buffer
  add_to_ifetch_buffer arch_instr r = do
    let c = r.core
    let index = c.ifetch_buffer.tail
    b ← add_to_buffer (now g c) arch_instr c.ifetch_buffer
    let e = instr_at b index
    (pa, r') ← around.va_to_pa c.caches.cpu e.instr_id e.ip (page_of e.ip) (record r {
      core = record c { ifetch_buffer = record c.ifetch_buffer { entry = b.entry } };
    })
    let b' = record r'.core.ifetch_buffer { occupancy = b.occupancy; tail = b.tail }
    some (record r' {
      core = record r'.core {
        ifetch_buffer =
            edit_instr index
              (λ e. record e {
                instruction_pa = on_page (page_of pa) e.ip;
                translated = completed;
                fetched = 0;
              })
              b';
      };
    })

  -- A request for the translation of the instruction at `index`.
  unfoldable pub request_page : ℕ → ℕ → Running W → Option (Running W)
  unfolding mark_page trace_packet
  request_page i index r =
      let c = r.core in
      let e = instr_at c.ifetch_buffer index in
      add_rq around.itlb g.clock (trace_packet (now g c) c.caches.cpu i e) c.caches.itlb r.world
      >>= λ reply. some (record {
        core = record c {
          caches = record c.caches { itlb = reply.cache };
          ifetch_buffer =
              if is_refused reply.code
              then c.ifetch_buffer
              else edit_all (mark_page e.ip) c.ifetch_buffer;
        };
        world = reply.world;
      })

  -- And one for its cache line.
  unfoldable pub request_line : ℕ → Running W → Option (Running W)
  unfolding mark_line fetch_packet
  request_line index r =
      let c = r.core in
      let e = instr_at c.ifetch_buffer index in
      add_rq around.l1i g.clock (fetch_packet (now g c) c.caches.cpu e) c.caches.l1i r.world
      >>= λ reply. some (record {
        core = record c {
          caches = record c.caches { l1i = reply.cache };
          ifetch_buffer =
              if is_refused reply.code
              then c.ifetch_buffer
              else edit_all (mark_line inflight e.ip) c.ifetch_buffer;
        };
        world = reply.world;
      })

  -- The scan of the buffer, from `index` on; `i` rounds are done.
  unfoldable pub request_all : ℕ → ℕ → ℕ → Running W → Option (Running W)
  unfolding request_page request_line
  request_all zero i index r = some r
  request_all (suc rounds) i index r = elim ((instr_at r.core.ifetch_buffer index).ip == 0) [
    | true ↦ some r
    | false ↦
        when ((instr_at r.core.ifetch_buffer index).translated == 0) (request_page i index) r
        >>= λ r.
            (let e = instr_at r.core.ifetch_buffer index in
              when (e.translated == completed && e.fetched == 0) (request_line index) r >>= λ r.
              (let index' = next r.core.ifetch_buffer.size index in
                elim (index' == r.core.ifetch_buffer.head) [
                  | true ↦ some r
                  | false ↦ request_all rounds (i + 1) index' r
                ]))
  ]

  -- "send to DECODE stage". A round that finds the head not fetched does nothing.
  unfoldable pub send_decode : ℕ → O3Cpu → Option O3Cpu
  unfolding add_to_decode_buffer drop_head
  send_decode zero c = some c
  send_decode (suc rounds) c =
      let e = instr_at c.ifetch_buffer c.ifetch_buffer.head in
      elim (e.ip == 0) [
        | true ↦ some c
        | false ↦ elim (e.translated == completed && e.fetched == completed) [
          | true ↦ elim (ltb c.decode_buffer.occupancy c.decode_buffer.size) [
            | true ↦ add_to_decode_buffer g e c >>= λ c'. send_decode rounds (record c' {
              decode_buffer =
                  edit_instr c.decode_buffer.tail (λ e. record e { event_cycle = 0 })
                    c'.decode_buffer;
              ifetch_buffer = drop_head c'.ifetch_buffer;
            })
            | false ↦ some c
          ]
          | false ↦ send_decode rounds c
        ]
      ]

  -- A mispredicted branch no longer stalls the core.
  abbrev pub resume : O3Cpu → O3Cpu
  resume c =
      if c.fetch_stall && leb c.fetch_resume_cycle (now g c) && not (c.fetch_resume_cycle == 0)
      then record c { fetch_stall = false; fetch_resume_cycle = 0 }
      else c

  unfoldable pub fetch_instruction : Running W → Option (Running W)
  unfolding request_all send_decode
  fetch_instruction r =
      let c = resume r.core in
      if c.ifetch_buffer.occupancy == 0
      then some (record r { core = c })
      else request_all c.ifetch_buffer.size 0 c.ifetch_buffer.head (record r { core = c }) >>= λ r.
          (send_decode width r.core >>= λ c. some (record r { core = c }))
