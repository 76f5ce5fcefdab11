-- ===== src/Pipeline/Store.antt =====
-- `operate_lsq` and `execute_load` of src/ooo_cpu.cc.
use speculative_cache_hierar.Prelude.{
  ℕ, zero, suc, ◌+◌, ◌-◌, ◌*◌, ◌/◌, ◌%◌, ◌^◌, pos, Bool, true, false, Option, some, ltb, leb,
  if◌then◌else◌, ◌>>=◌,
}
use speculative_cache_hierar.AccessType
use speculative_cache_hierar.Packet.{Packet, empty_packet, inflight}
use speculative_cache_hierar.Cache.{fill_l1}
use speculative_cache_hierar.Cache.Requests.{add_rq}
use speculative_cache_hierar.SpecUpdate.{log2_page_size, log2_block_size}
use speculative_cache_hierar.Pipeline.{
  O3Cpu, Setting, Running, Surroundings, now, edit_lq, edit_sq, is_refused, lsq_width,
}
use speculative_cache_hierar.ReadyList.{LsqEntry, lsq_at, pop_ready, first_ready}
use speculative_cache_hierar.Pipeline.Forward.{execute_store}

-- The packet for an entry of one of the two queues, to an address.
abbrev pub data_packet : ℕ → LsqEntry → ℕ → ℕ → Packet
data_packet cpu l address full_addr = record empty_packet {
  fill_level = fill_l1;
  fill_l1d = true;
  cpu = cpu;
  data_index = l.data_index;
  address = address;
  full_addr = full_addr;
  instr_id = l.instr_id;
  rob_index = pos l.rob_index;
  ip = l.ip;
  asid0 = l.asid0;
  asid1 = l.asid1;
  event_cycle = l.event_cycle;
}

-- The page of an entry, with its address space if the traces are of CloudSuite.
abbrev pub tagged_page : Setting → LsqEntry → ℕ
tagged_page g l =
    let page = l.virtual_address / 2 ^ log2_page_size in
    if g.cloudsuite then page * 2 ^ 9 % 2 ^ 64 + l.asid1 else page

unfoldable pub store_packet : Setting → ℕ → ℕ → LsqEntry → Packet
store_packet g cpu i l = record (data_packet cpu l (tagged_page g l) l.virtual_address) {
  tlb_access = true;
  sq_index = i;
  type = AccessType.rfo;
}

unfoldable pub load_packet : Setting → ℕ → ℕ → LsqEntry → Packet
load_packet g cpu i l = record (data_packet cpu l (tagged_page g l) l.virtual_address) {
  lq_index = i;
  type = AccessType.load;
}

unfoldable pub l1d_packet : ℕ → ℕ → LsqEntry → Packet
l1d_packet cpu i l =
    record (data_packet cpu l (l.physical_address / 2 ^ log2_block_size) l.physical_address) {
      lq_index = i;
      type = AccessType.load;
    }

abbrev pub on_core : (O3Cpu → O3Cpu) → {W : Type 0} → Running W → Running W
on_core f r = record r { core = f r.core }

module _ {W : Type 0} (around : Surroundings W) (g : Setting) where
  -- A request to the DTLB, and whether it was refused.
  unfoldable pub request_dtlb : Packet → Running W → Option (Bool × Running W)
  request_dtlb p r = add_rq around.dtlb g.clock p r.core.caches.dtlb r.world >>= λ reply. some (
    is_refused reply.code,
    record {
      core = record r.core { caches = record r.core.caches { dtlb = reply.cache } };
      world = reply.world;
    },
  )

  -- `execute_load`, and whether the L1D refused it.
  unfoldable pub execute_load : ℕ → Running W → Option (Bool × Running W)
  unfolding l1d_packet
  execute_load i r =
      let c = r.core in
      add_rq around.l1d g.clock (l1d_packet c.caches.cpu i (lsq_at c.lq i)) c.caches.l1d r.world
      >>= λ reply.
          (let c' = record c { caches = record c.caches { l1d = reply.cache } } in
            some (
              is_refused reply.code,
              record {
                core =
                    if is_refused reply.code
                    then c'
                    else edit_lq i (λ l. record l { fetched = inflight }) c';
                world = reply.world;
              },
            ))

  -- The four loops of `operate_lsq`: `rounds` are left, and `count` entries may still go. What is not
  -- due stays at the head. The stores of RTS0 go to the DTLB.
  unfoldable pub translate_stores : ℕ → ℕ → Running W → Option (ℕ × Running W)
  unfolding store_packet request_dtlb
  translate_stores zero count r = some (count, r)
  translate_stores (suc rounds) zero r = some (zero, r)
  translate_stores (suc rounds) (suc count) r =
      let c = r.core in
      let i = first_ready c.rts0 in
      elim (ltb i c.rts0.unused) [
        | false ↦ some (suc count, r)
        | true ↦ elim (leb (lsq_at c.sq i).event_cycle (now g c)) [
          | false ↦ translate_stores rounds (suc count) r
          | true ↦ request_dtlb (store_packet g c.caches.cpu i (lsq_at c.sq i)) r >>= λ answer.
              elim answer.0 [
                | true ↦ some (suc count, answer.1)
                | false ↦ translate_stores rounds count (
                    on_core
                      (λ c. record (edit_sq i (λ s. record s { translated = inflight }) c) {
                        rts0 = pop_ready c.rts0;
                      })
                      answer.1)
              ]
        ]
      ]

  -- Those of RTS1 are executed.
  unfoldable pub execute_stores : ℕ → ℕ → O3Cpu → Option O3Cpu
  unfolding execute_store
  execute_stores zero count c = some c
  execute_stores (suc rounds) zero c = some c
  execute_stores (suc rounds) (suc count) c =
      let i = first_ready c.rts1 in
      elim (ltb i c.rts1.unused) [
        | false ↦ some c
        | true ↦ elim (leb (lsq_at c.sq i).event_cycle (now g c)) [
          | false ↦ execute_stores rounds (suc count) c
          | true ↦ execute_store g (lsq_at c.sq i).rob_index i c >>= λ c'.
              execute_stores rounds count (record c' { rts1 = pop_ready c'.rts1 })
        ]
      ]

  -- The loads of RTL0 go to the DTLB.
  unfoldable pub translate_loads : ℕ → ℕ → Running W → Option (ℕ × Running W)
  unfolding load_packet request_dtlb
  translate_loads zero count r = some (count, r)
  translate_loads (suc rounds) zero r = some (zero, r)
  translate_loads (suc rounds) (suc count) r =
      let c = r.core in
      let i = first_ready c.rtl0 in
      elim (ltb i c.rtl0.unused) [
        | false ↦ some (suc count, r)
        | true ↦ elim (leb (lsq_at c.lq i).event_cycle (now g c)) [
          | false ↦ translate_loads rounds (suc count) r
          | true ↦ request_dtlb (load_packet g c.caches.cpu i (lsq_at c.lq i)) r >>= λ answer.
              elim answer.0 [
                | true ↦ some (suc count, answer.1)
                | false ↦ translate_loads rounds count (
                    on_core
                      (λ c. record (edit_lq i (λ l. record l { translated = inflight }) c) {
                        rtl0 = pop_ready c.rtl0;
                      })
                      answer.1)
              ]
        ]
      ]

  -- Those of RTL1 go to the L1D. One that is refused is tried again in the next round.
  unfoldable pub execute_loads : ℕ → ℕ → Running W → Option (Running W)
  unfolding execute_load
  execute_loads zero count r = some r
  execute_loads (suc rounds) zero r = some r
  execute_loads (suc rounds) (suc count) r =
      let c = r.core in
      let i = first_ready c.rtl1 in
      elim (ltb i c.rtl1.unused) [
        | false ↦ some r
        | true ↦ elim (leb (lsq_at c.lq i).event_cycle (now g c)) [
          | false ↦ execute_loads rounds (suc count) r
          | true ↦ execute_load i r >>= λ answer. elim answer.0 [
            | true ↦ execute_loads rounds (suc count) answer.1
            | false ↦
                execute_loads rounds count
                  (on_core (λ c. record c { rtl1 = pop_ready c.rtl1 }) answer.1)
          ]
        ]
      ]

  unfoldable pub operate_lsq : Running W → Option (Running W)
  unfolding translate_stores execute_stores translate_loads execute_loads
  operate_lsq r = do
    stores ← translate_stores (r.core.rts0.size - 1) lsq_width r
    let r = stores.1
    c ← execute_stores (r.core.rts1.size - 1) stores.0 r.core
    loads ← translate_loads (c.rtl0.size - 1) lsq_width (record r { core = c })
    execute_loads (c.rtl1.size - 1) loads.0 loads.1
