-- ===== src/Pipeline/Buffers.antt =====
-- `add_to_rob`, `add_to_decode_buffer`, `check_rob` and `decode_and_dispatch` of
-- src/ooo_cpu.cc.
pub mod Decode
pub mod Decoded
pub mod Order
pub mod Dispatch
use speculative_cache_hierar.Prelude.{
  ℕ, zero, suc, ◌+◌, ◌-◌, Bool, true, false, not, ◌&&◌, ◌||◌, Option, none, some, List, [], ◌∷◌,
  ltb, leb, ◌==◌, if◌then◌else◌, set, check, ◌>>=◌, ◌>>◌, inc_u32, dec_u32, add_u64,
}
use speculative_cache_hierar.Pipeline.{O3Cpu, Setting, now, edit_rob, window, width}
use speculative_cache_hierar.Instr.{Instr, empty_instr, CoreBuffer, instr_at, edit_instr}
use speculative_cache_hierar.ReadyList.{next}

-- An instruction is put at the tail, where the entry must be unused.
unfoldable pub add_to_buffer : ℕ → Instr → CoreBuffer → Option CoreBuffer
add_to_buffer cycle arch_instr b =
    check ((instr_at b b.tail).instr_id == 0)
    >> some (record b {
      entry = set b.entry b.tail (record arch_instr { event_cycle = cycle });
      occupancy = inc_u32 b.occupancy;
      tail = next b.size b.tail;
    })

-- The entry at the head is reset.
unfoldable pub drop_head : CoreBuffer → CoreBuffer
drop_head b = record b {
  entry = set b.entry b.head empty_instr;
  head = next b.size b.head;
  occupancy = dec_u32 b.occupancy;
}

-- The first index of the list at which an instruction has the number.
find_instr : ℕ → CoreBuffer → List ℕ → Option ℕ
find_instr instr_id b [] = none
find_instr instr_id b (i ∷ is) =
    let rest = find_instr instr_id b is in
    if (instr_at b i).instr_id == instr_id then some i else rest

-- `check_rob`: the number must be that of an instruction in a reorder buffer that is not empty.
pub check_rob : ℕ → CoreBuffer → Option ℕ
unfolding find_instr
check_rob instr_id b =
    if b.head == b.tail && b.occupancy == 0
    then some b.size
    else find_instr instr_id b (window b.head b.tail b.size)

module _ (g : Setting) where
  -- It also returns the index, the tail before.
  unfoldable pub add_to_rob : Instr → O3Cpu → Option O3Cpu
  unfolding add_to_buffer
  add_to_rob arch_instr c = do
    rob ← add_to_buffer (now g c) arch_instr c.rob
    check (not ((instr_at rob c.rob.tail).ip == 0))
    some (record c { rob = rob })

  unfoldable pub add_to_decode_buffer : Instr → O3Cpu → Option O3Cpu
  unfolding add_to_buffer
  add_to_decode_buffer arch_instr c = add_to_buffer (now g c) arch_instr c.decode_buffer >>= λ b.
      some (record c { decode_buffer = b })

  -- An instruction at the head of the decode buffer may go on: it was decoded in an earlier cycle.
  abbrev pub is_decoded : O3Cpu → Instr → Bool
  is_decoded c e =
      not (g.warmup_complete c.caches.cpu)
      || not (e.event_cycle == 0) && ltb e.event_cycle (now g c)

  -- It does so, if the reorder buffer has room.
  abbrev pub moves : O3Cpu → Bool
  moves c =
      let e = instr_at c.decode_buffer c.decode_buffer.head in
      not (e.ip == 0) && is_decoded c e && ltb c.rob.occupancy c.rob.size

  -- The first loop of `decode_and_dispatch`: `rounds` are left, and `count` instructions may still go.
  pub dispatch : ℕ → ℕ → O3Cpu → Option O3Cpu
  dispatch zero count c = some c
  dispatch (suc rounds) zero c = some c
  dispatch (suc rounds) (suc count) c = elim (moves c) [
    | true ↦ add_to_rob (instr_at c.decode_buffer c.decode_buffer.head) c >>= λ c'.
        dispatch rounds count (record c' {
          rob = edit_instr c.rob.tail (λ e. record e { event_cycle = now g c }) c'.rob;
          decode_buffer = drop_head c'.decode_buffer;
        })
    | false ↦ some c
  ]

  -- The latency is added to what has just come.
  unfoldable pub stamp_fresh : ℕ → O3Cpu → O3Cpu
  stamp_fresh i c =
      if (instr_at c.decode_buffer i).event_cycle == 0
      then record c {
        decode_buffer =
            edit_instr i (λ e. record e { event_cycle = add_u64 (now g c) g.decode_latency })
              c.decode_buffer;
      }
      else c

  -- The second loop, for at most `count` such instructions.
  unfoldable pub decode : ℕ → ℕ → ℕ → O3Cpu → O3Cpu
  unfolding stamp_fresh
  decode zero count i c = c
  decode (suc rounds) count i c =
      let left = if (instr_at c.decode_buffer i).event_cycle == 0 then count - 1 else count in
      elim ((instr_at c.decode_buffer c.decode_buffer.head).ip == 0) [
        | true ↦ c
        | false ↦ elim (i == c.decode_buffer.tail || left == 0) [
          | true ↦ stamp_fresh i c
          | false ↦ decode rounds left (next c.decode_buffer.size i) (stamp_fresh i c)
        ]
      ]

  unfoldable pub decode_and_dispatch : O3Cpu → Option O3Cpu
  unfolding dispatch decode
  decode_and_dispatch c = dispatch c.decode_buffer.size width c >>= λ c'.
      some (decode c'.decode_buffer.size width c'.decode_buffer.head c')
