-- ===== src/Pipeline/Buffers/Decode.antt =====
-- The second loop of `decode_and_dispatch` of src/ooo_cpu.cc, on the instructions of the decode buffer.
use speculative_cache_hierar.Prelude.{
  ℕ, zero, suc, ◌≡◌, ◌∙◌, refl, ap, inl, inr, List, Bool-cases, ◌==◌, if◌then◌else◌, ◌||◌, ◌-◌,
  add_u64,
}
use speculative_cache_hierar.Pipeline.{O3Cpu, Setting, now}
use speculative_cache_hierar.Instr.{Instr, instr_at}
use speculative_cache_hierar.ReadyList.{next}
use speculative_cache_hierar.Pipeline.Buffers.{stamp_fresh, decode}
use speculative_cache_hierar.Pipeline.Buffers.Order.{Holds, restamp-Holds}

-- The second loop writes time stamps of the decode buffer, and nothing else.
abbrev pub Keeps : List Instr → O3Cpu → O3Cpu → Type 0
Keeps ds c c' =
    Holds c'.decode_buffer ds
    × (c' ≡ record c { decode_buffer = c'.decode_buffer })
    × (c'.decode_buffer.size ≡ c.decode_buffer.size)

module _ (g : Setting) where
  stamp_fresh-Keeps :
      (i : ℕ) (c : O3Cpu) (ds : List Instr)
      → Holds c.decode_buffer ds
      → Keeps ds c (stamp_fresh g i c)
  unfolding stamp_fresh
  stamp_fresh-Keeps i c ds h = elim (Bool-cases ((instr_at c.decode_buffer i).event_cycle == 0)) [
    | inl e ↦
        rw e (restamp-Holds c.decode_buffer ds h i (add_u64 (now g c) g.decode_latency), refl, refl)
    | inr e ↦ rw e (h, refl, refl)
  ]

  pub decode-Keeps :
      (rounds count i : ℕ) (c : O3Cpu) (ds : List Instr)
      → Holds c.decode_buffer ds
      → Keeps ds c (decode g rounds count i c)
  unfolding decode
  decode-Keeps zero count i c ds h = (h, refl, refl)
  decode-Keeps (suc rounds) count i c ds h =
      let left = if (instr_at c.decode_buffer i).event_cycle == 0 then count - 1 else count in
      let stamped = stamp_fresh-Keeps i c ds h in
      elim (Bool-cases ((instr_at c.decode_buffer c.decode_buffer.head).ip == 0)) [
        | inl e ↦ rw (e, decode) (h, refl, refl)
        | inr e ↦ elim (Bool-cases (i == c.decode_buffer.tail || left == 0)) [
          | inl last ↦ rw (e, last, decode) stamped
          | inr more ↦
              let rest =
                decode-Keeps rounds left (next c.decode_buffer.size i) (stamp_fresh g i c) ds
                  stamped.0 in
              rw (e, more, decode)
                (
                  rest.0,
                  rest.1
                      ∙ ap
                          (λ (x : O3Cpu). record x {
                            decode_buffer =
                                (decode g rounds left (next c.decode_buffer.size i)
                                  (stamp_fresh g i c)).decode_buffer;
                          })
                          stamped.1,
                  rest.2 ∙ stamped.2,
                )
        ]
      ]
