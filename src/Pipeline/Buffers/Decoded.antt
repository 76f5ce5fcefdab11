-- ===== src/Pipeline/Buffers/Decoded.antt =====
-- The test of `decode_and_dispatch` of src/ooo_cpu.cc on the time stamp of an instruction.
use speculative_cache_hierar.Prelude.{
  ℕ, suc, ◌≤◌, ◌<◌, ◌≡◌, ◌≢◌, ◌∙◌, ap, subst, ◌⊎◌, inl, inr, false, true, List, ◌∷◌, arith, length,
  get_or-set_ne, Bool-cases,
}
use speculative_cache_hierar.Pipeline.{O3Cpu, Setting}
use speculative_cache_hierar.PacketQueue.Ring.{slot, slot-injective}
use speculative_cache_hierar.ReadyList.{next}
use speculative_cache_hierar.Instr.{Instr, CoreBuffer, empty_instr, instr_at}
use speculative_cache_hierar.Pipeline.Buffers.{is_decoded, moves, drop_head}
use speculative_cache_hierar.Pipeline.Buffers.Order.{Holds}

-- The instruction was decoded in an earlier cycle, or the warm-up, in which this is not asked, goes on.
abbrev pub Decoded : Setting → O3Cpu → Instr → Type 0
Decoded g c e =
    (g.warmup_complete c.caches.cpu ≡ false)
    ⊎ ((e.event_cycle ≢ 0) × (e.event_cycle < g.clock c.caches.cpu))

-- The warm-up is over, and the instruction has not begun to be decoded, or is not through.
abbrev pub Undecoded : Setting → O3Cpu → Instr → Type 0
Undecoded g c e =
    (g.warmup_complete c.caches.cpu ≡ true)
    × ((e.event_cycle ≡ 0) ⊎ (g.clock c.caches.cpu ≤ e.event_cycle))

-- The `k`-th instruction of a buffer, with its time stamp.
abbrev pub nth_instr : CoreBuffer → ℕ → Instr
nth_instr b k = instr_at b (slot b.head b.size k)

-- The instructions behind the head, which is dropped.
pub nth_instr-drop_head :
    (b : CoreBuffer) (d : Instr) (ds : List Instr)
    → Holds b (d ∷ ds)
    → (k : ℕ) → k < length ds
    → nth_instr (drop_head b) k ≡ nth_instr b (suc k)
unfolding drop_head
nth_instr-drop_head b d ds h k l =
    ap (instr_at (drop_head b)) at
    ∙ get_or-set_ne b.entry b.head _ empty_instr empty_instr (λ e.
      slot-injective b.head b.size 0 (suc k) h.ring.head_in h.ring.positive
        (omega (arith, h.ring.bounded)) (omega arith) (ground (arith, h.ring.head_in) ∙ e))
  where
    at : slot (next b.size b.head) b.size k ≡ slot b.head b.size (suc k)
    at = ground (arith, h.ring.small, h.ring.head_in, h.ring.bounded)

module _ (g : Setting) where
  -- What the test on the stamp says.
  is_through : (c : O3Cpu) (e : Instr) → is_decoded g c e ≡ true → Decoded g c e
  is_through c e h = elim (Bool-cases (g.warmup_complete c.caches.cpu)) [
    | inr warming ↦ inl warming
    | inl warm ↦ inr (ground (arith, warm, h))
  ]

  pub not_decoded : (c : O3Cpu) (e : Instr) → is_decoded g c e ≡ false → Undecoded g c e
  not_decoded c e h = (ground arith, ground arith)

  pub moves-Decoded :
      (c : O3Cpu)
      → moves g c ≡ true
      → c.decode_buffer.head < c.decode_buffer.size
      → Decoded g c (nth_instr c.decode_buffer 0)
  moves-Decoded c h l =
      subst (λ i. Decoded g c (instr_at c.decode_buffer i)) (ground arith)
        (is_through c (instr_at c.decode_buffer c.decode_buffer.head) (ground arith))
