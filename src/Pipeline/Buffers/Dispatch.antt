-- ===== src/Pipeline/Buffers/Dispatch.antt =====
-- `decode_and_dispatch` of src/ooo_cpu.cc, on the instructions that the two buffers hold.
use mathlib.Core.List.{append_assoc, append-nil}
use speculative_cache_hierar.Prelude.{
  ℕ, zero, suc, ◌≤◌, ◌<◌, ◌≡◌, ◌≢◌, ◌∙◌, refl, sym, ap, subst, ◌⊎◌, inl, inr, false, true, not,
  ◌&&◌, some, List, [], ◌∷◌, ◌++◌, arith, length, take, drop, Bool-cases, ◌==◌, ltb,
}
use speculative_cache_hierar.Pipeline.{O3Cpu, Setting, now, width}
use speculative_cache_hierar.SpecUpdate.{Core}
use speculative_cache_hierar.Instr.{Instr, CoreBuffer, instr_at, edit_instr}
use speculative_cache_hierar.Pipeline.Buffers.{
  add_to_rob, dispatch, decode, decode_and_dispatch, is_decoded, moves, drop_head,
}
use speculative_cache_hierar.Pipeline.Buffers.Order.{
  undated, IsReal, Holds, restamp-Holds, added, added-Holds, add_to_buffer-added, Holds-head,
  Holds-nil, drop_head-Holds,
}
use speculative_cache_hierar.Pipeline.Buffers.Decode.{Keeps, decode-Keeps}
use speculative_cache_hierar.Pipeline.Buffers.Decoded.{
  Decoded, Undecoded, nth_instr, not_decoded, moves-Decoded, nth_instr-drop_head,
}

-- The first `moved` instructions, all of them decoded, went to the reorder buffer, in order, and nothing else changed. Fewer
-- than `count` went only if there were no more, the next was not decoded, or the buffer is full.
pub record Dispatches (g : Setting) (ds rs : List Instr) (count : ℕ) (c c' : O3Cpu) : Type 0 where
  pub moved : ℕ
  pub at_most : moved ≤ count
  pub present : moved ≤ length ds
  pub decoded : (k : ℕ) → k < moved → Decoded g c (nth_instr c.decode_buffer k)
  pub remaining : Holds c'.decode_buffer (drop moved ds)
  pub arrived : Holds c'.rob (rs ++ take moved ds)
  pub same : c' ≡ record c { rob = c'.rob; decode_buffer = c'.decode_buffer }
  pub sizes : (c'.rob.size ≡ c.rob.size) × (c'.decode_buffer.size ≡ c.decode_buffer.size)
  pub stopped :
      (moved ≡ count)
      ⊎ (moved ≡ length ds)
      ⊎ Undecoded g c' (instr_at c'.decode_buffer c'.decode_buffer.head)
      ⊎ (c'.rob.occupancy ≡ c'.rob.size)

module _ (g : Setting) where
  -- A reorder buffer with room takes a real instruction.
  pub add_to_rob-Holds :
      (e : Instr) (c : O3Cpu) (rs : List Instr)
      → Holds c.rob rs
      → IsReal e
      → length rs < c.rob.size
      → (c' : O3Cpu) × (add_to_rob g e c ≡ some c')
        × (c' ≡ record c { rob = c'.rob })
        × (c'.rob.size ≡ c.rob.size)
        × Holds c'.rob (rs ++ undated e ∷ [])
  unfolding add_to_rob
  add_to_rob-Holds e c rs h real room =
      let (taken, at_tail) = add_to_buffer-added c.rob rs h (now g c) e real room in
      (
        record c { rob = added (now g c) e c.rob },
        rw taken (rw has_ip refl),
        refl,
        refl,
        added-Holds c.rob rs h (now g c) e real room,
      )
    where
      has_ip : not ((instr_at (added (now g c) e c.rob) c.rob.tail).ip == 0) ≡ true
      has_ip =
          ap (λ (e : Instr). not (e.ip == 0))
            (add_to_buffer-added c.rob rs h (now g c) e real room).1
          ∙ ground (arith, real.1)

  -- A round that moves the head `d`, and the rounds after it.
  cons-Dispatches :
      (d : Instr) (ds rs : List Instr) (count : ℕ) (c c₁ c' : O3Cpu)
      → c₁ ≡ record c { rob = c₁.rob; decode_buffer = c₁.decode_buffer }
      → c₁.rob.size ≡ c.rob.size
      → c₁.decode_buffer.size ≡ c.decode_buffer.size
      → Decoded g c (nth_instr c.decode_buffer 0)
      → ((k : ℕ) → k < length ds → nth_instr c₁.decode_buffer k ≡ nth_instr c.decode_buffer (suc k))
      → Dispatches g ds (rs ++ d ∷ []) count c₁ c'
      → Dispatches g (d ∷ ds) rs (suc count) c c'
  cons-Dispatches d ds rs count c c₁ c' same rob_size decode_size first shift r = record {
    moved = suc r.moved;
    at_most = omega (arith, r.at_most);
    present = omega (arith, r.present);
    decoded = λ k l.
        elim k as (λ k. k < suc r.moved → Decoded g c (nth_instr c.decode_buffer k)) [
          | zero ↦ λ _. first
          | suc k ↦ λ l. subst (Decoded g c) (shift k (omega (arith, r.present))) (
              subst
                (λ (caches : Core).
                  Decoded g (record c { caches = caches }) (nth_instr c₁.decode_buffer k))
                (ap (λ (x : O3Cpu). x.caches) same) (r.decoded k (omega arith)))
        ]
          l;
    remaining = r.remaining;
    arrived = subst (Holds c'.rob) (append_assoc rs (d ∷ []) (take r.moved ds)) r.arrived;
    same =
        r.same
        ∙ ap (λ (x : O3Cpu). record x { rob = c'.rob; decode_buffer = c'.decode_buffer }) same;
    sizes = (r.sizes.0 ∙ rob_size, r.sizes.1 ∙ decode_size);
    stopped = elim r.stopped [
      | inl e ↦ inl (ap suc e)
      | inr (inl e) ↦ inr (inl (ap suc e))
      | inr (inr e) ↦ inr (inr e)
    ];
  }

  idle-Dispatches :
      (ds rs : List Instr) (count : ℕ) (c : O3Cpu)
      → Holds c.decode_buffer ds
      → Holds c.rob rs
      → (0 ≡ count)
        ⊎ (0 ≡ length ds)
        ⊎ Undecoded g c (instr_at c.decode_buffer c.decode_buffer.head)
        ⊎ (c.rob.occupancy ≡ c.rob.size)
      → Dispatches g ds rs count c c
  idle-Dispatches ds rs count c hd hr stopped = record {
    moved = 0;
    at_most = omega arith;
    present = omega arith;
    decoded = λ k l. absurd (omega arith);
    remaining = hd;
    arrived = rw (append-nil rs) hr;
    same = refl;
    sizes = (refl, refl);
    stopped = stopped;
  }

  -- Why a round with an instruction at the head does not move it.
  why :
      (c : O3Cpu) (d : Instr) (ds rs : List Instr)
      → Holds c.decode_buffer (d ∷ ds)
      → Holds c.rob rs
      → moves g c ≡ false
      → Undecoded g c (instr_at c.decode_buffer c.decode_buffer.head)
        ⊎ (c.rob.occupancy ≡ c.rob.size)
  why c d ds rs hd hr stop =
      elim (Bool-cases (is_decoded g c (instr_at c.decode_buffer c.decode_buffer.head))) [
        | inr not_yet ↦
            inl (not_decoded g c (instr_at c.decode_buffer c.decode_buffer.head) not_yet)
        | inl done ↦ inr (full (rw done at stop))
      ]
    where
      has_ip : (instr_at c.decode_buffer c.decode_buffer.head).ip ≢ 0
      has_ip z =
          hd.real.0.1 (sym (ap (λ (e : Instr). e.ip) (Holds-head c.decode_buffer d ds hd)) ∙ z)

      full :
          (not ((instr_at c.decode_buffer c.decode_buffer.head).ip == 0)
              && true
              && ltb c.rob.occupancy c.rob.size)
            ≡ false
          → c.rob.occupancy ≡ c.rob.size
      full h = ground (arith, has_ip, hr.count, hr.ring.bounded)

  -- What the test says when it passes.
  head-IsReal :
      (c : O3Cpu) (d : Instr) (ds : List Instr)
      → Holds c.decode_buffer (d ∷ ds)
      → IsReal (instr_at c.decode_buffer c.decode_buffer.head)
  head-IsReal c d ds hd = subst IsReal (sym (Holds-head c.decode_buffer d ds hd)) hd.real.0

  moves_room : (c : O3Cpu) → moves g c ≡ true → c.rob.occupancy < c.rob.size
  moves_room c h = ground arith

  pub dispatch-Dispatches :
      (rounds count : ℕ) (c : O3Cpu) (ds rs : List Instr)
      → count ≤ rounds
      → Holds c.decode_buffer ds
      → Holds c.rob rs
      → (c' : O3Cpu) × (dispatch g rounds count c ≡ some c') × Dispatches g ds rs count c c'
  unfolding dispatch drop_head
  dispatch-Dispatches zero count c ds rs l hd hr =
      (c, refl, idle-Dispatches ds rs count c hd hr (inl (omega arith)))
  dispatch-Dispatches (suc rounds) zero c ds rs l hd hr =
      (c, refl, idle-Dispatches ds rs 0 c hd hr (inl refl))
  dispatch-Dispatches (suc rounds) (suc count) c [] rs l hd hr =
      (c, rw (none_left, dispatch) refl, idle-Dispatches [] rs (suc count) c hd hr (inr (inl refl)))
    where
      none_left : moves g c ≡ false
      none_left = ground (arith, ap (λ (e : Instr). e.ip) (Holds-nil c.decode_buffer hd))
  dispatch-Dispatches (suc rounds) (suc count) c (d ∷ ds) rs l hd hr =
      elim (Bool-cases (moves g c)) [
        | inr stop ↦ (
          c,
          rw (stop, dispatch) refl,
          idle-Dispatches (d ∷ ds) rs (suc count) c hd hr (inr (inr (why c d ds rs hd hr stop))),
        )
        | inl go ↦
            let e = instr_at c.decode_buffer c.decode_buffer.head in
            let (c₁, added, same, size, holds) =
              add_to_rob-Holds e c rs hr (head-IsReal c d ds hd)
                (omega (arith, hr.count, moves_room c go)) in
            let c₂ : O3Cpu = record c₁ {
              rob = edit_instr c.rob.tail (λ e. record e { event_cycle = now g c }) c₁.rob;
              decode_buffer = drop_head c₁.decode_buffer;
            } in
            let decode_same : c₁.decode_buffer ≡ c.decode_buffer =
              ap (λ (x : O3Cpu). x.decode_buffer) same in
            let (c', rest, r) =
              dispatch-Dispatches rounds count c₂ ds (rs ++ d ∷ []) (omega arith)
                (drop_head-Holds c₁.decode_buffer d ds
                  (subst (λ b. Holds b (d ∷ ds)) (sym decode_same) hd))
                (restamp-Holds c₁.rob (rs ++ d ∷ [])
                  (subst (λ x. Holds c₁.rob (rs ++ x ∷ [])) (Holds-head c.decode_buffer d ds hd)
                    holds)
                  c.rob.tail (now g c)) in
            (
              c',
              rw (go, dispatch) (rw added rest),
              cons-Dispatches d ds rs count c c₂ c'
                  (ap (λ (x : O3Cpu). record x { rob = c₂.rob; decode_buffer = c₂.decode_buffer })
                    same)
                  size (decode_size c₁ decode_same) (moves-Decoded g c go hd.ring.head_in)
                  (λ k lk.
                    nth_instr-drop_head c₁.decode_buffer d ds
                      (subst (λ b. Holds b (d ∷ ds)) (sym decode_same) hd) k lk
                    ∙ ap (λ b. nth_instr b (suc k)) decode_same)
                  r,
            )
      ]
    where
      decode_size :
          (c₁ : O3Cpu)
          → c₁.decode_buffer ≡ c.decode_buffer
          → (drop_head c₁.decode_buffer).size ≡ c.decode_buffer.size
      decode_size c₁ e = ap (λ (b : CoreBuffer). b.size) e

  -- If the decode buffer, of at least six entries, and the reorder buffer hold real instructions,
  -- `decode_and_dispatch` never stops, and moves the oldest instructions of the one to the end of the
  -- other, in order, and changes nothing else but time stamps. Once the warm-up is over, it moves only
  -- instructions that were decoded in an earlier cycle. It moves six, unless there are no more, the
  -- reorder buffer is full, or the warm-up is over and the next was not decoded in an earlier cycle.
  pub decode_and_dispatch-Dispatches :
      (c : O3Cpu) (ds rs : List Instr)
      → width ≤ c.decode_buffer.size
      → Holds c.decode_buffer ds
      → Holds c.rob rs
      → (c₁ : O3Cpu) × (c' : O3Cpu) × (decode_and_dispatch g c ≡ some c')
        × (r : Dispatches g ds rs width c c₁) × Keeps (drop r.moved ds) c₁ c'
  unfolding decode_and_dispatch
  decode_and_dispatch-Dispatches c ds rs l hd hr =
      let (c₁, e, r) = dispatch-Dispatches c.decode_buffer.size width c ds rs l hd hr in
      (
        c₁,
        decode g c₁.decode_buffer.size width c₁.decode_buffer.head c₁,
        rw e refl,
        r,
        decode-Keeps g c₁.decode_buffer.size width c₁.decode_buffer.head c₁ (drop r.moved ds)
            r.remaining,
      )
