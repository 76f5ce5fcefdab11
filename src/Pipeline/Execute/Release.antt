-- ===== src/Pipeline/Execute/Release.antt =====
-- The inner loop of `reg_RAW_release` of src/ooo_cpu.cc: one consumer of an instruction that completed.
use speculative_cache_hierar.Prelude.{
  ℕ, zero, suc, ◌+◌, ◌-◌, ◌<◌, ◌≤◌, ◌≡◌, ◌∙◌, refl, sym, ap, inl, inr, ℤ, pos, dec_ℤ, is_zero_ℤ,
  Bool, true, false, not, Option, some, arith, length, length-set, get_or, set, set-set,
  get_or-set_self, ltb, ◌==◌, if◌then◌else◌, Bool-cases, ◌>>=◌,
}
use speculative_cache_hierar.FastSet
use speculative_cache_hierar.FastSet.{FastSet}
use speculative_cache_hierar.Packet.{inflight, completed}
use speculative_cache_hierar.Pipeline.{O3Cpu, edit_rob}
use speculative_cache_hierar.Instr.{Instr, empty_instr, instr_at, num_instr_sources}
use speculative_cache_hierar.ReadyList.{push_ready}
use speculative_cache_hierar.Instr.Edits.{instr_at-edit_kept, instr_at-edit_self}
use speculative_cache_hierar.Pipeline.Schedule.{push_checked}
use speculative_cache_hierar.Pipeline.Schedule.Effects.{consumers}
use speculative_cache_hierar.Pipeline.Execute.{release_consumer, release_sources}

-- Instruction `i` waits for `n` registers.
abbrev pub waiting_for : ℕ → ℕ → O3Cpu → O3Cpu
waiting_for i n c = edit_rob i (λ e. record e { num_reg_dependent = pos n }) c

-- Instruction `i` has all its registers: it is ready, and goes to RTE0 unless it accesses memory.
abbrev pub wake : ℕ → O3Cpu → O3Cpu
wake i c =
    if (instr_at c.rob i).is_memory
    then edit_rob i (λ e. record e { reg_ready = true; scheduled = inflight }) c
    else record (edit_rob i (λ e. record e { reg_ready = true; scheduled = completed }) c) {
      rte0 = push_ready i c.rte0;
    }

-- Of `n` registers that it waits for, instruction `i` gets `k`.
unfoldable pub released : ℕ → ℕ → ℕ → O3Cpu → O3Cpu
released i zero n c = c
released i (suc k) n c =
    if suc k == n then wake i (waiting_for i 0 c) else waiting_for i (n - suc k) c

-- The sources from `j` on of instruction `i` that wait for `producer`.
unfoldable pub noted : ℕ → ℕ → O3Cpu → ℕ → ℕ → ℕ
noted producer i c j zero = 0
noted producer i c j (suc left) =
    if FastSet.search i (consumers c.rob producer j)
    then suc (noted producer i c (j + 1) left)
    else noted producer i c (j + 1) left

waiting_for-waiting_for :
    (i m n : ℕ) (c : O3Cpu)
    → i < length c.rob.entry
    → waiting_for i m (waiting_for i n c) ≡ waiting_for i m c
waiting_for-waiting_for i m n c l =
    ap (λ es. record c { rob = record c.rob { entry = es } })
      (ap
          (λ (e : Instr).
            set (set c.rob.entry i (record (instr_at c.rob i) { num_reg_dependent = pos n })) i
              (record e { num_reg_dependent = pos m }))
          (get_or-set_self c.rob.entry i _ empty_instr l)
        ∙ set-set c.rob.entry i _ _)

-- There is a free place in RTE0.
abbrev pub IsOpen : O3Cpu → Type 0
IsOpen c = ltb (get_or c.rte0.slots c.rte0.tail c.rte0.unused) c.rte0.unused ≡ false

module _ (producer i : ℕ) where
  noted-kept :
      (c c' : O3Cpu)
      → ((j : ℕ) → consumers c'.rob producer j ≡ consumers c.rob producer j)
      → (j left : ℕ) → noted producer i c' j left ≡ noted producer i c j left
  unfolding noted
  noted-kept c c' h j zero = refl
  noted-kept c c' h j (suc left) = rw (h j) (rw (noted-kept c c' h (j + 1) left) refl)

  idle :
      (j left : ℕ) (c : O3Cpu)
      → noted producer i c j left ≡ 0
      → release_sources producer i j left c ≡ some c
  unfolding release_sources noted
  idle j zero c h = refl
  idle j (suc left) c h = elim (Bool-cases (FastSet.search i (consumers c.rob producer j))) [
    | inl e ↦ absurd (omega (arith, rw (e, noted) at h))
    | inr e ↦ rw (e, release_sources) (idle (j + 1) left c (rw (e, noted) at h))
  ]

  -- What the consumer waits for.
  abbrev waits : O3Cpu → ℤ
  waits c = (instr_at c.rob i).num_reg_dependent

  count_down :
      (n : ℕ) (c : O3Cpu)
      → waits c ≡ pos (suc n)
      → edit_rob i (λ e. record e { num_reg_dependent = dec_ℤ e.num_reg_dependent }) c
        ≡ waiting_for i n c
  count_down n c h =
      ap
        (λ z. record c {
          rob = record c.rob {
            entry = set c.rob.entry i (record (instr_at c.rob i) { num_reg_dependent = dec_ℤ z });
          };
        })
        h

  waits-waiting_for :
      (n : ℕ) (c : O3Cpu) → i < length c.rob.entry → waits (waiting_for i n c) ≡ pos n
  waits-waiting_for n c l =
      ap (λ (e : Instr). e.num_reg_dependent)
        (instr_at-edit_self i (λ e. record e { num_reg_dependent = pos n }) c.rob l)

  -- `release_consumer` once the count is decremented.
  abbrev resume : O3Cpu → O3Cpu → Option O3Cpu
  resume c x =
      if not (is_zero_ℤ (waits x))
      then some x
      else if (instr_at x.rob i).is_memory
      then some (edit_rob i (λ e. record e { reg_ready = true; scheduled = inflight }) x)
      else push_checked i c.rte0 >>= λ r.
          some (record (edit_rob i (λ e. record e { reg_ready = true; scheduled = completed }) x) {
            rte0 = r;
          })

  release_consumer-resume :
      (n : ℕ) (c : O3Cpu)
      → waits c ≡ pos (suc n)
      → release_consumer i c ≡ resume c (waiting_for i n c)
  unfolding release_consumer
  release_consumer-resume n c h = ap (resume c) (count_down n c h)

  release_consumer-waits :
      (n : ℕ) (c : O3Cpu)
      → i < length c.rob.entry
      → waits c ≡ pos (suc (suc n))
      → release_consumer i c ≡ some (waiting_for i (suc n) c)
  release_consumer-waits n c l h =
      release_consumer-resume (suc n) c h ∙ rw (waits-waiting_for (suc n) c l) refl

  release_consumer-wakes :
      (c : O3Cpu)
      → i < length c.rob.entry
      → IsOpen c
      → waits c ≡ pos 1
      → release_consumer i c ≡ some (wake i (waiting_for i 0 c))
  release_consumer-wakes c l room h =
      release_consumer-resume 0 c h
      ∙ rw (waits-waiting_for 0 c l)
          (elim (Bool-cases (instr_at (waiting_for i 0 c).rob i).is_memory) [
            | inl e ↦ rw e refl
            | inr e ↦ rw e (rw room refl)
          ])

  consumers-waiting_for :
      (n : ℕ) (c : O3Cpu) (j : ℕ)
      → consumers (waiting_for i n c).rob producer j ≡ consumers c.rob producer j
  consumers-waiting_for n c j =
      instr_at-edit_kept (λ e. get_or e.registers_index_depend_on_me j FastSet.empty) i
        (λ e. record e { num_reg_dependent = pos n }) c.rob (λ e. refl) producer

  consumers-wake :
      (c : O3Cpu) (j : ℕ) → consumers (wake i c).rob producer j ≡ consumers c.rob producer j
  consumers-wake c j = either (instr_at c.rob i).is_memory
    where
      either :
          (b : Bool)
          → consumers
              (if b
                then edit_rob i (λ e. record e { reg_ready = true; scheduled = inflight }) c
                else record (edit_rob i
                    (λ e. record e { reg_ready = true; scheduled = completed })
                    c) { rte0 = push_ready i c.rte0 }).rob
              producer
              j
            ≡ consumers c.rob producer j
      either true =
          instr_at-edit_kept (λ e. get_or e.registers_index_depend_on_me j FastSet.empty) i
            (λ e. record e { reg_ready = true; scheduled = inflight }) c.rob (λ e. refl) producer
      either false =
          instr_at-edit_kept (λ e. get_or e.registers_index_depend_on_me j FastSet.empty) i
            (λ e. record e { reg_ready = true; scheduled = completed }) c.rob (λ e. refl) producer

  -- One register after another is as good as all of them.
  released-step :
      (k n : ℕ) (c : O3Cpu)
      → i < length c.rob.entry
      → k ≤ suc n
      → released i k (suc n) (waiting_for i (suc n) c) ≡ released i (suc k) (suc (suc n)) c
  unfolding released
  released-step zero n c l h = rw one (ap (λ k. waiting_for i k c) left)
    where
      left : suc n ≡ suc (suc n) - 1
      left = omega arith

      one : (1 == suc (suc n)) ≡ false
      one = ground arith
  released-step (suc k) n c l h =
      ap
        (λ x.
          if suc k == suc n
          then wake i x
          else waiting_for i (suc n - suc k) (waiting_for i (suc n) c))
        (waiting_for-waiting_for i 0 (suc n) c l)
      ∙ ap (λ x. if suc k == suc n then wake i (waiting_for i 0 c) else x)
          (waiting_for-waiting_for i (suc n - suc k) (suc n) c l)
      ∙ ap (λ b. if b then wake i (waiting_for i 0 c) else waiting_for i (suc n - suc k) c)
          (sym same)
      ∙ ap
          (λ m.
            if suc (suc k) == suc (suc n) then wake i (waiting_for i 0 c) else waiting_for i m c)
          (sym less)
    where
      same : (suc (suc k) == suc (suc n)) ≡ (suc k == suc n)
      same = ground arith

      less : suc (suc n) - suc (suc k) ≡ suc n - suc k
      less = omega arith

  abbrev Releases : ℕ → ℕ → Type 0
  Releases j left =
      (n : ℕ) (c : O3Cpu)
      → i < length c.rob.entry
      → IsOpen c
      → waits c ≡ pos n
      → noted producer i c j left ≤ n
      → release_sources producer i j left c ≡ some (released i (noted producer i c j left) n c)

  -- A source that waits, and then the others.
  take :
      (j left : ℕ)
      → Releases j left
      → (n : ℕ) (c : O3Cpu) → i < length c.rob.entry
      → IsOpen c
      → waits c ≡ pos n
      → suc (noted producer i c j left) ≤ n
      → (release_consumer i c >>= λ c'. release_sources producer i j left c')
        ≡ some (released i (suc (noted producer i c j left)) n c)
  unfolding released
  take j left others zero c l room w h = absurd (omega arith)
  take j left others (suc zero) c l room w h = rw (release_consumer-wakes c l room w) (
      idle j left (wake i (waiting_for i 0 c)) (
        noted-kept c (wake i (waiting_for i 0 c))
          (λ x. consumers-wake (waiting_for i 0 c) x ∙ consumers-waiting_for 0 c x) j left
        ∙ none_left)
      ∙ ap (λ k. some (released i (suc k) 1 c)) (sym none_left))
    where
      none_left : noted producer i c j left ≡ 0
      none_left = omega arith
  take j left others (suc (suc n)) c l room w h =
      let c₁ = waiting_for i (suc n) c in
      let kept = noted-kept c c₁ (consumers-waiting_for (suc n) c) j left in
      rw (release_consumer-waits n c l w) (
        others (suc n) c₁
          (rw
            (length-set c.rob.entry i
              (record (instr_at c.rob i) { num_reg_dependent = pos (suc n) }))
            l)
          room (waits-waiting_for (suc n) c l) (rw kept (omega arith))
        ∙ ap (λ k. some (released i k (suc n) c₁)) kept
        ∙ ap some (released-step (noted producer i c j left) n c l (omega arith)))

  release_rest : (j left : ℕ) → Releases j left
  unfolding release_sources noted released
  release_rest j zero n c l room w h = refl
  release_rest j (suc left) n c l room w h =
      elim (Bool-cases (FastSet.search i (consumers c.rob producer j))) [
        | inr e ↦
            rw (e, release_sources, noted)
              (release_rest (j + 1) left n c l room w (rw (e, noted) at h))
        | inl e ↦
            rw (e, release_sources, noted)
              (take (j + 1) left (release_rest (j + 1) left) n c l room w (rw (e, noted) at h))
      ]

-- An instruction that waits for `n` registers, at most `n` of them of this producer, while RTE0 has a free
-- place: the loop of `reg_RAW_release` over its sources never stops. It takes from `n` the sources noted with
-- the producer, and if these were all, and any, the instruction becomes ready, scheduled in flight if it
-- accesses memory, and else scheduled and put at the tail of RTE0. Nothing else changes.
pub release_sources-released :
    (producer i n : ℕ) (c : O3Cpu)
    → i < length c.rob.entry
    → IsOpen c
    → (instr_at c.rob i).num_reg_dependent ≡ pos n
    → noted producer i c 0 num_instr_sources ≤ n
    → release_sources producer i 0 num_instr_sources c
      ≡ some (released i (noted producer i c 0 num_instr_sources) n c)
release_sources-released producer i n c l room w h =
    release_rest producer i 0 num_instr_sources n c l room w h
