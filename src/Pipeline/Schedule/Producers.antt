-- ===== src/Pipeline/Schedule/Producers.antt =====
-- `reg_dependency` of src/ooo_cpu.cc: what one older instruction changes, for all sources.
use speculative_cache_hierar.Prelude.{
  ℕ, zero, suc, ◌+◌, ◌≤◌, ◌<◌, ◌≡◌, ◌≢◌, refl, ap, ap₂, subst, inl, inr, Bool, true, false, not,
  ◌&&◌, List, arith, length, Bool-cases, ℕ_discrete, ◌==◌, ltb, leb, if◌then◌else◌,
}
use speculative_cache_hierar.Packet.{completed}
use speculative_cache_hierar.Instr.{CoreBuffer, instr_at, num_instr_sources}
use speculative_cache_hierar.Pipeline.Schedule.{writes, reg_raw_dependency, depend_sources}
use speculative_cache_hierar.Pipeline.Schedule.Effects.{
  static, source, checked, wants, Shaped, Effect, none-Effect, first-Effect, second-Effect,
  mark-Effect,
}

module _ (max_destinations current : ℕ) where
  abbrev pub waits : CoreBuffer → ℕ → Bool
  waits b j =
      not (source max_destinations current b j == 0) && not (checked max_destinations current b j)

  -- What the loop over the sources does for one.
  abbrev pub step : ℕ → ℕ → CoreBuffer → CoreBuffer
  step i j b = if waits b j then reg_raw_dependency max_destinations i current j b else b

  pub step-Effect :
      (b : CoreBuffer) (i j j' : ℕ)
      → Shaped max_destinations current b
      → i ≢ current
      → i < length b.entry
      → j' < num_instr_sources
      → Effect max_destinations current j i
          (j' == j && wants max_destinations current b i j')
          b
          (step i j' b)
  unfolding reg_raw_dependency
  step-Effect b i j j' s ne l l' = elim (Bool-cases (waits b j')) [
    | inr no_wait ↦
        rw (no_wait) (rw (and_false (j' == j)) (none-Effect max_destinations current j i b s))
    | inl wait ↦
        elim (Bool-cases
          (writes max_destinations (instr_at b i) (source max_destinations current b j'))) [
            | inr no_write ↦
                rw (wait, no_write, reg_raw_dependency)
                  (rw (and_false (j' == j)) (none-Effect max_destinations current j i b s))
            | inl write ↦
                rw (wait, write, reg_raw_dependency)
                  (rw (and_true (j' == j))
                    (mark-Effect max_destinations current b s i ne l j' l' j))
          ]
  ]
    where
      and_false : (x : Bool) → (x && false) ≡ false
      and_false true = refl
      and_false false = refl

      and_true : (x : Bool) → (x && true) ≡ x
      and_true true = refl
      and_true false = refl

  abbrev in_range : ℕ → ℕ → ℕ → Bool
  in_range from left j = leb from j && ltb j (from + left)

  -- The test is the same after a round about other sources, or another instruction.
  pub wants-same :
      (b b₁ : CoreBuffer) (i j : ℕ)
      → ((p : ℕ) → static (instr_at b₁ p) ≡ static (instr_at b p))
      → checked max_destinations current b₁ j ≡ checked max_destinations current b j
      → wants max_destinations current b₁ i j ≡ wants max_destinations current b i j
  unfolding writes
  wants-same b b₁ i j same check =
      let sources : (instr_at b₁ current).source_registers ≡ (instr_at b current).source_registers =
        ap (λ (t : ℕ × List ℕ × List ℕ). t.2) (same current) in
      let destinations : (instr_at b₁ i).destination_registers
          ≡ (instr_at b i).destination_registers =
        ap (λ (t : ℕ × List ℕ × List ℕ). t.1) (same i) in
      rw (sources, destinations, check) refl

  -- A round for source `j'`, and the rounds for those after it.
  chain-Effect :
      (left j' : ℕ) (b b₁ b₂ : CoreBuffer) (i j : ℕ)
      → Effect max_destinations current j i (j' == j && wants max_destinations current b i j') b b₁
      → Effect max_destinations current j i
          (in_range (j' + 1) left j && wants max_destinations current b₁ i j)
          b₁
          b₂
      → Effect max_destinations current j i
          (in_range j' (suc left) j && wants max_destinations current b i j)
          b
          b₂
  chain-Effect left j' b b₁ b₂ i j e f = elim (ℕ_discrete j' j) [
    | yes same ↦ rw (in_first same) (
        first-Effect max_destinations current j i (wants max_destinations current b i j) b b₁ b₂
          (subst (λ w. Effect max_destinations current j i w b b₁)
            (ap₂ ◌&&◌ (equal same) (ap (wants max_destinations current b i) same)) e)
          (subst (λ w. Effect max_destinations current j i w b₁ b₂)
            (ap (λ w. w && wants max_destinations current b₁ i j) (not_later same)) f))
    | no other ↦
        let quiet : Effect max_destinations current j i false b b₁ =
          subst (λ w. Effect max_destinations current j i w b b₁)
            (ap (λ w. w && wants max_destinations current b i j') (differs other)) e in
        second-Effect max_destinations current j i
          (in_range j' (suc left) j && wants max_destinations current b i j) b b₁ b₂ quiet
          (subst (λ w. Effect max_destinations current j i w b₁ b₂)
            (ap₂ ◌&&◌ (shifted other) (wants-same b b₁ i j quiet.statics quiet.check)) f)
  ]
    where
      equal : j' ≡ j → (j' == j) ≡ true
      equal e = ground arith

      differs : j' ≢ j → (j' == j) ≡ false
      differs ne = ground arith

      in_first : j' ≡ j → in_range j' (suc left) j ≡ true
      in_first e = ground arith

      not_later : j' ≡ j → in_range (j' + 1) left j ≡ false
      not_later e = ground arith

      shifted : j' ≢ j → in_range (j' + 1) left j ≡ in_range j' (suc left) j
      shifted ne = ground arith

  depend_sources-Effect :
      (left j' : ℕ) (b : CoreBuffer) (i j : ℕ)
      → Shaped max_destinations current b
      → i ≢ current
      → i < length b.entry
      → j' + left ≤ num_instr_sources
      → Effect max_destinations current j i
          (in_range j' left j && wants max_destinations current b i j)
          b
          (depend_sources max_destinations i current j' left b)
  unfolding depend_sources
  depend_sources-Effect zero j' b i j s ne l m =
      rw empty_range (none-Effect max_destinations current j i b s)
    where
      empty_range : in_range j' 0 j ≡ false
      empty_range = ground arith
  depend_sources-Effect (suc left) j' b i j s ne l m =
      let here = step-Effect b i j j' s ne l (omega arith) in
      chain-Effect left j' b (step i j' b)
        (depend_sources max_destinations i current (j' + 1) left (step i j' b)) i j here
        (depend_sources-Effect left (j' + 1) (step i j' b) i j here.shaped ne (rw here.entries l)
          (omega arith))

  -- Source `j` waits for the instruction at `i`: that is not completed, and the source wants it.
  abbrev pub depends : CoreBuffer → ℕ → ℕ → Bool
  depends b i j = not ((instr_at b i).executed == completed) && wants max_destinations current b i j

  -- One instruction of the outer loop.
  abbrev pub visit : ℕ → CoreBuffer → CoreBuffer
  visit i b =
      if (instr_at b i).executed == completed
      then b
      else depend_sources max_destinations i current 0 num_instr_sources b

  pub visit-Effect :
      (b : CoreBuffer) (i j : ℕ)
      → Shaped max_destinations current b
      → i ≢ current
      → i < length b.entry
      → j < num_instr_sources
      → Effect max_destinations current j i (depends b i j) b (visit i b)
  visit-Effect b i j s ne l m = elim (Bool-cases ((instr_at b i).executed == completed)) [
    | inl e ↦ rw e (none-Effect max_destinations current j i b s)
    | inr e ↦ rw e (
        subst
          (λ w.
            Effect max_destinations current j i (w && wants max_destinations current b i j) b
              (depend_sources max_destinations i current 0 num_instr_sources b))
          all_sources (depend_sources-Effect num_instr_sources 0 b i j s ne l (omega arith)))
  ]
    where
      all_sources : in_range 0 num_instr_sources j ≡ true
      all_sources = ground arith
