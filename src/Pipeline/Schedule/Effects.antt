-- ===== src/Pipeline/Schedule/Effects.antt =====
-- `reg_RAW_dependency` of src/ooo_cpu.cc: what one older instruction changes, for one source.
use speculative_cache_hierar.Prelude.{
  ℕ, ◌<◌, ◌≡◌, ◌≢◌, ◌∙◌, refl, ap, subst, Bool, true, false, not, ◌&&◌, ◌||◌, List, arith, length,
  length-set, get_or, get_or-set, ℕ_discrete, ◌==◌, if◌then◌else◌,
}
use speculative_cache_hierar.FastSet
use speculative_cache_hierar.FastSet.{FastSet}
use speculative_cache_hierar.Instr.{Instr, CoreBuffer, instr_at, edit_instr, num_instr_sources}
use speculative_cache_hierar.Pipeline.Schedule.{writes, as_producer, as_consumer}
use speculative_cache_hierar.Instr.Edits.{instr_at-edit_kept, instr_at-edit_self, instr_at-edit_ne}

-- What the dependencies leave alone.
abbrev pub static : Instr → ℕ × List ℕ × List ℕ
static e = (e.executed, e.destination_registers, e.source_registers)

-- The consumers of source `j` that the instruction at `p` has noted.
abbrev pub consumers : CoreBuffer → ℕ → ℕ → FastSet
consumers b p j = get_or (instr_at b p).registers_index_depend_on_me j FastSet.empty

module _ (max_destinations current : ℕ) where
  abbrev pub source : CoreBuffer → ℕ → ℕ
  source b j = get_or (instr_at b current).source_registers j 0

  abbrev pub checked : CoreBuffer → ℕ → Bool
  checked b j = get_or (instr_at b current).reg_raw_checked j false

  -- Source `j` has no producer yet, and the instruction at `i` writes its register.
  abbrev pub wants : CoreBuffer → ℕ → ℕ → Bool
  wants b i j =
      (not (source b j == 0) && not (checked b j))
      && writes max_destinations (instr_at b i) (source b j)

  -- The arrays have their lengths.
  pub record Shaped (b : CoreBuffer) : Type 0 where
    pub inside : current < length b.entry
    pub sources : length (instr_at b current).reg_raw_checked ≡ num_instr_sources
    pub sets : (p : ℕ) → length (instr_at b p).registers_index_depend_on_me ≡ num_instr_sources

  -- From `b` to `b'` the instruction at `i` became the producer of source `j`, if `w`. About the other
  -- sources it says nothing.
  pub record Effect (j i : ℕ) (w : Bool) (b b' : CoreBuffer) : Type 0 where
    pub statics : (p : ℕ) → static (instr_at b' p) ≡ static (instr_at b p)
    pub shaped : Shaped b'
    pub entries : length b'.entry ≡ length b.entry
    pub check : checked b' j ≡ (w || checked b j)
    pub noted :
        (p : ℕ)
        → consumers b' p j
          ≡ (if w && i == p then FastSet.insert current (consumers b p j) else consumers b p j)

  pub none-Effect : (j i : ℕ) (b : CoreBuffer) → Shaped b → Effect j i false b b
  none-Effect j i b s = record {
    statics = λ p. refl;
    shaped = s;
    entries = refl;
    check = refl;
    noted = λ p. refl;
  }

  -- Two rounds of which one, at most, does something for source `j`.
  pub first-Effect :
      (j i : ℕ) (w : Bool) (b b₁ b₂ : CoreBuffer)
      → Effect j i w b b₁
      → Effect j i false b₁ b₂
      → Effect j i w b b₂
  first-Effect j i w b b₁ b₂ e f = record {
    statics = λ p. f.statics p ∙ e.statics p;
    shaped = f.shaped;
    entries = f.entries ∙ e.entries;
    check = f.check ∙ e.check;
    noted = λ p. f.noted p ∙ e.noted p;
  }

  pub second-Effect :
      (j i : ℕ) (w : Bool) (b b₁ b₂ : CoreBuffer)
      → Effect j i false b b₁
      → Effect j i w b₁ b₂
      → Effect j i w b b₂
  second-Effect j i w b b₁ b₂ e f = record {
    statics = λ p. f.statics p ∙ e.statics p;
    shaped = f.shaped;
    entries = f.entries ∙ e.entries;
    check = f.check ∙ ap (λ x. w || x) e.check;
    noted =
        λ p. f.noted p ∙ ap (λ s. if w && i == p then FastSet.insert current s else s) (e.noted p);
  }

  -- The two assignments of a dependency of source `j'`.
  abbrev pub mark : ℕ → ℕ → CoreBuffer → CoreBuffer
  mark i j' b =
      edit_instr current (as_consumer (instr_at b i).instr_id j')
        (edit_instr i (as_producer current j') b)

  module _ (b : CoreBuffer) (s : Shaped b) (i : ℕ) (ne : i ≢ current) (l : i < length b.entry)
      (j' : ℕ) (l' : j' < num_instr_sources) where
    mark-statics : (p : ℕ) → static (instr_at (mark i j' b) p) ≡ static (instr_at b p)
    unfolding as_producer as_consumer
    mark-statics p =
        instr_at-edit_kept static current (as_consumer (instr_at b i).instr_id j')
          (edit_instr i (as_producer current j') b) (λ e. refl) p
        ∙ instr_at-edit_kept static i (as_producer current j') b (λ e. refl) p

    mark-Shaped : Shaped (mark i j' b)
    unfolding as_producer as_consumer
    mark-Shaped = record {
      inside =
          rw
            (length-set (edit_instr i (as_producer current j') b).entry current (
              as_consumer (instr_at b i).instr_id j'
                (instr_at (edit_instr i (as_producer current j') b) current)))
            (rw (length-set b.entry i (as_producer current j' (instr_at b i))) s.inside);
      sources =
          instr_at-edit_kept (λ e. length e.reg_raw_checked) current
            (as_consumer (instr_at b i).instr_id j') (edit_instr i (as_producer current j') b)
            (λ e. length-set e.reg_raw_checked j' true) current
          ∙ instr_at-edit_kept (λ e. length e.reg_raw_checked) i (as_producer current j') b
              (λ e. refl) current
          ∙ s.sources;
      sets = λ p.
          instr_at-edit_kept (λ e. length e.registers_index_depend_on_me) current
            (as_consumer (instr_at b i).instr_id j') (edit_instr i (as_producer current j') b)
            (λ e. refl) p
          ∙ instr_at-edit_kept (λ e. length e.registers_index_depend_on_me) i
              (as_producer current j') b (λ e. length-set e.registers_index_depend_on_me j' _) p
          ∙ s.sets p;
    }

    -- The consumer after both assignments.
    pub mark-current :
        instr_at (mark i j' b) current ≡ as_consumer (instr_at b i).instr_id j' (instr_at b current)
    mark-current =
        instr_at-edit_self current (as_consumer (instr_at b i).instr_id j')
          (edit_instr i (as_producer current j') b)
          (rw (length-set b.entry i (as_producer current j' (instr_at b i))) s.inside)
        ∙ ap (as_consumer (instr_at b i).instr_id j')
            (instr_at-edit_ne i (as_producer current j') b current ne)

    mark-check : (j : ℕ) → checked (mark i j' b) j ≡ (j' == j || checked b j)
    unfolding as_consumer
    mark-check j =
        ap (λ (e : Instr). get_or e.reg_raw_checked j false) mark-current
        ∙ get_or-set (instr_at b current).reg_raw_checked j' j true false (omega (arith, s.sources))
        ∙ as_or (j' == j) (checked b j)
      where
        as_or : (x y : Bool) → (if x then true else y) ≡ (x || y)
        as_or true y = refl
        as_or false y = refl

    -- The producer after the first assignment.
    as_set : ℕ → ℕ → FastSet
    as_set j p =
        if j' == j && i == p then FastSet.insert current (consumers b p j) else consumers b p j

    if_same :
        (j : ℕ)
        → (if j' == j then FastSet.insert current (consumers b i j') else consumers b i j)
          ≡ as_set j i
    unfolding as_set
    if_same j = elim (ℕ_discrete j' j) [
      | yes e ↦
          subst
            (λ k.
              (if j' == k then FastSet.insert current (consumers b i j') else consumers b i k) ≡ (
                if j' == k && i == i
                then FastSet.insert current (consumers b i k)
                else consumers b i k))
            e (rw (self j', self i) refl)
      | no other ↦ rw (differs j other) refl
    ]
      where
        self : (k : ℕ) → (k == k) ≡ true
        self k = ground arith

        differs : (j : ℕ) → j' ≢ j → (j' == j) ≡ false
        differs j ne = ground arith

    produced_self : (j : ℕ) → consumers (edit_instr i (as_producer current j') b) i j ≡ as_set j i
    unfolding as_producer
    produced_self j =
        ap (λ (e : Instr). get_or e.registers_index_depend_on_me j FastSet.empty)
          (instr_at-edit_self i (as_producer current j') b l)
        ∙ get_or-set (instr_at b i).registers_index_depend_on_me j' j
            (FastSet.insert current (consumers b i j')) FastSet.empty (omega (arith, s.sets i))
        ∙ if_same j

    produced-other :
        (j p : ℕ) → i ≢ p → consumers (edit_instr i (as_producer current j') b) p j ≡ as_set j p
    unfolding as_set
    produced-other j p other = rw (not_same i p other) (
        ap (λ (e : Instr). get_or e.registers_index_depend_on_me j FastSet.empty)
          (instr_at-edit_ne i (as_producer current j') b p other)
        ∙ if_false (j' == j) (FastSet.insert current (consumers b p j)) (consumers b p j))
      where
        not_same : (i p : ℕ) → i ≢ p → (i == p) ≡ false
        not_same i p ne = ground arith

        if_false : (x : Bool) (u v : FastSet) → v ≡ (if x && false then u else v)
        if_false true u v = refl
        if_false false u v = refl

    mark-noted : (j p : ℕ) → consumers (mark i j' b) p j ≡ as_set j p
    unfolding as_producer as_consumer
    mark-noted j p =
        instr_at-edit_kept (λ e. get_or e.registers_index_depend_on_me j FastSet.empty) current
          (as_consumer (instr_at b i).instr_id j') (edit_instr i (as_producer current j') b)
          (λ e. refl) p
        ∙ elim (ℕ_discrete i p) [
          | no other ↦ produced-other j p other
          | yes e ↦
              subst (λ q. consumers (edit_instr i (as_producer current j') b) q j ≡ as_set j q) e
                (produced_self j)
        ]

    pub mark-Effect : (j : ℕ) → Effect j i (j' == j) b (mark i j' b)
    unfolding as_set
    mark-Effect j = record {
      statics = mark-statics;
      shaped = mark-Shaped;
      entries =
          length-set (edit_instr i (as_producer current j') b).entry current (
            as_consumer (instr_at b i).instr_id j'
              (instr_at (edit_instr i (as_producer current j') b) current))
          ∙ length-set b.entry i (as_producer current j' (instr_at b i));
      check = mark-check j;
      noted = mark-noted j;
    }
