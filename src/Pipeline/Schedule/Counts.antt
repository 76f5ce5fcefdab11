-- ===== src/Pipeline/Schedule/Counts.antt =====
-- `reg_dependency` of src/ooo_cpu.cc: how many sources an instruction waits for.
use speculative_cache_hierar.Prelude.{
  ℕ, zero, suc, ◌+◌, ◌≤◌, ◌<◌, ◌≡◌, ◌≢◌, ◌∙◌, refl, sym, ap, subst, inl, inr, pos, inc_ℤ, Bool,
  true, false, List, [], ◌∷◌, arith, length, get_or, set, Bool-cases, ◌==◌,
}
use speculative_cache_hierar.Packet.{completed}
use speculative_cache_hierar.PacketQueue.Ring.{slot, slot-lt, slot-injective}
use speculative_cache_hierar.Instr.{Instr, CoreBuffer, instr_at, num_instr_sources}
use speculative_cache_hierar.Pipeline.Older.{youngest_first, older-youngest_first}
use speculative_cache_hierar.Pipeline.Schedule.{
  writes, as_consumer, reg_raw_dependency, depend_sources, depend_on, reg_dependency,
}
use speculative_cache_hierar.Pipeline.Schedule.Effects.{source, Shaped, mark-current}
use speculative_cache_hierar.Pipeline.Schedule.Producers.{
  waits, step, step-Effect, visit, visit-Effect,
}

abbrev pub count_true : List Bool → ℕ
count_true [] = 0
count_true (true ∷ bs) = suc (count_true bs)
count_true (false ∷ bs) = count_true bs

count_true-set :
    (bs : List Bool) (j : ℕ)
    → j < length bs
    → get_or bs j false ≡ false
    → count_true (set bs j true) ≡ suc (count_true bs)
count_true-set [] j l h = absurd (omega arith)
count_true-set (true ∷ bs) zero l h = cc
count_true-set (false ∷ bs) zero l h = refl
count_true-set (true ∷ bs) (suc j) l h = ap suc (count_true-set bs j (omega arith) h)
count_true-set (false ∷ bs) (suc j) l h = count_true-set bs j (omega arith) h

-- `num_reg_dependent` is the number of the sources that wait, and the instruction is ready if there is
-- none.
pub record Counts (e : Instr) : Type 0 where
  pub number : e.num_reg_dependent ≡ pos (count_true e.reg_raw_checked)
  pub ready : e.reg_ready ≡ (count_true e.reg_raw_checked == 0)

as_consumer-Counts :
    (id j : ℕ) (e : Instr)
    → j < length e.reg_raw_checked
    → get_or e.reg_raw_checked j false ≡ false
    → Counts e
    → Counts (as_consumer id j e)
unfolding as_consumer
as_consumer-Counts id j e l h c = record {
  number = ap inc_ℤ c.number ∙ ap pos (sym (count_true-set e.reg_raw_checked j l h));
  ready = rw (count_true-set e.reg_raw_checked j l h) (positive (count_true e.reg_raw_checked));
}
  where
    positive : (n : ℕ) → false ≡ (suc n == 0)
    positive n = ground arith

module _ (max_destinations current : ℕ) where
  abbrev CountsAt : CoreBuffer → Type 0
  CountsAt b = Counts (instr_at b current)

  step-Counts :
      (b : CoreBuffer) (i j : ℕ)
      → Shaped max_destinations current b
      → i ≢ current
      → i < length b.entry
      → j < num_instr_sources
      → CountsAt b
      → CountsAt (step max_destinations current i j b)
  unfolding reg_raw_dependency
  step-Counts b i j s ne l m c = elim (Bool-cases (waits max_destinations current b j)) [
    | inr no_wait ↦ rw no_wait c
    | inl wait ↦
        elim (Bool-cases
          (writes max_destinations (instr_at b i) (source max_destinations current b j))) [
            | inr no_write ↦ rw (wait, no_write, reg_raw_dependency) c
            | inl write ↦
                rw (wait, write, reg_raw_dependency)
                  (subst Counts (sym (mark-current max_destinations current b s i ne l j m)) (
                    as_consumer-Counts (instr_at b i).instr_id j (instr_at b current)
                      (omega (arith, s.sources)) (unchecked wait) c))
          ]
  ]
    where
      unchecked :
          waits max_destinations current b j ≡ true
          → get_or (instr_at b current).reg_raw_checked j false ≡ false
      unchecked h = ground arith

  depend_sources-Counts :
      (left j : ℕ) (b : CoreBuffer) (i : ℕ)
      → Shaped max_destinations current b
      → i ≢ current
      → i < length b.entry
      → j + left ≤ num_instr_sources
      → CountsAt b
      → CountsAt (depend_sources max_destinations i current j left b)
  unfolding depend_sources
  depend_sources-Counts zero j b i s ne l m c = c
  depend_sources-Counts (suc left) j b i s ne l m c =
      let e = step-Effect max_destinations current b i j j s ne l (omega arith) in
      depend_sources-Counts left (j + 1) (step max_destinations current i j b) i e.shaped ne
        (rw e.entries l) (omega arith) (step-Counts b i j s ne l (omega arith) c)

  visit-Counts :
      (b : CoreBuffer) (i : ℕ)
      → Shaped max_destinations current b
      → i ≢ current
      → i < length b.entry
      → CountsAt b
      → CountsAt (visit max_destinations current i b)
  visit-Counts b i s ne l c = elim (Bool-cases ((instr_at b i).executed == completed)) [
    | inl e ↦ rw e c
    | inr e ↦ rw e (depend_sources-Counts num_instr_sources 0 b i s ne l (omega arith) c)
  ]

  depend_on-Counts :
      (head size n : ℕ) (b : CoreBuffer)
      → Shaped max_destinations current b
      → ((k : ℕ) → k < n → (slot head size k ≢ current) × (slot head size k < length b.entry))
      → CountsAt b
      → CountsAt (depend_on max_destinations current (youngest_first head size n) b)
  unfolding depend_on
  depend_on-Counts head size zero b s places c = c
  depend_on-Counts head size (suc n) b s places c =
      let i = slot head size n in
      let (ne, l) = places n (omega arith) in
      let e = visit-Effect max_destinations current b i 0 s ne l (omega arith) in
      depend_on-Counts head size n (visit max_destinations current i b) e.shaped
        (λ k lk. ((places k (omega arith)).0, rw e.entries (places k (omega arith)).1))
        (visit-Counts b i s ne l c)

-- `reg_dependency` keeps `num_reg_dependent` the number of the sources that wait, and the instruction
-- ready exactly if no source does. (The arrays have their lengths.)
pub reg_dependency-Counts :
    (max_destinations n : ℕ) (b : CoreBuffer)
    → b.head < b.size
    → n < b.size
    → length b.entry ≡ b.size
    → Shaped max_destinations (slot b.head b.size n) b
    → Counts (instr_at b (slot b.head b.size n))
    → Counts
        (instr_at (reg_dependency max_destinations (slot b.head b.size n) b) (slot b.head b.size n))
unfolding reg_dependency
reg_dependency-Counts m n b h l stored s c = rw (older-youngest_first b.head b.size n h l) (
    depend_on-Counts m (slot b.head b.size n) b.head b.size n b s
      (λ k lk. (
        slot-injective b.head b.size k n h (omega arith) l (λ e. absurd (omega arith)),
        rw stored (slot-lt b.head b.size k h (omega arith)),
      ))
      c)
