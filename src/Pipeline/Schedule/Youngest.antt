-- ===== src/Pipeline/Schedule/Youngest.antt =====
-- `reg_dependency` of src/ooo_cpu.cc: each source waits for the youngest producer.
use speculative_cache_hierar.Prelude.{
  ℕ, zero, suc, ◌<◌, ◌≡◌, ◌≢◌, ◌∙◌, refl, ap, ap₂, subst, inl, inr, Bool, true, false, not, ◌&&◌,
  ◌||◌, Option, none, some, List, arith, length, Bool-cases, ◌==◌, if◌then◌else◌,
}
use speculative_cache_hierar.FastSet
use speculative_cache_hierar.FastSet.{FastSet}
use speculative_cache_hierar.Packet.{completed}
use speculative_cache_hierar.PacketQueue.Ring.{slot, slot-lt, slot-injective}
use speculative_cache_hierar.Instr.{CoreBuffer, instr_at, num_instr_sources}
use speculative_cache_hierar.Pipeline.Older.{
  youngest_first, older-youngest_first, last, LastOf, last-LastOf, last-none, last_ext,
}
use speculative_cache_hierar.Pipeline.Schedule.{writes, depend_on, reg_dependency}
use speculative_cache_hierar.Pipeline.Schedule.Effects.{
  static, consumers, source, checked, Shaped, Effect,
}
use speculative_cache_hierar.Pipeline.Schedule.Producers.{wants-same, depends, visit, visit-Effect}

module _ (max_destinations current : ℕ) where
  -- The place that was found, if any.
  abbrev pub is_found : Option ℕ → Bool
  is_found none = false
  is_found (some k) = true

  abbrev pub is_at : ℕ → ℕ → Option ℕ → ℕ → Bool
  is_at head size none p = false
  is_at head size (some k) p = slot head size k == p

  -- Source `j` waits for the instruction at the place that was found, and for no other: that one alone
  -- has noted it. Where none was found it does not wait.
  pub record Waits (head size j : ℕ) (o : Option ℕ) (b b' : CoreBuffer) : Type 0 where
    pub check :
        checked max_destinations current b' j ≡ (is_found o || checked max_destinations current b j)
    pub noted :
        (p : ℕ)
        → consumers b' p j ≡ (
            if is_at head size o p
            then FastSet.insert current (consumers b p j)
            else consumers b p j)
    pub statics : (p : ℕ) → static (instr_at b' p) ≡ static (instr_at b p)

  depends-same :
      (b b₁ : CoreBuffer) (i j : ℕ)
      → ((p : ℕ) → static (instr_at b₁ p) ≡ static (instr_at b p))
      → checked max_destinations current b₁ j ≡ checked max_destinations current b j
      → depends max_destinations current b₁ i j ≡ depends max_destinations current b i j
  depends-same b b₁ i j same check =
      ap₂ (λ (t : ℕ × List ℕ × List ℕ) w. not (t.0 == completed) && w) (same i)
        (wants-same max_destinations current b b₁ i j same check)

  depends-checked :
      (b : CoreBuffer) (i j : ℕ)
      → checked max_destinations current b j ≡ true
      → depends max_destinations current b i j ≡ false
  depends-checked b i j e = rw e (
      no (not ((instr_at b i).executed == completed))
        (not (source max_destinations current b j == 0)))
    where
      no :
          (x y : Bool)
          → (x
              && ((y && false)
                  && writes max_destinations (instr_at b i) (source max_destinations current b j)))
            ≡ false
      no true true = refl
      no true false = refl
      no false y = refl

  module _ (head size : ℕ) where
    first-Waits :
        (j n : ℕ) (b b₁ b' : CoreBuffer)
        → Effect max_destinations current j (slot head size n) true b b₁
        → Waits head size j none b₁ b'
        → Waits head size j (some n) b b'
    first-Waits j n b b₁ b' e f = record {
      check = f.check ∙ e.check;
      noted = λ p. f.noted p ∙ e.noted p;
      statics = λ p. f.statics p ∙ e.statics p;
    }

    later-Waits :
        (j n : ℕ) (o : Option ℕ) (b b₁ b' : CoreBuffer)
        → Effect max_destinations current j (slot head size n) false b b₁
        → Waits head size j o b₁ b'
        → Waits head size j o b b'
    later-Waits j n o b b₁ b' e f = record {
      check = f.check ∙ ap (λ x. is_found o || x) e.check;
      noted = λ p.
          f.noted p
          ∙ ap (λ s. if is_at head size o p then FastSet.insert current s else s) (e.noted p);
      statics = λ p. f.statics p ∙ e.statics p;
    }

    depend_on-Waits :
        (n j : ℕ) (b : CoreBuffer)
        → Shaped max_destinations current b
        → ((k : ℕ) → k < n → (slot head size k ≢ current) × (slot head size k < length b.entry))
        → j < num_instr_sources
        → Waits head size j
            (last n (λ k. depends max_destinations current b (slot head size k) j))
            b
            (depend_on max_destinations current (youngest_first head size n) b)
    unfolding depend_on
    depend_on-Waits zero j b s places m = record {
      check = refl;
      noted = λ p. refl;
      statics = λ p. refl;
    }
    depend_on-Waits (suc n) j b s places m =
        let i = slot head size n in
        let b₁ = visit max_destinations current i b in
        let b' = depend_on max_destinations current (youngest_first head size n) b₁ in
        let e =
          visit-Effect max_destinations current b i j s (places n (omega arith)).0
            (places n (omega arith)).1 m in
        let f =
          depend_on-Waits n j b₁ e.shaped
            (λ k l. ((places k (omega arith)).0, rw e.entries (places k (omega arith)).1)) m in
        elim (Bool-cases (depends max_destinations current b i j)) [
          | inl found ↦
              let taken = subst (λ w. Effect max_destinations current j i w b b₁) found e in
              rw found (
                first-Waits j n b b₁ b' taken (
                  subst (λ o. Waits head size j o b₁ b')
                    (last-none n (λ k. depends max_destinations current b₁ (slot head size k) j)
                      (λ k. depends-checked b₁ (slot head size k) j taken.check))
                    f))
          | inr not_found ↦
              let passed = subst (λ w. Effect max_destinations current j i w b b₁) not_found e in
              rw not_found (
                later-Waits j n
                  (last n (λ k. depends max_destinations current b (slot head size k) j)) b b₁ b'
                  passed
                  (subst (λ o. Waits head size j o b₁ b')
                    (last_ext n (λ k. depends max_destinations current b₁ (slot head size k) j)
                      (λ k. depends max_destinations current b (slot head size k) j)
                      (λ k. depends-same b b₁ (slot head size k) j passed.statics passed.check))
                    f))
        ]

-- `reg_dependency` of the `n`-th instruction of the reorder buffer, for each of its sources `j`: if the
-- source has a register and none of the older instructions was found for it before, the source waits
-- for the youngest of the older instructions that write this register and are not completed, and for
-- no other; if there is none, it does not wait. What the instructions read and write stays as it is.
-- (The arrays have their lengths.)
pub reg_dependency-Waits :
    (max_destinations n j : ℕ) (b : CoreBuffer)
    → b.head < b.size
    → n < b.size
    → length b.entry ≡ b.size
    → Shaped max_destinations (slot b.head b.size n) b
    → j < num_instr_sources
    → (o : Option ℕ) × LastOf n
        (λ k. depends max_destinations (slot b.head b.size n) b (slot b.head b.size k) j)
        o
      × Waits max_destinations
          (slot b.head b.size n)
          b.head
          b.size
          j
          o
          b
          (reg_dependency max_destinations (slot b.head b.size n) b)
unfolding reg_dependency
reg_dependency-Waits m n j b h l stored s lj =
    let current = slot b.head b.size n in
    let test : ℕ → Bool = λ k. depends m current b (slot b.head b.size k) j in
    (
      last n test,
      last-LastOf n test,
      rw (older-youngest_first b.head b.size n h l) (
          depend_on-Waits m current b.head b.size n j b s
            (λ k lk. (
              slot-injective b.head b.size k n h (omega arith) l (λ e. absurd (omega arith)),
              rw stored (slot-lt b.head b.size k h (omega arith)),
            ))
            lj),
    )
