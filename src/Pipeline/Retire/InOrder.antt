-- ===== src/Pipeline/Retire/InOrder.antt =====
-- `retire_rob` of src/ooo_cpu.cc, on the instructions that the reorder buffer holds.
use speculative_cache_hierar.Prelude.{
  ℕ, zero, suc, ◌+◌, ◌%◌, ◌^◌, ◌≤◌, ◌≡◌, ◌≢◌, ◌∙◌, refl, sym, ap, ◌⊎◌, inl, inr, false, true,
  Option, none, some, List, [], ◌∷◌, arith, length, take, drop, Bool-cases, Option-cases, inc_u64,
}
use speculative_cache_hierar.Packet.{completed}
use speculative_cache_hierar.Cache.Commit.{commit_width}
use speculative_cache_hierar.Pipeline.{O3Cpu, Setting}
use speculative_cache_hierar.Instr.{Instr}
use speculative_cache_hierar.Pipeline.Buffers.Order.{Holds, Holds-head, Holds-nil}
use speculative_cache_hierar.Pipeline.Retire.{
  may_retire, has_room, retire_one, stall_store, retire_rounds, retire_rob,
}
use speculative_cache_hierar.Pipeline.Retire.Head.{head_of, retire_one-Holds}

abbrev pub AllExecuted : List Instr → Type 0
AllExecuted [] = Unit
AllExecuted (e ∷ es) = (e.executed ≡ completed) × AllExecuted es

-- The first `retired` instructions left the reorder buffer, all of them executed.
pub record Retires (rs : List Instr) (count : ℕ) (c c' : O3Cpu) : Type 0 where
  pub retired : ℕ
  pub at_most : retired ≤ count
  pub present : retired ≤ length rs
  pub remaining : Holds c'.rob (drop retired rs)
  pub executed : AllExecuted (take retired rs)
  pub counted : c'.num_retired % 2 ^ 64 ≡ (c.num_retired + retired) % 2 ^ 64

-- Why no more retire: as many did as may, none is left, the oldest is not executed, or the write queue of the
-- L1D has no room for its stores.
abbrev pub Stops : Setting → ℕ → ℕ → O3Cpu → Type 0
Stops g retired count c =
    (retired ≡ count)
    ⊎ (c.rob.occupancy ≡ 0)
    ⊎ ((head_of c).executed ≢ completed)
    ⊎ (has_room g c ≡ false)

-- The two outcomes: an instruction that may retire meets a failed assertion of the L1D or of a commit
-- queue; or the loop ends.
abbrev pub Outcome : Setting → List Instr → ℕ → O3Cpu → Option O3Cpu → Type 0
Outcome g rs count c none =
    (c₁ : O3Cpu) × Retires rs count c c₁
    × (may_retire g c₁ ≡ true)
    × (has_room g c₁ ≡ true)
    × (retire_one g c₁ ≡ none)
Outcome g rs count c (some c') = (r : Retires rs count c c') × Stops g r.retired count c'

module _ (g : Setting) where
  none-Retires : (rs : List Instr) (count : ℕ) (c : O3Cpu) → Holds c.rob rs → Retires rs count c c
  none-Retires rs count c h = record {
    retired = 0;
    at_most = omega arith;
    present = omega arith;
    remaining = h;
    executed = tt;
    counted = ap (λ n. n % 2 ^ 64) (omega arith);
  }

  cons-Retires :
      (x : Instr) (rs : List Instr) (count : ℕ) (c c₁ c' : O3Cpu)
      → x.executed ≡ completed
      → c₁.num_retired ≡ inc_u64 c.num_retired
      → Retires rs count c₁ c'
      → Retires (x ∷ rs) (suc count) c c'
  cons-Retires x rs count c c₁ c' done counted r = record {
    retired = suc r.retired;
    at_most = omega (arith, r.at_most);
    present = omega (arith, r.present);
    remaining = r.remaining;
    executed = (done, r.executed);
    counted = omega (arith, r.counted);
  }

  cons-Outcome :
      (x : Instr) (rs : List Instr) (count : ℕ) (c c₁ : O3Cpu) (o : Option O3Cpu)
      → x.executed ≡ completed
      → c₁.num_retired ≡ inc_u64 c.num_retired
      → Outcome g rs count c₁ o
      → Outcome g (x ∷ rs) (suc count) c o
  unfolding cons-Retires
  cons-Outcome x rs count c c₁ none done counted (c₂, r, may, room, tried) =
      (c₂, cons-Retires x rs count c c₁ c₂ done counted r, may, room, tried)
  cons-Outcome x rs count c c₁ (some c') done counted (r, stops) = (
    cons-Retires x rs count c c₁ c' done counted r,
    elim stops [ inl all ↦ inl (ap suc all) | inr why ↦ inr why ],
  )

  -- Why nothing retires.
  waits :
      (c : O3Cpu) (x : Instr) (xs : List Instr)
      → Holds c.rob (x ∷ xs)
      → may_retire g c ≡ false
      → (head_of c).executed ≢ completed
  waits c x xs h stop done = ground (arith, has_ip)
    where
      has_ip : (head_of c).ip ≢ 0
      has_ip z = h.real.0.1 (sym (ap (λ (e : Instr). e.ip) (Holds-head c.rob x xs h)) ∙ z)

  retire_rounds-Outcome :
      (count : ℕ) (c : O3Cpu) (rs : List Instr)
      → Holds c.rob rs
      → Outcome g rs count c (retire_rounds g count c)
  unfolding retire_rounds none-Retires cons-Retires
  retire_rounds-Outcome zero c rs h = (none-Retires rs 0 c h, inl refl)
  retire_rounds-Outcome (suc count) c [] h =
      rw (nothing, retire_rounds) (none-Retires [] (suc count) c h, inr (inl h.count))
    where
      nothing : may_retire g c ≡ false
      nothing = ground (arith, ap (λ (e : Instr). e.ip) (Holds-nil c.rob h))
  retire_rounds-Outcome (suc count) c (x ∷ xs) h = elim (Bool-cases (may_retire g c)) [
    | inr stop ↦
        rw (stop, retire_rounds)
          (none-Retires (x ∷ xs) (suc count) c h, inr (inr (inl (waits c x xs h stop))))
    | inl go ↦ elim (Bool-cases (has_room g c)) [
      | inr full ↦ rw (go, full, retire_rounds) (stalled full)
      | inl room ↦ elim (Option-cases (retire_one g c)) [
        | inl fails ↦
            rw (go, room, fails, retire_rounds)
              (c, none-Retires (x ∷ xs) (suc count) c h, go, room, fails)
        | inr (c₁, one) ↦
            let (left, counted) = retire_one-Holds g x xs c c₁ h one in
            rw (go, room, one, retire_rounds)
              (cons-Outcome x xs count c c₁ (retire_rounds g count c₁) (executed go) counted
                (retire_rounds-Outcome count c₁ xs left))
      ]
    ]
  ]
    where
      executed : may_retire g c ≡ true → x.executed ≡ completed
      executed go = sym (ap (λ (e : Instr). e.executed) (Holds-head c.rob x xs h)) ∙ ground arith

      stalled : has_room g c ≡ false → Outcome g (x ∷ xs) (suc count) c (some (stall_store g c))
      stalled full =
          unfold stall_store in
          (
            record {
              retired = 0;
              at_most = omega arith;
              present = omega arith;
              remaining = h;
              executed = tt;
              counted = ap (λ n. n % 2 ^ 64) (omega arith);
            },
            inr (inr (inr full)),
          )

  -- If the reorder buffer holds real instructions, `retire_rob` takes only executed ones off it, at
  -- most four, the oldest first, and counts them. It goes on until it has taken four, none is left,
  -- the oldest is not executed, or the write queue of the L1D lacks room for the stores of the
  -- oldest. It stops the simulator only where the L1D does not take a store, or a first-level cache
  -- a commit message, of an executed instruction that has become the oldest.
  pub retire_rob-InOrder :
      (c : O3Cpu) (rs : List Instr) → Holds c.rob rs → Outcome g rs commit_width c (retire_rob g c)
  unfolding retire_rob
  retire_rob-InOrder c rs h = retire_rounds-Outcome commit_width c rs h
