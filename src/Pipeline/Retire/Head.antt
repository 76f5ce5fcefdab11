-- ===== src/Pipeline/Retire/Head.antt =====
-- One round of `retire_rob` of src/ooo_cpu.cc: the head leaves the reorder buffer.
use speculative_cache_hierar.Prelude.{
  ℕ, zero, suc, ◌+◌, ◌≡◌, ◌∙◌, sym, ap, subst, inl, inr, true, some, List, ◌∷◌, arith, get_or, set,
  Bool-cases, >>=-eq-some, >>=-eq-some_map, ◌==◌, inc_u64, dec_u32, dec_u64,
}
use speculative_cache_hierar.Packet.{Packet}
use speculative_cache_hierar.Cache.Writes.{add_wq}
use speculative_cache_hierar.SpecUpdate.{update_spec_blocks}
use speculative_cache_hierar.Pipeline.{O3Cpu, Setting, now}
use speculative_cache_hierar.Instr.{Instr, CoreBuffer, empty_instr, instr_at, arch_instr}
use speculative_cache_hierar.ReadyList.{next, next_eq, lsq_at}
use speculative_cache_hierar.Pipeline.Buffers.{drop_head}
use speculative_cache_hierar.Pipeline.Buffers.Order.{Holds, drop_head-Holds}
use speculative_cache_hierar.Pipeline.Retire.{
  write_packet, write_store, write_stores, release_stores, retire_head, retire_one,
}

abbrev pub head_of : O3Cpu → Instr
head_of c = instr_at c.rob c.rob.head

module _ (g : Setting) where
  -- The stores change the caches alone.
  write_store-same :
      (p : Packet) (c c' : O3Cpu)
      → write_store g p c ≡ some c'
      → (c'.rob ≡ c.rob) × (c'.num_retired ≡ c.num_retired)
  unfolding write_store
  write_store-same p c c' h =
      let (answer, _, made) =
        >>=-eq-some_map (add_wq g.clock p c.caches.l1d)
          (λ answer. record c { caches = record c.caches { l1d = answer.1 } }) h in
      (sym (ap (λ (o : O3Cpu). o.rob) made), sym (ap (λ (o : O3Cpu). o.num_retired) made))

  write_stores-same :
      (e : Instr) (i left : ℕ) (c : O3Cpu) {c' : O3Cpu}
      → write_stores g e i left c ≡ some c'
      → (c'.rob ≡ c.rob) × (c'.num_retired ≡ c.num_retired)
  unfolding write_stores
  write_stores-same e i zero c h = (cc, cc)
  write_stores-same e i (suc left) c {c' = c'} h =
      elim (Bool-cases (get_or e.destination_memory i 0 == 0)) [
        | inl skip ↦ write_stores-same e (i + 1) left c (rw (skip, write_stores) at h)
        | inr store ↦
            let found =
              >>=-eq-some (write_store g packet c) (λ c'. write_stores g e (i + 1) left c')
                (rw (store, write_stores) at h) in
            let after = write_store-same packet c found.0 found.1 in
            let later = write_stores-same e (i + 1) left found.0 found.2 in
            (later.0 ∙ after.0, later.1 ∙ after.1)
      ]
    where
      packet : Packet
      packet =
          write_packet (now g c) c.caches.cpu (get_or e.sq_index i 0)
            (lsq_at c.sq (get_or e.sq_index i 0))

  -- The buffer without its head, as `retire_rob` writes it.
  abbrev without_head : CoreBuffer → CoreBuffer
  without_head b = record b {
    entry = set b.entry b.head empty_instr;
    head = next_eq b.size b.head;
    occupancy = dec_u32 b.occupancy;
  }

  without_head-Holds :
      (b : CoreBuffer) (x : Instr) (xs : List Instr) → Holds b (x ∷ xs) → Holds (without_head b) xs
  unfolding drop_head
  without_head-Holds b x xs h = subst (λ b. Holds b xs) same (drop_head-Holds b x xs h)
    where
      same_head : next b.size b.head ≡ next_eq b.size b.head
      same_head = ground (arith, h.ring.small, h.ring.head_in)

      same : drop_head b ≡ without_head b
      same =
          ap
            (λ i. record b {
              entry = set b.entry b.head empty_instr;
              head = i;
              occupancy = dec_u32 b.occupancy;
            })
            same_head

  retire_head-Holds :
      (x : Instr) (xs : List Instr) (c c' : O3Cpu)
      → Holds c.rob (x ∷ xs)
      → retire_head g c ≡ some c'
      → Holds c'.rob xs × (c'.num_retired ≡ inc_u64 c.num_retired)
  unfolding retire_head
  retire_head-Holds x xs c c' h e =
      let (caches, _, made) =
        >>=-eq-some_map (update_spec_blocks g.clock (arch_instr (head_of c)) true c.caches)
          (λ caches. record c {
            caches = caches;
            sq = release_stores g (head_of c) 0 g.max_instr_destinations c.sq;
            rob = without_head c.rob;
            completed_executions = dec_u64 c.completed_executions;
            num_retired = inc_u64 c.num_retired;
          })
          e in
      (
        subst (λ b. Holds b xs) (ap (λ (o : O3Cpu). o.rob) made) (without_head-Holds c.rob x xs h),
        sym (ap (λ (o : O3Cpu). o.num_retired) made),
      )

  pub retire_one-Holds :
      (x : Instr) (xs : List Instr) (c c' : O3Cpu)
      → Holds c.rob (x ∷ xs)
      → retire_one g c ≡ some c'
      → Holds c'.rob xs × (c'.num_retired ≡ inc_u64 c.num_retired)
  unfolding retire_one
  retire_one-Holds x xs c c' h e =
      let (c₁, written, done) = >>=-eq-some _ (λ c'. retire_head g c') e in
      let (rob, count) = write_stores-same (head_of c) 0 g.max_instr_destinations c written in
      let (left, counted) =
        retire_head-Holds x xs c₁ c' (subst (λ b. Holds b (x ∷ xs)) (sym rob) h) done in
      (left, counted ∙ ap inc_u64 count)
