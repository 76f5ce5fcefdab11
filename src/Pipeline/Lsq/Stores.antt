-- ===== src/Pipeline/Lsq/Stores.antt =====
-- `check_and_add_lsq` and `add_store_queue` of src/ooo_cpu.cc: stores enter the store queue in the order
-- of the store array.
use speculative_cache_hierar.Prelude.{
  ℕ, zero, suc, ◌+◌, ◌<◌, ◌≡◌, ◌≢◌, ◌∙◌, refl, sym, ap, ap₂, subst, inl, inr, Bool, true, false,
  not, ◌&&◌, some, List, [], ◌∷◌, ◌++◌, map, arith, length, length-append, get_or, set, Bool-cases,
  ◌==◌, ltb, if◌then◌else◌, uint64_max, add_u64,
}
use mathlib.Core.List.{append_assoc, append-nil}
use speculative_cache_hierar.PacketQueue.Ring.{slot}
use speculative_cache_hierar.Pipeline.{O3Cpu, Setting, now}
use speculative_cache_hierar.Instr.{Instr, instr_at}
use speculative_cache_hierar.ReadyList.{
  LsqEntry, LoadStoreQueue, ReadyList, empty_lsq_entry, lsq_at, first_ready, pop_ready, next_eq,
}
use speculative_cache_hierar.Pipeline.Ring.{
  RingOf, push-RingOf, pop-RingOf, RingOf-head, RingOf-nil, RingOf-tail, next_eq-slot,
}
use speculative_cache_hierar.Instr.Edits.{instr_at-edit_kept}
use speculative_cache_hierar.Pipeline.Lsq.{new_store, add_store_queue, add_stores}

-- The store queue holds these stores, oldest first.
pub record Queues (q : LoadStoreQueue) (ss : List LsqEntry) : Type 0 where
  pub ring : RingOf empty_lsq_entry q.size q.head q.entry ss
  pub count : q.occupancy ≡ length ss
  pub tail_at : q.tail ≡ slot q.head q.size (length ss)

-- The store array holds the numbers of these instructions, once for each of their stores.
abbrev pub Lists : ReadyList → List ℕ → Type 0
Lists r ids = (r.unused ≡ uint64_max) × RingOf uint64_max r.size r.head r.slots ids

Lists-head : (r : ReadyList) (i : ℕ) (ids : List ℕ) → Lists r (i ∷ ids) → first_ready r ≡ i
Lists-head r i ids h =
    ap (get_or r.slots r.head) h.0 ∙ RingOf-head uint64_max r.size r.head r.slots i ids h.1

Lists-nil : (r : ReadyList) → Lists r [] → first_ready r ≡ uint64_max
Lists-nil r h = ap (get_or r.slots r.head) h.0 ∙ RingOf-nil uint64_max r.size r.head r.slots h.1

Lists-pop : (r : ReadyList) (i : ℕ) (ids : List ℕ) → Lists r (i ∷ ids) → Lists (pop_ready r) ids
Lists-pop r i ids h = (
  h.0,
  subst (λ k. RingOf uint64_max r.size k (set r.slots r.head r.unused) ids) (sym moved)
      (subst (λ d. RingOf uint64_max r.size (slot r.head r.size 1) (set r.slots r.head d) ids)
        (sym h.0) (pop-RingOf uint64_max r.size r.head r.slots i ids h.1)),
)
  where
    moved : next_eq r.size r.head ≡ slot r.head r.size 1
    moved = ground (arith, h.1.small, h.1.head_in)

-- From `c` to `c'` the first `added` entries of the store array went to the end of the store queue, in
-- order, and left the array.
pub record Enters (ss : List LsqEntry) (ids : List ℕ) (c c' : O3Cpu) : Type 0 where
  pub entered : List LsqEntry
  pub rest : List ℕ
  pub in_order : map (λ (s : LsqEntry). s.instr_id) entered ++ rest ≡ ids
  pub queued : Queues c'.sq (ss ++ entered)
  pub listed : Lists c'.sta rest
  pub sizes : c'.sq.size ≡ c.sq.size

module _ (g : Setting) (rob_index : ℕ) where
  abbrev id_of : O3Cpu → ℕ
  id_of c = (instr_at c.rob rob_index).instr_id

  -- One store that enters.
  add_store_queue-Enters :
      (j : ℕ) (c : O3Cpu) (ss : List LsqEntry) (i : ℕ) (ids : List ℕ)
      → Queues c.sq ss
      → Lists c.sta (i ∷ ids)
      → length ss < c.sq.size
      → i ≡ id_of c
      → (s : LsqEntry) × (c' : O3Cpu) × (add_store_queue g rob_index j c ≡ some c')
        × (s.instr_id ≡ i)
        × Queues c'.sq (ss ++ s ∷ [])
        × Lists c'.sta ids
        × (c'.sq.size ≡ c.sq.size)
        × (id_of c' ≡ id_of c)
  unfolding add_store_queue
  add_store_queue-Enters j c ss i ids q l room same = (
    entry,
    new_store g rob_index j c,
    rw free refl,
    sym same,
    record {
      ring =
          subst
            (λ k.
              RingOf empty_lsq_entry c.sq.size c.sq.head (set c.sq.entry k entry)
                (ss ++ entry ∷ []))
            (sym q.tail_at)
            (push-RingOf empty_lsq_entry c.sq.size c.sq.head c.sq.entry ss entry q.ring room);
      count = omega (arith, q.count, q.ring.small, length-append {0} ss (entry ∷ []));
      tail_at =
          ap (next_eq c.sq.size) q.tail_at
          ∙ next_eq-slot c.sq.head c.sq.size (length ss) q.ring.small q.ring.head_in room
          ∙ ap (slot c.sq.head c.sq.size) (omega (arith, length-append {0} ss (entry ∷ [])));
    },
    Lists-pop c.sta i ids l,
    refl,
    instr_at-edit_kept (λ (e : Instr). e.instr_id) rob_index
        (λ e. record e {
          sq_index = set e.sq_index j c.sq.tail;
          destination_added = set e.destination_added j true;
        })
        c.rob (λ e. refl) rob_index,
  )
    where
      entry : LsqEntry
      entry = record (lsq_at c.sq c.sq.tail) {
        instr_id = (instr_at c.rob rob_index).instr_id;
        virtual_address = get_or (instr_at c.rob rob_index).destination_memory j 0;
        ip = (instr_at c.rob rob_index).ip;
        data_index = j;
        rob_index = rob_index;
        asid0 = (instr_at c.rob rob_index).asid0;
        asid1 = (instr_at c.rob rob_index).asid1;
        event_cycle = add_u64 (now g c) g.scheduling_latency;
      }

      free : ((lsq_at c.sq c.sq.tail).virtual_address == 0) ≡ true
      free =
          ap (λ (s : LsqEntry). s.virtual_address == 0)
            (ap (λ k. get_or c.sq.entry k empty_lsq_entry) q.tail_at
              ∙ RingOf-tail empty_lsq_entry c.sq.size c.sq.head c.sq.entry ss q.ring room)

  -- What the operand at `j` asks for, and whether it is its turn.
  abbrev wanted : ℕ → O3Cpu → Bool
  wanted j c =
      let e = instr_at c.rob rob_index in
      not (get_or e.destination_memory j 0 == 0) && not (get_or e.destination_added j false)

  abbrev its_turn : O3Cpu → Bool
  its_turn c = ltb c.sq.occupancy c.sq.size && first_ready c.sta == id_of c

  none-Enters :
      (ss : List LsqEntry) (ids : List ℕ) (c : O3Cpu)
      → Queues c.sq ss
      → Lists c.sta ids
      → Enters ss ids c c
  none-Enters ss ids c q l = record {
    entered = [];
    rest = ids;
    in_order = refl;
    queued = rw (append-nil ss) q;
    listed = l;
    sizes = refl;
  }

  cons-Enters :
      (s : LsqEntry) (ss : List LsqEntry) (i : ℕ) (ids : List ℕ) (c c₁ c' : O3Cpu)
      → s.instr_id ≡ i
      → c₁.sq.size ≡ c.sq.size
      → Enters (ss ++ s ∷ []) ids c₁ c'
      → Enters ss (i ∷ ids) c c'
  cons-Enters s ss i ids c c₁ c' same size r = record {
    entered = s ∷ r.entered;
    rest = r.rest;
    in_order = ap₂ ◌∷◌ same r.in_order;
    queued = subst (Queues c'.sq) (append_assoc ss (s ∷ []) r.entered) r.queued;
    listed = r.listed;
    sizes = r.sizes ∙ size;
  }

  entering_room :
      (j : ℕ) (c : O3Cpu) → (wanted j c && its_turn c) ≡ true → c.sq.occupancy < c.sq.size
  entering_room j c h = ground arith

  entering_turn :
      (j : ℕ) (c : O3Cpu) → (wanted j c && its_turn c) ≡ true → first_ready c.sta ≡ id_of c
  entering_turn j c h = ground arith

  missing : ℕ → O3Cpu → ℕ → ℕ
  missing j c k = if wanted j c && not (its_turn c) then suc k else k

  add_stores-Enters :
      (j left : ℕ) (c : O3Cpu) (ss : List LsqEntry) (ids : List ℕ)
      → Queues c.sq ss
      → Lists c.sta ids
      → id_of c ≢ uint64_max
      → (k : ℕ) × (c' : O3Cpu) × (add_stores g rob_index j left c ≡ some (k, c'))
        × Enters ss ids c c'
  unfolding add_stores missing
  add_stores-Enters j zero c ss ids q l real = (0, c, refl, none-Enters ss ids c q l)
  add_stores-Enters j (suc left) c ss [] q l real =
      let (k, c', e, r) = add_stores-Enters (j + 1) left c ss [] q l real in
      (missing j c k, c', rw (stays, add_stores) (rw e refl), r)
    where
      stays : (wanted j c && its_turn c) ≡ false
      stays = ground (arith, Lists-nil c.sta l)
  add_stores-Enters j (suc left) c ss (i ∷ ids) q l real =
      elim (Bool-cases (wanted j c && its_turn c)) [
        | inr stays ↦
            let (k, c', e, r) = add_stores-Enters (j + 1) left c ss (i ∷ ids) q l real in
            (missing j c k, c', rw (stays, add_stores) (rw e refl), r)
        | inl enters ↦
            let (s, c₁, added, same, queued, listed, size, id) =
              add_store_queue-Enters j c ss i ids q l
                (omega (arith, q.count, entering_room j c enters))
                (sym (Lists-head c.sta i ids l) ∙ entering_turn j c enters) in
            let (k, c', e, r) =
              add_stores-Enters (j + 1) left c₁ (ss ++ s ∷ []) ids queued listed
                (λ z. real (sym id ∙ z)) in
            (
              missing j c k,
              c',
              rw (enters, add_stores) (rw added (rw e refl)),
              cons-Enters s ss i ids c c₁ c' same size r,
            )
      ]

-- The stores of an instruction whose number is not UINT64_MAX, with a valid store queue and store array:
-- `check_and_add_lsq` never stops over them, and those that it adds go to the end of the store queue
-- exactly as their numbers leave the head of the store array. So the numbers in the queue, followed by
-- those in the array, are the same before and after: stores enter in the order of the array.
pub add_stores-InOrder :
    (g : Setting) (rob_index : ℕ) (c : O3Cpu) (ss : List LsqEntry) (ids : List ℕ)
    → Queues c.sq ss
    → Lists c.sta ids
    → (instr_at c.rob rob_index).instr_id ≢ uint64_max
    → (k : ℕ) × (c' : O3Cpu) × (add_stores g rob_index 0 g.max_instr_destinations c ≡ some (k, c'))
      × Enters ss ids c c'
add_stores-InOrder g rob_index c ss ids q l real =
    add_stores-Enters g rob_index 0 g.max_instr_destinations c ss ids q l real
