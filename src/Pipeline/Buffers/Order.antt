-- ===== src/Pipeline/Buffers/Order.antt =====
-- The buffers of the core as lists of instructions, in program order, oldest first. The time stamps
-- `event_cycle`, which every stage rewrites, are left out of the lists.
use speculative_cache_hierar.Prelude.{
  ℕ, zero, suc, ◌^◌, ◌<◌, ◌≡◌, ◌≢◌, ◌∙◌, refl, sym, ap, subst, true, some, List, [], ◌∷◌, ◌++◌, map,
  arith, length, length-append, get_or, set, get_or-set_self, inc_u32, ◌==◌,
}
use speculative_cache_hierar.PacketQueue.Ring.{slot, slot-lt}
use speculative_cache_hierar.Instr.{
  Instr, empty_instr, CoreBuffer, new_buffer, instr_at, edit_instr,
}
use speculative_cache_hierar.ReadyList.{next}
use speculative_cache_hierar.Pipeline.Buffers.{add_to_buffer, drop_head}
use speculative_cache_hierar.Pipeline.Ring.{
  RingOf, push-RingOf, pop-RingOf, RingOf-head, RingOf-nil, RingOf-tail, next-slot,
  replicate-RingOf,
}

abbrev pub undated : Instr → Instr
undated e = record e { event_cycle = 0 }

-- An instruction of the program has a number and an address.
abbrev pub IsReal : Instr → Type 0
IsReal e = (e.instr_id ≢ 0) × (e.ip ≢ 0)

abbrev pub AllReal : List Instr → Type 0
AllReal [] = Unit
AllReal (e ∷ es) = IsReal e × AllReal es

-- The buffer holds these instructions, oldest first.
pub record Holds (b : CoreBuffer) (xs : List Instr) : Type 0 where
  pub ring : RingOf empty_instr b.size b.head (map undated b.entry) xs
  pub count : b.occupancy ≡ length xs
  pub tail_at : b.tail ≡ slot b.head b.size (length xs)
  pub real : AllReal xs

-- The buffer with an instruction at its tail.
abbrev pub added : ℕ → Instr → CoreBuffer → CoreBuffer
added cycle e b = record b {
  entry = set b.entry b.tail (record e { event_cycle = cycle });
  occupancy = inc_u32 b.occupancy;
  tail = next b.size b.tail;
}

AllReal-append : (xs ys : List Instr) → AllReal xs → AllReal ys → AllReal (xs ++ ys)
AllReal-append [] ys a b = b
AllReal-append (x ∷ xs) ys a b = (a.0, AllReal-append xs ys a.1 b)

map-set :
    (xs : List Instr) (i : ℕ) (e : Instr)
    → map undated (set xs i e) ≡ set (map undated xs) i (undated e)
map-set [] i e = refl
map-set (x ∷ xs) zero e = refl
map-set (x ∷ xs) (suc i) e = ap (◌∷◌ (undated x)) (map-set xs i e)

get_or-undated :
    (xs : List Instr) (i : ℕ)
    → get_or (map undated xs) i empty_instr ≡ undated (get_or xs i empty_instr)
get_or-undated [] i = refl
get_or-undated (x ∷ xs) zero = refl
get_or-undated (x ∷ xs) (suc i) = get_or-undated xs i

map-set_self :
    (xs : List Instr) (i : ℕ) (e : Instr)
    → undated e ≡ undated (get_or xs i empty_instr)
    → map undated (set xs i e) ≡ map undated xs
map-set_self [] i e h = refl
map-set_self (x ∷ xs) zero e h = ap (λ y. y ∷ map undated xs) h
map-set_self (x ∷ xs) (suc i) e h = ap (◌∷◌ (undated x)) (map-set_self xs i e h)

module _ (b : CoreBuffer) (xs : List Instr) (h : Holds b xs) where
  -- A new time stamp.
  pub restamp-Holds :
      (i cycle : ℕ) → Holds (edit_instr i (λ e. record e { event_cycle = cycle }) b) xs
  restamp-Holds i cycle = record {
    ring =
        subst (λ es. RingOf empty_instr b.size b.head es xs)
          (sym (map-set_self b.entry i (record (instr_at b i) { event_cycle = cycle }) refl))
          h.ring;
    count = h.count;
    tail_at = h.tail_at;
    real = h.real;
  }

  length-undated : (es : List Instr) → length (map undated es) ≡ length es
  length-undated [] = refl
  length-undated (e ∷ es) = ap suc (length-undated es)

  module _ (cycle : ℕ) (e : Instr) (real : IsReal e) (room : length xs < b.size) where
    -- A buffer with room takes an instruction at its tail.
    pub added-Holds : Holds (added cycle e b) (xs ++ undated e ∷ [])
    added-Holds = record {
      ring =
          subst (λ es. RingOf empty_instr b.size b.head es (xs ++ undated e ∷ []))
            (ap (λ i. set (map undated b.entry) i (undated e)) (sym h.tail_at)
              ∙ sym (map-set b.entry b.tail (record e { event_cycle = cycle })))
            (push-RingOf empty_instr b.size b.head (map undated b.entry) xs (undated e) h.ring
              room);
      count = omega (arith, h.count, h.ring.small, length-append {0} xs (undated e ∷ []));
      tail_at =
          ap (next b.size) h.tail_at
          ∙ next-slot b.head b.size (length xs) h.ring.small h.ring.head_in room
          ∙ ap (slot b.head b.size) (omega (arith, length-append {0} xs (undated e ∷ [])));
      real = AllReal-append xs (undated e ∷ []) h.real (real, tt);
    }

    pub add_to_buffer-added :
        (add_to_buffer cycle e b ≡ some (added cycle e b))
        × (instr_at (added cycle e b) b.tail ≡ record e { event_cycle = cycle })
    unfolding add_to_buffer
    add_to_buffer-added = (
      rw free refl,
      get_or-set_self b.entry b.tail (record e { event_cycle = cycle }) empty_instr inside,
    )
      where
        at_tail : undated (instr_at b b.tail) ≡ empty_instr
        at_tail =
            sym (get_or-undated b.entry b.tail)
            ∙ ap (λ i. get_or (map undated b.entry) i empty_instr) h.tail_at
            ∙ RingOf-tail empty_instr b.size b.head (map undated b.entry) xs h.ring room

        free : ((instr_at b b.tail).instr_id == 0) ≡ true
        free = ap (λ (e : Instr). e.instr_id == 0) at_tail

        inside : b.tail < length b.entry
        inside = rw h.tail_at (
            omega (
              arith,
              length-undated b.entry,
              h.ring.stored,
              slot-lt b.head b.size (length xs) h.ring.head_in room,
            ))

-- The head of a buffer that is not empty, and of an empty one.
pub Holds-head :
    (b : CoreBuffer) (x : Instr) (xs : List Instr)
    → Holds b (x ∷ xs)
    → undated (instr_at b b.head) ≡ x
Holds-head b x xs h =
    sym (get_or-undated b.entry b.head)
    ∙ RingOf-head empty_instr b.size b.head (map undated b.entry) x xs h.ring

pub Holds-nil : (b : CoreBuffer) → Holds b [] → undated (instr_at b b.head) ≡ empty_instr
Holds-nil b h =
    sym (get_or-undated b.entry b.head)
    ∙ RingOf-nil empty_instr b.size b.head (map undated b.entry) h.ring

-- The oldest instruction leaves.
pub drop_head-Holds :
    (b : CoreBuffer) (x : Instr) (xs : List Instr) → Holds b (x ∷ xs) → Holds (drop_head b) xs
unfolding drop_head
drop_head-Holds b x xs h = record {
  ring =
      subst (λ es. RingOf empty_instr b.size (next b.size b.head) es xs)
        (sym (map-set b.entry b.head empty_instr))
        (subst (λ i. RingOf empty_instr b.size i (set (map undated b.entry) b.head empty_instr) xs)
          (sym moved) (pop-RingOf empty_instr b.size b.head (map undated b.entry) x xs h.ring));
  count = omega (arith, h.count, h.ring.small, h.ring.bounded);
  tail_at = rw moved (h.tail_at ∙ ground (arith, h.ring.head_in, h.ring.bounded));
  real = h.real.1;
}
  where
    moved : next b.size b.head ≡ slot b.head b.size 1
    moved = ground (arith, h.ring.small, h.ring.head_in)

pub new_buffer-Holds : (size : ℕ) → 0 < size → size < 2 ^ 32 → Holds (new_buffer size) []
new_buffer-Holds size h l = record {
  ring =
      subst (λ es. RingOf empty_instr size 0 es []) (sym (undated-replicate size))
        (replicate-RingOf empty_instr size h l);
  count = refl;
  tail_at = ground arith;
  real = tt;
}
  where
    undated-replicate : (n : ℕ) → map undated (new_buffer n).entry ≡ (new_buffer n).entry
    undated-replicate zero = refl
    undated-replicate (suc n) = ap (◌∷◌ empty_instr) (undated-replicate n)
