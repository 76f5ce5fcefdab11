-- ===== src/Cache/Lookup/Hits.antt =====
-- `check_hit`, `fill_cache` and `invalidate_entry` of src/cache.cc: what hits, and when.
use speculative_cache_hierar.Prelude.{
  ◌+◌, Option, sym, ℕ, ◌≤◌, ◌<◌, ◌≡◌, ◌⊎◌, ◌∙◌, refl, ap, inl, inr, Bool, true, false, not, none,
  some, arith, ltb, ◌==◌, first, first-cases,
}
use speculative_cache_hierar.Packet.{Packet, Hierarchy, normal, speculative}
use speculative_cache_hierar.Block.{Block}
use speculative_cache_hierar.Cache.{Cache}
use speculative_cache_hierar.Cache.Index.{get_set}
use speculative_cache_hierar.Cache.Index.Bounds.{sets, get_set-lt}
use speculative_cache_hierar.Cache.Shape.{ways, blocks, block_at}
use speculative_cache_hierar.Cache.Lookup.{or_number, get_way, holds, holds_before, check_hit}

-- The block of way `w` answers the request: it is valid, of the same address and, in the speculative
-- hierarchy, filled by the requesting instruction or an older one.
abbrev pub Answers : Hierarchy → Packet → Block → Type 0
Answers normal p b = (b.valid ≡ true) × (b.tag ≡ p.address)
Answers speculative p b = (b.valid ≡ true) × (b.tag ≡ p.address) × (b.instr_id ≤ p.instr_id)

-- The test that the loops make.
abbrev pub answers : Hierarchy → Packet → Block → Bool
answers normal p b = holds p.address b
answers speculative p b = holds_before p.address p.instr_id b

pub answers-true : (h : Hierarchy) (p : Packet) (b : Block) → answers h p b ≡ true → Answers h p b
answers-true normal p b e = (ground arith, ground arith)
answers-true speculative p b e = (ground arith, ground arith, ground arith)

pub answers-false :
    (h : Hierarchy) (p : Packet) (b : Block) → answers h p b ≡ false → ¬ Answers h p b
answers-false normal p b e = λ a. ground arith
answers-false speculative p b e = λ a. ground arith

-- The way of the set of `p` that `check_hit` is about.
abbrev pub way_of : Hierarchy → Packet → Cache → ℕ → Block
way_of h p c w = block_at (blocks h c) (get_set p.address h c) w

pub set_in_range :
    (a : ℕ) (h : Hierarchy) (c : Cache) → 0 < sets h c → not (ltb (sets h c) (get_set a h c)) ≡ true
set_in_range a h c l = ground (arith, get_set-lt a h c l)

-- `check_hit` is one search, once its assertion is out of the way.
pub check_hit-first :
    (p : Packet) (h : Hierarchy) (c : Cache)
    → 0 < sets h c
    → check_hit p h c ≡ some (first (ways h c) (λ w. answers h p (way_of h p c w)))
unfolding check_hit
check_hit-first p normal c l = rw (set_in_range p.address normal c l)
check_hit-first p speculative c l = rw (some_sets, set_in_range p.address speculative c l)
  where
    some_sets : (c.num_set_spec == 0) ≡ false
    some_sets = ground arith

-- In a hierarchy with at least one set, `check_hit` passes its assertion, and returns the first
-- way whose block answers the request, or -1 if none does. So in the speculative hierarchy no
-- block of a younger instruction is ever hit.
pub check_hit_lem :
    (p : Packet) (h : Hierarchy) (c : Cache)
    → 0 < sets h c
    → ((w : ℕ) × (check_hit p h c ≡ some (some w))
        × (w < ways h c)
        × Answers h p (way_of h p c w)
        × ((v : ℕ) → v < w → ¬ Answers h p (way_of h p c v)))
      ⊎ ((check_hit p h c ≡ some none) × ((v : ℕ) → v < ways h c → ¬ Answers h p (way_of h p c v)))
check_hit_lem p h c l = elim (first-cases (ways h c) (λ w. answers h p (way_of h p c w))) [
  | inl (e, missing) ↦ inr (
    check_hit-first p h c l ∙ ap some e,
    λ v lv. answers-false h p (way_of h p c v) (missing v lv),
  )
  | inr (w, e, lw, t, before) ↦ inl (
    w,
    check_hit-first p h c l ∙ ap some e,
    lw,
    answers-true h p (way_of h p c w) t,
    λ v lv. answers-false h p (way_of h p c v) (before v lv),
  )
]

-- The normal hierarchy asks for the address alone.
pub check_hit-normal :
    (p p' : Packet) (c : Cache)
    → p.address ≡ p'.address
    → check_hit p normal c ≡ check_hit p' normal c
unfolding check_hit
check_hit-normal p p' c e = rw e refl

some-injective : {a b : Option ℕ} → some a ≡ some b → a ≡ b
some-injective e = cc

-- In the normal hierarchy, with at least one set, `get_way` on the set of the request gives the
-- way that `check_hit` gives, and a number past every way where `check_hit` gives -1.
pub get_way-check_hit :
    (p : Packet) (c : Cache) (o : Option ℕ)
    → 0 < c.num_set
    → check_hit p normal c ≡ some o
    → get_way p.address (get_set p.address normal c) normal c
      ≡ or_number o (c.num_way + c.num_way_spec)
unfolding get_way
get_way-check_hit p c o some_sets e =
    ap (λ o. or_number o (c.num_way + c.num_way_spec))
      (some-injective (sym (check_hit-first p normal c some_sets) ∙ e))
