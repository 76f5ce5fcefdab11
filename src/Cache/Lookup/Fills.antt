-- ===== src/Cache/Lookup/Fills.antt =====
-- `fill_cache` of src/cache.cc, seen through `check_hit`.
use speculative_cache_hierar.Prelude.{
  ℕ, ◌<◌, ◌≡◌, ◌≢◌, ◌∙◌, refl, sym, ap, ap₂, subst, true, false, not, ◌&&◌, some, arith, ◌==◌,
  first, first-at, check-eq-some,
}
use speculative_cache_hierar.AccessType
use speculative_cache_hierar.Packet.{Packet, Hierarchy, normal, speculative}
use speculative_cache_hierar.Block.{Block}
use speculative_cache_hierar.Cache.{Cache}
use speculative_cache_hierar.Cache.Index.{get_set}
use speculative_cache_hierar.Cache.Index.Bounds.{
  sets, get_set-lt, SameGeometry, get_set-SameGeometry, sets-SameGeometry,
}
use speculative_cache_hierar.Cache.Shape.{
  IsShaped, ways, blocks, block_at, write_way, write_self, write_other_way,
}
use speculative_cache_hierar.Cache.Lookup.{
  holds, check_hit, fill_cache, needs_payload, stored, filled,
}
use speculative_cache_hierar.Cache.Lookup.Hits.{answers, way_of, check_hit-first}

abbrev pub other : Hierarchy → Hierarchy
other normal = speculative
other speculative = normal

-- What a fill writes: one block, of the packet's address, data and time, and nothing in the other
-- hierarchy.
pub record Fills (s w : ℕ) (p : Packet) (h : Hierarchy) (c c' : Cache) (b : Block) : Type 0 where
  pub written : blocks h c' ≡ write_way s w b (blocks h c)
  pub elsewhere : blocks (other h) c' ≡ blocks (other h) c
  pub geometry : SameGeometry c c'
  pub valid : b.valid ≡ true
  pub clean : b.dirty ≡ false
  pub tag : b.tag ≡ p.address
  pub payload : b.payload ≡ p.payload
  pub instr_id : b.instr_id ≡ p.instr_id

-- The block that `stored` leaves.
block_of : ℕ → ℕ → Packet → Hierarchy → Cache → Block
block_of s w p normal c = record (filled p (block_at c.block s w)) {
  prefetch = p.type == AccessType.prefetch;
}
block_of s w p speculative c = filled p (block_at c.spec_block s w)

stored-Fills :
    (s w : ℕ) (p : Packet) (h : Hierarchy) (c : Cache)
    → Fills s w p h c (stored s w p h c) (block_of s w p h c)
unfolding stored block_of
stored-Fills s w p normal c = record {
  written = refl;
  elsewhere = refl;
  geometry = (refl, refl, refl, refl);
  valid = refl;
  clean = refl;
  tag = refl;
  payload = refl;
  instr_id = refl;
}
stored-Fills s w p speculative c = record {
  written = refl;
  elsewhere = refl;
  geometry = (refl, refl, refl, refl);
  valid = refl;
  clean = refl;
  tag = refl;
  payload = refl;
  instr_id = refl;
}

pub fill_cache-Fills :
    (s w : ℕ) (p : Packet) (h : Hierarchy) (c c' : Cache)
    → fill_cache s w p h c ≡ some c'
    → (b : Block) × Fills s w p h c c' b
unfolding fill_cache
fill_cache-Fills s w p h c c' e = (
  block_of s w p h c,
  subst (λ c'. Fills s w p h c c' (block_of s w p h c)) (check-eq-some _ (stored s w p h c) e).1
      (stored-Fills s w p h c),
)

answers-filled :
    (h : Hierarchy) (p : Packet) (b : Block)
    → b.valid ≡ true
    → b.tag ≡ p.address
    → b.instr_id ≡ p.instr_id
    → answers h p b ≡ true
answers-filled normal p b v t i = ground arith
answers-filled speculative p b v t i = ground arith

answers-none :
    (h : Hierarchy) (p : Packet) (b : Block) → holds p.address b ≡ false → answers h p b ≡ false
answers-none normal p b e = e
answers-none speculative p b e = ground arith

ways-SameGeometry : (h : Hierarchy) (c c' : Cache) → SameGeometry c c' → ways h c' ≡ ways h c
ways-SameGeometry normal c c' g = g.1
ways-SameGeometry speculative c c' g = g.3

-- After a fill of the packet's own set that passed the sanity check, `check_hit` on the packet
-- returns the way of the fill, whose block has the data of the packet, provided that the hierarchy
-- has sets and an array of its size, that the way is one of the set, and that no other way of the
-- set held the address.
pub check_hit-fill_cache :
    (w : ℕ) (p : Packet) (h : Hierarchy) (c c' : Cache)
    → 0 < sets h c
    → IsShaped (sets h c) (ways h c) (blocks h c)
    → w < ways h c
    → ((v : ℕ) → v < ways h c → v ≢ w → holds p.address (way_of h p c v) ≡ false)
    → fill_cache (get_set p.address h c) w p h c ≡ some c'
    → (check_hit p h c' ≡ some (some w)) × ((way_of h p c' w).payload ≡ p.payload)
check_hit-fill_cache w p h c c' some_sets shape lw alone e = (
  check_hit-first p h c' (subst (λ n. 0 < n) (sym (sets-SameGeometry h c c' f.geometry)) some_sets)
      ∙ ap some (
          ap (λ n. first n (λ v. answers h p (way_of h p c' v)))
            (ways-SameGeometry h c c' f.geometry)
          ∙ first-at (ways h c) _ w lw hit (λ v lv. miss v (omega arith) (omega arith))),
  ap (λ (b : Block). b.payload) (now w ∙ there) ∙ f.payload,
)
  where
    s : ℕ
    s = get_set p.address h c

    b : Block
    b = (fill_cache-Fills s w p h c c' e).0

    f : Fills s w p h c c' b
    f = (fill_cache-Fills s w p h c c' e).1

    now : (v : ℕ) → way_of h p c' v ≡ block_at (write_way s w b (blocks h c)) s v
    now v =
        ap₂ (λ bs t. block_at bs t v) f.written (get_set-SameGeometry p.address h c c' f.geometry)

    there : block_at (write_way s w b (blocks h c)) s w ≡ b
    there = write_self (blocks h c) shape s w b (get_set-lt p.address h c some_sets) lw

    hit : answers h p (way_of h p c' w) ≡ true
    hit = ap (answers h p) (now w ∙ there) ∙ answers-filled h p b f.valid f.tag f.instr_id

    miss : (v : ℕ) → v < ways h c → v ≢ w → answers h p (way_of h p c' v) ≡ false
    miss v lv ne =
        ap (answers h p) (
          now v
          ∙ write_other_way (blocks h c) shape s w b (get_set-lt p.address h c some_sets) v
              (λ q. ne (sym q)))
        ∙ answers-none h p _ (alone v lv ne)

-- Past the sanity check, a fill is its assignments.
pub fill_cache-stored :
    (s w : ℕ) (p : Packet) (h : Hierarchy) (c : Cache)
    → not (needs_payload c.cache_type && p.payload == 0) ≡ true
    → fill_cache s w p h c ≡ some (stored s w p h c)
unfolding fill_cache
fill_cache-stored s w p h c e = rw e refl

-- A speculative fill changes nothing but speculative blocks.
pub fill_cache-speculative :
    (s w : ℕ) (p : Packet) (c c' : Cache)
    → fill_cache s w p speculative c ≡ some c'
    → c' ≡ record c { spec_block = c'.spec_block }
unfolding fill_cache stored
fill_cache-speculative s w p c c' e = ground arith
