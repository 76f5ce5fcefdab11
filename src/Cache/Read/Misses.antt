-- ===== src/Cache/Read/Misses.antt =====
-- `CACHE::handle_read` of src/cache.cc, on a miss: the entries of the MSHR.
use speculative_cache_hierar.Prelude.{
  ℕ, ◌<◌, ◌≡◌, ◌≢◌, ◌⊎◌, ◌∙◌, refl, sym, subst, inl, inr, Bool, true, false, Option, none, some,
  arith, ltb, ◌==◌, Bool-cases, Option-cases, >>=-eq-some, check-eq-some, check, ◌>>◌,
}
use speculative_cache_hierar.Packet.{Packet, inflight}
use speculative_cache_hierar.Cache.{Cache, Neighbours}
use speculative_cache_hierar.Cache.Mshr.{check_mshr, add_mshr}
use speculative_cache_hierar.Cache.Mshr.Distinct.{
  waits_for, IsDistinct, SameWaits-IsDistinct, add_mshr-IsDistinct,
}
use speculative_cache_hierar.Cache.Machine.{Run, Hooks, in_rq}
use speculative_cache_hierar.Cache.Machine.Steps.{
  entry_in, count_stall, on_cache, allocate, pass_on,
}
use speculative_cache_hierar.Cache.Commit.{is_llc}
use speculative_cache_hierar.Cache.Writeback.{handled}
use speculative_cache_hierar.Cache.Read.{merge_read_miss, new_read_miss, read_miss_step}
use speculative_cache_hierar.Cache.Read.Passing.{
  same_some, merge_read_miss-IsDistinct, pass_on-SameWaits,
}

module _ {W : Type 0} (env : Neighbours W) (hooks : Hooks W) (clock : ℕ → ℕ) (i : ℕ) where
  module _ (r : Run W) where
    abbrev p : Packet
    p = entry_in in_rq i r.cache

    -- Either the request has to wait, and the MSHR is as before, or an entry waits for its block.
    abbrev pub Tracks : Bool → Run W → Type 0
    Tracks done r' =
        IsDistinct r'.cache
        × (((done ≡ false) × (r'.cache.mshr ≡ r.cache.mshr))
            ⊎ ((done ≡ true)
                × ((k : ℕ) × (k < r.cache.mshr_size) × (waits_for r'.cache k ≡ p.address))))

    module _ (d : IsDistinct r.cache) (somewhere : p.address ≢ 0)
        (below : r.cache.has_lower_level ≡ true)
        (free : r.cache.mshr.occupancy < r.cache.mshr_size
          → (k : ℕ) × (k < r.cache.mshr_size) × (waits_for r.cache k ≡ 0)) where
      abbrev added : Cache
      added = (add_mshr clock p inflight r.cache).1

      passed-Tracks :
          check_mshr p r.cache ≡ none
          → r.cache.mshr.occupancy < r.cache.mshr_size
          → (done : Bool) (r' : Run W)
          → handled (
              pass_on env hooks clock in_rq i env.lower_add_rq
                (on_cache (allocate in_rq i clock) r))
            ≡ some (done, r')
          → Tracks done r'
      unfolding allocate
      passed-Tracks absent room done r' e =
          let (r'', passes, end) =
            >>=-eq-some
              (pass_on env hooks clock in_rq i env.lower_add_rq
                (on_cache (allocate in_rq i clock) r))
              _ e in
          let a = add_mshr-IsDistinct clock p inflight r.cache d somewhere absent (free room) in
          let w =
            pass_on-SameWaits env hooks clock i env.lower_add_rq
              (on_cache (allocate in_rq i clock) r) r'' a.0.allocated passes in
          subst (λ (o : Bool × Run W). Tracks o.0 o.1) (same_some (true, r'') (done, r') end)
            (
              SameWaits-IsDistinct _ r''.cache w
                  (record { allocated = a.0.allocated; distinct = a.0.distinct }),
              inr (refl, (a.2.0, a.2.1, w.same a.2.0 ∙ a.2.2)),
            )

      abbrev passed : Option (Bool × Run W)
      passed =
          handled
            (pass_on env hooks clock in_rq i env.lower_add_rq (on_cache (allocate in_rq i clock) r))

      abbrev is_full : Bool
      is_full = env.lower_occupancy 1 p.address r.world == env.lower_size 1 p.address r.world

      new_read_miss-passed :
          (is_llc r.cache.cache_type ≡ false) ⊎ (is_full ≡ false)
          → new_read_miss env hooks clock i r ≡ passed
      unfolding new_read_miss
      new_read_miss-passed (inl upper) = rw (upper, below) refl
      new_read_miss-passed (inr room) = elim (Bool-cases (is_llc r.cache.cache_type)) [
        | inl last ↦ rw (last, room, below) refl
        | inr upper ↦ rw (upper, below) refl
      ]

      new_read_miss-full :
          is_llc r.cache.cache_type ≡ true
          → is_full ≡ true
          → new_read_miss env hooks clock i r ≡ some (false, r)
      unfolding new_read_miss
      new_read_miss-full last full = rw (last, full, below) refl

      returns_now :
          (done : Bool) (r' : Run W) (m : Option (Bool × Run W)) (done' : Bool) (r'' : Run W)
          → m ≡ some (done', r'')
          → m ≡ some (done, r')
          → Tracks done' r''
          → Tracks done r'
      returns_now done r' m done' r'' now e t =
          subst (λ (o : Bool × Run W). Tracks o.0 o.1)
            (same_some (done', r'') (done, r') (sym now ∙ e)) t

      new_read_miss-Tracks :
          check_mshr p r.cache ≡ none
          → r.cache.mshr.occupancy < r.cache.mshr_size
          → (done : Bool) (r' : Run W) → new_read_miss env hooks clock i r ≡ some (done, r')
          → Tracks done r'
      new_read_miss-Tracks absent room done r' e = elim (Bool-cases (is_llc r.cache.cache_type)) [
        | inr upper ↦ passed-Tracks absent room done r' (sym (new_read_miss-passed (inl upper)) ∙ e)
        | inl last ↦ elim (Bool-cases is_full) [
          | inl full ↦
              returns_now done r' _ false r (new_read_miss-full last full) e (d, inl (refl, refl))
          | inr below_full ↦
              passed-Tracks absent room done r' (sym (new_read_miss-passed (inr below_full)) ∙ e)
        ]
      ]

      merge_step :
          (m : ℕ)
          → check_mshr p r.cache ≡ some m
          → read_miss_step env hooks clock i r ≡ some (true, on_cache (merge_read_miss i m) r)
      unfolding read_miss_step
      merge_step m found = rw (found, read_miss_step) refl

      new_step :
          check_mshr p r.cache ≡ none
          → ltb r.cache.mshr.occupancy r.cache.mshr_size ≡ true
          → read_miss_step env hooks clock i r ≡ new_read_miss env hooks clock i r
      unfolding read_miss_step
      new_step absent room = rw (absent, room, read_miss_step) refl

      wait_step :
          check_mshr p r.cache ≡ none
          → ltb r.cache.mshr.occupancy r.cache.mshr_size ≡ false
          → read_miss_step env hooks clock i r ≡ (
              check (r.cache.mshr.occupancy == r.cache.mshr_size)
              >> some (false, on_cache (count_stall in_rq i) r))
      unfolding read_miss_step
      wait_step absent full = rw (absent, full, read_miss_step) refl

      -- On a miss of an address that is not 0, with a lower level and an MSHR in which no two entries wait for one block and which
      -- has a free entry while its occupancy is below its size: `handle_read` keeps the entries
      -- distinct, whatever the lower level returns meanwhile. If the miss is handled, merged or new, an
      -- entry waits for its block; else the MSHR is as it was.
      pub read_miss_step-Tracks :
          (done : Bool) (r' : Run W)
          → read_miss_step env hooks clock i r ≡ some (done, r')
          → Tracks done r'
      read_miss_step-Tracks done r' e = elim (Option-cases (check_mshr p r.cache)) [
        | inr (m, found) ↦
            let t = merge_read_miss-IsDistinct i m r.cache d found in
            returns_now done r' _ true (on_cache (merge_read_miss i m) r) (merge_step m found) e
              (t.0, inr (refl, (m, t.1, t.2)))
        | inl absent ↦ elim (Bool-cases (ltb r.cache.mshr.occupancy r.cache.mshr_size)) [
          | inl room ↦
              new_read_miss-Tracks absent (ground arith) done r' (sym (new_step absent room) ∙ e)
          | inr full ↦
              let (_, q) =
                check-eq-some _ (false, on_cache (count_stall in_rq i) r)
                  (sym (wait_step absent full) ∙ e) in
              subst (λ (o : Bool × Run W). Tracks o.0 o.1) q
                (record { allocated = d.allocated; distinct = d.distinct }, inl (refl, refl))
        ]
      ]
