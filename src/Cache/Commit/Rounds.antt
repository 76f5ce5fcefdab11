-- ===== src/Cache/Commit/Rounds.antt =====
-- The loop of `commit_blocks` in src/cache.cc over a queue of squashes.
use speculative_cache_hierar.Prelude.{
  ℕ, zero, suc, ◌<◌, ◌≡◌, ◌≢◌, ◌∙◌, refl, sym, ap, subst, inl, inr, true, false, some, List, [],
  ◌∷◌, arith, ◌==◌, first-cases, dec_lt, Bool-cases, Option-cases, drop, length, length-tabulate,
}
use speculative_cache_hierar.AccessType
use speculative_cache_hierar.Packet.{Packet, speculative}
use speculative_cache_hierar.PacketQueue.{PacketQueue, entry_at, remove_queue}
use speculative_cache_hierar.PacketQueue.Ring.{IsValid, contents, nth}
use speculative_cache_hierar.PacketQueue.Remove.{Removes, remove_queue-Removes}
use speculative_cache_hierar.Cache.{Cache, Neighbours}
use speculative_cache_hierar.Cache.Index.{get_set}
use speculative_cache_hierar.Cache.Lookup.Hits.{answers, way_of, check_hit-first}
use speculative_cache_hierar.Cache.Commit.{
  discard, settle, forward_commit, commit_head, commit_rounds, commit_blocks, is_last_level,
  commit_width,
}

-- Every message of the list is a squash.
abbrev pub Squashes : List Packet → Type 0
Squashes [] = Unit {0}
Squashes (p ∷ ps) =
    (p.is_speculative ≡ speculative) × (p.type ≢ AccessType.commit_load) × Squashes ps

-- What a squash leaves alone.
abbrev Keeps : Cache → Cache → Type 0
Keeps c c' = (c'.cq ≡ c.cq) × (c'.block ≡ c.block) × (c'.num_set_spec ≡ c.num_set_spec)

-- What some squashes leave: fewer messages.
abbrev pub Leaves : List Packet → Cache → Cache → Type 0
Leaves ps c c' =
    IsValid c'.cq
    × (contents c'.cq ≡ ps)
    × (c'.block ≡ c.block)
    × (c'.num_set_spec ≡ c.num_set_spec)

drop-nothing : (n : ℕ) (ps : List Packet) → length ps ≡ 0 → ps ≡ drop (suc n) ps
drop-nothing n [] e = refl
drop-nothing n (p ∷ ps) e = absurd (omega arith)

removal_lem :
    (q : PacketQueue)
    → IsValid q
    → 0 < q.occupancy
    → (q' : PacketQueue) × (remove_queue q.head q ≡ some q')
      × IsValid q'
      × (contents q ≡ entry_at q q.head ∷ contents q')
removal_lem q v busy = elim (Option-cases (remove_queue q.head q)) [
  | inl e ↦ absurd (omega (arith, subst (Removes q) e (remove_queue-Removes q v)))
  | inr (q', e) ↦
      let r : Removes q (some q') = subst (Removes q) e (remove_queue-Removes q v) in
      (q', e, r.1, r.2)
]

module _ {W : Type 0} (env : Neighbours W) (room : (w : W) → env.lower_cq_room w ≡ true)
    (takes : (p : Packet) (w : W) → (w' : W) × (env.lower_add_cq p w ≡ some w')) where
  settle-Keeps :
      (p : Packet) (c : Cache) (w : W)
      → p.type ≢ AccessType.commit_load
      → 0 < c.num_set_spec
      → (c' : Cache) × (settle env p c w ≡ some (c', w)) × Keeps c c'
  unfolding settle discard
  settle-Keeps p c w squash some_sets =
      elim (first-cases c.num_way_spec (λ v. answers speculative p (way_of speculative p c v))) [
        | inl (e, _) ↦ (
          c,
          rw (check_hit-first p speculative c some_sets ∙ ap some e, settle) refl,
          (refl, refl, refl),
        )
        | inr (way, e, _, _, _) ↦ (
          discard (get_set p.address speculative c) way c,
          rw (check_hit-first p speculative c some_sets ∙ ap some e, test_sets, test_type, settle)
              refl,
          (refl, refl, refl),
        )
      ]
    where
      test_sets : (c.num_set_spec == 0) ≡ false
      test_sets = ground arith

      test_type : (p.type == AccessType.commit_load) ≡ false
      test_type = ground arith

  forwards : (p : Packet) (c : Cache) (w : W) → (w' : W) × (forward_commit env p c w ≡ some w')
  unfolding forward_commit
  forwards p c w = elim (Bool-cases (is_last_level c.cache_type)) [
    | inl last ↦ (w, rw (last, forward_commit) refl)
    | inr not_last ↦ ((takes p w).0, rw (not_last, room w, (takes p w).1, forward_commit) refl)
  ]

  commit_head-Leaves :
      (c : Cache) (w : W)
      → IsValid c.cq
      → 0 < c.cq.occupancy
      → 0 < c.num_set_spec
      → (entry_at c.cq c.cq.head).is_speculative ≡ speculative
      → (entry_at c.cq c.cq.head).type ≢ AccessType.commit_load
      → (c' : Cache) × (w' : W) × (commit_head env c w ≡ some (c', w'))
        × (ps : List Packet) × Leaves ps c c'
        × (contents c.cq ≡ entry_at c.cq c.cq.head ∷ ps)
  unfolding commit_head
  commit_head-Leaves c w v busy some_sets speculation squash =
      let p = entry_at c.cq c.cq.head in
      let (c', settled, (same, blocks, sets)) = settle-Keeps p c w squash some_sets in
      let (w', sent) = forwards p c' w in
      let (q, removed, vq, split) = removal_lem c.cq v busy in
      (
        record c' { cq = q },
        w',
        rw (speculation, settled, sent, same, removed, commit_head) refl,
        contents q,
        (vq, refl, blocks, sets),
        split,
      )

  commit_rounds-Leaves :
      (rounds : ℕ) (c : Cache) (w : W)
      → IsValid c.cq
      → 0 < c.num_set_spec
      → Squashes (contents c.cq)
      → (c' : Cache) × (w' : W) × (commit_rounds env rounds c w ≡ some (c', w'))
        × Leaves (drop rounds (contents c.cq)) c c'
  unfolding commit_rounds
  commit_rounds-Leaves zero c w v some_sets squashes = (c, w, refl, (v, refl, refl, refl))
  commit_rounds-Leaves (suc rounds) c w v some_sets squashes = elim (dec_lt 0 c.cq.occupancy) [
    | no idle ↦ (c, w, rw (is_empty idle, commit_rounds) refl, (v, nothing_left idle, refl, refl))
    | yes busy ↦
        let (q, _, _, parts) = removal_lem c.cq v busy in
        let heads : Squashes (entry_at c.cq c.cq.head ∷ contents q) =
          subst Squashes parts squashes in
        let (c', w', served, ps, (v', left, blocks, sets), split) =
          commit_head-Leaves c w v busy some_sets heads.0 heads.1 in
        let tails : Squashes (entry_at c.cq c.cq.head ∷ ps) = subst Squashes split squashes in
        let (c'', w'', served', (v'', left', blocks', sets')) =
          commit_rounds-Leaves rounds c' w' v' (subst (λ n. 0 < n) (sym sets) some_sets)
            (subst Squashes (sym left) tails.2) in
        (
          c'',
          w'',
          rw (is_busy busy, served, served', commit_rounds) refl,
          (
            v'',
            left' ∙ ap (drop rounds) left ∙ sym (ap (drop (suc rounds)) split),
            blocks' ∙ blocks,
            sets' ∙ sets,
          ),
        )
  ]
    where
      is_busy : 0 < c.cq.occupancy → (c.cq.occupancy == 0) ≡ false
      is_busy busy = ground arith

      is_empty : ¬ (0 < c.cq.occupancy) → (c.cq.occupancy == 0) ≡ true
      is_empty idle = ground arith

      nothing_left : ¬ (0 < c.cq.occupancy) → contents c.cq ≡ drop (suc rounds) (contents c.cq)
      nothing_left idle =
          drop-nothing rounds (contents c.cq)
            (length-tabulate c.cq.occupancy (nth c.cq) ∙ omega arith)

  -- With at least one speculative set, a valid queue of nothing but squashes, and a lower level
  -- whose commit queue always has room and takes what it is given, `commit_blocks` never stops: it
  -- takes the four oldest messages off the queue, or all if there are fewer, keeps the queue
  -- valid, and leaves the blocks of the normal hierarchy and the number of speculative sets as
  -- they are.
  pub commit_blocks-Leaves :
      (c : Cache) (w : W)
      → IsValid c.cq
      → 0 < c.num_set_spec
      → Squashes (contents c.cq)
      → (c' : Cache) × (w' : W) × (commit_blocks env c w ≡ some (c', w'))
        × Leaves (drop 4 (contents c.cq)) c c'
  unfolding commit_blocks
  commit_blocks-Leaves c w v some_sets squashes =
      commit_rounds-Leaves commit_width c w v some_sets squashes
