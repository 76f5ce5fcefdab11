-- ===== src/PacketQueue/Check.antt =====
-- `PACKET_QUEUE::check_queue` of src/block.cc, against the list of the packets.
use speculative_cache_hierar.Prelude.{
  ℕ, zero, suc, ◌+◌, ◌-◌, ◌<◌, ◌≡◌, ◌∙◌, sym, ap, subst, inl, inr, true, false, Option, none, some,
  arith, Bool-cases, dec_lt,
}
use speculative_cache_hierar.Packet.{Packet}
use speculative_cache_hierar.PacketQueue.{
  PacketQueue, entry_at, same_request, scan, or_else, check_queue,
}
use speculative_cache_hierar.PacketQueue.Ring.{slot, IsValid}

-- What a search over `n` places returns, place `k` being the index `at k`: the index of the first
-- place whose packet is to the same address, or nothing if there is none.
module _ (q : PacketQueue) (p : Packet) (n : ℕ) (at : ℕ → ℕ) where
  abbrev pub Searches : Option ℕ → Type 0
  Searches none = (k : ℕ) → k < n → same_request q p (entry_at q (at k)) ≡ false
  Searches (some i) =
      (k : ℕ) × (k < n)
      × (i ≡ at k)
      × (same_request q p (entry_at q i) ≡ true)
      × ((j : ℕ) → j < k → same_request q p (entry_at q (at j)) ≡ false)

module _ (q : PacketQueue) (p : Packet) where
  shifts :
      (n : ℕ) (at : ℕ → ℕ) (o : Option ℕ)
      → same_request q p (entry_at q (at 0)) ≡ false
      → Searches q p n (λ k. at (suc k)) o
      → Searches q p (suc n) at o
  shifts n at none e h = elim [ zero ↦ λ _. e | suc k ↦ λ l. h k (omega arith) ]
  shifts n at (some i) e (k, l, f, s, h) =
      (suc k, omega arith, f, s, elim [ zero ↦ λ _. e | suc j ↦ λ m. h j (omega arith) ])

  Searches_ext :
      (n : ℕ) (at at' : ℕ → ℕ) (o : Option ℕ)
      → ((k : ℕ) → k < n → at k ≡ at' k)
      → Searches q p n at o
      → Searches q p n at' o
  Searches_ext n at at' none e h =
      λ k l. ap (λ i. same_request q p (entry_at q i)) (sym (e k l)) ∙ h k l
  Searches_ext n at at' (some i) e (k, l, f, s, h) = (
    k,
    l,
    f ∙ e k l,
    s,
    λ j m. ap (λ i. same_request q p (entry_at q i)) (sym (e j (omega arith))) ∙ h j m,
  )

  -- One loop of the search.
  scan-Searches : (rounds from : ℕ) → Searches q p rounds (λ k. from + k) (scan q p from rounds)
  unfolding scan
  scan-Searches zero from = λ k l. absurd (omega arith)
  scan-Searches (suc rounds) from = elim (Bool-cases (same_request q p (entry_at q from))) [
    | inl e ↦ rw e (0, omega arith, omega arith, e, λ j l. absurd (omega arith))
    | inr e ↦ rw e (
        shifts rounds (λ k. from + k) (scan q p (from + 1) rounds)
          (ap (λ i. same_request q p (entry_at q i)) (omega arith) ∙ e)
          (Searches_ext rounds (λ k. from + 1 + k) (λ k. from + suc k) (scan q p (from + 1) rounds)
            (λ k _. omega arith) (scan-Searches rounds (from + 1))))
  ]

  -- Two loops, one after the other.
  both :
      (m n : ℕ) (at : ℕ → ℕ) (a b : Option ℕ)
      → Searches q p m at a
      → Searches q p n (λ k. at (m + k)) b
      → Searches q p (m + n) at (or_else a b)
  both m n at (some i) b (k, l, f, s, h) g = (k, omega arith, f, s, h)
  both m n at none none h g = λ k l. elim (dec_lt k m) [
    | yes before ↦ h k before
    | no after ↦
        ap (λ i. same_request q p (entry_at q (at i))) (omega arith) ∙ g (k - m) (omega arith)
  ]
  both m n at none (some i) h (k, l, f, s, g) = (
    m + k,
    omega arith,
    f,
    s,
    λ j b. elim (dec_lt j m) [
      | yes before ↦ h j before
      | no after ↦
          ap (λ i. same_request q p (entry_at q (at i))) (omega arith) ∙ g (j - m) (omega arith)
    ],
  )

  module _ (v : IsValid q) where
    straight : q.head < q.tail → check_queue q p ≡ scan q p q.head q.occupancy
    unfolding check_queue
    straight l = ground (arith, v.tail_at, v.head_in, v.bounded)

    round_the_end :
        ¬ (q.head < q.tail)
        → 0 < q.occupancy
        → (check_queue q p ≡ or_else (scan q p q.head (q.size - q.head)) (scan q p 0 q.tail))
          × (q.occupancy ≡ q.size - q.head + q.tail)
    unfolding check_queue
    round_the_end l busy = (ground arith, ground (arith, v.tail_at, v.head_in, v.bounded))

    nothing : q.occupancy ≡ 0 → check_queue q p ≡ none
    unfolding check_queue
    nothing e = ground (arith, v.tail_at, v.head_in)

    -- On a valid ring `check_queue` gives the index of the oldest packet that is to the same place
    -- as the given one, and -1 exactly if there is none. The place is the full address in a queue
    -- called L1D_WQ, else the block address.
    pub check_queue-Searches : Searches q p q.occupancy (slot q.head q.size) (check_queue q p)
    check_queue-Searches = elim (dec_lt q.head q.tail) [
      | yes l ↦ rw (straight l) (
          Searches_ext q.occupancy (λ k. q.head + k) (slot q.head q.size)
            (scan q p q.head q.occupancy) (λ k m. ground (arith, v.tail_at, v.head_in, v.bounded))
            (scan-Searches q.occupancy q.head))
      | no l ↦ elim (dec_lt 0 q.occupancy) [
        | yes busy ↦ rw (round_the_end l busy).0 (
            subst
              (λ n.
                Searches q p n (slot q.head q.size)
                  (or_else (scan q p q.head (q.size - q.head)) (scan q p 0 q.tail)))
              (sym (round_the_end l busy).1)
              (both (q.size - q.head) q.tail (slot q.head q.size)
                (scan q p q.head (q.size - q.head)) (scan q p 0 q.tail)
                (Searches_ext (q.size - q.head) (λ k. q.head + k) (slot q.head q.size)
                  (scan q p q.head (q.size - q.head)) (λ k m. ground arith)
                  (scan-Searches (q.size - q.head) q.head))
                (Searches_ext q.tail (λ k. 0 + k) (λ k. slot q.head q.size (q.size - q.head + k))
                  (scan q p 0 q.tail) (λ k m. ground (arith, v.head_in)) (scan-Searches q.tail 0))))
        | no idle ↦ rw (nothing (omega arith)) (λ k m. absurd (omega arith))
      ]
    ]
