-- ===== src/Cache/Mshr/Distinct.antt =====
-- No two entries of the MSHR wait for one block: what `add_mshr`, `return_data` and a merge of src/cache.cc
-- do to that.
use speculative_cache_hierar.Prelude.{
  ℕ, ◌<◌, ◌≡◌, ◌≢◌, ◌∙◌, sym, ap, subst, inl, inr, none, some, arith, length, ℕ_discrete,
  first-cases, ◌==◌,
}
use speculative_cache_hierar.Packet.{Packet}
use speculative_cache_hierar.PacketQueue.{entry_at}
use speculative_cache_hierar.Cache.{Cache}
use speculative_cache_hierar.Cache.Mshr.{check_mshr, add_mshr, return_data}
use speculative_cache_hierar.Cache.Mshr.Frame.{
  add_mshr-SameButMshr, return_data-SameButMshr, add_mshr-length, return_data-length,
}
use speculative_cache_hierar.Cache.Mshr.Entries.{add_mshr-check_mshr, return_data_lem}

abbrev pub waits_for : Cache → ℕ → ℕ
waits_for c j = (entry_at c.mshr j).address

pub record IsDistinct (c : Cache) : Type 0 where
  pub allocated : length c.mshr.entry ≡ c.mshr_size
  pub distinct :
      (j k : ℕ)
      → j < c.mshr_size
      → k < c.mshr_size
      → j ≢ k
      → waits_for c j ≢ 0
      → waits_for c j ≢ waits_for c k

-- Only the address of entry `i` may have changed, and it is now one that no other entry has.
pub changed-IsDistinct :
    (i : ℕ) (c c' : Cache)
    → IsDistinct c
    → c'.mshr_size ≡ c.mshr_size
    → length c'.mshr.entry ≡ length c.mshr.entry
    → ((j : ℕ) → j ≢ i → waits_for c' j ≡ waits_for c j)
    → ((j : ℕ) → j < c.mshr_size → j ≢ i → waits_for c j ≢ 0 → waits_for c j ≢ waits_for c' i)
    → IsDistinct c'
changed-IsDistinct i c c' d size len others fresh = record {
  allocated = len ∙ d.allocated ∙ sym size;
  distinct = λ j k lj lk ne some_block same. elim (ℕ_discrete j i) [
    | yes ej ↦
        fresh k (omega (arith, size)) (λ ek. ne (ej ∙ sym ek))
          (omega (arith, others k (λ ek. ne (ej ∙ sym ek)), same))
          (sym (others k (λ ek. ne (ej ∙ sym ek))) ∙ sym same ∙ ap (waits_for c') ej)
    | no nj ↦ elim (ℕ_discrete k i) [
      | yes ek ↦
          fresh j (omega (arith, size)) nj (omega (arith, others j nj))
            (sym (others j nj) ∙ same ∙ ap (waits_for c') ek)
      | no nk ↦
          d.distinct j k (omega (arith, size)) (omega (arith, size)) ne (omega (arith, others j nj))
            (omega (arith, others j nj, others k nk))
    ]
  ];
}

nowhere : {A : Type 0} (a : A) → ¬ (none ≡ some a)
nowhere a e = cc

-- The same blocks are waited for, entry by entry.
pub record SameWaits (c c' : Cache) : Type 0 where
  pub size : c'.mshr_size ≡ c.mshr_size
  pub len : length c'.mshr.entry ≡ length c.mshr.entry
  pub same : (j : ℕ) → waits_for c' j ≡ waits_for c j

pub SameWaits-IsDistinct : (c c' : Cache) → SameWaits c c' → IsDistinct c → IsDistinct c'
SameWaits-IsDistinct c c' w d = record {
  allocated = w.len ∙ d.allocated ∙ sym w.size;
  distinct = λ j k lj lk ne some_block same.
      d.distinct j k (omega (arith, w.size)) (omega (arith, w.size)) ne (omega (arith, w.same j))
        (sym (w.same j) ∙ same ∙ w.same k);
}

-- An answer leaves each entry its block.
pub return_data-SameWaits :
    (clock : ℕ → ℕ) (p : Packet) (c c' : Cache)
    → length c.mshr.entry ≡ c.mshr_size
    → return_data clock p c ≡ some c'
    → SameWaits c c'
return_data-SameWaits clock p c c' allocated e = elim (return_data_lem clock p c allocated) [
  | inl (stops, _) ↦ absurd (nowhere c' (sym stops ∙ e))
  | inr (i, first_at, c'', returns, changes, _, _) ↦
      let q : c'' ≡ c' = same_result c'' (sym returns ∙ e) in
      record {
        size = ap (λ (c : Cache). c.mshr_size) (return_data-SameButMshr clock p c c' e);
        len = return_data-length clock p c c' e;
        same = λ j. ap (λ c. waits_for c j) (sym q) ∙ (elim (ℕ_discrete j i) [
          | yes ej ↦
              ap (waits_for c'') ej
              ∙ ap (λ (p : Packet). p.address) changes.0
              ∙ ap (waits_for c) (sym ej)
          | no nj ↦ ap (λ (p : Packet). p.address) (changes.1 j nj)
        ]);
      }
]
  where
    same_result : (c'' : Cache) → some c'' ≡ some c' → c'' ≡ c'
    same_result c'' q = cc

absent_everywhere :
    (p : Packet) (c : Cache)
    → check_mshr p c ≡ none
    → (j : ℕ) → j < c.mshr_size
    → waits_for c j ≢ p.address
unfolding check_mshr
absent_everywhere p c e j l =
    elim (first-cases c.mshr_size (λ i. (entry_at c.mshr i).address == p.address)) [
      | inl (_, h) ↦ ground (arith, h j l)
      | inr (i, q, _, _, _) ↦ absurd (nowhere i (sym e ∙ q))
    ]

-- A new miss for a block that no entry waits for: with a free entry, one waits for it afterwards.
pub add_mshr-IsDistinct :
    (clock : ℕ → ℕ) (p : Packet) (status : ℕ) (c : Cache)
    → IsDistinct c
    → p.address ≢ 0
    → check_mshr p c ≡ none
    → (free : (k : ℕ) × (k < c.mshr_size) × (waits_for c k ≡ 0))
    → let c' = (add_mshr clock p status c).1 in
      IsDistinct c'
      × (c'.mshr_size ≡ c.mshr_size)
      × ((k : ℕ) × (k < c.mshr_size) × (waits_for c' k ≡ p.address))
add_mshr-IsDistinct clock p status c d somewhere absent free =
    elim (add_mshr-check_mshr clock p c d.allocated status somewhere absent) [
      | inr (full, _) ↦ absurd (full free.0 free.1 free.2)
      | inl (k, first_free, changes, found) ↦ (
        changed-IsDistinct k c _ d size (add_mshr-length clock p status c)
            (λ j ne. ap (λ (p : Packet). p.address) (changes.1 j ne))
            (λ j l ne some_block same.
              absent_everywhere p c absent j l (same ∙ ap (λ (p : Packet). p.address) changes.0)),
        size,
        (k, first_free.0, ap (λ (p : Packet). p.address) changes.0),
      )
    ]
  where
    size : (add_mshr clock p status c).1.mshr_size ≡ c.mshr_size
    size = ap (λ (c : Cache). c.mshr_size) (add_mshr-SameButMshr clock p status c)

-- Where `check_mshr` finds an entry, it waits for the block.
pub check_mshr-waits_for :
    (p : Packet) (c : Cache) (m : ℕ)
    → check_mshr p c ≡ some m
    → (m < c.mshr_size) × (waits_for c m ≡ p.address)
unfolding check_mshr
check_mshr-waits_for p c m found =
    elim (first-cases c.mshr_size (λ j. (entry_at c.mshr j).address == p.address)) [
      | inl (e, _) ↦ absurd (nowhere m (sym e ∙ found))
      | inr (k, e, l, waits, _) ↦
          subst (λ m. (m < c.mshr_size) × (waits_for c m ≡ p.address))
            (same_index k (sym e ∙ found)) (l, ground arith)
    ]
  where
    same_index : (k : ℕ) → some k ≡ some m → k ≡ m
    same_index k q = cc
