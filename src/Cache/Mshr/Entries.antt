-- ===== src/Cache/Mshr/Entries.antt =====
-- `add_mshr`, `check_mshr` and `return_data` of src/cache.cc: a miss is recorded, found again and
-- answered.
use speculative_cache_hierar.Prelude.{
  ℕ, ◌<◌, ◌≡◌, ◌≢◌, ◌⊎◌, ◌∙◌, refl, sym, ap, inl, inr, true, false, none, some, arith, ◌==◌, ◌+◌,
  ◌%◌, ◌^◌, ltb, if◌then◌else◌, length, set, get_or, inc_u32, get_or-set_self, get_or-set_ne,
  first-cases, first-at,
}
use speculative_cache_hierar.Packet.{Packet, empty_packet, completed}
use speculative_cache_hierar.PacketQueue.{entry_at}
use speculative_cache_hierar.Cache.{Cache}
use speculative_cache_hierar.Cache.Mshr.{
  check_mshr, stamped, add_mshr, answered, update_fill_cycle, return_data,
}
use speculative_cache_hierar.Cache.Mshr.Fills.{Earliest, update_fill_cycle-Earliest}

-- Entry `i` alone has changed, to `p`.
abbrev pub Changes : ℕ → Packet → Cache → Cache → Type 0
Changes i p c c' =
    (entry_at c'.mshr i ≡ p) × ((j : ℕ) → j ≢ i → entry_at c'.mshr j ≡ entry_at c.mshr j)

-- The first of the entries that have the address.
abbrev pub FirstAt : ℕ → ℕ → Cache → Type 0
FirstAt a i c =
    (i < c.mshr_size)
    × ((entry_at c.mshr i).address ≡ a)
    × ((j : ℕ) → j < i → (entry_at c.mshr j).address ≢ a)

nowhere : (i : ℕ) → ¬ (none ≡ some i)
nowhere i e = cc

differs : (a b : ℕ) → (a == b) ≡ false → a ≢ b
differs a b e = ground arith

module _ (clock : ℕ → ℕ) (p : Packet) (c : Cache) where
  -- The outcomes of a new miss: recorded, or lost.
  abbrev pub Records : ℕ → Type 0
  Records status =
      ((i : ℕ) × FirstAt 0 i c
        × Changes i (record (stamped clock p) { returned = status }) c (add_mshr clock p status c).1
        × (check_mshr p (add_mshr clock p status c).1 ≡ some i))
      ⊎ (((i : ℕ) → i < c.mshr_size → (entry_at c.mshr i).address ≢ 0)
          × ((add_mshr clock p status c).1 ≡ c))

  -- Entry `i` as it is when the packet has come back: with its data, and due after the latency of the
  -- cache, counted from now or from the entry's cycle, whichever is later.
  abbrev pub completed_by : ℕ → Packet
  completed_by i =
      let e = entry_at c.mshr i in
      let now = clock p.cpu in
      record e {
        returned = completed;
        payload = p.payload;
        pf_metadata = p.pf_metadata;
        event_cycle =
            if ltb e.event_cycle now
            then (now + c.latency) % 2 ^ 64
            else (e.event_cycle + c.latency) % 2 ^ 64;
      }

  -- The outcomes of a return: no entry waits, or one is completed.
  abbrev pub Returns : Type 0
  Returns =
      ((return_data clock p c ≡ none)
        × ((i : ℕ) → i < c.mshr_size → (entry_at c.mshr i).address ≢ p.address))
      ⊎ ((i : ℕ) × FirstAt p.address i c
          × (c' : Cache) × (return_data clock p c ≡ some c')
          × Changes i (completed_by i) c c'
          × (c'.mshr.num_returned ≡ (c.mshr.num_returned + 1) % 2 ^ 32)
          × Earliest c'.mshr c.mshr.size c.mshr.size c'.mshr.next_fill_cycle
              c'.mshr.next_fill_index)

module _ (clock : ℕ → ℕ) (p : Packet) (c : Cache)
    (allocated : length c.mshr.entry ≡ c.mshr_size) where
  -- With an entry array of `MSHR_SIZE`, a packet of an address that is not 0, for which no entry
  -- waits, goes to the first free entry, as it is but for its time and status, and `check_mshr`
  -- then finds it there. With no free entry the packet is lost: the cache stays as it is.
  pub add_mshr-check_mshr :
      (status : ℕ) → p.address ≢ 0 → check_mshr p c ≡ none → Records clock p c status
  unfolding add_mshr check_mshr
  add_mshr-check_mshr status some_address absent =
      elim (first-cases c.mshr_size (λ i. (entry_at c.mshr i).address == 0)) [
        | inl (e, full) ↦
            inr (λ i l. differs (entry_at c.mshr i).address 0 (full i l), rw (e, add_mshr) refl)
        | inr (i, e, l, free, before) ↦ inl (
          i,
          (l, ground arith, λ j lj. differs (entry_at c.mshr j).address 0 (before j lj)),
          rw (e, add_mshr) (now i l, others i),
          rw (e, add_mshr)
              (first-at c.mshr_size (λ j. (get_or_entry i j).address == p.address) i l (hit i l)
                (λ j lj. miss i j l lj)),
        )
      ]
    where
      new_entry : Packet
      new_entry = record (stamped clock p) { returned = status }

      get_or_entry : ℕ → ℕ → Packet
      get_or_entry i j = entry_at (record c.mshr { entry = set c.mshr.entry i new_entry }) j

      now : (i : ℕ) → i < c.mshr_size → get_or_entry i i ≡ new_entry
      now i l = get_or-set_self c.mshr.entry i new_entry empty_packet (omega arith)

      others : (i j : ℕ) → j ≢ i → get_or_entry i j ≡ entry_at c.mshr j
      others i j ne = get_or-set_ne c.mshr.entry i j new_entry empty_packet (λ e. ne (sym e))

      hit : (i : ℕ) → i < c.mshr_size → ((get_or_entry i i).address == p.address) ≡ true
      hit i l = ground (arith, ap (λ (e : Packet). e.address) (now i l))

      not_before : (j : ℕ) → j < c.mshr_size → ((entry_at c.mshr j).address == p.address) ≡ false
      not_before j l =
          elim (first-cases c.mshr_size (λ i. (entry_at c.mshr i).address == p.address)) [
            | inl (_, none_waits) ↦ none_waits j l
            | inr (i, e, _, _, _) ↦ absurd (nowhere i (sym absent ∙ e))
          ]

      miss : (i j : ℕ) → i < c.mshr_size → j < i → ((get_or_entry i j).address == p.address) ≡ false
      miss i j l lj =
          ap (λ (e : Packet). e.address == p.address) (others i j (omega arith))
          ∙ not_before j (omega arith)

  -- With an entry array of `MSHR_SIZE`, `return_data` stops exactly if no entry waits for the
  -- packet. Else the first entry that does is COMPLETED, has the data and the metadata of the packet,
  -- and is due when the latency of the cache has passed from now or from its own cycle, whichever is
  -- later; it is counted, the others stay as they are, and the next fill is the first of those that complete
  -- earliest.
  pub return_data_lem : Returns clock p c
  unfolding return_data check_mshr
  return_data_lem = elim (first-cases c.mshr_size (λ i. (entry_at c.mshr i).address == p.address)) [
    | inl (e, absent) ↦ inl (
      rw (e, return_data) refl,
      λ i l. differs (entry_at c.mshr i).address p.address (absent i l),
    )
    | inr (i, e, l, waits, before) ↦ inr (
      i,
      (l, ground arith, λ j lj. differs (entry_at c.mshr j).address p.address (before j lj)),
      update_fill_cycle (completes i),
      rw (e, return_data) refl,
      (
        ap (λ es. get_or es i empty_packet) (update_fill_cycle-Earliest (completes i)).1
            ∙ get_or-set_self c.mshr.entry i (reply i) empty_packet (omega arith),
        λ j ne.
            ap (λ es. get_or es j empty_packet) (update_fill_cycle-Earliest (completes i)).1
            ∙ get_or-set_ne c.mshr.entry i j (reply i) empty_packet (λ e. ne (sym e)),
      ),
      refl,
      (update_fill_cycle-Earliest (completes i)).0,
    )
  ]
    where
      reply : ℕ → Packet
      reply i = answered clock c.latency p (entry_at c.mshr i)

      completes : ℕ → Cache
      completes i = record c {
        mshr = record c.mshr {
          num_returned = inc_u32 c.mshr.num_returned;
          entry = set c.mshr.entry i (reply i);
        };
      }
