-- ===== src/Cache/Mshr/Frame.antt =====
-- `add_mshr`, `update_fill_cycle` and `return_data` of src/cache.cc change nothing but the MSHR.
use speculative_cache_hierar.Prelude.{
  ℕ, ◌≡◌, refl, arith, length, length-set, ◌==◌, some, inl, inr, first, Option-cases,
}
use speculative_cache_hierar.Packet.{Packet}
use speculative_cache_hierar.PacketQueue.{entry_at}
use speculative_cache_hierar.Cache.{Cache}
use speculative_cache_hierar.Cache.Mshr.{add_mshr, update_fill_cycle, return_data}

-- `c'` is `c` with another MSHR.
abbrev pub SameButMshr : Cache → Cache → Type 0
SameButMshr c c' = c' ≡ record c { mshr = c'.mshr }

pub add_mshr-SameButMshr :
    (clock : ℕ → ℕ) (p : Packet) (status : ℕ) (c : Cache)
    → SameButMshr c (add_mshr clock p status c).1
unfolding add_mshr
add_mshr-SameButMshr clock p status c =
    elim (Option-cases (first c.mshr_size (λ i. (entry_at c.mshr i).address == 0))) [
      | inl e ↦ rw (e, add_mshr) refl
      | inr (i, e) ↦ rw (e, add_mshr) refl
    ]

pub update_fill_cycle-SameButMshr : (c : Cache) → SameButMshr c (update_fill_cycle c)
unfolding update_fill_cycle
update_fill_cycle-SameButMshr c = refl

pub return_data-SameButMshr :
    (clock : ℕ → ℕ) (p : Packet) (c c' : Cache) → return_data clock p c ≡ some c' → SameButMshr c c'
unfolding return_data
return_data-SameButMshr clock p c c' e = ground arith

pub add_mshr-length :
    (clock : ℕ → ℕ) (p : Packet) (status : ℕ) (c : Cache)
    → length (add_mshr clock p status c).1.mshr.entry ≡ length c.mshr.entry
unfolding add_mshr
add_mshr-length clock p status c =
    elim (Option-cases (first c.mshr_size (λ i. (entry_at c.mshr i).address == 0))) [
      | inl e ↦ rw (e, add_mshr) refl
      | inr (i, e) ↦ rw (e, add_mshr) (length-set c.mshr.entry i _)
    ]

pub return_data-length :
    (clock : ℕ → ℕ) (p : Packet) (c c' : Cache)
    → return_data clock p c ≡ some c'
    → length c'.mshr.entry ≡ length c.mshr.entry
unfolding return_data update_fill_cycle
return_data-length clock p c c' e = grind (arith, length-set)
