-- ===== src/FastSet/Words.antt =====
-- inc/set.h: the eight words of a large set. The numbers are below `MAX_SIZE`, 512: the source does not test
-- this, and with another it accesses what lies behind the words. Here nothing is written there, and 0 is read.
pub mod Setbit
use speculative_cache_hierar.Prelude.{
  ℕ, zero, suc, ◌+◌, ◌-◌, ◌*◌, ◌/◌, ◌%◌, ◌^◌, Bool, true, false, List, [], ◌∷◌, ◌++◌, ltb, leb,
  ◌==◌, if◌then◌else◌, get_or, set, replicate, bit_or,
}
use speculative_cache_hierar.Prelude.Bits.{bit}

-- `data.bits[x >> 6] |= 1ull << (x & 63)`.
pub setbit : ℕ → List ℕ → List ℕ
setbit x ws = set ws (x / 64) (bit_or (get_or ws (x / 64) 0) (2 ^ (x % 64)))

-- `(data.bits[x >> 6] >> (x & 63)) & 1`.
pub getbit : ℕ → List ℕ → Bool
getbit x ws = bit (get_or ws (x / 64) 0) (x % 64) == 1

-- The words that `memset` leaves: `MAX_SIZE / 64` of them.
abbrev pub no_bits : List ℕ
no_bits = replicate 8 0

pub set_bits : List ℕ → List ℕ → List ℕ
set_bits [] ws = ws
set_bits (x ∷ xs) ws = set_bits xs (setbit x ws)

pub smalltobit : List ℕ → List ℕ
unfolding set_bits
smalltobit vs = set_bits vs no_bits

-- `for (i = 0; i < lim; i++) data.bits[i] |= other.data.bits[i]`, where `lim` is at most 8.
pub or_words : ℕ → List ℕ → List ℕ → List ℕ
or_words zero ws other = ws
or_words (suc lim) [] other = []
or_words (suc lim) (w ∷ ws) [] = w ∷ ws
or_words (suc lim) (w ∷ ws) (v ∷ other) = bit_or w v ∷ or_words lim ws other

-- The inner loop of `expand`: the members among `l .. l + rounds - 1` that are below `n`.
unfoldable pub expand_word : List ℕ → ℕ → ℕ → ℕ → List ℕ
expand_word ws n l zero = []
expand_word ws n l (suc rounds) =
    let rest = expand_word ws n ((l + 1) % 2 ^ 16) rounds in
    if ltb l n then (if getbit l ws then l ∷ rest else rest) else []

-- The outer loop of `expand`, by steps of 64; a word that is 0 is passed over. Its counter has 16 bits,
-- as that of the inner loop. For an `n` of at most `MAX_SIZE` the loop ends, and `n` is enough fuel; for a
-- greater one the source reads past the words.
unfoldable pub expand_bits : List ℕ → ℕ → ℕ → ℕ → List ℕ
expand_bits ws n i zero = []
expand_bits ws n i (suc fuel) =
    let rest = expand_bits ws n ((i + 64) % 2 ^ 16) fuel in
    let here = if get_or ws (i / 64) 0 == 0 then [] else expand_word ws n i 64 in
    if ltb i n then here ++ rest else []
