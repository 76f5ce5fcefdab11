-- ===== src/Cache/Index/Bounds.antt =====
-- `get_set` of src/cache.cc stays inside the cache.
use speculative_cache_hierar.Prelude.{
  ℕ, zero, suc, ◌-◌, ◌/◌, ◌%◌, ◌^◌, ◌≤◌, ◌<◌, ◌≡◌, ◌∙◌, refl, ap, arith, bit_and, ◌==◌,
  if◌then◌else◌,
}
use native.Mathlib.Nat.{pow-suc, mod-lt}
use speculative_cache_hierar.Prelude.Bits.{bit_and-mask, pow-pos}
use speculative_cache_hierar.Packet.{Hierarchy, normal, speculative}
use speculative_cache_hierar.Cache.{Cache}
use speculative_cache_hierar.Cache.Index.{halvings, lg2, masked, get_set}

halvings-zero : (fuel : ℕ) → halvings fuel 0 ≡ 0
unfolding halvings
halvings-zero zero = refl
halvings-zero (suc fuel) = refl

halvings-pos : (fuel m : ℕ) → 0 < m → m ≤ fuel → 0 < halvings fuel m
unfolding halvings
halvings-pos zero m h l = absurd (omega arith)
halvings-pos (suc fuel) m h l = ground arith

-- One round more doubles the power.
pow-step : (h m : ℕ) → 0 < h → 2 ^ (h - 1) ≤ m / 2 → 2 ^ (suc h - 1) ≤ m
pow-step (suc h) m p l = omega (
  arith,
  ap (λ (n : ℕ). 2 ^ n) (pred_lem (suc h)),
  ap (λ (n : ℕ). 2 ^ n) (pred_lem h),
  pow-suc 2 h,
)
  where
    pred_lem : (n : ℕ) → suc n - 1 ≡ n
    pred_lem n = omega arith
pow-step zero m p l = absurd (omega arith)

halvings-le : (fuel m : ℕ) → 0 < m → m ≤ fuel → 2 ^ (halvings fuel m - 1) ≤ m
unfolding halvings
halvings-le zero m h l = absurd (omega arith)
halvings-le (suc fuel) zero h l = absurd (omega arith)
halvings-le (suc fuel) (suc zero) h l = rw (halvings-zero fuel) (omega arith)
halvings-le (suc fuel) (suc (suc m)) h l = ground (
  arith,
  pow-step (halvings fuel (suc (suc m) / 2)) (suc (suc m))
      (halvings-pos fuel (suc (suc m) / 2) (omega arith) (omega arith))
      (halvings-le fuel (suc (suc m) / 2) (omega arith) (omega arith)),
)

half_lem : (k : ℕ) → 2 ^ suc k / 2 ≡ 2 ^ k
half_lem k = omega (arith, pow-suc 2 k)

halvings-pow : (k fuel : ℕ) → 2 ^ k ≤ fuel → halvings fuel (2 ^ k) ≡ suc k
unfolding halvings
halvings-pow k zero l = absurd (omega (arith, pow-pos k))
halvings-pow zero (suc fuel) l = ap suc (halvings-zero fuel)
halvings-pow (suc k) (suc fuel) l = ground (
  arith,
  pow-pos (suc k),
  ap (halvings fuel) (half_lem k),
  halvings-pow k fuel (omega (arith, pow-suc 2 k, pow-pos k)),
)

lg2-le : (n : ℕ) → 0 < n → 2 ^ lg2 n ≤ n
unfolding lg2
lg2-le n h = halvings-le n n h (omega arith)

pub lg2-pow : (k : ℕ) → lg2 (2 ^ k) ≡ k
unfolding lg2
lg2-pow k = omega (arith, halvings-pow k (2 ^ k))

masked-lt : (address n : ℕ) → 0 < n → masked address n < n
unfolding masked
masked-lt address n h =
    omega (arith, bit_and-mask (lg2 n) address, mod-lt address (pow-pos (lg2 n)), lg2-le n h)

masked-pow : (address k n : ℕ) → n ≡ 2 ^ k → masked address n ≡ address % 2 ^ k
unfolding masked
masked-pow address k n e =
    ap (λ j. bit_and address (2 ^ j - 1)) (ap lg2 e ∙ lg2-pow k) ∙ bit_and-mask k address

-- The sets of a hierarchy.
abbrev pub sets : Hierarchy → Cache → ℕ
sets normal c = c.num_set
sets speculative c = c.num_set_spec

-- In a hierarchy with at least one set, `get_set` names one of them, whatever their number.
pub get_set-lt :
    (address : ℕ) (h : Hierarchy) (c : Cache) → 0 < sets h c → get_set address h c < sets h c
unfolding get_set
get_set-lt address normal c l = masked-lt address c.num_set l
get_set-lt address speculative c l = ground (arith, masked-lt address c.num_set_spec l)

-- With a power of two as the number of sets, `get_set` takes the low bits of the address.
pub get_set-pow :
    (address k : ℕ) (h : Hierarchy) (c : Cache)
    → sets h c ≡ 2 ^ k
    → get_set address h c ≡ address % 2 ^ k
unfolding get_set
get_set-pow address k normal c e = masked-pow address k c.num_set e
get_set-pow address k speculative c e =
    ground (arith, masked-pow address k c.num_set_spec e, pow-pos k)

-- The configuration of a cache, which no write to its blocks or queues changes.
abbrev pub SameGeometry : Cache → Cache → Type 0
SameGeometry c c' =
    (c'.num_set ≡ c.num_set)
    × (c'.num_way ≡ c.num_way)
    × (c'.num_set_spec ≡ c.num_set_spec)
    × (c'.num_way_spec ≡ c.num_way_spec)

pub get_set-SameGeometry :
    (a : ℕ) (h : Hierarchy) (c c' : Cache) → SameGeometry c c' → get_set a h c' ≡ get_set a h c
unfolding get_set
get_set-SameGeometry a normal c c' g = ap (masked a) g.0
get_set-SameGeometry a speculative c c' g = ap (λ n. if n == 0 then 0 else masked a n) g.2

pub sets-SameGeometry : (h : Hierarchy) (c c' : Cache) → SameGeometry c c' → sets h c' ≡ sets h c
sets-SameGeometry normal c c' g = g.0
sets-SameGeometry speculative c c' g = g.2
