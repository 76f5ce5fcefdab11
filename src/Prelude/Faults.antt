-- ===== src/Prelude/Faults.antt =====
-- Code that can stop at a failed assertion: `none`.
use mathlib.Core.Bool.{Bool, true, false}
use mathlib.Core.Option.{Option, none, some}
use mathlib.Core.Path.{◌≡◌, refl}
use speculative_cache_hierar.Prelude.Tests.{if◌then◌else◌}

infixl 5 ◌>>=◌ ◌>>◌
abbrev pub ◌>>=◌ {ℓ κ} : {A : Type ℓ} {B : Type κ} → Option A → (A → Option B) → Option B
none >>= f = none
some a >>= f = f a

abbrev pub ◌>>◌ {ℓ} : {B : Type ℓ} → Option (Unit {0}) → Option B → Option B
m >> k = m >>= λ _. k

-- `assert(b)`.
abbrev pub check : Bool → Option (Unit {0})
check true = some tt
check false = none

-- `if (b) s = f(s);` for a step that can fail.
abbrev pub when {ℓ} : {S : Type ℓ} → Bool → (S → Option S) → S → Option S
when b f s = if b then f s else some s

pub >>=-eq-some {ℓ κ} :
    {A : Type ℓ} {B : Type κ} (m : Option A) (f : A → Option B) {b : B}
    → (m >>= f) ≡ some b
    → (a : A) × (m ≡ some a) × (f a ≡ some b)
>>=-eq-some none f h = cc
>>=-eq-some (some a) f h = (a, refl, h)

-- Inversion of an assertion that passed.
pub check-eq-some {ℓ} :
    {A : Type ℓ} (b : Bool) (a : A) {a' : A} → (check b >> some a) ≡ some a' → (b ≡ true) × (a ≡ a')
check-eq-some true a h = (refl, cc)
check-eq-some false a h = cc

pub >>=-congruence {ℓ κ} :
    {A : Type ℓ} {B : Type κ} (m : Option A) (f g : A → Option B)
    → ((a : A) → f a ≡ g a)
    → (m >>= f) ≡ (m >>= g)
>>=-congruence none f g h = refl
>>=-congruence (some a) f g h = h a

-- A last step that cannot fail.
pub >>=-eq-some_map {ℓ κ} :
    {A : Type ℓ} {B : Type κ} (m : Option A) (f : A → B) {b : B}
    → (m >>= λ a. some (f a)) ≡ some b
    → (a : A) × (m ≡ some a) × (f a ≡ b)
>>=-eq-some_map none f h = cc
>>=-eq-some_map (some a) f h = (a, refl, cc)
