-- ===== src/Pipeline/Ring.antt =====
-- Rings of the core as lists: an array, a head, and the members from the head on. A slot that is not
-- in use holds the value that the array was filled with.
use speculative_cache_hierar.Prelude.{
  ℕ, zero, suc, ◌^◌, ◌≤◌, ◌<◌, ◌≡◌, ◌≢◌, ◌∙◌, refl, sym, ap, List, [], ◌∷◌, ◌++◌, arith, length,
  length-append, length-set, length-replicate, get_or, get_or-set_self, get_or-set_ne,
  get_or-replicate, set, replicate, dec_lt, ℕ_discrete,
}
use speculative_cache_hierar.PacketQueue.Ring.{slot, slot-injective, slot-lt, slot-suc}
use speculative_cache_hierar.ReadyList.{next, next_eq}

pub record RingOf {ℓ} {A : Type ℓ} (d : A) (size head : ℕ) (slots : List A) (xs : List A)
    : Type ℓ where
  pub positive : 0 < size
  pub small : size < 2 ^ 32
  pub stored : length slots ≡ size
  pub head_in : head < size
  pub bounded : length xs ≤ size
  pub held : (k : ℕ) → k < length xs → get_or slots (slot head size k) d ≡ get_or xs k d
  pub unused : (k : ℕ) → length xs ≤ k → k < size → get_or slots (slot head size k) d ≡ d

pub next-slot :
    (head size k : ℕ)
    → size < 2 ^ 32
    → head < size
    → k < size
    → next size (slot head size k) ≡ slot head size (suc k)
next-slot head size k s h l = ground arith

pub next_eq-slot :
    (head size k : ℕ)
    → size < 2 ^ 32
    → head < size
    → k < size
    → next_eq size (slot head size k) ≡ slot head size (suc k)
next_eq-slot head size k s h l = ground arith

pub get_or-append_left {ℓ} :
    {A : Type ℓ} (xs ys : List A) (k : ℕ) (d : A)
    → k < length xs
    → get_or (xs ++ ys) k d ≡ get_or xs k d
get_or-append_left [] ys k d h = absurd (omega arith)
get_or-append_left (x ∷ xs) ys zero d h = refl
get_or-append_left (x ∷ xs) ys (suc k) d h = get_or-append_left xs ys k d (omega arith)

pub get_or-append_last {ℓ} :
    {A : Type ℓ} (xs : List A) (x d : A) → get_or (xs ++ x ∷ []) (length xs) d ≡ x
get_or-append_last [] x d = refl
get_or-append_last (y ∷ xs) x d = get_or-append_last xs x d

module _ {ℓ} {A : Type ℓ} (d : A) (size head : ℕ) (slots : List A) where
  -- With room, a member is put behind the last.
  pub push-RingOf :
      (xs : List A) (x : A)
      → RingOf d size head slots xs
      → length xs < size
      → RingOf d size head (set slots (slot head size (length xs)) x) (xs ++ x ∷ [])
  push-RingOf xs x r room = record {
    positive = r.positive;
    small = r.small;
    stored = length-set slots _ x ∙ r.stored;
    head_in = r.head_in;
    bounded = omega (arith, length-append {ℓ} xs (x ∷ []));
    held = held;
    unused = unused;
  }
    where
      other :
          (k : ℕ)
          → k < size
          → k ≢ length xs
          → get_or (set slots (slot head size (length xs)) x) (slot head size k) d
            ≡ get_or slots (slot head size k) d
      other k l ne =
          get_or-set_ne slots _ _ x d
            (slot-injective head size (length xs) k r.head_in room l (λ e. ne (sym e)))

      held :
          (k : ℕ)
          → k < length (xs ++ x ∷ [])
          → get_or (set slots (slot head size (length xs)) x) (slot head size k) d
            ≡ get_or (xs ++ x ∷ []) k d
      held k l = elim (ℕ_discrete k (length xs)) [
        | yes e ↦ rw e (
            get_or-set_self slots _ x d (rw r.stored (slot-lt head size (length xs) r.head_in room))
            ∙ sym (get_or-append_last xs x d))
        | no ne ↦
            let in_xs : k < length xs = omega (arith, length-append {ℓ} xs (x ∷ [])) in
            other k (omega arith) ne
            ∙ r.held k in_xs
            ∙ sym (get_or-append_left xs (x ∷ []) k d in_xs)
      ]

      unused :
          (k : ℕ)
          → length (xs ++ x ∷ []) ≤ k
          → k < size
          → get_or (set slots (slot head size (length xs)) x) (slot head size k) d ≡ d
      unused k a b =
          let past : length xs < k = omega (arith, length-append {ℓ} xs (x ∷ [])) in
          other k b (λ e. absurd (omega arith)) ∙ r.unused k (omega arith) b

  -- The first member is reset, and the head moves on.
  pub pop-RingOf :
      (x : A) (xs : List A)
      → RingOf d size head slots (x ∷ xs)
      → RingOf d size (slot head size 1) (set slots head d) xs
  pop-RingOf x xs r = record {
    positive = r.positive;
    small = r.small;
    stored = length-set slots head d ∙ r.stored;
    head_in = inside;
    bounded = omega (arith, r.bounded);
    held = λ k l.
        moved k (omega (arith, r.bounded)) (λ _. omega (arith, r.bounded))
        ∙ r.held (suc k) (omega arith);
    unused = unused;
  }
    where
      inside : slot head size 1 < size
      inside = ground (arith, r.head_in, r.positive)

      moved :
          (k : ℕ)
          → k < size
          → (Unit {0} → suc k < size)
          → get_or (set slots head d) (slot (slot head size 1) size k) d
            ≡ get_or slots (slot head size (suc k)) d
      moved k l m =
          ap (λ i. get_or (set slots head d) i d) (slot-suc head size k r.head_in l)
          ∙ get_or-set_ne slots head _ d d (λ e.
            slot-injective head size 0 (suc k) r.head_in r.positive (m tt) (omega arith)
              (ground (arith, r.head_in) ∙ e))

      unused :
          (k : ℕ)
          → length xs ≤ k
          → k < size
          → get_or (set slots head d) (slot (slot head size 1) size k) d ≡ d
      unused k a b = elim (dec_lt (suc k) size) [
        | yes l ↦ moved k b (λ _. l) ∙ r.unused (suc k) (omega arith) l
        | no last ↦
            ap (λ i. get_or (set slots head d) i d) (ground (arith, r.head_in, r.positive))
            ∙ get_or-set_self slots head d d (rw r.stored r.head_in)
      ]

  -- What the first slot holds.
  pub RingOf-head :
      (x : A) (xs : List A) → RingOf d size head slots (x ∷ xs) → get_or slots head d ≡ x
  RingOf-head x xs r =
      ap (λ i. get_or slots i d) (ground (arith, r.head_in)) ∙ r.held 0 (omega arith)

  pub RingOf-nil : RingOf d size head slots [] → get_or slots head d ≡ d
  RingOf-nil r =
      ap (λ i. get_or slots i d) (ground (arith, r.head_in)) ∙ r.unused 0 (omega arith) r.positive

  -- The slot behind the last member.
  pub RingOf-tail :
      (xs : List A)
      → RingOf d size head slots xs
      → length xs < size
      → get_or slots (slot head size (length xs)) d ≡ d
  RingOf-tail xs r room = r.unused (length xs) (omega arith) room

pub replicate-RingOf {ℓ} :
    {A : Type ℓ} (d : A) (size : ℕ)
    → 0 < size
    → size < 2 ^ 32
    → RingOf d size 0 (replicate size d) []
replicate-RingOf d size h l = record {
  positive = h;
  small = l;
  stored = length-replicate size d;
  head_in = h;
  bounded = omega arith;
  held = λ k m. absurd (omega arith);
  unused = λ k _ _. get_or-replicate size (slot 0 size k) d;
}
