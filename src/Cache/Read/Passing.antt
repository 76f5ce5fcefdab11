-- ===== src/Cache/Read/Passing.antt =====
-- What a merge and a request to the lower level in `CACHE::handle_read` of src/cache.cc do to the blocks
-- that the MSHR waits for.
use speculative_cache_hierar.Prelude.{
  ℕ, ◌<◌, ◌≡◌, ◌∙◌, refl, sym, ap, subst, Option, none, some, List, [], ◌∷◌, arith, length,
  length-set, get_or-set_self, get_or-set_ne, >>=-eq-some,
}
use speculative_cache_hierar.Packet.{Packet, empty_packet}
use speculative_cache_hierar.PacketQueue.{entry_at}
use speculative_cache_hierar.Cache.{Cache, Neighbours, Answer}
use speculative_cache_hierar.Cache.Mshr.{check_mshr, return_data}
use speculative_cache_hierar.Cache.Mshr.Distinct.{
  waits_for, IsDistinct, SameWaits, changed-IsDistinct, return_data-SameWaits, check_mshr-waits_for,
}
use speculative_cache_hierar.Cache.Machine.{Run, Hooks, in_rq}
use speculative_cache_hierar.Cache.Machine.Steps.{entry_in, pass_on, deliver}
use speculative_cache_hierar.Cache.Writeback.{widen, replace_prefetch}
use speculative_cache_hierar.Cache.Read.{join_miss, merge_miss, merge_read_miss}

pub same_some : {A : Type 0} (a b : A) → some a ≡ some b → a ≡ b
same_some a b e = cc

nowhere : {A : Type 0} (a : A) → ¬ (none ≡ some a)
nowhere a e = cc

SameWaits-trans : (a b c : Cache) → SameWaits a b → SameWaits b c → SameWaits a c
SameWaits-trans a b c v w = record {
  size = w.size ∙ v.size;
  len = w.len ∙ v.len;
  same = λ j. w.same j ∙ v.same j;
}

deliver-SameWaits :
    (clock : ℕ → ℕ) (ps : List Packet) (c c' : Cache)
    → length c.mshr.entry ≡ c.mshr_size
    → deliver clock ps c ≡ some c'
    → SameWaits c c'
unfolding deliver
deliver-SameWaits clock [] c c' allocated e =
    subst (SameWaits c) (same_some c c' e) (record { size = refl; len = refl; same = λ j. refl })
deliver-SameWaits clock (p ∷ ps) c c' allocated e =
    let (d, now, rest) = >>=-eq-some (return_data clock p c) (deliver clock ps) e in
    let w = return_data-SameWaits clock p c d allocated now in
    SameWaits-trans c d c' w (deliver-SameWaits clock ps d c' (w.len ∙ allocated ∙ sym w.size) rest)

merge_miss-address : (p e : Packet) → e.address ≡ p.address → (merge_miss p e).address ≡ p.address
unfolding merge_miss join_miss widen replace_prefetch
merge_miss-address p e same = ground arith

pub merge_read_miss-IsDistinct :
    (i m : ℕ) (c : Cache)
    → IsDistinct c
    → check_mshr (entry_in in_rq i c) c ≡ some m
    → IsDistinct (merge_read_miss i m c)
      × (m < c.mshr_size)
      × (waits_for (merge_read_miss i m c) m ≡ (entry_in in_rq i c).address)
unfolding merge_read_miss
merge_read_miss-IsDistinct i m c d found = (
  changed-IsDistinct m c (merge_read_miss i m c) d refl (length-set c.mshr.entry m merged)
      (λ j ne.
        ap (λ (e : Packet). e.address)
          (get_or-set_ne c.mshr.entry m j merged empty_packet (λ q. ne (sym q))))
      (λ j l ne some_block same. d.distinct j m l at.0 ne some_block (same ∙ now ∙ sym at.1)),
  at.0,
  now,
)
  where
    p : Packet
    p = entry_in in_rq i c

    at : (m < c.mshr_size) × (waits_for c m ≡ p.address)
    at = check_mshr-waits_for p c m found

    merged : Packet
    merged = merge_miss p (entry_at c.mshr m)

    now : waits_for (merge_read_miss i m c) m ≡ p.address
    now =
        ap (λ (e : Packet). e.address)
          (get_or-set_self c.mshr.entry m merged empty_packet (omega (arith, d.allocated, at.0)))
        ∙ merge_miss-address p (entry_at c.mshr m) at.1

module _ {W : Type 0} (env : Neighbours W) (hooks : Hooks W) (clock : ℕ → ℕ) (i : ℕ) where
  pub pass_on-SameWaits :
      (add : Packet → W → Option (Answer W)) (r r' : Run W)
      → length r.cache.mshr.entry ≡ r.cache.mshr_size
      → pass_on env hooks clock in_rq i add r ≡ some r'
      → SameWaits r.cache r'.cache
  unfolding pass_on
  pass_on-SameWaits add r r' allocated e =
      let (answer, _, rest) = >>=-eq-some (add (entry_in in_rq i r.cache) r.world) _ e in
      let (c, delivered, end) = >>=-eq-some (deliver clock answer.returned r.cache) _ rest in
      let w = deliver-SameWaits clock answer.returned r.cache c allocated delivered in
      subst (λ (r' : Run W). SameWaits r.cache r'.cache) (same_some _ r' end)
        (record { size = w.size; len = w.len; same = w.same })
