-- ===== src/Cache/Fill/Isolation.antt =====
-- `CACHE::handle_fill` of src/cache.cc, for a speculative request: what it leaves alone.
use speculative_cache_hierar.Prelude.{
  ℕ, ltb, check, ◌>>◌, ◌≡◌, ◌∙◌, refl, arith, Bool, true, false, if◌then◌else◌, Option, none, some,
  List, ◌==◌, ◌>>=◌,
}
use speculative_cache_hierar.Packet.{Packet, speculative}
use speculative_cache_hierar.Block.{Block}
use speculative_cache_hierar.PacketQueue.{PacketQueue, entry_at}
use speculative_cache_hierar.Cache.{Cache, Neighbours}
use speculative_cache_hierar.Cache.Index.{get_set}
use speculative_cache_hierar.Cache.Lookup.Fills.{fill_cache-speculative}
use speculative_cache_hierar.Cache.Mshr.{update_fill_cycle}
use speculative_cache_hierar.Cache.Mshr.Frame.{add_mshr-SameButMshr, update_fill_cycle-SameButMshr}
use speculative_cache_hierar.Cache.Requests.{add_processed}
use speculative_cache_hierar.Cache.Machine.{Run, Hooks, in_mshr}
use speculative_cache_hierar.Cache.Machine.Steps.{
  on_cache, try_cache, entry_in, count_spec_miss, remove_entry, report, report_up,
}
use speculative_cache_hierar.Cache.Fill.{
  mark_store, read_block, count_latency, release, complete, retry, store_speculative,
  speculative_way, fill_speculative, fill_entry, handle_fill,
}

-- The blocks of the normal hierarchy and the queues of requests.
abbrev pub public_state :
    Cache → List (List Block) × PacketQueue × PacketQueue × PacketQueue × PacketQueue
public_state c = (c.block, c.rq, c.wq, c.pq, c.cq)

abbrev pub Isolates : Cache → Cache → Type 0
Isolates c c' = public_state c' ≡ public_state c

mark_store-Isolates :
    (s w type : ℕ) (c c' : Cache) → mark_store speculative s w type c ≡ some c' → Isolates c c'
unfolding mark_store
mark_store-Isolates s w type c c' e = ground arith

read_block-Isolates :
    (s w i : ℕ) (c c' : Cache) → read_block speculative s w i c ≡ some c' → Isolates c c'
unfolding read_block
read_block-Isolates s w i c c' e = ground arith

remove_entry-Isolates : (i : ℕ) (c c' : Cache) → remove_entry in_mshr i c ≡ some c' → Isolates c c'
unfolding remove_entry
remove_entry-Isolates i c c' e = ground arith

store_speculative-Isolates :
    (s w : ℕ) (p : Packet) (c c' : Cache) → store_speculative s w p c ≡ some c' → Isolates c c'
unfolding store_speculative
store_speculative-Isolates s w p c c' e = ground (arith, fill_cache-speculative s w p c c')

count_latency-Isolates :
    (warmup_complete : ℕ → Bool) (clock : ℕ → ℕ) (p : Packet) (c : Cache)
    → Isolates c (count_latency warmup_complete clock p c)
unfolding count_latency
count_latency-Isolates warmup_complete clock p c = ground arith

release-Isolates : (i : ℕ) (c c' : Cache) → release i c ≡ some c' → Isolates c c'
unfolding release remove_entry
release-Isolates i c c' e = ground arith

retry-Isolates : (clock : ℕ → ℕ) (i : ℕ) (c c' : Cache) → retry clock i c ≡ some c' → Isolates c c'
unfolding retry remove_entry
retry-Isolates clock i c c' e = grind (arith, add_mshr-SameButMshr)

module _ {W : Type 0} (env : Neighbours W) (hooks : Hooks W) (clock : ℕ → ℕ) where
  report-Isolates :
      (i : ℕ) (r r' : Run W)
      → report env hooks clock in_mshr i r ≡ some r'
      → Isolates r.cache r'.cache
  unfolding report add_processed
  report-Isolates i r r' e = ground arith

  report_up-Isolates :
      (i : ℕ) (r r' : Run W)
      → report_up env hooks clock in_mshr i r ≡ some r'
      → Isolates r.cache r'.cache
  unfolding report_up
  report_up-Isolates i r r' e = ground arith

  -- Two steps, one after the other; one of two; and one on the cache.
  sequence-Isolates :
      (m : Option (Run W)) (f : Run W → Option (Run W)) (r r'' : Run W)
      → ((r' : Run W) → m ≡ some r' → Isolates r.cache r'.cache)
      → ((r' : Run W) → f r' ≡ some r'' → Isolates r'.cache r''.cache)
      → (m >>= f) ≡ some r''
      → Isolates r.cache r''.cache
  sequence-Isolates none f r r'' h k e = cc
  sequence-Isolates (some r') f r r'' h k e = k r' e ∙ h r' refl

  either-Isolates :
      (b : Bool) (m m' : Option (Run W)) (r : Run W)
      → ((r' : Run W) → m ≡ some r' → Isolates r.cache r'.cache)
      → ((r' : Run W) → m' ≡ some r' → Isolates r.cache r'.cache)
      → (r' : Run W) → (if b then m else m') ≡ some r'
      → Isolates r.cache r'.cache
  either-Isolates true m m' r h h' = h
  either-Isolates false m m' r h h' = h'

  try_cache-Isolates :
      (f : Cache → Option Cache) (r : Run W)
      → ((c : Cache) → f r.cache ≡ some c → Isolates r.cache c)
      → (r' : Run W) → try_cache f r ≡ some r'
      → Isolates r.cache r'.cache
  try_cache-Isolates f r h r' e = grind (arith, h)

  complete-Isolates :
      (i s w : ℕ) (r r' : Run W)
      → complete env hooks clock i speculative s w r ≡ some r'
      → Isolates r.cache r'.cache
  unfolding complete
  complete-Isolates i s w r r' =
      sequence-Isolates _ _ r r'
        (try_cache-Isolates (λ c. mark_store speculative s w (entry_in in_mshr i c).type c) r
          (mark_store-Isolates s w _ r.cache))
        (λ r. sequence-Isolates _ _ r r' (report_up-Isolates i r) (λ r.
          sequence-Isolates _ _ r r'
            (try_cache-Isolates (read_block speculative s w i) r
              (read_block-Isolates s w i r.cache))
            (λ r. sequence-Isolates _ _ r r' (report-Isolates i r) (λ r.
              try_cache-Isolates
                (λ c.
                  release i (count_latency hooks.warmup_complete clock (entry_in in_mshr i c) c))
                r (released r) r'))))
    where
      released :
          (r : Run W) (c : Cache)
          → release i
              (count_latency hooks.warmup_complete clock (entry_in in_mshr i r.cache) r.cache)
            ≡ some c
          → Isolates r.cache c
      released r c e =
          release-Isolates i _ c e
          ∙ count_latency-Isolates hooks.warmup_complete clock (entry_in in_mshr i r.cache) r.cache

  fill_speculative-Isolates :
      (i : ℕ) (r r' : Run W)
      → fill_speculative env hooks clock i r ≡ some r'
      → Isolates r.cache r'.cache
  unfolding fill_speculative
  fill_speculative-Isolates i r r' =
      sequence-Isolates _ _ r r'
        (either-Isolates (w == r.cache.num_way_spec) _ _ r
          (try_cache-Isolates (retry clock i) r (retry-Isolates clock i r.cache))
          (λ r'.
            sequence-Isolates _ _ r r'
              (try_cache-Isolates (λ c. store_speculative s w p (count_spec_miss in_mshr i c)) r
                (store_speculative-Isolates s w p (count_spec_miss in_mshr i r.cache)))
              (λ r. complete-Isolates i s w r r')))
        (λ r. filled_run r r')
    where
      p : Packet
      p = entry_in in_mshr i r.cache

      s : ℕ
      s = get_set p.address speculative r.cache

      w : ℕ
      w = speculative_way p s r.cache

      filled_run :
          (r r' : Run W) → some (on_cache update_fill_cycle r) ≡ some r' → Isolates r.cache r'.cache
      filled_run r r' e = grind (arith, update_fill_cycle-SameButMshr r.cache)

  -- The blocks of the normal hierarchy and the requests that are queued stay as they are when the
  -- data of a speculative request arrives, whether it is stored or has to wait for a way.
  pub handle_fill_speculative :
      (r r' : Run W)
      → (entry_at r.cache.mshr r.cache.mshr.next_fill_index).is_speculative ≡ speculative
      → handle_fill env hooks clock r ≡ some r'
      → Isolates r.cache r'.cache
  unfolding handle_fill fill_entry
  handle_fill_speculative r r' s = rw s (
      either-Isolates _ _ _ r (λ r' e. kept r' e)
        (either-Isolates _ _ _ r (λ r'. fill r') (λ r' e. kept r' e)) r')
    where
      q : PacketQueue
      q = r.cache.mshr

      kept : (r' : Run W) → some r ≡ some r' → Isolates r.cache r'.cache
      kept r' e = ground arith

      fill :
          (r' : Run W)
          → (check (ltb q.next_fill_index q.size)
              >> fill_speculative env hooks clock q.next_fill_index r)
            ≡ some r'
          → Isolates r.cache r'.cache
      fill r' e = ground (arith, fill_speculative-Isolates q.next_fill_index r r')
