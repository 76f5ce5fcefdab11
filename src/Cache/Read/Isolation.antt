-- ===== src/Cache/Read/Isolation.antt =====
-- `CACHE::handle_read` of src/cache.cc, for a speculative request that the normal hierarchy does not
-- hold: what it leaves alone.
use speculative_cache_hierar.Prelude.{
  ℕ, ◌≡◌, refl, ap, ap₂, if◌then◌else◌, ◌==◌, >>=-congruence, Option, none, some,
}
use speculative_cache_hierar.Packet.{normal, speculative}
use speculative_cache_hierar.Cache.{Neighbours}
use speculative_cache_hierar.Cache.Index.{get_set}
use speculative_cache_hierar.Cache.Lookup.{check_hit}
use speculative_cache_hierar.Cache.Machine.{Run, Hooks, in_rq}
use speculative_cache_hierar.Cache.Machine.Steps.{entry_in, pass_on, report, report_up}
use speculative_cache_hierar.Cache.Read.{
  walk, new_read_miss, read_miss_step, finish_miss, read_miss, read_data, answer_hit,
  read_speculative_hit, serve_speculative, serve_read,
}

module _ {W : Type 0} (env : Neighbours W) (hooks hooks' : Hooks W) (clock : ℕ → ℕ) (i : ℕ)
    (r : Run W) (same_walk : hooks.va_to_pa ≡ hooks'.va_to_pa) where
  read_miss_step-hooks : read_miss_step env hooks clock i r ≡ read_miss_step env hooks' clock i r
  unfolding read_miss_step new_read_miss walk pass_on
  read_miss_step-hooks =
      ap (λ va. read_miss_step env (record hooks { va_to_pa = va }) clock i r) same_walk

  finish_miss-hooks :
      (r : Run W)
      → finish_miss env hooks clock i speculative r ≡ finish_miss env hooks' clock i speculative r
  unfolding finish_miss
  finish_miss-hooks r = refl

  read_miss-hooks :
      (entry_in in_rq i r.cache).is_speculative ≡ speculative
      → read_miss env hooks clock i r ≡ read_miss env hooks' clock i r
  unfolding read_miss finish_miss
  read_miss-hooks s = rw (s, read_miss_step-hooks) refl

  read_speculative_hit-hooks :
      (s w : ℕ)
      → read_speculative_hit env hooks clock i s w r ≡ read_speculative_hit env hooks' clock i s w r
  unfolding read_speculative_hit read_data answer_hit report report_up
  read_speculative_hit-hooks s w = refl

  serve_speculative-hooks :
      (entry_in in_rq i r.cache).is_speculative ≡ speculative
      → (found : Option ℕ)
      → serve_speculative env hooks clock i found r ≡ serve_speculative env hooks' clock i found r
  unfolding serve_speculative
  serve_speculative-hooks s none = read_miss-hooks s
  serve_speculative-hooks s (some w) =
      ap₂ (λ m h. if r.cache.num_set_spec == 0 then m else h) (read_miss-hooks s)
        (read_speculative_hit-hooks (get_set (entry_in in_rq i r.cache).address speculative r.cache)
          w)

  -- A speculative read of a block that is not in the normal hierarchy runs neither a prefetcher nor
  -- the replacement policy of the last level: with any others, for the same `va_to_pa`, the cache and
  -- its neighbours come to the same state.
  pub serve_read-hooks :
      (entry_in in_rq i r.cache).is_speculative ≡ speculative
      → check_hit (entry_in in_rq i r.cache) normal r.cache ≡ some none
      → serve_read env hooks clock i r ≡ serve_read env hooks' clock i r
  unfolding serve_read
  serve_read-hooks s miss = rw miss (
      >>=-congruence (check_hit (entry_in in_rq i r.cache) speculative r.cache)
        (λ found. serve_speculative env hooks clock i found r)
        (λ found. serve_speculative env hooks' clock i found r) (serve_speculative-hooks s))
