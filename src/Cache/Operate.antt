-- ===== src/Cache/Operate.antt =====
-- `CACHE::operate` of src/cache.cc: what a cache does in a cycle.
use speculative_cache_hierar.Prelude.{ℕ, not, ◌&&◌, Option, ltb, ◌==◌, when, ◌>>=◌}
use speculative_cache_hierar.Cache.{Neighbours}
use speculative_cache_hierar.Cache.Commit.{commit_blocks}
use speculative_cache_hierar.Cache.Machine.{Run, Hooks}
use speculative_cache_hierar.Cache.Machine.Steps.{on_cache}
use speculative_cache_hierar.Cache.Fill.{handle_fill}
use speculative_cache_hierar.Cache.Writeback.{handle_writeback}
use speculative_cache_hierar.Cache.Read.{handle_read}
use speculative_cache_hierar.Cache.Prefetch.{handle_prefetch}

module _ {W : Type 0} (env : Neighbours W) (hooks : Hooks W) (clock : ℕ → ℕ) where
  unfoldable pub operate : Run W → Option (Run W)
  operate r = do
    r ← handle_fill env hooks clock (on_cache (λ c. record c { reads_available = c.max_read }) r)
    r ← handle_writeback env hooks clock r
    r ← handle_read env hooks clock r
    (c, world) ← commit_blocks env r.cache r.world
    when (not (c.pq.occupancy == 0) && ltb 0 c.reads_available) (handle_prefetch env hooks clock)
        (record { cache = c; world = world })
