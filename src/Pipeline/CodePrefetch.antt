-- ===== src/Pipeline/CodePrefetch.antt =====
-- `prefetch_code_line` of src/ooo_cpu.cc.
use speculative_cache_hierar.Prelude.{
  ℕ, Bool, true, false, not, Option, some, ltb, ◌==◌, if◌then◌else◌, check, ◌>>=◌, ◌>>◌, inc_u64,
}
use speculative_cache_hierar.AccessType
use speculative_cache_hierar.Packet.{Packet, empty_packet}
use speculative_cache_hierar.Cache.{Cache, fill_l1}
use speculative_cache_hierar.Cache.Requests.{add_pq}
use speculative_cache_hierar.Pipeline.{Setting, Running, Surroundings, now}
use speculative_cache_hierar.Pipeline.Fetch.{page_of, line_of, on_page}

module _ {W : Type 0} (around : Surroundings W) (g : Setting) where
  abbrev pub edit_l1i : (Cache → Cache) → Running W → Running W
  edit_l1i f r = record r {
    core = record r.core { caches = record r.core.caches { l1i = f r.core.caches.l1i } };
  }

  -- The packet of a code prefetch.
  unfoldable pub code_packet : ℕ → ℕ → ℕ → ℕ → Packet
  code_packet cycle cpu pa va = record empty_packet {
    instruction = true;
    is_data = false;
    fill_level = fill_l1;
    fill_l1i = true;
    pf_origin_level = fill_l1;
    cpu = cpu;
    address = line_of pa;
    full_addr = pa;
    ip = va;
    type = AccessType.prefetch;
    event_cycle = cycle;
  }

  unfoldable pub prefetch_code_line : ℕ → Running W → Option (Bool × Running W)
  unfolding code_packet
  prefetch_code_line va r =
      let r' = edit_l1i (λ l. record l { pf_requested = inc_u64 l.pf_requested }) r in
      let l = r'.core.caches.l1i in
      check (not (va == 0))
      >> (if not (ltb l.pq.occupancy l.pq.size)
          then some (false, r')
          else around.va_to_pa r'.core.caches.cpu 0 va (page_of va) r' >>= λ found.
              (let (pa, r'') = found in
                let c = r''.core in
                add_pq around.l1i g.clock
                  (code_packet (now g c) c.caches.cpu (on_page (page_of pa) va) va) c.caches.l1i
                  r''.world
                >>= λ reply. some (
                  true,
                  record {
                    core = record c {
                      caches = record c.caches {
                        l1i = record reply.cache { pf_issued = inc_u64 reply.cache.pf_issued };
                      };
                    };
                    world = reply.world;
                  },
                )))
