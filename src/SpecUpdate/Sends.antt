-- ===== src/SpecUpdate/Sends.antt =====
-- One message of `update_spec_blocks` in src/ooo_cpu.cc, and the commit queue that gets it.
use speculative_cache_hierar.Prelude.{
  ℕ, ◌/◌, ◌^◌, ◌<◌, ◌≡◌, refl, ◌≢◌, ◌⊎◌, inl, inr, Bool, true, false, none, some, arith, ltb, pos,
  if◌then◌else◌, dec_lt,
}
use speculative_cache_hierar.AccessType
use speculative_cache_hierar.Packet.{Packet, empty_packet, speculative}
use speculative_cache_hierar.PacketQueue.{PacketQueue}
use speculative_cache_hierar.PacketQueue.Ring.{IsValid}
use speculative_cache_hierar.Cache.{Cache, fill_l1}
use speculative_cache_hierar.Cache.Requests.{count_merge}
use speculative_cache_hierar.Cache.Requests.Queueing.{Queues, Oldest, Absent}
use speculative_cache_hierar.Cache.Writes.Adds.{add_cq_lem}
use speculative_cache_hierar.SpecUpdate.{ArchInstr, commit_packet, send}

module _ (clock : ℕ → ℕ) (cpu : ℕ) (instr : ArchInstr) (commit_flag : Bool) (shift addr : ℕ)
    (c : Cache) where
  -- The message: the speculative copy of the block or page of the address belongs to an instruction that
  -- has committed, or that is squashed.
  abbrev pub message : Packet
  message = record empty_packet {
    is_speculative = speculative;
    instruction = true;
    is_data = false;
    fill_level = fill_l1;
    cpu = cpu;
    address = addr / 2 ^ shift;
    instruction_pa = instr.instruction_pa;
    full_addr = addr;
    instr_id = instr.instr_id;
    rob_index = pos 0;
    producer = pos 0;
    ip = instr.ip;
    type = if commit_flag then AccessType.commit_load else AccessType.squash_load;
    asid0 = 0;
    asid1 = 0;
    event_cycle = clock cpu;
  }

  -- The outcomes of a message: stopped, lost, queued.
  abbrev pub Sends : Type 0
  Sends =
      ((c.cq.occupancy ≡ c.cq.size) × (send clock cpu instr commit_flag shift addr c ≡ none))
      ⊎ ((c.cq.occupancy < c.cq.size)
          × ((i : ℕ) × Oldest c.cq message i
              × (send clock cpu instr commit_flag shift addr c
                  ≡ some (record c { cq = count_merge c.cq }))))
      ⊎ ((c.cq.occupancy < c.cq.size)
          × Absent c.cq message
          × ((q : PacketQueue) × Queues clock c.latency message c.cq q
              × (send clock cpu instr commit_flag shift addr c ≡ some (record c { cq = q }))))

  -- With a valid commit queue and an address that is not 0 without its offset, the message is lost
  -- in silence if one to the same place is queued already, be it a commit or a squash; else it
  -- becomes the youngest of the queue: a COMMIT_LOAD or SQUASH_LOAD, as the flag says, with the number of
  -- the instruction and the address. The simulator stops exactly if the queue is full.
  pub send_lem : IsValid c.cq → c.cq_size ≡ c.cq.size → addr / 2 ^ shift ≢ 0 → Sends
  unfolding send commit_packet
  send_lem v size some_address = elim (dec_lt c.cq.occupancy c.cq.size) [
    | no full ↦ inl (omega (arith, v.bounded), rw (no_room full, send) refl)
    | yes room ↦ elim (add_cq_lem clock message c v size some_address) [
      | inl (i, o, e) ↦ inr (inl (room, (i, o, rw (is_open room, e, send) refl)))
      | inr (inl (absent, _, (q, queued, e))) ↦
          inr (inr (room, absent, (q, queued, rw (is_open room, e, send) refl)))
      | inr (inr (_, full, _)) ↦ absurd (omega arith)
    ]
  ]
    where
      is_open : c.cq.occupancy < c.cq.size → ltb c.cq.occupancy c.cq.size ≡ true
      is_open l = ground arith

      no_room : ¬ (c.cq.occupancy < c.cq.size) → ltb c.cq.occupancy c.cq.size ≡ false
      no_room l = ground arith
