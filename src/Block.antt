-- ===== src/Block.antt =====
-- inc/block.h: a cache block.
use speculative_cache_hierar.Prelude.{ℕ, ℤ, pos, Bool, false}

pub record Block : Type 0 where
  pub valid : Bool
  pub prefetch : Bool
  pub dirty : Bool
  pub used : Bool
  pub delta : ℤ
  pub depth : ℤ
  pub signature : ℤ
  pub confidence : ℤ
  pub address : ℕ
  pub full_addr : ℕ
  pub tag : ℕ
  pub payload : ℕ
  pub ip : ℕ
  pub cpu : ℕ
  pub instr_id : ℕ
  pub lru : ℕ

-- What the constructor of `BLOCK` leaves (`ip`, which it does not set, is 0). `payload` is the
-- source's `data`.
abbrev pub empty_block : Block
empty_block = record {
  valid = false;
  prefetch = false;
  dirty = false;
  used = false;
  delta = pos 0;
  depth = pos 0;
  signature = pos 0;
  confidence = pos 0;
  address = 0;
  full_addr = 0;
  tag = 0;
  payload = 0;
  ip = 0;
  cpu = 0;
  instr_id = 0;
  lru = 0;
}
