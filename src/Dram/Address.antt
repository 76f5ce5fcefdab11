-- ===== src/Dram/Address.antt =====
-- The address mapping of src/dram_controller.cc takes a block address apart.
use speculative_cache_hierar.Prelude.{ℕ, ◌+◌, ◌*◌, ◌%◌, ◌/◌, ◌^◌, ◌<◌, ◌≡◌, arith}
use speculative_cache_hierar.Prelude.Bits.{bit_and-mask}
use speculative_cache_hierar.Dram.{dram_banks, dram_get_bank, dram_get_column, dram_get_row}

-- The bank, column and row of a block address are in range, and together, in the order row, column,
-- bank, they make up its lower 26 bits, the blocks of 4 GB.
pub dram_place :
    (address : ℕ)
    → (dram_get_bank address < dram_banks)
      × (dram_get_column address < 128)
      × (dram_get_row address < 65536)
      × (dram_get_row address * 2 ^ 10 + dram_get_column address * 2 ^ 3 + dram_get_bank address
          ≡ address % 2 ^ 26)
unfolding dram_get_bank dram_get_column dram_get_row
dram_place address =
    rw
      (
        bit_and-mask 3 (address % 2 ^ 32),
        bit_and-mask 7 (address / 2 ^ 3 % 2 ^ 32),
        bit_and-mask 16 (address / 2 ^ 10 % 2 ^ 32),
      )
      (omega arith, omega arith, omega arith, omega arith)
