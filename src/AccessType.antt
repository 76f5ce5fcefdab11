-- ===== src/AccessType.antt =====
-- inc/memory_class.h: the access types, and the two messages of the commit queue. The source indexes
-- its statistics by them, so they stay numbers.
use speculative_cache_hierar.Prelude.{ℕ}

abbrev pub load : ℕ
load = 0

abbrev pub rfo : ℕ
rfo = 1

abbrev pub prefetch : ℕ
prefetch = 2

abbrev pub writeback : ℕ
writeback = 3

abbrev pub commit_load : ℕ
commit_load = 5

abbrev pub squash_load : ℕ
squash_load = 6

-- `NUM_TYPES`.
abbrev pub num_types : ℕ
num_types = 4
