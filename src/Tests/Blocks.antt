-- ===== src/Tests/Blocks.antt =====
-- A block of the debug build's allocator at a concrete size.
use duallive.Base.{◌≡◌, refl, arith, ok}
use duallive.KmemDebug.{Counters, block_life, block_life-passes}
use duallive.Base.Text.{c_string}
use duallive.Tests.Data.{zeroed}

abbrev three_freed : Counters
three_freed = record { alloc_cnt = 3; free_cnt = 3 }

block_life-passes_example : block_life three_freed 20 8 (c_string "poolA/lunA1") ≡ ok tt
block_life-passes_example =
    block_life-passes three_freed 20 8 (c_string "poolA/lunA1") (omega arith) (omega arith)
      (omega arith) refl
