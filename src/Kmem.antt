-- ===== src/Kmem.antt =====
-- The memory allocator: src/libspl/kernel.c, kmem_alloc.
use duallive.Base.{ℕ, ◌^◌, ◌≡◌, length}
use duallive.Base.Memory.{Bytes}

-- What malloc hands out: a block of the size asked for, of any content. An allocation with KM_SLEEP
-- returns only when it succeeds (kmem_alloc asserts it), so there is no failure to model. The guard
-- word that a debug build keeps behind a block is out of the caller's reach.
pub record Allocator : Type 0 where
  pub fresh : ℕ → Bytes
  pub fresh_sized : (n : ℕ) → length (fresh n) ≡ n

abbrev pub kmem_alloc : ⦃heap : Allocator⦄ → ℕ → Bytes
kmem_alloc ⦃heap⦄ n = heap.fresh n

abbrev pub page_size : ℕ
page_size = 4096

-- size_t
abbrev pub u64_mod : ℕ
u64_mod = 2 ^ 64

abbrev pub u32_mod : ℕ
u32_mod = 2 ^ 32

abbrev pub u16_mod : ℕ
u16_mod = 2 ^ 16
