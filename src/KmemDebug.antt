-- ===== src/KmemDebug.antt =====
-- The allocator of a debug build: src/libspl/kernel.c with DL_DEBUG. A block has its size behind it,
-- which kmem_free compares, and two counters tell at the end whether each block was freed.
use duallive.Base.{
  ℕ, ◌+◌, ◌%◌, ◌^◌, ◌≤◌, ◌<◌, ◌≡◌, refl, ap, ◌∙◌, arith, inr, not, ◌==◌, eq→==, ne→==, length,
  Outcome, ok, verify, ◌>>=◌, ◌>>◌,
}
use duallive.Base.Memory.{Bytes, le, un_le, read_word, write_at}
use duallive.Base.Patches.{write_at-Wrote, write_le-Wrote, Wrote-word, read_word-window}
use duallive.Kmem.{Allocator, u32_mod, u64_mod}

-- alloc_cnt, free_cnt
pub record Counters : Type 0 where
  pub alloc_cnt : ℕ
  pub free_cnt : ℕ

-- kmem_alloc. malloc succeeds.
pub kmem_alloc_debug : ⦃heap : Allocator⦄ → Counters → ℕ → Outcome (Bytes × Counters)
kmem_alloc_debug ⦃heap⦄ c size = do
  ptr ← write_at size (le 8 size) (heap.fresh ((size + 8) % u64_mod))
  ok (ptr, record c { alloc_cnt = (c.alloc_cnt + 1) % u32_mod })

-- kmem_free, of a pointer that is not NULL.
pub kmem_free_debug : Counters → Bytes → ℕ → Outcome Counters
kmem_free_debug c ptr size = do
  verify (not (size == 0))
  guard ← read_word size 8 ptr
  verify (guard == size)
  ok (record c { free_cnt = (c.free_cnt + 1) % u32_mod })

pub kmem_leak_check : Counters → Outcome (Unit {0})
kmem_leak_check c = verify (c.alloc_cnt == c.free_cnt)

-- A block is allocated, written to, freed, and the program ends.
pub block_life : ⦃heap : Allocator⦄ → Counters → ℕ → ℕ → Bytes → Outcome (Unit {0})
block_life c size off b = do
  (ptr, c) ← kmem_alloc_debug c size
  ptr ← write_at off b ptr
  c ← kmem_free_debug c ptr size
  kmem_leak_check c

-- If every block before was freed, a block of a size that is not 0 can be written to anywhere within
-- that size: kmem_free then finds its guard, and the check for leaks succeeds.
pub block_life-passes :
    ⦃heap : Allocator⦄
    → (c : Counters) (size off : ℕ) (b : Bytes) → 0 < size
    → size + 8 < 2 ^ 64
    → off + length b ≤ size
    → c.alloc_cnt ≡ c.free_cnt
    → block_life c size off b ≡ ok tt
unfolding block_life kmem_alloc_debug kmem_free_debug kmem_leak_check
block_life-passes ⦃heap⦄ c size off b positive small within even =
    let whole : (size + 8) % u64_mod ≡ size + 8 = omega arith in
    let sized = heap.fresh_sized ((size + 8) % u64_mod) ∙ whole in
    let (m1, e1, w1) =
      write_le-Wrote size 8 size (heap.fresh ((size + 8) % u64_mod)) (omega (arith, sized)) in
    let (m2, e2, w2) =
      write_at-Wrote off (length b) b m1 refl (omega (arith, w1.same_size, sized)) in
    let guard =
      read_word-window size 8 m2 (omega (arith, w1.same_size, w2.same_size, sized))
      ∙ ap (λ d. ok (un_le 8 d)) (w2.elsewhere size 8 (inr (omega arith)))
      ∙ ap ok (Wrote-word size 8 size (heap.fresh ((size + 8) % u64_mod)) m1 (omega arith) w1) in
    rw
      (
        e1,
        e2,
        ne→== size 0 (λ e. omega (arith, e)),
        guard,
        eq→== size size refl,
        even,
        eq→== ((c.free_cnt + 1) % u32_mod) ((c.free_cnt + 1) % u32_mod) refl,
      )
      refl
