-- ===== src/Cvector/Grow.antt =====
-- calc_expand_size and expand of src/xutils/cvector.c.
use duallive.Base.{
  ℕ, zero, suc, ◌+◌, ◌*◌, ◌%◌, ◌^◌, ◌≤◌, ◌<◌, ◌≡◌, refl, inl, inr, arith, ltb, le→ltb, ltb→lt,
  ltb→le, Bool-cases, Outcome, ok,
}
use duallive.Kmem.{u64_mod}
use duallive.Cvector.{grow, calc_expand_size}

doubled : ℕ → ℕ → ℕ
doubled zero size = size
doubled (suc k) size = doubled k (size * 2)

-- The size found holds what is wanted, and is not twice as large.
abbrev pub Grown : ℕ → Outcome ℕ → Type 0
Grown wanted r = (s : ℕ) × (r ≡ ok s) × (wanted ≤ s) × (s < 2 * wanted)

grow-Grown :
    (k wanted size : ℕ)
    → wanted ≤ 2 ^ 63
    → size < 2 * wanted
    → wanted ≤ doubled k size
    → Grown wanted (grow (suc k) wanted size)
unfolding grow doubled
grow-Grown zero wanted size small start reach =
    rw (le→ltb size wanted reach) (size, refl, reach, start)
grow-Grown (suc k) wanted size small start reach = elim (Bool-cases (ltb size wanted)) [
  | inl less ↦
      let lt = ltb→lt size wanted less in
      let same : size * 2 % u64_mod ≡ size * 2 = omega arith in
      rw (less, same) (grow-Grown k wanted (size * 2) small (omega arith) reach)
  | inr enough ↦ rw enough (size, refl, ltb→le size wanted enough, start)
]

-- calc_expand_size returns: its loop ends for every request up to 2^62 that the buffer is too small
-- for, and the size found holds the request and is less than twice as large.
pub calc_expand_size-Grown :
    (orig used need : ℕ)
    → 0 < orig
    → orig < used + need
    → used + need ≤ 2 ^ 62
    → Grown (used + need) (calc_expand_size orig used need)
unfolding calc_expand_size doubled
calc_expand_size-Grown orig used need pos small limit =
    let wanted : (used + need) % u64_mod ≡ used + need = omega arith in
    let start : orig * 2 % u64_mod ≡ orig * 2 = omega arith in
    rw (wanted, start)
      (grow-Grown 63 (used + need) (orig * 2) (omega arith) (omega arith) (omega arith))
