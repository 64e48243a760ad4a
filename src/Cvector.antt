-- ===== src/Cvector.antt =====
-- Growing buffers: src/xutils/cvector.c with inc/xutils/cvector.h.
-- A buffer is the list of its allocated bytes. Sizes are size_t and wrap.
pub mod Grow
pub mod Append
pub mod Text
pub mod Strings
use duallive.Base.{
  ℕ, zero, suc, ◌+◌, ◌*◌, ◌%◌, Bool, true, false, ltb, ◌==◌, if◌then◌else◌, length, Outcome, ok,
  fault, out_of_fuel, ◌>>=◌, take, replicate, ◌∷◌, [], drop, ◌++◌,
}
use duallive.Base.Memory.{Bytes, read_at, write_at, strlen, same_bytes}
use duallive.Kmem.{Allocator, kmem_alloc, page_size, u64_mod, u32_mod}

-- The loop of calc_expand_size.
grow : ℕ → ℕ → ℕ → Outcome ℕ
grow zero wanted size = fault out_of_fuel
grow (suc fuel) wanted size =
    let more = grow fuel wanted (size * 2 % u64_mod) in if ltb size wanted then more else ok size

-- A size_t is doubled 64 times at most before it is 0.
pub calc_expand_size : ℕ → ℕ → ℕ → Outcome ℕ
unfolding grow
calc_expand_size orig_size used_size need_size =
    grow 64 ((used_size + need_size) % u64_mod) (orig_size * 2 % u64_mod)

pub record Vec : Type 0 where
  pub buf : Bytes
  pub size : ℕ
  pub elem_size : ℕ
  pub pos : ℕ

pub record StrVec : Type 0 where
  pub str : Bytes
  pub size : ℕ
  pub last_pos : ℕ
  pub pos : ℕ

module _ ⦃heap : Allocator⦄ where
  -- The new buffer and its size.
  pub expand : Bytes → ℕ → ℕ → ℕ → Outcome (Bytes × ℕ)
  expand pbuf size used_size need_size = do
    new_size ← calc_expand_size size used_size need_size
    used ← read_at 0 used_size pbuf
    buf ← write_at 0 used (kmem_alloc new_size)
    ok (buf, new_size)

  -- if (pos + need > size) expand(...)
  pub reserve : Bytes → ℕ → ℕ → ℕ → Outcome (Bytes × ℕ)
  reserve buf size pos need =
      if ltb size ((pos + need) % u64_mod) then expand buf size pos need else ok (buf, size)

  unfoldable pub vec_init : ℕ → Vec
  vec_init elem_size = record {
    buf = kmem_alloc page_size;
    size = page_size;
    elem_size = elem_size;
    pos = 0;
  }

  -- `elem` is the memory from the element on.
  pub vec_add : Vec → Bytes → Outcome Vec
  unfolding reserve
  vec_add v elem = do
    (buf, size) ← reserve v.buf v.size v.pos v.elem_size
    copied ← read_at 0 v.elem_size elem
    buf' ← write_at v.pos copied buf
    ok (record v { buf = buf'; size = size; pos = (v.pos + v.elem_size) % u64_mod })

  pub strvec_init : Outcome StrVec
  strvec_init = do
    str ← write_at 0 (0 ∷ []) (kmem_alloc page_size)
    ok (record { str = str; size = page_size; last_pos = 0; pos = 1 })

  -- Whether the string at `last_pos` is the new one, which takes `len` bytes with its NUL.
  repeats : StrVec → Bytes → ℕ → Outcome Bool
  repeats v str len =
      if (v.last_pos + len) % u64_mod == v.pos
      then (do
        last ← read_at v.last_pos len v.str
        new ← read_at 0 len str
        ok (same_bytes last new))
      else ok false

  -- The offset of the string, as a uint32_t, and the vector.
  pub strvec_add : StrVec → Bytes → Outcome (ℕ × StrVec)
  unfolding repeats reserve
  strvec_add v str = do
    n ← strlen str
    let len = n + 1
    same ← repeats v str len
    if same then ok (v.last_pos % u32_mod, v) else do
      (buf, size) ← reserve v.str v.size v.pos len
      copied ← read_at 0 len str
      buf' ← write_at v.pos copied buf
      let v' = record v { str = buf'; size = size; last_pos = v.pos; pos = (v.pos + len) % u64_mod }
      ok (v'.last_pos % u32_mod, v')

-- What is in use of a vector.
abbrev pub contents : Vec → Bytes
contents v = take v.pos v.buf

abbrev pub text : StrVec → Bytes
text v = take v.pos v.str
