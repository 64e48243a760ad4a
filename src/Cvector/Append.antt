-- ===== src/Cvector/Append.antt =====
-- vec_add of src/xutils/cvector.c, and the part that strvec_add shares with it.
use duallive.Base.{
  ℕ, ◌+◌, ◌%◌, ◌^◌, ◌≤◌, ◌<◌, ◌≡◌, refl, ap, ◌∙◌, sym, inl, inr, arith, ltb, ltb→lt, ltb→le,
  Bool-cases, length, take, drop, ◌++◌, take-append, Outcome, ok, length-take,
}
use duallive.Base.Memory.{Bytes, read_at-ok, write_at-ok, length-write, take-write}
use duallive.Kmem.{Allocator, kmem_alloc, u64_mod, page_size}
use duallive.Cvector.{Vec, contents, expand, reserve, vec_init, vec_add}
use duallive.Cvector.Grow.{calc_expand_size-Grown}

-- A buffer of `size` bytes of which `pos` are in use.
pub record IsBuffer (buf : Bytes) (size pos : ℕ) : Type 0 where
  pub sized : length buf ≡ size
  pub within : pos ≤ size
  pub nonempty : 0 < size

-- The buffer has room for `need` bytes more, and what was in use is unchanged.
pub record Reserved (buf : Bytes) (pos need : ℕ) (r : Outcome (Bytes × ℕ)) : Type 0 where
  pub buf' : Bytes
  pub size' : ℕ
  pub returns : r ≡ ok (buf', size')
  pub is_buffer : IsBuffer buf' size' pos
  pub room : pos + need ≤ size'
  pub kept : take pos buf' ≡ take pos buf

module _ ⦃heap : Allocator⦄ (buf : Bytes) (size pos need : ℕ) (b : IsBuffer buf size pos)
    (limit : pos + need ≤ 2 ^ 62) where
  expand-Reserved : size < pos + need → Reserved buf pos need (expand buf size pos need)
  unfolding expand
  expand-Reserved small =
      let (s, found, holds, _) = calc_expand_size-Grown size pos need b.nonempty small limit in
      let used = take pos buf in
      let is = length-take pos buf (omega arith) in
      let fits : 0 + length used ≤ length (kmem_alloc s) = omega (arith, heap.fresh_sized s) in
      rw (found, read_at-ok 0 pos buf (omega arith), write_at-ok 0 used (kmem_alloc s) fits)
        (record {
          buf' = used ++ drop (0 + length used) (kmem_alloc s);
          size' = s;
          returns = refl;
          is_buffer = record {
            sized = length-write 0 used (kmem_alloc s) fits ∙ heap.fresh_sized s;
            within = omega arith;
            nonempty = omega arith;
          };
          room = holds;
          kept = take-append pos used _ (sym is);
        })

  pub reserve-Reserved : Reserved buf pos need (reserve buf size pos need)
  unfolding reserve
  reserve-Reserved =
      let same : (pos + need) % u64_mod ≡ pos + need = omega arith in
      elim (Bool-cases (ltb size (pos + need))) [
        | inl less ↦ rw (same, less) (expand-Reserved (ltb→lt _ _ less))
        | inr enough ↦
            rw (same, enough)
              (record {
                buf' = buf;
                size' = size;
                returns = refl;
                is_buffer = b;
                room = ltb→le _ _ enough;
                kept = refl;
              })
      ]

abbrev pub IsValid : Vec → Type 0
IsValid v = IsBuffer v.buf v.size v.pos

-- The vector that results holds `bs` behind what it held.
pub record Appends (v : Vec) (bs : Bytes) (r : Outcome Vec) : Type 0 where
  pub vec : Vec
  pub returns : r ≡ ok vec
  pub valid : IsValid vec
  pub appended : contents vec ≡ contents v ++ bs
  pub moved : vec.pos ≡ v.pos + v.elem_size
  pub same_size : vec.elem_size ≡ v.elem_size

module _ ⦃heap : Allocator⦄ where
  pub vec_init-IsValid : (n : ℕ) → IsValid (vec_init n)
  unfolding vec_init
  vec_init-IsValid n = record {
    sized = heap.fresh_sized page_size;
    within = omega arith;
    nonempty = omega arith;
  }

  -- vec_add on a well-formed vector accesses nothing out of bounds, ends, and appends the first
  -- elem_size bytes of the element; the vector stays well formed.
  pub vec_add-Appends :
      (v : Vec) (elem : Bytes)
      → IsValid v
      → v.elem_size ≤ length elem
      → v.pos + v.elem_size ≤ 2 ^ 62
      → Appends v (take v.elem_size elem) (vec_add v elem)
  unfolding vec_add
  vec_add-Appends v elem valid whole limit =
      let r = reserve-Reserved v.buf v.size v.pos v.elem_size valid limit in
      let bs = take v.elem_size elem in
      let is = length-take v.elem_size elem whole in
      let fits : v.pos + length bs ≤ length r.buf' = omega (arith, r.is_buffer.sized, r.room) in
      let same : (v.pos + v.elem_size) % u64_mod ≡ v.pos + v.elem_size = omega arith in
      let same' : (v.pos + v.elem_size) % u64_mod ≡ v.pos + length bs = omega arith in
      rw (r.returns, read_at-ok 0 v.elem_size elem (omega arith), write_at-ok v.pos bs r.buf' fits)
        (record {
          vec = record v {
            buf = take v.pos r.buf' ++ (bs ++ drop (v.pos + length bs) r.buf');
            size = r.size';
            pos = (v.pos + v.elem_size) % u64_mod;
          };
          returns = refl;
          valid = record {
            sized = length-write v.pos bs r.buf' fits ∙ r.is_buffer.sized;
            within = omega (arith, r.room);
            nonempty = r.is_buffer.nonempty;
          };
          appended =
              rw (same', take-write v.pos bs r.buf' (drop (v.pos + length bs) r.buf') (omega arith))
                (ap (λ c. c ++ bs) r.kept);
          moved = same;
          same_size = refl;
        })
