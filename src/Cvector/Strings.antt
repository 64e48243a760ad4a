-- ===== src/Cvector/Strings.antt =====
-- strvec_add of src/xutils/cvector.c.
use duallive.Base.{
  ◌+◌, ◌%◌, ◌≤◌, ◌<◌, ◌≡◌, ◌⊎◌, refl, ap, ◌∙◌, sym, inl, inr, Bool, true, false, arith, Bool-cases,
  length, take, drop, ◌++◌, [], ◌∷◌, take_all, length-append, append-nil, Outcome, ok, ◌>>=◌,
  length-take, take-append_le, drop-append, some, ◌==◌, ==→eq,
}
use duallive.Base.Memory.{
  Bytes, read_at, write_at, read_at-ok, write_at-ok, length-write, take-write, nul_ended, NoNul,
  c_str, c_str-Split, c_str-take, c_str-length, strlen-ok, same_bytes, same_bytes→eq,
  length-nul_ended,
}
use duallive.Kmem.{Allocator, kmem_alloc, u64_mod, u32_mod, page_size}
use duallive.Cvector.{StrVec, text, reserve, repeats, strvec_init, strvec_add}
use duallive.Cvector.Append.{reserve-Reserved}
use duallive.Cvector.Text.{IsValid, Added, take-drop-take, first_differs}

module _ ⦃heap : Allocator⦄ where
  -- A repeated string is not stored again.
  repeated-Added :
      (v : StrVec) (s : Bytes)
      → IsValid v
      → NoNul s
      → v.pos < u32_mod
      → v.last_pos + (length s + 1) ≡ v.pos
      → take (length s + 1) (drop v.last_pos v.str) ≡ nul_ended s
      → Added v s (ok (v.last_pos % u32_mod, v))
  repeated-Added v s valid clean small ends same =
      let sized = length-take v.pos v.str (omega arith) in
      record {
        off = v.last_pos;
        vec = v;
        returns = ap (λ o. ok (o, v)) (omega arith);
        valid = valid;
        more = [];
        extends = sym (append-nil (text v));
        holds = (
          omega arith,
          take-drop-take v.last_pos (length s + 1) v.pos v.str (omega arith) (omega arith) ∙ same,
        );
        is_last = refl;
        bounded = omega arith;
        positive = elim [
          | inl later ↦ later
          | inr some_byte ↦ first_differs v.last_pos s v.str valid.first_empty clean some_byte same
        ];
      }

  -- A new string goes behind the others.
  stored-Added :
      (v : StrVec) (str s : Bytes)
      → IsValid v
      → c_str str ≡ some s
      → v.pos + length s + 1 < u32_mod
      → Added v s (do
        (buf, size) ← reserve v.str v.size v.pos (length s + 1)
        copied ← read_at 0 (length s + 1) str
        buf' ← write_at v.pos copied buf
        let v' = record v {
          str = buf';
          size = size;
          last_pos = v.pos;
          pos = (v.pos + (length s + 1)) % u64_mod;
        }
        ok (v'.last_pos % u32_mod, v'))
  stored-Added v str s valid is small =
      let len = length s + 1 in
      let r = reserve-Reserved v.str v.size v.pos len valid.buffer (omega arith) in
      let bs = nul_ended s in
      let sized = length-nul_ended s in
      let read : read_at 0 len str ≡ ok bs =
        read_at-ok 0 len str (omega (arith, c_str-length str s is)) ∙ ap ok (c_str-take str s is) in
      let fits : v.pos + length bs ≤ length r.buf' = omega (arith, r.is_buffer.sized, r.room) in
      let same : (v.pos + len) % u64_mod ≡ v.pos + length bs = omega arith in
      let tail = drop (v.pos + length bs) r.buf' in
      let w : StrVec = record {
        str = take v.pos r.buf' ++ (bs ++ tail);
        size = r.size';
        last_pos = v.pos;
        pos = (v.pos + len) % u64_mod;
      } in
      let whole : text w ≡ text v ++ bs =
        rw same (take-write v.pos bs r.buf' tail (omega arith) ∙ ap (λ c. c ++ bs) r.kept) in
      let start : length (text v) ≡ v.pos = length-take v.pos v.str (omega arith) in
      rw (r.returns, read, write_at-ok v.pos bs r.buf' fits)
        (record {
          off = v.pos;
          vec = w;
          returns = ap (λ o. ok (o, w)) (omega arith);
          valid = record {
            buffer = record {
              sized = length-write v.pos bs r.buf' fits ∙ r.is_buffer.sized;
              within = omega (arith, r.room);
              nonempty = r.is_buffer.nonempty;
            };
            last_within = omega arith;
            first_empty =
                take-append_le 1 (take v.pos r.buf') (bs ++ tail)
                  (omega (arith, length-take v.pos r.buf', r.is_buffer.sized, r.room))
                ∙ ap (take 1) r.kept
                ∙ take-drop-take 0 1 v.pos v.str (omega arith) (omega arith)
                ∙ valid.first_empty;
          };
          more = bs;
          extends = whole;
          holds = rw whole (
            omega (arith, length-append (text v) bs),
            rw (drop-append v.pos (text v) bs (sym start)) (take_all len bs sized),
          );
          is_last = refl;
          bounded = omega arith;
          positive = λ _. omega arith;
        })

  -- What the test of strvec_add comes to: it does not fault, and a pass means that the last string
  -- is the new one.
  abbrev Tested : StrVec → Bytes → Outcome Bool → Type 0
  Tested v s r =
      (r ≡ ok false)
      ⊎ ((r ≡ ok true)
          × (v.last_pos + (length s + 1) ≡ v.pos)
          × (take (length s + 1) (drop v.last_pos v.str) ≡ nul_ended s))

  repeats-Tested :
      (v : StrVec) (str s : Bytes)
      → IsValid v
      → c_str str ≡ some s
      → v.pos + length s + 1 < u32_mod
      → Tested v s (repeats v str (length s + 1))
  unfolding repeats
  repeats-Tested v str s valid is small =
      let len = length s + 1 in
      let same : (v.last_pos + len) % u64_mod ≡ v.last_pos + len = omega arith in
      elim (Bool-cases (v.last_pos + len == v.pos)) [
        | inr other ↦ rw (same, other) (inl refl)
        | inl ends ↦
            let e = ==→eq (v.last_pos + len) v.pos ends in
            let last = read_at-ok v.last_pos len v.str (omega arith) in
            let new = read_at-ok 0 len str (omega (arith, c_str-length str s is)) in
            rw (same, ends, last, new)
              (elim (Bool-cases (same_bytes (take len (drop v.last_pos v.str)) (take len str))) [
                | inr differ ↦ rw differ (inl refl)
                | inl equal ↦
                    rw equal (inr (refl, e, same_bytes→eq _ _ equal ∙ c_str-take str s is))
              ])
      ]

  -- strvec_add on a well-formed vector, at a pointer to a string that ends in NUL, accesses nothing
  -- out of bounds and returns, as long as less than 2^32 bytes come into use. The offset that it
  -- returns holds the string and its NUL; what was in use is unchanged, with at most the string
  -- behind it; the offset is not 0 if the string is not empty or some other offset was handed out
  -- last; and the vector stays well formed.
  pub strvec_add-Added :
      (v : StrVec) (str s : Bytes)
      → IsValid v
      → c_str str ≡ some s
      → v.pos + length s + 1 < u32_mod
      → Added v s (strvec_add v str)
  unfolding strvec_add
  strvec_add-Added v str s valid is small = elim (repeats-Tested v str s valid is small) [
    | inl new ↦ rw (strlen-ok str is, new) (stored-Added v str s valid is small)
    | inr (old, ends, same) ↦
        rw (strlen-ok str is, old)
          (repeated-Added v s valid (c_str-Split str s is).no_nul (omega arith) ends same)
  ]

  -- strvec_init returns a well-formed vector that holds the empty string.
  pub strvec_init-IsValid :
      (v : StrVec) × (strvec_init ≡ ok v)
      × IsValid v
      × (v.pos ≡ 1)
      × (v.last_pos ≡ 0)
      × (text v ≡ 0 ∷ [])
  unfolding strvec_init
  strvec_init-IsValid =
      let page = kmem_alloc page_size in
      let nul : Bytes = 0 ∷ [] in
      let fits : 0 + length nul ≤ length page = omega (arith, heap.fresh_sized page_size) in
      rw (write_at-ok 0 nul page fits) (
        _,
        refl,
        record {
          buffer = record {
            sized = length-write 0 nul page fits ∙ heap.fresh_sized page_size;
            within = omega arith;
            nonempty = omega arith;
          };
          last_within = omega arith;
          first_empty = refl;
        },
        refl,
        refl,
        refl,
      )
