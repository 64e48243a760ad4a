-- ===== src/ArbDisk/Image/Strings.antt =====
-- arb_disk_add_str of src/duallive/arbitrary_disk.c.
use duallive.Base.{
  ℕ, ◌+◌, ◌-◌, ◌%◌, ◌≤◌, ◌≡◌, ◌⊎◌, refl, sym, ap, subst, ◌∙◌, arith, inl, inr, ◌++◌, Bool, false,
  ◌==◌, Bool-cases, length, length-append, take, drop, take-drop-split, drop-append, take_all,
  drop-drop, some, Outcome, ok, ◌>>=◌, le→ltb, ==→eq, append-nil, [],
}
use duallive.Base.Memory.{
  Bytes, le, un_le, nul_ended, length-nul_ended, c_str, c_str-take, c_str-length, c_str-Split,
  strlen-ok, same_bytes, same_bytes→eq, write_at,
}
use duallive.Base.Patches.{
  window, window-window, read_at-window, write_at-Wrote, write_le-Wrote, Wrote-word, Wrote,
}
use duallive.Kmem.{u32_mod}
use duallive.ArbDisk.Image.Head.{set_word, arb_disk_used_space}
use duallive.ArbDisk.Image.{Grow, arb_disk_add_str}
use duallive.ArbDisk.Image.Holds.{
  Layout, stroff, IsBase, Stands, length-text, reads_pos, reads_last, reads_stroff,
}

-- What is neither the strings nor their positions in the head.
abbrev pub Apart : Layout → ℕ → ℕ → Type 0
Apart l a k = (a + k ≤ 32) ⊎ ((40 ≤ a) × (a + k ≤ stroff l))

-- The string stands in the file, which is the same apart from the strings.
pub record Adds (img : Bytes) (l : Layout) (text s : Bytes) (r : Outcome (ℕ × Bool × Bytes))
    : Type 0 where
  pub off : ℕ
  pub img' : Bytes
  pub pos' : ℕ
  pub last' : ℕ
  pub more : Bytes
  pub returns : r ≡ ok (off, false, img')
  pub base : IsBase img' (record { max = l.max; pos = pos'; last = last' }) (text ++ more)
  pub stands : Stands (text ++ more) off s
  pub same_size : length img' ≡ length img
  pub bounded : pos' ≤ l.pos + length s + 1
  pub elsewhere : (a k : ℕ) → Apart l a k → window a k img' ≡ window a k img

module _ {img : Bytes} {l : Layout} {text : Bytes} (h : IsBase img l text) (str s : Bytes)
    (is : c_str str ≡ some s) (room : stroff l + l.pos + length s + 1 ≤ length img) where
  -- The string is the last one again.
  add_again :
      l.last + (length s + 1) ≡ l.pos
      → nul_ended s ≡ window (stroff l + l.last) (length s + 1) img
      → Adds img l text s (ok (l.last, false, img))
  add_again full same =
      let same_text : window l.last (length s + 1) text ≡ nul_ended s =
        ap (window l.last (length s + 1)) (sym h.is_text)
        ∙ window-window l.last (length s + 1) (stroff l) l.pos img (omega arith) h.whole
        ∙ sym same in
      record {
        off = l.last;
        img' = img;
        pos' = l.pos;
        last' = l.last;
        more = [];
        returns = refl;
        base = subst (IsBase img l) (sym (append-nil text)) h;
        stands =
            subst (λ t. Stands t l.last s) (sym (append-nil text))
              (record {
                no_nul = (c_str-Split str s is).no_nul;
                inside = omega (arith, length-text h);
                reads = same_text;
              });
        same_size = refl;
        bounded = omega arith;
        elsewhere = λ a k apart. refl;
      }

  -- The string behind the others.
  add_behind :
      (img1 img2 img3 : Bytes)
      → Wrote (stroff l + l.pos) (length s + 1) (nul_ended s) img img1
      → Wrote 36 4 (le 4 l.pos) img1 img2
      → Wrote 32 4 (le 4 (l.pos + (length s + 1))) img2 img3
      → Adds img l text s (ok (l.pos, false, img3))
  add_behind img1 img2 img3 w1 w2 w3 =
      let n = length s + 1 in
      let size = length-text h in
      let sized : length (nul_ended s) ≡ n = length-nul_ended s in
      let same_size : length img3 ≡ length img = w3.same_size ∙ w2.same_size ∙ w1.same_size in
      let old : window (stroff l) l.pos img3 ≡ text =
        w3.elsewhere (stroff l) l.pos (inr (omega arith))
        ∙ w2.elsewhere (stroff l) l.pos (inr (omega arith))
        ∙ w1.elsewhere (stroff l) l.pos (inl (omega arith))
        ∙ h.is_text in
      let new : window (stroff l + l.pos) n img3 ≡ nul_ended s =
        w3.elsewhere (stroff l + l.pos) n (inr (omega arith))
        ∙ w2.elsewhere (stroff l + l.pos) n (inr (omega arith))
        ∙ w1.here in
      record {
        off = l.pos;
        img' = img3;
        pos' = l.pos + n;
        last' = l.pos;
        more = nul_ended s;
        returns = refl;
        base = record {
          is_max =
              ap (un_le 2) (
                w3.elsewhere 6 2 (inl (omega arith))
                ∙ w2.elsewhere 6 2 (inl (omega arith))
                ∙ w1.elsewhere 6 2 (inl (omega arith)))
              ∙ h.is_max;
          is_pos = Wrote-word 32 4 (l.pos + n) img2 img3 (omega (arith, h.small)) w3;
          is_last =
              ap (un_le 4) (w3.elsewhere 36 4 (inr (omega arith)))
              ∙ Wrote-word 36 4 l.pos img1 img2 (omega (arith, h.small)) w2;
          is_text =
              take-drop-split l.pos n (drop (stroff l) img3)
              ∙ ap (λ u. window (stroff l) l.pos img3 ++ take n u) (drop-drop (stroff l) l.pos img3)
              ∙ ap (λ u. u ++ window (stroff l + l.pos) n img3) old
              ∙ ap (λ u. text ++ u) new;
          word = h.word;
          whole = omega arith;
          small = omega (arith, h.small);
          last_within = omega arith;
        };
        stands = record {
          no_nul = (c_str-Split str s is).no_nul;
          inside = omega (arith, length-append text (nul_ended s));
          reads =
              ap (take n) (drop-append l.pos text (nul_ended s) (sym size))
              ∙ take_all n (nul_ended s) sized;
        };
        same_size = same_size;
        bounded = omega arith;
        elsewhere = elsewhere;
      }
    where
      elsewhere : (a k : ℕ) → Apart l a k → window a k img3 ≡ window a k img
      elsewhere a k (inl before) =
          w3.elsewhere a k (inl before)
          ∙ w2.elsewhere a k (inl (omega arith))
          ∙ w1.elsewhere a k (inl (omega arith))
      elsewhere a k (inr (behind, front)) =
          w3.elsewhere a k (inr (omega arith))
          ∙ w2.elsewhere a k (inr behind)
          ∙ w1.elsewhere a k (inl (omega arith))

  add_new :
      (grow : Grow)
      → Adds img l text s (do
        img ← write_at (stroff l + l.pos) (nul_ended s) img
        img ← set_word 36 4 l.pos img
        img ← set_word 32 4 (l.pos + (length s + 1)) img
        ok (l.pos, false, img))
  add_new grow =
      let (img1, e1, w1) =
        write_at-Wrote (stroff l + l.pos) (length s + 1) (nul_ended s) img
          (sym (length-nul_ended s)) (omega arith) in
      let (img2, e2, w2) = write_le-Wrote 36 4 l.pos img1 (omega (arith, w1.same_size)) in
      let (img3, e3, w3) =
        write_le-Wrote 32 4 (l.pos + (length s + 1)) img2
          (omega (arith, w1.same_size, w2.same_size)) in
      rw (e1, e2, e3) (add_behind img1 img2 img3 w1 w2 w3)

  -- With room for the string in the file, arb_disk_add_str returns without a fault, and without
  -- mapping the file again, an offset at which the string stands. All other strings stay where they
  -- are, and the rest of the file stays as it is.
  pub arb_disk_add_str-Adds : (grow : Grow) → Adds img l text s (arb_disk_add_str grow img str)
  unfolding arb_disk_add_str arb_disk_used_space
  arb_disk_add_str-Adds grow =
      let n = length s + 1 in
      let small = h.small in
      let within = h.last_within in
      let len : n % u32_mod ≡ n = omega arith in
      let last_len : (l.pos + u32_mod - l.last) % u32_mod ≡ l.pos - l.last = omega arith in
      let used : (stroff l + l.pos) % u32_mod ≡ stroff l + l.pos = omega arith in
      let needs : (stroff l + l.pos + n) % u32_mod ≡ stroff l + l.pos + n = omega arith in
      let fits = le→ltb (length img) (stroff l + l.pos + n) (omega arith) in
      let pos' : (l.pos + n) % u32_mod ≡ l.pos + n = omega arith in
      let new =
        read_at-window 0 n str (omega (arith, c_str-length str s is))
        ∙ ap ok (c_str-take str s is) in
      elim (Bool-cases (n == l.pos - l.last)) [
        | inl as_long ↦
            let same_len = ==→eq n (l.pos - l.last) as_long in
            let old = read_at-window (stroff l + l.last) n img (omega arith) in
            elim (Bool-cases (same_bytes (nul_ended s) (window (stroff l + l.last) n img))) [
              | inl same ↦
                  rw
                    (
                      strlen-ok str is,
                      reads_stroff h,
                      reads_pos h,
                      len,
                      used,
                      needs,
                      fits,
                      reads_stroff h,
                      reads_pos h,
                      reads_last h,
                      last_len,
                      as_long,
                      old,
                      new,
                      same,
                    )
                    (add_again (omega arith) (same_bytes→eq _ _ same))
              | inr other ↦
                  rw
                    (
                      strlen-ok str is,
                      reads_stroff h,
                      reads_pos h,
                      len,
                      used,
                      needs,
                      fits,
                      reads_stroff h,
                      reads_pos h,
                      reads_last h,
                      last_len,
                      as_long,
                      old,
                      new,
                      other,
                      pos',
                    )
                    (add_new grow)
            ]
        | inr other ↦
            rw
              (
                strlen-ok str is,
                reads_stroff h,
                reads_pos h,
                len,
                used,
                needs,
                fits,
                reads_stroff h,
                reads_pos h,
                reads_last h,
                last_len,
                other,
                new,
                pos',
              )
              (add_new grow)
      ]
