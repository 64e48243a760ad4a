-- ===== src/ArbDisk/Image/Format.antt =====
-- arb_disk_format of src/duallive/arbitrary_disk.c.
use duallive.Base.{
  ℕ, ◌+◌, ◌-◌, ◌^◌, ◌≤◌, ◌<◌, ◌≡◌, refl, ap, ◌∙◌, arith, inl, inr, [], ◌∷◌, length, take, replicate,
  length-replicate, drop-replicate, take-replicate, get_elem?, some, ok, Returns,
}
use duallive.Base.Memory.{un_le}
use duallive.Base.Patches.{window, read_word-window, write_at-Wrote, write_le-Wrote, Wrote-word}
use duallive.ArbDisk.Image.Head.{
  disk_magic, dfl_dli_num, disk_min_size, arb_disk_stroff, head_dl_num_max,
}
use duallive.ArbDisk.Image.{arb_disk_format}
use duallive.ArbDisk.Image.Holds.{Key, Layout, IsImage}

window-replicate : (off n k : ℕ) → off + n ≤ k → window off n (replicate k 0) ≡ replicate n 0
window-replicate off n k h =
    ap (take n) (drop-replicate off k 0 (omega arith)) ∙ take-replicate n (k - off) 0 (omega arith)

no_element : (i : ℕ) {k : Key} → get_elem? [] i ≡ some k → ⊥
no_element i e = ground arith

-- The head of a formatted file.
abbrev pub empty_layout : Layout
empty_layout = record { max = dfl_dli_num; pos = 1; last = 0 }

-- The last byte that is written is the empty string.
pub arb_disk_format-returns :
    (size : ℕ) → 321 ≤ size → Returns (λ img. length img ≡ size) (arb_disk_format size)
unfolding arb_disk_format arb_disk_stroff un_le
arb_disk_format-returns size enough =
    let img0 = replicate size 0 in
    let size0 = length-replicate size 0 in
    let (img1, e1, w1) = write_le-Wrote 0 4 disk_magic img0 (omega arith) in
    let (img2, e2, w2) = write_le-Wrote 6 2 dfl_dli_num img1 (omega (arith, w1.same_size)) in
    let same2 : length img2 ≡ size = w2.same_size ∙ w1.same_size ∙ size0 in
    let (img3, e3, w3) = write_at-Wrote 320 1 (0 ∷ []) img2 refl (omega (arith, same2)) in
    let (img4, e4, w4) = write_le-Wrote 32 4 1 img3 (omega (arith, same2, w3.same_size)) in
    let (img5, e5, w5) =
      write_le-Wrote 36 4 0 img4 (omega (arith, same2, w3.same_size, w4.same_size)) in
    let max : un_le 2 (window 6 2 img2) ≡ 4 = Wrote-word 6 2 4 img1 img2 (omega arith) w2 in
    let reads : head_dl_num_max img2 ≡ ok 4 =
      read_word-window 6 2 img2 (omega (arith, same2)) ∙ ap ok max in
    rw (e1, e2, reads, e3, e4, e5) (img5, refl, w5.same_size ∙ w4.same_size ∙ w3.same_size ∙ same2)

-- arb_disk_format on a mapping of at least ARB_DISK_MIN_SIZE bytes, below 4 GB, returns without a
-- fault an image with room for 4 pairs, of which it holds none, and with the empty string.
pub arb_disk_format-IsImage :
    (size : ℕ)
    → disk_min_size ≤ size
    → size < 2 ^ 32
    → Returns
        (λ img. IsImage img empty_layout (0 ∷ []) [] × (length img ≡ size))
        (arb_disk_format size)
unfolding arb_disk_format arb_disk_stroff un_le
arb_disk_format-IsImage size enough small =
    let img0 = replicate size 0 in
    let size0 = length-replicate size 0 in
    let (img1, e1, w1) = write_le-Wrote 0 4 disk_magic img0 (omega arith) in
    let (img2, e2, w2) = write_le-Wrote 6 2 dfl_dli_num img1 (omega (arith, w1.same_size)) in
    let (img3, e3, w3) =
      write_at-Wrote 320 1 (0 ∷ []) img2 refl (omega (arith, w1.same_size, w2.same_size)) in
    let (img4, e4, w4) =
      write_le-Wrote 32 4 1 img3 (omega (arith, w1.same_size, w2.same_size, w3.same_size)) in
    let (img5, e5, w5) =
      write_le-Wrote 36 4 0 img4
        (omega (arith, w1.same_size, w2.same_size, w3.same_size, w4.same_size)) in
    let same : length img5 ≡ size =
      w5.same_size ∙ w4.same_size ∙ w3.same_size ∙ w2.same_size ∙ w1.same_size ∙ size0 in
    let max : un_le 2 (window 6 2 img2) ≡ 4 = Wrote-word 6 2 4 img1 img2 (omega arith) w2 in
    let fits2 : 8 ≤ length img2 = omega (arith, w1.same_size, w2.same_size) in
    let reads : head_dl_num_max img2 ≡ ok 4 = read_word-window 6 2 img2 fits2 ∙ ap ok max in
    rw (e1, e2, reads, e3, e4, e5)
      (
        img5,
        refl,
        (
          record {
            base = record {
              is_max =
                  ap (un_le 2) (
                    w5.elsewhere 6 2 (inl (omega arith))
                    ∙ w4.elsewhere 6 2 (inl (omega arith))
                    ∙ w3.elsewhere 6 2 (inl (omega arith)))
                  ∙ max;
              is_pos =
                  ap (un_le 4) (w5.elsewhere 32 4 (inl (omega arith)))
                  ∙ Wrote-word 32 4 1 img3 img4 (omega arith) w4;
              is_last = Wrote-word 36 4 0 img4 img5 (omega arith) w5;
              is_text =
                  w5.elsewhere 320 1 (inr (omega arith))
                  ∙ w4.elsewhere 320 1 (inr (omega arith))
                  ∙ w3.here;
              word = omega arith;
              whole = omega arith;
              small = omega arith;
              last_within = omega arith;
            };
            is_num = ap (un_le 2) (
                w5.elsewhere 4 2 (inl (omega arith))
                ∙ w4.elsewhere 4 2 (inl (omega arith))
                ∙ w3.elsewhere 4 2 (inl (omega arith))
                ∙ w2.elsewhere 4 2 (inl (omega arith))
                ∙ w1.elsewhere 4 2 (inr (omega arith))
                ∙ window-replicate 4 2 size (omega arith));
            few = omega arith;
            entries = λ i k e. absurd (no_element i e);
          },
          same,
        ),
      )
