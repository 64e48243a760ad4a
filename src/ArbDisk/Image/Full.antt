-- ===== src/ArbDisk/Image/Full.antt =====
-- arb_disk_insert_dli of src/duallive/arbitrary_disk.c where the array of records is full.
use duallive.Base.{
  ℕ, zero, ◌+◌, ◌-◌, ◌*◌, ◌%◌, ◌^◌, ◌≤◌, ◌<◌, ◌≡◌, ◌⊎◌, refl, ap, ◌∙◌, arith, inl, inr, List, ◌++◌,
  ltb, if◌then◌else◌, Bool-cases, eq→==, length, length-append, length-replicate, replicate, take,
  drop, drop-append_le, take-append_le, length-drop, none, some, Option-cases, Outcome, ok, fault,
  out_of_bounds, verify_failed,
}
use duallive.Base.Memory.{Bytes, un_le, read_at-beyond}
use duallive.Base.Patches.{window}
use duallive.Kmem.{u32_mod}
use duallive.Duallive.{Desc}
use duallive.ArbDisk.{desc_standard}
use duallive.ArbDisk.Image.Head.{
  sizeof_disk_dli, align_to_page, arb_disk_used_space, arb_disk_idle_space,
}
use duallive.ArbDisk.Image.{
  Grow, arb_disk_expand, arb_disk_strbuf_shift, arb_disk_expand_dli_space, arb_disk_insert_dli,
}
use duallive.ArbDisk.Image.Holds.{
  Key, Layout, stroff, IsBase, IsImage, reads_num, reads_max, reads_pos, reads_stroff,
}
use duallive.ArbDisk.Image.Find.{IsKey, index_of, arb_disk_find_dli-index_of}

-- What file_map_expand does when it succeeds: it adds zero bytes at the end.
abbrev pub Appends : Grow → Type 0
Appends grow = (img img' : Bytes) (n : ℕ) → grow img n ≡ some img' → img' ≡ img ++ replicate n 0

window-append :
    (a n : ℕ) (m more : Bytes) → a + n ≤ length m → window a n (m ++ more) ≡ window a n m
window-append a n m more h =
    ap (take n) (drop-append_le a m more (omega arith))
    ∙ take-append_le n (drop a m) more (omega (arith, length-drop a m))

IsBase-append :
    {img : Bytes} {l : Layout} {text : Bytes} (more : Bytes)
    → IsBase img l text
    → length img + length more < 2 ^ 32
    → IsBase (img ++ more) l text
IsBase-append {img} {l} more h small = record {
  is_max = ap (un_le 2) (window-append 6 2 img more (omega (arith, h.whole))) ∙ h.is_max;
  is_pos = ap (un_le 4) (window-append 32 4 img more (omega (arith, h.whole))) ∙ h.is_pos;
  is_last = ap (un_le 4) (window-append 36 4 img more (omega (arith, h.whole))) ∙ h.is_last;
  is_text = window-append (stroff l) l.pos img more h.whole ∙ h.is_text;
  word = h.word;
  whole = omega (arith, h.whole, length-append img more);
  small = omega (arith, length-append img more);
  last_within = h.last_within;
}

-- The move of the strings: its length wraps around where the strings are shorter than what stands
-- before them.
strbuf_shift-faults :
    {img : Bytes} {l : Layout} {text : Bytes} (off : ℕ)
    → IsBase img l text
    → l.pos < stroff l
    → arb_disk_strbuf_shift img off ≡ fault out_of_bounds
unfolding arb_disk_strbuf_shift
strbuf_shift-faults {img} {l} off h short =
    let len : (l.pos + u32_mod - stroff l) % u32_mod ≡ l.pos + u32_mod - stroff l =
      omega (arith, h.word) in
    rw (
      reads_pos h,
      reads_stroff h,
      len,
      read_at-beyond (stroff l) (l.pos + u32_mod - stroff l) img (omega (arith, h.small, h.word)),
    )

-- A run that ends in an access out of bounds or in a VERIFY that fails.
abbrev pub Fails {ℓ} : {A : Type ℓ} → Outcome A → Type ℓ
Fails r = (r ≡ fault out_of_bounds) ⊎ (r ≡ fault verify_failed)

abbrev idle : Bytes → Layout → ℕ
idle img l =
    if ltb (stroff l + l.pos) (length img) then (length img - (stroff l + l.pos)) % u32_mod else 0

reads_idle :
    {img : Bytes} {l : Layout} {text : Bytes}
    → IsBase img l text
    → arb_disk_idle_space img ≡ ok (idle img l)
unfolding arb_disk_idle_space arb_disk_used_space
reads_idle {img} {l} h =
    let used : (stroff l + l.pos) % u32_mod ≡ stroff l + l.pos = omega (arith, h.small, h.whole) in
    rw (reads_stroff h, reads_pos h, used)

expand_dli_space-Fails :
    {img : Bytes} {l : Layout} {text : Bytes} (grow : Grow)
    → IsBase img l text
    → Appends grow
    → l.pos < stroff l
    → length img + sizeof_disk_dli * l.max < 2 ^ 32
    → Fails (arb_disk_expand_dli_space grow img)
unfolding arb_disk_expand_dli_space arb_disk_expand
expand_dli_space-Fails {img} {l} grow h appends short small =
    let size = sizeof_disk_dli * l.max in
    elim (Bool-cases (ltb (idle img l) size)) [
      | inr enough ↦
          rw (reads_max h, reads_idle h, enough, strbuf_shift-faults size h short) (inl refl)
      | inl tight ↦ elim (Option-cases (grow img (align_to_page size))) [
        | inl failed ↦ rw (reads_max h, reads_idle h, tight, arb_disk_expand, failed) (inr refl)
        | inr (img', grown) ↦
            let zeros = length-replicate (align_to_page size) zero in
            let h' = IsBase-append (replicate (align_to_page size) 0) h (omega arith) in
            rw
              (
                reads_max h,
                reads_idle h,
                tight,
                arb_disk_expand,
                grown,
                appends img img' (align_to_page size) grown,
                strbuf_shift-faults size h' short,
              )
              (inl refl)
      ]
    ]

-- On an image whose array of records is full, and whose strings are shorter than the head and the
-- array, arb_disk_insert_dli of a new pair ends in an access out of bounds, or in the VERIFY of
-- arb_disk_expand if the file cannot grow. Conditions: a file that grows gets zero bytes at its end, and
-- it stays below 4 GB.
pub arb_disk_insert_dli-Fails :
    {img : Bytes} {l : Layout} {text : Bytes} {ps : List Key} (grow : Grow) (d tmp tmp2 : Desc)
    (k : Key)
    → IsImage img l text ps
    → IsKey (desc_standard (desc_standard d tmp) tmp2) k
    → Appends grow
    → index_of k ps ≡ none
    → length ps ≡ l.max
    → l.pos < stroff l
    → length img + sizeof_disk_dli * l.max < 2 ^ 32
    → Fails (arb_disk_insert_dli grow img d tmp tmp2)
unfolding arb_disk_insert_dli
arb_disk_insert_dli-Fails {img} {l} {ps} grow d tmp tmp2 k h is appends new full short small =
    let finds = arb_disk_find_dli-index_of (desc_standard d tmp) tmp2 k h is in
    let is_full = eq→== (length ps) l.max full in
    elim (expand_dli_space-Fails grow h.base appends short small) [
      | inl beyond ↦ rw (finds, new, reads_num h, reads_max h.base, is_full, beyond) (inl refl)
      | inr verify ↦ rw (finds, new, reads_num h, reads_max h.base, is_full, verify) (inr refl)
    ]
