-- ===== src/ArbDisk/Image/Remove.antt =====
-- arb_disk_remove_dli of src/duallive/arbitrary_disk.c.
use duallive.Base.{
  ℕ, zero, suc, ◌+◌, ◌-◌, ◌≤◌, ◌<◌, ◌≡◌, ◌⊎◌, refl, sym, ap, subst, ◌∙◌, arith, inl, inr, List, [],
  ◌∷◌, lt→ltb, length, get_elem?, get_elem?-lt, none, some, Option-cases, Returns,
}
use duallive.Base.Memory.{Bytes, le, un_le}
use duallive.Base.Patches.{
  window, length-window, read_at-window, Wrote, write_at-Wrote, write_le-Wrote, Wrote-word,
}
use duallive.Duallive.{Desc}
use duallive.ArbDisk.{desc_standard}
use duallive.ArbDisk.Select.{lt_tri}
use duallive.ArbDisk.Image.Head.{dli_off, sizeof_disk_dli}
use duallive.ArbDisk.Image.{move_down, arb_disk_remove_dli}
use duallive.ArbDisk.Image.Holds.{Key, Layout, stroff, Entry, IsImage, reads_num}
use duallive.ArbDisk.Image.Find.{IsKey, index_of, index_of-lt, arb_disk_find_dli-index_of}

-- The list without its element `i`.
pub remove_at : List Key → ℕ → List Key
remove_at [] i = []
remove_at (p ∷ ps) zero = ps
remove_at (p ∷ ps) (suc i) = p ∷ remove_at ps i

-- The list without the pair.
pub without : Key → List Key → List Key
unfolding remove_at
without k ps = elim (index_of k ps) [ none ↦ ps | some i ↦ remove_at ps i ]

length-remove_at : (ps : List Key) (i : ℕ) → i < length ps → length (remove_at ps i) + 1 ≡ length ps
unfolding remove_at
length-remove_at [] i h = absurd (omega arith)
length-remove_at (p ∷ ps) zero h = omega arith
length-remove_at (p ∷ ps) (suc i) h = omega (arith, length-remove_at ps i)

-- An element of the shorter list stands where it did, or one place before.
get_elem?-remove_at :
    (ps : List Key) (i j : ℕ) {q : Key}
    → get_elem? (remove_at ps i) j ≡ some q
    → ((j < i) × (get_elem? ps j ≡ some q)) ⊎ ((i ≤ j) × (get_elem? ps (suc j) ≡ some q))
unfolding remove_at
get_elem?-remove_at [] i j e = absurd (ground arith)
get_elem?-remove_at (p ∷ ps) zero j e = inr (omega arith, e)
get_elem?-remove_at (p ∷ ps) (suc i) zero e = inl (omega arith, e)
get_elem?-remove_at (p ∷ ps) (suc i) (suc j) e = elim (get_elem?-remove_at ps i j e) [
  | inl (less, f) ↦ inl (omega arith, f)
  | inr (more, f) ↦ inr (omega arith, f)
]

-- The records from `i` on are moved down by one place.
record Moved (img : Bytes) (left i : ℕ) (img' : Bytes) : Type 0 where
  same_size : length img' ≡ length img
  moved :
      (j : ℕ)
      → i ≤ j
      → j < i + left
      → window (dli_off j) sizeof_disk_dli img' ≡ window (dli_off (j + 1)) sizeof_disk_dli img
  elsewhere :
      (a k : ℕ) → (a + k ≤ dli_off i) ⊎ (dli_off (i + left) ≤ a) → window a k img' ≡ window a k img

Moved-step :
    {img img1 img' : Bytes} (left i : ℕ)
    → Wrote (dli_off i) sizeof_disk_dli (window (dli_off (i + 1)) sizeof_disk_dli img) img img1
    → Moved img1 left (i + 1) img'
    → Moved img (suc left) i img'
Moved-step {img} {img1} {img'} left i w m = record {
  same_size = m.same_size ∙ w.same_size;
  moved = moved;
  elsewhere = elsewhere;
}
  where
    moved :
        (j : ℕ)
        → i ≤ j
        → j < i + suc left
        → window (dli_off j) sizeof_disk_dli img' ≡ window (dli_off (j + 1)) sizeof_disk_dli img
    moved j above below = elim (lt_tri i j) [
      | inl later ↦
          m.moved j (omega arith) (omega arith)
          ∙ w.elsewhere (dli_off (j + 1)) sizeof_disk_dli (inr (omega arith))
      | inr (inl before) ↦ absurd (omega arith)
      | inr (inr here) ↦
          subst
            (λ n.
              window (dli_off n) sizeof_disk_dli img'
              ≡ window (dli_off (n + 1)) sizeof_disk_dli img)
            here (m.elsewhere (dli_off i) sizeof_disk_dli (inl (omega arith)) ∙ w.here)
    ]

    elsewhere :
        (a k : ℕ)
        → (a + k ≤ dli_off i) ⊎ (dli_off (i + suc left) ≤ a)
        → window a k img' ≡ window a k img
    elsewhere a k (inl before) = m.elsewhere a k (inl (omega arith)) ∙ w.elsewhere a k (inl before)
    elsewhere a k (inr behind) =
        m.elsewhere a k (inr (omega arith)) ∙ w.elsewhere a k (inr (omega arith))

move_down-Moved :
    (img : Bytes) (left i : ℕ)
    → dli_off (i + left + 1) ≤ length img
    → Returns (Moved img left i) (move_down img left i)
unfolding move_down
move_down-Moved img zero i h = (
  img,
  refl,
  record {
    same_size = refl;
    moved = λ j above below. absurd (omega arith);
    elsewhere = λ a k apart. refl;
  },
)
move_down-Moved img (suc left) i h =
    let b = window (dli_off (i + 1)) sizeof_disk_dli img in
    let reads = read_at-window (dli_off (i + 1)) sizeof_disk_dli img (omega arith) in
    let size = length-window (dli_off (i + 1)) sizeof_disk_dli img (omega arith) in
    let (img1, writes, w) =
      write_at-Wrote (dli_off i) sizeof_disk_dli b img (sym size) (omega arith) in
    let (img', returns, m) = move_down-Moved img1 left (i + 1) (omega (arith, w.same_size)) in
    rw (reads, writes) (img', returns, Moved-step left i w m)

-- Without the record at `i`.
removed_at :
    {img : Bytes} {l : Layout} {text : Bytes} {ps : List Key} (i : ℕ) (img1 img' : Bytes)
    → IsImage img l text ps
    → i < length ps
    → Wrote 4 2 (le 2 (length ps - 1)) img img1
    → Moved img1 (length ps - 1 - i) i img'
    → IsImage img' l text (remove_at ps i)
removed_at {img} {l} {text} {ps} i img1 img' h less w m =
    let base = h.base in
    let size = length-remove_at ps i less in
    record {
      base = record {
        is_max =
            ap (un_le 2) (m.elsewhere 6 2 (inl (omega arith)) ∙ w.elsewhere 6 2 (inr (omega arith)))
            ∙ base.is_max;
        is_pos =
            ap (un_le 4)
              (m.elsewhere 32 4 (inl (omega arith)) ∙ w.elsewhere 32 4 (inr (omega arith)))
            ∙ base.is_pos;
        is_last =
            ap (un_le 4)
              (m.elsewhere 36 4 (inl (omega arith)) ∙ w.elsewhere 36 4 (inr (omega arith)))
            ∙ base.is_last;
        is_text =
            m.elsewhere (stroff l) l.pos (inr (omega (arith, h.few)))
            ∙ w.elsewhere (stroff l) l.pos (inr (omega arith))
            ∙ base.is_text;
        word = base.word;
        whole = omega (arith, base.whole, w.same_size, m.same_size);
        small = omega (arith, base.small, w.same_size, m.same_size);
        last_within = base.last_within;
      };
      is_num =
          ap (un_le 2) (m.elsewhere 4 2 (inl (omega arith)))
          ∙ Wrote-word 4 2 (length ps - 1) img img1 (omega (arith, h.few, base.word)) w
          ∙ omega arith;
      few = omega (arith, h.few);
      entries = λ j q e. elim (get_elem?-remove_at ps i j e) [
        | inl (before, old) ↦
            subst (λ b. Entry text b q)
              (sym (
                m.elsewhere (dli_off j) sizeof_disk_dli (inl (omega arith))
                ∙ w.elsewhere (dli_off j) sizeof_disk_dli (inr (omega arith))))
              (h.entries j q old)
        | inr (behind, old) ↦
            let inside = get_elem?-lt ps (suc j) old in
            subst (λ b. Entry text b q)
              (sym (
                m.moved j behind (omega arith)
                ∙ w.elsewhere (dli_off (j + 1)) sizeof_disk_dli (inr (omega arith))
                ∙ ap (λ n. window (dli_off n) sizeof_disk_dli img) (omega arith)))
              (h.entries (suc j) q old)
      ];
    }

-- arb_disk_remove_dli returns without a fault. The pair is taken out of the list, where the pairs
-- behind it move up; if it is not there, the list stays as it is. The strings stay.
pub arb_disk_remove_dli-without :
    {img : Bytes} {l : Layout} {text : Bytes} {ps : List Key} (d tmp : Desc) (k : Key)
    → IsImage img l text ps
    → IsKey (desc_standard d tmp) k
    → Returns (λ img'. IsImage img' l text (without k ps)) (arb_disk_remove_dli img d tmp)
unfolding arb_disk_remove_dli without
arb_disk_remove_dli-without {img} {l} {text} {ps} d tmp k h is =
    let finds = arb_disk_find_dli-index_of d tmp k h is in
    elim (Option-cases (index_of k ps)) [
      | inl absent ↦ rw (finds, without, absent) (img, refl, h)
      | inr (i, there) ↦
          let less = index_of-lt k ps there in
          let (img1, writes, w) =
            write_le-Wrote 4 2 (length ps - 1) img (omega (arith, h.base.whole)) in
          let (img', moves, m) =
            move_down-Moved img1 (length ps - 1 - i) i
              (omega (arith, h.few, h.base.whole, w.same_size)) in
          rw (finds, without, there, reads_num h, lt→ltb 0 (length ps) (omega arith), writes, moves)
            (img', refl, removed_at i img1 img' h less w m)
    ]
