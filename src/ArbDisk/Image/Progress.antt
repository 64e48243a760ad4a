-- ===== src/ArbDisk/Image/Progress.antt =====
-- A record that is filled word by word: arb_disk_insert_dli of src/duallive/arbitrary_disk.c.
use duallive.Base.{
  ℕ, ◌+◌, ◌≤◌, ◌<◌, ◌≡◌, ◌⊎◌, refl, ap, ◌∙◌, arith, inl, inr, List, [], ◌++◌, Bool, false, length,
  take, drop, take-drop-split, drop-drop, some, Outcome, ok, Returns,
}
use duallive.Base.Memory.{Bytes, le, un_le, c_str}
use duallive.Base.Patches.{window, Wrote, write_le-Wrote}
use duallive.ArbDisk.Image.Head.{set_word, dli_off, sizeof_disk_dli}
use duallive.ArbDisk.Image.{Grow, arb_disk_add_str}
use duallive.ArbDisk.Image.Holds.{Key, Layout, stroff, IsBase, IsImage, Stands}
use duallive.ArbDisk.Image.Strings.{arb_disk_add_str-Adds}

-- A part of the file that is neither dl_num_max nor the strings and their positions.
abbrev pub Clear : Layout → ℕ → ℕ → Type 0
Clear l off n = (off + n ≤ 6) ⊎ (((8 ≤ off) × (off + n ≤ 32)) ⊎ ((40 ≤ off) × (off + n ≤ stroff l)))

-- Writes there keep the rest.
pub IsBase-Wrote :
    {l : Layout} {text img img' bs : Bytes} (off n : ℕ)
    → Wrote off n bs img img'
    → Clear l off n
    → IsBase img l text
    → IsBase img' l text
IsBase-Wrote {l} {img} {img'} off n w clear h = record {
  is_max = ap (un_le 2) (w.elsewhere 6 2 (apart clear)) ∙ h.is_max;
  is_pos = ap (un_le 4) (w.elsewhere 32 4 (apart_pos clear)) ∙ h.is_pos;
  is_last = ap (un_le 4) (w.elsewhere 36 4 (apart_last clear)) ∙ h.is_last;
  is_text = w.elsewhere (stroff l) l.pos (apart_text clear) ∙ h.is_text;
  word = h.word;
  whole = omega (arith, h.whole, w.same_size);
  small = omega (arith, h.small, w.same_size);
  last_within = h.last_within;
}
  where
    apart : Clear l off n → (6 + 2 ≤ off) ⊎ (off + n ≤ 6)
    apart (inl c) = inr c
    apart (inr (inl (a, b))) = inl a
    apart (inr (inr (a, b))) = inl (omega arith)

    apart_pos : Clear l off n → (32 + 4 ≤ off) ⊎ (off + n ≤ 32)
    apart_pos (inl c) = inr (omega arith)
    apart_pos (inr (inl (a, b))) = inr b
    apart_pos (inr (inr (a, b))) = inl (omega arith)

    apart_last : Clear l off n → (36 + 4 ≤ off) ⊎ (off + n ≤ 36)
    apart_last (inl c) = inr (omega arith)
    apart_last (inr (inl (a, b))) = inr (omega arith)
    apart_last (inr (inr (a, b))) = inl a

    apart_text : Clear l off n → (stroff l + l.pos ≤ off) ⊎ (off + n ≤ stroff l)
    apart_text (inl c) = inr (omega arith)
    apart_text (inr (inl (a, b))) = inr (omega arith)
    apart_text (inr (inr (a, b))) = inr b

-- The record at place `n` of a file that was `img` has its first `m` bytes, `done`.
pub record Progress (img : Bytes) (n m : ℕ) (done : Bytes) (l : Layout) (text cur : Bytes)
    : Type 0 where
  pub base : IsBase cur l text
  pub is_num : window 4 2 cur ≡ le 2 (n + 1)
  pub others :
      (i : ℕ)
      → i < n
      → window (dli_off i) sizeof_disk_dli cur ≡ window (dli_off i) sizeof_disk_dli img
  pub filled : window (dli_off n) m cur ≡ done
  pub same_size : length cur ≡ length img

-- A string is added, and the record stays.
pub record Texted (img : Bytes) (n m : ℕ) (done : Bytes) (l : Layout) (text s : Bytes)
    (r : Outcome (ℕ × Bool × Bytes)) : Type 0 where
  pub off : ℕ
  pub cur' : Bytes
  pub l' : Layout
  pub more : Bytes
  pub returns : r ≡ ok (off, false, cur')
  pub progress : Progress img n m done l' (text ++ more) cur'
  pub stands : Stands (text ++ more) off s
  pub same_max : l'.max ≡ l.max
  pub bounded : l'.pos ≤ l.pos + length s + 1

module _ {img : Bytes} {n : ℕ} where
  -- dl_num is counted up.
  pub start :
      {l : Layout} {text : Bytes} {ps : List Key}
      → IsImage img l text ps
      → n ≡ length ps
      → Returns (Progress img n 0 [] l text) (set_word 4 2 (n + 1) img)
  start h e =
      let (img', returns, w) = write_le-Wrote 4 2 (n + 1) img (omega (arith, h.base.whole)) in
      (
        img',
        returns,
        record {
          base = IsBase-Wrote 4 2 w (inl (omega arith)) h.base;
          is_num = w.here;
          others = λ i less. w.elsewhere (dli_off i) sizeof_disk_dli (inr (omega arith));
          filled = refl;
          same_size = w.same_size;
        },
      )

  -- One more word of the record.
  pub step_word :
      {m : ℕ} {done : Bytes} {l : Layout} {text cur : Bytes} (v : ℕ)
      → Progress img n m done l text cur
      → m + 4 ≤ sizeof_disk_dli
      → n < l.max
      → Returns (Progress img n (m + 4) (done ++ le 4 v) l text) (set_word (dli_off n + m) 4 v cur)
  step_word {m} {done} {cur} v p fits room =
      let (cur', returns, w) =
        write_le-Wrote (dli_off n + m) 4 v cur (omega (arith, p.base.whole)) in
      (
        cur',
        returns,
        record {
          base = IsBase-Wrote (dli_off n + m) 4 w (inr (inr (omega arith))) p.base;
          is_num = w.elsewhere 4 2 (inl (omega arith)) ∙ p.is_num;
          others = λ i less.
              w.elsewhere (dli_off i) sizeof_disk_dli (inl (omega arith)) ∙ p.others i less;
          filled =
              take-drop-split m 4 (drop (dli_off n) cur')
              ∙ ap (λ u. window (dli_off n) m cur' ++ take 4 u) (drop-drop (dli_off n) m cur')
              ∙ ap (λ u. u ++ window (dli_off n + m) 4 cur')
                  (w.elsewhere (dli_off n) m (inl (omega arith)) ∙ p.filled)
              ∙ ap (λ u. done ++ u) w.here;
          same_size = w.same_size ∙ p.same_size;
        },
      )

  -- A word of the head between dl_num_max and str_pos.
  pub step_head :
      {m : ℕ} {done : Bytes} {l : Layout} {text cur : Bytes} (off k v : ℕ)
      → Progress img n m done l text cur
      → 8 ≤ off
      → off + k ≤ 32
      → Returns (Progress img n m done l text) (set_word off k v cur)
  step_head {m} {cur} off k v p above below =
      let (cur', returns, w) = write_le-Wrote off k v cur (omega (arith, p.base.whole)) in
      (
        cur',
        returns,
        record {
          base = IsBase-Wrote off k w (inr (inl (above, below))) p.base;
          is_num = w.elsewhere 4 2 (inl (omega arith)) ∙ p.is_num;
          others = λ i less.
              w.elsewhere (dli_off i) sizeof_disk_dli (inr (omega arith)) ∙ p.others i less;
          filled = w.elsewhere (dli_off n) m (inr (omega arith)) ∙ p.filled;
          same_size = w.same_size ∙ p.same_size;
        },
      )

  pub step_str :
      {m : ℕ} {done : Bytes} {l : Layout} {text cur : Bytes} (grow : Grow) (str s : Bytes)
      → Progress img n m done l text cur
      → m ≤ sizeof_disk_dli
      → n < l.max
      → c_str str ≡ some s
      → stroff l + l.pos + length s + 1 ≤ length img
      → Texted img n m done l text s (arb_disk_add_str grow cur str)
  step_str {m} {l} grow str s p fits room is space =
      let a = arb_disk_add_str-Adds p.base str s is (omega (arith, p.same_size)) grow in
      record {
        off = a.off;
        cur' = a.img';
        l' = record { max = l.max; pos = a.pos'; last = a.last' };
        more = a.more;
        returns = a.returns;
        progress = record {
          base = a.base;
          is_num = a.elsewhere 4 2 (inl (omega arith)) ∙ p.is_num;
          others = λ i less.
              a.elsewhere (dli_off i) sizeof_disk_dli (inr (omega arith)) ∙ p.others i less;
          filled = a.elsewhere (dli_off n) m (inr (omega arith)) ∙ p.filled;
          same_size = a.same_size ∙ p.same_size;
        };
        stands = a.stands;
        same_max = refl;
        bounded = a.bounded;
      }
