-- ===== src/ArbDisk/Image/Holds.antt =====
-- What an image holds: the layout of src/duallive/arbitrary_disk_impl.h over the bytes.
use duallive.Base.{
  ℕ, ◌+◌, ◌*◌, ◌^◌, ◌≤◌, ◌<◌, ◌≡◌, sym, ap, ◌∙◌, arith, List, ◌++◌, Bool, ◌&&◌, ◌==◌, length, take,
  drop, drop-drop, length-append, length-drop, drop-append_le, take-append_le, get_elem?, some, ok,
}
use duallive.Base.Memory.{Bytes, un_le, nul_ended, NoNul, c_str, c_str_of_take, same_bytes}
use duallive.Base.Patches.{window, window-window, length-window, read_word-window, read_at-window}
use duallive.ArbDisk.Image.Head.{
  disk_dli_of, dli_off, disk_dli_at, sizeof_disk_dli, sizeof_disk_head, head_dl_num,
  head_dl_num_max, head_str_pos, head_last_str_pos, arb_disk_stroff,
}

-- A pair of datasets as a record keeps it: host ids in order, and names.
pub record Key : Type 0 where
  pub host0 : ℕ
  pub host1 : ℕ
  pub name0 : Bytes
  pub name1 : Bytes

abbrev pub same_key : Key → Key → Bool
same_key p k =
    (p.host0 == k.host0)
    && ((p.host1 == k.host1) && (same_bytes p.name0 k.name0 && same_bytes p.name1 k.name1))

-- The string `s` stands in the strings at `off`, with its NUL.
pub record Stands (text : Bytes) (off : ℕ) (s : Bytes) : Type 0 where
  pub no_nul : NoNul s
  pub inside : off + length s + 1 ≤ length text
  pub reads : window off (length s + 1) text ≡ nul_ended s

-- 64 bytes are the record of a pair.
pub record Entry (text b : Bytes) (k : Key) : Type 0 where
  pub host0 : (disk_dli_of b).hostid0 ≡ k.host0
  pub host1 : (disk_dli_of b).hostid1 ≡ k.host1
  pub name0 : Stands text (disk_dli_of b).dataset0 k.name0
  pub name1 : Stands text (disk_dli_of b).dataset1 k.name1

-- dl_num_max, str_pos and last_str_pos
pub record Layout : Type 0 where
  pub max : ℕ
  pub pos : ℕ
  pub last : ℕ

abbrev pub stroff : Layout → ℕ
stroff l = sizeof_disk_head + sizeof_disk_dli * l.max

-- A file below 4 GB with the strings `text` and the head `l`, whatever its records are.
pub record IsBase (img : Bytes) (l : Layout) (text : Bytes) : Type 0 where
  pub is_max : un_le 2 (window 6 2 img) ≡ l.max
  pub is_pos : un_le 4 (window 32 4 img) ≡ l.pos
  pub is_last : un_le 4 (window 36 4 img) ≡ l.last
  pub is_text : window (stroff l) l.pos img ≡ text
  pub word : l.max < 2 ^ 16
  pub whole : stroff l + l.pos ≤ length img
  pub small : length img < 2 ^ 32
  pub last_within : l.last ≤ l.pos

-- And with the pairs `ps`.
pub record IsImage (img : Bytes) (l : Layout) (text : Bytes) (ps : List Key) : Type 0 where
  pub base : IsBase img l text
  pub is_num : un_le 2 (window 4 2 img) ≡ length ps
  pub few : length ps ≤ l.max
  pub entries :
      (i : ℕ) (k : Key)
      → get_elem? ps i ≡ some k
      → Entry text (window (dli_off i) sizeof_disk_dli img) k

module _ {img : Bytes} {l : Layout} {text : Bytes} (h : IsBase img l text) where
  pub length-text : length text ≡ l.pos
  length-text = ap length (sym h.is_text) ∙ length-window (stroff l) l.pos img h.whole

  pub reads_max : head_dl_num_max img ≡ ok l.max
  reads_max = read_word-window 6 2 img (omega (arith, h.whole)) ∙ ap ok h.is_max

  pub reads_pos : head_str_pos img ≡ ok l.pos
  reads_pos = read_word-window 32 4 img (omega (arith, h.whole)) ∙ ap ok h.is_pos

  pub reads_last : head_last_str_pos img ≡ ok l.last
  reads_last = read_word-window 36 4 img (omega (arith, h.whole)) ∙ ap ok h.is_last

  pub reads_stroff : arb_disk_stroff img ≡ ok (stroff l)
  unfolding arb_disk_stroff
  reads_stroff = rw reads_max (ap ok (omega (arith, h.word)))

  pub reads_dli :
      (i : ℕ)
      → i < l.max
      → disk_dli_at img i ≡ ok (disk_dli_of (window (dli_off i) sizeof_disk_dli img))
  unfolding disk_dli_at
  reads_dli i less = rw (read_at-window (dli_off i) sizeof_disk_dli img (omega (arith, h.whole)))

  -- A string of the image, from the file.
  pub Stands-c_str :
      (off : ℕ) (s : Bytes) → Stands text off s → c_str (drop off (drop (stroff l) img)) ≡ some s
  Stands-c_str off s st = c_str_of_take (drop off (drop (stroff l) img)) s st.no_nul (
      ap (take (length s + 1)) (drop-drop (stroff l) off img)
      ∙ sym (
          window-window off (length s + 1) (stroff l) l.pos img
            (omega (arith, st.inside, length-text)) h.whole)
      ∙ ap (window off (length s + 1)) h.is_text
      ∙ st.reads)

pub reads_num :
    {img : Bytes} {l : Layout} {text : Bytes} {ps : List Key}
    → IsImage img l text ps
    → head_dl_num img ≡ ok (length ps)
reads_num {img} h = read_word-window 4 2 img (omega (arith, h.base.whole)) ∙ ap ok h.is_num

-- Strings that are put behind the others leave those where they are.
pub Stands-append :
    (text more : Bytes) (off : ℕ) (s : Bytes) → Stands text off s → Stands (text ++ more) off s
Stands-append text more off s st = record {
  no_nul = st.no_nul;
  inside = omega (arith, st.inside, length-append text more);
  reads =
      ap (take (length s + 1)) (drop-append_le off text more (omega (arith, st.inside)))
      ∙ take-append_le (length s + 1) (drop off text) more
          (omega (arith, st.inside, length-drop off text))
      ∙ st.reads;
}

pub Entry-append : (text more b : Bytes) (k : Key) → Entry text b k → Entry (text ++ more) b k
Entry-append text more b k e = record {
  host0 = e.host0;
  host1 = e.host1;
  name0 = Stands-append text more _ k.name0 e.name0;
  name1 = Stands-append text more _ k.name1 e.name1;
}
