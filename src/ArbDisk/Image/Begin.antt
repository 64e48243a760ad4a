-- ===== src/ArbDisk/Image/Begin.antt =====
-- The first words of a new record: arb_disk_insert_dli of src/duallive/arbitrary_disk.c.
use duallive.Base.{
  ℕ, ◌+◌, ◌^◌, ◌≤◌, ◌<◌, ◌≡◌, refl, ap, ◌∙◌, arith, List, [], ◌++◌, Bool, false, length, some,
  Outcome, ok,
}
use duallive.Base.Memory.{Bytes, le, c_str}
use duallive.ArbDisk.Image.Head.{set_word, dli_off, sizeof_disk_dli}
use duallive.ArbDisk.Image.{Grow, arb_disk_add_str}
use duallive.ArbDisk.Image.Holds.{Key, Layout, stroff, Stands, length-text, IsBase, IsImage}
use duallive.ArbDisk.Image.Progress.{Progress, start, step_word, step_str}

pub off_small :
    {l : Layout} {text cur s : Bytes} {off : ℕ}
    → IsBase cur l text
    → Stands text off s
    → off < 2 ^ 32
off_small b st = omega (arith, st.inside, length-text b, b.whole, b.small)

-- The first words of the new record.
pub record Begun (img : Bytes) (n : ℕ) (l : Layout) (text : Bytes) (host0 host1 : ℕ) : Type 0 where
  pub c1 : Bytes
  pub c2 : Bytes
  pub c3 : Bytes
  pub returns1 : set_word 4 2 (n + 1) img ≡ ok c1
  pub returns2 : set_word (dli_off n) 4 host0 c1 ≡ ok c2
  pub returns3 : set_word (dli_off n + 4) 4 host1 c2 ≡ ok c3
  pub progress : Progress img n 8 (([] ++ le 4 host0) ++ le 4 host1) l text c3

pub begun :
    {img : Bytes} {l : Layout} {text : Bytes} {ps : List Key} (host0 host1 : ℕ)
    → IsImage img l text ps
    → length ps < l.max
    → Begun img (length ps) l text host0 host1
begun {img} {l} {ps} host0 host1 h room =
    let (c1, e1, p1) = start h refl in
    let (c2, e2, p2) = step_word host0 p1 (omega arith) room in
    let (c3, e3, p3) = step_word host1 p2 (omega arith) room in
    record {
      c1 = c1;
      c2 = c2;
      c3 = c3;
      returns1 = e1;
      returns2 = ap (λ o. set_word o 4 host0 c1) (omega arith) ∙ e2;
      returns3 = e3;
      progress = p3;
    }

-- A name that is added, and the word that refers to it.
pub record Named (img : Bytes) (n m : ℕ) (done : Bytes) (l : Layout) (text s : Bytes)
    (r : Outcome (ℕ × Bool × Bytes)) : Type 0 where
  pub off : ℕ
  pub cur : Bytes
  pub cur' : Bytes
  pub l' : Layout
  pub more : Bytes
  pub returns : r ≡ ok (off, false, cur)
  pub returns' : set_word (dli_off n + m) 4 off cur ≡ ok cur'
  pub progress : Progress img n (m + 4) (done ++ le 4 off) l' (text ++ more) cur'
  pub stands : Stands (text ++ more) off s
  pub same_max : l'.max ≡ l.max
  pub bounded : l'.pos ≤ l.pos + length s + 1
  pub small : off < 2 ^ 32

pub named :
    {img : Bytes} {n m : ℕ} {done : Bytes} {l : Layout} {text cur : Bytes} (grow : Grow)
    (str s : Bytes)
    → Progress img n m done l text cur
    → m + 4 ≤ sizeof_disk_dli
    → n < l.max
    → c_str str ≡ some s
    → stroff l + l.pos + length s + 1 ≤ length img
    → Named img n m done l text s (arb_disk_add_str grow cur str)
named grow str s p fits room is space =
    let a = step_str grow str s p (omega arith) room is space in
    let (c, e, q) = step_word a.off a.progress fits (omega (arith, a.same_max)) in
    record {
      off = a.off;
      cur = a.cur';
      cur' = c;
      l' = a.l';
      more = a.more;
      returns = a.returns;
      returns' = e;
      progress = q;
      stands = a.stands;
      same_max = a.same_max;
      bounded = a.bounded;
      small = off_small a.progress.base a.stands;
    }
