-- ===== src/ArbDisk/Image/Insert.antt =====
-- arb_disk_insert_dli of src/duallive/arbitrary_disk.c, where the file has room.
use duallive.Base.{
  ℕ, ◌+◌, ◌%◌, ◌^◌, ◌≤◌, ◌<◌, ◌≡◌, ◌⊎◌, refl, ap, subst, ◌∙◌, arith, inl, inr, List, [], ◌∷◌, ◌++◌,
  append_assoc, length, none, some, Option-cases, Outcome, ok, lt→ltb, ne→==,
}
use duallive.Base.Memory.{Bytes, le, un_le, c_str}
use duallive.Base.Patches.{read_word-window, un_le-le_all}
use duallive.Kmem.{u16_mod}
use duallive.Duallive.{Desc}
use duallive.ArbDisk.{desc_standard}
use duallive.ArbDisk.Image.Head.{head_dl_num}
use duallive.ArbDisk.Image.{Grow, arb_disk_add_str, append_dli, arb_disk_insert_dli}
use duallive.ArbDisk.Image.Holds.{
  Key, Layout, stroff, Stands, Stands-append, IsImage, reads_num, reads_max,
}
use duallive.ArbDisk.Image.Find.{IsKey, index_of, arb_disk_find_dli-index_of}
use duallive.ArbDisk.Image.Progress.{Progress}
use duallive.ArbDisk.Image.Record.{key_bytes, filled-Entry, Progress-IsImage, Ended, ending}
use duallive.ArbDisk.Image.Begin.{Begun, begun, Named, named}

-- What an insertion needs: the numbers are in range, and the file has room for the strings.
pub record Fitting (img : Bytes) (l : Layout) (ps : List Key) (d : Desc) (k : Key) (ip : Bytes)
    : Type 0 where
  pub is_key : IsKey d k
  pub host0 : k.host0 < 2 ^ 32
  pub host1 : k.host1 < 2 ^ 32
  pub first : length ps ≡ 0 → c_str d.arbitrary_ip ≡ some ip
  pub room : length ps < l.max
  pub space :
      stroff l + l.pos + (length k.name0 + 1) + (length k.name1 + 1) + (length ip + 1) ≤ length img

-- The image after it.
pub record Inserted (img : Bytes) (l : Layout) (ps : List Key) (k : Key) (r : Outcome (ℕ × Bytes))
    : Type 0 where
  pub img' : Bytes
  pub l' : Layout
  pub text' : Bytes
  pub returns : r ≡ ok (length ps, img')
  pub image : IsImage img' l' text' (ps ++ (k ∷ []))
  pub same_max : l'.max ≡ l.max
  pub same_size : length img' ≡ length img

module _ {img : Bytes} {l : Layout} {text : Bytes} {ps : List Key} (d : Desc) (k : Key) (ip : Bytes)
    (h : IsImage img l text ps) (fit : Fitting img l ps d k ip) where
  -- The last step: all of the record is there.
  finished :
      {l2 : Layout} {r : Outcome Bytes} (m0 m1 : Bytes) (off0 off1 : ℕ)
      → (e : Ended img
          (length ps)
          16
          (key_bytes d.local_hostid d.remote_hostid off0 off1)
          l2
          (text ++ m0 ++ m1)
          r)
      → l2.max ≡ l.max
      → Stands (text ++ m0) off0 k.name0
      → Stands (text ++ m0 ++ m1) off1 k.name1
      → off0 < 2 ^ 32
      → off1 < 2 ^ 32
      → Inserted img l ps k (ok (length ps, e.cur'))
  finished m0 m1 off0 off1 e max st0 st1 small0 small1 =
      let n = length ps in
      let more = m0 ++ (m1 ++ e.more) in
      let texts : text ++ m0 ++ m1 ++ e.more ≡ text ++ more =
        append_assoc (text ++ m0) m1 e.more ∙ append_assoc text m0 (m1 ++ e.more) in
      let st0' = Stands-append _ e.more off0 k.name0 (Stands-append _ m1 off0 k.name0 st0) in
      let st1' = Stands-append _ e.more off1 k.name1 st1 in
      let done : Progress img n 16 (key_bytes k.host0 k.host1 off0 off1) e.l' (text ++ more)
          e.cur' =
        subst (λ t. Progress img n 16 (key_bytes k.host0 k.host1 off0 off1) e.l' t e.cur') texts
          (subst
            (λ x.
              Progress img n 16 (key_bytes x k.host1 off0 off1) e.l' (text ++ m0 ++ m1 ++ e.more)
                e.cur')
            fit.is_key.host0
            (subst
              (λ x.
                Progress img n 16 (key_bytes d.local_hostid x off0 off1) e.l'
                  (text ++ m0 ++ m1 ++ e.more) e.cur')
              fit.is_key.host1 e.progress)) in
      let room : n < e.l'.max = omega (arith, e.same_max, max, fit.room) in
      let entry =
        filled-Entry k off0 off1 done room fit.host0 fit.host1
          (subst (λ t. Stands t off0 k.name0) texts st0')
          (subst (λ t. Stands t off1 k.name1) texts st1') small0 small1 in
      record {
        img' = e.cur';
        l' = e.l';
        text' = text ++ more;
        returns = refl;
        image = Progress-IsImage text more k h done room entry;
        same_max = e.same_max ∙ max;
        same_size = done.same_size;
      }

  -- The steps before it.
  assembled :
      (grow : Grow) (b : Begun img (length ps) l text d.local_hostid d.remote_hostid)
      → (a0 : Named img
          (length ps)
          8
          (([] ++ le 4 d.local_hostid) ++ le 4 d.remote_hostid)
          l
          text
          k.name0
          (arb_disk_add_str grow b.c3 d.local_dataset))
      → (a1 : Named img
          (length ps)
          12
          ((([] ++ le 4 d.local_hostid) ++ le 4 d.remote_hostid) ++ le 4 a0.off)
          a0.l'
          (text ++ a0.more)
          k.name1
          (arb_disk_add_str grow a0.cur' d.remote_dataset))
      → Inserted img l ps k (append_dli grow img d)
  unfolding append_dli
  assembled grow b a0 a1 =
      let n = length ps in
      let counts : (n + 1) % u16_mod ≡ n + 1 = omega (arith, fit.room, h.base.word) in
      let num : head_dl_num a1.cur' ≡ ok (n + 1) =
        read_word-window 4 2 a1.cur' (omega (arith, a1.progress.base.whole))
        ∙ ap (λ b. ok (un_le 2 b)) a1.progress.is_num
        ∙ ap ok (un_le-le_all 2 (n + 1) (omega (arith, fit.room, h.base.word))) in
      let max = a1.same_max ∙ a0.same_max in
      let e =
        ending grow d ip a1.progress (omega arith) (omega (arith, max, fit.room))
          (omega (arith, max, a0.bounded, a1.bounded, fit.space)) fit.first in
      rw
        (
          reads_num h,
          counts,
          b.returns1,
          b.returns2,
          b.returns3,
          a0.returns,
          a0.returns',
          a1.returns,
          a1.returns',
          num,
          e.returns,
        )
        (finished a0.more a1.more a0.off a1.off e max a0.stands a1.stands a0.small a1.small)

  append_dli-Inserted : (grow : Grow) → Inserted img l ps k (append_dli grow img d)
  append_dli-Inserted grow =
      let b = begun d.local_hostid d.remote_hostid h fit.room in
      let a0 =
        named grow d.local_dataset k.name0 b.progress (omega arith) fit.room fit.is_key.name0
          (omega (arith, fit.space)) in
      let a1 =
        named grow d.remote_dataset k.name1 a0.progress (omega arith)
          (omega (arith, a0.same_max, fit.room)) fit.is_key.name1
          (omega (arith, a0.same_max, a0.bounded, fit.space)) in
      assembled grow b a0 a1

-- A pair that is there is found; another is put at the end of the list.
abbrev pub Inserts : Bytes → Layout → List Key → Key → Outcome (ℕ × Bytes) → Type 0
Inserts img l ps k r =
    ((i : ℕ) × (index_of k ps ≡ some i) × (r ≡ ok (i, img)))
    ⊎ ((index_of k ps ≡ none) × Inserted img l ps k r)

-- arb_disk_insert_dli, on an image with room for one pair more and for its strings, returns without a
-- fault. A pair that is there already gets its place, and the file stays as it is; another pair is put
-- behind the others, which stay what they are. What the local variables hold before does not matter
-- but for the address of the arbiter, which must be a string if the image holds no pair yet.
pub arb_disk_insert_dli-Inserts :
    {img : Bytes} {l : Layout} {text : Bytes} {ps : List Key} (grow : Grow) (d tmp tmp2 : Desc)
    (k : Key) (ip : Bytes)
    → IsImage img l text ps
    → IsKey (desc_standard (desc_standard d tmp) tmp2) k
    → Fitting img l ps (desc_standard d tmp) k ip
    → Inserts img l ps k (arb_disk_insert_dli grow img d tmp tmp2)
unfolding arb_disk_insert_dli
arb_disk_insert_dli-Inserts {l} {ps} grow d tmp tmp2 k ip h is fit =
    let finds = arb_disk_find_dli-index_of (desc_standard d tmp) tmp2 k h is in
    let not_full = ne→== (length ps) l.max (λ e. omega (arith, fit.room)) in
    elim (Option-cases (index_of k ps)) [
      | inl absent ↦
          rw
            (
              finds,
              absent,
              reads_num h,
              reads_max h.base,
              not_full,
              reads_num h,
              reads_max h.base,
              lt→ltb (length ps) l.max fit.room,
            )
            (inr (refl, append_dli-Inserted (desc_standard d tmp) k ip h fit grow))
      | inr (i, there) ↦ rw (finds, there) (inl (i, refl, refl))
    ]
