-- ===== src/ArbDisk/Image/Record.antt =====
-- The last steps of arb_disk_insert_dli of src/duallive/arbitrary_disk.c: the record that was filled, and
-- the head.
use duallive.Base.{
  ℕ, zero, suc, ◌+◌, ◌^◌, ◌≤◌, ◌<◌, ◌≡◌, ◌⊎◌, refl, sym, ap, subst, ◌∙◌, arith, inl, inr, List, [],
  ◌∷◌, ◌++◌, append-nil, ◌==◌, if◌then◌else◌, Bool-cases, length, length-append, get_elem?, some,
  Outcome, ok, ==→eq,
}
use duallive.Base.Memory.{Bytes, le, un_le, c_str}
use duallive.Base.Patches.{window, window-window, un_le-le_all}
use duallive.Duallive.{Desc}
use duallive.ArbDisk.Image.Head.{disk_dli_of, dli_off, sizeof_disk_dli}
use duallive.ArbDisk.Image.{Grow, arb_disk_set_comm_info}
use duallive.ArbDisk.Image.Holds.{Key, Layout, stroff, Entry, Entry-append, Stands, IsImage}
use duallive.ArbDisk.Image.Progress.{Progress, step_head, step_str}

-- The 16 bytes of a record before its versions.
abbrev pub key_bytes : ℕ → ℕ → ℕ → ℕ → Bytes
key_bytes a b c d = (([] ++ le 4 a) ++ le 4 b) ++ le 4 c ++ le 4 d

-- What the sixteen bytes of a filled record say.
pub filled-Entry :
    {img : Bytes} {n : ℕ} {l : Layout} {text cur : Bytes} (k : Key) (off0 off1 : ℕ)
    → Progress img n 16 (key_bytes k.host0 k.host1 off0 off1) l text cur
    → n < l.max
    → k.host0 < 2 ^ 32
    → k.host1 < 2 ^ 32
    → Stands text off0 k.name0
    → Stands text off1 k.name1
    → off0 < 2 ^ 32
    → off1 < 2 ^ 32
    → Entry text (window (dli_off n) sizeof_disk_dli cur) k
unfolding disk_dli_of le un_le
filled-Entry {img} {n} {l} {text} {cur} k off0 off1 p room f0 f1 s0 s1 small0 small1 =
    let bytes = key_bytes k.host0 k.host1 off0 off1 in
    let part : (a : ℕ)
        → a + 4 ≤ 16
        → window a 4 (window (dli_off n) sizeof_disk_dli cur) ≡ window a 4 bytes =
      λ a h.
        window-window a 4 (dli_off n) sizeof_disk_dli cur (omega arith)
          (omega (arith, p.base.whole))
        ∙ sym (window-window a 4 (dli_off n) 16 cur h (omega (arith, p.base.whole)))
        ∙ ap (window a 4) p.filled in
    let at0 : (disk_dli_of (window (dli_off n) sizeof_disk_dli cur)).dataset0 ≡ off0 =
      ap (un_le 4) (part 8 (omega arith)) ∙ omega arith in
    let at1 : (disk_dli_of (window (dli_off n) sizeof_disk_dli cur)).dataset1 ≡ off1 =
      ap (un_le 4) (part 12 (omega arith)) ∙ omega arith in
    record {
      host0 = ap (un_le 4) (part 0 (omega arith)) ∙ omega arith;
      host1 = ap (un_le 4) (part 4 (omega arith)) ∙ omega arith;
      name0 = subst (λ o. Stands text o k.name0) (sym at0) s0;
      name1 = subst (λ o. Stands text o k.name1) (sym at1) s1;
    }

get_elem?-snoc :
    (ps : List Key) (k : Key) (i : ℕ) {q : Key}
    → get_elem? (ps ++ (k ∷ [])) i ≡ some q
    → ((i < length ps) × (get_elem? ps i ≡ some q)) ⊎ ((i ≡ length ps) × (k ≡ q))
get_elem?-snoc [] k zero e = inr (refl, cc)
get_elem?-snoc [] k (suc i) e = absurd (ground arith)
get_elem?-snoc (p ∷ ps) k zero e = inl (omega arith, e)
get_elem?-snoc (p ∷ ps) k (suc i) e = elim (get_elem?-snoc ps k i e) [
  | inl (less, f) ↦ inl (omega arith, f)
  | inr (same, f) ↦ inr (ap suc same, f)
]

-- A file with a filled record more.
pub Progress-IsImage :
    {img : Bytes} {l0 l : Layout} {cur : Bytes} {ps : List Key} {m : ℕ} {done : Bytes}
    (text0 more : Bytes) (k : Key)
    → IsImage img l0 text0 ps
    → Progress img (length ps) m done l (text0 ++ more) cur
    → length ps < l.max
    → Entry (text0 ++ more) (window (dli_off (length ps)) sizeof_disk_dli cur) k
    → IsImage cur l (text0 ++ more) (ps ++ (k ∷ []))
Progress-IsImage {cur} {ps} text0 more k h p room e = record {
  base = p.base;
  is_num =
      ap (un_le 2) p.is_num
      ∙ un_le-le_all 2 (length ps + 1) (omega (arith, p.base.word))
      ∙ sym (length-append ps (k ∷ []));
  few = omega (arith, length-append ps (k ∷ []));
  entries = λ i q found. elim (get_elem?-snoc ps k i found) [
    | inl (less, old) ↦
        Entry-append text0 more _ q
          (subst (λ b. Entry text0 b q) (sym (p.others i less)) (h.entries i q old))
    | inr (same, new) ↦
        subst (λ j. Entry (text0 ++ more) (window (dli_off j) sizeof_disk_dli cur) q) (sym same)
          (subst (Entry (text0 ++ more) _) new e)
  ];
}

-- What follows the record: the address, the port and the uuid in the head, if it is the first one.
pub record Ended (img : Bytes) (n m : ℕ) (done : Bytes) (l : Layout) (text : Bytes)
    (r : Outcome Bytes) : Type 0 where
  pub cur' : Bytes
  pub l' : Layout
  pub more : Bytes
  pub returns : r ≡ ok cur'
  pub progress : Progress img n m done l' (text ++ more) cur'
  pub same_max : l'.max ≡ l.max

module _ {img : Bytes} {n m : ℕ} {done : Bytes} {l : Layout} {text cur : Bytes} (grow : Grow)
    (d : Desc) (ip : Bytes) (p : Progress img n m done l text cur) (fits : m ≤ sizeof_disk_dli)
    (room : n < l.max) (space : stroff l + l.pos + length ip + 1 ≤ length img) where
  comm_info :
      c_str d.arbitrary_ip ≡ some ip → Ended img n m done l text (arb_disk_set_comm_info grow cur d)
  unfolding arb_disk_set_comm_info
  comm_info is =
      let a = step_str grow d.arbitrary_ip ip p fits room is space in
      let (c1, e1, p1) = step_head 8 4 a.off a.progress (omega arith) (omega arith) in
      let (c2, e2, p2) = step_head 12 4 d.arbitrary_port p1 (omega arith) (omega arith) in
      let (c3, e3, p3) = step_head 16 8 d.uuid.uuid0 p2 (omega arith) (omega arith) in
      let (c4, e4, p4) = step_head 24 8 d.uuid.uuid1 p3 (omega arith) (omega arith) in
      record {
        cur' = c4;
        l' = a.l';
        more = a.more;
        returns = rw (a.returns, e1, e2, e3) e4;
        progress = p4;
        same_max = a.same_max;
      }

  pub ending :
      (n ≡ 0 → c_str d.arbitrary_ip ≡ some ip)
      → Ended img n m done l text (if n + 1 == 1 then arb_disk_set_comm_info grow cur d else ok cur)
  ending first = elim (Bool-cases (n + 1 == 1)) [
    | inl is_first ↦
        let one = ==→eq (n + 1) 1 is_first in rw is_first (comm_info (first (omega arith)))
    | inr not_first ↦ rw not_first (record {
      cur' = cur;
      l' = l;
      more = [];
      returns = refl;
      progress = subst (λ t. Progress img n m done l t cur) (sym (append-nil text)) p;
      same_max = refl;
    })
  ]
