-- ===== src/ArbDisk/Image/Agree.antt =====
-- Both hosts of a pair at the file of its uuid: arb_disk_insert_dli, and then arb_disk_sel_ms or
-- arb_disk_query_ms, of src/duallive/arbitrary_disk.c.
use duallive.Base.{
  ℕ, ◌+◌, ◌*◌, ◌^◌, ◌<◌, ◌≡◌, refl, sym, ap, subst, ◌∙◌, arith, inl, inr, List, [], ◌∷◌, ◌++◌,
  length, get_elem?, get_elem?-lt, Bool, true, if◌then◌else◌, some, Outcome, ok,
}
use duallive.Base.Memory.{Bytes}
use duallive.Base.Patches.{write_le-Wrote}
use duallive.Duallive.{Ver, Desc, version}
use duallive.ArbDisk.{
  DiskDli, desc_standard, find_ver_in_dli, selected, arb_disk_sel_ms, arb_disk_query_ms,
}
use duallive.ArbDisk.Find.{IsFirst, find_ver_in_dli-Finds, version_at-ok}
use duallive.ArbDisk.Select.{
  IsWhole, side-lt, sel-first, find-absent, decided-IsFirst, sel_ms_agrees,
}
use duallive.ArbDisk.Image.{Grow, arb_disk_insert_dli}
use duallive.ArbDisk.Image.Head.{disk_dli_of, dli_off}
use duallive.ArbDisk.Image.Holds.{Key, Layout, IsImage, reads_dli}
use duallive.ArbDisk.Image.Find.{
  IsKey, index_of, index_of-lt, index_of-snoc, arb_disk_find_dli-index_of,
}
use duallive.ArbDisk.Image.Insert.{Fitting, arb_disk_insert_dli-Inserts}
use duallive.ArbDisk.Image.Mapped.{
  mapped_sel_ms, mapped_query_ms, dli_in, stored-dli, stored-IsImage,
}

dli_in-IsWhole : (img : Bytes) (i : ℕ) → IsWhole (dli_in img i)
unfolding disk_dli_of
dli_in-IsWhole img i = refl

selected-lt : (d : Desc) (req : Ver) → req < 2 ^ 64 → selected d req < 2 ^ 64
unfolding selected
selected-lt d req h = omega (arith, side-lt d)

-- The answer and the file are those of arb_disk_sel_ms on the record.
pub record Does (synced : Bool) (img : Bytes) (i : ℕ) (d : Desc) (req : Ver) (l : Layout)
    (text : Bytes) (ps : List Key) : Type 0 where
  pub answer : Ver
  pub img' : Bytes
  pub returns : mapped_sel_ms synced img i d req ≡ ok (answer, img')
  pub does : arb_disk_sel_ms synced (dli_in img i) d req ≡ ok (dli_in img' i, answer)
  pub image : IsImage img' l text ps

-- On an image arb_disk_sel_ms returns without a fault, for a request below 2^64; the record and the
-- answer become those of arb_disk_sel_ms on the record alone, and the file is an image of the same
-- pairs.
pub mapped_sel_ms-Does :
    {img : Bytes} {l : Layout} {text : Bytes} {ps : List Key} (synced : Bool) (i : ℕ) (d : Desc)
    (req : Ver)
    → IsImage img l text ps
    → i < length ps
    → req < 2 ^ 64
    → Does synced img i d req l text ps
unfolding mapped_sel_ms
mapped_sel_ms-Does {img} {l} {ps} synced i d req h inside small =
    let dli = dli_in img i in
    let at_i = reads_dli h.base i (omega (arith, h.few)) in
    elim (find_ver_in_dli-Finds dli req (dli_in-IsWhole img i)) [
      | inl (k, v, finds, f) ↦ record {
        answer = v;
        img' = img;
        returns = rw (mapped_sel_ms, at_i, finds, version_at-ok dli.version k v f.at) refl;
        does = sel-first dli req k v (dli_in-IsWhole img i) f synced d;
        image = h;
      }
      | inr (k, finds, least) ↦
          let low : k < 6 =
            omega (arith, get_elem?-lt dli.version k least.at, dli_in-IsWhole img i) in
          let (img', writes, w) =
            write_le-Wrote (dli_off i + (16 + 8 * k)) 8 (selected d req) img
              (omega (arith, h.base.whole, h.few)) in
          let inside' : i < l.max = omega (arith, h.few) in
          let fits = selected-lt d req small in
          record {
            answer = if synced then selected d req else req;
            img' = img';
            returns = rw (mapped_sel_ms, at_i, finds, writes) refl;
            does =
                find-absent dli d req k (dli_in-IsWhole img i) least finds synced
                ∙ ap (λ r. ok (r, if synced then selected d req else req))
                    (sym (stored-dli i k (selected d req) h.base inside' low fits w));
            image = stored-IsImage i k (selected d req) h.base inside' low fits w h;
          }
    ]

-- A pair that is in the image is found by arb_disk_insert_dli.
insert-found :
    {img : Bytes} {l : Layout} {text : Bytes} {ps : List Key} (grow : Grow) (d tmp tmp2 : Desc)
    (k : Key) (i : ℕ)
    → IsImage img l text ps
    → IsKey (desc_standard (desc_standard d tmp) tmp2) k
    → index_of k ps ≡ some i
    → arb_disk_insert_dli grow img d tmp tmp2 ≡ ok (i, img)
unfolding arb_disk_insert_dli
insert-found {ps} grow d tmp tmp2 k i h is there =
    rw (arb_disk_find_dli-index_of (desc_standard d tmp) tmp2 k h is, there) refl

-- Two hosts, one after the other.
pub record Agrees (grow : Grow) (img : Bytes) (d tmp tmp2 d' tmp' tmp2' : Desc) (req req' : Ver)
    (synced : Bool) : Type 0 where
  pub i : ℕ
  pub img1 : Bytes
  pub img2 : Bytes
  pub answer : Ver
  pub opens : arb_disk_insert_dli grow img d tmp tmp2 ≡ ok (i, img1)
  pub selects : mapped_sel_ms true img1 i d req ≡ ok (answer, img2)
  pub opens' : arb_disk_insert_dli grow img2 d' tmp' tmp2' ≡ ok (i, img2)
  pub selects' : mapped_sel_ms synced img2 i d' req' ≡ ok (answer, img2)
  pub queries' : mapped_query_ms img2 i req' ≡ ok answer

ok-pair :
    {dli dli' : DiskDli} {v w : Ver}
    → ◌≡◌ {A = Outcome (DiskDli × Ver)} (ok (dli, v)) (ok (dli', w))
    → (dli ≡ dli') × (v ≡ w)
ok-pair e = (cc, cc)

-- A request that leaves the record as it is finds its version there.
settled :
    (synced : Bool) (dli : DiskDli) (d : Desc) (req v : Ver)
    → IsWhole dli
    → arb_disk_sel_ms synced dli d req ≡ ok (dli, v)
    → (k : ℕ) × (find_ver_in_dli dli req ≡ ok (true, k)) × (get_elem? dli.version k ≡ some v)
settled synced dli d req v whole does = elim (find_ver_in_dli-Finds dli req whole) [
  | inl (k, w, finds, f) ↦
      let same = (ok-pair (sym (sel-first dli req k w whole f synced d) ∙ does)).1 in
      (k, finds, f.at ∙ ap some same)
  | inr (k, finds, l) ↦
      let kept = (ok-pair (sym (find-absent dli d req k whole l finds synced) ∙ does)).0 in
      let now =
        subst (λ r. IsFirst r.version req k (selected d req)) kept
          (decided-IsFirst dli d req k whole l) in
      absurd (l.absent k (selected d req) (get_elem?-lt dli.version k l.at) now.at now.same)
]

-- And so it leaves the file.
settled-mapped :
    {img : Bytes} {l : Layout} {text : Bytes} {ps : List Key} (synced : Bool) (i : ℕ) (d : Desc)
    (req v : Ver)
    → IsImage img l text ps
    → i < length ps
    → arb_disk_sel_ms synced (dli_in img i) d req ≡ ok (dli_in img i, v)
    → mapped_sel_ms synced img i d req ≡ ok (v, img)
unfolding mapped_sel_ms
settled-mapped {img} synced i d req v h inside does =
    let (k, finds, at) = settled synced (dli_in img i) d req v (dli_in-IsWhole img i) does in
    rw
      (
        mapped_sel_ms,
        reads_dli h.base i (omega (arith, h.few)),
        finds,
        version_at-ok (dli_in img i).version k v at,
      )
      refl

-- The image after arb_disk_insert_dli has the pair at the place that it returns.
record Opened (grow : Grow) (img : Bytes) (d tmp tmp2 : Desc) (k : Key) : Type 0 where
  pub i : ℕ
  pub img' : Bytes
  pub l' : Layout
  pub text' : Bytes
  pub ps' : List Key
  pub returns : arb_disk_insert_dli grow img d tmp tmp2 ≡ ok (i, img')
  pub image : IsImage img' l' text' ps'
  pub there : index_of k ps' ≡ some i

opened :
    {img : Bytes} {l : Layout} {text : Bytes} {ps : List Key} (grow : Grow) (d tmp tmp2 : Desc)
    (k : Key) (ip : Bytes)
    → IsImage img l text ps
    → IsKey (desc_standard (desc_standard d tmp) tmp2) k
    → Fitting img l ps (desc_standard d tmp) k ip
    → Opened grow img d tmp tmp2 k
opened {img} {l} {text} {ps} grow d tmp tmp2 k ip h is fit =
    elim (arb_disk_insert_dli-Inserts grow d tmp tmp2 k ip h is fit) [
      | inl (i, there, returns) ↦ record {
        i = i;
        img' = img;
        l' = l;
        text' = text;
        ps' = ps;
        returns = returns;
        image = h;
        there = there;
      }
      | inr (absent, r) ↦ record {
        i = length ps;
        img' = r.img';
        l' = r.l';
        text' = r.text';
        ps' = ps ++ (k ∷ []);
        returns = r.returns;
        image = r.image;
        there = index_of-snoc k ps absent;
      }
    ]

-- One host of a pair asks for a master on an image with room: arb_disk_insert_dli, and arb_disk_sel_ms
-- with the file synchronised, return without a fault. Then, for the other host of the pair or the same
-- one, arb_disk_insert_dli finds the record without a change of the file, and arb_disk_sel_ms and
-- arb_disk_query_ms for the same version number give the same answer, again without a change. If the
-- image holds no pair yet, the address of the arbiter that the first arb_disk_insert_dli reads must be a
-- string; for the host with the larger id that is what its local variable holds, which is not set.
pub hosts_agree :
    {img : Bytes} {l : Layout} {text : Bytes} {ps : List Key} (grow : Grow)
    (d tmp tmp2 d' tmp' tmp2' : Desc) (k : Key) (ip : Bytes) (req req' : Ver) (synced : Bool)
    → IsImage img l text ps
    → IsKey (desc_standard (desc_standard d tmp) tmp2) k
    → Fitting img l ps (desc_standard d tmp) k ip
    → IsKey (desc_standard (desc_standard d' tmp') tmp2') k
    → req < 2 ^ 64
    → version req' ≡ version req
    → Agrees grow img d tmp tmp2 d' tmp' tmp2' req req' synced
unfolding mapped_query_ms
hosts_agree grow d tmp tmp2 d' tmp' tmp2' k ip req req' synced h is fit is' small same =
    let o = opened grow d tmp tmp2 k ip h is fit in
    let inside = index_of-lt k o.ps' o.there in
    let a = mapped_sel_ms-Does true o.i d req o.image inside small in
    let (dli', v, first, second, query, whole) =
      sel_ms_agrees (dli_in o.img' o.i) d d' req req' synced (dli_in-IsWhole o.img' o.i) same in
    let (new, same_answer) = ok-pair (sym first ∙ a.does) in
    let again = subst (λ r. arb_disk_sel_ms synced r d' req' ≡ ok (r, v)) new second in
    record {
      i = o.i;
      img1 = o.img';
      img2 = a.img';
      answer = v;
      opens = o.returns;
      selects = a.returns ∙ ap (λ w. ok (w, a.img')) (sym same_answer);
      opens' = insert-found grow d' tmp' tmp2' k o.i a.image is' o.there;
      selects' = settled-mapped synced o.i d' req' v a.image inside again;
      queries' =
          rw (reads_dli a.image.base o.i (omega (arith, inside, a.image.few)))
            (subst (λ r. arb_disk_query_ms r req' ≡ ok v) new query);
    }
