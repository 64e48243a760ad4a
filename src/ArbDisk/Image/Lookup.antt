-- ===== src/ArbDisk/Image/Lookup.antt =====
-- arb_disk_insert_dli and then arb_disk_find_dli, of src/duallive/arbitrary_disk.c.
use duallive.Base.{ℕ, ◌≡◌, ap, ◌∙◌, inl, inr, List, length, some, ok}
use duallive.Base.Memory.{Bytes}
use duallive.Duallive.{Desc}
use duallive.ArbDisk.{desc_standard}
use duallive.ArbDisk.Image.{Grow, arb_disk_insert_dli, arb_disk_find_dli}
use duallive.ArbDisk.Image.Holds.{Key, Layout, IsImage}
use duallive.ArbDisk.Image.Find.{IsKey, index_of-snoc, arb_disk_find_dli-index_of}
use duallive.ArbDisk.Image.Insert.{Fitting, arb_disk_insert_dli-Inserts}

-- On an image with room for one pair more and for its strings, arb_disk_insert_dli returns the record of
-- a pair, and arb_disk_find_dli then returns the same record for every description of the pair: that of
-- the same host or of the other one. If the image holds no pair yet, the address of the arbiter that
-- arb_disk_insert_dli reads must be a string; for the host with the larger id that is what its local
-- variable holds, which is not set.
pub find-insert :
    {img : Bytes} {l : Layout} {text : Bytes} {ps : List Key} (grow : Grow)
    (d tmp tmp2 d' tmp' : Desc) (k : Key) (ip : Bytes)
    → IsImage img l text ps
    → IsKey (desc_standard (desc_standard d tmp) tmp2) k
    → Fitting img l ps (desc_standard d tmp) k ip
    → IsKey (desc_standard d' tmp') k
    → (i : ℕ) × (img' : Bytes) × (arb_disk_insert_dli grow img d tmp tmp2 ≡ ok (i, img'))
      × (arb_disk_find_dli img' d' tmp' ≡ ok (some i))
find-insert {img} {ps} grow d tmp tmp2 d' tmp' k ip h is fit is' =
    elim (arb_disk_insert_dli-Inserts grow d tmp tmp2 k ip h is fit) [
      | inl (i, there, returns) ↦
          (i, img, returns, arb_disk_find_dli-index_of d' tmp' k h is' ∙ ap ok there)
      | inr (absent, r) ↦ (
        length ps,
        r.img',
        r.returns,
        arb_disk_find_dli-index_of d' tmp' k r.image is' ∙ ap ok (index_of-snoc k ps absent),
      )
    ]
