-- ===== src/DiskFile/Unload.antt =====
-- arb_disk_unload of src/duallive/arbitrary_disk.c gives back what a disk holds.
use duallive.Base.{
  ℕ, ◌≡◌, refl, sym, subst, arith, inl, inr, List, ◌==◌, Bool-cases, ◌++◌, some, ok, Returns,
}
use duallive.Base.Memory.{un_le}
use duallive.Base.Patches.{window, read_word-window}
use duallive.Base.Text.{codes}
use duallive.Kmem.{Allocator}
use duallive.FileSystem.{System}
use duallive.FileMap.{FileMap, calc_map_size}
use duallive.FileMap.Resources.{Tracks, Handle, Kept, Balanced, Balanced-Kept}
use duallive.FileMap.Operations.{file_map_fini-returns}
use duallive.FileMap.Opened.{IsMapped, IsMapped-page}
use duallive.ArbDisk.Image.Head.{head_dl_num}
use duallive.DiskFile.{Shared, remove_empty, arb_disk_unload}
use duallive.DiskFile.Loads.{Keeps, shell-Kept}

module _ {W : Type 0} (os : System W) (t : Tracks os) (mem : Shared W) (keeps : Keeps os t mem)
    ⦃heap : Allocator⦄ (hs : List Handle) (ms : List (ℕ × ℕ)) where
  remove_empty-Kept :
      (start : ℕ) (w : W) (fm : FileMap)
      → IsMapped fm
      → Returns (Kept os t w) (remove_empty os mem (some start) w fm)
  unfolding remove_empty
  remove_empty-Kept start w fm m =
      let img = mem.contents w start (calc_map_size fm.size) in
      let num : head_dl_num img ≡ ok (un_le 2 (window 4 2 img)) = read_word-window 4 2 img (
        omega (arith, IsMapped-page fm m, keeps.contents_length w start (calc_map_size fm.size))) in
      elim (Bool-cases (un_le 2 (window 4 2 img) == 0)) [
        | inl empty ↦
            rw (num, empty)
              (_, refl, shell-Kept os t mem keeps hs ms w (codes "rm -rf " ++ fm.path))
        | inr holds ↦ rw (num, holds) (_, refl, (refl, refl))
      ]

  -- arb_disk_unload of a disk that is mapped returns without a fault and gives back what the
  -- disk holds, whatever its file holds by then.
  pub arb_disk_unload-returns :
      (w : W) (fm : FileMap)
      → Balanced os t hs ms fm w
      → IsMapped fm
      → Returns (λ w'. (t.handles w' ≡ hs) × (t.maps w' ≡ ms)) (arb_disk_unload os mem w (some fm))
  unfolding arb_disk_unload
  arb_disk_unload-returns w fm b m =
      let (w', removes, kept) =
        subst (λ o. Returns (Kept os t w) (remove_empty os mem o w fm)) (sym m.is_start)
          (remove_empty-Kept m.start w fm m) in
      rw removes (_, refl, file_map_fini-returns os t hs ms w' fm (Balanced-Kept os t b kept))
