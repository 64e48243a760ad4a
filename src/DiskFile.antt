-- ===== src/DiskFile.antt =====
-- The file of a disk: arb_disk_load, arb_disk_unload and arb_disk_format of src/duallive/arbitrary_disk.c
-- over src/xutils/file_map.c, and src/xutils/shell.c. The members of an arb_disk_inst_t but `fm` are NULL here.
pub mod Loads
pub mod Unload
use duallive.Base.{
  ℕ, ◌+◌, Bool, true, false, not, ◌&&◌, ltb, ◌==◌, if◌then◌else◌, ◌++◌, take, Option, none, some,
  Outcome, ok, fault, out_of_bounds, ◌>>=◌,
}
use duallive.Base.Memory.{Bytes}
use duallive.Base.Text.{codes}
use duallive.Kmem.{Allocator}
use duallive.Duallive.{Uuid}
use duallive.FileSystem.{System}
use duallive.FileMap.{
  FileMap, fm_normal, calc_map_size, file_map_init, file_map_open_, file_map_set_size,
  file_map_fini,
}
use duallive.ArbDisk.Image.{arb_disk_format}
use duallive.ArbDisk.Image.Head.{head_magic, head_dl_num, disk_magic, disk_min_size, align_to_page}

-- Mapped memory, and the commands, over the state of the operating system.
pub record Shared (W : Type 0) : Type 0 where
  -- so many bytes at an address
  pub contents : W → ℕ → ℕ → Bytes
  pub store : W → ℕ → Bytes → W
  -- system(3), and whether it returned 0
  pub system : W → Bytes → Bool × W
  -- what snprintf writes to `fname`
  pub file_name : Uuid → Bytes

-- How much of a command stands in the local array `cmd`.
abbrev command_size : ℕ
command_size = 1023

module _ {W : Type 0} (os : System W) (mem : Shared W) where
  -- Whether the command returned 0.
  pub shell : W → Bytes → Bool × W
  shell w cmd = mem.system w (take command_size cmd)

  -- What an access to the mapping goes to.
  pub mapped : W → FileMap → Outcome Bytes
  mapped w fm = elim (fm.buf) [
    | none ↦ fault out_of_bounds
    | some start ↦ ok (mem.contents w start (calc_map_size fm.size))
  ]

  -- memset and what follows it.
  pub format_mapped : W → FileMap → Outcome W
  format_mapped w fm = elim (fm.buf) [
    | none ↦ fault out_of_bounds
    | some start ↦ do img ← arb_disk_format fm.size; ok (mem.store w start img)
  ]

  module _ ⦃heap : Allocator⦄ where
    -- arb_disk_format from its first line on.
    pub format_disk : W → FileMap → Outcome (FileMap × W)
    unfolding format_mapped
    format_disk w fm = do
      (done, fm, w) ← file_map_set_size os w fm (align_to_page disk_min_size)
      w ← format_mapped w fm
      ok (fm, w)

    -- arb_disk_load where the file is mapped.
    pub load_mapped : W → Bytes → FileMap → Bool → Outcome (Option FileMap × W)
    unfolding mapped format_disk shell
    load_mapped w fname fm create = do
      img ← mapped w fm
      magic ← head_magic img
      if (magic == disk_magic) && not (ltb fm.size (align_to_page disk_min_size))
          then ok (some fm, w)
          else if create
          then (do (fm, w) ← format_disk w fm; ok (some fm, w))
          else ok (none, (shell (file_map_fini os w fm) (codes "rm -f " ++ fname)).1)

    -- arb_disk_load once it has the name.
    pub load_file : W → Bytes → Bool → Outcome (Option FileMap × W)
    unfolding load_mapped
    load_file w fname create = if not create && not (os.access w fname) then ok (none, w) else (do
      (opened, fm, w) ← file_map_open_ os w (file_map_init fname) false fm_normal
      if opened then load_mapped w fname fm create else ok (none, file_map_fini os w fm))

    pub arb_disk_load : W → Uuid → Bool → Outcome (Option FileMap × W)
    unfolding load_file
    arb_disk_load w uuid create = load_file w (mem.file_name uuid) create

    -- What arb_disk_unload does to a file, at its mapping, that holds no pair.
    pub remove_empty : Option ℕ → W → FileMap → Outcome W
    unfolding shell
    remove_empty none w fm = ok w
    remove_empty (some start) w fm = do
      num ← head_dl_num (mem.contents w start (calc_map_size fm.size))
      ok (if num == 0 then (shell w (codes "rm -rf " ++ fm.path)).1 else w)

    -- `none` is NULL.
    pub arb_disk_unload : W → Option FileMap → Outcome W
    unfolding remove_empty
    arb_disk_unload w none = ok w
    arb_disk_unload w (some fm) = do w ← remove_empty fm.buf w fm; ok (file_map_fini os w fm)
