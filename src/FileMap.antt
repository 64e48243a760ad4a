-- ===== src/FileMap.antt =====
-- Files mapped into memory: src/xutils/file_map.c, inc/xutils/file_map.h.
-- An int that is 0 on success is a Bool. What only decides whether an error is printed is left out.
pub mod Resources
pub mod Operations
pub mod Growth
pub mod Opened
pub mod Sessions
pub mod SetSize
use duallive.Base.{
  ℕ, zero, suc, ◌+◌, ◌-◌, ◌*◌, ◌/◌, ◌%◌, ◌^◌, Bool, true, false, not, ◌&&◌, ◌||◌, ltb, leb, ◌==◌,
  if◌then◌else◌, Option, none, some, Outcome, ok, fault, out_of_fuel, ◌>>=◌,
}
use duallive.Base.Memory.{Bytes}
use duallive.FileSystem.{FileKind, regular, block_device, symbolic_link, other_kind, Stat, System}
use duallive.Kmem.{Allocator, kmem_alloc, page_size, u64_mod}

-- FM_NORMAL, FM_RDONLY, FM_PRIVATE
pub data Mode : Type 0 where
  fm_normal fm_rdonly fm_private : Mode

-- file_map_t
pub record FileMap : Type 0 where
  pub path : Bytes
  pub buf : Option ℕ
  pub size : ℕ
  pub mode : Mode

abbrev pub same_mode : Mode → Mode → Bool
same_mode fm_normal fm_normal = true
same_mode fm_rdonly fm_rdonly = true
same_mode fm_private fm_private = true
same_mode _ _ = false

abbrev pub is_some {ℓ} : {A : Type ℓ} → Option A → Bool
is_some none = false
is_some (some a) = true

abbrev pub is_device : FileKind → Bool
is_device block_device = true
is_device _ = false

-- (size + PAGE_SIZE - 1) & ~(PAGE_SIZE - 1)
unfoldable pub calc_map_size : ℕ → ℕ
calc_map_size size = (size + page_size - 1) % u64_mod / page_size * page_size

abbrev pub fm_mapped : FileMap → Bool
fm_mapped fm = is_some fm.buf

-- memset, then the path.
abbrev pub file_map_init : Bytes → FileMap
file_map_init path = record { path = path; buf = none; size = 0; mode = fm_normal }

-- (1ULL << FM_SIZE_BITS) - 1
abbrev pub max_file : ℕ
max_file = 2 ^ 62 - 1

-- The length of the buffer in `expand`.
abbrev pub max_size : ℕ
max_size = 1024 * 1024

module _ {W : Type 0} (os : System W) where
  -- What stat_real does with a link: `link` is what the local array `path` holds before.
  follow_link : FileKind → W → Bytes → Bytes → Stat → Option Stat
  follow_link symbolic_link w file link st = elim (os.readlink w file link) [
    | none ↦ none
    | some (r, path) ↦ if (r == 0) || leb 1024 (r + 1) then none else os.stat w path
  ]
  follow_link regular w file link st = some st
  follow_link block_device w file link st = some st
  follow_link other_kind w file link st = some st

  pub stat_real : W → Bytes → Bytes → Option Stat
  unfolding follow_link
  stat_real w file link = elim (os.stat w file) [
    | none ↦ none
    | some st ↦ follow_link st.mode w file link st
  ]

  pub get_bdev_sz : W → Bytes → Option ℕ × W
  get_bdev_sz w path =
      let (fd, w) = os.open_file w path false in
      elim fd [ none ↦ (none, w) | some fd ↦ (os.device_size w fd, os.close w fd) ]

  -- The last part of get_fi_, by the kind of the file.
  pub fi_of_mode : FileKind → W → Bytes → Stat → Option Stat × W
  unfolding get_bdev_sz
  fi_of_mode regular w file st = (some st, w)
  fi_of_mode block_device w file st =
      let (size, w) = get_bdev_sz w file in
      elim size [
        | none ↦ (none, w)
        | some size ↦ (some (record { mode = block_device; size = size }), w)
      ]
  fi_of_mode symbolic_link w file st = (none, w)
  fi_of_mode other_kind w file st = (none, w)

  -- get_fi_: the file_info_t, and the state, since a device is opened.
  pub get_fi : ⦃heap : Allocator⦄ → W → Bytes → Option Stat × W
  unfolding stat_real fi_of_mode
  get_fi w file = elim (stat_real w file (kmem_alloc 1024)) [
    | none ↦ (none, w)
    | some st ↦ fi_of_mode st.mode w file st
  ]

  -- What do_map makes of the result of mmap.
  pub mapped_at : Option ℕ → ℕ → FileMap → W → Bool × FileMap × W
  mapped_at none size fm w = (false, record fm { buf = none }, w)
  mapped_at (some start) size fm w = (true, record fm { buf = some start; size = size }, w)

  -- do_map from its call of open.
  pub map_file : W → FileMap → ℕ → Bool × FileMap × W
  unfolding mapped_at
  map_file w fm size =
      let (fd, w) = os.open_file w fm.path (same_mode fm.mode fm_normal) in
      elim fd [
        | none ↦ (false, fm, w)
        | some fd ↦
            let (buf, w) =
              os.mmap w (calc_map_size size) (not (same_mode fm.mode fm_rdonly))
                (not (same_mode fm.mode fm_private)) fd in
            mapped_at buf size fm (os.close w fd)
      ]

  pub do_map : ⦃heap : Allocator⦄ → W → FileMap → Bool × FileMap × W
  unfolding map_file
  do_map w fm =
      let (fi, w) = get_fi w fm.path in
      elim fi [
        | none ↦ (false, fm, w)
        | some fi ↦
            if (fi.size == 0) || ltb max_file fi.size then (false, fm, w) else map_file w fm fi.size
      ]

  -- It is called only on a file that is mapped: munmap(NULL, ...) is no call that is modelled.
  pub do_unmap : W → FileMap → FileMap × W
  do_unmap w fm = elim (fm.buf) [
    | none ↦ (fm, w)
    | some start ↦ (record fm { buf = none }, os.munmap w start (calc_map_size fm.size))
  ]

  pub size_changable : ⦃heap : Allocator⦄ → W → Bytes → Bool × W
  size_changable w path =
      let (fi, w) = get_fi w path in
      (elim fi [ none ↦ true | some fi ↦ not (is_device fi.mode) ], w)

  -- The loop of `expand`, a round for each fwrite.
  expand_loop : ℕ → W → ℕ → ℕ → Outcome (Bool × W)
  expand_loop zero w fp size = if size == 0 then ok (true, w) else fault out_of_fuel
  expand_loop (suc fuel) w fp size =
      let wr_size = if leb size max_size then size else max_size in
      let (written, w') = os.fwrite w fp wr_size in
      let rest = expand_loop fuel w' fp (size - wr_size) in
      if size == 0 then ok (true, w) else if written then rest else ok (false, w')

  -- malloc is taken to succeed; its buffer is freed on each path. What fclose returns is not looked at.
  pub expand : W → Bytes → ℕ → Outcome (Bool × W)
  unfolding expand_loop
  expand w path size =
      let (fp, w) = os.fopen w path in
      elim fp [
        | none ↦ ok (false, w)
        | some fp ↦ do
          (rc, w) ← expand_loop (size / max_size + 1) w fp size
          let (closed, w) = os.fclose w fp
          ok (rc, w)
      ]

  -- What it returns, and *changed, which is `false` before.
  pub set_size : ⦃heap : Allocator⦄ → W → Bytes → ℕ → Outcome (Bool × Bool × W)
  set_size w path size =
      if os.access w path
      then (let (fi, w) = get_fi w path in
          elim fi [
            | none ↦ ok (false, false, w)
            | some fi ↦
                if ltb fi.size size
                then (do (rc, w) ← expand w path (size - fi.size); ok (rc, rc, w))
                else if ltb size fi.size
                then (let (rc, w) = os.truncate w path size in ok (rc, rc, w))
                else ok (true, false, w)
          ])
      else (do (rc, w) ← expand w path size; ok (rc, rc, w))

  -- What file_map_set_size and file_map_expand do after a change of the size.
  pub remap : ⦃heap : Allocator⦄ → Bool → W → FileMap → Bool × FileMap × W
  remap rc w fm =
      if rc && fm_mapped fm then (let (fm, w) = do_unmap w fm in do_map w fm) else (rc, fm, w)

  pub file_map_set_size : ⦃heap : Allocator⦄ → W → FileMap → ℕ → Outcome (Bool × FileMap × W)
  unfolding remap
  file_map_set_size w fm size =
      let (changable, w) = size_changable w fm.path in
      if not changable then ok (false, fm, w) else (do
        (rc, changed, w) ← set_size w fm.path size
        ok (if rc && changed then remap true w fm else (rc, fm, w)))

  pub file_map_expand : ⦃heap : Allocator⦄ → W → FileMap → ℕ → Outcome (Bool × FileMap × W)
  unfolding remap
  file_map_expand w fm size =
      let (changable, w) = size_changable w fm.path in
      if not changable
      then ok (false, fm, w)
      else (do (rc, w) ← expand w fm.path size; ok (remap rc w fm))

  -- The last part of file_map_open_: the old mapping goes, and the file is mapped in the new mode.
  pub open_mapped : ⦃heap : Allocator⦄ → W → FileMap → Mode → Bool × FileMap × W
  open_mapped w fm mode =
      let (fm, w) = if fm_mapped fm then do_unmap w fm else (fm, w) in
      do_map w (record fm { mode = mode })

  pub file_map_open_ : ⦃heap : Allocator⦄ → W → FileMap → Bool → Mode → Outcome (Bool × FileMap × W)
  unfolding open_mapped
  file_map_open_ w fm reopen mode =
      if fm_mapped fm && (not reopen && same_mode fm.mode mode)
      then ok (true, fm, w)
      else if os.access w fm.path
      then ok (open_mapped w fm mode)
      else if not (same_mode mode fm_normal) || reopen
      then ok (false, fm, w)
      else (do
        (rc, w) ← expand w fm.path page_size
        if rc then ok (open_mapped w fm mode) else ok (false, fm, w))

  pub file_map_sync : W → FileMap → Bool × W
  file_map_sync w fm =
      let (fd, w) = os.open_file w fm.path true in
      elim fd [
        | none ↦ (false, w)
        | some fd ↦ let (done, w) = os.fsync w fd in (done, os.close w fd)
      ]

  -- The path is freed too.
  pub file_map_fini : W → FileMap → W
  file_map_fini w fm = if fm_mapped fm then (do_unmap w fm).1 else w
