-- ===== src/ArbDisk/Image/Head.antt =====
-- The head of the file and its array of records: src/duallive/arbitrary_disk_impl.h, and how
-- src/duallive/arbitrary_disk.c reads them.
use duallive.Base.{
  ℕ, ◌+◌, ◌-◌, ◌*◌, ◌/◌, ◌%◌, [], ◌∷◌, ltb, if◌then◌else◌, length, Outcome, ok, ◌>>=◌,
}
use duallive.Base.Memory.{Bytes, le, un_le, read_at, write_at, read_word}
use duallive.Base.Patches.{window}
use duallive.Kmem.{page_size, u32_mod}
use duallive.ArbDisk.{DiskDli}

abbrev pub sizeof_disk_head : ℕ
sizeof_disk_head = 64

abbrev pub sizeof_disk_dli : ℕ
sizeof_disk_dli = 64

-- ARB_DISK_MAIGC, ARB_DFL_DLI_NUM
abbrev pub disk_magic : ℕ
disk_magic = 0x30425241

abbrev pub dfl_dli_num : ℕ
dfl_dli_num = 4

-- ARB_DISK_MIN_SIZE
abbrev pub disk_min_size : ℕ
disk_min_size = sizeof_disk_head + sizeof_disk_dli * dfl_dli_num + 64

-- ALIGN_TO_PAGE(size), as the macro computes it: the quotient is 0.
abbrev pub align_to_page : ℕ → ℕ
align_to_page size = size + (page_size - 1) / page_size * page_size

-- The members of arb_disk_head_t.
abbrev pub head_magic : Bytes → Outcome ℕ
head_magic = read_word 0 4

abbrev pub head_dl_num : Bytes → Outcome ℕ
head_dl_num = read_word 4 2

abbrev pub head_dl_num_max : Bytes → Outcome ℕ
head_dl_num_max = read_word 6 2

abbrev pub head_str_pos : Bytes → Outcome ℕ
head_str_pos = read_word 32 4

abbrev pub head_last_str_pos : Bytes → Outcome ℕ
head_last_str_pos = read_word 36 4

-- A member that is set: its offset, its size and its value.
abbrev pub set_word : ℕ → ℕ → ℕ → Bytes → Outcome Bytes
set_word off n v img = write_at off (le n v) img

-- The arb_disk_dli_t that 64 bytes stand for.
unfoldable pub disk_dli_of : Bytes → DiskDli
disk_dli_of b = record {
  hostid0 = un_le 4 (window 0 4 b);
  hostid1 = un_le 4 (window 4 4 b);
  dataset0 = un_le 4 (window 8 4 b);
  dataset1 = un_le 4 (window 12 4 b);
  version =
      un_le 8 (window 16 8 b)
      ∷ un_le 8 (window 24 8 b)
      ∷ un_le 8 (window 32 8 b)
      ∷ un_le 8 (window 40 8 b)
      ∷ un_le 8 (window 48 8 b)
      ∷ un_le 8 (window 56 8 b)
      ∷ [];
}

-- The offset of fm2dli(fm)[i].
abbrev pub dli_off : ℕ → ℕ
dli_off i = sizeof_disk_head + sizeof_disk_dli * i

-- fm2dli(fm)[i]
unfoldable pub disk_dli_at : Bytes → ℕ → Outcome DiskDli
disk_dli_at img i = do b ← read_at (dli_off i) sizeof_disk_dli img; ok (disk_dli_of b)

unfoldable pub arb_disk_stroff : Bytes → Outcome ℕ
arb_disk_stroff img = do
  max ← head_dl_num_max img
  ok ((sizeof_disk_head + sizeof_disk_dli * max) % u32_mod)

unfoldable pub arb_disk_used_space : Bytes → Outcome ℕ
arb_disk_used_space img = do
  off ← arb_disk_stroff img
  pos ← head_str_pos img
  ok ((off + pos) % u32_mod)

unfoldable pub arb_disk_idle_space : Bytes → Outcome ℕ
arb_disk_idle_space img = do
  used ← arb_disk_used_space img
  ok (if ltb used (length img) then (length img - used) % u32_mod else 0)
