-- ===== src/FileSystem.antt =====
-- The calls of the operating system that src/xutils/file_map.c makes: a parameter of the model.
use duallive.Base.{ℕ, Bool, Option}
use duallive.Base.Memory.{Bytes}

-- st_mode & S_IFMT
pub data FileKind : Type 0 where
  regular block_device symbolic_link other_kind : FileKind

-- struct stat, as far as it is read.
pub record Stat : Type 0 where
  pub mode : FileKind
  pub size : ℕ

-- The calls of the operating system, over its state. A call that fails gives `none` or `false`.
-- A descriptor, a stream and an address are numbers.
pub record System (W : Type 0) : Type 0 where
  pub stat : W → Bytes → Option Stat
  -- the count, and the buffer after it
  pub readlink : W → Bytes → Bytes → Option (ℕ × Bytes)
  pub access : W → Bytes → Bool
  -- whether for writing too
  pub open_file : W → Bytes → Bool → Option ℕ × W
  pub close : W → ℕ → W
  -- BLKGETSIZE64
  pub device_size : W → ℕ → Option ℕ
  -- the length, whether it is writable, whether it is shared, the descriptor
  pub mmap : W → ℕ → Bool → Bool → ℕ → Option ℕ × W
  pub munmap : W → ℕ → ℕ → W
  pub truncate : W → Bytes → ℕ → Bool × W
  -- mode "a+"
  pub fopen : W → Bytes → Option ℕ × W
  -- so many zero bytes
  pub fwrite : W → ℕ → ℕ → Bool × W
  pub fclose : W → ℕ → Bool × W
  pub fsync : W → ℕ → Bool × W
