-- ===== src/FileMap/Resources.antt =====
-- What file_map.c holds of the operating system: descriptors, streams and mappings.
use duallive.Base.{
  ℕ, ◌≡◌, refl, sym, ap, ◌∙◌, arith, inl, inr, List, [], ◌∷◌, ◌++◌, Bool, false, not, ltb, ◌==◌,
  ◌||◌, Bool-cases, Option, none, some, Option-cases,
}
use duallive.Base.Memory.{Bytes}
use duallive.Kmem.{Allocator, kmem_alloc}
use duallive.FileSystem.{System, Stat, FileKind, regular, block_device, symbolic_link, other_kind}
use duallive.FileMap.{
  FileMap, is_some, fm_mapped, fm_normal, fm_rdonly, fm_private, same_mode, calc_map_size, max_file,
  stat_real, get_bdev_sz, fi_of_mode, get_fi, mapped_at, map_file, do_map, do_unmap, size_changable,
}

pub data Handle : Type 0 where
  descriptor stream : ℕ → Handle

abbrev pub with_descriptor : Option ℕ → List Handle → List Handle
with_descriptor none hs = hs
with_descriptor (some fd) hs = descriptor fd ∷ hs

abbrev pub with_stream : Option ℕ → List Handle → List Handle
with_stream none hs = hs
with_stream (some fp) hs = stream fp ∷ hs

abbrev pub with_mapping : Option ℕ → ℕ → List (ℕ × ℕ) → List (ℕ × ℕ)
with_mapping none len ms = ms
with_mapping (some at) len ms = (at, len) ∷ ms

-- What the calls do to the handles that are open and the ranges that are mapped, the latest first:
-- a call that succeeds takes one more, close, fclose and munmap give the latest one back, and no
-- other call changes them.
pub record Tracks {W : Type 0} (os : System W) : Type 0 where
  pub handles : W → List Handle
  pub maps : W → List (ℕ × ℕ)
  pub open_handles :
      (w : W) (p : Bytes) (b : Bool)
      → handles (os.open_file w p b).1 ≡ with_descriptor (os.open_file w p b).0 (handles w)
  pub open_maps : (w : W) (p : Bytes) (b : Bool) → maps (os.open_file w p b).1 ≡ maps w
  pub close_handles :
      (w : W) (fd : ℕ) (hs : List Handle)
      → handles w ≡ descriptor fd ∷ hs
      → handles (os.close w fd) ≡ hs
  pub close_maps : (w : W) (fd : ℕ) → maps (os.close w fd) ≡ maps w
  pub fopen_handles :
      (w : W) (p : Bytes) → handles (os.fopen w p).1 ≡ with_stream (os.fopen w p).0 (handles w)
  pub fopen_maps : (w : W) (p : Bytes) → maps (os.fopen w p).1 ≡ maps w
  pub fclose_handles :
      (w : W) (fp : ℕ) (hs : List Handle)
      → handles w ≡ stream fp ∷ hs
      → handles (os.fclose w fp).1 ≡ hs
  pub fclose_maps : (w : W) (fp : ℕ) → maps (os.fclose w fp).1 ≡ maps w
  pub fwrite_handles : (w : W) (fp n : ℕ) → handles (os.fwrite w fp n).1 ≡ handles w
  pub fwrite_maps : (w : W) (fp n : ℕ) → maps (os.fwrite w fp n).1 ≡ maps w
  pub truncate_handles : (w : W) (p : Bytes) (n : ℕ) → handles (os.truncate w p n).1 ≡ handles w
  pub truncate_maps : (w : W) (p : Bytes) (n : ℕ) → maps (os.truncate w p n).1 ≡ maps w
  pub fsync_handles : (w : W) (fd : ℕ) → handles (os.fsync w fd).1 ≡ handles w
  pub fsync_maps : (w : W) (fd : ℕ) → maps (os.fsync w fd).1 ≡ maps w
  pub mmap_handles :
      (w : W) (n : ℕ) (a b : Bool) (fd : ℕ) → handles (os.mmap w n a b fd).1 ≡ handles w
  pub mmap_maps :
      (w : W) (n : ℕ) (a b : Bool) (fd : ℕ)
      → maps (os.mmap w n a b fd).1 ≡ with_mapping (os.mmap w n a b fd).0 n (maps w)
  pub munmap_handles : (w : W) (at len : ℕ) → handles (os.munmap w at len) ≡ handles w
  pub munmap_maps :
      (w : W) (at len : ℕ) (ms : List (ℕ × ℕ))
      → maps w ≡ (at, len) ∷ ms
      → maps (os.munmap w at len) ≡ ms

-- The range that a file_map_t has mapped.
abbrev pub range_at : Option ℕ → ℕ → List (ℕ × ℕ)
range_at none size = []
range_at (some start) size = (start, calc_map_size size) ∷ []

abbrev pub mapping : FileMap → List (ℕ × ℕ)
mapping fm = range_at fm.buf fm.size

module _ {W : Type 0} (os : System W) (t : Tracks os) where
  -- Nothing is held that was not held before.
  abbrev pub Kept : W → W → Type 0
  Kept w w' = (t.handles w' ≡ t.handles w) × (t.maps w' ≡ t.maps w)

  -- The handles `hs` are open, and besides the ranges `ms` the file_map_t's own is mapped.
  pub record Balanced (hs : List Handle) (ms : List (ℕ × ℕ)) (fm : FileMap) (w : W) : Type 0 where
    pub handles : t.handles w ≡ hs
    pub maps : t.maps w ≡ mapping fm ++ ms

  -- A descriptor that is opened and, after calls that keep it, closed.
  pub open_close-Kept :
      (w w2 : W) (p : Bytes) (b : Bool) (fd : ℕ)
      → (os.open_file w p b).0 ≡ some fd
      → Kept (os.open_file w p b).1 w2
      → Kept w (os.close w2 fd)
  open_close-Kept w w2 p b fd e (hs, ms) = (
    t.close_handles w2 fd (t.handles w)
        (hs ∙ t.open_handles w p b ∙ ap (λ o. with_descriptor o (t.handles w)) e),
    t.close_maps w2 fd ∙ ms ∙ t.open_maps w p b,
  )

  pub open_none-Kept :
      (w : W) (p : Bytes) (b : Bool) → (os.open_file w p b).0 ≡ none → Kept w (os.open_file w p b).1
  open_none-Kept w p b e =
      (t.open_handles w p b ∙ ap (λ o. with_descriptor o (t.handles w)) e, t.open_maps w p b)

  get_bdev_sz-Kept : (w : W) (p : Bytes) → Kept w (get_bdev_sz os w p).1
  unfolding get_bdev_sz
  get_bdev_sz-Kept w p = elim (Option-cases (os.open_file w p false).0) [
    | inl e ↦ rw (get_bdev_sz, e) (open_none-Kept w p false e)
    | inr (fd, e) ↦
        rw (get_bdev_sz, e) (open_close-Kept w (os.open_file w p false).1 p false fd e (refl, refl))
  ]

  fi_of_mode-Kept :
      (k : FileKind) (w : W) (p : Bytes) (st : Stat) → Kept w (fi_of_mode os k w p st).1
  unfolding fi_of_mode
  fi_of_mode-Kept regular w p st = (refl, refl)
  fi_of_mode-Kept block_device w p st = elim (Option-cases (get_bdev_sz os w p).0) [
    | inl e ↦ rw (fi_of_mode, e) (get_bdev_sz-Kept w p)
    | inr (size, e) ↦ rw (fi_of_mode, e) (get_bdev_sz-Kept w p)
  ]
  fi_of_mode-Kept symbolic_link w p st = (refl, refl)
  fi_of_mode-Kept other_kind w p st = (refl, refl)

  pub get_fi-Kept : ⦃heap : Allocator⦄ → (w : W) (p : Bytes) → Kept w (get_fi os w p).1
  unfolding get_fi
  get_fi-Kept w p = elim (Option-cases (stat_real os w p (kmem_alloc 1024))) [
    | inl e ↦ rw (get_fi, e) (refl, refl)
    | inr (st, e) ↦ rw (get_fi, e) (fi_of_mode-Kept st.mode w p st)
  ]

  pub size_changable-Kept :
      ⦃heap : Allocator⦄ → (w : W) (p : Bytes) → Kept w (size_changable os w p).1
  unfolding size_changable
  size_changable-Kept w p = get_fi-Kept w p

  pub Kept-trans : (w w1 w2 : W) → Kept w w1 → Kept w1 w2 → Kept w w2
  Kept-trans w w1 w2 (a, b) (c, d) = (c ∙ a, d ∙ b)

  pub Balanced-Kept :
      {hs : List Handle} {ms : List (ℕ × ℕ)} {fm : FileMap} {w w' : W}
      → Balanced hs ms fm w
      → Kept w w'
      → Balanced hs ms fm w'
  Balanced-Kept b (h, m) = record { handles = h ∙ b.handles; maps = m ∙ b.maps }

  pub do_unmap-Balanced :
      (hs : List Handle) (ms : List (ℕ × ℕ)) (fm : FileMap) (w : W)
      → Balanced hs ms fm w
      → ((do_unmap os w fm).0.buf ≡ none)
        × (t.handles (do_unmap os w fm).1 ≡ hs)
        × (t.maps (do_unmap os w fm).1 ≡ ms)
  unfolding do_unmap
  do_unmap-Balanced hs ms fm w b = elim (Option-cases fm.buf) [
    | inl e ↦ rw (do_unmap, e) (e, b.handles, b.maps ∙ ap (λ o. range_at o fm.size ++ ms) e)
    | inr (start, e) ↦
        rw (do_unmap, e)
          (
            refl,
            t.munmap_handles w start (calc_map_size fm.size) ∙ b.handles,
            t.munmap_maps w start (calc_map_size fm.size) ms
                (b.maps ∙ ap (λ o. range_at o fm.size ++ ms) e),
          )
  ]

  -- What a file_map_t without a mapping becomes: it has one, or it has none.
  abbrev pub Unmapped : List Handle → List (ℕ × ℕ) → FileMap → W → Type 0
  Unmapped hs ms fm w = (fm.buf ≡ none) × (t.handles w ≡ hs) × (t.maps w ≡ ms)

  pub Unmapped-Balanced :
      (hs : List Handle) (ms : List (ℕ × ℕ)) (fm : FileMap) (w : W)
      → Unmapped hs ms fm w
      → Balanced hs ms fm w
  Unmapped-Balanced hs ms fm w (e, h, m) = record {
    handles = h;
    maps = m ∙ ap (λ o. range_at o fm.size ++ ms) (sym e);
  }

  mapped_at-Balanced :
      (hs : List Handle) (ms : List (ℕ × ℕ)) (fm : FileMap) (w : W) (o : Option ℕ) (size : ℕ)
      → t.handles w ≡ hs
      → t.maps w ≡ with_mapping o (calc_map_size size) ms
      → Balanced hs ms (mapped_at os o size fm w).1 (mapped_at os o size fm w).2
  unfolding mapped_at
  mapped_at-Balanced hs ms fm w none size h m = record { handles = h; maps = m }
  mapped_at-Balanced hs ms fm w (some start) size h m = record { handles = h; maps = m }

  map_file-Balanced :
      (hs : List Handle) (ms : List (ℕ × ℕ)) (fm : FileMap) (w : W) (size : ℕ)
      → Unmapped hs ms fm w
      → Balanced hs ms (map_file os w fm size).1 (map_file os w fm size).2
  unfolding map_file
  map_file-Balanced hs ms fm w size (e, h, m) =
      let writable = same_mode fm.mode fm_normal in
      let w1 = (os.open_file w fm.path writable).1 in
      elim (Option-cases (os.open_file w fm.path writable).0) [
        | inl no_fd ↦
            let (h', m') = open_none-Kept w fm.path writable no_fd in
            rw (map_file, no_fd) (Unmapped-Balanced hs ms fm w1 (e, h' ∙ h, m' ∙ m))
        | inr (fd, is_fd) ↦
            let len = calc_map_size size in
            let prot = not (same_mode fm.mode fm_rdonly) in
            let shared = not (same_mode fm.mode fm_private) in
            let w2 = (os.mmap w1 len prot shared fd).1 in
            rw (map_file, is_fd)
              (mapped_at-Balanced hs ms fm (os.close w2 fd) (os.mmap w1 len prot shared fd).0 size
                (t.close_handles w2 fd hs (
                  t.mmap_handles w1 len prot shared fd
                  ∙ t.open_handles w fm.path writable
                  ∙ ap (λ o. with_descriptor o (t.handles w)) is_fd
                  ∙ ap (◌∷◌ (descriptor fd)) h))
                (t.close_maps w2 fd
                  ∙ t.mmap_maps w1 len prot shared fd
                  ∙ ap (with_mapping (os.mmap w1 len prot shared fd).0 len)
                      (t.open_maps w fm.path writable ∙ m)))
      ]

  pub do_map-Balanced :
      ⦃heap : Allocator⦄
      → (hs : List Handle) (ms : List (ℕ × ℕ)) (fm : FileMap) (w : W) → Unmapped hs ms fm w
      → Balanced hs ms (do_map os w fm).1 (do_map os w fm).2
  unfolding do_map
  do_map-Balanced hs ms fm w (e, h, m) =
      let w1 = (get_fi os w fm.path).1 in
      let (h', m') = get_fi-Kept w fm.path in
      let still : Unmapped hs ms fm w1 = (e, h' ∙ h, m' ∙ m) in
      elim (Option-cases (get_fi os w fm.path).0) [
        | inl no_fi ↦ rw (do_map, no_fi) (Unmapped-Balanced hs ms fm w1 still)
        | inr (fi, is_fi) ↦ elim (Bool-cases ((fi.size == 0) || ltb max_file fi.size)) [
          | inl bad ↦ rw (do_map, is_fi, bad) (Unmapped-Balanced hs ms fm w1 still)
          | inr good ↦ rw (do_map, is_fi, good) (map_file-Balanced hs ms fm w1 fi.size still)
        ]
      ]

  none-is_some : {o : Option ℕ} → is_some o ≡ false → o ≡ none
  none-is_some {o} e = ground arith

  pub Balanced-Unmapped :
      (hs : List Handle) (ms : List (ℕ × ℕ)) (fm : FileMap) (w : W)
      → fm_mapped fm ≡ false
      → Balanced hs ms fm w
      → Unmapped hs ms fm w
  Balanced-Unmapped hs ms fm w e b =
      let none_there : fm.buf ≡ none = none-is_some e in
      (none_there, b.handles, b.maps ∙ ap (λ o. range_at o fm.size ++ ms) none_there)
