-- ===== src/FileMap/SetSize.antt =====
-- file_map_set_size of src/xutils/file_map.c: the length of the file and of the mapping.
use duallive.Base.{
  ℕ, ◌≡◌, refl, sym, ap, ◌∙◌, ◌⊎◌, inl, inr, Bool, true, false, not, ltb, ◌==◌, ◌||◌, Bool-cases,
  Option, none, some, Option-cases, Returns,
}
use mathlib.Core.Bool.{false≢true}
use duallive.Base.Memory.{Bytes}
use duallive.Kmem.{Allocator}
use duallive.FileSystem.{System}
use duallive.FileMap.{
  FileMap, fm_normal, fm_rdonly, fm_private, same_mode, fm_mapped, calc_map_size, max_file,
  mapped_at, map_file, do_map, do_unmap, size_changable, remap, file_map_set_size,
}
use duallive.FileMap.Growth.{Sizes, Flushes, get_fi-some, get_fi-none, set_size-Sized}

some-injective : {a b : ℕ} → ◌≡◌ {A = Option ℕ} (some a) (some b) → a ≡ b
some-injective e = cc

module _ {W : Type 0} (os : System W) (z : Sizes os) (flushes : Flushes os) where
  -- A mapping that succeeds has the length `n`.
  abbrev MappedAs : Bytes → ℕ → Bool × FileMap × W → Type 0
  MappedAs p n r =
      (z.length r.2 p ≡ some n) × (r.0 ≡ true → (fm_mapped r.1 ≡ true) × (r.1.size ≡ n))

  mapped_at-MappedAs :
      (p : Bytes) (o : Option ℕ) (n : ℕ) (fm : FileMap) (w : W)
      → z.length w p ≡ some n
      → MappedAs p n (mapped_at os o n fm w)
  unfolding mapped_at
  mapped_at-MappedAs p none n fm w e = (e, λ all. absurd (false≢true all))
  mapped_at-MappedAs p (some start) n fm w e = (e, λ _. (refl, refl))

  map_file-MappedAs :
      (fm : FileMap) (w : W) (n : ℕ)
      → z.length w fm.path ≡ some n
      → MappedAs fm.path n (map_file os w fm n)
  unfolding map_file
  map_file-MappedAs fm w n e =
      let writable = same_mode fm.mode fm_normal in
      let w1 = (os.open_file w fm.path writable).1 in
      let e1 = z.open_length w fm.path fm.path writable ∙ e in
      elim (Option-cases (os.open_file w fm.path writable).0) [
        | inl no_fd ↦ rw (map_file, no_fd) (e1, λ all. absurd (false≢true all))
        | inr (fd, is_fd) ↦
            let len = calc_map_size n in
            let prot = not (same_mode fm.mode fm_rdonly) in
            let shared = not (same_mode fm.mode fm_private) in
            let w2 = (os.mmap w1 len prot shared fd).1 in
            rw (map_file, is_fd)
              (mapped_at-MappedAs fm.path (os.mmap w1 len prot shared fd).0 n fm (os.close w2 fd)
                (z.close_length w2 fm.path fd ∙ z.mmap_length w1 fm.path len prot shared fd ∙ e1))
      ]

  do_map-MappedAs :
      ⦃heap : Allocator⦄
      → (fm : FileMap) (w : W) (n : ℕ) → z.length w fm.path ≡ some n
      → MappedAs fm.path n (do_map os w fm)
  unfolding do_map
  do_map-MappedAs fm w n e =
      let (is_n, still) = get_fi-some os z flushes fm.path w n e in
      elim (Bool-cases ((n == 0) || ltb max_file n)) [
        | inl bad ↦ rw (do_map, is_n, bad, still) (e, λ all. absurd (false≢true all))
        | inr good ↦ rw (do_map, is_n, good, still) (map_file-MappedAs fm w n e)
      ]

  do_unmap-length :
      (fm : FileMap) (w : W)
      → ((do_unmap os w fm).0.path ≡ fm.path)
        × (z.length (do_unmap os w fm).1 fm.path ≡ z.length w fm.path)
  unfolding do_unmap
  do_unmap-length fm w = elim (Option-cases fm.buf) [
    | inl e ↦ rw (do_unmap, e) (refl, refl)
    | inr (start, e) ↦
        rw (do_unmap, e) (refl, z.munmap_length w fm.path start (calc_map_size fm.size))
  ]

  -- Remapping a file of length `n`.
  remap-MappedAs :
      ⦃heap : Allocator⦄
      → (fm : FileMap) (w : W) (n : ℕ) → z.length w fm.path ≡ some n
      → (z.length (remap os true w fm).2 fm.path ≡ some n)
        × ((remap os true w fm).0 ≡ true
            → fm_mapped fm ≡ true
            → (fm_mapped (remap os true w fm).1 ≡ true) × ((remap os true w fm).1.size ≡ n))
  unfolding remap
  remap-MappedAs fm w n e = elim (Bool-cases (fm_mapped fm)) [
    | inr closed ↦ rw (remap, closed) (e, λ _ open_fm. absurd (false≢true open_fm))
    | inl there ↦
        let gone = do_unmap os w fm in
        let (same, still) = do_unmap-length fm w in
        let (e', mapped) =
          do_map-MappedAs gone.0 gone.1 n (ap (z.length gone.1) same ∙ still ∙ e) in
        rw (remap, there)
          (ap (z.length (do_map os gone.1 gone.0).2) (sym same) ∙ e', λ all _. mapped all)
  ]

  -- A regular file or none is no device, and asking changes nothing.
  size_changable-file :
      ⦃heap : Allocator⦄
      → (w : W) (p : Bytes) → ((size_changable os w p).0 ≡ true) × ((size_changable os w p).1 ≡ w)
  unfolding size_changable
  size_changable-file w p = elim (Option-cases (z.length w p)) [
    | inl absent ↦
        let (is_none, still) = get_fi-none os z flushes p w absent in
        (rw (size_changable, is_none), still)
    | inr (n, present) ↦
        let (is_n, still) = get_fi-some os z flushes p w n present in
        (rw (size_changable, is_n), still)
  ]

  -- The length of the file and of its mapping after a change that returns 0.
  set_size-ends :
      ⦃heap : Allocator⦄
      → (w : W) (fm : FileMap) (size : ℕ)
      → Returns
          (λ r.
            r.0 ≡ true
            → (z.length r.2 fm.path ≡ some size)
              × (fm_mapped fm ≡ true
                  → z.length w fm.path ≡ some fm.size
                  → (fm_mapped r.1 ≡ true) × (r.1.size ≡ size)))
          (file_map_set_size os w fm size)
  unfolding file_map_set_size
  set_size-ends w fm size =
      let (free, still) = size_changable-file w fm.path in
      let (r, returns, sized) = set_size-Sized os z flushes fm.path w size in
      elim (Bool-cases r.0) [
        | inr failed ↦
            rw (free, still, returns, failed)
              ((false, fm, r.2), refl, λ all. absurd (false≢true all))
        | inl done ↦
            let (ends, before) = sized done in
            elim (Bool-cases r.1) [
              | inl changed ↦
                  let (e, mapped) = remap-MappedAs fm r.2 size ends in
                  rw (free, still, returns, done, changed)
                    (_, refl, λ all. (e, λ there _. mapped all there))
              | inr same ↦
                  rw (free, still, returns, done, same)
                    (
                      (true, fm, r.2),
                      refl,
                      λ _. (ends, λ there was. (there, some-injective (sym was ∙ before same))),
                    )
            ]
      ]

  -- A file_map_t that is not mapped, or in the length of its file.
  abbrev pub IsCurrent : W → FileMap → Type 0
  IsCurrent w fm = (fm_mapped fm ≡ false) ⊎ (z.length w fm.path ≡ some fm.size)

  -- What file_map_set_size returned, and the length of the file and of the mapping.
  abbrev pub Resized : FileMap → ℕ → Bool × FileMap × W → Type 0
  Resized fm size r =
      (r.0 ≡ false)
      ⊎ ((z.length r.2 fm.path ≡ some size)
          × ((fm_mapped fm ≡ false) ⊎ ((fm_mapped r.1 ≡ true) × (r.1.size ≡ size))))

  -- On a path of a regular file or of none, and with a file_map_t that is not mapped, or mapped in the
  -- length of the file, file_map_set_size comes to its end. It reports a failure, or the file has the
  -- length `size` and a file that was mapped is mapped in the length `size`. Condition: no fclose fails.
  pub file_map_set_size-Resized :
      ⦃heap : Allocator⦄
      → (w : W) (fm : FileMap) (size : ℕ) → IsCurrent w fm
      → Returns (Resized fm size) (file_map_set_size os w fm size)
  file_map_set_size-Resized w fm size current =
      let (r, returns, ends) = set_size-ends w fm size in
      (
        r,
        returns,
        elim (Bool-cases r.0) [
          | inr failed ↦ inl failed
          | inl done ↦
              let (length, mapped) = ends done in
              elim (Bool-cases (fm_mapped fm)) [
                | inr closed ↦ inr (length, inl closed)
                | inl there ↦ elim current [
                  | inl closed ↦ inr (length, inl closed)
                  | inr whole ↦ inr (length, inr (mapped there whole))
                ]
              ]
        ],
      )
