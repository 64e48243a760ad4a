-- ===== src/FileMap/Opened.antt =====
-- What file_map_open_ of src/xutils/file_map.c has mapped when it returns 0.
use duallive.Base.{
  ℕ, ◌≤◌, ◌<◌, ◌≡◌, ◌⊎◌, refl, subst, arith, inl, inr, Bool, true, false, not, ltb, ◌==◌, ◌&&◌,
  ◌||◌, Bool-cases, Option-cases, Option, none, some, Outcome, ok,
}
use mathlib.Core.Bool.{false≢true}
use duallive.Base.Memory.{Bytes}
use duallive.Kmem.{Allocator, page_size}
use duallive.FileSystem.{System}
use duallive.FileMap.Resources.{Tracks}
use duallive.FileMap.Operations.{expand-Kept, set_size-Kept}
use duallive.FileMap.{
  FileMap, fm_normal, fm_rdonly, fm_private, same_mode, max_file, fm_mapped, get_fi, calc_map_size,
  mapped_at, map_file, do_map, do_unmap, file_map_init, size_changable, remap, file_map_set_size,
  open_mapped, file_map_open_,
}

-- It is mapped, and its size is neither 0 nor more than FM_SIZE_BITS tell.
pub record IsMapped (fm : FileMap) : Type 0 where
  pub start : ℕ
  pub is_start : fm.buf ≡ some start
  pub some_byte : 0 < fm.size
  pub bounded : fm.size ≤ max_file

-- The mapping has a page at least.
pub IsMapped-page : (fm : FileMap) → IsMapped fm → page_size ≤ calc_map_size fm.size
unfolding calc_map_size
IsMapped-page fm m = omega (arith, m.some_byte, m.bounded)

ok-eq : {A : Type 0} {a b : A} → ok a ≡ ok b → a ≡ b
ok-eq {A} e = cc

module _ {W : Type 0} (os : System W) where
  mapped_at-IsMapped :
      (o : Option ℕ) (size : ℕ) (fm : FileMap) (w : W)
      → 0 < size
      → size ≤ max_file
      → (mapped_at os o size fm w).0 ≡ true
      → IsMapped (mapped_at os o size fm w).1
  unfolding mapped_at
  mapped_at-IsMapped none size fm w some_byte bounded e = absurd (false≢true e)
  mapped_at-IsMapped (some start) size fm w some_byte bounded e = record {
    start = start;
    is_start = refl;
    some_byte = some_byte;
    bounded = bounded;
  }

  map_file-IsMapped :
      (w : W) (fm : FileMap) (size : ℕ)
      → 0 < size
      → size ≤ max_file
      → (map_file os w fm size).0 ≡ true
      → IsMapped (map_file os w fm size).1
  unfolding map_file
  map_file-IsMapped w fm size some_byte bounded =
      elim (Option-cases (os.open_file w fm.path (same_mode fm.mode fm_normal)).0) [
        | inl e ↦ rw (map_file, e) (λ failed. absurd (false≢true failed))
        | inr (fd, e) ↦
            let w1 = (os.open_file w fm.path (same_mode fm.mode fm_normal)).1 in
            let r =
              os.mmap w1 (calc_map_size size) (not (same_mode fm.mode fm_rdonly))
                (not (same_mode fm.mode fm_private)) fd in
            rw (map_file, e) (mapped_at-IsMapped r.0 size fm (os.close r.1 fd) some_byte bounded)
      ]

  module _ ⦃heap : Allocator⦄ (t : Tracks os) where
    do_map-IsMapped :
        (w : W) (fm : FileMap) → (do_map os w fm).0 ≡ true → IsMapped (do_map os w fm).1
    unfolding do_map
    do_map-IsMapped w fm = elim (Option-cases (get_fi os w fm.path).0) [
      | inl e ↦ rw (do_map, e) (λ failed. absurd (false≢true failed))
      | inr (fi, e) ↦ elim (Bool-cases ((fi.size == 0) || ltb max_file fi.size)) [
        | inl bad ↦ rw (do_map, e, bad) (λ failed. absurd (false≢true failed))
        | inr good ↦
            rw (do_map, e, good)
              (map_file-IsMapped (get_fi os w fm.path).1 fm fi.size (ground arith) (ground arith))
      ]
    ]

    -- file_map_open after file_map_init.
    pub file_map_open_-IsMapped :
        (w : W) (path : Bytes) {r : Bool × FileMap × W}
        → file_map_open_ os w (file_map_init path) false fm_normal ≡ ok r
        → r.0 ≡ true
        → IsMapped r.1
    unfolding file_map_open_ open_mapped
    file_map_open_-IsMapped w path {r} =
        let opens : (w1 : W)
            → ◌≡◌ {A = Outcome (Bool × FileMap × W)} (ok (do_map os w1 (file_map_init path))) (ok r)
            → r.0 ≡ true
            → IsMapped r.1 =
          λ w1 e.
            subst (λ q. q.0 ≡ true → IsMapped q.1) (ok-eq e)
              (do_map-IsMapped w1 (file_map_init path)) in
        elim (Bool-cases (os.access w path)) [
          | inl present ↦ rw present (opens w)
          | inr absent ↦
              let (q, expands, kept) = expand-Kept os t w path page_size in
              elim (Bool-cases q.0) [
                | inl made ↦ rw (absent, expands, made) (opens q.1)
                | inr failed ↦
                    rw (absent, expands, failed)
                      (λ e.
                        subst (λ q. q.0 ≡ true → IsMapped q.1) (ok-eq e)
                          (λ no. absurd (false≢true no)))
              ]
        ]

    -- It is mapped, or it is not.
    abbrev pub MaybeMapped : FileMap → Type 0
    MaybeMapped fm = (fm.buf ≡ none) ⊎ IsMapped fm

    mapped_at-MaybeMapped :
        (o : Option ℕ) (size : ℕ) (fm : FileMap) (w : W)
        → 0 < size
        → size ≤ max_file
        → MaybeMapped (mapped_at os o size fm w).1
    unfolding mapped_at
    mapped_at-MaybeMapped none size fm w some_byte bounded = inl refl
    mapped_at-MaybeMapped (some start) size fm w some_byte bounded =
        inr (mapped_at-IsMapped (some start) size fm w some_byte bounded refl)

    do_unmap-null : (w : W) (fm : FileMap) → (do_unmap os w fm).0.buf ≡ none
    unfolding do_unmap
    do_unmap-null w fm = elim (Option-cases fm.buf) [
      | inl e ↦ rw (do_unmap, e) e
      | inr (start, e) ↦ rw (do_unmap, e) refl
    ]

    do_map-MaybeMapped : (w : W) (fm : FileMap) → fm.buf ≡ none → MaybeMapped (do_map os w fm).1
    unfolding do_map map_file mapped_at
    do_map-MaybeMapped w fm null = elim (Option-cases (get_fi os w fm.path).0) [
      | inl e ↦ rw (do_map, e) (inl null)
      | inr (fi, e) ↦ elim (Bool-cases ((fi.size == 0) || ltb max_file fi.size)) [
        | inl bad ↦ rw (do_map, e, bad) (inl null)
        | inr good ↦
            let w1 = (get_fi os w fm.path).1 in
            let writable = same_mode fm.mode fm_normal in
            elim (Option-cases (os.open_file w1 fm.path writable).0) [
              | inl no_fd ↦ rw (do_map, e, good, map_file, no_fd) (inl null)
              | inr (fd, is_fd) ↦
                  let r =
                    os.mmap (os.open_file w1 fm.path writable).1 (calc_map_size fi.size)
                      (not (same_mode fm.mode fm_rdonly)) (not (same_mode fm.mode fm_private)) fd in
                  rw (do_map, e, good, map_file, is_fd)
                    (mapped_at-MaybeMapped r.0 fi.size fm (os.close r.1 fd) (ground arith)
                      (ground arith))
            ]
      ]
    ]

    remap-MaybeMapped :
        (rc : Bool) (w : W) (fm : FileMap) → MaybeMapped fm → MaybeMapped (remap os rc w fm).1
    unfolding remap do_unmap
    remap-MaybeMapped rc w fm m = elim (Bool-cases (rc && fm_mapped fm)) [
      | inr same ↦ rw (remap, same) m
      | inl again ↦
          rw (remap, again)
            (do_map-MaybeMapped (do_unmap os w fm).1 (do_unmap os w fm).0 (do_unmap-null w fm))
    ]

    -- file_map_set_size on it.
    pub file_map_set_size-MaybeMapped :
        (w : W) (fm : FileMap) (size : ℕ) {r : Bool × FileMap × W}
        → MaybeMapped fm
        → file_map_set_size os w fm size ≡ ok r
        → MaybeMapped r.1
    unfolding file_map_set_size
    file_map_set_size-MaybeMapped w fm size {r} m =
        elim (Bool-cases (size_changable os w fm.path).0) [
          | inr fixed ↦ rw (fixed) (λ e. subst (λ q. MaybeMapped q.1) (ok-eq e) m)
          | inl free ↦
              let (q, sets, kept) =
                set_size-Kept os t (size_changable os w fm.path).1 fm.path size in
              elim (Bool-cases (q.0 && q.1)) [
                | inl changed ↦
                    rw (free, sets, changed)
                      (λ e.
                        subst (λ q. MaybeMapped q.1) (ok-eq e) (remap-MaybeMapped true q.2 fm m))
                | inr same ↦ rw (free, sets, same) (λ e. subst (λ q. MaybeMapped q.1) (ok-eq e) m)
              ]
        ]
