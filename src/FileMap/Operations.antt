-- ===== src/FileMap/Operations.antt =====
-- The operations of file_map.c: each gives back what it took of the operating system.
use duallive.Base.{
  ℕ, zero, suc, ◌+◌, ◌-◌, ◌*◌, ◌/◌, ◌≤◌, ◌≡◌, refl, ap, ◌∙◌, arith, inl, inr, List, Bool, true,
  false, not, ltb, leb, ◌==◌, ◌&&◌, ◌||◌, if◌then◌else◌, Bool-cases, Option-cases, Returns, eq→==,
}
use duallive.Base.Memory.{Bytes}
use duallive.Kmem.{Allocator, page_size}
use duallive.FileSystem.{System}
use duallive.FileMap.{
  FileMap, Mode, fm_normal, same_mode, max_size, fm_mapped, get_fi, do_unmap, size_changable,
  expand_loop, expand, set_size, remap, open_mapped, file_map_set_size, file_map_expand,
  file_map_open_, file_map_sync, file_map_fini,
}
use duallive.FileMap.Resources.{
  Tracks, Handle, with_stream, Kept, Kept-trans, Balanced, Balanced-Kept, open_close-Kept,
  open_none-Kept, get_fi-Kept, size_changable-Kept, do_unmap-Balanced, do_map-Balanced,
  Balanced-Unmapped,
}

module _ {W : Type 0} (os : System W) (t : Tracks os) where
  expand_loop-Kept :
      (fuel : ℕ) (w : W) (fp size : ℕ)
      → size ≤ fuel * max_size
      → Returns (λ r. Kept os t w r.1) (expand_loop os fuel w fp size)
  unfolding expand_loop
  expand_loop-Kept zero w fp size h =
      let empty : size ≡ 0 = omega arith in rw (eq→== size 0 empty) ((true, w), refl, (refl, refl))
  expand_loop-Kept (suc fuel) w fp size h = elim (Bool-cases (size == 0)) [
    | inl done ↦ rw (expand_loop, done) ((true, w), refl, (refl, refl))
    | inr more ↦
        let wr_size = if leb size max_size then size else max_size in
        let w1 = (os.fwrite w fp wr_size).1 in
        let one : Kept os t w w1 = (t.fwrite_handles w fp wr_size, t.fwrite_maps w fp wr_size) in
        elim (Bool-cases (os.fwrite w fp wr_size).0) [
          | inl written ↦
              let (r, e, k) = expand_loop-Kept fuel w1 fp (size - wr_size) (ground arith) in
              rw (more, written) (r, e, Kept-trans os t w w1 r.1 one k)
          | inr failed ↦ rw (more, failed) ((false, w1), refl, one)
        ]
  ]

  pub expand-Kept :
      (w : W) (path : Bytes) (size : ℕ) → Returns (λ r. Kept os t w r.1) (expand os w path size)
  unfolding expand
  expand-Kept w path size =
      let w1 = (os.fopen w path).1 in
      elim (Option-cases (os.fopen w path).0) [
        | inl e ↦
            rw (expand, e)
              (
                (false, w1),
                refl,
                (
                  t.fopen_handles w path ∙ ap (λ o. with_stream o (t.handles w)) e,
                  t.fopen_maps w path,
                ),
              )
        | inr (fp, e) ↦
            let (r, returns, (h, m)) =
              expand_loop-Kept (size / max_size + 1) w1 fp size (omega arith) in
            rw (expand, e, returns)
              (
                (r.0, (os.fclose r.1 fp).1),
                refl,
                (
                  t.fclose_handles r.1 fp (t.handles w)
                      (h ∙ t.fopen_handles w path ∙ ap (λ o. with_stream o (t.handles w)) e),
                  t.fclose_maps r.1 fp ∙ m ∙ t.fopen_maps w path,
                ),
              )
      ]

  pub set_size-Kept :
      ⦃heap : Allocator⦄
      → (w : W) (path : Bytes) (size : ℕ) → Returns (λ r. Kept os t w r.2) (set_size os w path size)
  unfolding set_size
  set_size-Kept w path size =
      let w1 = (get_fi os w path).1 in
      let first = get_fi-Kept os t w path in
      let whole = expand-Kept w path size in
      elim (Bool-cases (os.access w path)) [
        | inr absent ↦
            let (r, returns, k) = whole in rw (absent, returns) ((r.0, r.0, r.1), refl, k)
        | inl present ↦ elim (Option-cases (get_fi os w path).0) [
          | inl e ↦ rw (present, set_size, e) ((false, false, w1), refl, first)
          | inr (fi, e) ↦ elim (Bool-cases (ltb fi.size size)) [
            | inl less ↦
                let (r, returns, k) = expand-Kept w1 path (size - fi.size) in
                rw (present, e, less, returns)
                  ((r.0, r.0, r.1), refl, Kept-trans os t w w1 r.1 first k)
            | inr more ↦ elim (Bool-cases (ltb size fi.size)) [
              | inl greater ↦
                  let cut = os.truncate w1 path size in
                  rw (present, e, more, greater)
                    (
                      (cut.0, cut.0, cut.1),
                      refl,
                      Kept-trans os t w w1 cut.1 first
                          (t.truncate_handles w1 path size, t.truncate_maps w1 path size),
                    )
              | inr equal ↦ rw (present, e, more, equal) ((true, false, w1), refl, first)
            ]
          ]
        ]
      ]

  -- The state after an operation on a file_map_t.
  abbrev pub After : List Handle → List (ℕ × ℕ) → Bool × FileMap × W → Type 0
  After hs ms r = Balanced os t hs ms r.1 r.2

  module _ ⦃heap : Allocator⦄ (hs : List Handle) (ms : List (ℕ × ℕ)) where
    remap-Balanced :
        (rc : Bool) (w : W) (fm : FileMap)
        → Balanced os t hs ms fm w
        → After hs ms (remap os rc w fm)
    unfolding remap
    remap-Balanced rc w fm b = elim (Bool-cases (rc && fm_mapped fm)) [
      | inl again ↦
          let gone = do_unmap os w fm in
          rw (remap, again)
            (do_map-Balanced os t hs ms gone.0 gone.1 (do_unmap-Balanced os t hs ms fm w b))
      | inr not_again ↦ rw (remap, not_again) b
    ]

    pub file_map_set_size-Balanced :
        (w : W) (fm : FileMap) (size : ℕ)
        → Balanced os t hs ms fm w
        → Returns (After hs ms) (file_map_set_size os w fm size)
    unfolding file_map_set_size
    file_map_set_size-Balanced w fm size b =
        let w1 = (size_changable os w fm.path).1 in
        let b1 = Balanced-Kept os t b (size_changable-Kept os t w fm.path) in
        elim (Bool-cases (size_changable os w fm.path).0) [
          | inr fixed ↦ rw (file_map_set_size, fixed) ((false, fm, w1), refl, b1)
          | inl free ↦
              let (r, returns, k) = set_size-Kept w1 fm.path size in
              let b2 = Balanced-Kept os t b1 k in
              elim (Bool-cases (r.0 && r.1)) [
                | inl changed ↦ rw (free, returns, changed) (_, refl, remap-Balanced true r.2 fm b2)
                | inr same ↦ rw (free, returns, same) (_, refl, b2)
              ]
        ]

    pub file_map_expand-Balanced :
        (w : W) (fm : FileMap) (size : ℕ)
        → Balanced os t hs ms fm w
        → Returns (After hs ms) (file_map_expand os w fm size)
    unfolding file_map_expand
    file_map_expand-Balanced w fm size b =
        let w1 = (size_changable os w fm.path).1 in
        let b1 = Balanced-Kept os t b (size_changable-Kept os t w fm.path) in
        elim (Bool-cases (size_changable os w fm.path).0) [
          | inr fixed ↦ rw (file_map_expand, fixed) ((false, fm, w1), refl, b1)
          | inl free ↦
              let (r, returns, k) = expand-Kept w1 fm.path size in
              rw (free, returns) (_, refl, remap-Balanced r.0 r.1 fm (Balanced-Kept os t b1 k))
        ]

    open_mapped-Balanced :
        (w : W) (fm : FileMap) (mode : Mode)
        → Balanced os t hs ms fm w
        → After hs ms (open_mapped os w fm mode)
    unfolding open_mapped
    open_mapped-Balanced w fm mode b = elim (Bool-cases (fm_mapped fm)) [
      | inr closed ↦
          rw (open_mapped, closed)
            (do_map-Balanced os t hs ms (record fm { mode = mode }) w
              (Balanced-Unmapped os t hs ms fm w closed b))
      | inl there ↦
          let gone = do_unmap os w fm in
          rw (open_mapped, there)
            (do_map-Balanced os t hs ms (record gone.0 { mode = mode }) gone.1
              (do_unmap-Balanced os t hs ms fm w b))
    ]

    pub file_map_open_-Balanced :
        (w : W) (fm : FileMap) (reopen : Bool) (mode : Mode)
        → Balanced os t hs ms fm w
        → Returns (After hs ms) (file_map_open_ os w fm reopen mode)
    unfolding file_map_open_
    file_map_open_-Balanced w fm reopen mode b =
        elim (Bool-cases (fm_mapped fm && (not reopen && same_mode fm.mode mode))) [
          | inl same ↦ rw same ((true, fm, w), refl, b)
          | inr other ↦ elim (Bool-cases (os.access w fm.path)) [
            | inl present ↦ rw (other, present) (_, refl, open_mapped-Balanced w fm mode b)
            | inr absent ↦ elim (Bool-cases (not (same_mode mode fm_normal) || reopen)) [
              | inl refused ↦ rw (other, absent, refused) ((false, fm, w), refl, b)
              | inr new ↦
                  let (r, returns, k) = expand-Kept w fm.path page_size in
                  let b1 = Balanced-Kept os t b k in
                  elim (Bool-cases r.0) [
                    | inl made ↦
                        rw (other, absent, new, returns, made)
                          (_, refl, open_mapped-Balanced r.1 fm mode b1)
                    | inr failed ↦
                        rw (other, absent, new, returns, failed) ((false, fm, r.1), refl, b1)
                  ]
            ]
          ]
        ]

    pub file_map_sync-Balanced :
        (w : W) (fm : FileMap)
        → Balanced os t hs ms fm w
        → Balanced os t hs ms fm (file_map_sync os w fm).1
    unfolding file_map_sync
    file_map_sync-Balanced w fm b =
        let w1 = (os.open_file w fm.path true).1 in
        elim (Option-cases (os.open_file w fm.path true).0) [
          | inl e ↦
              rw (file_map_sync, e) (Balanced-Kept os t b (open_none-Kept os t w fm.path true e))
          | inr (fd, e) ↦
              rw (file_map_sync, e)
                (Balanced-Kept os t b (
                  open_close-Kept os t w (os.fsync w1 fd).1 fm.path true fd e
                    (t.fsync_handles w1 fd, t.fsync_maps w1 fd)))
        ]

    pub file_map_fini-returns :
        (w : W) (fm : FileMap)
        → Balanced os t hs ms fm w
        → (t.handles (file_map_fini os w fm) ≡ hs) × (t.maps (file_map_fini os w fm) ≡ ms)
    unfolding file_map_fini
    file_map_fini-returns w fm b = elim (Bool-cases (fm_mapped fm)) [
      | inr closed ↦
          let (none_there, h, m) = Balanced-Unmapped os t hs ms fm w closed b in rw closed (h, m)
      | inl there ↦ let (gone, h, m) = do_unmap-Balanced os t hs ms fm w b in rw there (h, m)
    ]
