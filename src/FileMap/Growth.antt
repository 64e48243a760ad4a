-- ===== src/FileMap/Growth.antt =====
-- file_map_set_size of src/xutils/file_map.c: the length of the file.
use duallive.Base.{
  ℕ, zero, suc, ◌+◌, ◌-◌, ◌*◌, ◌/◌, ◌≤◌, ◌≡◌, refl, sym, ap, ◌∙◌, arith, inl, inr, Bool, true,
  false, ltb, leb, ◌==◌, if◌then◌else◌, Bool-cases, Option, none, some, Option-cases, Returns,
  ==→eq, eq→==, ltb→lt, ltb→le,
}
use mathlib.Core.Bool.{false≢true}
use duallive.Base.Memory.{Bytes}
use duallive.Kmem.{Allocator}
use duallive.FileSystem.{System, regular}
use duallive.FileMap.{max_size, stat_real, fi_of_mode, get_fi, expand_loop, expand, set_size}

abbrev pub length_or_0 : Option ℕ → ℕ
length_or_0 none = 0
length_or_0 (some n) = n

-- What the calls do to the lengths of regular files. `length w p` is that of the file at `p`, and none
-- if there is no file; `target` is where a stream writes, and `closes_at` the length that its file gets
-- when the stream is closed, with what it still buffers.
pub record Sizes {W : Type 0} (os : System W) : Type 0 where
  pub length : W → Bytes → Option ℕ
  pub target : W → ℕ → Bytes
  pub closes_at : W → ℕ → ℕ
  pub stat_length :
      (w : W) (p : Bytes) (n : ℕ)
      → length w p ≡ some n
      → os.stat w p ≡ some (record { mode = regular; size = n })
  pub stat_none : (w : W) (p : Bytes) → length w p ≡ none → os.stat w p ≡ none
  pub access_some : (w : W) (p : Bytes) (n : ℕ) → length w p ≡ some n → os.access w p ≡ true
  pub access_none : (w : W) (p : Bytes) → length w p ≡ none → os.access w p ≡ false
  pub fopen_target :
      (w : W) (p : Bytes) (fp : ℕ) → (os.fopen w p).0 ≡ some fp → target (os.fopen w p).1 fp ≡ p
  pub fopen_closes_at :
      (w : W) (p : Bytes) (fp : ℕ)
      → (os.fopen w p).0 ≡ some fp
      → closes_at (os.fopen w p).1 fp ≡ length_or_0 (length w p)
  pub fwrite_target : (w : W) (fp n : ℕ) → target (os.fwrite w fp n).1 fp ≡ target w fp
  pub fwrite_closes_at :
      (w : W) (fp n : ℕ)
      → (os.fwrite w fp n).0 ≡ true
      → closes_at (os.fwrite w fp n).1 fp ≡ closes_at w fp + n
  pub fclose_length :
      (w : W) (fp : ℕ)
      → (os.fclose w fp).0 ≡ true
      → length (os.fclose w fp).1 (target w fp) ≡ some (closes_at w fp)
  pub truncate_length :
      (w : W) (p : Bytes) (n : ℕ)
      → (os.truncate w p n).0 ≡ true
      → length (os.truncate w p n).1 p ≡ some n
  pub open_length : (w : W) (p q : Bytes) (b : Bool) → length (os.open_file w q b).1 p ≡ length w p
  pub close_length : (w : W) (p : Bytes) (fd : ℕ) → length (os.close w fd) p ≡ length w p
  pub mmap_length :
      (w : W) (p : Bytes) (n : ℕ) (a b : Bool) (fd : ℕ)
      → length (os.mmap w n a b fd).1 p ≡ length w p
  pub munmap_length :
      (w : W) (p : Bytes) (start n : ℕ) → length (os.munmap w start n) p ≡ length w p

-- No fclose fails.
abbrev pub Flushes : {W : Type 0} → System W → Type 0
Flushes {W} os = (w : W) (fp : ℕ) → (os.fclose w fp).0 ≡ true

module _ {W : Type 0} (os : System W) (z : Sizes os) (flushes : Flushes os) (p : Bytes) where
  -- The stream of the file, after `size` bytes more if all are written.
  abbrev Grown : ℕ → ℕ → Bool × W → Type 0
  Grown fp k r = (z.target r.1 fp ≡ p) × (r.0 ≡ true → z.closes_at r.1 fp ≡ k)

  expand_loop-Grown :
      (fuel : ℕ) (w : W) (fp size k : ℕ)
      → size ≤ fuel * max_size
      → z.target w fp ≡ p
      → z.closes_at w fp ≡ k
      → Returns (Grown fp (k + size)) (expand_loop os fuel w fp size)
  unfolding expand_loop
  expand_loop-Grown zero w fp size k h is_p is_k =
      let empty : size ≡ 0 = omega arith in
      rw (eq→== size 0 empty) ((true, w), refl, (is_p, λ _. is_k ∙ omega arith))
  expand_loop-Grown (suc fuel) w fp size k h is_p is_k = elim (Bool-cases (size == 0)) [
    | inl done ↦
        let empty = ==→eq size 0 done in
        rw (expand_loop, done) ((true, w), refl, (is_p, λ _. is_k ∙ omega arith))
    | inr more ↦
        let wr_size = if leb size max_size then size else max_size in
        let w1 = (os.fwrite w fp wr_size).1 in
        let is_p1 = z.fwrite_target w fp wr_size ∙ is_p in
        elim (Bool-cases (os.fwrite w fp wr_size).0) [
          | inl written ↦
              let (r, e, (still, ends)) =
                expand_loop-Grown fuel w1 fp (size - wr_size) (k + wr_size) (ground arith) is_p1
                  (z.fwrite_closes_at w fp wr_size written ∙ ap (λ n. n + wr_size) is_k) in
              rw (more, written) (r, e, (still, λ all. ends all ∙ ground arith))
          | inr failed ↦
              rw (more, failed) ((false, w1), refl, (is_p1, λ all. absurd (false≢true all)))
        ]
  ]

  -- A file that does not exist is made.
  expand-length :
      (w : W) (size : ℕ)
      → Returns
          (λ r. r.0 ≡ true → z.length r.1 p ≡ some (length_or_0 (z.length w p) + size))
          (expand os w p size)
  unfolding expand
  expand-length w size =
      let w1 = (os.fopen w p).1 in
      elim (Option-cases (os.fopen w p).0) [
        | inl e ↦ rw (expand, e) ((false, w1), refl, λ all. absurd (false≢true all))
        | inr (fp, e) ↦
            let (r, returns, (still, ends)) =
              expand_loop-Grown (size / max_size + 1) w1 fp size _ (omega arith)
                (z.fopen_target w p fp e) (z.fopen_closes_at w p fp e) in
            rw (expand, e, returns)
              (
                (r.0, (os.fclose r.1 fp).1),
                refl,
                λ all.
                    ap (z.length (os.fclose r.1 fp).1) (sym still)
                    ∙ z.fclose_length r.1 fp (flushes r.1 fp)
                    ∙ ap some (ends all),
              )
      ]

  -- get_fi on a regular file.
  pub get_fi-some :
      ⦃heap : Allocator⦄
      → (w : W) (n : ℕ) → z.length w p ≡ some n
      → ((get_fi os w p).0 ≡ some (record { mode = regular; size = n })) × ((get_fi os w p).1 ≡ w)
  unfolding get_fi stat_real fi_of_mode
  get_fi-some w n e = rw (get_fi, stat_real, z.stat_length w p n e) (refl, refl)

  pub get_fi-none :
      ⦃heap : Allocator⦄
      → (w : W) → z.length w p ≡ none
      → ((get_fi os w p).0 ≡ none) × ((get_fi os w p).1 ≡ w)
  unfolding get_fi stat_real
  get_fi-none w e = rw (get_fi, stat_real, z.stat_none w p e) (refl, refl)

  -- A size that is set, with or without a change.
  abbrev pub Sized : W → ℕ → Bool × Bool × W → Type 0
  Sized w size r =
      r.0 ≡ true → (z.length r.2 p ≡ some size) × (r.1 ≡ false → z.length w p ≡ some size)

  pub set_size-Sized :
      ⦃heap : Allocator⦄ → (w : W) (size : ℕ) → Returns (Sized w size) (set_size os w p size)
  unfolding set_size
  set_size-Sized w size = elim (Option-cases (z.length w p)) [
    | inl absent ↦
        let (r, returns, ends) = expand-length w size in
        rw (z.access_none w p absent, returns)
          (
            (r.0, r.0, r.1),
            refl,
            λ all. (
              ends all ∙ ap some (ap (λ o. length_or_0 o + size) absent ∙ omega arith),
              λ same. absurd (false≢true (sym same ∙ all)),
            ),
          )
    | inr (n, present) ↦
        let (is_n, still) = get_fi-some w n present in
        elim (Bool-cases (ltb n size)) [
          | inl less ↦
              let lt = ltb→lt n size less in
              let (r, returns, ends) = expand-length w (size - n) in
              rw (z.access_some w p n present, is_n, less, still, returns)
                (
                  (r.0, r.0, r.1),
                  refl,
                  λ all. (
                    ends all ∙ ap some (ap (λ o. length_or_0 o + (size - n)) present ∙ omega arith),
                    λ same. absurd (false≢true (sym same ∙ all)),
                  ),
                )
          | inr more ↦ elim (Bool-cases (ltb size n)) [
            | inl greater ↦
                let cut = os.truncate w p size in
                rw (z.access_some w p n present, is_n, more, greater, still)
                  (
                    (cut.0, cut.0, cut.1),
                    refl,
                    λ all. (
                      z.truncate_length w p size all,
                      λ same. absurd (false≢true (sym same ∙ all)),
                    ),
                  )
            | inr equal ↦
                let le = ltb→le n size more in
                let ge = ltb→le size n equal in
                let is_size = present ∙ ap some (omega arith) in
                rw (z.access_some w p n present, is_n, more, equal, still)
                  ((true, false, w), refl, λ _. (is_size, λ _. is_size))
          ]
        ]
  ]
