-- ===== src/ArbDisk/Image/Mapped.antt =====
-- arb_disk_sel_ms and arb_disk_query_ms of src/duallive/arbitrary_disk.c on the mapped file: disk->dli
-- points to the record at place `i`.
use duallive.Base.{
  ℕ, zero, suc, ◌+◌, ◌*◌, ◌^◌, ◌≤◌, ◌<◌, ◌≡◌, ◌⊎◌, refl, sym, ap, subst, ◌∙◌, arith, inl, inr, List,
  [], ◌∷◌, Bool, false, ◌==◌, Bool-cases, ==→eq, if◌then◌else◌, set, get_elem?-lt, Outcome, ok,
  ◌>>=◌,
}
use duallive.Base.Memory.{Bytes, le, un_le}
use duallive.Base.Patches.{window, window-window, Wrote, Wrote-word}
use duallive.Duallive.{Ver, Desc}
use duallive.ArbDisk.{DiskDli, version_at, find_ver_in_dli, selected, arb_disk_query_ms}
use duallive.ArbDisk.Image.Head.{disk_dli_of, disk_dli_at, dli_off, sizeof_disk_dli, set_word}
use duallive.ArbDisk.Image.Holds.{Key, Layout, IsBase, IsImage, Entry, Stands}
use duallive.ArbDisk.Image.Progress.{IsBase-Wrote}

-- The answer, and the file.
unfoldable pub mapped_sel_ms : Bool → Bytes → ℕ → Desc → Ver → Outcome (Ver × Bytes)
mapped_sel_ms synced img i d req = do
  dli ← disk_dli_at img i
  (found, ndx) ← find_ver_in_dli dli req
  if found then (do v ← version_at dli.version ndx; ok (v, img)) else (do
    let sel = selected d req
    img ← set_word (dli_off i + (16 + 8 * ndx)) 8 sel img
    ok (if synced then sel else req, img))

unfoldable pub mapped_query_ms : Bytes → ℕ → Ver → Outcome Ver
mapped_query_ms img i req = do dli ← disk_dli_at img i; arb_disk_query_ms dli req

-- The record at place `i` of an image.
abbrev pub dli_in : Bytes → ℕ → DiskDli
dli_in img i = disk_dli_of (window (dli_off i) sizeof_disk_dli img)

abbrev put : ℕ → ℕ → Ver → Ver → Ver
put m k v w = if m == k then v else w

set_six :
    (k : ℕ) (v a b c d e f : Ver)
    → k < 6
    → set (a ∷ b ∷ c ∷ d ∷ e ∷ f ∷ []) k v
      ≡ put 0 k v a ∷ put 1 k v b ∷ put 2 k v c ∷ put 3 k v d ∷ put 4 k v e ∷ put 5 k v f ∷ []
set_six zero v a b c d e f h = refl
set_six (suc zero) v a b c d e f h = refl
set_six (suc (suc zero)) v a b c d e f h = refl
set_six (suc (suc (suc zero))) v a b c d e f h = refl
set_six (suc (suc (suc (suc zero)))) v a b c d e f h = refl
set_six (suc (suc (suc (suc (suc zero))))) v a b c d e f h = refl
set_six (suc (suc (suc (suc (suc (suc k)))))) v a b c d e f h = absurd (omega arith)

-- A version of the record at place `i` that is written.
module _ {img img' : Bytes} {l : Layout} {text : Bytes} (i k : ℕ) (v : Ver) (h : IsBase img l text)
    (inside : i < l.max) (low : k < 6) (fits : v < 2 ^ 64)
    (w : Wrote (dli_off i + (16 + 8 * k)) 8 (le 8 v) img img') where
  pub stored-IsBase : IsBase img' l text
  stored-IsBase = IsBase-Wrote (dli_off i + (16 + 8 * k)) 8 w (inr (inr (omega arith))) h

  -- A part of a record that is not written.
  part :
      (j a n : ℕ)
      → j < l.max
      → a + n ≤ sizeof_disk_dli
      → (dli_off j + a + n ≤ dli_off i + (16 + 8 * k))
        ⊎ (dli_off i + (16 + 8 * k) + 8 ≤ dli_off j + a)
      → window a n (window (dli_off j) sizeof_disk_dli img')
        ≡ window a n (window (dli_off j) sizeof_disk_dli img)
  part j a n less room apart =
      window-window a n (dli_off j) sizeof_disk_dli img' room (omega (arith, h.whole, w.same_size))
      ∙ w.elsewhere (dli_off j + a) n apart
      ∙ sym (window-window a n (dli_off j) sizeof_disk_dli img room (omega (arith, h.whole)))

  key_part :
      (j a : ℕ)
      → j < l.max
      → a ≤ 12
      → window a 4 (window (dli_off j) sizeof_disk_dli img')
        ≡ window a 4 (window (dli_off j) sizeof_disk_dli img)
  key_part j a less low_a = elim (before_or_behind j) [
    | inl before ↦ part j a 4 less (omega arith) (inl (omega arith))
    | inr behind ↦ part j a 4 less (omega arith) (inr (omega arith))
  ]
    where
      before_or_behind : (j : ℕ) → (j ≤ i) ⊎ (i < j)
      before_or_behind j = grind arith

  version_part :
      (m : ℕ)
      → m < 6
      → un_le 8 (window (16 + 8 * m) 8 (window (dli_off i) sizeof_disk_dli img'))
        ≡ put m k v (un_le 8 (window (16 + 8 * m) 8 (window (dli_off i) sizeof_disk_dli img)))
  version_part m small = elim (Bool-cases (m == k)) [
    | inl same ↦
        let eq : m ≡ k = ==→eq m k same in
        rw same (
          ap (un_le 8) (
            window-window (16 + 8 * m) 8 (dli_off i) sizeof_disk_dli img' (omega arith)
              (omega (arith, h.whole, w.same_size)))
          ∙ ap (λ n. un_le 8 (window (dli_off i + (16 + 8 * n)) 8 img')) eq
          ∙ Wrote-word (dli_off i + (16 + 8 * k)) 8 v img img' (omega arith) w)
    | inr other ↦ rw other (ap (un_le 8) (aside other))
  ]
    where
      sides : (m : ℕ) → m == k ≡ false → (m < k) ⊎ (k < m)
      sides m other = grind arith

      aside :
          m == k ≡ false
          → window (16 + 8 * m) 8 (window (dli_off i) sizeof_disk_dli img')
            ≡ window (16 + 8 * m) 8 (window (dli_off i) sizeof_disk_dli img)
      aside other = elim (sides m other) [
        | inl before ↦ part i (16 + 8 * m) 8 inside (omega arith) (inl (omega arith))
        | inr behind ↦ part i (16 + 8 * m) 8 inside (omega arith) (inr (omega arith))
      ]

  pub stored-dli :
      dli_in img' i ≡ record (dli_in img i) { version = set (dli_in img i).version k v }
  unfolding disk_dli_of
  stored-dli =
      rw
        (
          key_part i 0 inside (omega arith),
          key_part i 4 inside (omega arith),
          key_part i 8 inside (omega arith),
          key_part i 12 inside (omega arith),
          version_part 0 (omega arith),
          version_part 1 (omega arith),
          version_part 2 (omega arith),
          version_part 3 (omega arith),
          version_part 4 (omega arith),
          version_part 5 (omega arith),
          set_six k v _ _ _ _ _ _ low,
        )
        refl

  stored-Entry :
      (j : ℕ) (q : Key)
      → j < l.max
      → Entry text (window (dli_off j) sizeof_disk_dli img) q
      → Entry text (window (dli_off j) sizeof_disk_dli img') q
  unfolding disk_dli_of
  stored-Entry j q less e = record {
    host0 = ap (un_le 4) (key_part j 0 less (omega arith)) ∙ e.host0;
    host1 = ap (un_le 4) (key_part j 4 less (omega arith)) ∙ e.host1;
    name0 =
        subst (λ o. Stands text (un_le 4 o) q.name0) (sym (key_part j 8 less (omega arith)))
          e.name0;
    name1 =
        subst (λ o. Stands text (un_le 4 o) q.name1) (sym (key_part j 12 less (omega arith)))
          e.name1;
  }

  pub stored-IsImage : {ps : List Key} → IsImage img l text ps → IsImage img' l text ps
  stored-IsImage {ps} m = record {
    base = stored-IsBase;
    is_num = ap (un_le 2) (w.elsewhere 4 2 (inl (omega arith))) ∙ m.is_num;
    few = m.few;
    entries =
        λ j q at. stored-Entry j q (omega (arith, m.few, get_elem?-lt ps j at)) (m.entries j q at);
  }
