-- ===== src/ArbDisk/Image/Find.antt =====
-- arb_disk_find_dli of src/duallive/arbitrary_disk.c.
use duallive.Base.{
  ℕ, zero, suc, ◌+◌, ◌≤◌, ◌<◌, ◌≡◌, refl, ap, subst, ◌∙◌, arith, inl, inr, List, [], ◌∷◌, ◌++◌,
  eq→==, true, if◌then◌else◌, Bool-cases, length, drop, length-drop, get_elem?, Option, none, some,
  Option-cases, ok, le→ltb,
}
use duallive.Base.Memory.{Bytes, c_str, same_bytes}
use duallive.Duallive.{Desc}
use duallive.ArbDisk.{desc_standard}
use duallive.ArbDisk.Image.Head.{disk_dli_of}
use duallive.ArbDisk.Image.{at, same_string, dli_equ_desc, find_dli_loop, arb_disk_find_dli}
use duallive.ArbDisk.Image.Holds.{
  Key, same_key, Entry, Stands, Layout, stroff, IsImage, length-text, reads_num, reads_stroff,
  reads_dli, Stands-c_str,
}

-- The pair that a description is about.
pub record IsKey (d : Desc) (k : Key) : Type 0 where
  pub host0 : d.local_hostid ≡ k.host0
  pub host1 : d.remote_hostid ≡ k.host1
  pub name0 : c_str d.local_dataset ≡ some k.name0
  pub name1 : c_str d.remote_dataset ≡ some k.name1

-- The place of a pair in the list, counted from `i`.
unfoldable pub index_from : Key → List Key → ℕ → Option ℕ
index_from k [] i = none
index_from k (p ∷ ps) i =
    let rest = index_from k ps (i + 1) in if same_key p k then some i else rest

unfoldable pub index_of : Key → List Key → Option ℕ
unfolding index_from
index_of k ps = index_from k ps 0

c_str-cons :
    (x : ℕ) (a : Bytes) {s : Bytes}
    → c_str (suc x ∷ a) ≡ some s
    → (s' : Bytes) × (c_str a ≡ some s') × (s ≡ suc x ∷ s')
unfolding c_str
c_str-cons x a {s} e = elim (Option-cases (c_str a)) [
  | inl n ↦ absurd (ground arith)
  | inr (s', f) ↦ (s', f, ground arith)
]

c_str-nil : (a : Bytes) {s : Bytes} → c_str (zero ∷ a) ≡ some s → s ≡ []
unfolding c_str
c_str-nil a e = ground arith

no_string : {s : Bytes} → c_str [] ≡ some s → ⊥
unfolding c_str
no_string e = ground arith

pub same_string-same_bytes :
    (a b : Bytes) {s t : Bytes}
    → c_str a ≡ some s
    → c_str b ≡ some t
    → same_string a b ≡ ok (same_bytes s t)
unfolding same_string same_bytes
same_string-same_bytes [] b e f = absurd (no_string e)
same_string-same_bytes (x ∷ a) [] e f = absurd (no_string f)
same_string-same_bytes (zero ∷ a) (zero ∷ b) e f = rw (c_str-nil a e, c_str-nil b f)
same_string-same_bytes (zero ∷ a) (suc y ∷ b) e f =
    let (t', g, is_t) = c_str-cons y b f in rw (c_str-nil a e, is_t) (ground arith)
same_string-same_bytes (suc x ∷ a) (zero ∷ b) e f =
    let (s', g, is_s) = c_str-cons x a e in rw (c_str-nil b f, is_s) (ground arith)
same_string-same_bytes (suc x ∷ a) (suc y ∷ b) e f =
    let (s', g, is_s) = c_str-cons x a e in
    let (t', h, is_t) = c_str-cons y b f in
    rw (is_s, is_t) (ground (arith, same_string-same_bytes a b g h))

not_beyond : (str : Bytes) (off : ℕ) → off ≤ length str → at str off ≡ ok (drop off str)
not_beyond str off h = rw (le→ltb (length str) off h)

module _ {img : Bytes} {l : Layout} {text : Bytes} {ps : List Key} (h : IsImage img l text ps)
    (d : Desc) (k : Key) (is : IsKey d k) where
  abbrev strings : Bytes
  strings = drop (stroff l) img

  inside_strings : (off : ℕ) (s : Bytes) → Stands text off s → off ≤ length strings
  inside_strings off s st =
      omega (arith, st.inside, length-text h.base, h.base.whole, length-drop (stroff l) img)

  dli_equ_desc-same_key :
      (b : Bytes) (p : Key)
      → Entry text b p
      → dli_equ_desc (disk_dli_of b) d strings ≡ ok (same_key p k)
  unfolding dli_equ_desc
  dli_equ_desc-same_key b p e =
      rw
        (
          e.host0,
          e.host1,
          is.host0,
          is.host1,
          not_beyond strings _ (inside_strings _ p.name0 e.name0),
          not_beyond strings _ (inside_strings _ p.name1 e.name1),
          same_string-same_bytes _ d.local_dataset (Stands-c_str h.base _ p.name0 e.name0) is.name0,
          same_string-same_bytes _ d.remote_dataset (Stands-c_str h.base _ p.name1 e.name1)
              is.name1,
        )
        (ground arith)

  -- The rest of the list, from index `i` on.
  find_dli_loop-index_from :
      (qs : List Key) (i : ℕ)
      → i + length qs ≤ l.max
      → ((j : ℕ) (q : Key) → get_elem? qs j ≡ some q → get_elem? ps (i + j) ≡ some q)
      → find_dli_loop img strings d (length qs) i ≡ ok (index_from k qs i)
  unfolding find_dli_loop index_from
  find_dli_loop-index_from [] i room all = refl
  find_dli_loop-index_from (q ∷ qs) i room all =
      let here : get_elem? ps i ≡ some q =
        subst (λ n. get_elem? ps n ≡ some q) (omega arith) (all 0 q refl) in
      let later =
        find_dli_loop-index_from qs (i + 1) (omega arith)
          (λ j r e. subst (λ n. get_elem? ps n ≡ some r) (omega arith) (all (suc j) r e)) in
      let entry = h.entries i q here in
      elim (Bool-cases (same_key q k)) [
        | inl same ↦ rw (reads_dli h.base i (omega arith), dli_equ_desc-same_key _ q entry, same)
        | inr other ↦
            rw (reads_dli h.base i (omega arith), dli_equ_desc-same_key _ q entry, other) later
      ]

-- arb_disk_find_dli returns without a fault the place of the pair in the list, or NULL if the list
-- does not have it.
pub arb_disk_find_dli-index_of :
    {img : Bytes} {l : Layout} {text : Bytes} {ps : List Key} (d tmp : Desc) (k : Key)
    → IsImage img l text ps
    → IsKey (desc_standard d tmp) k
    → arb_disk_find_dli img d tmp ≡ ok (index_of k ps)
unfolding arb_disk_find_dli index_of
arb_disk_find_dli-index_of {img} {l} {ps} d tmp k h is =
    rw (reads_stroff h.base, not_beyond img (stroff l) (omega (arith, h.base.whole)), reads_num h)
      (find_dli_loop-index_from h (desc_standard d tmp) k is ps 0 (omega (arith, h.few))
        (λ j q e. subst (λ n. get_elem? ps n ≡ some q) (omega arith) e))

index_from-lt :
    (k : Key) (ps : List Key) (i : ℕ) {j : ℕ} → index_from k ps i ≡ some j → j < i + length ps
unfolding index_from
index_from-lt k [] i e = absurd (ground arith)
index_from-lt k (p ∷ ps) i {j} e = elim (Bool-cases (same_key p k)) [
  | inl same ↦
      let here : ◌≡◌ {A = Option ℕ} (some i) (some j) = rw same at e in
      let eq : i ≡ j = cc in omega (arith, eq)
  | inr other ↦
      let rest : index_from k ps (i + 1) ≡ some j = rw other at e in
      omega (arith, index_from-lt k ps (i + 1) rest)
]

pub index_of-lt : (k : Key) (ps : List Key) {j : ℕ} → index_of k ps ≡ some j → j < length ps
unfolding index_of
index_of-lt k ps e = omega (arith, index_from-lt k ps 0 e)

same_bytes_self : (bs : Bytes) → same_bytes bs bs ≡ true
unfolding same_bytes
same_bytes_self [] = refl
same_bytes_self (b ∷ bs) = ground (arith, same_bytes_self bs)

same_key_self : (k : Key) → same_key k k ≡ true
same_key_self k = rw (
  eq→== k.host0 k.host0 refl,
  eq→== k.host1 k.host1 refl,
  same_bytes_self k.name0,
  same_bytes_self k.name1,
)

index_from-snoc :
    (k : Key) (ps : List Key) (i : ℕ)
    → index_from k ps i ≡ none
    → index_from k (ps ++ (k ∷ [])) i ≡ some (i + length ps)
unfolding index_from
index_from-snoc k [] i e = rw (same_key_self k) (ap some (omega arith))
index_from-snoc k (p ∷ ps) i e = elim (Bool-cases (same_key p k)) [
  | inl same ↦ let here : ◌≡◌ {A = Option ℕ} (some i) none = rw same at e in cc
  | inr other ↦
      let rest : index_from k ps (i + 1) ≡ none = rw other at e in
      rw other (index_from-snoc k ps (i + 1) rest ∙ ap some (omega arith))
]

-- A new pair at the end is found there.
pub index_of-snoc :
    (k : Key) (ps : List Key)
    → index_of k ps ≡ none
    → index_of k (ps ++ (k ∷ [])) ≡ some (length ps)
unfolding index_of
index_of-snoc k ps e = index_from-snoc k ps 0 e ∙ ap some (omega arith)
