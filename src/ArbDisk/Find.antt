-- ===== src/ArbDisk/Find.antt =====
-- find_ver_in_dli of src/duallive/arbitrary_disk.c.
use duallive.Base.{
  ℕ, zero, suc, ◌+◌, ◌≤◌, ◌<◌, ◌≡◌, ◌≢◌, ◌⊎◌, refl, ap, subst, ◌∙◌, sym, arith, inl, inr, List,
  length, get_elem?, get_elem?-total, Bool, true, false, Bool-cases, Option, some, Outcome, ok, ltb,
  ltb→lt, ltb→le, ==→eq, eq→==, ◌==◌, if◌then◌else◌,
}
use mathlib.Core.Bool.{false≢true}
use duallive.Duallive.{Ver, version}
use duallive.ArbDisk.{DiskDli, version_at, versions_num, find_ver_loop, find_ver_in_dli}

-- Element `k` is `v` and holds the version that is asked for, and no element before it does.
pub record IsFirst (vs : List Ver) (ver : Ver) (k : ℕ) (v : Ver) : Type 0 where
  pub at : get_elem? vs k ≡ some v
  pub same : version v ≡ version ver
  pub first : (j : ℕ) (w : Ver) → j < k → get_elem? vs j ≡ some w → version w ≢ version ver

-- No element below `n` holds the version, and none of them is less than element `k`.
pub record IsLeast (vs : List Ver) (ver : Ver) (n k : ℕ) : Type 0 where
  pub v : Ver
  pub at : get_elem? vs k ≡ some v
  pub least : (j : ℕ) (w : Ver) → j < n → get_elem? vs j ≡ some w → version v ≤ version w
  pub absent : (j : ℕ) (w : Ver) → j < n → get_elem? vs j ≡ some w → version w ≢ version ver

abbrev pub Finds : List Ver → Ver → Outcome (Bool × ℕ) → Type 0
Finds vs ver r =
    ((k : ℕ) × (v : Ver) × (r ≡ ok (true, k)) × IsFirst vs ver k v)
    ⊎ ((k : ℕ) × (r ≡ ok (false, k)) × IsLeast vs ver (length vs) k)

lt_cases : (j i : ℕ) → j < i + 1 → (j ≡ i) ⊎ (j < i)
lt_cases j i h = grind arith

pub some-eq : {a b : Ver} (o : Option Ver) → o ≡ some a → o ≡ some b → a ≡ b
some-eq o p q = cc

pub version_at-ok :
    (vs : List Ver) (i : ℕ) (v : Ver) → get_elem? vs i ≡ some v → version_at vs i ≡ ok v
version_at-ok vs i v h = rw (h, version_at)

module _ (vs : List Ver) (ver : Ver) where
  -- One element more: it is the least if it is less than the least so far.
  absent_next :
      (i k : ℕ) (v : Ver)
      → IsLeast vs ver i k
      → get_elem? vs i ≡ some v
      → version v ≢ version ver
      → (j : ℕ) (w : Ver) → j < i + 1
      → get_elem? vs j ≡ some w
      → version w ≢ version ver
  absent_next i k v l at other j w h e = elim (lt_cases j i h) [
    | inl same ↦ λ s.
        other (
          ap version (some-eq (get_elem? vs i) at (subst (λ n. get_elem? vs n ≡ some w) same e))
          ∙ s)
    | inr below ↦ l.absent j w below e
  ]

  least_next :
      (i k : ℕ) (v u : Ver)
      → (l : IsLeast vs ver i k) → get_elem? vs i ≡ some v
      → version u ≤ version v
      → version u ≤ version l.v
      → (j : ℕ) (w : Ver) → j < i + 1
      → get_elem? vs j ≡ some w
      → version u ≤ version w
  least_next i k v u l at le_new le_old j w h e = elim (lt_cases j i h) [
    | inl same ↦
        let eq =
          ap version (some-eq (get_elem? vs i) at (subst (λ n. get_elem? vs n ≡ some w) same e)) in
        omega (arith, eq)
    | inr below ↦ omega (arith, l.least j w below e, le_old)
  ]

  IsLeast-next :
      (i k : ℕ) (v : Ver)
      → (l : IsLeast vs ver i k) → get_elem? vs i ≡ some v
      → version v ≢ version ver
      → IsLeast vs ver (i + 1) (if ltb (version v) (version l.v) then i else k)
  IsLeast-next i k v l at other = elim (Bool-cases (ltb (version v) (version l.v))) [
    | inl less ↦
        let lt = ltb→lt (version v) (version l.v) less in
        rw less (record {
          v = v;
          at = at;
          least = least_next i k v v l at (omega arith) (omega arith);
          absent = absent_next i k v l at other;
        })
    | inr more ↦
        let le = ltb→le (version v) (version l.v) more in
        rw more (record {
          v = l.v;
          at = l.at;
          least = least_next i k v l.v l at le (omega arith);
          absent = absent_next i k v l at other;
        })
  ]

  find_ver_loop-Finds :
      (left i k : ℕ)
      → i + left ≡ length vs
      → IsLeast vs ver i k
      → Finds vs ver (find_ver_loop vs ver left i k)
  unfolding find_ver_loop
  find_ver_loop-Finds zero i k e l =
      let whole : i ≡ length vs = omega arith in
      inr (k, refl, subst (λ n. IsLeast vs ver n k) whole l)
  find_ver_loop-Finds (suc left) i k e l =
      let (v, at) = get_elem?-total vs i (omega arith) in
      elim (Bool-cases (version v == version ver)) [
        | inl hit ↦
            rw (version_at-ok vs i v at, hit)
              (inl (
                i,
                v,
                refl,
                record { at = at; same = ==→eq (version v) (version ver) hit; first = l.absent },
              ))
        | inr miss ↦
            rw (version_at-ok vs i v at, miss, version_at-ok vs k l.v l.at)
              (find_ver_loop-Finds left (i + 1) (if ltb (version v) (version l.v) then i else k)
                (omega arith)
                (IsLeast-next i k v l at
                  λ s. false≢true (sym miss ∙ eq→== (version v) (version ver) s)))
      ]

-- find_ver_in_dli reads nothing out of bounds. It returns the first element with the version, or, if
-- there is none, an element whose version is least.
pub find_ver_in_dli-Finds :
    (dli : DiskDli) (ver : Ver)
    → length dli.version ≡ versions_num
    → Finds dli.version ver (find_ver_in_dli dli ver)
unfolding find_ver_in_dli
find_ver_in_dli-Finds dli ver size =
    let (v, at) = get_elem?-total dli.version 0 (omega arith) in
    find_ver_loop-Finds dli.version ver versions_num 0 0 (omega arith) (record {
      v = v;
      at = at;
      least = λ j w h e. absurd (omega arith);
      absent = λ j w h e. absurd (omega arith);
    })
