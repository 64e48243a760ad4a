-- ===== src/ArbDisk/Runs.antt =====
-- Runs of arb_disk_sel_ms of src/duallive/arbitrary_disk.c on the record of one pair.
use duallive.Base.{
  ℕ, zero, suc, ◌+◌, ◌≤◌, ◌<◌, ◌≡◌, refl, sym, ap, ◌∙◌, arith, inl, inr, List, [], ◌∷◌, get_elem?,
  get_elem?-lt, set, Bool, ltb, lt→ltb, ltb→lt, Bool-cases, some, Outcome, ok, ◌>>=◌, if◌then◌else◌,
}
use duallive.Duallive.{Ver, Desc, version}
use duallive.ArbDisk.{DiskDli, selected, arb_disk_sel_ms, arb_disk_query_ms}
use duallive.ArbDisk.Find.{IsFirst, find_ver_in_dli-Finds, some-eq}
use duallive.ArbDisk.Select.{
  IsWhole, decided, find-absent, kept-IsFirst, decided-IsWhole, sel-first, query-first,
  version-selected, lt_tri,
}

-- A call: whether the file is synchronised, the description of the caller, and the request.
abbrev pub Call : Type 0
Call = Bool × Desc × Ver

-- The record after some calls.
pub select_all : DiskDli → List Call → Outcome DiskDli
select_all dli [] = ok dli
select_all dli ((synced, d, req) ∷ calls) = do
  (dli, answer) ← arb_disk_sel_ms synced dli d req
  select_all dli calls

abbrev is_older : Ver → Ver → ℕ
is_older other v = if ltb (version v) (version other) then 1 else 0

-- How many elements have a smaller version.
unfoldable pub older : Ver → List Ver → ℕ
older other [] = 0
older other (v ∷ vs) = is_older other v + older other vs

-- A call for a greater version.
abbrev is_newer : Ver → Ver → ℕ
is_newer other req = if ltb (version other) (version req) then 1 else 0

-- How many calls are for a greater version.
unfoldable pub newer : Ver → List Call → ℕ
newer other [] = 0
newer other ((synced, d, req) ∷ calls) = is_newer other req + newer other calls

older-set :
    (other x w : Ver) (vs : List Ver) (k : ℕ)
    → get_elem? vs k ≡ some w
    → older other (set vs k x) + is_older other w ≡ older other vs + is_older other x
unfolding older
older-set other x w [] k e = absurd (ground arith)
older-set other x w (v ∷ vs) zero e =
    let same = ap (is_older other) (some-eq (some v) refl e) in omega (arith, same)
older-set other x w (v ∷ vs) (suc k) e = omega (arith, older-set other x w vs k e)

older-some :
    (other : Ver) (vs : List Ver)
    → 0 < older other vs
    → (j : ℕ) × (w : Ver) × (get_elem? vs j ≡ some w) × (version w < version other)
unfolding older
older-some other [] h = absurd (omega arith)
older-some other (v ∷ vs) h = elim (Bool-cases (ltb (version v) (version other))) [
  | inl less ↦ (0, v, refl, ltb→lt _ _ less)
  | inr more ↦ let (j, w, e, lt) = older-some other vs (ground arith) in (suc j, w, e, lt)
]

module _ (other : Ver) (m : ℕ) (v : Ver) where
  -- One call: the decision stays, and at most one smaller version goes, for a greater one.
  record Step (dli : DiskDli) (synced : Bool) (d : Desc) (req : Ver) : Type 0 where
    dli' : DiskDli
    answer : Ver
    returns : arb_disk_sel_ms synced dli d req ≡ ok (dli', answer)
    whole : IsWhole dli'
    stays : IsFirst dli'.version other m v
    counts : older other dli.version ≤ older other dli'.version + is_newer other req

  sel_ms-Step :
      (dli : DiskDli) (synced : Bool) (d : Desc) (req : Ver)
      → IsWhole dli
      → IsFirst dli.version other m v
      → 0 < older other dli.version
      → Step dli synced d req
  sel_ms-Step dli synced d req whole f some_older = elim (find_ver_in_dli-Finds dli req whole) [
    | inl (k, u, returns, g) ↦ record {
      dli' = dli;
      answer = u;
      returns = sel-first dli req k u whole g synced d;
      whole = whole;
      stays = f;
      counts = omega arith;
    }
    | inr (k, returns, l) ↦
        let (j, w, at, smaller) = older-some other dli.version some_older in
        let lt : version l.v < version other =
          omega (arith, smaller, l.least j w (get_elem?-lt dli.version j at) at) in
        let old = lt→ltb (version l.v) (version other) lt in
        let change = older-set other (selected d req) l.v dli.version k l.at in
        let apart = l.absent m v (get_elem?-lt dli.version m f.at) f.at in
        record {
          dli' = decided dli d req k whole l;
          answer = if synced then selected d req else req;
          returns = find-absent dli d req k whole l returns synced;
          whole = decided-IsWhole dli d req k whole l;
          stays = kept-IsFirst dli d req k whole l other m v f lt;
          counts =
              let b1 : is_older other l.v ≡ 1 = rw old in
              elim (lt_tri (version req) (version other)) [
                | inl less ↦
                    let b2 : is_older other (selected d req) ≡ 1 =
                      rw (version-selected d req, lt→ltb _ _ less) in
                    omega (arith, change, b1, b2)
                | inr (inl greater) ↦
                    let b3 : is_newer other req ≡ 1 = rw (lt→ltb _ _ greater) in
                    omega (arith, change, b1, b3)
                | inr (inr equal) ↦ absurd (apart (f.same ∙ sym equal))
              ];
        }
  ]

  -- On a record of six versions, a decision outlives a run of calls of arb_disk_sel_ms, from any hosts
  -- and with any results of file_map_sync, in which fewer calls are for greater versions than there
  -- are elements with smaller ones: the run returns, and arb_disk_query_ms then answers the decision.
  pub decision_survives :
      (dli : DiskDli) (calls : List Call)
      → IsWhole dli
      → IsFirst dli.version other m v
      → newer other calls < older other dli.version
      → (dli' : DiskDli) × (select_all dli calls ≡ ok dli')
        × IsWhole dli'
        × (arb_disk_query_ms dli' other ≡ ok v)
  unfolding select_all newer
  decision_survives dli [] whole f room = (dli, refl, whole, query-first dli other m v whole f)
  decision_survives dli ((synced, d, req) ∷ calls) whole f room =
      let step = sel_ms-Step dli synced d req whole f (omega arith) in
      let (dli', returns, whole', answers) =
        decision_survives step.dli' calls step.whole step.stays (omega (arith, step.counts)) in
      (dli', rw step.returns returns, whole', answers)
