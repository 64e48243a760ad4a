-- ===== src/ArbDisk/Decide.antt =====
-- arb_disk_sel_ms of src/duallive/arbitrary_disk.c: a version that was not decided before, and what
-- it does to the other versions.
use duallive.Base.{
  ℕ, ◌<◌, ◌≡◌, ◌≢◌, ◌^◌, arith, inl, inr, length, get_elem?, get_elem?-lt, Bool, some, ok,
  if◌then◌else◌, set,
}
use duallive.Duallive.{Ver, Desc, version, master, state, dl_type}
use duallive.ArbDisk.{DiskDli, selected, arb_disk_sel_ms, arb_disk_query_ms}
use duallive.ArbDisk.Find.{IsFirst, IsLeast, find_ver_in_dli-Finds}
use duallive.ArbDisk.Select.{
  IsWhole, decided, find-absent, kept-IsFirst, decided-IsWhole, sel-first, query-first,
  set_state_bits, side, side-lt, version-selected,
}

-- The record and the answer when the version of the request is new. The decision stands in the place
-- of a least version and is the request with the side of the host that asks; the answer is the
-- decision or, when the file is not synchronised, the request.
pub record Decides (synced : Bool) (dli : DiskDli) (d : Desc) (req : Ver) : Type 0 where
  pub k : ℕ
  pub decision : Ver
  pub replaces : IsLeast dli.version req (length dli.version) k
  pub returns :
      arb_disk_sel_ms synced dli d req
      ≡ ok (record dli { version = set dli.version k decision }, if synced then decision else req)
  pub same_version : version decision ≡ version req
  pub same_master : master decision ≡ master req
  pub same_type : dl_type decision ≡ dl_type req
  pub by_side : state decision ≡ side d

-- arb_disk_sel_ms, asked for a version number that no element of a record of six versions has,
-- returns without a fault. It replaces an element whose version is least by its decision: the
-- version, master and type of the request, with the state of the little side if the local host has
-- the smaller id, else of the big side. It answers the decision if the file is synchronised, else
-- the request.
pub sel_ms-Decides :
    (synced : Bool) (dli : DiskDli) (d : Desc) (req : Ver)
    → IsWhole dli
    → req < 2 ^ 64
    → ((j : ℕ) (w : Ver) → get_elem? dli.version j ≡ some w → version w ≢ version req)
    → Decides synced dli d req
unfolding selected
sel_ms-Decides synced dli d req whole word new = elim (find_ver_in_dli-Finds dli req whole) [
  | inl (k, v, returns, f) ↦ absurd (new k v f.at f.same)
  | inr (k, returns, l) ↦
      let (same_master, same_type, by_side) = set_state_bits req (side d) word (side-lt d) in
      record {
        k = k;
        decision = selected d req;
        replaces = l;
        returns = find-absent dli d req k whole l returns synced;
        same_version = version-selected d req;
        same_master = same_master;
        same_type = same_type;
        by_side = by_side;
      }
]

-- On a record of six versions, one more call of arb_disk_sel_ms, for any version, leaves a decision
-- alone if some element of the record has a smaller version number: the call returns, the decision
-- still stands first for its version, and arb_disk_query_ms answers it.
pub sel_ms_keeps :
    (synced : Bool) (dli : DiskDli) (d : Desc) (req other : Ver) (m : ℕ) (v : Ver) (j : ℕ) (w : Ver)
    → IsWhole dli
    → IsFirst dli.version other m v
    → get_elem? dli.version j ≡ some w
    → version w < version other
    → (dli' : DiskDli) × (answer : Ver) × (arb_disk_sel_ms synced dli d req ≡ ok (dli', answer))
      × IsWhole dli'
      × IsFirst dli'.version other m v
      × (arb_disk_query_ms dli' other ≡ ok v)
sel_ms_keeps synced dli d req other m v j w whole f at smaller =
    elim (find_ver_in_dli-Finds dli req whole) [
      | inl (k, u, returns, g) ↦ (
        dli,
        u,
        sel-first dli req k u whole g synced d,
        whole,
        f,
        query-first dli other m v whole f,
      )
      | inr (k, returns, l) ↦
          let whole' = decided-IsWhole dli d req k whole l in
          let f' =
            kept-IsFirst dli d req k whole l other m v f
              (omega (arith, smaller, l.least j w (get_elem?-lt dli.version j at) at)) in
          (
            decided dli d req k whole l,
            (if synced then selected d req else req),
            find-absent dli d req k whole l returns synced,
            whole',
            f',
            query-first (decided dli d req k whole l) other m v whole' f',
          )
    ]
