-- ===== src/ArbDisk.antt =====
-- The arbiter's record of one pair of datasets: src/duallive/arbitrary_disk.c, over the types of
-- src/duallive/arbitrary_disk_impl.h.
pub mod Decide
pub mod Find
pub mod Image
pub mod Runs
pub mod Select
pub mod Standard
pub mod Uuids
use duallive.Base.{
  ℕ, zero, suc, ◌+◌, List, Bool, true, false, ltb, ◌==◌, if◌then◌else◌, Option, none, some,
  get_elem?, set, Outcome, ok, fault, out_of_bounds, ◌>>=◌,
}
use duallive.Duallive.{Uuid, Ver, Desc, version, set_state, state_ms_little, state_ms_big}

-- arb_disk_dli_t: the ids of the two hosts, the offsets of the names of the two datasets, and the
-- versions that were decided.
pub record DiskDli : Type 0 where
  pub hostid0 : ℕ
  pub hostid1 : ℕ
  pub dataset0 : ℕ
  pub dataset1 : ℕ
  pub version : List Ver

-- ARRAY_SIZE(dli->version)
abbrev pub versions_num : ℕ
versions_num = 6

-- dli->version[i]
abbrev pub version_at : List Ver → ℕ → Outcome Ver
version_at vs i = elim (get_elem? vs i) [ none ↦ fault out_of_bounds | some v ↦ ok v ]

-- The loop of find_ver_in_dli: the rounds left, the index, and *ndx.
find_ver_loop : List Ver → Ver → ℕ → ℕ → ℕ → Outcome (Bool × ℕ)
find_ver_loop vs ver zero i ndx = ok (false, ndx)
find_ver_loop vs ver (suc left) i ndx = do
  v ← version_at vs i
  if version v == version ver then ok (true, i) else do
    least ← version_at vs ndx
    find_ver_loop vs ver left (i + 1) (if ltb (version v) (version least) then i else ndx)

-- What it returns, and *ndx.
pub find_ver_in_dli : DiskDli → Ver → Outcome (Bool × ℕ)
unfolding find_ver_loop
find_ver_in_dli dli ver = find_ver_loop dli.version ver versions_num 0 0

-- The answer of a host that asks first: the version with the side of that host.
pub selected : Desc → Ver → Ver
selected d req =
    set_state req (if ltb d.local_hostid d.remote_hostid then state_ms_little else state_ms_big)

-- The record after the call, and *rsp. `synced` is whether file_map_sync returns 0.
pub arb_disk_sel_ms : Bool → DiskDli → Desc → Ver → Outcome (DiskDli × Ver)
unfolding selected
arb_disk_sel_ms synced dli d req = do
  (found, ndx) ← find_ver_in_dli dli req
  if found then (do v ← version_at dli.version ndx; ok (dli, v)) else (do
    let sel = selected d req
    ok (record dli { version = set dli.version ndx sel }, if synced then sel else req))

pub arb_disk_query_ms : DiskDli → Ver → Outcome Ver
arb_disk_query_ms dli req = do
  (found, ndx) ← find_ver_in_dli dli req
  if found then version_at dli.version ndx else ok 0

-- The description seen from the host with the smaller id. `tmp` is what the memory of the local
-- variable holds before: its other members are not set.
unfoldable pub desc_standard : Desc → Desc → Desc
desc_standard d tmp = if ltb d.local_hostid d.remote_hostid then d else record tmp {
  local_hostid = d.remote_hostid;
  remote_hostid = d.local_hostid;
  local_dataset = d.remote_dataset;
  remote_dataset = d.local_dataset;
}

-- TREE_CMP(a, b), as the three values -1, 0 and 1.
pub data Order : Type 0 where
  less equal greater : Order

abbrev pub tree_cmp : ℕ → ℕ → Order
tree_cmp a b = if ltb a b then less else if ltb b a then greater else equal

pub dl_uuid_cmp : Uuid → Uuid → Order
dl_uuid_cmp u1 u2 = elim (tree_cmp u1.uuid0 u2.uuid0) [
  | equal ↦ tree_cmp u1.uuid1 u2.uuid1
  | less ↦ less
  | greater ↦ greater
]
