-- ===== src/ArbDisk/Select.antt =====
-- arb_disk_sel_ms and arb_disk_query_ms of src/duallive/arbitrary_disk.c.
use duallive.Base.{
  ℕ, ◌^◌, ◌<◌, ◌≡◌, ◌≢◌, ◌⊎◌, ap, subst, ◌∙◌, sym, arith, inl, inr, List, length, length-set,
  get_elem?, get_elem?-lt, set, get_elem?-set_self, get_elem?-set_ne, Bool, true, false, some, ok,
  ltb, if◌then◌else◌,
}
use duallive.Duallive.{
  Ver, Desc, version, set_state, master, state, dl_type, state_ms_little, state_ms_big,
}
use duallive.ArbDisk.{
  DiskDli, versions_num, find_ver_in_dli, selected, arb_disk_sel_ms, arb_disk_query_ms,
}
use duallive.ArbDisk.Find.{IsFirst, IsLeast, some-eq, find_ver_in_dli-Finds, version_at-ok}

abbrev pub IsWhole : DiskDli → Type 0
IsWhole dli = length dli.version ≡ versions_num

-- A version stands first at one place.
pub lt_tri : (j k : ℕ) → (j < k) ⊎ ((k < j) ⊎ (j ≡ k))
lt_tri j k = grind arith

module _ (dli : DiskDli) (ver : Ver) (k : ℕ) (v : Ver) (whole : IsWhole dli)
    (f : IsFirst dli.version ver k v) where
  -- So a search finds it there.
  pub find-first : find_ver_in_dli dli ver ≡ ok (true, k)
  find-first = elim (find_ver_in_dli-Finds dli ver whole) [
    | inl (m, w, returns, g) ↦ elim (lt_tri m k) [
      | inl before ↦ absurd (f.first m w before g.at g.same)
      | inr (inl behind) ↦ absurd (g.first k v behind f.at f.same)
      | inr (inr same) ↦ returns ∙ ap (λ n. ok (true, n)) same
    ]
    | inr (m, returns, l) ↦ absurd (l.absent k v (get_elem?-lt dli.version k f.at) f.at f.same)
  ]

  pub sel-first : (synced : Bool) (d : Desc) → arb_disk_sel_ms synced dli d ver ≡ ok (dli, v)
  unfolding arb_disk_sel_ms
  sel-first synced d = rw (find-first, version_at-ok dli.version k v f.at)

  pub query-first : arb_disk_query_ms dli ver ≡ ok v
  unfolding arb_disk_query_ms
  query-first = rw (find-first, version_at-ok dli.version k v f.at)

-- Only the version number matters to a search.
IsFirst-version :
    (vs : List Ver) (a b : Ver) (k : ℕ) (v : Ver)
    → version b ≡ version a
    → IsFirst vs a k v
    → IsFirst vs b k v
IsFirst-version vs a b k v e f = record {
  at = f.at;
  same = f.same ∙ sym e;
  first = λ j w h g s. f.first j w h g (s ∙ e);
}

pub set_state_version : (v s : ℕ) → version (set_state v s) ≡ version v
set_state_version v s = omega arith

pub set_state_bits :
    (v s : ℕ)
    → v < 2 ^ 64
    → s < 4
    → (master (set_state v s) ≡ master v)
      × (dl_type (set_state v s) ≡ dl_type v)
      × (state (set_state v s) ≡ s)
set_state_bits v s h k = (omega arith, omega arith, omega arith)

pub version-selected : (d : Desc) (req : Ver) → version (selected d req) ≡ version req
unfolding selected
version-selected d req = set_state_version req _

-- The side of the host that asks.
abbrev pub side : Desc → ℕ
side d = if ltb d.local_hostid d.remote_hostid then state_ms_little else state_ms_big

pub side-lt : (d : Desc) → side d < 4
side-lt d = ground arith

-- A version that was not decided yet: the decision replaces a least one.
module _ (dli : DiskDli) (d : Desc) (req : Ver) (k : ℕ) (whole : IsWhole dli)
    (l : IsLeast dli.version req (length dli.version) k) where
  abbrev pub decided : DiskDli
  decided = record dli { version = set dli.version k (selected d req) }

  pub find-absent :
      find_ver_in_dli dli req ≡ ok (false, k)
      → (synced : Bool)
      → arb_disk_sel_ms synced dli d req ≡ ok (decided, if synced then selected d req else req)
  unfolding arb_disk_sel_ms
  find-absent returns synced = rw returns

  pub decided-IsWhole : IsWhole decided
  decided-IsWhole = length-set dli.version k (selected d req) ∙ whole

  -- From then on the decision is what stands first for the version.
  pub decided-IsFirst : IsFirst decided.version req k (selected d req)
  decided-IsFirst = record {
    at = get_elem?-set_self dli.version k (selected d req) (get_elem?-lt dli.version k l.at);
    same = version-selected d req;
    first = λ j w h e.
        l.absent j w (omega (arith, get_elem?-lt dli.version k l.at))
          (sym (get_elem?-set_ne dli.version k j (selected d req) (λ s. omega arith)) ∙ e);
  }

  -- A greater version that was decided before stays decided.
  pub kept-IsFirst :
      (other : Ver) (m : ℕ) (v : Ver)
      → IsFirst dli.version other m v
      → version l.v < version other
      → IsFirst decided.version other m v
  kept-IsFirst other m v f greater =
      let inside = get_elem?-lt dli.version m f.at in
      let apart : k ≢ m = λ s.
        let eq = ap version (
          some-eq (get_elem? dli.version m) (subst (λ n. get_elem? dli.version n ≡ some l.v) s l.at)
            f.at) in
        omega (arith, f.same) in
      record {
        at = get_elem?-set_ne dli.version k m (selected d req) apart ∙ f.at;
        same = f.same;
        first = λ j w h e. elim (lt_tri k j) [
          | inl before ↦
              f.first j w h
                (sym (get_elem?-set_ne dli.version k j (selected d req) (λ s. omega arith)) ∙ e)
          | inr (inl behind) ↦
              f.first j w h
                (sym (get_elem?-set_ne dli.version k j (selected d req) (λ s. omega arith)) ∙ e)
          | inr (inr here) ↦ λ s.
              let new =
                some-eq (get_elem? decided.version j)
                  (subst (λ n. get_elem? decided.version n ≡ some (selected d req)) here
                    decided-IsFirst.at)
                  e in
              l.absent m v inside f.at
                (f.same ∙ sym s ∙ sym (ap version new) ∙ version-selected d req)
        ];
      }

-- When the file is synchronised, arb_disk_sel_ms on a record of six versions returns without a fault,
-- and what it answers holds for the next request for the same version number, from either host
-- and whatever the other bits of the request and the later synchronisation: arb_disk_sel_ms then
-- gives the same answer and changes nothing, and arb_disk_query_ms gives it too.
pub sel_ms_agrees :
    (dli : DiskDli) (d d' : Desc) (req req' : Ver) (synced : Bool)
    → IsWhole dli
    → version req' ≡ version req
    → (dli' : DiskDli) × (v : Ver) × (arb_disk_sel_ms true dli d req ≡ ok (dli', v))
      × (arb_disk_sel_ms synced dli' d' req' ≡ ok (dli', v))
      × (arb_disk_query_ms dli' req' ≡ ok v)
      × IsWhole dli'
sel_ms_agrees dli d d' req req' synced whole same = elim (find_ver_in_dli-Finds dli req whole) [
  | inl (k, v, returns, f) ↦
      let f' = IsFirst-version dli.version req req' k v same f in
      (
        dli,
        v,
        sel-first dli req k v whole f true d,
        sel-first dli req' k v whole f' synced d',
        query-first dli req' k v whole f',
        whole,
      )
  | inr (k, returns, l) ↦
      let after = decided dli d req k whole l in
      let v = selected d req in
      let whole' = decided-IsWhole dli d req k whole l in
      let f' =
        IsFirst-version after.version req req' k v same (decided-IsFirst dli d req k whole l) in
      (
        after,
        v,
        find-absent dli d req k whole l returns true,
        sel-first after req' k v whole' f' synced d',
        query-first after req' k v whole' f',
        whole',
      )
]
