-- ===== src/Tests/Disk.antt =====
-- The arbiter's record of a pair at concrete inputs.
use duallive.ArbDisk.{less, equal, greater, dl_uuid_cmp}
use duallive.Base.{
  ◌⊎◌, List, ℕ, ◌+◌, ◌*◌, ◌^◌, ◌<◌, ◌≡◌, ◌≢◌, refl, arith, [], ◌∷◌, zero, suc, true, false,
  get_elem?, some, ok,
}
use duallive.Duallive.{Ver, version}
use duallive.ArbDisk.{DiskDli, find_ver_in_dli, arb_disk_sel_ms, arb_disk_query_ms}
use duallive.ArbDisk.Find.{Finds, IsFirst, find_ver_in_dli-Finds}
use duallive.ArbDisk.Select.{IsWhole, sel_ms_agrees}
use duallive.ArbDisk.Decide.{Decides, sel_ms-Decides, sel_ms_keeps}
use duallive.ArbDisk.Runs.{Call, newer, older, select_all, decision_survives}
use duallive.ArbDisk.Uuids.{IsBelow, dl_uuid_cmp-lexicographic}
use duallive.ArbDisk.Standard.{mirror, key, desc_standard_symmetric}
use duallive.ArbDisk.{desc_standard}
use duallive.Tests.Data.{desc_a1, desc_b1, desc_a2}

-- Version 12 was decided for the side of the smaller id.
abbrev ver_12 : Ver
ver_12 = 12 + 2 * 2 ^ 61

-- A record of the pair of `desc_a1` with five decisions.
abbrev dli_a1 : DiskDli
dli_a1 = record {
  hostid0 = 1;
  hostid1 = 3;
  dataset0 = 1;
  dataset1 = 13;
  version = 9 ∷ ver_12 ∷ 7 ∷ 0 ∷ 10 ∷ 8 ∷ [];
}

find_ver_in_dli-Finds_example : Finds dli_a1.version 12 (find_ver_in_dli dli_a1 12)
find_ver_in_dli-Finds_example = find_ver_in_dli-Finds dli_a1 12 refl

sel_ms_agrees_example :
    (dli' : DiskDli) × (v : Ver) × (arb_disk_sel_ms true dli_a1 desc_b1 13 ≡ ok (dli', v))
    × (arb_disk_sel_ms false dli' desc_a1 (2 ^ 63 + 13) ≡ ok (dli', v))
    × (arb_disk_query_ms dli' (2 ^ 63 + 13) ≡ ok v)
    × IsWhole dli'
sel_ms_agrees_example =
    sel_ms_agrees dli_a1 desc_b1 desc_a1 13 (2 ^ 63 + 13) false refl (omega arith)

absent_13 : (j : ℕ) (w : Ver) → get_elem? dli_a1.version j ≡ some w → version w ≢ version 13
absent_13 zero w e = ground arith
absent_13 (suc zero) w e = ground arith
absent_13 (suc (suc zero)) w e = ground arith
absent_13 (suc (suc (suc zero))) w e = ground arith
absent_13 (suc (suc (suc (suc zero)))) w e = ground arith
absent_13 (suc (suc (suc (suc (suc zero))))) w e = ground arith
absent_13 (suc (suc (suc (suc (suc (suc j)))))) w e = absurd (ground arith)

sel_ms-Decides_example : Decides true dli_a1 desc_b1 13
sel_ms-Decides_example = sel_ms-Decides true dli_a1 desc_b1 13 refl (omega arith) absent_13

ver_12-IsFirst : IsFirst dli_a1.version 12 1 ver_12
ver_12-IsFirst = record { at = refl; same = omega arith; first = first_12 }
  where
    first_12 :
        (j : ℕ) (w : Ver) → j < 1 → get_elem? dli_a1.version j ≡ some w → version w ≢ version 12
    first_12 zero w h e = ground arith
    first_12 (suc j) w h e = absurd (omega arith)

sel_ms_keeps_example :
    (dli' : DiskDli) × (answer : Ver) × (arb_disk_sel_ms false dli_a1 desc_b1 13
      ≡ ok (dli', answer))
    × IsWhole dli'
    × IsFirst dli'.version 12 1 ver_12
    × (arb_disk_query_ms dli' 12 ≡ ok ver_12)
sel_ms_keeps_example =
    sel_ms_keeps false dli_a1 desc_b1 13 12 1 ver_12 2 7 refl ver_12-IsFirst refl (omega arith)

desc_standard_symmetric_example :
    (key (desc_standard desc_a1 desc_a2) ≡ key (desc_standard (mirror desc_a1) desc_b1))
    × ((desc_standard desc_a1 desc_a2).local_hostid < (desc_standard desc_a1 desc_a2).remote_hostid)
desc_standard_symmetric_example = desc_standard_symmetric desc_a1 desc_a2 desc_b1 (omega arith)

-- Two calls, of which one is for a greater version than 12.
abbrev two_calls : List Call
two_calls = (true, desc_b1, 13) ∷ (false, desc_a1, 11) ∷ []

one_newer : newer 12 two_calls < older 12 dli_a1.version
unfolding newer older
one_newer = omega arith

decision_survives_example :
    (dli' : DiskDli) × (select_all dli_a1 two_calls ≡ ok dli')
    × IsWhole dli'
    × (arb_disk_query_ms dli' 12 ≡ ok ver_12)
decision_survives_example =
    decision_survives 12 1 ver_12 dli_a1 two_calls refl ver_12-IsFirst one_newer

dl_uuid_cmp-lexicographic_example :
    (IsBelow desc_a1.uuid desc_a2.uuid
      × (dl_uuid_cmp desc_a1.uuid desc_a2.uuid ≡ less)
      × (dl_uuid_cmp desc_a2.uuid desc_a1.uuid ≡ greater))
    ⊎ ((IsBelow desc_a2.uuid desc_a1.uuid
          × (dl_uuid_cmp desc_a1.uuid desc_a2.uuid ≡ greater)
          × (dl_uuid_cmp desc_a2.uuid desc_a1.uuid ≡ less))
        ⊎ ((desc_a1.uuid ≡ desc_a2.uuid) × (dl_uuid_cmp desc_a1.uuid desc_a2.uuid ≡ equal)))
dl_uuid_cmp-lexicographic_example = dl_uuid_cmp-lexicographic desc_a1.uuid desc_a2.uuid
