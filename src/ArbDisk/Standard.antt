-- ===== src/ArbDisk/Standard.antt =====
-- desc_standard of src/duallive/arbitrary_disk.c.
use duallive.Base.{
  ℕ, ◌<◌, ◌≡◌, ◌≢◌, refl, arith, inl, inr, ltb, Bool-cases, ltb→lt, ltb→le, lt→ltb, le→ltb,
}
use duallive.Base.Memory.{Bytes}
use duallive.Duallive.{Desc}
use duallive.ArbDisk.{desc_standard}

-- The description of the same pair on the other host.
abbrev pub mirror : Desc → Desc
mirror d = record d {
  local_hostid = d.remote_hostid;
  remote_hostid = d.local_hostid;
  local_dataset = d.remote_dataset;
  remote_dataset = d.local_dataset;
}

-- What a record of a pair is found by.
abbrev pub key : Desc → ℕ × ℕ × Bytes × Bytes
key d = (d.local_hostid, d.remote_hostid, d.local_dataset, d.remote_dataset)

-- Whatever the local variable held before, desc_standard gives the description and its mirror the
-- same key, whose first host id is the smaller one, if the ids of the two hosts differ.
pub desc_standard_symmetric :
    (d tmp tmp' : Desc)
    → d.local_hostid ≢ d.remote_hostid
    → (key (desc_standard d tmp) ≡ key (desc_standard (mirror d) tmp'))
      × ((desc_standard d tmp).local_hostid < (desc_standard d tmp).remote_hostid)
unfolding desc_standard
desc_standard_symmetric d tmp tmp' apart = elim (Bool-cases (ltb d.local_hostid d.remote_hostid)) [
  | inl less ↦
      let lt = ltb→lt d.local_hostid d.remote_hostid less in
      rw (less, le→ltb d.remote_hostid d.local_hostid (omega arith)) (refl, lt)
  | inr more ↦
      let le = ltb→le d.local_hostid d.remote_hostid more in
      let gt : d.remote_hostid < d.local_hostid = omega arith in
      rw (more, lt→ltb d.remote_hostid d.local_hostid gt) (refl, gt)
]
