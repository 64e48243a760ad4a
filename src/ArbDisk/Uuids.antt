-- ===== src/ArbDisk/Uuids.antt =====
-- dl_uuid_cmp of src/duallive/arbitrary_disk.c, the order of the tree of locks.
use duallive.Base.{◌<◌, ◌≡◌, ◌⊎◌, ap, sym, ◌∙◌, arith, inl, inr, lt→ltb, le→ltb}
use duallive.Duallive.{Uuid}
use duallive.ArbDisk.{less, equal, greater, dl_uuid_cmp}
use duallive.ArbDisk.Select.{lt_tri}

-- The lexicographic order of the two words.
abbrev pub IsBelow : Uuid → Uuid → Type 0
IsBelow u v = (u.uuid0 < v.uuid0) ⊎ ((u.uuid0 ≡ v.uuid0) × (u.uuid1 < v.uuid1))

dl_uuid_cmp-less :
    (u v : Uuid) → IsBelow u v → (dl_uuid_cmp u v ≡ less) × (dl_uuid_cmp v u ≡ greater)
unfolding dl_uuid_cmp
dl_uuid_cmp-less u v (inl h) = (
  rw (dl_uuid_cmp, lt→ltb _ _ h),
  rw (dl_uuid_cmp, le→ltb v.uuid0 u.uuid0 (omega arith), lt→ltb _ _ h),
)
dl_uuid_cmp-less u v (inr (e, h)) = (
  rw (e, dl_uuid_cmp, le→ltb v.uuid0 v.uuid0 (omega arith), lt→ltb _ _ h),
  rw (
    e,
    dl_uuid_cmp,
    le→ltb v.uuid0 v.uuid0 (omega arith),
    le→ltb v.uuid1 u.uuid1 (omega arith),
    lt→ltb _ _ h,
  ),
)

dl_uuid_cmp-equal : (u : Uuid) → dl_uuid_cmp u u ≡ equal
unfolding dl_uuid_cmp
dl_uuid_cmp-equal u =
    rw (dl_uuid_cmp, le→ltb u.uuid0 u.uuid0 (omega arith), le→ltb u.uuid1 u.uuid1 (omega arith))

-- Each two ids stand in one of three relations.
trichotomy : (u v : Uuid) → IsBelow u v ⊎ (IsBelow v u ⊎ (u ≡ v))
trichotomy u v = elim (lt_tri u.uuid0 v.uuid0) [
  | inl h ↦ inl (inl h)
  | inr (inl h) ↦ inr (inl (inl h))
  | inr (inr e) ↦ elim (lt_tri u.uuid1 v.uuid1) [
    | inl h ↦ inl (inr (e, h))
    | inr (inl h) ↦ inr (inl (inr (sym e, h)))
    | inr (inr e') ↦ inr (inr (cc))
  ]
]

-- Of each two ids one is below the other in the lexicographic order of the two words, and dl_uuid_cmp
-- tells so in both directions, or they are the same, and dl_uuid_cmp gives 0.
pub dl_uuid_cmp-lexicographic :
    (u v : Uuid)
    → (IsBelow u v × (dl_uuid_cmp u v ≡ less) × (dl_uuid_cmp v u ≡ greater))
      ⊎ ((IsBelow v u × (dl_uuid_cmp u v ≡ greater) × (dl_uuid_cmp v u ≡ less))
          ⊎ ((u ≡ v) × (dl_uuid_cmp u v ≡ equal)))
dl_uuid_cmp-lexicographic u v = elim (trichotomy u v) [
  | inl h ↦ let (a, b) = dl_uuid_cmp-less u v h in inl (h, a, b)
  | inr (inl h) ↦ let (a, b) = dl_uuid_cmp-less v u h in inr (inl (h, b, a))
  | inr (inr e) ↦ inr (inr (e, ap (dl_uuid_cmp u) (sym e) ∙ dl_uuid_cmp-equal u))
]
