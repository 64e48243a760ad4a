-- ===== src/Arbiter/Opening.antt =====
-- arb_disk_open_impl, arb_disk_open and arb_disk_close of src/duallive/arbitrary_disk.c against the disk of
-- one uuid.
use duallive.Base.{
  ℕ, ◌+◌, ◌<◌, ◌≡◌, refl, arith, inl, inr, Bool, Bool-cases, Option, none, some, Option-cases, ok,
  Returns, Follows, Follows-both, Follows-then,
}
use duallive.Duallive.{Uuid, Desc}
use duallive.ArbUuid.{Lists, Disks, Node, Manager, node_at, arb_uuid_unlock}
use duallive.ArbUuid.Sound.{Lawful, plus}
use duallive.ArbUuid.References.{itself}
use duallive.Arbiter.{
  DiskInst, DiskCalls, is_set, linked, load_disk, open_locked, attach, attach_opened, unlock_disk,
  arb_disk_close,
}
use duallive.Arbiter.Held.{
  points, Owned, Open, Open-Linked, set_disk-Open, disk_at-Open, write-Open, unlock-Owned,
}
use duallive.Arbiter.Spec.{first_disk, enter}

module _ {T L W F : Type 0} (lists : Lists T L) (disks : Disks W (DiskInst F))
    (calls : DiskCalls W F) (law : Lawful lists) (mgr : ℕ) where
  -- The lock was given back after the file on its disk became `fm`, with no pair and no description, and the
  -- manager agrees with the references.
  pub record Closed (refs : ℕ → ℕ) (a : ℕ) (fm : F) (w : W) (m' : Manager T L (DiskInst F)) (w' : W)
      : Type 0 where
    pub before : Manager T L (DiskInst F)
    pub disk : DiskInst F
    pub open_disk : Open lists disks calls law mgr (plus refs a) a before disk
    pub is_file : disk.fm ≡ fm
    pub no_pair : disk.dli ≡ none
    pub no_desc : disk.desc ≡ none
    pub unlocks : arb_uuid_unlock lists disks before w a ≡ ok (m', w')
    pub owned : Owned lists disks calls law mgr refs m'

  -- What arb_disk_open_impl returns against the disk of the uuid.
  abbrev pub Opens :
      (ℕ → ℕ) → ℕ → Option (DiskInst F) × W → Option ℕ × Manager T L (DiskInst F) × W → Type 0
  Opens refs a x y = elim (x.0) [
    | none ↦ (y.0 ≡ none) × Owned lists disks calls law mgr refs y.1
    | some d ↦ (y.0 ≡ some a) × (y.2 ≡ x.1) × Open lists disks calls law mgr (plus refs a) a y.1 d
  ]

  one_more : (refs : ℕ → ℕ) (a : ℕ) → 0 < plus refs a a
  one_more refs a = omega (arith, itself a (refs a + 1) (refs a))

  pub open_locked-Opens :
      (refs : ℕ → ℕ) (m : Manager T L (DiskInst F)) (w : W) (a : ℕ) (n : Node (DiskInst F))
      (u : Uuid) (create : Bool)
      → Owned lists disks calls law mgr (plus refs a) m
      → m.nodes a ≡ some n
      → Follows
          (Opens refs a)
          (first_disk calls mgr w a u create n.disk)
          (open_locked lists disks calls mgr m w a u create)
  unfolding open_locked node_at first_disk load_disk
  open_locked-Opens refs m w a n u create o there = elim (Option-cases n.disk) [
    | inr (d, is_d) ↦
        let (is_mgr, is_lock) = o.linked a n d there is_d in
        rw (open_locked, node_at, there, is_d, points mgr is_mgr, points a is_lock)
          (
            (some a, m, w),
            refl,
            (
              refl,
              refl,
              record {
                owned = o;
                held = one_more refs a;
                node = n;
                there = there;
                has_disk = is_d;
              },
            ),
          )
    | inl null ↦
        rw (open_locked, node_at, there, null)
          (Follows-both (Opens refs a) (calls.load w u create) _ _ λ r. elim (Option-cases r.0) [
            | inl no_file ↦
                let (q, returns, o') = unlock-Owned lists disks calls law mgr m r.1 a o in
                rw (no_file, returns) (_, refl, (refl, o'))
            | inr (fm, is_fm) ↦
                let (m', sets, o') =
                  set_disk-Open lists disks calls law mgr m a n (linked lists disks calls mgr fm a)
                    o (one_more refs a) there (refl, refl) in
                rw (is_fm, sets) (_, refl, (refl, refl, o'))
          ])
  ]

  pub close-Closed :
      (refs : ℕ → ℕ) (a : ℕ) (m : Manager T L (DiskInst F)) (w : W) (d : DiskInst F)
      → Open lists disks calls law mgr (plus refs a) a m d
      → Returns (λ y. Closed refs a d.fm w y.0 y.1) (arb_disk_close lists disks calls mgr m w a)
  unfolding arb_disk_close unlock_disk
  close-Closed refs a m w d o =
      let good = Open-Linked lists disks calls law mgr o in
      let (m', sets, o') =
        write-Open lists disks calls law mgr o (record d { dli = none; desc = none }) good in
      let (q, returns, owned) = unlock-Owned lists disks calls law mgr m' w a o'.owned in
      rw (disk_at-Open lists disks calls law mgr o, sets, good.1, returns)
        (
          q,
          refl,
          record {
            before = m';
            disk = record d { dli = none; desc = none };
            open_disk = o';
            is_file = refl;
            no_pair = refl;
            no_desc = refl;
            unlocks = returns;
            owned = owned;
          },
        )

  -- An open disk, in the node at `a`.
  abbrev pub Opened : (ℕ → ℕ) → ℕ → DiskInst F × W → ℕ × Manager T L (DiskInst F) × W → Type 0
  Opened refs a x y =
      (y.0 ≡ a) × (y.2 ≡ x.1) × Open lists disks calls law mgr (plus refs a) a y.1 x.0

  attach-Opened :
      (refs : ℕ → ℕ) (a : ℕ) (m : Manager T L (DiskInst F)) (w : W) (d : DiskInst F) (desc : Desc)
      → Open lists disks calls law mgr (plus refs a) a m d
      → Follows
          (λ x y. Opened refs a x (a, y.0, y.1))
          (enter calls mgr w (some d) desc)
          (attach lists disks calls mgr m w a desc)
  unfolding enter attach
  attach-Opened refs a m w d desc o = rw (disk_at-Open lists disks calls law mgr o) (
      Follows-both (λ x y. Opened refs a x (a, y.0, y.1)) (calls.insert_dli w d.fm desc) _ _
        λ r. elim (Bool-cases (is_set r.0)) [
          | inr null ↦ rw null refl
          | inl there ↦
              let d' = record d { fm = r.1; dli = r.0; desc = some desc } in
              let (m', sets, o') =
                write-Open lists disks calls law mgr o d'
                  (Open-Linked lists disks calls law mgr o) in
              rw (there, sets) (_, refl, (refl, refl, o'))
        ])

  pub attach_opened-Opened :
      (refs : ℕ → ℕ) (a : ℕ) (desc : Desc) (x : Option (DiskInst F) × W)
      (y : Option ℕ × Manager T L (DiskInst F) × W)
      → Opens refs a x y
      → Follows
          (Opened refs a)
          (enter calls mgr x.1 x.0 desc)
          (attach_opened lists disks calls mgr y.0 y.1 y.2 desc)
  unfolding attach_opened enter
  attach_opened-Opened refs a desc (none, w) y (null, o) = rw null refl
  attach_opened-Opened refs a desc (some d, w) y (is_a, is_w, o) =
      rw (is_a, is_w)
        (Follows-then (λ x z. Opened refs a x (a, z.0, z.1)) (Opened refs a)
          (enter calls mgr w (some d) desc) (attach lists disks calls mgr y.1 w a desc) _
          (attach-Opened refs a y.1 w d desc o) λ x z h. (_, refl, h))
