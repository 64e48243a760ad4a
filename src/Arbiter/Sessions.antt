-- ===== src/Arbiter/Sessions.antt =====
-- arb_select_ms_impl and arb_disk_remove of src/duallive/arbitrary_disk.c against what they do to one disk.
use duallive.Base.{
  ℕ, ◌+◌, ◌^◌, ◌<◌, ◌≡◌, refl, sym, subst, Bool, true, false, Option, none, some, ok, ◌>>=◌,
  Returns, Safe-ok, Follows, Follows-bind, Follows-then, Follows-return,
}
use duallive.Duallive.{Uuid, Ver, Desc}
use duallive.ArbUuid.{Lists, Disks, Manager, arb_uuid_lock}
use duallive.ArbUuid.Sound.{Lawful, plus}
use duallive.ArbUuid.Members.{Members, arb_uuid_lock-Members}
use duallive.ArbUuid.Locks.{disk_of, arb_uuid_lock-Locked}
use duallive.Arbiter.{
  DiskInst, DiskCalls, Op, arb_disk_open_impl, arb_disk_open, arb_disk_close, detach, detach_opened,
  arb_disk_remove, operate, arb_select_ms_impl, arb_select_master_slave, arb_query_master_slave,
}
use duallive.Arbiter.Held.{Linked, Owned, Open, Open-Linked, disk_at-Open, write-Open}
use duallive.Arbiter.Spec.{first_disk, entered, answer_request, remove_opened, remove_request}
use duallive.Arbiter.Opening.{
  Closed, Opens, open_locked-Opens, close-Closed, Opened, attach_opened-Opened,
}

module _ {T L W F : Type 0} (lists : Lists T L) (disks : Disks W (DiskInst F))
    (calls : DiskCalls W F) (law : Lawful lists) (mgr : ℕ) where
  operate-Answers :
      (op : Op W F) (refs : ℕ → ℕ) (a : ℕ) (m : Manager T L (DiskInst F)) (w : W) (d : DiskInst F)
      (req : Ver)
      → Open lists disks calls law mgr (plus refs a) a m d
      → Follows
          (λ x y.
            (x.0 ≡ y.0)
            × (y.2 ≡ x.2)
            × Open lists disks calls law mgr (plus refs a) a y.1 (record d { fm = x.1 }))
          (op w d req)
          (operate lists disks calls mgr op m w a req)
  unfolding operate
  operate-Answers op refs a m w d req o = rw (disk_at-Open lists disks calls law mgr o) (
      Follows-return _ (op w d req) _ λ x.
        let (m', sets, o') =
          write-Open lists disks calls law mgr o (record d { fm = x.1 })
            (Open-Linked lists disks calls law mgr o) in
        rw sets (_, refl, (refl, refl, o')))

  -- The answer, and the file that is left, with the lock given back.
  abbrev pub Answered : (ℕ → ℕ) → ℕ → Ver × F × W → Ver × Manager T L (DiskInst F) × W → Type 0
  Answered refs a x y = (x.0 ≡ y.0) × Closed lists disks calls law mgr refs a x.1 x.2 y.1 y.2

  -- What arb_disk_remove leaves: a file that was not there is none, and no reference is left.
  abbrev pub Removed : (ℕ → ℕ) → ℕ → Option F × W → Manager T L (DiskInst F) × W → Type 0
  Removed refs a x y = elim (x.0) [
    | none ↦ Owned lists disks calls law mgr refs y.0
    | some fm ↦ Closed lists disks calls law mgr refs a fm x.1 y.0 y.1
  ]

  operated-Answered :
      (op : Op W F) (refs : ℕ → ℕ) (a : ℕ) (req : Ver) (x : DiskInst F × W)
      (y : ℕ × Manager T L (DiskInst F) × W)
      → Opened lists disks calls law mgr refs a x y
      → Follows (Answered refs a) (op x.1 x.0 req) (do
        (rsp, m, w) ← operate lists disks calls mgr op y.1 y.2 y.0 req
        (m, w) ← arb_disk_close lists disks calls mgr m w y.0
        ok (rsp, m, w))
  operated-Answered op refs a req (d, w) (a', m, w') (is_a, is_w, o) =
      rw (is_a, is_w)
        (Follows-then _ (Answered refs a) (op w d req) (operate lists disks calls mgr op m w a req)
          _ (operate-Answers op refs a m w d req o)
          λ x y (same, is_w, o').
            let (q, closes, c) = close-Closed lists disks calls law mgr refs a y.1 y.2 _ o' in
            rw closes (
              _,
              refl,
              (same, subst (λ v. Closed lists disks calls law mgr refs a x.1 v q.0 q.1) is_w c),
            ))

  detach-Open :
      (refs : ℕ → ℕ) (a : ℕ) (m : Manager T L (DiskInst F)) (w : W) (d : DiskInst F) (desc : Desc)
      → Open lists disks calls law mgr (plus refs a) a m d
      → Follows
          (λ x y.
            (y.1 ≡ x.1)
            × Open lists disks calls law mgr (plus refs a) a y.0 (record d { fm = x.0 }))
          (calls.remove_dli w d.fm desc)
          (detach lists disks calls mgr m w a desc)
  unfolding detach
  detach-Open refs a m w d desc o = rw (disk_at-Open lists disks calls law mgr o) (
      Follows-return _ (calls.remove_dli w d.fm desc) _ λ x.
        let (m', sets, o') =
          write-Open lists disks calls law mgr o (record d { fm = x.0 })
            (Open-Linked lists disks calls law mgr o) in
        rw sets (_, refl, (refl, o')))

  detached-Removed :
      (refs : ℕ → ℕ) (a : ℕ) (desc : Desc) (x : Option (DiskInst F) × W)
      (y : Option ℕ × Manager T L (DiskInst F) × W)
      → Opens lists disks calls law mgr refs a x y
      → Follows
          (Removed refs a)
          (remove_opened calls mgr x.1 x.0 desc)
          (detach_opened lists disks calls mgr y.0 y.1 y.2 desc)
  unfolding remove_opened detach_opened
  detached-Removed refs a desc (none, w) y (null, o) = rw null (_, refl, o)
  detached-Removed refs a desc (some d, w) y (is_a, is_w, o) =
      rw (is_a, is_w)
        (Follows-bind _ (Removed refs a) (calls.remove_dli w d.fm desc)
          (detach lists disks calls mgr y.1 w a desc) _ _ (detach-Open refs a y.1 w d desc o)
          λ x z (is_w, o').
            let (q, closes, c) = close-Closed lists disks calls law mgr refs a z.0 z.1 _ o' in
            rw closes
              (_, refl, subst (λ v. Closed lists disks calls law mgr refs a x.0 v q.0 q.1) is_w c))

  open_impl-Opens :
      (refs : ℕ → ℕ) (m : Manager T L (DiskInst F)) (w : W) (u : Uuid) (create : Bool)
      → Owned lists disks calls law mgr refs m
      → ((a : ℕ) → refs a + 1 < 2 ^ 32)
      → Returns
          (λ l.
            Follows
              (Opens lists disks calls law mgr refs l.0)
              (first_disk calls mgr l.2 l.0 u create (disk_of lists disks law m u))
              (arb_disk_open_impl lists disks calls mgr m w u create))
          (arb_uuid_lock lists disks m w u)
  unfolding arb_disk_open_impl
  open_impl-Opens refs m w u create o small =
      let (l, locks, k) = arb_uuid_lock-Locked lists disks law m w u o.sound small in
      let (n, there, is_u) = k.node in
      let o' : Owned lists disks calls law mgr (plus refs l.0) l.1 = record {
        sound = k.sound;
        linked =
            Safe-ok (λ r. Members lists disks (Linked lists disks calls law mgr) r.1.nodes)
              (arb_uuid_lock-Members lists disks (Linked lists disks calls law mgr) m w u o.linked)
              locks;
      } in
      (
        l,
        locks,
        rw (locks, sym (k.disk n there))
            (open_locked-Opens lists disks calls law mgr refs l.1 l.2 l.0 n u create o' there),
      )

  answer-Answered :
      (op : Op W F) (refs : ℕ → ℕ) (m : Manager T L (DiskInst F)) (w : W) (desc : Desc) (req : Ver)
      (l : ℕ × Manager T L (DiskInst F) × W)
      → Follows
          (Opens lists disks calls law mgr refs l.0)
          (first_disk calls mgr l.2 l.0 desc.uuid true (disk_of lists disks law m desc.uuid))
          (arb_disk_open_impl lists disks calls mgr m w desc.uuid true)
      → Follows
          (Answered refs l.0)
          (answer_request calls mgr op l.2 l.0 (disk_of lists disks law m desc.uuid) desc req)
          (arb_select_ms_impl lists disks calls mgr op m w desc req)
  unfolding answer_request entered arb_select_ms_impl arb_disk_open
  answer-Answered op refs m w desc req l opens =
      Follows-bind (Opened lists disks calls law mgr refs l.0) (Answered refs l.0) _
        (arb_disk_open lists disks calls mgr m w desc) _ _
        (Follows-bind (Opens lists disks calls law mgr refs l.0)
          (Opened lists disks calls law mgr refs l.0) _
          (arb_disk_open_impl lists disks calls mgr m w desc.uuid true) _ _ opens
          (attach_opened-Opened lists disks calls law mgr refs l.0 desc))
        (operated-Answered op refs l.0 req)

  -- If the manager agrees with the references of others, each node has fewer than 2^32 - 1 of them and each
  -- disk is linked to its lock, then arb_uuid_lock returns a lock of the uuid, and arb_select_master_slave
  -- and arb_query_master_slave end as what is done to the disk of the uuid alone: that is the one that is
  -- there already, or the file that is loaded; the pair is entered, and arb_disk_sel_ms or arb_disk_query_ms
  -- answers. In both runs the same fault ends them, VERIFY on what is NULL included, so that no ASSERT on
  -- the links of a disk fails and no node is used after it was freed; or the answer is the same, the file
  -- is kept, and the lock is given back once, with no pair and no description left on the disk.
  pub masters-Follow :
      (refs : ℕ → ℕ) (m : Manager T L (DiskInst F)) (w : W) (desc : Desc) (req : Ver)
      → Owned lists disks calls law mgr refs m
      → ((a : ℕ) → refs a + 1 < 2 ^ 32)
      → Returns
          (λ l.
            Follows
              (Answered refs l.0)
              (answer_request calls mgr calls.sel_ms l.2 l.0
                (disk_of lists disks law m desc.uuid)
                desc
                req)
              (arb_select_master_slave lists disks calls mgr m w desc req)
            × Follows
                (Answered refs l.0)
                (answer_request calls mgr calls.query_ms l.2 l.0
                  (disk_of lists disks law m desc.uuid)
                  desc
                  req)
                (arb_query_master_slave lists disks calls mgr m w desc req))
          (arb_uuid_lock lists disks m w desc.uuid)
  unfolding arb_select_master_slave arb_query_master_slave
  masters-Follow refs m w desc req o small =
      let (l, locks, opens) = open_impl-Opens refs m w desc.uuid true o small in
      (
        l,
        locks,
        (
          answer-Answered calls.sel_ms refs m w desc req l opens,
          answer-Answered calls.query_ms refs m w desc req l opens,
        ),
      )

  -- If the manager agrees with the references of others, each node has fewer than 2^32 - 1 of them and each
  -- disk is linked to its lock, arb_disk_remove ends as what is done to the disk of the uuid alone: it is the
  -- one that is there already, or the file that is loaded but never created, and the pair is removed from
  -- it. If there is no file, nothing is removed; the lock is given back once in both cases.
  pub arb_disk_remove-Follows :
      (refs : ℕ → ℕ) (m : Manager T L (DiskInst F)) (w : W) (desc : Desc)
      → Owned lists disks calls law mgr refs m
      → ((a : ℕ) → refs a + 1 < 2 ^ 32)
      → Returns
          (λ l.
            Follows
              (Removed refs l.0)
              (remove_request calls mgr l.2 l.0 (disk_of lists disks law m desc.uuid) desc)
              (arb_disk_remove lists disks calls mgr m w desc))
          (arb_uuid_lock lists disks m w desc.uuid)
  unfolding arb_disk_remove remove_request
  arb_disk_remove-Follows refs m w desc o small =
      let (l, locks, opens) = open_impl-Opens refs m w desc.uuid false o small in
      (
        l,
        locks,
        Follows-bind (Opens lists disks calls law mgr refs l.0) (Removed refs l.0) _
            (arb_disk_open_impl lists disks calls mgr m w desc.uuid false) _ _ opens
            (detached-Removed refs l.0 desc),
      )
