-- ===== src/Arbiter.antt =====
-- The calls of the arbiter on its disks: arb_disk_open, arb_disk_close, arb_disk_remove and what is
-- built on them in src/duallive/arbitrary_disk.c. There is one manager, at the address `mgr`. A disk that
-- is open is named by the address of the lock that it hangs on; an address is never 0.
pub mod Held
pub mod Spec
pub mod Opening
pub mod Sessions
pub mod Ending
use duallive.Base.{
  ℕ, zero, suc, ◌==◌, Bool, true, false, if◌then◌else◌, List, [], ◌∷◌, Option, none, some, Outcome,
  ok, fault, out_of_bounds, verify_failed, verify, ◌>>=◌, ◌>>◌,
}
use duallive.Base.Memory.{Bytes}
use duallive.Duallive.{Uuid, Ver, Desc}
use duallive.ArbUuid.{
  Lists, Disks, Node, Manager, node_at, set_node, cache_cleanup, arb_uuid_lock, arb_uuid_unlock,
}

-- arb_disk_inst_t; `F` is a file_map_t, and `none` is NULL.
pub record DiskInst (F : Type 0) : Type 0 where
  pub fm : F
  pub mgr : Option ℕ
  pub lock : Option ℕ
  -- the offset of the record in the file
  pub dli : Option ℕ
  pub desc : Option Desc

-- p == a, for a pointer p.
abbrev pub points_to : Option ℕ → ℕ → Bool
points_to none a = false
points_to (some b) a = b == a

abbrev pub is_set : Option ℕ → Bool
is_set none = false
is_set (some a) = true

-- An operation on an open disk: what it answers, and what it makes of the file.
abbrev pub Op : Type 0 → Type 0 → Type 0
Op W F = W → DiskInst F → Ver → Outcome (Ver × F × W)

-- What is done with the file of a disk, over the state of the operating system.
pub record DiskCalls (W F : Type 0) : Type 0 where
  -- arb_disk_load, the `fm` of what it returns, whose other members are NULL; `none` is NULL
  pub load : W → Uuid → Bool → Outcome (Option F × W)
  pub insert_dli : W → F → Desc → Outcome (Option ℕ × F × W)
  pub remove_dli : W → F → Desc → Outcome (F × W)
  pub sel_ms : Op W F
  pub query_ms : Op W F

-- The lock file and the directory of the arbiter's files.
pub record LockFile (W : Type 0) : Type 0 where
  pub open_lock : W → Option ℕ × W
  -- whether the lock was taken, without waiting
  pub flock : W → ℕ → Bool × W
  pub flock_un : W → ℕ → W
  pub close : W → ℕ → W
  -- shell("mkdir -p ..."), whether it returned 0
  pub make_workspace : W → Bool × W

module _ {W : Type 0} (lock : LockFile W) where
  -- flock and close of -1, where the file cannot be opened, do nothing.
  pub get_flock : W → Option ℕ × W
  get_flock w =
      let (fd, w) = lock.open_lock w in
      elim fd [
        | none ↦ (none, w)
        | some fd ↦
            let (taken, w) = lock.flock w fd in
            if taken then (some fd, w) else (none, lock.close w fd)
      ]

  pub put_flock : W → ℕ → W
  put_flock w fd = lock.flock_un w fd

module _ {T L W F : Type 0} (lists : Lists T L) (disks : Disks W (DiskInst F))
    (calls : DiskCalls W F) (mgr : ℕ) where
  abbrev pub Arb : Type 0
  Arb = Manager T L (DiskInst F)

  -- lock->disk = disk, or a change of what it points to.
  pub set_disk : Arb → ℕ → DiskInst F → Outcome Arb
  set_disk m a d = do
    n ← node_at lists disks m a
    ok (set_node lists disks m a (record n { disk = some d }))

  -- The disk of a lock, which is not NULL.
  pub disk_at : Arb → ℕ → Outcome (DiskInst F)
  disk_at m a = do
    n ← node_at lists disks m a
    elim (n.disk) [ none ↦ fault out_of_bounds | some d ↦ ok d ]

  -- The disk that arb_disk_load returns, with its links.
  abbrev pub linked : F → ℕ → DiskInst F
  linked fm a = record { fm = fm; mgr = some mgr; lock = some a; dli = none; desc = none }

  -- What arb_disk_open_impl does where lock->disk is NULL.
  pub load_disk : Arb → W → ℕ → Uuid → Bool → Outcome (Option ℕ × Arb × W)
  unfolding set_disk
  load_disk m w a uuid create = do
    (disk, w) ← calls.load w uuid create
    elim disk [
      | some fm ↦ do m ← set_disk m a (linked fm a); ok (some a, m, w)
      | none ↦ do (m, w) ← arb_uuid_unlock lists disks m w a; ok (none, m, w)
    ]

  -- arb_disk_open_impl with the lock.
  pub open_locked : Arb → W → ℕ → Uuid → Bool → Outcome (Option ℕ × Arb × W)
  unfolding load_disk
  open_locked m w a uuid create = do
    n ← node_at lists disks m a
    elim (n.disk) [
      | some d ↦ do verify (points_to d.mgr mgr); verify (points_to d.lock a); ok (some a, m, w)
      | none ↦ load_disk m w a uuid create
    ]

  pub arb_disk_open_impl : Arb → W → Uuid → Bool → Outcome (Option ℕ × Arb × W)
  unfolding open_locked
  arb_disk_open_impl m w uuid create = do
    (a, m, w) ← arb_uuid_lock lists disks m w uuid
    open_locked m w a uuid create

  -- arb_disk_open with the disk, from its call of arb_disk_insert_dli on.
  pub attach : Arb → W → ℕ → Desc → Outcome (Arb × W)
  unfolding disk_at set_disk
  attach m w a desc = do
    d ← disk_at m a
    (dli, fm, w) ← calls.insert_dli w d.fm desc
    verify (is_set dli)
    m ← set_disk m a (record d { fm = fm; dli = dli; desc = some desc })
    ok (m, w)

  -- arb_disk_open from its first VERIFY on.
  pub attach_opened : Option ℕ → Arb → W → Desc → Outcome (ℕ × Arb × W)
  unfolding attach
  attach_opened none m w desc = fault verify_failed
  attach_opened (some a) m w desc = do (m, w) ← attach m w a desc; ok (a, m, w)

  pub arb_disk_open : Arb → W → Desc → Outcome (ℕ × Arb × W)
  unfolding attach_opened
  arb_disk_open m w desc = do
    (disk, m, w) ← arb_disk_open_impl m w desc.uuid true
    attach_opened disk m w desc

  -- arb_uuid_unlock of disk->lock.
  pub unlock_disk : Arb → W → Option ℕ → Outcome (Arb × W)
  unlock_disk m w none = fault out_of_bounds
  unlock_disk m w (some a) = arb_uuid_unlock lists disks m w a

  pub arb_disk_close : Arb → W → ℕ → Outcome (Arb × W)
  unfolding disk_at set_disk unlock_disk
  arb_disk_close m w a = do
    d ← disk_at m a
    m ← set_disk m a (record d { dli = none; desc = none })
    unlock_disk m w d.lock

  -- arb_disk_remove_dli on the disk.
  pub detach : Arb → W → ℕ → Desc → Outcome (Arb × W)
  unfolding disk_at set_disk
  detach m w a desc = do
    d ← disk_at m a
    (fm, w) ← calls.remove_dli w d.fm desc
    m ← set_disk m a (record d { fm = fm })
    ok (m, w)

  -- arb_disk_remove from its test on.
  pub detach_opened : Option ℕ → Arb → W → Desc → Outcome (Arb × W)
  unfolding detach
  detach_opened none m w desc = ok (m, w)
  detach_opened (some a) m w desc = do (m, w) ← detach m w a desc; arb_disk_close m w a

  -- Also arb_remove_duallive.
  pub arb_disk_remove : Arb → W → Desc → Outcome (Arb × W)
  unfolding detach_opened
  arb_disk_remove m w desc = do
    (disk, m, w) ← arb_disk_open_impl m w desc.uuid false
    detach_opened disk m w desc

  pub operate : Op W F → Arb → W → ℕ → Ver → Outcome (Ver × Arb × W)
  unfolding disk_at set_disk
  operate op m w a req = do
    d ← disk_at m a
    (rsp, fm, w) ← op w d req
    m ← set_disk m a (record d { fm = fm })
    ok (rsp, m, w)

  -- What arb_disk_open returns is not NULL: VERIFY(disk) holds.
  pub arb_select_ms_impl : Op W F → Arb → W → Desc → Ver → Outcome (Ver × Arb × W)
  unfolding operate
  arb_select_ms_impl op m w desc orig_ver = do
    (a, m, w) ← arb_disk_open m w desc
    (new_ver, m, w) ← operate op m w a orig_ver
    (m, w) ← arb_disk_close m w a
    ok (new_ver, m, w)

  unfoldable pub arb_select_master_slave : Arb → W → Desc → Ver → Outcome (Ver × Arb × W)
  arb_select_master_slave m w desc orig_ver = arb_select_ms_impl calls.sel_ms m w desc orig_ver

  unfoldable pub arb_query_master_slave : Arb → W → Desc → Ver → Outcome (Ver × Arb × W)
  arb_query_master_slave m w desc orig_ver = arb_select_ms_impl calls.query_ms m w desc orig_ver

module _ {T L W D : Type 0} (lists : Lists T L) (disks : Disks W D) (lock : LockFile W) where
  -- mgr->arblock and the rest of the manager; `none` if another process holds the lock.
  pub arb_uuid_mgr_init : W → Option (ℕ × Manager T L D) × W
  unfolding get_flock
  arb_uuid_mgr_init w =
      let (fd, w) = get_flock lock w in
      elim fd [
        | none ↦ (none, w)
        | some fd ↦ (
          some (
            fd,
            record {
              tree = lists.avl_create;
              cache = lists.list_create;
              nodes = λ a. none;
              next = 0;
            },
          ),
          w,
        )
      ]

  -- Also arb_disk_fini, of the one manager.
  pub arb_uuid_mgr_fini : ℕ → Manager T L D → W → Outcome W
  unfolding put_flock
  arb_uuid_mgr_fini arblock m w = do
    (m, w) ← cache_cleanup lists disks m w 0
    verify (lists.avl_numnodes m.tree == 0)
    lists.list_destroy m.cache
    lists.avl_destroy m.tree
    ok (put_flock lock w arblock)

  pub arb_disk_init : W → Option (ℕ × Manager T L D) × W
  unfolding arb_uuid_mgr_init
  arb_disk_init w =
      let (made, w) = lock.make_workspace w in if made then arb_uuid_mgr_init w else (none, w)
