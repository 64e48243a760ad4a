-- ===== src/ArbUuid.antt =====
-- The manager of the arbiter's locks and of its cache of files, one for each uuid: arb_uuid_lock,
-- arb_uuid_unlock and cache_cleanup of src/duallive/arbitrary_disk.c. Each definition is what runs while
-- mgr->mtx is held; the mutex of a node is taken after arb_uuid_lock's part and given back before
-- arb_uuid_unlock's.
pub mod Sound
pub mod Change
pub mod Cleanup
pub mod Arrival
pub mod References
pub mod Locks
pub mod Unlock
pub mod Runs
pub mod Members
use duallive.Base.{
  ℕ, zero, suc, ◌+◌, ◌-◌, ◌%◌, Bool, true, false, not, ltb, ◌==◌, ◌&&◌, if◌then◌else◌, Option, none,
  some, Outcome, ok, fault, out_of_bounds, out_of_fuel, verify, ◌>>=◌, ◌>>◌,
}
use duallive.Kmem.{u32_mod}
use duallive.Duallive.{Uuid}

-- The calls of avl.c and list.c. A node is its address.
pub record Lists (T L : Type 0) : Type 0 where
  pub avl_create : T
  pub list_create : L
  pub avl_find : T → Uuid → Option ℕ
  pub avl_insert : T → Uuid → ℕ → T
  pub avl_remove : T → Uuid → T
  pub avl_numnodes : T → ℕ
  pub avl_destroy : T → Outcome (Unit {0})
  pub list_is_empty : L → Bool
  pub list_remove_head : L → Option ℕ × L
  pub list_remove : L → ℕ → L
  pub list_insert_tail : L → ℕ → L
  pub list_destroy : L → Outcome (Unit {0})

-- What the manager does with a disk that is not NULL, over the state of the operating system.
pub record Disks (W D : Type 0) : Type 0 where
  -- whether the file is mapped and holds a pair
  pub holds_pairs : W → D → Bool
  -- arb_disk_unload
  pub unload : W → D → W

-- arb_uuid_lock_t, without its links and its mutex.
pub record Node (D : Type 0) : Type 0 where
  pub uuid : Uuid
  pub disk : Option D
  pub ref : ℕ
  pub cached : Bool

-- arb_uuid_mgr_t, and the nodes that kmem_alloc has handed out. An address from `next` on was never
-- handed out; one that was freed is not handed out again, so that its use is a fault.
pub record Manager (T L D : Type 0) : Type 0 where
  pub tree : T
  pub cache : L
  pub nodes : ℕ → Option (Node D)
  pub next : ℕ

-- ARB_MAX_UUID_NUM
abbrev pub max_uuid_num : ℕ
max_uuid_num = 4096

abbrev pub update {ℓ} : {A : Type ℓ} → (ℕ → Option A) → ℕ → Option A → ℕ → Option A
update f a v b = if a == b then v else f b

module _ {T L W D : Type 0} (lists : Lists T L) (disks : Disks W D) where
  unfoldable pub node_at : Manager T L D → ℕ → Outcome (Node D)
  node_at m a = elim (m.nodes a) [ none ↦ fault out_of_bounds | some n ↦ ok n ]

  unfoldable pub set_node : Manager T L D → ℕ → Node D → Manager T L D
  set_node m a n = record m { nodes = update m.nodes a (some n) }

  -- The address, and the manager with the node.
  pub uuid_lock_alloc : Manager T L D → Uuid → ℕ × Manager T L D
  unfolding set_node
  uuid_lock_alloc m uuid = (
    m.next,
    record (set_node m m.next (record { uuid = uuid; disk = none; ref = 0; cached = false })) {
      next = m.next + 1;
    },
  )

  pub uuid_lock_free : Manager T L D → ℕ → Manager T L D
  uuid_lock_free m a = record m { nodes = update m.nodes a none }

  abbrev pub unload_disk : W → Option D → W
  unload_disk w none = w
  unload_disk w (some d) = disks.unload w d

  pub uuid_lock_cachable : W → Node D → Bool
  uuid_lock_cachable w n = elim (n.disk) [ none ↦ false | some d ↦ disks.holds_pairs w d ]

  -- The node leaves the tree, and it is freed with its disk.
  pub drop_node : Manager T L D → W → ℕ → Outcome (Manager T L D × W)
  unfolding node_at uuid_lock_free
  drop_node m w a = do
    n ← node_at m a
    let m = record m { tree = lists.avl_remove m.tree n.uuid }
    ok (uuid_lock_free m a, unload_disk w n.disk)

  -- The loop of cache_cleanup, a round for each node that goes.
  pub cleanup_loop : ℕ → Manager T L D → W → ℕ → Outcome (Manager T L D × W)
  unfolding drop_node
  cleanup_loop zero m w limit =
      if ltb limit (lists.avl_numnodes m.tree) && not (lists.list_is_empty m.cache)
      then fault out_of_fuel
      else ok (m, w)
  cleanup_loop (suc fuel) m w limit =
      if ltb limit (lists.avl_numnodes m.tree) && not (lists.list_is_empty m.cache)
      then (let (head, cache) = lists.list_remove_head m.cache in
          elim head [
            | none ↦ fault out_of_bounds
            | some a ↦ do
              (m, w) ← drop_node (record m { cache = cache }) w a
              cleanup_loop fuel m w limit
          ])
      else ok (m, w)

  pub cache_cleanup : Manager T L D → W → ℕ → Outcome (Manager T L D × W)
  unfolding cleanup_loop
  cache_cleanup m w limit = cleanup_loop (lists.avl_numnodes m.tree) m w limit

  -- n->ref++
  pub take_ref : Manager T L D → ℕ → Outcome (Manager T L D)
  unfolding node_at set_node
  take_ref m a = do n ← node_at m a; ok (set_node m a (record n { ref = (n.ref + 1) % u32_mod }))

  -- A node that was found leaves the cache.
  pub wake : Manager T L D → ℕ → Outcome (Manager T L D)
  unfolding node_at set_node
  wake m a = do
    n ← node_at m a
    if n.cached
        then ok (record (set_node m a (record n { cached = false })) {
          cache = lists.list_remove m.cache a;
        })
        else ok m

  -- The node of the uuid, to be locked next.
  pub arb_uuid_lock : Manager T L D → W → Uuid → Outcome (ℕ × Manager T L D × W)
  unfolding uuid_lock_alloc cache_cleanup take_ref wake
  arb_uuid_lock m w uuid = elim (lists.avl_find m.tree uuid) [
    | none ↦ do
      let (a, m) = uuid_lock_alloc m uuid
      (m, w) ← cache_cleanup (record m { tree = lists.avl_insert m.tree uuid a }) w max_uuid_num
      m ← take_ref m a
      ok (a, m, w)
    | some a ↦ do m ← wake m a; m ← take_ref m a; ok (a, m, w)
  ]

  -- The node that nobody refers to any more is cached or freed.
  pub retire : Manager T L D → W → ℕ → Node D → Outcome (Manager T L D × W)
  unfolding uuid_lock_cachable set_node
  retire m w a n =
      if uuid_lock_cachable w n
      then (do
        verify (not n.cached)
        let m = set_node m a (record n { cached = true })
        cache_cleanup (record m { cache = lists.list_insert_tail m.cache a }) w max_uuid_num)
      else drop_node m w a

  -- After the mutex of the node is given back.
  pub arb_uuid_unlock : Manager T L D → W → ℕ → Outcome (Manager T L D × W)
  unfolding retire node_at set_node
  arb_uuid_unlock m w a = do
    n ← node_at m a
    verify (ltb 0 n.ref)
    let n = record n { ref = n.ref - 1 }
    let m = set_node m a n
    if n.ref == 0 then retire m w a n else ok (m, w)
