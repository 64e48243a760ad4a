-- ===== src/Arbiter/Held.antt =====
-- The disk of a node that is held, in src/duallive/arbitrary_disk.c.
use duallive.Base.{
  ℕ, ◌+◌, ◌<◌, ◌≡◌, refl, ap, ◌∙◌, subst, arith, some, Option, ok, Returns, Safe-ok, eq→==, true,
}
use mathlib.Core.Path.{fun_ext}
use duallive.ArbUuid.{Lists, Disks, Node, Manager, node_at, set_node, update, arb_uuid_unlock}
use duallive.ArbUuid.Sound.{Lawful, Sound, each_node, plus, minus}
use duallive.ArbUuid.Change.{Changes, Changes-Sound}
use duallive.ArbUuid.Members.{Members, update-Members, arb_uuid_unlock-Members, some_is}
use duallive.ArbUuid.Unlock.{arb_uuid_unlock-Unlocked}
use duallive.ArbUuid.References.{itself, another}
use duallive.Arbiter.{DiskInst, DiskCalls, points_to, set_disk, disk_at}

given_back : (refs : ℕ → ℕ) (a : ℕ) → minus (plus refs a) a ≡ refs
given_back refs a = fun_ext (λ b. ground arith)

pub points : (a : ℕ) {p : Option ℕ} → p ≡ some a → points_to p a ≡ true
points a e = rw e (eq→== a a refl)

module _ {T L W F : Type 0} (lists : Lists T L) (disks : Disks W (DiskInst F))
    (calls : DiskCalls W F) (law : Lawful lists) (mgr : ℕ) where
  -- What arb_disk_open_impl asserts of the disk of a lock.
  abbrev pub Linked : ℕ → DiskInst F → Type 0
  Linked a d = (d.mgr ≡ some mgr) × (d.lock ≡ some a)

  -- The manager agrees with the references, and each disk is linked to its lock.
  pub record Owned (refs : ℕ → ℕ) (m : Manager T L (DiskInst F)) : Type 0 where
    pub sound : Sound lists law refs refs m
    pub linked : Members lists disks Linked m.nodes

  -- The node at `a` is held, with the disk `d`.
  pub record Open (refs : ℕ → ℕ) (a : ℕ) (m : Manager T L (DiskInst F)) (d : DiskInst F)
      : Type 0 where
    pub owned : Owned refs m
    pub held : 0 < refs a
    pub node : Node (DiskInst F)
    pub there : m.nodes a ≡ some node
    pub has_disk : node.disk ≡ some d

  pub Open-Linked :
      {refs : ℕ → ℕ} {a : ℕ} {m : Manager T L (DiskInst F)} {d : DiskInst F}
      → Open refs a m d
      → Linked a d
  Open-Linked {a} {d} o = o.owned.linked a o.node d o.there o.has_disk

  pub set_disk-Open :
      {refs : ℕ → ℕ} (m : Manager T L (DiskInst F)) (a : ℕ) (n : Node (DiskInst F)) (d : DiskInst F)
      → Owned refs m
      → 0 < refs a
      → m.nodes a ≡ some n
      → Linked a d
      → Returns (λ m'. Open refs a m' d) (set_disk lists disks calls mgr m a d)
  unfolding set_disk node_at set_node
  set_disk-Open {refs} m a n d o held there good =
      let s = o.sound in
      let old = each_node lists law s a n there in
      let n' = record n { disk = some d } in
      let m' = record m { nodes = update m.nodes a (some n') } in
      let l : Changes lists law refs refs refs refs m m' a n n' = record {
        here = there;
        there = itself a (some n') (m.nodes a);
        same_uuid = refl;
        ref = old.0;
        status = old.1;
        in_cache = old.2;
        tree = refl;
        next = refl;
        elsewhere = record {
          within = λ b. omega arith;
          refs_same = λ b other. refl;
          pins_same = λ b other. refl;
          cache_same = λ b other. refl;
          nodes_same = λ b other. another _ _ other;
        };
      } in
      (
        m',
        rw (set_disk, node_at, there) refl,
        record {
          owned = record {
            sound = Changes-Sound lists law s l;
            linked =
                update-Members lists disks Linked m.nodes a (some n')
                  (λ k d' is_k is_d.
                    subst (Linked a) (some_is (ap (λ k. k.disk) (some_is is_k) ∙ is_d)) good)
                  o.linked;
          };
          held = held;
          node = n';
          there = l.there;
          has_disk = refl;
        },
      )

  pub disk_at-Open :
      {refs : ℕ → ℕ} {a : ℕ} {m : Manager T L (DiskInst F)} {d : DiskInst F}
      → Open refs a m d
      → disk_at lists disks calls mgr m a ≡ ok d
  unfolding disk_at node_at
  disk_at-Open {m} o = rw (disk_at, node_at, o.there, o.has_disk) refl

  pub write-Open :
      {refs : ℕ → ℕ} {a : ℕ} {m : Manager T L (DiskInst F)} {d : DiskInst F}
      → Open refs a m d
      → (d' : DiskInst F) → Linked a d'
      → Returns (λ m'. Open refs a m' d') (set_disk lists disks calls mgr m a d')
  write-Open {refs} {a} {m} o d' good = set_disk-Open m a o.node d' o.owned o.held o.there good

  -- The reference that was taken is given back.
  pub unlock-Owned :
      {refs : ℕ → ℕ} (m : Manager T L (DiskInst F)) (w : W) (a : ℕ)
      → Owned (plus refs a) m
      → Returns (λ r. Owned refs r.0) (arb_uuid_unlock lists disks m w a)
  unlock-Owned {refs} m w a o =
      let held : 0 < plus refs a a = omega (arith, itself a (refs a + 1) (refs a)) in
      let (r, returns, l) = arb_uuid_unlock-Unlocked lists disks law m w a o.sound held in
      (
        r,
        returns,
        record {
          sound = subst (λ f. Sound lists law f f r.0) (given_back refs a) l.sound;
          linked =
              Safe-ok (λ r. Members lists disks Linked r.0.nodes)
                (arb_uuid_unlock-Members lists disks Linked m w a o.linked) returns;
        },
      )
