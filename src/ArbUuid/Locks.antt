-- ===== src/ArbUuid/Locks.antt =====
-- arb_uuid_lock of src/duallive/arbitrary_disk.c.
use duallive.Base.{
  ℕ, ◌+◌, ◌^◌, ◌<◌, ◌≡◌, refl, sym, ap, subst, ◌∙◌, arith, inl, inr, false, ◌==◌, Bool-cases, ==→eq,
  none, some, Option, Option-cases, ok, Returns, bind_assoc,
}
use duallive.Duallive.{Uuid}
use duallive.ArbUuid.{
  Lists, Disks, Node, Manager, update, set_node, uuid_lock_alloc, max_uuid_num, take_ref, wake,
  arb_uuid_lock,
}
use duallive.ArbUuid.Sound.{Lawful, Fits, Sound, each_node, occurs, plus}
use duallive.ArbUuid.Change.{Changes-Sound}
use duallive.ArbUuid.Arrival.{Arrives, Arrives-Sound}
use duallive.ArbUuid.Members.{some_is}
use duallive.ArbUuid.Cleanup.{cache_cleanup-Cleaned}
use duallive.ArbUuid.References.{
  itself, another, known, more_at, lock_found, take_ref-Changes, Changes-known,
}

module _ {T L W D : Type 0} (lists : Lists T L) (disks : Disks W D) (law : Lawful lists) where
  fresh_node :
      {refs pins : ℕ → ℕ} (m : Manager T L D) → Sound lists law refs pins m → m.nodes m.next ≡ none
  fresh_node {refs} {pins} m s = elim (Option-cases (m.nodes m.next)) [
    | inl e ↦ e
    | inr (n, e) ↦ let old = each_node lists law s m.next n e in absurd (omega (arith, old.4))
  ]

  fresh_none :
      {refs pins : ℕ → ℕ} (m : Manager T L D) (s : Sound lists law refs pins m)
      → (refs m.next ≡ 0) × (pins m.next ≡ 0) × (occurs m.next (law.elements m.cache) ≡ 0)
  fresh_none {refs} {pins} m s =
      subst
        (Fits lists law (refs m.next) (pins m.next) (occurs m.next (law.elements m.cache)) m.tree
          m.next m.next)
        (fresh_node m s) (s.each m.next)

  -- The manager with a new node.
  abbrev with_new : Manager T L D → Uuid → Manager T L D
  with_new m u = record m {
    tree = lists.avl_insert m.tree u m.next;
    nodes =
        update m.nodes m.next (some (record { uuid = u; disk = none; ref = 0; cached = false }));
    next = m.next + 1;
  }

  new-Sound :
      {refs : ℕ → ℕ} (m : Manager T L D) (u : Uuid)
      → Sound lists law refs refs m
      → lists.avl_find m.tree u ≡ none
      → Sound lists law refs (plus refs m.next) (with_new m u)
  new-Sound {refs} m u s absent =
      let (no_refs, no_pins, not_cached) = fresh_none m s in
      let n0 : Node D = record { uuid = u; disk = none; ref = 0; cached = false } in
      let l : Arrives lists law refs refs refs (plus refs m.next) m (with_new m u) m.next n0 =
        record {
          absent = absent;
          no_node = fresh_node m s;
          there = itself m.next (some n0) (m.nodes m.next);
          ref = sym no_refs;
          status = sym (more_at refs m.next);
          in_cache = not_cached;
          tree = refl;
          next = refl;
          below = omega arith;
          elsewhere = record {
            within = λ b. ground arith;
            refs_same = λ b other. refl;
            pins_same = λ b other. another _ _ other;
            cache_same = λ b other. refl;
            nodes_same = λ b other. another _ _ other;
          };
        } in
      Arrives-Sound lists law s l

  -- The disk of a uuid: that of the node that the tree finds.
  abbrev pub disk_of : Manager T L D → Uuid → Option D
  disk_of m u = elim (lists.avl_find m.tree u) [
    | none ↦ none
    | some a ↦ elim (m.nodes a) [ none ↦ none | some n ↦ n.disk ]
  ]

  -- What arb_uuid_lock leaves: the node is that of the uuid, with one reference more and the disk of the
  -- uuid, and the nodes that were held keep their uuids and disks.
  pub record Locked (refs : ℕ → ℕ) (m : Manager T L D) (u : Uuid) (a : ℕ) (m' : Manager T L D)
      : Type 0 where
    pub sound : Sound lists law (plus refs a) (plus refs a) m'
    pub node : (n : Node D) × (m'.nodes a ≡ some n) × (n.uuid ≡ u)
    pub disk : (n : Node D) → m'.nodes a ≡ some n → n.disk ≡ disk_of m u
    pub kept : (b : ℕ) → 0 < refs b → known (m'.nodes b) ≡ known (m.nodes b)

  more_held : (refs : ℕ → ℕ) (a b : ℕ) → 0 < refs b → 0 < plus refs a b
  more_held refs a b held = ground arith

  new_kept :
      {refs : ℕ → ℕ} (m : Manager T L D) (u : Uuid) (s : Sound lists law refs refs m) (b : ℕ)
      → 0 < refs b
      → known ((with_new m u).nodes b) ≡ known (m.nodes b)
  new_kept {refs} m u s b held = elim (Bool-cases (m.next == b)) [
    | inl same ↦ absurd (omega (arith, held, (fresh_none m s).0, ap refs (==→eq m.next b same)))
    | inr other ↦ ap known (another _ _ other)
  ]

  -- If the manager agrees with the nodes that are held, and each is held fewer than 2^32 - 1 times,
  -- arb_uuid_lock returns without a fault a node of the uuid, with its disk and with one reference more. The manager agrees
  -- again, and the nodes that were held keep their uuids and disks.
  pub arb_uuid_lock-Locked :
      {refs : ℕ → ℕ} (m : Manager T L D) (w : W) (u : Uuid)
      → Sound lists law refs refs m
      → ((a : ℕ) → refs a + 1 < 2 ^ 32)
      → Returns (λ r. Locked refs m u r.0 r.1) (arb_uuid_lock lists disks m w u)
  unfolding arb_uuid_lock uuid_lock_alloc set_node
  arb_uuid_lock-Locked {refs} m w u s small = elim (Option-cases (lists.avl_find m.tree u)) [
    | inr (a, found) ↦
        let (n, there, is_u) = s.from_tree u a found in
        let (m', returns, l) = lock_found lists disks law m a n s there (small a) in
        rw
          (
            arb_uuid_lock,
            found,
            ← bind_assoc {C = ℕ × Manager T L D × W} (wake lists disks m a)
                (λ m. take_ref lists disks m a) (λ m. ok (a, m, w)),
            returns,
          )
          (
            (a, m', w),
            refl,
            record {
              sound = Changes-Sound lists law s l;
              node = (_, l.there, is_u);
              disk = λ k e.
                  ap (λ k. k.disk) (some_is (sym e ∙ l.there)) ∙ rw (disk_of, found, there) refl;
              kept = λ b held. Changes-known lists disks law l refl b;
            },
          )
    | inl absent ↦
        let s1 = new-Sound m u s absent in
        let a = m.next in
        let n0 : Node D = record { uuid = u; disk = none; ref = 0; cached = false } in
        let (r, cleans, c) =
          cache_cleanup-Cleaned lists disks law (with_new m u) w max_uuid_num s1 in
        let there =
          c.kept a (omega (arith, itself a (refs a + 1) (refs a)))
          ∙ itself a (some n0) (m.nodes a) in
        let (m', takes, l) = take_ref-Changes lists disks law r.0 a n0 c.sound there (small a) in
        rw (arb_uuid_lock, absent, cleans, takes)
          (
            (a, m', r.1),
            refl,
            record {
              sound = Changes-Sound lists law c.sound l;
              node = (_, l.there, refl);
              disk =
                  λ k e. ap (λ k. k.disk) (some_is (sym e ∙ l.there)) ∙ rw (disk_of, absent) refl;
              kept = λ b held.
                  Changes-known lists disks law l refl b
                  ∙ ap known (c.kept b (more_held refs a b held))
                  ∙ new_kept m u s b held;
            },
          )
  ]
