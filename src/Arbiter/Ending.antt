-- ===== src/Arbiter/Ending.antt =====
-- arb_disk_init and arb_uuid_mgr_fini of src/duallive/arbitrary_disk.c.
use duallive.Base.{
  ℕ, subst, ◌+◌, ◌≡◌, refl, ap, ◌∙◌, arith, inl, inr, List, [], ◌∷◌, eq→==, Option, none, some,
  Option-cases, ok, Returns, true, false, Bool-cases, ◌⊎◌,
}
use duallive.ArbUuid.{Lists, Disks, Node, Manager, cache_cleanup}
use duallive.ArbUuid.Sound.{Lawful, Sound, each_node, occurs, once, Fits}
use duallive.ArbUuid.Cleanup.{cache_cleanup-Cleaned}
use duallive.ArbUuid.Change.{none-some}
use duallive.Arbiter.{
  LockFile, put_flock, get_flock, arb_uuid_mgr_init, arb_uuid_mgr_fini, arb_disk_init,
}

-- Nobody holds a node.
abbrev pub nobody : ℕ → ℕ
nobody a = 0

module _ {T L W D : Type 0} (lists : Lists T L) (disks : Disks W D) (lock : LockFile W)
    (law : Lawful lists) where
  no_nodes :
      {m : Manager T L D} (s : Sound lists law nobody nobody m)
      → law.elements m.cache ≡ []
      → (a : ℕ) (n : Node D) → m.nodes a ≡ some n
      → ⊥
  unfolding occurs
  no_nodes {m} s empty a n e =
      let (ref, cached, at, finds, less) = each_node lists law s a n e in
      let one : occurs a (law.elements m.cache) ≡ 1 = at ∙ ap once cached in
      let zero : occurs a (law.elements m.cache) ≡ 0 = ap (occurs a) empty in
      absurd (omega (arith, one, zero))

  no_tree :
      {m : Manager T L D} (s : Sound lists law nobody nobody m)
      → law.elements m.cache ≡ []
      → lists.avl_numnodes m.tree ≡ 0
  no_tree {m} s empty = law.numnodes_none m.tree (λ u.
      elim (Option-cases (lists.avl_find m.tree u)) [
        | inl e ↦ e
        | inr (a, e) ↦
            let (n, there, is_u) = s.from_tree u a e in absurd (no_nodes s empty a n there)
      ])

  -- A tree without nodes finds none.
  all_gone :
      {m : Manager T L D} (s : Sound lists law nobody nobody m)
      → lists.avl_numnodes m.tree ≡ 0
      → (a : ℕ) → m.nodes a ≡ none
  all_gone {m} s empty a = elim (Option-cases (m.nodes a)) [
    | inl e ↦ e
    | inr (n, e) ↦
        let (ref, cached, at, finds, less) = each_node lists law s a n e in
        absurd (omega (arith, empty, law.numnodes_remove m.tree n.uuid a finds))
  ]

  occurs_none : (c : List ℕ) → ((a : ℕ) → occurs a c ≡ 0) → c ≡ []
  unfolding occurs
  occurs_none [] none_in = refl
  occurs_none (a ∷ c) none_in =
      let here : occurs a (a ∷ c) ≡ occurs a c + 1 = rw (occurs, eq→== a a refl) refl in
      absurd (omega (arith, here, none_in a))

  cache_empty :
      {m : Manager T L D} (s : Sound lists law nobody nobody m)
      → ((a : ℕ) → m.nodes a ≡ none)
      → law.elements m.cache ≡ []
  cache_empty {m} s gone = occurs_none (law.elements m.cache) λ a.
      let fits =
        subst (Fits lists law 0 0 (occurs a (law.elements m.cache)) m.tree m.next a) (gone a)
          (s.each a) in
      fits.2

  -- What is left after cache_cleanup with the limit 0, when nobody holds a node.
  pub record Emptied (m : Manager T L D) : Type 0 where
    pub gone : (a : ℕ) → m.nodes a ≡ none
    pub no_entry : lists.avl_numnodes m.tree ≡ 0
    pub no_cache : law.elements m.cache ≡ []

  -- Where nobody holds a node, arb_uuid_mgr_fini returns: cache_cleanup frees each node, so
  -- that the VERIFY on the number of nodes holds, and list_destroy and avl_destroy are called on
  -- what is empty. The last that is done is to unlock the file of the lock that was given.
  pub arb_uuid_mgr_fini-Empties :
      (fd : ℕ) (m : Manager T L D) (w : W)
      → Sound lists law nobody nobody m
      → Returns
          (λ r.
            Emptied r.0 × (arb_uuid_mgr_fini lists disks lock fd m w ≡ ok (put_flock lock r.1 fd)))
          (cache_cleanup lists disks m w 0)
  unfolding arb_uuid_mgr_fini
  arb_uuid_mgr_fini-Empties fd m w s =
      let (r, cleans, c) = cache_cleanup-Cleaned lists disks law m w 0 s in
      let no_entry : lists.avl_numnodes r.0.tree ≡ 0 = elim (c.bounded) [
        | inl few ↦ omega (arith, few)
        | inr empty ↦ no_tree c.sound empty
      ] in
      let gone = all_gone c.sound no_entry in
      let no_cache = cache_empty c.sound gone in
      (
        r,
        cleans,
        (
          record { gone = gone; no_entry = no_entry; no_cache = no_cache },
          rw
              (
                cleans,
                eq→== (lists.avl_numnodes r.0.tree) 0 no_entry,
                law.destroy_list r.0.cache no_cache,
                law.destroy_tree r.0.tree no_entry,
              )
              refl,
        ),
      )

  -- What arb_disk_init makes of the lock: none is kept, or it is taken.
  abbrev pub Started : W → Option (ℕ × Manager T L D) × W → Type 0
  Started w r =
      let w1 = (lock.make_workspace w).1 in
      elim (r.0) [
        | none ↦
            ((lock.make_workspace w).0 ≡ false)
            ⊎ ((lock.open_lock w1).0 ≡ none)
            ⊎ ((fd : ℕ) × (w2 : W) × (lock.open_lock w1 ≡ (some fd, w2))
                × ((lock.flock w2 fd).0 ≡ false)
                × (r.1 ≡ lock.close (lock.flock w2 fd).1 fd))
        | some (fd, m) ↦
            ((lock.make_workspace w).0 ≡ true)
            × ((lock.open_lock w1).0 ≡ some fd)
            × ((lock.flock (lock.open_lock w1).1 fd).0 ≡ true)
            × Sound lists law nobody nobody m
      ]

  pub new_manager-Sound :
      Sound {D = D} lists law nobody nobody
        (record { tree = lists.avl_create; cache = lists.list_create; nodes = λ a. none; next = 0 })
  unfolding occurs
  new_manager-Sound = record {
    within = λ a. omega arith;
    each = λ a. (refl, refl, ap (occurs a) law.elements_create);
    from_tree = λ u a found. absurd (none-some (law.find_create u) found);
  }

  -- arb_disk_init starts the arbiter only if the directory is made, the file of the lock opened and its
  -- lock taken, and then the new manager agrees with nodes that nobody holds. Else one of these failed; if
  -- it is the lock, the file is closed again.
  pub arb_disk_init-Starts : (w : W) → Started w (arb_disk_init lists disks lock w)
  unfolding arb_disk_init arb_uuid_mgr_init get_flock
  arb_disk_init-Starts w = elim (Bool-cases (lock.make_workspace w).0) [
    | inr failed ↦ rw (arb_disk_init, failed) (inl failed)
    | inl made ↦
        let w1 = (lock.make_workspace w).1 in
        elim (Option-cases (lock.open_lock w1).0) [
          | inl no_fd ↦
              rw (arb_disk_init, made, arb_uuid_mgr_init, get_flock, no_fd) (inr (inl no_fd))
          | inr (fd, is_fd) ↦
              let w2 = (lock.open_lock w1).1 in
              elim (Bool-cases (lock.flock w2 fd).0) [
                | inl taken ↦
                    rw (arb_disk_init, made, arb_uuid_mgr_init, get_flock, is_fd, taken)
                      (made, is_fd, taken, new_manager-Sound)
                | inr busy ↦
                    rw (arb_disk_init, made, arb_uuid_mgr_init, get_flock, is_fd, busy)
                      (inr (
                        inr (
                          fd,
                          w2,
                          ap (λ o. (o, w2)) is_fd,
                          busy,
                          rw (get_flock, is_fd, busy) refl,
                        )))
              ]
        ]
  ]
