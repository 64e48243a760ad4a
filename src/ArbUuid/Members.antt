-- ===== src/ArbUuid/Members.antt =====
-- What the locks of src/duallive/arbitrary_disk.c do not do: change the disk of a node.
use duallive.Base.{
  ℕ, zero, suc, ◌+◌, ◌-◌, if◌then◌else◌, subst, ◌≡◌, refl, sym, ap, ◌∙◌, inl, inr, false, not, ltb,
  ◌==◌, ◌&&◌, Bool-cases, ==→eq, Option, none, some, Option-cases, Outcome, Safe, Safe-bind,
}
use duallive.Duallive.{Uuid}
use duallive.ArbUuid.{
  Lists, Disks, Node, Manager, update, node_at, set_node, uuid_lock_alloc, uuid_lock_free,
  uuid_lock_cachable, drop_node, cleanup_loop, cache_cleanup, max_uuid_num, take_ref, wake,
  arb_uuid_lock, retire, arb_uuid_unlock,
}
use duallive.ArbUuid.References.{itself}

none_is_some : {A : Type 0} {a : A} → ◌≡◌ {A = Option A} none (some a) → ⊥
none_is_some e = cc

pub some_is : {A : Type 0} {a b : A} → ◌≡◌ {A = Option A} (some a) (some b) → a ≡ b
some_is e = cc

module _ {T L W D : Type 0} (lists : Lists T L) (disks : Disks W D) (Good : ℕ → D → Type 0) where
  -- The disk of each node is one that may stand there.
  abbrev pub Members : (ℕ → Option (Node D)) → Type 0
  Members nodes = (a : ℕ) (n : Node D) (d : D) → nodes a ≡ some n → n.disk ≡ some d → Good a d

  pub update-Members :
      (nodes : ℕ → Option (Node D)) (a : ℕ) (v : Option (Node D))
      → ((n : Node D) (d : D) → v ≡ some n → n.disk ≡ some d → Good a d)
      → Members nodes
      → Members (update nodes a v)
  update-Members nodes a v good all b n d e is_d = elim (Bool-cases (a == b)) [
    | inl same ↦
        subst (λ c. Good c d) (==→eq a b same)
          (good n d (sym (ap (λ t. if t then v else nodes b) same) ∙ e) is_d)
    | inr other ↦ all b n d (sym (ap (λ t. if t then v else nodes b) other) ∙ e) is_d
  ]

  gone-Members :
      (nodes : ℕ → Option (Node D)) (a : ℕ) → Members nodes → Members (update nodes a none)
  gone-Members nodes a = update-Members nodes a none (λ n d e. absurd (none_is_some e))

  -- A node whose other members change.
  same-Members :
      (nodes : ℕ → Option (Node D)) (a : ℕ) (n n' : Node D)
      → nodes a ≡ some n
      → n'.disk ≡ n.disk
      → Members nodes
      → Members (update nodes a (some n'))
  same-Members nodes a n n' e same all =
      update-Members nodes a (some n')
        (λ k d is_k is_d. all a n d e (sym same ∙ ap (λ k. k.disk) (some_is is_k) ∙ is_d)) all

  pub node_at-Safe :
      (m : Manager T L D) (a : ℕ) → Safe (λ n. m.nodes a ≡ some n) (node_at lists disks m a)
  unfolding node_at
  node_at-Safe m a = elim (Option-cases (m.nodes a)) [
    | inl e ↦ rw (node_at, e) tt
    | inr (n, e) ↦ rw (node_at, e) refl
  ]

  -- After a call that returns the manager and the state.
  abbrev pub Kept : Outcome (Manager T L D × W) → Type 0
  Kept = Safe (λ r. Members r.0.nodes)

  drop_node-Kept :
      (m : Manager T L D) (w : W) (a : ℕ) → Members m.nodes → Kept (drop_node lists disks m w a)
  unfolding drop_node uuid_lock_free
  drop_node-Kept m w a all =
      Safe-bind _ _ (node_at lists disks m a) _ (node_at-Safe m a) λ n e. gone-Members m.nodes a all

  cleanup_loop-Kept :
      (fuel : ℕ) (m : Manager T L D) (w : W) (limit : ℕ)
      → Members m.nodes
      → Kept (cleanup_loop lists disks fuel m w limit)
  unfolding cleanup_loop
  cleanup_loop-Kept zero m w limit all =
      elim (Bool-cases
        (ltb limit (lists.avl_numnodes m.tree) && not (lists.list_is_empty m.cache))) [
          | inl more ↦ rw more tt
          | inr done ↦ rw done all
        ]
  cleanup_loop-Kept (suc fuel) m w limit all =
      elim (Bool-cases
        (ltb limit (lists.avl_numnodes m.tree) && not (lists.list_is_empty m.cache))) [
          | inr done ↦ rw done all
          | inl more ↦ elim (Option-cases (lists.list_remove_head m.cache).0) [
            | inl e ↦ rw (more, e) tt
            | inr (a, e) ↦
                let m1 = record m { cache = (lists.list_remove_head m.cache).1 } in
                rw (more, e)
                  (Safe-bind _ _ (drop_node lists disks m1 w a)
                    (λ r. cleanup_loop lists disks fuel r.0 r.1 limit) (drop_node-Kept m1 w a all)
                    λ r all'. cleanup_loop-Kept fuel r.0 r.1 limit all')
          ]
        ]

  pub cache_cleanup-Kept :
      (m : Manager T L D) (w : W) (limit : ℕ)
      → Members m.nodes
      → Kept (cache_cleanup lists disks m w limit)
  unfolding cache_cleanup
  cache_cleanup-Kept m w limit = cleanup_loop-Kept (lists.avl_numnodes m.tree) m w limit

  take_ref-Members :
      (m : Manager T L D) (a : ℕ)
      → Members m.nodes
      → Safe (λ m'. Members m'.nodes) (take_ref lists disks m a)
  unfolding take_ref set_node
  take_ref-Members m a all =
      Safe-bind _ _ (node_at lists disks m a) _ (node_at-Safe m a)
        λ n e. same-Members m.nodes a n _ e refl all

  wake-Members :
      (m : Manager T L D) (a : ℕ)
      → Members m.nodes
      → Safe (λ m'. Members m'.nodes) (wake lists disks m a)
  unfolding wake set_node
  wake-Members m a all = Safe-bind _ _ (node_at lists disks m a) _ (node_at-Safe m a) λ n e.
      elim (Bool-cases n.cached) [
        | inl cached ↦ rw cached (same-Members m.nodes a n _ e refl all)
        | inr awake ↦ rw awake all
      ]

  pub arb_uuid_lock-Members :
      (m : Manager T L D) (w : W) (u : Uuid)
      → Members m.nodes
      → Safe (λ r. Members r.1.nodes) (arb_uuid_lock lists disks m w u)
  unfolding arb_uuid_lock uuid_lock_alloc set_node
  arb_uuid_lock-Members m w u all = elim (Option-cases (lists.avl_find m.tree u)) [
    | inr (a, found) ↦
        rw (arb_uuid_lock, found)
          (Safe-bind _ _ (wake lists disks m a) _ (wake-Members m a all) λ m1 all1.
            Safe-bind _ _ (take_ref lists disks m1 a) _ (take_ref-Members m1 a all1)
              λ m2 all2. all2)
    | inl absent ↦
        let n0 : Node D = record { uuid = u; disk = none; ref = 0; cached = false } in
        let m1 = record m {
          tree = lists.avl_insert m.tree u m.next;
          nodes = update m.nodes m.next (some n0);
          next = m.next + 1;
        } in
        let all1 =
          update-Members m.nodes m.next (some n0)
            (λ k d is_k is_d. absurd (none_is_some (ap (λ k. k.disk) (some_is is_k) ∙ is_d))) all in
        rw (arb_uuid_lock, absent)
          (Safe-bind _ _ (cache_cleanup lists disks m1 w max_uuid_num) _
            (cache_cleanup-Kept m1 w max_uuid_num all1)
            λ r all2.
              Safe-bind _ _ (take_ref lists disks r.0 m.next) _ (take_ref-Members r.0 m.next all2)
                λ m3 all3. all3)
  ]

  retire-Kept :
      (m : Manager T L D) (w : W) (a : ℕ) (n : Node D)
      → m.nodes a ≡ some n
      → Members m.nodes
      → Kept (retire lists disks m w a n)
  unfolding retire set_node
  retire-Kept m w a n e all = elim (Bool-cases (uuid_lock_cachable lists disks w n)) [
    | inr useless ↦ rw (retire, useless) (drop_node-Kept m w a all)
    | inl cachable ↦ elim (Bool-cases n.cached) [
      | inl cached ↦ rw (retire, cachable, cached) tt
      | inr awake ↦
          rw (retire, cachable, awake)
            (cache_cleanup-Kept _ w max_uuid_num (same-Members m.nodes a n _ e refl all))
    ]
  ]

  pub arb_uuid_unlock-Members :
      (m : Manager T L D) (w : W) (a : ℕ)
      → Members m.nodes
      → Kept (arb_uuid_unlock lists disks m w a)
  unfolding arb_uuid_unlock set_node
  arb_uuid_unlock-Members m w a all =
      Safe-bind _ _ (node_at lists disks m a) _ (node_at-Safe m a) λ n e.
        elim (Bool-cases (ltb 0 n.ref)) [
          | inr none_left ↦ rw none_left tt
          | inl held ↦
              let n' = record n { ref = n.ref - 1 } in
              let m' = record m { nodes = update m.nodes a (some n') } in
              let all' = same-Members m.nodes a n n' e refl all in
              elim (Bool-cases (n.ref - 1 == 0)) [
                | inl last ↦
                    rw (held, last) (retire-Kept m' w a n' (itself a (some n') (m.nodes a)) all')
                | inr others ↦ rw (held, others) all'
              ]
        ]
