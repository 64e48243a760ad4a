-- ===== src/ArbUuid/Change.antt =====
-- One node that leaves or changes, in the manager of src/duallive/arbitrary_disk.c.
use duallive.Base.{
  ℕ, ◌≤◌, ◌≡◌, refl, sym, ap, subst, ◌∙◌, arith, inl, inr, Bool, true, false, ◌==◌, if◌then◌else◌,
  Bool-cases, ==→eq, eq→==, Option, none, some,
}
use mathlib.Core.Bool.{false≢true}
use duallive.Duallive.{Uuid}
use duallive.ArbUuid.{Lists, Node, Manager}
use duallive.ArbUuid.Sound.{
  Lawful, Fits, Sound, each_node, occurs, same_uuid, same_uuid→eq, same_uuid_refl, once,
}

masked :
    (c : Bool) (o : Option ℕ) {b : ℕ}
    → (if c then none else o) ≡ some b
    → (c ≡ false) × (o ≡ some b)
masked true o e = absurd (ground arith)
masked false o e = (refl, e)

not_both : (a b : ℕ) → (a == b) ≡ false → ◌≡◌ {A = Option ℕ} (some a) (some b) → ⊥
not_both a b other e = let same : a ≡ b = cc in absurd (false≢true (sym other ∙ eq→== a b same))

pub some-number : {a b : ℕ} → ◌≡◌ {A = Option ℕ} (some a) (some b) → a ≡ b
some-number e = cc

pub none-some {ℓ} : {A : Type ℓ} {o : Option A} {a : A} → o ≡ none → o ≡ some a → ⊥
none-some e f = ground arith

pub same_node :
    {D : Type 0} {n n' : Node D} {o : Option (Node D)} → o ≡ some n → o ≡ some n' → n.uuid ≡ n'.uuid
same_node e f = cc

module _ {T L D : Type 0} (lists : Lists T L) (law : Lawful lists) where
  -- The tree may change where it still finds the node.
  pub retree :
      (r p c next next' b : ℕ) (t t' : T) (o : Option (Node D))
      → Fits lists law r p c t next b o
      → next ≤ next'
      → ((n : Node D)
          → o ≡ some n
          → lists.avl_find t n.uuid ≡ some b
          → lists.avl_find t' n.uuid ≡ some b)
      → Fits lists law r p c t' next' b o
  retree r p c next next' b t t' none f more still = f
  retree r p c next next' b t t' (some n) (ref, cached, at, finds, less) more still =
      (ref, cached, at, still n refl finds, omega (arith, less, more))

  -- The tree without a node's uuid still finds the other nodes.
  finds_others :
      (t : T) (n n' : Node D) (a b : ℕ)
      → lists.avl_find t n.uuid ≡ some a
      → lists.avl_find t n'.uuid ≡ some b
      → (a == b) ≡ false
      → lists.avl_find (lists.avl_remove t n.uuid) n'.uuid ≡ some b
  finds_others t n n' a b is_a is_b other = elim (Bool-cases (same_uuid n.uuid n'.uuid)) [
    | inl same ↦
        let e = sym is_a ∙ ap (lists.avl_find t) (same_uuid→eq n.uuid n'.uuid same) ∙ is_b in
        absurd (not_both a b other e)
    | inr apart ↦ law.find_remove t n.uuid n'.uuid ∙ rw apart is_b
  ]

  -- All else is the same.
  pub record Elsewhere (refs pins refs' pins' : ℕ → ℕ) (m m' : Manager T L D) (a : ℕ) : Type 0 where
    pub within : (b : ℕ) → refs' b ≤ pins' b
    pub refs_same : (b : ℕ) → (a == b) ≡ false → refs' b ≡ refs b
    pub pins_same : (b : ℕ) → (a == b) ≡ false → pins' b ≡ pins b
    pub cache_same :
        (b : ℕ)
        → (a == b) ≡ false
        → occurs b (law.elements m'.cache) ≡ occurs b (law.elements m.cache)
    pub nodes_same : (b : ℕ) → (a == b) ≡ false → m'.nodes b ≡ m.nodes b

  -- A node that leaves.
  pub record Leaves (refs pins refs' pins' : ℕ → ℕ) (m m' : Manager T L D) (a : ℕ) (n : Node D)
      : Type 0 where
    pub here : m.nodes a ≡ some n
    pub no_refs : refs' a ≡ 0
    pub no_pins : pins' a ≡ 0
    pub not_cached : occurs a (law.elements m'.cache) ≡ 0
    pub freed : m'.nodes a ≡ none
    pub tree : m'.tree ≡ lists.avl_remove m.tree n.uuid
    pub next : m'.next ≡ m.next
    pub elsewhere : Elsewhere refs pins refs' pins' m m' a

  module _ {refs pins refs' pins' : ℕ → ℕ} {m m' : Manager T L D} {a : ℕ} {n : Node D}
      (s : Sound lists law refs pins m) (l : Leaves refs pins refs' pins' m m' a n) where
    gone :
        Fits lists law
          (refs' a)
          (pins' a)
          (occurs a (law.elements m'.cache))
          m'.tree
          m'.next
          a
          (m'.nodes a)
    gone = rw l.freed (l.no_refs, l.no_pins, l.not_cached)

    stays :
        (b : ℕ)
        → (a == b) ≡ false
        → Fits lists law
            (refs' b)
            (pins' b)
            (occurs b (law.elements m'.cache))
            m'.tree
            m'.next
            b
            (m'.nodes b)
    stays b other =
        rw
          (
            l.elsewhere.refs_same b other,
            l.elsewhere.pins_same b other,
            l.elsewhere.cache_same b other,
            l.elsewhere.nodes_same b other,
            l.tree,
            l.next,
          )
          (retree _ _ _ _ _ b m.tree (lists.avl_remove m.tree n.uuid) (m.nodes b) (s.each b)
            (omega arith)
            (λ n' e is_b.
              finds_others m.tree n n' a b (each_node lists law s a n l.here).3 is_b other))

    from_tree :
        (u : Uuid) (b : ℕ)
        → lists.avl_find m'.tree u ≡ some b
        → (n' : Node D) × (m'.nodes b ≡ some n') × (n'.uuid ≡ u)
    from_tree u b e =
        let found =
          sym (law.find_remove m.tree n.uuid u) ∙ ap (λ t. lists.avl_find t u) (sym l.tree) ∙ e in
        let (apart, old) = masked (same_uuid n.uuid u) (lists.avl_find m.tree u) found in
        let (n', there, is_u) = s.from_tree u b old in
        elim (Bool-cases (a == b)) [
          | inr other ↦ (n', l.elsewhere.nodes_same b other ∙ there, is_u)
          | inl is_a ↦
              let eq = same_node l.here (ap m.nodes (==→eq a b is_a) ∙ there) ∙ is_u in
              absurd (
                false≢true
                  (sym apart ∙ subst (λ v. same_uuid n.uuid v ≡ true) eq (same_uuid_refl n.uuid)))
        ]

    pub Leaves-Sound : Sound lists law refs' pins' m'
    Leaves-Sound = record {
      within = l.elsewhere.within;
      each = λ b. elim (Bool-cases (a == b)) [
        | inl same ↦
            subst
              (λ b.
                Fits lists law (refs' b) (pins' b) (occurs b (law.elements m'.cache)) m'.tree
                  m'.next b (m'.nodes b))
              (==→eq a b same) gone
        | inr other ↦ stays b other
      ];
      from_tree = from_tree;
    }

  -- A node that changes, and may go into the cache or out of it.
  pub record Changes (refs pins refs' pins' : ℕ → ℕ) (m m' : Manager T L D) (a : ℕ) (n n' : Node D)
      : Type 0 where
    pub here : m.nodes a ≡ some n
    pub there : m'.nodes a ≡ some n'
    pub same_uuid : n'.uuid ≡ n.uuid
    pub ref : n'.ref ≡ refs' a
    pub status : n'.cached ≡ (pins' a == 0)
    pub in_cache : occurs a (law.elements m'.cache) ≡ once n'.cached
    pub tree : m'.tree ≡ m.tree
    pub next : m'.next ≡ m.next
    pub elsewhere : Elsewhere refs pins refs' pins' m m' a

  pub Changes-Sound :
      {refs pins refs' pins' : ℕ → ℕ} {m m' : Manager T L D} {a : ℕ} {n n' : Node D}
      → Sound lists law refs pins m
      → Changes refs pins refs' pins' m m' a n n'
      → Sound lists law refs' pins' m'
  Changes-Sound {refs'} {pins'} {m} {m'} {a} {n} {n'} s l =
      let old = each_node lists law s a n l.here in
      let changed : Fits lists law (refs' a) (pins' a) (occurs a (law.elements m'.cache)) m'.tree
          m'.next a (m'.nodes a) =
        rw (l.there, l.tree, l.next)
          (l.ref, l.status, l.in_cache, ap (lists.avl_find m.tree) l.same_uuid ∙ old.3, old.4) in
      record {
        within = l.elsewhere.within;
        each = λ b. elim (Bool-cases (a == b)) [
          | inl same ↦
              subst
                (λ b.
                  Fits lists law (refs' b) (pins' b) (occurs b (law.elements m'.cache)) m'.tree
                    m'.next b (m'.nodes b))
                (==→eq a b same) changed
          | inr other ↦
              rw
                (
                  l.elsewhere.refs_same b other,
                  l.elsewhere.pins_same b other,
                  l.elsewhere.cache_same b other,
                  l.elsewhere.nodes_same b other,
                  l.tree,
                  l.next,
                )
                (s.each b)
        ];
        from_tree = λ u b e.
            let (n2, old2, is_u) =
              s.from_tree u b (ap (λ t. lists.avl_find t u) (sym l.tree) ∙ e) in
            elim (Bool-cases (a == b)) [
              | inr other ↦ (n2, l.elsewhere.nodes_same b other ∙ old2, is_u)
              | inl same ↦
                  let eq = ==→eq a b same in
                  (
                    n',
                    ap m'.nodes (sym eq) ∙ l.there,
                    l.same_uuid ∙ same_node l.here (ap m.nodes eq ∙ old2) ∙ is_u,
                  )
            ];
      }
