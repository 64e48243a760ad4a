-- ===== src/ArbUuid/Arrival.antt =====
-- A node that is allocated, in the manager of src/duallive/arbitrary_disk.c.
use duallive.Base.{
  ℕ, ◌+◌, ◌≤◌, ◌≡◌, sym, ap, subst, ◌∙◌, arith, inl, inr, false, ◌==◌, if◌then◌else◌, Bool-cases,
  ==→eq, none, some,
}
use duallive.Duallive.{Uuid}
use duallive.ArbUuid.{Lists, Node, Manager}
use duallive.ArbUuid.Sound.{
  Lawful, Fits, Sound, occurs, same_uuid, same_uuid→eq, same_uuid_refl, once,
}
use duallive.ArbUuid.Change.{retree, Elsewhere, some-number, none-some}

-- What the tree finds after an insertion.
found_after :
    {T L : Type 0} (lists : Lists T L) (law : Lawful lists) (t : T) (u v : Uuid) (a : ℕ)
    → lists.avl_find t u ≡ none
    → same_uuid u v ≡ false
    → lists.avl_find (lists.avl_insert t u a) v ≡ lists.avl_find t v
found_after lists law t u v a absent apart =
    law.find_insert t u v a absent ∙ ap (λ c. if c then some a else lists.avl_find t v) apart

module _ {T L D : Type 0} (lists : Lists T L) (law : Lawful lists) where
  -- A node that is allocated and put into the tree.
  pub record Arrives (refs pins refs' pins' : ℕ → ℕ) (m m' : Manager T L D) (a : ℕ) (n : Node D)
      : Type 0 where
    pub absent : lists.avl_find m.tree n.uuid ≡ none
    pub no_node : m.nodes a ≡ none
    pub there : m'.nodes a ≡ some n
    pub ref : n.ref ≡ refs' a
    pub status : n.cached ≡ (pins' a == 0)
    pub in_cache : occurs a (law.elements m'.cache) ≡ once n.cached
    pub tree : m'.tree ≡ lists.avl_insert m.tree n.uuid a
    pub next : m'.next ≡ m.next + 1
    pub below : a ≤ m.next
    pub elsewhere : Elsewhere lists law refs pins refs' pins' m m' a

  pub Arrives-Sound :
      {refs pins refs' pins' : ℕ → ℕ} {m m' : Manager T L D} {a : ℕ} {n : Node D}
      → Sound lists law refs pins m
      → Arrives refs pins refs' pins' m m' a n
      → Sound lists law refs' pins' m'
  Arrives-Sound {refs'} {pins'} {m} {m'} {a} {n} s l =
      let t' = lists.avl_insert m.tree n.uuid a in
      let finds =
        law.find_insert m.tree n.uuid n.uuid a l.absent
        ∙ ap (λ c. if c then some a else lists.avl_find m.tree n.uuid) (same_uuid_refl n.uuid) in
      let new : Fits lists law (refs' a) (pins' a) (occurs a (law.elements m'.cache)) m'.tree
          m'.next a (m'.nodes a) =
        rw (l.there, l.tree, l.next) (l.ref, l.status, l.in_cache, finds, omega (arith, l.below)) in
      let still : (n' : Node D) (b : ℕ)
          → lists.avl_find m.tree n'.uuid ≡ some b
          → lists.avl_find t' n'.uuid ≡ some b =
        λ n' b is_b. elim (Bool-cases (same_uuid n.uuid n'.uuid)) [
          | inl same ↦ absurd (
              none-some
                (ap (lists.avl_find m.tree) (sym (same_uuid→eq n.uuid n'.uuid same)) ∙ l.absent)
                is_b)
          | inr apart ↦ found_after lists law m.tree n.uuid n'.uuid a l.absent apart ∙ is_b
        ] in
      record {
        within = l.elsewhere.within;
        each = λ b. elim (Bool-cases (a == b)) [
          | inl same ↦
              subst
                (λ b.
                  Fits lists law (refs' b) (pins' b) (occurs b (law.elements m'.cache)) m'.tree
                    m'.next b (m'.nodes b))
                (==→eq a b same) new
          | inr other ↦
              rw
                (
                  l.elsewhere.refs_same b other,
                  l.elsewhere.pins_same b other,
                  l.elsewhere.cache_same b other,
                  l.elsewhere.nodes_same b other,
                  l.tree,
                  l.next,
                )
                (retree lists law _ _ _ _ _ b m.tree t' (m.nodes b) (s.each b) (omega arith)
                  (λ n' e is_b. still n' b is_b))
        ];
        from_tree = λ u b e.
            let e' = ap (λ t. lists.avl_find t u) (sym l.tree) ∙ e in
            elim (Bool-cases (same_uuid n.uuid u)) [
              | inl same ↦
                  let is_n = same_uuid→eq n.uuid u same in
                  let is_a : a ≡ b = some-number (sym finds ∙ ap (lists.avl_find t') is_n ∙ e') in
                  (n, ap m'.nodes (sym is_a) ∙ l.there, is_n)
              | inr apart ↦
                  let (n2, old, is_u) =
                    s.from_tree u b
                      (sym (found_after lists law m.tree n.uuid u a l.absent apart) ∙ e') in
                  elim (Bool-cases (a == b)) [
                    | inl same ↦
                        absurd (none-some (ap m.nodes (sym (==→eq a b same)) ∙ l.no_node) old)
                    | inr other ↦ (n2, l.elsewhere.nodes_same b other ∙ old, is_u)
                  ]
            ];
      }
