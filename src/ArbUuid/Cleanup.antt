-- ===== src/ArbUuid/Cleanup.antt =====
-- cache_cleanup of src/duallive/arbitrary_disk.c.
use duallive.Base.{
  ℕ, zero, suc, ◌+◌, ◌≤◌, ◌<◌, ◌≡◌, ◌⊎◌, refl, sym, ap, subst, ◌∙◌, arith, inl, inr, List, [], ◌∷◌,
  true, false, ltb, ◌==◌, if◌then◌else◌, Bool-cases, ==→eq, eq→==, none, some, Option-cases, ok,
  Returns, ltb→le, le→ltb,
}
use mathlib.Core.Bool.{false≢true}
use duallive.ArbUuid.{
  Lists, Disks, Node, Manager, update, node_at, drop_node, uuid_lock_free, unload_disk,
  cleanup_loop, cache_cleanup,
}
use duallive.ArbUuid.Sound.{Lawful, Fits, Sound, each_node, occurs, once, null, first, behind}
use duallive.ArbUuid.Change.{Leaves, Leaves-Sound}

-- The first element of a list that is not empty.
taken_first : (a : ℕ) (xs : List ℕ) → first xs ≡ some a → occurs a xs ≡ occurs a (behind xs) + 1
unfolding occurs
taken_first a [] e = absurd (ground arith)
taken_first a (x ∷ xs) e = ground arith

others_behind :
    (a b : ℕ) (xs : List ℕ)
    → first xs ≡ some a
    → (a == b) ≡ false
    → occurs b (behind xs) ≡ occurs b xs
unfolding occurs
others_behind a b [] e other = refl
others_behind a b (x ∷ xs) e other = ground arith

first-null : (xs : List ℕ) → null xs ≡ false → (a : ℕ) × (first xs ≡ some a)
first-null [] e = absurd (false≢true (sym e))
first-null (x ∷ xs) e = (x, refl)

no_elements : (xs : List ℕ) → null xs ≡ true → xs ≡ []
no_elements [] e = refl
no_elements (x ∷ xs) e = absurd (false≢true e)

module _ {T L W D : Type 0} (lists : Lists T L) (disks : Disks W D) (law : Lawful lists) where
  -- What cache_cleanup leaves: what is held stays, and there are not too many nodes, or none is cached.
  pub record Cleaned (refs pins : ℕ → ℕ) (m : Manager T L D) (limit : ℕ) (m' : Manager T L D)
      : Type 0 where
    pub sound : Sound lists law refs pins m'
    pub kept : (b : ℕ) → 0 < pins b → m'.nodes b ≡ m.nodes b
    pub bounded : (lists.avl_numnodes m'.tree ≤ limit) ⊎ (law.elements m'.cache ≡ [])

  -- A node in the cache is there once, and nobody holds it.
  cached_node :
      {refs pins : ℕ → ℕ} {m : Manager T L D} (s : Sound lists law refs pins m) (a : ℕ)
      → 0 < occurs a (law.elements m.cache)
      → (n : Node D) × (m.nodes a ≡ some n) × (pins a ≡ 0) × (occurs a (law.elements m.cache) ≡ 1)
  cached_node {refs} {pins} {m} s a there = elim (Option-cases (m.nodes a)) [
    | inl e ↦
        let dead =
          subst (Fits lists law (refs a) (pins a) (occurs a (law.elements m.cache)) m.tree m.next a)
            e (s.each a) in
        absurd (omega (arith, dead.2))
    | inr (n, e) ↦
        let (ref, cached, at, finds, less) = each_node lists law s a n e in
        elim (Bool-cases n.cached) [
          | inl is_cached ↦
              (n, e, ==→eq (pins a) 0 (sym cached ∙ is_cached), at ∙ ap once is_cached)
          | inr idle ↦ absurd (omega (arith, at ∙ ap once idle))
        ]
  ]

  -- The node at the head of the cache leaves.
  head-Leaves :
      {refs pins : ℕ → ℕ} {m : Manager T L D} (s : Sound lists law refs pins m) (a : ℕ) (w : W)
      → first (law.elements m.cache) ≡ some a
      → (n : Node D) × (m' : Manager T L D) × (w' : W) × (drop_node lists disks
            (record m { cache = (lists.list_remove_head m.cache).1 })
            w
            a
          ≡ ok (m', w'))
        × Leaves lists law refs pins refs pins m m' a n
  unfolding drop_node node_at uuid_lock_free
  head-Leaves {refs} {pins} {m} s a w e =
      let behind_a = taken_first a (law.elements m.cache) e in
      let (n, there, free, one) = cached_node s a (omega (arith, behind_a)) in
      let m' = record m {
        cache = (lists.list_remove_head m.cache).1;
        tree = lists.avl_remove m.tree n.uuid;
        nodes = update m.nodes a none;
      } in
      (
        n,
        m',
        unload_disk lists disks w n.disk,
        rw there refl,
        record {
          here = there;
          no_refs = omega (arith, s.within a);
          no_pins = free;
          not_cached = ap (occurs a) (law.head_behind m.cache) ∙ omega arith;
          freed = ap (λ c. if c then none else m.nodes a) (eq→== a a refl);
          tree = refl;
          next = refl;
          elsewhere = record {
            within = s.within;
            refs_same = λ b other. refl;
            pins_same = λ b other. refl;
            cache_same = λ b other.
                ap (occurs b) (law.head_behind m.cache)
                ∙ others_behind a b (law.elements m.cache) e other;
            nodes_same = λ b other. ap (λ c. if c then none else m.nodes b) other;
          };
        },
      )

  cleanup_loop-Cleaned :
      {refs pins : ℕ → ℕ} (fuel : ℕ) (m : Manager T L D) (w : W) (limit : ℕ)
      → Sound lists law refs pins m
      → lists.avl_numnodes m.tree ≤ fuel
      → Returns (λ r. Cleaned refs pins m limit r.0) (cleanup_loop lists disks fuel m w limit)
  unfolding cleanup_loop
  cleanup_loop-Cleaned zero m w limit s enough =
      rw (le→ltb limit (lists.avl_numnodes m.tree) (omega arith))
        ((m, w), refl, record { sound = s; kept = λ b held. refl; bounded = inl (omega arith) })
  cleanup_loop-Cleaned {refs} {pins} (suc fuel) m w limit s enough =
      elim (Bool-cases (ltb limit (lists.avl_numnodes m.tree))) [
        | inr few ↦ rw few (
          (m, w),
          refl,
          record { sound = s; kept = λ b held. refl; bounded = inl (ltb→le _ _ few) },
        )
        | inl many ↦ elim (Bool-cases (lists.list_is_empty m.cache)) [
          | inl empty ↦
              rw (many, empty)
                (
                  (m, w),
                  refl,
                  record {
                    sound = s;
                    kept = λ b held. refl;
                    bounded = inr (
                        no_elements (law.elements m.cache)
                          (sym (law.is_empty_null m.cache) ∙ empty));
                  },
                )
          | inr cached ↦
              let (a, is_first) =
                first-null (law.elements m.cache) (sym (law.is_empty_null m.cache) ∙ cached) in
              let (n, m', w', drops, l) = head-Leaves s a w is_first in
              let fewer =
                law.numnodes_remove m.tree n.uuid a (each_node lists law s a n l.here).3 in
              let left = ap (λ t. lists.avl_numnodes t + 1) l.tree ∙ fewer in
              let (r, returns, c) =
                cleanup_loop-Cleaned fuel m' w' limit (Leaves-Sound lists law s l)
                  (omega (arith, left, enough)) in
              rw (many, cached, law.head_first m.cache, is_first, drops, returns)
                (
                  r,
                  refl,
                  record {
                    sound = c.sound;
                    kept = λ b held. c.kept b held ∙ elim (Bool-cases (a == b)) [
                      | inl same ↦ absurd (omega (arith, held, l.no_pins, ap pins (==→eq a b same)))
                      | inr other ↦ l.elsewhere.nodes_same b other
                    ];
                    bounded = c.bounded;
                  },
                )
        ]
      ]

  -- If the manager agrees with the nodes that are held, cache_cleanup returns without a fault, and it
  -- agrees again; the nodes that are held stay as they are, and the tree has at most `limit` nodes then,
  -- or the cache is empty.
  pub cache_cleanup-Cleaned :
      {refs pins : ℕ → ℕ} (m : Manager T L D) (w : W) (limit : ℕ)
      → Sound lists law refs pins m
      → Returns (λ r. Cleaned refs pins m limit r.0) (cache_cleanup lists disks m w limit)
  unfolding cache_cleanup
  cache_cleanup-Cleaned m w limit s =
      cleanup_loop-Cleaned (lists.avl_numnodes m.tree) m w limit s (omega arith)
