-- ===== src/ArbUuid/References.antt =====
-- References that are taken, for arb_uuid_lock of src/duallive/arbitrary_disk.c.
use duallive.Base.{
  ℕ, ◌+◌, ◌-◌, ◌%◌, ◌^◌, ◌<◌, ◌≡◌, refl, sym, ap, ◌∙◌, arith, inl, inr, [], ◌∷◌, Bool, true, false,
  ◌==◌, if◌then◌else◌, Bool-cases, ==→eq, eq→==, ne→==, Option, none, some, Returns, ◌>>=◌,
}
use duallive.Kmem.{u32_mod}
use duallive.Duallive.{Uuid}
use duallive.ArbUuid.{Lists, Disks, Node, Manager, update, node_at, set_node, take_ref, wake}
use duallive.ArbUuid.Sound.{
  Lawful, Sound, each_node, occurs, occurs-append, occurs-delete, once, plus,
}
use duallive.ArbUuid.Change.{Changes}

-- A test by the address itself, and by another.
abbrev pub itself {ℓ} : {A : Type ℓ} (a : ℕ) (x y : A) → (if a == a then x else y) ≡ x
itself a x y = ap (λ c. if c then x else y) (eq→== a a refl)

abbrev pub another {ℓ} : {A : Type ℓ} {c : Bool} (x y : A) → c ≡ false → (if c then x else y) ≡ y
another x y e = ap (λ c. if c then x else y) e

pub twice :
    {D : Type 0} (f : ℕ → Option (Node D)) (a b : ℕ) (o p : Option (Node D))
    → update (update f a o) a p b ≡ update f a p b
twice f a b o p = elim (Bool-cases (a == b)) [ inl e ↦ rw e refl | inr e ↦ rw e refl ]

-- The uuid and the disk of a node.
abbrev pub known : {D : Type 0} → Option (Node D) → Option (Uuid × Option D)
known none = none
known (some n) = some (n.uuid, n.disk)

pub more_at : (f : ℕ → ℕ) (a : ℕ) → (plus f a a == 0) ≡ false
more_at f a = ap (λ n. n == 0) (itself a (f a + 1) (f a)) ∙ ne→== (f a + 1) 0 (λ e. omega arith)

none_of_one : (a : ℕ) (b : Bool) (n : ℕ) → n ≡ once b → n - 1 ≡ 0
none_of_one a true n e = omega arith
none_of_one a false n e = omega arith

module _ {T L W D : Type 0} (lists : Lists T L) (disks : Disks W D) (law : Lawful lists) where
  occurs-list_remove :
      (c : L) (a b : ℕ)
      → occurs b (law.elements (lists.list_remove c a))
        ≡ (if a == b then occurs b (law.elements c) - 1 else occurs b (law.elements c))
  occurs-list_remove c a b =
      ap (occurs b) (law.remove_delete c a) ∙ occurs-delete a b (law.elements c)

  pub occurs-list_insert_tail :
      (c : L) (a b : ℕ)
      → occurs b (law.elements (lists.list_insert_tail c a))
        ≡ (if a == b then occurs b (law.elements c) + 1 else occurs b (law.elements c))
  unfolding occurs
  occurs-list_insert_tail c a b =
      ap (occurs b) (law.insert_tail_append c a)
      ∙ occurs-append b (law.elements c) (a ∷ [])
      ∙ ground arith

  -- A node in the tree gets one more reference, and leaves the cache.
  pub lock_found :
      {refs : ℕ → ℕ} (m : Manager T L D) (a : ℕ) (n : Node D)
      → Sound lists law refs refs m
      → m.nodes a ≡ some n
      → refs a + 1 < 2 ^ 32
      → Returns
          (λ m'.
            Changes lists law refs refs
              (plus refs a)
              (plus refs a)
              m
              m'
              a
              n
              (record n { ref = refs a + 1; cached = false }))
          (do m ← wake lists disks m a; take_ref lists disks m a)
  unfolding wake take_ref node_at set_node
  lock_found {refs} m a n s there small =
      let old = each_node lists law s a n there in
      let same_a = eq→== a a refl in
      let ref : (n.ref + 1) % u32_mod ≡ refs a + 1 = omega (arith, old.0) in
      let ref' : refs a + 1 ≡ plus refs a a = sym (itself a (refs a + 1) (refs a)) in
      let status = sym (more_at refs a) in
      elim (Bool-cases n.cached) [
        | inl is_cached ↦
            let n1 = record n { cached = false } in
            let n2 = record n { ref = refs a + 1; cached = false } in
            let m' = record m {
              cache = lists.list_remove m.cache a;
              nodes = update (update m.nodes a (some n1)) a (some n2);
            } in
            (
              m',
              rw (wake, node_at, there, is_cached, same_a, ref) refl,
              record {
                here = there;
                there = itself a (some n2) (update m.nodes a (some n1) a);
                same_uuid = refl;
                ref = ref';
                status = status;
                in_cache =
                    occurs-list_remove m.cache a a ∙ itself a _ _ ∙ none_of_one a n.cached _ old.2;
                tree = refl;
                next = refl;
                elsewhere = record {
                  within = λ b. omega arith;
                  refs_same = λ b other. another _ _ other;
                  pins_same = λ b other. another _ _ other;
                  cache_same = λ b other. occurs-list_remove m.cache a b ∙ another _ _ other;
                  nodes_same = λ b other. twice m.nodes a b (some n1) (some n2) ∙ another _ _ other;
                };
              },
            )
        | inr idle ↦
            let n2 = record n { ref = refs a + 1; cached = false } in
            let m' = record m { nodes = update m.nodes a (some n2) } in
            (
              m',
              rw (wake, node_at, there, idle, there, ref, idle) refl,
              record {
                here = there;
                there = itself a (some n2) (m.nodes a);
                same_uuid = refl;
                ref = ref';
                status = status;
                in_cache = old.2 ∙ ap once idle;
                tree = refl;
                next = refl;
                elsewhere = record {
                  within = λ b. omega arith;
                  refs_same = λ b other. another _ _ other;
                  pins_same = λ b other. another _ _ other;
                  cache_same = λ b other. refl;
                  nodes_same = λ b other. another _ _ other;
                };
              },
            )
      ]

  -- n->ref++ on a node that is pinned already.
  pub take_ref-Changes :
      {refs : ℕ → ℕ} (m : Manager T L D) (a : ℕ) (n : Node D)
      → Sound lists law refs (plus refs a) m
      → m.nodes a ≡ some n
      → refs a + 1 < 2 ^ 32
      → Returns
          (λ m'.
            Changes lists law refs
              (plus refs a)
              (plus refs a)
              (plus refs a)
              m
              m'
              a
              n
              (record n { ref = refs a + 1 }))
          (take_ref lists disks m a)
  unfolding take_ref node_at set_node
  take_ref-Changes {refs} m a n s there small =
      let old = each_node lists law s a n there in
      let ref : (n.ref + 1) % u32_mod ≡ refs a + 1 = omega (arith, old.0) in
      let n2 = record n { ref = refs a + 1 } in
      (
        record m { nodes = update m.nodes a (some n2) },
        rw (node_at, there, ref) refl,
        record {
          here = there;
          there = itself a (some n2) (m.nodes a);
          same_uuid = refl;
          ref = sym (itself a (refs a + 1) (refs a));
          status = old.1;
          in_cache = old.2;
          tree = refl;
          next = refl;
          elsewhere = record {
            within = λ b. omega arith;
            refs_same = λ b other. another _ _ other;
            pins_same = λ b other. refl;
            cache_same = λ b other. refl;
            nodes_same = λ b other. another _ _ other;
          };
        },
      )

  -- A node that stays what it is for those who hold it.
  pub Changes-known :
      {refs pins refs' pins' : ℕ → ℕ} {m m' : Manager T L D} {a : ℕ} {n n' : Node D}
      → Changes lists law refs pins refs' pins' m m' a n n'
      → n'.disk ≡ n.disk
      → (b : ℕ) → known (m'.nodes b) ≡ known (m.nodes b)
  Changes-known {m} {m'} {a} {n} {n'} l same_disk b = elim (Bool-cases (a == b)) [
    | inl same ↦
        let eq = ==→eq a b same in
        ap (λ i. known (m'.nodes i)) (sym eq)
        ∙ ap known l.there
        ∙ ap some (ap (λ u. (u, n'.disk)) l.same_uuid ∙ ap (λ d. (n.uuid, d)) same_disk)
        ∙ ap known (sym l.here)
        ∙ ap (λ i. known (m.nodes i)) eq
    | inr other ↦ ap known (l.elsewhere.nodes_same b other)
  ]
