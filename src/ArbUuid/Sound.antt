-- ===== src/ArbUuid/Sound.antt =====
-- When the manager's tree, cache and nodes agree: src/duallive/arbitrary_disk.c.
use duallive.Base.{
  ℕ, ◌+◌, ◌-◌, ◌≤◌, ◌<◌, ◌≡◌, refl, subst, arith, inl, inr, List, [], ◌∷◌, ◌++◌, Bool, true, false,
  ◌==◌, ◌&&◌, if◌then◌else◌, Bool-cases, ==→eq, eq→==, Option, none, some, Option-cases, ok,
}
unfoldable pub use duallive.Base.Occurs.{occurs, delete}
pub use duallive.Base.Occurs.{occurs-append, occurs-delete}
use duallive.Duallive.{Uuid}
use duallive.ArbUuid.{Lists, Node, Manager}

abbrev pub same_uuid : Uuid → Uuid → Bool
same_uuid u v = (u.uuid0 == v.uuid0) && (u.uuid1 == v.uuid1)

abbrev pub null {ℓ} : {A : Type ℓ} → List A → Bool
null [] = true
null (a ∷ rest) = false

abbrev pub first {ℓ} : {A : Type ℓ} → List A → Option A
first [] = none
first (a ∷ rest) = some a

abbrev pub behind {ℓ} : {A : Type ℓ} → List A → List A
behind [] = []
behind (a ∷ rest) = rest

-- The calls keep a map from uuids to nodes, whose insert is called for a key that is not there, and a
-- list of nodes.
pub record Lawful {T L : Type 0} (lists : Lists T L) : Type 0 where
  pub elements : L → List ℕ
  pub find_insert :
      (t : T) (u v : Uuid) (a : ℕ)
      → lists.avl_find t u ≡ none
      → lists.avl_find (lists.avl_insert t u a) v
        ≡ (if same_uuid u v then some a else lists.avl_find t v)
  pub find_remove :
      (t : T) (u v : Uuid)
      → lists.avl_find (lists.avl_remove t u) v
        ≡ (if same_uuid u v then none else lists.avl_find t v)
  pub numnodes_remove :
      (t : T) (u : Uuid) (a : ℕ)
      → lists.avl_find t u ≡ some a
      → lists.avl_numnodes (lists.avl_remove t u) + 1 ≡ lists.avl_numnodes t
  pub find_create : (u : Uuid) → lists.avl_find lists.avl_create u ≡ none
  pub elements_create : elements lists.list_create ≡ []
  pub numnodes_none : (t : T) → ((u : Uuid) → lists.avl_find t u ≡ none) → lists.avl_numnodes t ≡ 0
  pub destroy_tree : (t : T) → lists.avl_numnodes t ≡ 0 → lists.avl_destroy t ≡ ok tt
  pub destroy_list : (c : L) → elements c ≡ [] → lists.list_destroy c ≡ ok tt
  pub is_empty_null : (c : L) → lists.list_is_empty c ≡ null (elements c)
  pub head_first : (c : L) → (lists.list_remove_head c).0 ≡ first (elements c)
  pub head_behind : (c : L) → elements (lists.list_remove_head c).1 ≡ behind (elements c)
  pub remove_delete : (c : L) (a : ℕ) → elements (lists.list_remove c a) ≡ delete a (elements c)
  pub insert_tail_append :
      (c : L) (a : ℕ) → elements (lists.list_insert_tail c a) ≡ elements c ++ (a ∷ [])

abbrev pub once : Bool → ℕ
once true = 1
once false = 0

-- One more, and one less, at `a`.
abbrev pub plus : (ℕ → ℕ) → ℕ → ℕ → ℕ
plus f a b = if a == b then f b + 1 else f b

abbrev pub minus : (ℕ → ℕ) → ℕ → ℕ → ℕ
minus f a b = if a == b then f b - 1 else f b

module _ {T L D : Type 0} (lists : Lists T L) (law : Lawful lists) where
  -- What an address is: nothing that anybody refers to, or a node with its references, which is cached
  -- exactly while no one holds it, and which the tree finds.
  abbrev pub Fits : ℕ → ℕ → ℕ → T → ℕ → ℕ → Option (Node D) → Type 0
  Fits r p c t next a none = (r ≡ 0) × (p ≡ 0) × (c ≡ 0)
  Fits r p c t next a (some n) =
      (n.ref ≡ r)
      × (n.cached ≡ (p == 0))
      × (c ≡ once n.cached)
      × (lists.avl_find t n.uuid ≡ some a)
      × (a < next)

  -- `refs a` counts the references to the node at `a`, `pins a` those who hold it, or are about to.
  pub record Sound (refs pins : ℕ → ℕ) (m : Manager T L D) : Type 0 where
    pub within : (a : ℕ) → refs a ≤ pins a
    pub each :
        (a : ℕ)
        → Fits (refs a) (pins a) (occurs a (law.elements m.cache)) m.tree m.next a (m.nodes a)
    pub from_tree :
        (u : Uuid) (a : ℕ)
        → lists.avl_find m.tree u ≡ some a
        → (n : Node D) × (m.nodes a ≡ some n) × (n.uuid ≡ u)

  pub each_node :
      {refs pins : ℕ → ℕ} {m : Manager T L D} (s : Sound refs pins m) (a : ℕ) (n : Node D)
      → m.nodes a ≡ some n
      → Fits (refs a) (pins a) (occurs a (law.elements m.cache)) m.tree m.next a (some n)
  each_node {refs} {pins} {m} s a n e =
      subst (Fits (refs a) (pins a) (occurs a (law.elements m.cache)) m.tree m.next a) e (s.each a)

  pub held_node :
      {refs pins : ℕ → ℕ} {m : Manager T L D} (s : Sound refs pins m) (a : ℕ)
      → 0 < pins a
      → (n : Node D) × (m.nodes a ≡ some n)
  held_node {refs} {pins} {m} s a held = elim (Option-cases (m.nodes a)) [
    | inr (n, e) ↦ (n, e)
    | inl e ↦
        let dead =
          subst (Fits (refs a) (pins a) (occurs a (law.elements m.cache)) m.tree m.next a) e
            (s.each a) in
        absurd (omega (arith, dead.1))
  ]

pub same_uuid_refl : (u : Uuid) → same_uuid u u ≡ true
same_uuid_refl u = rw (eq→== u.uuid0 u.uuid0 refl, eq→== u.uuid1 u.uuid1 refl)

pub same_uuid→eq : (u v : Uuid) → same_uuid u v ≡ true → u ≡ v
same_uuid→eq u v e = elim (Bool-cases (u.uuid0 == v.uuid0)) [
  | inl e0 ↦ elim (Bool-cases (u.uuid1 == v.uuid1)) [
    | inl e1 ↦ let h0 = ==→eq u.uuid0 v.uuid0 e0 in let h1 = ==→eq u.uuid1 v.uuid1 e1 in cc
    | inr e1 ↦ absurd (ground arith)
  ]
  | inr e0 ↦ absurd (ground arith)
]
