-- ===== src/Tests/Trees.antt =====
-- A tree and a list of nodes that are lists, and the disks of the tests of the manager of locks.
use duallive.Base.{
  verify, eq→==, ℕ, ◌+◌, ◌≡◌, refl, sym, ap, ◌∙◌, arith, List, [], ◌∷◌, ◌++◌, false, not, ◌==◌,
  if◌then◌else◌, Bool-cases, Option, none, some, inl, inr,
}
use mathlib.Core.Bool.{false≢true}
use duallive.Duallive.{Uuid}
use duallive.ArbUuid.{Lists, Disks}
use duallive.ArbUuid.Sound.{
  Lawful, same_uuid, same_uuid→eq, same_uuid_refl, null, first, behind, delete,
}

-- The latest entry of a uuid counts.
abbrev pub Tree : Type 0
Tree = List (Uuid × ℕ)

unfoldable pub find_entry : Tree → Uuid → Option ℕ
find_entry [] u = none
find_entry (e ∷ t) u = let rest = find_entry t u in if same_uuid e.0 u then some e.1 else rest

pub remove_entry : Tree → Uuid → Tree
remove_entry [] u = []
remove_entry (e ∷ t) u = let rest = remove_entry t u in if same_uuid u e.0 then rest else e ∷ rest

abbrev pub counted : Option ℕ → ℕ
counted none = 1
counted (some a) = 0

-- Entries that a later one hides do not count.
pub entries : Tree → ℕ
unfolding find_entry
entries [] = 0
entries (e ∷ t) = entries t + counted (find_entry t e.0)

apart_sym : (u v : Uuid) → same_uuid u v ≡ false → same_uuid v u ≡ false
apart_sym u v e = elim (Bool-cases (same_uuid v u)) [
  | inr apart ↦ apart
  | inl same ↦
      absurd (false≢true (sym e ∙ ap (same_uuid u) (same_uuid→eq v u same) ∙ same_uuid_refl u))
]

pub find_entry-remove_entry :
    (t : Tree) (u v : Uuid)
    → find_entry (remove_entry t u) v ≡ (if same_uuid u v then none else find_entry t v)
unfolding find_entry remove_entry
find_entry-remove_entry [] u v = ground arith
find_entry-remove_entry (e ∷ t) u v = elim (Bool-cases (same_uuid u e.0)) [
  | inl same ↦ elim (Bool-cases (same_uuid u v)) [
    | inl is_v ↦
        rw (same, is_v)
          (find_entry-remove_entry t u v ∙ ap (λ c. if c then none else find_entry t v) is_v)
    | inr not_v ↦
        let other = ap (λ x. same_uuid x v) (sym (same_uuid→eq u e.0 same)) ∙ not_v in
        rw (same, not_v, other)
          (find_entry-remove_entry t u v ∙ ap (λ c. if c then none else find_entry t v) not_v)
  ]
  | inr other ↦ elim (Bool-cases (same_uuid e.0 v)) [
    | inl here ↦
        let not_v = ap (same_uuid u) (sym (same_uuid→eq e.0 v here)) ∙ other in
        rw (other, here, not_v) refl
    | inr there ↦ rw (other, there) (find_entry-remove_entry t u v)
  ]
]

pub entries-remove_entry :
    (t : Tree) (u : Uuid) → entries (remove_entry t u) + 1 ≡ entries t + counted (find_entry t u)
unfolding entries find_entry remove_entry
entries-remove_entry [] u = refl
entries-remove_entry (e ∷ t) u = elim (Bool-cases (same_uuid u e.0)) [
  | inl same ↦
      let eq = same_uuid→eq u e.0 same in
      let here = ap (λ x. same_uuid x u) (sym eq) ∙ same_uuid_refl u in
      rw (same, here)
        (entries-remove_entry t u ∙ ap (λ x. entries t + counted (find_entry t x)) eq ∙ omega arith)
  | inr other ↦
      let still =
        find_entry-remove_entry t u e.0 ∙ ap (λ c. if c then none else find_entry t e.0) other in
      rw (other, still, apart_sym u e.0 other) (omega (arith, entries-remove_entry t u))
]

pub entries-none : (t : Tree) → ((u : Uuid) → find_entry t u ≡ none) → entries t ≡ 0
unfolding entries find_entry
entries-none [] absent = refl
entries-none (e ∷ t) absent =
    let hidden : some e.1 ≡ none = rw (sym (absent e.0), same_uuid_refl e.0) refl in
    absurd (ground arith)

abbrev pub lists : Lists Tree (List ℕ)
lists = record {
  avl_create = [];
  list_create = [];
  avl_find = find_entry;
  avl_insert = λ t u a. (u, a) ∷ t;
  avl_remove = remove_entry;
  avl_numnodes = entries;
  avl_destroy = λ t. verify (entries t == 0);
  list_is_empty = λ c. null c;
  list_remove_head = λ c. (first c, behind c);
  list_remove = λ c a. delete a c;
  list_insert_tail = λ c a. c ++ (a ∷ []);
  list_destroy = λ c. verify (null c);
}

unfoldable pub law : Lawful lists
unfolding find_entry
law = record {
  elements = λ c. c;
  find_create = λ u. refl;
  elements_create = refl;
  numnodes_none = entries-none;
  destroy_tree = λ t e. rw (eq→== (entries t) 0 e) refl;
  destroy_list = λ c e. rw e refl;
  find_insert = λ t u v a absent. refl;
  find_remove = find_entry-remove_entry;
  numnodes_remove =
      λ t u a e. entries-remove_entry t u ∙ ap (λ o. entries t + counted o) e ∙ omega arith;
  is_empty_null = λ c. refl;
  head_first = λ c. refl;
  head_behind = λ c. refl;
  remove_delete = λ c a. refl;
  insert_tail_append = λ c a. refl;
}

-- A disk is how many pairs it holds, and the state counts the disks that were unloaded.
abbrev pub disks : Disks ℕ ℕ
disks = record { holds_pairs = λ w d. not (d == 0); unload = λ w d. w + 1 }
