-- ===== src/Tests/Locks.antt =====
-- The manager of locks at concrete inputs.
use duallive.Base.{
  ℕ, zero, suc, ◌≡◌, refl, arith, List, [], ◌∷◌, false, ◌==◌, if◌then◌else◌, Bool-cases, ne→==,
  none, some, Returns, inl, inr,
}
use duallive.Duallive.{Uuid}
use duallive.ArbUuid.{Node, Manager, arb_uuid_lock, arb_uuid_unlock, cache_cleanup}
use duallive.ArbUuid.Sound.{Sound, Fits, same_uuid, same_uuid→eq, occurs}
use duallive.Tests.Trees.{Tree, find_entry, lists, law, disks}
use duallive.ArbUuid.Cleanup.{Cleaned, cache_cleanup-Cleaned}
use duallive.ArbUuid.Locks.{Locked, arb_uuid_lock-Locked}
use duallive.ArbUuid.Unlock.{Unlocked, arb_uuid_unlock-Unlocked}
use duallive.ArbUuid.Runs.{Call, lock, unlock, Agrees, perform_all, perform_all-Agrees}

abbrev empty : Manager Tree (List ℕ) ℕ
empty = record { tree = []; cache = []; nodes = λ a. none; next = 0 }

empty-Sound : Sound lists law (λ a. 0) (λ a. 0) empty
unfolding find_entry law occurs
empty-Sound = record {
  within = λ a. omega arith;
  each = λ a. (refl, refl, refl);
  from_tree = λ u a e. absurd (ground arith);
}

abbrev uuid_1 : Uuid
uuid_1 = record { uuid0 = 0xab; uuid1 = 1 }

abbrev uuid_2 : Uuid
uuid_2 = record { uuid0 = 0xab; uuid1 = 2 }

-- A manager whose node 0, of `uuid_1`, is held once.
abbrev held_1 : Manager Tree (List ℕ) ℕ
held_1 = record {
  tree = (uuid_1, 0) ∷ [];
  cache = [];
  nodes = λ a.
      if 0 == a
      then some (record { uuid = uuid_1; disk = some 1; ref = 1; cached = false })
      else none;
  next = 1;
}

held_1-Fits :
    (a : ℕ)
    → Fits lists law
        (occurs a (0 ∷ []))
        (occurs a (0 ∷ []))
        (occurs a [])
        held_1.tree
        held_1.next
        a
        (held_1.nodes a)
unfolding find_entry occurs
held_1-Fits zero = (refl, refl, refl, refl, omega arith)
held_1-Fits (suc a) = rw (ne→== 0 (suc a) (λ e. omega (arith, e))) (refl, refl, refl)

held_1-find :
    (u : Uuid) (a : ℕ)
    → find_entry held_1.tree u ≡ some a
    → (n : Node ℕ) × (held_1.nodes a ≡ some n) × (n.uuid ≡ u)
unfolding find_entry
held_1-find u a e = elim (Bool-cases (same_uuid uuid_1 u)) [
  | inl same ↦
      let is_0 : a ≡ 0 = ground arith in
      (
        record { uuid = uuid_1; disk = some 1; ref = 1; cached = false },
        rw is_0 refl,
        same_uuid→eq uuid_1 u same,
      )
  | inr apart ↦ absurd (ground arith)
]

held_1-Sound : Agrees lists disks law (0 ∷ []) held_1
unfolding law
held_1-Sound = record { within = λ a. omega arith; each = held_1-Fits; from_tree = held_1-find }

cache_cleanup-Cleaned_example :
    Returns
      (λ r. Cleaned lists disks law (λ a. occurs a (0 ∷ [])) (λ a. occurs a (0 ∷ [])) held_1 0 r.0)
      (cache_cleanup lists disks held_1 0 0)
cache_cleanup-Cleaned_example = cache_cleanup-Cleaned lists disks law held_1 0 0 held_1-Sound

arb_uuid_lock-Locked_example :
    Returns
      (λ r. Locked lists disks law (λ a. 0) empty uuid_2 r.0 r.1)
      (arb_uuid_lock lists disks empty 0 uuid_2)
arb_uuid_lock-Locked_example =
    arb_uuid_lock-Locked lists disks law empty 0 uuid_2 empty-Sound (λ a. omega arith)

arb_uuid_unlock-Unlocked_example :
    Returns
      (λ r. Unlocked lists disks law (λ a. occurs a (0 ∷ [])) held_1 0 r.0)
      (arb_uuid_unlock lists disks held_1 0 0)
unfolding occurs
arb_uuid_unlock-Unlocked_example =
    arb_uuid_unlock-Unlocked lists disks law held_1 0 0 held_1-Sound (omega arith)

abbrev calls : List Call
calls = lock uuid_2 ∷ lock uuid_1 ∷ unlock 0 ∷ unlock 1 ∷ lock uuid_2 ∷ unlock 0 ∷ []

perform_all-Agrees_example :
    Returns
      (λ r. Agrees lists disks law r.0 r.1)
      (perform_all lists disks law calls (0 ∷ []) held_1 0)
perform_all-Agrees_example =
    perform_all-Agrees lists disks law calls (0 ∷ []) held_1 0 held_1-Sound (omega arith)
