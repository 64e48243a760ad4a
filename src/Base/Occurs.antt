-- ===== src/Base/Occurs.antt =====
-- How often a number stands in a list, and the list without its first one.
use Prim.Native.Nat.{ℕ, ◌+◌, ◌-◌, ◌<◌}
use mathlib.Core.Path.{◌≡◌}
use mathlib.Core.List.{List, [], ◌∷◌, ◌++◌}
use native.Mathlib.Omega.{arith}
use duallive.Base.Tests.{◌==◌, if◌then◌else◌}
use duallive.Base.Lists.{length}

-- How often a number stands in a list.
unfoldable pub occurs : ℕ → List ℕ → ℕ
occurs a [] = 0
occurs a (x ∷ xs) = let rest = occurs a xs in if x == a then rest + 1 else rest

-- The list without the first `a`.
unfoldable pub delete : ℕ → List ℕ → List ℕ
delete a [] = []
delete a (x ∷ xs) = let rest = delete a xs in if x == a then xs else x ∷ rest

pub occurs-append : (a : ℕ) (xs ys : List ℕ) → occurs a (xs ++ ys) ≡ occurs a xs + occurs a ys
unfolding occurs
occurs-append a [] ys = omega arith
occurs-append a (x ∷ xs) ys = ground (arith, occurs-append a xs ys)

pub occurs-delete :
    (a b : ℕ) (xs : List ℕ)
    → occurs b (delete a xs) ≡ (if a == b then occurs b xs - 1 else occurs b xs)
unfolding occurs delete
occurs-delete a b [] = ground arith
occurs-delete a b (x ∷ xs) = ground (arith, occurs-delete a b xs)

pub length-delete : (a : ℕ) (xs : List ℕ) → 0 < occurs a xs → length (delete a xs) + 1 ≡ length xs
unfolding occurs delete
length-delete a [] h = absurd (omega arith)
length-delete a (x ∷ xs) h = ground (arith, length-delete a xs)
