-- ===== src/Base/Blocks.antt =====
-- Arrays in memory: blocks of one size behind one another.
use Prim.Native.Nat.{ℕ, zero, suc, ◌+◌, ◌*◌, ◌≤◌}
use mathlib.Core.Path.{◌≡◌, refl, ap, ◌∙◌, sym}
use mathlib.Core.List.{List, [], ◌∷◌, ◌++◌, append_assoc, append-nil, map}
use mathlib.Core.Option.{some}
use native.Mathlib.Omega.{arith}
use duallive.Base.Lists.{
  length, take, drop, get_elem?, All, length-append, take-append, drop-append, drop-drop,
}
use duallive.Base.Outcomes.{ok}
use duallive.Base.Memory.{Bytes, read_at, read_at-ok}

abbrev pub blocks : List Bytes → Bytes
blocks [] = []
blocks (b ∷ bs) = b ++ blocks bs

pub blocks-snoc : (bs : List Bytes) (b : Bytes) → blocks (bs ++ (b ∷ [])) ≡ blocks bs ++ b
blocks-snoc [] b = append-nil b
blocks-snoc (c ∷ bs) b = rw (blocks-snoc bs b) (sym (append_assoc c (blocks bs) b))

abbrev pub Sized : ℕ → List Bytes → Type 0
Sized n = All (λ b. length b ≡ n)

pub length-blocks : (n : ℕ) (bs : List Bytes) → Sized n bs → length (blocks bs) ≡ n * length bs
length-blocks n [] h = omega arith
length-blocks n (b ∷ bs) h = omega (arith, length-append b (blocks bs), length-blocks n bs h.1)

-- Element `i` of the array stands at `n * i`, whatever stands behind the array.
pub block_at :
    (n i : ℕ) (bs : List Bytes) (rest : Bytes) {b : Bytes}
    → Sized n bs
    → get_elem? bs i ≡ some b
    → (n * i + n ≤ length (blocks bs ++ rest)) × (take n (drop (n * i) (blocks bs ++ rest)) ≡ b)
block_at n i [] rest h e = absurd (ground arith)
block_at n zero (c ∷ bs) rest {b} h e =
    let same : c ≡ b = ground arith in
    let none_before : n * zero ≡ 0 = omega arith in
    (
      omega (arith, length-append (c ++ blocks bs) rest, length-append c (blocks bs), h.0),
      rw (none_before, append_assoc c (blocks bs) rest)
          (take-append n c (blocks bs ++ rest) (sym h.0) ∙ same),
    )
block_at n (suc i) (c ∷ bs) rest h e =
    let later = block_at n i bs rest h.1 e in
    let split : n * suc i ≡ n + n * i = omega arith in
    (
      omega (
        arith,
        length-append (c ++ blocks bs) rest,
        length-append c (blocks bs),
        length-append (blocks bs) rest,
        h.0,
        later.0,
      ),
      rw
          (
            split,
            ← drop-drop n (n * i) (c ++ blocks bs ++ rest),
            append_assoc c (blocks bs) rest,
            drop-append n c (blocks bs ++ rest) (sym h.0),
          )
          later.1,
    )

-- So a read of element `i` returns it.
pub read-block :
    (n i : ℕ) (bs : List Bytes) (rest : Bytes) {b : Bytes}
    → Sized n bs
    → get_elem? bs i ≡ some b
    → read_at (n * i) n (blocks bs ++ rest) ≡ ok b
read-block n i bs rest h e =
    let at = block_at n i bs rest h e in read_at-ok (n * i) n (blocks bs ++ rest) at.0 ∙ ap ok at.1

pub get_elem?-map {ℓ κ} :
    {A : Type ℓ} {B : Type κ} (f : A → B) (xs : List A) (i : ℕ) {a : A}
    → get_elem? xs i ≡ some a
    → get_elem? (map f xs) i ≡ some (f a)
get_elem?-map f [] i h = absurd (ground arith)
get_elem?-map f (x ∷ xs) zero h = ground arith
get_elem?-map f (x ∷ xs) (suc i) h = get_elem?-map f xs i h

pub length-map {ℓ κ} :
    {A : Type ℓ} {B : Type κ} (f : A → B) (xs : List A) → length (map f xs) ≡ length xs
length-map f [] = refl
length-map f (x ∷ xs) = ap suc (length-map f xs)
