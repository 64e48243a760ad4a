-- ===== src/Base/Memory.antt =====
-- Memory as bytes: bounds-checked copies, little-endian words of the target, and C strings.
-- A pointer into an object is the list of the object's bytes from the pointer on.
use Prim.Native.Nat.{ℕ, zero, suc, ◌+◌, ◌*◌, ◌/◌, ◌%◌, ◌≤◌, ◌<◌}
use mathlib.Core.Path.{◌≡◌, refl, ap, ◌∙◌, sym}
use mathlib.Core.List.{List, [], ◌∷◌, ◌++◌, append_assoc}
use mathlib.Core.Option.{Option, none, some}
use native.Mathlib.Omega.{arith}
use mathlib.Core.Bool.{Bool, true, false, ◌&&◌}
use duallive.Base.Tests.{leb, le→leb, ◌==◌}
use duallive.Base.Outcomes.{Outcome, ok, fault, out_of_bounds, in_bounds, ◌>>◌, ◌>>=◌}
use duallive.Base.Lists.{
  length, take, drop, length-append, length-take, length-drop, take-append, drop-append,
  take-append-drop, All,
}

abbrev pub Bytes : Type 0
Bytes = List ℕ

-- The `n` bytes at offset `off`: the reading half of a memcpy.
pub read_at : ℕ → ℕ → Bytes → Outcome Bytes
read_at off n m = in_bounds (leb (off + n) (length m)) >> ok (take n (drop off m))

-- The writing half.
pub write_at : ℕ → Bytes → Bytes → Outcome Bytes
write_at off bs m =
    in_bounds (leb (off + length bs) (length m))
    >> ok (take off m ++ (bs ++ drop (off + length bs) m))

pub read_at-ok :
    (off n : ℕ) (m : Bytes) → off + n ≤ length m → read_at off n m ≡ ok (take n (drop off m))
unfolding read_at
read_at-ok off n m h = rw (le→leb _ _ h)

pub read_at-beyond :
    (off n : ℕ) (m : Bytes) → length m < off + n → read_at off n m ≡ fault out_of_bounds
unfolding read_at
read_at-beyond off n m h = let over : leb (off + n) (length m) ≡ false = ground arith in rw over

pub write_at-ok :
    (off : ℕ) (bs m : Bytes)
    → off + length bs ≤ length m
    → write_at off bs m ≡ ok (take off m ++ (bs ++ drop (off + length bs) m))
unfolding write_at
write_at-ok off bs m h = rw (le→leb _ _ h)

-- A write at the end of what is in use keeps that and puts `bs` behind it.
pub take-write :
    (off : ℕ) (bs m tail : Bytes)
    → off ≤ length m
    → take (off + length bs) (take off m ++ (bs ++ tail)) ≡ take off m ++ bs
take-write off bs m tail h =
    ap (take (off + length bs)) (sym (append_assoc (take off m) bs tail))
    ∙ take-append _ (take off m ++ bs) tail
        (omega (arith, length-append (take off m) bs, length-take off m h))

pub length-write :
    (off : ℕ) (bs m : Bytes)
    → off + length bs ≤ length m
    → length (take off m ++ (bs ++ drop (off + length bs) m)) ≡ length m
length-write off bs m h = omega (
  arith,
  length-append (take off m) (bs ++ drop (off + length bs) m),
  length-append bs (drop (off + length bs) m),
  length-take off m (omega arith),
  length-drop (off + length bs) m,
)

-- An unsigned word of `n` bytes, least significant byte first.
unfoldable pub le : ℕ → ℕ → Bytes
le zero v = []
le (suc n) v = (v % 256) ∷ le n (v / 256)

unfoldable pub un_le : ℕ → Bytes → ℕ
un_le zero m = 0
un_le (suc n) [] = 0
un_le (suc n) (b ∷ m) = b + 256 * un_le n m

-- `v` fits into `n` bytes.
abbrev pub Fits : ℕ → ℕ → Type 0
Fits zero v = v ≡ 0
Fits (suc n) v = Fits n (v / 256)

pub length-le : (n v : ℕ) → length (le n v) ≡ n
unfolding le
length-le zero v = refl
length-le (suc n) v = ap suc (length-le n (v / 256))

pub un_le-le : (n v : ℕ) (rest : Bytes) → Fits n v → un_le n (le n v ++ rest) ≡ v
unfolding le un_le
un_le-le zero v rest h = sym h
un_le-le (suc n) v rest h = omega (arith, un_le-le n (v / 256) rest h)

pub drop-le : (n v : ℕ) (rest : Bytes) → drop n (le n v ++ rest) ≡ rest
drop-le n v rest = drop-append n (le n v) rest (sym (length-le n v))

-- A byte of memory.
abbrev pub IsByte : ℕ → Type 0
IsByte b = b < 256

-- The string at a pointer: the bytes before the first NUL, if there is one in the object.
unfoldable pub c_str : Bytes → Option Bytes
c_str [] = none
c_str (zero ∷ m) = some []
c_str (suc b ∷ m) = elim (c_str m) [ none ↦ none | some s ↦ some (suc b ∷ s) ]

unfoldable pub strlen : Bytes → Outcome ℕ
strlen m = elim (c_str m) [ none ↦ fault out_of_bounds | some s ↦ ok (length s) ]

-- The terminator included.
abbrev pub nul_ended : Bytes → Bytes
nul_ended s = s ++ (0 ∷ [])

abbrev pub NoNul : Bytes → Type 0
NoNul = All (λ b. 0 < b)

pub strlen-ok : (m : Bytes) {s : Bytes} → c_str m ≡ some s → strlen m ≡ ok (length s)
unfolding strlen
strlen-ok m h = rw (h, strlen)

-- A string is what stands before the first NUL of its memory.
pub record Split (m s : Bytes) : Type 0 where
  pub rest : Bytes
  pub parts : m ≡ s ++ (0 ∷ rest)
  pub no_nul : NoNul s

pub c_str-Split : (m s : Bytes) → c_str m ≡ some s → Split m s
unfolding c_str
c_str-Split [] s h = absurd (ground arith)
c_str-Split (zero ∷ m) [] h = record { rest = m; parts = refl; no_nul = tt }
c_str-Split (zero ∷ m) (x ∷ s) h = absurd (ground arith)
c_str-Split (suc b ∷ m) [] h = absurd (ground arith)
c_str-Split (suc b ∷ m) (x ∷ s) h =
    let tail : Split m s = c_str-Split m s (ground arith) in
    let head : suc b ≡ x = ground arith in
    record { rest = tail.rest; parts = rw (head, tail.parts); no_nul = (omega arith, tail.no_nul) }

pub c_str-parts : (s rest : Bytes) → NoNul s → c_str (s ++ (0 ∷ rest)) ≡ some s
unfolding c_str
c_str-parts [] rest h = refl
c_str-parts (zero ∷ s) rest h = absurd (omega arith)
c_str-parts (suc b ∷ s) rest h = rw (c_str-parts s rest h.1)

nul_ended-append : (s rest : Bytes) → s ++ (0 ∷ rest) ≡ nul_ended s ++ rest
nul_ended-append s rest = sym (append_assoc s (0 ∷ []) rest)

pub length-nul_ended : (s : Bytes) → length (nul_ended s) ≡ length s + 1
length-nul_ended s = length-append s (0 ∷ [])

pub c_str-length : (m s : Bytes) → c_str m ≡ some s → length s + 1 ≤ length m
c_str-length m s h =
    let split = c_str-Split m s h in
    omega (arith, ap length split.parts, length-append s (0 ∷ split.rest))

pub c_str-take : (m s : Bytes) → c_str m ≡ some s → take (length s + 1) m ≡ nul_ended s
c_str-take m s h =
    let split = c_str-Split m s h in
    rw (split.parts, nul_ended-append s split.rest)
      (take-append _ (nul_ended s) split.rest (sym (length-nul_ended s)))

-- What begins with a string and its NUL holds that string.
pub c_str_of_take : (m s : Bytes) → NoNul s → take (length s + 1) m ≡ nul_ended s → c_str m ≡ some s
c_str_of_take m s h e =
    rw (← take-append-drop (length s + 1) m, e, ← nul_ended-append s (drop (length s + 1) m))
      (c_str-parts s (drop (length s + 1) m) h)

-- memcmp(a, b, n) == 0 over the `n` bytes of each.
unfoldable pub same_bytes : Bytes → Bytes → Bool
same_bytes [] [] = true
same_bytes [] (y ∷ ys) = false
same_bytes (x ∷ xs) [] = false
same_bytes (x ∷ xs) (y ∷ ys) = (x == y) && same_bytes xs ys

pub same_bytes→eq : (xs ys : Bytes) → same_bytes xs ys ≡ true → xs ≡ ys
unfolding same_bytes
same_bytes→eq [] [] h = refl
same_bytes→eq [] (y ∷ ys) h = absurd (ground arith)
same_bytes→eq (x ∷ xs) [] h = absurd (ground arith)
same_bytes→eq (x ∷ xs) (y ∷ ys) h = ground (arith, same_bytes→eq xs ys)

-- An unsigned word in memory.
pub read_word : ℕ → ℕ → Bytes → Outcome ℕ
read_word off n m = do b ← read_at off n m; ok (un_le n b)

pub read_word-ok :
    (off n : ℕ) (m : Bytes)
    → off + n ≤ length m
    → read_word off n m ≡ ok (un_le n (take n (drop off m)))
unfolding read_word
read_word-ok off n m h = rw (read_at-ok off n m h)
