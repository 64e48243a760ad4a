-- ===== src/Cvector/Text.antt =====
-- The strings that a strvec_t of src/xutils/cvector.c holds.
use native.Mathlib.Numerals.{add-one}
use duallive.Base.{
  ℕ, suc, ◌+◌, ◌≤◌, ◌<◌, ◌≡◌, ◌≢◌, ◌⊎◌, refl, ap, ◌∙◌, sym, arith, length, take, drop, ◌++◌, [],
  ◌∷◌, length-append, length-drop, Outcome, ok, length-take, take-append_le, take-append-drop, zero,
  drop-append_le,
}
use duallive.Base.Memory.{Bytes, nul_ended, NoNul}
use duallive.Cvector.{StrVec, text}
use duallive.Cvector.Append.{IsBuffer}

-- At offset `off` of `m` stand the bytes of `s` and a NUL.
abbrev pub HoldsAt : Bytes → ℕ → Bytes → Type 0
HoldsAt m off s = (off + length s < length m) × (take (length s + 1) (drop off m) ≡ nul_ended s)

-- A string stays where it is when memory grows behind it.
pub HoldsAt-append :
    (m more : Bytes) (off : ℕ) (s : Bytes) → HoldsAt m off s → HoldsAt (m ++ more) off s
HoldsAt-append m more off s h = (
  omega (arith, length-append m more),
  rw (drop-append_le off m more (omega arith))
      (take-append_le (length s + 1) (drop off m) more (omega (arith, length-drop off m)) ∙ h.1),
)

-- The first string is the empty one.
pub record IsValid (v : StrVec) : Type 0 where
  pub buffer : IsBuffer v.str v.size v.pos
  pub last_within : v.last_pos < v.pos
  pub first_empty : take 1 v.str ≡ 0 ∷ []

pub record Added (v : StrVec) (s : Bytes) (r : Outcome (ℕ × StrVec)) : Type 0 where
  pub off : ℕ
  pub vec : StrVec
  pub returns : r ≡ ok (off, vec)
  pub valid : IsValid vec
  pub more : Bytes
  pub extends : text vec ≡ text v ++ more
  pub holds : HoldsAt (text vec) off s
  pub is_last : vec.last_pos ≡ off
  pub bounded : vec.pos ≤ v.pos + length s + 1
  pub positive : (0 < v.last_pos) ⊎ (s ≢ []) → 0 < off

-- What lies within the first `p` bytes is seen in them.
pub take-drop-take :
    (o n p : ℕ) (m : Bytes)
    → o + n ≤ p
    → p ≤ length m
    → take n (drop o (take p m)) ≡ take n (drop o m)
take-drop-take o n p m h k =
    let is = length-take p m k in
    let whole : drop o (take p m) ++ drop p m ≡ drop o m =
      sym (drop-append_le o (take p m) (drop p m) (omega arith))
      ∙ ap (drop o) (take-append-drop p m) in
    sym (take-append_le n (drop o (take p m)) (drop p m) (omega (arith, length-drop o (take p m))))
    ∙ ap (take n) whole

-- A string other than the empty one does not stand at offset 0, where the empty one stands.
pub first_differs :
    (o : ℕ) (s m : Bytes)
    → take 1 m ≡ 0 ∷ []
    → NoNul s
    → s ≢ []
    → take (length s + 1) (drop o m) ≡ nul_ended s
    → 0 < o
first_differs (suc o) s m first clean some_byte h = omega arith
first_differs zero [] m first clean some_byte h = absurd (some_byte refl)
first_differs zero (x ∷ s) [] first clean some_byte h = absurd (ground arith)
first_differs zero (x ∷ s) (y ∷ m) first clean some_byte h =
    let bytes : take (suc (length (x ∷ s))) (y ∷ m) ≡ nul_ended (x ∷ s) = rw add-one at h in
    absurd (ground (arith, bytes))
