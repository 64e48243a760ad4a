-- ===== src/Base/Patches.antt =====
-- Parts of memory that are written over, and what stands in a window of it afterwards.
use Prim.Native.Nat.{ℕ, ◌+◌, ◌-◌, ◌≤◌}
use mathlib.Core.Path.{◌≡◌, ap, ◌∙◌, sym}
use mathlib.Core.List.{[], ◌++◌, append_assoc, append-nil}
use mathlib.Core.Logic.{◌⊎◌, inl, inr}
use native.Mathlib.Omega.{arith}
use duallive.Base.Lists.{
  length, take, drop, length-append, length-take, length-drop, take-append, drop-append,
  take-append_le, drop-append_le, take-append-drop, drop-drop,
}
use duallive.Base.Outcomes.{ok}
use duallive.Base.Memory.{
  Bytes, le, un_le, length-le, un_le-le, Fits, read_at, write_at, read_word, read_at-ok,
  write_at-ok, read_word-ok, length-write,
}

-- The `n` bytes at `off`.
abbrev pub window : ℕ → ℕ → Bytes → Bytes
window off n m = take n (drop off m)

-- `m` with `bs` written at `off`.
pub patch : ℕ → Bytes → Bytes → Bytes
patch off bs m = take off m ++ (bs ++ drop (off + length bs) m)

pub write_at-patch :
    (off : ℕ) (bs m : Bytes) → off + length bs ≤ length m → write_at off bs m ≡ ok (patch off bs m)
unfolding patch
write_at-patch off bs m h = write_at-ok off bs m h

pub length-patch :
    (off : ℕ) (bs m : Bytes) → off + length bs ≤ length m → length (patch off bs m) ≡ length m
unfolding patch
length-patch off bs m h = length-write off bs m h

pub length-window : (off n : ℕ) (m : Bytes) → off + n ≤ length m → length (window off n m) ≡ n
length-window off n m h = length-take n (drop off m) (omega (arith, length-drop off m))

-- A window on what was written.
pub window-patch_self :
    (off n : ℕ) (bs m : Bytes)
    → n ≡ length bs
    → off + length bs ≤ length m
    → window off n (patch off bs m) ≡ bs
unfolding patch
window-patch_self off n bs m e h =
    ap (take n) (
      drop-append off (take off m) (bs ++ drop (off + length bs) m)
        (sym (length-take off m (omega arith))))
    ∙ take-append n bs (drop (off + length bs) m) e

-- What stands before the part that differs.
window_front :
    (a n off : ℕ) (m x : Bytes)
    → a + n ≤ off
    → off ≤ length m
    → window a n (take off m ++ x) ≡ take n (drop a (take off m))
window_front a n off m x h k =
    let size = length-take off m k in
    ap (take n) (drop-append_le a (take off m) x (omega arith))
    ∙ take-append_le n (drop a (take off m)) x (omega (arith, length-drop a (take off m)))

pub window-patch_before :
    (a n off : ℕ) (bs m : Bytes)
    → a + n ≤ off
    → off + length bs ≤ length m
    → window a n (patch off bs m) ≡ window a n m
unfolding patch
window-patch_before a n off bs m h k =
    window_front a n off m (bs ++ drop (off + length bs) m) h (omega arith)
    ∙ sym (window_front a n off m (drop off m) h (omega arith))
    ∙ ap (window a n) (take-append-drop off m)

pub drop-patch :
    (a off : ℕ) (bs m : Bytes)
    → off + length bs ≤ a
    → off + length bs ≤ length m
    → drop a (patch off bs m) ≡ drop a m
unfolding patch
drop-patch a off bs m h k =
    let stop = off + length bs in
    let front = take off m ++ bs in
    let size : stop ≡ length front =
      omega (arith, length-append (take off m) bs, length-take off m) in
    let split : stop + (a - stop) ≡ a = omega arith in
    ap (drop a) (sym (append_assoc (take off m) bs (drop stop m)))
    ∙ ap (λ n. drop n (front ++ drop stop m)) (sym split)
    ∙ sym (drop-drop stop (a - stop) (front ++ drop stop m))
    ∙ ap (drop (a - stop)) (drop-append stop front (drop stop m) size)
    ∙ drop-drop stop (a - stop) m
    ∙ ap (λ n. drop n m) split

pub window-patch_after :
    (a n off : ℕ) (bs m : Bytes)
    → off + length bs ≤ a
    → off + length bs ≤ length m
    → window a n (patch off bs m) ≡ window a n m
window-patch_after a n off bs m h k = ap (take n) (drop-patch a off bs m h k)

-- A window in a window.
pub window-window :
    (a n off size : ℕ) (m : Bytes)
    → a + n ≤ size
    → off + size ≤ length m
    → window a n (window off size m) ≡ window (off + a) n m
window-window a n off size m h k =
    sym (
      window_front a n size (drop off m) (drop size (drop off m)) h
        (omega (arith, length-drop off m)))
    ∙ ap (window a n) (take-append-drop size (drop off m))
    ∙ ap (take n) (drop-drop off a m)

-- A word in memory.
pub read_word-window :
    (off n : ℕ) (m : Bytes) → off + n ≤ length m → read_word off n m ≡ ok (un_le n (window off n m))
read_word-window off n m h = read_word-ok off n m h

pub read_at-window :
    (off n : ℕ) (m : Bytes) → off + n ≤ length m → read_at off n m ≡ ok (window off n m)
read_at-window off n m h = read_at-ok off n m h

pub un_le-le_all : (n v : ℕ) → Fits n v → un_le n (le n v) ≡ v
un_le-le_all n v h = ap (un_le n) (sym (append-nil (le n v))) ∙ un_le-le n v [] h

-- What is written elsewhere leaves a window alone.
pub window-patch_ne :
    (a n off : ℕ) (bs m : Bytes)
    → off + length bs ≤ length m
    → (a + n ≤ off) ⊎ (off + length bs ≤ a)
    → window a n (patch off bs m) ≡ window a n m
window-patch_ne a n off bs m k (inl h) = window-patch_before a n off bs m h k
window-patch_ne a n off bs m k (inr h) = window-patch_after a n off bs m h k

-- `m'` is `m` with the `n` bytes `bs` at `off`.
pub record Wrote (off n : ℕ) (bs m m' : Bytes) : Type 0 where
  pub same_size : length m' ≡ length m
  pub here : window off n m' ≡ bs
  pub elsewhere : (a k : ℕ) → (a + k ≤ off) ⊎ (off + n ≤ a) → window a k m' ≡ window a k m

pub write_at-Wrote :
    (off n : ℕ) (bs m : Bytes)
    → n ≡ length bs
    → off + n ≤ length m
    → (m' : Bytes) × (write_at off bs m ≡ ok m') × Wrote off n bs m m'
write_at-Wrote off n bs m e h =
    let fits : off + length bs ≤ length m = omega (arith, e) in
    (
      patch off bs m,
      write_at-patch off bs m fits,
      record {
        same_size = length-patch off bs m fits;
        here = window-patch_self off n bs m e fits;
        elsewhere = λ a k apart. window-patch_ne a k off bs m fits (disjoint a k apart);
      },
    )
  where
    disjoint : (a k : ℕ) → (a + k ≤ off) ⊎ (off + n ≤ a) → (a + k ≤ off) ⊎ (off + length bs ≤ a)
    disjoint a k (inl before) = inl before
    disjoint a k (inr behind) = inr (omega (arith, e))

-- A word that is written.
pub write_le-Wrote :
    (off n v : ℕ) (m : Bytes)
    → off + n ≤ length m
    → (m' : Bytes) × (write_at off (le n v) m ≡ ok m') × Wrote off n (le n v) m m'
write_le-Wrote off n v m h = write_at-Wrote off n (le n v) m (sym (length-le n v)) h

pub Wrote-word :
    (off n v : ℕ) (m m' : Bytes)
    → Fits n v
    → Wrote off n (le n v) m m'
    → un_le n (window off n m') ≡ v
Wrote-word off n v m m' f w = ap (un_le n) w.here ∙ un_le-le_all n v f
