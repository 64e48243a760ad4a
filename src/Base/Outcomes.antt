-- ===== src/Base/Outcomes.antt =====
-- What a run of C code comes to: a value, or a fault that ends the program or leaves C.
use mathlib.Core.Path.{subst, ◌≡◌, refl}
use mathlib.Core.Bool.{Bool, true, false}
use mathlib.Core.Logic.{◌⊎◌, inl, inr}
use native.Mathlib.Omega.{arith}

-- `verify_failed` is an assert that fails (VERIFY, ASSERT), `out_of_bounds` an access outside an
-- object, `type_confusion` a va_arg of another type than the argument's, and `out_of_fuel` no
-- behaviour of the code: the fuel of a model's loop ran out.
pub data Fault : Type 0 where
  verify_failed out_of_bounds type_confusion out_of_fuel : Fault

pub data Outcome {ℓ} (A : Type ℓ) : Type ℓ where
  ok : A → Outcome A
  fault : Fault → Outcome A

infixl 5 ◌>>=◌ ◌>>◌
abbrev pub ◌>>=◌ {ℓ κ} : {A : Type ℓ} {B : Type κ} → Outcome A → (A → Outcome B) → Outcome B
ok a >>= f = f a
fault e >>= f = fault e

abbrev pub ◌>>◌ {ℓ} : {B : Type ℓ} → Outcome (Unit {0}) → Outcome B → Outcome B
m >> k = m >>= λ _. k

-- VERIFY(cond)
abbrev pub verify : Bool → Outcome (Unit {0})
verify true = ok tt
verify false = fault verify_failed

-- A bounds check, implicit in each access of the source.
abbrev pub in_bounds : Bool → Outcome (Unit {0})
in_bounds true = ok tt
in_bounds false = fault out_of_bounds

pub bind-eq-ok {ℓ κ} :
    {A : Type ℓ} {B : Type κ} (m : Outcome A) (f : A → Outcome B) {b : B}
    → (m >>= f) ≡ ok b
    → (a : A) × (m ≡ ok a) × (f a ≡ ok b)
bind-eq-ok (ok a) f h = (a, refl, h)
bind-eq-ok (fault e) f h = ground arith

pub bind_assoc {ℓ κ μ} :
    {A : Type ℓ} {B : Type κ} {C : Type μ} (m : Outcome A) (f : A → Outcome B) (g : B → Outcome C)
    → (m >>= f >>= g) ≡ (m >>= λ a. f a >>= g)
bind_assoc (ok a) f g = refl
bind_assoc (fault e) f g = refl

-- What a run returns, without a fault, and that it holds.
abbrev pub Returns {ℓ κ} : {A : Type κ} → (A → Type ℓ) → Outcome A → Type (ℓ ⊔ κ)
Returns {A} P r = (a : A) × (r ≡ ok a) × P a

pub Returns-bind {ℓ κ} :
    {A B : Type 0} {P : A → Type ℓ} {Q : B → Type κ} (r : Outcome A) (f : A → Outcome B)
    → Returns P r
    → ((a : A) → P a → Returns Q (f a))
    → Returns Q (r >>= f)
Returns-bind r f (a, e, h) next = rw e (next a h)

-- What a run comes to, where it may also end in one of the faults `E`.
abbrev pub Ends {ℓ κ} : {A : Type κ} → (Fault → Type ℓ) → (A → Type ℓ) → Outcome A → Type (ℓ ⊔ κ)
Ends {A} E P r = Returns P r ⊎ ((e : Fault) × (r ≡ fault e) × E e)

pub Ends-bind {ℓ} :
    {A B : Type 0} (E : Fault → Type ℓ) (P : A → Type ℓ) (Q : B → Type ℓ) (r : Outcome A)
    (f : A → Outcome B)
    → Ends E P r
    → ((a : A) → P a → Ends E Q (f a))
    → Ends E Q (r >>= f)
Ends-bind E P Q r f (inl (a, e, h)) next = rw e (next a h)
Ends-bind E P Q r f (inr (x, e, h)) next = rw e (inr (x, refl, h))

pub Ends-of :
    {A : Type 0} {E : Fault → Type 0} (r : Outcome A)
    → ((e : Fault) → r ≡ fault e → E e)
    → Ends E (λ a. r ≡ ok a) r
Ends-of (ok a) blame = inl (a, refl, refl)
Ends-of (fault e) blame = inr (e, refl, blame e refl)

pub Ends-blame {ℓ} :
    {A : Type 0} {E F : Fault → Type ℓ} {P : A → Type ℓ} (r : Outcome A)
    → ((e : Fault) → E e → F e)
    → Ends E P r
    → Ends F P r
Ends-blame r weaken (inl returns) = inl returns
Ends-blame r weaken (inr (e, eq, h)) = inr (e, eq, weaken e h)

pub Ends-map {ℓ} :
    {A : Type 0} {E : Fault → Type ℓ} {P Q : A → Type ℓ} (r : Outcome A)
    → ((a : A) → P a → Q a)
    → Ends E P r
    → Ends E Q r
Ends-map r weaken (inl (a, e, h)) = inl (a, e, weaken a h)
Ends-map r weaken (inr faults) = inr faults

-- Whatever is returned has `P`, if anything is.
abbrev pub Safe {ℓ κ} : {A : Type κ} → (A → Type ℓ) → Outcome A → Type ℓ
Safe P (ok a) = P a
Safe P (fault e) = Unit

pub Safe-bind {ℓ} :
    {A B : Type 0} (P : A → Type ℓ) (Q : B → Type ℓ) (r : Outcome A) (f : A → Outcome B)
    → Safe P r
    → ((a : A) → P a → Safe Q (f a))
    → Safe Q (r >>= f)
Safe-bind P Q (ok a) f h next = next a h
Safe-bind P Q (fault e) f h next = tt

pub Safe-ok {ℓ} : {A : Type 0} (P : A → Type ℓ) {r : Outcome A} {a : A} → Safe P r → r ≡ ok a → P a
Safe-ok P h e = subst (Safe P) e h

-- A run ends as another does: in the same fault, or with results that are related.
abbrev pub Follows : {A B : Type 0} → (A → B → Type 0) → Outcome A → Outcome B → Type 0
Follows {B} R (ok x) r = (y : B) × (r ≡ ok y) × R x y
Follows R (fault e) r = r ≡ fault e

pub Follows-bind :
    {A B C D : Type 0} (P : A → B → Type 0) (R : C → D → Type 0) (s : Outcome A) (r : Outcome B)
    (f : A → Outcome C) (g : B → Outcome D)
    → Follows P s r
    → ((x : A) (y : B) → P x y → Follows R (f x) (g y))
    → Follows R (s >>= f) (r >>= g)
Follows-bind P R (ok x) r f g (y, e, h) next = rw e (next x y h)
Follows-bind P R (fault x) r f g e next = rw e refl

-- A call that both make.
pub Follows-both :
    {A C D : Type 0} (R : C → D → Type 0) (r : Outcome A) (f : A → Outcome C) (g : A → Outcome D)
    → ((x : A) → Follows R (f x) (g x))
    → Follows R (r >>= f) (r >>= g)
Follows-both R (ok x) f g next = next x
Follows-both R (fault e) f g next = refl

-- One more call, which returns.
pub Follows-then :
    {A B D : Type 0} (P : A → B → Type 0) (R : A → D → Type 0) (s : Outcome A) (r : Outcome B)
    (g : B → Outcome D)
    → Follows P s r
    → ((x : A) (y : B) → P x y → Returns (R x) (g y))
    → Follows R s (r >>= g)
Follows-then P R (ok x) r g (y, e, h) next = rw e (next x y h)
Follows-then P R (fault x) r g e next = rw e refl

pub Follows-return :
    {A D : Type 0} (R : A → D → Type 0) (r : Outcome A) (g : A → Outcome D)
    → ((x : A) → Returns (R x) (g x))
    → Follows R r (r >>= g)
Follows-return R (ok x) g next = next x
Follows-return R (fault e) g next = refl
