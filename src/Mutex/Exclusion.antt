-- ===== src/Mutex/Exclusion.antt =====
-- Threads that call mutex_enter, mutex_tryenter and mutex_exit of src/libspl/kernel.c, in any order.
use duallive.Base.{
  ℕ, ◌≡◌, ◌≢◌, refl, sym, subst, ◌∙◌, arith, inl, inr, Bool, true, false, ◌==◌, if◌then◌else◌,
  Bool-cases, ==→eq, eq→==, Option, none, some, Option-cases, ok, Returns,
}
use mathlib.Core.Bool.{false≢true}
use duallive.Mutex.{
  Pthread, done, busy, Kmutex, mutex_init, enter_lock, set_owner, try_lock, clear_owner,
  exit_unlock,
}

ok_eq : {A : Type 0} {a b : A} → ok a ≡ ok b → a ≡ b
ok_eq {A} e = cc

number_eq : {a b : ℕ} → ◌≡◌ {A = Option ℕ} (some a) (some b) → a ≡ b
number_eq e = cc

none-some : {a : ℕ} → none ≡ some a → ⊥
none-some e = ground arith

-- A mutex of pthreads: one thread holds it, pthread_mutex_lock returns once nobody does, and the holder
-- can unlock it.
pub record LawfulPthread {M : Type 0} (os : Pthread M) : Type 0 where
  pub holder : M → Option ℕ
  pub init_free : (os.init.0 ≡ true) × (holder os.init.1 ≡ none)
  pub lock_free :
      (m : M) (t : ℕ)
      → holder m ≡ none
      → ((os.lock m t).0 ≡ true) × (holder (os.lock m t).1 ≡ some t)
  pub try_free :
      (m : M) (t : ℕ)
      → holder m ≡ none
      → ((os.trylock m t).0 ≡ done) × (holder (os.trylock m t).1 ≡ some t)
  pub try_held :
      (m : M) (t u : ℕ)
      → holder m ≡ some u
      → ((os.trylock m t).0 ≡ busy) × (holder (os.trylock m t).1 ≡ some u)
  pub unlock_held :
      (m : M) (t : ℕ)
      → holder m ≡ some t
      → ((os.unlock m t).0 ≡ true) × (holder (os.unlock m t).1 ≡ none)

-- Where a thread is: outside, behind the call that took the mutex, behind the write of m_owner, or
-- behind the first statement of mutex_exit.
pub data Pc : Type 0 where
  outside entering inside leaving : Pc

pub record System (M : Type 0) : Type 0 where
  pub mutex : Kmutex M
  pub pc : ℕ → Pc

abbrev pub goes : {M : Type 0} → System M → ℕ → Pc → Kmutex M → System M
goes s t p m = record { mutex = m; pc = λ u. if t == u then p else s.pc u }

-- After try_lock.
abbrev pub tried : Bool → Pc
tried true = entering
tried false = outside

module _ {M : Type 0} (os : Pthread M) (law : LawfulPthread os) where
  pub data Step (s : System M) : System M → Type 0 where
    locks :
        (t : ℕ) (m : Kmutex M)
        → s.pc t ≡ outside
        → law.holder s.mutex.m_lock ≡ none
        → enter_lock os s.mutex t ≡ ok m
        → Step s (goes s t entering m)
    tries :
        (t : ℕ) (taken : Bool) (m : Kmutex M)
        → s.pc t ≡ outside
        → try_lock os s.mutex t ≡ ok (taken, m)
        → Step s (goes s t (tried taken) m)
    owns : (t : ℕ) → s.pc t ≡ entering → Step s (goes s t inside (set_owner os s.mutex t))
    leaves : (t : ℕ) → s.pc t ≡ inside → Step s (goes s t leaving (clear_owner os s.mutex))
    unlocks :
        (t : ℕ) (m : Kmutex M)
        → s.pc t ≡ leaving
        → exit_unlock os s.mutex t ≡ ok m
        → Step s (goes s t outside m)

  pub data Reach : System M → Type 0 where
    start : (m : Kmutex M) → mutex_init os ≡ ok m → Reach (record { mutex = m; pc = λ t. outside })
    later : {s s' : System M} → Reach s → Step s s' → Reach s'

  -- What a thread at a place knows of the mutex.
  abbrev pub Knows : Pc → ℕ → Kmutex M → Type 0
  Knows outside t m = law.holder m.m_lock ≢ some t
  Knows entering t m = (law.holder m.m_lock ≡ some t) × (m.m_owner ≡ none)
  Knows inside t m = (law.holder m.m_lock ≡ some t) × (m.m_owner ≡ some t)
  Knows leaving t m = (law.holder m.m_lock ≡ some t) × (m.m_owner ≡ none)

  pub record Exclusive (s : System M) : Type 0 where
    pub knows : (t : ℕ) → Knows (s.pc t) t s.mutex
    pub unowned : law.holder s.mutex.m_lock ≡ none → s.mutex.m_owner ≡ none

  -- A thread that does not have the mutex, before or after.
  stranger :
      (p : Pc) (u : ℕ) (m m' : Kmutex M)
      → law.holder m.m_lock ≢ some u
      → law.holder m'.m_lock ≢ some u
      → Knows p u m
      → Knows p u m'
  stranger outside u m m' before after k = after
  stranger entering u m m' before after k = absurd (before k.0)
  stranger inside u m m' before after k = absurd (before k.0)
  stranger leaving u m m' before after k = absurd (before k.0)

  same-Knows :
      (p : Pc) (u : ℕ) (m m' : Kmutex M)
      → law.holder m'.m_lock ≡ law.holder m.m_lock
      → m'.m_owner ≡ m.m_owner
      → Knows p u m
      → Knows p u m'
  same-Knows outside u m m' h o k = λ e. k (sym h ∙ e)
  same-Knows entering u m m' h o k = (h ∙ k.0, o ∙ k.1)
  same-Knows inside u m m' h o k = (h ∙ k.0, o ∙ k.1)
  same-Knows leaving u m m' h o k = (h ∙ k.0, o ∙ k.1)

  -- One thread goes on.
  all_know :
      (s : System M) (t : ℕ) (p : Pc) (m : Kmutex M)
      → Knows p t m
      → ((u : ℕ) → t ≢ u → Knows (s.pc u) u m)
      → (u : ℕ) → Knows (if t == u then p else s.pc u) u m
  all_know s t p m here others u = elim (Bool-cases (t == u)) [
    | inl same ↦ rw same (subst (λ n. Knows p n m) (==→eq t u same) here)
    | inr other ↦ rw other (others u (λ e. absurd (false≢true (sym other ∙ eq→== t u e))))
  ]

  someone_else : {o : Option ℕ} (t u : ℕ) → t ≢ u → o ≡ some t → o ≢ some u
  someone_else t u apart e f = apart (number_eq (sym e ∙ f))

  nobody : {o : Option ℕ} (u : ℕ) → o ≡ none → o ≢ some u
  nobody u e f = none-some (sym e ∙ f)

  -- Thread `t` takes the mutex, which nobody has.
  takes :
      (s : System M) (t : ℕ) (m : Kmutex M)
      → Exclusive s
      → law.holder s.mutex.m_lock ≡ none
      → law.holder m.m_lock ≡ some t
      → m.m_owner ≡ s.mutex.m_owner
      → Exclusive (goes s t entering m)
  takes s t m x free taken same = record {
    knows =
        all_know s t entering m (taken, same ∙ x.unowned free)
          (λ u apart.
            stranger (s.pc u) u s.mutex m (nobody u free) (someone_else t u apart taken)
              (x.knows u));
    unowned = λ e. absurd (nobody t e taken);
  }

  -- Thread `t`, that has the mutex, goes on to another place.
  keeps :
      (s : System M) (t : ℕ) (p : Pc) (m : Kmutex M)
      → Exclusive s
      → law.holder s.mutex.m_lock ≡ some t
      → Knows p t m
      → ((u : ℕ) → t ≢ u → law.holder m.m_lock ≢ some u)
      → (law.holder m.m_lock ≡ none → m.m_owner ≡ none)
      → Exclusive (goes s t p m)
  keeps s t p m x held here others unowned = record {
    knows = all_know s t p m here (λ u apart.
        stranger (s.pc u) u s.mutex m (someone_else t u apart held) (others u apart) (x.knows u));
    unowned = unowned;
  }

  enter_lock-returns :
      (mp : Kmutex M) (t : ℕ)
      → law.holder mp.m_lock ≡ none
      → enter_lock os mp t ≡ ok (record mp { m_lock = (os.lock mp.m_lock t).1 })
  unfolding enter_lock
  enter_lock-returns mp t free = rw (law.lock_free mp.m_lock t free).0 refl

  exit_unlock-returns :
      (mp : Kmutex M) (t : ℕ)
      → law.holder mp.m_lock ≡ some t
      → exit_unlock os mp t ≡ ok (record mp { m_lock = (os.unlock mp.m_lock t).1 })
  unfolding exit_unlock
  exit_unlock-returns mp t held = rw (law.unlock_held mp.m_lock t held).0 refl

  try_lock-free :
      (mp : Kmutex M) (t : ℕ)
      → law.holder mp.m_lock ≡ none
      → try_lock os mp t ≡ ok (true, record mp { m_lock = (os.trylock mp.m_lock t).1 })
  unfolding try_lock
  try_lock-free mp t free = rw (try_lock, (law.try_free mp.m_lock t free).0) refl

  try_lock-held :
      (mp : Kmutex M) (t u : ℕ)
      → law.holder mp.m_lock ≡ some u
      → try_lock os mp t ≡ ok (false, record mp { m_lock = (os.trylock mp.m_lock t).1 })
  unfolding try_lock
  try_lock-held mp t u held = rw (try_lock, (law.try_held mp.m_lock t u held).0) refl

  -- mutex_tryenter.
  tries-Exclusive :
      (s : System M) (t : ℕ) {r : Bool × Kmutex M}
      → Exclusive s
      → s.pc t ≡ outside
      → try_lock os s.mutex t ≡ ok r
      → Exclusive (goes s t (tried r.0) r.1)
  tries-Exclusive s t x out e = elim (Option-cases (law.holder s.mutex.m_lock)) [
    | inl free ↦
        subst (λ q. Exclusive (goes s t (tried q.0) q.1))
          (ok_eq (sym (try_lock-free s.mutex t free) ∙ e))
          (takes s t _ x free (law.try_free s.mutex.m_lock t free).1 refl)
    | inr (v, held) ↦
        let m = record s.mutex { m_lock = (os.trylock s.mutex.m_lock t).1 } in
        let same = (law.try_held s.mutex.m_lock t v held).1 ∙ sym held in
        subst (λ q. Exclusive (goes s t (tried q.0) q.1))
          (ok_eq (sym (try_lock-held s.mutex t v held) ∙ e))
          (record {
            knows =
                all_know s t outside m
                  (same-Knows outside t s.mutex m same refl
                    (subst (λ p. Knows p t s.mutex) out (x.knows t)))
                  (λ u apart. same-Knows (s.pc u) u s.mutex m same refl (x.knows u));
            unowned = λ none_has. x.unowned (sym same ∙ none_has);
          })
  ]

  Step-Exclusive : {s s' : System M} → Step s s' → Exclusive s → Exclusive s'
  unfolding set_owner clear_owner
  Step-Exclusive {s} (locks t m out free e) x =
      subst (λ m. Exclusive (goes s t entering m))
        (ok_eq (sym (enter_lock-returns s.mutex t free) ∙ e))
        (takes s t _ x free (law.lock_free s.mutex.m_lock t free).1 refl)
  Step-Exclusive {s} (tries t taken m out e) x = tries-Exclusive s t x out e
  Step-Exclusive {s} (owns t at) x =
      let k = subst (λ p. Knows p t s.mutex) at (x.knows t) in
      keeps s t inside (set_owner os s.mutex t) x k.0 (k.0, refl)
        (λ u apart. someone_else t u apart k.0) (λ e. absurd (nobody t e k.0))
  Step-Exclusive {s} (leaves t at) x =
      let k = subst (λ p. Knows p t s.mutex) at (x.knows t) in
      keeps s t leaving (clear_owner os s.mutex) x k.0 (k.0, refl)
        (λ u apart. someone_else t u apart k.0) (λ e. refl)
  Step-Exclusive {s} (unlocks t m at e) x =
      let k = subst (λ p. Knows p t s.mutex) at (x.knows t) in
      let free = (law.unlock_held s.mutex.m_lock t k.0).1 in
      subst (λ m. Exclusive (goes s t outside m))
        (ok_eq (sym (exit_unlock-returns s.mutex t k.0) ∙ e))
        (keeps s t outside _ x k.0 (nobody t free) (λ u apart. nobody u free) (λ e. k.1))

  init-Exclusive :
      (m : Kmutex M) → mutex_init os ≡ ok m → Exclusive (record { mutex = m; pc = λ t. outside })
  unfolding mutex_init
  init-Exclusive m e =
      let returns : mutex_init os ≡ ok (record { m_lock = os.init.1; m_owner = none }) =
        rw (law.init_free.0) refl in
      subst (λ m. Exclusive (record { mutex = m; pc = λ t. outside })) (ok_eq (sym returns ∙ e))
        (record { knows = λ t. nobody t law.init_free.1; unowned = λ e. refl })

  Reach-Exclusive : {s : System M} → Reach s → Exclusive s
  Reach-Exclusive (start m e) = init-Exclusive m e
  Reach-Exclusive (later r step) = Step-Exclusive step (Reach-Exclusive r)

  -- The thread that has the mutex is not outside.
  has-holder :
      (p : Pc) (t : ℕ) (m : Kmutex M) → p ≢ outside → Knows p t m → law.holder m.m_lock ≡ some t
  has-holder outside t m in_it k = absurd (in_it refl)
  has-holder entering t m in_it k = k.0
  has-holder inside t m in_it k = k.0
  has-holder leaving t m in_it k = k.0

  -- What a thread may rely on between mutex_enter and mutex_exit.
  pub record Sole (s : System M) (t : ℕ) : Type 0 where
    pub alone : (u : ℕ) → s.pc u ≢ outside → u ≡ t
    pub owner : s.pc t ≡ inside → s.mutex.m_owner ≡ some t
    pub exits : Returns (λ m. law.holder m.m_lock ≡ none) (exit_unlock os s.mutex t)

  -- After mutex_init, in whatever order threads run the statements of mutex_enter, mutex_tryenter and
  -- mutex_exit: a thread that has taken the mutex and not given it back is the only one; behind
  -- mutex_enter it is what m_owner says; and the VERIFY of its mutex_exit holds, which frees the mutex.
  -- Conditions: what pthread_mutex_init, lock, trylock and unlock document.
  pub Reach-Sole : {s : System M} → Reach s → (t : ℕ) → s.pc t ≢ outside → Sole s t
  Reach-Sole {s} r t in_it =
      let x = Reach-Exclusive r in
      let held = has-holder (s.pc t) t s.mutex in_it (x.knows t) in
      record {
        alone = λ u in_u. number_eq (sym (has-holder (s.pc u) u s.mutex in_u (x.knows u)) ∙ held);
        owner = λ at. (subst (λ p. Knows p t s.mutex) at (x.knows t)).1;
        exits = (_, exit_unlock-returns s.mutex t held, (law.unlock_held s.mutex.m_lock t held).1);
      }
