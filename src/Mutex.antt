-- ===== src/Mutex.antt =====
-- Mutexes: src/libspl/kernel.c, inc/libspl/sys/mutex.h. The mutexes of pthreads are a parameter. A call by
-- two threads at once is two steps of each: the call of pthreads, and the write to m_owner.
pub mod Exclusion
use duallive.Base.{
  ℕ, ◌≡◌, Bool, true, false, Option, none, some, Outcome, ok, fault, verify_failed, verify, ◌>>=◌,
  ◌>>◌, ◌==◌,
}

-- What pthread_mutex_trylock returns: 0, EBUSY or another error.
pub data TryResult : Type 0 where
  done busy error : TryResult

-- The calls of pthreads, over a mutex of theirs and the thread that calls: whether 0 is returned, and the
-- mutex then. A thread is a number.
pub record Pthread (M : Type 0) : Type 0 where
  pub init : Bool × M
  pub destroy : M → Bool
  pub lock : M → ℕ → Bool × M
  pub trylock : M → ℕ → TryResult × M
  pub unlock : M → ℕ → Bool × M

-- kmutex_t: `none` is an m_owner of zeros.
pub record Kmutex (M : Type 0) : Type 0 where
  pub m_lock : M
  pub m_owner : Option ℕ

module _ {M : Type 0} (os : Pthread M) where
  unfoldable pub mutex_init : Outcome (Kmutex M)
  mutex_init = verify os.init.0 >> ok (record { m_lock = os.init.1; m_owner = none })

  pub mutex_destroy : Kmutex M → Outcome (Unit {0})
  mutex_destroy mp = verify (os.destroy mp.m_lock)

  -- The first statement of mutex_enter.
  unfoldable pub enter_lock : Kmutex M → ℕ → Outcome (Kmutex M)
  enter_lock mp self =
      let (locked, m) = os.lock mp.m_lock self in verify locked >> ok (record mp { m_lock = m })

  -- mp->m_owner = pthread_self()
  unfoldable pub set_owner : Kmutex M → ℕ → Kmutex M
  set_owner mp self = record mp { m_owner = some self }

  pub mutex_enter : Kmutex M → ℕ → Outcome (Kmutex M)
  unfolding enter_lock set_owner
  mutex_enter mp self = do mp ← enter_lock mp self; ok (set_owner mp self)

  -- The call of pthreads in mutex_tryenter, and whether the mutex was taken.
  unfoldable pub try_lock : Kmutex M → ℕ → Outcome (Bool × Kmutex M)
  try_lock mp self =
      let (rc, m) = os.trylock mp.m_lock self in
      let mp = record mp { m_lock = m } in
      elim rc [ done ↦ ok (true, mp) | busy ↦ ok (false, mp) | error ↦ fault verify_failed ]

  pub mutex_tryenter : Kmutex M → ℕ → Outcome (Bool × Kmutex M)
  unfolding try_lock set_owner
  mutex_tryenter mp self = do
    (taken, mp) ← try_lock mp self
    ok (elim taken [ true ↦ (true, set_owner mp self) | false ↦ (false, mp) ])

  -- The first statement of mutex_exit.
  unfoldable pub clear_owner : Kmutex M → Kmutex M
  clear_owner mp = record mp { m_owner = none }

  -- The second one.
  pub exit_unlock : Kmutex M → ℕ → Outcome (Kmutex M)
  exit_unlock mp self =
      let (unlocked, m) = os.unlock mp.m_lock self in
      verify unlocked >> ok (record mp { m_lock = m })

  pub mutex_exit : Kmutex M → ℕ → Outcome (Kmutex M)
  unfolding clear_owner exit_unlock
  mutex_exit mp self = exit_unlock (clear_owner mp) self
