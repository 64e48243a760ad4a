-- ===== src/Tests/Mutexes.antt =====
-- A mutex of src/libspl/kernel.c.
use duallive.Base.{ℕ, ◌≢◌, refl, arith, true, false, Option, none, some}
use duallive.Mutex.{Pthread, TryResult, done, busy, Kmutex, mutex_init, enter_lock, try_lock}
use duallive.Mutex.Exclusion.{
  LawfulPthread, System, goes, outside, entering, Reach, start, later, locks, tries, Sole,
  Reach-Sole,
}

-- A mutex is the thread that has it.
abbrev try_it : Option ℕ → ℕ → TryResult × Option ℕ
try_it none t = (done, some t)
try_it (some u) t = (busy, some u)

abbrev simple : Pthread (Option ℕ)
simple = record {
  init = (true, none);
  destroy = λ m. true;
  lock = λ m t. (true, some t);
  trylock = try_it;
  unlock = λ m t. (true, none);
}

simple_law : LawfulPthread simple
simple_law = record {
  holder = λ m. m;
  init_free = (refl, refl);
  lock_free = λ m t free. (refl, refl);
  try_free = λ m t free. rw free (refl, refl);
  try_held = λ m t u held. rw held (refl, refl);
  unlock_held = λ m t held. (refl, refl);
}

-- Thread 7 has the mutex, and thread 8 has tried to take it.
abbrev taken_7 : Kmutex (Option ℕ)
taken_7 = record { m_lock = some 7; m_owner = none }

abbrev free_mutex : Kmutex (Option ℕ)
free_mutex = record { m_lock = none; m_owner = none }

abbrev begun : System (Option ℕ)
begun = record { mutex = free_mutex; pc = λ t. outside }

abbrev contended : System (Option ℕ)
contended = goes (goes begun 7 entering taken_7) 8 outside taken_7

contended-Reach : Reach simple simple_law contended
unfolding mutex_init enter_lock try_lock simple_law
contended-Reach =
    let r0 : Reach simple simple_law begun = start free_mutex refl in
    let r1 : Reach simple simple_law (goes begun 7 entering taken_7) =
      later r0 (locks 7 taken_7 refl refl refl) in
    later r1 (tries 8 false taken_7 refl refl)

entering_ne_outside : entering ≢ outside
entering_ne_outside e = ground arith

Reach-Sole_example : Sole simple simple_law contended 7
Reach-Sole_example = Reach-Sole simple simple_law contended-Reach 7 entering_ne_outside
