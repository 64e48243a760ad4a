-- ===== src/ArbUuid/Runs.antt =====
-- Sequences of arb_uuid_lock and arb_uuid_unlock, of src/duallive/arbitrary_disk.c, in any order that
-- the hosts' threads come to mgr->mtx.
use duallive.Base.{
  ℕ, zero, suc, ◌+◌, ◌^◌, ◌≤◌, ◌<◌, ◌≡◌, refl, sym, arith, inl, inr, List, [], ◌∷◌, length, Option,
  none, some, Option-cases, Outcome, ok, Returns, ◌>>=◌, subst,
}
use mathlib.Core.Path.{fun_ext}
use duallive.Duallive.{Uuid}
use duallive.ArbUuid.{Lists, Disks, Manager, arb_uuid_lock, arb_uuid_unlock}
use duallive.ArbUuid.Sound.{Lawful, Sound, occurs, delete, occurs-delete}
use duallive.ArbUuid.Locks.{arb_uuid_lock-Locked}
use duallive.ArbUuid.References.{known}
use duallive.ArbUuid.Unlock.{arb_uuid_unlock-Unlocked}

pub data Call : Type 0 where
  lock : Uuid → Call
  -- of a node that somebody holds, by its place among those
  unlock : ℕ → Call

abbrev pub nth : List ℕ → ℕ → Option ℕ
nth [] i = none
nth (a ∷ held) zero = some a
nth (a ∷ held) (suc i) = nth held i

occurs-length : (a : ℕ) (held : List ℕ) → occurs a held ≤ length held
unfolding occurs
occurs-length a [] = omega arith
occurs-length a (b ∷ held) = ground (arith, occurs-length a held)

nth-occurs : (held : List ℕ) (i a : ℕ) → nth held i ≡ some a → 0 < occurs a held
unfolding occurs
nth-occurs [] i a e = absurd (ground arith)
nth-occurs (b ∷ held) zero a e = ground arith
nth-occurs (b ∷ held) (suc i) a e = ground (arith, nth-occurs held i a e)

length-delete : (a : ℕ) (held : List ℕ) → length (delete a held) ≤ length held
unfolding delete
length-delete a [] = omega arith
length-delete a (b ∷ held) = ground (arith, length-delete a held)

module _ {T L W D : Type 0} (lists : Lists T L) (disks : Disks W D) (law : Lawful lists) where
  -- The nodes that are held after the call.
  perform : Call → List ℕ → Manager T L D → W → Outcome (List ℕ × Manager T L D × W)
  perform (lock u) held m w = do (a, m, w) ← arb_uuid_lock lists disks m w u; ok (a ∷ held, m, w)
  perform (unlock i) held m w = elim (nth held i) [
    | none ↦ ok (held, m, w)
    | some a ↦ do (m, w) ← arb_uuid_unlock lists disks m w a; ok (delete a held, m, w)
  ]

  pub perform_all : List Call → List ℕ → Manager T L D → W → Outcome (List ℕ × Manager T L D × W)
  unfolding perform
  perform_all [] held m w = ok (held, m, w)
  perform_all (c ∷ calls) held m w = do
    (held, m, w) ← perform c held m w
    perform_all calls held m w

  -- How often each node is held.
  abbrev pub holders : List ℕ → ℕ → ℕ
  holders held a = occurs a held

  -- The manager agrees with the nodes that are held.
  abbrev pub Agrees : List ℕ → Manager T L D → Type 0
  Agrees held m = Sound lists law (holders held) (holders held) m

  -- The nodes that are held before and after keep their uuids and disks.
  abbrev pub Kept : List ℕ → Manager T L D → List ℕ → Manager T L D → Type 0
  Kept held m held' m' =
      (b : ℕ) → 0 < occurs b held → 0 < occurs b held' → known (m'.nodes b) ≡ known (m.nodes b)

  perform-Agrees :
      (c : Call) (held : List ℕ) (m : Manager T L D) (w : W)
      → Agrees held m
      → length held + 1 < 2 ^ 32
      → Returns
          (λ r. Agrees r.0 r.1 × (length r.0 ≤ length held + 1) × Kept held m r.0 r.1)
          (perform c held m w)
  unfolding perform occurs
  perform-Agrees (lock u) held m w s small =
      let (r, returns, l) =
        arb_uuid_lock-Locked lists disks law m w u s
          (λ a. omega (arith, occurs-length a held, small)) in
      rw returns
        ((r.0 ∷ held, r.1, r.2), refl, (l.sound, omega arith, λ b before after. l.kept b before))
  perform-Agrees (unlock i) held m w s small = elim (Option-cases (nth held i)) [
    | inl e ↦ rw (perform, e) ((held, m, w), refl, (s, omega arith, λ b before after. refl))
    | inr (a, e) ↦
        let (r, returns, l) =
          arb_uuid_unlock-Unlocked lists disks law m w a s (nth-occurs held i a e) in
        let same = fun_ext (λ b. occurs-delete a b held) in
        rw (perform, e, returns)
          (
            (delete a held, r.0, r.1),
            refl,
            (
              subst (λ f. Sound lists law f f r.0) (sym same) l.sound,
              omega (arith, length-delete a held),
              λ b before after. l.kept b (subst (λ n. 0 < n) (occurs-delete a b held) after),
            ),
          )
  ]

  -- From a manager that agrees with the nodes that are held, every sequence of arb_uuid_lock, and of
  -- arb_uuid_unlock on nodes that are held, comes to its end without a fault, and the manager then agrees
  -- with the nodes that are held then: those are not freed, each has as many references as holders, and
  -- the others are in the cache, each once. The nodes that are held and the calls are fewer than 2^32.
  pub perform_all-Agrees :
      (calls : List Call) (held : List ℕ) (m : Manager T L D) (w : W)
      → Agrees held m
      → length held + length calls < 2 ^ 32
      → Returns (λ r. Agrees r.0 r.1) (perform_all calls held m w)
  unfolding perform_all
  perform_all-Agrees [] held m w s small = ((held, m, w), refl, s)
  perform_all-Agrees (c ∷ calls) held m w s small =
      let (r, returns, (s1, more, kept)) = perform-Agrees c held m w s (omega arith) in
      rw returns (perform_all-Agrees calls r.0 r.1 r.2 s1 (omega (arith, more, small)))
