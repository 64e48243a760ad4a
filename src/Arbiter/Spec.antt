-- ===== src/Arbiter/Spec.antt =====
-- The reference that the calls of the arbiter in src/duallive/arbitrary_disk.c are compared with: the same
-- requests on one disk, without locks, nodes or a cache.
use duallive.Base.{
  ℕ, Bool, true, false, Option, none, some, Outcome, ok, fault, verify_failed, verify, ◌>>=◌, ◌>>◌,
}
use duallive.Duallive.{Uuid, Ver, Desc}
use duallive.Arbiter.{DiskInst, DiskCalls, Op, is_set}

-- What is done to the disk of one uuid, whose lock is at `a`, without locks, nodes or a cache.
module _ {W F : Type 0} (calls : DiskCalls W F) (mgr : ℕ) where
  -- The disk that is there, or the file that is loaded; `none` for NULL.
  unfoldable pub first_disk :
      W → ℕ → Uuid → Bool → Option (DiskInst F) → Outcome (Option (DiskInst F) × W)
  first_disk w a u create (some d) = ok (some d, w)
  first_disk w a u create none = do
    (fm, w) ← calls.load w u create
    ok (
      elim fm [
        | none ↦ none
        | some fm ↦
            some (record { fm = fm; mgr = some mgr; lock = some a; dli = none; desc = none })
      ],
      w,
    )

  -- The pair is entered.
  unfoldable pub enter : W → Option (DiskInst F) → Desc → Outcome (DiskInst F × W)
  enter w none desc = fault verify_failed
  enter w (some d) desc = do
    (dli, fm, w) ← calls.insert_dli w d.fm desc
    verify (is_set dli)
    ok (record d { fm = fm; dli = dli; desc = some desc }, w)

  unfoldable pub entered : W → ℕ → Option (DiskInst F) → Desc → Outcome (DiskInst F × W)
  unfolding first_disk enter
  entered w a there desc = do (d, w) ← first_disk w a desc.uuid true there; enter w d desc

  -- A request to select or query: the answer, and the file.
  unfoldable pub answer_request :
      Op W F → W → ℕ → Option (DiskInst F) → Desc → Ver → Outcome (Ver × F × W)
  unfolding entered
  answer_request op w a there desc req = do (d, w) ← entered w a there desc; op w d req

  unfoldable pub remove_opened : W → Option (DiskInst F) → Desc → Outcome (Option F × W)
  remove_opened w none desc = ok (none, w)
  remove_opened w (some d) desc = do (fm, w) ← calls.remove_dli w d.fm desc; ok (some fm, w)

  -- A request to remove.
  unfoldable pub remove_request : W → ℕ → Option (DiskInst F) → Desc → Outcome (Option F × W)
  unfolding first_disk remove_opened
  remove_request w a there desc = do
    (d, w) ← first_disk w a desc.uuid false there
    remove_opened w d desc
