-- ===== src/FileMap/Sessions.antt =====
-- A file_map_t from file_map_init to file_map_fini: src/xutils/file_map.c.
use duallive.Base.{ℕ, ◌≡◌, refl, List, [], ◌∷◌, Bool, Outcome, ok, ◌>>=◌, Returns}
use duallive.Base.Memory.{Bytes}
use duallive.Kmem.{Allocator}
use duallive.FileSystem.{System}
use duallive.FileMap.{
  FileMap, Mode, file_map_init, file_map_set_size, file_map_expand, file_map_open_, file_map_sync,
  file_map_fini,
}
use duallive.FileMap.Resources.{Tracks, Handle, Balanced, Unmapped-Balanced}
use duallive.FileMap.Operations.{
  After, file_map_set_size-Balanced, file_map_expand-Balanced, file_map_open_-Balanced,
  file_map_sync-Balanced, file_map_fini-returns,
}

pub data Call : Type 0 where
  set_size expand : ℕ → Call
  open_map : Bool → Mode → Call
  sync : Call

module _ {W : Type 0} (os : System W) ⦃heap : Allocator⦄ where
  perform : Call → W → FileMap → Outcome (Bool × FileMap × W)
  perform (set_size n) w fm = file_map_set_size os w fm n
  perform (expand n) w fm = file_map_expand os w fm n
  perform (open_map reopen mode) w fm = file_map_open_ os w fm reopen mode
  perform sync w fm = let (done, w) = file_map_sync os w fm in ok (done, fm, w)

  perform_all : List Call → W → FileMap → Outcome (FileMap × W)
  unfolding perform
  perform_all [] w fm = ok (fm, w)
  perform_all (c ∷ calls) w fm = do (done, fm, w) ← perform c w fm; perform_all calls w fm

  -- The calls, whatever they return, between file_map_init and file_map_fini.
  pub session : W → Bytes → List Call → Outcome W
  unfolding perform_all
  session w path calls = do
    (fm, w) ← perform_all calls w (file_map_init path)
    ok (file_map_fini os w fm)

  module _ (t : Tracks os) (hs : List Handle) (ms : List (ℕ × ℕ)) where
    perform-Balanced :
        (c : Call) (w : W) (fm : FileMap)
        → Balanced os t hs ms fm w
        → Returns (After os t hs ms) (perform c w fm)
    unfolding perform
    perform-Balanced (set_size n) w fm b = file_map_set_size-Balanced os t hs ms w fm n b
    perform-Balanced (expand n) w fm b = file_map_expand-Balanced os t hs ms w fm n b
    perform-Balanced (open_map reopen mode) w fm b =
        file_map_open_-Balanced os t hs ms w fm reopen mode b
    perform-Balanced sync w fm b = (_, refl, file_map_sync-Balanced os t hs ms w fm b)

    perform_all-Balanced :
        (calls : List Call) (w : W) (fm : FileMap)
        → Balanced os t hs ms fm w
        → Returns (λ r. Balanced os t hs ms r.0 r.1) (perform_all calls w fm)
    unfolding perform_all
    perform_all-Balanced [] w fm b = ((fm, w), refl, b)
    perform_all-Balanced (c ∷ calls) w fm b =
        let (r, returns, b1) = perform-Balanced c w fm b in
        rw returns (perform_all-Balanced calls r.2 r.1 b1)

  -- Whatever the operating system answers, every sequence of calls between file_map_init and
  -- file_map_fini comes to its end, and after it the descriptors and streams that are open and the
  -- ranges that are mapped are those from before.
  pub session-gives_back :
      (t : Tracks os) (w : W) (path : Bytes) (calls : List Call)
      → Returns (λ w'. (t.handles w' ≡ t.handles w) × (t.maps w' ≡ t.maps w)) (session w path calls)
  unfolding session
  session-gives_back t w path calls =
      let start =
        Unmapped-Balanced os t (t.handles w) (t.maps w) (file_map_init path) w (refl, refl, refl) in
      let (r, returns, b) =
        perform_all-Balanced t (t.handles w) (t.maps w) calls w (file_map_init path) start in
      rw returns (_, refl, file_map_fini-returns os t (t.handles w) (t.maps w) r.1 r.0 b)
