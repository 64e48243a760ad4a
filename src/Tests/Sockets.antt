-- ===== src/Tests/Sockets.antt =====
-- Frames over sockets that move two bytes at most in each call.
use duallive.Base.{
  ℕ, zero, suc, ◌+◌, ◌<◌, ◌≤◌, ◌≡◌, refl, sym, ap, ◌∙◌, arith, take, [], ◌∷◌, ◌++◌, append-nil,
  length, true, none, some, ok,
}
use duallive.Base.Memory.{Bytes}
use duallive.SimpleSock.{Socket, sock_send, sock_recv}
use duallive.SimpleSock.Send.{Sending, Sends, frame, sock_send-Sends}
use duallive.SimpleSock.Recv.{Receiving}
use duallive.SimpleSock.Frames.{IsReliable, sock_send-returns, frame_round_trip}
use duallive.Base.Text.{codes}
use duallive.Tests.Data.{zeroed}

-- The bytes that were written.
abbrev write_two : Bytes → Bytes → ℕ × Bytes
write_two s [] = (0, s)
write_two s (x ∷ []) = (1, s ++ (x ∷ []))
write_two s (x ∷ y ∷ b) = (2, s ++ (x ∷ y ∷ []))

-- The bytes that are still to come.
abbrev read_two : Bytes → ℕ → Bytes × Bytes
read_two s zero = ([], s)
read_two [] (suc n) = ([], [])
read_two (x ∷ []) (suc n) = (x ∷ [], [])
read_two (x ∷ y ∷ s) (suc zero) = (x ∷ [], y ∷ s)
read_two (x ∷ y ∷ s) (suc (suc n)) = (x ∷ y ∷ [], s)

abbrev slow : Socket Bytes
slow = record { write = write_two; read = read_two }

slow-takes : (s b : Bytes) → (write_two s b).0 < length b + 1
slow-takes s [] = omega arith
slow-takes s (x ∷ []) = omega arith
slow-takes s (x ∷ y ∷ b) = omega arith

slow-Sending : Sending slow
slow-Sending = record {
  sent = λ s. s;
  takes = λ s b. omega (arith, slow-takes s b);
  appends = appends;
}
  where
    appends : (s b : Bytes) → (write_two s b).1 ≡ s ++ take (write_two s b).0 b
    appends s [] = sym (append-nil s)
    appends s (x ∷ []) = refl
    appends s (x ∷ y ∷ b) = refl

slow-IsReliable : IsReliable slow
slow-IsReliable s [] h = h
slow-IsReliable s (x ∷ []) h = omega arith
slow-IsReliable s (x ∷ y ∷ b) h = omega arith

slow-Receiving : Receiving slow
slow-Receiving = record {
  pending = λ s. s;
  within = within;
  delivers = delivers;
  progress = progress;
}
  where
    within : (s : Bytes) (n : ℕ) → length (read_two s n).0 ≤ n
    within s zero = omega arith
    within [] (suc n) = omega arith
    within (x ∷ []) (suc n) = omega arith
    within (x ∷ y ∷ s) (suc zero) = omega arith
    within (x ∷ y ∷ s) (suc (suc n)) = omega arith

    delivers : (s : Bytes) (n : ℕ) → s ≡ (read_two s n).0 ++ (read_two s n).1
    delivers s zero = refl
    delivers [] (suc n) = refl
    delivers (x ∷ []) (suc n) = refl
    delivers (x ∷ y ∷ s) (suc zero) = refl
    delivers (x ∷ y ∷ s) (suc (suc n)) = refl

    progress : (s : Bytes) (n : ℕ) → 0 < n → 0 < length s → 0 < length (read_two s n).0
    progress s zero h k = absurd (omega arith)
    progress [] (suc n) h k = k
    progress (x ∷ []) (suc n) h k = omega arith
    progress (x ∷ y ∷ s) (suc zero) h k = omega arith
    progress (x ∷ y ∷ s) (suc (suc n)) h k = omega arith

sock_send-Sends_example :
    Sends slow slow-Sending
      (7 ∷ [])
      (frame (codes "hello"))
      (sock_send slow (7 ∷ []) (codes "hello") 5)
sock_send-Sends_example = sock_send-Sends slow slow-Sending (7 ∷ []) (codes "hello")

sock_send-returns_example :
    (s' : Bytes) × (sock_send slow (7 ∷ []) (codes "hello") 5 ≡ ok (true, s'))
    × (s' ≡ (7 ∷ []) ++ frame (codes "hello"))
unfolding slow-Sending
sock_send-returns_example =
    sock_send-returns slow slow-Sending (7 ∷ []) (codes "hello") slow-IsReliable

hello_sent :
    sock_send slow (7 ∷ []) (codes "hello") 5 ≡ ok (true, (7 ∷ []) ++ frame (codes "hello"))
unfolding slow-Sending
hello_sent =
    let (s', returns, sends) =
      sock_send-returns slow slow-Sending (7 ∷ []) (codes "hello") slow-IsReliable in
    returns ∙ ap (λ s. ok (true, s)) sends

frame_round_trip_example :
    (r' : Bytes) × (sock_recv slow (frame (codes "hello") ++ (9 ∷ [])) none
      ≡ ok (true, some (codes "hello"), r'))
    × (r' ≡ 9 ∷ [])
unfolding slow-Sending slow-Receiving
frame_round_trip_example =
    frame_round_trip slow slow-Sending slow slow-Receiving (7 ∷ [])
      ((7 ∷ []) ++ frame (codes "hello")) (frame (codes "hello") ++ (9 ∷ [])) none (codes "hello")
      (frame (codes "hello")) (9 ∷ []) (omega arith) hello_sent refl refl
