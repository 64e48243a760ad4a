-- ===== src/SimpleSock/Frames.antt =====
-- Both ends of a socket: sock_send and sock_recv of src/xutils/simple_sock.c.
use duallive.Base.{
  ℕ, zero, suc, ◌^◌, ◌≡◌, ◌≤◌, ◌<◌, refl, sym, ap, ◌∙◌, arith, [], ◌∷◌, ◌++◌, Bool, true, ne→==,
  length, drop, drop-append, length-drop, Outcome, ok, le→leb, take_all, Option, some,
}
use duallive.Base.Memory.{Bytes}
use duallive.Kmem.{Allocator}
use duallive.SimpleSock.{Socket, wr_loop, wr_buf, sock_send, sock_recv, frame_head, frame_tail}
use duallive.SimpleSock.Send.{Sending, Sends-all, frame, sock_send-Sends}
use duallive.SimpleSock.Recv.{Receiving, sock_recv-Receives}

-- write(2) without errors: it takes something of what is not empty.
abbrev pub IsReliable : {S : Type 0} → Socket S → Type 0
IsReliable {S} os = (s : S) (b : Bytes) → 0 < length b → 0 < (os.write s b).0

module _ {S : Type 0} (os : Socket S) (reliable : IsReliable os) where
  wr_loop-completes :
      (fuel : ℕ) (s : S) (b : Bytes)
      → length b ≤ fuel
      → (s' : S) × (wr_loop os fuel s b ≡ ok (true, s'))
  unfolding wr_loop
  wr_loop-completes fuel s [] h = (s, refl)
  wr_loop-completes zero s (b ∷ bs) h = absurd (omega arith)
  wr_loop-completes (suc fuel) s (b ∷ bs) h =
      let rc = (os.write s (b ∷ bs)).0 in
      let some_ : 0 < rc = reliable s (b ∷ bs) (omega arith) in
      rw (ne→== rc 0 (λ z. omega arith)) (
        wr_loop-completes fuel (os.write s (b ∷ bs)).1 (drop rc (b ∷ bs))
          (omega (arith, length-drop rc (b ∷ bs))))

  wr_buf-completes : (s : S) (b : Bytes) → (s' : S) × (wr_buf os s b ≡ ok (true, s'))
  unfolding wr_buf
  wr_buf-completes s b = wr_loop-completes (length b) s b (omega arith)

  pub sock_send-completes :
      (s : S) (body : Bytes) → (s' : S) × (sock_send os s body (length body) ≡ ok (true, s'))
  unfolding sock_send
  sock_send-completes s body =
      let n = length body in
      let (s1, e1) = wr_buf-completes s (frame_head n) in
      let (s2, e2) = wr_buf-completes s1 body in
      let (s3, e3) = wr_buf-completes s2 (frame_tail n) in
      (s3, rw (e1, le→leb n n (omega arith), take_all n body refl, e2, e3))

ok-state :
    {S : Type 0} (r : Outcome (Bool × S)) (d d' : Bool) (s s' : S)
    → r ≡ ok (d, s)
    → r ≡ ok (d', s')
    → (d ≡ d') × (s ≡ s')
ok-state r d d' s s' p q = (cc, cc)

-- What is behind the same bytes is the same.
append_cancel : (xs ys zs : Bytes) → xs ++ ys ≡ xs ++ zs → ys ≡ zs
append_cancel xs ys zs e =
    sym (drop-append (length xs) xs ys refl)
    ∙ ap (drop (length xs)) e
    ∙ drop-append (length xs) xs zs refl

module _ {S : Type 0} (os : Socket S) (sending : Sending os) where
  sent-frame :
      (s s' : S) (body : Bytes)
      → sock_send os s body (length body) ≡ ok (true, s')
      → sending.sent s' ≡ sending.sent s ++ frame body
  sent-frame s s' body returns =
      let run = sock_send-Sends os sending s body in
      let (done, same) = ok-state _ run.done true run.s' s' run.returns returns in
      ap sending.sent (sym same) ∙ Sends-all os sending s (frame body) _ run done

  -- Without errors of the operating system sock_send on a buffer of its size returns 0 and has added
  -- the message in its frame to the stream, however write(2) cuts it into parts.
  pub sock_send-returns :
      (s : S) (body : Bytes)
      → IsReliable os
      → (s' : S) × (sock_send os s body (length body) ≡ ok (true, s'))
        × (sending.sent s' ≡ sending.sent s ++ frame body)
  sock_send-returns s body reliable =
      let (s', returns) = sock_send-completes os reliable s body in
      (s', returns, sent-frame s s' body returns)

module _ {S R : Type 0} (ow : Socket S) (sending : Sending ow) (os : Socket R)
    (receiving : Receiving os) ⦃heap : Allocator⦄ where
  -- A message shorter than 2^31 bytes for which sock_send returned 0 arrives: where the other end of
  -- a stream without errors has what sock_send added still to come, and then `rest`, sock_recv
  -- returns 0 with the message and leaves `rest`, whatever the sizes of the single writes and reads.
  pub frame_round_trip :
      (s s' : S) (r : R) (old : Option Bytes) (body added rest : Bytes)
      → length body < 2 ^ 31
      → sock_send ow s body (length body) ≡ ok (true, s')
      → sending.sent s' ≡ sending.sent s ++ added
      → receiving.pending r ≡ added ++ rest
      → (r' : R) × (sock_recv os r old ≡ ok (true, some body, r')) × (receiving.pending r' ≡ rest)
  frame_round_trip s s' r old body added rest short returns adds comes =
      let whole : added ≡ frame body =
        append_cancel (sending.sent s) added (frame body)
          (sym adds ∙ sent-frame ow sending s s' body returns) in
      sock_recv-Receives os receiving r old body rest short (comes ∙ ap (λ u. u ++ rest) whole)
