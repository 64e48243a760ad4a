-- ===== src/SimpleSock/Send.antt =====
-- wr_buf and sock_send of src/xutils/simple_sock.c.
use duallive.Base.{
  ℕ, zero, suc, ◌≡◌, ◌≤◌, refl, sym, ap, ◌∙◌, arith, inl, inr, [], ◌∷◌, ◌++◌, append_assoc,
  append-nil, Bool, true, false, Bool-cases, ==→eq, eq→==, ◌≢◌, subst, take_all, ◌==◌, length, take,
  drop, take-append-drop, length-drop, Outcome, ok, le→leb,
}
use duallive.Base.Memory.{Bytes}
use mathlib.Core.Bool.{false≢true}
use duallive.SimpleSock.{Socket, frame_head, frame_tail, wr_loop, wr_buf, sock_send}

-- What write(2) promises: it takes no more than there is, and what it takes is appended to the
-- stream. `sent` is the stream so far.
pub record Sending {S : Type 0} (os : Socket S) : Type 0 where
  pub sent : S → Bytes
  pub takes : (s : S) (b : Bytes) → (os.write s b).0 ≤ length b
  pub appends : (s : S) (b : Bytes) → sent ((os.write s b).1) ≡ sent s ++ take ((os.write s b).0) b

-- A message with its frame.
abbrev pub frame : Bytes → Bytes
frame body = frame_head (length body) ++ (body ++ frame_tail (length body))

module _ {S : Type 0} (os : Socket S) (sending : Sending os) where
  -- The run returns, a prefix of `b` was sent, and all of it on success.
  pub record Sends (s : S) (b : Bytes) (r : Outcome (Bool × S)) : Type 0 where
    pub done : Bool
    pub s' : S
    pub prefix : Bytes
    pub rest : Bytes
    pub returns : r ≡ ok (done, s')
    pub parts : b ≡ prefix ++ rest
    pub sends : sending.sent s' ≡ sending.sent s ++ prefix
    pub complete : done ≡ true → rest ≡ []

  -- Bytes behind those that were sent.
  Sends-more :
      (s s1 : S) (p b : Bytes) (r : Outcome (Bool × S))
      → sending.sent s1 ≡ sending.sent s ++ p
      → Sends s1 b r
      → Sends s (p ++ b) r
  Sends-more s s1 p b r e x = record {
    done = x.done;
    s' = x.s';
    prefix = p ++ x.prefix;
    rest = x.rest;
    returns = x.returns;
    parts = ap (◌++◌ p) x.parts ∙ sym (append_assoc p x.prefix x.rest);
    sends = x.sends ∙ ap (λ u. u ++ x.prefix) e ∙ append_assoc (sending.sent s) p x.prefix;
    complete = x.complete;
  }

  -- A run that stopped early sent a prefix of anything longer too.
  Sends-stopped :
      (s : S) (b more : Bytes) (r : Outcome (Bool × S))
      → (x : Sends s b r) → x.done ≡ false
      → Sends s (b ++ more) (ok (false, x.s'))
  Sends-stopped s b more r x stopped = record {
    done = x.done;
    s' = x.s';
    prefix = x.prefix;
    rest = x.rest ++ more;
    returns = ap (λ d. ok (d, x.s')) (sym stopped);
    parts = ap (λ u. u ++ more) x.parts ∙ append_assoc x.prefix x.rest more;
    sends = x.sends;
    complete = λ e. absurd (false≢true (sym stopped ∙ e));
  }

  -- A run that is complete sent all.
  pub Sends-all :
      (s : S) (b : Bytes) (r : Outcome (Bool × S))
      → (x : Sends s b r) → x.done ≡ true
      → sending.sent x.s' ≡ sending.sent s ++ b
  Sends-all s b r x e =
      x.sends
      ∙ ap (λ u. sending.sent s ++ u)
          (sym (x.parts ∙ ap (◌++◌ x.prefix) (x.complete e) ∙ append-nil x.prefix))

  wr_loop-Sends : (fuel : ℕ) (s : S) (b : Bytes) → length b ≤ fuel → Sends s b (wr_loop os fuel s b)
  unfolding wr_loop
  wr_loop-Sends fuel s [] h = record {
    done = true;
    s' = s;
    prefix = [];
    rest = [];
    returns = refl;
    parts = refl;
    sends = sym (append-nil (sending.sent s));
    complete = λ _. refl;
  }
  wr_loop-Sends zero s (b ∷ bs) h = absurd (omega arith)
  wr_loop-Sends (suc fuel) s (b ∷ bs) h =
      let rc = (os.write s (b ∷ bs)).0 in
      let s' = (os.write s (b ∷ bs)).1 in
      let within = sending.takes s (b ∷ bs) in
      let more = sending.appends s (b ∷ bs) in
      elim (Bool-cases (rc == 0)) [
        | inl stop ↦ rw stop (record {
          done = false;
          s' = s';
          prefix = [];
          rest = b ∷ bs;
          returns = refl;
          parts = refl;
          sends = more ∙ ap (λ n. sending.sent s ++ take n (b ∷ bs)) (==→eq rc 0 stop);
          complete = λ e. absurd (false≢true e);
        })
        | inr go ↦
            let positive : rc ≢ 0 = λ e. false≢true (sym go ∙ eq→== rc 0 e) in
            rw go (
              subst (λ u. Sends s u (wr_loop os fuel s' (drop rc (b ∷ bs))))
                (take-append-drop rc (b ∷ bs))
                (Sends-more s s' (take rc (b ∷ bs)) (drop rc (b ∷ bs)) _ more (
                  wr_loop-Sends fuel s' (drop rc (b ∷ bs))
                    (omega (arith, length-drop rc (b ∷ bs), positive)))))
      ]

  wr_buf-Sends : (s : S) (b : Bytes) → Sends s b (wr_buf os s b)
  unfolding wr_buf
  wr_buf-Sends s b = wr_loop-Sends (length b) s b (omega arith)

  -- Whatever the operating system does, sock_send on a buffer of its size returns, and what it adds
  -- to the stream is a prefix of the message in its frame, and all of that if it returns 0.
  pub sock_send-Sends :
      (s : S) (body : Bytes) → Sends s (frame body) (sock_send os s body (length body))
  unfolding sock_send
  sock_send-Sends s body =
      let n = length body in
      let head = wr_buf-Sends s (frame_head n) in
      elim (Bool-cases head.done) [
        | inl all ↦
            let mid = wr_buf-Sends head.s' body in
            elim (Bool-cases mid.done) [
              | inl all' ↦
                  let tail = wr_buf-Sends mid.s' (frame_tail n) in
                  rw
                    (
                      head.returns,
                      all,
                      le→leb n n (omega arith),
                      take_all n body refl,
                      mid.returns,
                      all',
                    )
                    (Sends-more s head.s' (frame_head n) (body ++ frame_tail n) _
                      (Sends-all s (frame_head n) _ head all)
                      (Sends-more head.s' mid.s' body (frame_tail n) _
                        (Sends-all head.s' body _ mid all') tail))
              | inr part ↦
                  rw
                    (
                      head.returns,
                      all,
                      le→leb n n (omega arith),
                      take_all n body refl,
                      mid.returns,
                      part,
                    )
                    (Sends-more s head.s' (frame_head n) (body ++ frame_tail n) _
                      (Sends-all s (frame_head n) _ head all)
                      (Sends-stopped head.s' body (frame_tail n) _ mid part))
            ]
        | inr part ↦
            rw (head.returns, part)
              (Sends-stopped s (frame_head n) (body ++ frame_tail n) _ head part)
      ]
