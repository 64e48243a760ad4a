-- ===== src/SimpleSock/Recv.antt =====
-- rd_buf and sock_recv of src/xutils/simple_sock.c.
use duallive.Base.{
  ℕ, zero, suc, ◌+◌, ◌-◌, ◌^◌, ◌≡◌, ◌≤◌, ◌<◌, refl, sym, ap, ◌∙◌, arith, [], ◌∷◌, ◌++◌,
  append_assoc, append-nil, Bool, true, ne→==, eq→==, lt→ltb, length, take, drop, take-append,
  drop-append, take-append_le, drop-append_le, length-append, length-drop, take_all, Outcome, ok,
  Option, some, take-append-drop,
}
use duallive.Base.Memory.{
  Bytes, length-le, le, un_le, un_le-le, drop-le, write_at-ok, take-write, length-write,
}
use duallive.Kmem.{Allocator, kmem_alloc}
use duallive.SimpleSock.{
  Socket, magic, sizeof_frame_head, frame_head, frame_tail, rd_loop, rd_buf, sock_recv,
}
use duallive.SimpleSock.Send.{frame}

-- What read(2) promises on a stream without errors: it delivers, in order, at most what is asked
-- for, and something while there is something to come. `pending` is the stream that is still to come.
pub record Receiving {S : Type 0} (os : Socket S) : Type 0 where
  pub pending : S → Bytes
  pub within : (s : S) (n : ℕ) → length (os.read s n).0 ≤ n
  pub delivers : (s : S) (n : ℕ) → pending s ≡ (os.read s n).0 ++ pending (os.read s n).1
  pub progress : (s : S) (n : ℕ) → 0 < n → 0 < length (pending s) → 0 < length (os.read s n).0

-- Of two ways to split a stream, the longer first part begins with the shorter one.
split_same :
    (got later bytes rest : Bytes)
    → got ++ later ≡ bytes ++ rest
    → length got ≤ length bytes
    → (got ++ drop (length got) bytes ≡ bytes) × (later ≡ drop (length got) bytes ++ rest)
split_same got later bytes rest e h =
    let begins : take (length got) bytes ≡ got =
      sym (take-append_le (length got) bytes rest h)
      ∙ ap (take (length got)) (sym e)
      ∙ take-append (length got) got later refl in
    (
      ap (λ u. u ++ drop (length got) bytes) (sym begins) ∙ take-append-drop (length got) bytes,
      sym (drop-append (length got) got later refl)
          ∙ ap (drop (length got)) e
          ∙ drop-append_le (length got) bytes rest h,
    )

module _ {S : Type 0} (os : Socket S) (receiving : Receiving os) where
  -- The run fills the object with `bytes` and leaves `rest` to come.
  abbrev Fills : Bytes → Bytes → Outcome (Bool × Bytes × S) → Type 0
  Fills whole rest r = (s' : S) × (r ≡ ok (true, whole, s')) × (receiving.pending s' ≡ rest)

  rd_loop-Fills :
      (fuel : ℕ) (s : S) (buf : Bytes) (off size : ℕ) (bytes rest : Bytes)
      → size ≤ fuel
      → length bytes ≡ size
      → off + size ≡ length buf
      → receiving.pending s ≡ bytes ++ rest
      → Fills (take off buf ++ bytes) rest (rd_loop os fuel s buf off size)
  unfolding rd_loop
  rd_loop-Fills fuel s buf off zero [] rest enough all fits e = (
    s,
    ap (λ u. ok (true, u, s))
        (sym (take_all off buf (omega arith)) ∙ sym (append-nil (take off buf))),
    e,
  )
  rd_loop-Fills fuel s buf off zero (d ∷ ds) rest enough all fits e = absurd (omega arith)
  rd_loop-Fills zero s buf off (suc size) bytes rest enough all fits e = absurd (omega arith)
  rd_loop-Fills (suc fuel) s buf off (suc size) bytes rest enough all fits e =
      let got = (os.read s (suc size)).0 in
      let s1 = (os.read s (suc size)).1 in
      let small = receiving.within s (suc size) in
      let some_ : 0 < length got =
        receiving.progress s (suc size) (omega arith)
          (omega (arith, ap length e, length-append bytes rest)) in
      let (same, later) =
        split_same got (receiving.pending s1) bytes rest (sym (receiving.delivers s (suc size)) ∙ e)
          (omega arith) in
      let buf' = take off buf ++ (got ++ drop (off + length got) buf) in
      let (s', returns, left) =
        rd_loop-Fills fuel s1 buf' (off + length got) (suc size - length got)
          (drop (length got) bytes) rest (omega arith)
          (omega (arith, length-drop (length got) bytes)) (omega (arith, length-write off got buf))
          later in
      rw (ne→== (length got) 0 (λ z. omega arith), write_at-ok off got buf (omega arith))
        (
          s',
          returns
              ∙ ap (λ u. ok (true, u, s'))
                  (ap (λ u. u ++ drop (length got) bytes)
                      (take-write off got buf (drop (off + length got) buf) (omega arith))
                    ∙ append_assoc (take off buf) got (drop (length got) bytes)
                    ∙ ap (λ u. take off buf ++ u) same),
          left,
        )

  rd_buf-Fills :
      (s : S) (buf : Bytes) (size : ℕ) (bytes rest : Bytes)
      → length bytes ≡ size
      → size ≡ length buf
      → receiving.pending s ≡ bytes ++ rest
      → Fills bytes rest (rd_buf os s buf size)
  unfolding rd_buf
  rd_buf-Fills s buf size bytes rest all fits e =
      rd_loop-Fills size s buf 0 size bytes rest (omega arith) all (omega arith) e

-- The words of a frame.
length-frame_head : (n : ℕ) → length (frame_head n) ≡ sizeof_frame_head
unfolding frame_head
length-frame_head n =
    omega (arith, length-append (le 4 magic) (le 4 n), length-le 4 magic, length-le 4 n)

length-frame_tail : (n : ℕ) → length (frame_tail n) ≡ sizeof_frame_head
unfolding frame_tail
length-frame_tail n =
    omega (arith, length-append (le 4 n) (le 4 magic), length-le 4 magic, length-le 4 n)

un_le-last : (n v : ℕ) → n < 2 ^ 32 → v < 2 ^ 32 → un_le 4 (drop 4 (le 4 v ++ le 4 n)) ≡ n
un_le-last n v h k =
    ap (un_le 4) (drop-le 4 v (le 4 n) ∙ sym (append-nil (le 4 n))) ∙ un_le-le 4 n [] (omega arith)

head_magic : (n : ℕ) → un_le 4 (frame_head n) ≡ magic
unfolding frame_head
head_magic n = un_le-le 4 magic (le 4 n) (omega arith)

head_length : (n : ℕ) → n < 2 ^ 32 → un_le 4 (drop 4 (frame_head n)) ≡ n
unfolding frame_head
head_length n h = un_le-last n magic h (omega arith)

tail_magic : (n : ℕ) → n < 2 ^ 32 → un_le 4 (drop 4 (frame_tail n)) ≡ magic
unfolding frame_tail
tail_magic n h = un_le-last magic n (omega arith) h

module _ {S : Type 0} (os : Socket S) (receiving : Receiving os) ⦃heap : Allocator⦄ where
  -- On a stream without errors that goes on with a message in its frame, shorter than 2^31 bytes,
  -- sock_recv returns 0 with the message, however the stream is cut into reads, and leaves what
  -- follows the frame to come.
  pub sock_recv-Receives :
      (s : S) (old : Option Bytes) (body rest : Bytes)
      → length body < 2 ^ 31
      → receiving.pending s ≡ frame body ++ rest
      → (s' : S) × (sock_recv os s old ≡ ok (true, some body, s')) × (receiving.pending s' ≡ rest)
  unfolding sock_recv
  sock_recv-Receives s old body rest short e =
      let n = length body in
      let fresh8 = heap.fresh_sized sizeof_frame_head in
      let (s1, gets1, e1) =
        rd_buf-Fills os receiving s (kmem_alloc sizeof_frame_head) sizeof_frame_head (frame_head n)
          ((body ++ frame_tail n) ++ rest) (length-frame_head n) (sym fresh8)
          (e ∙ append_assoc (frame_head n) (body ++ frame_tail n) rest) in
      let (s2, gets2, e2) =
        rd_buf-Fills os receiving s1 (kmem_alloc n) n body (frame_tail n ++ rest) refl
          (sym (heap.fresh_sized n)) (e1 ∙ append_assoc body (frame_tail n) rest) in
      let (s3, gets3, e3) =
        rd_buf-Fills os receiving s2 (kmem_alloc sizeof_frame_head) sizeof_frame_head (frame_tail n)
          rest (length-frame_tail n) (sym fresh8) e2 in
      let is_magic = eq→== (un_le 4 (frame_head n)) magic (head_magic n) in
      let is_magic' = eq→== (un_le 4 (drop 4 (frame_tail n))) magic (tail_magic n (omega arith)) in
      (
        s3,
        rw
            (
              gets1,
              is_magic,
              head_length n (omega arith),
              lt→ltb n (2 ^ 31) short,
              gets2,
              gets3,
              is_magic',
            )
            refl,
        e3,
      )
