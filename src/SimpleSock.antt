-- ===== src/SimpleSock.antt =====
-- Frames on a stream socket: src/xutils/simple_sock.c, sock_send and sock_recv with their loops.
pub mod Send
pub mod Recv
pub mod Frames
pub mod Server
use duallive.Base.{
  ℕ, zero, suc, ◌+◌, ◌-◌, ◌%◌, ◌^◌, ◌≡◌, ◌≢◌, ◌≤◌, ◌<◌, List, [], ◌∷◌, ◌++◌, Bool, true, false, not,
  ltb, leb, ◌==◌, ◌||◌, if◌then◌else◌, length, take, drop, Outcome, ok, fault, out_of_fuel,
  in_bounds, ◌>>◌, ◌>>=◌, Option, none, some,
}
use duallive.Base.Memory.{Bytes, le, un_le, write_at}
use duallive.Kmem.{Allocator, kmem_alloc, u32_mod}

-- The operating system's side of a socket. `write s b` is write(fd, b, length b): how much of `b` it
-- took, where 0 stands for every result that is not positive. `read s n` is read(fd, buf, n): the
-- bytes it delivered, none for every result that is not positive.
pub record Socket (S : Type 0) : Type 0 where
  pub write : S → Bytes → ℕ × S
  pub read : S → ℕ → Bytes × S

abbrev pub magic : ℕ
magic = 0x5351434B

-- msg_head_t
unfoldable pub frame_head : ℕ → Bytes
frame_head size = le 4 magic ++ le 4 size

-- msg_tail_t
unfoldable pub frame_tail : ℕ → Bytes
frame_tail size = le 4 size ++ le 4 magic

abbrev pub sizeof_frame_head : ℕ
sizeof_frame_head = 8

-- A size_t or uint32_t as an int that a loop runs down to 0: a negative one is no round at all.
abbrev pub int_rounds : ℕ → ℕ
int_rounds n = if ltb n (2 ^ 31) then n else 0

module _ {S : Type 0} (os : Socket S) where
  -- The loop of wr_buf over the rounds left: what is left of the buffer.
  pub wr_loop : ℕ → S → Bytes → Outcome (Bool × S)
  wr_loop fuel s [] = ok (true, s)
  wr_loop zero s (b ∷ bs) = fault out_of_fuel
  wr_loop (suc fuel) s (b ∷ bs) =
      let (rc, s') = os.write s (b ∷ bs) in
      let rest = wr_loop fuel s' (drop rc (b ∷ bs)) in if rc == 0 then ok (false, s') else rest

  pub wr_buf : S → Bytes → Outcome (Bool × S)
  unfolding wr_loop
  wr_buf s buf = wr_loop (length buf) s buf

  -- `buf` is the object that the pointer points to, `size` bytes of it are sent.
  pub sock_send : S → Bytes → ℕ → Outcome (Bool × S)
  unfolding wr_buf
  sock_send s buf size = do
    (done, s) ← wr_buf s (frame_head size)
    if not done then ok (false, s) else do
      in_bounds (leb size (length buf))
      (done, s) ← wr_buf s (take size buf)
      if not done then ok (false, s) else wr_buf s (frame_tail size)

  -- The loop of rd_buf: the object that is filled, the offset, and how much is missing.
  pub rd_loop : ℕ → S → Bytes → ℕ → ℕ → Outcome (Bool × Bytes × S)
  rd_loop fuel s buf off zero = ok (true, buf, s)
  rd_loop zero s buf off (suc size) = fault out_of_fuel
  rd_loop (suc fuel) s buf off (suc size) =
      let (got, s') = os.read s (suc size) in
      if length got == 0 then ok (false, buf, s') else do
        buf ← write_at off got buf
        rd_loop fuel s' buf (off + length got) (suc size - length got)

  pub rd_buf : S → Bytes → ℕ → Outcome (Bool × Bytes × S)
  unfolding rd_loop
  rd_buf s buf size = rd_loop size s buf 0 size

  -- What it returns, and *buf, which holds `old` before. malloc is taken to succeed.
  pub sock_recv : ⦃heap : Allocator⦄ → S → Option Bytes → Outcome (Bool × Option Bytes × S)
  unfolding rd_buf
  sock_recv s old = do
    (done, head, s) ← rd_buf s (kmem_alloc sizeof_frame_head) sizeof_frame_head
    if not done || not (un_le 4 head == magic) then ok (false, old, s) else do
      let size = un_le 4 (drop 4 head)
      (done, buf, s) ← rd_buf s (kmem_alloc size) (int_rounds size)
      if not done then ok (false, some buf, s) else do
        (done, tail, s) ← rd_buf s (kmem_alloc sizeof_frame_head) sizeof_frame_head
        if not done || not (un_le 4 (drop 4 tail) == magic)
            then ok (false, none, s)
            else ok (true, some buf, s)
