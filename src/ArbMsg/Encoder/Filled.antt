-- ===== src/ArbMsg/Encoder/Filled.antt =====
-- msg_alloc and encode_buf of src/duallive/arbitrary_msg.c: a message filled from the front.
use duallive.Base.{
  Returns, ℕ, ◌+◌, ◌≤◌, ◌≡◌, refl, ap, ◌∙◌, sym, arith, [], ◌∷◌, ◌++◌, append_assoc, append-nil,
  length, length-append, length-take, take, drop, take-append,
}
use duallive.Base.Memory.{Bytes, read_at-ok, write_at-ok, length-write}
use duallive.Kmem.{Allocator, kmem_alloc}
use duallive.ArbMsg.{sizeof_head, head_bytes}
use duallive.ArbMsg.Layout.{length-head_bytes}
use duallive.ArbMsg.Encoder.{Encoder, encode_buf, msg_alloc}

-- The first `off` bytes of a message of `total` bytes are written.
pub record Filled (total : ℕ) (done : Bytes) (off : ℕ) (msg : Bytes) : Type 0 where
  pub rest : Bytes
  pub parts : msg ≡ done ++ rest
  pub at : length done ≡ off
  pub whole : length msg ≡ total

pub Filled-all :
    (total : ℕ) (done : Bytes) (off : ℕ) (msg : Bytes)
    → Filled total done off msg
    → off ≡ total
    → msg ≡ done
Filled-all total done off msg f full =
    all f.rest f.parts (omega (arith, ap length f.parts, length-append done f.rest, f.at, f.whole))
  where
    all : (rest : Bytes) → msg ≡ done ++ rest → length rest ≡ 0 → msg ≡ done
    all [] e h = e ∙ append-nil done
    all (x ∷ rest) e h = absurd (omega arith)

module _ ⦃heap : Allocator⦄ where
  pub msg_alloc-Filled :
      (enc : Encoder) (len : ℕ)
      → sizeof_head ≤ len
      → Returns
          (Filled len (head_bytes enc.msg_type enc.dl_num len) sizeof_head)
          (msg_alloc enc len)
  unfolding msg_alloc
  msg_alloc-Filled enc len h =
      let head = head_bytes enc.msg_type enc.dl_num len in
      let size : length head ≡ sizeof_head = length-head_bytes enc.msg_type enc.dl_num len in
      let block = kmem_alloc len in
      let fits : 0 + length head ≤ length block = omega (arith, heap.fresh_sized len) in
      rw (write_at-ok 0 head block fits) (
        _,
        refl,
        record {
          rest = drop (0 + length head) block;
          parts = refl;
          at = size;
          whole = length-write 0 head block fits ∙ heap.fresh_sized len;
        },
      )

  -- encode_buf puts what is in use of a buffer behind what is written.
  pub encode_buf-Filled :
      (total : ℕ) (done : Bytes) (off : ℕ) (msg buf : Bytes) (size : ℕ)
      → Filled total done off msg
      → size ≤ length buf
      → length done + size ≤ total
      → Returns (λ r. Filled total (done ++ take size buf) r.0 r.1) (encode_buf off buf size msg)
  unfolding encode_buf
  encode_buf-Filled total done off msg buf size f inside room =
      let c = take size buf in
      let sized : length c ≡ size = length-take size buf inside in
      let fits : off + length c ≤ length msg = omega (arith, f.whole, f.at) in
      let front : take off msg ≡ done =
        ap (take off) f.parts ∙ take-append off done f.rest (sym f.at) in
      rw (read_at-ok 0 size buf (omega arith), write_at-ok off c msg fits)
        (
          _,
          refl,
          record {
            rest = drop (off + length c) msg;
            parts = rw front (sym (append_assoc done c (drop (off + length c) msg)));
            at = omega (arith, length-append done c, f.at);
            whole = length-write off c msg fits ∙ f.whole;
          },
        )
