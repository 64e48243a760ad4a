-- ===== src/ArbMsg/Decoder/Safety.antt =====
-- The decoder of src/duallive/arbitrary_msg.c on bytes from anywhere: nothing is read out of bounds.
use duallive.Base.{
  ℕ, ◌+◌, ◌*◌, ◌-◌, ◌≤◌, ◌<◌, ◌≡◌, ◌⊎◌, refl, subst, arith, inl, inr, length, length-drop, drop,
  true, false, Bool-cases, some, ok, fault, verify_failed, le→leb, ltb, ltb→lt, ltb→le,
}
use duallive.Base.Memory.{Bytes, read_word}
use duallive.Duallive.{Desc}
use duallive.ArbMsg.{
  Dli, sizeof_head, sizeof_dli, sizeof_ver, Kind, kind, req_sel_ms, rsp_sel_ms, req_rm_dli,
  rsp_rm_dli, unknown,
}
use duallive.ArbMsg.Decoder.{
  Decoder, Out, desc_ver, ver, desc, nothing, point_kind, get_kind, decode_dl_info, check_msg,
  arb_msg_decoder_init, arb_msg_decoder_get_dl_num, arb_msg_decoder_get,
}
use duallive.ArbMsg.Decoder.Checks.{IsWithin, IsSound, Accepted, ver_at-ok, check_msg-Answers}

-- The pointers point into the message, and not to its end.
abbrev pub Inside : Desc → Type 0
Inside d =
    (0 < length d.local_dataset) × (0 < length d.remote_dataset) × (0 < length d.arbitrary_ip)

abbrev pub AllInside : Out → Type 0
AllInside (desc_ver d v) = Inside d
AllInside (ver v) = Unit {0}
AllInside (desc d) = Inside d
AllInside nothing = Unit {0}

-- The number of results for a message of each type.
abbrev pub results : Kind → ℕ
results req_sel_ms = 2
results rsp_sel_ms = 1
results req_rm_dli = 1
results rsp_rm_dli = 0
results unknown = 0

decode-Inside :
    (x : Dli) (str : Bytes)
    → IsWithin (length str) x
    → (d : Desc) × (decode_dl_info x str ≡ ok d) × Inside d
unfolding decode_dl_info
decode-Inside x str w =
    let inside = λ (off : ℕ) (h : (0 < off) × (off < length str)).
      le→leb off (length str) (omega (arith, h.1)) in
    rw
      (
        inside x.local_dataset w.local_dataset,
        inside x.remote_dataset w.remote_dataset,
        inside x.arbitrary_ip w.arbitrary_ip,
      )
      (
        _,
        refl,
        (
          omega (arith, length-drop x.local_dataset str, w.local_dataset.1),
          omega (arith, length-drop x.remote_dataset str, w.remote_dataset.1),
          omega (arith, length-drop x.arbitrary_ip str, w.arbitrary_ip.1),
        ),
      )

module _ (dec : Decoder) (msg : Bytes) (n i : ℕ) (less : i < n) where
  abbrev pointed : Kind → Decoder
  pointed k = point_kind k (record dec { msg_head = some msg }) (drop sizeof_head msg) n

  get-AllInside :
      (k : Kind)
      → IsSound k msg n
      → (out : Out) × (get_kind k (pointed k) i (results k) ≡ ok out) × AllInside out
  unfolding get_kind point_kind
  get-AllInside req_sel_ms (more, all) =
      let (x, at, w) = all i (omega arith) less in
      let rest = drop sizeof_head msg in
      let vers = drop (sizeof_dli * n) rest in
      let str = drop (sizeof_ver * n) vers in
      let size_rest = length-drop sizeof_head msg in
      let size_vers = length-drop (sizeof_dli * n) rest in
      let size : length msg - (sizeof_head + sizeof_dli * n + sizeof_ver * n) ≡ length str =
        omega (arith, length-drop (sizeof_ver * n) vers) in
      let (d, decodes, inside) = decode-Inside x str (subst (λ l. IsWithin l x) size w) in
      let v = ver_at-ok vers i (omega arith) in rw (at, decodes, v) (_, refl, inside)
  get-AllInside rsp_sel_ms whole =
      let v = ver_at-ok (drop sizeof_head msg) i (omega (arith, length-drop sizeof_head msg)) in
      rw v (_, refl, tt)
  get-AllInside req_rm_dli (more, all) =
      let (x, at, w) = all i (omega arith) less in
      let rest = drop sizeof_head msg in
      let str = drop (sizeof_dli * n) rest in
      let size : length msg - (sizeof_head + sizeof_dli * n) ≡ length str =
        omega (arith, length-drop sizeof_head msg, length-drop (sizeof_dli * n) rest) in
      let (d, decodes, inside) = decode-Inside x str (subst (λ l. IsWithin l x) size w) in
      rw (at, decodes) (_, refl, inside)
  get-AllInside rsp_rm_dli whole = (nothing, refl, tt)
  get-AllInside unknown refused = absurd refused

-- What a use of the decoder comes to.
abbrev pub Used : Decoder → Bytes → ℕ → Type 0
Used dec msg i =
    (arb_msg_decoder_init dec msg (length msg) ≡ ok (false, dec))
    ⊎ ((dec' : Decoder) × (n t : ℕ) × (read_word 0 2 msg ≡ ok t)
        × (arb_msg_decoder_init dec msg (length msg) ≡ ok (true, dec'))
        × (arb_msg_decoder_get_dl_num dec' ≡ ok n)
        × (((n ≤ i) × (arb_msg_decoder_get dec' i (results (kind t)) ≡ fault verify_failed))
            ⊎ ((out : Out) × (arb_msg_decoder_get dec' i (results (kind t)) ≡ ok out)
                × AllInside out)))

module _ (dec : Decoder) (msg : Bytes) (i : ℕ) where
  msg_head-point :
      (k : Kind) (n : ℕ)
      → (point_kind k (record dec { msg_head = some msg }) (drop sizeof_head msg) n).msg_head
        ≡ some msg
  unfolding point_kind
  msg_head-point req_sel_ms n = refl
  msg_head-point rsp_sel_ms n = refl
  msg_head-point req_rm_dli n = refl
  msg_head-point rsp_rm_dli n = refl
  msg_head-point unknown n = refl

  Accepted-Used : check_msg msg (length msg) ≡ ok true → Accepted msg → Used dec msg i
  unfolding arb_msg_decoder_init arb_msg_decoder_get_dl_num arb_msg_decoder_get
  Accepted-Used pass a =
      let dec' =
        point_kind (kind a.t) (record dec { msg_head = some msg }) (drop sizeof_head msg) a.n in
      let head : dec'.msg_head ≡ some msg = msg_head-point (kind a.t) a.n in
      let accepts : arb_msg_decoder_init dec msg (length msg) ≡ ok (true, dec') =
        rw (pass, a.is_type, a.is_num) in
      let counts : arb_msg_decoder_get_dl_num dec' ≡ ok a.n = rw head a.is_num in
      elim (Bool-cases (ltb i a.n)) [
        | inl less ↦
            let (out, gets, inside) =
              get-AllInside dec msg a.n i (ltb→lt i a.n less) (kind a.t) a.sound in
            inr (
              dec',
              a.n,
              a.t,
              a.is_type,
              accepts,
              counts,
              inr (out, rw (head, a.is_num, less, a.is_type) gets, inside),
            )
        | inr over ↦ inr (
          dec',
          a.n,
          a.t,
          a.is_type,
          accepts,
          counts,
          inl (ltb→le i a.n over, rw (head, a.is_num, over)),
        )
      ]

  -- On any bytes, taken for a message of their number, the decoder faults nowhere but in the VERIFY
  -- on the index: either the message is refused and the decoder stays as it was, or it is accepted
  -- with a count and a type, and then arb_msg_decoder_get with the number of results of the message's type
  -- fails that VERIFY for an index that is not below the count, and otherwise returns, with string
  -- pointers that point into the message.
  pub decoder-Used : Used dec msg i
  unfolding arb_msg_decoder_init
  decoder-Used = elim (check_msg-Answers msg) [
    | inl refused ↦ inl (rw refused)
    | inr (pass, a) ↦ Accepted-Used pass a
  ]
