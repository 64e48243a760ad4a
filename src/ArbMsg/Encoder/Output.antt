-- ===== src/ArbMsg/Encoder/Output.antt =====
-- arb_msg_encoder_output of src/duallive/arbitrary_msg.c: the message of a request.
use duallive.Base.{
  Returns, Returns-bind, ℕ, ◌+◌, ◌*◌, ◌%◌, ◌^◌, ◌≤◌, ◌<◌, ◌≡◌, refl, ap, ◌∙◌, sym, arith, List,
  ◌++◌, append_assoc, length, length-append, length-take, some, ok, ◌>>=◌, eq→==, ne→==, ◌==◌,
  false,
}
use duallive.Base.Memory.{Bytes}
use duallive.Kmem.{Allocator, u32_mod}
use duallive.Duallive.{Desc, Ver}
use duallive.Cvector.{contents, text}
use duallive.ArbMsg.{sizeof_dli, sizeof_ver, sizeof_head, kind, req_sel_ms, head_bytes}
use duallive.ArbMsg.Layout.{vers_bytes, dlis_bytes, length-head_bytes}
use duallive.ArbMsg.Encoder.{
  Encoder, arb_msg_encoder_output, output_kind, encode_req_sel_ms, encode_buf,
}
use duallive.ArbMsg.Encoder.Requests.{Ready}
use duallive.ArbMsg.Stored.{space, dataset_space, IsRequest}
use duallive.ArbMsg.Encoder.Filled.{Filled, Filled-all, msg_alloc-Filled, encode_buf-Filled}

-- The bytes that a request to select masters takes.
abbrev pub request_length : Bytes → List Desc → ℕ
request_length p ds =
    sizeof_head + (sizeof_dli + sizeof_ver) * length ds + (1 + space p + dataset_space ds)

module _ ⦃heap : Allocator⦄ (p : Bytes) (ds : List Desc) (vs : List Ver) (enc : Encoder)
    (r : Ready p ds vs enc) (short : request_length p ds < 2 ^ 32) where
  total : ℕ
  total = sizeof_head + enc.v_dli.pos + enc.v_ver.pos + enc.v_str.pos

  total-lt : total < 2 ^ 32
  unfolding total
  total-lt = omega (arith, r.info.dli_pos, r.ver_pos, r.info.str_pos, r.same_length)

  total_wraps :
      (((sizeof_head + enc.v_dli.pos) % u32_mod + enc.v_ver.pos) % u32_mod + enc.v_str.pos)
        % u32_mod
      ≡ total
  unfolding total
  total_wraps = omega (arith, total-lt)

  abbrev head : Bytes
  head = head_bytes enc.msg_type enc.dl_num total

  length-head : length head ≡ sizeof_head
  length-head = length-head_bytes enc.msg_type enc.dl_num total

  length-dli : length (contents enc.v_dli) ≡ enc.v_dli.pos
  length-dli = length-take enc.v_dli.pos enc.v_dli.buf (omega (arith, r.info.dli_valid))

  length-ver : length (contents enc.v_ver) ≡ enc.v_ver.pos
  length-ver = length-take enc.v_ver.pos enc.v_ver.buf (omega (arith, r.ver_valid))

  length-str : length (text enc.v_str) ≡ enc.v_str.pos
  length-str = length-take enc.v_str.pos enc.v_str.str (omega (arith, r.info.str_valid.buffer))

  abbrev whole : Bytes
  whole = head ++ contents enc.v_dli ++ contents enc.v_ver ++ text enc.v_str

  room_dli : length head + enc.v_dli.pos ≤ total
  unfolding total
  room_dli = omega (arith, length-head)

  room_ver : length (head ++ contents enc.v_dli) + enc.v_ver.pos ≤ total
  unfolding total
  room_ver = omega (arith, length-append head (contents enc.v_dli), length-head, length-dli)

  room_str : length (head ++ contents enc.v_dli ++ contents enc.v_ver) + enc.v_str.pos ≡ total
  unfolding total
  room_str = omega (
    arith,
    length-append (head ++ contents enc.v_dli) (contents enc.v_ver),
    length-append head (contents enc.v_dli),
    length-head,
    length-dli,
    length-ver,
  )

  length-whole : length whole ≡ total
  length-whole = omega (
    arith,
    length-append (head ++ contents enc.v_dli ++ contents enc.v_ver) (text enc.v_str),
    room_str,
    length-str,
  )

  encode_bufs :
      (msg : Bytes)
      → Filled total head sizeof_head msg
      → Returns
          (λ m. m ≡ whole)
          (do
            (off, msg) ← encode_buf sizeof_head enc.v_dli.buf enc.v_dli.pos msg
            (off, msg) ← encode_buf off enc.v_ver.buf enc.v_ver.pos msg
            (off, msg) ← encode_buf off enc.v_str.str enc.v_str.pos msg
            ok msg)
  encode_bufs msg f =
      let d = r.info.dli_valid in
      let v = r.ver_valid in
      let s = r.info.str_valid.buffer in
      Returns-bind _ _
        (encode_buf-Filled total head sizeof_head msg enc.v_dli.buf enc.v_dli.pos f
          (omega (arith, d)) room_dli)
        λ (o, m) f.
          Returns-bind _ _
            (encode_buf-Filled total (head ++ contents enc.v_dli) o m enc.v_ver.buf enc.v_ver.pos f
              (omega (arith, v)) room_ver)
            λ (o', m') f'.
              Returns-bind _ _
                (encode_buf-Filled total (head ++ contents enc.v_dli ++ contents enc.v_ver) o' m'
                  enc.v_str.str enc.v_str.pos f' (omega (arith, s)) (omega (arith, room_str)))
                λ (o'', m'') f''.
                  (m'', refl, Filled-all total whole o'' m'' f'' (sym f''.at ∙ length-whole))

  encode_req_sel_ms-whole : Returns (λ m. m ≡ whole) (encode_req_sel_ms enc)
  unfolding encode_req_sel_ms
  encode_req_sel_ms-whole =
      let dlis =
        eq→== enc.v_dli.pos (sizeof_dli * enc.dl_num) (omega (arith, r.info.dli_pos, r.counted)) in
      let vers =
        eq→== enc.v_ver.pos (sizeof_ver * enc.dl_num)
          (omega (arith, r.ver_pos, r.counted, r.same_length)) in
      rw (dlis, vers, total_wraps)
        (Returns-bind _ _ (msg_alloc-Filled enc total (omega (arith, room_dli, length-head)))
          encode_bufs)

  whole-IsRequest : IsRequest p ds vs whole
  whole-IsRequest = record {
    dlis = r.info.dlis;
    strs = text enc.v_str;
    ip = enc.arbitrary_ip;
    parts =
        ap (λ h. h ++ contents enc.v_dli ++ contents enc.v_ver ++ text enc.v_str) same_head
        ∙ ap (λ c. new_head ++ c ++ contents enc.v_ver ++ text enc.v_str) r.info.dli_contents
        ∙ ap (λ c. new_head ++ dlis ++ c ++ text enc.v_str) r.ver_contents
        ∙ append_assoc (new_head ++ dlis) (vers_bytes vs) (text enc.v_str)
        ∙ append_assoc new_head dlis (vers_bytes vs ++ text enc.v_str);
    short = rw length-whole total-lt;
    refers = r.info.ip;
    stored = r.info.stored;
  }
    where
      dlis : Bytes
      dlis = dlis_bytes r.info.dlis

      new_head : Bytes
      new_head = head_bytes 0 (length ds) (length whole)

      same_head : head ≡ new_head
      same_head = rw (length-whole, r.is_req, r.counted)

  output-req_sel_ms : 0 < length ds → arb_msg_encoder_output enc ≡ output_kind req_sel_ms enc
  unfolding arb_msg_encoder_output
  output-req_sel_ms some_pair =
      let not_null : (enc.dl_num == 0) ≡ false = ne→== enc.dl_num 0 (omega (arith, r.counted)) in
      rw not_null (ap (λ t. output_kind (kind t) enc) r.is_req)

  -- What arb_msg_encoder_output returns for an encoder that holds pairs.
  pub encoder_output :
      0 < length ds
      → Returns
          (λ out. (msg : Bytes) × (out ≡ some msg) × IsRequest p ds vs msg)
          (arb_msg_encoder_output enc)
  unfolding output_kind
  encoder_output some_pair =
      let (m, returns, is) = encode_req_sel_ms-whole in
      rw (output-req_sel_ms some_pair, returns) (some m, refl, (m, refl, rw is whole-IsRequest))
