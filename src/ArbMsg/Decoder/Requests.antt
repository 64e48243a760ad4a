-- ===== src/ArbMsg/Decoder/Requests.antt =====
-- The decoder of src/duallive/arbitrary_msg.c on a request to select masters.
use duallive.Base.{
  ℕ, zero, suc, ◌+◌, ◌*◌, ◌-◌, ◌^◌, ◌<◌, ◌≡◌, refl, sym, arith, List, ◌++◌, length, length-append,
  drop, drop-append, get_elem?, get_elem?-total, get_elem?-lt, some, true, false, ok, ltb, leb,
  lt→ltb, le→ltb, le→leb, lt→leb, eq→==,
}
use duallive.Base.Memory.{Bytes, read_word}
use duallive.Duallive.{Desc, Ver}
use duallive.ArbMsg.{Dli, head_bytes, sizeof_head, sizeof_dli, sizeof_ver}
use duallive.ArbMsg.Layout.{
  IsU64, dlis_bytes, vers_bytes, length-dlis_bytes, length-vers_bytes, length-head_bytes,
  head_bytes_read, dli_at-dlis_bytes, ver_at-vers_bytes,
}
use duallive.ArbMsg.Stored.{
  Refers, Stored, AllStored, AllStored-length, AllStored-get, Refers-c_str, SameDesc,
}
use duallive.ArbMsg.Decoder.{
  Decoder, str_valid, check_dli_loop, check_dli_str, check_msg_req_sel_ms, check_kind, check_msg,
  arb_msg_decoder_init, arb_msg_decoder_get_dl_num, arb_msg_decoder_get, decode_dl_info, get_kind,
  point_kind, desc_ver,
}

-- A string offset in use passes the test.
Refers-str_valid :
    (m : Bytes) (off : ℕ) (p : Bytes) → Refers m off p → str_valid off (length m) ≡ true
unfolding str_valid
Refers-str_valid m off p r =
    rw (lt→ltb 0 off r.positive, lt→ltb off (length m) (omega (arith, r.holds.0)))

module _ (dlis : List Dli) (vs : List Ver) (strs : Bytes) (ip : ℕ) (p : Bytes) (ds : List Desc)
    (refers : Refers strs ip p) (stored : AllStored strs ip ds dlis) where
  check_loop_pass :
      (left i : ℕ) (rest : Bytes)
      → i + left ≡ length ds
      → check_dli_loop (dlis_bytes dlis ++ rest) (length strs) left i ≡ ok true
  unfolding check_dli_loop
  check_loop_pass zero i rest h = refl
  check_loop_pass (suc left) i rest h =
      let (d, at) = get_elem?-total ds i (omega arith) in
      let (x, at_x, s) = AllStored-get strs ip ds dlis i stored at in
      let valid_ip : str_valid x.arbitrary_ip (length strs) ≡ true =
        rw s.arbitrary_ip (Refers-str_valid strs ip p refers) in
      rw
        (
          dli_at-dlis_bytes dlis i rest x at_x s.in_range,
          valid_ip,
          Refers-str_valid strs x.local_dataset d.local_dataset s.local_dataset,
          Refers-str_valid strs x.remote_dataset d.remote_dataset s.remote_dataset,
        )
        (check_loop_pass left (i + 1) rest (omega arith))

  module _ (len : ℕ) (short : len < 2 ^ 32) (few : length ds < 2 ^ 16) where
    abbrev body : Bytes
    body = dlis_bytes dlis ++ (vers_bytes vs ++ strs)

    abbrev message : Bytes
    message = head_bytes 0 (length ds) len ++ body

    after_head : drop sizeof_head message ≡ body
    after_head =
        drop-append sizeof_head (head_bytes 0 (length ds) len) body
          (sym (length-head_bytes 0 (length ds) len))

    head_reads :
        (read_word 0 2 message ≡ ok 0)
        × (read_word 2 2 message ≡ ok (length ds))
        × (read_word 4 4 message ≡ ok len)
    head_reads = head_bytes_read 0 (length ds) len body (omega arith) few short

    length-message :
        length message ≡ sizeof_head + sizeof_dli * length ds + sizeof_ver * length vs + length strs
    length-message = omega (
      arith,
      length-append (head_bytes 0 (length ds) len) body,
      length-head_bytes 0 (length ds) len,
      length-append (dlis_bytes dlis) (vers_bytes vs ++ strs),
      length-append (vers_bytes vs) strs,
      length-dlis_bytes dlis,
      length-vers_bytes vs,
      AllStored-length strs ip ds dlis stored,
    )

    module _ (whole : len ≡ length message) (same : length vs ≡ length ds) where
      some_strs : 0 < length strs
      some_strs = omega (arith, refers.holds.0)

      check_req_pass : check_msg_req_sel_ms message ≡ ok true
      unfolding check_msg_req_sel_ms check_dli_str
      check_req_pass =
          let size = sizeof_head + sizeof_dli * length ds + sizeof_ver * length ds in
          let more : leb len size ≡ false =
            lt→leb len size (omega (arith, some_strs, length-message)) in
          let limit : len - size ≡ length strs = omega (arith, length-message) in
          rw (head_reads.1, head_reads.2, more, after_head, limit)
            (check_loop_pass (length ds) 0 (vers_bytes vs ++ strs) (omega arith))

      check_pass : check_msg message len ≡ ok true
      unfolding check_msg check_kind
      check_pass =
          let long : ltb len sizeof_head ≡ false =
            le→ltb len sizeof_head (omega (arith, length-message)) in
          rw (long, head_reads.2, eq→== len len refl, head_reads.0) check_req_pass

      after_dlis : drop (sizeof_dli * length ds) body ≡ vers_bytes vs ++ strs
      after_dlis =
          drop-append (sizeof_dli * length ds) (dlis_bytes dlis) (vers_bytes vs ++ strs)
            (omega (arith, length-dlis_bytes dlis, AllStored-length strs ip ds dlis stored))

      after_vers : drop (sizeof_ver * length ds) (vers_bytes vs ++ strs) ≡ strs
      after_vers =
          drop-append (sizeof_ver * length ds) (vers_bytes vs) strs
            (omega (arith, length-vers_bytes vs))

      -- The decoder points to the parts of the message.
      abbrev pub decoded : Decoder
      decoded = record {
        msg_head = some message;
        dl_info = some body;
        dl_ver = some (vers_bytes vs ++ strs);
        str = some strs;
      }

      pub decoder_init_pass :
          (dec : Decoder) → arb_msg_decoder_init dec message len ≡ ok (true, decoded)
      unfolding arb_msg_decoder_init point_kind
      decoder_init_pass dec =
          rw (check_pass, head_reads.0, head_reads.1, after_head) (rw (after_dlis, after_vers))

      pub decoder_dl_num : arb_msg_decoder_get_dl_num decoded ≡ ok (length ds)
      unfolding arb_msg_decoder_get_dl_num
      decoder_dl_num = head_reads.1

      abbrev new_desc : Dli → Desc
      new_desc x = record {
        uuid = x.uuid;
        local_hostid = x.local_hostid;
        remote_hostid = x.remote_hostid;
        local_dataset = drop x.local_dataset strs;
        remote_dataset = drop x.remote_dataset strs;
        arbitrary_ip = drop x.arbitrary_ip strs;
        arbitrary_port = x.arbitrary_port;
      }

      new-SameDesc : (d : Desc) (x : Dli) → Stored strs ip d x → SameDesc p d (new_desc x)
      new-SameDesc d x s = record {
        uuid = s.uuid;
        local_hostid = s.local_hostid;
        remote_hostid = s.remote_hostid;
        arbitrary_port = s.arbitrary_port;
        local_dataset = Refers-c_str strs x.local_dataset d.local_dataset s.local_dataset;
        remote_dataset = Refers-c_str strs x.remote_dataset d.remote_dataset s.remote_dataset;
        arbitrary_ip = rw s.arbitrary_ip (Refers-c_str strs ip p refers);
      }

      decode_pass :
          (d : Desc) (x : Dli) → Stored strs ip d x → decode_dl_info x strs ≡ ok (new_desc x)
      unfolding decode_dl_info
      decode_pass d x s =
          let inside = λ (off : ℕ) (q : Bytes) (r : Refers strs off q).
            le→leb off (length strs) (omega (arith, r.holds.0)) in
          let ip_inside : leb x.arbitrary_ip (length strs) ≡ true =
            rw s.arbitrary_ip (inside ip p refers) in
          rw (
            inside x.local_dataset d.local_dataset s.local_dataset,
            inside x.remote_dataset d.remote_dataset s.remote_dataset,
            ip_inside,
          )

      pub decoder_get_pass :
          (i : ℕ) (d : Desc) (v : Ver)
          → get_elem? ds i ≡ some d
          → get_elem? vs i ≡ some v
          → IsU64 v
          → (d' : Desc) × (arb_msg_decoder_get decoded i 2 ≡ ok (desc_ver d' v)) × SameDesc p d d'
      unfolding arb_msg_decoder_get get_kind
      decoder_get_pass i d v at_d at_v range =
          let (x, at_x, s) = AllStored-get strs ip ds dlis i stored at_d in
          let in_range : ltb i (length ds) ≡ true = lt→ltb i (length ds) (get_elem?-lt ds i at_d) in
          (
            new_desc x,
            rw (
              head_reads.1,
              in_range,
              head_reads.0,
              dli_at-dlis_bytes dlis i (vers_bytes vs ++ strs) x at_x s.in_range,
              decode_pass d x s,
              ver_at-vers_bytes vs i strs v at_v range,
            ),
            new-SameDesc d x s,
          )
