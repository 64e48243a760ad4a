-- ===== src/ArbMsg/Encoder.antt =====
-- The encoder of src/duallive/arbitrary_msg.c.
pub mod Filled
pub mod Info
pub mod Output
pub mod Pairs
pub mod Requests
pub mod Site
pub mod Texts
use duallive.Base.{
  ℕ, ◌+◌, ◌*◌, ◌%◌, List, [], ◌∷◌, ◌==◌, if◌then◌else◌, length, Option, none, some, Outcome, ok,
  fault, type_confusion, verify, ◌>>=◌, ◌>>◌, ltb,
}
use duallive.Base.Memory.{Bytes, read_at, write_at, le}
use duallive.Kmem.{Allocator, kmem_alloc, u16_mod, u32_mod}
use duallive.Duallive.{Ver, Desc}
use duallive.Cvector.{Vec, StrVec, vec_init, vec_add, strvec_init, strvec_add}
use duallive.ArbMsg.{
  Dli, dli_bytes, head_bytes, sizeof_head, sizeof_dli, sizeof_ver, Kind, kind, req_sel_ms,
  rsp_sel_ms, req_rm_dli, rsp_rm_dli, unknown,
}

pub record Encoder : Type 0 where
  pub msg_type : ℕ
  pub dl_num : ℕ
  pub arbitrary_ip : ℕ
  pub v_dli : Vec
  pub v_ver : Vec
  pub v_str : StrVec

-- A variable argument: a pointer to a dl_desc_t or to a dl_ver_t, or a uint32_t.
pub data Arg : Type 0 where
  desc : Desc → Arg
  ver : Ver → Arg
  num : ℕ → Arg

-- va_arg at each type. What is left is read by the next one.
abbrev arg_desc : List Arg → Outcome (Desc × List Arg)
arg_desc (desc d ∷ rest) = ok (d, rest)
arg_desc _ = fault type_confusion

abbrev arg_ver : List Arg → Outcome (Ver × List Arg)
arg_ver (ver v ∷ rest) = ok (v, rest)
arg_ver _ = fault type_confusion

abbrev arg_num : List Arg → Outcome (ℕ × List Arg)
arg_num (num n ∷ rest) = ok (n, rest)
arg_num _ = fault type_confusion

-- enc->dl_num += n, in a uint16_t
abbrev add_num : Encoder → ℕ → Encoder
add_num enc n = record enc { dl_num = (enc.dl_num + n) % u16_mod }

module _ ⦃heap : Allocator⦄ where
  init_kind : Kind → Encoder → Outcome Encoder
  init_kind req_sel_ms enc = do
    v_str ← strvec_init
    ok (record enc {
      arbitrary_ip = 0;
      v_dli = vec_init sizeof_dli;
      v_ver = vec_init sizeof_ver;
      v_str = v_str;
    })
  init_kind rsp_sel_ms enc = ok (record enc { v_ver = vec_init sizeof_ver })
  init_kind req_rm_dli enc = do
    v_str ← strvec_init
    ok (record enc { arbitrary_ip = 0; v_dli = vec_init sizeof_dli; v_str = v_str })
  init_kind rsp_rm_dli enc = ok enc
  init_kind unknown enc = ok enc

  -- `enc` is what the memory of the encoder holds before.
  pub arb_msg_encoder_init : Encoder → ℕ → Outcome Encoder
  unfolding init_kind
  arb_msg_encoder_init enc msg_type =
      init_kind (kind msg_type) (record enc { msg_type = msg_type; dl_num = 0 })

  encode_arb_ip : Encoder → Desc → Outcome (ℕ × Encoder)
  encode_arb_ip enc d = if ltb 0 enc.dl_num then ok (enc.arbitrary_ip, enc) else do
    (off, v_str) ← strvec_add enc.v_str d.arbitrary_ip
    ok (off, record enc { arbitrary_ip = off; v_str = v_str })

  -- encode_dl_info behind its first line.
  pub encode_dli : ℕ → Encoder → Desc → Outcome Encoder
  encode_dli arb_ip enc d = do
    (lds, v_str) ← strvec_add enc.v_str d.local_dataset
    (rds, v_str) ← strvec_add v_str d.remote_dataset
    let dli : Dli = record {
      uuid = d.uuid;
      local_hostid = d.local_hostid;
      remote_hostid = d.remote_hostid;
      local_dataset = lds;
      remote_dataset = rds;
      arbitrary_ip = arb_ip;
      arbitrary_port = d.arbitrary_port;
    }
    v_dli ← vec_add enc.v_dli (dli_bytes dli)
    ok (record enc { v_dli = v_dli; v_str = v_str })

  pub encode_dl_info : Encoder → Desc → Outcome Encoder
  unfolding encode_arb_ip encode_dli
  encode_dl_info enc d = do (arb_ip, enc) ← encode_arb_ip enc d; encode_dli arb_ip enc d

  add_kind : Kind → Encoder → List Arg → Outcome Encoder
  add_kind req_sel_ms enc args = do
    verify (length args == 2)
    (d, rest) ← arg_desc args
    enc ← encode_dl_info enc d
    (v, _) ← arg_ver rest
    v_ver ← vec_add enc.v_ver (le sizeof_ver v)
    ok (add_num (record enc { v_ver = v_ver }) 1)
  add_kind rsp_sel_ms enc args = do
    verify (length args == 1)
    (v, _) ← arg_ver args
    v_ver ← vec_add enc.v_ver (le sizeof_ver v)
    ok (add_num (record enc { v_ver = v_ver }) 1)
  add_kind req_rm_dli enc args = do
    verify (length args == 1)
    (d, _) ← arg_desc args
    enc ← encode_dl_info enc d
    ok (add_num enc 1)
  add_kind rsp_rm_dli enc args = do
    verify (length args == 1)
    (n, _) ← arg_num args
    ok (add_num enc n)
  add_kind unknown enc args = ok enc

  -- `args` are the variable arguments, as many as argc says.
  pub arb_msg_encoder_add : Encoder → List Arg → Outcome Encoder
  unfolding add_kind
  arb_msg_encoder_add enc args = add_kind (kind enc.msg_type) enc args

  pub msg_alloc : Encoder → ℕ → Outcome Bytes
  msg_alloc enc msg_len =
      write_at 0 (head_bytes enc.msg_type enc.dl_num msg_len) (kmem_alloc msg_len)

  -- The pointer into the message is its offset there.
  pub encode_buf : ℕ → Bytes → ℕ → Bytes → Outcome (ℕ × Bytes)
  encode_buf off content size msg = do
    copied ← read_at 0 size content
    msg' ← write_at off copied msg
    ok (off + size, msg')

  encode_req_sel_ms : Encoder → Outcome Bytes
  unfolding msg_alloc encode_buf
  encode_req_sel_ms enc = do
    verify (enc.v_dli.pos == sizeof_dli * enc.dl_num)
    verify (enc.v_ver.pos == sizeof_ver * enc.dl_num)
    let msg_len =
        (((sizeof_head + enc.v_dli.pos) % u32_mod + enc.v_ver.pos) % u32_mod + enc.v_str.pos)
        % u32_mod
    msg ← msg_alloc enc msg_len
    (off, msg) ← encode_buf sizeof_head enc.v_dli.buf enc.v_dli.pos msg
    (off, msg) ← encode_buf off enc.v_ver.buf enc.v_ver.pos msg
    (off, msg) ← encode_buf off enc.v_str.str enc.v_str.pos msg
    ok msg

  encode_rsp_sel_ms : Encoder → Outcome Bytes
  unfolding msg_alloc encode_buf
  encode_rsp_sel_ms enc = do
    verify (enc.v_ver.pos == sizeof_ver * enc.dl_num)
    let msg_len = (sizeof_head + enc.v_ver.pos) % u32_mod
    msg ← msg_alloc enc msg_len
    (off, msg) ← encode_buf sizeof_head enc.v_ver.buf enc.v_ver.pos msg
    ok msg

  encode_req_rm_dli : Encoder → Outcome Bytes
  unfolding msg_alloc encode_buf
  encode_req_rm_dli enc = do
    verify (enc.v_dli.pos == sizeof_dli * enc.dl_num)
    let msg_len = ((sizeof_head + enc.v_dli.pos) % u32_mod + enc.v_str.pos) % u32_mod
    msg ← msg_alloc enc msg_len
    (off, msg) ← encode_buf sizeof_head enc.v_dli.buf enc.v_dli.pos msg
    (off, msg) ← encode_buf off enc.v_str.str enc.v_str.pos msg
    ok msg

  encode_rsp_rm_dli : Encoder → Outcome Bytes
  unfolding msg_alloc
  encode_rsp_rm_dli enc = msg_alloc enc sizeof_head

  output_kind : Kind → Encoder → Outcome (Option Bytes)
  unfolding encode_req_sel_ms encode_rsp_sel_ms encode_req_rm_dli encode_rsp_rm_dli
  output_kind req_sel_ms enc = do msg ← encode_req_sel_ms enc; ok (some msg)
  output_kind rsp_sel_ms enc = do msg ← encode_rsp_sel_ms enc; ok (some msg)
  output_kind req_rm_dli enc = do msg ← encode_req_rm_dli enc; ok (some msg)
  output_kind rsp_rm_dli enc = do msg ← encode_rsp_rm_dli enc; ok (some msg)
  output_kind unknown enc = ok none

  -- `none` is NULL.
  pub arb_msg_encoder_output : Encoder → Outcome (Option Bytes)
  unfolding output_kind
  arb_msg_encoder_output enc =
      if enc.dl_num == 0 then ok none else output_kind (kind enc.msg_type) enc
