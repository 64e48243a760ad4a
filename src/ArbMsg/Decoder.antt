-- ===== src/ArbMsg/Decoder.antt =====
-- The decoder of src/duallive/arbitrary_msg.c. A check that returns 0 is `true` here, and one that
-- returns -1 is `false`. The message is the memory that its pointer points to, and the other
-- pointers of the decoder are what that memory holds from there on.
pub mod Checks
pub mod Safety
pub mod Requests
use duallive.Base.{
  ℕ, zero, suc, ◌+◌, ◌*◌, ◌-◌, ◌==◌, if◌then◌else◌, Option, none, some, Outcome, ok, fault,
  out_of_bounds, verify, in_bounds, ◌>>=◌, ◌>>◌, ltb, leb, drop, Bool, true, false, ◌&&◌, ◌||◌, not,
  length,
}
use duallive.Base.Memory.{Bytes, read_at, read_word}
use duallive.Duallive.{Ver, Desc}
use duallive.ArbMsg.{
  Dli, dli_at, ver_at, sizeof_head, sizeof_dli, sizeof_ver, Kind, kind, req_sel_ms, rsp_sel_ms,
  req_rm_dli, rsp_rm_dli, unknown,
}

-- A pointer may be NULL, or not set yet: `none`.
pub record Decoder : Type 0 where
  pub msg_head : Option Bytes
  pub dl_info : Option Bytes
  pub dl_ver : Option Bytes
  pub str : Option Bytes

-- The members of an arb_msg_head_t.
abbrev pub head_msg_type : Bytes → Outcome ℕ
head_msg_type = read_word 0 2

abbrev pub head_dl_num : Bytes → Outcome ℕ
head_dl_num = read_word 2 2

abbrev pub head_msg_len : Bytes → Outcome ℕ
head_msg_len = read_word 4 4

pub str_valid : ℕ → ℕ → Bool
str_valid str_pos str_pos_limit = ltb 0 str_pos && ltb str_pos str_pos_limit

-- The loop of check_dli_str: the rounds left, and the index.
check_dli_loop : Bytes → ℕ → ℕ → ℕ → Outcome Bool
unfolding str_valid
check_dli_loop dli limit zero i = ok true
check_dli_loop dli limit (suc left) i = do
  d ← dli_at dli i
  let rest = check_dli_loop dli limit left (i + 1)
  if not (str_valid d.arbitrary_ip limit)
      then ok false
      else if not (str_valid d.local_dataset limit)
      then ok false
      else if not (str_valid d.remote_dataset limit)
      then ok false
      else rest

check_dli_str : Bytes → ℕ → ℕ → Outcome Bool
unfolding check_dli_loop
check_dli_str dli dl_num limit = check_dli_loop dli limit dl_num 0

check_msg_req_sel_ms : Bytes → Outcome Bool
unfolding check_dli_str
check_msg_req_sel_ms msg = do
  dl_num ← head_dl_num msg
  let size = sizeof_head + sizeof_dli * dl_num + sizeof_ver * dl_num
  msg_len ← head_msg_len msg
  if leb msg_len size
      then ok false
      else check_dli_str (drop sizeof_head msg) dl_num (msg_len - size)

check_msg_rsp_sel_ms : Bytes → Outcome Bool
check_msg_rsp_sel_ms msg = do
  dl_num ← head_dl_num msg
  msg_len ← head_msg_len msg
  ok (msg_len == sizeof_head + sizeof_ver * dl_num)

check_msg_req_rm_dli : Bytes → Outcome Bool
unfolding check_dli_str
check_msg_req_rm_dli msg = do
  dl_num ← head_dl_num msg
  let size = sizeof_head + sizeof_dli * dl_num
  msg_len ← head_msg_len msg
  if leb msg_len size
      then ok false
      else check_dli_str (drop sizeof_head msg) dl_num (msg_len - size)

check_kind : Kind → Bytes → Outcome Bool
unfolding check_msg_req_sel_ms check_msg_rsp_sel_ms check_msg_req_rm_dli
check_kind req_sel_ms msg = check_msg_req_sel_ms msg
check_kind rsp_sel_ms msg = check_msg_rsp_sel_ms msg
check_kind req_rm_dli msg = check_msg_req_rm_dli msg
check_kind rsp_rm_dli msg = do msg_len ← head_msg_len msg; ok (msg_len == sizeof_head)
check_kind unknown msg = ok false

pub check_msg : Bytes → ℕ → Outcome Bool
unfolding check_kind
check_msg msg size = if ltb size sizeof_head then ok false else do
  msg_len ← head_msg_len msg
  if not (size == msg_len)
      then ok false
      else do msg_type ← head_msg_type msg; check_kind (kind msg_type) msg

-- The buffer, and the pointer behind it.
abbrev decode_buf : Bytes → ℕ → Bytes × Bytes
decode_buf pbuf size = (pbuf, drop size pbuf)

point_kind : Kind → Decoder → Bytes → ℕ → Decoder
point_kind req_sel_ms dec pbuf dl_num =
    let (dl_info, pbuf) = decode_buf pbuf (sizeof_dli * dl_num) in
    let (dl_ver, pbuf) = decode_buf pbuf (sizeof_ver * dl_num) in
    record dec { dl_info = some dl_info; dl_ver = some dl_ver; str = some pbuf }
point_kind rsp_sel_ms dec pbuf dl_num = record dec {
  dl_info = none;
  dl_ver = some pbuf;
  str = none;
}
point_kind req_rm_dli dec pbuf dl_num =
    let (dl_info, pbuf) = decode_buf pbuf (sizeof_dli * dl_num) in
    record dec { dl_info = some dl_info; dl_ver = none; str = some pbuf }
point_kind rsp_rm_dli dec pbuf dl_num = dec
point_kind unknown dec pbuf dl_num = dec

-- `dec` is what the memory of the decoder holds before.
pub arb_msg_decoder_init : Decoder → Bytes → ℕ → Outcome (Bool × Decoder)
unfolding point_kind
arb_msg_decoder_init dec msg size = do
  checked ← check_msg msg size
  if not checked then ok (false, dec) else do
    msg_type ← head_msg_type msg
    dl_num ← head_dl_num msg
    let dec' = record dec { msg_head = some msg }
    ok (true, point_kind (kind msg_type) dec' (drop sizeof_head msg) dl_num)

-- Access through a pointer.
abbrev deref : Option Bytes → Outcome Bytes
deref none = fault out_of_bounds
deref (some m) = ok m

pub arb_msg_decoder_get_dl_num : Decoder → Outcome ℕ
arb_msg_decoder_get_dl_num dec = do msg ← deref dec.msg_head; head_dl_num msg

-- &str[off], which must not point beyond the end of the object.
abbrev at : Bytes → ℕ → Outcome Bytes
at str off = in_bounds (leb off (length str)) >> ok (drop off str)

decode_dl_info : Dli → Bytes → Outcome Desc
decode_dl_info dli str = do
  local_dataset ← at str dli.local_dataset
  remote_dataset ← at str dli.remote_dataset
  arbitrary_ip ← at str dli.arbitrary_ip
  ok (record {
    uuid = dli.uuid;
    local_hostid = dli.local_hostid;
    remote_hostid = dli.remote_hostid;
    local_dataset = local_dataset;
    remote_dataset = remote_dataset;
    arbitrary_ip = arbitrary_ip;
    arbitrary_port = dli.arbitrary_port;
  })

-- What arb_msg_decoder_get stores through the pointers that it is given.
pub data Out : Type 0 where
  desc_ver : Desc → Ver → Out
  ver : Ver → Out
  desc : Desc → Out
  nothing : Out

get_kind : Kind → Decoder → ℕ → ℕ → Outcome Out
unfolding decode_dl_info
get_kind req_sel_ms dec i argc = do
  verify (argc == 2)
  dl_info ← deref dec.dl_info
  dli ← dli_at dl_info i
  str ← deref dec.str
  d ← decode_dl_info dli str
  dl_ver ← deref dec.dl_ver
  v ← ver_at dl_ver i
  ok (desc_ver d v)
get_kind rsp_sel_ms dec i argc = do
  verify (argc == 1)
  dl_ver ← deref dec.dl_ver
  v ← ver_at dl_ver i
  ok (ver v)
get_kind req_rm_dli dec i argc = do
  verify (argc == 1)
  dl_info ← deref dec.dl_info
  dli ← dli_at dl_info i
  str ← deref dec.str
  d ← decode_dl_info dli str
  ok (desc d)
get_kind rsp_rm_dli dec i argc = ok nothing
get_kind unknown dec i argc = ok nothing

-- An index is at least 0 here; the VERIFY refuses a negative one as it does one that is too large.
pub arb_msg_decoder_get : Decoder → ℕ → ℕ → Outcome Out
unfolding get_kind
arb_msg_decoder_get dec dl_ndx argc = do
  msg ← deref dec.msg_head
  dl_num ← head_dl_num msg
  verify (ltb dl_ndx dl_num)
  msg_type ← head_msg_type msg
  get_kind (kind msg_type) dec dl_ndx argc
