-- ===== src/Demo.antt =====
-- The demonstration: src/duallive/demo.c. What is printed about a pair is returned.
pub mod Tables
pub mod Site
pub mod TableSites
pub mod Run
use duallive.Base.{
  ℕ, zero, suc, ◌+◌, ◌==◌, if◌then◌else◌, List, [], ◌∷◌, length, Option, none, some, Outcome, ok,
  fault, out_of_bounds, type_confusion, verify, ◌>>=◌, ◌>>◌,
}
use duallive.Base.Memory.{Bytes}
use duallive.Base.Text.{c_string}
use duallive.Kmem.{Allocator}
use duallive.Duallive.{
  Desc, Ver, master, state, dl_type, state_normal, state_linkdown, state_ms_little, state_ms_big,
  hostid_little, hostid_big, type_aa, type_ap,
}
use duallive.ArbMsg.Encoder.{Encoder}
use duallive.ArbMsg.Encoder.Site.{sel_ms_message}
use duallive.ArbMsg.Decoder.{
  Decoder, Out, desc_ver, ver, desc, nothing, head_msg_len, arb_msg_decoder_init,
  arb_msg_decoder_get_dl_num, arb_msg_decoder_get,
}

pub dl_type_str : Ver → Bytes
dl_type_str v =
    if dl_type v == type_aa
    then c_string "AA"
    else if dl_type v == type_ap
    then c_string "AP"
    else c_string "TYPE-ERR"

pub dl_state_str : Ver → Bytes
dl_state_str v =
    if state v == state_normal
    then c_string ".normal"
    else if state v == state_linkdown
    then c_string ".linkdown"
    else if state v == state_ms_little
    then c_string ".ms0"
    else if state v == state_ms_big
    then c_string ".ms1"
    else c_string ".STATE-ERR"

pub dl_master_str : Ver → Bytes
dl_master_str v =
    if dl_type v == type_aa
    then c_string ""
    else if master v == hostid_little
    then c_string ".m0"
    else if master v == hostid_big
    then c_string ".m1"
    else c_string ".MASTER-ERR"

-- ARB_DEC_REQ_SEL_MS
dec_req_sel_ms : Decoder → ℕ → Outcome (Desc × Ver)
dec_req_sel_ms dec i = do
  out ← arb_msg_decoder_get dec i 2
  elim out [
    | desc_ver d v ↦ ok (d, v)
    | ver v ↦ fault type_confusion
    | desc d ↦ fault type_confusion
    | nothing ↦ fault type_confusion
  ]

-- The second loop of arb_msg_sel_ms_on_single_site: the rounds left, and the index.
show_loop : Decoder → ℕ → ℕ → Outcome (List (Desc × Ver))
unfolding dec_req_sel_ms
show_loop dec zero i = ok []
show_loop dec (suc left) i = do
  pair ← dec_req_sel_ms dec i
  rest ← show_loop dec left (i + 1)
  ok (pair ∷ rest)

-- From the message on.
show_message : Decoder → ℕ → Bytes → Outcome (List (Desc × Ver))
unfolding show_loop
show_message dec dl_num msg = do
  msg_len ← head_msg_len msg
  (accepted, dec) ← arb_msg_decoder_init dec msg msg_len
  verify accepted
  num ← arb_msg_decoder_get_dl_num dec
  verify (num == dl_num)
  show_loop dec dl_num 0

-- desc_arr[i] with dl_ver[i], for each i below dl_num. `enc` and `dec` are what the memory of the local
-- variables holds before.
pub arb_msg_sel_ms_on_single_site :
    ⦃heap : Allocator⦄ → Encoder → Decoder → List (Desc × Ver) → Outcome (List (Desc × Ver))
unfolding show_message
arb_msg_sel_ms_on_single_site enc dec items = do
  msg ← sel_ms_message enc items
  elim msg [ none ↦ fault out_of_bounds | some msg ↦ show_message dec (length items) msg ]
