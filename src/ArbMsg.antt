-- ===== src/ArbMsg.antt =====
-- The messages to the arbiter: src/duallive/arbitrary_msg.h, with the struct layouts of the target
-- (little-endian, no padding in these structs).
pub mod Layout
pub mod Stored
pub mod Encoder
pub mod Decoder
pub mod RoundTrip
use duallive.Base.{ℕ, ◌*◌, ◌==◌, if◌then◌else◌, ◌++◌, drop, Outcome, ok, ◌>>=◌}
use duallive.Base.Memory.{Bytes, le, un_le, read_at}
use duallive.Duallive.{Uuid, Ver}

-- arb_dli_t. Its strings are offsets into the message's strings.
pub record Dli : Type 0 where
  pub uuid : Uuid
  pub local_hostid : ℕ
  pub remote_hostid : ℕ
  pub local_dataset : ℕ
  pub remote_dataset : ℕ
  pub arbitrary_ip : ℕ
  pub arbitrary_port : ℕ

-- sizeof(arb_msg_head_t), sizeof(arb_dli_t), sizeof(dl_ver_t)
abbrev pub sizeof_head : ℕ
sizeof_head = 8

abbrev pub sizeof_dli : ℕ
sizeof_dli = 40

abbrev pub sizeof_ver : ℕ
sizeof_ver = 8

-- The bytes of an arb_dli_t, in the order of its members.
unfoldable pub dli_bytes : Dli → Bytes
dli_bytes d =
    le 8 d.uuid.uuid0
    ++ (le 8 d.uuid.uuid1
        ++ (le 4 d.local_hostid
            ++ (le 4 d.remote_hostid
                ++ (le 4 d.local_dataset
                    ++ (le 4 d.remote_dataset ++ (le 4 d.arbitrary_ip ++ le 4 d.arbitrary_port))))))

-- The arb_dli_t that such bytes stand for.
unfoldable pub dli_of : Bytes → Dli
dli_of b = record {
  uuid = record { uuid0 = un_le 8 b; uuid1 = un_le 8 (drop 8 b) };
  local_hostid = un_le 4 (drop 16 b);
  remote_hostid = un_le 4 (drop 20 b);
  local_dataset = un_le 4 (drop 24 b);
  remote_dataset = un_le 4 (drop 28 b);
  arbitrary_ip = un_le 4 (drop 32 b);
  arbitrary_port = un_le 4 (drop 36 b);
}

-- dli[i]
unfoldable pub dli_at : Bytes → ℕ → Outcome Dli
dli_at dli i = do b ← read_at (sizeof_dli * i) sizeof_dli dli; ok (dli_of b)

unfoldable pub ver_at : Bytes → ℕ → Outcome Ver
ver_at ver i = do b ← read_at (sizeof_ver * i) sizeof_ver ver; ok (un_le sizeof_ver b)

-- arb_msg_head_t
unfoldable pub head_bytes : ℕ → ℕ → ℕ → Bytes
head_bytes msg_type dl_num msg_len = le 2 msg_type ++ (le 2 dl_num ++ le 4 msg_len)

-- The message types, as the switches of the code tell them apart.
pub data Kind : Type 0 where
  req_sel_ms rsp_sel_ms req_rm_dli rsp_rm_dli unknown : Kind

abbrev pub kind : ℕ → Kind
kind t =
    if t == 0
    then req_sel_ms
    else if t == 1
    then rsp_sel_ms
    else if t == 2
    then req_rm_dli
    else if t == 3
    then rsp_rm_dli
    else unknown
