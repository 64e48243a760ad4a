-- ===== src/Duallive.antt =====
-- The shared types: src/duallive/duallive_impl.h.
use duallive.Base.{ℕ, ◌/◌, ◌%◌, ◌+◌, ◌*◌, ◌^◌}
use duallive.Base.Memory.{Bytes}

pub record Uuid : Type 0 where
  pub uuid0 : ℕ
  pub uuid1 : ℕ

-- dl_ver_t: a word of 64 bits, seen whole or by its bit fields.
abbrev pub Ver : Type 0
Ver = ℕ

abbrev pub version : Ver → ℕ
version v = v % 2 ^ 60

abbrev pub master : Ver → ℕ
master v = v / 2 ^ 60 % 2

abbrev pub state : Ver → ℕ
state v = v / 2 ^ 61 % 4

abbrev pub dl_type : Ver → ℕ
dl_type v = v / 2 ^ 63 % 2

-- dl_type_t
abbrev pub type_aa : ℕ
type_aa = 0

abbrev pub type_ap : ℕ
type_ap = 1

-- dl_hostid_t
abbrev pub hostid_little : ℕ
hostid_little = 0

abbrev pub hostid_big : ℕ
hostid_big = 1

-- dl_state_t
abbrev pub state_normal : ℕ
state_normal = 0

abbrev pub state_linkdown : ℕ
state_linkdown = 1

abbrev pub state_ms_little : ℕ
state_ms_little = 2

abbrev pub state_ms_big : ℕ
state_ms_big = 3

-- v.detail.state = s
abbrev pub set_state : Ver → ℕ → Ver
set_state v s = v % 2 ^ 61 + s % 4 * 2 ^ 61 + v / 2 ^ 63 * 2 ^ 63

-- dl_desc_t. A string is the memory that its pointer points to.
pub record Desc : Type 0 where
  pub uuid : Uuid
  pub local_hostid : ℕ
  pub remote_hostid : ℕ
  pub local_dataset : Bytes
  pub remote_dataset : Bytes
  pub arbitrary_ip : Bytes
  pub arbitrary_port : ℕ
