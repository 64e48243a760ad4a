-- ===== src/Tests/Data.antt =====
-- Inputs: pairs of src/duallive/demo.c and an allocator.
use duallive.Base.{[], none, replicate, length-replicate}
use duallive.Base.Text.{c_string}
use duallive.Kmem.{Allocator}
use duallive.Cvector.{Vec, StrVec}
use duallive.Duallive.{Desc}
use duallive.ArbMsg.Encoder.{Encoder}
use duallive.ArbMsg.Decoder.{Decoder}

-- Memory as calloc would hand it out.
instance abbrev pub zeroed : Allocator
zeroed = record { fresh = λ n. replicate n 0; fresh_sized = λ n. length-replicate n 0 }

abbrev pub desc_a1 : Desc
desc_a1 = record {
  uuid = record { uuid0 = 0xab; uuid1 = 1 };
  local_hostid = 1;
  remote_hostid = 3;
  local_dataset = c_string "poolA/lunA1";
  remote_dataset = c_string "poolB/lunB1";
  arbitrary_ip = c_string "192.168.16.248";
  arbitrary_port = 3060;
}

abbrev pub desc_b1 : Desc
desc_b1 = record {
  uuid = record { uuid0 = 0xab; uuid1 = 1 };
  local_hostid = 3;
  remote_hostid = 1;
  local_dataset = c_string "poolB/lunB1";
  remote_dataset = c_string "poolA/lunA1";
  arbitrary_ip = c_string "192.168.16.248";
  arbitrary_port = 3060;
}

abbrev pub desc_a2 : Desc
desc_a2 = record {
  uuid = record { uuid0 = 0xab; uuid1 = 2 };
  local_hostid = 1;
  remote_hostid = 3;
  local_dataset = c_string "poolA/lunA2";
  remote_dataset = c_string "poolB/lunB2";
  arbitrary_ip = c_string "10.0.0.1";
  arbitrary_port = 3060;
}

abbrev pub no_vec : Vec
no_vec = record { buf = []; size = 0; elem_size = 0; pos = 0 }

abbrev pub no_strvec : StrVec
no_strvec = record { str = []; size = 0; last_pos = 0; pos = 0 }

-- An encoder and a decoder before they are set up.
abbrev pub raw_encoder : Encoder
raw_encoder = record {
  msg_type = 9;
  dl_num = 7;
  arbitrary_ip = 5;
  v_dli = no_vec;
  v_ver = no_vec;
  v_str = no_strvec;
}

abbrev pub raw_decoder : Decoder
raw_decoder = record { msg_head = none; dl_info = none; dl_ver = none; str = none }
