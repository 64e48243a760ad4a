-- ===== src/Demo/Tables.antt =====
-- The pairs and versions of src/duallive/demo.c.
use Prim.Native.String.{String}
use duallive.Base.{ℕ, ◌+◌, ◌*◌, ◌%◌, ◌^◌, List, [], ◌∷◌}
use duallive.Base.Text.{c_string}
use duallive.Duallive.{
  Desc, Ver, state_normal, state_linkdown, state_ms_little, state_ms_big, hostid_little, hostid_big,
  type_aa, type_ap,
}

-- DL_DESC
abbrev pub dl_desc : ℕ → ℕ → ℕ → ℕ → String → String → String → ℕ → Desc
dl_desc uuid0 uuid1 lhost rhost lds rds arbip arbport = record {
  uuid = record { uuid0 = uuid0; uuid1 = uuid1 };
  local_hostid = lhost;
  remote_hostid = rhost;
  local_dataset = c_string lds;
  remote_dataset = c_string rds;
  arbitrary_ip = c_string arbip;
  arbitrary_port = arbport;
}

-- DL_VER: each member is cut to its bit field.
abbrev pub dl_ver_of : ℕ → ℕ → ℕ → ℕ → Ver
dl_ver_of type state master version =
    version % 2 ^ 60 + master % 2 * 2 ^ 60 + state % 4 * 2 ^ 61 + type % 2 * 2 ^ 63

-- DL_AA_VER
abbrev pub dl_aa_ver : ℕ → ℕ → Ver
dl_aa_ver state version = dl_ver_of type_aa state hostid_little version

-- DL_AP_VER
abbrev pub dl_ap_ver : ℕ → ℕ → ℕ → Ver
dl_ap_ver state master version = dl_ver_of type_ap state master version

abbrev pub dl_desc_A : List Desc
dl_desc_A =
    dl_desc 0xab 1 1 3 "poolA/lunA1" "poolB/lunB1" "192.168.16.248" 3060
    ∷ dl_desc 0xab 2 1 3 "poolA/lunA2" "poolB/lunB2" "192.168.16.248" 3060
    ∷ dl_desc 0xab 3 1 3 "poolA/lunA3" "poolB/lunB3" "192.168.16.248" 3060
    ∷ dl_desc 0xab 4 1 3 "poolA/lunA4" "poolB/lunB4" "192.168.16.248" 3060
    ∷ dl_desc 0xab 5 1 3 "poolA/lunA5" "poolB/lunB5" "192.168.16.248" 3060
    ∷ dl_desc 0xab 6 1 3 "poolA/lunA6" "poolB/lunB6" "192.168.16.248" 3060
    ∷ dl_desc 0xab 7 1 3 "poolA/lunA7" "poolB/lunB7" "192.168.16.248" 3060
    ∷ dl_desc 0xab 8 1 3 "poolA/lunA8" "poolB/lunB8" "192.168.16.248" 3060
    ∷ dl_desc 0xab 9 1 3 "poolA/lunA9" "poolB/lunB9" "192.168.16.248" 3060
    ∷ dl_desc 0xab 10 1 3 "poolA/lunAA" "poolB/lunBA" "192.168.16.248" 3060
    ∷ dl_desc 0xab 11 1 3 "poolA/lunAB" "poolB/lunBB" "192.168.16.248" 3060
    ∷ dl_desc 0xab 12 1 3 "poolA/lunAC" "poolB/lunBC" "192.168.16.248" 3060
    ∷ []

abbrev pub dl_desc_B : List Desc
dl_desc_B =
    dl_desc 0xab 1 3 1 "poolB/lunB1" "poolA/lunA1" "192.168.16.248" 3060
    ∷ dl_desc 0xab 2 3 1 "poolB/lunB2" "poolA/lunA2" "192.168.16.248" 3060
    ∷ dl_desc 0xab 3 3 1 "poolB/lunB3" "poolA/lunA3" "192.168.16.248" 3060
    ∷ dl_desc 0xab 4 3 1 "poolB/lunB4" "poolA/lunA4" "192.168.16.248" 3060
    ∷ dl_desc 0xab 5 3 1 "poolB/lunB5" "poolA/lunA5" "192.168.16.248" 3060
    ∷ dl_desc 0xab 6 3 1 "poolB/lunB6" "poolA/lunA6" "192.168.16.248" 3060
    ∷ dl_desc 0xab 7 3 1 "poolB/lunB7" "poolA/lunA7" "192.168.16.248" 3060
    ∷ dl_desc 0xab 8 3 1 "poolB/lunB8" "poolA/lunA8" "192.168.16.248" 3060
    ∷ dl_desc 0xab 9 3 1 "poolB/lunB9" "poolA/lunA9" "192.168.16.248" 3060
    ∷ dl_desc 0xab 10 3 1 "poolB/lunBA" "poolA/lunAA" "192.168.16.248" 3060
    ∷ dl_desc 0xab 11 3 1 "poolB/lunBB" "poolA/lunAB" "192.168.16.248" 3060
    ∷ dl_desc 0xab 12 3 1 "poolB/lunBC" "poolA/lunAC" "192.168.16.248" 3060
    ∷ []

abbrev pub dl_ver : List Ver
dl_ver =
    dl_aa_ver state_normal 1
    ∷ dl_aa_ver state_linkdown 1
    ∷ dl_aa_ver state_ms_little 1
    ∷ dl_aa_ver state_ms_big 1
    ∷ dl_ap_ver state_normal hostid_little 2
    ∷ dl_ap_ver state_linkdown hostid_little 2
    ∷ dl_ap_ver state_ms_little hostid_little 2
    ∷ dl_ap_ver state_ms_big hostid_little 2
    ∷ dl_ap_ver state_normal hostid_big 2
    ∷ dl_ap_ver state_linkdown hostid_big 2
    ∷ dl_ap_ver state_ms_little hostid_big 2
    ∷ dl_ap_ver state_ms_big hostid_big 2
    ∷ []

-- desc_arr[i] with dl_ver[i]
abbrev pub with_versions : List Desc → List Ver → List (Desc × Ver)
with_versions [] vs = []
with_versions (d ∷ ds) [] = []
with_versions (d ∷ ds) (v ∷ vs) = (d, v) ∷ with_versions ds vs
