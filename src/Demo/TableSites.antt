-- ===== src/Demo/TableSites.antt =====
-- The tables of src/duallive/demo.c, sent through arb_msg_sel_ms_on_single_site.
use duallive.Base.{◌^◌, ◌<◌, ◌≡◌, refl, arith, Returns, some}
use duallive.Base.Memory.{Bytes, c_str}
use duallive.Base.Text.{codes, c_string}
use duallive.Kmem.{Allocator}
use duallive.Duallive.{Desc}
use duallive.ArbMsg.Stored.{IsDesc}
use duallive.ArbMsg.Encoder.{Encoder}
use duallive.ArbMsg.Encoder.Site.{AllDescs}
use duallive.ArbMsg.Decoder.{Decoder}
use duallive.Demo.{arb_msg_sel_ms_on_single_site}
use duallive.Demo.Tables.{dl_desc_A, dl_desc_B, dl_ver, with_versions}
use duallive.Demo.Site.{Shows, single_site-Shows}

IsDesc_lem :
    (d : Desc) (s t : Bytes)
    → c_str d.local_dataset ≡ some s
    → c_str d.remote_dataset ≡ some t
    → (d.uuid.uuid0 < 2 ^ 64)
      × (d.uuid.uuid1 < 2 ^ 64)
      × (d.local_hostid < 2 ^ 32)
      × (d.remote_hostid < 2 ^ 32)
      × (d.arbitrary_port < 2 ^ 32)
    → IsDesc d
IsDesc_lem d s t e f (u0, u1, l, r, p) = record {
  uuid0 = u0;
  uuid1 = u1;
  local_hostid = l;
  remote_hostid = r;
  arbitrary_port = p;
  local_dataset = (s, e);
  remote_dataset = (t, f);
}

pub table_A-AllDescs : AllDescs (with_versions dl_desc_A dl_ver)
unfolding c_str
table_A-AllDescs = (
  IsDesc_lem _ _ _ refl refl (omega arith),
  (
    IsDesc_lem _ _ _ refl refl (omega arith),
    (
      IsDesc_lem _ _ _ refl refl (omega arith),
      (
        IsDesc_lem _ _ _ refl refl (omega arith),
        (
          IsDesc_lem _ _ _ refl refl (omega arith),
          (
            IsDesc_lem _ _ _ refl refl (omega arith),
            (
              IsDesc_lem _ _ _ refl refl (omega arith),
              (
                IsDesc_lem _ _ _ refl refl (omega arith),
                (
                  IsDesc_lem _ _ _ refl refl (omega arith),
                  (
                    IsDesc_lem _ _ _ refl refl (omega arith),
                    (
                      IsDesc_lem _ _ _ refl refl (omega arith),
                      (IsDesc_lem _ _ _ refl refl (omega arith), tt),
                    ),
                  ),
                ),
              ),
            ),
          ),
        ),
      ),
    ),
  ),
)

table_B-AllDescs : AllDescs (with_versions dl_desc_B dl_ver)
unfolding c_str
table_B-AllDescs = (
  IsDesc_lem _ _ _ refl refl (omega arith),
  (
    IsDesc_lem _ _ _ refl refl (omega arith),
    (
      IsDesc_lem _ _ _ refl refl (omega arith),
      (
        IsDesc_lem _ _ _ refl refl (omega arith),
        (
          IsDesc_lem _ _ _ refl refl (omega arith),
          (
            IsDesc_lem _ _ _ refl refl (omega arith),
            (
              IsDesc_lem _ _ _ refl refl (omega arith),
              (
                IsDesc_lem _ _ _ refl refl (omega arith),
                (
                  IsDesc_lem _ _ _ refl refl (omega arith),
                  (
                    IsDesc_lem _ _ _ refl refl (omega arith),
                    (
                      IsDesc_lem _ _ _ refl refl (omega arith),
                      (IsDesc_lem _ _ _ refl refl (omega arith), tt),
                    ),
                  ),
                ),
              ),
            ),
          ),
        ),
      ),
    ),
  ),
)

-- The tables go through the messages.
pub site_A-Shows :
    ⦃heap : Allocator⦄
    → (enc : Encoder) (dec : Decoder)
    → Returns
        (Shows (c_string "192.168.16.248") (with_versions dl_desc_A dl_ver))
        (arb_msg_sel_ms_on_single_site enc dec (with_versions dl_desc_A dl_ver))
unfolding c_str
site_A-Shows enc dec =
    single_site-Shows enc dec _ _ _ (codes "192.168.16.248") refl (λ e. cc) table_A-AllDescs
      (omega arith) (omega arith) (omega arith)

pub site_B-Shows :
    ⦃heap : Allocator⦄
    → (enc : Encoder) (dec : Decoder)
    → Returns
        (Shows (c_string "192.168.16.248") (with_versions dl_desc_B dl_ver))
        (arb_msg_sel_ms_on_single_site enc dec (with_versions dl_desc_B dl_ver))
unfolding c_str
site_B-Shows enc dec =
    single_site-Shows enc dec _ _ _ (codes "192.168.16.248") refl (λ e. cc) table_B-AllDescs
      (omega arith) (omega arith) (omega arith)
