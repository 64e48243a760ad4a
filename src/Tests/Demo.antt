-- ===== src/Tests/Demo.antt =====
-- The demonstration on its own tables.
use duallive.Base.{refl, arith, List, Returns}
use duallive.Base.Memory.{c_str}
use duallive.Base.Text.{codes, c_string}
use duallive.Duallive.{Desc, Ver}
use duallive.Demo.{arb_msg_sel_ms_on_single_site}
use duallive.Demo.Tables.{dl_desc_A, dl_ver, with_versions}
use duallive.Demo.TableSites.{table_A-AllDescs}
use duallive.Demo.Site.{Shows, single_site-Shows}
use duallive.Tests.Data.{zeroed, raw_encoder, raw_decoder}

abbrev site_A : List (Desc × Ver)
site_A = with_versions dl_desc_A dl_ver

single_site-Shows_example :
    Returns
      (Shows (c_string "192.168.16.248") site_A)
      (arb_msg_sel_ms_on_single_site raw_encoder raw_decoder site_A)
unfolding c_str
single_site-Shows_example =
    single_site-Shows raw_encoder raw_decoder _ _ _ (codes "192.168.16.248") refl (λ e. cc)
      table_A-AllDescs (omega arith) (omega arith) (omega arith)
