-- ===== src/Demo/Run.antt =====
-- test_arb_msg_sel_ms of src/duallive/demo.c. What is printed is returned.
use duallive.Base.{refl, List, Outcome, ok, Returns, ◌>>=◌}
use duallive.Base.Text.{c_string}
use duallive.Kmem.{Allocator}
use duallive.Duallive.{Desc, Ver}
use duallive.ArbMsg.Encoder.{Encoder}
use duallive.ArbMsg.Decoder.{Decoder}
use duallive.Demo.{arb_msg_sel_ms_on_single_site}
use duallive.Demo.Tables.{dl_desc_A, dl_desc_B, dl_ver, with_versions}
use duallive.Demo.TableSites.{site_A-Shows, site_B-Shows}
use duallive.Demo.Site.{Shows}

-- What is printed for a site.
abbrev pub Shown : Type 0
Shown = List (Desc × Ver)

-- The local variables of each call hold anything before.
pub test_arb_msg_sel_ms :
    ⦃heap : Allocator⦄ → Encoder → Decoder → Encoder → Decoder → Outcome (Shown × Shown)
test_arb_msg_sel_ms enc dec enc' dec' = do
  shown_A ← arb_msg_sel_ms_on_single_site enc dec (with_versions dl_desc_A dl_ver)
  shown_B ← arb_msg_sel_ms_on_single_site enc' dec' (with_versions dl_desc_B dl_ver)
  ok (shown_A, shown_B)

test-Shows :
    ⦃heap : Allocator⦄
    → (enc : Encoder) (dec : Decoder) (enc' : Encoder) (dec' : Decoder)
    → Returns
        (λ r.
          Shows (c_string "192.168.16.248") (with_versions dl_desc_A dl_ver) r.0
          × Shows (c_string "192.168.16.248") (with_versions dl_desc_B dl_ver) r.1)
        (test_arb_msg_sel_ms enc dec enc' dec')
unfolding test_arb_msg_sel_ms
test-Shows enc dec enc' dec' =
    let (a, shows_a, good_a) = site_A-Shows enc dec in
    let (b, shows_b, good_b) = site_B-Shows enc' dec' in
    rw (shows_a, shows_b) ((a, b), refl, (good_a, good_b))
