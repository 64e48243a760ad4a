-- ===== src/Tests/Image.antt =====
-- Files of the arbiter at concrete inputs.
use duallive.Base.{
  ℕ, zero, suc, ◌-◌, ◌*◌, ◌≡◌, refl, sym, Option, subst, arith, [], ◌∷◌, ◌++◌, length, get_elem?,
  replicate, false, none, some, ok, Returns,
}
use duallive.Base.Memory.{Bytes, le, un_le, c_str, NoNul, c_str-Split, same_bytes}
use duallive.Base.Patches.{window}
use duallive.Duallive.{Desc}
use duallive.ArbDisk.{desc_standard}
use duallive.ArbDisk.Image.Head.{dli_off, disk_magic, disk_dli_of}
use duallive.ArbDisk.Image.{
  Grow, arb_disk_add_str, arb_disk_find_dli, arb_disk_format, arb_disk_insert_dli,
  arb_disk_remove_dli,
}
use duallive.ArbDisk.Image.Holds.{Key, Layout, Stands, Entry, IsImage}
use duallive.ArbDisk.Image.Find.{IsKey, index_of, index_from, arb_disk_find_dli-index_of}
use duallive.ArbDisk.Image.Format.{empty_layout, arb_disk_format-IsImage}
use duallive.ArbDisk.Image.Strings.{Adds, arb_disk_add_str-Adds}
use duallive.ArbDisk.Image.Remove.{without, arb_disk_remove_dli-without}
use duallive.ArbDisk.Image.Insert.{Fitting, Inserts, arb_disk_insert_dli-Inserts}
use duallive.ArbDisk.Image.Full.{Fails, arb_disk_insert_dli-Fails}
use duallive.ArbDisk.Image.Lookup.{find-insert}
use duallive.ArbDisk.Image.Agree.{Does, mapped_sel_ms-Does, Agrees, hosts_agree}
use duallive.Base.Text.{codes, c_string}
use duallive.Tests.Data.{desc_a1, desc_b1, desc_a2}

abbrev text_a1 : Bytes
text_a1 = 0 ∷ (c_string "poolA/lunA1" ++ (c_string "poolB/lunB1" ++ c_string "192.168.16.248"))

-- A file with room for `max` pairs, that holds the pair of `desc_a1`.
abbrev image_a1 : ℕ → Bytes
image_a1 max =
    (le 4 disk_magic
      ++ (le 2 1
          ++ (le 2 max
              ++ (le 4 25
                  ++ (le 4 3060
                      ++ (le 8 0xab ++ (le 8 1 ++ (le 4 40 ++ (le 4 25 ++ replicate 24 0)))))))))
    ++ ((le 4 1 ++ (le 4 3 ++ (le 4 1 ++ (le 4 13 ++ replicate 48 0))))
        ++ (replicate (64 * (max - 1)) 0 ++ (text_a1 ++ replicate 80 0)))

abbrev layout_a1 : ℕ → Layout
layout_a1 max = record { max = max; pos = 40; last = 25 }

abbrev key_a1 : Key
key_a1 = record { host0 = 1; host1 = 3; name0 = codes "poolA/lunA1"; name1 = codes "poolB/lunB1" }

abbrev key_a2 : Key
key_a2 = record { host0 = 1; host1 = 3; name0 = codes "poolA/lunA2"; name1 = codes "poolB/lunB2" }

no_second : (i : ℕ) {q : Key} → get_elem? (key_a1 ∷ []) (suc i) ≡ some q → ⊥
no_second i e = ground arith

-- A string constant has no NUL before its end.
c_string-NoNul : (m s : Bytes) → c_str m ≡ some s → NoNul s
c_string-NoNul m s e = (c_str-Split m s e).no_nul

record_a1-Entry :
    (b : Bytes)
    → un_le 4 (window 0 4 b) ≡ 1
    → un_le 4 (window 4 4 b) ≡ 3
    → un_le 4 (window 8 4 b) ≡ 1
    → un_le 4 (window 12 4 b) ≡ 13
    → Entry text_a1 b key_a1
unfolding disk_dli_of c_str
record_a1-Entry b host0 host1 off0 off1 = record {
  host0 = host0;
  host1 = host1;
  name0 =
      subst (λ o. Stands text_a1 o key_a1.name0) (sym off0)
        (record {
          no_nul = c_string-NoNul (c_string "poolA/lunA1") _ refl;
          inside = omega arith;
          reads = refl;
        });
  name1 =
      subst (λ o. Stands text_a1 o key_a1.name1) (sym off1)
        (record {
          no_nul = c_string-NoNul (c_string "poolB/lunB1") _ refl;
          inside = omega arith;
          reads = refl;
        });
}

image_a1-Entry :
    (img : Bytes)
    → Entry text_a1 (window (dli_off 0) 64 img) key_a1
    → (i : ℕ) (k : Key) → get_elem? (key_a1 ∷ []) i ≡ some k
    → Entry text_a1 (window (dli_off i) 64 img) k
image_a1-Entry img entry zero k e =
    let same : key_a1 ≡ k = cc in subst (Entry text_a1 (window (dli_off 0) 64 img)) same entry
image_a1-Entry img entry (suc i) k e = absurd (no_second i e)

roomy_a1-IsImage : IsImage (image_a1 4) (layout_a1 4) text_a1 (key_a1 ∷ [])
unfolding le un_le
roomy_a1-IsImage = record {
  base = record {
    is_max = refl;
    is_pos = refl;
    is_last = refl;
    is_text = refl;
    word = omega arith;
    whole = omega arith;
    small = omega arith;
    last_within = omega arith;
  };
  is_num = refl;
  few = omega arith;
  entries =
      image_a1-Entry (image_a1 4) (record_a1-Entry (window 64 64 (image_a1 4)) refl refl refl refl);
}

full_a1-IsImage : IsImage (image_a1 1) (layout_a1 1) text_a1 (key_a1 ∷ [])
unfolding le un_le
full_a1-IsImage = record {
  base = record {
    is_max = refl;
    is_pos = refl;
    is_last = refl;
    is_text = refl;
    word = omega arith;
    whole = omega arith;
    small = omega arith;
    last_within = omega arith;
  };
  is_num = refl;
  few = omega arith;
  entries =
      image_a1-Entry (image_a1 1) (record_a1-Entry (window 64 64 (image_a1 1)) refl refl refl refl);
}

is_b1 : (tmp : Desc) → IsKey (desc_standard desc_b1 tmp) key_a1
unfolding desc_standard c_str
is_b1 tmp = record { host0 = refl; host1 = refl; name0 = refl; name1 = refl }

is_a1 : (tmp : Desc) → IsKey (desc_standard desc_a1 tmp) key_a1
unfolding desc_standard c_str
is_a1 tmp = record { host0 = refl; host1 = refl; name0 = refl; name1 = refl }

is_a2 : (tmp tmp2 : Desc) → IsKey (desc_standard (desc_standard desc_a2 tmp) tmp2) key_a2
unfolding desc_standard c_str
is_a2 tmp tmp2 = record { host0 = refl; host1 = refl; name0 = refl; name1 = refl }

-- The other host's description of the pair of `desc_a2`.
abbrev desc_b2 : Desc
desc_b2 = record desc_a2 {
  local_hostid = 3;
  remote_hostid = 1;
  local_dataset = desc_a2.remote_dataset;
  remote_dataset = desc_a2.local_dataset;
}

is_b2 : (tmp : Desc) → IsKey (desc_standard desc_b2 tmp) key_a2
unfolding desc_standard c_str
is_b2 tmp = record { host0 = refl; host1 = refl; name0 = refl; name1 = refl }

is_b2_again : (tmp tmp2 : Desc) → IsKey (desc_standard (desc_standard desc_b2 tmp) tmp2) key_a2
unfolding desc_standard c_str
is_b2_again tmp tmp2 = record { host0 = refl; host1 = refl; name0 = refl; name1 = refl }

desc_a2-Fitting :
    (tmp : Desc)
    → Fitting (image_a1 4) (layout_a1 4) (key_a1 ∷ []) (desc_standard desc_a2 tmp) key_a2 []
unfolding desc_standard c_str le
desc_a2-Fitting tmp = record {
  is_key = record { host0 = refl; host1 = refl; name0 = refl; name1 = refl };
  host0 = omega arith;
  host1 = omega arith;
  first = λ e. absurd (omega arith);
  room = omega arith;
  space = omega arith;
}

-- A file that grows by zero bytes.
abbrev grow_zeros : Grow
grow_zeros img n = some (img ++ replicate n 0)

some-bytes : {a b : Bytes} → ◌≡◌ {A = Option Bytes} (some a) (some b) → a ≡ b
some-bytes e = cc

arb_disk_find_dli-index_of_example :
    arb_disk_find_dli (image_a1 4) desc_b1 desc_a2 ≡ ok (index_of key_a1 (key_a1 ∷ []))
arb_disk_find_dli-index_of_example =
    arb_disk_find_dli-index_of desc_b1 desc_a2 key_a1 roomy_a1-IsImage (is_b1 desc_a2)

arb_disk_format-IsImage_example :
    Returns
      (λ img. IsImage img empty_layout (0 ∷ []) [] × (length img ≡ 4096))
      (arb_disk_format 4096)
arb_disk_format-IsImage_example = arb_disk_format-IsImage 4096 (omega arith) (omega arith)

arb_disk_add_str-Adds_example :
    Adds
      (image_a1 4)
      (layout_a1 4)
      text_a1
      (codes "tank/vol")
      (arb_disk_add_str grow_zeros (image_a1 4) (c_string "tank/vol"))
unfolding c_str le
arb_disk_add_str-Adds_example =
    arb_disk_add_str-Adds roomy_a1-IsImage.base (c_string "tank/vol") (codes "tank/vol") refl
      (omega arith) grow_zeros

arb_disk_insert_dli-Inserts_example :
    Inserts
      (image_a1 4)
      (layout_a1 4)
      (key_a1 ∷ [])
      key_a2
      (arb_disk_insert_dli grow_zeros (image_a1 4) desc_a2 desc_b1 desc_b1)
arb_disk_insert_dli-Inserts_example =
    arb_disk_insert_dli-Inserts grow_zeros desc_a2 desc_b1 desc_b1 key_a2 [] roomy_a1-IsImage
      (is_a2 desc_b1 desc_b1) (desc_a2-Fitting desc_b1)

arb_disk_remove_dli-without_example :
    Returns
      (λ img'. IsImage img' (layout_a1 4) text_a1 (without key_a1 (key_a1 ∷ [])))
      (arb_disk_remove_dli (image_a1 4) desc_a1 desc_b1)
arb_disk_remove_dli-without_example =
    arb_disk_remove_dli-without desc_a1 desc_b1 key_a1 roomy_a1-IsImage (is_a1 desc_b1)

is_new : index_of key_a2 (key_a1 ∷ []) ≡ none
unfolding index_of index_from same_bytes
is_new = refl

arb_disk_insert_dli-Fails_example :
    Fails (arb_disk_insert_dli grow_zeros (image_a1 1) desc_a2 desc_b1 desc_b1)
unfolding le
arb_disk_insert_dli-Fails_example =
    arb_disk_insert_dli-Fails grow_zeros desc_a2 desc_b1 desc_b1 key_a2 full_a1-IsImage
      (is_a2 desc_b1 desc_b1) (λ img img' n e. some-bytes (sym e)) is_new refl (omega arith)
      (omega arith)

find-insert_example :
    (i : ℕ) × (img' : Bytes) × (arb_disk_insert_dli grow_zeros (image_a1 4) desc_a2 desc_b1 desc_b1
      ≡ ok (i, img'))
    × (arb_disk_find_dli img' desc_b2 desc_a1 ≡ ok (some i))
find-insert_example =
    find-insert grow_zeros desc_a2 desc_b1 desc_b1 desc_b2 desc_a1 key_a2 [] roomy_a1-IsImage
      (is_a2 desc_b1 desc_b1) (desc_a2-Fitting desc_b1) (is_b2 desc_a1)

mapped_sel_ms-Does_example : Does false (image_a1 4) 0 desc_a1 1 (layout_a1 4) text_a1 (key_a1 ∷ [])
mapped_sel_ms-Does_example =
    mapped_sel_ms-Does false 0 desc_a1 1 roomy_a1-IsImage (omega arith) (omega arith)

hosts_agree_example :
    Agrees grow_zeros (image_a1 4) desc_a2 desc_b1 desc_b1 desc_b2 desc_a1 desc_a1 7 7 false
hosts_agree_example =
    hosts_agree grow_zeros desc_a2 desc_b1 desc_b1 desc_b2 desc_a1 desc_a1 key_a2 [] 7 7 false
      roomy_a1-IsImage (is_a2 desc_b1 desc_b1) (desc_a2-Fitting desc_b1)
      (is_b2_again desc_a1 desc_a1) (omega arith) refl
