-- ===== src/ArbMsg/Encoder/Pairs.antt =====
-- encode_dl_info of src/duallive/arbitrary_msg.c, for the first pair and for a later one.
use duallive.Base.{
  ℕ, ◌+◌, ◌^◌, ◌<◌, ◌≡◌, ◌≢◌, arith, inr, List, [], ◌∷◌, ◌++◌, length, some, Outcome, lt→ltb,
  le→ltb, ltb, false,
}
use duallive.Base.Memory.{Bytes, c_str}
use duallive.Kmem.{Allocator}
use duallive.Duallive.{Desc}
use duallive.Cvector.{StrVec}
use duallive.Cvector.Append
use duallive.Cvector.Append.{vec_add-Appends}
use duallive.Cvector.Text
use duallive.Cvector.Text.{Added}
use duallive.Cvector.Strings.{strvec_add-Added}
use duallive.ArbMsg.{sizeof_dli}
use duallive.ArbMsg.Stored.{IsDesc, space, dataset_space}
use duallive.ArbMsg.Encoder.{Encoder, encode_arb_ip, encode_dl_info}
use duallive.ArbMsg.Encoder.Texts.{space_str, Added-Refers}
use duallive.ArbMsg.Encoder.Info.{Info, Encoded, encode_dli-Encoded}

-- An encoder for requests that arb_msg_encoder_init has set up, and that holds no pair yet.
pub record IsFresh (enc : Encoder) : Type 0 where
  pub dli_valid : Append.IsValid enc.v_dli
  pub dli_size : enc.v_dli.elem_size ≡ sizeof_dli
  pub dli_pos : enc.v_dli.pos ≡ 0
  pub str_valid : Text.IsValid enc.v_str
  pub str_pos : enc.v_str.pos ≡ 1
  pub no_pairs : enc.dl_num ≡ 0

module _ ⦃heap : Allocator⦄ (enc : Encoder) (d : Desc) (is : IsDesc d) where
  -- The first pair brings the address of the arbiter, which must not be the empty string.
  pub encode_first :
      (s : Bytes)
      → IsFresh enc
      → c_str d.arbitrary_ip ≡ some s
      → s ≢ []
      → 1 + space d.arbitrary_ip + dataset_space (d ∷ []) < 2 ^ 32
      → Encoded d.arbitrary_ip (d ∷ []) enc (encode_dl_info enc d)
  unfolding encode_dl_info encode_arb_ip
  encode_first s fresh is_s some_byte room =
      let size = space_str d.arbitrary_ip s is_s in
      let a =
        strvec_add-Added enc.v_str d.arbitrary_ip s fresh.str_valid is_s
          (omega (arith, fresh.str_pos)) in
      let pos : 0 < a.off = a.positive (inr some_byte) in
      let first : ltb 0 enc.dl_num ≡ false = le→ltb 0 enc.dl_num (omega (arith, fresh.no_pairs)) in
      rw (first, a.returns)
        (again (
          encode_dli-Encoded d.arbitrary_ip [] (record enc { arbitrary_ip = a.off; v_str = a.vec })
            d
            (record {
              dlis = [];
              dli_valid = fresh.dli_valid;
              dli_size = fresh.dli_size;
              dli_pos = omega (arith, fresh.dli_pos);
              dli_contents = rw fresh.dli_pos;
              str_valid = a.valid;
              str_pos = omega (arith, a.bounded, fresh.str_pos);
              later = omega (arith, a.is_last);
              ip = Added-Refers enc.v_str d.arbitrary_ip s is_s a pos;
              stored = tt;
            })
            is room (omega arith)))
    where
      again :
          {v : StrVec} {ip : ℕ} {r : Outcome Encoder}
          → Encoded d.arbitrary_ip (d ∷ []) (record enc { arbitrary_ip = ip; v_str = v }) r
          → Encoded d.arbitrary_ip (d ∷ []) enc r
      again e = record {
        enc' = e.enc';
        returns = e.returns;
        info = e.info;
        same_ver = e.same_ver;
        same_num = e.same_num;
        same_type = e.same_type;
      }

  -- Each later pair refers to the address that the first one brought.
  pub encode_later :
      (p : Bytes) (ds : List Desc)
      → Info p ds enc
      → 0 < enc.dl_num
      → 1 + space p + dataset_space (ds ++ (d ∷ [])) < 2 ^ 32
      → length ds < 2 ^ 16
      → Encoded p (ds ++ (d ∷ [])) enc (encode_dl_info enc d)
  unfolding encode_dl_info encode_arb_ip
  encode_later p ds info some_pair room few =
      rw (lt→ltb 0 enc.dl_num some_pair) (encode_dli-Encoded p ds enc d info is room few)
