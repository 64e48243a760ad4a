-- ===== src/ArbMsg/Encoder/Requests.antt =====
-- arb_msg_encoder_init and arb_msg_encoder_add of src/duallive/arbitrary_msg.c for a request to
-- select masters.
use duallive.Base.{
  Returns, ℕ, ◌+◌, ◌*◌, ◌^◌, ◌<◌, ◌≡◌, refl, ap, ◌∙◌, sym, arith, List, [], ◌∷◌, ◌++◌, length,
  length-append, take, take_all,
}
use duallive.Base.Memory.{Bytes, le, length-le}
use duallive.Kmem.{Allocator}
use duallive.Duallive.{Desc, Ver}
use duallive.Cvector.{Vec, contents, vec_add, vec_init}
use duallive.Cvector.Append
use duallive.Cvector.Append.{vec_add-Appends, vec_init-IsValid}
use duallive.Cvector.Strings.{strvec_init-IsValid}
use duallive.ArbMsg.{sizeof_dli, sizeof_ver, kind, req_sel_ms}
use duallive.ArbMsg.Layout.{vers_bytes, vers_bytes-snoc}
use duallive.ArbMsg.Encoder.{
  Encoder, Arg, desc, ver, arb_msg_encoder_init, arb_msg_encoder_add, encode_dl_info, add_kind,
}
use duallive.ArbMsg.Encoder.Info
use duallive.ArbMsg.Encoder.Info.{Encoded}
use duallive.ArbMsg.Encoder.Pairs.{IsFresh}

-- The encoder holds the pairs `ds` with the versions `vs`.
pub record Ready (p : Bytes) (ds : List Desc) (vs : List Ver) (enc : Encoder) : Type 0 where
  pub info : Info.Info p ds enc
  pub ver_valid : Append.IsValid enc.v_ver
  pub ver_size : enc.v_ver.elem_size ≡ sizeof_ver
  pub ver_pos : enc.v_ver.pos ≡ sizeof_ver * length vs
  pub ver_contents : contents enc.v_ver ≡ vers_bytes vs
  pub same_length : length vs ≡ length ds
  pub counted : enc.dl_num ≡ length ds
  pub is_req : enc.msg_type ≡ 0

pub record Start (enc : Encoder) : Type 0 where
  pub fresh : IsFresh enc
  pub ver_valid : Append.IsValid enc.v_ver
  pub ver_size : enc.v_ver.elem_size ≡ sizeof_ver
  pub ver_pos : enc.v_ver.pos ≡ 0
  pub is_req : enc.msg_type ≡ 0

module _ ⦃heap : Allocator⦄ where
  pub init-Start : (enc : Encoder) → Returns Start (arb_msg_encoder_init enc 0)
  unfolding arb_msg_encoder_init vec_init
  init-Start enc =
      let (v, returns, valid, pos, _, _) = strvec_init-IsValid in
      rw returns (
        _,
        refl,
        record {
          fresh = record {
            dli_valid = vec_init-IsValid sizeof_dli;
            dli_size = refl;
            dli_pos = refl;
            str_valid = valid;
            str_pos = pos;
            no_pairs = refl;
          };
          ver_valid = vec_init-IsValid sizeof_ver;
          ver_size = refl;
          ver_pos = refl;
          is_req = refl;
        },
      )

  add-req_sel_ms :
      (enc : Encoder) (args : List Arg)
      → enc.msg_type ≡ 0
      → arb_msg_encoder_add enc args ≡ add_kind req_sel_ms enc args
  unfolding arb_msg_encoder_add
  add-req_sel_ms enc args h = ap (λ t. add_kind (kind t) enc args) h

  module _ (p : Bytes) (ds : List Desc) (vs : List Ver) (d : Desc) (v : Ver) (enc : Encoder)
      (is_req : enc.msg_type ≡ 0) (counted : enc.dl_num ≡ length ds)
      (same_length : length vs ≡ length ds) (few : length ds + 1 < 2 ^ 16)
      (ver_valid : Append.IsValid enc.v_ver) (ver_size : enc.v_ver.elem_size ≡ sizeof_ver)
      (ver_pos : enc.v_ver.pos ≡ sizeof_ver * length vs)
      (ver_contents : contents enc.v_ver ≡ vers_bytes vs) where
    add_ver :
        (e : Encoded p (ds ++ (d ∷ [])) enc (encode_dl_info enc d))
        → Append.Appends enc.v_ver
            (take enc.v_ver.elem_size (le sizeof_ver v))
            (vec_add enc.v_ver (le sizeof_ver v))
        → Returns
            (Ready p (ds ++ (d ∷ [])) (vs ++ (v ∷ [])))
            (arb_msg_encoder_add enc (desc d ∷ ver v ∷ []))
    unfolding add_kind
    add_ver e w =
        let elem : take enc.v_ver.elem_size (le sizeof_ver v) ≡ le sizeof_ver v =
          take_all enc.v_ver.elem_size (le sizeof_ver v) (omega (arith, length-le sizeof_ver v)) in
        rw (add-req_sel_ms enc (desc d ∷ ver v ∷ []) is_req, e.returns, e.same_ver, w.returns)
          (
            _,
            refl,
            record {
              info = again e.info;
              ver_valid = w.valid;
              ver_size = w.same_size ∙ ver_size;
              ver_pos = omega (arith, w.moved, length-append vs (v ∷ []));
              ver_contents =
                  w.appended
                  ∙ ap (λ c. contents enc.v_ver ++ c) elem
                  ∙ ap (λ c. c ++ le sizeof_ver v) ver_contents
                  ∙ sym (vers_bytes-snoc vs v);
              same_length = omega (arith, length-append vs (v ∷ []), length-append ds (d ∷ []));
              counted = omega (arith, e.same_num, length-append ds (d ∷ []));
              is_req = e.same_type ∙ is_req;
            },
          )
      where
        again :
            {f : Encoder} {n : ℕ} {w : Vec}
            → Info.Info p (ds ++ (d ∷ [])) f
            → Info.Info p (ds ++ (d ∷ [])) (record f { dl_num = n; v_ver = w })
        again i = record {
          dlis = i.dlis;
          dli_valid = i.dli_valid;
          dli_size = i.dli_size;
          dli_pos = i.dli_pos;
          dli_contents = i.dli_contents;
          str_valid = i.str_valid;
          str_pos = i.str_pos;
          later = i.later;
          ip = i.ip;
          stored = i.stored;
        }

    pub add_pair :
        Encoded p (ds ++ (d ∷ [])) enc (encode_dl_info enc d)
        → Returns
            (Ready p (ds ++ (d ∷ [])) (vs ++ (v ∷ [])))
            (arb_msg_encoder_add enc (desc d ∷ ver v ∷ []))
    add_pair e = add_ver e (
        vec_add-Appends enc.v_ver (le sizeof_ver v) ver_valid
          (omega (arith, length-le sizeof_ver v)) (omega arith))
