-- ===== src/ArbMsg/Encoder/Info.antt =====
-- encode_dl_info of src/duallive/arbitrary_msg.c.
use duallive.Base.{
  ◌+◌, ◌*◌, ◌^◌, ◌≤◌, ◌<◌, ◌≡◌, refl, ap, ◌∙◌, sym, arith, List, [], ◌∷◌, ◌++◌, length,
  length-append, take, take_all, Outcome, ok,
}
use duallive.Base.Memory.{Bytes}
use duallive.Kmem.{Allocator}
use duallive.Duallive.{Desc}
use duallive.Cvector.{contents, text, vec_add}
use duallive.Cvector.Append
use duallive.Cvector.Append.{vec_add-Appends}
use duallive.Cvector.Text
use duallive.Cvector.Text.{Added}
use duallive.ArbMsg.{Dli, dli_bytes, sizeof_dli}
use duallive.ArbMsg.Layout.{dlis_bytes, length-dli_bytes, dlis_bytes-snoc}
use duallive.ArbMsg.Stored.{
  Refers, Refers-append, IsDesc, space, dataset_space, dataset_space-snoc, Stored, AllStored,
  AllStored-snoc,
}
use duallive.ArbMsg.Encoder.{Encoder, encode_dli}
use duallive.ArbMsg.Encoder.Texts.{TwoAdded, add_two, Refers-lt}

-- The encoder holds the pairs `ds`, with the address of the arbiter that `p` points to.
pub record Info (p : Bytes) (ds : List Desc) (enc : Encoder) : Type 0 where
  pub dlis : List Dli
  pub dli_valid : Append.IsValid enc.v_dli
  pub dli_size : enc.v_dli.elem_size ≡ sizeof_dli
  pub dli_pos : enc.v_dli.pos ≡ sizeof_dli * length ds
  pub dli_contents : contents enc.v_dli ≡ dlis_bytes dlis
  pub str_valid : Text.IsValid enc.v_str
  pub str_pos : enc.v_str.pos ≤ 1 + space p + dataset_space ds
  pub later : 0 < enc.v_str.last_pos
  pub ip : Refers (text enc.v_str) enc.arbitrary_ip p
  pub stored : AllStored (text enc.v_str) enc.arbitrary_ip ds dlis

pub record Encoded (p : Bytes) (ds : List Desc) (enc : Encoder) (r : Outcome Encoder) : Type 0 where
  pub enc' : Encoder
  pub returns : r ≡ ok enc'
  pub info : Info p ds enc'
  pub same_ver : enc'.v_ver ≡ enc.v_ver
  pub same_num : enc'.dl_num ≡ enc.dl_num
  pub same_type : enc'.msg_type ≡ enc.msg_type

module _ ⦃heap : Allocator⦄ (p : Bytes) (ds : List Desc) (enc : Encoder) (d : Desc)
    (info : Info p ds enc) (is : IsDesc d)
    (room : 1 + space p + dataset_space (ds ++ (d ∷ [])) < 2 ^ 32) (few : length ds < 2 ^ 16) where
  new_dli : TwoAdded enc.v_str d.local_dataset d.remote_dataset → Dli
  new_dli b = record {
    uuid = d.uuid;
    local_hostid = d.local_hostid;
    remote_hostid = d.remote_hostid;
    local_dataset = b.off_p;
    remote_dataset = b.off_q;
    arbitrary_ip = enc.arbitrary_ip;
    arbitrary_port = d.arbitrary_port;
  }

  new-Stored :
      (b : TwoAdded enc.v_str d.local_dataset d.remote_dataset)
      → Stored (text b.vec) enc.arbitrary_ip d (new_dli b)
  unfolding new_dli
  new-Stored b =
      let more = dataset_space-snoc ds d in
      record {
        uuid = refl;
        local_hostid = refl;
        remote_hostid = refl;
        arbitrary_port = refl;
        arbitrary_ip = refl;
        local_dataset = b.refers_p;
        remote_dataset = b.refers_q;
        in_range = record {
          uuid0 = is.uuid0;
          uuid1 = is.uuid1;
          local_hostid = is.local_hostid;
          remote_hostid = is.remote_hostid;
          local_dataset = omega (
            arith,
            Refers-lt b.vec b.off_p d.local_dataset b.valid b.refers_p,
            b.bounded,
            info.str_pos,
          );
          remote_dataset = omega (
            arith,
            Refers-lt b.vec b.off_q d.remote_dataset b.valid b.refers_q,
            b.bounded,
            info.str_pos,
          );
          arbitrary_ip =
              omega (
                arith,
                Refers-lt enc.v_str enc.arbitrary_ip p info.str_valid info.ip,
                info.str_pos,
              );
          arbitrary_port = is.arbitrary_port;
        };
      }

  encode_dli-finish :
      (b : TwoAdded enc.v_str d.local_dataset d.remote_dataset)
      → Append.Appends enc.v_dli
          (take enc.v_dli.elem_size (dli_bytes (new_dli b)))
          (vec_add enc.v_dli (dli_bytes (new_dli b)))
      → Encoded p (ds ++ (d ∷ [])) enc (encode_dli enc.arbitrary_ip enc d)
  unfolding encode_dli new_dli
  encode_dli-finish b v =
      let x = new_dli b in
      let elem : take enc.v_dli.elem_size (dli_bytes x) ≡ dli_bytes x =
        take_all enc.v_dli.elem_size (dli_bytes x)
          (omega (arith, length-dli_bytes x, info.dli_size)) in
      rw (b.returns_p, b.returns_q, v.returns)
        (record {
          enc' = record enc { v_dli = v.vec; v_str = b.vec };
          returns = refl;
          info = record {
            dlis = info.dlis ++ (x ∷ []);
            dli_valid = v.valid;
            dli_size = v.same_size ∙ info.dli_size;
            dli_pos =
                omega (arith, v.moved, info.dli_size, info.dli_pos, length-append ds (d ∷ []));
            dli_contents =
                v.appended
                ∙ ap (λ e. contents enc.v_dli ++ e) elem
                ∙ ap (λ c. c ++ dli_bytes x) info.dli_contents
                ∙ sym (dlis_bytes-snoc info.dlis x);
            str_valid = b.valid;
            str_pos = omega (arith, b.bounded, info.str_pos, dataset_space-snoc ds d);
            later = b.later;
            ip = rw b.extends (Refers-append (text enc.v_str) b.more enc.arbitrary_ip p info.ip);
            stored = rw b.extends (
                AllStored-snoc (text enc.v_str) b.more enc.arbitrary_ip ds info.dlis d x info.stored
                  (rw b.extends at (new-Stored b)));
          };
          same_ver = refl;
          same_num = refl;
          same_type = refl;
        })

  pub encode_dli-Encoded : Encoded p (ds ++ (d ∷ [])) enc (encode_dli enc.arbitrary_ip enc d)
  encode_dli-Encoded =
      let (s, is_s) = is.local_dataset in
      let (t, is_t) = is.remote_dataset in
      let b =
        add_two enc.v_str d.local_dataset d.remote_dataset s t is_s is_t info.str_valid info.later
          (omega (arith, info.str_pos, dataset_space-snoc ds d)) in
      let x = new_dli b in
      encode_dli-finish b (
        vec_add-Appends enc.v_dli (dli_bytes x) info.dli_valid
          (omega (arith, length-dli_bytes x, info.dli_size))
          (omega (arith, info.dli_pos, info.dli_size)))
