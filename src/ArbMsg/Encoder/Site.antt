-- ===== src/ArbMsg/Encoder/Site.antt =====
-- A run of the encoder: the pairs of a request added one by one, as
-- arb_msg_sel_ms_on_single_site of src/duallive/demo.c does.
use duallive.Base.{
  Returns, Returns-bind, ℕ, ◌+◌, ◌^◌, ◌<◌, ◌≡◌, ◌≢◌, refl, arith, List, [], ◌∷◌, ◌++◌, append_assoc,
  append-nil, length, length-append, Option, some, Outcome, ok, ◌>>=◌,
}
use duallive.Base.Memory.{Bytes, c_str}
use duallive.Kmem.{Allocator}
use duallive.Duallive.{Desc, Ver}
use duallive.ArbMsg.Stored.{IsDesc, space, dataset_space, dataset_space-append}
use duallive.ArbMsg.Encoder.{
  Encoder, desc, ver, arb_msg_encoder_init, arb_msg_encoder_add, arb_msg_encoder_output,
}
use duallive.ArbMsg.Encoder.Pairs.{encode_first, encode_later}
use duallive.ArbMsg.Encoder.Requests.{Ready, Start, init-Start, add_pair}

module _ ⦃heap : Allocator⦄ where
  -- for (i = 0; i < dl_num; i++) ARB_ENC_REQ_SEL_MS(&encoder, &desc_arr[i], &dl_ver[i])
  unfoldable pub add_sel_ms : List (Desc × Ver) → Encoder → Outcome Encoder
  add_sel_ms [] enc = ok enc
  add_sel_ms ((d, v) ∷ items) enc = do
    enc ← arb_msg_encoder_add enc (desc d ∷ ver v ∷ [])
    add_sel_ms items enc

  -- The message of a request to select masters. `enc` is what the memory of the encoder holds before.
  unfoldable pub sel_ms_message : Encoder → List (Desc × Ver) → Outcome (Option Bytes)
  sel_ms_message enc items = do
    enc ← arb_msg_encoder_init enc 0
    enc ← add_sel_ms items enc
    arb_msg_encoder_output enc

abbrev pub descs : List (Desc × Ver) → List Desc
descs [] = []
descs ((d, v) ∷ items) = d ∷ descs items

abbrev pub vers : List (Desc × Ver) → List Ver
vers [] = []
vers ((d, v) ∷ items) = v ∷ vers items

abbrev pub AllDescs : List (Desc × Ver) → Type 0
AllDescs [] = Unit {0}
AllDescs ((d, v) ∷ items) = IsDesc d × AllDescs items

module _ ⦃heap : Allocator⦄ where
  add_one :
      (p : Bytes) (ds : List Desc) (vs : List Ver) (d : Desc) (v : Ver) (enc : Encoder)
      → Ready p ds vs enc
      → 0 < length ds
      → IsDesc d
      → 1 + space p + dataset_space (ds ++ (d ∷ [])) < 2 ^ 32
      → length ds + 1 < 2 ^ 16
      → Returns
          (Ready p (ds ++ (d ∷ [])) (vs ++ (v ∷ [])))
          (arb_msg_encoder_add enc (desc d ∷ ver v ∷ []))
  add_one p ds vs d v enc r some_pair is room few =
      add_pair p ds vs d v enc r.is_req r.counted r.same_length few r.ver_valid r.ver_size r.ver_pos
        r.ver_contents
        (encode_later enc d is p ds r.info (omega (arith, r.counted)) room (omega arith))

  add_first :
      (d : Desc) (v : Ver) (s : Bytes) (enc : Encoder)
      → Start enc
      → c_str d.arbitrary_ip ≡ some s
      → s ≢ []
      → IsDesc d
      → 1 + space d.arbitrary_ip + dataset_space (d ∷ []) < 2 ^ 32
      → Returns
          (Ready d.arbitrary_ip (d ∷ []) (v ∷ []))
          (arb_msg_encoder_add enc (desc d ∷ ver v ∷ []))
  add_first d v s enc start is_s some_byte is room =
      add_pair d.arbitrary_ip [] [] d v enc start.is_req start.fresh.no_pairs refl (omega arith)
        start.ver_valid start.ver_size (omega (arith, start.ver_pos)) (rw start.ver_pos)
        (encode_first enc d is s start.fresh is_s some_byte room)

  -- The room for the first of several pairs.
  room_first :
      (p : Bytes) (ds : List Desc) (d : Desc) (es : List Desc) (k : ℕ)
      → 1 + space p + dataset_space (ds ++ (d ∷ es)) < k
      → 1 + space p + dataset_space (ds ++ (d ∷ [])) < k
  room_first p ds d es k h =
      omega (arith, dataset_space-append ds (d ∷ es), dataset_space-append ds (d ∷ []))

  few_first :
      (ds : List Desc) (d : Desc) (es : List Desc) (k : ℕ)
      → length (ds ++ (d ∷ es)) < k
      → length ds + 1 < k
  few_first ds d es k h = omega (arith, length-append ds (d ∷ es))

  add_later :
      (p : Bytes) (ds : List Desc) (vs : List Ver) (items : List (Desc × Ver)) (enc : Encoder)
      → Ready p ds vs enc
      → 0 < length ds
      → AllDescs items
      → 1 + space p + dataset_space (ds ++ descs items) < 2 ^ 32
      → length (ds ++ descs items) < 2 ^ 16
      → Returns (Ready p (ds ++ descs items) (vs ++ vers items)) (add_sel_ms items enc)
  unfolding add_sel_ms
  add_later p ds vs [] enc r some_pair is room few =
      (enc, refl, rw (append-nil ds, append-nil vs) r)
  add_later p ds vs ((d, v) ∷ items) enc r some_pair is room few =
      let assoc_ds = append_assoc ds (d ∷ []) (descs items) in
      let assoc_vs = append_assoc vs (v ∷ []) (vers items) in
      Returns-bind _ (add_sel_ms items)
        (add_one p ds vs d v enc r some_pair is.0 (room_first p ds d (descs items) _ room)
          (few_first ds d (descs items) _ few))
        λ enc' r'.
          rw (assoc_ds, assoc_vs) at
            (add_later p (ds ++ (d ∷ [])) (vs ++ (v ∷ [])) items enc' r'
              (omega (arith, length-append ds (d ∷ []))) is.1 (rw assoc_ds room) (rw assoc_ds few))

  -- An encoder that is set up for a request to select masters takes every pair of a list that is not
  -- empty: the first address of an arbiter is not the empty string, and the strings take less than
  -- 2^32 bytes and the pairs are fewer than 2^16.
  pub add_sel_ms-Ready :
      (enc : Encoder) (d : Desc) (v : Ver) (items : List (Desc × Ver)) (s : Bytes)
      → c_str d.arbitrary_ip ≡ some s
      → s ≢ []
      → AllDescs ((d, v) ∷ items)
      → 1 + space d.arbitrary_ip + dataset_space (d ∷ descs items) < 2 ^ 32
      → length (d ∷ descs items) < 2 ^ 16
      → Returns
          (Ready d.arbitrary_ip (d ∷ descs items) (v ∷ vers items))
          (arb_msg_encoder_init enc 0 >>= add_sel_ms ((d, v) ∷ items))
  unfolding add_sel_ms
  add_sel_ms-Ready enc d v items s is_s some_byte is room few =
      Returns-bind _ _ (init-Start enc) λ enc0 start.
        Returns-bind _ (add_sel_ms items)
          (add_first d v s enc0 start is_s some_byte is.0
            (room_first d.arbitrary_ip [] d (descs items) _ room))
          λ enc1 r.
            add_later d.arbitrary_ip (d ∷ []) (v ∷ []) items enc1 r (omega arith) is.1 room few
