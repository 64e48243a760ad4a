-- ===== src/ArbMsg/RoundTrip.antt =====
-- A request to select masters, encoded and decoded: src/duallive/arbitrary_msg.c, as
-- arb_msg_sel_ms_on_single_site of src/duallive/demo.c runs it.
use duallive.Base.{
  ℕ, zero, suc, ◌^◌, ◌<◌, ◌≡◌, ◌≢◌, refl, ap, sym, ◌∙◌, bind_assoc, arith, List, [], ◌∷◌, length,
  get_elem?, some, true, ok, ◌>>=◌,
}
use duallive.Base.Memory.{Bytes, c_str}
use duallive.Kmem.{Allocator}
use duallive.Duallive.{Desc, Ver}
use duallive.ArbMsg.Layout.{IsU64}
use duallive.ArbMsg.Stored.{IsRequest, SameDesc}
use duallive.ArbMsg.Encoder.{Encoder, arb_msg_encoder_init, arb_msg_encoder_output}
use duallive.ArbMsg.Encoder.Site.{
  add_sel_ms, sel_ms_message, add_sel_ms-Ready, descs, vers, AllDescs,
}
use duallive.ArbMsg.Encoder.Output.{request_length, encoder_output}
use duallive.ArbMsg.Decoder.{
  Decoder, arb_msg_decoder_init, arb_msg_decoder_get_dl_num, arb_msg_decoder_get, desc_ver,
}
use duallive.ArbMsg.Decoder.Requests.{decoder_init_pass, decoder_dl_num, decoder_get_pass, decoded}

-- What the receiver of a message gets as pair `i`: `d` and `v`, with the address of the arbiter at `p`.
pub record Receives (dec : Decoder) (p : Bytes) (n i : ℕ) (d : Desc) (v : Ver) (msg : Bytes)
    : Type 0 where
  pub dec' : Decoder
  pub accepts : arb_msg_decoder_init dec msg (length msg) ≡ ok (true, dec')
  pub counts : arb_msg_decoder_get_dl_num dec' ≡ ok n
  pub d' : Desc
  pub gets : arb_msg_decoder_get dec' i 2 ≡ ok (desc_ver d' v)
  pub same : SameDesc p d d'

pub request-Receives :
    (dec : Decoder) (p : Bytes) (ds : List Desc) (vs : List Ver) (msg : Bytes) (i : ℕ) (d : Desc)
    (v : Ver)
    → IsRequest p ds vs msg
    → length vs ≡ length ds
    → length ds < 2 ^ 16
    → get_elem? ds i ≡ some d
    → get_elem? vs i ≡ some v
    → IsU64 v
    → Receives dec p (length ds) i d v msg
request-Receives dec p ds vs msg i d v is same few at_d at_v range =
    let whole = ap length is.parts in
    let at =
      decoder_get_pass is.dlis vs is.strs is.ip p ds is.refers is.stored (length msg) is.short few
        whole same i d v at_d at_v range in
    record {
      dec' =
          decoded is.dlis vs is.strs is.ip p ds is.refers is.stored (length msg) is.short few whole
            same;
      accepts =
          ap (λ m. arb_msg_decoder_init dec m (length msg)) is.parts
          ∙ decoder_init_pass is.dlis vs is.strs is.ip p ds is.refers is.stored (length msg)
              is.short few whole same dec;
      counts =
          decoder_dl_num is.dlis vs is.strs is.ip p ds is.refers is.stored (length msg) is.short few
            whole same;
      d' = at.0;
      gets = at.1;
      same = at.2;
    }

pub get_descs :
    (items : List (Desc × Ver)) (i : ℕ) {d : Desc} {v : Ver}
    → get_elem? items i ≡ some (d, v)
    → (get_elem? (descs items) i ≡ some d) × (get_elem? (vers items) i ≡ some v)
get_descs [] i e = absurd (ground arith)
get_descs ((c, w) ∷ items) zero e = (ground arith, ground arith)
get_descs ((c, w) ∷ items) (suc i) e = get_descs items i e

pub length-vers : (items : List (Desc × Ver)) → length (vers items) ≡ length (descs items)
length-vers [] = refl
length-vers ((d, v) ∷ items) = ap suc (length-vers items)

pub length-descs : (items : List (Desc × Ver)) → length (descs items) ≡ length items
length-descs [] = refl
length-descs ((d, v) ∷ items) = ap suc (length-descs items)

module _ ⦃heap : Allocator⦄ (enc : Encoder) (d : Desc) (v : Ver) (items : List (Desc × Ver))
    (s : Bytes) (is_s : c_str d.arbitrary_ip ≡ some s) (some_byte : s ≢ [])
    (is : AllDescs ((d, v) ∷ items))
    (short : request_length d.arbitrary_ip (d ∷ descs items) < 2 ^ 32)
    (few : length (d ∷ descs items) < 2 ^ 16) where
  pub sel_ms_message-IsRequest :
      (msg : Bytes) × (sel_ms_message enc ((d, v) ∷ items) ≡ ok (some msg))
      × IsRequest d.arbitrary_ip (d ∷ descs items) (v ∷ vers items) msg
  unfolding sel_ms_message
  sel_ms_message-IsRequest =
      let (enc', adds, r) = add_sel_ms-Ready enc d v items s is_s some_byte is (omega arith) few in
      let (out, outputs, (msg, some_msg, req)) =
        encoder_output d.arbitrary_ip (d ∷ descs items) (v ∷ vers items) enc' r short
          (omega arith) in
      (
        msg,
        sym (
              bind_assoc (arb_msg_encoder_init enc 0) (add_sel_ms ((d, v) ∷ items))
                arb_msg_encoder_output)
            ∙ ap (λ m. m >>= arb_msg_encoder_output) adds
            ∙ outputs
            ∙ ap ok some_msg,
        req,
      )

  -- A list of pairs that is not empty is encoded as a request to select masters without a fault, and
  -- the message is accepted when it is decoded: the count is the number of pairs, and pair `i` is
  -- read back with its ids, port, strings and version, except that every pair has the address of the
  -- arbiter that the first one names. The conditions: the strings end in NUL and the numbers are in
  -- range, the first address is not the empty string, the pairs are fewer than 2^16, and the message
  -- is shorter than 2^32 bytes.
  pub sel_ms_round_trip :
      (dec : Decoder) (i : ℕ) (d_i : Desc) (v_i : Ver)
      → get_elem? ((d, v) ∷ items) i ≡ some (d_i, v_i)
      → IsU64 v_i
      → (msg : Bytes) × (sel_ms_message enc ((d, v) ∷ items) ≡ ok (some msg))
        × Receives dec d.arbitrary_ip (length ((d, v) ∷ items)) i d_i v_i msg
  sel_ms_round_trip dec i d_i v_i at range =
      let (msg, sends, req) = sel_ms_message-IsRequest in
      let (at_d, at_v) = get_descs ((d, v) ∷ items) i at in
      let count : length (d ∷ descs items) ≡ length ((d, v) ∷ items) =
        length-descs ((d, v) ∷ items) in
      (
        msg,
        sends,
        rw (← count) (
            request-Receives dec d.arbitrary_ip (d ∷ descs items) (v ∷ vers items) msg i d_i v_i req
              (length-vers ((d, v) ∷ items)) few at_d at_v range),
      )
