-- ===== src/Demo/Site.antt =====
-- arb_msg_sel_ms_on_single_site of src/duallive/demo.c.
use duallive.Base.{
  ℕ, zero, suc, ◌+◌, ◌^◌, ◌<◌, ◌≡◌, ◌≢◌, refl, sym, ap, subst, ◌∙◌, arith, List, [], ◌∷◌, ◌++◌,
  Bool, length, get_elem?, some, true, Outcome, ok, Returns, eq→==,
}
use duallive.Base.Memory.{Bytes, c_str, read_word}
use duallive.Kmem.{Allocator}
use duallive.Duallive.{Desc, Ver}
use duallive.ArbMsg.Layout.{IsU64, head_bytes_read, dlis_bytes, vers_bytes}
use duallive.ArbMsg.Stored.{SameDesc, IsRequest}
use duallive.ArbMsg.Encoder.{Encoder}
use duallive.ArbMsg.Encoder.Site.{descs, vers, AllDescs}
use duallive.ArbMsg.Encoder.Output.{request_length}
use duallive.ArbMsg.Decoder.{Decoder, desc_ver, head_msg_len, arb_msg_decoder_get}
use duallive.ArbMsg.RoundTrip.{
  Receives, request-Receives, sel_ms_message-IsRequest, get_descs, length-vers, length-descs,
}
use duallive.Demo.{dec_req_sel_ms, show_loop, show_message, arb_msg_sel_ms_on_single_site}

abbrev pub AllVers : List (Desc × Ver) → Type 0
AllVers [] = Unit {0}
AllVers ((d, v) ∷ items) = IsU64 v × AllVers items

-- The pairs that are shown are those of the list, with the address of the arbiter at `p`.
abbrev pub Shows : Bytes → List (Desc × Ver) → List (Desc × Ver) → Type 0
Shows p [] [] = Unit {0}
Shows p [] (out ∷ outs) = ⊥
Shows p (item ∷ items) [] = ⊥
Shows p ((d, v) ∷ items) ((d', v') ∷ outs) = SameDesc p d d' × (v' ≡ v) × Shows p items outs

AllVers-get :
    (items : List (Desc × Ver)) (i : ℕ) (d : Desc) (v : Ver)
    → AllVers items
    → get_elem? items i ≡ some (d, v)
    → IsU64 v
AllVers-get [] i d v all e = absurd (ground arith)
AllVers-get ((c, w) ∷ items) zero d v all e = let same : w ≡ v = cc in subst IsU64 same all.0
AllVers-get ((c, w) ∷ items) (suc i) d v all e = AllVers-get items i d v all.1 e

-- What is read at an index.
abbrev Reads : Decoder → Bytes → ℕ → Desc → Ver → Type 0
Reads dec p i d v = (d' : Desc) × (dec_req_sel_ms dec i ≡ ok (d', v)) × SameDesc p d d'

show_loop-Shows :
    (dec : Decoder) (p : Bytes) (items : List (Desc × Ver)) (i : ℕ)
    → ((j : ℕ) (d : Desc) (v : Ver) → get_elem? items j ≡ some (d, v) → Reads dec p (i + j) d v)
    → Returns (Shows p items) (show_loop dec (length items) i)
unfolding show_loop
show_loop-Shows dec p [] i reads = ([], refl, tt)
show_loop-Shows dec p ((d, v) ∷ items) i reads =
    let at_i : i + 0 ≡ i = omega arith in
    let (d', gets, same) = subst (λ n. Reads dec p n d v) (at_i) (reads 0 d v refl) in
    let (outs, shows, all) = show_loop-Shows dec p items (i + 1) (λ j c w e.
      let at_j : i + suc j ≡ i + 1 + j = omega arith in
      subst (λ n. Reads dec p n c w) (at_j) (reads (suc j) c w e)) in
    rw (gets, shows) ((d', v) ∷ outs, refl, (same, refl, all))

same_decoder :
    {a b : Decoder} {r : Outcome (Bool × Decoder)} → r ≡ ok (true, a) → r ≡ ok (true, b) → a ≡ b
same_decoder e f = cc

dec_req_sel_ms-gets :
    (dec : Decoder) (i : ℕ) (d : Desc) (v : Ver)
    → arb_msg_decoder_get dec i 2 ≡ ok (desc_ver d v)
    → dec_req_sel_ms dec i ≡ ok (d, v)
unfolding dec_req_sel_ms
dec_req_sel_ms-gets dec i d v e = rw (dec_req_sel_ms, e) refl

module _ (dec : Decoder) (p : Bytes) (d : Desc) (v : Ver) (items : List (Desc × Ver)) (msg : Bytes)
    (is : IsRequest p (d ∷ descs items) (v ∷ vers items) msg)
    (few : length (d ∷ descs items) < 2 ^ 16) (range : AllVers ((d, v) ∷ items)) where
  reads_at :
      (i : ℕ) (e : Desc) (w : Ver)
      → get_elem? ((d, v) ∷ items) i ≡ some (e, w)
      → Receives dec p (length (d ∷ descs items)) i e w msg
  reads_at i e w at =
      let (at_d, at_v) = get_descs ((d, v) ∷ items) i at in
      request-Receives dec p (d ∷ descs items) (v ∷ vers items) msg i e w is
        (length-vers ((d, v) ∷ items)) few at_d at_v (AllVers-get ((d, v) ∷ items) i e w range at)

  message_length : head_msg_len msg ≡ ok (length msg)
  message_length =
      ap (read_word 4 4) is.parts
      ∙ (head_bytes_read 0 (length (d ∷ descs items)) (length msg)
          (dlis_bytes is.dlis ++ (vers_bytes (v ∷ vers items) ++ is.strs)) (omega arith) few
          is.short).2

  show_message-Shows :
      Returns (Shows p ((d, v) ∷ items)) (show_message dec (length ((d, v) ∷ items)) msg)
  unfolding show_message
  show_message-Shows =
      let r = reads_at 0 d v refl in
      let count : length (d ∷ descs items) ≡ length ((d, v) ∷ items) =
        length-descs ((d, v) ∷ items) in
      let (outs, shows, all) = show_loop-Shows r.dec' p ((d, v) ∷ items) 0 (λ j e w at.
        let s = reads_at j e w at in
        let same = same_decoder s.accepts r.accepts in
        let at_j : j ≡ 0 + j = omega arith in
        subst (λ n. Reads r.dec' p n e w) (at_j)
          (
            s.d',
            dec_req_sel_ms-gets r.dec' j s.d' w
                (ap (λ c. arb_msg_decoder_get c j 2) (sym same) ∙ s.gets),
            s.same,
          )) in
      rw
        (
          show_message,
          message_length,
          r.accepts,
          r.counts ∙ ap ok count,
          eq→== (length ((d, v) ∷ items)) (length ((d, v) ∷ items)) refl,
        )
        (outs, shows, all)

-- On a list of pairs that is not empty arb_msg_sel_ms_on_single_site comes to its end without a fault
-- and without an ASSERT that fails, and what it shows is what it sent: the ids, strings and versions of
-- each pair, in order, each with the address of the arbiter that the first one names. The conditions:
-- the strings end in NUL and the numbers are in range, the first address is not the empty string, the
-- pairs are fewer than 2^16, and the message is shorter than 2^32 bytes.
pub single_site-Shows :
    ⦃heap : Allocator⦄
    → (enc : Encoder) (dec : Decoder) (d : Desc) (v : Ver) (items : List (Desc × Ver)) (s : Bytes)
    → c_str d.arbitrary_ip ≡ some s
    → s ≢ []
    → AllDescs ((d, v) ∷ items)
    → AllVers ((d, v) ∷ items)
    → request_length d.arbitrary_ip (d ∷ descs items) < 2 ^ 32
    → length (d ∷ descs items) < 2 ^ 16
    → Returns
        (Shows d.arbitrary_ip ((d, v) ∷ items))
        (arb_msg_sel_ms_on_single_site enc dec ((d, v) ∷ items))
unfolding arb_msg_sel_ms_on_single_site
single_site-Shows enc dec d v items s is_s some_byte is range short few =
    let (msg, sends, req) = sel_ms_message-IsRequest enc d v items s is_s some_byte is short few in
    rw (arb_msg_sel_ms_on_single_site, sends)
      (show_message-Shows dec d.arbitrary_ip d v items msg req few range)
