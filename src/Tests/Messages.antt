-- ===== src/Tests/Messages.antt =====
-- Vectors and messages at concrete inputs.
use duallive.Base.{◌++◌, ◌+◌, ◌^◌, ◌≡◌, refl, arith, [], ◌∷◌, some, ok, replicate}
use duallive.Base.Memory.{Bytes, c_str, le}
use duallive.Cvector.{StrVec, calc_expand_size, vec_init, vec_add, strvec_add}
use duallive.Cvector.Grow.{Grown, calc_expand_size-Grown}
use duallive.Cvector.Append.{Appends, vec_init-IsValid, vec_add-Appends}
use duallive.Cvector.Text.{Added}
use duallive.Cvector.Strings.{strvec_add-Added}
use duallive.ArbMsg.Stored.{IsDesc}
use duallive.ArbMsg.Encoder.Site.{sel_ms_message}
use duallive.ArbMsg.RoundTrip.{Receives, sel_ms_round_trip}
use duallive.ArbMsg.{head_bytes}
use duallive.ArbMsg.Decoder.Safety.{Used, decoder-Used}
use duallive.Base.Text.{codes, c_string}
use duallive.Tests.Data.{zeroed, desc_a1, desc_a2, raw_encoder, raw_decoder}

calc_expand_size-Grown_example : Grown 9000 (calc_expand_size 4096 4090 4910)
calc_expand_size-Grown_example =
    calc_expand_size-Grown 4096 4090 4910 (omega arith) (omega arith) (omega arith)

vec_add-Appends_example : Appends (vec_init 8) (le 8 77) (vec_add (vec_init 8) (le 8 77))
unfolding le vec_init
vec_add-Appends_example =
    vec_add-Appends (vec_init 8) (le 8 77) (vec_init-IsValid 8) (omega arith) (omega arith)

-- A vector of strings with 16 bytes, set up.
abbrev small_strvec : StrVec
small_strvec = record { str = replicate 16 0; size = 16; last_pos = 0; pos = 1 }

strvec_add-Added_example :
    Added small_strvec (codes "pool") (strvec_add small_strvec (c_string "pool"))
unfolding c_str
strvec_add-Added_example =
    strvec_add-Added small_strvec (c_string "pool") (codes "pool")
      (record {
        buffer = record { sized = refl; within = omega arith; nonempty = omega arith };
        last_within = omega arith;
        first_empty = refl;
      })
      refl (omega arith)

desc_a1-IsDesc : IsDesc desc_a1
unfolding c_str
desc_a1-IsDesc = record {
  uuid0 = omega arith;
  uuid1 = omega arith;
  local_hostid = omega arith;
  remote_hostid = omega arith;
  arbitrary_port = omega arith;
  local_dataset = (codes "poolA/lunA1", refl);
  remote_dataset = (codes "poolB/lunB1", refl);
}

desc_a2-IsDesc : IsDesc desc_a2
unfolding c_str
desc_a2-IsDesc = record {
  uuid0 = omega arith;
  uuid1 = omega arith;
  local_hostid = omega arith;
  remote_hostid = omega arith;
  arbitrary_port = omega arith;
  local_dataset = (codes "poolA/lunA2", refl);
  remote_dataset = (codes "poolB/lunB2", refl);
}

sel_ms_round_trip_example :
    (msg : Bytes) × (sel_ms_message raw_encoder ((desc_a1, 17) ∷ (desc_a2, 2 ^ 63 + 5) ∷ [])
      ≡ ok (some msg))
    × Receives raw_decoder (c_string "192.168.16.248") 2 1 desc_a2 (2 ^ 63 + 5) msg
unfolding c_str
sel_ms_round_trip_example =
    sel_ms_round_trip raw_encoder desc_a1 17 ((desc_a2, 2 ^ 63 + 5) ∷ []) (codes "192.168.16.248")
      refl (λ e. cc) (desc_a1-IsDesc, (desc_a2-IsDesc, tt)) (omega arith) (omega arith) raw_decoder
      1 desc_a2 (2 ^ 63 + 5) refl (omega arith)

-- An answer with two versions.
abbrev two_answers : Bytes
two_answers = head_bytes 1 2 24 ++ (le 8 5 ++ le 8 (2 ^ 61 + 6))

decoder-Used_example : Used raw_decoder two_answers 1
decoder-Used_example = decoder-Used raw_decoder two_answers 1
