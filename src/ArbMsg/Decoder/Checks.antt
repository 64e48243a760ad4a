-- ===== src/ArbMsg/Decoder/Checks.antt =====
-- The checks of the decoder of src/duallive/arbitrary_msg.c, on any bytes.
use duallive.Base.{
  ℕ, zero, suc, ◌+◌, ◌*◌, ◌-◌, ◌≤◌, ◌<◌, ◌≡◌, refl, ap, ◌∙◌, sym, arith, ◌⊎◌, inl, inr, length,
  length-drop, take, drop, Bool, true, false, Bool-cases, Outcome, ok, ltb, leb, ltb→le, leb→lt,
  ==→eq, ◌==◌,
}
use duallive.Base.Memory.{Bytes, read_at-ok, read_word, read_word-ok, un_le}
use duallive.ArbMsg.{
  Dli, dli_of, dli_at, ver_at, sizeof_head, sizeof_dli, sizeof_ver, Kind, kind, req_sel_ms,
  rsp_sel_ms, req_rm_dli, rsp_rm_dli, unknown,
}
use duallive.ArbMsg.Decoder.{
  str_valid, check_dli_loop, check_dli_str, check_msg_req_sel_ms, check_msg_rsp_sel_ms,
  check_msg_req_rm_dli, check_kind, check_msg,
}

pub dli_at-ok :
    (m : Bytes) (i : ℕ)
    → sizeof_dli * i + sizeof_dli ≤ length m
    → dli_at m i ≡ ok (dli_of (take sizeof_dli (drop (sizeof_dli * i) m)))
unfolding dli_at
dli_at-ok m i h = rw (read_at-ok (sizeof_dli * i) sizeof_dli m h)

pub ver_at-ok :
    (m : Bytes) (i : ℕ)
    → sizeof_ver * i + sizeof_ver ≤ length m
    → ver_at m i ≡ ok (un_le sizeof_ver (take sizeof_ver (drop (sizeof_ver * i) m)))
unfolding ver_at
ver_at-ok m i h = rw (read_at-ok (sizeof_ver * i) sizeof_ver m h)

-- The strings of an arb_dli_t lie within `limit`, and none at offset 0.
pub record IsWithin (limit : ℕ) (x : Dli) : Type 0 where
  pub arbitrary_ip : (0 < x.arbitrary_ip) × (x.arbitrary_ip < limit)
  pub local_dataset : (0 < x.local_dataset) × (x.local_dataset < limit)
  pub remote_dataset : (0 < x.remote_dataset) × (x.remote_dataset < limit)

-- What a check comes to: an answer, and what a pass means.
abbrev pub Answers {ℓ} : Type ℓ → Outcome Bool → Type ℓ
Answers P r = (r ≡ ok false) ⊎ ((r ≡ ok true) × P)

-- Pairs `i` to `j` are in order.
abbrev pub AllWithin : Bytes → ℕ → ℕ → ℕ → Type 0
AllWithin dli limit i j =
    (k : ℕ) → i ≤ k → k < j → (x : Dli) × (dli_at dli k ≡ ok x) × IsWithin limit x

str_valid_means : (off limit : ℕ) → str_valid off limit ≡ true → (0 < off) × (off < limit)
unfolding str_valid
str_valid_means off limit h = ground arith

le_cases : (i k : ℕ) → i ≤ k → (i ≡ k) ⊎ (i + 1 ≤ k)
le_cases i k h = grind arith

module _ (dli : Bytes) (limit : ℕ) where
  more :
      (i j : ℕ) (x : Dli) {r : Outcome Bool}
      → dli_at dli i ≡ ok x
      → IsWithin limit x
      → Answers (AllWithin dli limit (i + 1) j) r
      → Answers (AllWithin dli limit i j) r
  more i j x at valid (inl e) = inl e
  more i j x at valid (inr (e, all)) = inr (
    e,
    λ k h l. elim (le_cases i k h) [
      | inl same ↦ rw (← same) (x, at, valid)
      | inr above ↦ all k above l
    ],
  )

  check_dli_loop-Answers :
      (left i j : ℕ)
      → i + left ≡ j
      → sizeof_dli * j ≤ length dli
      → Answers (AllWithin dli limit i j) (check_dli_loop dli limit left i)
  unfolding check_dli_loop
  check_dli_loop-Answers zero i j e room = inr (refl, λ k h l. absurd (omega arith))
  check_dli_loop-Answers (suc left) i j e room =
      let x = dli_of (take sizeof_dli (drop (sizeof_dli * i) dli)) in
      let at : dli_at dli i ≡ ok x = dli_at-ok dli i (omega arith) in
      elim (Bool-cases (str_valid x.arbitrary_ip limit)) [
        | inr bad ↦ rw (at, bad) (inl refl)
        | inl a ↦ elim (Bool-cases (str_valid x.local_dataset limit)) [
          | inr bad ↦ rw (at, a, bad) (inl refl)
          | inl b ↦ elim (Bool-cases (str_valid x.remote_dataset limit)) [
            | inr bad ↦ rw (at, a, b, bad) (inl refl)
            | inl c ↦
                rw (at, a, b, c)
                  (more i j x at
                    (record {
                      arbitrary_ip = str_valid_means x.arbitrary_ip limit a;
                      local_dataset = str_valid_means x.local_dataset limit b;
                      remote_dataset = str_valid_means x.remote_dataset limit c;
                    })
                    (check_dli_loop-Answers left (i + 1) j (omega arith) room))
          ]
        ]
      ]

-- What an accepted message of each type is like: `n` is its count.
abbrev pub IsSound : Kind → Bytes → ℕ → Type 0
IsSound req_sel_ms msg n =
    let size = sizeof_head + sizeof_dli * n + sizeof_ver * n in
    (size < length msg) × AllWithin (drop sizeof_head msg) (length msg - size) 0 n
IsSound rsp_sel_ms msg n = length msg ≡ sizeof_head + sizeof_ver * n
IsSound req_rm_dli msg n =
    let size = sizeof_head + sizeof_dli * n in
    (size < length msg) × AllWithin (drop sizeof_head msg) (length msg - size) 0 n
IsSound rsp_rm_dli msg n = length msg ≡ sizeof_head
IsSound unknown msg n = ⊥

module _ (msg : Bytes) (n : ℕ) (num : read_word 2 2 msg ≡ ok n)
    (len : read_word 4 4 msg ≡ ok (length msg)) (long : sizeof_head ≤ length msg) where
  check_strs :
      (size : ℕ)
      → sizeof_head + sizeof_dli * n ≤ size
      → size < length msg
      → Answers
          ((size < length msg) × AllWithin (drop sizeof_head msg) (length msg - size) 0 n)
          (check_dli_str (drop sizeof_head msg) n (length msg - size))
  unfolding check_dli_str
  check_strs size h l =
      elim (check_dli_loop-Answers (drop sizeof_head msg) (length msg - size) n 0 n (omega arith)
        (omega (arith, length-drop sizeof_head msg))) [
          | inl e ↦ inl e
          | inr (e, all) ↦ inr (e, (l, all))
        ]

  check_kind-Answers : (k : Kind) → Answers (IsSound k msg n) (check_kind k msg)
  unfolding check_kind check_msg_req_sel_ms check_msg_rsp_sel_ms check_msg_req_rm_dli
  check_kind-Answers req_sel_ms =
      let size = sizeof_head + sizeof_dli * n + sizeof_ver * n in
      elim (Bool-cases (leb (length msg) size)) [
        | inl short ↦ rw (num, len, short) (inl refl)
        | inr more ↦
            rw (num, len, more) (check_strs size (omega arith) (leb→lt (length msg) size more))
      ]
  check_kind-Answers rsp_sel_ms =
      let size = sizeof_head + sizeof_ver * n in
      elim (Bool-cases (length msg == size)) [
        | inl same ↦ rw (num, len, same) (inr (refl, ==→eq (length msg) size same))
        | inr differ ↦ rw (num, len, differ) (inl refl)
      ]
  check_kind-Answers req_rm_dli =
      let size = sizeof_head + sizeof_dli * n in
      elim (Bool-cases (leb (length msg) size)) [
        | inl short ↦ rw (num, len, short) (inl refl)
        | inr more ↦
            rw (num, len, more) (check_strs size (omega arith) (leb→lt (length msg) size more))
      ]
  check_kind-Answers rsp_rm_dli = elim (Bool-cases (length msg == sizeof_head)) [
    | inl same ↦ rw (len, same) (inr (refl, ==→eq (length msg) sizeof_head same))
    | inr differ ↦ rw (len, differ) (inl refl)
  ]
  check_kind-Answers unknown = inl refl

-- The members of the head, and what the check of the rest guarantees.
pub record Accepted (msg : Bytes) : Type 0 where
  pub t : ℕ
  pub n : ℕ
  pub is_type : read_word 0 2 msg ≡ ok t
  pub is_num : read_word 2 2 msg ≡ ok n
  pub sound : IsSound (kind t) msg n

-- check_msg reads nothing out of bounds and answers, on any bytes; what it accepts is sound.
pub check_msg-Answers : (msg : Bytes) → Answers (Accepted msg) (check_msg msg (length msg))
unfolding check_msg
check_msg-Answers msg = elim (Bool-cases (ltb (length msg) sizeof_head)) [
  | inl short ↦ rw short (inl refl)
  | inr long ↦
      let enough = ltb→le (length msg) sizeof_head long in
      let l = un_le 4 (take 4 (drop 4 msg)) in
      let is_len : read_word 4 4 msg ≡ ok l = read_word-ok 4 4 msg (omega arith) in
      let t = un_le 2 (take 2 msg) in
      let is_type : read_word 0 2 msg ≡ ok t = read_word-ok 0 2 msg (omega arith) in
      let n = un_le 2 (take 2 (drop 2 msg)) in
      let is_num : read_word 2 2 msg ≡ ok n = read_word-ok 2 2 msg (omega arith) in
      elim (Bool-cases (length msg == l)) [
        | inr differ ↦ rw (long, is_len, differ) (inl refl)
        | inl same ↦
            let whole : read_word 4 4 msg ≡ ok (length msg) =
              is_len ∙ ap ok (sym (==→eq (length msg) l same)) in
            rw (long, is_len, same, is_type)
              (elim (check_kind-Answers msg n is_num whole enough (kind t)) [
                | inl e ↦ inl e
                | inr (e, sound) ↦
                    inr (
                      e,
                      record { t = t; n = n; is_type = is_type; is_num = is_num; sound = sound },
                    )
              ])
      ]
]
