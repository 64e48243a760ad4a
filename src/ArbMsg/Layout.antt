-- ===== src/ArbMsg/Layout.antt =====
-- The layouts of arb_dli_t and dl_ver_t: what is written is read back.
use duallive.Base.{
  ℕ, ◌*◌, ◌^◌, ◌<◌, ◌≤◌, ◌≡◌, refl, ap, ◌∙◌, sym, arith, List, [], ◌∷◌, ◌++◌, map, length,
  length-append, take, drop, get_elem?, some, ok, append-nil,
}
use duallive.Base.Memory.{Bytes, read_word, read_word-ok, le, un_le, length-le, un_le-le, Fits}
use mathlib.Core.List.{map-append}
use duallive.Base.Blocks.{
  blocks, blocks-snoc, Sized, read-block, get_elem?-map, length-blocks, length-map,
}
use duallive.Duallive.{Ver}
use duallive.ArbMsg.{Dli, dli_bytes, dli_of, dli_at, ver_at, head_bytes, sizeof_dli, sizeof_ver}

abbrev pub IsU16 : ℕ → Type 0
IsU16 n = n < 2 ^ 16

abbrev pub IsU32 : ℕ → Type 0
IsU32 n = n < 2 ^ 32

abbrev pub IsU64 : ℕ → Type 0
IsU64 n = n < 2 ^ 64

fits2 : (n : ℕ) → IsU16 n → Fits 2 n
fits2 n h = omega arith

fits4 : (n : ℕ) → IsU32 n → Fits 4 n
fits4 n h = omega arith

fits8 : (n : ℕ) → IsU64 n → Fits 8 n
fits8 n h = omega arith

-- Each member is in the range of its type.
pub record InRange (d : Dli) : Type 0 where
  pub uuid0 : IsU64 d.uuid.uuid0
  pub uuid1 : IsU64 d.uuid.uuid1
  pub local_hostid : IsU32 d.local_hostid
  pub remote_hostid : IsU32 d.remote_hostid
  pub local_dataset : IsU32 d.local_dataset
  pub remote_dataset : IsU32 d.remote_dataset
  pub arbitrary_ip : IsU32 d.arbitrary_ip
  pub arbitrary_port : IsU32 d.arbitrary_port

pub length-dli_bytes : (d : Dli) → length (dli_bytes d) ≡ sizeof_dli
unfolding dli_bytes le
length-dli_bytes d = refl

-- An arb_dli_t read from the bytes of one is that one.
dli_of-dli_bytes : (d : Dli) → InRange d → dli_of (dli_bytes d) ≡ d
unfolding dli_of dli_bytes le
dli_of-dli_bytes d h =
    let bytes = dli_bytes d in
    let word = λ (n v : ℕ) (rest : Bytes) (fits : Fits n v). un_le-le n v rest fits in
    let u0 : un_le 8 bytes ≡ d.uuid.uuid0 = word 8 _ _ (fits8 _ h.uuid0) in
    let u1 : un_le 8 (drop 8 bytes) ≡ d.uuid.uuid1 = word 8 _ _ (fits8 _ h.uuid1) in
    let lh : un_le 4 (drop 16 bytes) ≡ d.local_hostid = word 4 _ _ (fits4 _ h.local_hostid) in
    let rh : un_le 4 (drop 20 bytes) ≡ d.remote_hostid = word 4 _ _ (fits4 _ h.remote_hostid) in
    let lds : un_le 4 (drop 24 bytes) ≡ d.local_dataset = word 4 _ _ (fits4 _ h.local_dataset) in
    let rds : un_le 4 (drop 28 bytes) ≡ d.remote_dataset = word 4 _ _ (fits4 _ h.remote_dataset) in
    let ip : un_le 4 (drop 32 bytes) ≡ d.arbitrary_ip = word 4 _ _ (fits4 _ h.arbitrary_ip) in
    let port : un_le 4 (drop 36 bytes) ≡ d.arbitrary_port =
      word 4 _ [] (fits4 _ h.arbitrary_port) in
    λ i. record {
      uuid = record { uuid0 = u0 i; uuid1 = u1 i };
      local_hostid = lh i;
      remote_hostid = rh i;
      local_dataset = lds i;
      remote_dataset = rds i;
      arbitrary_ip = ip i;
      arbitrary_port = port i;
    }

abbrev pub dlis_bytes : List Dli → Bytes
dlis_bytes ds = blocks (map dli_bytes ds)

abbrev pub vers_bytes : List Ver → Bytes
vers_bytes vs = blocks (map (le sizeof_ver) vs)

Sized-dlis : (ds : List Dli) → Sized sizeof_dli (map dli_bytes ds)
Sized-dlis [] = tt
Sized-dlis (d ∷ ds) = (length-dli_bytes d, Sized-dlis ds)

Sized-vers : (vs : List Ver) → Sized sizeof_ver (map (le sizeof_ver) vs)
Sized-vers [] = tt
Sized-vers (v ∷ vs) = (length-le sizeof_ver v, Sized-vers vs)

pub length-dlis_bytes : (ds : List Dli) → length (dlis_bytes ds) ≡ sizeof_dli * length ds
length-dlis_bytes ds =
    length-blocks sizeof_dli (map dli_bytes ds) (Sized-dlis ds)
    ∙ ap (λ n. sizeof_dli * n) (length-map dli_bytes ds)

pub length-vers_bytes : (vs : List Ver) → length (vers_bytes vs) ≡ sizeof_ver * length vs
length-vers_bytes vs =
    length-blocks sizeof_ver (map (le sizeof_ver) vs) (Sized-vers vs)
    ∙ ap (λ n. sizeof_ver * n) (length-map (le sizeof_ver) vs)

-- Element `i` of an array of arb_dli_t is read back, whatever follows the array.
pub dli_at-dlis_bytes :
    (ds : List Dli) (i : ℕ) (rest : Bytes) (d : Dli)
    → get_elem? ds i ≡ some d
    → InRange d
    → dli_at (dlis_bytes ds ++ rest) i ≡ ok d
unfolding dli_at
dli_at-dlis_bytes ds i rest d e h =
    rw
      (read-block sizeof_dli i (map dli_bytes ds) rest (Sized-dlis ds)
        (get_elem?-map dli_bytes ds i e))
      (ap ok (dli_of-dli_bytes d h))

pub ver_at-vers_bytes :
    (vs : List Ver) (i : ℕ) (rest : Bytes) (v : Ver)
    → get_elem? vs i ≡ some v
    → IsU64 v
    → ver_at (vers_bytes vs ++ rest) i ≡ ok v
unfolding ver_at
ver_at-vers_bytes vs i rest v e h =
    rw
      (read-block sizeof_ver i (map (le sizeof_ver) vs) rest (Sized-vers vs)
        (get_elem?-map (le sizeof_ver) vs i e))
      (ap ok (ap (un_le 8) (sym (append-nil (le 8 v))) ∙ un_le-le 8 v [] (fits8 v h)))

pub length-head_bytes : (t n l : ℕ) → length (head_bytes t n l) ≡ 8
unfolding head_bytes le
length-head_bytes t n l = refl

-- The members of an arb_msg_head_t are read back.
pub head_bytes_read :
    (t n l : ℕ) (rest : Bytes)
    → IsU16 t
    → IsU16 n
    → IsU32 l
    → (read_word 0 2 (head_bytes t n l ++ rest) ≡ ok t)
      × (read_word 2 2 (head_bytes t n l ++ rest) ≡ ok n)
      × (read_word 4 4 (head_bytes t n l ++ rest) ≡ ok l)
unfolding head_bytes le
head_bytes_read t n l rest ht hn hl =
    let m = head_bytes t n l ++ rest in
    let long : 8 ≤ length m =
      omega (arith, length-append (head_bytes t n l) rest, length-head_bytes t n l) in
    let word_t : un_le 2 (take 2 m) ≡ t = un_le-le 2 t [] (fits2 t ht) in
    let word_n : un_le 2 (take 2 (drop 2 m)) ≡ n = un_le-le 2 n [] (fits2 n hn) in
    let word_l : un_le 4 (take 4 (drop 4 m)) ≡ l = un_le-le 4 l [] (fits4 l hl) in
    (
      read_word-ok 0 2 m (omega arith) ∙ ap ok word_t,
      read_word-ok 2 2 m (omega arith) ∙ ap ok word_n,
      read_word-ok 4 4 m (omega arith) ∙ ap ok word_l,
    )

pub dlis_bytes-snoc :
    (ds : List Dli) (d : Dli) → dlis_bytes (ds ++ (d ∷ [])) ≡ dlis_bytes ds ++ dli_bytes d
dlis_bytes-snoc ds d =
    ap blocks (map-append dli_bytes ds (d ∷ [])) ∙ blocks-snoc (map dli_bytes ds) (dli_bytes d)

pub vers_bytes-snoc :
    (vs : List Ver) (v : Ver) → vers_bytes (vs ++ (v ∷ [])) ≡ vers_bytes vs ++ le sizeof_ver v
vers_bytes-snoc vs v =
    ap blocks (map-append (le sizeof_ver) vs (v ∷ []))
    ∙ blocks-snoc (map (le sizeof_ver) vs) (le sizeof_ver v)
