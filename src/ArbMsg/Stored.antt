-- ===== src/ArbMsg/Stored.antt =====
-- What it means that an arb_dli_t and a block of strings stand for a dl_desc_t.
use duallive.Base.{
  ℕ, ◌+◌, ◌^◌, ◌<◌, ◌≡◌, refl, ap, ◌∙◌, sym, subst, arith, List, [], ◌∷◌, ◌++◌, length, none, some,
  get_elem?, zero, suc, drop,
}
use duallive.Base.Memory.{Bytes, c_str, c_str_of_take, c_str-Split}
use duallive.Cvector.Text.{HoldsAt, HoldsAt-append}
use duallive.Duallive.{Desc, Ver}
use duallive.ArbMsg.{Dli, head_bytes}
use duallive.ArbMsg.Layout.{dlis_bytes, vers_bytes, InRange, IsU32, IsU64}

-- At offset `off`, other than 0, of `m` stands the string that `p` points to.
pub record Refers (m : Bytes) (off : ℕ) (p : Bytes) : Type 0 where
  pub str : Bytes
  pub is_str : c_str p ≡ some str
  pub holds : HoldsAt m off str
  pub positive : 0 < off

pub Refers-append :
    (m more : Bytes) (off : ℕ) (p : Bytes) → Refers m off p → Refers (m ++ more) off p
Refers-append m more off p r = record {
  str = r.str;
  is_str = r.is_str;
  holds = HoldsAt-append m more off r.str r.holds;
  positive = r.positive;
}

-- So a pointer there reads the same string.
pub Refers-c_str : (m : Bytes) (off : ℕ) (p : Bytes) → Refers m off p → c_str (drop off m) ≡ c_str p
Refers-c_str m off p r =
    c_str_of_take (drop off m) r.str (c_str-Split p r.str r.is_str).no_nul r.holds.1 ∙ sym r.is_str

-- A dl_desc_t whose members are in range and whose pointers point to strings.
pub record IsDesc (d : Desc) : Type 0 where
  pub uuid0 : IsU64 d.uuid.uuid0
  pub uuid1 : IsU64 d.uuid.uuid1
  pub local_hostid : IsU32 d.local_hostid
  pub remote_hostid : IsU32 d.remote_hostid
  pub arbitrary_port : IsU32 d.arbitrary_port
  pub local_dataset : (s : Bytes) × (c_str d.local_dataset ≡ some s)
  pub remote_dataset : (s : Bytes) × (c_str d.remote_dataset ≡ some s)

-- The space that a string takes.
abbrev pub space : Bytes → ℕ
space p = elim (c_str p) [ none ↦ 0 | some s ↦ length s + 1 ]

abbrev pub dataset_space : List Desc → ℕ
dataset_space [] = 0
dataset_space (d ∷ ds) = space d.local_dataset + space d.remote_dataset + dataset_space ds

pub dataset_space-append :
    (ds es : List Desc) → dataset_space (ds ++ es) ≡ dataset_space ds + dataset_space es
dataset_space-append [] es = omega arith
dataset_space-append (d ∷ ds) es = omega (arith, dataset_space-append ds es)

pub dataset_space-snoc :
    (ds : List Desc) (d : Desc)
    → dataset_space (ds ++ (d ∷ []))
      ≡ dataset_space ds + space d.local_dataset + space d.remote_dataset
dataset_space-snoc [] d = omega arith
dataset_space-snoc (c ∷ ds) d = omega (arith, dataset_space-snoc ds d)

-- The arb_dli_t stands for the dl_desc_t, with the address of the arbiter at `ip`.
pub record Stored (m : Bytes) (ip : ℕ) (d : Desc) (x : Dli) : Type 0 where
  pub uuid : x.uuid ≡ d.uuid
  pub local_hostid : x.local_hostid ≡ d.local_hostid
  pub remote_hostid : x.remote_hostid ≡ d.remote_hostid
  pub arbitrary_port : x.arbitrary_port ≡ d.arbitrary_port
  pub arbitrary_ip : x.arbitrary_ip ≡ ip
  pub local_dataset : Refers m x.local_dataset d.local_dataset
  pub remote_dataset : Refers m x.remote_dataset d.remote_dataset
  pub in_range : InRange x

pub Stored-append :
    (m more : Bytes) (ip : ℕ) (d : Desc) (x : Dli) → Stored m ip d x → Stored (m ++ more) ip d x
Stored-append m more ip d x s = record {
  uuid = s.uuid;
  local_hostid = s.local_hostid;
  remote_hostid = s.remote_hostid;
  arbitrary_port = s.arbitrary_port;
  arbitrary_ip = s.arbitrary_ip;
  local_dataset = Refers-append m more x.local_dataset d.local_dataset s.local_dataset;
  remote_dataset = Refers-append m more x.remote_dataset d.remote_dataset s.remote_dataset;
  in_range = s.in_range;
}

abbrev pub AllStored : Bytes → ℕ → List Desc → List Dli → Type 0
AllStored m ip [] [] = Unit {0}
AllStored m ip [] (x ∷ xs) = ⊥
AllStored m ip (d ∷ ds) [] = ⊥
AllStored m ip (d ∷ ds) (x ∷ xs) = Stored m ip d x × AllStored m ip ds xs

-- One more pair, with its strings behind the others.
pub AllStored-snoc :
    (m more : Bytes) (ip : ℕ) (ds : List Desc) (xs : List Dli) (d : Desc) (x : Dli)
    → AllStored m ip ds xs
    → Stored (m ++ more) ip d x
    → AllStored (m ++ more) ip (ds ++ (d ∷ [])) (xs ++ (x ∷ []))
AllStored-snoc m more ip [] [] d x all s = (s, tt)
AllStored-snoc m more ip [] (y ∷ xs) d x all s = absurd all
AllStored-snoc m more ip (c ∷ ds) [] d x all s = absurd all
AllStored-snoc m more ip (c ∷ ds) (y ∷ xs) d x all s =
    (Stored-append m more ip c y all.0, AllStored-snoc m more ip ds xs d x all.1 s)

pub AllStored-length :
    (m : Bytes) (ip : ℕ) (ds : List Desc) (xs : List Dli)
    → AllStored m ip ds xs
    → length xs ≡ length ds
AllStored-length m ip [] [] all = refl
AllStored-length m ip [] (x ∷ xs) all = absurd all
AllStored-length m ip (d ∷ ds) [] all = absurd all
AllStored-length m ip (d ∷ ds) (x ∷ xs) all = ap suc (AllStored-length m ip ds xs all.1)

-- The arb_dli_t of pair `i`.
pub AllStored-get :
    (m : Bytes) (ip : ℕ) (ds : List Desc) (xs : List Dli) (i : ℕ) {d : Desc}
    → AllStored m ip ds xs
    → get_elem? ds i ≡ some d
    → (x : Dli) × (get_elem? xs i ≡ some x) × Stored m ip d x
AllStored-get m ip [] xs i all e = absurd (ground arith)
AllStored-get m ip (d ∷ ds) [] i all e = absurd all
AllStored-get m ip (d ∷ ds) (x ∷ xs) zero {d = c} all e =
    let same : d ≡ c = ground arith in (x, refl, subst (λ y. Stored m ip y x) same all.0)
AllStored-get m ip (d ∷ ds) (x ∷ xs) (suc i) all e = AllStored-get m ip ds xs i all.1 e

-- A dl_desc_t that says the same as `d`, with the address of the arbiter that `p` points to.
pub record SameDesc (p : Bytes) (d d' : Desc) : Type 0 where
  pub uuid : d'.uuid ≡ d.uuid
  pub local_hostid : d'.local_hostid ≡ d.local_hostid
  pub remote_hostid : d'.remote_hostid ≡ d.remote_hostid
  pub arbitrary_port : d'.arbitrary_port ≡ d.arbitrary_port
  pub local_dataset : c_str d'.local_dataset ≡ c_str d.local_dataset
  pub remote_dataset : c_str d'.remote_dataset ≡ c_str d.remote_dataset
  pub arbitrary_ip : c_str d'.arbitrary_ip ≡ c_str p

-- The message is the request to select masters for the pairs `ds` with the versions `vs`: head,
-- pairs, versions and strings behind one another, and nothing else.
pub record IsRequest (p : Bytes) (ds : List Desc) (vs : List Ver) (msg : Bytes) : Type 0 where
  pub dlis : List Dli
  pub strs : Bytes
  pub ip : ℕ
  pub parts :
      msg ≡ head_bytes 0 (length ds) (length msg) ++ (dlis_bytes dlis ++ (vers_bytes vs ++ strs))
  pub short : length msg < 2 ^ 32
  pub refers : Refers strs ip p
  pub stored : AllStored strs ip ds dlis
