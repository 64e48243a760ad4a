-- ===== src/SimpleSock/Server/Threads.antt =====
-- The threads of src/xutils/simple_sock.c, in any order.
use duallive.Base.{
  ℕ, ◌+◌, ◌-◌, ◌≤◌, ◌<◌, ◌≡◌, refl, ap, ◌∙◌, arith, inl, inr, List, [], ◌∷◌, length, Bool, true,
  false, ◌==◌, ==→eq, Bool-cases, Option, none, some,
}
use duallive.Base.Occurs.{occurs, delete, occurs-delete, length-delete}
use duallive.SimpleSock.Server.{
  Process, handle_conn_impl, handle_conn_routine, handle_conn, server_round, sock_start_server,
  sock_connect_server,
}

-- A descriptor that the operating system hands out is not open.
abbrev pub IsNew : Option ℕ → Process → Type 0
IsNew none s = Unit {0}
IsNew (some fd) s = occurs fd s.opened ≡ 0

-- One of the threads goes on, or sock_start_server or sock_connect_server is called.
pub data Step (s : Process) : Process → Type 0 where
  starts :
      (fd : Option ℕ) (bound created : Bool)
      → IsNew fd s
      → Step s (sock_start_server fd bound created s).1
  accepts :
      (listen_sock : ℕ) (conn : Option ℕ) (created : Bool)
      → 0 < occurs listen_sock s.listening
      → IsNew conn s
      → Step s (server_round listen_sock conn created s)
  finishes :
      (new_sock : ℕ) → 0 < occurs new_sock s.handling → Step s (handle_conn_routine new_sock s)
  connects :
      (found : Bool) (fd : Option ℕ) (reached : Bool)
      → IsNew fd s
      → Step s (sock_connect_server found fd reached s).1

abbrev pub idle : Process
idle = record { opened = []; contexts = 0; listening = []; handling = []; connected = [] }

pub data Reach : Process → Type 0 where
  start : Reach idle
  later : {s s' : Process} → Reach s → Step s s' → Reach s'

-- The listening sockets of the servers that have ended, which they do when accept fails.
abbrev pub ends : {s s' : Process} → Step s s' → List ℕ → List ℕ
ends (starts fd bound created new) ended = ended
ends (accepts l none created there new) ended = l ∷ ended
ends (accepts l (some conn) created there new) ended = ended
ends (finishes n there) ended = ended
ends (connects found fd reached new) ended = ended

abbrev pub all_ended : {s : Process} → Reach s → List ℕ
all_ended start = []
all_ended (later r step) = ends step (all_ended r)

-- Each descriptor that is open belongs to one thread, or to a caller of sock_connect_server, or it is
-- the listening socket of a server that has ended; and each thread has a sock_server_ctx_t.
pub record Accounts (ended : List ℕ) (s : Process) : Type 0 where
  pub owned :
      (fd : ℕ)
      → occurs fd s.opened
        ≡ occurs fd s.listening + occurs fd s.handling + occurs fd s.connected + occurs fd ended
  pub once : (fd : ℕ) → occurs fd s.opened ≤ 1
  pub contexts : s.contexts ≡ length s.listening + length s.handling

idle-Accounts : Accounts [] idle
unfolding occurs
idle-Accounts = record { owned = λ fd. refl; once = λ fd. omega arith; contexts = refl }

-- A descriptor that is opened and closed at once.
closed_again : (fd a : ℕ) (xs : List ℕ) → occurs a (delete fd (fd ∷ xs)) ≡ occurs a xs
unfolding occurs delete
closed_again fd a xs = ground arith

-- One that goes from a list to another.
moved :
    (fd a : ℕ) (xs ys : List ℕ)
    → 0 < occurs fd xs
    → occurs a (delete fd xs) + occurs a (fd ∷ ys) ≡ occurs a xs + occurs a ys
unfolding occurs
moved fd a xs ys there = elim (Bool-cases (fd == a)) [
  | inl same ↦
      let eq : occurs fd xs ≡ occurs a xs = ap (λ n. occurs n xs) (==→eq fd a same) in
      rw (occurs-delete fd a xs, same) (omega (arith, eq))
  | inr other ↦ rw (occurs-delete fd a xs, other) (omega arith)
]

-- A new one.
still_once : (fd a : ℕ) (xs : List ℕ) → occurs fd xs ≡ 0 → occurs a xs ≤ 1 → occurs a (fd ∷ xs) ≤ 1
unfolding occurs
still_once fd a xs new once = elim (Bool-cases (fd == a)) [
  | inl same ↦
      let eq : occurs fd xs ≡ occurs a xs = ap (λ n. occurs n xs) (==→eq fd a same) in
      rw same (omega (arith, eq))
  | inr other ↦ rw other once
]

-- A descriptor is opened and closed again, and a context allocated and freed.
unchanged-Accounts :
    (fd : ℕ) {ended : List ℕ} (s : Process)
    → Accounts ended s
    → Accounts ended
        (record s { opened = delete fd (fd ∷ s.opened); contexts = s.contexts + 1 - 1 })
unchanged-Accounts fd s a = record {
  owned = λ b. closed_again fd b s.opened ∙ a.owned b;
  once = λ b. omega (arith, closed_again fd b s.opened, a.once b);
  contexts = omega (arith, a.contexts);
}

starts-Accounts :
    (fd : Option ℕ) (bound created : Bool) {ended : List ℕ} (s : Process)
    → IsNew fd s
    → Accounts ended s
    → Accounts ended (sock_start_server fd bound created s).1
unfolding sock_start_server occurs
starts-Accounts none bound created s new a = record {
  owned = a.owned;
  once = a.once;
  contexts = omega (arith, a.contexts);
}
starts-Accounts (some fd) false created s new a = unchanged-Accounts fd s a
starts-Accounts (some fd) true false s new a = unchanged-Accounts fd s a
starts-Accounts (some fd) true true s new a = record {
  owned = λ b. ground (arith, a.owned b);
  once = λ b. still_once fd b s.opened new (a.once b);
  contexts = omega (arith, a.contexts);
}

abbrev ended_by : ℕ → Option ℕ → List ℕ → List ℕ
ended_by l none ended = l ∷ ended
ended_by l (some conn) ended = ended

accepts-Accounts :
    (listen_sock : ℕ) (conn : Option ℕ) (created : Bool) {ended : List ℕ} (s : Process)
    → 0 < occurs listen_sock s.listening
    → IsNew conn s
    → Accounts ended s
    → Accounts (ended_by listen_sock conn ended) (server_round listen_sock conn created s)
unfolding server_round handle_conn handle_conn_impl occurs
accepts-Accounts l none created {ended} s there new a = record {
  owned = λ b. omega (arith, a.owned b, moved l b s.listening ended there);
  once = a.once;
  contexts = omega (arith, a.contexts, length-delete l s.listening there);
}
accepts-Accounts l (some conn) false s there new a = unchanged-Accounts conn s a
accepts-Accounts l (some conn) true s there new a = record {
  owned = λ b. ground (arith, a.owned b);
  once = λ b. still_once conn b s.opened new (a.once b);
  contexts = omega (arith, a.contexts);
}

finishes-Accounts :
    (new_sock : ℕ) {ended : List ℕ} (s : Process)
    → 0 < occurs new_sock s.handling
    → Accounts ended s
    → Accounts ended (handle_conn_routine new_sock s)
unfolding handle_conn_routine handle_conn_impl occurs
finishes-Accounts n s there a = record {
  owned = λ b. omega (
    arith,
    a.owned b,
    moved n b s.handling [] there,
    moved n b s.opened [] (omega (arith, a.owned n)),
  );
  once = λ b. omega (arith, a.once b, moved n b s.opened [] (omega (arith, a.owned n)));
  contexts = omega (arith, a.contexts, length-delete n s.handling there);
}

connects-Accounts :
    (found : Bool) (fd : Option ℕ) (reached : Bool) {ended : List ℕ} (s : Process)
    → IsNew fd s
    → Accounts ended s
    → Accounts ended (sock_connect_server found fd reached s).1
unfolding sock_connect_server occurs
connects-Accounts false fd reached s new a = a
connects-Accounts true none reached s new a = a
connects-Accounts true (some fd) false s new a = record {
  owned = λ b. closed_again fd b s.opened ∙ a.owned b;
  once = λ b. omega (arith, closed_again fd b s.opened, a.once b);
  contexts = a.contexts;
}
connects-Accounts true (some fd) true s new a = record {
  owned = λ b. ground (arith, a.owned b);
  once = λ b. still_once fd b s.opened new (a.once b);
  contexts = a.contexts;
}

Step-Accounts :
    {s s' : Process} {ended : List ℕ} (step : Step s s')
    → Accounts ended s
    → Accounts (ends step ended) s'
Step-Accounts {s} (starts fd bound created new) a = starts-Accounts fd bound created s new a
Step-Accounts {s} (accepts l none created there new) a =
    accepts-Accounts l none created s there new a
Step-Accounts {s} (accepts l (some conn) created there new) a =
    accepts-Accounts l (some conn) created s there new a
Step-Accounts {s} (finishes n there) a = finishes-Accounts n s there a
Step-Accounts {s} (connects found fd reached new) a = connects-Accounts found fd reached s new a

-- In every order in which the threads of servers go on and sock_start_server and sock_connect_server are
-- called: each descriptor that is open belongs to one thread, to a caller of sock_connect_server, or is
-- the listening socket of a server that has ended, which nobody closes; none is open twice; and as many
-- sock_server_ctx_t are allocated as there are threads. So when no thread is left, no context is.
-- Condition: the operating system hands out descriptors that are not open.
pub Reach-Accounts : {s : Process} (r : Reach s) → Accounts (all_ended r) s
Reach-Accounts start = idle-Accounts
Reach-Accounts (later r step) = Step-Accounts step (Reach-Accounts r)
