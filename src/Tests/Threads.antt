-- ===== src/Tests/Threads.antt =====
-- A server of src/xutils/simple_sock.c with its threads.
use duallive.Base.{refl, arith, [], ◌∷◌, true, false, none, some}
use duallive.Base.Occurs.{occurs, delete}
use duallive.SimpleSock.Server.{
  Process, sock_start_server, server_round, handle_conn, handle_conn_impl, handle_conn_routine,
}
use duallive.SimpleSock.Server.Threads.{
  Reach, start, later, starts, accepts, finishes, Accounts, all_ended, Reach-Accounts,
}

-- The server thread with one connection, and with none.
abbrev busy : Process
busy = record {
  opened = 4 ∷ 3 ∷ [];
  contexts = 2;
  listening = 3 ∷ [];
  handling = 4 ∷ [];
  connected = [];
}

abbrev quiet : Process
quiet = record { opened = 3 ∷ []; contexts = 1; listening = 3 ∷ []; handling = []; connected = [] }

abbrev over : Process
over = record { opened = 3 ∷ []; contexts = 0; listening = []; handling = []; connected = [] }

-- A server that accepts two connections, for the second of which there is no thread, and then no more.
all_over : Reach over
unfolding occurs delete sock_start_server server_round handle_conn handle_conn_impl
    handle_conn_routine
all_over =
    let r1 : Reach quiet = later start (starts (some 3) true true refl) in
    let r2 : Reach busy = later r1 (accepts 3 (some 4) true (omega arith) refl) in
    let r3 : Reach busy = later r2 (accepts 3 (some 5) false (omega arith) refl) in
    let r4 : Reach quiet = later r3 (finishes 4 (omega arith)) in
    later r4 (accepts 3 none true (omega arith) tt)

Reach-Accounts_example : Accounts (all_ended all_over) over
Reach-Accounts_example = Reach-Accounts all_over
