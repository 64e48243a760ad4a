-- ===== src/SimpleSock/Server.antt =====
-- Servers and clients of src/xutils/simple_sock.c: their descriptors, their sock_server_ctx_t and their
-- threads. What a call of the operating system answers is an argument; printing is left out, and so is the
-- peer's address. The handler of a server and a thread that is not modelled do not touch these descriptors.
pub mod Threads
use duallive.Base.{
  ℕ, ◌+◌, ◌-◌, List, [], ◌∷◌, Bool, true, false, not, if◌then◌else◌, Option, none, some,
}
use duallive.Base.Occurs.{delete}

pub record Process : Type 0 where
  -- the descriptors that are open
  pub opened : List ℕ
  -- how many sock_server_ctx_t of malloc were not freed
  pub contexts : ℕ
  -- the listen_sock of each thread in sock_server_routine
  pub listening : List ℕ
  -- the new_sock of each thread in handle_conn_routine
  pub handling : List ℕ
  -- what sock_connect_server returned
  pub connected : List ℕ

abbrev open_fd : ℕ → Process → Process
open_fd fd s = record s { opened = fd ∷ s.opened }

abbrev close_fd : ℕ → Process → Process
close_fd fd s = record s { opened = delete fd s.opened }

abbrev alloc_ctx : Process → Process
alloc_ctx s = record s { contexts = s.contexts + 1 }

abbrev free_ctx : Process → Process
free_ctx s = record s { contexts = s.contexts - 1 }

-- From its close on: the handler has returned, or it was not called.
unfoldable pub handle_conn_impl : ℕ → Process → Process
handle_conn_impl new_sock s = free_ctx (close_fd new_sock s)

-- The end of the thread.
unfoldable pub handle_conn_routine : ℕ → Process → Process
unfolding handle_conn_impl
handle_conn_routine new_sock s =
    handle_conn_impl new_sock (record s { handling = delete new_sock s.handling })

-- `created` is whether pthread_create returns 0.
unfoldable pub handle_conn : ℕ → Bool → Process → Process
unfolding handle_conn_impl
handle_conn new_sock created s =
    let s = alloc_ctx s in
    if created then record s { handling = new_sock ∷ s.handling } else handle_conn_impl new_sock s

-- A round of the loop of sock_server_routine, or the end of the loop: `conn` is what accept returns.
unfoldable pub server_round : ℕ → Option ℕ → Bool → Process → Process
unfolding handle_conn
server_round listen_sock none created s =
    free_ctx (record s { listening = delete listen_sock s.listening })
server_round listen_sock (some conn) created s = handle_conn conn created (open_fd conn s)

-- The descriptor of socket, and whether bind and pthread_create succeed.
unfoldable pub sock_start_server : Option ℕ → Bool → Bool → Process → Bool × Process
sock_start_server fd bound created s =
    let s = alloc_ctx s in
    elim fd [
      | none ↦ (false, free_ctx s)
      | some fd ↦
          let s = open_fd fd s in
          if not bound
          then (false, free_ctx (close_fd fd s))
          else if not created
          then (false, free_ctx (close_fd fd s))
          else (true, record s { listening = fd ∷ s.listening })
    ]

-- Whether the host is found, the descriptor of socket, and whether connect succeeds.
pub sock_connect_server : Bool → Option ℕ → Bool → Process → Option ℕ × Process
sock_connect_server found fd reached s = if not found then (none, s) else elim fd [
  | none ↦ (none, s)
  | some fd ↦
      let s = open_fd fd s in
      if reached
      then (some fd, record s { connected = fd ∷ s.connected })
      else (none, close_fd fd s)
]
