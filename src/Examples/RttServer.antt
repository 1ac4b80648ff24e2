-- ===== src/Examples/RttServer.antt =====
-- examples/tcp-rtt-speed-test/server.cpp: `main`, and the lambdas that it gives to the server. What it
-- writes is a parameter. Each connection to a client has data of the program, a count of bytes: they are
-- kept beside the state of the kernel, by the address of the object, which no later object gets.
pub mod Steady
pub mod Lambdas
pub mod Runs
pub mod Answers
use Prim.Native.String.{String}
use unisock.Prelude.{
  ℕ, zero, suc, ◌+◌, ◌%◌, ℤ, Bool, true, false, Option, List, [], ◌∷◌, ◌++◌, length, replicate, ltb,
  ◌==◌, if◌then◌else◌, Cmd, ◌>>=◌, ◌>>◌, pure,
}
use unisock.Events.ActionHandler.{ActionHandler, init_actions}
use unisock.Events.Handler.{Ptr}
use unisock.Events.Tags.{
  basic, error, tcp, listen, receive, accept, disconnect, server_actions_list,
}
use unisock.Socket.System.{Bytes, System}
use unisock.Socket.Address.{IpText, get_ip}
use unisock.Socket.World.{
  load, UserCall, socket_event, socket_error, socket_recv, connection_event, receive_event,
  error_event, World,
}
use unisock.Tcp.Connection.{send}
use unisock.Examples.Running.{emit, run_server, localhost, no_socket_hooks}
use unisock.Tcp.Requests.{Request, server_on, listen_at, started}

-- `MESSAGE_STR` of message.h, and its `sizeof`
unfoldable pub message_str : Bytes
message_str = replicate 65535 97 ++ 0 ∷ []

abbrev pub message_size : ℕ
message_size = 65536

-- The modulus of `size_t`
abbrev pub size_mod : ℕ
size_mod = 18446744073709551616

-- The kernel with `total_recv_bytes` of each connection.
abbrev pub Counted : Type 0 → Type 0
Counted K = K × (Ptr → ℕ)

abbrev pub lift {ℓ} : {A : Type ℓ} {K : Type 0} → (K → A × K) → Counted K → A × Counted K
lift f s = ((f s.0).0, ((f s.0).1, s.1))

abbrev pub lift₂ {ℓ κ} :
    {A : Type ℓ} {B : Type κ} {K : Type 0} → (K → A × B × K) → Counted K → A × B × Counted K
lift₂ f s = ((f s.0).0, (f s.0).1, ((f s.0).2, s.1))

-- The kernel knows nothing of the counts.
abbrev pub with_counts : {K : Type 0} → System K → System (Counted K)
with_counts sys = record {
  errno = λ s. sys.errno s.0;
  socket = λ domain type protocol. lift (sys.socket domain type protocol);
  close = λ fd s. (sys.close fd s.0, s.1);
  setsockopt = λ fd level name value. lift (sys.setsockopt fd level name value);
  getsockopt = λ fd level name n. lift₂ (sys.getsockopt fd level name n);
  bind = λ fd a n. lift (sys.bind fd a n);
  listen = λ fd n. lift (sys.listen fd n);
  connect = λ fd a n. lift (sys.connect fd a n);
  accept = λ fd. lift₂ (sys.accept fd);
  send = λ fd m. lift (sys.send fd m);
  sendto = λ fd m flags a n. lift (sys.sendto fd m flags a n);
  sendmsg = λ fd m flags. lift (sys.sendmsg fd m flags);
  recv = λ fd n. lift₂ (sys.recv fd n);
  recvmsg = λ fd n. lift₂ (sys.recvmsg fd n);
  recvfrom = λ fd n s. let r = sys.recvfrom fd n s.0 in (r.0, r.1, r.2, (r.3, s.1));
  poll = λ ss timeout. lift₂ (sys.poll ss timeout);
  getaddrinfo = λ host fam. lift₂ (sys.getaddrinfo host fam);
  getnameinfo = λ a n size. lift₂ (sys.getnameinfo a n size);
}

-- The output of the program.
pub record Screen (K : Type 0) : Type 0 where
  pub write : Bytes → K → K
  pub print_listening : IpText → ℤ → K → K
  pub print_too_many : ℕ → K → K
  pub print_missing : ℕ → K → K
  pub print_error : String → ℤ → K → K

module _ {K : Type 0} where
  abbrev pub show : (K → K) → Cmd (World (Counted K)) (Unit {0})
  show f = emit (λ s. (f s.0, s.1))

  -- `conn->data.total_recv_bytes += bytes`
  abbrev pub count_bytes : Ptr → ℕ → Counted K → Counted K
  count_bytes p bytes s = (s.0, λ q. if q == p then (s.1 p + bytes) % size_mod else s.1 q)

module _ {K : Type 0} (sys : System K) (inet_ntop : ℕ → Bytes → ℕ → Option Bytes)
    (out : Screen K) where
  -- The lambda of RECEIVE once the bytes are counted.
  unfoldable pub answer : Ptr → ℕ → Cmd (World (Counted K)) (Unit {0})
  answer p total =
      if ltb message_size total
      then show (out.print_too_many total)
      else if total == message_size
      then show (out.write (42 ∷ []))
        >> (send (with_counts sys) no_socket_hooks p message_str >>= λ _. pure tt)
      else pure tt

  unfoldable pub on_receive : Ptr → Bytes → Cmd (World (Counted K)) (Unit {0})
  unfolding answer
  on_receive p message = do
    show (out.write (114 ∷ []))
    conn ← load p
    emit (count_bytes p (length message))
    (λ w. answer p (w.kernel.1 p) w)

  unfoldable pub on_disconnect : Ptr → Cmd (World (Counted K)) (Unit {0})
  on_disconnect p = do
    conn ← load p
    (λ w.
        (if w.kernel.1 p == message_size
            then show (out.write (45 ∷ []))
            else show (out.print_missing (w.kernel.1 p)))
          w)

  -- The lambdas, by the numbers that `main` gives them.
  unfoldable pub rtt_hooks : UserCall → Cmd (World (Counted K)) (Unit {0})
  unfolding on_receive on_disconnect
  rtt_hooks (connection_event t zero p) = do
    conn ← load p
    show (out.print_listening (get_ip inet_ntop conn.address) conn.sock)
  rtt_hooks (connection_event t (suc zero) p) = pure tt
  rtt_hooks (connection_event t (suc (suc zero)) p) = show (out.write (43 ∷ []))
  rtt_hooks (connection_event t (suc (suc (suc n))) p) = on_disconnect p
  rtt_hooks (receive_event n p message) = on_receive p message
  rtt_hooks (error_event n func err) = show (out.print_error func err)
  rtt_hooks (socket_event n) = pure tt
  rtt_hooks (socket_error n func err) = pure tt
  rtt_hooks (socket_recv n message) = pure tt

-- The calls of `on` and of `listen`.
abbrev pub rtt_setup : List Request
rtt_setup =
    server_on (tcp listen) 0 0
    ∷ server_on (tcp receive) 1 0
    ∷ server_on (tcp accept) 2 0
    ∷ server_on (tcp disconnect) 3 0
    ∷ server_on (basic error) 4 0
    ∷ listen_at localhost 8000 false
    ∷ []

module _ {K : Type 0} (sys : System (Counted K))
    (user : UserCall → Cmd (World (Counted K)) (Unit {0})) where
  -- `main`, up to so many turns of its loop, and whether the loop goes on after them.
  unfoldable pub rtt_main : ℕ → Cmd (World (Counted K)) Bool
  unfolding run_server
  rtt_main turns = run_server sys user rtt_setup turns

-- The program's state when `main` has made the server: no connection has counted any byte.
abbrev pub rtt_begin : {K : Type 0} → K → ℕ → ActionHandler ℕ → World (Counted K)
rtt_begin k garbage client =
    started (k, λ p. 0) garbage (init_actions (server_actions_list [])) client
