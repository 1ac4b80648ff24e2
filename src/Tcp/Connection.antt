-- ===== src/Tcp/Connection.antt =====
-- includes/tcp/connection.hpp, `class connection_base`: sending with a queue of what is left, receiving,
-- and the calls that a server and a client make to listen and to connect.
pub mod Send
pub mod Flush
use Prim.Native.String.{String}
use unisock.Prelude.{
  ℕ, ℤ, pos, is_neg, to_size, Bool, true, false, Option, none, some, List, [], ◌∷◌, ◌++◌, length,
  take, drop, ltb, if◌then◌else◌, ◌==ℤ◌, Run, ok, fault, Cmd, and_then, ◌>>=◌, ◌>>◌, pure,
}
use unisock.Events.Action.{execute}
use unisock.Events.Tags.{tcp, receive}
use unisock.Events.Handler.{Ptr, socket_want_write}
use unisock.Socket.System.{Bytes, System}
use unisock.Socket.Address.{size}
use unisock.Socket.World.{
  RecvFn, server_receive, client_receive, user_recv, Connection, UserCall, socket_recv,
  receive_event, World, load, store, change, syscall, length_of,
}
use unisock.Socket.Object.{errno, server_execute, client_execute, execute_error, close}

-- `RECV_BUFFER_SIZE`
abbrev pub recv_buffer_size : ℕ
recv_buffer_size = 4096

module _ {K : Type 0} (sys : System K) (user : UserCall → Cmd (World K) (Unit {0})) where
  abbrev want_write : Ptr → Bool → Cmd (World K) (Unit {0})
  want_write p b = do
    c ← load p
    change (λ w. record w { handler = socket_want_write w.handler c.sock b })

  -- `execute<ERROR>(function, errno)`
  abbrev report_error : Ptr → String → Cmd (World K) (Unit {0})
  report_error p function = do err ← errno sys user; execute_error sys user p function err

  -- What `send` does with the result of `::send`.
  unfoldable pub after_send : Ptr → Bytes → ℤ → Cmd (World K) Bool
  after_send p message n_bytes =
      if is_neg n_bytes
      then report_error p "send" >> pure false
      else if ltb (to_size n_bytes) (length message)
      then store p
          (λ c. record c { send_buffer = c.send_buffer ++ drop (to_size n_bytes) message ∷ [] })
        >> want_write p true
        >> pure true
      else pure true

  -- `send`
  unfoldable pub send : Ptr → Bytes → Cmd (World K) Bool
  unfolding after_send
  send p message = do
    c ← load p
    n_bytes ← syscall (sys.send c.sock message)
    after_send p message n_bytes

  -- What `send_flush` does with the result of `::send`; the tail that it computes is not stored.
  unfoldable pub after_flush : Ptr → Bytes → List Bytes → ℤ → Cmd (World K) (Unit {0})
  after_flush p front rest n_bytes =
      if is_neg n_bytes
      then report_error p "send"
      else if ltb (to_size n_bytes) (length front)
      then pure tt
      else store p (λ c. record c { send_buffer = rest }) >> want_write p false

  unfoldable pub flush_queue : Ptr → ℤ → List Bytes → Cmd (World K) (Unit {0})
  unfolding after_flush
  flush_queue p sock [] = pure tt
  flush_queue p sock (front ∷ rest) = do
    n_bytes ← syscall (sys.send sock front)
    after_flush p front rest n_bytes

  -- `send_flush`
  unfoldable pub send_flush : Ptr → Cmd (World K) (Unit {0})
  unfolding flush_queue
  send_flush p = do c ← load p; flush_queue p c.sock c.send_buffer

  -- The lambdas of RECV.
  unfoldable pub run_recv : Bytes → RecvFn → Cmd (World K) (Unit {0})
  run_recv message (server_receive p) =
      server_execute sys user (tcp receive) (λ n. receive_event n p message)
  run_recv message (client_receive p) =
      client_execute sys user (tcp receive) (λ n. receive_event n p message)
  run_recv message (user_recv n) = user (socket_recv n message)

  -- `execute<connection_actions::RECV>(buffer, n_bytes)`
  unfoldable pub execute_recv : Ptr → Bytes → Cmd (World K) (Unit {0})
  unfolding run_recv
  execute_recv p message = do
    c ← load p
    execute (run_recv message) (length_of p (λ c. c.recv)) c.recv

  -- What `recv` does with the result of `::recv` and its buffer.
  unfoldable pub after_recv : Ptr → ℤ → Bytes → Cmd (World K) ℤ
  unfolding execute_recv
  after_recv p n_bytes buffer =
      if is_neg n_bytes
      then report_error p "recv" >> pure n_bytes
      else if n_bytes ==ℤ pos 0
      then close sys user p >> pure n_bytes
      else execute_recv p (take (to_size n_bytes) buffer) >> pure n_bytes

  -- `::recv` into a buffer of `RECV_BUFFER_SIZE` bytes
  abbrev pub sys_recv : ℤ → K → (ℤ × Bytes) × K
  sys_recv sock k =
      let (n_bytes, buffer, k') = sys.recv sock recv_buffer_size k in ((n_bytes, buffer), k')

  -- `recv`
  unfoldable pub recv : Ptr → Cmd (World K) ℤ
  unfolding after_recv
  recv p = do c ← load p; (n_bytes, buffer) ← syscall (sys_recv c.sock); after_recv p n_bytes buffer

  -- `listen`, with ten pending connections
  unfoldable pub listen : Ptr → Cmd (World K) Bool
  listen p = do
    c ← load p
    r ← syscall (sys.listen c.sock 10)
    pure (if is_neg r then false else true)

  -- `connect`
  unfoldable pub connect : Ptr → Cmd (World K) Bool
  connect p = do
    c ← load p
    r ← syscall (sys.connect c.sock c.address (size c.address))
    pure (if is_neg r then false else true)
