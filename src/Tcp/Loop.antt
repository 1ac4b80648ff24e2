-- ===== src/Tcp/Loop.antt =====
-- The virtual members by which the event loop calls a socket object back, `on_readable` and
-- `on_writeable` of includes/socket/socket.hpp, with what the lambdas of the server and the client do, and
-- the loop of includes/events over the whole state.
pub mod Ending
use unisock.Prelude.{ℕ, ℤ, Bool, List, [], ◌∷◌, Cmd, ◌>>=◌, pure}
use unisock.Events.Action.{execute}
use unisock.Events.Handler.{Ptr, PollFd}
use unisock.Events.Poll.{Program, poll}
use unisock.Socket.System.{System}
use unisock.Socket.World.{
  ReadableFn, accept_on, recv_on, user_readable, WriteableFn, flush_on, user_writeable, UserCall,
  socket_event, World, load, length_of,
}
use unisock.Tcp.Connection.{recv, send_flush}
use unisock.Tcp.Server.{accept_from}

-- `::poll` writes the `revents` of each entry.
unfoldable pub write_revents : List PollFd → List ℕ → List PollFd
write_revents [] rs = []
write_revents (s ∷ ss) [] = s ∷ ss
write_revents (s ∷ ss) (r ∷ rs) = record s { revents = r } ∷ write_revents ss rs

module _ {K : Type 0} (sys : System K) (user : UserCall → Cmd (World K) (Unit {0})) where
  -- The lambdas of READABLE and of WRITEABLE.
  unfoldable pub run_readable : ReadableFn → Cmd (World K) (Unit {0})
  run_readable (accept_on p) = accept_from sys user p
  run_readable (recv_on p) = recv sys user p >>= λ _. pure tt
  run_readable (user_readable n) = user (socket_event n)

  unfoldable pub run_writeable : WriteableFn → Cmd (World K) (Unit {0})
  run_writeable (flush_on p) = send_flush sys user p
  run_writeable (user_writeable n) = user (socket_event n)

  -- `socket::on_readable` and `socket::on_writeable`
  unfoldable pub on_readable : Ptr → Cmd (World K) (Unit {0})
  unfolding run_readable
  on_readable p = do c ← load p; execute run_readable (length_of p (λ c. c.readable)) c.readable

  unfoldable pub on_writeable : Ptr → Cmd (World K) (Unit {0})
  unfolding run_writeable
  on_writeable p = do c ← load p; execute run_writeable (length_of p (λ c. c.writeable)) c.writeable

  unfoldable pub sys_poll : ℤ → World K → ℤ × World K
  unfolding write_revents
  sys_poll timeout w =
      let (n, revents, k) = sys.poll w.handler.sockets timeout w.kernel in
      (
        n,
        record w {
          kernel = k;
          handler = record (w.handler) { sockets = write_revents w.handler.sockets revents };
        },
      )

  -- The event loop of the program.
  abbrev pub program : Program (World K)
  program = record {
    handler = λ w. w.handler;
    sys_poll = sys_poll;
    on_readable = on_readable;
    on_writeable = on_writeable;
  }

  -- `events::poll(server, timeout)`
  unfoldable pub poll_once : ℤ → Cmd (World K) Bool
  poll_once = poll program
