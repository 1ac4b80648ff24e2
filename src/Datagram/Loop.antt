-- ===== src/Datagram/Loop.antt =====
-- includes/events, the loop over the state of a program with one datagram socket, and the loop of such a
-- program around `events::poll`.
use unisock.Prelude.{
  ℕ, zero, suc, ℤ, negsuc, Bool, true, false, if◌then◌else◌, ◌==◌, ok, fault, dangling, Cmd, ◌>>=◌,
  ◌>>◌, pure,
}
use unisock.Events.Handler.{Ptr}
use unisock.Events.Poll.{Program, poll}
use unisock.Socket.System.{System}
use unisock.Tcp.Loop.{write_revents}
use unisock.Datagram.Socket.{DatagramCall, Datagram, close_socket}
use unisock.Datagram.Udp.{on_readable, on_writeable}

module _ {K : Type 0} (sys : System K) where
  unfoldable pub sys_poll : ℤ → Datagram K → ℤ × Datagram K
  unfolding write_revents
  sys_poll timeout w =
      let (n, revents, k) = sys.poll w.handler.sockets timeout w.kernel in
      (
        n,
        record w {
          kernel = k;
          handler = record (w.handler) { sockets = write_revents w.handler.sockets revents };
        },
      )

  module _ (user : DatagramCall → Cmd (Datagram K) (Unit {0})) where
    -- A member of the object that an entry of the handler points to: there is one object.
    unfoldable pub at_self : Cmd (Datagram K) (Unit {0}) → Ptr → Cmd (Datagram K) (Unit {0})
    at_self member p w = if p == w.self then member w else fault dangling

    unfoldable pub program : Program (Datagram K)
    unfolding at_self
    program = record {
      handler = λ w. w.handler;
      sys_poll = sys_poll;
      on_readable = at_self (on_readable sys user);
      on_writeable = at_self (on_writeable sys user);
    }

    -- `events::poll(socket)`
    unfoldable pub poll_once : Cmd (Datagram K) Bool
    unfolding program
    poll_once = poll program (negsuc 0)

    -- `while (events::poll(socket)) body;` for at most so many turns, and whether it goes on after them.
    unfoldable pub serve : Cmd (Datagram K) (Unit {0}) → ℕ → Cmd (Datagram K) Bool
    serve body zero w = ok true w
    serve body (suc turns) w =
        let rest = serve body turns in
        (poll_once >>= λ more. if more then body >> rest else pure false) w

    -- The same, and `close` once the loop has ended.
    unfoldable pub serve_then_close : Cmd (Datagram K) (Unit {0}) → ℕ → Cmd (Datagram K) Bool
    unfolding serve
    serve_then_close body turns = do
      running ← serve body turns
      if running then pure true else (close_socket sys user >> pure false)
