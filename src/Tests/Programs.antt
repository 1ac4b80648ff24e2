-- ===== src/Tests/Programs.antt =====
-- A program whose hooks use the connections that they get: one hook of RECEIVE sends the message back,
-- any other closes the connection.
use unisock.Prelude.{zero, suc, ℤ, Bool, Cmd, ok, ◌>>=◌, pure, returns, Returns-bind}
use unisock.Socket.System.{System}
use unisock.Socket.World.{
  UserCall, socket_event, socket_error, socket_recv, connection_event, receive_event, error_event,
  World,
}
use unisock.Socket.Object.{close}
use unisock.Tcp.Connection.{send}
use unisock.Tcp.Invariant.{KeepsHooks}
use unisock.Tcp.Invariant.Kernel.{HasDescriptors}
use unisock.Tcp.Invariant.Keeps.{Frame-refl}
use unisock.Tcp.Invariant.Close.{close-Returns}
use unisock.Tcp.Invariant.Connections.{send-Returns}
use unisock.Tests.Fixtures.{no_hooks}
use unisock.Tests.Served.{no_hooks-KeepsHooks}

module _ {K : Type 0} (sys : System K) where
  abbrev pub echo : UserCall → Cmd (World K) (Unit {0})
  echo (receive_event zero p message) w = (send sys no_hooks p message >>= λ _. pure tt) w
  echo (receive_event (suc n) p message) w = close sys no_hooks p w
  echo (socket_event n) w = ok tt w
  echo (socket_error n function err) w = ok tt w
  echo (socket_recv n message) w = ok tt w
  echo (connection_event t n p) w = ok tt w
  echo (error_event n function err) w = ok tt w

  pub echo-KeepsHooks :
      (is_open : K → ℤ → Bool) → HasDescriptors is_open sys → KeepsHooks is_open echo
  echo-KeepsHooks is_open desc (receive_event zero p message) w v ((c, live, up), calm) =
      Returns-bind
        (send-Returns is_open sys desc no_hooks (no_hooks-KeepsHooks is_open) p message w c live up
          v)
        λ _ t r. returns r
  echo-KeepsHooks is_open desc (receive_event (suc n) p message) w v ((c, live, up), calm) =
      close-Returns is_open sys desc no_hooks (no_hooks-KeepsHooks is_open) w p c live v
  echo-KeepsHooks is_open desc (socket_event n) w v callable = returns (v, Frame-refl is_open w)
  echo-KeepsHooks is_open desc (socket_error n function err) w v callable =
      returns (v, Frame-refl is_open w)
  echo-KeepsHooks is_open desc (socket_recv n message) w v callable =
      returns (v, Frame-refl is_open w)
  echo-KeepsHooks is_open desc (connection_event t n p) w v callable =
      returns (v, Frame-refl is_open w)
  echo-KeepsHooks is_open desc (error_event n function err) w v callable =
      returns (v, Frame-refl is_open w)
