-- ===== src/Examples/TcpClient/Lambdas.antt =====
-- What the lambdas of the TCP client do to the shared state.
use Prim.Native.String.{String}
use unisock.Prelude.{
  ℕ, ◌≡◌, refl, ap, ◌∙◌, ℤ, Bool, true, Option, Returns, returns, Returns-mono, Returns-bind,
}
use unisock.Events.Tags.{
  Tag, basic, tcp, datagram, extended, receive, recv, listen, accept, disconnect, connect,
  tcp_closed,
}
use unisock.Events.Handler.{Ptr}
use unisock.Socket.System.{Bytes, System}
use unisock.Socket.Address.{IpText, get_ip}
use unisock.Socket.World.{
  socket_event, socket_error, socket_recv, connection_event, receive_event, error_event, World,
}
use unisock.Socket.World.Memory.{load-live}
use unisock.Tcp.Steady.{Moved-refl, Ends, Ends-bind, IsSteady}
use unisock.Tcp.Steady.Calls.{load-Ends}
use unisock.Tcp.Steady.Traffic.{send-Ends}
use unisock.Tcp.Invariant.{Inv, IsLive, IsUp, KeepsHooks, is_single}
use unisock.Tcp.Invariant.Kernel.{HasDescriptors}
use unisock.Tcp.Invariant.Keeps.{Reached, Frame-refl, Frame-trans}
use unisock.Tcp.Invariant.Connections.{send-Returns}
use unisock.Tcp.Invariant.Quiet.{IsQuiet, IsQuietOn, is_closing}
use unisock.Tcp.Invariant.Spares.{Spares}
use unisock.Examples.Running.{no_socket_hooks}
use unisock.Examples.Running.Returning.{emit-Settles, no_socket_hooks-KeepsHooks}
use unisock.Examples.TcpClient.{Printer, hello, on_connection, client_hooks}

module _ {K : Type 0} (sys : System K) (inet_ntop : ℕ → Bytes → ℕ → Option Bytes)
    (out : Printer K) where
  on_connection-Ends :
      (t : Tag) (p : Ptr) (w : World K) → Ends 0 w (on_connection sys inet_ntop out t p w)
  unfolding on_connection
  on_connection-Ends (tcp connect) p w = Ends-bind 0 0 w _ _ (load-Ends p w) λ c s.
      let k = out.print_connected (get_ip inet_ntop c.address) s.kernel in
      let u : World K = record s { kernel = k } in
      Ends-bind 0 0 u _ _
        (send-Ends sys no_socket_hooks (λ call v. Moved-refl 0 v.handler) p hello u)
        λ b v. Moved-refl 0 v.handler
  on_connection-Ends (tcp tcp_closed) p w =
      Ends-bind 0 0 w _ _ (load-Ends p w) λ c s. Moved-refl 0 s.handler
  on_connection-Ends (tcp disconnect) p w = Moved-refl 0 w.handler
  on_connection-Ends (tcp receive) p w = Moved-refl 0 w.handler
  on_connection-Ends (tcp recv) p w = Moved-refl 0 w.handler
  on_connection-Ends (tcp listen) p w = Moved-refl 0 w.handler
  on_connection-Ends (tcp accept) p w = Moved-refl 0 w.handler
  on_connection-Ends (basic t) p w = Moved-refl 0 w.handler
  on_connection-Ends (datagram t) p w = Moved-refl 0 w.handler
  on_connection-Ends (extended n) p w = Moved-refl 0 w.handler

  -- The lambdas register and deregister nothing.
  pub client_hooks-IsSteady : IsSteady (client_hooks sys inet_ntop out)
  unfolding client_hooks
  client_hooks-IsSteady (connection_event t n p) w = on_connection-Ends t p w
  client_hooks-IsSteady (receive_event n p message) w =
      Ends-bind 0 0 w _ _ (load-Ends p w) λ c s. Moved-refl 0 s.handler
  client_hooks-IsSteady (error_event n func err) w = Moved-refl 0 w.handler
  client_hooks-IsSteady (socket_event n) w = Moved-refl 0 w.handler
  client_hooks-IsSteady (socket_error n func err) w = Moved-refl 0 w.handler
  client_hooks-IsSteady (socket_recv n message) w = Moved-refl 0 w.handler

module _ {K : Type 0} (is_open : K → ℤ → Bool) where
  -- Output closes no descriptor.
  pub record IsPrinter (out : Printer K) : Type 0 where
    pub handler_keeps :
        (fd : ℤ) (k : K) → is_open k fd ≡ true → is_open (out.print_handler k) fd ≡ true
    pub connected_keeps :
        (ip : IpText) (fd : ℤ) (k : K)
        → is_open k fd ≡ true
        → is_open (out.print_connected ip k) fd ≡ true
    pub closed_keeps :
        (ip : IpText) (fd : ℤ) (k : K)
        → is_open k fd ≡ true
        → is_open (out.print_closed ip k) fd ≡ true
    pub received_keeps :
        (ip : IpText) (m : Bytes) (fd : ℤ) (k : K)
        → is_open k fd ≡ true
        → is_open (out.print_received ip m k) fd ≡ true
    pub failure_keeps :
        (func : String) (err fd : ℤ) (k : K)
        → is_open k fd ≡ true
        → is_open (out.print_failure func err k) fd ≡ true

  module _ (sys : System K) (desc : HasDescriptors is_open sys)
      (inet_ntop : ℕ → Bytes → ℕ → Option Bytes) (out : Printer K) (output : IsPrinter out) where
    on_connect-Returns :
        (p : Ptr) (w : World K)
        → Inv is_open w
        → IsUp w p
        → Returns (λ _. Reached is_open w) (on_connection sys inet_ntop out (tcp connect) p w)
    unfolding on_connection
    on_connect-Returns p w v (c, live, up) =
        let k = out.print_connected (get_ip inet_ntop c.address) w.kernel in
        let u : World K = record w { kernel = k } in
        let r = emit-Settles is_open w k (λ fd. output.connected_keeps _ fd w.kernel) v in
        rw (load-live p w live) (
          Returns-bind
            (send-Returns is_open sys desc no_socket_hooks (no_socket_hooks-KeepsHooks is_open) p
              hello u c live up r.0.0)
            λ _ t s. returns (s.0, Frame-trans is_open w u t r.0.1 s.1))

    closing-IsQuietOn :
        (t : Tag) (p : Ptr)
        → is_closing t ≡ true
        → IsQuietOn is_open p (on_connection sys inet_ntop out t p)
    unfolding on_connection
    closing-IsQuietOn (tcp tcp_closed) p closing w v (c, live) =
        rw (load-live p w live)
          (returns (emit-Settles is_open w _ (λ fd. output.closed_keeps _ fd w.kernel) v))
    closing-IsQuietOn (tcp disconnect) p closing w v live =
        returns ((v, Frame-refl is_open w), refl, refl)
    closing-IsQuietOn (tcp connect) p closing w v live = cc closing
    closing-IsQuietOn (tcp receive) p closing w v live = cc closing
    closing-IsQuietOn (tcp recv) p closing w v live = cc closing
    closing-IsQuietOn (tcp listen) p closing w v live = cc closing
    closing-IsQuietOn (tcp accept) p closing w v live = cc closing
    closing-IsQuietOn (basic t) p closing w v live = cc closing
    closing-IsQuietOn (datagram t) p closing w v live = cc closing
    closing-IsQuietOn (extended n) p closing w v live = cc closing

    error_event-IsQuiet :
        (n : ℕ) (func : String) (err : ℤ)
        → IsQuiet is_open (client_hooks sys inet_ntop out (error_event n func err))
    unfolding client_hooks
    error_event-IsQuiet n func err w v =
        returns (emit-Settles is_open w _ (λ fd. output.failure_keeps func err fd w.kernel) v)

    pub error_event-Spares :
        (n : ℕ) (func : String) (err : ℤ)
        → Spares is_open (client_hooks sys inet_ntop out (error_event n func err))
    error_event-Spares n func err w v =
        Returns-mono (error_event-IsQuiet n func err w v)
          λ _ t q. (q.0, λ p c live. (c, ap (λ h. h p) q.1 ∙ live))

    on_connection-Returns :
        (t : Tag) (p : Ptr) (w : World K)
        → Inv is_open w
        → IsLive w p
        → (is_single t ≡ true → IsUp w p)
        → Returns (λ _. Reached is_open w) (on_connection sys inet_ntop out t p w)
    unfolding on_connection
    on_connection-Returns (tcp connect) p w v live up = on_connect-Returns p w v (up refl)
    on_connection-Returns (tcp tcp_closed) p w v live up =
        Returns-mono (closing-IsQuietOn (tcp tcp_closed) p refl w v live) λ _ t q. q.0
    on_connection-Returns (tcp disconnect) p w v live up = returns (v, Frame-refl is_open w)
    on_connection-Returns (tcp receive) p w v live up = returns (v, Frame-refl is_open w)
    on_connection-Returns (tcp recv) p w v live up = returns (v, Frame-refl is_open w)
    on_connection-Returns (tcp listen) p w v live up = returns (v, Frame-refl is_open w)
    on_connection-Returns (tcp accept) p w v live up = returns (v, Frame-refl is_open w)
    on_connection-Returns (basic t) p w v live up = returns (v, Frame-refl is_open w)
    on_connection-Returns (datagram t) p w v live up = returns (v, Frame-refl is_open w)
    on_connection-Returns (extended n) p w v live up = returns (v, Frame-refl is_open w)

    pub client_hooks-KeepsHooks : KeepsHooks is_open (client_hooks sys inet_ntop out)
    unfolding client_hooks
    client_hooks-KeepsHooks (connection_event t n p) w v (live, up) =
        on_connection-Returns t p w v live up
    client_hooks-KeepsHooks (receive_event n p message) w v ((c, live, up), calm) =
        let q =
          emit-Settles is_open w (out.print_received (get_ip inet_ntop c.address) message w.kernel)
            (λ fd. output.received_keeps _ message fd w.kernel) v in
        rw (load-live p w live) (returns q.0)
    client_hooks-KeepsHooks (error_event n func err) w v callable =
        Returns-mono (error_event-IsQuiet n func err w v) λ _ t q. q.0
    client_hooks-KeepsHooks (socket_event n) w v callable = returns (v, Frame-refl is_open w)
    client_hooks-KeepsHooks (socket_error n func err) w v callable =
        returns (v, Frame-refl is_open w)
    client_hooks-KeepsHooks (socket_recv n message) w v callable = returns (v, Frame-refl is_open w)

    pub socket_event-IsQuiet :
        (n : ℕ) → IsQuiet is_open (client_hooks sys inet_ntop out (socket_event n))
    unfolding client_hooks
    socket_event-IsQuiet n w v = returns ((v, Frame-refl is_open w), refl, refl)

    pub connection_event-IsQuietOn :
        (t : Tag) (n : ℕ) (p : Ptr)
        → is_closing t ≡ true
        → IsQuietOn is_open p (client_hooks sys inet_ntop out (connection_event t n p))
    unfolding client_hooks
    connection_event-IsQuietOn t n p closing = closing-IsQuietOn t p closing
