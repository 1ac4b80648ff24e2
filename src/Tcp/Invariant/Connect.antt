-- ===== src/Tcp/Invariant/Connect.antt =====
-- `connect` of the client keeps the invariant, whatever the kernel and the resolver say.
use Prim.Native.String.{String}
use mathlib.Core.List.{Memᴰ}
use unisock.Prelude.{
  ◌≡◌, refl, ℕ, ℤ, Bool, true, false, Option, none, some, [], ◌∷◌, is_pos, if◌then◌else◌, inl, inr,
  Bool-cases, arith, not, and_then, ◌>>◌, pure, Cmd, Returns, returns, Returns-bind,
}
use unisock.Events.Action.{add_callback}
use unisock.Events.Tags
use unisock.Events.Tags.{tcp, basic, error}
use unisock.Events.Handler.{Ptr}
use unisock.Socket.System.{Bytes, System, af_inet, af_inet6, sock_stream}
use unisock.Socket.Address.{empty_address, write_port, family}
use unisock.Socket.World.{
  connections, recv_on, connection_closed, client_receive, Connection, connection_event,
  error_event, UserCall, World,
}
use unisock.Socket.Object.{close, on_readable, on_recv, new_connection}
use unisock.Tcp.Server.{resolve}
use unisock.Tcp.Client.{client_error, start_receiving, connect_resolved, connect_on, connect}
use unisock.Tcp.Invariant.{Inv, Keeps, KeepsHooks}
use unisock.Tcp.Invariant.Kernel.{HasDescriptors, HasSetup}
use unisock.Tcp.Invariant.Keeps.{Reached, Reached-then, is_pos-not_neg, Frame-trans}
use unisock.Tcp.Invariant.Hooks.{client_execute-Returns, client_execute_single-Returns}
use unisock.Tcp.Invariant.Spares.{Spares, client_error-Spares}
use unisock.Tcp.Invariant.Close.{close-Returns}
use unisock.Tcp.Invariant.Welcome.{store-Returns, IsModest-made}
use unisock.Tcp.Invariant.Setup
use unisock.Tcp.Invariant.Making.{Made, MakesIn, make_socket-Returns}
use unisock.Tcp.Invariant.Setup.{
  noticed, Ready, on_closed-Returns, resolve-Returns, assign_port-Returns,
}

module _ {K : Type 0} (is_open : K → ℤ → Bool) (sys : System K) (desc : HasDescriptors is_open sys)
    (setup : HasSetup is_open sys) (user : UserCall → Cmd (World K) (Unit {0}))
    (hooks : KeepsHooks is_open user)
    (spares : (n : ℕ) (function : String) (err : ℤ)
      → Spares is_open (user (error_event n function err))) where
  client_error-Keeps : (function : String) → Keeps is_open (client_error sys user function)
  client_error-Keeps function w v =
      client_execute-Returns is_open sys user hooks (basic error)
        (λ n. error_event n function (sys.errno w.kernel)) w (Memᴰ.head refl) v (λ s r n. tt)

  module _ (w : World K) (p : Ptr) (fd : ℤ) (up : is_pos fd ≡ true) where
    abbrev IsReady : Bytes → World K → Type 0
    IsReady = Ready is_open sys setup user w p connections fd up (connection_closed p)

    start_receiving-Returns :
        (a : Bytes) (t : World K)
        → IsReady a t
        → Returns (λ _. Reached is_open w) (start_receiving sys user p t)
    unfolding start_receiving on_readable on_recv add_callback new_connection
    start_receiving-Returns a t s =
        let c = noticed connections fd (connection_closed p) a in
        let c' : Connection = record c { readable = record { exec = recv_on p; flags = 0 } ∷ [] } in
        let c'' : Connection = record c' {
          recv = record { exec = client_receive p; flags = 0 } ∷ [];
        } in
        Returns-bind
          (store-Returns is_open w p c
            (λ d. record d { readable = add_callback (recv_on p) 0 d.readable }) t refl refl
            (is_pos-not_neg fd up) (s.0.0.owned p c s.1)
            (IsModest-made p c' (refl, tt) tt tt (omega arith) (omega arith) (omega arith)
              (omega arith) up)
            s)
          λ _ u q.
            Returns-bind
              (store-Returns is_open w p c'
                (λ d. record d { recv = add_callback (client_receive p) 0 d.recv }) u refl refl
                (is_pos-not_neg fd up) (q.0.0.owned p c' q.1)
                (IsModest-made p c'' (refl, tt) tt (refl, tt) (omega arith) (omega arith)
                  (omega arith) (omega arith) up)
                q)
              λ _ v x.
                Returns-bind
                  (client_execute_single-Returns is_open sys user hooks (tcp Tags.connect)
                    (λ n. connection_event (tcp Tags.connect) n p) v (Memᴰ.tail (Memᴰ.head refl))
                    refl x.0.0 (λ n. ((c'', x.1), λ single. (c'', x.1, is_pos-not_neg fd up))))
                  λ _ y z. returns (z.0, Frame-trans is_open w v y x.0.1 z.1)

    -- The end of a `connect` that is refused: the socket is closed, then the hooks of ERROR run.
    refused-Returns :
        (a : Bytes) (t : World K)
        → IsReady a t
        → Returns
            (λ _. Reached is_open w)
            ((close sys user p >> (client_error sys user "listen" >> pure false)) t)
    refused-Returns a t s =
        Returns-bind (close-Returns is_open sys desc user hooks t p _ s.1 s.0.0) λ _ u q.
          Returns-bind (client_error-Keeps "listen" u q.0) λ _ v x.
            returns (x.0, Frame-trans is_open w u v (Frame-trans is_open w t u s.0.1 q.1) x.1)

    unresolved-Returns :
        (a : Bytes) (t : World K)
        → IsReady a t
        → Returns
            (λ _. Reached is_open w)
            ((client_error sys user "getaddrinfo" >> (close sys user p >> pure false)) t)
    unresolved-Returns a t s =
        Returns-bind
          (client_error-Spares is_open sys user spares "getaddrinfo" (sys.errno t.kernel) t s.0.0)
          λ _ u r.
            let (d, live) = r.1 p _ s.1 in
            Returns-bind (close-Returns is_open sys desc user hooks u p d live r.0.0) λ _ v q.
              returns (q.0, Frame-trans is_open w u v (Frame-trans is_open w t u s.0.1 r.0.1) q.1)

    connect_resolved-Returns :
        (port : ℕ) (use_ipv6 : Bool) (a : Bytes) (t : World K)
        → family a ≡ (if use_ipv6 then af_inet6 else af_inet)
        → IsReady a t
        → Returns (λ _. Reached is_open w) (connect_resolved sys user p port use_ipv6 t)
    unfolding connect_resolved
    connect_resolved-Returns port use_ipv6 a t asked s =
        let f = connection_closed p in
        Returns-bind
          (assign_port-Returns is_open sys setup user w p connections fd up f port use_ipv6 a t
            asked s)
          λ _ u q.
            Returns-bind
              (Setup.connect-Returns is_open sys setup user w p connections fd up f
                (write_port port a) u q)
              λ connected v x. elim (Bool-cases connected) [
                | inr failed ↦ rw failed (refused-Returns (write_port port a) v x)
                | inl done ↦ rw done (start_receiving-Returns (write_port port a) v x)
              ]

    resolved_connect-Returns :
        (hostname : Bytes) (port : ℕ) (use_ipv6 : Bool) (a : Bytes) (t : World K)
        → IsReady a t
        → Returns
            (λ _. Reached is_open w)
            (and_then
              (resolve sys user p hostname (if use_ipv6 then af_inet6 else af_inet) t)
              (λ found.
                if not found
                then client_error sys user "getaddrinfo" >> (close sys user p >> pure false)
                else connect_resolved sys user p port use_ipv6))
    resolved_connect-Returns hostname port use_ipv6 a t s =
        Returns-bind
          (resolve-Returns is_open sys setup user w p connections fd up (connection_closed p)
            hostname (if use_ipv6 then af_inet6 else af_inet) a t s)
          λ found u q. elim (Bool-cases found) [
            | inr failed ↦ rw failed (unresolved-Returns q.0 u q.1)
            | inl done ↦ rw done (connect_resolved-Returns port use_ipv6 q.0 u (q.2 done) q.1)
          ]

  connect_on-Returns :
      (hostname : Bytes) (port : ℕ) (use_ipv6 : Bool) (w t : World K) (fd : ℤ) (p : Ptr)
      → Made is_open w connections fd p t
      → Returns (λ _. Reached is_open w) (connect_on sys user p hostname port use_ipv6 t)
  unfolding connect_on
  connect_on-Returns hostname port use_ipv6 w t fd p m =
      Reached-then is_open w t (connect_on sys user p hostname port use_ipv6) m.reached (
        Returns-bind
          (on_closed-Returns is_open sys setup user w p connections fd m.positive
            (connection_closed p) t refl refl m.entry m.reached m.object)
          λ _ u s.
            resolved_connect-Returns t p fd m.positive hostname port use_ipv6 empty_address u s)

  made_connect :
      (hostname : Bytes) (port : ℕ) (use_ipv6 : Bool) (w : World K) (made : Option Ptr)
      (t : World K)
      → MakesIn is_open w connections made t
      → Returns
          (λ _. Reached is_open w)
          (elim made as (λ _. Cmd (World K) Bool) [
            | none ↦ client_error sys user "socket" >> pure false
            | some p ↦ connect_on sys user p hostname port use_ipv6
          ]
            t)
  made_connect hostname port use_ipv6 w none t q =
      Reached-then is_open w t (client_error sys user "socket" >> pure false) q
        (Returns-bind (client_error-Keeps "socket" t q.0) λ _ u r. returns r)
  made_connect hostname port use_ipv6 w (some p) t q =
      connect_on-Returns hostname port use_ipv6 w t q.0 p q.1

  -- Let the program's callbacks keep the invariant where the library calls them, and those of ERROR
  -- destroy no object; let the kernel deal in descriptors and the resolver in families as documented.
  -- Then `connect` returns and keeps the invariant, whether the host name resolves, and whichever of
  -- its system calls fail.
  pub connect-Returns :
      (hostname : Bytes) (port : ℕ) (use_ipv6 : Bool) (w : World K)
      → Inv is_open w
      → Returns (λ _. Reached is_open w) (connect sys user hostname port use_ipv6 w)
  unfolding connect
  connect-Returns hostname port use_ipv6 w v =
      Returns-bind
        (make_socket-Returns is_open sys setup user connections
          (if use_ipv6 then af_inet6 else af_inet) sock_stream 0 w v)
        λ made t q. made_connect hostname port use_ipv6 w made t q
