-- ===== src/Tcp/Invariant/Listen.antt =====
-- `listen` of the server keeps the invariant, whatever the kernel and the resolver say.
use Prim.Native.String.{String}
use mathlib.Core.List.{Memᴰ}
use unisock.Prelude.{
  ◌≡◌, refl, ℕ, ℤ, Bool, true, false, Option, none, some, [], ◌∷◌, is_pos, if◌then◌else◌, inl, inr,
  Bool-cases, arith, not, and_then, ◌>>◌, pure, Cmd, Returns, returns, Returns-bind,
}
use unisock.Events.Action.{add_callback}
use unisock.Events.Tags
use unisock.Events.Tags.{Tag, tcp, basic, error, server_actions_list}
use unisock.Events.Handler.{Ptr}
use unisock.Socket.System.{Bytes, System, af_inet, af_inet6, sock_stream}
use unisock.Socket.Address.{empty_address, write_port, family}
use unisock.Socket.World.{
  listeners, accept_on, listener_closed, Connection, connection_event, error_event, UserCall, World,
}
use unisock.Socket.Object.{on_readable, new_connection}
use unisock.Tcp.Server.{
  server_error, resolve, fail_listen, start_listening, bind_and_listen, listen_on, listen,
}
use unisock.Tcp.Invariant.{Inv, KeepsHooks}
use unisock.Tcp.Invariant.Kernel.{HasDescriptors, HasSetup}
use unisock.Tcp.Invariant.Keeps.{Reached, Reached-then, is_pos-not_neg, Frame-trans}
use unisock.Tcp.Invariant.Hooks.{server_execute-Returns, server_execute_single-Returns}
use unisock.Tcp.Invariant.Spares.{Spares, server_error-Spares}
use unisock.Tcp.Invariant.Close.{close-Returns}
use unisock.Tcp.Invariant.Welcome.{store-Returns, IsModest-made}
use unisock.Tcp.Invariant.Setup
use unisock.Tcp.Invariant.Making.{Made, MakesIn, make_socket-Returns}
use unisock.Tcp.Invariant.Setup.{
  noticed, Ready, on_closed-Returns, resolve-Returns, assign_port-Returns, bind-Returns,
}

module _ {K : Type 0} (is_open : K → ℤ → Bool) (sys : System K) (desc : HasDescriptors is_open sys)
    (setup : HasSetup is_open sys) (user : UserCall → Cmd (World K) (Unit {0}))
    (hooks : KeepsHooks is_open user)
    (spares : (n : ℕ) (function : String) (err : ℤ)
      → Spares is_open (user (error_event n function err))) where
  module _ (w : World K) (p : Ptr) (fd : ℤ) (up : is_pos fd ≡ true) where
    abbrev IsReady : Bytes → World K → Type 0
    IsReady = Ready is_open sys setup user w p listeners fd up (listener_closed p)

    -- The end of a call that fails: the hooks of ERROR first, then the socket is closed.
    fail_listen-Returns :
        (function : String) (a : Bytes) (t : World K)
        → IsReady a t
        → Returns (λ _. Reached is_open w) (fail_listen sys user p function t)
    unfolding fail_listen
    fail_listen-Returns function a t s =
        Returns-bind
          (server_error-Spares is_open sys user spares function (sys.errno t.kernel) t s.0.0)
          λ _ u r.
            let (d, live) = r.1 p _ s.1 in
            Returns-bind (close-Returns is_open sys desc user hooks u p d live r.0.0) λ _ v q.
              returns (q.0, Frame-trans is_open w u v (Frame-trans is_open w t u s.0.1 r.0.1) q.1)

    start_listening-Returns :
        (a : Bytes) (t : World K)
        → IsReady a t
        → Returns (λ _. Reached is_open w) (start_listening sys user p t)
    unfolding start_listening on_readable add_callback new_connection
    start_listening-Returns a t s =
        let c = noticed listeners fd (listener_closed p) a in
        let c' : Connection = record c {
          readable = record { exec = accept_on p; flags = 0 } ∷ [];
        } in
        Returns-bind
          (Setup.listen-Returns is_open sys setup user w p listeners fd up (listener_closed p) a t
            s)
          λ listening u q. elim (Bool-cases listening) [
            | inr failed ↦ rw failed (fail_listen-Returns "listen" a u q)
            | inl done ↦ rw done (
                Returns-bind
                  (store-Returns is_open w p c
                    (λ d. record d { readable = add_callback (accept_on p) 0 d.readable }) u refl
                    refl (is_pos-not_neg fd up) (q.0.0.owned p c q.1)
                    (IsModest-made p c' (refl, tt) tt tt (omega arith) (omega arith) (omega arith)
                      (omega arith) up)
                    q)
                  λ _ v x.
                    Returns-bind
                      (server_execute_single-Returns is_open sys user hooks (tcp Tags.listen)
                        (λ n. connection_event (tcp Tags.listen) n p) v (Memᴰ.tail (Memᴰ.head refl))
                        refl x.0.0 (λ n. ((c', x.1), λ single. (c', x.1, is_pos-not_neg fd up))))
                      λ _ y z. returns (z.0, Frame-trans is_open w v y x.0.1 z.1))
          ]

    bind_and_listen-Returns :
        (port : ℕ) (use_ipv6 : Bool) (a : Bytes) (t : World K)
        → family a ≡ (if use_ipv6 then af_inet6 else af_inet)
        → IsReady a t
        → Returns (λ _. Reached is_open w) (bind_and_listen sys user p port use_ipv6 t)
    unfolding bind_and_listen
    bind_and_listen-Returns port use_ipv6 a t asked s =
        let f = listener_closed p in
        Returns-bind
          (assign_port-Returns is_open sys setup user w p listeners fd up f port use_ipv6 a t asked
            s)
          λ _ u q.
            Returns-bind
              (bind-Returns is_open sys setup user w p listeners fd up f (write_port port a) u q)
              λ bound v x. elim (Bool-cases bound) [
                | inr failed ↦ rw failed (fail_listen-Returns "bind" (write_port port a) v x)
                | inl done ↦ rw done (start_listening-Returns (write_port port a) v x)
              ]

    resolved_listen-Returns :
        (hostname : Bytes) (port : ℕ) (use_ipv6 : Bool) (a : Bytes) (t : World K)
        → IsReady a t
        → Returns
            (λ _. Reached is_open w)
            (and_then
              (resolve sys user p hostname (if use_ipv6 then af_inet6 else af_inet) t)
              (λ found.
                if not found
                then fail_listen sys user p "getaddrinfo"
                else bind_and_listen sys user p port use_ipv6))
    resolved_listen-Returns hostname port use_ipv6 a t s =
        Returns-bind
          (resolve-Returns is_open sys setup user w p listeners fd up (listener_closed p) hostname
            (if use_ipv6 then af_inet6 else af_inet) a t s)
          λ found u q. elim (Bool-cases found) [
            | inr failed ↦ rw failed (fail_listen-Returns "getaddrinfo" q.0 u q.1)
            | inl done ↦ rw done (bind_and_listen-Returns port use_ipv6 q.0 u (q.2 done) q.1)
          ]

  listen_on-Returns :
      (hostname : Bytes) (port : ℕ) (use_ipv6 : Bool) (w t : World K) (fd : ℤ) (p : Ptr)
      → Made is_open w listeners fd p t
      → Returns (λ _. Reached is_open w) (listen_on sys user p hostname port use_ipv6 t)
  unfolding listen_on
  listen_on-Returns hostname port use_ipv6 w t fd p m =
      Reached-then is_open w t (listen_on sys user p hostname port use_ipv6) m.reached (
        Returns-bind
          (on_closed-Returns is_open sys setup user w p listeners fd m.positive (listener_closed p)
            t refl refl m.entry m.reached m.object)
          λ _ u s.
            resolved_listen-Returns t p fd m.positive hostname port use_ipv6 empty_address u s)

  made_listen :
      (hostname : Bytes) (port : ℕ) (use_ipv6 : Bool) (w : World K) (made : Option Ptr)
      (t : World K)
      → MakesIn is_open w listeners made t
      → Returns
          (λ _. Reached is_open w)
          (elim made as (λ _. Cmd (World K) Bool) [
            | none ↦ server_error sys user "socket" >> pure false
            | some p ↦ listen_on sys user p hostname port use_ipv6
          ]
            t)
  made_listen hostname port use_ipv6 w none t q =
      Reached-then is_open w t (server_error sys user "socket" >> pure false) q (
        Returns-bind
          (server_execute-Returns is_open sys user hooks (basic error)
            (λ n. error_event n "socket" (sys.errno t.kernel)) t (Memᴰ.head refl) q.0 (λ s r n. tt))
          λ _ u r. returns r)
  made_listen hostname port use_ipv6 w (some p) t q =
      listen_on-Returns hostname port use_ipv6 w t q.0 p q.1

  -- Let the program's callbacks keep the invariant where the library calls them, and those of ERROR
  -- destroy no object; let the kernel deal in descriptors and the resolver in families as documented.
  -- Then `listen` returns and keeps the invariant, whether the host name resolves, and whichever of
  -- its system calls fail.
  pub listen-Returns :
      (hostname : Bytes) (port : ℕ) (use_ipv6 : Bool) (w : World K)
      → Inv is_open w
      → Returns (λ _. Reached is_open w) (listen sys user hostname port use_ipv6 w)
  unfolding listen
  listen-Returns hostname port use_ipv6 w v =
      Returns-bind
        (make_socket-Returns is_open sys setup user listeners
          (if use_ipv6 then af_inet6 else af_inet) sock_stream 0 w v)
        λ made t q. made_listen hostname port use_ipv6 w made t q
