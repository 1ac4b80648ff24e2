-- ===== src/Datagram/Udp/Bind.antt =====
-- What `bind` of a udp socket leaves behind, whether it succeeds or not.
use Prim.Native.String.{String}
use unisock.Prelude.{
  ℕ, ◌≡◌, refl, pos, negsuc, is_neg, Bool, true, false, not, List, [], subst, sym, inl, inr,
  Bool-cases, ok, fault, assertion, Cmd, pure, and_then, Returns, returns, Returns-bind,
  Returns-mono, ap, ◌==ℤ◌, if◌then◌else◌,
}
use unisock.Events.Action.{ActionCallback}
use unisock.Events.Action.Execute.{execute_none}
use unisock.Events.Handler.{add_socket}
use unisock.Socket.Address.{
  sockaddr_in, sockaddr_in6, addrinfo, write_port, family, address_family_of, size,
}
use unisock.Socket.Address.Resolve.{lookup}
use unisock.Socket.Address.Answers.{AnswersFamily, addrinfo-family, set_port-family}
use unisock.Socket.System.{Bytes, System, af_inet, af_inet6, sock_dgram}
use unisock.Tcp.Server.{is_success, is_success-success}
use unisock.Datagram.Socket.{
  DatagramCall, Datagram, open_socket, bind_socket, report, run_action, failure, addressed,
}
use unisock.Datagram.Udp.{open_udp, assign_own_port, bind_resolved, bind_closed, bind_udp}

run_action-nil :
    {F K : Type 0} (run : F → Cmd (Datagram K) (Unit {0}))
    (action : Datagram K → List (ActionCallback F)) (t : Datagram K)
    → action t ≡ []
    → run_action run action t ≡ ok tt t
run_action-nil run action t e = rw e (execute_none run _ t)

module _ {K : Type 0} (sys : System K) (user : DatagramCall → Cmd (Datagram K) (Unit {0})) where
  pub assign_own_port-family :
      (port : ℕ) (use_ipv6 : Bool) (t : Datagram K)
      → family t.address ≡ (if use_ipv6 then af_inet6 else af_inet)
      → assign_own_port sys user (if use_ipv6 then sockaddr_in6 else sockaddr_in) port t
        ≡ ok tt (record t { address = write_port port t.address })
  unfolding address_family_of
  assign_own_port-family port true t asked =
      rw (assign_own_port, set_port-family sockaddr_in6 port t.address asked) refl
  assign_own_port-family port false t asked =
      rw (assign_own_port, set_port-family sockaddr_in port t.address asked) refl

module _ {K : Type 0} (w : Datagram K) (f : ℕ) where
  -- The socket has the descriptor, with its row, and no hooks of ERROR and BIND.
  pub record Opened (t : Datagram K) : Type 0 where
    pub has_descriptor : t.sock ≡ pos f
    pub no_error : t.error ≡ []
    pub no_bound : t.bound ≡ []
    pub registered : t.handler ≡ add_socket w.handler (pos f) w.self

  Opened-address :
      (t : Datagram K) (a : Bytes) (k : K)
      → Opened t
      → Opened (record t { address = a; kernel = k })
  Opened-address t a k o = record {
    has_descriptor = o.has_descriptor;
    no_error = o.no_error;
    no_bound = o.no_bound;
    registered = o.registered;
  }

  module _ (sys : System K) (user : DatagramCall → Cmd (Datagram K) (Unit {0})) where
    report-Opened :
        (function : String) (t : Datagram K)
        → Opened t
        → Returns (λ _. Opened) (report sys user function t)
    report-Opened function t o =
        subst (Returns (λ _. Opened))
          (sym (
            run_action-nil (λ n. user (failure n function (sys.errno t.kernel))) (λ v. v.error) t
              o.no_error))
          (returns o)

    bind_socket-Opened :
        (t : Datagram K) → Opened t → Returns (λ _. Opened) (bind_socket sys user t)
    unfolding bind_socket
    bind_socket-Opened t o =
        let r = sys.bind t.sock t.address (size t.address) t.kernel in
        let u : Datagram K = record t { kernel = r.1 } in
        let o' : Opened u = Opened-address t t.address r.1 o in
        elim (Bool-cases (is_neg r.0)) [
          | inl failed ↦ rw failed (Returns-bind (report-Opened "bind" u o') λ _ s x. returns x)
          | inr done ↦ rw done (returns o')
        ]

    after_bind-Opened :
        (done : Bool) (t : Datagram K)
        → Opened t
        → Returns
            (λ _. Opened)
            ((if not done then pure false else (λ v.
                and_then
                  (run_action (λ n. user (addressed n v.address)) (λ s. s.bound) v)
                  (λ _. ok true)))
              t)
    after_bind-Opened false t o = returns o
    after_bind-Opened true t o =
        Returns-bind {P = λ _. Opened}
          (subst (Returns (λ _. Opened))
            (sym (run_action-nil (λ n. user (addressed n t.address)) (λ v. v.bound) t o.no_bound))
            (returns o))
          λ _ s x. returns x

    bind_resolved-Opened :
        (port : ℕ) (use_ipv6 : Bool) (t : Datagram K)
        → family t.address ≡ (if use_ipv6 then af_inet6 else af_inet)
        → Opened t
        → Returns (λ _. Opened) (bind_resolved sys user port use_ipv6 t)
    unfolding bind_resolved
    bind_resolved-Opened port use_ipv6 t asked o =
        rw (assign_own_port-family sys user port use_ipv6 t asked) (
          Returns-bind
            (bind_socket-Opened (record t { address = write_port port t.address })
              (Opened-address t (write_port port t.address) t.kernel o))
            λ done u x. after_bind-Opened done u x)

    bind_closed-Opened :
        (hostname : Bytes) (port : ℕ) (use_ipv6 : Bool) (t : Datagram K)
        → open_udp sys user (if use_ipv6 then af_inet6 else af_inet) w ≡ ok true t
        → ((j : K)
            → AnswersFamily
                (if use_ipv6 then af_inet6 else af_inet)
                (lookup sys hostname (if use_ipv6 then af_inet6 else af_inet) j).1)
        → Opened t
        → Returns (λ _. Opened) (bind_closed sys user hostname port use_ipv6 w)
    unfolding bind_closed
    bind_closed-Opened hostname port use_ipv6 t opened answers o =
        let fam = if use_ipv6 then af_inet6 else af_inet in
        let r = addrinfo sys t.address hostname fam t.kernel in
        let u : Datagram K = record t { address = r.1; kernel = r.2 } in
        let o' : Opened u = Opened-address t r.1 r.2 o in
        rw opened (elim (Bool-cases (is_success r.0)) [
          | inl found ↦ rw found (
              bind_resolved-Opened port use_ipv6 u
                (addrinfo-family sys hostname fam t.address t.kernel answers
                  (is_success-success r.0 found))
                o')
          | inr failed ↦ rw failed (Returns-bind (report-Opened "addrinfo" u o') λ _ s x. returns x)
        ])

    open_udp-given :
        (fam : ℕ) (k : K)
        → w.sock ≡ negsuc 0
        → sys.socket fam sock_dgram 0 w.kernel ≡ (pos f, k)
        → open_udp sys user fam w
          ≡ ok true
              (record w { kernel = k; sock = pos f; handler = add_socket w.handler (pos f) w.self })
    unfolding open_udp open_socket
    open_udp-given fam k closed given = rw (closed, given) refl

    -- Take a socket with no descriptor and without hooks of ERROR and BIND, a kernel that gives it one, and
    -- a resolver that answers with the family that is asked for. Then `bind` returns, whether the name
    -- resolves and `::bind` succeeds. The socket has the descriptor and its row either way, so that
    -- each further `bind`, be it to try again, fails the assertion.
    pub bind_udp_again :
        (hostname again : Bytes) (port other : ℕ) (use_ipv6 then_ipv6 : Bool) (k : K)
        → w.sock ≡ negsuc 0
        → w.error ≡ []
        → w.bound ≡ []
        → sys.socket (if use_ipv6 then af_inet6 else af_inet) sock_dgram 0 w.kernel ≡ (pos f, k)
        → ((j : K)
            → AnswersFamily
                (if use_ipv6 then af_inet6 else af_inet)
                (lookup sys hostname (if use_ipv6 then af_inet6 else af_inet) j).1)
        → Returns
            (λ _ t.
              (t.sock ≡ pos f)
              × (t.handler ≡ add_socket w.handler (pos f) w.self)
              × (bind_udp sys user again other then_ipv6 t ≡ fault assertion))
            (bind_udp sys user hostname port use_ipv6 w)
    unfolding bind_udp
    bind_udp_again hostname again port other use_ipv6 then_ipv6 k closed no_error no_bound given
          answers =
        rw (ap (λ z. z ==ℤ negsuc 0) closed) (
          Returns-mono
            (bind_closed-Opened hostname port use_ipv6 _
              (open_udp-given (if use_ipv6 then af_inet6 else af_inet) k closed given) answers
              (record {
                has_descriptor = refl;
                no_error = no_error;
                no_bound = no_bound;
                registered = refl;
              }))
            λ _ t o.
              (o.has_descriptor, o.registered, rw (ap (λ z. z ==ℤ negsuc 0) o.has_descriptor) refl))
