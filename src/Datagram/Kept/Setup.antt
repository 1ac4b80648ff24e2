-- ===== src/Datagram/Kept/Setup.antt =====
-- Where a datagram socket stands after `open` and `bind`.
use unisock.Prelude.{
  ℕ, ◌≡◌, refl, ap, ℤ, negsuc, is_neg, is_pos, Bool, true, false, not, inl, inr, Bool-cases, ◌==ℤ◌,
  Cmd, pure, ◌>>=◌, ◌>>◌, if◌then◌else◌, and_then, ok, Returns, returns, Returns-bind, Returns-mono,
}
use unisock.Events.Handler.{add_socket}
use unisock.Socket.Address.{addrinfo, write_port, family}
use unisock.Socket.Address.Resolve.{lookup}
use unisock.Socket.Address.Answers.{AnswersFamily, addrinfo-family}
use unisock.Socket.System.{Bytes, System, af_inet, af_inet6, sock_dgram}
use unisock.Tcp.Server.{is_success, is_success-success}
use unisock.Datagram.Socket.{DatagramCall, addressed, Datagram, open_socket, report, run_action}
use unisock.Datagram.Udp.{open_udp, resolve_self, bind_resolved, bind_closed, bind_udp}
use unisock.Datagram.Udp.Bind.{assign_own_port-family}
use unisock.Datagram.Kept.{
  Kept-refl, Kept-to, Kept-trans, KeepsAt, IsTame, run_action-Kept, report-Kept, bind_socket-Kept,
}
use unisock.Datagram.Kept.Standing.{IsUnwatched, Stands, Kept-Stands}

module _ {K : Type 0} (sys : System K) (user : DatagramCall → Cmd (Datagram K) (Unit {0}))
    (home : ℤ) (tame : IsTame sys home user) where
  -- `open` of a socket without a descriptor gives it the one that `::socket` returns, with its entry, or
  -- none of both.
  pub open_socket-Stands :
      (domain type protocol : ℕ) (w : Datagram K)
      → let fd = (sys.socket domain type protocol w.kernel).0 in
        IsUnwatched w
        → fd ≡ home
        → (is_neg fd ≡ false → is_pos fd ≡ true)
        → Returns
            (λ opened t. Stands home (is_neg fd) t × (opened ≡ not (is_neg fd)))
            (open_socket sys user domain type protocol w)
  unfolding open_socket
  open_socket-Stands domain type protocol w s at_home positive =
      let r = sys.socket domain type protocol w.kernel in
      elim (Bool-cases (is_neg r.0)) [
        | inl failed ↦
            let w' : Datagram K = record w { kernel = r.1; sock = negsuc 0 } in
            let down : IsUnwatched w' = record {
              no_descriptor = refl;
              no_object = s.no_object;
              no_entry = s.no_entry;
            } in
            rw failed (
              Returns-bind (report-Kept sys user home tame "socket" w')
                λ _ t k. returns (Kept-Stands home true w' t k down, refl))
        | inr got ↦
            let u : Datagram K = record w {
              kernel = r.1;
              sock = r.0;
              handler = add_socket w.handler r.0 w.self;
            } in
            rw got (
              returns {s = u} (
                unfold add_socket in
                    record {
                      at_home = at_home;
                      positive = positive got;
                      one_object = rw s.no_object refl;
                      one_entry = rw s.no_entry refl;
                      one_row = rw (s.no_entry, s.no_object) refl;
                    },
                refl,
              ))
      ]

  -- The same of `open` of a udp socket.
  pub open_udp-Stands :
      (fam : ℕ) (w : Datagram K)
      → let fd = (sys.socket fam sock_dgram 0 w.kernel).0 in
        IsUnwatched w
        → fd ≡ home
        → (is_neg fd ≡ false → is_pos fd ≡ true)
        → Returns (λ _ t. Stands home (is_neg fd) t) (open_udp sys user fam w)
  unfolding open_udp
  open_udp-Stands fam w s at_home positive =
      let negative : is_neg w.sock ≡ true = ap is_neg s.no_descriptor in
      rw negative
        (Returns-mono (open_socket-Stands fam sock_dgram 0 w s at_home positive) λ _ t q. q.0)

  resolve_self-Kept :
      (hostname : Bytes) (fam : ℕ) (w : Datagram K) → KeepsAt w (resolve_self sys user hostname fam)
  resolve_self-Kept hostname fam w =
      let r = addrinfo sys w.address hostname fam w.kernel in returns (Kept-to w r.2 r.1)

  bound-Kept :
      (done : Bool) (w : Datagram K)
      → KeepsAt w (
          if not done then pure false else (λ v.
            and_then
              (run_action (λ n. user (addressed n v.address)) (λ s. s.bound) v)
              (λ _. ok true)))
  bound-Kept false w = returns (Kept-refl w)
  bound-Kept true w =
      Returns-bind
        (run_action-Kept (λ n. user (addressed n w.address)) (λ v. v.bound) w (λ k a ss. refl)
          λ t n k. tame t (addressed n w.address) tt)
        λ _ t k. returns k

  bind_resolved-Kept :
      (port : ℕ) (use_ipv6 : Bool) (w : Datagram K)
      → family w.address ≡ (if use_ipv6 then af_inet6 else af_inet)
      → KeepsAt w (bind_resolved sys user port use_ipv6)
  unfolding bind_resolved
  bind_resolved-Kept port use_ipv6 w asked =
      let w' : Datagram K = record w { address = write_port port w.address } in
      rw (assign_own_port-family sys user port use_ipv6 w asked) (
        Returns-bind (bind_socket-Kept sys user home tame w') λ done s k.
          Returns-mono (bound-Kept done s)
            λ _ t k'. Kept-trans w s t (Kept-trans w w' s (Kept-to w w.kernel w'.address) k.0) k')

  -- What `bind` does once it has called `open`.
  rest_of_bind-Kept :
      (hostname : Bytes) (port : ℕ) (use_ipv6 : Bool) (w : Datagram K)
      → ((j : K)
          → AnswersFamily
              (if use_ipv6 then af_inet6 else af_inet)
              (lookup sys hostname (if use_ipv6 then af_inet6 else af_inet) j).1)
      → KeepsAt w (do
        found ← resolve_self sys user hostname (if use_ipv6 then af_inet6 else af_inet)
        if not found
            then report sys user "addrinfo" >> pure false
            else bind_resolved sys user port use_ipv6)
  rest_of_bind-Kept hostname port use_ipv6 w answers =
      let fam = if use_ipv6 then af_inet6 else af_inet in
      let r = addrinfo sys w.address hostname fam w.kernel in
      let u : Datagram K = record w { address = r.1; kernel = r.2 } in
      elim (Bool-cases (is_success r.0)) [
        | inl found ↦ rw found (
            Returns-mono
              (bind_resolved-Kept port use_ipv6 u (
                addrinfo-family sys hostname fam w.address w.kernel answers
                  (is_success-success r.0 found)))
              λ _ t k. Kept-trans w u t (Kept-to w r.2 r.1) k)
        | inr failed ↦ rw failed (
            Returns-bind (report-Kept sys user home tame "addrinfo" u)
              λ _ t k. returns (Kept-trans w u t (Kept-to w r.2 r.1) k))
      ]

  -- Let the program's callbacks return, and leave the socket, its actions and the handler alone, let the
  -- descriptors of `::socket` be above 0, and let the resolver answer with the family that is asked for.
  -- Then `bind` of a udp socket without a descriptor returns, whatever fails: the socket has a descriptor
  -- with the one entry of the handler if `::socket` gave one, and neither if it did not.
  pub bind_udp-Stands :
      (hostname : Bytes) (port : ℕ) (use_ipv6 : Bool) (w : Datagram K)
      → let fam = if use_ipv6 then af_inet6 else af_inet in
        let fd = (sys.socket fam sock_dgram 0 w.kernel).0 in
        IsUnwatched w
        → fd ≡ home
        → (is_neg fd ≡ false → is_pos fd ≡ true)
        → ((j : K) → AnswersFamily fam (lookup sys hostname fam j).1)
        → Returns (λ _ t. Stands home (is_neg fd) t) (bind_udp sys user hostname port use_ipv6 w)
  unfolding bind_udp bind_closed
  bind_udp-Stands hostname port use_ipv6 w s at_home positive answers =
      let fam = if use_ipv6 then af_inet6 else af_inet in
      let fd = (sys.socket fam sock_dgram 0 w.kernel).0 in
      let none : (w.sock ==ℤ negsuc 0) ≡ true = ap (λ x. x ==ℤ negsuc 0) s.no_descriptor in
      rw none (
        Returns-bind (open_udp-Stands fam w s at_home positive) λ opened t q.
          Returns-mono (rest_of_bind-Kept hostname port use_ipv6 t answers)
            λ _ u k. Kept-Stands home (is_neg fd) t u k q)
