-- ===== src/Datagram/Udp.antt =====
-- includes/udp/socket.hpp: `class socket_impl`, a raw socket with actions of its own, and `udp::send_to`.
pub mod Relay
pub mod Once
pub mod Bind
use unisock.Prelude.{
  ℕ, ℤ, negsuc, is_neg, Bool, true, false, not, Option, none, some, List, if◌then◌else◌, ◌==ℤ◌, ok,
  fault, assertion, null_pointer, Run, Cmd, and_then, ◌>>=◌, ◌>>◌, pure,
}
use unisock.Events.Action.{add_callback}
use unisock.Events.Handler.{Ptr, Handler, new_handler}
use unisock.Socket.Address.{AddressType, sockaddr_in, sockaddr_in6, addrinfo, set_port, family}
use unisock.Socket.System.{Bytes, System, af_inet, af_inet6, sock_dgram}
use unisock.Tcp.Server.{is_success}
use unisock.Datagram.Socket.{
  ReadFn, recvfrom_self, user_read, pass_receive, pass_closed, DatagramCall, event, addressed,
  Datagram, call, run_action, report, open_socket, bind_socket, close_socket, new_socket,
}
use unisock.Datagram.Raw.{recvfrom, send_to}

module _ {K : Type 0} where
  -- `init_socket`
  unfoldable pub init_socket : Datagram K → Datagram K
  init_socket w = record w {
    readable = add_callback recvfrom_self 0 w.readable;
    recvfrom = add_callback pass_receive 0 w.recvfrom;
    closed = add_callback pass_closed 0 w.closed;
  }

module _ {K : Type 0} (sys : System K) (user : DatagramCall → Cmd (Datagram K) (Unit {0})) where
  unfoldable pub run_read : ReadFn → Cmd (Datagram K) (Unit {0})
  unfolding recvfrom
  run_read recvfrom_self = recvfrom sys user >>= λ _. pure tt
  run_read (user_read n) = user (event n)

  -- `socket::on_readable`
  unfoldable pub on_readable : Cmd (Datagram K) (Unit {0})
  unfolding run_read
  on_readable = run_action run_read (λ v. v.readable)

  -- `socket::on_writeable`
  unfoldable pub on_writeable : Cmd (Datagram K) (Unit {0})
  on_writeable = run_action (λ n. user (event n)) (λ v. v.writeable)

  -- `open`
  unfoldable pub open_udp : ℕ → Cmd (Datagram K) Bool
  open_udp af w = if is_neg w.sock then open_socket sys user af sock_dgram 0 w else ok true w

  -- `addrinfo(this->address, hostname, family)`, and whether it is SUCCESS
  abbrev pub resolve_self : Bytes → ℕ → Cmd (Datagram K) Bool
  resolve_self hostname fam w =
      let (result, address, k) = addrinfo sys w.address hostname fam w.kernel in
      ok (is_success result) (record w { address = address; kernel = k })

  abbrev pub assign_own_port : AddressType → ℕ → Cmd (Datagram K) (Unit {0})
  assign_own_port t port w = elim (set_port t port w.address) [
    | none ↦ fault null_pointer
    | some address ↦ ok tt (record w { address = address })
  ]

  -- `bind` once the address is resolved
  unfoldable pub bind_resolved : ℕ → Bool → Cmd (Datagram K) Bool
  bind_resolved port use_ipv6 = do
    assign_own_port (if use_ipv6 then sockaddr_in6 else sockaddr_in) port
    done ← bind_socket sys user
    if not done then pure false else (λ w.
        and_then (run_action (λ n. user (addressed n w.address)) (λ v. v.bound) w) (λ _. ok true))

  -- `bind` of a socket without a descriptor; whether `open` succeeds is not looked at.
  unfoldable pub bind_closed : Bytes → ℕ → Bool → Cmd (Datagram K) Bool
  unfolding bind_resolved
  bind_closed hostname port use_ipv6 = do
    opened ← open_udp (if use_ipv6 then af_inet6 else af_inet)
    found ← resolve_self hostname (if use_ipv6 then af_inet6 else af_inet)
    if not found then report sys user "addrinfo" >> pure false else bind_resolved port use_ipv6

  -- `bind`
  unfoldable pub bind_udp : Bytes → ℕ → Bool → Cmd (Datagram K) Bool
  unfolding bind_closed
  bind_udp hostname port use_ipv6 w =
      if w.sock ==ℤ negsuc 0 then bind_closed hostname port use_ipv6 w else fault assertion

-- `udp::send_to`: a socket of its own, with a handler of its own, for one message.
unfoldable pub send_once : {K : Type 0} → System K → Bytes → Bytes → ℕ → K → Run (Datagram K) Bool
send_once sys address msg flags k =
    let silent : DatagramCall → Cmd (Datagram _) (Unit {0}) = λ c. ok tt in
    and_then (open_socket sys silent (family address) sock_dgram 0 (new_socket k (new_handler 0) 1))
      λ opened. if not opened then ok false else (do
        result ← send_to sys silent address msg flags
        close_socket sys silent
        pure result)
