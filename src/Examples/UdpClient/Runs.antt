-- ===== src/Examples/UdpClient/Runs.antt =====
-- `main` of the udp client: it goes on for ever, or aborts where it gets no descriptor.
use unisock.Prelude.{
  ℕ, suc, ◌≡◌, refl, ap, ℤ, is_neg, is_pos, true, false, Option, ok, fault, assertion, Cmd,
  and_then-fault, Returns, returns, Returns-bind,
}
use unisock.Events.Handler.{Ptr, new_handler}
use unisock.Socket.System.{Bytes, System, af_inet, sock_dgram}
use unisock.Socket.Address.{from_name_port}
use unisock.Datagram.Socket.{
  DatagramCall, event, ended, failure, message, datagram, addressed, Datagram, new_socket,
}
use unisock.Datagram.Raw.{send_to}
use unisock.Datagram.Udp.{open_udp, init_socket}
use unisock.Datagram.Kept.{Kept-refl, Kept-to, KeepsAt, IsTame, send_to-Kept}
use unisock.Datagram.Kept.Standing.{IsWatched, IsUnwatched, Kept-Stands, serve_then_close-Stands}
use unisock.Datagram.Kept.Setup.{open_udp-Stands}
use unisock.Examples.Running.{localhost}
use unisock.Examples.Console.{log-Kept}
use unisock.Examples.UdpServer.{constructed}
use unisock.Examples.UdpClient.{
  Terminal, begin_msg, hello_msg, udp_client_hooks, hook_client, send_to_server, client_session,
  udp_client_main,
}

module _ {K : Type 0} (sys : System K) (inet_ntop : ℕ → Bytes → ℕ → Option Bytes)
    (out : Terminal K) where
  abbrev user : DatagramCall → Cmd (Datagram K) (Unit {0})
  user = udp_client_hooks inet_ntop out

  udp_client_hooks-IsTame : (home : ℤ) → IsTame sys home user
  unfolding udp_client_hooks
  udp_client_hooks-IsTame home w (datagram n address msg) due =
      log-Kept (out.print_datagram (unisock.Socket.Address.get_ip inet_ntop address) msg) w
  udp_client_hooks-IsTame home w (addressed n address) due =
      log-Kept (out.print_end (unisock.Socket.Address.get_ip inet_ntop address)) w
  udp_client_hooks-IsTame home w (failure n func err) due = log-Kept (out.print_problem func err) w
  udp_client_hooks-IsTame home w (event n) due = returns (Kept-refl w)
  udp_client_hooks-IsTame home w (ended n) due = returns (Kept-refl w)
  udp_client_hooks-IsTame home w (message n buffer) due = returns (Kept-refl w)

  send_to_server-Kept :
      (home : ℤ) (address msg : Bytes) (w : Datagram K)
      → IsWatched home w
      → KeepsAt w (send_to_server sys out user address msg)
  unfolding send_to_server
  send_to_server-Kept home address msg w up =
      Returns-bind
        (send_to-Kept sys user home (udp_client_hooks-IsTame home) address msg 0 w up.positive)
        λ _ t k. returns k

  -- With a descriptor, both messages and the loop are as they should be.
  client_session-IsWatched :
      (home : ℤ) (address : Bytes) (turns : ℕ) (w : Datagram K)
      → Returns (λ _. IsWatched home) (open_udp sys user af_inet w)
      → Returns
          (λ running u. IsWatched home u × (running ≡ true))
          (client_session sys out user address (suc turns) w)
  unfolding client_session
  client_session-IsWatched home address turns w opens = Returns-bind opens λ opened t up.
      let u : Datagram K = record t { kernel = out.set_nonblocking t.sock t.kernel } in
      let up' : IsWatched home u = Kept-Stands home false t u (Kept-to t u.kernel u.address) up in
      Returns-bind (send_to_server-Kept home address begin_msg u up') λ _ s k.
        serve_then_close-Stands sys user home (udp_client_hooks-IsTame home)
          (send_to_server sys out user address hello_msg) turns false s
          (λ v. send_to_server-Kept home address hello_msg v) (Kept-Stands home false u s k up')

  -- Without one, the assertion of `send_to` fails.
  client_session_aborts :
      (address : Bytes) (turns : ℕ) (w : Datagram K)
      → Returns (λ _. IsUnwatched) (open_udp sys user af_inet w)
      → client_session sys out user address turns w ≡ fault assertion
  unfolding client_session send_to_server send_to
  client_session_aborts address turns w opens = and_then-fault assertion opens λ opened t down.
      let negative : is_pos t.sock ≡ false = ap is_pos down.no_descriptor in rw negative refl

  -- Let the descriptors of `::socket` be above 0, and let 127.0.0.1 resolve. If `::socket` gives a
  -- descriptor, then `main` of the udp client returns after at least one turn of its loop, whatever comes
  -- and whichever later calls fail, and its loop goes on: nothing in the program ends it. If `::socket`
  -- gives none, which `main` does not look at, it aborts on the assertion of its first `send_to`.
  pub udp_client_main-cases :
      (turns : ℕ) (k : K) (garbage : ℕ) (self : Ptr) (address : Bytes) (k' : K)
      → let fd = (sys.socket af_inet sock_dgram 0 k').0 in
        (is_neg fd ≡ false → is_pos fd ≡ true)
        → from_name_port sys localhost 8000 af_inet k ≡ ok address k'
        → let run = udp_client_main sys out user (suc turns) (constructed k garbage self) in
          (is_neg fd ≡ false → Returns (λ running t. IsWatched fd t × (running ≡ true)) run)
          × (is_neg fd ≡ true → run ≡ fault assertion)
  unfolding udp_client_main constructed init_socket new_socket
  udp_client_main-cases turns k garbage self address k' positive resolves =
      let w : Datagram K = hook_client (record (constructed k garbage self) { kernel = k' }) in
      let down : IsUnwatched w =
        unfold hook_client new_handler in
        record { no_descriptor = refl; no_object = refl; no_entry = refl } in
      let fd = (sys.socket af_inet sock_dgram 0 k').0 in
      let opens =
        open_udp-Stands sys user fd (udp_client_hooks-IsTame fd) af_inet w down refl positive in
      (
        (λ got. rw resolves (client_session-IsWatched fd address turns w (rw got at opens))),
        (λ failed. rw resolves (client_session_aborts address (suc turns) w (rw failed at opens))),
      )
