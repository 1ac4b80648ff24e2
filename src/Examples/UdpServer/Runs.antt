-- ===== src/Examples/UdpServer/Runs.antt =====
-- `main` of the udp server, whatever the network does, and its answers.
use unisock.Prelude.{
  ℕ, zero, suc, ◌≡◌, refl, ◌∙◌, ℤ, pos, is_neg, is_pos, true, false, not, Option, [], ◌∷◌, take,
  inl, inr, Bool-cases, ok, pure, if◌then◌else◌, Returns, returns, Returns-bind,
}
use unisock.Events.Handler.{Ptr, new_handler}
use unisock.Socket.System.{Bytes, System, af_inet, sock_dgram}
use unisock.Socket.Address.{get_ip, size}
use unisock.Socket.Address.Resolve.{lookup}
use unisock.Socket.Address.Answers.{AnswersFamily}
use unisock.Datagram.Socket.{
  recvfrom_self, pass_receive, event, ended, failure, message, datagram, addressed, Datagram,
  new_socket,
}
use unisock.Datagram.Raw.{send_to}
use unisock.Datagram.Udp.{on_readable, init_socket}
use unisock.Datagram.Udp.Relay.{run_single, on_readable_datagram}
use unisock.Examples.Running.Returning.{lambda}
use unisock.Datagram.Kept.{Kept-refl, Kept-to, Kept-trans, IsTame, send_to-Kept}
use unisock.Datagram.Kept.Standing.{IsUnwatched, Stands, serve_then_close-Stands}
use unisock.Datagram.Kept.Setup.{bind_udp-Stands}
use unisock.Examples.Running.{localhost}
use unisock.Examples.Console.{log-Kept}
use unisock.Examples.UdpServer.{
  Console, received_msg, notices, server_hooks, hook_all, constructed, server_main,
}

module _ {K : Type 0} (sys : System K) (inet_ntop : ℕ → Bytes → ℕ → Option Bytes)
    (out : Console K) where
  notices-IsTame : (home : ℤ) → IsTame sys home (notices sys inet_ntop out)
  unfolding notices
  notices-IsTame home w (addressed zero address) due =
      log-Kept (out.print_bound (get_ip inet_ntop address)) w
  notices-IsTame home w (addressed (suc n) address) due =
      log-Kept (out.print_closed (get_ip inet_ntop address)) w
  notices-IsTame home w (failure n func err) due = log-Kept (out.print_error func err) w
  notices-IsTame home w (datagram n address msg) due = returns (Kept-refl w)
  notices-IsTame home w (event n) due = returns (Kept-refl w)
  notices-IsTame home w (ended n) due = returns (Kept-refl w)
  notices-IsTame home w (message n buffer) due = returns (Kept-refl w)

  server_hooks-IsTame : (home : ℤ) → IsTame sys home (server_hooks sys inet_ntop out)
  unfolding server_hooks
  server_hooks-IsTame home w (datagram n address msg) due =
      let u : Datagram K = record w {
        kernel =
            out.print_received (get_ip inet_ntop address) (get_ip inet_ntop w.address) msg w.kernel;
      } in
      Returns-bind
        (send_to-Kept sys (notices sys inet_ntop out) home (notices-IsTame home) address
          received_msg 0 u due.0.0)
        λ _ t k. returns (Kept-trans w u t (Kept-to w u.kernel w.address) k)
  server_hooks-IsTame home w (addressed n address) due =
      notices-IsTame home w (addressed n address) tt
  server_hooks-IsTame home w (failure n func err) due =
      notices-IsTame home w (failure n func err) tt
  server_hooks-IsTame home w (event n) due = returns (Kept-refl w)
  server_hooks-IsTame home w (ended n) due = returns (Kept-refl w)
  server_hooks-IsTame home w (message n buffer) due = returns (Kept-refl w)

  -- Let the descriptors of `::socket` be above 0, and let the resolver answer with the family that is
  -- asked for. Then `main` of the udp server returns after at least one turn of its loop, whatever comes
  -- and whichever calls fail: with a socket that the handler waits for, and the loop goes on, if
  -- `::socket` gave a descriptor, which is the socket's; else the loop has ended, and the program has no
  -- descriptor.
  pub server_main-Returns :
      (turns : ℕ) (k : K) (garbage : ℕ) (self : Ptr)
      → let fd = (sys.socket af_inet sock_dgram 0 k).0 in
        (is_neg fd ≡ false → is_pos fd ≡ true)
        → ((j : K) → AnswersFamily af_inet (lookup sys localhost af_inet j).1)
        → Returns
            (λ running t. Stands fd (is_neg fd) t × (running ≡ not (is_neg fd)))
            (server_main sys
              (server_hooks sys inet_ntop out)
              (suc turns)
              (constructed k garbage self))
  unfolding server_main constructed init_socket new_socket
  server_main-Returns turns k garbage self positive answers =
      let user = server_hooks sys inet_ntop out in
      let fd = (sys.socket af_inet sock_dgram 0 k).0 in
      let w = hook_all (constructed k garbage self) in
      let down : IsUnwatched w =
        unfold hook_all new_handler in
        record { no_descriptor = refl; no_object = refl; no_entry = refl } in
      Returns-bind
        (bind_udp-Stands sys user fd (server_hooks-IsTame fd) localhost 8000 false w down refl
          positive answers)
        λ _ t s.
          serve_then_close-Stands sys user fd (server_hooks-IsTame fd) (pure tt) turns (is_neg fd) t
            (λ u up. returns (Kept-refl u)) s

  -- When a datagram has come for the udp server, whose actions have only the callbacks of `main` and of the
  -- constructor, `on_readable` prints it and sends one datagram, the 13 bytes of the answer, to the
  -- sender's address. When `::sendto` fails, that is printed as an error, and nothing else happens.
  pub server-answers :
      (w : Datagram K) (n : ℕ) (buffer address : Bytes) (k : K) (sent : ℤ) (k' : K)
      → let read = get_ip inet_ntop in
        w.readable ≡ record { exec = recvfrom_self; flags = 0 } ∷ []
        → w.recvfrom ≡ record { exec = pass_receive; flags = 0 } ∷ []
        → w.receive ≡ lambda 0
        → w.error ≡ lambda 0
        → is_pos w.sock ≡ true
        → sys.recvfrom w.sock 4096 w.kernel ≡ (pos n, buffer, address, k)
        → sys.sendto w.sock received_msg 0 address
            (size address)
            (out.print_received (read address) (read w.address) (take n buffer) k)
          ≡ (sent, k')
        → on_readable sys (server_hooks sys inet_ntop out) w
          ≡ ok tt (record w {
            kernel = if is_neg sent then out.print_error "sendto" (sys.errno k') k' else k';
          })
  unfolding server_hooks send_to notices
  server-answers w n buffer address k sent k' reads relays receives reports up got answered =
      on_readable_datagram sys (server_hooks sys inet_ntop out) w n buffer address k reads relays up
        got
      ∙ run_single (λ m. server_hooks sys inet_ntop out (datagram m address (take n buffer)))
          (λ v. v.receive) (record w { kernel = k }) 0 receives
      ∙ rw (up, answered)
          (elim (Bool-cases (is_neg sent)) [
            | inl failed ↦ rw failed (
                rw
                  (run_single (λ m. notices sys inet_ntop out (failure m "sendto" (sys.errno k')))
                    (λ v. v.error) (record w { kernel = k' }) 0 reports)
                  refl)
            | inr went ↦ rw went refl
          ])
