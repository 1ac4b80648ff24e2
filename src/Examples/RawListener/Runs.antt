-- ===== src/Examples/RawListener/Runs.antt =====
-- `main` of the raw listener, whatever the network does.
use unisock.Prelude.{
  ℕ, suc, ◌≡◌, refl, ap, ◌∙◌, ℤ, is_neg, is_pos, Bool, true, false, not, Option, if◌then◌else◌, Cmd,
  pure, ◌>>=◌, ◌>>◌, Returns, returns, Returns-bind, Returns-mono, Returns-ok, negsuc, inl, inr,
  Bool-cases, ok,
}
use unisock.Events.Action.{add_callback}
use unisock.Datagram.Udp.Relay.{run_single}
use unisock.Events.Handler.{Ptr, new_handler, add_socket}
use unisock.Socket.System.{Bytes, System, af_inet, sock_dgram}
use unisock.Socket.Address.{size, family, from_name_port}
use unisock.Socket.Address.Print.{to_string}
use unisock.Socket.Address.Print.Cases.{to_string-Returns}
use unisock.Datagram.Socket.{
  open_socket, bind_socket, DatagramCall, event, ended, failure, message, datagram, addressed,
  Datagram, new_socket,
}
use unisock.Datagram.Loop.{serve_then_close}
use unisock.Datagram.Kept.{
  Kept-refl, Kept-to, Kept-trans, IsSource, IsTame, recvfrom-Kept, bind_socket-Kept,
}
use unisock.Datagram.Kept.Standing.{IsUnwatched, Stands, Kept-Stands, serve_then_close-Stands}
use unisock.Datagram.Kept.Setup.{open_socket-Stands}
use unisock.Examples.Running.{localhost}
use unisock.Examples.Console.{log-Kept, on_kernel, on_kernel-Kept}
use unisock.Examples.RawListener.{
  Display, on_datagram, raw_hooks, hook_raw, goes_on, returned, exit_of, raw_main,
}

exit_of-not : (failed : Bool) → exit_of (not failed) ≡ (if failed then returned 0 else goes_on)
exit_of-not true = refl
exit_of-not false = refl

module _ {K : Type 0} (sys : System K) (inet_ntop : ℕ → Bytes → ℕ → Option Bytes) (out : Display K)
    (home : ℤ)
    (senders : (sender : Bytes) → IsSource sys home sender → family sender ≡ af_inet) where
  abbrev user : DatagramCall → Cmd (Datagram K) (Unit {0})
  user = raw_hooks sys inet_ntop out

  on_datagram-IsTame : IsTame sys home (on_datagram sys inet_ntop out)
  unfolding on_datagram
  on_datagram-IsTame w (datagram n address msg) due =
      Returns-bind
        (on_kernel-Kept (to_string sys inet_ntop address) w
          (to_string-Returns sys inet_ntop address w.kernel (senders address due.1)))
        λ text t k.
          Returns-mono (log-Kept (out.show_message text msg) t) λ _ u k'. Kept-trans w t u k k'
  on_datagram-IsTame w (failure n func err) due = log-Kept (out.show_error func err) w
  on_datagram-IsTame w (addressed n address) due = returns (Kept-refl w)
  on_datagram-IsTame w (event n) due = returns (Kept-refl w)
  on_datagram-IsTame w (ended n) due = returns (Kept-refl w)
  on_datagram-IsTame w (message n buffer) due = returns (Kept-refl w)

  raw_hooks-IsTame : IsTame sys home user
  unfolding raw_hooks
  raw_hooks-IsTame w (event n) due =
      Returns-bind (recvfrom-Kept sys (on_datagram sys inet_ntop out) home on_datagram-IsTame w due)
        λ _ t k. returns k
  raw_hooks-IsTame w (datagram n address msg) due =
      on_datagram-IsTame w (datagram n address msg) due
  raw_hooks-IsTame w (failure n func err) due = on_datagram-IsTame w (failure n func err) tt
  raw_hooks-IsTame w (addressed n address) due = returns (Kept-refl w)
  raw_hooks-IsTame w (ended n) due = returns (Kept-refl w)
  raw_hooks-IsTame w (message n buffer) due = returns (Kept-refl w)

  after_bind-Returns :
      (refused failed : Bool) (turns : ℕ) (w : Datagram K)
      → Stands home failed w
      → Returns
          (λ exit t.
            Stands home failed t
            × (exit ≡ (if refused then returned 1 else if failed then returned 0 else goes_on)))
          ((if not (not refused)
              then pure (returned 1)
              else (serve_then_close sys user (pure tt) (suc turns) >>= λ running.
                  pure (exit_of running)))
            w)
  after_bind-Returns true failed turns w s = returns (s, refl)
  after_bind-Returns false failed turns w s =
      Returns-bind
        (serve_then_close-Stands sys user home raw_hooks-IsTame (pure tt) turns failed w
          (λ u up. returns (Kept-refl u)) s)
        λ running t q. returns (q.0, ap exit_of q.1 ∙ exit_of-not failed)

  -- What `main` does after `open`, in a state where 127.0.0.1 resolves.
  after_open-Returns :
      (failed : Bool) (turns : ℕ) (t : Datagram K) (address : Bytes) (before : K)
      → Stands home failed t
      → from_name_port sys localhost 8000 af_inet t.kernel ≡ ok address before
      → Returns
          (λ exit x.
            Stands home failed x
            × (exit ≡ (
                if is_neg (sys.bind t.sock address (size address) before).0
                then returned 1
                else if failed
                then returned 0
                else goes_on)))
          ((do
            found ← on_kernel (from_name_port sys localhost 8000 af_inet)
            (λ w. ok tt (record w { address = found }))
            bound ← bind_socket sys user
            if not bound
                then pure (returned 1)
                else (serve_then_close sys user (pure tt) (suc turns) >>= λ running.
                    pure (exit_of running)))
            t)
  after_open-Returns failed turns t address before s resolves =
      let v : Datagram K = record t { kernel = before; address = address } in
      let refused = is_neg (sys.bind v.sock address (size address) before).0 in
      rw resolves (
        Returns-bind (bind_socket-Kept sys user home raw_hooks-IsTame v) λ bound x r. rw r.1 (
          after_bind-Returns refused failed turns x
            (Kept-Stands home failed t x (Kept-trans t v x (Kept-to t before address) r.0) s)))

module _ {K : Type 0} (sys : System K) (inet_ntop : ℕ → Bytes → ℕ → Option Bytes)
    (out : Display K) where
  -- The state of the kernel after `main` has called `open`: a failure is printed.
  abbrev pub opened : K → K
  opened k =
      let (fd, k₁) = sys.socket af_inet sock_dgram 0 k in
      if is_neg fd then out.show_error "socket" (sys.errno k₁) k₁ else k₁

  -- The socket when `main` has called `on`.
  abbrev hooked : K → ℕ → Ptr → Datagram K
  hooked k garbage self = hook_raw (new_socket k (new_handler garbage) self)

  open_fails :
      (k : K) (garbage : ℕ) (self : Ptr)
      → is_neg (sys.socket af_inet sock_dgram 0 k).0 ≡ true
      → open_socket sys (raw_hooks sys inet_ntop out) af_inet sock_dgram 0 (hooked k garbage self)
        ≡ ok false (record (hooked k garbage self) { kernel = opened k; sock = negsuc 0 })
  unfolding open_socket hook_raw new_socket raw_hooks on_datagram add_callback
  open_fails k garbage self failed =
      let k₁ = (sys.socket af_inet sock_dgram 0 k).1 in
      let u : Datagram K = record (hooked k garbage self) { kernel = k₁; sock = negsuc 0 } in
      rw failed (
        rw
          (run_single (λ m. raw_hooks sys inet_ntop out (failure m "socket" (sys.errno k₁)))
            (λ v. v.error) u 0 refl)
          refl)

  open_succeeds :
      (k : K) (garbage : ℕ) (self : Ptr)
      → is_neg (sys.socket af_inet sock_dgram 0 k).0 ≡ false
      → open_socket sys (raw_hooks sys inet_ntop out) af_inet sock_dgram 0 (hooked k garbage self)
        ≡ ok true (record (hooked k garbage self) {
          kernel = opened k;
          sock = (sys.socket af_inet sock_dgram 0 k).0;
          handler =
              add_socket
                (hooked k garbage self).handler
                (sys.socket af_inet sock_dgram 0 k).0
                (hooked k garbage self).self;
        })
  unfolding open_socket hook_raw new_socket
  open_succeeds k garbage self got = rw got refl

  -- Let the descriptors of `::socket` be above 0, let the datagrams on the descriptor that it gives have
  -- senders with IPv4 addresses, as the socket has, and let 127.0.0.1 resolve. Then `main` of the raw
  -- listener returns after at least one turn of its loop, whatever comes and whichever calls fail. It
  -- has returned 1 if `::bind` of the resolved address failed, for the socket or, where there is none,
  -- for -1. Else it has returned 0 if `::socket` gave no descriptor, and goes on in its loop if it gave
  -- one. The handler waits for the descriptor that `::socket` gave, or for nothing if it gave none.
  pub raw_main-Returns :
      (turns : ℕ) (k : K) (garbage : ℕ) (self : Ptr) (address : Bytes) (before : K)
      → let fd = (sys.socket af_inet sock_dgram 0 k).0 in
        (is_neg fd ≡ false → is_pos fd ≡ true)
        → ((sender : Bytes) → IsSource sys fd sender → family sender ≡ af_inet)
        → from_name_port sys localhost 8000 af_inet (opened k) ≡ ok address before
        → Returns
            (λ exit t.
              Stands fd (is_neg fd) t
              × (exit ≡ (
                  if is_neg
                    (sys.bind (if is_neg fd then negsuc 0 else fd) address (size address) before).0
                  then returned 1
                  else if is_neg fd
                  then returned 0
                  else goes_on)))
            (raw_main sys
              (raw_hooks sys inet_ntop out)
              (suc turns)
              (new_socket k (new_handler garbage) self))
  unfolding raw_main hook_raw new_socket
  raw_main-Returns turns k garbage self address before positive senders resolves =
      let fd = (sys.socket af_inet sock_dgram 0 k).0 in
      let w = hooked k garbage self in
      let down : IsUnwatched w =
        unfold new_handler in record { no_descriptor = refl; no_object = refl; no_entry = refl } in
      let opens =
        open_socket-Stands sys (raw_hooks sys inet_ntop out) fd
          (raw_hooks-IsTame sys inet_ntop out fd senders) af_inet sock_dgram 0 w down refl
          positive in
      elim (Bool-cases (is_neg fd)) [
        | inl failed ↦
            let s = rw (open_fails k garbage self failed, failed) at opens in
            let found = rw failed at resolves in
            rw (open_fails k garbage self failed) (
              rw failed (
                after_open-Returns sys inet_ntop out fd senders true turns _ address before
                  (Returns-ok s).0 found))
        | inr got ↦
            let s = rw (open_succeeds k garbage self got, got) at opens in
            let found = rw got at resolves in
            rw (open_succeeds k garbage self got) (
              rw got (
                after_open-Returns sys inet_ntop out fd senders false turns _ address before
                  (Returns-ok s).0 found))
      ]
