-- ===== src/Datagram/Kept.antt =====
-- What the calls on a datagram socket leave alone: all but the kernel, the address and what `::poll`
-- reported.
pub mod Turn
pub mod Standing
pub mod Setup
use Prim.Native.String.{String}
use unisock.Prelude.{
  ℕ, ◌≡◌, refl, sym, ap, ◌∙◌, subst, ℤ, is_neg, is_pos, Bool, true, false, not, some, List, [], ◌∷◌,
  length, All-always, inl, inr, Bool-cases, Cmd, Returns, returns, Returns-bind, Returns-mono,
  if◌then◌else◌, pure, ◌>>◌,
}
use unisock.Events.Action.{ActionCallback}
use unisock.Events.Action.Returns.{KeepsAll, execute-Returns}
use unisock.Events.Handler.{Ptr, PollFd, Handler}
use unisock.Events.Handler.Table.{IsAligned, table}
use unisock.Socket.Address.{size}
use unisock.Socket.System.{Bytes, System}
use unisock.Datagram.Socket.{
  ReadFn, recvfrom_self, user_read, DatagramFn, pass_receive, user_datagram, EndFn, DatagramCall,
  event, ended, failure, message, datagram, addressed, Datagram, run_action, report, bind_socket,
}
use unisock.Datagram.Raw.{checked, send_to, recvfrom, after_recvfrom, run_datagram}
use unisock.Datagram.Udp.{run_read, on_readable, on_writeable}

module _ {K : Type 0} where
  abbrev changed : Datagram K → K → Bytes → List PollFd → Datagram K
  changed w k a ss = record w {
    kernel = k;
    address = a;
    handler = record (w.handler) { sockets = ss };
  }

  pub record Kept (w t : Datagram K) : Type 0 where
    pub same : t ≡ changed w t.kernel t.address t.handler.sockets
    pub same_size : length t.handler.sockets ≡ length w.handler.sockets
    pub same_table : table t.handler ≡ table w.handler

  pub Kept-refl : (w : Datagram K) → Kept w w
  Kept-refl w = record { same = refl; same_size = refl; same_table = refl }

  -- The kernel and the address are free.
  pub Kept-to : (w : Datagram K) (k : K) (a : Bytes) → Kept w (record w { kernel = k; address = a })
  Kept-to w k a = record { same = refl; same_size = refl; same_table = refl }

  pub Kept-trans : (w s t : Datagram K) → Kept w s → Kept s t → Kept w t
  Kept-trans w s t a b = record {
    same = b.same ∙ ap (λ v. changed v t.kernel t.address t.handler.sockets) a.same;
    same_size = b.same_size ∙ a.same_size;
    same_table = b.same_table ∙ a.same_table;
  }

  -- A call that returns and keeps that.
  abbrev pub KeepsAt {ℓ} : {A : Type ℓ} → Datagram K → Cmd (Datagram K) A → Type ℓ
  KeepsAt w m = Returns (λ _ t. Kept w t) (m w)

  -- An address that `::recvfrom` has given with a datagram on that descriptor.
  pub record IsSource (sys : System K) (socket : ℤ) (address : Bytes) : Type 0 where
    pub buffer_size : ℕ
    pub before : K
    pub received : is_neg (sys.recvfrom socket buffer_size before).0 ≡ false
    pub given : address ≡ (sys.recvfrom socket buffer_size before).2

  -- The socket has its descriptor.
  abbrev pub IsAt : ℤ → Datagram K → Type 0
  IsAt home w = (is_pos w.sock ≡ true) × (w.sock ≡ home)

  -- A datagram, and an event of the loop, come while the descriptor is there.
  abbrev pub IsDue : System K → ℤ → Datagram K → DatagramCall → Type 0
  IsDue sys home w (event n) = IsAt home w
  IsDue sys home w (ended n) = Unit
  IsDue sys home w (failure n function err) = Unit
  IsDue sys home w (message n buffer) = IsAt home w
  IsDue sys home w (datagram n address msg) = IsAt home w × IsSource sys home address
  IsDue sys home w (addressed n address) = Unit

  -- The callbacks of the program return, and leave the socket, its actions and the handler alone.
  abbrev pub IsTame : System K → ℤ → (DatagramCall → Cmd (Datagram K) (Unit {0})) → Type 0
  IsTame sys home user =
      (w : Datagram K) (c : DatagramCall) → IsDue sys home w c → KeepsAt w (user c)

  pub Kept-sock : {w t : Datagram K} → Kept w t → t.sock ≡ w.sock
  Kept-sock k = ap (λ v. v.sock) k.same

  pub Kept-IsAt : (home : ℤ) (w t : Datagram K) → Kept w t → IsAt home w → IsAt home t
  Kept-IsAt home w t k at_home = (rw (Kept-sock k) at_home.0, Kept-sock k ∙ at_home.1)

  pub run_action-Kept {ℓ} :
      {F : Type ℓ} (run : F → Cmd (Datagram K) (Unit {0}))
      (action : Datagram K → List (ActionCallback F)) (w : Datagram K)
      → ((k : K) (a : Bytes) (ss : List PollFd) → action (changed w k a ss) ≡ action w)
      → ((t : Datagram K) (f : F) → Kept w t → KeepsAt t (run f))
      → KeepsAt w (run_action run action)
  run_action-Kept run action w fixed keeps =
      execute-Returns run (λ v. some (length (action v))) (Kept w) (action w) w
        (All-always (KeepsAll run (λ v. some (length (action v))) (Kept w))
          (λ cb s k. Returns-mono (keeps s cb.exec k) λ _ t k'. Kept-trans w s t k k') (action w))
        (λ t k.
          ap (λ l. some (length l)) (ap action k.same ∙ fixed t.kernel t.address t.handler.sockets))
        (Kept-refl w)

module _ {K : Type 0} (sys : System K) (user : DatagramCall → Cmd (Datagram K) (Unit {0}))
    (home : ℤ) (tame : IsTame sys home user) where
  pub report-Kept : (function : String) (w : Datagram K) → KeepsAt w (report sys user function)
  report-Kept function w =
      run_action-Kept (λ n. user (failure n function (sys.errno w.kernel))) (λ v. v.error) w
        (λ k a ss. refl) λ t n k. tame t (failure n function (sys.errno w.kernel)) tt

  -- What follows a call that has written the kernel.
  after-kernel {ℓ} :
      {A : Type ℓ} (w : Datagram K) (k : K) (m : Cmd (Datagram K) A)
      → KeepsAt (record w { kernel = k }) m
      → Returns (λ _ t. Kept w t) (m (record w { kernel = k }))
  after-kernel w k m kept = Returns-mono kept λ _ t q. Kept-trans w _ t (Kept-to w k w.address) q

  failed-Kept :
      (function : String) (w : Datagram K) → KeepsAt w (report sys user function >> pure false)
  failed-Kept function w = Returns-bind (report-Kept function w) λ _ t q. returns q

  checked-Kept :
      (function : String) (n : ℤ) (w : Datagram K)
      → KeepsAt w (checked sys user (report sys user function) n)
  checked-Kept function n w = elim (Bool-cases (is_neg n)) [
    | inl failed ↦ rw failed (failed-Kept function w)
    | inr went ↦ rw went (returns (Kept-refl w))
  ]

  -- `send_to` of a socket with a descriptor returns, whether `::sendto` succeeds.
  pub send_to-Kept :
      (address msg : Bytes) (flags : ℕ) (w : Datagram K)
      → is_pos w.sock ≡ true
      → KeepsAt w (send_to sys user address msg flags)
  unfolding send_to
  send_to-Kept address msg flags w up =
      let r = sys.sendto w.sock msg flags address (size address) w.kernel in
      rw up (
        after-kernel w r.1 (checked sys user (report sys user "sendto") r.0)
          (checked-Kept "sendto" r.0 (record w { kernel = r.1 })))

  run_datagram-Kept :
      (address msg : Bytes) (f : DatagramFn) (w : Datagram K)
      → IsAt home w
      → IsSource sys home address
      → KeepsAt w (run_datagram sys user address msg f)
  unfolding run_datagram
  run_datagram-Kept address msg pass_receive w up src =
      run_action-Kept (λ n. user (datagram n address msg)) (λ v. v.receive) w (λ k a ss. refl)
        λ t n k. tame t (datagram n address msg) (Kept-IsAt home w t k up, src)
  run_datagram-Kept address msg (user_datagram n) w up src =
      tame w (datagram n address msg) (up, src)

  after_recvfrom-Kept :
      (n : ℤ) (buffer address : Bytes) (w : Datagram K)
      → IsAt home w
      → (is_neg n ≡ false → IsSource sys home address)
      → KeepsAt w (after_recvfrom sys user n buffer address)
  unfolding after_recvfrom
  after_recvfrom-Kept n buffer address w up src = elim (Bool-cases (is_neg n)) [
    | inl failed ↦ rw failed (failed-Kept "recv" w)
    | inr got ↦ rw got (
        Returns-bind
          (run_action-Kept (run_datagram sys user address _) (λ v. v.recvfrom) w (λ k a ss. refl)
            λ t f k. run_datagram-Kept address _ f t (Kept-IsAt home w t k up) (src got))
          λ _ t q. returns q)
  ]

  pub recvfrom-Kept : (w : Datagram K) → IsAt home w → KeepsAt w (recvfrom sys user)
  unfolding recvfrom
  recvfrom-Kept w up =
      let r = sys.recvfrom w.sock 4096 w.kernel in
      rw up.0 (
        after-kernel w r.3 (after_recvfrom sys user r.0 r.1 r.2) (
          after_recvfrom-Kept r.0 r.1 r.2 (record w { kernel = r.3 }) up
            λ got. record {
              buffer_size = 4096;
              before = w.kernel;
              received = ap (λ fd. is_neg (sys.recvfrom fd 4096 w.kernel).0) (sym up.1) ∙ got;
              given = ap (λ fd. (sys.recvfrom fd 4096 w.kernel).2) up.1;
            }))

  run_read-Kept : (f : ReadFn) (w : Datagram K) → IsAt home w → KeepsAt w (run_read sys user f)
  unfolding run_read
  run_read-Kept recvfrom_self w up = Returns-bind (recvfrom-Kept w up) λ _ t q. returns q
  run_read-Kept (user_read n) w up = tame w (event n) up

  -- The members that the loop calls, on a socket with a descriptor.
  pub on_readable-Kept : (w : Datagram K) → IsAt home w → KeepsAt w (on_readable sys user)
  unfolding on_readable
  on_readable-Kept w up =
      run_action-Kept (run_read sys user) (λ v. v.readable) w (λ k a ss. refl)
        λ t f k. run_read-Kept f t (Kept-IsAt home w t k up)

  pub on_writeable-Kept : (w : Datagram K) → IsAt home w → KeepsAt w (on_writeable sys user)
  unfolding on_writeable
  on_writeable-Kept w up =
      run_action-Kept (λ n. user (event n)) (λ v. v.writeable) w (λ k a ss. refl)
        λ t n k. tame t (event n) (Kept-IsAt home w t k up)

  -- `bind` returns whether `::bind` succeeded.
  pub bind_socket-Kept :
      (w : Datagram K)
      → let r = (sys.bind w.sock w.address (size w.address) w.kernel).0 in
        Returns (λ done t. Kept w t × (done ≡ not (is_neg r))) (bind_socket sys user w)
  unfolding bind_socket
  bind_socket-Kept w =
      let r = sys.bind w.sock w.address (size w.address) w.kernel in
      let u : Datagram K = record w { kernel = r.1 } in
      let k = Kept-to w r.1 w.address in
      elim (Bool-cases (is_neg r.0)) [
        | inl failed ↦
            rw failed
              (Returns-bind (report-Kept "bind" u) λ _ t k'. returns (Kept-trans w u t k k', refl))
        | inr done ↦ rw done (returns (k, refl))
      ]
