-- ===== src/Examples/RttServer/Lambdas.antt =====
-- What the lambdas of the round trip test's server do to the shared state.
use Prim.Native.String.{String}
use unisock.Prelude.{
  ℕ, zero, suc, ◌≡◌, refl, ap, ◌∙◌, ℤ, is_neg, Bool, true, false, Option, some, [], ◌∷◌, length,
  ltb, ◌==◌, inl, inr, Bool-cases, Returns, returns, Returns-mono, Returns-bind,
}
use unisock.Events.Handler.{Ptr}
use unisock.Events.Tags.{Tag}
use unisock.Socket.System.{Bytes, System}
use unisock.Socket.Address.{IpText, get_ip}
use unisock.Socket.World.{
  Connection, socket_event, socket_error, socket_recv, connection_event, receive_event, error_event,
  World,
}
use unisock.Socket.World.Memory.{load-live}
use unisock.Tcp.Invariant.{Inv, IsUp, KeepsHooks}
use unisock.Tcp.Invariant.Kernel.{HasDescriptors, HasSetup}
use unisock.Tcp.Invariant.Keeps.{Reached, Frame-refl, Frame-trans}
use unisock.Tcp.Invariant.Connections.{send-Returns}
use unisock.Tcp.Invariant.Quiet.{IsQuiet, IsQuietOn}
use unisock.Tcp.Invariant.Spares.{Spares}
use unisock.Examples.Running.{no_socket_hooks}
use unisock.Examples.Running.Returning.{emit-Settles, no_socket_hooks-KeepsHooks}
use unisock.Examples.RttServer.{
  message_str, message_size, Counted, with_counts, Screen, show, count_bytes, answer, on_receive,
  on_disconnect, rtt_hooks,
}

module _ {K : Type 0} (is_open : K → ℤ → Bool) where
  -- The counts open and close nothing.
  abbrev pub counted_open : Counted K → ℤ → Bool
  counted_open s fd = is_open s.0 fd

  pub with_counts-HasDescriptors :
      (sys : System K) → HasDescriptors is_open sys → HasDescriptors counted_open (with_counts sys)
  with_counts-HasDescriptors sys d = record {
    accept_new = λ s k. d.accept_new s k.0;
    accept_opens = λ s k. d.accept_opens s k.0;
    accept_keeps = λ s fd k. d.accept_keeps s fd k.0;
    close_keeps = λ s fd k. d.close_keeps s fd k.0;
    send_keeps = λ s fd m k. d.send_keeps s fd m k.0;
    recv_keeps = λ s fd n k. d.recv_keeps s fd n k.0;
    poll_keeps = λ ss timeout fd k. d.poll_keeps ss timeout fd k.0;
  }

  pub with_counts-HasSetup :
      (sys : System K) → HasSetup is_open sys → HasSetup counted_open (with_counts sys)
  with_counts-HasSetup sys r = record {
    socket_new = λ domain type protocol k. r.socket_new domain type protocol k.0;
    socket_opens = λ domain type protocol k. r.socket_opens domain type protocol k.0;
    socket_keeps = λ domain type protocol fd k. r.socket_keeps domain type protocol fd k.0;
    bind_keeps = λ s fd a n k. r.bind_keeps s fd a n k.0;
    listen_keeps = λ s fd n k. r.listen_keeps s fd n k.0;
    connect_keeps = λ s fd a n k. r.connect_keeps s fd a n k.0;
    getaddrinfo_keeps = λ hostname fam fd k. r.getaddrinfo_keeps hostname fam fd k.0;
    answers_family = λ hostname fam k. r.answers_family hostname fam k.0;
  }

  -- Output closes no descriptor.
  abbrev pub Leaves : (K → K) → Type 0
  Leaves f = (fd : ℤ) (k : K) → is_open k fd ≡ true → is_open (f k) fd ≡ true

  pub record IsScreen (out : Screen K) : Type 0 where
    pub write_keeps : (m : Bytes) → Leaves (out.write m)
    pub listening_keeps : (ip : IpText) (s : ℤ) → Leaves (out.print_listening ip s)
    pub too_many_keeps : (n : ℕ) → Leaves (out.print_too_many n)
    pub missing_keeps : (n : ℕ) → Leaves (out.print_missing n)
    pub error_keeps : (func : String) (err : ℤ) → Leaves (out.print_error func err)

  show-IsQuiet : (f : K → K) → Leaves f → IsQuiet counted_open (show f)
  show-IsQuiet f leaves w v =
      returns
        (emit-Settles counted_open w (f w.kernel.0, w.kernel.1) (λ fd. leaves fd w.kernel.0) v)

  module _ (sys : System K) (desc : HasDescriptors is_open sys)
      (inet_ntop : ℕ → Bytes → ℕ → Option Bytes) (out : Screen K) (output : IsScreen out) where
    answer-Returns :
        (p : Ptr) (total : ℕ) (w : World (Counted K)) (c : Connection)
        → w.heap p ≡ some c
        → is_neg c.sock ≡ false
        → Inv counted_open w
        → Returns (λ _. Reached counted_open w) (answer sys inet_ntop out p total w)
    unfolding answer
    answer-Returns p total w c live up v = elim (Bool-cases (ltb message_size total)) [
      | inl many ↦ rw many (
          Returns-mono (show-IsQuiet (out.print_too_many total) (output.too_many_keeps total) w v)
            λ _ t q. q.0)
      | inr fits ↦ rw fits (elim (Bool-cases (total == message_size)) [
        | inr part ↦ rw part (returns (v, Frame-refl counted_open w))
        | inl whole ↦ rw whole (
            Returns-bind (show-IsQuiet (out.write (42 ∷ [])) (output.write_keeps (42 ∷ [])) w v)
              λ _ u q.
                Returns-bind
                  (send-Returns counted_open (with_counts sys) (with_counts-HasDescriptors sys desc)
                    no_socket_hooks (no_socket_hooks-KeepsHooks counted_open) p message_str u c
                    (ap (λ h. h p) q.1 ∙ live) up q.0.0)
                  λ _ t s. returns (s.0, Frame-trans counted_open w u t q.0.1 s.1))
      ])
    ]

    on_receive-Returns :
        (p : Ptr) (message : Bytes) (w : World (Counted K))
        → Inv counted_open w
        → IsUp w p
        → Returns (λ _. Reached counted_open w) (on_receive sys inet_ntop out p message w)
    unfolding on_receive
    on_receive-Returns p message w v (c, live, up) =
        let n = length message in
        let u : World (Counted K) = record w {
          kernel = (out.write (114 ∷ []) w.kernel.0, w.kernel.1);
        } in
        let x : World (Counted K) = record u { kernel = count_bytes p n u.kernel } in
        let q =
          emit-Settles counted_open w x.kernel (λ fd. output.write_keeps (114 ∷ []) fd w.kernel.0)
            v in
        rw (load-live p u live) (
          Returns-mono (answer-Returns p (x.kernel.1 p) x c live up q.0.0)
            λ _ t s. (s.0, Frame-trans counted_open w x t q.0.1 s.1))

    on_disconnect-IsQuietOn :
        (p : Ptr) → IsQuietOn counted_open p (on_disconnect sys inet_ntop out p)
    unfolding on_disconnect
    on_disconnect-IsQuietOn p w v (c, live) =
        rw (load-live p w live) (elim (Bool-cases (w.kernel.1 p == message_size)) [
          | inl whole ↦
              rw whole (show-IsQuiet (out.write (45 ∷ [])) (output.write_keeps (45 ∷ [])) w v)
          | inr part ↦ rw part (
              show-IsQuiet (out.print_missing (w.kernel.1 p)) (output.missing_keeps (w.kernel.1 p))
                w v)
        ])

    pub rtt_connection_event-IsQuietOn :
        (t : Tag) (n : ℕ) (p : Ptr)
        → IsQuietOn counted_open p (rtt_hooks sys inet_ntop out (connection_event t n p))
    unfolding rtt_hooks
    rtt_connection_event-IsQuietOn t zero p w v (c, live) = rw (load-live p w live) (
        show-IsQuiet (out.print_listening (get_ip inet_ntop c.address) c.sock)
          (output.listening_keeps (get_ip inet_ntop c.address) c.sock) w v)
    rtt_connection_event-IsQuietOn t (suc zero) p w v live =
        returns ((v, Frame-refl counted_open w), refl, refl)
    rtt_connection_event-IsQuietOn t (suc (suc zero)) p w v live =
        show-IsQuiet (out.write (43 ∷ [])) (output.write_keeps (43 ∷ [])) w v
    rtt_connection_event-IsQuietOn t (suc (suc (suc n))) p w v live =
        on_disconnect-IsQuietOn p w v live

    rtt_error_event-IsQuiet :
        (n : ℕ) (func : String) (err : ℤ)
        → IsQuiet counted_open (rtt_hooks sys inet_ntop out (error_event n func err))
    unfolding rtt_hooks
    rtt_error_event-IsQuiet n func err =
        show-IsQuiet (out.print_error func err) (output.error_keeps func err)

    pub rtt_socket_event-IsQuiet :
        (n : ℕ) → IsQuiet counted_open (rtt_hooks sys inet_ntop out (socket_event n))
    unfolding rtt_hooks
    rtt_socket_event-IsQuiet n w v = returns ((v, Frame-refl counted_open w), refl, refl)

    pub rtt_hooks-KeepsHooks : KeepsHooks counted_open (rtt_hooks sys inet_ntop out)
    rtt_hooks-KeepsHooks (connection_event t n p) w v (live, up) =
        Returns-mono (rtt_connection_event-IsQuietOn t n p w v live) λ _ t q. q.0
    rtt_hooks-KeepsHooks (receive_event n p message) w v (up, calm) =
        unfold rtt_hooks in on_receive-Returns p message w v up
    rtt_hooks-KeepsHooks (error_event n func err) w v callable =
        Returns-mono (rtt_error_event-IsQuiet n func err w v) λ _ t q. q.0
    rtt_hooks-KeepsHooks (socket_event n) w v callable =
        unfold rtt_hooks in returns (v, Frame-refl counted_open w)
    rtt_hooks-KeepsHooks (socket_error n func err) w v callable =
        unfold rtt_hooks in returns (v, Frame-refl counted_open w)
    rtt_hooks-KeepsHooks (socket_recv n message) w v callable =
        unfold rtt_hooks in returns (v, Frame-refl counted_open w)

    pub rtt_error_event-Spares :
        (n : ℕ) (func : String) (err : ℤ)
        → Spares counted_open (rtt_hooks sys inet_ntop out (error_event n func err))
    rtt_error_event-Spares n func err w v =
        Returns-mono (rtt_error_event-IsQuiet n func err w v)
          λ _ t q. (q.0, λ p c live. (c, ap (λ h. h p) q.1 ∙ live))
