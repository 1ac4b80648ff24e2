-- ===== src/Datagram/Udp/Relay.antt =====
-- How a datagram gets from the kernel to the callbacks of RECEIVE.
use unisock.Prelude.{
  ℕ, ◌≡◌, sym, ap, subst, ◌∙◌, pos, is_pos, true, some, List, [], ◌∷◌, take, length, ok, Cmd,
  and_then_assoc, and_then-pure,
}
use unisock.Events.Action.{ActionCallback, execute}
use unisock.Events.Action.Execute.{execute_single}
use unisock.Socket.System.{Bytes, System}
use unisock.Datagram.Socket.{
  recvfrom_self, pass_receive, DatagramCall, datagram, Datagram, run_action,
}
use unisock.Datagram.Raw.{recvfrom, after_recvfrom, run_datagram}
use unisock.Datagram.Udp.{on_readable, run_read}

-- An action with one callback.
pub run_single :
    {K F : Type 0} (f : F → Cmd (Datagram K) (Unit {0}))
    (action : Datagram K → List (ActionCallback F)) (w : Datagram K) (x : F)
    → action w ≡ record { exec = x; flags = 0 } ∷ []
    → run_action f action w ≡ f x w
run_single f action w x e =
    subst (λ l. execute f (λ v. some (length (action v))) l w ≡ f x w) (sym e)
      (execute_single f (λ v. some (length (action v))) x w (ap (λ l. some (length l)) e))

module _ {K : Type 0} (sys : System K) (user : DatagramCall → Cmd (Datagram K) (Unit {0})) where
  -- When a datagram has come for a udp socket with a descriptor above 0, on which only `init_socket` has
  -- hooked READABLE and RECVFROM, `on_readable` executes exactly the action RECEIVE, with the sender's
  -- address and the bytes that the kernel counted, cut out of the buffer.
  pub on_readable_datagram :
      (w : Datagram K) (n : ℕ) (buffer address : Bytes) (k : K)
      → w.readable ≡ record { exec = recvfrom_self; flags = 0 } ∷ []
      → w.recvfrom ≡ record { exec = pass_receive; flags = 0 } ∷ []
      → is_pos w.sock ≡ true
      → sys.recvfrom w.sock 4096 w.kernel ≡ (pos n, buffer, address, k)
      → on_readable sys user w
        ≡ run_action
            (λ m. user (datagram m address (take n buffer)))
            (λ v. v.receive)
            (record w { kernel = k })
  unfolding on_readable run_read recvfrom after_recvfrom run_datagram
  on_readable_datagram w n buffer address k reads relays up got =
      let w' : Datagram K = record w { kernel = k } in
      let received =
        run_action (λ m. user (datagram m address (take n buffer))) (λ v. v.receive) w' in
      run_single (run_read sys user) (λ v. v.readable) w recvfrom_self reads
      ∙ rw (up, got)
          (rw
            (run_single (run_datagram sys user address (take n buffer)) (λ v. v.recvfrom) w'
              pass_receive relays)
            (and_then_assoc received (λ _. ok true) (λ _. ok tt) ∙ and_then-pure received))
