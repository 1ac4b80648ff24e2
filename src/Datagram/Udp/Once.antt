-- ===== src/Datagram/Udp/Once.antt =====
-- `udp::send_to` leaves no descriptor behind.
use unisock.Prelude.{
  ℕ, suc, ◌≡◌, refl, ℤ, pos, negsuc, is_neg, ◌∙◌, ==ℤ_self, not, [], inl, inr, Bool-cases, ok,
}
use unisock.Events.Action.Execute.{execute_none}
use unisock.Events.Handler.{new_handler, add_socket, delete_socket}
use unisock.Events.Handler.Table.{table, remove_row, table-add_socket, table-delete_socket}
use unisock.Socket.Address.{size, family}
use unisock.Socket.System.{Bytes, System}
use unisock.Datagram.Socket.{Datagram, open_socket, close_socket, new_socket}
use unisock.Datagram.Raw.{send_to}
use unisock.Datagram.Udp.{send_once}

once_table :
    (f : ℕ) → table (delete_socket (add_socket (new_handler 0) (pos (suc f)) 1) (pos (suc f))) ≡ []
unfolding new_handler remove_row
once_table f =
    table-delete_socket (add_socket (new_handler 0) (pos (suc f)) 1) (pos (suc f))
      (unfold add_socket in refl)
    ∙ rw (table-add_socket (new_handler 0) (pos (suc f)) 1 refl) (rw (==ℤ_self (pos (suc f))))

module _ {K : Type 0} (sys : System K) where
  -- When the kernel gives `udp::send_to` a descriptor above 0, it returns whether `::sendto` succeeded,
  -- and in either case the last call that it makes closes that descriptor, and the handler that it made
  -- has no entry left.
  pub send_once_closes :
      (address msg : Bytes) (flags f : ℕ) (n : ℤ) (k k₁ k₂ : K)
      → sys.socket (family address) 2 0 k ≡ (pos (suc f), k₁)
      → sys.sendto (pos (suc f)) msg flags address (size address) k₁ ≡ (n, k₂)
      → (w : Datagram K) × (send_once sys address msg flags k ≡ ok (not (is_neg n)) w)
        × (w.kernel ≡ sys.close (pos (suc f)) k₂)
        × (w.sock ≡ negsuc 0)
        × (table w.handler ≡ [])
  unfolding send_once open_socket send_to close_socket new_socket
  send_once_closes address msg flags f n k k₁ k₂ opened sent =
      let h = add_socket (new_handler 0) (pos (suc f)) 1 in
      (
        record (new_socket (sys.close (pos (suc f)) k₂) (delete_socket h (pos (suc f))) 1) {
          sock = negsuc 0;
        },
        rw (opened, sent)
            (elim (Bool-cases (is_neg n)) [
              | inl failed ↦ rw (failed, execute_none) (rw execute_none)
              | inr went ↦ rw (went, execute_none) refl
            ]),
        refl,
        refl,
        once_table f,
      )
