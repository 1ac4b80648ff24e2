-- ===== src/Examples/TcpServer/Lambdas.antt =====
-- What the lambdas of the tcp server do to the shared state: that of RECEIVE may close all sockets, the
-- one it is called for among them.
use Prim.Native.String.{String}
use unisock.Prelude.{
  ℕ, suc, ◌+◌, ◌≡◌, ◌≢◌, ◌↔◌, refl, ap, ◌∷◌, some, false, ℤ, Bool, true, Option, [], length, arith,
  inl, inr, ◌⊎◌, is_neg, Bool-cases, pure, ◌>>=◌, Returns, returns, Returns-mono,
}
use unisock.Events.Handler.{Ptr}
use unisock.Events.Tags.{
  Tag, basic, tcp, datagram, extended, receive, recv, listen, accept, disconnect, connect,
  tcp_closed,
}
use unisock.Socket.System.{Bytes, System}
use unisock.Socket.Address.{IpText, get_ip}
use unisock.Socket.World.{
  clients, listeners, load, Connection, socket_event, socket_error, socket_recv, connection_event,
  receive_event, error_event, World, Owner, connections, map_find,
}
use unisock.Socket.World.Memory.{load-live}
use unisock.Tcp.Invariant.{Inv, IsCalm, KeepsHooks}
use unisock.Tcp.Invariant.Kernel.{HasDescriptors}
use unisock.Tcp.Invariant.Keeps.{Reached, Frame-refl, Frame-trans}
use unisock.Tcp.Invariant.Quiet.{IsQuiet, IsQuietOn}
use unisock.Tcp.Invariant.CloseAll.{close_server-Returns}
use unisock.Tcp.Requests.Closing.{IsCalm-IsSettled}
use unisock.Examples.Running.{emit}
use unisock.Examples.Running.Returning.{emit-Settles}
use unisock.Examples.TcpServer.{
  Journal, close_message, same_bytes, tell, telling, close_from_hook, on_message, tcp_server_hooks,
}

same_bytes_iff : (a b : Bytes) → (same_bytes a b ≡ true) ↔ (a ≡ b)
unfolding same_bytes
same_bytes_iff [] [] = ((λ _. refl), (λ _. refl))
same_bytes_iff [] (y ∷ b) = ((λ e. absurd (cc e)), (λ e. absurd (cc e)))
same_bytes_iff (x ∷ a) [] = ((λ e. absurd (cc e)), (λ e. absurd (cc e)))
same_bytes_iff (x ∷ a) (y ∷ b) = ground (arith, same_bytes_iff a b)

-- No listener and no client is there, and no object but those of the container of a tcp client.
pub record IsClosed {K : Type 0} (t : World K) : Type 0 where
  pub no_clients : t.containers clients ≡ []
  pub no_listeners : t.containers listeners ≡ []
  pub others :
      (q : Ptr) (d : Connection)
      → t.heap q ≡ some d
      → (key : ℤ) × (map_find key (t.containers connections) ≡ some q)

Inv-IsClosed :
    {K : Type 0} (is_open : K → ℤ → Bool) (t : World K)
    → Inv is_open t
    → t.containers clients ≡ []
    → t.containers listeners ≡ []
    → IsClosed t
unfolding map_find
Inv-IsClosed is_open t v no_clients no_listeners = record {
  no_clients = no_clients;
  no_listeners = no_listeners;
  others = λ q d live. let own = v.owned q d live in owner_left own.owner own.key q own.entry;
}
  where
    owner_left :
        (o : Owner) (key : ℤ) (q : Ptr)
        → map_find key (t.containers o) ≡ some q
        → (k : ℤ) × (map_find k (t.containers connections) ≡ some q)
    owner_left listeners key q e = absurd (cc (e, ap (map_find key) no_listeners))
    owner_left clients key q e = absurd (cc (e, ap (map_find key) no_clients))
    owner_left connections key q e = (key, e)

module _ {K : Type 0} (is_open : K → ℤ → Bool) where
  -- Output closes no descriptor.
  abbrev pub Leaves : (K → K) → Type 0
  Leaves f = (fd : ℤ) (k : K) → is_open k fd ≡ true → is_open (f k) fd ≡ true

  pub record IsJournal (out : Journal K) : Type 0 where
    pub listening_keeps : (ip : IpText) (s : ℤ) → Leaves (out.print_listening ip s)
    pub closed_keeps : (ip : IpText) → Leaves (out.print_closed ip)
    pub received_keeps : (ip : IpText) (m : Bytes) → Leaves (out.print_received ip m)
    pub closing_keeps : Leaves out.print_closing
    pub connected_keeps : (ip : IpText) → Leaves (out.print_connected ip)
    pub disconnected_keeps : (ip : IpText) → Leaves (out.print_disconnected ip)
    pub error_keeps : (func : String) (err : ℤ) → Leaves (out.print_error func err)

  emit-IsQuiet : (f : K → K) → Leaves f → IsQuiet is_open (emit f)
  emit-IsQuiet f leaves w v =
      returns (emit-Settles is_open w (f w.kernel) (λ fd. leaves fd w.kernel) v)

  -- What is written of an object.
  emit_of-IsQuietOn :
      (p : Ptr) (f : Connection → K → K)
      → ((c : Connection) → Leaves (f c))
      → IsQuietOn is_open p (load p >>= λ c. emit (f c))
  emit_of-IsQuietOn p f leaves w v (c, live) =
      rw (load-live p w live) (emit-IsQuiet (f c) (leaves c) w v)

  silent-IsQuietOn : (p : Ptr) → IsQuietOn is_open p (pure tt)
  silent-IsQuietOn p w v live = returns ((v, Frame-refl is_open w), refl, refl)

  module _ (inet_ntop : ℕ → Bytes → ℕ → Option Bytes) (out : Journal K)
      (output : IsJournal out) where
    tell-IsQuietOn : (t : Tag) (p : Ptr) → IsQuietOn is_open p (tell inet_ntop out t p)
    unfolding tell
    tell-IsQuietOn (tcp listen) p =
        emit_of-IsQuietOn p (λ c. out.print_listening (get_ip inet_ntop c.address) c.sock)
          (λ c. output.listening_keeps (get_ip inet_ntop c.address) c.sock)
    tell-IsQuietOn (tcp tcp_closed) p =
        emit_of-IsQuietOn p (λ c. out.print_closed (get_ip inet_ntop c.address))
          (λ c. output.closed_keeps (get_ip inet_ntop c.address))
    tell-IsQuietOn (tcp accept) p =
        emit_of-IsQuietOn p (λ c. out.print_connected (get_ip inet_ntop c.address))
          (λ c. output.connected_keeps (get_ip inet_ntop c.address))
    tell-IsQuietOn (tcp disconnect) p =
        emit_of-IsQuietOn p (λ c. out.print_disconnected (get_ip inet_ntop c.address))
          (λ c. output.disconnected_keeps (get_ip inet_ntop c.address))
    tell-IsQuietOn (tcp receive) p = silent-IsQuietOn p
    tell-IsQuietOn (tcp recv) p = silent-IsQuietOn p
    tell-IsQuietOn (tcp connect) p = silent-IsQuietOn p
    tell-IsQuietOn (basic t) p = silent-IsQuietOn p
    tell-IsQuietOn (datagram t) p = silent-IsQuietOn p
    tell-IsQuietOn (extended n) p = silent-IsQuietOn p

    pub telling-KeepsHooks : KeepsHooks is_open (telling inet_ntop out)
    unfolding telling
    telling-KeepsHooks (connection_event t n p) w v (live, up) =
        Returns-mono (tell-IsQuietOn t p w v live) λ _ t q. q.0
    telling-KeepsHooks (error_event n func err) w v callable =
        Returns-mono (emit-IsQuiet (out.print_error func err) (output.error_keeps func err) w v)
          λ _ t q. q.0
    telling-KeepsHooks (receive_event n p message) w v callable = returns (v, Frame-refl is_open w)
    telling-KeepsHooks (socket_event n) w v callable = returns (v, Frame-refl is_open w)
    telling-KeepsHooks (socket_error n func err) w v callable = returns (v, Frame-refl is_open w)
    telling-KeepsHooks (socket_recv n message) w v callable = returns (v, Frame-refl is_open w)

    module _ (sys : System K) (desc : HasDescriptors is_open sys) where
      -- `close` from the hook ends, while no object is being closed, and leaves no listener and no client.
      close_from_hook-Returns :
          (w : World K)
          → Inv is_open w
          → IsCalm w
          → Returns
              (λ _ t.
                Reached is_open w t × (t.containers clients ≡ []) × (t.containers listeners ≡ []))
              (close_from_hook sys inet_ntop out w)
      unfolding close_from_hook telling
      close_from_hook-Returns w v calm =
          Returns-mono
            (close_server-Returns is_open sys desc (telling inet_ntop out)
              (λ n x vx. returns ((vx, Frame-refl is_open x), refl, refl))
              (λ t n p closing. tell-IsQuietOn t p)
              (suc (length (w.containers clients) + length (w.containers listeners))) w
              (IsCalm-IsSettled is_open w clients v calm)
              (IsCalm-IsSettled is_open w listeners v calm) (omega arith) (omega arith) v)
            λ _ t q. ((q.0, q.3), q.1, q.2)

      -- Let the kernel deal in descriptors as documented, and let output close none. Where no object is
      -- half closed, the lambda of RECEIVE of the tcp server, called for an open connection, returns and
      -- keeps the invariant. If the message is "close" and a line feed, no listener and no client is left,
      -- and every object that is left is a connection of a tcp client. Any other message, "close" alone
      -- among them, changes nothing but what is printed.
      pub on_message-Returns :
          (p : Ptr) (message : Bytes) (w : World K) (c : Connection)
          → Inv is_open w
          → w.heap p ≡ some c
          → is_neg c.sock ≡ false
          → IsCalm w
          → let text = out.print_received (get_ip inet_ntop c.address) message w.kernel in
            Returns
              (λ _ t.
                Reached is_open w t
                × (((message ≡ b'c' ∷ b'l' ∷ b'o' ∷ b's' ∷ b'e' ∷ 10 ∷ []) × IsClosed t)
                    ⊎ ((message ≢ b'c' ∷ b'l' ∷ b'o' ∷ b's' ∷ b'e' ∷ 10 ∷ [])
                        × (t ≡ record w { kernel = text }))))
              (on_message sys inet_ntop out p message w)
      unfolding on_message
      on_message-Returns p message w c v live up calm =
          let ip = get_ip inet_ntop c.address in
          let u : World K = record w { kernel = out.print_received ip message w.kernel } in
          let x : World K = record u { kernel = out.print_closing u.kernel } in
          let (r, heap, entries) =
            emit-Settles is_open w u.kernel (λ fd. output.received_keeps ip message fd w.kernel)
              v in
          let (s, heap', entries') =
            emit-Settles is_open u x.kernel (λ fd. output.closing_keeps fd u.kernel) r.0 in
          let same = same_bytes_iff message close_message in
          rw (load-live p w live) (elim (Bool-cases (same_bytes message close_message)) [
            | inl closes ↦ rw closes (
                Returns-mono (close_from_hook-Returns x s.0 calm) λ _ t q. (
                  (q.0.0, Frame-trans is_open w u t r.1 (Frame-trans is_open u x t s.1 q.0.1)),
                  inl (same.0 closes, Inv-IsClosed is_open t q.0.0 q.1 q.2),
                ))
            | inr other ↦ rw other (returns (r, inr ((λ e. absurd (cc (other, same.1 e))), refl)))
          ])

      -- So may a program close its server from RECEIVE.
      pub tcp_server_hooks-KeepsHooks : KeepsHooks is_open (tcp_server_hooks sys inet_ntop out)
      unfolding tcp_server_hooks
      tcp_server_hooks-KeepsHooks (receive_event n p message) w v ((c, live, up), calm) =
          Returns-mono (on_message-Returns p message w c v live up calm) λ _ t q. q.0
      tcp_server_hooks-KeepsHooks (connection_event t n p) w v callable =
          telling-KeepsHooks (connection_event t n p) w v callable
      tcp_server_hooks-KeepsHooks (error_event n func err) w v callable =
          telling-KeepsHooks (error_event n func err) w v tt
      tcp_server_hooks-KeepsHooks (socket_event n) w v callable = returns (v, Frame-refl is_open w)
      tcp_server_hooks-KeepsHooks (socket_error n func err) w v callable =
          returns (v, Frame-refl is_open w)
      tcp_server_hooks-KeepsHooks (socket_recv n message) w v callable =
          returns (v, Frame-refl is_open w)
