-- ===== src/Tcp/Invariant/Quiet.antt =====
-- Hooks of closing that leave the sockets alone, and `close` with such hooks: exactly one object goes, with
-- its entry.
use mathlib.Core.List.{Memᴰ}
use unisock.Prelude.{
  ℕ, ◌≡◌, true, refl, sym, ap, subst, ◌∙◌, ℤ, negsuc, is_neg, Bool, false, some, none, [], length,
  All-map, All-always, inl, inr, Bool-cases, if◌then◌else◌, ◌==◌, Cmd, Returns, returns,
  Returns-mono,
}
use unisock.Events.Action.{execute, is_skipped, stops_after}
use unisock.Events.Action.Returns.{execute-Returns, execute_last-Returns}
use unisock.Events.Tags.{
  Tag, tcp, tcp_closed, disconnect, server_actions_list, client_actions_list, basic, datagram,
  extended, receive, listen, accept, connect, recv,
}
use unisock.Events.Handler.{Ptr}
use unisock.Socket.System.{System}
use unisock.Socket.World.{
  Owner, ClosedFn, erase_from, listener_closed, client_disconnected, connection_closed, user_closed,
  Connection, UserCall, socket_event, connection_event, World, length_of, put_object, put_container,
  map_erase, map_find, same_owner,
}
use unisock.Socket.World.Memory.{load-live, heap-put_object}
use unisock.Socket.Object.{
  execute_in, server_execute, client_execute, run_closed, execute_closed, close,
}
use unisock.Socket.Object.Closing.{close_step, erase_object_found}
use unisock.Tcp.Invariant.{IsOwned, Inv, erases, IsLive, OwnClosed}
use unisock.Tcp.Invariant.Kernel.{HasDescriptors}
use unisock.Tcp.Invariant.Keeps.{Reached, Frame-refl, Frame-trans}
use unisock.Tcp.Invariant.Hooks.{third}
use unisock.Tcp.Invariant.Shut.{shut, Inv-shut, shut-ShutFrame}
use unisock.Tcp.Invariant.Erased.{Inv-erased, Frame-erased}

-- The actions by which the server and the client tell that a socket is closed.
abbrev pub is_closing : Tag → Bool
is_closing (tcp tcp_closed) = true
is_closing (tcp disconnect) = true
is_closing (tcp receive) = false
is_closing (tcp listen) = false
is_closing (tcp accept) = false
is_closing (tcp connect) = false
is_closing (tcp recv) = false
is_closing (basic t) = false
is_closing (datagram t) = false
is_closing (extended n) = false

module _ {K : Type 0} (is_open : K → ℤ → Bool) where
  -- A state with the objects and the containers of another.
  abbrev pub Settles : World K → World K → Type 0
  Settles w t = Reached is_open w t × (t.heap ≡ w.heap) × (t.containers ≡ w.containers)

  Settles-refl : (w : World K) → Inv is_open w → Settles w w
  Settles-refl w v = ((v, Frame-refl is_open w), refl, refl)

  -- A call that changes no socket: it may write to a terminal or count.
  abbrev pub IsQuiet : Cmd (World K) (Unit {0}) → Type 0
  IsQuiet m = (w : World K) → Inv is_open w → Returns (λ _. Settles w) (m w)

  -- The same of a call that gets an object, while it is there.
  abbrev pub IsQuietOn : Ptr → Cmd (World K) (Unit {0}) → Type 0
  IsQuietOn p m = (w : World K) → Inv is_open w → IsLive w p → Returns (λ _. Settles w) (m w)

  Settles-then :
      (w t : World K) (m : Cmd (World K) (Unit {0}))
      → Returns (λ _. Settles t) (m t)
      → Settles w t
      → Returns (λ _. Settles w) (m t)
  Settles-then w t m quiet (r, h, c) =
      Returns-mono quiet λ _ u q. ((q.0.0, Frame-trans is_open w t u r.1 q.0.1), q.1 ∙ h, q.2 ∙ c)

  -- The object has gone, with its entry, and no other.
  pub record IsGone (w : World K) (p : Ptr) (o : Owner) (key : ℤ) (t : World K) : Type 0 where
    pub reached : Reached is_open w t
    pub heap : (q : Ptr) → t.heap q ≡ (put_object p none w).heap q
    pub containers : t.containers ≡ (put_container o (map_erase key (w.containers o)) w).containers

module _ {K : Type 0} (is_open : K → ℤ → Bool) (sys : System K) (desc : HasDescriptors is_open sys)
    (user : UserCall → Cmd (World K) (Unit {0}))
    (quiet : (n : ℕ) → IsQuiet is_open (user (socket_event n)))
    (quiet_closing : (t : Tag) (n : ℕ) (p : Ptr)
      → is_closing t ≡ true
      → IsQuietOn is_open p (user (connection_event t n p))) where
  server_execute-IsQuietOn :
      (t : Tag) (p : Ptr)
      → Memᴰ t (server_actions_list [])
      → is_closing t ≡ true
      → IsQuietOn is_open p (server_execute sys user t (λ n. connection_event t n p))
  unfolding server_execute
  server_execute-IsQuietOn t p m closing w v (c, live) =
      let (l, e, _) = v.server_tags t m in
      rw (e, server_execute, execute_in)
        (execute-Returns _ _ (Settles is_open w) l w
          (All-always _
            (λ cb s r.
              Settles-then is_open w s (user (connection_event t cb.exec p))
                (quiet_closing t cb.exec p closing s r.0.0 (c, ap (λ h. h p) r.1 ∙ live)) r)
            l)
          (λ s r. rw (r.0.1.server_same, e) refl) (Settles-refl is_open w v))

  client_execute-IsQuietOn :
      (t : Tag) (p : Ptr)
      → Memᴰ t (client_actions_list [])
      → is_closing t ≡ true
      → IsQuietOn is_open p (client_execute sys user t (λ n. connection_event t n p))
  unfolding client_execute
  client_execute-IsQuietOn t p m closing w v (c, live) =
      let (l, e, _) = v.client_tags t m in
      rw (e, client_execute, execute_in)
        (execute-Returns _ _ (Settles is_open w) l w
          (All-always _
            (λ cb s r.
              Settles-then is_open w s (user (connection_event t cb.exec p))
                (quiet_closing t cb.exec p closing s r.0.0 (c, ap (λ h. h p) r.1 ∙ live)) r)
            l)
          (λ s r. rw (r.0.1.client_same, e) refl) (Settles-refl is_open w v))

  run_closed-IsQuietOn :
      (p : Ptr) (f : ClosedFn)
      → erases f ≡ false
      → OwnClosed p f
      → IsQuietOn is_open p (run_closed sys user f)
  unfolding run_closed
  run_closed-IsQuietOn p (erase_from o key) n own w v live = absurd (cc n)
  run_closed-IsQuietOn p (listener_closed q) n own w v live =
      rw own (server_execute-IsQuietOn (tcp tcp_closed) p (third refl) refl w v live)
  run_closed-IsQuietOn p (client_disconnected q) n own w v live = rw own (
      server_execute-IsQuietOn (tcp disconnect) p (Memᴰ.tail (Memᴰ.tail (Memᴰ.tail (third refl))))
        refl w v live)
  run_closed-IsQuietOn p (connection_closed q) n own w v live =
      rw own (client_execute-IsQuietOn (tcp tcp_closed) p (third refl) refl w v live)
  run_closed-IsQuietOn p (user_closed k) n own w v live = quiet k w v

  module _ (w : World K) (p : Ptr) (c : Connection) (live : w.heap p ≡ some c)
      (up : is_neg c.sock ≡ false) (v : Inv is_open w) where
    abbrev dying : World K
    dying = shut is_open w p c (sys.close c.sock w.kernel)

    dying_live :
        (t : World K) → Settles is_open dying t → t.heap p ≡ some (record c { sock = negsuc 0 })
    dying_live t r = ap (λ h. h p) r.1 ∙ heap-put_object p _ (some (record c { sock = negsuc 0 }))

    -- The erasure, after the notices.
    erased-IsGone :
        (own : IsOwned dying p c.closed) (t : World K)
        → Settles is_open dying t
        → Returns
            (λ _. IsGone is_open w p own.owner own.key)
            (run_closed sys user (erase_from own.owner own.key) t)
    unfolding run_closed put_object put_container
    erased-IsGone own t (r, same_heap, same_containers) =
        let here = dying_live t (r, same_heap, same_containers) in
        let found : map_find own.key (t.containers own.owner) ≡ some p =
          ap (λ m. map_find own.key (m own.owner)) same_containers ∙ own.entry in
        rw (erase_object_found sys user own.owner own.key p t found) (
          returns (record {
            reached = (
              Inv-erased is_open t own.owner own.key p _ here refl found r.0,
              Frame-erased is_open w dying t own.owner own.key p c live up
                  (shut-ShutFrame is_open w p c _ live up) r.1,
            );
            heap = λ q. elim (Bool-cases (q == p)) [
              | inl at ↦ rw at refl
              | inr other ↦ rw other (ap (λ h. h q) same_heap ∙ rw other refl)
            ];
            containers =
                ap (λ m o. if same_owner o own.owner then map_erase own.key (m own.owner) else m o)
                  same_containers;
          }))

    -- `close` of an open socket, with quiet hooks: its object and its entry are gone, and no other.
    pub close_quiet :
        (own : IsOwned dying p c.closed)
        → Returns (λ _. IsGone is_open w p own.owner own.key) (close sys user p w)
    unfolding execute_closed
    close_quiet own = rw (close_step sys user w p c live up) (
        rw (load-live p dying (heap-put_object p _ (some (record c { sock = negsuc 0 })))) (
          subst
            (λ l.
              Returns (λ _. IsGone is_open w p own.owner own.key)
                (execute (run_closed sys user) (length_of p (λ x. x.closed)) l dying))
            (sym own.shape)
            (execute_last-Returns (run_closed sys user) (length_of p (λ x. x.closed))
              (Settles is_open dying) (IsGone is_open w p own.owner own.key) own.notices _ dying
              (All-map
                (λ cb n t r.
                  Settles-then is_open dying t (run_closed sys user cb.exec)
                    (run_closed-IsQuietOn p cb.exec n.1 n.2 t r.0.0 (_, dying_live t r)) r)
                own.notices own.all_notices)
              (All-map (λ cb n. n.0) own.notices own.all_notices)
              (λ t r. rw (dying_live t r) (ap (λ l. some (length l)) own.shape))
              (unfold is_skipped in refl) (unfold stops_after in refl)
              (λ t r. erased-IsGone own t r)
              (Settles-refl is_open dying (Inv-shut is_open sys desc w p c live up v)))))
