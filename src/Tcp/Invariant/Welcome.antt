-- ===== src/Tcp/Invariant/Welcome.antt =====
-- What `accept` does with the object that it has made keeps the invariant.
use mathlib.Core.List.{Memᴰ}
use unisock.Prelude.{
  ◌≡◌, ◌≤◌, refl, sym, ap, ◌∙◌, ℤ, is_neg, is_pos, Bool, true, false, some, [], ◌∷◌, length, All,
  arith, Cmd, Returns, returns, Returns-bind,
}
use unisock.Events.Action.{add_callback, is_queued_end, stops_after}
use unisock.Events.Tags.{tcp, accept}
use unisock.Events.Handler.{Ptr}
use unisock.Socket.System.{Bytes, System}
use unisock.Socket.World.{
  Owner, clients, recv_on, flush_on, erase_from, user_closed, client_disconnected, server_receive,
  connection_event, Connection, UserCall, World, put_object, store, map_find,
}
use unisock.Socket.World.Memory.{store-live, heap-put_object}
use unisock.Socket.Object.{
  server_execute, new_connection, on_readable, on_writeable, on_closed, on_recv,
}
use unisock.Socket.Container.{erase_flags}
use unisock.Tcp.Server.{welcome}
use unisock.Tcp.Invariant.{
  last_exec, IsOwned, IsModest, OwnReadable, OwnWriteable, OwnRecv, Inv, KeepsHooks,
}
use unisock.Tcp.Invariant.Entries.{some_unique}
use unisock.Tcp.Invariant.Keeps.{
  Reached, Reached-then, is_pos-not_neg, Inv-put_object, Frame-put_object, Frame-refl, Frame-trans,
}
use unisock.Tcp.Invariant.Hooks.{third, server_execute_single-Returns}

-- A new object of the container `o`.
abbrev pub owned_connection : Owner → ℤ → Connection
owned_connection o fd = record (new_connection fd) {
  closed = record { exec = erase_from o fd; flags = erase_flags } ∷ [];
}

pub IsModest-made :
    (p : Ptr) (c : Connection)
    → All (λ cb. OwnReadable p cb.exec) c.readable
    → All (λ cb. OwnWriteable p cb.exec) c.writeable
    → All (λ cb. OwnRecv p cb.exec) c.recv
    → length c.readable ≤ 1
    → length c.writeable ≤ 1
    → length c.error ≤ 1
    → length c.recv ≤ 1
    → is_pos c.sock ≡ true
    → IsModest p c
IsModest-made p c r w v lr lw le lv up = record {
  readable = r;
  writeable = w;
  recv = v;
  one_readable = lr;
  one_writeable = lw;
  one_error = le;
  one_recv = lv;
  positive = λ _. up;
}

pub IsModest-owned :
    (p : Ptr) (o : Owner) (fd : ℤ) → is_pos fd ≡ true → IsModest p (owned_connection o fd)
unfolding new_connection
IsModest-owned p o fd up =
    IsModest-made p (owned_connection o fd) tt tt tt (omega arith) (omega arith) (omega arith)
      (omega arith) up

module _ {K : Type 0} (is_open : K → ℤ → Bool) where
  -- A state that is reached by writing one object only.
  abbrev pub Stored : World K → Ptr → Connection → World K → Type 0
  Stored w p c t = Reached is_open w t × (t.heap p ≡ some c) × (t.containers ≡ w.containers)

  pub store-Returns :
      (w : World K) (p : Ptr) (c : Connection) (f : Connection → Connection) (t : World K)
      → (f c).sock ≡ c.sock
      → last_exec (user_closed 0) (f c).closed ≡ last_exec (user_closed 0) c.closed
      → is_neg c.sock ≡ false
      → IsOwned t p (f c).closed
      → IsModest p (f c)
      → Stored w p c t
      → Returns (λ _. Stored w p (f c)) (store p f t)
  unfolding put_object
  store-Returns w p c f t same last up own modest s = rw (store-live p t f (s.1)) (
      returns (
        (
          Inv-put_object is_open t p c (f c) s.1 same last own modest s.0.0,
          Frame-trans is_open w t (put_object p (some (f c)) t) s.0.1 (
              Frame-put_object is_open t p c (some (f c)) s.1 up
                (λ x e. ap (λ y. is_neg y.sock) (sym (some_unique e)) ∙ ap is_neg same ∙ up)),
        ),
        heap-put_object p t (some (f c)),
        s.2,
      ))

module _ {K : Type 0} (is_open : K → ℤ → Bool) (sys : System K)
    (user : UserCall → Cmd (World K) (Unit {0})) (hooks : KeepsHooks is_open user) where
  -- From the state in which the client's object was made and entered, hooks included.
  pub welcome-Returns :
      (w : World K) (p : Ptr) (fd : ℤ) (a : Bytes)
      → w.heap p ≡ some (owned_connection clients fd)
      → is_pos fd ≡ true
      → map_find fd (w.containers clients) ≡ some p
      → Inv is_open w
      → Returns (λ _. Reached is_open w) (welcome sys user p a w)
  unfolding welcome on_readable on_writeable on_closed on_recv add_callback new_connection
      is_queued_end stops_after
  welcome-Returns w p fd a live up found v =
      let down = is_pos-not_neg fd up in
      let c0 = owned_connection clients fd in
      let c1 : Connection = record c0 { address = a } in
      let c2 : Connection = record c1 { readable = record { exec = recv_on p; flags = 0 } ∷ [] } in
      let c3 : Connection = record c2 {
        writeable = record { exec = flush_on p; flags = 0 } ∷ [];
      } in
      let c4 : Connection = record c3 {
        closed = record { exec = client_disconnected p; flags = 0 } ∷ c0.closed;
      } in
      Returns-bind
        (store-Returns is_open w p c0 (λ c. record c { address = a }) w refl refl down
          (v.owned p c0 live)
          (IsModest-made p c1 tt tt tt (omega arith) (omega arith) (omega arith) (omega arith) up)
          ((v, Frame-refl is_open w), live, refl))
        λ _ t1 s1.
          Returns-bind
            (store-Returns is_open w p c1
              (λ c. record c { readable = add_callback (recv_on p) 0 c.readable }) t1 refl refl down
              (s1.0.0.owned p c1 s1.1)
              (IsModest-made p c2 (refl, tt) tt tt (omega arith) (omega arith) (omega arith)
                (omega arith) up)
              s1)
            λ _ t2 s2.
              Returns-bind
                (store-Returns is_open w p c2
                  (λ c. record c { writeable = add_callback (flush_on p) 0 c.writeable }) t2 refl
                  refl down (s2.0.0.owned p c2 s2.1)
                  (IsModest-made p c3 (refl, tt) (refl, tt) tt (omega arith) (omega arith)
                    (omega arith) (omega arith) up)
                  s2)
                λ _ t3 s3.
                  Returns-bind
                    (store-Returns is_open w p c3
                      (λ c. record c { closed = add_callback (client_disconnected p) 0 c.closed })
                      t3 refl refl down
                      (record {
                        owner = clients;
                        key = fd;
                        notices = record { exec = client_disconnected p; flags = 0 } ∷ [];
                        shape = refl;
                        all_notices = ((refl, refl, refl), tt);
                        entry = ap (λ m. map_find fd (m clients)) s3.2 ∙ found;
                      })
                      (IsModest-made p c4 (refl, tt) (refl, tt) tt (omega arith) (omega arith)
                        (omega arith) (omega arith) up)
                      s3)
                    λ _ t4 s4.
                      let c5 : Connection = record c4 {
                        recv = record { exec = server_receive p; flags = 0 } ∷ [];
                      } in
                      Returns-bind
                        (store-Returns is_open w p c4
                          (λ c. record c { recv = add_callback (server_receive p) 0 c.recv }) t4
                          refl refl down (s4.0.0.owned p c4 s4.1)
                          (IsModest-made p c5 (refl, tt) (refl, tt) (refl, tt) (omega arith)
                            (omega arith) (omega arith) (omega arith) up)
                          s4)
                        λ _ t5 s5.
                          Reached-then is_open w t5
                            (server_execute sys user (tcp accept)
                              (λ n. connection_event (tcp accept) n p))
                            s5.0
                            (server_execute_single-Returns is_open sys user hooks (tcp accept)
                              (λ n. connection_event (tcp accept) n p) t5
                              (Memᴰ.tail (Memᴰ.tail (third refl))) refl s5.0.0
                              (λ n. ((c5, s5.1), λ single. (c5, s5.1, down))))
