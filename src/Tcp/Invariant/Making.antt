-- ===== src/Tcp/Invariant/Making.antt =====
-- `make_socket`: no new object where the kernel gives no descriptor or the container has it as a key,
-- else one with its entry.
use unisock.Prelude.{
  ◌≡◌, ap, ℤ, is_neg, is_pos, Bool, true, none, some, inl, inr, Bool-cases, ℕ, Option, Option-cases,
  All-map, All, Cmd, Returns, returns,
}
use unisock.Events.Action.{add_callback}
use unisock.Events.Handler.{Ptr, add_socket}
use unisock.Events.Handler.Table.{table}
use unisock.Socket.System.{System}
use unisock.Socket.Address.{empty_address}
use unisock.Socket.World.{Owner, UserCall, World, put_object, put_container, map_find, map_insert}
use unisock.Socket.World.Memory.{heap-put_object}
use unisock.Socket.Object.{base_open, new_connection}
use unisock.Socket.Container.{make_socket, insert_socket, insert_new}
use unisock.Tcp.Invariant.{Inv}
use unisock.Tcp.Invariant.Kernel.{HasSetup}
use unisock.Tcp.Invariant.Rows.{IsNot}
use unisock.Tcp.Invariant.Keeps.{Reached, Reached-kernel, is_pos-not_neg, Frame-trans}
use unisock.Tcp.Invariant.Welcome.{owned_connection}
use unisock.Tcp.Invariant.Inserted.{Inv-inserted, Frame-inserted, new_entry, is_pos-new}

module _ {K : Type 0} (is_open : K → ℤ → Bool) where
  -- A new object and its entry, in a state that is reached from another.
  pub record Made (w : World K) (o : Owner) (fd : ℤ) (p : Ptr) (t : World K) : Type 0 where
    pub reached : Reached is_open w t
    pub object : t.heap p ≡ some (owned_connection o fd)
    pub positive : is_pos fd ≡ true
    pub entry : map_find fd (t.containers o) ≡ some p

  -- What `make_socket` and `_insert_socket` give.
  abbrev pub MakesIn : World K → Owner → Option Ptr → World K → Type 0
  MakesIn w o none t = Reached is_open w t
  MakesIn w o (some p) t = (fd : ℤ) × Made w o fd p t

module _ {K : Type 0} (is_open : K → ℤ → Bool) (sys : System K) (setup : HasSetup is_open sys)
    (user : UserCall → Cmd (World K) (Unit {0})) where
  insert_socket-Returns :
      (w u : World K) (o : Owner) (fd : ℤ)
      → Reached is_open w u
      → is_pos fd ≡ true
      → is_open u.kernel fd ≡ true
      → All (IsNot fd) (table u.handler)
      → Returns (MakesIn is_open w o) (insert_socket sys user o (new_connection fd) u)
  unfolding insert_socket insert_new add_callback new_connection put_object add_socket put_container
      empty_address
  insert_socket-Returns w u o fd r up opened fresh_fd =
      elim (Option-cases (map_find fd (u.containers o))) [
        | inr (q, taken) ↦ rw (taken, insert_socket) (returns r)
        | inl free ↦
            rw (free, insert_socket)
              (returns (
                fd,
                record {
                  reached = (
                    Inv-inserted is_open u o fd free up opened fresh_fd r.0,
                    Frame-trans is_open w u _ r.1
                        (Frame-inserted is_open u o fd (is_pos-not_neg fd up) r.0),
                  );
                  object =
                      heap-put_object u.next_ptr
                        (put_container o (map_insert fd u.next_ptr (u.containers o)) u)
                        (some (owned_connection o fd));
                  positive = up;
                  entry = new_entry is_open u o fd u.next_ptr free;
                },
              ))
      ]

  -- `make_socket`, whatever descriptor the kernel gives and whether it is a key already.
  pub make_socket-Returns :
      (o : Owner) (domain type protocol : ℕ) (w : World K)
      → Inv is_open w
      → Returns (MakesIn is_open w o) (make_socket sys user o domain type protocol w)
  unfolding make_socket base_open
  make_socket-Returns o domain type protocol w v =
      let r = sys.socket domain type protocol w.kernel in
      let u : World K = record w { kernel = r.1 } in
      let reached : Reached is_open w u =
        Reached-kernel is_open w r.1 (λ fd. setup.socket_keeps domain type protocol fd w.kernel)
          v in
      elim (Bool-cases (is_neg r.0)) [
        | inl failed ↦ rw failed (returns reached)
        | inr got ↦ rw got (
            insert_socket-Returns w u o r.0 reached
              (is_pos-new r.0 got (λ zero. cc (
                v.stdin,
                setup.socket_new domain type protocol w.kernel got,
                ap (is_open w.kernel) zero,
              )))
              (setup.socket_opens domain type protocol w.kernel got)
              (All-map
                (λ row x same. cc (
                  x.4,
                  setup.socket_new domain type protocol w.kernel got,
                  ap (is_open w.kernel) same,
                ))
                (table w.handler) v.rows))
      ]
