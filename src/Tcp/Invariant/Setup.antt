-- ===== src/Tcp/Invariant/Setup.antt =====
-- The calls that a server and a client make on a socket that they have just made, up to its first event:
-- the state is the one before, with one more object and its entry.
use unisock.Prelude.{
  ◌≡◌, refl, ℤ, is_neg, is_pos, Bool, true, false, some, [], ◌∷◌, if◌then◌else◌, arith, inl, inr,
  Bool-cases, ℕ, Cmd, Returns, returns, Returns-bind,
}
use unisock.Events.Action.{add_callback, is_queued_end, stops_after}
use unisock.Events.Action.Returns.{execute_single-Returns}
use unisock.Events.Handler.{Ptr}
use unisock.Socket.System.{Bytes, System, af_inet, af_inet6}
use unisock.Socket.Address.{
  addrinfo, empty_address, family, write_port, sockaddr_in, sockaddr_in6, address_family_of, size,
}
use unisock.Socket.Address.Resolve.{lookup}
use unisock.Socket.Address.Answers.{addrinfo-family, set_port-family, retry_keeps}
use unisock.Socket.World.{Owner, erase_from, ClosedFn, Connection, UserCall, World, store, map_find}
use unisock.Socket.World.Memory.{load-live}
use unisock.Socket.Object.{new_connection, on_closed, bind, execute_error}
use unisock.Socket.Container.{erase_flags}
use unisock.Tcp.Connection.{listen, connect}
use unisock.Tcp.Server.{resolve, assign_port, is_success-success}
use unisock.Tcp.Invariant.{IsModest, OwnClosed, erases}
use unisock.Tcp.Invariant.Kernel.{HasSetup}
use unisock.Tcp.Invariant.Keeps.{Reached, Reached-kernel, is_pos-not_neg, Frame-refl, Frame-trans}
use unisock.Tcp.Invariant.Welcome.{owned_connection, Stored, store-Returns, IsModest-made}

-- A new object with a notice of its closing and an address.
abbrev pub noticed : Owner → ℤ → ClosedFn → Bytes → Connection
noticed o fd f a = record (owned_connection o fd) {
  closed =
      record { exec = f; flags = 0 } ∷ record { exec = erase_from o fd; flags = erase_flags } ∷ [];
  address = a;
}

pub IsModest-noticed :
    (p : Ptr) (o : Owner) (fd : ℤ) (f : ClosedFn) (a : Bytes)
    → is_pos fd ≡ true
    → IsModest p (noticed o fd f a)
unfolding new_connection
IsModest-noticed p o fd f a up =
    IsModest-made p (noticed o fd f a) tt tt tt (omega arith) (omega arith) (omega arith)
      (omega arith) up

module _ {K : Type 0} (is_open : K → ℤ → Bool) (sys : System K) (setup : HasSetup is_open sys)
    (user : UserCall → Cmd (World K) (Unit {0})) where
  module _ (w : World K) (p : Ptr) (o : Owner) (fd : ℤ) (up : is_pos fd ≡ true) (f : ClosedFn) where
    -- `on<CLOSED>` of the server or the client.
    pub on_closed-Returns :
        (t : World K)
        → erases f ≡ false
        → OwnClosed p f
        → map_find fd (t.containers o) ≡ some p
        → Reached is_open w t
        → t.heap p ≡ some (owned_connection o fd)
        → Returns (λ _. Stored is_open t p (noticed o fd f empty_address)) (on_closed p f 0 t)
    unfolding on_closed add_callback new_connection is_queued_end stops_after
    on_closed-Returns t notice own found r live =
        store-Returns is_open t p (owned_connection o fd)
          (λ c. record c { closed = add_callback f 0 c.closed }) t refl refl (is_pos-not_neg fd up)
          (record {
            owner = o;
            key = fd;
            notices = record { exec = f; flags = 0 } ∷ [];
            shape = refl;
            all_notices = ((refl, notice, own), tt);
            entry = found;
          })
          (IsModest-noticed p o fd f empty_address up) ((r.0, Frame-refl is_open t), live, refl)

    abbrev pub Ready : Bytes → World K → Type 0
    Ready a = Stored is_open w p (noticed o fd f a)

    -- A system call that closes nothing.
    Ready-kernel :
        (a : Bytes) (t : World K) (k : K)
        → ((x : ℤ) → is_open t.kernel x ≡ true → is_open k x ≡ true)
        → Ready a t
        → Ready a (record t { kernel = k })
    Ready-kernel a t k opens s =
        let r = Reached-kernel is_open t k opens s.0.0 in
        ((r.0, Frame-trans is_open w t _ s.0.1 r.1), s.1, s.2)

    address-Returns :
        (a b : Bytes) (t : World K)
        → Ready a t
        → Returns (λ _. Ready b) (store p (λ d. record d { address = b }) t)
    unfolding new_connection
    address-Returns a b t s =
        store-Returns is_open w p (noticed o fd f a) (λ d. record d { address = b }) t refl refl
          (is_pos-not_neg fd up) (s.0.0.owned p (noticed o fd f a) s.1)
          (IsModest-noticed p o fd f b up) s

    -- `addrinfo` into the address of the socket: when it succeeds, with the family that was asked for.
    pub resolve-Returns :
        (hostname : Bytes) (fam : ℕ) (a : Bytes) (t : World K)
        → Ready a t
        → Returns
            (λ found u. (b : Bytes) × Ready b u × (found ≡ true → family b ≡ fam))
            (resolve sys user p hostname fam t)
    unfolding resolve addrinfo
    resolve-Returns hostname fam a t s =
        let r = addrinfo sys a hostname fam t.kernel in
        rw (load-live p t s.1) (
          Returns-bind
            (address-Returns a r.1 (record t { kernel = r.2 })
              (Ready-kernel a t r.2
                (λ x.
                  retry_keeps (lookup sys hostname fam) (λ k. is_open k x ≡ true)
                    (λ k. setup.getaddrinfo_keeps hostname fam x k) 3 t.kernel)
                s))
            λ _ u q. returns (
              r.1,
              q,
              λ found.
                  addrinfo-family sys hostname fam a t.kernel (setup.answers_family hostname fam)
                    (is_success-success r.0 found),
            ))

    pub assign_port-Returns :
        (port : ℕ) (use_ipv6 : Bool) (a : Bytes) (t : World K)
        → family a ≡ (if use_ipv6 then af_inet6 else af_inet)
        → Ready a t
        → Returns (λ _. Ready (write_port port a)) (assign_port sys user p port use_ipv6 t)
    unfolding assign_port address_family_of
    assign_port-Returns port true a t asked s =
        rw (load-live p t s.1) (
          rw (set_port-family sockaddr_in6 port a asked)
            (address-Returns a (write_port port a) t s))
    assign_port-Returns port false a t asked s =
        rw (load-live p t s.1) (
          rw (set_port-family sockaddr_in port a asked) (address-Returns a (write_port port a) t s))

    -- `bind`, which reports to no hook, since a new object has none.
    pub bind-Returns :
        (a : Bytes) (t : World K) → Ready a t → Returns (λ _. Ready a) (bind sys user p t)
    unfolding bind execute_error new_connection
    bind-Returns a t s =
        let r = sys.bind fd a (size a) t.kernel in
        let s' = Ready-kernel a t r.1 (λ x. setup.bind_keeps fd x a (size a) t.kernel) s in
        rw (load-live p t s.1) (elim (Bool-cases (is_neg r.0)) [
          | inl failed ↦
              rw (failed, load-live p (record t { kernel = r.1 }) s'.1)
                (Returns-bind
                  (execute_single-Returns _ _ (Ready a) [] (record t { kernel = r.1 }) (omega arith)
                    (rw s'.1 refl) tt s')
                  λ _ u q. returns q)
          | inr bound ↦ rw bound (returns s')
        ])

    pub listen-Returns :
        (a : Bytes) (t : World K) → Ready a t → Returns (λ _. Ready a) (listen sys user p t)
    unfolding listen new_connection
    listen-Returns a t s =
        let r = sys.listen fd 10 t.kernel in
        rw (load-live p t s.1)
          (returns (Ready-kernel a t r.1 (λ x. setup.listen_keeps fd x 10 t.kernel) s))

    pub connect-Returns :
        (a : Bytes) (t : World K) → Ready a t → Returns (λ _. Ready a) (connect sys user p t)
    unfolding connect new_connection
    connect-Returns a t s =
        let r = sys.connect fd a (size a) t.kernel in
        rw (load-live p t s.1)
          (returns (Ready-kernel a t r.1 (λ x. setup.connect_keeps fd x a (size a) t.kernel) s))
