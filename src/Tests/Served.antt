-- ===== src/Tests/Served.antt =====
-- A server with one client connected, which satisfies the invariant of the shared state.
use unisock.Prelude.{
  is_neg, ℕ, suc, ◌<◌, ◌≡◌, refl, ℤ, pos, negsuc, Bool, true, false, none, some, List, [], ◌∷◌, All,
  arith, returns, ltb, ltb→lt, lt→ltb, le→ltb,
}
use unisock.Events.ActionHandler.{init_actions}
use unisock.Events.ActionHandler.Laws.{get_action-init}
use unisock.Events.Action.{stops_after}
use unisock.Events.Tags.{server_actions_list, client_actions_list}
use unisock.Events.Handler.{Ptr, Handler}
use unisock.Socket.System.{System}
use unisock.Socket.World.{
  Owner, clients, listeners, connections, recv_on, flush_on, erase_from, client_disconnected,
  server_receive, Connection, World, put_object, map_find,
}
use unisock.Socket.World.Memory.{put_object-all}
use unisock.Socket.Container.{erase_flags}
use unisock.Tcp.Invariant.{HasObject, Distinct, IsCalm, IsOwned, IsModest, Inv, KeepsHooks}
use unisock.Tcp.Invariant.Kernel.{HasDescriptors}
use unisock.Tcp.Steady.{Moved-refl, IsSteady}
use unisock.Tcp.Invariant.Keeps.{Frame-refl}
use unisock.Tests.Fixtures.{no_hooks, sockets}

abbrev pub served : Connection
served = record {
  sock = pos 3;
  address = [];
  send_buffer = [];
  readable = record { exec = recv_on 1; flags = 0 } ∷ [];
  writeable = record { exec = flush_on 1; flags = 0 } ∷ [];
  closed =
      record { exec = client_disconnected 1; flags = 0 }
      ∷ record { exec = erase_from clients (pos 3); flags = erase_flags }
      ∷ [];
  error = [];
  recv = record { exec = server_receive 1; flags = 0 } ∷ [];
}

abbrev one_row : Handler
one_row = record {
  sockets = record { fd = pos 3; events = 1; revents = 1 } ∷ [];
  socket_ptrs = 1 ∷ [];
  invalid = 1;
}

abbrev entries : Owner → List (ℤ × Ptr)
entries listeners = []
entries clients = (pos 3, 1) ∷ []
entries connections = []

abbrev before : {K : Type 0} → K → World K
before k = record {
  kernel = k;
  handler = one_row;
  heap = λ p. none;
  next_ptr = 2;
  containers = entries;
  server_actions = init_actions (server_actions_list []);
  client_actions = init_actions (client_actions_list []);
}

abbrev pub serving : {K : Type 0} → K → World K
serving k = put_object 1 (some served) (before k)

module _ {K : Type 0} (is_open : K → ℤ → Bool) (k : K) (stdin : is_open k (pos 0) ≡ true)
    (three : is_open k (pos 3) ≡ true) where
  serving-IsOwned : IsOwned (serving k) 1 served.closed
  unfolding put_object map_find stops_after
  serving-IsOwned = record {
    owner = clients;
    key = pos 3;
    notices = record { exec = client_disconnected 1; flags = 0 } ∷ [];
    shape = refl;
    all_notices = ((refl, refl, refl), tt);
    entry = refl;
  }

  served-IsModest : IsModest 1 served
  served-IsModest = record {
    readable = (refl, tt);
    writeable = (refl, tt);
    recv = (refl, tt);
    one_readable = omega arith;
    one_writeable = omega arith;
    one_error = omega arith;
    one_recv = omega arith;
    positive = λ _. refl;
  }

  serving_entries : (o : Owner) → All (HasObject (serving k) o) (entries o)
  unfolding put_object
  serving_entries listeners = tt
  serving_entries clients = ((served, refl, refl), tt)
  serving_entries connections = tt

  serving_keys : (o : Owner) → Distinct (entries o)
  serving_keys listeners = tt
  serving_keys clients = (tt, tt)
  serving_keys connections = tt

  pub serving-Inv : Inv is_open (serving k)
  unfolding put_object
  serving-Inv = record {
    aligned = refl;
    distinct = (tt, tt);
    rows = ((served, refl, refl, refl, three), tt);
    owned =
        put_object-all 1 served (before k) (λ q x. IsOwned (serving k) q x.closed) serving-IsOwned
          (λ q x e. absurd (cc e));
    modest = put_object-all 1 served (before k) IsModest served-IsModest (λ q x e. absurd (cc e));
    entries = λ o. serving_entries o;
    keys = λ o. serving_keys o;
    fresh =
        put_object-all 1 served (before k) (λ q x. q < 2) (omega arith) (λ q x e. absurd (cc e));
    stdin = stdin;
    server_tags =
        λ t m. ([], get_action-init t (server_actions_list []) m, (λ single. omega arith));
    client_tags =
        λ t m. ([], get_action-init t (client_actions_list []) m, (λ single. omega arith));
  }

pub serving-IsCalm : {K : Type 0} (k : K) → IsCalm (serving k)
serving-IsCalm k =
    put_object-all 1 served (before k) (λ q x. is_neg x.sock ≡ false) refl (λ q x e. absurd (cc e))

pub no_hooks-KeepsHooks : {K : Type 0} (is_open : K → ℤ → Bool) → KeepsHooks is_open no_hooks
no_hooks-KeepsHooks is_open call w v callable = returns (v, Frame-refl is_open w)

-- A kernel that gives the descriptors one after the other and closes none; every stream is at its end.
abbrev pub numbered : System ℕ
numbered = record sockets {
  accept = λ fd k. (pos k, [], suc k);
  recv = λ fd n k. (pos 0, [], k);
  send = λ fd m k. (pos 0, k);
  close = λ fd k. k;
  poll = λ ss timeout k. (pos 1, 1 ∷ [], k);
}

abbrev pub given : ℕ → ℤ → Bool
given k (pos n) = ltb n k
given k (negsuc n) = false

pub given-suc : (fd : ℤ) (k : ℕ) → given k fd ≡ true → given (suc k) fd ≡ true
given-suc (pos n) k e = lt→ltb n (suc k) (omega (arith, ltb→lt n k e))
given-suc (negsuc n) k e = e

pub numbered-HasDescriptors : HasDescriptors given numbered
numbered-HasDescriptors = record {
  accept_new = λ s k up. le→ltb k k (omega arith);
  accept_opens = λ s k up. lt→ltb k (suc k) (omega arith);
  accept_keeps = λ s fd k open_before. given-suc fd k open_before;
  close_keeps = λ s fd k ne open_before. open_before;
  send_keeps = λ s fd m k open_before. open_before;
  recv_keeps = λ s fd n k open_before. open_before;
  poll_keeps = λ ss timeout fd k open_before. open_before;
}

pub no_hooks-IsSteady : {K : Type 0} → IsSteady {K = K} no_hooks
no_hooks-IsSteady call w = Moved-refl 0 w.handler
