-- ===== src/Tests/Fixtures.antt =====
-- The inputs that the tests share: a kernel that counts its calls, programs for the event loop, and
-- states with one socket object.
use unisock.Prelude.{
  ℕ, zero, suc, ℤ, pos, none, some, List, [], ◌∷◌, ◌++◌, ok, Cmd, ◌==◌, if◌then◌else◌,
}
use unisock.Events.Handler.{Ptr, Handler, delete_socket}
use unisock.Events.Poll.{Program}
use unisock.Socket.System.{AddrInfo, Resolved, resolved, eai_again, System}
use unisock.Socket.World.{Connection, UserCall, World}

-- Two rows, of which `::poll` reported the first as readable and writeable and the second as readable.
abbrev pub two_rows : Handler
two_rows = record {
  sockets =
      record { fd = pos 3; events = 1; revents = 5 }
      ∷ record { fd = pos 4; events = 5; revents = 1 }
      ∷ [];
  socket_ptrs = 1 ∷ 2 ∷ [];
  invalid = 65535;
}

-- A program that notes which object it is called on.
abbrev pub Noted : Type 0
Noted = Handler × List Ptr

abbrev pub note : Ptr → Cmd Noted (Unit {0})
note p s = ok tt (s.0, s.1 ++ p ∷ [])

abbrev pub noting : Program Noted
noting = record {
  handler = λ s. s.0;
  sys_poll = λ timeout s. (pos 2, s);
  on_readable = note;
  on_writeable = note;
}

-- A program that closes descriptor 4 when an object can be read.
abbrev pub deletes_four : Ptr → Cmd Handler (Unit {0})
deletes_four p h = ok tt (delete_socket h (pos 4))

abbrev pub deleting : Program Handler
deleting = record {
  handler = λ h. h;
  sys_poll = λ timeout h. (pos 2, h);
  on_readable = deletes_four;
  on_writeable = λ p h. ok tt h;
}

-- `getaddrinfo` gives an address of eight bytes with this family, when it resolves.
abbrev pub found_address : ℕ → AddrInfo
found_address fam = record { ai_addr = 8 ∷ fam ∷ 0 ∷ 0 ∷ 127 ∷ 0 ∷ 0 ∷ 1 ∷ []; ai_addrlen = 8 }

-- A kernel that counts calls: `answers` says what the resolver answers, and `::send` takes as many bytes
-- as there were calls before.
abbrev pub counting : (ℕ → Resolved) → System ℕ
counting answers = record {
  errno = λ k. pos 11;
  socket = λ domain type protocol k. (pos 5, suc k);
  close = λ fd k. suc k;
  setsockopt = λ fd level name value k. (pos 0, suc k);
  getsockopt = λ fd level name size k. (pos 0, [], suc k);
  bind = λ fd a n k. (pos 0, suc k);
  listen = λ fd n k. (pos 0, suc k);
  connect = λ fd a n k. (pos 0, suc k);
  accept = λ fd k. (pos 6, [], suc k);
  send = λ fd m k. (pos k, suc k);
  sendto = λ fd m flags a n k. (pos k, suc k);
  sendmsg = λ fd m flags k. (pos k, suc k);
  recv = λ fd n k. (pos 0, [], suc k);
  recvmsg = λ fd n k. (pos 0, [], suc k);
  recvfrom = λ fd n k. (pos 0, [], [], suc k);
  poll = λ ss timeout k. (pos 0, [], suc k);
  getaddrinfo = λ host fam k. (answers k, some (found_address fam), suc k);
  getnameinfo = λ a n size k. (resolved, 108 ∷ [], suc k);
}

abbrev pub always : Resolved → ℕ → Resolved
always r k = r

-- EAI_AGAIN at the first call only.
abbrev pub second_time : ℕ → Resolved
second_time zero = eai_again
second_time (suc k) = resolved

abbrev pub sockets : System ℕ
sockets = counting (always resolved)

-- A program without hooks.
abbrev pub no_hooks : {S : Type 0} → UserCall → Cmd S (Unit {0})
no_hooks call w = ok tt w

-- A connection of descriptor 3 with two messages waiting.
abbrev pub waiting : Connection
waiting = record {
  sock = pos 3;
  address = [];
  send_buffer = (10 ∷ 11 ∷ []) ∷ (12 ∷ []) ∷ [];
  readable = [];
  writeable = [];
  closed = [];
  error = [];
  recv = [];
}

-- That connection as object 1, in a kernel with so many calls behind it, and the same entries in every
-- container.
abbrev pub world_of : ℕ → Connection → List (ℤ × Ptr) → World ℕ
world_of k c entries = record {
  kernel = k;
  handler = two_rows;
  heap = λ p. if p == 1 then some c else none;
  next_ptr = 2;
  containers = λ o. entries;
  server_actions = [];
  client_actions = [];
}
