-- ===== src/Tests/Idle.antt =====
-- A kernel with which no callback of a program without hooks changes the state: what is received has
-- one byte, nothing can be sent, and nobody connects.
use unisock.Prelude.{ℕ, suc, lt→ltb, le→ltb, arith, refl, pos, negsuc, [], ◌∷◌}
use unisock.Socket.System.{System}
use unisock.Tcp.Invariant.Kernel.{HasDescriptors, HasSetup}
use unisock.Tests.Fixtures.{sockets}
use unisock.Tests.Served.{given, given-suc}
use unisock.Socket.Address.{family}

abbrev pub idle : System ℕ
idle = record sockets {
  socket = λ domain type protocol k. (pos k, suc k);
  close = λ fd k. k;
  accept = λ fd k. (negsuc 0, [], k);
  recv = λ fd n k. (pos 1, 7 ∷ [], k);
  send = λ fd m k. (negsuc 0, k);
  poll = λ ss timeout k. (pos 1, 1 ∷ [], k);
}

pub idle-HasDescriptors : HasDescriptors given idle
idle-HasDescriptors = record {
  accept_new = λ s k up. absurd (cc up);
  accept_opens = λ s k up. absurd (cc up);
  accept_keeps = λ s fd k o. o;
  close_keeps = λ s fd k ne o. o;
  send_keeps = λ s fd m k o. o;
  recv_keeps = λ s fd n k o. o;
  poll_keeps = λ ss timeout fd k o. o;
}

pub idle-HasSetup : HasSetup given idle
unfolding family
idle-HasSetup = record {
  socket_new = λ domain type protocol k up. le→ltb k k (omega arith);
  socket_opens = λ domain type protocol k up. lt→ltb k (suc k) (omega arith);
  socket_keeps = λ domain type protocol fd k o. given-suc fd k o;
  bind_keeps = λ s fd a n k o. given-suc fd k o;
  listen_keeps = λ s fd n k o. given-suc fd k o;
  connect_keeps = λ s fd a n k o. given-suc fd k o;
  getaddrinfo_keeps = λ hostname fam fd k o. given-suc fd k o;
  answers_family = λ hostname fam k. (omega arith, omega arith, refl);
}
