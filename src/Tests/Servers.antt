-- ===== src/Tests/Servers.antt =====
-- The theorems on the round trip test's server and on the tcp server, at concrete inputs.
use unisock.Prelude.{ℕ, ◌≡◌, ◌≢◌, ◌⊎◌, refl, arith, false, some, [], ◌∷◌, ok, and_then, Returns}
use unisock.Events.ActionHandler.{init_actions}
use unisock.Events.Tags.{client_actions_list}
use unisock.Socket.World.{listeners, clients, World}
use unisock.Tcp.Connection.{send}
use unisock.Tcp.Invariant.{Inv}
use unisock.Tcp.Requests.{started}
use unisock.Examples.Running.{no_socket_hooks}
use unisock.Examples.RttServer.{
  message_str, message_size, Counted, with_counts, Screen, rtt_hooks, rtt_main, rtt_begin,
}
use unisock.Examples.RttServer.Lambdas.{counted_open, IsScreen}
use unisock.Examples.RttServer.Runs.{rtt_main-Returns}
use unisock.Examples.RttServer.Answers.{receive_all, reads, receive_all-answers}
use unisock.Examples.TcpServer.{Journal, close_message, on_message}
use unisock.Examples.TcpServer.Lambdas.{IsClosed, IsJournal, on_message-Returns}
use unisock.Socket.World.Memory.{heap-put_object}
use unisock.Tcp.Invariant.Keeps.{Reached}
use unisock.Tests.Fixtures.{waiting, sockets}
use unisock.Tests.Served.{
  given, served, serving, serving-Inv, serving-IsCalm, numbered, numbered-HasDescriptors,
}
use unisock.Tests.Idle.{idle, idle-HasDescriptors, idle-HasSetup}
use unisock.Tests.Requests.{init_actions-HasActions}
use unisock.Tests.Consoles.{no_name}

-- Output that the state of the kernel does not count.
abbrev dark : Screen ℕ
dark = record {
  write = λ m k. k;
  print_listening = λ ip s k. k;
  print_too_many = λ n k. k;
  print_missing = λ n k. k;
  print_error = λ func err k. k;
}

dark-IsScreen : IsScreen given dark
dark-IsScreen = record {
  write_keeps = λ m fd k o. o;
  listening_keeps = λ ip s fd k o. o;
  too_many_keeps = λ n fd k o. o;
  missing_keeps = λ n fd k o. o;
  error_keeps = λ func err fd k o. o;
}

rtt_main-Returns_example :
    Returns
      (λ running t.
        Inv (counted_open given) t
        × (running ≡ false → (t.containers clients ≡ []) × (t.containers listeners ≡ [])))
      (rtt_main
        (with_counts idle)
        (rtt_hooks idle no_name dark)
        2
        (rtt_begin 4 0 (init_actions (client_actions_list []))))
rtt_main-Returns_example =
    rtt_main-Returns given idle idle-HasDescriptors idle-HasSetup no_name dark dark-IsScreen 2 4 0
      (init_actions (client_actions_list [])) refl
      (init_actions-HasActions (client_actions_list []))

-- A connection that has counted all bytes but five.
abbrev nearly : World (Counted ℕ)
nearly = record (started (0, λ p. 65531) 0 [] []) { heap = λ p. some waiting }

receive_all-answers_example :
    (u : World (Counted ℕ)) × (receive_all sockets no_name dark 1
        ((1 ∷ 2 ∷ []) ∷ (3 ∷ 4 ∷ 5 ∷ []) ∷ [])
        nearly
      ≡ and_then (send (with_counts sockets) no_socket_hooks 1 message_str u) (λ _. ok tt))
    × (u.heap ≡ nearly.heap)
    × (u.handler ≡ nearly.handler)
    × (u.kernel.0
        ≡ dark.write
            (42 ∷ [])
            (reads sockets no_name dark 1 ((1 ∷ 2 ∷ []) ∷ (3 ∷ 4 ∷ 5 ∷ []) ∷ []) 0))
    × (u.kernel.1 1 ≡ message_size)
receive_all-answers_example =
    receive_all-answers sockets no_name dark 1 ((1 ∷ 2 ∷ []) ∷ []) (3 ∷ 4 ∷ 5 ∷ []) nearly waiting
      refl (omega arith) refl

abbrev unwritten : Journal ℕ
unwritten = record {
  print_listening = λ ip s k. k;
  print_closed = λ ip k. k;
  print_received = λ ip m k. k;
  print_closing = λ k. k;
  print_connected = λ ip k. k;
  print_disconnected = λ ip k. k;
  print_error = λ func err k. k;
}

unwritten-IsJournal : IsJournal given unwritten
unwritten-IsJournal = record {
  listening_keeps = λ ip s fd k o. o;
  closed_keeps = λ ip fd k o. o;
  received_keeps = λ ip m fd k o. o;
  closing_keeps = λ fd k o. o;
  connected_keeps = λ ip fd k o. o;
  disconnected_keeps = λ ip fd k o. o;
  error_keeps = λ func err fd k o. o;
}

on_message-Returns_example :
    Returns
      (λ _ t.
        Reached given (serving 4) t
        × (((close_message ≡ b'c' ∷ b'l' ∷ b'o' ∷ b's' ∷ b'e' ∷ 10 ∷ []) × IsClosed t)
            ⊎ ((close_message ≢ b'c' ∷ b'l' ∷ b'o' ∷ b's' ∷ b'e' ∷ 10 ∷ [])
                × (t ≡ record (serving 4) { kernel = (serving {K = ℕ} 4).kernel }))))
      (on_message numbered no_name unwritten 1 close_message (serving 4))
on_message-Returns_example =
    on_message-Returns given no_name unwritten unwritten-IsJournal numbered numbered-HasDescriptors
      1 close_message (serving 4) served (serving-Inv given 4 refl refl)
      (heap-put_object 1 _ (some served)) refl (serving-IsCalm {K = ℕ} 4)
