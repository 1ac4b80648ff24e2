-- ===== src/Tests/Examples.antt =====
-- The theorems on the programs of examples, at concrete inputs.
use unisock.Prelude.{ℕ, ◌≡◌, refl, false, Option, none, [], Returns}
use unisock.Events.ActionHandler.{init_actions}
use unisock.Events.Tags.{client_actions_list, server_actions_list}
use unisock.Socket.System.{Bytes}
use unisock.Socket.World.{listeners, clients, connections}
use unisock.Tcp.Invariant.{Inv}
use unisock.Examples.SpeedServer.{Output, hooks, main, begin}
use unisock.Examples.SpeedServer.Lambdas.{IsOutput}
use unisock.Examples.TcpClient.{Printer, client_hooks, client_main, client_begin}
use unisock.Examples.TcpClient.Lambdas.{IsPrinter}
use unisock.Examples.TcpClient.Runs.{client_main-Returns}
use unisock.Examples.SpeedServer.Runs.{main-Returns}
use unisock.Tests.Served.{given}
use unisock.Tests.Idle.{idle, idle-HasDescriptors, idle-HasSetup}
use unisock.Tests.Requests.{init_actions-HasActions}

-- Output that the state of the kernel does not count.
abbrev silent : Output ℕ
silent = record { write = λ m k. k; print_listening = λ ip s k. k; print_error = λ func err k. k }

silent-IsOutput : IsOutput given silent
silent-IsOutput = record {
  write_keeps = λ m fd k o. o;
  listening_keeps = λ ip s fd k o. o;
  error_keeps = λ func err fd k o. o;
}

abbrev no_text : ℕ → Bytes → ℕ → Option Bytes
no_text af address size = none

main-Returns_example :
    Returns
      (λ running t.
        Inv given t
        × (running ≡ false → (t.containers clients ≡ []) × (t.containers listeners ≡ [])))
      (main idle (hooks no_text silent) 2 (begin 4 0 (init_actions (client_actions_list []))))
main-Returns_example =
    main-Returns given idle idle-HasDescriptors idle-HasSetup no_text silent silent-IsOutput 2 4 0
      (init_actions (client_actions_list [])) refl
      (init_actions-HasActions (client_actions_list []))

abbrev mute : Printer ℕ
mute = record {
  print_handler = λ k. k;
  print_connected = λ ip k. k;
  print_closed = λ ip k. k;
  print_received = λ ip m k. k;
  print_failure = λ func err k. k;
}

mute-IsPrinter : IsPrinter given mute
mute-IsPrinter = record {
  handler_keeps = λ fd k o. o;
  connected_keeps = λ ip fd k o. o;
  closed_keeps = λ ip fd k o. o;
  received_keeps = λ ip m fd k o. o;
  failure_keeps = λ func err fd k o. o;
}

client_main-Returns_example :
    Returns
      (λ running t. Inv given t × (running ≡ false → t.containers connections ≡ []))
      (client_main idle mute
        (client_hooks idle no_text mute)
        2
        (client_begin 4 0 (init_actions (server_actions_list []))))
client_main-Returns_example =
    client_main-Returns given idle idle-HasDescriptors idle-HasSetup no_text mute mute-IsPrinter 2 4
      0 (init_actions (server_actions_list [])) refl
      (init_actions-HasActions (server_actions_list []))
