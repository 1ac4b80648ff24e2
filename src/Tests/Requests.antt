-- ===== src/Tests/Requests.antt =====
-- The theorems on what a TCP program may call, at concrete inputs.
use Prim.Native.String.{String}
use unisock.Prelude.{
  ◌≡◌, refl, ℕ, ℤ, false, true, List, [], suc, ◌+◌, length, arith, Run, ok, fault, Returns, returns,
}
use unisock.Events.ActionHandler.{ActionHandler, init_actions}
use unisock.Events.ActionHandler.Laws.{get_action-init}
use unisock.Events.Tags.{Tag, server_actions_list, client_actions_list}
use unisock.Socket.Container.{make_socket}
use unisock.Socket.Address.{addrinfo, family}
use unisock.Socket.World.{
  put_container, listeners, clients, connections, socket_event, connection_event, error_event,
  UserCall, World, put_object,
}
use unisock.Tcp.Server.{listen, close_server}
use unisock.Tcp.Client.{connect}
use unisock.Tcp.Invariant.{IsCalm, Inv, HasActions}
use unisock.Tcp.Invariant.Keeps.{Reached, Frame-refl}
use unisock.Tcp.Invariant.Spares.{Spares}
use unisock.Tcp.Invariant.Listen.{listen-Returns}
use unisock.Tcp.Invariant.Connect.{connect-Returns}
use unisock.Tcp.Invariant.Quiet.{IsQuiet}
use unisock.Tcp.Requests.{listen_at, started, perform, Reaches, here, after}
use unisock.Tcp.Requests.Reach.{perform-Reaches}
use unisock.Tcp.Requests.Closing.{close_server-Reaches}
use unisock.Tests.Fixtures.{no_hooks}
use unisock.Tests.Served.{no_hooks-IsSteady, serving, serving-Inv, no_hooks-KeepsHooks, given}
use unisock.Tests.Programs.{echo, echo-KeepsHooks}
use unisock.Tests.Idle.{idle, idle-HasDescriptors, idle-HasSetup}
use unisock.Tcp.Steady.Loop.{on_readable-IsShort, on_writeable-IsShort}

no_hooks-Spares :
    (n : ℕ) (function : String) (err : ℤ) → Spares given (no_hooks (error_event n function err))
no_hooks-Spares n function err w v = returns ((v, Frame-refl given w), λ p c live. (c, live))

echo-Spares :
    (n : ℕ) (function : String) (err : ℤ) → Spares given (echo idle (error_event n function err))
echo-Spares n function err w v = returns ((v, Frame-refl given w), λ p c live. (c, live))

listen-Returns_example :
    Returns (λ _. Reached given (serving 4)) (listen idle (echo idle) [] 80 false (serving 4))
listen-Returns_example =
    listen-Returns given idle idle-HasDescriptors idle-HasSetup (echo idle)
      (echo-KeepsHooks idle given idle-HasDescriptors) echo-Spares [] 80 false (serving 4)
      (serving-Inv given 4 refl refl)

connect-Returns_example :
    Returns (λ _. Reached given (serving 4)) (connect idle (echo idle) [] 80 true (serving 4))
connect-Returns_example =
    connect-Returns given idle idle-HasDescriptors idle-HasSetup (echo idle)
      (echo-KeepsHooks idle given idle-HasDescriptors) echo-Spares [] 80 true (serving 4)
      (serving-Inv given 4 refl refl)

abbrev server : ActionHandler ℕ
server = init_actions (server_actions_list [])

abbrev client : ActionHandler ℕ
client = init_actions (client_actions_list [])

pub init_actions-HasActions : (tags : List Tag) → HasActions tags (init_actions tags)
init_actions-HasActions tags t m = ([], get_action-init t tags m, λ single. omega arith)

perform-Reaches_example :
    Inv given (started 4 0 server client)
    × IsCalm (started {K = ℕ} 4 0 server client)
    × Returns
        (λ _ u. Inv given u × Reaches idle no_hooks (started 4 0 server client) u)
        (perform idle no_hooks (listen_at [] 80 false) (started 4 0 server client))
perform-Reaches_example =
    perform-Reaches given idle idle-HasDescriptors idle-HasSetup no_hooks
      (no_hooks-KeepsHooks given) no_hooks-Spares
      (on_readable-IsShort idle no_hooks no_hooks-IsSteady given)
      (on_writeable-IsShort idle no_hooks no_hooks-IsSteady given) 4 0 server client
      (started 4 0 server client) (listen_at [] 80 false) refl
      (init_actions-HasActions (server_actions_list []))
      (init_actions-HasActions (client_actions_list [])) here tt

abbrev four : World ℕ
four = serving 4

no_hooks-IsQuiet : (call : UserCall) → IsQuiet given (no_hooks call)
no_hooks-IsQuiet call w v = returns ((v, Frame-refl given w), refl, refl)

abbrev listen_run : Run (World ℕ) (Unit {0})
listen_run = perform idle no_hooks (listen_at [] 80 false) (started 4 0 server client)

abbrev state_of : Run (World ℕ) (Unit {0}) → World ℕ
state_of (ok a t) = t
state_of (fault e) = four

-- A server that listens.
abbrev listening : World ℕ
listening = state_of listen_run

listen_run-ok : listen_run ≡ ok tt listening
unfolding perform listen make_socket put_object put_container addrinfo family
    unisock.Socket.World.map_find unisock.Socket.Object.on_closed unisock.Socket.World.store
    unisock.Socket.World.load unisock.Socket.Address.set_port unisock.Socket.Address.to
    unisock.Socket.Object.bind unisock.Tcp.Connection.listen unisock.Socket.Object.on_readable
    unisock.Socket.Object.server_execute unisock.Events.ActionHandler.get_action init_actions
    unisock.Events.Tags.same_tag unisock.Events.Action.execute
listen_run-ok = refl

close_server-Reaches_example :
    Returns
      (λ _ u. Inv given u × (u.containers clients ≡ []) × (u.containers listeners ≡ []))
      (close_server idle no_hooks
        (suc (length (listening.containers clients) + length (listening.containers listeners)))
        listening)
close_server-Reaches_example =
    close_server-Reaches given idle idle-HasDescriptors idle-HasSetup no_hooks
      (no_hooks-KeepsHooks given) no_hooks-Spares
      (on_readable-IsShort idle no_hooks no_hooks-IsSteady given)
      (on_writeable-IsShort idle no_hooks no_hooks-IsSteady given)
      (λ n. no_hooks-IsQuiet (socket_event n))
      (λ t n p closing w v live. no_hooks-IsQuiet (connection_event t n p) w v) 4 0 server client
      listening refl (init_actions-HasActions (server_actions_list []))
      (init_actions-HasActions (client_actions_list []))
      (after (listen_at [] 80 false) here tt listen_run-ok)
