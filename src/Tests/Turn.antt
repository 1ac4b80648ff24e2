-- ===== src/Tests/Turn.antt =====
-- The theorems on the event loop of a TCP program, at concrete inputs.
use mathlib.Core.List.{Memᴰ}
use unisock.Prelude.{fault, dangling, ◌≡◌, refl, ℕ, some, [], ◌∷◌}
use unisock.Events.ActionHandler.{get_action, init_actions}
use unisock.Events.ActionHandler.Laws.{get_action-init}
use unisock.Events.Tags.{tcp, disconnect, server_actions_list}
use unisock.Socket.World.{recv_on, user_readable, map_find, Connection}
use unisock.Tcp.Loop.Ending.{on_readable_dangling}
use unisock.Tcp.Invariant.Hooks.{third}
use unisock.Prelude.{refl, pos, some, Returns}
use unisock.Socket.World.{put_object}
use unisock.Tcp.Loop.{on_readable, poll_once}
use unisock.Tcp.Invariant.{IsCalm, Inv}
use unisock.Tcp.Invariant.Keeps.{Reached}
use unisock.Tcp.Invariant.Close.{close-Returns}
use unisock.Tcp.Invariant.Turn.{on_readable-Returns, poll_once-Returns}
use unisock.Socket.Object.{close}
use unisock.Socket.World.Memory.{heap-put_object}
use unisock.Tests.Fixtures.{no_hooks}
use unisock.Tests.Programs.{echo, echo-KeepsHooks}
use unisock.Tests.Idle.{idle, idle-HasDescriptors}
use unisock.Tcp.Steady.Loop.{on_readable-IsShort, on_writeable-IsShort}
use unisock.Tests.Served.{
  no_hooks-IsSteady, served, serving, serving-Inv, serving-IsCalm, no_hooks-KeepsHooks, numbered,
  given, numbered-HasDescriptors,
}

close-Returns_example :
    Returns (λ _. Reached given (serving 4)) (close numbered (echo numbered) 1 (serving 4))
close-Returns_example =
    close-Returns given numbered numbered-HasDescriptors (echo numbered)
      (echo-KeepsHooks numbered given numbered-HasDescriptors) (serving 4) 1 served
      (heap-put_object 1 _ (some served)) (serving-Inv given 4 refl refl)

on_readable-Returns_example :
    Returns (λ _. Reached given (serving 4)) (on_readable numbered (echo numbered) 1 (serving 4))
unfolding put_object
on_readable-Returns_example =
    on_readable-Returns given numbered numbered-HasDescriptors (echo numbered)
      (echo-KeepsHooks numbered given numbered-HasDescriptors) (serving 4) 0 1
      (serving-Inv given 4 refl refl) (serving-IsCalm {K = ℕ} 4) refl

poll_once-Returns_example :
    Returns (λ _ t. Inv given t × IsCalm t) (poll_once idle no_hooks (pos 10) (serving 4))
poll_once-Returns_example =
    poll_once-Returns given idle idle-HasDescriptors no_hooks (no_hooks-KeepsHooks given) (pos 10)
      (serving 4) (on_readable-IsShort idle no_hooks no_hooks-IsSteady given)
      (on_writeable-IsShort idle no_hooks no_hooks-IsSteady given) (serving-Inv given 4 refl refl)
      (serving-IsCalm {K = ℕ} 4)

unhooked : get_action (tcp disconnect) (init_actions {F = ℕ} (server_actions_list [])) ≡ some []
unhooked =
    get_action-init (tcp disconnect) (server_actions_list [])
      (Memᴰ.tail (Memᴰ.tail (Memᴰ.tail (third refl))))

-- The same client with a callback of the program on READABLE.
abbrev watched : Connection
watched = record served {
  readable =
      record { exec = recv_on 1; flags = 0 } ∷ record { exec = user_readable 5; flags = 0 } ∷ [];
}

on_readable_dangling_example :
    on_readable numbered no_hooks 1 (put_object 1 (some watched) (serving 4)) ≡ fault dangling
unfolding put_object map_find
on_readable_dangling_example =
    on_readable_dangling numbered no_hooks (put_object 1 (some watched) (serving 4)) 1 watched
      (pos 3) (record { exec = user_readable 5; flags = 0 }) [] [] 4 refl refl refl refl refl
      unhooked refl
