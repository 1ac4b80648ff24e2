-- ===== src/Tcp/Requests.antt =====
-- A program of includes/tcp, as the calls that it makes between two turns of the event loop: the calls of
-- `on`, `listen` and `connect`, of `send` and `close` on connections, and of `events::poll`.
pub mod Reach
pub mod Closing
use mathlib.Core.List.{Memᴰ}
use unisock.Prelude.{
  ℕ, ◌≡◌, ℤ, is_neg, Bool, true, false, Option, none, some, List, [], ok, fault, assertion, Cmd,
  ◌>>=◌, pure,
}
use unisock.Events.ActionHandler.{ActionHandler, get_action, on}
use unisock.Events.Tags.{Tag, server_actions_list, client_actions_list}
use unisock.Events.Handler.{Ptr, new_handler}
use unisock.Socket.System.{Bytes, System}
use unisock.Socket.World.{Connection, UserCall, World}
use unisock.Socket.Object.{close}
use unisock.Tcp.Connection.{send}
use unisock.Tcp.Server.{listen}
use unisock.Tcp.Client.{connect}
use unisock.Tcp.Loop.{poll_once}
use unisock.Tcp.Invariant.{is_single}

pub data Request : Type 0 where
  server_on client_on : Tag → ℕ → ℕ → Request
  listen_at connect_to : Bytes → ℕ → Bool → Request
  send_on : Ptr → Bytes → Request
  close_on : Ptr → Request
  poll_for : ℤ → Request

module _ {K : Type 0} where
  -- The state before the first call, with the actions of the server and the client.
  abbrev pub started : K → ℕ → ActionHandler ℕ → ActionHandler ℕ → World K
  started k garbage server client = record {
    kernel = k;
    handler = new_handler garbage;
    heap = λ p. none;
    next_ptr = 1;
    containers = λ o. [];
    server_actions = server;
    client_actions = client;
  }

  abbrev pub set_server : Option (ActionHandler ℕ) → Cmd (World K) (Unit {0})
  set_server none w = fault assertion
  set_server (some actions) w = ok tt (record w { server_actions = actions })

  abbrev pub set_client : Option (ActionHandler ℕ) → Cmd (World K) (Unit {0})
  set_client none w = fault assertion
  set_client (some actions) w = ok tt (record w { client_actions = actions })

  -- What a program must see to: that an action is one of the class, and has no callback yet if its
  -- callbacks get an object that they may close, that an object is there that it closes, and that a
  -- connection is open on which it sends.
  abbrev pub IsApt : World K → Request → Type 0
  IsApt w (server_on t f flags) =
      Memᴰ t (server_actions_list [])
      × (is_single t ≡ true → get_action t w.server_actions ≡ some [])
  IsApt w (client_on t f flags) =
      Memᴰ t (client_actions_list [])
      × (is_single t ≡ true → get_action t w.client_actions ≡ some [])
  IsApt w (listen_at hostname port use_ipv6) = Unit
  IsApt w (connect_to hostname port use_ipv6) = Unit
  IsApt w (send_on p message) = (c : Connection) × (w.heap p ≡ some c) × (is_neg c.sock ≡ false)
  IsApt w (close_on p) = (c : Connection) × (w.heap p ≡ some c)
  IsApt w (poll_for timeout) = Unit

module _ {K : Type 0} (sys : System K) (user : UserCall → Cmd (World K) (Unit {0})) where
  unfoldable pub perform : Request → Cmd (World K) (Unit {0})
  perform (server_on t f flags) w = set_server (on t f flags w.server_actions) w
  perform (client_on t f flags) w = set_client (on t f flags w.client_actions) w
  perform (listen_at hostname port use_ipv6) w =
      (listen sys user hostname port use_ipv6 >>= λ _. pure tt) w
  perform (connect_to hostname port use_ipv6) w =
      (connect sys user hostname port use_ipv6 >>= λ _. pure tt) w
  perform (send_on p message) w = (send sys user p message >>= λ _. pure tt) w
  perform (close_on p) w = close sys user p w
  perform (poll_for timeout) w = (poll_once sys user timeout >>= λ _. pure tt) w

  -- The states that a program can bring about from `w`.
  pub data Reaches (w : World K) : World K → Type 0 where
    here : Reaches w w
    after :
        {t u : World K} (r : Request)
        → Reaches w t
        → IsApt t r
        → perform r t ≡ ok tt u
        → Reaches w u
