-- ===== src/Events/Tags.antt =====
-- The tag types that name actions, and the lists of actions of each class: `basic_actions` and
-- `basic_actions_list` of includes/socket/socket.hpp, the tags and lists of includes/tcp, includes/raw
-- and includes/udp. A tag is a type there; here all tags are one enumeration.
use mathlib.Core.Path.{refl}
use native.Mathlib.Decide.{ℕ_discrete}
use unisock.Prelude.{false, ℕ, ◌≡◌, ◌↔◌, Bool, true, List, [], ◌∷◌}

-- `namespace basic_actions`
pub data BasicTag : Type 0 where
  readable writeable closed error : BasicTag

-- `namespace common_actions`, `namespace connection_actions`, `namespace server_actions` and
-- `namespace client_actions`
pub data TcpTag : Type 0 where
  receive tcp_closed recv listen accept disconnect connect : TcpTag

-- `namespace raw::actions` and `namespace udp::actions`
pub data DatagramTag : Type 0 where
  recvmsg recvfrom udp_receive bind udp_closed : DatagramTag

pub data Tag : Type 0 where
  basic : BasicTag → Tag
  tcp : TcpTag → Tag
  datagram : DatagramTag → Tag
  -- a tag of a program that extends a list
  extended : ℕ → Tag

Tag-discrete : Discrete Tag
Tag-discrete = hlevel ℕ_discrete

-- Whether two tag types are the same.
unfoldable pub same_tag : Tag → Tag → Bool
unfolding Tag-discrete
same_tag a b = elim (Tag-discrete a b) [ yes _ ↦ true | no _ ↦ false ]

pub same_tag_iff : (a b : Tag) → (same_tag a b ≡ true) ↔ (a ≡ b)
unfolding same_tag
same_tag_iff a b =
    elim (Tag-discrete a b) as (λ d. (elim d [ yes _ ↦ true | no _ ↦ false ] ≡ true) ↔ (a ≡ b)) [
      | yes e ↦ ((λ _. e), (λ _. refl))
      | no n ↦ ((λ h. cc), (λ e. absurd (n e)))
    ]

-- `basic_actions_list`
abbrev pub basic_actions_list : List Tag → List Tag
basic_actions_list actions = basic readable ∷ basic writeable ∷ basic closed ∷ basic error ∷ actions

-- `connection_actions_list`
abbrev pub connection_actions_list : List Tag
connection_actions_list = tcp recv ∷ []

-- `server_actions_list`
abbrev pub server_actions_list : List Tag → List Tag
server_actions_list extra =
    basic error ∷ tcp listen ∷ tcp tcp_closed ∷ tcp receive ∷ tcp accept ∷ tcp disconnect ∷ extra

-- `client_actions_list`
abbrev pub client_actions_list : List Tag → List Tag
client_actions_list extra = basic error ∷ tcp connect ∷ tcp tcp_closed ∷ tcp receive ∷ extra

-- `raw::actions_list`
abbrev pub raw_actions_list : List Tag → List Tag
raw_actions_list extra = datagram recvmsg ∷ datagram recvfrom ∷ extra

-- `udp::actions_list`
abbrev pub udp_actions_list : List Tag → List Tag
udp_actions_list extra = datagram udp_receive ∷ datagram bind ∷ datagram udp_closed ∷ extra
