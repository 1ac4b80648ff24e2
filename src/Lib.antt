-- ===== src/Lib.antt =====
-- unisock: an event driven socket library in C++.
--
-- The parts and how they interact. A program has socket objects, one handler and the loop `events::poll`.
-- A socket object has actions, lists of callbacks that it executes. The handler (poll) keeps the
-- descriptors to wait for with the objects that they belong to. The loop calls `::poll` and, for each
-- descriptor with something to report, `on_readable` and `on_writeable` of its object, which execute its
-- actions READABLE and WRITEABLE. A socket container owns objects in a map by descriptor: a new one is
-- registered with the handler and gets a last callback of CLOSED that erases it from the map. The tcp
-- server has two containers, of listeners and of clients, and the tcp client one of connections; they hook
-- the actions of their sockets, and pass on what happens as actions of their own.
--
-- Which file models what, with paths of the repository:
--   Events/Action, Events/ActionHandler, Events/Tags: includes/events/action_hanlder.hpp (`action`,
--     `action_handler`) and the tags and lists of actions of includes/socket, tcp, raw and udp. A tag
--     type is a value; a failed `static_assert` is `none`. The second assertion of `on`, on the type of the
--     function, is left out: types of callbacks are not modelled.
--   Events/Handler: includes/events/polling_handler.hpp, includes/events/handlers/poll/handler_impl.hpp and
--     src/events/handlers/poll.cpp (`handler`). `ushort` arithmetic is written out modulo 65536; POLLIN and
--     POLLOUT are the bits 1 and 4, and masks are written out by division and remainder.
--   Events/Poll: includes/events/handlers/poll/poll_impl.hpp and includes/events/events.hpp (`poll_impl`,
--     `poll`), for any program: its state, its handler, `::poll` and the two members called back are fields
--     of a record. Events/Poll/Plain is the plain loop that it is compared with.
--   Events/Types: includes/events/events_types.hpp: the choice of a kind of handler as a function of the
--     macros and of -Werror, and the members of `handler_impl_base`, which the handler of `poll` fills.
--   Socket/System: the system calls and resolver functions, as a parameter: a record of functions on a state
--     of the kernel. Theorems assume of them only what they name as hypotheses.
--   Socket/Address: includes/socket/socket_address.hpp and src/socket/socket_address.cpp. An address is its
--     128 bytes, with the layout of the systems that have `sa_len`, which the code reads.
--     Socket/Address/Print is `to_string`: its lines are constructors, with the values that they show.
--   Socket/World: the shared state. A heap from addresses to objects, the handler, the containers and
--     the actions of one server and one client. A callback is a value with a constructor for each lambda of
--     the library and one for those of the program, which `user`, a parameter of the definitions, runs.
--   Socket/Object: includes/socket/socket_base.hpp, includes/socket/socket.hpp and src/socket/socket.cpp.
--   Socket/Container: includes/socket/socket_container.hpp.
--   Tcp/Connection, Tcp/Server, Tcp/Client: includes/tcp/connection.hpp, server.hpp and client.hpp.
--   Tcp/Loop: the loop over the shared state, with the members `on_readable` and `on_writeable` of `socket`.
--   Tcp/Invariant: what holds of the shared state between two steps of the loop, operation by operation.
--     `Inv` says it, `IsCalm` that no object is half closed, `IsSettled` that no entry of a container is
--     being closed, and `Frame` what a call leaves alone. Tcp/Invariant/Kernel has what is assumed of the
--     kernel (`HasDescriptors`) and of the resolver with it (`HasSetup`).
--   Tcp/Requests: the calls that a program makes between two turns of the loop, the states it reaches, and
--     the closing of the server in them.
--   Tcp/Steady: how often the code changes the handler. `Moved n h h'` says that at most `n` calls of
--     `add_socket`, `delete_socket` or `socket_want_write` that changed something lead from `h` to `h'`.
--   Datagram/Socket, Datagram/Raw, Datagram/Udp: includes/raw/socket.hpp and includes/udp/socket.hpp, with what
--     they inherit of includes/socket/socket.hpp, for one socket that no container owns.
--   Datagram/Loop: the loop over the state of a program with one such socket. Datagram/Kept: what the calls on
--     the socket leave alone; `Stands` says that the socket has a given descriptor, which the handler
--     waits for, or none.
--   Examples/SpeedServer, Examples/RttServer, Examples/TcpServer, Examples/TcpClient, Examples/UdpServer,
--   Examples/UdpClient, Examples/RawListener: server.cpp of examples/tcp-connection-speed-test and
--     tcp-rtt-speed-test, and main.cpp of examples/tcp-server, tcp-client, udp-server, udp-client and
--     raw-listener, each the whole program. What they print is a parameter, and so is the call of
--     `fcntl`. A program is run for a number of turns of its loop.
--   Prelude: the names shared by all, lists, tests, integers, flags, and calls that return or fault.
--   Tests: concrete inputs.
--
-- Errors and undefined behaviour are values (Prelude/Effect): a call ends with a result and a state, or with
-- a fault: a destroyed object or list is used, a null pointer is dereferenced, an assertion fails, an
-- exception is thrown, a position is out of range, or a loop is out of rounds.
--
-- Loops. The loop of `poll_impl` gets one round more than the handler has entries when it starts, which is
-- enough: it visits one position per round, and ends when a callback has changed the handler. The retries of
-- the resolver are structural. The loop of a container's `close` has its rounds as an argument, since the
-- source's loop need not end; Tcp/Invariant/CloseAll says when it does.
--
-- Not modelled: `client_impl::send`, which does not compile; the types of callbacks; that the results of
-- the resolver are never freed; the destructors that run when a `main` ends; and the clients of the two
-- speed tests, which are vectors of clients on one handler, and measure times.
pub mod Prelude
pub mod Events
pub mod Socket
pub mod Tcp
pub mod Datagram
pub mod Examples
pub mod Tests
