-- ===== src/Examples/RawListener.antt =====
-- examples/raw-listener/main.cpp: `main`, and the lambdas that it gives to the socket. What it prints is a
-- parameter.
pub mod Runs
use Prim.Native.String.{String}
use unisock.Prelude.{
  ℕ, ℤ, Bool, true, false, not, Option, if◌then◌else◌, ok, Cmd, ◌>>=◌, ◌>>◌, pure,
}
use unisock.Events.Action.{add_callback}
use unisock.Socket.System.{Bytes, System, af_inet, sock_dgram}
use unisock.Socket.Address.{from_name_port}
use unisock.Socket.Address.Print.{AddressText, to_string}
use unisock.Datagram.Socket.{
  user_read, user_datagram, DatagramCall, event, ended, failure, message, datagram, addressed,
  Datagram, open_socket, bind_socket,
}
use unisock.Datagram.Raw.{recvfrom}
use unisock.Datagram.Loop.{serve_then_close}
use unisock.Examples.Running.{localhost}
use unisock.Examples.Console.{log, on_kernel}

-- The output of the program.
pub record Display (K : Type 0) : Type 0 where
  pub show_message : AddressText → Bytes → K → K
  pub show_error : String → ℤ → K → K

module _ {K : Type 0} (sys : System K) (inet_ntop : ℕ → Bytes → ℕ → Option Bytes)
    (out : Display K) where
  -- The lambdas of RECVFROM and ERROR.
  unfoldable pub on_datagram : DatagramCall → Cmd (Datagram K) (Unit {0})
  on_datagram (datagram n address msg) = do
    text ← on_kernel (to_string sys inet_ntop address)
    log (out.show_message text msg)
  on_datagram (failure n func err) = log (out.show_error func err)
  on_datagram (addressed n address) = pure tt
  on_datagram (event n) = pure tt
  on_datagram (ended n) = pure tt
  on_datagram (message n buffer) = pure tt

  -- All lambdas. That of READABLE receives, and what it receives is told to the others.
  unfoldable pub raw_hooks : DatagramCall → Cmd (Datagram K) (Unit {0})
  unfolding on_datagram
  raw_hooks (event n) = recvfrom sys on_datagram >>= λ _. pure tt
  raw_hooks (datagram n address msg) = on_datagram (datagram n address msg)
  raw_hooks (failure n func err) = on_datagram (failure n func err)
  raw_hooks (addressed n address) = pure tt
  raw_hooks (ended n) = pure tt
  raw_hooks (message n buffer) = pure tt

-- The calls of `on`.
unfoldable pub hook_raw : {K : Type 0} → Datagram K → Datagram K
hook_raw w = record w {
  readable = add_callback (user_read 0) 0 w.readable;
  recvfrom = add_callback (user_datagram 0) 0 w.recvfrom;
  error = add_callback 0 0 w.error;
}

-- Whether `main` goes on in its loop, or what it has returned.
pub data Exit : Type 0 where
  goes_on : Exit
  returned : ℕ → Exit

abbrev exit_of : Bool → Exit
exit_of true = goes_on
exit_of false = returned 0

module _ {K : Type 0} (sys : System K) (user : DatagramCall → Cmd (Datagram K) (Unit {0})) where
  -- `main` once the socket is made, up to so many turns of its loop.
  unfoldable pub raw_main : ℕ → Cmd (Datagram K) Exit
  unfolding hook_raw serve_then_close
  raw_main turns = do
    (λ w. ok tt (hook_raw w))
    opened ← open_socket sys user af_inet sock_dgram 0
    address ← on_kernel (from_name_port sys localhost 8000 af_inet)
    (λ w. ok tt (record w { address = address }))
    bound ← bind_socket sys user
    if not bound
        then pure (returned 1)
        else (serve_then_close sys user (pure tt) turns >>= λ running. pure (exit_of running))
