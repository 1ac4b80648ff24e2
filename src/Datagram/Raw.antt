-- ===== src/Datagram/Raw.antt =====
-- includes/raw/socket.hpp, `class socket_impl`: sending and receiving datagrams.
use unisock.Prelude.{
  ℕ, ℤ, is_neg, is_pos, to_size, Bool, true, false, take, if◌then◌else◌, fault, assertion, Cmd,
  ◌>>=◌, ◌>>◌, pure,
}
use unisock.Socket.Address.{size}
use unisock.Socket.System.{Bytes, System}
use unisock.Tcp.Connection.{recv_buffer_size}
use unisock.Datagram.Socket.{
  DatagramFn, pass_receive, user_datagram, DatagramCall, message, datagram, Datagram, call,
  run_action, report,
}

module _ {K : Type 0} (sys : System K) (user : DatagramCall → Cmd (Datagram K) (Unit {0})) where
  -- `assert(this->get_socket() > 0)` before the rest
  abbrev pub with_descriptor : Cmd (Datagram K) Bool → Cmd (Datagram K) Bool
  with_descriptor rest w = if is_pos w.sock then rest w else fault assertion

  -- The failure of a system call is reported as ERROR.
  abbrev pub checked : (Cmd (Datagram K) (Unit {0})) → ℤ → Cmd (Datagram K) Bool
  checked failed n_bytes = if is_neg n_bytes then failed >> pure false else pure true

  -- `sendmsg`
  unfoldable pub sendmsg : Bytes → ℕ → Cmd (Datagram K) Bool
  sendmsg msg flags = with_descriptor (do
    n_bytes ← call (λ w. sys.sendmsg w.sock msg flags w.kernel)
    checked (report sys user "sendmsg") n_bytes)

  -- `send_to`
  unfoldable pub send_to : Bytes → Bytes → ℕ → Cmd (Datagram K) Bool
  send_to address msg flags = with_descriptor (do
    n_bytes ← call (λ w. sys.sendto w.sock msg flags address (size address) w.kernel)
    checked (report sys user "sendto") n_bytes)

  -- `recvmsg`: the callbacks get the header with the whole buffer, and not the number of bytes.
  unfoldable pub recvmsg : Cmd (Datagram K) Bool
  recvmsg = with_descriptor (do
    (n_bytes, buffer) ←
        call (λ w. let (n, b, k) = sys.recvmsg w.sock recv_buffer_size w.kernel in ((n, b), k))
    if is_neg n_bytes
        then report sys user "recvmsg" >> pure false
        else run_action (λ n. user (message n buffer)) (λ v. v.recvmsg) >> pure true)

  -- What `udp::socket_impl` hooks to RECVFROM.
  unfoldable pub run_datagram : Bytes → Bytes → DatagramFn → Cmd (Datagram K) (Unit {0})
  run_datagram address msg pass_receive =
      run_action (λ n. user (datagram n address msg)) (λ v. v.receive)
  run_datagram address msg (user_datagram n) = user (datagram n address msg)

  -- What `recvfrom` does with the result of `::recvfrom`, its buffer and the sender's address.
  unfoldable pub after_recvfrom : ℤ → Bytes → Bytes → Cmd (Datagram K) Bool
  unfolding run_datagram
  after_recvfrom n_bytes buffer address =
      if is_neg n_bytes
      then report sys user "recv" >> pure false
      else run_action (run_datagram address (take (to_size n_bytes) buffer)) (λ v. v.recvfrom)
        >> pure true

  -- `recvfrom`
  unfoldable pub recvfrom : Cmd (Datagram K) Bool
  unfolding after_recvfrom
  recvfrom = with_descriptor (do
    (n_bytes, buffer, address) ←
        call
          (λ w. let (n, b, a, k) = sys.recvfrom w.sock recv_buffer_size w.kernel in ((n, b, a), k))
    after_recvfrom n_bytes buffer address)
