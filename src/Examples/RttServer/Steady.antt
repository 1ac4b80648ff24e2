-- ===== src/Examples/RttServer/Steady.antt =====
-- The lambdas of the round trip test's server register and deregister nothing.
use unisock.Prelude.{ℕ, zero, suc, Option, [], ◌∷◌, length, ltb, ◌==◌, inl, inr, Bool-cases}
use unisock.Events.Handler.{Ptr}
use unisock.Socket.System.{Bytes, System}
use unisock.Socket.World.{
  socket_event, socket_error, socket_recv, connection_event, receive_event, error_event, World,
}
use unisock.Tcp.Steady.{Moved-refl, Ends, Ends-bind, IsSteady}
use unisock.Tcp.Steady.Calls.{load-Ends}
use unisock.Tcp.Steady.Traffic.{send-Ends}
use unisock.Examples.Running.{no_socket_hooks}
use unisock.Examples.RttServer.{
  message_str, message_size, Counted, with_counts, Screen, count_bytes, answer, on_receive,
  on_disconnect, rtt_hooks,
}

module _ {K : Type 0} (sys : System K) (inet_ntop : ℕ → Bytes → ℕ → Option Bytes)
    (out : Screen K) where
  answer-Ends :
      (p : Ptr) (total : ℕ) (w : World (Counted K)) → Ends 0 w (answer sys inet_ntop out p total w)
  unfolding answer
  answer-Ends p total w = elim (Bool-cases (ltb message_size total)) [
    | inl many ↦ rw many (Moved-refl 0 w.handler)
    | inr fits ↦ rw fits (elim (Bool-cases (total == message_size)) [
      | inr part ↦ rw part (Moved-refl 0 w.handler)
      | inl whole ↦
          let u : World (Counted K) = record w {
            kernel = (out.write (42 ∷ []) w.kernel.0, w.kernel.1);
          } in
          rw whole (
            Ends-bind 0 0 u _ _
              (send-Ends (with_counts sys) no_socket_hooks (λ call v. Moved-refl 0 v.handler) p
                message_str u)
              λ b v. Moved-refl 0 v.handler)
    ])
  ]

  disconnect-Ends :
      (p : Ptr) (w : World (Counted K)) → Ends 0 w (on_disconnect sys inet_ntop out p w)
  unfolding on_disconnect
  disconnect-Ends p w = Ends-bind 0 0 w _ _ (load-Ends p w) λ c s.
      elim (Bool-cases (s.kernel.1 p == message_size)) [
        | inl whole ↦ rw whole (Moved-refl 0 s.handler)
        | inr part ↦ rw part (Moved-refl 0 s.handler)
      ]

  pub rtt_hooks-IsSteady : IsSteady (rtt_hooks sys inet_ntop out)
  unfolding rtt_hooks on_receive
  rtt_hooks-IsSteady (connection_event t zero p) w =
      Ends-bind 0 0 w _ _ (load-Ends p w) λ c s. Moved-refl 0 s.handler
  rtt_hooks-IsSteady (connection_event t (suc zero) p) w = Moved-refl 0 w.handler
  rtt_hooks-IsSteady (connection_event t (suc (suc zero)) p) w = Moved-refl 0 w.handler
  rtt_hooks-IsSteady (connection_event t (suc (suc (suc n))) p) w = disconnect-Ends p w
  rtt_hooks-IsSteady (receive_event n p message) w =
      let u : World (Counted K) = record w {
        kernel = (out.write (114 ∷ []) w.kernel.0, w.kernel.1);
      } in
      Ends-bind 0 0 u _ _ (load-Ends p u) λ c s.
        answer-Ends p ((count_bytes p (length message) s.kernel).1 p)
          (record s { kernel = count_bytes p (length message) s.kernel })
  rtt_hooks-IsSteady (error_event n func err) w = Moved-refl 0 w.handler
  rtt_hooks-IsSteady (socket_event n) w = Moved-refl 0 w.handler
  rtt_hooks-IsSteady (socket_error n func err) w = Moved-refl 0 w.handler
  rtt_hooks-IsSteady (socket_recv n message) w = Moved-refl 0 w.handler
