-- ===== src/Examples/SpeedServer/Lambdas.antt =====
-- What the lambdas of the speed test's server do to the shared state: nothing, but for what they write.
use Prim.Native.String.{String}
use unisock.Prelude.{ℕ, zero, suc, ◌≡◌, refl, ap, ◌∙◌, ℤ, Bool, true, Option, returns, Returns-mono}
use unisock.Events.Tags.{Tag}
use unisock.Events.Handler.{Ptr}
use unisock.Socket.System.{Bytes}
use unisock.Socket.Address.{IpText}
use unisock.Socket.World.{
  socket_event, socket_error, socket_recv, connection_event, receive_event, error_event,
}
use unisock.Socket.World.Memory.{load-live}
use unisock.Tcp.Steady.{Moved-refl, Ends-bind, IsSteady}
use unisock.Tcp.Steady.Calls.{load-Ends}
use unisock.Tcp.Invariant.{KeepsHooks}
use unisock.Tcp.Invariant.Keeps.{Frame-refl}
use unisock.Tcp.Invariant.Quiet.{IsQuiet, IsQuietOn}
use unisock.Tcp.Invariant.Spares.{Spares}
use unisock.Examples.Running.Returning.{emit-Settles}
use unisock.Examples.SpeedServer.{Output, hooks}

module _ {K : Type 0} (inet_ntop : ℕ → Bytes → ℕ → Option Bytes) (out : Output K) where
  -- The lambdas register and deregister nothing.
  pub hooks-IsSteady : IsSteady (hooks inet_ntop out)
  unfolding hooks
  hooks-IsSteady (connection_event t zero p) w =
      Ends-bind 0 0 w _ _ (load-Ends p w) λ c s. Moved-refl 0 s.handler
  hooks-IsSteady (connection_event t (suc zero) p) w = Moved-refl 0 w.handler
  hooks-IsSteady (connection_event t (suc (suc n)) p) w = Moved-refl 0 w.handler
  hooks-IsSteady (error_event n func err) w = Moved-refl 0 w.handler
  hooks-IsSteady (receive_event n p message) w = Moved-refl 0 w.handler
  hooks-IsSteady (socket_event n) w = Moved-refl 0 w.handler
  hooks-IsSteady (socket_error n func err) w = Moved-refl 0 w.handler
  hooks-IsSteady (socket_recv n message) w = Moved-refl 0 w.handler

module _ {K : Type 0} (is_open : K → ℤ → Bool) where
  -- Output closes no descriptor.
  pub record IsOutput (out : Output K) : Type 0 where
    pub write_keeps :
        (m : Bytes) (fd : ℤ) (k : K) → is_open k fd ≡ true → is_open (out.write m k) fd ≡ true
    pub listening_keeps :
        (ip : IpText) (s fd : ℤ) (k : K)
        → is_open k fd ≡ true
        → is_open (out.print_listening ip s k) fd ≡ true
    pub error_keeps :
        (func : String) (err fd : ℤ) (k : K)
        → is_open k fd ≡ true
        → is_open (out.print_error func err k) fd ≡ true

  module _ (inet_ntop : ℕ → Bytes → ℕ → Option Bytes) (out : Output K) (output : IsOutput out) where
    pub connection_event-IsQuietOn :
        (t : Tag) (n : ℕ) (p : Ptr)
        → IsQuietOn is_open p (hooks inet_ntop out (connection_event t n p))
    unfolding hooks
    connection_event-IsQuietOn t zero p w v (c, live) =
        rw (load-live p w live)
          (returns (emit-Settles is_open w _ (λ fd. output.listening_keeps _ _ fd w.kernel) v))
    connection_event-IsQuietOn t (suc zero) p w v live =
        returns (emit-Settles is_open w _ (λ fd. output.write_keeps _ fd w.kernel) v)
    connection_event-IsQuietOn t (suc (suc n)) p w v live =
        returns (emit-Settles is_open w _ (λ fd. output.write_keeps _ fd w.kernel) v)

    error_event-IsQuiet :
        (n : ℕ) (func : String) (err : ℤ)
        → IsQuiet is_open (hooks inet_ntop out (error_event n func err))
    unfolding hooks
    error_event-IsQuiet n func err w v =
        returns (emit-Settles is_open w _ (λ fd. output.error_keeps func err fd w.kernel) v)

    pub socket_event-IsQuiet : (n : ℕ) → IsQuiet is_open (hooks inet_ntop out (socket_event n))
    unfolding hooks
    socket_event-IsQuiet n w v = returns ((v, Frame-refl is_open w), refl, refl)

    pub hooks-KeepsHooks : KeepsHooks is_open (hooks inet_ntop out)
    hooks-KeepsHooks (connection_event t n p) w v (live, up) =
        Returns-mono (connection_event-IsQuietOn t n p w v live) λ _ t q. q.0
    hooks-KeepsHooks (error_event n func err) w v callable =
        Returns-mono (error_event-IsQuiet n func err w v) λ _ t q. q.0
    hooks-KeepsHooks (receive_event n p message) w v callable =
        unfold hooks in returns (v, Frame-refl is_open w)
    hooks-KeepsHooks (socket_event n) w v callable =
        unfold hooks in returns (v, Frame-refl is_open w)
    hooks-KeepsHooks (socket_error n func err) w v callable =
        unfold hooks in returns (v, Frame-refl is_open w)
    hooks-KeepsHooks (socket_recv n message) w v callable =
        unfold hooks in returns (v, Frame-refl is_open w)

    pub error_event-Spares :
        (n : ℕ) (func : String) (err : ℤ)
        → Spares is_open (hooks inet_ntop out (error_event n func err))
    error_event-Spares n func err w v =
        Returns-mono (error_event-IsQuiet n func err w v)
          λ _ t q. (q.0, λ p c live. (c, ap (λ h. h p) q.1 ∙ live))
