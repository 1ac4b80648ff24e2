-- ===== src/Tcp/Connection/Send.antt =====
-- `send`: what the kernel does not take is queued behind what waits, and POLLOUT is asked for.
use unisock.Prelude.{
  ℕ, ◌≤◌, ◌<◌, ◌≡◌, ◌≢◌, refl, ◌∙◌, ◌⊎◌, inl, inr, ℤ, pos, true, some, [], ◌∷◌, ◌++◌, length, take,
  drop, ok, Cmd, take-append-drop, lt→ltb, le→ltb, has_flag, ==ℤ_self, arith, ltb, Bool-cases,
}
use unisock.Events.Handler.{Ptr, pollin, pollout, socket_want_write}
use unisock.Events.Handler.Interest.{
  interest, interest-socket_want_write, interest-socket_want_write_other,
}
use unisock.Socket.System.{Bytes, System}
use unisock.Socket.World.{Connection, UserCall, World, put_object}
use unisock.Socket.World.Memory.{
  load-live, store-live, load-put_object, heap-put_object, heap-put_object_ne,
}
use unisock.Tcp.Connection.{send}

-- In the state `t` the connection has one message more in its queue than in `w`, what is left of a message
-- of which the kernel took `n` bytes, and waits to be writeable; no other object, descriptor or container
-- is concerned.
pub record Queued {K : Type 0} (w : World K) (p : Ptr) (c : Connection) (events n : ℕ)
    (message : Bytes) (t : World K) : Type 0 where
  pub rest : Bytes
  pub whole : take n message ++ rest ≡ message
  pub object : t.heap p ≡ some (record c { send_buffer = c.send_buffer ++ rest ∷ [] })
  pub others : (q : Ptr) → q ≢ p → t.heap q ≡ w.heap q
  pub asked : ℕ
  pub waits : interest t.handler c.sock ≡ some asked
  pub writeable : has_flag asked pollout ≡ true
  pub readable : has_flag asked pollin ≡ has_flag events pollin
  pub same_interest : (g : ℤ) → g ≢ c.sock → interest t.handler g ≡ interest w.handler g
  pub same_containers : t.containers ≡ w.containers

module _ {K : Type 0} (sys : System K) (user : UserCall → Cmd (World K) (Unit {0})) (p : Ptr)
    (message : Bytes) (w : World K) (c : Connection) (live : w.heap p ≡ some c) (n : ℕ) (k : K)
    (sent : sys.send c.sock message w.kernel ≡ (pos n, k)) where
  -- The state after a call of `::send` and a queued rest.
  abbrev with_rest : World K
  with_rest =
      record (put_object p (some (record c { send_buffer = c.send_buffer ++ drop n message ∷ [] }))
        (record w { kernel = k })) { handler = socket_want_write w.handler c.sock true }

  send_partial : n < length message → send sys user p message w ≡ ok true with_rest
  unfolding send
  send_partial lt =
      rw (load-live p w live, sent)
        (rw (lt→ltb n (length message) lt, store-live p (record w { kernel = k }) _ live)
          (rw (load-put_object p (record w { kernel = k }) _) (unfold put_object in refl)))

  send_complete : length message ≤ n → send sys user p message w ≡ ok true (record w { kernel = k })
  unfolding send
  send_complete le = rw (load-live p w live, sent) (rw (le→ltb n (length message) le))

  with_rest-Queued :
      (events : ℕ)
      → interest w.handler c.sock ≡ some events
      → Queued w p c events n message with_rest
  with_rest-Queued events known =
      let (v, asked, readable, on) =
        interest-socket_want_write w.handler c.sock c.sock true events known in
      let u : World K = record w { kernel = k } in
      record {
        rest = drop n message;
        whole = take-append-drop n message;
        object = heap-put_object p u _;
        others = λ q ne. heap-put_object_ne p u _ q ne;
        asked = v;
        waits = asked;
        writeable = on ∙ rw (==ℤ_self c.sock) refl;
        readable = readable;
        same_interest = λ g ne. interest-socket_want_write_other w.handler c.sock g true ne;
        same_containers = unfold put_object in refl;
      }

  -- When `::send` takes `n` bytes for a connection that the handler has, `send` succeeds. Either `n` is
  -- less than the message has: then what is left of it is queued behind everything that waits already,
  -- the next poll waits until the descriptor is writeable, and for reading as before, and no other
  -- object and no other descriptor is concerned. Or the message is sent whole: then nothing but the
  -- kernel changes, also where earlier messages wait in the queue, which this one overtakes.
  pub send_queues :
      (events : ℕ)
      → interest w.handler c.sock ≡ some events
      → (t : World K) × (send sys user p message w ≡ ok true t)
        × (t.kernel ≡ k)
        × (((n < length message) × Queued w p c events n message t)
            ⊎ ((length message ≤ n) × (t ≡ record w { kernel = k })))
  send_queues events known = elim (Bool-cases (ltb n (length message))) [
    | inl part ↦ (
      with_rest,
      send_partial (ground arith),
      unfold put_object in refl,
      inl (ground arith, with_rest-Queued events known),
    )
    | inr whole ↦
        (record w { kernel = k }, send_complete (ground arith), refl, inr (ground arith, refl))
  ]
