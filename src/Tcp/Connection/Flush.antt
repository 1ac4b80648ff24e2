-- ===== src/Tcp/Connection/Flush.antt =====
-- `send_flush`: what it does to the queue and to the interest in POLLOUT, and where it loses track of
-- what was sent.
use unisock.Prelude.{
  ℕ, ◌≤◌, ◌<◌, ◌≡◌, refl, ◌∙◌, pos, false, some, List, ◌∷◌, ◌++◌, length, take, ok, Cmd, and_then,
  arith, lt→ltb, le→ltb, has_flag, ==ℤ_self, length-append, length-take,
}
use unisock.Events.Handler.{Ptr, pollout, socket_want_write}
use unisock.Events.Handler.Interest.{interest, interest-socket_want_write}
use unisock.Socket.System.{Bytes, System}
use unisock.Socket.World.{Connection, UserCall, World, put_object}
use unisock.Socket.World.Memory.{load-live, store-live, load-put_object, heap-put_object}
use unisock.Tcp.Connection.{send_flush}

-- The state after the front of the queue is sent, in the kernel's state `k`.
abbrev pub without_front : {K : Type 0} → Ptr → World K → Connection → List Bytes → K → World K
without_front p w c rest k =
    record (put_object p (some (record c { send_buffer = rest })) (record w { kernel = k })) {
      handler = socket_want_write w.handler c.sock false;
    }

module _ {K : Type 0} (sys : System K) (user : UserCall → Cmd (World K) (Unit {0})) (p : Ptr)
    (w : World K) (c : Connection) (live : w.heap p ≡ some c) (front : Bytes) (rest : List Bytes)
    (queued : c.send_buffer ≡ front ∷ rest) where
  module _ (n : ℕ) (k : K) (sent : sys.send c.sock front w.kernel ≡ (pos n, k)) where
    -- When the kernel takes only a part of the front message, `send_flush` changes nothing but the
    -- kernel: the whole message, with the part that was sent, stays in front of the queue.
    pub flush_partial : n < length front → send_flush sys user p w ≡ ok tt (record w { kernel = k })
    unfolding send_flush
    flush_partial lt = rw (load-live p w live, queued, sent) (rw (lt→ltb n (length front) lt))

    -- When the kernel takes the whole front message, it leaves the queue, the rest of which stays.
    flush_complete : length front ≤ n → send_flush sys user p w ≡ ok tt (without_front p w c rest k)
    unfolding send_flush
    flush_complete le =
        rw (load-live p w live, queued, sent)
          (rw (le→ltb n (length front) le, store-live p (record w { kernel = k }) _ live)
            (rw (load-put_object p (record w { kernel = k }) _) (unfold put_object in refl)))

    -- When the front message is sent whole and others wait behind it, they stay in the queue of the
    -- connection, and the interest in POLLOUT is taken back all the same: the poll loop will not call
    -- `send_flush` for them.
    pub flush_stalls :
        (next : Bytes) (more : List Bytes) (e : ℕ)
        → length front ≤ n
        → rest ≡ next ∷ more
        → interest w.handler c.sock ≡ some e
        → (t : World K) × (send_flush sys user p w ≡ ok tt t)
          × (d : Connection) × (t.heap p ≡ some d)
          × (d.send_buffer ≡ next ∷ more)
          × (v : ℕ) × (interest t.handler c.sock ≡ some v)
          × (has_flag v pollout ≡ false)
    flush_stalls next more e le waits known =
        let (v, asked, _, off) = interest-socket_want_write w.handler c.sock c.sock false e known in
        (
          without_front p w c rest k,
          flush_complete le,
          record c { send_buffer = rest },
          heap-put_object p (record w { kernel = k }) _,
          waits,
          v,
          asked,
          off ∙ rw (==ℤ_self c.sock) refl,
        )

-- When the kernel takes a part of the front message at one call and all of it at the next, the two
-- calls take the message from the queue once, and the kernel has got that part and then the whole
-- message: more bytes than the message has.
pub flush_resends :
    {K : Type 0} (sys : System K) (user : UserCall → Cmd (World K) (Unit {0})) (p : Ptr)
    (w : World K) (c : Connection) (front : Bytes) (rest : List Bytes) (n : ℕ) (k k' : K)
    → w.heap p ≡ some c
    → c.send_buffer ≡ front ∷ rest
    → 0 < n
    → n < length front
    → sys.send c.sock front w.kernel ≡ (pos n, k)
    → sys.send c.sock front k ≡ (pos (length front), k')
    → (and_then (send_flush sys user p w) (λ _. send_flush sys user p)
        ≡ ok tt (without_front p w c rest k'))
      × (length front < length (take n front ++ take (length front) front))
flush_resends sys user p w c front rest n k k' live queued some_sent part first second = (
  rw (flush_partial sys user p w c live front rest queued n k first part) (
      flush_complete sys user p (record w { kernel = k }) c live front rest queued (length front) k'
        second (omega arith)),
  omega (
    arith,
    length-append (take n front) (take (length front) front),
    length-take n front (omega arith),
    length-take (length front) front (omega arith),
  ),
)
