-- ===== src/Tests/Tcp.antt =====
-- The theorems on connections, at concrete inputs.
use unisock.Prelude.{
  ℕ, ◌≡◌, ◌<◌, ◌≤◌, ◌⊎◌, refl, pos, true, false, some, [], ◌∷◌, ◌++◌, length, take, arith, ok,
  and_then, has_flag,
}
use unisock.Events.Handler.{pollout}
use unisock.Events.Handler.Interest.{interest, interest_in}
use unisock.Socket.System.{Bytes}
use unisock.Socket.World.{Connection, World}
use unisock.Tcp.Connection.{send, send_flush}
use unisock.Tcp.Connection.Send.{Queued, send_queues}
use unisock.Tcp.Connection.Flush.{without_front, flush_stalls, flush_resends}
use unisock.Tests.Fixtures.{sockets, no_hooks, waiting, world_of}

-- The next `::send` takes this many bytes.
abbrev after_calls : ℕ → World ℕ
after_calls k = world_of k waiting []

abbrev three_bytes : Bytes
three_bytes = 20 ∷ 21 ∷ 22 ∷ []

abbrev waiting_front : Bytes
waiting_front = 10 ∷ 11 ∷ []

send_queues_example :
    (t : World ℕ) × (send sockets no_hooks 1 three_bytes (after_calls 1) ≡ ok true t)
    × (t.kernel ≡ 2)
    × (((1 < length three_bytes) × Queued (after_calls 1) 1 waiting 1 1 three_bytes t)
        ⊎ ((length three_bytes ≤ 1) × (t ≡ record (after_calls 1) { kernel = 2 })))
unfolding interest_in
send_queues_example =
    send_queues sockets no_hooks 1 three_bytes (after_calls 1) waiting refl 1 2 refl 1 refl

flush_stalls_example :
    (t : World ℕ) × (send_flush sockets no_hooks 1 (after_calls 2) ≡ ok tt t)
    × (d : Connection) × (t.heap 1 ≡ some d)
    × (d.send_buffer ≡ (12 ∷ []) ∷ [])
    × (v : ℕ) × (interest t.handler (pos 3) ≡ some v)
    × (has_flag v pollout ≡ false)
unfolding interest_in
flush_stalls_example =
    flush_stalls sockets no_hooks 1 (after_calls 2) waiting refl waiting_front ((12 ∷ []) ∷ []) refl
      2 3 refl (12 ∷ []) [] 1 (omega arith) refl refl

flush_resends_example :
    (and_then (send_flush sockets no_hooks 1 (after_calls 1)) (λ _. send_flush sockets no_hooks 1)
      ≡ ok tt (without_front 1 (after_calls 1) waiting ((12 ∷ []) ∷ []) 3))
    × (length waiting_front < length (take 1 waiting_front ++ take 2 waiting_front))
flush_resends_example =
    flush_resends sockets no_hooks 1 (after_calls 1) waiting waiting_front ((12 ∷ []) ∷ []) 1 2 3
      refl refl (omega arith) (omega arith) refl refl
