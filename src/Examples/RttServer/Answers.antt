-- ===== src/Examples/RttServer/Answers.antt =====
-- When the round trip test's server answers a client.
use unisock.Prelude.{
  ℕ, ◌+◌, ◌<◌, ◌≡◌, refl, ap, ◌∙◌, Option, some, List, [], ◌∷◌, ◌++◌, length, arith, ==_self, ok,
  Cmd, and_then, and_then-pure,
}
use unisock.Events.Handler.{Ptr}
use unisock.Socket.System.{Bytes, System}
use unisock.Socket.World.{Connection, World}
use unisock.Socket.World.Memory.{load-live}
use unisock.Tcp.Connection.{send}
use unisock.Examples.Running.{no_socket_hooks}
use unisock.Examples.RttServer.{
  message_str, message_size, Counted, with_counts, Screen, count_bytes, answer, on_receive,
}

abbrev pub bytes_of : List Bytes → ℕ
bytes_of [] = 0
bytes_of (m ∷ ms) = length m + bytes_of ms

module _ {K : Type 0} (sys : System K) (inet_ntop : ℕ → Bytes → ℕ → Option Bytes) (out : Screen K)
    (p : Ptr) where
  -- What a connection receives, one message after the other.
  unfoldable pub receive_all : List Bytes → Cmd (World (Counted K)) (Unit {0})
  receive_all [] w = ok tt w
  receive_all (m ∷ ms) w = and_then (on_receive sys inet_ntop out p m w) (λ _. receive_all ms)

  -- As many times "r".
  abbrev pub reads : List Bytes → K → K
  reads [] k = k
  reads (m ∷ ms) k = reads ms (out.write (114 ∷ []) k)

  abbrev counted : Bytes → World (Counted K) → World (Counted K)
  counted m w = record w {
    kernel = count_bytes p (length m) (out.write (114 ∷ []) w.kernel.0, w.kernel.1);
  }

  on_receive-counted :
      (m : Bytes) (w : World (Counted K)) (c : Connection)
      → w.heap p ≡ some c
      → on_receive sys inet_ntop out p m w
        ≡ answer sys inet_ntop out p ((counted m w).kernel.1 p) (counted m w)
  unfolding on_receive
  on_receive-counted m w c live =
      let u : World (Counted K) = record w {
        kernel = (out.write (114 ∷ []) w.kernel.0, w.kernel.1);
      } in
      rw (load-live p u live) refl

  counted-total :
      (m : Bytes) (w : World (Counted K))
      → w.kernel.1 p + length m < 65537
      → (counted m w).kernel.1 p ≡ w.kernel.1 p + length m
  counted-total m w fits = rw (==_self p) (omega arith)

  answer_part :
      (total : ℕ) (w : World (Counted K))
      → total < message_size
      → answer sys inet_ntop out p total w ≡ ok tt w
  unfolding answer
  answer_part total w part = ground arith

  answer_whole :
      (w : World (Counted K))
      → answer sys inet_ntop out p message_size w
        ≡ and_then
            (send
              (with_counts sys)
              no_socket_hooks
              p
              message_str
              (record w { kernel = (out.write (42 ∷ []) w.kernel.0, w.kernel.1) }))
            (λ _. ok tt)
  unfolding answer
  answer_whole w = refl

  -- However a message of 65536 bytes is cut into pieces, and whatever its bytes are, a connection that
  -- has counted no byte, or so many less, sends exactly one answer, after the last piece; before, it
  -- writes "r" for each piece, and then "*".
  pub receive_all-answers :
      (ms : List Bytes) (last : Bytes) (w : World (Counted K)) (c : Connection)
      → w.heap p ≡ some c
      → w.kernel.1 p + bytes_of ms < message_size
      → w.kernel.1 p + bytes_of ms + length last ≡ message_size
      → (u : World (Counted K)) × (receive_all (ms ++ last ∷ []) w
          ≡ and_then (send (with_counts sys) no_socket_hooks p message_str u) (λ _. ok tt))
        × (u.heap ≡ w.heap)
        × (u.handler ≡ w.handler)
        × (u.kernel.0 ≡ out.write (42 ∷ []) (reads (ms ++ last ∷ []) w.kernel.0))
        × (u.kernel.1 p ≡ message_size)
  unfolding receive_all
  receive_all-answers [] last w c live part whole =
      let total : (counted last w).kernel.1 p ≡ message_size =
        counted-total last w (omega arith) ∙ omega arith in
      let u : World (Counted K) = record (counted last w) {
        kernel = (out.write (42 ∷ []) (counted last w).kernel.0, (counted last w).kernel.1);
      } in
      let answered =
        on_receive-counted last w c live
        ∙ ap (λ n. answer sys inet_ntop out p n (counted last w)) total
        ∙ answer_whole (counted last w) in
      (
        u,
        ap (λ r. and_then r (λ _. ok tt)) answered
            ∙ and_then-pure
                (and_then (send (with_counts sys) no_socket_hooks p message_str u) (λ _. ok tt)),
        refl,
        refl,
        refl,
        total,
      )
  receive_all-answers (m ∷ ms) last w c live part whole =
      let total = counted-total m w (omega arith) in
      let waits =
        on_receive-counted m w c live
        ∙ answer_part ((counted m w).kernel.1 p) (counted m w) (omega (arith, total)) in
      let (u, run, heap, handler, kernel, all) =
        receive_all-answers ms last (counted m w) c live (omega (arith, total))
          (omega (arith, total)) in
      (
        u,
        ap (λ r. and_then r (λ _. receive_all (ms ++ last ∷ []))) waits ∙ run,
        heap,
        handler,
        kernel,
        all,
      )
