-- ===== src/Datagram/Kept/Standing.antt =====
-- Where a datagram socket stands: with a descriptor that the handler waits for, or without; and `close`.
use unisock.Prelude.{
  ℕ, suc, ◌≡◌, refl, ap, ◌∙◌, ℤ, negsuc, is_neg, is_pos, Bool, true, false, not, List, [], ◌∷◌,
  arith, length, ◌==◌, ==ℤ_self, Cmd, Returns, returns, Returns-bind, Returns-mono,
}
use unisock.Events.Handler.{Ptr, PollFd, empty, delete_socket}
use unisock.Events.Handler.Table.{
  IsAligned, rows, table, remove_row, deletes, apply_call, apply_call-IsAligned,
  table-delete_socket,
}
use unisock.Socket.System.{System}
use unisock.Datagram.Socket.{
  EndFn, pass_closed, user_end, DatagramCall, ended, addressed, Datagram, run_end, close_socket,
}
use unisock.Datagram.Loop.{serve_then_close}
use unisock.Datagram.Kept.{Kept, Kept-sock, KeepsAt, IsTame, run_action-Kept}
use unisock.Datagram.Kept.Turn.{IsPlaced, empty_size, serve-Kept, serve_empty}

nil_of_length : (xs : List PollFd) → length xs ≡ 0 → xs ≡ []
nil_of_length [] e = refl
nil_of_length (x ∷ xs) e = absurd (omega arith)

is_neg_of_pos : (fd : ℤ) → is_pos fd ≡ true → is_neg fd ≡ false
is_neg_of_pos fd e = ground arith

rows_empty :
    (ss : List PollFd) (ps : List Ptr)
    → length ss ≡ length ps
    → rows ss ps ≡ []
    → (ss ≡ []) × (ps ≡ [])
rows_empty [] [] a e = (refl, refl)
rows_empty [] (p ∷ ps) a e = absurd (omega arith)
rows_empty (s ∷ ss) [] a e = absurd (omega arith)
rows_empty (s ∷ ss) (p ∷ ps) a e = cc e

module _ {K : Type 0} where
  -- The socket has this descriptor, which is above 0, and the handler waits for it and for nothing else.
  pub record IsWatched (home : ℤ) (t : Datagram K) : Type 0 where
    pub at_home : t.sock ≡ home
    pub positive : is_pos t.sock ≡ true
    pub one_object : t.handler.socket_ptrs ≡ t.self ∷ []
    pub one_entry : length t.handler.sockets ≡ 1
    pub one_row : table t.handler ≡ (t.sock, t.self) ∷ []

  -- The socket has no descriptor, and the handler waits for nothing.
  pub record IsUnwatched (t : Datagram K) : Type 0 where
    pub no_descriptor : t.sock ≡ negsuc 0
    pub no_object : t.handler.socket_ptrs ≡ []
    pub no_entry : t.handler.sockets ≡ []

  -- The one or the other, by whether there was no descriptor to get.
  abbrev pub Stands : ℤ → Bool → Datagram K → Type 0
  Stands home true t = IsUnwatched t
  Stands home false t = IsWatched home t

  pub Kept-Stands :
      (home : ℤ) (failed : Bool) (w t : Datagram K)
      → Kept w t
      → Stands home failed w
      → Stands home failed t
  Kept-Stands home true w t k s = record {
    no_descriptor = Kept-sock k ∙ s.no_descriptor;
    no_object = ap (λ v. v.handler.socket_ptrs) k.same ∙ s.no_object;
    no_entry = nil_of_length t.handler.sockets (k.same_size ∙ ap length s.no_entry);
  }
  Kept-Stands home false w t k s =
      let self : t.self ≡ w.self = ap (λ v. v.self) k.same in
      record {
        at_home = Kept-sock k ∙ s.at_home;
        positive = rw (Kept-sock k) s.positive;
        one_object = ap (λ v. v.handler.socket_ptrs) k.same ∙ rw self s.one_object;
        one_entry = k.same_size ∙ s.one_entry;
        one_row = k.same_table ∙ rw (self, Kept-sock k) s.one_row;
      }

  pub Stands-IsPlaced :
      (home : ℤ) (failed : Bool) (t : Datagram K) → Stands home failed t → IsPlaced home t
  Stands-IsPlaced home true t s = record {
    aligned = rw (s.no_entry, s.no_object) refl;
    own = rw s.no_object tt;
  }
  Stands-IsPlaced home false t s = record {
    aligned = s.one_entry ∙ rw s.one_object refl;
    own = rw s.one_object ((refl, (s.positive, s.at_home)), tt);
  }

  pub Stands-empty :
      (home : ℤ) (failed : Bool) (t : Datagram K) → Stands home failed t → empty t.handler ≡ failed
  Stands-empty home true t s = empty_size t.handler ∙ ap (λ ss. length ss == 0) s.no_entry
  Stands-empty home false t s = empty_size t.handler ∙ ap (λ n. n == 0) s.one_entry

module _ {K : Type 0} (sys : System K) (user : DatagramCall → Cmd (Datagram K) (Unit {0}))
    (home : ℤ) (tame : IsTame sys home user) where
  run_end-Kept : (f : EndFn) (w : Datagram K) → KeepsAt w (run_end sys user f)
  unfolding run_end
  run_end-Kept pass_closed w =
      run_action-Kept (λ n. user (addressed n w.address)) (λ v. v.udp_closed) w (λ k a ss. refl)
        λ t n k. tame t (addressed n w.address) tt
  run_end-Kept (user_end n) w = tame w (ended n) tt

  -- `close` returns and leaves no descriptor and no entry.
  pub close_socket-Returns :
      (failed : Bool) (w : Datagram K)
      → Stands home failed w
      → Returns (λ _. IsUnwatched) (close_socket sys user w)
  unfolding close_socket apply_call remove_row
  close_socket-Returns true w s =
      let negative : is_neg w.sock ≡ true = ap is_neg s.no_descriptor in rw negative (returns s)
  close_socket-Returns false w s =
      let h = delete_socket w.handler w.sock in
      let a : IsAligned w.handler = (Stands-IsPlaced home false w s).aligned in
      let gone : table h ≡ [] =
        table-delete_socket w.handler w.sock a
        ∙ ap (remove_row w.sock) s.one_row
        ∙ rw (==ℤ_self w.sock) refl in
      let (no_entry, no_object) =
        rows_empty h.sockets h.socket_ptrs (apply_call-IsAligned (deletes w.sock) w.handler a)
          gone in
      let u : Datagram K = record w {
        handler = h;
        kernel = sys.close w.sock w.kernel;
        sock = negsuc 0;
      } in
      let down : IsUnwatched u = record {
        no_descriptor = refl;
        no_object = no_object;
        no_entry = no_entry;
      } in
      rw (is_neg_of_pos w.sock s.positive) (
        Returns-mono
          (run_action-Kept (run_end sys user) (λ v. v.closed) u (λ k a ss. refl)
            λ t f k. run_end-Kept f t)
          λ _ t k. Kept-Stands home true u t k down)

  -- After at least one turn the loop has ended where the socket has no descriptor, and goes on where it
  -- has one.
  pub serve_then_close-Stands :
      (body : Cmd (Datagram K) (Unit {0})) (turns : ℕ) (failed : Bool) (w : Datagram K)
      → ((t : Datagram K) → IsWatched home t → KeepsAt t body)
      → Stands home failed w
      → Returns
          (λ running t. Stands home failed t × (running ≡ not failed))
          (serve_then_close sys user body (suc turns) w)
  unfolding serve_then_close
  serve_then_close-Stands body turns true w kept s =
      rw (serve_empty sys user home tame body turns w (Stands-empty home true w s))
        (Returns-bind (close_socket-Returns true w s) λ _ t q. returns (q, refl))
  serve_then_close-Stands body turns false w kept s =
      Returns-bind
        (serve-Kept sys user home tame body (suc turns) w
          (λ t k e. kept t (Kept-Stands home false w t k s)) (Stands-IsPlaced home false w s))
        λ running t q.
          rw (q.1 (Stands-empty home false w s)) (returns (Kept-Stands home false w t q.0 s, refl))
