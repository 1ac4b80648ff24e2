-- ===== src/Datagram/Kept/Turn.antt =====
-- A turn of the loop over a datagram socket, and any number of turns.
use unisock.Prelude.{
  ℕ, zero, suc, ◌≡◌, refl, sym, ap, ◌∙◌, ℤ, negsuc, true, false, not, [], ◌∷◌, All, All-get, inl,
  inr, Bool-cases, arith, get_elem?, some, length, ◌==◌, ==_self, ok, Cmd, Returns, returns,
  Returns-bind, Returns-mono,
}
use unisock.Events.Handler.{Ptr, Handler, empty}
use unisock.Events.Handler.Table.{IsAligned}
use unisock.Events.Poll.{poll}
use unisock.Events.Poll.Safety.{poll_impl-Returns}
use unisock.Socket.System.{System}
use unisock.Tcp.Invariant.Turn.{write_revents-rows}
use unisock.Datagram.Socket.{DatagramCall, Datagram}
use unisock.Datagram.Udp.{on_readable, on_writeable}
use unisock.Datagram.Loop.{sys_poll, program, at_self, poll_once, serve}
use unisock.Datagram.Kept.{
  Kept, Kept-refl, Kept-trans, Kept-sock, IsAt, KeepsAt, IsTame, on_readable-Kept,
  on_writeable-Kept,
}

pub empty_size : (h : Handler) → empty h ≡ (length h.sockets == 0)
unfolding empty
empty_size h =
    elim h.sockets as (λ ss. (elim ss [ [] ↦ true | _ ∷ _ ↦ false ]) ≡ (length ss == 0)) [
      | [] ↦ refl
      | s ∷ ss ↦ ground arith
    ]

module _ {K : Type 0} where
  -- The handler has entries of the socket alone, and only while it has a descriptor.
  pub record IsPlaced (home : ℤ) (w : Datagram K) : Type 0 where
    pub aligned : IsAligned w.handler
    pub own : All (λ q. (q ≡ w.self) × IsAt home w) w.handler.socket_ptrs

  pub Kept-IsPlaced : (home : ℤ) (w t : Datagram K) → Kept w t → IsPlaced home w → IsPlaced home t
  Kept-IsPlaced home w t k placed =
      let ptrs : t.handler.socket_ptrs ≡ w.handler.socket_ptrs =
        ap (λ v. v.handler.socket_ptrs) k.same in
      record {
        aligned = k.same_size ∙ placed.aligned ∙ ap length (sym ptrs);
        own = rw (ptrs, ap (λ v. v.self) k.same, Kept-sock k) placed.own;
      }

  pub empty-Kept : (w t : Datagram K) → Kept w t → empty t.handler ≡ empty w.handler
  empty-Kept w t k =
      empty_size t.handler ∙ ap (λ n. n == 0) k.same_size ∙ sym (empty_size w.handler)

module _ {K : Type 0} (sys : System K) where
  sys_poll-Kept : (timeout : ℤ) (w : Datagram K) → Kept w (sys_poll sys timeout w).1
  unfolding sys_poll
  sys_poll-Kept timeout w =
      let r = sys.poll w.handler.sockets timeout w.kernel in
      let same = write_revents-rows w.handler.sockets r.1 w.handler.socket_ptrs in
      record { same = refl; same_size = same.0; same_table = same.1 }

  module _ (user : DatagramCall → Cmd (Datagram K) (Unit {0})) (home : ℤ)
      (tame : IsTame sys home user) where
    at_self-Kept :
        (member : Cmd (Datagram K) (Unit {0})) (w : Datagram K) (i : ℕ) (p : Ptr)
        → ((t : Datagram K) → IsAt home t → KeepsAt t member)
        → IsPlaced home w
        → get_elem? w.handler.socket_ptrs i ≡ some p
        → KeepsAt w (at_self sys user member p)
    unfolding at_self
    at_self-Kept member w i p kept placed e =
        let (own, up) =
          All-get (λ q. (q ≡ w.self) × IsAt home w) w.handler.socket_ptrs i placed.own e in
        rw (own, ==_self w.self) (kept w up)

    -- Let the program's callbacks return, and leave the socket, its actions and the handler alone, and
    -- let the handler have entries of the socket only, which then has a descriptor. Then a turn of the
    -- loop returns, whatever `::poll` reports and the other system calls give, with the socket, its
    -- actions and the table of the handler as they were, and says whether the handler has an entry.
    pub poll_once-Kept :
        (w : Datagram K)
        → IsPlaced home w
        → Returns (λ more t. Kept w t × (more ≡ not (empty w.handler))) (poll_once sys user w)
    unfolding poll_once poll program
    poll_once-Kept w placed =
        let turn =
          poll_impl-Returns (program sys user) (Kept w)
            (λ s k. (Kept-IsPlaced home w s k placed).aligned)
            (λ s i p k e.
              Returns-mono
                (at_self-Kept (on_readable sys user) s i p (on_readable-Kept sys user home tame)
                  (Kept-IsPlaced home w s k placed) e)
                λ _ t k'. (Kept-trans w s t k k', λ c. k'.same_size))
            (λ s i p k e.
              Returns-mono
                (at_self-Kept (on_writeable sys user) s i p (on_writeable-Kept sys user home tame)
                  (Kept-IsPlaced home w s k placed) e)
                λ _ t k'. (Kept-trans w s t k k', λ c. k'.same_size))
            (negsuc 0) w (λ s k. Kept-trans w s _ k (sys_poll-Kept (negsuc 0) s)) (Kept-refl w) in
        elim (Bool-cases (empty w.handler)) [
          | inl nothing ↦ rw nothing (returns (Kept-refl w, refl))
          | inr some_row ↦ rw some_row (Returns-bind turn λ _ t k. returns (k, refl))
        ]

    -- So it is of any number of turns, with what the program does between them: they end at once where the
    -- handler has no entry, and else never.
    pub serve-Kept :
        (body : Cmd (Datagram K) (Unit {0})) (turns : ℕ) (w : Datagram K)
        → ((t : Datagram K) → Kept w t → empty w.handler ≡ false → KeepsAt t body)
        → IsPlaced home w
        → Returns
            (λ running t. Kept w t × (empty w.handler ≡ false → running ≡ true))
            (serve sys user body turns w)
    unfolding serve
    serve-Kept body zero w kept placed = returns (Kept-refl w, λ e. refl)
    serve-Kept body (suc turns) w kept placed = Returns-bind (poll_once-Kept w placed) λ more s q.
        elim (Bool-cases (empty w.handler)) [
          | inl nothing ↦ rw (q.1, nothing) (returns (q.0, λ e. cc e))
          | inr some_row ↦
              rw (q.1, some_row)
                (Returns-bind (kept s q.0 some_row) λ _ t k.
                  let k' = Kept-trans w s t q.0 k in
                  Returns-mono
                    (serve-Kept body turns t (λ u ku e. kept u (Kept-trans w t u k' ku) some_row)
                      (Kept-IsPlaced home w t k' placed))
                    λ running u r.
                      (Kept-trans w t u k' r.0, λ e. r.1 (empty-Kept w t k' ∙ some_row)))
        ]

    pub serve_empty :
        (body : Cmd (Datagram K) (Unit {0})) (turns : ℕ) (w : Datagram K)
        → empty w.handler ≡ true
        → serve sys user body (suc turns) w ≡ ok false w
    unfolding serve poll_once poll program
    serve_empty body turns w nothing = rw nothing refl
