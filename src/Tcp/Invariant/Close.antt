-- ===== src/Tcp/Invariant/Close.antt =====
-- `socket::close` keeps the invariant: the row of the handler goes, then the hooks of CLOSED run while the
-- object is still there, and the last of them erases it.
use unisock.Prelude.{
  ◌≡◌, refl, sym, ap, subst, ◌∙◌, ℤ, negsuc, is_neg, Bool, true, false, some, List, length, All-map,
  inl, inr, Bool-cases, Cmd, Returns, returns,
}
use unisock.Events.Action.{ActionCallback, execute, is_skipped, stops_after}
use unisock.Events.Action.Returns.{execute_last-Returns}
use unisock.Events.Handler.{Ptr}
use unisock.Socket.System.{System}
use unisock.Socket.World.{ClosedFn, Connection, UserCall, World, length_of}
use unisock.Socket.World.Memory.{load-live, heap-put_object}
use unisock.Socket.Object.Closing.{close_step, erase_object_found}
use unisock.Socket.Container.Closing.{close_again}
use unisock.Socket.Object.{run_closed, execute_closed, close}
use unisock.Tcp.Invariant.{IsOwned, Inv, KeepsHooks}
use unisock.Tcp.Invariant.Kernel.{HasDescriptors}
use unisock.Tcp.Invariant.Keeps.{Reached, Reached-then, Frame-refl}
use unisock.Tcp.Invariant.Shut.{shut, Inv-shut, ShutFrame, shut-ShutFrame}
use unisock.Tcp.Invariant.Erased.{Inv-erased, Frame-erased, entry_of_last}
use unisock.Tcp.Invariant.Hooks.{run_closed-Returns}

module _ {K : Type 0} (is_open : K → ℤ → Bool) (sys : System K) (desc : HasDescriptors is_open sys)
    (user : UserCall → Cmd (World K) (Unit {0})) (hooks : KeepsHooks is_open user) where
  -- The run of the list `l` of a dying object `p`, from the state `u` that `close` brings about.
  execute_dying-Returns :
      (w u : World K) (p : Ptr) (c : Connection) (l : List (ActionCallback ClosedFn))
      (own : IsOwned u p l)
      → w.heap p ≡ some c
      → is_neg c.sock ≡ false
      → ShutFrame is_open w p u
      → Inv is_open u
      → ((t : World K)
          → Reached is_open u t
          → (d : Connection) × (t.heap p ≡ some d) × (is_neg d.sock ≡ true) × (d.closed ≡ l))
      → Returns
          (λ _. Reached is_open w)
          (execute (run_closed sys user) (length_of p (λ x. x.closed)) l u)
  execute_dying-Returns w u p c l own live up f v still =
      subst
        (λ x.
          Returns (λ _. Reached is_open w)
            (execute (run_closed sys user) (length_of p (λ y. y.closed)) x u))
        (sym own.shape)
        (execute_last-Returns (run_closed sys user) (length_of p (λ x. x.closed))
          (Reached is_open u) (Reached is_open w) own.notices _ u
          (All-map
            (λ cb n t r. Reached-then is_open u t (run_closed sys user cb.exec) r (
              let (d, e, down, _) = still t r in
              run_closed-Returns is_open sys user hooks p cb.exec t d n.1 n.2 e down r.0))
            own.notices own.all_notices)
          (All-map (λ cb n. n.0) own.notices own.all_notices)
          (λ t r.
            let (d, e, _, same) = still t r in rw e (ap (λ x. some (length x)) (same ∙ own.shape)))
          (unfold is_skipped in refl) (unfold stops_after in refl)
          (λ t r.
            let (d, e, down, same) = still t r in
            let owned : IsOwned t p l = subst (IsOwned t p) same (r.0.owned p d e) in
            let found = entry_of_last is_open u t p l own owned in
            unfold run_closed in
            rw (erase_object_found sys user own.owner own.key p t found) (
              returns (
                Inv-erased is_open t own.owner own.key p d e down found r.0,
                Frame-erased is_open w u t own.owner own.key p c live up f r.1,
              )))
          (v, Frame-refl is_open u))

  execute_closed-Returns :
      (w : World K) (p : Ptr) (c : Connection)
      → w.heap p ≡ some c
      → is_neg c.sock ≡ false
      → Inv is_open w
      → let u = shut is_open w p c (sys.close c.sock w.kernel) in
        Returns (λ _. Reached is_open w) (execute_closed sys user p u)
  unfolding execute_closed
  execute_closed-Returns w p c live up v =
      let u = shut is_open w p c (sys.close c.sock w.kernel) in
      let d : Connection = record c { sock = negsuc 0 } in
      let here : u.heap p ≡ some d = heap-put_object p _ (some d) in
      let v' = Inv-shut is_open sys desc w p c live up v in
      let own = v'.owned p d here in
      rw (load-live p u here) (
        execute_dying-Returns w u p c c.closed own live up (shut-ShutFrame is_open w p c _ live up)
          v' (λ t r. r.1.dying p d here refl))

  -- Let the program's callbacks keep the invariant where the library calls them, and let the kernel
  -- deal in descriptors as documented. Then `close` of any object that is there returns, its hooks and
  -- its erasure included, and keeps the invariant; it leaves the closing callbacks of the objects that
  -- are being closed already, and the actions of the server and the client, as they are.
  pub close-Returns :
      (w : World K) (p : Ptr) (c : Connection)
      → w.heap p ≡ some c
      → Inv is_open w
      → Returns (λ _. Reached is_open w) (close sys user p w)
  close-Returns w p c live v = elim (Bool-cases (is_neg c.sock)) [
    | inl down ↦ rw (close_again sys user p w c live down) (returns (v, Frame-refl is_open w))
    | inr up ↦ rw (close_step sys user w p c live up) (execute_closed-Returns w p c live up v)
  ]
