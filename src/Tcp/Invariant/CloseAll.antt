-- ===== src/Tcp/Invariant/CloseAll.antt =====
-- The loops of `close` of the server and the client end, when no socket is being closed already and the
-- hooks of closing leave the sockets alone.
use unisock.Prelude.{
  ℕ, zero, suc, ◌<◌, ◌≡◌, true, ◌≢◌, refl, sym, ap, subst, ◌∙◌, ℤ, negsuc, is_neg, Bool, false,
  some, List, [], ◌∷◌, length, All, All-map₂, All-map, arith, inl, inr, Bool-cases, ==ℤ_self, Cmd,
  Returns, returns, Returns-bind, Returns-mono,
}
use unisock.Events.Action.{ActionCallback}
use unisock.Events.Tags.{Tag}
use unisock.Events.Handler.{Ptr}
use unisock.Socket.System.{System}
use unisock.Socket.World.{
  Owner, listeners, clients, connections, ClosedFn, erase_from, user_closed, Connection, UserCall,
  socket_event, connection_event, World, put_container, map_erase, same_owner,
}
use unisock.Socket.World.Memory.{heap_unique, heap-put_object, heap-put_object_ne, same_owner_iff}
use unisock.Socket.Object.{close}
use unisock.Socket.Container.{close_all}
use unisock.Tcp.Server.{close_server}
use unisock.Tcp.Client.{close_client}
use unisock.Tcp.Invariant.{last_exec, IsOwned, Inv, Distinct, Frame}
use unisock.Tcp.Invariant.Kernel.{HasDescriptors}
use unisock.Tcp.Invariant.Keeps.{Frame-refl, Frame-trans}
use unisock.Tcp.Invariant.Shut.{Inv-shut, erases_unique, last_exec-append}
use unisock.Tcp.Invariant.Quiet.{is_closing, IsQuiet, IsQuietOn, IsGone, close_quiet}

module _ {K : Type 0} where
  -- An entry of a container with its object: it is open, and the last of its callbacks of CLOSED erases
  -- this entry.
  abbrev pub IsEntry : World K → Owner → ℤ × Ptr → Type 0
  IsEntry w o (key, p) =
      (c : Connection) × (w.heap p ≡ some c)
      × (is_neg c.sock ≡ false)
      × (last_exec (user_closed 0) c.closed ≡ erase_from o key)

  -- Between two steps of the loop: no entry of the container is being closed.
  pub record IsSettled (w : World K) (o : Owner) : Type 0 where
    pub entries : All (IsEntry w o) (w.containers o)
    pub distinct : Distinct (w.containers o)

map_erase-front : (key : ℤ) (p : Ptr) (m : List (ℤ × Ptr)) → map_erase key ((key, p) ∷ m) ≡ m
unfolding map_erase
map_erase-front key p m = rw (==ℤ_self key) refl

module _ {K : Type 0} (is_open : K → ℤ → Bool) where
  owns_entry :
      (w : World K) (o : Owner) (key : ℤ) (p : Ptr) (closed : List (ActionCallback ClosedFn))
      → (own : IsOwned w p closed) → last_exec (user_closed 0) closed ≡ erase_from o key
      → (own.owner ≡ o) × (own.key ≡ key)
  owns_entry w o key p closed own e = erases_unique (
      sym (last_exec-append (user_closed 0) own.notices _)
      ∙ ap (last_exec (user_closed 0)) (sym own.shape)
      ∙ e)

  -- Every other entry is as it was.
  IsEntry-gone :
      (w t : World K) (p : Ptr) (c : Connection) (o u : Owner) (key : ℤ) (r : ℤ × Ptr)
      → w.heap p ≡ some c
      → last_exec (user_closed 0) c.closed ≡ erase_from o key
      → IsGone is_open w p o key t
      → ¬ ((u ≡ o) × (r.0 ≡ key))
      → IsEntry w u r
      → IsEntry t u r
  IsEntry-gone w t p c o u key r live erases gone other (d, here, up, last) = (
    d,
    gone.heap r.1
        ∙ heap-put_object_ne p w _ r.1 (λ at.
          let same = heap_unique w p r.1 c d live here at in
          other
            (erases_unique (sym last ∙ ap (λ x. last_exec (user_closed 0) x.closed) same ∙ erases)))
        ∙ here,
    up,
    last,
  )

  containers_gone :
      (w t : World K) (p : Ptr) (o : Owner) (key : ℤ)
      → IsGone is_open w p o key t
      → (t.containers o ≡ map_erase key (w.containers o))
        × ((u : Owner) → u ≢ o → t.containers u ≡ w.containers u)
  unfolding put_container
  containers_gone w t p o key gone = (
    ap (λ m. m o) gone.containers ∙ rw ((same_owner_iff o o).1 refl) refl,
    λ u ne. ap (λ m. m u) gone.containers ∙ elim (Bool-cases (same_owner u o)) [
      | inl same ↦ absurd (ne ((same_owner_iff u o).0 same))
      | inr other ↦ rw other refl
    ],
  )

module _ {K : Type 0} (is_open : K → ℤ → Bool) (sys : System K) (desc : HasDescriptors is_open sys)
    (user : UserCall → Cmd (World K) (Unit {0}))
    (quiet : (n : ℕ) → IsQuiet is_open (user (socket_event n)))
    (quiet_closing : (t : Tag) (n : ℕ) (p : Ptr)
      → is_closing t ≡ true
      → IsQuietOn is_open p (user (connection_event t n p))) where
  close_entry-Returns :
      (w : World K) (o : Owner) (key : ℤ) (p : Ptr)
      → Inv is_open w
      → IsEntry w o (key, p)
      → Returns (λ _. IsGone is_open w p o key) (close sys user p w)
  close_entry-Returns w o key p v (c, live, up, last) =
      let v' = Inv-shut is_open sys desc w p c live up v in
      let own = v'.owned p (record c { sock = negsuc 0 }) (heap-put_object p _ _) in
      let (same_owner, same_key) = owns_entry is_open _ o key p c.closed own last in
      subst (λ k. Returns (λ _. IsGone is_open w p o k) (close sys user p w)) same_key
        (subst (λ x. Returns (λ _. IsGone is_open w p x own.key) (close sys user p w)) same_owner
          (close_quiet is_open sys desc user quiet quiet_closing w p c live up v own))

  module _ (o u : Owner) (ne : u ≢ o) (kept : List (ℤ × Ptr)) where
    -- What the loop leaves: the container empty, and the entries of another as they were.
    abbrev Emptied : World K → World K → Type 0
    Emptied w t =
        Inv is_open t
        × (t.containers o ≡ [])
        × (t.containers u ≡ w.containers u)
        × All (IsEntry t u) kept
        × Frame is_open w t

    close_all_from :
        (l : List (ℤ × Ptr)) (fuel : ℕ) (w : World K)
        → w.containers o ≡ l
        → All (IsEntry w o) l
        → Distinct l
        → length l < fuel
        → All (IsEntry w u) kept
        → Inv is_open w
        → Returns (λ _. Emptied w) (close_all sys user fuel o w)
    unfolding close_all
    close_all_from l zero w e entries d lt k v = absurd (omega arith)
    close_all_from [] (suc fuel) w e entries d lt k v =
        rw (e, close_all) (returns (v, e, refl, k, Frame-refl is_open w))
    close_all_from ((key, p) ∷ m) (suc fuel) w e entries d lt k v =
        let (c, live, up, last) = entries.0 in
        rw (e, close_all)
          (Returns-bind (close_entry-Returns w o key p v entries.0) λ _ t gone.
            let (erased, others) = containers_gone is_open w t p o key gone in
            Returns-mono
              (close_all_from m fuel t (erased ∙ ap (map_erase key) e ∙ map_erase-front key p m)
                (All-map₂
                  (λ r entry other.
                    IsEntry-gone is_open w t p c o o key r live last gone (λ x. other x.1) entry)
                  m entries.1 d.0)
                d.1 (omega arith)
                (All-map
                  (λ r entry.
                    IsEntry-gone is_open w t p c o u key r live last gone (λ x. ne x.0) entry)
                  kept k)
                gone.reached.0)
              λ _ s q.
                (q.0, q.1, q.2 ∙ others u ne, q.3, Frame-trans is_open w t s gone.reached.1 q.4))

  -- Let the hooks of closing return and leave the sockets alone, and let the kernel deal in descriptors
  -- as documented. Then `close` of the server ends, when no entry of its two containers is being closed
  -- already: one round for each entry and one more are enough for each of its two loops. It leaves both
  -- containers empty, and keeps the invariant.
  pub close_server-Returns :
      (fuel : ℕ) (w : World K)
      → IsSettled w clients
      → IsSettled w listeners
      → length (w.containers clients) < fuel
      → length (w.containers listeners) < fuel
      → Inv is_open w
      → Returns
          (λ _ t.
            Inv is_open t
            × (t.containers clients ≡ [])
            × (t.containers listeners ≡ [])
            × Frame is_open w t)
          (close_server sys user fuel w)
  unfolding close_server
  close_server-Returns fuel w cs ls lc ll v =
      Returns-bind
        (close_all_from clients listeners (λ e. cc e) (w.containers listeners)
          (w.containers clients) fuel w refl cs.entries cs.distinct lc ls.entries v)
        λ _ t q.
          Returns-mono
            (close_all_from listeners clients (λ e. cc e) [] (w.containers listeners) fuel t q.2 q.3
              ls.distinct ll tt q.0)
            λ _ s r. (r.0, r.2 ∙ q.1, r.1, Frame-trans is_open w t s q.4 r.4)

  -- The same of `close` of the client, which leaves the listeners of a server on that handler alone.
  pub close_client-Returns :
      (fuel : ℕ) (w : World K)
      → IsSettled w connections
      → IsSettled w listeners
      → length (w.containers connections) < fuel
      → Inv is_open w
      → Returns
          (λ _ t.
            Inv is_open t
            × (t.containers connections ≡ [])
            × (t.containers listeners ≡ w.containers listeners)
            × IsSettled t listeners)
          (close_client sys user fuel w)
  unfolding close_client
  close_client-Returns fuel w cs ls lt v =
      Returns-mono
        (close_all_from connections listeners (λ e. cc e) (w.containers listeners)
          (w.containers connections) fuel w refl cs.entries cs.distinct lt ls.entries v)
        λ _ t q. (
          q.0,
          q.1,
          q.2,
          record {
            entries = subst (All (IsEntry t listeners)) (sym q.2) q.3;
            distinct = subst Distinct (sym q.2) ls.distinct;
          },
        )
