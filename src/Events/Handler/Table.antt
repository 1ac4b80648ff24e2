-- ===== src/Events/Handler/Table.antt =====
-- The two parallel vectors of the handler as one table from descriptors to socket objects.
use unisock.Prelude.{
  ℕ, zero, suc, ◌≡◌, refl, ap, ◌∙◌, ℤ, Bool, inl, inr, Option, none, some, List, [], ◌∷◌, ◌++◌,
  length, modify, erase_at, arith, Bool-cases, Option-cases, length-append, length-modify,
  length-erase_at, if◌then◌else◌, ◌==ℤ◌,
}
use mathlib.Core.Option
use unisock.Events.Handler.{
  Ptr, PollFd, Handler, find, impl_del_socket, want, set_events, socket_want_read,
  socket_want_write, add_socket, delete_socket,
}

-- The note of the source: both vectors are always the same size.
abbrev pub IsAligned : Handler → Type 0
IsAligned h = length h.sockets ≡ length h.socket_ptrs

abbrev pub rows : List PollFd → List Ptr → List (ℤ × Ptr)
rows [] ps = []
rows (s ∷ ss) [] = []
rows (s ∷ ss) (p ∷ ps) = (s.fd, p) ∷ rows ss ps

abbrev pub table : Handler → List (ℤ × Ptr)
table h = rows h.sockets h.socket_ptrs

-- The first row of a descriptor, left out.
unfoldable pub remove_row : ℤ → List (ℤ × Ptr) → List (ℤ × Ptr)
remove_row fd [] = []
remove_row fd ((g, p) ∷ t) = let rest = remove_row fd t in if g ==ℤ fd then t else (g, p) ∷ rest

rows-append :
    (ss : List PollFd) (ps : List Ptr) (s : PollFd) (p : Ptr)
    → length ss ≡ length ps
    → rows (ss ++ s ∷ []) (ps ++ p ∷ []) ≡ rows ss ps ++ (s.fd, p) ∷ []
rows-append [] [] s p h = refl
rows-append [] (q ∷ ps) s p h = absurd (omega arith)
rows-append (t ∷ ss) [] s p h = absurd (omega arith)
rows-append (t ∷ ss) (q ∷ ps) s p h = ap (◌∷◌ (t.fd, q)) (rows-append ss ps s p (omega arith))

-- What erasing position `find fd` from both vectors does to the table.
abbrev erase_found : Option ℕ → List PollFd → List Ptr → List (ℤ × Ptr)
erase_found none ss ps = rows ss ps
erase_found (some i) ss ps = rows (erase_at ss i) (erase_at ps i)

erase_found-cons :
    (o : Option ℕ) (s : PollFd) (p : Ptr) (ss : List PollFd) (ps : List Ptr)
    → erase_found (Option.map suc o) (s ∷ ss) (p ∷ ps) ≡ (s.fd, p) ∷ erase_found o ss ps
erase_found-cons none s p ss ps = refl
erase_found-cons (some i) s p ss ps = refl

rows-erase :
    (fd : ℤ) (ss : List PollFd) (ps : List Ptr)
    → length ss ≡ length ps
    → erase_found (find fd ss) ss ps ≡ remove_row fd (rows ss ps)
unfolding find remove_row
rows-erase fd [] ps h = refl
rows-erase fd (s ∷ ss) [] h = absurd (omega arith)
rows-erase fd (s ∷ ss) (p ∷ ps) h = elim (Bool-cases (s.fd ==ℤ fd)) [
  | inl hit ↦ rw hit
  | inr miss ↦ rw miss (
      erase_found-cons (find fd ss) s p ss ps
      ∙ ap (◌∷◌ (s.fd, p)) (rows-erase fd ss ps (omega arith)))
]

table-impl_del_socket :
    (h : Handler) (fd : ℤ)
    → table (impl_del_socket h fd) ≡ erase_found (find fd h.sockets) h.sockets h.socket_ptrs
unfolding impl_del_socket
table-impl_del_socket h fd = ground arith

-- `add_socket` puts the descriptor with its object at the end of the table.
pub table-add_socket :
    (h : Handler) (fd : ℤ) (p : Ptr)
    → IsAligned h
    → table (add_socket h fd p) ≡ table h ++ (fd, p) ∷ []
unfolding add_socket
table-add_socket h fd p a = rows-append h.sockets h.socket_ptrs _ p a

-- `delete_socket` takes out the first row of the descriptor, with the object of that row, and nothing
-- where there is no row.
pub table-delete_socket :
    (h : Handler) (fd : ℤ) → IsAligned h → table (delete_socket h fd) ≡ remove_row fd (table h)
unfolding delete_socket
table-delete_socket h fd a = table-impl_del_socket h fd ∙ rows-erase fd h.sockets h.socket_ptrs a

rows-modify :
    (f : PollFd → PollFd) (i : ℕ) (ss : List PollFd) (ps : List Ptr)
    → ((s : PollFd) → (f s).fd ≡ s.fd)
    → rows (modify ss i f) ps ≡ rows ss ps
rows-modify f i [] ps h = refl
rows-modify f zero (s ∷ ss) [] h = refl
rows-modify f zero (s ∷ ss) (p ∷ ps) h = rw (h s)
rows-modify f (suc i) (s ∷ ss) [] h = refl
rows-modify f (suc i) (s ∷ ss) (p ∷ ps) h = ap (◌∷◌ (s.fd, p)) (rows-modify f i ss ps h)

set_events-fd : (mask : ℕ) (active : Bool) (s : PollFd) → (set_events s mask active).fd ≡ s.fd
unfolding set_events
set_events-fd mask active s = refl

table-want : (mask : ℕ) (h : Handler) (fd : ℤ) (b : Bool) → table (want mask h fd b) ≡ table h
unfolding want
table-want mask h fd b = elim (Option-cases (find fd h.sockets)) [
  | inl e ↦ rw (e, want)
  | inr (i, e) ↦ rw (e, want) (rows-modify _ i h.sockets h.socket_ptrs (set_events-fd mask b))
]

impl_del_socket-IsAligned : (h : Handler) (fd : ℤ) → IsAligned h → IsAligned (impl_del_socket h fd)
unfolding impl_del_socket
impl_del_socket-IsAligned h fd a = elim (Option-cases (find fd h.sockets)) [
  | inl e ↦ rw (e, impl_del_socket) a
  | inr (i, e) ↦ rw (e, impl_del_socket) (length-erase_at h.sockets h.socket_ptrs i a)
]

want-IsAligned :
    (mask : ℕ) (h : Handler) (fd : ℤ) (b : Bool) → IsAligned h → IsAligned (want mask h fd b)
unfolding want
want-IsAligned mask h fd b a = elim (Option-cases (find fd h.sockets)) [
  | inl e ↦ rw (e, want) a
  | inr (i, e) ↦ rw (e, want) (length-modify h.sockets i _ ∙ a)
]

-- The calls that change a handler.
pub data HandlerCall : Type 0 where
  adds : ℤ → Ptr → HandlerCall
  deletes : ℤ → HandlerCall
  wants_read wants_write : ℤ → Bool → HandlerCall

unfoldable pub apply_call : HandlerCall → Handler → Handler
apply_call (adds fd p) h = add_socket h fd p
apply_call (deletes fd) h = delete_socket h fd
apply_call (wants_read fd b) h = socket_want_read h fd b
apply_call (wants_write fd b) h = socket_want_write h fd b

unfoldable pub apply_calls : List HandlerCall → Handler → Handler
unfolding apply_call
apply_calls [] h = h
apply_calls (c ∷ cs) h = apply_calls cs (apply_call c h)

-- What each call means for the table.
unfoldable pub table_call : HandlerCall → List (ℤ × Ptr) → List (ℤ × Ptr)
table_call (adds fd p) t = t ++ (fd, p) ∷ []
table_call (deletes fd) t = remove_row fd t
table_call (wants_read fd b) t = t
table_call (wants_write fd b) t = t

unfoldable pub table_calls : List HandlerCall → List (ℤ × Ptr) → List (ℤ × Ptr)
unfolding table_call
table_calls [] t = t
table_calls (c ∷ cs) t = table_calls cs (table_call c t)

pub apply_call-IsAligned :
    (c : HandlerCall) (h : Handler) → IsAligned h → IsAligned (apply_call c h)
unfolding apply_call add_socket delete_socket socket_want_read socket_want_write
apply_call-IsAligned (adds fd p) h a = omega (
  arith,
  length-append h.sockets (record { fd = fd; events = 1; revents = 0 } ∷ []),
  length-append h.socket_ptrs (p ∷ []),
)
apply_call-IsAligned (deletes fd) h a = impl_del_socket-IsAligned h fd a
apply_call-IsAligned (wants_read fd b) h a = want-IsAligned _ h fd b a
apply_call-IsAligned (wants_write fd b) h a = want-IsAligned _ h fd b a

pub table-apply_call :
    (c : HandlerCall) (h : Handler) → IsAligned h → table (apply_call c h) ≡ table_call c (table h)
unfolding apply_call table_call socket_want_read socket_want_write
table-apply_call (adds fd p) h a = table-add_socket h fd p a
table-apply_call (deletes fd) h a = table-delete_socket h fd a
table-apply_call (wants_read fd b) h a = table-want _ h fd b
table-apply_call (wants_write fd b) h a = table-want _ h fd b

-- From a handler whose vectors have the same size, any sequence of calls keeps the sizes equal and
-- acts on the pair of vectors as on one table: an added descriptor goes to its end, a deletion takes
-- out the first row of the descriptor, and the interest calls leave it alone.
pub table-apply_calls :
    (cs : List HandlerCall) (h : Handler)
    → IsAligned h
    → IsAligned (apply_calls cs h) × (table (apply_calls cs h) ≡ table_calls cs (table h))
unfolding apply_calls table_calls
table-apply_calls [] h a = (a, refl)
table-apply_calls (c ∷ cs) h a =
    let (a', e) = table-apply_calls cs (apply_call c h) (apply_call-IsAligned c h a) in
    (a', e ∙ ap (table_calls cs) (table-apply_call c h a))
