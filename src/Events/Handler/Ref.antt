-- ===== src/Events/Handler/Ref.antt =====
-- `get_ref` and `ref_has_changed`: how many changes the wrapping counter tells apart.
use unisock.Prelude.{
  ℕ, suc, ◌+◌, ◌%◌, ◌<◌, ◌≡◌, ℤ, Bool, not, List, [], ◌∷◌, arith, ◌==◌, refl, length, length-modify,
  inl, inr, Option-cases,
}
use unisock.Events.Handler.{
  Handler, find, impl_del_socket, want, socket_want_read, socket_want_write, add_socket,
  delete_socket, get_ref, ref_has_changed,
}
use unisock.Events.Handler.Table.{HandlerCall, adds, deletes, wants_read, wants_write, apply_calls}

-- The changes among some calls: additions and deletions.
unfoldable pub changes : List HandlerCall → ℕ
changes [] = 0
changes (adds fd p ∷ cs) = suc (changes cs)
changes (deletes fd ∷ cs) = suc (changes cs)
changes (wants_read fd b ∷ cs) = changes cs
changes (wants_write fd b ∷ cs) = changes cs

want-invalid : (mask : ℕ) (h : Handler) (fd : ℤ) (b : Bool) → (want mask h fd b).invalid ≡ h.invalid
unfolding want
want-invalid mask h fd b = ground arith

pub socket_want_write-invalid :
    (h : Handler) (fd : ℤ) (b : Bool) → (socket_want_write h fd b).invalid ≡ h.invalid
unfolding socket_want_write
socket_want_write-invalid h fd b = want-invalid 4 h fd b

pub length-socket_want_write :
    (h : Handler) (fd : ℤ) (b : Bool) → length (socket_want_write h fd b).sockets ≡ length h.sockets
unfolding socket_want_write want
length-socket_want_write h fd b = elim (Option-cases (find fd h.sockets)) [
  | inl missing ↦ rw (missing, length) refl
  | inr (i, found) ↦ rw (found, length) (length-modify h.sockets i _)
]

impl_del_socket-invalid : (h : Handler) (fd : ℤ) → (impl_del_socket h fd).invalid ≡ h.invalid
unfolding impl_del_socket
impl_del_socket-invalid h fd = ground arith

pub delete_socket-invalid :
    (h : Handler) (fd : ℤ) → (delete_socket h fd).invalid ≡ (h.invalid + 1) % 65536
unfolding delete_socket
delete_socket-invalid h fd = rw (impl_del_socket-invalid h fd)

apply_calls-invalid :
    (cs : List HandlerCall) (h : Handler)
    → h.invalid < 65536
    → (apply_calls cs h).invalid ≡ (h.invalid + changes cs) % 65536
unfolding apply_calls changes add_socket socket_want_read socket_want_write
apply_calls-invalid [] h b = omega arith
apply_calls-invalid (adds fd p ∷ cs) h b =
    omega (arith, apply_calls-invalid cs (add_socket h fd p) (omega arith))
apply_calls-invalid (deletes fd ∷ cs) h b = omega (
  arith,
  delete_socket-invalid h fd,
  apply_calls-invalid cs (delete_socket h fd) (omega (arith, delete_socket-invalid h fd)),
)
apply_calls-invalid (wants_read fd a ∷ cs) h b = omega (
  arith,
  want-invalid 1 h fd a,
  apply_calls-invalid cs (want 1 h fd a) (omega (arith, want-invalid 1 h fd a)),
)
apply_calls-invalid (wants_write fd a ∷ cs) h b = omega (
  arith,
  want-invalid 4 h fd a,
  apply_calls-invalid cs (want 4 h fd a) (omega (arith, want-invalid 4 h fd a)),
)

-- After any calls on a handler a reference taken before them reads as changed exactly when the number
-- of additions and deletions among them is no multiple of 65536: it sees fewer changes than that, and
-- misses a whole round of the counter.
pub ref_has_changed-apply_calls :
    (cs : List HandlerCall) (h : Handler)
    → h.invalid < 65536
    → ref_has_changed (apply_calls cs h) (get_ref h) ≡ not (changes cs % 65536 == 0)
unfolding ref_has_changed
ref_has_changed-apply_calls cs h b = ground (arith, apply_calls-invalid cs h b)
