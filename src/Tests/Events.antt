-- ===== src/Tests/Events.antt =====
-- The theorems on the event system, at concrete inputs.
use unisock.Prelude.{
  ℕ, ◌≡◌, refl, sym, ap, ◌∙◌, pos, not, true, false, inl, Option, none, some, List, [], ◌∷◌, ◌++◌,
  reverse, keep, arith, ok, Cmd, Returns, returns, ◌==◌, ◌%◌, if◌then◌else◌,
}
use unisock.Prelude.{All}
use unisock.Events.Action.{ActionCallback, add_callback, execute, stops_after, is_queued_end}
use unisock.Events.Action.Execute.{LeavesList, IsCareful}
use unisock.Events.Action.Order.{add_all, is_plain, add_all_last}
use unisock.Events.Action.Execute.{scheduled, run_all, execute-scheduled}
use unisock.Events.Tags.{tcp, recv, connection_actions_list}
use unisock.Events.ActionHandler.{ActionHandler, init_actions}
use unisock.Events.Handler.{Ptr, Handler, delete_socket, get_ref, ref_has_changed, find}
use unisock.Events.Handler.Table.{
  IsAligned, HandlerCall, adds, deletes, wants_write, apply_call, apply_calls, table, table_calls,
  table-apply_calls, apply_call-IsAligned,
}
use unisock.Events.Handler.Ref.{delete_socket-invalid, changes, ref_has_changed-apply_calls}
use unisock.Events.Poll.{poll_impl}
use unisock.Events.Poll.Safety.{After, poll_impl-Returns}
use unisock.Events.Poll.Plain.{reports, ready_count, serve_all}
use unisock.Events.Poll.Serve.{poll_impl-serve}
use unisock.Tests.Fixtures.{two_rows, Noted, note, noting, deletes_four, deleting}

abbrev some_calls : List HandlerCall
some_calls = adds (pos 7) 3 ∷ wants_write (pos 7) true ∷ deletes (pos 3) ∷ deletes (pos 9) ∷ []

table-apply_calls_example :
    IsAligned (apply_calls some_calls two_rows)
    × (table (apply_calls some_calls two_rows) ≡ table_calls some_calls (table two_rows))
table-apply_calls_example = table-apply_calls some_calls two_rows refl

ref_has_changed-apply_calls_example :
    ref_has_changed (apply_calls some_calls two_rows) (get_ref two_rows)
    ≡ not (changes some_calls % 65536 == 0)
ref_has_changed-apply_calls_example = ref_has_changed-apply_calls some_calls two_rows (omega arith)

-- Callbacks that are numbers; each is noted, and the second clears the list.
abbrev Listed : Type 0
Listed = Option ℕ × List ℕ

abbrev run_listed : ℕ → Cmd Listed (Unit {0})
run_listed n s = ok tt (if n == 2 then none else s.0, s.1 ++ n ∷ [])

abbrev callback : ℕ → ℕ → ActionCallback ℕ
callback n flags = record { exec = n; flags = flags }

leaves : (n : ℕ) → (n == 2) ≡ false → {A : Type 0} → A → LeavesList run_listed (λ s. s.0) 4 n
leaves n other _ u s t e r =
    let ran = rw other at r in
    let left : (s.0, s.1 ++ n ∷ []) ≡ t = cc ran in sym (ap (λ x. x.0) left) ∙ e

all-IsCareful :
    All
      (IsCareful run_listed (λ s. s.0) 4)
      (callback 1 0 ∷ callback 3 1 ∷ callback 2 6 ∷ callback 4 0 ∷ [])
unfolding stops_after
all-IsCareful =
    (leaves 1 refl, (leaves 3 refl, ((λ stops. absurd (cc stops)), (leaves 4 refl, tt))))

execute-scheduled_example :
    execute run_listed
      (λ s. s.0)
      (callback 1 0 ∷ callback 3 1 ∷ callback 2 6 ∷ callback 4 0 ∷ [])
      (some 4, [])
    ≡ run_all run_listed
        (scheduled (callback 1 0 ∷ callback 3 1 ∷ callback 2 6 ∷ callback 4 0 ∷ []))
        (some 4, [])
execute-scheduled_example =
    execute-scheduled run_listed (λ s. s.0)
      (callback 1 0 ∷ callback 3 1 ∷ callback 2 6 ∷ callback 4 0 ∷ []) (some 4, []) refl
      all-IsCareful

abbrev history : List (ActionCallback ℕ)
history = callback 2 4 ∷ callback 3 0 ∷ callback 4 4 ∷ []

add_all_last_example :
    add_all (callback 1 6 ∷ history) []
    ≡ (keep is_plain history ++ reverse (keep is_queued_end history)) ++ callback 1 6 ∷ []
unfolding is_queued_end
add_all_last_example = add_all_last (callback 1 6) history refl

abbrev no_callbacks : ActionHandler ℕ
no_callbacks = init_actions connection_actions_list

abbrev one_callback : ActionHandler ℕ
one_callback = (tcp recv, add_callback 7 0 []) ∷ []

note_quiet : (p : Ptr) (s : Noted) (u : Unit {0}) (t : Noted) → note p s ≡ ok u t → t.0 ≡ s.0
note_quiet p s u t e = let same : (s.0, s.1 ++ p ∷ []) ≡ t = cc in sym (ap (λ x. x.0) same)

deletes_four-After :
    (h : Handler) (p : Ptr) → IsAligned h → Returns (After deleting IsAligned h) (deletes_four p h)
unfolding ref_has_changed apply_call
deletes_four-After h p a = returns (
  apply_call-IsAligned (deletes (pos 4)) h a,
  λ same. absurd (ground (arith, delete_socket-invalid h (pos 4))),
)

poll_impl-Returns_example : Returns (λ _. IsAligned) (poll_impl deleting (pos 10) two_rows)
poll_impl-Returns_example =
    poll_impl-Returns deleting IsAligned (λ h a. a) (λ h i p a e. deletes_four-After h p a)
      (λ h i p a e. returns (a, λ _. refl)) (pos 10) two_rows (λ h a. a) refl

poll_impl-serve_example :
    poll_impl noting (pos 10) (two_rows, [])
    ≡ serve_all noting (reports two_rows.sockets two_rows.socket_ptrs) (two_rows, [])
unfolding ready_count reports
poll_impl-serve_example =
    poll_impl-serve noting (pos 10) (two_rows, []) note_quiet note_quiet refl (inl refl)

changed_four : ref_has_changed (delete_socket two_rows (pos 4)) (get_ref two_rows) ≡ true
unfolding ref_has_changed delete_socket find
changed_four = refl
