-- ===== src/Tcp/Steady.antt =====
-- How often the code changes the handler: what a call adds to its counter, whatever it returns with. The
-- rules follow the code, and say nothing of a call that faults.
pub mod Calls
pub mod Traffic
pub mod Loop
use unisock.Prelude.{
  ℕ, ◌+◌, ◌%◌, ◌≤◌, ◌≡◌, refl, sym, subst, arith, length, ok, fault, Run, Cmd, and_then, IfReturns,
  IfReturns-bind,
}
use unisock.Events.Handler.{Handler}
use unisock.Socket.World.{World, UserCall}

-- From one handler to another by so many changes at most; without a change, of the same size.
pub record Moved (n : ℕ) (h h' : Handler) : Type 0 where
  pub changes : ℕ
  pub at_most : changes ≤ n
  pub counter : h'.invalid % 65536 ≡ (h.invalid + changes) % 65536
  pub same_size : changes ≡ 0 → length h'.sockets ≡ length h.sockets

pub Moved-refl : (n : ℕ) (h : Handler) → Moved n h h
Moved-refl n h = record {
  changes = 0;
  at_most = omega arith;
  counter = omega arith;
  same_size = λ z. refl;
}

pub Moved-trans : (m n : ℕ) (h i j : Handler) → Moved m h i → Moved n i j → Moved (m + n) h j
Moved-trans m n h i j a b = record {
  changes = a.changes + b.changes;
  at_most = omega arith;
  counter = omega arith;
  same_size = λ z. omega (arith, a.same_size (omega arith), b.same_size (omega arith));
}

-- Where the call returns, it has made so many changes at most.
abbrev pub Ends {ℓ} : {K : Type 0} {A : Type ℓ} → ℕ → World K → Run (World K) A → Type 0
Ends n w r = IfReturns (λ t. Moved n w.handler t.handler) r

pub Ends-refl {ℓ} :
    {K : Type 0} {A : Type ℓ} (n : ℕ) (w : World K) (a : A) (t : World K)
    → t.handler ≡ w.handler
    → Ends n w (ok a t)
Ends-refl n w a t same = subst (Moved n w.handler) (sym same) (Moved-refl n w.handler)

module _ {ℓ} {K : Type 0} {A : Type ℓ} where
  pub Ends-then :
      (m n : ℕ) (w s : World K) (r : Run (World K) A)
      → Moved m w.handler s.handler
      → Ends n s r
      → Ends (m + n) w r
  Ends-then m n w s (ok a t) p q = Moved-trans m n w.handler s.handler t.handler p q
  Ends-then m n w s (fault x) p q = tt

  pub Ends-le : (m n : ℕ) (w : World K) (r : Run (World K) A) → m ≤ n → Ends m w r → Ends n w r
  Ends-le m n w (ok a t) le q = record {
    changes = q.changes;
    at_most = omega arith;
    counter = q.counter;
    same_size = q.same_size;
  }
  Ends-le m n w (fault x) le q = tt

module _ {ℓ κ} {K : Type 0} {A : Type ℓ} {B : Type κ} where
  pub Ends-bind :
      (m n : ℕ) (w : World K) (r : Run (World K) A) (f : A → Cmd (World K) B)
      → Ends m w r
      → ((a : A) (s : World K) → Ends n s (f a s))
      → Ends (m + n) w (and_then r f)
  Ends-bind m n w (ok a s) f p next = Ends-then m n w s (f a s) p (next a s)
  Ends-bind m n w (fault x) f p next = tt

-- The program's callbacks register and deregister nothing.
abbrev pub IsSteady : {K : Type 0} → (UserCall → Cmd (World K) (Unit {0})) → Type 0
IsSteady user = (call : UserCall) (w : World _) → Ends 0 w (user call w)
