-- ===== src/Examples/Console.antt =====
-- What the programs of examples with a datagram socket share: writing, and calls on the kernel alone.
use unisock.Prelude.{ok, fault, Run, Cmd, Returns, returns}
use unisock.Datagram.Socket.{Datagram}
use unisock.Datagram.Kept.{Kept, Kept-to, KeepsAt}

abbrev pub log : {K : Type 0} → (K → K) → Cmd (Datagram K) (Unit {0})
log f w = ok tt (record w { kernel = f w.kernel })

abbrev pub with_kernel : {A K : Type 0} → Datagram K → Run K A → Run (Datagram K) A
with_kernel w (ok a k) = ok a (record w { kernel = k })
with_kernel w (fault x) = fault x

abbrev pub on_kernel : {A K : Type 0} → Cmd K A → Cmd (Datagram K) A
on_kernel m w = with_kernel w (m w.kernel)

pub log-Kept : {K : Type 0} (f : K → K) (w : Datagram K) → KeepsAt w (log f)
log-Kept f w = returns (Kept-to w (f w.kernel) w.address)

with_kernel-Kept :
    {A K : Type 0} (w : Datagram K) (r : Run K A)
    → Returns (λ _ _. Unit {0}) r
    → Returns (λ _ t. Kept w t) (with_kernel w r)
with_kernel-Kept w (ok a k) (returns p) = returns (Kept-to w k w.address)
with_kernel-Kept w (fault x) r = elim r [ ]

-- A call on the kernel changes nothing else.
pub on_kernel-Kept :
    {A K : Type 0} (m : Cmd K A) (w : Datagram K)
    → Returns (λ _ _. Unit {0}) (m w.kernel)
    → KeepsAt w (on_kernel m)
on_kernel-Kept m w r = with_kernel-Kept w (m w.kernel) r
