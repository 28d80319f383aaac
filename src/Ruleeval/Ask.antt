-- ===== src/Ruleeval/Ask.antt =====
-- What code that runs on a TickContext of internal/tick/engine.go asks of it, call by call, with a value
-- at the end. `crash` is a panic.
pub mod Contracts
pub mod Perform
pub mod Leaves
use neurosymbolic_system.Base.{ℕ, Option, none, some, List, [], ◌∷◌, Text, Result}
use neurosymbolic_system.Tick.Behavior.{Behavior}
use neurosymbolic_system.Tick.Arbitration.{AdmitResult}
use neurosymbolic_system.Tick.Engine.State.{AdmitError, Event, SeamCall}
use neurosymbolic_system.Tick.Engine.State as State

pub data Ask (F : Type 0) (A : Type 0) : Type 0 where
  done : A → Ask F A
  crash : Ask F A
  admit : Behavior F → (Result AdmitError AdmitResult → Ask F A) → Ask F A
  evict : Text → (ℕ → Ask F A) → Ask F A
  names : (List Text → Ask F A) → Ask F A
  emit : Event → Ask F A → Ask F A

-- one statement after another
unfoldable pub bind : {F A B : Type 0} → Ask F A → (A → Ask F B) → Ask F B
bind (done a) next = next a
bind crash next = crash
bind (admit b k) next = admit b (λ r. bind (k r) next)
bind (evict name k) next = evict name (λ n. bind (k n) next)
bind (names k) next = names (λ ns. bind (k ns) next)
bind (emit event m) next = emit event (bind m next)

-- a call that may panic
abbrev pub or_crash : {F A : Type 0} → Option A → Ask F A
or_crash none = crash
or_crash (some a) = done a

-- The calls as the engine sees them: how this development hands code in this form to an engine, and
-- not itself code of the program.
unfoldable pub as_seam : {F A : Type 0} → Ask F A → SeamCall F
as_seam (done a) = State.return
as_seam crash = State.panic
as_seam (admit b k) = State.ask_admit b (λ r. as_seam (k r))
as_seam (evict name k) = State.ask_evict name (λ n. as_seam (k n))
as_seam (names k) = State.ask_names (λ ns. as_seam (k ns))
as_seam (emit event m) = State.emit event (as_seam m)

-- The code ends without a panic whatever the answers are, every behavior that it asks to admit satisfies
-- `P`, and its value satisfies `Q`.
unfoldable pub Ensures : {F A : Type 0} → (Behavior F → Type 0) → (A → Type 0) → Ask F A → Type 0
Ensures P Q (done a) = Q a
Ensures P Q crash = ⊥
Ensures P Q (admit b k) = P b × ((r : Result AdmitError AdmitResult) → Ensures P Q (k r))
Ensures P Q (evict name k) = (n : ℕ) → Ensures P Q (k n)
Ensures P Q (names k) = (ns : List Text) → Ensures P Q (k ns)
Ensures P Q (emit event m) = Ensures P Q m

pub Ensures-bind :
    {F A B : Type 0} (P : Behavior F → Type 0) (Q : A → Type 0) (R : B → Type 0) (m : Ask F A)
    (next : A → Ask F B)
    → Ensures P Q m
    → ((a : A) → Q a → Ensures P R (next a))
    → Ensures P R (bind m next)
unfolding bind Ensures
Ensures-bind P Q R (done a) next h k = k a h
Ensures-bind P Q R crash next h k = absurd h
Ensures-bind P Q R (admit b f) next h k = (h.0, λ r. Ensures-bind P Q R (f r) next (h.1 r) k)
Ensures-bind P Q R (evict name f) next h k = λ n. Ensures-bind P Q R (f n) next (h n) k
Ensures-bind P Q R (names f) next h k = λ ns. Ensures-bind P Q R (f ns) next (h ns) k
Ensures-bind P Q R (emit event m) next h k = Ensures-bind P Q R m next h k
