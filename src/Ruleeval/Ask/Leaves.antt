-- ===== src/Ruleeval/Ask/Leaves.antt =====
-- What code in the form of calls leaves at its end, whatever an engine of internal/tick/engine.go answers.
use neurosymbolic_system.Base.{
  ℕ, ◌≡◌, refl, Bool, true, false, Option, none, some, List, Text, if◌then◌else◌, Result,
}
use neurosymbolic_system.Tick.Behavior.{Behavior}
use neurosymbolic_system.Tick.Arbitration.{AdmitResult}
use neurosymbolic_system.Tick.Engine.State.{AdmitError}
use neurosymbolic_system.Ruleeval.Ask.{
  Ask, done, crash, admit, evict, names, emit, bind, or_crash, Ensures,
}

-- Whatever the answers are, `Q` holds of the value of the code if it ends with one.
unfoldable pub Leaves : {F A : Type 0} → (A → Type 0) → Ask F A → Type 0
Leaves Q (done a) = Q a
Leaves Q crash = Unit
Leaves Q (admit b k) = (r : Result AdmitError AdmitResult) → Leaves Q (k r)
Leaves Q (evict name k) = (removed : ℕ) → Leaves Q (k removed)
Leaves Q (names k) = (active : List Text) → Leaves Q (k active)
Leaves Q (emit event m) = Leaves Q m

pub Leaves-bind :
    {F A B : Type 0} (Q : B → Type 0) (code : Ask F A) (next : A → Ask F B)
    → Leaves (λ a. Leaves Q (next a)) code
    → Leaves Q (bind code next)
unfolding Leaves bind
Leaves-bind Q (done a) next h = h
Leaves-bind Q crash next h = tt
Leaves-bind Q (admit b k) next h = λ r. Leaves-bind Q (k r) next (h r)
Leaves-bind Q (evict name k) next h = λ r. Leaves-bind Q (k r) next (h r)
Leaves-bind Q (names k) next h = λ r. Leaves-bind Q (k r) next (h r)
Leaves-bind Q (emit event code) next h = Leaves-bind Q code next h

pub Leaves-map :
    {F A : Type 0} (Q R : A → Type 0) (code : Ask F A)
    → ((a : A) → Q a → R a)
    → Leaves Q code
    → Leaves R code
unfolding Leaves
Leaves-map Q R (done a) k h = k a h
Leaves-map Q R crash k h = tt
Leaves-map Q R (admit b f) k h = λ r. Leaves-map Q R (f r) k (h r)
Leaves-map Q R (evict name f) k h = λ r. Leaves-map Q R (f r) k (h r)
Leaves-map Q R (names f) k h = λ r. Leaves-map Q R (f r) k (h r)
Leaves-map Q R (emit event m) k h = Leaves-map Q R m k h

-- one statement after another
pub Leaves-then :
    {F A B : Type 0} (Q : A → Type 0) (R : B → Type 0) (code : Ask F A) (next : A → Ask F B)
    → Leaves Q code
    → ((a : A) → Q a → Leaves R (next a))
    → Leaves R (bind code next)
Leaves-then Q R code next h k =
    Leaves-bind R code next (Leaves-map Q (λ a. Leaves R (next a)) code k h)

pub Leaves-if :
    {F A : Type 0} (Q : A → Type 0) (b : Bool) (x y : Ask F A)
    → Leaves Q x
    → Leaves Q y
    → Leaves Q (if b then x else y)
Leaves-if Q true x y h k = h
Leaves-if Q false x y h k = k

pub Leaves-found :
    {F A B : Type 0} (Q : B → Type 0) (o : Option A) (next : A → Ask F B)
    → ((a : A) → o ≡ some a → Leaves Q (next a))
    → Leaves Q (bind (or_crash o) next)
unfolding Leaves bind
Leaves-found Q none next h = tt
Leaves-found Q (some a) next h = h a refl

-- code that ends, ends with what it leaves
pub Ensures-Leaves :
    {F A : Type 0} (P : Behavior F → Type 0) (Q R : A → Type 0) (code : Ask F A)
    → Ensures P Q code
    → Leaves R code
    → Ensures (λ b. Unit) (λ a. Q a × R a) code
unfolding Ensures Leaves
Ensures-Leaves P Q R (done a) h l = (h, l)
Ensures-Leaves P Q R crash h l = absurd h
Ensures-Leaves P Q R (admit b f) h l = (tt, λ r. Ensures-Leaves P Q R (f r) (h.1 r) (l r))
Ensures-Leaves P Q R (evict name f) h l = λ r. Ensures-Leaves P Q R (f r) (h r) (l r)
Ensures-Leaves P Q R (names f) h l = λ r. Ensures-Leaves P Q R (f r) (h r) (l r)
Ensures-Leaves P Q R (emit event m) h l = Ensures-Leaves P Q R m h l

pub Ensures-map :
    {F A : Type 0} (Q R : A → Type 0) (code : Ask F A)
    → ((a : A) → Q a → R a)
    → Ensures (λ b. Unit) Q code
    → Ensures (λ b. Unit) R code
unfolding Ensures
Ensures-map Q R (done a) k h = k a h
Ensures-map Q R crash k h = absurd h
Ensures-map Q R (admit b f) k h = (tt, λ r. Ensures-map Q R (f r) k (h.1 r))
Ensures-map Q R (evict name f) k h = λ r. Ensures-map Q R (f r) k (h r)
Ensures-map Q R (names f) k h = λ r. Ensures-map Q R (f r) k (h r)
Ensures-map Q R (emit event m) k h = Ensures-map Q R m k h
