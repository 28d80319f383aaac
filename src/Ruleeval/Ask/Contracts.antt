-- ===== src/Ruleeval/Ask/Contracts.antt =====
-- What code asks of a TickContext of internal/tick/engine.go, where it branches and where it may panic.
use neurosymbolic_system.Base.{
  ◌≡◌, refl, Bool, true, false, Option, none, some, if◌then◌else◌, is_some, arith,
}
use mathlib.Core.Path.{subst}
use neurosymbolic_system.Tick.Behavior.{Behavior}
use neurosymbolic_system.Ruleeval.Ask.{Ask, bind, or_crash, Ensures}

pub Ensures-if :
    {F A : Type 0} (P : Behavior F → Type 0) (Q : A → Type 0) (b : Bool) (x y : Ask F A)
    → (b ≡ true → Ensures P Q x)
    → (b ≡ false → Ensures P Q y)
    → Ensures P Q (if b then x else y)
Ensures-if P Q true x y h k = h refl
Ensures-if P Q false x y h k = k refl

pub Ensures-or_crash :
    {F A B : Type 0} (P : Behavior F → Type 0) (R : B → Type 0) (o : Option A) (next : A → Ask F B)
    → is_some o ≡ true
    → ((a : A) → Ensures P R (next a))
    → Ensures P R (bind (or_crash o) next)
unfolding bind
Ensures-or_crash P R none next h k = absurd (ground arith)
Ensures-or_crash P R (some a) next h k = k a

pub Ensures-found :
    {F A B : Type 0} (P : Behavior F → Type 0) (R : B → Type 0) (next : A → Ask F B) {o : Option A}
    {a : A}
    → some a ≡ o
    → Ensures P R (next a)
    → Ensures P R (bind (or_crash o) next)
unfolding bind
Ensures-found P R next found h = subst (λ o. Ensures P R (bind (or_crash o) next)) found h
