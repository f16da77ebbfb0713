-- ===== src/Base/Outcome.antt =====
-- Loops on fuel return an option, whose `none` says that the fuel ran out.
use mathlib.Core.Path.{◌≡◌, refl}
use mathlib.Core.Option.{Option, none, some}

-- The loop ended, and its result satisfies `P`.
abbrev pub Returns : {A : Type 0} → (A → Type 0) → Option A → Type 0
Returns P none = ⊥
Returns P (some a) = P a

pub Returns-mono :
    {A : Type 0} {P Q : A → Type 0} (r : Option A)
    → ((a : A) → P a → Q a)
    → Returns P r
    → Returns Q r
Returns-mono none weaken h = h
Returns-mono (some a) weaken h = weaken a h

abbrev pub map_some : {A B : Type 0} → (A → B) → Option A → Option B
map_some f none = none
map_some f (some a) = some (f a)

pub Returns-map :
    {A B : Type 0} {P : A → Type 0} (Q : B → Type 0) (f : A → B) (r : Option A)
    → Returns P r
    → ((a : A) → P a → Q (f a))
    → Returns Q (map_some f r)
Returns-map Q f none h next = h
Returns-map Q f (some a) h next = next a h

pub Returns-some :
    {A : Type 0} {P : A → Type 0} (r : Option A) → Returns P r → (a : A) × (r ≡ some a) × P a
Returns-some none h = absurd h
Returns-some (some a) h = (a, refl, h)
