-- ===== src/Base/Lists.antt =====
-- Lists measured and searched by native numbers, and the memory of a pointer-indexed field.
use Prim.Native.Nat.{ℕ, zero, suc, ◌+◌, ◌<◌}
use mathlib.Core.Path.{◌≡◌, refl, ap}
use mathlib.Core.Logic.{◌≢◌}
use mathlib.Core.Bool.{Bool, true, false, ◌||◌}
use mathlib.Core.List.{List, [], ◌∷◌, ◌++◌}
use mathlib.Core.Option.{Option, none, some}
use native.Mathlib.Omega.{arith}
use magical_os.Base.Tests.{◌==◌, if◌then◌else◌}

module _ {ℓ} {A : Type ℓ} where
  abbrev pub length : List A → ℕ
  length [] = 0
  length (x ∷ xs) = suc (length xs)

  abbrev pub get_elem? : List A → ℕ → Option A
  get_elem? [] i = none
  get_elem? (x ∷ xs) zero = some x
  get_elem? (x ∷ xs) (suc i) = get_elem? xs i

  abbrev pub get_or : List A → ℕ → A → A
  get_or [] i d = d
  get_or (x ∷ xs) zero d = x
  get_or (x ∷ xs) (suc i) d = get_or xs i d

  -- A write out of bounds changes nothing.
  abbrev pub set : List A → ℕ → A → List A
  set [] i v = []
  set (x ∷ xs) zero v = v ∷ xs
  set (x ∷ xs) (suc i) v = x ∷ set xs i v

  abbrev pub take : ℕ → List A → List A
  take zero xs = []
  take (suc n) [] = []
  take (suc n) (x ∷ xs) = x ∷ take n xs

  abbrev pub drop : ℕ → List A → List A
  drop zero xs = xs
  drop (suc n) [] = []
  drop (suc n) (x ∷ xs) = drop n xs

  abbrev pub replicate : ℕ → A → List A
  replicate zero a = []
  replicate (suc n) a = a ∷ replicate n a

  pub length-append : (xs ys : List A) → length (xs ++ ys) ≡ length xs + length ys
  length-append [] ys = omega arith
  length-append (x ∷ xs) ys = omega (arith, length-append xs ys)

  pub length-set : (xs : List A) (i : ℕ) (v : A) → length (set xs i v) ≡ length xs
  length-set [] i v = refl
  length-set (x ∷ xs) zero v = refl
  length-set (x ∷ xs) (suc i) v = ap suc (length-set xs i v)

  pub length-replicate : (n : ℕ) (a : A) → length (replicate n a) ≡ n
  length-replicate zero a = refl
  length-replicate (suc n) a = ap suc (length-replicate n a)

  pub get_or-set_self :
      (xs : List A) (i : ℕ) (v d : A) → i < length xs → get_or (set xs i v) i d ≡ v
  get_or-set_self [] i v d h = absurd (omega arith)
  get_or-set_self (x ∷ xs) zero v d h = refl
  get_or-set_self (x ∷ xs) (suc i) v d h = get_or-set_self xs i v d (omega arith)

  pub get_or-set_ne :
      (xs : List A) (i j : ℕ) (v d : A) → i ≢ j → get_or (set xs i v) j d ≡ get_or xs j d
  get_or-set_ne [] i j v d h = refl
  get_or-set_ne (x ∷ xs) zero zero v d h = absurd (h refl)
  get_or-set_ne (x ∷ xs) zero (suc j) v d h = refl
  get_or-set_ne (x ∷ xs) (suc i) zero v d h = refl
  get_or-set_ne (x ∷ xs) (suc i) (suc j) v d h = get_or-set_ne xs i j v d (λ e. h (ap suc e))

  -- One field of every object in memory, after a write at the address `p`.
  abbrev pub update : (ℕ → A) → ℕ → A → ℕ → A
  update f p v q = if p == q then v else f q

-- Whether an address is among those of a list.
abbrev pub mem : ℕ → List ℕ → Bool
mem a [] = false
mem a (x ∷ xs) = (x == a) || mem a xs

abbrev pub Distinct : List ℕ → Type 0
Distinct [] = Unit {0}
Distinct (x ∷ xs) = (mem x xs ≡ false) × Distinct xs

-- Drops the first occurrence.
abbrev pub erase : ℕ → List ℕ → List ℕ
erase a [] = []
erase a (x ∷ xs) = if x == a then xs else x ∷ erase a xs

abbrev pub filter : (ℕ → Bool) → List ℕ → List ℕ
filter p [] = []
filter p (x ∷ xs) = if p x then x ∷ filter p xs else filter p xs

pub mem-append : (a : ℕ) (xs ys : List ℕ) → mem a (xs ++ ys) ≡ (mem a xs || mem a ys)
mem-append a [] ys = refl
mem-append a (x ∷ xs) ys = ground (arith, mem-append a xs ys)

pub mem-filter :
    (a : ℕ) (p : ℕ → Bool) (xs : List ℕ) → mem a xs ≡ false → mem a (filter p xs) ≡ false
mem-filter a p [] h = refl
mem-filter a p (x ∷ xs) h = ground (arith, mem-filter a p xs)

pub mem-erase : (a t : ℕ) (xs : List ℕ) → mem a xs ≡ false → mem a (erase t xs) ≡ false
mem-erase a t [] h = refl
mem-erase a t (x ∷ xs) h = ground (arith, mem-erase a t xs)

pub mem-erase_self : (t : ℕ) (xs : List ℕ) → Distinct xs → mem t (erase t xs) ≡ false
mem-erase_self t [] d = refl
mem-erase_self t (x ∷ xs) d = ground (arith, mem-erase_self t xs d.1)

pub mem-erase_ne : (a t : ℕ) (xs : List ℕ) → a ≢ t → mem a (erase t xs) ≡ mem a xs
mem-erase_ne a t [] h = refl
mem-erase_ne a t (x ∷ xs) h = ground (arith, mem-erase_ne a t xs h)

pub Distinct-erase : (t : ℕ) (xs : List ℕ) → Distinct xs → Distinct (erase t xs)
Distinct-erase t [] d = tt
Distinct-erase t (x ∷ xs) d = ground (arith, mem-erase x t xs, Distinct-erase t xs d.1)

pub Distinct-snoc :
    (xs : List ℕ) (t : ℕ) → Distinct xs → mem t xs ≡ false → Distinct (xs ++ (t ∷ []))
Distinct-snoc [] t d h = (refl, tt)
Distinct-snoc (x ∷ xs) t d h = ground (arith, mem-append x xs (t ∷ []), Distinct-snoc xs t d.1)

pub erase-snoc : (t : ℕ) (xs : List ℕ) → mem t xs ≡ false → erase t (xs ++ (t ∷ [])) ≡ xs
erase-snoc t [] h = ground arith
erase-snoc t (x ∷ xs) h = ground (arith, erase-snoc t xs)

pub length-erase : (t : ℕ) (xs : List ℕ) → mem t xs ≡ true → suc (length (erase t xs)) ≡ length xs
length-erase t [] h = cc
length-erase t (x ∷ xs) h = ground (arith, length-erase t xs)

pub filter_ext : (p q : ℕ → Bool) (xs : List ℕ) → ((a : ℕ) → p a ≡ q a) → filter p xs ≡ filter q xs
filter_ext p q [] h = refl
filter_ext p q (x ∷ xs) h = ground (arith, h x, filter_ext p q xs h)

abbrev pub All : (ℕ → Type 0) → List ℕ → Type 0
All P [] = Unit {0}
All P (x ∷ xs) = P x × All P xs

pub All-snoc : (P : ℕ → Type 0) (xs : List ℕ) (x : ℕ) → All P xs → P x → All P (xs ++ (x ∷ []))
All-snoc P [] x h p = (p, tt)
All-snoc P (y ∷ xs) x h p = (h.0, All-snoc P xs x h.1 p)

-- A test of every digit of a base, for tables.
unfoldable pub passes_upto : (test : ℕ → Bool) (base : ℕ) → Bool
passes_upto test zero = true
passes_upto test (suc d) = if test d then passes_upto test d else false

pub passes_upto-digit :
    (test : ℕ → Bool) (base d : ℕ) → d < base → passes_upto test base ≡ true → test d ≡ true
unfolding passes_upto
passes_upto-digit test zero d below pass = absurd (omega arith)
passes_upto-digit test (suc top) d below pass = ground (arith, passes_upto-digit test top d)

pub ne_of_mem : (c d : ℕ) (xs : List ℕ) → mem c xs ≡ true → mem d xs ≡ false → c ≢ d
ne_of_mem c d [] i o = cc
ne_of_mem c d (x ∷ xs) i o = ground (arith, ne_of_mem c d xs)
