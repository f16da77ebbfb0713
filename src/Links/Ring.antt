-- ===== src/Links/Ring.antt =====
-- What a circular list holds, and which changes of memory it survives.
use magical_os.Base.{
  ℕ, ◌≡◌, refl, true, false, ◌||◌, List, [], ◌∷◌, ◌++◌, arith, ◌==◌, mem, Distinct, Distinct-snoc,
}
use magical_os.Links.{Links}

-- From `a` the links lead through `xs`, in this order, to `b`, and back.
abbrev pub Chain : Links → ℕ → List ℕ → ℕ → Type 0
Chain m a [] b = (m.next a ≡ b) × (m.prev b ≡ a)
Chain m a (x ∷ xs) b = (m.next a ≡ x) × (m.prev x ≡ a) × Chain m x xs b

-- The circular list of `h` and then `xs`.
abbrev pub Ring : Links → ℕ → List ℕ → Type 0
Ring m h xs = Chain m h xs h × Distinct (h ∷ xs)

-- `g` has the links of `m` outside the addresses `xs`.
abbrev pub SameOutside : List ℕ → Links → Links → Type 0
SameOutside xs m g = (a : ℕ) → mem a xs ≡ false → (g.next a ≡ m.next a) × (g.prev a ≡ m.prev a)

abbrev pub last : ℕ → List ℕ → ℕ
last a [] = a
last a (x ∷ xs) = last x xs

-- The first of `xs`, or `b`.
abbrev pub first : List ℕ → ℕ → ℕ
first [] b = b
first (x ∷ xs) b = x

pub mem-last : (a : ℕ) (xs : List ℕ) → mem (last a xs) (a ∷ xs) ≡ true
mem-last a [] = ground arith
mem-last a (x ∷ xs) = ground (arith, mem-last x xs)

pub last-snoc : (a t : ℕ) (xs : List ℕ) → last a (xs ++ (t ∷ [])) ≡ t
last-snoc a t [] = refl
last-snoc a t (x ∷ xs) = last-snoc x t xs

pub Chain-prev : (m : Links) (a b : ℕ) (xs : List ℕ) → Chain m a xs b → m.prev b ≡ last a xs
Chain-prev m a b [] c = c.1
Chain-prev m a b (x ∷ xs) c = Chain-prev m x b xs c.2

pub Chain-next : (m : Links) (a b : ℕ) (xs : List ℕ) → Chain m a xs b → m.next a ≡ first xs b
Chain-next m a b [] c = c.0
Chain-next m a b (x ∷ xs) c = c.0

-- A chain needs the `next` of its start and its inner objects, and their `prev` with that of its end.
pub Chain-frame :
    {m g : Links} (a b : ℕ) (xs : List ℕ)
    → ((q : ℕ) → mem q (a ∷ xs) ≡ true → g.next q ≡ m.next q)
    → ((q : ℕ) → (mem q xs || (b == q)) ≡ true → g.prev q ≡ m.prev q)
    → Chain m a xs b
    → Chain g a xs b
Chain-frame a b [] n p c = ground (arith, n a, p b)
Chain-frame a b (x ∷ xs) n p c =
    let n' = n a (ground arith) in
    let p' = p x (ground arith) in
    let rest = Chain-frame x b xs (λ q h. n q (ground arith)) (λ q h. p q (ground arith)) c.2 in
    (ground arith, ground arith, rest)

-- A ring survives any change of other objects.
pub Ring-frame :
    {m g : Links} (h : ℕ) (xs ys : List ℕ)
    → SameOutside ys m g
    → ((q : ℕ) → mem q (h ∷ xs) ≡ true → mem q ys ≡ false)
    → Ring m h xs
    → Ring g h xs
Ring-frame h xs ys same apart (c, d) = (
  Chain-frame h h xs (λ q e. (same q (apart q e)).0) (λ q e. (same q (apart q (ground arith))).1) c,
  d,
)

pub Chain-append :
    (m : Links) (a b c : ℕ) (xs ys : List ℕ)
    → Chain m a xs b
    → Chain m b ys c
    → Chain m a (xs ++ (b ∷ ys)) c
Chain-append m a b c [] ys p q = (p.0, p.1, q)
Chain-append m a b c (x ∷ xs) ys p q = (p.0, p.1, Chain-append m x b c xs ys p.2 q)

-- The object after the objects `xs` has the next of the rest as its successor.
pub Chain-next_at :
    (m : Links) (a b t : ℕ) (xs ys : List ℕ) → Chain m a (xs ++ (t ∷ ys)) b → m.next t ≡ first ys b
Chain-next_at m a b t [] ys c = Chain-next m t b ys c.2
Chain-next_at m a b t (x ∷ xs) ys c = Chain-next_at m x b t xs ys c.2

-- A ring may be read from its second object on.
pub Ring-rotate :
    (m : Links) (h x : ℕ) (xs : List ℕ) → Ring m h (x ∷ xs) → Ring m x (xs ++ (h ∷ []))
Ring-rotate m h x xs (c, d) =
    (Chain-append m x h x xs [] c.2 (c.0, c.1), Distinct-snoc (x ∷ xs) h d.1 d.0)
