-- ===== src/Links/Del.antt =====
-- Unlinking an object of a ring takes it out and keeps the order of the others.
use magical_os.Base.{
  ℕ, ◌≡◌, ◌≢◌, true, false, List, [], ◌∷◌, ◌++◌, arith, ◌==◌, mem, if◌then◌else◌, Distinct, erase,
  Bool-cases, inl, inr, Distinct-erase, erase-snoc, mem-append, mem-erase,
}
use magical_os.Links.{Links, unlink}
use magical_os.Links.Ring.{Chain, Ring, SameOutside, Chain-frame, Ring-rotate}

-- The neighbours of an object of a chain are objects of it, or its ends.
Chain-prev_mem :
    (m : Links) (a b t : ℕ) (xs : List ℕ)
    → Chain m a xs b
    → mem t xs ≡ true
    → mem (m.prev t) (a ∷ xs) ≡ true
Chain-prev_mem m a b t [] c i = cc
Chain-prev_mem m a b t (x ∷ xs) c i = ground (arith, Chain-prev_mem m x b t xs c.2)

Chain-next_mem :
    (m : Links) (a b t : ℕ) (xs : List ℕ)
    → Chain m a xs b
    → mem t xs ≡ true
    → mem (m.next t) (b ∷ xs) ≡ true
Chain-next_mem m a b t [] c i = cc
Chain-next_mem m a b t (x ∷ []) c i = ground arith
Chain-next_mem m a b t (x ∷ y ∷ xs) c i = ground (arith, Chain-next_mem m x b t (y ∷ xs) c.2)

module _ (t : ℕ) (m : Links) (away : m.prev t ≢ t) where
  unlink-next : (q : ℕ) → (unlink t m).next q ≡ (if m.prev t == q then m.next t else m.next q)
  unfolding unlink
  unlink-next q = ground arith

  unlink-prev : (q : ℕ) → (unlink t m).prev q ≡ (if m.next t == q then m.prev t else m.prev q)
  unfolding unlink
  unlink-prev q = ground arith

  Chain-unlink_here :
      (a b x : ℕ) (xs : List ℕ)
      → Chain m a (x ∷ xs) b
      → Distinct (a ∷ x ∷ xs)
      → mem b (x ∷ xs) ≡ false
      → (x == t) ≡ true
      → Chain (unlink t m) a xs b
  Chain-unlink_here a b x [] c d out hit = ground (arith, unlink-next a, unlink-prev b)
  Chain-unlink_here a b x (y ∷ ys) c d out hit = (
    ground (arith, unlink-next a),
    ground (arith, unlink-prev y),
    Chain-frame y b ys (λ q h. ground (arith, unlink-next q)) (λ q h. ground (arith, unlink-prev q))
        c.2.2,
  )

  Chain-unlink :
      (a b : ℕ) (xs : List ℕ)
      → Chain m a xs b
      → Distinct (a ∷ xs)
      → mem b xs ≡ false
      → mem t xs ≡ true
      → Chain (unlink t m) a (erase t xs) b
  Chain-unlink a b [] c d out i = cc
  Chain-unlink a b (x ∷ xs) c d out i = elim (Bool-cases (x == t)) [
    | inl hit ↦ rw hit (Chain-unlink_here a b x xs c d out hit)
    | inr miss ↦
        let i' : mem t xs ≡ true = ground arith in
        let rest = Chain-unlink x b xs c.2 d.1 (ground arith) i' in
        rw miss (
          (
            ground (arith, unlink-next a, Chain-prev_mem m x b t xs c.2 i'),
            ground (arith, unlink-prev x, Chain-next_mem m x b t xs c.2 i'),
            rest,
          ))
  ]

Chain-prev_ne :
    (m : Links) (a b t : ℕ) (xs : List ℕ)
    → Chain m a xs b
    → Distinct (a ∷ xs)
    → mem t xs ≡ true
    → m.prev t ≢ t
Chain-prev_ne m a b t [] c d i = cc
Chain-prev_ne m a b t (x ∷ xs) c d i = ground (arith, Chain-prev_ne m x b t xs c.2 d.1)

-- An object other than the head.
pub Ring-unlink :
    (t h : ℕ) (m : Links) (xs : List ℕ)
    → mem t xs ≡ true
    → Ring m h xs
    → Ring (unlink t m) h (erase t xs)
Ring-unlink t h m xs i r = (
  Chain-unlink t m (Chain-prev_ne m h h t xs r.0 r.1 i) h h xs r.0 r.1 r.1.0 i,
  (mem-erase h t xs r.1.0, Distinct-erase t xs r.1.1),
)

-- The head of a longer ring: the second object is the new head.
pub Ring-unlink_head :
    (h x : ℕ) (m : Links) (xs : List ℕ) → Ring m h (x ∷ xs) → Ring (unlink h m) x xs
Ring-unlink_head h x m xs r =
    let out : mem h xs ≡ false = ground arith in
    rw (erase-snoc h xs out) at (
      Ring-unlink h x m (xs ++ (h ∷ [])) (ground (arith, mem-append h xs (h ∷ [])))
        (Ring-rotate m h x xs r))

-- No object outside the ring changes.
pub SameOutside-unlink :
    (t h : ℕ) (m : Links) (xs : List ℕ)
    → mem t xs ≡ true
    → Ring m h xs
    → SameOutside (h ∷ xs) m (unlink t m)
SameOutside-unlink t h m xs i r a o =
    let ne = Chain-prev_ne m h h t xs r.0 r.1 i in
    (
      ground (arith, unlink-next t m ne a, Chain-prev_mem m h h t xs r.0),
      ground (arith, unlink-prev t m ne a, Chain-next_mem m h h t xs r.0),
    )

pub SameOutside-unlink_head :
    (h x : ℕ) (m : Links) (xs : List ℕ)
    → Ring m h (x ∷ xs)
    → SameOutside (h ∷ x ∷ xs) m (unlink h m)
SameOutside-unlink_head h x m xs r a o =
    let i : mem h (xs ++ (h ∷ [])) ≡ true = ground (arith, mem-append h xs (h ∷ [])) in
    SameOutside-unlink h x m (xs ++ (h ∷ [])) i (Ring-rotate m h x xs r) a
      (ground (arith, mem-append a xs (h ∷ [])))
