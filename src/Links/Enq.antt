-- ===== src/Links/Enq.antt =====
-- Linking an object in before the head of a ring puts it at the end.
use magical_os.Base.{
  ℕ, ◌≡◌, refl, ◌≢◌, false, List, [], ◌∷◌, ◌++◌, arith, ◌==◌, mem, if◌then◌else◌, Distinct,
  Distinct-snoc,
}
use magical_os.Links.{Links, link_before, link_self}
use magical_os.Links.Ring.{Chain, Ring, SameOutside, mem-last, Chain-prev}

module _ (t h : ℕ) (m : Links) (ne : t ≢ h) where
  link_before-next :
      (q : ℕ)
      → (link_before t h m).next q ≡ (if m.prev h == q then t else if t == q then h else m.next q)
  unfolding link_before
  link_before-next q = ground arith

  link_before-prev :
      (q : ℕ)
      → (link_before t h m).prev q ≡ (if h == q then t else if t == q then m.prev h else m.prev q)
  unfolding link_before
  link_before-prev q = ground arith

  -- The chain from any object `a` of the ring to its head is extended.
  Chain-link_before :
      (a : ℕ) (xs : List ℕ)
      → Chain m a xs h
      → mem t (a ∷ xs) ≡ false
      → Distinct (a ∷ xs)
      → mem h xs ≡ false
      → Chain (link_before t h m) a (xs ++ (t ∷ [])) h
  Chain-link_before a [] c out d hx =
      ground (arith, link_before-next a, link_before-next t, link_before-prev h, link_before-prev t)
  Chain-link_before a (x ∷ xs) c out d hx =
      let rest = Chain-link_before x xs c.2 (ground arith) d.1 (ground arith) in
      (
        ground (arith, link_before-next a, Chain-prev m x h xs c.2, mem-last x xs),
        ground (arith, link_before-prev x),
        rest,
      )

-- The new object stands last in the ring, and no object outside it changes.
pub Ring-link_before :
    (t h : ℕ) (m : Links) (xs : List ℕ)
    → mem t (h ∷ xs) ≡ false
    → Ring m h xs
    → Ring (link_before t h m) h (xs ++ (t ∷ []))
Ring-link_before t h m xs out (c, d) =
    (Chain-link_before t h m (ground arith) h xs c out d d.0, Distinct-snoc (h ∷ xs) t d out)

pub SameOutside-link_before :
    (t h : ℕ) (m : Links) (xs : List ℕ)
    → mem t (h ∷ xs) ≡ false
    → Ring m h xs
    → SameOutside (t ∷ h ∷ xs) m (link_before t h m)
SameOutside-link_before t h m xs out (c, d) a o =
    let ne : t ≢ h = ground arith in
    (
      ground (arith, link_before-next t h m ne a, Chain-prev m h h xs c, mem-last h xs),
      ground (arith, link_before-prev t h m ne a),
    )

pub Ring-link_self : (t : ℕ) (m : Links) → Ring (link_self t m) t []
unfolding link_self
Ring-link_self t m = (ground arith, (refl, tt))

pub SameOutside-link_self : (t : ℕ) (m : Links) → SameOutside (t ∷ []) m (link_self t m)
unfolding link_self
SameOutside-link_self t m a o = ground arith
