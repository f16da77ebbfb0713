-- ===== src/Machine/Tasks.antt =====
-- Three lists that share out some tasks between them, and that moves between them keep it.
use magical_os.Base.{
  ℕ, ◌+◌, ◌≡◌, Bool, true, not, ◌||◌, List, [], ◌∷◌, ◌++◌, arith, ◌==◌, mem, erase, filter, length,
  mem-append, length-append, length-erase,
}

-- Each task of `ts` is in one of the lists, and they hold no more than there are.
pub record Shares (ts rq wq eq : List ℕ) : Type 0 where
  pub all : (a : ℕ) → mem a ts ≡ (mem a rq || mem a wq || mem a eq)
  pub count : length rq + length wq + length eq ≡ length ts

mem-filter-not :
    (a : ℕ) (p : ℕ → Bool) (xs : List ℕ)
    → (mem a (filter p xs) || mem a (filter (λ x. not (p x)) xs)) ≡ mem a xs
mem-filter-not a p [] = ground arith
mem-filter-not a p (x ∷ xs) = ground (arith, mem-filter-not a p xs)

length-filter-not :
    (p : ℕ → Bool) (xs : List ℕ)
    → length (filter p xs) + length (filter (λ x. not (p x)) xs) ≡ length xs
length-filter-not p [] = omega arith
length-filter-not p (x ∷ xs) = ground (arith, length-filter-not p xs)

mem-erase_or :
    (a t : ℕ) (xs : List ℕ) → mem t xs ≡ true → mem a xs ≡ ((t == a) || mem a (erase t xs))
mem-erase_or a t [] i = cc
mem-erase_or a t (x ∷ xs) i = ground (arith, mem-erase_or a t xs)

pub Shares-swap : {ts rq wq eq : List ℕ} → Shares ts rq wq eq → Shares ts rq eq wq
Shares-swap v = record { all = λ a. ground (arith, v.all a); count = omega (arith, v.count) }

-- Some tasks of the second list go to the end of the first.
pub Shares-move :
    (ts rq wq eq kept moved : List ℕ)
    → ((a : ℕ) → (mem a moved || mem a kept) ≡ mem a wq)
    → length moved + length kept ≡ length wq
    → Shares ts rq wq eq
    → Shares ts (rq ++ moved) kept eq
Shares-move ts rq wq eq kept moved same n v = record {
  all = λ a. ground (arith, v.all a, same a, mem-append a rq moved);
  count = omega (arith, v.count, n, length-append rq moved);
}

-- The woken tasks of a queue behind its head `h`; `wakes` tells them.
pub Shares-wake :
    (ts rq eq : List ℕ) (h : ℕ) (rest : List ℕ) (wakes : ℕ → Bool)
    → Shares ts rq (h ∷ rest) eq
    → Shares ts (rq ++ filter wakes rest) (h ∷ filter (λ a. not (wakes a)) rest) eq
Shares-wake ts rq eq h rest wakes v =
    Shares-move ts rq (h ∷ rest) eq (h ∷ filter (λ a. not (wakes a)) rest) (filter wakes rest)
      (λ a. ground (arith, mem-filter-not a wakes rest))
      (omega (arith, length-filter-not wakes rest)) v

-- The head alone is woken.
pub Shares-head :
    (ts rq eq : List ℕ) (h : ℕ) (rest : List ℕ)
    → Shares ts rq (h ∷ rest) eq
    → Shares ts (rq ++ (h ∷ [])) rest eq
Shares-head ts rq eq h rest v =
    Shares-move ts rq (h ∷ rest) eq rest (h ∷ []) (λ a. ground arith) (omega arith) v

-- A task leaves the first list for the end of the second.
pub Shares-sleep :
    (ts rq wq eq : List ℕ) (t : ℕ)
    → mem t rq ≡ true
    → Shares ts rq wq eq
    → Shares ts (erase t rq) (wq ++ (t ∷ [])) eq
Shares-sleep ts rq wq eq t i v = record {
  all = λ a. ground (arith, v.all a, mem-append a wq (t ∷ []), mem-erase_or a t rq i);
  count = omega (arith, v.count, length-append wq (t ∷ []), length-erase t rq i);
}

pub Shares-new :
    (ts rq wq eq : List ℕ) (t : ℕ) → Shares ts rq wq eq → Shares (t ∷ ts) (rq ++ (t ∷ [])) wq eq
Shares-new ts rq wq eq t v = record {
  all = λ a. ground (arith, v.all a, mem-append a rq (t ∷ []));
  count = omega (arith, v.count, length-append rq (t ∷ []));
}
