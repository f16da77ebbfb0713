-- ===== src/Ata/Polling.antt =====
-- What the polling loops and `do_identify_device` of kernel/ata.c answer.
use magical_os.Base.{
  ℕ, zero, suc, ◌<◌, Bool, true, false, ◌∷◌, ◌≡◌, ◌⊎◌, inl, inr, refl, arith, Bool-cases, ◌%◌,
}
use magical_os.Ata.Port.{Drive, State, in8}
use magical_os.Ata.{poll}

module _ (dev : Drive) (busy : ℕ → Bool) (port : ℕ) where
  -- The state after so many reads of the port, and what the next read gives.
  pub after : ℕ → State → State
  after zero s = s
  after (suc k) s = after k (record s { ops = in8 port ∷ s.ops })

  abbrev answer : ℕ → State → ℕ
  answer k s = let t = after k s in dev t.ops port % 0x100

  abbrev pub Stops : ℕ → State → Bool × State → Type 0
  Stops n s r =
      (k : ℕ) × k < n
      × ((j : ℕ) → j < k → busy (answer j s) ≡ true)
      × busy (answer k s) ≡ false
      × r ≡ (true, after (suc k) s)

  abbrev pub GivesUp : ℕ → State → Bool × State → Type 0
  GivesUp n s r = ((j : ℕ) → j < n → busy (answer j s) ≡ true) × r ≡ (false, after n s)

  before_suc :
      (s : State)
      → busy (answer 0 s) ≡ true
      → (k : ℕ) → ((j : ℕ) → j < k → busy (answer j (after 1 s)) ≡ true)
      → (j : ℕ) → j < suc k
      → busy (answer j s) ≡ true
  unfolding after
  before_suc s h k before zero b = h
  before_suc s h k before (suc j) b = before j (omega arith)

  -- The loop reads the port until a read is not busy and answers true, having made no read after it; it
  -- answers false after n busy reads.
  pub poll_lem :
      (n : ℕ) (s : State)
      → Stops n s (poll dev busy n port s) ⊎ GivesUp n s (poll dev busy n port s)
  unfolding poll after
  poll_lem zero s = inr ((λ j b. absurd (omega arith)), refl)
  poll_lem (suc n) s = elim (Bool-cases (busy (answer 0 s))) [
    | inr h ↦ inl (0, omega arith, (λ j b. absurd (omega arith)), h, rw h refl)
    | inl h ↦ elim (poll_lem n (after 1 s)) [
      | inl (k, b, before, stop, e) ↦
          inl (suc k, omega arith, (λ j. before_suc s h k before j), stop, rw h e)
      | inr (before, e) ↦ inr ((λ j. before_suc s h n before j), rw h e)
    ]
  ]
