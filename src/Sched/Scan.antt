-- ===== src/Sched/Scan.antt =====
-- The loops over a wait queue of kernel/sched.c, for any body that keeps its task in the queue or
-- takes it out. When the head is taken out, the new head is the next task, so that the test
-- `t != head` ends the loop; otherwise the loop reaches every task.
use mathlib.Core.List.{append-nil, append_assoc}
use magical_os.Base.{
  ℕ, zero, suc, ◌≤◌, ◌<◌, ◌≡◌, Bool, true, false, not, ◌&&◌, Option, some, List, [], ◌∷◌, ◌++◌,
  arith, ◌==◌, if◌then◌else◌, mem, erase, filter, length, Distinct, Bool-cases, inl, inr, Returns,
  mem-append,
}
use magical_os.Links.Ring.{first}
use magical_os.Sched.{State, scan}

pub Distinct-append_right : (xs ys : List ℕ) → Distinct (xs ++ ys) → Distinct ys
Distinct-append_right [] ys d = d
Distinct-append_right (x ∷ xs) ys d = Distinct-append_right xs ys d.1

pub erase-append :
    (t : ℕ) (xs ys : List ℕ) → Distinct (xs ++ (t ∷ ys)) → erase t (xs ++ (t ∷ ys)) ≡ xs ++ ys
erase-append t [] ys d = ground arith
erase-append t (x ∷ xs) ys d = ground (arith, erase-append t xs ys d.1, mem-append x xs (t ∷ ys))

-- A new head that is the next task, or none, ends the loop.
stop_lem :
    (h : ℕ) (rest : List ℕ) (s : State) (hd : ℕ)
    → s.links.next h ≡ first rest h
    → hd ≡ first rest 0
    → (not (hd == 0) && not (s.links.next h == hd)) ≡ false
stop_lem h [] s hd e e' = ground arith
stop_lem h (x ∷ rest) s hd e e' = ground arith

-- `I p ws ms s`: the tasks `p` wait to be visited, the queue holds `ws`, and `ms` were taken out.
pub record Body (body : ℕ → State → State) (head : State → ℕ) (gone : ℕ → Bool)
    (I : List ℕ → List ℕ → List ℕ → State → Type 0) : Type 0 where
  pub distinct : (p ws ms : List ℕ) (s : State) → I p ws ms s → Distinct ws
  pub head_of : (p ws ms : List ℕ) (s : State) → I p ws ms s → head s ≡ first ws 0
  pub not_null : (p ws ms : List ℕ) (s : State) → I p ws ms s → mem 0 ws ≡ false
  pub next_of :
      (p ms ws rest : List ℕ) (h t : ℕ) (s : State)
      → I p (h ∷ (ws ++ (t ∷ rest))) ms s
      → s.links.next t ≡ first rest h
  pub next_of_head :
      (p ms rest : List ℕ) (h : ℕ) (s : State) → I p (h ∷ rest) ms s → s.links.next h ≡ first rest h
  pub stay :
      (p ws ms : List ℕ) (t : ℕ) (s : State)
      → I (t ∷ p) ws ms s
      → gone t ≡ false
      → I p ws ms (body t s)
  pub leave :
      (p ws ms : List ℕ) (t : ℕ) (s : State)
      → I (t ∷ p) ws ms s
      → mem t ws ≡ true
      → gone t ≡ true
      → I p (erase t ws) (ms ++ (t ∷ [])) (body t s)

module _ {body : ℕ → State → State} {head : State → ℕ} {gone : ℕ → Bool}
    {I : List ℕ → List ℕ → List ℕ → State → Type 0} (b : Body body head gone I) where
  abbrev kept : List ℕ → List ℕ
  kept = filter (λ t. not (gone t))

  -- What the loop does after a round: its test, and the rounds that follow.
  abbrev continue : ℕ → ℕ → State → Option State
  continue fuel n s =
      let rest = scan body head fuel n s in
      if not (head s == 0) && not (n == head s) then rest else some s

  -- The head stays in the queue while the tasks `rest` behind it are visited.
  continue_lem :
      (rest pre ms : List ℕ) (h n : ℕ) (s : State) (fuel : ℕ)
      → I rest (h ∷ (pre ++ rest)) ms s
      → n ≡ first rest h
      → length rest ≤ fuel
      → Returns (I [] (h ∷ (pre ++ kept rest)) (ms ++ filter gone rest)) (continue fuel n s)
  unfolding scan
  continue_lem [] pre ms h n s fuel v e le =
      let here : (n == head s) ≡ true = ground (arith, b.head_of _ _ _ s v) in
      rw (here, append-nil ms) (elim (Bool-cases (head s == 0)) [ inl z ↦ rw z v | inr z ↦ rw z v ])
  continue_lem (u ∷ rest) pre ms h n s zero v e le = absurd (omega arith)
  continue_lem (u ∷ rest) pre ms h n s (suc fuel) v e le =
      let d = b.distinct _ _ _ s v in
      let far : (n == head s) ≡ false =
        ground (arith, b.head_of _ _ _ s v, d.0, mem-append h pre (u ∷ rest)) in
      let live : (head s == 0) ≡ false =
        ground (arith, b.head_of _ _ _ s v, b.not_null _ _ _ s v) in
      let next = b.next_of (u ∷ rest) ms pre rest h u s v in
      rw (far, live, e)
        (elim (Bool-cases (gone u)) [
          | inl out ↦
              let v' = b.leave rest _ ms u s v (ground (arith, mem-append u pre (u ∷ rest))) out in
              let v'' = rw (erase-append u (h ∷ pre) rest d) at v' in
              let r = continue_lem rest pre (ms ++ (u ∷ [])) h _ _ fuel v'' next (omega arith) in
              rw out (rw (append_assoc ms (u ∷ []) (filter gone rest)) at r)
          | inr still ↦
              let v' = b.stay rest _ ms u s v still in
              let v'' = rw (← append_assoc pre (u ∷ []) rest) at v' in
              let r = continue_lem rest (pre ++ (u ∷ [])) ms h _ _ fuel v'' next (omega arith) in
              rw still (rw (append_assoc pre (u ∷ []) (kept rest)) at r)
        ])

  -- The whole loop, from the head on.
  pub scan_lem :
      (h : ℕ) (rest : List ℕ) (s : State) (fuel : ℕ)
      → I (h ∷ rest) (h ∷ rest) [] s
      → length rest < fuel
      → Returns
          (λ s'.
            if gone h then I rest rest (h ∷ []) s' else I [] (h ∷ kept rest) (filter gone rest) s')
          (scan body head fuel h s)
  unfolding scan
  scan_lem h rest s zero v lt = absurd (omega arith)
  scan_lem h rest s (suc fuel) v lt =
      let next = b.next_of_head _ [] rest h s v in
      elim (Bool-cases (gone h)) [
        | inl out ↦
            let v' =
              rw (erase-append h [] rest (b.distinct _ _ _ s v)) at
                (b.leave rest _ [] h s v (ground arith) out) in
            let stop : (not (head (body h s) == 0) && not (s.links.next h == head (body h s)))
                ≡ false =
              stop_lem h rest s _ next (b.head_of _ _ _ _ v') in
            rw (out, stop) v'
        | inr still ↦
            let v' = b.stay rest _ [] h s v still in
            rw still (continue_lem rest [] [] h _ _ fuel v' next (omega arith))
      ]
