-- ===== src/Timer/Laws.antt =====
-- How long the loops of kernel/timer.c wait.
use magical_os.Base.{
  ℕ, zero, suc, ◌+◌, ◌*◌, ◌%◌, ◌^◌, ◌<◌, ◌≤◌, ◌≡◌, refl, Bool-cases, inl, inr, false, some, arith,
  ltb, Returns, Returns-mono,
}
use magical_os.Timer.{wait_until, timer_wait_loop_sec}

-- The loop ends at the read `k`, the first from `from` on that finds more than `ms` ms after `old`.
pub record Waited (reads : ℕ → ℕ) (old ms from k : ℕ) : Type 0 where
  pub start : from ≤ k
  pub over : old + ms < reads k
  pub first : (j : ℕ) → from ≤ j → j < k → reads j ≤ old + ms

wait_until-Waited :
    (fuel n : ℕ) (reads : ℕ → ℕ) (old ms k : ℕ)
    → old + ms < reads (k + n)
    → n < fuel
    → Returns (Waited reads old ms k) (wait_until fuel reads (old + ms + 1) k)
unfolding wait_until
wait_until-Waited zero n reads old ms k over lt = elim lt [ ]
wait_until-Waited (suc fuel) zero reads old ms k over lt =
    let at : k + zero ≡ k = omega arith in
    let over' : old + ms < reads k = rw at at over in
    let e : ltb (reads k) (old + ms + 1) ≡ false = ground arith in
    rw e (record { start = omega arith; over = over'; first = λ j l u. omega arith })
wait_until-Waited (suc fuel) (suc n) reads old ms k over lt =
    let at : k + suc n ≡ k + 1 + n = omega arith in
    let rest = wait_until-Waited fuel n reads old ms (k + 1) (rw at at over) (omega arith) in
    elim (Bool-cases (ltb (reads k) (old + ms + 1))) [
      | inl e ↦ rw e (
          Returns-mono (wait_until fuel reads (old + ms + 1) (k + 1))
            (λ r v. record {
              start = omega (arith, v.start);
              over = v.over;
              first = λ j l u. first_of k (old + ms) reads r (ground (arith, e)) v.first j l u;
            })
            rest)
      | inr e ↦
          rw e
            (record { start = omega arith; over = ground (arith, e); first = λ j l u. omega arith })
    ]
  where
    first_of :
        (k limit : ℕ) (reads : ℕ → ℕ) (r : ℕ)
        → reads k ≤ limit
        → ((j : ℕ) → k + 1 ≤ j → j < r → reads j ≤ limit)
        → (j : ℕ) → k ≤ j
        → j < r
        → reads j ≤ limit
    first_of k limit reads r low later j l u = elim (Bool-cases (ltb k j)) [
      | inl e ↦ later j (ground (arith, e)) u
      | inr e ↦ let same : j ≡ k = ground (arith, e) in rw same low
    ]

wait_until-now :
    (fuel : ℕ) (reads : ℕ → ℕ) (end k : ℕ)
    → end ≤ reads k
    → 0 < fuel
    → wait_until fuel reads end k ≡ some k
unfolding wait_until
wait_until-now zero reads end k le lt = elim lt [ ]
wait_until-now (suc fuel) reads end k le lt =
    let f : ltb (reads k) end ≡ false = ground arith in rw f refl

-- `timer_wait_loop_sec` ends, when the end does not wrap, at the first read that finds more than the
-- seconds asked for passed, if there is one, and fuel up to it is enough. When the end wraps, and the
-- counter has not yet, it ends at the first read, without a wait.
pub timer_wait_loop_lem :
    (fuel n : ℕ) (reads : ℕ → ℕ) (sec : ℕ)
    → n < fuel
    → (reads 0 + sec * 1000 + 1 < 2 ^ 32
        → reads 0 + sec * 1000 < reads (1 + n)
        → Returns (Waited reads (reads 0) (sec * 1000) 1) (timer_wait_loop_sec fuel reads sec))
      × (2 ^ 32 ≤ reads 0 + sec * 1000 + 1
          → sec * 1000 + 1 < 2 ^ 32
          → reads 0 ≤ reads 1
          → timer_wait_loop_sec fuel reads sec ≡ some 1)
unfolding timer_wait_loop_sec
timer_wait_loop_lem fuel n reads sec lt = (
  λ small over.
      let end : (reads 0 + sec * 1000 + 1) % 2 ^ 32 ≡ reads 0 + sec * 1000 + 1 = omega arith in
      rw end (wait_until-Waited fuel n reads (reads 0) (sec * 1000) 1 over lt),
  λ wraps low up.
      wait_until-now fuel reads ((reads 0 + sec * 1000 + 1) % 2 ^ 32) 1 (omega arith) (omega arith),
)
