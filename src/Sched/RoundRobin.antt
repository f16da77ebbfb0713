-- ===== src/Sched/RoundRobin.antt =====
-- The order in which `schedule` of kernel/sched.c goes round the run queue.
use magical_os.Base.{
  ℕ, ◌≡◌, refl, ◌≢◌, false, List, [], ◌∷◌, ◌++◌, arith, mem, Distinct, mem-append,
}
use magical_os.Links.Ring.{first, last, mem-last}
use magical_os.Sched.{State, timer, Action, switch, eoi, act, dispatch, schedule}
use magical_os.Sched.Schedule.{successor}

-- The actions of the switches to the tasks `ys`, in this order, on top of `trace`.
abbrev pub visits : List ℕ → List Action → List Action
visits [] trace = trace
visits (y ∷ ys) trace = visits ys (switch y ∷ eoi ∷ trace)

pub in_slice-schedule : (s : State) (a : ℕ) → s.in_slice a ≡ 0 → (schedule timer s).in_slice a ≡ 0
unfolding schedule act dispatch
in_slice-schedule s a z = ground arith

pub successor_at :
    (c d : ℕ) (xs ys : List ℕ) → mem c xs ≡ false → successor c (xs ++ (c ∷ ys)) d ≡ first ys d
successor_at c d [] ys out = ground arith
successor_at c d (x ∷ []) ys out = ground arith
successor_at c d (x ∷ y ∷ xs) ys out = ground (arith, successor_at c d (y ∷ xs) ys)

pub Distinct-not_mem : (x : ℕ) (xs ys : List ℕ) → Distinct (xs ++ (x ∷ ys)) → mem x xs ≡ false
Distinct-not_mem x [] ys d = refl
Distinct-not_mem x (y ∷ xs) ys d =
    ground (arith, Distinct-not_mem x xs ys d.1, mem-append y xs (x ∷ ys))

pub Distinct-ahead : (x y : ℕ) (xs ys : List ℕ) → Distinct (xs ++ (x ∷ y ∷ ys)) → y ≢ x
Distinct-ahead x y [] ys d e = ground arith
Distinct-ahead x y (z ∷ xs) ys d e = Distinct-ahead x y xs ys d.1 e

pub successor-last :
    (x d : ℕ) (xs : List ℕ) → Distinct (x ∷ xs) → successor (last x xs) (x ∷ xs) d ≡ d
successor-last x d [] dis = ground arith
successor-last x d (y ∷ ys) dis = ground (arith, mem-last y ys, successor-last y d ys dis.1)
