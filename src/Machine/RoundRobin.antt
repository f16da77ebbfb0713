-- ===== src/Machine/RoundRobin.antt =====
-- Timer interrupts go round the run queue while no task that waits for a time is due.
use mathlib.Core.List.{append_assoc}
use mathlib.Core.Path.{subst, sym}
use magical_os.Base.{
  ℕ, zero, suc, ◌-◌, ◌*◌, ◌≤◌, ◌≡◌, refl, ◌∙◌, true, false, Option, none, some, List, [], ◌∷◌, ◌++◌,
  arith, ◌==◌, if◌then◌else◌, mem, length, Distinct, mem-append, Returns, Returns-some, Bool-cases,
  inl, inr,
}
use magical_os.Links.Ring.{last, mem-last}
use magical_os.Sched.{timer_tick_ms, switch, eoi}
use magical_os.Sched.Holds.{Holds}
use magical_os.Sched.Schedule.{successor, following}
use magical_os.Sched.RoundRobin.{
  visits, successor_at, Distinct-not_mem, Distinct-ahead, successor-last,
}
use magical_os.Machine.{Machine, do_ir_timer}
use magical_os.Machine.Turn.{LaterThan, Turned, turn}

-- `n` timer interrupts, one after the other.
unfoldable pub timer_interrupts : (fuel n : ℕ) → Machine → Option Machine
timer_interrupts fuel zero m = some m
timer_interrupts fuel (suc n) m = elim (do_ir_timer fuel m) [
  | none ↦ none
  | some m' ↦ timer_interrupts fuel n m'
]

interrupts_step :
    (fuel n : ℕ) (m m' : Machine)
    → do_ir_timer fuel m ≡ some m'
    → timer_interrupts fuel (suc n) m ≡ timer_interrupts fuel n m'
unfolding timer_interrupts
interrupts_step fuel n m m' e = rw (timer_interrupts, e) refl

-- After `n` timer interrupts that switched to the tasks `ys`, the last of which is `current`.
pub record Passed (rq wq eq : List ℕ) (n current : ℕ) (ys : List ℕ) (m m' : Machine) : Type 0 where
  pub holds : Holds m'.sched rq wq eq
  pub at : m'.sched.current ≡ current
  pub trace : m'.sched.trace ≡ visits ys m.sched.trace
  pub in_slice : (a : ℕ) → m'.sched.in_slice a ≡ 0
  pub msec :
      (a : ℕ)
      → m'.sched.msec a ≡ (if mem a wq then m.sched.msec a - n * timer_tick_ms else m.sched.msec a)

LaterThan-turn :
    (rq wq eq : List ℕ) (n : ℕ) (m m' : Machine)
    → Turned rq wq eq m m'
    → LaterThan (suc n * timer_tick_ms) m.sched wq
    → LaterThan (n * timer_tick_ms) m'.sched wq
LaterThan-turn rq wq eq n m m' t later a i =
    let e : m'.sched.msec a ≡ m.sched.msec a - timer_tick_ms = rw i at (t.msec a) in
    omega (arith, e, later a i)

Passed-later :
    (rq wq eq : List ℕ) (n current y : ℕ) (ys : List ℕ) (m m1 m' : Machine)
    → Turned rq wq eq m m1
    → m1.sched.trace ≡ switch y ∷ eoi ∷ m.sched.trace
    → Passed rq wq eq n current ys m1 m'
    → Passed rq wq eq (suc n) current (y ∷ ys) m m'
Passed-later rq wq eq n current y ys m m1 m' t e p = record {
  holds = p.holds;
  at = p.at;
  trace = rw e at p.trace;
  in_slice = p.in_slice;
  msec = λ a. elim (Bool-cases (mem a wq)) [
    | inl i ↦
        let now = rw i at (t.msec a) in
        let after = rw i at (p.msec a) in rw i (omega (arith, now, after))
    | inr i ↦ let now = rw i at (t.msec a) in let after = rw i at (p.msec a) in rw i (after ∙ now)
  ];
}

-- From the first of two or more tasks.
module _ (h y : ℕ) (ys : List ℕ) (wq eq : List ℕ) (fuel : ℕ) (enough : length wq ≤ fuel) where
  abbrev rq : List ℕ
  rq = h ∷ y ∷ ys

  -- From the last task the first one runs again.
  wrap :
      (m : Machine)
      → Holds m.sched rq wq eq
      → m.sched.current ≡ last y ys
      → ((a : ℕ) → m.sched.in_slice a ≡ 0)
      → LaterThan timer_tick_ms m.sched wq
      → Returns (Passed rq wq eq 1 h (h ∷ []) m) (timer_interrupts fuel 1 m)
  unfolding timer_interrupts
  wrap m v c z later =
      let i = subst (λ a. mem a rq ≡ true) (sym c) (mem-last h (y ∷ ys)) in
      let (m1, step, t) =
        Returns-some (do_ir_timer fuel m) (turn fuel m rq wq eq v i z later enough) in
      let f = subst (λ a. following a rq ≡ h) (sym c) (successor-last h h (y ∷ ys) v.runq.ring.1) in
      let far : (h == m.sched.current) ≡ false = ground (arith, mem-last y ys, v.runq.ring.1.0) in
      rw (interrupts_step fuel 0 m m1 step) (record {
        holds = t.holds;
        at = t.current ∙ f;
        trace = rw (f, far) at t.trace;
        in_slice = t.in_slice;
        msec = λ a. t.msec a;
      })

  -- From the task `x` on, the tasks `zs` behind it run one after the other, and then the first.
  along :
      (zs xs : List ℕ) (x : ℕ) (m : Machine)
      → rq ≡ xs ++ (x ∷ zs)
      → last x zs ≡ last y ys
      → Holds m.sched rq wq eq
      → m.sched.current ≡ x
      → ((a : ℕ) → m.sched.in_slice a ≡ 0)
      → LaterThan (suc (length zs) * timer_tick_ms) m.sched wq
      → Returns
          (Passed rq wq eq (suc (length zs)) h (zs ++ (h ∷ [])) m)
          (timer_interrupts fuel (suc (length zs)) m)
  along [] xs x m e end v c z later = wrap m v (c ∙ end) z (λ a j. later a j)
  along (w ∷ zs) xs x m e end v c z later =
      let d = v.runq.ring.1 in
      let i : mem m.sched.current rq ≡ true =
        subst (λ a. mem a rq ≡ true) (sym c)
          (subst (λ l. mem x l ≡ true) (sym e) (ground (arith, mem-append x xs (x ∷ w ∷ zs)))) in
      let d' : Distinct (xs ++ (x ∷ w ∷ zs)) = subst Distinct e d in
      let f : following m.sched.current rq ≡ w =
        subst (λ l. successor m.sched.current l h ≡ w) (sym e)
          (subst (λ a. successor a (xs ++ (x ∷ w ∷ zs)) h ≡ w) (sym c)
            (successor_at x h xs (w ∷ zs) (Distinct-not_mem x xs (w ∷ zs) d'))) in
      let far : (w == m.sched.current) ≡ false =
        rw c (ground (arith, Distinct-ahead x w xs zs d')) in
      let e' : rq ≡ (xs ++ (x ∷ [])) ++ (w ∷ zs) = e ∙ sym (append_assoc xs (x ∷ []) (w ∷ zs)) in
      let (m1, step, t) =
        Returns-some (do_ir_timer fuel m)
          (turn fuel m rq wq eq v i z (λ a j. omega (arith, later a j)) enough) in
      let switched : m1.sched.trace ≡ switch w ∷ eoi ∷ m.sched.trace = rw (f, far) at t.trace in
      let (m2, rest, p) = Returns-some (timer_interrupts fuel (suc (length zs)) m1) (
        along zs (xs ++ (x ∷ [])) w m1 e' end t.holds (t.current ∙ f) t.in_slice
          (LaterThan-turn rq wq eq (suc (length zs)) m m1 t later)) in
      rw (interrupts_step fuel (suc (length zs)) m m1 step, rest)
        (Passed-later rq wq eq (suc (length zs)) h w (zs ++ (h ∷ [])) m m1 m2 t switched p)

-- Round robin. The first of two or more tasks runs, none was switched to within a time slice, and every
-- task that waits for a time waits for longer than 10 ms for each task of the run queue. Then as many timer
-- interrupts as there are tasks return, with fuel for the waiting tasks: they switch to each of the other
-- tasks once, in queue order, and then to the first again, and keep the queues.
pub round_robin :
    (h y : ℕ) (ys wq eq : List ℕ) (fuel : ℕ) (m : Machine)
    → Holds m.sched (h ∷ y ∷ ys) wq eq
    → m.sched.current ≡ h
    → ((a : ℕ) → m.sched.in_slice a ≡ 0)
    → LaterThan (length (h ∷ y ∷ ys) * timer_tick_ms) m.sched wq
    → length wq ≤ fuel
    → Returns
        (Passed (h ∷ y ∷ ys) wq eq (length (h ∷ y ∷ ys)) h ((y ∷ ys) ++ (h ∷ [])) m)
        (timer_interrupts fuel (length (h ∷ y ∷ ys)) m)
round_robin h y ys wq eq fuel m v c z later le =
    along h y ys wq eq fuel le (y ∷ ys) [] h m refl refl v c z later
