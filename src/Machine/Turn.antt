-- ===== src/Machine/Turn.antt =====
-- A timer interrupt that finds no waiting task due.
use mathlib.Core.List.{append-nil}
use magical_os.Base.{
  ℕ, ◌+◌, ◌-◌, ◌%◌, ◌^◌, ◌<◌, ◌≤◌, ◌≡◌, refl, ap, ◌∙◌, not, true, List, [], ◌∷◌, arith, ◌==◌,
  if◌then◌else◌, ltb, mem, filter, length, Returns, Returns-some,
}
use magical_os.Sched.{
  State, timer, timer_tick_ms, switch, eoi, act, dispatch, schedule, update_wakeupq,
}
use magical_os.Sched.Holds.{Holds}
use magical_os.Sched.Schedule.{following, schedule_timer}
use magical_os.Sched.Wakeup.{update_wakeupq_live, update_wakeupq_none}
use magical_os.Sched.RoundRobin.{in_slice-schedule}
use magical_os.Machine.{Machine, do_ir_timer}

-- Every task of the list waits for more than this time.
abbrev pub LaterThan : ℕ → State → List ℕ → Type 0
LaterThan ms s wq = (a : ℕ) → mem a wq ≡ true → ms < s.msec a

filter_all :
    (s : State) (xs : List ℕ)
    → LaterThan timer_tick_ms s xs
    → (filter (λ a. ltb timer_tick_ms (s.msec a)) xs ≡ xs)
      × (filter (λ a. not (ltb timer_tick_ms (s.msec a))) xs ≡ [])
filter_all s [] later = (refl, refl)
filter_all s (x ∷ xs) later =
    let now : ltb timer_tick_ms (s.msec x) ≡ true = ground (arith, later x) in
    let rest = filter_all s xs (λ a i. later a (ground (arith, i))) in
    (rw (now, rest.0) refl, rw (now, rest.1) refl)

-- What the first call of a timer interrupt leaves when no waiting task is due.
pub record Waiting (s : State) (rq wq eq : List ℕ) (s' : State) : Type 0 where
  pub holds : Holds s' rq wq eq
  pub msec : (a : ℕ) → s'.msec a ≡ (if mem a wq then s.msec a - timer_tick_ms else s.msec a)
  pub current : s'.current ≡ s.current
  pub trace : s'.trace ≡ s.trace
  pub in_slice : (a : ℕ) → s'.in_slice a ≡ s.in_slice a

nothing_due :
    (fuel : ℕ) (s : State) (rq wq eq : List ℕ)
    → Holds s rq wq eq
    → LaterThan timer_tick_ms s wq
    → length wq ≤ fuel
    → Returns (λ r. Waiting s rq wq eq r.1) (update_wakeupq fuel s)
nothing_due fuel s rq [] eq v later le =
    rw (update_wakeupq_none s rq eq fuel v)
      (record { holds = v; msec = λ a. refl; current = refl; trace = refl; in_slice = λ a. refl })
nothing_due fuel s rq (h ∷ rest) eq v later le =
    let (r, e, (good, holds, msec, same)) =
      Returns-some (update_wakeupq fuel s)
        (update_wakeupq_live s rq eq h rest fuel v (later h (ground arith)) (omega arith)) in
    let all = filter_all s rest (λ a i. later a (ground (arith, i))) in
    rw e (record {
      holds = rw (all.0, all.1, append-nil rq) at holds;
      msec = msec;
      current = same.current;
      trace = same.trace;
      in_slice = λ a. ap (λ f. f a) same.in_slice;
    })

msec-schedule : (s : State) (a : ℕ) → (schedule timer s).msec a ≡ s.msec a
unfolding schedule act dispatch
msec-schedule s a = ground arith

-- A timer interrupt that finds no waiting task due: the task behind the current one runs, the queues are as
-- before, and the waiting tasks have 10 ms less to wait.
pub record Turned (rq wq eq : List ℕ) (m m' : Machine) : Type 0 where
  pub holds : Holds m'.sched rq wq eq
  pub current : m'.sched.current ≡ following m.sched.current rq
  pub trace : m'.sched.trace ≡ (
      if following m.sched.current rq == m.sched.current
      then eoi ∷ m.sched.trace
      else switch (following m.sched.current rq) ∷ eoi ∷ m.sched.trace)
  pub in_slice : (a : ℕ) → m'.sched.in_slice a ≡ 0
  pub msec :
      (a : ℕ)
      → m'.sched.msec a ≡ (if mem a wq then m.sched.msec a - timer_tick_ms else m.sched.msec a)
  pub counter : m'.counter ≡ (m.counter + timer_tick_ms) % 2 ^ 32

pub turn :
    (fuel : ℕ) (m : Machine) (rq wq eq : List ℕ)
    → Holds m.sched rq wq eq
    → mem m.sched.current rq ≡ true
    → ((a : ℕ) → m.sched.in_slice a ≡ 0)
    → LaterThan timer_tick_ms m.sched wq
    → length wq ≤ fuel
    → Returns (Turned rq wq eq m) (do_ir_timer fuel m)
unfolding do_ir_timer
turn fuel m rq wq eq v i z later le =
    let (r, e, w) =
      Returns-some (update_wakeupq fuel m.sched) (nothing_due fuel m.sched rq wq eq v later le) in
    let slice = λ (a : ℕ). w.in_slice a ∙ z a in
    let t = schedule_timer r.1 rq wq eq w.holds (rw w.current i) (slice r.1.current) in
    rw e (record {
      holds = t.0;
      current = rw w.current at t.1;
      trace = rw (w.current, w.trace) at t.2;
      in_slice = λ a. in_slice-schedule r.1 a (slice a);
      msec = λ a. msec-schedule r.1 a ∙ w.msec a;
      counter = refl;
    })
