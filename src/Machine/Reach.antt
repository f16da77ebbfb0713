-- ===== src/Machine/Reach.antt =====
-- Interrupts, calls and new tasks in any order.
use magical_os.Base.{
  ℕ, ◌<◌, ◌≡◌, ◌⊎◌, true, false, ◌||◌, Option, none, some, refl, List, arith, mem, length, Distinct,
  Returns,
}
use magical_os.Sched.{State}
use magical_os.Sched.Holds.{Holds}
use magical_os.Sched.Queues.{IsQueue-Distinct}
use magical_os.Machine.{Machine, do_ir_timer, do_ir_keyboard}
use magical_os.Machine.Steps.{Step, tick, key, sleep, read_key, create, Reach, start, later}
use magical_os.Machine.Inv.{Inv, Inv-start}
use magical_os.Machine.Handlers.{do_ir_timer-Inv, do_ir_keyboard-Inv, do_ir_timer-busy}
use magical_os.Machine.Calls.{sleep-Inv, create-Inv, get_keydata_round-Inv}

Step-Inv :
    {dummy : ℕ} {ts ts' : List ℕ} {m m' : Machine}
    → Step dummy ts m ts' m'
    → Inv dummy ts m
    → Inv dummy ts' m'
Step-Inv {dummy} {ts} {m} (tick fuel lt e) v = rw e at (do_ir_timer-Inv dummy ts m fuel v lt)
Step-Inv {dummy} {ts} {m} (key fuel code lt e) v =
    rw e at (do_ir_keyboard-Inv dummy ts m fuel code v lt)
Step-Inv {dummy} {ts} {m} (sleep time nz) v = sleep-Inv dummy ts m v time nz
Step-Inv {dummy} {ts} {m} (read_key nz) v = get_keydata_round-Inv dummy ts m v nz
Step-Inv {dummy} {ts} {m} (create t nz far new) v = create-Inv dummy ts m v t nz far new

pub Reach-Inv : {dummy : ℕ} {ts : List ℕ} {m : Machine} → Reach dummy ts m → Inv dummy ts m
Reach-Inv {dummy} {m} (start v) = Inv-start dummy m v
Reach-Inv (later r st) = Step-Inv st (Reach-Inv r)

returned :
    {Q : Machine → Type 0} {whole : Option Machine}
    → ((m' : Machine) → whole ≡ some m' → Q m')
    → (P : Machine → Type 0) (r : Option Machine) → whole ≡ r
    → Returns P r
    → (m' : Machine) × (whole ≡ some m') × Q m'
returned f P none e h = elim h [ ]
returned f P (some m') e h = (m', e, f m' e)

-- The task is in exactly one of the three queues.
abbrev pub InOne : ℕ → List ℕ → List ℕ → List ℕ → Type 0
InOne a rq wq eq =
    ((mem a rq ≡ true) × (mem a wq ≡ false) × (mem a eq ≡ false))
    ⊎ ((mem a rq ≡ false) × (mem a wq ≡ true) × (mem a eq ≡ false))
    ⊎ ((mem a rq ≡ false) × (mem a wq ≡ false) × (mem a eq ≡ true))

abbrev pub InNone : ℕ → List ℕ → List ℕ → List ℕ → Type 0
InNone a rq wq eq = (mem a rq ≡ false) × (mem a wq ≡ false) × (mem a eq ≡ false)

in_one :
    (s : State) (rq wq eq : List ℕ) (a : ℕ)
    → Holds s rq wq eq
    → (mem a rq || mem a wq || mem a eq) ≡ true
    → InOne a rq wq eq
in_one s rq wq eq a v h = ground (arith, v.rq_wq a, v.rq_eq a, v.wq_eq a)

-- The three queues are circular lists without repetition; each task of `ts` is in exactly one of them, and
-- nothing else is in any; the running task is the kernel's own or one of the run queue.
pub record Queues (ts : List ℕ) (m : Machine) : Type 0 where
  pub rq : List ℕ
  pub wq : List ℕ
  pub eq : List ℕ
  pub holds : Holds m.sched rq wq eq
  pub once : Distinct rq × Distinct wq × Distinct eq
  pub tasks : (a : ℕ) → mem a ts ≡ true → InOne a rq wq eq
  pub others : (a : ℕ) → mem a ts ≡ false → InNone a rq wq eq
  pub running : (m.sched.current ≡ 0) ⊎ (mem m.sched.current rq ≡ true)

-- In every reachable machine the three queues are circular lists of tasks; each task that was created is
-- in exactly one of them, once, and nothing else is in any; the running task is the kernel's own or one
-- of the run queue.
pub Reach-Queues : {dummy : ℕ} {ts : List ℕ} {m : Machine} → Reach dummy ts m → Queues ts m
Reach-Queues {m} r =
    let v = Reach-Inv r in
    let h = v.sane.holds in
    record {
      rq = v.rq;
      wq = v.wq;
      eq = v.eq;
      holds = h;
      once = (
        IsQueue-Distinct m.sched.links m.sched.runq v.rq h.runq,
        IsQueue-Distinct m.sched.links m.sched.wakeupq v.wq h.wakeupq,
        IsQueue-Distinct m.sched.links m.sched.evq v.eq h.evq,
      );
      tasks = λ a i. in_one m.sched v.rq v.wq v.eq a h (ground (arith, v.sane.shares.all a));
      others = λ a o. ground (arith, v.sane.shares.all a);
      running = v.sane.runs;
    }

-- From every reachable machine both interrupt handlers return, with fuel for one round more than there
-- are tasks, and what they leave is reachable.
pub interrupts_return :
    {dummy : ℕ} {ts : List ℕ} {m : Machine}
    → Reach dummy ts m
    → (fuel : ℕ) (code : Option ℕ) → length ts < fuel
    → ((m' : Machine) × (do_ir_timer fuel m ≡ some m') × Reach dummy ts m')
      × ((m' : Machine) × (do_ir_keyboard fuel code m ≡ some m') × Reach dummy ts m')
interrupts_return {dummy} {ts} {m} r fuel code lt = (
  returned (λ m' e. later r (tick fuel lt e)) (Inv dummy ts) (do_ir_timer fuel m) refl
      (do_ir_timer-Inv dummy ts m fuel (Reach-Inv r) lt),
  returned (λ m' e. later r (key fuel code lt e)) (Inv dummy ts) (do_ir_keyboard fuel code m) refl
      (do_ir_keyboard-Inv dummy ts m fuel code (Reach-Inv r) lt),
)

-- A timer interrupt in a reachable machine leaves the kernel's own task running only when no task is
-- ready: the processor is not idle while the run queue holds a task.
pub timer_keeps_busy :
    {dummy : ℕ} {ts : List ℕ} {m : Machine}
    → Reach dummy ts m
    → (fuel : ℕ) → length ts < fuel
    → Returns (λ m'. m'.sched.current ≡ 0 → m'.sched.runq.head ≡ 0) (do_ir_timer fuel m)
timer_keeps_busy {dummy} {ts} {m} r fuel lt = do_ir_timer-busy dummy ts m fuel (Reach-Inv r) lt
