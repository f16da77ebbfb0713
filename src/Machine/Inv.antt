-- ===== src/Machine/Inv.antt =====
-- What holds of a machine between two steps.
use magical_os.Base.{
  ℕ, ◌≡◌, ◌≢◌, ◌⊎◌, inl, inr, refl, true, false, List, [], ◌∷◌, arith, ◌==◌, mem, Bool-cases,
  ne_of_mem, ap, sym, ◌∙◌,
}
use magical_os.KeyQueue.Refine.{HasSize, con_init_lem}
use magical_os.Links.Ring.{first}
use magical_os.Sched.{State, TaskQueue, timer, schedule, act, dispatch}
use magical_os.Sched.Holds.{Holds}
use magical_os.Sched.Schedule.{following-mem, runq-schedule, schedule_timer, schedule_idle}
use magical_os.Machine.{Machine}
use magical_os.Machine.Steps.{IsStart}
use magical_os.Machine.Tasks.{Shares}

-- The kernel's own task runs, or one of the run queue.
abbrev pub Runs : ℕ → List ℕ → Type 0
Runs c rq = (c ≡ 0) ⊎ (mem c rq ≡ true)

-- The scheduler's part.
pub record Sane (dummy : ℕ) (ts : List ℕ) (s : State) (rq wq eq : List ℕ) : Type 0 where
  pub holds : Holds s rq wq eq
  pub shares : Shares ts rq wq eq
  pub runs : Runs s.current rq
  pub dummy_nz : dummy ≢ 0
  pub dummy_out : mem dummy ts ≡ false

-- The queues hold the tasks `ts`, each one once, and the key code queue is well formed.
pub record Inv (dummy : ℕ) (ts : List ℕ) (m : Machine) : Type 0 where
  pub rq : List ℕ
  pub wq : List ℕ
  pub eq : List ℕ
  pub sane : Sane dummy ts m.sched rq wq eq
  pub size : ℕ
  pub keys : HasSize m.keys size

pub current-schedule :
    (s : State) (rq wq eq : List ℕ)
    → Holds s rq wq eq
    → mem s.current rq ≡ true
    → mem (schedule timer s).current rq ≡ true
unfolding schedule act dispatch
current-schedule s rq wq eq v i = elim (Bool-cases (s.in_slice s.current == 0)) [
  | inl old ↦ rw (schedule_timer s rq wq eq v i (ground arith)).1 (following-mem s.current rq i)
  | inr fresh ↦
      let nz : (s.current == 0) ≡ false = ground (arith, ne_of_mem s.current 0 rq i v.runq.null) in
      rw (nz, fresh) i
]

Runs-first : (c : ℕ) (rq : List ℕ) → c ≡ first rq 0 → Runs c rq
Runs-first c [] e = inl e
Runs-first c (x ∷ xs) e = inr (ground arith)

pub Runs-schedule :
    (s : State) (rq wq eq : List ℕ)
    → Holds s rq wq eq
    → Runs s.current rq
    → Runs (schedule timer s).current rq
Runs-schedule s rq wq eq v (inl z) = Runs-first _ rq (schedule_idle timer s rq wq eq v z).0
Runs-schedule s rq wq eq v (inr i) = inr (current-schedule s rq wq eq v i)

-- The timer's `schedule` leaves the kernel's own task only where no task is in the run queue.
pub schedule-busy :
    (s : State) (rq wq eq : List ℕ)
    → Holds s rq wq eq
    → Runs s.current rq
    → (schedule timer s).current ≡ 0
    → (schedule timer s).runq.head ≡ 0
schedule-busy s rq wq eq v (inl z) idle =
    let h = ap (λ (q : TaskQueue). q.head) (runq-schedule timer s) in
    h ∙ v.runq.head ∙ sym (schedule_idle timer s rq wq eq v z).0 ∙ idle
schedule-busy s rq wq eq v (inr i) idle =
    absurd (ne_of_mem _ 0 rq (current-schedule s rq wq eq v i) v.runq.null idle)

pub Holds-start : (dummy : ℕ) (m : Machine) → IsStart dummy m → Holds m.sched [] [] []
Holds-start dummy m v = record {
  runq = rw v.runq (record { head = refl; null = refl; ring = tt; len = refl });
  wakeupq = rw v.wakeupq (record { head = refl; null = refl; ring = tt; len = refl });
  evq = rw v.evq (record { head = refl; null = refl; ring = tt; len = refl });
  rq_wq = λ a i. refl;
  rq_eq = λ a i. refl;
  wq_eq = λ a i. refl;
}

pub Inv-start : (dummy : ℕ) (m : Machine) → IsStart dummy m → Inv dummy [] m
Inv-start dummy m v = record {
  rq = [];
  wq = [];
  eq = [];
  sane = record {
    holds = Holds-start dummy m v;
    shares = record { all = λ a. refl; count = omega arith };
    runs = inl v.current;
    dummy_nz = v.dummy_nz;
    dummy_out = refl;
  };
  size = 0;
  keys = rw v.keys (con_init_lem m.keys v.storage);
}
