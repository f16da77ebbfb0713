-- ===== src/Machine/Steps.antt =====
-- What can happen next, in any order: an interrupt, a call of the running task, a new task.
use magical_os.Base.{ℕ, ◌<◌, ◌≡◌, ◌≢◌, false, Option, some, List, [], ◌∷◌, length, mem}
use magical_os.KeyQueue.{con_init}
use magical_os.Sched.{TaskQueue, runq_enq, wakeup_after_msec}
use magical_os.Machine.{Machine, do_ir_timer, do_ir_keyboard, get_keydata_round}

-- From the tasks `ts` and a machine to those after the step. `dummy` is the address of `dummy_task`. The
-- fuel of a handler is more than there are tasks.
pub data Step (dummy : ℕ) (ts : List ℕ) (m : Machine) : List ℕ → Machine → Type 0 where
  tick :
      {m' : Machine} (fuel : ℕ)
      → length ts < fuel
      → do_ir_timer fuel m ≡ some m'
      → Step dummy ts m ts m'
  key :
      {m' : Machine} (fuel : ℕ) (code : Option ℕ)
      → length ts < fuel
      → do_ir_keyboard fuel code m ≡ some m'
      → Step dummy ts m ts m'
  sleep :
      (msec : ℕ)
      → m.sched.current ≢ 0
      → Step dummy ts m ts (record m { sched = wakeup_after_msec dummy msec m.sched })
  read_key : m.sched.current ≢ 0 → Step dummy ts m ts (get_keydata_round dummy m).1
  create :
      (t : ℕ)
      → t ≢ 0
      → t ≢ dummy
      → mem t ts ≡ false
      → Step dummy ts m (t ∷ ts) (record m { sched = runq_enq t m.sched })

abbrev pub no_tasks : TaskQueue
no_tasks = record { head = 0; len = 0 }

-- Before the first task: no queue has one, and the key code queue is as `con_init` leaves it.
pub record IsStart (dummy : ℕ) (m : Machine) : Type 0 where
  pub runq : m.sched.runq ≡ no_tasks
  pub wakeupq : m.sched.wakeupq ≡ no_tasks
  pub evq : m.sched.evq ≡ no_tasks
  pub current : m.sched.current ≡ 0
  pub storage : length m.keys.buf ≡ 256
  pub keys : m.keys ≡ con_init m.keys
  pub dummy_nz : dummy ≢ 0

pub data Reach (dummy : ℕ) : List ℕ → Machine → Type 0 where
  start : {m : Machine} → IsStart dummy m → Reach dummy [] m
  later :
      {ts ts' : List ℕ} {m m' : Machine}
      → Reach dummy ts m
      → Step dummy ts m ts' m'
      → Reach dummy ts' m'
