-- ===== src/Sched/Schedule.antt =====
-- One call of `schedule` of kernel/sched.c on a run queue that holds a list of tasks.
use magical_os.Base.{ℕ, ◌≡◌, ◌≢◌, true, List, [], ◌∷◌, arith, ◌==◌, if◌then◌else◌, mem}
use magical_os.Links.{Links}
use magical_os.Links.Ring.{Chain, first}
use magical_os.Sched.{
  State, TaskQueue, Cause, timer, syscall, switch, switch_kernel, eoi, act, dispatch, schedule,
}
use magical_os.Sched.Queues.{IsQueue}
use magical_os.Sched.Holds.{Holds, IsQueue-head}

-- The task behind `c`, or `d` behind the last one.
abbrev pub successor : ℕ → List ℕ → ℕ → ℕ
successor c [] d = d
successor c (x ∷ xs) d = if x == c then first xs d else successor c xs d

-- The task that runs after `c`: the one behind it, or the first.
abbrev pub following : ℕ → List ℕ → ℕ
following c xs = successor c xs (first xs 0)

Chain-successor :
    (m : Links) (a b c : ℕ) (xs : List ℕ)
    → Chain m a xs b
    → mem c (a ∷ xs) ≡ true
    → m.next c ≡ successor c (a ∷ xs) b
Chain-successor m a b c [] e i = ground arith
Chain-successor m a b c (x ∷ xs) e i = ground (arith, Chain-successor m x b c xs e.2)

pub next-following :
    (m : Links) (q : TaskQueue) (c : ℕ) (xs : List ℕ)
    → IsQueue m q xs
    → mem c xs ≡ true
    → m.next c ≡ following c xs
next-following m q c [] v i = cc
next-following m q c (h ∷ xs) v i = Chain-successor m h h c xs v.ring.0 i

successor-mem :
    (c d : ℕ) (xs ys : List ℕ)
    → mem d ys ≡ true
    → ((a : ℕ) → mem a xs ≡ true → mem a ys ≡ true)
    → mem (successor c xs d) ys ≡ true
successor-mem c d [] ys i sub = i
successor-mem c d (x ∷ []) ys i sub = ground arith
successor-mem c d (x ∷ y ∷ xs) ys i sub =
    ground (arith, successor-mem c d (y ∷ xs) ys i (λ a j. sub a (ground arith)), sub y)

pub following-mem : (c : ℕ) (xs : List ℕ) → mem c xs ≡ true → mem (following c xs) xs ≡ true
following-mem c [] i = cc
following-mem c (h ∷ xs) i = successor-mem c h (h ∷ xs) (h ∷ xs) (ground arith) (λ a j. j)

-- The queues of a state that has the links and the queues of another.
pub Holds-of :
    (s s' : State) (rq wq eq : List ℕ)
    → s'.links ≡ s.links
    → s'.runq ≡ s.runq
    → s'.wakeupq ≡ s.wakeupq
    → s'.evq ≡ s.evq
    → Holds s rq wq eq
    → Holds s' rq wq eq
Holds-of s s' rq wq eq l r w e v = record {
  runq = rw (l, r) v.runq;
  wakeupq = rw (l, w) v.wakeupq;
  evq = rw (l, e) v.evq;
  rq_wq = v.rq_wq;
  rq_eq = v.rq_eq;
  wq_eq = v.wq_eq;
}

module _ (cause : Cause) (s : State) where
  pub links-schedule : (schedule cause s).links ≡ s.links
  unfolding schedule act dispatch
  links-schedule = ground arith

  pub runq-schedule : (schedule cause s).runq ≡ s.runq
  unfolding schedule act dispatch
  runq-schedule = ground arith

  pub wakeupq-schedule : (schedule cause s).wakeupq ≡ s.wakeupq
  unfolding schedule act dispatch
  wakeupq-schedule = ground arith

  pub evq-schedule : (schedule cause s).evq ≡ s.evq
  unfolding schedule act dispatch
  evq-schedule = ground arith

  pub Holds-schedule : (rq wq eq : List ℕ) → Holds s rq wq eq → Holds (schedule cause s) rq wq eq
  Holds-schedule rq wq eq =
      Holds-of s (schedule cause s) rq wq eq links-schedule runq-schedule wakeupq-schedule
        evq-schedule

  pub msec-schedule : (schedule cause s).msec ≡ s.msec
  unfolding schedule act dispatch
  msec-schedule = ground arith

  pub event-schedule : (schedule cause s).event ≡ s.event
  unfolding schedule act dispatch
  event-schedule = ground arith

  pub flag-schedule : (schedule cause s).flag ≡ s.flag
  unfolding schedule act dispatch
  flag-schedule = ground arith

-- A timer interrupt of a task in the run queue that was not switched to by a system call: the next
-- task of the queue becomes current and is switched to, or it goes on when it is the only one; the
-- queues stay as they are.
pub schedule_timer :
    (s : State) (rq wq eq : List ℕ)
    → Holds s rq wq eq
    → mem s.current rq ≡ true
    → s.in_slice s.current ≡ 0
    → (Holds (schedule timer s) rq wq eq)
      × ((schedule timer s).current ≡ following s.current rq)
      × ((schedule timer s).trace ≡ (
          if following s.current rq == s.current
          then eoi ∷ s.trace
          else switch (following s.current rq) ∷ eoi ∷ s.trace))
unfolding schedule act dispatch
schedule_timer s rq wq eq v i old = (
  Holds-schedule timer s rq wq eq v,
  ground (
    arith,
    next-following s.links s.runq s.current rq v.runq i,
    IsQueue-head s.current s.links s.runq rq i v.runq,
    v.runq.null,
  ),
  ground (
    arith,
    next-following s.links s.runq s.current rq v.runq i,
    IsQueue-head s.current s.links s.runq rq i v.runq,
    v.runq.null,
  ),
)

-- With no current task the first of the run queue runs; with none there either, the processor goes on
-- as it was.
pub schedule_idle :
    (cause : Cause) (s : State) (rq wq eq : List ℕ)
    → Holds s rq wq eq
    → s.current ≡ 0
    → ((schedule cause s).current ≡ first rq 0)
      × ((schedule cause s).trace
          ≡ (if first rq 0 == 0 then eoi ∷ s.trace else switch (first rq 0) ∷ eoi ∷ s.trace))
unfolding schedule act dispatch
schedule_idle cause s rq wq eq v z = (ground (arith, v.runq.head), ground (arith, v.runq.head))

-- A current task that is in no queue any more: the kernel's own task runs.
pub schedule_last :
    (s : State)
    → s.current ≢ 0
    → s.runq.head ≡ 0
    → ((schedule syscall s).current ≡ 0)
      × ((schedule syscall s).trace ≡ switch_kernel ∷ eoi ∷ s.trace)
unfolding schedule act dispatch
schedule_last s nz e = (ground arith, ground arith)

-- A system call of a current task that links to another one.
pub schedule_syscall :
    (s : State)
    → s.current ≢ 0
    → s.runq.head ≢ 0
    → s.links.next s.current ≢ s.current
    → ((schedule syscall s).current ≡ s.links.next s.current)
      × ((schedule syscall s).trace ≡ switch (s.links.next s.current) ∷ eoi ∷ s.trace)
unfolding schedule act dispatch
schedule_syscall s nz e far = (ground arith, ground arith)
