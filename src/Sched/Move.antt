-- ===== src/Sched/Move.antt =====
-- Moves of a task between the queues of kernel/sched.c, and the fields that they leave alone.
use magical_os.Base.{
  ℕ, ◌≡◌, refl, ◌∙◌, ◌≢◌, true, false, List, [], ◌∷◌, ◌++◌, arith, ◌==◌, mem, erase, mem-erase_self,
  Bool-cases, inl, inr,
}
use magical_os.Sched.{
  State, runq_enq, runq_del, wakeupq_enq, wakeupq_del, wakeupevq_enq, wakeupevq_del,
}
use magical_os.Sched.Queues.{IsQueue-Distinct}
use magical_os.Sched.Holds.{Holds, Apart-symm, unlock_lock}
use magical_os.Sched.Ops.{
  runq_enq-Holds, runq_del-Holds, wakeupq_enq-Holds, wakeupq_del-Holds, wakeupevq_enq-Holds,
  wakeupevq_del-Holds,
}

-- Every field but the links and the queues is the same.
pub record Frame (s s' : State) : Type 0 where
  pub in_slice : s'.in_slice ≡ s.in_slice
  pub msec : s'.msec ≡ s.msec
  pub event : s'.event ≡ s.event
  pub current : s'.current ≡ s.current
  pub flag : s'.flag ≡ s.flag
  pub trace : s'.trace ≡ s.trace

pub Frame-trans : (s s' s'' : State) → Frame s s' → Frame s' s'' → Frame s s''
Frame-trans s s' s'' f g = record {
  in_slice = g.in_slice ∙ f.in_slice;
  msec = g.msec ∙ f.msec;
  event = g.event ∙ f.event;
  current = g.current ∙ f.current;
  flag = g.flag ∙ f.flag;
  trace = g.trace ∙ f.trace;
}

pub Frame-runq_enq : (t : ℕ) (s : State) → Frame s (runq_enq t s)
unfolding runq_enq
Frame-runq_enq t s = record {
  in_slice = refl;
  msec = refl;
  event = refl;
  current = refl;
  flag = unlock_lock s.flag;
  trace = refl;
}

pub Frame-runq_del : (t : ℕ) (s : State) → Frame s (runq_del t s).1
unfolding runq_del
Frame-runq_del t s = elim (Bool-cases (s.runq.head == 0)) [
  | inl e ↦ rw e (record {
    in_slice = refl;
    msec = refl;
    event = refl;
    current = refl;
    flag = refl;
    trace = refl;
  })
  | inr e ↦ rw e (record {
    in_slice = refl;
    msec = refl;
    event = refl;
    current = refl;
    flag = unlock_lock s.flag;
    trace = refl;
  })
]

pub Frame-wakeupq_enq : (t : ℕ) (s : State) → Frame s (wakeupq_enq t s)
unfolding wakeupq_enq
Frame-wakeupq_enq t s = record {
  in_slice = refl;
  msec = refl;
  event = refl;
  current = refl;
  flag = unlock_lock s.flag;
  trace = refl;
}

pub Frame-wakeupq_del : (t : ℕ) (s : State) → Frame s (wakeupq_del t s).1
unfolding wakeupq_del
Frame-wakeupq_del t s = elim (Bool-cases (s.wakeupq.head == 0)) [
  | inl e ↦ rw e (record {
    in_slice = refl;
    msec = refl;
    event = refl;
    current = refl;
    flag = refl;
    trace = refl;
  })
  | inr e ↦ rw e (record {
    in_slice = refl;
    msec = refl;
    event = refl;
    current = refl;
    flag = unlock_lock s.flag;
    trace = refl;
  })
]

pub Frame-wakeupevq_enq : (t : ℕ) (s : State) → Frame s (wakeupevq_enq t s)
unfolding wakeupevq_enq
Frame-wakeupevq_enq t s = record {
  in_slice = refl;
  msec = refl;
  event = refl;
  current = refl;
  flag = unlock_lock s.flag;
  trace = refl;
}

pub Frame-wakeupevq_del : (t : ℕ) (s : State) → Frame s (wakeupevq_del t s).1
unfolding wakeupevq_del
Frame-wakeupevq_del t s = elim (Bool-cases (s.evq.head == 0)) [
  | inl e ↦ rw e (record {
    in_slice = refl;
    msec = refl;
    event = refl;
    current = refl;
    flag = refl;
    trace = refl;
  })
  | inr e ↦ rw e (record {
    in_slice = refl;
    msec = refl;
    event = refl;
    current = refl;
    flag = unlock_lock s.flag;
    trace = refl;
  })
]

-- A task of a queue is not NULL.
pub mem-ne_null : (t : ℕ) (xs : List ℕ) → mem 0 xs ≡ false → mem t xs ≡ true → t ≢ 0
mem-ne_null t [] z i = cc
mem-ne_null t (x ∷ xs) z i = ground (arith, mem-ne_null t xs)

-- From the queue for a time to the run queue.
pub wake_time :
    (t : ℕ) (s : State) (rq wq eq : List ℕ)
    → mem t wq ≡ true
    → Holds s rq wq eq
    → Holds (runq_enq t (wakeupq_del t s).1) (rq ++ (t ∷ [])) (erase t wq) eq
      × Frame s (runq_enq t (wakeupq_del t s).1)
wake_time t s rq wq eq i v =
    let d = wakeupq_del-Holds t s rq wq eq i v in
    let nz = mem-ne_null t wq v.wakeupq.null i in
    let dw = IsQueue-Distinct s.links s.wakeupq wq v.wakeupq in
    (
      runq_enq-Holds t _ rq (erase t wq) eq nz (Apart-symm rq wq v.rq_wq t i)
          (mem-erase_self t wq dw) (v.wq_eq t i) d.1,
      Frame-trans s _ _ (Frame-wakeupq_del t s) (Frame-runq_enq t _),
    )

-- From the queue for an event to the run queue.
pub wake_event :
    (t : ℕ) (s : State) (rq wq eq : List ℕ)
    → mem t eq ≡ true
    → Holds s rq wq eq
    → Holds (runq_enq t (wakeupevq_del t s).1) (rq ++ (t ∷ [])) wq (erase t eq)
      × Frame s (runq_enq t (wakeupevq_del t s).1)
wake_event t s rq wq eq i v =
    let d = wakeupevq_del-Holds t s rq wq eq i v in
    let nz = mem-ne_null t eq v.evq.null i in
    let dw = IsQueue-Distinct s.links s.evq eq v.evq in
    (
      runq_enq-Holds t _ rq wq (erase t eq) nz (Apart-symm rq eq v.rq_eq t i)
          (Apart-symm wq eq v.wq_eq t i) (mem-erase_self t eq dw) d.1,
      Frame-trans s _ _ (Frame-wakeupevq_del t s) (Frame-runq_enq t _),
    )

-- From the run queue to the queue for a time.
pub sleep_time :
    (t : ℕ) (s : State) (rq wq eq : List ℕ)
    → mem t rq ≡ true
    → Holds s rq wq eq
    → Holds (wakeupq_enq t (runq_del t s).1) (erase t rq) (wq ++ (t ∷ [])) eq
      × Frame s (wakeupq_enq t (runq_del t s).1)
sleep_time t s rq wq eq i v =
    let d = runq_del-Holds t s rq wq eq i v in
    let nz = mem-ne_null t rq v.runq.null i in
    let dw = IsQueue-Distinct s.links s.runq rq v.runq in
    (
      wakeupq_enq-Holds t _ (erase t rq) wq eq nz (mem-erase_self t rq dw) (v.rq_wq t i)
          (v.rq_eq t i) d.1,
      Frame-trans s _ _ (Frame-runq_del t s) (Frame-wakeupq_enq t _),
    )

-- From the run queue to the queue for an event.
pub sleep_event :
    (t : ℕ) (s : State) (rq wq eq : List ℕ)
    → mem t rq ≡ true
    → Holds s rq wq eq
    → Holds (wakeupevq_enq t (runq_del t s).1) (erase t rq) wq (eq ++ (t ∷ []))
      × Frame s (wakeupevq_enq t (runq_del t s).1)
sleep_event t s rq wq eq i v =
    let d = runq_del-Holds t s rq wq eq i v in
    let nz = mem-ne_null t rq v.runq.null i in
    let dw = IsQueue-Distinct s.links s.runq rq v.runq in
    (
      wakeupevq_enq-Holds t _ (erase t rq) wq eq nz (mem-erase_self t rq dw) (v.rq_wq t i)
          (v.rq_eq t i) d.1,
      Frame-trans s _ _ (Frame-runq_del t s) (Frame-wakeupevq_enq t _),
    )
