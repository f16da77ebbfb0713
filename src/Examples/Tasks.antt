-- ===== src/Examples/Tasks.antt =====
-- The scheduler's theorems at states with a few tasks: 0x100, 0x200, ... are their addresses.
use magical_os.Base.{refl, arith, true, false, [], ◌∷◌, Returns, ◌==◌, if◌then◌else◌}
use magical_os.Sched.{
  State, TaskQueue, runq_enq, wakeupq_enq, wakeupevq_enq, update_wakeupq, update_wakeupevq,
  wakeup_after_msec, wakeup_after_event,
}
use magical_os.Sched.Holds.{Holds}
use magical_os.Sched.Ops.{runq_enq-Holds, wakeupq_enq-Holds, wakeupevq_enq-Holds}
use magical_os.Sched.Wakeup.{
  TickLive, TickDue, NotifyLive, NotifyDue, update_wakeupq_live, update_wakeupq_due,
  update_wakeupevq_live, update_wakeupevq_due,
}
use magical_os.Machine.{Machine}
use magical_os.Machine.RoundRobin.{Passed, timer_interrupts, round_robin}
use magical_os.Sched.Sleep.Time.{SleptTime, wakeup_after_msec_lem}
use magical_os.Sched.Sleep.Event.{SleptEvent, wakeup_after_event_lem}

abbrev no_tasks : TaskQueue
no_tasks = record { head = 0; len = 0 }

-- No task is queued; task 0x300 has 30 ms to wait, 0x400 has 10, and 0x600 waits for event 1.
abbrev empty : State
empty = record {
  links = record { next = λ a. 0; prev = λ a. 0 };
  in_slice = λ a. 0;
  msec = λ a. if a == 0x300 then 30 else 10;
  event = λ a. if a == 0x600 then 1 else 2;
  runq = no_tasks;
  wakeupq = no_tasks;
  evq = no_tasks;
  current = 0x100;
  flag = true;
  trace = [];
}

empty-Holds : Holds empty [] [] []
empty-Holds = record {
  runq = record { head = refl; null = refl; ring = tt; len = refl };
  wakeupq = record { head = refl; null = refl; ring = tt; len = refl };
  evq = record { head = refl; null = refl; ring = tt; len = refl };
  rq_wq = λ a i. refl;
  rq_eq = λ a i. refl;
  wq_eq = λ a i. refl;
}

abbrev one : State
one = runq_enq 0x100 empty

one-Holds : Holds one (0x100 ∷ []) [] []
one-Holds = runq_enq-Holds 0x100 empty [] [] [] (omega arith) refl refl refl empty-Holds

abbrev two : State
two = runq_enq 0x200 one

two-Holds : Holds two (0x100 ∷ 0x200 ∷ []) [] []
two-Holds = runq_enq-Holds 0x200 one (0x100 ∷ []) [] [] (omega arith) refl refl refl one-Holds

abbrev three : State
three = wakeupq_enq 0x300 two

three-Holds : Holds three (0x100 ∷ 0x200 ∷ []) (0x300 ∷ []) []
three-Holds =
    wakeupq_enq-Holds 0x300 two (0x100 ∷ 0x200 ∷ []) [] [] (omega arith) refl refl refl two-Holds

abbrev four : State
four = wakeupq_enq 0x400 three

four-Holds : Holds four (0x100 ∷ 0x200 ∷ []) (0x300 ∷ 0x400 ∷ []) []
four-Holds =
    wakeupq_enq-Holds 0x400 three (0x100 ∷ 0x200 ∷ []) (0x300 ∷ []) [] (omega arith) refl refl refl
      three-Holds

-- The queue for a time with 0x400, which is due, as its head.
abbrev due : State
due = wakeupq_enq 0x300 (wakeupq_enq 0x400 two)

due-Holds : Holds due (0x100 ∷ 0x200 ∷ []) (0x400 ∷ 0x300 ∷ []) []
due-Holds =
    wakeupq_enq-Holds 0x300 (wakeupq_enq 0x400 two) (0x100 ∷ 0x200 ∷ []) (0x400 ∷ []) []
      (omega arith) refl refl refl
      (wakeupq_enq-Holds 0x400 two (0x100 ∷ 0x200 ∷ []) [] [] (omega arith) refl refl refl
        two-Holds)

abbrev events : State
events = wakeupevq_enq 0x600 (wakeupevq_enq 0x500 two)

events-Holds : Holds events (0x100 ∷ 0x200 ∷ []) [] (0x500 ∷ 0x600 ∷ [])
events-Holds =
    wakeupevq_enq-Holds 0x600 (wakeupevq_enq 0x500 two) (0x100 ∷ 0x200 ∷ []) [] (0x500 ∷ [])
      (omega arith) refl refl refl
      (wakeupevq_enq-Holds 0x500 two (0x100 ∷ 0x200 ∷ []) [] [] (omega arith) refl refl refl
        two-Holds)

update_wakeupq_live_example :
    Returns (TickLive four (0x100 ∷ 0x200 ∷ []) [] 0x300 (0x400 ∷ [])) (update_wakeupq 2 four)
unfolding wakeupq_enq runq_enq
update_wakeupq_live_example =
    update_wakeupq_live four (0x100 ∷ 0x200 ∷ []) [] 0x300 (0x400 ∷ []) 2 four-Holds (omega arith)
      (omega arith)

update_wakeupq_due_example :
    Returns (TickDue due (0x100 ∷ 0x200 ∷ []) [] 0x400 (0x300 ∷ [])) (update_wakeupq 2 due)
unfolding wakeupq_enq runq_enq
update_wakeupq_due_example =
    update_wakeupq_due due (0x100 ∷ 0x200 ∷ []) [] 0x400 (0x300 ∷ []) 2 due-Holds (omega arith)
      (omega arith)

update_wakeupevq_live_example :
    Returns
      (NotifyLive 1 events (0x100 ∷ 0x200 ∷ []) [] 0x500 (0x600 ∷ []))
      (update_wakeupevq 2 1 events)
unfolding wakeupevq_enq runq_enq
update_wakeupevq_live_example =
    update_wakeupevq_live 1 events (0x100 ∷ 0x200 ∷ []) [] 0x500 (0x600 ∷ []) 2 events-Holds
      (omega arith) (omega arith)

update_wakeupevq_due_example :
    Returns
      (NotifyDue 2 events (0x100 ∷ 0x200 ∷ []) [] 0x500 (0x600 ∷ []))
      (update_wakeupevq 2 2 events)
unfolding wakeupevq_enq runq_enq
update_wakeupevq_due_example =
    update_wakeupevq_due 2 events (0x100 ∷ 0x200 ∷ []) [] 0x500 (0x600 ∷ []) 2 events-Holds refl
      (omega arith)

-- Both waiting tasks have 100 ms to wait.
abbrev patient : State
patient = record four { msec = λ a. 100 }

patient-Holds : Holds patient (0x100 ∷ 0x200 ∷ []) (0x300 ∷ 0x400 ∷ []) []
unfolding wakeupq_enq runq_enq
patient-Holds = record {
  runq = four-Holds.runq;
  wakeupq = four-Holds.wakeupq;
  evq = four-Holds.evq;
  rq_wq = four-Holds.rq_wq;
  rq_eq = four-Holds.rq_eq;
  wq_eq = four-Holds.wq_eq;
}

abbrev machine : Machine
machine = record {
  sched = patient;
  counter = 0;
  keys = record { buf = []; start = 0; end = 0; is_full = false; error = false };
}

round_robin_example :
    Returns
      (Passed (0x100 ∷ 0x200 ∷ []) (0x300 ∷ 0x400 ∷ []) [] 2 0x100 (0x200 ∷ 0x100 ∷ []) machine)
      (timer_interrupts 2 2 machine)
unfolding wakeupq_enq runq_enq
round_robin_example =
    round_robin 0x100 0x200 [] (0x300 ∷ 0x400 ∷ []) [] 2 machine patient-Holds refl (λ a. refl)
      (λ a i. omega arith) (omega arith)

wakeup_after_msec_lem_example :
    SleptTime 50 four (0x100 ∷ 0x200 ∷ []) (0x300 ∷ 0x400 ∷ []) [] (wakeup_after_msec 0x50 50 four)
unfolding wakeupq_enq runq_enq
wakeup_after_msec_lem_example =
    wakeup_after_msec_lem 0x50 50 four (0x100 ∷ 0x200 ∷ []) (0x300 ∷ 0x400 ∷ []) [] four-Holds refl
      (omega arith) (refl, refl, refl)

wakeup_after_event_lem_example :
    SleptEvent 1 four (0x100 ∷ 0x200 ∷ []) (0x300 ∷ 0x400 ∷ []) [] (wakeup_after_event 0x50 1 four)
unfolding wakeupq_enq runq_enq
wakeup_after_event_lem_example =
    wakeup_after_event_lem 0x50 1 four (0x100 ∷ 0x200 ∷ []) (0x300 ∷ 0x400 ∷ []) [] four-Holds refl
      (omega arith) (refl, refl, refl)
