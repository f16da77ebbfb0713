-- ===== src/Sched.antt =====
-- kernel/sched.c: the run queue and the two wait queues of tasks, and the scheduler. A task is its
-- address; each field of `struct task` that the file uses is a memory. The queue code is written
-- out three times in the source, for each queue variable; here the three share it.
pub mod Queues
pub mod Holds
pub mod Ops
pub mod Move
pub mod Scan
pub mod Tick
pub mod Notify
pub mod Wakeup
pub mod Schedule
pub mod RoundRobin
pub mod Sleep
use magical_os.Base.{
  ℕ, zero, suc, ◌+◌, ◌-◌, ◌%◌, ◌^◌, Bool, true, false, not, ◌&&◌, ◌||◌, Option, none, some, List,
  [], ◌∷◌, ltb, ◌==◌, if◌then◌else◌, update,
}
use magical_os.Lock.{kern_lock, kern_unlock}
use magical_os.Links.{Links, link_before, link_self, unlink}

-- `head` is NULL (0) in an empty queue, and `len` an unsigned int.
pub record TaskQueue : Type 0 where
  pub head : ℕ
  pub len : ℕ

-- What the processor does at the kernel's command.
pub data Action : Type 0 where
  outb : ℕ → ℕ → Action
  switch : ℕ → Action
  switch_kernel : Action

pub data Status : Type 0 where
  ok failed : Status

-- `trace` has the newest action first. `in_slice` is `task_switched_in_time_slice`.
pub record State : Type 0 where
  pub links : Links
  pub in_slice : ℕ → ℕ
  pub msec : ℕ → ℕ
  pub event : ℕ → ℕ
  pub runq : TaskQueue
  pub wakeupq : TaskQueue
  pub evq : TaskQueue
  pub current : ℕ
  pub flag : Bool
  pub trace : List Action

-- The queue and the links after `t` is added before the head, which is the end.
unfoldable pub enq_queue : ℕ → TaskQueue → TaskQueue
enq_queue t q = record { head = if q.head == 0 then t else q.head; len = (q.len + 1) % 2 ^ 32 }

unfoldable pub enq_links : ℕ → TaskQueue → Links → Links
enq_links t q m = if q.head == 0 then link_self t m else link_before t q.head m

-- The queue and the links after `t` is taken out of a queue that is not empty. A queue of one task
-- is emptied whatever `t` is.
unfoldable pub del_queue : ℕ → TaskQueue → Links → TaskQueue
del_queue t q m = record {
  head = if m.next q.head == q.head then 0 else if q.head == t then m.next q.head else q.head;
  len = (q.len + 2 ^ 32 - 1) % 2 ^ 32;
}

unfoldable pub del_links : ℕ → TaskQueue → Links → Links
del_links t q m = if m.next q.head == q.head then m else unlink t m

unfoldable pub runq_enq : ℕ → State → State
runq_enq t s =
    let (if_bit, f) = kern_lock s.flag in
    record s {
      links = enq_links t s.runq s.links;
      runq = enq_queue t s.runq;
      flag = kern_unlock if_bit f;
    }

unfoldable pub runq_del : ℕ → State → Status × State
runq_del t s =
    let (if_bit, f) = kern_lock s.flag in
    if s.runq.head == 0 then (failed, s) else (
      ok,
      record s {
        links = del_links t s.runq s.links;
        runq = del_queue t s.runq s.links;
        flag = kern_unlock if_bit f;
      },
    )

unfoldable pub wakeupq_enq : ℕ → State → State
wakeupq_enq t s =
    let (if_bit, f) = kern_lock s.flag in
    record s {
      links = enq_links t s.wakeupq s.links;
      wakeupq = enq_queue t s.wakeupq;
      flag = kern_unlock if_bit f;
    }

unfoldable pub wakeupq_del : ℕ → State → Status × State
wakeupq_del t s =
    let (if_bit, f) = kern_lock s.flag in
    if s.wakeupq.head == 0 then (failed, s) else (
      ok,
      record s {
        links = del_links t s.wakeupq s.links;
        wakeupq = del_queue t s.wakeupq s.links;
        flag = kern_unlock if_bit f;
      },
    )

unfoldable pub wakeupevq_enq : ℕ → State → State
wakeupevq_enq t s =
    let (if_bit, f) = kern_lock s.flag in
    record s {
      links = enq_links t s.evq s.links;
      evq = enq_queue t s.evq;
      flag = kern_unlock if_bit f;
    }

unfoldable pub wakeupevq_del : ℕ → State → Status × State
wakeupevq_del t s =
    let (if_bit, f) = kern_lock s.flag in
    if s.evq.head == 0 then (failed, s) else (
      ok,
      record s {
        links = del_links t s.evq s.links;
        evq = del_queue t s.evq s.links;
        flag = kern_unlock if_bit f;
      },
    )

-- TIMER_TICK_MS of kernel/include/timer.h
abbrev pub timer_tick_ms : ℕ
timer_tick_ms = 10

-- The loops over a wait queue, `do { next = t->next; body; t = next; } while (head && t != head)`.
-- `none` means that the fuel ran out.
unfoldable pub scan : (ℕ → State → State) → (State → ℕ) → ℕ → ℕ → State → Option State
scan body head zero t s = none
scan body head (suc fuel) t s =
    let n = s.links.next t in
    let s' = body t s in
    let rest = scan body head fuel n s' in
    if not (head s' == 0) && not (n == head s') then rest else some s'

-- The bodies of the two loops.
unfoldable pub tick_task : ℕ → State → State
tick_task t s =
    if ltb timer_tick_ms (s.msec t)
    then record s { msec = update s.msec t (s.msec t - timer_tick_ms) }
    else runq_enq t (wakeupq_del t (record s { msec = update s.msec t 0 })).1

unfoldable pub notify_task : ℕ → ℕ → State → State
notify_task event_type t s =
    if s.event t == event_type
    then runq_enq t (wakeupevq_del t (record s { event = update s.event t 0 })).1
    else s

-- The state after the unlock that ends a function.
unfoldable pub unlocked : Bool → State → State
unlocked if_bit s = record s { flag = kern_unlock if_bit s.flag }

-- The end of the two functions that scan a queue.
unfoldable pub finish : Bool → Option State → Option (Status × State)
unfolding unlocked
finish if_bit none = none
finish if_bit (some s) = some (ok, unlocked if_bit s)

unfoldable pub update_wakeupq : ℕ → State → Option (Status × State)
update_wakeupq fuel s =
    let (if_bit, f) = kern_lock s.flag in
    let r = scan tick_task (λ s. s.wakeupq.head) fuel s.wakeupq.head (record s { flag = f }) in
    if s.wakeupq.head == 0 then some (failed, s) else finish if_bit r

unfoldable pub update_wakeupevq : ℕ → ℕ → State → Option (Status × State)
update_wakeupevq fuel event_type s =
    let (if_bit, f) = kern_lock s.flag in
    let r =
      scan (notify_task event_type) (λ s. s.evq.head) fuel s.evq.head (record s { flag = f }) in
    if s.evq.head == 0 then some (failed, s) else finish if_bit r

pub data Cause : Type 0 where
  timer syscall : Cause

abbrev pub is_timer : Cause → Bool
is_timer timer = true
is_timer syscall = false

-- `outb_p(IOADR_MPIC_OCW2_BIT_MANUAL_EOI | INTR_IR_TIMER, IOADR_MPIC_OCW2)`
abbrev pub eoi : Action
eoi = outb 0x60 0x20

unfoldable pub act : Action → State → State
act a s = record s { trace = a ∷ s.trace }

-- `current_task = t`, and the flag that a system call leaves, the EOI and the switch to it.
unfoldable pub dispatch : Cause → ℕ → State → State
unfolding act
dispatch cause t s =
    let s1 = record s {
      current = t;
      in_slice = if is_timer cause then s.in_slice else update s.in_slice t 1;
    } in
    act (switch t) (act eoi s1)

unfoldable pub schedule : Cause → State → State
unfolding act dispatch
schedule cause s =
    if is_timer cause && not (s.current == 0) && not (s.in_slice s.current == 0)
    then act eoi (record s { in_slice = update s.in_slice s.current 0 })
    else let s1 =
        if s.current == 0 then s else record s { in_slice = update s.in_slice s.current 0 } in
      if s1.runq.head == 0
      then if s1.current == 0
        then act eoi s1
        else act switch_kernel (act eoi (record s1 { current = 0 }))
      else if s1.current == 0
      then dispatch cause s1.runq.head s1
      else if s1.current == s1.links.next s1.current
      then act eoi s1
      else dispatch cause (s1.links.next s1.current) s1

-- `if (current_task->next != current_task) dummy_task.next = current_task->next`
unfoldable pub save_next : ℕ → State → State
save_next dummy s = if s.links.next s.current == s.current then s else record s {
  links = record { next = update s.links.next dummy (s.links.next s.current); prev = s.links.prev };
}

-- The end of the two functions: the dummy task is current, another task is switched to, and the lock
-- is released. What other tasks do between the switch away and the switch back is not part of the call.
unfoldable pub switch_away : Bool → ℕ → State → State
unfolding unlocked
switch_away if_bit dummy s = unlocked if_bit (schedule syscall (record s { current = dummy }))

-- `dummy` is the address of `dummy_task`.
unfoldable pub wakeup_after_msec : ℕ → ℕ → State → State
wakeup_after_msec dummy msec s =
    let (if_bit, f) = kern_lock s.flag in
    let s1 = save_next dummy (record s { flag = f }) in
    let s2 = record s1 { msec = update s1.msec s1.current msec } in
    let s3 = (runq_del s2.current s2).1 in switch_away if_bit dummy (wakeupq_enq s3.current s3)

unfoldable pub wakeup_after_event : ℕ → ℕ → State → State
wakeup_after_event dummy event_type s =
    let (if_bit, f) = kern_lock s.flag in
    let s1 = save_next dummy (record s { flag = f }) in
    let s2 = record s1 { event = update s1.event s1.current event_type } in
    let s3 = (runq_del s2.current s2).1 in switch_away if_bit dummy (wakeupevq_enq s3.current s3)
