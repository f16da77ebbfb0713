-- ===== src/Sched/Sleep.antt =====
-- How the current task of kernel/sched.c gives the processor up: the common part of
-- `wakeup_after_msec` and `wakeup_after_event`.
pub mod Time
pub mod Event
use mathlib.Core.Path.{ap₂}
use magical_os.Base.{
  ℕ, ◌≡◌, refl, ◌∙◌, ◌≢◌, Bool, true, false, List, [], ◌∷◌, ◌++◌, arith, ◌==◌, if◌then◌else◌, mem,
  erase, update, Bool-cases, inl, inr, ap, sym, Distinct, mem-erase_ne,
}
use magical_os.Lock.{kern_lock, kern_unlock}
use magical_os.Links.{Links}
use magical_os.Links.Ring.{first, SameOutside}
use magical_os.Sched.{
  State, Status, syscall, switch, switch_kernel, eoi, runq_del, wakeupq_enq, wakeupevq_enq,
  schedule, save_next, unlocked, switch_away, wakeup_after_msec, wakeup_after_event,
}
use magical_os.Sched.Queues.{
  IsQueue-frame, Apart, IsQueue-Distinct, enq-SameOutside, del-SameOutside,
}
use magical_os.Sched.Holds.{Holds, IsQueue-head, unlock_lock}
use magical_os.Sched.Ops.{runq_del-Holds, wakeupq_enq-Holds, wakeupevq_enq-Holds}
use magical_os.Sched.Move.{Frame, Frame-runq_del, sleep_time, sleep_event, mem-ne_null}
use magical_os.Sched.Schedule.{
  successor, following, next-following, following-mem, Holds-of, Holds-schedule, schedule_last,
  schedule_syscall, msec-schedule, event-schedule, flag-schedule,
}
use magical_os.Sched.Wakeup.{Holds-flag}

-- `dummy_task` is no task of a queue.
abbrev pub Outside : ℕ → List ℕ → List ℕ → List ℕ → Type 0
Outside d rq wq eq = (mem d rq ≡ false) × (mem d wq ≡ false) × (mem d eq ≡ false)

-- Writing the links of an object outside the queues leaves them as they are.
pub save_next-Holds :
    (dummy : ℕ) (s : State) (rq wq eq : List ℕ)
    → Outside dummy rq wq eq
    → Holds s rq wq eq
    → Holds (save_next dummy s) rq wq eq
unfolding save_next
save_next-Holds dummy s rq wq eq o v = elim (Bool-cases (s.links.next s.current == s.current)) [
  | inl e ↦ rw e v
  | inr e ↦
      let same : SameOutside (dummy ∷ []) s.links (save_next dummy s).links = ground arith in
      rw e (record {
        runq =
            IsQueue-frame s.links _ s.runq rq (dummy ∷ []) (rw e at same) (λ a i. ground arith)
              v.runq;
        wakeupq =
            IsQueue-frame s.links _ s.wakeupq wq (dummy ∷ []) (rw e at same) (λ a i. ground arith)
              v.wakeupq;
        evq =
            IsQueue-frame s.links _ s.evq eq (dummy ∷ []) (rw e at same) (λ a i. ground arith)
              v.evq;
        rq_wq = v.rq_wq;
        rq_eq = v.rq_eq;
        wq_eq = v.wq_eq;
      })
]

successor-fixed :
    (c d : ℕ) (xs : List ℕ) → Distinct xs → mem c xs ≡ true → successor c xs d ≡ c → d ≡ c
successor-fixed c d [] dis i e = e
successor-fixed c d (x ∷ []) dis i e = ground arith
successor-fixed c d (x ∷ y ∷ xs) dis i e = ground (arith, successor-fixed c d (y ∷ xs) dis.1)

-- Only in a queue of one task does the task follow itself.
pub erase_alone :
    (c : ℕ) (xs : List ℕ) → Distinct xs → mem c xs ≡ true → following c xs ≡ c → erase c xs ≡ []
erase_alone c [] dis i e = refl
erase_alone c (h ∷ []) dis i e = ground arith
erase_alone c (h ∷ y ∷ xs) dis i e = ground (arith, successor-fixed c h (h ∷ y ∷ xs) dis i e)

module _ (dummy : ℕ) (s : State) where
  current-save_next : (save_next dummy s).current ≡ s.current
  unfolding save_next
  current-save_next = ground arith

  pub Frame-save_next : Frame s (save_next dummy s)
  unfolding save_next
  Frame-save_next = ground arith

  pub next-save_next :
      s.links.next s.current ≢ s.current
      → (save_next dummy s).links.next dummy ≡ s.links.next s.current
  unfolding save_next
  next-save_next far = ground arith

-- The switch away from a task that was the only one to run.
pub switch_away-alone :
    (f : Bool) (dummy : ℕ) (s : State)
    → dummy ≢ 0
    → s.runq.head ≡ 0
    → ((switch_away f dummy s).current ≡ 0)
      × ((switch_away f dummy s).trace ≡ switch_kernel ∷ eoi ∷ s.trace)
unfolding switch_away
switch_away-alone f dummy s nz e = schedule_last (record s { current = dummy }) nz e

-- The switch away from a task behind which another one stands.
pub switch_away-next :
    (f : Bool) (dummy n : ℕ) (s : State)
    → dummy ≢ 0
    → s.runq.head ≢ 0
    → s.links.next dummy ≡ n
    → n ≢ dummy
    → ((switch_away f dummy s).current ≡ n)
      × ((switch_away f dummy s).trace ≡ switch n ∷ eoi ∷ s.trace)
unfolding switch_away
switch_away-next f dummy n s nz e l far =
    let r = schedule_syscall (record s { current = dummy }) nz e (λ p. far (sym l ∙ p)) in
    (r.0 ∙ l, r.1 ∙ ap (λ x. switch x ∷ eoi ∷ s.trace) l)

pub switch_away-Holds :
    (f : Bool) (dummy : ℕ) (s : State) (rq wq eq : List ℕ)
    → Holds s rq wq eq
    → Holds (switch_away f dummy s) rq wq eq
unfolding switch_away
switch_away-Holds f dummy s rq wq eq v =
    let s1 : State = record s { current = dummy } in
    Holds-flag _ _ rq wq eq
      (Holds-schedule syscall s1 rq wq eq (Holds-of s s1 rq wq eq refl refl refl refl v))

pub switch_away-fields :
    (f : Bool) (dummy : ℕ) (s : State)
    → ((switch_away f dummy s).msec ≡ s.msec)
      × ((switch_away f dummy s).event ≡ s.event)
      × ((switch_away f dummy s).flag ≡ kern_unlock f s.flag)
unfolding switch_away
switch_away-fields f dummy s =
    let s1 : State = record s { current = dummy } in
    (
      msec-schedule syscall s1,
      event-schedule syscall s1,
      ap (kern_unlock f) (flag-schedule syscall s1),
    )
