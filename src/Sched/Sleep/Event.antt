-- ===== src/Sched/Sleep/Event.antt =====
-- `wakeup_after_event` of kernel/sched.c: the current task waits for an event.
use mathlib.Core.Path.{ap₂}
use magical_os.Base.{
  ℕ, ◌≡◌, refl, ◌∙◌, ◌≢◌, Bool, true, false, List, [], ◌∷◌, ◌++◌, arith, ◌==◌, if◌then◌else◌, mem,
  erase, update, Bool-cases, inl, inr, ap, mem-erase_ne, ne_of_mem,
}
use magical_os.Lock.{kern_lock, kern_unlock}
use magical_os.Links.Ring.{first}
use magical_os.Sched.{
  State, Status, switch, switch_kernel, eoi, runq_del, wakeupevq_enq, save_next, switch_away,
  wakeup_after_event,
}
use magical_os.Sched.Queues.{IsQueue-Distinct, enq-SameOutside, del-SameOutside}
use magical_os.Sched.Holds.{Holds, IsQueue-head, unlock_lock}
use magical_os.Sched.Ops.{runq_del-Holds}
use magical_os.Sched.Move.{Frame-runq_del, sleep_event}
use magical_os.Sched.Schedule.{following, next-following, following-mem, Holds-of}
use magical_os.Sched.Wakeup.{Holds-flag}
use magical_os.Sched.Sleep.{
  Outside, save_next-Holds, erase_alone, Frame-save_next, next-save_next, switch_away-alone,
  switch_away-next, switch_away-Holds, switch_away-fields,
}

-- The current task moved to the queue for an event: no link of an object outside the queues changes.
wakeup_after_event_next :
    (d c : ℕ) (s : State) (rq wq eq : List ℕ)
    → mem c rq ≡ true
    → Outside d rq wq eq
    → Holds s rq wq eq
    → (wakeupevq_enq c (runq_del c s).1).links.next d ≡ s.links.next d
unfolding wakeupevq_enq
wakeup_after_event_next d c s rq wq eq i o v =
    let r = runq_del-Holds c s rq wq eq i v in
    let far : (c == d) ≡ false = ground (arith, ne_of_mem c d rq i o.0) in
    let out : mem c eq ≡ false = v.rq_eq c i in
    let s3 : State = (runq_del c s).1 in
    let one = (enq-SameOutside c s3.evq s3.links eq out r.1.evq d (rw far o.2)).0 in
    let two = ap (λ (p : Status × State). p.1.links.next d) r.0 in
    one ∙ two ∙ (del-SameOutside c s.runq s.links rq i v.runq d o.0).0

-- The state before the task leaves the run queue, and the call by it.
wakeup_after_event_start : ℕ → ℕ → State → State
wakeup_after_event_start dummy ty s =
    let s1 = save_next dummy (record s { flag = (kern_lock s.flag).1 }) in
    record s1 { event = update s.event s.current ty }

wakeup_after_event-start :
    (dummy ty : ℕ) (s : State)
    → wakeup_after_event dummy ty s
      ≡ switch_away
          (kern_lock s.flag).0
          dummy
          (wakeupevq_enq s.current (runq_del s.current (wakeup_after_event_start dummy ty s)).1)
unfolding wakeup_after_event wakeup_after_event_start
wakeup_after_event-start dummy ty s =
    let s0 : State = record s { flag = (kern_lock s.flag).1 } in
    let s1 : State = save_next dummy s0 in
    let f = Frame-save_next dummy s0 in
    let s2 : State = record s1 { event = update s1.event s1.current ty } in
    let g = Frame-runq_del s1.current s2 in
    let b : Bool = (kern_lock s.flag).0 in
    let call = λ (x : ℕ) (m : ℕ → ℕ).
      switch_away b dummy (wakeupevq_enq x (runq_del x (record s1 { event = update m x ty })).1) in
    ap (λ x. switch_away b dummy (wakeupevq_enq x (runq_del s1.current s2).1)) g.current
    ∙ ap₂ call f.current f.event

-- The state that the call leaves.
pub record SleptEvent (ty : ℕ) (s : State) (rq wq eq : List ℕ) (s' : State) : Type 0 where
  pub holds : Holds s' (erase s.current rq) wq (eq ++ (s.current ∷ []))
  pub event : s'.event ≡ update s.event s.current ty
  pub msec : s'.msec ≡ s.msec
  pub flag : s'.flag ≡ s.flag
  pub current :
      s'.current ≡ (if following s.current rq == s.current then 0 else following s.current rq)
  pub trace : s'.trace ≡ (
      if following s.current rq == s.current
      then switch_kernel ∷ eoi ∷ s.trace
      else switch (following s.current rq) ∷ eoi ∷ s.trace)

-- The current task leaves the run queue and waits as the last of the queue for an event, with the event
-- set; the task behind it runs next, or the kernel's own when the run queue is empty, whatever the
-- links of the dummy task were; the interrupt flag is as before the call.
pub wakeup_after_event_lem :
    (dummy ty : ℕ) (s : State) (rq wq eq : List ℕ)
    → Holds s rq wq eq
    → mem s.current rq ≡ true
    → dummy ≢ 0
    → Outside dummy rq wq eq
    → SleptEvent ty s rq wq eq (wakeup_after_event dummy ty s)
unfolding wakeup_after_event_start
wakeup_after_event_lem dummy ty s rq wq eq v i nz o =
    let c = s.current in
    let s2 : State = wakeup_after_event_start dummy ty s in
    let s0 : State = record s { flag = (kern_lock s.flag).1 } in
    let f = Frame-save_next dummy s0 in
    let v2 =
      Holds-of (save_next dummy s0) s2 rq wq eq refl refl refl refl
        (save_next-Holds dummy s0 rq wq eq o (Holds-flag s _ rq wq eq v)) in
    let m = sleep_event c s2 rq wq eq i v2 in
    let s4 : State = wakeupevq_enq c (runq_del c s2).1 in
    let out = switch_away-fields (kern_lock s.flag).0 dummy s4 in
    let nx = next-following s.links s.runq c rq v.runq i in
    let b : Bool = (kern_lock s.flag).0 in
    let tr = m.1.trace ∙ f.trace in
    let went : ((switch_away b dummy s4).current
          ≡ (if following c rq == c then 0 else following c rq))
        × ((switch_away b dummy s4).trace ≡ (
            if following c rq == c
            then switch_kernel ∷ eoi ∷ s.trace
            else switch (following c rq) ∷ eoi ∷ s.trace)) =
      elim (Bool-cases (following c rq == c)) [
        | inl e ↦
            let dis = IsQueue-Distinct s.links s.runq rq v.runq in
            let none' = erase_alone c rq dis i (ground arith) in
            let a = switch_away-alone b dummy s4 nz (m.0.runq.head ∙ ap (λ l. first l 0) none') in
            (rw e a.0, rw e (a.1 ∙ ap (λ t. switch_kernel ∷ eoi ∷ t) tr))
        | inr e ↦
            let j = following-mem c rq i in
            let left = mem-erase_ne (following c rq) c rq (ground arith) ∙ j in
            let h = IsQueue-head (following c rq) s4.links s4.runq (erase c rq) left m.0.runq in
            let l =
              wakeup_after_event_next dummy c s2 rq wq eq i o v2
              ∙ next-save_next dummy s0 (ground arith)
              ∙ nx in
            let a =
              switch_away-next b dummy (following c rq) s4 nz (ground arith) l
                (ne_of_mem (following c rq) dummy rq j o.0) in
            (rw e a.0, rw e (a.1 ∙ ap (λ t. switch (following c rq) ∷ eoi ∷ t) tr))
      ] in
    rw wakeup_after_event-start (record {
      holds = switch_away-Holds _ dummy s4 _ _ _ m.0;
      event = out.1 ∙ m.1.event;
      msec = out.0 ∙ m.1.msec ∙ f.msec;
      flag = out.2 ∙ ap (kern_unlock b) (m.1.flag ∙ f.flag) ∙ unlock_lock s.flag;
      current = went.0;
      trace = went.1;
    })
