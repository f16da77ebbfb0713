-- ===== src/Sched/Tick.antt =====
-- One tick of kernel/sched.c: the bodies and the scan of `sched_update_wakeupq`.
use mathlib.Core.List.{append-nil, append_assoc}
use magical_os.Base.{
  ℕ, ◌-◌, ◌<◌, ◌≡◌, refl, ◌∙◌, ◌≢◌, Bool, true, false, not, List, [], ◌∷◌, ◌++◌, arith, ltb,
  if◌then◌else◌, update, mem, erase, filter, length, Distinct, Returns, mem-erase_ne,
}
use magical_os.Links.Ring.{Chain-next, Chain-next_at}
use magical_os.Sched.{State, timer_tick_ms, tick_task, scan}
use magical_os.Sched.Queues.{IsQueue-Distinct}
use magical_os.Sched.Holds.{Holds}
use magical_os.Sched.Move.{wake_time}
use magical_os.Sched.Scan.{Body, scan_lem}

-- What the scan leaves of the fields that it does not write.
pub record Same (s s' : State) : Type 0 where
  pub in_slice : s'.in_slice ≡ s.in_slice
  pub event : s'.event ≡ s.event
  pub current : s'.current ≡ s.current
  pub trace : s'.trace ≡ s.trace
  pub flag : s'.flag ≡ s.flag

Holds-msec :
    (s : State) (f : ℕ → ℕ) (rq wq eq : List ℕ)
    → Holds s rq wq eq
    → Holds (record s { msec = f }) rq wq eq
Holds-msec s f rq wq eq v = record {
  runq = v.runq;
  wakeupq = v.wakeupq;
  evq = v.evq;
  rq_wq = v.rq_wq;
  rq_eq = v.rq_eq;
  wq_eq = v.wq_eq;
}

module _ (s0 : State) (rq wq eq : List ℕ) where
  -- The tasks `p` of the queue are not yet visited, the queue holds `ws`, and `ms` were woken.
  pub record Ticking (p ws ms : List ℕ) (s : State) : Type 0 where
    pub todo : Distinct p
    pub waiting : (a : ℕ) → mem a p ≡ true → (mem a ws ≡ true) × (mem a wq ≡ true)
    pub holds : Holds s (rq ++ ms) ws eq
    pub msec :
        (a : ℕ)
        → s.msec a ≡ (
            if mem a p
            then s0.msec a
            else if mem a wq
            then s0.msec a - timer_tick_ms
            else s0.msec a)
    pub same : Same s0 s

  abbrev pub expired : ℕ → Bool
  expired a = not (ltb timer_tick_ms (s0.msec a))

  Ticking-stay :
      (p ws ms : List ℕ) (t : ℕ) (s : State)
      → Ticking (t ∷ p) ws ms s
      → expired t ≡ false
      → Ticking p ws ms (tick_task t s)
  unfolding tick_task
  Ticking-stay p ws ms t s v still =
      let now : s.msec t ≡ s0.msec t = ground (arith, v.msec t) in
      let e : (ltb timer_tick_ms (s.msec t)) ≡ true = ground arith in
      rw e (record {
        todo = v.todo.1;
        waiting = λ a i. v.waiting a (ground arith);
        holds = Holds-msec s _ (rq ++ ms) ws eq v.holds;
        msec = λ a. ground (arith, v.msec a, v.waiting t);
        same = record {
          in_slice = v.same.in_slice;
          event = v.same.event;
          current = v.same.current;
          trace = v.same.trace;
          flag = v.same.flag;
        };
      })

  Ticking-leave :
      (p ws ms : List ℕ) (t : ℕ) (s : State)
      → Ticking (t ∷ p) ws ms s
      → mem t ws ≡ true
      → expired t ≡ true
      → Ticking p (erase t ws) (ms ++ (t ∷ [])) (tick_task t s)
  unfolding tick_task
  Ticking-leave p ws ms t s v i out =
      let now : s.msec t ≡ s0.msec t = ground (arith, v.msec t) in
      let e : (ltb timer_tick_ms (s.msec t)) ≡ false = ground arith in
      let s1 : State = record s { msec = update s.msec t 0 } in
      let m =
        wake_time t s1 (rq ++ ms) ws eq i
          (Holds-msec s (update s.msec t 0) (rq ++ ms) ws eq v.holds) in
      rw e (record {
        todo = v.todo.1;
        waiting = λ a j.
            let ne : a ≢ t = ground arith in
            let w = v.waiting a (ground arith) in (mem-erase_ne a t ws ne ∙ w.0, w.1);
        holds = rw (append_assoc rq ms (t ∷ [])) at m.0;
        msec = λ a. rw m.1.msec (ground (arith, v.msec a, v.waiting t));
        same = record {
          in_slice = m.1.in_slice ∙ v.same.in_slice;
          event = m.1.event ∙ v.same.event;
          current = m.1.current ∙ v.same.current;
          trace = m.1.trace ∙ v.same.trace;
          flag = m.1.flag ∙ v.same.flag;
        };
      })

  Ticking-Body : Body tick_task (λ s. s.wakeupq.head) expired Ticking
  Ticking-Body = record {
    distinct = λ p ws ms s v. IsQueue-Distinct s.links s.wakeupq ws v.holds.wakeupq;
    head_of = λ p ws ms s v. v.holds.wakeupq.head;
    not_null = λ p ws ms s v. v.holds.wakeupq.null;
    next_of = λ p ms ws rest h t s v. Chain-next_at s.links h h t ws rest v.holds.wakeupq.ring.0;
    next_of_head = λ p ms rest h s v. Chain-next s.links h h rest v.holds.wakeupq.ring.0;
    stay = Ticking-stay;
    leave = Ticking-leave;
  }

-- The whole scan of a queue that holds `h` and then `rest`.
pub scan-Ticking :
    (s : State) (rq wq eq : List ℕ) (h : ℕ) (rest : List ℕ) (fuel : ℕ)
    → wq ≡ h ∷ rest
    → Holds s rq wq eq
    → length rest < fuel
    → Returns
        (λ s'.
          if expired s rq wq eq h
          then Ticking s rq wq eq rest rest (h ∷ []) s'
          else Ticking s rq wq eq []
              (h ∷ filter (λ t. not (expired s rq wq eq t)) rest)
              (filter (expired s rq wq eq) rest)
              s')
        (scan tick_task (λ s. s.wakeupq.head) fuel h s)
scan-Ticking s rq wq eq h rest fuel e v lt =
    scan_lem (Ticking-Body s rq wq eq) h rest s fuel
      (record {
        todo = rw e at (IsQueue-Distinct s.links s.wakeupq wq v.wakeupq);
        waiting = λ a i. (i, rw e i);
        holds = rw append-nil (rw (← e) v);
        msec = λ a. rw e (ground arith);
        same = record { in_slice = refl; event = refl; current = refl; trace = refl; flag = refl };
      })
      lt
