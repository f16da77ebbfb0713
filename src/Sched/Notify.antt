-- ===== src/Sched/Notify.antt =====
-- One event of kernel/sched.c: the bodies and the scan of `sched_update_wakeupevq`.
use mathlib.Core.List.{append-nil, append_assoc}
use magical_os.Base.{
  ℕ, ◌<◌, ◌≡◌, refl, ◌∙◌, ◌≢◌, Bool, true, false, not, List, [], ◌∷◌, ◌++◌, arith, ◌==◌,
  if◌then◌else◌, update, mem, erase, filter, length, Distinct, Returns, mem-erase_ne,
}
use magical_os.Links.Ring.{Chain-next, Chain-next_at}
use magical_os.Sched.{State, notify_task, scan}
use magical_os.Sched.Queues.{IsQueue-Distinct}
use magical_os.Sched.Holds.{Holds}
use magical_os.Sched.Move.{wake_event}
use magical_os.Sched.Scan.{Body, scan_lem}

-- What the scan leaves of the fields that it does not write.
pub record Same (s s' : State) : Type 0 where
  pub in_slice : s'.in_slice ≡ s.in_slice
  pub msec : s'.msec ≡ s.msec
  pub current : s'.current ≡ s.current
  pub trace : s'.trace ≡ s.trace
  pub flag : s'.flag ≡ s.flag

Holds-event :
    (s : State) (f : ℕ → ℕ) (rq wq eq : List ℕ)
    → Holds s rq wq eq
    → Holds (record s { event = f }) rq wq eq
Holds-event s f rq wq eq v = record {
  runq = v.runq;
  wakeupq = v.wakeupq;
  evq = v.evq;
  rq_wq = v.rq_wq;
  rq_eq = v.rq_eq;
  wq_eq = v.wq_eq;
}

module _ (ty : ℕ) (s0 : State) (rq wq eq : List ℕ) where
  -- The tasks `p` of the queue are not yet visited, the queue holds `ws`, and `ms` were woken.
  pub record Notifying (p ws ms : List ℕ) (s : State) : Type 0 where
    pub todo : Distinct p
    pub waiting : (a : ℕ) → mem a p ≡ true → (mem a ws ≡ true) × (mem a eq ≡ true)
    pub holds : Holds s (rq ++ ms) wq ws
    pub event :
        (a : ℕ)
        → s.event a ≡ (
            if mem a p
            then s0.event a
            else if mem a eq
            then (if s0.event a == ty then 0 else s0.event a)
            else s0.event a)
    pub same : Same s0 s

  abbrev pub expired : ℕ → Bool
  expired a = s0.event a == ty

  Notifying-stay :
      (p ws ms : List ℕ) (t : ℕ) (s : State)
      → Notifying (t ∷ p) ws ms s
      → expired t ≡ false
      → Notifying p ws ms (notify_task ty t s)
  unfolding notify_task
  Notifying-stay p ws ms t s v still =
      let now : s.event t ≡ s0.event t = ground (arith, v.event t) in
      let e : (s.event t == ty) ≡ false = ground arith in
      rw e (record {
        todo = v.todo.1;
        waiting = λ a i. v.waiting a (ground arith);
        holds = v.holds;
        event = λ a. ground (arith, v.event a, v.waiting t);
        same = record {
          in_slice = v.same.in_slice;
          msec = v.same.msec;
          current = v.same.current;
          trace = v.same.trace;
          flag = v.same.flag;
        };
      })

  Notifying-leave :
      (p ws ms : List ℕ) (t : ℕ) (s : State)
      → Notifying (t ∷ p) ws ms s
      → mem t ws ≡ true
      → expired t ≡ true
      → Notifying p (erase t ws) (ms ++ (t ∷ [])) (notify_task ty t s)
  unfolding notify_task
  Notifying-leave p ws ms t s v i out =
      let now : s.event t ≡ s0.event t = ground (arith, v.event t) in
      let e : (s.event t == ty) ≡ true = ground arith in
      let s1 : State = record s { event = update s.event t 0 } in
      let m =
        wake_event t s1 (rq ++ ms) wq ws i
          (Holds-event s (update s.event t 0) (rq ++ ms) wq ws v.holds) in
      rw e (record {
        todo = v.todo.1;
        waiting = λ a j.
            let ne : a ≢ t = ground arith in
            let w = v.waiting a (ground arith) in (mem-erase_ne a t ws ne ∙ w.0, w.1);
        holds = rw (append_assoc rq ms (t ∷ [])) at m.0;
        event = λ a. rw m.1.event (ground (arith, v.event a, v.waiting t));
        same = record {
          in_slice = m.1.in_slice ∙ v.same.in_slice;
          msec = m.1.msec ∙ v.same.msec;
          current = m.1.current ∙ v.same.current;
          trace = m.1.trace ∙ v.same.trace;
          flag = m.1.flag ∙ v.same.flag;
        };
      })

  Notifying-Body : Body (notify_task ty) (λ s. s.evq.head) expired Notifying
  Notifying-Body = record {
    distinct = λ p ws ms s v. IsQueue-Distinct s.links s.evq ws v.holds.evq;
    head_of = λ p ws ms s v. v.holds.evq.head;
    not_null = λ p ws ms s v. v.holds.evq.null;
    next_of = λ p ms ws rest h t s v. Chain-next_at s.links h h t ws rest v.holds.evq.ring.0;
    next_of_head = λ p ms rest h s v. Chain-next s.links h h rest v.holds.evq.ring.0;
    stay = Notifying-stay;
    leave = Notifying-leave;
  }

-- The whole scan of a queue that holds `h` and then `rest`.
pub scan-Notifying :
    (ty : ℕ) (s : State) (rq wq eq : List ℕ) (h : ℕ) (rest : List ℕ) (fuel : ℕ)
    → eq ≡ h ∷ rest
    → Holds s rq wq eq
    → length rest < fuel
    → Returns
        (λ s'.
          if expired ty s rq wq eq h
          then Notifying ty s rq wq eq rest rest (h ∷ []) s'
          else Notifying ty s rq wq eq []
              (h ∷ filter (λ t. not (expired ty s rq wq eq t)) rest)
              (filter (expired ty s rq wq eq) rest)
              s')
        (scan (notify_task ty) (λ s. s.evq.head) fuel h s)
scan-Notifying ty s rq wq eq h rest fuel e v lt =
    scan_lem (Notifying-Body ty s rq wq eq) h rest s fuel
      (record {
        todo = rw e at (IsQueue-Distinct s.links s.evq eq v.evq);
        waiting = λ a i. (i, rw e i);
        holds = rw append-nil (rw (← e) v);
        event = λ a. rw e (ground arith);
        same = record { in_slice = refl; msec = refl; current = refl; trace = refl; flag = refl };
      })
      lt
