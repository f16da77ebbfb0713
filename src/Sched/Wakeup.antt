-- ===== src/Sched/Wakeup.antt =====
-- `sched_update_wakeupq` and `sched_update_wakeupevq` of kernel/sched.c against lists of tasks.
use mathlib.Core.Path.{subst, sym}
use magical_os.Base.{
  ℕ, ◌-◌, ◌<◌, ◌≤◌, ◌≡◌, refl, ◌≢◌, Bool, true, false, not, Option, none, some, List, [], ◌∷◌, ◌++◌,
  arith, ltb, ◌==◌, if◌then◌else◌, mem, filter, length, Returns, filter_ext,
}
use magical_os.Lock.{kern_lock}
use magical_os.Sched.{
  State, Status, ok, failed, timer_tick_ms, finish, unlocked, update_wakeupq, update_wakeupevq,
  scan, tick_task, notify_task,
}
use magical_os.Sched.Holds.{Holds, IsQueue-head, unlock_lock}
use magical_os.Sched.Tick
use magical_os.Sched.Tick.{scan-Ticking}
use magical_os.Sched.Notify
use magical_os.Sched.Notify.{scan-Notifying}

pub Holds-flag :
    (s : State) (f : Bool) (rq wq eq : List ℕ)
    → Holds s rq wq eq
    → Holds (record s { flag = f }) rq wq eq
Holds-flag s f rq wq eq v = record {
  runq = v.runq;
  wakeupq = v.wakeupq;
  evq = v.evq;
  rq_wq = v.rq_wq;
  rq_eq = v.rq_eq;
  wq_eq = v.wq_eq;
}

finish_lem :
    {P : State → Type 0} (Q : Status × State → Type 0) (if_bit : Bool) (r : Option State)
    → Returns P r
    → ((s : State) → P s → Q (ok, unlocked if_bit s))
    → Returns Q (finish if_bit r)
unfolding finish
finish_lem Q if_bit none p next = p
finish_lem Q if_bit (some s) p next = next s p

-- The result of `update_wakeupq` with a head that is not due.
abbrev pub TickLive : State → List ℕ → List ℕ → ℕ → List ℕ → Status × State → Type 0
TickLive s rq eq h rest (r, s') =
    (r ≡ ok)
    × Holds s' (rq ++ filter (λ a. not (ltb timer_tick_ms (s.msec a))) rest)
        (h ∷ filter (λ a. ltb timer_tick_ms (s.msec a)) rest) eq
    × ((a : ℕ) → s'.msec a ≡ (if mem a (h ∷ rest) then s.msec a - timer_tick_ms else s.msec a))
    × Tick.Same s s'

-- With a head that is not due, one tick takes 10 ms off the time of every waiting task, moves the
-- tasks that are due to the end of the run queue in their order, and keeps the others in theirs; the
-- fuel of one round for each waiting task is enough, and it returns 0.
pub update_wakeupq_live :
    (s : State) (rq eq : List ℕ) (h : ℕ) (rest : List ℕ) (fuel : ℕ)
    → Holds s rq (h ∷ rest) eq
    → timer_tick_ms < s.msec h
    → length rest < fuel
    → Returns (TickLive s rq eq h rest) (update_wakeupq fuel s)
unfolding update_wakeupq finish unlocked
update_wakeupq_live s rq eq h rest fuel v late lt =
    let s1 : State = record s { flag = (kern_lock s.flag).1 } in
    let e : (s.wakeupq.head == 0) ≡ false =
      IsQueue-head h s.links s.wakeupq (h ∷ rest) (ground arith) v.wakeupq in
    let scanned =
      scan-Ticking s1 rq (h ∷ rest) eq h rest fuel refl (Holds-flag s _ rq (h ∷ rest) eq v) lt in
    let live : Tick.expired s1 rq (h ∷ rest) eq h ≡ false = ground arith in
    let P : State → Type 0 =
      Tick.Ticking s1 rq (h ∷ rest) eq []
        (h ∷ filter (λ t. not (Tick.expired s1 rq (h ∷ rest) eq t)) rest)
        (filter (Tick.expired s1 rq (h ∷ rest) eq) rest) in
    rw e (
      finish_lem (TickLive s rq eq h rest) _ _
        (subst (λ x. Returns P (scan tick_task (λ s. s.wakeupq.head) fuel x s1))
          (sym v.wakeupq.head) (rw live at scanned))
        (λ s' (p : P s'). (
          refl,
          Holds-flag s' _ _ _ _ (
              rw
                (filter_ext (λ t. not (Tick.expired s1 rq (h ∷ rest) eq t))
                  (λ a. ltb timer_tick_ms (s.msec a)) rest (λ a. ground arith))
                at p.holds),
          (λ a. p.msec a),
          record {
            in_slice = p.same.in_slice;
            event = p.same.event;
            current = p.same.current;
            trace = p.same.trace;
            flag = rw p.same.flag (unlock_lock s.flag);
          },
        )))

-- The result of `update_wakeupq` with a head that is due.
abbrev pub TickDue : State → List ℕ → List ℕ → ℕ → List ℕ → Status × State → Type 0
TickDue s rq eq h rest (r, s') =
    (r ≡ ok)
    × Holds s' (rq ++ (h ∷ [])) rest eq
    × ((a : ℕ) → s'.msec a ≡ (if h == a then 0 else s.msec a))
    × Tick.Same s s'

-- With a head that is due, one tick moves the head to the run queue and ends: no other waiting task
-- is woken, and none has its time reduced.
pub update_wakeupq_due :
    (s : State) (rq eq : List ℕ) (h : ℕ) (rest : List ℕ) (fuel : ℕ)
    → Holds s rq (h ∷ rest) eq
    → s.msec h ≤ timer_tick_ms
    → length rest < fuel
    → Returns (TickDue s rq eq h rest) (update_wakeupq fuel s)
unfolding update_wakeupq finish unlocked
update_wakeupq_due s rq eq h rest fuel v due lt =
    let s1 : State = record s { flag = (kern_lock s.flag).1 } in
    let e : (s.wakeupq.head == 0) ≡ false =
      IsQueue-head h s.links s.wakeupq (h ∷ rest) (ground arith) v.wakeupq in
    let scanned =
      scan-Ticking s1 rq (h ∷ rest) eq h rest fuel refl (Holds-flag s _ rq (h ∷ rest) eq v) lt in
    let gone : Tick.expired s1 rq (h ∷ rest) eq h ≡ true = ground arith in
    let P : State → Type 0 = Tick.Ticking s1 rq (h ∷ rest) eq rest rest (h ∷ []) in
    rw e (
      finish_lem (TickDue s rq eq h rest) _ _
        (subst (λ x. Returns P (scan tick_task (λ s. s.wakeupq.head) fuel x s1))
          (sym v.wakeupq.head) (rw gone at scanned))
        (λ s' (p : P s'). (
          refl,
          Holds-flag s' _ _ _ _ p.holds,
          (λ a. ground (arith, p.msec a, v.wakeupq.ring.1.0)),
          record {
            in_slice = p.same.in_slice;
            event = p.same.event;
            current = p.same.current;
            trace = p.same.trace;
            flag = rw p.same.flag (unlock_lock s.flag);
          },
        )))

-- With no task in the queue it returns -1 and changes nothing.
pub update_wakeupq_none :
    (s : State) (rq eq : List ℕ) (fuel : ℕ)
    → Holds s rq [] eq
    → update_wakeupq fuel s ≡ some (failed, s)
unfolding update_wakeupq
update_wakeupq_none s rq eq fuel v = rw v.wakeupq.head

-- The result of `update_wakeupevq` with a head that is not due.
abbrev pub NotifyLive : ℕ → State → List ℕ → List ℕ → ℕ → List ℕ → Status × State → Type 0
NotifyLive ty s rq wq h rest (r, s') =
    (r ≡ ok)
    × Holds s' (rq ++ filter (λ a. s.event a == ty) rest) wq
        (h ∷ filter (λ a. not (s.event a == ty)) rest)
    × ((a : ℕ)
        → s'.event a
          ≡ (if mem a (h ∷ rest) then (if s.event a == ty then 0 else s.event a) else s.event a))
    × Notify.Same s s'

-- With a head that waits for another event, every task that waits for this one is moved to the end
-- of the run queue in queue order with its event cleared, and the others keep their order; the fuel of
-- one round for each waiting task is enough, and it returns 0.
pub update_wakeupevq_live :
    (ty : ℕ) (s : State) (rq wq : List ℕ) (h : ℕ) (rest : List ℕ) (fuel : ℕ)
    → Holds s rq wq (h ∷ rest)
    → s.event h ≢ ty
    → length rest < fuel
    → Returns (NotifyLive ty s rq wq h rest) (update_wakeupevq fuel ty s)
unfolding update_wakeupevq finish unlocked
update_wakeupevq_live ty s rq wq h rest fuel v late lt =
    let s1 : State = record s { flag = (kern_lock s.flag).1 } in
    let e : (s.evq.head == 0) ≡ false =
      IsQueue-head h s.links s.evq (h ∷ rest) (ground arith) v.evq in
    let scanned =
      scan-Notifying ty s1 rq wq (h ∷ rest) h rest fuel refl (Holds-flag s _ rq wq (h ∷ rest) v)
        lt in
    let live : Notify.expired ty s1 rq wq (h ∷ rest) h ≡ false = ground arith in
    let P : State → Type 0 =
      Notify.Notifying ty s1 rq wq (h ∷ rest) []
        (h ∷ filter (λ t. not (Notify.expired ty s1 rq wq (h ∷ rest) t)) rest)
        (filter (Notify.expired ty s1 rq wq (h ∷ rest)) rest) in
    rw e (
      finish_lem (NotifyLive ty s rq wq h rest) _ _
        (subst (λ x. Returns P (scan (notify_task ty) (λ s. s.evq.head) fuel x s1)) (sym v.evq.head)
          (rw live at scanned))
        (λ s' (p : P s'). (
          refl,
          Holds-flag s' _ _ _ _ p.holds,
          (λ a. p.event a),
          record {
            in_slice = p.same.in_slice;
            msec = p.same.msec;
            current = p.same.current;
            trace = p.same.trace;
            flag = rw p.same.flag (unlock_lock s.flag);
          },
        )))

-- The result of `update_wakeupevq` with a head that is due.
abbrev pub NotifyDue : ℕ → State → List ℕ → List ℕ → ℕ → List ℕ → Status × State → Type 0
NotifyDue ty s rq wq h rest (r, s') =
    (r ≡ ok)
    × Holds s' (rq ++ (h ∷ [])) wq rest
    × ((a : ℕ) → s'.event a ≡ (if h == a then 0 else s.event a))
    × Notify.Same s s'

-- With a head that waits for this event, only the head is woken: every task behind it keeps waiting,
-- also those that wait for the same event.
pub update_wakeupevq_due :
    (ty : ℕ) (s : State) (rq wq : List ℕ) (h : ℕ) (rest : List ℕ) (fuel : ℕ)
    → Holds s rq wq (h ∷ rest)
    → s.event h ≡ ty
    → length rest < fuel
    → Returns (NotifyDue ty s rq wq h rest) (update_wakeupevq fuel ty s)
unfolding update_wakeupevq finish unlocked
update_wakeupevq_due ty s rq wq h rest fuel v due lt =
    let s1 : State = record s { flag = (kern_lock s.flag).1 } in
    let e : (s.evq.head == 0) ≡ false =
      IsQueue-head h s.links s.evq (h ∷ rest) (ground arith) v.evq in
    let scanned =
      scan-Notifying ty s1 rq wq (h ∷ rest) h rest fuel refl (Holds-flag s _ rq wq (h ∷ rest) v)
        lt in
    let gone : Notify.expired ty s1 rq wq (h ∷ rest) h ≡ true = ground arith in
    let P : State → Type 0 = Notify.Notifying ty s1 rq wq (h ∷ rest) rest rest (h ∷ []) in
    rw e (
      finish_lem (NotifyDue ty s rq wq h rest) _ _
        (subst (λ x. Returns P (scan (notify_task ty) (λ s. s.evq.head) fuel x s1)) (sym v.evq.head)
          (rw gone at scanned))
        (λ s' (p : P s'). (
          refl,
          Holds-flag s' _ _ _ _ p.holds,
          (λ a. ground (arith, p.event a, v.evq.ring.1.0)),
          record {
            in_slice = p.same.in_slice;
            msec = p.same.msec;
            current = p.same.current;
            trace = p.same.trace;
            flag = rw p.same.flag (unlock_lock s.flag);
          },
        )))

-- With no task in the queue it returns -1 and changes nothing.
pub update_wakeupevq_none :
    (ty : ℕ) (s : State) (rq wq : List ℕ) (fuel : ℕ)
    → Holds s rq wq []
    → update_wakeupevq fuel ty s ≡ some (failed, s)
unfolding update_wakeupevq
update_wakeupevq_none ty s rq wq fuel v = rw v.evq.head
