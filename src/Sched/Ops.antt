-- ===== src/Sched/Ops.antt =====
-- Each queue operation of kernel/sched.c adds its task last or takes it out, in the order of the
-- rest, and leaves the other two queues and every other field as they are.
use magical_os.Base.{ℕ, ◌≡◌, refl, ◌≢◌, true, false, List, [], ◌∷◌, ◌++◌, arith, ◌==◌, mem, erase}
use magical_os.Lock.{kern_lock, kern_unlock}
use magical_os.Sched.{
  State, ok, enq_links, del_queue, del_links, runq_enq, runq_del, wakeupq_enq, wakeupq_del,
  wakeupevq_enq, wakeupevq_del,
}
use magical_os.Sched.Queues.{
  IsQueue-frame, enq-IsQueue, enq-SameOutside, del-IsQueue, del-SameOutside,
}
use magical_os.Sched.Holds.{
  Holds, Apart-symm, Apart-cons, Apart-snoc, Apart-snoc_right, Apart-erase, Apart-erase_right,
  IsQueue-head, unlock_lock,
}

-- A task in no queue becomes the last of the run queue; the order of the others and the other two queues
-- stay, and no task is in two queues.
pub runq_enq-Holds :
    (t : ℕ) (s : State) (rq wq eq : List ℕ)
    → t ≢ 0
    → mem t rq ≡ false
    → mem t wq ≡ false
    → mem t eq ≡ false
    → Holds s rq wq eq
    → Holds (runq_enq t s) (rq ++ (t ∷ [])) wq eq
unfolding runq_enq
runq_enq-Holds t s rq wq eq nz n0 n1 n2 v =
    let g = enq_links t s.runq s.links in
    let same = enq-SameOutside t s.runq s.links rq n0 v.runq in
    record {
      runq = enq-IsQueue t s.runq s.links rq n0 nz v.runq;
      wakeupq =
          IsQueue-frame s.links g s.wakeupq wq (t ∷ rq) same
            (Apart-cons t wq rq (Apart-symm rq wq v.rq_wq) n1) v.wakeupq;
      evq =
          IsQueue-frame s.links g s.evq eq (t ∷ rq) same
            (Apart-cons t eq rq (Apart-symm rq eq v.rq_eq) n2) v.evq;
      rq_wq = Apart-snoc t rq wq v.rq_wq n1;
      rq_eq = Apart-snoc t rq eq v.rq_eq n2;
      wq_eq = v.wq_eq;
    }

-- Taking a task out of the run queue succeeds, keeps the order of the others and the other two queues,
-- and writes nothing but this queue and links.
pub runq_del-Holds :
    (t : ℕ) (s : State) (rq wq eq : List ℕ)
    → mem t rq ≡ true
    → Holds s rq wq eq
    → (runq_del t s
        ≡ (ok, record s { links = del_links t s.runq s.links; runq = del_queue t s.runq s.links }))
      × Holds (runq_del t s).1 (erase t rq) wq eq
unfolding runq_del kern_lock kern_unlock
runq_del-Holds t s rq wq eq i v =
    let g = del_links t s.runq s.links in
    let same = del-SameOutside t s.runq s.links rq i v.runq in
    let e : (s.runq.head == 0) ≡ false =
      ground (arith, IsQueue-head t s.links s.runq rq i v.runq) in
    rw (e, unlock_lock s.flag)
      (
        refl,
        record {
          runq = del-IsQueue t s.runq s.links rq i v.runq;
          wakeupq =
              IsQueue-frame s.links g s.wakeupq wq rq same (Apart-symm rq wq v.rq_wq) v.wakeupq;
          evq = IsQueue-frame s.links g s.evq eq rq same (Apart-symm rq eq v.rq_eq) v.evq;
          rq_wq = Apart-erase t rq wq v.rq_wq;
          rq_eq = Apart-erase t rq eq v.rq_eq;
          wq_eq = v.wq_eq;
        },
      )

-- A task in no queue becomes the last of the queue for a time; the order of the others and the other
-- two queues stay, and no task is in two queues.
pub wakeupq_enq-Holds :
    (t : ℕ) (s : State) (rq wq eq : List ℕ)
    → t ≢ 0
    → mem t rq ≡ false
    → mem t wq ≡ false
    → mem t eq ≡ false
    → Holds s rq wq eq
    → Holds (wakeupq_enq t s) rq (wq ++ (t ∷ [])) eq
unfolding wakeupq_enq
wakeupq_enq-Holds t s rq wq eq nz n0 n1 n2 v =
    let g = enq_links t s.wakeupq s.links in
    let same = enq-SameOutside t s.wakeupq s.links wq n1 v.wakeupq in
    record {
      runq =
          IsQueue-frame s.links g s.runq rq (t ∷ wq) same (Apart-cons t rq wq (v.rq_wq) n0) v.runq;
      wakeupq = enq-IsQueue t s.wakeupq s.links wq n1 nz v.wakeupq;
      evq =
          IsQueue-frame s.links g s.evq eq (t ∷ wq) same
            (Apart-cons t eq wq (Apart-symm wq eq v.wq_eq) n2) v.evq;
      rq_wq = Apart-snoc_right t rq wq v.rq_wq n0;
      rq_eq = v.rq_eq;
      wq_eq = Apart-snoc t wq eq v.wq_eq n2;
    }

-- Taking a task out of the queue for a time succeeds, keeps the order of the others and the other two
-- queues, and writes nothing but this queue and links.
pub wakeupq_del-Holds :
    (t : ℕ) (s : State) (rq wq eq : List ℕ)
    → mem t wq ≡ true
    → Holds s rq wq eq
    → (wakeupq_del t s ≡ (
      ok,
      record s { links = del_links t s.wakeupq s.links; wakeupq = del_queue t s.wakeupq s.links },
    ))
      × Holds (wakeupq_del t s).1 rq (erase t wq) eq
unfolding wakeupq_del kern_lock kern_unlock
wakeupq_del-Holds t s rq wq eq i v =
    let g = del_links t s.wakeupq s.links in
    let same = del-SameOutside t s.wakeupq s.links wq i v.wakeupq in
    let e : (s.wakeupq.head == 0) ≡ false =
      ground (arith, IsQueue-head t s.links s.wakeupq wq i v.wakeupq) in
    rw (e, unlock_lock s.flag)
      (
        refl,
        record {
          runq = IsQueue-frame s.links g s.runq rq wq same (v.rq_wq) v.runq;
          wakeupq = del-IsQueue t s.wakeupq s.links wq i v.wakeupq;
          evq = IsQueue-frame s.links g s.evq eq wq same (Apart-symm wq eq v.wq_eq) v.evq;
          rq_wq = Apart-erase_right t rq wq v.rq_wq;
          rq_eq = v.rq_eq;
          wq_eq = Apart-erase t wq eq v.wq_eq;
        },
      )

-- A task in no queue becomes the last of the queue for an event; the order of the others and the other
-- two queues stay, and no task is in two queues.
pub wakeupevq_enq-Holds :
    (t : ℕ) (s : State) (rq wq eq : List ℕ)
    → t ≢ 0
    → mem t rq ≡ false
    → mem t wq ≡ false
    → mem t eq ≡ false
    → Holds s rq wq eq
    → Holds (wakeupevq_enq t s) rq wq (eq ++ (t ∷ []))
unfolding wakeupevq_enq
wakeupevq_enq-Holds t s rq wq eq nz n0 n1 n2 v =
    let g = enq_links t s.evq s.links in
    let same = enq-SameOutside t s.evq s.links eq n2 v.evq in
    record {
      runq =
          IsQueue-frame s.links g s.runq rq (t ∷ eq) same (Apart-cons t rq eq (v.rq_eq) n0) v.runq;
      wakeupq =
          IsQueue-frame s.links g s.wakeupq wq (t ∷ eq) same (Apart-cons t wq eq (v.wq_eq) n1)
            v.wakeupq;
      evq = enq-IsQueue t s.evq s.links eq n2 nz v.evq;
      rq_wq = v.rq_wq;
      rq_eq = Apart-snoc_right t rq eq v.rq_eq n0;
      wq_eq = Apart-snoc_right t wq eq v.wq_eq n1;
    }

-- Taking a task out of the queue for an event succeeds, keeps the order of the others and the other
-- two queues, and writes nothing but this queue and links.
pub wakeupevq_del-Holds :
    (t : ℕ) (s : State) (rq wq eq : List ℕ)
    → mem t eq ≡ true
    → Holds s rq wq eq
    → (wakeupevq_del t s
        ≡ (ok, record s { links = del_links t s.evq s.links; evq = del_queue t s.evq s.links }))
      × Holds (wakeupevq_del t s).1 rq wq (erase t eq)
unfolding wakeupevq_del kern_lock kern_unlock
wakeupevq_del-Holds t s rq wq eq i v =
    let g = del_links t s.evq s.links in
    let same = del-SameOutside t s.evq s.links eq i v.evq in
    let e : (s.evq.head == 0) ≡ false = ground (arith, IsQueue-head t s.links s.evq eq i v.evq) in
    rw (e, unlock_lock s.flag)
      (
        refl,
        record {
          runq = IsQueue-frame s.links g s.runq rq eq same (v.rq_eq) v.runq;
          wakeupq = IsQueue-frame s.links g s.wakeupq wq eq same (v.wq_eq) v.wakeupq;
          evq = del-IsQueue t s.evq s.links eq i v.evq;
          rq_wq = v.rq_wq;
          rq_eq = Apart-erase_right t rq eq v.rq_eq;
          wq_eq = Apart-erase_right t wq eq v.wq_eq;
        },
      )
