-- ===== src/Sched/Holds.antt =====
-- What the three queues of kernel/sched.c hold together, and that the queue operations keep it.
use magical_os.Base.{
  ℕ, ◌≡◌, refl, Bool, true, false, List, [], ◌∷◌, ◌++◌, arith, ◌==◌, mem, erase, mem-append,
  mem-erase,
}
use magical_os.Lock.{kern_lock, kern_unlock}
use magical_os.Sched.{State, TaskQueue}
use magical_os.Links.{Links}
use magical_os.Sched.Queues.{IsQueue, Apart}

-- The run queue, the queue for a time and the queue for an event hold these tasks, and no task is
-- in two of them.
pub record Holds (s : State) (rq wq eq : List ℕ) : Type 0 where
  pub runq : IsQueue s.links s.runq rq
  pub wakeupq : IsQueue s.links s.wakeupq wq
  pub evq : IsQueue s.links s.evq eq
  pub rq_wq : Apart rq wq
  pub rq_eq : Apart rq eq
  pub wq_eq : Apart wq eq

pub Apart-symm : (xs ys : List ℕ) → Apart xs ys → Apart ys xs
Apart-symm xs ys h a i = ground (arith, h a)

pub Apart-cons : (t : ℕ) (xs ys : List ℕ) → Apart xs ys → mem t xs ≡ false → Apart xs (t ∷ ys)
Apart-cons t xs ys h o a i = ground (arith, h a)

pub Apart-snoc :
    (t : ℕ) (xs ys : List ℕ) → Apart xs ys → mem t ys ≡ false → Apart (xs ++ (t ∷ [])) ys
Apart-snoc t xs ys h o a i = ground (arith, h a, mem-append a xs (t ∷ []))

pub Apart-snoc_right :
    (t : ℕ) (xs ys : List ℕ) → Apart xs ys → mem t xs ≡ false → Apart xs (ys ++ (t ∷ []))
Apart-snoc_right t xs ys h o a i = ground (arith, h a, mem-append a ys (t ∷ []))

pub Apart-erase_right : (t : ℕ) (xs ys : List ℕ) → Apart xs ys → Apart xs (erase t ys)
Apart-erase_right t xs ys h a i = mem-erase a t ys (h a i)

pub Apart-erase : (t : ℕ) (xs ys : List ℕ) → Apart xs ys → Apart (erase t xs) ys
Apart-erase t xs ys h = Apart-symm ys (erase t xs) (Apart-erase_right t ys xs (Apart-symm xs ys h))

pub unlock_lock : (f : Bool) → kern_unlock (kern_lock f).0 (kern_lock f).1 ≡ f
unfolding kern_lock kern_unlock
unlock_lock true = refl
unlock_lock false = refl

-- A queue with a task in it has a head.
pub IsQueue-head :
    (t : ℕ) (m : Links) (q : TaskQueue) (xs : List ℕ)
    → mem t xs ≡ true
    → IsQueue m q xs
    → (q.head == 0) ≡ false
IsQueue-head t m q [] i v = cc
IsQueue-head t m q (h ∷ xs) i v = ground (arith, v.head, v.null)
