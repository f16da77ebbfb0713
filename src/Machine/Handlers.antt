-- ===== src/Machine/Handlers.antt =====
-- The interrupt handlers return, and keep what holds of a machine.
use magical_os.Base.{
  ℕ, suc, ◌<◌, ◌≡◌, refl, inl, inr, true, not, Option, none, some, List, [], ◌∷◌, ◌++◌, arith, ltb,
  ◌==◌, filter_ext, length, mem-append, Bool-cases, Returns, Returns-map, Returns-mono,
}
use magical_os.KeyQueue.{KeyQueue}
use magical_os.KeyQueue.Refine.{HasSize, enqueue_refines}
use magical_os.Sched.{
  State, Status, timer, timer_tick_ms, schedule, act, update_wakeupq, update_wakeupevq,
}
use magical_os.Sched.Holds.{Holds}
use magical_os.Sched.Schedule.{Holds-schedule, Holds-of}
use magical_os.Sched.Wakeup.{
  TickLive, TickDue, NotifyLive, NotifyDue, update_wakeupq_live, update_wakeupq_due,
  update_wakeupq_none, update_wakeupevq_live, update_wakeupevq_due, update_wakeupevq_none,
}
use magical_os.Machine.{
  Machine, end_tick, do_ir_timer, put_key, end_key, do_ir_keyboard, keyboard_eoi, event_type_kbd,
}
use magical_os.Machine.Tasks.{Shares, Shares-swap, Shares-wake, Shares-head}
use magical_os.Machine.Inv.{Runs, Sane, Inv, Runs-schedule, schedule-busy}

-- The scheduler's part, with its lists.
pub record Settled (dummy : ℕ) (ts : List ℕ) (s : State) : Type 0 where
  pub rq : List ℕ
  pub wq : List ℕ
  pub eq : List ℕ
  pub sane : Sane dummy ts s rq wq eq

settled :
    {dummy : ℕ} {ts : List ℕ} {s : State} (rq wq eq : List ℕ)
    → Sane dummy ts s rq wq eq
    → Settled dummy ts s
settled rq wq eq v = record { rq = rq; wq = wq; eq = eq; sane = v }

Runs-append : (c c' : ℕ) (rq more : List ℕ) → c' ≡ c → Runs c rq → Runs c' (rq ++ more)
Runs-append c c' rq more e (inl z) = inl (ground arith)
Runs-append c c' rq more e (inr i) = inr (ground (arith, mem-append c rq more))

-- What a wake-up leaves, from its result and the run queue before it.
resettle :
    {dummy : ℕ} {ts : List ℕ} {s s' : State} (rq wq eq more wq' eq' : List ℕ)
    → Sane dummy ts s rq wq eq
    → Holds s' (rq ++ more) wq' eq'
    → Shares ts (rq ++ more) wq' eq'
    → s'.current ≡ s.current
    → Settled dummy ts s'
resettle {s} {s'} rq wq eq more wq' eq' v h w c = settled (rq ++ more) wq' eq' (record {
  holds = h;
  shares = w;
  runs = Runs-append s.current s'.current rq more c v.runs;
  dummy_nz = v.dummy_nz;
  dummy_out = v.dummy_out;
})

-- What a tick leaves before `schedule`.
update_wakeupq-Settled :
    (dummy : ℕ) (ts : List ℕ) (s : State) (rq wq eq : List ℕ) (fuel : ℕ)
    → Sane dummy ts s rq wq eq
    → length ts < fuel
    → Returns (λ r. Settled dummy ts r.1) (update_wakeupq fuel s)
update_wakeupq-Settled dummy ts s rq [] eq fuel v lt =
    rw (update_wakeupq_none s rq eq fuel v.holds) (settled rq [] eq v)
update_wakeupq-Settled dummy ts s rq (h ∷ rest) eq fuel v lt =
    let enough : length rest < fuel = omega (arith, v.shares.count) in
    let late = λ (a : ℕ). ltb timer_tick_ms (s.msec a) in
    let woken =
      rw (filter_ext (λ a. not (not (late a))) late rest (λ a. ground arith)) at
        (Shares-wake ts rq eq h rest (λ a. not (late a)) v.shares) in
    elim (Bool-cases (ltb timer_tick_ms (s.msec h))) [
      | inl live ↦
          Returns-mono _
            (λ (r : Status × State) (p : TickLive s rq eq h rest r).
              resettle rq (h ∷ rest) eq _ _ eq v p.1 woken p.3.current)
            (update_wakeupq_live s rq eq h rest fuel v.holds (ground arith) enough)
      | inr due ↦
          Returns-mono _
            (λ (r : Status × State) (p : TickDue s rq eq h rest r).
              resettle rq (h ∷ rest) eq _ _ eq v p.1 (Shares-head ts rq eq h rest v.shares)
                p.3.current)
            (update_wakeupq_due s rq eq h rest fuel v.holds (ground arith) enough)
    ]

-- What an event leaves.
update_wakeupevq-Settled :
    (dummy : ℕ) (ts : List ℕ) (ty : ℕ) (s : State) (rq wq eq : List ℕ) (fuel : ℕ)
    → Sane dummy ts s rq wq eq
    → length ts < fuel
    → Returns (λ r. Settled dummy ts r.1) (update_wakeupevq fuel ty s)
update_wakeupevq-Settled dummy ts ty s rq wq [] fuel v lt =
    rw (update_wakeupevq_none ty s rq wq fuel v.holds) (settled rq wq [] v)
update_wakeupevq-Settled dummy ts ty s rq wq (h ∷ rest) fuel v lt =
    let enough : length rest < fuel = omega (arith, v.shares.count) in
    let w = Shares-swap v.shares in
    elim (Bool-cases (s.event h == ty)) [
      | inr live ↦
          Returns-mono _
            (λ (r : Status × State) (p : NotifyLive ty s rq wq h rest r).
              resettle rq wq (h ∷ rest) _ wq _ v p.1
                (Shares-swap (Shares-wake ts rq wq h rest (λ a. s.event a == ty) w)) p.3.current)
            (update_wakeupevq_live ty s rq wq h rest fuel v.holds (ground arith) enough)
      | inl due ↦
          Returns-mono _
            (λ (r : Status × State) (p : NotifyDue ty s rq wq h rest r).
              resettle rq wq (h ∷ rest) _ wq _ v p.1 (Shares-swap (Shares-head ts rq wq h rest w))
                p.3.current)
            (update_wakeupevq_due ty s rq wq h rest fuel v.holds (ground arith) enough)
    ]

Settled-schedule :
    (dummy : ℕ) (ts : List ℕ) (s : State) → Settled dummy ts s → Settled dummy ts (schedule timer s)
Settled-schedule dummy ts s v = settled v.rq v.wq v.eq (record {
  holds = Holds-schedule timer s v.rq v.wq v.eq v.sane.holds;
  shares = v.sane.shares;
  runs = Runs-schedule s v.rq v.wq v.eq v.sane.holds v.sane.runs;
  dummy_nz = v.sane.dummy_nz;
  dummy_out = v.sane.dummy_out;
})

Settled-act :
    {dummy : ℕ} {ts : List ℕ} (s : State)
    → Settled dummy ts s
    → Settled dummy ts (act keyboard_eoi s)
unfolding act
Settled-act s v = settled v.rq v.wq v.eq (record {
  holds = Holds-of s _ v.rq v.wq v.eq refl refl refl refl v.sane.holds;
  shares = v.sane.shares;
  runs = v.sane.runs;
  dummy_nz = v.sane.dummy_nz;
  dummy_out = v.sane.dummy_out;
})

Inv-of :
    {dummy : ℕ} {ts : List ℕ} (m : Machine) {n : ℕ}
    → Settled dummy ts m.sched
    → HasSize m.keys n
    → Inv dummy ts m
Inv-of m {n} v k = record { rq = v.rq; wq = v.wq; eq = v.eq; sane = v.sane; size = n; keys = k }

-- With more fuel than tasks the timer interrupt returns, and keeps the invariant.
pub do_ir_timer-Inv :
    (dummy : ℕ) (ts : List ℕ) (m : Machine) (fuel : ℕ)
    → Inv dummy ts m
    → length ts < fuel
    → Returns (Inv dummy ts) (do_ir_timer fuel m)
unfolding do_ir_timer
do_ir_timer-Inv dummy ts m fuel v lt =
    Returns-map (Inv dummy ts) (end_tick m) (update_wakeupq fuel m.sched)
      (update_wakeupq-Settled dummy ts m.sched v.rq v.wq v.eq fuel v.sane lt)
      (λ r p. Inv-of (end_tick m r) (Settled-schedule dummy ts r.1 p) v.keys)

pub do_ir_timer-busy :
    (dummy : ℕ) (ts : List ℕ) (m : Machine) (fuel : ℕ)
    → Inv dummy ts m
    → length ts < fuel
    → Returns (λ m'. m'.sched.current ≡ 0 → m'.sched.runq.head ≡ 0) (do_ir_timer fuel m)
unfolding do_ir_timer
do_ir_timer-busy dummy ts m fuel v lt =
    Returns-map (λ m'. m'.sched.current ≡ 0 → m'.sched.runq.head ≡ 0) (end_tick m)
      (update_wakeupq fuel m.sched)
      (update_wakeupq-Settled dummy ts m.sched v.rq v.wq v.eq fuel v.sane lt)
      (λ r p. schedule-busy r.1 p.rq p.wq p.eq p.sane.holds p.sane.runs)

pub HasSize-error : (q : KeyQueue) (n : ℕ) → HasSize q n → HasSize (record q { error = true }) n
HasSize-error q n v = record {
  storage = v.storage;
  bound = v.bound;
  start = v.start;
  end = v.end;
  full = v.full;
  not_full = v.not_full;
}

put_key-HasSize :
    (code : Option ℕ) (q : KeyQueue) (n : ℕ) → HasSize q n → (k : ℕ) × HasSize (put_key code q) k
unfolding put_key
put_key-HasSize none q n v = (n, v)
put_key-HasSize (some x) q n v =
    let both = enqueue_refines q n x v in
    elim (Bool-cases (ltb n 256)) [
      | inl room ↦ (suc n, (both.0 (ground arith)).0)
      | inr full ↦ (n, rw (both.1 (ground (arith, v.bound))) (HasSize-error q n v))
    ]

-- With more fuel than tasks the keyboard interrupt returns, and keeps the invariant.
pub do_ir_keyboard-Inv :
    (dummy : ℕ) (ts : List ℕ) (m : Machine) (fuel : ℕ) (code : Option ℕ)
    → Inv dummy ts m
    → length ts < fuel
    → Returns (Inv dummy ts) (do_ir_keyboard fuel code m)
unfolding do_ir_keyboard
do_ir_keyboard-Inv dummy ts m fuel code v lt =
    Returns-map (Inv dummy ts) (end_key code m) (update_wakeupevq fuel event_type_kbd m.sched)
      (update_wakeupevq-Settled dummy ts event_type_kbd m.sched v.rq v.wq v.eq fuel v.sane lt)
      (λ r p.
        Inv-of (end_key code m r) (Settled-act r.1 p) (put_key-HasSize code m.keys v.size v.keys).1)
