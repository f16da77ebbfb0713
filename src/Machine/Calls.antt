-- ===== src/Machine/Calls.antt =====
-- The calls of a task that change the queues keep what holds of a machine.
use magical_os.Base.{
  ℕ, zero, suc, ◌≡◌, ◌≢◌, refl, ◌∙◌, inl, inr, true, false, List, [], ◌∷◌, ◌++◌, arith, ◌==◌,
  if◌then◌else◌, mem, erase, mem-erase_ne, mem-append, Bool-cases,
}
use magical_os.KeyQueue.Refine.{HasSize, dequeue_refines}
use magical_os.Sched.{State, runq_enq, wakeup_after_msec, wakeup_after_event}
use magical_os.Sched.Ops.{runq_enq-Holds}
use magical_os.Sched.Move.{Frame-runq_enq}
use magical_os.Sched.Schedule.{following, following-mem}
use magical_os.Sched.Sleep.{Outside}
use magical_os.Sched.Sleep.Time.{wakeup_after_msec_lem}
use magical_os.Sched.Sleep.Event.{wakeup_after_event_lem}
use magical_os.Machine.{Machine, event_type_kbd, get_keydata_round}
use magical_os.Machine.Tasks.{Shares-swap, Shares-sleep, Shares-new}
use magical_os.Machine.Inv.{Runs, Sane, Inv}
use magical_os.Machine.Handlers.{HasSize-error}

module _ (dummy : ℕ) (ts : List ℕ) (s : State) (rq wq eq : List ℕ)
    (v : Sane dummy ts s rq wq eq) where
  -- A task that is outside `ts` is in no queue.
  outside : (a : ℕ) → mem a ts ≡ false → Outside a rq wq eq
  outside a out = (
    ground (arith, v.shares.all a),
    ground (arith, v.shares.all a),
    ground (arith, v.shares.all a),
  )

  Runs-next :
      (c : ℕ)
      → mem s.current rq ≡ true
      → c ≡ (if following s.current rq == s.current then 0 else following s.current rq)
      → Runs c (erase s.current rq)
  Runs-next c i e = elim (Bool-cases (following s.current rq == s.current)) [
    | inl same ↦ inl (rw same at e)
    | inr other ↦
        let there = following-mem s.current rq i in
        let left = mem-erase_ne (following s.current rq) s.current rq (ground arith) in
        inr (rw (rw other at e) (left ∙ there))
  ]

  runs_in : s.current ≢ 0 → mem s.current rq ≡ true
  runs_in nz = running v.runs
    where
      running : Runs s.current rq → mem s.current rq ≡ true
      running (inl z) = absurd (nz z)
      running (inr i) = i

  pub wakeup_after_msec-Sane :
      (time : ℕ)
      → s.current ≢ 0
      → Sane dummy ts
          (wakeup_after_msec dummy time s)
          (erase s.current rq)
          (wq ++ (s.current ∷ []))
          eq
  wakeup_after_msec-Sane time nz =
      let i = runs_in nz in
      let p =
        wakeup_after_msec_lem dummy time s rq wq eq v.holds i v.dummy_nz
          (outside dummy v.dummy_out) in
      record {
        holds = p.holds;
        shares = Shares-sleep ts rq wq eq s.current i v.shares;
        runs = Runs-next _ i p.current;
        dummy_nz = v.dummy_nz;
        dummy_out = v.dummy_out;
      }

  pub wakeup_after_event-Sane :
      (ty : ℕ)
      → s.current ≢ 0
      → Sane dummy ts
          (wakeup_after_event dummy ty s)
          (erase s.current rq)
          wq
          (eq ++ (s.current ∷ []))
  wakeup_after_event-Sane ty nz =
      let i = runs_in nz in
      let p =
        wakeup_after_event_lem dummy ty s rq wq eq v.holds i v.dummy_nz
          (outside dummy v.dummy_out) in
      record {
        holds = p.holds;
        shares = Shares-swap (Shares-sleep ts rq eq wq s.current i (Shares-swap v.shares));
        runs = Runs-next _ i p.current;
        dummy_nz = v.dummy_nz;
        dummy_out = v.dummy_out;
      }

  pub runq_enq-Sane :
      (t : ℕ)
      → t ≢ 0
      → t ≢ dummy
      → mem t ts ≡ false
      → Sane dummy (t ∷ ts) (runq_enq t s) (rq ++ (t ∷ [])) wq eq
  runq_enq-Sane t nz far new =
      let o = outside t new in
      record {
        holds = runq_enq-Holds t s rq wq eq nz o.0 o.1 o.2 v.holds;
        shares = Shares-new ts rq wq eq t v.shares;
        runs = kept v.runs (Frame-runq_enq t s).current;
        dummy_nz = v.dummy_nz;
        dummy_out = ground (arith, v.dummy_out);
      }
    where
      kept : {c : ℕ} → Runs s.current rq → c ≡ s.current → Runs c (rq ++ (t ∷ []))
      kept (inl z) e = inl (ground arith)
      kept (inr i) e = inr (ground (arith, mem-append s.current rq (t ∷ [])))

module _ (dummy : ℕ) (ts : List ℕ) (m : Machine) (v : Inv dummy ts m) where
  pub sleep-Inv :
      (time : ℕ)
      → m.sched.current ≢ 0
      → Inv dummy ts (record m { sched = wakeup_after_msec dummy time m.sched })
  sleep-Inv time nz = record {
    rq = erase m.sched.current v.rq;
    wq = v.wq ++ (m.sched.current ∷ []);
    eq = v.eq;
    sane = wakeup_after_msec-Sane dummy ts m.sched v.rq v.wq v.eq v.sane time nz;
    size = v.size;
    keys = v.keys;
  }

  pub create-Inv :
      (t : ℕ)
      → t ≢ 0
      → t ≢ dummy
      → mem t ts ≡ false
      → Inv dummy (t ∷ ts) (record m { sched = runq_enq t m.sched })
  create-Inv t nz far new = record {
    rq = v.rq ++ (t ∷ []);
    wq = v.wq;
    eq = v.eq;
    sane = runq_enq-Sane dummy ts m.sched v.rq v.wq v.eq v.sane t nz far new;
    size = v.size;
    keys = v.keys;
  }

  pub get_keydata_round-Inv : m.sched.current ≢ 0 → Inv dummy ts (get_keydata_round dummy m).1
  unfolding get_keydata_round
  get_keydata_round-Inv nz = by_size v.size v.keys
    where
      by_size : (n : ℕ) → HasSize m.keys n → Inv dummy ts (get_keydata_round dummy m).1
      by_size zero k = rw ((dequeue_refines m.keys 0 k).0 refl) (record {
        rq = erase m.sched.current v.rq;
        wq = v.wq;
        eq = v.eq ++ (m.sched.current ∷ []);
        sane = wakeup_after_event-Sane dummy ts m.sched v.rq v.wq v.eq v.sane event_type_kbd nz;
        size = 0;
        keys = HasSize-error m.keys 0 k;
      })
      by_size (suc n) k =
          let taken = (dequeue_refines m.keys (suc n) k).1 n refl in
          rw taken.2
            (record { rq = v.rq; wq = v.wq; eq = v.eq; sane = v.sane; size = n; keys = taken.0 })
