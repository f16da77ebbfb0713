-- ===== src/Task/Ready.antt =====
-- A new task.
use magical_os.Base.{
  ℕ, ◌+◌, ◌*◌, ◌/◌, ◌%◌, ◌^◌, ◌<◌, ◌≤◌, ◌≡◌, ◌≢◌, refl, ◌∙◌, ◌==◌, Returns, false, List, [], ◌∷◌,
  ◌++◌, arith, mem, get_or, length,
}
use magical_os.Memory.{max_heap_pages}
use magical_os.Memory.Alloc.{page_addr}
use magical_os.Memory.Free.{free_pages}
use magical_os.Links.Ring.{SameOutside}
use magical_os.Sched.{State}
use magical_os.Sched.Queues.{IsQueue-frame}
use magical_os.Task.Pages.{Taken, take_pages}
use magical_os.Descriptors.{Segment}
use magical_os.Descriptors.Laws.{init_gdt_lem}
use magical_os.Sched.{runq_enq}
use magical_os.Sched.Holds.{Holds}
use magical_os.Sched.Ops.{runq_enq-Holds}
use magical_os.Task.{
  overrun, World, new_task, task_init, switch_code, init_tss, tss_offset, sizeof_tss, kernel_entry,
}
use magical_os.Task.Walk.{walk}
use magical_os.Task.Tables.{ArePages, task_page, tables-walk, tables-kernel}

-- No page of a task of the list is free, nor is the page before it.
abbrev pub Owned : List ℕ → List ℕ → Type 0
Owned table tasks =
    (i : ℕ)
    → get_or table i 0 ≡ 0
    → (mem (page_addr i) tasks ≡ false) × (mem (page_addr i + 0x1000) tasks ≡ false)

-- The address that a descriptor gives.
abbrev pub base_of : Segment → ℕ
base_of g = g.base0 + g.base1 * 0x10000 + g.base2 * 0x1000000

-- What `task_init` leaves, where `w` was before and `r` is the state after it with the new task: four
-- pages, different and free before, of which fewer are free now; the task last in the run queue; its
-- own addresses are those of its file and its stack, and below 4 MB it has the kernel's; the far jump
-- of its `context_switch` names the descriptor of its task segment, which is none of those that its own
-- segment registers name; and no other descriptor is changed.
pub record IsReady (file : ℕ) (w : World) (rq wq eq : List ℕ) (r : World × ℕ) : Type 0 where
  pub pd : ℕ
  pub pt : ℕ
  pub task : ℕ
  pub stack : ℕ
  pub at : r.1 ≡ page_addr task
  pub free :
      (get_or w.table pd 0 ≡ 0)
      × (get_or w.table pt 0 ≡ 0)
      × (get_or w.table task 0 ≡ 0)
      × (get_or w.table stack 0 ≡ 0)
  pub apart : (pd ≢ pt) × (pd ≢ task) × (pd ≢ stack) × (pt ≢ task) × (pt ≢ stack) × (task ≢ stack)
  pub left : free_pages r.0.table + 4 ≡ free_pages w.table
  pub queued : Holds r.0.sched (rq ++ (r.1 ∷ [])) wq eq
  pub cr3 : (r.0.tss r.1).cr3 / 0x1000 * 0x1000 ≡ page_addr pd
  pub own :
      (v : ℕ)
      → 0x400000 ≤ v
      → v < 2 ^ 32
      → walk r.0.words (page_addr pd) v ≡ task_page file (page_addr stack) v
  pub kernel : (v : ℕ) → v < 0x400000 → walk r.0.words (page_addr pd) v ≡ walk w.words 0x8f000 v
  pub selector : get_or (r.0.code r.1) 8 0 ≡ 8 * (w.counter + 3)
  pub segment : base_of (r.0.gdt (w.counter + 3)) ≡ r.1 + tss_offset
  pub programs : (i : ℕ) → i ≢ w.counter + 3 → r.0.gdt i ≡ w.gdt i
  pub segments :
      ((r.0.tss r.1).cs / 8 ≢ w.counter + 3)
      × ((r.0.tss r.1).ds / 8 ≢ w.counter + 3)
      × ((r.0.tss r.1).ss / 8 ≢ w.counter + 3)
  pub sched : r.0.sched ≡ runq_enq r.1 (overrun (page_addr pd) w.sched)

-- The word behind the directory is none of a task in a queue.
overrun-Holds :
    (pd : ℕ) (s : State) (rq wq eq : List ℕ)
    → mem (pd + 0x1000) rq ≡ false
    → mem (pd + 0x1000) wq ≡ false
    → mem (pd + 0x1000) eq ≡ false
    → Holds s rq wq eq
    → Holds (overrun pd s) rq wq eq
overrun-Holds pd s rq wq eq a b c v =
    let same : SameOutside ((pd + 0x1000) ∷ []) s.links (overrun pd s).links =
      λ q out. (refl, ground (arith, out)) in
    record {
      runq =
          IsQueue-frame s.links (overrun pd s).links s.runq rq ((pd + 0x1000) ∷ []) same
            (λ q i. ground (arith, i, a)) v.runq;
      wakeupq =
          IsQueue-frame s.links (overrun pd s).links s.wakeupq wq ((pd + 0x1000) ∷ []) same
            (λ q i. ground (arith, i, b)) v.wakeupq;
      evq =
          IsQueue-frame s.links (overrun pd s).links s.evq eq ((pd + 0x1000) ∷ []) same
            (λ q i. ground (arith, i, c)) v.evq;
      rq_wq = v.rq_wq;
      rq_eq = v.rq_eq;
      wq_eq = v.wq_eq;
    }

switch_selector : (id : ℕ) → 1 ≤ id → id ≤ 2 → get_or (switch_code id) 8 0 ≡ 8 * (id + 3)
unfolding switch_code
switch_selector id one most = omega arith

taken :
    (past file : ℕ) (w : World) (rq wq eq : List ℕ) (p : Taken past w.table)
    → 1 ≤ w.counter
    → w.counter ≤ 2
    → Holds w.sched rq wq eq
    → Owned w.table rq
    → Owned w.table wq
    → Owned w.table eq
    → w.words 0x8f000 ≡ kernel_entry 0x90
    → IsReady file w rq wq eq (
        new_task file w
          (page_addr p.pd)
          (page_addr p.pt)
          (page_addr p.task)
          (page_addr p.stack)
          p.after)
unfolding init_tss new_task
taken past file w rq wq eq p one most v o1 o2 o3 k =
    let t = page_addr p.task in
    let pages : ArePages (page_addr p.pd) (page_addr p.pt) = record {
      pd_aligned = omega arith;
      pt_aligned = omega arith;
      apart = λ e. p.apart.0 (omega arith);
    } in
    record {
      pd = p.pd;
      pt = p.pt;
      task = p.task;
      stack = p.stack;
      at = refl;
      free = p.free;
      apart = p.apart;
      left = p.left;
      queued =
          runq_enq-Holds t (overrun (page_addr p.pd) w.sched) rq wq eq (omega arith)
            (o1 p.task p.free.2).0 (o2 p.task p.free.2).0 (o3 p.task p.free.2).0
            (overrun-Holds (page_addr p.pd) w.sched rq wq eq (o1 p.pd p.free.0).1
              (o2 p.pd p.free.0).1 (o3 p.pd p.free.0).1 v);
      cr3 = ground arith;
      own = λ a low high.
          tables-walk (page_addr p.pd) (page_addr p.pt) file (page_addr p.stack) w.words a pages low
            high;
      kernel = λ a low.
          tables-kernel (page_addr p.pd) (page_addr p.pt) file (page_addr p.stack) w.words a pages
            (omega arith) (omega arith) k low;
      selector = ground (arith, switch_selector w.counter one most);
      segment =
          (init_gdt_lem (w.counter + 3) ((t + tss_offset) % 2 ^ 32) sizeof_tss 3 w.gdt (omega arith)
            (omega arith)).0
          ∙ (let fits : p.task < 3584 = p.in_heap.2 in omega arith);
      programs = λ i ne.
          (init_gdt_lem (w.counter + 3) ((t + tss_offset) % 2 ^ 32) sizeof_tss 3 w.gdt (omega arith)
              (omega arith)).2
            i ne;
      segments = ground arith;
      sched = refl;
    }

pub task_init-IsReady :
    (past file : ℕ) (w : World) (rq wq eq : List ℕ)
    → length w.table ≡ max_heap_pages
    → 4 ≤ free_pages w.table
    → 1 ≤ w.counter
    → w.counter ≤ 2
    → Holds w.sched rq wq eq
    → Owned w.table rq
    → Owned w.table wq
    → Owned w.table eq
    → w.words 0x8f000 ≡ kernel_entry 0x90
    → Returns (IsReady file w rq wq eq) (task_init past file w)
unfolding task_init
task_init-IsReady past file w rq wq eq size more one most v o1 o2 o3 k =
    let p = take_pages past w.table size more in
    let a : (page_addr p.pd == 0) ≡ false = ground arith in
    let b : (page_addr p.pt == 0) ≡ false = ground arith in
    let c : (page_addr p.task == 0) ≡ false = ground arith in
    rw (task_init, p.first, p.second, p.third, p.fourth, a, b, c)
      (taken past file w rq wq eq p one most v o1 o2 o3 k)
