-- ===== src/Task/Limits.antt =====
-- What a new task meets when descriptors or pages run short.
use magical_os.Base.{
  ℕ, ◌+◌, ◌/◌, ◌%◌, ◌^◌, ◌≤◌, ◌≡◌, refl, sym, ◌∙◌, ◌||◌, List, arith, length, length-set, set, ◌==◌,
  none, some, Bool-cases, inl, inr, Bool, true, false, if◌then◌else◌,
}
use mathlib.Core.Path.{subst}
use magical_os.Memory.{max_heap_pages, mem_alloc}
use magical_os.Memory.Free.{free_pages, mem_alloc-null, mem_alloc-Grants}
use magical_os.Descriptors.{Segment, init_gdt}
use magical_os.Descriptors.Laws.{init_gdt_lem}
use magical_os.Task.{World, new_task, task_init, init_tss, tss_offset, sizeof_tss}
use magical_os.Task.Ready.{base_of}

guarded : {A : Type 0} (c : Bool) (x r : A) → (if c then none else some x) ≡ some r → r ≡ x
guarded true x r e = ground (arith, e)
guarded false x r e = cc

-- A task that was made, by the pages that were taken.
abbrev IsNew : ℕ → World → World × ℕ → Type 0
IsNew file w r =
    (pd : ℕ) × (pt : ℕ) × (task : ℕ) × (stack : ℕ) × (table : List ℕ) × (r
      ≡ new_task file w pd pt task stack table)

task_init-IsNew :
    (past file : ℕ) (w : World) (r : World × ℕ) → task_init past file w ≡ some r → IsNew file w r
unfolding task_init
task_init-IsNew past file w r e =
    let (pd, t1) = mem_alloc past w.table in
    let (pt, t2) = mem_alloc past t1 in
    let (task, t3) = mem_alloc past t2 in
    let (stack, t4) = mem_alloc past t3 in
    (
      pd,
      pt,
      task,
      stack,
      t4,
      guarded ((pd == 0) || (pt == 0) || (task == 0)) (new_task file w pd pt task stack t4) r e,
    )

ninth : (base : ℕ) (gdt : ℕ → Segment) → (init_gdt 6 base sizeof_tss 3 gdt 6).kind ≡ 9
unfolding init_gdt
ninth base gdt = refl

-- The code selector of the task names the descriptor that its own segment took.
abbrev IsTaken : World × ℕ → Type 0
IsTaken r =
    ((r.0.tss r.1).cs / 8 ≡ 6)
    × ((r.0.gdt 6).kind ≡ 9)
    × (base_of (r.0.gdt 6) ≡ (r.1 + tss_offset) % 2 ^ 32)

new_task-third :
    (file : ℕ) (w : World) (pd pt task stack : ℕ) (table : List ℕ)
    → w.counter ≡ 3
    → IsTaken (new_task file w pd pt task stack table)
unfolding new_task init_tss
new_task-third file w pd pt task stack table e = (
  ground arith,
  rw e (ninth ((task + tss_offset) % 2 ^ 32) w.gdt),
  rw e
      (init_gdt_lem 6 ((task + tss_offset) % 2 ^ 32) sizeof_tss 3 w.gdt (omega arith)
        (omega arith)).0,
)

-- The third task, if it is made, takes the descriptor of the programs' code: the selector that every task
-- has as its `cs` names the segment of its state then.
pub task_init-third :
    (past file : ℕ) (w : World) (r : World × ℕ)
    → w.counter ≡ 3
    → task_init past file w ≡ some r
    → ((r.0.tss r.1).cs / 8 ≡ 6)
      × ((r.0.gdt 6).kind ≡ 9)
      × (base_of (r.0.gdt 6) ≡ (r.1 + tss_offset) % 2 ^ 32)
task_init-third past file w r three e =
    let (pd, pt, task, stack, table, same) = task_init-IsNew past file w r e in
    subst IsTaken (sym same) (new_task-third file w pd pt task stack table three)

no_page :
    (past : ℕ) (table : List ℕ)
    → length table ≡ max_heap_pages
    → free_pages table ≤ 0
    → mem_alloc past table ≡ (0, table)
no_page past table e le = mem_alloc-null past table e (omega arith)

no_second :
    (past : ℕ) (table : List ℕ)
    → length table ≡ max_heap_pages
    → free_pages table ≤ 1
    → (mem_alloc past (mem_alloc past table).1).0 ≡ 0
no_second past table e le = elim (Bool-cases (free_pages table == 0)) [
  | inl z ↦ let no = no_page past table e (ground arith) in rw (no, no) refl
  | inr nz ↦
      let (i, g) = mem_alloc-Grants past table e (ground arith) in
      rw (g.result, no_page past (set table i 1) (length-set table i 1 ∙ e) (omega (arith, g.left)))
        refl
]

no_third :
    (past : ℕ) (table : List ℕ)
    → length table ≡ max_heap_pages
    → free_pages table ≤ 2
    → (mem_alloc past (mem_alloc past (mem_alloc past table).1).1).0 ≡ 0
no_third past table e le = elim (Bool-cases (free_pages table == 0)) [
  | inl z ↦ let no = no_page past table e (ground arith) in rw (no, no, no) refl
  | inr nz ↦
      let (i, g) = mem_alloc-Grants past table e (ground arith) in
      rw g.result
        (no_second past (set table i 1) (length-set table i 1 ∙ e) (omega (arith, g.left)))
]

null_test : (a b c : ℕ) → c ≡ 0 → ((a == 0) || (b == 0) || (c == 0)) ≡ true
null_test a b c e = ground (arith, e)

-- With fewer than three free pages `task_init` meets NULL as the address of a table or of the task, and its
-- first write there is a page fault: no task is made, and nothing is returned.
pub task_init-null :
    (past file : ℕ) (w : World)
    → length w.table ≡ max_heap_pages
    → free_pages w.table ≤ 2
    → task_init past file w ≡ none
unfolding task_init
task_init-null past file w e le =
    let a = (mem_alloc past w.table).0 in
    let b = (mem_alloc past (mem_alloc past w.table).1).0 in
    let c = (mem_alloc past (mem_alloc past (mem_alloc past w.table).1).1).0 in
    rw (null_test a b c (no_third past w.table e le)) refl
