-- ===== src/Task.antt =====
-- Tasks: `task_init` of kernel/task.c. The memory of the tables is a function from the address of a
-- 32-bit word; a field of `struct task` is a function from the address of the task. Tables and tasks
-- have pages of their own, and the one write of the tables that reaches another page is made on both.
-- `past` is the byte behind the page table of the allocator, which `mem_alloc` reads.
pub mod Walk
pub mod Tables
pub mod Pages
pub mod Ready
pub mod Limits
use magical_os.Base.{
  ℕ, zero, suc, ◌+◌, ◌-◌, ◌*◌, ◌/◌, ◌%◌, ◌^◌, Option, none, some, List, [], ◌∷◌, update, set, ◌==◌,
  ◌||◌, if◌then◌else◌,
}
use magical_os.Memory.{mem_alloc}
use magical_os.Descriptors.{Segment, init_gdt}
use magical_os.Sched.{State, runq_enq}

abbrev pub gdt_idx_ofs : ℕ
gdt_idx_ofs = 3

abbrev pub app_entry_point : ℕ
app_entry_point = 0x20000020

abbrev pub app_stack_base : ℕ
app_stack_base = 0x20002000

-- The template of `context_switch`: a far jump between the frame's instructions.
abbrev pub context_switch_template : List ℕ
context_switch_template = 0x55 ∷ 0x89 ∷ 0xe5 ∷ 0xea ∷ 0 ∷ 0 ∷ 0 ∷ 0 ∷ 0 ∷ 0 ∷ 0x5d ∷ 0xc3 ∷ []

abbrev pub context_switch_fn_tskno_field : ℕ
context_switch_fn_tskno_field = 8

-- The fields of `struct tss` that are set.
pub record Tss : Type 0 where
  pub eip : ℕ
  pub esp : ℕ
  pub eflags : ℕ
  pub esp0 : ℕ
  pub ss0 : ℕ
  pub es : ℕ
  pub cs : ℕ
  pub ss : ℕ
  pub ds : ℕ
  pub fs : ℕ
  pub gs : ℕ
  pub cr3 : ℕ

-- The page table of the allocator, the memory, the fields of the tasks, the descriptors, `task_id_counter`
-- and the scheduler.
pub record World : Type 0 where
  pub table : List ℕ
  pub words : ℕ → ℕ
  pub task_id : ℕ → ℕ
  pub code : ℕ → List ℕ
  pub tss : ℕ → Tss
  pub gdt : ℕ → Segment
  pub counter : ℕ
  pub sched : State

-- `for (...) { entry->all = 0; entry++; }`, `n` words from the address `a` on.
unfoldable pub clear_words : ℕ → ℕ → (ℕ → ℕ) → ℕ → ℕ
clear_words zero a words = words
clear_words (suc n) a words = clear_words n (a + 4) (update words a 0)

-- An entry with p, r_w and, for programs, u_s; the page is the upper 20 bits.
abbrev pub kernel_entry : ℕ → ℕ
kernel_entry page = page * 0x1000 + 0x3

abbrev pub user_entry : ℕ → ℕ
user_entry page = page * 0x1000 + 0x7

-- The page directory at `pd` with the page table at `pt`: the two loops share their counter, so that the
-- second clears entries 0x81 to 0x400.
unfoldable pub init_task_directory : ℕ → ℕ → (ℕ → ℕ) → ℕ → ℕ
init_task_directory pd pt words =
    let w1 = update words pd (kernel_entry 0x90) in
    let w2 = clear_words (0x80 - 1) (pd + 4) w1 in
    let w3 = update w2 (pd + 0x80 * 4) (user_entry (pt / 0x1000)) in
    clear_words (0x400 - 0x80) (pd + 0x81 * 4) w3

-- The page table at `pt`: the page of the file, that of the stack, and nothing else.
unfoldable pub init_task_table : ℕ → ℕ → ℕ → (ℕ → ℕ) → ℕ → ℕ
init_task_table pt file stack words =
    let w1 = update words pt (user_entry (file / 0x1000)) in
    let w2 = update w1 (pt + 4) (user_entry (stack / 0x1000)) in clear_words (0x400 - 2) (pt + 8) w2

-- The byte that is stored in `context_switch_func`; its selector.
unfoldable pub switch_code : ℕ → List ℕ
switch_code id =
    set context_switch_template context_switch_fn_tskno_field
      ((8 * (id + 2 ^ 32 - 1) + 0x20) % 2 ^ 8)

unfoldable pub init_tss : ℕ → Tss
init_tss pd = record {
  eip = app_entry_point;
  esp = 0x20001800;
  eflags = 0x200;
  esp0 = app_stack_base;
  ss0 = 0x10;
  es = 0x38 + 3;
  cs = 0x30 + 3;
  ss = 0x38 + 3;
  ds = 0x38 + 3;
  fs = 0x38 + 3;
  gs = 0x38 + 3;
  cr3 = pd + 0x18;
}

-- `&new_task->tss` and `sizeof(struct tss)`
abbrev pub tss_offset : ℕ
tss_offset = 12

abbrev pub sizeof_tss : ℕ
sizeof_tss = 104

-- The word behind the page directory, which `init_task_directory` clears too, is the `prev` of a task that
-- stands there. The other words that are written lie in the two pages of the tables.
abbrev pub overrun : ℕ → State → State
overrun pd s = record s { links = record s.links { prev = update s.links.prev (pd + 0x1000) 0 } }

-- The body behind the allocations, for pages that are not NULL.
unfoldable pub new_task : ℕ → World → ℕ → ℕ → ℕ → ℕ → List ℕ → World × ℕ
new_task file w pd pt task stack table =
    let id = w.counter in
    (
      record {
        table = table;
        words = init_task_table pt file stack (init_task_directory pd pt w.words);
        task_id = update w.task_id task id;
        code = update w.code task (switch_code id);
        tss = update w.tss task (init_tss pd);
        gdt = init_gdt (id + gdt_idx_ofs) ((task + tss_offset) % 2 ^ 32) sizeof_tss 3 w.gdt;
        counter = (id + 1) % 2 ^ 16;
        sched = runq_enq task (overrun pd w.sched);
      },
      task,
    )

-- The task is the second result. `file` is `f->data_base_addr`. None of the pages is compared with NULL:
-- `none` is the page fault of the first write to a directory, a table or a task at address 0, since no
-- table maps page 0; the page of the stack is not written.
unfoldable pub task_init : ℕ → ℕ → World → Option (World × ℕ)
unfolding new_task
task_init past file w =
    let (pd, t1) = mem_alloc past w.table in
    let (pt, t2) = mem_alloc past t1 in
    let (task, t3) = mem_alloc past t2 in
    let (stack, t4) = mem_alloc past t3 in
    if (pd == 0) || (pt == 0) || (task == 0)
    then none
    else some (new_task file w pd pt task stack t4)
