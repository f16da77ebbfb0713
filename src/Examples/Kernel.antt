-- ===== src/Examples/Kernel.antt =====
-- The theorems on the machine at one with two tasks, 0x100 and 0x200, where `dummy_task` is at 0x50, and
-- those on new tasks where the first four pages are free.
use magical_os.Base.{
  ℕ, ◌≡◌, refl, arith, none, some, List, [], ◌∷◌, true, false, Returns, replicate, zero, suc, ◌%◌,
  ◌/◌, ◌^◌, ◌==◌, if◌then◌else◌,
}
use magical_os.KeyQueue.{con_init}
use magical_os.Sched.{runq_enq}
use magical_os.Machine.{Machine, do_ir_timer, do_ir_keyboard}
use magical_os.Machine.Steps.{no_tasks, IsStart, Reach, start, later, create}
use magical_os.Base.{length-replicate, ◌+◌}
use magical_os.Sched.Holds.{Holds}
use magical_os.Memory.Free.{free_pages}
use magical_os.Descriptors.{Segment}
use magical_os.Task.{World, Tss, new_task, task_init, kernel_entry, tss_offset}
use magical_os.Memory.{mem_alloc}
use magical_os.Task.Ready.{base_of}
use magical_os.Task.Limits.{task_init-third, task_init-null}
use magical_os.Machine.Reach.{Queues, Reach-Queues, interrupts_return, timer_keeps_busy}

abbrev pub first_machine : Machine
first_machine = record {
  sched = record {
    links = record { next = λ a. 0; prev = λ a. 0 };
    in_slice = λ a. 0;
    msec = λ a. 0;
    event = λ a. 0;
    runq = no_tasks;
    wakeupq = no_tasks;
    evq = no_tasks;
    current = 0;
    flag = true;
    trace = [];
  };
  counter = 0;
  keys = record { buf = replicate 256 0; start = 0; end = 0; is_full = false; error = false };
}

first_machine-IsStart : IsStart 0x50 first_machine
unfolding con_init
first_machine-IsStart = record {
  runq = refl;
  wakeupq = refl;
  evq = refl;
  current = refl;
  storage = refl;
  keys = refl;
  dummy_nz = omega arith;
}

abbrev second_machine : Machine
second_machine = record first_machine {
  sched = runq_enq 0x200 (runq_enq 0x100 first_machine.sched);
}

second_machine-Reach : Reach 0x50 (0x200 ∷ 0x100 ∷ []) second_machine
second_machine-Reach =
    later (later (start first_machine-IsStart) (create 0x100 (omega arith) (omega arith) refl))
      (create 0x200 (omega arith) (omega arith) refl)

Reach-Queues_example : Queues (0x200 ∷ 0x100 ∷ []) second_machine
Reach-Queues_example = Reach-Queues second_machine-Reach

interrupts_return_example :
    ((m' : Machine) × (do_ir_timer 3 second_machine ≡ some m') × Reach 0x50 (0x200 ∷ 0x100 ∷ []) m')
    × ((m' : Machine) × (do_ir_keyboard 3 (some 0x1e) second_machine ≡ some m')
        × Reach 0x50 (0x200 ∷ 0x100 ∷ []) m')
interrupts_return_example = interrupts_return second_machine-Reach 3 (some 0x1e) (omega arith)

timer_keeps_busy_example :
    Returns (λ m'. m'.sched.current ≡ 0 → m'.sched.runq.head ≡ 0) (do_ir_timer 3 second_machine)
timer_keeps_busy_example = timer_keeps_busy second_machine-Reach 3 (omega arith)

abbrev no_segment : Segment
no_segment = record {
  limit0 = 0;
  limit1 = 0;
  base0 = 0;
  base1 = 0;
  base2 = 0;
  dpl = 0;
  kind = 0;
  present = 0;
}

abbrev no_tss : Tss
no_tss = record {
  eip = 0;
  esp = 0;
  eflags = 0;
  esp0 = 0;
  ss0 = 0;
  es = 0;
  cs = 0;
  ss = 0;
  ds = 0;
  fs = 0;
  gs = 0;
  cr3 = 0;
}

abbrev pub world : List ℕ → ℕ → World
world table counter = record {
  table = table;
  words = λ a. if a == 0x8f000 then kernel_entry 0x90 else 0;
  task_id = λ a. 0;
  code = λ a. [];
  tss = λ a. no_tss;
  gdt = λ i. no_segment;
  counter = counter;
  sched = first_machine.sched;
}

abbrev pub four_free : List ℕ
four_free = 0 ∷ 0 ∷ 0 ∷ 0 ∷ replicate 3580 1

abbrev third_table : List ℕ
third_table = 1 ∷ 1 ∷ 1 ∷ 1 ∷ replicate 3580 1

abbrev third : World × ℕ
third = new_task 0x11000 (world four_free 3) 0x100000 0x101000 0x102000 0x103000 third_table

third-made : task_init 0 0x11000 (world four_free 3) ≡ some third
unfolding task_init mem_alloc magical_os.Memory.find_free
third-made = refl

task_init-third_example :
    ((third.0.tss third.1).cs / 8 ≡ 6)
    × ((third.0.gdt 6).kind ≡ 9)
    × (base_of (third.0.gdt 6) ≡ (third.1 + tss_offset) % 2 ^ 32)
task_init-third_example = task_init-third 0 0x11000 (world four_free 3) third refl third-made

all_used-none : (n : ℕ) → free_pages (replicate n 1) ≡ 0
all_used-none zero = refl
all_used-none (suc n) = omega (arith, all_used-none n)

-- Two pages are free, and the third is missing.
task_init-null_example : task_init 0 0x11000 (world (0 ∷ 0 ∷ replicate 3582 1) 1) ≡ none
task_init-null_example =
    task_init-null 0 0x11000 (world (0 ∷ 0 ∷ replicate 3582 1) 1)
      (omega (arith, length-replicate {A = ℕ} 3582 1)) (omega (arith, all_used-none 3582))
