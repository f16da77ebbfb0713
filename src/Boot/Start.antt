-- ===== src/Boot/Start.antt =====
-- The state in which `kern_init` lets interrupts in.
use magical_os.Base.{
  ℕ, zero, suc, ◌-◌, ◌<◌, ◌≡◌, ◌≢◌, refl, ap, ◌∙◌, List, [], ◌∷◌, arith, ◌==◌, if◌then◌else◌,
  length, replicate, length-replicate, some, Returns, Returns-some,
}
use magical_os.KeyQueue.{con_init}
use magical_os.Memory.{max_heap_pages}
use magical_os.Memory.Free.{free_pages}
use magical_os.Paging.Laws.{init_directory_lem}
use magical_os.Fs.{fs_init}
use magical_os.Task.{World, task_init, overrun, kernel_entry}
use magical_os.Memory.Alloc.{page_addr}
use magical_os.Task.Ready.{IsReady, task_init-IsReady}
use magical_os.Machine.{Machine}
use magical_os.Machine.Steps.{no_tasks, IsStart, Reach, start, later, create}
use magical_os.Machine.Inv.{Holds-start}
use magical_os.Boot.{
  Image, System, mem_init, entries_at, kern_task_init, init_devices, intr_init,
  intr_set_mask_master, open_interrupts, kern_init,
}

-- The static variables as the image has them: no page is in use, no task is made or queued; and the dummy
-- task is below the heap.
pub record IsLoaded (dummy : ℕ) (s : System) : Type 0 where
  pub table : s.kernel.world.table ≡ replicate max_heap_pages 0
  pub counter : s.kernel.world.counter ≡ 1
  pub runq : s.kernel.world.sched.runq ≡ no_tasks
  pub wakeupq : s.kernel.world.sched.wakeupq ≡ no_tasks
  pub evq : s.kernel.world.sched.evq ≡ no_tasks
  pub current : s.kernel.world.sched.current ≡ 0
  pub storage : length s.keys.buf ≡ 256
  pub dummy_low : (dummy ≢ 0) × (dummy < 0x100000)

-- The machine that the interrupts meet.
abbrev pub machine : System → Machine
machine s = record { sched = s.kernel.world.sched; counter = s.kernel.counter; keys = s.keys }

-- The last value written to a port.
abbrev pub last_write : ℕ → List (ℕ × ℕ) → ℕ
last_write port [] = 0
last_write port (p ∷ ps) = if p.0 == port then p.1 else last_write port ps

free_pages-replicate : (n : ℕ) → free_pages (replicate n 0) ≡ n
free_pages-replicate zero = refl
free_pages-replicate (suc n) = omega (arith, free_pages-replicate n)

mem_init-directory : (words : ℕ → ℕ) → mem_init words 0x8f000 ≡ kernel_entry 0x90
unfolding mem_init
mem_init-directory words = init_directory_lem (entries_at 0x8f000 words) 0

-- The tables and descriptors before the first task, and the address of the shell's file.
abbrev pub prepared : Image → System → World
prepared image s =
    kern_task_init image.kern_task_tss
      (record s.kernel.world { words = mem_init s.kernel.world.words })

abbrev pub shell_file : Image → System → ℕ
shell_file image s =
    (fs_init image.fhead image.fshell image.fuptime 0x11000 s.kernel.mem
        s.kernel.files).data_base_addr
      image.fshell

-- The state after `kern_init`: the task `r.1` of the shell's file is ready, and is the only one; the
-- machine is one of those that interrupts and calls reach; of the interrupts, those of the timer and
-- the keyboard alone are let in.
pub record Started (image : Image) (dummy : ℕ) (s s' : System) (r : World × ℕ) : Type 0 where
  pub ready : IsReady (shell_file image s) (prepared image s) [] [] [] r
  pub world : s'.kernel.world ≡ r.0
  pub reached : Reach dummy (r.1 ∷ []) (machine s')
  pub master : last_write 0x21 s'.kernel.screen.ports ≡ 0xff - 0x3
  pub slave : last_write 0xa1 s'.kernel.screen.ports ≡ 0xff

abbrev before : System → Machine
before s = record {
  sched = s.kernel.world.sched;
  counter = s.kernel.counter;
  keys = con_init s.keys;
}

before-IsStart : (dummy : ℕ) (s : System) → IsLoaded dummy s → IsStart dummy (before s)
unfolding con_init
before-IsStart dummy s v = record {
  runq = v.runq;
  wakeupq = v.wakeupq;
  evq = v.evq;
  current = v.current;
  storage = v.storage;
  keys = refl;
  dummy_nz = v.dummy_low.0;
}

prepared-IsReady :
    (image : Image) (dummy : ℕ) (s : System)
    → IsLoaded dummy s
    → Returns
        (IsReady (shell_file image s) (prepared image s) [] [] [])
        (task_init image.past (shell_file image s) (prepared image s))
unfolding kern_task_init
prepared-IsReady image dummy s v =
    let full =
      ap (λ (xs : List ℕ). length xs) v.table ∙ length-replicate {A = ℕ} max_heap_pages 0 in
    let free = ap free_pages v.table ∙ free_pages-replicate max_heap_pages in
    let start_holds = Holds-start dummy (before s) (before-IsStart dummy s v) in
    task_init-IsReady image.past (shell_file image s) (prepared image s) [] [] [] full
      (omega (arith, free)) (omega (arith, v.counter)) (omega (arith, v.counter)) start_holds
      (λ i f. (refl, refl)) (λ i f. (refl, refl)) (λ i f. (refl, refl))
      (mem_init-directory s.kernel.world.words)

-- The machine before its first task, the word behind the task's directory cleared.
abbrev cleared : ℕ → System → Machine
cleared pd s = record (before s) { sched = overrun pd s.kernel.world.sched }

cleared-IsStart : (dummy pd : ℕ) (s : System) → IsLoaded dummy s → IsStart dummy (cleared pd s)
unfolding con_init
cleared-IsStart dummy pd s v = record {
  runq = v.runq;
  wakeupq = v.wakeupq;
  evq = v.evq;
  current = v.current;
  storage = v.storage;
  keys = refl;
  dummy_nz = v.dummy_low.0;
}

kern_init-Started-task :
    (pic : List (ℕ × ℕ) → ℕ) (image : Image) (dummy : ℕ) (s : System) (r : World × ℕ)
    → ((ports : List (ℕ × ℕ)) → pic ports ≡ last_write 0x21 ports)
    → IsLoaded dummy s
    → task_init image.past (shell_file image s) (prepared image s) ≡ some r
    → IsReady (shell_file image s) (prepared image s) [] [] [] r
    → Started image dummy s (kern_init pic image s) r
unfolding kern_init init_devices open_interrupts intr_init intr_set_mask_master kern_task_init
kern_init-Started-task pic image dummy s r reads v made ready = record {
  ready = ready;
  world = rw made refl;
  reached =
      rw (made, ready.sched)
        (later (start (cleared-IsStart dummy (page_addr ready.pd) s v))
          (create r.1 (omega (arith, ready.at)) (omega (arith, ready.at, v.dummy_low)) refl));
  master = rw (reads (intr_init _)) refl;
  slave = refl;
}

-- From the image's static state `kern_init` makes the task of the shell's file, ready and alone in the run
-- queue, in a machine that the interrupts' invariants hold of, with the interrupts of the timer and the
-- keyboard unmasked and no other, if the controller's mask reads as it was written.
pub kern_init-Started :
    (pic : List (ℕ × ℕ) → ℕ) (image : Image) (dummy : ℕ) (s : System)
    → ((ports : List (ℕ × ℕ)) → pic ports ≡ last_write 0x21 ports)
    → IsLoaded dummy s
    → Returns
        (Started image dummy s (kern_init pic image s))
        (task_init image.past (shell_file image s) (prepared image s))
kern_init-Started pic image dummy s reads v =
    let (r, made, ready) =
      Returns-some (task_init image.past (shell_file image s) (prepared image s))
        (prepared-IsReady image dummy s v) in
    rw made (kern_init-Started-task pic image dummy s r reads v made ready)
