-- ===== src/Examples/Boot.antt =====
-- The theorems on the start of the kernel, with the image's static variables zero.
use magical_os.Base.{
  ℕ, ◌+◌, ◌*◌, ◌<◌, ◌≤◌, ◌≡◌, refl, arith, true, some, none, [], if◌then◌else◌, ltb, replicate,
  Returns, ◌⊎◌,
}
use magical_os.Boot.{
  Image, System, kern_init, interrupt_calls, exception_calls, exception_max, exception,
}
use magical_os.Boot.Gates.{Stands, last_call, kern_init-Stands}
use magical_os.Boot.Start.{IsLoaded, Started, prepared, shell_file, last_write, kern_init-Started}
use magical_os.Task.{init_task_directory, task_init}
use magical_os.Task.Walk.{directory_entry, init_task_directory_lem}
use magical_os.Examples.Kernel.{world}

abbrev image : Image
image = record {
  address = λ h. 0x8000;
  fhead = 0x100;
  fshell = 0x200;
  fuptime = 0x300;
  kern_task_tss = 0x400;
  past = 0;
}

abbrev loaded : System
loaded = record {
  idt = λ i. 0;
  kernel = record {
    world = world (replicate 3584 0) 1;
    counter = 0;
    keys = [];
    screen = record { x = 0; y = 0; vram = λ a. 0; ports = [] };
    mem = λ a. 0;
    files = record {
      links = record { next = λ a. 0; prev = λ a. 0 };
      num_files = 0;
      name = λ f. 0;
      data_base_addr = λ f. 0;
    };
  };
  keys = record { buf = replicate 256 0; start = 0; end = 0; is_full = true; error = true };
}

loaded-IsLoaded : IsLoaded 0x50 loaded
loaded-IsLoaded = record {
  table = refl;
  counter = refl;
  runq = refl;
  wakeupq = refl;
  evq = refl;
  current = refl;
  storage = refl;
  dummy_low = (omega arith, omega arith);
}

kern_init-Stands_example :
    Stands image.address loaded.idt 14
      (last_call 14 interrupt_calls
        (last_call 14 exception_calls (if ltb 14 exception_max then some exception else none)))
      (kern_init (last_write 0x21) image loaded).idt
kern_init-Stands_example = kern_init-Stands (last_write 0x21) image loaded 14 (λ h. omega arith)

kern_init-Started_example :
    Returns
      (Started image 0x50 loaded (kern_init (last_write 0x21) image loaded))
      (task_init 0 (shell_file image loaded) (prepared image loaded))
kern_init-Started_example =
    kern_init-Started (last_write 0x21) image 0x50 loaded (λ ports. refl) loaded-IsLoaded

init_task_directory_lem_example :
    ((k : ℕ)
      → k < 0x400
      → init_task_directory 0x100000 0x101000 (λ a. 7) (0x100000 + k * 4)
        ≡ directory_entry 0x101000 k)
    × (init_task_directory 0x100000 0x101000 (λ a. 7) (0x100000 + 0x1000) ≡ 0)
    × ((p : ℕ)
        → (p < 0x100000) ⊎ (0x100000 + 0x1004 ≤ p)
        → init_task_directory 0x100000 0x101000 (λ a. 7) p ≡ 7)
init_task_directory_lem_example = init_task_directory_lem 0x100000 0x101000 (λ a. 7)
