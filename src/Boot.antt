-- ===== src/Boot.antt =====
-- kernel/init.c: `kern_init` up to `sti`, with `timer_init`, `intr_init` and the masks of the interrupt
-- controller, and `kern_task_init`. The port writes go to the list of the screen's, each with its port, the
-- newest first. `pic` is what a read of the controller's mask gives after these writes.
pub mod Gates
pub mod Start
pub mod Drivers
use magical_os.Base.{
  ℕ, zero, suc, ◌+◌, ◌-◌, ◌*◌, ◌/◌, ◌%◌, ◌^◌, ◌&&◌, List, [], ◌∷◌, ltb, leb, ◌==◌, if◌then◌else◌,
  Option, none, some,
}
use magical_os.Descriptors.{intr_set_handler, init_gdt}
use magical_os.Fs.{fs_init}
use magical_os.KeyQueue.{KeyQueue, con_init}
use magical_os.Paging.{Entries, init_directory, init_table}
use magical_os.Screen.{Screen, update_cursor}
use magical_os.Syscall.{Kernel}
use magical_os.Task.{World, task_init, sizeof_tss}

-- The entry points of kernel/sys.S.
pub data Handler : Type 0 where
  exception divide_error debug nmi breakpoint overflow bound_range_exceeded invalid_opcode
        device_not_available double_fault coprocessor_segment_overrun invalid_tss
        segment_not_present stack_fault general_protection page_fault x87_fpu_floating_point_error
        alignment_check machine_check simd_floating_point virtualization timer_entry keyboard_entry
        syscall_entry :
      Handler

-- The addresses of the handlers, of the list and the two objects of files, of `kern_task_tss`, and the byte
-- behind the page table of the allocator.
pub record Image : Type 0 where
  pub address : Handler → ℕ
  pub fhead : ℕ
  pub fshell : ℕ
  pub fuptime : ℕ
  pub kern_task_tss : ℕ
  pub past : ℕ

pub record System : Type 0 where
  pub idt : ℕ → ℕ
  pub kernel : Kernel
  pub keys : KeyQueue

abbrev pub exception_max : ℕ
exception_max = 21

-- `for (i = 0; i < EXCEPTION_MAX; i++)` with so many rounds left, from `i` on.
unfoldable pub set_defaults : ℕ → ℕ → ℕ → (ℕ → ℕ) → ℕ → ℕ
set_defaults zero i addr idt = idt
set_defaults (suc n) i addr idt = set_defaults n (i + 1) addr (intr_set_handler i addr idt)

-- The calls of `intr_set_handler` one after the other.
unfoldable pub set_handlers : (Handler → ℕ) → List (ℕ × Handler) → (ℕ → ℕ) → ℕ → ℕ
set_handlers address [] idt = idt
set_handlers address (g ∷ gs) idt = set_handlers address gs (intr_set_handler g.0 (address g.1) idt)

abbrev pub exception_calls : List (ℕ × Handler)
exception_calls =
    (0, divide_error)
    ∷ (1, debug)
    ∷ (2, nmi)
    ∷ (3, breakpoint)
    ∷ (4, overflow)
    ∷ (5, bound_range_exceeded)
    ∷ (6, invalid_opcode)
    ∷ (7, device_not_available)
    ∷ (8, double_fault)
    ∷ (9, coprocessor_segment_overrun)
    ∷ (10, invalid_tss)
    ∷ (11, segment_not_present)
    ∷ (12, stack_fault)
    ∷ (13, general_protection)
    ∷ (14, page_fault)
    ∷ (16, x87_fpu_floating_point_error)
    ∷ (17, alignment_check)
    ∷ (18, machine_check)
    ∷ (19, simd_floating_point)
    ∷ (20, virtualization)
    ∷ []

abbrev pub interrupt_calls : List (ℕ × Handler)
interrupt_calls = (32, timer_entry) ∷ (33, keyboard_entry) ∷ (0x80, syscall_entry) ∷ []

abbrev pub on_ports : (List (ℕ × ℕ) → List (ℕ × ℕ)) → Screen → Screen
on_ports f s = record s { ports = f s.ports }

-- The PIT counts 11932 cycles.
unfoldable pub timer_init : List (ℕ × ℕ) → List (ℕ × ℕ)
timer_init ports = (0x40, 0x2e) ∷ (0x40, 0x9c) ∷ (0x43, 0x34) ∷ ports

-- The two controllers: vectors 0x20 and 0x28, all masked.
unfoldable pub intr_init : List (ℕ × ℕ) → List (ℕ × ℕ)
intr_init ports =
    (0xa1, 0xff)
    ∷ (0xa1, 0x01)
    ∷ (0xa1, 0x02)
    ∷ (0xa1, 0x28)
    ∷ (0xa0, 0x11)
    ∷ (0x21, 0xff)
    ∷ (0x21, 0x01)
    ∷ (0x21, 0x04)
    ∷ (0x21, 0x20)
    ∷ (0x20, 0x11)
    ∷ ports

unfoldable pub intr_set_mask_master : ℕ → List (ℕ × ℕ) → List (ℕ × ℕ)
intr_set_mask_master mask ports = (0x21, mask) ∷ ports

-- `mask &= ~(INTR_MASK_BIT_TIMER | INTR_MASK_BIT_KB)`
abbrev pub unmask : ℕ → ℕ
unmask mask = mask / 4 * 4

-- Entries that stand in memory from `base` on, and memory after `n` of them are written there.
abbrev pub entries_at : ℕ → (ℕ → ℕ) → Entries
entries_at base words i = words (base + i * 4)

abbrev pub write_entries : ℕ → ℕ → Entries → (ℕ → ℕ) → ℕ → ℕ
write_entries n base e words a =
    if leb base a && ltb a (base + n * 4) && ((a - base) % 4 == 0)
    then e ((a - base) / 4)
    else words a

-- The tables of `mem_init` in memory: the loops write 0x400 and 0x40000 entries.
unfoldable pub mem_init : (ℕ → ℕ) → ℕ → ℕ
mem_init words =
    let w1 = write_entries 0x400 0x8f000 (init_directory (entries_at 0x8f000 words)) words in
    write_entries 0x40000 0x90000 (init_table (entries_at 0x90000 w1)) w1

-- The descriptor of `kern_task_init`; it loads the task register and CR3 too.
unfoldable pub kern_task_init : ℕ → World → World
kern_task_init tss w = record w { gdt = init_gdt 3 tss sizeof_tss 0 w.gdt }

-- The state with a new task, or that before a page fault.
abbrev pub made_or : World → Option (World × ℕ) → World
made_or w none = w
made_or w (some r) = r.0

module _ (pic : List (ℕ × ℕ) → ℕ) (image : Image) where
  -- Devices, memory, files and the first task.
  unfoldable pub init_devices : System → System
  init_devices s =
      let k = s.kernel in
      let screen = update_cursor (record k.screen { y = (k.screen.y + 2) % 2 ^ 32 }) in
      let files = fs_init image.fhead image.fshell image.fuptime 0x11000 k.mem k.files in
      let w1 = record k.world { words = mem_init k.world.words } in
      let w2 = kern_task_init image.kern_task_tss w1 in
      record s {
        keys = con_init s.keys;
        kernel = record k {
          screen = on_ports timer_init screen;
          files = files;
          world = made_or w2 (task_init image.past (files.data_base_addr image.fshell) w2);
        };
      }

  -- `intr_init` and the masks.
  unfoldable pub open_interrupts : List (ℕ × ℕ) → List (ℕ × ℕ)
  open_interrupts ports = let p = intr_init ports in intr_set_mask_master (unmask (pic p % 256)) p

  unfoldable pub set_exceptions : (ℕ → ℕ) → ℕ → ℕ
  set_exceptions idt =
      set_handlers image.address exception_calls
        (set_defaults exception_max 0 (image.address exception) idt)

  -- Up to `sti`.
  unfoldable pub kern_init : System → System
  kern_init s =
      let d = init_devices (record s { idt = set_exceptions s.idt }) in
      record d {
        idt = set_handlers image.address interrupt_calls d.idt;
        kernel = record d.kernel { screen = on_ports open_interrupts d.kernel.screen };
      }
