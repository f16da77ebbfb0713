-- ===== src/Examples/Programs.antt =====
-- The theorems on the programs. The texts stand from 10 on: "OS5> ", "Command not found.\r\n", the name "a"
-- of the only file, and "uptime:". The keys are a and return.
use magical_os.Base.{
  ℕ, ◌-◌, ◌≤◌, ◌≡◌, refl, arith, inl, some, List, [], ◌∷◌, Returns, ◌==◌, if◌then◌else◌, get_or,
  ltb,
}
use magical_os.Bytes.{Memory, CString}
use magical_os.Fs.Laws.{Finds}
use magical_os.Syscall.{Kernel, code, asleep, codes, read_line}
use magical_os.Screen.Line.{Editing, get_line}
use magical_os.Screen.Printk.Render.{show_text}
use magical_os.Task.{World}
use magical_os.Uptime.{uptime_round}
use magical_os.Uptime.Laws.{label, Ticked, uptime_round-Ticked}
use magical_os.Shell.Spaces.{before_space}
use magical_os.Shell.Commands.{Buffers, Texts, shell_round}
use magical_os.Shell.Commands.Session.{in_order, Session, Files, Kept, Elsewhere}
use magical_os.Shell.Commands.Round.{Runs, shell_round-Runs}
use magical_os.Examples.Kernel.{first_machine, world, four_free}

abbrev prompt : List ℕ
prompt = b'O' ∷ b'S' ∷ b'5' ∷ b'>' ∷ b' ' ∷ []

abbrev missing : List ℕ
missing =
    b'C' ∷ b'o' ∷ b'm' ∷ b'm' ∷ b'a' ∷ b'n' ∷ b'd' ∷ b' ' ∷ b'n' ∷ b'o' ∷ b't' ∷ b' ' ∷ b'f' ∷ b'o'
    ∷ b'u' ∷ b'n' ∷ b'd' ∷ b'.' ∷ b'\r' ∷ b'\n' ∷ []

abbrev program_memory : Memory
program_memory a =
    if ltb a 16
    then (if ltb a 10 then 0 else get_or prompt (a - 10) 0)
    else if ltb a 37
    then get_or missing (a - 16) 0
    else if a == 37
    then b'a'
    else if ltb a 39
    then 0
    else get_or label (a - 39) 0

-- The interrupt handler has put the task in the run queue again.
abbrev awake : World → World
awake w = record w { sched = first_machine.sched }

abbrev kernel : Kernel
kernel = record {
  world = world four_free 1;
  counter = 5000;
  keys = asleep (λ w. w) ∷ code 0x1e ∷ code 0x9e ∷ asleep awake ∷ code 0x1c ∷ code 0x9c ∷ [];
  screen = record { x = 0; y = 5; vram = λ a. 0; ports = [] };
  mem = program_memory;
  files = record {
    links = record {
      next = λ a. if a == 0x100 then 0x200 else 0x100;
      prev = λ a. if a == 0x100 then 0x200 else 0x100;
    };
    num_files = 1;
    name = λ f. 37;
    data_base_addr = λ f. 0x13020;
  };
}

label-CString : CString program_memory 39 label
label-CString = omega arith

uptime_round-Ticked_example :
    Returns (λ r. Ticked 0x50 kernel r.1) (uptime_round 8 0 0x50 0x100 39 kernel)
uptime_round-Ticked_example =
    uptime_round-Ticked 8 0 0x50 0x100 39 kernel label-CString (omega arith) (omega arith)

abbrev buffers : Buffers
buffers = record {
  line = 1000;
  command = 2000;
  args = 3000;
  first = 4000;
  second = 5000;
  other = 6000;
  rest = 7000;
}

abbrev texts : Texts
texts = record { prompt = 10; crlf = 34; test = 37; not_found = 16 }

below_buffers : (a : ℕ) → a ≤ 40 → Elsewhere buffers a
below_buffers a le = record {
  line = inl (omega arith);
  command = inl (omega arith);
  args = inl (omega arith);
}

prompt-Kept : Kept buffers program_memory 10 prompt
prompt-Kept = record { text = omega arith; place = λ a l u. below_buffers a (omega arith) }

missing-Kept : Kept buffers program_memory 16 missing
missing-Kept = record { text = omega arith; place = λ a l u. below_buffers a (omega arith) }

name-Kept : Kept buffers program_memory 37 (b'a' ∷ [])
name-Kept = record { text = omega arith; place = λ a l u. below_buffers a (omega arith) }

kernel-Session : Session 257 buffers texts kernel (b'a' ∷ []) prompt missing
kernel-Session = record {
  keys = refl;
  line_length = (omega arith, omega arith);
  chars = ((omega arith, omega arith), tt);
  buffers = record {
    line_first = inl (omega arith);
    line_other = inl (omega arith);
    first_other = inl (omega arith);
  };
  prompt_text = prompt-Kept;
  missing_text = missing-Kept;
  enough = (omega arith, omega arith, omega arith, omega arith);
}

kernel-Files : Files buffers 0x100 257 kernel (0x200 ∷ []) (λ f. b'a' ∷ [])
kernel-Files = record {
  ring = ((refl, refl, (refl, refl)), (refl, (refl, tt)));
  texts = λ f i. name-Kept;
  enough = omega arith;
}

shell_round-Runs_example :
    (l : Editing × List ℕ) × (get_line 257 1000 512
        (codes kernel.keys)
        program_memory
        (show_text prompt kernel.screen)
      ≡ some l)
    × (f : ℕ) × Finds (λ f. b'a' ∷ []) (before_space (in_order (b'a' ∷ []) [])) (0x200 ∷ []) f
    × Runs 0 kernel
        (read_line 0x50 kernel l).1.world
        f
        (shell_round 257 0 0x50 0x100 buffers texts (λ port. 0) kernel)
shell_round-Runs_example =
    shell_round-Runs 257 0 0x50 0x100 buffers texts (λ port. 0) kernel (b'a' ∷ []) prompt missing
      (0x200 ∷ []) (λ f. b'a' ∷ []) kernel-Session kernel-Files refl
