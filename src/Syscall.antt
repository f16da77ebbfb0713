-- ===== src/Syscall.antt =====
-- kernel/syscall.c: the dispatch of `do_syscall` over the parts that it calls. Strings are in the
-- memory of bytes `mem`, page tables in that of words of `world`; `keys` is what the rounds of
-- `get_keydata` meet, one after the other. `fuel` bounds the loops over strings and keys, `past` is
-- the byte behind the table of the page allocator, and `dummy` and `head` are the addresses of
-- `dummy_task` and of the list of files. `none` says that a loop needs more fuel, that a task still
-- waits for a key, or that a new task meets a page fault.
use magical_os.Base.{
  ℕ, zero, suc, length, ◌-◌, ◌/◌, ◌%◌, ◌^◌, Option, none, some, List, [], ◌∷◌, ◌==◌, if◌then◌else◌,
  map_some, ◌≡◌,
}
use magical_os.Bytes.{Memory}
use magical_os.Fs.{FileSystem, fs_open}
use magical_os.Sched.{State, wakeup_after_msec, wakeup_after_event}
use magical_os.Machine.{event_type_kbd}
use magical_os.Screen.{Screen, put_str, put_str_pos, dump_hex, dump_hex_pos}
use magical_os.Screen.Line.{Editing, get_line}
use magical_os.Task.{World, task_init}

-- A round of `get_keydata`: a code was in the queue, or none was and the task sleeps, and what is done
-- to tasks and tables until it runs again is a function. What others write on the screen meanwhile is
-- left out.
pub data KeyRound : Type 0 where
  code : ℕ → KeyRound
  asleep : (World → World) → KeyRound

-- The codes, as the calls of `get_keydata` return them.
abbrev pub codes : List KeyRound → List ℕ
codes [] = []
codes (code c ∷ rounds) = c ∷ codes rounds
codes (asleep others ∷ rounds) = codes rounds

pub record Kernel : Type 0 where
  pub world : World
  pub counter : ℕ
  pub keys : List KeyRound
  pub screen : Screen
  pub mem : Memory
  pub files : FileSystem

-- A call on the screen, and one on the scheduler.
abbrev pub on_screen : Kernel → Screen → ℕ × Kernel
on_screen k s = (0, record k { screen = s })

abbrev pub on_sched : Kernel → State → ℕ × Kernel
on_sched k s = (0, record k { world = record k.world { sched = s } })

-- `n` calls of `get_keydata`: each sleeps for the keyboard until there is a code.
unfoldable pub get_codes : ℕ → List KeyRound → ℕ → World → World × List KeyRound
get_codes dummy [] n w = (w, [])
get_codes dummy (code c ∷ rounds) zero w = (w, code c ∷ rounds)
get_codes dummy (code c ∷ rounds) (suc n) w = get_codes dummy rounds n w
get_codes dummy (asleep others ∷ rounds) zero w = (w, asleep others ∷ rounds)
get_codes dummy (asleep others ∷ rounds) (suc n) w =
    get_codes dummy rounds (suc n)
      (others (record w { sched = wakeup_after_event dummy event_type_kbd w.sched }))

-- A line that was read, where `left` is what is left of the codes.
abbrev pub read_line : ℕ → Kernel → Editing × List ℕ → ℕ × Kernel
read_line dummy k (e, left) =
    let (w, rounds) = get_codes dummy k.keys (length (codes k.keys) - length left) k.world in
    (e.i, record k { world = w; keys = rounds; mem = e.mem; screen = e.screen })

abbrev pub executed : Kernel → World × ℕ → ℕ × Kernel
executed k r = (0, record k { world = r.0 })

abbrev pub opened : Kernel → ℕ → ℕ × Kernel
opened k f = (f, k)

-- The writes of SYSCALL_SHUTDOWN, the newest first.
abbrev pub shutdown_ports : List (ℕ × ℕ) → List (ℕ × ℕ)
shutdown_ports ports =
    (0x8900, b'n')
    ∷ (0x8900, b'w')
    ∷ (0x8900, b'o')
    ∷ (0x8900, b'd')
    ∷ (0x8900, b't')
    ∷ (0x8900, b'u')
    ∷ (0x8900, b'h')
    ∷ (0x8900, b'S')
    ∷ ports

abbrev pub shut_down : Screen → Screen
shut_down s = record s { ports = shutdown_ports s.ports }

-- `unsigned int result = -1`
abbrev pub no_result : ℕ
no_result = 2 ^ 32 - 1

module _ (fuel past dummy head : ℕ) where
  unfoldable pub do_syscall : ℕ → ℕ → ℕ → ℕ → Kernel → Option (ℕ × Kernel)
  do_syscall syscall_id arg1 arg2 arg3 k =
      if syscall_id == 1
      then some (k.counter, k)
      else if syscall_id == 2
      then some (on_sched k (wakeup_after_msec dummy arg1 k.world.sched))
      else if syscall_id == 3
      then some (k.screen.y, k)
      else if syscall_id == 4
      then map_some (on_screen k) (put_str fuel k.mem arg1 k.screen)
      else if syscall_id == 5
      then map_some (on_screen k) (put_str_pos fuel k.mem arg1 (arg2 % 256) (arg3 % 256) k.screen)
      else if syscall_id == 6
      then some (on_screen k (dump_hex arg1 arg2 k.screen))
      else if syscall_id == 7
      then some (on_screen k (dump_hex_pos arg1 arg2 (arg3 / 2 ^ 16) (arg3 % 2 ^ 16) k.screen))
      else if syscall_id == 8
      then map_some (read_line dummy k) (get_line fuel arg1 arg2 (codes k.keys) k.mem k.screen)
      else if syscall_id == 9
      then map_some (opened k) (fs_open fuel fuel k.mem arg1 head k.files)
      else if syscall_id == 10
      then map_some (executed k) (task_init past (k.files.data_base_addr arg1) k.world)
      else if syscall_id == 11
      then some (no_result, record k { screen = shut_down k.screen })
      else some (no_result, k)

-- The programs' view: a call changes the kernel's state.
abbrev pub M : Type 0 → Type 0
M A = Kernel → Option (A × Kernel)

abbrev pub pure : {A : Type 0} → A → M A
pure a k = some (a, k)

infixl 5 ◌>>=◌ ◌>>◌
abbrev pub ◌>>=◌ : {A B : Type 0} → M A → (A → M B) → M B
◌>>=◌ m f k = elim (m k) [ none ↦ none | some (a, k') ↦ f a k' ]

abbrev pub ◌>>◌ : {A B : Type 0} → M A → M B → M B
m >> n = m >>= λ _. n

-- A call that returns, and what is done after it.
pub >>=-eq-some :
    {A B : Type 0} (m : M A) (f : A → M B) (k k' : Kernel) (a : A)
    → m k ≡ some (a, k')
    → (m >>= f) k ≡ f a k'
>>=-eq-some m f k k' a e = rw (e, ◌>>=◌)
