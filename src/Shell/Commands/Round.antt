-- ===== src/Shell/Commands/Round.antt =====
-- One round of the shell, from the keys that are typed to the task that is made.
use magical_os.Base.{
  ℕ, ◌+◌, ◌<◌, ◌≤◌, ◌≡◌, ◌≢◌, refl, ◌∙◌, inl, inr, false, true, some, List, [], arith, ◌==◌, length,
  mem, Bool-cases, Returns-some, ◌⊎◌, Option, none, map_some,
}
use magical_os.Bytes.{Memory, CString}
use magical_os.Links.Ring.{Ring}
use magical_os.Fs.Laws.{Finds, fs_open_lem}
use magical_os.Task.{World, task_init}
use magical_os.Screen.Line.{Editing, get_line}
use magical_os.Screen.Line.Edit.{get_line-edit}
use magical_os.Screen.Printk.Render.{show_text, put_str-show_text}
use magical_os.Syscall.{Kernel, ◌>>=◌, ◌>>◌, do_syscall, on_screen, read_line, codes, executed}
use magical_os.Shell.{command_num, names, get_command_id, str_get_first_entry}
use magical_os.Shell.Spaces.{before_space}
use magical_os.Shell.Entry.{str_get_first_entry-IsSplit}
use magical_os.Shell.Command.{lookup, get_command_id-lookup}
use magical_os.Shell.Commands.Session.{
  in_order, length-in_order, Stored-CString, length-before_space, Kept-CString, Same, Session,
  Files, Apart-le, Outside-le,
}
use magical_os.Shell.Commands.{
  Buffers, Texts, max_line_size, shell_put_str, split, run_file, run_command, run_line, shell_round,
}

abbrev after : {A : Type 0} → A × Kernel → World
after r = r.1.world

-- What a call that asks for the file `f` does to tasks and tables, where they are `w` before it: without a
-- file they stay as they are; else the call does what `task_init` does, which also fails if that does.
abbrev pub Runs : {A : Type 0} → ℕ → Kernel → World → ℕ → Option (A × Kernel) → Type 0
Runs past k w f call =
    ((f ≡ 0) × (map_some after call ≡ some w))
    ⊎ ((f ≢ 0)
        × (map_some after call ≡ map_some (λ r. r.0) (task_init past (k.files.data_base_addr f) w)))

map_some-after :
    (k : Kernel) (o : Option (World × ℕ))
    → map_some after (map_some (executed k) o) ≡ map_some (λ r. r.0) o
map_some-after k none = refl
map_some-after k (some r) = refl

module _ (fuel past dummy head : ℕ) (b : Buffers) (t : Texts) (inb_p : ℕ → ℕ) where
  put_str_call :
      (str : ℕ) (xs : List ℕ) (k : Kernel)
      → CString k.mem str xs
      → length xs < fuel
      → shell_put_str fuel past dummy head b t inb_p str k
        ≡ some (on_screen k (show_text xs k.screen))
  unfolding shell_put_str do_syscall
  put_str_call str xs k c lt = rw (put_str-show_text xs fuel k.mem str k.screen c lt) refl

  run_file-Runs :
      (k : Kernel) (xs missing fs : List ℕ) (file_names : ℕ → List ℕ)
      → CString k.mem b.command xs
      → CString k.mem t.not_found missing
      → Ring k.files.links head fs
      → ((f : ℕ) → mem f fs ≡ true → CString k.mem (k.files.name f) (file_names f))
      → length fs < fuel
      → length xs < fuel
      → length missing < fuel
      → (f : ℕ) × Finds file_names xs fs f
        × Runs past k k.world f (run_file fuel past dummy head b t inb_p k)
  unfolding run_file do_syscall
  run_file-Runs k xs missing fs file_names c m ring texts lf lx lm =
      let (f, e, found) =
        fs_open_lem fuel fuel k.mem b.command head k.files file_names xs fs ring c texts lf lx in
      elim (Bool-cases (f == 0)) [
        | inl z ↦
            rw (e, ◌>>=◌, z, put_str_call t.not_found missing k m lm)
              (f, found, inl (ground arith, refl))
        | inr nz ↦
            rw (e, ◌>>=◌, nz)
              (
                f,
                found,
                inr (
                  ground arith,
                  map_some-after k (task_init past (k.files.data_base_addr f) k.world),
                ),
              )
      ]

  line_call :
      (k : Kernel) (r : Editing × List ℕ)
      → get_line fuel b.line max_line_size (codes k.keys) k.mem k.screen ≡ some r
      → do_syscall fuel past dummy head 8 b.line max_line_size 0 k ≡ some (read_line dummy k r)
  unfolding do_syscall
  line_call k r e = rw e refl

  shell_round-run_line :
      (k : Kernel) (r : Editing × List ℕ) (prompt : List ℕ)
      → CString k.mem t.prompt prompt
      → length prompt < fuel
      → get_line fuel b.line max_line_size (codes k.keys) k.mem (show_text prompt k.screen) ≡ some r
      → (r.0.i == 0) ≡ false
      → shell_round fuel past dummy head b t inb_p k
        ≡ run_line fuel past dummy head b t inb_p
            (read_line dummy (on_screen k (show_text prompt k.screen)).1 r).1
  unfolding shell_round
  shell_round-run_line k r prompt c lt e nz =
      let k1 = (on_screen k (show_text prompt k.screen)).1 in
      rw (put_str_call t.prompt prompt k c lt, ◌>>◌, ◌>>=◌, line_call k1 r e, ◌>>=◌, nz) refl

  run_line-run_file :
      (k : Kernel) (mem' : Memory)
      → str_get_first_entry fuel b.line b.command b.args k.mem ≡ some mem'
      → get_command_id mem' b.command ≡ command_num
      → run_line fuel past dummy head b t inb_p k
        ≡ run_file fuel past dummy head b t inb_p (record k { mem = mem' })
  unfolding run_line split run_command
  run_line-run_file k mem' e id = rw (e, ◌>>=◌, id) refl

-- When a line of 1 to 255 characters is typed whose first word is no command of the shell, one round of the
-- shell reads it, the task sleeping for the keyboard whenever no code is there, and then asks for the file
-- that the word names: if there is one, the round does what `task_init` does for the first of them, and if
-- there is none, the tasks and the tables stay as they are after the line. The files are a list, the
-- shell's buffers are apart, its texts and the files' names stand outside them, and there is fuel for each
-- loop.
pub shell_round-Runs :
    (fuel past dummy head : ℕ) (b : Buffers) (t : Texts) (inb_p : ℕ → ℕ) (k : Kernel)
    (line prompt missing fs : List ℕ) (file_names : ℕ → List ℕ)
    → Session fuel b t k line prompt missing
    → Files b head fuel k fs file_names
    → lookup (before_space (in_order line [])) names ≡ command_num
    → (l : Editing × List ℕ) × (get_line fuel b.line max_line_size
          (codes k.keys)
          k.mem
          (show_text prompt k.screen)
        ≡ some l)
      × (f : ℕ) × Finds file_names (before_space (in_order line [])) fs f
      × Runs past k (read_line dummy k l).1.world f (shell_round fuel past dummy head b t inb_p k)
shell_round-Runs fuel past dummy head b t inb_p k line prompt missing fs file_names v files
      no_command =
    let xs = in_order line [] in
    let len : length xs + 1 ≤ 256 = omega (arith, length-in_order line [], v.line_length) in
    let (r, read, l) =
      Returns-some
        (get_line fuel b.line max_line_size (codes k.keys) k.mem (show_text prompt k.screen))
        (get_line-edit (codes k.keys) line fuel b.line max_line_size k.mem
          (show_text prompt k.screen) (omega arith) (omega arith) v.keys
          (omega (arith, v.enough))) in
    let k2 = (read_line dummy (on_screen k (show_text prompt k.screen)).1 r).1 in
    let entered = Stored-CString line [] r.0.mem b.line l.stored v.chars l.nul in
    let (mem', cut, s) = Returns-some (str_get_first_entry fuel b.line b.command b.args r.0.mem) (
      str_get_first_entry-IsSplit xs fuel r.0.mem b.line b.command b.args entered
        (Apart-le b.line b.command b.args (length xs + 1) 256 len v.buffers)
        (omega (arith, v.enough))) in
    let same : Same b k.mem mem' = λ a e.
      s.frame a (Outside-le b.command (length xs + 1) 256 a len e.command)
        (Outside-le b.args (length xs + 1) 256 a len e.args)
      ∙ l.frame a e.line in
    let id = get_command_id-lookup (before_space xs) mem' b.command s.word ∙ no_command in
    let nz : (r.0.i == 0) ≡ false = ground (arith, l.count, v.line_length) in
    let (f, found, runs) =
      run_file-Runs fuel past dummy head b t inb_p (record k2 { mem = mem' }) (before_space xs)
        missing fs file_names s.word
        (Kept-CString b k.mem mem' t.not_found missing v.missing_text same) files.ring
        (λ f i. Kept-CString b k.mem mem' (k.files.name f) (file_names f) (files.texts f i) same)
        files.enough (omega (arith, length-before_space xs, v.enough)) (omega (arith, v.enough)) in
    (
      r,
      read,
      f,
      found,
      rw
          (
            shell_round-run_line fuel past dummy head b t inb_p k r prompt v.prompt_text.text
                (omega (arith, v.enough)) read nz,
            run_line-run_file fuel past dummy head b t inb_p k2 mem' cut id,
          )
          runs,
    )
