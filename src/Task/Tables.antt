-- ===== src/Task/Tables.antt =====
-- The addresses that a task has.
use magical_os.Base.{
  ℕ, ◌+◌, ◌*◌, ◌/◌, ◌%◌, ◌^◌, ◌<◌, ◌≤◌, ◌≡◌, ◌≢◌, refl, ap, sym, ◌∙◌, inl, inr, Option, none, some,
  arith, ◌==◌, if◌then◌else◌, Bool-cases,
}
use magical_os.Task.{kernel_entry, user_entry, init_task_directory, init_task_table}
use magical_os.Task.Walk.{
  page_of, walk, walk-none, walk-table, directory_entry, table_entry, init_task_directory-entry,
  init_task_directory-out, init_task_table-entry, init_task_table-out,
}

-- The memory after both tables are written.
abbrev pub tables : ℕ → ℕ → ℕ → ℕ → (ℕ → ℕ) → ℕ → ℕ
tables pd pt file stack words = init_task_table pt file stack (init_task_directory pd pt words)

-- The pages of the two tables are two.
pub record ArePages (pd pt : ℕ) : Type 0 where
  pub pd_aligned : pd % 0x1000 ≡ 0
  pub pt_aligned : pt % 0x1000 ≡ 0
  pub apart : pd ≢ pt

-- The two pages of a task, from 0x20000000 on: that of the file, and that of the stack.
abbrev pub task_page : ℕ → ℕ → ℕ → Option ℕ
task_page file stack v =
    if v / 0x1000 == 0x20000
    then some (file / 0x1000 * 0x1000 + v % 0x1000)
    else if v / 0x1000 == 0x20001
    then some (stack / 0x1000 * 0x1000 + v % 0x1000)
    else none

read_directory :
    (pd pt file stack : ℕ) (words : ℕ → ℕ) (k : ℕ)
    → ArePages pd pt
    → k < 0x400
    → tables pd pt file stack words (pd + k * 4) ≡ directory_entry pt k
read_directory pd pt file stack words k v lt =
    let out =
      init_task_table-out pt file stack (init_task_directory pd pt words) (pd + k * 4)
        (ground (arith, v.pd_aligned, v.pt_aligned, v.apart)) in
    ground (arith, out, init_task_directory-entry pd pt words k lt)

page_of-entry :
    (file stack v : ℕ)
    → v / 0x400000 ≡ 0x80
    → page_of (table_entry file stack (v / 0x1000 % 0x400)) v ≡ task_page file stack v
page_of-entry file stack v e = ground arith

-- Under the tables that `task_init` writes, the addresses from 4 MB on are those of two pages, and no
-- other address is there.
pub tables-walk :
    (pd pt file stack : ℕ) (words : ℕ → ℕ) (v : ℕ)
    → ArePages pd pt
    → 0x400000 ≤ v
    → v < 2 ^ 32
    → walk (tables pd pt file stack words) pd v ≡ task_page file stack v
tables-walk pd pt file stack words v pages low high =
    let k = v / 0x400000 in
    let pde = read_directory pd pt file stack words k pages (omega arith) in
    elim (Bool-cases (k == 0x80)) [
      | inl app ↦
          let entry : tables pd pt file stack words (pd + k * 4) ≡ user_entry (pt / 0x1000) =
            ground (arith, pde) in
          let at : user_entry (pt / 0x1000) / 0x1000 * 0x1000 ≡ pt =
            omega (arith, pages.pt_aligned) in
          let pte =
            init_task_table-entry pt file stack (init_task_directory pd pt words)
              (v / 0x1000 % 0x400) (omega arith) in
          let through =
            walk-table (tables pd pt file stack words) pd v (user_entry (pt / 0x1000)) entry
              (ground arith) in
          through ∙ rw (at, pte) (page_of-entry file stack v (ground arith))
      | inr other ↦
          let nothing : tables pd pt file stack words (pd + k * 4) ≡ 0 = ground (arith, pde) in
          let outside : task_page file stack v ≡ none = ground arith in
          walk-none (tables pd pt file stack words) pd v nothing ∙ sym outside
    ]

-- Below 4 MB a task has the kernel's addresses: its directory has the entry of the kernel's, which is at
-- 0x8f000, and the kernel's table at 0x90000 stays as it is.
pub tables-kernel :
    (pd pt file stack : ℕ) (words : ℕ → ℕ) (v : ℕ)
    → ArePages pd pt
    → 0x100000 ≤ pd
    → 0x100000 ≤ pt
    → words 0x8f000 ≡ kernel_entry 0x90
    → v < 0x400000
    → walk (tables pd pt file stack words) pd v ≡ walk words 0x8f000 v
tables-kernel pd pt file stack words v pages pd_high pt_high e lt =
    let pde = read_directory pd pt file stack words (v / 0x400000) pages (omega arith) in
    let entry : tables pd pt file stack words (pd + v / 0x400000 * 4) ≡ kernel_entry 0x90 =
      ground (arith, pde) in
    let first : 0x8f000 + v / 0x400000 * 4 ≡ 0x8f000 = omega arith in
    let kernel : words (0x8f000 + v / 0x400000 * 4) ≡ kernel_entry 0x90 = rw first e in
    let place = kernel_entry 0x90 / 0x1000 * 0x1000 + v / 0x1000 % 0x400 * 4 in
    let low : place < 0x100000 = omega arith in
    let a =
      init_task_table-out pt file stack (init_task_directory pd pt words) place
        (inl (omega arith)) in
    let b = init_task_directory-out pd pt words place (inl (omega arith)) in
    walk-table (tables pd pt file stack words) pd v (kernel_entry 0x90) entry refl
    ∙ ap (λ w. page_of w v) (a ∙ b)
    ∙ sym (walk-table words 0x8f000 v (kernel_entry 0x90) kernel refl)
