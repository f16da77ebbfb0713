-- ===== src/Task/Walk.antt =====
-- How the processor finds a page, and what the loops of `task_init` leave in the entries.
use magical_os.Base.{
  ℕ, zero, suc, ◌+◌, ◌-◌, ◌*◌, ◌/◌, ◌%◌, ◌<◌, ◌≤◌, ◌≡◌, refl, ◌⊎◌, inl, inr, Option, none, some,
  false, arith, ltb, ◌==◌, if◌then◌else◌, update, Bool-cases,
}
use magical_os.Task.{clear_words, kernel_entry, user_entry, init_task_directory, init_task_table}

-- The address of `v` in the page of the table's entry `pte`.
abbrev pub page_of : ℕ → ℕ → Option ℕ
page_of pte v = if pte % 2 == 0 then none else some (pte / 0x1000 * 0x1000 + v % 0x1000)

-- The address that the processor reads for the address `v` under the page directory at `pd`.
abbrev pub walk : (ℕ → ℕ) → ℕ → ℕ → Option ℕ
walk words pd v =
    let pde = words (pd + v / 0x400000 * 4) in
    if pde % 2 == 0
    then none
    else page_of (words (pde / 0x1000 * 0x1000 + v / 0x1000 % 0x400 * 4)) v

pub walk-none :
    (words : ℕ → ℕ) (pd v : ℕ) → words (pd + v / 0x400000 * 4) ≡ 0 → walk words pd v ≡ none
walk-none words pd v e = rw e refl

pub walk-table :
    (words : ℕ → ℕ) (pd v pde : ℕ)
    → words (pd + v / 0x400000 * 4) ≡ pde
    → (pde % 2 == 0) ≡ false
    → walk words pd v ≡ page_of (words (pde / 0x1000 * 0x1000 + v / 0x1000 % 0x400 * 4)) v
walk-table words pd v pde e odd = rw (e, odd) refl

pub clear_words-out :
    (n a : ℕ) (words : ℕ → ℕ) (p : ℕ)
    → (p < a) ⊎ (a + n * 4 ≤ p)
    → clear_words n a words p ≡ words p
unfolding clear_words
clear_words-out zero a words p out = refl
clear_words-out (suc n) a words p out =
    ground (arith, clear_words-out n (a + 4) (update words a 0) p (ground arith))

pub clear_words-in :
    (n a : ℕ) (words : ℕ → ℕ) (i : ℕ) → i < n → clear_words n a words (a + i * 4) ≡ 0
unfolding clear_words
clear_words-in zero a words i lt = elim lt [ ]
clear_words-in (suc n) a words zero lt =
    let e : a + zero * 4 ≡ a = omega arith in
    let out = clear_words-out n (a + 4) (update words a 0) a (inl (omega arith)) in
    rw e (ground (arith, out))
clear_words-in (suc n) a words (suc i) lt =
    let e : a + suc i * 4 ≡ a + 4 + i * 4 = omega arith in
    rw e (clear_words-in n (a + 4) (update words a 0) i (omega arith))

pub clear_words-at :
    (n a : ℕ) (words : ℕ → ℕ) (p i : ℕ) → p ≡ a + i * 4 → i < n → clear_words n a words p ≡ 0
clear_words-at n a words p i e lt = rw e (clear_words-in n a words i lt)

-- The directory's entry `k`.
abbrev pub directory_entry : ℕ → ℕ → ℕ
directory_entry pt k =
    if k == 0 then kernel_entry 0x90 else if k == 0x80 then user_entry (pt / 0x1000) else 0

pub init_task_directory-entry :
    (pd pt : ℕ) (words : ℕ → ℕ) (k : ℕ)
    → k < 0x400
    → init_task_directory pd pt words (pd + k * 4) ≡ directory_entry pt k
unfolding init_task_directory
init_task_directory-entry pd pt words k lt =
    let w1 = update words pd (kernel_entry 0x90) in
    let w2 = clear_words (0x80 - 1) (pd + 4) w1 in
    let w3 = update w2 (pd + 0x80 * 4) (user_entry (pt / 0x1000)) in
    elim (Bool-cases (ltb 0x80 k)) [
      | inl above ↦
          let z =
            clear_words-at (0x400 - 0x80) (pd + 0x81 * 4) w3 (pd + k * 4) (k - 0x81) (ground arith)
              (ground arith) in
          ground (arith, z)
      | inr below ↦
          let a =
            clear_words-out (0x400 - 0x80) (pd + 0x81 * 4) w3 (pd + k * 4) (inl (ground arith)) in
          elim (Bool-cases (k == 0)) [
            | inl first ↦
                let b = clear_words-out (0x80 - 1) (pd + 4) w1 (pd + k * 4) (inl (ground arith)) in
                ground (arith, a, b)
            | inr behind ↦ elim (Bool-cases (k == 0x80)) [
              | inl last ↦ ground (arith, a)
              | inr between ↦
                  let z =
                    clear_words-at (0x80 - 1) (pd + 4) w1 (pd + k * 4) (k - 1) (ground arith)
                      (ground arith) in
                  ground (arith, a, z)
            ]
          ]
    ]

-- Past its page, the directory's loop clears one word.
pub init_task_directory-out :
    (pd pt : ℕ) (words : ℕ → ℕ) (p : ℕ)
    → (p < pd) ⊎ (pd + 0x1004 ≤ p)
    → init_task_directory pd pt words p ≡ words p
unfolding init_task_directory
init_task_directory-out pd pt words p out =
    let w1 = update words pd (kernel_entry 0x90) in
    let w2 = clear_words (0x80 - 1) (pd + 4) w1 in
    let w3 = update w2 (pd + 0x80 * 4) (user_entry (pt / 0x1000)) in
    let a = clear_words-out (0x80 - 1) (pd + 4) w1 p (ground arith) in
    let b = clear_words-out (0x400 - 0x80) (pd + 0x81 * 4) w3 p (ground arith) in
    ground (arith, a, b)

-- The directory's 1024 entries are those of the kernel's table, of the task's table and empty ones; the
-- word behind the page is cleared too; no other word changes.
pub init_task_directory_lem :
    (pd pt : ℕ) (words : ℕ → ℕ)
    → ((k : ℕ) → k < 0x400 → init_task_directory pd pt words (pd + k * 4) ≡ directory_entry pt k)
      × (init_task_directory pd pt words (pd + 0x1000) ≡ 0)
      × ((p : ℕ) → (p < pd) ⊎ (pd + 0x1004 ≤ p) → init_task_directory pd pt words p ≡ words p)
unfolding init_task_directory
init_task_directory_lem pd pt words = (
  init_task_directory-entry pd pt words,
  clear_words-at (0x400 - 0x80) (pd + 0x81 * 4) _ (pd + 0x1000) 0x37f (omega arith) (omega arith),
  init_task_directory-out pd pt words,
)

-- The entry `k` of the table.
abbrev pub table_entry : ℕ → ℕ → ℕ → ℕ
table_entry file stack k =
    if k == 0 then user_entry (file / 0x1000) else if k == 1 then user_entry (stack / 0x1000) else 0

pub init_task_table-entry :
    (pt file stack : ℕ) (words : ℕ → ℕ) (k : ℕ)
    → k < 0x400
    → init_task_table pt file stack words (pt + k * 4) ≡ table_entry file stack k
unfolding init_task_table
init_task_table-entry pt file stack words k lt =
    let w1 = update words pt (user_entry (file / 0x1000)) in
    let w2 = update w1 (pt + 4) (user_entry (stack / 0x1000)) in
    elim (Bool-cases (ltb 1 k)) [
      | inl above ↦
          let z =
            clear_words-at (0x400 - 2) (pt + 8) w2 (pt + k * 4) (k - 2) (ground arith)
              (ground arith) in
          ground (arith, z)
      | inr below ↦
          let a = clear_words-out (0x400 - 2) (pt + 8) w2 (pt + k * 4) (inl (ground arith)) in
          ground (arith, a)
    ]

pub init_task_table-out :
    (pt file stack : ℕ) (words : ℕ → ℕ) (p : ℕ)
    → (p < pt) ⊎ (pt + 0x1000 ≤ p)
    → init_task_table pt file stack words p ≡ words p
unfolding init_task_table
init_task_table-out pt file stack words p out =
    let w1 = update words pt (user_entry (file / 0x1000)) in
    let w2 = update w1 (pt + 4) (user_entry (stack / 0x1000)) in
    let a = clear_words-out (0x400 - 2) (pt + 8) w2 p (ground arith) in ground (arith, a)
