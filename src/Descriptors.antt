-- ===== src/Descriptors.antt =====
-- The descriptor tables: `intr_set_handler` of kernel/intr.c and `init_gdt` of kernel/cpu.c. Words have
-- 32 bits; fields of disjoint bits are joined by `+`, and a mask of low or high bits is `%` or `/`.
pub mod Laws
use magical_os.Base.{ℕ, ◌+◌, ◌*◌, ◌/◌, ◌%◌, ◌==◌, if◌then◌else◌, update}

-- INTR_NUM_USER128, the system call
abbrev pub intr_num_user128 : ℕ
intr_num_user128 = 0x80

-- The IDT as a memory of words.
unfoldable pub intr_set_handler : ℕ → ℕ → (ℕ → ℕ) → ℕ → ℕ
intr_set_handler intr_num handler_addr idt =
    let top = 0x80000 + handler_addr % 0x10000 in
    let bottom = handler_addr / 0x10000 * 0x10000 + 0x8e00 in
    let bottom' = if intr_num == intr_num_user128 then bottom + 3 * 0x2000 else bottom in
    update (update idt (intr_num * 2) top) (intr_num * 2 + 1) bottom'

-- The fields of `struct segment_descriptor` that `init_gdt` sets.
pub record Segment : Type 0 where
  pub limit0 : ℕ
  pub limit1 : ℕ
  pub base0 : ℕ
  pub base1 : ℕ
  pub base2 : ℕ
  pub dpl : ℕ
  pub kind : ℕ
  pub present : ℕ

unfoldable pub init_gdt : ℕ → ℕ → ℕ → ℕ → (ℕ → Segment) → ℕ → Segment
init_gdt idx base limit dpl gdt = update gdt idx (record {
  limit0 = limit % 0x10000;
  limit1 = limit / 0x10000 % 0x10;
  base0 = base % 0x10000;
  base1 = base / 0x10000 % 0x100;
  base2 = base / 0x1000000 % 0x100;
  dpl = dpl % 4;
  kind = 9;
  present = 1;
})
