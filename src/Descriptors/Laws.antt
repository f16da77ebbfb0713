-- ===== src/Descriptors/Laws.antt =====
-- The processor finds in the tables what was set.
use magical_os.Base.{ℕ, ◌+◌, ◌*◌, ◌/◌, ◌%◌, ◌^◌, ◌<◌, ◌≡◌, ◌≢◌, arith, ◌==◌, if◌then◌else◌}
use magical_os.Descriptors.{intr_num_user128, intr_set_handler, Segment, init_gdt}

-- The fields of a gate of the IDT: its two words are at `2 * num` and `2 * num + 1`.
abbrev pub gate_offset : ℕ → (ℕ → ℕ) → ℕ
gate_offset num idt = idt (num * 2) % 0x10000 + idt (num * 2 + 1) / 0x10000 * 0x10000

abbrev pub gate_selector : ℕ → (ℕ → ℕ) → ℕ
gate_selector num idt = idt (num * 2) / 0x10000

abbrev pub gate_dpl : ℕ → (ℕ → ℕ) → ℕ
gate_dpl num idt = idt (num * 2 + 1) / 0x2000 % 4

abbrev pub gate_present : ℕ → (ℕ → ℕ) → ℕ
gate_present num idt = idt (num * 2 + 1) / 0x8000 % 2

abbrev pub gate_type : ℕ → (ℕ → ℕ) → ℕ
gate_type num idt = idt (num * 2 + 1) / 0x100 % 0x20

-- The gate that is set points to the handler in the kernel's code segment, is a present interrupt gate,
-- and may be called by programs exactly for the system call; no word of another gate changes.
pub intr_set_handler_lem :
    (num addr : ℕ) (idt : ℕ → ℕ)
    → addr < 2 ^ 32
    → (gate_offset num (intr_set_handler num addr idt) ≡ addr)
      × (gate_selector num (intr_set_handler num addr idt) ≡ 8)
      × (gate_dpl num (intr_set_handler num addr idt) ≡ (if num == intr_num_user128 then 3 else 0))
      × (gate_present num (intr_set_handler num addr idt) ≡ 1)
      × (gate_type num (intr_set_handler num addr idt) ≡ 0xe)
      × ((a : ℕ) → a / 2 ≢ num → intr_set_handler num addr idt a ≡ idt a)
unfolding intr_set_handler
intr_set_handler_lem num addr idt lt =
    (ground arith, ground arith, ground arith, ground arith, ground arith, (λ a far. ground arith))

-- The segment that is set has the base and the limit of 20 bits that were given, and no other segment
-- changes.
pub init_gdt_lem :
    (idx base limit dpl : ℕ) (gdt : ℕ → Segment)
    → base < 2 ^ 32
    → limit < 2 ^ 20
    → ((init_gdt idx base limit dpl gdt idx).base0
          + (init_gdt idx base limit dpl gdt idx).base1 * 0x10000
          + (init_gdt idx base limit dpl gdt idx).base2 * 0x1000000
        ≡ base)
      × ((init_gdt idx base limit dpl gdt idx).limit0
            + (init_gdt idx base limit dpl gdt idx).limit1 * 0x10000
          ≡ limit)
      × ((j : ℕ) → j ≢ idx → init_gdt idx base limit dpl gdt j ≡ gdt j)
unfolding init_gdt
init_gdt_lem idx base limit dpl gdt lb ll = (ground arith, ground arith, (λ j ne. ground arith))
