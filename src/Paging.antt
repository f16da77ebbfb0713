-- ===== src/Paging.antt =====
-- The kernel's page directory and page table, as `mem_init` of kernel/memory.c fills them. A memory of
-- 32-bit entries is a function from the index of an entry; the bit-fields of an entry are written as
-- the sum of the bits that are set and the page in the upper 20 bits.
pub mod Laws
use magical_os.Base.{ℕ, zero, suc, ◌+◌, ◌-◌, ◌*◌, update}

abbrev pub Entries : Type 0
Entries = ℕ → ℕ

-- Bits of `struct page_table_entry` and `struct page_directory_entry`: p and r_w; pwt and pcd; g.
abbrev pub present_write : ℕ
present_write = 0x3

abbrev pub cache_off : ℕ
cache_off = 0x18

abbrev pub global_page : ℕ
global_page = 0x100

abbrev pub entry : ℕ → ℕ → ℕ
entry page flags = page * 0x1000 + flags

-- `for (...) { pte->all = 0; pte++; }`: `n` entries from the index `i` on.
unfoldable pub clear_entries : ℕ → ℕ → Entries → Entries
clear_entries zero i t = t
clear_entries (suc n) i t = clear_entries n (i + 1) (update t i 0)

-- `n` entries from the index `i` on, with the pages from `base` on.
unfoldable pub map_entries : ℕ → ℕ → ℕ → ℕ → Entries → Entries
map_entries zero i base flags t = t
map_entries (suc n) i base flags t =
    map_entries n (i + 1) (base + 1) flags (update t i (entry base flags))

-- The page directory at 0x8f000: its first entry points to the page table.
unfoldable pub init_directory : Entries → Entries
init_directory d = clear_entries 0x3ff 1 (update d 0 (entry 0x90 present_write))

-- The loops over the entries from 0x90000 on. `i` runs from one loop to the next.
unfoldable pub init_table : Entries → Entries
init_table t =
    let t1 = clear_entries 0x7 0 t in
    let t2 = map_entries (0x86 - 0x7) 0x7 0x7 (present_write + global_page) t1 in
    let t3 = clear_entries (0x95 - 0x86) 0x86 t2 in
    let t4 = map_entries (0xa0 - 0x95) 0x95 0x95 (present_write + global_page) t3 in
    let t5 = clear_entries (0xb8 - 0xa0) 0xa0 t4 in
    let t6 = map_entries (0xc0 - 0xb8) 0xb8 0xb8 (present_write + cache_off + global_page) t5 in
    let t7 = clear_entries (0x100 - 0xc0) 0xc0 t6 in
    let t8 = map_entries (0xeff - 0x100) 0x100 0x100 (present_write + global_page) t7 in
    clear_entries (0x40000 - 0xeff) 0xeff t8
