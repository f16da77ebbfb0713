-- ===== src/Paging/Laws.antt =====
-- What the tables of `mem_init` map: the identity on four ranges of pages.
use magical_os.Base.{
  ℕ, zero, suc, ◌+◌, ◌-◌, ◌/◌, ◌%◌, ◌<◌, ◌≡◌, ◌↔◌, Bool, ◌&&◌, ◌||◌, arith, ◌==◌, leb, ltb,
  if◌then◌else◌, update,
}
use magical_os.Memory.{max_heap_pages, page_size}
use magical_os.Memory.Alloc.{page_addr}
use magical_os.Paging.{
  Entries, present_write, cache_off, global_page, entry, clear_entries, map_entries, init_directory,
  init_table,
}

abbrev pub between : ℕ → ℕ → ℕ → Bool
between a lo n = leb lo a && ltb a (lo + n)

clear_entries_lem :
    (n i : ℕ) (t : Entries) (a : ℕ) → clear_entries n i t a ≡ (if between a i n then 0 else t a)
unfolding clear_entries
clear_entries_lem zero i t a = ground arith
clear_entries_lem (suc n) i t a = ground (arith, clear_entries_lem n (i + 1) (update t i 0) a)

map_entries_lem :
    (n i base flags : ℕ) (t : Entries) (a : ℕ)
    → map_entries n i base flags t a ≡ (if between a i n then entry (base + (a - i)) flags else t a)
unfolding map_entries
map_entries_lem zero i base flags t a = ground arith
map_entries_lem (suc n) i base flags t a =
    ground (arith, map_entries_lem n (i + 1) (base + 1) flags (update t i (entry base flags)) a)

-- The entry that each index is meant to have: a page of the kernel, its heap below 1 MiB or the heap
-- above it; a page of the video memory, not cached; or nothing.
abbrev pub mapped : ℕ → ℕ
mapped a =
    if between a 0x7 0x7f || between a 0x95 0xb || between a 0x100 0xdff
    then entry a (present_write + global_page)
    else if between a 0xb8 0x8
    then entry a (present_write + cache_off + global_page)
    else 0

-- `mem_init` writes the first 0x40000 entries from 0x90000 on and no other, and maps the pages 0x7 to
-- 0x85, 0x95 to 0x9f, 0xb8 to 0xbf and 0x100 to 0xefe to themselves.
pub init_table_lem :
    (t : Entries) (a : ℕ) → init_table t a ≡ (if ltb a 0x40000 then mapped a else t a)
unfolding init_table
init_table_lem t a = simp (clear_entries_lem, map_entries_lem) (ground arith)

-- The page directory that `mem_init` leaves has one entry, for the page table at 0x90000; the other
-- 1023 are empty.
pub init_directory_lem :
    (d : Entries) (a : ℕ)
    → init_directory d a
      ≡ (if a == 0 then entry 0x90 present_write else if ltb a 0x400 then 0 else d a)
unfolding init_directory
init_directory_lem d a = simp clear_entries_lem (ground arith)

-- How the processor finds the entry of an address without PAE: the upper 10 bits choose the directory
-- entry, the next 10 bits the entry of the page table.
abbrev pub Reaches : Entries → ℕ → Type 0
Reaches d addr = d (addr / 0x400000) % 2 ≡ 1

-- Of the heap pages that the allocator hands out, the directory reaches the first 768 only: an
-- address of a later one has an empty directory entry, though `mem_init` wrote an entry for it.
pub heap_reached :
    (d : Entries) (i : ℕ)
    → i < max_heap_pages
    → Reaches (init_directory d) (page_addr i) ↔ (i < 768)
heap_reached d i lt =
    let l = init_directory_lem d (page_addr i / 0x400000) in
    ((λ r. ground (arith, l)), (λ h. ground (arith, l)))

-- Every heap page of the allocator but the last has an entry that maps it to itself; the entry of the
-- last one is empty.
pub heap_entries :
    (t : Entries) (i : ℕ)
    → i < max_heap_pages
    → init_table t (page_addr i / page_size)
      ≡ (if i == max_heap_pages - 1 then 0 else page_addr i + present_write + global_page)
heap_entries t i lt = rw init_table_lem (ground arith)
