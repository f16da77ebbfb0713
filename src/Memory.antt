-- ===== src/Memory.antt =====
-- The page allocator and `kmalloc` of kernel/memory.c. The table of the file is a list of its entries;
-- an address has 32 bits. `KERN_ABORT` does not return.
pub mod Alloc
pub mod Free
pub mod Kmalloc
use magical_os.Base.{
  ℕ, zero, suc, ◌+◌, ◌-◌, ◌*◌, ◌/◌, ◌%◌, ◌^◌, Bool, true, false, not, ◌&&◌, Option, none, some,
  List, ◌==◌, leb, ltb, if◌then◌else◌, get_or, set,
}

abbrev pub max_heap_pages : ℕ
max_heap_pages = 3584

abbrev pub heap_start_addr : ℕ
heap_start_addr = 0x100000

abbrev pub page_size : ℕ
page_size = 0x1000

-- `for (i = 0; table[i] && (i < MAX_HEAP_PAGES); i++)`: where the loop stops. The entry is read before
-- the bound is tested; `past` is the byte behind the table. More rounds than entries are enough.
unfoldable pub find_free : ℕ → List ℕ → ℕ → ℕ → ℕ
find_free past table zero i = i
find_free past table (suc rounds) i =
    let rest = find_free past table rounds (i + 1) in
    if not (get_or table i past == 0) && ltb i max_heap_pages then rest else i

-- The page, or NULL (0), and the table.
unfoldable pub mem_alloc : ℕ → List ℕ → ℕ × List ℕ
mem_alloc past table =
    let i = find_free past table (max_heap_pages + 1) 0 in
    if leb max_heap_pages i
    then (0, table)
    else ((heap_start_addr + i * page_size) % 2 ^ 32, set table i 1)

-- The index that `mem_free` computes in unsigned arithmetic.
abbrev pub page_index : ℕ → ℕ
page_index page = (page + 2 ^ 32 - heap_start_addr) % 2 ^ 32 / page_size

-- `none` is a write behind the table, which the code does not test for.
unfoldable pub mem_free : ℕ → List ℕ → Option (List ℕ)
mem_free page table =
    if ltb (page_index page) max_heap_pages then some (set table (page_index page) 0) else none

-- The static variables of `kmalloc` with the table.
pub record Pool : Type 0 where
  pub total : ℕ
  pub top : ℕ
  pub table : List ℕ

-- The first call takes a page; `none` is an abort.
take_page : ℕ → Pool → Option Pool
take_page past k =
    if not (k.top == 0)
    then some k
    else let (page, table) = mem_alloc past k.table in
      if page == 0 then none else some (record k { top = page; table = table })

take_bytes : ℕ → Pool → Option (ℕ × Pool)
take_bytes size k =
    let total = (k.total + size) % 2 ^ 32 in
    if ltb page_size total
    then none
    else some ((k.top + total + 2 ^ 32 - size) % 2 ^ 32, record k { total = total })

grant : ℕ → Option Pool → Option (ℕ × Pool)
grant size none = none
grant size (some k) = take_bytes size k

unfoldable pub kmalloc : ℕ → ℕ → Pool → Option (ℕ × Pool)
unfolding take_page take_bytes grant
kmalloc past size k = grant size (take_page past k)
