-- ===== src/Memory/Kmalloc.antt =====
-- `kmalloc` of kernel/memory.c hands out consecutive parts of one page.
use mathlib.Core.Path.{ap₂}
use magical_os.Base.{
  ℕ, ◌+◌, ◌-◌, ◌%◌, ◌^◌, ◌<◌, ◌≤◌, ◌≡◌, ap, ◌∙◌, ◌≢◌, true, false, none, some, arith, ◌==◌, ltb,
}
use magical_os.Memory.{page_size, Pool, take_page, take_bytes, grant, kmalloc, mem_alloc}
use magical_os.Memory.Alloc.{Allocated, page_addr}

-- A page is taken, it does not wrap round the address space, and the bytes handed out lie in it.
pub record IsPool (k : Pool) : Type 0 where
  pub page : k.top ≢ 0
  pub room : k.top + page_size < 2 ^ 32
  pub used : k.total ≤ page_size

take_page_again : (past : ℕ) (k : Pool) → k.top ≢ 0 → take_page past k ≡ some k
unfolding take_page
take_page_again past k nz = let e : (k.top == 0) ≡ false = ground arith in rw e

kmalloc-take_bytes :
    (past size : ℕ) (k k' : Pool)
    → take_page past k ≡ some k'
    → kmalloc past size k ≡ take_bytes size k'
unfolding kmalloc
kmalloc-take_bytes past size k k' e = ap (grant size) e

take_bytes-fits :
    (size : ℕ) (k : Pool)
    → k.top + page_size < 2 ^ 32
    → k.total + size ≤ page_size
    → take_bytes size k ≡ some (k.top + k.total, record k { total = k.total + size })
unfolding take_bytes
take_bytes-fits size k room fits =
    let a : (k.total + size) % 2 ^ 32 ≡ k.total + size = omega arith in
    let b : ltb page_size (k.total + size) ≡ false = ground arith in
    let c : (k.top + (k.total + size) + 2 ^ 32 - size) % 2 ^ 32 ≡ k.top + k.total = omega arith in
    rw (a, b, c)

take_bytes-over :
    (size : ℕ) (k : Pool)
    → k.total + size < 2 ^ 32
    → page_size < k.total + size
    → take_bytes size k ≡ none
unfolding take_bytes
take_bytes-over size k small over =
    let a : (k.total + size) % 2 ^ 32 ≡ k.total + size = omega arith in
    let b : ltb page_size (k.total + size) ≡ true = ground arith in rw (a, b)

-- On a pool with a page, and a request whose sum with the bytes handed out does not wrap: if they fit in
-- the page, `kmalloc` returns the bytes behind those handed out before, and the pool keeps its bounds;
-- if not, it aborts.
pub kmalloc_lem :
    (past size : ℕ) (k : Pool)
    → IsPool k
    → k.total + size < 2 ^ 32
    → (k.total + size ≤ page_size
        → (kmalloc past size k ≡ some (k.top + k.total, record k { total = k.total + size }))
          × IsPool (record k { total = k.total + size }))
      × (page_size < k.total + size → kmalloc past size k ≡ none)
kmalloc_lem past size k v small =
    let again = kmalloc-take_bytes past size k k (take_page_again past k v.page) in
    (
      (λ fits. (
        again ∙ take_bytes-fits size k v.room fits,
        record { page = v.page; room = v.room; used = fits },
      )),
      (λ over. again ∙ take_bytes-over size k small over),
    )

take_page_first :
    (past i : ℕ) (k : Pool)
    → k.top ≡ 0
    → k.total ≡ 0
    → Allocated k.table i (mem_alloc past k.table)
    → take_page past k
      ≡ some (record { total = 0; top = page_addr i; table = (mem_alloc past k.table).1 })
unfolding take_page
take_page_first past i k z t a =
    let e : (k.top == 0) ≡ true = ground arith in
    let f : ((mem_alloc past k.table).0 == 0) ≡ false = ground (arith, a.page) in
    rw (e, f)
      (ap
        (λ (p : ℕ × ℕ).
          some (record { total = p.0; top = p.1; table = (mem_alloc past k.table).1 }))
        (λ j. (t j, a.page j)))

-- The first call takes a page of the allocator, and makes a pool that keeps its bounds.
pub kmalloc_first :
    (past size i : ℕ) (k : Pool)
    → k.top ≡ 0
    → k.total ≡ 0
    → size ≤ page_size
    → Allocated k.table i (mem_alloc past k.table)
    → (kmalloc past size k
        ≡ some (
          page_addr i,
          record { total = size; top = page_addr i; table = (mem_alloc past k.table).1 },
        ))
      × IsPool (record { total = size; top = page_addr i; table = (mem_alloc past k.table).1 })
kmalloc_first past size i k z t le a =
    let b = a.bound in
    let e1 : page_addr i + 0 ≡ page_addr i = omega arith in
    let e2 : 0 + size ≡ size = omega arith in
    let k' : Pool = record { total = 0; top = page_addr i; table = (mem_alloc past k.table).1 } in
    (
      kmalloc-take_bytes past size k k' (take_page_first past i k z t a)
          ∙ take_bytes-fits size k' (omega arith) (omega arith)
          ∙ ap₂ (λ x y. some (x, record k' { total = y })) e1 e2,
      record { page = omega arith; room = omega arith; used = le },
    )

-- A request that wraps the sum is granted, though it is larger than the page: the pool goes back by
-- `2 ^ 32 - size` bytes, so that the next requests get bytes that are in use.
pub kmalloc_wraps :
    (past size : ℕ) (k : Pool)
    → IsPool k
    → size < 2 ^ 32
    → 2 ^ 32 ≤ k.total + size
    → (kmalloc past size k ≡ some (k.top + k.total, record k { total = k.total + size - 2 ^ 32 }))
      × (k.total + size - 2 ^ 32 < k.total)
unfolding take_bytes
kmalloc_wraps past size k v lt wraps =
    let again = kmalloc-take_bytes past size k k (take_page_again past k v.page) in
    let a : (k.total + size) % 2 ^ 32 ≡ k.total + size - 2 ^ 32 = omega arith in
    let b : ltb page_size (k.total + size - 2 ^ 32) ≡ false = ground arith in
    let c : (k.top + (k.total + size - 2 ^ 32) + 2 ^ 32 - size) % 2 ^ 32 ≡ k.top + k.total =
      omega arith in
    (again ∙ rw (a, b, c), omega arith)
