-- ===== src/Memory/Alloc.antt =====
-- The page allocator of kernel/memory.c hands out the lowest free page.
use magical_os.Base.{
  ℕ, zero, suc, ◌+◌, ◌*◌, ◌<◌, ◌≤◌, ◌≡◌, refl, ◌∙◌, ◌≢◌, ◌⊎◌, inl, inr, true, not, ◌&&◌, some, List,
  arith, ◌==◌, leb, ltb, get_or, set, length, Bool-cases, length-set, get_or-set_self,
  get_or-set_ne,
}
use magical_os.Memory.{
  max_heap_pages, heap_start_addr, page_size, find_free, mem_alloc, page_index, mem_free,
}

-- The page `i` is in use.
abbrev pub InUse : List ℕ → ℕ → Type 0
InUse table i = get_or table i 0 ≢ 0

-- The address of the page `i`.
abbrev pub page_addr : ℕ → ℕ
page_addr i = heap_start_addr + i * page_size

get_or-default : (xs : List ℕ) (i a b : ℕ) → i < length xs → get_or xs i a ≡ get_or xs i b
get_or-default List.[] i a b h = elim h [ ]
get_or-default (List.◌∷◌ x xs) zero a b h = refl
get_or-default (List.◌∷◌ x xs) (suc i) a b h = get_or-default xs i a b (omega arith)

-- The loop stops at the first free page or at the bound, and passes only pages in use.
pub record Stopped (table : List ℕ) (i j : ℕ) : Type 0 where
  pub up : i ≤ j
  pub bound : j ≤ max_heap_pages
  pub used : (k : ℕ) → i ≤ k → k < j → InUse table k
  pub free : j < max_heap_pages → get_or table j 0 ≡ 0

pub find_free_lem :
    (past : ℕ) (table : List ℕ) (rounds i : ℕ)
    → length table ≡ max_heap_pages
    → i ≤ max_heap_pages
    → max_heap_pages < i + rounds
    → Stopped table i (find_free past table rounds i)
unfolding find_free
find_free_lem past table zero i e le lt = absurd (omega arith)
find_free_lem past table (suc rounds) i e le lt =
    elim (Bool-cases (not (get_or table i past == 0) && ltb i max_heap_pages)) [
      | inl go ↦
          let d = get_or-default table i past 0 (ground arith) in
          let rec = find_free_lem past table rounds (i + 1) e (ground arith) (omega arith) in
          rw go (record {
            up = omega (arith, rec.up);
            bound = rec.bound;
            used = λ k l u. elim (Bool-cases (i == k)) [
              | inl same ↦ let s : k ≡ i = ground arith in rw s (ground (arith, d))
              | inr ne ↦ rec.used k (ground arith) u
            ];
            free = rec.free;
          })
      | inr stop ↦ rw stop (record {
        up = omega arith;
        bound = le;
        used = λ k l u. absurd (omega arith);
        free = λ l. ground (arith, get_or-default table i past 0 (omega arith));
      })
    ]

-- What `mem_alloc` returns: NULL and the same table when every page is in use, and otherwise the lowest
-- free page, which alone is marked as in use.
pub record Allocated (table : List ℕ) (i : ℕ) (r : ℕ × List ℕ) : Type 0 where
  pub bound : i < max_heap_pages
  pub page : r.0 ≡ page_addr i
  pub was_free : get_or table i 0 ≡ 0
  pub lowest : (k : ℕ) → k < i → InUse table k
  pub marked : InUse r.1 i
  pub same : (k : ℕ) → k ≢ i → get_or r.1 k 0 ≡ get_or table k 0
  pub size : length r.1 ≡ max_heap_pages

-- `mem_alloc` returns NULL and keeps the table when every page is in use; otherwise it returns the
-- address of the lowest free page, and marks this page and no other. The byte behind the table, which
-- the loop reads, makes no difference.
pub mem_alloc_lem :
    (past : ℕ) (table : List ℕ)
    → length table ≡ max_heap_pages
    → ((mem_alloc past table ≡ (0, table)) × ((k : ℕ) → k < max_heap_pages → InUse table k))
      ⊎ ((i : ℕ) × Allocated table i (mem_alloc past table))
unfolding mem_alloc
mem_alloc_lem past table e =
    let s = find_free_lem past table (max_heap_pages + 1) 0 e (omega arith) (omega arith) in
    let i = find_free past table (max_heap_pages + 1) 0 in
    elim (Bool-cases (leb max_heap_pages i)) [
      | inl full ↦ inl (rw full, (λ k l. s.used k (omega arith) (ground arith)))
      | inr free ↦
          let b : i < max_heap_pages = ground arith in
          inr (
            i,
            rw free (record {
              bound = b;
              page = omega arith;
              was_free = s.free b;
              lowest = λ k l. s.used k (omega arith) l;
              marked = λ z. ground (arith, get_or-set_self table i 1 0 (omega arith));
              same = λ k ne. get_or-set_ne table i k 1 0 (λ q. ne (ground arith));
              size = length-set table i 1 ∙ e;
            }),
          )
    ]

-- Freeing the page `i` clears its entry alone, and the index does not leave the table.
pub mem_free_lem :
    (table : List ℕ) (i : ℕ)
    → length table ≡ max_heap_pages
    → i < max_heap_pages
    → (mem_free (page_addr i) table ≡ some (set table i 0))
      × (get_or (set table i 0) i 0 ≡ 0)
      × ((k : ℕ) → k ≢ i → get_or (set table i 0) k 0 ≡ get_or table k 0)
unfolding mem_free
mem_free_lem table i e b =
    let x : page_index (page_addr i) ≡ i = omega arith in
    let t : ltb i max_heap_pages ≡ true = ground arith in
    (
      rw (x, t),
      get_or-set_self table i 0 0 (omega arith),
      (λ k ne. get_or-set_ne table i k 0 0 (λ q. ne (ground arith))),
    )
