-- ===== src/Memory/Free.antt =====
-- Free pages of the allocator of kernel/memory.c, counted.
use magical_os.Base.{
  ℕ, zero, suc, ◌+◌, ◌*◌, ◌%◌, ◌^◌, ◌<◌, ◌≡◌, refl, ◌≢◌, inl, inr, List, [], ◌∷◌, arith, ◌==◌, leb,
  if◌then◌else◌, get_or, set, length, Bool-cases,
}
use magical_os.Memory.{max_heap_pages, find_free, mem_alloc}
use magical_os.Memory.Alloc.{page_addr, find_free_lem, mem_alloc_lem}

abbrev pub free_pages : List ℕ → ℕ
free_pages [] = 0
free_pages (x ∷ xs) = (if x == 0 then 1 else 0) + free_pages xs

free_pages-full : (xs : List ℕ) → ((k : ℕ) → k < length xs → get_or xs k 0 ≢ 0) → free_pages xs ≡ 0
free_pages-full [] used = refl
free_pages-full (x ∷ xs) used =
    let rest = free_pages-full xs (λ k lt. used (suc k) (omega arith)) in
    ground (arith, used 0 (omega arith), rest)

free_pages-set :
    (xs : List ℕ) (i : ℕ)
    → i < length xs
    → get_or xs i 0 ≡ 0
    → free_pages (set xs i 1) + 1 ≡ free_pages xs
free_pages-set [] i lt e = elim lt [ ]
free_pages-set (x ∷ xs) zero lt e = ground arith
free_pages-set (x ∷ xs) (suc i) lt e = omega (arith, free_pages-set xs i (omega arith) e)

-- The page `i` is handed out.
pub record Grants (past : ℕ) (table : List ℕ) (i : ℕ) : Type 0 where
  pub bound : i < max_heap_pages
  pub was_free : get_or table i 0 ≡ 0
  pub result : mem_alloc past table ≡ (page_addr i, set table i 1)
  pub left : free_pages (set table i 1) + 1 ≡ free_pages table

-- While a page is free `mem_alloc` hands out a free one, and one less is free then.
pub mem_alloc-Grants :
    (past : ℕ) (table : List ℕ)
    → length table ≡ max_heap_pages
    → 0 < free_pages table
    → (i : ℕ) × Grants past table i
unfolding mem_alloc
mem_alloc-Grants past table e more =
    let i = find_free past table (max_heap_pages + 1) 0 in
    let s = find_free_lem past table (max_heap_pages + 1) 0 e (omega arith) (omega arith) in
    elim (Bool-cases (leb max_heap_pages i)) [
      | inl full ↦
          let none_free = free_pages-full table (λ k lt. s.used k (omega arith) (ground arith)) in
          absurd (omega arith)
      | inr free ↦
          let b : i < max_heap_pages = ground arith in
          let addr : (0x100000 + i * 0x1000) % 2 ^ 32 ≡ page_addr i = omega arith in
          (
            i,
            record {
              bound = b;
              was_free = s.free b;
              result = rw (free, addr) refl;
              left = free_pages-set table i (omega arith) (s.free b);
            },
          )
    ]

free_pages-none : (xs : List ℕ) (i : ℕ) → free_pages xs ≡ 0 → i < length xs → get_or xs i 0 ≢ 0
free_pages-none [] i e lt z = elim lt [ ]
free_pages-none (x ∷ xs) zero e lt z = ground arith
free_pages-none (x ∷ xs) (suc i) e lt z = free_pages-none xs i (omega arith) (omega arith) z

pub mem_alloc-null :
    (past : ℕ) (table : List ℕ)
    → length table ≡ max_heap_pages
    → free_pages table ≡ 0
    → mem_alloc past table ≡ (0, table)
mem_alloc-null past table e none_free = elim (mem_alloc_lem past table e) [
  | inl full ↦ full.0
  | inr some_page ↦ absurd (
      free_pages-none table some_page.0 none_free (omega (arith, some_page.1.bound))
        some_page.1.was_free)
]
