-- ===== src/Task/Pages.antt =====
-- The pages that a new task takes.
use magical_os.Base.{
  ℕ, ◌+◌, ◌<◌, ◌≤◌, ◌≡◌, ◌≢◌, ◌∙◌, List, arith, get_or, get_or-set_ne, get_or-set_self, set, length,
  length-set,
}
use magical_os.Memory.{max_heap_pages, mem_alloc}
use magical_os.Memory.Alloc.{page_addr}
use magical_os.Memory.Free.{free_pages, mem_alloc-Grants}

-- The pages that four calls of `mem_alloc` give, by their number, and the table after each.
pub record Taken (past : ℕ) (table : List ℕ) : Type 0 where
  pub pd : ℕ
  pub pt : ℕ
  pub task : ℕ
  pub stack : ℕ
  pub table1 : List ℕ
  pub table2 : List ℕ
  pub table3 : List ℕ
  pub after : List ℕ
  pub first : mem_alloc past table ≡ (page_addr pd, table1)
  pub second : mem_alloc past table1 ≡ (page_addr pt, table2)
  pub third : mem_alloc past table2 ≡ (page_addr task, table3)
  pub fourth : mem_alloc past table3 ≡ (page_addr stack, after)
  pub in_heap :
      (pd < max_heap_pages)
      × (pt < max_heap_pages)
      × (task < max_heap_pages)
      × (stack < max_heap_pages)
  pub free :
      (get_or table pd 0 ≡ 0)
      × (get_or table pt 0 ≡ 0)
      × (get_or table task 0 ≡ 0)
      × (get_or table stack 0 ≡ 0)
  pub apart : (pd ≢ pt) × (pd ≢ task) × (pd ≢ stack) × (pt ≢ task) × (pt ≢ stack) × (task ≢ stack)
  pub left : free_pages after + 4 ≡ free_pages table

-- A page that is free after `i` was taken is another one, and was free.
free_before :
    (table : List ℕ) (i j : ℕ)
    → i < length table
    → get_or (set table i 1) j 0 ≡ 0
    → (i ≢ j) × (get_or table j 0 ≡ 0)
free_before table i j lt e =
    let other : i ≢ j = λ same. ground (arith, get_or-set_self table i 1 0 lt) in
    (other, ground (arith, get_or-set_ne table i j 1 0 other))

pub take_pages :
    (past : ℕ) (table : List ℕ)
    → length table ≡ max_heap_pages
    → 4 ≤ free_pages table
    → Taken past table
take_pages past table size more =
    let (a, g) = mem_alloc-Grants past table size (omega arith) in
    let t1 = set table a 1 in
    let s1 = length-set table a 1 ∙ size in
    let (b, h) = mem_alloc-Grants past t1 s1 (omega (arith, g.left)) in
    let t2 = set t1 b 1 in
    let s2 = length-set t1 b 1 ∙ s1 in
    let (c, k) = mem_alloc-Grants past t2 s2 (omega (arith, g.left, h.left)) in
    let t3 = set t2 c 1 in
    let s3 = length-set t2 c 1 ∙ s2 in
    let (d, l) = mem_alloc-Grants past t3 s3 (omega (arith, g.left, h.left, k.left)) in
    let b0 = free_before table a b (omega (arith, g.bound)) h.was_free in
    let c1 = free_before t1 b c (omega (arith, h.bound)) k.was_free in
    let c0 = free_before table a c (omega (arith, g.bound)) c1.1 in
    let d2 = free_before t2 c d (omega (arith, k.bound)) l.was_free in
    let d1 = free_before t1 b d (omega (arith, h.bound)) d2.1 in
    let d0 = free_before table a d (omega (arith, g.bound)) d1.1 in
    record {
      pd = a;
      pt = b;
      task = c;
      stack = d;
      table1 = t1;
      table2 = t2;
      table3 = t3;
      after = set t3 d 1;
      first = g.result;
      second = h.result;
      third = k.result;
      fourth = l.result;
      in_heap = (g.bound, h.bound, k.bound, l.bound);
      free = (g.was_free, b0.1, c0.1, d0.1);
      apart = (b0.0, c0.0, d0.0, c1.0, d1.0, d2.0);
      left = omega (arith, g.left, h.left, k.left, l.left);
    }
