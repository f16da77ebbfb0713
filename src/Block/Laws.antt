-- ===== src/Block/Laws.antt =====
-- What the driver list of kernel/block_driver.c does.
use magical_os.Base.{
  ℕ, zero, suc, ◌+◌, ◌%◌, ◌^◌, ◌≡◌, refl, ap, ◌∙◌, ◌≢◌, true, false, none, List, [], ◌∷◌, arith,
  mem, Distinct, ne_of_mem,
}
use magical_os.Base.Int.{ℤ, pos}
use magical_os.Block.{Drivers, register_blk_driver, remove_loop, remove_blk_driver, blk_read_sector}

-- From `a` the links lead through the objects `xs` to `b`.
abbrev pub Leads : Drivers → ℕ → List ℕ → ℕ → Type 0
Leads d a [] b = d.next a ≡ b
Leads d a (x ∷ xs) b = (d.next a ≡ x) × Leads d x xs b

Leads-frame :
    (d d' : Drivers) (a b : ℕ) (xs : List ℕ)
    → ((q : ℕ) → mem q (a ∷ xs) ≡ true → d'.next q ≡ d.next q)
    → Leads d a xs b
    → Leads d' a xs b
Leads-frame d d' a b [] same c = same a (ground arith) ∙ c
Leads-frame d d' a b (x ∷ xs) same c =
    (same a (ground arith) ∙ c.0, Leads-frame d d' x b xs (λ q i. same q (ground arith)) c.1)

tail_frame :
    (d d' : Drivers) (a p b : ℕ) (xs : List ℕ)
    → ((q : ℕ) → mem q xs ≡ true → d'.next q ≡ d.next q)
    → d'.next p ≡ d.next a
    → Leads d a xs b
    → Leads d' p xs b
tail_frame d d' a p b [] same e c = e ∙ c
tail_frame d d' a p b (x ∷ xs) same e c = (e ∙ c.0, Leads-frame d d' x b xs same c.1)

-- Registering a driver with a fresh object puts the object first in the list, with the operations, and
-- keeps the drivers registered before and their order.
pub register_blk_driver_lem :
    (head p op : ℕ) (d : Drivers) (xs : List ℕ)
    → Leads d head xs head
    → Distinct (head ∷ xs)
    → mem p (head ∷ xs) ≡ false
    → Leads (register_blk_driver head p op d) head (p ∷ xs) head
      × ((register_blk_driver head p op d).op p ≡ op)
      × ((q : ℕ) → q ≢ p → (register_blk_driver head p op d).op q ≡ d.op q)
unfolding register_blk_driver
register_blk_driver_lem head p op d xs c dis out = (
  (
    ground arith,
    tail_frame d (register_blk_driver head p op d) head p head xs
        (λ q i. ground (arith, ne_of_mem q head xs i, ne_of_mem q p xs i)) (ground arith) c,
  ),
  ground arith,
  (λ q ne. ground arith),
)

remove_loop_stuck :
    (fuel head op p : ℕ) (d : Drivers)
    → p ≢ head
    → d.op p ≢ op
    → remove_loop fuel head op p d ≡ none
unfolding remove_loop
remove_loop_stuck zero head op p d far ne = refl
remove_loop_stuck (suc fuel) head op p d far ne =
    ground (arith, remove_loop_stuck fuel head op p d far ne)

-- `remove_blk_driver` never returns when the first driver of the list has other operations: the loop
-- stays at that driver, whatever the fuel.
pub remove_blk_driver_hangs :
    (head op : ℕ) (d : Drivers)
    → d.next head ≢ head
    → d.op (d.next head) ≢ op
    → (fuel : ℕ) → remove_blk_driver fuel head op d ≡ none
unfolding remove_blk_driver
remove_blk_driver_hangs head op d far ne fuel =
    remove_loop_stuck fuel head op (d.next head) d far ne

-- The data that reading the sectors one after the other leaves in one buffer.
abbrev pub last_sector : (ℕ → List ℕ) → ℕ → ℕ → List ℕ → List ℕ
last_sector disk sector zero out = out
last_sector disk sector (suc count) out = disk ((sector + count) % 2 ^ 32)

-- With a driver that reads every sector, `blk_read_sector` succeeds, and its buffer holds the last
-- sector alone: the `count` sectors are read over one another, their numbers modulo 2^32.
pub blk_read_sector_lem :
    (disk : ℕ → List ℕ) (read : ℕ → List ℕ → ℤ × List ℕ) (sector count : ℕ) (out : List ℕ)
    → ((s : ℕ) (b : List ℕ) → read s b ≡ (pos 0, disk s))
    → blk_read_sector read sector count out ≡ (pos 0, last_sector disk sector count out)
unfolding blk_read_sector
blk_read_sector_lem disk read sector zero out good = refl
blk_read_sector_lem disk read sector (suc zero) out good =
    let e : (sector + zero) % 2 ^ 32 ≡ sector % 2 ^ 32 = omega arith in
    rw (good (sector % 2 ^ 32) out, e) refl
blk_read_sector_lem disk read sector (suc (suc count)) out good =
    let e : ((sector + 1) % 2 ^ 32 + count) % 2 ^ 32 ≡ (sector + suc count) % 2 ^ 32 =
      omega arith in
    let rest =
      blk_read_sector_lem disk read ((sector + 1) % 2 ^ 32) (suc count) (disk (sector % 2 ^ 32))
        good in
    rw (good (sector % 2 ^ 32) out) (rest ∙ ap (λ n. (pos 0, disk n)) e)
