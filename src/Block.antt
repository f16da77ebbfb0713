-- ===== src/Block.antt =====
-- kernel/block_driver.c: the circular list of drivers behind `blk_drivers_head`. `next` and `op` are the
-- fields of the list's objects; an operations record is its address, and `name` gives its name's.
pub mod Laws
use magical_os.Base.{
  ℕ, zero, suc, ◌+◌, ◌%◌, ◌^◌, Bool, true, false, Option, none, some, List, [], ◌∷◌, ◌==◌,
  if◌then◌else◌, not, update,
}
use magical_os.Base.Int.{ℤ, pos, negsuc}
use magical_os.Bytes.{Memory}
use magical_os.Str.{strcmp}

pub record Drivers : Type 0 where
  pub next : ℕ → ℕ
  pub op : ℕ → ℕ

-- `p` is the object that `kmalloc` returned; it aborts instead of returning NULL.
unfoldable pub register_blk_driver : ℕ → ℕ → ℕ → Drivers → Drivers
register_blk_driver head p op d = record {
  op = update d.op p op;
  next = update (update d.next p (d.next head)) head p;
}

-- The loop, with `kfree`, which does nothing; `none` means that the fuel ran out.
remove_loop : ℕ → ℕ → ℕ → ℕ → Drivers → Option (Unit {0})
remove_loop zero head op p d = none
remove_loop (suc fuel) head op p d =
    let q = if not (d.op p == op) then p else d.next p in
    let rest = remove_loop fuel head op q d in if p == head then some tt else rest

unfoldable pub remove_blk_driver : ℕ → ℕ → ℕ → Drivers → Option (Unit {0})
unfolding remove_loop
remove_blk_driver fuel head op d = remove_loop fuel head op (d.next head) d

-- `!r`
abbrev pub is_zero : ℤ → Bool
is_zero (pos zero) = true
is_zero (pos (suc n)) = false
is_zero (negsuc n) = false

-- The driver whose name equals the string at `name`, or NULL (0).
get_loop : ℕ → ℕ → Memory → (ℕ → ℕ) → ℕ → ℕ → ℕ → Drivers → Option ℕ
get_loop zero k mem name_of head name p d = none
get_loop (suc fuel) k mem name_of head name p d =
    let rest = get_loop fuel k mem name_of head name (d.next p) d in
    if p == head then some 0 else elim (strcmp k mem (name_of (d.op p)) name) [
      | none ↦ none
      | some r ↦ if is_zero r then some p else rest
    ]

unfoldable pub get_blk_driver : ℕ → ℕ → Memory → (ℕ → ℕ) → ℕ → ℕ → Drivers → Option ℕ
unfolding get_loop
get_blk_driver fuel k mem name_of head name d =
    get_loop fuel k mem name_of head name (d.next head) d

-- `read` is the driver's operation: for a sector, the result and the data that it leaves in a buffer
-- that holds `out`. Every round reads into the same buffer. The sector is an `int` that the operation takes
-- as an unsigned number of 32 bits, so that its count wraps.
unfoldable pub blk_read_sector : (ℕ → List ℕ → ℤ × List ℕ) → ℕ → ℕ → List ℕ → ℤ × List ℕ
blk_read_sector read sector zero out = (pos 0, out)
blk_read_sector read sector (suc count) out =
    let (ret, out') = read (sector % 2 ^ 32) out in
    let rest = blk_read_sector read ((sector + 1) % 2 ^ 32) count out' in
    if is_zero ret then rest else (ret, out')
