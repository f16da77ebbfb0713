-- ===== src/Fs.antt =====
-- kernel/fs.c: the list of the two files, and the search by name. `fhead`, `fshell` and `fuptime` are the
-- addresses of the file's objects; `name` and `data_base_addr` are fields of `struct file`. The search runs
-- on fuel, `fuel` rounds of its loop and `k` of each comparison.
pub mod Laws
use magical_os.Base.{ℕ, zero, suc, ◌+◌, ◌*◌, Option, none, some, ◌==◌, if◌then◌else◌, update}
use magical_os.Links.{Links}
use magical_os.Bytes.{Memory}
use magical_os.Queue.{queue_init, queue_enq}
use magical_os.Common.{str_compare}
use magical_os.Memory.{page_size}
use magical_os.Block.{is_zero}

pub record FileSystem : Type 0 where
  pub links : Links
  pub num_files : ℕ
  pub name : ℕ → ℕ
  pub data_base_addr : ℕ → ℕ

-- One file: its name stands at the start of the page, its data 32 bytes behind it.
unfoldable pub add_file : (file fhead page : ℕ) → FileSystem → FileSystem
add_file file fhead page s = record s {
  links = queue_enq file fhead s.links;
  name = update s.name file page;
  data_base_addr = update s.data_base_addr file (page + 32);
}

unfoldable pub fs_init : (fhead fshell fuptime fs_base_addr : ℕ) → Memory → FileSystem → FileSystem
fs_init fhead fshell fuptime fs_base_addr mem s =
    let s1 = record s { links = queue_init fhead s.links; num_files = mem fs_base_addr } in
    let s2 = add_file fshell fhead (fs_base_addr + page_size) s1 in
    add_file fuptime fhead (fs_base_addr + page_size * 2) s2

-- The loop, from the file `f` on.
unfoldable pub open_from : (fuel k : ℕ) → Memory → (name fhead f : ℕ) → FileSystem → Option ℕ
open_from zero k mem name fhead f s = none
open_from (suc fuel) k mem name fhead f s =
    let rest = open_from fuel k mem name fhead (s.links.next f) s in
    if f == fhead then some 0 else elim (str_compare k mem name (s.name f)) [
      | none ↦ none
      | some r ↦ if is_zero r then some f else rest
    ]

-- The file with this name, or NULL (0).
unfoldable pub fs_open : (fuel k : ℕ) → Memory → (name fhead : ℕ) → FileSystem → Option ℕ
fs_open fuel k mem name fhead s = open_from fuel k mem name fhead (s.links.next fhead) s
