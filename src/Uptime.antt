-- ===== src/Uptime.antt =====
-- apps/uptime.c: one round of the loop of `uptime_start`. `text` is the address of "uptime:".
pub mod Laws
use Prim.Native.Nat.{bit_or}
use magical_os.Base.{ℕ, ◌+◌, ◌-◌, ◌*◌, ◌/◌, ◌%◌, ◌^◌, Option, none, some, ltb, if◌then◌else◌}
use magical_os.Screen.{rows, columns}
use magical_os.Syscall.{Kernel, M, ◌>>=◌, ◌>>◌, do_syscall}

-- `((COLUMNS - 4) << 16) | row`: the two halves of the word by themselves.
abbrev pub place_word : ℕ → ℕ
place_word row = bit_or (columns - 4) (row / 2 ^ 16) * 2 ^ 16 + row % 2 ^ 16

module _ (fuel past dummy head text : ℕ) where
  -- The two calls that print, in the row `row`.
  unfoldable pub print_uptime : ℕ → ℕ → M ℕ
  print_uptime uptime row = do
    do_syscall fuel past dummy head 5 text (columns - (7 + 4)) row
    do_syscall fuel past dummy head 7 uptime 4 (place_word row)

  unfoldable pub uptime_round : M ℕ
  unfolding print_uptime
  uptime_round = do
    count ← do_syscall fuel past dummy head 1 0 0 0
    cursor_pos_y ← do_syscall fuel past dummy head 3 0 0 0
    print_uptime (count / 1000) (if ltb cursor_pos_y rows then 0 else cursor_pos_y - rows + 1)
    do_syscall fuel past dummy head 2 33 0 0
