-- ===== src/Common.antt =====
-- kernel/common.c, which apps/shell.c repeats. The loop of the comparison runs on fuel.
pub mod Laws
use magical_os.Base.{ℕ, zero, suc, ◌+◌, ◌||◌, not, Option, none, some, ◌==◌, if◌then◌else◌, update}
use magical_os.Base.Int.{ℤ, pos, negsuc, char_diff}
use magical_os.Bytes.{Memory}

-- What the function returns after its loop, at the characters where it stopped without a difference.
str_end : ℕ → ℕ → ℤ
str_end a b = if not (a == 0) then pos 1 else if not (b == 0) then negsuc 0 else pos 0

unfoldable pub str_compare : ℕ → Memory → ℕ → ℕ → Option ℤ
unfolding str_end
str_compare zero mem src dst = none
str_compare (suc fuel) mem src dst =
    let rest = str_compare fuel mem (src + 1) (dst + 1) in
    if (mem src == 0) || (mem dst == 0)
    then some (str_end (mem src) (mem dst))
    else if mem src == mem dst
    then rest
    else some (char_diff (mem src) (mem dst))

unfoldable pub copy_mem : ℕ → ℕ → ℕ → Memory → Memory
copy_mem src dst zero mem = mem
copy_mem src dst (suc size) mem = copy_mem (src + 1) (dst + 1) size (update mem dst (mem src))
