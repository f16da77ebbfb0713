-- ===== src/Screen/Printk.antt =====
-- `printk` of kernel/console_io.c. The words behind the format are a function of their index, and `ap` is
-- that of the next one. A round of the loop takes fuel; so does `put_str`.
pub mod Render
use magical_os.Base.{
  ℕ, zero, suc, ◌+◌, ◌-◌, ◌^◌, Bool, true, false, ◌||◌, Option, none, some, List, [], ◌∷◌, ltb,
  ◌==◌, if◌then◌else◌,
}
use magical_os.Base.Int.{ℤ, pos, negsuc}
use magical_os.Bytes.{Memory}
use magical_os.Stdlib.{itoa, itox}
use magical_os.Screen.{Screen, put_char, put_str}

-- A word as an `int`.
abbrev pub to_int : ℕ → ℤ
to_int w = if ltb w (2 ^ 31) then pos w else negsuc (2 ^ 32 - 1 - w)

-- `put_str(buf)` where `buf` holds the bytes of the list.
unfoldable pub put_buf : List ℕ → Screen → Screen
put_buf [] s = s
put_buf (c ∷ cs) s = let rest = put_buf cs (put_char c s) in if c == 0 then s else rest

abbrev pub is_number : ℕ → Bool
is_number c = c == b'd' || c == b'c' || c == b'u'

-- The conversions that take a word `w`: what they print, and `none` for the others.
unfoldable pub convert : ℕ → Memory → ℕ → ℕ → Screen → Option Screen
convert fuel mem c w s =
    if is_number c
    then some (put_buf (itoa (to_int w)) s)
    else if c == b'x'
    then some (put_buf (itox w) s)
    else put_str fuel mem w s

abbrev pub takes_word : ℕ → Bool
takes_word c = is_number c || c == b'x' || c == b's'

-- The loop from `fmt` on, with the flag that an `l` sets.
unfoldable pub printk_loop : ℕ → ℕ → Memory → ℕ → Bool → (ℕ → ℕ) → ℕ → Screen → Option Screen
printk_loop zero fuel mem fmt long args ap s = none
printk_loop (suc rounds) fuel mem fmt long args ap s =
    let c = mem (fmt + 1) in
    if mem fmt == 0
    then some s
    else if mem fmt == b'%' || long
    then if takes_word c
      then elim (convert fuel mem c (args ap) s) [
        | none ↦ none
        | some s' ↦ printk_loop rounds fuel mem (fmt + 2) false args (ap + 1) s'
      ]
      else if c == b'l'
      then printk_loop rounds fuel mem (fmt + 1) true args ap s
      else printk_loop rounds fuel mem (fmt + 2) false args ap s
    else printk_loop rounds fuel mem (fmt + 1) false args ap (put_char (mem fmt) s)

unfoldable pub printk : ℕ → Memory → ℕ → (ℕ → ℕ) → Screen → Option Screen
unfolding printk_loop
printk fuel mem fmt args s = printk_loop fuel fuel mem fmt false args 0 s
