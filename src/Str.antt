-- ===== src/Str.antt =====
-- kernel/string.c. The loops over a string run on fuel, and `none` means that it ran out; those over a
-- counted range recur on the bytes left. A pointer argument is its address.
pub mod Compare
pub mod Copy
use magical_os.Base.{ℕ, zero, suc, ◌+◌, ◌-◌, ◌%◌, Option, none, some, ◌==◌, if◌then◌else◌, update}
use magical_os.Base.Int.{ℤ, pos, char_diff}
use magical_os.Bytes.{Memory}

-- The bytes from index `i` on, `n` of them.
memset_from : ℕ → ℕ → ℕ → ℕ → Memory → Memory
memset_from zero addr c i mem = mem
memset_from (suc n) addr c i mem = memset_from n addr c (i + 1) (update mem (addr + i) (c % 256))

unfoldable pub memset : ℕ → ℕ → ℕ → Memory → Memory
unfolding memset_from
memset addr c size mem = memset_from size addr c 0 mem

unfoldable pub memcpy_from : ℕ → ℕ → ℕ → ℕ → Memory → Memory
memcpy_from zero dest src i mem = mem
memcpy_from (suc n) dest src i mem =
    memcpy_from n dest src (i + 1) (update mem (dest + i) (mem (src + i)))

-- The memory after it and the returned pointer.
unfoldable pub memcpy : ℕ → ℕ → ℕ → Memory → ℕ × Memory
unfolding memcpy_from
memcpy dest src n mem = (dest, memcpy_from n dest src 0 mem)

unfoldable pub strcmp : ℕ → Memory → ℕ → ℕ → Option ℤ
strcmp zero mem s1 s2 = none
strcmp (suc fuel) mem s1 s2 =
    let rest = strcmp fuel mem (s1 + 1) (s2 + 1) in
    if mem s1 == mem s2
    then if mem s1 == 0 then some (pos 0) else rest
    else some (char_diff (mem s1) (mem s2))

-- The loop runs at most `n` times.
unfoldable pub strncmp : Memory → ℕ → ℕ → ℕ → ℤ
strncmp mem s1 s2 zero = pos 0
strncmp mem s1 s2 (suc n) =
    let rest = strncmp mem (s1 + 1) (s2 + 1) n in
    if mem s1 == mem s2 then if mem s1 == 0 then pos 0 else rest else char_diff (mem s1) (mem s2)

-- `while (*s++);`: the pointer after the loop.
unfoldable pub skip_string : ℕ → Memory → ℕ → Option ℕ
skip_string zero mem s = none
skip_string (suc fuel) mem s =
    let rest = skip_string fuel mem (s + 1) in if mem s == 0 then some (s + 1) else rest

unfoldable pub strlen : ℕ → Memory → ℕ → Option ℕ
unfolding skip_string
strlen fuel mem s = elim (skip_string fuel mem s) [ none ↦ none | some s' ↦ some (s' - s) ]

-- The returned pointer, which the loop has moved, and the memory.
unfoldable pub strcpy : ℕ → ℕ → ℕ → Memory → Option (ℕ × Memory)
strcpy zero dest src mem = none
strcpy (suc fuel) dest src mem =
    let mem' = update mem dest (mem src) in
    let rest = strcpy fuel (dest + 1) (src + 1) mem' in
    if mem src == 0 then some (dest + 1, mem') else rest
