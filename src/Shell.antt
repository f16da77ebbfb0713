-- ===== src/Shell.antt =====
-- The string routines and the command names of apps/shell.c. `copy_mem` is that of kernel/common.c, which
-- the file repeats. Loops over a string run on fuel, and `none` says that it ran out. An `int` is a word of
-- 32 bits, but for the index that `str_find_char` returns.
pub mod Spaces
pub mod Entry
pub mod Hex
pub mod Command
pub mod Commands
use magical_os.Base.{
  ℕ, zero, suc, ◌+◌, ◌-◌, ◌*◌, ◌%◌, ◌^◌, ◌&&◌, ◌||◌, not, Option, none, some, List, [], ◌∷◌, ltb,
  leb, ◌==◌, if◌then◌else◌, update, map_some,
}
use magical_os.Base.Int.{ℤ, pos, negsuc, char_diff}
use magical_os.Bytes.{Memory}
use magical_os.Common.{copy_mem}

-- The recursion of `pow`, without its fuel since the exponent counts down.
unfoldable pub pow : ℕ → ℕ → ℕ
pow num zero = 1
pow num (suc multer) = pow num multer * num % 2 ^ 32

len_loop : ℕ → Memory → ℕ → ℕ → Option ℕ
len_loop zero mem src len = none
len_loop (suc fuel) mem src len =
    let rest = len_loop fuel mem src (len + 1) in
    if mem (src + len) == 0 then some (len + 1) else rest

-- The length with the NUL.
unfoldable pub str_get_len : ℕ → Memory → ℕ → Option ℕ
unfolding len_loop
str_get_len fuel mem src = len_loop fuel mem src 0

pub find_loop : ℕ → Memory → ℕ → ℕ → ℕ → Option ℤ
find_loop zero mem src key i = none
find_loop (suc fuel) mem src key i =
    let rest = find_loop fuel mem src key (i + 1) in
    if mem (src + i) == key
    then some (pos i)
    else if mem (src + i) == 0
    then some (negsuc 0)
    else rest

-- The index of `key`, or -1.
unfoldable pub str_find_char : ℕ → Memory → ℕ → ℕ → Option ℤ
unfolding find_loop
str_find_char fuel mem src key = find_loop fuel mem src key 0

-- The branches of `str_get_first_entry`, by the index of the space.
abbrev pub split_at : ℕ → ℕ → ℕ → ℕ → ℤ → Memory → Memory
split_at line first other line_len (negsuc k) mem =
    update (copy_mem line first line_len mem) other 0
split_at line first other line_len (pos i) mem =
    let mem' = update (copy_mem line first i mem) (first + i) 0 in
    copy_mem (line + (i + 1)) other (line_len - (i + 1)) mem'

split_with : ℕ → ℕ → ℕ → ℕ → Memory → Option ℕ → Option Memory
split_with fuel line first other mem none = none
split_with fuel line first other mem (some line_len) =
    map_some (λ i. split_at line first other line_len i mem) (str_find_char fuel mem line b' ')

-- The memory after `line` is split at its first space.
unfoldable pub str_get_first_entry : ℕ → ℕ → ℕ → ℕ → Memory → Option Memory
unfolding split_with
str_get_first_entry fuel line first other mem =
    split_with fuel line first other mem (str_get_len fuel mem line)

-- A `char` as an `int`.
abbrev pub to_word : ℕ → ℕ
to_word c = if ltb c 128 then c else c + 2 ^ 32 - 256

-- The digit for a character, as the code computes it.
abbrev pub ahex_digit : ℕ → ℕ
ahex_digit c =
    if leb b'0' c && leb c b'9' then c - b'0' else (to_word c + 2 ^ 32 - b'a' + 10) % 2 ^ 32

conv_loop : ℕ → Memory → ℕ → ℕ → ℕ → ℕ → Option ℕ
unfolding pow
conv_loop zero mem s len i val = none
conv_loop (suc fuel) mem s len i val =
    let c = mem (s + i) in
    let rest =
      conv_loop fuel mem s len (i + 1) ((val + ahex_digit c * pow 16 (len - 2 - i)) % 2 ^ 32) in
    if c == 0 then some val else rest

-- The loop with the length that the first call gives.
conv_with : ℕ → Memory → ℕ → Option ℕ → Option ℕ
unfolding conv_loop
conv_with fuel mem s none = none
conv_with fuel mem s (some len) = conv_loop fuel mem s len 0 0

unfoldable pub str_conv_ahex_int : ℕ → Memory → ℕ → Option ℕ
unfolding conv_with
str_conv_ahex_int fuel mem hex_str = conv_with fuel mem hex_str (str_get_len fuel mem hex_str)

-- `str_compare` with a string constant, by its characters.
unfoldable pub compare_name : Memory → ℕ → List ℕ → ℤ
compare_name mem src [] = if mem src == 0 then pos 0 else pos 1
compare_name mem src (d ∷ ds) =
    let rest = compare_name mem (src + 1) ds in
    if mem src == 0 then negsuc 0 else if mem src == d then rest else char_diff (mem src) d

-- The enumeration of the commands, in its order.
pub data CommandId : Type 0 where
  echo readb readw readl ioreadb writeb writew writel iowriteb test_text command_num shutdown :
      CommandId

abbrev pub is_equal : ℤ → CommandId → CommandId → CommandId
is_equal (pos zero) id rest = id
is_equal (pos (suc n)) id rest = rest
is_equal (negsuc n) id rest = rest

-- The names, in the order in which they are tried.
abbrev pub names : List (List ℕ × CommandId)
names =
    (b'e' ∷ b'c' ∷ b'h' ∷ b'o' ∷ [], echo)
    ∷ (b'r' ∷ b'e' ∷ b'a' ∷ b'd' ∷ b'b' ∷ [], readb)
    ∷ (b'r' ∷ b'e' ∷ b'a' ∷ b'd' ∷ b'w' ∷ [], readw)
    ∷ (b'r' ∷ b'e' ∷ b'a' ∷ b'd' ∷ b'l' ∷ [], readl)
    ∷ (b'i' ∷ b'o' ∷ b'r' ∷ b'e' ∷ b'a' ∷ b'd' ∷ b'b' ∷ [], ioreadb)
    ∷ (b'w' ∷ b'r' ∷ b'i' ∷ b't' ∷ b'e' ∷ b'b' ∷ [], writeb)
    ∷ (b'w' ∷ b'r' ∷ b'i' ∷ b't' ∷ b'e' ∷ b'w' ∷ [], writew)
    ∷ (b'w' ∷ b'r' ∷ b'i' ∷ b't' ∷ b'e' ∷ b'l' ∷ [], writel)
    ∷ (b'i' ∷ b'o' ∷ b'w' ∷ b'r' ∷ b'i' ∷ b't' ∷ b'e' ∷ b'b' ∷ [], iowriteb)
    ∷ (b't' ∷ b'e' ∷ b's' ∷ b't' ∷ [], test_text)
    ∷ (b's' ∷ b'h' ∷ b'u' ∷ b't' ∷ b'd' ∷ b'o' ∷ b'w' ∷ b'n' ∷ [], shutdown)
    ∷ []

-- The chain of tests of `get_command_id`.
unfoldable pub try_names : Memory → ℕ → List (List ℕ × CommandId) → CommandId
try_names mem command [] = command_num
try_names mem command (n ∷ ns) =
    let rest = try_names mem command ns in is_equal (compare_name mem command n.0) n.1 rest

unfoldable pub get_command_id : Memory → ℕ → CommandId
unfolding try_names
get_command_id mem command = try_names mem command names
