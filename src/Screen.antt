-- ===== src/Screen.antt =====
-- The text screen of kernel/console_io.c: the cursor, the characters in the video memory and the
-- hexadecimal output. A cell of the screen is a short at an even address from SCREEN_START on; `unsigned
-- int` and `unsigned char` wrap. The interrupt lock around the port writes is left out.
pub mod Text
pub mod Hex
pub mod Line
pub mod Printk
pub mod Row
use magical_os.Base.{
  ℕ, zero, suc, ◌+◌, ◌-◌, ◌*◌, ◌/◌, ◌%◌, ◌^◌, Option, none, some, List, [], ◌∷◌, ltb, leb, ◌==◌,
  if◌then◌else◌, update,
}
use magical_os.Bytes.{Memory}

abbrev pub screen_start : ℕ
screen_start = 0xb8000

abbrev pub columns : ℕ
columns = 80

abbrev pub rows : ℕ
rows = 25

-- `cursor_pos`, the cells, and the port writes, the newest first, each with its port.
pub record Screen : Type 0 where
  pub x : ℕ
  pub y : ℕ
  pub vram : ℕ → ℕ
  pub ports : List (ℕ × ℕ)

-- `(unsigned short)((ATTR << 8) | c)`: a `char` from 0x80 on is negative, and its sign fills the upper
-- byte.
abbrev pub cell : ℕ → ℕ
cell c = if ltb c 0x80 then 0x700 + c else 0xff00 + c

abbrev pub cell_address : ℕ → ℕ → ℕ
cell_address x y = screen_start + (y * columns + x) * 2

-- The four port writes that set the register `index` and the one behind it to a 16-bit number.
abbrev pub write_pair : ℕ → ℕ → List (ℕ × ℕ) → List (ℕ × ℕ)
write_pair index n ports =
    (0x3d5, n % 256) ∷ (0x3d4, index + 1) ∷ (0x3d5, n / 256 % 256) ∷ (0x3d4, index) ∷ ports

unfoldable pub update_cursor : Screen → Screen
update_cursor s =
    let ports = write_pair 0x0e ((s.y * 80 + s.x) % 2 ^ 32) s.ports in
    record s {
      ports =
          if leb rows s.y then write_pair 0x0c ((s.y - rows + 1) * 80 % 2 ^ 32) ports else ports;
    }

-- The two coordinates are passed as unsigned chars.
unfoldable pub put_char_pos : ℕ → ℕ → ℕ → Screen → Screen
put_char_pos c x y s = record s { vram = update s.vram (cell_address (x % 256) (y % 256)) (cell c) }

unfoldable pub put_char : ℕ → Screen → Screen
unfolding put_char_pos
put_char c s =
    let shown = put_char_pos c s.x s.y s in
    if c == b'\r'
    then update_cursor (record s { x = 0 })
    else if c == b'\n'
    then update_cursor (record s { x = 0; y = (s.y + 1) % 2 ^ 32 })
    else if ltb s.x (columns - 1)
    then update_cursor (record shown { x = s.x + 1 })
    else update_cursor (record shown { x = 0; y = (s.y + 1) % 2 ^ 32 })

-- The loop of `put_str`, on fuel: `none` says that it ran out.
unfoldable pub put_str : ℕ → Memory → ℕ → Screen → Option Screen
put_str zero mem str s = none
put_str (suc fuel) mem str s =
    let rest = put_str fuel mem (str + 1) (put_char (mem str) s) in
    if mem str == 0 then some s else rest

-- As `put_str`, from a position of its own, which it does not store; a new line keeps the column.
unfoldable pub put_str_pos : ℕ → Memory → ℕ → ℕ → ℕ → Screen → Option Screen
put_str_pos zero mem str x y s = none
put_str_pos (suc fuel) mem str x y s =
    let c = mem str in
    let go = put_str_pos fuel mem (str + 1) in
    let shown = put_char_pos c x y s in
    if c == 0
    then some s
    else if c == b'\r'
    then go 0 y s
    else if c == b'\n'
    then go x ((y + 1) % 256) s
    else if ltb x (columns - 1)
    then go (x + 1) y shown
    else go 0 ((y + 1) % 256) shown

-- `'0' + tmp_val` or `'A' + tmp_val - 10`
abbrev pub upper_digit : ℕ → ℕ
upper_digit d = if ltb d 10 then b'0' + d else b'A' + d - 10

-- The loop of `dump_hex` and of `dump_hex_pos`: `n` digits, of which the last goes to column `digit`.
unfoldable pub dump_loop : ℕ → ℕ → ℕ → ℕ → Screen → Screen
dump_loop zero val digit y s = s
dump_loop (suc n) val digit y s =
    dump_loop n (val / 16) ((digit + (2 ^ 32 - 1)) % 2 ^ 32) y
      (put_char_pos (upper_digit (val % 16)) digit y s)

unfoldable pub dump_hex : ℕ → ℕ → Screen → Screen
dump_hex val num_digits s =
    let new_x = (s.x + num_digits) % 2 ^ 32 in
    let shown = dump_loop num_digits val ((new_x + (2 ^ 32 - 1)) % 2 ^ 32) s.y s in
    update_cursor (record shown { x = new_x })

unfoldable pub dump_hex_pos : ℕ → ℕ → ℕ → ℕ → Screen → Screen
dump_hex_pos val num_digits x y s =
    let new_x = (x % 256 + num_digits) % 2 ^ 32 in
    dump_loop num_digits val ((new_x + (2 ^ 32 - 1)) % 2 ^ 32) (y % 256) s
