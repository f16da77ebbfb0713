-- ===== src/Screen/Line.antt =====
-- `get_line` of kernel/console_io.c with `get_char` and the table `keymap`. `keys` is what `get_keydata`
-- returns from call to call, and `none` says that the task still waits for a key, or that the fuel ran out.
pub mod Edit
use magical_os.Base.{
  ℕ, zero, suc, ◌+◌, ◌-◌, ◌%◌, ◌^◌, Bool, true, false, Option, none, some, List, [], ◌∷◌, ltb, leb,
  ◌==◌, if◌then◌else◌, update, get_or, map_some,
}
use magical_os.Bytes.{Memory}
use magical_os.Screen.{Screen, update_cursor, put_char_pos, put_char}

abbrev pub keymap : List ℕ
keymap =
    0 ∷ 0x1b ∷ b'1' ∷ b'2' ∷ b'3' ∷ b'4' ∷ b'5' ∷ b'6' ∷ b'7' ∷ b'8' ∷ b'9' ∷ b'0' ∷ b'-' ∷ b'^'
    ∷ 0x08 ∷ 0x09 ∷ b'q' ∷ b'w' ∷ b'e' ∷ b'r' ∷ b't' ∷ b'y' ∷ b'u' ∷ b'i' ∷ b'o' ∷ b'p' ∷ b'@'
    ∷ b'[' ∷ b'\n' ∷ 0 ∷ b'a' ∷ b's' ∷ b'd' ∷ b'f' ∷ b'g' ∷ b'h' ∷ b'j' ∷ b'k' ∷ b'l' ∷ b';' ∷ b':'
    ∷ 0 ∷ 0 ∷ b']' ∷ b'z' ∷ b'x' ∷ b'c' ∷ b'v' ∷ b'b' ∷ b'n' ∷ b'm' ∷ b',' ∷ b'.' ∷ b'/' ∷ 0 ∷ b'*'
    ∷ 0 ∷ b' ' ∷ 0 ∷ 0 ∷ 0 ∷ 0 ∷ 0 ∷ 0 ∷ 0 ∷ 0 ∷ 0 ∷ 0 ∷ 0 ∷ 0 ∷ 0 ∷ b'7' ∷ b'8' ∷ b'9' ∷ b'-'
    ∷ b'4' ∷ b'5' ∷ b'6' ∷ b'+' ∷ b'1' ∷ b'2' ∷ b'3' ∷ b'0' ∷ b'.' ∷ 0 ∷ 0 ∷ 0 ∷ 0 ∷ 0 ∷ 0 ∷ 0 ∷ 0
    ∷ 0 ∷ 0 ∷ 0 ∷ 0 ∷ 0 ∷ 0 ∷ 0 ∷ 0 ∷ 0 ∷ 0 ∷ 0 ∷ 0 ∷ 0 ∷ 0 ∷ 0 ∷ 0 ∷ 0 ∷ 0 ∷ 0 ∷ 0 ∷ 0 ∷ 0 ∷ 0
    ∷ b'_' ∷ 0 ∷ 0 ∷ 0 ∷ 0 ∷ 0 ∷ 0 ∷ 0 ∷ 0 ∷ 0 ∷ b'\\' ∷ 0 ∷ 0 ∷ []

abbrev pub ascii_bs : ℕ
ascii_bs = 0x08

-- The next key pressed, without the codes of released keys, whose bit 7 is set, and the keys after it.
unfoldable pub get_keycode_pressed : List ℕ → Option (ℕ × List ℕ)
get_keycode_pressed [] = none
get_keycode_pressed (k ∷ ks) =
    let rest = get_keycode_pressed ks in if leb 0x80 k then rest else some (k, ks)

-- The next key without bit 7, and the next one released.
unfoldable pub get_keycode : List ℕ → Option (ℕ × List ℕ)
get_keycode [] = none
get_keycode (k ∷ ks) = some (k % 0x80, ks)

unfoldable pub get_keycode_released : List ℕ → Option (ℕ × List ℕ)
get_keycode_released [] = none
get_keycode_released (k ∷ ks) =
    let rest = get_keycode_released ks in if leb 0x80 k then some (k % 0x80, ks) else rest

-- The key code that the controller gives without an interrupt: `inb_p` is what the read `i` of a port
-- gives.
unfoldable pub get_keydata_noir : ℕ → (ℕ → ℕ → ℕ) → ℕ → Option ℕ
get_keydata_noir zero inb_p i = none
get_keydata_noir (suc fuel) inb_p i =
    let rest = get_keydata_noir fuel inb_p (i + 1) in
    if inb_p 0x64 i % 2 == 1 then some (inb_p 0x60 (i + 1) % 0x100) else rest

abbrev pub to_char : ℕ × List ℕ → ℕ × List ℕ
to_char (k, ks) = (get_or keymap k 0, ks)

unfoldable pub get_char : List ℕ → Option (ℕ × List ℕ)
unfolding get_keycode_pressed
get_char keys = map_some to_char (get_keycode_pressed keys)

-- The index `i`, the memory and the screen.
pub record Editing : Type 0 where
  pub i : ℕ
  pub mem : Memory
  pub screen : Screen

-- The cursor goes back and the character there is blanked.
unfoldable pub rub_out : Screen → Screen
rub_out s =
    let moved = update_cursor (record s { x = (s.x + (2 ^ 32 - 1)) % 2 ^ 32 }) in
    put_char_pos b' ' moved.x moved.y moved

-- The body of the loop with the character that was read: whether it breaks, and the state after it.
unfoldable pub line_round : ℕ → ℕ → Editing → Bool × Editing
line_round buf c e =
    let mem' = update e.mem (buf + e.i) c in
    let shown = put_char c e.screen in
    if c == ascii_bs
    then (
      false,
      if e.i == 0
          then record { i = 0; mem = mem'; screen = e.screen }
          else record { i = e.i - 1; mem = mem'; screen = rub_out e.screen },
    )
    else if c == b'\n'
    then (true, record { i = e.i; mem = mem'; screen = put_char b'\r' shown })
    else (false, record { i = e.i + 1; mem = mem'; screen = shown })

-- `limit` is `buf_size - 1`. The state after the loop and the keys that are left.
unfoldable pub line_loop : ℕ → ℕ → ℕ → List ℕ → Editing → Option (Editing × List ℕ)
line_loop zero buf limit keys e = none
line_loop (suc fuel) buf limit keys e =
    if ltb e.i limit
    then elim (get_char keys) [
      | none ↦ none
      | some r ↦
          let t = line_round buf r.0 e in
          if t.0 then some (t.1, r.1) else line_loop fuel buf limit r.1 t.1
    ]
    else some (e, keys)

-- `buf[i] = '\0'`
abbrev pub close_line : ℕ → Editing × List ℕ → Editing × List ℕ
close_line buf (e, keys) = (record e { mem = update e.mem (buf + e.i) 0 }, keys)

-- The returned count is the index.
unfoldable pub get_line : ℕ → ℕ → ℕ → List ℕ → Memory → Screen → Option (Editing × List ℕ)
unfolding line_loop
get_line fuel buf buf_size keys mem s = map_some (close_line buf) (
    line_loop fuel buf ((buf_size + (2 ^ 32 - 1)) % 2 ^ 32) keys
      (record { i = 0; mem = mem; screen = s }))
