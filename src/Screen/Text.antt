-- ===== src/Screen/Text.antt =====
-- Text on the screen.
use magical_os.Base.{
  ℕ, zero, suc, ◌+◌, ◌-◌, ◌*◌, ◌/◌, ◌%◌, ◌^◌, ◌≤◌, ◌<◌, ◌≡◌, List, [], ◌∷◌, arith, ltb, ◌==◌,
  Bool-cases, zero, suc, false, inl, inr, if◌then◌else◌, update, length, Returns,
}
use magical_os.Bytes.{Memory, CString}
use magical_os.Screen.{
  Screen, screen_start, columns, cell, update_cursor, put_char_pos, put_char, put_str,
}

-- A screen without columns: one row of cells and the place of the next character.
pub record Tape : Type 0 where
  pub place : ℕ
  pub cells : ℕ → ℕ

-- The place of the cursor in the video memory, row after row.
abbrev pub place_of : Screen → ℕ
place_of s = s.y * columns + s.x

-- A carriage return goes to the start of the line of 80 places, a new line to that of the next, and any
-- other character takes a place.
abbrev pub type_char : ℕ → Tape → Tape
type_char c t =
    if c == b'\r'
    then record t { place = t.place / columns * columns }
    else if c == b'\n'
    then record t { place = (t.place / columns + 1) * columns }
    else record { place = t.place + 1; cells = update t.cells t.place (cell c) }

abbrev pub type_text : List ℕ → Tape → Tape
type_text [] t = t
type_text (c ∷ cs) t = type_text cs (type_char c t)

-- The cursor stands in a column of the screen, at the tape's place, and the cells are the tape's.
pub record Shows (s : Screen) (t : Tape) : Type 0 where
  pub column : s.x < columns
  pub place : place_of s ≡ t.place
  pub cells : (i : ℕ) → s.vram (screen_start + i * 2) ≡ t.cells i

shown_cell :
    (c : ℕ) (s : Screen) (t : Tape)
    → Shows s t
    → s.y < 256
    → (i : ℕ)
    → (put_char_pos c s.x s.y s).vram (screen_start + i * 2) ≡ update t.cells t.place (cell c) i
unfolding put_char_pos
shown_cell c s t v low i = ground (arith, v.cells i, v.column, v.place)

-- The cursor goes to column `x` of line `y`, the cells are `cells`.
moved :
    (x y : ℕ) (s : Screen) (t : Tape)
    → x < columns
    → y * columns + x ≡ t.place
    → ((i : ℕ) → s.vram (screen_start + i * 2) ≡ t.cells i)
    → Shows (update_cursor (record s { x = x; y = y })) t
unfolding update_cursor
moved x y s t column place cells = record { column = column; place = place; cells = cells }

type_char-Shows :
    (c : ℕ) (s : Screen) (t : Tape) → Shows s t → s.y < 256 → Shows (put_char c s) (type_char c t)
unfolding put_char put_char_pos
type_char-Shows c s t v low =
    let shown = put_char_pos c s.x s.y s in
    let typed = record t { place = t.place + 1; cells = update t.cells t.place (cell c) } in
    elim (Bool-cases (c == b'\r')) [
      | inl e ↦ rw e (
          moved 0 s.y s (record t { place = t.place / columns * columns }) (omega arith)
            (omega (arith, v.place, v.column)) v.cells)
      | inr e ↦ elim (Bool-cases (c == b'\n')) [
        | inl f ↦
            rw (e, f)
              (moved 0 ((s.y + 1) % 2 ^ 32) s
                (record t { place = (t.place / columns + 1) * columns }) (omega arith)
                (omega (arith, v.place, v.column)) v.cells)
        | inr f ↦ elim (Bool-cases (ltb s.x (columns - 1))) [
          | inl g ↦
              rw (e, f, g)
                (moved (s.x + 1) s.y shown typed (ground arith) (omega (arith, v.place))
                  (shown_cell c s t v low))
          | inr g ↦
              rw (e, f, g)
                (moved 0 ((s.y + 1) % 2 ^ 32) shown typed (omega arith)
                  (ground (arith, v.place, v.column)) (shown_cell c s t v low))
        ]
      ]
    ]

put_char-line : (c : ℕ) (s : Screen) → (put_char c s).y ≤ s.y + 1
unfolding put_char put_char_pos update_cursor
put_char-line c s = ground arith

-- `put_str` ends with fuel for one round more than there are characters. A string that starts on the
-- screen, and has no more characters than there are lines up to line 256, goes to the cells from the
-- cursor on, row after row, as on the tape, and the cursor ends behind it, in a column below 80.
pub put_str-Shows :
    (xs : List ℕ) (fuel : ℕ) (mem : Memory) (str : ℕ) (s : Screen) (t : Tape)
    → CString mem str xs
    → Shows s t
    → s.y + length xs ≤ 256
    → length xs < fuel
    → Returns (λ s'. Shows s' (type_text xs t)) (put_str fuel mem str s)
unfolding put_str
put_str-Shows [] zero mem str s t c v low lt = elim lt [ ]
put_str-Shows (x ∷ xs) zero mem str s t c v low lt = elim lt [ ]
put_str-Shows [] (suc fuel) mem str s t c v low lt = rw c v
put_str-Shows (x ∷ xs) (suc fuel) mem str s t c v low lt =
    let shown : Shows (put_char (mem str) s) (type_char x t) =
      rw c.0 (type_char-Shows x s t v (omega arith)) in
    let line : (put_char (mem str) s).y ≤ s.y + 1 = put_char-line (mem str) s in
    let next =
      put_str-Shows xs fuel mem (str + 1) (put_char (mem str) s) (type_char x t) c.3 shown
        (omega arith) (omega arith) in
    let more : (mem str == 0) ≡ false = ground (arith, c.0, c.1) in rw more next
