-- ===== src/Screen/Row.antt =====
-- `put_str_pos` and `dump_hex_pos` within one row of the screen.
use magical_os.Base.{
  ℕ, zero, suc, ◌+◌, ◌-◌, ◌/◌, ◌%◌, ◌^◌, ◌≤◌, ◌<◌, ◌≡◌, ◌≢◌, refl, ◌∙◌, ◌⊎◌, inl, some, List, [],
  ◌∷◌, arith, ltb, ◌==◌, length, get_or, All, false, true,
}
use magical_os.Bytes.{Memory, CString}
use magical_os.Screen.{
  Screen, columns, cell, cell_address, put_char_pos, put_str_pos, dump_loop, dump_hex_pos,
}
use magical_os.Screen.Hex.{read_hex, IsLow, dump_loop-frame, dump_loop-read, dump_loop-line}

-- A character that takes a place.
abbrev pub TakesPlace : ℕ → Type 0
TakesPlace c = (c ≢ b'\r') × (c ≢ b'\n')

abbrev pub show_row : List ℕ → ℕ → ℕ → Screen → Screen
show_row [] x y s = s
show_row (c ∷ cs) x y s = show_row cs (x + 1) y (put_char_pos c x y s)

pub put_str_pos-show_row :
    (xs : List ℕ) (fuel : ℕ) (mem : Memory) (str x y : ℕ) (s : Screen)
    → CString mem str xs
    → All TakesPlace xs
    → x + length xs < columns
    → length xs < fuel
    → put_str_pos fuel mem str x y s ≡ some (show_row xs x y s)
unfolding put_str_pos
put_str_pos-show_row xs zero mem str x y s c h room lt = elim lt [ ]
put_str_pos-show_row [] (suc fuel) mem str x y s c h room lt = rw c refl
put_str_pos-show_row (d ∷ xs) (suc fuel) mem str x y s c h room lt =
    let rest =
      put_str_pos-show_row xs fuel mem (str + 1) (x + 1) y (put_char_pos d x y s) c.3 h.1
        (omega arith) (omega arith) in
    let nul : (d == 0) ≡ false = ground (arith, c.1) in
    let cr : (d == b'\r') ≡ false = ground (arith, h.0) in
    let nl : (d == b'\n') ≡ false = ground (arith, h.0) in
    let inside : ltb x (columns - 1) ≡ true = ground arith in rw (c.0, nul, cr, nl, inside) rest

show_row-frame :
    (xs : List ℕ) (x y : ℕ) (s : Screen) (a : ℕ)
    → x + length xs ≤ columns
    → y < 256
    → (a < cell_address x y) ⊎ (cell_address (x + length xs) y ≤ a)
    → (show_row xs x y s).vram a ≡ s.vram a
unfolding put_char_pos
show_row-frame [] x y s a room low out = refl
show_row-frame (c ∷ xs) x y s a room low out =
    let rest =
      show_row-frame xs (x + 1) y (put_char_pos c x y s) a (omega arith) low (ground arith) in
    ground (arith, rest)

show_row-cell :
    (xs : List ℕ) (x y : ℕ) (s : Screen) (i : ℕ)
    → x + length xs ≤ columns
    → y < 256
    → i < length xs
    → (show_row xs x y s).vram (cell_address (x + i) y) ≡ cell (get_or xs i 0)
unfolding put_char_pos
show_row-cell [] x y s i room low lt = elim lt [ ]
show_row-cell (c ∷ xs) x y s zero room low lt =
    let same =
      show_row-frame xs (x + 1) y (put_char_pos c x y s) (cell_address (x + zero) y) (omega arith)
        low (inl (omega arith)) in
    same ∙ ground arith
show_row-cell (c ∷ xs) x y s (suc i) room low lt =
    let at : x + suc i ≡ x + 1 + i = omega arith in
    rw at (show_row-cell xs (x + 1) y (put_char_pos c x y s) i (omega arith) low (omega arith))

show_row-cursor :
    (xs : List ℕ) (x y : ℕ) (s : Screen)
    → ((show_row xs x y s).x ≡ s.x) × ((show_row xs x y s).y ≡ s.y)
unfolding put_char_pos
show_row-cursor [] x y s = (refl, refl)
show_row-cursor (c ∷ xs) x y s = show_row-cursor xs (x + 1) y (put_char_pos c x y s)

dump_loop-column : (n val d y : ℕ) (s : Screen) → (dump_loop n val d y s).x ≡ s.x
unfolding dump_loop put_char_pos
dump_loop-column zero val d y s = refl
dump_loop-column (suc n) val d y s = dump_loop-column n (val / 16) ((d + (2 ^ 32 - 1)) % 2 ^ 32) y _

-- A text in row `y` from column `x` on, the lowest `n` digits of a number behind it, and nothing else
-- that is new.
pub record Labelled (xs : List ℕ) (n val x y : ℕ) (s s' : Screen) : Type 0 where
  pub label : (i : ℕ) → i < length xs → s'.vram (cell_address (x + i) y) ≡ cell (get_or xs i 0)
  pub number : IsLow n val (read_hex n (x + length xs) y s'.vram)
  pub others :
      (a : ℕ)
      → (a < cell_address x y) ⊎ (cell_address (x + length xs + n) y ≤ a)
      → s'.vram a ≡ s.vram a
  pub cursor : (s'.x ≡ s.x) × (s'.y ≡ s.y)

pub show_row-Labelled :
    (xs : List ℕ) (n val x y : ℕ) (s : Screen)
    → x + length xs + n ≤ columns
    → y < 256
    → Labelled xs n val x y s (dump_hex_pos val n (x + length xs) y (show_row xs x y s))
unfolding dump_hex_pos
show_row-Labelled xs n val x y s room low =
    let t = show_row xs x y s in
    let x' = x + length xs in
    let d = ((x' % 256 + n) % 2 ^ 32 + (2 ^ 32 - 1)) % 2 ^ 32 in
    let at : d ≡ (x' + n + (2 ^ 32 - 1)) % 2 ^ 32 = omega arith in
    let row : y % 256 ≡ y = omega arith in
    rw row (record {
      label = λ i lt.
          dump_loop-frame n val x' y d t (cell_address (x + i) y) (omega arith) low at
            (inl (omega arith))
          ∙ show_row-cell xs x y s i (omega arith) low lt;
      number = dump_loop-read n val x' y d t (omega arith) low at;
      others = λ a out.
          dump_loop-frame n val x' y d t a (omega arith) low at (ground arith)
          ∙ show_row-frame xs x y s a (omega arith) low (ground arith);
      cursor = (
        dump_loop-column n val d y t ∙ (show_row-cursor xs x y s).0,
        dump_loop-line n val d y t ∙ (show_row-cursor xs x y s).1,
      );
    })
