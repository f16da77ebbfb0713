-- ===== src/Screen/Hex.antt =====
-- `dump_hex` and `dump_hex_pos` write the digits of its number.
use magical_os.Base.{
  ℕ, zero, suc, ◌+◌, ◌-◌, ◌*◌, ◌/◌, ◌%◌, ◌^◌, ◌≤◌, ◌<◌, ◌≡◌, refl, ◌⊎◌, inr, arith, leb, ◌==◌,
  ==_iff, if◌then◌else◌, passes_upto, passes_upto-digit, true,
}
use magical_os.Stdlib.Digits.{pow}
use magical_os.Screen.{
  Screen, cell, cell_address, put_char_pos, upper_digit, dump_loop, update_cursor, dump_hex,
}

-- The digit that a cell shows, with the attribute that the driver gives it.
abbrev pub shown_digit : ℕ → ℕ
shown_digit v = if leb v (0x700 + b'9') then v - (0x700 + b'0') else v - (0x700 + b'A') + 10

digit_table : passes_upto (λ d. shown_digit (cell (upper_digit d)) == d) 16 ≡ true
unfolding passes_upto
digit_table = refl

shown_digit-cell : (d : ℕ) → d < 16 → shown_digit (cell (upper_digit d)) ≡ d
shown_digit-cell d lt =
    (==_iff (shown_digit (cell (upper_digit d))) d).0
      (passes_upto-digit (λ d. shown_digit (cell (upper_digit d)) == d) 16 d lt digit_table)

-- The number that `n` cells show from column `x` of line `y` on.
abbrev pub read_hex : ℕ → ℕ → ℕ → (ℕ → ℕ) → ℕ
read_hex zero x y vram = 0
read_hex (suc n) x y vram = read_hex n x y vram * 16 + shown_digit (vram (cell_address (x + n) y))

pub dump_loop-line : (n val d y : ℕ) (s : Screen) → (dump_loop n val d y s).y ≡ s.y
unfolding dump_loop put_char_pos
dump_loop-line zero val d y s = refl
dump_loop-line (suc n) val d y s =
    dump_loop-line n (val / 16) ((d + (2 ^ 32 - 1)) % 2 ^ 32) y
      (put_char_pos (upper_digit (val % 16)) d y s)

pub dump_loop-frame :
    (n val x y d : ℕ) (s : Screen) (a : ℕ)
    → x + n ≤ 256
    → y < 256
    → d ≡ (x + n + (2 ^ 32 - 1)) % 2 ^ 32
    → (a < cell_address x y) ⊎ (cell_address (x + n) y ≤ a)
    → (dump_loop n val d y s).vram a ≡ s.vram a
unfolding dump_loop put_char_pos
dump_loop-frame zero val x y d s a room low at out = refl
dump_loop-frame (suc n) val x y d s a room low at out =
    let s' = put_char_pos (upper_digit (val % 16)) d y s in
    let rest =
      dump_loop-frame n (val / 16) x y ((d + (2 ^ 32 - 1)) % 2 ^ 32) s' a (omega arith) low
        (omega arith) (ground arith) in
    ground arith

-- The digits shown are the lowest `n` of `val`.
abbrev pub IsLow : ℕ → ℕ → ℕ → Type 0
IsLow n val shown = (shown < pow 16 n) × ((q : ℕ) × (val ≡ q * pow 16 n + shown))

pub dump_loop-read :
    (n val x y d : ℕ) (s : Screen)
    → x + n ≤ 256
    → y < 256
    → d ≡ (x + n + (2 ^ 32 - 1)) % 2 ^ 32
    → IsLow n val (read_hex n x y (dump_loop n val d y s).vram)
unfolding dump_loop put_char_pos
dump_loop-read zero val x y d s room low at = (omega arith, (val, omega arith))
dump_loop-read (suc n) val x y d s room low at =
    let s' = put_char_pos (upper_digit (val % 16)) d y s in
    let d' = (d + (2 ^ 32 - 1)) % 2 ^ 32 in
    let rest = dump_loop-read n (val / 16) x y d' s' (omega arith) low (omega arith) in
    let same =
      dump_loop-frame n (val / 16) x y d' s' (cell_address (x + n) y) (omega arith) low
        (omega arith) (inr (omega arith)) in
    let written : (put_char_pos (upper_digit (val % 16)) d y s).vram (cell_address (x + n) y)
        ≡ cell (upper_digit (val % 16)) =
      ground arith in
    let digit : shown_digit ((dump_loop n (val / 16) d' y s').vram (cell_address (x + n) y))
        ≡ val % 16 =
      rw (same, written) (shown_digit-cell (val % 16) (omega arith)) in
    let q = rest.1.0 in (omega arith, (q, omega (arith, rest.1.1)))

-- `dump_hex` on the screen: the digits shown are the lowest `num_digits` of `val`, the first the highest,
-- the cursor moves behind them, and nothing else on the screen changes.
pub dump_hex-read :
    (val n : ℕ) (s : Screen)
    → s.x + n ≤ 256
    → s.y < 256
    → IsLow n val (read_hex n s.x s.y (dump_hex val n s).vram)
      × ((dump_hex val n s).x ≡ s.x + n)
      × ((dump_hex val n s).y ≡ s.y)
      × ((a : ℕ)
          → (a < cell_address s.x s.y) ⊎ (cell_address (s.x + n) s.y ≤ a)
          → (dump_hex val n s).vram a ≡ s.vram a)
unfolding dump_hex update_cursor
dump_hex-read val n s room low =
    let d = ((s.x + n) % 2 ^ 32 + (2 ^ 32 - 1)) % 2 ^ 32 in
    (
      dump_loop-read n val s.x s.y d s room low (omega arith),
      omega arith,
      dump_loop-line n val d s.y s,
      (λ a. dump_loop-frame n val s.x s.y d s a room low (omega arith)),
    )
