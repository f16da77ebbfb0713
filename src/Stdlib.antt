-- ===== src/Stdlib.antt =====
-- kernel/stdlib.c: numbers to text. `long` and `unsigned long` have 32 bits. A result is the list of the
-- bytes that the function stores from `buf` on, the NUL included.
pub mod Digits
pub mod Laws
use magical_os.Base.{
  ℕ, zero, suc, ◌+◌, ◌-◌, ◌/◌, ◌%◌, ◌^◌, Bool, true, false, ◌&&◌, List, [], ◌∷◌, ◌++◌, ltb, ◌==◌,
  if◌then◌else◌, get_or,
}
use magical_os.Base.Int.{ℤ, pos, negsuc}

-- BUF_SIZE of the file: the size of `tmp`.
abbrev pub buf_size : ℕ
buf_size = 65

-- `tmp[len++] = char(n % base)` while `(n /= base) > 0 && len < limit`: the characters stored, the lowest
-- digit first, from `len` on. The guard allows at most `limit` rounds, so that many are enough.
unfoldable pub digits_loop : (ℕ → ℕ) → ℕ → ℕ → ℕ → ℕ → ℕ → List ℕ
digits_loop char base limit zero n len = []
digits_loop char base limit (suc rounds) n len =
    let rest = digits_loop char base limit rounds (n / base) (len + 1) in
    char (n % base) ∷ (if ltb 0 (n / base) && ltb (len + 1) limit then rest else [])

-- `buf[i] = tmp[len - 1 - i]`
abbrev pub rev : List ℕ → List ℕ
rev [] = []
rev (x ∷ xs) = rev xs ++ (x ∷ [])

-- `n % 10 + '0'`
abbrev pub decimal_char : ℕ → ℕ
decimal_char d = d + b'0'

-- The magnitude 2 ^ 31 has no positive `long`: `n = -n` leaves it negative, its remainder is negative,
-- and the loop ends after one character.
unfoldable pub itoa : ℤ → List ℕ
itoa (pos n) = rev (digits_loop decimal_char 10 (buf_size - 2) buf_size n 0) ++ (0 ∷ [])
itoa (negsuc k) =
    let tmp =
      if k + 1 == 2 ^ 31
      then (b'0' - 2 ^ 31 % 10) ∷ []
      else digits_loop decimal_char 10 (buf_size - 2) buf_size (k + 1) 0 in
    rev (tmp ++ (b'-' ∷ [])) ++ (0 ∷ [])

-- The table `hex`.
abbrev pub hex : List ℕ
hex =
    b'0' ∷ b'1' ∷ b'2' ∷ b'3' ∷ b'4' ∷ b'5' ∷ b'6' ∷ b'7' ∷ b'8' ∷ b'9' ∷ b'a' ∷ b'b' ∷ b'c' ∷ b'd'
    ∷ b'e' ∷ b'f' ∷ []

abbrev pub hex_char : ℕ → ℕ
hex_char d = get_or hex d 0

unfoldable pub itox : ℕ → List ℕ
itox n = rev (digits_loop hex_char 16 (buf_size - 1) buf_size n 0) ++ (0 ∷ [])
