-- ===== src/Stdlib/Laws.antt =====
-- `itoa` and `itox` of kernel/stdlib.c write the digits of their number.
use magical_os.Base.{
  ℕ, zero, suc, ◌+◌, ◌-◌, ◌/◌, ◌%◌, ◌^◌, ◌<◌, ◌≤◌, ◌≡◌, refl, ap, ◌∙◌, Bool, true, false, ◌&&◌,
  ◌||◌, Bool-cases, inl, inr, List, [], ◌∷◌, ◌++◌, arith, ltb, leb, ◌==◌, ==_iff, if◌then◌else◌,
  length, length-append, All, All-snoc, passes_upto, passes_upto-digit,
}
use magical_os.Base.Int.{pos, negsuc}
use magical_os.Stdlib.{buf_size, digits_loop, rev, decimal_char, hex_char, itoa, itox}
use magical_os.Stdlib.Digits.{
  text_value, text_value-rev, digits_loop-value10, digits_loop-value16, length-digits_loop10,
  length-digits_loop16,
}

abbrev pub decimal_value : ℕ → ℕ
decimal_value c = c - b'0'

abbrev pub IsDigit : ℕ → Type 0
IsDigit c = (b'0' ≤ c) × (c ≤ b'9')

-- A lower case hexadecimal digit.
abbrev pub hex_value : ℕ → ℕ
hex_value c = if leb c b'9' then c - b'0' else c - b'a' + 10

abbrev pub is_hex : ℕ → Bool
is_hex c = leb b'0' c && leb c b'9' || leb b'a' c && leb c b'f'

abbrev pub IsHex : ℕ → Type 0
IsHex c = is_hex c ≡ true

hex_table : passes_upto (λ d. hex_value (hex_char d) == d) 16 ≡ true
unfolding passes_upto
hex_table = refl

hex_char_value : (d : ℕ) → d < 16 → hex_value (hex_char d) ≡ d
hex_char_value d lt =
    (==_iff (hex_value (hex_char d)) d).0
      (passes_upto-digit (λ d. hex_value (hex_char d) == d) 16 d lt hex_table)

All-rev : (P : ℕ → Type 0) (xs : List ℕ) → All P xs → All P (rev xs)
All-rev P [] h = tt
All-rev P (x ∷ xs) h = All-snoc P (rev xs) x (All-rev P xs h.1) h.0

length-rev : (xs : List ℕ) → length (rev xs) ≡ length xs
length-rev [] = refl
length-rev (x ∷ xs) = omega (arith, length-rev xs, length-append {0} (rev xs) (x ∷ []))

All-digits_loop :
    (limit rounds n len : ℕ) → All IsDigit (digits_loop decimal_char 10 limit rounds n len)
unfolding digits_loop
All-digits_loop limit zero n len = tt
All-digits_loop limit (suc rounds) n len =
    ground (arith, All-digits_loop limit rounds (n / 10) (len + 1))

rev-snoc : (xs : List ℕ) (c : ℕ) → rev (xs ++ (c ∷ [])) ≡ c ∷ rev xs
rev-snoc [] c = refl
rev-snoc (x ∷ xs) c = ap (λ ys. ys ++ (x ∷ [])) (rev-snoc xs c)

hex_char-IsHex_table : passes_upto (λ d. is_hex (hex_char d)) 16 ≡ true
unfolding passes_upto
hex_char-IsHex_table = refl

hex_char-IsHex : (d : ℕ) → d < 16 → IsHex (hex_char d)
hex_char-IsHex d lt = passes_upto-digit (λ d. is_hex (hex_char d)) 16 d lt hex_char-IsHex_table

All-IsHex_loop : (limit rounds n len : ℕ) → All IsHex (digits_loop hex_char 16 limit rounds n len)
unfolding digits_loop
All-IsHex_loop limit zero n len = tt
All-IsHex_loop limit (suc rounds) n len =
    let h = hex_char-IsHex (n % 16) (omega arith) in
    let rest = All-IsHex_loop limit rounds (n / 16) (len + 1) in
    elim (Bool-cases (ltb 0 (n / 16) && ltb (len + 1) limit)) [
      | inl e ↦ rw e (h, rest)
      | inr e ↦ rw e (h, tt)
    ]

-- The decimal text of a number.
decimal : ℕ → List ℕ
decimal n = rev (digits_loop decimal_char 10 (buf_size - 2) buf_size n 0)

-- For every magnitude below 2 ^ 31, `itoa` stores a text of at most ten decimal digits that reads as the
-- magnitude, with a minus sign before it for the negative number, and a NUL.
pub itoa_lem :
    (n : ℕ)
    → n < 2 ^ 31
    → (text : List ℕ) × (itoa (pos n) ≡ text ++ (0 ∷ []))
      × (0 < n → itoa (negsuc (n - 1)) ≡ b'-' ∷ (text ++ (0 ∷ [])))
      × All IsDigit text
      × (text_value decimal_value 10 0 text ≡ n)
      × (length text ≤ 10)
unfolding itoa decimal
itoa_lem n lt =
    let low = digits_loop decimal_char 10 (buf_size - 2) buf_size n 0 in
    (
      decimal n,
      refl,
      (λ p.
          let e : n - 1 + 1 ≡ n = omega arith in
          let far : (n == 2 ^ 31) ≡ false = ground arith in rw (e, far, rev-snoc low b'-')),
      All-rev IsDigit low (All-digits_loop (buf_size - 2) buf_size n 0),
      text_value-rev decimal_value 10 low
          ∙ digits_loop-value10 decimal_char decimal_value (λ d h. omega arith) 9 (buf_size - 2)
              buf_size n 0 (omega arith) (omega arith) (omega arith),
      omega (
        arith,
        length-rev low,
        length-digits_loop10 decimal_char 9 (buf_size - 2) buf_size n 0 (omega arith),
      ),
    )

-- For every `unsigned long`, `itox` stores a text of at most eight lower case hexadecimal digits that
-- reads as the number, and a NUL.
pub itox_lem :
    (n : ℕ)
    → n < 2 ^ 32
    → (text : List ℕ) × (itox n ≡ text ++ (0 ∷ []))
      × All IsHex text
      × (text_value hex_value 16 0 text ≡ n)
      × (length text ≤ 8)
unfolding itox
itox_lem n lt =
    let low = digits_loop hex_char 16 (buf_size - 1) buf_size n 0 in
    (
      rev low,
      refl,
      All-rev IsHex low (All-IsHex_loop (buf_size - 1) buf_size n 0),
      text_value-rev hex_value 16 low
          ∙ digits_loop-value16 hex_char hex_value hex_char_value 7 (buf_size - 1) buf_size n 0
              (omega arith) (omega arith) (omega arith),
      omega (
        arith,
        length-rev low,
        length-digits_loop16 hex_char 7 (buf_size - 1) buf_size n 0 (omega arith),
      ),
    )
