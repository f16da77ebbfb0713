-- ===== src/Shell/Hex.antt =====
-- `str_conv_ahex_int` reads what `itox` writes.
use magical_os.Base.{
  ℕ, zero, suc, ◌+◌, ◌-◌, ◌*◌, ◌%◌, ◌^◌, ◌<◌, ◌≤◌, ◌≡◌, refl, ap, ◌∙◌, true, false, ◌&&◌, some,
  List, [], ◌∷◌, ◌++◌, leb, ◌==◌, arith, length, All, passes_upto, passes_upto-digit, update,
}
use magical_os.Bytes.{Memory, CString, CString-frame}
use magical_os.Stdlib.{itox}
use magical_os.Stdlib.Laws.{hex_value, IsHex, itox_lem}
use magical_os.Stdlib.Digits.{text_value}
use magical_os.Stdlib.Digits as Digits
use magical_os.Shell.{pow, len_loop, str_get_len, ahex_digit, conv_loop, str_conv_ahex_int}

len_loop-length :
    (xs : List ℕ) (fuel : ℕ) (mem : Memory) (src i p : ℕ)
    → p ≡ src + i
    → CString mem p xs
    → length xs < fuel
    → len_loop fuel mem src i ≡ some (i + length xs + 1)
unfolding len_loop
len_loop-length xs zero mem src i p at c lt = elim lt [ ]
len_loop-length [] (suc fuel) mem src i p at c lt = rw (← at, c) (ap some (omega arith))
len_loop-length (x ∷ xs) (suc fuel) mem src i p at c lt =
    let rest = len_loop-length xs fuel mem src (i + 1) (p + 1) (omega arith) c.3 (omega arith) in
    let nz : (mem p == 0) ≡ false = ground (arith, c.0, c.1) in
    let count : i + 1 + length xs + 1 ≡ i + suc (length xs) + 1 = omega arith in
    rw (← at, nz, rest) (ap some count)

pub str_get_len-length :
    (xs : List ℕ) (fuel : ℕ) (mem : Memory) (src : ℕ)
    → CString mem src xs
    → length xs < fuel
    → str_get_len fuel mem src ≡ some (length xs + 1)
unfolding str_get_len
str_get_len-length xs fuel mem src c lt =
    len_loop-length xs fuel mem src 0 src (omega arith) c lt ∙ ap some (omega arith)

pow_table : passes_upto (λ k. (pow 16 k == Digits.pow 16 k) && leb (pow 16 k) (16 ^ 7)) 8 ≡ true
unfolding passes_upto pow
pow_table = refl

-- The exponents that a number of eight digits needs do not wrap.
pow-exact : (k : ℕ) → k < 8 → pow 16 k ≡ Digits.pow 16 k
pow-exact k lt =
    let h =
      passes_upto-digit (λ k. (pow 16 k == Digits.pow 16 k) && leb (pow 16 k) (16 ^ 7)) 8 k lt
        pow_table in
    ground (arith, h)

-- A text with something before it.
text_value-acc :
    (xs : List ℕ) (acc : ℕ)
    → text_value hex_value 16 acc xs
      ≡ acc * Digits.pow 16 (length xs) + text_value hex_value 16 0 xs
text_value-acc [] acc = omega arith
text_value-acc (x ∷ xs) acc =
    omega
      (arith, text_value-acc xs (acc * 16 + hex_value x), text_value-acc xs (0 * 16 + hex_value x))

ahex_digit-value : (c : ℕ) → IsHex c → ahex_digit c ≡ hex_value c
ahex_digit-value c h = ground (arith, h)

conv_loop-value :
    (xs : List ℕ) (fuel : ℕ) (mem : Memory) (s p i val : ℕ)
    → p ≡ s + i
    → CString mem p xs
    → All IsHex xs
    → length xs ≤ 8
    → length xs < fuel
    → val + text_value hex_value 16 0 xs < 2 ^ 32
    → conv_loop fuel mem s (i + length xs + 1) i val ≡ some (val + text_value hex_value 16 0 xs)
unfolding conv_loop
conv_loop-value xs zero mem s p i val at c h short lt fits = elim lt [ ]
conv_loop-value [] (suc fuel) mem s p i val at c h short lt fits =
    rw (← at, c) (ap some (omega arith))
conv_loop-value (x ∷ xs) (suc fuel) mem s p i val at c h short lt fits =
    let nz : (x == 0) ≡ false = ground (arith, c.1) in
    let power : pow 16 (i + suc (length xs) + 1 - 2 - i) ≡ Digits.pow 16 (length xs) =
      ap (pow 16) (omega arith) ∙ pow-exact (length xs) (omega arith) in
    let acc = text_value-acc xs (0 * 16 + hex_value x) in
    let val' : (val + hex_value x * Digits.pow 16 (length xs)) % 2 ^ 32
        ≡ val + hex_value x * Digits.pow 16 (length xs) =
      omega (arith, acc) in
    let len : i + suc (length xs) + 1 ≡ i + 1 + length xs + 1 = omega arith in
    let rest =
      conv_loop-value xs fuel mem s (p + 1) (i + 1) (val + hex_value x * Digits.pow 16 (length xs))
        (omega arith) c.3 h.1 (omega arith) (omega arith) (omega (arith, acc)) in
    rw (← at, c.0, nz, ahex_digit-value x h.0, power, val', len, rest)
      (ap some (omega (arith, acc)))

str_conv_ahex_int-value :
    (xs : List ℕ) (fuel : ℕ) (mem : Memory) (p : ℕ)
    → CString mem p xs
    → All IsHex xs
    → length xs ≤ 8
    → length xs < fuel
    → text_value hex_value 16 0 xs < 2 ^ 32
    → str_conv_ahex_int fuel mem p ≡ some (text_value hex_value 16 0 xs)
unfolding str_conv_ahex_int
str_conv_ahex_int-value xs fuel mem p c h short lt fits =
    let len : length xs + 1 ≡ 0 + length xs + 1 = omega arith in
    let value = conv_loop-value xs fuel mem p p 0 0 (omega arith) c h short lt (omega arith) in
    rw (str_get_len-length xs fuel mem p c lt, len) (value ∙ ap some (omega arith))

-- The bytes of a list are stored from `p` on.
abbrev pub store : List ℕ → ℕ → Memory → Memory
store [] p mem = mem
store (x ∷ xs) p mem = update (store xs (p + 1) mem) p x

store-below : (xs : List ℕ) (p : ℕ) (mem : Memory) (a : ℕ) → a < p → store xs p mem a ≡ mem a
store-below [] p mem a lt = refl
store-below (x ∷ xs) p mem a lt = ground (arith, store-below xs (p + 1) mem a (omega arith))

store-CString :
    (xs : List ℕ) (p : ℕ) (mem : Memory)
    → All IsHex xs
    → CString (store (xs ++ (0 ∷ [])) p mem) p xs
store-CString [] p mem h = ground arith
store-CString (x ∷ xs) p mem h = (
  ground arith,
  (λ z. ground (arith, h.0)),
  ground (arith, h.0),
  CString-frame (store (xs ++ (0 ∷ [])) (p + 1) mem) (store ((x ∷ xs) ++ (0 ∷ [])) p mem) (p + 1) xs
      (λ a l u. ground arith) (store-CString xs (p + 1) mem h.1),
)

-- The shell's `str_conv_ahex_int` reads back every number of 32 bits from the text that `itox` stores, and
-- fuel for its eight digits and the NUL is enough.
pub str_conv_ahex_int-itox :
    (n p : ℕ) (mem : Memory) → n < 2 ^ 32 → str_conv_ahex_int 9 (store (itox n) p mem) p ≡ some n
str_conv_ahex_int-itox n p mem lt =
    let (text, e, hex, value, short) = itox_lem n lt in
    let stored : CString (store (itox n) p mem) p text = rw e (store-CString text p mem hex) in
    str_conv_ahex_int-value text 9 (store (itox n) p mem) p stored hex short (omega arith)
      (omega (arith, value))
    ∙ ap some value
