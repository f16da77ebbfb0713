-- ===== src/Stdlib/Digits.antt =====
-- The digit loop of kernel/stdlib.c writes the digits of its number.
use magical_os.Base.{
  ℕ, zero, suc, ◌+◌, ◌*◌, ◌/◌, ◌%◌, ◌<◌, ◌≤◌, ◌≡◌, refl, false, List, [], ◌∷◌, ◌++◌, arith, ltb,
  length,
}
use magical_os.Stdlib.{digits_loop, rev}

-- The number that a text stands for, its first character the highest digit.
abbrev pub text_value : (ℕ → ℕ) → ℕ → ℕ → List ℕ → ℕ
text_value value base acc [] = acc
text_value value base acc (c ∷ cs) = text_value value base (acc * base + value c) cs

abbrev pub low_value : (ℕ → ℕ) → ℕ → List ℕ → ℕ
low_value value base [] = 0
low_value value base (c ∷ cs) = value c + low_value value base cs * base

text_value-snoc :
    (value : ℕ → ℕ) (base acc : ℕ) (cs : List ℕ) (c : ℕ)
    → text_value value base acc (cs ++ (c ∷ [])) ≡ text_value value base acc cs * base + value c
text_value-snoc value base acc [] c = refl
text_value-snoc value base acc (d ∷ cs) c = text_value-snoc value base (acc * base + value d) cs c

pub text_value-rev :
    (value : ℕ → ℕ) (base : ℕ) (cs : List ℕ)
    → text_value value base 0 (rev cs) ≡ low_value value base cs
text_value-rev value base [] = refl
text_value-rev value base (c ∷ cs) =
    grind (arith, text_value-snoc value base 0 (rev cs) c, text_value-rev value base cs)

abbrev pub pow : ℕ → ℕ → ℕ
pow b zero = 1
pow b (suc k) = pow b k * b

-- A number of at most `k + 1` digits is written out whole, if the loop has the rounds and the room.
pub digits_loop-value10 :
    (char value : ℕ → ℕ)
    → ((d : ℕ) → d < 10 → value (char d) ≡ d)
    → (k limit rounds n len : ℕ) → n < pow 10 (suc k)
    → len + suc k ≤ limit
    → k < rounds
    → low_value value 10 (digits_loop char 10 limit rounds n len) ≡ n
unfolding digits_loop
digits_loop-value10 char value good k limit zero n len b lim le = absurd (omega arith)
digits_loop-value10 char value good zero limit (suc rounds) n len b lim le =
    ground (arith, good (n % 10))
digits_loop-value10 char value good (suc k) limit (suc rounds) n len b lim le =
    let b' : n / 10 < pow 10 (suc k) = omega arith in
    ground (
      arith,
      good (n % 10),
      digits_loop-value10 char value good k limit rounds (n / 10) (len + 1) b',
    )

-- No more characters than that are stored.
pub length-digits_loop10 :
    (char : ℕ → ℕ) (k limit rounds n len : ℕ)
    → n < pow 10 (suc k)
    → length (digits_loop char 10 limit rounds n len) ≤ suc k
unfolding digits_loop
length-digits_loop10 char k limit zero n len b = omega arith
length-digits_loop10 char zero limit (suc rounds) n len b =
    let z : ltb 0 (n / 10) ≡ false = ground arith in rw z (omega arith)
length-digits_loop10 char (suc k) limit (suc rounds) n len b =
    let b' : n / 10 < pow 10 (suc k) = omega arith in
    ground (arith, length-digits_loop10 char k limit rounds (n / 10) (len + 1) b')

-- A number of at most `k + 1` digits is written out whole, if the loop has the rounds and the room.
pub digits_loop-value16 :
    (char value : ℕ → ℕ)
    → ((d : ℕ) → d < 16 → value (char d) ≡ d)
    → (k limit rounds n len : ℕ) → n < pow 16 (suc k)
    → len + suc k ≤ limit
    → k < rounds
    → low_value value 16 (digits_loop char 16 limit rounds n len) ≡ n
unfolding digits_loop
digits_loop-value16 char value good k limit zero n len b lim le = absurd (omega arith)
digits_loop-value16 char value good zero limit (suc rounds) n len b lim le =
    ground (arith, good (n % 16))
digits_loop-value16 char value good (suc k) limit (suc rounds) n len b lim le =
    let b' : n / 16 < pow 16 (suc k) = omega arith in
    ground (
      arith,
      good (n % 16),
      digits_loop-value16 char value good k limit rounds (n / 16) (len + 1) b',
    )

-- No more characters than that are stored.
pub length-digits_loop16 :
    (char : ℕ → ℕ) (k limit rounds n len : ℕ)
    → n < pow 16 (suc k)
    → length (digits_loop char 16 limit rounds n len) ≤ suc k
unfolding digits_loop
length-digits_loop16 char k limit zero n len b = omega arith
length-digits_loop16 char zero limit (suc rounds) n len b =
    let z : ltb 0 (n / 16) ≡ false = ground arith in rw z (omega arith)
length-digits_loop16 char (suc k) limit (suc rounds) n len b =
    let b' : n / 16 < pow 16 (suc k) = omega arith in
    ground (arith, length-digits_loop16 char k limit rounds (n / 16) (len + 1) b')
