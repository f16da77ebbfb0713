-- ===== src/Examples/Strings.antt =====
-- The theorems on strings and numbers: "ab" stands at 10, "ac" at 20.
use magical_os.Base.{
  ℕ, ◌<◌, ◌≤◌, ◌≡◌, ◌↔◌, refl, some, arith, List, [], ◌∷◌, ◌++◌, ◌==◌, if◌then◌else◌, All, length,
}
use magical_os.Base.Int.{pos, negsuc}
use magical_os.Bytes.{Memory, CString}
use magical_os.Str.{strcmp}
use magical_os.Str.Compare.{compare_strings, strcmp_lem}
use magical_os.Stdlib.{itoa}
use magical_os.Stdlib.Digits.{text_value}
use magical_os.Stdlib.Laws.{decimal_value, IsDigit, itoa_lem}

abbrev ab : List ℕ
ab = 97 ∷ 98 ∷ []

abbrev ac : List ℕ
ac = 97 ∷ 99 ∷ []

abbrev two_strings : Memory
two_strings a =
    if a == 10
    then 97
    else if a == 11
    then 98
    else if a == 20
    then 97
    else if a == 21
    then 99
    else 0

ab-CString : CString two_strings 10 ab
ab-CString = (refl, omega arith, omega arith, (refl, omega arith, omega arith, refl))

ac-CString : CString two_strings 20 ac
ac-CString = (refl, omega arith, omega arith, (refl, omega arith, omega arith, refl))

strcmp_lem_example :
    (strcmp 3 two_strings 10 20 ≡ some (compare_strings ab ac))
    × ((strcmp 3 two_strings 10 20 ≡ some (pos 0)) ↔ (ab ≡ ac))
strcmp_lem_example = strcmp_lem 3 two_strings 10 20 ab ac ab-CString ac-CString (omega arith)

itoa_lem_example :
    (text : List ℕ) × (itoa (pos 205) ≡ text ++ (0 ∷ []))
    × (0 < 205 → itoa (negsuc 204) ≡ 45 ∷ (text ++ (0 ∷ [])))
    × All IsDigit text
    × (text_value decimal_value 10 0 text ≡ 205)
    × (length text ≤ 10)
itoa_lem_example = itoa_lem 205 (omega arith)
