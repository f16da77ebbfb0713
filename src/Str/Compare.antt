-- ===== src/Str/Compare.antt =====
-- The comparisons of kernel/string.c against the strings that the memory holds.
use mathlib.Core.Path.{subst}
use magical_os.Base.{
  ℕ, zero, suc, ◌+◌, ◌<◌, ◌≡◌, refl, ap, ◌∙◌, ◌↔◌, some, List, [], ◌∷◌, arith, ◌==◌, if◌then◌else◌,
  length, take,
}
use magical_os.Base.Int.{ℤ, pos, char_diff, char_diff_ne}
use magical_os.Bytes.{Memory, CString}
use magical_os.Str.{strcmp, strncmp, skip_string, strlen}

-- The difference of the first two characters that differ, with the end of a string as 0.
abbrev pub compare_strings : List ℕ → List ℕ → ℤ
compare_strings [] [] = pos 0
compare_strings [] (y ∷ ys) = char_diff 0 y
compare_strings (x ∷ xs) [] = char_diff x 0
compare_strings (x ∷ xs) (y ∷ ys) = if x == y then compare_strings xs ys else char_diff x y

strcmp-eq :
    (fuel : ℕ) (mem : Memory) (p q : ℕ) (xs ys : List ℕ)
    → CString mem p xs
    → CString mem q ys
    → length xs < fuel
    → strcmp fuel mem p q ≡ some (compare_strings xs ys)
unfolding strcmp
strcmp-eq zero mem p q xs ys c d lt = absurd (omega arith)
strcmp-eq (suc fuel) mem p q [] [] c d lt = ground arith
strcmp-eq (suc fuel) mem p q [] (y ∷ ys) c d lt = ground arith
strcmp-eq (suc fuel) mem p q (x ∷ xs) [] c d lt = ground arith
strcmp-eq (suc fuel) mem p q (x ∷ xs) (y ∷ ys) c d lt =
    ground (arith, strcmp-eq fuel mem (p + 1) (q + 1) xs ys c.3 d.3)

compare_strings-zero :
    (mem : Memory) (p q : ℕ) (xs ys : List ℕ)
    → CString mem p xs
    → CString mem q ys
    → compare_strings xs ys ≡ pos 0
    → xs ≡ ys
compare_strings-zero mem p q [] [] c d e = refl
compare_strings-zero mem p q [] (y ∷ ys) c d e = ground (arith, char_diff_ne 0 y)
compare_strings-zero mem p q (x ∷ xs) [] c d e = ground (arith, char_diff_ne x 0)
compare_strings-zero mem p q (x ∷ xs) (y ∷ ys) c d e =
    ground (arith, char_diff_ne x y, compare_strings-zero mem (p + 1) (q + 1) xs ys c.3 d.3)

pub compare_strings_self : (xs : List ℕ) → compare_strings xs xs ≡ pos 0
compare_strings_self [] = refl
compare_strings_self (x ∷ xs) = ground (arith, compare_strings_self xs)

-- On two strings in memory `strcmp` returns the difference of the first characters that differ, and
-- 0 exactly when the strings are equal; one round more than the first string has characters is enough.
pub strcmp_lem :
    (fuel : ℕ) (mem : Memory) (p q : ℕ) (xs ys : List ℕ)
    → CString mem p xs
    → CString mem q ys
    → length xs < fuel
    → (strcmp fuel mem p q ≡ some (compare_strings xs ys))
      × ((strcmp fuel mem p q ≡ some (pos 0)) ↔ (xs ≡ ys))
strcmp_lem fuel mem p q xs ys c d lt =
    let e = strcmp-eq fuel mem p q xs ys c d lt in
    (
      e,
      (
        (λ z. compare_strings-zero mem p q xs ys c d (ground arith)),
        (λ s.
            e ∙ ap some (subst (λ zs. compare_strings xs zs ≡ pos 0) s (compare_strings_self xs))),
      ),
    )

-- `strncmp` is the comparison of the first `n` characters.
pub strncmp_lem :
    (n : ℕ) (mem : Memory) (p q : ℕ) (xs ys : List ℕ)
    → CString mem p xs
    → CString mem q ys
    → strncmp mem p q n ≡ compare_strings (take n xs) (take n ys)
unfolding strncmp
strncmp_lem zero mem p q xs ys c d = refl
strncmp_lem (suc n) mem p q [] [] c d = ground arith
strncmp_lem (suc n) mem p q [] (y ∷ ys) c d = ground arith
strncmp_lem (suc n) mem p q (x ∷ xs) [] c d = ground arith
strncmp_lem (suc n) mem p q (x ∷ xs) (y ∷ ys) c d =
    ground (arith, strncmp_lem n mem (p + 1) (q + 1) xs ys c.3 d.3)

pub skip_string_lem :
    (fuel : ℕ) (mem : Memory) (p : ℕ) (xs : List ℕ)
    → CString mem p xs
    → length xs < fuel
    → skip_string fuel mem p ≡ some (p + length xs + 1)
unfolding skip_string
skip_string_lem zero mem p xs c lt = absurd (omega arith)
skip_string_lem (suc fuel) mem p [] c lt = ground arith
skip_string_lem (suc fuel) mem p (x ∷ xs) c lt =
    ground (arith, skip_string_lem fuel mem (p + 1) xs c.3)

-- `strlen` returns one more than the number of characters: it counts the NUL.
pub strlen_lem :
    (fuel : ℕ) (mem : Memory) (p : ℕ) (xs : List ℕ)
    → CString mem p xs
    → length xs < fuel
    → strlen fuel mem p ≡ some (length xs + 1)
unfolding strlen
strlen_lem fuel mem p xs c lt =
    rw (skip_string_lem fuel mem p xs c lt, strlen) (ap some (omega arith))
