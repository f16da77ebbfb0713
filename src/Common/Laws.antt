-- ===== src/Common/Laws.antt =====
-- kernel/common.c against the strings that the memory holds, and against kernel/string.c.
use mathlib.Core.Path.{subst}
use magical_os.Base.{
  ℕ, zero, suc, ◌+◌, ◌<◌, ◌≡◌, refl, ◌↔◌, some, List, [], ◌∷◌, arith, ◌==◌, if◌then◌else◌, length,
  update,
}
use magical_os.Base.Int.{ℤ, pos, negsuc, char_diff, char_diff_ne}
use magical_os.Bytes.{Memory, CString}
use magical_os.Str.{memcpy_from, memcpy}
use magical_os.Common.{str_end, str_compare, copy_mem}

-- A string that goes on where the other one ends is the greater.
abbrev pub order_strings : List ℕ → List ℕ → ℤ
order_strings [] [] = pos 0
order_strings [] (y ∷ ys) = negsuc 0
order_strings (x ∷ xs) [] = pos 1
order_strings (x ∷ xs) (y ∷ ys) = if x == y then order_strings xs ys else char_diff x y

str_compare-eq :
    (fuel : ℕ) (mem : Memory) (p q : ℕ) (xs ys : List ℕ)
    → CString mem p xs
    → CString mem q ys
    → length xs < fuel
    → str_compare fuel mem p q ≡ some (order_strings xs ys)
unfolding str_compare str_end
str_compare-eq zero mem p q xs ys c d lt = absurd (omega arith)
str_compare-eq (suc fuel) mem p q [] [] c d lt = ground arith
str_compare-eq (suc fuel) mem p q [] (y ∷ ys) c d lt = ground arith
str_compare-eq (suc fuel) mem p q (x ∷ xs) [] c d lt = ground arith
str_compare-eq (suc fuel) mem p q (x ∷ xs) (y ∷ ys) c d lt =
    ground (arith, str_compare-eq fuel mem (p + 1) (q + 1) xs ys c.3 d.3)

order_strings-zero :
    (mem : Memory) (p q : ℕ) (xs ys : List ℕ)
    → CString mem p xs
    → CString mem q ys
    → order_strings xs ys ≡ pos 0
    → xs ≡ ys
order_strings-zero mem p q [] [] c d e = refl
order_strings-zero mem p q [] (y ∷ ys) c d e = cc
order_strings-zero mem p q (x ∷ xs) [] c d e = cc
order_strings-zero mem p q (x ∷ xs) (y ∷ ys) c d e =
    ground (arith, char_diff_ne x y, order_strings-zero mem (p + 1) (q + 1) xs ys c.3 d.3)

order_strings_self : (xs : List ℕ) → order_strings xs xs ≡ pos 0
order_strings_self [] = refl
order_strings_self (x ∷ xs) = ground (arith, order_strings_self xs)

-- On two strings in memory `str_compare` returns 0 exactly when they are equal, 1 or -1 where one is
-- a proper prefix of the other, and else the difference of the first characters that differ; one round
-- more than the first string has characters is enough.
pub str_compare_lem :
    (fuel : ℕ) (mem : Memory) (p q : ℕ) (xs ys : List ℕ)
    → CString mem p xs
    → CString mem q ys
    → length xs < fuel
    → (str_compare fuel mem p q ≡ some (order_strings xs ys))
      × ((order_strings xs ys ≡ pos 0) ↔ (xs ≡ ys))
str_compare_lem fuel mem p q xs ys c d lt = (
  str_compare-eq fuel mem p q xs ys c d lt,
  (
    order_strings-zero mem p q xs ys c d,
    (λ s. subst (λ zs. order_strings xs zs ≡ pos 0) s (order_strings_self xs)),
  ),
)

copy_mem-memcpy_from :
    (n src dst i s d : ℕ) (mem : Memory)
    → s ≡ src + i
    → d ≡ dst + i
    → copy_mem s d n mem ≡ memcpy_from n dst src i mem
unfolding copy_mem memcpy_from
copy_mem-memcpy_from zero src dst i s d mem e f = refl
copy_mem-memcpy_from (suc n) src dst i s d mem e f =
    rw (← e, ← f)
      (copy_mem-memcpy_from n src dst (i + 1) (s + 1) (d + 1) (update mem d (mem s)) (omega arith)
        (omega arith))

-- `copy_mem` leaves the memory that `memcpy` leaves with its first two arguments exchanged, also where
-- the areas overlap.
pub copy_mem-memcpy :
    (src dst size : ℕ) (mem : Memory) → copy_mem src dst size mem ≡ (memcpy dst src size mem).1
unfolding memcpy
copy_mem-memcpy src dst size mem =
    copy_mem-memcpy_from size src dst 0 src dst mem (omega arith) (omega arith)
