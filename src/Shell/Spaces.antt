-- ===== src/Shell/Spaces.antt =====
-- The first space of a string, and strings that `copy_mem` copies.
use magical_os.Base.{
  ℕ, zero, suc, ◌+◌, ◌<◌, ◌≤◌, ◌≡◌, refl, ap, ◌∙◌, ◌⊎◌, inl, inr, Bool, Bool-cases, true, false,
  some, List, [], ◌∷◌, arith, ◌==◌, if◌then◌else◌, update, length,
}
use magical_os.Base.Int.{pos, negsuc}
use magical_os.Bytes.{Memory, CString}
use magical_os.Common.{copy_mem}
use magical_os.Shell.{find_loop}

-- What stands before the first space, and what behind it.
abbrev pub before_space : List ℕ → List ℕ
before_space [] = []
before_space (x ∷ xs) = if x == b' ' then [] else x ∷ before_space xs

abbrev pub behind_space : List ℕ → List ℕ
behind_space [] = []
behind_space (x ∷ xs) = if x == b' ' then xs else behind_space xs

abbrev pub has_space : List ℕ → Bool
has_space [] = false
has_space (x ∷ xs) = if x == b' ' then true else has_space xs

-- The two areas of `n` bytes do not meet.
abbrev pub Clear : ℕ → ℕ → ℕ → Type 0
Clear p q n = (p + n ≤ q) ⊎ (q + n ≤ p)

pub copy_mem-out :
    (n src dst : ℕ) (mem : Memory) (a : ℕ)
    → (a < dst) ⊎ (dst + n ≤ a)
    → copy_mem src dst n mem a ≡ mem a
unfolding copy_mem
copy_mem-out zero src dst mem a out = refl
copy_mem-out (suc n) src dst mem a out =
    ground (arith, copy_mem-out n (src + 1) (dst + 1) (update mem dst (mem src)) a (ground arith))

pub copy_mem-in :
    (n src dst : ℕ) (mem : Memory) (i : ℕ)
    → Clear src dst n
    → i < n
    → copy_mem src dst n mem (dst + i) ≡ mem (src + i)
unfolding copy_mem
copy_mem-in zero src dst mem i clear lt = elim lt [ ]
copy_mem-in (suc n) src dst mem zero clear lt =
    let e : dst + 0 ≡ dst = omega arith in
    let e' : src + 0 ≡ src = omega arith in
    let out =
      copy_mem-out n (src + 1) (dst + 1) (update mem dst (mem src)) dst (inl (omega arith)) in
    rw (e, e') (ground (arith, out))
copy_mem-in (suc n) src dst mem (suc i) clear lt =
    let e : dst + suc i ≡ dst + 1 + i = omega arith in
    let e' : src + suc i ≡ src + 1 + i = omega arith in
    let rest =
      copy_mem-in n (src + 1) (dst + 1) (update mem dst (mem src)) i (ground arith) (omega arith) in
    let other : (dst == src + 1 + i) ≡ false = ground arith in rw (e, e') (rest ∙ rw other refl)

pub find_loop-space :
    (xs : List ℕ) (fuel : ℕ) (mem : Memory) (src i p : ℕ)
    → p ≡ src + i
    → CString mem p xs
    → length xs < fuel
    → find_loop fuel mem src b' ' i
      ≡ some (if has_space xs then pos (i + length (before_space xs)) else negsuc 0)
unfolding find_loop
find_loop-space xs zero mem src i p at c lt = elim lt [ ]
find_loop-space [] (suc fuel) mem src i p at c lt = rw (← at, c) refl
find_loop-space (x ∷ xs) (suc fuel) mem src i p at c lt =
    let nz : (x == 0) ≡ false = ground (arith, c.1) in
    let rest = find_loop-space xs fuel mem src (i + 1) (p + 1) (omega arith) c.3 (omega arith) in
    let count : (n : ℕ) → i + 1 + n ≡ i + suc n = λ n. omega arith in
    elim (Bool-cases (x == b' ')) [
      | inl e ↦ rw (← at, c.0, e) (ap some (ap pos (omega arith)))
      | inr e ↦ rw (← at, c.0, e, nz, ← count (length (before_space xs))) rest
    ]

-- A string that was copied.
pub copied :
    (xs : List ℕ) (mem mem' : Memory) (p q : ℕ)
    → ((i : ℕ) → i ≤ length xs → mem' (q + i) ≡ mem (p + i))
    → CString mem p xs
    → CString mem' q xs
copied [] mem mem' p q same c = ground (arith, same 0)
copied (x ∷ xs) mem mem' p q same c = (
  ground (arith, same 0 (omega arith)),
  c.1,
  c.2,
  copied xs mem mem' (p + 1) (q + 1) (λ i le. ground (arith, same (suc i) (omega arith))) c.3,
)

pub copied_before :
    (xs : List ℕ) (mem mem' : Memory) (p q : ℕ)
    → ((i : ℕ) → i < length (before_space xs) → mem' (q + i) ≡ mem (p + i))
    → mem' (q + length (before_space xs)) ≡ 0
    → CString mem p xs
    → CString mem' q (before_space xs)
copied_before [] mem mem' p q same nul c = ground (arith, nul)
copied_before (x ∷ xs) mem mem' p q same nul c = elim (Bool-cases (x == b' ')) [
  | inl e ↦ let nul' : mem' (q + 0) ≡ 0 = rw e at nul in rw e (ground (arith, nul'))
  | inr e ↦
      let same' : (i : ℕ) → i < suc (length (before_space xs)) → mem' (q + i) ≡ mem (p + i) =
        rw e at same in
      let nul' : mem' (q + suc (length (before_space xs))) ≡ 0 = rw e at nul in
      rw e (
        ground (arith, same' 0 (omega arith)),
        c.1,
        c.2,
        copied_before xs mem mem' (p + 1) (q + 1)
            (λ i lt. ground (arith, same' (suc i) (omega arith))) (ground (arith, nul')) c.3,
      )
]

-- The string behind the space.
pub behind-CString :
    (xs : List ℕ) (mem : Memory) (p : ℕ)
    → has_space xs ≡ true
    → CString mem p xs
    → CString mem (p + (length (before_space xs) + 1)) (behind_space xs)
behind-CString [] mem p h c = absurd (ground (arith, h))
behind-CString (x ∷ xs) mem p h c = elim (Bool-cases (x == b' ')) [
  | inl e ↦ rw e c.3
  | inr e ↦
      let at : p + 1 + (length (before_space xs) + 1) ≡ p + (suc (length (before_space xs)) + 1) =
        omega arith in
      rw (e, ← at) (behind-CString xs mem (p + 1) (rw e at h) c.3)
]

pub lengths :
    (xs : List ℕ)
    → has_space xs ≡ true
    → length xs ≡ length (before_space xs) + 1 + length (behind_space xs)
lengths [] h = absurd (ground (arith, h))
lengths (x ∷ xs) h = elim (Bool-cases (x == b' ')) [
  | inl e ↦ rw e (omega arith)
  | inr e ↦ rw e (omega (arith, lengths xs (rw e at h)))
]

pub no_space :
    (xs : List ℕ) → has_space xs ≡ false → (before_space xs ≡ xs) × (behind_space xs ≡ [])
no_space [] h = (refl, refl)
no_space (x ∷ xs) h = elim (Bool-cases (x == b' ')) [
  | inl e ↦ absurd (ground (arith, e, h))
  | inr e ↦ let rest = no_space xs (rw e at h) in rw e (ap (λ ys. x ∷ ys) rest.0, rest.1)
]
