-- ===== src/Shell/Entry.antt =====
-- `str_get_first_entry` splits a line at its first space.
use magical_os.Base.{
  ℕ, ◌+◌, ◌-◌, ◌<◌, ◌≤◌, ◌≡◌, ◌∙◌, ◌⊎◌, inl, inr, Bool-cases, List, arith, if◌then◌else◌, update,
  length, Returns,
}
use magical_os.Base.Int.{pos, negsuc}
use magical_os.Bytes.{Memory, CString}
use magical_os.Common.{copy_mem}
use magical_os.Shell.{str_find_char, split_at, str_get_first_entry}
use magical_os.Shell.Spaces.{
  before_space, behind_space, Clear, has_space, copy_mem-out, copy_mem-in, find_loop-space, copied,
  copied_before, behind-CString, lengths, no_space,
}
use magical_os.Shell.Hex.{str_get_len-length}

-- The line and the two buffers have `n` bytes each, and do not meet.
pub record Apart (line first other n : ℕ) : Type 0 where
  pub line_first : Clear line first n
  pub line_other : Clear line other n
  pub first_other : Clear first other n

-- The address is outside an area of `n` bytes.
abbrev pub Outside : ℕ → ℕ → ℕ → Type 0
Outside p n a = (a < p) ⊎ (p + n ≤ a)

-- The two strings stand in the buffers, and no byte outside these is new.
pub record IsSplit (first other : ℕ) (xs : List ℕ) (mem mem' : Memory) : Type 0 where
  pub word : CString mem' first (before_space xs)
  pub others : CString mem' other (behind_space xs)
  pub frame :
      (a : ℕ) → Outside first (length xs + 1) a → Outside other (length xs + 1) a → mem' a ≡ mem a

split_at-frame :
    (xs : List ℕ) (mem : Memory) (line first other a : ℕ)
    → Outside first (length xs + 1) a
    → Outside other (length xs + 1) a
    → split_at line first other
        (length xs + 1)
        (if has_space xs then pos (length (before_space xs)) else negsuc 0)
        mem
        a
      ≡ mem a
split_at-frame xs mem line first other a out1 out2 = elim (Bool-cases (has_space xs)) [
  | inl h ↦
      let i = length (before_space xs) in
      let len = lengths xs h in
      let mem2 = update (copy_mem line first i mem) (first + i) 0 in
      let second =
        copy_mem-out (length xs + 1 - (i + 1)) (line + (i + 1)) other mem2 a
          (ground (arith, len)) in
      let one = copy_mem-out i line first mem a (ground (arith, len)) in
      rw h (second ∙ ground (arith, one, len))
  | inr h ↦
      let one = copy_mem-out (length xs + 1) line first mem a (ground arith) in
      rw h (ground (arith, one))
]

abbrev Strings : ℕ → ℕ → List ℕ → Memory → Type 0
Strings first other xs mem' =
    CString mem' first (before_space xs) × CString mem' other (behind_space xs)

split_at-split :
    (xs : List ℕ) (mem : Memory) (line first other : ℕ)
    → CString mem line xs
    → Apart line first other (length xs + 1)
    → Strings first other xs (
        split_at line first other
          (length xs + 1)
          (if has_space xs then pos (length (before_space xs)) else negsuc 0)
          mem)
split_at-split xs mem line first other c v = elim (Bool-cases (has_space xs)) [
  | inl h ↦
      let i = length (before_space xs) in
      let len = lengths xs h in
      let rest : length xs + 1 - (i + 1) ≡ length (behind_space xs) + 1 = omega arith in
      let mem1 = copy_mem line first i mem in
      let mem2 = update mem1 (first + i) 0 in
      let mem3 = copy_mem (line + (i + 1)) other (length (behind_space xs) + 1) mem2 in
      let out3 = copy_mem-out (length (behind_space xs) + 1) (line + (i + 1)) other mem2 in
      let out1 = copy_mem-out i line first mem in
      rw (h, rest)
        (
          copied_before xs mem mem3 line first
              (λ j lt. ground (
                arith,
                out3 (first + j) (ground (arith, v.first_other)),
                copy_mem-in i line first mem j (ground (arith, v.line_first)) lt,
              ))
              (ground (arith, out3 (first + i) (ground (arith, v.first_other)))) c,
          copied (behind_space xs) mem mem3 (line + (i + 1)) other
              (λ j le.
                copy_mem-in (length (behind_space xs) + 1) (line + (i + 1)) other mem2 j
                  (ground (arith, v.line_other)) (omega arith)
                ∙ ground
                    (arith, out1 (line + (i + 1) + j) (ground (arith, v.line_first)), v.line_first))
              (behind-CString xs mem line h c),
        )
  | inr h ↦
      let none_left = no_space xs h in
      rw (h, none_left.0, none_left.1)
        (
          copied xs mem (update (copy_mem line first (length xs + 1) mem) other 0) line first
              (λ j le. ground (
                arith,
                copy_mem-in (length xs + 1) line first mem j v.line_first (omega arith),
                v.first_other,
              ))
              c,
          ground arith,
        )
]

split_at-IsSplit :
    (xs : List ℕ) (mem : Memory) (line first other : ℕ)
    → CString mem line xs
    → Apart line first other (length xs + 1)
    → IsSplit first other xs mem (
        split_at line first other
          (length xs + 1)
          (if has_space xs then pos (length (before_space xs)) else negsuc 0)
          mem)
split_at-IsSplit xs mem line first other c v =
    let both = split_at-split xs mem line first other c v in
    record { word = both.0; others = both.1; frame = λ a. split_at-frame xs mem line first other a }

-- `str_get_first_entry` with fuel for one round more than the line has characters: the first buffer gets
-- the string before the first space, the other what stands behind it, or the whole line and an empty
-- string where there is no space, and no byte outside the buffers changes, if neither meets the line or
-- the other.
pub str_get_first_entry-IsSplit :
    (xs : List ℕ) (fuel : ℕ) (mem : Memory) (line first other : ℕ)
    → CString mem line xs
    → Apart line first other (length xs + 1)
    → length xs < fuel
    → Returns (IsSplit first other xs mem) (str_get_first_entry fuel line first other mem)
unfolding str_get_first_entry str_find_char
str_get_first_entry-IsSplit xs fuel mem line first other c v lt =
    let at : 0 + length (before_space xs) ≡ length (before_space xs) = omega arith in
    rw
      (
        str_get_len-length xs fuel mem line c lt,
        find_loop-space xs fuel mem line 0 line (omega arith) c lt,
        at,
      )
      (split_at-IsSplit xs mem line first other c v)
