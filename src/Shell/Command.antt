-- ===== src/Shell/Command.antt =====
-- `get_command_id` looks the name up.
use magical_os.Base.{
  ℕ, zero, suc, ◌+◌, ◌≡◌, refl, ◌∙◌, ◌&&◌, Bool, true, false, Bool-cases, inl, inr, List, [], ◌∷◌,
  arith, ◌==◌, if◌then◌else◌, ltb, ◌≢◌,
}
use magical_os.Base.Int.{ℤ, pos, negsuc, char_diff, char_diff_ne}
use magical_os.Bytes.{Memory, CString}
use magical_os.Shell.{
  compare_name, CommandId, command_num, is_equal, names, try_names, get_command_id,
}

abbrev pub same_text : List ℕ → List ℕ → Bool
same_text [] [] = true
same_text [] (y ∷ ys) = false
same_text (x ∷ xs) [] = false
same_text (x ∷ xs) (y ∷ ys) = (x == y) && same_text xs ys

-- The command with this name in the table.
abbrev pub lookup : List ℕ → List (List ℕ × CommandId) → CommandId
lookup xs [] = command_num
lookup xs (n ∷ ns) = if same_text xs n.0 then n.1 else lookup xs ns

abbrev all_bytes : List ℕ → Bool
all_bytes [] = true
all_bytes (d ∷ ds) = ltb d 256 && all_bytes ds

is_equal-ne : (z : ℤ) (id rest : CommandId) → z ≢ pos 0 → is_equal z id rest ≡ rest
is_equal-ne (pos zero) id rest ne = absurd (ne refl)
is_equal-ne (pos (suc n)) id rest ne = refl
is_equal-ne (negsuc n) id rest ne = refl

compare_name-same :
    (xs ds : List ℕ) (mem : Memory) (p : ℕ) (id rest : CommandId)
    → CString mem p xs
    → all_bytes ds ≡ true
    → is_equal (compare_name mem p ds) id rest ≡ (if same_text xs ds then id else rest)
unfolding compare_name
compare_name-same [] [] mem p id rest c b = rw c refl
compare_name-same [] (d ∷ ds) mem p id rest c b = rw c refl
compare_name-same (x ∷ xs) [] mem p id rest c b =
    let nz : (mem p == 0) ≡ false = ground (arith, c.0, c.1) in rw nz refl
compare_name-same (x ∷ xs) (d ∷ ds) mem p id rest c b =
    let nz : (x == 0) ≡ false = ground (arith, c.1) in
    elim (Bool-cases (x == d)) [
      | inl e ↦
          rw (c.0, nz, e) (compare_name-same xs ds mem (p + 1) id rest c.3 (ground (arith, b)))
      | inr e ↦
          rw (c.0, nz, e)
            (is_equal-ne (char_diff x d) id rest
              (char_diff_ne x d c.2 (ground (arith, b)) (ground (arith, e))))
    ]

abbrev all_names : List (List ℕ × CommandId) → Bool
all_names [] = true
all_names (n ∷ ns) = all_bytes n.0 && all_names ns

try_names-lookup :
    (ns : List (List ℕ × CommandId)) (xs : List ℕ) (mem : Memory) (p : ℕ)
    → CString mem p xs
    → all_names ns ≡ true
    → try_names mem p ns ≡ lookup xs ns
unfolding try_names
try_names-lookup [] xs mem p c b = refl
try_names-lookup (n ∷ ns) xs mem p c b =
    compare_name-same xs n.0 mem p n.1 (try_names mem p ns) c (ground (arith, b))
    ∙ rw (try_names-lookup ns xs mem p c (ground (arith, b))) refl

-- On a string in memory `get_command_id` gives the command that has the string as its name, and
-- COMMAND_NUM where none has.
pub get_command_id-lookup :
    (xs : List ℕ) (mem : Memory) (p : ℕ) → CString mem p xs → get_command_id mem p ≡ lookup xs names
unfolding get_command_id
get_command_id-lookup xs mem p c = try_names-lookup names xs mem p c refl
