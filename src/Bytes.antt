-- ===== src/Bytes.antt =====
-- Memory as the program's byte and string routines see it: a byte for each address. Addresses do not
-- wrap, and a string is the bytes up to a NUL.
use magical_os.Base.{ℕ, ◌+◌, ◌≤◌, ◌<◌, ◌≡◌, ◌≢◌, List, [], ◌∷◌, arith, length}

abbrev pub Memory : Type 0
Memory = ℕ → ℕ

-- The string `xs` stands at `p`, with its NUL behind it.
abbrev pub CString : Memory → ℕ → List ℕ → Type 0
CString mem p [] = mem p ≡ 0
CString mem p (x ∷ xs) = (mem p ≡ x) × (x ≢ 0) × (x < 256) × CString mem (p + 1) xs

-- A string is where its bytes are: memories that agree there hold it both.
pub CString-frame :
    (mem mem' : Memory) (p : ℕ) (xs : List ℕ)
    → ((a : ℕ) → p ≤ a → a ≤ p + length xs → mem' a ≡ mem a)
    → CString mem p xs
    → CString mem' p xs
CString-frame mem mem' p [] same c = ground (arith, same p)
CString-frame mem mem' p (x ∷ xs) same c = (
  ground (arith, same p),
  c.1,
  c.2,
  CString-frame mem mem' (p + 1) xs (λ a l u. same a (omega arith) (omega arith)) c.3,
)
