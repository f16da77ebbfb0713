-- ===== src/Shell/Commands/Session.antt =====
-- What the shell meets: the keys that are typed, its buffers and texts, and the files.
use magical_os.Base.{
  ℕ, suc, ◌+◌, ◌-◌, ◌<◌, ◌≤◌, ◌≡◌, ◌≢◌, true, some, List, [], ◌∷◌, arith, length, All, mem,
}
use magical_os.Bytes.{Memory, CString, CString-frame}
use magical_os.Links.Ring.{Ring}
use magical_os.Screen.Line.Edit.{typed, edit, Stored}
use magical_os.Syscall.{Kernel, codes}
use magical_os.Shell.Spaces.{before_space, Clear}
use magical_os.Shell.Entry.{Apart, Outside}
use magical_os.Shell.Commands.{Buffers, Texts, max_line_size}

-- A character that a string can have.
abbrev pub IsChar : ℕ → Type 0
IsChar c = (c ≢ 0) × (c < 256)

-- The line in the order in which it is read.
abbrev pub in_order : List ℕ → List ℕ → List ℕ
in_order [] acc = acc
in_order (c ∷ line) acc = in_order line (c ∷ acc)

pub length-in_order : (line acc : List ℕ) → length (in_order line acc) ≡ length line + length acc
length-in_order [] acc = omega arith
length-in_order (c ∷ line) acc = omega (arith, length-in_order line (c ∷ acc))

pub Stored-CString :
    (line acc : List ℕ) (mem : Memory) (buf : ℕ)
    → Stored mem buf line
    → All IsChar line
    → CString mem (buf + length line) acc
    → CString mem buf (in_order line acc)
Stored-CString [] acc mem buf s h c = let e : buf + 0 ≡ buf = omega arith in rw e at c
Stored-CString (x ∷ line) acc mem buf s h c =
    let e : buf + suc (length line) ≡ buf + length line + 1 = omega arith in
    Stored-CString line (x ∷ acc) mem buf s.1 h.1 (s.0, h.0.0, h.0.1, rw e at c)

pub length-before_space : (xs : List ℕ) → length (before_space xs) ≤ length xs
length-before_space [] = omega arith
length-before_space (x ∷ xs) = ground (arith, length-before_space xs)

-- The address is in none of the buffers of `shell_main`.
pub record Elsewhere (b : Buffers) (a : ℕ) : Type 0 where
  pub line : Outside b.line max_line_size a
  pub command : Outside b.command 256 a
  pub args : Outside b.args 256 a

-- A string that is not in the buffers.
pub record Kept (b : Buffers) (mem : Memory) (p : ℕ) (xs : List ℕ) : Type 0 where
  pub text : CString mem p xs
  pub place : (a : ℕ) → p ≤ a → a ≤ p + length xs → Elsewhere b a

-- The memory is as before outside the buffers.
abbrev pub Same : Buffers → Memory → Memory → Type 0
Same b mem mem' = (a : ℕ) → Elsewhere b a → mem' a ≡ mem a

pub Kept-CString :
    (b : Buffers) (mem mem' : Memory) (p : ℕ) (xs : List ℕ)
    → Kept b mem p xs
    → Same b mem mem'
    → CString mem' p xs
Kept-CString b mem mem' p xs v same =
    CString-frame mem mem' p xs (λ a l u. same a (v.place a l u)) v.text

-- The codes give the line `line`, its last character first, of 1 to 255 characters, and the shell's
-- own texts stand outside its buffers. One round of each loop needs the fuel.
pub record Session (fuel : ℕ) (b : Buffers) (t : Texts) (k : Kernel) (line prompt missing : List ℕ)
    : Type 0 where
  pub keys : edit (max_line_size - 1) [] (typed (codes k.keys)) ≡ some line
  pub line_length : (0 < length line) × (length line < 256)
  pub chars : All IsChar line
  pub buffers : Apart b.line b.command b.args 256
  pub prompt_text : Kept b k.mem t.prompt prompt
  pub missing_text : Kept b k.mem t.not_found missing
  pub enough :
      (256 < fuel)
      × (length (codes k.keys) < fuel)
      × (length prompt < fuel)
      × (length missing < fuel)

-- The files are a list at `head`, and their names are texts outside the buffers.
pub record Files (b : Buffers) (head fuel : ℕ) (k : Kernel) (fs : List ℕ) (file_names : ℕ → List ℕ)
    : Type 0 where
  pub ring : Ring k.files.links head fs
  pub texts : (f : ℕ) → mem f fs ≡ true → Kept b k.mem (k.files.name f) (file_names f)
  pub enough : length fs < fuel

pub Clear-le : (p q m n : ℕ) → m ≤ n → Clear p q n → Clear p q m
Clear-le p q m n le h = ground arith

pub Apart-le : (p q r m n : ℕ) → m ≤ n → Apart p q r n → Apart p q r m
Apart-le p q r m n le v = record {
  line_first = Clear-le p q m n le v.line_first;
  line_other = Clear-le p r m n le v.line_other;
  first_other = Clear-le q r m n le v.first_other;
}

pub Outside-le : (p m n a : ℕ) → m ≤ n → Outside p n a → Outside p m a
Outside-le p m n a le h = ground arith
