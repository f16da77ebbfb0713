-- ===== src/Screen/Printk/Render.antt =====
-- What `printk` prints.
use magical_os.Base.{
  ℕ, zero, suc, ◌+◌, ◌<◌, ◌≡◌, ◌≢◌, refl, Bool, true, false, some, List, [], ◌∷◌, ◌++◌, arith, ◌==◌,
  if◌then◌else◌, length, Bool-cases, inl, inr, ap, ◌||◌,
}
use magical_os.Bytes.{Memory, CString}
use magical_os.Stdlib.{itoa, itox}
use magical_os.Screen.{Screen, put_char, put_str}
use magical_os.Screen.Printk.{to_int, put_buf, is_number, takes_word, convert, printk_loop, printk}

-- A part of a format: a character; a `%` before one that is no conversion; a conversion with `l` so many
-- times before it, and the text that it prints.
pub data Item : Type 0 where
  plain : ℕ → Item
  skip : ℕ → Item
  conv : ℕ → ℕ → List ℕ → Item

abbrev ls : ℕ → List ℕ → List ℕ
ls zero xs = xs
ls (suc k) xs = b'l' ∷ ls k xs

-- The format of the items.
abbrev pub format : List Item → List ℕ
format [] = []
format (plain c ∷ is) = c ∷ format is
format (skip c ∷ is) = b'%' ∷ c ∷ format is
format (conv k c xs ∷ is) = b'%' ∷ ls k (c ∷ format is)

-- What the items print.
abbrev pub text : List Item → List ℕ
text [] = []
text (plain c ∷ is) = c ∷ text is
text (skip c ∷ is) = text is
text (conv k c xs ∷ is) = xs ++ text is

abbrev pub until_nul : List ℕ → List ℕ
until_nul [] = []
until_nul (c ∷ cs) = if c == 0 then [] else c ∷ until_nul cs

-- The text of the word `w` under the conversion `c`: the digits of a signed number for `d`, `c` and `u`
-- alike, those of the word in base 16 for `x`, the string at `w` for `s`.
abbrev pub Prints : ℕ → Memory → ℕ → ℕ → List ℕ → Type 0
Prints fuel mem c w xs =
    if is_number c
    then xs ≡ until_nul (itoa (to_int w))
    else if c == b'x'
    then xs ≡ until_nul (itox w)
    else CString mem w xs × (length xs < fuel)

-- The items agree with the words from `ap` on.
abbrev pub Fits : ℕ → Memory → (ℕ → ℕ) → ℕ → List Item → Type 0
Fits fuel mem args ap [] = Unit
Fits fuel mem args ap (plain c ∷ is) = (c ≢ b'%') × Fits fuel mem args ap is
Fits fuel mem args ap (skip c ∷ is) = (takes_word c ≡ false) × (c ≢ b'l') × Fits fuel mem args ap is
Fits fuel mem args ap (conv k c xs ∷ is) =
    (takes_word c ≡ true) × Prints fuel mem c (args ap) xs × Fits fuel mem args (ap + 1) is

abbrev pub show_text : List ℕ → Screen → Screen
show_text [] s = s
show_text (c ∷ cs) s = show_text cs (put_char c s)

show_text-append :
    (xs ys : List ℕ) (s : Screen) → show_text (xs ++ ys) s ≡ show_text ys (show_text xs s)
show_text-append [] ys s = refl
show_text-append (x ∷ xs) ys s = show_text-append xs ys (put_char x s)

pub put_str-show_text :
    (xs : List ℕ) (fuel : ℕ) (mem : Memory) (p : ℕ) (s : Screen)
    → CString mem p xs
    → length xs < fuel
    → put_str fuel mem p s ≡ some (show_text xs s)
unfolding put_str
put_str-show_text xs zero mem p s c lt = elim lt [ ]
put_str-show_text [] (suc fuel) mem p s c lt = rw c refl
put_str-show_text (x ∷ xs) (suc fuel) mem p s c lt =
    let more : (x == 0) ≡ false = ground (arith, c.1) in
    rw (c.0, more) (put_str-show_text xs fuel mem (p + 1) (put_char x s) c.3 (omega arith))

put_buf-show_text : (xs : List ℕ) (s : Screen) → put_buf xs s ≡ show_text (until_nul xs) s
unfolding put_buf
put_buf-show_text [] s = refl
put_buf-show_text (x ∷ xs) s = elim (Bool-cases (x == 0)) [
  | inl e ↦ rw e refl
  | inr e ↦ rw e (put_buf-show_text xs (put_char x s))
]

convert-show_text :
    (fuel : ℕ) (mem : Memory) (c w : ℕ) (xs : List ℕ) (s : Screen)
    → Prints fuel mem c w xs
    → convert fuel mem c w s ≡ some (show_text xs s)
unfolding convert
convert-show_text fuel mem c w xs s h = elim (Bool-cases (is_number c)) [
  | inl n ↦ rw (n, rw n at h) (ap some (put_buf-show_text (itoa (to_int w)) s))
  | inr n ↦ elim (Bool-cases (c == b'x')) [
    | inl x ↦ rw (n, x, rw (n, x) at h) (ap some (put_buf-show_text (itox w) s))
    | inr x ↦
        let h' : CString mem w xs × (length xs < fuel) = rw (n, x) at h in
        rw (n, x) (put_str-show_text xs fuel mem w s h'.0 h'.1)
  ]
]

two_behind :
    (mem : Memory) (p : ℕ) (xs : List ℕ) → CString mem (p + 1 + 1) xs → CString mem (p + 2) xs
two_behind mem p xs c = let e : p + 1 + 1 ≡ p + 2 = omega arith in rw e at c

-- A conversion whose `%`, or whose last `l`, is at `fmt`.
conv-loop :
    (k rounds fuel : ℕ) (mem : Memory) (fmt : ℕ) (long : Bool) (args : ℕ → ℕ) (ap c : ℕ)
    (xs rest : List ℕ) (s final : Screen)
    → (mem fmt == 0) ≡ false
    → (mem fmt == b'%' || long) ≡ true
    → CString mem (fmt + 1) (ls k (c ∷ rest))
    → takes_word c ≡ true
    → Prints fuel mem c (args ap) xs
    → k + length rest + 1 < rounds
    → ((end rounds' : ℕ)
        → CString mem end rest
        → length rest < rounds'
        → printk_loop rounds' fuel mem end false args (ap + 1) (show_text xs s) ≡ some final)
    → printk_loop rounds fuel mem fmt long args ap s ≡ some final
unfolding printk_loop
conv-loop k zero fuel mem fmt long args ap c xs rest s final nz at str takes pr lt more =
    elim lt [ ]
conv-loop zero (suc rounds) fuel mem fmt long args ap c xs rest s final nz at str takes pr lt more =
    rw (nz, at, str.0, takes, convert-show_text fuel mem c (args ap) xs s pr)
      (more (fmt + 2) rounds (two_behind mem fmt rest str.3) (omega arith))
conv-loop (suc k) (suc rounds) fuel mem fmt long args ap c xs rest s final nz at str takes pr lt
      more =
    rw (nz, at, str.0)
      (conv-loop k rounds fuel mem (fmt + 1) true args ap c xs rest s final (ground (arith, str.0))
        (ground arith) str.3 takes pr (omega arith) more)

length-ls : (k : ℕ) (xs : List ℕ) → length (ls k xs) ≡ k + length xs
length-ls zero xs = omega arith
length-ls (suc k) xs = omega (arith, length-ls k xs)

printk_loop-items :
    (is : List Item) (rounds fuel : ℕ) (mem : Memory) (fmt : ℕ) (args : ℕ → ℕ) (ap : ℕ) (s : Screen)
    → CString mem fmt (format is)
    → Fits fuel mem args ap is
    → length (format is) < rounds
    → printk_loop rounds fuel mem fmt false args ap s ≡ some (show_text (text is) s)
unfolding printk_loop
printk_loop-items is zero fuel mem fmt args ap s str fits lt = elim lt [ ]
printk_loop-items [] (suc rounds) fuel mem fmt args ap s str fits lt = rw str refl
printk_loop-items (plain c ∷ is) (suc rounds) fuel mem fmt args ap s str fits lt =
    let nz : (c == 0) ≡ false = ground (arith, str.1) in
    let no : (c == b'%') ≡ false = ground (arith, fits.0) in
    rw (str.0, nz, no)
      (printk_loop-items is rounds fuel mem (fmt + 1) args ap (put_char c s) str.3 fits.1
        (omega arith))
printk_loop-items (skip c ∷ is) (suc rounds) fuel mem fmt args ap s str fits lt =
    let no : (c == b'l') ≡ false = ground (arith, fits.1) in
    let rest =
      printk_loop-items is rounds fuel mem (fmt + 2) args ap s
        (two_behind mem fmt (format is) str.3.3) fits.2 (omega arith) in
    rw (str.0, str.3.0, fits.0, no) rest
printk_loop-items (conv k c xs ∷ is) (suc rounds) fuel mem fmt args ap s str fits lt =
    conv-loop k (suc rounds) fuel mem fmt false args ap c xs (format is) s
      (show_text (text (conv k c xs ∷ is)) s) (ground (arith, str.0)) (ground (arith, str.0)) str.3
      fits.0 fits.1 (omega (arith, length-ls k (c ∷ format is)))
      (λ end rounds' at lt'.
        rw (show_text-append xs (text is) s)
          (printk_loop-items is rounds' fuel mem end args (ap + 1) (show_text xs s) at fits.2 lt'))

-- `printk` prints the text of a format that is made of items and agrees with its arguments, with fuel for
-- one round more than the format has characters and each string argument is long.
pub printk-text :
    (is : List Item) (fuel : ℕ) (mem : Memory) (fmt : ℕ) (args : ℕ → ℕ) (s : Screen)
    → CString mem fmt (format is)
    → Fits fuel mem args 0 is
    → length (format is) < fuel
    → printk fuel mem fmt args s ≡ some (show_text (text is) s)
unfolding printk
printk-text is fuel mem fmt args s str fits lt =
    printk_loop-items is fuel fuel mem fmt args 0 s str fits lt
