-- ===== src/Examples/Console.antt =====
-- The theorems on the screen and the keyboard, at a cleared screen and short texts.
use magical_os.Base.{ℕ, ◌≡◌, refl, arith, some, List, [], ◌∷◌, Returns, ◌==◌, if◌then◌else◌}
use magical_os.Bytes.{Memory, CString}
use magical_os.Screen.{Screen, put_str}
use magical_os.Screen.Text.{Shows, type_text, put_str-Shows}
use magical_os.Screen.Line.{get_line}
use magical_os.Screen.Line.Edit.{IsLine, get_line-edit}
use magical_os.Stdlib.{itoa, digits_loop}
use magical_os.Screen.Printk.{printk}
use magical_os.Screen.Printk.Render.{plain, conv, text, show_text, printk-text}

abbrev cleared : Screen
cleared = record { x = 78; y = 2; vram = λ a. 0; ports = [] }

-- "hi\n" stands at 10, and "a%d%x" at 20.
abbrev texts : Memory
texts a =
    if a == 10
    then b'h'
    else if a == 11
    then b'i'
    else if a == 12
    then b'\n'
    else if a == 20
    then b'a'
    else if a == 21
    then b'%'
    else if a == 22
    then b'd'
    else if a == 23
    then b'%'
    else if a == 24
    then b's'
    else 0

hi-CString : CString texts 10 (b'h' ∷ b'i' ∷ b'\n' ∷ [])
hi-CString = (
  refl,
  omega arith,
  omega arith,
  (refl, omega arith, omega arith, (refl, omega arith, omega arith, refl)),
)

put_str-Shows_example :
    Returns
      (λ s'.
        Shows s' (type_text (b'h' ∷ b'i' ∷ b'\n' ∷ []) (record { place = 238; cells = λ i. 0 })))
      (put_str 4 texts 10 cleared)
put_str-Shows_example =
    put_str-Shows (b'h' ∷ b'i' ∷ b'\n' ∷ []) 4 texts 10 cleared
      (record { place = 238; cells = λ i. 0 }) hi-CString
      (record { column = omega arith; place = refl; cells = λ i. refl }) (omega arith) (omega arith)

-- The keys a, b, backspace and return, each released.
abbrev pressed : List ℕ
pressed = 0x1e ∷ 0x9e ∷ 0x30 ∷ 0xb0 ∷ 0x0e ∷ 0x8e ∷ 0x1c ∷ 0x9c ∷ []

get_line-edit_example :
    Returns (λ r. IsLine texts 100 16 (b'a' ∷ []) r.0) (get_line 9 100 16 pressed texts cleared)
get_line-edit_example =
    get_line-edit pressed (b'a' ∷ []) 9 100 16 texts cleared (omega arith) (omega arith) refl
      (omega arith)

printk-text_example :
    printk 6 texts 20 (λ i. if i == 0 then 5 else 10) cleared
    ≡ some (
        show_text
          (text
            (plain b'a' ∷ conv 0 b'd' (b'5' ∷ []) ∷ conv 0 b's' (b'h' ∷ b'i' ∷ b'\n' ∷ []) ∷ []))
          cleared)
unfolding itoa digits_loop
printk-text_example =
    printk-text (plain b'a' ∷ conv 0 b'd' (b'5' ∷ []) ∷ conv 0 b's' (b'h' ∷ b'i' ∷ b'\n' ∷ []) ∷ [])
      6 texts 20 (λ i. if i == 0 then 5 else 10) cleared (omega arith)
      (omega arith, (refl, refl, (refl, (omega arith, omega arith), tt))) (omega arith)
