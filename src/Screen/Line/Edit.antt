-- ===== src/Screen/Line/Edit.antt =====
-- `get_line` is a line editor.
use magical_os.Base.{
  ℕ, zero, suc, ◌+◌, ◌-◌, ◌%◌, ◌^◌, ◌<◌, ◌≤◌, ◌≡◌, refl, ◌⊎◌, inl, inr, Bool-cases, true, false,
  Option, none, some, List, [], ◌∷◌, sym, ap, ◌∙◌, ltb, leb, ◌==◌, if◌then◌else◌, update, get_or,
  Returns, Returns-map, length, arith,
}
use magical_os.Bytes.{Memory}
use mathlib.Core.Option.{some_inj, none-ne-some}
use magical_os.Screen.{Screen, put_char}
use magical_os.Screen.Line.{
  keymap, ascii_bs, get_keycode_pressed, get_char, Editing, line_round, rub_out, line_loop,
  close_line, get_line,
}

-- The characters of the keys that were pressed.
abbrev pub typed : List ℕ → List ℕ
typed [] = []
typed (k ∷ ks) = if leb 0x80 k then typed ks else get_or keymap k 0 ∷ typed ks

abbrev pub rub : List ℕ → List ℕ
rub [] = []
rub (c ∷ line) = line

-- The line that is typed, its last character first: a backspace takes back a character, and a new line
-- or `limit` characters end it. `none` when the line is not ended.
abbrev pub edit : ℕ → List ℕ → List ℕ → Option (List ℕ)
edit limit line [] = if ltb (length line) limit then none else some line
edit limit line (c ∷ cs) =
    let rest = edit limit (if c == ascii_bs then rub line else c ∷ line) cs in
    if ltb (length line) limit then if c == b'\n' then some line else rest else some line

-- The bytes from `buf` on are those of the line.
abbrev pub Stored : Memory → ℕ → List ℕ → Type 0
Stored mem buf [] = Unit
Stored mem buf (c ∷ line) = (mem (buf + length line) ≡ c) × Stored mem buf line

-- The line with its NUL stands at `buf`, and no byte outside `size` bytes from there has changed.
pub record IsLine (mem : Memory) (buf size : ℕ) (line : List ℕ) (e : Editing) : Type 0 where
  pub count : e.i ≡ length line
  pub stored : Stored e.mem buf line
  pub nul : e.mem (buf + length line) ≡ 0
  pub frame : (a : ℕ) → (a < buf) ⊎ (buf + size ≤ a) → e.mem a ≡ mem a

Stored-update :
    (line : List ℕ) (mem : Memory) (buf a c : ℕ)
    → buf + length line ≤ a
    → Stored mem buf line
    → Stored (update mem a c) buf line
Stored-update [] mem buf a c le h = tt
Stored-update (d ∷ line) mem buf a c le h =
    (ground (arith, h.0), Stored-update line mem buf a c (omega arith) h.1)

-- The line so far, in a buffer of `size` bytes whose bytes outside are those of `mem`.
record Holds (mem : Memory) (buf size : ℕ) (line : List ℕ) (e : Editing) : Type 0 where
  count : e.i ≡ length line
  room : length line < size
  stored : Stored e.mem buf line
  frame : (a : ℕ) → (a < buf) ⊎ (buf + size ≤ a) → e.mem a ≡ mem a

-- What `get_char` read of the keys.
abbrev Reads : Option (ℕ × List ℕ) → List ℕ → Type 0
Reads none keys = typed keys ≡ []
Reads (some r) keys = (typed keys ≡ r.0 ∷ typed r.1) × (length r.1 < length keys)

get_char-Reads : (keys : List ℕ) → Reads (get_char keys) keys
unfolding get_char get_keycode_pressed
get_char-Reads [] = refl
get_char-Reads (k ∷ ks) = elim (Bool-cases (leb 0x80 k)) [
  | inl e ↦ rw e (later (get_char ks) k ks e (get_char-Reads ks))
  | inr e ↦ rw e (rw e refl, omega arith)
]
  where
    later :
        (r : Option (ℕ × List ℕ)) (k : ℕ) (ks : List ℕ)
        → leb 0x80 k ≡ true
        → Reads r ks
        → Reads r (k ∷ ks)
    later none k ks e h = rw e h
    later (some r) k ks e h = rw e (h.0, omega (arith, h.1))

edit-full :
    (limit : ℕ) (line cs : List ℕ)
    → ltb (length line) limit ≡ false
    → edit limit line cs ≡ some line
edit-full limit line [] e = rw e refl
edit-full limit line (c ∷ cs) e = rw e refl

-- The state after the character `c`, which is not a backspace.
append :
    (mem : Memory) (buf size c : ℕ) (line : List ℕ) (e : Editing)
    → Holds mem buf size line e
    → length line + 1 < size
    → (s : Screen)
    → Holds mem buf size
        (c ∷ line)
        (record { i = length line + 1; mem = update e.mem (buf + length line) c; screen = s })
append mem buf size c line e v room s = record {
  count = omega arith;
  room = omega arith;
  stored =
      (ground arith, Stored-update line e.mem buf (buf + length line) c (omega arith) v.stored);
  frame = λ a out. ground (arith, v.frame a out);
}

rubbed :
    (mem : Memory) (buf size c d : ℕ) (line : List ℕ) (e : Editing)
    → Holds mem buf size (d ∷ line) e
    → length (d ∷ line) + 1 < size
    → Holds mem buf size line (record {
      i = length (d ∷ line) - 1;
      mem = update e.mem (buf + length (d ∷ line)) c;
      screen = rub_out e.screen;
    })
rubbed mem buf size c d line e v room = record {
  count = omega arith;
  room = omega (arith, v.room);
  stored = Stored-update line e.mem buf (buf + length (d ∷ line)) c (omega arith) v.stored.1;
  frame = λ a out. ground (arith, v.frame a out, v.room);
}

backspace :
    (mem : Memory) (buf size c : ℕ) (line : List ℕ) (e : Editing)
    → Holds mem buf size line e
    → length line + 1 < size
    → Holds mem buf size (rub line) (
        if length line == 0
        then record { i = 0; mem = update e.mem (buf + length line) c; screen = e.screen }
        else record {
          i = length line - 1;
          mem = update e.mem (buf + length line) c;
          screen = rub_out e.screen;
        })
backspace mem buf size c [] e v room = record {
  count = refl;
  room = v.room;
  stored = tt;
  frame = λ a out. ground (arith, v.frame a out);
}
backspace mem buf size c (d ∷ line) e v room =
    let some_line : (length (d ∷ line) == 0) ≡ false = ground arith in
    rw some_line (rubbed mem buf size c d line e v room)

-- A round that goes on.
round-Holds :
    (mem : Memory) (buf size c : ℕ) (line : List ℕ) (e : Editing)
    → Holds mem buf size line e
    → length line + 1 < size
    → (c == b'\n') ≡ false
    → ((line_round buf c e).0 ≡ false)
      × Holds mem buf size (if c == ascii_bs then rub line else c ∷ line) (line_round buf c e).1
unfolding line_round
round-Holds mem buf size c line e v room nl = elim (Bool-cases (c == ascii_bs)) [
  | inl b ↦ rw (b, v.count) (refl, backspace mem buf size c line e v room)
  | inr o ↦ rw (o, nl, v.count) (refl, append mem buf size c line e v room (put_char c e.screen))
]

-- The loop ends with the line that the editor gives.
ended :
    (mem : Memory) (buf size : ℕ) (line final : List ℕ) (e : Editing)
    → Holds mem buf size line e
    → some line ≡ some final
    → Holds mem buf size final e
ended mem buf size line final e v eq = rw eq' at v
  where
    eq' : line ≡ final
    eq' = some_inj.0 eq

-- The new line is stored, but not counted.
ended_here :
    (mem : Memory) (buf size c : ℕ) (line final : List ℕ) (e : Editing) (s : Screen)
    → Holds mem buf size line e
    → some line ≡ some final
    → Holds mem buf size final (record { i = e.i; mem = update e.mem (buf + e.i) c; screen = s })
ended_here mem buf size c line final e s v eq =
    let v' : Holds mem buf size line
        (record { i = e.i; mem = update e.mem (buf + e.i) c; screen = s }) =
      record {
        count = v.count;
        room = v.room;
        stored = Stored-update line e.mem buf (buf + e.i) c (omega (arith, v.count)) v.stored;
        frame = λ a out. ground (arith, v.frame a out, v.count, v.room);
      } in
    ended mem buf size line final (record { i = e.i; mem = update e.mem (buf + e.i) c; screen = s })
      v' eq

-- The rest of a round, where `more` are the rounds after it.
abbrev after_key :
    (List ℕ → Editing → Option (Editing × List ℕ))
    → ℕ
    → Editing
    → Option (ℕ × List ℕ)
    → Option (Editing × List ℕ)
after_key more buf e g = elim g [
  | none ↦ none
  | some r ↦ let t = line_round buf r.0 e in if t.0 then some (t.1, r.1) else more r.1 t.1
]

read :
    (mem : Memory) (buf size fuel : ℕ) (keys : List ℕ) (line final : List ℕ) (e : Editing)
    → Holds mem buf size line e
    → ltb (length line) (size - 1) ≡ true
    → edit (size - 1) line (typed keys) ≡ some final
    → length keys ≤ fuel
    → (more : List ℕ → Editing → Option (Editing × List ℕ))
    → ((keys' line' : List ℕ) (e' : Editing)
        → Holds mem buf size line' e'
        → edit (size - 1) line' (typed keys') ≡ some final
        → length keys' < fuel
        → Returns (λ r. Holds mem buf size final r.0) (more keys' e'))
    → (g : Option (ℕ × List ℕ)) → Reads g keys
    → Returns (λ r. Holds mem buf size final r.0) (after_key more buf e g)
unfolding line_round
read mem buf size fuel keys line final e v room ed le more after none h =
    absurd (none-ne-some final (rw (h, room) at ed))
read mem buf size fuel keys line final e v room ed le more after (some r) h =
    let ed' = rw (h.0, room) at ed in
    elim (Bool-cases (r.0 == b'\n')) [
      | inl nl ↦
          let b : (r.0 == ascii_bs) ≡ false = ground arith in
          rw (b, nl)
            (ended_here mem buf size r.0 line final e (put_char b'\r' (put_char r.0 e.screen)) v
              (rw nl at ed'))
      | inr o ↦
          let ed'' = rw o at ed' in
          let t = round-Holds mem buf size r.0 line e v (ground arith) o in
          rw t.0 (
            after r.1 (if r.0 == ascii_bs then rub line else r.0 ∷ line) (line_round buf r.0 e).1
              t.1 ed'' (omega (arith, h.1)))
    ]

line_loop-Holds :
    (fuel : ℕ) (mem : Memory) (buf size : ℕ) (keys : List ℕ) (line final : List ℕ) (e : Editing)
    → Holds mem buf size line e
    → edit (size - 1) line (typed keys) ≡ some final
    → length keys < fuel
    → Returns (λ r. Holds mem buf size final r.0) (line_loop fuel buf (size - 1) keys e)
unfolding line_loop
line_loop-Holds zero mem buf size keys line final e v ed lt = elim lt [ ]
line_loop-Holds (suc fuel) mem buf size keys line final e v ed lt =
    let same : ltb e.i (size - 1) ≡ ltb (length line) (size - 1) =
      ap (λ n. ltb n (size - 1)) v.count in
    elim (Bool-cases (ltb (length line) (size - 1))) [
      | inl room ↦ rw (same ∙ room) (
          read mem buf size fuel keys line final e v room ed (omega arith)
            (line_loop fuel buf (size - 1))
            (λ keys' line' e'. line_loop-Holds fuel mem buf size keys' line' final e')
            (get_char keys) (get_char-Reads keys))
      | inr full ↦ rw (same ∙ full) (
          ended mem buf size line final e v
            (sym (edit-full (size - 1) line (typed keys) full) ∙ ed))
    ]

closed :
    (mem : Memory) (buf size : ℕ) (line : List ℕ) (e : Editing)
    → Holds mem buf size line e
    → IsLine mem buf size line (record e { mem = update e.mem (buf + e.i) 0 })
closed mem buf size line e v = record {
  count = v.count;
  stored = Stored-update line e.mem buf (buf + e.i) 0 (omega (arith, v.count)) v.stored;
  nul = ground (arith, v.count);
  frame = λ a out. ground (arith, v.frame a out, v.count, v.room);
}

-- `get_line` with fuel for one round more than there are keys: when the line is ended, by a new line or by
-- `buf_size - 1` characters, its characters with a NUL behind them stand at `buf`, it returns their
-- number, and writes no byte outside the buffer.
pub get_line-edit :
    (keys line : List ℕ) (fuel buf size : ℕ) (mem : Memory) (s : Screen)
    → 0 < size
    → size < 2 ^ 32
    → edit (size - 1) [] (typed keys) ≡ some line
    → length keys < fuel
    → Returns (λ r. IsLine mem buf size line r.0) (get_line fuel buf size keys mem s)
unfolding get_line
get_line-edit keys line fuel buf size mem s nz fits ed lt =
    let e : Editing = record { i = 0; mem = mem; screen = s } in
    let limit : (size + (2 ^ 32 - 1)) % 2 ^ 32 ≡ size - 1 = omega arith in
    let start : Holds mem buf size [] e = record {
      count = refl;
      room = nz;
      stored = tt;
      frame = λ a out. refl;
    } in
    rw limit (
      Returns-map (λ r. IsLine mem buf size line r.0) (close_line buf)
        (line_loop fuel buf (size - 1) keys e)
        (line_loop-Holds fuel mem buf size keys [] line e start ed lt)
        (λ r h. closed mem buf size line r.0 h))
