-- ===== src/Uptime/Laws.antt =====
-- What a round of the uptime program does.
use magical_os.Base.{
  ℕ, ◌+◌, ◌-◌, ◌/◌, ◌%◌, ◌^◌, ◌<◌, ◌≡◌, refl, some, List, [], ◌∷◌, arith, ltb, if◌then◌else◌,
  Returns, ◌∙◌,
}
use magical_os.Bytes.{CString}
use magical_os.Sched.{wakeup_after_msec}
use magical_os.Screen.{Screen, rows, put_str_pos, dump_hex_pos}
use magical_os.Screen.Row.{show_row, put_str_pos-show_row, Labelled, show_row-Labelled}
use magical_os.Syscall.{Kernel, ◌>>=◌, >>=-eq-some, do_syscall, on_screen, on_sched}
use magical_os.Uptime.{place_word, print_uptime, uptime_round}

abbrev pub label : List ℕ
label = b'u' ∷ b'p' ∷ b't' ∷ b'i' ∷ b'm' ∷ b'e' ∷ b':' ∷ []

-- The first row that is on the screen, which scrolls when the cursor is behind its last one.
abbrev pub top_row : ℕ → ℕ
top_row y = if ltb y rows then 0 else y - rows + 1

-- After a round: the label and the lowest four hexadecimal digits of the seconds in the last eleven places
-- of the top row, no other place and not the cursor changed, and the task asleep for 33 ms.
pub record Ticked (dummy : ℕ) (k k' : Kernel) : Type 0 where
  pub shown : Labelled label 4 (k.counter / 1000) 69 (top_row k.screen.y) k.screen k'.screen
  pub asleep : k'.world.sched ≡ wakeup_after_msec dummy 33 k.world.sched
  pub counter : k'.counter ≡ k.counter

place_word_parts :
    (row : ℕ) → row < 256 → (place_word row / 2 ^ 16 ≡ 76) × (place_word row % 2 ^ 16 ≡ row)
place_word_parts row low =
    let high : row / 65536 ≡ 0 = omega arith in
    let word : row % 65536 ≡ row = omega arith in rw (high, word) (omega arith)

-- The two calls that print.
module _ (fuel past dummy head : ℕ) (k : Kernel) where
  put_str_pos_call :
      (text x y : ℕ) (s : Screen)
      → put_str_pos fuel k.mem text (x % 256) (y % 256) k.screen ≡ some s
      → do_syscall fuel past dummy head 5 text x y k ≡ some (on_screen k s)
  unfolding do_syscall
  put_str_pos_call text x y s e = rw e refl

  dump_hex_pos_call :
      (val n x y word : ℕ)
      → word / 2 ^ 16 ≡ x
      → word % 2 ^ 16 ≡ y
      → do_syscall fuel past dummy head 7 val n word k
        ≡ some (on_screen k (dump_hex_pos val n x y k.screen))
  unfolding do_syscall
  dump_hex_pos_call val n x y word high low = rw (high, low) refl

  counter_call : do_syscall fuel past dummy head 1 0 0 0 k ≡ some (k.counter, k)
  unfolding do_syscall
  counter_call = refl

  cursor_call : do_syscall fuel past dummy head 3 0 0 0 k ≡ some (k.screen.y, k)
  unfolding do_syscall
  cursor_call = refl

  sleep_call :
      do_syscall fuel past dummy head 2 33 0 0 k
      ≡ some (on_sched k (wakeup_after_msec dummy 33 k.world.sched))
  unfolding do_syscall
  sleep_call = refl

print_uptime_lem :
    (fuel past dummy head text uptime row : ℕ) (k : Kernel)
    → CString k.mem text label
    → row < 256
    → 7 < fuel
    → print_uptime fuel past dummy head text uptime row k
      ≡ some (on_screen k (dump_hex_pos uptime 4 76 row (show_row label 69 row k.screen)))
unfolding print_uptime
print_uptime_lem fuel past dummy head text uptime row k c low lt =
    let row' : row % 256 ≡ row = omega arith in
    let parts = place_word_parts row low in
    let s = show_row label 69 row k.screen in
    let shown : put_str_pos fuel k.mem text (69 % 256) (row % 256) k.screen ≡ some s = rw row' (
      put_str_pos-show_row label fuel k.mem text 69 row k.screen c (omega arith) (omega arith)
        (omega arith)) in
    let k' : Kernel = record k { screen = s } in
    let next = λ (n : ℕ). do_syscall fuel past dummy head 7 uptime 4 (place_word row) in
    >>=-eq-some (do_syscall fuel past dummy head 5 text 69 row) next k k' 0
      (put_str_pos_call fuel past dummy head k text 69 row s shown)
    ∙ dump_hex_pos_call fuel past dummy head k' uptime 4 76 row (place_word row) parts.0 parts.1

uptime_round_lem :
    (fuel past dummy head text : ℕ) (k : Kernel)
    → CString k.mem text label
    → top_row k.screen.y < 256
    → 7 < fuel
    → uptime_round fuel past dummy head text k
      ≡ some (
          on_sched
            (record k {
              screen =
                  dump_hex_pos
                    (k.counter / 1000)
                    4
                    76
                    (top_row k.screen.y)
                    (show_row label 69 (top_row k.screen.y) k.screen);
            })
            (wakeup_after_msec dummy 33 k.world.sched))
unfolding uptime_round
uptime_round_lem fuel past dummy head text k c low lt =
    let row = top_row k.screen.y in
    let k' : Kernel = record k {
      screen = dump_hex_pos (k.counter / 1000) 4 76 row (show_row label 69 row k.screen);
    } in
    let call = do_syscall fuel past dummy head in
    let print = λ (count y : ℕ).
      print_uptime fuel past dummy head text (count / 1000) (top_row y) >>= λ n. call 2 33 0 0 in
    >>=-eq-some (call 1 0 0 0) (λ count. call 3 0 0 0 >>= print count) k k k.counter
      (counter_call fuel past dummy head k)
    ∙ >>=-eq-some (call 3 0 0 0) (print k.counter) k k k.screen.y
        (cursor_call fuel past dummy head k)
    ∙ >>=-eq-some (print_uptime fuel past dummy head text (k.counter / 1000) row)
        (λ n. call 2 33 0 0) k k' 0
        (print_uptime_lem fuel past dummy head text (k.counter / 1000) row k c low lt)
    ∙ sleep_call fuel past dummy head k'

-- A round of the uptime program ends with fuel for the eight bytes of its label: it writes the label and
-- the seconds in hexadecimal to the end of the top row of the screen, changes no other place of the
-- screen, and sleeps for 33 ms, while the cursor is above line 280.
pub uptime_round-Ticked :
    (fuel past dummy head text : ℕ) (k : Kernel)
    → CString k.mem text label
    → k.screen.y < 280
    → 7 < fuel
    → Returns (λ r. Ticked dummy k r.1) (uptime_round fuel past dummy head text k)
uptime_round-Ticked fuel past dummy head text k c low lt =
    let row = top_row k.screen.y in
    let s = dump_hex_pos (k.counter / 1000) 4 76 row (show_row label 69 row k.screen) in
    rw (uptime_round_lem fuel past dummy head text k c (ground arith) lt) (record {
      shown =
          show_row-Labelled label 4 (k.counter / 1000) 69 row k.screen (omega arith) (ground arith);
      asleep = refl;
      counter = refl;
    })
