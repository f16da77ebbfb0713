-- ===== src/Timer.antt =====
-- kernel/timer.c: the two loops that wait. `reads` gives what the reads of `global_counter` find one after
-- the other, while the timer interrupt counts it up; a loop returns the number of its last read, and `none`
-- says that it needs more fuel. An `unsigned long` has 32 bits.
pub mod Laws
use magical_os.Base.{
  ℕ, zero, suc, ◌+◌, ◌*◌, ◌/◌, ◌%◌, ◌^◌, ◌<◌, ◌≤◌, ◌≡◌, refl, Bool-cases, inl, inr, true, false,
  Option, none, some, arith, ltb, if◌then◌else◌, Returns,
}

-- `while (global_counter < end)`, from the read `k` on.
unfoldable pub wait_until : ℕ → (ℕ → ℕ) → ℕ → ℕ → Option ℕ
wait_until zero reads end k = none
wait_until (suc fuel) reads end k =
    let rest = wait_until fuel reads end (k + 1) in if ltb (reads k) end then rest else some k

unfoldable pub timer_wait_loop_sec : ℕ → (ℕ → ℕ) → ℕ → Option ℕ
timer_wait_loop_sec fuel reads sec = wait_until fuel reads ((reads 0 + sec * 1000 + 1) % 2 ^ 32) 1

unfoldable pub timer_wait_loop_usec : ℕ → (ℕ → ℕ) → ℕ → Option ℕ
timer_wait_loop_usec fuel reads usec =
    wait_until fuel reads ((reads 0 + usec / 1000 + 1) % 2 ^ 32) 1
