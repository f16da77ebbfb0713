-- ===== src/Machine.antt =====
-- The kernel between the interrupts: the interrupt handlers `do_ir_timer` of kernel/timer.c and
-- `do_ir_keyboard` of kernel/console_io.c, and the calls of a task that give up the processor. A machine
-- is the state of the scheduler with the millisecond counter and the key code queue.
pub mod Steps
pub mod Tasks
pub mod Inv
pub mod Handlers
pub mod Calls
pub mod Reach
pub mod Turn
pub mod RoundRobin
use magical_os.Base.{ℕ, ◌+◌, ◌%◌, ◌^◌, Option, none, some, if◌then◌else◌, map_some}
use magical_os.KeyQueue.{KeyQueue, enqueue, dequeue}
use magical_os.Sched.{
  State, Status, Action, outb, act, timer, timer_tick_ms, update_wakeupq, update_wakeupevq,
  schedule, wakeup_after_event,
}

pub record Machine : Type 0 where
  pub sched : State
  pub counter : ℕ
  pub keys : KeyQueue

-- EVENT_TYPE_KBD
abbrev pub event_type_kbd : ℕ
event_type_kbd = 1

-- `outb_p(IOADR_MPIC_OCW2_BIT_MANUAL_EOI | INTR_IR_KB, IOADR_MPIC_OCW2)`
abbrev pub keyboard_eoi : Action
keyboard_eoi = outb 0x61 0x20

-- `do_ir_timer` behind its first call; the counter is an unsigned long.
abbrev pub end_tick : Machine → Status × State → Machine
end_tick m (r, s) = record m {
  counter = (m.counter + timer_tick_ms) % 2 ^ 32;
  sched = schedule timer s;
}

unfoldable pub do_ir_timer : ℕ → Machine → Option Machine
do_ir_timer fuel m = map_some (end_tick m) (update_wakeupq fuel m.sched)

-- `code` is what the keyboard controller holds: `none` when its OBF bit is clear.
unfoldable pub put_key : Option ℕ → KeyQueue → KeyQueue
put_key none q = q
put_key (some code) q = enqueue q code

abbrev pub end_key : Option ℕ → Machine → Status × State → Machine
end_key code m (r, s) = record m { keys = put_key code m.keys; sched = act keyboard_eoi s }

unfoldable pub do_ir_keyboard : ℕ → Option ℕ → Machine → Option Machine
do_ir_keyboard fuel code m =
    map_some (end_key code m) (update_wakeupevq fuel event_type_kbd m.sched)

-- One round of the loop of `get_keydata`: the byte, or `none` with the task put to sleep.
unfoldable pub get_keydata_round : ℕ → Machine → Option ℕ × Machine
get_keydata_round dummy m =
    let (byte, q) = dequeue m.keys in
    if q.error
    then (none, record m { keys = q; sched = wakeup_after_event dummy event_type_kbd m.sched })
    else (some byte, record m { keys = q })
