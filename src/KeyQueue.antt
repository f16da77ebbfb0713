-- ===== src/KeyQueue.antt =====
-- The key code queue of kernel/console_io.c: a ring of 256 bytes, whose two indices are bytes and wrap
-- by themselves. `error` is the static `error_status`, which both operations set.
-- The interrupt lock around the two bodies is left out.
pub mod Refine
use magical_os.Base.{
  ℕ, zero, suc, ◌+◌, ◌%◌, Bool, true, false, not, ◌&&◌, List, ◌==◌, if◌then◌else◌, get_or, set,
}

pub record KeyQueue : Type 0 where
  pub buf : List ℕ
  pub start : ℕ
  pub end : ℕ
  pub is_full : Bool
  pub error : Bool

-- The queue part of `con_init`.
unfoldable pub con_init : KeyQueue → KeyQueue
con_init q = record { buf = q.buf; start = 0; end = 0; is_full = false; error = false }

-- The branch of a queue that is not full, and that of one that is not empty.
push_byte : KeyQueue → ℕ → KeyQueue
push_byte q byte =
    let end' = (q.end + 1) % 256 in
    record {
      buf = set q.buf q.end byte;
      start = q.start;
      end = end';
      is_full = if q.start == end' then true else q.is_full;
      error = false;
    }

pop_byte : KeyQueue → ℕ × KeyQueue
pop_byte q = (
  get_or q.buf q.start 0,
  record q { start = (q.start + 1) % 256; is_full = false; error = false },
)

unfoldable pub enqueue : KeyQueue → ℕ → KeyQueue
unfolding push_byte
enqueue q byte = if q.is_full then record q { error = true } else push_byte q byte

-- The byte, 0 from an empty queue, and the queue.
unfoldable pub dequeue : KeyQueue → ℕ × KeyQueue
unfolding pop_byte
dequeue q =
    if not q.is_full && (q.start == q.end) then (0, record q { error = true }) else pop_byte q
