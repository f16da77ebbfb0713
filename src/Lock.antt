-- ===== src/Lock.antt =====
-- kernel/lock.c: the interrupt lock. The state is the IF bit of EFLAGS, as `cli` and `sti` leave it.
use magical_os.Base.{Bool, true, false, if◌then◌else◌}

-- The saved bit, and the IF bit after it.
unfoldable pub kern_lock : Bool → Bool × Bool
kern_lock flag = (flag, if flag then false else flag)

-- The IF bit after the saved bit is put back.
unfoldable pub kern_unlock : Bool → Bool → Bool
kern_unlock if_bit flag = if if_bit then true else flag
