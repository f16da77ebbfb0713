-- ===== src/Queue.antt =====
-- kernel/queue.c: the list with a head object of its own, which stands in no entry.
pub mod Laws
use magical_os.Base.{ℕ}
use magical_os.Links.{Links, link_self, link_before, unlink}

unfoldable pub queue_init : ℕ → Links → Links
queue_init head m = link_self head m

unfoldable pub queue_enq : ℕ → ℕ → Links → Links
queue_enq entry head m = link_before entry head m

unfoldable pub queue_del : ℕ → Links → Links
queue_del entry m = unlink entry m
