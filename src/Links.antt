-- ===== src/Links.antt =====
-- Circular doubly linked lists through `next` and `prev` fields: the links of kernel/queue.c and of
-- the three task queues of kernel/sched.c, which write the same assignments out. The two fields are
-- memories, functions from the address of an object to the value of its field.
pub mod Ring
pub mod Enq
pub mod Del
use magical_os.Base.{ℕ, update}

pub record Links : Type 0 where
  pub next : ℕ → ℕ
  pub prev : ℕ → ℕ

-- `p->next = v` and `p->prev = v`
set_next : ℕ → ℕ → Links → Links
set_next p v m = record m { next = update m.next p v }

set_prev : ℕ → ℕ → Links → Links
set_prev p v m = record m { prev = update m.prev p v }

-- Links `t` in before the object `h`, in the order of the assignments.
unfoldable pub link_before : ℕ → ℕ → Links → Links
unfolding set_next set_prev
link_before t h m =
    let m1 = set_prev t (m.prev h) m in
    let m2 = set_next t h m1 in let m3 = set_next (m2.prev h) t m2 in set_prev h t m3

-- Takes `t` out; its own fields keep their values.
unfoldable pub unlink : ℕ → Links → Links
unfolding set_next set_prev
unlink t m = let m1 = set_next (m.prev t) (m.next t) m in set_prev (m1.next t) (m1.prev t) m1

-- `t` links to itself.
unfoldable pub link_self : ℕ → Links → Links
unfolding set_next set_prev
link_self t m = set_next t t (set_prev t t m)
