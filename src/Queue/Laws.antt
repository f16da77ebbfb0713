-- ===== src/Queue/Laws.antt =====
-- kernel/queue.c is a queue: the ring of the head object holds the entries, oldest first.
use magical_os.Base.{ℕ, ◌≡◌, true, false, List, [], ◌∷◌, ◌++◌, mem, erase}
use magical_os.Links.{Links}
use magical_os.Links.Ring.{Ring, SameOutside}
use magical_os.Links.Enq.{Ring-link_before, SameOutside-link_before, Ring-link_self}
use magical_os.Links.Del.{Ring-unlink, SameOutside-unlink}
use magical_os.Queue.{queue_init, queue_enq, queue_del}

pub queue_init_lem : (head : ℕ) (m : Links) → Ring (queue_init head m) head []
unfolding queue_init
queue_init_lem head m = Ring-link_self head m

-- Adding an entry that is not in the queue puts it behind the others, in the order of both directions,
-- and writes the links of no object outside the queue.
pub queue_enq_lem :
    (entry head : ℕ) (m : Links) (xs : List ℕ)
    → mem entry (head ∷ xs) ≡ false
    → Ring m head xs
    → Ring (queue_enq entry head m) head (xs ++ (entry ∷ []))
      × SameOutside (entry ∷ head ∷ xs) m (queue_enq entry head m)
unfolding queue_enq
queue_enq_lem entry head m xs out r =
    (Ring-link_before entry head m xs out r, SameOutside-link_before entry head m xs out r)

-- Deleting an entry takes it out, keeps the order of the others, and writes the links of no object
-- outside the queue.
pub queue_del_lem :
    (entry head : ℕ) (m : Links) (xs : List ℕ)
    → mem entry xs ≡ true
    → Ring m head xs
    → Ring (queue_del entry m) head (erase entry xs) × SameOutside (head ∷ xs) m (queue_del entry m)
unfolding queue_del
queue_del_lem entry head m xs i r =
    (Ring-unlink entry head m xs i r, SameOutside-unlink entry head m xs i r)
