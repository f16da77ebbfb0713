-- ===== src/Sched/Queues.antt =====
-- One task queue of kernel/sched.c: which tasks it holds, in which order.
use magical_os.Base.{
  ℕ, ◌+◌, ◌-◌, ◌%◌, ◌^◌, ◌≡◌, refl, ◌≢◌, true, false, List, [], ◌∷◌, ◌++◌, arith, ◌==◌, mem, erase,
  length, length-append, length-erase, mem-append, mem-erase, Distinct, Bool-cases, inl, inr,
}
use magical_os.Links.{Links}
use magical_os.Links.Ring.{Ring, SameOutside, first, Ring-frame}
use magical_os.Links.Enq.{
  Ring-link_before, SameOutside-link_before, Ring-link_self, SameOutside-link_self,
}
use magical_os.Links.Del.{
  Ring-unlink, Ring-unlink_head, SameOutside-unlink, SameOutside-unlink_head,
}
use magical_os.Sched.{TaskQueue, enq_queue, enq_links, del_queue, del_links}

abbrev pub IsRing : Links → List ℕ → Type 0
IsRing m [] = Unit {0}
IsRing m (h ∷ xs) = Ring m h xs

-- The queue holds the tasks `xs`, first to last; none of them is NULL, and the links of each are
-- those of a circular list in this order.
pub record IsQueue (m : Links) (q : TaskQueue) (xs : List ℕ) : Type 0 where
  pub head : q.head ≡ first xs 0
  pub null : mem 0 xs ≡ false
  pub ring : IsRing m xs
  pub len : q.len ≡ length xs % 2 ^ 32

abbrev pub Apart : List ℕ → List ℕ → Type 0
Apart xs ys = (a : ℕ) → mem a xs ≡ true → mem a ys ≡ false

pub IsQueue-frame :
    (m g : Links) (q : TaskQueue) (xs ys : List ℕ)
    → SameOutside ys m g
    → Apart xs ys
    → IsQueue m q xs
    → IsQueue g q xs
IsQueue-frame m g q [] ys same apart v = record {
  head = v.head;
  null = v.null;
  ring = tt;
  len = v.len;
}
IsQueue-frame m g q (h ∷ xs) ys same apart v = record {
  head = v.head;
  null = v.null;
  ring = Ring-frame h xs ys same apart v.ring;
  len = v.len;
}

-- Adding a task puts it last, and writes only its links and those of the queue's tasks.
pub enq-IsQueue :
    (t : ℕ) (q : TaskQueue) (m : Links) (xs : List ℕ)
    → mem t xs ≡ false
    → t ≢ 0
    → IsQueue m q xs
    → IsQueue (enq_links t q m) (enq_queue t q) (xs ++ (t ∷ []))
unfolding enq_links enq_queue
enq-IsQueue t q m [] out nz v = record {
  head = ground (arith, v.head);
  null = ground arith;
  ring = rw v.head (Ring-link_self t m);
  len = ground (arith, v.len);
}
enq-IsQueue t q m (h ∷ xs) out nz v =
    let e : (h == 0) ≡ false = ground (arith, v.null) in
    record {
      head = rw (v.head, e);
      null = ground (arith, v.null, mem-append 0 xs (t ∷ []));
      ring = rw (v.head, e) (Ring-link_before t h m xs out v.ring);
      len = omega (arith, v.len, length-append {0} (h ∷ xs) (t ∷ []));
    }

pub enq-SameOutside :
    (t : ℕ) (q : TaskQueue) (m : Links) (xs : List ℕ)
    → mem t xs ≡ false
    → IsQueue m q xs
    → SameOutside (t ∷ xs) m (enq_links t q m)
unfolding enq_links
enq-SameOutside t q m [] out v = rw v.head (SameOutside-link_self t m)
enq-SameOutside t q m (h ∷ xs) out v =
    let e : (h == 0) ≡ false = ground (arith, v.null) in
    rw (v.head, e) (SameOutside-link_before t h m xs out v.ring)

-- Taking out a task of the queue leaves the others, in their order.
pub del-IsQueue :
    (t : ℕ) (q : TaskQueue) (m : Links) (xs : List ℕ)
    → mem t xs ≡ true
    → IsQueue m q xs
    → IsQueue (del_links t q m) (del_queue t q m) (erase t xs)
unfolding del_links del_queue
del-IsQueue t q m [] i v = cc
del-IsQueue t q m (h ∷ []) i v =
    let e : (m.next q.head == q.head) ≡ true = ground (arith, v.head, v.ring.0.0) in
    let hit : (h == t) ≡ true = ground arith in
    rw (e, hit) (record { head = refl; null = refl; ring = tt; len = omega (arith, v.len) })
del-IsQueue t q m (h ∷ x ∷ xs) i v =
    let e : (m.next q.head == q.head) ≡ false = ground (arith, v.head, v.ring.0.0, v.ring.1.0) in
    let long : (q.len + 2 ^ 32 - 1) % 2 ^ 32 ≡ length (x ∷ xs) % 2 ^ 32 = omega (arith, v.len) in
    elim (Bool-cases (h == t)) [
      | inl hit ↦
          let same : t ≡ h = ground arith in
          rw (e, hit, same, v.head, v.ring.0.0)
            (record {
              head = ground arith;
              null = ground (arith, v.null);
              ring = Ring-unlink_head h x m xs v.ring;
              len = long;
            })
      | inr miss ↦
          let i' : mem t (x ∷ xs) ≡ true = ground arith in
          rw (e, v.head, miss)
            (record {
              head = refl;
              null = ground (arith, v.null, mem-erase 0 t (x ∷ xs));
              ring = Ring-unlink t h m (x ∷ xs) i' v.ring;
              len = omega (arith, long, length-erase t (x ∷ xs) i');
            })
    ]

pub del-SameOutside :
    (t : ℕ) (q : TaskQueue) (m : Links) (xs : List ℕ)
    → mem t xs ≡ true
    → IsQueue m q xs
    → SameOutside xs m (del_links t q m)
unfolding del_links
del-SameOutside t q m [] i v = cc
del-SameOutside t q m (h ∷ []) i v = λ a o. ground (arith, v.head, v.ring.0.0)
del-SameOutside t q m (h ∷ x ∷ xs) i v =
    let e : (m.next q.head == q.head) ≡ false = ground (arith, v.head, v.ring.0.0, v.ring.1.0) in
    rw e (elim (Bool-cases (h == t)) [
      | inl hit ↦
          let same : t ≡ h = ground arith in rw same (SameOutside-unlink_head h x m xs v.ring)
      | inr miss ↦ SameOutside-unlink t h m (x ∷ xs) (ground arith) v.ring
    ])

pub IsQueue-Distinct : (m : Links) (q : TaskQueue) (xs : List ℕ) → IsQueue m q xs → Distinct xs
IsQueue-Distinct m q [] v = tt
IsQueue-Distinct m q (h ∷ xs) v = v.ring.1
