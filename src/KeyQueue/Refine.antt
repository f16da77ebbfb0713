-- ===== src/KeyQueue/Refine.antt =====
-- The key code queue is a first-in first-out queue of at most 256 bytes.
use mathlib.Core.Path.{ap₂, subst}
use magical_os.Base.{
  ℕ, zero, suc, ◌+◌, ◌%◌, ◌<◌, ◌≤◌, ◌≡◌, refl, sym, ap, ◌∙◌, true, false, not, ◌&&◌, List, [], ◌∷◌,
  ◌++◌, arith, ◌==◌, if◌then◌else◌, get_or, set, length, length-set, get_or-set_self, get_or-set_ne,
}
use magical_os.KeyQueue.{KeyQueue, con_init, push_byte, pop_byte, enqueue, dequeue}

-- The `n` bytes from the index `i` on, going round at 256.
abbrev pub window : List ℕ → ℕ → ℕ → List ℕ
window buf i zero = []
window buf i (suc n) = get_or buf i 0 ∷ window buf ((i + 1) % 256) n

-- The queue holds `n` bytes: `is_full` tells the full queue from the empty one.
pub record HasSize (q : KeyQueue) (n : ℕ) : Type 0 where
  pub storage : length q.buf ≡ 256
  pub bound : n ≤ 256
  pub start : q.start < 256
  pub end : q.end ≡ (q.start + n) % 256
  pub full : (q.is_full ≡ true) → n ≡ 256
  pub not_full : (q.is_full ≡ false) → n < 256

abbrev pub contents : KeyQueue → ℕ → List ℕ
contents q n = window q.buf q.start n

-- A write outside the window leaves it.
window-set :
    (buf : List ℕ) (i n e x : ℕ)
    → length buf ≡ 256
    → i < 256
    → n < 256
    → e ≡ (i + n) % 256
    → window (set buf e x) i (suc n) ≡ window buf i n ++ (x ∷ [])
window-set buf i zero e x l b c q =
    let same : e ≡ i = omega arith in
    rw same (ap (λ v. v ∷ []) (get_or-set_self buf i x 0 (omega arith)))
window-set buf i (suc n) e x l b c q =
    ap₂ ◌∷◌ (get_or-set_ne buf e i x 0 (λ p. omega arith))
      (window-set buf ((i + 1) % 256) n e x l (omega arith) (omega arith) (omega arith))

-- Initialisation empties the queue.
pub con_init_lem : (q : KeyQueue) → length q.buf ≡ 256 → HasSize (con_init q) 0
unfolding con_init
con_init_lem q l = record {
  storage = l;
  bound = omega arith;
  start = omega arith;
  end = omega arith;
  full = λ f. cc;
  not_full = λ f. omega arith;
}

push_byte_lem :
    (q : KeyQueue) (n x : ℕ)
    → HasSize q n
    → n < 256
    → HasSize (push_byte q x) (suc n)
      × (contents (push_byte q x) (suc n) ≡ contents q n ++ (x ∷ []))
      × ((push_byte q x).error ≡ false)
unfolding push_byte
push_byte_lem q n x v room = (
  record {
    storage = length-set q.buf q.end x ∙ v.storage;
    bound = omega arith;
    start = v.start;
    end = omega (arith, v.end);
    full = λ h. ground (arith, v.end, v.start, v.full);
    not_full = λ h. ground (arith, v.end, v.start);
  },
  window-set q.buf q.start n q.end x v.storage v.start room v.end,
  refl,
)

-- A byte put into a queue with room is the last of its contents, and there is no error; a full queue
-- drops it, keeps its contents and reports an error.
pub enqueue_refines :
    (q : KeyQueue) (n x : ℕ)
    → HasSize q n
    → (n < 256
        → HasSize (enqueue q x) (suc n)
          × (contents (enqueue q x) (suc n) ≡ contents q n ++ (x ∷ []))
          × ((enqueue q x).error ≡ false))
      × (n ≡ 256 → enqueue q x ≡ record q { error = true })
unfolding enqueue
enqueue_refines q n x v = (
  (λ room.
      let f : q.is_full ≡ false = ground (arith, v.full) in
      let e : enqueue q x ≡ push_byte q x =
        ap (λ b. if b then record q { error = true } else push_byte q x) f in
      subst
        (λ r.
          HasSize r (suc n) × (contents r (suc n) ≡ contents q n ++ (x ∷ [])) × (r.error ≡ false))
        (sym e) (push_byte_lem q n x v room)),
  (λ all.
      let f : q.is_full ≡ true = ground (arith, v.not_full) in
      ap (λ b. if b then record q { error = true } else push_byte q x) f),
)

pop_byte_lem :
    (q : KeyQueue) (m : ℕ)
    → HasSize q (suc m)
    → HasSize (pop_byte q).1 m
      × (contents q (suc m) ≡ (pop_byte q).0 ∷ contents (pop_byte q).1 m)
      × ((pop_byte q).1.error ≡ false)
unfolding pop_byte
pop_byte_lem q m v =
    let b = v.bound in
    (
      record {
        storage = v.storage;
        bound = omega arith;
        start = omega arith;
        end = omega (arith, v.end);
        full = λ h. cc;
        not_full = λ h. b;
      },
      refl,
      refl,
    )

-- A byte taken from a queue that holds one is the first of its contents, which lose it, and there is
-- no error; an empty queue gives 0, stays as it is and reports an error.
pub dequeue_refines :
    (q : KeyQueue) (n : ℕ)
    → HasSize q n
    → (n ≡ 0 → dequeue q ≡ (0, record q { error = true }))
      × ((m : ℕ)
          → n ≡ suc m
          → HasSize (dequeue q).1 m
            × (contents q n ≡ (dequeue q).0 ∷ contents (dequeue q).1 m)
            × ((dequeue q).1.error ≡ false))
unfolding dequeue
dequeue_refines q n v = (
  (λ z.
      let t : (not q.is_full && (q.start == q.end)) ≡ true =
        ground (arith, v.full, v.end, v.start) in
      ap (λ b. if b then (0, record q { error = true }) else pop_byte q) t),
  (λ m e.
      let t : (not q.is_full && (q.start == q.end)) ≡ false =
        ground (arith, v.not_full, v.end, v.start) in
      let d : dequeue q ≡ pop_byte q =
        ap (λ b. if b then (0, record q { error = true }) else pop_byte q) t in
      subst
        (λ k.
          HasSize (dequeue q).1 m
          × (contents q k ≡ (dequeue q).0 ∷ contents (dequeue q).1 m)
          × ((dequeue q).1.error ≡ false))
        (sym e)
        (subst
          (λ (r : ℕ × KeyQueue).
            HasSize r.1 m × (contents q (suc m) ≡ r.0 ∷ contents r.1 m) × (r.1.error ≡ false))
          (sym d) (pop_byte_lem q m (subst (HasSize q) e v)))),
)
