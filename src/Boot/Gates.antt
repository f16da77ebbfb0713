-- ===== src/Boot/Gates.antt =====
-- The gates of the interrupt table after `kern_init`.
use magical_os.Base.{
  ℕ, zero, suc, ◌+◌, ◌*◌, ◌^◌, ◌<◌, ◌≡◌, ◌≢◌, refl, ◌∙◌, inl, inr, Bool-cases, Option, none, some,
  List, [], ◌∷◌, arith, ltb, leb, ◌==◌, if◌then◌else◌, ◌&&◌, false,
}
use magical_os.Descriptors.{intr_num_user128, intr_set_handler}
use magical_os.Descriptors.Laws.{
  gate_offset, gate_selector, gate_dpl, gate_present, gate_type, intr_set_handler_lem,
}
use magical_os.Boot.{
  Handler, exception, Image, System, exception_max, set_defaults, set_handlers, exception_calls,
  interrupt_calls, init_devices, set_exceptions, kern_init,
}

-- A present interrupt gate to the address, in the kernel's code segment, which programs may call exactly
-- if it is the system call's.
pub record IsGate (idt : ℕ → ℕ) (num addr : ℕ) : Type 0 where
  pub offset : gate_offset num idt ≡ addr
  pub selector : gate_selector num idt ≡ 8
  pub dpl : gate_dpl num idt ≡ (if num == intr_num_user128 then 3 else 0)
  pub present : gate_present num idt ≡ 1
  pub kind : gate_type num idt ≡ 0xe

-- The gate `num` is the handler's, or, without one, as it was in `before`.
abbrev pub Stands : (Handler → ℕ) → (ℕ → ℕ) → ℕ → Option Handler → (ℕ → ℕ) → Type 0
Stands address before num none idt =
    (idt (num * 2) ≡ before (num * 2)) × (idt (num * 2 + 1) ≡ before (num * 2 + 1))
Stands address before num (some h) idt = IsGate idt num (address h)

-- The handler of the last of these calls for the gate `num`, or `d` without one.
abbrev pub last_call : ℕ → List (ℕ × Handler) → Option Handler → Option Handler
last_call num [] d = d
last_call num (g ∷ gs) d = last_call num gs (if g.0 == num then some g.1 else d)

intr_set_handler-IsGate :
    (num addr : ℕ) (idt : ℕ → ℕ) → addr < 2 ^ 32 → IsGate (intr_set_handler num addr idt) num addr
intr_set_handler-IsGate num addr idt lt =
    let v = intr_set_handler_lem num addr idt lt in
    record { offset = v.0; selector = v.1; dpl = v.2; present = v.3; kind = v.4 }

IsGate-same :
    (num addr : ℕ) (idt idt' : ℕ → ℕ)
    → idt' (num * 2) ≡ idt (num * 2)
    → idt' (num * 2 + 1) ≡ idt (num * 2 + 1)
    → IsGate idt num addr
    → IsGate idt' num addr
IsGate-same num addr idt idt' e f v = record {
  offset = rw (e, f) v.offset;
  selector = rw e v.selector;
  dpl = rw f v.dpl;
  present = rw f v.present;
  kind = rw f v.kind;
}

module _ (address : Handler → ℕ) (before : ℕ → ℕ) (num : ℕ) where
  Stands-other :
      (d : Option Handler) (i addr : ℕ) (idt : ℕ → ℕ)
      → addr < 2 ^ 32
      → i ≢ num
      → Stands address before num d idt
      → Stands address before num d (intr_set_handler i addr idt)
  Stands-other none i addr idt lt ne v =
      let out = (intr_set_handler_lem i addr idt lt).5 in
      (out (num * 2) (omega arith) ∙ v.0, out (num * 2 + 1) (omega arith) ∙ v.1)
  Stands-other (some h) i addr idt lt ne v =
      let out = (intr_set_handler_lem i addr idt lt).5 in
      IsGate-same num (address h) idt (intr_set_handler i addr idt) (out (num * 2) (omega arith))
        (out (num * 2 + 1) (omega arith)) v

  Stands-set :
      (d : Option Handler) (i : ℕ) (h : Handler) (idt : ℕ → ℕ)
      → address h < 2 ^ 32
      → Stands address before num d idt
      → Stands address before num
          (if i == num then some h else d)
          (intr_set_handler i (address h) idt)
  Stands-set d i h idt lt v = elim (Bool-cases (i == num)) [
    | inl e ↦
        let same : i ≡ num = ground arith in
        rw (e, same) (intr_set_handler-IsGate num (address h) idt lt)
    | inr e ↦ rw e (Stands-other d i (address h) idt lt (ground arith) v)
  ]

  set_handlers-Stands :
      (gs : List (ℕ × Handler)) (d : Option Handler) (idt : ℕ → ℕ)
      → ((h : Handler) → address h < 2 ^ 32)
      → Stands address before num d idt
      → Stands address before num (last_call num gs d) (set_handlers address gs idt)
  unfolding set_handlers
  set_handlers-Stands [] d idt lt v = v
  set_handlers-Stands (g ∷ gs) d idt lt v =
      set_handlers-Stands gs (if g.0 == num then some g.1 else d)
        (intr_set_handler g.0 (address g.1) idt) lt (Stands-set d g.0 g.1 idt (lt g.1) v)

  set_defaults-Stands :
      (n i : ℕ) (d : Option Handler) (idt : ℕ → ℕ)
      → address exception < 2 ^ 32
      → Stands address before num d idt
      → Stands address before num
          (if leb i num && ltb num (i + n) then some exception else d)
          (set_defaults n i (address exception) idt)
  unfolding set_defaults
  set_defaults-Stands zero i d idt lt v =
      let no : (leb i num && ltb num (i + zero)) ≡ false = ground arith in rw no v
  set_defaults-Stands (suc n) i d idt lt v =
      let d' = if i == num then some exception else d in
      let rest =
        set_defaults-Stands n (i + 1) d' (intr_set_handler i (address exception) idt) lt
          (Stands-set d i exception idt lt v) in
      let same : (if leb i num && ltb num (i + suc n) then some exception else d)
          ≡ (if leb (i + 1) num && ltb num (i + 1 + n) then some exception else d') =
        ground arith in
      rw same rest

-- With handlers at addresses of 32 bits, each gate after `kern_init` is that of the last handler set
-- for it: the own one of an exception or an interrupt, the common one of an exception below 21 without
-- one; the other gates are as before.
pub kern_init-Stands :
    (pic : List (ℕ × ℕ) → ℕ) (image : Image) (s : System) (num : ℕ)
    → ((h : Handler) → image.address h < 2 ^ 32)
    → Stands image.address s.idt num
        (last_call num interrupt_calls
          (last_call num exception_calls (if ltb num exception_max then some exception else none)))
        (kern_init pic image s).idt
unfolding kern_init init_devices set_exceptions
kern_init-Stands pic image s num lt =
    let defaults =
      set_defaults-Stands image.address s.idt num exception_max 0 none s.idt (lt exception)
        (refl, refl) in
    let up : (leb 0 num && ltb num (0 + exception_max)) ≡ ltb num exception_max = ground arith in
    let first = rw up at defaults in
    let own =
      set_handlers-Stands image.address s.idt num exception_calls
        (if ltb num exception_max then some exception else none)
        (set_defaults exception_max 0 (image.address exception) s.idt) lt first in
    set_handlers-Stands image.address s.idt num interrupt_calls
      (last_call num exception_calls (if ltb num exception_max then some exception else none))
      (set_handlers image.address exception_calls
        (set_defaults exception_max 0 (image.address exception) s.idt))
      lt own
