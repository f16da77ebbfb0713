-- ===== src/Fs/Laws.antt =====
-- The files that kernel/fs.c sets up, and what a search among files finds.
use magical_os.Base.{
  ℕ, zero, suc, ◌+◌, ◌*◌, ◌<◌, ◌≡◌, ◌≢◌, refl, sym, ap, ◌∙◌, ◌↔◌, inl, inr, Bool, true, false, some,
  List, [], ◌∷◌, arith, ◌==◌, length, mem, Bool-cases,
}
use magical_os.Base.Int.{ℤ, pos, negsuc}
use magical_os.Bytes.{Memory, CString}
use magical_os.Links.Ring.{Ring, Chain}
use magical_os.Queue.{queue_init}
use magical_os.Queue.Laws.{queue_init_lem, queue_enq_lem}
use magical_os.Common.{str_compare}
use magical_os.Common.Laws.{str_compare_lem, order_strings}
use magical_os.Memory.{page_size}
use magical_os.Block.{is_zero}
use magical_os.Fs.{FileSystem, add_file, fs_init, open_from, fs_open}

is_zero_of : (r : ℤ) → r ≡ pos 0 → is_zero r ≡ true
is_zero_of r h = rw h refl

is_zero_iff : (r : ℤ) → (is_zero r ≡ true) ↔ (r ≡ pos 0)
is_zero_iff (pos zero) = ((λ h. refl), λ h. refl)
is_zero_iff (pos (suc n)) = ((λ h. cc), λ h. is_zero_of (pos (suc n)) h)
is_zero_iff (negsuc n) = ((λ h. cc), λ h. is_zero_of (negsuc n) h)

-- The address that a search for the name `xs` gives: the first of these files with that name, or NULL.
abbrev pub Finds : (ℕ → List ℕ) → List ℕ → List ℕ → ℕ → Type 0
Finds names xs [] r = r ≡ 0
Finds names xs (f ∷ fs) r = (names f ≡ xs → r ≡ f) × (names f ≢ xs → Finds names xs fs r)

-- With three different objects `fs_init` sets up the list of the two files, the shell first, and their
-- names are at the start of the first and the second page behind the base.
pub fs_init_lem :
    (fhead fshell fuptime base : ℕ) (mem' : Memory) (s : FileSystem)
    → fshell ≢ fhead
    → fuptime ≢ fhead
    → fuptime ≢ fshell
    → Ring (fs_init fhead fshell fuptime base mem' s).links fhead (fshell ∷ fuptime ∷ [])
      × ((fs_init fhead fshell fuptime base mem' s).name fshell ≡ base + page_size)
      × ((fs_init fhead fshell fuptime base mem' s).name fuptime ≡ base + page_size * 2)
unfolding fs_init add_file
fs_init_lem fhead fshell fuptime base mem' s a b c =
    let r0 = queue_init_lem fhead s.links in
    let r1 = (queue_enq_lem fshell fhead (queue_init fhead s.links) [] (ground arith) r0).0 in
    ((queue_enq_lem fuptime fhead _ (fshell ∷ []) (ground arith) r1).0, ground arith, ground arith)

not_both : {b : Bool} → b ≡ true → b ≡ false → ⊥
not_both h k = cc

open_from_miss :
    (fuel k : ℕ) (mem' : Memory) (name fhead f : ℕ) (s : FileSystem) (o : ℤ)
    → (f == fhead) ≡ false
    → str_compare k mem' name (s.name f) ≡ some o
    → is_zero o ≡ false
    → open_from (suc fuel) k mem' name fhead f s
      ≡ open_from fuel k mem' name fhead (s.links.next f) s
unfolding open_from
open_from_miss fuel k mem' name fhead f s o differ c z = rw (differ, c, z) refl

open_from_lem :
    (fuel k : ℕ) (mem' : Memory) (name fhead a : ℕ) (s : FileSystem) (names : ℕ → List ℕ)
    (xs fs : List ℕ)
    → Chain s.links a fs fhead
    → mem fhead fs ≡ false
    → CString mem' name xs
    → ((f : ℕ) → mem f fs ≡ true → CString mem' (s.name f) (names f))
    → length fs < fuel
    → length xs < k
    → (r : ℕ) × (open_from fuel k mem' name fhead (s.links.next a) s ≡ some r) × Finds names xs fs r
unfolding open_from
open_from_lem zero k mem' name fhead a s names xs fs c out n m le lk = absurd (omega arith)
open_from_lem (suc fuel) k mem' name fhead a s names xs [] c out n m le lk =
    (0, rw c.0 (ground arith), refl)
open_from_lem (suc fuel) k mem' name fhead a s names xs (f ∷ fs) c out n m le lk =
    let cmp = str_compare_lem k mem' name (s.name f) xs (names f) n (m f (ground arith)) lk in
    let at_f = ap (λ p. open_from (suc fuel) k mem' name fhead p s) c.0 in
    let differ : (f == fhead) ≡ false = ground (arith, out) in
    let zero_iff = is_zero_iff (order_strings xs (names f)) in
    elim (Bool-cases (is_zero (order_strings xs (names f)))) [
      | inl z ↦ (
        f,
        at_f ∙ rw (differ, cmp.0, z) refl,
        ((λ e. refl), λ ne. absurd (ne (sym (cmp.1.0 (zero_iff.0 z))))),
      )
      | inr z ↦
          let rec =
            open_from_lem fuel k mem' name fhead f s names xs fs c.2 (ground (arith, out)) n
              (λ g i. m g (ground arith)) (omega arith) lk in
          let other : names f ≢ xs = λ e. not_both (zero_iff.1 (cmp.1.1 (sym e))) z in
          (
            rec.0,
            at_f ∙ open_from_miss fuel k mem' name fhead f s _ differ cmp.0 z ∙ rec.1,
            ((λ e. absurd (other e)), λ ne. rec.2),
          )
    ]

-- On a list of files whose names are strings, `fs_open` returns the first with the name asked for, or NULL
-- when none has it; one round more than there are files, and than the name has characters, is enough.
pub fs_open_lem :
    (fuel k : ℕ) (mem' : Memory) (name fhead : ℕ) (s : FileSystem) (names : ℕ → List ℕ)
    (xs fs : List ℕ)
    → Ring s.links fhead fs
    → CString mem' name xs
    → ((f : ℕ) → mem f fs ≡ true → CString mem' (s.name f) (names f))
    → length fs < fuel
    → length xs < k
    → (r : ℕ) × (fs_open fuel k mem' name fhead s ≡ some r) × Finds names xs fs r
unfolding fs_open
fs_open_lem fuel k mem' name fhead s names xs fs r n m le lk =
    open_from_lem fuel k mem' name fhead fhead s names xs fs r.0 r.1.0 n m le lk
