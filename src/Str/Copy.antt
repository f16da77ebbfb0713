-- ===== src/Str/Copy.antt =====
-- The routines of kernel/string.c that write memory.
use magical_os.Base.{
  ℕ, zero, suc, ◌+◌, ◌-◌, ◌%◌, ◌<◌, ◌≤◌, ◌≡◌, refl, ◌≢◌, ◌⊎◌, Bool, true, false, ◌&&◌, List, [],
  ◌∷◌, arith, ◌==◌, leb, ltb, if◌then◌else◌, length, update, Returns, Returns-mono,
}
use magical_os.Bytes.{Memory, CString, CString-frame}
use magical_os.Str.{memset_from, memset, memcpy_from, memcpy, strcpy}

abbrev pub within : ℕ → ℕ → ℕ → Bool
within a start n = leb start a && ltb a (start + n)

memset_from_lem :
    (n addr c i : ℕ) (mem : Memory) (a : ℕ)
    → memset_from n addr c i mem a ≡ (if within a (addr + i) n then c % 256 else mem a)
unfolding memset_from
memset_from_lem zero addr c i mem a = ground arith
memset_from_lem (suc n) addr c i mem a =
    ground (arith, memset_from_lem n addr c (i + 1) (update mem (addr + i) (c % 256)) a)

-- `memset` sets the `size` bytes at `addr` to the low byte of `c` and no other.
pub memset_lem :
    (addr c size : ℕ) (mem : Memory) (a : ℕ)
    → memset addr c size mem a ≡ (if within a addr size then c % 256 else mem a)
unfolding memset
memset_lem addr c size mem a = ground (arith, memset_from_lem size addr c 0 mem a)

memcpy_from_lem :
    (n dest src i : ℕ) (mem : Memory) (a : ℕ)
    → (dest ≤ src) ⊎ (src + i + n ≤ dest)
    → memcpy_from n dest src i mem a
      ≡ (if within a (dest + i) n then mem (src + (a - dest)) else mem a)
unfolding memcpy_from
memcpy_from_lem zero dest src i mem a h = ground arith
memcpy_from_lem (suc n) dest src i mem a h =
    let h' : (dest ≤ src) ⊎ (src + (i + 1) + n ≤ dest) = omega arith in
    ground (arith, memcpy_from_lem n dest src (i + 1) (update mem (dest + i) (mem (src + i))) a h')

-- Unless the source begins before the destination and reaches into it, `memcpy` copies its `n` bytes,
-- writes no other byte, and returns the destination.
pub memcpy_lem :
    (dest src n : ℕ) (mem : Memory)
    → (dest ≤ src) ⊎ (src + n ≤ dest)
    → ((memcpy dest src n mem).0 ≡ dest)
      × ((a : ℕ)
          → (memcpy dest src n mem).1 a
            ≡ (if within a dest n then mem (src + (a - dest)) else mem a))
unfolding memcpy
memcpy_lem dest src n mem h = (refl, λ a. ground (arith, memcpy_from_lem n dest src 0 mem a))

-- What `strcpy` leaves: the returned pointer stands behind the NUL of the copy.
pub record Copied (dest : ℕ) (xs : List ℕ) (mem : Memory) (r : ℕ × Memory) : Type 0 where
  pub behind : r.0 ≡ dest + length xs + 1
  pub copy : CString r.1 dest xs
  pub same : (a : ℕ) → within a dest (length xs + 1) ≡ false → r.1 a ≡ mem a

Copied-cons :
    (dest x : ℕ) (xs : List ℕ) (mem : Memory)
    → x ≢ 0
    → x < 256
    → (r : ℕ × Memory) → Copied (dest + 1) xs (update mem dest x) r
    → Copied dest (x ∷ xs) mem r
Copied-cons dest x xs mem nz b r v = record {
  behind = omega (arith, v.behind);
  copy = (ground (arith, v.same dest), nz, b, v.copy);
  same = λ a o. ground (arith, v.same a);
}

-- `strcpy` copies the string with its NUL, unless the destination lies in the string behind its first
-- character, and writes nothing else. It returns the address behind the copy, not the destination.
pub strcpy_lem :
    (fuel dest src : ℕ) (mem : Memory) (xs : List ℕ)
    → CString mem src xs
    → (dest ≤ src) ⊎ (src + length xs < dest)
    → length xs < fuel
    → Returns (Copied dest xs mem) (strcpy fuel dest src mem)
unfolding strcpy
strcpy_lem zero dest src mem xs c h lt = absurd (omega arith)
strcpy_lem (suc fuel) dest src mem [] c h lt =
    let e : (mem src == 0) ≡ true = ground arith in
    rw e (record { behind = omega arith; copy = ground arith; same = λ a o. ground arith })
strcpy_lem (suc fuel) dest src mem (x ∷ xs) c h lt =
    let e : (mem src == 0) ≡ false = ground arith in
    let c' =
      CString-frame mem (update mem dest (mem src)) (src + 1) xs (λ a l u. ground arith) c.3 in
    let rec =
      strcpy_lem fuel (dest + 1) (src + 1) (update mem dest (mem src)) xs c' (omega arith)
        (omega arith) in
    let rec' = rw c.0 at rec in
    rw e (rw c.0 (Returns-mono _ (Copied-cons dest x xs mem c.1 c.2) rec'))
