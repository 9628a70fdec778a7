-- ===== src/Memory.antt =====
-- The memory that C and the library share, as cells: one cell for each element, whatever its
-- width, so a buffer of n elements at p is the cells p, …, p + n - 1. NULL is 0. A pointer of a C
-- caller that is not NULL points to memory that may be read and written, which the contract of the
-- C interface demands of the caller.
use rustls_ffi.Prelude.{
  ℕ, zero, suc, ◌+◌, ◌≤◌, ◌<◌, ◌≡◌, refl, ◌⊎◌, ap, Bool, List, [], ◌∷◌, ◌&&◌, arith, ◌==◌, leb, ltb,
  if◌then◌else◌, length,
}

abbrev pub Ptr : Type 0
Ptr = ℕ

abbrev pub null : Ptr
null = 0

abbrev pub is_null : Ptr → Bool
is_null p = p == 0

abbrev pub Memory : Type 0
Memory = Ptr → ℕ

-- `*p = v`
abbrev pub write : Ptr → ℕ → Memory → Memory
write p v m q = if q == p then v else m q

-- `copy_nonoverlapping` from a Rust slice with the elements `xs` to `p`.
unfoldable pub copy : List ℕ → Ptr → Memory → Memory
copy [] p m = m
copy (x ∷ xs) p m = copy xs (p + 1) (write p x m)

-- `slice::from_raw_parts(p, n)`, as the elements that stand there.
unfoldable pub from_raw_parts : Ptr → ℕ → Memory → List ℕ
from_raw_parts p zero m = []
from_raw_parts p (suc n) m = m p ∷ from_raw_parts (p + 1) n m

-- `vec![0; n]` with its buffer at p.
abbrev pub zeroed : Ptr → ℕ → Memory → Memory
zeroed p n m q = if leb p q && ltb q (p + n) then 0 else m q

abbrev pub Outside : Ptr → ℕ → Ptr → Type 0
Outside p n q = (q < p) ⊎ (p + n ≤ q)

-- A copy changes its destination only.
pub copy-Outside :
    (xs : List ℕ) (p : Ptr) (m : Memory) (q : Ptr) → Outside p (length xs) q → copy xs p m q ≡ m q
unfolding copy
copy-Outside [] p m q h = refl
copy-Outside (x ∷ xs) p m q h = ground (arith, copy-Outside xs (p + 1) (write p x m) q)

pub from_raw_parts-write :
    (p : Ptr) (n : ℕ) (m : Memory) (q : Ptr) (v : ℕ)
    → Outside p n q
    → from_raw_parts p n (write q v m) ≡ from_raw_parts p n m
unfolding from_raw_parts
from_raw_parts-write p zero m q v h = refl
from_raw_parts-write p (suc n) m q v h = ground (arith, from_raw_parts-write (p + 1) n m q v)

pub from_raw_parts-copy :
    (xs : List ℕ) (p : Ptr) (m : Memory) → from_raw_parts p (length xs) (copy xs p m) ≡ xs
unfolding from_raw_parts copy
from_raw_parts-copy [] p m = refl
from_raw_parts-copy (x ∷ xs) p m =
    ground
      (arith, copy-Outside xs (p + 1) (write p x m) p, from_raw_parts-copy xs (p + 1) (write p x m))

pub length-from_raw_parts : (p : Ptr) (n : ℕ) (m : Memory) → length (from_raw_parts p n m) ≡ n
unfolding from_raw_parts
length-from_raw_parts p zero m = refl
length-from_raw_parts p (suc n) m = ap suc (length-from_raw_parts (p + 1) n m)
