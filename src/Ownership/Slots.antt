-- ===== src/Ownership/Slots.antt =====
-- One slot of the heap: its references, and what a clone and a drop of an Arc do to them.
use rustls_ffi.Prelude.{
  ℕ, zero, suc, ◌+◌, ◌-◌, ◌≤◌, ◌<◌, ◌≡◌, refl, sym, ◌≢◌, Option, none, some, List, [], ◌∷◌, arith,
  ◌==◌, if◌then◌else◌,
}
use mathlib.Core.Path.{subst}
use native.Mathlib.Decide.{ℕ_discrete}
use rustls_ffi.Panic.{done}
use rustls_ffi.Memory.{Ptr}
use rustls_ffi.World.{Slot, boxed, counted, borrowed, Heap, World, put, set_heap}
use rustls_ffi.Ownership.{CastPtr, shared, retain, release}
use rustls_ffi.Ownership.Arcs.{cloned}

-- How often an address stands in a list.
abbrev pub occurrences : Ptr → List Ptr → ℕ
occurrences q [] = 0
occurrences q (p ∷ ps) = (if q == p then 1 else 0) + occurrences q ps

-- The head of a list occurs once more than in the rest, and any other address as often.
pub occurrences_head : (p : Ptr) (ps : List Ptr) → occurrences p (p ∷ ps) ≡ suc (occurrences p ps)
occurrences_head p ps = ground arith

pub occurrences_other :
    (q p : Ptr) (ps : List Ptr) → q ≢ p → occurrences q (p ∷ ps) ≡ occurrences q ps
occurrences_other q p ps ne = ground arith

-- A pointwise claim about a heap with one slot replaced.
pub at_each : (P : Ptr → Type 0) (p : Ptr) → P p → ((q : Ptr) → q ≢ p → P q) → (q : Ptr) → P q
at_each P p here there q = elim (ℕ_discrete q p) [
  | yes e ↦ subst P (sym e) here
  | no ne ↦ there q ne
]

module _ {O : Type 0} where
  -- The number of references to what stands at an address.
  abbrev pub references : Option (Slot O) → ℕ
  references (some (counted n o)) = n
  references _ = 0

  -- A slot with so many references more, and with so many fewer; with none left it is free.
  abbrev pub plus : ℕ → Option (Slot O) → Option (Slot O)
  plus k (some (counted n o)) = some (counted (k + n) o)
  plus k s = s

  abbrev pub minus : ℕ → Option (Slot O) → Option (Slot O)
  minus zero s = s
  minus (suc k) (some (counted n o)) = if n == suc k then none else some (counted (n - suc k) o)
  minus (suc k) s = s

  pub drop_slot :
      (p : Ptr) (s : Option (Slot O)) (w : World O)
      → 0 < references s
      → release p s w ≡ done tt (set_heap w (put p (minus 1 s) w.heap))
  drop_slot p none w l = absurd (omega arith)
  drop_slot p (some (boxed o)) w l = absurd (omega arith)
  drop_slot p (some borrowed) w l = absurd (omega arith)
  drop_slot p (some (counted zero o)) w l = absurd (omega arith)
  drop_slot p (some (counted (suc zero) o)) w l = ground arith
  drop_slot p (some (counted (suc (suc n)) o)) w l = ground arith

  pub clone_slot :
      (p : Ptr) (s : Option (Slot O)) (w : World O)
      → 0 < references s
      → cloned p s w ≡ done tt (set_heap w (put p (plus 1 s) w.heap))
  clone_slot p none w l = absurd (omega arith)
  clone_slot p (some (boxed o)) w l = absurd (omega arith)
  clone_slot p (some borrowed) w l = absurd (omega arith)
  clone_slot p (some (counted zero o)) w l = absurd (omega arith)
  clone_slot p (some (counted (suc n) o)) w l = ground arith

  pub minus-minus :
      (k : ℕ) (s : Option (Slot O)) → suc k ≤ references s → minus k (minus 1 s) ≡ minus (suc k) s
  minus-minus zero (some (counted n o)) l = ground arith
  minus-minus (suc k) (some (counted n o)) l = ground arith
  minus-minus k none l = absurd (omega arith)
  minus-minus k (some (boxed o)) l = absurd (omega arith)
  minus-minus k (some borrowed) l = absurd (omega arith)

  pub references-minus :
      (s : Option (Slot O)) → 0 < references s → references (minus 1 s) ≡ references s - 1
  references-minus none l = absurd (omega arith)
  references-minus (some (boxed o)) l = absurd (omega arith)
  references-minus (some borrowed) l = absurd (omega arith)
  references-minus (some (counted n o)) l = ground arith

  pub put_here : (p : Ptr) (s : Option (Slot O)) (h : Heap O) → put p s h p ≡ s
  put_here p s h = ground arith

  pub put_there : (q p : Ptr) (s : Option (Slot O)) (h : Heap O) → q ≢ p → put p s h q ≡ h q
  put_there q p s h ne = ground arith

  pub plus-plus : (k : ℕ) (s : Option (Slot O)) → plus k (plus 1 s) ≡ plus (suc k) s
  plus-plus k none = refl
  plus-plus k (some (boxed o)) = refl
  plus-plus k (some borrowed) = refl
  plus-plus k (some (counted n o)) = ground arith

  pub plus_zero : (s : Option (Slot O)) → plus 0 s ≡ s
  plus_zero none = refl
  plus_zero (some (boxed o)) = refl
  plus_zero (some borrowed) = refl
  plus_zero (some (counted n o)) = ground arith

  pub minus-plus :
      (k : ℕ) (s : Option (Slot O)) → 0 < references s → minus (suc k) (plus 1 s) ≡ minus k s
  minus-plus k none l = absurd (omega arith)
  minus-plus k (some (boxed o)) l = absurd (omega arith)
  minus-plus k (some borrowed) l = absurd (omega arith)
  minus-plus zero (some (counted n o)) l = ground arith
  minus-plus (suc k) (some (counted n o)) l = ground arith

  pub references-plus :
      (s : Option (Slot O)) → 0 < references s → references (plus 1 s) ≡ suc (references s)
  references-plus none l = absurd (omega arith)
  references-plus (some (boxed o)) l = absurd (omega arith)
  references-plus (some borrowed) l = absurd (omega arith)
  references-plus (some (counted n o)) l = ground arith

module _ {O T : Type 0} ⦃c : CastPtr O T⦄ where
  -- One reference more does not change what a shared reference sees.
  pub shared-plus :
      (s : Option (Slot O)) {t : T}
      → 0 < references s
      → shared s ≡ some t
      → shared (plus 1 s) ≡ some t
  shared-plus none l e = absurd (omega arith)
  shared-plus (some (boxed o)) l e = absurd (omega arith)
  shared-plus (some borrowed) l e = absurd (omega arith)
  shared-plus (some (counted zero o)) l e = absurd (omega arith)
  shared-plus (some (counted (suc n) o)) l e = ground arith

  pub retain_slot :
      (p : Ptr) (s : Option (Slot O)) (w : World O) {t : T}
      → 0 < references s
      → shared s ≡ some t
      → retain p s w
        ≡ done (some (record { at = p; value = t })) (set_heap w (put p (plus 1 s) w.heap))
  retain_slot p none w l e = absurd (omega arith)
  retain_slot p (some (boxed o)) w l e = absurd (omega arith)
  retain_slot p (some borrowed) w l e = absurd (omega arith)
  retain_slot p (some (counted zero o)) w l e = absurd (omega arith)
  retain_slot p (some (counted (suc n) o)) w l e = ground arith
