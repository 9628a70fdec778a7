-- ===== src/Ownership/Replacing.antt =====
-- An object in a Box replaces some of the Arcs that it holds by others.
use rustls_ffi.Prelude.{
  sym, fun_ext, ◌∙◌, ℕ, zero, suc, ◌+◌, ◌≤◌, ◌<◌, ◌≡◌, refl, ap, ◌⊎◌, Option, none, some, List, [],
  ◌∷◌, ◌++◌, arith,
}
use rustls_ffi.Panic.{Run, done, panicked, fault}
use rustls_ffi.Memory.{Ptr}
use rustls_ffi.World.{Slot, boxed, counted, borrowed, Heap, put}
use rustls_ffi.Ownership.Counts.{plus_all, minus_all, Live, Live-occurrences, Covered, plus_all-put}
use rustls_ffi.Ownership.Slots.{occurrences, references, plus, minus, at_each, put_there, plus_zero}

pub occurrences-++ :
    (q : Ptr) (xs ys : List Ptr) → occurrences q (xs ++ ys) ≡ occurrences q xs + occurrences q ys
occurrences-++ q [] ys = omega arith
occurrences-++ q (x ∷ xs) ys = omega (arith, occurrences-++ q xs ys)

module _ {O : Type 0} where
  -- Of m + j references, j are dropped, and k are new.
  replaced :
      (m j k : ℕ) (s : Option (Slot O))
      → m + j ≤ references s
      → (k ≡ 0) ⊎ (0 < references s)
      → m + k ≤ references (minus j (plus k s))
  replaced m zero k none l a = ground arith
  replaced m zero k (some (boxed o)) l a = ground arith
  replaced m zero k (some borrowed) l a = ground arith
  replaced m zero k (some (counted n o)) l a = omega arith
  replaced m (suc j) k none l a = absurd (omega arith)
  replaced m (suc j) k (some (boxed o)) l a = absurd (omega arith)
  replaced m (suc j) k (some borrowed) l a = absurd (omega arith)
  replaced m (suc j) k (some (counted n o)) l a = ground arith

  pub minus-none : (k : ℕ) → minus {O = O} k none ≡ none
  minus-none zero = refl
  minus-none (suc k) = refl

  pub Covered-replaced :
      (kept old new : List Ptr) (p : Ptr) (x : Option (Slot O)) (h : Heap O)
      → references (h p) ≡ 0
      → Covered (kept ++ old) h
      → Live new h
      → Covered (kept ++ new) (put p x (minus_all old (plus_all new h)))
  Covered-replaced kept old new p x h free cover live =
      at_each
        (λ q. occurrences q (kept ++ new) ≤ references (put p x (minus_all old (plus_all new h)) q))
        p (omega (arith, occurrences-++ p kept new, occurrences-++ p kept old, cover p, nothing))
        λ q ne.
          rw (put_there q p x (minus_all old (plus_all new h)) ne, occurrences-++ q kept new)
            (replaced (occurrences q kept) (occurrences q old) (occurrences q new) (h q)
              (omega (arith, occurrences-++ q kept old, cover q)) (Live-occurrences new h q live))
    where
      nothing : occurrences p new ≡ 0
      nothing = ground (arith, Live-occurrences new h p live)

  -- One Arc more.
  pub plus_all-one : (q : Ptr) (h : Heap O) → put q (plus 1 (h q)) h ≡ plus_all (q ∷ []) h
  plus_all-one q h = sym (fun_ext λ r. plus_zero (put q (plus 1 (h q)) h r)) ∙ plus_all-put q [] h

  pub Covered-swap : (xs ys : List Ptr) (h : Heap O) → Covered (xs ++ ys) h → Covered (ys ++ xs) h
  Covered-swap xs ys h cover q =
      omega (arith, cover q, occurrences-++ q xs ys, occurrences-++ q ys xs)

  pub Covered-right : (xs ys : List Ptr) (h : Heap O) → Covered (xs ++ ys) h → Covered ys h
  Covered-right xs ys h cover q = omega (arith, cover q, occurrences-++ q xs ys)

  pub Covered-left : (xs ys : List Ptr) (h : Heap O) → Covered (xs ++ ys) h → Covered xs h
  Covered-left xs ys h cover q = omega (arith, cover q, occurrences-++ q xs ys)

abbrev state_after : {W A : Type 0} → Run W A → W → W
state_after (done a w) d = w
state_after (panicked w) d = d
state_after fault d = d

pub done-state : {W A : Type 0} {a b : A} (v w : W) → done a v ≡ done b w → v ≡ w
done-state v w e = ap (λ r. state_after r v) e
