-- ===== src/Ownership/Restoring.antt =====
-- A Box that comes and goes, and the Arcs that it holds in between: the state differs by them only
-- from a state before, which is restored in the end.
use rustls_ffi.Prelude.{
  ℕ, zero, suc, ◌+◌, ◌<◌, ◌≡◌, refl, sym, ap, ◌∙◌, fun_ext, ◌≢◌, ◌⊎◌, inl, inr, Option, none, some,
  List, [], ◌∷◌, ◌++◌, arith,
}
use mathlib.Core.Path.{subst}
use rustls_ffi.Memory.{Ptr}
use rustls_ffi.World.{Slot, boxed, counted, borrowed, Heap, World, put, set_heap}
use rustls_ffi.Ownership.{CastPtr, Arc, shared}
use rustls_ffi.Ownership.References.{put-put_self}
use rustls_ffi.Ownership.Counts.{plus_all, minus_all, Live, Live-occurrences, Covered}
use rustls_ffi.Ownership.Taking.{Arcs}
use rustls_ffi.Ownership.Lending.{
  minus-counted, Covered-put, Covered-cloned, minus_all-plus_all, Arcs-lent,
}
use rustls_ffi.Ownership.Replacing.{occurrences-++}
use rustls_ffi.Ownership.Slots.{
  occurrences, references, plus, minus, at_each, put_here, put_there, plus_zero,
}

module _ {O : Type 0} where
  -- The state with an object at p besides, and with one reference more for each of some addresses.
  abbrev pub holding : Ptr → Option (Slot O) → List Ptr → World O → World O
  holding p x arcs w = set_heap w (put p x (plus_all arcs w.heap))

  -- Of m + j added references, j are dropped, after k new ones have been added.
  replaced_slot :
      (m j k : ℕ) (s : Option (Slot O))
      → (m + j ≡ 0) ⊎ (0 < references s)
      → minus j (plus k (plus (m + j) s)) ≡ plus (m + k) s
  replaced_slot m zero k none l = refl
  replaced_slot m (suc j) k none l = refl
  replaced_slot m zero k (some (boxed o)) l = refl
  replaced_slot m (suc j) k (some (boxed o)) l = refl
  replaced_slot m zero k (some borrowed) l = refl
  replaced_slot m (suc j) k (some borrowed) l = refl
  replaced_slot m zero k (some (counted n o)) l = ap (λ i. some (counted i o)) (omega arith)
  replaced_slot m (suc j) k (some (counted n o)) l =
      minus-counted (suc j) (k + (m + suc j + n)) o (omega arith)
      ∙ ap (λ i. some (counted i o)) (omega arith)

  -- An object that held some Arcs is replaced by one that holds others.
  pub put-replaced :
      (kept old new : List Ptr) (p : Ptr) (x y : Option (Slot O)) (h : Heap O)
      → Live (kept ++ old) h
      → put p y (minus_all old (plus_all new (put p x (plus_all (kept ++ old) h))))
        ≡ put p y (plus_all (kept ++ new) h)
  put-replaced kept old new p x y h live =
      let before = put p x (plus_all (kept ++ old) h) in
      let after = minus_all old (plus_all new before) in
      fun_ext (
        at_each (λ q. put p y after q ≡ put p y (plus_all (kept ++ new) h) q) p
          (put_here p y after ∙ sym (put_here p y (plus_all (kept ++ new) h)))
          λ q ne.
            put_there q p y after ne
            ∙ (ap (λ s. minus (occurrences q old) (plus (occurrences q new) s))
                  (put_there q p x (plus_all (kept ++ old) h) ne)
                ∙ (at_counts q ∙ sym (put_there q p y (plus_all (kept ++ new) h) ne))))
    where
      at_counts :
          (q : Ptr)
          → minus
              (occurrences q old)
              (plus (occurrences q new) (plus (occurrences q (kept ++ old)) (h q)))
            ≡ plus (occurrences q (kept ++ new)) (h q)
      at_counts q =
          rw (occurrences-++ q kept new, occurrences-++ q kept old)
            (replaced_slot (occurrences q kept) (occurrences q old) (occurrences q new) (h q)
              (elim (Live-occurrences (kept ++ old) h q live) [
                | inl z ↦ inl (sym (occurrences-++ q kept old) ∙ z)
                | inr l ↦ inr l
              ]))

  pub plus_all-none : (h : Heap O) → plus_all [] h ≡ h
  plus_all-none h = fun_ext λ q. plus_zero (h q)

  pub put-put : (p : Ptr) (x y : Option (Slot O)) (h : Heap O) → put p y (put p x h) ≡ put p y h
  put-put p x y h = fun_ext λ q. ground arith

  pub Live-++ : (xs ys : List Ptr) (h : Heap O) → Live xs h → Live ys h → Live (xs ++ ys) h
  Live-++ [] ys h a l = l
  Live-++ (x ∷ xs) ys h a l = (a.0, Live-++ xs ys h a.1 l)

  pub Live-left : (xs ys : List Ptr) (h : Heap O) → Live (xs ++ ys) h → Live xs h
  Live-left [] ys h a = tt
  Live-left (x ∷ xs) ys h a = (a.0, Live-left xs ys h a.1)

  pub Live-right : (xs ys : List Ptr) (h : Heap O) → Live (xs ++ ys) h → Live ys h
  Live-right [] ys h a = a
  Live-right (x ∷ xs) ys h a = Live-right xs ys h a.1

  pub plus_all-swap :
      (xs ys : List Ptr) (h : Heap O) → plus_all (xs ++ ys) h ≡ plus_all (ys ++ xs) h
  plus_all-swap xs ys h =
      fun_ext
        λ q. ap (λ k. plus k (h q)) (omega (arith, occurrences-++ q xs ys, occurrences-++ q ys xs))

  -- At an unused address p: the object, and the Arcs that it holds.
  module _ (p : Ptr) (x : Option (Slot O)) (arcs : List Ptr) (w : World O)
      (unused : w.heap p ≡ none) where
    pub holding_free : references (plus_all arcs w.heap p) ≡ 0
    holding_free = rw unused refl

    -- The object goes.
    pub gone-holding : put p none (put p x (plus_all arcs w.heap)) ≡ plus_all arcs w.heap
    gone-holding = put-put_self p x (plus_all arcs w.heap) (rw unused refl)

    pub Covered-holding : Live arcs w.heap → Covered arcs (holding p x arcs w).heap
    Covered-holding live =
        Covered-put arcs p x (plus_all arcs w.heap) holding_free (Covered-cloned arcs w.heap live)

    -- Its Arcs go too.
    pub restored :
        Live arcs w.heap → set_heap w (minus_all arcs (put p none (holding p x arcs w).heap)) ≡ w
    restored live =
        ap (λ h. set_heap w (minus_all arcs h)) gone-holding
        ∙ ap (set_heap w) (minus_all-plus_all arcs w.heap live)

none-ne-some : {T : Type 0} {t : T} → ◌≡◌ {A = Option T} none (some t) → ⊥
none-ne-some e = cc

module _ {O T : Type 0} ⦃c : CastPtr O T⦄ where
  shared-plus_any :
      (k : ℕ) (s : Option (Slot O)) (t : T)
      → 0 < references s
      → shared s ≡ some t
      → (0 < references (plus k s)) × (shared (plus k s) ≡ some t)
  shared-plus_any k none t l e = absurd (omega arith)
  shared-plus_any k (some (boxed o)) t l e = absurd (omega arith)
  shared-plus_any k (some borrowed) t l e = absurd (omega arith)
  shared-plus_any k (some (counted zero o)) t l e = absurd (omega arith)
  shared-plus_any k (some (counted (suc n) o)) t l e =
      let m : k + suc n ≡ suc (k + n) = omega arith in (omega arith, rw (m, shared) e)

  -- What a shared reference sees, it still sees while another object is borrowed that holds some Arcs.
  pub shared-lent :
      (q p : Ptr) (x y : Option (Slot O)) (arcs : List Ptr) (w : World O) (t : T)
      → w.heap p ≡ none
      → shared (w.heap q) ≡ some t
      → shared (put p y (holding p x arcs w).heap q) ≡ some t
  shared-lent q p x y arcs w t unused e =
      let other : q ≢ p =
        λ same. none-ne-some (subst (λ z. shared z ≡ some t) (ap w.heap same ∙ unused) e) in
      rw
        (
          put_there q p y (holding p x arcs w).heap other,
          put_there q p x (plus_all arcs w.heap) other,
        )
        (seen (occurrences q arcs) (w.heap q) e)
    where
      seen : (k : ℕ) (s : Option (Slot O)) → shared s ≡ some t → shared (plus k s) ≡ some t
      seen k none h = h
      seen k (some (boxed o)) h = h
      seen k (some borrowed) h = h
      seen k (some (counted zero o)) h = cc
      seen k (some (counted (suc n) o)) h =
          let m : k + suc n ≡ suc (k + n) = omega arith in rw (m, shared) h

  -- Pointers that stand for Arcs still do when an object holds some Arcs besides.
  pub Arcs-holding :
      (keys : List (Arc T)) (p : Ptr) (x : Option (Slot O)) (arcs : List Ptr) (w : World O)
      → w.heap p ≡ none
      → Arcs keys w.heap
      → Arcs keys (holding p x arcs w).heap
  Arcs-holding keys p x arcs w unused a =
      Arcs-lent keys p x (plus_all arcs w.heap) (holding_free p x arcs w unused) (more keys a)
    where
      more : (ks : List (Arc T)) → Arcs ks w.heap → Arcs ks (plus_all arcs w.heap)
      more [] b = tt
      more (k ∷ ks) ((ne, l, e), b) =
          let (l', e') = shared-plus_any (occurrences k.at arcs) (w.heap k.at) k.value l e in
          ((ne, l', e'), more ks b)
