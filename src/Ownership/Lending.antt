-- ===== src/Ownership/Lending.antt =====
-- The reference counts while a call has a mutable borrow of a Box, whose object holds Arcs.
use rustls_ffi.Prelude.{
  ℕ, zero, suc, ◌+◌, ◌-◌, ◌≤◌, ◌<◌, ◌≡◌, refl, sym, ap, ◌∙◌, fun_ext, ◌≢◌, ◌⊎◌, Option, none, some,
  List, [], ◌∷◌, arith,
}
use rustls_ffi.Panic.{NullParameterOrDefault, Cmd, done}
use rustls_ffi.Memory.{Ptr, null}
use rustls_ffi.World.{Slot, boxed, counted, borrowed, Heap, World, put, set_heap, lift}
use rustls_ffi.Ownership.{CastPtr, Arc, give_back, try_mut_from_ptr}
use rustls_ffi.Ownership.References.{try_mut-boxed, give_back_same}
use rustls_ffi.Ownership.Arcs.{addresses}
use rustls_ffi.Ownership.Counts.{plus_all, minus_all, Live, Live-occurrences, Covered}
use rustls_ffi.Ownership.Taking.{Arcs}
use rustls_ffi.Ownership.Slots.{occurrences, at_each, references, plus, minus, put_here, put_there}

module _ {O : Type 0} where
  -- A change at each address but one, which is overwritten in the end.
  pub put-over :
      (f : Ptr → Option (Slot O) → Option (Slot O)) (p : Ptr) (lent s : Option (Slot O))
      (h : Heap O)
      → put p s (λ q. f q (put p lent h q)) ≡ put p s (λ q. f q (h q))
  put-over f p lent s h = fun_ext (
      at_each (λ q. put p s (λ q. f q (put p lent h q)) q ≡ put p s (λ q. f q (h q)) q) p
        (put_here p s (λ q. f q (put p lent h q)) ∙ sym (put_here p s (λ q. f q (h q))))
        λ q ne.
          put_there q p s (λ q. f q (put p lent h q)) ne
          ∙ (ap (f q) (put_there q p lent h ne) ∙ sym (put_there q p s (λ q. f q (h q)) ne)))

  -- What the list covers has a place elsewhere than where there is no reference.
  pub Covered-put :
      (ps : List Ptr) (p : Ptr) (s : Option (Slot O)) (h : Heap O)
      → references (h p) ≡ 0
      → Covered ps h
      → Covered ps (put p s h)
  Covered-put ps p s h z cover =
      at_each (λ q. occurrences q ps ≤ references (put p s h q)) p (omega (arith, cover p))
        λ q ne. rw (put_there q p s h ne) (cover q)

  pub minus-counted :
      (k n : ℕ) (o : O) → k < n → minus k (some (counted n o)) ≡ some (counted (n - k) o)
  minus-counted zero n o l = ground arith
  minus-counted (suc k) n o l = ground arith

  -- Two clones, and the drops of the old ones and of one of the two clones.
  pub exchange :
      (k j : ℕ) (s : Option (Slot O))
      → (k ≡ 0) ⊎ (0 < references s)
      → j ≤ references s
      → minus k (minus j (plus k (plus k s))) ≡ minus j (plus k s)
  exchange zero zero none l c = refl
  exchange zero zero (some (boxed o)) l c = refl
  exchange zero zero (some borrowed) l c = refl
  exchange zero j (some (counted n o)) l c = ap (λ m. minus j (some (counted m o))) (omega arith)
  exchange (suc k) j (some (counted n o)) l c =
      rw
        (
          minus-counted j (suc k + (suc k + n)) o (omega arith),
          minus-counted (suc k) (suc k + (suc k + n) - j) o (omega arith),
          minus-counted j (suc k + n) o (omega arith),
        )
        (ap (λ m. some (counted m o)) (omega arith))
  exchange (suc k) j none l c = ground arith
  exchange (suc k) j (some (boxed o)) l c = ground arith
  exchange (suc k) j (some borrowed) l c = ground arith
  exchange zero (suc j) none l c = absurd (omega arith)
  exchange zero (suc j) (some (boxed o)) l c = absurd (omega arith)
  exchange zero (suc j) (some borrowed) l c = absurd (omega arith)

  pub exchange-references :
      (k j : ℕ) (s : Option (Slot O))
      → (k ≡ 0) ⊎ (0 < references s)
      → j ≤ references s
      → k ≤ references (minus j (plus k (plus k s)))
  exchange-references zero j s l c = omega arith
  exchange-references (suc k) j (some (counted n o)) l c =
      rw (minus-counted j (suc k + (suc k + n)) o (omega arith)) (omega arith)
  exchange-references (suc k) j none l c = ground arith
  exchange-references (suc k) j (some (boxed o)) l c = ground arith
  exchange-references (suc k) j (some borrowed) l c = ground arith

  pub minus-plus_same :
      (k : ℕ) (s : Option (Slot O)) → (k ≡ 0) ⊎ (0 < references s) → minus k (plus k s) ≡ s
  minus-plus_same zero none l = refl
  minus-plus_same (suc k) none l = refl
  minus-plus_same zero (some (boxed o)) l = refl
  minus-plus_same (suc k) (some (boxed o)) l = refl
  minus-plus_same zero (some borrowed) l = refl
  minus-plus_same (suc k) (some borrowed) l = refl
  minus-plus_same zero (some (counted n o)) l = ap (λ m. some (counted m o)) (omega arith)
  minus-plus_same (suc k) (some (counted n o)) l =
      minus-counted (suc k) (suc k + n) o (omega arith) ∙ ap (λ m. some (counted m o)) (omega arith)

  references_mono : (k : ℕ) (s : Option (Slot O)) → references s ≤ references (plus k s)
  references_mono k none = omega arith
  references_mono k (some (boxed o)) = omega arith
  references_mono k (some borrowed) = omega arith
  references_mono k (some (counted n o)) = omega arith

  pub Live-plus_all : (ps ks : List Ptr) (h : Heap O) → Live ps h → Live ps (plus_all ks h)
  Live-plus_all [] ks h l = tt
  Live-plus_all (p ∷ ps) ks h l =
      (omega (arith, l.0, references_mono (occurrences p ks) (h p)), Live-plus_all ps ks h l.1)

  pub Covered-plus_all : (ps ks : List Ptr) (h : Heap O) → Covered ps h → Covered ps (plus_all ks h)
  Covered-plus_all ps ks h cover q =
      omega (arith, cover q, references_mono (occurrences q ks) (h q))

  -- A new Box, whose place is free again in the end, and the clones made meanwhile.
  pub plus_all-gone :
      (ks : List Ptr) (a : Ptr) (x y : Option (Slot O)) (h : Heap O)
      → h a ≡ none
      → put a none (put a x (plus_all ks (put a y h))) ≡ plus_all ks h
  plus_all-gone ks a x y h unused = fun_ext (
      at_each (λ q. put a none (put a x (plus_all ks (put a y h))) q ≡ plus_all ks h q) a
        (put_here a none (put a x (plus_all ks (put a y h)))
          ∙ sym (ap (plus (occurrences a ks)) unused))
        λ q ne.
          put_there q a none (put a x (plus_all ks (put a y h))) ne
          ∙ (put_there q a x (plus_all ks (put a y h)) ne
              ∙ ap (plus (occurrences q ks)) (put_there q a y h ne)))

  pub Covered-cloned : (ks : List Ptr) (h : Heap O) → Live ks h → Covered ks (plus_all ks h)
  Covered-cloned ks h live q = covered (occurrences q ks) (h q) (Live-occurrences ks h q live)
    where
      covered :
          (k : ℕ) (s : Option (Slot O)) → (k ≡ 0) ⊎ (0 < references s) → k ≤ references (plus k s)
      covered k none l = omega arith
      covered k (some (boxed o)) l = omega arith
      covered k (some borrowed) l = omega arith
      covered k (some (counted n o)) l = omega arith

  -- Clones that are dropped again.
  pub minus_all-plus_all :
      (ks : List Ptr) (h : Heap O) → Live ks h → minus_all ks (plus_all ks h) ≡ h
  minus_all-plus_all ks h live =
      fun_ext λ q. minus-plus_same (occurrences q ks) (h q) (Live-occurrences ks h q live)

module _ {O T : Type 0} ⦃c : CastPtr O T⦄ where
  pub Arcs-Live : (keys : List (Arc T)) (h : Heap O) → Arcs keys h → Live (addresses keys) h
  Arcs-Live [] h a = tt
  Arcs-Live (k ∷ keys) h ((ne, l, e), a) = (l, Arcs-Live keys h a)

  pub Arcs-lent :
      (keys : List (Arc T)) (p : Ptr) (s : Option (Slot O)) (h : Heap O)
      → references (h p) ≡ 0
      → Arcs keys h
      → Arcs keys (put p s h)
  Arcs-lent [] p s h z a = tt
  Arcs-lent (k ∷ keys) p s h z ((ne, l, e), a) =
      let other : k.at ≢ p = λ same. absurd (omega (arith, ap (λ q. references (h q)) same)) in
      (
        (ne, rw (put_there k.at p s h other) l, rw (put_there k.at p s h other) e),
        Arcs-lent keys p s h z a,
      )

module _ {T W A : Type 0} where
  pub lift-done :
      (m : Cmd W A) (t : T) (w : W) {a : A} {w' : W}
      → m w ≡ done a w'
      → lift m (t, w) ≡ done a (t, w')
  lift-done m t w e = rw (e, lift)

module _ {O T : Type 0} ⦃c : CastPtr O T⦄ {R : Type 0} ⦃d : NullParameterOrDefault R⦄ where
  -- A call that works on the Box at `p`, and makes the change `f` everywhere else.
  pub mut-done :
      (p : Ptr) (t t' : T) (w : World O) (k : Cmd (T × World O) R) (r : R)
      (f : Ptr → Option (Slot O) → Option (Slot O))
      → p ≢ null
      → w.heap p ≡ some (boxed (c.object t))
      → k (t, set_heap w (put p (some borrowed) w.heap))
        ≡ done r (t', set_heap w (λ q. f q (put p (some borrowed) w.heap q)))
      → try_mut_from_ptr p k w
        ≡ done r (set_heap w (put p (some (boxed (c.object t'))) (λ q. f q (w.heap q))))
  mut-done p t t' w k r f ne held e =
      try_mut-boxed p t w k ne held
      ∙ (ap (give_back p) e
          ∙ ap (λ h. done r (set_heap w h)) (put-over f p (some borrowed) _ w.heap))

  -- A call that leaves the Box and everything else as it was.
  pub mut_same :
      (p : Ptr) (t : T) (w : World O) (k : Cmd (T × World O) R) (r : R)
      → p ≢ null
      → w.heap p ≡ some (boxed (c.object t))
      → (let lent = set_heap w (put p (some borrowed) w.heap) in k (t, lent) ≡ done r (t, lent))
      → try_mut_from_ptr p k w ≡ done r w
  mut_same p t w k r ne held e =
      try_mut-boxed p t w k ne held ∙ (ap (give_back p) e ∙ give_back_same p t w r held)
