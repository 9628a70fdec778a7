-- ===== src/Ownership/References.antt =====
-- Laws of the references: what a pointer gives, and what is left of it afterwards.
use rustls_ffi.Prelude.{
  ℕ, suc, zero, ◌≡◌, refl, ◌≢◌, ◌⊎◌, inl, inr, Option, none, some, arith, fun_ext, ◌∙◌, ap,
}
use rustls_ffi.Panic.{done, fault, Cmd, NullParameterOrDefault}
use rustls_ffi.Memory.{Ptr, null}
use rustls_ffi.World.{Slot, boxed, counted, borrowed, Heap, World, put, set_heap}
use rustls_ffi.Ownership.{
  try_from, CastPtr, shared, deref, give_back, with_mut, to_box, to_arc, to_mut_ptr, drop_arc,
  try_ref_from_ptr, try_mut_from_ptr,
}

module _ {O : Type 0} where
  -- Putting back what was there.
  pub put-put_self :
      (p : Ptr) (s : Option (Slot O)) {t : Option (Slot O)} (h : Heap O)
      → h p ≡ t
      → put p t (put p s h) ≡ h
  put-put_self p s h e = fun_ext λ q. ground (arith, ap h)

module _ {O : Type 0} where
  drop_arc-counted :
      (p : Ptr) (n : ℕ) (o : O) (w : World O)
      → w.heap p ≡ some (counted (suc (suc n)) o)
      → drop_arc p w ≡ done tt (set_heap w (put p (some (counted (suc n) o)) w.heap))
  unfolding drop_arc
  drop_arc-counted p n o w e = rw e

  drop_arc_last :
      (p : Ptr) (o : O) (w : World O)
      → w.heap p ≡ some (counted 1 o)
      → drop_arc p w ≡ done tt (set_heap w (put p none w.heap))
  unfolding drop_arc
  drop_arc_last p o w e = rw e

module _ {O T : Type 0} ⦃c : CastPtr O T⦄ where
  -- A pointer that is not NULL and that the heap holds a value of the type at.
  pub deref-shared :
      (p : Ptr) (t : T) (w : World O) → shared (w.heap p) ≡ some t → deref p w ≡ done t w
  unfolding deref
  deref-shared p t w e = rw (e, deref)

  pub deref-fault :
      (p : Ptr) (w : World O) → shared {T = T} (w.heap p) ≡ none → deref {T = T} p w ≡ fault
  unfolding deref
  deref-fault p w e = rw (e, deref)

  pub try_from-shared :
      (p : Ptr) (t : T) (w : World O)
      → p ≢ null
      → shared (w.heap p) ≡ some t
      → try_from p w ≡ done (some t) w
  unfolding try_from
  try_from-shared p t w ne e = ground (arith, deref-shared p t w e)

  pub to_arc-counted :
      (p : Ptr) (n : ℕ) (t : T) (w : World O)
      → p ≢ null
      → w.heap p ≡ some (counted (suc n) (c.object t))
      → to_arc p w
        ≡ done
            (some (record { at = p; value = t }))
            (set_heap w (put p (some (counted (suc (suc n)) (c.object t))) w.heap))
  unfolding to_arc
  to_arc-counted p n t w ne e = ground (arith, c.rust_type-object t)

  -- `to_arc` of a pointer to an Arc that C owns a reference of gives a reference to its object, and
  -- once that reference is dropped the state is as before: the count that C owns is neither used up
  -- nor leaked.
  pub to_arc-drop_arc :
      (p : Ptr) (n : ℕ) (t : T) (w : World O)
      → p ≢ null
      → w.heap p ≡ some (counted (suc n) (c.object t))
      → (w' : World O) × (to_arc p w ≡ done (some (record { at = p; value = t })) w')
        × (drop_arc p w' ≡ done tt w)
  to_arc-drop_arc p n t w ne e = (
    set_heap w (put p (some (counted (suc (suc n)) (c.object t))) w.heap),
    to_arc-counted p n t w ne e,
    drop_arc-counted p n (c.object t) _ (ground arith)
        ∙ ap (λ h. done tt (set_heap w h)) (put-put_self p _ w.heap e),
  )

  -- C's free of an Arc that the library still holds n references to leaves the object readable if n
  -- is not 0; if n is 0, every later use or free of the pointer is undefined.
  pub drop_arc_readable :
      (p : Ptr) (n : ℕ) (t : T) (w : World O)
      → w.heap p ≡ some (counted (suc n) (c.object t))
      → (w' : World O) × (drop_arc p w ≡ done tt w')
        × (((n ≢ 0) × (deref p w' ≡ done t w'))
            ⊎ ((n ≡ 0) × (deref {T = T} p w' ≡ fault) × (drop_arc p w' ≡ fault)))
  unfolding drop_arc
  drop_arc_readable p zero t w e = (
    set_heap w (put p none w.heap),
    drop_arc_last p (c.object t) w e,
    inr (refl, deref-fault p _ (ground arith), ground arith),
  )
  drop_arc_readable p (suc n) t w e = (
    set_heap w (put p (some (counted (suc n) (c.object t))) w.heap),
    drop_arc-counted p n (c.object t) w e,
    inl (ground arith, deref-shared p t _ (ground (arith, c.rust_type-object t))),
  )

  to_box-boxed :
      (p : Ptr) (t : T) (w : World O)
      → p ≢ null
      → w.heap p ≡ some (boxed (c.object t))
      → to_box p w ≡ done (some t) (set_heap w (put p none w.heap))
  unfolding to_box
  to_box-boxed p t w ne e = ground (arith, c.rust_type-object t)

  -- If the allocator gives an unused address that is not NULL, then `to_box` takes out what
  -- `to_mut_ptr` put there and leaves the state of before; a second `to_box` is undefined.
  pub to_box-to_mut_ptr :
      (alloc : World O → Ptr) (t : T) (w : World O)
      → alloc w ≢ null
      → w.heap (alloc w) ≡ none
      → (w' : World O) × (to_mut_ptr alloc t w ≡ done (alloc w) w')
        × (to_box (alloc w) w' ≡ done (some t) w)
        × (to_box {T = T} (alloc w) w ≡ fault)
  unfolding to_mut_ptr to_box
  to_box-to_mut_ptr alloc t w ne unused = (
    set_heap w (put (alloc w) (some (boxed (c.object t))) w.heap),
    refl,
    to_box-boxed (alloc w) t _ ne (ground arith)
        ∙ ap (λ h. done (some t) (set_heap w h)) (put-put_self (alloc w) _ w.heap unused),
    ground arith,
  )

  pub with_mut-boxed :
      {R : Type 0} (p : Ptr) (t : T) (w : World O) (k : Cmd (T × World O) R)
      → w.heap p ≡ some (boxed (c.object t))
      → with_mut p k w ≡ give_back p (k (t, set_heap w (put p (some borrowed) w.heap)))
  unfolding with_mut
  with_mut-boxed p t w k e = ground (arith, c.rust_type-object t)

module _ {O T : Type 0} ⦃c : CastPtr O T⦄ {R : Type 0} ⦃d : NullParameterOrDefault R⦄ where
  -- The macro on a pointer to a Box of the right type.
  pub try_mut-boxed :
      (p : Ptr) (t : T) (w : World O) (k : Cmd (T × World O) R)
      → p ≢ null
      → w.heap p ≡ some (boxed (c.object t))
      → try_mut_from_ptr p k w ≡ give_back p (k (t, set_heap w (put p (some borrowed) w.heap)))
  unfolding try_mut_from_ptr
  try_mut-boxed p t w k ne e = ground (arith, with_mut-boxed p t w k e)

  -- The macros on NULL return the type's value and change nothing.
  pub try_mut-null :
      (w : World O) (k : Cmd (T × World O) R) → try_mut_from_ptr null k w ≡ done d.null_value w
  unfolding try_mut_from_ptr
  try_mut-null w k = refl

  pub try_ref-shared :
      (p : Ptr) (t : T) (w : World O) (k : T → Cmd (World O) R)
      → p ≢ null
      → shared (w.heap p) ≡ some t
      → try_ref_from_ptr p k w ≡ k t w
  unfolding try_ref_from_ptr
  try_ref-shared p t w k ne e = ground (arith, deref-shared p t w e)

  pub try_ref-null :
      (w : World O) (k : T → Cmd (World O) R) → try_ref_from_ptr null k w ≡ done d.null_value w
  unfolding try_ref_from_ptr
  try_ref-null w k = refl

  -- A mutable borrow that its call leaves as it was, and that changed nothing else, is not seen.
  pub give_back_same :
      (p : Ptr) (t : T) (w : World O) (r : R)
      → w.heap p ≡ some (boxed (c.object t))
      → give_back p (done r (t, set_heap w (put p (some borrowed) w.heap))) ≡ done r w
  give_back_same p t w r e = ap (λ h. done r (set_heap w h)) (put-put_self p _ w.heap e)
