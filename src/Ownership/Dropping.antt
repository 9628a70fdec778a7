-- ===== src/Ownership/Dropping.antt =====
-- The drop of a Box that leaves a state behind, and of an Arc whose object holds Arcs.
use rustls_ffi.Prelude.{ℕ, suc, ◌≡◌, refl, ◌≢◌, none, some, List, arith}
use rustls_ffi.Panic.{done, Cmd, NullParameterOrDefault}
use rustls_ffi.Panic.Boundary.{bind-done}
use rustls_ffi.Memory.{Ptr, null}
use rustls_ffi.World.{boxed, counted, World, put, set_heap}
use rustls_ffi.Ownership.{CastPtr, to_box, try_box_from_ptr}
use rustls_ffi.Ownership.Arcs.{drop_owner, release_owner}
use rustls_ffi.Ownership.Counts.{minus_all, Covered, drop_all_lem}

-- The state without what stands at an address.
abbrev pub gone : {O : Type 0} → Ptr → World O → World O
gone p w = set_heap w (put p none w.heap)

module _ {O T : Type 0} ⦃c : CastPtr O T⦄ where
  pub to_box-boxed :
      (p : Ptr) (t : T) (w : World O)
      → p ≢ null
      → w.heap p ≡ some (boxed (c.object t))
      → to_box p w ≡ done (some t) (gone p w)
  unfolding to_box
  to_box-boxed p t w ne held = ground (arith, c.rust_type-object t)

  module _ (held : T → List Ptr) where
    -- The drop of the last Arc drops the Arcs that the object holds.
    pub drop_owner_last :
        (p : Ptr) (t : T) (w : World O)
        → w.heap p ≡ some (counted 1 (c.object t))
        → Covered (held t) (gone p w).heap
        → drop_owner {T = T} held p w ≡ done tt (set_heap w (minus_all (held t) (gone p w).heap))
    unfolding drop_owner
    drop_owner_last p t w e cover =
        rw e (rw (c.rust_type-object t, release_owner) (drop_all_lem (held t) (gone p w) cover))

    -- The drop of another one leaves the object, with one reference fewer.
    pub drop_owner_shared :
        (p : Ptr) (n : ℕ) (t : T) (w : World O)
        → w.heap p ≡ some (counted (suc (suc n)) (c.object t))
        → drop_owner {T = T} held p w
          ≡ done tt (set_heap w (put p (some (counted (suc n) (c.object t))) w.heap))
    unfolding drop_owner
    drop_owner_shared p n t w e = rw (e, release_owner) refl

  module _ {R : Type 0} ⦃d : NullParameterOrDefault R⦄ where
    pub try_box-boxed :
        (p : Ptr) (t : T) (w : World O) (k : T → Cmd (World O) R)
        → p ≢ null
        → w.heap p ≡ some (boxed (c.object t))
        → try_box_from_ptr p k w ≡ k t (gone p w)
    unfolding try_box_from_ptr
    try_box-boxed p t w k ne held = bind-done (to_box p) _ {w = w} (to_box-boxed p t w ne held)
