-- ===== src/Ownership/Handles.antt =====
-- A call that takes an Arc of an object and gives C the pointer to a new Box.
use rustls_ffi.Prelude.{ℕ, suc, ◌≡◌, ap, ◌∙◌, ◌≢◌, some, List, arith}
use rustls_ffi.Panic.{done, Cmd, NullParameterOrDefault}
use rustls_ffi.Panic.Boundary.{bind-done}
use rustls_ffi.Memory.{Ptr, null, write}
use rustls_ffi.World.{boxed, counted, World, put, set_heap}
use rustls_ffi.Ownership.{CastPtr, Arc, to_arc, set_mut_ptr, try_arc_from_ptr}
use rustls_ffi.Ownership.References.{to_arc-counted, put-put_self}
use rustls_ffi.Ownership.Arcs.{drop_owner}
use rustls_ffi.Ownership.Dropping.{drop_owner_shared}
use rustls_ffi.Ownership.Slots.{put_here}

module _ {O T : Type 0} ⦃c : CastPtr O T⦄ where
  -- The state with n references to the object at p.
  abbrev pub with_references : Ptr → ℕ → T → World O → World O
  with_references p n t w = set_heap w (put p (some (counted n (c.object t))) w.heap)

  -- The state with a new Box, whose address is written to `dst`.
  abbrev pub with_handle : (alloc : World O → Ptr) (dst : Ptr) → T → World O → World O
  with_handle alloc dst t w = record w {
    mem = write dst (alloc w) w.mem;
    heap = put (alloc w) (some (boxed (c.object t))) w.heap;
  }

  pub set_mut_ptr_lem :
      (alloc : World O → Ptr) (dst : Ptr) (t : T) (w : World O)
      → dst ≢ null
      → set_mut_ptr alloc dst t w ≡ done tt (with_handle alloc dst t w)
  unfolding set_mut_ptr
  set_mut_ptr_lem alloc dst t w ne = ground arith

  pub try_arc-counted :
      {R : Type 0} ⦃d : NullParameterOrDefault R⦄
      → (p : Ptr) (n : ℕ) (t : T) (w : World O) (k : Arc T → Cmd (World O) R) → p ≢ null
      → w.heap p ≡ some (counted (suc n) (c.object t))
      → try_arc_from_ptr p k w
        ≡ k (record { at = p; value = t }) (with_references p (suc (suc n)) t w)
  unfolding try_arc_from_ptr
  try_arc-counted p n t w k ne e = bind-done (to_arc p) _ {w = w} (to_arc-counted p n t w ne e)

  -- The drop of the reference that the call has taken.
  pub drop_owner-retained :
      (held : T → List Ptr) (p : Ptr) (n : ℕ) (t : T) (w : World O)
      → w.heap p ≡ some (counted (suc n) (c.object t))
      → drop_owner {T = T} held p (with_references p (suc (suc n)) t w) ≡ done tt w
  drop_owner-retained held p n t w e =
      drop_owner_shared held p n t (with_references p (suc (suc n)) t w)
        (put_here p (some (counted (suc (suc n)) (c.object t))) w.heap)
      ∙ ap (λ h. done tt (set_heap w h))
          (put-put_self p (some (counted (suc (suc n)) (c.object t))) w.heap e)
