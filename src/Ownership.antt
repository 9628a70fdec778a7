-- ===== src/Ownership.antt =====
-- lib.rs: how the opaque pointers of C become Rust references, Boxes and Arcs, and the macros that
-- return early on NULL. A macro takes what follows it as its last argument. The allocator is the
-- parameter `alloc`, which says where the next object goes.
pub mod References
pub mod Arcs
pub mod Slots
pub mod Counts
pub mod Taking
pub mod Lending
pub mod Dropping
pub mod Handles
pub mod Replacing
pub mod Restoring
pub mod Releasing
pub mod Pointers
use rustls_ffi.Prelude.{ℕ, suc, zero, ◌≡◌, Option, none, some, if◌then◌else◌}
use rustls_ffi.Panic.{
  Run, done, panicked, fault, Cmd, pure, undefined, modify, ◌>>=◌, NullParameterOrDefault,
}
use rustls_ffi.Memory.{Ptr, is_null, write}
use rustls_ffi.World.{Slot, boxed, counted, borrowed, World, put, set_heap}

-- The traits `CastPtr` and `CastConstPtr`: objects of the opaque type are values of `T`. Reading an
-- object as a value of another type is undefined behaviour, and `rust_type` gives `none`.
pub record CastPtr (O T : Type 0) : Type 0 where
  pub rust_type : O → Option T
  pub object : T → O
  pub rust_type-object : (t : T) → rust_type (object t) ≡ some t

pub record Arc (T : Type 0) : Type 0 where
  pub at : Ptr
  pub value : T

module _ {O T : Type 0} ⦃c : CastPtr O T⦄ where
  -- What a shared reference sees.
  abbrev pub shared : Option (Slot O) → Option T
  shared none = none
  shared (some (boxed o)) = c.rust_type o
  shared (some (counted zero o)) = none
  shared (some (counted (suc n) o)) = c.rust_type o
  shared (some borrowed) = none

  -- What a Box owns.
  abbrev pub owned : Option (Slot O) → Option T
  owned none = none
  owned (some (boxed o)) = c.rust_type o
  owned (some (counted n o)) = none
  owned (some borrowed) = none

  -- `&*p`
  unfoldable pub deref : Ptr → Cmd (World O) T
  deref p w = elim (shared (w.heap p)) [ some t ↦ done t w | none ↦ fault ]

  unfoldable pub try_from : Ptr → Cmd (World O) (Option T)
  unfolding deref
  try_from p = if is_null p then pure none else deref p >>= λ t. pure (some t)

  -- The borrow ends: the value goes back to its place.
  abbrev pub give_back : {R : Type 0} → Ptr → Run (T × World O) R → Run (World O) R
  give_back p (done r (t, w)) = done r (set_heap w (put p (some (boxed (c.object t))) w.heap))
  give_back p (panicked (t, w)) = panicked (set_heap w (put p (some (boxed (c.object t))) w.heap))
  give_back p fault = fault

  -- `&mut *p` for the time of `k`. The place is marked, so `k` cannot reach the value again.
  unfoldable pub with_mut : {R : Type 0} → Ptr → Cmd (T × World O) R → Cmd (World O) R
  with_mut p k w = elim (owned (w.heap p)) [
    | some t ↦ give_back p (k (t, set_heap w (put p (some borrowed) w.heap)))
    | none ↦ fault
  ]

  unfoldable pub to_box : Ptr → Cmd (World O) (Option T)
  to_box p w = if is_null p then done none w else elim (owned (w.heap p)) [
    | some t ↦ done (some t) (set_heap w (put p none w.heap))
    | none ↦ fault
  ]

  -- `Arc::from_raw`, `Arc::clone` and `mem::forget`: one reference more.
  abbrev pub retain : Ptr → Option (Slot O) → World O → Run (World O) (Option (Arc T))
  retain p (some (counted (suc n) o)) w = elim (c.rust_type o) [
    | some t ↦
        done (some (record { at = p; value = t }))
          (set_heap w (put p (some (counted (suc (suc n)) o)) w.heap))
    | none ↦ fault
  ]
  retain p _ w = fault

  unfoldable pub to_arc : Ptr → Cmd (World O) (Option (Arc T))
  to_arc p w = if is_null p then done none w else retain p (w.heap p) w

  abbrev pub try_box_from : Ptr → Cmd (World O) (Option T)
  try_box_from = to_box

  abbrev pub try_arc_from : Ptr → Cmd (World O) (Option (Arc T))
  try_arc_from = to_arc

  module _ (alloc : World O → Ptr) where
    unfoldable pub to_mut_ptr : T → Cmd (World O) Ptr
    to_mut_ptr src w =
        done (alloc w) (set_heap w (put (alloc w) (some (boxed (c.object src))) w.heap))

    -- The code does not test `dst`; a write through NULL is undefined.
    unfoldable pub set_mut_ptr : Ptr → T → Cmd (World O) (Unit {0})
    unfolding to_mut_ptr
    set_mut_ptr dst src = do
      p ← to_mut_ptr src
      if is_null dst then undefined else modify λ w. record w { mem = write dst p w.mem }

    unfoldable pub to_const_ptr : T → Cmd (World O) Ptr
    to_const_ptr src w =
        done (alloc w) (set_heap w (put (alloc w) (some (counted 1 (c.object src))) w.heap))

  module _ {R : Type 0} ⦃d : NullParameterOrDefault R⦄ where
    unfoldable pub try_ref_from_ptr : Ptr → (T → Cmd (World O) R) → Cmd (World O) R
    unfolding try_from
    try_ref_from_ptr p k = try_from p >>= λ o. elim o [ some t ↦ k t | none ↦ pure d.null_value ]

    unfoldable pub try_mut_from_ptr : Ptr → Cmd (T × World O) R → Cmd (World O) R
    unfolding with_mut
    try_mut_from_ptr p k = if is_null p then pure d.null_value else with_mut p k

    unfoldable pub try_box_from_ptr : Ptr → (T → Cmd (World O) R) → Cmd (World O) R
    unfolding to_box
    try_box_from_ptr p k =
        try_box_from p >>= λ o. elim o [ some t ↦ k t | none ↦ pure d.null_value ]

    unfoldable pub try_arc_from_ptr : Ptr → (Arc T → Cmd (World O) R) → Cmd (World O) R
    unfolding to_arc
    try_arc_from_ptr p k =
        try_arc_from p >>= λ o. elim o [ some a ↦ k a | none ↦ pure d.null_value ]

-- The drop of a Rust value of type `Arc` whose object is at p: one reference fewer.
abbrev pub released : {O : Type 0} → Slot O → Option (Option (Slot O))
released (boxed o) = none
released (counted zero o) = none
released (counted (suc zero) o) = some none
released (counted (suc (suc n)) o) = some (some (counted (suc n) o))
released borrowed = none

abbrev pub release : {O : Type 0} → Ptr → Option (Slot O) → World O → Run (World O) (Unit {0})
release p none w = fault
release p (some s) w = elim (released s) [
  | some s' ↦ done tt (set_heap w (put p s' w.heap))
  | none ↦ fault
]

unfoldable pub drop_arc : {O : Type 0} → Ptr → Cmd (World O) (Unit {0})
drop_arc p w = release p (w.heap p) w

-- `drop(Arc::from_raw(p))` where `p` has the type of the opaque struct that C sees. `Arc::from_raw`
-- asks for a pointer that `Arc::into_raw` returned for the same type, and for no other.
unfoldable pub drop_opaque : {O : Type 0} → Ptr → Cmd (World O) (Unit {0})
drop_opaque p = undefined

module _ {W R : Type 0} ⦃d : NullParameterOrDefault R⦄ where
  -- `try_slice!`, whose slice `from_raw_parts` reads from the memory.
  unfoldable pub try_slice : Ptr → Cmd W R → Cmd W R
  try_slice p k = if is_null p then pure d.null_value else k

  -- `try_mut_slice!`, whose slice `from_raw_parts_mut` lends: `k` reads and writes the memory itself.
  unfoldable pub try_mut_slice : Ptr → Cmd W R → Cmd W R
  try_mut_slice p k = if is_null p then pure d.null_value else k

  unfoldable pub try_callback : Option ℕ → (ℕ → Cmd W R) → Cmd W R
  try_callback none k = pure d.null_value
  try_callback (some cb) k = k cb
