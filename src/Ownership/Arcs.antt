-- ===== src/Ownership/Arcs.antt =====
-- lib.rs: several references at once, as the configurations hold them. A Vec of Arcs, and an object
-- in an Arc that itself holds Arcs.
use rustls_ffi.Prelude.{zero, suc, Option, none, some, List, [], ◌∷◌, ◌++◌, map}
use rustls_ffi.Panic.{Run, done, fault, Cmd, pure, ◌>>=◌, ◌>>◌}
use rustls_ffi.Memory.{Ptr}
use rustls_ffi.World.{Slot, counted, World, put, set_heap}
use rustls_ffi.Ownership.{CastPtr, Arc, to_arc, drop_arc, release}

abbrev pub addresses : {T : Type 0} → List (Arc T) → List Ptr
addresses = map (λ a. a.at)

module _ {O : Type 0} where
  -- The drop of a Vec of Arcs, first to last.
  unfoldable pub drop_all : List Ptr → Cmd (World O) (Unit {0})
  drop_all [] = pure tt
  drop_all (p ∷ ps) = drop_arc p >> drop_all ps

  abbrev pub cloned : Ptr → Option (Slot O) → World O → Run (World O) (Unit {0})
  cloned p (some (counted (suc n) o)) w =
      done tt (set_heap w (put p (some (counted (suc (suc n)) o)) w.heap))
  cloned p _ w = fault

  -- `Arc::clone`, and the clone of a Vec of Arcs.
  unfoldable pub clone_arc : Ptr → Cmd (World O) (Unit {0})
  clone_arc p w = cloned p (w.heap p) w

  -- The clone of the Arc that a search has found.
  abbrev pub clone_found : {T : Type 0} → Option (Arc T) → Cmd (World O) (Option (Arc T))
  clone_found none = pure none
  clone_found (some a) = clone_arc a.at >> pure (some a)

  unfoldable pub clone_all : List Ptr → Cmd (World O) (Unit {0})
  clone_all [] = pure tt
  clone_all (p ∷ ps) = clone_arc p >> clone_all ps

module _ {O : Type 0} (T : Type 0) ⦃c : CastPtr O T⦄ where
  -- The loop that takes an Arc from each pointer into a Vec. At a NULL pointer it returns early, and
  -- the Vec is dropped.
  unfoldable pub arcs_from : List Ptr → List (Arc T) → Cmd (World O) (Option (List (Arc T)))
  arcs_from [] keys = pure (some keys)
  arcs_from (key_ptr ∷ rest) keys = to_arc {T = T} key_ptr >>= λ o. elim o [
    | some key ↦ arcs_from rest (keys ++ key ∷ [])
    | none ↦ drop_all (addresses keys) >> pure none
  ]

module _ {O T : Type 0} ⦃c : CastPtr O T⦄ (held : T → List Ptr) where
  abbrev pub release_owner : Ptr → Option (Slot O) → World O → Run (World O) (Unit {0})
  release_owner p (some (counted (suc zero) o)) w = elim (c.rust_type o) [
    | some t ↦ drop_all (held t) (set_heap w (put p none w.heap))
    | none ↦ fault
  ]
  release_owner p s w = release p s w

  -- The drop of an Arc whose object holds Arcs: with the last reference these are dropped too.
  unfoldable pub drop_owner : Ptr → Cmd (World O) (Unit {0})
  drop_owner p w = release_owner p (w.heap p) w
