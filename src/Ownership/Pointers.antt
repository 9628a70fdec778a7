-- ===== src/Ownership/Pointers.antt =====
-- The pointers that C may give to calls that take Arcs.
use rustls_ffi.Prelude.{◌≡◌, refl, ap, ◌⊎◌, inl, inr, List, [], ◌∷◌, ◌++◌}
use rustls_ffi.Memory.{Ptr, null}
use rustls_ffi.World.{Heap}
use rustls_ffi.Ownership.{CastPtr, Arc}
use rustls_ffi.Ownership.Arcs.{addresses}
use rustls_ffi.Ownership.Taking.{Arcs}

module _ {T : Type 0} where
  -- Pointers all of which stand for Arcs, or the first NULL among which follows such.
  abbrev pub Leads : List (Arc T) → List Ptr → Type 0
  Leads keys ps = (ps ≡ addresses keys) ⊎ ((rest : List Ptr) × (ps ≡ addresses keys ++ null ∷ rest))

  Leads-cons :
      (a : Arc T) (p : Ptr) (keys : List (Arc T)) (ps : List Ptr)
      → p ≡ a.at
      → Leads keys ps
      → Leads (a ∷ keys) (p ∷ ps)
  Leads-cons a p keys ps at (inl e) = inl (rw (at, e) refl)
  Leads-cons a p keys ps at (inr (rest, e)) = inr (rest, rw (at, e) refl)

module _ {O : Type 0} (T : Type 0) ⦃c : CastPtr O T⦄ where
  -- A pointer that is NULL or stands for an Arc, and pointers that each are so.
  abbrev pub Pointer : Ptr → Heap O → Type 0
  Pointer p h = (p ≡ null) ⊎ ((a : Arc T) × (p ≡ a.at) × Arcs (a ∷ []) h)

  abbrev pub Pointers : List Ptr → Heap O → Type 0
  Pointers [] h = Unit {0}
  Pointers (p ∷ ps) h = Pointer p h × Pointers ps h

  pub Pointers-Leads :
      (ps : List Ptr) (h : Heap O)
      → Pointers ps h
      → (keys : List (Arc T)) × Arcs keys h × Leads keys ps
  Pointers-Leads [] h all = ([], tt, inl refl)
  Pointers-Leads (p ∷ ps) h (inl z, all) = ([], tt, inr (ps, ap (λ q. q ∷ ps) z))
  Pointers-Leads (p ∷ ps) h (inr (a, at, is), all) =
      let (keys, arcs, leads) = Pointers-Leads ps h all in
      (a ∷ keys, (is.0, arcs), Leads-cons a p keys ps at leads)
