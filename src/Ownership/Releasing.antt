-- ===== src/Ownership/Releasing.antt =====
-- Allocators that give unused addresses.
use rustls_ffi.Prelude.{◌≡◌, refl, ◌≢◌, none, List}
use rustls_ffi.Memory.{Ptr, null}
use rustls_ffi.World.{Heap, World, set_heap}
use rustls_ffi.Ownership.Counts.{plus_all}

-- The allocator gives an unused address in any state that occupies no more addresses than `w`.
abbrev pub Allocates : {O : Type 0} → (World O → Ptr) → World O → Type 0
Allocates {O} alloc w =
    (h : Heap O)
    → ((q : Ptr) → w.heap q ≡ none → h q ≡ none)
    → let v = set_heap w h in (alloc v ≢ null) × (v.heap (alloc v) ≡ none)

module _ {O : Type 0} (alloc : World O → Ptr) (w : World O) (fresh : Allocates alloc w) where
  pub unused_now : (alloc w ≢ null) × (w.heap (alloc w) ≡ none)
  unused_now = fresh w.heap λ q e. e

  pub unused_later :
      (arcs : List Ptr)
      → let v = set_heap w (plus_all arcs w.heap) in (alloc v ≢ null) × (v.heap (alloc v) ≡ none)
  unused_later arcs = fresh (plus_all arcs w.heap) λ q e. rw e refl
