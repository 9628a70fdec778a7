-- ===== src/Ownership/Taking.antt =====
-- The loop that takes an Arc from each pointer: what it gives, and what it does to the counts.
use rustls_ffi.Prelude.{
  ◌≤◌, ◌<◌, ◌≡◌, refl, ap, ◌∙◌, fun_ext, ◌≢◌, false, none, some, List, [], ◌∷◌, ◌++◌, arith, ◌==◌,
}
use mathlib.Core.List.{append-nil, append_assoc}
use rustls_ffi.Panic.{done, pure, ◌>>=◌}
use rustls_ffi.Panic.Boundary.{bind-done}
use rustls_ffi.Memory.{Ptr, null}
use rustls_ffi.World.{Heap, World, put, set_heap}
use rustls_ffi.Ownership.{CastPtr, Arc, shared, to_arc}
use rustls_ffi.Ownership.Arcs.{addresses, drop_all, arcs_from}
use rustls_ffi.Ownership.Counts.{plus_all, minus_all, Covered, drop_all_lem, plus_all-put}
use rustls_ffi.Ownership.Slots.{
  occurrences, occurrences_head, occurrences_other, at_each, references, plus, minus,
  references-plus, plus_zero, minus-plus, retain_slot, shared-plus, put_here, put_there,
}

occurrences-taken :
    {T : Type 0} (q : Ptr) (taken : List (Arc T)) (k : Arc T)
    → occurrences q (addresses (taken ++ k ∷ [])) ≡ occurrences q (k.at ∷ addresses taken)
occurrences-taken q [] k = refl
occurrences-taken q (a ∷ taken) k = omega (arith, occurrences-taken q taken k)

module _ {O T : Type 0} ⦃c : CastPtr O T⦄ where
  -- Each pointer stands for an Arc of its value.
  abbrev pub Arcs : List (Arc T) → Heap O → Type 0
  Arcs [] h = Unit {0}
  Arcs (a ∷ keys) h =
      ((a.at ≢ null) × (0 < references (h a.at)) × (shared (h a.at) ≡ some a.value)) × Arcs keys h

  pub to_arc-retained :
      (a : Arc T) (w : World O)
      → a.at ≢ null
      → 0 < references (w.heap a.at)
      → shared (w.heap a.at) ≡ some a.value
      → to_arc a.at w ≡ done (some a) (set_heap w (put a.at (plus 1 (w.heap a.at)) w.heap))
  unfolding to_arc
  to_arc-retained a w ne l e =
      let z : (a.at == null) ≡ false = ground arith in rw z (retain_slot a.at (w.heap a.at) w l e)

  Arcs-put :
      (keys : List (Arc T)) (p : Ptr) (h : Heap O)
      → 0 < references (h p)
      → Arcs keys h
      → Arcs keys (put p (plus 1 (h p)) h)
  Arcs-put [] p h l a = tt
  Arcs-put (k ∷ keys) p h l ((ne, l', e), a) = (
    (
      ne,
      at_each (λ r. 0 < references (h r) → 0 < references (put p (plus 1 (h p)) h r)) p
          (λ b. rw (put_here p (plus 1 (h p)) h) (omega (arith, references-plus (h p) l)))
          (λ r n b. rw (put_there r p (plus 1 (h p)) h n) b) k.at l',
      at_each (λ r. shared (h r) ≡ some k.value → shared (put p (plus 1 (h p)) h r) ≡ some k.value)
          p (λ b. rw (put_here p (plus 1 (h p)) h) (shared-plus (h p) l b))
          (λ r n b. rw (put_there r p (plus 1 (h p)) h n) b) k.at e,
    ),
    Arcs-put keys p h l a,
  )

  -- The loop over pointers that each stand for an Arc gives these Arcs, with one reference more for
  -- each.
  pub arcs_from_lem :
      (keys taken : List (Arc T)) (w : World O)
      → Arcs keys w.heap
      → arcs_from T (addresses keys) taken w
        ≡ done (some (taken ++ keys)) (set_heap w (plus_all (addresses keys) w.heap))
  unfolding arcs_from
  arcs_from_lem [] taken w a =
      rw (append-nil taken, fun_ext (λ (q : Ptr). plus_zero (w.heap q))) refl
  arcs_from_lem (k ∷ keys) taken w ((ne, l, e), a) =
      rw (to_arc-retained k w ne l e, ◌>>=◌)
        (arcs_from_lem keys (taken ++ k ∷ []) _ (Arcs-put keys k.at w.heap l a)
          ∙ rw (append_assoc taken (k ∷ []) keys, plus_all-put k.at (addresses keys) w.heap) refl)

  to_arc-null : (w : World O) → to_arc {T = T} null w ≡ done none w
  unfolding to_arc
  to_arc-null w = refl

  -- Taking one more Arc, and dropping it with the others.
  minus_all-taken :
      (taken : List (Arc T)) (k : Arc T) (h : Heap O)
      → 0 < references (h k.at)
      → minus_all (addresses (taken ++ k ∷ [])) (put k.at (plus 1 (h k.at)) h)
        ≡ minus_all (addresses taken) h
  minus_all-taken taken k h l = fun_ext λ q. rw (occurrences-taken q taken k) (
      at_each
        (λ q.
          minus (occurrences q (k.at ∷ addresses taken)) (put k.at (plus 1 (h k.at)) h q)
          ≡ minus (occurrences q (addresses taken)) (h q))
        k.at
        (rw (put_here k.at (plus 1 (h k.at)) h, occurrences_head k.at (addresses taken))
          (minus-plus (occurrences k.at (addresses taken)) (h k.at) l))
        (λ q ne.
          rw
            (put_there q k.at (plus 1 (h k.at)) h ne, occurrences_other q k.at (addresses taken) ne)
            refl)
        q)

  Covered-taken :
      (taken : List (Arc T)) (k : Arc T) (h : Heap O)
      → 0 < references (h k.at)
      → Covered (addresses taken) h
      → Covered (addresses (taken ++ k ∷ [])) (put k.at (plus 1 (h k.at)) h)
  Covered-taken taken k h l cover q = rw (occurrences-taken q taken k) (
      at_each
        (λ q. occurrences q (k.at ∷ addresses taken) ≤ references (put k.at (plus 1 (h k.at)) h q))
        k.at
        (rw (put_here k.at (plus 1 (h k.at)) h, occurrences_head k.at (addresses taken))
          (omega (arith, cover k.at, references-plus (h k.at) l)))
        (λ q ne.
          rw
            (put_there q k.at (plus 1 (h k.at)) h ne, occurrences_other q k.at (addresses taken) ne)
            (cover q))
        q)

  -- The loop over pointers, the first NULL of which follows some that each stand for an Arc, gives
  -- nothing, and drops what it had taken.
  pub arcs_from-null :
      (keys taken : List (Arc T)) (rest : List Ptr) (w : World O)
      → Arcs keys w.heap
      → Covered (addresses taken) w.heap
      → arcs_from T (addresses keys ++ null ∷ rest) taken w
        ≡ done none (set_heap w (minus_all (addresses taken) w.heap))
  unfolding arcs_from
  arcs_from-null [] taken rest w a cover =
      rw (to_arc-null w, ◌>>=◌)
        (bind-done (drop_all (addresses taken)) (λ _. pure none)
          (drop_all_lem (addresses taken) w cover))
  arcs_from-null (k ∷ keys) taken rest w ((ne, l, e), a) cover =
      rw (to_arc-retained k w ne l e, ◌>>=◌)
        (arcs_from-null keys (taken ++ k ∷ []) rest _ (Arcs-put keys k.at w.heap l a)
            (Covered-taken taken k w.heap l cover)
          ∙ ap (λ h. done none (set_heap w h)) (minus_all-taken taken k w.heap l))
