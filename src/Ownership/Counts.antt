-- ===== src/Ownership/Counts.antt =====
-- What the loops over Arcs add to the reference counts and take from them, address by address.
use rustls_ffi.Prelude.{◌≤◌, ◌<◌, ◌≡◌, refl, sym, ap, ◌∙◌, fun_ext, ◌⊎◌, inl, List, [], ◌∷◌, arith}
use rustls_ffi.Panic.{done}
use rustls_ffi.Panic.Boundary.{bind-done}
use rustls_ffi.Memory.{Ptr}
use rustls_ffi.World.{Heap, World, put, set_heap}
use rustls_ffi.Ownership.{drop_arc}
use rustls_ffi.Ownership.Arcs.{drop_all, clone_arc, clone_all}
use rustls_ffi.Ownership.Slots.{
  occurrences, occurrences_head, occurrences_other, at_each, references, plus, minus, drop_slot,
  clone_slot, minus-minus, references-minus, references-plus, plus-plus, plus_zero, put_here,
  put_there,
}

module _ {O : Type 0} where
  -- The heap with a number of references more, or fewer, at each address.
  abbrev pub plus_all : List Ptr → Heap O → Heap O
  plus_all ps h q = plus (occurrences q ps) (h q)

  abbrev pub minus_all : List Ptr → Heap O → Heap O
  minus_all ps h q = minus (occurrences q ps) (h q)

  -- Each address of a list has a reference.
  abbrev pub Live : List Ptr → Heap O → Type 0
  Live [] h = Unit {0}
  Live (p ∷ ps) h = (0 < references (h p)) × Live ps h

  -- Each address has as many references as it stands in the list.
  abbrev pub Covered : List Ptr → Heap O → Type 0
  Covered ps h = (q : Ptr) → occurrences q ps ≤ references (h q)

  pub Live-occurrences :
      (ps : List Ptr) (h : Heap O) (q : Ptr)
      → Live ps h
      → (occurrences q ps ≡ 0) ⊎ (0 < references (h q))
  Live-occurrences [] h q l = inl refl
  Live-occurrences (p ∷ ps) h q l = ground (arith, Live-occurrences ps h q l.1, ap h)

  Covered-head : (p : Ptr) (ps : List Ptr) (h : Heap O) → Covered (p ∷ ps) h → 0 < references (h p)
  Covered-head p ps h cover = omega (arith, cover p, occurrences_head p ps)

  minus_all-put :
      (p : Ptr) (ps : List Ptr) (h : Heap O)
      → Covered (p ∷ ps) h
      → minus_all ps (put p (minus 1 (h p)) h) ≡ minus_all (p ∷ ps) h
  minus_all-put p ps h cover = fun_ext (
      at_each (λ q. minus_all ps (put p (minus 1 (h p)) h) q ≡ minus_all (p ∷ ps) h q) p
        (ap (minus (occurrences p ps)) (put_here p (minus 1 (h p)) h)
          ∙ (minus-minus (occurrences p ps) (h p) (omega (arith, cover p, occurrences_head p ps))
              ∙ ap (λ k. minus k (h p)) (sym (occurrences_head p ps))))
        λ q ne.
          ap (minus (occurrences q ps)) (put_there q p (minus 1 (h p)) h ne)
          ∙ ap (λ k. minus k (h q)) (sym (occurrences_other q p ps ne)))

  Covered-tail :
      (p : Ptr) (ps : List Ptr) (h : Heap O)
      → Covered (p ∷ ps) h
      → Covered ps (put p (minus 1 (h p)) h)
  Covered-tail p ps h cover =
      at_each (λ q. occurrences q ps ≤ references (put p (minus 1 (h p)) h q)) p
        (rw (put_here p (minus 1 (h p)) h) (
          omega (
            arith,
            cover p,
            occurrences_head p ps,
            references-minus (h p) (Covered-head p ps h cover),
          )))
        λ q ne.
          rw (put_there q p (minus 1 (h p)) h ne)
            (omega (arith, cover q, occurrences_other q p ps ne))

  -- The drop of a Vec of Arcs takes from each address as many references as the address stands in it.
  pub drop_all_lem :
      (ps : List Ptr) (w : World O)
      → Covered ps w.heap
      → drop_all ps w ≡ done tt (set_heap w (minus_all ps w.heap))
  unfolding drop_all drop_arc
  drop_all_lem [] w cover = refl
  drop_all_lem (p ∷ ps) w cover =
      bind-done (drop_arc p) (λ _. drop_all ps) {w = w}
        (drop_slot p (w.heap p) w (Covered-head p ps w.heap cover))
      ∙ (drop_all_lem ps _ (Covered-tail p ps w.heap cover)
          ∙ ap (λ h. done tt (set_heap w h)) (minus_all-put p ps w.heap cover))

  Live-put :
      (ps : List Ptr) (p : Ptr) (h : Heap O)
      → 0 < references (h p)
      → Live ps h
      → Live ps (put p (plus 1 (h p)) h)
  Live-put [] p h l a = tt
  Live-put (q ∷ ps) p h l a = (
    at_each (λ r. 0 < references (h r) → 0 < references (put p (plus 1 (h p)) h r)) p
        (λ b. rw (put_here p (plus 1 (h p)) h) (omega (arith, references-plus (h p) l)))
        (λ r ne b. rw (put_there r p (plus 1 (h p)) h ne) b) q a.0,
    Live-put ps p h l a.1,
  )

  pub plus_all-put :
      (p : Ptr) (ps : List Ptr) (h : Heap O)
      → plus_all ps (put p (plus 1 (h p)) h) ≡ plus_all (p ∷ ps) h
  plus_all-put p ps h = fun_ext (
      at_each (λ q. plus_all ps (put p (plus 1 (h p)) h) q ≡ plus_all (p ∷ ps) h q) p
        (ap (plus (occurrences p ps)) (put_here p (plus 1 (h p)) h)
          ∙ (plus-plus (occurrences p ps) (h p)
              ∙ ap (λ k. plus k (h p)) (sym (occurrences_head p ps))))
        λ q ne.
          ap (plus (occurrences q ps)) (put_there q p (plus 1 (h p)) h ne)
          ∙ ap (λ k. plus k (h q)) (sym (occurrences_other q p ps ne)))

  -- The clone of a Vec of Arcs adds as many references to each address as the address stands in it.
  pub clone_all_lem :
      (ps : List Ptr) (w : World O)
      → Live ps w.heap
      → clone_all ps w ≡ done tt (set_heap w (plus_all ps w.heap))
  unfolding clone_all clone_arc
  clone_all_lem [] w a = ap (λ h. done tt (set_heap w h)) (fun_ext λ q. sym (plus_zero (w.heap q)))
  clone_all_lem (p ∷ ps) w a =
      bind-done (clone_arc p) (λ _. clone_all ps) {w = w} (clone_slot p (w.heap p) w a.0)
      ∙ (clone_all_lem ps _ (Live-put ps p w.heap a.0 a.1)
          ∙ ap (λ h. done tt (set_heap w h)) (plus_all-put p ps w.heap))
