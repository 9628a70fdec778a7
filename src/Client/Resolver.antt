-- ===== src/Client/Resolver.antt =====
-- How a client picks the certified key that it sends.
use mathlib.Core.Path.{subst}
use rustls_ffi.Prelude.{
  ℕ, ◌<◌, ◌≡◌, refl, ap, ◌⊎◌, inl, inr, Bool, true, false, none, some, List, [], ◌∷◌, ◌++◌,
  Bool-cases,
}
use rustls_ffi.Panic.{done, pure}
use rustls_ffi.Panic.Boundary.{bind-done}
use rustls_ffi.World.{World, put, set_heap}
use rustls_ffi.Ownership.{Arc}
use rustls_ffi.Ownership.Arcs.{clone_found, addresses, clone_arc}
use rustls_ffi.Ownership.Counts.{Live}
use rustls_ffi.Ownership.Slots.{references, plus, clone_slot}
use rustls_ffi.Cipher.{CertifiedKey}
use rustls_ffi.Client.{key_matches, first_key, resolve_client_cert}

module _ {K : Type 0} (choose_scheme : K → List ℕ → Bool) (schemes : List ℕ) where
  -- No key of the list supports one of the schemes.
  abbrev pub NoneMatches : List (Arc (CertifiedKey K)) → Type 0
  NoneMatches [] = Unit {0}
  NoneMatches (a ∷ keys) = (key_matches choose_scheme schemes a ≡ false) × NoneMatches keys

  -- A key is the first of a list that supports one of the schemes.
  abbrev pub IsFirst : Arc (CertifiedKey K) → List (Arc (CertifiedKey K)) → Type 0
  IsFirst a keys =
      (before after : List (Arc (CertifiedKey K))) × (keys ≡ before ++ a ∷ after)
      × NoneMatches before
      × (key_matches choose_scheme schemes a ≡ true)

  first_key_lem :
      (keys : List (Arc (CertifiedKey K)))
      → ((first_key choose_scheme schemes keys ≡ none) × NoneMatches keys)
        ⊎ ((a : Arc (CertifiedKey K)) × (first_key choose_scheme schemes keys ≡ some a)
            × IsFirst a keys)
  unfolding first_key
  first_key_lem [] = inl (refl, tt)
  first_key_lem (k ∷ keys) = elim (Bool-cases (key_matches choose_scheme schemes k)) [
    | inl m ↦ inr (k, rw m refl, ([], keys, refl, tt, m))
    | inr m ↦ elim (first_key_lem keys) [
      | inl (e, nothing) ↦ inl (rw m e, (m, nothing))
      | inr (a, e, (before, after, split, nothing, fits)) ↦
          inr (a, rw m e, (k ∷ before, after, ap (λ l. k ∷ l) split, (m, nothing), fits))
    ]
  ]

  module _ {O : Type 0} where
    Live-some :
        (before after : List (Arc (CertifiedKey K))) (a : Arc (CertifiedKey K)) (w : World O)
        → Live (addresses (before ++ a ∷ after)) w.heap
        → 0 < references (w.heap a.at)
    Live-some [] after a w l = l.0
    Live-some (k ∷ before) after a w l = Live-some before after a w l.1

    -- While the resolver's keys have references, it gives the first one that supports a scheme of the
    -- server, with one reference more and nothing else changed. If none does, it gives none and changes
    -- nothing.
    pub resolve_client_cert_lem :
        (keys : List (Arc (CertifiedKey K))) (w : World O)
        → Live (addresses keys) w.heap
        → let run = resolve_client_cert choose_scheme schemes keys w in
          ((run ≡ done none w) × NoneMatches keys)
          ⊎ ((a : Arc (CertifiedKey K)) × IsFirst a keys
              × (run ≡ done (some a) (set_heap w (put a.at (plus 1 (w.heap a.at)) w.heap))))
    unfolding resolve_client_cert clone_arc
    resolve_client_cert_lem keys w live = elim (first_key_lem keys) [
      | inl (e, nothing) ↦ inl (rw (e, clone_found) refl, nothing)
      | inr (a, e, (before, after, split, nothing, fits)) ↦ inr (
        a,
        (before, after, split, nothing, fits),
        rw (e, clone_found)
            (bind-done (clone_arc a.at) (λ _. pure (some a)) {w = w}
              (clone_slot a.at (w.heap a.at) w
                (Live-some before after a w (subst (λ l. Live (addresses l) w.heap) split live)))),
      )
    ]
