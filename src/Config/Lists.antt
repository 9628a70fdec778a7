-- ===== src/Config/Lists.antt =====
-- The loops of both builders over lists of C: protocols, cipher suites and versions.
use rustls_ffi.Prelude.{
  ℕ, ◌≡◌, refl, sym, ap, ◌∙◌, ◌≢◌, ◌⊎◌, inl, inr, Bool, none, some, List, [], ◌∷◌, ◌++◌, map, arith,
  ◌==◌, if◌then◌else◌, ok,
}
use mathlib.Core.List.{append-nil, append_assoc}
use native.Mathlib.Decide.{ℕ_discrete}
use rustls_ffi.Panic.{done}
use rustls_ffi.Panic.Boundary.{bind-done}
use rustls_ffi.Memory.{Ptr, Memory, null, from_raw_parts}
use rustls_ffi.Slice.{RustlsSliceBytes}
use rustls_ffi.World.{World}
use rustls_ffi.Ownership.{CastPtr, shared, try_from}
use rustls_ffi.Ownership.References.{try_from-shared}
use rustls_ffi.Versions.{SupportedVersion, tls12, tls13, version_number, versions_from}
use rustls_ffi.Config.{find, suites_from, protocols_from}

-- The bytes of a protocol.
abbrev pub protocol_bytes : Memory → RustlsSliceBytes → List ℕ
protocol_bytes m p = from_raw_parts p.bytes p.len m

-- One of the protocols has NULL for its bytes.
abbrev pub SomeNull : List RustlsSliceBytes → Type 0
SomeNull ps =
    (before after : List RustlsSliceBytes) × (p : RustlsSliceBytes) × (ps ≡ before ++ p ∷ after)
    × (p.bytes ≡ null)

-- None of the protocols has NULL for its bytes.
abbrev pub NoneNull : List RustlsSliceBytes → Type 0
NoneNull [] = Unit {0}
NoneNull (p ∷ ps) = (p.bytes ≢ null) × NoneNull ps

-- Either no protocol has NULL for its bytes, and the loop appends the bytes of each, in order; or one
-- has NULL for its bytes.
pub protocols_from_lem :
    (m : Memory) (ps : List RustlsSliceBytes) (vv : List (List ℕ))
    → (NoneNull ps × (protocols_from m ps vv ≡ some (vv ++ map (protocol_bytes m) ps)))
      ⊎ (SomeNull ps × (protocols_from m ps vv ≡ none))
unfolding protocols_from
protocols_from_lem m [] vv = inl (tt, ap some (sym (append-nil vv)))
protocols_from_lem m (p ∷ rest) vv = elim (ℕ_discrete p.bytes null) [
  | yes e ↦ inr (([], rest, p, refl, e), ground arith)
  | no ne ↦ elim (protocols_from_lem m rest (vv ++ protocol_bytes m p ∷ [])) [
    | inl (all, later) ↦ inl (
      (ne, all),
      ground
          (arith, later, append_assoc vv (protocol_bytes m p ∷ []) (map (protocol_bytes m) rest)),
    )
    | inr ((before, after, q, split, e), later) ↦
        inr ((p ∷ before, after, q, ap (λ l. p ∷ l) split, e), ground (arith, later))
  ]
]

-- The number of a version of rustls.
abbrev pub number_of : SupportedVersion → ℕ
number_of tls12 = 771
number_of tls13 = 772

-- The numbers that rustls knows, among some numbers.
abbrev pub known : List ℕ → List ℕ
known [] = []
known (n ∷ ns) = if n == 771 then n ∷ known ns else if n == 772 then n ∷ known ns else known ns

-- The loop keeps the versions of the numbers 0x0303 and 0x0304, in order and as often as they stand
-- there.
pub versions_from_lem : (ns : List ℕ) → map number_of (versions_from ns) ≡ known ns
unfolding versions_from version_number
versions_from_lem [] = refl
versions_from_lem (n ∷ ns) = ground (arith, versions_from_lem ns)

module _ {O S : Type 0} ⦃c : CastPtr O S⦄ (suite_eq : S → S → Bool)
    (all_cipher_suites : List S) where
  -- Each pointer stands for a suite which the table has.
  abbrev pub Suites : List Ptr → List S → World O → Type 0
  Suites [] [] w = Unit {0}
  Suites [] (s ∷ ss) w = ⊥
  Suites (p ∷ ps) [] w = ⊥
  Suites (p ∷ ps) (s ∷ ss) w =
      ((cs : S) × (p ≢ null)
        × (shared (w.heap p) ≡ some cs)
        × (find suite_eq cs all_cipher_suites ≡ some s))
      × Suites ps ss w

  -- The loop gives these suites, in order.
  pub suites_from_lem :
      (ps : List Ptr) (ss taken : List S) (w : World O)
      → Suites ps ss w
      → suites_from suite_eq all_cipher_suites ps taken w ≡ done (ok (taken ++ ss)) w
  unfolding suites_from
  suites_from_lem [] [] taken w h = ap (λ l. done (ok l) w) (sym (append-nil taken))
  suites_from_lem [] (s ∷ ss) taken w h = absurd h
  suites_from_lem (p ∷ ps) [] taken w h = absurd h
  suites_from_lem (p ∷ ps) (s ∷ ss) taken w ((cs, ne, held, found), rest) =
      bind-done (try_from {T = S} p) _ {w = w} (try_from-shared p cs w ne held)
      ∙ rw found (
          suites_from_lem ps ss (taken ++ s ∷ []) w rest
          ∙ ap (λ l. done (ok l) w) (append_assoc taken (s ∷ []) ss))
