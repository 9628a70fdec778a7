-- ===== src/Config.antt =====
-- client.rs and server.rs: what the builders of both configurations do in the same way. rustls' cipher
-- suites are of a type `S`, with the test `suite_eq`; the static table `ALL_CIPHER_SUITES` is the
-- parameter `all_cipher_suites`.
pub mod Lists
use rustls_ffi.Prelude.{
  ℕ, Bool, Option, none, some, List, [], ◌∷◌, ◌++◌, Result, ok, err, if◌then◌else◌,
}
use rustls_ffi.Panic.{Run, done, Cmd, pure, ◌>>=◌}
use rustls_ffi.Memory.{Ptr, Memory, is_null, from_raw_parts}
use rustls_ffi.Error.Codes.{RustlsResult}
use rustls_ffi.Slice.{RustlsSliceBytes}
use rustls_ffi.World.{World}
use rustls_ffi.Ownership.{CastPtr, try_from}

-- `ALL_CIPHER_SUITES.iter().find(|&acs| cs.eq(acs))`
unfoldable pub find : {S : Type 0} → (S → S → Bool) → S → List S → Option S
find suite_eq cs [] = none
find suite_eq cs (acs ∷ rest) = if suite_eq cs acs then some acs else find suite_eq cs rest

module _ {O S : Type 0} ⦃c : CastPtr O S⦄ (suite_eq : S → S → Bool)
    (all_cipher_suites : List S) where
  -- The loop over the pointers to cipher suites, with its two early returns.
  unfoldable pub suites_from : List Ptr → List S → Cmd (World O) (Result RustlsResult (List S))
  unfolding find
  suites_from [] cs_vec = pure (ok cs_vec)
  suites_from (p ∷ rest) cs_vec = try_from {T = S} p >>= λ o. elim o [
    | none ↦ pure (err RustlsResult.null_parameter)
    | some cs ↦ elim (find suite_eq cs all_cipher_suites) [
      | some scs ↦ suites_from rest (cs_vec ++ scs ∷ [])
      | none ↦ pure (err RustlsResult.invalid_parameter)
    ]
  ]

-- The loop over the protocols: one with NULL for its bytes makes the call return early.
unfoldable pub protocols_from :
    Memory → List RustlsSliceBytes → List (List ℕ) → Option (List (List ℕ))
protocols_from m [] vv = some vv
protocols_from m (p ∷ rest) vv =
    let later = protocols_from m rest (vv ++ from_raw_parts p.bytes p.len m ∷ []) in
    if is_null p.bytes then none else later
