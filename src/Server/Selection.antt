-- ===== src/Server/Selection.antt =====
-- The selection of a certified key.
use rustls_ffi.Prelude.{
  ℕ, ◌≡◌, refl, ◌≢◌, ◌⊎◌, inl, inr, Bool, true, false, Option, none, some, List, [], ◌∷◌, ◌++◌, map,
  arith, ◌==◌, ◌∙◌, sym, ap, Bool-cases,
}
use rustls_ffi.Panic.{Run, done, result_null, result_panic}
use rustls_ffi.Panic.Boundary.{boundary-done}
use rustls_ffi.Memory.{Ptr, Memory, null, write, from_raw_parts}
use rustls_ffi.Error.Codes.{RustlsResult}
use rustls_ffi.World.{World}
use rustls_ffi.Ownership.{CastPtr, Arc, shared, try_slice}
use rustls_ffi.Ownership.Arcs.{clone_found}
use rustls_ffi.Ownership.References.{try_ref-shared}
use rustls_ffi.Cipher.{CertifiedKey}
use rustls_ffi.Server.{
  SignatureScheme, sigscheme, sigschemes, is_some, ClientHello, first_choice, resolve_from_choices,
  select_from, rustls_client_hello_select_certified_key,
}

-- The number of a scheme.
abbrev scheme_number : SignatureScheme → ℕ
scheme_number SignatureScheme.rsa_pkcs1_sha1 = 513
scheme_number SignatureScheme.ecdsa_sha1_legacy = 515
scheme_number SignatureScheme.rsa_pkcs1_sha256 = 1025
scheme_number SignatureScheme.ecdsa_nistp256_sha256 = 1027
scheme_number SignatureScheme.rsa_pkcs1_sha384 = 1281
scheme_number SignatureScheme.ecdsa_nistp384_sha384 = 1283
scheme_number SignatureScheme.rsa_pkcs1_sha512 = 1537
scheme_number SignatureScheme.ecdsa_nistp521_sha512 = 1539
scheme_number SignatureScheme.rsa_pss_sha256 = 2052
scheme_number SignatureScheme.rsa_pss_sha384 = 2053
scheme_number SignatureScheme.rsa_pss_sha512 = 2054
scheme_number SignatureScheme.ed25519 = 2055
scheme_number SignatureScheme.ed448 = 2056
scheme_number (SignatureScheme.unknown n) = n

scheme_number-sigscheme : (n : ℕ) → scheme_number (sigscheme n) ≡ n
unfolding sigscheme
scheme_number-sigscheme n = ground arith

map-scheme_number : (ns : List ℕ) → map scheme_number (map sigscheme ns) ≡ ns
map-scheme_number [] = refl
map-scheme_number (n ∷ ns) = rw (map, scheme_number-sigscheme n, map-scheme_number ns) refl

-- Two lists of numbers that become the same signature schemes are the same list: the conversion
-- drops none, and gives no two numbers one scheme.
pub sigschemes_injective : (ms ns : List ℕ) → sigschemes ms ≡ sigschemes ns → ms ≡ ns
unfolding sigschemes
sigschemes_injective ms ns e =
    sym (map-scheme_number ms) ∙ (ap (map scheme_number) e ∙ map-scheme_number ns)

-- The schemes of a client hello.
abbrev pub hello_schemes : {O : Type 0} → ClientHello → World O → List SignatureScheme
unfolding sigschemes
hello_schemes h w =
    sigschemes (from_raw_parts h.signature_schemes.words h.signature_schemes.len w.mem)

-- What the call returns and stores for a selected key.
abbrev pub verdict : {T : Type 0} → Option (Arc T) → RustlsResult
verdict none = RustlsResult.not_found
verdict (some a) = RustlsResult.ok

abbrev pub stored_key : {T : Type 0} → Ptr → Option (Arc T) → Memory → Memory
stored_key out_key none m = m
stored_key out_key (some a) m = write out_key a.at m

abbrev pub picked : {O T : Type 0} → Ptr → Option (Arc T) → World O → Run (World O) RustlsResult
picked out_key o w = done (verdict o) (record w { mem = stored_key out_key o w.mem })

module _ {K G : Type 0} (choose_scheme : K → List SignatureScheme → Option G)
    (schemes : List SignatureScheme) where
  -- The key supports one of the schemes.
  abbrev pub suits : Arc (CertifiedKey K) → Bool
  suits a = is_some (choose_scheme a.value.key schemes)

  abbrev pub NoneSuits : List (Arc (CertifiedKey K)) → Type 0
  NoneSuits [] = Unit {0}
  NoneSuits (a ∷ rest) = (suits a ≡ false) × NoneSuits rest

  -- The resolver gives the first choice that supports one of the schemes: none before it does; and
  -- it gives none exactly when no choice does.
  pub first_choice_lem :
      (choices : List (Arc (CertifiedKey K)))
      → let found = first_choice choose_scheme choices schemes in
        (NoneSuits choices × (found ≡ none))
        ⊎ ((before : List (Arc (CertifiedKey K))) × (a : Arc (CertifiedKey K)) × (after : List
              (Arc (CertifiedKey K)))
            × (choices ≡ before ++ a ∷ after)
            × NoneSuits before
            × (suits a ≡ true)
            × (found ≡ some a))
  unfolding first_choice
  first_choice_lem [] = inl (tt, refl)
  first_choice_lem (a ∷ rest) = elim (Bool-cases (suits a)) [
    | inl s ↦ inr ([], a, rest, refl, tt, s, rw s refl)
    | inr u ↦ elim (first_choice_lem rest) [
      | inl (h, e) ↦ inl ((u, h), rw u e)
      | inr (before, b, after, split, h, s, e) ↦
          inr (a ∷ before, b, after, ap (◌∷◌ a) split, (u, h), s, rw u e)
    ]
  ]

  module _ {O : Type 0} ⦃k : CastPtr O (CertifiedKey K)⦄ where
    -- Each pointer stands for its key.
    abbrev pub Held : List (Arc (CertifiedKey K)) → World O → Type 0
    Held [] w = Unit {0}
    Held (a ∷ rest) w = ((a.at ≢ null) × (shared (w.heap a.at) ≡ some a.value)) × Held rest w

    select_from-picked :
        (out_key : Ptr) (choices : List (Arc (CertifiedKey K))) (w : World O)
        → Held choices w
        → select_from choose_scheme schemes out_key (map (λ a. a.at) choices) w
          ≡ picked out_key (first_choice choose_scheme choices schemes) w
    unfolding select_from first_choice
    select_from-picked out_key [] w h = refl
    select_from-picked out_key (a ∷ rest) w ((ne, held), h) =
        try_ref-shared a.at a.value w _ ne held ∙ elim (Bool-cases (suits a)) [
          | inl s ↦ rw s refl
          | inr u ↦ rw u (select_from-picked out_key rest w h)
        ]

module _ {K G : Type 0} (choose_scheme : K → List SignatureScheme → Option G) {O : Type 0}
    ⦃k : CastPtr O (CertifiedKey K)⦄ ⦃c : CastPtr O ClientHello⦄ where
  -- The selection from C, given pointers that each stand for a key, agrees with the resolver of the
  -- library on these keys and the schemes of the client hello: it stores the pointer of the key that
  -- the resolver clones and gives, and returns Ok, or returns NotFound if the resolver gives none, and
  -- changes nothing else.
  pub select_certified_key_lem :
      (hello keys : Ptr) (n : ℕ) (out_key : Ptr) (h : ClientHello)
      (choices : List (Arc (CertifiedKey K))) (w : World O)
      → hello ≢ null
      → shared (w.heap hello) ≡ some h
      → h.signature_schemes.words ≢ null
      → keys ≢ null
      → out_key ≢ null
      → from_raw_parts keys n w.mem ≡ map (λ a. a.at) choices
      → Held choose_scheme (hello_schemes h w) choices w
      → let found = first_choice choose_scheme choices (hello_schemes h w) in
        (rustls_client_hello_select_certified_key choose_scheme hello keys n out_key w
          ≡ picked out_key found w)
        × (resolve_from_choices choose_scheme choices (hello_schemes h w) w ≡ clone_found found w)
  unfolding rustls_client_hello_select_certified_key try_slice resolve_from_choices
  select_certified_key_lem hello keys n out_key h choices w nh is_hello nw nk nout split held =
      let x : (h.signature_schemes.words == null) ≡ false = ground arith in
      let y : (keys == null) ≡ false = ground arith in
      let z : (out_key == null) ≡ false = ground arith in
      (
        boundary-done _ w (
            try_ref-shared hello h w _ nh is_hello
            ∙ rw (x, z, y, split) (select_from-picked choose_scheme _ out_key choices w held)),
        refl,
      )
