-- ===== src/Cipher.antt =====
-- cipher.rs: certified keys, and the store of root certificates. What `rustls_pemfile` and rustls
-- parse is the parameter `PemHost`: signing keys are of a type `K`, root certificates of a type `R`.
pub mod Keys
pub mod Roots
pub mod Suites
use rustls_ffi.Prelude.{
  ℕ, Bool, Option, none, some, List, [], ◌∷◌, ◌++◌, ◌==◌, ◌&&◌, ◌||◌, ltb, Result, ok, err,
  if◌then◌else◌,
}
use rustls_ffi.Panic.{
  Cmd, pure, modify, ◌>>=◌, ◌>>◌, done, result_null, result_panic, number_panic, unit_null,
  unit_panic, ffi_panic_boundary,
}
use rustls_ffi.Memory.{Ptr, Memory, is_null, write, from_raw_parts}
use rustls_ffi.Error.Codes.{RustlsResult}
use rustls_ffi.Slice.{RustlsSliceBytes}
use rustls_ffi.World.{World, on_memory}
use rustls_ffi.Ownership.{
  CastPtr, to_mut_ptr, to_const_ptr, drop_opaque, try_slice, try_ref_from_ptr, try_mut_from_ptr,
  try_box_from_ptr,
}

-- `rustls::sign::CertifiedKey`
pub record CertifiedKey (K : Type 0) : Type 0 where
  pub cert : List (List ℕ)
  pub key : K
  pub ocsp : Option (List ℕ)

-- `rustls::RootCertStore`
pub record RootCertStore (R : Type 0) : Type 0 where
  pub roots : List R

pub record PemHost (K R : Type 0) : Type 0 where
  -- the DER blocks of a text, or an error
  pub pkcs8_private_keys : List ℕ → Option (List (List ℕ))
  pub rsa_private_keys : List ℕ → Option (List (List ℕ))
  pub certs : List ℕ → Option (List (List ℕ))
  pub any_supported_type : List ℕ → Option K
  -- the numbers of parsed and rejected certificates, and the roots of the store afterwards
  pub add_parsable_certificates : List (List ℕ) → List R → (ℕ × ℕ) × List R

-- `Vec::pop`
unfoldable pub last {ℓ} : {A : Type ℓ} → List A → Option A
last [] = none
last (x ∷ []) = some x
last (x ∷ y ∷ xs) = last (y ∷ xs)

module _ {K R : Type 0} (host : PemHost K R) where
  -- The last RSA key of the text.
  abbrev pub rsa_private_key : List ℕ → Result RustlsResult (List ℕ)
  rsa_private_key text = elim (host.rsa_private_keys text) [
    | none ↦ err RustlsResult.private_key_parse_error
    | some v ↦ elim (last v) [ some p ↦ ok p | none ↦ err RustlsResult.private_key_parse_error ]
  ]

  -- The last PKCS #8 key of the text, or if it has none, the last RSA key.
  abbrev pub private_key_of : List ℕ → Result RustlsResult (List ℕ)
  private_key_of text = elim (host.pkcs8_private_keys text) [
    | none ↦ err RustlsResult.private_key_parse_error
    | some v ↦ elim (last v) [ some p ↦ ok p | none ↦ rsa_private_key text ]
  ]

  abbrev pub with_chain : List ℕ → K → Result RustlsResult (CertifiedKey K)
  with_chain cert_chain key = elim (host.certs cert_chain) [
    | none ↦ err RustlsResult.certificate_parse_error
    | some v ↦ ok (record { cert = v; key = key; ocsp = none })
  ]

  -- The texts are read and parsed.
  abbrev pub parse_key : (cert_chain private_key : List ℕ) → Result RustlsResult (CertifiedKey K)
  parse_key cert_chain private_key = elim (private_key_of private_key) [
    | err e ↦ err e
    | ok p ↦ elim (host.any_supported_type p) [
      | none ↦ err RustlsResult.private_key_parse_error
      | some key ↦ with_chain cert_chain key
    ]
  ]

  unfoldable pub certified_key_build :
      (cert_chain : Ptr) (cert_chain_len : ℕ) (private_key : Ptr) (private_key_len : ℕ)
      → Memory
      → Result RustlsResult (CertifiedKey K)
  unfolding last
  certified_key_build cert_chain cert_chain_len private_key private_key_len m =
      if is_null cert_chain
      then err RustlsResult.null_parameter
      else if is_null private_key
      then err RustlsResult.null_parameter
      else parse_key (from_raw_parts cert_chain cert_chain_len m)
          (from_raw_parts private_key private_key_len m)

module _ {O K : Type 0} ⦃c : CastPtr O (CertifiedKey K)⦄ (alloc : World O → Ptr) where
  abbrev pub store_key : Ptr → Result RustlsResult (CertifiedKey K) → Cmd (World O) RustlsResult
  store_key certified_key_out (err rr) = pure rr
  store_key certified_key_out (ok key) = to_const_ptr alloc key >>= λ p.
      on_memory (modify (write certified_key_out p)) >> pure RustlsResult.ok

  unfoldable pub rustls_certified_key_build :
      {R : Type 0}
      → PemHost K R
      → (cert_chain : Ptr) (cert_chain_len : ℕ) (private_key : Ptr) (private_key_len : ℕ)
        (certified_key_out : Ptr)
      → Cmd (World O) RustlsResult
  rustls_certified_key_build host chain chain_len key key_len certified_key_out =
      ffi_panic_boundary (
        if is_null certified_key_out then pure RustlsResult.null_parameter else λ w.
        store_key certified_key_out (certified_key_build host chain chain_len key key_len w.mem) w)

  -- What the OCSP response becomes in the clone; a parameter that the code tests with `is_null` and
  -- dereferences is an `Option`.
  abbrev pub clone_key : CertifiedKey K → Option RustlsSliceBytes → Ptr → Cmd (World O) RustlsResult
  clone_key key none cloned_key_out = store_key cloned_key_out (ok (record key { ocsp = none }))
  clone_key key (some ocsp_slice) cloned_key_out = try_slice ocsp_slice.bytes λ w.
      store_key cloned_key_out
        (ok (record key { ocsp = some (from_raw_parts ocsp_slice.bytes ocsp_slice.len w.mem) })) w

module _ {O : Type 0} (K : Type 0) ⦃c : CastPtr O (CertifiedKey K)⦄ (alloc : World O → Ptr) where
  unfoldable pub rustls_certified_key_clone_with_ocsp :
      (certified_key : Ptr)
      → Option RustlsSliceBytes
      → (cloned_key_out : Ptr) → Cmd (World O) RustlsResult
  rustls_certified_key_clone_with_ocsp certified_key ocsp_response cloned_key_out =
      ffi_panic_boundary (
        if is_null cloned_key_out
        then pure RustlsResult.null_parameter
        else try_ref_from_ptr {T = CertifiedKey K} certified_key
            λ key. clone_key alloc key ocsp_response cloned_key_out)

unfoldable pub rustls_certified_key_free : {O : Type 0} → (key : Ptr) → Cmd (World O) (Unit {0})
rustls_certified_key_free key =
    ffi_panic_boundary (if is_null key then pure tt else drop_opaque key)

module _ {O : Type 0} (R : Type 0) ⦃c : CastPtr O (RootCertStore R)⦄ where
  unfoldable pub rustls_root_cert_store_new : (World O → Ptr) → Cmd (World O) Ptr
  rustls_root_cert_store_new alloc =
      ffi_panic_boundary (to_mut_ptr {T = RootCertStore R} alloc (record { roots = [] }))

  unfoldable pub rustls_root_cert_store_free : (store : Ptr) → Cmd (World O) (Unit {0})
  rustls_root_cert_store_free store =
      ffi_panic_boundary (try_box_from_ptr {T = RootCertStore R} store λ s. pure tt)

module _ {O R : Type 0} where
  -- The new roots are parsed into a store of their own, and appended if they are accepted.
  abbrev pub append_parsed : Bool → (ℕ × ℕ) × List R → Cmd (RootCertStore R × World O) RustlsResult
  append_parsed strict ((parsed, rejected), new_roots) (store, w) =
      if strict && (ltb 0 rejected || parsed == 0)
      then done RustlsResult.certificate_parse_error (store, w)
      else done RustlsResult.ok (record { roots = store.roots ++ new_roots }, w)

module _ {O K R : Type 0} where
  abbrev pub add_certs :
      PemHost K R → Bool → Option (List (List ℕ)) → Cmd (RootCertStore R × World O) RustlsResult
  add_certs host strict none = pure RustlsResult.certificate_parse_error
  add_certs host strict (some certs_der) =
      append_parsed strict (host.add_parsable_certificates certs_der [])

module _ {O K R : Type 0} ⦃c : CastPtr O (RootCertStore R)⦄ where
  unfoldable pub rustls_root_cert_store_add_pem :
      PemHost K R → (store pem : Ptr) (pem_len : ℕ) (strict : Bool) → Cmd (World O) RustlsResult
  rustls_root_cert_store_add_pem host store pem pem_len strict = ffi_panic_boundary (
      try_slice pem λ w.
        try_mut_from_ptr {T = RootCertStore R} store
          (add_certs host strict (host.certs (from_raw_parts pem pem_len w.mem))) w)
