-- ===== src/Cipher/Suites.antt =====
-- cipher.rs: certificates, rustls' tables of cipher suites, and the verifiers of client certificates.
-- rustls' tables `ALL_CIPHER_SUITES` and `DEFAULT_CIPHER_SUITES` are parameters: each suite with its
-- address.
use rustls_ffi.Prelude.{
  ℕ, Option, none, some, List, [], ◌∷◌, map, ◌||◌, ok, err, if◌then◌else◌, length, get_elem?,
  unwrap_or,
}
use rustls_ffi.Panic.{
  Cmd, pure, modify, ◌>>◌, NullParameterOrDefault, result_null, result_panic, number_null,
  number_panic, unit_null, unit_panic, ffi_panic_boundary,
}
use rustls_ffi.Memory.{Ptr, null, is_null, write}
use rustls_ffi.Error.Codes.{RustlsResult}
use rustls_ffi.Slice.{Slice, RustlsStr, str_try_from, from_str_unchecked}
use rustls_ffi.World.{World, on_memory}
use rustls_ffi.Ownership.{CastPtr, drop_opaque, to_const_ptr, try_ref_from_ptr}
use rustls_ffi.Cipher.{CertifiedKey, RootCertStore}
use rustls_ffi.Connection.State.{StaticSuite}

-- `Certificate`, whose bytes lie where the slice says.
pub record Certificate : Type 0 where
  pub der : Slice

module _ {O : Type 0} ⦃c : CastPtr O Certificate⦄ where
  unfoldable pub rustls_certificate_get_der :
      (cert out_der_data out_der_len : Ptr) → Cmd (World O) RustlsResult
  rustls_certificate_get_der cert out_der_data out_der_len = ffi_panic_boundary (
      try_ref_from_ptr {T = Certificate} cert λ cert.
        if is_null out_der_data || is_null out_der_len
        then pure RustlsResult.null_parameter
        else on_memory (modify (write out_der_data cert.der.ptr))
          >> on_memory (modify (write out_der_len (length cert.der.elems)))
          >> pure RustlsResult.ok)

-- A suite of rustls: its number, and its name, if it has one.
pub record SupportedCipherSuite : Type 0 where
  pub suite : ℕ
  pub name : Option Slice

-- The empty string of the source, which lies at `empty_at`.
abbrev pub empty_str : (empty_at : Ptr) → Slice
empty_str empty_at = record { ptr = empty_at; elems = [] }

-- `rustls_str`'s value for NULL
abbrev pub str_null : (empty_at : Ptr) → NullParameterOrDefault RustlsStr
str_null empty_at = record { null_value = from_str_unchecked (empty_str empty_at) }

abbrev pub name_str : (empty_at : Ptr) → Option Slice → RustlsStr
name_str empty_at name = elim (str_try_from (unwrap_or name (empty_str empty_at))) [
  | ok s ↦ s
  | err e ↦ from_str_unchecked (empty_str empty_at)
]

module _ {O : Type 0} ⦃c : CastPtr O SupportedCipherSuite⦄ where
  unfoldable pub rustls_supported_ciphersuite_get_suite :
      (supported_ciphersuite : Ptr) → Cmd (World O) ℕ
  rustls_supported_ciphersuite_get_suite supported_ciphersuite =
      try_ref_from_ptr {T = SupportedCipherSuite} supported_ciphersuite λ sc. pure sc.suite

  unfoldable pub rustls_supported_ciphersuite_get_name :
      (empty_at supported_ciphersuite : Ptr) → Cmd (World O) RustlsStr
  rustls_supported_ciphersuite_get_name empty_at supported_ciphersuite =
      try_ref_from_ptr {T = SupportedCipherSuite} {R = RustlsStr} ⦃d = str_null empty_at⦄
        supported_ciphersuite λ sc. pure (name_str empty_at sc.name)

module _ {S : Type 0} where
  abbrev pub entry_at : Option (StaticSuite S) → Ptr
  entry_at none = null
  entry_at (some cs) = cs.at

  unfoldable pub rustls_all_ciphersuites_len : (all_cipher_suites : List (StaticSuite S)) → ℕ
  rustls_all_ciphersuites_len all_cipher_suites = length all_cipher_suites

  unfoldable pub rustls_all_ciphersuites_get_entry :
      (all_cipher_suites : List (StaticSuite S)) (i : ℕ) → Ptr
  rustls_all_ciphersuites_get_entry all_cipher_suites i = entry_at (get_elem? all_cipher_suites i)

  unfoldable pub rustls_default_ciphersuites_len :
      (default_cipher_suites : List (StaticSuite S)) → ℕ
  rustls_default_ciphersuites_len default_cipher_suites = length default_cipher_suites

  unfoldable pub rustls_default_ciphersuites_get_entry :
      (default_cipher_suites : List (StaticSuite S)) (i : ℕ) → Ptr
  rustls_default_ciphersuites_get_entry default_cipher_suites i =
      entry_at (get_elem? default_cipher_suites i)

-- rustls' suites that the source names, in the order of its arrays.
pub data SuiteName : Type 0 where
  tls13_aes_256_gcm_sha384 tls13_aes_128_gcm_sha256 tls13_chacha20_poly1305_sha256
        tls_ecdhe_ecdsa_with_aes_256_gcm_sha384 tls_ecdhe_ecdsa_with_aes_128_gcm_sha256
        tls_ecdhe_ecdsa_with_chacha20_poly1305_sha256 tls_ecdhe_rsa_with_aes_256_gcm_sha384
        tls_ecdhe_rsa_with_aes_128_gcm_sha256 tls_ecdhe_rsa_with_chacha20_poly1305_sha256 :
      SuiteName

module _ (static_at : SuiteName → Ptr) where
  unfoldable pub rustls_all_cipher_suites : List Ptr
  rustls_all_cipher_suites = map static_at (
      tls13_aes_256_gcm_sha384 ∷ tls13_aes_128_gcm_sha256 ∷ tls13_chacha20_poly1305_sha256
      ∷ tls_ecdhe_ecdsa_with_aes_256_gcm_sha384 ∷ tls_ecdhe_ecdsa_with_aes_128_gcm_sha256
      ∷ tls_ecdhe_ecdsa_with_chacha20_poly1305_sha256 ∷ tls_ecdhe_rsa_with_aes_256_gcm_sha384
      ∷ tls_ecdhe_rsa_with_aes_128_gcm_sha256 ∷ tls_ecdhe_rsa_with_chacha20_poly1305_sha256 ∷ [])

  unfoldable pub rustls_all_cipher_suites_len : ℕ
  unfolding rustls_all_cipher_suites
  rustls_all_cipher_suites_len = length rustls_all_cipher_suites

  unfoldable pub rustls_default_cipher_suites : List Ptr
  rustls_default_cipher_suites = map static_at (
      tls13_aes_256_gcm_sha384 ∷ tls13_aes_128_gcm_sha256 ∷ tls13_chacha20_poly1305_sha256
      ∷ tls_ecdhe_ecdsa_with_aes_256_gcm_sha384 ∷ tls_ecdhe_ecdsa_with_aes_128_gcm_sha256
      ∷ tls_ecdhe_ecdsa_with_chacha20_poly1305_sha256 ∷ tls_ecdhe_rsa_with_aes_256_gcm_sha384
      ∷ tls_ecdhe_rsa_with_aes_128_gcm_sha256 ∷ tls_ecdhe_rsa_with_chacha20_poly1305_sha256 ∷ [])

  unfoldable pub rustls_default_cipher_suites_len : ℕ
  unfolding rustls_default_cipher_suites
  rustls_default_cipher_suites_len = length rustls_default_cipher_suites

module _ {O : Type 0} (K : Type 0) ⦃k : CastPtr O (CertifiedKey K)⦄ where
  -- `cert_at` is where the key at an address has its certificate of an index.
  unfoldable pub rustls_certified_key_get_certificate :
      (cert_at : Ptr → ℕ → Ptr) (certified_key : Ptr) (i : ℕ) → Cmd (World O) Ptr
  rustls_certified_key_get_certificate cert_at certified_key i = ffi_panic_boundary (
      try_ref_from_ptr {T = CertifiedKey K} certified_key λ key. elim (get_elem? key.cert i) [
        | some cert ↦ pure (cert_at certified_key i)
        | none ↦ pure null
      ])

module _ {O : Type 0} {R V : Type 0} ⦃r : CastPtr O (RootCertStore R)⦄ ⦃v : CastPtr O V⦄
    (alloc : World O → Ptr) (verifier : RootCertStore R → V) where
  -- `verifier` is rustls' `AllowAnyAuthenticatedClient::new`.
  unfoldable pub rustls_client_cert_verifier_new : (store : Ptr) → Cmd (World O) Ptr
  rustls_client_cert_verifier_new store =
      try_ref_from_ptr {T = RootCertStore R} store
        λ store. to_const_ptr {T = V} alloc (verifier store)

  -- `verifier` is rustls' `AllowAnyAnonymousOrAuthenticatedClient::new`.
  unfoldable pub rustls_client_cert_verifier_optional_new : (store : Ptr) → Cmd (World O) Ptr
  rustls_client_cert_verifier_optional_new store =
      try_ref_from_ptr {T = RootCertStore R} store
        λ store. to_const_ptr {T = V} alloc (verifier store)

unfoldable pub rustls_client_cert_verifier_free :
    {O : Type 0} → (verifier : Ptr) → Cmd (World O) (Unit {0})
rustls_client_cert_verifier_free verifier =
    ffi_panic_boundary (if is_null verifier then pure tt else drop_opaque verifier)

unfoldable pub rustls_client_cert_verifier_optional_free :
    {O : Type 0} → (verifier : Ptr) → Cmd (World O) (Unit {0})
rustls_client_cert_verifier_optional_free verifier =
    ffi_panic_boundary (if is_null verifier then pure tt else drop_opaque verifier)
