-- ===== src/Server.antt =====
-- server.rs: what a server learns from a client hello, and how it picks a certified key. rustls'
-- server connection is of a type `B`; of a signing key of type `K` the parameter `choose_scheme`
-- says whether it supports one of some signature schemes.
pub mod Selection
pub mod Hostname
pub mod Callback
pub mod Resolver
pub mod Config
use rustls_ffi.Prelude.{
  ℕ, Bool, true, false, Option, none, some, List, [], ◌∷◌, map, ◌==◌, ltb, Result, ok, err,
  if◌then◌else◌, length, unwrap_or,
}
use rustls_ffi.Panic.{
  Cmd, pure, modify, ◌>>=◌, ◌>>◌, option_null, result_null, result_panic, ffi_panic_boundary,
}
use rustls_ffi.Memory.{Ptr, is_null, write, copy, from_raw_parts}
use rustls_ffi.Error.Codes.{RustlsResult}
use rustls_ffi.Slice.{
  Slice, RustlsStr, NulByte, RustlsSliceU16, RustlsSliceSliceBytes, slice_u16, str_try_from,
}
use rustls_ffi.Userdata.{FnPtr, UserdataError, userdata_get}
use rustls_ffi.World.{World, on_memory, on_local}
use rustls_ffi.Ownership.{CastPtr, Arc, try_ref_from_ptr, try_slice}
use rustls_ffi.Ownership.Arcs.{clone_found}
use rustls_ffi.Cipher.{CertifiedKey}
use rustls_ffi.Connection.State.{Connection, as_server}

-- `rustls::SignatureScheme`
pub data SignatureScheme : Type 0 where
  rsa_pkcs1_sha1 ecdsa_sha1_legacy rsa_pkcs1_sha256 ecdsa_nistp256_sha256 rsa_pkcs1_sha384
        ecdsa_nistp384_sha384 rsa_pkcs1_sha512 ecdsa_nistp521_sha512 rsa_pss_sha256 rsa_pss_sha384
        rsa_pss_sha512 ed25519 ed448 :
      SignatureScheme
  unknown : ℕ → SignatureScheme

-- The match of `sigschemes`, on numbers in decimal.
unfoldable pub sigscheme : ℕ → SignatureScheme
sigscheme n =
    if n == 513
    then rsa_pkcs1_sha1
    else if n == 515
    then ecdsa_sha1_legacy
    else if n == 1025
    then rsa_pkcs1_sha256
    else if n == 1027
    then ecdsa_nistp256_sha256
    else if n == 1281
    then rsa_pkcs1_sha384
    else if n == 1283
    then ecdsa_nistp384_sha384
    else if n == 1537
    then rsa_pkcs1_sha512
    else if n == 1539
    then ecdsa_nistp521_sha512
    else if n == 2052
    then rsa_pss_sha256
    else if n == 2053
    then rsa_pss_sha384
    else if n == 2054
    then rsa_pss_sha512
    else if n == 2055
    then ed25519
    else if n == 2056
    then ed448
    else unknown n

unfoldable pub sigschemes : List ℕ → List SignatureScheme
unfolding sigscheme
sigschemes input = map sigscheme input

-- `Option::is_some`
abbrev pub is_some {ℓ} : {A : Type ℓ} → Option A → Bool
is_some none = false
is_some (some x) = true

pub record ClientHello : Type 0 where
  pub sni_name : RustlsStr
  pub signature_schemes : RustlsSliceU16
  pub alpn : RustlsSliceSliceBytes

module _ {K G : Type 0} (choose_scheme : K → List SignatureScheme → Option G) where
  -- The loop of `ResolvesServerCertFromChoices::resolve`: the first choice that supports a scheme.
  unfoldable pub first_choice :
      List (Arc (CertifiedKey K)) → List SignatureScheme → Option (Arc (CertifiedKey K))
  first_choice [] schemes = none
  first_choice (a ∷ rest) schemes =
      if is_some (choose_scheme a.value.key schemes) then some a else first_choice rest schemes

  -- `ResolvesServerCertFromChoices::resolve`: `Some(key.clone())`, or `None`.
  unfoldable pub resolve_from_choices :
      {O : Type 0}
      → List (Arc (CertifiedKey K))
      → List SignatureScheme
      → Cmd (World O) (Option (Arc (CertifiedKey K)))
  unfolding first_choice
  resolve_from_choices choices schemes = clone_found (first_choice choices schemes)

  module _ {O : Type 0} ⦃k : CastPtr O (CertifiedKey K)⦄ where
    -- The loop over the pointers of `rustls_client_hello_select_certified_key`.
    unfoldable pub select_from :
        List SignatureScheme → (out_key : Ptr) → List Ptr → Cmd (World O) RustlsResult
    select_from schemes out_key [] = pure RustlsResult.not_found
    select_from schemes out_key (key_ptr ∷ rest) =
        try_ref_from_ptr {T = CertifiedKey K} key_ptr λ key_ref.
          if is_some (choose_scheme key_ref.key schemes)
          then on_memory (modify (write out_key key_ptr)) >> pure RustlsResult.ok
          else select_from schemes out_key rest

    unfoldable pub rustls_client_hello_select_certified_key :
        ⦃h : CastPtr O ClientHello⦄
        → (hello certified_keys : Ptr) (certified_keys_len : ℕ) (out_key : Ptr)
        → Cmd (World O) RustlsResult
    unfolding sigschemes select_from
    rustls_client_hello_select_certified_key hello certified_keys certified_keys_len out_key =
        ffi_panic_boundary (
          try_ref_from_ptr {T = ClientHello} hello λ hello.
            try_slice hello.signature_schemes.words λ w.
              let schemes =
                sigschemes (
                  from_raw_parts hello.signature_schemes.words hello.signature_schemes.len w.mem) in
              (if is_null out_key
                  then pure RustlsResult.null_parameter
                  else try_slice certified_keys λ w.
                    select_from schemes out_key
                      (from_raw_parts certified_keys certified_keys_len w.mem) w)
                w)

module _ {O : Type 0} where
  -- What is done with the host name of the client hello.
  abbrev pub report_sni :
      Option Slice → (buf : Ptr) (count : ℕ) (out_n : Ptr) → Cmd (World O) RustlsResult
  report_sni none buf count out_n = on_memory (modify (write out_n 0)) >> pure RustlsResult.ok
  report_sni (some sni_hostname) buf count out_n =
      if ltb count (length sni_hostname.elems)
      then on_memory (modify (write out_n 0)) >> pure RustlsResult.insufficient_size
      else on_memory (modify (copy sni_hostname.elems buf))
        >> on_memory (modify (write out_n (length sni_hostname.elems)))
        >> pure RustlsResult.ok

module _ {O : Type 0} (A : Type 0) {B : Type 0} ⦃c : CastPtr O (Connection A B)⦄ where
  unfoldable pub rustls_server_connection_get_sni_hostname :
      (sni_hostname : B → Option Slice) (conn buf : Ptr) (count : ℕ) (out_n : Ptr)
      → Cmd (World O) RustlsResult
  unfolding as_server
  rustls_server_connection_get_sni_hostname sni_hostname conn buf count out_n = ffi_panic_boundary (
      try_ref_from_ptr {T = Connection A B} conn λ conn.
        if is_null buf
        then pure RustlsResult.null_parameter
        else if is_null out_n
        then pure RustlsResult.null_parameter
        else elim (as_server conn) [
          | some server_connection ↦ report_sni (sni_hostname server_connection) buf count out_n
          | none ↦ pure RustlsResult.invalid_parameter
        ])
