-- ===== src/Client.antt =====
-- client.rs: the configuration of a client, how it picks a certified key, and its verifiers of server
-- certificates that are not rustls' own.
pub mod Resolver
pub mod Verifier
pub mod Config
use rustls_ffi.Prelude.{
  ℕ, Bool, true, false, Option, none, some, List, [], ◌∷◌, map, Result, ok, err, if◌then◌else◌,
}
use rustls_ffi.Panic.{Cmd, pure, ◌>>=◌}
use rustls_ffi.Memory.{Ptr}
use rustls_ffi.Error.Codes.{RustlsResult, try_from_or}
use rustls_ffi.Error.Mapping.{RustlsError, cert_result_to_error}
use rustls_ffi.Slice.{
  Slice, RustlsStr, NulByte, RustlsSliceBytes, RustlsSliceSliceBytes, slice_bytes, str_try_from,
}
use rustls_ffi.Userdata.{FnPtr, UserdataError, userdata_get}
use rustls_ffi.World.{World, on_local}
use rustls_ffi.Ownership.{Arc}
use rustls_ffi.Ownership.Arcs.{clone_found}
use rustls_ffi.Cipher.{CertifiedKey}

-- `rustls::ServerName`
pub data ServerName : Type 0 where
  dns_name : Slice → ServerName
  other_name : ServerName

-- What rustls hands to a verifier.
pub record ServerCert : Type 0 where
  pub end_entity : Slice
  pub intermediates : List Slice
  pub server_name : ServerName
  pub ocsp_response : Slice

pub record VerifyServerCertParams : Type 0 where
  pub end_entity_cert_der : RustlsSliceBytes
  pub intermediate_certs_der : RustlsSliceSliceBytes
  pub dns_name : RustlsStr
  pub ocsp_response : RustlsSliceBytes

-- `verify_server_cert` of `NoneVerifier`
unfoldable pub verify_none : ServerCert → Result RustlsError (Unit {0})
verify_none cert = err RustlsError.invalid_certificate_signature

-- What the callback's number means to rustls.
unfoldable pub verified : RustlsResult → Result RustlsError (Unit {0})
unfolding cert_result_to_error
verified RustlsResult.ok = ok tt
verified r = err (cert_result_to_error r)

module _ {O : Type 0}
    (verify_callback : FnPtr → (userdata : Ptr) → VerifyServerCertParams → Cmd (World O) ℕ) where
  abbrev pub params_of : ServerCert → RustlsStr → VerifyServerCertParams
  params_of cert name = record {
    end_entity_cert_der = slice_bytes cert.end_entity;
    intermediate_certs_der = record { inner = cert.intermediates };
    dns_name = name;
    ocsp_response = slice_bytes cert.ocsp_response;
  }

  abbrev pub verify_for :
      FnPtr
      → ServerCert
      → RustlsStr
      → Result UserdataError Ptr
      → Cmd (World O) (Result RustlsError (Unit {0}))
  verify_for cb cert name (err e) =
      pure (err (RustlsError.general "internal error with thread-local storage"))
  verify_for cb cert name (ok userdata) =
      verify_callback cb userdata (params_of cert name) >>= λ result.
      pure (verified (try_from_or result RustlsResult.general))

  abbrev pub verify_str :
      FnPtr → ServerCert → Result NulByte RustlsStr → Cmd (World O) (Result RustlsError (Unit {0}))
  verify_str cb cert (err e) = pure (err (RustlsError.general "NUL byte in SNI"))
  verify_str cb cert (ok name) = on_local userdata_get >>= verify_for cb cert name

  abbrev pub verify_name :
      FnPtr → ServerCert → ServerName → Cmd (World O) (Result RustlsError (Unit {0}))
  verify_name cb cert (dns_name n) = verify_str cb cert (str_try_from n)
  verify_name cb cert other_name = pure (err (RustlsError.general "unknown name type"))

  -- `verify_server_cert` of `Verifier`
  unfoldable pub verify_server_cert :
      FnPtr → ServerCert → Cmd (World O) (Result RustlsError (Unit {0}))
  verify_server_cert callback cert = verify_name callback cert cert.server_name

module _ {K : Type 0} (choose_scheme : K → List ℕ → Bool) where
  abbrev pub key_matches : List ℕ → Arc (CertifiedKey K) → Bool
  key_matches sig_schemes a = choose_scheme a.value.key sig_schemes

  -- `resolve` of `ResolvesClientCertFromChoices`, but for the clone of the Arc.
  unfoldable pub first_key : List ℕ → List (Arc (CertifiedKey K)) → Option (Arc (CertifiedKey K))
  first_key sig_schemes [] = none
  first_key sig_schemes (a ∷ keys) =
      if key_matches sig_schemes a then some a else first_key sig_schemes keys

  module _ {O : Type 0} where
    unfoldable pub resolve_client_cert :
        List ℕ → List (Arc (CertifiedKey K)) → Cmd (World O) (Option (Arc (CertifiedKey K)))
    unfolding first_key
    resolve_client_cert sig_schemes keys = clone_found (first_key sig_schemes keys)

-- `has_certs`
unfoldable pub has_certs : {T : Type 0} → List (Arc T) → Bool
has_certs [] = false
has_certs (a ∷ keys) = true
