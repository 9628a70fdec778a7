-- ===== src/Server/Config.antt =====
-- server.rs: `ServerConfigBuilder`, and the configuration that it builds. The verifiers of client
-- certificates are Arcs of the types `V` and `V'`. rustls' `ConfigBuilder` is of a type `Base`.
pub mod Setters
pub mod Build
pub mod Keys
pub mod Ends
pub mod Lifecycle
pub mod Connecting
pub mod Custom
pub mod Disposal
pub mod Serving
pub mod Setting
pub mod Script
pub mod Keeping
pub mod Life
pub mod Ending
pub mod Releasing
pub mod Sequences
pub mod Invariant
use rustls_ffi.Prelude.{
  ℕ, Bool, Option, none, some, List, [], ◌∷◌, ◌++◌, Result, ok, err, if◌then◌else◌,
}
use rustls_ffi.Panic.{
  Run, done, Cmd, pure, ◌>>=◌, ◌>>◌, result_null, result_panic, number_null, number_panic,
  unit_null, unit_panic, ffi_panic_boundary,
}
use rustls_ffi.Memory.{Ptr, null, is_null, from_raw_parts}
use rustls_ffi.Error.Codes.{RustlsResult}
use rustls_ffi.Error.Mapping.{RustlsError, map_error}
use rustls_ffi.Slice.{RustlsSliceBytes}
use rustls_ffi.Userdata.{FnPtr}
use rustls_ffi.World.{World, lift}
use rustls_ffi.Ownership.{
  CastPtr, Arc, to_box, to_arc, to_mut_ptr, set_mut_ptr, to_const_ptr, try_mut_from_ptr,
  try_ref_from_ptr, try_box_from_ptr, try_arc_from_ptr, try_slice,
}
use rustls_ffi.Ownership.Arcs.{addresses, drop_all, clone_all, arcs_from, drop_owner}
use rustls_ffi.Cipher.{CertifiedKey}
use rustls_ffi.Session.{SessionStoreBroker, broker_new}
use rustls_ffi.Server.Callback.{ClientHelloResolver}
use rustls_ffi.Versions.{SupportedVersion, versions_from}
use rustls_ffi.Config.{suites_from, protocols_from}

-- `Arc<dyn ClientCertVerifier>`
pub data ClientCertVerifier (V V' : Type 0) : Type 0 where
  no_client_auth : ClientCertVerifier V V'
  any_authenticated : Arc V → ClientCertVerifier V V'
  any_anonymous_or_authenticated : Arc V' → ClientCertVerifier V V'

-- `Arc<dyn ResolvesServerCert>`
pub data ServerCertResolver (K : Type 0) : Type 0 where
  from_choices : List (Arc (CertifiedKey K)) → ServerCertResolver K
  from_callback : ClientHelloResolver → ServerCertResolver K

pub record ServerConfigBuilder (Base K V V' : Type 0) : Type 0 where
  pub base : Base
  pub verifier : ClientCertVerifier V V'
  pub cert_resolver : Option (ServerCertResolver K)
  pub session_storage : Option SessionStoreBroker
  pub alpn_protocols : List (List ℕ)
  pub ignore_client_order : Option Bool

-- `rustls::ServerConfig`; `none` stands for the value that rustls gives the field.
pub record ServerConfig (Base K V V' : Type 0) : Type 0 where
  pub base : Base
  pub verifier : ClientCertVerifier V V'
  pub cert_resolver : ServerCertResolver K
  pub session_storage : Option SessionStoreBroker
  pub alpn_protocols : List (List ℕ)
  pub ignore_client_order : Option Bool

-- The Arcs of C's objects that a verifier, a resolver, a builder and a configuration hold.
abbrev pub verifier_arcs : {V V' : Type 0} → ClientCertVerifier V V' → List Ptr
verifier_arcs no_client_auth = []
verifier_arcs (any_authenticated a) = a.at ∷ []
verifier_arcs (any_anonymous_or_authenticated a) = a.at ∷ []

abbrev pub resolver_arcs : {K : Type 0} → ServerCertResolver K → List Ptr
resolver_arcs (from_choices choices) = addresses choices
resolver_arcs (from_callback r) = []

abbrev pub set_resolver_arcs : {K : Type 0} → Option (ServerCertResolver K) → List Ptr
set_resolver_arcs none = []
set_resolver_arcs (some r) = resolver_arcs r

abbrev pub builder_arcs : {Base K V V' : Type 0} → ServerConfigBuilder Base K V V' → List Ptr
builder_arcs b = verifier_arcs b.verifier ++ set_resolver_arcs b.cert_resolver

abbrev pub config_arcs : {Base K V V' : Type 0} → ServerConfig Base K V V' → List Ptr
config_arcs c = verifier_arcs c.verifier ++ resolver_arcs c.cert_resolver

-- A new builder on a base.
abbrev pub builder_on : {Base K V V' : Type 0} → Base → ServerConfigBuilder Base K V V'
builder_on base = record {
  base = base;
  verifier = no_client_auth;
  cert_resolver = none;
  session_storage = none;
  alpn_protocols = [];
  ignore_client_order = none;
}

module _ {O Base K V V' : Type 0} where
  -- An assignment drops the value of before.
  abbrev pub set_verifier :
      ClientCertVerifier V V' → Cmd (ServerConfigBuilder Base K V V' × World O) (Unit {0})
  set_verifier v (b, w) =
      (lift (drop_all (verifier_arcs b.verifier)) >> λ (b, w).
      done tt (record b { verifier = v }, w))
        (b, w)

  abbrev pub set_resolver :
      ServerCertResolver K → Cmd (ServerConfigBuilder Base K V V' × World O) (Unit {0})
  set_resolver r (b, w) =
      (lift (drop_all (set_resolver_arcs b.cert_resolver)) >> λ (b, w).
      done tt (record b { cert_resolver = some r }, w))
        (b, w)
