-- ===== src/Client/Config.antt =====
-- client.rs: `ClientConfigBuilder`, and the configuration that it builds. rustls' `ConfigBuilder` is of
-- a type `Base`, a root certificate of a type `R`.
pub mod Setters
pub mod Build
pub mod Keys
pub mod Ends
pub mod Lifecycle
pub mod Connecting
pub mod Roots
pub mod Protocols
pub mod Script
pub mod Keeping
pub mod Life
pub mod Ending
pub mod Serving
use rustls_ffi.Prelude.{Bool, true, ℕ, Option, none, some, List, []}
use rustls_ffi.Panic.{Cmd, done, ◌>>=◌, ◌>>◌}
use rustls_ffi.Memory.{Ptr}
use rustls_ffi.Userdata.{FnPtr}
use rustls_ffi.World.{World, lift}
use rustls_ffi.Ownership.{Arc}
use rustls_ffi.Ownership.Arcs.{addresses, drop_all}
use rustls_ffi.Cipher.{CertifiedKey, RootCertStore}

-- `Arc<dyn ServerCertVerifier>`
pub data ServerCertVerifier (R : Type 0) : Type 0 where
  none_verifier : ServerCertVerifier R
  callback_verifier : FnPtr → ServerCertVerifier R
  web_pki_verifier : RootCertStore R → ServerCertVerifier R

pub record ClientConfigBuilder (Base K R : Type 0) : Type 0 where
  pub base : Base
  pub verifier : ServerCertVerifier R
  pub alpn_protocols : List (List ℕ)
  pub enable_sni : Bool
  -- the keys of a `ResolvesClientCertFromChoices`
  pub cert_resolver : Option (List (Arc (CertifiedKey K)))

-- `rustls::ClientConfig`; `none` stands for no client authentication.
pub record ClientConfig (Base K R : Type 0) : Type 0 where
  pub base : Base
  pub verifier : ServerCertVerifier R
  pub cert_resolver : Option (List (Arc (CertifiedKey K)))
  pub alpn_protocols : List (List ℕ)
  pub enable_sni : Bool

abbrev pub choice_arcs : {K : Type 0} → Option (List (Arc (CertifiedKey K))) → List Ptr
choice_arcs none = []
choice_arcs (some keys) = addresses keys

-- A new builder on a base.
abbrev pub builder_on : {Base K R : Type 0} → Base → ClientConfigBuilder Base K R
builder_on base = record {
  base = base;
  verifier = none_verifier;
  alpn_protocols = [];
  enable_sni = true;
  cert_resolver = none;
}

module _ {O Base K R : Type 0} where
  -- An assignment drops the value of before.
  abbrev pub set_choices :
      List (Arc (CertifiedKey K)) → Cmd (ClientConfigBuilder Base K R × World O) (Unit {0})
  set_choices keys (b, w) =
      (lift (drop_all (choice_arcs b.cert_resolver)) >> λ (b, w).
      done tt (record b { cert_resolver = some keys }, w))
        (b, w)
