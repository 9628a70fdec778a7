-- ===== src/Client/Config/Script.antt =====
-- What a C program may do with a client's builder between its making and its end, as a program: a
-- list of calls, with their arguments, in any order, with NULL wherever a pointer is expected.
use rustls_ffi.Prelude.{ℕ, Bool, ◌≡◌, ◌≢◌, ◌⊎◌, Option, some, List, [], ◌∷◌}
use rustls_ffi.Panic.{Cmd, pure, ◌>>=◌, ◌>>◌, ignoring}
use rustls_ffi.Memory.{Ptr, null, from_raw_parts}
use rustls_ffi.Slice.{RustlsSliceBytes}
use rustls_ffi.Userdata.{FnPtr}
use rustls_ffi.World.{World}
use rustls_ffi.Ownership.{CastPtr, shared}
use rustls_ffi.Ownership.Pointers.{Pointers}
use rustls_ffi.Cipher.{CertifiedKey, RootCertStore, PemHost}
use rustls_ffi.Client.Config.{ClientConfigBuilder, ClientConfig}
use rustls_ffi.Client.Config.Setters.{
  RootFiles, rustls_client_config_builder_new, rustls_client_config_builder_set_certified_key,
  rustls_client_config_builder_dangerous_set_certificate_verifier,
  rustls_client_config_builder_use_roots, rustls_client_config_builder_load_roots_from_file,
  rustls_client_config_builder_set_alpn_protocols, rustls_client_config_builder_set_enable_sni,
}
use rustls_ffi.Client.Config.Build.{
  rustls_client_config_builder_free, rustls_client_config_builder_build, rustls_client_config_free,
}

pub data ClientBuilderCall : Type 0 where
  set_certified_key : (certified_keys : Ptr) (certified_keys_len : ℕ) → ClientBuilderCall
  set_certificate_verifier : Option FnPtr → ClientBuilderCall
  use_roots : Ptr → ClientBuilderCall
  load_roots_from_file : Option (List ℕ) → ClientBuilderCall
  set_alpn_protocols : Option (List RustlsSliceBytes) → ClientBuilderCall
  set_enable_sni : Bool → ClientBuilderCall

module _ {O : Type 0} (Base K R : Type 0) ⦃b : CastPtr O (ClientConfigBuilder Base K R)⦄
    ⦃k : CastPtr O (CertifiedKey K)⦄ ⦃r : CastPtr O (RootCertStore R)⦄ where
  -- The arguments that point to Rust objects are NULL or stand for an object of the right type.
  abbrev pub MayCall : ClientBuilderCall → World O → Type 0
  MayCall (set_certified_key at n) w =
      (at ≡ null) ⊎ Pointers (CertifiedKey K) (from_raw_parts at n w.mem) w.heap
  MayCall (set_certificate_verifier cb) w = Unit {0}
  MayCall (use_roots roots) w =
      (roots ≡ null) ⊎ ((roots ≢ null) × (t : RootCertStore R) × (shared (w.heap roots) ≡ some t))
  MayCall (load_roots_from_file name) w = Unit {0}
  MayCall (set_alpn_protocols protocols) w = Unit {0}
  MayCall (set_enable_sni enable) w = Unit {0}

  abbrev pub MayCalls : List ClientBuilderCall → World O → Type 0
  MayCalls [] w = Unit {0}
  MayCalls (c ∷ cs) w = MayCall c w × MayCalls cs w

  module _ {F : Type 0} (host : PemHost K R) (files : RootFiles F) where
    unfoldable pub call : (builder : Ptr) → ClientBuilderCall → Cmd (World O) (Unit {0})
    call p (set_certified_key at n) =
        ignoring (rustls_client_config_builder_set_certified_key Base K R p at n)
    call p (set_certificate_verifier cb) =
        ignoring (rustls_client_config_builder_dangerous_set_certificate_verifier Base K R p cb)
    call p (use_roots roots) = ignoring (rustls_client_config_builder_use_roots Base K R p roots)
    call p (load_roots_from_file name) =
        ignoring (rustls_client_config_builder_load_roots_from_file Base K R host files p name)
    call p (set_alpn_protocols protocols) =
        ignoring (rustls_client_config_builder_set_alpn_protocols Base K R p protocols)
    call p (set_enable_sni enable) = rustls_client_config_builder_set_enable_sni Base K R p enable

    unfoldable pub calls : (builder : Ptr) → List ClientBuilderCall → Cmd (World O) (Unit {0})
    calls p [] = pure tt
    calls p (c ∷ cs) = call p c >> calls p cs

    module _ (alloc : World O → Ptr) (safe_defaults : Base) where
      -- A builder that is made, used and freed.
      unfoldable pub use_client_builder : List ClientBuilderCall → Cmd (World O) (Unit {0})
      use_client_builder cs = do
        p ← rustls_client_config_builder_new K R alloc safe_defaults
        calls p cs
        rustls_client_config_builder_free Base K R p

      -- A builder that is made, used and built; the configuration is freed.
      unfoldable pub use_client_config :
          ⦃c : CastPtr O (ClientConfig Base K R)⦄
          → List ClientBuilderCall
          → Cmd (World O) (Unit {0})
      use_client_config cs = do
        p ← rustls_client_config_builder_new K R alloc safe_defaults
        calls p cs
        config ← rustls_client_config_builder_build Base K R alloc p
        rustls_client_config_free Base K R config
