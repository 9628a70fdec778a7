-- ===== src/Server/Config/Script.antt =====
-- What a C program may do with a server's builder between its making and its end, as a program: a
-- list of calls, with their arguments, in any order, with NULL wherever a pointer is expected.
use rustls_ffi.Prelude.{ℕ, Bool, ◌≡◌, ◌⊎◌, Option, List, [], ◌∷◌}
use rustls_ffi.Panic.{Cmd, pure, ◌>>=◌, ◌>>◌, ignoring}
use rustls_ffi.Memory.{Ptr, null, from_raw_parts}
use rustls_ffi.Slice.{RustlsSliceBytes}
use rustls_ffi.Userdata.{FnPtr}
use rustls_ffi.World.{World}
use rustls_ffi.Ownership.{CastPtr}
use rustls_ffi.Ownership.Pointers.{Pointer, Pointers}
use rustls_ffi.Cipher.{CertifiedKey}
use rustls_ffi.Server.Config.{ServerConfigBuilder, ServerConfig}
use rustls_ffi.Server.Config.Setters.{
  rustls_server_config_builder_new, rustls_server_config_builder_set_certified_keys,
  rustls_server_config_builder_set_hello_callback,
  rustls_server_config_builder_set_ignore_client_order,
  rustls_server_config_builder_set_alpn_protocols, rustls_server_config_builder_set_persistence,
  rustls_server_config_builder_set_client_verifier,
  rustls_server_config_builder_set_client_verifier_optional,
}
use rustls_ffi.Server.Config.Build.{
  rustls_server_config_builder_free, rustls_server_config_builder_build, rustls_server_config_free,
}

pub data BuilderCall : Type 0 where
  set_certified_keys : (certified_keys : Ptr) (certified_keys_len : ℕ) → BuilderCall
  set_hello_callback : Option FnPtr → BuilderCall
  set_ignore_client_order : Bool → BuilderCall
  set_alpn_protocols : Option (List RustlsSliceBytes) → BuilderCall
  set_persistence : (get_cb put_cb : Option FnPtr) → BuilderCall
  set_client_verifier : Ptr → BuilderCall
  set_client_verifier_optional : Ptr → BuilderCall

module _ {O : Type 0} (Base K V V' : Type 0) ⦃b : CastPtr O (ServerConfigBuilder Base K V V')⦄
    ⦃k : CastPtr O (CertifiedKey K)⦄ ⦃v : CastPtr O V⦄ ⦃v' : CastPtr O V'⦄ where
  unfoldable pub call : (builder : Ptr) → BuilderCall → Cmd (World O) (Unit {0})
  call p (set_certified_keys at n) =
      ignoring (rustls_server_config_builder_set_certified_keys Base K V V' p at n)
  call p (set_hello_callback cb) =
      ignoring (rustls_server_config_builder_set_hello_callback Base K V V' p cb)
  call p (set_ignore_client_order ignore) =
      ignoring (rustls_server_config_builder_set_ignore_client_order Base K V V' p ignore)
  call p (set_alpn_protocols protocols) =
      ignoring (rustls_server_config_builder_set_alpn_protocols Base K V V' p protocols)
  call p (set_persistence get_cb put_cb) =
      ignoring (rustls_server_config_builder_set_persistence Base K V V' p get_cb put_cb)
  call p (set_client_verifier verifier) =
      rustls_server_config_builder_set_client_verifier Base K V V' p verifier
  call p (set_client_verifier_optional verifier) =
      rustls_server_config_builder_set_client_verifier_optional Base K V V' p verifier

  unfoldable pub calls : (builder : Ptr) → List BuilderCall → Cmd (World O) (Unit {0})
  calls p [] = pure tt
  calls p (c ∷ cs) = call p c >> calls p cs

  -- The arguments that point to Rust objects are NULL or stand for an Arc of the right type.
  abbrev pub MayCall : BuilderCall → World O → Type 0
  MayCall (set_certified_keys at n) w =
      (at ≡ null) ⊎ Pointers (CertifiedKey K) (from_raw_parts at n w.mem) w.heap
  MayCall (set_hello_callback cb) w = Unit {0}
  MayCall (set_ignore_client_order ignore) w = Unit {0}
  MayCall (set_alpn_protocols protocols) w = Unit {0}
  MayCall (set_persistence get_cb put_cb) w = Unit {0}
  MayCall (set_client_verifier verifier) w = Pointer V verifier w.heap
  MayCall (set_client_verifier_optional verifier) w = Pointer V' verifier w.heap

  abbrev pub MayCalls : List BuilderCall → World O → Type 0
  MayCalls [] w = Unit {0}
  MayCalls (c ∷ cs) w = MayCall c w × MayCalls cs w

  module _ (alloc : World O → Ptr) (safe_defaults : Base) where
    -- A builder that is made, used and freed.
    unfoldable pub use_builder : List BuilderCall → Cmd (World O) (Unit {0})
    use_builder cs = do
      p ← rustls_server_config_builder_new K V V' alloc safe_defaults
      calls p cs
      rustls_server_config_builder_free Base K V V' p

    -- A builder that is made, used and built; the configuration is freed, be it NULL.
    unfoldable pub use_config :
        ⦃c : CastPtr O (ServerConfig Base K V V')⦄ → List BuilderCall → Cmd (World O) (Unit {0})
    use_config cs = do
      p ← rustls_server_config_builder_new K V V' alloc safe_defaults
      calls p cs
      config ← rustls_server_config_builder_build Base K V V' alloc p
      rustls_server_config_free Base K V V' config
