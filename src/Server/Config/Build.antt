-- ===== src/Server/Config/Build.antt =====
-- server.rs: the calls that end a builder, and those on the configuration that it builds.
use rustls_ffi.Prelude.{Option, none, some, Result, ok, err}
use rustls_ffi.Panic.{
  Cmd, pure, ◌>>=◌, ◌>>◌, result_null, result_panic, number_null, number_panic, unit_null,
  unit_panic, ffi_panic_boundary,
}
use rustls_ffi.Memory.{Ptr, null}
use rustls_ffi.Error.Codes.{RustlsResult}
use rustls_ffi.Error.Mapping.{RustlsError, map_error}
use rustls_ffi.World.{World}
use rustls_ffi.Ownership.{
  CastPtr, Arc, to_box, set_mut_ptr, to_const_ptr, try_ref_from_ptr, try_box_from_ptr,
  try_arc_from_ptr,
}
use rustls_ffi.Ownership.Arcs.{drop_all, drop_owner}
use rustls_ffi.Connection.State.{Connection, from_server}
use rustls_ffi.Server.Config.{
  ServerConfigBuilder, ServerConfig, ServerCertResolver, verifier_arcs, builder_arcs, config_arcs,
}

-- `base.with_client_cert_verifier(…).with_cert_resolver(r)`, and the assignments that follow.
abbrev pub config_of :
    {Base K V V' : Type 0}
    → ServerConfigBuilder Base K V V'
    → ServerCertResolver K
    → ServerConfig Base K V V'
config_of b r = record {
  base = b.base;
  verifier = b.verifier;
  cert_resolver = r;
  session_storage = b.session_storage;
  alpn_protocols = b.alpn_protocols;
  ignore_client_order = b.ignore_client_order;
}

module _ {O Base K V V' : Type 0} where
  abbrev pub drop_builder : Option (ServerConfigBuilder Base K V V') → Cmd (World O) (Unit {0})
  drop_builder none = pure tt
  drop_builder (some b) = drop_all (builder_arcs b)

  module _ ⦃c : CastPtr O (ServerConfig Base K V V')⦄ (alloc : World O → Ptr) where
    -- Without a resolver, `base` is dropped with the verifier that it has taken.
    abbrev pub built :
        ServerConfigBuilder Base K V V' → Option (ServerCertResolver K) → Cmd (World O) Ptr
    built b none = drop_all (verifier_arcs b.verifier) >> pure null
    built b (some r) = to_const_ptr alloc (config_of b r)

module _ {O : Type 0} (Base K V V' : Type 0) ⦃b : CastPtr O (ServerConfigBuilder Base K V V')⦄ where
  unfoldable pub rustls_server_config_builder_free : (config : Ptr) → Cmd (World O) (Unit {0})
  rustls_server_config_builder_free config =
      ffi_panic_boundary (to_box {T = ServerConfigBuilder Base K V V'} config >>= drop_builder)

  unfoldable pub rustls_server_config_builder_build :
      ⦃c : CastPtr O (ServerConfig Base K V V')⦄
      → (alloc : World O → Ptr) (builder : Ptr) → Cmd (World O) Ptr
  rustls_server_config_builder_build alloc builder = ffi_panic_boundary (
      try_box_from_ptr {T = ServerConfigBuilder Base K V V'} builder
        λ b. built alloc b b.cert_resolver)

module _ {O : Type 0} (Base K V V' : Type 0) ⦃c : CastPtr O (ServerConfig Base K V V')⦄ where
  unfoldable pub rustls_server_config_free : (config : Ptr) → Cmd (World O) (Unit {0})
  rustls_server_config_free config = ffi_panic_boundary (
      try_ref_from_ptr {T = ServerConfig Base K V V'} config
        λ _. drop_owner {T = ServerConfig Base K V V'} config_arcs config)

  module _ (A : Type 0) {B : Type 0} ⦃n : CastPtr O (Connection A B)⦄ (alloc : World O → Ptr) where
    -- What is made of rustls' answer: an error has dropped the Arc that it was given.
    abbrev pub connected :
        Arc (ServerConfig Base K V V')
        → (conn_out : Ptr) → Result RustlsError B
        → Cmd (World O) RustlsResult
    connected config conn_out (err e) =
        drop_owner {T = ServerConfig Base K V V'} config_arcs config.at >> pure (map_error e)
    connected config conn_out (ok sc) =
        set_mut_ptr {T = Connection A B} alloc conn_out (from_server sc) >> pure RustlsResult.ok

    -- `server_connection` is `ServerConnection::new`, which keeps the Arc if it succeeds.
    unfoldable pub rustls_server_connection_new :
        (server_connection : Arc (ServerConfig Base K V V') → Result RustlsError B)
        → (config conn_out : Ptr) → Cmd (World O) RustlsResult
    rustls_server_connection_new server_connection config conn_out = ffi_panic_boundary (
        try_arc_from_ptr {T = ServerConfig Base K V V'} config
          λ config. connected config conn_out (server_connection config))
