-- ===== src/Client/Config/Build.antt =====
-- client.rs: the calls that end a builder, and those on the configuration that it builds.
use rustls_ffi.Prelude.{ℕ, Bool, Option, none, some, List, Result, ok, err, if◌then◌else◌}
use rustls_ffi.Panic.{
  Cmd, pure, panic, ◌>>=◌, ◌>>◌, result_null, result_panic, number_null, number_panic, unit_null,
  unit_panic, ffi_panic_boundary,
}
use rustls_ffi.Memory.{Ptr}
use rustls_ffi.Error.Codes.{RustlsResult}
use rustls_ffi.Error.Mapping.{RustlsError}
use rustls_ffi.World.{World}
use rustls_ffi.Ownership.{
  CastPtr, Arc, to_box, set_mut_ptr, to_const_ptr, try_ref_from_ptr, try_box_from_ptr,
  try_arc_from_ptr,
}
use rustls_ffi.Ownership.Arcs.{drop_all, drop_owner}
use rustls_ffi.Connection.State.{Connection, from_client}
use rustls_ffi.Client.Config.{ClientConfigBuilder, ClientConfig, choice_arcs}

-- `base.with_custom_certificate_verifier(…)`, the resolver, and the assignments that follow.
abbrev pub config_of : {Base K R : Type 0} → ClientConfigBuilder Base K R → ClientConfig Base K R
config_of b = record {
  base = b.base;
  verifier = b.verifier;
  cert_resolver = b.cert_resolver;
  alpn_protocols = b.alpn_protocols;
  enable_sni = b.enable_sni;
}

module _ {O Base K R : Type 0} where
  abbrev pub drop_builder : Option (ClientConfigBuilder Base K R) → Cmd (World O) (Unit {0})
  drop_builder none = pure tt
  drop_builder (some b) = drop_all (choice_arcs b.cert_resolver)

module _ {O : Type 0} (Base K R : Type 0) ⦃b : CastPtr O (ClientConfigBuilder Base K R)⦄ where
  unfoldable pub rustls_client_config_builder_free : (config : Ptr) → Cmd (World O) (Unit {0})
  rustls_client_config_builder_free config =
      ffi_panic_boundary (to_box {T = ClientConfigBuilder Base K R} config >>= drop_builder)

  unfoldable pub rustls_client_config_builder_build :
      ⦃c : CastPtr O (ClientConfig Base K R)⦄
      → (alloc : World O → Ptr) (builder : Ptr) → Cmd (World O) Ptr
  rustls_client_config_builder_build alloc builder = ffi_panic_boundary (
      try_box_from_ptr {T = ClientConfigBuilder Base K R} builder
        λ b. to_const_ptr {T = ClientConfig Base K R} alloc (config_of b))

-- `to_str`, and `TryInto<ServerName>`, whose values are of a type `N`.
pub record HostNames (N : Type 0) : Type 0 where
  pub is_utf8 : List ℕ → Bool
  pub server_name : List ℕ → Option N

module _ {O : Type 0} (Base K R : Type 0) ⦃c : CastPtr O (ClientConfig Base K R)⦄ where
  abbrev pub drop_config : Ptr → Cmd (World O) (Unit {0})
  drop_config = drop_owner {T = ClientConfig Base K R} λ c. choice_arcs c.cert_resolver

  unfoldable pub rustls_client_config_free : (config : Ptr) → Cmd (World O) (Unit {0})
  rustls_client_config_free config =
      ffi_panic_boundary
        (try_ref_from_ptr {T = ClientConfig Base K R} config λ _. drop_config config)

  module _ {A : Type 0} (B : Type 0) ⦃n : CastPtr O (Connection A B)⦄ (alloc : World O → Ptr) where
    -- `unwrap()` on rustls' answer: an error has dropped the Arc that it was given.
    abbrev pub connected :
        Arc (ClientConfig Base K R) → Ptr → Result RustlsError A → Cmd (World O) RustlsResult
    connected config conn_out (err e) = drop_config config.at >> panic
    connected config conn_out (ok client) =
        set_mut_ptr {T = Connection A B} alloc conn_out (from_client client) >> pure RustlsResult.ok

    abbrev pub connect_to :
        {N : Type 0}
        → (Arc (ClientConfig Base K R) → N → Result RustlsError A)
        → Arc (ClientConfig Base K R)
        → Ptr
        → Option N
        → Cmd (World O) RustlsResult
    connect_to client_connection config conn_out none =
        drop_config config.at >> pure RustlsResult.invalid_dns_name_error
    connect_to client_connection config conn_out (some server_name) =
        connected config conn_out (client_connection config server_name)

    -- `hostname` is the string that stands at the pointer, and `none` for NULL. `client_connection` is
    -- `ClientConnection::new`, which keeps the Arc if it succeeds.
    unfoldable pub rustls_client_connection_new :
        {N : Type 0}
        → HostNames N
        → (client_connection : Arc (ClientConfig Base K R) → N → Result RustlsError A)
        → (config : Ptr) → Option (List ℕ)
        → (conn_out : Ptr) → Cmd (World O) RustlsResult
    rustls_client_connection_new names client_connection config none conn_out =
        ffi_panic_boundary (pure RustlsResult.null_parameter)
    rustls_client_connection_new names client_connection config (some hostname) conn_out =
        ffi_panic_boundary (
          try_arc_from_ptr {T = ClientConfig Base K R} config λ config.
            if names.is_utf8 hostname
            then connect_to client_connection config conn_out (names.server_name hostname)
            else drop_config config.at >> pure RustlsResult.invalid_dns_name_error)
