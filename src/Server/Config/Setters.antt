-- ===== src/Server/Config/Setters.antt =====
-- server.rs: the calls that make a builder and set its fields.
use rustls_ffi.Prelude.{ℕ, Bool, Option, none, some, List, [], ok, err}
use rustls_ffi.Panic.{
  done, Cmd, pure, ◌>>=◌, ◌>>◌, result_null, result_panic, number_null, number_panic, unit_null,
  unit_panic, ffi_panic_boundary,
}
use rustls_ffi.Memory.{Ptr, from_raw_parts}
use rustls_ffi.Error.Codes.{RustlsResult}
use rustls_ffi.Slice.{RustlsSliceBytes}
use rustls_ffi.Userdata.{FnPtr}
use rustls_ffi.World.{World, lift}
use rustls_ffi.Ownership.{
  CastPtr, Arc, to_arc, to_mut_ptr, set_mut_ptr, try_mut_from_ptr, try_slice,
}
use rustls_ffi.Ownership.Arcs.{addresses, drop_all, clone_all, arcs_from}
use rustls_ffi.Cipher.{CertifiedKey}
use rustls_ffi.Session.{broker_new}
use rustls_ffi.Versions.{SupportedVersion, versions_from}
use rustls_ffi.Config.{suites_from, protocols_from}
use rustls_ffi.Server.Config.{
  ClientCertVerifier, any_authenticated, any_anonymous_or_authenticated, from_choices,
  from_callback, ServerConfigBuilder, builder_on, set_verifier, set_resolver,
}

module _ {O : Type 0} {Base : Type 0} (K V V' : Type 0)
    ⦃b : CastPtr O (ServerConfigBuilder Base K V V')⦄ (alloc : World O → Ptr) where
  -- `safe_defaults` is rustls' `ServerConfig::builder().with_safe_defaults()`.
  unfoldable pub rustls_server_config_builder_new : (safe_defaults : Base) → Cmd (World O) Ptr
  rustls_server_config_builder_new safe_defaults =
      ffi_panic_boundary
        (to_mut_ptr {T = ServerConfigBuilder Base K V V'} alloc (builder_on safe_defaults))

  abbrev pub put_builder : Ptr → Option Base → Cmd (World O) RustlsResult
  put_builder builder_out none = pure RustlsResult.invalid_parameter
  put_builder builder_out (some base) =
      set_mut_ptr {T = ServerConfigBuilder Base K V V'} alloc builder_out (builder_on base)
      >> pure RustlsResult.ok

  -- `with_protocol_versions` is what rustls makes of cipher suites and versions.
  unfoldable pub rustls_server_config_builder_new_custom :
      {S : Type 0} ⦃s : CastPtr O S⦄
      → (S → S → Bool)
      → (all_cipher_suites : List S)
      → (with_protocol_versions : List S → List SupportedVersion → Option Base)
      → (cipher_suites : Ptr) (cipher_suites_len : ℕ) (tls_versions : Ptr) (tls_versions_len : ℕ)
        (builder_out : Ptr)
      → Cmd (World O) RustlsResult
  rustls_server_config_builder_new_custom suite_eq all with_versions suites n versions k
        builder_out =
      ffi_panic_boundary (
        try_slice suites λ w.
          (suites_from suite_eq all (from_raw_parts suites n w.mem) [] >>= λ r. elim r [
            | err e ↦ pure e
            | ok cs_vec ↦ try_slice versions λ w.
                put_builder builder_out
                  (with_versions cs_vec (versions_from (from_raw_parts versions k w.mem))) w
          ])
            w)

module _ {O Base K V V' : Type 0} where
  abbrev pub take_verifier :
      {T : Type 0}
      → (Arc T → ClientCertVerifier V V')
      → Option (Arc T)
      → Cmd (ServerConfigBuilder Base K V V' × World O) (Unit {0})
  take_verifier wrap none = pure tt
  take_verifier wrap (some a) = set_verifier (wrap a)

  -- `ResolvesServerCertFromChoices::new(&keys)` clones the Vec, which is dropped at the end.
  abbrev pub take_keys :
      Option (List (Arc (CertifiedKey K)))
      → Cmd (ServerConfigBuilder Base K V V' × World O) RustlsResult
  take_keys none = pure RustlsResult.null_parameter
  take_keys (some keys) =
      lift (clone_all (addresses keys))
      >> set_resolver (from_choices keys)
      >> lift (drop_all (addresses keys))
      >> pure RustlsResult.ok

  abbrev pub take_protocols :
      Option (List (List ℕ)) → Cmd (ServerConfigBuilder Base K V V' × World O) RustlsResult
  take_protocols none s = done RustlsResult.null_parameter s
  take_protocols (some vv) (c, w) = done RustlsResult.ok (record c { alpn_protocols = vv }, w)

module _ {O : Type 0} (Base K V V' : Type 0) ⦃b : CastPtr O (ServerConfigBuilder Base K V V')⦄ where
  unfoldable pub rustls_server_config_builder_set_client_verifier :
      ⦃v : CastPtr O V⦄ → (builder verifier : Ptr) → Cmd (World O) (Unit {0})
  rustls_server_config_builder_set_client_verifier builder verifier = ffi_panic_boundary (
      try_mut_from_ptr {T = ServerConfigBuilder Base K V V'} builder
        (lift (to_arc {T = V} verifier) >>= take_verifier any_authenticated))

  unfoldable pub rustls_server_config_builder_set_client_verifier_optional :
      ⦃v : CastPtr O V'⦄ → (builder verifier : Ptr) → Cmd (World O) (Unit {0})
  rustls_server_config_builder_set_client_verifier_optional builder verifier = ffi_panic_boundary (
      try_mut_from_ptr {T = ServerConfigBuilder Base K V V'} builder
        (lift (to_arc {T = V'} verifier) >>= take_verifier any_anonymous_or_authenticated))

  unfoldable pub rustls_server_config_builder_set_ignore_client_order :
      (builder : Ptr) (ignore : Bool) → Cmd (World O) RustlsResult
  rustls_server_config_builder_set_ignore_client_order builder ignore = ffi_panic_boundary (
      try_mut_from_ptr {T = ServerConfigBuilder Base K V V'} builder
        λ (c, w). done RustlsResult.ok (record c { ignore_client_order = some ignore }, w))

  -- `protocols` is what stands at the pointer, and `none` for NULL.
  unfoldable pub rustls_server_config_builder_set_alpn_protocols :
      (builder : Ptr) → Option (List RustlsSliceBytes) → Cmd (World O) RustlsResult
  rustls_server_config_builder_set_alpn_protocols builder protocols = ffi_panic_boundary (
      try_mut_from_ptr {T = ServerConfigBuilder Base K V V'} builder λ (c, w). elim protocols [
        | none ↦ done RustlsResult.null_parameter (c, w)
        | some ps ↦ take_protocols (protocols_from w.mem ps []) (c, w)
      ])

  unfoldable pub rustls_server_config_builder_set_certified_keys :
      ⦃k : CastPtr O (CertifiedKey K)⦄
      → (builder certified_keys : Ptr) (certified_keys_len : ℕ) → Cmd (World O) RustlsResult
  rustls_server_config_builder_set_certified_keys builder certified_keys certified_keys_len =
      ffi_panic_boundary (
        try_mut_from_ptr {T = ServerConfigBuilder Base K V V'} builder (
          try_slice certified_keys λ (c, w).
            (lift (
                  arcs_from (CertifiedKey K)
                    (from_raw_parts certified_keys certified_keys_len w.mem) [])
                >>= take_keys)
              (c, w)))

  unfoldable pub rustls_server_config_builder_set_hello_callback :
      (builder : Ptr) → Option FnPtr → Cmd (World O) RustlsResult
  rustls_server_config_builder_set_hello_callback builder none =
      ffi_panic_boundary (pure RustlsResult.null_parameter)
  rustls_server_config_builder_set_hello_callback builder (some callback) = ffi_panic_boundary (
      try_mut_from_ptr {T = ServerConfigBuilder Base K V V'} builder
        (set_resolver (from_callback (record { callback = callback })) >> pure RustlsResult.ok))

  abbrev pub store_broker : Ptr → FnPtr → FnPtr → Cmd (World O) RustlsResult
  store_broker builder get_cb put_cb =
      try_mut_from_ptr {T = ServerConfigBuilder Base K V V'} builder λ (c, w).
        done RustlsResult.ok (record c { session_storage = some (broker_new get_cb put_cb) }, w)

  unfoldable pub rustls_server_config_builder_set_persistence :
      (builder : Ptr) (get_cb put_cb : Option FnPtr) → Cmd (World O) RustlsResult
  rustls_server_config_builder_set_persistence builder none put_cb =
      ffi_panic_boundary (pure RustlsResult.null_parameter)
  rustls_server_config_builder_set_persistence builder (some get_cb) none =
      ffi_panic_boundary (pure RustlsResult.null_parameter)
  rustls_server_config_builder_set_persistence builder (some get_cb) (some put_cb) =
      ffi_panic_boundary (store_broker builder get_cb put_cb)
