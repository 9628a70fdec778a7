-- ===== src/Client/Config/Setters.antt =====
-- client.rs: the calls that make a builder and set its fields.
use rustls_ffi.Prelude.{ℕ, Bool, Option, none, some, List, [], ok, err, ltb, if◌then◌else◌}
use rustls_ffi.Panic.{
  done, Cmd, pure, ◌>>=◌, ◌>>◌, result_null, result_panic, number_panic, unit_null, unit_panic,
  ffi_panic_boundary,
}
use rustls_ffi.Memory.{Ptr, from_raw_parts}
use rustls_ffi.Error.Codes.{RustlsResult}
use rustls_ffi.Slice.{RustlsSliceBytes}
use rustls_ffi.Userdata.{FnPtr}
use rustls_ffi.World.{World, lift}
use rustls_ffi.Ownership.{
  CastPtr, Arc, try_from, to_mut_ptr, set_mut_ptr, try_mut_from_ptr, try_slice,
}
use rustls_ffi.Ownership.Arcs.{arcs_from}
use rustls_ffi.Cipher.{CertifiedKey, RootCertStore, PemHost}
use rustls_ffi.Versions.{SupportedVersion, versions_from}
use rustls_ffi.Config.{suites_from, protocols_from}
use rustls_ffi.Client.Config.{
  callback_verifier, web_pki_verifier, ServerCertVerifier, ClientConfigBuilder, builder_on,
  set_choices,
}

module _ {O : Type 0} {Base : Type 0} (K R : Type 0) ⦃b : CastPtr O (ClientConfigBuilder Base K R)⦄
    (alloc : World O → Ptr) where
  -- `safe_defaults` is rustls' `ClientConfig::builder().with_safe_defaults()`.
  unfoldable pub rustls_client_config_builder_new : (safe_defaults : Base) → Cmd (World O) Ptr
  rustls_client_config_builder_new safe_defaults =
      ffi_panic_boundary
        (to_mut_ptr {T = ClientConfigBuilder Base K R} alloc (builder_on safe_defaults))

  abbrev pub put_builder : Ptr → Option Base → Cmd (World O) RustlsResult
  put_builder builder_out none = pure RustlsResult.invalid_parameter
  put_builder builder_out (some base) =
      set_mut_ptr {T = ClientConfigBuilder Base K R} alloc builder_out (builder_on base)
      >> pure RustlsResult.ok

  -- `with_protocol_versions` is what rustls makes of cipher suites and versions.
  unfoldable pub rustls_client_config_builder_new_custom :
      {S : Type 0} ⦃s : CastPtr O S⦄
      → (S → S → Bool)
      → (all_cipher_suites : List S)
      → (with_protocol_versions : List S → List SupportedVersion → Option Base)
      → (cipher_suites : Ptr) (cipher_suites_len : ℕ) (tls_versions : Ptr) (tls_versions_len : ℕ)
        (builder_out : Ptr)
      → Cmd (World O) RustlsResult
  rustls_client_config_builder_new_custom suite_eq all with_versions suites n versions k
        builder_out =
      ffi_panic_boundary (
        try_slice suites λ w.
          (suites_from suite_eq all (from_raw_parts suites n w.mem) [] >>= λ r. elim r [
            | err e ↦ pure e
            | ok cs_vec ↦ try_slice versions λ w.
                put_builder builder_out
                  (with_versions cs_vec (versions_from (from_raw_parts versions k w.mem))) w
          ])
            w)

-- The file system: files are of a type `F`.
pub record RootFiles (F : Type 0) : Type 0 where
  pub is_utf8 : List ℕ → Bool
  pub open_file : List ℕ → Option F
  -- the bytes of a file, or an error
  pub read : F → Option (List ℕ)

module _ {O Base K R : Type 0} where
  abbrev pub set_verifier :
      ServerCertVerifier R → Cmd (ClientConfigBuilder Base K R × World O) RustlsResult
  set_verifier v (b, w) = done RustlsResult.ok (record b { verifier = v }, w)

  abbrev pub use_store :
      Option (RootCertStore R) → Cmd (ClientConfigBuilder Base K R × World O) RustlsResult
  use_store none = pure RustlsResult.null_parameter
  use_store (some root_store) = set_verifier (web_pki_verifier root_store)

  -- The certificates of the file, in a store of their own, if rustls parses all of them.
  abbrev pub use_parsed :
      (ℕ × ℕ) × List R → Cmd (ClientConfigBuilder Base K R × World O) RustlsResult
  use_parsed ((parsed, failed), roots) =
      if ltb 0 failed
      then pure RustlsResult.certificate_parse_error
      else set_verifier (web_pki_verifier (record { roots = roots }))

  abbrev pub use_certs :
      PemHost K R
      → Option (List (List ℕ))
      → Cmd (ClientConfigBuilder Base K R × World O) RustlsResult
  use_certs host none = pure RustlsResult.io
  use_certs host (some certs) = use_parsed (host.add_parsable_certificates certs [])

  -- `rustls_pemfile::certs` of a `BufReader`, which fails if the file cannot be read.
  abbrev pub use_text :
      PemHost K R → Option (List ℕ) → Cmd (ClientConfigBuilder Base K R × World O) RustlsResult
  use_text host none = pure RustlsResult.io
  use_text host (some text) = use_certs host (host.certs text)

  abbrev pub use_file :
      {F : Type 0}
      → PemHost K R
      → RootFiles F
      → Option F
      → Cmd (ClientConfigBuilder Base K R × World O) RustlsResult
  use_file host files none = pure RustlsResult.io
  use_file host files (some cafile) = use_text host (files.read cafile)

  abbrev pub use_named :
      {F : Type 0}
      → PemHost K R
      → RootFiles F
      → Option (List ℕ)
      → Cmd (ClientConfigBuilder Base K R × World O) RustlsResult
  use_named host files none = pure RustlsResult.null_parameter
  use_named host files (some filename) =
      if files.is_utf8 filename
      then use_file host files (files.open_file filename)
      else pure RustlsResult.io

  abbrev pub take_choices :
      Option (List (Arc (CertifiedKey K)))
      → Cmd (ClientConfigBuilder Base K R × World O) RustlsResult
  take_choices none = pure RustlsResult.null_parameter
  take_choices (some keys) = set_choices keys >> pure RustlsResult.ok

  abbrev pub take_protocols :
      Option (List (List ℕ)) → Cmd (ClientConfigBuilder Base K R × World O) RustlsResult
  take_protocols none s = done RustlsResult.null_parameter s
  take_protocols (some vv) (c, w) = done RustlsResult.ok (record c { alpn_protocols = vv }, w)

  abbrev pub verify_by : Option FnPtr → Cmd (ClientConfigBuilder Base K R × World O) RustlsResult
  verify_by none = pure RustlsResult.invalid_parameter
  verify_by (some cb) = set_verifier (callback_verifier cb)

module _ {O : Type 0} (Base K R : Type 0) ⦃b : CastPtr O (ClientConfigBuilder Base K R)⦄ where
  unfoldable pub rustls_client_config_builder_dangerous_set_certificate_verifier :
      (config_builder : Ptr) → Option FnPtr → Cmd (World O) RustlsResult
  rustls_client_config_builder_dangerous_set_certificate_verifier config_builder callback =
      ffi_panic_boundary
        (try_mut_from_ptr {T = ClientConfigBuilder Base K R} config_builder (verify_by callback))

  unfoldable pub rustls_client_config_builder_use_roots :
      ⦃r : CastPtr O (RootCertStore R)⦄ → (config_builder roots : Ptr) → Cmd (World O) RustlsResult
  rustls_client_config_builder_use_roots config_builder roots = ffi_panic_boundary (
      try_mut_from_ptr {T = ClientConfigBuilder Base K R} config_builder
        (lift (try_from {T = RootCertStore R} roots) >>= use_store))

  -- `filename` is the string that stands at the pointer, and `none` for NULL.
  unfoldable pub rustls_client_config_builder_load_roots_from_file :
      {F : Type 0}
      → PemHost K R
      → RootFiles F
      → (config_builder : Ptr) → Option (List ℕ)
      → Cmd (World O) RustlsResult
  rustls_client_config_builder_load_roots_from_file host files config_builder filename =
      ffi_panic_boundary (
        try_mut_from_ptr {T = ClientConfigBuilder Base K R} config_builder
          (use_named host files filename))

  -- `protocols` is what stands at the pointer, and `none` for NULL.
  unfoldable pub rustls_client_config_builder_set_alpn_protocols :
      (builder : Ptr) → Option (List RustlsSliceBytes) → Cmd (World O) RustlsResult
  rustls_client_config_builder_set_alpn_protocols builder protocols = ffi_panic_boundary (
      try_mut_from_ptr {T = ClientConfigBuilder Base K R} builder λ (c, w). elim protocols [
        | none ↦ done RustlsResult.null_parameter (c, w)
        | some ps ↦ take_protocols (protocols_from w.mem ps []) (c, w)
      ])

  unfoldable pub rustls_client_config_builder_set_enable_sni :
      (config : Ptr) (enable : Bool) → Cmd (World O) (Unit {0})
  rustls_client_config_builder_set_enable_sni config enable = ffi_panic_boundary (
      try_mut_from_ptr {T = ClientConfigBuilder Base K R} config
        λ (c, w). done tt (record c { enable_sni = enable }, w))

  unfoldable pub rustls_client_config_builder_set_certified_key :
      ⦃k : CastPtr O (CertifiedKey K)⦄
      → (builder certified_keys : Ptr) (certified_keys_len : ℕ) → Cmd (World O) RustlsResult
  rustls_client_config_builder_set_certified_key builder certified_keys certified_keys_len =
      ffi_panic_boundary (
        try_mut_from_ptr {T = ClientConfigBuilder Base K R} builder (
          try_slice certified_keys λ (c, w).
            (lift (
                  arcs_from (CertifiedKey K)
                    (from_raw_parts certified_keys certified_keys_len w.mem) [])
                >>= take_choices)
              (c, w)))
