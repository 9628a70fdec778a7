-- ===== src/Client/Config/Keeping/Fields.antt =====
-- Calls that set a field without Arcs.
use rustls_ffi.Prelude.{
  ℕ, Bool, ◌≡◌, refl, sym, ap, ◌∙◌, ◌≢◌, ◌⊎◌, inl, inr, Option, none, some, List, [], map,
}
use rustls_ffi.Panic.{
  done, Cmd, result_null, result_panic, unit_null, unit_panic, NullParameterOrDefault,
}
use rustls_ffi.Panic.Boundary.{boundary-done, bind-done, ignoring-done}
use rustls_ffi.Memory.{Ptr, null}
use rustls_ffi.Error.Codes.{RustlsResult}
use rustls_ffi.Slice.{RustlsSliceBytes}
use rustls_ffi.Userdata.{FnPtr}
use rustls_ffi.World.{Slot, boxed, borrowed, World, put, set_heap, lift}
use rustls_ffi.Ownership.{CastPtr, shared, try_from, try_mut_from_ptr}
use rustls_ffi.Ownership.References.{try_from-shared}
use rustls_ffi.Ownership.Counts.{plus_all, Live}
use rustls_ffi.Ownership.Lending.{mut-done, lift-done}
use rustls_ffi.Ownership.Restoring.{put-put, shared-lent}
use rustls_ffi.Cipher.{CertifiedKey, RootCertStore, PemHost}
use rustls_ffi.Config.Lists.{protocol_bytes}
use rustls_ffi.Client.Config.{ClientConfigBuilder, callback_verifier, web_pki_verifier, choice_arcs}
use rustls_ffi.Client.Config.Setters.{
  RootFiles, use_store, verify_by, rustls_client_config_builder_dangerous_set_certificate_verifier,
  rustls_client_config_builder_use_roots, rustls_client_config_builder_load_roots_from_file,
  rustls_client_config_builder_set_alpn_protocols, rustls_client_config_builder_set_enable_sni,
}
use rustls_ffi.Client.Config.Roots.{load_roots_from_file_lem}
use rustls_ffi.Client.Config.Protocols.{set_alpn_protocols_lem}
use rustls_ffi.Client.Config.Script.{
  set_certificate_verifier, use_roots, load_roots_from_file, set_alpn_protocols, set_enable_sni,
  call,
}
use rustls_ffi.Client.Config.Keeping.{with_builder, Keeps, held}

module _ {O F Base K R : Type 0} ⦃b : CastPtr O (ClientConfigBuilder Base K R)⦄
    ⦃k : CastPtr O (CertifiedKey K)⦄ ⦃r : CastPtr O (RootCertStore R)⦄ (host : PemHost K R)
    (files : RootFiles F) (p : Ptr) (w : World O) (ne : p ≢ null) (unused : w.heap p ≡ none)
    (s : ClientConfigBuilder Base K R) (live : Live (choice_arcs s.cert_resolver) w.heap) where
  -- A call that sets a field without Arcs.
  field_kept :
      (s' : ClientConfigBuilder Base K R)
      → s'.cert_resolver ≡ s.cert_resolver
      → set_heap (with_builder p w s) (put p (some (boxed (b.object s'))) (with_builder p w s).heap)
        ≡ with_builder p w s'
  field_kept s' same =
      let y : Option (Slot O) = some (boxed (b.object s')) in
      ap (set_heap w)
        (put-put p (some (boxed (b.object s))) y (plus_all (choice_arcs s.cert_resolver) w.heap))
      ∙ ap (λ c. set_heap w (put p y (plus_all (choice_arcs c) w.heap))) (sym same)

  abbrev lent_state : World O
  lent_state = set_heap (with_builder p w s) (put p (some borrowed) (with_builder p w s).heap)

  -- The body of such a call, and of one that does nothing.
  module _ {A : Type 0} ⦃d : NullParameterOrDefault A⦄
      (m : Cmd (ClientConfigBuilder Base K R × World O) A) (a : A) where
    set_field :
        (s' : ClientConfigBuilder Base K R)
        → s'.cert_resolver ≡ s.cert_resolver
        → m (s, lent_state) ≡ done a (s', lent_state)
        → try_mut_from_ptr p m (with_builder p w s) ≡ done a (with_builder p w s')
    set_field s' same e =
        mut-done p s s' (with_builder p w s) m a (λ q t. t) ne (held p w unused s live) e
        ∙ ap (done a) (field_kept s' same)

  pub verifier_kept : (cb : Option FnPtr) → Keeps p w host files (set_certificate_verifier cb) s
  unfolding call rustls_client_config_builder_dangerous_set_certificate_verifier
  verifier_kept none = (
    s,
    live,
    ignoring-done (rustls_client_config_builder_dangerous_set_certificate_verifier Base K R p none)
        (with_builder p w s)
        (boundary-done _ (with_builder p w s)
          (set_field (verify_by none) RustlsResult.invalid_parameter s refl refl)),
  )
  verifier_kept (some cb) = (
    record s { verifier = callback_verifier cb },
    live,
    ignoring-done
        (rustls_client_config_builder_dangerous_set_certificate_verifier Base K R p (some cb))
        (with_builder p w s)
        (boundary-done _ (with_builder p w s) (
          set_field (verify_by (some cb)) RustlsResult.ok
            (record s { verifier = callback_verifier cb }) refl refl)),
  )

  pub sni_kept : (enable : Bool) → Keeps p w host files (set_enable_sni enable) s
  unfolding call rustls_client_config_builder_set_enable_sni
  sni_kept enable = (
    record s { enable_sni = enable },
    live,
    boundary-done _ (with_builder p w s)
        (set_field _ tt (record s { enable_sni = enable }) refl refl),
  )

  pub protocols_kept :
      (ps : Option (List RustlsSliceBytes)) → Keeps p w host files (set_alpn_protocols ps) s
  unfolding call rustls_client_config_builder_set_alpn_protocols
  protocols_kept none = (
    s,
    live,
    ignoring-done (rustls_client_config_builder_set_alpn_protocols Base K R p none)
        (with_builder p w s)
        (boundary-done _ (with_builder p w s)
          (set_field _ RustlsResult.null_parameter s refl refl)),
  )
  protocols_kept (some ps) =
      let s' = record s { alpn_protocols = map (protocol_bytes w.mem) ps } in
      let m = rustls_client_config_builder_set_alpn_protocols Base K R p (some ps) in
      elim (set_alpn_protocols_lem p ps s (with_builder p w s) ne (held p w unused s live)) [
        | inl (all, e) ↦
            (s', live, ignoring-done m (with_builder p w s) e ∙ ap (done tt) (field_kept s' refl))
        | inr (bad, e) ↦ (s, live, ignoring-done m (with_builder p w s) e)
      ]

  pub file_kept : (name : Option (List ℕ)) → Keeps p w host files (load_roots_from_file name) s
  unfolding call rustls_client_config_builder_load_roots_from_file
  file_kept none = (
    s,
    live,
    ignoring-done (rustls_client_config_builder_load_roots_from_file Base K R host files p none)
        (with_builder p w s)
        (boundary-done _ (with_builder p w s)
          (set_field _ RustlsResult.null_parameter s refl refl)),
  )
  file_kept (some name) =
      let m = rustls_client_config_builder_load_roots_from_file Base K R host files p (some name) in
      elim (load_roots_from_file_lem host files p name s (with_builder p w s) ne
        (held p w unused s live)) [
          | inl (bad, e) ↦ (s, live, ignoring-done m (with_builder p w s) e)
          | inr (ders, holds, inl (failed, e)) ↦ (s, live, ignoring-done m (with_builder p w s) e)
          | inr (ders, holds, inr (none_failed, e)) ↦
              let roots = (host.add_parsable_certificates ders []).1 in
              let s' = record s { verifier = web_pki_verifier (record { roots = roots }) } in
              (s', live, ignoring-done m (with_builder p w s) e ∙ ap (done tt) (field_kept s' refl))
        ]

  pub roots_kept :
      (roots : Ptr)
      → (roots ≡ null) ⊎ ((roots ≢ null) × (t : RootCertStore R) × (shared (w.heap roots) ≡ some t))
      → Keeps p w host files (use_roots roots) s
  unfolding call rustls_client_config_builder_use_roots try_from
  roots_kept roots (inl z) = (
    s,
    live,
    ap (λ q. call Base K R host files p (use_roots q) (with_builder p w s)) z
        ∙ ignoring-done (rustls_client_config_builder_use_roots Base K R p null)
            (with_builder p w s)
            (boundary-done _ (with_builder p w s)
              (set_field _ RustlsResult.null_parameter s refl refl)),
  )
  roots_kept roots (inr (nonnull, t, e)) =
      let s' = record s { verifier = web_pki_verifier t } in
      (
        s',
        live,
        ignoring-done (rustls_client_config_builder_use_roots Base K R p roots) (with_builder p w s)
            (boundary-done _ (with_builder p w s) (
              set_field _ RustlsResult.ok s' refl (
                bind-done (lift (try_from {T = RootCertStore R} roots)) use_store (
                  lift-done (try_from {T = RootCertStore R} roots) s _ (
                    try_from-shared roots t _ nonnull (
                      shared-lent roots p (some (boxed (b.object s))) (some borrowed)
                        (choice_arcs s.cert_resolver) w t unused e)))))),
      )
