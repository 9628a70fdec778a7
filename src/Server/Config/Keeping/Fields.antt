-- ===== src/Server/Config/Keeping/Fields.antt =====
-- Calls that set a field without Arcs.
use rustls_ffi.Prelude.{Bool, ◌≡◌, refl, sym, ap, ◌∙◌, ◌≢◌, inl, inr, Option, none, some, List, map}
use rustls_ffi.Panic.{ffi_panic_boundary, done, result_null, result_panic, unit_null, unit_panic}
use rustls_ffi.Panic.Boundary.{boundary-done, ignoring-done}
use rustls_ffi.Memory.{Ptr, null}
use rustls_ffi.Error.Codes.{RustlsResult}
use rustls_ffi.Slice.{RustlsSliceBytes}
use rustls_ffi.Userdata.{FnPtr}
use rustls_ffi.World.{Slot, boxed, World, put, set_heap}
use rustls_ffi.Ownership.{CastPtr}
use rustls_ffi.Ownership.Counts.{plus_all, Live}
use rustls_ffi.Ownership.Lending.{mut_same}
use rustls_ffi.Ownership.Restoring.{holding, put-put}
use rustls_ffi.Cipher.{CertifiedKey}
use rustls_ffi.Session.{broker_new}
use rustls_ffi.Config.Lists.{protocol_bytes}
use rustls_ffi.Server.Config.{ServerConfigBuilder, builder_arcs}
use rustls_ffi.Server.Config.Setters.{
  rustls_server_config_builder_set_ignore_client_order,
  rustls_server_config_builder_set_alpn_protocols, rustls_server_config_builder_set_persistence,
}
use rustls_ffi.Server.Config.Setting.{
  ignore_client_order_lem, server_alpn_protocols_lem, persistence_lem,
}
use rustls_ffi.Server.Config.Script.{
  set_ignore_client_order, set_alpn_protocols, set_persistence, call,
}
use rustls_ffi.Server.Config.Keeping.{with_builder, Keeps, held}

module _ {O Base K V V' : Type 0} ⦃b : CastPtr O (ServerConfigBuilder Base K V V')⦄
    ⦃k : CastPtr O (CertifiedKey K)⦄ ⦃v : CastPtr O V⦄ ⦃v' : CastPtr O V'⦄ (p : Ptr) (w : World O)
    (ne : p ≢ null) (unused : w.heap p ≡ none) (s : ServerConfigBuilder Base K V V')
    (live : Live (builder_arcs s) w.heap) where
  -- A call that sets a field without Arcs.
  field_kept :
      (s' : ServerConfigBuilder Base K V V')
      → builder_arcs s' ≡ builder_arcs s
      → set_heap (with_builder p w s) (put p (some (boxed (b.object s'))) (with_builder p w s).heap)
        ≡ with_builder p w s'
  field_kept s' same =
      let x : Option (Slot O) = some (boxed (b.object s)) in
      let y : Option (Slot O) = some (boxed (b.object s')) in
      ap (set_heap w) (put-put p x y (plus_all (builder_arcs s) w.heap))
      ∙ ap (λ ps. holding p y ps w) (sym same)

  pub order_kept : (ignore : Bool) → Keeps p w ne unused (set_ignore_client_order ignore) s
  unfolding call
  order_kept ignore =
      let s' = record s { ignore_client_order = some ignore } in
      (
        s',
        live,
        ignoring-done (rustls_server_config_builder_set_ignore_client_order Base K V V' p ignore)
              (with_builder p w s)
              (ignore_client_order_lem p ignore s (with_builder p w s) ne
                (held p w ne unused s live))
            ∙ ap (done tt) (field_kept s' refl),
      )

  pub protocols_kept :
      (ps : Option (List RustlsSliceBytes)) → Keeps p w ne unused (set_alpn_protocols ps) s
  unfolding call rustls_server_config_builder_set_alpn_protocols
  protocols_kept none = (
    s,
    live,
    ignoring-done (rustls_server_config_builder_set_alpn_protocols Base K V V' p none)
        (with_builder p w s)
        (boundary-done _ (with_builder p w s) (
          mut_same p s (with_builder p w s) _ RustlsResult.null_parameter ne
            (held p w ne unused s live) refl)),
  )
  protocols_kept (some ps) =
      let s' = record s { alpn_protocols = map (protocol_bytes w.mem) ps } in
      let m = rustls_server_config_builder_set_alpn_protocols Base K V V' p (some ps) in
      elim (server_alpn_protocols_lem p ps s (with_builder p w s) ne (held p w ne unused s live)) [
        | inl e ↦
            (s', live, ignoring-done m (with_builder p w s) e ∙ ap (done tt) (field_kept s' refl))
        | inr e ↦ (s, live, ignoring-done m (with_builder p w s) e)
      ]

  pub persistence_kept :
      (get_cb put_cb : Option FnPtr) → Keeps p w ne unused (set_persistence get_cb put_cb) s
  unfolding call rustls_server_config_builder_set_persistence ffi_panic_boundary
  persistence_kept none put_cb = (s, live, refl)
  persistence_kept (some get_cb) none = (s, live, refl)
  persistence_kept (some get_cb) (some put_cb) =
      let s' = record s { session_storage = some (broker_new get_cb put_cb) } in
      (
        s',
        live,
        ignoring-done
              (rustls_server_config_builder_set_persistence Base K V V' p (some get_cb)
                (some put_cb))
              (with_builder p w s)
              (persistence_lem p get_cb put_cb s (with_builder p w s) ne
                (held p w ne unused s live))
            ∙ ap (done tt) (field_kept s' refl),
      )
