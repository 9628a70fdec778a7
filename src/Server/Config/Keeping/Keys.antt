-- ===== src/Server/Config/Keeping/Keys.antt =====
-- Calls that set the resolver of certified keys.
use rustls_ffi.Prelude.{
  ℕ, ◌≡◌, refl, sym, ap, ◌∙◌, ◌≢◌, ◌⊎◌, inl, inr, Option, none, some, List, [], ◌∷◌, ◌++◌,
}
use rustls_ffi.Panic.{ffi_panic_boundary, done, result_null, result_panic, unit_null, unit_panic}
use rustls_ffi.Panic.Boundary.{boundary-done, ignoring-done}
use rustls_ffi.Memory.{Ptr, null, from_raw_parts}
use rustls_ffi.Error.Codes.{RustlsResult}
use rustls_ffi.Userdata.{FnPtr}
use rustls_ffi.World.{Slot, boxed, World, put, set_heap}
use rustls_ffi.Ownership.{CastPtr, Arc, try_slice}
use rustls_ffi.Ownership.Arcs.{addresses}
use rustls_ffi.Ownership.Counts.{plus_all, minus_all, Live}
use rustls_ffi.Ownership.Taking.{Arcs}
use rustls_ffi.Ownership.Lending.{Arcs-Live, mut_same}
use rustls_ffi.Ownership.Restoring.{plus_all-none, put-replaced, Live-++, Live-left, Arcs-holding}
use rustls_ffi.Cipher.{CertifiedKey}
use rustls_ffi.Server.Config.{ServerConfigBuilder, verifier_arcs, set_resolver_arcs, builder_arcs}
use rustls_ffi.Server.Config.Setters.{
  rustls_server_config_builder_set_certified_keys, rustls_server_config_builder_set_hello_callback,
}
use rustls_ffi.Server.Config.Keys.{with_keys, set_certified_keys_lem, set_certified_keys_null}
use rustls_ffi.Server.Config.Setting.{with_callback, hello_callback_lem}
use rustls_ffi.Server.Config.Script.{set_certified_keys, set_hello_callback, call}
use rustls_ffi.Server.Config.Keeping.{with_builder, Keeps, held, resolver-Covered}

module _ {O Base K V V' : Type 0} ⦃b : CastPtr O (ServerConfigBuilder Base K V V')⦄
    ⦃k : CastPtr O (CertifiedKey K)⦄ ⦃v : CastPtr O V⦄ ⦃v' : CastPtr O V'⦄ (p : Ptr) (w : World O)
    (ne : p ≢ null) (unused : w.heap p ≡ none) (s : ServerConfigBuilder Base K V V')
    (live : Live (builder_arcs s) w.heap) where
  -- The keys replace the Arcs of the resolver.
  pub keys_kept :
      (at : Ptr) (n : ℕ) (keys : List (Arc (CertifiedKey K)))
      → at ≢ null
      → Arcs keys w.heap
      → (from_raw_parts at n w.mem ≡ addresses keys)
        ⊎ ((rest : List Ptr) × (from_raw_parts at n w.mem ≡ addresses keys ++ null ∷ rest))
      → Keeps p w ne unused (set_certified_keys at n) s
  unfolding call
  keys_kept at n keys ne_at arcs (inl read) =
      let kept = verifier_arcs s.verifier in
      let old = set_resolver_arcs s.cert_resolver in
      let x : Option (Slot O) = some (boxed (b.object s)) in
      let y : Option (Slot O) = some (boxed (b.object (with_keys s keys))) in
      (
        with_keys s keys,
        Live-++ kept (addresses keys) w.heap (Live-left kept old w.heap live)
            (Arcs-Live keys w.heap arcs),
        ignoring-done (rustls_server_config_builder_set_certified_keys Base K V V' p at n)
              (with_builder p w s)
              (set_certified_keys_lem p at n s keys (with_builder p w s) ne ne_at
                (held p w ne unused s live) read
                (Arcs-holding keys p x (builder_arcs s) w unused arcs)
                (resolver-Covered p w ne unused s live))
            ∙ ap (λ h. done tt (set_heap w h))
                (put-replaced kept old (addresses keys) p x y w.heap live),
      )
  keys_kept at n keys ne_at arcs (inr (rest, read)) = (
    s,
    live,
    ignoring-done (rustls_server_config_builder_set_certified_keys Base K V V' p at n)
        (with_builder p w s)
        (set_certified_keys_null p at n s keys rest (with_builder p w s) ne ne_at
          (held p w ne unused s live) read
          (Arcs-holding keys p (some (boxed (b.object s))) (builder_arcs s) w unused arcs)),
  )

  pub unread_kept : (at : Ptr) (n : ℕ) → at ≡ null → Keeps p w ne unused (set_certified_keys at n) s
  unfolding call rustls_server_config_builder_set_certified_keys try_slice
  unread_kept at n z = (
    s,
    live,
    ignoring-done (rustls_server_config_builder_set_certified_keys Base K V V' p at n)
        (with_builder p w s)
        (boundary-done _ (with_builder p w s) (
          mut_same p s (with_builder p w s) _ RustlsResult.null_parameter ne
            (held p w ne unused s live) (rw z refl))),
  )

  pub callback_kept : (cb : Option FnPtr) → Keeps p w ne unused (set_hello_callback cb) s
  unfolding call rustls_server_config_builder_set_hello_callback ffi_panic_boundary
  callback_kept none = (s, live, refl)
  callback_kept (some cb) =
      let kept = verifier_arcs s.verifier in
      let old = set_resolver_arcs s.cert_resolver in
      let x : Option (Slot O) = some (boxed (b.object s)) in
      let y : Option (Slot O) = some (boxed (b.object (with_callback s cb))) in
      (
        with_callback s cb,
        Live-++ kept [] w.heap (Live-left kept old w.heap live) tt,
        ignoring-done (rustls_server_config_builder_set_hello_callback Base K V V' p (some cb))
              (with_builder p w s)
              (hello_callback_lem p cb s (with_builder p w s) ne (held p w ne unused s live)
                (resolver-Covered p w ne unused s live))
            ∙ ap (λ h. done tt (set_heap w h))
                (ap (λ h. put p y (minus_all old h))
                    (sym (plus_all-none (put p x (plus_all (kept ++ old) w.heap))))
                  ∙ put-replaced kept old [] p x y w.heap live),
      )
