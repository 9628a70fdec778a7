-- ===== src/Server/Config/Keeping/Verifiers.antt =====
-- Calls that set the verifier of client certificates.
use rustls_ffi.Prelude.{
  ◌<◌, ◌≡◌, refl, sym, ap, ◌∙◌, ◌≢◌, inl, inr, Option, none, some, [], ◌∷◌, ◌++◌,
}
use rustls_ffi.Panic.{done, result_null, result_panic, unit_null, unit_panic}
use rustls_ffi.Panic.Boundary.{boundary-done}
use rustls_ffi.Memory.{Ptr, null}
use rustls_ffi.World.{Slot, boxed, World, put, set_heap}
use rustls_ffi.Ownership.{CastPtr, Arc, to_arc}
use rustls_ffi.Ownership.Counts.{plus_all, minus_all, Live}
use rustls_ffi.Ownership.Lending.{mut_same}
use rustls_ffi.Ownership.Pointers.{Pointer}
use rustls_ffi.Ownership.Restoring.{
  holding, put-replaced, Live-++, Live-left, Live-right, plus_all-swap, Arcs-holding,
}
use rustls_ffi.Ownership.Slots.{references}
use rustls_ffi.Cipher.{CertifiedKey}
use rustls_ffi.Server.Config.{
  ServerConfigBuilder, ClientCertVerifier, any_authenticated, any_anonymous_or_authenticated,
  verifier_arcs, set_resolver_arcs, builder_arcs,
}
use rustls_ffi.Server.Config.Setters.{
  rustls_server_config_builder_set_client_verifier,
  rustls_server_config_builder_set_client_verifier_optional,
}
use rustls_ffi.Server.Config.Setting.{client_verifier_lem, client_verifier_optional_lem}
use rustls_ffi.Server.Config.Script.{set_client_verifier, set_client_verifier_optional, call}
use rustls_ffi.Server.Config.Keeping.{with_builder, Keeps, held, verifier-Covered}

module _ {O Base K V V' : Type 0} ⦃b : CastPtr O (ServerConfigBuilder Base K V V')⦄
    ⦃k : CastPtr O (CertifiedKey K)⦄ ⦃v : CastPtr O V⦄ ⦃v' : CastPtr O V'⦄ (p : Ptr) (w : World O)
    (ne : p ≢ null) (unused : w.heap p ≡ none) (s : ServerConfigBuilder Base K V V')
    (live : Live (builder_arcs s) w.heap) where
  -- A verifier replaces the Arc of the one before.
  verifier_replaced :
      {T : Type 0}
      → (wrap : Arc T → ClientCertVerifier V V') (a : Arc T) → 0 < references (w.heap a.at)
      → verifier_arcs (wrap a) ≡ a.at ∷ []
      → let s' = record s { verifier = wrap a } in
        Live (builder_arcs s') w.heap
        × (set_heap (with_builder p w s) (
              put p (some (boxed (b.object s'))) (
                minus_all
                  (verifier_arcs s.verifier)
                  (plus_all (a.at ∷ []) (with_builder p w s).heap)))
            ≡ with_builder p w s')
  verifier_replaced wrap a l wraps =
      let s' = record s { verifier = wrap a } in
      let old = verifier_arcs s.verifier in
      let kept = set_resolver_arcs s.cert_resolver in
      let x : Option (Slot O) = some (boxed (b.object s)) in
      let y : Option (Slot O) = some (boxed (b.object s')) in
      (
        rw wraps (l, Live-right old kept w.heap live),
        ap (λ h. set_heap w (put p y (minus_all old (plus_all (a.at ∷ []) (put p x h)))))
              (plus_all-swap old kept w.heap)
            ∙ (ap (set_heap w) (
                  put-replaced kept old (a.at ∷ []) p x y w.heap (
                    Live-++ kept old w.heap (Live-right old kept w.heap live)
                      (Live-left old kept w.heap live)))
                ∙ (ap (λ h. set_heap w (put p y h)) (plus_all-swap kept (a.at ∷ []) w.heap)
                    ∙ ap (λ ps. holding p y (ps ++ kept) w) (sym wraps))),
      )

  pub verifier_kept :
      (at : Ptr) → Pointer V at w.heap → Keeps p w ne unused (set_client_verifier at) s
  unfolding call rustls_server_config_builder_set_client_verifier to_arc
  verifier_kept at (inl z) = (
    s,
    live,
    ap (λ q. rustls_server_config_builder_set_client_verifier Base K V V' p q (with_builder p w s))
          z
        ∙ boundary-done _ (with_builder p w s)
            (mut_same p s (with_builder p w s) _ tt ne (held p w ne unused s live) refl),
  )
  verifier_kept at (inr (a, is, ((nz, l, e), nil))) =
      let x : Option (Slot O) = some (boxed (b.object s)) in
      let (live', same) = verifier_replaced any_authenticated a l refl in
      (
        record s { verifier = any_authenticated a },
        live',
        ap
              (λ q.
                rustls_server_config_builder_set_client_verifier Base K V V' p q
                  (with_builder p w s))
              is
            ∙ (client_verifier_lem p a s (with_builder p w s) ne (held p w ne unused s live)
                  (Arcs-holding (a ∷ []) p x (builder_arcs s) w unused ((nz, l, e), nil))
                  (verifier-Covered p w ne unused s live)
                ∙ ap (done tt) same),
      )

  pub optional_kept :
      (at : Ptr) → Pointer V' at w.heap → Keeps p w ne unused (set_client_verifier_optional at) s
  unfolding call rustls_server_config_builder_set_client_verifier_optional to_arc
  optional_kept at (inl z) = (
    s,
    live,
    ap
          (λ q.
            rustls_server_config_builder_set_client_verifier_optional Base K V V' p q
              (with_builder p w s))
          z
        ∙ boundary-done _ (with_builder p w s)
            (mut_same p s (with_builder p w s) _ tt ne (held p w ne unused s live) refl),
  )
  optional_kept at (inr (a, is, ((nz, l, e), nil))) =
      let x : Option (Slot O) = some (boxed (b.object s)) in
      let (live', same) = verifier_replaced any_anonymous_or_authenticated a l refl in
      (
        record s { verifier = any_anonymous_or_authenticated a },
        live',
        ap
              (λ q.
                rustls_server_config_builder_set_client_verifier_optional Base K V V' p q
                  (with_builder p w s))
              is
            ∙ (client_verifier_optional_lem p a s (with_builder p w s) ne
                  (held p w ne unused s live)
                  (Arcs-holding (a ∷ []) p x (builder_arcs s) w unused ((nz, l, e), nil))
                  (verifier-Covered p w ne unused s live)
                ∙ ap (done tt) same),
      )
