-- ===== src/Client/Config/Keeping/Keys.antt =====
-- The call that sets the certified keys.
use rustls_ffi.Prelude.{
  ℕ, ◌≡◌, refl, ap, ◌∙◌, ◌≢◌, ◌⊎◌, inl, inr, Option, some, none, List, [], ◌∷◌, ◌++◌,
}
use rustls_ffi.Panic.{done, result_null, result_panic}
use rustls_ffi.Panic.Boundary.{boundary-done, ignoring-done}
use rustls_ffi.Memory.{Ptr, null, from_raw_parts}
use rustls_ffi.Error.Codes.{RustlsResult}
use rustls_ffi.World.{Slot, boxed, World, set_heap}
use rustls_ffi.Ownership.{CastPtr, Arc, try_slice}
use rustls_ffi.Ownership.Arcs.{addresses}
use rustls_ffi.Ownership.Counts.{Live}
use rustls_ffi.Ownership.Taking.{Arcs}
use rustls_ffi.Ownership.Lending.{Arcs-Live, mut_same}
use rustls_ffi.Ownership.Restoring.{put-replaced, Arcs-holding}
use rustls_ffi.Cipher.{CertifiedKey, RootCertStore, PemHost}
use rustls_ffi.Client.Config.{ClientConfigBuilder, choice_arcs}
use rustls_ffi.Client.Config.Setters.{RootFiles, rustls_client_config_builder_set_certified_key}
use rustls_ffi.Client.Config.Keys.{with_choices, set_certified_key_lem, set_certified_key_null}
use rustls_ffi.Client.Config.Script.{set_certified_key, call}
use rustls_ffi.Client.Config.Keeping.{with_builder, Keeps, held, covered}

module _ {O F Base K R : Type 0} ⦃b : CastPtr O (ClientConfigBuilder Base K R)⦄
    ⦃k : CastPtr O (CertifiedKey K)⦄ ⦃r : CastPtr O (RootCertStore R)⦄ (host : PemHost K R)
    (files : RootFiles F) (p : Ptr) (w : World O) (ne : p ≢ null) (unused : w.heap p ≡ none)
    (s : ClientConfigBuilder Base K R) (live : Live (choice_arcs s.cert_resolver) w.heap) where
  -- The keys replace those of before.
  pub keys_kept :
      (at : Ptr) (n : ℕ) (keys : List (Arc (CertifiedKey K)))
      → at ≢ null
      → Arcs keys w.heap
      → (from_raw_parts at n w.mem ≡ addresses keys)
        ⊎ ((rest : List Ptr) × (from_raw_parts at n w.mem ≡ addresses keys ++ null ∷ rest))
      → Keeps p w host files (set_certified_key at n) s
  unfolding call
  keys_kept at n keys ne_at arcs (inl read) =
      let old = choice_arcs s.cert_resolver in
      let x : Option (Slot O) = some (boxed (b.object s)) in
      let y : Option (Slot O) = some (boxed (b.object (with_choices s keys))) in
      (
        with_choices s keys,
        Arcs-Live keys w.heap arcs,
        ignoring-done (rustls_client_config_builder_set_certified_key Base K R p at n)
              (with_builder p w s)
              (set_certified_key_lem p at n s keys (with_builder p w s) ne ne_at
                (held p w unused s live) read (Arcs-holding keys p x old w unused arcs)
                (covered p w unused s live))
            ∙ ap (λ h. done tt (set_heap w h))
                (put-replaced [] old (addresses keys) p x y w.heap live),
      )
  keys_kept at n keys ne_at arcs (inr (rest, read)) = (
    s,
    live,
    ignoring-done (rustls_client_config_builder_set_certified_key Base K R p at n)
        (with_builder p w s)
        (set_certified_key_null p at n s keys rest (with_builder p w s) ne ne_at
          (held p w unused s live) read
          (Arcs-holding keys p (some (boxed (b.object s))) (choice_arcs s.cert_resolver) w unused
            arcs)),
  )

  pub unread_kept : (at : Ptr) (n : ℕ) → at ≡ null → Keeps p w host files (set_certified_key at n) s
  unfolding call rustls_client_config_builder_set_certified_key try_slice
  unread_kept at n z = (
    s,
    live,
    ignoring-done (rustls_client_config_builder_set_certified_key Base K R p at n)
        (with_builder p w s)
        (boundary-done _ (with_builder p w s) (
          mut_same p s (with_builder p w s) _ RustlsResult.null_parameter ne
            (held p w unused s live) (rw z refl))),
  )
