-- ===== src/Client/Config/Life.antt =====
-- The life of a client's builder and configuration in any C program that gives their calls valid
-- pointers: no call faults, no reference is lost, and none is dropped twice.
use rustls_ffi.Prelude.{◌≡◌, refl, sym, ap, ◌∙◌, ◌≢◌, inl, inr, Option, none, some, List, [], ◌∷◌}
use mathlib.Core.Path.{subst}
use native.Mathlib.Decide.{ℕ_discrete}
use rustls_ffi.Panic.{done, ◌>>◌, number_panic, ffi_panic_boundary}
use rustls_ffi.Panic.Boundary.{bind-done, then-done}
use rustls_ffi.Memory.{Ptr, null, from_raw_parts}
use rustls_ffi.World.{Slot, boxed, World, put, set_heap}
use rustls_ffi.Ownership.{CastPtr, to_mut_ptr}
use rustls_ffi.Ownership.Counts.{Live, Covered}
use rustls_ffi.Ownership.Lending.{Covered-cloned}
use rustls_ffi.Ownership.Pointers.{Pointers-Leads}
use rustls_ffi.Ownership.Releasing.{Allocates, unused_now}
use rustls_ffi.Ownership.Restoring.{plus_all-none, gone-holding, restored}
use rustls_ffi.Cipher.{CertifiedKey, RootCertStore, PemHost}
use rustls_ffi.Client.Config.{ClientConfigBuilder, choice_arcs, builder_on}
use rustls_ffi.Client.Config.Setters.{RootFiles, rustls_client_config_builder_new}
use rustls_ffi.Client.Config.Build.{rustls_client_config_builder_free}
use rustls_ffi.Client.Config.Ends.{builder_free_lem}
use rustls_ffi.Client.Config.Script.{
  ClientBuilderCall, set_certified_key, set_certificate_verifier, use_roots, load_roots_from_file,
  set_alpn_protocols, set_enable_sni, call, calls, MayCall, MayCalls, use_client_builder,
}
use rustls_ffi.Client.Config.Keeping.{with_builder, Keeps, held}
use rustls_ffi.Client.Config.Keeping.Keys.{keys_kept, unread_kept}
use rustls_ffi.Client.Config.Keeping.Fields.{
  verifier_kept, sni_kept, protocols_kept, file_kept, roots_kept,
}

module _ {O F Base : Type 0} (K R : Type 0) ⦃b : CastPtr O (ClientConfigBuilder Base K R)⦄
    ⦃k : CastPtr O (CertifiedKey K)⦄ ⦃r : CastPtr O (RootCertStore R)⦄ (host : PemHost K R)
    (files : RootFiles F) where
  module _ (p : Ptr) (w : World O) (ne : p ≢ null) (unused : w.heap p ≡ none) where
    call_kept :
        (c : ClientBuilderCall) (s : ClientConfigBuilder Base K R)
        → Live (choice_arcs s.cert_resolver) w.heap
        → MayCall Base K R c w
        → Keeps p w host files c s
    call_kept (set_certified_key at n) s live (inl z) =
        unread_kept host files p w ne unused s live at n z
    call_kept (set_certified_key at n) s live (inr may) = elim (ℕ_discrete at null) [
      | yes z ↦ unread_kept host files p w ne unused s live at n z
      | no ne_at ↦
          let (keys, arcs, leads) =
            Pointers-Leads (CertifiedKey K) (from_raw_parts at n w.mem) w.heap may in
          keys_kept host files p w ne unused s live at n keys ne_at arcs leads
    ]
    call_kept (set_certificate_verifier cb) s live may =
        verifier_kept host files p w ne unused s live cb
    call_kept (use_roots roots) s live may = roots_kept host files p w ne unused s live roots may
    call_kept (load_roots_from_file name) s live may =
        file_kept host files p w ne unused s live name
    call_kept (set_alpn_protocols ps) s live may = protocols_kept host files p w ne unused s live ps
    call_kept (set_enable_sni enable) s live may = sni_kept host files p w ne unused s live enable

    pub calls_kept :
        (cs : List ClientBuilderCall) (s : ClientConfigBuilder Base K R)
        → Live (choice_arcs s.cert_resolver) w.heap
        → MayCalls Base K R cs w
        → (s' : ClientConfigBuilder Base K R) × Live (choice_arcs s'.cert_resolver) w.heap
          × (calls Base K R host files p cs (with_builder p w s) ≡ done tt (with_builder p w s'))
    unfolding calls
    calls_kept [] s live may = (s, live, refl)
    calls_kept (c ∷ cs) s live (may, later) =
        let (s1, live1, e1) = call_kept c s live may in
        let (s2, live2, e2) = calls_kept cs s1 live1 later in
        (
          s2,
          live2,
          then-done (call Base K R host files p c) (calls Base K R host files p cs)
              (with_builder p w s) e1 e2,
        )

  module _ (alloc : World O → Ptr) (safe_defaults : Base) (w : World O)
      (fresh : Allocates alloc w) where
    -- The new builder, in the form that the calls keep.
    pub new_builder :
        rustls_client_config_builder_new K R alloc safe_defaults w
        ≡ done (alloc w) (with_builder (alloc w) w (builder_on {K = K} {R = R} safe_defaults))
    unfolding rustls_client_config_builder_new to_mut_ptr ffi_panic_boundary
    new_builder =
        let x : Option (Slot O) =
          some (boxed (b.object (builder_on {K = K} {R = R} safe_defaults))) in
        ap (λ h. done (alloc w) (set_heap w (put (alloc w) x h))) (sym (plus_all-none w.heap))

    -- A program makes a builder, makes any list of calls on it, and frees it. If the allocator gives an
    -- unused address, and each pointer to a certified key or root store that is given to a call is NULL
    -- or stands for such an object before the program, a key in an Arc, then the program ends without a
    -- fault, and the whole state is as it was before.
    pub use_client_builder_restores :
        (cs : List ClientBuilderCall)
        → MayCalls Base K R cs w
        → use_client_builder Base K R host files alloc safe_defaults cs w ≡ done tt w
    unfolding use_client_builder
    use_client_builder_restores cs may =
        let p = alloc w in
        let (ne, unused) = unused_now alloc w fresh in
        let (s, live, ran) = calls_kept p w ne unused cs (builder_on safe_defaults) tt may in
        let x : Option (Slot O) = some (boxed (b.object s)) in
        let arcs = choice_arcs s.cert_resolver in
        bind-done (rustls_client_config_builder_new K R alloc safe_defaults)
          (λ p. calls Base K R host files p cs >> rustls_client_config_builder_free Base K R p)
          {w = w} new_builder
        ∙ then-done (calls Base K R host files p cs) (rustls_client_config_builder_free Base K R p)
            _ ran
            (builder_free_lem p s (with_builder p w s) ne (held p w unused s live) (
                subst (Covered arcs) (sym (gone-holding p x arcs w unused))
                  (Covered-cloned arcs w.heap live))
              ∙ ap (done tt) (restored p x arcs w unused live))
