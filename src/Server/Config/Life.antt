-- ===== src/Server/Config/Life.antt =====
-- The life of a server's builder and configuration in any C program that gives their calls valid
-- pointers: no call faults, no reference is lost, and none is dropped twice.
use rustls_ffi.Prelude.{◌≡◌, refl, sym, ap, ◌∙◌, ◌≢◌, inl, inr, Option, none, some, List, [], ◌∷◌}
use mathlib.Core.Path.{subst}
use native.Mathlib.Decide.{ℕ_discrete}
use rustls_ffi.Panic.{
  done, ◌>>◌, number_null, number_panic, unit_null, unit_panic, ffi_panic_boundary,
}
use rustls_ffi.Panic.Boundary.{bind-done, then-done}
use rustls_ffi.Memory.{Ptr, null, from_raw_parts}
use rustls_ffi.World.{Slot, boxed, World, put, set_heap}
use rustls_ffi.Ownership.{CastPtr, to_mut_ptr}
use rustls_ffi.Ownership.Counts.{Live, Covered}
use rustls_ffi.Ownership.Lending.{Covered-cloned}
use rustls_ffi.Ownership.Pointers.{Pointers-Leads}
use rustls_ffi.Ownership.Releasing.{Allocates, unused_now}
use rustls_ffi.Ownership.Restoring.{plus_all-none, gone-holding, restored}
use rustls_ffi.Cipher.{CertifiedKey}
use rustls_ffi.Server.Config.{ServerConfigBuilder, builder_arcs, builder_on}
use rustls_ffi.Server.Config.Setters.{rustls_server_config_builder_new}
use rustls_ffi.Server.Config.Build.{rustls_server_config_builder_free}
use rustls_ffi.Server.Config.Ends.{builder_free_lem}
use rustls_ffi.Server.Config.Script.{
  BuilderCall, set_certified_keys, set_hello_callback, set_ignore_client_order, set_alpn_protocols,
  set_persistence, set_client_verifier, set_client_verifier_optional, call, calls, MayCall,
  MayCalls, use_builder,
}
use rustls_ffi.Server.Config.Keeping.{with_builder, Keeps, held}
use rustls_ffi.Server.Config.Keeping.Keys.{keys_kept, unread_kept, callback_kept}
use rustls_ffi.Server.Config.Keeping.Fields.{order_kept, protocols_kept, persistence_kept}
use rustls_ffi.Server.Config.Keeping.Verifiers.{verifier_kept, optional_kept}

module _ {O : Type 0} (Base K V V' : Type 0) ⦃b : CastPtr O (ServerConfigBuilder Base K V V')⦄
    ⦃k : CastPtr O (CertifiedKey K)⦄ ⦃v : CastPtr O V⦄ ⦃v' : CastPtr O V'⦄ where
  module _ (p : Ptr) (w : World O) (ne : p ≢ null) (unused : w.heap p ≡ none) where
    call_kept :
        (c : BuilderCall) (s : ServerConfigBuilder Base K V V')
        → Live (builder_arcs s) w.heap
        → MayCall Base K V V' c w
        → Keeps p w ne unused c s
    call_kept (set_certified_keys at n) s live (inl z) = unread_kept p w ne unused s live at n z
    call_kept (set_certified_keys at n) s live (inr may) = elim (ℕ_discrete at null) [
      | yes z ↦ unread_kept p w ne unused s live at n z
      | no ne_at ↦
          let (keys, arcs, leads) =
            Pointers-Leads (CertifiedKey K) (from_raw_parts at n w.mem) w.heap may in
          keys_kept p w ne unused s live at n keys ne_at arcs leads
    ]
    call_kept (set_hello_callback cb) s live may = callback_kept p w ne unused s live cb
    call_kept (set_ignore_client_order ignore) s live may = order_kept p w ne unused s live ignore
    call_kept (set_alpn_protocols ps) s live may = protocols_kept p w ne unused s live ps
    call_kept (set_persistence get_cb put_cb) s live may =
        persistence_kept p w ne unused s live get_cb put_cb
    call_kept (set_client_verifier at) s live may = verifier_kept p w ne unused s live at may
    call_kept (set_client_verifier_optional at) s live may =
        optional_kept p w ne unused s live at may

    pub calls_kept :
        (cs : List BuilderCall) (s : ServerConfigBuilder Base K V V')
        → Live (builder_arcs s) w.heap
        → MayCalls Base K V V' cs w
        → (s' : ServerConfigBuilder Base K V V') × Live (builder_arcs s') w.heap
          × (calls Base K V V' p cs (with_builder p w s) ≡ done tt (with_builder p w s'))
    unfolding calls
    calls_kept [] s live may = (s, live, refl)
    calls_kept (c ∷ cs) s live (may, later) =
        let (s1, live1, e1) = call_kept c s live may in
        let (s2, live2, e2) = calls_kept cs s1 live1 later in
        (
          s2,
          live2,
          then-done (call Base K V V' p c) (calls Base K V V' p cs) (with_builder p w s) e1 e2,
        )

  module _ (alloc : World O → Ptr) (safe_defaults : Base) (w : World O)
      (fresh : Allocates alloc w) where
    -- The new builder, in the form that the calls keep.
    pub new_builder :
        rustls_server_config_builder_new K V V' alloc safe_defaults w
        ≡ done
            (alloc w)
            (with_builder (alloc w) w (builder_on {K = K} {V = V} {V' = V'} safe_defaults))
    unfolding rustls_server_config_builder_new to_mut_ptr ffi_panic_boundary
    new_builder =
        let x : Option (Slot O) =
          some (boxed (b.object (builder_on {K = K} {V = V} {V' = V'} safe_defaults))) in
        ap (λ h. done (alloc w) (set_heap w (put (alloc w) x h))) (sym (plus_all-none w.heap))

    -- A program makes a builder, makes any list of calls on it, and frees it. If the allocator gives an
    -- unused address, and each pointer to a certified key or verifier that is given to a call is NULL
    -- or stands for an Arc before the program, then the program ends without a fault, and the whole
    -- state is as it was before.
    pub use_builder_restores :
        (cs : List BuilderCall)
        → MayCalls Base K V V' cs w
        → use_builder Base K V V' alloc safe_defaults cs w ≡ done tt w
    unfolding use_builder
    use_builder_restores cs may =
        let p = alloc w in
        let (ne, unused) = unused_now alloc w fresh in
        let (s, live, ran) = calls_kept p w ne unused cs (builder_on safe_defaults) tt may in
        let x : Option (Slot O) = some (boxed (b.object s)) in
        bind-done (rustls_server_config_builder_new K V V' alloc safe_defaults)
          (λ p. calls Base K V V' p cs >> rustls_server_config_builder_free Base K V V' p) {w = w}
          new_builder
        ∙ then-done (calls Base K V V' p cs) (rustls_server_config_builder_free Base K V V' p) _ ran
            (builder_free_lem p s (with_builder p w s) ne (held p w ne unused s live) (
                subst (Covered (builder_arcs s)) (sym (gone-holding p x (builder_arcs s) w unused))
                  (Covered-cloned (builder_arcs s) w.heap live))
              ∙ ap (done tt) (restored p x (builder_arcs s) w unused live))
