-- ===== src/Server/Config/Ends.antt =====
-- The calls that end a server's builder or its configuration.
use rustls_ffi.Prelude.{◌≡◌, refl, ◌∙◌, ◌≢◌, ◌⊎◌, inl, inr, none, some, Option-cases}
use rustls_ffi.Panic.{done, pure, number_null, number_panic, unit_null, unit_panic}
use rustls_ffi.Panic.Boundary.{boundary-done, bind-done}
use rustls_ffi.Memory.{Ptr, null}
use rustls_ffi.World.{boxed, counted, World, put, set_heap}
use rustls_ffi.Ownership.{CastPtr, to_box, to_const_ptr, try_box_from_ptr}
use rustls_ffi.Ownership.References.{try_ref-shared}
use rustls_ffi.Ownership.Arcs.{drop_all, drop_owner}
use rustls_ffi.Ownership.Counts.{minus_all, Covered, drop_all_lem}
use rustls_ffi.Ownership.Dropping.{gone, to_box-boxed, try_box-boxed, drop_owner_last}
use rustls_ffi.Server.Config.{
  ServerConfigBuilder, ServerConfig, ServerCertResolver, verifier_arcs, builder_arcs, config_arcs,
}
use rustls_ffi.Server.Config.Build.{
  config_of, built, drop_builder, rustls_server_config_builder_free,
  rustls_server_config_builder_build, rustls_server_config_free,
}

module _ {O Base K V V' : Type 0} ⦃b : CastPtr O (ServerConfigBuilder Base K V V')⦄ where
  -- Freeing a builder frees its Box and drops the Arcs that it holds.
  pub builder_free_lem :
      (p : Ptr) (s : ServerConfigBuilder Base K V V') (w : World O)
      → p ≢ null
      → w.heap p ≡ some (boxed (b.object s))
      → Covered (builder_arcs s) (gone p w).heap
      → rustls_server_config_builder_free Base K V V' p w
        ≡ done tt (set_heap w (minus_all (builder_arcs s) (gone p w).heap))
  unfolding rustls_server_config_builder_free
  builder_free_lem p s w ne held cover = boundary-done _ w (
      bind-done (to_box {T = ServerConfigBuilder Base K V V'} p) drop_builder {w = w}
        (to_box-boxed p s w ne held)
      ∙ drop_all_lem (builder_arcs s) (gone p w) cover)

  module _ ⦃c : CastPtr O (ServerConfig Base K V V')⦄ (alloc : World O → Ptr) where
    pub build_built :
        (p : Ptr) (s : ServerConfigBuilder Base K V V') (w : World O)
        → p ≢ null
        → w.heap p ≡ some (boxed (b.object s))
        → {a : Ptr} → {w' : World O} → built alloc s s.cert_resolver (gone p w) ≡ done a w'
        → rustls_server_config_builder_build Base K V V' alloc p w ≡ done a w'
    unfolding rustls_server_config_builder_build try_box_from_ptr
    build_built p s w ne held e = boundary-done _ w (try_box-boxed p s w _ ne held ∙ e)

    pub server_build_lem :
        (p : Ptr) (s : ServerConfigBuilder Base K V V') (w : World O)
        → p ≢ null
        → w.heap p ≡ some (boxed (b.object s))
        → Covered (verifier_arcs s.verifier) (gone p w).heap
        → let run = rustls_server_config_builder_build Base K V V' alloc p w in
          ((s.cert_resolver ≡ none)
            × (run ≡ done null (set_heap w (minus_all (verifier_arcs s.verifier) (gone p w).heap))))
          ⊎ ((r : ServerCertResolver K) × (s.cert_resolver ≡ some r)
              × (config_arcs (config_of s r) ≡ builder_arcs s)
              × (let at = alloc (gone p w) in
                  run
                  ≡ done at (
                      set_heap w
                        (put at (some (counted 1 (c.object (config_of s r)))) (gone p w).heap))))
    unfolding to_const_ptr
    server_build_lem p s w ne held cover = elim (Option-cases s.cert_resolver) [
      | inl e ↦ inl (
        e,
        build_built p s w ne held (
            rw (e, built)
              (bind-done (drop_all (verifier_arcs s.verifier)) (λ _. pure null) {w = gone p w}
                (drop_all_lem (verifier_arcs s.verifier) (gone p w) cover))),
      )
      | inr (r, e) ↦ inr (
        r,
        e,
        rw (e, builder_arcs) refl,
        build_built p s w ne held (rw (e, built, to_const_ptr) refl),
      )
    ]

module _ {O Base K V V' : Type 0} ⦃c : CastPtr O (ServerConfig Base K V V')⦄ where
  -- Freeing the last reference to a configuration drops the Arcs that it holds.
  pub config_free_lem :
      (p : Ptr) (s : ServerConfig Base K V V') (w : World O)
      → p ≢ null
      → w.heap p ≡ some (counted 1 (c.object s))
      → Covered (config_arcs s) (gone p w).heap
      → rustls_server_config_free Base K V V' p w
        ≡ done tt (set_heap w (minus_all (config_arcs s) (gone p w).heap))
  unfolding rustls_server_config_free
  config_free_lem p s w ne held cover = boundary-done _ w (
      try_ref-shared p s w (λ _. drop_owner {T = ServerConfig Base K V V'} config_arcs p) ne
        (rw held (c.rust_type-object s))
      ∙ drop_owner_last config_arcs p s w held cover)
