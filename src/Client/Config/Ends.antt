-- ===== src/Client/Config/Ends.antt =====
-- The calls that end a client's builder or its configuration.
use rustls_ffi.Prelude.{◌≡◌, ◌∙◌, ◌≢◌, some}
use rustls_ffi.Panic.{done, number_null, number_panic, unit_null, unit_panic}
use rustls_ffi.Panic.Boundary.{boundary-done, bind-done}
use rustls_ffi.Memory.{Ptr, null}
use rustls_ffi.World.{boxed, counted, World, put, set_heap}
use rustls_ffi.Ownership.{CastPtr, to_box, to_const_ptr}
use rustls_ffi.Ownership.References.{try_ref-shared}
use rustls_ffi.Ownership.Counts.{minus_all, Covered, drop_all_lem}
use rustls_ffi.Ownership.Dropping.{gone, to_box-boxed, try_box-boxed, drop_owner_last}
use rustls_ffi.Client.Config.{ClientConfigBuilder, ClientConfig, choice_arcs}
use rustls_ffi.Client.Config.Build.{
  config_of, drop_builder, drop_config, rustls_client_config_builder_free,
  rustls_client_config_builder_build, rustls_client_config_free,
}

module _ {O Base K R : Type 0} ⦃b : CastPtr O (ClientConfigBuilder Base K R)⦄ where
  -- Freeing a builder frees its Box and drops the Arcs that it holds.
  pub builder_free_lem :
      (p : Ptr) (s : ClientConfigBuilder Base K R) (w : World O)
      → p ≢ null
      → w.heap p ≡ some (boxed (b.object s))
      → Covered (choice_arcs s.cert_resolver) (gone p w).heap
      → rustls_client_config_builder_free Base K R p w
        ≡ done tt (set_heap w (minus_all (choice_arcs s.cert_resolver) (gone p w).heap))
  unfolding rustls_client_config_builder_free
  builder_free_lem p s w ne held cover = boundary-done _ w (
      bind-done (to_box {T = ClientConfigBuilder Base K R} p) drop_builder {w = w}
        (to_box-boxed p s w ne held)
      ∙ drop_all_lem (choice_arcs s.cert_resolver) (gone p w) cover)

  module _ ⦃c : CastPtr O (ClientConfig Base K R)⦄ (alloc : World O → Ptr) where
    -- Building takes the builder's Box and gives a configuration with all its settings, in an Arc with
    -- one reference, which holds the Arcs that the builder held. Nothing else changes.
    pub client_build_lem :
        (p : Ptr) (s : ClientConfigBuilder Base K R) (w : World O)
        → p ≢ null
        → w.heap p ≡ some (boxed (b.object s))
        → let at = alloc (gone p w) in
          rustls_client_config_builder_build Base K R alloc p w
          ≡ done at
              (set_heap w (put at (some (counted 1 (c.object (config_of s)))) (gone p w).heap))
    unfolding rustls_client_config_builder_build to_const_ptr
    client_build_lem p s w ne held = boundary-done _ w (try_box-boxed p s w _ ne held)

module _ {O Base K R : Type 0} ⦃c : CastPtr O (ClientConfig Base K R)⦄ where
  -- Freeing the last reference to a configuration drops the Arcs that it holds.
  pub config_free_lem :
      (p : Ptr) (s : ClientConfig Base K R) (w : World O)
      → p ≢ null
      → w.heap p ≡ some (counted 1 (c.object s))
      → Covered (choice_arcs s.cert_resolver) (gone p w).heap
      → rustls_client_config_free Base K R p w
        ≡ done tt (set_heap w (minus_all (choice_arcs s.cert_resolver) (gone p w).heap))
  unfolding rustls_client_config_free
  config_free_lem p s w ne held cover = boundary-done _ w (
      try_ref-shared p s w (λ _. drop_config Base K R p) ne (rw held (c.rust_type-object s))
      ∙ drop_owner_last (λ c. choice_arcs c.cert_resolver) p s w held cover)
