-- ===== src/Server/Config/Lifecycle.antt =====
-- The whole life of a server's configuration that is given certified keys: no reference is lost, and
-- none is dropped twice.
use rustls_ffi.Prelude.{ℕ, ◌≡◌, refl, sym, ap, ◌∙◌, ◌≢◌, arith, Option, none, some, List}
use mathlib.Core.Path.{subst}
use rustls_ffi.Panic.{
  done, pure, ◌>>=◌, ◌>>◌, result_null, result_panic, number_null, number_panic, unit_null,
  unit_panic, ffi_panic_boundary,
}
use rustls_ffi.Panic.Boundary.{bind-done}
use rustls_ffi.Memory.{Ptr, null, from_raw_parts}
use rustls_ffi.Error.Codes.{RustlsResult}
use rustls_ffi.World.{Slot, boxed, counted, World, put, set_heap}
use rustls_ffi.Ownership.{CastPtr, Arc, to_mut_ptr, to_const_ptr}
use rustls_ffi.Ownership.References.{put-put_self}
use rustls_ffi.Ownership.Arcs.{addresses}
use rustls_ffi.Ownership.Counts.{plus_all, minus_all, Covered}
use rustls_ffi.Ownership.Taking.{Arcs}
use rustls_ffi.Ownership.Lending.{
  plus_all-gone, Covered-cloned, minus_all-plus_all, Arcs-Live, Arcs-lent,
}
use rustls_ffi.Ownership.Dropping.{gone}
use rustls_ffi.Ownership.Slots.{put_here}
use rustls_ffi.Cipher.{CertifiedKey}
use rustls_ffi.Server.Config.{ServerConfigBuilder, ServerConfig, from_choices, builder_on}
use rustls_ffi.Server.Config.Setters.{
  rustls_server_config_builder_new, rustls_server_config_builder_set_certified_keys,
}
use rustls_ffi.Server.Config.Build.{
  config_of, built, rustls_server_config_builder_free, rustls_server_config_builder_build,
  rustls_server_config_free,
}
use rustls_ffi.Server.Config.Keys.{with_keys, set_certified_keys_lem}
use rustls_ffi.Server.Config.Ends.{builder_free_lem, build_built, config_free_lem}

module _ {O Base : Type 0} (K V V' : Type 0) ⦃b : CastPtr O (ServerConfigBuilder Base K V V')⦄
    ⦃k : CastPtr O (CertifiedKey K)⦄ where
  -- The object of a new builder, and of one that has the keys.
  abbrev fresh : Base → O
  fresh base = b.object (builder_on base)

  abbrev keyed : Base → List (Arc (CertifiedKey K)) → O
  keyed base keys = b.object (with_keys (builder_on base) keys)

  -- The state after the builder at `a` has taken the keys.
  abbrev with_builder : Base → List (Arc (CertifiedKey K)) → Ptr → World O → World O
  with_builder base keys a w = set_heap w (
      put a (some (boxed (keyed base keys)))
        (plus_all (addresses keys) (put a (some (boxed (fresh base))) w.heap)))

  with_builder_held :
      (base : Base) (keys : List (Arc (CertifiedKey K))) (a : Ptr) (w : World O)
      → (with_builder base keys a w).heap a ≡ some (boxed (keyed base keys))
  with_builder_held base keys a w =
      put_here a (some (boxed (keyed base keys)))
        (plus_all (addresses keys) (put a (some (boxed (fresh base))) w.heap))

  taken :
      (base : Base) (certified_keys : Ptr) (n : ℕ) (keys : List (Arc (CertifiedKey K))) (a : Ptr)
      (w : World O)
      → a ≢ null
      → w.heap a ≡ none
      → certified_keys ≢ null
      → from_raw_parts certified_keys n w.mem ≡ addresses keys
      → Arcs keys w.heap
      → rustls_server_config_builder_set_certified_keys Base K V V' a certified_keys n
          (set_heap w (put a (some (boxed (fresh base))) w.heap))
        ≡ done RustlsResult.ok (with_builder base keys a w)
  taken base certified_keys n keys a w ne unused ke read arcs =
      let s0 : Option (Slot O) = some (boxed (fresh base)) in
      set_certified_keys_lem a certified_keys n (builder_on base) keys
        (set_heap w (put a s0 w.heap)) ne ke (put_here a s0 w.heap) read
        (Arcs-lent keys a s0 w.heap (rw unused refl) arcs) λ q. omega arith

  gone-with_builder :
      (base : Base) (keys : List (Arc (CertifiedKey K))) (a : Ptr) (w : World O)
      → w.heap a ≡ none
      → gone a (with_builder base keys a w) ≡ set_heap w (plus_all (addresses keys) w.heap)
  gone-with_builder base keys a w unused = ap (set_heap w) (
      plus_all-gone (addresses keys) a (some (boxed (keyed base keys))) (some (boxed (fresh base)))
        w.heap unused)

  module _ (alloc : World O → Ptr) (base : Base) where
    -- A new builder, at an unused address, that takes certified keys, whose pointers each stand for an
    -- Arc, and is freed: the keys are taken with Ok, and in the end the whole state is as it was before
    -- the first call.
    pub free-set_certified_keys :
        (certified_keys : Ptr) (n : ℕ) (keys : List (Arc (CertifiedKey K))) (w : World O)
        → alloc w ≢ null
        → w.heap (alloc w) ≡ none
        → certified_keys ≢ null
        → from_raw_parts certified_keys n w.mem ≡ addresses keys
        → Arcs keys w.heap
        → (rustls_server_config_builder_new K V V' alloc base >>= λ p.
              rustls_server_config_builder_set_certified_keys Base K V V' p certified_keys n
              >>= λ r. rustls_server_config_builder_free Base K V V' p >> pure r)
            w
          ≡ done RustlsResult.ok w
    unfolding rustls_server_config_builder_new to_mut_ptr ffi_panic_boundary
    free-set_certified_keys certified_keys n keys w ne unused ke read arcs =
        let a = alloc w in
        let w2 = with_builder base keys a w in
        let live = Arcs-Live keys w.heap arcs in
        bind-done (rustls_server_config_builder_set_certified_keys Base K V V' a certified_keys n)
          (λ r. rustls_server_config_builder_free Base K V V' a >> pure r)
          (taken base certified_keys n keys a w ne unused ke read arcs)
        ∙ (bind-done (rustls_server_config_builder_free Base K V V' a) (λ _. pure RustlsResult.ok)
              (builder_free_lem a (with_keys (builder_on base) keys) w2 ne
                (with_builder_held base keys a w)
                (subst (λ v. Covered (addresses keys) v.heap)
                  (sym (gone-with_builder base keys a w unused))
                  (Covered-cloned (addresses keys) w.heap live)))
            ∙ ap (λ w'. done RustlsResult.ok (set_heap w (minus_all (addresses keys) w'.heap)))
                (gone-with_builder base keys a w unused)
            ∙ ap (λ h. done RustlsResult.ok (set_heap w h))
                (minus_all-plus_all (addresses keys) w.heap live))

  module _ ⦃c : CastPtr O (ServerConfig Base K V V')⦄ (alloc : World O → Ptr) (base : Base) where
    -- A new builder that takes certified keys, whose pointers each stand for an Arc, and is built into a
    -- configuration that is freed, where the builder and the configuration have unused addresses: the
    -- keys are taken with Ok, and in the end the whole state is as it was before the first call.
    pub server_config_free-build :
        (certified_keys : Ptr) (n : ℕ) (keys : List (Arc (CertifiedKey K))) (w : World O)
        → alloc w ≢ null
        → w.heap (alloc w) ≡ none
        → (let cloned = set_heap w (plus_all (addresses keys) w.heap) in
            (alloc cloned ≢ null) × (cloned.heap (alloc cloned) ≡ none))
        → certified_keys ≢ null
        → from_raw_parts certified_keys n w.mem ≡ addresses keys
        → Arcs keys w.heap
        → (rustls_server_config_builder_new K V V' alloc base >>= λ p.
              rustls_server_config_builder_set_certified_keys Base K V V' p certified_keys n
              >>= λ r. rustls_server_config_builder_build Base K V V' alloc p >>= λ config.
                  rustls_server_config_free Base K V V' config >> pure r)
            w
          ≡ done RustlsResult.ok w
    unfolding rustls_server_config_builder_new to_mut_ptr ffi_panic_boundary to_const_ptr
    server_config_free-build certified_keys n keys w ne unused (ne', unused') ke read arcs =
        let a = alloc w in
        let s = with_keys (builder_on {K = K} {V = V} {V' = V'} base) keys in
        let built_config = config_of s (from_choices keys) in
        let cloned = set_heap w (plus_all (addresses keys) w.heap) in
        let config : Option (Slot O) = some (counted 1 (c.object built_config)) in
        let w3 = set_heap cloned (put (alloc cloned) config cloned.heap) in
        let live = Arcs-Live keys w.heap arcs in
        let gone_again = put-put_self (alloc cloned) config cloned.heap unused' in
        bind-done (rustls_server_config_builder_set_certified_keys Base K V V' a certified_keys n)
          (λ r. rustls_server_config_builder_build Base K V V' alloc a >>= λ config.
            rustls_server_config_free Base K V V' config >> pure r)
          (taken base certified_keys n keys a w ne unused ke read arcs)
        ∙ (bind-done (rustls_server_config_builder_build Base K V V' alloc a)
              (λ config. rustls_server_config_free Base K V V' config >> pure RustlsResult.ok)
              {a = alloc cloned} {w' = w3}
              (build_built alloc a s (with_builder base keys a w) ne
                (with_builder_held base keys a w)
                (ap (built alloc s (some (from_choices keys)))
                  (gone-with_builder base keys a w unused)))
            ∙ (bind-done (rustls_server_config_free Base K V V' (alloc cloned))
                  (λ _. pure RustlsResult.ok)
                  (config_free_lem (alloc cloned) built_config w3 ne'
                    (put_here (alloc cloned) config cloned.heap)
                    (subst (Covered (addresses keys)) (sym gone_again)
                      (Covered-cloned (addresses keys) w.heap live)))
                ∙ ap (λ h. done RustlsResult.ok (set_heap w (minus_all (addresses keys) h)))
                    gone_again
                ∙ ap (λ h. done RustlsResult.ok (set_heap w h))
                    (minus_all-plus_all (addresses keys) w.heap live)))
