-- ===== src/Server/Config/Ending.antt =====
-- The end of a server's builder and configuration in such a C program.
use rustls_ffi.Prelude.{◌≡◌, refl, sym, ap, ◌∙◌, inl, inr, Option, none, some, List}
use mathlib.Core.Path.{subst}
use mathlib.Core.List.{append-nil}
use rustls_ffi.Panic.{
  done, ◌>>=◌, ◌>>◌, number_null, number_panic, unit_null, unit_panic, ffi_panic_boundary,
}
use rustls_ffi.Panic.Boundary.{bind-done, then-done}
use rustls_ffi.Memory.{Ptr, null}
use rustls_ffi.World.{Slot, boxed, counted, World, put, set_heap}
use rustls_ffi.Ownership.{CastPtr, try_from, try_ref_from_ptr}
use rustls_ffi.Ownership.References.{put-put_self}
use rustls_ffi.Ownership.Counts.{plus_all, minus_all, Live, Covered}
use rustls_ffi.Ownership.Lending.{Covered-cloned, minus_all-plus_all}
use rustls_ffi.Ownership.Replacing.{Covered-left}
use rustls_ffi.Ownership.Releasing.{Allocates, unused_now, unused_later}
use rustls_ffi.Ownership.Slots.{put_here}
use rustls_ffi.Cipher.{CertifiedKey}
use rustls_ffi.Server.Config.{
  ServerConfigBuilder, ServerConfig, verifier_arcs, set_resolver_arcs, builder_arcs, config_arcs,
  builder_on,
}
use rustls_ffi.Server.Config.Setters.{rustls_server_config_builder_new}
use rustls_ffi.Server.Config.Build.{
  config_of, rustls_server_config_builder_build, rustls_server_config_free,
}
use rustls_ffi.Server.Config.Ends.{server_build_lem, config_free_lem}
use rustls_ffi.Server.Config.Script.{BuilderCall, calls, MayCalls, use_config}
use rustls_ffi.Server.Config.Life.{calls_kept, new_builder}

module _ {O : Type 0} (Base K V V' : Type 0) ⦃b : CastPtr O (ServerConfigBuilder Base K V V')⦄
    ⦃c : CastPtr O (ServerConfig Base K V V')⦄ (alloc : World O → Ptr) (w : World O)
    (fresh : Allocates alloc w) where
  free_null : rustls_server_config_free Base K V V' null w ≡ done tt w
  unfolding rustls_server_config_free ffi_panic_boundary try_ref_from_ptr try_from
  free_null = refl

  module _ (s : ServerConfigBuilder Base K V V') (live : Live (builder_arcs s) w.heap) where
    -- The state without the builder, in which its Arcs still have their references.
    abbrev between : World O
    between = set_heap w (plus_all (builder_arcs s) w.heap)

    -- The builder's Arcs go over to a configuration, and with it.
    end_config :
        (rustls_server_config_builder_build Base K V V' alloc (alloc w) >>= λ config.
        rustls_server_config_free Base K V V' config)
          (set_heap between (put (alloc w) (some (boxed (b.object s))) between.heap))
        ≡ done tt w
    end_config =
        let p = alloc w in
        let (ne, unused) = unused_now alloc w fresh in
        let (ne', unused') = unused_later alloc w fresh (builder_arcs s) in
        let x : Option (Slot O) = some (boxed (b.object s)) in
        let arcs = builder_arcs s in
        let g : put p none (put p x between.heap) ≡ between.heap =
          put-put_self p x between.heap (rw unused refl) in
        let covered = Covered-cloned arcs w.heap live in
        let next = rustls_server_config_free Base K V V' in
        let dropped = minus_all-plus_all arcs w.heap live in
        elim (server_build_lem alloc p s (set_heap between (put p x between.heap)) ne
          (put_here p x between.heap)
          (Covered-left (verifier_arcs s.verifier) (set_resolver_arcs s.cert_resolver)
            (put p none (put p x between.heap)) (subst (Covered arcs) (sym g) covered))) [
              | inl (e, ran) ↦
                  bind-done (rustls_server_config_builder_build Base K V V' alloc p) next (
                    ran
                    ∙ ap (done null) (
                        ap (λ ps. set_heap w (minus_all ps (put p none (put p x between.heap))))
                          (sym (rw e (append-nil (verifier_arcs s.verifier))))
                        ∙ (ap (λ h. set_heap w (minus_all arcs h)) g ∙ ap (set_heap w) dropped)))
                  ∙ free_null
              | inr (r, e, same, ran) ↦
                  let y : Option (Slot O) = some (counted 1 (c.object (config_of s r))) in
                  let again = put-put_self (alloc between) y between.heap unused' in
                  bind-done (rustls_server_config_builder_build Base K V V' alloc p) next (
                    ran
                    ∙ ap
                        (λ h.
                          let u = set_heap w h in
                          done (alloc u) (set_heap u (put (alloc u) y u.heap)))
                        g)
                  ∙ (config_free_lem (alloc between) (config_of s r)
                        (set_heap between (put (alloc between) y between.heap)) ne'
                        (put_here (alloc between) y between.heap)
                        (subst (Covered (config_arcs (config_of s r))) (sym again)
                          (subst (λ ps. Covered ps between.heap) (sym same) covered))
                      ∙ (ap (λ h. done tt (set_heap w (minus_all (config_arcs (config_of s r)) h)))
                            again
                          ∙ (ap (λ ps. done tt (set_heap w (minus_all ps between.heap))) same
                              ∙ ap (λ h. done tt (set_heap w h)) dropped)))
            ]

  -- A program makes a builder, makes any list of calls on it, builds the builder, and frees the
  -- configuration, or the NULL, that it gets. The allocator gives unused addresses, and each pointer to
  -- a certified key or verifier that is given to a call is NULL or stands for an Arc before the
  -- program. Then the program ends without a fault, and the whole state is as it was before it: no
  -- reference that C owns is lost, and none is left over.
  pub use_config_restores :
      ⦃k : CastPtr O (CertifiedKey K)⦄ ⦃v : CastPtr O V⦄ ⦃v' : CastPtr O V'⦄
      → (safe_defaults : Base) (cs : List BuilderCall) → MayCalls Base K V V' cs w
      → use_config Base K V V' alloc safe_defaults cs w ≡ done tt w
  unfolding use_config
  use_config_restores safe_defaults cs may =
      let p = alloc w in
      let (ne, unused) = unused_now alloc w fresh in
      let (s, live, ran) =
        calls_kept Base K V V' p w ne unused cs (builder_on safe_defaults) tt may in
      let end = λ (p : Ptr). rustls_server_config_builder_build Base K V V' alloc p >>= λ config.
      rustls_server_config_free Base K V V' config in
      bind-done (rustls_server_config_builder_new K V V' alloc safe_defaults)
        (λ p. calls Base K V V' p cs >> end p) {w = w}
        (new_builder Base K V V' alloc safe_defaults w fresh)
      ∙ then-done (calls Base K V V' p cs) (end p) _ ran (end_config s live)
