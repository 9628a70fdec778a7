-- ===== src/Client/Config/Ending.antt =====
-- The end of a client's builder and configuration in such a C program.
use rustls_ffi.Prelude.{◌≡◌, refl, sym, ap, ◌∙◌, Option, some, List}
use mathlib.Core.Path.{subst}
use rustls_ffi.Panic.{done, ◌>>=◌, ◌>>◌}
use rustls_ffi.Panic.Boundary.{bind-done, then-done}
use rustls_ffi.Memory.{Ptr}
use rustls_ffi.World.{Slot, boxed, counted, World, put, set_heap}
use rustls_ffi.Ownership.{CastPtr}
use rustls_ffi.Ownership.References.{put-put_self}
use rustls_ffi.Ownership.Counts.{plus_all, minus_all, Live, Covered}
use rustls_ffi.Ownership.Lending.{Covered-cloned, minus_all-plus_all}
use rustls_ffi.Ownership.Releasing.{Allocates, unused_now, unused_later}
use rustls_ffi.Ownership.Slots.{put_here}
use rustls_ffi.Cipher.{CertifiedKey, RootCertStore, PemHost}
use rustls_ffi.Client.Config.{ClientConfigBuilder, ClientConfig, choice_arcs, builder_on}
use rustls_ffi.Client.Config.Setters.{RootFiles, rustls_client_config_builder_new}
use rustls_ffi.Client.Config.Build.{
  config_of, rustls_client_config_builder_build, rustls_client_config_free,
}
use rustls_ffi.Client.Config.Ends.{client_build_lem, config_free_lem}
use rustls_ffi.Client.Config.Script.{ClientBuilderCall, calls, MayCalls, use_client_config}
use rustls_ffi.Client.Config.Life.{calls_kept, new_builder}

module _ {O : Type 0} (Base K R : Type 0) ⦃b : CastPtr O (ClientConfigBuilder Base K R)⦄
    ⦃c : CastPtr O (ClientConfig Base K R)⦄ (alloc : World O → Ptr) (w : World O)
    (fresh : Allocates alloc w) where
  module _ (s : ClientConfigBuilder Base K R)
      (live : Live (choice_arcs s.cert_resolver) w.heap) where
    -- The state without the builder, in which its Arcs still have their references.
    abbrev between : World O
    between = set_heap w (plus_all (choice_arcs s.cert_resolver) w.heap)

    -- The builder's Arcs go over to a configuration, and with it.
    end_config :
        (rustls_client_config_builder_build Base K R alloc (alloc w) >>= λ config.
        rustls_client_config_free Base K R config)
          (set_heap between (put (alloc w) (some (boxed (b.object s))) between.heap))
        ≡ done tt w
    end_config =
        let p = alloc w in
        let (ne, unused) = unused_now alloc w fresh in
        let arcs = choice_arcs s.cert_resolver in
        let (ne', unused') = unused_later alloc w fresh arcs in
        let x : Option (Slot O) = some (boxed (b.object s)) in
        let y : Option (Slot O) = some (counted 1 (c.object (config_of s))) in
        let again = put-put_self (alloc between) y between.heap unused' in
        bind-done (rustls_client_config_builder_build Base K R alloc p)
          (rustls_client_config_free Base K R)
          (client_build_lem alloc p s (set_heap between (put p x between.heap)) ne
              (put_here p x between.heap)
            ∙ ap (λ h. let u = set_heap w h in done (alloc u) (set_heap u (put (alloc u) y u.heap)))
                (put-put_self p x between.heap (rw unused refl)))
        ∙ (config_free_lem (alloc between) (config_of s)
              (set_heap between (put (alloc between) y between.heap)) ne'
              (put_here (alloc between) y between.heap)
              (subst (Covered arcs) (sym again) (Covered-cloned arcs w.heap live))
            ∙ (ap (λ h. done tt (set_heap w (minus_all arcs h))) again
                ∙ ap (λ h. done tt (set_heap w h)) (minus_all-plus_all arcs w.heap live)))

  -- A program makes a builder, makes any list of calls on it, builds the builder, and frees the
  -- configuration that it gets. The allocator gives unused addresses, and each pointer to a certified
  -- key or root store that is given to a call is NULL or stands for such an object before the program,
  -- a key in an Arc. Then the program ends without a fault, and the whole state is as it was before it:
  -- no reference that C owns is lost, and none is left over.
  pub use_client_config_restores :
      {F : Type 0} ⦃k : CastPtr O (CertifiedKey K)⦄ ⦃r : CastPtr O (RootCertStore R)⦄
      → (host : PemHost K R) (files : RootFiles F) (safe_defaults : Base)
        (cs : List ClientBuilderCall)
      → MayCalls Base K R cs w
      → use_client_config Base K R host files alloc safe_defaults cs w ≡ done tt w
  unfolding use_client_config
  use_client_config_restores host files safe_defaults cs may =
      let p = alloc w in
      let (ne, unused) = unused_now alloc w fresh in
      let (s, live, ran) =
        calls_kept K R host files p w ne unused cs (builder_on safe_defaults) tt may in
      let end = λ (p : Ptr). rustls_client_config_builder_build Base K R alloc p >>= λ config.
      rustls_client_config_free Base K R config in
      bind-done (rustls_client_config_builder_new K R alloc safe_defaults)
        (λ p. calls Base K R host files p cs >> end p) {w = w}
        (new_builder K R host files alloc safe_defaults w fresh)
      ∙ then-done (calls Base K R host files p cs) (end p) _ ran (end_config s live)
