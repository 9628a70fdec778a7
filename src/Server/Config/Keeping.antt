-- ===== src/Server/Config/Keeping.antt =====
-- What each call of a C program on a server's builder keeps: the state differs by the builder and its
-- Arcs only from the one without it.
pub mod Keys
pub mod Fields
pub mod Verifiers
use rustls_ffi.Prelude.{◌≡◌, ◌≢◌, Option, none, some}
use rustls_ffi.Panic.{done}
use rustls_ffi.Memory.{Ptr, null}
use rustls_ffi.World.{boxed, World}
use rustls_ffi.Ownership.{CastPtr}
use rustls_ffi.Ownership.Counts.{plus_all, Live, Covered}
use rustls_ffi.Ownership.Replacing.{Covered-left, Covered-right}
use rustls_ffi.Ownership.Restoring.{holding, Covered-holding}
use rustls_ffi.Ownership.Slots.{put_here}
use rustls_ffi.Cipher.{CertifiedKey}
use rustls_ffi.Server.Config.{ServerConfigBuilder, verifier_arcs, set_resolver_arcs, builder_arcs}
use rustls_ffi.Server.Config.Script.{BuilderCall, call}

-- The state `w` with a builder at p besides, and the references of the Arcs that it holds.
module _ {O Base K V V' : Type 0} ⦃b : CastPtr O (ServerConfigBuilder Base K V V')⦄ (p : Ptr)
    (w : World O) where
  abbrev pub with_builder : ServerConfigBuilder Base K V V' → World O
  with_builder s = holding p (some (boxed (b.object s))) (builder_arcs s) w

  module _ ⦃k : CastPtr O (CertifiedKey K)⦄ ⦃v : CastPtr O V⦄ ⦃v' : CastPtr O V'⦄ (ne : p ≢ null)
      (unused : w.heap p ≡ none) where
    -- A call keeps the state of this form.
    abbrev pub Keeps : BuilderCall → ServerConfigBuilder Base K V V' → Type 0
    Keeps c s =
        (s' : ServerConfigBuilder Base K V V') × Live (builder_arcs s') w.heap
        × (call Base K V V' p c (with_builder s) ≡ done tt (with_builder s'))

    module _ (s : ServerConfigBuilder Base K V V') (live : Live (builder_arcs s) w.heap) where
      pub held : (with_builder s).heap p ≡ some (boxed (b.object s))
      held = put_here p (some (boxed (b.object s))) (plus_all (builder_arcs s) w.heap)

      covered : Covered (builder_arcs s) (with_builder s).heap
      covered = Covered-holding p (some (boxed (b.object s))) (builder_arcs s) w unused live

      pub verifier-Covered : Covered (verifier_arcs s.verifier) (with_builder s).heap
      verifier-Covered =
          Covered-left (verifier_arcs s.verifier) (set_resolver_arcs s.cert_resolver)
            (with_builder s).heap covered

      pub resolver-Covered : Covered (set_resolver_arcs s.cert_resolver) (with_builder s).heap
      resolver-Covered =
          Covered-right (verifier_arcs s.verifier) (set_resolver_arcs s.cert_resolver)
            (with_builder s).heap covered
