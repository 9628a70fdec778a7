-- ===== src/Client/Config/Keeping.antt =====
-- What each call of a C program on a client's builder keeps: the state differs by the builder and its
-- Arcs only from the one without it.
pub mod Keys
pub mod Fields
use rustls_ffi.Prelude.{◌≡◌, ◌≢◌, Option, none, some}
use rustls_ffi.Panic.{done}
use rustls_ffi.Memory.{Ptr, null}
use rustls_ffi.World.{boxed, World}
use rustls_ffi.Ownership.{CastPtr}
use rustls_ffi.Ownership.Counts.{plus_all, Live, Covered}
use rustls_ffi.Ownership.Restoring.{holding, Covered-holding}
use rustls_ffi.Ownership.Slots.{put_here}
use rustls_ffi.Cipher.{CertifiedKey, RootCertStore, PemHost}
use rustls_ffi.Client.Config.{ClientConfigBuilder, choice_arcs}
use rustls_ffi.Client.Config.Setters.{RootFiles}
use rustls_ffi.Client.Config.Script.{ClientBuilderCall, call}

-- The state `w` with a builder at p besides, and the references of the Arcs that it holds.
module _ {O Base K R : Type 0} ⦃b : CastPtr O (ClientConfigBuilder Base K R)⦄ (p : Ptr)
    (w : World O) where
  abbrev pub with_builder : ClientConfigBuilder Base K R → World O
  with_builder s = holding p (some (boxed (b.object s))) (choice_arcs s.cert_resolver) w

  module _ {F : Type 0} ⦃k : CastPtr O (CertifiedKey K)⦄ ⦃r : CastPtr O (RootCertStore R)⦄
      (host : PemHost K R) (files : RootFiles F) where
    -- A call keeps the state of this form.
    abbrev pub Keeps : ClientBuilderCall → ClientConfigBuilder Base K R → Type 0
    Keeps c s =
        (s' : ClientConfigBuilder Base K R) × Live (choice_arcs s'.cert_resolver) w.heap
        × (call Base K R host files p c (with_builder s) ≡ done tt (with_builder s'))

  module _ (unused : w.heap p ≡ none) (s : ClientConfigBuilder Base K R)
      (live : Live (choice_arcs s.cert_resolver) w.heap) where
    pub held : (with_builder s).heap p ≡ some (boxed (b.object s))
    held = put_here p (some (boxed (b.object s))) (plus_all (choice_arcs s.cert_resolver) w.heap)

    pub covered : Covered (choice_arcs s.cert_resolver) (with_builder s).heap
    covered =
        Covered-holding p (some (boxed (b.object s))) (choice_arcs s.cert_resolver) w unused live
