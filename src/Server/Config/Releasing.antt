-- ===== src/Server/Config/Releasing.antt =====
-- The usual life of a key, which the documentation of `rustls_certified_key_build` describes, but for
-- the call of `rustls_certified_key_free`: it is built, given to a configuration, and the configuration
-- is freed.
use rustls_ffi.Prelude.{
  ℕ, ◌≡◌, refl, ◌∙◌, ◌<◌, ◌≢◌, ◌⊎◌, inl, inr, Option, none, some, List, [], ◌∷◌, arith,
}
use rustls_ffi.Panic.{done, Cmd, pure, ◌>>=◌}
use rustls_ffi.Panic.Boundary.{bind-done}
use rustls_ffi.Memory.{Ptr, null, from_raw_parts}
use rustls_ffi.Error.Codes.{RustlsResult}
use rustls_ffi.World.{Slot, counted, World}
use rustls_ffi.Ownership.{CastPtr, shared}
use rustls_ffi.Ownership.Releasing.{Allocates}
use rustls_ffi.Ownership.Slots.{references, put_here}
use rustls_ffi.Cipher.{CertifiedKey, PemHost, rustls_certified_key_build}
use rustls_ffi.Cipher.Keys.{
  Fails, unfound, unsupported, bad_chain, Built, with_key, rustls_certified_key_build_lem,
}
use rustls_ffi.Server.Config.{ServerConfigBuilder, ServerConfig}
use rustls_ffi.Server.Config.Script.{set_certified_keys, MayCall, use_config}
use rustls_ffi.Server.Config.Ending.{use_config_restores}

module _ {O : Type 0} (Base K V V' R : Type 0) ⦃b : CastPtr O (ServerConfigBuilder Base K V V')⦄
    ⦃c : CastPtr O (ServerConfig Base K V V')⦄ ⦃k : CastPtr O (CertifiedKey K)⦄ ⦃v : CastPtr O V⦄
    ⦃v' : CastPtr O V'⦄ (alloc : World O → Ptr) (safe_defaults : Base) where
  abbrev configure : (out : Ptr) → RustlsResult → Cmd (World O) (Unit {0})
  configure out r = elim r [
    | RustlsResult.ok ↦
        λ w. use_config Base K V V' alloc safe_defaults (set_certified_keys out 1 ∷ []) w
    | _ ↦ pure tt
  ]

  -- A key is built from two texts; if that succeeds, it is given to a builder, and the builder is built
  -- into a configuration, which is freed.
  unfoldable pub use_key :
      PemHost K R
      → (cert_chain : Ptr) (cert_chain_len : ℕ) (private_key : Ptr) (private_key_len : ℕ)
        (certified_key_out : Ptr)
      → Cmd (World O) (Unit {0})
  use_key host chain chain_len text text_len out =
      rustls_certified_key_build alloc host chain chain_len text text_len out >>= configure out

  stopped :
      {host : PemHost K R} {chain text : List ℕ} (out : Ptr) (rr : RustlsResult) (w : World O)
      → Fails host chain text rr
      → configure out rr w ≡ done tt w
  stopped out rr w (unfound absent) = refl
  stopped out rr w (unsupported der found s) = refl
  stopped out rr w (bad_chain der k found s p) = refl

  module _ (key : CertifiedKey K) (out : Ptr) (w : World O) (ne : alloc w ≢ null)
      (unused : w.heap (alloc w) ≡ none) (fresh : Allocates alloc (with_key alloc out key w)) where
    abbrev keyed : World O
    keyed = with_key alloc out key w

    stored : keyed.mem out ≡ alloc w
    stored = ground arith

    one_key :
        (h : Option (Slot O))
        → h ≡ some (counted 1 (k.object key))
        → (0 < references h) × (shared h ≡ some key)
    one_key h e = rw e (omega arith, k.rust_type-object key)

    key_given : MayCall Base K V V' (set_certified_keys out 1) keyed
    unfolding from_raw_parts
    key_given =
        let (l, e) =
          one_key (keyed.heap (alloc w))
            (put_here (alloc w) (some (counted 1 (k.object key))) w.heap) in
        inr (inr (record { at = alloc w; value = key }, stored, ((ne, l, e), tt)), tt)

    finished : configure out RustlsResult.ok keyed ≡ done tt keyed
    finished =
        use_config_restores Base K V V' alloc keyed fresh safe_defaults
          (set_certified_keys out 1 ∷ []) (key_given, tt)

  -- With two texts and a place for the key, the program ends without a fault, and one of two things
  -- holds. Either the texts hold no certified key, for one of the reasons for which a build fails, and
  -- the whole state is as it was; or they hold a key, its address has been stored at
  -- `certified_key_out`, and there is an Arc of it with one reference, the one that C owns: the
  -- references of the builder and of the configuration have been released, and nothing else has
  -- changed. The allocator gives an unused address for the key, and unused addresses after that.
  pub use_key_releases :
      (host : PemHost K R) (chain : Ptr) (chain_len : ℕ) (text : Ptr) (text_len : ℕ) (out : Ptr)
      (w : World O)
      → chain ≢ null
      → text ≢ null
      → out ≢ null
      → alloc w ≢ null
      → w.heap (alloc w) ≡ none
      → ((key : CertifiedKey K) → Allocates alloc (with_key alloc out key w))
      → let run = use_key host chain chain_len text text_len out w in
        ((rr : RustlsResult) × Fails host
            (from_raw_parts chain chain_len w.mem)
            (from_raw_parts text text_len w.mem)
            rr
          × (run ≡ done tt w))
        ⊎ ((key : CertifiedKey K) × Built host
              (from_raw_parts chain chain_len w.mem)
              (from_raw_parts text text_len w.mem)
              key
            × (run ≡ done tt (with_key alloc out key w)))
  unfolding use_key
  use_key_releases host chain chain_len text text_len out w nc nt nout ne unused fresh =
      let build = rustls_certified_key_build alloc host chain chain_len text text_len out in
      elim (rustls_certified_key_build_lem alloc host chain chain_len text text_len out w nc nt
        nout) [
          | inl (rr, bad, e) ↦
              inl (rr, bad, bind-done build (configure out) {w = w} e ∙ stopped out rr w bad)
          | inr (key, built, e) ↦ inr (
            key,
            built,
            bind-done build (configure out) {w = w} e ∙ finished key out w ne unused (fresh key),
          )
        ]
