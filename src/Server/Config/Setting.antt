-- ===== src/Server/Config/Setting.antt =====
-- What the calls that set a field of a server's builder do.
use rustls_ffi.Prelude.{Bool, ◌≡◌, refl, sym, ap, ◌∙◌, ◌≢◌, ◌⊎◌, inl, inr, some, List, [], ◌∷◌, map}
use mathlib.Core.Path.{subst}
use rustls_ffi.Panic.{done, pure, ◌>>=◌, result_null, result_panic, unit_panic}
use rustls_ffi.Panic.Boundary.{boundary-done, bind-done, then-done}
use rustls_ffi.Memory.{Ptr, null}
use rustls_ffi.Error.Codes.{RustlsResult}
use rustls_ffi.Userdata.{FnPtr}
use rustls_ffi.World.{boxed, borrowed, World, put, set_heap, lift}
use rustls_ffi.Ownership.{CastPtr, Arc, to_arc, try_mut_from_ptr}
use rustls_ffi.Ownership.Arcs.{drop_all}
use rustls_ffi.Ownership.Counts.{plus_all, minus_all, Covered, drop_all_lem}
use rustls_ffi.Ownership.Taking.{Arcs, to_arc-retained}
use rustls_ffi.Ownership.Lending.{
  Covered-put, lift-done, mut-done, Arcs-lent, Covered-plus_all, mut_same,
}
use rustls_ffi.Ownership.Slots.{occurrences, references, plus, minus}
use rustls_ffi.Server.Config.{
  ServerConfigBuilder, ServerCertResolver, from_callback, verifier_arcs, set_resolver_arcs,
  set_resolver, ClientCertVerifier, any_authenticated, any_anonymous_or_authenticated,
}
use rustls_ffi.Slice.{RustlsSliceBytes}
use rustls_ffi.Session.{broker_new}
use rustls_ffi.Config.Lists.{protocol_bytes, protocols_from_lem}
use rustls_ffi.Server.Config.Setters.{
  rustls_server_config_builder_set_client_verifier,
  rustls_server_config_builder_set_client_verifier_optional, take_protocols, take_verifier,
  rustls_server_config_builder_set_alpn_protocols, rustls_server_config_builder_set_persistence,
  rustls_server_config_builder_set_hello_callback,
  rustls_server_config_builder_set_ignore_client_order,
}
use rustls_ffi.Ownership.Replacing.{plus_all-one}

-- The builder with a callback for client hellos.
abbrev pub with_callback :
    {Base K V V' : Type 0}
    → ServerConfigBuilder Base K V V'
    → FnPtr
    → ServerConfigBuilder Base K V V'
with_callback s cb = record s { cert_resolver = some (from_callback (record { callback = cb })) }

module _ {O Base K V V' : Type 0} ⦃b : CastPtr O (ServerConfigBuilder Base K V V')⦄ where
  pub hello_callback_lem :
      (p : Ptr) (cb : FnPtr) (s : ServerConfigBuilder Base K V V') (w : World O)
      → p ≢ null
      → w.heap p ≡ some (boxed (b.object s))
      → Covered (set_resolver_arcs s.cert_resolver) w.heap
      → rustls_server_config_builder_set_hello_callback Base K V V' p (some cb) w
        ≡ done RustlsResult.ok (
            set_heap w (
              put p
                (some (boxed (b.object (with_callback s cb))))
                (minus_all (set_resolver_arcs s.cert_resolver) w.heap)))
  unfolding rustls_server_config_builder_set_hello_callback
  hello_callback_lem p cb s w ne held cover =
      let old = set_resolver_arcs s.cert_resolver in
      let r : ServerCertResolver K = from_callback (record { callback = cb }) in
      let lent = set_heap w (put p (some borrowed) w.heap) in
      boundary-done _ w (
        mut-done p s (with_callback s cb) w _ RustlsResult.ok (λ q t. minus (occurrences q old) t)
          ne held
          (then-done (set_resolver {O = O} {Base = Base} {V = V} {V' = V'} r) (pure RustlsResult.ok)
            (s, lent)
            (bind-done (lift (drop_all old)) _ (
              lift-done (drop_all old) s lent (
                drop_all_lem old lent
                  (Covered-put old p (some borrowed) w.heap (rw held refl) cover))))
            refl))

  pub ignore_client_order_lem :
      (p : Ptr) (ignore : Bool) (s : ServerConfigBuilder Base K V V') (w : World O)
      → p ≢ null
      → w.heap p ≡ some (boxed (b.object s))
      → rustls_server_config_builder_set_ignore_client_order Base K V V' p ignore w
        ≡ done RustlsResult.ok (
            set_heap w (
              put p
                (some (boxed (b.object (record s { ignore_client_order = some ignore }))))
                w.heap))
  unfolding rustls_server_config_builder_set_ignore_client_order
  ignore_client_order_lem p ignore s w ne held = boundary-done _ w (
      mut-done p s (record s { ignore_client_order = some ignore }) w _ RustlsResult.ok (λ q t. t)
        ne held refl)

  -- The bytes of the protocols replace the builder's, or nothing changes.
  pub server_alpn_protocols_lem :
      (p : Ptr) (ps : List RustlsSliceBytes) (s : ServerConfigBuilder Base K V V') (w : World O)
      → p ≢ null
      → w.heap p ≡ some (boxed (b.object s))
      → let run = rustls_server_config_builder_set_alpn_protocols Base K V V' p (some ps) w in
        (run
          ≡ done RustlsResult.ok (
              set_heap w (
                put p
                  (some (
                    boxed (b.object (record s { alpn_protocols = map (protocol_bytes w.mem) ps }))))
                  w.heap)))
        ⊎ (run ≡ done RustlsResult.null_parameter w)
  unfolding rustls_server_config_builder_set_alpn_protocols
  server_alpn_protocols_lem p ps s w ne held = elim (protocols_from_lem w.mem ps []) [
    | inl (all, e) ↦ inl (
        boundary-done _ w (
          mut-done p s (record s { alpn_protocols = map (protocol_bytes w.mem) ps }) w _
            RustlsResult.ok (λ q t. t) ne held (rw (e, take_protocols) refl)))
    | inr (bad, e) ↦ inr (
        boundary-done _ w
          (mut_same p s w _ RustlsResult.null_parameter ne held (rw (e, take_protocols) refl)))
  ]

  pub persistence_lem :
      (p : Ptr) (get_cb put_cb : FnPtr) (s : ServerConfigBuilder Base K V V') (w : World O)
      → p ≢ null
      → w.heap p ≡ some (boxed (b.object s))
      → rustls_server_config_builder_set_persistence Base K V V' p (some get_cb) (some put_cb) w
        ≡ done RustlsResult.ok (
            set_heap w (
              put p
                (some (
                  boxed
                    (b.object (record s { session_storage = some (broker_new get_cb put_cb) }))))
                w.heap))
  unfolding rustls_server_config_builder_set_persistence
  persistence_lem p get_cb put_cb s w ne held = boundary-done _ w (
      mut-done p s (record s { session_storage = some (broker_new get_cb put_cb) }) w _
        RustlsResult.ok (λ q t. t) ne held refl)

  module _ {T : Type 0} ⦃t : CastPtr O T⦄ (wrap : Arc T → ClientCertVerifier V V') where
    -- The body of both calls that set a verifier of client certificates.
    pub take_verifier_lem :
        (p : Ptr) (a : Arc T) (s : ServerConfigBuilder Base K V V') (w : World O)
        → p ≢ null
        → w.heap p ≡ some (boxed (b.object s))
        → Arcs (a ∷ []) w.heap
        → Covered (verifier_arcs s.verifier) w.heap
        → try_mut_from_ptr {T = ServerConfigBuilder Base K V V'} p
            (lift (to_arc {T = T} a.at) >>= take_verifier wrap)
            w
          ≡ done tt (
              set_heap w (
                put p
                  (some (boxed (b.object (record s { verifier = wrap a }))))
                  (minus_all (verifier_arcs s.verifier) (plus_all (a.at ∷ []) w.heap))))
    take_verifier_lem p a s w ne held arcs cover =
        let old = verifier_arcs s.verifier in
        let free : references (w.heap p) ≡ 0 = rw held refl in
        let lent = set_heap w (put p (some borrowed) w.heap) in
        let ((na, l, e), nil) = Arcs-lent (a ∷ []) p (some borrowed) w.heap free arcs in
        let w1 = set_heap lent (put a.at (plus 1 (lent.heap a.at)) lent.heap) in
        let cover1 : Covered old w1.heap = subst (Covered old) (sym (plus_all-one a.at lent.heap)) (
          Covered-plus_all old (a.at ∷ []) lent.heap
            (Covered-put old p (some borrowed) w.heap free cover)) in
        mut-done p s (record s { verifier = wrap a }) w _ tt
          (λ q x. minus (occurrences q old) (plus (occurrences q (a.at ∷ [])) x)) ne held
          (bind-done (lift (to_arc {T = T} a.at)) (take_verifier wrap)
              (lift-done (to_arc {T = T} a.at) s lent (to_arc-retained a lent na l e))
            ∙ (bind-done (lift (drop_all old)) _
                  (lift-done (drop_all old) s w1 (drop_all_lem old w1 cover1))
                ∙ ap (λ h. done tt (record s { verifier = wrap a }, set_heap w (minus_all old h)))
                    (plus_all-one a.at lent.heap)))

module _ {O Base K V V' : Type 0} ⦃b : CastPtr O (ServerConfigBuilder Base K V V')⦄ where
  pub client_verifier_lem :
      ⦃v : CastPtr O V⦄
      → (p : Ptr) (a : Arc V) (s : ServerConfigBuilder Base K V V') (w : World O) → p ≢ null
      → w.heap p ≡ some (boxed (b.object s))
      → Arcs (a ∷ []) w.heap
      → Covered (verifier_arcs s.verifier) w.heap
      → rustls_server_config_builder_set_client_verifier Base K V V' p a.at w
        ≡ done tt (
            set_heap w (
              put p
                (some (boxed (b.object (record s { verifier = any_authenticated a }))))
                (minus_all (verifier_arcs s.verifier) (plus_all (a.at ∷ []) w.heap))))
  unfolding rustls_server_config_builder_set_client_verifier
  client_verifier_lem p a s w ne held arcs cover =
      boundary-done _ w (take_verifier_lem any_authenticated p a s w ne held arcs cover)

  pub client_verifier_optional_lem :
      ⦃v : CastPtr O V'⦄
      → (p : Ptr) (a : Arc V') (s : ServerConfigBuilder Base K V V') (w : World O) → p ≢ null
      → w.heap p ≡ some (boxed (b.object s))
      → Arcs (a ∷ []) w.heap
      → Covered (verifier_arcs s.verifier) w.heap
      → rustls_server_config_builder_set_client_verifier_optional Base K V V' p a.at w
        ≡ done tt (
            set_heap w (
              put p
                (some (boxed (b.object (record s { verifier = any_anonymous_or_authenticated a }))))
                (minus_all (verifier_arcs s.verifier) (plus_all (a.at ∷ []) w.heap))))
  unfolding rustls_server_config_builder_set_client_verifier_optional
  client_verifier_optional_lem p a s w ne held arcs cover =
      boundary-done _ w
        (take_verifier_lem any_anonymous_or_authenticated p a s w ne held arcs cover)
