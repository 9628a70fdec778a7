-- ===== src/Server/Config/Invariant.antt =====
-- What every sequence of calls on a server's builder keeps: the builder's Arcs have references.
use rustls_ffi.Prelude.{
  ◌≡◌, refl, sym, ap, fun_ext, ◌∙◌, ◌≢◌, inl, inr, Option, none, some, [], ◌∷◌, ◌++◌, map,
}
use mathlib.Core.Path.{subst}
use rustls_ffi.Panic.{done, result_null, result_panic, unit_panic}
use rustls_ffi.Memory.{Ptr, null}
use rustls_ffi.World.{Slot, boxed, World, put, set_heap}
use rustls_ffi.Ownership.{CastPtr, Arc}
use rustls_ffi.Ownership.Arcs.{addresses}
use rustls_ffi.Ownership.Counts.{plus_all, minus_all, Covered}
use rustls_ffi.Ownership.Taking.{Arcs}
use rustls_ffi.Ownership.Lending.{Covered-put, Arcs-Live}
use rustls_ffi.Ownership.Slots.{occurrences, plus_zero, minus, put_here}
use rustls_ffi.Ownership.Dropping.{gone}
use rustls_ffi.Cipher.{CertifiedKey}
use rustls_ffi.Server.Config.{
  ServerConfigBuilder, verifier_arcs, set_resolver_arcs, builder_arcs, ClientCertVerifier,
  any_authenticated, any_anonymous_or_authenticated,
}
use rustls_ffi.Server.Config.Build.{rustls_server_config_builder_free}
use rustls_ffi.Server.Config.Keys.{with_keys, set_certified_keys_lem, set_certified_keys_null}
use rustls_ffi.Server.Config.Ends.{builder_free_lem}
use rustls_ffi.Ownership.Replacing.{
  minus-none, Covered-replaced, Covered-swap, Covered-left, Covered-right, done-state,
}
use rustls_ffi.Server.Config.Setting.{
  persistence_lem, server_alpn_protocols_lem, client_verifier_lem, client_verifier_optional_lem,
  with_callback, hello_callback_lem, ignore_client_order_lem,
}
use rustls_ffi.Session.{broker_new}
use rustls_ffi.Config.Lists.{protocol_bytes}
use rustls_ffi.Server.Config.Sequences.{
  IsBuilder, Calls, no_calls, sequence, keys_given, null_given, callback_given, order_given,
  protocols_given, persistence_given, verifier_given, optional_verifier_given,
}

module _ {O Base K V V' : Type 0} ⦃b : CastPtr O (ServerConfigBuilder Base K V V')⦄ where
  -- A call that sets a field without Arcs.
  kept :
      {R : Type 0} {r r' : R}
      → (p : Ptr) (s s' : ServerConfigBuilder Base K V V') (w w' : World O) → p ≢ null
      → w.heap p ≡ some (boxed (b.object s))
      → Covered (builder_arcs s') w.heap
      → done r (set_heap w (put p (some (boxed (b.object s'))) w.heap)) ≡ done r' w'
      → IsBuilder Base K V V' p w'
  kept p s s' w w' ne held cover e =
      let x : Option (Slot O) = some (boxed (b.object s')) in
      subst (IsBuilder Base K V V' p) (done-state (set_heap w (put p x w.heap)) w' e) (
        ne,
        (s', put_here p x w.heap, Covered-put (builder_arcs s') p x w.heap (rw held refl) cover),
      )

  -- A call that sets the verifier.
  reverified :
      {T : Type 0} ⦃t : CastPtr O T⦄ {r r' : Unit {0}}
      → (wrap : Arc T → ClientCertVerifier V V') (p : Ptr) (a : Arc T)
        (s : ServerConfigBuilder Base K V V') (w w' : World O)
      → p ≢ null
      → w.heap p ≡ some (boxed (b.object s))
      → Covered (builder_arcs s) w.heap
      → Arcs (a ∷ []) w.heap
      → ((c : Arc T) → verifier_arcs (wrap c) ≡ c.at ∷ [])
      → done r (
          set_heap w (
            put p
              (some (boxed (b.object (record s { verifier = wrap a }))))
              (minus_all (verifier_arcs s.verifier) (plus_all (a.at ∷ []) w.heap))))
        ≡ done r' w'
      → IsBuilder Base K V V' p w'
  reverified wrap p a s w w' ne held cover arcs wraps e =
      let old = verifier_arcs s.verifier in
      let res = set_resolver_arcs s.cert_resolver in
      let x : Option (Slot O) = some (boxed (b.object (record s { verifier = wrap a }))) in
      let h = minus_all old (plus_all (a.at ∷ []) w.heap) in
      let covered = Covered-swap res (a.at ∷ []) (put p x h) (
        Covered-replaced res old (a.at ∷ []) p x w.heap (rw held refl)
          (Covered-swap old res w.heap cover) (Arcs-Live (a ∷ []) w.heap arcs)) in
      subst (IsBuilder Base K V V' p) (done-state (set_heap w (put p x h)) w' e) (
        ne,
        (
          record s { verifier = wrap a },
          put_here p x h,
          subst (λ ps. Covered (ps ++ res) (put p x h)) (sym (wraps a)) covered,
        ),
      )

  IsBuilder-Calls :
      ⦃k : CastPtr O (CertifiedKey K)⦄ ⦃v : CastPtr O V⦄ ⦃v' : CastPtr O V'⦄
      → (p : Ptr) {w w' : World O} → IsBuilder Base K V V' p w
      → Calls Base K V V' p w w'
      → IsBuilder Base K V V' p w'
  IsBuilder-Calls p is no_calls = is
  IsBuilder-Calls p is (sequence first later) = IsBuilder-Calls p (IsBuilder-Calls p is first) later
  IsBuilder-Calls p {w = w} {w' = w'} (ne, (s, held, cover))
        (keys_given at n keys ne_at read arcs r ran) =
      let old = set_resolver_arcs s.cert_resolver in
      let x : Option (Slot O) = some (boxed (b.object (with_keys s keys))) in
      let h = minus_all old (plus_all (addresses keys) w.heap) in
      subst (IsBuilder Base K V V' p)
        (done-state (set_heap w (put p x h)) w' (
          sym (
            set_certified_keys_lem p at n s keys w ne ne_at held read arcs
              (Covered-right (verifier_arcs s.verifier) old w.heap cover))
          ∙ ran))
        (
          ne,
          (
            with_keys s keys,
            put_here p x h,
            Covered-replaced (verifier_arcs s.verifier) old (addresses keys) p x w.heap
                (rw held refl) cover (Arcs-Live keys w.heap arcs),
          ),
        )
  IsBuilder-Calls p {w = w} {w' = w'} (ne, (s, held, cover))
        (null_given at n keys rest ne_at read arcs r ran) =
      subst (IsBuilder Base K V V' p)
        (done-state w w'
          (sym (set_certified_keys_null p at n s keys rest w ne ne_at held read arcs) ∙ ran))
        (ne, (s, held, cover))
  IsBuilder-Calls p {w = w} {w' = w'} (ne, (s, held, cover)) (callback_given cb r ran) =
      let old = set_resolver_arcs s.cert_resolver in
      let x : Option (Slot O) = some (boxed (b.object (with_callback s cb))) in
      let h = minus_all old w.heap in
      let same : plus_all [] w.heap ≡ w.heap = fun_ext λ q. plus_zero (w.heap q) in
      subst (IsBuilder Base K V V' p)
        (done-state (set_heap w (put p x h)) w' (
          sym (
            hello_callback_lem p cb s w ne held
              (Covered-right (verifier_arcs s.verifier) old w.heap cover))
          ∙ ran))
        (
          ne,
          (
            with_callback s cb,
            put_here p x h,
            subst (λ g. Covered (verifier_arcs s.verifier ++ []) (put p x (minus_all old g))) same
                (Covered-replaced (verifier_arcs s.verifier) old [] p x w.heap (rw held refl) cover
                  tt),
          ),
        )
  IsBuilder-Calls p (ne, (s, held, cover)) (order_given ignore r ran) =
      kept p s (record s { ignore_client_order = some ignore }) _ _ ne held cover
        (sym (ignore_client_order_lem p ignore s _ ne held) ∙ ran)
  IsBuilder-Calls p {w = w} (ne, (s, held, cover)) (protocols_given ps r ran) =
      elim (server_alpn_protocols_lem p ps s w ne held) [
        | inl e ↦
            kept p s (record s { alpn_protocols = map (protocol_bytes w.mem) ps }) w _ ne held cover
              (sym e ∙ ran)
        | inr e ↦
            subst (IsBuilder Base K V V' p) (done-state w _ (sym e ∙ ran)) (ne, (s, held, cover))
      ]
  IsBuilder-Calls p (ne, (s, held, cover)) (persistence_given get_cb put_cb r ran) =
      kept p s (record s { session_storage = some (broker_new get_cb put_cb) }) _ _ ne held cover
        (sym (persistence_lem p get_cb put_cb s _ ne held) ∙ ran)
  IsBuilder-Calls p {w = w} (ne, (s, held, cover)) (verifier_given a arcs ran) =
      reverified any_authenticated p a s w _ ne held cover arcs (λ q. refl)
        (sym (
            client_verifier_lem p a s w ne held arcs (
              Covered-left (verifier_arcs s.verifier) (set_resolver_arcs s.cert_resolver) w.heap
                cover))
          ∙ ran)
  IsBuilder-Calls p {w = w} (ne, (s, held, cover)) (optional_verifier_given a arcs ran) =
      reverified any_anonymous_or_authenticated p a s w _ ne held cover arcs (λ q. refl)
        (sym (
            client_verifier_optional_lem p a s w ne held arcs (
              Covered-left (verifier_arcs s.verifier) (set_resolver_arcs s.cert_resolver) w.heap
                cover))
          ∙ ran)

  -- A builder whose Arcs each have a reference keeps this through every sequence of calls that set its
  -- fields and return, where each pointer to a certified key or verifier stands for an Arc, except that
  -- a NULL pointer may follow the keys, and no other argument is NULL. After these calls it can be
  -- freed: the free returns, and the builder is gone.
  pub builder_free-Calls :
      ⦃k : CastPtr O (CertifiedKey K)⦄ ⦃v : CastPtr O V⦄ ⦃v' : CastPtr O V'⦄
      → (p : Ptr) (w w' : World O) → IsBuilder Base K V V' p w
      → Calls Base K V V' p w w'
      → IsBuilder Base K V V' p w'
        × ((w'' : World O) × (rustls_server_config_builder_free Base K V V' p w' ≡ done tt w'')
            × (w''.heap p ≡ none))
  builder_free-Calls p w w' is calls =
      let (ne, (s, held, cover)) = IsBuilder-Calls p is calls in
      (
        (ne, (s, held, cover)),
        (
          set_heap w' (minus_all (builder_arcs s) (gone p w').heap),
          builder_free_lem p s w' ne held
              (Covered-put (builder_arcs s) p none w'.heap (rw held refl) cover),
          ap (minus (occurrences p (builder_arcs s))) (put_here p none w'.heap)
              ∙ minus-none (occurrences p (builder_arcs s)),
        ),
      )
