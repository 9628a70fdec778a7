-- ===== src/Server/Config/Keys.antt =====
-- The certified keys of a server's configuration: what the builder holds, and the reference counts.
use rustls_ffi.Prelude.{
  ℕ, ◌≡◌, refl, ap, ◌∙◌, fun_ext, ◌≢◌, false, some, List, [], ◌∷◌, ◌++◌, arith, ◌==◌,
}
use rustls_ffi.Panic.{done, pure, ◌>>◌, result_null, result_panic}
use rustls_ffi.Panic.Boundary.{boundary-done, bind-done, then-done}
use rustls_ffi.Memory.{Ptr, null, from_raw_parts}
use rustls_ffi.Error.Codes.{RustlsResult}
use rustls_ffi.World.{boxed, borrowed, Heap, World, put, set_heap, lift}
use rustls_ffi.Ownership.{CastPtr, Arc, try_slice}
use rustls_ffi.Ownership.Arcs.{addresses, drop_all, clone_all, arcs_from}
use rustls_ffi.Ownership.Counts.{
  plus_all, minus_all, Live, Live-occurrences, Covered, drop_all_lem, clone_all_lem,
}
use rustls_ffi.Ownership.Taking.{Arcs, arcs_from_lem, arcs_from-null}
use rustls_ffi.Ownership.Lending.{
  Covered-put, exchange, exchange-references, Live-plus_all, Covered-plus_all, Arcs-Live, Arcs-lent,
  lift-done, mut-done, mut_same,
}
use rustls_ffi.Ownership.Slots.{occurrences, references, plus, minus}
use rustls_ffi.Cipher.{CertifiedKey}
use rustls_ffi.Server.Config.{ServerConfigBuilder, from_choices, set_resolver_arcs, set_resolver}
use rustls_ffi.Server.Config.Setters.{take_keys, rustls_server_config_builder_set_certified_keys}

-- The builder with new keys.
abbrev pub with_keys :
    {Base K V V' : Type 0}
    → ServerConfigBuilder Base K V V'
    → List (Arc (CertifiedKey K))
    → ServerConfigBuilder Base K V V'
with_keys b keys = record b { cert_resolver = some (from_choices keys) }

module _ {O Base K V V' : Type 0} where
  -- `take_keys` in a state whose references cover the clones and the old keys.
  take_keys_lem :
      (b : ServerConfigBuilder Base K V V') (keys : List (Arc (CertifiedKey K))) (w : World O)
      (h : Heap O)
      → Live (addresses keys) h
      → Covered (set_resolver_arcs b.cert_resolver) h
      → take_keys (some keys) (b, set_heap w (plus_all (addresses keys) h))
        ≡ done RustlsResult.ok (
          with_keys b keys,
          set_heap w (minus_all (set_resolver_arcs b.cert_resolver) (plus_all (addresses keys) h)),
        )
  take_keys_lem b keys w h live cover =
      let ks = addresses keys in
      let old = set_resolver_arcs b.cert_resolver in
      let here = λ (q : Ptr). Live-occurrences ks h q live in
      let choices = set_resolver {O = O} {Base = Base} {V = V} {V' = V'} (from_choices keys) in
      let cloned : (lift (clone_all ks) >> choices) (b, set_heap w (plus_all ks h))
          ≡ done tt (with_keys b keys, set_heap w (minus_all old (plus_all ks (plus_all ks h)))) =
        then-done (lift (clone_all ks)) choices _
          (lift-done (clone_all ks) b (set_heap w (plus_all ks h))
            (clone_all_lem ks (set_heap w (plus_all ks h)) (Live-plus_all ks ks h live)))
          (bind-done (lift (drop_all old)) _ (
            lift-done (drop_all old) b (set_heap w (plus_all ks (plus_all ks h))) (
              drop_all_lem old _ (Covered-plus_all old ks _ (Covered-plus_all old ks h cover))))) in
      then-done (lift (clone_all ks) >> choices >> lift (drop_all ks)) (pure RustlsResult.ok) _
        (then-done (lift (clone_all ks) >> choices) (lift (drop_all ks)) _ cloned (
          lift-done (drop_all ks) (with_keys b keys) _ (
            drop_all_lem ks _ λ q.
              exchange-references (occurrences q ks) (occurrences q old) (h q) (here q) (cover q))))
        (ap (λ h. done RustlsResult.ok (with_keys b keys, set_heap w h))
          (fun_ext λ q. exchange (occurrences q ks) (occurrences q old) (h q) (here q) (cover q)))

module _ {O Base K V V' : Type 0} ⦃b : CastPtr O (ServerConfigBuilder Base K V V')⦄
    ⦃k : CastPtr O (CertifiedKey K)⦄ where
  -- Keys whose pointers each stand for an Arc: the call stores them in the builder and returns Ok. Each
  -- key has one reference more for each of its pointers, each key of before one fewer, and nothing else
  -- changes.
  pub set_certified_keys_lem :
      (p certified_keys : Ptr) (n : ℕ) (s : ServerConfigBuilder Base K V V')
      (keys : List (Arc (CertifiedKey K))) (w : World O)
      → p ≢ null
      → certified_keys ≢ null
      → w.heap p ≡ some (boxed (b.object s))
      → from_raw_parts certified_keys n w.mem ≡ addresses keys
      → Arcs keys w.heap
      → Covered (set_resolver_arcs s.cert_resolver) w.heap
      → rustls_server_config_builder_set_certified_keys Base K V V' p certified_keys n w
        ≡ done RustlsResult.ok (
            set_heap w (
              put p
                (some (boxed (b.object (with_keys s keys))))
                (minus_all (set_resolver_arcs s.cert_resolver) (plus_all (addresses keys) w.heap))))
  unfolding rustls_server_config_builder_set_certified_keys try_slice
  set_certified_keys_lem p certified_keys n s keys w ne ke held read arcs cover =
      let z : (certified_keys == null) ≡ false = ground arith in
      let free : references (w.heap p) ≡ 0 = rw held refl in
      let ks = addresses keys in
      let lent = set_heap w (put p (some borrowed) w.heap) in
      let lent_arcs = Arcs-lent keys p (some borrowed) w.heap free arcs in
      let old = set_resolver_arcs s.cert_resolver in
      boundary-done _ w (
        mut-done p s (with_keys s keys) w _ RustlsResult.ok
          (λ q t. minus (occurrences q old) (plus (occurrences q ks) t)) ne held
          (rw (z, read)
            (bind-done (lift (arcs_from (CertifiedKey K) ks [])) take_keys (
                lift-done (arcs_from (CertifiedKey K) ks []) s lent
                  (arcs_from_lem keys [] lent lent_arcs))
              ∙ take_keys_lem s keys w _ (Arcs-Live keys _ lent_arcs)
                  (Covered-put old p (some borrowed) w.heap free cover))))

  -- A NULL pointer among the keys, after some that each stand for an Arc: the call returns
  -- NullParameter, and the whole state is as it was.
  pub set_certified_keys_null :
      (p certified_keys : Ptr) (n : ℕ) (s : ServerConfigBuilder Base K V V')
      (keys : List (Arc (CertifiedKey K))) (rest : List Ptr) (w : World O)
      → p ≢ null
      → certified_keys ≢ null
      → w.heap p ≡ some (boxed (b.object s))
      → from_raw_parts certified_keys n w.mem ≡ addresses keys ++ null ∷ rest
      → Arcs keys w.heap
      → rustls_server_config_builder_set_certified_keys Base K V V' p certified_keys n w
        ≡ done RustlsResult.null_parameter w
  unfolding rustls_server_config_builder_set_certified_keys try_slice
  set_certified_keys_null p certified_keys n s keys rest w ne ke held read arcs =
      let z : (certified_keys == null) ≡ false = ground arith in
      let free : references (w.heap p) ≡ 0 = rw held refl in
      let ps = addresses keys ++ null ∷ rest in
      let lent = set_heap w (put p (some borrowed) w.heap) in
      boundary-done _ w (
        mut_same p s w _ RustlsResult.null_parameter ne held (
          rw (z, read)
            (bind-done (lift (arcs_from (CertifiedKey K) ps [])) take_keys (
              lift-done (arcs_from (CertifiedKey K) ps []) s lent (
                arcs_from-null keys [] rest lent (Arcs-lent keys p (some borrowed) w.heap free arcs)
                  λ q. omega arith)))))
