-- ===== src/Client/Config/Keys.antt =====
-- The certified keys of a client's configuration: what the builder holds, and the reference counts.
use rustls_ffi.Prelude.{ℕ, ◌≡◌, refl, ◌∙◌, ◌≢◌, false, some, List, [], ◌∷◌, ◌++◌, arith, ◌==◌}
use rustls_ffi.Panic.{done, pure, result_null, result_panic}
use rustls_ffi.Panic.Boundary.{boundary-done, bind-done, then-done}
use rustls_ffi.Memory.{Ptr, null, from_raw_parts}
use rustls_ffi.Error.Codes.{RustlsResult}
use rustls_ffi.World.{boxed, borrowed, Heap, World, put, set_heap, lift}
use rustls_ffi.Ownership.{CastPtr, Arc, try_slice}
use rustls_ffi.Ownership.Arcs.{addresses, drop_all, arcs_from}
use rustls_ffi.Ownership.Counts.{plus_all, minus_all, Covered, drop_all_lem}
use rustls_ffi.Ownership.Taking.{Arcs, arcs_from_lem, arcs_from-null}
use rustls_ffi.Ownership.Lending.{
  Covered-put, Covered-plus_all, Arcs-lent, lift-done, mut-done, mut_same,
}
use rustls_ffi.Ownership.Slots.{occurrences, references, plus, minus}
use rustls_ffi.Cipher.{CertifiedKey}
use rustls_ffi.Client.Config.{ClientConfigBuilder, choice_arcs, set_choices}
use rustls_ffi.Client.Config.Setters.{take_choices, rustls_client_config_builder_set_certified_key}

-- The builder with new keys.
abbrev pub with_choices :
    {Base K R : Type 0}
    → ClientConfigBuilder Base K R
    → List (Arc (CertifiedKey K))
    → ClientConfigBuilder Base K R
with_choices b keys = record b { cert_resolver = some keys }

module _ {O Base K R : Type 0} where
  -- `take_choices` in a state whose references cover the old keys.
  take_choices_lem :
      (b : ClientConfigBuilder Base K R) (keys : List (Arc (CertifiedKey K))) (w : World O)
      (h : Heap O)
      → Covered (choice_arcs b.cert_resolver) h
      → take_choices (some keys) (b, set_heap w (plus_all (addresses keys) h))
        ≡ done RustlsResult.ok (
          with_choices b keys,
          set_heap w (minus_all (choice_arcs b.cert_resolver) (plus_all (addresses keys) h)),
        )
  take_choices_lem b keys w h cover =
      let old = choice_arcs b.cert_resolver in
      let cloned = plus_all (addresses keys) h in
      then-done (set_choices {O = O} {Base = Base} {R = R} keys) (pure RustlsResult.ok) _
        (bind-done (lift (drop_all old)) _ (
          lift-done (drop_all old) b (set_heap w cloned)
            (drop_all_lem old (set_heap w cloned) (Covered-plus_all old (addresses keys) h cover))))
        refl

module _ {O Base K R : Type 0} ⦃b : CastPtr O (ClientConfigBuilder Base K R)⦄
    ⦃k : CastPtr O (CertifiedKey K)⦄ where
  -- Keys whose pointers each stand for an Arc: the call stores them in the builder and returns Ok. Each
  -- key has one reference more for each of its pointers, each key of before one fewer, and nothing else
  -- changes.
  pub set_certified_key_lem :
      (p certified_keys : Ptr) (n : ℕ) (s : ClientConfigBuilder Base K R)
      (keys : List (Arc (CertifiedKey K))) (w : World O)
      → p ≢ null
      → certified_keys ≢ null
      → w.heap p ≡ some (boxed (b.object s))
      → from_raw_parts certified_keys n w.mem ≡ addresses keys
      → Arcs keys w.heap
      → Covered (choice_arcs s.cert_resolver) w.heap
      → rustls_client_config_builder_set_certified_key Base K R p certified_keys n w
        ≡ done RustlsResult.ok (
            set_heap w (
              put p
                (some (boxed (b.object (with_choices s keys))))
                (minus_all (choice_arcs s.cert_resolver) (plus_all (addresses keys) w.heap))))
  unfolding rustls_client_config_builder_set_certified_key try_slice
  set_certified_key_lem p certified_keys n s keys w ne ke held read arcs cover =
      let z : (certified_keys == null) ≡ false = ground arith in
      let free : references (w.heap p) ≡ 0 = rw held refl in
      let ks = addresses keys in
      let lent = set_heap w (put p (some borrowed) w.heap) in
      let lent_arcs = Arcs-lent keys p (some borrowed) w.heap free arcs in
      let old = choice_arcs s.cert_resolver in
      boundary-done _ w (
        mut-done p s (with_choices s keys) w _ RustlsResult.ok
          (λ q t. minus (occurrences q old) (plus (occurrences q ks) t)) ne held
          (rw (z, read)
            (bind-done (lift (arcs_from (CertifiedKey K) ks [])) take_choices (
                lift-done (arcs_from (CertifiedKey K) ks []) s lent
                  (arcs_from_lem keys [] lent lent_arcs))
              ∙ take_choices_lem s keys w _ (Covered-put old p (some borrowed) w.heap free cover))))

  -- A NULL pointer among the keys, after some that each stand for an Arc: the call returns
  -- NullParameter, and the whole state is as it was.
  pub set_certified_key_null :
      (p certified_keys : Ptr) (n : ℕ) (s : ClientConfigBuilder Base K R)
      (keys : List (Arc (CertifiedKey K))) (rest : List Ptr) (w : World O)
      → p ≢ null
      → certified_keys ≢ null
      → w.heap p ≡ some (boxed (b.object s))
      → from_raw_parts certified_keys n w.mem ≡ addresses keys ++ null ∷ rest
      → Arcs keys w.heap
      → rustls_client_config_builder_set_certified_key Base K R p certified_keys n w
        ≡ done RustlsResult.null_parameter w
  unfolding rustls_client_config_builder_set_certified_key try_slice
  set_certified_key_null p certified_keys n s keys rest w ne ke held read arcs =
      let z : (certified_keys == null) ≡ false = ground arith in
      let free : references (w.heap p) ≡ 0 = rw held refl in
      let ps = addresses keys ++ null ∷ rest in
      let lent = set_heap w (put p (some borrowed) w.heap) in
      boundary-done _ w (
        mut_same p s w _ RustlsResult.null_parameter ne held (
          rw (z, read)
            (bind-done (lift (arcs_from (CertifiedKey K) ps [])) take_choices (
              lift-done (arcs_from (CertifiedKey K) ps []) s lent (
                arcs_from-null keys [] rest lent (Arcs-lent keys p (some borrowed) w.heap free arcs)
                  λ q. omega arith)))))
