-- ===== src/Server/Config/Custom.antt =====
-- New builders with given cipher suites and versions.
use rustls_ffi.Prelude.{
  ℕ, ◌≡◌, refl, ◌∙◌, ◌≢◌, ◌⊎◌, inl, inr, Bool, false, Option, none, some, List, [], map,
  Option-cases, arith, ◌==◌,
}
use rustls_ffi.Panic.{done, pure, result_null, result_panic}
use rustls_ffi.Panic.Boundary.{boundary-done, bind-done}
use rustls_ffi.Memory.{Ptr, null, from_raw_parts}
use rustls_ffi.Error.Codes.{RustlsResult}
use rustls_ffi.World.{World}
use rustls_ffi.Ownership.{CastPtr, set_mut_ptr, try_slice}
use rustls_ffi.Ownership.Handles.{with_handle, set_mut_ptr_lem}
use rustls_ffi.Versions.{SupportedVersion, versions_from}
use rustls_ffi.Config.{suites_from}
use rustls_ffi.Config.Lists.{Suites, suites_from_lem, known, number_of, versions_from_lem}
use rustls_ffi.Server.Config.{ServerConfigBuilder, builder_on}
use rustls_ffi.Server.Config.Setters.{put_builder, rustls_server_config_builder_new_custom}

module _ {O Base : Type 0} (K V V' : Type 0) {S : Type 0}
    ⦃b : CastPtr O (ServerConfigBuilder Base K V V')⦄ ⦃c : CastPtr O S⦄ (alloc : World O → Ptr)
    (suite_eq : S → S → Bool) (all_cipher_suites : List S)
    (with_versions : List S → List SupportedVersion → Option Base) where
  -- With arrays that are not NULL, of which each pointer stands for a suite that the table has, and a
  -- place for the result, rustls gets these suites, in order, and of the version numbers the known ones,
  -- in order. If rustls makes a base of them, the call returns Ok and stores a new builder on that base
  -- and its address at `builder_out`; otherwise it returns InvalidParameter. Nothing else changes.
  pub new_custom_lem :
      (suites : Ptr) (n : ℕ) (versions : Ptr) (k : ℕ) (builder_out : Ptr) (ss : List S)
      (w : World O)
      → suites ≢ null
      → versions ≢ null
      → builder_out ≢ null
      → Suites suite_eq all_cipher_suites (from_raw_parts suites n w.mem) ss w
      → let run =
          rustls_server_config_builder_new_custom K V V' alloc suite_eq all_cipher_suites
            with_versions suites n versions k builder_out w in
        (vs : List SupportedVersion) × (map number_of vs ≡ known (from_raw_parts versions k w.mem))
        × (((with_versions ss vs ≡ none) × (run ≡ done RustlsResult.invalid_parameter w))
            ⊎ ((base : Base) × (with_versions ss vs ≡ some base)
                × (run
                    ≡ done RustlsResult.ok (
                        with_handle {T = ServerConfigBuilder Base K V V'} alloc builder_out
                          (builder_on base)
                          w))))
  unfolding rustls_server_config_builder_new_custom try_slice
  new_custom_lem suites n versions k builder_out ss w ns nv out each =
      let zs : (suites == null) ≡ false = ground arith in
      let zv : (versions == null) ≡ false = ground arith in
      let numbers = from_raw_parts versions k w.mem in
      let vs = versions_from numbers in
      let read =
        suites_from_lem suite_eq all_cipher_suites (from_raw_parts suites n w.mem) ss [] w each in
      (
        vs,
        versions_from_lem numbers,
        elim (Option-cases (with_versions ss vs)) [
          | inl e ↦ inl (
            e,
            boundary-done _ w (
                rw zs (
                  bind-done
                    (suites_from suite_eq all_cipher_suites (from_raw_parts suites n w.mem) []) _
                    {w = w} read
                  ∙ rw (zv, e, put_builder) refl)),
          )
          | inr (base, e) ↦ inr (
            base,
            e,
            boundary-done _ w (
                rw zs (
                  bind-done
                    (suites_from suite_eq all_cipher_suites (from_raw_parts suites n w.mem) []) _
                    {w = w} read
                  ∙ rw (zv, e, put_builder)
                      (bind-done
                        (set_mut_ptr {T = ServerConfigBuilder Base K V V'} alloc builder_out
                          (builder_on base))
                        (λ _. pure RustlsResult.ok) {w = w}
                        (set_mut_ptr_lem alloc builder_out (builder_on base) w out)))),
          )
        ],
      )
