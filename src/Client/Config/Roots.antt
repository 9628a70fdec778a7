-- ===== src/Client/Config/Roots.antt =====
-- The trusted roots of a client's builder.
use rustls_ffi.Prelude.{
  ℕ, ◌<◌, ◌≡◌, refl, ◌∙◌, ◌≢◌, ◌⊎◌, inl, inr, true, false, none, some, List, [], arith,
  Option-cases, Bool-cases,
}
use native.Mathlib.Decide.{dec_lt}
use rustls_ffi.Panic.{done, result_null, result_panic}
use rustls_ffi.Panic.Boundary.{boundary-done}
use rustls_ffi.Memory.{Ptr, null}
use rustls_ffi.Error.Codes.{RustlsResult}
use rustls_ffi.World.{boxed, borrowed, World, put, set_heap}
use rustls_ffi.Ownership.{CastPtr}
use rustls_ffi.Ownership.Lending.{mut-done, mut_same}
use rustls_ffi.Cipher.{PemHost}
use rustls_ffi.Client.Config.{ClientConfigBuilder, web_pki_verifier}
use rustls_ffi.Client.Config.Setters.{
  RootFiles, use_certs, use_text, use_file, use_named, use_parsed,
  rustls_client_config_builder_load_roots_from_file,
}

module _ {F K R : Type 0} (host : PemHost K R) (files : RootFiles F) where
  -- The file of a name cannot be read as PEM text.
  abbrev pub Unreadable : List ℕ → Type 0
  Unreadable name =
      (files.is_utf8 name ≡ false)
      ⊎ (files.open_file name ≡ none)
      ⊎ ((file : F) × (files.open_file name ≡ some file)
          × ((files.read file ≡ none)
              ⊎ ((text : List ℕ) × (files.read file ≡ some text) × (host.certs text ≡ none))))

  -- The file of a name holds these certificates.
  abbrev pub Holds : List ℕ → List (List ℕ) → Type 0
  Holds name ders =
      (file : F) × (text : List ℕ) × (files.is_utf8 name ≡ true)
      × (files.open_file name ≡ some file)
      × (files.read file ≡ some text)
      × (host.certs text ≡ some ders)

  module _ {O Base : Type 0} where
    use_named_cases :
        (name : List ℕ) (s : ClientConfigBuilder Base K R × World O)
        → (Unreadable name × (use_named host files (some name) s ≡ done RustlsResult.io s))
          ⊎ ((ders : List (List ℕ)) × Holds name ders
              × (use_named host files (some name) s
                  ≡ use_parsed (host.add_parsable_certificates ders []) s))
    use_named_cases name s = elim (Bool-cases (files.is_utf8 name)) [
      | inr u ↦ inl (inl u, rw (u, use_named) refl)
      | inl u ↦ elim (Option-cases (files.open_file name)) [
        | inl e ↦ inl (inr (inl e), rw (u, e, use_named, use_file) refl)
        | inr (file, e) ↦ elim (Option-cases (files.read file)) [
          | inl r ↦
              inl
                (inr (inr (file, e, inl r)), rw (u, e, use_named, use_file) (rw (r, use_text) refl))
          | inr (text, r) ↦ elim (Option-cases (host.certs text)) [
            | inl x ↦ inl (
              inr (inr (file, e, inr (text, r, x))),
              rw (u, e, use_named, use_file) (rw (r, use_text) (rw (x, use_certs) refl)),
            )
            | inr (ders, x) ↦ inr (
              ders,
              (file, text, u, e, r, x),
              rw (u, e, use_named, use_file) (rw (r, use_text) (rw (x, use_certs) refl)),
            )
          ]
        ]
      ]
    ]

module _ {F O Base K R : Type 0} ⦃b : CastPtr O (ClientConfigBuilder Base K R)⦄ (host : PemHost K R)
    (files : RootFiles F) where
  -- With a builder and a file name there are three cases. The file cannot be read as PEM text: the call
  -- returns Io. rustls parses not all of its certificates: the call returns CertificateParseError. In
  -- these two cases the whole state is as it was. Else the call returns Ok, and the builder's verifier
  -- now trusts the file's certificates and no others, and nothing else has changed.
  pub load_roots_from_file_lem :
      (p : Ptr) (name : List ℕ) (s : ClientConfigBuilder Base K R) (w : World O)
      → p ≢ null
      → w.heap p ≡ some (boxed (b.object s))
      → let run =
          rustls_client_config_builder_load_roots_from_file Base K R host files p (some name) w in
        (Unreadable host files name × (run ≡ done RustlsResult.io w))
        ⊎ ((ders : List (List ℕ)) × Holds host files name ders
            × (let ((parsed, failed), roots) = host.add_parsable_certificates ders [] in
                (((0 < failed) × (run ≡ done RustlsResult.certificate_parse_error w))
                  ⊎ ((failed ≡ 0)
                      × (run
                          ≡ done RustlsResult.ok (
                              set_heap w (
                                put p
                                  (some (
                                    boxed (
                                      b.object (record s {
                                        verifier = web_pki_verifier (record { roots = roots });
                                      }))))
                                  w.heap)))))))
  unfolding rustls_client_config_builder_load_roots_from_file
  load_roots_from_file_lem p name s w ne held =
      let lent = set_heap w (put p (some borrowed) w.heap) in
      elim (use_named_cases host files name (s, lent)) [
        | inl (bad, e) ↦ inl (bad, boundary-done _ w (mut_same p s w _ RustlsResult.io ne held e))
        | inr (ders, holds, e) ↦ inr (
          ders,
          holds,
          (let res = host.add_parsable_certificates ders [] in
              elim (dec_lt 0 res.0.1) [
                | yes some_failed ↦ inl (
                  some_failed,
                  boundary-done _ w (
                      mut_same p s w _ RustlsResult.certificate_parse_error ne held
                        (e ∙ ground arith)),
                )
                | no none_failed ↦ inr (
                  omega arith,
                  boundary-done _ w (
                      mut-done p s
                        (record s { verifier = web_pki_verifier (record { roots = res.1 }) }) w _
                        RustlsResult.ok (λ q t. t) ne held (e ∙ ground arith)),
                )
              ]),
        )
      ]
