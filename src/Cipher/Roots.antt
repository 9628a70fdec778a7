-- ===== src/Cipher/Roots.antt =====
-- Adding certificates to a root store.
use rustls_ffi.Prelude.{
  ℕ, ◌<◌, ◌≡◌, refl, ◌≢◌, ◌⊎◌, inl, inr, Bool, true, false, Option, none, some, List, [], ◌++◌,
  arith, ◌==◌, ◌∙◌, ap, Option-cases, fun_ext,
}
use native.Mathlib.Decide.{ℕ_discrete, dec_lt}
use rustls_ffi.Panic.{done, result_null, result_panic}
use rustls_ffi.Panic.Boundary.{boundary-done}
use rustls_ffi.Memory.{Ptr, null, from_raw_parts}
use rustls_ffi.Error.Codes.{RustlsResult}
use rustls_ffi.World.{Slot, Heap, boxed, borrowed, World, put, set_heap}
use rustls_ffi.Ownership.{CastPtr, give_back, try_slice}
use rustls_ffi.Ownership.References.{try_mut-boxed}
use rustls_ffi.Cipher.{
  RootCertStore, PemHost, append_parsed, add_certs, rustls_root_cert_store_add_pem,
}

-- Why a text is refused: it cannot be read, or the call is strict and of its certificates one was
-- rejected or none was parsed.
pub data Refused {K R : Type 0} (host : PemHost K R) (strict : Bool) (text : List ℕ) : Type 0 where
  unreadable : host.certs text ≡ none → Refused host strict text
  unparsed :
      (ders : List (List ℕ))
      → host.certs text ≡ some ders
      → strict ≡ true
      → (0 < (host.add_parsable_certificates ders []).0.1)
        ⊎ ((host.add_parsable_certificates ders []).0.0 ≡ 0)
      → Refused host strict text

-- The state in which the store at `p` is lent to the call.
abbrev pub lent_store : {O : Type 0} → Ptr → World O → World O
lent_store p w = set_heap w (put p (some borrowed) w.heap)

put_same : {O : Type 0} {t : Option (Slot O)} → (p : Ptr) (h : Heap O) → h p ≡ t → put p t h ≡ h
put_same p h e = fun_ext λ q. ground (arith, ap h)

module _ {O R : Type 0} ⦃c : CastPtr O (RootCertStore R)⦄ where
  -- The state in which the store at `p` is `s`.
  abbrev pub with_roots : Ptr → RootCertStore R → World O → World O
  with_roots p s w = set_heap w (put p (some (boxed (c.object s))) w.heap)

  -- The borrow ends with the store `s'`.
  give_back-with_roots :
      (p : Ptr) (s' : RootCertStore R) (r : RustlsResult) (w : World O)
      → give_back p (done r (s', lent_store p w)) ≡ done r (with_roots p s' w)
  give_back-with_roots p s' r w = ap (λ h. done r (set_heap w h)) (fun_ext λ q. ground arith)

  append_parsed_cases :
      (strict : Bool) (parsed rejected : ℕ) (new_roots : List R) (s : RootCertStore R) (w : World O)
      → let run = append_parsed strict ((parsed, rejected), new_roots) (s, w) in
        ((strict ≡ true)
          × ((0 < rejected) ⊎ (parsed ≡ 0))
          × (run ≡ done RustlsResult.certificate_parse_error (s, w)))
        ⊎ (((strict ≡ false) ⊎ ((rejected ≡ 0) × (0 < parsed)))
            × (run ≡ done RustlsResult.ok (record { roots = s.roots ++ new_roots }, w)))
  append_parsed_cases false parsed rejected new_roots s w = inr (inl refl, refl)
  append_parsed_cases true parsed rejected new_roots s w = elim (dec_lt 0 rejected) [
    | yes some_rejected ↦ inl (refl, inl some_rejected, ground arith)
    | no all_parsed ↦ elim (ℕ_discrete parsed 0) [
      | yes none_parsed ↦ inl (refl, inr none_parsed, ground arith)
      | no some_parsed ↦ inr (inr (omega arith, omega arith), ground arith)
    ]
  ]

module _ {O K R : Type 0} ⦃c : CastPtr O (RootCertStore R)⦄ (host : PemHost K R) where
  add_pem-done :
      (p pem : Ptr) (pem_len : ℕ) (strict : Bool) (s s' : RootCertStore R) (w : World O)
      (r : RustlsResult)
      → p ≢ null
      → pem ≢ null
      → w.heap p ≡ some (boxed (c.object s))
      → add_certs host strict (host.certs (from_raw_parts pem pem_len w.mem)) (s, lent_store p w)
        ≡ done r (s', lent_store p w)
      → rustls_root_cert_store_add_pem host p pem pem_len strict w ≡ done r (with_roots p s' w)
  unfolding rustls_root_cert_store_add_pem try_slice
  add_pem-done p pem pem_len strict s s' w r ne pe held e =
      let z : (pem == null) ≡ false = ground arith in
      boundary-done _ w (
        rw z (try_mut-boxed p s w _ ne held ∙ (ap (give_back p) e ∙ give_back-with_roots p s' r w)))

  -- A call with a store and a text does one of two things. Either the text cannot be read, or the call
  -- is strict and some certificate was rejected or none was parsed: then it fails with
  -- CertificateParseError and leaves the whole state as it was. Or the text can be read, and the call
  -- is not strict or some certificate was parsed and none rejected: then it returns Ok and has
  -- appended the parsed roots to those of the store, in order, and changed nothing else.
  pub add_pem_lem :
      (p pem : Ptr) (pem_len : ℕ) (strict : Bool) (s : RootCertStore R) (w : World O)
      → p ≢ null
      → pem ≢ null
      → w.heap p ≡ some (boxed (c.object s))
      → let run = rustls_root_cert_store_add_pem host p pem pem_len strict w in
        (Refused host strict (from_raw_parts pem pem_len w.mem)
          × (run ≡ done RustlsResult.certificate_parse_error w))
        ⊎ ((ders : List (List ℕ)) × (host.certs (from_raw_parts pem pem_len w.mem) ≡ some ders)
            × (let ((parsed, rejected), new_roots) = host.add_parsable_certificates ders [] in
                ((strict ≡ false) ⊎ ((rejected ≡ 0) × (0 < parsed)))
                × (run
                    ≡ done RustlsResult.ok
                        (with_roots p (record { roots = s.roots ++ new_roots }) w))))
  add_pem_lem p pem pem_len strict s w ne pe held =
      elim (Option-cases (host.certs (from_raw_parts pem pem_len w.mem))) [
        | inl e ↦ inl (unreadable e, failed (rw (e, add_certs)))
        | inr (ders, e) ↦
            let res = host.add_parsable_certificates ders [] in
            elim (append_parsed_cases strict res.0.0 res.0.1 res.1 s (lent_store p w)) [
              | inl (is_strict, bad, f) ↦
                  inl (unparsed ders e is_strict bad, failed (rw (e, add_certs) f))
              | inr (accepted, f) ↦ inr (
                ders,
                e,
                (
                  accepted,
                  add_pem-done p pem pem_len strict s _ w _ ne pe held (rw (e, add_certs) f),
                ),
              )
            ]
      ]
    where
      failed :
          add_certs host strict (host.certs (from_raw_parts pem pem_len w.mem)) (s, lent_store p w)
            ≡ done RustlsResult.certificate_parse_error (s, lent_store p w)
          → rustls_root_cert_store_add_pem host p pem pem_len strict w
            ≡ done RustlsResult.certificate_parse_error w
      failed e =
          add_pem-done p pem pem_len strict s s w _ ne pe held e
          ∙ ap (λ h. done RustlsResult.certificate_parse_error (set_heap w h))
              (put_same p w.heap held)
