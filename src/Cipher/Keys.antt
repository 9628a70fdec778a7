-- ===== src/Cipher/Keys.antt =====
-- Building and cloning certified keys.
use rustls_ffi.Prelude.{
  ℕ, ◌≡◌, refl, ◌≢◌, ◌⊎◌, inl, inr, Option, none, some, List, ok, err, arith, ◌==◌, false, ◌∙◌,
  Option-cases,
}
use rustls_ffi.Panic.{done, result_null, result_panic}
use rustls_ffi.Panic.Boundary.{boundary-done}
use rustls_ffi.Memory.{Ptr, null, write, from_raw_parts}
use rustls_ffi.Error.Codes.{RustlsResult}
use rustls_ffi.Slice.{RustlsSliceBytes}
use rustls_ffi.World.{counted, World, put}
use rustls_ffi.Ownership.{CastPtr, shared, to_const_ptr, deref, try_slice}
use rustls_ffi.Ownership.References.{try_ref-shared, deref-shared}
use rustls_ffi.Cipher.{
  CertifiedKey, PemHost, last, rsa_private_key, private_key_of, with_chain, parse_key,
  certified_key_build, store_key, rustls_certified_key_build, clone_key,
  rustls_certified_key_clone_with_ocsp,
}

-- A private key is found in the text: the last PKCS #8 key, or if there is none the last RSA key.
pub data Found {K R : Type 0} (host : PemHost K R) (text key : List ℕ) : Type 0 where
  pkcs8 :
      (v : List (List ℕ))
      → host.pkcs8_private_keys text ≡ some v
      → last v ≡ some key
      → Found host text key
  rsa :
      (u v : List (List ℕ))
      → host.pkcs8_private_keys text ≡ some u
      → last u ≡ none
      → host.rsa_private_keys text ≡ some v
      → last v ≡ some key
      → Found host text key

-- The text holds no private key: one of its two kinds of key cannot be read where it is looked for,
-- or there is none of either kind.
pub data NoKey {K R : Type 0} (host : PemHost K R) (text : List ℕ) : Type 0 where
  bad_pkcs8 : host.pkcs8_private_keys text ≡ none → NoKey host text
  bad_rsa :
      (u : List (List ℕ))
      → host.pkcs8_private_keys text ≡ some u
      → last u ≡ none
      → host.rsa_private_keys text ≡ none
      → NoKey host text
  no_key :
      (u v : List (List ℕ))
      → host.pkcs8_private_keys text ≡ some u
      → last u ≡ none
      → host.rsa_private_keys text ≡ some v
      → last v ≡ none
      → NoKey host text

-- Why the texts hold no certified key, and the error for it.
pub data Fails {K R : Type 0} (host : PemHost K R) (chain text : List ℕ)
    : RustlsResult → Type 0 where
  unfound : NoKey host text → Fails host chain text RustlsResult.private_key_parse_error
  unsupported :
      (key : List ℕ)
      → Found host text key
      → host.any_supported_type key ≡ none
      → Fails host chain text RustlsResult.private_key_parse_error
  bad_chain :
      (key : List ℕ) (k : K)
      → Found host text key
      → host.any_supported_type key ≡ some k
      → host.certs chain ≡ none
      → Fails host chain text RustlsResult.certificate_parse_error

module _ {K R : Type 0} (host : PemHost K R) where
  rsa_cases :
      (text : List ℕ) (u : List (List ℕ))
      → host.pkcs8_private_keys text ≡ some u
      → last u ≡ none
      → (NoKey host text × (rsa_private_key host text ≡ err RustlsResult.private_key_parse_error))
        ⊎ ((key : List ℕ) × (v : List (List ℕ)) × (host.rsa_private_keys text ≡ some v)
            × (last v ≡ some key)
            × (rsa_private_key host text ≡ ok key))
  rsa_cases text u pu lu = elim (Option-cases (host.rsa_private_keys text)) [
    | inl e ↦ inl (bad_rsa u pu lu e, rw (e, rsa_private_key))
    | inr (v, e) ↦ elim (Option-cases (last v)) [
      | inl l ↦ inl (no_key u v pu lu e l, rw (e, rsa_private_key, l))
      | inr (key, l) ↦ inr (key, v, e, l, rw (e, rsa_private_key, l))
    ]
  ]

  private_key_cases :
      (text : List ℕ)
      → (NoKey host text × (private_key_of host text ≡ err RustlsResult.private_key_parse_error))
        ⊎ ((key : List ℕ) × Found host text key × (private_key_of host text ≡ ok key))
  private_key_cases text = elim (Option-cases (host.pkcs8_private_keys text)) [
    | inl e ↦ inl (bad_pkcs8 e, rw (e, private_key_of))
    | inr (u, e) ↦ elim (Option-cases (last u)) [
      | inr (key, l) ↦ inr (key, pkcs8 u e l, rw (e, private_key_of, l))
      | inl l ↦ elim (rsa_cases text u e l) [
        | inl (absent, f) ↦ inl (absent, rw (e, private_key_of, l) f)
        | inr (key, v, e', l', f) ↦ inr (key, rsa u v e l e' l', rw (e, private_key_of, l) f)
      ]
    ]
  ]

  -- The key that the texts stand for.
  pub record Built (chain text : List ℕ) (key : CertifiedKey K) : Type 0 where
    pub der : List ℕ
    pub found : Found host text der
    pub signs : host.any_supported_type der ≡ some key.key
    pub parsed : host.certs chain ≡ some key.cert
    pub no_ocsp : key.ocsp ≡ none

  with_chain_cases :
      (chain : List ℕ) (k : K)
      → ((host.certs chain ≡ none)
          × (with_chain host chain k ≡ err RustlsResult.certificate_parse_error))
        ⊎ ((v : List (List ℕ)) × (host.certs chain ≡ some v)
            × (with_chain host chain k ≡ ok (record { cert = v; key = k; ocsp = none })))
  with_chain_cases chain k = elim (Option-cases (host.certs chain)) [
    | inl e ↦ inl (e, rw (e, with_chain))
    | inr (v, e) ↦ inr (v, e, rw (e, with_chain))
  ]

  parse_key_cases :
      (chain text : List ℕ)
      → ((rr : RustlsResult) × Fails host chain text rr × (parse_key host chain text ≡ err rr))
        ⊎ ((key : CertifiedKey K) × Built chain text key × (parse_key host chain text ≡ ok key))
  parse_key_cases chain text = elim (private_key_cases text) [
    | inl (absent, e) ↦ inl (_, unfound absent, rw (e, parse_key))
    | inr (der, found, e) ↦ elim (Option-cases (host.any_supported_type der)) [
      | inl s ↦ inl (_, unsupported der found s, rw (e, parse_key, s))
      | inr (k, s) ↦ elim (with_chain_cases chain k) [
        | inl (p, f) ↦ inl (_, bad_chain der k found s p, rw (e, parse_key, s) f)
        | inr (v, p, f) ↦ inr (
          _,
          record { der = der; found = found; signs = s; parsed = p; no_ocsp = refl },
          rw (e, parse_key, s) f,
        )
      ]
    ]
  ]

-- What the clone's OCSP response is, and that the given one can be read.
abbrev pub response : {O : Type 0} → Option RustlsSliceBytes → World O → Option (List ℕ)
response none w = none
response (some s) w = some (from_raw_parts s.bytes s.len w.mem)

abbrev pub Readable : Option RustlsSliceBytes → Type 0
Readable none = Unit {0}
Readable (some s) = s.bytes ≢ null

module _ {O K : Type 0} ⦃c : CastPtr O (CertifiedKey K)⦄ (alloc : World O → Ptr) where
  -- The state with a new Arc of `key`, whose pointer is stored at `out`.
  abbrev pub with_key : Ptr → CertifiedKey K → World O → World O
  with_key out key w = record w {
    mem = write out (alloc w) w.mem;
    heap = put (alloc w) (some (counted 1 (c.object key))) w.heap;
  }

  store_key-ok :
      (out : Ptr) (key : CertifiedKey K) (w : World O)
      → store_key alloc out (ok key) w ≡ done RustlsResult.ok (with_key out key w)
  unfolding to_const_ptr
  store_key-ok out key w = refl

  -- A build from two texts, with a place for the result, does one of two things. Either the text of the
  -- key holds no private key that is read as PKCS #8, or if there is none as RSA, or none that is
  -- supported, and the call returns PrivateKeyParseError, or the chain cannot be read, and it returns
  -- CertificateParseError; the whole state is as it was. Or it returns Ok and stores there a pointer
  -- to a new Arc, with one reference, of the key and the chain that the texts hold.
  pub rustls_certified_key_build_lem :
      {R : Type 0} (host : PemHost K R) (chain : Ptr) (chain_len : ℕ) (text : Ptr) (text_len : ℕ)
      (out : Ptr) (w : World O)
      → chain ≢ null
      → text ≢ null
      → out ≢ null
      → let run = rustls_certified_key_build alloc host chain chain_len text text_len out w in
        ((rr : RustlsResult) × Fails host
            (from_raw_parts chain chain_len w.mem)
            (from_raw_parts text text_len w.mem)
            rr
          × (run ≡ done rr w))
        ⊎ ((key : CertifiedKey K) × Built host
              (from_raw_parts chain chain_len w.mem)
              (from_raw_parts text text_len w.mem)
              key
            × (run ≡ done RustlsResult.ok (with_key out key w)))
  unfolding rustls_certified_key_build certified_key_build
  rustls_certified_key_build_lem host chain chain_len text text_len out w nc nt nout =
      let z : (chain == null) ≡ false = ground arith in
      let y : (text == null) ≡ false = ground arith in
      let x : (out == null) ≡ false = ground arith in
      elim (parse_key_cases host (from_raw_parts chain chain_len w.mem)
        (from_raw_parts text text_len w.mem)) [
          | inl (rr, bad, e) ↦ inl (rr, bad, boundary-done _ w (rw (x, z, y, e)))
          | inr (key, built, e) ↦
              inr (key, built, boundary-done _ w (rw (x, z, y, e) (store_key-ok out key w)))
        ]

  clone_key-ok :
      (key : CertifiedKey K) (o : Option RustlsSliceBytes) (out : Ptr) (w : World O)
      → Readable o
      → clone_key alloc key o out w
        ≡ done RustlsResult.ok (with_key out (record key { ocsp = response o w }) w)
  unfolding try_slice
  clone_key-ok key none out w r = store_key-ok out _ w
  clone_key-ok key (some s) out w r =
      let z : (s.bytes == null) ≡ false = ground arith in rw z (store_key-ok out _ w)

  -- A clone of a key, with a place for the result and an OCSP response that is NULL or can be read,
  -- returns Ok. If the allocator gives an unused address, then the new pointer stands for the same
  -- chain and signing key with the given response, or none, and the old pointer for the same key as
  -- before.
  pub clone_with_ocsp_lem :
      (p : Ptr) (key : CertifiedKey K) (o : Option RustlsSliceBytes) (out : Ptr) (w : World O)
      → p ≢ null
      → out ≢ null
      → shared (w.heap p) ≡ some key
      → w.heap (alloc w) ≡ none
      → Readable o
      → let key' = record key { ocsp = response o w } in
        (w' : World O) × (rustls_certified_key_clone_with_ocsp K alloc p o out w
          ≡ done RustlsResult.ok w')
        × (w'.mem out ≡ alloc w)
        × (deref (alloc w) w' ≡ done key' w')
        × (deref p w' ≡ done key w')
  unfolding rustls_certified_key_clone_with_ocsp
  clone_with_ocsp_lem p key o out w np nout held unused r =
      let x : (out == null) ≡ false = ground arith in
      let key' = record key { ocsp = response o w } in
      (
        with_key out key' w,
        boundary-done _ w (rw x (try_ref-shared p key w _ np held ∙ clone_key-ok key o out w r)),
        ground arith,
        deref-shared (alloc w) key' _ (ground (arith, c.rust_type-object key')),
        deref-shared p key _ (ground (arith, held, unused)),
      )
