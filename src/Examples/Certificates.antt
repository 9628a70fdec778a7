-- ===== src/Examples/Certificates.antt =====
-- Certified keys, root stores and client hellos on concrete inputs.
use rustls_ffi.Prelude.{
  ℕ, ◌<◌, ◌≡◌, refl, ◌⊎◌, inr, true, false, Option, none, some, List, [], ◌∷◌, ◌++◌, arith, ◌==◌,
  if◌then◌else◌,
}
use rustls_ffi.Panic.{done}
use rustls_ffi.Memory.{Ptr, write, from_raw_parts}
use rustls_ffi.Error.Codes.{RustlsResult}
use rustls_ffi.Slice.{Slice}
use rustls_ffi.World.{boxed, counted, World, put}
use rustls_ffi.Ownership.{CastPtr, Arc}
use rustls_ffi.Cipher.{
  CertifiedKey, RootCertStore, PemHost, rustls_certified_key_build, rustls_root_cert_store_add_pem,
}
use rustls_ffi.Ownership.Arcs.{clone_found}
use rustls_ffi.Cipher.Keys.{Fails, Built, with_key, rustls_certified_key_build_lem}
use rustls_ffi.Cipher.Roots.{Refused, with_roots, add_pem_lem}
use rustls_ffi.Server.{
  SignatureScheme, ClientHello, first_choice, resolve_from_choices,
  rustls_client_hello_select_certified_key, rustls_server_connection_get_sni_hostname,
}
use rustls_ffi.Server.Selection.{hello_schemes, picked, select_certified_key_lem}
use rustls_ffi.Server.Hostname.{SniReport, get_sni_hostname-SniReport}
use rustls_ffi.Connection.State.{as_server}
use rustls_ffi.Examples.{zeros, idle_thread, place, a_server, holding, connection_cast, Conn}

-- The objects of these examples.
pub data Object : Type 0 where
  a_key : CertifiedKey ℕ → Object
  a_store : RootCertStore ℕ → Object
  a_hello : ClientHello → Object

abbrev key_of : Object → Option (CertifiedKey ℕ)
key_of (a_key k) = some k
key_of (a_store s) = none
key_of (a_hello h) = none

abbrev store_of : Object → Option (RootCertStore ℕ)
store_of (a_key k) = none
store_of (a_store s) = some s
store_of (a_hello h) = none

abbrev hello_of : Object → Option ClientHello
hello_of (a_key k) = none
hello_of (a_store s) = none
hello_of (a_hello h) = some h

instance abbrev pub key_cast : CastPtr Object (CertifiedKey ℕ)
key_cast = record { rust_type = key_of; object = a_key; rust_type-object = λ k. refl }

instance abbrev store_cast : CastPtr Object (RootCertStore ℕ)
store_cast = record { rust_type = store_of; object = a_store; rust_type-object = λ s. refl }

instance abbrev hello_cast : CastPtr Object ClientHello
hello_cast = record { rust_type = hello_of; object = a_hello; rust_type-object = λ h. refl }

-- A parser that takes every text for one key, and for one certificate.
abbrev toy_pem : PemHost ℕ ℕ
toy_pem = record {
  pkcs8_private_keys = λ text. some (text ∷ []);
  rsa_private_keys = λ text. none;
  certs = λ text. some (text ∷ []);
  any_supported_type = λ der. some 7;
  add_parsable_certificates = λ ders roots. ((1, 0), roots ++ 9 ∷ []);
}

abbrev pub key_seven : CertifiedKey ℕ
key_seven = record { cert = []; key = 7; ocsp = none }

abbrev empty_store : RootCertStore ℕ
empty_store = record { roots = [] }

abbrev scheme_hello : ClientHello
scheme_hello = record {
  sni_name = record { chars = 1; len = 0 };
  signature_schemes = record { words = 3000; len = 1 };
  alpn = record { inner = [] };
}

-- A key at 500, a store at 510, a hello at 520 with the word 513 at 3000, and the pointer 500 at 4000.
abbrev pub stocked : World Object
stocked = record {
  mem = write 4000 500 (write 3000 513 zeros);
  heap = put 500 (some (counted 1 (a_key key_seven))) (
      put 510 (some (boxed (a_store empty_store)))
        (put 520 (some (boxed (a_hello scheme_hello))) (λ q. none)));
  local = idle_thread;
}

abbrev at_600 : World Object → Ptr
at_600 w = 600

add_pem_example :
    let run = rustls_root_cert_store_add_pem toy_pem 510 3000 1 true stocked in
    (Refused toy_pem true (from_raw_parts 3000 1 stocked.mem)
      × (run ≡ done RustlsResult.certificate_parse_error stocked))
    ⊎ ((ders : List (List ℕ)) × (toy_pem.certs (from_raw_parts 3000 1 stocked.mem) ≡ some ders)
        × (let ((parsed, rejected), new_roots) = toy_pem.add_parsable_certificates ders [] in
            ((true ≡ false) ⊎ ((rejected ≡ 0) × (0 < parsed)))
            × (run
                ≡ done RustlsResult.ok
                    (with_roots 510 (record { roots = [] ++ new_roots }) stocked))))
add_pem_example =
    add_pem_lem toy_pem 510 3000 1 true empty_store stocked (omega arith) (omega arith) refl

rustls_certified_key_build_example :
    let run = rustls_certified_key_build at_600 toy_pem 3000 1 3000 1 4000 stocked in
    ((rr : RustlsResult) × Fails toy_pem
        (from_raw_parts 3000 1 stocked.mem)
        (from_raw_parts 3000 1 stocked.mem)
        rr
      × (run ≡ done rr stocked))
    ⊎ ((key : CertifiedKey ℕ) × Built toy_pem
          (from_raw_parts 3000 1 stocked.mem)
          (from_raw_parts 3000 1 stocked.mem)
          key
        × (run ≡ done RustlsResult.ok (with_key at_600 4000 key stocked)))
rustls_certified_key_build_example =
    rustls_certified_key_build_lem at_600 toy_pem 3000 1 3000 1 4000 stocked (omega arith)
      (omega arith) (omega arith)

-- Key 7 supports every list of schemes, the other keys none.
abbrev only_seven : ℕ → List SignatureScheme → Option ℕ
only_seven key schemes = if key == 7 then some 1 else none

abbrev choices : List (Arc (CertifiedKey ℕ))
choices = record { at = 500; value = key_seven } ∷ []

keys_at_4000 : from_raw_parts 4000 1 stocked.mem ≡ 500 ∷ []
unfolding from_raw_parts
keys_at_4000 = refl

select_certified_key_example :
    let found = first_choice only_seven choices (hello_schemes scheme_hello stocked) in
    (rustls_client_hello_select_certified_key only_seven 520 4000 1 4100 stocked
      ≡ picked 4100 found stocked)
    × (resolve_from_choices only_seven choices (hello_schemes scheme_hello stocked) stocked
        ≡ clone_found found stocked)
select_certified_key_example =
    select_certified_key_lem only_seven 520 4000 1 4100 scheme_hello choices stocked (omega arith)
      refl (omega arith) (omega arith) (omega arith) keys_at_4000 ((omega arith, refl), tt)

-- The client sends a host name of three bytes.
abbrev sni : ℕ → Option Slice
sni s = some (record { ptr = 50; elems = 97 ∷ 98 ∷ 99 ∷ [] })

a_server-as_server : as_server a_server ≡ some 3
unfolding as_server
a_server-as_server = refl

get_sni_hostname_example :
    (r : RustlsResult) × (w' : World Conn) × (rustls_server_connection_get_sni_hostname ℕ sni place
        2000 8 3000
        (holding a_server)
      ≡ done r w')
    × SniReport (sni 3) 2000 8 3000 (holding a_server) r w'
get_sni_hostname_example =
    get_sni_hostname-SniReport sni place 2000 8 3000 a_server 3 (holding a_server) (omega arith)
      (omega arith) (omega arith) refl a_server-as_server (inr (omega arith))
