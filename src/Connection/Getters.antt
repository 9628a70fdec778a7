-- ===== src/Connection/Getters.antt =====
-- connection.rs: the calls that read a connection and leave it as it is.
use rustls_ffi.Prelude.{
  ℕ, Bool, Option, none, some, List, [], ◌∷◌, ◌||◌, if◌then◌else◌, length, get_elem?, unwrap_or,
}
use rustls_ffi.Panic.{
  Cmd, pure, modify, ◌>>◌, bool_null, bool_panic, number_null, number_panic, unit_null, unit_panic,
  ffi_panic_boundary,
}
use rustls_ffi.Memory.{Ptr, null, is_null, write}
use rustls_ffi.Slice.{Slice}
use rustls_ffi.World.{World, on_memory}
use rustls_ffi.Ownership.{CastPtr, try_ref_from_ptr}
use rustls_ffi.Connection.State.{RustlsApi, StaticSuite, Connection}

-- `.and_then(|c| c.get(i))`, and the address of the certificate, or NULL.
abbrev pub certificate_at : Option (List Slice) → ℕ → Ptr
certificate_at none i = null
certificate_at (some certs) i = elim (get_elem? certs i) [ some cert ↦ cert.ptr | none ↦ null ]

-- The loop over `ALL_CIPHER_SUITES`: the address of the first suite equal to the negotiated one.
unfoldable pub find_suite : {S : Type 0} → (S → S → Bool) → S → List (StaticSuite S) → Ptr
find_suite suite_eq negotiated [] = null
find_suite suite_eq negotiated (cs ∷ rest) =
    if suite_eq negotiated cs.suite then cs.at else find_suite suite_eq negotiated rest

abbrev pub alpn_out :
    {O : Type 0} → Option Slice → (protocol_out protocol_out_len : Ptr) → Cmd (World O) (Unit {0})
alpn_out (some p) protocol_out protocol_out_len =
    on_memory
      (modify (write protocol_out p.ptr) >> modify (write protocol_out_len (length p.elems)))
alpn_out none protocol_out protocol_out_len =
    on_memory (modify (write protocol_out null) >> modify (write protocol_out_len 0))

module _ {O A B S : Type 0} ⦃c : CastPtr O (Connection A B)⦄
    (rustls : RustlsApi A B S (World O)) where
  open rustls use {
    wants_read, wants_write, is_handshaking, peer_certificates, alpn_protocol, protocol_version,
    negotiated_cipher_suite,
  }

  unfoldable pub rustls_connection_wants_read : (conn : Ptr) → Cmd (World O) Bool
  rustls_connection_wants_read conn =
      ffi_panic_boundary (try_ref_from_ptr {T = Connection A B} conn λ c. pure (wants_read c.conn))

  unfoldable pub rustls_connection_wants_write : (conn : Ptr) → Cmd (World O) Bool
  rustls_connection_wants_write conn =
      ffi_panic_boundary (try_ref_from_ptr {T = Connection A B} conn λ c. pure (wants_write c.conn))

  unfoldable pub rustls_connection_is_handshaking : (conn : Ptr) → Cmd (World O) Bool
  rustls_connection_is_handshaking conn =
      ffi_panic_boundary
        (try_ref_from_ptr {T = Connection A B} conn λ c. pure (is_handshaking c.conn))

  unfoldable pub rustls_connection_get_peer_certificate : (conn : Ptr) (i : ℕ) → Cmd (World O) Ptr
  rustls_connection_get_peer_certificate conn i = ffi_panic_boundary (
      try_ref_from_ptr {T = Connection A B} conn
        λ c. pure (certificate_at (peer_certificates c.conn) i))

  unfoldable pub rustls_connection_get_alpn_protocol :
      (conn protocol_out protocol_out_len : Ptr) → Cmd (World O) (Unit {0})
  rustls_connection_get_alpn_protocol conn protocol_out protocol_out_len = ffi_panic_boundary (
      try_ref_from_ptr {T = Connection A B} conn λ c.
        if is_null protocol_out || is_null protocol_out_len
        then pure tt
        else alpn_out (alpn_protocol c.conn) protocol_out protocol_out_len)

  unfoldable pub rustls_connection_get_protocol_version : (conn : Ptr) → Cmd (World O) ℕ
  rustls_connection_get_protocol_version conn =
      ffi_panic_boundary (
        try_ref_from_ptr {T = Connection A B} conn
          λ c. pure (unwrap_or (protocol_version c.conn) 0))

  unfoldable pub rustls_connection_get_negotiated_ciphersuite :
      (S → S → Bool) → (all_cipher_suites : List (StaticSuite S)) (conn : Ptr) → Cmd (World O) Ptr
  rustls_connection_get_negotiated_ciphersuite suite_eq all_cipher_suites conn =
      ffi_panic_boundary (
        try_ref_from_ptr {T = Connection A B} conn λ c.
          pure (elim (negotiated_cipher_suite c.conn) [
            | some negotiated ↦ find_suite suite_eq negotiated all_cipher_suites
            | none ↦ null
          ]))
