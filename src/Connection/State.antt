-- ===== src/Connection/State.antt =====
-- connection.rs: `Connection`. rustls' own connection is of a type `A` (client) or `B` (server), and
-- what it does is the parameter `RustlsApi`. Its methods that do input or output, or that may call
-- back into C, work on the state `W` of the caller too.
use rustls_ffi.Prelude.{ℕ, Bool, Option, none, some, List, Result}
use rustls_ffi.Panic.{done, panicked, fault, Cmd}
use rustls_ffi.Memory.{Ptr, null}
use rustls_ffi.Error.Mapping.{RustlsError}
use rustls_ffi.Slice.{Slice}
use rustls_ffi.Userdata.{FnPtr}
use rustls_ffi.Io.{Io, Reader, Writer}

-- `rustls::Connection`
pub data RustlsConnection (A B : Type 0) : Type 0 where
  client : A → RustlsConnection A B
  server : B → RustlsConnection A B

-- The methods of `rustls::Connection` that the library calls. `S` is `SupportedCipherSuite`.
pub record RustlsApi (A B S W : Type 0) : Type 0 where
  pub read_tls : Reader W → Cmd (RustlsConnection A B × W) (Io ℕ)
  pub write_tls : Writer W → Cmd (RustlsConnection A B × W) (Io ℕ)
  pub process_new_packets : Cmd (RustlsConnection A B × W) (Result RustlsError (Unit {0}))
  pub set_buffer_limit : Option ℕ → Cmd (RustlsConnection A B × W) (Unit {0})
  pub send_close_notify : Cmd (RustlsConnection A B × W) (Unit {0})
  -- `writer().write`, `reader().read` and `reader().read_buf`, the last with the filled length
  pub writer_write : Slice → Cmd (RustlsConnection A B × W) (Io ℕ)
  pub reader_read : (buf : Ptr) (count : ℕ) → Cmd (RustlsConnection A B × W) (Io ℕ)
  pub reader_read_buf : (buf : Ptr) (count : ℕ) → Cmd (RustlsConnection A B × W) (Io (Unit {0}) × ℕ)
  pub wants_read : RustlsConnection A B → Bool
  pub wants_write : RustlsConnection A B → Bool
  pub is_handshaking : RustlsConnection A B → Bool
  pub peer_certificates : RustlsConnection A B → Option (List Slice)
  pub alpn_protocol : RustlsConnection A B → Option Slice
  -- the version's number
  pub protocol_version : RustlsConnection A B → Option ℕ
  pub negotiated_cipher_suite : RustlsConnection A B → Option S

-- A suite of the static table `ALL_CIPHER_SUITES`, with its address.
pub record StaticSuite (S : Type 0) : Type 0 where
  pub at : Ptr
  pub suite : S

pub record Connection (A B : Type 0) : Type 0 where
  pub conn : RustlsConnection A B
  pub userdata : Ptr
  pub log_callback : Option FnPtr

module _ {A B : Type 0} where
  unfoldable pub from_client : A → Connection A B
  from_client c = record { conn = client c; userdata = null; log_callback = none }

  unfoldable pub from_server : B → Connection A B
  from_server s = record { conn = server s; userdata = null; log_callback = none }

  abbrev pub client_of : RustlsConnection A B → Option A
  client_of (client c) = some c
  client_of (server s) = none

  abbrev pub server_of : RustlsConnection A B → Option B
  server_of (client c) = none
  server_of (server s) = some s

  unfoldable pub as_client : Connection A B → Option A
  as_client self = client_of self.conn

  unfoldable pub as_server : Connection A B → Option B
  as_server self = server_of self.conn

  -- `DerefMut`: a method of the inner connection, called on the outer one.
  abbrev pub with_conn :
      {W R : Type 0} → Cmd (RustlsConnection A B × W) R → Cmd (Connection A B × W) R
  with_conn m (c, w) = elim (m (c.conn, w)) [
    | done r (conn, w') ↦ done r (record c { conn = conn }, w')
    | panicked (conn, w') ↦ panicked (record c { conn = conn }, w')
    | fault ↦ fault
  ]
