-- ===== src/Connection/Script.antt =====
-- What a C program may do with a connection while it holds it, as a program: a list of calls, with
-- their arguments, in any order, with NULL wherever a pointer is expected; and what the calls rely on
-- of rustls, of the callbacks and of the logger.
use rustls_ffi.Prelude.{ℕ, Bool, ◌≡◌, Option, some, List, [], ◌∷◌}
use rustls_ffi.Panic.{done, Cmd, pure, ◌>>◌, ignoring}
use rustls_ffi.Memory.{Ptr}
use rustls_ffi.Slice.{Slice}
use rustls_ffi.Userdata.{FnPtr}
use rustls_ffi.World.{borrowed, World}
use rustls_ffi.Ownership.{CastPtr}
use rustls_ffi.Io.{Io, Reader, Writer, IoCallbacks}
use rustls_ffi.Log.{LogHost}
use rustls_ffi.Connection.State.{RustlsApi, StaticSuite, Connection}
use rustls_ffi.Connection.Keeping.{IsKept, Keeps, KeepsBy}
use rustls_ffi.Connection.Tls.{
  rustls_connection_set_userdata, rustls_connection_set_log_callback, rustls_connection_read_tls,
  rustls_connection_write_tls, rustls_connection_write_tls_vectored,
  rustls_connection_process_new_packets, rustls_connection_set_buffer_limit,
  rustls_connection_send_close_notify,
}
use rustls_ffi.Connection.Plaintext.{
  rustls_connection_read, rustls_connection_read_2, rustls_connection_write,
}
use rustls_ffi.Connection.Getters.{
  rustls_connection_wants_read, rustls_connection_wants_write, rustls_connection_is_handshaking,
  rustls_connection_get_peer_certificate, rustls_connection_get_alpn_protocol,
  rustls_connection_get_protocol_version, rustls_connection_get_negotiated_ciphersuite,
}

pub data ConnectionCall : Type 0 where
  set_userdata : (userdata : Ptr) → ConnectionCall
  set_log_callback : (no_log_capture : Bool) → Option FnPtr → ConnectionCall
  read_tls : Option FnPtr → (userdata out_n : Ptr) → ConnectionCall
  write_tls : Option FnPtr → (userdata out_n : Ptr) → ConnectionCall
  write_tls_vectored : Option FnPtr → (userdata out_n : Ptr) → ConnectionCall
  process_new_packets : ConnectionCall
  set_buffer_limit : ℕ → ConnectionCall
  send_close_notify : ConnectionCall
  write : (buf : Ptr) (count : ℕ) (out_n : Ptr) → ConnectionCall
  read : (buf : Ptr) (count : ℕ) (out_n : Ptr) → ConnectionCall
  -- with the feature `read_buf`
  read_2 : (buf : Ptr) (count : ℕ) (out_n : Ptr) → ConnectionCall
  wants_read : ConnectionCall
  wants_write : ConnectionCall
  is_handshaking : ConnectionCall
  get_peer_certificate : ℕ → ConnectionCall
  get_alpn_protocol : (protocol_out protocol_out_len : Ptr) → ConnectionCall
  get_protocol_version : ConnectionCall
  get_negotiated_ciphersuite : ConnectionCall

module _ {O A B S : Type 0} ⦃c : CastPtr O (Connection A B)⦄ (rustls : RustlsApi A B S (World O))
    (host : IoCallbacks (World O)) (log : LogHost (World O)) where
  module _ (suite_eq : S → S → Bool) (all_cipher_suites : List (StaticSuite S)) where
    unfoldable pub call : (conn : Ptr) → ConnectionCall → Cmd (World O) (Unit {0})
    call p (ConnectionCall.set_userdata u) = rustls_connection_set_userdata A B p u
    call p (ConnectionCall.set_log_callback no_capture cb) =
        rustls_connection_set_log_callback A B log no_capture p cb
    call p (ConnectionCall.read_tls cb u out_n) =
        ignoring (rustls_connection_read_tls rustls host p cb u out_n)
    call p (ConnectionCall.write_tls cb u out_n) =
        ignoring (rustls_connection_write_tls rustls host p cb u out_n)
    call p (ConnectionCall.write_tls_vectored cb u out_n) =
        ignoring (rustls_connection_write_tls_vectored rustls host p cb u out_n)
    call p ConnectionCall.process_new_packets =
        ignoring (rustls_connection_process_new_packets rustls p)
    call p (ConnectionCall.set_buffer_limit n) = rustls_connection_set_buffer_limit rustls p n
    call p ConnectionCall.send_close_notify = rustls_connection_send_close_notify rustls p
    call p (ConnectionCall.write buf n out_n) =
        ignoring (rustls_connection_write rustls p buf n out_n)
    call p (ConnectionCall.read buf n out_n) =
        ignoring (rustls_connection_read rustls p buf n out_n)
    call p (ConnectionCall.read_2 buf n out_n) =
        ignoring (rustls_connection_read_2 rustls p buf n out_n)
    call p ConnectionCall.wants_read = ignoring (rustls_connection_wants_read rustls p)
    call p ConnectionCall.wants_write = ignoring (rustls_connection_wants_write rustls p)
    call p ConnectionCall.is_handshaking = ignoring (rustls_connection_is_handshaking rustls p)
    call p (ConnectionCall.get_peer_certificate i) =
        ignoring (rustls_connection_get_peer_certificate rustls p i)
    call p (ConnectionCall.get_alpn_protocol out out_len) =
        rustls_connection_get_alpn_protocol rustls p out out_len
    call p ConnectionCall.get_protocol_version =
        ignoring (rustls_connection_get_protocol_version rustls p)
    call p ConnectionCall.get_negotiated_ciphersuite =
        ignoring (rustls_connection_get_negotiated_ciphersuite rustls suite_eq all_cipher_suites p)

    unfoldable pub calls : (conn : Ptr) → List ConnectionCall → Cmd (World O) (Unit {0})
    calls p [] = pure tt
    calls p (c ∷ cs) = call p c >> calls p cs

-- The methods of a writer, while what stands at `p` is borrowed.
module _ {O : Type 0} (Others : Ptr → Type 0) (p : Ptr) where
  pub record IsKeptWriter (wr : Writer (World O)) : Type 0 where
    pub write_kept : (s : Slice) → Keeps Others p (wr.write s)
    pub flush_kept : Keeps Others p wr.flush
    pub write_vectored_kept :
        (write_vectored : List Slice → Cmd (World O) (Io ℕ))
        → wr.write_vectored ≡ some write_vectored
        → (bufs : List Slice) → Keeps Others p (write_vectored bufs)

-- While the connection at `p` is borrowed, neither rustls nor a callback reaches what stands at p or at
-- the addresses in `Others`, and they end, in a panic or not, without undefined behaviour, after
-- properly nested calls on the thread's stack: rustls' methods if the reader or writer that they are
-- given does so, and C's callbacks always. The crate `log` does not panic.
module _ {O A B S : Type 0} (rustls : RustlsApi A B S (World O)) (host : IoCallbacks (World O))
    (log : LogHost (World O)) (Others : Ptr → Type 0) (p : Ptr) where
  pub record IsWellBehaved : Type 0 where
    pub read_tls_kept :
        (rd : Reader (World O))
        → ((buf : Ptr) (n : ℕ) → Keeps Others p (rd buf n))
        → KeepsBy Others p (rustls.read_tls rd)
    pub write_tls_kept :
        (wr : Writer (World O)) → IsKeptWriter Others p wr → KeepsBy Others p (rustls.write_tls wr)
    pub packets_kept : KeepsBy Others p rustls.process_new_packets
    pub buffer_limit_kept : (n : Option ℕ) → KeepsBy Others p (rustls.set_buffer_limit n)
    pub close_notify_kept : KeepsBy Others p rustls.send_close_notify
    pub writer_kept : (s : Slice) → KeepsBy Others p (rustls.writer_write s)
    pub reader_kept : (buf : Ptr) (n : ℕ) → KeepsBy Others p (rustls.reader_read buf n)
    pub reader_buf_kept : (buf : Ptr) (n : ℕ) → KeepsBy Others p (rustls.reader_read_buf buf n)
    pub read_callback_kept :
        (cb : FnPtr) (u buf : Ptr) (n o : ℕ) → Keeps Others p (host.read_callback cb u buf n o)
    pub write_callback_kept :
        (cb : FnPtr) (u buf : Ptr) (n o : ℕ) → Keeps Others p (host.write_callback cb u buf n o)
    pub write_vectored_callback_kept :
        (cb : FnPtr) (u : Ptr) (iov : List Slice) (n o : ℕ)
        → Keeps Others p (host.write_vectored_callback cb u iov n o)
    pub logger_kept :
        (w : World O)
        → w.heap p ≡ some borrowed
        → (w' : World O) × ((log.set_logger >> log.set_max_level_debug) w ≡ done tt w')
          × IsKept Others p w w'
