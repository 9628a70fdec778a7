-- ===== src/Connection/Life.antt =====
-- Any program of calls on a connection that C holds: no call faults, panics out of the library or
-- loses the connection, and the thread's stack is left as it was.
use rustls_ffi.Prelude.{Bool, refl, ◌≢◌, none, some, List, [], ◌∷◌, unwrap_or}
use rustls_ffi.Panic.{
  Cmd, ignoring, io_result_null, io_result_panic, result_null, result_panic, unit_null, unit_panic,
  bool_null, bool_panic, number_null, number_panic,
}
use rustls_ffi.Panic.Boundary.{then-done}
use rustls_ffi.Memory.{Ptr, null}
use rustls_ffi.World.{World}
use rustls_ffi.Ownership.{CastPtr}
use rustls_ffi.Io.{IoCallbacks}
use rustls_ffi.Log.{LogHost}
use rustls_ffi.Connection.State.{RustlsApi, StaticSuite, Connection}
use rustls_ffi.Connection.Keeping.{HasConnection, Returns, unmoved-IsLeft, sequence-IsLeft}
use rustls_ffi.Connection.Script.{ConnectionCall, call, calls, IsWellBehaved}
use rustls_ffi.Connection.Tls.{
  rustls_connection_read_tls, rustls_connection_write_tls, rustls_connection_write_tls_vectored,
  rustls_connection_process_new_packets,
}
use rustls_ffi.Connection.Plaintext.{
  rustls_connection_read, rustls_connection_read_2, rustls_connection_write,
}
use rustls_ffi.Connection.Getters.{
  certificate_at, find_suite, rustls_connection_wants_read, rustls_connection_wants_write,
  rustls_connection_is_handshaking, rustls_connection_get_peer_certificate,
  rustls_connection_get_protocol_version, rustls_connection_get_negotiated_ciphersuite,
}
use rustls_ffi.Connection.Returning.{
  ignoring-Returns, get-Returns, alpn-Returns, set_userdata-Returns,
}
use rustls_ffi.Connection.Lending.{
  set_log_callback-Returns, read_tls-Returns, write_tls-Returns, write_tls_vectored-Returns,
  packets-Returns, limit-Returns, close_notify-Returns, read-Returns, read_2-Returns, write-Returns,
}

module _ {O A B S : Type 0} ⦃c : CastPtr O (Connection A B)⦄ (rustls : RustlsApi A B S (World O))
    (host : IoCallbacks (World O)) (log : LogHost (World O)) (suite_eq : S → S → Bool)
    (all_cipher_suites : List (StaticSuite S)) (Others : Ptr → Type 0) (p : Ptr)
    (behaved : IsWellBehaved rustls host log Others p) (ne : p ≢ null) where
  module _ (w : World O) (here : HasConnection A B p w) where
    got :
        {R : Type 0} (m : Cmd (World O) R)
        → Returns A B Others p m w
        → Returns A B Others p (ignoring m) w
    got m = ignoring-Returns A B Others p m w

    call-Returns :
        (it : ConnectionCall)
        → Returns A B Others p (call rustls host log suite_eq all_cipher_suites p it) w
    unfolding call rustls_connection_wants_read rustls_connection_wants_write
        rustls_connection_is_handshaking rustls_connection_get_peer_certificate
        rustls_connection_get_protocol_version rustls_connection_get_negotiated_ciphersuite
    call-Returns (ConnectionCall.set_userdata u) = set_userdata-Returns A B Others p w ne here u
    call-Returns (ConnectionCall.set_log_callback no_capture cb) =
        set_log_callback-Returns rustls host log Others p behaved w ne here no_capture cb
    call-Returns (ConnectionCall.read_tls cb u out_n) =
        got (rustls_connection_read_tls rustls host p cb u out_n)
          (read_tls-Returns rustls host log Others p behaved w ne here cb u out_n)
    call-Returns (ConnectionCall.write_tls cb u out_n) =
        got (rustls_connection_write_tls rustls host p cb u out_n)
          (write_tls-Returns rustls host log Others p behaved w ne here cb u out_n)
    call-Returns (ConnectionCall.write_tls_vectored cb u out_n) =
        got (rustls_connection_write_tls_vectored rustls host p cb u out_n)
          (write_tls_vectored-Returns rustls host log Others p behaved w ne here cb u out_n)
    call-Returns ConnectionCall.process_new_packets =
        got (rustls_connection_process_new_packets rustls p)
          (packets-Returns rustls host log Others p behaved w ne here)
    call-Returns (ConnectionCall.set_buffer_limit n) =
        limit-Returns rustls host log Others p behaved w ne here n
    call-Returns ConnectionCall.send_close_notify =
        close_notify-Returns rustls host log Others p behaved w ne here
    call-Returns (ConnectionCall.write buf n out_n) =
        got (rustls_connection_write rustls p buf n out_n)
          (write-Returns rustls host log Others p behaved w ne here buf n out_n)
    call-Returns (ConnectionCall.read buf n out_n) =
        got (rustls_connection_read rustls p buf n out_n)
          (read-Returns rustls host log Others p behaved w ne here buf n out_n)
    call-Returns (ConnectionCall.read_2 buf n out_n) =
        got (rustls_connection_read_2 rustls p buf n out_n)
          (read_2-Returns rustls host log Others p behaved w ne here buf n out_n)
    call-Returns ConnectionCall.wants_read =
        got (rustls_connection_wants_read rustls p)
          (get-Returns A B Others p w ne here λ cn. rustls.wants_read cn.conn)
    call-Returns ConnectionCall.wants_write =
        got (rustls_connection_wants_write rustls p)
          (get-Returns A B Others p w ne here λ cn. rustls.wants_write cn.conn)
    call-Returns ConnectionCall.is_handshaking =
        got (rustls_connection_is_handshaking rustls p)
          (get-Returns A B Others p w ne here λ cn. rustls.is_handshaking cn.conn)
    call-Returns (ConnectionCall.get_peer_certificate i) =
        got (rustls_connection_get_peer_certificate rustls p i) (
          get-Returns A B Others p w ne here
            λ cn. certificate_at (rustls.peer_certificates cn.conn) i)
    call-Returns (ConnectionCall.get_alpn_protocol out out_len) =
        alpn-Returns A B Others p w ne here rustls out out_len
    call-Returns ConnectionCall.get_protocol_version =
        got (rustls_connection_get_protocol_version rustls p)
          (get-Returns A B Others p w ne here λ cn. unwrap_or (rustls.protocol_version cn.conn) 0)
    call-Returns ConnectionCall.get_negotiated_ciphersuite =
        got (rustls_connection_get_negotiated_ciphersuite rustls suite_eq all_cipher_suites p) (
          get-Returns A B Others p w ne here λ cn. elim (rustls.negotiated_cipher_suite cn.conn) [
            | some negotiated ↦ find_suite suite_eq negotiated all_cipher_suites
            | none ↦ null
          ])

  -- A program makes any list of calls on a connection, with any arguments. If rustls, the callbacks and
  -- the logger are well-behaved while the connection is borrowed, and a connection stands at the pointer,
  -- which is not NULL, then the program returns, also when rustls or a callback panics; a connection
  -- still stands there, and the other objects that they keep and the thread's stack are as before.
  pub calls-Returns :
      (cs : List ConnectionCall) (w : World O)
      → HasConnection A B p w
      → Returns A B Others p (calls rustls host log suite_eq all_cipher_suites p cs) w
  unfolding calls
  calls-Returns [] w here = (tt, w, refl, unmoved-IsLeft A B Others p w w here refl refl)
  calls-Returns (it ∷ cs) w here =
      let (r1, w1, is1, left1) = call-Returns w here it in
      let (r2, w2, is2, left2) = calls-Returns cs w1 left1.connection in
      (
        tt,
        w2,
        then-done (call rustls host log suite_eq all_cipher_suites p it)
            (calls rustls host log suite_eq all_cipher_suites p cs) w is1 is2,
        sequence-IsLeft A B Others p left1 left2,
      )
