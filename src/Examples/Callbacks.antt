-- ===== src/Examples/Callbacks.antt =====
-- Log records, NULL arguments, and the callback for a client hello on concrete inputs.
use rustls_ffi.Prelude.{
  ℕ, ◌≡◌, refl, ◌⊎◌, inr, true, false, Option, none, some, List, [], ◌∷◌, length, Result, ok, arith,
}
use rustls_ffi.Panic.{Cmd, done, pure, modify, io_result, einval}
use rustls_ffi.Memory.{Ptr, null, write, from_raw_parts}
use rustls_ffi.Error.Codes.{RustlsResult, code, try_from_or}
use rustls_ffi.Error.Mapping.{RustlsError}
use rustls_ffi.Slice.{slice_bytes, contains}
use rustls_ffi.Userdata.{FnPtr, Userdata, userdata_get}
use rustls_ffi.Userdata.Guards.{pushed}
use rustls_ffi.Userdata.Nesting.{Nested}
use rustls_ffi.World.{World, on_memory}
use rustls_ffi.Session.{SessionCallbacks, is_ok, retrieve_with}
use rustls_ffi.Session.Store.{with_buffer}
use rustls_ffi.Log.{Level, LogRecord, LogHost, log}
use rustls_ffi.Log.Messages.{info_is, text_of, Unheard, Top, params, with_text, log_lem}
use rustls_ffi.Connection.State.{RustlsConnection, client}
use rustls_ffi.Connection.Packets.{entered, left}
use rustls_ffi.Connection.Tls.{
  result_of, rustls_connection_process_new_packets, rustls_connection_read_tls,
  rustls_connection_write_tls, rustls_connection_write_tls_vectored,
}
use rustls_ffi.Connection.Plaintext.{rustls_connection_read, rustls_connection_write}
use rustls_ffi.Connection.Nulls.{no_out_n, null_arguments}
use rustls_ffi.Connection.Callbacks.{logging_and_resuming, callbacks_get_userdata}
use rustls_ffi.Server.Callback.{
  ReceivedHello, HelloHost, ClientHelloResolver, name_of, resolve_hello,
}
use rustls_ffi.Server.Resolver.{with_schemes, hello_for, resolve_hello_lem}
use rustls_ffi.Examples.{
  Conn, idle_thread, reentered, place, a_client, holding, toy_rustls, toy_callbacks,
  idle_thread-IsAvailable, connection_cast,
}
use rustls_ffi.Examples.Stack.{reentered-Nested}
use rustls_ffi.Examples.Sessions.{broker, session_key, quiet}
use rustls_ffi.Examples.Certificates.{key_cast, key_seven, stocked, Object}

abbrev quiet_log : LogHost (World ℕ)
quiet_log = record {
  log_callback = λ cb u p. pure tt;
  set_logger = pure tt;
  set_max_level_debug = pure tt;
  string_at = λ w t. 5000;
}

abbrev a_record : LogRecord
a_record = record { level = Level.info; target = 97 ∷ []; args = 98 ∷ [] }

abbrev pushed_world : World ℕ
pushed_world = record quiet { local = pushed 70 (some 5) quiet.local }

log_example :
    let message = (params quiet_log a_record 3 pushed_world).message in
    ((u : Userdata) × (cb : FnPtr) × Top pushed_world.local u cb
      × (contains (text_of a_record) 0 ≡ false)
      × (from_raw_parts message.chars message.len (with_text quiet_log a_record pushed_world).mem
          ≡ text_of a_record)
      × (log quiet_log a_record pushed_world
          ≡ quiet_log.log_callback cb u.userdata
              (params quiet_log a_record 3 pushed_world)
              (with_text quiet_log a_record pushed_world)))
    ⊎ (Unheard (text_of a_record) pushed_world.local
        × (log quiet_log a_record pushed_world ≡ done tt pushed_world))
log_example = log_lem quiet_log a_record 3 pushed_world info_is

no_nul : contains (text_of a_record) 0 ≡ false
unfolding contains
no_nul = refl

-- The connection of the examples in an otherwise idle world, whose rustls calls back into the library,
-- logs a record, and counts the bytes of the session that it finds.
abbrev call_back : Cmd (World Conn) (Unit {0})
call_back w = done tt (record w { local = reentered w.local })

abbrev count_found :
    Option (List ℕ) → Cmd (RustlsConnection ℕ ℕ × World Conn) (Result RustlsError (Unit {0}))
count_found none (conn, w) = done (ok tt) (conn, w)
count_found (some s) (conn, w) = done (ok tt) (client (length s), w)

abbrev at_the_start : World Conn
at_the_start = entered toy_rustls place a_client (holding a_client)

-- The log callback takes a note of its userdata, the get callback answers with its own.
abbrev a_log : LogHost (World Conn)
a_log = record {
  log_callback = λ cb u p. on_memory (modify (write 6000 u));
  set_logger = pure tt;
  set_max_level_debug = pure tt;
  string_at = λ w t. 5000;
}

abbrev a_store : SessionCallbacks (World Conn)
a_store = record {
  get_callback = λ cb u key remove buf n o w.
      done (code RustlsResult.ok, 1) (record w { mem = write buf u w.mem });
  put_callback = λ cb u key value. pure (code RustlsResult.ok);
}

abbrev a_place : World Conn → ℕ → Ptr
a_place w n = 9000

abbrev called : World Conn
called = record at_the_start { local = reentered at_the_start.local }

abbrev logged : World Conn
logged = record called { mem = write 6000 70 (with_text a_log a_record called).mem }

abbrev found_session : World Conn
found_session = record logged {
  mem = write 9000 70 (with_buffer a_store a_place broker 9000 logged).mem;
}

found_one :
    retrieve_with a_store a_place broker (slice_bytes session_key) true 70 9000 logged
    ≡ done (some (70 ∷ [])) found_session
unfolding retrieve_with is_ok try_from_or from_raw_parts
found_one = refl

callbacks_get_userdata_example :
    rustls_connection_process_new_packets
      (logging_and_resuming toy_rustls a_log a_store a_place broker session_key true a_record
        call_back count_found)
      place
      (holding a_client)
    ≡ done (result_of (ok tt)) (left toy_rustls place a_client (client 1) idle_thread found_session)
callbacks_get_userdata_example =
    callbacks_get_userdata toy_rustls a_log a_store a_place broker session_key true a_record
      call_back count_found place a_client 5 3 (some (70 ∷ [])) (holding a_client) called logged
      found_session found_session (client 1) (ok tt) (omega arith) refl idle_thread-IsAvailable refl
      info_is no_nul refl reentered-Nested refl Nested.idle found_one refl Nested.idle

null_arguments_example :
    let w = holding a_client in
    (rustls_connection_read_tls toy_rustls toy_callbacks place (some 8) 70 null w
      ≡ done (io_result einval) w)
    × (rustls_connection_write_tls toy_rustls toy_callbacks place (some 8) 70 null w
        ≡ done (io_result einval) w)
    × (rustls_connection_write_tls_vectored toy_rustls toy_callbacks place (some 8) 70 null w
        ≡ done (io_result einval) w)
    × (rustls_connection_read toy_rustls place 2000 16 null w ≡ done RustlsResult.null_parameter w)
    × (rustls_connection_write toy_rustls place 2000 16 null w ≡ done RustlsResult.null_parameter w)
null_arguments_example =
    null_arguments toy_rustls toy_callbacks place null (some 8) 70 2000 16 (holding a_client)
      (no_out_n place a_client (omega arith) refl)

-- The callback gives the key at 500.
abbrev gives_500 : HelloHost (World Object)
gives_500 = record { hello_callback = λ cb u h. pure 500; vec_at = λ w xs. 3000; empty_at = 1 }

abbrev resolver : ClientHelloResolver
resolver = record { callback = 4 }

abbrev received : ReceivedHello
received = record {
  server_name = some (record { ptr = 50; elems = 97 ∷ [] });
  signature_schemes = 513 ∷ 1027 ∷ [];
  alpn = none;
}

abbrev in_call : World Object
in_call = record stocked { local = pushed 70 none stocked.local }

received_no_nul : contains (name_of gives_500 received).elems 0 ≡ false
unfolding contains
received_no_nul = refl

in_call_userdata : userdata_get in_call.local ≡ (ok 70, in_call.local)
unfolding userdata_get
in_call_userdata = refl

resolve_hello_example :
    let s = (hello_for gives_500 received in_call).signature_schemes in
    (from_raw_parts s.words s.len (with_schemes gives_500 received in_call).mem ≡ 513 ∷ 1027 ∷ [])
    × (resolve_hello _ gives_500 resolver received in_call
        ≡ done (some key_seven) (with_schemes gives_500 received in_call))
resolve_hello_example =
    resolve_hello_lem gives_500 resolver received 70 500 (some key_seven) in_call _ received_no_nul
      in_call_userdata refl (inr (key_seven, omega arith, refl, refl))
