-- ===== src/Connection/Tls.antt =====
-- connection.rs: the calls that move TLS bytes and process them, and those that set up a connection.
use rustls_ffi.Prelude.{ℕ, Bool, Option, some, Result, ok, err, if◌then◌else◌, unwrap_or}
use rustls_ffi.Panic.{
  Run, done, panicked, fault, Cmd, pure, modify, ◌>>=◌, ◌>>◌, IoResult, io_result, einval, eio,
  io_result_null, io_result_panic, result_null, result_panic, unit_null, unit_panic,
  ffi_panic_boundary,
}
use rustls_ffi.Memory.{Ptr, is_null, write}
use rustls_ffi.Error.Codes.{RustlsResult}
use rustls_ffi.Error.Mapping.{RustlsError, map_error}
use rustls_ffi.Userdata.{FnPtr, UserdataGuard, UserdataError, userdata_push, try_drop, drop}
use rustls_ffi.World.{World, on_memory, on_local, lift}
use rustls_ffi.Ownership.{CastPtr, try_mut_from_ptr, try_callback}
use rustls_ffi.Io.{
  Io, IoCallbacks, raw_os_error, callback_read, callback_writer, vectored_callback_writer,
}
use rustls_ffi.Log.{LogHost, ensure_log_registered}
use rustls_ffi.Connection.State.{RustlsApi, Connection, with_conn}

module _ {O : Type 0} (A B : Type 0) ⦃c : CastPtr O (Connection A B)⦄ where
  unfoldable pub rustls_connection_set_userdata : (conn userdata : Ptr) → Cmd (World O) (Unit {0})
  rustls_connection_set_userdata conn userdata =
      try_mut_from_ptr {T = Connection A B} conn
        λ (c, w). done tt (record c { userdata = userdata }, w)

  unfoldable pub rustls_connection_set_log_callback :
      LogHost (World O)
      → (no_log_capture : Bool) (conn : Ptr) → Option FnPtr
      → Cmd (World O) (Unit {0})
  rustls_connection_set_log_callback log no_log_capture conn cb =
      try_mut_from_ptr {T = Connection A B} conn (
        lift (ensure_log_registered log no_log_capture)
        >> (λ (c, w). done tt (record c { log_callback = cb }, w)))

module _ {O A B : Type 0} where
  -- `match … { Ok(n) => n, Err(e) => return rustls_io_result(e.raw_os_error().unwrap_or(EIO)) }`,
  -- and what follows it in `read_tls`, `write_tls` and `write_tls_vectored`.
  abbrev pub report_n : Ptr → Io ℕ → Cmd (Connection A B × World O) IoResult
  report_n out_n (ok n) = lift (on_memory (modify (write out_n n))) >> pure (io_result 0)
  report_n out_n (err e) = pure (io_result (unwrap_or (raw_os_error e) eio))

  -- The drop of a guard that a panic unwinds past.
  abbrev pub unwind :
      {R : Type 0}
      → UserdataGuard
      → Run (Connection A B × World O) R
      → Run (Connection A B × World O) R
  unwind g (done r s) = done r s
  unwind g (panicked (c, w)) = panicked (c, record w { local = drop g w.local })
  unwind g fault = fault

abbrev pub after_drop : RustlsResult → Result UserdataError (Unit {0}) → RustlsResult
after_drop result (ok _) = result
after_drop result (err _) = RustlsResult.panic

-- `match conn.process_new_packets() { Ok(_) => rustls_result::Ok, Err(e) => map_error(e) }`
abbrev pub result_of : Result RustlsError (Unit {0}) → RustlsResult
unfolding map_error
result_of (ok _) = RustlsResult.ok
result_of (err e) = map_error e

module _ {O A B S : Type 0} ⦃c : CastPtr O (Connection A B)⦄
    (rustls : RustlsApi A B S (World O)) where
  open rustls use {read_tls, write_tls, process_new_packets, set_buffer_limit, send_close_notify}

  module _ (host : IoCallbacks (World O)) where
    unfoldable pub rustls_connection_read_tls :
        (conn : Ptr) (callback : Option FnPtr) (userdata out_n : Ptr) → Cmd (World O) IoResult
    rustls_connection_read_tls conn callback userdata out_n = ffi_panic_boundary (
        try_mut_from_ptr {T = Connection A B} conn (
          if is_null out_n
          then pure (io_result einval)
          else try_callback callback λ callback.
            with_conn
              (read_tls (callback_read host (record { callback = callback; userdata = userdata })))
            >>= report_n out_n))

    unfoldable pub rustls_connection_write_tls :
        (conn : Ptr) (callback : Option FnPtr) (userdata out_n : Ptr) → Cmd (World O) IoResult
    rustls_connection_write_tls conn callback userdata out_n = ffi_panic_boundary (
        try_mut_from_ptr {T = Connection A B} conn (
          if is_null out_n
          then pure (io_result einval)
          else try_callback callback λ callback.
            with_conn (
              write_tls
                (callback_writer host (record { callback = callback; userdata = userdata })))
            >>= report_n out_n))

    unfoldable pub rustls_connection_write_tls_vectored :
        (conn : Ptr) (callback : Option FnPtr) (userdata out_n : Ptr) → Cmd (World O) IoResult
    rustls_connection_write_tls_vectored conn callback userdata out_n = ffi_panic_boundary (
        try_mut_from_ptr {T = Connection A B} conn (
          if is_null out_n
          then pure (io_result einval)
          else try_callback callback λ callback.
            with_conn (
              write_tls (
                vectored_callback_writer host
                  (record { callback = callback; userdata = userdata })))
            >>= report_n out_n))

  -- `process_new_packets` while the guard is live, and the guard's `try_drop`.
  unfoldable pub process_guarded : UserdataGuard → Cmd (Connection A B × World O) RustlsResult
  process_guarded g s = unwind g (
      (with_conn process_new_packets >>= λ r.
      lift (on_local (try_drop g)) >>= λ dropped. pure (after_drop (result_of r) dropped))
        s)

  -- `match userdata_push(…) { Ok(g) => g, Err(_) => return rustls_result::Panic }`
  abbrev pub guarded_by :
      Result UserdataError UserdataGuard → Cmd (Connection A B × World O) RustlsResult
  guarded_by (ok guard) = process_guarded guard
  guarded_by (err _) = pure RustlsResult.panic

  -- The call, inside its panic boundary.
  unfoldable pub packets_body : (conn : Ptr) → Cmd (World O) RustlsResult
  packets_body conn =
      try_mut_from_ptr {T = Connection A B} conn
        λ (c, w). (lift (on_local (userdata_push c.userdata c.log_callback)) >>= guarded_by) (c, w)

  unfoldable pub rustls_connection_process_new_packets : (conn : Ptr) → Cmd (World O) RustlsResult
  unfolding packets_body
  rustls_connection_process_new_packets conn = ffi_panic_boundary (packets_body conn)

  unfoldable pub rustls_connection_set_buffer_limit :
      (conn : Ptr) (n : ℕ) → Cmd (World O) (Unit {0})
  rustls_connection_set_buffer_limit conn n =
      ffi_panic_boundary
        (try_mut_from_ptr {T = Connection A B} conn (with_conn (set_buffer_limit (some n))))

  unfoldable pub rustls_connection_send_close_notify : (conn : Ptr) → Cmd (World O) (Unit {0})
  rustls_connection_send_close_notify conn =
      ffi_panic_boundary (try_mut_from_ptr {T = Connection A B} conn (with_conn send_close_notify))
