-- ===== src/Connection/Lending.antt =====
-- The calls that borrow a connection while rustls and callbacks run: each returns, with a connection
-- still in its place and the thread's stack as before.
use rustls_ffi.Prelude.{
  ℕ, Bool, true, false, ◌≡◌, refl, ◌∙◌, ap, ◌≢◌, Option, some, if◌then◌else◌, ◌||◌,
}
use rustls_ffi.Panic.{
  done, Cmd, pure, ◌>>=◌, ◌>>◌, io_result, einval, io_result_null, io_result_panic, result_null,
  result_panic, unit_null, unit_panic, bool_null, bool_panic, number_null, number_panic,
}
use rustls_ffi.Panic.Boundary.{then-done}
use rustls_ffi.Memory.{Ptr, null, is_null}
use rustls_ffi.Error.Codes.{RustlsResult}
use rustls_ffi.Userdata.{FnPtr}
use rustls_ffi.Userdata.Nesting.{Nested}
use rustls_ffi.World.{borrowed, World, put, lift}
use rustls_ffi.Ownership.{CastPtr, give_back, try_callback}
use rustls_ffi.Ownership.References.{try_mut-boxed}
use rustls_ffi.Ownership.Slots.{put_here}
use rustls_ffi.Io.{IoCallbacks, Callback, Writer, callback_read}
use rustls_ffi.Log.{LogHost, ensure_log_registered}
use rustls_ffi.Connection.State.{RustlsApi, Connection, with_conn}
use rustls_ffi.Connection.Keeping.{
  KeepsBy, HasConnection, Returns, unmoved-IsKept, given_back-IsLeft, mut-Returns, pure-Keeps,
  bind-Keeps, if-Keeps, with_conn-Keeps,
}
use rustls_ffi.Connection.Script.{IsKeptWriter, IsWellBehaved}
use rustls_ffi.Connection.Bodies.{
  callback_read-Keeps, callback_writer-Keeps, vectored_writer-Keeps, report_n-Keeps,
  report_read-Keeps, report_read_buf-Keeps, report_write-Keeps, try_callback-Keeps, try_slice-Keeps,
  packets-Keeps,
}
use rustls_ffi.Connection.Tls.{
  report_n, rustls_connection_set_log_callback, rustls_connection_read_tls,
  rustls_connection_write_tls, rustls_connection_write_tls_vectored, packets_body,
  rustls_connection_process_new_packets, rustls_connection_set_buffer_limit,
  rustls_connection_send_close_notify,
}
use rustls_ffi.Connection.Plaintext.{
  slice_at, report_read, report_read_buf, report_write, rustls_connection_read,
  rustls_connection_read_2, rustls_connection_write,
}

-- A command that returns, in the scope of a borrowed value.
lift-done :
    {T W R : Type 0} (m : Cmd W R) (t : T) (w : W) {w' : W} {r : R}
    → m w ≡ done r w'
    → lift m (t, w) ≡ done r (t, w')
lift-done m t w e = rw (e, lift)

module _ {O A B S : Type 0} ⦃c : CastPtr O (Connection A B)⦄ (rustls : RustlsApi A B S (World O))
    (host : IoCallbacks (World O)) (log : LogHost (World O)) (Others : Ptr → Type 0) (p : Ptr)
    (behaved : IsWellBehaved rustls host log Others p) where
  -- What runs in the calls that move bytes.
  read_body-Keeps :
      (callback : Option FnPtr) (u out_n : Ptr)
      → KeepsBy Others p {T = Connection A B} (
          if is_null out_n
          then pure (io_result einval)
          else try_callback callback λ f.
            with_conn (rustls.read_tls (callback_read host (record { callback = f; userdata = u })))
            >>= report_n out_n)
  read_body-Keeps callback u out_n =
      if-Keeps Others p (is_null out_n) _ _ (pure-Keeps Others p (io_result einval)) (
        try_callback-Keeps Others p callback _ λ f.
          let cb : Callback = record { callback = f; userdata = u } in
          bind-Keeps Others p (with_conn (rustls.read_tls (callback_read host cb))) (report_n out_n)
            (with_conn-Keeps Others p (rustls.read_tls (callback_read host cb))
              (behaved.read_tls_kept _ (callback_read-Keeps Others p behaved cb)))
            (report_n-Keeps Others p out_n))

  write_body-Keeps :
      (adapter : Callback → Writer (World O))
      → ((cb : Callback) → IsKeptWriter Others p (adapter cb))
      → (callback : Option FnPtr) (u out_n : Ptr)
      → KeepsBy Others p {T = Connection A B} (
          if is_null out_n
          then pure (io_result einval)
          else try_callback callback λ f.
            with_conn (rustls.write_tls (adapter (record { callback = f; userdata = u })))
            >>= report_n out_n)
  write_body-Keeps adapter kept callback u out_n =
      if-Keeps Others p (is_null out_n) _ _ (pure-Keeps Others p (io_result einval)) (
        try_callback-Keeps Others p callback _ λ f.
          let cb : Callback = record { callback = f; userdata = u } in
          bind-Keeps Others p (with_conn (rustls.write_tls (adapter cb))) (report_n out_n)
            (with_conn-Keeps Others p (rustls.write_tls (adapter cb))
              (behaved.write_tls_kept _ (kept cb)))
            (report_n-Keeps Others p out_n))

  module _ (w : World O) (ne : p ≢ null) (here : HasConnection A B p w) where
    pub set_log_callback-Returns :
        (no_log_capture : Bool) (cb : Option FnPtr)
        → Returns A B Others p (rustls_connection_set_log_callback A B log no_log_capture p cb) w
    unfolding rustls_connection_set_log_callback ensure_log_registered
    set_log_callback-Returns true cb =
        let lent = record w { heap = put p (some borrowed) w.heap } in
        (
          tt,
          _,
          try_mut-boxed p here.0 w _ ne here.1,
          given_back-IsLeft A B Others p w lent (record here.0 { log_callback = cb })
              (unmoved-IsKept Others p refl Nested.idle),
        )
    set_log_callback-Returns false cb =
        let lent = record w { heap = put p (some borrowed) w.heap } in
        let (w', is, kept) = behaved.logger_kept lent (put_here p (some borrowed) w.heap) in
        (
          tt,
          _,
          try_mut-boxed p here.0 w _ ne here.1
              ∙ ap (give_back p) (
                  then-done (lift (log.set_logger >> log.set_max_level_debug))
                    (λ (cn, v). done tt (record cn { log_callback = cb }, v)) (here.0, lent)
                    (lift-done (log.set_logger >> log.set_max_level_debug) here.0 lent is) refl),
          given_back-IsLeft A B Others p w w' (record here.0 { log_callback = cb }) kept,
        )

    pub read_tls-Returns :
        (cb : Option FnPtr) (u out_n : Ptr)
        → Returns A B Others p (rustls_connection_read_tls rustls host p cb u out_n) w
    unfolding rustls_connection_read_tls
    read_tls-Returns cb u out_n = mut-Returns A B Others p _ (read_body-Keeps cb u out_n) w ne here

    pub write_tls-Returns :
        (cb : Option FnPtr) (u out_n : Ptr)
        → Returns A B Others p (rustls_connection_write_tls rustls host p cb u out_n) w
    unfolding rustls_connection_write_tls
    write_tls-Returns cb u out_n =
        mut-Returns A B Others p _
          (write_body-Keeps _ (callback_writer-Keeps Others p behaved) cb u out_n) w ne here

    pub write_tls_vectored-Returns :
        (cb : Option FnPtr) (u out_n : Ptr)
        → Returns A B Others p (rustls_connection_write_tls_vectored rustls host p cb u out_n) w
    unfolding rustls_connection_write_tls_vectored
    write_tls_vectored-Returns cb u out_n =
        mut-Returns A B Others p _
          (write_body-Keeps _ (vectored_writer-Keeps Others p behaved) cb u out_n) w ne here

    pub packets-Returns : Returns A B Others p (rustls_connection_process_new_packets rustls p) w
    unfolding rustls_connection_process_new_packets packets_body
    packets-Returns =
        mut-Returns A B Others p _ (packets-Keeps Others p rustls behaved.packets_kept) w ne here

    pub limit-Returns :
        (n : ℕ) → Returns A B Others p (rustls_connection_set_buffer_limit rustls p n) w
    unfolding rustls_connection_set_buffer_limit
    limit-Returns n =
        mut-Returns A B Others p _
          (with_conn-Keeps Others p (rustls.set_buffer_limit (some n))
            (behaved.buffer_limit_kept (some n)))
          w ne here

    pub close_notify-Returns : Returns A B Others p (rustls_connection_send_close_notify rustls p) w
    unfolding rustls_connection_send_close_notify
    close_notify-Returns =
        mut-Returns A B Others p _
          (with_conn-Keeps Others p rustls.send_close_notify behaved.close_notify_kept) w ne here

    pub read-Returns :
        (buf : Ptr) (n : ℕ) (out_n : Ptr)
        → Returns A B Others p (rustls_connection_read rustls p buf n out_n) w
    unfolding rustls_connection_read
    read-Returns buf n out_n =
        mut-Returns A B Others p _
          (if-Keeps Others p (is_null buf) _ _ (pure-Keeps Others p RustlsResult.null_parameter) (
            if-Keeps Others p (is_null out_n) _ _ (pure-Keeps Others p RustlsResult.null_parameter)
              (bind-Keeps Others p (with_conn (rustls.reader_read buf n)) (report_read out_n)
                (with_conn-Keeps Others p (rustls.reader_read buf n) (behaved.reader_kept buf n))
                (report_read-Keeps Others p out_n))))
          w ne here

    pub read_2-Returns :
        (buf : Ptr) (n : ℕ) (out_n : Ptr)
        → Returns A B Others p (rustls_connection_read_2 rustls p buf n out_n) w
    unfolding rustls_connection_read_2
    read_2-Returns buf n out_n =
        mut-Returns A B Others p _
          (if-Keeps Others p (is_null buf || is_null out_n) _ _
            (pure-Keeps Others p RustlsResult.null_parameter)
            (bind-Keeps Others p (with_conn (rustls.reader_read_buf buf n)) (report_read_buf out_n)
              (with_conn-Keeps Others p (rustls.reader_read_buf buf n)
                (behaved.reader_buf_kept buf n))
              (report_read_buf-Keeps Others p out_n)))
          w ne here

    pub write-Returns :
        (buf : Ptr) (n : ℕ) (out_n : Ptr)
        → Returns A B Others p (rustls_connection_write rustls p buf n out_n) w
    unfolding rustls_connection_write
    write-Returns buf n out_n =
        mut-Returns A B Others p _
          (try_slice-Keeps Others p buf _ (
            if-Keeps Others p (is_null out_n) _ _ (pure-Keeps Others p RustlsResult.null_parameter)
              λ cn v.
                bind-Keeps Others p (with_conn (rustls.writer_write (slice_at buf n v)))
                  (report_write out_n)
                  (with_conn-Keeps Others p (rustls.writer_write (slice_at buf n v))
                    (behaved.writer_kept (slice_at buf n v)))
                  (report_write-Keeps Others p out_n) cn v))
          w ne here
