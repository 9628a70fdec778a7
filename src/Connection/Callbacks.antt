-- ===== src/Connection/Callbacks.antt =====
-- What the callbacks of C get while a connection's packets are processed.
use rustls_ffi.Prelude.{ℕ, ◌≡◌, ap, ◌∙◌, ◌≢◌, Bool, Option, some, List, Result, ok, false}
use rustls_ffi.Panic.{done, Cmd, ◌>>=◌, ◌>>◌}
use rustls_ffi.Panic.Boundary.{bind-done, then-done}
use rustls_ffi.Memory.{Ptr, null}
use rustls_ffi.Error.Mapping.{RustlsError}
use rustls_ffi.Slice.{Slice, slice_bytes, contains}
use rustls_ffi.Userdata.{FnPtr}
use rustls_ffi.Userdata.Guards.{IsAvailable, pushed, push-pushed}
use rustls_ffi.Userdata.Nesting.{Nested, Nested-scope}
use rustls_ffi.World.{boxed, World, lift}
use rustls_ffi.Ownership.{CastPtr}
use rustls_ffi.Ownership.Lending.{lift-done}
use rustls_ffi.Session.{
  SessionCallbacks, SessionStoreBroker, buffer_len, retrieve_for, retrieve_with, retrieve,
}
use rustls_ffi.Log.{LogRecord, LogHost, log}
use rustls_ffi.Log.Messages.{LevelIs, text_of, params, with_text, log-called}
use rustls_ffi.Connection.State.{RustlsConnection, RustlsApi, Connection}
use rustls_ffi.Connection.Tls.{result_of, rustls_connection_process_new_packets}
use rustls_ffi.Connection.Packets.{entered, left, process_new_packets_done}

module _ {O A B S : Type 0} (rustls : RustlsApi A B S (World O)) (logs : LogHost (World O))
    (sessions : SessionCallbacks (World O)) (vec_at : World O → ℕ → Ptr)
    (broker : SessionStoreBroker) (key : Slice) (remove : Bool) (r : LogRecord)
    (first : Cmd (World O) (Unit {0}))
    (next : Option (List ℕ)
      → Cmd (RustlsConnection A B × World O) (Result RustlsError (Unit {0}))) where
  abbrev find : Cmd (World O) (Option (List ℕ))
  find = retrieve sessions vec_at broker key remove

  abbrev look : Cmd (RustlsConnection A B × World O) (Result RustlsError (Unit {0}))
  look = lift find >>= next

  abbrev log_then_look : Cmd (RustlsConnection A B × World O) (Result RustlsError (Unit {0}))
  log_then_look = lift (log logs r) >> look

  -- A rustls that processes packets so: it does `first`, logs the record `r`, looks for the session
  -- of `key` in the store of `broker`, and goes on as `next` with what it finds.
  abbrev pub logging_and_resuming : RustlsApi A B S (World O)
  logging_and_resuming = record rustls { process_new_packets = lift first >> log_then_look }

  module _ ⦃c : CastPtr O (Connection A B)⦄ where
    -- While rustls processes the packets of a connection that has a log callback, on a thread that can
    -- use its stack, it logs a record, whose text has no NUL byte, and looks for a session. What it
    -- does before, and what the callbacks and rustls do to the stack, is properly nested, and they
    -- return. Then the log callback is called with the connection's userdata, the number of the
    -- record's level and its text, and the get callback of the session store with the connection's
    -- userdata and the key; what rustls makes of the session that it gets decides the result of the
    -- call and the connection afterwards, and the stack is as before.
    pub callbacks_get_userdata :
        (p : Ptr) (cn : Connection A B) (cb : FnPtr) (n : ℕ) (found : Option (List ℕ))
        (w w1 w2 w3 w4 : World O) (x : RustlsConnection A B) (res : Result RustlsError (Unit {0}))
        → p ≢ null
        → w.heap p ≡ some (boxed (c.object cn))
        → IsAvailable w.local
        → cn.log_callback ≡ some cb
        → LevelIs r.level n
        → contains (text_of r) 0 ≡ false
        → first (entered rustls p cn w) ≡ done tt w1
        → Nested (pushed cn.userdata cn.log_callback w.local) w1.local
        → logs.log_callback cb cn.userdata (params logs r n w1) (with_text logs r w1) ≡ done tt w2
        → Nested w1.local w2.local
        → retrieve_with sessions vec_at broker
            (slice_bytes key)
            remove
            cn.userdata
            (vec_at w2 buffer_len)
            w2
          ≡ done found w3
        → next found (cn.conn, w3) ≡ done res (x, w4)
        → Nested w2.local w4.local
        → rustls_connection_process_new_packets logging_and_resuming p w
          ≡ done (result_of res) (left rustls p cn x w.local w4)
    unfolding retrieve
    callbacks_get_userdata p cn cb n found w w1 w2 w3 w4 x res ne held a with_cb is clean e1 n1 e2
          n2 e3 e4 n4 =
        let push = push-pushed cn.userdata cn.log_callback w.local a in
        let (_, got_callback, _) = Nested-scope cn.userdata cn.log_callback push n1 in
        let n12 = Nested.sequence n1 n2 in
        let (got, _, _) = Nested-scope cn.userdata cn.log_callback push n12 in
        let logged : log logs r w1 ≡ done tt w2 =
          log-called logs r n cb cn.userdata w1 is
            (got_callback ∙ ap (λ o. (ok (o, cn.userdata), w1.local)) with_cb) clean
          ∙ e2 in
        let looked : find w2 ≡ done found w3 = rw (got, retrieve_for) e3 in
        process_new_packets_done logging_and_resuming p cn w w4 x res ne held a
          (then-done (lift first) log_then_look _ (lift-done first cn.conn _ e1) (
            then-done (lift (log logs r)) look _ (lift-done (log logs r) cn.conn w1 logged) (
              bind-done (lift find) next {w = (cn.conn, w2)} (lift-done find cn.conn w2 looked)
              ∙ e4)))
          (Nested.sequence n12 n4)
