-- ===== src/Examples/Calls.antt =====
-- A C program of calls on a connection, on concrete inputs.
use rustls_ffi.Prelude.{
  ℕ, ◌≡◌, ◌≢◌, refl, ◌==◌, none, some, List, [], ◌∷◌, Result, ok, err, arith, suc, Bool, true,
  false,
}
use rustls_ffi.Panic.{Run, done, panicked, fault, Cmd, pure, ◌>>◌}
use rustls_ffi.Memory.{Ptr, null}
use rustls_ffi.Error.Mapping.{RustlsError}
use rustls_ffi.Userdata.{Local, UserdataGuard, UserdataError, userdata_push, try_drop}
use rustls_ffi.Userdata.Nesting.{Nested}
use rustls_ffi.World.{World}
use rustls_ffi.Io.{Io, Reader}
use rustls_ffi.Log.{LogHost}
use rustls_ffi.Connection.State.{RustlsConnection, client, server, RustlsApi}
use rustls_ffi.Connection.Plaintext.{rustls_connection_free}
use rustls_ffi.Connection.Keeping.{IsKept, unmoved-IsKept, Kept, KeptBy, Keeps, KeepsBy}
use rustls_ffi.Connection.Script.{ConnectionCall, calls, IsWellBehaved}
use rustls_ffi.Connection.Ending.{Ends, use_connection-Ends}
use rustls_ffi.Examples.{
  Conn, connection_cast, place, a_server, holding, toy_rustls, toy_callbacks, toy_read_callback,
  toy_read_tls, stash,
}

-- A callback that calls back into the library, if the stack takes its userdata.
abbrev dropped : Result UserdataError UserdataGuard × Local → Local
dropped (ok g, l) = (try_drop g l).1
dropped (err e, l) = l

abbrev called_back : Local → Local
called_back l = dropped (userdata_push 90 none l)

called_back-Nested : (l : Local) → Nested l (called_back l)
called_back-Nested l = go (userdata_push 90 none l) refl
  where
    go :
        (r : Result UserdataError UserdataGuard × Local)
        → userdata_push 90 none l ≡ r
        → Nested l (dropped r)
    go (ok g, k) is = Nested.scope 90 none g is Nested.idle refl
    go (err e, k) is = Nested.refused 90 none e is

-- The simple rustls, with such a callback, after which a server panics.
abbrev calling_packets :
    {O : Type 0} → Cmd (RustlsConnection ℕ ℕ × World O) (Result RustlsError (Unit {0}))
calling_packets (client n, w) =
    done (ok tt) (client (suc n), record w { local = called_back w.local })
calling_packets (server n, w) = panicked (server (suc n), record w { local = called_back w.local })

abbrev pub calling_rustls : {O : Type 0} → RustlsApi ℕ ℕ ℕ (World O)
calling_rustls = record toy_rustls { process_new_packets = calling_packets }

abbrev pub silent_log : {O : Type 0} → LogHost (World O)
silent_log = record {
  log_callback = λ cb u p. pure tt;
  set_logger = pure tt;
  set_max_level_debug = pure tt;
  string_at = λ w t. 5000;
}

module _ {O : Type 0} (Others : Ptr → Type 0) (p : Ptr) where
  kept : {w w' : World O} → w'.heap ≡ w.heap → Nested w.local w'.local → IsKept Others p w w'
  kept = unmoved-IsKept Others p

  read-Keeps :
      (rd : Reader (World O))
      → ((buf : Ptr) (n : ℕ) → Keeps Others p (rd buf n))
      → KeepsBy Others p (toy_read_tls {O = O} rd)
  read-Keeps rd keeps conn w e = go (rd 2000 16 w) (keeps 2000 16 w e)
    where
      go :
          (run : Run (World O) (Io ℕ))
          → Kept Others p w run
          → KeptBy Others p {T = RustlsConnection ℕ ℕ} w (elim run [
            | done r w' ↦ done r (stash conn w' r, w')
            | panicked w' ↦ panicked (conn, w')
            | fault ↦ fault
          ])
      go (done r w') k = k
      go (panicked w') k = k
      go fault k = k

  callback-Keeps :
      (b : Bool) (buf : Ptr) (o : ℕ) → Keeps {O = O} Others p (toy_read_callback b buf o)
  callback-Keeps true buf o w e = kept refl Nested.idle
  callback-Keeps false buf o w e = kept refl Nested.idle

  packets-KeepsBy : KeepsBy Others p (calling_packets {O = O})
  packets-KeepsBy (client n) w e = kept refl (called_back-Nested w.local)
  packets-KeepsBy (server n) w e = kept refl (called_back-Nested w.local)

  pub calling-IsWellBehaved :
      IsWellBehaved (calling_rustls {O = O}) toy_callbacks silent_log Others p
  calling-IsWellBehaved = record {
    read_tls_kept = read-Keeps;
    write_tls_kept = λ wr keeps conn w e. kept refl Nested.idle;
    packets_kept = packets-KeepsBy;
    buffer_limit_kept = λ n conn w e. kept refl Nested.idle;
    close_notify_kept = λ conn w e. kept refl Nested.idle;
    writer_kept = λ s conn w e. kept refl Nested.idle;
    reader_kept = λ buf n conn w e. kept refl Nested.idle;
    reader_buf_kept = λ buf n conn w e. kept refl Nested.idle;
    read_callback_kept = λ cb u buf n o. callback-Keeps (cb == 8) buf o;
    write_callback_kept = λ cb u buf n o w e. kept refl Nested.idle;
    write_vectored_callback_kept = λ cb u iov n o w e. kept refl Nested.idle;
    logger_kept = λ w e. (w, refl, kept refl Nested.idle);
  }

-- All other objects are kept.
abbrev Elsewhere : Ptr → Type 0
Elsewhere q = q ≢ place

abbrev pub a_program : List ConnectionCall
a_program =
    ConnectionCall.set_log_callback false (some 6)
    ∷ ConnectionCall.read_tls (some 9) 70 800
    ∷ ConnectionCall.read_tls none 70 800
    ∷ ConnectionCall.process_new_packets
    ∷ ConnectionCall.write null 4 800
    ∷ ConnectionCall.read 2000 16 null
    ∷ ConnectionCall.read_2 2000 16 800
    ∷ ConnectionCall.get_alpn_protocol 400 null
    ∷ ConnectionCall.send_close_notify
    ∷ []

abbrev no_drop : RustlsConnection ℕ ℕ → Cmd (World Conn) (Unit {0})
no_drop x = pure tt

-- A server that panics while it processes packets, among calls with NULLs.
use_connection-Ends_example :
    Ends Elsewhere place
      (calls calling_rustls toy_callbacks silent_log (λ a b. a == b) [] place a_program
        >> rustls_connection_free no_drop place)
      (holding a_server)
use_connection-Ends_example =
    use_connection-Ends no_drop Elsewhere place
      (λ x w e. unmoved-IsKept Elsewhere place refl Nested.idle) (omega arith) calling_rustls
      toy_callbacks silent_log (λ a b. a == b) [] (calling-IsWellBehaved Elsewhere place) a_program
      (holding a_server) (a_server, refl)
