-- ===== src/Examples/Connections.antt =====
-- Calls on a connection, with the simple rustls and callbacks.
use rustls_ffi.Prelude.{◌≡◌, refl, some, arith}
use rustls_ffi.Panic.{done, io_result}
use rustls_ffi.Error.Codes.{RustlsResult}
use rustls_ffi.Memory.{write}
use rustls_ffi.Connection.State.{client, server}
use rustls_ffi.Connection.Tls.{rustls_connection_read_tls, rustls_connection_process_new_packets}
use rustls_ffi.Connection.Plaintext.{slice_at, rustls_connection_read, rustls_connection_write}
use rustls_ffi.Connection.Data.{ended, read_status, write_status, plaintext_lem}
use rustls_ffi.Connection.Packets.{entered, left, process_new_packets_panicked}
use rustls_ffi.Connection.Transfer.{lent, returned, ReadsOnce, read_tls-callback}
use rustls_ffi.Examples.{
  Conn, stash, place, a_client, a_server, holding, toy_read_tls, toy_rustls, toy_callbacks,
  idle_thread, idle_thread-IsAvailable, connection_cast, reentered,
}
use rustls_ffi.Examples.Stack.{reentered-Nested}

-- rustls panics, after such a callback.
process_new_packets_panicked_example :
    let cn = a_server in
    let w = entered toy_rustls place cn (holding cn) in
    let w' = record w { local = reentered w.local } in
    rustls_connection_process_new_packets toy_rustls place (holding cn)
    ≡ done RustlsResult.panic (left toy_rustls place cn (server 3) idle_thread w')
process_new_packets_panicked_example =
    process_new_packets_panicked toy_rustls place a_server (holding a_server) _ (server 3)
      (omega arith) refl idle_thread-IsAvailable refl reentered-Nested

toy-ReadsOnce : ReadsOnce {O = Conn} toy_rustls toy_callbacks (client 3) 2000 16 (stash (client 3))
toy-ReadsOnce rd w w' r e fits = rw (e, toy_read_tls, toy_rustls)

-- A callback that reads 5 bytes, the first of which is 42.
read_tls-callback_example :
    let w = lent place (holding a_client) in
    let w' = record w { mem = write 2000 42 w.mem } in
    rustls_connection_read_tls toy_rustls toy_callbacks place (some 8) 70 800 (holding a_client)
    ≡ done (io_result 0) (returned place a_client (client 50) (write 800 5 w'.mem) w')
read_tls-callback_example =
    read_tls-callback toy_rustls toy_callbacks place 8 70 800 2000 16 0 5 a_client
      (holding a_client) _ (stash (client 3)) (omega arith) (omega arith) refl toy-ReadsOnce
      (λ z. omega arith) refl

-- A read that would block, and a write of 16 bytes that takes 4.
plaintext_example :
    let w = holding a_client in
    (rustls_connection_read toy_rustls place 2000 16 800 w
      ≡ ended read_status place 800 a_client
          (toy_rustls.reader_read 2000 16 (client 3, lent place w)))
    × (rustls_connection_write toy_rustls place 2000 16 800 w
        ≡ ended write_status place 800 a_client
            (toy_rustls.writer_write (slice_at 2000 16 w) (client 3, lent place w)))
plaintext_example =
    plaintext_lem toy_rustls place 2000 16 800 a_client (holding a_client) (omega arith)
      (omega arith) (omega arith) refl
