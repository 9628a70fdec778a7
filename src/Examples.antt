-- ===== src/Examples.antt =====
-- Concrete states for the examples: one thread, one connection at address 1000, a memory of zeros,
-- and a rustls and callbacks that do something simple.
pub mod Stack
pub mod Errors
pub mod Connections
pub mod Sessions
pub mod Certificates
pub mod Callbacks
pub mod Configs
pub mod Servers
pub mod Programs
pub mod Calls
pub mod Clients
use rustls_ffi.Prelude.{
  ℕ, Bool, suc, ◌+◌, false, ◌==◌, if◌then◌else◌, Option, none, some, [], Result, ok, err, refl, ◌≢◌,
}
use rustls_ffi.Panic.{Run, done, panicked, fault, Cmd, pure, modify, ◌>>◌, IoResult, io_result}
use rustls_ffi.Memory.{Ptr, Memory, null, write}
use rustls_ffi.Error.Mapping.{RustlsError}
use rustls_ffi.Userdata.{Local, userdata_push, try_drop, guard_new}
use rustls_ffi.Userdata.Guards.{IsAvailable}
use rustls_ffi.World.{Slot, boxed, World, put, on_memory}
use rustls_ffi.Ownership.{CastPtr}
use rustls_ffi.Io.{ErrorKind, IoError, Reader, Writer, IoCallbacks, Io}
use rustls_ffi.Connection.State.{RustlsConnection, client, server, RustlsApi, Connection}

abbrev pub idle_thread : Local
idle_thread = record { destroyed = false; borrowed = false; stack = [] }

pub idle_thread-IsAvailable : IsAvailable idle_thread
idle_thread-IsAvailable = record { alive = refl; free = refl }

abbrev pub zeros : Memory
zeros q = 0

-- Objects that are numbers, and objects that are connections.
instance abbrev pub number_cast : CastPtr ℕ ℕ
number_cast = record { rust_type = some; object = λ n. n; rust_type-object = λ n. refl }

abbrev pub Conn : Type 0
Conn = Connection ℕ ℕ

instance abbrev pub connection_cast : CastPtr Conn Conn
connection_cast = record { rust_type = some; object = λ c. c; rust_type-object = λ c. refl }

abbrev pub place : Ptr
place = 1000

abbrev pub a_client : Conn
a_client = record { conn = client 3; userdata = 70; log_callback = some 5 }

abbrev pub a_server : Conn
a_server = record { conn = server 3; userdata = 70; log_callback = some 5 }

abbrev pub holding : Conn → World Conn
holding cn = record {
  mem = zeros;
  heap = put place (some (boxed cn)) (λ q. none);
  local = idle_thread;
}

-- What a callback does to the stack that calls back into the library once.
abbrev pub reentered : Local → Local
reentered l = (try_drop (guard_new 90) (userdata_push 90 none l).1).1

-- A rustls whose client counts its calls, and whose server panics when it processes packets.
abbrev pub toy_packets :
    {O : Type 0} → Cmd (RustlsConnection ℕ ℕ × World O) (Result RustlsError (Unit {0}))
toy_packets (client n, w) = done (ok tt) (client (suc n), record w { local = reentered w.local })
toy_packets (server n, w) = panicked (server n, record w { local = reentered w.local })

-- The client counts the bytes that it has read, and adds the value of the first one.
abbrev pub stash : {O : Type 0} → RustlsConnection ℕ ℕ → World O → Io ℕ → RustlsConnection ℕ ℕ
stash (client n) w (ok k) = client (n + k + w.mem 2000)
stash (client n) w (err e) = client n
stash (server n) w r = server n

abbrev pub toy_read_tls :
    {O : Type 0} → Reader (World O) → Cmd (RustlsConnection ℕ ℕ × World O) (Io ℕ)
toy_read_tls rd (conn, w) = elim (rd 2000 16 w) [
  | done r w' ↦ done r (stash conn w' r, w')
  | panicked w' ↦ panicked (conn, w')
  | fault ↦ fault
]

abbrev pub toy_rustls : {O : Type 0} → RustlsApi ℕ ℕ ℕ (World O)
toy_rustls = record {
  read_tls = toy_read_tls;
  write_tls = λ wr. pure (ok 0);
  process_new_packets = toy_packets;
  set_buffer_limit = λ n. pure tt;
  send_close_notify = pure tt;
  writer_write = λ s. pure (ok 4);
  reader_read = λ buf n. pure (err (IoError.simple ErrorKind.would_block));
  reader_read_buf = λ buf n. pure (ok tt, 0);
  wants_read = λ c. false;
  wants_write = λ c. false;
  is_handshaking = λ c. false;
  peer_certificates = λ c. none;
  alpn_protocol = λ c. none;
  protocol_version = λ c. none;
  negotiated_cipher_suite = λ c. some 2;
}

-- Callbacks: function 8 reads 5 bytes, the first of which is 42, function 9 fails with errno 11.
abbrev pub toy_read_callback :
    {O : Type 0} → Bool → (buf : Ptr) (o : ℕ) → Cmd (World O) (IoResult × ℕ)
toy_read_callback b buf o =
    if b then on_memory (modify (write buf 42)) >> pure (io_result 0, 5) else pure (io_result 11, o)

abbrev pub toy_callbacks : {O : Type 0} → IoCallbacks (World O)
toy_callbacks = record {
  read_callback = λ cb u buf n o. toy_read_callback (cb == 8) buf o;
  write_callback = λ cb u buf n o. pure (io_result 0, n);
  write_vectored_callback = λ cb u iov n o. pure (io_result 0, o);
  os_kind = λ e. ErrorKind.would_block;
}
