-- ===== src/Server/Config/Serving.antt =====
-- A server connection from its making to its end, with any calls on it, after C has given up the
-- configuration.
use rustls_ffi.Panic.{unit_null, unit_panic, result_null, result_panic}
use rustls_ffi.World.{World}
use rustls_ffi.Connection.State.{Connection}
