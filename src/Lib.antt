-- ===== src/Lib.antt =====
-- Verification of rustls-ffi, the C interface of the TLS library rustls.
--
-- The program's parts. C code holds opaque pointers to Rust objects and calls functions that are
-- declared `extern "C"`. Each call turns its pointers into references, Boxes or Arcs (src/lib.rs),
-- returns early on NULL, stops panics at a boundary (src/panic.rs), calls rustls, and reports the
-- outcome as a number (src/error.rs) or a view of Rust data (src/rslice.rs). rustls may call back
-- into C, for bytes (src/io.rs), sessions (src/session.rs) or log messages (src/log.rs). A callback
-- gets the userdata pointer on top of a stack that each thread keeps (src/lib.rs); the calls of
-- src/connection.rs push the connection's pointer there for the time of a call.
--
-- How it is modelled. A call is a `Cmd W A`: a function from a state to a run, which returns a value
-- and a state, panics from a state, or runs into undefined behaviour, a fault. The state `World` has
-- the memory that C shares, the heap of Rust objects, and the thread's userdata stack. An early
-- return is a branch. There is no loop but over lists, so no fuel. In src/cipher.rs the
-- frees of certified keys and of client certificate verifiers make an `Arc` of the opaque type, which
-- is not the type that the pointer was made from: they are faults, unless they get NULL, and the C
-- programs that are modelled do not call them.
--
--   Prelude     the shared names, lists and Boolean tests on the native numbers
--   Panic       src/panic.rs: `ffi_panic_boundary!`, `PanicOrDefault`, `NullParameterOrDefault`
--   Memory      the bytes and words that C and the library share
--   Error       src/error.rs: `Codes` the result numbers, `Mapping` `map_error` and
--               `cert_result_to_error`, `Display` the texts, `Report` `rustls_error` and
--               `rustls_result_is_cert_error`; `Numbers` and `Bounds` hold the proofs
--   Userdata    src/lib.rs, lines 42 to 187: the stack and `UserdataGuard`; proofs of single guards
--               are in `Guards`, of nested calls in `Nesting`
--   Slice       src/rslice.rs; the proofs are in `Views`; `Formatting` has `Debug` for `rustls_str`
--   World       the state of a call
--   Ownership   src/lib.rs, lines 292 to 497: `CastPtr`, `BoxCastPtr`, `ArcCastPtr` and the macros;
--               the proofs are in `References`. `Arcs` has several Arcs at once, as in a
--               configuration; `Slots`, `Counts`, `Taking`, `Lending`, `Dropping`, `Handles` and
--               `Replacing` prove what becomes of the reference counts, `Restoring` that they are
--               in the end as before; `Releasing` has what is asked of an allocator, `Pointers` the
--               pointers that C may give
--   Io          src/io.rs: the adapters of callbacks to `Read` and `Write`
--   Session     src/session.rs: `SessionStoreBroker`; the proofs are in `Store`
--   Log         src/log.rs: the logger; the proofs are in `Messages`
--   Connection  src/connection.rs: `State` the record, `Tls` the calls for TLS bytes and packets,
--               `Plaintext` those for plaintext, `Getters` those that only read; `Packets`,
--               `Transfer`, `Data`, `Nulls` and `Callbacks` hold the proofs about calls.
--               `Script` has C programs that use a connection; `Keeping`, `Bodies`,
--               `Returning`, `Lending`, `Life`, `Ending` and `Serving` hold the proofs about them
--   Cipher      src/cipher.rs: certified keys and root stores, with the proofs in `Keys` and `Roots`;
--               `Suites` has certificates, cipher suites and the verifiers of client certificates
--   Versions    src/enums.rs: the TLS versions
--   Config      what the configurations of src/client.rs and src/server.rs do alike with lists;
--               `Lists` holds the proofs
--   Server      src/server.rs: what is done with a client hello, in `Callback` the resolver that calls
--               C; `Selection`, `Hostname` and `Resolver` hold the proofs. `Config` is the builder and
--               what it builds: `Setters` and `Build` the calls; `Keys`, `Ends`, `Lifecycle`,
--               `Connecting`, `Disposal`, `Custom`, `Setting`, `Sequences` and
--               `Invariant` hold the proofs about calls. `Script` has C programs that use a builder and
--               a configuration; `Keeping`, `Life`, `Ending` and `Releasing` hold the proofs about them,
--               and `Serving` those about a program that makes a connection and uses it
--   Client      src/client.rs: the verifiers and the key resolver, with the proofs in `Verifier` and
--               `Resolver`; `Config` is the builder and what it builds, as for the server, with the
--               proofs also in `Roots` and `Protocols`, and with `Script`, `Keeping`, `Life`,
--               `Ending` and `Serving`
--   Examples    concrete states and runs
--   UnitTests   tests that stand in src/lib.rs, src/error.rs, src/rslice.rs, src/server.rs and
--               src/client.rs, run on the model; those whose outcome is rustls' own are left out
--
-- Parameters. rustls itself is `RustlsApi`, with its constructors `safe_defaults`,
-- `with_protocol_versions`, `server_connection` and `client_connection`, its tables of suites, and
-- the drop of a connection, `drop_connection`. The parsers of keys and certificates are `PemHost`,
-- the C callbacks are `IoCallbacks`, `SessionCallbacks`, `HelloHost`, `LogHost` and
-- `verify_callback`, files and host names are `RootFiles` and `HostNames`, parts of Rust's
-- formatting are `DebugHost`, the allocator is `alloc`, rustls' texts are `display_error`, and
-- Cargo's choice of overflow checks is `overflow_checks`. The objects of the heap are of any type
-- `O`; an instance of `CastPtr O T` says which of them are values of `T`. A configuration is what
-- the source sets of rustls' own; what it holds of C's objects are its Arcs.
--
-- Bounds. Addresses and sizes are natural numbers; `len - 1` in `rustls_error` is the subtraction
-- of `usize`, 64 bits wide, with both behaviours on underflow. A C program is a list of calls of
-- any length; that the allocator gives unused addresses is the hypothesis `Allocates`, and that
-- rustls and the callbacks leave a borrowed connection alone and nest their calls is
-- `IsWellBehaved`. Errno values are natural numbers, those of libc on Linux; negative ones are left
-- out.
--
-- Not modelled: the text that build.rs generates, the header that cbindgen generates, and the test
-- programs in C. Threads have a stack each, so one thread is modelled.
pub mod Prelude
pub mod Panic
pub mod Memory
pub mod Error
pub mod Userdata
pub mod Slice
pub mod World
pub mod Ownership
pub mod Io
pub mod Session
pub mod Log
pub mod Connection
pub mod Cipher
pub mod Versions
pub mod Config
pub mod Server
pub mod Client
pub mod Examples
pub mod UnitTests
