-- ===== src/Connection/Packets.antt =====
-- `rustls_connection_process_new_packets`: the result, and the thread's stack around the call.
use rustls_ffi.Prelude.{◌≡◌, refl, ◌≢◌, Option, some, Result, ok, arith, ◌∙◌, ap}
use rustls_ffi.Panic.{Run, done, panicked, result_null, result_panic}
use rustls_ffi.Panic.Boundary.{boundary-done, boundary-panicked}
use rustls_ffi.Memory.{Ptr, null}
use rustls_ffi.Error.Codes.{RustlsResult}
use rustls_ffi.Error.Mapping.{RustlsError}
use rustls_ffi.Userdata.{FnPtr, Local, guard_new, try_drop, drop}
use rustls_ffi.Userdata.Guards.{IsAvailable, pushed, push-pushed}
use rustls_ffi.Userdata.Nesting.{Nested, Nested-restores, Nested-scope}
use rustls_ffi.World.{boxed, borrowed, World, put}
use rustls_ffi.Ownership.{CastPtr, give_back}
use rustls_ffi.Ownership.References.{try_mut-boxed}
use rustls_ffi.Connection.State.{RustlsConnection, RustlsApi, Connection}
use rustls_ffi.Connection.Tls.{
  result_of, process_guarded, packets_body, rustls_connection_process_new_packets,
}

module _ {O A B S : Type 0} ⦃c : CastPtr O (Connection A B)⦄
    (rustls : RustlsApi A B S (World O)) where
  -- The state in which rustls processes the packets of the connection `cn` at `p`: `cn` is borrowed,
  -- and its userdata and callback stand on top of the stack.
  abbrev pub entered : Ptr → Connection A B → World O → World O
  entered p cn w = record w {
    heap = put p (some borrowed) w.heap;
    local = pushed cn.userdata cn.log_callback w.local;
  }

  -- The state after the call, when rustls has left `x` as its connection and `w'` as the rest.
  abbrev pub left : Ptr → Connection A B → RustlsConnection A B → Local → World O → World O
  left p cn x local w' = record w' {
    heap = put p (some (boxed (c.object (record cn { conn = x })))) w'.heap;
    local = local;
  }

  -- The body of the call on a thread whose stack is available: the push succeeds.
  body-guarded :
      (p : Ptr) (cn : Connection A B) (w : World O) {r : Run (World O) RustlsResult}
      → p ≢ null
      → w.heap p ≡ some (boxed (c.object cn))
      → IsAvailable w.local
      → give_back p (process_guarded rustls (guard_new cn.userdata) (cn, entered p cn w)) ≡ r
      → packets_body rustls p w ≡ r
  unfolding packets_body
  body-guarded p cn w ne e a h =
      try_mut-boxed p cn w _ ne e ∙ rw (push-pushed cn.userdata cn.log_callback w.local a) h

  guarded-done :
      (u : Ptr) (cb : Option FnPtr) (cn : Connection A B) (w w' : World O)
      (x : RustlsConnection A B) (l : Local) (r : Result RustlsError (Unit {0}))
      → rustls.process_new_packets (cn.conn, w) ≡ done r (x, w')
      → try_drop (guard_new u) w'.local ≡ (ok tt, l)
      → process_guarded rustls (guard_new u) (cn, w)
        ≡ done (result_of r) (record cn { conn = x }, record w' { local = l })
  unfolding process_guarded
  guarded-done u cb cn w w' x l r e d = ground arith

  guarded-panicked :
      (u : Ptr) (cb : Option FnPtr) (cn : Connection A B) (w w' : World O)
      (x : RustlsConnection A B) (l : Local)
      → rustls.process_new_packets (cn.conn, w) ≡ panicked (x, w')
      → drop (guard_new u) w'.local ≡ l
      → process_guarded rustls (guard_new u) (cn, w)
        ≡ panicked (record cn { conn = x }, record w' { local = l })
  unfolding process_guarded
  guarded-panicked u cb cn w w' x l e d = ground arith

  pub process_new_packets_done :
      (p : Ptr) (cn : Connection A B) (w w' : World O) (x : RustlsConnection A B)
      (r : Result RustlsError (Unit {0}))
      → p ≢ null
      → w.heap p ≡ some (boxed (c.object cn))
      → IsAvailable w.local
      → rustls.process_new_packets (cn.conn, entered p cn w) ≡ done r (x, w')
      → Nested (pushed cn.userdata cn.log_callback w.local) w'.local
      → rustls_connection_process_new_packets rustls p w
        ≡ done (result_of r) (left p cn x w.local w')
  unfolding rustls_connection_process_new_packets
  process_new_packets_done p cn w w' x r ne e a ran nested =
      let push = push-pushed cn.userdata cn.log_callback w.local a in
      let dropped = (Nested-scope cn.userdata cn.log_callback push nested).2 in
      boundary-done (packets_body rustls p) w (
        body-guarded p cn w ne e a (
          ap (give_back p)
            (guarded-done cn.userdata cn.log_callback cn _ w' x w.local r ran dropped)))

  -- When a thread with an available stack processes packets, and rustls panics after callbacks that
  -- made only properly nested calls, the call returns Panic, the connection holds what rustls left,
  -- with its userdata and callback, and the stack is as before the call.
  pub process_new_packets_panicked :
      (p : Ptr) (cn : Connection A B) (w w' : World O) (x : RustlsConnection A B)
      → p ≢ null
      → w.heap p ≡ some (boxed (c.object cn))
      → IsAvailable w.local
      → rustls.process_new_packets (cn.conn, entered p cn w) ≡ panicked (x, w')
      → Nested (pushed cn.userdata cn.log_callback w.local) w'.local
      → rustls_connection_process_new_packets rustls p w
        ≡ done RustlsResult.panic (left p cn x w.local w')
  unfolding rustls_connection_process_new_packets
  process_new_packets_panicked p cn w w' x ne e a ran nested =
      let push = push-pushed cn.userdata cn.log_callback w.local a in
      let restored =
        Nested-restores (Nested.unwound cn.userdata cn.log_callback _ push nested refl) in
      boundary-panicked (packets_body rustls p) w (
        body-guarded p cn w ne e a (
          ap (give_back p)
            (guarded-panicked cn.userdata cn.log_callback cn _ w' x w.local ran restored)))
