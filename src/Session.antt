-- ===== src/Session.antt =====
-- session.rs: the broker between rustls' session cache and the C callbacks that store sessions.
-- What the callbacks do is the parameter `SessionCallbacks`, where the memory of a new Vec lies the
-- parameter `vec_at`.
pub mod Store
use rustls_ffi.Prelude.{
  ℕ, ◌*◌, Bool, true, false, Option, none, some, List, Result, ok, err, ◌==◌, ltb, if◌then◌else◌,
}
use rustls_ffi.Panic.{Cmd, pure, undefined, modify, ◌>>=◌, ◌>>◌}
use rustls_ffi.Memory.{Ptr, zeroed, from_raw_parts}
use rustls_ffi.Error.Codes.{RustlsResult, code, try_from_or}
use rustls_ffi.Slice.{Slice, RustlsSliceBytes, slice_bytes}
use rustls_ffi.Userdata.{FnPtr, UserdataError, userdata_get}
use rustls_ffi.World.{World, on_local, on_memory}

pub record SessionCallbacks (W : Type 0) : Type 0 where
  -- the result, and what is left in `*out_n`
  pub get_callback :
      FnPtr
      → (userdata : Ptr) (key : RustlsSliceBytes) (remove_after : ℕ) (buf : Ptr) (count : ℕ)
        (out_n : ℕ)
      → Cmd W (ℕ × ℕ)
  pub put_callback : FnPtr → (userdata : Ptr) (key value : RustlsSliceBytes) → Cmd W ℕ

pub record SessionStoreBroker : Type 0 where
  pub get_cb : FnPtr
  pub put_cb : FnPtr

-- `SessionStoreBroker::new`
unfoldable pub broker_new : FnPtr → FnPtr → SessionStoreBroker
broker_new get_cb put_cb = record { get_cb = get_cb; put_cb = put_cb }

-- The size of the buffer for a session.
abbrev pub buffer_len : ℕ
buffer_len = 65 * 1024

-- `remove as c_int`
abbrev pub c_int : Bool → ℕ
c_int true = 1
c_int false = 0

-- `matches!(r, rustls_result::Ok)`
unfoldable pub is_ok : RustlsResult → Bool
is_ok RustlsResult.ok = true
is_ok _ = false

module _ {O : Type 0} where
  -- The buffer's bytes after `data.set_len(out_n)`, which is undefined beyond the capacity.
  abbrev pub set_len : Ptr → ℕ → Cmd (World O) (Option (List ℕ))
  set_len data_ptr out_n w =
      if ltb buffer_len out_n
      then undefined w
      else pure (some (from_raw_parts data_ptr out_n w.mem)) w

  -- The match on the callback's result.
  abbrev pub received : Ptr → ℕ × ℕ → Cmd (World O) (Option (List ℕ))
  received data_ptr (result, out_n) =
      if is_ok (try_from_or result RustlsResult.general) then set_len data_ptr out_n else pure none

module _ {O : Type 0} (host : SessionCallbacks (World O)) (vec_at : World O → ℕ → Ptr) where
  -- The call of the callback in `retrieve`, and what is made of its answer.
  unfoldable pub retrieve_with :
      SessionStoreBroker
      → RustlsSliceBytes
      → Bool
      → (userdata data_ptr : Ptr) → Cmd (World O) (Option (List ℕ))
  retrieve_with self key remove userdata data_ptr =
      on_memory (modify (zeroed data_ptr buffer_len))
      >> (host.get_callback self.get_cb userdata key (c_int remove) data_ptr buffer_len 0
          >>= received data_ptr)

  abbrev pub retrieve_for :
      SessionStoreBroker → Slice → Bool → Result UserdataError Ptr → Cmd (World O) (Option (List ℕ))
  retrieve_for self key remove (ok userdata) w =
      retrieve_with self (slice_bytes key) remove userdata (vec_at w buffer_len) w
  retrieve_for self key remove (err e) w = pure none w

  unfoldable pub retrieve : SessionStoreBroker → Slice → Bool → Cmd (World O) (Option (List ℕ))
  retrieve self key remove = on_local userdata_get >>= retrieve_for self key remove

  abbrev pub store_for :
      SessionStoreBroker → (key value : Slice) → Result UserdataError Ptr → Cmd (World O) Bool
  store_for self key value (ok userdata) =
      host.put_callback self.put_cb userdata (slice_bytes key) (slice_bytes value) >>= λ result.
      pure (result == code RustlsResult.ok)
  store_for self key value (err e) = pure false

  unfoldable pub store : SessionStoreBroker → (key value : Slice) → Cmd (World O) Bool
  store self key value = on_local userdata_get >>= store_for self key value

  -- `StoresServerSessions`, and of it the part that `StoresClientSessions` has too
  unfoldable pub session_put : SessionStoreBroker → (key value : Slice) → Cmd (World O) Bool
  unfolding store
  session_put self key value = store self key value

  unfoldable pub session_get : SessionStoreBroker → Slice → Cmd (World O) (Option (List ℕ))
  unfolding retrieve
  session_get self key = retrieve self key false

  unfoldable pub session_take : SessionStoreBroker → Slice → Cmd (World O) (Option (List ℕ))
  unfolding retrieve
  session_take self key = retrieve self key true

unfoldable pub can_cache : SessionStoreBroker → Bool
can_cache self = true
