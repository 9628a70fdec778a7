-- ===== src/Error/Report.antt =====
-- error.rs: `rustls_error` and `rustls_result_is_cert_error`.
use rustls_ffi.Prelude.{
  ℕ, ◌+◌, ◌-◌, ◌^◌, Bool, true, false, List, ltb, if◌then◌else◌, length, take, min,
}
use rustls_ffi.Panic.{Cmd, pure, panic, modify, ◌>>=◌, ◌>>◌, ffi_panic_boundary}
use rustls_ffi.Memory.{Ptr, Memory, is_null, write, copy}
use rustls_ffi.Error.Codes.{RustlsResult, try_from_or}
use rustls_ffi.Error.Mapping.{RustlsError}
use rustls_ffi.Error.Display.{to_string}

-- `usize`, 64 bits wide
abbrev pub usize_mod : ℕ
usize_mod = 2 ^ 64

-- `a - b` on `usize`. Below 0 it panics in a build with overflow checks (Cargo's dev profile), and
-- wraps around in one without (the release profile).
unfoldable pub usize_sub : Bool → ℕ → ℕ → Cmd Memory ℕ
usize_sub overflow_checks a b =
    if ltb a b then if overflow_checks then panic else pure (a + usize_mod - b) else pure (a - b)

module _ (display_error : RustlsError → List ℕ) (overflow_checks : Bool) where
  unfoldable pub rustls_error :
      (result : ℕ) (buf : Ptr) (len : ℕ) (out_n : Ptr) → Cmd Memory (Unit {0})
  unfolding ffi_panic_boundary usize_sub
  rustls_error result buf len out_n = ffi_panic_boundary (
      if is_null buf then pure tt else if is_null out_n then pure tt else do
        let result = try_from_or result RustlsResult.invalid_parameter
        let error_str = to_string display_error result
        room ← usize_sub overflow_checks len 1
        let out_len = min room (length error_str)
        modify (copy (take out_len error_str) buf)
        modify (write out_n out_len))

unfoldable pub is_cert_error : RustlsResult → Bool
is_cert_error RustlsResult.cert_invalid_encoding = true
is_cert_error RustlsResult.cert_invalid_signature_type = true
is_cert_error RustlsResult.cert_invalid_signature = true
is_cert_error RustlsResult.cert_invalid_data = true
is_cert_error RustlsResult.cert_sct_malformed = true
is_cert_error RustlsResult.cert_sct_invalid_signature = true
is_cert_error RustlsResult.cert_sct_timestamp_in_future = true
is_cert_error RustlsResult.cert_sct_unsupported_version = true
is_cert_error RustlsResult.cert_sct_unknown_log = true
is_cert_error _ = false

unfoldable pub rustls_result_is_cert_error : ℕ → Bool
unfolding is_cert_error
rustls_result_is_cert_error result =
    is_cert_error (try_from_or result RustlsResult.invalid_parameter)
