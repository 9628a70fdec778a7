-- ===== src/Examples/Errors.antt =====
-- Results, their texts, and the views of slices on concrete inputs.
use rustls_ffi.Prelude.{
  ℕ, ◌^◌, ◌≤◌, ◌<◌, ◌≡◌, refl, ◌≢◌, ◌⊎◌, inr, true, false, some, List, [], ◌∷◌, arith, length,
  get_elem?,
}
use rustls_ffi.Panic.{done}
use rustls_ffi.Memory.{Memory, null, from_raw_parts, write, copy}
use rustls_ffi.Error.Codes.{RustlsResult, code, try_from_or}
use rustls_ffi.Error.Mapping.{RustlsError, AlertDescription, map_error, cert_result_to_error}
use rustls_ffi.Error.Display.{error, message_of, to_string}
use rustls_ffi.Error.Report.{rustls_error, rustls_result_is_cert_error}
use rustls_ffi.Error.Numbers.{cert_result_to_error_lem, loses_payload, message_of-map_error}
use rustls_ffi.Error.Bounds.{
  error_text, Reported, rustls_error-Reported, rustls_error_empty_overruns,
}
use rustls_ffi.Slice.{
  Slice, RustlsSliceSliceBytes, contains, RustlsSliceStr, rustls_slice_str_len, no_str,
  rustls_slice_str_get,
}
use rustls_ffi.Slice.Views.{AllLive, rustls_slice_str_get_lem}
use rustls_ffi.Examples.{zeros}

-- rustls' texts, all of them one byte long.
abbrev short_text : RustlsError → List ℕ
short_text e = 65 ∷ []

cert_result_to_error_example :
    let r = RustlsResult.cert_sct_unknown_log in
    ((rustls_result_is_cert_error (code r) ≡ true) × (map_error (cert_result_to_error r) ≡ r))
    ⊎ ((rustls_result_is_cert_error (code r) ≡ false)
        × (cert_result_to_error r ≡ RustlsError.general ""))
cert_result_to_error_example = cert_result_to_error_lem RustlsResult.cert_sct_unknown_log

abbrev closed : RustlsError
closed = RustlsError.alert_received AlertDescription.close_notify

closed_keeps : loses_payload closed ≡ false
unfolding loses_payload
closed_keeps = refl

message_of-map_error_example : message_of (map_error closed) ≡ error closed
message_of-map_error_example = message_of-map_error closed closed_keeps

rustls_error-Reported_example :
    (m' : Memory) × (rustls_error short_text false 7101 100 2 200 zeros ≡ done tt m')
    × Reported (error_text short_text 7101) 100 2 200 zeros m'
rustls_error-Reported_example =
    rustls_error-Reported short_text false 7101 100 2 200 zeros (omega arith) (omega arith)
      (omega arith) (inr (omega arith))

short_text_fits : length (error_text short_text 7101) < 2 ^ 64
unfolding try_from_or to_string
short_text_fits = omega arith

rustls_error_empty_overruns_example :
    let text = error_text short_text 7101 in
    rustls_error short_text false 7101 100 0 200 zeros
    ≡ done tt (write 200 (length text) (copy text 100 zeros))
rustls_error_empty_overruns_example =
    rustls_error_empty_overruns short_text 7101 100 200 zeros (omega arith) (omega arith)
      short_text_fits

-- Two slices in a memory: the byte 104 at 300, and a zero byte at 400.
abbrev letters : Memory
letters = write 300 104 zeros

abbrev letter : Slice
letter = record { ptr = 300; elems = 104 ∷ [] }

abbrev zero_byte : Slice
zero_byte = record { ptr = 400; elems = 0 ∷ [] }

letters-AllLive : AllLive letters (letter ∷ zero_byte ∷ [])
unfolding from_raw_parts
letters-AllLive = (
  record { ne_null = omega arith; holds = refl },
  (record { ne_null = omega arith; holds = refl }, tt),
)

abbrev byte_slices : RustlsSliceSliceBytes
byte_slices = record { inner = letter ∷ zero_byte ∷ [] }

abbrev strings : RustlsSliceStr
strings = record { inner = letter ∷ zero_byte ∷ [] }

rustls_slice_str_get_example :
    let r = rustls_slice_str_get (some strings) 1 in
    ((1 < rustls_slice_str_len (some strings))
      × (r.chars ≢ null)
      × (contains (from_raw_parts r.chars r.len letters) 0 ≡ false)
      × (get_elem? strings.inner 1
          ≡ some (record { ptr = r.chars; elems = from_raw_parts r.chars r.len letters })))
    ⊎ ((r ≡ no_str)
        × ((rustls_slice_str_len (some strings) ≤ 1)
            ⊎ ((s : Slice) × (get_elem? strings.inner 1 ≡ some s) × (contains s.elems 0 ≡ true))))
rustls_slice_str_get_example = rustls_slice_str_get_lem letters strings 1 letters-AllLive
