-- ===== src/UnitTests/Texts.antt =====
-- error.rs and rslice.rs: the tests of error texts and of views. Their buffers lie at fixed places.
use rustls_ffi.Prelude.{
  ℕ, Bool, true, false, ◌≡◌, refl, ◌+◌, some, List, [], ◌∷◌, not, if◌then◌else◌,
}
use rustls_ffi.Panic.{Cmd, ◌>>=◌, ◌>>◌, ffi_panic_boundary}
use rustls_ffi.Memory.{Ptr, Memory, null, is_null, copy, from_raw_parts}
use rustls_ffi.Error.Codes.{try_from_or}
use rustls_ffi.Error.Mapping.{RustlsError}
use rustls_ffi.Error.Display.{codes, to_string}
use rustls_ffi.Error.Report.{rustls_error, usize_sub, is_cert_error, rustls_result_is_cert_error}
use rustls_ffi.Slice.{
  Slice, contains, str_try_from, RustlsSliceStr, rustls_slice_str_len, rustls_slice_str_get,
  slice_u16, slice_bytes, RustlsSliceSliceBytes, rustls_slice_slice_bytes_len,
  rustls_slice_slice_bytes_get,
}
use rustls_ffi.Examples.{zeros}
use rustls_ffi.UnitTests.{assert, assert_eq, assert_err, unwrap, same, passes}

-- The text that the test expects of rustls.
abbrev rustls_text : RustlsError → List ℕ
unfolding codes
rustls_text RustlsError.no_certificates_presented = codes "peer sent no certificates"
rustls_text _ = []

abbrev buf : Ptr
buf = 2000

abbrev out_n : Ptr
out_n = 800

-- A call, and the comparison of the text that it leaves in the buffer.
abbrev assert_text : (overflow_checks : Bool) (result : ℕ) → List ℕ → Cmd Memory (Unit {0})
assert_text overflow_checks result expected =
    rustls_error rustls_text overflow_checks result buf 512 out_n >> λ m.
    assert (same (from_raw_parts buf (m out_n) m) expected) m

unfoldable test_rustls_error : (overflow_checks : Bool) → Cmd Memory (Unit {0})
unfolding codes
test_rustls_error overflow_checks = do
  assert_text overflow_checks 0 (codes "a parameter had an invalid value")
  assert_text overflow_checks 7000 (codes "OK")
  assert_text overflow_checks 7101 (codes "peer sent no certificates")

abbrev all_cert_errors : List ℕ → Bool
all_cert_errors [] = true
all_cert_errors (n ∷ ns) = if rustls_result_is_cert_error n then all_cert_errors ns else false

unfoldable test_rustls_result_is_cert_error : Cmd Memory (Unit {0})
test_rustls_result_is_cert_error = do
  assert (not (rustls_result_is_cert_error 0))
  assert (not (rustls_result_is_cert_error 7000))
  assert (all_cert_errors (7117 ∷ 7118 ∷ 7119 ∷ 7120 ∷ 7319 ∷ 7320 ∷ 7321 ∷ 7322 ∷ 7323 ∷ []))

-- A string of the source at an address.
abbrev str : Ptr → List ℕ → Slice
str p s = record { ptr = p; elems = s }

unfoldable test_rustls_str_rejects_nul : Cmd Memory (Unit {0})
test_rustls_str_rejects_nul = do
  assert_err (str_try_from (str 100 (0 ∷ [])))
  assert_err (str_try_from (str 100 (b'a' ∷ b'b' ∷ b'c' ∷ 0 ∷ [])))
  assert_err (str_try_from (str 100 (b'a' ∷ b'b' ∷ 0 ∷ b'c' ∷ b'd' ∷ [])))

abbrev many_strings : List Slice
unfolding codes
many_strings = str 100 (codes "abcd") ∷ str 200 [] ∷ str 300 (codes "xyz") ∷ []

-- The strings, where they are.
abbrev strings : Memory
unfolding codes copy
strings = copy (codes "abcd") 100 (copy (codes "xyz") 300 zeros)

-- `*p`
abbrev assert_at : Ptr → ℕ → Cmd Memory (Unit {0})
assert_at p c m = assert_eq (m p) c m

unfoldable test_rustls_slice_str : Cmd Memory (Unit {0})
test_rustls_slice_str = do
  let rss : RustlsSliceStr = record { inner = many_strings }
  assert_eq (rustls_slice_str_len (some rss)) 3
  assert_eq (rustls_slice_str_get (some rss) 0).len 4
  assert_eq (rustls_slice_str_get (some rss) 1).len 0
  assert (not (is_null (rustls_slice_str_get (some rss) 1).chars))
  assert_eq (rustls_slice_str_get (some rss) 2).len 3
  assert_eq (rustls_slice_str_get (some rss) 3).len 0
  assert_eq (rustls_slice_str_get (some rss) 3).chars null
  assert_at (rustls_slice_str_get (some rss) 0).chars b'a'
  assert_at ((rustls_slice_str_get (some rss) 0).chars + 3) b'd'
  assert_at (rustls_slice_str_get (some rss) 2).chars b'x'
  assert_at ((rustls_slice_str_get (some rss) 2).chars + 2) b'z'

unfoldable test_rustls_slice_slice_bytes : Cmd Memory (Unit {0})
test_rustls_slice_slice_bytes = do
  let rssb : RustlsSliceSliceBytes = record { inner = many_strings }
  assert_eq (rustls_slice_slice_bytes_len (some rssb)) 3
  assert_eq (rustls_slice_slice_bytes_get (some rssb) 0).len 4
  assert_eq (rustls_slice_slice_bytes_get (some rssb) 1).len 0
  assert (not (is_null (rustls_slice_slice_bytes_get (some rssb) 1).bytes))
  assert_eq (rustls_slice_slice_bytes_get (some rssb) 2).len 3
  assert_eq (rustls_slice_slice_bytes_get (some rssb) 3).len 0
  assert_eq (rustls_slice_slice_bytes_get (some rssb) 3).bytes null
  assert_at (rustls_slice_slice_bytes_get (some rssb) 0).bytes b'a'
  assert_at ((rustls_slice_slice_bytes_get (some rssb) 0).bytes + 3) b'd'
  assert_at (rustls_slice_slice_bytes_get (some rssb) 2).bytes b'x'
  assert_at ((rustls_slice_slice_bytes_get (some rssb) 2).bytes + 2) b'z'

abbrev abcd : Slice
unfolding codes
abcd = str 100 (codes "abcd")

unfoldable test_rustls_slice_bytes : Cmd Memory (Unit {0})
test_rustls_slice_bytes = do
  let rsb = slice_bytes abcd
  assert_at rsb.bytes b'a'
  assert_at (rsb.bytes + 3) b'd'
  assert_eq rsb.len 4

unfoldable test_rustls_str : Cmd Memory (Unit {0})
test_rustls_str = do
  rs ← unwrap (str_try_from abcd)
  assert_eq rs.len 4
  assert_at rs.chars b'a'
  assert_at (rs.chars + 3) b'd'

abbrev u16s : Slice
u16s = record { ptr = 400; elems = 101 ∷ 314 ∷ 2718 ∷ [] }

unfoldable test_rustls_slice_u16 : Cmd Memory (Unit {0})
test_rustls_slice_u16 = do
  let rsu = slice_u16 u16s
  assert_eq rsu.len 3
  assert_at rsu.words 101
  assert_at (rsu.words + 1) 314
  assert_at (rsu.words + 2) 2718

passes-test_rustls_error : passes (test_rustls_error true) zeros ≡ true
unfolding test_rustls_error rustls_error ffi_panic_boundary usize_sub try_from_or to_string copy
    from_raw_parts
passes-test_rustls_error = refl

passes-test_rustls_result_is_cert_error : passes test_rustls_result_is_cert_error zeros ≡ true
unfolding test_rustls_result_is_cert_error rustls_result_is_cert_error is_cert_error try_from_or
passes-test_rustls_result_is_cert_error = refl

passes-test_rustls_str_rejects_nul : passes test_rustls_str_rejects_nul zeros ≡ true
unfolding test_rustls_str_rejects_nul str_try_from contains
passes-test_rustls_str_rejects_nul = refl

passes-test_rustls_slice_str : passes test_rustls_slice_str strings ≡ true
unfolding test_rustls_slice_str rustls_slice_str_len rustls_slice_str_get str_try_from contains
    strings
passes-test_rustls_slice_str = refl

passes-test_rustls_slice_u16 : passes test_rustls_slice_u16 (copy u16s.elems u16s.ptr zeros) ≡ true
unfolding test_rustls_slice_u16 slice_u16 copy
passes-test_rustls_slice_u16 = refl

passes-test_rustls_slice_slice_bytes : passes test_rustls_slice_slice_bytes strings ≡ true
unfolding test_rustls_slice_slice_bytes rustls_slice_slice_bytes_len rustls_slice_slice_bytes_get
    slice_bytes strings
passes-test_rustls_slice_slice_bytes = refl

passes-test_rustls_slice_bytes : passes test_rustls_slice_bytes strings ≡ true
unfolding test_rustls_slice_bytes slice_bytes abcd strings
passes-test_rustls_slice_bytes = refl

passes-test_rustls_str : passes test_rustls_str strings ≡ true
unfolding test_rustls_str str_try_from contains abcd strings
passes-test_rustls_str = refl
