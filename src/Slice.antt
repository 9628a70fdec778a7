-- ===== src/Slice.antt =====
-- rslice.rs: views of Rust slices and strings that C can read. A Rust slice is where it starts and
-- what it holds, of a `&str` its UTF-8 bytes. A parameter `*const T` that the code turns into a
-- reference by `as_ref()` is an `Option`, which is `none` for NULL.
pub mod Views
pub mod Formatting
use rustls_ffi.Prelude.{
  ℕ, Bool, true, false, Option, none, some, List, [], ◌∷◌, Result, ok, err, ◌==◌, ◌||◌,
  if◌then◌else◌, length, get_elem?, unwrap_or,
}
use rustls_ffi.Memory.{Ptr, null}

pub record Slice : Type 0 where
  pub ptr : Ptr
  pub elems : List ℕ

pub record RustlsSliceBytes : Type 0 where
  pub bytes : Ptr
  pub len : ℕ

-- `From<&[u8]> for rustls_slice_bytes`
unfoldable pub slice_bytes : Slice → RustlsSliceBytes
slice_bytes s = record { bytes = s.ptr; len = length s.elems }

pub record RustlsSliceSliceBytes : Type 0 where
  pub inner : List Slice

unfoldable pub rustls_slice_slice_bytes_len : Option RustlsSliceSliceBytes → ℕ
rustls_slice_slice_bytes_len none = 0
rustls_slice_slice_bytes_len (some c) = length c.inner

abbrev pub no_bytes : RustlsSliceBytes
no_bytes = record { bytes = null; len = 0 }

abbrev pub bytes_or_null : Option Slice → RustlsSliceBytes
unfolding slice_bytes
bytes_or_null none = no_bytes
bytes_or_null (some rsb) = slice_bytes rsb

unfoldable pub rustls_slice_slice_bytes_get : Option RustlsSliceSliceBytes → ℕ → RustlsSliceBytes
unfolding slice_bytes
rustls_slice_slice_bytes_get none n = no_bytes
rustls_slice_slice_bytes_get (some c) n = bytes_or_null (get_elem? c.inner n)

pub record RustlsStr : Type 0 where
  pub chars : Ptr
  pub len : ℕ

pub data NulByte : Type 0 where
  nul_byte : NulByte

unfoldable pub contains : List ℕ → ℕ → Bool
contains [] c = false
contains (x ∷ xs) c = x == c || contains xs c

-- `TryFrom<&str> for rustls_str`
unfoldable pub str_try_from : Slice → Result NulByte RustlsStr
unfolding contains
str_try_from s =
    if contains s.elems 0 then err nul_byte else ok (record { chars = s.ptr; len = length s.elems })

-- `rustls_str::from_str_unchecked`
unfoldable pub from_str_unchecked : Slice → RustlsStr
from_str_unchecked s = record { chars = s.ptr; len = length s.elems }

pub record RustlsSliceStr : Type 0 where
  pub inner : List Slice

unfoldable pub rustls_slice_str_len : Option RustlsSliceStr → ℕ
rustls_slice_str_len none = 0
rustls_slice_str_len (some c) = length c.inner

abbrev pub no_str : RustlsStr
no_str = record { chars = null; len = 0 }

-- `.and_then(|&s| s.try_into().ok()).unwrap_or(rustls_str { data: null(), len: 0 })`
abbrev pub str_or_null : Option Slice → RustlsStr
unfolding str_try_from
str_or_null none = no_str
str_or_null (some s) = elim (str_try_from s) [ ok r ↦ r | err e ↦ no_str ]

unfoldable pub rustls_slice_str_get : Option RustlsSliceStr → ℕ → RustlsStr
unfolding str_try_from
rustls_slice_str_get none n = no_str
rustls_slice_str_get (some c) n = str_or_null (get_elem? c.inner n)

pub record RustlsSliceU16 : Type 0 where
  pub words : Ptr
  pub len : ℕ

-- `From<&[u16]> for rustls_slice_u16`
unfoldable pub slice_u16 : Slice → RustlsSliceU16
slice_u16 s = record { words = s.ptr; len = length s.elems }
