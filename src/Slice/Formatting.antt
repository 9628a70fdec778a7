-- ===== src/Slice/Formatting.antt =====
-- rslice.rs and panic.rs: how a `rustls_str` is printed, and what stands for it after a panic.
use rustls_ffi.Prelude.{ℕ, Bool, true, ◌≡◌, refl, List, [], ◌++◌, ok, if◌then◌else◌, length, arith}
use mathlib.Core.Path.{subst}
use rustls_ffi.Panic.{PanicOrDefault}
use rustls_ffi.Memory.{Ptr, Memory, from_raw_parts}
use rustls_ffi.Error.Display.{codes}
use rustls_ffi.Slice.{Slice, RustlsStr, str_try_from, from_str_unchecked}

-- `PanicOrDefault for rustls_str`: the empty string of the source, which lies at `empty_at`.
abbrev pub str_panic : (empty_at : Ptr) → PanicOrDefault RustlsStr
str_panic empty_at = record {
  panic_value = from_str_unchecked (record { ptr = empty_at; elems = [] });
}

-- Parts of Rust's formatting: `str::from_utf8` as a test, and `{:?}` of a string and of a number.
pub record DebugHost : Type 0 where
  pub is_utf8 : List ℕ → Bool
  pub debug_str : List ℕ → List ℕ
  pub debug_number : ℕ → List ℕ

-- `{:?}` of a struct with the fields `data` and `len`.
abbrev pub debug_struct : DebugHost → List ℕ → ℕ → List ℕ
unfolding codes
debug_struct host s len =
    codes "rustls_str { data: "
    ++ (host.debug_str s ++ (codes ", len: " ++ (host.debug_number len ++ codes " }")))

-- `fmt::Debug for rustls_str`
unfoldable pub fmt : DebugHost → RustlsStr → Memory → List ℕ
unfolding codes
fmt host self m =
    let raw = from_raw_parts self.chars self.len m in
    debug_struct host (if host.is_utf8 raw then raw else codes "%!(ERROR)") self.len

str_made :
    (s : Slice) (r : RustlsStr)
    → str_try_from s ≡ ok r
    → record { chars = s.ptr; len = length s.elems } ≡ r
unfolding str_try_from
str_made s r made = ground arith

-- A `rustls_str` that is made of a string in the memory, which is valid UTF-8, is printed with that
-- string and its length.
pub fmt-str_try_from :
    (host : DebugHost) (s : Slice) (r : RustlsStr) (m : Memory)
    → str_try_from s ≡ ok r
    → from_raw_parts s.ptr (length s.elems) m ≡ s.elems
    → host.is_utf8 s.elems ≡ true
    → fmt host r m ≡ debug_struct host s.elems (length s.elems)
unfolding fmt str_try_from
fmt-str_try_from host s r m made there valid =
    subst (λ r. fmt host r m ≡ debug_struct host s.elems (length s.elems)) (str_made s r made)
      (rw (there, valid) refl)
