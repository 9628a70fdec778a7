-- ===== src/Slice/Views.antt =====
-- What C reads through the views.
use rustls_ffi.Prelude.{
  ℕ, zero, suc, ◌≤◌, ◌<◌, ◌≡◌, ◌≢◌, ◌⊎◌, inl, inr, true, false, some, List, [], ◌∷◌, arith, length,
  get_elem?, get_elem?-cases, Bool-cases,
}
use rustls_ffi.Memory.{null, Memory, from_raw_parts}
use rustls_ffi.Slice.{
  Slice, RustlsSliceSliceBytes, rustls_slice_slice_bytes_len, no_bytes, bytes_or_null,
  rustls_slice_slice_bytes_get, contains, str_try_from, RustlsSliceStr, rustls_slice_str_len,
  no_str, str_or_null, rustls_slice_str_get,
}

-- A slice lives in the memory: its elements stand at its address, which is not NULL.
pub record Lives (m : Memory) (s : Slice) : Type 0 where
  pub ne_null : s.ptr ≢ null
  pub holds : from_raw_parts s.ptr (length s.elems) m ≡ s.elems

abbrev pub AllLive : Memory → List Slice → Type 0
AllLive m [] = Unit {0}
AllLive m (s ∷ ss) = Lives m s × AllLive m ss

AllLive-get :
    (m : Memory) (ss : List Slice) (n : ℕ) {s : Slice}
    → AllLive m ss
    → get_elem? ss n ≡ some s
    → Lives m s
AllLive-get m [] n a e = cc
AllLive-get m (s ∷ ss) zero a e = ground (arith, a.0)
AllLive-get m (s ∷ ss) (suc n) a e = AllLive-get m ss n a.1 e

-- Indexing a slice of byte slices that live in the memory: below the length that C is told, reading
-- through the result gives the n-th slice, from an address that is not NULL; from the length on,
-- the result is NULL.
pub rustls_slice_slice_bytes_get_lem :
    (m : Memory) (c : RustlsSliceSliceBytes) (n : ℕ)
    → AllLive m c.inner
    → let r = rustls_slice_slice_bytes_get (some c) n in
      ((n < rustls_slice_slice_bytes_len (some c))
        × (r.bytes ≢ null)
        × (get_elem? c.inner n
            ≡ some (record { ptr = r.bytes; elems = from_raw_parts r.bytes r.len m })))
      ⊎ ((rustls_slice_slice_bytes_len (some c) ≤ n) × (r ≡ no_bytes))
unfolding rustls_slice_slice_bytes_get rustls_slice_slice_bytes_len
rustls_slice_slice_bytes_get_lem m c n a = elim (get_elem?-cases c.inner n) [
  | inl (h, (s, e)) ↦
      let l = AllLive-get m c.inner n a e in
      inl (h, rw (e, bytes_or_null) l.ne_null, rw (e, bytes_or_null) (ground (arith, l.holds)))
  | inr (h, e) ↦ inr (h, rw (e, bytes_or_null))
]

-- Indexing a slice of strings that live in the memory: a result that is not NULL stands for the
-- n-th string, which has no NUL byte; the result is NULL exactly when the index is out of range or
-- the n-th string has one.
pub rustls_slice_str_get_lem :
    (m : Memory) (c : RustlsSliceStr) (n : ℕ)
    → AllLive m c.inner
    → let r = rustls_slice_str_get (some c) n in
      ((n < rustls_slice_str_len (some c))
        × (r.chars ≢ null)
        × (contains (from_raw_parts r.chars r.len m) 0 ≡ false)
        × (get_elem? c.inner n
            ≡ some (record { ptr = r.chars; elems = from_raw_parts r.chars r.len m })))
      ⊎ ((r ≡ no_str)
          × ((rustls_slice_str_len (some c) ≤ n)
              ⊎ ((s : Slice) × (get_elem? c.inner n ≡ some s) × (contains s.elems 0 ≡ true))))
unfolding rustls_slice_str_get rustls_slice_str_len str_try_from
rustls_slice_str_get_lem m c n a = elim (get_elem?-cases c.inner n) [
  | inr (h, e) ↦ inr (rw (e, str_or_null), inl h)
  | inl (h, (s, e)) ↦
      let l = AllLive-get m c.inner n a e in
      elim (Bool-cases (contains s.elems 0)) [
        | inl nul ↦ inr (rw (e, str_or_null, nul), inr (s, e, nul))
        | inr clean ↦ inl (
          h,
          rw (e, str_or_null, clean) l.ne_null,
          rw (e, str_or_null, clean) (rw l.holds clean),
          rw (e, str_or_null, clean) (ground (arith, l.holds)),
        )
      ]
]
