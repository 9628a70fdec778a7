-- ===== src/Error/Bounds.antt =====
-- What `rustls_error` writes.
use rustls_ffi.Prelude.{
  ℕ, ◌+◌, ◌-◌, ◌≤◌, ◌⊎◌, inl, inr, ◌<◌, ◌≡◌, refl, sym, ◌≢◌, Bool, true, false, List, arith, length,
  take, length-take, take_all, min, ◌∙◌, ap, ◌^◌,
}
use native.Mathlib.Decide.{ℕ_discrete, dec_lt}
use rustls_ffi.Panic.{done}
use rustls_ffi.Memory.{
  Ptr, Memory, null, write, copy, from_raw_parts, Outside, copy-Outside, from_raw_parts-write,
  from_raw_parts-copy,
}
use rustls_ffi.Error.Codes.{RustlsResult, try_from_or}
use rustls_ffi.Error.Mapping.{RustlsError}
use rustls_ffi.Error.Display.{to_string}
use rustls_ffi.Error.Report.{rustls_error}

-- The text that a result number stands for.
abbrev pub error_text : (RustlsError → List ℕ) → ℕ → List ℕ
error_text display_error result =
    to_string display_error (try_from_or result RustlsResult.invalid_parameter)

-- What a call with room for at least one byte does to the memory.
pub record Reported (text : List ℕ) (buf : Ptr) (len : ℕ) (out_n : Ptr) (m m' : Memory)
    : Type 0 where
  -- fewer bytes than the buffer holds
  pub count_lt : m' out_n < len
  pub prefix : from_raw_parts buf (m' out_n) m' ≡ take (m' out_n) text
  -- the whole text, if it is shorter than the buffer
  pub count : m' out_n ≡ min (len - 1) (length text)
  pub same : (q : Ptr) → (m' q ≡ m q) ⊎ (q ≡ out_n) ⊎ ((buf ≤ q) × (q < buf + len))

module _ (text : List ℕ) (buf out_n : Ptr) (m : Memory) where
  -- The memory after the first `k` bytes of the text and their number are written.
  abbrev written : ℕ → Memory
  written k = write out_n k (copy (take k text) buf m)

  written-out_n : (k : ℕ) → written k out_n ≡ k
  written-out_n k = ground arith

  from_raw_parts-written :
      (k : ℕ)
      → k ≤ length text
      → Outside buf k out_n
      → from_raw_parts buf k (written k) ≡ take k text
  from_raw_parts-written k h apart =
      let n : length (take k text) ≡ k = omega (arith, length-take k text) in
      from_raw_parts-write buf k (copy (take k text) buf m) out_n k apart
      ∙ (ap (λ j. from_raw_parts buf j (copy (take k text) buf m)) (sym n)
          ∙ from_raw_parts-copy (take k text) buf m)

  written-same :
      (k : ℕ) (q : Ptr) → k ≤ length text → Outside buf k q → q ≢ out_n → written k q ≡ m q
  written-same k q h o ne = ground (arith, length-take k text, copy-Outside (take k text) buf m q)

  written-same_or :
      (len k : ℕ) (q : Ptr)
      → k ≡ min (len - 1) (length text)
      → 0 < len
      → (written k q ≡ m q) ⊎ (q ≡ out_n) ⊎ ((buf ≤ q) × (q < buf + len))
  written-same_or len k q e l = elim (ℕ_discrete q out_n) [
    | yes h ↦ inr (inl h)
    | no ne ↦ elim (dec_lt q buf) [
      | yes below ↦ inl (written-same k q (omega arith) (ground arith) ne)
      | no above ↦ elim (dec_lt q (buf + len)) [
        | yes inside ↦ inr (inr (omega arith, inside))
        | no past ↦ inl (written-same k q (omega arith) (ground arith) ne)
      ]
    ]
  ]

  written-Reported :
      (len k : ℕ)
      → k ≡ min (len - 1) (length text)
      → 0 < len
      → Outside buf len out_n
      → Reported text buf len out_n m (written k)
  written-Reported len k e l apart = record {
    count_lt = rw (written-out_n k) (omega arith);
    prefix = rw (written-out_n k) (from_raw_parts-written k (omega arith) (omega arith));
    count = written-out_n k ∙ e;
    same = λ q. written-same_or len k q e l;
  }

module _ (display_error : RustlsError → List ℕ) (overflow_checks : Bool) (result : ℕ) where
  rustls_error-written :
      (buf : Ptr) (len : ℕ) (out_n : Ptr) (m : Memory)
      → buf ≢ null
      → out_n ≢ null
      → 0 < len
      → let text = error_text display_error result in
        rustls_error display_error overflow_checks result buf len out_n m
        ≡ done tt (written text buf out_n m (min (len - 1) (length text)))
  unfolding rustls_error
  rustls_error-written buf len out_n m b o l = ground arith

  -- Called with a buffer of at least one byte, and an `out_n` outside it, `rustls_error` returns,
  -- whatever the build profile: it has put a prefix of the text into the buffer, shorter than the
  -- buffer, and its length into `out_n`; the prefix is the whole text if that is shorter than the
  -- buffer; and nothing else is changed.
  pub rustls_error-Reported :
      (buf : Ptr) (len : ℕ) (out_n : Ptr) (m : Memory)
      → buf ≢ null
      → out_n ≢ null
      → 0 < len
      → Outside buf len out_n
      → (m' : Memory) × (rustls_error display_error overflow_checks result buf len out_n m
          ≡ done tt m')
        × Reported (error_text display_error result) buf len out_n m m'
  rustls_error-Reported buf len out_n m b o l apart = (
    _,
    rustls_error-written buf len out_n m b o l,
    written-Reported (error_text display_error result) buf out_n m len _ refl l apart,
  )

module _ (display_error : RustlsError → List ℕ) (result : ℕ) where
  -- With overflow checks, a call with an empty buffer changes nothing: the panic of `len - 1` stops
  -- at the boundary.
  pub rustls_error_empty_checked :
      (buf out_n : Ptr) (m : Memory)
      → rustls_error display_error true result buf 0 out_n m ≡ done tt m
  unfolding rustls_error
  rustls_error_empty_checked buf out_n m = ground arith

  -- Without overflow checks, `len - 1` wraps around for an empty buffer: if neither pointer is NULL
  -- and the whole text is shorter than 2 ^ 64 bytes, all of it is written from `buf` on.
  pub rustls_error_empty_overruns :
      (buf out_n : Ptr) (m : Memory)
      → buf ≢ null
      → out_n ≢ null
      → length (error_text display_error result) < 2 ^ 64
      → let text = error_text display_error result in
        rustls_error display_error false result buf 0 out_n m
        ≡ done tt (write out_n (length text) (copy text buf m))
  unfolding rustls_error
  rustls_error_empty_overruns buf out_n m b o h =
      ground (
        arith,
        take_all (length (error_text display_error result)) (error_text display_error result),
      )
