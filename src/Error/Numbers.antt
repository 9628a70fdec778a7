-- ===== src/Error/Numbers.antt =====
-- Result numbers: the conversion from `u32` and the enum, the certificate errors among them, and
-- what becomes of an error of rustls.
use rustls_ffi.Prelude.{
  ℕ, ◌≤◌, ◌≡◌, refl, ◌↔◌, ◌⊎◌, inl, inr, Bool, true, false, Option, none, some, List, [], ◌∷◌,
  arith, ◌==◌, ==_iff, if◌then◌else◌,
}
use rustls_ffi.Error.Codes.{RustlsResult, code, variants, find_code, try_from, try_from_or}
use rustls_ffi.Error.Mapping.{
  RustlsError, AlertDescription, SctError, map_alert, map_sct, map_error, cert_result_to_error,
}
use rustls_ffi.Error.Display.{error, message_of}
use rustls_ffi.Error.Report.{is_cert_error, rustls_result_is_cert_error}

pub try_from-code : (r : RustlsResult) → try_from (code r) ≡ some r
unfolding try_from code variants find_code
try_from-code RustlsResult.ok = refl
try_from-code _ = refl

if_some {ℓ} :
    {A : Type ℓ} (b : Bool) {a c : A} {o : Option A}
    → (if b then some a else o) ≡ some c
    → ((b ≡ true) × (a ≡ c)) ⊎ ((b ≡ false) × (o ≡ some c))
if_some true h = inl (refl, cc)
if_some false h = inr (refl, h)

find_code-some :
    (rs : List RustlsResult) (n : ℕ) (r : RustlsResult) → find_code rs n ≡ some r → code r ≡ n
unfolding find_code
find_code-some [] n r h = cc
find_code-some (s ∷ rs) n r h = elim (if_some (code s == n) h) [
  | inl (found, e) ↦ rw (← e) ((==_iff (code s) n).0 found)
  | inr (_, later) ↦ find_code-some rs n r later
]

-- `try_from` gives a variant for a number exactly when the number is the variant's discriminant.
pub try_from_iff : (n : ℕ) (r : RustlsResult) → (try_from n ≡ some r) ↔ (code r ≡ n)
try_from_iff n r =
    (λ h. find_code-some variants n r (unfold try_from in h), λ e. rw (← e) (try_from-code r))

pub try_from_or-code : (r d : RustlsResult) → try_from_or (code r) d ≡ r
unfolding try_from_or
try_from_or-code r d = rw (try_from-code r)

cert_error_cases :
    (r : RustlsResult)
    → ((is_cert_error r ≡ true) × (map_error (cert_result_to_error r) ≡ r))
      ⊎ ((is_cert_error r ≡ false) × (cert_result_to_error r ≡ RustlsError.general ""))
unfolding is_cert_error map_error map_sct cert_result_to_error
cert_error_cases RustlsResult.cert_invalid_encoding = inl (refl, refl)
cert_error_cases RustlsResult.cert_invalid_signature_type = inl (refl, refl)
cert_error_cases RustlsResult.cert_invalid_signature = inl (refl, refl)
cert_error_cases RustlsResult.cert_invalid_data = inl (refl, refl)
cert_error_cases RustlsResult.cert_sct_malformed = inl (refl, refl)
cert_error_cases RustlsResult.cert_sct_invalid_signature = inl (refl, refl)
cert_error_cases RustlsResult.cert_sct_timestamp_in_future = inl (refl, refl)
cert_error_cases RustlsResult.cert_sct_unsupported_version = inl (refl, refl)
cert_error_cases RustlsResult.cert_sct_unknown_log = inl (refl, refl)
cert_error_cases _ = inr (refl, refl)

-- A result that `rustls_result_is_cert_error` accepts survives the way to a rustls error and back;
-- any other becomes the general error with an empty text.
pub cert_result_to_error_lem :
    (r : RustlsResult)
    → ((rustls_result_is_cert_error (code r) ≡ true) × (map_error (cert_result_to_error r) ≡ r))
      ⊎ ((rustls_result_is_cert_error (code r) ≡ false)
          × (cert_result_to_error r ≡ RustlsError.general ""))
unfolding rustls_result_is_cert_error
cert_result_to_error_lem r =
    rw (try_from_or-code r RustlsResult.invalid_parameter) (cert_error_cases r)

-- A number that is no discriminant is no certificate error.
pub is_cert_error-none : (n : ℕ) → try_from n ≡ none → rustls_result_is_cert_error n ≡ false
unfolding rustls_result_is_cert_error try_from_or is_cert_error
is_cert_error-none n h = rw h

-- The rustls errors with a payload that the text of the result does not show.
unfoldable pub loses_payload : RustlsError → Bool
loses_payload RustlsError.inappropriate_message = true
loses_payload RustlsError.inappropriate_handshake_message = true
loses_payload RustlsError.corrupt_message_payload = true
loses_payload (RustlsError.peer_incompatible_error _) = true
loses_payload (RustlsError.peer_misbehaved_error _) = true
loses_payload (RustlsError.invalid_certificate_data _) = true
loses_payload (RustlsError.general _) = true
loses_payload (RustlsError.alert_received (AlertDescription.unknown _)) = true
loses_payload _ = false

-- The text of a mapped error is rustls' own text for that error, unless a payload is lost.
pub message_of-map_error :
    (e : RustlsError) → loses_payload e ≡ false → message_of (map_error e) ≡ error e
unfolding message_of map_error map_alert map_sct loses_payload
message_of-map_error RustlsError.inappropriate_message h = cc
message_of-map_error (RustlsError.alert_received (AlertDescription.unknown n)) h = cc
message_of-map_error (RustlsError.alert_received AlertDescription.close_notify) h = refl
message_of-map_error (RustlsError.alert_received _) h = refl
message_of-map_error (RustlsError.invalid_sct SctError.malformed_sct) h = refl
message_of-map_error (RustlsError.invalid_sct _) h = refl
message_of-map_error RustlsError.inappropriate_handshake_message h = cc
message_of-map_error RustlsError.corrupt_message_payload h = cc
message_of-map_error (RustlsError.peer_incompatible_error _) h = cc
message_of-map_error (RustlsError.peer_misbehaved_error _) h = cc
message_of-map_error (RustlsError.invalid_certificate_data _) h = cc
message_of-map_error (RustlsError.general _) h = cc
message_of-map_error _ h = refl

-- An error of rustls gets a number of its own range, 7100 and up: it is never reported as success
-- or as an error of the glue layer.
pub map_error_range : (e : RustlsError) → 7100 ≤ code (map_error e)
unfolding code map_error map_alert map_sct
map_error_range (RustlsError.alert_received (AlertDescription.unknown n)) = omega arith
map_error_range (RustlsError.alert_received _) = omega arith
map_error_range (RustlsError.invalid_sct SctError.malformed_sct) = omega arith
map_error_range (RustlsError.invalid_sct _) = omega arith
map_error_range _ = omega arith
