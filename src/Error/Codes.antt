-- ===== src/Error/Codes.antt =====
-- error.rs: `rustls_result`, its discriminants (`#[repr(u32)]`), and the conversion that
-- `#[derive(TryFromPrimitive)]` gives it: the variant with the number, if there is one.
use rustls_ffi.Prelude.{ℕ, Option, none, some, List, [], ◌∷◌, ◌==◌, if◌then◌else◌, unwrap_or}

pub data RustlsResult : Type 0 where
  ok io null_parameter invalid_dns_name_error panic certificate_parse_error : RustlsResult
  private_key_parse_error insufficient_size not_found invalid_parameter : RustlsResult
  unexpected_eof plaintext_empty corrupt_message no_certificates_presented : RustlsResult
  decrypt_error failed_to_get_current_time failed_to_get_random_bytes : RustlsResult
  handshake_not_complete peer_sent_oversized_record no_application_protocol : RustlsResult
  bad_max_fragment_size unsupported_name_type encrypt_error cert_invalid_encoding : RustlsResult
  cert_invalid_signature_type cert_invalid_signature cert_invalid_data : RustlsResult
  peer_incompatible_error peer_misbehaved_error inappropriate_message : RustlsResult
  inappropriate_handshake_message corrupt_message_payload general : RustlsResult
  alert_close_notify alert_unexpected_message alert_bad_record_mac : RustlsResult
  alert_decryption_failed alert_record_overflow alert_decompression_failure : RustlsResult
  alert_handshake_failure alert_no_certificate alert_bad_certificate : RustlsResult
  alert_unsupported_certificate alert_certificate_revoked : RustlsResult
  alert_certificate_expired alert_certificate_unknown alert_illegal_parameter : RustlsResult
  alert_unknown_ca alert_access_denied alert_decode_error alert_decrypt_error : RustlsResult
  alert_export_restriction alert_protocol_version alert_insufficient_security : RustlsResult
  alert_internal_error alert_inappropriate_fallback alert_user_canceled : RustlsResult
  alert_no_renegotiation alert_missing_extension alert_unsupported_extension : RustlsResult
  alert_certificate_unobtainable alert_unrecognised_name : RustlsResult
  alert_bad_certificate_status_response alert_bad_certificate_hash_value : RustlsResult
  alert_unknown_psk_identity alert_certificate_required : RustlsResult
  alert_no_application_protocol alert_unknown cert_sct_malformed : RustlsResult
  cert_sct_invalid_signature cert_sct_timestamp_in_future : RustlsResult
  cert_sct_unsupported_version cert_sct_unknown_log : RustlsResult

-- `r as u32`
unfoldable pub code : RustlsResult → ℕ
code ok = 7000
code io = 7001
code null_parameter = 7002
code invalid_dns_name_error = 7003
code panic = 7004
code certificate_parse_error = 7005
code private_key_parse_error = 7006
code insufficient_size = 7007
code not_found = 7008
code invalid_parameter = 7009
code unexpected_eof = 7010
code plaintext_empty = 7011
code corrupt_message = 7100
code no_certificates_presented = 7101
code decrypt_error = 7102
code failed_to_get_current_time = 7103
code failed_to_get_random_bytes = 7113
code handshake_not_complete = 7104
code peer_sent_oversized_record = 7105
code no_application_protocol = 7106
code bad_max_fragment_size = 7114
code unsupported_name_type = 7115
code encrypt_error = 7116
code cert_invalid_encoding = 7117
code cert_invalid_signature_type = 7118
code cert_invalid_signature = 7119
code cert_invalid_data = 7120
code peer_incompatible_error = 7107
code peer_misbehaved_error = 7108
code inappropriate_message = 7109
code inappropriate_handshake_message = 7110
code corrupt_message_payload = 7111
code general = 7112
code alert_close_notify = 7200
code alert_unexpected_message = 7201
code alert_bad_record_mac = 7202
code alert_decryption_failed = 7203
code alert_record_overflow = 7204
code alert_decompression_failure = 7205
code alert_handshake_failure = 7206
code alert_no_certificate = 7207
code alert_bad_certificate = 7208
code alert_unsupported_certificate = 7209
code alert_certificate_revoked = 7210
code alert_certificate_expired = 7211
code alert_certificate_unknown = 7212
code alert_illegal_parameter = 7213
code alert_unknown_ca = 7214
code alert_access_denied = 7215
code alert_decode_error = 7216
code alert_decrypt_error = 7217
code alert_export_restriction = 7218
code alert_protocol_version = 7219
code alert_insufficient_security = 7220
code alert_internal_error = 7221
code alert_inappropriate_fallback = 7222
code alert_user_canceled = 7223
code alert_no_renegotiation = 7224
code alert_missing_extension = 7225
code alert_unsupported_extension = 7226
code alert_certificate_unobtainable = 7227
code alert_unrecognised_name = 7228
code alert_bad_certificate_status_response = 7229
code alert_bad_certificate_hash_value = 7230
code alert_unknown_psk_identity = 7231
code alert_certificate_required = 7232
code alert_no_application_protocol = 7233
code alert_unknown = 7234
code cert_sct_malformed = 7319
code cert_sct_invalid_signature = 7320
code cert_sct_timestamp_in_future = 7321
code cert_sct_unsupported_version = 7322
code cert_sct_unknown_log = 7323

-- The variants in the order of the source.
unfoldable pub variants : List RustlsResult
variants =
    ok ∷ io ∷ null_parameter ∷ invalid_dns_name_error ∷ panic ∷ certificate_parse_error
    ∷ private_key_parse_error ∷ insufficient_size ∷ not_found ∷ invalid_parameter ∷ unexpected_eof
    ∷ plaintext_empty ∷ corrupt_message ∷ no_certificates_presented ∷ decrypt_error
    ∷ failed_to_get_current_time ∷ failed_to_get_random_bytes ∷ handshake_not_complete
    ∷ peer_sent_oversized_record ∷ no_application_protocol ∷ bad_max_fragment_size
    ∷ unsupported_name_type ∷ encrypt_error ∷ cert_invalid_encoding ∷ cert_invalid_signature_type
    ∷ cert_invalid_signature ∷ cert_invalid_data ∷ peer_incompatible_error ∷ peer_misbehaved_error
    ∷ inappropriate_message ∷ inappropriate_handshake_message ∷ corrupt_message_payload ∷ general
    ∷ alert_close_notify ∷ alert_unexpected_message ∷ alert_bad_record_mac ∷ alert_decryption_failed
    ∷ alert_record_overflow ∷ alert_decompression_failure ∷ alert_handshake_failure
    ∷ alert_no_certificate ∷ alert_bad_certificate ∷ alert_unsupported_certificate
    ∷ alert_certificate_revoked ∷ alert_certificate_expired ∷ alert_certificate_unknown
    ∷ alert_illegal_parameter ∷ alert_unknown_ca ∷ alert_access_denied ∷ alert_decode_error
    ∷ alert_decrypt_error ∷ alert_export_restriction ∷ alert_protocol_version
    ∷ alert_insufficient_security ∷ alert_internal_error ∷ alert_inappropriate_fallback
    ∷ alert_user_canceled ∷ alert_no_renegotiation ∷ alert_missing_extension
    ∷ alert_unsupported_extension ∷ alert_certificate_unobtainable ∷ alert_unrecognised_name
    ∷ alert_bad_certificate_status_response ∷ alert_bad_certificate_hash_value
    ∷ alert_unknown_psk_identity ∷ alert_certificate_required ∷ alert_no_application_protocol
    ∷ alert_unknown ∷ cert_sct_malformed ∷ cert_sct_invalid_signature ∷ cert_sct_timestamp_in_future
    ∷ cert_sct_unsupported_version ∷ cert_sct_unknown_log ∷ []

unfoldable pub find_code : List RustlsResult → ℕ → Option RustlsResult
find_code [] n = none
find_code (r ∷ rs) n = if code r == n then some r else find_code rs n

-- `rustls_result::try_from(n)`
unfoldable pub try_from : ℕ → Option RustlsResult
unfolding variants find_code code
try_from n = find_code variants n

-- `rustls_result::try_from(n).unwrap_or(d)`
unfoldable pub try_from_or : ℕ → RustlsResult → RustlsResult
unfolding try_from
try_from_or n d = unwrap_or (try_from n) d
