-- ===== src/Error/Mapping.antt =====
-- error.rs: `map_error`, from rustls' errors to results, and `cert_result_to_error`, the way back
-- for certificate errors. The enums of rustls and sct are those that the source matches on
-- exhaustively; a payload that the source neither reads nor builds is left out.
use Prim.Native.String.{String}
use rustls_ffi.Prelude.{ℕ}
use rustls_ffi.Error.Codes.{RustlsResult}

-- `rustls::internal::msgs::enums::AlertDescription`
pub data AlertDescription : Type 0 where
  close_notify unexpected_message bad_record_mac decryption_failed : AlertDescription
  record_overflow decompression_failure handshake_failure no_certificate : AlertDescription
  bad_certificate unsupported_certificate certificate_revoked : AlertDescription
  certificate_expired certificate_unknown illegal_parameter unknown_ca : AlertDescription
  access_denied decode_error decrypt_error export_restriction protocol_version : AlertDescription
  insufficient_security internal_error inappropriate_fallback user_canceled : AlertDescription
  no_renegotiation missing_extension unsupported_extension : AlertDescription
  certificate_unobtainable unrecognised_name bad_certificate_status_response : AlertDescription
  bad_certificate_hash_value unknown_psk_identity certificate_required : AlertDescription
  no_application_protocol : AlertDescription
  unknown : ℕ → AlertDescription

-- `sct::Error`
pub data SctError : Type 0 where
  malformed_sct invalid_signature timestamp_in_future unsupported_sct_version : SctError
  unknown_log : SctError

-- `rustls::Error`
pub data RustlsError : Type 0 where
  inappropriate_message inappropriate_handshake_message corrupt_message : RustlsError
  corrupt_message_payload no_certificates_presented decrypt_error : RustlsError
  unsupported_name_type encrypt_error failed_to_get_current_time : RustlsError
  failed_to_get_random_bytes handshake_not_complete peer_sent_oversized_record : RustlsError
  no_application_protocol bad_max_fragment_size invalid_certificate_encoding : RustlsError
  invalid_certificate_signature_type invalid_certificate_signature : RustlsError
  peer_incompatible_error peer_misbehaved_error invalid_certificate_data : String → RustlsError
  general : String → RustlsError
  alert_received : AlertDescription → RustlsError
  invalid_sct : SctError → RustlsError

unfoldable pub map_alert : AlertDescription → RustlsResult
map_alert AlertDescription.close_notify = RustlsResult.alert_close_notify
map_alert AlertDescription.unexpected_message = RustlsResult.alert_unexpected_message
map_alert AlertDescription.bad_record_mac = RustlsResult.alert_bad_record_mac
map_alert AlertDescription.decryption_failed = RustlsResult.alert_decryption_failed
map_alert AlertDescription.record_overflow = RustlsResult.alert_record_overflow
map_alert AlertDescription.decompression_failure = RustlsResult.alert_decompression_failure
map_alert AlertDescription.handshake_failure = RustlsResult.alert_handshake_failure
map_alert AlertDescription.no_certificate = RustlsResult.alert_no_certificate
map_alert AlertDescription.bad_certificate = RustlsResult.alert_bad_certificate
map_alert AlertDescription.unsupported_certificate = RustlsResult.alert_unsupported_certificate
map_alert AlertDescription.certificate_revoked = RustlsResult.alert_certificate_revoked
map_alert AlertDescription.certificate_expired = RustlsResult.alert_certificate_expired
map_alert AlertDescription.certificate_unknown = RustlsResult.alert_certificate_unknown
map_alert AlertDescription.illegal_parameter = RustlsResult.alert_illegal_parameter
map_alert AlertDescription.unknown_ca = RustlsResult.alert_unknown_ca
map_alert AlertDescription.access_denied = RustlsResult.alert_access_denied
map_alert AlertDescription.decode_error = RustlsResult.alert_decode_error
map_alert AlertDescription.decrypt_error = RustlsResult.alert_decrypt_error
map_alert AlertDescription.export_restriction = RustlsResult.alert_export_restriction
map_alert AlertDescription.protocol_version = RustlsResult.alert_protocol_version
map_alert AlertDescription.insufficient_security = RustlsResult.alert_insufficient_security
map_alert AlertDescription.internal_error = RustlsResult.alert_internal_error
map_alert AlertDescription.inappropriate_fallback = RustlsResult.alert_inappropriate_fallback
map_alert AlertDescription.user_canceled = RustlsResult.alert_user_canceled
map_alert AlertDescription.no_renegotiation = RustlsResult.alert_no_renegotiation
map_alert AlertDescription.missing_extension = RustlsResult.alert_missing_extension
map_alert AlertDescription.unsupported_extension = RustlsResult.alert_unsupported_extension
map_alert AlertDescription.certificate_unobtainable = RustlsResult.alert_certificate_unobtainable
map_alert AlertDescription.unrecognised_name = RustlsResult.alert_unrecognised_name
map_alert AlertDescription.bad_certificate_status_response =
    RustlsResult.alert_bad_certificate_status_response
map_alert AlertDescription.bad_certificate_hash_value =
    RustlsResult.alert_bad_certificate_hash_value
map_alert AlertDescription.unknown_psk_identity = RustlsResult.alert_unknown_psk_identity
map_alert AlertDescription.certificate_required = RustlsResult.alert_certificate_required
map_alert AlertDescription.no_application_protocol = RustlsResult.alert_no_application_protocol
map_alert (AlertDescription.unknown _) = RustlsResult.alert_unknown

unfoldable pub map_sct : SctError → RustlsResult
map_sct SctError.malformed_sct = RustlsResult.cert_sct_malformed
map_sct SctError.invalid_signature = RustlsResult.cert_sct_invalid_signature
map_sct SctError.timestamp_in_future = RustlsResult.cert_sct_timestamp_in_future
map_sct SctError.unsupported_sct_version = RustlsResult.cert_sct_unsupported_version
map_sct SctError.unknown_log = RustlsResult.cert_sct_unknown_log

unfoldable pub map_error : RustlsError → RustlsResult
unfolding map_alert map_sct
map_error RustlsError.inappropriate_message = RustlsResult.inappropriate_message
map_error RustlsError.inappropriate_handshake_message = RustlsResult.inappropriate_handshake_message
map_error RustlsError.corrupt_message = RustlsResult.corrupt_message
map_error RustlsError.corrupt_message_payload = RustlsResult.corrupt_message_payload
map_error RustlsError.no_certificates_presented = RustlsResult.no_certificates_presented
map_error RustlsError.decrypt_error = RustlsResult.decrypt_error
map_error (RustlsError.peer_incompatible_error _) = RustlsResult.peer_incompatible_error
map_error (RustlsError.peer_misbehaved_error _) = RustlsResult.peer_misbehaved_error
map_error RustlsError.unsupported_name_type = RustlsResult.unsupported_name_type
map_error RustlsError.encrypt_error = RustlsResult.encrypt_error
map_error RustlsError.failed_to_get_current_time = RustlsResult.failed_to_get_current_time
map_error RustlsError.failed_to_get_random_bytes = RustlsResult.failed_to_get_random_bytes
map_error RustlsError.handshake_not_complete = RustlsResult.handshake_not_complete
map_error RustlsError.peer_sent_oversized_record = RustlsResult.peer_sent_oversized_record
map_error RustlsError.no_application_protocol = RustlsResult.no_application_protocol
map_error RustlsError.bad_max_fragment_size = RustlsResult.bad_max_fragment_size
map_error RustlsError.invalid_certificate_encoding = RustlsResult.cert_invalid_encoding
map_error RustlsError.invalid_certificate_signature_type = RustlsResult.cert_invalid_signature_type
map_error RustlsError.invalid_certificate_signature = RustlsResult.cert_invalid_signature
map_error (RustlsError.invalid_certificate_data _) = RustlsResult.cert_invalid_data
map_error (RustlsError.general _) = RustlsResult.general
map_error (RustlsError.alert_received e) = map_alert e
map_error (RustlsError.invalid_sct e) = map_sct e

unfoldable pub cert_result_to_error : RustlsResult → RustlsError
cert_result_to_error RustlsResult.cert_invalid_encoding = RustlsError.invalid_certificate_encoding
cert_result_to_error RustlsResult.cert_invalid_signature_type =
    RustlsError.invalid_certificate_signature_type
cert_result_to_error RustlsResult.cert_invalid_signature = RustlsError.invalid_certificate_signature
cert_result_to_error RustlsResult.cert_invalid_data = RustlsError.invalid_certificate_data ""
cert_result_to_error RustlsResult.cert_sct_malformed =
    RustlsError.invalid_sct SctError.malformed_sct
cert_result_to_error RustlsResult.cert_sct_invalid_signature =
    RustlsError.invalid_sct SctError.invalid_signature
cert_result_to_error RustlsResult.cert_sct_timestamp_in_future =
    RustlsError.invalid_sct SctError.timestamp_in_future
cert_result_to_error RustlsResult.cert_sct_unsupported_version =
    RustlsError.invalid_sct SctError.unsupported_sct_version
cert_result_to_error RustlsResult.cert_sct_unknown_log =
    RustlsError.invalid_sct SctError.unknown_log
cert_result_to_error _ = RustlsError.general ""
