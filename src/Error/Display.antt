-- ===== src/Error/Display.antt =====
-- error.rs: `impl Display for rustls_result`. The messages of rustls' own errors come from that
-- library, so they are the parameter `display_error`; those of the glue layer are written out.
use Prim.Native.Char.{code as char_code}
use Prim.Native.String.{String}
use rustls_ffi.Prelude.{ℕ, List, [], ◌∷◌}
use rustls_ffi.Error.Codes.{RustlsResult}
use rustls_ffi.Error.Mapping.{RustlsError, AlertDescription, SctError}

-- The bytes of a text of ASCII characters.
unfoldable pub codes : String → List ℕ
codes String.[] = []
codes (String.◌∷◌ c s) = char_code c ∷ codes s

pub data Message : Type 0 where
  text : String → Message
  error : RustlsError → Message

-- The arms of `fmt`: a text of this layer, or the rustls error whose `fmt` is called.
unfoldable pub message_of : RustlsResult → Message
message_of RustlsResult.ok = text "OK"
message_of RustlsResult.io = text "I/O error"
message_of RustlsResult.null_parameter = text "a parameter was NULL"
message_of RustlsResult.invalid_dns_name_error =
    text
      "hostname was either malformed or an IP address (rustls does not support certificates for IP addresses)"
message_of RustlsResult.panic = text "a Rust component panicked"
message_of RustlsResult.certificate_parse_error = text "error parsing certificate"
message_of RustlsResult.private_key_parse_error = text "error parsing private key"
message_of RustlsResult.insufficient_size = text "provided buffer is of insufficient size"
message_of RustlsResult.not_found = text "the item was not found"
message_of RustlsResult.invalid_parameter = text "a parameter had an invalid value"
message_of RustlsResult.cert_invalid_data = text "invalid certificate data found"
message_of RustlsResult.unexpected_eof = text "unexpected EOF"
message_of RustlsResult.plaintext_empty =
    text "no plaintext available; call rustls_connection_read_tls again"
message_of RustlsResult.inappropriate_message = text "received unexpected message"
message_of RustlsResult.inappropriate_handshake_message =
    text "received unexpected handshake message"
message_of RustlsResult.corrupt_message_payload = text "received corrupt message"
message_of RustlsResult.peer_incompatible_error = text "peer is incompatible"
message_of RustlsResult.peer_misbehaved_error = text "peer misbehaved"
message_of RustlsResult.general = text "general error"
message_of RustlsResult.corrupt_message = error RustlsError.corrupt_message
message_of RustlsResult.no_certificates_presented = error RustlsError.no_certificates_presented
message_of RustlsResult.decrypt_error = error RustlsError.decrypt_error
message_of RustlsResult.failed_to_get_current_time = error RustlsError.failed_to_get_current_time
message_of RustlsResult.failed_to_get_random_bytes = error RustlsError.failed_to_get_random_bytes
message_of RustlsResult.handshake_not_complete = error RustlsError.handshake_not_complete
message_of RustlsResult.peer_sent_oversized_record = error RustlsError.peer_sent_oversized_record
message_of RustlsResult.no_application_protocol = error RustlsError.no_application_protocol
message_of RustlsResult.bad_max_fragment_size = error RustlsError.bad_max_fragment_size
message_of RustlsResult.unsupported_name_type = error RustlsError.unsupported_name_type
message_of RustlsResult.encrypt_error = error RustlsError.encrypt_error
message_of RustlsResult.cert_invalid_encoding = error RustlsError.invalid_certificate_encoding
message_of RustlsResult.cert_invalid_signature_type =
    error RustlsError.invalid_certificate_signature_type
message_of RustlsResult.cert_invalid_signature = error RustlsError.invalid_certificate_signature
message_of RustlsResult.alert_close_notify =
    error (RustlsError.alert_received AlertDescription.close_notify)
message_of RustlsResult.alert_unexpected_message =
    error (RustlsError.alert_received AlertDescription.unexpected_message)
message_of RustlsResult.alert_bad_record_mac =
    error (RustlsError.alert_received AlertDescription.bad_record_mac)
message_of RustlsResult.alert_decryption_failed =
    error (RustlsError.alert_received AlertDescription.decryption_failed)
message_of RustlsResult.alert_record_overflow =
    error (RustlsError.alert_received AlertDescription.record_overflow)
message_of RustlsResult.alert_decompression_failure =
    error (RustlsError.alert_received AlertDescription.decompression_failure)
message_of RustlsResult.alert_handshake_failure =
    error (RustlsError.alert_received AlertDescription.handshake_failure)
message_of RustlsResult.alert_no_certificate =
    error (RustlsError.alert_received AlertDescription.no_certificate)
message_of RustlsResult.alert_bad_certificate =
    error (RustlsError.alert_received AlertDescription.bad_certificate)
message_of RustlsResult.alert_unsupported_certificate =
    error (RustlsError.alert_received AlertDescription.unsupported_certificate)
message_of RustlsResult.alert_certificate_revoked =
    error (RustlsError.alert_received AlertDescription.certificate_revoked)
message_of RustlsResult.alert_certificate_expired =
    error (RustlsError.alert_received AlertDescription.certificate_expired)
message_of RustlsResult.alert_certificate_unknown =
    error (RustlsError.alert_received AlertDescription.certificate_unknown)
message_of RustlsResult.alert_illegal_parameter =
    error (RustlsError.alert_received AlertDescription.illegal_parameter)
message_of RustlsResult.alert_unknown_ca =
    error (RustlsError.alert_received AlertDescription.unknown_ca)
message_of RustlsResult.alert_access_denied =
    error (RustlsError.alert_received AlertDescription.access_denied)
message_of RustlsResult.alert_decode_error =
    error (RustlsError.alert_received AlertDescription.decode_error)
message_of RustlsResult.alert_decrypt_error =
    error (RustlsError.alert_received AlertDescription.decrypt_error)
message_of RustlsResult.alert_export_restriction =
    error (RustlsError.alert_received AlertDescription.export_restriction)
message_of RustlsResult.alert_protocol_version =
    error (RustlsError.alert_received AlertDescription.protocol_version)
message_of RustlsResult.alert_insufficient_security =
    error (RustlsError.alert_received AlertDescription.insufficient_security)
message_of RustlsResult.alert_internal_error =
    error (RustlsError.alert_received AlertDescription.internal_error)
message_of RustlsResult.alert_inappropriate_fallback =
    error (RustlsError.alert_received AlertDescription.inappropriate_fallback)
message_of RustlsResult.alert_user_canceled =
    error (RustlsError.alert_received AlertDescription.user_canceled)
message_of RustlsResult.alert_no_renegotiation =
    error (RustlsError.alert_received AlertDescription.no_renegotiation)
message_of RustlsResult.alert_missing_extension =
    error (RustlsError.alert_received AlertDescription.missing_extension)
message_of RustlsResult.alert_unsupported_extension =
    error (RustlsError.alert_received AlertDescription.unsupported_extension)
message_of RustlsResult.alert_certificate_unobtainable =
    error (RustlsError.alert_received AlertDescription.certificate_unobtainable)
message_of RustlsResult.alert_unrecognised_name =
    error (RustlsError.alert_received AlertDescription.unrecognised_name)
message_of RustlsResult.alert_bad_certificate_status_response =
    error (RustlsError.alert_received AlertDescription.bad_certificate_status_response)
message_of RustlsResult.alert_bad_certificate_hash_value =
    error (RustlsError.alert_received AlertDescription.bad_certificate_hash_value)
message_of RustlsResult.alert_unknown_psk_identity =
    error (RustlsError.alert_received AlertDescription.unknown_psk_identity)
message_of RustlsResult.alert_certificate_required =
    error (RustlsError.alert_received AlertDescription.certificate_required)
message_of RustlsResult.alert_no_application_protocol =
    error (RustlsError.alert_received AlertDescription.no_application_protocol)
message_of RustlsResult.alert_unknown =
    error (RustlsError.alert_received (AlertDescription.unknown 0))
message_of RustlsResult.cert_sct_malformed = error (RustlsError.invalid_sct SctError.malformed_sct)
message_of RustlsResult.cert_sct_invalid_signature =
    error (RustlsError.invalid_sct SctError.invalid_signature)
message_of RustlsResult.cert_sct_timestamp_in_future =
    error (RustlsError.invalid_sct SctError.timestamp_in_future)
message_of RustlsResult.cert_sct_unsupported_version =
    error (RustlsError.invalid_sct SctError.unsupported_sct_version)
message_of RustlsResult.cert_sct_unknown_log = error (RustlsError.invalid_sct SctError.unknown_log)

abbrev pub render : (RustlsError → List ℕ) → Message → List ℕ
unfolding codes
render display_error (text s) = codes s
render display_error (error e) = display_error e

-- `self.to_string()`, as bytes
unfoldable pub to_string : (RustlsError → List ℕ) → RustlsResult → List ℕ
unfolding message_of codes
to_string display_error r = render display_error (message_of r)
