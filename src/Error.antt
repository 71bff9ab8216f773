-- ===== src/Error.antt =====
-- src/error.rs: the error enums. The texts of the `#[error]` attributes are for display only and
-- are not modelled; the source's arguments of the variants are.
use rust_ma_core.Common.{ℕ, Str, Result}

pub data MaError : Type 0 where
  empty_did invalid_did_prefix missing_identifier missing_fragment unexpected_fragment : MaError
  invalid_did_format : MaError
  invalid_fragment : Str → MaError
  invalid_identifier invalid_message_id empty_message_id invalid_message_type : MaError
  invalid_key_type invalid_identity_secret invalid_recipient missing_content : MaError
  missing_content_type missing_sender missing_signature invalid_message_timestamp : MaError
  message_too_old message_from_future replay_detected : MaError
  broadcast_must_not_have_recipient broadcast_must_not_be_encrypted : MaError
  encryption_required message_requires_recipient empty_context invalid_context : MaError
  empty_controller verification_method_missing_type : MaError
  invalid_verification_method_type unknown_verification_method : Str → MaError
  empty_public_key_multibase invalid_public_key_multibase : MaError
  invalid_multicodec invalid_key_length : ℕ → ℕ → MaError
  missing_proof : MaError
  invalid_proof_type invalid_proof_purpose : Str → MaError
  invalid_document_signature invalid_message_signature : MaError
  invalid_created_at invalid_updated_at missing_envelope_field : Str → MaError
  invalid_ephemeral_key_length ciphertext_too_short crypto : MaError
  cbor_encode cbor_decode json_encode json_decode : Str → MaError

-- Service-level errors.
pub data Error : Type 0 where
  transport connect bind stream_open connection_closed : Str → Error
  validation : MaError → Error
  signature_verification : Error
  replay : Str → Error
  resolution ipns_resolution : Str → Str → Error
  no_inbox_transport invalid_transport secret_key endpoint_id config secrets acl : Str → Error
  duplicate_service other : Str → Error

abbrev pub MaResult : Type 0 → Type 0
MaResult A = Result MaError A

abbrev pub ServiceResult : Type 0 → Type 0
ServiceResult A = Result Error A
