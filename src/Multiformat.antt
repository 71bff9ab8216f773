-- ===== src/Multiformat.antt =====
-- src/multiformat.rs: a multicodec prefix in front of a payload, and its multibase text. The varint
-- and base crates are the parameter `lib`.
pub mod RoundTrip
pub mod Tests
use rust_ma_core.Common.{
  ℕ, Str, Bytes, is_empty, Option, none, some, List, [], ◌∷◌, ◌++◌, ok, err, ok_or, ◌>>=◌,
  if◌then◌else◌,
}
use rust_ma_core.Error.{MaError, MaResult, invalid_public_key_multibase}
use rust_ma_core.External.Multi.{MultiLib}

abbrev pub codec_identity : ℕ
codec_identity = 0x00

abbrev pub codec_cbor : ℕ
codec_cbor = 0x51

abbrev pub codec_dag_cbor : ℕ
codec_dag_cbor = 0x71

module _ (lib : MultiLib) where
  open lib use {varint_encode, varint_decode, base58_encode, base_decode}

  unfoldable pub multibase_encode : Bytes → Str
  multibase_encode b = base58_encode b

  unfoldable pub multibase_decode : Str → MaResult Bytes
  multibase_decode input = ok_or (base_decode input) invalid_public_key_multibase

  unfoldable pub multicodec_encode : ℕ → Bytes → Bytes
  multicodec_encode codec payload = varint_encode codec ++ payload

  unfoldable pub multicodec_decode : Bytes → MaResult (ℕ × Bytes)
  multicodec_decode encoded = do
    (codec, remainder) ← ok_or (varint_decode encoded) invalid_public_key_multibase
    if is_empty remainder then err invalid_public_key_multibase else ok (codec, remainder)

  unfoldable pub public_key_multibase_encode : ℕ → Bytes → Str
  unfolding multibase_encode multicodec_encode
  public_key_multibase_encode codec public_key =
      multibase_encode (multicodec_encode codec public_key)

  unfoldable pub public_key_multibase_decode : Str → MaResult (ℕ × Bytes)
  unfolding multibase_decode multicodec_decode
  public_key_multibase_decode input = do decoded ← multibase_decode input; multicodec_decode decoded

  unfoldable pub signature_multibase_encode : ℕ → Bytes → Str
  unfolding multibase_encode multicodec_encode
  signature_multibase_encode codec signature = multibase_encode (multicodec_encode codec signature)

  unfoldable pub signature_multibase_decode : Str → MaResult (ℕ × Bytes)
  unfolding multibase_decode multicodec_decode
  signature_multibase_decode input = do decoded ← multibase_decode input; multicodec_decode decoded
